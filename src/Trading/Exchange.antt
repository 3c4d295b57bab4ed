-- ===== src/Trading/Exchange.antt =====
-- src/utils/ExchangeService/ExchangeService.ts: reads with retries, and cancelling with a fallback.
pub mod Laws
use tonatiuh_trading_saas.Prelude.{
  ℕ, zero, suc, ◌-◌, ◌*◌, ◌+◌, ◌^◌, min, String, Bool, false, not, ◌&&◌, ◌||◌, Option, none, some,
  List, [], ◌∷◌, map, if◌then◌else◌, ◌==◌ as nat_eq, any, ltb, length, is_some,
}
use text.Mathlib.Text.{◌==◌}
use tonatiuh_trading_saas.Prelude.Action.{
  Result, ok, err, Action, Done, pure, throw, catch, ◌>>=◌, ◌>>◌, modify,
}
use tonatiuh_trading_saas.Number.{Number, to_number, ◌⊖◌, neg}
use tonatiuh_trading_saas.Trading.Types.{Order, CreateOpenPosition, Side, is_buy}
use tonatiuh_trading_saas.Trading.Outside.{
  Outside, CcxtError, Failure, exchange, undefined_error, cannot_cancel, Balance, Candle,
}

abbrev transient_names : List String
transient_names =
    "DDoSProtection" ∷ "ExchangeNotAvailable" ∷ "NetworkError" ∷ "RateLimitExceeded"
    ∷ "RequestTimeout" ∷ []

abbrev transient_codes : List String
transient_codes = "ECONNRESET" ∷ "ECONNREFUSED" ∷ "ETIMEDOUT" ∷ "EAI_AGAIN" ∷ []

abbrev includes : List String → String → Bool
includes texts s = any (λ t. t == s) texts

abbrev code_or_empty : Option String → String
code_or_empty none = ""
code_or_empty (some c) = c

unfoldable pub is_transient_exchange_error : CcxtError → Bool
is_transient_exchange_error error =
    error.is_error
    && (includes transient_names error.name || includes transient_codes (code_or_empty error.code))

module _ {X : Type 0} (sleep : ℕ → X → X) where
  -- `Math.min(1000 * 2 ** (attempt - 1), 10_000)`
  abbrev pub retry_delay : ℕ → ℕ
  retry_delay attempt = min (1000 * 2 ^ (attempt - 1)) 10000

  -- The loop over `attempt`, with the attempts that are left and the last error.
  unfoldable pub read_attempts :
      {A : Type 0} → Action X CcxtError A → ℕ → ℕ → Failure → Action X Failure A
  read_attempts request zero attempt last_error x = (err last_error, x)
  read_attempts request (suc left) attempt last_error x =
      let (answer, x') = request x in
      elim answer [
        | ok a ↦ (ok a, x')
        | err error ↦
            let again =
              read_attempts request left (attempt + 1) (exchange error)
                (sleep (retry_delay attempt) x') in
            if not (is_transient_exchange_error error) || nat_eq attempt 5
            then (err (exchange error), x')
            else again
      ]

  unfoldable pub read_with_retry : {A : Type 0} → Action X CcxtError A → Action X Failure A
  unfolding read_attempts
  read_with_retry request = read_attempts request 5 1 undefined_error

-- A call that is not retried.
abbrev pub call : {X A : Type 0} → Action X CcxtError A → Action X Failure A
call request x =
    let (answer, x') = request x in
    elim answer [ ok a ↦ (ok a, x') | err error ↦ (err (exchange error), x') ]

module _ {N X : Type 0} ⦃num : Number N⦄ (out : Outside N X) where
  unfoldable pub get_tick : String → Action X Failure (Option N)
  get_tick symbol = read_with_retry out.sleep (out.fetch_ticker symbol)

  unfoldable pub get_price : String → Action X Failure N
  unfolding get_tick
  get_price symbol = do last ← get_tick symbol; pure (to_number last)

  unfoldable pub check_status_order_by_id : String → String → Action X Failure (Order N)
  check_status_order_by_id id symbol = read_with_retry out.sleep (out.fetch_order id symbol)

  unfoldable pub create_order : CreateOpenPosition N → Action X Failure (Order N)
  create_order settings = call (out.create_order settings)

  -- `Promise.allSettled` over the open orders: failures are dropped
  unfoldable pub cancel_each : String → List (Order N) → X → X
  cancel_each symbol [] x = x
  cancel_each symbol (order ∷ orders) x =
      cancel_each symbol orders (out.cancel_order order.id symbol x).1

  -- after the cancellations nothing may be left open
  abbrev pub require_none_left : String → List (Order N) → Action X Failure Done
  require_none_left symbol [] = pure tt
  require_none_left symbol (o ∷ os) = throw (cannot_cancel symbol (map (λ r. r.id) (o ∷ os)))

  -- from `if (!openOrders.length) return;` on
  unfoldable pub cancel_open_orders : String → List (Order N) → Action X Failure Done
  unfolding cancel_each
  cancel_open_orders symbol [] = pure tt
  cancel_open_orders symbol (o ∷ os) = do
    modify (cancel_each symbol (o ∷ os))
    remaining ← call (out.fetch_open_orders symbol)
    require_none_left symbol remaining

  -- the `catch` block of `cancelAllOrders`
  unfoldable pub cancel_one_by_one : String → CcxtError → Action X Failure Done
  unfolding cancel_open_orders
  cancel_one_by_one symbol bulk_cancel_error = do
    open_orders ←
        catch (call (out.fetch_open_orders symbol)) (λ _. throw (exchange bulk_cancel_error))
    cancel_open_orders symbol open_orders

  unfoldable pub cancel_all_orders : String → Action X Failure Done
  unfolding cancel_one_by_one
  cancel_all_orders symbol x =
      let (answer, x') = out.cancel_all symbol x in
      elim answer [
        | ok done ↦ (ok tt, x')
        | err bulk_cancel_error ↦ cancel_one_by_one symbol bulk_cancel_error x'
      ]

  -- The profit of one unit of an order at the market's price.
  unfoldable pub get_unrealized_pnl : String → N → Side → Action X Failure N
  unfolding get_tick
  get_unrealized_pnl symbol price_order side = do
    last ← get_tick symbol
    let calculate = to_number last ⊖ price_order
    pure (if is_buy side then calculate else neg calculate)

  -- a cached balance with the time at which it expires
  abbrev pub BalanceCache : Type 0
  BalanceCache = Option (Balance N × ℕ)

  abbrev fresh : BalanceCache → ℕ → Option (Balance N)
  fresh none now = none
  fresh (some (value, expires_at)) now = if ltb now expires_at then some value else none

  -- The service's own state is its balance cache, beside what is outside.
  unfoldable pub get_balance : Action (BalanceCache × X) Failure (Balance N)
  get_balance (cache, x) = elim (fresh cache (out.now x)) [
    | some value ↦ (ok value, (cache, x))
    | none ↦
        let (answer, x') = read_with_retry out.sleep out.fetch_balance x in
        elim answer [
          | ok balance ↦ (ok balance, (some (balance, out.now x' + 10000), x'))
          | err error ↦ (err error, (cache, x'))
        ]
  ]
