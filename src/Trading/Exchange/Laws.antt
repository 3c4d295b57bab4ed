-- ===== src/Trading/Exchange/Laws.antt =====
-- What the exchange calls guarantee: how often a read is tried, and when cancelling has succeeded.
use tonatiuh_trading_saas.Prelude.{
  ℕ, zero, suc, ◌+◌, ◌≤◌, ◌<◌, String, true, false, ◌≡◌, refl, ◌⊎◌, inl, inr, List, [], ◌∷◌, arith,
  Bool-cases,
}
use tonatiuh_trading_saas.Prelude.Action.{Result, ok, err, Action, Outcome-cases}
use tonatiuh_trading_saas.Number.{Number}
use tonatiuh_trading_saas.Trading.Types.{Order}
use tonatiuh_trading_saas.Trading.Outside.{Outside, CcxtError, Failure, exchange, undefined_error}
use tonatiuh_trading_saas.Trading.Exchange.{
  is_transient_exchange_error, read_attempts, read_with_retry, retry_delay, cancel_all_orders,
  cancel_each, cancel_one_by_one, cancel_open_orders,
}

module _ {X A : Type 0} (sleep : ℕ → X → X) (request : Action X CcxtError A) where
  -- The runs that the retry policy allows: `Tried k x end` is a run from `x` whose first attempt
  -- is number `k`, and that ends with an answer or an error in a state.
  pub data Tried : ℕ → X → Result Failure A × X → Type 0 where
    answered : {k : ℕ} {x y : X} {a : A} → k ≤ 5 → request x ≡ (ok a, y) → Tried k x (ok a, y)
    gave_up :
        {k : ℕ} {x y : X} {e : CcxtError}
        → k ≤ 5
        → request x ≡ (err e, y)
        → (is_transient_exchange_error e ≡ false) ⊎ (k ≡ 5)
        → Tried k x (err (exchange e), y)
    retried :
        {k : ℕ} {x y : X} {e : CcxtError} {end : Result Failure A × X}
        → k < 5
        → request x ≡ (err e, y)
        → is_transient_exchange_error e ≡ true
        → Tried (k + 1) (sleep (retry_delay sleep k) y) end
        → Tried k x end

  -- one round of the loop, by how its request ends
  module _ (left attempt : ℕ) (last : Failure) {x y : X} where
    attempt_answered :
        {a : A}
        → request x ≡ (ok a, y)
        → read_attempts sleep request (suc left) attempt last x ≡ (ok a, y)
    unfolding read_attempts
    attempt_answered eq = ground arith

    attempt_final :
        {e : CcxtError}
        → request x ≡ (err e, y)
        → (is_transient_exchange_error e ≡ false) ⊎ (attempt ≡ 5)
        → read_attempts sleep request (suc left) attempt last x ≡ (err (exchange e), y)
    unfolding read_attempts
    attempt_final eq final = ground arith

    attempt_retried :
        {e : CcxtError}
        → request x ≡ (err e, y)
        → is_transient_exchange_error e ≡ true
        → attempt < 5
        → read_attempts sleep request (suc left) attempt last x
          ≡ read_attempts sleep request left
              (attempt + 1)
              (exchange e)
              (sleep (retry_delay sleep attempt) y)
    unfolding read_attempts
    attempt_retried eq again more = ground arith

  read_attempts-Tried :
      (left attempt : ℕ) (last : Failure) (x : X)
      → attempt + suc left ≡ 6
      → Tried attempt x (read_attempts sleep request (suc left) attempt last x)
  read_attempts-Tried zero attempt last x e = elim (Outcome-cases (request x)) [
    | inl (a, y, eq) ↦ rw (attempt_answered zero attempt last eq) (answered (omega arith) eq)
    | inr (error, y, eq) ↦
        let five : (is_transient_exchange_error error ≡ false) ⊎ (attempt ≡ 5) =
          inr (omega arith) in
        rw (attempt_final zero attempt last eq five) (gave_up (omega arith) eq five)
  ]
  read_attempts-Tried (suc left) attempt last x e = elim (Outcome-cases (request x)) [
    | inl (a, y, eq) ↦ rw (attempt_answered (suc left) attempt last eq) (answered (omega arith) eq)
    | inr (error, y, eq) ↦ elim (Bool-cases (is_transient_exchange_error error)) [
      | inl again ↦ rw (attempt_retried (suc left) attempt last eq again (omega arith)) (
          retried (omega arith) eq again (
            read_attempts-Tried left (attempt + 1) (exchange error)
              (sleep (retry_delay sleep attempt) y) (omega arith)))
      | inr final ↦
          rw (attempt_final (suc left) attempt last eq (inl final))
            (gave_up (omega arith) eq (inl final))
    ]
  ]

  -- A read with retries makes at most five attempts: it ends with the first answer, with the first
  -- error that is not transient, or with the fifth error, and it waits out the delay of each
  -- attempt before the next one.
  pub read_with_retry-Tried : (x : X) → Tried 1 x (read_with_retry sleep request x)
  unfolding read_with_retry
  read_with_retry-Tried x = read_attempts-Tried 4 1 undefined_error x refl

module _ {N X : Type 0} ⦃num : Number N⦄ (out : Outside N X) where
  cancel_open_orders_ok :
      (symbol : String) (orders : List (Order N)) (x x' : X)
      → cancel_open_orders out symbol orders x ≡ (ok tt, x')
      → (orders ≡ []) × (x' ≡ x) ⊎ ((y : X) × (out.fetch_open_orders symbol y ≡ (ok [], x')))
  unfolding cancel_open_orders
  cancel_open_orders_ok symbol [] x x' h = inl (refl, cc)
  cancel_open_orders_ok symbol (o ∷ os) x x' h =
      inr (cancel_each out symbol (o ∷ os) x, ground arith)

  -- If `cancelAllOrders` returns, either the exchange cancelled all orders in one call, or some
  -- later reading of the open orders came back empty.
  pub cancel_all_orders_ok :
      (symbol : String) (x x' : X)
      → cancel_all_orders out symbol x ≡ (ok tt, x')
      → (out.cancel_all symbol x ≡ (ok tt, x'))
        ⊎ ((y : X) × (out.fetch_open_orders symbol y ≡ (ok [], x')))
  unfolding cancel_all_orders cancel_one_by_one
  cancel_all_orders_ok symbol x x' h = elim (Outcome-cases (out.cancel_all symbol x)) [
    | inl (a, y, eq) ↦ inl (ground arith)
    | inr (e, y, eq) ↦ elim (Outcome-cases (out.fetch_open_orders symbol y)) [
      | inl (orders, z, found) ↦ elim (cancel_open_orders_ok symbol orders z x' (ground arith)) [
        | inl empty ↦ inr (y, ground arith)
        | inr later ↦ inr later
      ]
      | inr (e', z, failed) ↦ absurd (ground arith)
    ]
  ]
