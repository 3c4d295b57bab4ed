-- ===== src/Trading/SessionService.antt =====
-- src/utils/SessionTrading/SessionTradingService.ts: starting, recovering and ending a session.
pub mod Keeps
pub mod Laws
use tonatiuh_trading_saas.Prelude.{
  ℕ, String, Bool, true, false, Option, none, some, List, [], ◌∷◌, map, last?, if◌then◌else◌, ◌or◌,
}
use tonatiuh_trading_saas.Prelude.Action.{Result, ok, err, Action, Done, pure, throw, ◌>>=◌, ◌>>◌}
use tonatiuh_trading_saas.Number.{Number, lit, to_number, ◌⊕◌}
use tonatiuh_trading_saas.Trading.Types.{Order, is_buy}
use tonatiuh_trading_saas.Trading.Outside.{Outside, Failure, Balance, other_failure}
use tonatiuh_trading_saas.Trading.Exchange.{BalanceCache, get_balance}
use tonatiuh_trading_saas.Trading.Reconciliation.{SessionOrderExposure, is_session_exposure_closed}
use tonatiuh_trading_saas.Trading.Orders.Desk.{
  Desk, clearing_order_list, get_all_orders_by_index_operation, revert_active_state_order,
}
use tonatiuh_trading_saas.Trading.Orders.Publish.{set_orders}
use tonatiuh_trading_saas.Trading.Orders.Rows.{get_profit_for_trade_session}
use tonatiuh_trading_saas.Trading.Balances.{
  StateBalance, Balances, create_state_balance, get_balance as latest_balance,
}
use tonatiuh_trading_saas.Trading.Sessions.{
  SessionRow, Sessions, start_session, checking_active_session, end_trade_session,
  get_all_profit_session,
}

-- The service's orders, the tables and what is outside; and the cache of its exchange service.
pub record Service (N X : Type 0) : Type 0 where
  pub desk : Desk N X
  pub sessions : List (SessionRow N)
  pub balances : List (StateBalance N)
  pub balance_cache : Option (Balance N × ℕ)

-- `typeSession`
pub data TypeSession : Type 0 where
  start_new_trade start_old_trade : TypeSession

-- a number with NULL as zero: `profit + null`
abbrev pub null_as_zero : {N : Type 0} ⦃num : Number N⦄ → Option N → N
null_as_zero profit = profit or lit 0

module _ {N X : Type 0} where
  abbrev pub on_desk : {A : Type 0} → Action (Desk N X) Failure A → Action (Service N X) Failure A
  on_desk m s = let (r, d) = m s.desk in (r, record s { desk = d })

  abbrev pub on_sessions :
      {A : Type 0} → Action (Sessions N X) Failure A → Action (Service N X) Failure A
  on_sessions m s =
      let (r, t) = m (record { rows = s.sessions; venue = s.desk.venue }) in
      (r, record s { sessions = t.rows; desk = record s.desk { venue = t.venue } })

  abbrev pub on_balances :
      {A : Type 0} → Action (Balances N X) Failure A → Action (Service N X) Failure A
  on_balances m s =
      let (r, t) = m (record { rows = s.balances; venue = s.desk.venue }) in
      (r, record s { balances = t.rows; desk = record s.desk { venue = t.venue } })

  abbrev pub on_exchange :
      {A : Type 0} → Action (Option (Balance N × ℕ) × X) Failure A → Action (Service N X) Failure A
  on_exchange m s =
      let (r, (cache, x)) = m (s.balance_cache, s.desk.venue) in
      (r, record s { balance_cache = cache; desk = record s.desk { venue = x } })

-- an order as `isSessionExposureClosed` reads it
abbrev pub exposure_of : {N : Type 0} ⦃num : Number N⦄ → Order N → SessionOrderExposure N
exposure_of order = record { side = order.side; amount = to_number order.amount }

-- `exchange` is the configuration's; `keeps_alias` says that the database keeps the case of the
-- unquoted alias `profitUsdt`, without which the column is missing under that name.
module _ {N X : Type 0} ⦃num : Number N⦄ (out : Outside N X) (exchange : String)
    (keeps_alias : Bool) where
  -- Without an order there is no side to read.
  abbrev pub profit_with :
      String → List (Order N) → Option (Order N) → Action (Service N X) Failure (Option N)
  profit_with index orders none =
      throw (other_failure "Cannot read properties of undefined (reading 'side')")
  profit_with index orders (some order) =
      on_desk (get_profit_for_trade_session out index order.side orders)

  unfoldable pub calculate_profit_session :
      String → List (Order N) → Action (Service N X) Failure (Option N)
  calculate_profit_session index orders = profit_with index orders (last? orders)

  -- `balance.USDT.free`
  abbrev pub usdt_of : Option N → Action (Service N X) Failure N
  usdt_of none = throw (other_failure "Cannot read properties of undefined (reading 'free')")
  usdt_of (some usdt) = pure usdt

  abbrev pub state_balance : Balance N → N → N → N → StateBalance N
  state_balance balance usdt profit_all profit_usdt = record {
    usdt = usdt;
    profit_all = profit_all;
    exchange_name = exchange;
    profit_usdt = profit_usdt;
    balance_object = balance;
  }

  -- `orders[0].side === 'buy' ? profit : 0`
  abbrev pub gain : Option N → Order N → N
  gain profit first = if is_buy first.side then null_as_zero profit else lit 0

  -- `prevBalance ? prevBalance.profitUsdt + … : 0`
  abbrev pub next_profit_usdt : Option (StateBalance N) → N → N
  next_profit_usdt none g = lit 0
  next_profit_usdt (some prev) g = (if keeps_alias then prev.profit_usdt else num.nan) ⊕ g

  -- with at least one order
  abbrev pub save_balance :
      Balance N
      → Option (StateBalance N)
      → Option N
      → Order N
      → Action (Service N X) Failure (Option (Balance N))
  save_balance balance none profit first = do
    usdt ← usdt_of (balance.free "USDT")
    on_balances (create_state_balance out (state_balance balance usdt (lit 0) (lit 0)))
    pure none
  save_balance balance (some _) profit first = do
    all_profit_session ← on_sessions (get_all_profit_session out)
    usdt ← usdt_of (balance.free "USDT")
    prev_balance ← on_balances (latest_balance out)
    on_balances (
        create_state_balance out (
          state_balance balance usdt (null_as_zero all_profit_session)
            (next_profit_usdt prev_balance (gain profit first))))
    pure (some balance)

  unfoldable pub save_balance_state :
      Option N → List (Order N) → Action (Service N X) Failure (Option (Balance N))
  save_balance_state profit orders = do
    balance ← on_exchange (get_balance out)
    is_existing ← on_balances (latest_balance out)
    elim orders [ [] ↦ pure none | first ∷ _ ↦ save_balance balance is_existing profit first ]

  -- what follows the end of a completed session
  abbrev pub settle : String → Action (Service N X) Failure Bool
  settle index = do
    on_desk (revert_active_state_order out index)
    on_desk clearing_order_list
    pure true

  -- `_checkingIfClosingOrderHasBeenCreated`
  unfoldable pub checking_if_closing_order_has_been_created :
      List (Order N) → String → Action (Service N X) Failure Bool
  checking_if_closing_order_has_been_created orders index =
      if is_session_exposure_closed (map exposure_of orders)
      then (do
        profit ← calculate_profit_session index orders
        save_balance_state profit orders
        on_sessions (end_trade_session out profit index)
        settle index)
      else pure false

  abbrev pub start_new : ℕ → Action (Service N X) Failure (TypeSession × String)
  start_new config_id = do
    index ← on_sessions (start_session out config_id)
    pure (start_new_trade, index)

  -- an active session with its orders
  abbrev pub recover :
      ℕ → String → List (Order N) → Action (Service N X) Failure (TypeSession × String)
  recover config_id index [] = do
    on_sessions (end_trade_session out (some (lit 0)) index)
    start_new config_id
  recover config_id index (o ∷ os) = do
    completed ← checking_if_closing_order_has_been_created (o ∷ os) index
    if completed
        then start_new config_id
        else (do on_desk (set_orders out (o ∷ os)); pure (start_old_trade, index))

  abbrev pub resume :
      ℕ → Option (SessionRow N) → Action (Service N X) Failure (TypeSession × String)
  resume config_id none = start_new config_id
  resume config_id (some old) = do
    orders ← on_desk (get_all_orders_by_index_operation out old.index_session)
    recover config_id old.index_session orders

  unfoldable pub init_trade_session : ℕ → Action (Service N X) Failure (TypeSession × String)
  init_trade_session config_id = do
    is_active_old_session ← on_sessions (checking_active_session out config_id)
    resume config_id is_active_old_session
