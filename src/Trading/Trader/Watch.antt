-- ===== src/Trading/Trader/Watch.antt =====
-- The loop of `_watchingProcess`, what starts it, and
-- src/trading-service/TradingVectorProfitService/TradingVectorProfitService.ts.
pub mod Laws
use tonatiuh_trading_saas.Prelude.{
  ℕ, zero, suc, String, Bool, true, false, not, ◌&&◌, Option, none, some, List, [], ◌∷◌, reduce,
  length, if◌then◌else◌, ◌or◌,
}
use text.Mathlib.Text.{◌==◌}
use tonatiuh_trading_saas.Prelude.Action.{Result, ok, err, Action, Done, pure, modify, ◌>>=◌, ◌>>◌}
use tonatiuh_trading_saas.Number.{Number, lit, to_number, ◌⊕◌, ◌≼◌}
use tonatiuh_trading_saas.Trading.Types.{Side, Order, SettingOrder, opposite}
use tonatiuh_trading_saas.Trading.Outside.{Outside, Failure}
use tonatiuh_trading_saas.Trading.Orders.Desk.{get_all_orders_by_index_operation}
use tonatiuh_trading_saas.Trading.Orders.Publish.{set_orders}
use tonatiuh_trading_saas.Trading.Orders.Close.{close_filled_position}
use tonatiuh_trading_saas.Trading.SessionService.{
  TypeSession, start_new_trade, start_old_trade, init_trade_session,
}
use tonatiuh_trading_saas.Trading.Settings.Config.{Config}
use tonatiuh_trading_saas.Trading.Settings.Encryption.{Crypto}
use tonatiuh_trading_saas.Trading.Settings.Flags.{record_logger}
use tonatiuh_trading_saas.Trading.Trader.{Trader, on_desk, on_service, on_configs, sleep_timeout}
use tonatiuh_trading_saas.Trading.Trader.Tracker.{on_price_tracker, close_position}
use tonatiuh_trading_saas.Trading.Trader.Entry.{TradingType, one_trade, Entered, entering_position}
use tonatiuh_trading_saas.Trading.Trader.Turn.{
  Watching, Options, TakeProfit, Turn, leave, still_tracking, next_turn, watch_turn,
}

-- `StartAlgorithmsType`
pub record StartAlgorithms (N X : Type 0) : Type 0 where
  pub type_trading : TradingType
  pub take_profit_logic : Option (TakeProfit N → Action (Trader N X) Failure (Option Bool))
  pub grid_logic : Option (Action (Trader N X) Failure Done)

abbrev pub is_empty : {N : Type 0} → List (Order N) → Bool
is_empty [] = true
is_empty (_ ∷ _) = false

abbrev amount_of : {N : Type 0} → Option (SettingOrder N) → Option N
amount_of none = none
amount_of (some setting) = some setting.amount

abbrev side_of : {N : Type 0} → Option (Order N) → Option Side
side_of none = none
side_of (some order) = some order.side

module _ {N X : Type 0} ⦃num : Number N⦄ where
  abbrev pub watching_entered : StartAlgorithms N X → Entered N → Watching N X
  watching_entered param entered = record {
    take_profit_logic = param.take_profit_logic;
    grid_logic = param.grid_logic;
    setting_amount = amount_of entered.setting;
    first_side = side_of entered.first_order;
    price = to_number entered.price;
  }

  -- what `checkingExistingOrders` passes on, of the first of the stored orders and the others
  abbrev pub watching_stored : StartAlgorithms N X → Order N → List (Order N) → Watching N X
  watching_stored param first orders = record {
    take_profit_logic = param.take_profit_logic;
    grid_logic = param.grid_logic;
    setting_amount =
        some (reduce (λ sum order. sum ⊕ to_number order.amount) (lit 0) (first ∷ orders));
    first_side = some first.side;
    price = to_number first.price;
  }

module _ {N X : Type 0} ⦃num : Number N⦄ (out : Outside N X) (crypto : Crypto X)
    (keeps_alias : Bool) (fuel : ℕ) where
  -- The loop with the turns that are left; `false` is a loop that has not ended.
  unfoldable pub watch_loop : Watching N X → ℕ → Options N → Action (Trader N X) Failure Bool
  watch_loop w zero options t = (ok (is_empty t.orders), t)
  watch_loop w (suc left) options t =
      if is_empty t.orders
      then (ok true, t)
      else (do
        turn ← watch_turn out crypto keeps_alias w options
        elim turn [
          | leave ↦ pure true
          | still_tracking ↦ pure false
          | next_turn options' ↦ watch_loop w left options'
        ])
          t

  unfoldable pub watching_process : Watching N X → Action (Trader N X) Failure Bool
  watching_process w t =
      watch_loop w fuel
        (record { buying_back = w.setting_amount or lit 0; drawdown_step = length t.orders }) t

  unfoldable pub start_new_trade_session : StartAlgorithms N X → Action (Trader N X) Failure Bool
  start_new_trade_session param = do
    entered ← entering_position out param.type_trading
    watching_process (watching_entered param entered)

  -- `checkingExistingOrders`, once the rows are read
  abbrev pub watch_stored : StartAlgorithms N X → List (Order N) → Action (Trader N X) Failure Bool
  watch_stored param [] = pure true
  watch_stored param (first ∷ orders) = do
    on_desk (set_orders out (first ∷ orders))
    watching_process (watching_stored param first orders)

  unfoldable pub checking_existing_orders : StartAlgorithms N X → Action (Trader N X) Failure Bool
  checking_existing_orders param t =
      (do
        orders ← on_desk (get_all_orders_by_index_operation out t.index_operation)
        watch_stored param orders)
        t

  abbrev pub continue_session : TypeSession → StartAlgorithms N X → Action (Trader N X) Failure Bool
  continue_session start_new_trade param = start_new_trade_session param
  continue_session start_old_trade param = checking_existing_orders param

  unfoldable pub start_trading_session : StartAlgorithms N X → Action (Trader N X) Failure Bool
  start_trading_session param t =
      (do
        sleep_timeout out 5000
        session ←
            on_service (init_trade_session out t.services_config.exchange keeps_alias t.config.id)
        modify (λ u. record u { index_operation = session.1 })
        continue_session session.0 param)
        t

  -- `_watchingTakeProfitLogic`
  unfoldable pub watching_take_profit_logic :
      TakeProfit N → Action (Trader N X) Failure (Option Bool)
  watching_take_profit_logic p t =
      (if t.config.percent_profit ≼ p.unrealized_pnl
          then if t.config.is_percent_target_after_take_profit
            then on_price_tracker out fuel (opposite p.side)
            else (do closed ← close_position out; pure (some closed))
          else pure (some false))
        t

  -- `initialize`, with the identity of the logger; the services start with no orders
  unfoldable pub initialize : Config N → String → Action (Trader N X) Failure Done
  initialize config logger_identity t =
      if t.initialized
      then (ok tt, t)
      else (do
        modify (λ u. record u {
          has_services = true;
          config = config;
          services_config = config;
          symbol = config.symbol;
          orders = [];
          balance_cache = none;
        })
        on_configs (record_logger out logger_identity config.id)
        modify (λ u. record u { initialized = true }))
          t

  unfoldable pub start_algorithms : Config N → String → Action (Trader N X) Failure Bool
  start_algorithms config logger_identity = do
    initialize config logger_identity
    start_trading_session (record {
      type_trading = one_trade;
      take_profit_logic = some watching_take_profit_logic;
      grid_logic = none;
    })

  -- without an order service, or a symbol, there is nothing to close
  unfoldable pub end_algorithms : Action (Trader N X) Failure Done
  end_algorithms t =
      if t.has_services && not (t.symbol == "")
      then (do on_desk (close_filled_position out t.symbol t.index_operation); pure tt) t
      else (ok tt, t)
