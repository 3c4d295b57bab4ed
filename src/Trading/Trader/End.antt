-- ===== src/Trading/Trader/End.antt =====
-- `_endTradeSession` of src/trading-service/abstract.trading.ts: what a closed position leaves.
pub mod Laws
use tonatiuh_trading_saas.Prelude.{String, Bool, Option, some}
use tonatiuh_trading_saas.Prelude.Action.{Result, ok, err, Action, Done, ◌>>=◌, ◌>>◌}
use tonatiuh_trading_saas.Number.{Number, ◌⊕◌}
use tonatiuh_trading_saas.Trading.Outside.{Outside, Failure}
use tonatiuh_trading_saas.Trading.Orders.Desk.{clearing_order_list, revert_active_state_order}
use tonatiuh_trading_saas.Trading.Sessions as Sessions
use tonatiuh_trading_saas.Trading.SessionService.{
  calculate_profit_session, save_balance_state, null_as_zero, on_sessions,
}
use tonatiuh_trading_saas.Trading.Trader.{Trader, on_desk, on_service}

module _ {N X : Type 0} ⦃num : Number N⦄ (out : Outside N X) (keeps_alias : Bool) where
  -- the end of a session, once its profit is known
  abbrev pub end_with : N → Action (Trader N X) Failure Done
  end_with profit t =
      (do
        on_service
            (save_balance_state out t.services_config.exchange keeps_alias (some profit) t.orders)
        on_service (on_sessions (Sessions.end_trade_session out (some profit) t.index_operation))
        on_desk (revert_active_state_order out t.index_operation)
        on_desk clearing_order_list)
        t

  unfoldable pub end_trade_session : N → Action (Trader N X) Failure Done
  end_trade_session delta_for_sale t =
      (do
        profit ← on_service (
            calculate_profit_session out t.services_config.exchange keeps_alias t.index_operation
              t.orders)
        end_with (null_as_zero profit ⊕ delta_for_sale))
        t
