-- ===== src/Trading/Tests.antt =====
-- Runs of the order services against a simulated exchange, and the theorems at concrete inputs.
use tonatiuh_trading_saas.Prelude.{
  ℕ, zero, suc, true, false, ◌≡◌, refl, ◌⊎◌, none, some, List, [], ◌∷◌, ◌++◌, map, not, filter,
}
use text.Mathlib.Text.{◌==◌}
use tonatiuh_trading_saas.Prelude.Action.{Result, ok, err, After}
use tonatiuh_trading_saas.Number.Fixed.{Fixed, fixed_number, fixed-IsIeee}
use tonatiuh_trading_saas.Trading.Types.{buy, sell, closed, open_order, limit, SettingOrder}
use tonatiuh_trading_saas.Trading.Outside.{CcxtError}
use tonatiuh_trading_saas.Trading.Simulated.{amount, placed, simulated}
use tonatiuh_trading_saas.Trading.Exchange.{read_with_retry, cancel_all_orders}
use tonatiuh_trading_saas.Trading.Exchange.Laws.{Tried, read_with_retry-Tried, cancel_all_orders_ok}
use tonatiuh_trading_saas.Trading.Exposure.{
  ClosingOrderExposure, add_filled, closing_for, net_base_amount, calculate_closing_order_exposure,
}
use tonatiuh_trading_saas.Trading.Exposure.Laws.{filled_in_full, closing_order_neutralises}
use tonatiuh_trading_saas.Trading.Reconciliation.{
  bad_amount, SessionOrderExposure, is_session_exposure_closed,
}
use tonatiuh_trading_saas.Trading.Reconciliation.Laws.{
  as_filled, as_stored, closing_order_completes_session,
}
use tonatiuh_trading_saas.Trading.Orders.Desk.{Desk}
use tonatiuh_trading_saas.Trading.Orders.Wait.{wait_for_execution}
use tonatiuh_trading_saas.Trading.Orders.Wait.Laws.{Executes, wait_for_execution-Executes}
use tonatiuh_trading_saas.Trading.Orders.Open.{
  FirstPosition, side_in_candle, executed_params, open_position_for_strategy, open_first_position,
}
use tonatiuh_trading_saas.Trading.Orders.Open.Laws.{
  Opens, first_side, open_on, open_position_for_strategy-Opens, open_first_position-eq-open_on,
}
use tonatiuh_trading_saas.Trading.Sessions.{Sessions, start_session, end_trade_session}
use tonatiuh_trading_saas.Trading.Sessions.Laws.{
  active_sessions, start_session-Adds, end_trade_session-Removes,
}

abbrev desk : Desk Fixed ℕ
desk = record {
  orders = placed "first" buy (some closed) (amount 2) ∷ [];
  published = [];
  rows = [];
  venue = 0;
}

abbrev setting : SettingOrder Fixed
setting = record { symbol = "ETH/USDT"; type_ = limit; amount = amount 2; price = amount 100 }

wait_for_execution-Executes_example :
    Executes simulated
      (placed "new" buy (some open_order) (amount 0))
      "ETH/USDT"
      desk
      (wait_for_execution simulated (placed "new" buy (some open_order) (amount 0)) "ETH/USDT" desk)
wait_for_execution-Executes_example =
    wait_for_execution-Executes simulated (placed "new" buy (some open_order) (amount 0)) "ETH/USDT"
      desk

open_position_for_strategy-Opens_example :
    Opens simulated desk sell setting
      (λ order. executed_params order sell order.symbol (amount 100) (amount 2) "session")
      (open_position_for_strategy simulated sell setting "session" desk)
open_position_for_strategy-Opens_example =
    open_position_for_strategy-Opens simulated sell setting "session" desk

-- a price nearer to the low of its candle
abbrev first : FirstPosition Fixed
first = record {
  setting = setting;
  price = amount 100;
  lowest_in_candle = amount 99;
  highest_in_candle = amount 110;
  index_operation = "session";
  is_only_buy = false;
}

first_side-first : first_side first ≡ some sell
unfolding side_in_candle
first_side-first = refl

open_first_position-eq-open_on_example :
    open_first_position simulated first desk ≡ open_on simulated (first_side first) first desk
open_first_position-eq-open_on_example =
    open_first_position-eq-open_on simulated fixed-IsIeee first desk refl

abbrev busy : CcxtError
busy = record { is_error = true; name = "RequestTimeout"; code = none; message = "busy" }

-- a request that answers after two transient errors
abbrev third_time : ℕ → Result CcxtError ℕ × ℕ
third_time n = elim n [
  | zero ↦ (err busy, 1)
  | suc m ↦ elim m [ zero ↦ (err busy, 2) | suc k ↦ (ok 7, 3) ]
]

read_with_retry-Tried_example :
    Tried (λ ms x. x) third_time 1 0 (read_with_retry (λ ms x. x) third_time 0)
read_with_retry-Tried_example = read_with_retry-Tried (λ ms x. x) third_time 0

cancel_all_orders_ok_example :
    (simulated.cancel_all "ETH/USDT" 5 ≡ (ok tt, 5))
    ⊎ ((y : ℕ) × (simulated.fetch_open_orders "ETH/USDT" y ≡ (ok [], 5)))
unfolding cancel_all_orders
cancel_all_orders_ok_example = cancel_all_orders_ok simulated "ETH/USDT" 5 5 refl

-- five bought and two sold
abbrev fills : List (SessionOrderExposure Fixed)
fills = record { side = buy; amount = amount 5 } ∷ record { side = sell; amount = amount 2 } ∷ []

abbrev sell_three : ClosingOrderExposure Fixed
sell_three = record { side = sell; amount = amount 3 }

closing_order_neutralises_example :
    (net_base_amount (map as_filled fills ++ filled_in_full sell_three ∷ []) ≡ amount 0)
    × (fixed_number.less (amount 0) (amount 3) ≡ true)
unfolding net_base_amount add_filled closing_for calculate_closing_order_exposure
closing_order_neutralises_example =
    closing_order_neutralises fixed-IsIeee (map as_filled fills) sell_three refl refl

closing_order_completes_session_example :
    is_session_exposure_closed (fills ++ as_stored sell_three ∷ []) ≡ true
unfolding net_base_amount add_filled closing_for bad_amount calculate_closing_order_exposure
closing_order_completes_session_example =
    closing_order_completes_session fixed-IsIeee fills sell_three refl refl refl

-- one active session of the configuration 1 in the table
abbrev one_session : Sessions Fixed ℕ
one_session = record {
  rows =
      record { index_session = "first"; config_id = 1; is_active = true; profit_session = none }
      ∷ [];
  venue = 0;
}

start_session-Adds_example :
    After
      (λ index t. active_sessions 1 t.rows ≡ active_sessions 1 one_session.rows ++ index ∷ [])
      (λ _ t. t.rows ≡ one_session.rows)
      (start_session simulated 1 one_session)
start_session-Adds_example = start_session-Adds simulated 1 one_session

end_trade_session-Removes_example :
    After
      (λ _ t.
        active_sessions 1 t.rows
        ≡ filter (λ i. not (i == "first")) (active_sessions 1 one_session.rows))
      (λ _ t. t.rows ≡ one_session.rows)
      (end_trade_session simulated (some (amount 3)) "first" one_session)
end_trade_session-Removes_example =
    end_trade_session-Removes simulated 1 (some (amount 3)) "first" one_session
