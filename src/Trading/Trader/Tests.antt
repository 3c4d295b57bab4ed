-- ===== src/Trading/Trader/Tests.antt =====
-- The theorems on a trading service at concrete inputs.
use tonatiuh_trading_saas.Prelude.{ℕ, true, ◌≡◌, refl, inl, some, none, [], ◌∷◌}
use tonatiuh_trading_saas.Prelude.Action.{ok, After}
use tonatiuh_trading_saas.Number.{neg}
use tonatiuh_trading_saas.Number.Fixed.{Fixed, fixed_number}
use tonatiuh_trading_saas.Trading.Types.{buy, sell, closed}
use tonatiuh_trading_saas.Trading.Simulated.{amount, placed, simulated, cipher}
use tonatiuh_trading_saas.Trading.Settings.Tests.{settings}
use tonatiuh_trading_saas.Trading.SessionService.{Service, init_trade_session}
use tonatiuh_trading_saas.Trading.SessionService.Keeps.{AtMostOne}
use tonatiuh_trading_saas.Trading.SessionService.Laws as ServiceLaws
use tonatiuh_trading_saas.Trading.SessionService.Laws.{init_trade_session-OneActive}
use tonatiuh_trading_saas.Trading.Exchange as Exchange
use tonatiuh_trading_saas.Trading.Exchange.{
  read_with_retry, read_attempts, get_tick, get_unrealized_pnl, cancel_all_orders,
  check_status_order_by_id, create_order,
}
use tonatiuh_trading_saas.Trading.Exposure.{
  calculate_closing_order_exposure, closing_for, add_filled, net_base_amount,
}
use tonatiuh_trading_saas.Trading.Orders.Desk.{insert_order}
use tonatiuh_trading_saas.Trading.Orders.Publish.{publish_order, order_updates}
use tonatiuh_trading_saas.Trading.Orders.Wait.{
  judge, order_state, poll_execution, wait_for_execution,
}
use tonatiuh_trading_saas.Trading.Orders.Close.{
  close_filled_position, close_orders, filled_orders, read_status, resolve_executed_amount,
  submit_closing,
}
use tonatiuh_trading_saas.Trading.Trader as Trading
use tonatiuh_trading_saas.Trading.Trader.{Trader}
use tonatiuh_trading_saas.Trading.Trader.End.{end_trade_session}
use tonatiuh_trading_saas.Trading.Trader.End.Laws.{active, Ended, MayEnd, end_trade_session-Ended}
use tonatiuh_trading_saas.Trading.Trader.Tracker.{
  on_price_tracker, track, look, stop_reached, targets_at, close_position,
}
use tonatiuh_trading_saas.Trading.Trader.Tracker.Laws.{ClosedBy, on_price_tracker-ClosedBy}
use tonatiuh_trading_saas.Trading.Trader.Entry.{one_trade, grid_trading_behavior}
use tonatiuh_trading_saas.Trading.Trader.Opens.Lines.{OpenedSome}
use tonatiuh_trading_saas.Trading.Trader.Opens.Grid.{GridEntered, grid_trading_behavior-Opens}
use tonatiuh_trading_saas.Trading.Trader.Turn.{Watching, Options, Seen, watch_turn}
use tonatiuh_trading_saas.Trading.Trader.Turn.Laws.{AfterTurn, watch_turn-Good}
use tonatiuh_trading_saas.Trading.Trader.Watch.{
  StartAlgorithms, start_trading_session, watching_take_profit_logic,
}
use tonatiuh_trading_saas.Trading.Trader.Watch.Laws.{
  Left, start_trading_session-Left, watching_take_profit_logic-Keeps,
}

abbrev service : Service Fixed ℕ
service = record {
  desk = record { orders = []; published = []; rows = []; venue = 0 };
  sessions = [];
  balances = [];
  balance_cache = none;
}

-- one bought order, in the session "session"
abbrev trader : Trader Fixed ℕ
trader = record {
  initialized = true;
  has_services = true;
  config = settings "pass";
  services_config = settings "pass";
  symbol = "ETH/USDT";
  index_operation = "session";
  orders = placed "first" buy (some closed) (amount 2) ∷ [];
  balance_cache = none;
  service = service;
  configs = record { config = settings ""; logger_event = none } ∷ [];
}

abbrev vector_profit : StartAlgorithms Fixed ℕ
vector_profit = record {
  type_trading = one_trade;
  take_profit_logic = some (watching_take_profit_logic simulated cipher true 5);
  grid_logic = none;
}

start_trading_session-Left_example :
    After
      (Left 1)
      (λ _ u. AtMostOne (active 1 u))
      (start_trading_session simulated cipher true 5 vector_profit trader)
start_trading_session-Left_example =
    start_trading_session-Left simulated cipher true 5 vector_profit trader
      (watching_take_profit_logic-Keeps simulated cipher true 5) tt (inl refl)

abbrev watching : Watching Fixed ℕ
watching = record {
  take_profit_logic = some (watching_take_profit_logic simulated cipher true 5);
  grid_logic = none;
  setting_amount = some (amount 2);
  first_side = some buy;
  price = amount 100;
}

abbrev options : Options Fixed
options = record { buying_back = amount 2; drawdown_step = 1 }

watch_turn-Good_example :
    After
      (AfterTurn 1 trader)
      (λ _ u. MayEnd 1 trader u)
      (watch_turn simulated cipher true watching options trader)
watch_turn-Good_example =
    watch_turn-Good simulated cipher true watching 1 options
      (watching_take_profit_logic-Keeps simulated cipher true 5) tt trader

end_trade_session-Ended_example :
    After
      (λ _ u. Ended 1 trader u)
      (λ _ u. MayEnd 1 trader u)
      (end_trade_session simulated true (amount 0) trader)
end_trade_session-Ended_example = end_trade_session-Ended simulated true 1 (amount 0) trader

init_trade_session-OneActive_example :
    After
      (λ a t. ServiceLaws.active simulated "binance" true 1 t ≡ a.1 ∷ [])
      (λ _ t. AtMostOne (ServiceLaws.active simulated "binance" true 1 t))
      (init_trade_session simulated "binance" true 1 service)
init_trade_session-OneActive_example =
    init_trade_session-OneActive simulated "binance" true 1 service (inl refl)

-- a price that is at the stop at once
abbrev turning : Trader Fixed ℕ
turning = record trader {
  config = record (settings "pass") { percent_target_after_take_profit = amount 0 };
}

turned : (on_price_tracker simulated 5 sell turning).0 ≡ ok (some true)
unfolding on_price_tracker Trading.get_price Exchange.get_price read_with_retry track
    get_unrealized_pnl look stop_reached targets_at close_position close_filled_position
    cancel_all_orders close_orders filled_orders read_status check_status_order_by_id
    calculate_closing_order_exposure closing_for create_order get_tick read_attempts add_filled
    net_base_amount resolve_executed_amount submit_closing insert_order publish_order order_updates
    judge order_state poll_execution wait_for_execution
turned = refl

on_price_tracker-ClosedBy_example : ClosedBy simulated (on_price_tracker simulated 5 sell turning).1
on_price_tracker-ClosedBy_example = on_price_tracker-ClosedBy simulated 5 sell turning turned

grid_trading_behavior-Opens_example :
    After
      (λ _ u. GridEntered simulated trader u)
      (λ _ u. OpenedSome simulated trader u)
      (grid_trading_behavior simulated trader)
grid_trading_behavior-Opens_example = grid_trading_behavior-Opens simulated trader

-- a loss of ten, of which five is a step
abbrev losing : Seen Fixed
losing = record {
  side = buy;
  last_price = amount 90;
  average_entry_price = amount 100;
  metrics = record {
    pnl_per_unit = neg (amount 10);
    pnl_ratio = neg (amount 1);
    position_pnl = neg (amount 20);
  };
  buy_back_amount = amount 5;
  delta_for_sale = amount 0;
  delta_for_buy = amount 0;
  available_balance = some (amount 1000);
}
