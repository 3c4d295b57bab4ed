-- ===== src/Trading/Trader/Turn.antt =====
-- One turn of the `while` loop of `_watchingProcess` of src/trading-service/abstract.trading.ts.
-- What it logs is not modelled.
pub mod Laws
pub mod Buys
use tonatiuh_trading_saas.Prelude.{
  ℕ, suc, String, Bool, true, false, not, ◌&&◌, ◌||◌, Option, none, some, List, [], ◌∷◌, map,
  filter, reduce, length, if◌then◌else◌, ◌or◌, ◌==◌ as nat_eq,
}
use Prim.Native.Char.{Char, code}
use Prim.Native.String.{[] as []ᵗ, ◌∷◌ as ◌∷ᵗ◌}
use tonatiuh_trading_saas.Prelude.Action.{
  Result, ok, err, Action, Done, pure, throw, when, modify, ◌>>=◌, ◌>>◌,
}
use tonatiuh_trading_saas.Number.{Number, lit, to_number, neg, falsy, ◌⊕◌, ◌⊖◌, ◌⊗◌, ◌⊘◌, ◌≺◌, ◌≼◌}
use tonatiuh_trading_saas.Trading.Types.{
  Side, buy, sell, is_buy, same_side, Order, SettingOrder, limit,
}
use tonatiuh_trading_saas.Trading.Outside.{Outside, Failure, Balance, other_failure}
use tonatiuh_trading_saas.Trading.Exchange.{get_balance}
use tonatiuh_trading_saas.Trading.Math.{
  BuyBackParams, PositionMetrics, resolve_position_side, calculate_position_metrics,
  calculate_buy_back_amount, calculate_buy_back_order_amount,
}
use tonatiuh_trading_saas.Trading.Settings.Config.{Config}
use tonatiuh_trading_saas.Trading.Settings.Encryption.{Crypto}
use tonatiuh_trading_saas.Trading.Settings.Flags.{disable_emergency_stop}
use tonatiuh_trading_saas.Trading.Trader.{
  Trader, on_exchange, on_configs, checked, get_price, open_position, reload_config, sleep_timeout,
}
use tonatiuh_trading_saas.Trading.Trader.End.{end_trade_session}
use tonatiuh_trading_saas.Trading.Trader.Tracker.{close_position}

-- `symbol.slice(0, symbol.indexOf('/'))`; without a slash the last character is left out
abbrev is_slash : Char → Bool
is_slash c = nat_eq (code c) 47

abbrev has_slash : String → Bool
has_slash []ᵗ = false
has_slash (c ∷ᵗ text) = is_slash c || has_slash text

abbrev before_slash : String → String
before_slash []ᵗ = []ᵗ
before_slash (c ∷ᵗ text) = if is_slash c then []ᵗ else c ∷ᵗ before_slash text

abbrev all_but_last : String → String
all_but_last []ᵗ = []ᵗ
all_but_last (c ∷ᵗ []ᵗ) = []ᵗ
all_but_last (c ∷ᵗ (d ∷ᵗ text)) = c ∷ᵗ all_but_last (d ∷ᵗ text)

abbrev after_slash : String → String
after_slash []ᵗ = []ᵗ
after_slash (c ∷ᵗ text) = if is_slash c then text else after_slash text

-- `firstCurrency` and `secondCurrency`
unfoldable pub get_currency_breakdown : String → String × String
get_currency_breakdown symbol =
    if has_slash symbol
    then (before_slash symbol, after_slash symbol)
    else (all_but_last symbol, symbol)

-- `OptionType`
pub record Options (N : Type 0) : Type 0 where
  pub buying_back : N
  pub drawdown_step : ℕ

-- `WatchingTakeProfitLogicType`
pub record TakeProfit (N : Type 0) : Type 0 where
  pub side : Side
  pub profit_price : N
  pub unrealized_pnl : N
  pub setting_take_profit : SettingOrder N

-- `WatchingProcessParamType`: the logics of a service, and what was entered. A logic that has not
-- ended yet has no answer.
pub record Watching (N X : Type 0) : Type 0 where
  pub take_profit_logic : Option (TakeProfit N → Action (Trader N X) Failure (Option Bool))
  pub grid_logic : Option (Action (Trader N X) Failure Done)
  pub setting_amount : Option N
  pub first_side : Option Side
  pub price : N

-- what a turn ends with: `break`, a logic that has not ended, or the options of the next turn
pub data Turn (N : Type 0) : Type 0 where
  leave : Turn N
  still_tracking : Turn N
  next_turn : Options N → Turn N

-- What a turn computes before it decides.
pub record Seen (N : Type 0) : Type 0 where
  pub side : Side
  pub last_price : N
  pub average_entry_price : N
  pub metrics : PositionMetrics N
  pub buy_back_amount : N
  pub delta_for_sale : N
  pub delta_for_buy : N
  pub available_balance : Option N

module _ {N : Type 0} ⦃num : Number N⦄ where
  abbrev pub of_side : Side → List (Order N) → List (Order N)
  of_side side = filter (λ order. same_side order.side side)

  -- `reduce((sum, order) => sum + Number(order.amount), 0)`
  abbrev pub total_amount : List (Order N) → N
  total_amount = reduce (λ sum order. sum ⊕ to_number order.amount) (lit 0)

  abbrev total_cost : List (Order N) → N
  total_cost = reduce (λ sum order. sum ⊕ to_number order.price ⊗ to_number order.amount) (lit 0)

  unfoldable pub average_price : List (Order N) → N → N
  average_price entry_orders price =
      if lit 0 ≺ total_amount entry_orders
      then total_cost entry_orders ⊘ total_amount entry_orders
      else price

  -- `curr.amount * curr.price`, of every order
  abbrev turnover : List (Order N) → N
  turnover = reduce (λ prev curr. prev ⊕ to_number curr.amount ⊗ to_number curr.price) (lit 0)

  unfoldable pub get_delta_for_sale : Config N → List (Order N) → Side → N → N → N → N
  get_delta_for_sale config orders side buying_back price last_price =
      if not (is_buy side) && config.is_capitalize_delta_from_sale
      then (turnover orders ⊖ buying_back ⊗ price) ⊘ last_price
      else lit 0

  unfoldable pub get_delta_for_buy : Config N → List (Order N) → Side → N → N → N → N
  get_delta_for_buy config orders side buying_back price last_price =
      if is_buy side && config.is_coin_accumulation
      then (buying_back ⊗ price ⊖ turnover orders) ⊘ last_price
      else lit 0

  abbrev profit_price : Config N → Seen N → N
  profit_price config seen =
      let step = seen.average_entry_price ⊗ config.percent_profit in
      seen.average_entry_price ⊕ (if is_buy seen.side then step else neg step)

  -- `config.stopLoss && unrealizedPnl <= -config.stopLoss`
  unfoldable pub stop_loss_reached : Option N → N → Bool
  stop_loss_reached none ratio = false
  stop_loss_reached (some stop_loss) ratio = not (falsy stop_loss) && ratio ≼ neg stop_loss

  unfoldable pub bad_delta : Config N → Seen N → Bool
  bad_delta config seen =
      config.is_capitalize_delta_from_sale && num.not_number seen.delta_for_sale
      || config.is_coin_accumulation && num.not_number seen.delta_for_buy

  abbrev pub take_profit_param : Config N → String → Options N → Seen N → TakeProfit N
  take_profit_param config symbol options seen = record {
    side = seen.side;
    profit_price = profit_price config seen;
    unrealized_pnl = seen.metrics.pnl_ratio;
    setting_take_profit = record {
      symbol = symbol;
      type_ = limit;
      amount =
          if is_buy seen.side
          then options.buying_back ⊖ seen.delta_for_buy
          else options.buying_back ⊕ seen.delta_for_sale;
      price = seen.last_price;
    };
  }

module _ {N X : Type 0} ⦃num : Number N⦄ (out : Outside N X) (crypto : Crypto X)
    (keeps_alias : Bool) (w : Watching N X) where
  -- what is seen of a position, with its metrics and the step of a buyback
  abbrev pub seen_with :
      Trader N X → Balance N → Options N → Side → N → PositionMetrics N → N → Seen N
  seen_with t balance options side last_price metrics buy_back_amount =
      let (first_currency, second_currency) = get_currency_breakdown t.symbol in
      record {
        side = side;
        last_price = last_price;
        average_entry_price = average_price (of_side side t.orders) w.price;
        metrics = metrics;
        buy_back_amount = buy_back_amount;
        delta_for_sale =
            get_delta_for_sale t.config t.orders side options.buying_back w.price last_price;
        delta_for_buy =
            get_delta_for_buy t.config t.orders side options.buying_back w.price last_price;
        available_balance = balance.free (if is_buy side then second_currency else first_currency);
      }

  -- from the price on
  abbrev pub measure :
      Trader N X → Balance N → Options N → Side → N → Action (Trader N X) Failure (Seen N)
  measure t balance options side last_price = do
    let entry_orders = of_side side t.orders
    let average = average_price entry_orders w.price
    metrics ←
        checked (calculate_position_metrics side average last_price (total_amount entry_orders))
    buy_back_amount ← checked (
        calculate_buy_back_amount average t.config.percent_buy_back_step
          (lit options.drawdown_step))
    pure (seen_with t balance options side last_price metrics buy_back_amount)

  -- from the start of a turn to the settings of the taken profit
  unfoldable pub observe : Options N → Action (Trader N X) Failure (Seen N)
  observe options = do
    (λ t. reload_config out crypto t.config.id t)
    balance ← on_exchange (get_balance out)
    (λ t.
        (do
          side ← checked (resolve_position_side w.first_side (map (λ order. order.side) t.orders))
          last_price ← get_price out
          measure t balance options side last_price)
          t)

  -- `if (closingOrder) await this._endTradeSession(deltaForSale); break;`
  unfoldable pub close_and_leave : N → Action (Trader N X) Failure (Turn N)
  close_and_leave delta_for_sale = do
    closing_order ← close_position out
    when closing_order (end_trade_session out keeps_alias delta_for_sale)
    pure leave

  -- no order is opened for an amount that is not above zero
  abbrev pub buy_back_with : N → Options N → Seen N → Action (Trader N X) Failure (Options N)
  buy_back_with amount options seen =
      if lit 0 ≺ amount
      then (do
        (λ t.
            open_position out seen.side
              (record {
                symbol = t.symbol;
                type_ = limit;
                amount = amount;
                price = seen.last_price;
              })
              t)
        pure (record {
          buying_back = options.buying_back ⊕ amount;
          drawdown_step = suc options.drawdown_step;
        }))
      else pure options

  abbrev pub buy_back_params : Trader N X → Options N → Seen N → N → BuyBackParams N
  buy_back_params t options seen available = record {
    side = seen.side;
    available_balance = available;
    last_price = seen.last_price;
    percent_from_balance = t.config.percent_from_balance;
    position_size = t.config.position_size;
    drawdown_step = lit options.drawdown_step;
    fibonacci = t.config.is_fibonacci;
  }

  -- `buyBackAmount > 0 && pnlPerUnit <= -buyBackAmount`
  unfoldable pub buys_back : Seen N → Bool
  buys_back seen =
      lit 0 ≺ seen.buy_back_amount && seen.metrics.pnl_per_unit ≼ neg seen.buy_back_amount

  -- `balance[nativeCurrency].free`, and the amount that it allows
  abbrev pub buy_back_from :
      Option N → Trader N X → Options N → Seen N → Action (Trader N X) Failure (Options N)
  buy_back_from none t options seen =
      throw (other_failure "Cannot read properties of undefined (reading 'free')")
  buy_back_from (some available) t options seen =
      buy_back_with (calculate_buy_back_order_amount (buy_back_params t options seen available))
        options seen

  unfoldable pub buy_back : Options N → Seen N → Action (Trader N X) Failure (Options N)
  buy_back options seen t =
      (if buys_back seen then buy_back_from seen.available_balance t options seen else pure options)
        t

  abbrev pub take_profit_result :
      Option (TakeProfit N → Action (Trader N X) Failure (Option Bool))
      → TakeProfit N
      → Action (Trader N X) Failure (Option Bool)
  take_profit_result none param = pure (some false)
  take_profit_result (some logic) param = logic param

  -- after the logic of the taken profit
  abbrev pub after_take_profit :
      Option Bool → Options N → Seen N → Action (Trader N X) Failure (Turn N)
  after_take_profit none options seen = pure still_tracking
  after_take_profit (some true) options seen = do
    end_trade_session out keeps_alias seen.delta_for_sale
    pure leave
  after_take_profit (some false) options seen = do
    options' ← buy_back options seen
    sleep_timeout out 1000
    pure (next_turn options')

  -- without a grid: the loss that stops, the profit that is taken, or a buyback
  unfoldable pub watch_profit : Options N → Seen N → Action (Trader N X) Failure (Turn N)
  watch_profit options seen t =
      (if stop_loss_reached t.config.stop_loss seen.metrics.pnl_ratio
          then close_and_leave seen.delta_for_sale
          else (do
            taken ←
                take_profit_result w.take_profit_logic
                  (take_profit_param t.config t.symbol options seen)
            after_take_profit taken options seen))
        t

  abbrev pub watch_strategy :
      Option (Action (Trader N X) Failure Done)
      → Options N
      → Seen N
      → Action (Trader N X) Failure (Turn N)
  watch_strategy none options seen = watch_profit options seen
  watch_strategy (some logic) options seen = do logic; pure leave

  unfoldable pub decide : Options N → Seen N → Action (Trader N X) Failure (Turn N)
  decide options seen t =
      (if t.config.is_emergency_stop
          then (do on_configs (disable_emergency_stop out); close_and_leave seen.delta_for_sale)
          else if bad_delta t.config seen
          then throw (other_failure "Delta is not a number!")
          else watch_strategy w.grid_logic options seen)
        t

  unfoldable pub watch_turn : Options N → Action (Trader N X) Failure (Turn N)
  watch_turn options = do seen ← observe options; decide options seen
