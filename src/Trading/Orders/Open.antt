-- ===== src/Trading/Orders/Open.antt =====
-- `openPositionForStrategy` and `openFirstPosition`: submitting an order and recording it.
pub mod Laws
use tonatiuh_trading_saas.Prelude.{
  String, Bool, true, false, ◌&&◌, Option, none, some, if◌then◌else◌, ◌or◌, ◌or_maybe◌,
}
use tonatiuh_trading_saas.Prelude.Action.{
  Result, ok, err, Action, Done, pure, throw, modify, ◌>>=◌, ◌>>◌,
}
use tonatiuh_trading_saas.Number.{Number, to_number, ◌⊖◌, ◌≺◌, ◌≼◌}
use tonatiuh_trading_saas.Trading.Types.{Side, buy, sell, Order, SettingOrder, CreateOpenPosition}
use tonatiuh_trading_saas.Trading.Outside.{Outside, Failure, other_failure}
use tonatiuh_trading_saas.Trading.Exchange.{create_order}
use tonatiuh_trading_saas.Trading.Orders.Desk.{
  Desk, CreateOrderParams, at_venue, push_order, raw_order, insert_order,
}
use tonatiuh_trading_saas.Trading.Orders.Publish.{publish_order}
use tonatiuh_trading_saas.Trading.Orders.Wait.{wait_for_execution}

abbrev pub placement : {N : Type 0} → SettingOrder N → Side → CreateOpenPosition N
placement setting side = record {
  symbol = setting.symbol;
  type_ = setting.type_;
  side = side;
  amount = setting.amount;
  price = setting.price;
}

-- what `_saveActivatedOrder` is given for an executed order
abbrev pub executed_params :
    {N : Type 0} → Order N → Side → String → N → N → String → CreateOrderParams N
executed_params order side symbol price amount index_operation = record {
  order = raw_order order;
  order_id = order.id;
  price = (order.average or_maybe order.price) or price;
  amount = (order.filled or_maybe order.amount) or amount;
  side = side;
  symbol = symbol;
  index_operation = index_operation;
}

-- The arguments of `openFirstPosition`, with `isOnlyBuy` of the configuration.
pub record FirstPosition (N : Type 0) : Type 0 where
  pub setting : SettingOrder N
  pub price : N
  pub lowest_in_candle : N
  pub highest_in_candle : N
  pub index_operation : String
  pub is_only_buy : Bool

module _ {N : Type 0} ⦃num : Number N⦄ where
  -- `buySide > sellSide`: a price nearer to the low of the candle than to its high is sold
  unfoldable pub side_in_candle : FirstPosition N → Side
  side_in_candle p =
      let sell_side = p.price ⊖ p.lowest_in_candle in
      let buy_side = p.highest_in_candle ⊖ p.price in if sell_side ≺ buy_side then sell else buy

module _ {N X : Type 0} ⦃num : Number N⦄ (out : Outside N X) where
  unfoldable pub open_position_for_strategy :
      Side → SettingOrder N → String → Action (Desk N X) Failure (Order N)
  open_position_for_strategy side setting index_operation = do
    submitted_order ← at_venue (create_order out (placement setting side))
    publish_order out submitted_order
    new_order ← wait_for_execution out submitted_order setting.symbol
    insert_order out (
        executed_params new_order side new_order.symbol setting.price setting.amount
          index_operation)
    modify (push_order new_order)
    pure new_order

  -- one `if` of `openFirstPosition`: the order that it opens replaces the one before
  abbrev pub open_if :
      Bool
      → Side
      → FirstPosition N
      → Option (Order N)
      → Action (Desk N X) Failure (Option (Order N))
  open_if false side p first_order = pure first_order
  open_if true side p first_order = do
    order ← open_position_for_strategy side p.setting p.index_operation
    pure (some order)

  -- what `'id' in firstOrder` throws without an order
  abbrev pub no_first_order : Failure
  no_first_order = other_failure "Cannot use 'in' operator to search for 'id' in undefined"

  abbrev pub found : Option (Order N) → Action (Desk N X) Failure (Order N)
  found none = throw no_first_order
  found (some order) = pure order

  unfoldable pub open_first_position : FirstPosition N → Action (Desk N X) Failure (Order N)
  open_first_position p =
      if p.is_only_buy then open_position_for_strategy buy p.setting p.index_operation else (do
        inside ←
            open_if (p.lowest_in_candle ≼ p.price && p.price ≼ p.highest_in_candle)
              (side_in_candle p) p none
        below ← open_if (p.price ≺ p.lowest_in_candle) buy p inside
        above ← open_if (p.highest_in_candle ≺ p.price) sell p below
        found above)
