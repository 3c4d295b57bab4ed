-- ===== src/Trading/Orders/Close.antt =====
-- `closeFilledPosition`: measuring what the orders filled, and closing it with one order.
pub mod Laws
use tonatiuh_trading_saas.Prelude.{
  String, Bool, true, false, not, ◌&&◌, Option, none, some, List, [], ◌∷◌, ◌++◌, if◌then◌else◌,
  ◌or◌,
}
use text.Mathlib.Text.{◌==◌}
use tonatiuh_trading_saas.Prelude.Action.{
  Result, ok, err, Action, Done, pure, throw, modify, when, ◌>>=◌, ◌>>◌,
}
use tonatiuh_trading_saas.Number.{Number, lit, to_number, is_positive}
use tonatiuh_trading_saas.Trading.Types.{
  Side, Order, Stored, no_column, json_null, json_object, json_text, limit,
}
use tonatiuh_trading_saas.Trading.Outside.{Outside, Failure}
use tonatiuh_trading_saas.Trading.Exchange.{
  create_order, cancel_all_orders, check_status_order_by_id, get_price,
}
use tonatiuh_trading_saas.Trading.Exposure.{
  FilledOrderExposure, ClosingOrderExposure, calculate_closing_order_exposure,
}
use tonatiuh_trading_saas.Trading.Orders.Desk.{Desk, at_venue, push_order, insert_order}
use tonatiuh_trading_saas.Trading.Orders.Publish.{publish_order}
use tonatiuh_trading_saas.Trading.Orders.Wait.{wait_for_execution, is_closed}
use tonatiuh_trading_saas.Trading.Orders.Open.{executed_params}

abbrev truthy : Option String → Bool
truthy none = false
truthy (some s) = not (s == "")

module _ {N : Type 0} ⦃num : Number N⦄ where
  abbrev latest_filled : Option (Order N) → N
  latest_filled none = num.nan
  latest_filled (some latest) = to_number latest.filled

  abbrev latest_amount : Option (Order N) → N
  latest_amount none = num.nan
  latest_amount (some latest) = to_number latest.amount

  abbrev latest_closed : Option (Order N) → Bool
  latest_closed none = false
  latest_closed (some latest) = is_closed latest.status

  -- `order.order && typeof order.order === 'object'`
  abbrev stored_filled : Stored N → N
  stored_filled no_column = num.nan
  stored_filled json_null = num.nan
  stored_filled (json_object raw) = to_number raw.filled
  stored_filled (json_text _) = num.nan

  unfoldable pub resolve_executed_amount : Order N → Option (Order N) → N
  resolve_executed_amount order latest =
      if is_positive (latest_filled latest)
      then latest_filled latest
      else if latest_closed latest && is_positive (latest_amount latest)
      then latest_amount latest
      else if is_positive (stored_filled order.stored)
      then stored_filled order.stored
      else if truthy order.order_id && is_positive (to_number order.amount)
      then to_number order.amount
      else lit 0

  -- `order.orderId || String(order.id)`
  abbrev pub exchange_order_id : Order N → String
  exchange_order_id order = if truthy order.order_id then order.order_id or "" else order.id

module _ {N X : Type 0} ⦃num : Number N⦄ (out : Outside N X) where
  -- `checkStatusOrderById(…).catch(() => undefined)`, published if it was read
  unfoldable pub read_status : Order N → String → Action (Desk N X) Failure (Option (Order N))
  read_status order symbol d =
      let (answer, x) = check_status_order_by_id out (exchange_order_id order) symbol d.venue in
      elim answer [
        | ok status ↦ (ok (some status), (publish_order out status (record d { venue = x })).1)
        | err _ ↦ (ok none, record d { venue = x })
      ]

  unfoldable pub filled_orders :
      List (Order N) → String → Action (Desk N X) Failure (List (FilledOrderExposure N))
  filled_orders [] symbol = pure []
  filled_orders (order ∷ orders) symbol = do
    status ← read_status order symbol
    rest ← filled_orders orders symbol
    pure (record { side = order.side; filled = resolve_executed_amount order status } ∷ rest)

  -- from the exposure on: submit the closing order, wait for it and record it
  unfoldable pub submit_closing :
      ClosingOrderExposure N → String → String → Action (Desk N X) Failure (Order N)
  submit_closing exposure symbol index_operation = do
    price ← at_venue (get_price out symbol)
    submitted ← at_venue (
        create_order out (record {
          symbol = symbol;
          type_ = limit;
          side = exposure.side;
          amount = exposure.amount;
          price = price;
        }))
    publish_order out submitted
    closing_order ← wait_for_execution out submitted symbol
    when (not (index_operation == "")) (
        insert_order out (
          executed_params closing_order exposure.side symbol price exposure.amount index_operation))
    modify (push_order closing_order)
    pure closing_order

  abbrev pub close_exposure :
      Option (ClosingOrderExposure N)
      → String
      → String
      → Action (Desk N X) Failure (Option (Order N))
  close_exposure none symbol index_operation = pure none
  close_exposure (some exposure) symbol index_operation = do
    closing_order ← submit_closing exposure symbol index_operation
    pure (some closing_order)

  -- after the cancellation, with the orders of the service
  unfoldable pub close_orders :
      List (Order N) → String → String → Action (Desk N X) Failure (Option (Order N))
  close_orders [] symbol index_operation = pure none
  close_orders (o ∷ os) symbol index_operation = do
    filled ← filled_orders (o ∷ os) symbol
    close_exposure (calculate_closing_order_exposure filled) symbol index_operation

  -- The empty text stands for a missing `indexOperation`.
  unfoldable pub close_filled_position :
      String → String → Action (Desk N X) Failure (Option (Order N))
  close_filled_position symbol index_operation = do
    at_venue (cancel_all_orders out symbol)
    (λ d. close_orders d.orders symbol index_operation d)
