-- ===== src/Trading/Orders/Publish.antt =====
-- `_publishOrder` and `_dashboardOrderStatus`: what the parent process learns of an order.
use tonatiuh_trading_saas.Prelude.{
  String, Bool, not, ◌||◌, Option, none, some, List, [], ◌∷◌, ◌++◌, if◌then◌else◌, ◌or◌,
}
use Prim.Native.String.{◌++◌ as ◌joined◌}
use text.Mathlib.Text.{◌==◌}
use tonatiuh_trading_saas.Prelude.Action.{Result, Action, Done, ok, err}
use tonatiuh_trading_saas.Number.{Number, lit, ◌≺◌, ◌≼◌}
use tonatiuh_trading_saas.Trading.Types.{
  Order, RawOrder, Stored, no_column, json_null, json_object, json_text, TradeType, limit, Status,
  open_order, closed, canceled, rejected, expired,
}
use tonatiuh_trading_saas.Trading.Outside.{Outside, Failure, other_failure}
use tonatiuh_trading_saas.Trading.Orders.Desk.{
  Desk, OrderUpdate, DashboardStatus, filled_status, cancelled_status, rejected_status,
  expired_status, partially_filled, open_status,
}

abbrev status_or_filled : Option Status → Bool → DashboardStatus
status_or_filled (some closed) has_fill = filled_status
status_or_filled (some canceled) has_fill = cancelled_status
status_or_filled (some rejected) has_fill = rejected_status
status_or_filled (some expired) has_fill = expired_status
status_or_filled (some open_order) has_fill = if has_fill then partially_filled else open_status
status_or_filled none has_fill = if has_fill then partially_filled else open_status

-- `order.clientOrderId ? String(order.clientOrderId) : …`
abbrev client_id : Option String → String → String
client_id none id = "exchange-" joined id
client_id (some c) id = if c == "" then "exchange-" joined id else c

-- `JSON.parse` of the `order` column; a text that cannot be read gives `{}`
abbrev no_raw : {N : Type 0} → RawOrder N
no_raw = record { client_order_id = none; type_ = none; status = none; filled = none; info = none }

-- `rawOrder`; without a column, and for a `null`, it has no properties to read
abbrev parsed : {N : Type 0} → Stored N → Option (RawOrder N)
parsed no_column = none
parsed json_null = none
parsed (json_object raw) = some raw
parsed (json_text (some raw)) = some raw
parsed (json_text none) = some no_raw

-- what `setOrders` publishes for a stored order: the row's values over the raw order's
abbrev stored_update : {N : Type 0} → Order N → RawOrder N → Order N
stored_update stored raw = record stored {
  id = stored.order_id or "";
  type_ = some (raw.type_ or limit);
  status = some (raw.status or open_order);
  filled = raw.filled;
  client_order_id = raw.client_order_id;
  info = raw.info;
}

module _ {N : Type 0} ⦃num : Number N⦄ where
  -- `Number(order.filled ?? 0)`
  abbrev pub filled_or_zero : Order N → N
  filled_or_zero order = order.filled or lit 0

  unfoldable pub dashboard_order_status : Order N → DashboardStatus
  dashboard_order_status order = status_or_filled order.status (lit 0 ≺ filled_or_zero order)

  unfoldable pub published_quantity : Order N → N
  published_quantity order =
      let filled_quantity = filled_or_zero order in
      if lit 0 ≺ filled_quantity then filled_quantity else order.amount or lit 0

  abbrev update_of : TradeType → Order N → OrderUpdate N
  update_of order_type order = record {
    exchange_order_id = order.id;
    client_order_id = client_id order.client_order_id order.id;
    symbol = order.symbol;
    side = order.side;
    order_type = order_type;
    status = dashboard_order_status order;
    quantity = published_quantity order;
    price = order.price;
    raw_response = order.info;
  }

  -- The messages that one call sends: one, or none.
  unfoldable pub order_updates : Bool → Order N → List (OrderUpdate N)
  unfolding published_quantity dashboard_order_status
  order_updates has_parent order =
      if not has_parent || order.id == "" || order.symbol == "" then [] else elim order.type_ [
        | none ↦ []
        | some order_type ↦
            let quantity = published_quantity order in
            if not (num.finite quantity) || quantity ≼ lit 0
            then []
            else update_of order_type order ∷ []
      ]

  module _ {X : Type 0} (out : Outside N X) where
    unfoldable pub publish_order : Order N → Action (Desk N X) Failure Done
    unfolding order_updates
    publish_order order d =
        (ok tt, record d { published = d.published ++ order_updates out.has_parent order })

    unfoldable pub publish_all : List (Order N) → Action (Desk N X) Failure Done
    unfolding publish_order
    publish_all [] d = (ok tt, d)
    publish_all (order ∷ orders) d =
        let rest : RawOrder N → Result Failure Done × Desk N X =
          λ raw. publish_all orders (publish_order (stored_update order raw) d).1 in
        elim (parsed order.stored) [
          | none ↦ (err (other_failure "Cannot read properties of undefined (reading 'type')"), d)
          | some raw ↦ rest raw
        ]

    unfoldable pub set_orders : List (Order N) → Action (Desk N X) Failure Done
    unfolding publish_all
    set_orders orders d = publish_all orders (record d { orders = orders })
