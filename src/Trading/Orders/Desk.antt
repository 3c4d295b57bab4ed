-- ===== src/Trading/Orders/Desk.antt =====
-- The state of an `OrdersOperationService`, and the rows of `trade_operation` that it writes
-- through src/repository/repository/order.repository.ts.
use tonatiuh_trading_saas.Prelude.{
  suc, String, Bool, true, false, not, ◌&&◌, Option, none, some, List, [], ◌∷◌, ◌++◌, map,
  if◌then◌else◌, filter, length,
}
use text.Mathlib.Text.{◌==◌}
use tonatiuh_trading_saas.Prelude.Action.{ok, err, Action, Done}
use tonatiuh_trading_saas.Trading.Types.{Side, Order, RawOrder, json_text, TradeType}
use tonatiuh_trading_saas.Trading.Outside.{Outside, Failure}

-- `status` of an order on the dashboard
pub data DashboardStatus : Type 0 where
  filled_status cancelled_status rejected_status expired_status partially_filled open_status :
      DashboardStatus

-- the `order` of an `order-update` message
pub record OrderUpdate (N : Type 0) : Type 0 where
  pub exchange_order_id : String
  pub client_order_id : String
  pub symbol : String
  pub side : Side
  pub order_type : TradeType
  pub status : DashboardStatus
  pub quantity : N
  pub price : Option N
  pub raw_response : Option String

-- a row of `trade_operation`
pub record OrderRow (N : Type 0) : Type 0 where
  pub id : String
  pub order_id : String
  pub order : RawOrder N
  pub price : N
  pub amount : N
  pub side : Side
  pub symbol : String
  pub index_operation : String
  pub is_active : Bool
  pub is_delete : Bool

-- `CreateOrderParamsType`
pub record CreateOrderParams (N : Type 0) : Type 0 where
  pub order : RawOrder N
  pub order_id : String
  pub price : N
  pub amount : N
  pub side : Side
  pub symbol : String
  pub index_operation : String

-- `orders` is the service's field, `published` the messages to the parent process, the last one
-- last, `rows` the table, and `venue` all that is outside.
pub record Desk (N X : Type 0) : Type 0 where
  pub orders : List (Order N)
  pub published : List (OrderUpdate N)
  pub rows : List (OrderRow N)
  pub venue : X

abbrev pub raw_order : {N : Type 0} → Order N → RawOrder N
raw_order o = record {
  client_order_id = o.client_order_id;
  type_ = o.type_;
  status = o.status;
  filled = o.filled;
  info = o.info;
}

-- A row as `getAllOrdersByIndexOperation` selects it, with the `order` column as text.
abbrev pub row_order : {N : Type 0} → OrderRow N → Order N
row_order r = record {
  id = r.id;
  order_id = some r.order_id;
  stored = json_text (some r.order);
  symbol = r.symbol;
  side = r.side;
  amount = some r.amount;
  price = some r.price;
  average = none;
  filled = none;
  remaining = none;
  status = none;
  type_ = none;
  client_order_id = none;
  info = none;
}

module _ {N X : Type 0} where
  -- an exchange call in the service
  abbrev pub at_venue : {A : Type 0} → Action X Failure A → Action (Desk N X) Failure A
  at_venue m d = let (r, x) = m d.venue in (r, record d { venue = x })

  abbrev pub push_order : Order N → Desk N X → Desk N X
  push_order o d = record d { orders = d.orders ++ o ∷ [] }

  -- `clearingOrderList`
  unfoldable pub clearing_order_list : Action (Desk N X) Failure Done
  clearing_order_list d = (ok tt, record d { orders = [] })

module _ {N X : Type 0} (out : Outside N X) where
  abbrev pub new_row : CreateOrderParams N → List (OrderRow N) → OrderRow N
  new_row p rows = record {
    id = out.row_id (suc (length rows));
    order_id = p.order_id;
    order = p.order;
    price = p.price;
    amount = p.amount;
    side = p.side;
    symbol = p.symbol;
    index_operation = p.index_operation;
    is_active = true;
    is_delete = false;
  }

  -- `createOrder` catches what the insertion throws.
  unfoldable pub insert_order : CreateOrderParams N → Action (Desk N X) Failure Done
  insert_order p d =
      let (accepted, x) = out.query_accepted d.venue in
      (
        ok tt,
        record d { venue = x; rows = if accepted then d.rows ++ new_row p d.rows ∷ [] else d.rows },
      )

  -- `revertOrderActiveStatus` catches what the update throws.
  abbrev deactivate : String → OrderRow N → OrderRow N
  deactivate index_operation r =
      if r.index_operation == index_operation then record r { is_active = false } else r

  unfoldable pub revert_active_state_order : String → Action (Desk N X) Failure Done
  revert_active_state_order index_operation d =
      let (accepted, x) = out.query_accepted d.venue in
      (
        ok tt,
        record d {
          venue = x;
          rows = if accepted then map (deactivate index_operation) d.rows else d.rows;
        },
      )

  unfoldable pub get_all_orders_by_index_operation :
      String → Action (Desk N X) Failure (List (Order N))
  get_all_orders_by_index_operation index_operation d =
      let (accepted, x) = out.query_accepted d.venue in
      (
        if accepted
            then ok (
                map row_order
                  (filter (λ r. not r.is_delete && r.index_operation == index_operation) d.rows))
            else err Failure.database,
        record d { venue = x },
      )
