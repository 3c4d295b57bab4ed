-- ===== src/Trading/Orders/Rows.antt =====
-- src/repository/repository/order.repository.ts: what is read of the rows of a position, and the
-- operations on single rows.
use tonatiuh_trading_saas.Prelude.{
  String, Bool, true, not, ◌&&◌, Option, none, some, List, [], ◌∷◌, map, filter, find?, reduce,
  last?, if◌then◌else◌, ◌or◌,
}
use text.Mathlib.Text.{◌==◌}
use tonatiuh_trading_saas.Prelude.Action.{
  ok, err, Action, Done, pure, throw, ◌>>=◌, ◌>>◌, catch, gets,
}
use tonatiuh_trading_saas.Number.{Number, lit, ◌⊕◌, ◌⊖◌, ◌⊗◌}
use tonatiuh_trading_saas.Trading.Types.{Side, is_buy, Order}
use tonatiuh_trading_saas.Trading.Outside.{
  Outside, Failure, database, no_closed_order, other_failure,
}
use tonatiuh_trading_saas.Trading.Orders.Desk.{Desk, OrderRow, row_order}

module _ {N X : Type 0} (out : Outside N X) where
  -- a statement, which throws if the database refuses it
  abbrev pub statement : (List (OrderRow N) → List (OrderRow N)) → Action (Desk N X) Failure Done
  statement change d =
      let (accepted, x) = out.query_accepted d.venue in
      if accepted
      then (ok tt, record d { rows = change d.rows; venue = x })
      else (err database, record d { venue = x })

  abbrev pub select : {A : Type 0} → (List (OrderRow N) → A) → Action (Desk N X) Failure A
  select read = statement (λ rows. rows) >> gets (λ d. read d.rows)

  unfoldable pub get_all_active_orders : Action (Desk N X) Failure (List (Order N))
  get_all_active_orders =
      select (λ rows. map row_order (filter (λ r. not r.is_delete && r.is_active) rows))

  -- `findOrderById` catches what the query throws.
  unfoldable pub find_order_by_id : String → Action (Desk N X) Failure (Option (OrderRow N))
  find_order_by_id order_id = catch (select (find? (λ r. r.order_id == order_id))) (λ _. pure none)

  -- `deleteOrderById` marks the rows, and catches what the update throws.
  unfoldable pub delete_order_by_id : String → Action (Desk N X) Failure Done
  delete_order_by_id order_id =
      catch
        (statement (map (λ r. if r.order_id == order_id then record r { is_delete = true } else r)))
        (λ _. pure tt)

module _ {N : Type 0} ⦃num : Number N⦄ where
  abbrev add_amount : N → OrderRow N → N
  add_amount total r = total ⊕ r.amount

  abbrev add_cost : N → OrderRow N → N
  add_cost total r = total ⊕ r.price ⊗ r.amount

  -- The profit at a closing price; the sums are NULL over no rows.
  unfoldable pub profit_of_rows : Side → N → List (OrderRow N) → Option N
  profit_of_rows side price [] = none
  profit_of_rows side price (r ∷ rs) =
      let amount = reduce add_amount (lit 0) (r ∷ rs) in
      let cost = reduce add_cost (lit 0) (r ∷ rs) in
      some (if is_buy side then cost ⊖ amount ⊗ price else amount ⊗ price ⊖ cost)

  abbrev pub of_session : String → OrderRow N → Bool
  of_session index r = r.index_operation == index

  -- `closingOrder.orderId ?? closingOrder.id`
  abbrev pub closing_order_id : Order N → String
  closing_order_id order = order.order_id or order.id

  abbrev pub closing_row : String → String → OrderRow N → Bool
  closing_row index id r = of_session index r && r.order_id == id

  abbrev pub active_row : String → OrderRow N → Bool
  active_row index r = of_session index r && r.is_active

  module _ {X : Type 0} (out : Outside N X) where
    abbrev pub profit_at :
        String → Side → Option (OrderRow N) → Action (Desk N X) Failure (Option N)
    profit_at index side none = throw no_closed_order
    profit_at index side (some closing) =
        select out (λ rows. profit_of_rows side closing.price (filter (active_row index) rows))

    -- Without an order there is no `closingOrder` to read.
    unfoldable pub get_profit_for_trade_session :
        String → Side → List (Order N) → Action (Desk N X) Failure (Option N)
    unfolding profit_of_rows
    get_profit_for_trade_session index side orders = elim (last? orders) [
      | none ↦ throw (other_failure "Cannot read properties of undefined (reading 'orderId')")
      | some order ↦ (do
        closing ← select out (find? (closing_row index (closing_order_id order)))
        profit_at index side closing)
    ]
