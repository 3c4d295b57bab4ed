-- ===== src/Trading/Orders/Close/Laws.antt =====
-- What closing a position guarantees: how the exposure was measured, and what was recorded.
use tonatiuh_trading_saas.Prelude.{
  String, Bool, true, false, ◌≡◌, ◌++◌, ◌⊎◌, Option, none, some, List, [], ◌∷◌, not,
}
use text.Mathlib.Text.{◌==◌}
use tonatiuh_trading_saas.Prelude.Action.{ok, err, Action, when, pure, modify, ◌>>◌}
use tonatiuh_trading_saas.Number.{Number}
use tonatiuh_trading_saas.Trading.Types.{Order, CreateOpenPosition, limit}
use tonatiuh_trading_saas.Trading.Outside.{Outside, Failure}
use tonatiuh_trading_saas.Trading.Exchange.{
  create_order, cancel_all_orders, check_status_order_by_id, get_price,
}
use tonatiuh_trading_saas.Trading.Exposure.{
  FilledOrderExposure, ClosingOrderExposure, calculate_closing_order_exposure,
}
use tonatiuh_trading_saas.Trading.Orders.Desk.{Desk, CreateOrderParams, insert_order, push_order}
use tonatiuh_trading_saas.Trading.Orders.Wait.{has_fill}
use tonatiuh_trading_saas.Trading.Orders.Wait.Laws.{Keeps, Reading}
use tonatiuh_trading_saas.Trading.Orders.Open.{executed_params}
use tonatiuh_trading_saas.Trading.Orders.Open.Laws.{Inserts}
use tonatiuh_trading_saas.Trading.Orders.Close.{resolve_executed_amount, exchange_order_id}

module _ {N X : Type 0} ⦃num : Number N⦄ (out : Outside N X) where
  -- what asking the exchange for an order answered, and that it could not be asked
  abbrev pub StatusRead : Order N → String → X → Option (Order N) → X → Type 0
  StatusRead order symbol x (some latest) y =
      check_status_order_by_id out (exchange_order_id order) symbol x ≡ (ok latest, y)
  StatusRead order symbol x none y =
      (e : Failure) × (check_status_order_by_id out (exchange_order_id order) symbol x ≡ (err e, y))

  -- The exchange is asked for one order after the other, from `x` to `y`; each is measured on its
  -- own side, by the amount resolved from the answer.
  abbrev pub Measures : String → X → List (Order N) → List (FilledOrderExposure N) → X → Type 0
  Measures symbol x [] [] y = y ≡ x
  Measures symbol x [] (f ∷ fs) y = ⊥
  Measures symbol x (o ∷ os) [] y = ⊥
  Measures symbol x (o ∷ os) (f ∷ fs) y =
      (status : Option (Order N)) × (z : X) × StatusRead o symbol x status z
      × (f.side ≡ o.side)
      × (f.filled ≡ resolve_executed_amount o status)
      × Measures symbol z os fs y

  -- the orders of the service are measured once all open ones were cancelled
  abbrev pub Measured : Desk N X → String → List (FilledOrderExposure N) → X → Type 0
  Measured d symbol fs y =
      (x : X) × (cancel_all_orders out symbol d.venue ≡ (ok tt, x))
      × Measures symbol x d.orders fs y

  -- the order that is submitted for an exposure
  abbrev pub closing_request : ClosingOrderExposure N → String → N → CreateOpenPosition N
  closing_request exposure symbol price = record {
    symbol = symbol;
    type_ = limit;
    side = exposure.side;
    amount = exposure.amount;
    price = price;
  }

  -- the rows after a closing order, without and with an index of a session
  abbrev pub Recorded : Bool → Desk N X → CreateOrderParams N → Desk N X → Type 0
  Recorded true d params d' = d'.rows ≡ d.rows
  Recorded false d params d' = Inserts out d params d'

  -- The closing order of an exposure, from `x` on: it is submitted with the side and the amount of
  -- the exposure at the price that is read, it is executed and the last of the service's orders
  -- now, and its row is inserted unless there is no index.
  pub record Closed (d : Desk N X) (x : X) (exposure : ClosingOrderExposure N)
      (symbol index_operation : String) (no_index : Bool) (order : Order N) (d' : Desk N X)
      : Type 0 where
    pub price : N
    pub asked : X
    pub priced : get_price out symbol x ≡ (ok price, asked)
    pub submitted : Order N
    pub answered : X
    pub accepted :
        create_order out (closing_request exposure symbol price) asked ≡ (ok submitted, answered)
    pub reading : Reading out submitted symbol order
    pub executed : has_fill order ≡ true
    pub pushed : d'.orders ≡ d.orders ++ order ∷ []
    pub recorded :
        Recorded no_index d
          (executed_params order exposure.side symbol price exposure.amount index_operation)
          d'

  abbrev record_closing : Bool → CreateOrderParams N → Order N → Action (Desk N X) Failure (Order N)
  record_closing no_index params order =
      when (not no_index) (insert_order out params) >> (modify (push_order order) >> pure order)

  -- What `closeFilledPosition` leaves behind when it returns: no order, with nothing to close, or
  -- the executed order that closes the measured exposure.
  abbrev pub Outcome : Desk N X → String → String → Option (Order N) → Desk N X → Type 0
  Outcome d symbol index_operation none d' =
      Keeps d d'
      × ((d.orders ≡ [])
          ⊎ ((fs : List (FilledOrderExposure N)) × Measured d symbol fs d'.venue
              × (calculate_closing_order_exposure fs ≡ none)))
  Outcome d symbol index_operation (some order) d' =
      (fs : List (FilledOrderExposure N)) × (exposure : ClosingOrderExposure N) × (y : X) × Measured
        d symbol fs y
      × (calculate_closing_order_exposure fs ≡ some exposure)
      × Closed d y exposure symbol index_operation (index_operation == "") order d'
