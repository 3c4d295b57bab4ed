-- ===== src/Trading/Orders/Open/Laws.antt =====
-- What opening a position guarantees: one executed order more, or a failure that changes nothing.
use tonatiuh_trading_saas.Prelude.{
  String, Bool, true, false, ◌≡◌, refl, ◌⊎◌, inl, inr, Option, none, some, [], ◌∷◌, ◌++◌, arith,
  if◌then◌else◌, ◌&&◌,
}
use tonatiuh_trading_saas.Prelude.Action.{Result, ok, err, Action, After, Outcome-cases}
use tonatiuh_trading_saas.Number.{Number, IsIeee}
use tonatiuh_trading_saas.Trading.Types.{Side, buy, sell, Order, SettingOrder}
use tonatiuh_trading_saas.Trading.Outside.{Outside, Failure}
use tonatiuh_trading_saas.Trading.Exchange.{create_order}
use tonatiuh_trading_saas.Trading.Orders.Desk.{Desk, CreateOrderParams, new_row, insert_order}
use tonatiuh_trading_saas.Trading.Orders.Publish.{publish_order}
use tonatiuh_trading_saas.Trading.Orders.Wait.{has_fill, wait_for_execution}
use tonatiuh_trading_saas.Trading.Orders.Wait.Laws.{
  Keeps, FilledAfter, Reading, wait_for_execution-Executes, wait_for_execution-ok,
}
use tonatiuh_trading_saas.Trading.Orders.Open.{
  FirstPosition, placement, executed_params, open_position_for_strategy, open_first_position,
  side_in_candle, no_first_order,
}

module _ {N : Type 0} ⦃num : Number N⦄ where
  -- The side of the first order, as a choice between disjoint cases: below the candle it is bought,
  -- above it is sold, inside it the nearer end decides, and with a price that is not comparable
  -- there is none.
  abbrev pub first_side : FirstPosition N → Option Side
  first_side p =
      if p.is_only_buy
      then some buy
      else if num.less p.price p.lowest_in_candle
      then some buy
      else if num.less p.highest_in_candle p.price
      then some sell
      else if num.at_most p.lowest_in_candle p.price && num.at_most p.price p.highest_in_candle
      then some (side_in_candle p)
      else none

module _ {N X : Type 0} ⦃num : Number N⦄ (out : Outside N X) where
  -- The order is executed and is the last of the service's orders now; the table has one row more,
  -- with the given values, unless the database refused it.
  pub record Adds (d : Desk N X) (order : Order N) (params : CreateOrderParams N) (d' : Desk N X)
      : Type 0 where
    pub executed : has_fill order ≡ true
    pub pushed : d'.orders ≡ d.orders ++ order ∷ []
    pub stored : (d'.rows ≡ d.rows) ⊎ (d'.rows ≡ d.rows ++ new_row out params d.rows ∷ [])

  -- The last thing that was done outside is the insertion of the row, which is missing only if
  -- the database refused it.
  pub record Inserts (d : Desk N X) (params : CreateOrderParams N) (d' : Desk N X) : Type 0 where
    pub before : X
    pub accepted : Bool
    pub answer : out.query_accepted before ≡ (accepted, d'.venue)
    pub inserted : d'.rows ≡ (if accepted then d.rows ++ new_row out params d.rows ∷ [] else d.rows)

  -- The order is a reading of one that the exchange accepted for that side and these settings.
  pub record Placed (side : Side) (setting : SettingOrder N) (order : Order N) : Type 0 where
    pub submitted : Order N
    pub asked : X
    pub answered : X
    pub accepted : create_order out (placement setting side) asked ≡ (ok submitted, answered)
    pub reading : Reading out submitted setting.symbol order

  -- what an action that opens an order leaves behind
  abbrev pub Opens :
      Desk N X
      → Side
      → SettingOrder N
      → (Order N → CreateOrderParams N)
      → Result Failure (Order N) × Desk N X
      → Type 0
  Opens d side setting params =
      After
        (λ order d'.
          Adds d order (params order) d' × Inserts d (params order) d' × Placed side setting order)
        (λ _ d'. Keeps d d')

  -- the desk after an execution was recorded
  abbrev recorded : Bool → X → CreateOrderParams N → Order N → Desk N X → Desk N X
  recorded accepted x params order e = record e {
    orders = e.orders ++ order ∷ [];
    rows = if accepted then e.rows ++ new_row out params e.rows ∷ [] else e.rows;
    venue = x;
  }

  pub recorded-Adds :
      (accepted : Bool) (x : X) (params : CreateOrderParams N) (order : Order N) (d e : Desk N X)
      → FilledAfter d order e
      → Adds d order params (recorded accepted x params order e)
  recorded-Adds true x params order d e (fill, (same_orders, same_rows)) = record {
    executed = fill;
    pushed = rw same_orders;
    stored = inr (rw same_rows);
  }
  recorded-Adds false x params order d e (fill, (same_orders, same_rows)) = record {
    executed = fill;
    pushed = rw same_orders;
    stored = inl same_rows;
  }

  recorded-Opens :
      (accepted : Bool) (x : X) (params : CreateOrderParams N) (order : Order N) (d e : Desk N X)
      → FilledAfter d order e
      → out.query_accepted e.venue ≡ (accepted, x)
      → Adds d order params (recorded accepted x params order e)
        × Inserts d params (recorded accepted x params order e)
  recorded-Opens accepted x params order d e filled answer = (
    recorded-Adds accepted x params order d e filled,
    record {
      before = e.venue;
      accepted = accepted;
      answer = answer;
      inserted = let (_, (_, same_rows)) = filled in rw same_rows;
    },
  )

  -- Opening a position submits an order for the side and the settings, and appends exactly one
  -- executed order, a reading of the submitted one, whose row under the session, with the
  -- executed price and amount, is inserted by the last call outside unless the database refuses it;
  -- or it fails and leaves the orders and the table as they were.
  pub open_position_for_strategy-Opens :
      (side : Side) (setting : SettingOrder N) (index_operation : String) (d : Desk N X)
      → Opens d side setting
          (λ order.
            executed_params order side order.symbol setting.price setting.amount index_operation)
          (open_position_for_strategy out side setting index_operation d)
  unfolding open_position_for_strategy insert_order publish_order
  open_position_for_strategy-Opens side setting index_operation d =
      elim (Outcome-cases (create_order out (placement setting side) d.venue)) [
        | inr (e, x, eq) ↦ ground arith
        | inl (submitted, x, eq) ↦
            let asked = (publish_order out submitted (record d { venue = x })).1 in
            elim (Outcome-cases (wait_for_execution out submitted setting.symbol asked)) [
              | inr (e, u, eq') ↦
                  ground (arith, wait_for_execution-Executes out submitted setting.symbol asked)
              | inl (order, u, eq') ↦
                  let params =
                    executed_params order side order.symbol setting.price setting.amount
                      index_operation in
                  let q = out.query_accepted u.venue in
                  let whole : open_position_for_strategy out side setting index_operation d
                      ≡ (ok order, recorded q.0 q.1 params order u) =
                    ground arith in
                  let (filled, reading) =
                    wait_for_execution-ok out submitted setting.symbol asked eq' in
                  let (adds, inserts) = recorded-Opens q.0 q.1 params order d u filled refl in
                  let placed : Placed side setting order = record {
                    submitted = submitted;
                    asked = d.venue;
                    answered = x;
                    accepted = eq;
                    reading = reading;
                  } in
                  rw whole (adds, inserts, placed)
            ]
      ]

  abbrev pub open_on : Option Side → FirstPosition N → Action (Desk N X) Failure (Order N)
  open_on none p d = (err (no_first_order out), d)
  open_on (some side) p d = open_position_for_strategy out side p.setting p.index_operation d

  -- The three consecutive tests of `openFirstPosition` open at most one order, on the side that
  -- `first_side` gives, if the candle's low is not above its high.
  pub open_first_position-eq-open_on :
      IsIeee num
      → (p : FirstPosition N) (d : Desk N X)
      → num.at_most p.lowest_in_candle p.highest_in_candle ≡ true
      → open_first_position out p d ≡ open_on (first_side p) p d
  unfolding open_first_position
  open_first_position-eq-open_on laws p d candle = ground (
    arith,
    laws.le_lt p.lowest_in_candle p.price,
    laws.le_lt p.price p.highest_in_candle,
    laws.lt_le_lt p.price p.lowest_in_candle p.highest_in_candle,
  )
