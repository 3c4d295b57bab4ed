-- ===== src/Trading/Orders/Wait/Laws.antt =====
-- What waiting for an execution guarantees.
use tonatiuh_trading_saas.Prelude.{
  ℕ, zero, suc, String, Bool, true, not, ◌≡◌, refl, arith, ◌⊎◌, inl, inr, ◌&&◌, Bool-cases, ◌∙◌,
  if◌then◌else◌,
}
use tonatiuh_trading_saas.Prelude.Action.{
  Result, Action, After, After-bind, After-mono, After-ok, Outcome-cases, when, pure, throw, ok,
  ◌>>◌, ◌>>=◌,
}
use text.Mathlib.Text.{◌==◌}
use tonatiuh_trading_saas.Number.{Number}
use tonatiuh_trading_saas.Trading.Types.{Order}
use tonatiuh_trading_saas.Trading.Outside.{Outside, Failure, not_executed}
use tonatiuh_trading_saas.Trading.Exchange.{check_status_order_by_id, cancel_all_orders}
use tonatiuh_trading_saas.Trading.Orders.Desk.{Desk, at_venue}
use tonatiuh_trading_saas.Trading.Orders.Publish.{publish_order}
use tonatiuh_trading_saas.Trading.Orders.Wait.{
  has_fill, is_closed, give_up_waiting, poll_execution, wait_for_execution, judge, act_on, Verdict,
  executed, refused, waiting, order_state,
}

module _ {N X : Type 0} where
  -- The service's orders and the table are as before.
  abbrev pub Keeps : Desk N X → Desk N X → Type 0
  Keeps d d' = (d'.orders ≡ d.orders) × (d'.rows ≡ d.rows)

  abbrev pub KeepsAlways : {A : Type 0} → Desk N X → Result Failure A × Desk N X → Type 0
  KeepsAlways d = After (λ _ d'. Keeps d d') (λ _ d'. Keeps d d')

  pub at_venue-Keeps :
      {A : Type 0} (m : Action X Failure A) (d : Desk N X) → KeepsAlways d (at_venue m d)
  at_venue-Keeps m d = ground arith

  pub Keeps-trans : (d e f : Desk N X) → Keeps d e → Keeps e f → Keeps d f
  Keeps-trans d e f (a, b) (a', b') = (a' ∙ a, b' ∙ b)

  -- a call outside, with its answer
  pub at_venue-Runs :
      {A : Type 0} (m : Action X Failure A) (d e : Desk N X)
      → Keeps d e
      → After (λ a t. Keeps d t × (m e.venue ≡ (ok a, t.venue))) (λ _ t. Keeps d t) (at_venue m e)
  at_venue-Runs m d e h = elim (Outcome-cases (m e.venue)) [
    | inl (a, x, eq) ↦ rw eq (h, refl)
    | inr (f, x, eq) ↦ rw eq h
  ]

module _ {N X : Type 0} ⦃num : Number N⦄ where
  abbrev pub FilledAfter : Desk N X → Order N → Desk N X → Type 0
  FilledAfter d latest d' = (has_fill latest ≡ true) × Keeps d d'

module _ {N X : Type 0} ⦃num : Number N⦄ (out : Outside N X) where
  -- what the exchange answered when it was asked for the order, by its own id
  abbrev pub ReadAs : String → String → Order N → Type 0
  ReadAs id symbol latest =
      (x : X) × (y : X) × (check_status_order_by_id out id symbol x ≡ (ok latest, y))

  -- the order itself, if it came back executed from its submission, or a reading of it
  abbrev pub Reading : Order N → String → Order N → Type 0
  Reading order symbol latest =
      ((latest ≡ order) × (has_fill order ≡ true) × (is_closed order.status ≡ true))
      ⊎ ReadAs order.id symbol latest

  -- a filled reading of the order, or a failure; the orders and the table are as before
  abbrev pub Executes : Order N → String → Desk N X → Result Failure (Order N) × Desk N X → Type 0
  Executes order symbol d =
      After (λ latest d'. FilledAfter d latest d' × Reading order symbol latest)
        (λ _ d'. Keeps d d')

  pub publish_order-Keeps :
      (order : Order N) (d : Desk N X) → KeepsAlways d (publish_order out order d)
  unfolding publish_order
  publish_order-Keeps order d = ground arith

  -- one look at the exchange, from a state that kept the orders
  pub look-Keeps :
      {A : Type 0} (m : Action X Failure A) (d e : Desk N X)
      → Keeps d e
      → KeepsAlways d (at_venue m e)
  look-Keeps m d e h = ground arith

  look-Reads :
      (id symbol : String) (d e : Desk N X)
      → Keeps d e
      → After
          (λ latest t. Keeps d t × ReadAs id symbol latest)
          (λ _ t. Keeps d t)
          (at_venue (check_status_order_by_id out id symbol) e)
  look-Reads id symbol d e h =
      let look = check_status_order_by_id out id symbol in
      After-mono (at_venue look e) (λ latest t seen. (seen.0, (e.venue, t.venue, seen.1)))
        (λ _ _ k. k) (at_venue-Runs look d e h)

  conclude-Executes :
      (order latest : Order N) (symbol : String) (d e : Desk N X)
      → Keeps d e
      → ReadAs order.id symbol latest
      → Executes order symbol d (
          (publish_order out latest
              >> (if has_fill latest then pure latest else throw (not_executed order.id)))
            e)
  unfolding publish_order
  conclude-Executes order latest symbol d e h read = elim (Bool-cases (has_fill latest)) [
    | inl fill ↦ rw fill ((fill, h), inr read)
    | inr none_filled ↦ rw none_filled h
  ]

  give_up_waiting-Executes :
      (order : Order N) (symbol : String) (d e : Desk N X)
      → Keeps d e
      → Executes order symbol d (give_up_waiting out order symbol e)
  unfolding give_up_waiting
  give_up_waiting-Executes order symbol d e h =
      let end : Order N → Action (Desk N X) Failure (Order N) = λ latest.
        publish_order out latest
        >> (if has_fill latest then pure latest else throw (not_executed order.id)) in
      let P =
        λ (latest : Order N) (t : Desk N X). FilledAfter d latest t × Reading order symbol latest in
      let look : Action (Desk N X) Failure (Order N) =
        at_venue (check_status_order_by_id out order.id symbol) in
      After-bind P (λ _ t. Keeps d t) (λ _ t. Keeps d t) (at_venue (cancel_all_orders out symbol))
        (λ _. look >>= end) e (look-Keeps (cancel_all_orders out symbol) d e h)
        (λ _ t k.
          After-bind P (λ _ u. Keeps d u) (λ latest u. Keeps d u × ReadAs order.id symbol latest)
            look end t (look-Reads order.id symbol d t k)
            (λ latest u read. conclude-Executes order latest symbol d u read.0 read.1))

  pub publish_when-Keeps :
      (b : Bool) (order : Order N) (d e : Desk N X)
      → Keeps d e
      → KeepsAlways d (when b (publish_order out order) e)
  unfolding publish_order
  publish_when-Keeps b order d e h = ground arith

  act_on-Executes :
      (verdict : Verdict) (order latest : Order N) (symbol : String)
      (again : Action (Desk N X) Failure (Order N)) (d e : Desk N X)
      → (verdict ≡ executed → has_fill latest ≡ true)
      → ((e' : Desk N X) → Keeps d e' → Executes order symbol d (again e'))
      → ReadAs order.id symbol latest
      → Keeps d e
      → Executes order symbol d (act_on out verdict order latest again e)
  act_on-Executes executed order latest symbol again d e f k read h = ((f refl, h), inr read)
  act_on-Executes refused order latest symbol again d e f k read h = h
  act_on-Executes waiting order latest symbol again d e f k read h =
      k (record e { venue = out.sleep 1000 e.venue }) h

  judge_executed : (latest : Order N) → judge latest ≡ executed → has_fill latest ≡ true
  unfolding judge
  judge_executed latest h = ground arith

  poll_execution-Executes :
      (order : Order N) (symbol : String) (left : ℕ) (published : String) (d e : Desk N X)
      → Keeps d e
      → Executes order symbol d (poll_execution out order symbol left published e)
  unfolding poll_execution
  poll_execution-Executes order symbol zero published d e h =
      give_up_waiting-Executes order symbol d e h
  poll_execution-Executes order symbol (suc left) published d e h =
      let rest = λ (latest : Order N).
        act_on out (judge latest) order latest
          (poll_execution out order symbol left (order_state latest)) in
      let publish = λ (latest : Order N).
        when {S = Desk N X} {E = Failure} (not (order_state latest == published))
          (publish_order out latest) in
      let P =
        λ (latest : Order N) (t : Desk N X). FilledAfter d latest t × Reading order symbol latest in
      After-bind P (λ _ u. Keeps d u) (λ latest t. Keeps d t × ReadAs order.id symbol latest)
        (at_venue (check_status_order_by_id out order.id symbol))
        (λ latest. publish latest >> rest latest) e (look-Reads order.id symbol d e h)
        (λ latest t seen.
          After-bind P (λ _ u. Keeps d u) (λ _ u. Keeps d u) (publish latest) (λ _. rest latest) t
            (publish_when-Keeps (not (order_state latest == published)) latest d t seen.0)
            (λ _ u k'.
              act_on-Executes (judge latest) order latest symbol
                (poll_execution out order symbol left (order_state latest)) d u
                (judge_executed latest)
                (λ e' k''. poll_execution-Executes order symbol left (order_state latest) d e' k'')
                seen.1 k'))

  -- Waiting for an order either fails, or returns an order with a positive filled amount: the
  -- submitted one, if it came back filled and closed, or else what the exchange answered when it
  -- was asked for the id of that order. In both cases the service's orders and the table are left
  -- as they were.
  pub wait_for_execution-Executes :
      (order : Order N) (symbol : String) (d : Desk N X)
      → Executes order symbol d (wait_for_execution out order symbol d)
  unfolding wait_for_execution publish_order
  wait_for_execution-Executes order symbol d =
      elim (Bool-cases (has_fill order && is_closed order.status)) [
        | inl at_once ↦
            let fill : has_fill order ≡ true = ground arith in
            let over : is_closed order.status ≡ true = ground arith in
            rw at_once ((fill, (refl, refl)), inl (refl, fill, over))
        | inr later ↦ rw later (poll_execution-Executes order symbol 60 "" d d (refl, refl))
      ]

  -- the same from a desk that kept the orders and the table of another
  pub wait_for_execution-from :
      (order : Order N) (symbol : String) (d e : Desk N X)
      → Keeps d e
      → Executes order symbol d (wait_for_execution out order symbol e)
  wait_for_execution-from order symbol d e h =
      After-mono (wait_for_execution out order symbol e)
        (λ latest t known. ((known.0.0, Keeps-trans d e t h known.0.1), known.1))
        (λ _ t k. Keeps-trans d e t h k) (wait_for_execution-Executes order symbol e)

  -- what is known of an order that waiting is known to have returned
  pub wait_for_execution-ok :
      (order : Order N) (symbol : String) (d : Desk N X) {latest : Order N} {u : Desk N X}
      → wait_for_execution out order symbol d ≡ (ok latest, u)
      → FilledAfter d latest u × Reading order symbol latest
  wait_for_execution-ok order symbol d same =
      After-ok (λ latest u. FilledAfter d latest u × Reading order symbol latest) (λ _ u. Keeps d u)
        (wait_for_execution-Executes order symbol d) same
