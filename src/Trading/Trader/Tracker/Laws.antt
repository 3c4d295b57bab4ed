-- ===== src/Trading/Trader/Tracker/Laws.antt =====
-- What following a price guarantees.
use tonatiuh_trading_saas.Prelude.{
  ℕ, zero, suc, Bool, true, false, Option, none, some, List, [], ◌∷◌, ◌≡◌, refl, arith, is_some,
}
use tonatiuh_trading_saas.Prelude.Action.{
  Result, ok, err, Action, Done, pure, ◌>>=◌, After, After-bind, After-catch, After-always,
}
use tonatiuh_trading_saas.Number.{Number, to_number, ◌⊗◌}
use tonatiuh_trading_saas.Trading.Types.{Side, Order}
use tonatiuh_trading_saas.Trading.Outside.{Outside, Failure}
use tonatiuh_trading_saas.Trading.Exchange.{get_unrealized_pnl}
use tonatiuh_trading_saas.Trading.Orders.Desk.{Desk}
use tonatiuh_trading_saas.Trading.Orders.Close.{close_filled_position}
use tonatiuh_trading_saas.Trading.Trader.{
  Trader, desk_of, put_desk, on_desk, get_price, sleep_timeout,
}
use tonatiuh_trading_saas.Trading.Trader.Keeps.{
  Keeps, Keeps-bind, on_desk-Keeps, on_venue-Keeps, get_price-Keeps, sleep_timeout-Keeps,
  catch-Keeps,
}
use tonatiuh_trading_saas.Trading.Trader.Tracker.{
  Targets, Look, close_now, watch_on, targets_at, look, close_position, first_pnl, require_orders,
  act_on_look, track, on_price_tracker,
}

module _ {N X : Type 0} ⦃num : Number N⦄ (out : Outside N X) where
  pub close_position-Keeps : Keeps (close_position out)
  unfolding close_position
  close_position-Keeps t =
      let close = close_filled_position out t.symbol t.index_operation in
      let told : Option (Order N) → Action (Trader N X) Failure Bool = λ o. pure (is_some o) in
      Keeps-bind (on_desk close) told (on_desk-Keeps close) (λ _ u. (refl, refl)) t

  require_orders-Keeps : (orders : List (Order N)) → Keeps (require_orders out orders)
  require_orders-Keeps [] = λ t. (refl, refl)
  require_orders-Keeps (o ∷ os) = λ t. (refl, refl)

  first_pnl-Keeps : (orders : List (Order N)) → Keeps (first_pnl out orders)
  first_pnl-Keeps [] = λ t. (refl, refl)
  first_pnl-Keeps (o ∷ os) =
      λ t. on_venue-Keeps (get_unrealized_pnl out t.symbol (to_number o.price) o.side) t

  abbrev Again : Type 0
  Again = Targets N → Action (Trader N X) Failure (Option Bool)

  act_on_look-Keeps :
      (again : Again) (seen : Look N)
      → ((targets : Targets N) → Keeps (again targets))
      → Keeps (act_on_look out again seen)
  act_on_look-Keeps again close_now h =
      let told : Bool → Action (Trader N X) Failure (Option Bool) = λ closed. pure (some closed) in
      Keeps-bind (close_position out) told close_position-Keeps (λ _ t. (refl, refl))
  act_on_look-Keeps again (watch_on targets) h =
      let next : Done → Action (Trader N X) Failure (Option Bool) = λ _. again targets in
      Keeps-bind (sleep_timeout out 1000) next (sleep_timeout-Keeps out 1000) (λ _. h targets)

  -- the parts of a turn
  abbrev present : Action (Trader N X) Failure Done
  present t = require_orders out t.orders t

  abbrev pnl : Action (Trader N X) Failure N
  pnl t = first_pnl out t.orders t

  abbrev act : Again → Side → N → Targets N → N → N → Action (Trader N X) Failure (Option Bool)
  act again side indent targets last_price _ =
      act_on_look out again (look side indent last_price targets)

  abbrev priced : Again → Side → N → Targets N → N → Action (Trader N X) Failure (Option Bool)
  priced again side indent targets last_price = pnl >>= act again side indent targets last_price

  abbrev turn : Again → Side → N → Targets N → Done → Action (Trader N X) Failure (Option Bool)
  turn again side indent targets _ = get_price out >>= priced again side indent targets

  track-Keeps :
      (fuel : ℕ) (side : Side) (indent : N) (targets : Targets N)
      → Keeps (track out fuel side indent targets)
  unfolding track
  track-Keeps zero side indent targets = λ t. (refl, refl)
  track-Keeps (suc fuel) side indent targets =
      let again : Again = track out fuel side indent in
      Keeps-bind present (turn again side indent targets) (λ t. require_orders-Keeps t.orders t)
        (λ _.
          Keeps-bind (get_price out) (priced again side indent targets) (get_price-Keeps out)
            (λ last_price.
              Keeps-bind pnl (act again side indent targets last_price)
                (λ t. first_pnl-Keeps t.orders t)
                (λ _.
                  act_on_look-Keeps again (look side indent last_price targets)
                    (track-Keeps fuel side indent))))

  abbrev start_tracking : ℕ → Side → N → Action (Trader N X) Failure (Option Bool)
  start_tracking fuel side price t =
      let indent = price ⊗ t.config.percent_target_after_take_profit in
      track out fuel side indent (targets_at side indent price) t

  pub on_price_tracker-Keeps : (fuel : ℕ) (side : Side) → Keeps (on_price_tracker out fuel side)
  unfolding on_price_tracker
  on_price_tracker-Keeps fuel side =
      catch-Keeps (get_price out >>= start_tracking fuel side) (λ _. pure (some false))
        (Keeps-bind (get_price out) (start_tracking fuel side) (get_price-Keeps out) (λ price t.
          let indent = price ⊗ t.config.percent_target_after_take_profit in
          track-Keeps fuel side indent (targets_at side indent price) t))
        (λ _ t. (refl, refl))

  -- a position that was closed by an order, after which the service is `u`
  abbrev pub ClosedBy : Trader N X → Type 0
  ClosedBy u =
      (t : Trader N X) × (order : Order N) × (d : Desk N X) × (close_filled_position out t.symbol
          t.index_operation (desk_of t)
        ≡ (ok (some order), d))
      × (u ≡ put_desk t d)

  abbrev DoneWith : Option Bool → Trader N X → Type 0
  DoneWith (some true) u = ClosedBy u
  DoneWith _ u = Unit

  close_position-ClosedBy :
      (t : Trader N X)
      → After (λ closed u. DoneWith (some closed) u) (λ _ _. Unit {0}) (close_position out t)
  unfolding close_position
  close_position-ClosedBy t =
      go (close_filled_position out t.symbol t.index_operation (desk_of t)) refl
    where
      go :
          (r : Result Failure (Option (Order N)) × Desk N X)
          → close_filled_position out t.symbol t.index_operation (desk_of t) ≡ r
          → After
              (λ closed u. DoneWith (some closed) u)
              (λ _ _. Unit {0})
              (elim r.0 as (λ _. Result Failure Bool × Trader N X) [
                | ok order ↦ (ok (is_some order), put_desk t r.1)
                | err e ↦ (err e, put_desk t r.1)
              ])
      go (err e, d) same = tt
      go (ok none, d) same = tt
      go (ok (some order), d) same = (t, order, d, same, refl)

  abbrev NoError : Failure → Trader N X → Type 0
  NoError _ _ = Unit

  act_on_look-ClosedBy :
      (again : Again) (seen : Look N) (t : Trader N X)
      → ((targets : Targets N) (u : Trader N X) → After DoneWith NoError (again targets u))
      → After DoneWith NoError (act_on_look out again seen t)
  act_on_look-ClosedBy again close_now t h =
      let told : Bool → Action (Trader N X) Failure (Option Bool) = λ closed. pure (some closed) in
      After-bind DoneWith NoError (λ closed u. DoneWith (some closed) u) (close_position out) told t
        (close_position-ClosedBy t) (λ closed u known. known)
  act_on_look-ClosedBy again (watch_on targets) t h = h targets (sleep_timeout out 1000 t).1

  After-then :
      {A B : Type 0} (P : B → Trader N X → Type 0) (m : Action (Trader N X) Failure A)
      (f : A → Action (Trader N X) Failure B) (t : Trader N X)
      → ((a : A) (u : Trader N X) → After P NoError (f a u))
      → After P NoError ((m >>= f) t)
  After-then P m f t k =
      After-bind P NoError (λ _ _. Unit {0}) m f t (After-always (λ _. Unit {0}) (m t) tt)
        (λ a u _. k a u)

  track-ClosedBy :
      (fuel : ℕ) (side : Side) (indent : N) (targets : Targets N) (t : Trader N X)
      → After DoneWith NoError (track out fuel side indent targets t)
  unfolding track
  track-ClosedBy zero side indent targets t = tt
  track-ClosedBy (suc fuel) side indent targets t =
      let again : Again = track out fuel side indent in
      After-then DoneWith present (turn again side indent targets) t (λ _ t₁.
        After-then DoneWith (get_price out) (priced again side indent targets) t₁ (λ last_price t₂.
          After-then DoneWith pnl (act again side indent targets last_price) t₂ (λ _ t₃.
            act_on_look-ClosedBy again (look side indent last_price targets) t₃
              (track-ClosedBy fuel side indent))))

  -- what is known of an answer
  closed_if_true :
      (r : Result Failure (Option Bool) × Trader N X)
      → After DoneWith NoError r
      → r.0 ≡ ok (some true)
      → ClosedBy r.1
  closed_if_true (ok none, u) known h = absurd (ground arith)
  closed_if_true (ok (some true), u) known h = known
  closed_if_true (ok (some false), u) known h = absurd (ground arith)
  closed_if_true (err e, u) known h = absurd (ground arith)

  -- The tracker answers that the profit was taken only if an order closed the position, and what
  -- it leaves is what closing it left.
  pub on_price_tracker-ClosedBy :
      (fuel : ℕ) (side : Side) (t : Trader N X)
      → (on_price_tracker out fuel side t).0 ≡ ok (some true)
      → ClosedBy (on_price_tracker out fuel side t).1
  unfolding on_price_tracker
  on_price_tracker-ClosedBy fuel side t h =
      let tracking : After DoneWith NoError (on_price_tracker out fuel side t) =
        After-catch DoneWith NoError NoError (get_price out >>= start_tracking fuel side)
          (λ _. pure (some false)) t
          (After-then DoneWith (get_price out) (start_tracking fuel side) t (λ price u.
            let indent = price ⊗ u.config.percent_target_after_take_profit in
            track-ClosedBy fuel side indent (targets_at side indent price) u))
          (λ _ _ _. tt) in
      closed_if_true (on_price_tracker out fuel side t) tracking h
