-- ===== src/Trading/Sessions/Laws.antt =====
-- The life of a session's row.
use tonatiuh_trading_saas.Prelude.{
  ℕ, String, not, Option, List, [], ◌∷◌, ◌++◌, map, filter, find?, reduce, none, ap, ◌≡◌, refl,
  arith, inl, inr, Bool-cases,
}
use text.Mathlib.Text.{◌==◌}
use tonatiuh_trading_saas.Prelude.Action.{After, After-bind, Action, Done, gets, pure}
use tonatiuh_trading_saas.Number.{Number}
use tonatiuh_trading_saas.Trading.Outside.{Outside, Failure}
use tonatiuh_trading_saas.Trading.Sessions.{
  statement, select, add_profit, checking_active_session, get_all_profit_session, SessionRow,
  Sessions, is_active_of, new_session, ended, start_session, end_trade_session,
}

module _ {N : Type 0} where
  -- the active sessions of a configuration
  abbrev pub active_sessions : ℕ → List (SessionRow N) → List String
  active_sessions c rows = map (λ r. r.index_session) (filter (is_active_of c) rows)

  -- ending a session takes it out of the active ones
  active_sessions-ended :
      (c : ℕ) (p : Option N) (index : String) (rows : List (SessionRow N))
      → active_sessions c (map (ended p index) rows)
        ≡ filter (λ i. not (i == index)) (active_sessions c rows)
  active_sessions-ended c p index [] = refl
  active_sessions-ended c p index (r ∷ rs) = elim (Bool-cases (r.index_session == index)) [
    | inl here ↦ elim (Bool-cases (is_active_of c r)) [
      | inl active ↦ ground (arith, active_sessions-ended c p index rs)
      | inr idle ↦ ground (arith, active_sessions-ended c p index rs)
    ]
    | inr other ↦ elim (Bool-cases (is_active_of c r)) [
      | inl active ↦ ground (arith, active_sessions-ended c p index rs)
      | inr idle ↦ ground (arith, active_sessions-ended c p index rs)
    ]
  ]

module _ {N X : Type 0} (out : Outside N X) where
  pub statement-Changes :
      (change : List (SessionRow N) → List (SessionRow N)) (s : Sessions N X)
      → After (λ _ t. t.rows ≡ change s.rows) (λ _ t. t.rows ≡ s.rows) (statement out change s)
  statement-Changes change s = elim (Bool-cases (out.query_accepted s.venue).0) [
    | inl accepted ↦ ground arith
    | inr refused ↦ ground arith
  ]

  -- Ending a session takes exactly its index out of the active ones of every configuration, and
  -- changes no row if it fails.
  pub end_trade_session-Removes :
      (c : ℕ) (profit : Option N) (index : String) (s : Sessions N X)
      → After
          (λ _ t.
            active_sessions c t.rows ≡ filter (λ i. not (i == index)) (active_sessions c s.rows))
          (λ _ t. t.rows ≡ s.rows)
          (end_trade_session out profit index s)
  unfolding end_trade_session
  end_trade_session-Removes c profit index s = elim (Bool-cases (out.query_accepted s.venue).0) [
    | inl accepted ↦ ground (arith, active_sessions-ended c profit index s.rows)
    | inr refused ↦ ground arith
  ]

  -- a query changes no row
  select-Reads :
      {A : Type 0} (read : List (SessionRow N) → A) (s : Sessions N X)
      → After
          (λ a t. (a ≡ read s.rows) × (t.rows ≡ s.rows))
          (λ _ t. t.rows ≡ s.rows)
          (select out read s)
  select-Reads {A} read s =
      let keep : List (SessionRow N) → List (SessionRow N) = λ rows. rows in
      let look : Done → Action (Sessions N X) Failure A = λ _. gets (λ t. read t.rows) in
      After-bind (λ a t. (a ≡ read s.rows) × (t.rows ≡ s.rows)) (λ _ t. t.rows ≡ s.rows)
        (λ _ t. t.rows ≡ s.rows) (statement out keep) look s (statement-Changes keep s)
        (λ _ t same. (ap read same, same))

  pub checking_active_session-Reads :
      (c : ℕ) (s : Sessions N X)
      → After
          (λ o t. (o ≡ find? (is_active_of c) s.rows) × (t.rows ≡ s.rows))
          (λ _ t. t.rows ≡ s.rows)
          (checking_active_session out c s)
  unfolding checking_active_session
  checking_active_session-Reads c = select-Reads (find? (is_active_of c))

module _ {N : Type 0} ⦃num : Number N⦄ where
  active_sessions-append :
      (c : ℕ) (index : String) (rows : List (SessionRow N))
      → active_sessions c (rows ++ new_session c index ∷ []) ≡ active_sessions c rows ++ index ∷ []
  active_sessions-append c index [] = ground arith
  active_sessions-append c index (r ∷ rs) = elim (Bool-cases (is_active_of c r)) [
    | inl active ↦ ground (arith, active_sessions-append c index rs)
    | inr idle ↦ ground (arith, active_sessions-append c index rs)
  ]

module _ {N X : Type 0} ⦃num : Number N⦄ (out : Outside N X) where
  pub get_all_profit_session-Reads :
      (s : Sessions N X)
      → After
          (λ a t. (a ≡ reduce (add_profit out) none s.rows) × (t.rows ≡ s.rows))
          (λ _ t. t.rows ≡ s.rows)
          (get_all_profit_session out s)
  unfolding get_all_profit_session
  get_all_profit_session-Reads = select-Reads out (reduce (add_profit out) none)

  -- Starting a session adds its index to the active ones of its configuration, and changes no row
  -- if it fails.
  pub start_session-Adds :
      (c : ℕ) (s : Sessions N X)
      → After
          (λ index t. active_sessions c t.rows ≡ active_sessions c s.rows ++ index ∷ [])
          (λ _ t. t.rows ≡ s.rows)
          (start_session out c s)
  unfolding start_session
  start_session-Adds c s =
      let (index, x) = out.random_id s.venue in
      let t : Sessions N X = record s { venue = x } in
      let add : List (SessionRow N) → List (SessionRow N) =
        λ rows. rows ++ new_session c index ∷ [] in
      After-bind (λ i t. active_sessions c t.rows ≡ active_sessions c s.rows ++ i ∷ [])
        (λ _ t. t.rows ≡ s.rows) (λ _ t. t.rows ≡ add s.rows) (statement out add) (λ _. pure index)
        t (statement-Changes out add t)
        (λ _ u same. rw same (active_sessions-append c index s.rows))
