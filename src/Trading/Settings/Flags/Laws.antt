-- ===== src/Trading/Settings/Flags/Laws.antt =====
-- The emergency stop.
use tonatiuh_trading_saas.Prelude.{
  ℕ, Bool, true, false, ◌≡◌, refl, Option, none, some, List, [], ◌∷◌, map, find?, if◌then◌else◌,
  All, arith, inl, inr, Bool-cases, subst, sym, ap,
}
use tonatiuh_trading_saas.Prelude.Action.{
  ok, Action, Done, After, After-ok, After-bind, After-mono, Outcome-cases,
}
use tonatiuh_trading_saas.Trading.Outside.{Outside, Failure}
use tonatiuh_trading_saas.Trading.Settings.Repository.{ConfigRow, Configs, has_id, statement}
use tonatiuh_trading_saas.Trading.Settings.Repository.Reads.{statement-Changes}
use tonatiuh_trading_saas.Trading.Settings.Flags.{
  stopped_row, set_emergency, flag_of, get_emergency_stop, disable_emergency_stop,
  checking_is_emergency_stop,
}

module _ {N : Type 0} where
  abbrev pub Running : List (ConfigRow N) → Type 0
  Running rows = All (λ r. stopped_row r ≡ false) rows

  all_cleared :
      (rows : List (ConfigRow N))
      → Running (map (λ r. if stopped_row r then set_emergency false r else r) rows)
  all_cleared [] = tt
  all_cleared (r ∷ rows) = elim (Bool-cases (stopped_row r)) [
    | inl stopped ↦ rw stopped (refl, all_cleared rows)
    | inr running ↦ rw running (refl, all_cleared rows)
  ]

module _ {N X : Type 0} (out : Outside N X) where
  -- Disabling the emergency stop leaves no row of any configuration stopped, and changes no row if
  -- it fails.
  pub disable_emergency_stop-Running :
      (s : Configs N X)
      → After (λ _ t. Running t.rows) (λ _ t. t.rows ≡ s.rows) (disable_emergency_stop out s)
  unfolding disable_emergency_stop
  disable_emergency_stop-Running s = elim (Bool-cases (out.query_accepted s.venue).0) [
    | inl accepted ↦ rw accepted (all_cleared s.rows)
    | inr refused ↦ rw refused refl
  ]

  -- what reading the flag learns
  abbrev pub Flagged : ℕ → Configs N X → Bool → Configs N X → Type 0
  Flagged config_id s stopped t =
      (r : ConfigRow N) × (find? (has_id config_id) s.rows ≡ some r)
      × (stopped_row r ≡ stopped)
      × (t.rows ≡ s.rows)

  flag_of-Flagged :
      (config_id : ℕ) (s t : Configs N X) (o : Option (ConfigRow N))
      → find? (has_id config_id) s.rows ≡ o
      → t.rows ≡ s.rows
      → After (Flagged config_id s) (λ _ _. Unit {0}) (flag_of out o, t)
  flag_of-Flagged config_id s t none there same = tt
  flag_of-Flagged config_id s t (some r) there same = (r, there, refl, same)

  get_emergency_stop-Flagged :
      (config_id : ℕ) (s : Configs N X)
      → After (Flagged config_id s) (λ _ _. Unit {0}) (get_emergency_stop out config_id s)
  unfolding get_emergency_stop
  get_emergency_stop-Flagged config_id s =
      let keep : List (ConfigRow N) → List (ConfigRow N) = λ rows. rows in
      let look : Done → Action (Configs N X) Failure Bool =
        λ _ t. (flag_of out (find? (has_id config_id) t.rows), t) in
      let none_known : Failure → Configs N X → Type 0 = λ _ _. Unit {0} in
      After-bind (Flagged config_id s) none_known (λ _ t. t.rows ≡ s.rows) (statement out keep) look
        s
        (After-mono (statement out keep s) (λ _ _ same. same) (λ _ _ _. tt)
          (statement-Changes out keep s))
        (λ _ t same.
          flag_of-Flagged config_id s t (find? (has_id config_id) t.rows)
            (ap (λ rows. find? (has_id config_id) rows) (sym same)) same)

  -- The check answers that the process was stopped only if the configuration's flag was set and
  -- the position was closed without an error, and then no row is stopped any more.
  pub checking_is_emergency_stop-Closes :
      (config_id : ℕ) (close : Action (Configs N X) Failure Done) (s : Configs N X)
      → (checking_is_emergency_stop out config_id close s).0 ≡ true
      → (t : Configs N X) × (u : Configs N X) × Flagged config_id s true t
        × (close t ≡ (ok tt, u))
        × Running (checking_is_emergency_stop out config_id close s).1.rows
  unfolding checking_is_emergency_stop
  checking_is_emergency_stop-Closes config_id close s h =
      elim (Outcome-cases (get_emergency_stop out config_id s)) [
        | inr (e, t, failed) ↦ absurd (ground arith)
        | inl (false, t, read) ↦ absurd (ground arith)
        | inl (true, t, read) ↦
            let flagged =
              After-ok (Flagged config_id s) (λ _ _. Unit {0})
                (get_emergency_stop-Flagged config_id s) read in
            elim (Outcome-cases (close t)) [
              | inr (e, u, failed) ↦ absurd (ground arith)
              | inl (done, u, closed) ↦ elim (Outcome-cases (disable_emergency_stop out u)) [
                | inr (e, v, failed) ↦ absurd (ground arith)
                | inl (cleared, v, disabled) ↦
                    let running =
                      After-ok (λ _ w. Running w.rows) (λ _ w. w.rows ≡ u.rows)
                        (disable_emergency_stop-Running u) disabled in
                    let end : (checking_is_emergency_stop out config_id close s).1 ≡ v =
                      ground arith in
                    (t, u, flagged, closed, subst (λ w. Running w.rows) (sym end) running)
              ]
            ]
      ]
