-- ===== src/Process/Child/Ending.antt =====
-- How a child that is asked to end ends.
use tonatiuh_trading_saas.Prelude.{
  ℕ, ◌+◌, ◌≤◌, Bool, true, false, List, [], ◌∷◌, ◌≡◌, refl, sym, subst, ◌∙◌, ap, ◌⊎◌, inl, inr,
  arith, is_some, Bool-cases, if◌then◌else◌,
}
use tonatiuh_trading_saas.Prelude.Action.{Outcome-cases}
use tonatiuh_trading_saas.Process.Child.{
  TradingService, TradingChild, Event, stop_message, start_message, suspend_message, sigterm,
  sigint, disconnect, booted, turn_started, turn_ended, stop_continued, Stopping, not_stopping,
  closing, disposing, is_stopping, step, run, handle, stop_worker, boot, start_turn, end_turn,
  continue_stop, continue_from,
}
use tonatiuh_trading_saas.Process.Child.Stages.{ends, weight, stage_kept}

-- how often what `stopWorker` awaits ends among these events
abbrev pub continuations : {C : Type 0} → List (Event C) → ℕ
continuations [] = 0
continuations (event ∷ events) = weight event + continuations events

module _ {C X : Type 0} (trading : TradingService C X) where
  stop_worker_stopped :
      (close_position : Bool) (s : TradingChild C X)
      → is_stopping s.stopping ≡ true
      → stop_worker close_position s ≡ s
  unfolding stop_worker
  stop_worker_stopped close_position s h = rw h refl

  start_turn_stopped : (s : TradingChild C X) → is_stopping s.stopping ≡ true → start_turn s ≡ s
  unfolding start_turn
  start_turn_stopped s h = ground arith

  -- how often what `stopWorker` awaits still has to end
  abbrev todo : Stopping → ℕ
  todo not_stopping = 0
  todo closing = 2
  todo disposing = 1

  -- the child has exited, or is stopping and exits after so many ends
  abbrev Ending : ℕ → TradingChild C X → Type 0
  Ending n s =
      (is_some s.exit_code ≡ true) ⊎ ((is_stopping s.stopping ≡ true) × (todo s.stopping ≤ n))

  same_stage :
      (n : ℕ) (s u : TradingChild C X)
      → u.stopping ≡ s.stopping
      → is_stopping s.stopping ≡ true
      → todo s.stopping ≤ n
      → Ending n u
  same_stage n s u same h k =
      inr (ap is_stopping same ∙ h, subst (λ stage. todo stage ≤ n) (sym same) k)

  continue_from-Ending :
      (stage : Stopping) (n : ℕ) (s : TradingChild C X)
      → is_stopping stage ≡ true
      → todo stage ≤ 1 + n
      → Ending n (continue_from trading stage s)
  continue_from-Ending not_stopping n s h k = absurd (ground arith)
  continue_from-Ending closing n s h k = elim (Outcome-cases (trading.end_algorithms s.outside)) [
    | inl (a, x, eq) ↦ rw (eq, continue_from) (inr (refl, omega (arith, k)))
    | inr (e, x, eq) ↦ rw (eq, continue_from) (inl refl)
  ]
  continue_from-Ending disposing n s h k = elim (Outcome-cases (trading.dispose s.outside)) [
    | inl (a, x, eq) ↦ rw (eq, continue_from) (inl refl)
    | inr (e, x, eq) ↦ rw (eq, continue_from) (inl refl)
  ]

  stopped_again :
      (n : ℕ) (s : TradingChild C X)
      → is_stopping s.stopping ≡ true
      → todo s.stopping ≤ n
      → Ending n (stop_worker false s)
  stopped_again n s h k =
      same_stage n s (stop_worker false s) (ap (λ u. u.stopping) (stop_worker_stopped false s h)) h
        k

  none_left : (stage : Stopping) → is_stopping stage ≡ true → todo stage ≤ 0 → ⊥
  none_left not_stopping h k = ground arith
  none_left closing h k = omega (arith, k)
  none_left disposing h k = omega (arith, k)

  todo_le : (stage : Stopping) (n : ℕ) → 2 ≤ n → todo stage ≤ n
  todo_le not_stopping n h = omega arith
  todo_le closing n h = h
  todo_le disposing n h = omega (arith, h)

  -- a child that is stopping comes nearer to its exit, or stays as near as it is
  handle-Ending :
      (event : Event C) (n : ℕ) (s : TradingChild C X)
      → is_stopping s.stopping ≡ true
      → todo s.stopping ≤ weight event + n
      → Ending n (handle trading event s)
  unfolding continue_stop
  handle-Ending stop_continued n s h k = continue_from-Ending s.stopping n s h k
  handle-Ending (start_message config) n s h k =
      same_stage n s (handle trading (start_message config) s)
        (stage_kept trading (start_message config) s refl refl) h (omega (arith, k))
  handle-Ending booted n s h k =
      same_stage n s (boot trading s) (stage_kept trading booted s refl refl) h (omega (arith, k))
  handle-Ending turn_ended n s h k =
      same_stage n s (end_turn trading s) (stage_kept trading turn_ended s refl refl) h
        (omega (arith, k))
  handle-Ending turn_started n s h k =
      same_stage n s (start_turn s) (ap (λ u. u.stopping) (start_turn_stopped s h)) h
        (omega (arith, k))
  handle-Ending stop_message n s h k =
      same_stage n s (stop_worker true s) (ap (λ u. u.stopping) (stop_worker_stopped true s h)) h
        (omega (arith, k))
  handle-Ending suspend_message n s h k = stopped_again n s h (omega (arith, k))
  handle-Ending sigterm n s h k = stopped_again n s h (omega (arith, k))
  handle-Ending sigint n s h k = stopped_again n s h (omega (arith, k))
  handle-Ending disconnect n s h k = stopped_again n s h (omega (arith, k))

  step-Ending :
      (event : Event C) (n : ℕ) (s : TradingChild C X)
      → Ending (weight event + n) s
      → Ending n (step trading event s)
  unfolding step
  step-Ending event n s (inl exited) = rw exited (inl exited)
  step-Ending event n s (inr (h, k)) = elim (Bool-cases (is_some s.exit_code)) [
    | inl exited ↦ rw exited (inl exited)
    | inr alive ↦ rw alive (handle-Ending event n s h k)
  ]

  run-Ending :
      (events : List (Event C)) (s : TradingChild C X)
      → Ending (continuations events) s
      → is_some (run trading events s).exit_code ≡ true
  unfolding run
  run-Ending [] s (inl exited) = exited
  run-Ending [] s (inr (h, k)) = absurd (none_left s.stopping h k)
  run-Ending (event ∷ events) s h =
      run-Ending events (step trading event s) (step-Ending event (continuations events) s h)

  asked_to_stop :
      (close_position : Bool) (n : ℕ) (s : TradingChild C X)
      → 2 ≤ n
      → Ending n (if is_some s.exit_code then s else stop_worker close_position s)
  unfolding stop_worker
  asked_to_stop close_position n s h = elim (Bool-cases (is_some s.exit_code)) [
    | inl exited ↦ rw exited (inl exited)
    | inr alive ↦ rw alive (elim (Bool-cases (is_stopping s.stopping)) [
      | inl already ↦ rw already (inr (already, todo_le s.stopping n h))
      | inr fresh ↦ rw fresh (begins close_position)
    ])
  ]
    where
      begins : (b : Bool) → Ending n (record s { stopping = if b then closing else disposing })
      begins true = inr (refl, omega (arith, h))
      begins false = inr (refl, omega (arith, h))

  end_asked :
      (event : Event C) (n : ℕ) (s : TradingChild C X)
      → ends event ≡ true
      → 2 ≤ n
      → Ending n (step trading event s)
  unfolding step
  end_asked stop_message n s h k = asked_to_stop true n s k
  end_asked suspend_message n s h k = asked_to_stop false n s k
  end_asked sigterm n s h k = asked_to_stop false n s k
  end_asked sigint n s h k = asked_to_stop false n s k
  end_asked disconnect n s h k = asked_to_stop false n s k
  end_asked (start_message config) n s h k = absurd (ground arith)
  end_asked booted n s h k = absurd (ground arith)
  end_asked turn_started n s h k = absurd (ground arith)
  end_asked turn_ended n s h k = absurd (ground arith)
  end_asked stop_continued n s h k = absurd (ground arith)

  -- A child that is asked to end exits, in whatever state it was, once two of the calls that
  -- `stopWorker` awaits have ended, whatever else arrives in between and whether these calls
  -- succeed or fail.
  pub ending_exits :
      (event : Event C) (events : List (Event C)) (s : TradingChild C X)
      → ends event ≡ true
      → 2 ≤ continuations events
      → is_some (run trading (event ∷ events) s).exit_code ≡ true
  unfolding run
  ending_exits event events s h k =
      run-Ending events (step trading event s) (end_asked event (continuations events) s h k)
