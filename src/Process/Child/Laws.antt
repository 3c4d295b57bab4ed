-- ===== src/Process/Child/Laws.antt =====
-- When the child closes the position.
use tonatiuh_trading_saas.Prelude.{
  String, false, not, ◌&&◌, List, [], ◌∷◌, All, ◌≡◌, refl, ◌∙◌, ap, inl, inr, arith, is_some,
  Bool-cases,
}
use tonatiuh_trading_saas.Prelude.Action.{Action, Done, Outcome-cases}
use tonatiuh_trading_saas.Process.Child.{
  TradingService, TradingChild, Event, stop_message, start_message, suspend_message, sigterm,
  sigint, disconnect, booted, turn_started, turn_ended, stop_continued, Stopping, not_stopping,
  closing, disposing, is_stopping, step, run, handle, stop_worker, boot, start_turn, end_turn,
  continue_stop, continue_from,
}
use tonatiuh_trading_saas.Process.Child.Stages.{asks_stop, is_closing, stage_kept}

module _ {C X : Type 0} (trading : TradingService C X) (other : Action X String Done) where
  -- the same service with another way to close the position
  abbrev pub closing_by : TradingService C X
  closing_by = record trading { end_algorithms = other }

  continue_without_closing :
      (stage : Stopping) (s : TradingChild C X)
      → is_closing stage ≡ false
      → continue_from closing_by stage s ≡ continue_from trading stage s
  continue_without_closing not_stopping s h = refl
  continue_without_closing closing s h = absurd (ground arith)
  continue_without_closing disposing s h = refl

  step_without_stop :
      (event : Event C) (s : TradingChild C X)
      → asks_stop event ≡ false
      → is_closing s.stopping ≡ false
      → step closing_by event s ≡ step trading event s
  unfolding step boot end_turn continue_stop
  step_without_stop stop_message s h k = absurd (ground arith)
  step_without_stop stop_continued s h k = elim (Bool-cases (is_some s.exit_code)) [
    | inl exited ↦ rw exited refl
    | inr alive ↦ rw alive (continue_without_closing s.stopping s k)
  ]
  step_without_stop (start_message config) s h k = refl
  step_without_stop suspend_message s h k = refl
  step_without_stop sigterm s h k = refl
  step_without_stop sigint s h k = refl
  step_without_stop disconnect s h k = refl
  step_without_stop booted s h k = refl
  step_without_stop turn_started s h k = refl
  step_without_stop turn_ended s h k = refl

  suspend_closes_not :
      (s : TradingChild C X)
      → is_closing s.stopping ≡ false
      → is_closing (stop_worker false s).stopping ≡ false
  unfolding stop_worker
  suspend_closes_not s k = elim (Bool-cases (is_stopping s.stopping)) [
    | inl already ↦ rw already k
    | inr fresh ↦ rw fresh refl
  ]

  continue_closes_not :
      (stage : Stopping) (s : TradingChild C X)
      → is_closing stage ≡ false
      → is_closing s.stopping ≡ false
      → is_closing (continue_from trading stage s).stopping ≡ false
  continue_closes_not not_stopping s h k = k
  continue_closes_not closing s h k = absurd (ground arith)
  continue_closes_not disposing s h k = elim (Outcome-cases (trading.dispose s.outside)) [
    | inl (a, x, eq) ↦ rw (eq, continue_from) k
    | inr (e, x, eq) ↦ rw (eq, continue_from) k
  ]

  start_turn_stage : (s : TradingChild C X) → (start_turn s).stopping ≡ s.stopping
  unfolding start_turn
  start_turn_stage s =
      elim (Bool-cases (is_some s.trading_on && not s.in_turn && not (is_stopping s.stopping))) [
        | inl begins ↦ rw begins refl
        | inr stays ↦ rw stays refl
      ]

  handle_closes_not :
      (event : Event C) (s : TradingChild C X)
      → asks_stop event ≡ false
      → is_closing s.stopping ≡ false
      → is_closing (handle trading event s).stopping ≡ false
  unfolding continue_stop
  handle_closes_not stop_message s h k = absurd (ground arith)
  handle_closes_not stop_continued s h k = continue_closes_not s.stopping s k k
  handle_closes_not (start_message config) s h k =
      ap is_closing (stage_kept trading (start_message config) s refl refl) ∙ k
  handle_closes_not suspend_message s h k = suspend_closes_not s k
  handle_closes_not sigterm s h k = suspend_closes_not s k
  handle_closes_not sigint s h k = suspend_closes_not s k
  handle_closes_not disconnect s h k = suspend_closes_not s k
  handle_closes_not booted s h k = ap is_closing (stage_kept trading booted s refl refl) ∙ k
  handle_closes_not turn_started s h k = ap is_closing (start_turn_stage s) ∙ k
  handle_closes_not turn_ended s h k = ap is_closing (stage_kept trading turn_ended s refl refl) ∙ k

  step_closes_not :
      (event : Event C) (s : TradingChild C X)
      → asks_stop event ≡ false
      → is_closing s.stopping ≡ false
      → is_closing (step trading event s).stopping ≡ false
  unfolding step
  step_closes_not event s h k = elim (Bool-cases (is_some s.exit_code)) [
    | inl exited ↦ rw exited k
    | inr alive ↦ rw alive (handle_closes_not event s h k)
  ]

  -- Only the message `stop` closes the position: from any state in which no closing was begun, a
  -- run without that message does not depend on what `endAlgorithms` does, whatever messages,
  -- signals, turns and ends of calls it has.
  pub only_stop_closes :
      (events : List (Event C)) (s : TradingChild C X)
      → is_closing s.stopping ≡ false
      → All (λ e. asks_stop e ≡ false) events
      → run closing_by events s ≡ run trading events s
  unfolding run
  only_stop_closes [] s k h = refl
  only_stop_closes (event ∷ events) s k h =
      ap (run closing_by events) (step_without_stop event s h.0 k)
      ∙ only_stop_closes events (step trading event s) (step_closes_not event s h.0 k) h.1
