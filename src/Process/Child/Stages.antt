-- ===== src/Process/Child/Stages.antt =====
-- What the events of a child leave of `isStopping`.
use tonatiuh_trading_saas.Prelude.{
  ℕ, Bool, true, false, not, Option, none, some, ◌≡◌, refl, inl, inr, arith, is_some, Bool-cases,
}
use tonatiuh_trading_saas.Prelude.Action.{Outcome-cases, ◌>>◌}
use tonatiuh_trading_saas.Process.Child.{
  TradingService, TradingChild, Event, stop_message, start_message, suspend_message, sigterm,
  sigint, disconnect, booted, turn_started, turn_ended, stop_continued, Stopping, closing, handle,
  worker, boot, boot_with, end_turn, turn_with,
}

-- the events other than the message of an explicit stop
abbrev pub asks_stop : {C : Type 0} → Event C → Bool
asks_stop stop_message = true
asks_stop _ = false

-- the events that end the child
abbrev pub ends : {C : Type 0} → Event C → Bool
ends stop_message = true
ends suspend_message = true
ends sigterm = true
ends sigint = true
ends disconnect = true
ends _ = false

-- the events that a child that is stopping still answers: none that ends it, and no new turn
abbrev pub still_counts : {C : Type 0} → Event C → Bool
still_counts turn_started = false
still_counts event = not (ends event)

abbrev pub is_closing : Stopping → Bool
is_closing closing = true
is_closing _ = false

-- the ends of what `stopWorker` awaits
abbrev pub weight : {C : Type 0} → Event C → ℕ
weight stop_continued = 1
weight _ = 0

module _ {C X : Type 0} (trading : TradingService C X) where
  boot_with_stage :
      (config : Option C) (s : TradingChild C X)
      → (boot_with trading config s).stopping ≡ s.stopping
  boot_with_stage none s = refl
  boot_with_stage (some config) s =
      elim (Outcome-cases
        ((trading.sync_runtime_config config >> trading.initialize config) s.outside)) [
          | inl (a, x, eq) ↦ rw (eq, boot_with) refl
          | inr (e, x, eq) ↦ rw (eq, boot_with) refl
        ]

  turn_with_stage :
      (b : Bool) (config : Option C) (s : TradingChild C X)
      → (turn_with trading b config s).stopping ≡ s.stopping
  turn_with_stage false config s = refl
  turn_with_stage true none s = refl
  turn_with_stage true (some config) s =
      elim (Outcome-cases (trading.start_algorithms config s.outside)) [
        | inl (a, x, eq) ↦ rw (eq, turn_with) refl
        | inr (e, x, eq) ↦ rw (eq, turn_with) refl
      ]

  pub stage_kept :
      (event : Event C) (s : TradingChild C X)
      → still_counts event ≡ true
      → weight event ≡ 0
      → (handle trading event s).stopping ≡ s.stopping
  unfolding worker boot end_turn
  stage_kept (start_message config) s h k = elim (Bool-cases (is_some s.config)) [
    | inl begun ↦ rw begun refl
    | inr fresh ↦ rw fresh refl
  ]
  stage_kept stop_message s h k = absurd (ground arith)
  stage_kept suspend_message s h k = absurd (ground arith)
  stage_kept sigterm s h k = absurd (ground arith)
  stage_kept sigint s h k = absurd (ground arith)
  stage_kept disconnect s h k = absurd (ground arith)
  stage_kept booted s h k = boot_with_stage s.booting s
  stage_kept turn_started s h k = absurd (ground arith)
  stage_kept turn_ended s h k = turn_with_stage s.in_turn s.trading_on s
  stage_kept stop_continued s h k = absurd (omega (arith, k))
