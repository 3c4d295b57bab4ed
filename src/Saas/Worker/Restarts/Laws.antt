-- ===== src/Saas/Worker/Restarts/Laws.antt =====
-- How often a crashing bot is restarted.
use tonatiuh_trading_saas.Prelude.{
  ℕ, zero, suc, ◌+◌, ◌-◌, ◌≤◌, length, ltb, ◌or◌, arith, inl, inr, Bool-cases,
}
use tonatiuh_trading_saas.Prelude.Maps.{Key, lookup, lookup-set}
use tonatiuh_trading_saas.Saas.Worker.State.{Worker}
use tonatiuh_trading_saas.Saas.Worker.Restarts.{schedule_restart}

module _ {K I X : Type 0} ⦃keys : Key K⦄ where
  -- crashes in a row
  unfoldable pub schedule_times : ℕ → K → Worker K I X → Worker K I X
  schedule_times zero id w = w
  schedule_times (suc n) id w = schedule_times n id (schedule_restart id w)

  schedule_once :
      (id : K) (w : Worker K I X)
      → let w' = schedule_restart id w in
        length w'.restarts + (3 - (lookup w'.restart_attempts id or 0))
        ≤ length w.restarts + (3 - (lookup w.restart_attempts id or 0))
  unfolding schedule_restart
  schedule_once id w =
      let attempt = (lookup w.restart_attempts id or 0) + 1 in
      let counted = lookup-set w.restart_attempts id attempt in
      elim (Bool-cases (ltb 3 attempt)) [
        | inl over ↦ ground (arith, counted)
        | inr within ↦ ground (arith, counted)
      ]

  -- However often a bot crashes in a row, without its count being reset in between, at most three
  -- restarts are scheduled for it, less the attempts that were counted before.
  pub restarts_are_limited :
      (n : ℕ) (id : K) (w : Worker K I X)
      → length (schedule_times n id w).restarts
        ≤ length w.restarts + (3 - (lookup w.restart_attempts id or 0))
  unfolding schedule_times
  restarts_are_limited zero id w = omega arith
  restarts_are_limited (suc n) id w =
      omega (arith, restarts_are_limited n id (schedule_restart id w), schedule_once id w)
