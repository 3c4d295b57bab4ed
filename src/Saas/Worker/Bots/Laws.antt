-- ===== src/Saas/Worker/Bots/Laws.antt =====
-- What stopping a bot guarantees.
use tonatiuh_trading_saas.Prelude.{
  ℕ, String, Bool, true, false, Option, none, some, if◌then◌else◌, is_some, ◌≡◌, refl, arith, ◌⊎◌,
  inl, inr, Option-cases, Bool-cases,
}
use tonatiuh_trading_saas.Prelude.Action.{
  ok, err, After, Outcome-cases, After-bind, After-mono, After-always, modify, throw, ◌>>◌,
}
use tonatiuh_trading_saas.Prelude.Maps.{Key, lookup, lookup-set, lookup-delete}
use tonatiuh_trading_saas.Saas.Worker.Logs.{LogOutside}
use tonatiuh_trading_saas.Saas.Worker.State.{
  Bot, bot_stopped, Outside, Worker, exits, timed_out, Ending, stop_message, suspend_message,
  statement, fail_bot, flush_logs,
}
use tonatiuh_trading_saas.Saas.Worker.Bots.{
  stop_bot, end_child, settle, forget, mark_stopped, after_wait, stopped_row, not_clean,
}

module _ {I : Type 0} where
  -- the row of a bot, if it is there, says that nothing of it runs
  unfoldable pub RowStopped : Option (Bot I) → Type 0
  RowStopped none = Unit
  RowStopped (some bot) =
      (bot.actual_state ≡ bot_stopped) × (bot.worker_instance_id ≡ none) × (bot.worker_pid ≡ none)

module _ {K I X : Type 0} ⦃keys : Key K⦄ where
  -- nothing of the bot runs, and its row says so
  unfoldable pub IsStopped : K → Worker K I X → Type 0
  IsStopped id w = (lookup w.processes id ≡ none) × RowStopped (lookup w.bots id)

  mark_stopped-RowStopped :
      (id : K) (w : Worker K I X) → RowStopped (lookup (mark_stopped id w).bots id)
  unfolding RowStopped
  mark_stopped-RowStopped id w = go (lookup w.bots id) refl
    where
      go :
          (o : Option (Bot I))
          → lookup w.bots id ≡ o
          → RowStopped (lookup (mark_stopped id w).bots id)
      go none e = let same : lookup (mark_stopped id w).bots id ≡ none = ground arith in rw same tt
      go (some bot) e =
          let row : Bot I = stopped_row bot in
          let same : lookup (mark_stopped id w).bots id ≡ some row =
            ground (arith, lookup-set w.bots id row) in
          rw same (refl, refl, refl)

module _ {K I X : Type 0} ⦃keys : Key K⦄ (out : Outside K I X) where
  -- A child that was in the map ends well: it had ended, or it answers the message by exiting
  -- with code 0.
  unfoldable pub EndsWell : Option ℕ → Bool → X → Type 0
  EndsWell none close_position x = Unit
  EndsWell (some child) close_position x =
      (is_some (out.exit_code child x) ≡ true)
      ⊎ ((out.await_exit child
            (out.send child (if close_position then stop_message else suspend_message) x)).0
          ≡ exits (some 0))

  after_wait_clean :
      (child : ℕ) (e : Ending × X) → (after_wait out child e).0 ≡ true → e.0 ≡ exits (some 0)
  after_wait_clean child (exits none, x) h = absurd (ground arith)
  after_wait_clean child (exits (some code), x) h = ground arith
  after_wait_clean child (timed_out, x) h = absurd (ground arith)

  end_child_clean :
      (child : ℕ) (close_position : Bool) (x : X)
      → (end_child out child close_position x).0 ≡ true
      → EndsWell (some child) close_position x
  unfolding end_child EndsWell
  end_child_clean child close_position x h = elim (Bool-cases (is_some (out.exit_code child x))) [
    | inl over ↦ inl over
    | inr up ↦
        let message = if close_position then stop_message else suspend_message in
        inr
          (after_wait_clean child (out.await_exit child (out.send child message x)) (ground arith))
  ]

module _ {K I X : Type 0} ⦃keys : Key K⦄ (out : Outside K I X) where
  fail_bot_keeps :
      (id : K) (m : String) (w : Worker K I X) → (fail_bot out id m w).processes ≡ w.processes
  unfolding fail_bot
  fail_bot_keeps id m w = elim (Outcome-cases (out.query w.outside)) [
    | inl (a, x, eq) ↦ ground arith
    | inr (e, x, eq) ↦ ground arith
  ]

  mark-Stops :
      (id : K) (w : Worker K I X)
      → lookup w.processes id ≡ none
      → After
          (λ _ t. IsStopped id t)
          (λ _ t. lookup t.processes id ≡ none)
          (statement out (mark_stopped id) w)
  unfolding IsStopped
  mark-Stops id w h = elim (Outcome-cases (out.query w.outside)) [
    | inl (a, x, eq) ↦
        let row = mark_stopped-RowStopped id (record w { outside = x }) in
        let done : statement out (mark_stopped id) w
            ≡ (ok tt, mark_stopped id (record w { outside = x })) =
          ground arith in
        rw done (h, row)
    | inr (e, x, eq) ↦
        let done : statement out (mark_stopped id) w ≡ (err e, record w { outside = x }) =
          ground arith in
        rw done h
  ]

module _ {K I X : Type 0} ⦃keys : Key K⦄ (out : Outside K I X)
    (log_out : LogOutside K X String) where
  flush-NotRunning :
      (id : K) (w : Worker K I X)
      → lookup w.processes id ≡ none
      → After
          (λ _ t. lookup t.processes id ≡ none)
          (λ _ t. lookup t.processes id ≡ none)
          (flush_logs log_out id w)
  unfolding flush_logs
  flush-NotRunning id w h =
      After-always (λ t. lookup t.processes id ≡ none) (flush_logs log_out id w) h

  settle-Stops :
      (id : K) (close_position clean : Bool) (w : Worker K I X)
      → lookup w.processes id ≡ none
      → After
          (λ _ t. (clean ≡ true) × IsStopped id t)
          (λ _ t. lookup t.processes id ≡ none)
          (settle out log_out id close_position clean w)
  settle-Stops id close_position true w h =
      After-bind (λ _ t. (true ≡ true) × IsStopped id t) (λ _ t. lookup t.processes id ≡ none)
        (λ _ t. lookup t.processes id ≡ none) (flush_logs log_out id)
        (λ _. statement out (mark_stopped id)) w (flush-NotRunning id w h)
        (λ _ t k.
          After-mono (statement out (mark_stopped id) t) (λ _ _ p. (refl, p)) (λ _ _ p. p)
            (mark-Stops out id t k))
  settle-Stops id close_position false w h =
      After-bind (λ _ t. (false ≡ true) × IsStopped id t) (λ _ t. lookup t.processes id ≡ none)
        (λ _ t. lookup t.processes id ≡ none) (flush_logs log_out id)
        (λ _.
          modify (fail_bot out id (not_clean close_position)) >> throw (not_clean close_position))
        w (flush-NotRunning id w h)
        (λ _ t k. rw (fail_bot_keeps out id (not_clean close_position) t) k)

  -- If stopping a bot returns, its child, if there was one, had ended or exited with code 0 on the
  -- message, and neither the map nor the row of the bot has a process any more. If it fails, the
  -- map has none all the same.
  pub stop_bot-Stops :
      (id : K) (close_position : Bool) (w : Worker K I X)
      → After
          (λ _ t. IsStopped id t × EndsWell out (lookup w.processes id) close_position w.outside)
          (λ _ t. lookup t.processes id ≡ none)
          (stop_bot out log_out id close_position w)
  unfolding stop_bot EndsWell
  stop_bot-Stops id close_position w = elim (Option-cases (lookup w.processes id)) [
    | inl missing ↦
        let gone = lookup-delete w.processes id in
        let whole : stop_bot out log_out id close_position w
            ≡ settle out log_out id close_position true (forget id w) =
          ground arith in
        rw (whole, missing)
          (After-mono (settle out log_out id close_position true (forget id w)) (λ _ _ p. (p.1, tt))
            (λ _ _ p. p) (settle-Stops id close_position true (forget id w) gone))
    | inr (child, there) ↦
        let gone = lookup-delete w.processes id in
        let ended = end_child out child close_position w.outside in
        let v : Worker K I X = record (forget id w) { outside = ended.1 } in
        let whole : stop_bot out log_out id close_position w
            ≡ settle out log_out id close_position ended.0 v =
          ground arith in
        rw (whole, there)
          (After-mono (settle out log_out id close_position ended.0 v)
            (λ _ _ p. (p.1, end_child_clean out child close_position w.outside p.0)) (λ _ _ p. p)
            (settle-Stops id close_position ended.0 v gone))
  ]
