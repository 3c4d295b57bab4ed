-- ===== src/Saas/Worker/Bots.antt =====
-- src/saas/worker.ts: starting, stopping and deleting the process of a bot.
pub mod Laws
use tonatiuh_trading_saas.Prelude.{
  ℕ, zero, suc, ◌+◌, ◌-◌, ◌*◌, ◌^◌, String, Bool, true, false, not, ◌&&◌, ◌||◌, Option, none, some,
  List, [], ◌∷◌, ◌++◌, map, filter, find?, if◌then◌else◌, ltb, leb, is_some, ◌or◌, ◌==◌ as nat_eq,
}
use tonatiuh_trading_saas.Prelude.Action.{
  Result, ok, err, Action, Done, pure, throw, modify, when, catch, ◌>>=◌, ◌>>◌,
}
use tonatiuh_trading_saas.Prelude.Maps.{Key, Map, lookup, set, delete}
use tonatiuh_trading_saas.Saas.Worker.Logs.{LogOutside, LogState, flush_runtime_logs}
use tonatiuh_trading_saas.Saas.Worker.State.{
  DesiredState, to_run, to_stop, Bot, bot_stopped, bot_starting, Command, start_command,
  stop_command, restart_command, emergency_stop_command, delete_command, CommandStatus, pending,
  processing, succeeded, command_failed, BotCommand, start_message, stop_message, suspend_message,
  sigterm, sigkill, Ending, exits, timed_out, Outside, Restart, Worker, update_bot, always,
  set_command, statement, at_outside, fail_bot, flush_logs,
}

-- the message of an ending within the timeout: only an exit with code 0 is clean
abbrev pub is_clean : Ending → Bool
is_clean (exits none) = false
is_clean (exits (some code)) = nat_eq code 0
is_clean timed_out = false

abbrev pub not_clean : Bool → String
not_clean true = "Trading process did not close its filled position cleanly during emergency stop."
not_clean false = "Trading process did not suspend cleanly."

-- what follows when the child has ended, cleanly or not
abbrev pub stopped_row : {I : Type 0} → Bot I → Bot I
stopped_row bot = record bot {
  actual_state = bot_stopped;
  worker_instance_id = none;
  worker_pid = none;
  last_error = none;
}

module _ {K I X : Type 0} ⦃keys : Key K⦄ where
  abbrev pub mark_stopped : K → Worker K I X → Worker K I X
  mark_stopped id w = record w { bots = update_bot id always stopped_row w.bots }

  abbrev pub forget : K → Worker K I X → Worker K I X
  forget id w = record w {
    processes = delete w.processes id;
    restart_attempts = delete w.restart_attempts id;
    reset_timers = delete w.reset_timers id;
  }

  abbrev pub remove_bot : K → Worker K I X → Worker K I X
  remove_bot id w = record w { bots = delete w.bots id }

module _ {K I X : Type 0} ⦃keys : Key K⦄ (out : Outside K I X) where
  -- `processes.get(botId)?.exitCode === null`
  unfoldable pub is_running : K → Worker K I X → Bool
  is_running id w = elim (lookup w.processes id) [
    | none ↦ false
    | some child ↦ not (is_some (out.exit_code child w.outside))
  ]

  abbrev pub mark_starting : K → Option ℕ → Worker K I X → Worker K I X
  mark_starting id pid w = record w {
    bots =
        update_bot id always
          (λ bot. record bot {
            actual_state = bot_starting;
            worker_instance_id = some out.instance_id;
            worker_pid = pid;
            last_error = none;
          })
          w.bots;
  }

  -- from `fork` on
  unfoldable pub launch_bot : K → Action (Worker K I X) String Done
  launch_bot id w =
      let ((child, pid), x) = out.fork id w.outside in
      statement out (mark_starting id pid) (record w {
        processes = set w.processes id child;
        outside = out.send child start_message x;
      })

  unfoldable pub start_bot : K → Action (Worker K I X) String Done
  unfolding is_running launch_bot
  start_bot id w =
      let begin = at_outside out (out.prepare id) >> launch_bot id in
      if is_running id w then (ok tt, w) else begin w

  -- waiting for the child; after the timeout it gets SIGTERM
  abbrev pub after_wait : ℕ → Ending × X → Bool × X
  after_wait child (exits code, x) = (is_clean (exits code), x)
  after_wait child (timed_out, x) =
      (false, if is_some (out.exit_code child x) then x else out.kill child sigterm x)

  unfoldable pub end_child : ℕ → Bool → X → Bool × X
  end_child child close_position x =
      let x' = out.send child (if close_position then stop_message else suspend_message) x in
      let ended = after_wait child (out.await_exit child x') in
      if is_some (out.exit_code child x) then (true, x) else ended

module _ {K I X : Type 0} ⦃keys : Key K⦄ (out : Outside K I X)
    (log_out : LogOutside K X String) where
  abbrev pub settle : K → Bool → Bool → Action (Worker K I X) String Done
  settle id close_position true = do flush_logs log_out id; statement out (mark_stopped id)
  settle id close_position false = do
    flush_logs log_out id
    modify (fail_bot out id (not_clean close_position))
    throw (not_clean close_position)

  unfoldable pub stop_bot : K → Bool → Action (Worker K I X) String Done
  unfolding end_child
  stop_bot id close_position w = elim (lookup w.processes id) [
    | none ↦ settle id close_position true (forget id w)
    | some child ↦
        let (clean, x) = end_child out child close_position w.outside in
        settle id close_position clean (record (forget id w) { outside = x })
  ]

  -- the transaction, with the directory renamed back if it fails
  unfoldable pub delete_rows : K → Bool → Action (Worker K I X) String Done
  delete_rows id staged w =
      let (answer, v) = statement out (remove_bot id) w in
      elim answer [
        | ok _ ↦
            (ok tt, if staged then record v { outside = out.remove_staged id v.outside } else v)
        | err e ↦
            (err e, if staged then record v { outside = out.unstage_data id v.outside } else v)
      ]

  -- The rows of the bot's orders and sessions are not in the state.
  unfoldable pub delete_bot : K → Action (Worker K I X) String Done
  unfolding delete_rows
  delete_bot id = do
    (λ w. let stop_it = stop_bot id false in if is_running out id w then stop_it w else (ok tt, w))
    flush_logs log_out id
    at_outside out (out.find_database id)
    staged ← at_outside out (out.stage_data id)
    delete_rows id staged

  -- `suspendBot`: the leader gives a bot back when it ends; a row that is to run waits for the
  -- next leader
  abbrev suspended_row : Bot I → Bot I
  suspended_row bot = record bot {
    actual_state = bot_starting;
    worker_instance_id = none;
    worker_pid = none;
    last_error = none;
  }

  abbrev desired : Bot I → Bool
  desired bot = elim bot.desired_state [ to_run ↦ true | to_stop ↦ false ]

  abbrev after_suspend : ℕ → Ending × X → X
  after_suspend child (exits code, x) = x
  after_suspend child (timed_out, x) =
      if is_some (out.exit_code child x) then x else out.kill child sigkill x

  abbrev suspend_child : Option ℕ → X → X
  suspend_child none x = x
  suspend_child (some child) x =
      let told = if out.connected child x then out.send child suspend_message x else x in
      let ended = after_suspend child (out.await_exit child told) in
      if is_some (out.exit_code child x) then x else ended

  unfoldable pub suspend_bot : K → Action (Worker K I X) String Done
  suspend_bot id = do
    modify (λ w. record w {
      processes = delete w.processes id;
      outside = suspend_child (lookup w.processes id) w.outside;
    })
    flush_logs log_out id
    statement out (λ w. record w { bots = update_bot id desired suspended_row w.bots })
