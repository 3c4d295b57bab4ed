-- ===== src/Saas/Worker/Restarts.antt =====
-- src/saas/worker.ts: restarts after a crash.
pub mod Laws
use tonatiuh_trading_saas.Prelude.{
  ℕ, zero, suc, ◌+◌, ◌-◌, ◌*◌, ◌^◌, String, Bool, true, false, not, ◌&&◌, ◌||◌, Option, none, some,
  List, [], ◌∷◌, ◌++◌, map, filter, find?, if◌then◌else◌, ltb, leb, is_some, ◌or◌, ◌==◌ as nat_eq,
}
use tonatiuh_trading_saas.Prelude.Action.{
  Result, ok, err, Action, Done, pure, throw, modify, when, catch, ◌>>=◌, ◌>>◌,
}
use tonatiuh_trading_saas.Prelude.Maps.{Key, Map, lookup, set, delete}
use tonatiuh_trading_saas.Saas.Worker.Logs.{LogOutside, LogState, flush_runtime_logs}
use tonatiuh_trading_saas.Saas.Worker.State.{
  DesiredState, to_run, to_stop, Bot, bot_stopped, bot_starting, bot_running, owned, Command,
  start_command, stop_command, restart_command, emergency_stop_command, delete_command,
  CommandStatus, pending, processing, succeeded, command_failed, BotCommand, start_message,
  stop_message, suspend_message, Ending, exits, timed_out, Outside, Restart, Worker, update_bot,
  always, set_command, statement, at_outside, fail_bot, flush_logs,
}
use tonatiuh_trading_saas.Saas.Worker.Bots.{start_bot}

module _ {K I X : Type 0} ⦃keys : Key K⦄ where
  unfoldable pub schedule_restart : K → Worker K I X → Worker K I X
  schedule_restart id w =
      let attempt = (lookup w.restart_attempts id or 0) + 1 in
      let counted : Worker K I X = record w {
        restart_attempts = set w.restart_attempts id attempt;
      } in
      if ltb 3 attempt then counted else record counted {
        restarts = record { bot_id = id; delay = 1000 * 2 ^ (attempt - 1) } ∷ w.restarts;
      }

module _ {K I X : Type 0} ⦃keys : Key K⦄ (out : Outside K I X) where
  -- the callback of the timer of a restart: only a bot that is still desired is started
  unfoldable pub fire_restart : K → Worker K I X → Worker K I X
  fire_restart id w =
      let started = catch (start_bot out id) (λ e. modify (fail_bot out id e)) in
      let (answer, x) = out.query w.outside in
      let v : Worker K I X = record w { outside = x } in
      elim answer [
        | err _ ↦ v
        | ok _ ↦ elim (lookup w.bots id) [
          | none ↦ v
          | some bot ↦ elim bot.desired_state [
            | to_stop ↦ v
            | to_run ↦ if w.stopping then v else (started v).1
          ]
        ]
      ]

  -- the message `started`: after a minute without a crash the count is reset
  unfoldable pub child_started : K → ℕ → Worker K I X → Worker K I X
  child_started id child w =
      let timed : Worker K I X = record w { reset_timers = set w.reset_timers id child } in
      (statement out
        (λ v. record v {
          bots =
              update_bot id (owned out) (λ bot. record bot { actual_state = bot_running }) v.bots;
        })
        timed).1

  -- the callback of that timer
  unfoldable pub fire_reset : K → ℕ → Worker K I X → Worker K I X
  fire_reset id child w =
      let over : Worker K I X = record w { reset_timers = delete w.reset_timers id } in
      let reset : Worker K I X = record over { restart_attempts = delete w.restart_attempts id } in
      elim (lookup w.processes id) [
        | none ↦ over
        | some current ↦
            if nat_eq current child && not (is_some (out.exit_code child w.outside))
            then reset
            else over
      ]

  -- the `exit` handler of a child: one that was replaced or stopped is ignored
  unfoldable pub child_exited : K → ℕ → String → Worker K I X → Worker K I X
  child_exited id child message w =
      let gone : Worker K I X = record w {
        processes = delete w.processes id;
        reset_timers = delete w.reset_timers id;
      } in
      let restarted = schedule_restart id (fail_bot out id message gone) in
      elim (lookup w.processes id) [
        | none ↦ w
        | some current ↦
            if nat_eq current child then (if w.stopping then gone else restarted) else w
      ]
