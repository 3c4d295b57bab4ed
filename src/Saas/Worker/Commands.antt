-- ===== src/Saas/Worker/Commands.antt =====
-- src/saas/worker.ts: the commands from the table bot_commands.
pub mod Laws
use tonatiuh_trading_saas.Prelude.{
  ℕ, zero, suc, ◌+◌, ◌-◌, ◌*◌, ◌^◌, String, Bool, true, false, not, ◌&&◌, ◌||◌, Option, none, some,
  List, [], ◌∷◌, ◌++◌, map, filter, find?, if◌then◌else◌, ltb, leb, is_some, ◌or◌, ◌==◌ as nat_eq,
}
use tonatiuh_trading_saas.Prelude.Action.{
  Result, ok, err, Action, Done, pure, throw, modify, when, catch, ◌>>=◌, ◌>>◌,
}
use tonatiuh_trading_saas.Prelude.Maps.{Key, Map, lookup, set, delete}
use tonatiuh_trading_saas.Saas.Worker.Logs.{LogOutside, LogState, flush_runtime_logs}
use tonatiuh_trading_saas.Saas.Worker.State.{
  DesiredState, to_run, to_stop, Bot, bot_stopped, bot_starting, Command, start_command,
  stop_command, restart_command, emergency_stop_command, delete_command, CommandStatus, pending,
  processing, succeeded, command_failed, BotCommand, start_message, stop_message, suspend_message,
  Ending, exits, timed_out, Outside, Restart, Worker, update_bot, always, set_command, statement,
  at_outside, fail_bot, flush_logs,
}
use tonatiuh_trading_saas.Saas.Worker.Bots.{start_bot, stop_bot, delete_bot}

abbrev pub desired_after : Command → DesiredState
desired_after start_command = to_run
desired_after restart_command = to_run
desired_after stop_command = to_stop
desired_after emergency_stop_command = to_stop
desired_after delete_command = to_stop

abbrev pub is_pending : {K : Type 0} → BotCommand K → Bool
is_pending c = elim c.status [ pending ↦ true | _ ↦ false ]

module _ {K I X : Type 0} where
  abbrev pub mark_command : ℕ → CommandStatus → Option String → Worker K I X → Worker K I X
  mark_command id status message w = record w {
    commands = map (set_command id status message) w.commands;
  }

module _ {K I X : Type 0} ⦃keys : Key K⦄ where
  abbrev pub desire : K → DesiredState → Worker K I X → Worker K I X
  desire id state w = record w {
    bots = update_bot id always (λ bot. record bot { desired_state = state }) w.bots;
  }

module _ {K I X : Type 0} (out : Outside K I X) where
  unfoldable pub claim_command : Action (Worker K I X) String (Option (BotCommand K))
  claim_command w = elim (find? is_pending w.commands) [
    | none ↦ (statement out (λ v. v) >> pure none) w
    | some c ↦ (statement out (mark_command c.id processing none) >> pure (some c)) w
  ]

module _ {K I X : Type 0} ⦃keys : Key K⦄ (out : Outside K I X)
    (log_out : LogOutside K X String) where
  unfoldable pub run_command : Command → K → Action (Worker K I X) String Done
  run_command delete_command id = delete_bot out log_out id
  run_command stop_command id = stop_bot out log_out id false
  run_command emergency_stop_command id = stop_bot out log_out id true
  run_command restart_command id = stop_bot out log_out id false >> start_bot out id
  run_command start_command id = start_bot out id

  -- the `try` block
  unfoldable pub execute_command : BotCommand K → Action (Worker K I X) String Done
  execute_command c = do
    statement out (desire c.bot_id (desired_after c.command))
    run_command c.command c.bot_id
    statement out (mark_command c.id succeeded none)

  unfoldable pub handle_command : BotCommand K → Action (Worker K I X) String Done
  unfolding execute_command
  handle_command c = catch (execute_command c) (λ message. do
    statement out (mark_command c.id command_failed (some (out.slice 1000 message)))
    modify (fail_bot out c.bot_id message))
