-- ===== src/Saas/Worker/Commands/Laws.antt =====
-- How a command ends.
use tonatiuh_trading_saas.Prelude.{ℕ, String, false, some, ◌==◌ as nat_eq, ◌≡◌, ◌⊎◌}
use tonatiuh_trading_saas.Prelude.Action.{err, Done, Action, modify, ◌>>◌}
use tonatiuh_trading_saas.Prelude.Maps.{Key}
use tonatiuh_trading_saas.Saas.Worker.Logs.{LogOutside}
use tonatiuh_trading_saas.Saas.Worker.State.{
  CommandStatus, succeeded, command_failed, BotCommand, Outside, Worker, statement, fail_bot,
}
use tonatiuh_trading_saas.Saas.Worker.Commands.{execute_command, mark_command}

-- a status that nothing changes any more
abbrev pub IsFinal : CommandStatus → Type 0
IsFinal status = (status ≡ succeeded) ⊎ (status ≡ command_failed)

-- a row of another command, or one whose status is final
abbrev pub IsSettled : {K : Type 0} → ℕ → BotCommand K → Type 0
IsSettled id c = (nat_eq c.id id ≡ false) ⊎ IsFinal c.status

module _ {K I X : Type 0} ⦃keys : Key K⦄ (out : Outside K I X) where
  -- The database was asked for one statement from `s` on and refused it, which gave the error.
  abbrev pub Refused : Worker K I X → String → Worker K I X → Type 0
  Refused s e t = (y : X) × (out.query s.outside ≡ (err e, y)) × (t ≡ record s { outside = y })

module _ {K I X : Type 0} ⦃keys : Key K⦄ (out : Outside K I X)
    (log_out : LogOutside K X String) where
  -- the `try` block threw, and then the one statement that records it was refused
  abbrev pub Unrecorded : BotCommand K → Worker K I X → String → Worker K I X → Type 0
  Unrecorded c w e t =
      (message : String) × (s : Worker K I X) × (execute_command out log_out c w ≡ (err message, s))
      × Refused out s e t

  abbrev record_failure : BotCommand K → String → Action (Worker K I X) String Done
  record_failure c message =
      statement out (mark_command c.id command_failed (some (out.slice 1000 message)))
      >> modify (fail_bot out c.bot_id message)
