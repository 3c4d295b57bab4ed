-- ===== src/Saas/Worker/Leader.antt =====
-- src/saas/worker.ts: what the leader does when it begins, and one turn of its loop.
use tonatiuh_trading_saas.Prelude.{
  String, Bool, true, false, not, ◌&&◌, Option, none, some, List, [], ◌∷◌, map, is_some,
  if◌then◌else◌,
}
use tonatiuh_trading_saas.Prelude.Action.{ok, Action, Done, pure, modify, catch, ◌>>=◌, ◌>>◌}
use tonatiuh_trading_saas.Prelude.Maps.{Key, lookup}
use tonatiuh_trading_saas.Saas.Worker.Logs.{LogOutside}
use tonatiuh_trading_saas.Saas.Worker.State.{
  Bot, to_run, to_stop, BotCommand, Outside, Worker, statement, fail_bot,
}
use tonatiuh_trading_saas.Saas.Worker.Bots.{start_bot, stopped_row}
use tonatiuh_trading_saas.Saas.Worker.Commands.{claim_command, handle_command}

abbrev pub desired : {I : Type 0} → Bot I → Bool
desired bot = elim bot.desired_state [ to_run ↦ true | to_stop ↦ false ]

abbrev pub settle_row : {K I : Type 0} → K × Bot I → K × Bot I
settle_row (id, bot) = (id, if desired bot then bot else stopped_row bot)

module _ {K I X : Type 0} ⦃keys : Key K⦄ (out : Outside K I X) where
  -- `startBot(bot.id).catch(…)` for the rows that are to run and have no process
  unfoldable pub start_missing : List (K × Bot I) → Worker K I X → Worker K I X
  start_missing [] w = w
  start_missing ((id, bot) ∷ rows) w =
      let started = catch (start_bot out id) (λ e. modify (fail_bot out id e)) in
      start_missing rows
        (if desired bot && not (is_some (lookup w.processes id)) then (started w).1 else w)

  unfoldable pub reconcile : Action (Worker K I X) String Done
  unfolding start_missing
  reconcile = do
    statement out (λ w. record w { bots = map settle_row w.bots })
    statement out (λ w. w)
    modify (λ w. start_missing w.bots w)

module _ {K I X : Type 0} ⦃keys : Key K⦄ (out : Outside K I X)
    (log_out : LogOutside K X String) where
  abbrev handle_claimed : Option (BotCommand K) → Action (Worker K I X) String Done
  handle_claimed none = pure tt
  handle_claimed (some c) = handle_command out log_out c

  -- One turn; the heartbeat changes only times, which the state does not have.
  unfoldable pub leader_turn : Action (Worker K I X) String Done
  leader_turn = do
    command ← claim_command out
    handle_claimed command
    (λ w. elim w.processes [ [] ↦ (ok tt, w) | _ ∷ _ ↦ statement out (λ v. v) w ])
