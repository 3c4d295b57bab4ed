-- ===== src/Saas/Worker/State.antt =====
-- The state of the leader of src/saas/worker.ts, with the tables that it writes.
use tonatiuh_trading_saas.Prelude.{
  ℕ, String, Bool, true, false, Option, none, some, List, if◌then◌else◌, ◌or_maybe◌, ◌==◌ as nat_eq,
}
use tonatiuh_trading_saas.Prelude.Action.{ok, err, Action, Done}
use tonatiuh_trading_saas.Prelude.Maps.{Key, Map, lookup, set}
use tonatiuh_trading_saas.Saas.Worker.Logs.{LogOutside, LogState, flush_runtime_logs}

pub data DesiredState : Type 0 where
  to_run to_stop : DesiredState

pub data ActualState : Type 0 where
  bot_stopped bot_starting bot_running bot_failed : ActualState

-- a row of trading_bots, without its times
pub record Bot (I : Type 0) : Type 0 where
  pub desired_state : DesiredState
  pub actual_state : ActualState
  pub worker_instance_id : Option I
  pub worker_pid : Option ℕ
  pub last_error : Option String

pub data Command : Type 0 where
  start_command stop_command restart_command emergency_stop_command delete_command : Command

pub data CommandStatus : Type 0 where
  pending processing succeeded command_failed : CommandStatus

-- a row of bot_commands, in the order of created_at
pub record BotCommand (K : Type 0) : Type 0 where
  pub id : ℕ
  pub bot_id : K
  pub command : Command
  pub status : CommandStatus
  pub error : Option String

pub data Message : Type 0 where
  start_message stop_message suspend_message : Message

pub data Signal : Type 0 where
  sigterm sigkill : Signal

-- how a child answers within the timeout of a stop: it exits, with a code or by a signal (none),
-- or it does not
pub data Ending : Type 0 where
  exits : (code : Option ℕ) → Ending
  timed_out : Ending

-- What is outside: the database's answer to a statement, the bot's settings (the row of the bot
-- with its exchange, decrypted, and its data directory), node's child processes by their handle,
-- and the data of a bot: registering its database if it
-- is there, renaming its directory (false if there is none), renaming it back, and removing it.
pub record Outside (K I X : Type 0) : Type 0 where
  pub instance_id : I
  pub same_instance : I → I → Bool
  pub query : Action X String Done
  pub prepare : K → Action X String Done
  pub fork : K → X → (ℕ × Option ℕ) × X
  pub exit_code : ℕ → X → Option ℕ
  pub send : ℕ → Message → X → X
  pub connected : ℕ → X → Bool
  pub kill : ℕ → Signal → X → X
  pub await_exit : ℕ → X → Ending × X
  pub find_database : K → Action X String Done
  pub stage_data : K → Action X String Bool
  pub unstage_data : K → X → X
  pub remove_staged : K → X → X
  pub slice : ℕ → String → String

-- a restart that waits for its timer
pub record Restart (K : Type 0) : Type 0 where
  pub bot_id : K
  pub delay : ℕ

-- `reset_timers` has the bots whose count of restarts will be reset.
pub record Worker (K I X : Type 0) : Type 0 where
  pub bots : Map K (Bot I)
  pub commands : List (BotCommand K)
  pub processes : Map K ℕ
  pub restart_attempts : Map K ℕ
  pub reset_timers : Map K ℕ
  pub restarts : List (Restart K)
  pub stopping : Bool
  pub logs : LogState K Done
  pub outside : X

-- `UPDATE trading_bots SET … WHERE id = $1 AND …`
abbrev pub update_bot :
    {K I : Type 0}
    → ⦃keys : Key K⦄ → K
    → (Bot I → Bool)
    → (Bot I → Bot I)
    → Map K (Bot I)
    → Map K (Bot I)
update_bot id where_ change bots = elim (lookup bots id) [
  | none ↦ bots
  | some bot ↦ if where_ bot then set bots id (change bot) else bots
]

abbrev pub always : {I : Type 0} → Bot I → Bool
always bot = true

-- a column that a statement does not name stays as it is
abbrev pub set_command :
    {K : Type 0} → ℕ → CommandStatus → Option String → BotCommand K → BotCommand K
set_command id status message c =
    if nat_eq c.id id then record c { status = status; error = message or_maybe c.error } else c

-- the state of the logs with and without what is outside
abbrev pub seen : {K X : Type 0} → X → LogState K Done → LogState K X
seen x l = record {
  buffers = l.buffers;
  timers = l.timers;
  cleanup_at = l.cleanup_at;
  rows = l.rows;
  outside = x;
}

abbrev pub hidden : {K X : Type 0} → LogState K X → LogState K Done
hidden l = record {
  buffers = l.buffers;
  timers = l.timers;
  cleanup_at = l.cleanup_at;
  rows = l.rows;
  outside = tt;
}

module _ {K I X : Type 0} (out : Outside K I X) where
  -- a statement on the tables: it is done if the database answers
  abbrev pub statement : (Worker K I X → Worker K I X) → Action (Worker K I X) String Done
  statement change w =
      let (answer, x) = out.query w.outside in
      elim answer [
        | ok _ ↦ (ok tt, change (record w { outside = x }))
        | err e ↦ (err e, record w { outside = x })
      ]

  abbrev pub at_outside : {A : Type 0} → Action X String A → Action (Worker K I X) String A
  at_outside action w = let (answer, x) = action w.outside in (answer, record w { outside = x })

  abbrev pub owned : Bot I → Bool
  owned bot = elim bot.worker_instance_id [
    | none ↦ false
    | some i ↦ out.same_instance i out.instance_id
  ]

module _ {K I X : Type 0} ⦃keys : Key K⦄ (out : Outside K I X) where
  -- an error of the database is only printed
  unfoldable pub fail_bot : K → String → Worker K I X → Worker K I X
  fail_bot id message w =
      (statement out
        (λ v. record v {
          bots =
              update_bot id (owned out)
                (λ bot. record bot {
                  actual_state = bot_failed;
                  worker_pid = none;
                  last_error = some (out.slice 1000 message);
                })
                v.bots;
        })
        w).1

module _ {K I X : Type 0} ⦃keys : Key K⦄ (log_out : LogOutside K X String) where
  -- `flushRuntimeLogs`, on the part of the state that it uses
  unfoldable pub flush_logs : K → Action (Worker K I X) String Done
  flush_logs id w =
      let (answer, l) = flush_runtime_logs log_out id (seen w.outside w.logs) in
      (answer, record w { logs = hidden l; outside = l.outside })
