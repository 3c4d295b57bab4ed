-- ===== src/Process/Manager.antt =====
-- src/process/TradingWorkerManager.ts: one child process for each configuration, restarted after
-- a crash. Every record that was launched stays in a store under its address, since timers and
-- event handlers keep theirs when the map has another one; the map holds addresses.
pub mod Laws
pub mod Steps
use tonatiuh_trading_saas.Prelude.{
  ℕ, suc, ◌+◌, ◌-◌, ◌*◌, ◌^◌, Bool, true, false, not, ◌&&◌, Option, none, some, List, [], ◌∷◌, ◌++◌,
  map, if◌then◌else◌, ltb, ◌==◌, is_some, reduce,
}
use tonatiuh_trading_saas.Prelude.Maps.{Map, lookup, set, delete, nat_key}

-- A child process: `exit_code` is `null` (none) while it runs and after a signal ended it.
pub record Child : Type 0 where
  pub pid : Option ℕ
  pub connected : Bool
  pub exited : Bool
  pub exit_code : Option ℕ

-- `attempt` is the parameter of the call of `launch` that made the record.
pub record WorkerRecord (C : Type 0) : Type 0 where
  pub child : Child
  pub config : C
  pub desired_running : Bool
  pub restart_attempts : ℕ
  pub attempt : ℕ

-- what `setTimeout` has to run: the relaunch of a record, or the signal of `stop`
pub data Timer : Type 0 where
  relaunch : (address next_attempt delay : ℕ) → Timer
  terminate : (address delay : ℕ) → Timer

-- what the manager sent to a child
pub data Sent : Type 0 where
  stop_message : (address : ℕ) → Sent
  sigterm : (address : ℕ) → Sent

pub record Manager (C : Type 0) : Type 0 where
  pub workers : Map ℕ (WorkerRecord C)
  pub next : ℕ
  pub records : Map ℕ ℕ
  pub timers : List Timer
  pub sent : List Sent

pub data RunState : Type 0 where
  running stopping restarting : RunState

pub record TradingWorkerStatus : Type 0 where
  pub config_id : ℕ
  pub pid : Option ℕ
  pub state : RunState
  pub restart_attempts : ℕ

abbrev pub max_restart_attempts : ℕ
max_restart_attempts = 3

abbrev pub stop_timeout_ms : ℕ
stop_timeout_ms = 5000

abbrev pub is_running : Child → Bool
is_running child = not (is_some child.exit_code)

-- `code !== 0`, where a signal leaves no code
abbrev pub failed : Option ℕ → Bool
failed none = true
failed (some code) = not (code == 0)

module _ {C : Type 0} where
  -- the record that the map has under a configuration
  abbrev pub record_of : Manager C → ℕ → Option (ℕ × WorkerRecord C)
  record_of m config_id = elim (lookup m.records config_id) [
    | none ↦ none
    | some a ↦ elim (lookup m.workers a) [ none ↦ none | some r ↦ some (a, r) ]
  ]

  abbrev pub update : ℕ → WorkerRecord C → Manager C → Manager C
  update a r m = record m { workers = set m.workers a r }

  -- the exit handler on its record, which `r` is with the child's exit in it
  unfoldable pub handle_exit : ℕ → WorkerRecord C → ℕ → Manager C → Manager C
  handle_exit a r config_id m =
      let again =
        r.desired_running && failed r.child.exit_code && ltb r.attempt max_restart_attempts in
      if again
      then record m {
        workers = set m.workers a (record r { restart_attempts = suc r.attempt });
        timers = relaunch a (suc r.attempt) (1000 * 2 ^ (suc r.attempt - 1)) ∷ m.timers;
      }
      else record m { records = delete m.records config_id }

  -- `pid` is what `fork` gave the child.
  unfoldable pub launched : C → ℕ → Option ℕ → WorkerRecord C
  launched config attempt pid = record {
    child = record { pid = pid; connected = true; exited = false; exit_code = none };
    config = config;
    desired_running = true;
    restart_attempts = attempt;
    attempt = attempt;
  }

  abbrev pub exit_of : Option ℕ → WorkerRecord C → WorkerRecord C
  exit_of code r = record r {
    child = record r.child { connected = false; exited = true; exit_code = code };
  }

  unfoldable pub stop : ℕ → Manager C → Bool × Manager C
  stop config_id m = elim (record_of m config_id) [
    | none ↦ (false, m)
    | some (a, r) ↦ (
      true,
      record m {
        workers = set m.workers a (record r { desired_running = false });
        timers = terminate a stop_timeout_ms ∷ m.timers;
        sent = if r.child.connected then stop_message a ∷ m.sent else m.sent;
      },
    )
  ]

  unfoldable pub stop_each : List (ℕ × ℕ) → Manager C → Manager C
  stop_each [] m = m
  stop_each ((config_id, _) ∷ entries) m = stop_each entries (stop config_id m).1

  unfoldable pub stop_all : Manager C → Manager C
  stop_all m = stop_each m.records m

module _ {C : Type 0} (id_of : C → ℕ) where
  unfoldable pub to_status : WorkerRecord C → TradingWorkerStatus
  to_status r = record {
    config_id = id_of r.config;
    pid = r.child.pid;
    state =
        if r.desired_running
        then (if ltb 0 r.restart_attempts then restarting else running)
        else stopping;
    restart_attempts = r.restart_attempts;
  }

  unfoldable pub launch : C → ℕ → Option ℕ → Manager C → Manager C
  unfolding launched
  launch config attempt pid m = record m {
    workers = set m.workers m.next (launched config attempt pid);
    next = suc m.next;
    records = set m.records (id_of config) m.next;
  }

  unfoldable pub start : C → Option ℕ → Manager C → (Bool × TradingWorkerStatus) × Manager C
  unfolding to_status launch
  start config pid m =
      let fresh : (Bool × TradingWorkerStatus) × Manager C =
        ((true, to_status (launched config 0 pid)), launch config 0 pid m) in
      elim (record_of m (id_of config)) [
        | none ↦ fresh
        | some (a, existing) ↦
            if is_running existing.child then ((false, to_status existing), m) else fresh
      ]

  abbrev statuses_of : List (ℕ × ℕ) → Manager C → List TradingWorkerStatus
  statuses_of [] m = []
  statuses_of ((_, a) ∷ entries) m =
      let rest = statuses_of entries m in
      elim (lookup m.workers a) [ none ↦ rest | some r ↦ to_status r ∷ rest ]

  unfoldable pub get_statuses : Manager C → List TradingWorkerStatus
  get_statuses m = statuses_of m.records m

  -- The child at an address exits; the handler does nothing for a child that was replaced.
  unfoldable pub child_exited : ℕ → Option ℕ → WorkerRecord C → Manager C → Manager C
  unfolding handle_exit
  child_exited a code r m =
      let gone = exit_of code r in
      let m' = update a gone m in
      elim (lookup m.records (id_of r.config)) [
        | none ↦ m'
        | some b ↦ if a == b then handle_exit a gone (id_of r.config) m' else m'
      ]

  -- the callback of a timer
  unfoldable pub fire : Timer → Option ℕ → Manager C → Manager C
  unfolding launch
  fire (relaunch a next_attempt delay) pid m = elim (lookup m.workers a) [
    | none ↦ m
    | some r ↦ if r.desired_running then launch r.config next_attempt pid m else m
  ]
  fire (terminate a delay) pid m = elim (lookup m.workers a) [
    | none ↦ m
    | some r ↦ if is_running r.child then record m { sent = sigterm a ∷ m.sent } else m
  ]
