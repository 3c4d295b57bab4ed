-- ===== src/Process/Child.antt =====
-- src/worker.ts: the child process that trades for one configuration. Messages of the parent,
-- signals, and the ends of the calls that it awaits come as events in any order, so that a turn of
-- the trading loop may end while the child is stopping. An awaited call takes effect when it ends.
-- `sigterm` and `sigint` are the first of their kind: the code handles each once.
pub mod Stages
pub mod Ending
pub mod Laws
use tonatiuh_trading_saas.Prelude.{
  ℕ, String, Bool, true, false, not, ◌&&◌, Option, none, some, List, [], ◌∷◌, if◌then◌else◌,
  is_some,
}
use tonatiuh_trading_saas.Prelude.Action.{Result, ok, err, Action, Done, ◌>>=◌, ◌>>◌}

-- What the child calls of the configuration's service and of the trading service.
pub record TradingService (C X : Type 0) : Type 0 where
  pub sync_runtime_config : C → Action X String Done
  pub initialize : C → Action X String Done
  pub start_algorithms : C → Action X String Done
  pub end_algorithms : Action X String Done
  pub dispose : Action X String Done

-- what the child sends to its parent
pub data Report : Type 0 where
  started : Report
  failed : (message : String) → Report

-- `booted`, `turn_ended` and `stop_continued` are the ends of what `worker` and `stopWorker` await.
pub data Event (C : Type 0) : Type 0 where
  start_message : (config : C) → Event C
  stop_message suspend_message : Event C
  sigterm sigint disconnect : Event C
  booted turn_started turn_ended stop_continued : Event C

-- `isStopping`, with what `stopWorker` awaits
pub data Stopping : Type 0 where
  not_stopping closing disposing : Stopping

abbrev pub is_stopping : Stopping → Bool
is_stopping not_stopping = false
is_stopping closing = true
is_stopping disposing = true

-- `booting` has the configuration that `worker` starts with, and `trading_on` that of the `while`
-- loop once it is entered.
pub record TradingChild (C X : Type 0) : Type 0 where
  pub config : Option C
  pub booting : Option C
  pub trading_on : Option C
  pub in_turn : Bool
  pub stopping : Stopping
  pub exit_code : Option ℕ
  pub sent : List Report
  pub outside : X

module _ {C X : Type 0} where
  -- the `catch` block of `worker`
  abbrev pub fail : String → X → TradingChild C X → TradingChild C X
  fail message x s = record s { sent = failed message ∷ s.sent; exit_code = some 1; outside = x }

  -- `worker` until its first `await`
  unfoldable pub worker : C → TradingChild C X → TradingChild C X
  worker config s = record s { config = some config; booting = some config }

  -- the process with its argument, if it has one
  abbrev pub new_process : Option C → X → TradingChild C X
  new_process argument x = record {
    config = argument;
    booting = argument;
    trading_on = none;
    in_turn = false;
    stopping = not_stopping;
    exit_code = none;
    sent = [];
    outside = x;
  }

  -- the test of `while (!isStopping)`, before a turn
  unfoldable pub start_turn : TradingChild C X → TradingChild C X
  start_turn s =
      if is_some s.trading_on && not s.in_turn && not (is_stopping s.stopping)
      then record s { in_turn = true }
      else s

  -- `stopWorker` until its first `await`
  unfoldable pub stop_worker : Bool → TradingChild C X → TradingChild C X
  stop_worker close_position s =
      if is_stopping s.stopping
      then s
      else record s { stopping = if close_position then closing else disposing }

module _ {C X : Type 0} (trading : TradingService C X) where
  abbrev pub boot_with : Option C → TradingChild C X → TradingChild C X
  boot_with none s = s
  boot_with (some config) s =
      let (answer, x) =
        (trading.sync_runtime_config config >> trading.initialize config) s.outside in
      elim answer [
        | ok _ ↦ record s {
          booting = none;
          trading_on = some config;
          sent = started ∷ s.sent;
          outside = x;
        }
        | err message ↦ fail message x s
      ]

  -- `worker` from its first `await` to the loop
  unfoldable pub boot : TradingChild C X → TradingChild C X
  boot s = boot_with s.booting s

  abbrev pub turn_with : Bool → Option C → TradingChild C X → TradingChild C X
  turn_with false config s = s
  turn_with true none s = s
  turn_with true (some config) s =
      let (answer, x) = trading.start_algorithms config s.outside in
      elim answer [
        | ok _ ↦ record s { in_turn = false; outside = x }
        | err message ↦ fail message x s
      ]

  -- the end of a turn of the loop
  unfoldable pub end_turn : TradingChild C X → TradingChild C X
  end_turn s = turn_with s.in_turn s.trading_on s

  abbrev pub continue_from : Stopping → TradingChild C X → TradingChild C X
  continue_from not_stopping s = s
  continue_from closing s =
      let (answer, x) = trading.end_algorithms s.outside in
      elim answer [
        | ok _ ↦ record s { stopping = disposing; outside = x }
        | err _ ↦ record s { exit_code = some 1; outside = x }
      ]
  continue_from disposing s =
      let (answer, x) = trading.dispose s.outside in
      elim answer [
        | ok _ ↦ record s { exit_code = some 0; outside = x }
        | err _ ↦ record s { exit_code = some 1; outside = x }
      ]

  -- the end of what `stopWorker` awaits
  unfoldable pub continue_stop : TradingChild C X → TradingChild C X
  continue_stop s = continue_from s.stopping s

  abbrev pub handle : Event C → TradingChild C X → TradingChild C X
  handle (start_message config) s = if is_some s.config then s else worker config s
  handle stop_message s = stop_worker true s
  handle suspend_message s = stop_worker false s
  handle sigterm s = stop_worker false s
  handle sigint s = stop_worker false s
  handle disconnect s = stop_worker false s
  handle booted s = boot s
  handle turn_started s = start_turn s
  handle turn_ended s = end_turn s
  handle stop_continued s = continue_stop s

  -- A process that has exited handles nothing.
  unfoldable pub step : Event C → TradingChild C X → TradingChild C X
  step event s = if is_some s.exit_code then s else handle event s

  unfoldable pub run : List (Event C) → TradingChild C X → TradingChild C X
  run [] s = s
  run (event ∷ events) s = run events (step event s)
