-- ===== src/Process/Tests.antt =====
-- A run of the process manager: a configuration is its own number, and its child has crashed with
-- code 1 and waits for its restart.
use tonatiuh_trading_saas.Prelude.{
  ℕ, suc, true, false, some, ◌≡◌, refl, ◌+◌, List, none, [], ◌∷◌, is_some, arith,
}
use tonatiuh_trading_saas.Prelude.Maps.{lookup, set, nat_key}
use tonatiuh_trading_saas.Prelude.Action.{ok, err}
use tonatiuh_trading_saas.Process.Child.{
  TradingService, TradingChild, Event, start_message, stop_message, booted, turn_started,
  turn_ended, stop_continued, sigterm, closing, new_process, run, step, worker, boot, start_turn,
  end_turn, stop_worker, continue_stop,
}
use tonatiuh_trading_saas.Process.Child.Ending.{ending_exits}
use tonatiuh_trading_saas.Process.Child.Laws.{closing_by, only_stop_closes}
use tonatiuh_trading_saas.Process.Manager.{
  Manager, WorkerRecord, start, stop, launched, launch, relaunch, fire, child_exited, handle_exit,
  exit_of,
}
use tonatiuh_trading_saas.Process.Manager.Laws.{IsValid}
use tonatiuh_trading_saas.Process.Manager.Steps.{
  Reachable, initial, next_step, started, exited, idle, Reachable-IsValid, start-start,
  stop_cancels_restart, start_during_restart,
}

abbrev id_of : ℕ → ℕ
id_of config = config

abbrev begun : Manager ℕ
begun = (start id_of 7 (some 4001) idle).1

abbrev crashed : Manager ℕ
crashed = child_exited id_of 0 (some 1) (launched 7 0 (some 4001)) begun

abbrev waiting : WorkerRecord ℕ
waiting = record (exit_of (some 1) (launched 7 0 (some 4001))) { restart_attempts = 1 }

crashed-Reachable : Reachable id_of crashed
unfolding start launch launched lookup set nat_key
crashed-Reachable =
    next_step (next_step initial (started 7 (some 4001) idle))
      (exited 0 (some 1) (launched 7 0 (some 4001)) begun refl refl)

Reachable-IsValid_example : IsValid id_of crashed
Reachable-IsValid_example = Reachable-IsValid id_of crashed crashed-Reachable

start-start_example :
    let ((_, status), m) = start id_of 7 (some 4001) idle in
    start id_of 7 (some 4002) m ≡ ((false, status), m)
start-start_example = start-start id_of 7 (some 4001) (some 4002) idle

stop_cancels_restart_example :
    let (answer, m) = stop 7 crashed in
    (answer ≡ true) × (fire id_of (relaunch 0 1 1000) (some 4002) m ≡ m)
unfolding start launch launched lookup set nat_key child_exited handle_exit
stop_cancels_restart_example =
    stop_cancels_restart id_of 7 0 1 1000 waiting (some 4002) crashed refl

start_during_restart_example :
    let m = fire id_of (relaunch 0 1 1000) (some 4003) (start id_of 7 (some 4002) crashed).1 in
    (lookup m.workers crashed.next ≡ some (launched 7 0 (some 4002)))
    × (lookup m.workers (suc crashed.next) ≡ some (launched 7 1 (some 4003)))
    × (lookup m.records 7 ≡ some (suc crashed.next))
unfolding start launch launched lookup set nat_key child_exited handle_exit
start_during_restart_example =
    start_during_restart id_of 7 0 1 1000 1 waiting (some 4002) (some 4003) crashed
      (Reachable-IsValid id_of crashed crashed-Reachable) refl refl refl

-- A trading service whose turns count and whose closing adds a hundred.
abbrev counting : TradingService ℕ ℕ
counting = record {
  sync_runtime_config = λ c x. (ok tt, x);
  initialize = λ c x. (ok tt, x);
  start_algorithms = λ c x. (ok tt, x + 1);
  end_algorithms = λ x. (ok tt, x + 100);
  dispose = λ x. (ok tt, x);
}

abbrev new_child : TradingChild ℕ ℕ
new_child = new_process none 0

-- the first turn ends while the child is stopping
abbrev day : List (Event ℕ)
day =
    start_message 7
    ∷ booted
    ∷ turn_started
    ∷ sigterm
    ∷ turn_ended
    ∷ turn_started
    ∷ stop_continued
    ∷ []

day_turns : (run counting day new_child).outside ≡ 1
unfolding run step worker boot start_turn end_turn stop_worker continue_stop
day_turns = refl

only_stop_closes_example :
    run (closing_by counting (λ x. (err "refused", x))) day new_child ≡ run counting day new_child
only_stop_closes_example =
    only_stop_closes counting (λ x. (err "refused", x)) day new_child refl
      (refl, (refl, (refl, (refl, (refl, (refl, (refl, tt)))))))

-- a stop, with a turn that ends in between
abbrev stops : List (Event ℕ)
stops = stop_continued ∷ turn_ended ∷ sigterm ∷ stop_continued ∷ []

ending_exits_example : is_some (run counting (stop_message ∷ stops) new_child).exit_code ≡ true
ending_exits_example = ending_exits counting stop_message stops new_child refl (omega arith)

abbrev closing_child : TradingChild ℕ ℕ
closing_child = record new_child { stopping = closing }
