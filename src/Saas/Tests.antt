-- ===== src/Saas/Tests.antt =====
-- A leader with one running bot, over a database and a child that answer: what is outside counts
-- the statements.
use tonatiuh_trading_saas.Prelude.{
  ℕ, ◌+◌, ◌-◌, ◌≤◌, String, true, false, some, none, List, [], ◌∷◌, length, ◌or◌, ◌≡◌, refl, arith,
}
use tonatiuh_trading_saas.Prelude.Action.{ok, After}
use tonatiuh_trading_saas.Prelude.Maps.{lookup, nat_key}
use tonatiuh_trading_saas.Saas.RateLimit.{Limiter}
use tonatiuh_trading_saas.Saas.RateLimit.Laws.{admitted, admitted_in_window}
use tonatiuh_trading_saas.Saas.Worker.Logs.{
  LogState, LogOutside, RuntimeLogMessage, info, queue_runtime_log, flush_runtime_logs,
}
use tonatiuh_trading_saas.Saas.Worker.Logs.Laws.{IsValid, IsBounded, queue-IsValid, flush-IsValid}
use tonatiuh_trading_saas.Saas.Worker.State.{
  to_run, bot_running, Outside, Worker, exits, stop_command, processing, BotCommand,
}
use tonatiuh_trading_saas.Saas.Worker.Bots.{stop_bot}
use tonatiuh_trading_saas.Saas.Worker.Bots.Laws.{IsStopped, EndsWell, stop_bot-Stops}
use tonatiuh_trading_saas.Saas.Worker.Restarts.Laws.{schedule_times, restarts_are_limited}

abbrev answering : Outside ℕ ℕ ℕ
answering = record {
  instance_id = 5;
  same_instance = λ i j. true;
  query = λ x. (ok tt, x + 1);
  prepare = λ id x. (ok tt, x);
  fork = λ id x. ((9, some 400), x);
  exit_code = λ child x. none;
  send = λ child message x. x;
  connected = λ child x. true;
  kill = λ child signal x. x;
  await_exit = λ child x. (exits (some 0), x);
  find_database = λ id x. (ok tt, x);
  stage_data = λ id x. (ok true, x);
  unstage_data = λ id x. x;
  remove_staged = λ id x. x;
  slice = λ n s. s;
}

abbrev log_outside : LogOutside ℕ ℕ String
log_outside = record {
  query = λ x. (ok tt, x + 1);
  now = λ x. 1000000 + x;
  redact = λ s. s;
  newest = λ n rows. rows;
}

abbrev stop_it : BotCommand ℕ
stop_it = record { id = 3; bot_id = 1; command = stop_command; status = processing; error = none }

abbrev leader : Worker ℕ ℕ ℕ
leader = record {
  bots =
      (
        1,
        record {
          desired_state = to_run;
          actual_state = bot_running;
          worker_instance_id = some 5;
          worker_pid = some 400;
          last_error = none;
        },
      )
      ∷ [];
  commands = stop_it ∷ [];
  processes = (1, 9) ∷ [];
  restart_attempts = [];
  reset_timers = [];
  restarts = [];
  stopping = false;
  logs = record { buffers = []; timers = []; cleanup_at = []; rows = []; outside = tt };
  outside = 0;
}

abbrev line : RuntimeLogMessage
line = record { level = info; message = "order placed"; occurred_at = 12 }

abbrev no_logs : LogState ℕ ℕ
no_logs = record { buffers = []; timers = []; cleanup_at = []; rows = []; outside = 0 }

no_logs-IsValid : IsValid no_logs
unfolding lookup
no_logs-IsValid = (λ b. omega arith, λ b some_left. absurd (omega arith))

queue-IsValid_example : IsValid (queue_runtime_log 1 line no_logs)
queue-IsValid_example = queue-IsValid 1 line no_logs no_logs-IsValid

flush-IsValid_example :
    After
      (λ _ t. IsValid t)
      (λ _ t. IsBounded t)
      (flush_runtime_logs log_outside 1 (queue_runtime_log 1 line no_logs))
flush-IsValid_example =
    flush-IsValid log_outside 1 (queue_runtime_log 1 line no_logs)
      (queue-IsValid 1 line no_logs no_logs-IsValid)

stop_bot-Stops_example :
    After
      (λ _ t. IsStopped 1 t × EndsWell answering (lookup leader.processes 1) true leader.outside)
      (λ _ t. lookup t.processes 1 ≡ none)
      (stop_bot answering log_outside 1 true leader)
stop_bot-Stops_example = stop_bot-Stops answering log_outside 1 true leader

restarts_are_limited_example :
    length (schedule_times 5 1 leader).restarts
    ≤ length leader.restarts + (3 - (lookup leader.restart_attempts 1 or 0))
restarts_are_limited_example = restarts_are_limited 5 1 leader

-- two requests a minute, from the addresses 1 and 2
abbrev idle_limiter : Limiter ℕ
idle_limiter = record { windows = []; next_cleanup = 0 }

abbrev requests : List (ℕ × ℕ)
requests = (1, 20) ∷ (2, 25) ∷ (1, 30) ∷ (1, 40) ∷ []

admitted_in_window_example : admitted 2 60000 1 ((1, 10) ∷ requests) idle_limiter ≤ 2
unfolding lookup
admitted_in_window_example =
    admitted_in_window 2 60000 1 10 requests idle_limiter refl
      (omega arith, (omega arith, (omega arith, (omega arith, tt))))
