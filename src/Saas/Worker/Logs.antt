-- ===== src/Saas/Worker/Logs.antt =====
-- The runtime logs of src/saas/worker.ts: a bounded buffer for each bot, flushed in batches.
pub mod Laws
use tonatiuh_trading_saas.Prelude.{
  ℕ, zero, suc, ◌+◌, ◌-◌, ◌*◌, String, Bool, true, false, not, ◌&&◌, ◌||◌, Option, none, some, List,
  [], ◌∷◌, ◌++◌, map, length, filter, if◌then◌else◌, ltb, leb, is_some, ◌or◌,
}
use tonatiuh_trading_saas.Prelude.Action.{Result, ok, err, Action, Done, modify, pure, ◌>>=◌, ◌>>◌}
use tonatiuh_trading_saas.Prelude.Maps.{Key, Map, lookup, set, delete}

pub data Level : Type 0 where
  info warn error : Level

-- `occurred_at` is the instant of the ISO text, in milliseconds.
pub record RuntimeLogMessage : Type 0 where
  pub level : Level
  pub message : String
  pub occurred_at : ℕ

-- a row of bot_runtime_logs
pub record LogRow (K : Type 0) : Type 0 where
  pub bot_id : K
  pub entry : RuntimeLogMessage

-- What is outside: the database's answer to a statement, the clock, the regular expression that
-- hides secrets with the cut after it, and the rows that `ORDER BY … OFFSET n` leaves.
pub record LogOutside (K X E : Type 0) : Type 0 where
  pub query : Action X E Done
  pub now : X → ℕ
  pub redact : String → String
  pub newest : ℕ → List (LogRow K) → List (LogRow K)

-- `timers` has the bots whose flush is scheduled; `rows` is the table.
pub record LogState (K X : Type 0) : Type 0 where
  pub buffers : Map K (List RuntimeLogMessage)
  pub timers : Map K Done
  pub cleanup_at : Map K ℕ
  pub rows : List (LogRow K)
  pub outside : X

-- `a.shift()`
abbrev pub shift {ℓ} : {A : Type ℓ} → List A → List A
shift [] = []
shift (x ∷ xs) = xs

-- `a.slice(0, n)` and what `splice(0, n)` leaves
abbrev pub take {ℓ} : {A : Type ℓ} → ℕ → List A → List A
take zero xs = []
take (suc n) [] = []
take (suc n) (x ∷ xs) = x ∷ take n xs

abbrev pub drop {ℓ} : {A : Type ℓ} → ℕ → List A → List A
drop zero xs = xs
drop (suc n) [] = []
drop (suc n) (x ∷ xs) = drop n xs

abbrev pub week_ms : ℕ
week_ms = 604800000

module _ {K X : Type 0} ⦃keys : Key K⦄ where
  unfoldable pub schedule_runtime_log_flush : K → LogState K X → LogState K X
  schedule_runtime_log_flush bot_id l =
      if is_some (lookup l.timers bot_id) then l else record l { timers = set l.timers bot_id tt }

  abbrev pub buffer_of : LogState K X → K → List RuntimeLogMessage
  buffer_of l bot_id = lookup l.buffers bot_id or []

  unfoldable pub queue_runtime_log : K → RuntimeLogMessage → LogState K X → LogState K X
  unfolding schedule_runtime_log_flush
  queue_runtime_log bot_id message l =
      let buffer = buffer_of l bot_id in
      let room = if leb 1000 (length buffer) then shift buffer else buffer in
      schedule_runtime_log_flush bot_id
        (record l { buffers = set l.buffers bot_id (room ++ message ∷ []) })

  -- `if (runtimeLogBuffers.get(botId)?.length) scheduleRuntimeLogFlush(botId)`
  unfoldable pub reschedule : K → LogState K X → LogState K X
  reschedule bot_id l =
      let next = schedule_runtime_log_flush bot_id l in
      if leb 1 (length (buffer_of l bot_id)) then next else l

  -- the timer is cleared and `splice(0, 100)` has shortened the buffer
  unfoldable pub flush_taken : K → LogState K X → LogState K X
  flush_taken bot_id l = record l {
    timers = delete l.timers bot_id;
    buffers =
        if is_some (lookup l.buffers bot_id)
        then set l.buffers bot_id (drop 100 (buffer_of l bot_id))
        else l.buffers;
  }

module _ {K X E : Type 0} ⦃keys : Key K⦄ (out : LogOutside K X E) where
  -- a statement on the table of logs: it is done if the database answers
  abbrev pub statement : (List (LogRow K) → List (LogRow K)) → Action (LogState K X) E Done
  statement change l =
      let (answer, x) = out.query l.outside in
      elim answer [
        | ok _ ↦ (ok tt, record l { rows = change l.rows; outside = x })
        | err e ↦ (err e, record l { outside = x })
      ]

  abbrev pub redacted : K → RuntimeLogMessage → LogRow K
  redacted bot_id m = record {
    bot_id = bot_id;
    entry = record m { message = out.redact m.message };
  }

  -- the DELETE: rows of the bot that are older than a week or beyond its newest 2000
  abbrev pub retained : K → ℕ → List (LogRow K) → List (LogRow K)
  retained bot_id now rows =
      let others = filter (λ r. not (keys.same r.bot_id bot_id)) rows in
      let own = filter (λ r. keys.same r.bot_id bot_id) rows in
      others ++ filter (λ r. not (ltb (r.entry.occurred_at + week_ms) now)) (out.newest 2000 own)

  unfoldable pub clean_runtime_logs : K → Action (LogState K X) E Done
  clean_runtime_logs bot_id l =
      let now = out.now l.outside in
      let due = ltb ((lookup l.cleanup_at bot_id or 0) + 60000) now in
      let l' : LogState K X = record l { cleanup_at = set l.cleanup_at bot_id now } in
      if due then statement (retained bot_id now) l' else (ok tt, l)

  -- after the insertion
  unfoldable pub finish_flush : K → Action (LogState K X) E Done
  unfolding clean_runtime_logs
  finish_flush bot_id = do clean_runtime_logs bot_id; modify (reschedule bot_id)

  unfoldable pub flush_runtime_logs : K → Action (LogState K X) E Done
  unfolding finish_flush
  flush_runtime_logs bot_id l =
      let entries = take 100 (buffer_of l bot_id) in
      let insert =
        statement (λ rows. rows ++ map (redacted bot_id) entries) >> finish_flush bot_id in
      if leb 1 (length entries)
      then insert (flush_taken bot_id l)
      else (ok tt, flush_taken bot_id l)
