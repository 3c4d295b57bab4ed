-- ===== src/Saas/Worker/Logs/Laws.antt =====
-- What the log buffers keep.
use tonatiuh_trading_saas.Prelude.{
  ℕ, zero, suc, ◌≤◌, true, false, List, [], ◌∷◌, ◌++◌, map, length, if◌then◌else◌, leb, is_some,
  ◌or◌, ◌≡◌, refl, sym, subst, ◌⊎◌, inl, inr, arith, Bool-cases, Option-cases, length-append,
}
use tonatiuh_trading_saas.Prelude.Action.{
  Result, ok, err, Done, ◌>>◌, modify, After, Outcome-cases, After-bind,
}
use tonatiuh_trading_saas.Prelude.Maps.{
  Key, lookup, set, lookup-set, lookup-set_cases, lookup-delete_cases,
}
use tonatiuh_trading_saas.Saas.Worker.Logs.{
  LogState, LogRow, LogOutside, RuntimeLogMessage, queue_runtime_log, flush_runtime_logs,
  finish_flush, reschedule, flush_taken, clean_runtime_logs, schedule_runtime_log_flush, buffer_of,
  shift, drop, redacted, take, statement,
}

length-room :
    (buffer : List RuntimeLogMessage) (m : RuntimeLogMessage)
    → length buffer ≤ 1000
    → length ((if leb 1000 (length buffer) then shift buffer else buffer) ++ m ∷ []) ≤ 1000
length-room [] m h = omega arith
length-room (x ∷ xs) m h = elim (Bool-cases (leb 1000 (suc (length xs)))) [
  | inl full ↦ rw full (omega (arith, length-append xs (m ∷ [])))
  | inr space ↦ rw space (ground (arith, length-append xs (m ∷ [])))
]

length-drop : (n : ℕ) (xs : List RuntimeLogMessage) → length (drop n xs) ≤ length xs
length-drop zero xs = omega arith
length-drop (suc n) [] = omega arith
length-drop (suc n) (x ∷ xs) = omega (arith, length-drop n xs)

take_nothing :
    (xs : List RuntimeLogMessage)
    → leb 1 (length (take 100 xs)) ≡ false
    → (length xs ≡ 0) × (length (drop 100 xs) ≡ 0)
take_nothing [] h = (refl, refl)
take_nothing (x ∷ xs) h = absurd (ground arith)

module _ {K X : Type 0} ⦃keys : Key K⦄ where
  -- no buffer is longer than 1000
  abbrev pub IsBounded : LogState K X → Type 0
  IsBounded l = (b : K) → length (buffer_of l b) ≤ 1000

  -- a bot whose buffer is not empty has a flush scheduled
  abbrev pub IsScheduled : LogState K X → K → Type 0
  IsScheduled l b = 1 ≤ length (buffer_of l b) → is_some (lookup l.timers b) ≡ true

  abbrev pub IsValid : LogState K X → Type 0
  IsValid l = IsBounded l × ((b : K) → IsScheduled l b)

  schedule_here :
      (b : K) (l : LogState K X) → is_some (lookup (schedule_runtime_log_flush b l).timers b) ≡ true
  unfolding schedule_runtime_log_flush
  schedule_here b l = ground (arith, lookup-set l.timers b tt)

  schedule_keeps :
      (b c : K) (l : LogState K X)
      → is_some (lookup l.timers c) ≡ true
      → is_some (lookup (schedule_runtime_log_flush b l).timers c) ≡ true
  unfolding schedule_runtime_log_flush
  schedule_keeps b c l h = elim (lookup-set_cases l.timers b c tt) [
    | inl here ↦
        subst (λ d. is_some (lookup (schedule_runtime_log_flush b l).timers d) ≡ true) (sym here)
          (schedule_here b l)
    | inr there ↦ ground arith
  ]

  schedule_buffers :
      (b : K) (l : LogState K X) → (schedule_runtime_log_flush b l).buffers ≡ l.buffers
  unfolding schedule_runtime_log_flush
  schedule_buffers b l = ground arith

  -- scheduling one bot completes the invariant that the others have
  schedule-IsValid :
      (b : K) (l : LogState K X)
      → IsBounded l
      → ((c : K) → (c ≡ b) ⊎ IsScheduled l c)
      → IsValid (schedule_runtime_log_flush b l)
  schedule-IsValid b l h others = (
    rw (schedule_buffers b l) h,
    λ c some_left. elim (others c) [
      | inl here ↦
          subst (λ d. is_some (lookup (schedule_runtime_log_flush b l).timers d) ≡ true) (sym here)
            (schedule_here b l)
      | inr s ↦ schedule_keeps b c l (s (rw (← schedule_buffers b l) some_left))
    ],
  )

  -- replacing one buffer leaves what holds of the others
  set_others :
      (b c : K) (buffer : List RuntimeLogMessage) (l : LogState K X)
      → IsValid l
      → (c ≡ b) ⊎ IsScheduled (record l { buffers = set l.buffers b buffer }) c
  set_others b c buffer l v = elim (lookup-set_cases l.buffers b c buffer) [
    | inl here ↦ inl here
    | inr there ↦ let s = v.1 c in inr (λ h. s (ground arith))
  ]

  set_bounded :
      (b c : K) (buffer : List RuntimeLogMessage) (l : LogState K X)
      → IsBounded l
      → length buffer ≤ 1000
      → length (lookup (set l.buffers b buffer) c or []) ≤ 1000
  set_bounded b c buffer l h short = elim (lookup-set_cases l.buffers b c buffer) [
    | inl here ↦
        subst (λ d. length (lookup (set l.buffers b buffer) d or []) ≤ 1000) (sym here)
          (rw (lookup-set l.buffers b buffer) short)
    | inr there ↦ let old = h c in rw there old
  ]

  -- Queueing a log line keeps every buffer within 1000 lines and every bot with a waiting line
  -- scheduled for a flush.
  pub queue-IsValid :
      (b : K) (m : RuntimeLogMessage) (l : LogState K X)
      → IsValid l
      → IsValid (queue_runtime_log b m l)
  unfolding queue_runtime_log
  queue-IsValid b m l v =
      let old = buffer_of l b in
      let buffer = (if leb 1000 (length old) then shift old else old) ++ m ∷ [] in
      schedule-IsValid b (record l { buffers = set l.buffers b buffer })
        (λ c. set_bounded b c buffer l v.0 (length-room old m (v.0 b)))
        (λ c. set_others b c buffer l v)

  -- an empty buffer needs no flush
  empty-IsScheduled :
      (b : K) (l : LogState K X)
      → ((c : K) → (c ≡ b) ⊎ IsScheduled l c)
      → length (buffer_of l b) ≡ 0
      → (c : K) → IsScheduled l c
  empty-IsScheduled b l others empty c = elim (others c) [
    | inl here ↦ subst (λ d. IsScheduled l d) (sym here) (λ some_left. absurd (omega arith))
    | inr s ↦ s
  ]

  -- a buffer without a batch is empty, and stays so
  taken_empty :
      (b : K) (l : LogState K X)
      → leb 1 (length (take 100 (buffer_of l b))) ≡ false
      → length (buffer_of (flush_taken b l) b) ≡ 0
  unfolding flush_taken
  taken_empty b l h =
      let (empty, rest) = take_nothing (buffer_of l b) h in
      elim (Option-cases (lookup l.buffers b)) [
        | inl absent ↦ ground arith
        | inr (buffer, there) ↦ ground (arith, lookup-set l.buffers b (drop 100 (buffer_of l b)))
      ]

  reschedule-IsValid :
      (b : K) (l : LogState K X)
      → IsBounded l
      → ((c : K) → (c ≡ b) ⊎ IsScheduled l c)
      → IsValid (reschedule b l)
  unfolding reschedule
  reschedule-IsValid b l h others = elim (Bool-cases (leb 1 (length (buffer_of l b)))) [
    | inl left ↦ rw left (schedule-IsValid b l h others)
    | inr empty ↦ rw empty (h, empty-IsScheduled b l others (ground arith))
  ]

module _ {K X E : Type 0} ⦃keys : Key K⦄ where
  After-kept :
      (b : K) (l : LogState K X) (r : Result E Done × LogState K X)
      → (r.1.buffers ≡ l.buffers) × (r.1.timers ≡ l.timers)
      → IsBounded l
      → ((c : K) → (c ≡ b) ⊎ IsScheduled l c)
      → After (λ _ t. IsBounded t × ((c : K) → (c ≡ b) ⊎ IsScheduled t c)) (λ _ t. IsBounded t) r
  After-kept b l (ok _, t) (e, f) h others = rw (e, f) (h, others)
  After-kept b l (err _, t) (e, f) h others = rw e h

module _ {K X E : Type 0} ⦃keys : Key K⦄ (out : LogOutside K X E) where
  statement_keeps :
      (change : List (LogRow K) → List (LogRow K)) (l : LogState K X)
      → let l' = (statement out change l).1 in (l'.buffers ≡ l.buffers) × (l'.timers ≡ l.timers)
  statement_keeps change l = elim (Outcome-cases (out.query l.outside)) [
    | inl (a, x, eq) ↦ (ground arith, ground arith)
    | inr (e, x, eq) ↦ (ground arith, ground arith)
  ]

  -- cleaning touches neither the buffers nor the timers
  clean_keeps :
      (b : K) (l : LogState K X)
      → let l' = (clean_runtime_logs out b l).1 in (l'.buffers ≡ l.buffers) × (l'.timers ≡ l.timers)
  unfolding clean_runtime_logs
  clean_keeps b l = elim (Outcome-cases (out.query l.outside)) [
    | inl (a, x, eq) ↦ (ground arith, ground arith)
    | inr (e, x, eq) ↦ (ground arith, ground arith)
  ]

  finish-IsValid :
      (b : K) (l : LogState K X)
      → IsBounded l
      → ((c : K) → (c ≡ b) ⊎ IsScheduled l c)
      → After (λ _ t. IsValid t) (λ _ t. IsBounded t) (finish_flush out b l)
  unfolding finish_flush
  finish-IsValid b l h others =
      After-bind (λ _ t. IsValid t) (λ _ t. IsBounded t)
        (λ _ t. IsBounded t × ((c : K) → (c ≡ b) ⊎ IsScheduled t c)) (clean_runtime_logs out b)
        (λ _. modify (reschedule b)) l
        (After-kept b l (clean_runtime_logs out b l) (clean_keeps b l) h others)
        (λ _ t r. reschedule-IsValid b t r.0 r.1)

  -- the state when the batch is taken: the bot's flush is not scheduled any more
  taken-Others :
      (b c : K) (l : LogState K X) → IsValid l → (c ≡ b) ⊎ IsScheduled (flush_taken b l) c
  unfolding flush_taken
  taken-Others b c l v = elim (lookup-delete_cases l.timers b c) [
    | inl here ↦ inl here
    | inr timer ↦ elim (lookup-set_cases l.buffers b c (drop 100 (buffer_of l b))) [
      | inl here ↦ inl here
      | inr there ↦ let s = v.1 c in inr (ground arith)
    ]
  ]

  taken-IsBounded : (b : K) (l : LogState K X) → IsBounded l → IsBounded (flush_taken b l)
  unfolding flush_taken
  taken-IsBounded b l h c =
      let short : length (drop 100 (buffer_of l b)) ≤ 1000 =
        omega (arith, length-drop 100 (buffer_of l b), h b) in
      let now = set_bounded b c (drop 100 (buffer_of l b)) l h short in
      let old = h c in ground arith

  -- A flush keeps every buffer within 1000 lines, whatever the database answers. If it returns,
  -- every bot with a waiting line is scheduled for a flush.
  pub flush-IsValid :
      (b : K) (l : LogState K X)
      → IsValid l
      → After (λ _ t. IsValid t) (λ _ t. IsBounded t) (flush_runtime_logs out b l)
  unfolding flush_runtime_logs
  flush-IsValid b l v = elim (Bool-cases (leb 1 (length (take 100 (buffer_of l b))))) [
    | inl batch ↦
        rw batch (inserted (flush_taken b l) (taken-IsBounded b l v.0) (λ c. taken-Others b c l v))
    | inr nothing ↦ rw nothing (
      taken-IsBounded b l v.0,
      empty-IsScheduled b (flush_taken b l) (λ c. taken-Others b c l v) (taken_empty b l nothing),
    )
  ]
    where
      inserted :
          (t : LogState K X)
          → IsBounded t
          → ((c : K) → (c ≡ b) ⊎ IsScheduled t c)
          → After
              (λ _ t. IsValid t)
              (λ _ t. IsBounded t)
              ((statement out (λ rows. rows ++ map (redacted out b) (take 100 (buffer_of l b)))
                  >> finish_flush out b)
                t)
      inserted t h others =
          let change : List (LogRow K) → List (LogRow K) =
            λ rows. rows ++ map (redacted out b) (take 100 (buffer_of l b)) in
          After-bind (λ _ t. IsValid t) (λ _ t. IsBounded t)
            (λ _ t. IsBounded t × ((c : K) → (c ≡ b) ⊎ IsScheduled t c)) (statement out change)
            (λ _. finish_flush out b) t
            (After-kept b t (statement out change t) (statement_keeps change t) h others)
            (λ _ u r. finish-IsValid b u r.0 r.1)
