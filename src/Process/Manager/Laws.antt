-- ===== src/Process/Manager/Laws.antt =====
-- What holds of the process manager in every state that it reaches.
use tonatiuh_trading_saas.Prelude.{
  if◌then◌else◌, ℕ, zero, suc, ◌≤◌, ◌<◌, false, Option, some, List, [], ◌∷◌, All, ◌*◌, ◌^◌, ◌-◌,
  ◌==◌, ◌≡◌, refl, sym, ◌∙◌, arith, Bool-cases, Option-cases, ltb, ◌&&◌, inl, inr,
}
use tonatiuh_trading_saas.Prelude.Maps.{
  lookup, set, nat_key, lookup-set, lookup-set_cases, All-set, All-lookup, lookup-delete-some,
}
use tonatiuh_trading_saas.Process.Manager.{
  Sent, stop_message, sigterm, WorkerRecord, Manager, Timer, relaunch, terminate, record_of,
  handle_exit, launch, launched, start, stop, stop_each, child_exited, fire, exit_of, update,
  is_running, failed,
}

-- the delays are 1, 2 and 4 seconds
abbrev pub TimerWithinLimit : Timer → Type 0
TimerWithinLimit (relaunch a n delay) = (n ≤ 3) × (delay ≤ 4000)
TimerWithinLimit (terminate a delay) = delay ≡ 5000

delay_within : (attempt : ℕ) → attempt < 3 → 1000 * 2 ^ (suc attempt - 1) ≤ 4000
delay_within zero h = omega arith
delay_within (suc zero) h = omega arith
delay_within (suc (suc zero)) h = omega arith
delay_within (suc (suc (suc n))) h = absurd (omega arith)

module _ {C : Type 0} where
  -- a record as the code keeps it
  abbrev pub WithinLimit : WorkerRecord C → Type 0
  WithinLimit r = (r.restart_attempts ≤ 3) × (r.attempt ≤ 3)

  pub record_of-some :
      (m : Manager C) (k a : ℕ) (r : WorkerRecord C)
      → record_of m k ≡ some (a, r)
      → (lookup m.records k ≡ some a) × (lookup m.workers a ≡ some r)
  record_of-some m k a r h = ground arith

module _ {C : Type 0} (id_of : C → ℕ) where
  -- What a manager keeps: attempts within the limit, pending restarts too, and each entry of the
  -- map the address of a record of its configuration.
  pub record IsValid (m : Manager C) : Type 0 where
    pub within : All (λ e. WithinLimit e.1) m.workers
    pub timers_within : All TimerWithinLimit m.timers
    pub owns :
        (k a : ℕ)
        → lookup m.records k ≡ some a
        → (r : WorkerRecord C) × (lookup m.workers a ≡ some r) × (id_of r.config ≡ k)
    pub fresh : (a : ℕ) (r : WorkerRecord C) → lookup m.workers a ≡ some r → a < m.next

  -- a new address leaves the records that are there
  pub kept_by_fresh :
      (config : C) (attempt : ℕ) (pid : Option ℕ) (m : Manager C) (a : ℕ) (r : WorkerRecord C)
      → IsValid m
      → lookup m.workers a ≡ some r
      → lookup (set m.workers m.next (launched config attempt pid)) a ≡ some r
  kept_by_fresh config attempt pid m a r v found =
      elim (lookup-set_cases m.workers m.next a (launched config attempt pid)) [
        | inl here ↦ let older = v.fresh a r found in absurd (omega arith)
        | inr there ↦ there ∙ found
      ]

  pub launch-IsValid :
      (config : C) (attempt : ℕ) (pid : Option ℕ) (m : Manager C)
      → attempt ≤ 3
      → IsValid m
      → IsValid (launch id_of config attempt pid m)
  unfolding launch launched
  launch-IsValid config attempt pid m h v = record {
    within = All-set _ m.workers m.next _ v.within (h, h);
    timers_within = v.timers_within;
    owns = λ k a e. elim (lookup-set_cases m.records (id_of config) k m.next) [
      | inl here ↦ (
        launched config attempt pid,
        ground (
          arith,
          lookup-set m.records (id_of config) m.next,
          lookup-set m.workers m.next (launched config attempt pid),
        ),
        sym here,
      )
      | inr there ↦
          let (r, found, same) = v.owns k a (sym there ∙ e) in
          (r, kept_by_fresh config attempt pid m a r v found, same)
    ];
    fresh = λ a r e. elim (lookup-set_cases m.workers m.next a (launched config attempt pid)) [
      | inl here ↦ omega arith
      | inr there ↦ let older = v.fresh a r (sym there ∙ e) in omega arith
    ];
  }

  -- replacing a record in the store by one of the same configuration
  update-IsValid :
      (a : ℕ) (r r' : WorkerRecord C) (m : Manager C)
      → lookup m.workers a ≡ some r
      → r'.config ≡ r.config
      → WithinLimit r'
      → IsValid m
      → IsValid (update a r' m)
  update-IsValid a r r' m found same h v = record {
    within = All-set _ m.workers a r' v.within h;
    timers_within = v.timers_within;
    owns = λ k b e.
        let (q, found_q, same_q) = v.owns k b e in
        elim (lookup-set_cases m.workers a b r') [
          | inl here ↦ (r', ground (arith, lookup-set m.workers a r'), cc)
          | inr there ↦ (q, there ∙ found_q, same_q)
        ];
    fresh = λ b q e. elim (lookup-set_cases m.workers a b r') [
      | inl here ↦ let older = v.fresh a r found in ground arith
      | inr there ↦ v.fresh b q (sym there ∙ e)
    ];
  }

  timer-IsValid :
      (t : Timer) (m : Manager C)
      → TimerWithinLimit t
      → IsValid m
      → IsValid (record m { timers = t ∷ m.timers })
  timer-IsValid t m h v = record {
    within = v.within;
    timers_within = (h, v.timers_within);
    owns = v.owns;
    fresh = v.fresh;
  }

  sent-IsValid : (sent : List Sent) (m : Manager C) → IsValid m → IsValid (record m { sent = sent })
  sent-IsValid sent m v = record {
    within = v.within;
    timers_within = v.timers_within;
    owns = v.owns;
    fresh = v.fresh;
  }

  handle_exit-IsValid :
      (a : ℕ) (r : WorkerRecord C) (k : ℕ) (m : Manager C)
      → lookup m.workers a ≡ some r
      → IsValid m
      → IsValid (handle_exit a r k m)
  unfolding handle_exit
  handle_exit-IsValid a r k m found v =
      elim (Bool-cases (r.desired_running && failed r.child.exit_code && ltb r.attempt 3)) [
        | inl again ↦
            let r' : WorkerRecord C = record r { restart_attempts = suc r.attempt } in
            let low : r.attempt < 3 = ground arith in
            rw again (
              timer-IsValid (relaunch a (suc r.attempt) _) (update a r' m)
                (omega arith, delay_within r.attempt low)
                (update-IsValid a r r' m found refl (omega arith, omega arith) v))
        | inr final ↦ rw final (record {
          within = v.within;
          timers_within = v.timers_within;
          owns = λ j b e. v.owns j b (lookup-delete-some m.records k j b e);
          fresh = v.fresh;
        })
      ]

  pub stop-IsValid : (k : ℕ) (m : Manager C) → IsValid m → IsValid (stop k m).1
  unfolding stop
  stop-IsValid k m v = elim (Option-cases (record_of m k)) [
    | inl missing ↦ ground arith
    | inr ((a, r), found) ↦
        let r' : WorkerRecord C = record r { desired_running = false } in
        let (_, here) = record_of-some m k a r found in
        let done = sent-IsValid (if r.child.connected then stop_message a ∷ m.sent else m.sent) _ (
          timer-IsValid (terminate a 5000) (update a r' m) refl
            (update-IsValid a r r' m here refl (All-lookup _ m.workers a r v.within here) v)) in
        ground arith
  ]

  pub stop_each-IsValid :
      (entries : List (ℕ × ℕ)) (m : Manager C) → IsValid m → IsValid (stop_each entries m)
  unfolding stop_each
  stop_each-IsValid [] m v = v
  stop_each-IsValid ((k, a) ∷ entries) m v =
      stop_each-IsValid entries (stop k m).1 (stop-IsValid k m v)

  pub start-IsValid :
      (config : C) (pid : Option ℕ) (m : Manager C)
      → IsValid m
      → IsValid (start id_of config pid m).1
  unfolding start
  start-IsValid config pid m v =
      let fresh = launch-IsValid config 0 pid m (omega arith) v in
      elim (Option-cases (record_of m (id_of config))) [
        | inl missing ↦ ground arith
        | inr ((a, r), found) ↦ elim (Bool-cases (is_running r.child)) [
          | inl up ↦ ground arith
          | inr down ↦ ground arith
        ]
      ]

  pub child_exited-IsValid :
      (a : ℕ) (code : Option ℕ) (r : WorkerRecord C) (m : Manager C)
      → lookup m.workers a ≡ some r
      → IsValid m
      → IsValid (child_exited id_of a code r m)
  unfolding child_exited
  child_exited-IsValid a code r m found v =
      let gone =
        update-IsValid a r (exit_of code r) m found refl (All-lookup _ m.workers a r v.within found)
          v in
      elim (Option-cases (lookup m.records (id_of r.config))) [
        | inl missing ↦ ground arith
        | inr (b, there) ↦ elim (Bool-cases (a == b)) [
          | inl current ↦
              let done =
                handle_exit-IsValid a (exit_of code r) (id_of r.config)
                  (update a (exit_of code r) m) (lookup-set m.workers a (exit_of code r)) gone in
              ground arith
          | inr replaced ↦ ground arith
        ]
      ]

  pub fire-IsValid :
      (t : Timer) (pid : Option ℕ) (m : Manager C)
      → TimerWithinLimit t
      → IsValid m
      → IsValid (fire id_of t pid m)
  unfolding fire
  fire-IsValid (relaunch a n delay) pid m h v = elim (Option-cases (lookup m.workers a)) [
    | inl missing ↦ ground arith
    | inr (r, found) ↦ elim (Bool-cases r.desired_running) [
      | inl desired ↦ let done = launch-IsValid r.config n pid m h.0 v in ground arith
      | inr stopped ↦ ground arith
    ]
  ]
  fire-IsValid (terminate a delay) pid m h v = elim (Option-cases (lookup m.workers a)) [
    | inl missing ↦ ground arith
    | inr (r, found) ↦ elim (Bool-cases (is_running r.child)) [
      | inl up ↦ let done = sent-IsValid (sigterm a ∷ m.sent) m v in ground arith
      | inr down ↦ ground arith
    ]
  ]
