-- ===== src/Process/Manager/Steps.antt =====
-- The process manager as a state machine: calls of its methods, exits of its children and the
-- firing of its timers, in any order.
use tonatiuh_trading_saas.Prelude.{
  ℕ, suc, true, false, Option, some, List, [], ◌∷◌, ◌++◌, All, ◌≡◌, subst, arith, Option-cases,
  Bool-cases, inl, inr,
}
use tonatiuh_trading_saas.Prelude.Maps.{lookup, nat_key, lookup-set}
use tonatiuh_trading_saas.Process.Manager.{
  WorkerRecord, Manager, Timer, relaunch, start, stop, stop_all, child_exited, fire, record_of,
  to_status, launched, launch, is_running,
}
use tonatiuh_trading_saas.Process.Manager.Laws.{
  IsValid, TimerWithinLimit, start-IsValid, stop-IsValid, stop_each-IsValid, child_exited-IsValid,
  fire-IsValid, kept_by_fresh, launch-IsValid, record_of-some,
}

-- one entry taken out of a list that satisfies a predicate
All-middle :
    (P : Timer → Type 0) (xs ys : List Timer) (t : Timer)
    → All P (xs ++ t ∷ ys)
    → P t × All P (xs ++ ys)
All-middle P [] ys t h = h
All-middle P (x ∷ xs) ys t h = let (p, rest) = All-middle P xs ys t h.1 in (p, (h.0, rest))

module _ {C : Type 0} where
  -- the state after the construction
  abbrev pub idle : Manager C
  idle = record { workers = []; next = 0; records = []; timers = []; sent = [] }

module _ {C : Type 0} (id_of : C → ℕ) where
  -- A child exits once. A timer that fires is not pending any more.
  pub data Step : Manager C → Manager C → Type 0 where
    started : (config : C) (pid : Option ℕ) (m : Manager C) → Step m (start id_of config pid m).1
    stopped : (config_id : ℕ) (m : Manager C) → Step m (stop config_id m).1
    all_stopped : (m : Manager C) → Step m (stop_all m)
    exited :
        (a : ℕ) (code : Option ℕ) (r : WorkerRecord C) (m : Manager C)
        → lookup m.workers a ≡ some r
        → r.child.exited ≡ false
        → Step m (child_exited id_of a code r m)
    fired :
        (before after : List Timer) (t : Timer) (pid : Option ℕ) (m : Manager C)
        → m.timers ≡ before ++ t ∷ after
        → Step m (fire id_of t pid (record m { timers = before ++ after }))

  pub data Reachable : Manager C → Type 0 where
    initial : Reachable idle
    next_step : {m m' : Manager C} → Reachable m → Step m m' → Reachable m'

  Step-IsValid : {m m' : Manager C} → Step m m' → IsValid id_of m → IsValid id_of m'
  unfolding stop_all
  Step-IsValid (started config pid m) v = start-IsValid id_of config pid m v
  Step-IsValid (stopped k m) v = stop-IsValid id_of k m v
  Step-IsValid (all_stopped m) v = stop_each-IsValid id_of m.records m v
  Step-IsValid (exited a code r m found up) v = child_exited-IsValid id_of a code r m found v
  Step-IsValid (fired before after t pid m pending) v =
      let (p, rest) = All-middle TimerWithinLimit before after t (rw (← pending) v.timers_within) in
      fire-IsValid id_of t pid _ p
        (record { within = v.within; timers_within = rest; owns = v.owns; fresh = v.fresh })

  -- In every reachable state no record and no pending restart goes beyond the third attempt, a
  -- restart waits at most four seconds, and each entry of the map leads to a record of its
  -- configuration.
  pub Reachable-IsValid : (m : Manager C) → Reachable m → IsValid id_of m
  unfolding lookup
  Reachable-IsValid _ initial = record {
    within = tt;
    timers_within = tt;
    owns = λ k a e. absurd (ground arith);
    fresh = λ a r e. absurd (ground arith);
  }
  Reachable-IsValid _ (next_step r s) = Step-IsValid s (Reachable-IsValid _ r)

  record_of-launch :
      (config : C) (attempt : ℕ) (pid : Option ℕ) (m : Manager C)
      → record_of (launch id_of config attempt pid m) (id_of config)
        ≡ some (m.next, launched config attempt pid)
  unfolding launch
  record_of-launch config attempt pid m = ground (
    arith,
    lookup-set m.records (id_of config) m.next,
    lookup-set m.workers m.next (launched config attempt pid),
  )

  -- Starting a configuration twice launches one child: the second call changes nothing and gives
  -- the status of the first.
  pub start-start :
      (config : C) (p q : Option ℕ) (m : Manager C)
      → let ((_, status), m') = start id_of config p m in
        start id_of config q m' ≡ ((false, status), m')
  unfolding start to_status launched
  start-start config p q m = elim (Option-cases (record_of m (id_of config))) [
    | inl missing ↦ ground (arith, record_of-launch config 0 p m)
    | inr ((a, r), found) ↦ elim (Bool-cases (is_running r.child)) [
      | inl up ↦ ground arith
      | inr down ↦ ground (arith, record_of-launch config 0 p m)
    ]
  ]

  -- After `stop` a restart that was waiting for the same record does not launch a child.
  pub stop_cancels_restart :
      (k a n delay : ℕ) (r : WorkerRecord C) (pid : Option ℕ) (m : Manager C)
      → record_of m k ≡ some (a, r)
      → let (answer, m') = stop k m in
        (answer ≡ true) × (fire id_of (relaunch a n delay) pid m' ≡ m')
  unfolding stop fire
  stop_cancels_restart k a n delay r pid m h = (
    ground (arith, record_of-some m k a r h),
    ground (
      arith,
      record_of-some m k a r h,
      lookup-set m.workers a (record r { desired_running = false }),
    ),
  )

  -- While a crashed child waits for its restart, `start` launches a child for the configuration,
  -- and the restart launches a second one beside it. The map knows only the second.
  pub start_during_restart :
      (k a n delay code : ℕ) (r : WorkerRecord C) (p q : Option ℕ) (m : Manager C)
      → IsValid id_of m
      → record_of m k ≡ some (a, r)
      → r.child.exit_code ≡ some code
      → r.desired_running ≡ true
      → let m' = fire id_of (relaunch a n delay) q (start id_of r.config p m).1 in
        (lookup m'.workers m.next ≡ some (launched r.config 0 p))
        × (lookup m'.workers (suc m.next) ≡ some (launched r.config n q))
        × (lookup m'.records k ≡ some (suc m.next))
  unfolding start fire launch
  start_during_restart k a n delay code r p q m v h crashed desired =
      let second = launch id_of r.config n q (launch id_of r.config 0 p m) in
      let (at_a, found) = record_of-some m k a r h in
      let (r', found', same) = v.owns k a at_a in
      let own : id_of r.config ≡ k = cc in
      let begun : (start id_of r.config p m).1 ≡ launch id_of r.config 0 p m = ground arith in
      let kept = kept_by_fresh id_of r.config 0 p m a r v found in
      let valid = launch-IsValid id_of r.config 0 p m (omega arith) v in
      let first = lookup-set m.workers m.next (launched r.config 0 p) in
      let whole : fire id_of (relaunch a n delay) q (start id_of r.config p m).1 ≡ second =
        ground arith in
      rw whole (
        kept_by_fresh id_of r.config n q (launch id_of r.config 0 p m) m.next
            (launched r.config 0 p) valid first,
        lookup-set (launch id_of r.config 0 p m).workers (suc m.next) (launched r.config n q),
        subst (λ j. lookup second.records j ≡ some (suc m.next)) own
            (lookup-set (launch id_of r.config 0 p m).records (id_of r.config) (suc m.next)),
      )
