-- ===== src/Saas/RateLimit/Laws.antt =====
-- How many requests a window admits.
use tonatiuh_trading_saas.Prelude.{
  ℕ, suc, ◌+◌, ◌-◌, ◌≤◌, ◌<◌, false, Option, none, some, List, [], ◌∷◌, All, if◌then◌else◌, ltb,
  leb, is_some, ◌≡◌, refl, ◌∙◌, inl, inr, arith, Bool-cases,
}
use tonatiuh_trading_saas.Prelude.Maps.{Key, Map, lookup, lookup-set, lookup-set_cases}
use tonatiuh_trading_saas.Saas.RateLimit.{
  WindowEntry, Limiter, memory_rate_limit, clean_windows, live_windows, is_live, entry_at,
  answer_of,
}

retry_after-limit :
    (limit now : ℕ) (e : WindowEntry)
    → is_some (answer_of limit now e).retry_after ≡ ltb limit e.count
unfolding answer_of
retry_after-limit limit now e = elim (Bool-cases (ltb limit e.count)) [
  | inl over ↦ ground arith
  | inr within ↦ ground arith
]

module _ {K : Type 0} ⦃keys : Key K⦄ where
  live-lookup :
      (now : ℕ) (windows : Map K WindowEntry) (k : K) (e : WindowEntry)
      → lookup windows k ≡ some e
      → now < e.reset_at
      → lookup (live_windows now windows) k ≡ some e
  unfolding lookup
  live-lookup now [] k e h live = h
  live-lookup now ((j, f) ∷ m) k e h live = elim (Bool-cases (keys.same j k)) [
    | inl here ↦ ground arith
    | inr there ↦
        let rest = live-lookup now m k e (ground arith) live in
        elim (Bool-cases (is_live now f)) [ inl kept ↦ ground arith | inr dropped ↦ ground arith ]
  ]

  clean-lookup :
      (window_ms now : ℕ) (l : Limiter K) (k : K) (e : WindowEntry)
      → lookup l.windows k ≡ some e
      → now < e.reset_at
      → lookup (clean_windows window_ms now l).windows k ≡ some e
  unfolding clean_windows
  clean-lookup window_ms now l k e h live = elim (Bool-cases (leb l.next_cleanup now)) [
    | inl due ↦ rw due (live-lookup now l.windows k e h live)
    | inr early ↦ rw early h
  ]

  live-lookup-none :
      (now : ℕ) (windows : Map K WindowEntry) (k : K)
      → lookup windows k ≡ none
      → lookup (live_windows now windows) k ≡ none
  unfolding lookup
  live-lookup-none now [] k h = refl
  live-lookup-none now ((j, f) ∷ m) k h =
      let rest = live-lookup-none now m k (ground arith) in
      elim (Bool-cases (is_live now f)) [ inl kept ↦ ground arith | inr dropped ↦ ground arith ]

  clean-lookup-none :
      (window_ms now : ℕ) (l : Limiter K) (k : K)
      → lookup l.windows k ≡ none
      → lookup (clean_windows window_ms now l).windows k ≡ none
  unfolding clean_windows
  clean-lookup-none window_ms now l k h = elim (Bool-cases (leb l.next_cleanup now)) [
    | inl due ↦ rw due (live-lookup-none now l.windows k h)
    | inr early ↦ rw early h
  ]

module _ {K : Type 0} ⦃keys : Key K⦄ (limit window_ms : ℕ) where
  -- what a request leaves for its own address
  own_request :
      (k : K) (now : ℕ) (l : Limiter K) (found : Option WindowEntry)
      → lookup (clean_windows window_ms now l).windows k ≡ found
      → let (answer, l') = memory_rate_limit limit window_ms k now l in
        (lookup l'.windows k ≡ some (entry_at window_ms now found))
        × (is_some answer.retry_after ≡ ltb limit (entry_at window_ms now found).count)
  unfolding memory_rate_limit answer_of
  own_request k now l found h = (
    rw h (lookup-set (clean_windows window_ms now l).windows k (entry_at window_ms now found)),
    rw h (retry_after-limit limit now (entry_at window_ms now found)),
  )

  -- a request of another address leaves the window as it is
  other_request :
      (k j : K) (now : ℕ) (l : Limiter K) (e : WindowEntry)
      → keys.same j k ≡ false
      → lookup l.windows k ≡ some e
      → now < e.reset_at
      → lookup (memory_rate_limit limit window_ms j now l).1.windows k ≡ some e
  unfolding memory_rate_limit
  other_request k j now l e other h live =
      let kept = clean-lookup window_ms now l k e h live in
      let l' = clean_windows window_ms now l in
      elim (lookup-set_cases l'.windows j k (entry_at window_ms now (lookup l'.windows j))) [
        | inl same ↦ absurd (ground (arith, keys.same_refl k))
        | inr there ↦ there ∙ kept
      ]

  -- requests with their times, and how many of one address pass
  unfoldable pub admitted : K → List (K × ℕ) → Limiter K → ℕ
  admitted k [] l = 0
  admitted k ((j, now) ∷ requests) l =
      let (answer, l') = memory_rate_limit limit window_ms j now l in
      let rest = admitted k requests l' in
      if keys.same j k then (if is_some answer.retry_after then rest else suc rest) else rest

  -- in a window that is open no more pass than are left
  admitted_in_open_window :
      (k : K) (requests : List (K × ℕ)) (l : Limiter K) (e : WindowEntry)
      → lookup l.windows k ≡ some e
      → All (λ r. r.1 < e.reset_at) requests
      → admitted k requests l ≤ limit - e.count
  unfolding admitted
  admitted_in_open_window k [] l e h early = omega arith
  admitted_in_open_window k ((j, now) ∷ requests) l e h early = elim (Bool-cases (keys.same j k)) [
    | inl own ↦
        let entry : WindowEntry = record { count = suc e.count; reset_at = e.reset_at } in
        let (there, refused) =
          own_request j now l (some e)
            (clean-lookup window_ms now l j e (ground (arith, keys.same_eq j k)) early.0) in
        let rest =
          admitted_in_open_window k requests (memory_rate_limit limit window_ms j now l).1 entry
            (ground (arith, keys.same_eq j k)) early.1 in
        ground arith
    | inr other ↦
        let rest =
          admitted_in_open_window k requests (memory_rate_limit limit window_ms j now l).1 e
            (other_request k j now l e other h early.0) early.1 in
        rw other rest
  ]

  -- An address without a window has at most `limit` requests admitted from its first request until
  -- the window of that request closes, whatever other addresses send in between.
  pub admitted_in_window :
      (k : K) (now : ℕ) (requests : List (K × ℕ)) (l : Limiter K)
      → lookup l.windows k ≡ none
      → All (λ r. r.1 < now + window_ms) requests
      → admitted k ((k, now) ∷ requests) l ≤ limit
  unfolding admitted
  admitted_in_window k now requests l h early =
      let (there, refused) = own_request k now l none (clean-lookup-none window_ms now l k h) in
      let rest =
        admitted_in_open_window k requests (memory_rate_limit limit window_ms k now l).1
          (record { count = 1; reset_at = now + window_ms }) there early in
      ground (arith, keys.same_refl k)
