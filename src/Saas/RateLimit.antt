-- ===== src/Saas/RateLimit.antt =====
-- `memoryRateLimit` of src/saas/http/rate-limit.ts: a window of requests for each address.
pub mod Laws
use tonatiuh_trading_saas.Prelude.{
  ℕ, suc, ◌+◌, ◌-◌, ◌/◌, Bool, true, false, not, Option, none, some, List, [], ◌∷◌, filter,
  if◌then◌else◌, ltb, leb,
}
use tonatiuh_trading_saas.Prelude.Maps.{Key, Map, lookup, set}

pub record WindowEntry : Type 0 where
  pub count : ℕ
  pub reset_at : ℕ

-- what the middleware's closure keeps
pub record Limiter (K : Type 0) : Type 0 where
  pub windows : Map K WindowEntry
  pub next_cleanup : ℕ

-- the headers; `retry_after` is there if the request is refused with 429
pub record Answer : Type 0 where
  pub limit : ℕ
  pub remaining : ℕ
  pub reset : ℕ
  pub retry_after : Option ℕ

-- `Math.ceil(ms / 1000)`
abbrev pub ceil_seconds : ℕ → ℕ
ceil_seconds ms = (ms + 999) / 1000

abbrev max_one : ℕ → ℕ
max_one n = if leb 1 n then n else 1

abbrev pub is_live : ℕ → WindowEntry → Bool
is_live now e = ltb now e.reset_at

module _ {K : Type 0} where
  abbrev pub live_windows : ℕ → Map K WindowEntry → Map K WindowEntry
  live_windows now windows = filter (λ e. is_live now e.1) windows

  unfoldable pub clean_windows : ℕ → ℕ → Limiter K → Limiter K
  clean_windows window_ms now l =
      if leb l.next_cleanup now
      then record { windows = live_windows now l.windows; next_cleanup = now + window_ms }
      else l

abbrev pub entry_at : ℕ → ℕ → Option WindowEntry → WindowEntry
entry_at window_ms now none = record { count = 1; reset_at = now + window_ms }
entry_at window_ms now (some current) =
    if is_live now current
    then record current { count = suc current.count }
    else record { count = 1; reset_at = now + window_ms }

unfoldable pub answer_of : ℕ → ℕ → WindowEntry → Answer
answer_of limit now e = record {
  limit = limit;
  remaining = limit - e.count;
  reset = ceil_seconds e.reset_at;
  retry_after =
      if ltb limit e.count then some (max_one (ceil_seconds (e.reset_at - now))) else none;
}

module _ {K : Type 0} ⦃keys : Key K⦄ (limit window_ms : ℕ) where
  -- one request from an address
  unfoldable pub memory_rate_limit : K → ℕ → Limiter K → Answer × Limiter K
  memory_rate_limit key now l =
      let l' = clean_windows window_ms now l in
      let entry = entry_at window_ms now (lookup l'.windows key) in
      (answer_of limit now entry, record l' { windows = set l'.windows key entry })
