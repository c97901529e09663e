-- ===== src/RateLimit.antt =====
-- cys_core/security/rate_limit.py: the in-memory rate limiter. A clock reading `time.time()` is the
-- argument `now`, in ticks; `now - t` for a `now` behind `t` is 0, and neither is above the window.
pub mod Window
use cys_agi.Prelude.{
  ℕ, ◌-◌, String, Bool, true, false, List, [], ◌∷◌, ◌++◌, length, leb, ltb, if◌then◌else◌, Result,
  ok, err, Exec,
}
use cys_agi.Prelude.{string_eq}
use cys_agi.Dict
use cys_agi.Dict.{Dict}

pub record InMemoryRateLimiter : Type 0 where
  pub max_calls : ℕ
  pub window_seconds : ℕ
  pub buckets : Dict String (List ℕ)

-- `InMemoryRateLimiter(max_calls, window_seconds)`
abbrev pub init : ℕ → ℕ → InMemoryRateLimiter
init max_calls window_seconds = record {
  max_calls = max_calls;
  window_seconds = window_seconds;
  buckets = [];
}

-- `self._buckets[key]` of a defaultdict
unfoldable pub bucket : InMemoryRateLimiter → String → List ℕ
bucket l key = Dict.get_or l.buckets key []

-- the `while` loop of `allow`: drops calls from the left until one is inside the window
pub prune : ℕ → ℕ → List ℕ → List ℕ
prune window now [] = []
prune window now (t ∷ ts) =
    let rest = prune window now ts in if ltb window (now - t) then rest else t ∷ ts

unfoldable pub allow : ℕ → String → InMemoryRateLimiter → Bool × InMemoryRateLimiter
allow now key l =
    let kept = prune l.window_seconds now (bucket l key) in
    if leb l.max_calls (length kept)
    then (false, record l { buckets = Dict.set l.buckets key kept })
    else (true, record l { buckets = Dict.set l.buckets key (kept ++ now ∷ []) })

pub data RateLimitExceeded : Type 0 where
  rate_limit_exceeded : (key : String) → RateLimitExceeded

unfoldable pub check : ℕ → String → Exec InMemoryRateLimiter RateLimitExceeded Unit
check now key l =
    let (allowed, l') = allow now key l in
    (if allowed then ok tt else err (rate_limit_exceeded key), l')
