-- ===== src/Breaker.antt =====
-- `CircuitBreaker` of cys_core/domain/security/agent_bus.py. The clock is an argument, in ticks;
-- `now - opened_at >= recovery_timeout` is written as a sum, which needs no sign.
use cys_agi.Prelude.{
  ℕ, ◌+◌, ◌≤◌, ◌≡◌, Bool, true, false, ◌&&◌, List, [], ◌∷◌, length, leb, ltb, if◌then◌else◌, arith,
}

pub record CircuitBreaker : Type 0 where
  pub failure_threshold : ℕ
  pub recovery_timeout : ℕ
  pub failures : ℕ
  pub opened_at : ℕ

-- `CircuitBreaker(failure_threshold, recovery_timeout)`
abbrev pub fresh : ℕ → ℕ → CircuitBreaker
fresh failure_threshold recovery_timeout = record {
  failure_threshold = failure_threshold;
  recovery_timeout = recovery_timeout;
  failures = 0;
  opened_at = 0;
}

-- The property resets a breaker whose time is over.
unfoldable pub is_open : ℕ → CircuitBreaker → Bool × CircuitBreaker
is_open now b =
    if ltb b.failures b.failure_threshold
    then (false, b)
    else if leb (b.opened_at + b.recovery_timeout) now
    then (false, record b { failures = 0; opened_at = 0 })
    else (true, b)

unfoldable pub record_failure : ℕ → CircuitBreaker → CircuitBreaker
record_failure now b =
    if leb b.failure_threshold (b.failures + 1)
    then record b { failures = b.failures + 1; opened_at = now }
    else record b { failures = b.failures + 1 }

unfoldable pub record_success : CircuitBreaker → CircuitBreaker
record_success b = record b { failures = 0; opened_at = 0 }

-- Failures at the given times, one after the other.
pub fail_at : List ℕ → CircuitBreaker → CircuitBreaker
fail_at [] b = b
fail_at (t ∷ ts) b = fail_at ts (record_failure t b)

-- The time of the last failure that counts for the opening, if the breaker is at its threshold.
abbrev last_of : ℕ → List ℕ → ℕ
last_of t [] = t
last_of t (u ∷ us) = last_of u us

fail_at_state :
    (t : ℕ) (ts : List ℕ) (b : CircuitBreaker)
    → let b' = fail_at (t ∷ ts) b in
      (b'.failure_threshold ≡ b.failure_threshold)
      × (b'.recovery_timeout ≡ b.recovery_timeout)
      × (b'.failures ≡ b.failures + length (t ∷ ts))
      × (leb b.failure_threshold (b.failures + length (t ∷ ts)) ≡ true
          → b'.opened_at ≡ last_of t ts)
unfolding fail_at record_failure
fail_at_state t [] b = ground arith
fail_at_state t (u ∷ us) b = ground (arith, fail_at_state u us (record_failure t b))

-- A fresh breaker after any failures, the last of them at `last_of t ts`: it is open exactly if
-- they have reached the threshold and less than the recovery time has gone by since the last one.
pub is_open-fail_at :
    (threshold timeout t : ℕ) (ts : List ℕ) (now : ℕ)
    → (is_open now (fail_at (t ∷ ts) (fresh threshold timeout))).0
      ≡ (leb threshold (length (t ∷ ts)) && ltb now (last_of t ts + timeout))
unfolding is_open
is_open-fail_at threshold timeout t ts now =
    ground (arith, fail_at_state t ts (fresh threshold timeout))

-- A breaker at its threshold whose recovery time is over: the first question closes it, and it
-- then stands as it was made, so that it takes as many failures as at the start to open it again.
pub is_open_recovers :
    (b : CircuitBreaker) (now : ℕ)
    → b.failure_threshold ≤ b.failures
    → b.opened_at + b.recovery_timeout ≤ now
    → is_open now b ≡ (false, fresh b.failure_threshold b.recovery_timeout)
unfolding is_open
is_open_recovers b now reached h = ground arith
