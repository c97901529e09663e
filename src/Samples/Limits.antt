-- ===== src/Samples/Limits.antt =====
-- The limiter and the budget of tool calls at concrete runs.
use cys_agi.Prelude.{◌≤◌, ◌≡◌, refl, some, min, List, [], ◌∷◌, ltb, count, arith, string_eq}
use cys_agi.Dict
use cys_agi.Floats.{Milli, milli}
use cys_agi.RateLimit.{allow, init}
use cys_agi.RateLimit.Window.{Call, serve, hit, serve_capped, allow_exact}
use cys_agi.JobBudget.{JobBudgetState, JobBudgetTracker, empty, configure}
use cys_agi.JobBudget.Quota.{attempts, attempts_quota}

-- Three calls of one session and one of another.
abbrev calls : List Call
calls =
    record { at = 1; key = "s:scan" }
    ∷ record { at = 2; key = "s:scan" }
    ∷ record { at = 2; key = "t:scan" }
    ∷ record { at = 9; key = "s:scan" }
    ∷ []

serve_capped_example : count (hit 5 9 "s:scan") (serve (init 1 5) [] calls).0 ≤ 1
serve_capped_example =
    serve_capped 1 5 calls "s:scan" 9 (omega arith, (omega arith, (omega arith, (omega arith, tt))))
      (omega arith)

allow_exact_example :
    (allow 10 "s:scan" (serve (init 1 5) [] calls).1).0
    ≡ ltb (count (hit 5 10 "s:scan") (serve (init 1 5) [] calls).0) 1
allow_exact_example =
    allow_exact 1 5 calls "s:scan" 10 (omega arith, (omega arith, (omega arith, (omega arith, tt))))
      (omega arith)

abbrev tracker : JobBudgetTracker Milli
tracker = configure ⦃fl = milli⦄ "s" 1000 5000 2 "cybersec-soc" (empty ⦃fl = milli⦄)

attempts_quota_example :
    attempts "s" 5 (configure ⦃fl = milli⦄ "s" 1000 5000 2 "cybersec-soc" (empty ⦃fl = milli⦄))
    ≡ min 5 2
attempts_quota_example =
    attempts_quota ⦃fl = milli⦄ (empty ⦃fl = milli⦄) "s" 1000 5000 2 "cybersec-soc" 5

abbrev opened : JobBudgetState Milli
opened = record {
  max_tokens = 1000;
  max_cost_usd = 5000;
  max_tool_calls = 2;
  tokens_used = 0;
  cost_usd = 0;
  tool_calls = 0;
}

opened_found : Dict.get tracker.states "s" ≡ some opened
unfolding configure Dict.get Dict.set
opened_found = refl
