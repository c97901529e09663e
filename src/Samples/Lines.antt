-- ===== src/Samples/Lines.antt =====
-- A line of workers, each spawned by the one before, and their budgets.
use cys_agi.Prelude.{◌+◌, ◌≤◌, ◌≡◌, refl, true, none, some, [], ◌∷◌, length, arith}
use cys_agi.Floats.{Milli, milli}
use cys_agi.Policy.{agent, allow_spawn}
use cys_agi.Json.{lookup}
use cys_agi.Spawn.{
  WorkerJob, RunContext, SubagentSpawnBroker, new_context, session, validate,
  resolve_max_spawn_depth, max_spawn_depth, conductor_blocks, from_job, to_worker_job,
  payload_depth, int,
}
use cys_agi.Budgets.{enrich_job_budget}
use cys_agi.Budgets.Positive.{IsPositive, enrich_job_budget-IsPositive}
use cys_agi.Spawn.Depth.{Wish, payload_of, descend, descend_bounded}

abbrev broker : SubagentSpawnBroker Milli
broker = record {
  catalog = λ _. some (record {
    enabled = true;
    capabilities = [];
    empirical_trust = 750;
    profile_id = "cybersec-soc";
  });
  max_spawn_depth_override = none;
  policy_max_spawn_depth = λ _. 5;
  policy_trust_floor = λ _. 500;
}

abbrev root : RunContext
root = new_context "run1" session "acme"

abbrev wish : Wish
wish = record {
  persona = "intel";
  parent_persona = "soc";
  sub_goal = "enrich";
  overlay = "";
  mode = some agent;
  fresh = "job-1";
}

abbrev last : RunContext
last = elim (descend ⦃fl = milli⦄ broker (λ _. none) root (wish ∷ wish ∷ [])) [
  | some c ↦ c
  | none ↦ root
]

last_is_reached : descend ⦃fl = milli⦄ broker (λ _. none) root (wish ∷ wish ∷ []) ≡ some last
unfolding descend validate resolve_max_spawn_depth conductor_blocks allow_spawn from_job
    to_worker_job payload_depth int lookup
last_is_reached = refl

descend_bounded_example :
    (last.spawn_depth ≡ root.spawn_depth + length (wish ∷ wish ∷ []))
    × (last.spawn_depth ≤ max_spawn_depth)
    × (last.tenant_id ≡ root.tenant_id)
descend_bounded_example =
    descend_bounded ⦃fl = milli⦄ broker (λ _. none) root last (wish ∷ wish ∷ []) (omega arith)
      last_is_reached

abbrev spawned : WorkerJob Milli
spawned = to_worker_job ⦃fl = milli⦄ "job-1" (payload_of root wish) ""

enrich_job_budget-IsPositive_example :
    IsPositive (enrich_job_budget ⦃fl = milli⦄ none spawned).max_tokens
    × IsPositive (enrich_job_budget ⦃fl = milli⦄ none spawned).max_tool_calls
unfolding to_worker_job
enrich_job_budget-IsPositive_example =
    enrich_job_budget-IsPositive ⦃fl = milli⦄ none spawned tt tt tt
