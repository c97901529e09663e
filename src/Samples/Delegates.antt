-- ===== src/Samples/Delegates.antt =====
-- A delegated subtask beside a run and a job.
use cys_agi.Prelude.{true, ◌≡◌, List, [], ◌∷◌, map, none, some, ok}
use cys_agi.Floats.{Milli, milli}
use cys_agi.Json.{str, obj}
use cys_agi.JobBudget.{empty}
use cys_agi.JobBudget.Quota.{apply_all, attempts}
use cys_agi.Spawn.{RunContext, session}
use cys_agi.Delegate.{DelegatePorts, delegated, execute}
use cys_agi.Delegate.Unbudgeted.{
  of_run, of_job, Work, begins, calls, ends, op_of, execute_unbudgeted,
}

abbrev ports : DelegatePorts Milli
ports = record {
  get_agent = λ name. some (record {
    enabled = true;
    capabilities = "spawn_worker" ∷ "osint" ∷ [];
    empirical_trust = 700;
    profile_id = "cybersec-soc";
  });
  arun = λ turn t. (ok (str turn.name), t);
  thresholds = λ profile_id. record {
    tool_calls_per_minute = 30;
    failed_tool_calls = 5;
    injection_attempts = 1;
    sensitive_data_access = 10;
  };
  redact = λ params. obj params;
  env_delegate_budget_fraction = none;
  policy_delegate_budget_fraction = λ profile_id. 350;
}

abbrev ctx : RunContext
ctx = record {
  kind = session;
  context_id = "r1";
  tenant_id = "acme";
  correlation_key = "";
  spawn_depth = 0;
  profile_id = "cybersec-soc";
  mode = none;
  parent_kind = none;
  parent_context_id = none;
}

abbrev works : List (Work Milli)
works =
    begins (of_run "conductor" ctx) 1000 5000 20 "cybersec-soc"
    ∷ begins (of_job "dfir" "j1") 1000 5000 20 "cybersec-soc"
    ∷ calls "run:session:r1"
    ∷ ends (of_job "dfir" "j1")
    ∷ []

execute_unbudgeted_example :
    let t = apply_all ⦃fl = milli⦄ (empty ⦃fl = milli⦄) (map op_of works) in
    let turn = delegated ⦃fl = milli⦄ ports "whois acme.test" "r1" "acme" in
    ((execute ⦃fl = milli⦄ ports 1 2 "whois acme.test" "r1" "acme"
        (record { budget = t; logged = [] })).1.budget
      ≡ (ports.arun turn t).1)
    × (attempts turn.session_id 100 t ≡ 100)
execute_unbudgeted_example =
    execute_unbudgeted ⦃fl = milli⦄ ports works 1 2 100 "whois acme.test" "r1" "acme" []
