-- ===== src/Samples/Workers.antt =====
-- Runs of jobs at concrete ports and stations.
use cys_agi.Prelude.{pos, ◌≡◌, refl, false, true, none, List, [], ◌∷◌, All, ok, err, string_eq}
use cys_agi.Floats.{Milli, milli}
use cys_agi.Json.{nil, obj}
use cys_agi.JobBudget
use cys_agi.Bus.{Primitives, new_bus, register_agent, internal, SecureAgentBus}
use cys_agi.Memory.{Validator}
use cys_agi.Spawn.{WorkerJob}
use cys_agi.Hitl
use cys_agi.Hitl.{Outside, JobResumeRequest, Desk, ResumeError}
use cys_agi.Worker.Station.{Station, Ports, security_violation, create}
use cys_agi.Worker.Steps.{start_job, read_input}
use cys_agi.Worker.Run.{execute, produce, publish_all}
use cys_agi.Worker.Orchestrate.{RoutingRequest, jobs_for_routing}
use cys_agi.Worker.Settles.{IsSettled, execute-IsSettled, execute_ends_approval}
use cys_agi.Worker.Publishing.{Sent, publish_all-Sent}
use cys_agi.Worker.Calm.{IsDone, IsQuiet}
use cys_agi.Worker.Drain.{process_all, routed_key, process_all-jobs_for_routing}

abbrev prim : Primitives
prim = record {
  hmac = λ key body. "sig";
  dumps = λ _. "body";
  filter_untrusted = λ s. s;
  isoformat = λ _. "now";
}

abbrev validator : Validator
validator = record {
  is_injection = λ _. false;
  contains_sensitive_data = λ _. false;
  redact_pii = λ s. s;
  filter_patterns = λ s. s;
  checksum = λ content key. key;
}

-- a runtime that answers an empty dict and touches nothing
abbrev pub ports : Ports Milli
ports = record {
  prim = prim;
  validator = validator;
  now = 100;
  fresh = "00c0ffee";
  memory_id = "mem-1";
  definition = λ _. ok (record {
    tools = "nmap" ∷ [];
    skills = [];
    schema_name = "";
    bus_recipients = "intel" ∷ [];
  });
  use_tool_gateway = false;
  resolve_mcp_tools = λ tools _ _ _ _. ok tools;
  resolve_legacy_tools = λ tools. ok tools;
  make_load_skill_tool = λ _ _ _. "load_skill";
  sanitize = λ s. ok s;
  schema = λ _. ok none;
  stage = "prod";
  self_refine_max = 0;
  arun = λ call s. (ok nil, s);
  parse_json_text = λ _. none;
  dumps = λ _. "{}";
  dump_state = λ _. obj nil;
  text_of = λ _. "";
  decimal = λ _. "0";
  budget_entry = λ _. none;
  profile_of_persona = λ _. none;
  cost_per_1k_tokens = λ _. 3;
}

-- a sanitizer that refuses the input
abbrev strict_ports : Ports Milli
strict_ports = record ports { sanitize = λ _. err (security_violation "prompt injection") }

abbrev pub bus : SecureAgentBus
bus = register_agent "soc" internal ("intel" ∷ "critic" ∷ []) (
    new_bus "key"
      (record { breaker_failure_threshold = 3; breaker_reset_seconds = 60; escalation_paths = [] }))

abbrev pub request : RoutingRequest
request = record {
  event_id = "e1";
  playbook_id = "";
  payload = nil;
  correlation_id = "i1";
  tenant_id = "acme";
  sequential = true;
  fresh = λ _. "00c0ffee";
}

abbrev pub jobs : List (WorkerJob Milli)
jobs = jobs_for_routing ⦃fl = milli⦄ request ("soc" ∷ "intel" ∷ [])

abbrev pub station : Station Milli
station = record {
  jobs = [];
  queue = jobs;
  sandboxes = [];
  bus = bus;
  published = [];
  memory = [];
  investigations = [];
  budget = JobBudget.empty ⦃fl = milli⦄;
  chains = [];
  sanitizer_blocks = [];
  memory_writes = [];
  job_usages = [];
}

abbrev job : WorkerJob Milli
job = record {
  job_id = "intel-e1-00c0ffee";
  event_id = "e1";
  persona = "intel";
  playbook_id = "";
  payload = nil;
  correlation_id = "i1";
  tenant_id = "acme";
  status = cys_agi.JobStore.pending;
  sandbox_id = "";
  feedback = "";
  depends_on_persona = "soc";
  max_tokens = pos 0;
  max_cost_usd = 0;
  max_tool_calls = pos 0;
}

ports_quiet : IsQuiet ⦃fl = milli⦄ ports
ports_quiet call s = record { queue = refl; done = λ key persona d. d }

execute-IsSettled_example :
    IsSettled job
      (execute ⦃fl = milli⦄ ports job "worker:intel:intel-e1-00c0ffee" station).0
      (execute ⦃fl = milli⦄ ports job "worker:intel:intel-e1-00c0ffee" station).1
execute-IsSettled_example =
    execute-IsSettled ⦃fl = milli⦄ ports job "worker:intel:intel-e1-00c0ffee" station

abbrev after_run : Station Milli
after_run = (execute ⦃fl = milli⦄ ports job "worker:intel:intel-e1-00c0ffee" station).1

abbrev out : Outside
out = record {
  resume_hash = λ _. "h";
  fresh = "a2";
  now = "2026-01-01T00:00:00Z";
  aresume = λ _ store. (ok (obj nil), store);
}

abbrev approves : JobResumeRequest
approves = record { decision = "approve"; edited_args = nil; approval_id = ""; actor = "analyst" }

abbrev desk : Desk
desk = record { store = after_run.jobs; approval_records = []; bypasses = []; resumes = [] }

execute_ends_approval_example :
    (e : ResumeError) × (Hitl.execute out "intel-e1-00c0ffee" approves desk ≡ (err e, desk))
execute_ends_approval_example =
    execute_ends_approval ⦃fl = milli⦄ ports job "worker:intel:intel-e1-00c0ffee" station out
      approves desk refl

process_all-jobs_for_routing_example :
    ((process_all ⦃fl = milli⦄ (ports ∷ ports ∷ []) station).queue ≡ [])
    × All
        (IsDone
          (process_all ⦃fl = milli⦄ (ports ∷ ports ∷ []) station).investigations
          (routed_key request))
        ("soc" ∷ "intel" ∷ [])
process_all-jobs_for_routing_example =
    process_all-jobs_for_routing ⦃fl = milli⦄ request ("soc" ∷ "intel" ∷ []) (ports ∷ ports ∷ [])
      station refl (ports_quiet, (ports_quiet, tt)) refl

input_refused :
    (produce ⦃fl = milli⦄ strict_ports job "worker:intel:intel-e1-00c0ffee" station).0
    ≡ err (security_violation "prompt injection")
unfolding produce start_job read_input create
input_refused = refl

publish_all-Sent_example :
    Sent ⦃fl = milli⦄ ports "soc" nil
      ("intel" ∷ "critic" ∷ [])
      station
      (publish_all ⦃fl = milli⦄ ports "soc" nil ("intel" ∷ "critic" ∷ []) station)
publish_all-Sent_example =
    publish_all-Sent ⦃fl = milli⦄ ports "soc" nil ("intel" ∷ "critic" ∷ []) station
