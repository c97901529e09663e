-- ===== src/Samples/Turns.antt =====
-- Steps of runs at concrete inputs.
use cys_agi.Prelude.{
  String, ◌≡◌, ◌≢◌, refl, sym, subst, true, false, not, none, some, [], ◌∷◌, truthy, string_eq,
  ◌==◌, ◌∙◌, false≢true, Result, ok, err, inr, pair_eq,
}
use cys_agi.Dict
use cys_agi.Floats.{FloatOps, Milli, milli}
use cys_agi.Json.{Value, nat, str, obj, arr, end, nil, field, lookup, put}
use cys_agi.JobBudget
use cys_agi.JobBudget.{empty}
use cys_agi.Policy.{plan, agent}
use cys_agi.Spawn.{RunContext, session, new_context}
use cys_agi.Todos.{WorkTodo, TextPorts, pending}
use cys_agi.Runs.{
  WorkPlan, RunState, RunDesk, StateKey, new_state, awaiting_plan_approval, closed, state_key,
  get_state, list_todos, replace_todos,
}
use cys_agi.Runs.Prompt.{PromptPorts}
use cys_agi.Runs.Answer.{
  RunFailure, CriticPorts, enrich_conductor_result, persist_sgr_fields_to_state,
}
use cys_agi.Runs.Critic.{evaluate}
use cys_agi.Runs.Step.{run_conductor}
use cys_agi.Runs.Turn.{StepPorts, RunOutcome, as_result}
use cys_agi.Runs.Step.Execute.{begin, execute, take_turn}
use cys_agi.Runs.Step.Reruns.{IsBounded}
use cys_agi.Runs.Step.Fuel.{run_conductor_enough}
use cys_agi.Runs.Step.Bounds.{take_turn-IsBounded}
use cys_agi.Runs.Step.Overwrites.{IsSilent}
use cys_agi.Runs.Step.Lost.{todos_before, execute_overwrites_todos}
use cys_agi.Runs.Manage.{approve, reject, get_context, approve_plan, step}
use cys_agi.Runs.Manage.Approval.{approve_plan-step}
use cys_agi.Runs.Isolation.{IsKeyed, IsIsolated}
use cys_agi.Runs.Manage.Tenants.{ok-injective, WritesNoRuns}
use cys_agi.Runs.Manage.Requests.{message, answer, upload, serve_all, serve_all-IsIsolated}

instance abbrev thousandths : FloatOps Milli
thousandths = milli

abbrev texts : TextPorts
texts = record { text_of = λ v. "value"; text_of_index = λ n. "1"; lowered = λ s. s }

abbrev prompts : PromptPorts
prompts = record {
  texts = texts;
  suffix = λ path. "";
  dumps = λ v. "json";
  dump_context = λ ctx. str ctx.context_id;
  dump_todos = λ todos. arr end;
  plan_hints = arr end;
  skill_catalog = λ profile_id. arr end;
  strict_plan = false;
}

abbrev critic : CriticPorts Milli
critic = record {
  texts = texts;
  hints = record {
    lower = λ s. s;
    contains = λ text part. false;
    is_blank = λ s. not (truthy s);
    bullet_lines = λ s. s ∷ [];
    model = none;
  };
  dumps = λ v. "json";
  length = λ s. 4;
  dump_score = λ x. nat x;
  judge = none;
  reasoning_judge = λ goal trace steps. some (record {
    score = 200;
    verdict = "fail";
    reasoning = "no evidence";
    should_rerun = true;
    issues = [];
  });
  policy = λ profile_id. record {
    threshold = 550;
    every_n_steps = 1;
    rerun_max = 1;
    hitl_on_exhausted = true;
  };
  env = record {
    trace_critic_threshold = none;
    trace_critic_every_n_steps = none;
    trace_critic_rerun_max = none;
  };
  is_step_result = λ d. false;
  percent = λ v. 0;
}

abbrev todo : WorkTodo
todo = record {
  id = "1";
  content = "collect the logs";
  status = pending;
  assigned_persona = "";
  depends_on = [];
}

abbrev reply : Value
reply = obj (field "reply" (str "done") nil)

-- The runtime empties the todos of the run that it works for, and answers a reply alone.
abbrev ports : StepPorts Milli
ports = record {
  prompt = prompts;
  critic = critic;
  arun = λ turn d. (ok reply, replace_todos turn.tenant_id turn.investigation_id [] d);
  budget_entry = λ persona. none;
  validate_plan = λ d. err (RunFailure.other_exception "no plan");
  dump_plan = λ work. arr end;
  validate_todos = λ v. ok [];
  sanitize_lesson = λ s. some s;
  summarize = λ goal messages prior. "summary";
  task_hints_enabled = false;
  trace_critic_enabled = true;
  trace_critic_hitl_on_exhausted = true;
  shares_states = true;
}

abbrev ctx : RunContext
ctx = new_context "run-1" session "acme"

abbrev work : WorkPlan
work = record {
  questions = [];
  todos = todo ∷ [];
  proposed_workers = [];
  rationale = "";
  awaiting_user_input = false;
  reasoning_steps = [];
  plan_status = "";
  enough_data = false;
  remaining_steps = [];
}

-- a run that waits for the approval of its plan
abbrev waiting : RunState
waiting = record (new_state ctx "find the cause" (some plan) awaiting_plan_approval) {
  plan = some work;
  todos = todo ∷ [];
}

abbrev desk : RunDesk Milli
desk = record {
  states = (("acme", ("run-1", "session")), waiting) ∷ [];
  todo_lists = (("acme", "run-1"), todo ∷ []) ∷ [];
  lessons = [];
  budget = empty;
  job_usages = [];
}

-- the same without a stored state
abbrev fresh : RunDesk Milli
fresh = record desk { states = [] }

run_conductor_enough_example :
    run_conductor ports 2 "conductor" "s" ctx "go"
      (todo ∷ [])
      (record { desk = desk; state = waiting; is_held = true })
    ≡ run_conductor ports 7 "conductor" "s" ctx "go"
        (todo ∷ [])
        (record { desk = desk; state = waiting; is_held = true })
run_conductor_enough_example =
    run_conductor_enough ports ctx 5 "conductor" "s" "go" (todo ∷ [])
      (record { desk = desk; state = waiting; is_held = true })

take_turn-IsBounded_example :
    IsBounded 1 1
      (begin true ctx "go" desk).state
      (take_turn ports ctx "go" "conductor" desk).1.state
take_turn-IsBounded_example = take_turn-IsBounded ports ctx "go" "conductor" desk

is_found : get_context desk "run-1" "acme" ≡ ok ctx
unfolding get_context get_state Dict.get
is_found = refl

is_stored : get_state desk (state_key ctx) ≡ some waiting
unfolding get_state Dict.get
is_stored = refl

todos_stored : Dict.get desk.todo_lists ("acme", "run-1") ≡ some (todo ∷ [])
unfolding Dict.get
todos_stored = refl

approve_plan-step_example :
    approve_plan ports "run-1"
      (record { decision = approve; edited_plan = none; actor = "ann" })
      "acme"
      desk
    ≡ step ports "run-1" "execute approved plan" "acme" (some agent) "conductor" desk
approve_plan-step_example =
    approve_plan-step ports "run-1" "ann" "acme" desk waiting is_found is_stored
      (inr (refl, todos_stored))

is_silent :
    (v : Value) → ◌≡◌ {A = Result RunFailure Value} (ok reply) (ok v) → IsSilent (as_result v)
unfolding lookup
is_silent v e = subst (λ x. IsSilent (as_result x)) (ok-injective e) (refl, refl)

-- what the step returns
abbrev outcome : RunOutcome
outcome = elim (execute ports ctx "go" "conductor" fresh).0 [
  | ok o ↦ o
  | err e ↦ record { run_context = ctx; result = nil; status = closed }
]

returns : (execute ports ctx "go" "conductor" fresh).0 ≡ ok outcome
unfolding execute lookup put enrich_conductor_result persist_sgr_fields_to_state get_state Dict.get
    evaluate
returns = refl

execute_overwrites_todos_example :
    list_todos (execute ports ctx "go" "conductor" fresh).1 "acme" "run-1"
    ≡ todos_before ports ctx "go" fresh
execute_overwrites_todos_example =
    execute_overwrites_todos ports ctx "go" "conductor" fresh outcome (λ turn d v e. is_silent v e)
      refl refl returns

apart : (a b : String) → (a == b) ≡ false → a ≢ b
apart a b differ same = absurd (false≢true (sym differ ∙ (string_eq.beq_iff a b).1 same))

writes_none : WritesNoRuns ports
unfolding replace_todos
writes_none turn d = (refl, refl)

keyed : IsKeyed desk
keyed key s found =
    Dict.AllPairs-get (λ (k : StateKey) (t : RunState). t.run_context.tenant_id ≡ k.0) desk.states
      key s (refl, tt) found

serve_all-IsIsolated_example : IsIsolated "globex" desk (
    serve_all ports
      (λ path. path)
      (λ tenant run file. file)
      (message "run-1" "go" "acme" none
        ∷ answer "run-1" (record { decision = reject; edited_plan = none; actor = "ann" }) "acme"
        ∷ upload "run-1" "log.txt" "acme"
        ∷ [])
      desk)
serve_all-IsIsolated_example =
    serve_all-IsIsolated ports (λ path. path) (λ tenant run file. file) "globex"
      (message "run-1" "go" "acme" none
        ∷ answer "run-1" (record { decision = reject; edited_plan = none; actor = "ann" }) "acme"
        ∷ upload "run-1" "log.txt" "acme"
        ∷ [])
      desk writes_none
      (apart "acme" "globex" refl, (apart "acme" "globex" refl, (apart "acme" "globex" refl, tt)))
      keyed
