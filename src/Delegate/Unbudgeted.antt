-- ===== src/Delegate/Unbudgeted.antt =====
-- Which sessions have a budget, and that the subtasks of
-- cys_core/application/use_cases/delegate_research.py have none.
use Prim.Native.String.{◌++◌ as ◌<>◌}
use Prim.Native.Char.{Char, code}
use text.Mathlib.TextLemmas.{cons-append}
use cys_agi.Prelude.{
  ℕ, ◌+◌, String, leb, ◌≡◌, refl, sym, ap, ◌∙◌, Bool, true, false, ◌||◌, none, some, List, [], ◌∷◌,
  map, string_eq, nat_eq, ◌==◌, arith, Option-cases, Result-cases, Bool-cases, Result, Exec, inl,
  inr, truthy,
}
use cys_agi.Dict
use cys_agi.Dict.{none≢some}
use cys_agi.Floats.{FloatOps}
use cys_agi.JobBudget.{
  JobBudgetExceeded, JobBudgetState, JobBudgetTracker, empty, configure, clear, check_tool_call,
  record_tool_call, count_tool_call, record_tokens, check_limits, charged,
}
use cys_agi.Json.{Value}
use cys_agi.JobBudget
use cys_agi.JobBudget.Quota.{
  Op, open_session, close_session, check_call, record_call, spend, apply, apply_all, attempts,
  attempts-none, record_tool_call-none, record_tool_call_full, record_tool_call_room,
  check_tool_call-state,
}
use cys_agi.Monitor.{AgentSecurityEvent}
use cys_agi.Runs.Answer.{RunFailure}
use cys_agi.Spawn.{
  ContextKind, RunContext, checkpoint_key, kind_value, is_stateful, session, job, event, batch,
  stream, investigation,
}
use cys_agi.Hitl.Session.{worker_session_id}
use cys_agi.Runs.Prompt.{mode_of}
use cys_agi.Runs.Turn.{is_conductor}
use cys_agi.Runs.Step.Execute.{session_of, is_plan}
use cys_agi.Delegate.{
  DelegatePorts, DelegateDesk, delegated, parent_session, child_session, investigation_of,
  nested_delegate_budget, execute, delegate_budget_fraction,
}

-- A session that the program opens a budget for: a step of a run, or a job.
pub data BudgetedSession : Type 0 where
  of_run : (persona : String) → RunContext → BudgetedSession
  of_job : (persona run_id : String) → BudgetedSession

abbrev pub id_of : BudgetedSession → String
id_of (of_run persona ctx) = session_of persona ctx
id_of (of_job persona run_id) = worker_session_id persona run_id

-- What runs and jobs do to the tracker: they open and close budgets of their sessions, and their
-- tools and models spend from that of any session.
pub data Work (F : Type 0) : Type 0 where
  begins : BudgetedSession → ℕ → F → ℕ → String → Work F
  ends : BudgetedSession → Work F
  checks : (session_id : String) → Work F
  calls : (session_id : String) → Work F
  spends : (session_id : String) → ℕ → Work F

abbrev pub op_of : {F : Type 0} → Work F → Op F
op_of (begins s tokens cost tool_calls profile) =
    open_session (id_of s) tokens cost tool_calls profile
op_of (ends s) = close_session (id_of s)
op_of (checks session_id) = check_call session_id
op_of (calls session_id) = record_call session_id
op_of (spends session_id tokens) = spend session_id tokens

-- The text begins with "d".
abbrev begins_with_d : String → Bool
begins_with_d String.[] = false
begins_with_d (String.◌∷◌ c s) = code c == 100

begins_with_d-cons :
    (c : Char) (l s : String)
    → begins_with_d (String.◌∷◌ c l <> s) ≡ begins_with_d (String.◌∷◌ c "")
begins_with_d-cons c l s = rw (cons-append) refl

delegate_begins_with_d : (s : String) → begins_with_d ("delegate:research:" <> s) ≡ true
delegate_begins_with_d s = begins_with_d-cons "d" "elegate:research:" s

child_begins_with_d : (s : String) → begins_with_d (("delegate:research:" <> s) <> ":child") ≡ true
child_begins_with_d s =
    rw (cons-append "d" "elegate:research:" s)
      (begins_with_d-cons "d" ("elegate:research:" <> s) ":child")

run_begins_without_d : (s : String) → begins_with_d ("run:" <> s) ≡ false
run_begins_without_d s = begins_with_d-cons "r" "un:" s

worker_begins_without_d : (s : String) → begins_with_d ("worker:" <> s) ≡ false
worker_begins_without_d s = begins_with_d-cons "w" "orker:" s

checkpoint_key_begins_without_d :
    (ctx : RunContext) (persona : String) (kind : ContextKind)
    → ctx.kind ≡ kind
    → begins_with_d (checkpoint_key ctx persona) ≡ false
unfolding checkpoint_key
checkpoint_key_begins_without_d ctx persona event e =
    rw (e, checkpoint_key) (run_begins_without_d (kind_value ctx.kind <> (":" <> ctx.context_id)))
checkpoint_key_begins_without_d ctx persona investigation e =
    rw (e, checkpoint_key) (run_begins_without_d (kind_value ctx.kind <> (":" <> ctx.context_id)))
checkpoint_key_begins_without_d ctx persona session e =
    rw (e, checkpoint_key) (run_begins_without_d (kind_value ctx.kind <> (":" <> ctx.context_id)))
checkpoint_key_begins_without_d ctx persona batch e =
    rw (e, checkpoint_key) (run_begins_without_d (kind_value ctx.kind <> (":" <> ctx.context_id)))
checkpoint_key_begins_without_d ctx persona stream e =
    rw (e, checkpoint_key) (run_begins_without_d (kind_value ctx.kind <> (":" <> ctx.context_id)))
checkpoint_key_begins_without_d ctx persona job e = elim (Bool-cases (truthy persona)) [
  | inl named ↦
      rw (e, named, checkpoint_key) (worker_begins_without_d (persona <> (":" <> ctx.context_id)))
  | inr nameless ↦
      rw (e, nameless, checkpoint_key)
        (run_begins_without_d (kind_value ctx.kind <> (":" <> ctx.context_id)))
]

id_of_begins_without_d : (s : BudgetedSession) → begins_with_d (id_of s) ≡ false
unfolding session_of worker_session_id
id_of_begins_without_d (of_job persona run_id) =
    begins_with_d-cons "w" "orker" (":" <> (persona <> (":" <> run_id)))
id_of_begins_without_d (of_run persona ctx) =
    elim (Bool-cases (is_plan (mode_of ctx) || (is_stateful ctx || is_conductor persona))) [
      | inl keyed ↦
          rw (keyed, session_of) (checkpoint_key_begins_without_d ctx persona ctx.kind refl)
      | inr own ↦
          rw (own, session_of) (worker_begins_without_d (persona <> (":" <> ctx.context_id)))
    ]

-- No session whose id begins with "d" has a budget.
abbrev IsUndelegated : {F : Type 0} → JobBudgetTracker F → Type 0
IsUndelegated t = (s : String) → begins_with_d s ≡ true → Dict.get t.states s ≡ none

differs : (a b : String) → begins_with_d a ≡ false → begins_with_d b ≡ true → (a == b) ≡ false
differs a b ha hb = elim (Bool-cases (a == b)) [
  | inl same ↦ absurd (cc ((string_eq.beq_iff a b).0 same, ha, hb))
  | inr away ↦ away
]

module _ {F : Type 0} ⦃fl : FloatOps F⦄ where
  -- A write at a session that is there adds none.
  IsUndelegated-set :
      (t : JobBudgetTracker F) (s : String) (old new : JobBudgetState F)
      → Dict.get t.states s ≡ some old
      → IsUndelegated t
      → IsUndelegated (record t { states = Dict.set t.states s new })
  IsUndelegated-set t s old new found h j d = elim (Bool-cases (s == j)) [
    | inl same ↦ absurd (
        none≢some
          (sym (h j d) ∙ (ap (Dict.get t.states) (sym ((string_eq.beq_iff s j).0 same)) ∙ found)))
    | inr away ↦ Dict.get-set_other t.states s j new away ∙ h j d
  ]

  at_session :
      (j : String) {r u : Result (JobBudgetExceeded F) (Unit {0}) × JobBudgetTracker F}
      → r ≡ u
      → Dict.get r.1.states j ≡ Dict.get u.1.states j
  at_session j e =
      ap
        (λ (v : Result (JobBudgetExceeded F) (Unit {0}) × JobBudgetTracker F).
          Dict.get v.1.states j)
        e

  IsUndelegated-spend :
      (t : JobBudgetTracker F) (s : String) (n : ℕ)
      → IsUndelegated t
      → IsUndelegated (record_tokens s n t).1
  unfolding record_tokens
  IsUndelegated-spend t s n h j d = elim (Option-cases (Dict.get t.states s)) [
    | inl absent ↦ rw (absent, record_tokens) (h j d)
    | inr (state, found) ↦ elim (Bool-cases (leb n 0)) [
      | inl zero_tokens ↦ rw (found, record_tokens, zero_tokens) (h j d)
      | inr some_tokens ↦
          rw (found, record_tokens, some_tokens)
            (IsUndelegated-set t s state (charged t s n state) found h j d)
    ]
  ]

  IsUndelegated-apply :
      (t : JobBudgetTracker F) (w : Work F) → IsUndelegated t → IsUndelegated (apply t (op_of w))
  unfolding apply configure clear
  IsUndelegated-apply t (begins s tokens cost tool_calls profile) h j d =
      Dict.get-set_other t.states (id_of s) j _ (differs (id_of s) j (id_of_begins_without_d s) d)
      ∙ h j d
  IsUndelegated-apply t (ends s) h j d =
      Dict.get-pop t.states (id_of s) j
      ∙ rw (differs (id_of s) j (id_of_begins_without_d s) d) (h j d)
  IsUndelegated-apply t (checks s) h j d =
      ap (λ (u : JobBudgetTracker F). Dict.get u.states j) (check_tool_call-state t s) ∙ h j d
  IsUndelegated-apply t (calls s) h j d = elim (Option-cases (Dict.get t.states s)) [
    | inl absent ↦ at_session j (record_tool_call-none t s absent) ∙ h j d
    | inr (state, found) ↦ elim (Bool-cases (leb state.max_tool_calls state.tool_calls)) [
      | inl full ↦
          at_session j (record_tool_call_full t s state found (ground (arith, full))) ∙ h j d
      | inr room ↦
          at_session j (record_tool_call_room t s state found (ground (arith, room)))
          ∙ (IsUndelegated-set t s state (record state { tool_calls = state.tool_calls + 1 }) found
              h j d)
    ]
  ]
  IsUndelegated-apply t (spends s n) h j d = IsUndelegated-spend t s n h j d

  IsUndelegated-apply_all :
      (t : JobBudgetTracker F) (works : List (Work F))
      → IsUndelegated t
      → IsUndelegated (apply_all t (map op_of works))
  unfolding apply_all
  IsUndelegated-apply_all t [] h = h
  IsUndelegated-apply_all t (w ∷ works) h =
      IsUndelegated-apply_all (apply t (op_of w)) works (IsUndelegated-apply t w h)

  nested_delegate_budget-none :
      {A : Type 0} (parent child : String) (fraction : F)
      (body : Exec (JobBudgetTracker F) RunFailure A) (t : JobBudgetTracker F)
      → JobBudget.get t parent ≡ none
      → nested_delegate_budget parent child fraction body t ≡ body t
  unfolding nested_delegate_budget
  nested_delegate_budget-none parent child fraction body t absent =
      rw (absent, nested_delegate_budget) refl

  execute-budget :
      (p : DelegatePorts F) (started ended : ℕ) (subtask context_id tenant_id : String)
      (d : DelegateDesk F)
      → let turn = delegated p subtask context_id tenant_id in
        JobBudget.get d.budget (parent_session turn.investigation_id) ≡ none
        → (execute p started ended subtask context_id tenant_id d).1.budget
          ≡ (p.arun turn d.budget).1
  unfolding execute
  execute-budget p started ended subtask context_id tenant_id d absent =
      let turn = delegated p subtask context_id tenant_id in
      let parent = parent_session turn.investigation_id in
      let fraction = delegate_budget_fraction p turn.profile_id in
      let same =
        ap (λ (r : Result RunFailure Value × JobBudgetTracker F). r.1)
          (nested_delegate_budget-none parent turn.session_id fraction (p.arun turn) d.budget
            absent) in
      elim (Result-cases
        (nested_delegate_budget parent turn.session_id fraction (p.arun turn) d.budget).0) [
          | inl (v, answered) ↦ rw (execute, answered) same
          | inr (e, raised) ↦ rw (execute, raised) same
        ]

  -- Whatever runs and jobs have done to the budgets since the start: a delegated subtask calls the
  -- runtime with the budgets as they are, opens none for its session, and leaves them as the
  -- runtime did; all tool calls of its session are granted, however many they are.
  pub execute_unbudgeted :
      (p : DelegatePorts F) (works : List (Work F)) (started ended n : ℕ)
      (subtask context_id tenant_id : String) (logged : List AgentSecurityEvent)
      → let t = apply_all empty (map op_of works) in
        let turn = delegated p subtask context_id tenant_id in
        ((execute p started ended subtask context_id tenant_id
            (record { budget = t; logged = logged })).1.budget
          ≡ (p.arun turn t).1)
        × (attempts turn.session_id n t ≡ n)
  unfolding Dict.get JobBudget.get apply_all
  execute_unbudgeted p works started ended n subtask context_id tenant_id logged =
      let t = apply_all empty (map op_of works) in
      let inv_id = investigation_of context_id tenant_id in
      let none_open = IsUndelegated-apply_all empty works (λ s d. refl) in
      (
        execute-budget p started ended subtask context_id tenant_id
            (record { budget = t; logged = logged })
            (none_open (parent_session inv_id) (delegate_begins_with_d inv_id)),
        attempts-none (child_session inv_id) n t
            (none_open (child_session inv_id) (child_begins_with_d inv_id)),
      )
