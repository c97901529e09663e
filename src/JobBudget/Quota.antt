-- ===== src/JobBudget/Quota.antt =====
-- The tool-call budget of cys_core/domain/workers/job_budget.py.
use cys_agi.Prelude.{
  ℕ, zero, suc, ◌+◌, ◌-◌, ◌≤◌, min, String, ◌≡◌, Option, none, some, List, [], ◌∷◌, arith, leb,
  truthy, ◌<◌, string_eq, ok, err, Option-cases, Bool-cases, inl, inr,
}
use native.Mathlib.Decide.{dec_lt}
use cys_agi.Floats.{FloatOps}
use cys_agi.Dict
use cys_agi.JobBudget.{
  JobBudgetState, JobBudgetTracker, empty, configure_job_cost, configure, charged, record_tokens,
  clear, clear_all, tool_call_budget, check_tool_call, record_tool_call,
}

-- What a client can ask of the tracker.
pub data Op (F : Type 0) : Type 0 where
  set_cost : F → Option String → Op F
  open_session : String → ℕ → F → ℕ → String → Op F
  close_session : String → Op F
  close_all : Op F
  check_call : String → Op F
  record_call : String → Op F
  spend : String → ℕ → Op F

-- A client catches what an operation raises, and goes on from the state that it left.
unfoldable pub apply :
    {F : Type 0} ⦃fl : FloatOps F⦄ → JobBudgetTracker F → Op F → JobBudgetTracker F
apply t (set_cost rate profile) = configure_job_cost rate profile t
apply t (open_session s tokens cost calls profile) = configure s tokens cost calls profile t
apply t (close_session s) = clear s t
apply t close_all = clear_all t
apply t (check_call s) = (check_tool_call s t).1
apply t (record_call s) = (record_tool_call s t).1
apply t (spend s n) = (record_tokens s n t).1

unfoldable pub apply_all :
    {F : Type 0} ⦃fl : FloatOps F⦄ → JobBudgetTracker F → List (Op F) → JobBudgetTracker F
apply_all t [] = t
apply_all t (op ∷ ops) = apply_all (apply t op) ops

abbrev pub WithinCalls : {F : Type 0} → JobBudgetState F → Type 0
WithinCalls state = state.tool_calls ≤ state.max_tool_calls

-- No session has made more calls than its budget allows.
abbrev pub IsWithinCalls : {F : Type 0} → JobBudgetTracker F → Type 0
IsWithinCalls t = Dict.AllValues WithinCalls t.states

-- One more call of a session.
abbrev pub called :
    {F : Type 0} → JobBudgetTracker F → String → JobBudgetState F → JobBudgetTracker F
called t s state = record t {
  states = Dict.set t.states s (record state { tool_calls = state.tool_calls + 1 });
}

module _ {F : Type 0} (t : JobBudgetTracker F) (s : String) where
  pub record_tool_call-none : Dict.get t.states s ≡ none → record_tool_call s t ≡ (ok tt, t)
  unfolding record_tool_call
  record_tool_call-none absent = ground arith

  pub record_tool_call_full :
      (state : JobBudgetState F)
      → Dict.get t.states s ≡ some state
      → state.max_tool_calls ≤ state.tool_calls
      → record_tool_call s t ≡ (err (tool_call_budget state.max_tool_calls), t)
  unfolding record_tool_call
  record_tool_call_full state found full = ground arith

  pub record_tool_call_room :
      (state : JobBudgetState F)
      → Dict.get t.states s ≡ some state
      → state.tool_calls < state.max_tool_calls
      → record_tool_call s t ≡ (ok tt, called t s state)
  unfolding record_tool_call
  record_tool_call_room state found room = ground arith

  pub check_tool_call-state : (check_tool_call s t).1 ≡ t
  unfolding check_tool_call
  check_tool_call-state = ground arith

module _ {F : Type 0} ⦃fl : FloatOps F⦄ (t : JobBudgetTracker F) (h : IsWithinCalls t) where
  configure-IsWithinCalls :
      (s : String) (tokens : ℕ) (cost : F) (calls : ℕ) (p : String)
      → IsWithinCalls (configure s tokens cost calls p t)
  unfolding configure
  configure-IsWithinCalls s tokens cost calls p =
      Dict.AllValues-set WithinCalls t.states s _ (omega arith) h

  record_tool_call-IsWithinCalls : (s : String) → IsWithinCalls (record_tool_call s t).1
  record_tool_call-IsWithinCalls s = elim (Option-cases (Dict.get t.states s)) [
    | inl absent ↦ rw (record_tool_call-none t s absent) h
    | inr (state, found) ↦ elim (dec_lt state.tool_calls state.max_tool_calls) [
      | yes room ↦
          rw (record_tool_call_room t s state found room)
            (Dict.AllValues-set WithinCalls t.states s _ (omega arith) h)
      | no full ↦ rw (record_tool_call_full t s state found (omega arith)) h
    ]
  ]

  record_tokens-IsWithinCalls : (s : String) (n : ℕ) → IsWithinCalls (record_tokens s n t).1
  unfolding record_tokens
  record_tokens-IsWithinCalls s n = elim (Option-cases (Dict.get t.states s)) [
    | inl absent ↦ rw (absent, record_tokens) h
    | inr (state, found) ↦ elim (Bool-cases (leb n 0)) [
      | inl zero_tokens ↦ rw (found, record_tokens, zero_tokens) h
      | inr some_tokens ↦
          rw (found, record_tokens, some_tokens)
            (Dict.AllValues-set WithinCalls t.states s _ (unfold charged in h s state found) h)
    ]
  ]

apply-IsWithinCalls :
    {F : Type 0} ⦃fl : FloatOps F⦄ (t : JobBudgetTracker F) (op : Op F)
    → IsWithinCalls t
    → IsWithinCalls (apply t op)
unfolding apply configure_job_cost clear clear_all
apply-IsWithinCalls t (set_cost rate none) h = h
apply-IsWithinCalls t (set_cost rate (some profile)) h = elim (Bool-cases (truthy profile)) [
  | inl named ↦ rw named h
  | inr unnamed ↦ rw unnamed h
]
apply-IsWithinCalls t (open_session s tokens cost calls p) h =
    configure-IsWithinCalls t h s tokens cost calls p
apply-IsWithinCalls t (close_session s) h = Dict.AllValues-pop WithinCalls t.states s h
apply-IsWithinCalls t close_all h = Dict.AllValues-nil WithinCalls
apply-IsWithinCalls t (check_call s) h = rw (check_tool_call-state t s) h
apply-IsWithinCalls t (record_call s) h = record_tool_call-IsWithinCalls t h s
apply-IsWithinCalls t (spend s n) h = record_tokens-IsWithinCalls t h s n

apply_all-keeps :
    {F : Type 0} ⦃fl : FloatOps F⦄ (t : JobBudgetTracker F) (ops : List (Op F))
    → IsWithinCalls t
    → IsWithinCalls (apply_all t ops)
unfolding apply_all
apply_all-keeps t [] h = h
apply_all-keeps t (op ∷ ops) h = apply_all-keeps (apply t op) ops (apply-IsWithinCalls t op h)

-- After any sequence of operations from the empty tracker, refused ones included, no session has
-- more tool calls on record than the budget that it was last configured with.
pub apply_all-IsWithinCalls :
    {F : Type 0} ⦃fl : FloatOps F⦄ (ops : List (Op F))
    → IsWithinCalls (apply_all (empty {F = F}) ops)
apply_all-IsWithinCalls ops = apply_all-keeps empty ops (Dict.AllValues-nil WithinCalls)

-- The number of calls that `n` attempts of one session are granted.
pub attempts : {F : Type 0} → String → ℕ → JobBudgetTracker F → ℕ
attempts s zero t = 0
attempts s (suc n) t =
    let (r, t') = record_tool_call s t in
    elim r [ ok _ ↦ attempts s n t' + 1 | err _ ↦ attempts s n t' ]

attempts_from :
    {F : Type 0} (s : String) (n : ℕ) (t : JobBudgetTracker F) (state : JobBudgetState F)
    → Dict.get t.states s ≡ some state
    → attempts s n t ≡ min n (state.max_tool_calls - state.tool_calls)
unfolding attempts
attempts_from s zero t state found = omega arith
attempts_from s (suc n) t state found = elim (dec_lt state.tool_calls state.max_tool_calls) [
  | yes room ↦ ground (
    arith,
    record_tool_call_room t s state found room,
    attempts_from s n (called t s state) _ (Dict.get-set_self t.states s _),
  )
  | no full ↦
      ground (
        arith,
        record_tool_call_full t s state found (omega arith),
        attempts_from s n t state found,
      )
]

-- Of `n` attempts of a session that was just configured, exactly the first `max_tool_calls` are
-- granted, or all of them if they are fewer.
pub attempts_quota :
    {F : Type 0} ⦃fl : FloatOps F⦄ (t : JobBudgetTracker F) (s : String) (tokens : ℕ) (cost : F)
    (max_tool_calls : ℕ) (profile : String) (n : ℕ)
    → attempts s n (configure s tokens cost max_tool_calls profile t) ≡ min n max_tool_calls
unfolding configure
attempts_quota t s tokens cost calls profile n =
    omega (arith, attempts_from s n _ _ (Dict.get-set_self t.states s _))

pub attempts-none :
    {F : Type 0} (s : String) (n : ℕ) (t : JobBudgetTracker F)
    → Dict.get t.states s ≡ none
    → attempts s n t ≡ n
unfolding attempts
attempts-none s zero t absent = omega arith
attempts-none s (suc n) t absent =
    ground (arith, record_tool_call-none t s absent, attempts-none s n t absent)

-- Once a session is cleared all of its attempts are granted, however many they are, until it is
-- configured again.
pub attempts-clear :
    {F : Type 0} (t : JobBudgetTracker F) (s : String) (n : ℕ) → attempts s n (clear s t) ≡ n
unfolding clear
attempts-clear t s n = attempts-none s n (clear s t) (Dict.get-pop_self t.states s)
