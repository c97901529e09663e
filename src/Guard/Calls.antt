-- ===== src/Guard/Calls.antt =====
-- Which calls the security middleware lets reach a tool
-- (cys_core/middleware/security_middleware.py).
use cys_agi.Prelude.{
  ◌≡◌, ◌≢◌, ◌⊎◌, inl, inr, refl, ap, ◌∙◌, true, false, none, some, [], ◌∷◌, ◌++◌, string_eq, ◌==◌,
  arith, Option, String, Bool, ok, err, Bool-cases, Option-cases,
}
use cys_agi.Json.{
  Value, Items, Fields, null, bool, nat, number, str, arr, obj, item, lookup, is_true,
}
use cys_agi.JobBudget.{JobBudgetTracker, check_tool_call, record_tool_call}
use cys_agi.Hitl.{first_rejects, resume_decision_approved}
use cys_agi.Policy.{risk_le}
use cys_agi.Guard.{
  ToolCall, SecurityMiddleware, World, Answers, pause, await_hitl_if_needed, run_tool,
  wrap_tool_call,
}

-- The first of a list of decisions is no rejection, if there is such a list.
abbrev pub BeginsWithNoRejection : Fields → Type 0
BeginsWithNoRejection d =
    (first : Fields) (rest : Items)
    → lookup d "decisions" ≡ some (arr (item (obj first) rest))
    → lookup first "type" ≢ some (str "reject")

-- The human's answer does not reject the call: a dict is no rejection, and if it does not say that
-- it approves or edits, then a list of decisions in it does not begin with a rejection; anything
-- else is true.
abbrev pub IsPermission : Value → Type 0
IsPermission (obj d) =
    (lookup d "decision" ≢ some (str "reject"))
    × ((lookup d "decision" ≡ some (str "approve"))
        ⊎ ((lookup d "decision" ≡ some (str "edit")) ⊎ BeginsWithNoRejection d))
IsPermission v = is_true v ≡ true

-- A human was asked, outside the development stage, and did not reject the call.
pub record IsPermitted {F : Type 0} (m : SecurityMiddleware) (a : Answers F) : Type 0 where
  pub staged : m.stage ≢ "dev"
  pub answered : (decision : Value) × (a.interrupt ≡ some decision) × IsPermission decision

some-injective : {A : Type 0} {x y : A} → some x ≡ some y → x ≡ y
some-injective e = cc

none≢true : none ≢ some true
none≢true e = cc

false≢some_true : some false ≢ some true
false≢some_true e = cc

-- A list that begins with a rejection refuses, unless the dict itself says something else.
resume_decision_approved_begins :
    (d first : Fields) (rest : Items) (said : Option Value)
    → lookup d "decision" ≡ said
    → lookup d "decisions" ≡ some (arr (item (obj first) rest))
    → lookup first "type" ≡ some (str "reject")
    → said ≢ some (str "approve")
    → said ≢ some (str "edit")
    → resume_decision_approved (obj d) ≢ some true
unfolding resume_decision_approved first_rejects
resume_decision_approved_begins d first rest none e found rejects no_approve no_edit ok' =
    false≢some_true (rw (e, resume_decision_approved, found, first_rejects, rejects) at ok')
resume_decision_approved_begins d first rest (some null) e found rejects no_approve no_edit ok' =
    false≢some_true (rw (e, resume_decision_approved, found, first_rejects, rejects) at ok')
resume_decision_approved_begins d first rest (some (bool b)) e found rejects no_approve no_edit
      ok' =
    false≢some_true (rw (e, resume_decision_approved, found, first_rejects, rejects) at ok')
resume_decision_approved_begins d first rest (some (nat n)) e found rejects no_approve no_edit ok' =
    false≢some_true (rw (e, resume_decision_approved, found, first_rejects, rejects) at ok')
resume_decision_approved_begins d first rest (some (number s z)) e found rejects no_approve no_edit
      ok' =
    false≢some_true (rw (e, resume_decision_approved, found, first_rejects, rejects) at ok')
resume_decision_approved_begins d first rest (some (arr xs)) e found rejects no_approve no_edit
      ok' =
    none≢true (rw (e, resume_decision_approved) at ok')
resume_decision_approved_begins d first rest (some (obj fs)) e found rejects no_approve no_edit
      ok' =
    none≢true (rw (e, resume_decision_approved) at ok')
resume_decision_approved_begins d first rest (some (str s)) e found rejects no_approve no_edit ok' =
    let unlike_approve : (s == "approve") ≡ false =
      ground (arith, string_eq.beq_iff s "approve", no_approve) in
    let unlike_edit : (s == "edit") ≡ false = ground (arith, string_eq.beq_iff s "edit", no_edit) in
    elim (Bool-cases (s == "reject")) [
      | inl r ↦ false≢some_true (rw (e, resume_decision_approved, r) at ok')
      | inr r ↦ false≢some_true (
          rw
            (
              e, resume_decision_approved, r, unlike_approve, unlike_edit, found, first_rejects,
              rejects,
            )
            at ok')
    ]

-- Whether the dict says it.
says : Option Value → String → Bool
says (some (str s)) word = s == word
says _ word = false

says-true : (o : Option Value) (word : String) → says o word ≡ true → o ≡ some (str word)
unfolding says
says-true (some (str s)) word e = ap (λ x. some (str x)) ((string_eq.beq_iff s word).0 e)
says-true none word e = absurd (cc e)
says-true (some null) word e = absurd (cc e)
says-true (some (bool b)) word e = absurd (cc e)
says-true (some (nat n)) word e = absurd (cc e)
says-true (some (number s z)) word e = absurd (cc e)
says-true (some (arr xs)) word e = absurd (cc e)
says-true (some (obj fs)) word e = absurd (cc e)

says-false : (o : Option Value) (word : String) → says o word ≡ false → o ≢ some (str word)
unfolding says
says-false o word e same =
    ground (arith, e, ap (λ x. says x word) same, string_eq.beq_iff word word)

Dec-lookup : (d : Fields) (word : String) → Dec (lookup d "decision" ≡ some (str word))
Dec-lookup d word = elim (Bool-cases (says (lookup d "decision") word)) [
  | inl e ↦ yes (says-true (lookup d "decision") word e)
  | inr e ↦ no (says-false (lookup d "decision") word e)
]

resume_decision_approved-IsPermission :
    (v : Value) → resume_decision_approved v ≡ some true → IsPermission v
unfolding resume_decision_approved
resume_decision_approved-IsPermission null e = some-injective e
resume_decision_approved-IsPermission (bool b) e = some-injective e
resume_decision_approved-IsPermission (nat n) e = some-injective e
resume_decision_approved-IsPermission (number s z) e = some-injective e
resume_decision_approved-IsPermission (str s) e = some-injective e
resume_decision_approved-IsPermission (arr xs) e = some-injective e
resume_decision_approved-IsPermission (obj d) e = (
  λ said. false≢some_true (rw (said, resume_decision_approved) at e),
  elim (Dec-lookup d "approve") [
    | yes a ↦ inl a
    | no a ↦ elim (Dec-lookup d "edit") [
      | yes b ↦ inr (inl b)
      | no b ↦ inr (
          inr (λ first rest found rejects.
            resume_decision_approved_begins d first rest (lookup d "decision") refl found rejects a
              b e))
    ]
  ],
)

module _ {F : Type 0} (m : SecurityMiddleware) (a : Answers F) (call : ToolCall) (w : World F) where
  pause_keeps :
      ((pause m a call w).tool_calls ≡ w.tool_calls) × ((pause m a call w).budget ≡ w.budget)
  unfolding pause
  pause_keeps = (refl, refl)

  await_hitl_keeps :
      ((await_hitl_if_needed m a call w).1.tool_calls ≡ w.tool_calls)
      × ((await_hitl_if_needed m a call w).1.budget ≡ w.budget)
  unfolding await_hitl_if_needed
  await_hitl_keeps = (ground (arith, pause_keeps), ground (arith, pause_keeps))

  await_hitl_passes :
      (await_hitl_if_needed m a call w).0 ≡ ok none
      → (risk_le (m.risk_of_tool call.name) m.auto_approve_threshold ≡ true) ⊎ IsPermitted m a
  unfolding await_hitl_if_needed
  await_hitl_passes passes =
      elim (Bool-cases (risk_le (m.risk_of_tool call.name) m.auto_approve_threshold)) [
        | inl safe ↦ inl safe
        | inr risky ↦ elim (Option-cases a.interrupt) [
          | inl waits ↦ absurd (ground arith)
          | inr (decision, answer) ↦ inr (record {
            staged = ground (arith, string_eq.beq_iff m.stage "dev");
            answered =
                (decision, answer, resume_decision_approved-IsPermission decision (ground arith));
          })
        ]
      ]

  check_tool_call-keeps : (check_tool_call m.session_id w.budget).1 ≡ w.budget
  unfolding check_tool_call
  check_tool_call-keeps = ground arith

  -- `wrap_tool_call` behind the budget and the limiter.
  wrap_calls :
      (wrap_tool_call m a call w).1.tool_calls ≢ w.tool_calls
      → ((check_tool_call m.session_id w.budget).0 ≡ ok tt)
        × (a.rate_allowed ≡ true)
        × ((await_hitl_if_needed m a call w).0 ≡ ok none)
        × (wrap_tool_call m a call w ≡ run_tool m a call (await_hitl_if_needed m a call w).1)
  unfolding wrap_tool_call
  wrap_calls called =
      let keeps = check_tool_call-keeps in
      let hitl_keeps = await_hitl_keeps in (ground arith, ground arith, ground arith, ground arith)

  run_tool_keeps :
      (b : JobBudgetTracker F)
      → w.budget ≡ b
      → ((run_tool m a call w).1.tool_calls ≡ w.tool_calls ++ call ∷ [])
        × ((run_tool m a call w).1.budget
            ≡ elim a.tool [ ok _ ↦ (record_tool_call m.session_id b).1 | err _ ↦ b ])
  unfolding run_tool
  run_tool_keeps b same = (ground arith, ground arith)

module _ {F : Type 0} (m : SecurityMiddleware) (a : Answers F) (call : ToolCall) (w : World F) where
  abbrev waited : World F
  waited = (await_hitl_if_needed m a call w).1

  -- A tool is called only if the budget of the session has room for a call, the limiter allows it,
  -- and either its risk is at most the threshold, or the stage is not `dev` and a human was asked
  -- and did not reject the call: the answer is not `reject`, and it is `approve` or `edit`, or a
  -- dict whose list of decisions, if it has one, does not begin with a rejection, or it is no dict
  -- and true. The tool is then called once.
  pub wrap_tool_call_guarded :
      (wrap_tool_call m a call w).1.tool_calls ≢ w.tool_calls
      → ((check_tool_call m.session_id w.budget).0 ≡ ok tt)
        × (a.rate_allowed ≡ true)
        × ((risk_le (m.risk_of_tool call.name) m.auto_approve_threshold ≡ true) ⊎ IsPermitted m a)
        × ((wrap_tool_call m a call w).1.tool_calls ≡ w.tool_calls ++ call ∷ [])
  wrap_tool_call_guarded called =
      let (room, allowed, passes, runs) = wrap_calls m a call w called in
      let (kept, _) = await_hitl_keeps m a call w in
      let (once, _) = run_tool_keeps m a call waited waited.budget refl in
      (
        room,
        allowed,
        await_hitl_passes m a call w passes,
        rw runs (once ∙ ap (λ calls. calls ++ call ∷ []) kept),
      )

  -- A call that reaches its tool is charged to the session's budget exactly if the tool returns: a
  -- tool that raises leaves the budget as it was.
  pub wrap_tool_call_charges :
      (wrap_tool_call m a call w).1.tool_calls ≢ w.tool_calls
      → (wrap_tool_call m a call w).1.budget
        ≡ elim a.tool [ ok _ ↦ (record_tool_call m.session_id w.budget).1 | err _ ↦ w.budget ]
  wrap_tool_call_charges called =
      let (_, _, _, runs) = wrap_calls m a call w called in
      let (_, kept) = await_hitl_keeps m a call w in
      let (_, charged) = run_tool_keeps m a call waited w.budget kept in rw runs charged
