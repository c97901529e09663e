-- ===== src/Runs/Manage/Approval.antt =====
-- What the approval of a plan adds to a step of the run
-- (cys_core/application/use_cases/manage_run.py).
use cys_agi.Prelude.{
  String, ◌≡◌, refl, sym, ap, ◌∙◌, Option, none, some, List, [], ◌∷◌, string_eq, pair_eq, ok, ◌⊎◌,
  inl, inr,
}
use cys_agi.Dict
use cys_agi.Floats.{FloatOps}
use cys_agi.Policy.{agent}
use cys_agi.Spawn.{RunContext}
use cys_agi.Todos.{WorkTodo}
use cys_agi.Runs.{WorkPlan, RunState, RunDesk, state_key, get_state, upsert, replace_todos}
use cys_agi.Runs.Turn.{StepPorts}
use cys_agi.Runs.Step.Execute.{execute}
use cys_agi.Runs.Manage.{
  approve, with_mode, get_context, save_context, file_todos, file_plan, approved_desk, accept_plan,
  approve_plan, step,
}

-- There are no todos, or they are those of the state and of their store.
abbrev pub HasTodos : {F : Type 0} → List WorkTodo → RunState → RunDesk F → Type 0
HasTodos todos s d =
    (todos ≡ [])
    ⊎ ((s.todos ≡ todos)
        × (Dict.get d.todo_lists (s.run_context.tenant_id, s.run_context.context_id) ≡ some todos))

abbrev pub IsFiled : {F : Type 0} → Option WorkPlan → RunState → RunDesk F → Type 0
IsFiled none s d = Unit
IsFiled (some work) s d = HasTodos work.todos s d

-- the state with the context of an approved plan
abbrev in_agent_mode : RunState → RunState
in_agent_mode s = record s { run_context = with_mode agent s.run_context }

module _ {F : Type 0} where
  upsert-same :
      (d : RunDesk F) (s : RunState)
      → get_state d (state_key s.run_context) ≡ some s
      → upsert s d ≡ d
  unfolding upsert get_state
  upsert-same d s found = ap (λ m. record d { states = m }) (Dict.set-get d.states _ s found)

  replace-same :
      (d : RunDesk F) (tenant_id context_id : String) (todos : List WorkTodo)
      → Dict.get d.todo_lists (tenant_id, context_id) ≡ some todos
      → replace_todos tenant_id context_id todos d ≡ d
  unfolding replace_todos
  replace-same d tenant_id context_id todos found =
      ap (λ m. record d { todo_lists = m }) (Dict.set-get d.todo_lists _ todos found)

  file_todos-same :
      (todos : List WorkTodo) (s : RunState) (d : RunDesk F)
      → get_state d (state_key s.run_context) ≡ some s
      → HasTodos todos s d
      → file_todos s.run_context todos s d ≡ d
  file_todos-same [] s d found filed = upsert-same d s found
  file_todos-same (t ∷ ts) s d found (inl empty) = cc
  file_todos-same (t ∷ ts) s d found (inr (same, stored)) =
      ap
        (λ l.
          upsert (record s { todos = l })
            (replace_todos s.run_context.tenant_id s.run_context.context_id (t ∷ ts) d))
        (sym same)
      ∙ (ap (upsert s) (replace-same d _ _ (t ∷ ts) stored) ∙ upsert-same d s found)

  file_plan-same :
      (chosen : Option WorkPlan) (s : RunState) (d : RunDesk F)
      → s.plan ≡ chosen
      → get_state d (state_key s.run_context) ≡ some s
      → IsFiled chosen s d
      → file_plan s.run_context chosen s d ≡ d
  file_plan-same none s d planned found filed =
      ap (λ c. upsert (record s { plan = c }) d) (sym planned) ∙ upsert-same d s found
  file_plan-same (some work) s d planned found filed =
      ap (λ c. file_todos s.run_context work.todos (record s { plan = c }) d) (sym planned)
      ∙ file_todos-same work.todos s d found filed

  save_context-found :
      (ctx : RunContext) (d : RunDesk F) (s : RunState)
      → get_state d (state_key ctx) ≡ some s
      → save_context ctx "" d ≡ upsert (record s { run_context = ctx }) d
  unfolding save_context
  save_context-found ctx d s found = rw (found, save_context) refl

  get_state-upsert :
      (s : RunState) (d : RunDesk F) → get_state (upsert s d) (state_key s.run_context) ≡ some s
  unfolding get_state upsert
  get_state-upsert s d = Dict.get-set_self d.states (state_key s.run_context) s

  IsFiled-save :
      (chosen : Option WorkPlan) (s : RunState) (d : RunDesk F)
      → IsFiled chosen s d
      → IsFiled chosen (in_agent_mode s) (upsert (in_agent_mode s) d)
  unfolding upsert
  IsFiled-save none s d filed = tt
  IsFiled-save (some work) s d filed = filed

  approved_desk-same :
      (d : RunDesk F) (s : RunState)
      → IsFiled s.plan s d
      → approved_desk (with_mode agent s.run_context) none (upsert (in_agent_mode s) d)
        ≡ upsert (in_agent_mode s) d
  unfolding approved_desk
  approved_desk-same d s filed =
      let s' = in_agent_mode s in
      let stored = get_state-upsert s' d in
      rw (stored, approved_desk)
        (file_plan-same s'.plan s' (upsert s' d) refl stored (IsFiled-save s.plan s d filed))

module _ {F : Type 0} ⦃fl : FloatOps F⦄ (p : StepPorts F) where
  accept_plan-same :
      (d : RunDesk F) (s : RunState)
      → get_state d (state_key s.run_context) ≡ some s
      → IsFiled s.plan s d
      → accept_plan p s.run_context none d
        ≡ execute p
            (with_mode agent s.run_context)
            "execute approved plan"
            "conductor"
            (save_context (with_mode agent s.run_context) "" d)
  unfolding accept_plan
  accept_plan-same d s found filed =
      let ctx = with_mode agent s.run_context in
      let saved = save_context-found ctx d s found in
      ap (execute p ctx "execute approved plan" "conductor")
        (rw saved (approved_desk-same d s filed))

  -- An approval that edits nothing does exactly what a step in agent mode does with the text of the
  -- approval, if the todos of the run's plan, if there are some, are those of the state and of their
  -- store.
  pub approve_plan-step :
      (run_id actor tenant_id : String) (d : RunDesk F) (s : RunState)
      → get_context d run_id tenant_id ≡ ok s.run_context
      → get_state d (state_key s.run_context) ≡ some s
      → IsFiled s.plan s d
      → approve_plan p run_id
          (record { decision = approve; edited_plan = none; actor = actor })
          tenant_id
          d
        ≡ step p run_id "execute approved plan" tenant_id (some agent) "conductor" d
  unfolding approve_plan step
  approve_plan-step run_id actor tenant_id d s there found filed =
      rw (there, approve_plan, step) (accept_plan-same d s found filed)
