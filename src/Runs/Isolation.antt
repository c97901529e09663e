-- ===== src/Runs/Isolation.antt =====
-- What it means that the runs of one tenant stay as they were, and the writes to the stores of runs
-- that keep it (memory.py and todo_store.py of cys_core/infrastructure/runs, and
-- cys_core/infrastructure/reflexion/memory.py).
use cys_agi.Prelude.{
  String, ◌≡◌, ◌≢◌, refl, sym, ap, ◌∙◌, false, Option, some, List, keep, keep-append_refused,
  string_eq, pair_eq, ◌==◌, arith, Bool-cases, inl, inr,
}
use cys_agi.Dict
use cys_agi.Dict.{Dict, none≢some}
use cys_agi.Todos.{WorkTodo}
use cys_agi.Runs.{
  RunState, RunDesk, StateKey, ReflexionLesson, state_key, upsert, replace_todos, append_lesson,
}

differs : (a b : String) → a ≢ b → (a == b) ≡ false
differs a b apart = ground (arith, apart, string_eq.beq_iff a b)

pair_differs : (k j : StateKey) → k.0 ≢ j.0 → (k == j) ≡ false
pair_differs k j apart = ground (arith, differs k.0 j.0 apart)

some-injective : {A : Type 0} {a b : A} → some a ≡ some b → a ≡ b
some-injective e = cc

module _ {F : Type 0} where
  -- Every state stands under its own tenant.
  abbrev pub IsKeyed : RunDesk F → Type 0
  IsKeyed d =
      (key : StateKey) (s : RunState)
      → Dict.get d.states key ≡ some s
      → s.run_context.tenant_id ≡ key.0

  -- The states and the lessons of a tenant are what they were.
  pub record Untouched (tenant_id : String) (d d' : RunDesk F) : Type 0 where
    pub same_states :
        (run : String × String)
        → Dict.get d'.states (tenant_id, run) ≡ Dict.get d.states (tenant_id, run)
    pub same_lessons :
        keep (λ (l : ReflexionLesson). l.tenant_id == tenant_id) d'.lessons
        ≡ keep (λ (l : ReflexionLesson). l.tenant_id == tenant_id) d.lessons

  -- Both, with the desk of the beginning.
  abbrev pub IsIsolated : String → RunDesk F → RunDesk F → Type 0
  IsIsolated other d d' = Untouched other d d' × IsKeyed d'

  pub Untouched-refl : (other : String) (d : RunDesk F) → Untouched other d d
  Untouched-refl other d = record { same_states = λ run. refl; same_lessons = refl }

  -- What writes no states and no lessons isolates: budgets, todos and metrics may change.
  pub IsIsolated-same :
      (other : String) (d₀ d d' : RunDesk F)
      → d'.states ≡ d.states
      → d'.lessons ≡ d.lessons
      → IsIsolated other d₀ d
      → IsIsolated other d₀ d'
  IsIsolated-same other d₀ d d' states lessons (u, keyed) = (
    record {
      same_states = λ run. ap (λ m. Dict.get m (other, run)) states ∙ u.same_states run;
      same_lessons =
          ap (keep (λ (l : ReflexionLesson). l.tenant_id == other)) lessons ∙ u.same_lessons;
    },
    λ key s found. keyed key s (ap (λ m. Dict.get m key) (sym states) ∙ found),
  )

  module _ (other : String) (d₀ : RunDesk F) where
    pub IsIsolated-upsert :
        (s : RunState) (d : RunDesk F)
        → s.run_context.tenant_id ≢ other
        → IsIsolated other d₀ d
        → IsIsolated other d₀ (upsert s d)
    unfolding upsert
    IsIsolated-upsert s d apart (u, keyed) = (
      record {
        same_states = λ run.
            Dict.get-set_other d.states (state_key s.run_context) (other, run) s
              (pair_differs (state_key s.run_context) (other, run) apart)
            ∙ u.same_states run;
        same_lessons = u.same_lessons;
      },
      λ key t found. elim (Bool-cases (state_key s.run_context == key)) [
        | inl same ↦
            let at_key : Dict.get (Dict.set d.states (state_key s.run_context) s) key ≡ some s =
              Dict.get-set d.states (state_key s.run_context) key s ∙ rw same refl in
            ap (λ x. x.run_context.tenant_id) (some-injective (sym found ∙ at_key))
            ∙ ap (λ x. x.0) ((pair_eq.beq_iff (state_key s.run_context) key).0 same)
        | inr away ↦
            keyed key t
              (sym (Dict.get-set_other d.states (state_key s.run_context) key s away) ∙ found)
      ],
    )

    pub IsIsolated-todos :
        (tenant_id context_id : String) (todos : List WorkTodo) (d : RunDesk F)
        → IsIsolated other d₀ d
        → IsIsolated other d₀ (replace_todos tenant_id context_id todos d)
    unfolding replace_todos
    IsIsolated-todos tenant_id context_id todos d (u, keyed) =
        (record { same_states = u.same_states; same_lessons = u.same_lessons }, keyed)

    pub IsIsolated-lesson :
        (sanitize : String → Option String) (lesson : ReflexionLesson) (d : RunDesk F)
        → lesson.tenant_id ≢ other
        → IsIsolated other d₀ d
        → IsIsolated other d₀ (append_lesson sanitize lesson d)
    unfolding append_lesson
    IsIsolated-lesson sanitize lesson d apart (u, keyed) = (
      record {
        same_states = u.same_states;
        same_lessons =
            keep-append_refused _ d.lessons _ (differs lesson.tenant_id other apart)
            ∙ u.same_lessons;
      },
      keyed,
    )
