-- ===== src/Memory/Personas.antt =====
-- Which personas of an investigation are done
-- (cys_core/infrastructure/memory/stores.py).
use cys_agi.Prelude.{
  String, ◌≡◌, refl, ap, ◌∙◌, ◌&&◌, ◌||◌, none, some, List, [], ◌∷◌, ◌++◌, elem, any-append, arith,
  string_eq, pair_eq, ◌==◌, if◌then◌else◌, Bool-cases, inl, inr,
}
use cys_agi.Dict
use cys_agi.Json.{Fields}
use cys_agi.Memory.{
  InvestigationState, InvestigationStates, append_finding, mark_persona_done, state_or_new,
}

-- The personas that are done in an investigation, none if there is no state of it.
unfoldable pub completed : InvestigationStates → String × String → List String
completed states key = elim (Dict.get states key) [
  | none ↦ []
  | some state ↦ state.completed_personas
]

completed-set :
    (states : InvestigationStates) (k key : String × String) (s : InvestigationState)
    → completed (Dict.set states k s) key
      ≡ (if k == key then s.completed_personas else completed states key)
unfolding completed
completed-set states k key s = ground (arith, Dict.get-set states k key s)

completed-state_or_new :
    (states : InvestigationStates) (t i : String)
    → (state_or_new states t i).completed_personas ≡ completed states (t, i)
unfolding completed state_or_new
completed-state_or_new states t i = ground arith

elem_added :
    (persona other : String) (xs : List String)
    → elem other (if elem persona xs then xs else xs ++ persona ∷ [])
      ≡ (elem other xs || persona == other)
elem_added persona other xs =
    ground (arith, any-append (λ x. x == other) xs (persona ∷ []), string_eq.beq_iff persona other)

-- Marking a persona as done adds it to the personas that are done in its own investigation, and
-- changes no other investigation.
pub completed-mark_persona_done :
    (states : InvestigationStates) (tenant_id investigation_id persona other : String)
    (key : String × String)
    → elem other (completed (mark_persona_done tenant_id investigation_id persona states) key) ≡ (
        elem other (completed states key)
        || (((tenant_id, investigation_id) == key) && persona == other))
unfolding mark_persona_done
completed-mark_persona_done states t i persona other key =
    let xs = completed states (t, i) in
    rw (completed-set states (t, i) key _, completed-state_or_new states t i)
      (elim (Bool-cases ((t, i) == key)) [
        | inl own ↦ rw own (
            elem_added persona other xs
            ∙ ap (λ k. elem other (completed states k) || persona == other)
                ((pair_eq.beq_iff (t, i) key).0 own))
        | inr foreign ↦ rw foreign (ground arith)
      ])

-- A finding changes no investigation's personas that are done.
pub completed-append_finding :
    (states : InvestigationStates) (tenant_id investigation_id : String) (finding : Fields)
    (key : String × String)
    → completed (append_finding tenant_id investigation_id finding states) key
      ≡ completed states key
unfolding append_finding
completed-append_finding states t i finding key =
    rw (completed-set states (t, i) key _, completed-state_or_new states t i)
      (elim (Bool-cases ((t, i) == key)) [
        | inl own ↦ rw own (ap (completed states) ((pair_eq.beq_iff (t, i) key).0 own))
        | inr foreign ↦ rw foreign refl
      ])
