-- ===== src/Spawn/Depth.antt =====
-- How deep workers can spawn workers (cys_core/application/spawn_broker.py).
use cys_agi.Prelude.{
  ℕ, ◌+◌, ◌≤◌, String, ◌≡◌, refl, ◌∙◌, Option, none, some, List, [], ◌∷◌, length, arith,
  Option-cases, inl, inr,
}
use cys_agi.Floats.{FloatOps}
use cys_agi.Dict.{none≢some}
use cys_agi.Json.{Value, lookup}
use cys_agi.Policy.{InteractionMode}
use cys_agi.Spawn.{
  RunContext, SpawnWorkerPayload, SubagentSpawnBroker, validate, to_worker_job, from_job,
  max_spawn_depth, spawn_child, payload_depth, int,
}

-- What one worker asks for: a persona and a goal, in a mode, and the id that its job gets.
pub record Wish : Type 0 where
  pub persona : String
  pub parent_persona : String
  pub sub_goal : String
  pub overlay : String
  pub mode : Option InteractionMode
  pub fresh : String

abbrev pub payload_of : RunContext → Wish → SpawnWorkerPayload
payload_of c w = record {
  parent_context = c;
  persona = w.persona;
  sub_goal = w.sub_goal;
  persona_overlay = w.overlay;
}

module _ {F : Type 0} ⦃fl : FloatOps F⦄ (b : SubagentSpawnBroker F) (other : Value → Option ℕ) where
  -- The context of the job that one worker spawns.
  abbrev pub child_of : RunContext → Wish → Option RunContext
  child_of c w = from_job {F = F} other (to_worker_job w.fresh (payload_of c w) "")

  -- A line of workers, each spawned by the one before: the last one's context, and `none` once the
  -- broker refuses.
  unfoldable pub descend : RunContext → List Wish → Option RunContext
  descend c [] = some c
  descend c (w ∷ wishes) = elim (validate b (payload_of c w) w.mode c.profile_id w.parent_persona) [
    | some _ ↦ none
    | none ↦ elim (child_of c w) [ none ↦ none | some child ↦ descend child wishes ]
  ]

  child_of_depth :
      (c : RunContext) (w : Wish)
      → (child : RunContext) × (child_of c w ≡ some child)
        × (child.spawn_depth ≡ c.spawn_depth + 1)
        × (child.tenant_id ≡ c.tenant_id)
  unfolding to_worker_job from_job payload_depth int lookup spawn_child
  child_of_depth c w = (_, refl, refl, refl)

  validate_depth :
      (c : RunContext) (w : Wish)
      → validate b (payload_of c w) w.mode c.profile_id w.parent_persona ≡ none
      → c.spawn_depth + 1 ≤ max_spawn_depth
  unfolding validate
  validate_depth c w accepted = ground arith

  -- However workers spawn workers, and whatever the catalog and the policies say: from a context
  -- that is not too deep, the last of a line of `n` workers that the broker accepts is `n` deeper,
  -- at a depth of at most five, and works for the same tenant. So no line has more than five.
  pub descend_bounded :
      (c last : RunContext) (wishes : List Wish)
      → c.spawn_depth ≤ max_spawn_depth
      → descend c wishes ≡ some last
      → (last.spawn_depth ≡ c.spawn_depth + length wishes)
        × (last.spawn_depth ≤ max_spawn_depth)
        × (last.tenant_id ≡ c.tenant_id)
  unfolding descend
  descend_bounded c last [] shallow reached = (ground arith, ground arith, ground arith)
  descend_bounded c last (w ∷ wishes) shallow reached =
      elim (Option-cases (validate b (payload_of c w) w.mode c.profile_id w.parent_persona)) [
        | inr (refusal, refused) ↦ absurd (none≢some (rw (refused, descend) at reached))
        | inl accepted ↦
            let (child, made, deeper, same) = child_of_depth c w in
            let (depth, bounded, tenant) =
              descend_bounded child last wishes (omega (arith, deeper, validate_depth c w accepted))
                (rw (accepted, descend, made) at reached) in
            (omega (arith, depth, deeper), bounded, tenant ∙ same)
      ]
