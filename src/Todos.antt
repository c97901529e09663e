-- ===== src/Todos.antt =====
-- The todos of an interactive run: cys_core/application/runs/plan_helpers.py, `apply_plan_delta`,
-- and the policy on it of cys_core/application/runs/plan_strict.py, on the records of
-- cys_core/domain/runs/plan_models.py. Printing, `lower` and `strip` of texts are ports.
pub mod Merging
pub mod Snapshot
use cys_agi.Prelude.{
  ℕ, suc, String, Bool, Option, none, some, List, [], ◌∷◌, truthy, ◌or_else◌, string_eq, ◌==◌,
  if◌then◌else◌,
}
use cys_agi.Dict.{Dict, get, set, values}
use cys_agi.Json.{Value, Items, Fields, str, arr, obj, end, item, lookup, is_true}

pub data TodoStatus : Type 0 where
  pending in_progress done failed cancelled : TodoStatus

pub record WorkTodo : Type 0 where
  pub id : String
  pub content : String
  pub status : TodoStatus
  pub assigned_persona : String
  pub depends_on : List String

pub record TextPorts : Type 0 where
  -- `str(value)` of a value that is no text, and `str(index)`
  pub text_of : Value → String
  pub text_of_index : ℕ → String
  -- `raw.lower().strip()`
  pub lowered : String → String

-- `TodoStatus(value)` of a valid status, and `TodoStatus.PENDING` for any other
unfoldable pub status_of : String → TodoStatus
status_of s =
    if s == "in_progress"
    then in_progress
    else if s == "done"
    then done
    else if s == "failed"
    then failed
    else if s == "cancelled"
    then cancelled
    else pending

-- `item.get(key)`, if it is true
unfoldable pub given : Fields → String → Option Value
given d key = elim (lookup d key) [ none ↦ none | some v ↦ if is_true v then some v else none ]

-- the first of the given entries
abbrev pub first_given : Fields → List String → Option Value
first_given d [] = none
first_given d (key ∷ keys) =
    let rest = first_given d keys in elim (given d key) [ none ↦ rest | some v ↦ some v ]

-- `{t.id: t.model_copy() for t in todos}`
unfoldable pub by_id : Dict String WorkTodo → List WorkTodo → Dict String WorkTodo
by_id m [] = m
by_id m (t ∷ ts) = by_id (set m t.id t) ts

module _ (p : TextPorts) where
  -- `str(value or default)`
  abbrev pub text_or : String → Option Value → String
  text_or default none = default
  text_or default (some (str s)) = s
  text_or default (some v) = p.text_of v

  -- `_normalize_status`, as a `TodoStatus`
  unfoldable pub normalize_status : String → TodoStatus
  normalize_status raw = status_of (p.lowered raw)

  -- what an update says: the id, the content, the status and the persona
  abbrev pub todo_of : Fields → ℕ → WorkTodo
  todo_of d index = record {
    id = text_or (p.text_of_index (suc index)) (first_given d ("id" ∷ "step" ∷ []));
    content = text_or "" (first_given d ("content" ∷ "title" ∷ "description" ∷ []));
    status = normalize_status (text_or "pending" (first_given d ("status" ∷ [])));
    assigned_persona = text_or "" (first_given d ("assigned_persona" ∷ "persona" ∷ []));
    depends_on = [];
  }

-- `existing.model_copy(update=...)`
unfoldable pub updated : WorkTodo → WorkTodo → WorkTodo
updated existing update = record existing {
  content = update.content or_else existing.content;
  status = update.status;
  assigned_persona = update.assigned_persona or_else existing.assigned_persona;
}

-- the body of the loop, for what an update says
unfoldable pub merge_todo : Dict String WorkTodo → WorkTodo → Dict String WorkTodo
merge_todo m update = elim (get m update.id) [
  | some existing ↦ set m update.id (updated existing update)
  | none ↦ if truthy update.content then set m update.id update else m
]

module _ (p : TextPorts) where
  -- the loop; an item that is no dict counts in the index
  unfoldable pub merge_items : Dict String WorkTodo → ℕ → Items → Dict String WorkTodo
  unfolding merge_todo
  merge_items m index end = m
  merge_items m index (item (obj d) rest) =
      merge_items (merge_todo m (todo_of p d index)) (suc index) rest
  merge_items m index (item _ rest) = merge_items m (suc index) rest

  -- the todos after the given updates, which are ignored unless they are a list
  unfoldable pub apply_updates : List WorkTodo → Option Value → List WorkTodo
  apply_updates todos (some (arr updates)) = values (merge_items (by_id [] todos) 0 updates)
  apply_updates todos _ = todos

  unfoldable pub apply_plan_delta : List WorkTodo → Fields → List WorkTodo
  apply_plan_delta todos delta = apply_updates todos (first_given delta ("todos" ∷ "steps" ∷ []))

  -- `merge_plan_delta_with_policy`, with the strictness of the arguments or of the settings
  abbrev pub merge_plan_delta_with_policy : Bool → List WorkTodo → Fields → List WorkTodo
  merge_plan_delta_with_policy strict todos delta =
      if strict then todos else apply_plan_delta todos delta
