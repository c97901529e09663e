-- ===== src/Todos/Merging.antt =====
-- What an update of the plan leaves of the todos
-- (cys_core/application/runs/plan_helpers.py, `apply_plan_delta`).
use mathlib.Core.List.{Memᴰ}
use cys_agi.Prelude.{
  ℕ, suc, String, ◌≡◌, refl, true, false, Option, none, some, List, [], ◌∷◌, string_eq, truthy,
  ◌==◌, arith, Bool-cases, Option-cases, inl, inr, ◌⊎◌,
}
use cys_agi.Dict.{Dict, get, set, values, get-set, none≢some}
use cys_agi.Json.{Value, Items, Fields, str, null, bool, nat, number, arr, obj, end, item}
use cys_agi.Todos.{
  WorkTodo, TextPorts, todo_of, by_id, updated, merge_todo, merge_items, apply_updates,
  apply_plan_delta, first_given,
}

-- `new` has the id and the dependencies of `old`, and its content is not empty unless that of `old`
-- was.
abbrev pub Survives : WorkTodo → WorkTodo → Type 0
Survives old new =
    (new.id ≡ old.id)
    × (new.depends_on ≡ old.depends_on)
    × (truthy old.content ≡ true → truthy new.content ≡ true)

abbrev Kept : Dict String WorkTodo → String → WorkTodo → Type 0
Kept m key old = (new : WorkTodo) × (get m key ≡ some new) × Survives old new

Survives-updated :
    (old new update : WorkTodo) → Survives old new → Survives old (updated new update)
unfolding updated
Survives-updated old new update s = (s.0, s.1, λ full. ground (arith, s.2 full))

get-merge_todo_other :
    (m : Dict String WorkTodo) (key : String) (new update : WorkTodo)
    → get m key ≡ some new
    → (update.id == key) ≡ false
    → get (merge_todo m update) key ≡ some new
unfolding merge_todo
get-merge_todo_other m key new update found other = elim (Option-cases (get m update.id)) [
  | inr (existing, there) ↦
      ground (arith, found, other, there, get-set m update.id key (updated existing update))
  | inl gone ↦ ground (arith, found, other, gone, get-set m update.id key update)
]

Kept-merge_todo :
    (m : Dict String WorkTodo) (key : String) (old update : WorkTodo)
    → Kept m key old
    → Kept (merge_todo m update) key old
unfolding merge_todo
Kept-merge_todo m key old update (new, found, s) = elim (Bool-cases (update.id == key)) [
  | inl same ↦ (
    updated new update,
    ground (
      arith,
      found,
      (string_eq.beq_iff update.id key).0 same,
      get-set m update.id key (updated new update),
    ),
    Survives-updated old new update s,
  )
  | inr other ↦ (new, get-merge_todo_other m key new update found other, s)
]

module _ (p : TextPorts) where
  Kept-merge_items :
      (m : Dict String WorkTodo) (index : ℕ) (items : Items) (key : String) (old : WorkTodo)
      → Kept m key old
      → Kept (merge_items p m index items) key old
  unfolding merge_items
  Kept-merge_items m index end key old k = k
  Kept-merge_items m index (item (obj d) rest) key old k =
      Kept-merge_items (merge_todo m (todo_of p d index)) (suc index) rest key old
        (Kept-merge_todo m key old (todo_of p d index) k)
  Kept-merge_items m index (item null rest) key old k =
      Kept-merge_items m (suc index) rest key old k
  Kept-merge_items m index (item (bool _) rest) key old k =
      Kept-merge_items m (suc index) rest key old k
  Kept-merge_items m index (item (nat _) rest) key old k =
      Kept-merge_items m (suc index) rest key old k
  Kept-merge_items m index (item (number _ _) rest) key old k =
      Kept-merge_items m (suc index) rest key old k
  Kept-merge_items m index (item (str _) rest) key old k =
      Kept-merge_items m (suc index) rest key old k
  Kept-merge_items m index (item (arr _) rest) key old k =
      Kept-merge_items m (suc index) rest key old k

Mem-values :
    (m : Dict String WorkTodo) (key : String) (t : WorkTodo)
    → get m key ≡ some t
    → Memᴰ t (values m)
unfolding get
Mem-values [] key t found = absurd (none≢some found)
Mem-values ((j, w) ∷ m) key t found = elim (Bool-cases (j == key)) [
  | inl same ↦ Memᴰ.head (ground (arith, found, same))
  | inr other ↦ Memᴰ.tail (Mem-values m key t (rw other at found))
]

Mem-by_id :
    (m : Dict String WorkTodo) (todos : List WorkTodo) (key : String) (t : WorkTodo)
    → get (by_id m todos) key ≡ some t
    → (get m key ≡ some t) ⊎ Memᴰ t todos
unfolding by_id
Mem-by_id m [] key t found = inl found
Mem-by_id m (x ∷ todos) key t found = elim (Mem-by_id (set m x.id x) todos key t found) [
  | inr later ↦ inr (Memᴰ.tail later)
  | inl here ↦ elim (Bool-cases (x.id == key)) [
    | inl same ↦ inr (Memᴰ.head (ground (arith, here, same, get-set m x.id key x)))
    | inr other ↦ inl (ground (arith, here, other, get-set m x.id key x))
  ]
]

module _ (p : TextPorts) where
  updates-Survives :
      (todos : List WorkTodo) (updates : Items) (old : WorkTodo)
      → get (by_id [] todos) old.id ≡ some old
      → (new : WorkTodo) × Memᴰ new (values (merge_items p (by_id [] todos) 0 updates))
        × Survives old new
  updates-Survives todos updates old found =
      let merged = merge_items p (by_id [] todos) 0 updates in
      let kept : Kept merged old.id old =
        Kept-merge_items p (by_id [] todos) 0 updates old.id old
          (old, found, (refl, refl, λ full. full)) in
      (kept.0, Mem-values merged old.id kept.0 kept.1, kept.2)

  ignored-Survives :
      (todos : List WorkTodo) (old : WorkTodo)
      → get (by_id [] todos) old.id ≡ some old
      → (new : WorkTodo) × Memᴰ new todos × Survives old new
  unfolding get
  ignored-Survives todos old found = elim (Mem-by_id [] todos old.id old found) [
    | inl here ↦ absurd (none≢some here)
    | inr there ↦ (old, there, (refl, refl, λ full. full))
  ]

  apply_updates-Survives :
      (todos : List WorkTodo) (updates : Option Value) (old : WorkTodo)
      → get (by_id [] todos) old.id ≡ some old
      → (new : WorkTodo) × Memᴰ new (apply_updates p todos updates) × Survives old new
  unfolding apply_updates
  apply_updates-Survives todos none old found = ignored-Survives todos old found
  apply_updates-Survives todos (some (arr updates)) old found =
      updates-Survives todos updates old found
  apply_updates-Survives todos (some null) old found = ignored-Survives todos old found
  apply_updates-Survives todos (some (bool _)) old found = ignored-Survives todos old found
  apply_updates-Survives todos (some (nat _)) old found = ignored-Survives todos old found
  apply_updates-Survives todos (some (number _ _)) old found = ignored-Survives todos old found
  apply_updates-Survives todos (some (str _)) old found = ignored-Survives todos old found
  apply_updates-Survives todos (some (obj _)) old found = ignored-Survives todos old found

  -- Whatever an update of the plan says: of a todo that is the only one of its id, or the last one,
  -- the todos hold one afterwards that has its id and its dependencies, and whose content is not
  -- empty unless its own was.
  pub apply_plan_delta-Survives :
      (todos : List WorkTodo) (delta : Fields) (old : WorkTodo)
      → get (by_id [] todos) old.id ≡ some old
      → (new : WorkTodo) × Memᴰ new (apply_plan_delta p todos delta) × Survives old new
  unfolding apply_plan_delta
  apply_plan_delta-Survives todos delta old found =
      apply_updates-Survives todos (first_given delta ("todos" ∷ "steps" ∷ [])) old found
