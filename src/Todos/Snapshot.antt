-- ===== src/Todos/Snapshot.antt =====
-- What a conductor is shown of the todos: `format_todo_snapshot` of
-- cys_core/application/runs/plan_helpers.py, and `has_failed_todos` of plan_strict.py beside it.
use Prim.Native.String.{◌++◌ as ◌<>◌}
use cys_agi.Prelude.{ℕ, suc, String, Bool, true, false, List, [], ◌∷◌, truthy, any, if◌then◌else◌}
use cys_agi.Todos.{TodoStatus, pending, in_progress, done, failed, cancelled, WorkTodo}

-- `status.value.upper()`
abbrev upper_value : TodoStatus → String
upper_value pending = "PENDING"
upper_value in_progress = "IN_PROGRESS"
upper_value done = "DONE"
upper_value failed = "FAILED"
upper_value cancelled = "CANCELLED"

abbrev is_failed : TodoStatus → Bool
is_failed failed = true
is_failed _ = false

-- `"\n".join(lines)` of a first line and the others
abbrev pub join_lines : String → List String → String
join_lines line [] = line
join_lines line (next ∷ rest) = line <> ("\n" <> join_lines next rest)

module _ (text_of_index : ℕ → String) where
  abbrev todo_line : ℕ → WorkTodo → String
  todo_line index todo =
      let note =
        if truthy todo.assigned_persona then " — assigned: " <> todo.assigned_persona else "" in
      text_of_index index
      <> (". " <> (upper_value todo.status <> (" — " <> (todo.content <> note))))

  -- the lines of the todos from an index on, and the last line
  abbrev todo_lines : ℕ → List WorkTodo → List String
  todo_lines index [] =
      "Update every turn: set plan_delta.todos with id, content, status (pending|in_progress|done|failed|cancelled), and optional note."
      ∷ []
  todo_lines index (todo ∷ todos) = todo_line index todo ∷ todo_lines (suc index) todos

  unfoldable pub format_todo_snapshot : List WorkTodo → String
  format_todo_snapshot [] =
      "Plan progress (todo.md): no steps yet. Emit plan_delta with numbered todos."
  format_todo_snapshot (todo ∷ todos) =
      join_lines "Plan progress (todo.md):" (todo_lines 1 (todo ∷ todos))

unfoldable pub has_failed_todos : List WorkTodo → Bool
has_failed_todos todos = any (λ (t : WorkTodo). is_failed t.status) todos
