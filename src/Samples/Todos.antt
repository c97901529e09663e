-- ===== src/Samples/Todos.antt =====
-- The todos of a run at concrete inputs.
use mathlib.Core.List.{Memᴰ}
use cys_agi.Prelude.{◌≡◌, refl, some, List, [], ◌∷◌, string_eq}
use cys_agi.Json.{Fields, str, arr, obj, item, end, field, nil, lookup}
use cys_agi.Todos.{
  WorkTodo, TextPorts, done, pending, by_id, status_of, normalize_status, given, updated,
  merge_todo, merge_items, apply_updates, apply_plan_delta,
}
use cys_agi.Dict.{get, set}
use cys_agi.Todos.Merging.{Survives, apply_plan_delta-Survives}

abbrev ports : TextPorts
ports = record { text_of = λ v. "value"; text_of_index = λ n. "1"; lowered = λ s. s }

abbrev collect : WorkTodo
collect = record {
  id = "1";
  content = "collect the logs";
  status = done;
  assigned_persona = "soc";
  depends_on = [];
}

abbrev report : WorkTodo
report = record {
  id = "2";
  content = "report";
  status = pending;
  assigned_persona = "";
  depends_on = "1" ∷ [];
}

abbrev todos : List WorkTodo
todos = collect ∷ report ∷ []

-- an update that names a persona and no status
abbrev reassign : Fields
reassign =
    field "todos" (arr (item (obj (field "id" (str "1") (field "persona" (str "dfir") nil))) end))
      nil

-- the todo that was done is pending again
reassign_resets :
    apply_plan_delta ports todos reassign
    ≡ record collect { status = pending; assigned_persona = "dfir" } ∷ report ∷ []
unfolding apply_plan_delta apply_updates merge_items merge_todo updated given normalize_status
    status_of by_id get set lookup
reassign_resets = refl

collect_is_last : get (by_id [] todos) "1" ≡ some collect
unfolding by_id get set lookup
collect_is_last = refl

apply_plan_delta-Survives_example :
    (new : WorkTodo) × Memᴰ new (apply_plan_delta ports todos reassign) × Survives collect new
apply_plan_delta-Survives_example =
    apply_plan_delta-Survives ports todos reassign collect collect_is_last
