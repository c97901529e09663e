-- ===== src/Runs/Prompt.antt =====
-- What a step of a run asks the runtime: `_build_step_prompt` of
-- cys_core/application/use_cases/run_step.py, the hints on attachments of
-- cys_core/application/runs/attachment_hints.py and on tasks of
-- cys_core/application/use_cases/analyze_task_hints.py. Printing and the methods of texts are ports.
use Prim.Native.String.{◌++◌ as ◌<>◌}
use cys_agi.Prelude.{
  String, Bool, true, false, not, ◌&&◌, ◌||◌, Option, none, some, List, [], ◌∷◌, ◌++◌, map, any,
  elem, keep, truthy, ◌or_else◌, string_eq, ◌==◌, if◌then◌else◌,
}
use cys_agi.Json.{
  Value, Items, Fields, nat, bool, str, arr, obj, end, item, nil, field, lookup, is_true, put,
  is_nonempty,
}
use cys_agi.Policy.{InteractionMode, plan, ask, agent, debug}
use cys_agi.Spawn.{RunContext}
use cys_agi.Todos.{WorkTodo, TextPorts, text_or}
use cys_agi.Todos.Snapshot.{format_todo_snapshot}
use cys_agi.Runs.{RunState}

-- The texts and the settings that a prompt is made of.
pub record PromptPorts : Type 0 where
  pub texts : TextPorts
  -- `Path(path).suffix.lower().lstrip(".")`
  pub suffix : String → String
  pub dumps : Value → String
  pub dump_context : RunContext → Value
  pub dump_todos : List WorkTodo → Value
  pub plan_hints : Value
  pub skill_catalog : String → Value
  pub strict_plan : Bool

unfoldable pub file_type : String → String
file_type ext =
    if elem ext ("jpg" ∷ "jpeg" ∷ "png" ∷ "gif" ∷ "webp" ∷ [])
    then "image"
    else if elem ext ("xlsx" ∷ "xls" ∷ "csv" ∷ [])
    then "spreadsheet"
    else if elem ext ("json" ∷ "jsonld" ∷ [])
    then "json"
    else if ext == "pdf"
    then "pdf"
    else if elem ext ("docx" ∷ "doc" ∷ [])
    then "document"
    else if elem ext ("pptx" ∷ "ppt" ∷ [])
    then "presentation"
    else if elem ext ("html" ∷ "htm" ∷ [])
    then "html"
    else if elem ext ("wav" ∷ "mp3" ∷ "m4a" ∷ [])
    then "audio"
    else if ext == "zip"
    then "archive"
    else if elem ext ("txt" ∷ "md" ∷ "log" ∷ [])
    then "text"
    else ext or_else "unknown"

-- what a hint says of a kind of file
unfoldable pub advice : String → String
advice kind =
    if kind == "image"
    then "use vision_analyze for charts/screenshots; read_document for OCR text fallback."
    else if kind == "spreadsheet"
    then "use read_document first; for calculations use python_sandbox (HITL)."
    else if kind == "json"
    then "use read_document; parse structured fields with python_sandbox if needed."
    else if elem kind ("pdf" ∷ "document" ∷ "presentation" ∷ "html" ∷ [])
    then "use read_document to extract text before synthesis."
    else if kind == "audio"
    then "use transcribe_audio tool, then analyze transcript."
    else if kind == "archive"
    then "archive file — extract contents before analysis (python_sandbox)."
    else "use read_document for local file content."

-- `json.dumps` takes a list of texts
abbrev pub text_items : List String → Items
text_items [] = end
text_items (x ∷ xs) = item (str x) (text_items xs)

-- the value of a mode
abbrev pub mode_value : InteractionMode → String
mode_value plan = "plan"
mode_value ask = "ask"
mode_value agent = "agent"
mode_value debug = "debug"

-- `ctx.mode or InteractionMode.AGENT`
abbrev pub mode_of : RunContext → InteractionMode
mode_of ctx = elim ctx.mode [ none ↦ agent | some mode ↦ mode ]

-- `if test: payload[key] = value`
abbrev put_if : Bool → String → Value → Fields → Fields
put_if test key v payload = if test then put payload key v else payload

module _ (p : PromptPorts) where
  unfoldable pub process_attachment_hints : List String → List String
  process_attachment_hints paths =
      map (λ path. path <> (": " <> advice (file_type (p.suffix path)))) paths

  -- `_attachment_paths`
  unfoldable pub attachment_paths : Items → List String
  attachment_paths end = []
  attachment_paths (item (obj d) rest) =
      let paths = attachment_paths rest in
      elim (lookup d "path") [
        | none ↦ paths
        | some v ↦ if is_true v then text_or p.texts "" (some v) ∷ paths else paths
      ]
  attachment_paths (item (str s) rest) = s ∷ attachment_paths rest
  attachment_paths (item _ rest) = attachment_paths rest

  -- the payload of a prompt, before it is printed
  unfoldable pub step_payload : RunState → String → RunContext → List WorkTodo → Fields
  unfolding attachment_paths process_attachment_hints
  step_payload state user_input ctx todos =
      let base : Fields = field "goal" (str (state.goal or_else user_input)) (
        field "mode" (str (mode_value (mode_of ctx))) (
          field "input" (str user_input) (
            field "run_context" (p.dump_context ctx) (
              field "routing_hints" p.plan_hints (
                field "skill_catalog" (p.skill_catalog ctx.profile_id) (
                  field "todo_snapshot" (str (format_todo_snapshot p.texts.text_of_index todos)) (
                    field "todos" (p.dump_todos todos)
                      (field "strict_plan" (bool p.strict_plan) nil)))))))) in
      let paths = attachment_paths state.attachments in
      let attached : Bool = elim paths [ [] ↦ false | _ ∷ _ ↦ true ] in
      let noted : Bool = elim state.reasoning_notes [ [] ↦ false | _ ∷ _ ↦ true ] in
      put_if (is_true (nat state.trace_rerun_count)) "trace_rerun_count"
        (nat state.trace_rerun_count)
        (put_if (is_nonempty state.last_trace_verdict) "last_trace_verdict"
          (obj state.last_trace_verdict)
          (put_if attached "attachment_hints" (arr (text_items (process_attachment_hints paths))) (
            put_if attached "attachments" (arr state.attachments) (
              put_if (truthy state.context_summary) "context_summary" (str state.context_summary)
                (put_if noted "task_hints" (arr (text_items state.reasoning_notes)) base)))))

  unfoldable pub build_step_prompt : RunState → String → RunContext → List WorkTodo → String
  build_step_prompt state user_input ctx todos =
      p.dumps (obj (step_payload state user_input ctx todos))

-- The model that gives hints, and the methods of texts: `lower`, `in`, `strip` with
-- `splitlines` and the dashes cut, and whether a text is blank.
pub record HintPorts : Type 0 where
  pub lower : String → String
  pub contains : (text part : String) → Bool
  pub is_blank : String → Bool
  pub bullet_lines : String → List String
  pub model : Option (String → String)

module _ (h : HintPorts) where
  abbrev mentions : String → List String → Bool
  mentions text parts = any (λ part. h.contains text part) parts

  -- `_heuristic_hints`
  unfoldable pub heuristic_hints : String → List String
  heuristic_hints task =
      let lower = h.lower task in
      (if mentions lower ("ip" ∷ "domain" ∷ "hash" ∷ []) && not (h.contains lower "time")
        then "IOC present but time window may be unspecified — confirm lookback period." ∷ []
        else [])
      ++ ((if mentions lower ("powershell" ∷ "encoded" ∷ [])
            then "Encoded PowerShell alerts are often noisy — verify parent process and user context."
              ∷ []
            else [])
          ++ (if mentions lower ("critical" ∷ "urgent" ∷ [])
              then "High-severity language detected — validate scope before destructive actions."
                ∷ []
              else []))

  -- `AnalyzeTaskHints.execute`; the model is given the task and answers a text
  unfoldable pub task_hints : String → List String
  unfolding heuristic_hints
  task_hints task = if h.is_blank task then [] else elim h.model [
    | none ↦ heuristic_hints task
    | some invoke ↦
        if h.is_blank (invoke task) || h.contains (h.lower (invoke task)) "no major pitfalls"
        then []
        else keep truthy (h.bullet_lines (invoke task))
  ]
