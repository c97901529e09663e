-- ===== src/Runs/Answer.antt =====
-- What a turn of the conductor makes of the runtime's answer: conductor_sgr.py of
-- cys_core/application/reasoning and `enrich_conductor_result` of
-- cys_core/application/use_cases/extract_structured_output.py; with the records of the critic of its
-- trace. The judge, the reasoning model, printing and the validation of pydantic are ports.
use Prim.Native.String.{◌++◌ as ◌<>◌}
use cys_agi.Prelude.{
  ℕ, String, Bool, true, false, not, ◌&&◌, ◌||◌, Option, none, some, List, [], ◌∷◌, ◌++◌, any, elem,
  string_eq, if◌then◌else◌, Result,
}
use cys_agi.Json.{
  Value, Items, Fields, nat, str, arr, obj, end, item, nil, field, lookup, has_true, put,
}
use cys_agi.Todos.{TextPorts, text_or}
use cys_agi.Runs.{RunState}
use cys_agi.Runs.Prompt.{HintPorts}

-- An exception of a run.
pub data RunFailure : Type 0 where
  run_not_found : (run_id : String) → RunFailure
  recursion_error : RunFailure
  other_exception : (text : String) → RunFailure

pub record TraceVerdict (F : Type 0) : Type 0 where
  pub score : F
  pub verdict : String
  pub reasoning : String
  pub should_rerun : Bool
  pub issues : List String

-- The fields of `TraceCriticPolicy` that a step reads, and the overrides of the environment.
pub record TraceCriticPolicy (F : Type 0) : Type 0 where
  pub threshold : F
  pub every_n_steps : ℕ
  pub rerun_max : ℕ
  pub hitl_on_exhausted : Bool

pub record CriticOverrides (F : Type 0) : Type 0 where
  pub trace_critic_threshold : Option F
  pub trace_critic_every_n_steps : Option ℕ
  pub trace_critic_rerun_max : Option ℕ

-- The answer of `judge_backend.judge`.
pub record JudgeResult (F : Type 0) : Type 0 where
  pub score : F
  pub verdict : String
  pub reasoning : String

pub record CriticPorts (F : Type 0) : Type 0 where
  pub texts : TextPorts
  pub hints : HintPorts
  pub dumps : Value → String
  pub length : String → ℕ
  -- `dump_score` is the float as a value of JSON
  pub dump_score : F → Value
  pub judge : Option ((goal output : String) → (step_count : ℕ) → Result RunFailure (JudgeResult F))
  -- `_reasoning_judge`, whose exceptions are caught
  pub reasoning_judge : (goal trace : String) → (step_count : ℕ) → Option (TraceVerdict F)
  pub policy : String → TraceCriticPolicy F
  pub env : CriticOverrides F
  -- whether `ConductorStepResult.model_validate` takes the answer, and `int(float(v) * 100)`
  pub is_step_result : Fields → Bool
  pub percent : Option Value → ℕ

-- `"; ".join(issues)`
abbrev pub join_issues : List String → String
join_issues [] = ""
join_issues (x ∷ xs) = elim xs [ [] ↦ x | _ ∷ _ ↦ x <> ("; " <> join_issues xs) ]

-- the items of a list that are dicts
abbrev dict_items : Items → Items
dict_items end = end
dict_items (item (obj d) rest) = item (obj d) (dict_items rest)
dict_items (item _ rest) = dict_items rest

-- `remaining = result.get("remaining_steps") or []`, a list with no item
abbrev nothing_remains : Fields → Bool
nothing_remains result = elim (lookup result "remaining_steps") [
  | none ↦ true
  | some (arr (item _ _)) ↦ false
  | some (arr end) ↦ true
  | some v ↦ not (has_true result "remaining_steps")
]

unfoldable pub filter_spawn_requests_by_sgr : Fields → Items
filter_spawn_requests_by_sgr result =
    if has_true result "task_completed" || (nothing_remains result && has_true result "enough_data")
    then end
    else elim (lookup result "spawn_requests") [ some (arr items) ↦ dict_items items | _ ↦ end ]

-- `note not in notes`, or it is added
abbrev pub add_note : String → List String → List String
add_note note notes = if elem note notes then notes else notes ++ note ∷ []

module _ (texts : TextPorts) where
  -- `" | ".join(str(s) for s in steps[:n])`
  abbrev join_steps : ℕ → Items → String
  join_steps Prim.Native.Nat.zero steps = ""
  join_steps (Prim.Native.Nat.suc n) end = ""
  join_steps (Prim.Native.Nat.suc n) (item v rest) =
      let more = join_steps n rest in
      let text = text_or texts "" (some v) in
      elim n [
        | Prim.Native.Nat.zero ↦ text
        | Prim.Native.Nat.suc _ ↦ elim rest [ end ↦ text | item _ _ ↦ text <> (" | " <> more) ]
      ]

  abbrev sgr_note : Items → String
  sgr_note steps = "sgr: " <> join_steps 3 steps

  unfoldable pub persist_sgr_fields_to_state : Fields → RunState → RunState
  persist_sgr_fields_to_state result state =
      let notes : List String = elim (lookup result "reasoning_steps") [
        | some (arr (item v rest)) ↦ add_note (sgr_note (item v rest)) state.reasoning_notes
        | _ ↦ state.reasoning_notes
      ] in
      let with_status : Fields = elim (lookup result "plan_status") [
        | none ↦ state.last_result
        | some v ↦
            if has_true result "plan_status"
            then put state.last_result "sgr_plan_status" v
            else state.last_result
      ] in
      record state {
        reasoning_notes = notes;
        last_result = elim (lookup result "enough_data") [
          | none ↦ with_status
          | some v ↦ put with_status "sgr_enough_data" v
        ];
      }

module _ {F : Type 0} (c : CriticPorts F) where
  -- `detect_output_schema` of a goal, with no persona
  unfoldable pub detect_output_schema : String → String
  detect_output_schema goal =
      let mentions =
        λ (parts : List String). any (λ part. c.hints.contains (c.hints.lower goal) part) parts in
      if mentions ("severity" ∷ "priority" ∷ "p0" ∷ "p1" ∷ [])
      then "finding"
      else if mentions ("timeline" ∷ [])
      then "timeline"
      else if mentions ("ioc" ∷ "indicator" ∷ [])
      then "ioc_list"
      else if mentions ("gaia" ∷ "answer" ∷ "question" ∷ [])
      then "gaia_answer"
      else "summary"

  -- `merge_structured_into_result`, for a payload that is not empty
  unfoldable pub merge_structured_into_result : Fields → Fields → Fields
  merge_structured_into_result result structured = elim (lookup result "structured_deliverable") [
    | some (obj _) ↦ result
    | _ ↦
        let merged = put result "structured_deliverable" (obj structured) in
        elim (lookup result "reply") [
          | none ↦ merged
          | some _ ↦
              if has_true merged "reply" then merged else elim (lookup structured "payload") [
                | none ↦ merged
                | some payload ↦ put merged "reply" (str (c.dumps payload))
              ]
        ]
  ]

  -- the reply of an answer that is a `ConductorStepResult`
  abbrev reply_of : Fields → String
  reply_of result = elim (lookup result "reply") [ some (str s) ↦ s | _ ↦ "" ]

  unfoldable pub enrich_conductor_result : Fields → String → Fields
  unfolding merge_structured_into_result detect_output_schema
  enrich_conductor_result result goal =
      if not (c.is_step_result result) || c.hints.is_blank (reply_of result)
      then result
      else merge_structured_into_result result (
          field "schema_type" (str (detect_output_schema goal)) (
            field "confidence" (nat (c.percent (lookup result "confidence"))) (
              field "weaknesses" (arr end) (
                field "payload"
                  (obj (
                    field "summary" (str (reply_of result)) (
                      field "plan_delta"
                        (elim (lookup result "plan_delta") [ none ↦ obj nil | some v ↦ v ]) nil)))
                  nil))))
