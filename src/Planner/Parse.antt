-- ===== src/Planner/Parse.antt =====
-- The plans of the planner and the parser of its answers
-- (cys_core/application/use_cases/plan_investigation.py), with `planner_fallback_personas` of
-- cys_core/application/policy_resolver.py. The catalog and JSON parsing are ports.
use cys_agi.Prelude.{
  ℕ, zero, suc, String, Option, none, some, List, [], ◌∷◌, map, truthy, string_eq, if◌then◌else◌,
  Result, ok, err,
}
use cys_agi.Json.{Value, Items, Fields, str, arr, obj, end, item, nil, field, lookup, is_true}
use cys_agi.Events.{SecurityEvent}

pub record InvestigationPlan : Type 0 where
  pub personas : List String
  pub sub_goals : List (String × String)
  pub rationale : String
  pub depends_on : List (String × List String)
  pub reasoning_steps : List String
  pub plan_status : String

-- What the planner uses and does not implement. An error is the text of an exception.
pub record PlannerPorts (F : Type 0) : Type 0 where
  pub arun : (session_id user_input : String) → Result String Fields
  pub available_personas : List String
  -- the default personas of the profile's loader, and those of the settings, if these are not blank
  pub default_personas : Option (List String)
  pub env_personas : Option (List String)
  pub trust_score : String → F
  pub trust_floor : F
  pub loads : String → Option Value
  pub dumps : Value → String
  -- `str(value)` of a value that is no text, and `[str(v) for v in value if v]` of one that is no
  -- list
  pub text_of : Value → String
  pub texts_of : Value → Result String (List String)

-- the texts of a list
abbrev pub str_items : List String → Items
str_items [] = end
str_items (x ∷ xs) = item (str x) (str_items xs)

-- the items of a list, if there is one
unfoldable pub listed : Option Value → Option Items
listed (some (arr items)) = some items
listed _ = none

-- `result.get("raw_response", "")`
abbrev pub raw_response : Fields → Value
raw_response result = elim (lookup result "raw_response") [ none ↦ str "" | some v ↦ v ]

module _ {F : Type 0} (p : PlannerPorts F) where
  -- `str(value)`
  abbrev pub as_text : Value → String
  as_text (str s) = s
  as_text v = p.text_of v

  -- `[str(item) for item in items]`
  abbrev pub item_texts : Items → List String
  item_texts end = []
  item_texts (item v rest) = as_text v ∷ item_texts rest

  -- `[str(s) for s in items if s]`
  abbrev pub true_texts : Items → List String
  true_texts end = []
  true_texts (item v rest) =
      let texts = true_texts rest in if is_true v then as_text v ∷ texts else texts

  -- `{str(k): str(v) for k, v in d.items()}`
  abbrev pub goal_pairs : Fields → List (String × String)
  goal_pairs nil = []
  goal_pairs (field k v rest) = (k, as_text v) ∷ goal_pairs rest

  -- `planner_fallback_personas`
  unfoldable pub fallback_personas : List String
  fallback_personas =
      let by_env : List String = elim p.env_personas [
        | none ↦ "consultant" ∷ []
        | some personas ↦ personas
      ] in
      elim p.default_personas [
        | none ↦ by_env
        | some personas ↦ elim personas [ [] ↦ by_env | x ∷ xs ↦ x ∷ xs ]
      ]

  -- `_goal_from_event`
  unfoldable pub goal_from_event : SecurityEvent → String
  goal_from_event event = elim (lookup event.payload "goal") [
    | some v ↦ as_text v
    | none ↦ elim (lookup event.payload "message") [
      | some v ↦ as_text v
      | none ↦ "Investigate security incident"
    ]
  ]

  -- `_fallback_plan`
  unfoldable pub fallback_plan : (goal rationale : String) → InvestigationPlan
  unfolding fallback_personas
  fallback_plan goal rationale = record {
    personas = fallback_personas;
    sub_goals = map (λ persona. (persona, goal)) fallback_personas;
    rationale = rationale;
    depends_on = [];
    reasoning_steps = [];
    plan_status = "";
  }

  -- `str(result.get(key, ""))`
  abbrev pub text_at : Fields → String → String
  text_at result key = elim (lookup result key) [ none ↦ "" | some v ↦ as_text v ]

  -- the plan of an answer with a list of personas
  unfoldable pub plan_of : Fields → Items → Result String InvestigationPlan
  plan_of result items =
      let steps : Result String (List String) = elim (lookup result "reasoning_steps") [
        | none ↦ ok []
        | some (arr steps) ↦ ok (true_texts steps)
        | some v ↦ p.texts_of v
      ] in
      elim steps [
        | err e ↦ err e
        | ok reasoning_steps ↦ ok (record {
          personas = item_texts items;
          sub_goals = elim (lookup result "sub_goals") [
            | some (obj goals) ↦ goal_pairs goals
            | _ ↦ []
          ];
          rationale = text_at result "rationale";
          depends_on = [];
          reasoning_steps = reasoning_steps;
          plan_status = text_at result "plan_status";
        })
      ]

  -- the plan of a parsed `raw_response`, from the parser of a dict
  unfoldable pub plan_of_json :
      (Fields → Result String InvestigationPlan)
      → String
      → Option Value
      → Result String InvestigationPlan
  unfolding fallback_plan
  plan_of_json parse goal none = ok (fallback_plan goal "fallback_default_plan")
  plan_of_json parse goal (some (obj parsed)) = parse parsed
  plan_of_json parse goal (some _) = err "the parsed answer is no dict"

  -- the plan of a `raw_response`
  unfoldable pub plan_of_raw :
      (Fields → Result String InvestigationPlan) → String → Value → Result String InvestigationPlan
  unfolding plan_of_json
  plan_of_raw parse goal (str s) =
      if truthy s
      then plan_of_json parse goal (p.loads s)
      else ok (fallback_plan goal "fallback_default_plan")
  plan_of_raw parse goal v =
      if is_true v
      then err "the JSON object must be a text"
      else ok (fallback_plan goal "fallback_default_plan")

  -- `_parse_plan`; the fuel is the interpreter's limit on recursion, whose error is an exception
  -- like the others
  unfoldable pub parse_plan : ℕ → String → Fields → Result String InvestigationPlan
  parse_plan zero goal result = err "maximum recursion depth exceeded"
  parse_plan (suc depth) goal result = elim (listed (lookup result "personas")) [
    | some items ↦ plan_of result items
    | none ↦ plan_of_raw (parse_plan depth goal) goal (raw_response result)
  ]
