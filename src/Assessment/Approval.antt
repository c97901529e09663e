-- ===== src/Assessment/Approval.antt =====
-- Which assessments are approved, and what the human sees of them
-- (cys_core/domain/assessment/services.py, cys_core/domain/security/guardrails.py).
use cys_agi.Prelude.{
  String, ◌≡◌, ◌≢◌, ◌∙◌, ◌||◌, refl, sym, ap, subst, All, [], true, false, none, some, List, ◌∷◌,
  string_eq, arith, ok, Result-cases, Option-cases, Bool-cases, inl, inr, ◌⊎◌,
}
use cys_agi.Floats.{FloatOps}
use cys_agi.Policy.{medium, risk_le, parse_threshold}
use cys_agi.Json.{Value, Fields, obj, lookup, is_true}
use cys_agi.Assessment.{
  TextPorts, text_at, undecided, answered, decided, is_severe_at, finding_data, has_severe,
  requires_hitl, HitlDecision, ManualDecision, manual_answer, high_severity, preview,
  decide_manually, is_auto, decide, published, build,
}

some-injective : {A : Type 0} {x y : A} → some x ≡ some y → x ≡ y
some-injective e = cc

-- What a finding says under a key is neither critical nor high.
abbrev pub IsMild : TextPorts → Fields → String → Type 0
IsMild p d key = (p.lower (text_at p d key) ≢ "critical") × (p.lower (text_at p d key) ≢ "high")

-- The data of a finding, or the finding itself if it has none, names no severe severity and no
-- severe risk level.
abbrev pub IsCalm : TextPorts → Fields → Type 0
IsCalm p f =
    (d : Fields)
    → ((lookup f "data" ≡ some (obj d)) ⊎ ((lookup f "data" ≡ none) × (f ≡ d)))
    → IsMild p d "severity" × IsMild p d "risk_level"

-- In the development stage a threshold of at least medium approves without a human.
abbrev pub IsAutomatic : (stage auto : String) → Type 0
IsAutomatic stage auto = (stage ≡ "dev") × (risk_le medium (parse_threshold auto) ≡ true)

-- The human answered with a truth, or with a dict whose entry `approved` is true.
abbrev pub IsManual : ManualDecision → Type 0
IsManual undecided = ⊥
IsManual (answered b) = b ≡ true
IsManual (decided d) = (v : Value) × (lookup d "approved" ≡ some v) × (is_true v ≡ true)

manual_answer-IsManual :
    (manual : ManualDecision) (v : Value)
    → manual_answer manual ≡ some v
    → is_true v ≡ true
    → IsManual manual
manual_answer-IsManual undecided v e yes' = absurd (cc e)
manual_answer-IsManual (answered b) v e yes' = ap is_true (some-injective e) ∙ yes'
manual_answer-IsManual (decided d) v e yes' = elim (Option-cases (lookup d "approved")) [
  | inl absent ↦ absurd (ground (arith, e, absent, yes'))
  | inr (w, found) ↦ (w, found, ap is_true (some-injective (rw found at e)) ∙ yes')
]

is_auto-IsAutomatic : (stage auto : String) → is_auto stage auto ≡ true → IsAutomatic stage auto
is_auto-IsAutomatic stage auto e =
    (ground (arith, e, string_eq.beq_iff stage "dev"), ground (arith, e))

is_severe_at-IsMild :
    (p : TextPorts) (d : Fields) (key : String) → is_severe_at p key d ≡ false → IsMild p d key
unfolding is_severe_at
is_severe_at-IsMild p d key e = (
  ground (arith, e, string_eq.beq_iff (p.lower (text_at p d key)) "critical"),
  ground (arith, e, string_eq.beq_iff (p.lower (text_at p d key)) "high"),
)

-- What the loop reads of a finding is its data.
finding_data-is :
    (p : TextPorts) (f d : Fields)
    → ((lookup f "data" ≡ some (obj d)) ⊎ ((lookup f "data" ≡ none) × (f ≡ d)))
    → finding_data p f ≡ some d
unfolding finding_data
finding_data-is p f d (inl found) = rw (found, finding_data) refl
finding_data-is p f d (inr (absent, same)) = rw (absent, finding_data) (ap (λ x. some x) same)

has_severe-IsCalm :
    (p : TextPorts) (findings : List Fields)
    → has_severe p findings ≡ ok false
    → All (IsCalm p) findings
unfolding has_severe
has_severe-IsCalm p [] e = tt
has_severe-IsCalm p (f ∷ findings) e = elim (Option-cases (finding_data p f)) [
  | inl absent ↦ absurd (ground (arith, e, absent))
  | inr (d, found) ↦
      elim (Bool-cases (is_severe_at p "severity" d || is_severe_at p "risk_level" d)) [
        | inl severe ↦ absurd (ground (arith, e, found, severe))
        | inr mild ↦ (
          λ d' is_data.
              let same : d ≡ d' = some-injective (sym found ∙ finding_data-is p f d' is_data) in
              subst (λ x. IsMild p x "severity" × IsMild p x "risk_level") same
                (
                  is_severe_at-IsMild p d "severity" (ground (arith, mild)),
                  is_severe_at-IsMild p d "risk_level" (ground (arith, mild)),
                ),
          has_severe-IsCalm p findings (ground (arith, e, found, mild)),
        )
      ]
]

module _ {F : Type 0} ⦃fl : FloatOps F⦄ (p : TextPorts) (trust_score : F) (findings : List Fields)
    (threshold : F) (stage auto : String) (manual : ManualDecision) where
  decide_manually_answers :
      (d : HitlDecision F)
      → decide_manually p trust_score findings manual ≡ ok d
      → is_true d.approved ≡ true
      → IsManual manual
  unfolding decide_manually
  decide_manually_answers d made approved = elim (Result-cases (preview p trust_score findings)) [
    | inr (e, failed) ↦ absurd (ground arith)
    | inl (shown, good) ↦ elim (Option-cases (manual_answer manual)) [
      | inl silent ↦ absurd (ground arith)
      | inr (v, answer) ↦ manual_answer-IsManual manual v answer (ground arith)
    ]
  ]

  -- A report is published only if the score is not below the threshold and no finding, by its data
  -- or by itself where it has none, has a severity or a risk level that is critical or high; or if
  -- the stage is "dev" and its threshold at least medium; or if a human approved.
  pub build-decide :
      (d : HitlDecision F)
      → decide p trust_score findings threshold stage auto manual ≡ ok d
      → build (some d.approved) ≡ published
      → ((fl.gt threshold trust_score ≡ false) × All (IsCalm p) findings)
        ⊎ (IsAutomatic stage auto ⊎ IsManual manual)
  unfolding decide requires_hitl build
  build-decide d made shown = elim (Bool-cases (fl.gt threshold trust_score)) [
    | inr trusted ↦ elim (Result-cases (has_severe p findings)) [
      | inr (e, failed) ↦ absurd (ground arith)
      | inl (false, calm) ↦ inl (trusted, has_severe-IsCalm p findings calm)
      | inl (true, severe) ↦ elim (Bool-cases (is_auto stage auto)) [
        | inl free ↦ inr (inl (is_auto-IsAutomatic stage auto free))
        | inr asked ↦ inr (inr (decide_manually_answers d (ground arith) (ground arith)))
      ]
    ]
    | inl low ↦ elim (Bool-cases (is_auto stage auto)) [
      | inl free ↦ inr (inl (is_auto-IsAutomatic stage auto free))
      | inr asked ↦ inr (inr (decide_manually_answers d (ground arith) (ground arith)))
    ]
  ]

-- A finding that states its severity itself, and not under `data`, makes an assessment need a human
-- if it is severe, but the preview for the human leaves it out.
pub preview_misses :
    {F : Type 0} ⦃fl : FloatOps F⦄ (p : TextPorts) (f : Fields) (findings : List Fields)
    (trust_score threshold : F)
    → lookup f "data" ≡ none
    → is_severe_at p "severity" f ≡ true
    → (requires_hitl p (f ∷ findings) trust_score threshold ≡ ok true)
      × (high_severity p (f ∷ findings) ≡ high_severity p findings)
unfolding requires_hitl has_severe finding_data high_severity
preview_misses p f findings trust_score threshold flat severe = (ground arith, ground arith)
