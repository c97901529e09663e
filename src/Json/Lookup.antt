-- ===== src/Json/Lookup.antt =====
-- What a dict holds behind an assignment and a merge.
use cys_agi.Prelude.{
  String, ◌≡◌, refl, ◌∙◌, none, some, string_eq, ◌==◌, arith, if◌then◌else◌, Bool-cases, inl, inr,
}
use cys_agi.Json.{Value, Fields, nil, field, lookup, put, merge}

pub lookup-put :
    (d : Fields) (key : String) (v : Value) (other : String)
    → lookup (put d key v) other ≡ (if key == other then some v else lookup d other)
unfolding lookup put
lookup-put nil key v other = refl
lookup-put (field k w rest) key v other = ground (
  arith,
  lookup-put rest key v other,
  string_eq.beq_iff k key,
  string_eq.beq_iff k other,
  string_eq.beq_iff key other,
)

-- A merge keeps a key that the second dict does not have.
pub lookup-merge :
    (d e : Fields) (other : String)
    → lookup e other ≡ none
    → lookup (merge d e) other ≡ lookup d other
unfolding merge lookup
lookup-merge d nil other absent = refl
lookup-merge d (field k v rest) other absent = elim (Bool-cases (k == other)) [
  | inl same ↦ absurd (ground arith)
  | inr differ ↦
      lookup-merge (put d k v) rest other (ground arith) ∙ lookup-put d k v other ∙ rw differ refl
]
