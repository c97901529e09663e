-- ===== src/Json.antt =====
-- The values of `dict[str, Any]` payloads. A number that the program computes is a `nat`; any other
-- is its text and whether it is zero, since the program passes it on and tests only its truth.
pub mod Lookup
use cys_agi.Prelude.{
  ℕ, nat_eq, String, Bool, true, false, not, Option, none, some, truthy, string_eq, ◌==◌,
  if◌then◌else◌,
}

mutual
  pub data Value : Type 0 where
    null : Value
    bool : Bool → Value
    nat : ℕ → Value
    number : (text : String) (is_zero : Bool) → Value
    str : String → Value
    arr : Items → Value
    obj : Fields → Value

  pub data Items : Type 0 where
    end : Items
    item : Value → Items → Items

  -- A dict: the first entry of a key is the one that counts.
  pub data Fields : Type 0 where
    nil : Fields
    field : String → Value → Fields → Fields

-- `d.get(key)`
unfoldable pub lookup : Fields → String → Option Value
lookup nil key = none
lookup (field k v rest) key = if k == key then some v else lookup rest key

-- `bool(value)`
abbrev pub is_true : Value → Bool
is_true null = false
is_true (bool b) = b
is_true (nat n) = not (n == 0)
is_true (number _ is_zero) = not is_zero
is_true (str s) = truthy s
is_true (arr end) = false
is_true (arr (item _ _)) = true
is_true (obj nil) = false
is_true (obj (field _ _ _)) = true

-- `bool(d.get(key))`
unfoldable pub has_true : Fields → String → Bool
has_true d key = elim (lookup d key) [ none ↦ false | some v ↦ is_true v ]

abbrev pub is_nonempty : Fields → Bool
is_nonempty nil = false
is_nonempty (field _ _ _) = true

-- `{**d, key: value}`
unfoldable pub put : Fields → String → Value → Fields
put nil key v = field key v nil
put (field k w rest) key v = if k == key then field k v rest else field k w (put rest key v)

-- `{**d, **e}`
unfoldable pub merge : Fields → Fields → Fields
merge d nil = d
merge d (field key v rest) = merge (put d key v) rest
