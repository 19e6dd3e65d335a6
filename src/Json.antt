-- ===== src/Json.antt =====
-- JSON values as `json`, `yaml` and pydantic give them to the code, with the operations of a `dict`, and the
-- recursive merge: `_deep_merge` (src/wikipediarag/retrieval_profile.py), and `_json_value` and
-- `deep_merge_json` (src/wikipediarag/model_control.py). A `dict` is a list of fields in insertion order.
pub mod Dict
pub mod Merge
pub mod Paths
use wikipedia_rag.Common.{
  ℕ, String, Bool, true, false, not, List, [], ◌∷◌, Option, none, some, ◌==◌, string_eq, nat_eq,
}
use wikipedia_rag.Common.Int.{ℤ, pos, negsuc}
use wikipedia_rag.Common.Text.{is_empty}

-- `real m n` is the finite float m / 10^n; `nonfinite` a NaN or an infinity, and `opaque` any other object.
mutual
  pub data Value : Type 0 where
    null : Value
    bool : Bool → Value
    int : ℤ → Value
    real : ℤ → ℕ → Value
    nonfinite : Value
    text : String → Value
    arr : Items → Value
    obj : Fields → Value
    opaque : Value

  pub data Items : Type 0 where
    nil : Items
    cons : Value → Items → Items

  pub data Fields : Type 0 where
    end : Fields
    field : String → Value → Fields → Fields

abbrev pub get : String → Fields → Option Value
get j end = none
get j (field k v fs) = elim (j == k) [ true ↦ some v | false ↦ get j fs ]

-- `fs[j] = u`: in place when the key is there, else at the end.
abbrev pub put : String → Value → Fields → Fields
put j u end = field j u end
put j u (field k v fs) = elim (j == k) [ true ↦ field k u fs | false ↦ field k v (put j u fs) ]

-- The fields that `fs.pop(j, None)` leaves.
abbrev pub drop_key : String → Fields → Fields
drop_key j end = end
drop_key j (field k v fs) = elim (j == k) [ true ↦ fs | false ↦ field k v (drop_key j fs) ]

abbrev pub has_key : String → Fields → Bool
has_key j fs = elim (get j fs) [ none ↦ false | some v ↦ true ]

-- `isinstance(v, dict)`, with the object it is.
abbrev pub as_obj : Value → Option Fields
as_obj (obj fs) = some fs
as_obj _ = none

abbrev is_zero : ℤ → Bool
is_zero (pos n) = n == 0
is_zero (negsuc n) = false

-- `bool(v)`
abbrev pub truthy : Value → Bool
truthy null = false
truthy (bool b) = b
truthy (int z) = not (is_zero z)
truthy (real z n) = not (is_zero z)
truthy (text s) = not (is_empty s)
truthy (arr nil) = false
truthy (obj end) = false
truthy _ = true

unfoldable mutual
  pub deep_merge : Fields → Fields → Fields
  deep_merge base end = base
  deep_merge base (field k v fs) = deep_merge (put k (merge_value (get k base) v) base) fs

  -- What the loop stores under a key.
  pub merge_value : Option Value → Value → Value
  merge_value (some (obj b)) (obj o) = obj (deep_merge b o)
  merge_value _ v = v

-- `_json_value` of `v` returns, and then a copy of `v`.
unfoldable mutual
  pub serializable : Value → Bool
  serializable nonfinite = false
  serializable opaque = false
  serializable (arr xs) = serializable_items xs
  serializable (obj fs) = serializable_fields fs
  serializable _ = true

  pub serializable_items : Items → Bool
  serializable_items nil = true
  serializable_items (cons v xs) = elim (serializable v) [
    | true ↦ serializable_items xs
    | false ↦ false
  ]

  pub serializable_fields : Fields → Bool
  serializable_fields end = true
  serializable_fields (field k v fs) = elim (serializable v) [
    | true ↦ serializable_fields fs
    | false ↦ false
  ]

-- The merge of the sources left to right into the result; `none` when a source is not JSON.
unfoldable pub merge_sources : Fields → List (Option Fields) → Option Fields
unfolding serializable deep_merge
merge_sources result [] = some result
merge_sources result (none ∷ sources) = merge_sources result sources
merge_sources result (some source ∷ sources) = elim (serializable_fields source) [
  | true ↦ merge_sources (deep_merge result source) sources
  | false ↦ none
]

unfoldable pub deep_merge_json : List (Option Fields) → Option Fields
unfolding merge_sources
deep_merge_json sources = merge_sources end sources
