-- ===== src/Inheritance.antt =====
-- src/wikipediarag/retrieval_profile.py: profiles that are based on one another (`_resolve_profile`), the
-- catalog they load into (`load_profile_catalog`), and the overrides of a request on top of a profile
-- (`get_retrieval_profile`, `_apply_legacy_answer_override`). The fuel of `resolve_profile` counts calls.
pub mod Termination
pub mod Lineage
pub mod Catalog
pub mod Overrides
mod Tests
use wikipedia_rag.Common.{
  ℕ, zero, suc, String, Bool, true, false, not, ◌&&◌, List, [], ◌∷◌, ◌++◌, Option, none, some,
  if◌then◌else◌, contains, string_eq,
}
use wikipedia_rag.Json.Paths.{child}
use wikipedia_rag.Json.{
  Value, Fields, null, text, obj, end, field, get, put, drop_key, has_key, as_obj, truthy,
  deep_merge,
}

-- `_resolve_profile` returns a profile, or raises: the `ValueError` of a cycle with the names on it, the
-- `KeyError` of a name, the `AttributeError` of a profile that is no dictionary. `exhausted`: out of fuel.
pub data Resolution : Type 0 where
  resolved : Fields → Resolution
  cyclic : List String → Resolution
  unknown : String → Resolution
  malformed : String → Resolution
  exhausted : Resolution

-- What the catalog has under a name: `current` without its `based_on`, and the parent's name.
pub data Entry : Type 0 where
  missing : Entry
  broken : Entry
  root : Fields → Entry
  derived : Fields → String → Entry

abbrev pub inherit : Fields → Resolution → Resolution
inherit current (resolved parent) = resolved (deep_merge parent current)
inherit current r = r

-- `str` writes a value that is no text; `name_of` is `str(parent_name)`.
module _ (str : Value → String) where
  abbrev name_of : Value → String
  name_of (text s) = s
  name_of v = str v

  -- `current.pop("based_on", None)`, where `None` is no name.
  abbrev split_parent : Fields → Entry
  split_parent current =
      let rest = drop_key "based_on" current in
      elim (get "based_on" current) [
        | none ↦ root rest
        | some null ↦ root rest
        | some v ↦ derived rest (name_of v)
      ]

  module _ (profiles : Fields) where
    unfoldable pub entry_of : String → Entry
    entry_of name = elim (get name profiles) [
      | none ↦ missing
      | some found ↦ elim (as_obj found) [ none ↦ broken | some current ↦ split_parent current ]
    ]

    unfoldable pub resolve_profile : ℕ → String → List String → Resolution
    unfolding deep_merge entry_of
    resolve_profile zero name stack = exhausted
    resolve_profile (suc fuel) name stack = elim (contains name stack) [
      | true ↦ cyclic (stack ++ name ∷ [])
      | false ↦ elim (entry_of name) [
        | missing ↦ unknown name
        | broken ↦ malformed name
        | root current ↦ resolved current
        | derived current parent ↦
            inherit current (resolve_profile fuel parent (stack ++ name ∷ []))
      ]
    ]

-- The number of entries: no chain of distinct profiles is longer.
abbrev pub size : Fields → ℕ
size end = 0
size (field k v fs) = suc (size fs)

-- `load_profile_catalog`: the payload that the catalog is validated from, or the first failure.
pub data Loaded : Type 0 where
  loaded : Fields → Loaded
  failed : Resolution → Loaded

module _ (str : Value → String) (raw : Fields) where
  -- The loop, over the entries that are left and the profiles resolved so far.
  unfoldable pub load_entries : Fields → Fields → Loaded
  unfolding resolve_profile
  load_entries end done = loaded done
  load_entries (field name v rest) done = elim (resolve_profile str raw (suc (size raw)) name []) [
    | resolved fs ↦ load_entries rest (put name (obj (put "name" (text name) fs)) done)
    | failure ↦ failed failure
  ]

  unfoldable pub load_profile_catalog : Loaded
  unfolding load_entries
  load_profile_catalog = load_entries raw end

-- `fs.setdefault(k, {})`, when what is then under `k` is a dictionary.
abbrev pub default_child : String → Fields → Option Fields
default_child k fs = elim (get k fs) [ none ↦ some end | some v ↦ as_obj v ]

abbrev legacy_applies : Fields → Bool
legacy_applies answer =
    not (has_key "verification" answer) && has_key "deterministic_citation_validation" answer

-- `verification["citation_validation"] = ...` inside the payload's answer.
unfoldable pub set_citation_validation : Value → Fields → Fields
set_citation_validation v payload = elim (default_child "answer" payload) [
  | none ↦ payload
  | some answer ↦ elim (default_child "verification" answer) [
    | none ↦ payload
    | some verification ↦
        put "answer"
          (obj (put "verification" (obj (put "citation_validation" v verification)) answer)) payload
  ]
]

abbrev flag_value : Option Value → Value
flag_value none = text "off"
flag_value (some v) = if truthy v then text "strict" else text "off"

unfoldable pub apply_legacy_answer_override : Fields → Fields → Fields
unfolding set_citation_validation
apply_legacy_answer_override payload overrides = elim (child "answer" overrides) [
  | none ↦ payload
  | some answer ↦
      if legacy_applies answer
      then set_citation_validation (flag_value (get "deterministic_citation_validation" answer))
          payload
      else payload
]

-- `get_retrieval_profile` up to the validation: the stored profile, or the payload that is validated;
-- `none` for a name that the catalog does not have. `profiles` holds each profile as `model_dump` gives it.
unfoldable pub profile_payload : Fields → String → Fields → Option Fields
unfolding deep_merge apply_legacy_answer_override
profile_payload profiles name overrides = elim (child name profiles) [
  | none ↦ none
  | some profile ↦ elim overrides [
    | end ↦ some profile
    | field k v rest ↦
        let given = field k v rest in
        some
          (put "name" (text name) (apply_legacy_answer_override (deep_merge profile given) given))
  ]
]
