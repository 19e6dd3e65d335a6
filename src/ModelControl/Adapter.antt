-- ===== src/ModelControl/Adapter.antt =====
-- src/wikipediarag/model_control.py: the request adapter of a provider, with its paths (`_adapter_path`, `_set_path`),
-- the parameters that it moves and the thinking controls that it places. `str` writes a value that is no text.
use Prim.Native.Char.{code}
use Prim.Native.String.{[], ◌∷◌}
use wikipedia_rag.Common.{
  String, Bool, false, not, List, [], ◌∷◌, Option, none, some, string_eq, nat_eq, ◌==◌,
  if◌then◌else◌,
}
use wikipedia_rag.Common.Text.{is_empty}
use wikipedia_rag.Json.{
  Value, Fields, null, bool, text, obj, end, field, get, put, drop_key, truthy,
}
use wikipedia_rag.Json.Paths.{child}
use wikipedia_rag.ModelControl.{Checked, returned, raised}

-- The rest of the computation, unless it has raised.
abbrev pub then_with {ℓ κ} : {A : Type ℓ} {B : Type κ} → Checked A → (A → Checked B) → Checked B
then_with (returned a) f = f a
then_with (raised e) f = raised e

abbrev pub or_raise {ℓ} : {A : Type ℓ} → String → Option A → Checked A
or_raise code none = raised code
or_raise code (some a) = returned a

-- The text before the first dot, and the parts after it that are not empty.
unfoldable pub parts_of : String → String × List String
parts_of [] = ([], [])
parts_of (c ∷ s) =
    let (part, parts) = parts_of s in
    if code c == 46 then ([], if is_empty part then parts else part ∷ parts) else (c ∷ part, parts)

-- `[part for part in path.split(".") if part]`
unfoldable pub path_parts : String → List String
unfolding parts_of
path_parts s = let (part, parts) = parts_of s in if is_empty part then parts else part ∷ parts

-- The dictionary to descend into: a new one where there is none.
abbrev inner : String → Fields → Fields
inner p fs = elim (child p fs) [ none ↦ end | some o ↦ o ]

-- `_set_path` below the parts of the path.
unfoldable pub set_parts : List String → Value → Fields → Checked Fields
set_parts [] v fs = raised "request adapter path cannot be empty"
set_parts (p ∷ []) v fs = returned (put p v fs)
set_parts (p ∷ q ∷ rest) v fs =
    then_with (set_parts (q ∷ rest) v (inner p fs)) (λ o. returned (put p (obj o) fs))

unfoldable pub set_path : String → Value → Fields → Checked Fields
unfolding set_parts path_parts
set_path path v fs = set_parts (path_parts path) v fs

-- A declared path with its transform.
abbrev pub AdapterPath : Type 0
AdapterPath = String × Option String

module _ (str : Value → String) where
  abbrev pub str_of : Value → String
  str_of (text s) = s
  str_of v = str v

  abbrev transform_of : Fields → Option String
  transform_of spec = elim (get "transform" spec) [
    | none ↦ none
    | some null ↦ none
    | some v ↦ some (str_of v)
  ]

  abbrev path_of : Fields → Option Value → Checked AdapterPath
  path_of spec (some (text path)) =
      if is_empty path
      then raised "request adapter path must be a non-empty string"
      else returned (path, transform_of spec)
  path_of spec _ = raised "request adapter path must be a non-empty string"

  unfoldable pub adapter_path : Value → Checked AdapterPath
  adapter_path (text path) = returned (path, none)
  adapter_path (obj spec) = path_of spec (get "path" spec)
  adapter_path _ = raised "request adapter path must be a string or object"

  -- The transform of a value, then its place in the body.
  unfoldable pub place : AdapterPath → Value → Fields → Checked Fields
  unfolding set_path
  place (path, none) v fs = set_path path v fs
  place (path, some transform) v fs =
      if transform == "inverse"
      then set_path path (bool (not (truthy v))) fs
      else if transform == "identity"
      then set_path path v fs
      else raised "unsupported request adapter transform"

  -- The loop over `parameter_map`: a parameter of the body moves to its path.
  unfoldable pub map_parameters : Fields → Fields → Checked Fields
  unfolding adapter_path place
  map_parameters end body = returned body
  map_parameters (field source spec specs) body = elim (get source body) [
    | none ↦ map_parameters specs body
    | some v ↦
        then_with (adapter_path spec)
          (λ target. then_with (place target v (drop_key source body)) (map_parameters specs))
  ]

  -- The value of a control of the thinking policy; `none` for a name that is no control, or for `None`.
  abbrev present : Option Value → Option Value
  present (some null) = none
  present v = v

  abbrev thinking_on : Fields → Bool
  thinking_on policy = elim (get "mode" policy) [ none ↦ false | some v ↦ not (str_of v == "off") ]

  abbrev control : Fields → String → Option Value
  control policy name =
      if name == "enabled"
      then some (bool (thinking_on policy))
      else if name == "effort"
      then (if thinking_on policy then present (get "effort" policy) else some (text "none"))
      else if name == "budget_tokens"
      then present (get "budget_tokens" policy)
      else if name == "return_reasoning"
      then some (bool (elim (get "return_reasoning" policy) [ none ↦ false | some v ↦ truthy v ]))
      else none

  -- `spec.get("on" if value else "off", value)` for the control `enabled` of a specification that is an object.
  abbrev switched : String → Value → Value → Value
  switched name v (obj spec) =
      if name == "enabled"
      then elim (get (if truthy v then "on" else "off") spec) [ none ↦ v | some w ↦ w ]
      else v
  switched name v _ = v

  -- The loop over the adapter's thinking controls.
  unfoldable pub map_thinking : Fields → Fields → Fields → Checked Fields
  unfolding adapter_path place
  map_thinking policy end body = returned body
  map_thinking policy (field name spec specs) body = elim (control policy name) [
    | none ↦ map_thinking policy specs body
    | some v ↦
        then_with (adapter_path spec) (λ target.
          then_with (place target (switched name v spec) body) (map_thinking policy specs))
  ]
