-- ===== src/ModelControl/Payload.antt =====
-- src/wikipediarag/model_control.py: the wire body that `compile_provider_payload` makes of a gateway request, and the
-- connection that `redact_connection` shows. A set of field names is a list.
use Prim.Native.String.{[], ◌∷◌}
use wikipedia_rag.Common.{
  String, true, false, List, [], ◌∷◌, Option, none, some, contains, string_eq, nat_eq,
  if◌then◌else◌,
}
use wikipedia_rag.Json.{
  Value, Fields, null, bool, text, obj, end, field, get, put, drop_key, has_key, as_obj, truthy,
  serializable_fields, deep_merge_json,
}
use wikipedia_rag.ModelControl.{Checked, returned, raised}
use wikipedia_rag.ModelControl.Adapter.{then_with, or_raise, map_parameters, map_thinking}

abbrev pub merged : List (Option Fields) → Checked Fields
merged sources = or_raise "parameter is not JSON-serializable" (deep_merge_json sources)

-- The fields of `names` that `fs` has.
unfoldable pub pick_fields : List String → Fields → Fields
pick_fields [] fs = end
pick_fields (k ∷ ks) fs = elim (get k fs) [
  | none ↦ pick_fields ks fs
  | some v ↦ put k v (pick_fields ks fs)
]

-- `{key: value for key, value in fs.items() if key not in names}`
unfoldable pub without : List String → Fields → Fields
without names end = end
without names (field k v fs) = elim (contains k names) [
  | true ↦ without names fs
  | false ↦ field k v (without names fs)
]

-- `for key, value in new.items(): fs[key] = value`
unfoldable pub assign : Fields → Fields → Fields
assign end fs = fs
assign (field k v new) fs = assign new (put k v fs)

-- What is left of the request over what was under its `extra_body`.
unfoldable pub under_extra : Option Value → Fields → Checked Fields
under_extra none rest = returned rest
under_extra (some null) rest = returned rest
under_extra (some (obj extra)) rest = merged (some extra ∷ some rest ∷ [])
under_extra (some v) rest = raised "extra_body must be a JSON object"

unfoldable pub workload_of : Fields → Checked Fields
unfolding under_extra
workload_of payload =
    then_with (merged (some payload ∷ []))
      (λ given. under_extra (get "extra_body" given) (drop_key "extra_body" given))

-- `max_tokens` under its stable name.
abbrev normalize_tokens : Fields → Fields
normalize_tokens body = elim (get "max_tokens" body) [
  | none ↦ body
  | some v ↦
      if has_key "max_output_tokens" body
      then body
      else put "max_output_tokens" v (drop_key "max_tokens" body)
]

abbrev parameter_map_of : Fields → Checked Fields
parameter_map_of adapter = elim (get "parameter_map" adapter) [
  | none ↦ returned (field "max_output_tokens" (text "max_tokens") end)
  | some null ↦ returned end
  | some v ↦ or_raise "request_adapter.parameter_map must be an object" (as_obj v)
]

abbrev thinking_map_of : Fields → Checked Fields
thinking_map_of adapter = elim (get "thinking" adapter) [
  | none ↦ returned end
  | some null ↦ returned end
  | some v ↦ or_raise "request_adapter.thinking must be an object" (as_obj v)
]

pub record ProviderRequest : Type 0 where
  pub payload : Fields
  pub connection_defaults : Option Fields
  pub model_defaults : Option Fields
  pub stage_overrides : Option Fields
  pub request_adapter : Fields
  pub thinking : Option Fields
  pub protected_fields : List String

module _ (str : Value → String) where
  abbrev apply_thinking : Option Fields → Fields → Fields → Checked Fields
  apply_thinking none adapter body = returned body
  apply_thinking (some policy) adapter body =
      then_with (thinking_map_of adapter) (λ controls. map_thinking str policy controls body)

  -- The body before the protected fields are written back, from the workload.
  unfoldable pub adapted_body : ProviderRequest → Fields → Checked Fields
  unfolding map_parameters map_thinking without
  adapted_body r workload =
      then_with (merged (r.connection_defaults ∷ r.model_defaults ∷ r.stage_overrides ∷ []))
        (λ defaults.
          then_with (merged (some defaults ∷ some (without r.protected_fields workload) ∷ []))
            (λ body.
              if serializable_fields r.request_adapter
              then then_with (parameter_map_of r.request_adapter) (λ parameters.
                then_with (map_parameters str parameters (normalize_tokens body))
                  (apply_thinking r.thinking r.request_adapter))
              else raised "parameter is not JSON-serializable"))

  unfoldable pub compile_provider_payload : ProviderRequest → Checked Fields
  unfolding workload_of adapted_body pick_fields assign
  compile_provider_payload r = then_with (workload_of r.payload) (λ workload.
      then_with (adapted_body r workload) (λ body.
        returned (assign (pick_fields r.protected_fields workload) (drop_key "thinking" body))))

abbrev pub shown_fields : List String
shown_fields =
    "id" ∷ "name" ∷ "driver" ∷ "base_url" ∷ "endpoint_paths" ∷ "request_adapter"
    ∷ "request_defaults" ∷ "safe_headers" ∷ "tls_verify" ∷ "enabled" ∷ "row_version" ∷ "last_status"
    ∷ "last_checked_at" ∷ "created_at" ∷ "updated_at" ∷ []

unfoldable pub redact_connection : Fields → Fields
unfolding pick_fields
redact_connection value =
    put "credential_source"
      (elim (get "credential_source" value) [ none ↦ text "database" | some v ↦ v ])
      (put "has_credentials"
        (bool (elim (get "has_credentials" value) [ none ↦ false | some v ↦ truthy v ]))
        (pick_fields shown_fields value))
