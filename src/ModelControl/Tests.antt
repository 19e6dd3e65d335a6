-- ===== src/ModelControl/Tests.antt =====
-- Runs of the budgets and the bindings, and the theorems at concrete inputs.
use wikipedia_rag.Common.{ℕ, ◌&&◌, ◌≤◌, true, false, none, some, [], ◌∷◌, ◌≡◌, refl, ◌↔◌}
use wikipedia_rag.Common.Int.{pos, negsuc}
use wikipedia_rag.ModelControl.{
  returned, raised, on, chat, ThinkingPolicy, thinking_policy, BudgetRequest, OutputBudget,
  resolve_output_budget, reasoning_of, compile_token_envelope, ModelContract, StageSpec, find_stage,
  check_binding, validate_stage_binding,
}
use wikipedia_rag.ModelControl.Binding
use wikipedia_rag.ModelControl.Binding.{is_returned, usable, fits_stage}
use wikipedia_rag.ModelControl.Budget
use wikipedia_rag.ModelControl.Budget.{Affordable}
use wikipedia_rag.Json.{
  Fields, text, int, bool, obj, end, field, get, deep_merge_json, merge_sources, serializable,
  deep_merge,
}
use wikipedia_rag.Json.Dict.{ProperFields}
use wikipedia_rag.ModelControl.Adapter.{
  set_path, place, adapter_path, map_parameters, map_thinking, path_parts, parts_of, set_parts,
}
use wikipedia_rag.ModelControl.Payload.{
  ProviderRequest, compile_provider_payload, redact_connection, under_extra, without, adapted_body,
  pick_fields, assign, workload_of,
}
use wikipedia_rag.ModelControl.Protected
use wikipedia_rag.ModelControl.Redaction

program : Unit {0}
unfolding thinking_policy resolve_output_budget reasoning_of compile_token_envelope find_stage
    check_binding validate_stage_binding deep_merge_json compile_provider_payload redact_connection
    ProperFields set_path under_extra place adapter_path map_parameters map_thinking without
    adapted_body path_parts parts_of set_parts pick_fields assign merge_sources serializable
    deep_merge workload_of
program = tt

abbrev question : BudgetRequest
question = record {
  requested_tokens = pos 900;
  input_tokens = pos 3000;
  context_window = pos 4096;
  stage_cap = some (pos 800);
  reasoning_reserve = pos 400;
  safety_reserve = pos 32;
  minimum_tokens = pos 64;
}

abbrev answer : OutputBudget
answer = record {
  requested_tokens = 900;
  effective_tokens = 664;
  stage_cap = 800;
  input_tokens = 3000;
  reasoning_reserve = 400;
  safety_reserve = 32;
  context_window = 4096;
}

granted : resolve_output_budget question ≡ returned answer
unfolding program
granted = refl

negative_request :
    resolve_output_budget (record question { stage_cap = some (negsuc 0) })
    ≡ raised "token envelope values must be non-negative"
unfolding program
negative_request = refl

resolve_output_budget-Affordable_example :
    Affordable question 664 × ((n : ℕ) → Affordable question n → n ≤ 664)
resolve_output_budget-Affordable_example =
    Budget.resolve_output_budget-Affordable question answer granted

abbrev too_long : BudgetRequest
too_long = record question { input_tokens = pos 4090 }

resolve_output_budget-raised_iff_example :
    (resolve_output_budget too_long ≡ raised "MODEL_TOKEN_BUDGET_EXCEEDED")
    ↔ ((n : ℕ) → ¬ Affordable too_long n)
resolve_output_budget-raised_iff_example = Budget.resolve_output_budget-raised_iff too_long refl

abbrev policy : ThinkingPolicy
policy = record { mode = on; effort = none; budget_tokens = some 512; return_reasoning = false }

effort_and_budget :
    thinking_policy on (some "low") (some (pos 3)) false
    ≡ raised "thinking effort and budget_tokens are mutually exclusive"
unfolding program
effort_and_budget = refl

abbrev model : ModelContract
model = record {
  operation = chat;
  capabilities = "chat" ∷ "structured_output" ∷ [];
  input_modalities = "text" ∷ [];
  enabled = true;
  vision = false;
  reasoning_control = true;
  canary_auto = false;
}

abbrev answer_stage : StageSpec
answer_stage = record {
  key = "chat.answer";
  operation = chat;
  required_capabilities = "chat" ∷ "structured_output" ∷ [];
  required_modalities = "text" ∷ [];
  embedding_fingerprint_required = false;
}

bound : validate_stage_binding "chat.answer" model policy ≡ returned answer_stage
unfolding program
bound = refl

vision_is_catalog_only :
    validate_stage_binding "chat.answer" (record model { vision = true }) policy
    ≡ raised "MODEL_VISION_CATALOG_ONLY"
unfolding program
vision_is_catalog_only = refl

validate_stage_binding-returned_iff_example :
    is_returned (validate_stage_binding "chat.answer" model policy)
    ≡ (usable policy model && fits_stage "chat.answer" model)
validate_stage_binding-returned_iff_example =
    Binding.validate_stage_binding-returned_iff "chat.answer" model policy

abbrev request : ProviderRequest
request = record {
  payload = field "model" (text "chat-1") (
      field "max_tokens" (int (pos 64))
        (field "extra_body" (obj (field "model" (text "other") end)) end));
  connection_defaults =
      some (field "model" (text "default") (field "temperature" (int (pos 0)) end));
  model_defaults = none;
  stage_overrides = none;
  request_adapter =
      field "thinking"
        (obj (field "enabled" (text "model") (field "effort" (text "reasoning.effort") end))) end;
  thinking = some (field "mode" (text "on") (field "effort" (text "low") end));
  protected_fields = "model" ∷ "messages" ∷ [];
}

abbrev wire_body : Fields
wire_body = field "model" (text "chat-1") (
    field "temperature" (int (pos 0)) (
      field "max_tokens" (int (pos 64))
        (field "reasoning" (obj (field "effort" (text "low") end)) end)))

compiled : compile_provider_payload (λ v. "1") request ≡ returned wire_body
unfolding program
compiled = refl

request-ProperFields : ProperFields request.payload
unfolding program
request-ProperFields = (refl, tt, (refl, tt, (refl, (refl, tt, tt), tt)))

compile_provider_payload-protected_example : get "model" wire_body ≡ some (text "chat-1")
compile_provider_payload-protected_example =
    Protected.compile_provider_payload-protected (λ v. "1") request "model" compiled
      request-ProperFields refl refl refl refl

unknown_transform :
    compile_provider_payload
      (λ v. "1")
      (record request {
        request_adapter =
            field "parameter_map"
              (obj (
                field "temperature"
                  (obj (field "path" (text "t") (field "transform" (text "square") end)))
                  end))
              end;
      })
    ≡ raised "unsupported request adapter transform"
unfolding program
unknown_transform = refl

abbrev connection : Fields
connection =
    field "id" (text "c1")
      (field "api_key" (text "secret") (field "has_credentials" (bool true) end))

redact_connection-fields_example : get "api_key" (redact_connection connection) ≡ none
redact_connection-fields_example = Redaction.redact_connection-fields connection "api_key"
