-- ===== src/ModelControl.antt =====
-- model_control.py: the thinking policy, the token budgets and the stage bindings.
pub mod Binding
pub mod Budget
pub mod Adapter
pub mod Payload
pub mod Protected
pub mod Redaction
mod Tests
use wikipedia_rag.Common.{
  ℕ, ◌+◌, ◌-◌, ◌*◌, ◌/◌, max, min, String, Bool, true, false, not, ◌&&◌, ◌||◌, Option, none, some,
  List, [], ◌∷◌, ◌==◌, string_eq, all, contains, ltb, leb, if◌then◌else◌,
}
use wikipedia_rag.Common.Int.{ℤ, pos, negsuc, pos_part}

-- What a function returns, or the text of the error that it raises.
pub data Checked {ℓ} (A : Type ℓ) : Type ℓ where
  returned : A → Checked A
  raised : String → Checked A

pub data ThinkingMode : Type 0 where
  off on auto : ThinkingMode

pub record ThinkingPolicy : Type 0 where
  pub mode : ThinkingMode
  pub effort : Option String
  pub budget_tokens : Option ℕ
  pub return_reasoning : Bool

abbrev pub is_negative : ℤ → Bool
is_negative (pos n) = false
is_negative (negsuc n) = true

abbrev efforts : List String
efforts = "none" ∷ "minimal" ∷ "low" ∷ "medium" ∷ "high" ∷ "max" ∷ []

-- The constructor, with `__post_init__`.
unfoldable pub thinking_policy :
    ThinkingMode → Option String → Option ℤ → Bool → Checked ThinkingPolicy
thinking_policy mode (some effort) (some budget) return_reasoning =
    raised "thinking effort and budget_tokens are mutually exclusive"
thinking_policy mode none (some (negsuc n)) return_reasoning =
    raised "thinking budget_tokens must be non-negative"
thinking_policy mode none (some (pos n)) return_reasoning = returned (record {
  mode = mode;
  effort = none;
  budget_tokens = some n;
  return_reasoning = return_reasoning;
})
thinking_policy mode none none return_reasoning = returned (record {
  mode = mode;
  effort = none;
  budget_tokens = none;
  return_reasoning = return_reasoning;
})
thinking_policy mode (some effort) none return_reasoning =
    if contains effort efforts
    then returned (record {
      mode = mode;
      effort = some effort;
      budget_tokens = none;
      return_reasoning = return_reasoning;
    })
    else raised "unsupported thinking effort"

pub record OutputBudget : Type 0 where
  pub requested_tokens : ℕ
  pub effective_tokens : ℕ
  pub stage_cap : ℕ
  pub input_tokens : ℕ
  pub reasoning_reserve : ℕ
  pub safety_reserve : ℕ
  pub context_window : ℕ

-- The arguments of `resolve_output_budget`.
pub record BudgetRequest : Type 0 where
  pub requested_tokens : ℤ
  pub input_tokens : ℤ
  pub context_window : ℤ
  pub stage_cap : Option ℤ
  pub reasoning_reserve : ℤ
  pub safety_reserve : ℤ
  pub minimum_tokens : ℤ

abbrev pub has_negative : BudgetRequest → Bool
has_negative q =
    is_negative q.requested_tokens
    || is_negative q.input_tokens
    || is_negative q.context_window
    || is_negative q.reasoning_reserve
    || is_negative q.safety_reserve
    || is_negative q.minimum_tokens
    || elim q.stage_cap [ none ↦ false | some cap ↦ is_negative cap ]

abbrev pub cap_of : Option ℤ → ℕ → ℕ
cap_of none requested = requested
cap_of (some cap) requested = pos_part cap

-- Past the first test every value is its natural part. `available` is negative exactly when the
-- reserves exceed the window, and then `effective` is below every minimum.
unfoldable pub resolve_output_budget : BudgetRequest → Checked OutputBudget
resolve_output_budget q =
    let requested = pos_part q.requested_tokens in
    let cap = cap_of q.stage_cap requested in
    let window = pos_part q.context_window in
    let used = pos_part q.input_tokens + pos_part q.reasoning_reserve + pos_part q.safety_reserve in
    let effective = min (min requested cap) (window - used) in
    if has_negative q
    then raised "token envelope values must be non-negative"
    else if ltb window used || ltb effective (pos_part q.minimum_tokens)
    then raised "MODEL_TOKEN_BUDGET_EXCEEDED"
    else returned (record {
      requested_tokens = requested;
      effective_tokens = effective;
      stage_cap = cap;
      input_tokens = pos_part q.input_tokens;
      reasoning_reserve = pos_part q.reasoning_reserve;
      safety_reserve = pos_part q.safety_reserve;
      context_window = window;
    })

pub record TokenEnvelope : Type 0 where
  pub max_input : ℕ
  pub reasoning_reserve : ℕ
  pub final_output_reserve : ℕ
  pub safety_reserve : ℕ
  pub context_window : ℕ

abbrev pub total : TokenEnvelope → ℕ
total e = e.max_input + e.reasoning_reserve + e.final_output_reserve + e.safety_reserve

abbrev pub fits : TokenEnvelope → Bool
fits e = leb (total e) e.context_window

unfoldable pub reasoning_of : ThinkingPolicy → ℕ
reasoning_of thinking = elim thinking.mode [
  | off ↦ 0
  | on ↦ elim thinking.budget_tokens [ none ↦ 0 | some n ↦ n ]
  | auto ↦ elim thinking.budget_tokens [ none ↦ 0 | some n ↦ n ]
]

unfoldable pub compile_token_envelope : ℤ → ℤ → ℤ → ThinkingPolicy → ℤ → Checked TokenEnvelope
unfolding reasoning_of
compile_token_envelope max_input context_window final_output_reserve thinking safety_reserve =
    let e : TokenEnvelope = record {
      max_input = pos_part max_input;
      reasoning_reserve = reasoning_of thinking;
      final_output_reserve = pos_part final_output_reserve;
      safety_reserve = pos_part safety_reserve;
      context_window = pos_part context_window;
    } in
    if is_negative max_input
      || is_negative context_window
      || is_negative final_output_reserve
      || is_negative safety_reserve
    then raised "token envelope values must be non-negative"
    else if not (fits e)
    then raised "MODEL_TOKEN_BUDGET_EXCEEDED"
    else returned e

pub data ModelOperation : Type 0 where
  chat embedding rerank : ModelOperation

abbrev pub operation_beq : ModelOperation → ModelOperation → Bool
operation_beq chat chat = true
operation_beq embedding embedding = true
operation_beq rerank rerank = true
operation_beq _ _ = false

pub record StageSpec : Type 0 where
  pub key : String
  pub operation : ModelOperation
  pub required_capabilities : List String
  pub required_modalities : List String
  pub embedding_fingerprint_required : Bool

-- The fields of a ModelContract that a binding reads; the last three are entries of
-- `thinking_capabilities`.
pub record ModelContract : Type 0 where
  pub operation : ModelOperation
  pub capabilities : List String
  pub input_modalities : List String
  pub enabled : Bool
  pub vision : Bool
  pub reasoning_control : Bool
  pub canary_auto : Bool

abbrev pub stage : String → ModelOperation → List String → Bool → StageSpec
stage key operation capabilities fingerprint = record {
  key = key;
  operation = operation;
  required_capabilities = capabilities;
  required_modalities = "text" ∷ [];
  embedding_fingerprint_required = fingerprint;
}

abbrev pub stage_catalog : List StageSpec
stage_catalog =
    let structured = "chat" ∷ "structured_output" ∷ [] in
    stage "ingestion.embedding" embedding ("embedding" ∷ []) true
    ∷ stage "retrieval.query_embedding" embedding ("embedding" ∷ []) true
    ∷ stage "retrieval.rerank" rerank ("rerank" ∷ []) false
    ∷ stage "chat.answer" chat structured false
    ∷ stage "chat.claim_verification" chat structured false
    ∷ stage "deep_research.planner" chat structured false
    ∷ stage "deep_research.verifier" chat structured false
    ∷ stage "deep_research.synthesis" chat structured false
    ∷ []

unfoldable pub find_stage : List StageSpec → String → Option StageSpec
find_stage [] key = none
find_stage (s ∷ stages) key =
    let rest = find_stage stages key in if s.key == key then some s else rest

abbrev pub vision_input : ModelContract → Bool
vision_input model = contains "image" model.input_modalities || model.vision

abbrev pub thinks : ThinkingMode → ModelContract → Option String
thinks off model = none
thinks on model = if model.reasoning_control then none else some "MODEL_THINKING_UNSUPPORTED"
thinks auto model = if model.canary_auto then none else some "MODEL_THINKING_AUTO_UNCONFIRMED"

-- The checks of `validate_stage_binding` on a stage of the catalog.
unfoldable pub check_binding : StageSpec → ModelContract → ThinkingPolicy → Checked StageSpec
check_binding s model thinking =
    if not model.enabled || not (operation_beq model.operation s.operation)
    then raised "MODEL_OPERATION_UNSUPPORTED"
    else if not (all (λ m. contains m model.input_modalities) s.required_modalities)
    then raised "MODEL_MODALITY_UNSUPPORTED"
    else if vision_input model
        && operation_beq s.operation chat
        && not (contains "image" s.required_modalities)
    then raised "MODEL_VISION_CATALOG_ONLY"
    else if not (all (λ c. contains c model.capabilities) s.required_capabilities)
    then raised "MODEL_CAPABILITY_UNSUPPORTED"
    else elim (thinks thinking.mode model) [ none ↦ returned s | some code ↦ raised code ]

unfoldable pub validate_stage_binding : String → ModelContract → ThinkingPolicy → Checked StageSpec
unfolding find_stage check_binding
validate_stage_binding key model thinking = elim (find_stage stage_catalog key) [
  | none ↦ raised "MODEL_STAGE_UNKNOWN"
  | some s ↦ check_binding s model thinking
]
