-- ===== src/ModelControl/Binding.antt =====
-- Which models `validate_stage_binding` lets a stage use.
use wikipedia_rag.Common.{
  String, Bool, true, false, not, ◌&&◌, ◌||◌, [], ◌∷◌, ◌==◌, string_eq, if◌then◌else◌, ◌≡◌, refl,
  arith, contains, inl, inr, Bool-cases,
}
use wikipedia_rag.ModelControl.{
  Checked, returned, raised, ThinkingPolicy, ThinkingMode, on, off, auto, ModelContract, StageSpec,
  chat, embedding, rerank, stage, check_binding, find_stage, validate_stage_binding,
}

abbrev pub is_returned : Checked StageSpec → Bool
is_returned (returned s) = true
is_returned (raised code) = false

-- The model has been seen to think as the policy asks.
abbrev pub confirmed : ThinkingMode → ModelContract → Bool
confirmed off model = true
confirmed on model = model.reasoning_control
confirmed auto model = model.canary_auto

abbrev pub embeds : ModelContract → Bool
embeds model = elim model.operation [
  | embedding ↦ contains "embedding" model.capabilities
  | chat ↦ false
  | rerank ↦ false
]

abbrev pub reranks : ModelContract → Bool
reranks model = elim model.operation [
  | rerank ↦ contains "rerank" model.capabilities
  | chat ↦ false
  | embedding ↦ false
]

-- A model that chats with structured output and takes no images.
abbrev pub chats : ModelContract → Bool
chats model = elim model.operation [
  | chat ↦
      contains "chat" model.capabilities
      && contains "structured_output" model.capabilities
      && not model.vision
      && not (contains "image" model.input_modalities)
  | embedding ↦ false
  | rerank ↦ false
]

-- What each stage wants of a model.
abbrev pub fits_stage : String → ModelContract → Bool
fits_stage key model =
    if "ingestion.embedding" == key || "retrieval.query_embedding" == key
    then embeds model
    else if "retrieval.rerank" == key
    then reranks model
    else if "chat.answer" == key
        || "chat.claim_verification" == key
        || "deep_research.planner" == key
        || "deep_research.verifier" == key
        || "deep_research.synthesis" == key
    then chats model
    else false

abbrev pub usable : ThinkingPolicy → ModelContract → Bool
usable thinking model =
    model.enabled && contains "text" model.input_modalities && confirmed thinking.mode model

module _ (model : ModelContract) (thinking : ThinkingPolicy) (key : String)
    (fingerprint : Bool) where
  check_embedding :
      is_returned
        (check_binding (stage key embedding ("embedding" ∷ []) fingerprint) model thinking)
      ≡ (usable thinking model && embeds model)
  unfolding check_binding
  check_embedding = ground arith

  check_rerank :
      is_returned (check_binding (stage key rerank ("rerank" ∷ []) fingerprint) model thinking)
      ≡ (usable thinking model && reranks model)
  unfolding check_binding
  check_rerank = ground arith

  check_chat :
      is_returned (
        check_binding
          (stage key chat ("chat" ∷ "structured_output" ∷ []) fingerprint)
          model
          thinking)
      ≡ (usable thinking model && chats model)
  unfolding check_binding
  check_chat = ground arith

-- A stage is bound to a model exactly when the model is enabled, takes text, has been seen to think as the policy asks
-- (with reasoning control for "on", by the canary for "auto"), and fits the stage: an embedding model for
-- the two embedding stages, a reranker for the rerank stage, and for the five chat stages a chat model with
-- structured output that takes no images. Every other key is refused.
pub validate_stage_binding-returned_iff :
    (key : String) (model : ModelContract) (thinking : ThinkingPolicy)
    → is_returned (validate_stage_binding key model thinking)
      ≡ (usable thinking model && fits_stage key model)
unfolding validate_stage_binding find_stage
validate_stage_binding-returned_iff key model thinking =
    elim (Bool-cases ("ingestion.embedding" == key)) [
      | inl a ↦
          rw (validate_stage_binding, a) (check_embedding model thinking "ingestion.embedding" true)
      | inr a ↦ elim (Bool-cases ("retrieval.query_embedding" == key)) [
        | inl b ↦
            rw (validate_stage_binding, a, b)
              (check_embedding model thinking "retrieval.query_embedding" true)
        | inr b ↦ elim (Bool-cases ("retrieval.rerank" == key)) [
          | inl c ↦
              rw (validate_stage_binding, a, b, c)
                (check_rerank model thinking "retrieval.rerank" false)
          | inr c ↦ elim (Bool-cases ("chat.answer" == key)) [
            | inl d ↦
                rw (validate_stage_binding, a, b, c, d)
                  (check_chat model thinking "chat.answer" false)
            | inr d ↦ elim (Bool-cases ("chat.claim_verification" == key)) [
              | inl e ↦
                  rw (validate_stage_binding, a, b, c, d, e)
                    (check_chat model thinking "chat.claim_verification" false)
              | inr e ↦ elim (Bool-cases ("deep_research.planner" == key)) [
                | inl f ↦
                    rw (validate_stage_binding, a, b, c, d, e, f)
                      (check_chat model thinking "deep_research.planner" false)
                | inr f ↦ elim (Bool-cases ("deep_research.verifier" == key)) [
                  | inl g ↦
                      rw (validate_stage_binding, a, b, c, d, e, f, g)
                        (check_chat model thinking "deep_research.verifier" false)
                  | inr g ↦ elim (Bool-cases ("deep_research.synthesis" == key)) [
                    | inl h ↦
                        rw (validate_stage_binding, a, b, c, d, e, f, g, h)
                          (check_chat model thinking "deep_research.synthesis" false)
                    | inr h ↦
                        rw (validate_stage_binding, a, b, c, d, e, f, g, h)
                          (nothing (usable thinking model))
                  ]
                ]
              ]
            ]
          ]
        ]
      ]
    ]
  where
    nothing : (b : Bool) → false ≡ (b && false)
    nothing true = refl
    nothing false = refl
