-- ===== src/Retrieval/Profile.antt =====
-- The ranges that retrieval_profile.py asks of a retrieval profile, and what they give the packing. The
-- stages of deep research, whose ratios are floats, are left out.
use wikipedia_rag.Common.{ℕ, ◌<◌, Bool, true, ◌&&◌, ◌||◌, leb, ◌≡◌, arith}
use wikipedia_rag.Retrieval.Packing.{Request, Policy, max_evidence}

pub record ChunkingConfig : Type 0 where
  pub parent_child : Bool
  pub child_tokens_min : ℕ
  pub child_tokens_max : ℕ
  pub parent_tokens_min : ℕ
  pub parent_tokens_max : ℕ
  pub hard_overlap : ℕ
  pub preserve_sections : Bool
  pub preserve_paragraphs : Bool

abbrev valid_chunking : ChunkingConfig → Bool
valid_chunking c =
    leb 1 c.child_tokens_min
    && leb 1 c.child_tokens_max
    && leb 1 c.parent_tokens_min
    && leb 1 c.parent_tokens_max
    && leb c.child_tokens_min c.child_tokens_max
    && leb c.parent_tokens_min c.parent_tokens_max

pub data FusionMode : Type 0 where
  rrf unfused : FusionMode

pub data TransformMode : Type 0 where
  never conditional every : TransformMode

pub record RetrievalConfig : Type 0 where
  pub bm25 : Bool
  pub dense : Bool
  pub fusion : FusionMode
  pub bm25_top_k : ℕ
  pub dense_top_k : ℕ
  pub fusion_top_k : ℕ
  pub rerank : Bool
  pub rerank_input_k : ℕ
  pub rerank_top_k : ℕ
  pub query_rewrite : TransformMode
  pub query_decomposition : TransformMode
  pub top_k : ℕ

abbrev valid_retrieval : RetrievalConfig → Bool
valid_retrieval c =
    leb 1 c.bm25_top_k
    && leb 1 c.dense_top_k
    && leb 1 c.fusion_top_k
    && leb 1 c.rerank_input_k
    && leb 1 c.rerank_top_k
    && leb 1 c.top_k

-- PostprocessConfig, of which the policy of the packing is a part.
abbrev valid_postprocess : Policy → Bool
valid_postprocess p =
    leb 1 p.page_quota
    && leb 1 p.final_evidence_min
    && leb 1 p.final_evidence_max
    && leb 256 p.max_context_tokens
    && leb p.final_evidence_min p.final_evidence_max

pub record QuestionBudget : Type 0 where
  pub max_attempts : ℕ
  pub max_rewrites : ℕ
  pub max_depth : ℕ

abbrev within : ℕ → ℕ → ℕ → Bool
within low high n = leb low n && leb n high

abbrev valid_question_budget : QuestionBudget → Bool
valid_question_budget b = within 1 100 b.max_attempts && leb b.max_rewrites 20 && leb b.max_depth 20

pub record DeepResearchConfig : Type 0 where
  pub max_questions : ℕ
  pub max_derived_per_episode : ℕ
  pub max_episodes : ℕ
  pub max_tool_calls : ℕ
  pub heartbeat_seconds : ℕ
  pub tool_timeout_seconds : ℕ
  pub deadline_seconds : ℕ
  pub report_reserve_seconds : ℕ
  pub question_budget : QuestionBudget

abbrev valid_deep_research : DeepResearchConfig → Bool
valid_deep_research c =
    within 1 1000 c.max_questions
    && leb c.max_derived_per_episode 100
    && within 1 1000 c.max_episodes
    && within 1 5000 c.max_tool_calls
    && within 15 900 c.heartbeat_seconds
    && within 15 900 c.tool_timeout_seconds
    && within 30 86400 c.deadline_seconds
    && within 10 300 c.report_reserve_seconds
    && valid_question_budget c.question_budget

-- The part of a RetrievalProfile that its validators read.
pub record Ranges : Type 0 where
  pub version : ℕ
  pub chunking : ChunkingConfig
  pub retrieval : RetrievalConfig
  pub postprocess : Policy
  pub deep_research : DeepResearchConfig

abbrev fusion_fits : RetrievalConfig → Bool
fusion_fits c = elim c.fusion [ rrf ↦ c.bm25 && c.dense | unfused ↦ true ]

unfoldable pub validate_profile : Ranges → Bool
validate_profile p =
    leb 1 p.version
    && valid_chunking p.chunking
    && valid_retrieval p.retrieval
    && valid_postprocess p.postprocess
    && valid_deep_research p.deep_research
    && (p.retrieval.bm25 || p.retrieval.dense)
    && fusion_fits p.retrieval

-- A valid profile and a positive number of wanted results leave room for evidence, as the theorems on
-- the packing ask.
pub validate_profile-lt :
    (p : Ranges) (r : Request)
    → validate_profile p ≡ true
    → r.policy ≡ p.postprocess
    → 0 < r.requested_top_k
    → 0 < max_evidence r
unfolding validate_profile
validate_profile-lt p r h e k =
    let most : leb 1 p.postprocess.final_evidence_max ≡ true = ground arith in
    let same : r.policy.final_evidence_max ≡ p.postprocess.final_evidence_max = cc in ground arith
