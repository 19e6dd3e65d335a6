-- ===== src/Retrieval/Events.antt =====
-- The scope key of a candidate, the events of the knowledge base cap, and the query contexts that events
-- carry, of retrieval.py.
use Prim.Native.String.{◌++◌, count}
use wikipedia_rag.Common.{ℕ, String, not, Option, some, List, map, keep, contains, string_eq}
use wikipedia_rag.Retrieval.{Candidate, or_text}

-- `candidate['chunk_id']` is there for every candidate of a search; a missing knowledge base is "".
unfoldable pub candidate_scope_key : Candidate → String
unfolding or_text
candidate_scope_key c = (or_text c.knowledge_base_id "" ++ ":") ++ or_text c.chunk_id ""

-- An event KNOWLEDGE_BASE_CAP, with the candidate of its `_decision_base`.
pub record CapEvent : Type 0 where
  pub candidate : Candidate
  pub max_per_kb : ℕ

unfoldable pub knowledge_base_cap_events : List Candidate → List Candidate → ℕ → List CapEvent
unfolding candidate_scope_key
knowledge_base_cap_events before after max_per_kb =
    let kept = map candidate_scope_key after in
    map (λ c. record { candidate = c; max_per_kb = max_per_kb })
      (keep (λ c. not (contains (candidate_scope_key c) kept)) before)

pub record SubqueryContext : Type 0 where
  pub transform_id : String
  pub subquery_id : String
  pub parent_subquery_id : Option String
  pub query_role : String
  pub query_hash : String
  pub transform_type : String

pub record QueryRef : Type 0 where
  pub subquery_id : String
  pub transform_id : String
  pub parent_subquery_id : Option String
  pub query_role : String
  pub order : ℕ
  pub query_hash : String
  pub length_chars : ℕ
  pub hash : String

-- `hash tag query` is `stable_hash([tag, query], 32)`.
module _ (hash : String → String → String) where
  unfoldable pub make_query_context :
      String → String → String → String → String → Option String → SubqueryContext
  make_query_context query transform_id subquery_id query_role transform_type parent = record {
    transform_id = transform_id;
    subquery_id = subquery_id;
    parent_subquery_id = parent;
    query_role = query_role;
    query_hash = hash "query_context" query;
    transform_type = transform_type;
  }

  unfoldable pub query_ref_from_context : SubqueryContext → String → ℕ → QueryRef
  unfolding or_text
  query_ref_from_context context text order = record {
    subquery_id = context.subquery_id;
    transform_id = context.transform_id;
    parent_subquery_id = context.parent_subquery_id;
    query_role = context.query_role;
    order = order;
    query_hash = hash "retrieval_query" text;
    length_chars = count text;
    hash = or_text (some context.query_hash) (hash "query_context" text);
  }
