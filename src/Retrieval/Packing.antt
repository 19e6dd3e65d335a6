-- ===== src/Retrieval/Packing.antt =====
-- What `postprocess_candidates` of retrieval.py reads of one candidate, and its changes of the local
-- variables.
pub mod Passes
pub mod Step
pub mod Rounds
pub mod Refinement
pub mod Bounds
pub mod Identity
pub mod Overflow
use Prim.Native.Char.{Char}
use wikipedia_rag.Common.{
  ℕ, zero, suc, ◌+◌, max, min, String, Bool, true, false, not, ◌&&◌, ◌||◌, Option, none, some, List,
  [], ◌∷◌, ◌++◌, map, ◌==◌, string_eq, nat_eq, any, contains, length, ltb, leb, if◌then◌else◌,
}
use wikipedia_rag.Common.Text.{is_empty, split, join_words}
use wikipedia_rag.Retrieval.{
  QueryContext, Metadata, Candidate, PageKey, page_key_beq, page_scope_key, document_key, counted,
  or_text,
}
use Prim.Native.String.{[], ◌∷◌, ◌++◌ as ◌^◌}

-- What the code takes from Python: `casefold` and `isalnum` of its Unicode tables, the SHA-1 digest
-- that `stable_hash([content], 32)` cuts, and the number of matches of `\w+|[^\w\s]`.
pub record Python : Type 0 where
  pub casefold : String → String
  pub isalnum : Char → Bool
  pub stable_hash : String → String
  pub findall : String → ℕ

pub data ParentExpansion : Type 0 where
  off selective always : ParentExpansion

-- The fields of the profile that the passes read; `token_budget` is the packing mode.
pub record Policy : Type 0 where
  pub dedup : Bool
  pub page_quota : ℕ
  pub parent_expansion : ParentExpansion
  pub child_tokens_min : ℕ
  pub token_budget : Bool
  pub max_context_tokens : ℕ
  pub final_evidence_min : ℕ
  pub final_evidence_max : ℕ

-- The arguments of one call. `negative_titles` is what `extract_explicit_negative_titles` finds in the
-- query, and `ambiguous` the test `ambiguity_mode in {"auto", "always"}`.
pub record Request : Type 0 where
  pub python : Python
  pub policy : Policy
  pub query : String
  pub requested_top_k : ℕ
  pub ambiguous : Bool
  pub negative_titles : List String

pub data Reason : Type 0 where
  explicit_negative_title : (matched : String) → Reason
  parent_expanded : Reason
  near_duplicate : (content_hash : String) → Reason
  document_unit_quota : (quota : ℕ) → Reason
  page_quota : (quota : ℕ) → Reason
  token_budget : (budget used candidate_tokens : ℕ) → Reason
  selected_for_context : (tokens final_rank : ℕ) → Reason
  novel_requirement_quota_overflow : (final_rank : ℕ) → Reason

-- The candidate of a decision stands for its `_decision_base`.
pub data Event : Type 0 where
  decision : Candidate → Reason → Event
  evidence_target : (target : ℕ) (met : Bool) → Event

-- The local variables of the function. A value of `seen_units` is an element of `selected`, the same
-- object: it is kept as its index.
pub record Packing : Type 0 where
  pub selected : List Candidate
  pub page_counts : PageKey → ℕ
  pub document_counts : String → ℕ
  pub seen_hashes : List String
  pub seen_units : String → Option ℕ
  pub deferred : List Candidate
  pub used_tokens : ℕ
  pub events : List Event

abbrev spaced : (Char → Bool) → String → String
spaced isalnum [] = []
spaced isalnum (c ∷ s) = let rest = spaced isalnum s in if isalnum c then c ∷ rest else " " ^ rest

unfoldable pub normalize_for_embedding : Python → String → String
normalize_for_embedding py text = join_words (split (spaced py.isalnum (py.casefold text)))

unfoldable pub terms : Python → String → List String
unfolding normalize_for_embedding
terms py text = split (normalize_for_embedding py text)

unfoldable pub count_context_tokens : Python → String → ℕ
count_context_tokens py content = max 1 (py.findall content)

unfoldable pub first_match : Python → List String → List String → Option String
first_match py titles [] = none
first_match py titles (alias ∷ aliases) =
    let rest = first_match py titles aliases in
    let normalized = normalize_for_embedding py alias in
    if contains normalized titles then some normalized else rest

-- `_matched_negative_title`
unfoldable pub matched_negative_title : Python → List String → Candidate → Option String
unfolding first_match or_text
matched_negative_title py titles c =
    first_match py titles (or_text c.title "" ∷ c.section_path ++ c.metadata.title_aliases)

abbrev pub emit : Candidate → Reason → Packing → Packing
emit c reason s = record s { events = s.events ++ decision c reason ∷ [] }

abbrev pub is_some {ℓ} : {A : Type ℓ} → Option A → Bool
is_some none = false
is_some (some a) = true

-- `supporting_chunk_ids` with one more id, when there is one and it is new
abbrev pub with_chunk : String → List String → List String
with_chunk chunk_id ids =
    if not (is_empty chunk_id) && not (contains chunk_id ids) then ids ++ chunk_id ∷ [] else ids

-- `existing["metadata"] = existing_meta` at one index of `selected`
unfoldable pub support_at : ℕ → String → List Candidate → List Candidate
support_at n chunk_id [] = []
support_at zero chunk_id (c ∷ cs) =
    record c {
      metadata = record (c.metadata) {
        supporting_chunk_ids = with_chunk chunk_id c.metadata.supporting_chunk_ids;
      };
    }
    ∷ cs
support_at (suc n) chunk_id (c ∷ cs) = c ∷ support_at n chunk_id cs

abbrev pub mark_duplicate : String → String → Packing → Packing
mark_duplicate unit chunk_id s = elim (s.seen_units unit) [
  | none ↦ s
  | some i ↦ record s { selected = support_at i chunk_id s.selected }
]

abbrev pub defer : Candidate → Packing → Packing
defer c s = record s { deferred = s.deferred ++ c ∷ [] }

abbrev pub admit : Candidate → String → String → ℕ → Packing → Packing
admit c content_hash unit tokens s = record s {
  selected = s.selected ++ c ∷ [];
  page_counts = counted page_key_beq s.page_counts (page_scope_key c);
  document_counts = counted (λ a b. a == b) s.document_counts (document_key c);
  seen_hashes = content_hash ∷ s.seen_hashes;
  seen_units = λ u. if unit == u then some (length s.selected) else s.seen_units u;
  used_tokens = s.used_tokens + tokens;
}

abbrev pub set_rank : List (String × ℕ) → String → ℕ → List (String × ℕ)
set_rank [] key n = (key, n) ∷ []
set_rank ((k, m) ∷ ranks) key n =
    let rest = set_rank ranks key n in if k == key then (k, n) ∷ ranks else (k, m) ∷ rest

abbrev pub exempt : Metadata → Bool
exempt m = m.parent_expanded || m.adjacent_expansion

module _ (r : Request) where
  abbrev pub max_evidence : ℕ
  max_evidence = min (min r.requested_top_k r.policy.final_evidence_max) 12

  abbrev pub document_limit : ℕ
  document_limit = if r.ambiguous then 2 else 3

  unfoldable pub expands : Candidate → Bool
  unfolding or_text
  expands c = not (is_empty (or_text c.metadata.parent_text "")) && elim r.policy.parent_expansion [
    | off ↦ false
    | selective ↦ ltb (length (split c.content)) r.policy.child_tokens_min
    | always ↦ true
  ]

  -- The candidate with the content and the metadata that the first pass prepares.
  unfoldable pub prepare : Candidate → Candidate
  unfolding or_text expands
  prepare c =
      let content = if expands c then or_text c.metadata.parent_text "" else c.content in
      let content_hash = or_text c.metadata.content_hash (r.python.stable_hash content) in
      let parent_id = or_text c.metadata.parent_chunk_id (or_text c.parent_chunk_id "") in
      record c {
        content = content;
        metadata = record (c.metadata) {
          parent_expanded = expands c || c.metadata.parent_expanded;
          content_unit_id =
              some (if is_empty parent_id then "content:" ^ content_hash else parent_id);
          supporting_chunk_ids = with_chunk (or_text c.chunk_id "") c.metadata.supporting_chunk_ids;
        };
      }

  -- Both passes read the hash and the unit off the prepared candidate. Its unit is never empty.
  unfoldable pub hash_of : Candidate → String
  unfolding or_text
  hash_of c = or_text c.metadata.content_hash (r.python.stable_hash c.content)

  unfoldable pub unit_of : Candidate → String
  unfolding hash_of
  unit_of c = or_text c.metadata.content_unit_id ("content:" ^ hash_of c)

  abbrev pub seen : Candidate → Packing → Bool
  seen c s = contains (hash_of c) s.seen_hashes || is_some (s.seen_units (unit_of c))

  -- A term of the content that the query asks for and nothing selected has.
  unfoldable pub novel : String → List Candidate → Bool
  unfolding terms
  novel content selected =
      let existing = terms r.python (join_words (map (λ c. c.content) selected)) in
      any (λ t. contains t (terms r.python r.query) && not (contains t existing))
        (terms r.python content)

  abbrev pub over_budget : ℕ → Packing → Bool
  over_budget tokens s =
      r.policy.token_budget && ltb r.policy.max_context_tokens (s.used_tokens + tokens)

  abbrev pub document_full : Candidate → Packing → Bool
  document_full c s =
      leb document_limit (s.document_counts (document_key c)) && not (exempt c.metadata)
