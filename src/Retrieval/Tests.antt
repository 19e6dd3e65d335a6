-- ===== src/Retrieval/Tests.antt =====
-- Runs of the caps, the ordering and the packing on small lists, and the theorems at concrete inputs.
use Prim.Native.Char.{code}
use wikipedia_rag.Common.{
  Memᴰ, ◌≤◌, ◌<◌, String, true, false, Option, none, some, List, [], ◌∷◌, ◌≡◌, refl, map, keep,
  length, leb, string_eq, arith,
}
use wikipedia_rag.Common.Text.{split, words_of, is_space, join_words}
use wikipedia_rag.Retrieval.{
  Candidate, or_text, locator_of, page_scope_key, document_key, knowledge_base_key, cap_from,
  apply_knowledge_base_cap, quota_from, apply_page_quota, order_from, order_ambiguity_candidates,
}
use wikipedia_rag.Retrieval.Keys.{DistinctKeys}
use wikipedia_rag.Retrieval.Confirm
use wikipedia_rag.Retrieval.Confirm.{
  Tables, ChunkRow, Hit, PublishedRows, is_current, fetch_current, current_row, refreshed,
  safe_candidates, confirm_label,
}
use wikipedia_rag.Retrieval.Order
use wikipedia_rag.Retrieval.Order.{Diverse}
use wikipedia_rag.Retrieval.Packing.{
  ParentExpansion, Request, Packing, normalize_for_embedding, terms, first_match,
  matched_negative_title, count_context_tokens, support_at, max_evidence, expands, prepare, hash_of,
  unit_of, novel,
}
use wikipedia_rag.Retrieval.Packing.Passes.{
  empty, visit_quotas, visit_prepared, visit, first_pass, revisit, second_pass, packed,
  postprocess_candidates,
}
use wikipedia_rag.Retrieval.Packing.Refinement
use wikipedia_rag.Retrieval.Packing.Step.{Reach, AllAllowed}
use wikipedia_rag.Retrieval.Packing.Bounds
use wikipedia_rag.Retrieval.Packing.Bounds.{total_tokens, counts_for}
use wikipedia_rag.Retrieval.Packing.Identity
use wikipedia_rag.Retrieval.Packing.Overflow

program : Unit {0}
unfolding is_current fetch_current current_row refreshed safe_candidates confirm_label split
    words_of is_space join_words or_text locator_of page_scope_key document_key knowledge_base_key
    cap_from apply_knowledge_base_cap quota_from apply_page_quota order_from
    order_ambiguity_candidates normalize_for_embedding terms first_match matched_negative_title
    count_context_tokens support_at expands prepare hash_of unit_of novel visit_quotas
    visit_prepared visit first_pass revisit second_pass packed postprocess_candidates
program = tt

abbrev candidate : String → String → String → String → Candidate
candidate chunk document page content = record {
  chunk_id = some chunk;
  knowledge_base_id = some "kb";
  document_id = some document;
  source_url = none;
  title = some document;
  section_path = [];
  content = content;
  parent_chunk_id = none;
  page_id = some page;
  locator = none;
  query_context = none;
  ranks = ("fusion", 1) ∷ [];
  metadata = record {
    parent_text = none;
    content_hash = none;
    parent_chunk_id = none;
    content_unit_id = none;
    supporting_chunk_ids = [];
    parent_expanded = false;
    adjacent_expansion = false;
    quota_overflow = false;
    knowledge_base_id = none;
    document_id = none;
    locator = none;
    title_aliases = [];
    query_context = none;
    subquery_id = none;
    transform_id = none;
  };
}

abbrev c1 : Candidate
c1 = candidate "c1" "mercury" "1" "a planet"

abbrev c2 : Candidate
c2 = candidate "c2" "mercury" "1" "small and hot"

abbrev c3 : Candidate
c3 = candidate "c3" "metal" "7" "a metal"

abbrev c4 : Candidate
c4 = candidate "c4" "mercury" "2" "a planet"

abbrev c5 : Candidate
c5 = candidate "c5" "band" "1" "a rock band"

abbrev found : List Candidate
found = c1 ∷ c2 ∷ c4 ∷ c3 ∷ c5 ∷ []

abbrev ids : List Candidate → List (Option String)
ids cs = map (λ c. c.chunk_id) cs

abbrev request : Request
request = record {
  python = record {
    casefold = λ s. s;
    isalnum = λ c. leb 48 (code c);
    stable_hash = λ s. s;
    findall = λ s. length (split s);
  };
  policy = record {
    dedup = true;
    page_quota = 1;
    parent_expansion = ParentExpansion.selective;
    child_tokens_min = 0;
    token_budget = true;
    max_context_tokens = 7;
    final_evidence_min = 3;
    final_evidence_max = 5;
  };
  query = "what is hot";
  requested_top_k = 4;
  ambiguous = true;
  negative_titles = "band" ∷ [];
}

two_of_the_base : ids (apply_knowledge_base_cap found 2) ≡ some "c1" ∷ some "c2" ∷ []
unfolding program
two_of_the_base = refl

one_a_page : ids (apply_page_quota found 1) ≡ some "c1" ∷ some "c4" ∷ some "c3" ∷ some "c5" ∷ []
unfolding program
one_a_page = refl

-- One chunk of each document comes first, the others keep their order.
meanings_first :
    ids (order_ambiguity_candidates found 4 true)
    ≡ some "c1" ∷ some "c3" ∷ some "c5" ∷ some "c2" ∷ some "c4" ∷ []
unfolding program
meanings_first = refl

-- c2 passes the page quota by a new term of the query, c4 repeats c1, and the title of c5 is excluded.
chosen : ids (postprocess_candidates request found).0 ≡ some "c1" ∷ some "c2" ∷ some "c3" ∷ []
unfolding program
chosen = refl

support_is_kept :
    map (λ c. c.metadata.supporting_chunk_ids) (postprocess_candidates request found).0
    ≡ ("c1" ∷ "c4" ∷ []) ∷ ("c2" ∷ []) ∷ ("c3" ∷ []) ∷ []
unfolding program
support_is_kept = refl

-- Without a query c2 is deferred, and the second pass takes it.
overflow_chosen :
    ids (postprocess_candidates (record request { query = "" }) found).0
    ≡ some "c1" ∷ some "c3" ∷ some "c2" ∷ []
unfolding program
overflow_chosen = refl

abbrev room : 0 < max_evidence request
room = omega arith

order_ambiguity_candidates-Diverse_example :
    Diverse 4 [] found (order_ambiguity_candidates found 4 true)
order_ambiguity_candidates-Diverse_example =
    Order.order_ambiguity_candidates-Diverse found 4 (omega arith)

packed-Reach_example : Reach request empty (packed request found)
packed-Reach_example = Refinement.packed-Reach request found room

postprocess_candidates-length_example :
    (length (postprocess_candidates request found).0 ≤ 4)
    × (length (postprocess_candidates request found).0 ≤ 5)
    × (length (postprocess_candidates request found).0 ≤ 12)
postprocess_candidates-length_example = Bounds.postprocess_candidates-length request found room

postprocess_candidates-tokens_example :
    total_tokens request (postprocess_candidates request found).0 ≤ 7
postprocess_candidates-tokens_example = Bounds.postprocess_candidates-tokens request found room refl

postprocess_candidates-documents_example :
    length (keep (counts_for request "mercury") (postprocess_candidates request found).0) ≤ 2
postprocess_candidates-documents_example =
    Bounds.postprocess_candidates-documents request found "mercury" room

postprocess_candidates-DistinctKeys_example :
    DistinctKeys (map (unit_of request) (postprocess_candidates request found).0)
    × DistinctKeys (map (hash_of request) (postprocess_candidates request found).0)
postprocess_candidates-DistinctKeys_example =
    Identity.postprocess_candidates-DistinctKeys request found room refl

postprocess_candidates-AllAllowed_example :
    AllAllowed request (postprocess_candidates request found).0
postprocess_candidates-AllAllowed_example =
    Identity.postprocess_candidates-AllAllowed request found room

abbrev pending : Packing
pending = record empty { deferred = c2 ∷ [] }

second_pass-query_example :
    second_pass (record request { query = "" }) 3 false pending (c2 ∷ c3 ∷ [])
    ≡ second_pass request 3 false pending (c2 ∷ c3 ∷ [])
second_pass-query_example = Overflow.second_pass-query request "" 3 pending (c2 ∷ c3 ∷ [])

abbrev current_chunk : ChunkRow String
current_chunk = record {
  id = "c1";
  knowledge_base_id = "kb";
  document_id = "mercury";
  document_version_id = "v2";
  publication_status = "published";
  metadata = "new";
}

abbrev tables : Tables String
tables = record {
  chunks =
      current_chunk
      ∷ record {
        id = "c2";
        knowledge_base_id = "kb";
        document_id = "mercury";
        document_version_id = "v1";
        publication_status = "published";
        metadata = "old";
      }
      ∷ [];
  documents =
      record {
        id = "mercury";
        knowledge_base_id = "kb";
        lifecycle_state = "active";
        current_version_id = "v2";
      }
      ∷ [];
  versions =
      record {
        id = "v2";
        document_id = "mercury";
        knowledge_base_id = "kb";
        status = "published";
        lifecycle_state = "active";
      }
      ∷ [];
}

abbrev hit : String → Hit String
hit chunk = record {
  chunk_id = some chunk;
  knowledge_base_id = none;
  document_id = none;
  document_version_id = none;
  metadata = "index";
}

-- The chunk of the replaced version is dropped.
stale_dropped :
    map (λ h. h.chunk_id) (confirm_label (λ a b. b) "kb" tables (hit "c1" ∷ hit "c2" ∷ []))
    ≡ some "c1" ∷ []
unfolding program
stale_dropped = refl

kept_hit :
    Memᴰ
      (refreshed (λ a b. b) "kb" (hit "c1") current_chunk)
      (confirm_label (λ a b. b) "kb" tables (hit "c1" ∷ hit "c2" ∷ []))
unfolding program
kept_hit = Memᴰ.head refl

confirm_label_current_example : PublishedRows tables "kb" "c1"
unfolding refreshed
confirm_label_current_example =
    Confirm.confirm_label_current (λ a b. b) "kb" tables (hit "c1" ∷ hit "c2" ∷ [])
      (refreshed (λ a b. b) "kb" (hit "c1") current_chunk) kept_hit
