-- ===== src/Search/ServiceTests.antt =====
-- A search service with two documents, and the theorems of the search at it.
use Prim.Native.String.{[], ◌∷◌}
use wikipedia_rag.Common.{
  String, true, false, List, [], ◌∷◌, none, some, nat_eq, string_eq, map, ◌≡◌, refl, ap, sym, ◌∙◌,
  ℕ, zero, suc, leb, length, arith,
}
use wikipedia_rag.Common.Int.{pos}
use wikipedia_rag.Common.Text.{strip, lstrip, rstrip, is_space, split, words_of, join_words}
use wikipedia_rag.Json.{Fields, text, nonfinite, obj, end, field}
use wikipedia_rag.Access.{
  PlatformRole, ResourceType, PrincipalType, ResourcePermission, resolve_access,
  principal_permissions, permissions_from, visit_grant, inherited,
}
use wikipedia_rag.Grants.{
  DocumentRow, Database, authorized_document_ids, batch_allows, group_grants, group_ids_for_user,
}
use wikipedia_rag.Retrieval.Confirm.{
  Tables, ChunkRow, DocumentState, VersionState, fetch_current, current_row, is_current,
}
use wikipedia_rag.Search.{
  Evidence, SearchRequest, SearchResult, gives, cache_window, infer_ranking_profile, index_rows,
  widen, search_profile_overrides,
}
use wikipedia_rag.Search.Cursor.{cut_padding, encode_cursor, decode_cursor}
use wikipedia_rag.Search.Authority
use wikipedia_rag.Search.Stale
use wikipedia_rag.Search.Stale.{asking, Bare}
use wikipedia_rag.Search.Groups.{
  document_groups, facet_buckets, evidence_facets, add_item, add_items, insert, sort_onto, group_of,
  best_of,
}
use wikipedia_rag.Search.Service.{
  empty_response, SearchResponse, Services, Cached, SearchOutcome, served, raised, out_of_fuel,
  confirm_current_search_results, run_public_search, respond, fingerprint_of, confirmed,
  search_window, serve_window, page_response, confirm_workspace_search_results, confirm_buckets,
  confirm_bucket, workspace_cache_access_marker, cache_access_marker,
}
use wikipedia_rag.Search.Filters.{
  field_value, matches_request, matches_filters, matches_expression, source_blob, canonical_field,
  occurs,
}
use wikipedia_rag.Search.Results.{
  search_result, evidence_score, search_fingerprint, opensearch_filter_payload, add_expressions,
}
use wikipedia_rag.Search.Tests.{unary_codec, unary-Base64Json, python, hit, request}
use wikipedia_rag.Search.Slices.{take-whole}
use wikipedia_rag.Search.Pages
use wikipedia_rag.Search.Paging
use wikipedia_rag.Search.Pages.{follow, Ranked}

program : Unit {0}
unfolding run_public_search respond fingerprint_of confirmed search_window serve_window
    page_response confirm_current_search_results confirm_workspace_search_results confirm_buckets
    confirm_bucket fetch_current is_current current_row encode_cursor cut_padding document_groups
    add_item add_items insert sort_onto group_of best_of cache_window widen infer_ranking_profile
    index_rows facet_buckets search_result evidence_score field_value strip lstrip rstrip is_space
    matches_request matches_filters matches_expression search_fingerprint
    workspace_cache_access_marker cache_access_marker opensearch_filter_payload add_expressions
    authorized_document_ids batch_allows group_grants group_ids_for_user resolve_access
    principal_permissions permissions_from visit_grant inherited source_blob join_words split
    words_of search_profile_overrides evidence_facets canonical_field occurs
program = tt

-- Bob is granted one document, and the other is his neighbour's.
abbrev database : Database
database = record {
  memberships = [];
  resource_grants =
      record {
        id = "g1";
        resource_type = ResourceType.document;
        resource_id = "d1";
        principal_type = PrincipalType.user;
        principal_id = "bob";
        permission = ResourcePermission.read;
        created_at = 1;
      }
      ∷ [];
  knowledge_bases = record { id = "kb"; owner_user_id = "alice" } ∷ [];
  documents = row "d1" ∷ row "d2" ∷ [];
  users = "alice" ∷ "bob" ∷ [];
  groups = [];
  revision = some 4;
  clock = 10;
  drawn = 0;
}
  where
    row : String → DocumentRow
    row id = record {
      id = id;
      knowledge_base_id = "kb";
      owner_user_id = "alice";
      inherits_kb_access = false;
      lifecycle_state = "active";
    }

abbrev published : String → String → ChunkRow Fields
published chunk document = record {
  id = chunk;
  knowledge_base_id = "kb";
  document_id = document;
  document_version_id = "v1";
  publication_status = "published";
  metadata = end;
}

abbrev document_state : String → DocumentState
document_state id = record {
  id = id;
  knowledge_base_id = "kb";
  lifecycle_state = "active";
  current_version_id = "v1";
}

abbrev version_state : String → VersionState
version_state document = record {
  id = "v1";
  document_id = document;
  knowledge_base_id = "kb";
  status = "published";
  lifecycle_state = "active";
}

abbrev evidence : String → String → Evidence
evidence chunk document = record {
  chunk_id = chunk;
  knowledge_base_id = "kb";
  title = "Stations";
  content = "";
  source_url = "";
  metadata = field "document_id" (text document) end;
  scores = ("rerank", pos 3) ∷ [];
}

abbrev services : Services
services = record {
  python = python;
  codec = unary_codec;
  postgres = record { ordered = λ l. l; any-ordered = λ p l. refl; uuid4 = λ n. "uuid" };
  database = database;
  tables = record {
    chunks = published "c1" "d1" ∷ published "c2" "d2" ∷ [];
    documents = document_state "d1" ∷ document_state "d2" ∷ [];
    versions = version_state "d1" ∷ version_state "d2" ∷ [];
  };
  found_rows = [];
  document_scope_marker = "none";
  retrieve = λ q. evidence "c2" "d2" ∷ evidence "c1" "d1" ∷ [];
}

run_public_search-readable_example :
    Authority.MayShow services "bob" PlatformRole.user request
      (run_public_search services (some "bob") (some PlatformRole.user) request ("kb" ∷ []) none)
run_public_search-readable_example =
    Authority.run_public_search-readable services "bob" PlatformRole.user (refl, tt)
      (refl, (refl, tt)) request ("kb" ∷ []) none

-- A cursor whose offset is an infinity, as of the JSON text 1e400.
abbrev overflowing : Services
overflowing = record services {
  codec = record unary_codec { decode = λ t. gives (obj (field "offset" nonfinite end)) };
}

overflows :
    run_public_search overflowing
      (some "bob")
      (some PlatformRole.user)
      (record request { cursor = some "b" })
      ("kb" ∷ [])
      none
    ≡ raised
unfolding program decode_cursor
overflows = refl

abbrev one_each : SearchRequest
one_each = record request { limit = 1 }

abbrev ranking : List SearchResult
ranking = map (search_result services.python) (evidence "c2" "d2" ∷ evidence "c1" "d1" ∷ [])

confirms : confirmed services (some "alice") (some PlatformRole.user) ranking ≡ ranking
unfolding program
confirms = refl

finds :
    (window : ℕ)
    → Pages.found services (some "alice") (some PlatformRole.user) one_each ("kb" ∷ []) window
      ≡ ranking
unfolding program
finds window = refl

is_Ranked : Ranked services (some "alice") (some PlatformRole.user) one_each ("kb" ∷ []) ranking
is_Ranked window low high =
    let whole = take-whole window ranking (ground arith) in
    (
      finds window ∙ sym whole,
      ap (confirmed services (some "alice") (some PlatformRole.user)) whole ∙ confirms ∙ sym whole,
    )

same_fingerprint :
    fingerprint_of services (some "alice") (some PlatformRole.user) one_each ("kb" ∷ []) ≡ "fp"
unfolding program
same_fingerprint = refl

-- Alice follows two pages of one result.
follow_all_example :
    follow services (some "alice") (some PlatformRole.user) one_each ("kb" ∷ []) 3 none none
    ≡ some ranking
unfolding fingerprint_of search_fingerprint
follow_all_example =
    Paging.follow_all services (some "alice") (some PlatformRole.user) one_each ("kb" ∷ []) ranking
      is_Ranked (ground arith) unary-Base64Json refl (ground arith) none tt

abbrev both : Tables Fields
both = record services.tables {
  chunks =
      published "c1" "d1"
      ∷ published "c2" "d2"
      ∷ record (published "c4" "d4") { knowledge_base_id = "kb2" }
      ∷ [];
  documents =
      document_state "d1"
      ∷ document_state "d2"
      ∷ record (document_state "d4") { knowledge_base_id = "kb2" }
      ∷ [];
  versions =
      version_state "d1"
      ∷ version_state "d2"
      ∷ record (version_state "d4") { knowledge_base_id = "kb2" }
      ∷ [];
}

abbrev shown : SearchOutcome → List String
shown (served response after) = map (λ r. r.chunk_id) response.results
shown raised = []
shown out_of_fuel = []

-- Of the two published chunks Bob is shown the one of his document, and Alice, who owns both, both.
only_readable :
    (shown
        (run_public_search services (some "bob") (some PlatformRole.user) request ("kb" ∷ []) none)
      ≡ "c1" ∷ [])
    × (shown (
          run_public_search services
            (some "alice")
            (some PlatformRole.user)
            request
            ("kb" ∷ [])
            none)
        ≡ "c2" ∷ "c1" ∷ [])
unfolding program
only_readable = (refl, refl)

-- The confirmation groups the results of a search in several knowledge bases by knowledge base.
regrouped :
    map
      (λ (r : SearchResult). r.chunk_id)
      (confirm_current_search_results both
        (hit "c1" "d1" "kb" 9 ∷ hit "c4" "d4" "kb2" 8 ∷ hit "c2" "d2" "kb" 7 ∷ []))
    ≡ "c1" ∷ "c2" ∷ "c4" ∷ []
unfolding program
regrouped = refl

no_profile :
    infer_ranking_profile
      (some (record { source_type = "upload"; embedding_alias = "embed_default" }) ∷ none ∷ [])
    ≡ none
unfolding program
no_profile = refl

upload_profile :
    infer_ranking_profile
      (some (record { source_type = "upload"; embedding_alias = "embed_default" }) ∷ [])
    ≡ some "upload_sota_mvp"
unfolding program
upload_profile = refl

counted_values : facet_buckets ("pdf" ∷ "html" ∷ "pdf" ∷ []) ≡ ("pdf", 2) ∷ ("html", 1) ∷ []
unfolding program
counted_values = refl

abbrev copies : ℕ → List Evidence
copies zero = []
copies (suc n) = evidence "c1" "d1" ∷ copies n

-- A retrieval that fills the window of 50 with chunks of Bob's document.
abbrev plenty : Services
plenty = record services { retrieve = λ q. copies 50 }

abbrev answer_of : SearchOutcome → SearchResponse
answer_of (served response after) = response
answer_of _ = empty_response request 0

abbrev cached_of : SearchOutcome → Cached
cached_of (served response (some cached)) = cached
cached_of _ = record { results = []; facets = [] }

abbrev first_answer : SearchOutcome
first_answer =
    run_public_search plenty (some "bob") (some PlatformRole.user) request ("kb" ∷ []) none

caches : first_answer ≡ served (answer_of first_answer) (some (cached_of first_answer))
unfolding program
caches = refl

fills : leb 50 (length (cached_of first_answer).results) ≡ true
unfolding program
fills = refl

window_of : cache_window 3 ≡ some 50
unfolding program
window_of = refl

run_public_search-without_facets_example :
    (fingerprint_of plenty (some "bob") (some PlatformRole.user) (asking request) ("kb" ∷ [])
      ≡ fingerprint_of plenty (some "bob") (some PlatformRole.user) request ("kb" ∷ []))
    × Bare plenty (some "bob") (some PlatformRole.user) (
        run_public_search plenty
          (some "bob")
          (some PlatformRole.user)
          (asking request)
          ("kb" ∷ [])
          (some (cached_of first_answer)))
run_public_search-without_facets_example =
    Stale.run_public_search-without_facets plenty (some "bob") (some PlatformRole.user) request
      ("kb" ∷ []) 0 50 none (answer_of first_answer) (cached_of first_answer) refl caches refl
      window_of fills
