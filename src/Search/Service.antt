-- ===== src/Search/Service.antt =====
-- src/wikipediarag/search_service.py: `run_public_search`, with the confirmation of its results against the
-- published chunks (`_confirm_current_search_results`, on `fetch_current_retrieval_chunks`) and against the grants
-- of the user (`_confirm_workspace_search_results`, on `authorized_document_ids`). The result cache is state.
use wikipedia_rag.Common.{
  ℕ, zero, suc, ◌+◌, min, String, Bool, true, false, not, List, [], ◌∷◌, ◌++◌, Option, none, some,
  ltb, leb, ◌==◌, string_eq, if◌then◌else◌, length, take, keep, contains, map,
}
use wikipedia_rag.Common.Int.{pos}
use wikipedia_rag.Common.Text.{is_empty}
use wikipedia_rag.Access.{PlatformRole}
use wikipedia_rag.Grants.{Database, Postgres, group_ids_for_user, authorized_document_ids}
use wikipedia_rag.Retrieval.Confirm.{Tables, ChunkRow, fetch_current, current_row}
use wikipedia_rag.Json.{Fields, int}
use wikipedia_rag.Search.{
  Platform, Evidence, SearchRequest, SearchResult, IndexRow, search_max_window, cache_window,
  search_profile_overrides, infer_ranking_profile,
}
use wikipedia_rag.Search.Filters.{matches_request}
use wikipedia_rag.Search.Results.{
  search_result, opensearch_filter_payload, text_before, search_fingerprint,
}
use wikipedia_rag.Search.Cursor.{Codec, append, encode_cursor, decode_cursor}
use wikipedia_rag.Search.Groups.{
  Bucket, add_items, sort_onto, DocumentGroup, document_groups, Facet, evidence_facets,
}

-- What one retrieval is asked for.
pub record Retrieval : Type 0 where
  pub query : String
  pub top_k : ℕ
  pub profile_name : Option String
  pub profile_overrides : Fields
  pub search_filters : Fields

-- The services at one moment: `retrieve` stands for `retrieve` and `retrieve_multi`.
pub record Services : Type 0 where
  pub python : Platform
  pub codec : Codec
  pub postgres : Postgres
  pub database : Database
  pub tables : Tables Fields
  pub found_rows : List (Option IndexRow)
  pub document_scope_marker : String
  pub retrieve : Retrieval → List Evidence

pub record Cached : Type 0 where
  pub results : List SearchResult
  pub facets : List Facet

pub record SearchResponse : Type 0 where
  pub results : List SearchResult
  pub limit : ℕ
  pub offset : ℕ
  pub has_more : Bool
  pub next_cursor : Option String
  pub facets : List Facet
  pub groups : List DocumentGroup

abbrev pub is_published : List (ChunkRow Fields) → SearchResult → Bool
is_published rows r = elim (current_row rows r.chunk_id) [ none ↦ false | some row ↦ true ]

-- The results of one knowledge base that are still published.
unfoldable pub confirm_bucket : Tables Fields → Bucket SearchResult → List SearchResult
unfolding fetch_current current_row
confirm_bucket tables (kb_id, first, later) =
    let scoped = first ∷ later in
    keep (is_published (fetch_current tables kb_id (map (λ r. r.chunk_id) scoped))) scoped

unfoldable pub confirm_buckets : Tables Fields → List (Bucket SearchResult) → List SearchResult
unfolding confirm_bucket
confirm_buckets tables [] = []
confirm_buckets tables (b ∷ buckets) = confirm_bucket tables b ++ confirm_buckets tables buckets

unfoldable pub confirm_current_search_results :
    Tables Fields → List SearchResult → List SearchResult
unfolding confirm_buckets add_items
confirm_current_search_results tables results =
    confirm_buckets tables (add_items (λ r. r.knowledge_base_id) results [])

unfoldable pub confirm_workspace_search_results :
    Postgres
    → Database
    → Option String
    → Option PlatformRole
    → List SearchResult
    → List SearchResult
unfolding authorized_document_ids
confirm_workspace_search_results pg db (some user) (some role) results =
    let allowed = authorized_document_ids pg db user role (map (λ r. r.document_id) results) in
    keep (λ r. contains r.document_id allowed) results
confirm_workspace_search_results pg db _ _ results = results

-- `items[start:]`
abbrev pub drop {ℓ} : {A : Type ℓ} → ℕ → List A → List A
drop zero items = items
drop (suc n) [] = []
drop (suc n) (a ∷ items) = drop n items

module _ (codec : Codec) (fingerprint : String) where
  -- The response of a page of the confirmed results.
  unfoldable pub page_response : SearchRequest → ℕ → List SearchResult → List Facet → SearchResponse
  unfolding encode_cursor document_groups
  page_response r offset confirmed all_facets =
      let page = take (r.limit + 1) (drop offset confirmed) in
      let has_more = ltb r.limit (length page) in
      record {
        results = take r.limit page;
        limit = r.limit;
        offset = offset;
        has_more = has_more;
        next_cursor =
            if has_more
            then some (encode_cursor codec (offset + r.limit) (some fingerprint))
            else none;
        facets = if r.include_facets then all_facets else [];
        groups = if r.group_by_document then document_groups (take r.limit page) else [];
      }

-- `"|".join(texts)`
abbrev join_bars : List String → String
join_bars [] = ""
join_bars (s ∷ []) = s
join_bars (s ∷ texts) = append s (append "|" (join_bars texts))

-- `frozenset(texts)`, in some order
abbrev once : List String → List String
once [] = []
once (s ∷ texts) = elim (contains s texts) [ true ↦ once texts | false ↦ s ∷ once texts ]

-- `WorkspaceGrantRepository.cache_access_marker`
unfoldable pub cache_access_marker : Platform → Database → String → String
unfolding group_ids_for_user sort_onto
cache_access_marker python db user =
    let groups = sort_onto text_before (once (group_ids_for_user db user)) [] in
    let revision = elim db.revision as (λ _. ℕ) [ none ↦ 0 | some n ↦ n ] in
    join_bars ((user ∷ groups) ++ python.str (int (pos revision)) ∷ [])

-- `_workspace_cache_access_marker`
unfoldable pub workspace_cache_access_marker : Platform → Database → Option String → String
unfolding cache_access_marker
workspace_cache_access_marker python db none = "legacy"
workspace_cache_access_marker python db (some user) = cache_access_marker python db user

abbrev pub empty_response : SearchRequest → ℕ → SearchResponse
empty_response r offset = record {
  results = [];
  limit = r.limit;
  offset = offset;
  has_more = false;
  next_cursor = none;
  facets = [];
  groups = [];
}

-- `payload.cursor` is absent or empty, or it decides the offset.
abbrev pub start_of : Platform → Codec → SearchRequest → Option (ℕ × Option String)
start_of python codec r = elim r.cursor [
  | none ↦ some (r.offset, none)
  | some cursor ↦
      if is_empty cursor then some (r.offset, none) else decode_cursor codec python cursor
]

abbrev pub other_search : Option String → String → Bool
other_search none fingerprint = false
other_search (some f) fingerprint = not (f == fingerprint)

-- A hit in the cache: results for the whole window.
abbrev pub usable : ℕ → Option Cached → Option Cached
usable window none = none
usable window (some cached) = if leb window (length cached.results) then some cached else none

-- The response with the cache after it, an exception that the reading of the cursor leaves uncaught, or the end
-- of the fuel for the window. The services answer, and an entry of the cache is one that a search wrote.
pub data SearchOutcome : Type 0 where
  served : SearchResponse → Option Cached → SearchOutcome
  raised : SearchOutcome
  out_of_fuel : SearchOutcome

module _ (s : Services) (user : Option String) (role : Option PlatformRole) where
  -- Results as they may be shown: published, and readable by the user.
  unfoldable pub confirmed : List SearchResult → List SearchResult
  unfolding confirm_current_search_results confirm_workspace_search_results
  confirmed results =
      confirm_workspace_search_results s.postgres s.database user role
        (confirm_current_search_results s.tables results)

  abbrev pub retrieval_of : SearchRequest → ℕ → Retrieval
  retrieval_of r window = record {
    query = r.query;
    top_k = window;
    profile_name = elim r.ranking_profile [
      | none ↦ infer_ranking_profile s.found_rows
      | some p ↦ if is_empty p then infer_ranking_profile s.found_rows else some p
    ];
    profile_overrides = search_profile_overrides window;
    search_filters = opensearch_filter_payload s.python r;
  }

  -- The search for a window that the cache does not hold, with what it then caches.
  unfoldable pub search_window : SearchRequest → String → ℕ → ℕ → SearchResponse × Option Cached
  unfolding matches_request search_result evidence_facets page_response confirmed
  search_window r fingerprint offset window =
      let filtered = keep (matches_request s.python r) (s.retrieve (retrieval_of r window)) in
      let results = confirmed (map (search_result s.python) filtered) in
      let all_facets = if r.include_facets then evidence_facets s.python filtered else [] in
      (
        page_response s.codec fingerprint r offset results all_facets,
        some (record { results = results; facets = all_facets }),
      )

  unfoldable pub serve_window :
      SearchRequest → String → ℕ → Option Cached → ℕ → SearchResponse × Option Cached
  unfolding search_window page_response confirmed
  serve_window r fingerprint offset cache window = elim (usable window cache) [
    | some cached ↦
        (page_response s.codec fingerprint r offset (confirmed cached.results) cached.facets, cache)
    | none ↦ search_window r fingerprint offset window
  ]

  -- The outcome from the offset and the fingerprint that the cursor gives.
  unfoldable pub respond :
      SearchRequest → String → ℕ → Option String → Option Cached → SearchOutcome
  unfolding serve_window cache_window
  respond r fingerprint offset cursor_fingerprint cache =
      if other_search cursor_fingerprint fingerprint
      then served (empty_response r offset) cache
      else if leb search_max_window offset
      then served (empty_response r offset) cache
      else elim (cache_window (offset + r.limit + 1)) [
        | none ↦ out_of_fuel
        | some window ↦
            let answer = serve_window r fingerprint offset cache (min search_max_window window) in
            served answer.0 answer.1
      ]

  unfoldable pub fingerprint_of : SearchRequest → List String → String
  unfolding search_fingerprint workspace_cache_access_marker
  fingerprint_of r knowledge_base_ids =
      search_fingerprint s.python r knowledge_base_ids s.document_scope_marker
        (workspace_cache_access_marker s.python s.database user)

  -- `cache` is what the cache holds under the fingerprint.
  unfoldable pub run_public_search : SearchRequest → List String → Option Cached → SearchOutcome
  unfolding respond fingerprint_of
  run_public_search r knowledge_base_ids cache = elim (start_of s.python s.codec r) [
    | none ↦ raised
    | some (offset, cursor_fingerprint) ↦
        respond r (fingerprint_of r knowledge_base_ids) offset cursor_fingerprint cache
  ]
