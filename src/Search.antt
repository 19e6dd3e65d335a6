-- ===== src/Search.antt =====
-- src/wikipediarag/search_service.py: the public search. This file holds the data, the window that is
-- retrieved, the ranking profile and its overrides; Search/Filters what a request asks of a piece of evidence,
-- Search/Cursor the cursors of the pages, and Search/Service the search itself. Calendar dates are ordinals.
pub mod Filters
pub mod Cursor
pub mod RoundTrip
pub mod Groups
pub mod Results
pub mod Service
pub mod Window
pub mod Slices
pub mod Pages
pub mod Paging
pub mod Authority
pub mod Tally
pub mod Stale
mod Tests
mod ServiceTests
use wikipedia_rag.Common.{
  ℕ, zero, suc, ◌*◌, min, max, String, Bool, true, false, ◌&&◌, List, [], ◌∷◌, Option, none, some,
  ltb, leb, ◌==◌, string_eq, if◌then◌else◌, all, is_nil, map,
}
use wikipedia_rag.Common.Int.{ℤ}
use wikipedia_rag.Common.Text.{is_empty}
use wikipedia_rag.Json.{Value, Fields, int, text, obj, end, field}
use wikipedia_rag.Common.Int.{pos, negsuc}

abbrev pub search_max_window : ℕ
search_max_window = 1000

abbrev pub search_initial_window : ℕ
search_initial_window = 50

-- A call that returns, or that raises: one of the exceptions that the code around it catches, or another.
pub data Raising (A : Type 0) : Type 0 where
  gives : A → Raising A
  handled : Raising A
  unhandled : Raising A

-- What Python's library and the services behind the search give: `str.casefold`, `str` of a value that is no
-- text, `int` of one that is no integer (an infinity raises OverflowError, which no one catches), the day that `date.fromisoformat` reads in the first ten
-- characters of a text and the text of a day, `json.dumps` with sorted keys, and the digest of `stable_hash`.
pub record Platform : Type 0 where
  pub casefold : String → String
  pub str : Value → String
  pub int_of : Value → Raising ℤ
  pub iso_date : String → Option ℕ
  pub iso_text : ℕ → String
  pub dumps : Value → String
  pub stable_hash : List String → ℕ → String

-- Scores are floats that are only compared: their order is that of ℤ here.
pub record Evidence : Type 0 where
  pub chunk_id : String
  pub knowledge_base_id : String
  pub title : String
  pub content : String
  pub source_url : String
  pub metadata : Fields
  pub scores : List (String × ℤ)

pub record SearchFilters : Type 0 where
  pub document_type : Option String
  pub language : Option String
  pub date_from : Option ℕ
  pub date_to : Option ℕ
  pub source : Option String
  pub source_kind : Option String
  pub source_id : Option String

pub record FilterExpression : Type 0 where
  pub field : String
  pub operator : String
  pub value : Value
  pub scope : String
  pub source : String

pub record SearchRequest : Type 0 where
  pub query : String
  pub limit : ℕ
  pub offset : ℕ
  pub cursor : Option String
  pub ranking_profile : Option String
  pub include_facets : Bool
  pub group_by_document : Bool
  pub filters : SearchFilters
  pub filter_expressions : List FilterExpression

pub record SearchResult : Type 0 where
  pub chunk_id : String
  pub document_id : String
  pub document_version_id : Option String
  pub knowledge_base_id : String
  pub title : String
  pub source_url : String
  pub source_type : String
  pub document_type : Option String
  pub language : Option String
  pub document_date : Option ℕ
  pub score : ℤ

-- The loop of `_cache_window`; `none` when the fuel, a number of tests, runs out.
unfoldable pub widen : ℕ → ℕ → ℕ → Option ℕ
widen zero required window = none
widen (suc fuel) required window =
    let wider = widen fuel required (min search_max_window (window * 2)) in
    if ltb window required && ltb window search_max_window then wider else some window

-- Six tests are enough: 50, 100, 200, 400, 800, 1000.
unfoldable pub cache_window : ℕ → Option ℕ
unfolding widen
cache_window required = widen 6 required search_initial_window

-- A row of index_versions as `_infer_ranking_profile` reads it.
pub record IndexRow : Type 0 where
  pub source_type : String
  pub embedding_alias : String

-- `{...} == {value}` for the set of a list of texts
abbrev pub only : String → List String → Bool
only value texts = not_nil texts && all (λ t. t == value) texts
  where
    not_nil : List String → Bool
    not_nil [] = false
    not_nil (t ∷ ts) = true

-- The rows behind the read aliases of the knowledge bases; `none` when one is missing.
unfoldable pub index_rows : List (Option IndexRow) → Option (List IndexRow)
index_rows [] = some []
index_rows (none ∷ rows) = none
index_rows (some row ∷ rows) = elim (index_rows rows) [
  | none ↦ none
  | some rest ↦ some (row ∷ rest)
]

unfoldable pub infer_ranking_profile : List (Option IndexRow) → Option String
unfolding index_rows
infer_ranking_profile found = elim (index_rows found) [
  | none ↦ none
  | some rows ↦
      let source_types = map (λ row. row.source_type) rows in
      let aliases = map (λ row. row.embedding_alias) rows in
      if only "upload" source_types && only "embed_default" aliases
      then some "upload_sota_mvp"
      else if only "upload" source_types && only "mock_embed_default" aliases
      then some "upload_mock"
      else none
]

abbrev nat_value : ℕ → Value
nat_value n = int (pos n)

-- `_search_profile_overrides`
unfoldable pub search_profile_overrides : ℕ → Fields
search_profile_overrides window =
    let first_stage_top_k = max (window * 2) 100 in
    field "retrieval"
      (obj (
        field "top_k" (nat_value window) (
          field "bm25_top_k" (nat_value first_stage_top_k) (
            field "dense_top_k" (nat_value first_stage_top_k) (
              field "fusion_top_k" (nat_value (max window 60))
                (field "rerank_top_k" (nat_value (max window 50)) end))))))
      (field "postprocess"
        (obj (
          field "final_evidence_min" (nat_value 1) (
            field "final_evidence_max" (nat_value window) (
              field "parent_expansion" (text "off")
                (field "page_quota" (nat_value (max 5 window)) end)))))
        end)
