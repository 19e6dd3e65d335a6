-- ===== src/Search/Results.antt =====
-- src/wikipediarag/search_service.py: `_search_result` without its excerpts, `_best_score`, the filters that the
-- index is given (`_opensearch_filter_payload`) and the fingerprint of a request (`_search_fingerprint`).
use Prim.Native.String.{compare}
use Prim.Native.Nat.{Ordering}
use wikipedia_rag.Common.{
  ℕ, String, Bool, true, false, List, [], ◌∷◌, ◌++◌, Option, none, some, ◌==◌, string_eq,
  if◌then◌else◌, contains,
}
use wikipedia_rag.Common.Int.{ℤ, pos}
use wikipedia_rag.Common.Text.{is_empty, split, join_words}
use wikipedia_rag.Json.{Value, Items, Fields, null, text, arr, obj, nil, cons, end, field, put}
use wikipedia_rag.Search.{
  Platform, Evidence, SearchFilters, FilterExpression, SearchRequest, SearchResult,
}
use wikipedia_rag.Search.Filters.{field_value, canonical_field}
use wikipedia_rag.Search.Groups.{int_leb, sort_onto}

abbrev score_of : String → List (String × ℤ) → Option ℤ
score_of key [] = none
score_of key ((k, z) ∷ scores) = elim (k == key) [ true ↦ some z | false ↦ score_of key scores ]

abbrev max_score : ℤ → List (String × ℤ) → ℤ
max_score best [] = best
max_score best ((k, z) ∷ scores) = max_score (if int_leb z best then best else z) scores

abbrev greatest : List (String × ℤ) → ℤ
greatest [] = pos 0
greatest ((k, z) ∷ scores) = max_score z scores

-- The score under the first of the keys that is there, else the greatest of all.
unfoldable pub evidence_score : List String → List (String × ℤ) → ℤ
evidence_score [] scores = greatest scores
evidence_score (key ∷ keys) scores = elim (score_of key scores) [
  | some z ↦ z
  | none ↦ evidence_score keys scores
]

abbrev or_none : String → Option String
or_none s = if is_empty s then none else some s

abbrev or_else : String → String → String
or_else s t = if is_empty s then t else s

abbrev text_or_null : Option String → Value
text_or_null none = null
text_or_null (some s) = text s

abbrev put_text : String → Option String → Fields → Fields
put_text k none fs = fs
put_text k (some s) fs = put k (text s) fs

-- `sorted` of texts, by code points
abbrev pub text_before : String → String → Bool
text_before s t = elim (compare s t) [ Ordering.gt ↦ false | _ ↦ true ]

module _ (python : Platform) where
  unfoldable pub search_result : Evidence → SearchResult
  unfolding field_value evidence_score
  search_result e = record {
    chunk_id = e.chunk_id;
    document_id = or_else (field_value python e "document_id") e.chunk_id;
    document_version_id = or_none (field_value python e "document_version_id");
    knowledge_base_id = e.knowledge_base_id;
    title = e.title;
    source_url = e.source_url;
    source_type = or_else (field_value python e "source_type") "unknown";
    document_type = or_none (field_value python e "document_type");
    language = or_none (field_value python e "language");
    document_date = python.iso_date (field_value python e "document_date");
    score = evidence_score ("rerank" ∷ "fusion" ∷ "rrf_total" ∷ "dense" ∷ "bm25" ∷ []) e.scores;
  }

  abbrev day_text : Option ℕ → Option String
  day_text none = none
  day_text (some d) = some (python.iso_text d)

  -- `filters.model_dump(mode="json", exclude_none=True)`
  abbrev set_filters : SearchFilters → Fields
  set_filters f = put_text "source_id" f.source_id (
      put_text "source_kind" f.source_kind (
        put_text "source" f.source (
          put_text "date_to" (day_text f.date_to) (
            put_text "date_from" (day_text f.date_from)
              (put_text "language" f.language (put_text "document_type" f.document_type end))))))

  -- The loop over the expressions.
  unfoldable pub add_expressions : List FilterExpression → Fields → Fields
  unfolding canonical_field
  add_expressions [] filters = filters
  add_expressions (x ∷ expressions) filters =
      let name = canonical_field python x.field in
      let indexed =
        "document_type" ∷ "language" ∷ "source_kind" ∷ "source_id" ∷ "document_id" ∷ "title" ∷ [] in
      add_expressions expressions (
        if contains name indexed
        then put name x.value filters
        else if name == "document_date"
        then (if x.operator == "gte"
            then put "date_from" x.value filters
            else if x.operator == "lte"
            then put "date_to" x.value filters
            else filters)
        else filters)

  unfoldable pub opensearch_filter_payload : SearchRequest → Fields
  unfolding add_expressions
  opensearch_filter_payload r = add_expressions r.filter_expressions (set_filters r.filters)

  -- `filters.model_dump(mode="json")`
  abbrev all_filters : SearchFilters → Value
  all_filters f = obj (
      field "document_type" (text_or_null f.document_type) (
        field "language" (text_or_null f.language) (
          field "date_from" (text_or_null (day_text f.date_from)) (
            field "date_to" (text_or_null (day_text f.date_to)) (
              field "source" (text_or_null f.source) (
                field "source_kind" (text_or_null f.source_kind)
                  (field "source_id" (text_or_null f.source_id) end)))))))

  abbrev dumped : List FilterExpression → Items
  dumped [] = nil
  dumped (x ∷ xs) =
      cons
        (obj (
          field "field" (text x.field) (
            field "operator" (text x.operator) (
              field "value" x.value
                (field "scope" (text x.scope) (field "source" (text x.source) end))))))
        (dumped xs)

  abbrev profile_or_empty : Option String → String
  profile_or_empty none = ""
  profile_or_empty (some p) = p

  unfoldable pub search_fingerprint : SearchRequest → List String → String → String → String
  unfolding sort_onto split join_words
  search_fingerprint r knowledge_base_ids document_scope_marker workspace_access_marker =
      python.stable_hash
        (("search_cursor_v3" ∷ sort_onto text_before knowledge_base_ids [])
          ++ python.casefold (join_words (split r.query))
            ∷ python.dumps (all_filters r.filters)
            ∷ python.dumps (arr (dumped r.filter_expressions))
            ∷ profile_or_empty r.ranking_profile
            ∷ document_scope_marker
            ∷ workspace_access_marker
            ∷ [])
        32
