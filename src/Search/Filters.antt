-- ===== src/Search/Filters.antt =====
-- src/wikipediarag/search_service.py: the fields of a piece of evidence (`_field_value`, `_source_blob`), what a
-- request asks of them (`_matches_request`, `_matches_expression`), the filters that the index is given
-- (`_opensearch_filter_payload`), and the result that evidence becomes (`_search_result`), less its excerpt.
use Prim.Native.Char.{code}
use Prim.Native.String.{[], ◌∷◌}
use wikipedia_rag.Common.{
  ℕ, String, Bool, true, false, not, ◌&&◌, ◌||◌, List, [], ◌∷◌, Option, none, some, leb, ◌==◌,
  string_eq, nat_eq, if◌then◌else◌, all, any, contains, map,
}
use wikipedia_rag.Common.Text.{is_empty, strip, join_words}
use wikipedia_rag.Json.{Value, Items, Fields, null, text, arr, nil, cons, get, truthy}
use wikipedia_rag.Search.{Platform, Evidence, SearchFilters, FilterExpression, SearchRequest}

-- `s.startswith(prefix)`, with what follows the prefix
abbrev pub after_prefix : String → String → Option String
after_prefix [] s = some s
after_prefix (p ∷ ps) [] = none
after_prefix (p ∷ ps) (c ∷ s) = elim (code p == code c) [ true ↦ after_prefix ps s | false ↦ none ]

abbrev is_present {ℓ} : {A : Type ℓ} → Option A → Bool
is_present none = false
is_present (some a) = true

-- `part in s`
unfoldable pub occurs : String → String → Bool
occurs part [] = is_empty part
occurs part (c ∷ s) = let later = occurs part s in is_present (after_prefix part (c ∷ s)) || later

-- `metadata.get(k)`, where a missing key is `None`
abbrev pub lookup : String → Fields → Value
lookup k fs = elim (get k fs) [ none ↦ null | some v ↦ v ]

-- `a or b`
abbrev or_value : Value → Value → Value
or_value a b = if truthy a then a else b

abbrev pub items : Items → List Value
items nil = []
items (cons v xs) = v ∷ items xs

abbrev present_texts : (Value → String) → List Value → List String
present_texts str [] = []
present_texts str (v ∷ vs) = elim (truthy v) [
  | true ↦ str v ∷ present_texts str vs
  | false ↦ present_texts str vs
]

module _ (python : Platform) where
  abbrev str_value : Value → String
  str_value (text s) = s
  str_value v = python.str v

  unfoldable pub source_blob : Evidence → String
  unfolding join_words
  source_blob e = join_words (
      present_texts str_value (
        lookup "source_kind" e.metadata
        ∷ lookup "source_type" e.metadata
        ∷ lookup "source_id" e.metadata
        ∷ lookup "source_uri" e.metadata
        ∷ lookup "filename" e.metadata
        ∷ text e.source_url
        ∷ text e.title
        ∷ []))

  -- The value that `_field_value` converts, for the fields it names.
  abbrev named_value : Evidence → String → Value
  unfolding source_blob
  named_value e name =
      let meta = λ (k : String). lookup k e.metadata in
      if name == "document_type"
      then or_value (or_value (meta "content_type") (meta "detected_mime")) (meta "source_type")
      else if name == "language"
      then or_value (meta "language") (meta "detected_language")
      else if name == "source"
      then text (source_blob e)
      else if name == "source_kind"
      then or_value (meta "source_kind") (meta "source_type")
      else if name == "title"
      then text e.title
      else if name == "knowledge_base_id"
      then text e.knowledge_base_id
      else meta name

  abbrev stripped_text : Value → String
  stripped_text null = ""
  stripped_text v = strip (str_value v)

  unfoldable pub field_value : Evidence → String → String
  unfolding named_value strip
  field_value e name = elim (after_prefix "metadata." name) [
    | some key ↦ stripped_text (lookup key e.metadata)
    | none ↦ stripped_text (named_value e name)
  ]

  unfoldable pub canonical_field : String → String
  unfolding strip
  canonical_field name =
      let normalized = python.casefold (strip name) in
      if normalized == "date" then "document_date" else normalized

  abbrev filter_fields : List String
  filter_fields =
      "document_type" ∷ "language" ∷ "date" ∷ "document_date" ∷ "source" ∷ "source_kind"
      ∷ "source_id" ∷ "document_id" ∷ "title" ∷ []

  abbrev pub same_folded : String → String → Bool
  same_folded a b = python.casefold a == python.casefold b

  abbrev values_of : Value → List String
  values_of (arr xs) = map str_value (items xs)
  values_of v = str_value v ∷ []

  -- The day an expression compares with: that of its first value.
  abbrev first_date : List String → Option ℕ
  first_date [] = none
  first_date (v ∷ vs) = python.iso_date v

  abbrev by_date : (ℕ → ℕ → Bool) → Option ℕ → Option ℕ → Bool
  by_date test (some a) (some b) = test a b
  by_date test _ _ = false

  unfoldable pub matches_expression : Evidence → FilterExpression → Bool
  unfolding canonical_field field_value occurs
  matches_expression e x =
      let name = canonical_field x.field in
      if not (contains name filter_fields) && not (is_present (after_prefix "metadata." name))
      then false
      else let actual = field_value e name in
        let expected = values_of x.value in
        if x.operator == "eq"
        then any (same_folded actual) expected
        else if x.operator == "contains"
        then any (λ v. occurs (python.casefold v) (python.casefold actual)) expected
        else if x.operator == "in"
        then any (same_folded actual) expected
        else if x.operator == "gte"
        then by_date (λ a b. leb b a) (python.iso_date actual) (first_date expected)
        else if x.operator == "lte"
        then by_date leb (python.iso_date actual) (first_date expected)
        else false

  -- A filter that is not set, or is empty, asks for nothing.
  abbrev unless_set : Option String → (String → Bool) → Bool
  unless_set none p = true
  unless_set (some s) p = is_empty s || p s

  abbrev date_set : Option ℕ → (ℕ → Bool) → Bool
  date_set none p = true
  date_set (some d) p = p d

  abbrev on_day : Option ℕ → (ℕ → Bool) → Bool
  on_day none p = false
  on_day (some d) p = p d

  -- The simple filters, each of them.
  unfoldable pub matches_filters : SearchFilters → Evidence → Bool
  unfolding field_value occurs
  matches_filters f e =
      let day = python.iso_date (field_value e "document_date") in
      unless_set f.document_type
        (λ s. occurs (python.casefold s) (python.casefold (field_value e "document_type")))
      && unless_set f.language (λ s. same_folded s (field_value e "language"))
      && date_set f.date_from (λ d. on_day day (λ x. leb d x))
      && date_set f.date_to (λ d. on_day day (λ x. leb x d))
      && unless_set f.source (λ s. occurs (python.casefold s) (python.casefold (source_blob e)))
      && unless_set f.source_kind (λ s. same_folded s (field_value e "source_kind"))
      && unless_set f.source_id (λ s. same_folded s (field_value e "source_id"))

  unfoldable pub matches_request : SearchRequest → Evidence → Bool
  unfolding matches_filters matches_expression
  matches_request r e =
      matches_filters r.filters e && all (matches_expression e) r.filter_expressions
