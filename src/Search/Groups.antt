-- ===== src/Search/Groups.antt =====
-- src/wikipediarag/search_service.py: lists of results by a key (`defaultdict(list)` in insertion order), the
-- document groups of a page (`_document_groups`) and the facets of the evidence (`_facets`).
use wikipedia_rag.Common.{
  ℕ, String, Bool, true, false, List, [], ◌∷◌, ◌++◌, Option, leb, ◌==◌, string_eq, if◌then◌else◌,
  length, take, is_nil, map,
}
use wikipedia_rag.Common.Int.{ℤ, pos, negsuc}
use wikipedia_rag.Common.Text.{is_empty}
use wikipedia_rag.Search.{Platform, Evidence, SearchResult}
use wikipedia_rag.Search.Filters.{field_value}

-- A key with the first of its items and the later ones.
abbrev pub Bucket {ℓ} : Type ℓ → Type ℓ
Bucket A = String × A × List A

abbrev pub bucket_items {ℓ} : {A : Type ℓ} → Bucket A → List A
bucket_items (k, a, later) = a ∷ later

module _ {ℓ} {A : Type ℓ} (key : A → String) where
  -- `groups[key(a)].append(a)`
  unfoldable pub add_item : A → List (Bucket A) → List (Bucket A)
  add_item a [] = (key a, a, []) ∷ []
  add_item a ((k, first, later) ∷ groups) = elim (k == key a) [
    | true ↦ (k, first, later ++ a ∷ []) ∷ groups
    | false ↦ (k, first, later) ∷ add_item a groups
  ]

  unfoldable pub add_items : List A → List (Bucket A) → List (Bucket A)
  unfolding add_item
  add_items [] groups = groups
  add_items (a ∷ items) groups = add_items items (add_item a groups)

-- `groups.sort(key=score, reverse=True)`, which keeps the order of equals.
module _ {ℓ} {A : Type ℓ} (before : A → A → Bool) where
  unfoldable pub insert : A → List A → List A
  insert a [] = a ∷ []
  insert a (b ∷ rest) = elim (before b a) [ true ↦ b ∷ insert a rest | false ↦ a ∷ b ∷ rest ]

  -- The items come in their order, so that an item goes behind its equals.
  unfoldable pub sort_onto : List A → List A → List A
  unfolding insert
  sort_onto [] sorted = sorted
  sort_onto (a ∷ items) sorted = sort_onto items (insert a sorted)

abbrev pub int_leb : ℤ → ℤ → Bool
int_leb (pos m) (pos n) = leb m n
int_leb (pos m) (negsuc n) = false
int_leb (negsuc m) (pos n) = true
int_leb (negsuc m) (negsuc n) = leb n m

pub record DocumentGroup : Type 0 where
  pub document_id : String
  pub document_version_id : Option String
  pub knowledge_base_id : String
  pub title : String
  pub source_url : String
  pub source_type : String
  pub best_score : ℤ
  pub hit_count : ℕ
  pub hits : List SearchResult

-- `max(hits, key=score)`: the first of the best.
unfoldable pub best_of : SearchResult → List SearchResult → SearchResult
best_of best [] = best
best_of best (r ∷ later) = best_of (if int_leb r.score best.score then best else r) later

unfoldable pub group_of : Bucket SearchResult → DocumentGroup
unfolding best_of
group_of (id, first, later) =
    let best = best_of first later in
    record {
      document_id = id;
      document_version_id = best.document_version_id;
      knowledge_base_id = best.knowledge_base_id;
      title = best.title;
      source_url = best.source_url;
      source_type = best.source_type;
      best_score = best.score;
      hit_count = length (first ∷ later);
      hits = take 3 (first ∷ later);
    }

abbrev pub better : DocumentGroup → DocumentGroup → Bool
better g h = int_leb h.best_score g.best_score

unfoldable pub document_groups : List SearchResult → List DocumentGroup
unfolding add_items sort_onto group_of
document_groups results =
    sort_onto better (map group_of (add_items (λ r. r.document_id) results [])) []

pub record Facet : Type 0 where
  pub field : String
  pub buckets : List (String × ℕ)

abbrev tallied : Bucket String → String × ℕ
tallied (value, first, later) = (value, length (first ∷ later))

abbrev oftener : String × ℕ → String × ℕ → Bool
oftener a b = leb b.1 a.1

-- The values of a field that are not empty, tallied; `most_common(20)`.
unfoldable pub facet_buckets : List String → List (String × ℕ)
unfolding add_items sort_onto
facet_buckets values = take 20 (sort_onto oftener (map tallied (add_items (λ v. v) values [])) [])

module _ (python : Platform) where
  unfoldable pub facet_values : String → List Evidence → List String
  unfolding field_value
  facet_values name [] = []
  facet_values name (e ∷ evidence) =
      let value = field_value python e name in
      let rest = facet_values name evidence in if is_empty value then rest else value ∷ rest

  unfoldable pub facets_of : List String → List Evidence → List Facet
  unfolding facet_values facet_buckets
  facets_of [] evidence = []
  facets_of (name ∷ names) evidence =
      let values = facet_values name evidence in
      let rest = facets_of names evidence in
      if is_nil values then rest else record { field = name; buckets = facet_buckets values } ∷ rest

  unfoldable pub evidence_facets : List Evidence → List Facet
  unfolding facets_of
  evidence_facets evidence =
      facets_of ("source_type" ∷ "document_type" ∷ "language" ∷ "knowledge_base_id" ∷ []) evidence
