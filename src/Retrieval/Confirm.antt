-- ===== src/Retrieval/Confirm.antt =====
-- `_confirm_current_candidates` of retrieval.py, on `fetch_current_retrieval_chunks` of repository.py:
-- what the search index found is kept only where the tables say that it is current.
use wikipedia_rag.Common.{
  String, Bool, true, not, ◌&&◌, Option, none, some, List, [], ◌∷◌, ◌==◌, string_eq, map, keep, any,
  contains, if◌then◌else◌, ◌≡◌, refl, arith, Option-cases, inl, inr, all, ◌⊎◌, any-keep, ap, ◌∙◌,
  sym, Memᴰ, any→Memᴰ, eq_iff,
}
use wikipedia_rag.Common.Text.{is_empty}
use wikipedia_rag.Retrieval.{or_text}

-- Rows of chunks, documents and document_versions, as far as the query reads them.
pub record ChunkRow (M : Type 0) : Type 0 where
  pub id : String
  pub knowledge_base_id : String
  pub document_id : String
  pub document_version_id : String
  pub publication_status : String
  pub metadata : M

pub record DocumentState : Type 0 where
  pub id : String
  pub knowledge_base_id : String
  pub lifecycle_state : String
  pub current_version_id : String

pub record VersionState : Type 0 where
  pub id : String
  pub document_id : String
  pub knowledge_base_id : String
  pub status : String
  pub lifecycle_state : String

pub record Tables (M : Type 0) : Type 0 where
  pub chunks : List (ChunkRow M)
  pub documents : List DocumentState
  pub versions : List VersionState

-- A candidate of the index: the keys that the confirmation reads or writes.
pub record Hit (M : Type 0) : Type 0 where
  pub chunk_id : Option String
  pub knowledge_base_id : Option String
  pub document_id : Option String
  pub document_version_id : Option String
  pub metadata : M

-- The two joins and the WHERE clause, for one chunk row.
unfoldable pub is_current : {M : Type 0} → Tables M → String → List String → ChunkRow M → Bool
is_current tables kb_id requested c =
    c.knowledge_base_id == kb_id
    && contains c.id requested
    && c.publication_status == "published"
    && any
        (λ d.
          d.id == c.document_id
          && d.knowledge_base_id == c.knowledge_base_id
          && d.lifecycle_state == "active"
          && c.document_version_id == d.current_version_id
          && any
              (λ v.
                v.id == c.document_version_id
                && v.document_id == d.id
                && v.knowledge_base_id == d.knowledge_base_id
                && v.status == "published"
                && v.lifecycle_state == "active")
              tables.versions)
        tables.documents

unfoldable pub fetch_current : {M : Type 0} → Tables M → String → List String → List (ChunkRow M)
unfolding is_current
fetch_current tables kb_id chunk_ids =
    let requested = keep (λ i. not (is_empty i)) chunk_ids in
    let rows = keep (is_current tables kb_id requested) tables.chunks in
    elim requested [ [] ↦ [] | _ ∷ _ ↦ rows ]

-- `rows.get(chunk_id)`, where a later row replaces an earlier one with its id.
unfoldable pub current_row : {M : Type 0} → List (ChunkRow M) → String → Option (ChunkRow M)
current_row [] chunk_id = none
current_row (c ∷ rows) chunk_id = elim (current_row rows chunk_id) [
  | some later ↦ some later
  | none ↦ if c.id == chunk_id then some c else none
]

-- `merge a b` is `{**a, **b}`.
module _ {M : Type 0} (merge : M → M → M) (kb_id : String) where
  unfoldable pub refreshed : Hit M → ChunkRow M → Hit M
  unfolding or_text
  refreshed h c = record {
    chunk_id = h.chunk_id;
    knowledge_base_id = some kb_id;
    document_id = some (or_text (some c.document_id) (or_text h.document_id ""));
    document_version_id =
        if is_empty c.document_version_id
        then h.document_version_id
        else some c.document_version_id;
    metadata = merge h.metadata c.metadata;
  }

  -- The loop over the candidates of one label.
  unfoldable pub safe_candidates : List (ChunkRow M) → List (Hit M) → List (Hit M)
  unfolding refreshed current_row
  safe_candidates rows [] = []
  safe_candidates rows (h ∷ hits) =
      let rest = safe_candidates rows hits in
      elim (current_row rows (or_text h.chunk_id "")) [
        | none ↦ rest
        | some c ↦ refreshed h c ∷ rest
      ]

  unfoldable pub confirm_label : Tables M → List (Hit M) → List (Hit M)
  unfolding safe_candidates fetch_current
  confirm_label tables hits =
      safe_candidates (fetch_current tables kb_id (map (λ h. or_text h.chunk_id "") hits)) hits

unfoldable pub label_kb : List (String × String) → String → String
label_kb [] label = ""
label_kb ((l, kb) ∷ labels) label =
    let rest = label_kb labels label in if l == label then kb else rest

-- `result_sets` in the order of the dict.
unfoldable pub confirm_current_candidates :
    {M : Type 0}
    → (M → M → M)
    → Tables M
    → List (String × String)
    → List (String × List (Hit M))
    → List (String × List (Hit M))
unfolding confirm_label label_kb
confirm_current_candidates merge tables labels [] = []
confirm_current_candidates merge tables labels ((label, hits) ∷ sets) =
    (label, confirm_label merge (label_kb labels label) tables hits)
    ∷ confirm_current_candidates merge tables labels sets

early_return {ℓ} :
    {A : Type ℓ} (p : A → Bool) (requested : List String) (rows : List A)
    → any p (elim requested as (λ r. List A) [ [] ↦ [] | _ ∷ _ ↦ rows ]) ≡ true
    → any p rows ≡ true
early_return p [] rows h = absurd (ground arith)
early_return p (_ ∷ _) rows h = h

all_mono {ℓ} :
    {A : Type ℓ} (p q : A → Bool) (xs : List A)
    → ((x : A) → p x ≡ true → q x ≡ true)
    → all p xs ≡ true
    → all q xs ≡ true
all_mono p q [] f h = refl
all_mono p q (x ∷ xs) f h = ground (arith, f x, all_mono p q xs f)

and2 : {a b : Bool} → (a && b) ≡ true → (a ≡ true) × (b ≡ true)
and2 h = (ground arith, ground arith)

and4 :
    {a b c d : Bool} → (a && b && c && d) ≡ true → (a ≡ true) × (b ≡ true) × (c ≡ true) × (d ≡ true)
and4 h = (ground arith, ground arith, ground arith, ground arith)

and5 :
    {a b c d e : Bool}
    → (a && b && c && d && e) ≡ true
    → (a ≡ true) × (b ≡ true) × (c ≡ true) × (d ≡ true) × (e ≡ true)
and5 h = (ground arith, ground arith, ground arith, ground arith, ground arith)

all-Memᴰ {ℓ} :
    {A : Type ℓ} (p : A → Bool) {x : A} {xs : List A} → all p xs ≡ true → Memᴰ x xs → p x ≡ true
all-Memᴰ p h (Memᴰ.head e) = ground (arith, ap p e)
all-Memᴰ p h (Memᴰ.tail m) = all-Memᴰ p (ground arith) m

module _ {M : Type 0} where
  current_row-any :
      (rows : List (ChunkRow M)) (i : String)
      → (current_row rows i ≡ none) ⊎ (any (λ c. c.id == i) rows ≡ true)
  unfolding current_row
  current_row-any [] i = inl refl
  current_row-any (c ∷ rows) i = elim (Option-cases (current_row rows i)) [
    | inl none_later ↦ ground (arith, current_row-any rows i)
    | inr (d, later) ↦ ground (arith, current_row-any rows i)
  ]

  safe_candidates-all :
      (merge : M → M → M) (kb_id : String) (rows : List (ChunkRow M)) (hits : List (Hit M))
      → all
          (λ h. any (λ c. c.id == or_text h.chunk_id "") rows)
          (safe_candidates merge kb_id rows hits)
        ≡ true
  unfolding safe_candidates refreshed
  safe_candidates-all merge kb_id rows [] = refl
  safe_candidates-all merge kb_id rows (h ∷ hits) = ground (
    arith,
    safe_candidates-all merge kb_id rows hits,
    current_row-any rows (or_text h.chunk_id ""),
  )

  fetch_current-any :
      (tables : Tables M) (kb_id : String) (ids : List String) (p : ChunkRow M → Bool)
      → any p (fetch_current tables kb_id ids) ≡ true
      → any (λ c. is_current tables kb_id (keep (λ i. not (is_empty i)) ids) c && p c) tables.chunks
        ≡ true
  unfolding fetch_current
  fetch_current-any tables kb_id ids p h =
      let requested = keep (λ i. not (is_empty i)) ids in
      sym (any-keep p (is_current tables kb_id requested) tables.chunks)
      ∙ early_return p requested (keep (is_current tables kb_id requested) tables.chunks) h

  kept_any :
      (merge : M → M → M) (kb_id : String) (tables : Tables M) (hits : List (Hit M))
      → all
          (λ h.
            any
              (λ c.
                is_current tables kb_id
                  (keep (λ i. not (is_empty i)) (map (λ k. or_text k.chunk_id "") hits))
                  c
                && c.id == or_text h.chunk_id "")
              tables.chunks)
          (confirm_label merge kb_id tables hits)
        ≡ true
  unfolding confirm_label
  kept_any merge kb_id tables hits =
      let ids = map (λ k. or_text k.chunk_id "") hits in
      all_mono _ _ _ (λ h. fetch_current-any tables kb_id ids (λ c. c.id == or_text h.chunk_id ""))
        (safe_candidates-all merge kb_id (fetch_current tables kb_id ids) hits)

  -- The rows that make a chunk with an id current in a knowledge base.
  pub record PublishedRows (tables : Tables M) (kb_id id : String) : Type 0 where
    chunk : ChunkRow M
    document : DocumentState
    version : VersionState
    chunk_stored : Memᴰ chunk tables.chunks
    document_stored : Memᴰ document tables.documents
    version_stored : Memᴰ version tables.versions
    has_id : chunk.id ≡ id
    in_kb : chunk.knowledge_base_id ≡ kb_id
    published : chunk.publication_status ≡ "published"
    of_document : chunk.document_id ≡ document.id
    document_in_kb : document.knowledge_base_id ≡ kb_id
    document_active : document.lifecycle_state ≡ "active"
    of_current_version : chunk.document_version_id ≡ document.current_version_id
    of_version : chunk.document_version_id ≡ version.id
    version_of_document : version.document_id ≡ document.id
    version_in_kb : version.knowledge_base_id ≡ kb_id
    version_published : version.status ≡ "published"
    version_active : version.lifecycle_state ≡ "active"

  is_current-PublishedRows :
      (tables : Tables M) (kb_id : String) (requested : List String) (c : ChunkRow M) (id : String)
      → Memᴰ c tables.chunks
      → c.id ≡ id
      → is_current tables kb_id requested c ≡ true
      → PublishedRows tables kb_id id
  unfolding is_current
  is_current-PublishedRows tables kb_id requested c id m e h =
      let (in_kb, _, published, joined) = and4 h in
      let (d, md, hd) =
        any→Memᴰ
          (λ (d : DocumentState).
            d.id == c.document_id
            && d.knowledge_base_id == c.knowledge_base_id
            && d.lifecycle_state == "active"
            && c.document_version_id == d.current_version_id
            && any
                (λ (v : VersionState).
                  v.id == c.document_version_id
                  && v.document_id == d.id
                  && v.knowledge_base_id == d.knowledge_base_id
                  && v.status == "published"
                  && v.lifecycle_state == "active")
                tables.versions)
          tables.documents joined in
      let (d1, d2, d3, d4, versions) = and5 hd in
      let (v, mv, hv) =
        any→Memᴰ
          (λ (v : VersionState).
            v.id == c.document_version_id
            && v.document_id == d.id
            && v.knowledge_base_id == d.knowledge_base_id
            && v.status == "published"
            && v.lifecycle_state == "active")
          tables.versions versions in
      let (v1, v2, v3, v4, v5) = and5 hv in
      let same_kb = (eq_iff c.knowledge_base_id kb_id).0 in_kb in
      let document_kb = (eq_iff d.knowledge_base_id c.knowledge_base_id).0 d2 in
      let version_kb = (eq_iff v.knowledge_base_id d.knowledge_base_id).0 v3 in
      record {
        chunk = c;
        document = d;
        version = v;
        chunk_stored = m;
        document_stored = md;
        version_stored = mv;
        has_id = e;
        in_kb = same_kb;
        published = (eq_iff c.publication_status "published").0 published;
        of_document = sym ((eq_iff d.id c.document_id).0 d1);
        document_in_kb = document_kb ∙ same_kb;
        document_active = (eq_iff d.lifecycle_state "active").0 d3;
        of_current_version = (eq_iff c.document_version_id d.current_version_id).0 d4;
        of_version = sym ((eq_iff v.id c.document_version_id).0 v1);
        version_of_document = (eq_iff v.document_id d.id).0 v2;
        version_in_kb = version_kb ∙ document_kb ∙ same_kb;
        version_published = (eq_iff v.status "published").0 v4;
        version_active = (eq_iff v.lifecycle_state "active").0 v5;
      }

  -- Every candidate that a label keeps has the id of a chunk that the tables hold now in the label's knowledge
  -- base, published, of the current version of an active document of that knowledge base, where the version
  -- is published and active.
  pub confirm_label_current :
      (merge : M → M → M) (kb_id : String) (tables : Tables M) (hits : List (Hit M)) (h : Hit M)
      → Memᴰ h (confirm_label merge kb_id tables hits)
      → PublishedRows tables kb_id (or_text h.chunk_id "")
  confirm_label_current merge kb_id tables hits h m =
      let requested =
        keep (λ i. not (is_empty i)) (map (λ (k : Hit M). or_text k.chunk_id "") hits) in
      let (c, stored, now) =
        any→Memᴰ
          (λ (c : ChunkRow M). is_current tables kb_id requested c && c.id == or_text h.chunk_id "")
          tables.chunks (all-Memᴰ _ (kept_any merge kb_id tables hits) m) in
      let (current, same) = and2 now in
      is_current-PublishedRows tables kb_id requested c (or_text h.chunk_id "") stored
        ((eq_iff c.id (or_text h.chunk_id "")).0 same) current
