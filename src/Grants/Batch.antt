-- ===== src/Grants/Batch.antt =====
-- `authorized_document_ids` against one decision at a time.
use wikipedia_rag.Common.{
  String, Bool, false, not, ◌&&◌, none, some, List, [], ◌∷◌, map, ◌≡◌, refl, sym, ap, ◌∙◌, ◌==◌,
  string_eq, inl, inr, Memᴰ, Memᴰ→any, any_cong_mem, any, any-map, any-keep, keep, contains,
  Bool-cases, Option-cases, eq_iff, arith,
}
use wikipedia_rag.Common.Text.{is_empty}
use wikipedia_rag.Access.{PlatformRole}
use wikipedia_rag.Grants.{
  DocumentRow, Database, Postgres, first_document, group_grants, batch_allows,
  authorized_document_ids,
}
use wikipedia_rag.Grants.Rows.{UniqueKbs, UniqueDocuments}
use wikipedia_rag.Grants.Decision.{is_active, readable_row, in_batch, batch_allows_lem}

keep_nothing {ℓ} :
    {A : Type ℓ} (p : A → Bool) (xs : List A) → ((x : A) → p x ≡ false) → keep p xs ≡ []
keep_nothing p [] h = refl
keep_nothing p (x ∷ xs) h = ground (arith, h x, keep_nothing p xs h)

map-nil {ℓ κ} : {A : Type ℓ} {B : Type κ} (f : A → B) (xs : List A) → map f xs ≡ [] → xs ≡ []
map-nil f [] h = refl
map-nil f (x ∷ xs) h = cc

early_returns {ℓ} :
    {A : Type ℓ} (r k a : List A)
    → (r ≡ [] → a ≡ [])
    → (k ≡ [] → a ≡ [])
    → elim r [ [] ↦ [] | _ ∷ _ ↦ elim k [ [] ↦ [] | _ ∷ _ ↦ a ] ] ≡ a
early_returns [] k a hr hk = sym (hr refl)
early_returns (_ ∷ _) [] a hr hk = sym (hk refl)
early_returns (_ ∷ _) (_ ∷ _) a hr hk = refl

module _ (pg : Postgres) (db : Database) (u : String) (role : PlatformRole)
    (unique : UniqueKbs db.knowledge_bases) where
  module _ (ids : List String) where
    abbrev requested : List String
    requested = keep (λ d. not (is_empty d)) ids

    abbrev wanted : DocumentRow → Bool
    wanted row = contains row.id requested && row.lifecycle_state == "active"

    abbrev document_rows : List DocumentRow
    document_rows = keep wanted db.documents

    abbrev kb_ids : List String
    kb_ids = map (λ row. row.knowledge_base_id) document_rows

    abbrev allows_row : DocumentRow → Bool
    allows_row =
        batch_allows pg db u role (keep (λ row. contains row.id kb_ids) db.knowledge_bases) (
          group_grants (pg.ordered (keep (in_batch requested kb_ids) db.resource_grants))
            (λ t id. []))

    abbrev allowed : List String
    allowed = map (λ row. row.id) (keep allows_row document_rows)

    no_requests : requested ≡ [] → allowed ≡ []
    no_requests e =
        let none_wanted =
          keep_nothing wanted db.documents (λ row. ground (arith, ap (contains row.id) e)) in
        ap (λ rows. map (λ row. row.id) (keep allows_row rows)) none_wanted

    no_kbs : kb_ids ≡ [] → allowed ≡ []
    no_kbs e =
        ap (λ rows. map (λ row. row.id) (keep allows_row rows))
          (map-nil (λ row. row.knowledge_base_id) document_rows e)

    authorized_document_ids-allowed : authorized_document_ids pg db u role ids ≡ allowed
    unfolding authorized_document_ids
    authorized_document_ids-allowed = early_returns requested kb_ids allowed no_requests no_kbs

    -- A row that the query finds is decided as if it were loaded alone.
    wanted-allows_row :
        (row : DocumentRow)
        → Memᴰ row db.documents
        → (wanted row && allows_row row) ≡ (wanted row && readable_row pg db u role row)
    wanted-allows_row row m = elim (Bool-cases (wanted row)) [
      | inl w ↦ rw w (
          batch_allows_lem pg db u role unique requested kb_ids row (ground arith) (
            any-map (λ k. k == row.knowledge_base_id) (λ r. r.knowledge_base_id) document_rows
            ∙ any-keep (λ r. r.knowledge_base_id == row.knowledge_base_id) wanted db.documents
            ∙ Memᴰ→any _ m (ground (arith, eq_iff row.knowledge_base_id row.knowledge_base_id))))
      | inr w ↦ rw w
    ]

    contains-allowed :
        (d : String)
        → contains d allowed
          ≡ any (λ row. wanted row && readable_row pg db u role row && row.id == d) db.documents
    contains-allowed d =
        any-map (λ i. i == d) (λ row. row.id) (keep allows_row document_rows)
        ∙ any-keep (λ row. row.id == d) allows_row document_rows
        ∙ any-keep (λ row. allows_row row && row.id == d) wanted db.documents
        ∙ any_cong_mem _ _ db.documents (λ row m. ground (arith, wanted-allows_row row m))

-- The decision on one document id: its row, the lifecycle, and what `load_document` gives.
abbrev pub readable_document : Postgres → Database → String → PlatformRole → String → Bool
readable_document pg db u role d = elim (first_document db.documents d) [
  | none ↦ false
  | some row ↦ is_active row && readable_row pg db u role row
]

any-first_document :
    (q : DocumentRow → Bool) (rows : List DocumentRow) (d : String)
    → UniqueDocuments rows
    → any (λ row. q row && row.id == d) rows
      ≡ elim (first_document rows d) [ none ↦ false | some row ↦ q row ]
any-first_document q [] d h = refl
any-first_document q (row ∷ rows) d h = ground (
  arith,
  any-first_document q rows d h.1,
  eq_iff row.id d,
  λ (e : row.id ≡ d). ap (first_document rows) e,
)

first_document-id :
    (rows : List DocumentRow) (d : String) (row : DocumentRow)
    → first_document rows d ≡ some row
    → row.id ≡ d
first_document-id [] d row h = cc
first_document-id (r ∷ rows) d row h = ground (arith, first_document-id rows d row, eq_iff r.id d)

contains-requested :
    (ids : List String) (d : String)
    → contains d (keep (λ i. not (is_empty i)) ids) ≡ (contains d ids && not (is_empty d))
contains-requested [] d = refl
contains-requested (i ∷ ids) d =
    ground (arith, contains-requested ids d, eq_iff i d, λ (e : i ≡ d). ap is_empty e)

-- The batch confirms exactly the requested, non-empty ids of active documents that a single
-- `load_document` and `resolve_access` let the user read. The ids of the knowledge bases and of the
-- documents are unique.
pub authorized_document_ids-readable :
    (pg : Postgres) (db : Database) (u : String) (role : PlatformRole) (ids : List String)
    (d : String)
    → UniqueKbs db.knowledge_bases
    → UniqueDocuments db.documents
    → contains d (authorized_document_ids pg db u role ids)
      ≡ (contains d ids && not (is_empty d) && readable_document pg db u role d)
authorized_document_ids-readable pg db u role ids d ukb udoc =
    rw (authorized_document_ids-allowed pg db u role ukb ids) (
      contains-allowed pg db u role ukb ids d
      ∙ any-first_document (λ row. wanted pg db u role ukb ids row && readable_row pg db u role row)
          db.documents d udoc
      ∙ decided)
  where
    found-id :
        (row : DocumentRow)
        → first_document db.documents d ≡ some row
        → contains row.id (keep (λ i. not (is_empty i)) ids) ≡ (contains d ids && not (is_empty d))
    found-id row e =
        ap (λ i. contains i (keep (λ i. not (is_empty i)) ids))
          (first_document-id db.documents d row e)
        ∙ contains-requested ids d

    decided :
        elim (first_document db.documents d) [
          | none ↦ false
          | some row ↦ wanted pg db u role ukb ids row && readable_row pg db u role row
        ]
        ≡ (contains d ids && not (is_empty d) && readable_document pg db u role d)
    decided = elim (Option-cases (first_document db.documents d)) [
      | inl absent ↦ ground arith
      | inr (row, here) ↦ ground (arith, found-id row here)
    ]
