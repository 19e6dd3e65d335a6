-- ===== src/Grants/Rows.antt =====
-- The rows that workspace_grants.py reads: unique ids, and the grants of one resource as a query for it
-- alone or a grouped dict gives them.
use mathlib.Core.List.{append-nil, append_assoc}
use wikipedia_rag.Common.{
  String, Bool, true, ◌&&◌, none, List, [], ◌∷◌, ◌++◌, map, ◌≡◌, refl, sym, ap, ap₂, ◌∙◌, string_eq,
  inl, inr, any, any-map, any-keep, any_cong, keep, Bool-cases, eq_iff, arith,
}
use wikipedia_rag.Access.{
  PlatformRole, ResourceType, AccessGrant, resolve_access, principal_permissions,
}
use wikipedia_rag.Access.Rights.{principal_permissions_lem}
use wikipedia_rag.Grants.{
  GrantRow, KnowledgeBaseRow, DocumentRow, Database, Postgres, row_grant, is_on, first_kb,
  first_document, kb_access, document_access, GrantsByKey, group_grants, last_kb, load_grants,
}

-- The ids of the rows are pairwise different, as PRIMARY KEY in db.py has it.
abbrev pub UniqueKbs : List KnowledgeBaseRow → Type 0
UniqueKbs [] = Unit
UniqueKbs (row ∷ rows) = (first_kb rows row.id ≡ none) × UniqueKbs rows

abbrev pub UniqueDocuments : List DocumentRow → Type 0
UniqueDocuments [] = Unit
UniqueDocuments (row ∷ rows) = (first_document rows row.id ≡ none) × UniqueDocuments rows

-- The grouped dict holds, at each key, the grants of its rows in query order.
pub group_grants_lem :
    (rows : List GrantRow) (grants : GrantsByKey) (t : ResourceType) (id : String)
    → group_grants rows grants t id ≡ grants t id ++ map row_grant (keep (is_on t id) rows)
unfolding group_grants
group_grants_lem [] grants t id = sym (append-nil (grants t id))
group_grants_lem (row ∷ rows) grants t id = elim (Bool-cases (is_on t id row)) [
  | inl here ↦
      rw (group_grants_lem rows _ t id, here, keep)
        (append_assoc (grants t id) (row_grant row ∷ []) (map row_grant (keep (is_on t id) rows)))
  | inr other ↦ rw (group_grants_lem rows _ t id, other, keep)
]

-- With unique ids the last row with an id is the first.
pub last_kb-first :
    (rows : List KnowledgeBaseRow) (id : String)
    → UniqueKbs rows
    → last_kb rows id ≡ first_kb rows id
last_kb-first [] id u = refl
last_kb-first (row ∷ rows) id u =
    ground (
      arith,
      last_kb-first rows id u.1,
      λ (e : row.id ≡ id). ap (first_kb rows) e,
      eq_iff row.id id,
    )

module _ (p : KnowledgeBaseRow → Bool) where
  pub first_kb-keep :
      (rows : List KnowledgeBaseRow) (id : String)
      → ((row : KnowledgeBaseRow) → row.id ≡ id → p row ≡ true)
      → first_kb (keep p rows) id ≡ first_kb rows id
  first_kb-keep [] id h = refl
  first_kb-keep (row ∷ rows) id h = ground (arith, first_kb-keep rows id h, h row, eq_iff row.id id)

  first_kb-keep-none :
      (rows : List KnowledgeBaseRow) (id : String)
      → first_kb rows id ≡ none
      → first_kb (keep p rows) id ≡ none
  first_kb-keep-none [] id h = refl
  first_kb-keep-none (row ∷ rows) id h = ground (arith, first_kb-keep-none rows id)

  pub UniqueKbs-keep : (rows : List KnowledgeBaseRow) → UniqueKbs rows → UniqueKbs (keep p rows)
  UniqueKbs-keep [] u = tt
  UniqueKbs-keep (row ∷ rows) u = elim (Bool-cases (p row)) [
    | inl e ↦ rw (keep, e) (first_kb-keep-none rows row.id u.0, UniqueKbs-keep rows u.1)
    | inr e ↦ rw (keep, e) (UniqueKbs-keep rows u.1)
  ]

-- What the two ways to read grants agree on: a test of the grants on one resource.
module _ (pg : Postgres) (db : Database) (t : ResourceType) (id : String) where
  any-load_grants :
      (f : AccessGrant → Bool)
      → any f (load_grants pg db t id)
        ≡ any (λ row. is_on t id row && f (row_grant row)) db.resource_grants
  unfolding load_grants
  any-load_grants f =
      any-map f row_grant _
      ∙ pg.any-ordered (λ row. f (row_grant row)) _
      ∙ any-keep (λ row. f (row_grant row)) (is_on t id) db.resource_grants

  pub any-group_grants :
      (big : GrantRow → Bool)
      → ((row : GrantRow) → is_on t id row ≡ true → big row ≡ true)
      → (f : AccessGrant → Bool)
      → any f (group_grants (pg.ordered (keep big db.resource_grants)) (λ t' id'. []) t id)
        ≡ any f (load_grants pg db t id)
  any-group_grants big h f =
      ap (any f) (group_grants_lem _ (λ t' id'. []) t id)
      ∙ any-map f row_grant _
      ∙ any-keep (λ row. f (row_grant row)) (is_on t id) _
      ∙ pg.any-ordered (λ row. is_on t id row && f (row_grant row)) _
      ∙ any-keep (λ row. is_on t id row && f (row_grant row)) big db.resource_grants
      ∙ any_cong _ _ db.resource_grants (λ row. ground (arith, h row))
      ∙ sym (any-load_grants f)

-- A decision reads the grants through `principal_permissions` alone.
module _ (u : String) (gs : List String) where
  pub resolve_access-grants :
      (role : PlatformRole) (row : DocumentRow) (kb : KnowledgeBaseRow)
      (g g' k k' : List AccessGrant)
      → principal_permissions u gs g ≡ principal_permissions u gs g'
      → principal_permissions u gs k ≡ principal_permissions u gs k'
      → resolve_access u role gs (document_access row g (kb_access kb k))
        ≡ resolve_access u role gs (document_access row g' (kb_access kb k'))
  unfolding resolve_access
  resolve_access-grants PlatformRole.platform_admin row kb g g' k k' eg ek = refl
  resolve_access-grants PlatformRole.user row kb g g' k k' eg ek = ground arith

  pub permissions_cong :
      (g g' : List AccessGrant)
      → ((f : AccessGrant → Bool) → any f g ≡ any f g')
      → principal_permissions u gs g ≡ principal_permissions u gs g'
  permissions_cong g g' h =
      principal_permissions_lem u gs g
      ∙ ap₂ (λ (r w : Bool). (r, w)) (h _) (h _)
      ∙ sym (principal_permissions_lem u gs g')
