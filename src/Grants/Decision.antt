-- ===== src/Grants/Decision.antt =====
-- One row of the batch in `authorized_document_ids` is decided as if it were loaded alone.
use wikipedia_rag.Common.{
  String, Bool, true, false, ◌&&◌, ◌||◌, none, some, List, [], ◌∷◌, ◌≡◌, sym, ap, ◌∙◌, ◌==◌,
  string_eq, inl, inr, keep, contains, Option-cases, eq_iff, arith,
}
use wikipedia_rag.Access.{PlatformRole, ResourceType, resolve_access, principal_permissions}
use wikipedia_rag.Grants.{
  GrantRow, KnowledgeBaseRow, DocumentRow, Database, Postgres, is_on, resource_type_beq,
  group_ids_for_user, first_kb, group_grants, load_grants, load_knowledge_base, document_of_row,
  batch_allows,
}
use wikipedia_rag.Grants.Rows.{
  UniqueKbs, last_kb-first, first_kb-keep, UniqueKbs-keep, any-group_grants, resolve_access-grants,
  permissions_cong,
}

abbrev pub is_active : DocumentRow → Bool
is_active row = row.lifecycle_state == "active"

-- The decision that `load_document` and `resolve_access` make for one row.
abbrev pub readable_row : Postgres → Database → String → PlatformRole → DocumentRow → Bool
readable_row pg db u role row = elim (document_of_row pg db row) [
  | none ↦ false
  | some r ↦ (resolve_access u role (group_ids_for_user db u) r).read
]

first_kb-id :
    (rows : List KnowledgeBaseRow) (id : String) (row : KnowledgeBaseRow)
    → first_kb rows id ≡ some row
    → row.id ≡ id
first_kb-id [] id row h = cc
first_kb-id (r ∷ rows) id row h = ground (arith, first_kb-id rows id row, eq_iff r.id id)

-- The test that keeps the grant rows of a batch.
abbrev pub in_batch : List String → List String → GrantRow → Bool
in_batch requested kb_ids g =
    (resource_type_beq g.resource_type ResourceType.document && contains g.resource_id requested)
    || (resource_type_beq g.resource_type ResourceType.knowledge_base
        && contains g.resource_id kb_ids)

in_batch-document :
    (requested kb_ids : List String) (id : String)
    → contains id requested ≡ true
    → (g : GrantRow) → is_on ResourceType.document id g ≡ true
    → in_batch requested kb_ids g ≡ true
in_batch-document requested kb_ids id h g on =
    ground (arith, ap (λ i. contains i requested) ((eq_iff g.resource_id id).0 (ground arith)))

in_batch-kb :
    (requested kb_ids : List String) (id : String)
    → contains id kb_ids ≡ true
    → (g : GrantRow) → is_on ResourceType.knowledge_base id g ≡ true
    → in_batch requested kb_ids g ≡ true
in_batch-kb requested kb_ids id h g on =
    ground (arith, ap (λ i. contains i kb_ids) ((eq_iff g.resource_id id).0 (ground arith)))

module _ (pg : Postgres) (db : Database) (u : String) (role : PlatformRole)
    (unique : UniqueKbs db.knowledge_bases) where
  -- One row of the batch is decided as if it were loaded alone.
  pub batch_allows_lem :
      (requested kb_ids : List String) (row : DocumentRow)
      → contains row.id requested ≡ true
      → contains row.knowledge_base_id kb_ids ≡ true
      → batch_allows pg db u role
          (keep (λ kb. contains kb.id kb_ids) db.knowledge_bases)
          (group_grants
            (pg.ordered (
              keep
                (λ g.
                  (resource_type_beq g.resource_type ResourceType.document
                    && contains g.resource_id requested)
                  || (resource_type_beq g.resource_type ResourceType.knowledge_base
                      && contains g.resource_id kb_ids))
                db.resource_grants))
            (λ t id. []))
          row
        ≡ readable_row pg db u role row
  unfolding batch_allows load_knowledge_base
  batch_allows_lem requested kb_ids row hd hk =
      let gs = group_ids_for_user db u in
      let found =
        last_kb-first _ row.knowledge_base_id
          (UniqueKbs-keep (λ kb. contains kb.id kb_ids) db.knowledge_bases unique)
        ∙ first_kb-keep (λ kb. contains kb.id kb_ids) db.knowledge_bases row.knowledge_base_id
            (λ kb e. rw e hk) in
      elim (Option-cases (first_kb db.knowledge_bases row.knowledge_base_id)) [
        | inl absent ↦ ground (arith, found)
        | inr (kb, here) ↦
            let same = first_kb-id db.knowledge_bases row.knowledge_base_id kb here in
            let big = in_batch requested kb_ids in
            let rows_of_document =
              permissions_cong u gs _ (load_grants pg db ResourceType.document row.id) (
                any-group_grants pg db ResourceType.document row.id big
                  (in_batch-document requested kb_ids row.id hd)) in
            let rows_of_kb =
              permissions_cong u gs _
                (load_grants pg db ResourceType.knowledge_base row.knowledge_base_id)
                (any-group_grants pg db ResourceType.knowledge_base row.knowledge_base_id big
                  (in_batch-kb requested kb_ids row.knowledge_base_id hk))
              ∙ ap
                  (λ i.
                    principal_permissions u gs (load_grants pg db ResourceType.knowledge_base i))
                  (sym same) in
            let decisions =
              resolve_access-grants u gs role row kb _ _ _ _ rows_of_document rows_of_kb in
            ground (arith, found, ap (λ d. d.read) decisions)
      ]
