-- ===== src/Grants/Replace.antt =====
-- `replace_grants`: what it leaves in the tables, on each of its outcomes.
use mathlib.Core.Option
use mathlib.Core.List.{append-nil}
use wikipedia_rag.Common.{
  ℕ, ◌+◌, String, Bool, true, false, not, ◌&&◌, ◌||◌, none, some, List, [], ◌∷◌, ◌++◌, map, ◌≡◌,
  ◌≢◌, ◌↔◌, ◌⊎◌, inl, inr, refl, sym, ap, ap₂, ◌∙◌, ◌==◌, string_eq, any, all, any-map, any-keep,
  any-append, all-keep, keep-append, keep-keep, all_cong_mem, any_cong, keep, contains,
  Memᴰ→contains, Option-cases, eq_iff, arith,
}
use wikipedia_rag.Access.{
  ResourceType, PrincipalType, ResourcePermission, AccessGrant, principal_type_eq, permission_eq,
  normalize_grants, principal_permissions,
}
use wikipedia_rag.Access.Normalize.{
  stripped, normalize_grants-Distinct, normalize_grants-permissions,
}
use wikipedia_rag.Access.Rights.{allows, principal_permissions_lem}
use wikipedia_rag.Grants.{
  GrantRow, Database, Postgres, returned, value_error, unknown_principal, row_grant, is_on,
  principals, principals_known, validate_principals, load_grants, replace_grants,
}
use wikipedia_rag.Grants.Insert.{
  resource_type_beq_iff, resource_type_beq_refl, new_rows, replaced, insert_grants-deleted,
}

-- The ids that the query finds are all of the asked ones, when each is in the table.
pub principals_known_lem :
    (ids table : List String) → principals_known ids table ≡ all (λ i. contains i table) ids
unfolding principals_known
principals_known_lem ids table = ground (
  arith,
  all-keep (λ i. contains i ids) table,
  all_cong_mem (λ i. contains i (keep (λ j. contains j ids) table)) (λ i. contains i table) ids
      (λ i m.
        any-keep (λ x. x == i) (λ j. contains j ids) table
        ∙ any_cong _ _ table (λ x.
          ground (arith, Memᴰ→contains m, λ (e : x ≡ i). ap (λ j. contains j ids) e, eq_iff x i))),
)

module _ (pg : Postgres) (t : ResourceType) (id : String) where
  -- A payload that is normalized and whose principals exist always replaces.
  replace_grants_returns :
      (db : Database) (grants normalized : List AccessGrant)
      → normalize_grants grants ≡ some normalized
      → validate_principals db normalized ≡ none
      → replace_grants pg t id grants db ≡ (
        returned (load_grants pg (replaced pg t id normalized db) t id),
        replaced pg t id normalized db,
      )
  unfolding replace_grants
  replace_grants_returns db grants normalized n v = ground (
    arith,
    insert_grants-deleted pg t id normalized db (normalize_grants-Distinct grants normalized n).0,
  )

-- A payload passes exactly when each of its users is in `users` and each of its groups in `groups`.
pub validate_principals-none_iff :
    (db : Database) (l : List AccessGrant)
    → (validate_principals db l ≡ none) ↔ (
        (all (λ i. contains i db.users) (principals PrincipalType.user l) ≡ true)
        × (all (λ i. contains i db.groups) (principals PrincipalType.group l) ≡ true))
unfolding validate_principals
validate_principals-none_iff db l =
    rw
      (
        principals_known_lem (principals PrincipalType.user l) db.users,
        principals_known_lem (principals PrincipalType.group l) db.groups,
      )
      (ground arith)

-- `replace_grants` raises ValueError exactly for a payload that does not normalize, and for one with
-- an unknown principal names its type; both leave every table as it was. In every other case it
-- returns: the rows of the resource are the normalized payload, with new ids, and the revision is one
-- more. It never meets the UNIQUE constraint.
pub replace_grants_atomic :
    (pg : Postgres) (t : ResourceType) (id : String) (db : Database) (grants : List AccessGrant)
    → (normalize_grants grants ≡ none) × (replace_grants pg t id grants db ≡ (value_error, db))
      ⊎ ((normalized : List AccessGrant) × (normalize_grants grants ≡ some normalized)
          × (((p : PrincipalType) × (validate_principals db normalized ≡ some p)
                × (replace_grants pg t id grants db ≡ (unknown_principal p, db)))
              ⊎ ((validate_principals db normalized ≡ none)
                  × (replace_grants pg t id grants db ≡ (
                      let db' = replaced pg t id normalized db in
                      (returned (load_grants pg db' t id), db'))))))
replace_grants_atomic pg t id db grants = elim (Option-cases (normalize_grants grants)) [
  | inl raised ↦ inl (raised, replace_raises raised)
  | inr (normalized, n) ↦ elim (Option-cases (validate_principals db normalized)) [
    | inl valid ↦
        inr
          (normalized, n, inr (valid, replace_grants_returns pg t id db grants normalized n valid))
    | inr (p, missing) ↦
        inr (normalized, n, inl (p, missing, replace_unknown normalized n p missing))
  ]
]
  where
    replace_raises :
        normalize_grants grants ≡ none → replace_grants pg t id grants db ≡ (value_error, db)
    replace_raises raised = unfold replace_grants in ground arith

    replace_unknown :
        (normalized : List AccessGrant)
        → normalize_grants grants ≡ some normalized
        → (p : PrincipalType) → validate_principals db normalized ≡ some p
        → replace_grants pg t id grants db ≡ (unknown_principal p, db)
    replace_unknown normalized n p missing = unfold replace_grants in ground arith

module _ (pg : Postgres) (t : ResourceType) (id : String) (db : Database) where
  any-new_rows :
      (f : GrantRow → Bool) (q : AccessGrant → Bool)
      → ((n clock : ℕ) (g : AccessGrant) → any f (new_rows pg t id n clock (g ∷ [])) ≡ q g)
      → (n clock : ℕ) (l : List AccessGrant) → any f (new_rows pg t id n clock l) ≡ any q l
  unfolding new_rows
  any-new_rows f q h n clock [] = refl
  any-new_rows f q h n clock (g ∷ l) =
      ground (arith, h n clock g, any-new_rows f q h (n + 1) clock l)

  any-deleted :
      (f : GrantRow → Bool) (rows : List GrantRow)
      → any (λ row. is_on t id row && f row) (keep (λ row. not (is_on t id row)) rows) ≡ false
  any-deleted f [] = refl
  any-deleted f (r ∷ rows) = ground (arith, any-deleted f rows)

  -- What a test of keys finds in the grants that the replaced tables hold on the resource.
  any-replaced :
      (u : String) (gs : List String) (p : ResourcePermission) (l : List AccessGrant)
      → any (allows u gs p) (load_grants pg (replaced pg t id l db) t id) ≡ any (allows u gs p) l
  unfolding load_grants replaced new_rows
  any-replaced u gs p l =
      any-map (allows u gs p) row_grant _
      ∙ pg.any-ordered (λ row. allows u gs p (row_grant row)) _
      ∙ any-keep (λ row. allows u gs p (row_grant row)) (is_on t id) _
      ∙ any-append _ (keep (λ row. not (is_on t id row)) db.resource_grants) _
      ∙ ap₂ (λ a b. a || b) (any-deleted (λ row. allows u gs p (row_grant row)) db.resource_grants)
          (any-new_rows _ (allows u gs p)
            (λ n clock g. ground (arith, resource_type_beq_refl t, eq_iff id id)) db.drawn db.clock
            l)

  -- After a replacement that returns, what any user with any groups holds on the resource is what
  -- the payload gives, its identifiers stripped; the reply is what the tables now hold; and the
  -- revision, if its row is there, is one more.
  pub replace_grants-permissions :
      (grants r : List AccessGrant) (db' : Database) (u : String) (gs : List String)
      → replace_grants pg t id grants db ≡ (returned r, db')
      → (principal_permissions u gs (load_grants pg db' t id)
          ≡ principal_permissions u gs (map stripped grants))
        × (r ≡ load_grants pg db' t id)
        × (db'.revision ≡ Option.map (λ n. n + 1) db.revision)
  replace_grants-permissions grants r db' u gs h = elim (replace_grants_atomic pg t id db grants) [
    | inl (_, e) ↦ cc
    | inr (normalized, n, inl (p, _, e)) ↦ cc
    | inr (normalized, n, inr (_, e)) ↦
        let same : replaced pg t id normalized db ≡ db' = cc in
        rw (← same) (
          permissions normalized ∙ normalize_grants-permissions u gs grants normalized n,
          cc,
          unfold replaced in refl,
        )
  ]
    where
      permissions :
          (l : List AccessGrant)
          → principal_permissions u gs (load_grants pg (replaced pg t id l db) t id)
            ≡ principal_permissions u gs l
      permissions l =
          principal_permissions_lem u gs _
          ∙ ap₂ (λ (a b : Bool). (a, b)) (any-replaced u gs ResourcePermission.read l)
              (any-replaced u gs ResourcePermission.write l)
          ∙ sym (principal_permissions_lem u gs l)

  module _ (t' : ResourceType) (id' : String) (other : (t' ≢ t) ⊎ (id' ≢ id)) where
    elsewhere : (row : GrantRow) → is_on t' id' row ≡ true → not (is_on t id row) ≡ true
    elsewhere row h = ground (
      arith,
      resource_type_beq_iff row.resource_type t,
      resource_type_beq_iff row.resource_type t',
      eq_iff row.resource_id id,
      eq_iff row.resource_id id',
    )

    new_rows_elsewhere :
        (n clock : ℕ) (l : List AccessGrant) → keep (is_on t' id') (new_rows pg t id n clock l) ≡ []
    unfolding new_rows
    new_rows_elsewhere n clock [] = refl
    new_rows_elsewhere n clock (g ∷ l) =
        ground
          (arith, new_rows_elsewhere (n + 1) clock l, resource_type_beq_iff t t', eq_iff id id')

    replaced_elsewhere :
        (l : List AccessGrant)
        → load_grants pg (replaced pg t id l db) t' id' ≡ load_grants pg db t' id'
    unfolding load_grants replaced
    replaced_elsewhere l =
        ap (λ rows. map row_grant (pg.ordered rows))
          (keep-append (is_on t' id') _ _
            ∙ ap₂ (λ a b. a ++ b) (keep-keep (is_on t' id') _ db.resource_grants elsewhere)
                (new_rows_elsewhere db.drawn db.clock l)
            ∙ append-nil _)

    -- Whatever the payload and the outcome, the grants of every other resource, the knowledge bases,
    -- the documents and the memberships are what they were.
    pub replace_grants-elsewhere :
        (grants : List AccessGrant)
        → let db' = (replace_grants pg t id grants db).1 in
          (load_grants pg db' t' id' ≡ load_grants pg db t' id')
          × (db'.knowledge_bases ≡ db.knowledge_bases)
          × (db'.documents ≡ db.documents)
          × (db'.memberships ≡ db.memberships)
    replace_grants-elsewhere grants = elim (replace_grants_atomic pg t id db grants) [
      | inl (_, e) ↦ rw e (refl, refl, refl, refl)
      | inr (normalized, n, inl (p, _, e)) ↦ rw e (refl, refl, refl, refl)
      | inr (normalized, n, inr (_, e)) ↦ rw e (
        replaced_elsewhere normalized,
        unfold replaced in refl,
        unfold replaced in refl,
        unfold replaced in refl,
      )
    ]
