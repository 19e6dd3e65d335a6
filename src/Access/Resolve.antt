-- ===== src/Access/Resolve.antt =====
-- `resolve_access` of workspace_access.py against the declarative rights.
use wikipedia_rag.Common.{
  String, Bool, true, false, ◌&&◌, ◌||◌, none, some, List, [], ◌∷◌, ◌≡◌, ◌↔◌, refl, ◌==◌, string_eq,
  inl, inr, any, eq_iff, arith, Bool-cases, if◌then◌else◌,
}
use wikipedia_rag.Access.{
  PlatformRole, AccessGrant, ResourcePermission, ResourceType, ResourceFields, ResourceAccess,
  AccessDecision, standalone, within, fields, inherited, resolve_access,
}
use wikipedia_rag.Access.Rights.{
  Administers, owner, kb_owner, May, administers, direct, inherits, allows, allows_iff,
  principal_permissions_lem,
}

abbrev pub permitted : ResourcePermission → AccessDecision → Bool
permitted ResourcePermission.read d = d.read
permitted ResourcePermission.write d = d.write

abbrev is_document : ResourceFields → Bool
is_document r = elim r.resource_type [
  | ResourceType.knowledge_base ↦ false
  | ResourceType.document ↦ true
]

abbrev administers_test : String → ResourceAccess → Bool
administers_test u (standalone r) = r.owner_user_id == u
administers_test u (within r kb) =
    r.owner_user_id == u || (is_document r && (fields kb).owner_user_id == u)

abbrev inherits_test : String → List String → ResourcePermission → ResourceAccess → Bool
inherits_test u gs p (standalone r) = false
inherits_test u gs p (within r kb) =
    is_document r && r.inherits_kb_access && any (allows u gs p) (fields kb).grants

module _ (u : String) (gs : List String) where
  inherited_lem :
      (r : ResourceFields) (kb : ResourceAccess)
      → inherited u gs (within r kb) ≡ (
          let own = is_document r && (fields kb).owner_user_id == u in
          let flows = is_document r && r.inherits_kb_access in
          (
            own,
            flows && any (allows u gs ResourcePermission.read) (fields kb).grants || flows && own,
            flows && any (allows u gs ResourcePermission.write) (fields kb).grants || flows && own,
          ))
  unfolding inherited
  inherited_lem r kb = ground (arith, principal_permissions_lem u gs (fields kb).grants)

  -- A permission is an administrator's, or from a direct grant, or from an inherited one.
  resolve_test :
      (p : ResourcePermission) (r : ResourceAccess)
      → permitted p (resolve_access u PlatformRole.user gs r) ≡ (
          administers_test u r || (any (allows u gs p) (fields r).grants || inherits_test u gs p r))
  unfolding resolve_access
  resolve_test p (standalone r) = ground (arith, principal_permissions_lem u gs r.grants)
  resolve_test p (within r kb) =
      ground (arith, principal_permissions_lem u gs r.grants, inherited_lem r kb)

  share_test :
      (r : ResourceAccess) → (resolve_access u PlatformRole.user gs r).share ≡ administers_test u r
  unfolding resolve_access
  share_test (standalone r) = ground arith
  share_test (within r kb) = ground (arith, inherited_lem r kb)

  delete_test :
      (r : ResourceAccess) → (resolve_access u PlatformRole.user gs r).delete ≡ administers_test u r
  unfolding resolve_access
  delete_test (standalone r) = ground arith
  delete_test (within r kb) = ground (arith, inherited_lem r kb)

  test→Administers : (r : ResourceAccess) → administers_test u r ≡ true → Administers u r
  test→Administers (standalone r) h = owner ((eq_iff r.owner_user_id u).0 h)
  test→Administers (within r kb) h = elim (Bool-cases (r.owner_user_id == u)) [
    | inl e ↦ owner ((eq_iff r.owner_user_id u).0 e)
    | inr e ↦
        kb_owner kb refl (ground arith) ((eq_iff (fields kb).owner_user_id u).0 (ground arith))
  ]

  owner→test : (r : ResourceAccess) → (fields r).owner_user_id ≡ u → administers_test u r ≡ true
  owner→test (standalone r) h = (eq_iff r.owner_user_id u).1 h
  owner→test (within r kb) h = ground (arith, eq_iff r.owner_user_id u)

  kb_owner→test :
      (r kb : ResourceAccess)
      → r ≡ within (fields r) kb
      → (fields r).resource_type ≡ ResourceType.document
      → (fields kb).owner_user_id ≡ u
      → administers_test u r ≡ true
  kb_owner→test (standalone r) kb e d h = cc
  kb_owner→test (within r kb') kb e d h = ground (arith, e, eq_iff (fields kb').owner_user_id u)

  Administers→test : {r : ResourceAccess} → Administers u r → administers_test u r ≡ true
  Administers→test {r} (owner h) = owner→test r h
  Administers→test {r} (kb_owner kb e d h) = kb_owner→test r kb e d h

  module _ (p : ResourcePermission) where
    inherits_test→May : (r : ResourceAccess) → inherits_test u gs p r ≡ true → May u gs p r
    inherits_test→May (standalone r) h = cc
    inherits_test→May (within r kb) h =
        inherits kb refl (ground arith) (ground arith)
          ((allows_iff u gs p (fields kb).grants).0 (ground arith))

    inherits→test :
        (r kb : ResourceAccess)
        → r ≡ within (fields r) kb
        → (fields r).resource_type ≡ ResourceType.document
        → (fields r).inherits_kb_access ≡ true
        → any (allows u gs p) (fields kb).grants ≡ true
        → inherits_test u gs p r ≡ true
    inherits→test (standalone r) kb e d i h = cc
    inherits→test (within r kb') kb e d i h = ground (arith, e)

    May→test :
        {r : ResourceAccess}
        → May u gs p r
        → (administers_test u r
            || (any (allows u gs p) (fields r).grants || inherits_test u gs p r))
          ≡ true
    May→test (administers a) = ground (arith, Administers→test a)
    May→test {r} (direct g) = ground (arith, (allows_iff u gs p (fields r).grants).1 g)
    May→test {r} (inherits kb e d i g) =
        ground (arith, inherits→test r kb e d i ((allows_iff u gs p (fields kb).grants).1 g))

    test→May :
        (r : ResourceAccess)
        → (administers_test u r
            || (any (allows u gs p) (fields r).grants || inherits_test u gs p r))
          ≡ true
        → May u gs p r
    test→May r h = elim (Bool-cases (administers_test u r)) [
      | inl a ↦ administers (test→Administers r a)
      | inr a ↦ elim (Bool-cases (any (allows u gs p) (fields r).grants)) [
        | inl g ↦ direct ((allows_iff u gs p (fields r).grants).0 g)
        | inr g ↦ inherits_test→May r (ground arith)
      ]
    ]

-- `resolve_access` permits a user exactly what the rights give: it is sound and complete for the
-- declarative relation, for READ and for WRITE.
pub resolve_access-May :
    (user_id : String) (groups : List String) (p : ResourcePermission) (r : ResourceAccess)
    → (permitted p (resolve_access user_id PlatformRole.user groups r) ≡ true)
      ↔ May user_id groups p r
resolve_access-May u gs p r = rw (resolve_test u gs p r) (test→May u gs p r, May→test u gs p)

-- A user may share a resource exactly when they own it or the knowledge base of the document, and
-- may delete it exactly then too.
pub resolve_access-Administers :
    (user_id : String) (groups : List String) (r : ResourceAccess)
    → let d = resolve_access user_id PlatformRole.user groups r in
      ((d.share ≡ true) ↔ Administers user_id r) × ((d.delete ≡ true) ↔ Administers user_id r)
resolve_access-Administers u gs r =
    let both : (administers_test u r ≡ true) ↔ Administers u r =
      (test→Administers u gs r, Administers→test u gs) in
    (rw (share_test u gs r) both, rw (delete_test u gs r) both)

write→read :
    (u : String) (gs : List String) (l : List AccessGrant)
    → any (allows u gs ResourcePermission.write) l ≡ true
    → any (allows u gs ResourcePermission.read) l ≡ true
write→read u gs [] h = cc
write→read u gs (g ∷ l) h = ground (arith, write→read u gs l)

-- For every role: sharing and deleting go together and imply WRITE, WRITE implies READ, and the
-- scope is "full" exactly when the resource is readable.
pub resolve_access_ordered :
    (user_id : String) (role : PlatformRole) (groups : List String) (r : ResourceAccess)
    → let d = resolve_access user_id role groups r in
      (d.share ≡ d.delete)
      × (d.share ≡ true → d.write ≡ true)
      × (d.write ≡ true → d.read ≡ true)
      × (d.access_scope ≡ (if d.read then some "full" else none))
unfolding resolve_access
resolve_access_ordered u PlatformRole.platform_admin gs r = ground arith
resolve_access_ordered u PlatformRole.user gs (standalone r) =
    ground (arith, principal_permissions_lem u gs r.grants, write→read u gs r.grants)
resolve_access_ordered u PlatformRole.user gs (within r kb) = ground (
  arith,
  principal_permissions_lem u gs r.grants,
  write→read u gs r.grants,
  inherited_lem u gs r kb,
  write→read u gs (fields kb).grants,
)

-- A document that does not inherit is closed to the grants of its knowledge base: for two parents
-- with one owner, whatever their grants, every decision is the same.
pub resolve_access_private :
    (user_id : String) (role : PlatformRole) (groups : List String) (r : ResourceFields)
    (kb kb' : ResourceAccess)
    → r.inherits_kb_access ≡ false
    → (fields kb).owner_user_id ≡ (fields kb').owner_user_id
    → resolve_access user_id role groups (within r kb)
      ≡ resolve_access user_id role groups (within r kb')
unfolding resolve_access
resolve_access_private u PlatformRole.platform_admin gs r kb kb' h e = refl
resolve_access_private u PlatformRole.user gs r kb kb' h e =
    ground (arith, inherited_lem u gs r kb, inherited_lem u gs r kb')
