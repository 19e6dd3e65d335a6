-- ===== src/Access/Rights.antt =====
-- The declarative rights that workspace_access.py composes: ownership, direct grants, and what a
-- document takes from its knowledge base.
use wikipedia_rag.Common.{
  String, Bool, true, false, ◌&&◌, ◌||◌, List, [], ◌∷◌, Memᴰ, ◌≡◌, ◌↔◌, refl, ◌==◌, string_eq, inl,
  inr, Bool-cases, any, any→Memᴰ, Memᴰ→any, contains→Memᴰ, Memᴰ→contains, eq_iff, arith,
}
use wikipedia_rag.Access.{
  AccessGrant, PrincipalType, ResourcePermission, ResourceType, ResourceAccess, within, fields,
  principal_type_eq, permission_eq, principal_type_beq_iff, matches, visit_grant, permissions_from,
  principal_permissions,
}

-- The grant names the user, or a group of theirs.
pub data Concerns (user_id : String) (groups : List String) (g : AccessGrant) : Type 0 where
  as_user :
      g.principal_type ≡ PrincipalType.user → g.principal_id ≡ user_id → Concerns user_id groups g
  as_member :
      g.principal_type ≡ PrincipalType.group
      → Memᴰ g.principal_id groups
      → Concerns user_id groups g

-- WRITE covers both permissions, READ itself only.
abbrev pub Covers : ResourcePermission → ResourcePermission → Type 0
Covers ResourcePermission.write _ = Unit
Covers ResourcePermission.read ResourcePermission.read = Unit
Covers ResourcePermission.read ResourcePermission.write = ⊥

pub record HasGrant (user_id : String) (groups : List String) (p : ResourcePermission)
    (grants : List AccessGrant) : Type 0 where
  pub grant : AccessGrant
  pub listed : Memᴰ grant grants
  pub concerns : Concerns user_id groups grant
  pub covers : Covers grant.permission p

-- The user owns the resource, or the knowledge base of the document.
pub data Administers (user_id : String) : ResourceAccess → Type 0 where
  owner : {r : ResourceAccess} → (fields r).owner_user_id ≡ user_id → Administers user_id r
  kb_owner :
      {r : ResourceAccess} (kb : ResourceAccess)
      → r ≡ within (fields r) kb
      → (fields r).resource_type ≡ ResourceType.document
      → (fields kb).owner_user_id ≡ user_id
      → Administers user_id r

-- Every way to hold a permission on a resource.
pub data May (user_id : String) (groups : List String) (p : ResourcePermission)
    : ResourceAccess → Type 0 where
  administers : {r : ResourceAccess} → Administers user_id r → May user_id groups p r
  direct :
      {r : ResourceAccess} → HasGrant user_id groups p (fields r).grants → May user_id groups p r
  inherits :
      {r : ResourceAccess} (kb : ResourceAccess)
      → r ≡ within (fields r) kb
      → (fields r).resource_type ≡ ResourceType.document
      → (fields r).inherits_kb_access ≡ true
      → HasGrant user_id groups p (fields kb).grants
      → May user_id groups p r

-- The Boolean form: a matching grant of enough strength.
abbrev pub covers : ResourcePermission → ResourcePermission → Bool
covers ResourcePermission.write _ = true
covers ResourcePermission.read ResourcePermission.read = true
covers ResourcePermission.read ResourcePermission.write = false

abbrev pub allows : String → List String → ResourcePermission → AccessGrant → Bool
allows user_id groups p g = matches user_id groups g && covers g.permission p

module _ (user_id : String) (groups : List String) where
  -- One round adds what the grant gives.
  visit_grant_lem :
      (g : AccessGrant) (r w : Bool)
      → visit_grant user_id groups g (r, w) ≡ (
        r || allows user_id groups ResourcePermission.read g,
        w || allows user_id groups ResourcePermission.write g,
      )
  unfolding visit_grant
  visit_grant_lem g r w = ground arith

  permissions_from_lem :
      (l : List AccessGrant) (r w : Bool)
      → permissions_from user_id groups l (r, w) ≡ (
        r || any (allows user_id groups ResourcePermission.read) l,
        w || any (allows user_id groups ResourcePermission.write) l,
      )
  unfolding permissions_from
  permissions_from_lem [] r w = ground arith
  permissions_from_lem (g ∷ l) r w =
      rw (visit_grant_lem g r w, permissions_from_lem l) (ground arith)

  pub principal_permissions_lem :
      (l : List AccessGrant)
      → principal_permissions user_id groups l ≡ (
        any (allows user_id groups ResourcePermission.read) l,
        any (allows user_id groups ResourcePermission.write) l,
      )
  unfolding principal_permissions
  principal_permissions_lem l = permissions_from_lem l false false

  matches→Concerns : (g : AccessGrant) → matches user_id groups g ≡ true → Concerns user_id groups g
  matches→Concerns g h = elim (Bool-cases (g.principal_type == PrincipalType.user)) [
    | inl e ↦
        as_user ((principal_type_beq_iff _ _).0 e)
          ((eq_iff g.principal_id user_id).0 (ground arith))
    | inr e ↦
        as_member ((principal_type_beq_iff _ _).0 (ground arith))
          (contains→Memᴰ groups (ground arith))
  ]

  Concerns→matches : {g : AccessGrant} → Concerns user_id groups g → matches user_id groups g ≡ true
  Concerns→matches {g} (as_user t i) = ground (arith, eq_iff g.principal_id user_id)
  Concerns→matches {g} (as_member t m) = ground (arith, Memᴰ→contains m)

  covers→Covers : (q p : ResourcePermission) → covers q p ≡ true → Covers q p
  covers→Covers ResourcePermission.write p h = tt
  covers→Covers ResourcePermission.read ResourcePermission.read h = tt
  covers→Covers ResourcePermission.read ResourcePermission.write h = cc

  Covers→covers : (q p : ResourcePermission) → Covers q p → covers q p ≡ true
  Covers→covers ResourcePermission.write p h = refl
  Covers→covers ResourcePermission.read ResourcePermission.read h = refl
  Covers→covers ResourcePermission.read ResourcePermission.write h = absurd h

  pub allows_iff :
      (p : ResourcePermission) (l : List AccessGrant)
      → (any (allows user_id groups p) l ≡ true) ↔ HasGrant user_id groups p l
  allows_iff p l = (
    λ h.
        let (g, m, a) = any→Memᴰ (allows user_id groups p) l h in
        record {
          grant = g;
          listed = m;
          concerns = matches→Concerns g (ground arith);
          covers = covers→Covers g.permission p (ground arith);
        },
    λ h.
        Memᴰ→any (allows user_id groups p) h.listed (
          ground (arith, Concerns→matches h.concerns, Covers→covers h.grant.permission p h.covers)),
  )
