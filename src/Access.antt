-- ===== src/Access.antt =====
-- workspace_access.py: who may read, write, share and delete a knowledge base or a document.
pub mod Rights
pub mod Resolve
pub mod Shell
pub mod Normalize
mod Tests
use mathlib.Core.Option
use wikipedia_rag.Common.{
  String, Bool, true, false, ◌&&◌, ◌||◌, Option, none, some, List, [], ◌∷◌, ◌≡◌, ◌↔◌, KeyEq, ◌==◌,
  string_eq, contains, any, if◌then◌else◌, arith,
}
use wikipedia_rag.Common.Text.{strip, is_empty}

pub data PlatformRole : Type 0 where
  user platform_admin : PlatformRole

pub data ResourceType : Type 0 where
  knowledge_base document : ResourceType

pub data PrincipalType : Type 0 where
  user group : PrincipalType

pub data ResourcePermission : Type 0 where
  read write : ResourcePermission

abbrev pub principal_type_beq : PrincipalType → PrincipalType → Bool
principal_type_beq PrincipalType.user PrincipalType.user = true
principal_type_beq PrincipalType.group PrincipalType.group = true
principal_type_beq _ _ = false

pub principal_type_beq_iff : (a b : PrincipalType) → (principal_type_beq a b ≡ true) ↔ (a ≡ b)
principal_type_beq_iff a b = ground arith

abbrev pub permission_beq : ResourcePermission → ResourcePermission → Bool
permission_beq ResourcePermission.read ResourcePermission.read = true
permission_beq ResourcePermission.write ResourcePermission.write = true
permission_beq _ _ = false

pub permission_beq_iff : (a b : ResourcePermission) → (permission_beq a b ≡ true) ↔ (a ≡ b)
permission_beq_iff a b = ground arith

instance abbrev pub principal_type_eq : KeyEq PrincipalType
principal_type_eq = record { same = principal_type_beq; same_iff = principal_type_beq_iff }

instance abbrev pub permission_eq : KeyEq ResourcePermission
permission_eq = record { same = permission_beq; same_iff = permission_beq_iff }

pub record AccessGrant : Type 0 where
  pub principal_type : PrincipalType
  pub principal_id : String
  pub permission : ResourcePermission
  pub id : Option String

-- The fields of `ResourceAccess` but for `knowledge_base`.
pub record ResourceFields : Type 0 where
  pub resource_type : ResourceType
  pub resource_id : String
  pub owner_user_id : String
  pub grants : List AccessGrant
  pub inherits_kb_access : Bool

-- `knowledge_base` is another `ResourceAccess`, or None.
pub data ResourceAccess : Type 0 where
  standalone : ResourceFields → ResourceAccess
  within : ResourceFields → ResourceAccess → ResourceAccess

abbrev pub fields : ResourceAccess → ResourceFields
fields (standalone r) = r
fields (within r _) = r

pub record AccessDecision : Type 0 where
  pub read : Bool
  pub write : Bool
  pub share : Bool
  pub delete : Bool
  pub access_scope : Option String

-- The `match` of `_principal_permissions`.
abbrev pub matches : String → List String → AccessGrant → Bool
matches user_id group_ids grant =
    (grant.principal_type == PrincipalType.user && grant.principal_id == user_id)
    || (grant.principal_type == PrincipalType.group && contains grant.principal_id group_ids)

-- One round of the loop over the pair (read, write).
unfoldable pub visit_grant : String → List String → AccessGrant → Bool × Bool → Bool × Bool
visit_grant user_id group_ids grant (r, w) =
    if matches user_id group_ids grant
    then (if grant.permission == ResourcePermission.write
        then (true, true)
        else if grant.permission == ResourcePermission.read
        then (true, w)
        else (r, w))
    else (r, w)

unfoldable pub permissions_from :
    String → List String → List AccessGrant → Bool × Bool → Bool × Bool
permissions_from user_id group_ids [] rw_pair = rw_pair
permissions_from user_id group_ids (grant ∷ grants) rw_pair =
    permissions_from user_id group_ids grants (visit_grant user_id group_ids grant rw_pair)

unfoldable pub principal_permissions : String → List String → List AccessGrant → Bool × Bool
unfolding permissions_from visit_grant
principal_permissions user_id group_ids grants =
    permissions_from user_id group_ids grants (false, false)

-- (kb_owner, inherited_read, inherited_write)
unfoldable pub inherited : String → List String → ResourceAccess → Bool × Bool × Bool
inherited user_id groups (standalone r) = (false, false, false)
inherited user_id groups (within r kb) = elim r.resource_type [
  | ResourceType.knowledge_base ↦ (false, false, false)
  | ResourceType.document ↦
      let kb_owner = (fields kb).owner_user_id == user_id in
      let (kb_read, kb_write) = principal_permissions user_id groups (fields kb).grants in
      if r.inherits_kb_access
      then (kb_owner, kb_read || kb_owner, kb_write || kb_owner)
      else (kb_owner, false, false)
]

unfoldable pub resolve_access :
    String → PlatformRole → List String → ResourceAccess → AccessDecision
unfolding inherited
resolve_access user_id PlatformRole.platform_admin group_ids resource = record {
  read = true;
  write = true;
  share = true;
  delete = true;
  access_scope = some "full";
}
resolve_access user_id PlatformRole.user group_ids resource =
    let (direct_read, direct_write) =
      principal_permissions user_id group_ids (fields resource).grants in
    let is_owner = (fields resource).owner_user_id == user_id in
    let (kb_owner, inherited_read, inherited_write) = inherited user_id group_ids resource in
    let readable = is_owner || direct_read || inherited_read || kb_owner in
    let writable = is_owner || direct_write || inherited_write || kb_owner in
    let privileged = is_owner || kb_owner in
    record {
      read = readable;
      write = writable;
      share = privileged;
      delete = privileged;
      access_scope = if readable then some "full" else none;
    }

unfoldable pub partial_kb_shell :
    ResourceAccess → List ResourceAccess → String → PlatformRole → List String → AccessDecision
partial_kb_shell kb documents user_id platform_role group_ids =
    let direct = resolve_access user_id platform_role group_ids kb in
    if direct.read
    then direct
    else if any (λ document. (resolve_access user_id platform_role group_ids document).read)
        documents
    then record {
      read = true;
      write = false;
      share = false;
      delete = false;
      access_scope = some "partial";
    }
    else record { read = false; write = false; share = false; delete = false; access_scope = none }

-- The key of the `seen` set.
abbrev pub SeenKey : Type 0
SeenKey = PrincipalType × String × ResourcePermission

abbrev pub key_beq : SeenKey → SeenKey → Bool
key_beq (t, i, p) (t', i', p') = t == t' && i == i' && p == p'

-- The loop of `normalize_grants`; `none` is the ValueError of an empty principal_id.
unfoldable pub normalize_from : List SeenKey → List AccessGrant → Option (List AccessGrant)
normalize_from seen [] = some []
normalize_from seen (grant ∷ grants) =
    let principal_id = strip grant.principal_id in
    let key : SeenKey = (grant.principal_type, principal_id, grant.permission) in
    let skipped = normalize_from seen grants in
    let kept =
      Option.map (λ rest. record grant { principal_id = principal_id } ∷ rest)
        (normalize_from (key ∷ seen) grants) in
    if is_empty principal_id then none else if any (λ k. key_beq k key) seen then skipped else kept

unfoldable pub normalize_grants : List AccessGrant → Option (List AccessGrant)
unfolding normalize_from
normalize_grants = normalize_from []
