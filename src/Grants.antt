-- ===== src/Grants.antt =====
-- workspace_grants.py: the repository of resource grants, over the tables that its SQL names.
-- A Python set of ids is a list, read by membership only. What PostgreSQL does for ORDER BY and for
-- `uuid4` is a parameter.
pub mod Rows
pub mod Decision
pub mod Batch
pub mod Insert
pub mod Replace
pub mod Visible
mod Tests
use mathlib.Core.Option
use wikipedia_rag.Common.{
  ℕ, suc, ◌+◌, String, Bool, true, false, not, ◌&&◌, ◌||◌, Option, none, some, List, [], ◌∷◌, ◌++◌,
  map, ◌≡◌, ◌==◌, string_eq, any, all, keep, is_nil, contains, if◌then◌else◌,
}
use wikipedia_rag.Common.Text.{is_empty}
use wikipedia_rag.Access.{
  PlatformRole, ResourceType, PrincipalType, ResourcePermission, AccessGrant, ResourceFields,
  ResourceAccess, standalone, within, principal_type_eq, permission_eq, normalize_grants,
  resolve_access,
}

abbrev pub resource_type_beq : ResourceType → ResourceType → Bool
resource_type_beq ResourceType.knowledge_base ResourceType.knowledge_base = true
resource_type_beq ResourceType.document ResourceType.document = true
resource_type_beq _ _ = false

-- A row of `resource_grants`.
pub record GrantRow : Type 0 where
  pub id : String
  pub resource_type : ResourceType
  pub resource_id : String
  pub principal_type : PrincipalType
  pub principal_id : String
  pub permission : ResourcePermission
  pub created_at : ℕ

pub record KnowledgeBaseRow : Type 0 where
  pub id : String
  pub owner_user_id : String

pub record DocumentRow : Type 0 where
  pub id : String
  pub knowledge_base_id : String
  pub owner_user_id : String
  pub inherits_kb_access : Bool
  pub lifecycle_state : String

-- `revision` is the one row of `workspace_authorization_state`, if there is one; `clock` is the
-- database's now(), `drawn` counts the calls of `uuid4`.
pub record Database : Type 0 where
  pub memberships : List (String × String)
  pub resource_grants : List GrantRow
  pub knowledge_bases : List KnowledgeBaseRow
  pub documents : List DocumentRow
  pub users : List String
  pub groups : List String
  pub revision : Option ℕ
  pub clock : ℕ
  pub drawn : ℕ

-- What an operation returns or raises.
pub data Outcome {ℓ} (A : Type ℓ) : Type ℓ where
  returned : A → Outcome A
  value_error : Outcome A
  unknown_principal : PrincipalType → Outcome A
  unique_violation : Outcome A

-- ORDER BY created_at, id: some rearrangement of the rows, and the ids that `uuid4` gives.
pub record Postgres : Type 0 where
  pub ordered : List GrantRow → List GrantRow
  pub any-ordered : (p : GrantRow → Bool) (l : List GrantRow) → any p (ordered l) ≡ any p l
  pub uuid4 : ℕ → String

abbrev pub row_grant : GrantRow → AccessGrant
row_grant row = record {
  principal_type = row.principal_type;
  principal_id = row.principal_id;
  permission = row.permission;
  id = some row.id;
}

abbrev pub is_on : ResourceType → String → GrantRow → Bool
is_on t id row = resource_type_beq row.resource_type t && row.resource_id == id

unfoldable pub group_ids_for_user : Database → String → List String
group_ids_for_user db user_id = map (λ m. m.1) (keep (λ m. m.0 == user_id) db.memberships)

-- `.mappings().first()` of a query by primary key
abbrev pub first_kb : List KnowledgeBaseRow → String → Option KnowledgeBaseRow
first_kb [] id = none
first_kb (row ∷ rows) id = if row.id == id then some row else first_kb rows id

abbrev pub first_document : List DocumentRow → String → Option DocumentRow
first_document [] id = none
first_document (row ∷ rows) id = if row.id == id then some row else first_document rows id

abbrev pub kb_access : KnowledgeBaseRow → List AccessGrant → ResourceAccess
kb_access row grants = standalone (record {
  resource_type = ResourceType.knowledge_base;
  resource_id = row.id;
  owner_user_id = row.owner_user_id;
  grants = grants;
  inherits_kb_access = true;
})

abbrev pub document_access : DocumentRow → List AccessGrant → ResourceAccess → ResourceAccess
document_access row grants kb =
    within
      (record {
        resource_type = ResourceType.document;
        resource_id = row.id;
        owner_user_id = row.owner_user_id;
        grants = grants;
        inherits_kb_access = row.inherits_kb_access;
      })
      kb

-- The dict of `authorized_document_ids`: rows by (resource_type, resource_id), in query order.
abbrev pub GrantsByKey : Type 0
GrantsByKey = ResourceType → String → List AccessGrant

unfoldable pub group_grants : List GrantRow → GrantsByKey → GrantsByKey
group_grants [] grants = grants
group_grants (row ∷ rows) grants =
    group_grants rows
      (λ t id. if is_on t id row then grants t id ++ row_grant row ∷ [] else grants t id)

-- `{str(row["id"]): dict(row) for row in ...}` read at a key: the last row with the id
abbrev pub last_kb : List KnowledgeBaseRow → String → Option KnowledgeBaseRow
last_kb [] id = none
last_kb (row ∷ rows) id = elim (last_kb rows id) [
  | some later ↦ some later
  | none ↦ if row.id == id then some row else none
]

module _ (pg : Postgres) where
  unfoldable pub load_grants : Database → ResourceType → String → List AccessGrant
  load_grants db t id = map row_grant (pg.ordered (keep (is_on t id) db.resource_grants))

  unfoldable pub load_knowledge_base : Database → String → Option ResourceAccess
  load_knowledge_base db kb_id =
      Option.map (λ row. kb_access row (load_grants db ResourceType.knowledge_base row.id))
        (first_kb db.knowledge_bases kb_id)

  -- The rest of `load_document`, once its row is there.
  abbrev pub document_of_row : Database → DocumentRow → Option ResourceAccess
  document_of_row db row =
      Option.map (λ kb. document_access row (load_grants db ResourceType.document row.id) kb)
        (load_knowledge_base db row.knowledge_base_id)

  unfoldable pub load_document : Database → String → Option ResourceAccess
  load_document db document_id = elim (first_document db.documents document_id) [
    | none ↦ none
    | some row ↦ document_of_row db row
  ]

  unfoldable pub authorize :
      Database → String → PlatformRole → ResourceAccess → Bool × Bool × Bool × Bool
  authorize db user_id role resource =
      let decision = resolve_access user_id role (group_ids_for_user db user_id) resource in
      (decision.read, decision.write, decision.share, decision.delete)

  module _ (db : Database) (user_id : String) (role : PlatformRole) where
    -- The decision on one document row of the batch; a row whose knowledge base is gone is skipped.
    unfoldable pub batch_allows : List KnowledgeBaseRow → GrantsByKey → DocumentRow → Bool
    batch_allows kb_rows grants row = elim (last_kb kb_rows row.knowledge_base_id) [
      | none ↦ false
      | some kb_row ↦
          let kb = kb_access kb_row (grants ResourceType.knowledge_base row.knowledge_base_id) in
          (resolve_access user_id role (group_ids_for_user db user_id)
            (document_access row (grants ResourceType.document row.id) kb)).read
    ]

    -- `authorized_document_ids`
    unfoldable pub authorized_document_ids : List String → List String
    authorized_document_ids document_ids =
        let requested = keep (λ d. not (is_empty d)) document_ids in
        let document_rows =
          keep (λ row. contains row.id requested && row.lifecycle_state == "active") db.documents in
        let kb_ids = map (λ row. row.knowledge_base_id) document_rows in
        let kb_rows = keep (λ row. contains row.id kb_ids) db.knowledge_bases in
        let grant_rows = pg.ordered (
          keep
            (λ row.
              (resource_type_beq row.resource_type ResourceType.document
                && contains row.resource_id requested)
              || (resource_type_beq row.resource_type ResourceType.knowledge_base
                  && contains row.resource_id kb_ids))
            db.resource_grants) in
        let grants = group_grants grant_rows (λ t id. []) in
        let allowed = map (λ row. row.id) (keep (batch_allows kb_rows grants) document_rows) in
        elim requested [ [] ↦ [] | _ ∷ _ ↦ elim kb_ids [ [] ↦ [] | _ ∷ _ ↦ allowed ] ]

-- The principals of one type that a payload names.
abbrev pub principals : PrincipalType → List AccessGrant → List String
principals t grants = map (λ g. g.principal_id) (keep (λ g. g.principal_type == t) grants)

-- One round of `_validate_principals`: `found != set(ids)`
unfoldable pub principals_known : List String → List String → Bool
principals_known ids table =
    let found = keep (λ i. contains i ids) table in
    is_nil ids || (all (λ i. contains i ids) found && all (λ i. contains i found) ids)

-- `none` is success.
unfoldable pub validate_principals : Database → List AccessGrant → Option PrincipalType
validate_principals db grants =
    if not (principals_known (principals PrincipalType.user grants) db.users)
    then some PrincipalType.user
    else if not (principals_known (principals PrincipalType.group grants) db.groups)
    then some PrincipalType.group
    else none

-- UNIQUE(resource_type, resource_id, principal_type, principal_id, permission)
abbrev pub same_unique_key : GrantRow → GrantRow → Bool
same_unique_key a b =
    is_on b.resource_type b.resource_id a
    && a.principal_type == b.principal_type
    && a.principal_id == b.principal_id
    && a.permission == b.permission

abbrev pub delete_grants : ResourceType → String → Database → Database
delete_grants t id db = record db {
  resource_grants = keep (λ row. not (is_on t id row)) db.resource_grants;
}

abbrev pub bump_revision : Database → Database
bump_revision db = record db { revision = Option.map (λ n. n + 1) db.revision }

module _ (pg : Postgres) where
  abbrev pub new_row : Database → ResourceType → String → AccessGrant → GrantRow
  new_row db t id grant = record {
    id = pg.uuid4 db.drawn;
    resource_type = t;
    resource_id = id;
    principal_type = grant.principal_type;
    principal_id = grant.principal_id;
    permission = grant.permission;
    created_at = db.clock;
  }

  -- The INSERT loop; `none` is a unique violation.
  unfoldable pub insert_grants :
      ResourceType → String → List AccessGrant → Database → Option Database
  insert_grants t id [] db = some db
  insert_grants t id (grant ∷ grants) db =
      let row = new_row db t id grant in
      let rest =
        insert_grants t id grants
          (record db { resource_grants = db.resource_grants ++ row ∷ []; drawn = db.drawn + 1 }) in
      if any (λ r. same_unique_key r row) db.resource_grants then none else rest

  -- `replace_grants`: the outcome, and the tables as the transaction has left them.
  unfoldable pub replace_grants :
      ResourceType → String → List AccessGrant → Database → Outcome (List AccessGrant) × Database
  replace_grants t id grants db = elim (normalize_grants grants) [
    | none ↦ (value_error, db)
    | some normalized ↦ elim (validate_principals db normalized) [
      | some principal_type ↦ (unknown_principal principal_type, db)
      | none ↦ elim (insert_grants t id normalized (delete_grants t id db)) [
        | none ↦ (unique_violation, delete_grants t id db)
        | some db' ↦ let db'' = bump_revision db' in (returned (load_grants pg db'' t id), db'')
      ]
    ]
  ]
