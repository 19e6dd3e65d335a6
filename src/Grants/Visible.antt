-- ===== src/Grants/Visible.antt =====
-- `list_visible_knowledge_bases`: every knowledge base that the actor sees, with its scope.
use wikipedia_rag.Common.{
  String, Bool, Option, none, some, List, [], ◌∷◌, ◌++◌, map, ◌==◌, string_eq, keep, if◌then◌else◌,
}
use wikipedia_rag.Access.{
  PlatformRole, ResourceType, AccessGrant, ResourceAccess, AccessDecision, partial_kb_shell,
}
use wikipedia_rag.Grants.{
  GrantRow, KnowledgeBaseRow, DocumentRow, Database, Postgres, row_grant, is_on, group_ids_for_user,
  kb_access, document_access, GrantsByKey, group_grants, resource_type_beq,
}

-- A row of the LEFT JOIN: a document, and a grant or the NULL of a document without grants.
abbrev pub Joined : Type 0
Joined = DocumentRow × Option GrantRow

-- The two orders that the queries leave to the server: ORDER BY name, id of the knowledge bases, and
-- the order of the join.
pub record Orders : Type 0 where
  pub by_name : List KnowledgeBaseRow → List KnowledgeBaseRow
  pub joined : List Joined → List Joined

abbrev join_document : List GrantRow → DocumentRow → List Joined
join_document grants row = elim (keep (is_on ResourceType.document row.id) grants) [
  | [] ↦ (row, none) ∷ []
  | g ∷ gs ↦ map (λ h. (row, some h)) (g ∷ gs)
]

unfoldable pub left_join : List DocumentRow → List GrantRow → List Joined
left_join [] grants = []
left_join (row ∷ rows) grants = join_document grants row ++ left_join rows grants

-- One entry of `pending_documents`.
pub record Pending : Type 0 where
  pub document : DocumentRow
  pub grants : List AccessGrant

abbrev grants_of : Option GrantRow → List AccessGrant
grants_of none = []
grants_of (some g) = row_grant g ∷ []

-- `setdefault` and the append, on the dict in insertion order.
unfoldable pub add_joined : List Pending → Joined → List Pending
add_joined [] (row, grant) = record { document = row; grants = grants_of grant } ∷ []
add_joined (p ∷ pending) (row, grant) =
    let rest = add_joined pending (row, grant) in
    if p.document.id == row.id
    then record p { grants = p.grants ++ grants_of grant } ∷ pending
    else p ∷ rest

unfoldable pub pending_documents : List Pending → List Joined → List Pending
unfolding add_joined
pending_documents pending [] = pending
pending_documents pending (j ∷ rows) = pending_documents (add_joined pending j) rows

pub record Visible : Type 0 where
  pub kb : ResourceAccess
  pub scope : String
  pub write : Bool
  pub share : Bool

abbrev scope_of : Option String → String
scope_of none = "full"
scope_of (some scope) = scope

-- The decision on one knowledge base.
unfoldable pub kb_decision :
    Database
    → String
    → PlatformRole
    → List Pending
    → GrantsByKey
    → KnowledgeBaseRow
    → AccessDecision
kb_decision db user_id role pending grants row =
    let kb = kb_access row (grants ResourceType.knowledge_base row.id) in
    let children = keep (λ p. p.document.knowledge_base_id == row.id) pending in
    let documents = map (λ p. document_access p.document p.grants kb) children in
    partial_kb_shell kb documents user_id role (group_ids_for_user db user_id)

unfoldable pub visible_rows :
    Database
    → String
    → PlatformRole
    → List Pending
    → GrantsByKey
    → List KnowledgeBaseRow
    → List Visible
unfolding kb_decision
visible_rows db user_id role pending grants [] = []
visible_rows db user_id role pending grants (row ∷ rows) =
    let rest = visible_rows db user_id role pending grants rows in
    let decision = kb_decision db user_id role pending grants row in
    if decision.read
    then record {
      kb = kb_access row (grants ResourceType.knowledge_base row.id);
      scope = scope_of decision.access_scope;
      write = decision.write;
      share = decision.share;
    }
      ∷ rest
    else rest

unfoldable pub list_visible_knowledge_bases :
    Postgres → Orders → Database → String → PlatformRole → List Visible
unfolding visible_rows left_join pending_documents
list_visible_knowledge_bases pg orders db user_id role =
    let on_kbs =
      keep (λ row. resource_type_beq row.resource_type ResourceType.knowledge_base)
        db.resource_grants in
    let grants = group_grants (pg.ordered on_kbs) (λ t id. []) in
    let active = keep (λ row. row.lifecycle_state == "active") db.documents in
    let pending = pending_documents [] (orders.joined (left_join active db.resource_grants)) in
    visible_rows db user_id role pending grants (orders.by_name db.knowledge_bases)
