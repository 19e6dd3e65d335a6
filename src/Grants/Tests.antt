-- ===== src/Grants/Tests.antt =====
-- A small database, and the theorems of the repository at it.
use mathlib.Core.Option
use wikipedia_rag.Common.{
  ◌+◌, String, Bool, true, false, not, ◌&&◌, none, some, List, [], ◌∷◌, map, ◌≡◌, ◌≢◌, ◌⊎◌, inl,
  refl, contains, string_eq,
}
use wikipedia_rag.Common.Text.{strip, is_empty}
use wikipedia_rag.Access.{
  PlatformRole, ResourceType, PrincipalType, ResourcePermission, AccessGrant, normalize_grants,
  principal_permissions, permissions_from, visit_grant, resolve_access, inherited, partial_kb_shell,
}
use wikipedia_rag.Access.Normalize.{stripped}
use wikipedia_rag.Grants.{
  GrantRow, DocumentRow, Database, Postgres, returned, value_error, unknown_principal, load_grants,
  load_knowledge_base, load_document, group_ids_for_user, group_grants, batch_allows,
  authorized_document_ids, principals_known, validate_principals, insert_grants, replace_grants,
}
use wikipedia_rag.Grants.Batch
use wikipedia_rag.Grants.Batch.{readable_document}
use wikipedia_rag.Grants.Replace
use wikipedia_rag.Grants.Visible.{
  Orders, add_joined, left_join, pending_documents, kb_decision, visible_rows,
  list_visible_knowledge_bases,
}
use wikipedia_rag.Grants.Insert.{replaced}

program : Unit {0}
unfolding add_joined left_join pending_documents kb_decision visible_rows
    list_visible_knowledge_bases inherited partial_kb_shell resolve_access principal_permissions
    permissions_from visit_grant normalize_grants strip load_grants load_knowledge_base
    load_document group_ids_for_user group_grants batch_allows authorized_document_ids
    principals_known validate_principals insert_grants replace_grants
program = tt

-- A query plan that returns the rows as they stand.
abbrev in_place : Postgres
in_place = record { ordered = λ l. l; any-ordered = λ p l. refl; uuid4 = λ n. "uuid" }

abbrev old_grant : GrantRow
old_grant = record {
  id = "g1";
  resource_type = ResourceType.document;
  resource_id = "d1";
  principal_type = PrincipalType.user;
  principal_id = "bob";
  permission = ResourcePermission.read;
  created_at = 1;
}

abbrev kb_grant : GrantRow
kb_grant = record old_grant {
  id = "g2";
  resource_type = ResourceType.knowledge_base;
  resource_id = "kb";
  principal_type = PrincipalType.group;
  principal_id = "team";
}

abbrev document : String → String → Bool → DocumentRow
document id state inherits = record {
  id = id;
  knowledge_base_id = "kb";
  owner_user_id = "alice";
  inherits_kb_access = inherits;
  lifecycle_state = state;
}

abbrev db : Database
db = record {
  memberships = ("carol", "team") ∷ [];
  resource_grants = old_grant ∷ kb_grant ∷ [];
  knowledge_bases = record { id = "kb"; owner_user_id = "alice" } ∷ [];
  documents =
      document "d1" "active" false
      ∷ document "d2" "active" true
      ∷ document "d3" "deleting" true
      ∷ [];
  users = "alice" ∷ "bob" ∷ "carol" ∷ [];
  groups = "team" ∷ [];
  revision = some 4;
  clock = 10;
  drawn = 0;
}

abbrev orders : Orders
orders = record { by_name = λ l. l; joined = λ l. l }

-- A reader of one document sees the shell of its knowledge base, a member of the team all of it, and a
-- stranger nothing.
visible_scopes :
    (map (λ v. v.scope) (list_visible_knowledge_bases in_place orders db "bob" PlatformRole.user)
      ≡ "partial" ∷ [])
    × (map
          (λ v. v.scope)
          (list_visible_knowledge_bases in_place orders db "carol" PlatformRole.user)
        ≡ "full" ∷ [])
    × (map (λ v. v.scope) (list_visible_knowledge_bases in_place orders db "eve" PlatformRole.user)
        ≡ [])
unfolding program
visible_scopes = (refl, refl, refl)

-- Of the four ids the team member reads the inheriting active document alone.
authorized_for_team :
    authorized_document_ids in_place db "carol" PlatformRole.user ("d1" ∷ "d2" ∷ "d3" ∷ "" ∷ [])
    ≡ "d2" ∷ []
unfolding program
authorized_for_team = refl

authorized_document_ids-readable_example :
    contains {A = String} "d2"
      (authorized_document_ids in_place db "carol" PlatformRole.user ("d1" ∷ "d2" ∷ []))
    ≡ (contains {A = String} "d2" ("d1" ∷ "d2" ∷ [])
        && not (is_empty "d2")
        && readable_document in_place db "carol" PlatformRole.user "d2")
authorized_document_ids-readable_example =
    Batch.authorized_document_ids-readable in_place db "carol" PlatformRole.user ("d1" ∷ "d2" ∷ [])
      "d2" (refl, tt) (refl, (refl, (refl, tt)))

abbrev payload : List AccessGrant
payload =
    record {
      principal_type = PrincipalType.user;
      principal_id = " carol ";
      permission = ResourcePermission.write;
      id = none;
    }
    ∷ []

replace_grants_atomic_example :
    (normalize_grants payload ≡ none)
      × (replace_grants in_place ResourceType.document "d1" payload db ≡ (value_error, db))
    ⊎ ((normalized : List AccessGrant) × (normalize_grants payload ≡ some normalized)
        × (((p : PrincipalType) × (validate_principals db normalized ≡ some p)
              × (replace_grants in_place ResourceType.document "d1" payload db
                  ≡ (unknown_principal p, db)))
            ⊎ ((validate_principals db normalized ≡ none)
                × (replace_grants in_place ResourceType.document "d1" payload db ≡ (
                    let db' = replaced in_place ResourceType.document "d1" normalized db in
                    (returned (load_grants in_place db' ResourceType.document "d1"), db'))))))
replace_grants_atomic_example =
    Replace.replace_grants_atomic in_place ResourceType.document "d1" db payload

abbrev normal : List AccessGrant
normal = map stripped payload

abbrev after : Database
after = record db {
  resource_grants =
      kb_grant
      ∷ record {
        id = "uuid";
        resource_type = ResourceType.document;
        resource_id = "d1";
        principal_type = PrincipalType.user;
        principal_id = "carol";
        permission = ResourcePermission.write;
        created_at = 10;
      }
      ∷ [];
  revision = some 5;
  drawn = 1;
}

abbrev reply : List AccessGrant
reply =
    record {
      principal_type = PrincipalType.user;
      principal_id = "carol";
      permission = ResourcePermission.write;
      id = some "uuid";
    }
    ∷ []

replace_grants-payload :
    replace_grants in_place ResourceType.document "d1" payload db ≡ (returned reply, after)
unfolding program
replace_grants-payload = refl

replace_grants-permissions_example :
    (principal_permissions "bob" [] (load_grants in_place after ResourceType.document "d1")
      ≡ principal_permissions "bob" [] (map stripped payload))
    × (reply ≡ load_grants in_place after ResourceType.document "d1")
    × (after.revision ≡ Option.map (λ n. n + 1) db.revision)
replace_grants-permissions_example =
    Replace.replace_grants-permissions in_place ResourceType.document "d1" db payload reply after
      "bob" [] replace_grants-payload

document-ne-kb : ResourceType.knowledge_base ≢ ResourceType.document
document-ne-kb = λ e. cc

replace_grants-elsewhere_example :
    let db' = (replace_grants in_place ResourceType.document "d1" payload db).1 in
    (load_grants in_place db' ResourceType.knowledge_base "kb"
      ≡ load_grants in_place db ResourceType.knowledge_base "kb")
    × (db'.knowledge_bases ≡ db.knowledge_bases)
    × (db'.documents ≡ db.documents)
    × (db'.memberships ≡ db.memberships)
replace_grants-elsewhere_example =
    Replace.replace_grants-elsewhere in_place ResourceType.document "d1" db
      ResourceType.knowledge_base "kb" (inl document-ne-kb) payload
