-- ===== src/Access/Tests.antt =====
-- Small resources and payloads, what the policy does on them, and the theorems at them.
use wikipedia_rag.Common.{String, Bool, true, false, none, some, List, [], ◌∷◌, map, ◌≡◌, ◌↔◌, refl}
use wikipedia_rag.Common.Text.{strip}
use wikipedia_rag.Access.{
  PlatformRole, ResourceType, PrincipalType, ResourcePermission, AccessGrant, ResourceFields,
  ResourceAccess, standalone, within, principal_permissions, permissions_from, visit_grant,
  resolve_access, partial_kb_shell, normalize_grants,
}
use wikipedia_rag.Access.Rights.{Administers, May}
use wikipedia_rag.Access.Shell
use wikipedia_rag.Access.Shell.{MayEnter}
use wikipedia_rag.Access.Resolve
use wikipedia_rag.Access.Resolve.{permitted}
use wikipedia_rag.Access.Normalize
use wikipedia_rag.Access.Normalize.{Distinct, Clean, stripped}

program : Unit {0}
unfolding resolve_access principal_permissions permissions_from visit_grant partial_kb_shell
    normalize_grants strip
program = tt

abbrev grant_to : PrincipalType → String → ResourcePermission → AccessGrant
grant_to t i p = record { principal_type = t; principal_id = i; permission = p; id = none }

abbrev team_write : AccessGrant
team_write = grant_to PrincipalType.group "team" ResourcePermission.write

abbrev bob_read : AccessGrant
bob_read = grant_to PrincipalType.user "bob" ResourcePermission.read

abbrev shared_kb : ResourceFields
shared_kb = record {
  resource_type = ResourceType.knowledge_base;
  resource_id = "kb";
  owner_user_id = "alice";
  grants = team_write ∷ [];
  inherits_kb_access = true;
}

abbrev note : Bool → ResourceFields
note inherits = record {
  resource_type = ResourceType.document;
  resource_id = "note";
  owner_user_id = "bob";
  grants = [];
  inherits_kb_access = inherits;
}

abbrev open_note : ResourceAccess
open_note = within (note true) (standalone shared_kb)

abbrev private_note : ResourceAccess
private_note = within (note false) (standalone shared_kb)

-- A member of the team writes the inheriting note and does not see the private one; the owner of the
-- knowledge base administers both.
decisions :
    (resolve_access "carol" PlatformRole.user ("team" ∷ []) open_note ≡ record {
      read = true;
      write = true;
      share = false;
      delete = false;
      access_scope = some "full";
    })
    × (resolve_access "carol" PlatformRole.user ("team" ∷ []) private_note ≡ record {
      read = false;
      write = false;
      share = false;
      delete = false;
      access_scope = none;
    })
    × ((resolve_access "alice" PlatformRole.user [] private_note).delete ≡ true)
unfolding program
decisions = (refl, refl, refl)

resolve_access-May_example :
    (permitted ResourcePermission.write
        (resolve_access "carol" PlatformRole.user ("team" ∷ []) open_note)
      ≡ true)
    ↔ May "carol" ("team" ∷ []) ResourcePermission.write open_note
resolve_access-May_example =
    Resolve.resolve_access-May "carol" ("team" ∷ []) ResourcePermission.write open_note

abbrev closed_kb : ResourceFields
closed_kb = record shared_kb { grants = [] }

-- Bob may not read the knowledge base, but a document in it.
partial_kb_shell_lem_example :
    let shell =
      partial_kb_shell (standalone closed_kb) (private_note ∷ []) "bob" PlatformRole.user [] in
    ((shell.read ≡ true) ↔ MayEnter (standalone closed_kb) (private_note ∷ []) "bob" [])
    × ((shell.write ≡ true) ↔ May "bob" [] ResourcePermission.write (standalone closed_kb))
    × ((shell.share ≡ true) ↔ Administers "bob" (standalone closed_kb))
    × ((shell.delete ≡ true) ↔ Administers "bob" (standalone closed_kb))
partial_kb_shell_lem_example =
    Shell.partial_kb_shell_lem (standalone closed_kb) (private_note ∷ []) "bob" []

abbrev payload : List AccessGrant
payload = grant_to PrincipalType.user " bob " ResourcePermission.read ∷ team_write ∷ bob_read ∷ []

abbrev normal : List AccessGrant
normal = bob_read ∷ team_write ∷ []

normalize_grants-payload : normalize_grants payload ≡ some normal
unfolding program
normalize_grants-payload = refl

normalize_grants-permissions_example :
    principal_permissions "bob" ("team" ∷ []) normal
    ≡ principal_permissions "bob" ("team" ∷ []) (map stripped payload)
normalize_grants-permissions_example =
    Normalize.normalize_grants-permissions "bob" ("team" ∷ []) payload normal
      normalize_grants-payload
