-- ===== src/Access/Shell.antt =====
-- `partial_kb_shell` of workspace_access.py: what a listing of knowledge bases may show.
use wikipedia_rag.Common.{
  String, Bool, true, List, Memᴰ, any, any→Memᴰ, Memᴰ→any, ◌≡◌, ◌⊎◌, ◌↔◌, inl, inr, Bool-cases,
  refl, arith,
}
use wikipedia_rag.Access.{
  PlatformRole, ResourcePermission, ResourceAccess, AccessDecision, resolve_access,
  partial_kb_shell,
}
use wikipedia_rag.Access.Rights.{May, Administers}
use wikipedia_rag.Access.Resolve.{
  resolve_access-May, resolve_access-Administers, resolve_access_ordered,
}

module _ (kb : ResourceAccess) (documents : List ResourceAccess) (user_id : String)
    (groups : List String) where
  abbrev direct : AccessDecision
  direct = resolve_access user_id PlatformRole.user groups kb

  abbrev sees : ResourceAccess → Bool
  sees r = (resolve_access user_id PlatformRole.user groups r).read

  -- The user may read the knowledge base or one of the documents.
  abbrev pub MayEnter : Type 0
  MayEnter =
      May user_id groups ResourcePermission.read kb
      ⊎ ((r : ResourceAccess) × Memᴰ r documents × May user_id groups ResourcePermission.read r)

  MayEnter→test : MayEnter → (direct.read ≡ true) ⊎ (any sees documents ≡ true)
  MayEnter→test (inl m) = inl ((resolve_access-May user_id groups ResourcePermission.read kb).1 m)
  MayEnter→test (inr (r, stored, m)) =
      inr (Memᴰ→any sees stored ((resolve_access-May user_id groups ResourcePermission.read r).1 m))

  test→MayEnter : (direct.read ≡ true) ⊎ (any sees documents ≡ true) → MayEnter
  test→MayEnter (inl h) = inl ((resolve_access-May user_id groups ResourcePermission.read kb).0 h)
  test→MayEnter (inr h) =
      let (r, stored, t) = any→Memᴰ sees documents h in
      inr (r, stored, (resolve_access-May user_id groups ResourcePermission.read r).0 t)

  abbrev shell : AccessDecision
  shell = partial_kb_shell kb documents user_id PlatformRole.user groups

  shell_read : (shell.read ≡ true) ↔ ((direct.read ≡ true) ⊎ (any sees documents ≡ true))
  unfolding partial_kb_shell
  shell_read = elim (Bool-cases direct.read) [
    | inl e ↦ (λ h. inl e, λ h. rw (partial_kb_shell, e) refl)
    | inr e ↦ elim (Bool-cases (any sees documents)) [
      | inl f ↦ (λ h. inr f, λ h. rw (partial_kb_shell, e, f) refl)
      | inr f ↦ (λ h. absurd (ground arith), λ h. absurd (ground arith))
    ]
  ]

  -- Where the knowledge base cannot be read, nothing else is allowed on it.
  shell_rights :
      (shell.write ≡ direct.write) × (shell.share ≡ direct.share) × (shell.delete ≡ direct.delete)
  unfolding partial_kb_shell
  shell_rights = ground (arith, resolve_access_ordered user_id PlatformRole.user groups kb)

  -- A user may enter a knowledge base through its shell exactly when the rights let them read it or one of its
  -- documents. Through the shell they may write to it, share it or delete it exactly when they may do so by
  -- their rights on the knowledge base itself: a document that they can read gives none of these.
  pub partial_kb_shell_lem :
      ((shell.read ≡ true) ↔ MayEnter)
      × ((shell.write ≡ true) ↔ May user_id groups ResourcePermission.write kb)
      × ((shell.share ≡ true) ↔ Administers user_id kb)
      × ((shell.delete ≡ true) ↔ Administers user_id kb)
  partial_kb_shell_lem =
      let (same_write, same_share, same_delete) = shell_rights in
      let (shares, deletes) = resolve_access-Administers user_id groups kb in
      (
        (λ h. test→MayEnter (shell_read.0 h), λ m. shell_read.1 (MayEnter→test m)),
        rw same_write (resolve_access-May user_id groups ResourcePermission.write kb),
        rw same_share shares,
        rw same_delete deletes,
      )
