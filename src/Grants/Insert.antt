-- ===== src/Grants/Insert.antt =====
-- The DELETE and the INSERT loop of `replace_grants`: on a normalized payload no row clashes.
use mathlib.Core.Option
use mathlib.Core.List.{append-nil, append_assoc}
use wikipedia_rag.Common.{
  ℕ, ◌+◌, String, Bool, true, false, not, ◌&&◌, ◌||◌, some, List, [], ◌∷◌, ◌++◌, ◌≡◌, ◌↔◌, refl,
  sym, ap, ap₂, ◌∙◌, ◌==◌, string_eq, any, any-append, any-or, any_cong, keep, length, eq_iff,
  arith,
}
use wikipedia_rag.Access.{ResourceType, AccessGrant, principal_type_eq, permission_eq, key_beq}
use wikipedia_rag.Access.Normalize.{grant_key, Distinct}
use wikipedia_rag.Grants.{
  GrantRow, Database, Postgres, is_on, resource_type_beq, new_row, insert_grants, delete_grants,
  bump_revision,
}

pub resource_type_beq_iff : (a b : ResourceType) → (resource_type_beq a b ≡ true) ↔ (a ≡ b)
resource_type_beq_iff a b = ground arith

pub resource_type_beq_refl : (t : ResourceType) → resource_type_beq t t ≡ true
resource_type_beq_refl t = ground arith

any-false {ℓ} : {A : Type ℓ} (l : List A) → any (λ x. false) l ≡ false
any-false [] = refl
any-false (x ∷ l) = any-false l

module _ (pg : Postgres) (t : ResourceType) (id : String) where
  -- The rows that the INSERT loop adds, from the `n`-th uuid on.
  unfoldable pub new_rows : ℕ → ℕ → List AccessGrant → List GrantRow
  new_rows n clock [] = []
  new_rows n clock (g ∷ l) =
      record {
        id = pg.uuid4 n;
        resource_type = t;
        resource_id = id;
        principal_type = g.principal_type;
        principal_id = g.principal_id;
        permission = g.permission;
        created_at = clock;
      }
      ∷ new_rows (n + 1) clock l

  -- A row that would violate the UNIQUE constraint beside a row for the grant.
  abbrev pub clashes : AccessGrant → GrantRow → Bool
  clashes g r =
      is_on t id r
      && r.principal_type == g.principal_type
      && r.principal_id == g.principal_id
      && r.permission == g.permission

  -- The row of one grant stands in the way of those with the same key only.
  clashes-row :
      (g h : AccessGrant) (n clock : ℕ)
      → any (clashes h) (new_rows n clock (g ∷ [])) ≡ key_beq (grant_key g) (grant_key h)
  unfolding new_rows
  clashes-row g h n clock = ground (arith, resource_type_beq_refl t, eq_iff id id)

  no_clash-snoc :
      (g : AccessGrant) (l : List AccessGrant) (rows : List GrantRow) (n clock : ℕ)
      → Distinct (g ∷ l)
      → any (λ h. any (clashes h) rows) l ≡ false
      → any (λ h. any (clashes h) (rows ++ new_rows n clock (g ∷ []))) l ≡ false
  no_clash-snoc g l rows n clock d f =
      any_cong _ _ l (λ h.
        any-append (clashes h) rows _
        ∙ ap (λ b. any (clashes h) rows || b) (clashes-row g h n clock))
      ∙ any-or (λ h. any (clashes h) rows) (λ h. key_beq (grant_key g) (grant_key h)) l
      ∙ ground arith

  -- With no two equal keys, and none of them in the table, every INSERT succeeds.
  insert_grants_lem :
      (l : List AccessGrant) (db : Database)
      → Distinct l
      → any (λ g. any (clashes g) db.resource_grants) l ≡ false
      → insert_grants pg t id l db
        ≡ some (record db {
          resource_grants = db.resource_grants ++ new_rows db.drawn db.clock l;
          drawn = db.drawn + length l;
        })
  unfolding insert_grants new_rows
  insert_grants_lem [] db d f =
      ap₂ (λ rows n. some (record db { resource_grants = rows; drawn = n }))
        (sym (append-nil db.resource_grants)) (omega arith)
  insert_grants_lem (g ∷ l) db d f =
      let row = new_row pg db t id g in
      let clear : any (clashes g) db.resource_grants ≡ false = ground arith in
      let others : any (λ h. any (clashes h) db.resource_grants) l ≡ false = ground arith in
      let later = no_clash-snoc g l db.resource_grants db.drawn db.clock d others in
      rw clear (
        insert_grants_lem l _ d.1 later
        ∙ ap₂ (λ rows n. some (record db { resource_grants = rows; drawn = n }))
            (append_assoc db.resource_grants (row ∷ []) _) (omega arith))

  pub deleted-no_clash :
      (g : AccessGrant) (rows : List GrantRow)
      → any (clashes g) (keep (λ row. not (is_on t id row)) rows) ≡ false
  deleted-no_clash g [] = refl
  deleted-no_clash g (r ∷ rows) = ground (arith, deleted-no_clash g rows)

  -- The tables after a successful replacement by a normalized payload.
  unfoldable pub replaced : List AccessGrant → Database → Database
  replaced l db = record db {
    resource_grants =
        keep (λ row. not (is_on t id row)) db.resource_grants ++ new_rows db.drawn db.clock l;
    drawn = db.drawn + length l;
    revision = Option.map (λ n. n + 1) db.revision;
  }

  pub insert_grants-deleted :
      (l : List AccessGrant) (db : Database)
      → Distinct l
      → Option.map bump_revision (insert_grants pg t id l (delete_grants t id db))
        ≡ some (replaced l db)
  unfolding replaced
  insert_grants-deleted l db d = ap (Option.map bump_revision) (
      insert_grants_lem l (delete_grants t id db) d
        (any_cong _ (λ g. false) l (λ g. deleted-no_clash g db.resource_grants) ∙ any-false l))
