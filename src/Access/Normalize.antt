-- ===== src/Access/Normalize.antt =====
-- `normalize_grants` of workspace_access.py: the replacement payload without duplicates.
use wikipedia_rag.Common.{
  String, Bool, true, false, ◌||◌, none, some, List, [], ◌∷◌, map, ◌≡◌, ◌↔◌, ◌⊎◌, inl, inr, refl,
  ap, string_eq, any, any-or, Bool-cases, Option-cases, eq_iff, arith,
}
use wikipedia_rag.Common.Text.{strip, is_empty, strip-strip}
use wikipedia_rag.Access.{
  AccessGrant, ResourcePermission, SeenKey, key_beq, normalize_from, normalize_grants,
  principal_permissions,
}
use wikipedia_rag.Access.Rights.{allows, principal_permissions_lem}

abbrev pub grant_key : AccessGrant → SeenKey
grant_key g = (g.principal_type, g.principal_id, g.permission)

abbrev pub stripped : AccessGrant → AccessGrant
stripped g = record g { principal_id = strip g.principal_id }

abbrev seen_in : SeenKey → List SeenKey → Bool
seen_in key seen = any (λ k. key_beq k key) seen

-- No later grant repeats the key of an earlier one.
abbrev pub Distinct : List AccessGrant → Type 0
Distinct [] = Unit
Distinct (g ∷ l) = (any (λ h. key_beq (grant_key g) (grant_key h)) l ≡ false) × Distinct l

-- Every principal_id is stripped and not empty.
abbrev pub Clean : List AccessGrant → Type 0
Clean [] = Unit
Clean (g ∷ l) =
    (strip g.principal_id ≡ g.principal_id) × (is_empty g.principal_id ≡ false) × Clean l

key_beq_iff : (a b : SeenKey) → (key_beq a b ≡ true) ↔ (a ≡ b)
key_beq_iff (t, i, p) (t', i', p') = ground (arith, eq_iff i i')

normalize_from-cons :
    (seen : List SeenKey) (g : AccessGrant) (l r : List AccessGrant)
    → normalize_from seen (g ∷ l) ≡ some r
    → (is_empty (strip g.principal_id) ≡ false)
      × ((seen_in (grant_key (stripped g)) seen ≡ true) × (normalize_from seen l ≡ some r)
          ⊎ ((rest : List AccessGrant) × (seen_in (grant_key (stripped g)) seen ≡ false)
              × (normalize_from (grant_key (stripped g) ∷ seen) l ≡ some rest)
              × (r ≡ stripped g ∷ rest)))
unfolding normalize_from
normalize_from-cons seen g l r h = elim (Bool-cases (is_empty (strip g.principal_id))) [
  | inl empty ↦ absurd (ground arith)
  | inr full ↦ elim (Bool-cases (seen_in (grant_key (stripped g)) seen)) [
    | inl old ↦ (full, inl (old, ground arith))
    | inr new ↦ elim (Option-cases (normalize_from (grant_key (stripped g) ∷ seen) l)) [
      | inl raised ↦ absurd (ground arith)
      | inr (rest, e) ↦ (full, inr (rest, new, e, ground arith))
    ]
  ]
]

normalize_from-none :
    (seen : List SeenKey) (l : List AccessGrant)
    → normalize_from seen l ≡ none
    → any (λ g. is_empty (strip g.principal_id)) l ≡ true
unfolding normalize_from
normalize_from-none seen [] h = cc
normalize_from-none seen (g ∷ l) h =
    ground
      (arith, normalize_from-none seen l, normalize_from-none (grant_key (stripped g) ∷ seen) l)

none-normalize_from :
    (seen : List SeenKey) (l : List AccessGrant)
    → any (λ g. is_empty (strip g.principal_id)) l ≡ true
    → normalize_from seen l ≡ none
unfolding normalize_from
none-normalize_from seen [] h = cc
none-normalize_from seen (g ∷ l) h =
    ground
      (arith, none-normalize_from seen l, none-normalize_from (grant_key (stripped g) ∷ seen) l)

-- `normalize_grants` raises exactly when some principal_id is empty once it is stripped.
pub normalize_grants-none_iff :
    (l : List AccessGrant)
    → (normalize_grants l ≡ none) ↔ (any (λ g. is_empty (strip g.principal_id)) l ≡ true)
unfolding normalize_grants
normalize_grants-none_iff l = (normalize_from-none [] l, none-normalize_from [] l)

-- A key that was seen adds nothing.
seen-absorbs :
    (f : SeenKey → Bool) (key : SeenKey) (seen : List SeenKey)
    → seen_in key seen ≡ true
    → (f key || any f seen) ≡ any f seen
seen-absorbs f key [] h = cc
seen-absorbs f key (k ∷ seen) h =
    ground
      (arith, seen-absorbs f key seen, λ (e : key_beq k key ≡ true). ap f ((key_beq_iff k key).0 e))

-- A test of keys finds the same among the result and the seen keys as among the payload and those.
any-normalize_from :
    (f : SeenKey → Bool) (seen : List SeenKey) (l r : List AccessGrant)
    → normalize_from seen l ≡ some r
    → (any (λ g. f (grant_key g)) r || any f seen)
      ≡ (any (λ g. f (grant_key (stripped g))) l || any f seen)
unfolding normalize_from
any-normalize_from f seen [] r h = ground arith
any-normalize_from f seen (g ∷ l) r h = elim (normalize_from-cons seen g l r h).1 [
  | inl (old, e) ↦
      ground
        (arith, seen-absorbs f (grant_key (stripped g)) seen old, any-normalize_from f seen l r e)
  | inr (rest, _, e, q) ↦
      rw q (ground (arith, any-normalize_from f (grant_key (stripped g) ∷ seen) l rest e))
]

allows_key : String → List String → ResourcePermission → SeenKey → Bool
allows_key u gs p (t, i, q) =
    allows u gs p (record { principal_type = t; principal_id = i; permission = q; id = none })

any-stripped :
    (f : AccessGrant → Bool) (l : List AccessGrant)
    → any (λ g. f (stripped g)) l ≡ any f (map stripped l)
any-stripped f [] = refl
any-stripped f (g ∷ l) = ground (arith, any-stripped f l)

-- Removing duplicates weakens no grant: whatever the user and groups, a normalized payload gives
-- the READ and the WRITE that the payload gives, its identifiers stripped.
pub normalize_grants-permissions :
    (user_id : String) (groups : List String) (l r : List AccessGrant)
    → normalize_grants l ≡ some r
    → principal_permissions user_id groups r ≡ principal_permissions user_id groups (map stripped l)
unfolding normalize_grants allows_key
normalize_grants-permissions u gs l r h =
    rw (principal_permissions_lem u gs r, principal_permissions_lem u gs (map stripped l))
      (ground (
        arith,
        any-normalize_from (allows_key u gs ResourcePermission.read) [] l r h,
        any-normalize_from (allows_key u gs ResourcePermission.write) [] l r h,
        any-stripped (allows u gs ResourcePermission.read) l,
        any-stripped (allows u gs ResourcePermission.write) l,
      ))

normalize_from-Distinct :
    (seen : List SeenKey) (l r : List AccessGrant)
    → normalize_from seen l ≡ some r
    → Distinct r × Clean r × (any (λ g. seen_in (grant_key g) seen) r ≡ false)
unfolding normalize_from
normalize_from-Distinct seen [] r h = let e : r ≡ [] = ground arith in rw e (tt, tt, refl)
normalize_from-Distinct seen (g ∷ l) r h =
    let (full, split) = normalize_from-cons seen g l r h in
    elim split [
      | inl (old, e) ↦ normalize_from-Distinct seen l r e
      | inr (rest, new, e, q) ↦
          let key = grant_key (stripped g) in
          let (distinct, clean, fresh) = normalize_from-Distinct (key ∷ seen) l rest e in
          let split_fresh =
            any-or (λ h. key_beq key (grant_key h)) (λ h. seen_in (grant_key h) seen) rest in
          rw q ((ground arith, distinct), (strip-strip g.principal_id, full, clean), ground arith)
    ]

-- A normalized payload has no two grants with one key, and its identifiers are stripped and not
-- empty.
pub normalize_grants-Distinct :
    (l r : List AccessGrant) → normalize_grants l ≡ some r → Distinct r × Clean r
unfolding normalize_grants
normalize_grants-Distinct l r h =
    let (distinct, clean, _) = normalize_from-Distinct [] l r h in (distinct, clean)

normalize_from_fixed :
    (seen : List SeenKey) (l : List AccessGrant)
    → Distinct l
    → Clean l
    → any (λ g. seen_in (grant_key g) seen) l ≡ false
    → normalize_from seen l ≡ some l
unfolding normalize_from
normalize_from_fixed seen [] d c f = refl
normalize_from_fixed seen (g ∷ l) d c f =
    let split_fresh =
      any-or (λ h. key_beq (grant_key g) (grant_key h)) (λ h. seen_in (grant_key h) seen) l in
    rw c.0 (ground (arith, c.1, normalize_from_fixed (grant_key g ∷ seen) l d.1 c.2))

-- To normalize a normalized payload changes nothing.
pub normalize_grants_idempotent :
    (l r : List AccessGrant) → normalize_grants l ≡ some r → normalize_grants r ≡ some r
unfolding normalize_grants
normalize_grants_idempotent l r h =
    let (distinct, clean, fresh) = normalize_from-Distinct [] l r h in
    normalize_from_fixed [] r distinct clean fresh
