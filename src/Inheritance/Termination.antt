-- ===== src/Inheritance/Termination.antt =====
-- The recursion of `_resolve_profile` ends.
use wikipedia_rag.Common.{
  ℕ, zero, suc, ◌≤◌, ◌<◌, String, true, false, List, [], ◌∷◌, ◌++◌, some, ◌≡◌, ◌≢◌, refl, subst,
  inl, inr, Bool-cases, Option-cases, contains, string_eq, ◌==◌, arith, eq_iff,
}
use wikipedia_rag.Json.{Value, Fields, end, field, get}
use wikipedia_rag.Retrieval.Keys.{contains-snoc}
use wikipedia_rag.Inheritance.{
  Resolution, resolved, cyclic, unknown, malformed, exhausted, inherit, missing, broken, root,
  derived, entry_of, resolve_profile, size,
}

-- The entries whose names are not on the stack.
abbrev fresh : List String → Fields → ℕ
fresh stack end = 0
fresh stack (field k v fs) = elim (contains k stack) [
  | true ↦ fresh stack fs
  | false ↦ suc (fresh stack fs)
]

fresh-size : (fs : Fields) → fresh [] fs ≡ size fs
fresh-size end = refl
fresh-size (field k v fs) = ground (arith, fresh-size fs)

fresh-snoc_le :
    (stack : List String) (name : String) (fs : Fields)
    → fresh (stack ++ name ∷ []) fs ≤ fresh stack fs
fresh-snoc_le stack name end = omega arith
fresh-snoc_le stack name (field k v fs) =
    ground (arith, contains-snoc k stack name, fresh-snoc_le stack name fs)

fresh-snoc_lt :
    (stack : List String) (name : String) (fs : Fields) {v : Value}
    → contains name stack ≡ false
    → get name fs ≡ some v
    → fresh (stack ++ name ∷ []) fs < fresh stack fs
fresh-snoc_lt stack name end h g = cc
fresh-snoc_lt stack name (field k v fs) {v = w} h g = elim (Bool-cases (name == k)) [
  | inl e ↦
      let absent = subst (λ n. contains n stack ≡ false) ((eq_iff name k).0 e) h in
      ground (arith, contains-snoc k stack name, fresh-snoc_le stack name fs)
  | inr e ↦ ground (
    arith,
    eq_iff name k,
    eq_iff k name,
    contains-snoc k stack name,
    fresh-snoc_lt stack name fs {v = w} h,
  )
]

inherit_ends : (c : Fields) (r : Resolution) → r ≢ exhausted → inherit c r ≢ exhausted
inherit_ends c (resolved f) h = ground arith
inherit_ends c exhausted h = h
inherit_ends c (cyclic f) h = h
inherit_ends c (unknown f) h = h
inherit_ends c (malformed f) h = h

module _ (str : Value → String) (profiles : Fields) where
  -- A name with an entry is a key of the catalog.
  present :
      (name : String) {c : Fields} {p : String}
      → entry_of str profiles name ≡ derived c p
      → (v : Value) × (get name profiles ≡ some v)
  unfolding entry_of
  present name h = elim (Option-cases (get name profiles)) [ inl e ↦ ground arith | inr t ↦ t ]

  -- Fuel above the number of fresh entries is enough.
  resolve_profile-fresh :
      (fuel : ℕ) (name : String) (stack : List String)
      → fresh stack profiles < fuel
      → resolve_profile str profiles fuel name stack ≢ exhausted
  unfolding resolve_profile
  resolve_profile-fresh zero name stack h = ground arith
  resolve_profile-fresh (suc fuel) name stack h = elim (Bool-cases (contains name stack)) [
    | inl e ↦ rw (resolve_profile, e) (ground arith)
    | inr e ↦
        elim (entry_of str profiles name)
            as (λ d.
              entry_of str profiles name ≡ d
              → resolve_profile str profiles (suc fuel) name stack ≢ exhausted) [
                | missing ↦ λ q. rw (resolve_profile, e, q) (ground arith)
                | broken ↦ λ q. rw (resolve_profile, e, q) (ground arith)
                | root c ↦ λ q. rw (resolve_profile, e, q) (ground arith)
                | derived c p ↦ λ q.
                    let (v, g) = present name q in
                    rw (resolve_profile, e, q)
                      (inherit_ends c (resolve_profile str profiles fuel p (stack ++ name ∷ [])) (
                        resolve_profile-fresh fuel p (stack ++ name ∷ [])
                          (omega (arith, h, fresh-snoc_lt stack name profiles e g))))
              ]
          refl
  ]

  -- The recursion of `_resolve_profile` ends for every catalog, also one with cycles: one call for each
  -- entry and one more are enough fuel.
  pub resolve_profile_terminates :
      (name : String) → resolve_profile str profiles (suc (size profiles)) name [] ≢ exhausted
  resolve_profile_terminates name =
      resolve_profile-fresh (suc (size profiles)) name [] (omega (arith, fresh-size profiles))
