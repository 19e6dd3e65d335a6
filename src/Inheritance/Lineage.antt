-- ===== src/Inheritance/Lineage.antt =====
-- The chain of parents of a profile, and the profile it stands for.
use wikipedia_rag.Common.{
  ℕ, zero, suc, ◌<◌, String, true, false, List, [], ◌∷◌, ◌++◌, ◌≡◌, ◌↔◌, ◌⊎◌, refl, ap, subst, sym,
  ◌∙◌, inl, inr, Bool-cases, contains, string_eq, arith, eq_iff,
}
use wikipedia_rag.Retrieval.Keys.{contains-snoc}
use wikipedia_rag.Json.{Value, Fields, deep_merge}
use wikipedia_rag.Inheritance.{
  Resolution, resolved, cyclic, unknown, malformed, exhausted, inherit, missing, broken, root,
  derived, entry_of, resolve_profile, size,
}
use wikipedia_rag.Inheritance.Termination.{resolve_profile_terminates}

parent_same : {c d : Fields} {p q : String} → derived c p ≡ derived d q → p ≡ q
parent_same h = ground arith

root_same : {c d : Fields} → resolved c ≡ resolved d → c ≡ d
root_same h = ground arith

inherit→resolved :
    (c : Fields) (r : Resolution) {fs : Fields}
    → inherit c r ≡ resolved fs
    → (f : Fields) × (r ≡ resolved f) × (deep_merge f c ≡ fs)
inherit→resolved c (resolved f) h = (f, refl, root_same h)
inherit→resolved c (cyclic n) h = ground arith
inherit→resolved c (unknown n) h = ground arith
inherit→resolved c (malformed n) h = ground arith
inherit→resolved c exhausted h = ground arith

module _ (str : Value → String) (profiles : Fields) where
  -- `name` has a chain of `n` parents up to a root, whose settings, merged downwards, are `fs`.
  pub data Lineage : String → ℕ → Fields → Type 0 where
    at_root :
        {name : String} {c : Fields} → entry_of str profiles name ≡ root c → Lineage name zero c
    below :
        {name p : String} {c fs : Fields} {n : ℕ}
        → entry_of str profiles name ≡ derived c p
        → Lineage p n fs
        → Lineage name (suc n) (deep_merge fs c)

  -- A profile has one chain.
  Lineage-length :
      {name : String} {n m : ℕ} {fs gs : Fields} → Lineage name n fs → Lineage name m gs → n ≡ m
  Lineage-length (at_root e) (at_root d) = refl
  Lineage-length (at_root e) (below d l) = ground arith
  Lineage-length (below e l) (at_root d) = ground arith
  Lineage-length (below {p} {n} e l) (below {p = q} {fs = gs} {n = m} d k) =
      ap suc (Lineage-length l (subst (λ r. Lineage r m gs) (parent_same (sym d ∙ e)) k))

  resolve_profile-root :
      (fuel : ℕ) (name : String) (stack : List String) {c : Fields}
      → contains name stack ≡ false
      → entry_of str profiles name ≡ root c
      → resolve_profile str profiles (suc fuel) name stack ≡ resolved c
  unfolding resolve_profile
  resolve_profile-root fuel name stack e q = rw (resolve_profile, e, q) refl

  resolve_profile-derived :
      (fuel : ℕ) (name : String) (stack : List String) {c : Fields} {p : String}
      → contains name stack ≡ false
      → entry_of str profiles name ≡ derived c p
      → resolve_profile str profiles (suc fuel) name stack
        ≡ inherit c (resolve_profile str profiles fuel p (stack ++ name ∷ []))
  unfolding resolve_profile
  resolve_profile-derived fuel name stack e q = rw (resolve_profile, e, q) refl

  sound :
      (fuel : ℕ) (name : String) (stack : List String) {fs : Fields}
      → resolve_profile str profiles fuel name stack ≡ resolved fs
      → (n : ℕ) × Lineage name n fs
  unfolding resolve_profile
  sound zero name stack h = ground arith
  sound (suc fuel) name stack {fs} h = elim (Bool-cases (contains name stack)) [
    | inl e ↦ ground arith
    | inr e ↦
        elim (entry_of str profiles name)
            as (λ d. entry_of str profiles name ≡ d → (n : ℕ) × Lineage name n fs) [
              | missing ↦ λ q. ground arith
              | broken ↦ λ q. ground arith
              | root c ↦ λ q.
                  subst (λ f. (n : ℕ) × Lineage name n f)
                    (root_same (sym (resolve_profile-root fuel name stack e q) ∙ h)) (0, at_root q)
              | derived c p ↦ λ q.
                  let (f, r, m) =
                    inherit→resolved c (resolve_profile str profiles fuel p (stack ++ name ∷ []))
                      (sym (resolve_profile-derived fuel name stack e q) ∙ h) in
                  let (n, l) = sound fuel p (stack ++ name ∷ []) r in
                  subst (λ g. (n : ℕ) × Lineage name n g) m (suc n, below q l)
            ]
          refl
  ]

  -- Every name on the stack has a longer chain than the name in hand.
  abbrev Longer : ℕ → List String → Type 0
  Longer n stack =
      (s : String) → contains s stack ≡ true → (m : ℕ) × (gs : Fields) × (n < m) × Lineage s m gs

  Longer-snoc :
      {name : String} {fs : Fields} {n : ℕ} (stack : List String)
      → Longer (suc n) stack
      → Lineage name (suc n) fs
      → Longer n (stack ++ name ∷ [])
  Longer-snoc {name} {fs} {n} stack t l s h = elim (Bool-cases (contains s stack)) [
    | inl e ↦ let (m, gs, lt, k) = t s e in (m, gs, omega (arith, lt), k)
    | inr e ↦
        let same = (eq_iff name s).0 (ground (arith, contains-snoc s stack name)) in
        (suc n, fs, omega arith, subst (λ i. Lineage i (suc n) fs) same l)
  ]

  off_stack :
      {name : String} {n : ℕ} {fs : Fields} (stack : List String)
      → Lineage name n fs
      → Longer n stack
      → contains name stack ≡ false
  off_stack {name} stack l t = elim (Bool-cases (contains name stack)) [
    | inl e ↦ let (m, gs, lt, k) = t name e in ground (arith, lt, Lineage-length l k)
    | inr e ↦ e
  ]

  complete :
      (fuel : ℕ) (name : String) (stack : List String) {n : ℕ} {fs : Fields}
      → Lineage name n fs
      → Longer n stack
      → (resolve_profile str profiles fuel name stack ≡ resolved fs)
        ⊎ (resolve_profile str profiles fuel name stack ≡ exhausted)
  unfolding resolve_profile
  complete zero name stack l t = inr refl
  complete (suc fuel) name stack (at_root q) t =
      inl (resolve_profile-root fuel name stack (off_stack stack (at_root q) t) q)
  complete (suc fuel) name stack (below {p} {c} q k) t =
      let first = resolve_profile-derived fuel name stack (off_stack stack (below q k) t) q in
      elim (complete fuel p (stack ++ name ∷ []) k (Longer-snoc stack t (below q k))) [
        | inl e ↦ inl (first ∙ ap (inherit c) e)
        | inr e ↦ inr (first ∙ ap (inherit c) e)
      ]

  -- `_resolve_profile` returns settings just when the profile has a chain of known parents up to a root, and
  -- then those of the root with each profile of the chain merged on top, the nearest last.
  pub resolve_profile-resolved_iff :
      (name : String) (fs : Fields)
      → (resolve_profile str profiles (suc (size profiles)) name [] ≡ resolved fs)
        ↔ ((n : ℕ) × Lineage name n fs)
  resolve_profile-resolved_iff name fs = (
    sound (suc (size profiles)) name [],
    λ (n, l). elim (complete (suc (size profiles)) name [] l (λ s h. ground arith)) [
      | inl e ↦ e
      | inr e ↦ elim (resolve_profile_terminates str profiles name e) [ ]
    ],
  )
