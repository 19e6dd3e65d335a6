-- ===== src/Inheritance/Catalog.antt =====
-- What a loaded catalog holds under each name.
use wikipedia_rag.Common.{
  ℕ, suc, String, [], none, some, ◌≡◌, refl, subst, sym, ◌∙◌, inl, inr, Bool-cases, Option-cases,
  string_eq, ◌==◌, arith, eq_iff,
}
use wikipedia_rag.Json.{Value, Fields, text, obj, end, field, get, put}
use wikipedia_rag.Json.Dict.{get-put, get-put_other}
use wikipedia_rag.Inheritance.{
  resolved, cyclic, unknown, malformed, exhausted, resolve_profile, size, loaded, load_entries,
  load_profile_catalog,
}
use wikipedia_rag.Inheritance.Lineage.{Lineage, resolve_profile-resolved_iff}

module _ (str : Value → String) (raw : Fields) where
  -- A profile of the catalog: the settings of its chain, with its name in them.
  abbrev pub StoredProfile : String → Fields → Type 0
  StoredProfile name catalog =
      (n : ℕ) × (fs : Fields) × Lineage str raw name n fs
      × (get name catalog ≡ some (obj (put "name" (text name) fs)))

  -- A round of the loop that does not fail.
  load_entries-round :
      (j : String) (v : Value) (rest done : Fields) {catalog : Fields}
      → load_entries str raw (field j v rest) done ≡ loaded catalog
      → (fs : Fields) × (resolve_profile str raw (suc (size raw)) j [] ≡ resolved fs)
        × (load_entries str raw rest (put j (obj (put "name" (text j) fs)) done) ≡ loaded catalog)
  unfolding load_entries
  load_entries-round j v rest done {catalog} h =
      elim (resolve_profile str raw (suc (size raw)) j [])
          as (λ r.
            resolve_profile str raw (suc (size raw)) j [] ≡ r
            → (fs : Fields) × (resolve_profile str raw (suc (size raw)) j [] ≡ resolved fs)
              × (load_entries str raw rest (put j (obj (put "name" (text j) fs)) done)
                  ≡ loaded catalog)) [
                    | resolved fs ↦ λ e. (fs, e, ground arith)
                    | cyclic ns ↦ λ e. ground arith
                    | unknown n ↦ λ e. ground arith
                    | malformed n ↦ λ e. ground arith
                    | exhausted ↦ λ e. ground arith
                  ]
        refl

  load_entries-kept :
      (rest done : Fields) {catalog : Fields} (name : String)
      → load_entries str raw rest done ≡ loaded catalog
      → get name rest ≡ none
      → get name catalog ≡ get name done
  unfolding load_entries
  load_entries-kept end done name h k = ground arith
  load_entries-kept (field j v rest) done {catalog} name h k = elim (Bool-cases (name == j)) [
    | inl e ↦ ground arith
    | inr e ↦
        let (fs, r, t) = load_entries-round j v rest done h in
        load_entries-kept rest (put j (obj (put "name" (text j) fs)) done) name t (ground arith)
        ∙ get-put_other name j (obj (put "name" (text j) fs)) done e
  ]

  load_entries-StoredProfile :
      (rest done : Fields) {catalog : Fields} (name : String) {v : Value}
      → load_entries str raw rest done ≡ loaded catalog
      → get name rest ≡ some v
      → StoredProfile name catalog
  load_entries-StoredProfile (field j u rest) done {catalog} name {v} h k =
      let (fs, r, t) = load_entries-round j u rest done h in
      let next = put j (obj (put "name" (text j) fs)) done in
      elim (Option-cases (get name rest)) [
        | inr (w, e) ↦ load_entries-StoredProfile rest next name t e
        | inl e ↦
            let same = (eq_iff j name).0 (ground (arith, eq_iff name j, eq_iff j name)) in
            let (n, l) = (resolve_profile-resolved_iff str raw j fs).0 r in
            subst (λ i. StoredProfile i catalog) same
              (
                n,
                fs,
                l,
                load_entries-kept rest next j t (subst (λ i. get i rest ≡ none) (sym same) e)
                    ∙ get-put j (obj (put "name" (text j) fs)) done,
              )
      ]
  load_entries-StoredProfile end done name h k = ground arith

  -- When the catalog loads, it holds under the name of each configured profile the settings of its whole chain
  -- of parents, with that name in them.
  pub load_profile_catalog-StoredProfile :
      (name : String) {catalog : Fields} {v : Value}
      → load_profile_catalog str raw ≡ loaded catalog
      → get name raw ≡ some v
      → StoredProfile name catalog
  unfolding load_profile_catalog
  load_profile_catalog-StoredProfile name h k = load_entries-StoredProfile raw end name h k
