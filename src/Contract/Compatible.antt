-- ===== src/Contract/Compatible.antt =====
-- Which index versions `validate_index_version_contract` accepts, and the contract that it returns.
use wikipedia_rag.Common.{
  ℕ, ◌≤◌, String, Bool, true, false, not, Option, some, List, [], ◌∷◌, ◌==◌, string_eq, nat_eq, ◌≡◌,
  refl, ap, sym, ◌∙◌, arith, Option-cases, inl, inr, eq_iff, subst,
}
use wikipedia_rag.Contract.{
  ModelRef, Aliases, IndexContract, ActiveRetrievalContract, Profile, IndexVersion, Environment,
  returned, source_type_for_profile, build_index_contract, run_aliases, active_contract,
  dimensions_differ, stored_differs, build_run_contract, check_row, validate_index_version_contract,
}

-- The models of a run, in the order of the roles: each is the one that the registry has for the alias of the profile
-- and the operation of the role.
abbrev pub Registered : Environment → Aliases → List (String × ModelRef) → Type 0
Registered env a models =
    (embed : ModelRef) × (fast : ModelRef) × (main : ModelRef) × (verifier : ModelRef)
    × (rerank : ModelRef) × (env.require a.embed "embedding" ≡ some embed)
    × (env.require a.generator_fast "chat" ≡ some fast)
    × (env.require a.generator_main "chat" ≡ some main)
    × (env.require a.verifier "chat" ≡ some verifier)
    × (env.require a.rerank "rerank" ≡ some rerank)
    × (models
        ≡ ("embed", embed)
          ∷ ("generator_fast", fast)
          ∷ ("generator_main", main)
          ∷ ("verifier", verifier)
          ∷ ("rerank", rerank)
          ∷ [])

-- An accepted row, with the model that the registry has for its embedding alias, and what is returned for it.
pub record Accepted (env : Environment) (row : IndexVersion) (p : Profile)
    (overrides : Option String) (c : ActiveRetrievalContract) : Type 0 where
  embedding : ModelRef
  known : env.require row.embedding_alias "embedding" ≡ some embedding
  from_xml : p.source ≡ "xml" → row.source_type ≡ "wikipedia_xml"
  from_source : (p.source == "xml") ≡ false → row.source_type ≡ p.source
  alias : p.model_aliases.embed ≡ row.embedding_alias
  positive : 1 ≤ row.embedding_dimensions
  dimensions : (d : ℕ) → embedding.dimensions ≡ some d → d ≡ row.embedding_dimensions
  contract : c.index_contract ≡ record {
    source_type = row.source_type;
    snapshot_id = row.snapshot_id;
    index_version = row.id;
    physical_index = row.physical_index;
    read_alias = row.read_alias;
    embedding = embedding;
    embedding_dimensions = row.embedding_dimensions;
    retrieval_profile = p.name;
    retrieval_profile_source = p.source;
    retrieval_profile_version = p.version;
    chunking = p.chunking;
  }
  current : (id : String) → row.stored_id ≡ some id → id ≡ env.index_hash c.index_contract
  payload :
      (stored : String)
      → row.stored_contract ≡ some stored
      → env.payload_hash stored ≡ env.index_hash c.index_contract
  index_id : c.index_contract_id ≡ env.index_hash c.index_contract
  run_of : c.run_contract.index_contract_id ≡ c.index_contract_id
  models : Registered env p.model_aliases c.run_contract.model_aliases
  run_id : c.run_contract_id ≡ env.run_hash c.run_contract

module _ (env : Environment) where
  dimensions_agree :
      (embedding : ModelRef) (n d : ℕ)
      → dimensions_differ env embedding n ≡ false
      → embedding.dimensions ≡ some d
      → d ≡ n
  dimensions_agree embedding n d h e = ground arith

  stored_agrees :
      (stored : Option String) (f : String → String) (expected s : String)
      → stored_differs env stored f expected ≡ false
      → stored ≡ some s
      → f s ≡ expected
  stored_agrees stored f expected s h e =
      (eq_iff (f s) expected).0
        (differs_not (f s == expected) (ap (λ o. stored_differs env o f expected) (sym e) ∙ h))
    where
      differs_not : (b : Bool) → not b ≡ false → b ≡ true
      differs_not b h = ground arith

  run_aliases-Registered :
      (a : Aliases) (models : List (String × ModelRef))
      → run_aliases env a ≡ some models
      → Registered env a models
  unfolding run_aliases
  run_aliases-Registered a models h = elim (Option-cases (env.require a.embed "embedding")) [
    | inl e ↦ ground arith
    | inr (embed, e) ↦ elim (Option-cases (env.require a.generator_fast "chat")) [
      | inl f ↦ ground arith
      | inr (fast, f) ↦ elim (Option-cases (env.require a.generator_main "chat")) [
        | inl m ↦ ground arith
        | inr (main, m) ↦ elim (Option-cases (env.require a.verifier "chat")) [
          | inl v ↦ ground arith
          | inr (verifier, v) ↦ elim (Option-cases (env.require a.rerank "rerank")) [
            | inl r ↦ ground arith
            | inr (rerank, r) ↦ (embed, fast, main, verifier, rerank, e, f, m, v, r, ground arith)
          ]
        ]
      ]
    ]
  ]

  module _ (row : IndexVersion) (p : Profile) (overrides : Option String) where
    built : ModelRef → IndexContract
    built embedding = build_index_contract env row embedding p

    active-Accepted :
        (embedding : ModelRef) (aliases : List (String × ModelRef))
        → env.require row.embedding_alias "embedding" ≡ some embedding
        → row.source_type ≡ source_type_for_profile p
        → p.model_aliases.embed ≡ row.embedding_alias
        → 1 ≤ row.embedding_dimensions
        → dimensions_differ env embedding row.embedding_dimensions ≡ false
        → stored_differs env row.stored_id (λ s. s) (env.index_hash (built embedding)) ≡ false
        → stored_differs env row.stored_contract env.payload_hash (env.index_hash (built embedding))
          ≡ false
        → Registered env p.model_aliases aliases
        → Accepted env row p overrides (active_contract env (built embedding) p overrides aliases)
    unfolding active_contract built build_index_contract source_type_for_profile build_run_contract
    active-Accepted embedding aliases known source alias positive dims id payload models = record {
      embedding = embedding;
      known = known;
      from_xml = λ e. source ∙ rw e refl;
      from_source = λ e. source ∙ rw e refl;
      alias = alias;
      positive = positive;
      dimensions = λ d. dimensions_agree embedding row.embedding_dimensions d dims;
      contract = refl;
      current = λ s. stored_agrees row.stored_id (λ t. t) _ s id;
      payload = λ s. stored_agrees row.stored_contract env.payload_hash _ s payload;
      index_id = refl;
      run_of = refl;
      models = models;
      run_id = refl;
    }

    check_row-Accepted :
        (embedding : ModelRef) (c : ActiveRetrievalContract)
        → env.require row.embedding_alias "embedding" ≡ some embedding
        → row.source_type ≡ source_type_for_profile p
        → check_row env row embedding p overrides ≡ returned c
        → Accepted env row p overrides c
    unfolding check_row built
    check_row-Accepted embedding c known source h =
        elim (Option-cases (run_aliases env p.model_aliases)) [
          | inl missing ↦ absurd (ground arith)
          | inr (aliases, resolved) ↦
              let same : active_contract env (built embedding) p overrides aliases ≡ c =
                ground arith in
              let alias : p.model_aliases.embed ≡ row.embedding_alias =
                (eq_iff p.model_aliases.embed row.embedding_alias).0 (ground arith) in
              subst (Accepted env row p overrides) same (
                active-Accepted embedding aliases known source alias (ground arith) (ground arith)
                  (ground arith) (ground arith)
                  (run_aliases-Registered p.model_aliases aliases resolved))
        ]

-- A row that is accepted has the source type of the profile, which is "wikipedia_xml" for "xml", the profile's
-- embedding alias, positive dimensions, which are those that the registered model names, and, where it stores
-- them, the id and the payload of the current contract. That contract is built of the row, the registered
-- model and the profile, field by field; the returned ids are the digests of the returned contracts, and
-- the run contract refers to the index contract and holds the registered model of each role.
pub validate_index_version_contract-Accepted :
    (env : Environment) (row : IndexVersion) (p : Profile) (overrides : Option String)
    (c : ActiveRetrievalContract)
    → validate_index_version_contract env row p overrides ≡ returned c
    → Accepted env row p overrides c
unfolding validate_index_version_contract
validate_index_version_contract-Accepted env row p overrides c h =
    let source = (eq_iff row.source_type (source_type_for_profile p)).0 (ground arith) in
    elim (Option-cases (env.require row.embedding_alias "embedding")) [
      | inl missing ↦ absurd (ground arith)
      | inr (embedding, found) ↦
          check_row-Accepted env row p overrides embedding c found source (ground arith)
    ]
