-- ===== src/Contract.antt =====
-- retrieval_contract.py: the contract of an index version and of a run, and the check of a stored index
-- version against the current configuration. A dumped JSON object that is hashed or passed on whole is
-- kept as its text.
pub mod Compatible
mod Tests
use wikipedia_rag.Common.{
  ℕ, String, Bool, true, false, not, ◌&&◌, ◌||◌, Option, none, some, List, [], ◌∷◌, ◌==◌, string_eq,
  nat_eq, ltb, if◌then◌else◌,
}

pub record ModelRef : Type 0 where
  pub alias : String
  pub provider : String
  pub model : String
  pub operation : String
  pub dimensions : Option ℕ

pub record IndexContract : Type 0 where
  pub source_type : String
  pub snapshot_id : String
  pub index_version : String
  pub physical_index : String
  pub read_alias : String
  pub embedding : ModelRef
  pub embedding_dimensions : ℕ
  pub retrieval_profile : String
  pub retrieval_profile_source : String
  pub retrieval_profile_version : ℕ
  pub chunking : String

-- The version constants of the two contracts are the same in every contract and are left out.
pub record RunContract : Type 0 where
  pub index_contract_id : String
  pub retrieval_profile : String
  pub retrieval_profile_hash : String
  pub retrieval_overrides_hash : String
  pub model_aliases : List (String × ModelRef)
  pub verification_policy : String

pub record ActiveRetrievalContract : Type 0 where
  pub read_alias : String
  pub index_version : String
  pub index_contract : IndexContract
  pub index_contract_id : String
  pub run_contract : RunContract
  pub run_contract_id : String

pub record Aliases : Type 0 where
  pub embed : String
  pub generator_fast : String
  pub generator_main : String
  pub verifier : String
  pub rerank : String

pub record Profile : Type 0 where
  pub name : String
  pub source : String
  pub version : ℕ
  pub model_aliases : Aliases
  pub chunking : String
  pub verification : String

-- A row of index_versions; `stored_id` and `stored_contract` are its metadata, the latter less its
-- `contract_id`.
pub record IndexVersion : Type 0 where
  pub id : String
  pub source_type : String
  pub snapshot_id : String
  pub physical_index : String
  pub read_alias : String
  pub embedding_alias : String
  pub embedding_dimensions : ℕ
  pub stored_id : Option String
  pub stored_contract : Option String

-- The model registry of the settings, which raises for an alias that it lacks, and the digests of
-- dumped objects, which hashlib computes.
pub record Environment : Type 0 where
  pub require : String → String → Option ModelRef
  pub index_hash : IndexContract → String
  pub run_hash : RunContract → String
  pub profile_hash : Profile → String
  pub overrides_hash : Option String → String
  pub payload_hash : String → String

pub data Refusal : Type 0 where
  source_mismatch dimensions_mismatch alias_mismatch invalid_dimensions id_mismatch payload_mismatch
        unknown_alias :
      Refusal

pub data Checked {ℓ} (A : Type ℓ) : Type ℓ where
  returned : A → Checked A
  raised : Refusal → Checked A

infixl 1 ◌>>=◌
abbrev ◌>>=◌ {ℓ κ} : {A : Type ℓ} {B : Type κ} → Option A → (A → Option B) → Option B
none >>= f = none
some a >>= f = f a

unfoldable pub source_type_for_profile : Profile → String
source_type_for_profile p = if p.source == "xml" then "wikipedia_xml" else p.source

module _ (env : Environment) where
  unfoldable pub build_index_contract : IndexVersion → ModelRef → Profile → IndexContract
  build_index_contract row embedding p = record {
    source_type = row.source_type;
    snapshot_id = row.snapshot_id;
    index_version = row.id;
    physical_index = row.physical_index;
    read_alias = row.read_alias;
    embedding = embedding;
    embedding_dimensions = row.embedding_dimensions;
    retrieval_profile = p.name;
    retrieval_profile_source = p.source;
    retrieval_profile_version = p.version;
    chunking = p.chunking;
  }

  -- `none` when the registry lacks one of the aliases.
  unfoldable pub run_aliases : Aliases → Option (List (String × ModelRef))
  run_aliases a = do
    embed ← env.require a.embed "embedding"
    fast ← env.require a.generator_fast "chat"
    main ← env.require a.generator_main "chat"
    verifier ← env.require a.verifier "chat"
    rerank ← env.require a.rerank "rerank"
    some (
        ("embed", embed)
        ∷ ("generator_fast", fast)
        ∷ ("generator_main", main)
        ∷ ("verifier", verifier)
        ∷ ("rerank", rerank)
        ∷ [])

  unfoldable pub build_run_contract :
      String → Profile → Option String → List (String × ModelRef) → RunContract
  build_run_contract index_contract_id p overrides aliases = record {
    index_contract_id = index_contract_id;
    retrieval_profile = p.name;
    retrieval_profile_hash = env.profile_hash p;
    retrieval_overrides_hash = env.overrides_hash overrides;
    model_aliases = aliases;
    verification_policy = p.verification;
  }

  unfoldable pub active_contract :
      IndexContract → Profile → Option String → List (String × ModelRef) → ActiveRetrievalContract
  unfolding build_run_contract
  active_contract index p overrides aliases =
      let index_id = env.index_hash index in
      let run = build_run_contract index_id p overrides aliases in
      record {
        read_alias = index.read_alias;
        index_version = index.index_version;
        index_contract = index;
        index_contract_id = index_id;
        run_contract = run;
        run_contract_id = env.run_hash run;
      }

  -- `embedding.dimensions is not None and embedding.dimensions != dimensions`
  abbrev pub dimensions_differ : ModelRef → ℕ → Bool
  dimensions_differ embedding dimensions = elim embedding.dimensions [
    | none ↦ false
    | some d ↦ not (d == dimensions)
  ]

  abbrev pub stored_differs : Option String → (String → String) → String → Bool
  stored_differs none f expected = false
  stored_differs (some stored) f expected = not (f stored == expected)

  -- The checks after the registry has answered for the embedding alias.
  unfoldable pub check_row :
      IndexVersion → ModelRef → Profile → Option String → Checked ActiveRetrievalContract
  check_row row embedding p overrides =
      let index = build_index_contract row embedding p in
      let expected = env.index_hash index in
      if dimensions_differ embedding row.embedding_dimensions
      then raised dimensions_mismatch
      else if not (p.model_aliases.embed == row.embedding_alias)
      then raised alias_mismatch
      else if ltb row.embedding_dimensions 1
      then raised invalid_dimensions
      else if stored_differs row.stored_id (λ s. s) expected
      then raised id_mismatch
      else if stored_differs row.stored_contract env.payload_hash expected
      then raised payload_mismatch
      else elim (run_aliases p.model_aliases) [
        | none ↦ raised unknown_alias
        | some aliases ↦ returned (active_contract index p overrides aliases)
      ]

  unfoldable pub validate_index_version_contract :
      IndexVersion → Profile → Option String → Checked ActiveRetrievalContract
  unfolding source_type_for_profile check_row
  validate_index_version_contract row p overrides =
      if not (row.source_type == source_type_for_profile p)
      then raised source_mismatch
      else elim (env.require row.embedding_alias "embedding") [
        | none ↦ raised unknown_alias
        | some embedding ↦ check_row row embedding p overrides
      ]
