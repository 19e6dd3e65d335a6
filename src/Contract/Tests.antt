-- ===== src/Contract/Tests.antt =====
-- Runs of the contract check, and the theorem at a concrete input.
use Prim.Native.String.{◌++◌}
use wikipedia_rag.Common.{String, none, some, [], ◌∷◌, ◌≡◌, refl}
use wikipedia_rag.Contract.{
  ModelRef, ActiveRetrievalContract, Profile, IndexVersion, Environment, returned, raised,
  alias_mismatch, id_mismatch, source_type_for_profile, build_index_contract, run_aliases,
  build_run_contract, active_contract, check_row, validate_index_version_contract,
}
use wikipedia_rag.Contract.Compatible
use wikipedia_rag.Contract.Compatible.{Accepted}

program : Unit {0}
unfolding source_type_for_profile build_index_contract run_aliases build_run_contract
    active_contract check_row validate_index_version_contract
program = tt

abbrev environment : Environment
environment = record {
  require = λ alias operation. some (record {
    alias = alias;
    provider = "mock";
    model = alias;
    operation = operation;
    dimensions = some 8;
  });
  index_hash = λ c. "index:" ++ c.index_version;
  run_hash = λ c. "run:" ++ c.index_contract_id;
  profile_hash = λ p. p.name;
  overrides_hash = λ o. "none";
  payload_hash = λ s. s;
}

abbrev profile : Profile
profile = record {
  name = "default";
  source = "xml";
  version = 1;
  model_aliases = record {
    embed = "e5";
    generator_fast = "fast";
    generator_main = "main";
    verifier = "verifier";
    rerank = "rerank";
  };
  chunking = "{}";
  verification = "{}";
}

abbrev row : IndexVersion
row = record {
  id = "v1";
  source_type = "wikipedia_xml";
  snapshot_id = "s";
  physical_index = "chunks-v1";
  read_alias = "chunks";
  embedding_alias = "e5";
  embedding_dimensions = 8;
  stored_id = some "index:v1";
  stored_contract = none;
}

abbrev reference : String → String → ModelRef
reference alias operation = record {
  alias = alias;
  provider = "mock";
  model = alias;
  operation = operation;
  dimensions = some 8;
}

abbrev contract : ActiveRetrievalContract
contract =
    active_contract environment
      (build_index_contract environment row (reference "e5" "embedding") profile) profile none
      (("embed", reference "e5" "embedding")
        ∷ ("generator_fast", reference "fast" "chat")
        ∷ ("generator_main", reference "main" "chat")
        ∷ ("verifier", reference "verifier" "chat")
        ∷ ("rerank", reference "rerank" "rerank")
        ∷ [])

current : validate_index_version_contract environment row profile none ≡ returned contract
unfolding program
current = refl

validate_index_version_contract-Accepted_example : Accepted environment row profile none contract
validate_index_version_contract-Accepted_example =
    Compatible.validate_index_version_contract-Accepted environment row profile none contract
      current

other_alias :
    validate_index_version_contract environment
      (record row { embedding_alias = "bge" })
      profile
      none
    ≡ raised alias_mismatch
unfolding program
other_alias = refl

stale_id :
    validate_index_version_contract environment
      (record row { stored_id = some "index:v0" })
      profile
      none
    ≡ raised id_mismatch
unfolding program
stale_id = refl
