-- ===== src/Inheritance/Tests.antt =====
-- Runs of the profile inheritance, and the theorems at concrete catalogs.
use wikipedia_rag.Common.{ℕ, suc, String, [], ◌∷◌, some, ◌≡◌, ◌≢◌, ◌↔◌, refl}
use wikipedia_rag.Common.Int.{pos}
use wikipedia_rag.Common.{true}
use wikipedia_rag.Json.{Value, Fields, bool, int, text, obj, end, field, deep_merge}
use wikipedia_rag.Json.Dict.{ProperFields, Proper}
use wikipedia_rag.Json.Paths.{at_path}
use wikipedia_rag.Inheritance.{
  resolved, cyclic, unknown, exhausted, entry_of, resolve_profile, size, loaded, failed,
  load_entries, load_profile_catalog, set_citation_validation, apply_legacy_answer_override,
  profile_payload,
}
use wikipedia_rag.Inheritance.Termination
use wikipedia_rag.Inheritance.Lineage
use wikipedia_rag.Inheritance.Lineage.{Lineage}
use wikipedia_rag.Inheritance.Catalog
use wikipedia_rag.Inheritance.Catalog.{StoredProfile}
use wikipedia_rag.Inheritance.Overrides

program : Unit {0}
unfolding deep_merge entry_of resolve_profile load_entries load_profile_catalog
    set_citation_validation apply_legacy_answer_override profile_payload Proper
program = tt

abbrev written : Value → String
written v = "1"

abbrev retrieval : ℕ → Fields
retrieval n = field "retrieval" (obj (field "top_k" (int (pos n)) end)) end

-- `wide` is based on `base`, and `left` and `right` on one another.
abbrev catalog : Fields
catalog =
    field "base"
      (obj
        (field "retrieval" (obj (field "bm25" (bool true) (field "top_k" (int (pos 10)) end))) end))
      (field "wide" (obj (field "based_on" (text "base") (retrieval 50))) (
        field "left" (obj (field "based_on" (text "right") end)) (
          field "right" (obj (field "based_on" (text "left") end))
            (field "lost" (obj (field "based_on" (text "gone") end)) end))))

abbrev wide_settings : Fields
wide_settings =
    field "retrieval" (obj (field "bm25" (bool true) (field "top_k" (int (pos 50)) end))) end

inherits : resolve_profile written catalog 6 "wide" [] ≡ resolved wide_settings
unfolding program
inherits = refl

goes_round : resolve_profile written catalog 6 "left" [] ≡ cyclic ("left" ∷ "right" ∷ "left" ∷ [])
unfolding program
goes_round = refl

no_parent : resolve_profile written catalog 6 "lost" [] ≡ unknown "gone"
unfolding program
no_parent = refl

refused : load_profile_catalog written catalog ≡ failed (cyclic ("left" ∷ "right" ∷ "left" ∷ []))
unfolding program
refused = refl

resolve_profile_terminates_example :
    resolve_profile written catalog (suc (size catalog)) "left" [] ≢ exhausted
resolve_profile_terminates_example = Termination.resolve_profile_terminates written catalog "left"

resolve_profile-resolved_iff_example :
    (resolve_profile written catalog (suc (size catalog)) "wide" [] ≡ resolved wide_settings)
    ↔ ((n : ℕ) × Lineage written catalog "wide" n wide_settings)
resolve_profile-resolved_iff_example =
    Lineage.resolve_profile-resolved_iff written catalog "wide" wide_settings

abbrev sound_catalog : Fields
sound_catalog =
    field "base" (obj (retrieval 10))
      (field "wide" (obj (field "based_on" (text "base") (retrieval 50))) end)

abbrev loaded_catalog : Fields
loaded_catalog =
    field "base"
      (obj (
        field "retrieval" (obj (field "top_k" (int (pos 10)) end))
          (field "name" (text "base") end)))
      (field "wide"
        (obj (
          field "retrieval" (obj (field "top_k" (int (pos 50)) end))
            (field "name" (text "wide") end)))
        end)

loads : load_profile_catalog written sound_catalog ≡ loaded loaded_catalog
unfolding program
loads = refl

load_profile_catalog-StoredProfile_example :
    StoredProfile written sound_catalog "wide" loaded_catalog
load_profile_catalog-StoredProfile_example =
    Catalog.load_profile_catalog-StoredProfile written sound_catalog "wide" loads refl

abbrev request : Fields
request =
    field "retrieval" (obj (field "top_k" (int (pos 7)) end))
      (field "answer" (obj (field "deterministic_citation_validation" (bool true) end)) end)

abbrev validated : Fields
validated = field "retrieval" (obj (field "top_k" (int (pos 7)) end)) (
    field "name" (text "wide") (
      field "answer"
        (obj (
          field "deterministic_citation_validation" (bool true)
            (field "verification" (obj (field "citation_validation" (text "strict") end)) end)))
        end))

overridden : profile_payload loaded_catalog "wide" request ≡ some validated
unfolding program
overridden = refl

request-ProperFields : ProperFields request
unfolding program
request-ProperFields = (refl, (refl, tt, tt), (refl, (refl, tt, tt), tt))

profile_payload-at_path_example : at_path "retrieval" ("top_k" ∷ []) validated ≡ some (int (pos 7))
profile_payload-at_path_example =
    Overrides.profile_payload-at_path loaded_catalog "wide" request "retrieval" ("top_k" ∷ [])
      request-ProperFields overridden refl refl refl
