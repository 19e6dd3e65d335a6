-- ===== src/Retrieval/Packing/Identity.antt =====
-- Which candidates `postprocess_candidates` returns: none twice, and none that a negative title matches.
use wikipedia_rag.Common.{
  ℕ, zero, suc, ◌<◌, String, true, List, [], ◌∷◌, string_eq, ◌≡◌, refl, ◌∙◌, ap, arith, contains,
  sym, map, subst,
}
use mathlib.Core.List.{map-append}
use wikipedia_rag.Retrieval.{Candidate}
use wikipedia_rag.Retrieval.Keys.{DistinctKeys, DistinctKeys-snoc, contains-snoc}
use wikipedia_rag.Retrieval.Packing.{
  Request, Packing, support_at, max_evidence, hash_of, unit_of, is_some, matched_negative_title,
}
use wikipedia_rag.Retrieval.Packing.Passes.{empty, postprocess_candidates}
use wikipedia_rag.Retrieval.Packing.Step.{
  Step, logged, deferred, supported, admitted, Reach, done, next, AllAllowed,
}
use wikipedia_rag.Retrieval.Packing.Refinement.{packed-Reach, AllAllowed-append}

-- A note of support changes neither the units, nor the hashes, nor what a title is compared with.
support_at-units :
    (r : Request) (i : ℕ) (chunk_id : String) (cs : List Candidate)
    → map (unit_of r) (support_at i chunk_id cs) ≡ map (unit_of r) cs
unfolding support_at unit_of hash_of
support_at-units r i chunk_id [] = refl
support_at-units r zero chunk_id (c ∷ cs) = refl
support_at-units r (suc i) chunk_id (c ∷ cs) =
    ap (λ ks. unit_of r c ∷ ks) (support_at-units r i chunk_id cs)

support_at-hashes :
    (r : Request) (i : ℕ) (chunk_id : String) (cs : List Candidate)
    → map (hash_of r) (support_at i chunk_id cs) ≡ map (hash_of r) cs
unfolding support_at hash_of
support_at-hashes r i chunk_id [] = refl
support_at-hashes r zero chunk_id (c ∷ cs) = refl
support_at-hashes r (suc i) chunk_id (c ∷ cs) =
    ap (λ ks. hash_of r c ∷ ks) (support_at-hashes r i chunk_id cs)

support_at-AllAllowed :
    (r : Request) (i : ℕ) (chunk_id : String) (cs : List Candidate)
    → AllAllowed r cs
    → AllAllowed r (support_at i chunk_id cs)
unfolding support_at matched_negative_title
support_at-AllAllowed r i chunk_id [] h = tt
support_at-AllAllowed r zero chunk_id (c ∷ cs) h = h
support_at-AllAllowed r (suc i) chunk_id (c ∷ cs) h =
    (h.0, support_at-AllAllowed r i chunk_id cs h.1)

module _ (r : Request) where
  record Tracked (s : Packing) : Type 0 where
    units : (u : String) → contains u (map (unit_of r) s.selected) ≡ is_some (s.seen_units u)
    hashes : (h : String) → contains h (map (hash_of r) s.selected) ≡ contains h s.seen_hashes
    distinct_units : r.policy.dedup ≡ true → DistinctKeys (map (unit_of r) s.selected)
    distinct_hashes : r.policy.dedup ≡ true → DistinctKeys (map (hash_of r) s.selected)
    allowed : AllAllowed r s.selected

  empty-Tracked : Tracked empty
  empty-Tracked = record {
    units = λ u. refl;
    hashes = λ h. refl;
    distinct_units = λ h. tt;
    distinct_hashes = λ h. tt;
    allowed = tt;
  }

  Step-Tracked : {s t : Packing} → Step r s t → Tracked s → Tracked t
  Step-Tracked (logged _) b = record {
    units = b.units;
    hashes = b.hashes;
    distinct_units = b.distinct_units;
    distinct_hashes = b.distinct_hashes;
    allowed = b.allowed;
  }
  Step-Tracked (deferred _ _) b = record {
    units = b.units;
    hashes = b.hashes;
    distinct_units = b.distinct_units;
    distinct_hashes = b.distinct_hashes;
    allowed = b.allowed;
  }
  Step-Tracked {s} (supported i chunk_id) b =
      let us = support_at-units r i chunk_id s.selected in
      let hs = support_at-hashes r i chunk_id s.selected in
      record {
        units = λ u. ap (contains u) us ∙ b.units u;
        hashes = λ h. ap (contains h) hs ∙ b.hashes h;
        distinct_units = λ d. subst DistinctKeys (sym us) (b.distinct_units d);
        distinct_hashes = λ d. subst DistinctKeys (sym hs) (b.distinct_hashes d);
        allowed = support_at-AllAllowed r i chunk_id s.selected b.allowed;
      }
  Step-Tracked {s} (admitted c room within full fresh clean) b =
      let us = map-append (unit_of r) s.selected (c ∷ []) in
      let hs = map-append (hash_of r) s.selected (c ∷ []) in
      record {
        units =
            λ u. ap (contains u) us ∙ contains-snoc u _ (unit_of r c) ∙ ground (arith, b.units u);
        hashes =
            λ h. ap (contains h) hs ∙ contains-snoc h _ (hash_of r c) ∙ ground (arith, b.hashes h);
        distinct_units = λ d. subst DistinctKeys (sym us) (
            DistinctKeys-snoc _ (unit_of r c) (b.distinct_units d)
              (ground (arith, b.units (unit_of r c))));
        distinct_hashes = λ d. subst DistinctKeys (sym hs) (
            DistinctKeys-snoc _ (hash_of r c) (b.distinct_hashes d)
              (ground (arith, b.hashes (hash_of r c))));
        allowed = AllAllowed-append r s.selected c b.allowed clean;
      }

  Reach-Tracked : {s t : Packing} → Reach r s t → Tracked s → Tracked t
  Reach-Tracked done b = b
  Reach-Tracked (next step p) b = Reach-Tracked p (Step-Tracked step b)

  -- With dedup no two elements of the returned evidence share a content unit, and no two share a
  -- content hash.
  pub postprocess_candidates-DistinctKeys :
      (candidates : List Candidate)
      → 0 < max_evidence r
      → r.policy.dedup ≡ true
      → DistinctKeys (map (unit_of r) (postprocess_candidates r candidates).0)
        × DistinctKeys (map (hash_of r) (postprocess_candidates r candidates).0)
  unfolding postprocess_candidates
  postprocess_candidates-DistinctKeys candidates room d =
      let b = Reach-Tracked (packed-Reach r candidates room) empty-Tracked in
      (b.distinct_units d, b.distinct_hashes d)

  -- No title, section or alias of a returned element is one that the query excludes.
  pub postprocess_candidates-AllAllowed :
      (candidates : List Candidate)
      → 0 < max_evidence r
      → AllAllowed r (postprocess_candidates r candidates).0
  unfolding postprocess_candidates
  postprocess_candidates-AllAllowed candidates room =
      (Reach-Tracked (packed-Reach r candidates room) empty-Tracked).allowed
