-- ===== src/Retrieval/Packing/Bounds.antt =====
-- What bounds the evidence that `postprocess_candidates` returns.
use wikipedia_rag.Common.{
  ℕ, zero, suc, ◌+◌, ◌≤◌, ◌<◌, String, Bool, true, not, ◌&&◌, List, [], ◌∷◌, ◌++◌, ◌==◌, string_eq,
  length, keep, ◌≡◌, refl, ◌∙◌, ap, arith, length-append, if◌then◌else◌, eq_iff, sym,
}
use wikipedia_rag.Retrieval.{Candidate, document_key}
use wikipedia_rag.Retrieval.Packing.{
  Request, Packing, count_context_tokens, support_at, max_evidence, document_limit, exempt,
}
use wikipedia_rag.Retrieval.Packing.Passes.{empty, packed, postprocess_candidates}
use wikipedia_rag.Retrieval.Packing.Step.{
  Step, logged, deferred, supported, admitted, Reach, done, next, length-support_at,
}
use wikipedia_rag.Retrieval.Packing.Refinement.{packed-Reach}

module _ (r : Request) where
  abbrev pub total_tokens : List Candidate → ℕ
  total_tokens [] = 0
  total_tokens (c ∷ cs) = count_context_tokens r.python c.content + total_tokens cs

  total_tokens-snoc :
      (cs : List Candidate) (c : Candidate)
      → total_tokens (cs ++ c ∷ []) ≡ total_tokens cs + count_context_tokens r.python c.content
  total_tokens-snoc [] c = omega arith
  total_tokens-snoc (d ∷ cs) c = omega (arith, total_tokens-snoc cs c)

  total_tokens-support_at :
      (i : ℕ) (chunk_id : String) (cs : List Candidate)
      → total_tokens (support_at i chunk_id cs) ≡ total_tokens cs
  unfolding support_at
  total_tokens-support_at i chunk_id [] = refl
  total_tokens-support_at zero chunk_id (c ∷ cs) = refl
  total_tokens-support_at (suc i) chunk_id (c ∷ cs) =
      omega (arith, total_tokens-support_at i chunk_id cs)

  -- Those of one document that its limit counts.
  abbrev pub counts_for : String → Candidate → Bool
  counts_for document c = document_key c == document && not (exempt c.metadata)

  keep-support_at :
      (document : String) (i : ℕ) (chunk_id : String) (cs : List Candidate)
      → length (keep (counts_for document) (support_at i chunk_id cs))
        ≡ length (keep (counts_for document) cs)
  unfolding support_at document_key
  keep-support_at document i chunk_id [] = refl
  keep-support_at document zero chunk_id (c ∷ cs) = ground arith
  keep-support_at document (suc i) chunk_id (c ∷ cs) =
      ground (arith, keep-support_at document i chunk_id cs)

  keep-snoc :
      (document : String) (cs : List Candidate) (c : Candidate)
      → length (keep (counts_for document) (cs ++ c ∷ []))
        ≡ length (keep (counts_for document) cs) + (if counts_for document c then 1 else 0)
  keep-snoc document [] c = ground arith
  keep-snoc document (d ∷ cs) c = ground (arith, keep-snoc document cs c)

  record Bounded (s : Packing) : Type 0 where
    few : length s.selected ≤ max_evidence r
    used : s.used_tokens ≡ total_tokens s.selected
    fits : r.policy.token_budget ≡ true → s.used_tokens ≤ r.policy.max_context_tokens
    counted_all :
        (document : String)
        → length (keep (counts_for document) s.selected) ≤ s.document_counts document
    limited :
        (document : String) → length (keep (counts_for document) s.selected) ≤ document_limit r

  empty-Bounded : Bounded empty
  empty-Bounded = record {
    few = omega arith;
    used = refl;
    fits = λ h. omega arith;
    counted_all = λ d. omega arith;
    limited = λ d. omega arith;
  }

  Step-Bounded : {s t : Packing} → Step r s t → Bounded s → Bounded t
  Step-Bounded (logged _) b = record {
    few = b.few;
    used = b.used;
    fits = b.fits;
    counted_all = b.counted_all;
    limited = b.limited;
  }
  Step-Bounded (deferred _ _) b = record {
    few = b.few;
    used = b.used;
    fits = b.fits;
    counted_all = b.counted_all;
    limited = b.limited;
  }
  Step-Bounded {s} (supported i chunk_id) b = record {
    few = omega (arith, b.few, length-support_at i chunk_id s.selected);
    used = b.used ∙ sym (total_tokens-support_at i chunk_id s.selected);
    fits = b.fits;
    counted_all = λ d. omega (arith, b.counted_all d, keep-support_at d i chunk_id s.selected);
    limited = λ d. omega (arith, b.limited d, keep-support_at d i chunk_id s.selected);
  }
  Step-Bounded {s} (admitted c room within full fresh clean) b = record {
    few = omega (arith, length-append s.selected (c ∷ []));
    used = omega (arith, b.used, total_tokens-snoc s.selected c);
    fits = λ h. ground arith;
    counted_all = λ d. ground (arith, b.counted_all d, keep-snoc d s.selected c);
    limited = λ d. ground (
      arith,
      b.limited d,
      b.counted_all d,
      keep-snoc d s.selected c,
      λ (e : document_key c ≡ d). ap s.document_counts e,
      eq_iff (document_key c) d,
    );
  }

  Reach-Bounded : {s t : Packing} → Reach r s t → Bounded s → Bounded t
  Reach-Bounded done b = b
  Reach-Bounded (next step p) b = Reach-Bounded p (Step-Bounded step b)

  packed-Bounded :
      (candidates : List Candidate) → 0 < max_evidence r → Bounded (packed r candidates)
  packed-Bounded candidates room = Reach-Bounded (packed-Reach r candidates room) empty-Bounded

  -- No context holds more evidence than the request, the profile and the limit of 12 each allow, when
  -- these are positive.
  pub postprocess_candidates-length :
      (candidates : List Candidate)
      → 0 < max_evidence r
      → (length (postprocess_candidates r candidates).0 ≤ r.requested_top_k)
        × (length (postprocess_candidates r candidates).0 ≤ r.policy.final_evidence_max)
        × (length (postprocess_candidates r candidates).0 ≤ 12)
  unfolding postprocess_candidates
  postprocess_candidates-length candidates room =
      let b = packed-Bounded candidates room in
      (omega (arith, b.few), omega (arith, b.few), omega (arith, b.few))

  -- Under a token budget the contents that are returned never count more tokens than it, parents that
  -- were expanded and candidates of the second pass included.
  pub postprocess_candidates-tokens :
      (candidates : List Candidate)
      → 0 < max_evidence r
      → r.policy.token_budget ≡ true
      → total_tokens (postprocess_candidates r candidates).0 ≤ r.policy.max_context_tokens
  unfolding postprocess_candidates
  postprocess_candidates-tokens candidates room h =
      let b = packed-Bounded candidates room in omega (arith, b.used, b.fits h)

  -- No document gives more than two elements in an ambiguity mode, and more than three otherwise, that
  -- are neither expanded to their parent nor adjacent expansions.
  pub postprocess_candidates-documents :
      (candidates : List Candidate) (document : String)
      → 0 < max_evidence r
      → length (keep (counts_for document) (postprocess_candidates r candidates).0)
        ≤ (if r.ambiguous then 2 else 3)
  unfolding postprocess_candidates
  postprocess_candidates-documents candidates document room =
      (packed-Bounded candidates room).limited document
