-- ===== src/Retrieval/Packing/Refinement.antt =====
-- The second pass, and both together, make admitted steps alone.
use wikipedia_rag.Common.{
  ℕ, ◌+◌, ◌<◌, min, Bool, false, some, List, [], ◌∷◌, ltb, leb, length, ◌≡◌, arith, Bool-cases,
  Option-cases, inl, inr, subst, leb→lt, ◌++◌,
}
use wikipedia_rag.Retrieval.{Candidate, document_key}
use wikipedia_rag.Retrieval.Packing.{
  Request, Packing, matched_negative_title, count_context_tokens, max_evidence, hash_of, unit_of,
  over_budget, document_full, seen,
}
use wikipedia_rag.Retrieval.Packing.Passes.{
  overflowed, empty, first_pass, overflow, revisit, second_pass, packed,
}
use wikipedia_rag.Retrieval.Packing.Step.{
  Allowed, AllAllowed, logged, deferred, supported, admitted, Reach, done, next, Reach-trans,
}
use wikipedia_rag.Retrieval.Packing.Rounds.{first_pass-Reach}

module _ (r : Request) where
  overflow-Step :
      (c : Candidate) (s : Packing)
      → length s.selected < max_evidence r
      → over_budget r (count_context_tokens r.python c.content) s ≡ false
      → document_full r c s ≡ false
      → seen r c s ≡ false
      → Allowed r c
      → Reach r s (overflow r c s)
  unfolding hash_of unit_of document_key matched_negative_title
  overflow-Step c s room fits full fresh clean =
      next (admitted (overflowed c (length s.selected + 1)) room fits full (ground arith) clean)
        (next (logged _) done)

  revisit-Reach :
      (met : Bool) (c : Candidate) (s t : Packing)
      → length s.selected < max_evidence r
      → Allowed r c
      → revisit r met c s ≡ some t
      → Reach r s t
  unfolding revisit
  revisit-Reach met c s t room clean h =
      let same : overflow r c s ≡ t = ground arith in
      subst (Reach r s) same
        (overflow-Step c s room (ground arith) (ground arith) (ground arith) clean)

  -- The second pass makes steps alone, over candidates that no negative title matches.
  second_pass-Reach :
      (target : ℕ) (met : Bool) (s : Packing) (cs : List Candidate)
      → AllAllowed r cs
      → Reach r s (second_pass r target met s cs)
  unfolding second_pass
  second_pass-Reach target met s [] clean = done
  second_pass-Reach target met s (c ∷ cs) (here, later) =
      elim (Bool-cases (leb (max_evidence r) (length s.selected))) [
        | inl full ↦ rw (second_pass, full) done
        | inr room ↦ elim (Option-cases (revisit r met c s)) [
          | inl skipped ↦ rw (second_pass, room, skipped) (second_pass-Reach target met s cs later)
          | inr (t, chosen) ↦
              let round =
                revisit-Reach met c s t (leb→lt (max_evidence r) (length s.selected) room) here
                  chosen in
              elim (Bool-cases (leb target (length t.selected))) [
                | inl stop ↦ rw (second_pass, room, chosen, stop) round
                | inr go ↦
                    rw (second_pass, room, chosen, go)
                      (Reach-trans round (second_pass-Reach target false t cs later))
              ]
        ]
      ]

  pub AllAllowed-append :
      (cs : List Candidate) (c : Candidate)
      → AllAllowed r cs
      → Allowed r c
      → AllAllowed r (cs ++ c ∷ [])
  AllAllowed-append [] c h a = (a, tt)
  AllAllowed-append (d ∷ cs) c (here, later) a = (here, AllAllowed-append cs c later a)

  -- Only candidates that no negative title matches are deferred.
  deferred-AllAllowed :
      {s t : Packing} → Reach r s t → AllAllowed r s.deferred → AllAllowed r t.deferred
  deferred-AllAllowed done h = h
  deferred-AllAllowed (next (logged _) p) h = deferred-AllAllowed p h
  deferred-AllAllowed (next (supported _ _) p) h = deferred-AllAllowed p h
  deferred-AllAllowed (next (admitted _ _ _ _ _ _) p) h = deferred-AllAllowed p h
  deferred-AllAllowed {s} (next (deferred c a) p) h =
      deferred-AllAllowed p (AllAllowed-append s.deferred c h a)

  -- When the evidence limit is positive, both passes make admitted steps alone, from the empty
  -- variables: every element is taken below the limit, within the token budget, with room for its
  -- document or an exemption, with no negative title, and, under dedup, with its hash and unit unseen.
  pub packed-Reach :
      (candidates : List Candidate) → 0 < max_evidence r → Reach r empty (packed r candidates)
  unfolding packed
  packed-Reach candidates room =
      let s = first_pass r empty candidates in
      let first : Reach r empty s = first_pass-Reach r empty candidates room in
      let target = min r.policy.final_evidence_min (max_evidence r) in
      elim (Bool-cases (ltb (length s.selected) target)) [
        | inl short ↦
            rw (packed, short)
              (Reach-trans first
                (second_pass-Reach target _ s s.deferred (deferred-AllAllowed first tt)))
        | inr full ↦ rw (packed, full) first
      ]
