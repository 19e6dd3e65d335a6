-- ===== src/Retrieval/Packing/Overflow.antt =====
-- The second pass of `postprocess_candidates` and the query.
use wikipedia_rag.Common.{
  ℕ, String, false, List, [], ◌∷◌, ◌≡◌, refl, arith, Bool-cases, Option-cases, inl, inr, leb,
  length,
}
use wikipedia_rag.Retrieval.{Candidate}
use wikipedia_rag.Retrieval.Packing.{Request, Packing, max_evidence, unit_of, hash_of}
use wikipedia_rag.Retrieval.Packing.Passes.{revisit, second_pass}

module _ (r : Request) (query : String) where
  revisit-query :
      (c : Candidate) (s : Packing)
      → revisit (record r { query = query }) false c s ≡ revisit r false c s
  unfolding revisit unit_of hash_of
  revisit-query c s = ground arith

  -- The second pass, which starts below its target, takes the same candidates whatever the query is:
  -- no new term of the query is asked of them.
  pub second_pass-query :
      (target : ℕ) (s : Packing) (candidates : List Candidate)
      → second_pass (record r { query = query }) target false s candidates
        ≡ second_pass r target false s candidates
  unfolding second_pass
  second_pass-query target s [] = refl
  second_pass-query target s (c ∷ cs) =
      elim (Bool-cases (leb (max_evidence r) (length s.selected))) [
        | inl full ↦ rw (second_pass, full) refl
        | inr room ↦ elim (Option-cases (revisit r false c s)) [
          | inl skipped ↦
              rw (second_pass, room, revisit-query c s, skipped) (second_pass-query target s cs)
          | inr (t, chosen) ↦ elim (Bool-cases (leb target (length t.selected))) [
            | inl stop ↦ rw (second_pass, room, revisit-query c s, chosen, stop) refl
            | inr go ↦
                rw (second_pass, room, revisit-query c s, chosen, go)
                  (second_pass-query target t cs)
          ]
        ]
      ]
