-- ===== src/Retrieval/Packing/Rounds.antt =====
-- The first pass makes admitted steps alone.
use wikipedia_rag.Common.{
  ◌+◌, ◌<◌, String, Bool, true, false, not, ◌&&◌, List, [], ◌∷◌, leb, length, ◌≡◌, refl, arith,
  Bool-cases, Option-cases, inl, inr, if◌then◌else◌,
}
use wikipedia_rag.Retrieval.{Candidate, or_text, document_key, page_scope_key}
use wikipedia_rag.Retrieval.Packing.{
  Request, Packing, Event, matched_negative_title, count_context_tokens, mark_duplicate,
  max_evidence, expands, prepare, hash_of, unit_of, over_budget, document_full, seen, novel, emit,
  parent_expanded,
}
use wikipedia_rag.Retrieval.Packing.Passes.{
  ranked, select, visit_quotas, visit_prepared, visit, first_pass,
}
use wikipedia_rag.Retrieval.Packing.Step.{
  Allowed, logged, deferred, supported, admitted, Reach, done, next, Reach-trans, length-support_at,
}

module _ (r : Request) where
  -- The rank and the query context of a chosen candidate change none of the tests.
  select-Step :
      (p : Candidate) (s : Packing)
      → length s.selected < max_evidence r
      → over_budget r (count_context_tokens r.python p.content) s ≡ false
      → document_full r p s ≡ false
      → (r.policy.dedup && seen r p s) ≡ false
      → Allowed r p
      → Reach r s (select r p s)
  unfolding hash_of unit_of document_key matched_negative_title
  select-Step p s room fits full fresh clean =
      next (admitted (ranked p (length s.selected + 1)) room fits full fresh clean)
        (next (logged _) done)

  visit_quotas-Reach :
      (c p : Candidate) (s : Packing)
      → length s.selected < max_evidence r
      → Allowed r p
      → (r.policy.dedup && seen r p s) ≡ false
      → Reach r s (visit_quotas r c p s).0
  unfolding visit_quotas
  visit_quotas-Reach c p s room clean fresh =
      let quota =
        leb r.policy.page_quota (s.page_counts (page_scope_key c))
        && not (novel r p.content s.selected) in
      let tokens = count_context_tokens r.python p.content in
      elim (Bool-cases (document_full r p s)) [
        | inl full ↦ rw (visit_quotas, full) (next (deferred p clean) (next (logged _) done))
        | inr room' ↦ elim (Bool-cases quota) [
          | inl q ↦ rw (visit_quotas, room', q) (next (deferred p clean) (next (logged _) done))
          | inr q ↦ elim (Bool-cases (over_budget r tokens s)) [
            | inl over ↦ rw (visit_quotas, room', q, over) (next (logged _) done)
            | inr fits ↦
                rw (visit_quotas, room', q, fits) (select-Step p s room fits room' fresh clean)
          ]
        ]
      ]

  prepare-Allowed : (c : Candidate) → Allowed r c → Allowed r (prepare r c)
  unfolding prepare matched_negative_title
  prepare-Allowed c h = h

  duplicate-Reach :
      (unit chunk_id : String) (events : List Event) (s : Packing)
      → Reach r s (record (mark_duplicate unit chunk_id s) { events = events })
  duplicate-Reach unit chunk_id events s = elim (Option-cases (s.seen_units unit)) [
    | inl new ↦ rw (mark_duplicate, new) (next (logged _) done)
    | inr (i, old) ↦ rw (mark_duplicate, old) (next (supported i chunk_id) (next (logged _) done))
  ]

  visit_prepared-Reach :
      (c p : Candidate) (s : Packing)
      → length s.selected < max_evidence r
      → Allowed r p
      → Reach r s (visit_prepared r c p s).0
  unfolding visit_prepared
  visit_prepared-Reach c p s room clean = elim (Bool-cases (r.policy.dedup && seen r p s)) [
    | inl old ↦ rw (visit_prepared, old) (duplicate-Reach _ _ _ s)
    | inr fresh ↦ rw (visit_prepared, fresh) (visit_quotas-Reach c p s room clean fresh)
  ]

  visit_expanded-Reach :
      (c p : Candidate) (s : Packing) (b : Bool)
      → length s.selected < max_evidence r
      → Allowed r p
      → Reach r s (visit_prepared r c p (if b then emit c parent_expanded s else s)).0
  visit_expanded-Reach c p s true room clean =
      next (logged _) (visit_prepared-Reach c p (emit c parent_expanded s) room clean)
  visit_expanded-Reach c p s false room clean = visit_prepared-Reach c p s room clean

  -- A round of the first pass makes steps alone.
  visit-Reach :
      (c : Candidate) (s : Packing) → length s.selected < max_evidence r → Reach r s (visit r c s).0
  unfolding visit
  visit-Reach c s room = elim (Option-cases (matched_negative_title r.python r.negative_titles c)) [
    | inr (title, negative) ↦ rw (visit, negative) (next (logged _) done)
    | inl clean ↦
        rw (visit, clean)
          (visit_expanded-Reach c (prepare r c) s (expands r c) room (prepare-Allowed c clean))
  ]

  visit_quotas-length :
      (c p : Candidate) (s : Packing)
      → (visit_quotas r c p s).1 ≡ false
      → length (visit_quotas r c p s).0.selected ≡ length s.selected
  unfolding visit_quotas
  visit_quotas-length c p s h = ground arith

  mark_duplicate-length :
      (unit chunk_id : String) (s : Packing)
      → length (mark_duplicate unit chunk_id s).selected ≡ length s.selected
  mark_duplicate-length unit chunk_id s = elim (Option-cases (s.seen_units unit)) [
    | inl new ↦ rw (mark_duplicate, new) refl
    | inr (i, old) ↦ rw (mark_duplicate, old) (length-support_at i chunk_id s.selected)
  ]

  visit_prepared-length :
      (c p : Candidate) (s : Packing)
      → (visit_prepared r c p s).1 ≡ false
      → length (visit_prepared r c p s).0.selected ≡ length s.selected
  unfolding visit_prepared
  visit_prepared-length c p s h = ground (
    arith,
    visit_quotas-length c p s,
    mark_duplicate-length (unit_of r p) (or_text c.chunk_id "") s,
  )

  -- A round that selects nothing leaves the count.
  visit-length :
      (c : Candidate) (s : Packing)
      → (visit r c s).1 ≡ false
      → length (visit r c s).0.selected ≡ length s.selected
  unfolding visit
  visit-length c s h = ground (
    arith,
    visit_prepared-length c (prepare r c) s,
    visit_prepared-length c (prepare r c) (emit c parent_expanded s),
  )

  pub first_pass-Reach :
      (s : Packing) (cs : List Candidate)
      → length s.selected < max_evidence r
      → Reach r s (first_pass r s cs)
  unfolding first_pass
  first_pass-Reach s [] room = done
  first_pass-Reach s (c ∷ cs) room =
      let (t, chosen) = visit r c s in
      let round : Reach r s t = visit-Reach c s room in
      elim (Bool-cases (chosen && leb (max_evidence r) (length t.selected))) [
        | inl stop ↦ rw (first_pass, stop) round
        | inr go ↦
            rw (first_pass, go)
              (Reach-trans round (first_pass-Reach t cs (ground (arith, visit-length c s))))
      ]
