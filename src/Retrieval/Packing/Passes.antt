-- ===== src/Retrieval/Packing/Passes.antt =====
-- The two passes of `postprocess_candidates`.
use wikipedia_rag.Common.{
  ℕ, ◌+◌, min, Bool, true, false, not, ◌&&◌, ◌||◌, Option, none, some, List, [], ◌∷◌, ◌++◌, ltb,
  leb, length, if◌then◌else◌,
}
use wikipedia_rag.Retrieval.{QueryContext, Metadata, Candidate, or_text, page_scope_key}
use wikipedia_rag.Retrieval.Packing.{
  Request, Packing, Event, explicit_negative_title, parent_expanded, near_duplicate,
  document_unit_quota, page_quota, token_budget, selected_for_context,
  novel_requirement_quota_overflow, evidence_target, matched_negative_title, count_context_tokens,
  emit, mark_duplicate, defer, admit, set_rank, max_evidence, document_limit, expands, prepare,
  hash_of, unit_of, seen, novel, over_budget, document_full,
}

-- `metadata["query_context"] = ...` and its two ids, for a context that is there.
abbrev pub with_query_context : Option QueryContext → Metadata → Metadata
with_query_context context m = record m {
  query_context = elim context [ none ↦ m.query_context | some q ↦ some q ];
  subquery_id = elim context [ none ↦ m.subquery_id | some q ↦ q.subquery_id ];
  transform_id = elim context [ none ↦ m.transform_id | some q ↦ q.transform_id ];
}

abbrev pub ranked : Candidate → ℕ → Candidate
ranked c rank = record c {
  ranks = set_rank c.ranks "final" rank;
  metadata = with_query_context c.query_context c.metadata;
}

-- `metadata["quota_overflow"] = True`, and the final rank.
abbrev pub overflowed : Candidate → ℕ → Candidate
overflowed c rank = record c {
  ranks = set_rank c.ranks "final" rank;
  metadata = record (c.metadata) { quota_overflow = true };
}

abbrev pub empty : Packing
empty = record {
  selected = [];
  page_counts = λ k. 0;
  document_counts = λ k. 0;
  seen_hashes = [];
  seen_units = λ u. none;
  deferred = [];
  used_tokens = 0;
  events = [];
}

module _ (r : Request) where
  abbrev pub select : Candidate → Packing → Packing
  select p s =
      let tokens = count_context_tokens r.python p.content in
      let rank = length s.selected + 1 in
      let chosen = ranked p rank in
      emit chosen (selected_for_context tokens rank)
        (admit chosen (hash_of r p) (unit_of r p) tokens s)

  -- The quotas and the budget, for a candidate `c` that `p` is prepared from; the flag says that it was
  -- selected.
  unfoldable pub visit_quotas : Candidate → Candidate → Packing → Packing × Bool
  visit_quotas c p s =
      let tokens = count_context_tokens r.python p.content in
      elim (document_full r p s) [
        | true ↦ (emit c (document_unit_quota (document_limit r)) (defer p s), false)
        | false ↦
            elim (leb r.policy.page_quota (s.page_counts (page_scope_key c))
              && not (novel r p.content s.selected)) [
                | true ↦ (emit c (page_quota r.policy.page_quota) (defer p s), false)
                | false ↦ elim (over_budget r tokens s) [
                  | true ↦ (
                    emit c (token_budget r.policy.max_context_tokens s.used_tokens tokens) s,
                    false,
                  )
                  | false ↦ (select p s, true)
                ]
              ]
      ]

  -- The rest of a round, once the candidate is prepared.
  unfoldable pub visit_prepared : Candidate → Candidate → Packing → Packing × Bool
  unfolding visit_quotas
  visit_prepared c p s = elim (r.policy.dedup && seen r p s) [
    | true ↦ (
      emit c (near_duplicate (hash_of r p))
          (mark_duplicate (unit_of r p) (or_text c.chunk_id "") s),
      false,
    )
    | false ↦ visit_quotas c p s
  ]

  -- One round of the first pass.
  unfoldable pub visit : Candidate → Packing → Packing × Bool
  unfolding visit_prepared
  visit c s = elim (matched_negative_title r.python r.negative_titles c) [
    | some title ↦ (emit c (explicit_negative_title title) s, false)
    | none ↦ visit_prepared c (prepare r c) (if expands r c then emit c parent_expanded s else s)
  ]

  unfoldable pub first_pass : Packing → List Candidate → Packing
  unfolding visit
  first_pass s [] = s
  first_pass s (c ∷ candidates) =
      let (s', chosen) = visit c s in
      elim (chosen && leb (max_evidence r) (length s'.selected)) [
        | true ↦ s'
        | false ↦ first_pass s' candidates
      ]

  abbrev pub overflow : Candidate → Packing → Packing
  overflow c s =
      let rank = length s.selected + 1 in
      let chosen = overflowed c rank in
      emit chosen (novel_requirement_quota_overflow rank)
        (admit chosen (hash_of r c) (unit_of r c) (count_context_tokens r.python c.content) s)

  -- One round of the second pass; `none` is `continue`.
  unfoldable pub revisit : Bool → Candidate → Packing → Option Packing
  revisit target_met c s =
      let tokens = count_context_tokens r.python c.content in
      elim (seen r c s
        || (not (novel r c.content s.selected) && target_met)
        || over_budget r tokens s
        || document_full r c s) [ true ↦ none | false ↦ some (overflow c s) ]

  unfoldable pub second_pass : ℕ → Bool → Packing → List Candidate → Packing
  unfolding revisit
  second_pass target target_met s [] = s
  second_pass target target_met s (c ∷ candidates) =
      elim (leb (max_evidence r) (length s.selected)) [
        | true ↦ s
        | false ↦ elim (revisit target_met c s) [
          | none ↦ second_pass target target_met s candidates
          | some s' ↦ elim (leb target (length s'.selected)) [
            | true ↦ s'
            | false ↦ second_pass target false s' candidates
          ]
        ]
      ]

  -- The variables after both passes.
  unfoldable pub packed : List Candidate → Packing
  unfolding first_pass second_pass
  packed candidates =
      let s = first_pass empty candidates in
      let target = min r.policy.final_evidence_min (max_evidence r) in
      elim (ltb (length s.selected) target) [
        | true ↦ second_pass target (leb target (length s.selected)) s s.deferred
        | false ↦ s
      ]

  unfoldable pub postprocess_candidates : List Candidate → List Candidate × List Event
  unfolding packed
  postprocess_candidates candidates =
      let s = packed candidates in
      let target = min r.policy.final_evidence_min (max_evidence r) in
      (s.selected, s.events ++ evidence_target target (leb target (length s.selected)) ∷ [])
