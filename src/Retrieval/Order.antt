-- ===== src/Retrieval/Order.antt =====
-- `_order_ambiguity_candidates`: the documents that come first, and nothing lost.
use wikipedia_rag.Common.{
  ℕ, ◌+◌, ◌≤◌, ◌<◌, min, String, Bool, true, false, not, ◌&&◌, ◌||◌, List, [], ◌∷◌, ◌++◌, ◌==◌,
  string_eq, ◌≡◌, refl, ◌∙◌, ap, arith, keep, contains, length, map, length-append, Bool-cases, inl,
  inr, sym, leb, ltb, eq_iff, ◌⊎◌, all, subst,
}
use mathlib.Core.List.{map-append}
use wikipedia_rag.Retrieval.Keys.{DistinctKeys, DistinctKeys-snoc, contains-snoc}
use wikipedia_rag.Retrieval.{Candidate, document_key, order_from, order_ambiguity_candidates}

module _ (p : Candidate → Bool) where
  keep-move :
      (selected remaining : List Candidate) (c : Candidate)
      → length (keep p ((selected ++ c ∷ []) ++ remaining))
        ≡ length (keep p (selected ++ remaining)) + length (keep p (c ∷ []))
  keep-move [] remaining c = ground arith
  keep-move (d ∷ selected) remaining c = ground (arith, keep-move selected remaining c)

  keep-later :
      (selected remaining : List Candidate) (c : Candidate)
      → length (keep p (selected ++ (remaining ++ c ∷ [])))
        ≡ length (keep p (selected ++ remaining)) + length (keep p (c ∷ []))
  keep-later [] [] c = ground arith
  keep-later [] (d ∷ remaining) c = ground (arith, keep-later [] remaining c)
  keep-later (d ∷ selected) remaining c = ground (arith, keep-later selected remaining c)

  order_from-keep :
      (limit : ℕ) (selected : List Candidate) (seen : List String) (remaining cs : List Candidate)
      → length (keep p (order_from limit selected seen remaining cs))
        ≡ length (keep p (selected ++ remaining)) + length (keep p cs)
  unfolding order_from
  order_from-keep limit selected seen remaining [] = omega arith
  order_from-keep limit selected seen remaining (c ∷ cs) = ground (
    arith,
    order_from-keep limit (selected ++ c ∷ []) (document_key c ∷ seen) remaining cs,
    order_from-keep limit selected seen (remaining ++ c ∷ []) cs,
    keep-move selected remaining c,
    keep-later selected remaining c,
  )

  -- The ordering loses and doubles no candidate: each test holds for as many after it as before it.
  pub order_ambiguity_candidates-keep :
      (candidates : List Candidate) (requested_top_k : ℕ) (ambiguous : Bool)
      → length (keep p (order_ambiguity_candidates candidates requested_top_k ambiguous))
        ≡ length (keep p candidates)
  unfolding order_ambiguity_candidates
  order_ambiguity_candidates-keep candidates k ambiguous =
      ground (arith, order_from-keep (min 8 (min k 12)) [] [] [] candidates)

abbrev documents : List Candidate → List String
documents cs = map document_key cs

-- `result` starts with elements of pairwise different documents: `limit` of them, or one of each
-- document that `cs` has.
pub record Diverse (limit : ℕ) (selected cs result : List Candidate) : Type 0 where
  first : List Candidate
  rest : List Candidate
  splits : result ≡ first ++ rest
  distinct : DistinctKeys (documents first)
  within : length first ≤ limit
  longer : length selected ≤ length first
  kept : (k : String) → contains k (documents selected) ≡ true → contains k (documents first) ≡ true
  covers :
      (length first ≡ limit) ⊎ (all (λ c. contains (document_key c) (documents first)) cs ≡ true)

covers-cons :
    (limit : ℕ) (c : Candidate) (cs first : List Candidate)
    → (length first ≡ limit) ⊎ (contains (document_key c) (documents first) ≡ true)
    → (length first ≡ limit) ⊎ (all (λ d. contains (document_key d) (documents first)) cs ≡ true)
    → (length first ≡ limit)
      ⊎ (all (λ d. contains (document_key d) (documents first)) (c ∷ cs) ≡ true)
covers-cons limit c cs first (inl full) h = inl full
covers-cons limit c cs first (inr here) (inl full) = inl full
covers-cons limit c cs first (inr here) (inr later) = inr (ground arith)

-- A candidate that is put first.
Diverse-shown :
    {limit : ℕ} {selected cs result : List Candidate} (c : Candidate)
    → Diverse limit (selected ++ c ∷ []) cs result
    → Diverse limit selected (c ∷ cs) result
Diverse-shown {limit} {selected} {cs} c v =
    let keys : (k : String)
        → contains k (documents (selected ++ c ∷ []))
          ≡ (contains k (documents selected) || document_key c == k) =
      λ k.
        ap (contains k) (map-append document_key selected (c ∷ []))
        ∙ contains-snoc k (documents selected) (document_key c) in
    record {
      first = v.first;
      rest = v.rest;
      splits = v.splits;
      distinct = v.distinct;
      within = v.within;
      longer = omega (arith, v.longer, length-append selected (c ∷ []));
      kept = λ k h. v.kept k (ground (arith, keys k));
      covers =
          covers-cons limit c cs v.first
            (inr (
              v.kept (document_key c)
                (ground (arith, keys (document_key c), eq_iff (document_key c) (document_key c)))))
            v.covers;
    }

-- A candidate that is left for later: its document is there, or there is no room.
Diverse-later :
    {limit : ℕ} {selected cs result : List Candidate} (c : Candidate)
    → (limit ≤ length selected) ⊎ (contains (document_key c) (documents selected) ≡ true)
    → Diverse limit selected cs result
    → Diverse limit selected (c ∷ cs) result
Diverse-later {limit} {selected} {cs} c h v = record {
  first = v.first;
  rest = v.rest;
  splits = v.splits;
  distinct = v.distinct;
  within = v.within;
  longer = v.longer;
  kept = v.kept;
  covers = covers-cons limit c cs v.first (here h) v.covers;
}
  where
    here :
        (limit ≤ length selected) ⊎ (contains (document_key c) (documents selected) ≡ true)
        → (length v.first ≡ limit) ⊎ (contains (document_key c) (documents v.first) ≡ true)
    here (inl full) = inl (omega (arith, v.longer, v.within))
    here (inr old) = inr (v.kept (document_key c) old)

left_for_later :
    (limit : ℕ) (selected : List Candidate) (seen : List String) (key : String)
    → ((k : String) → contains k seen ≡ contains k (documents selected))
    → (not (contains key seen) && ltb (length selected) limit) ≡ false
    → (limit ≤ length selected) ⊎ (contains key (documents selected) ≡ true)
left_for_later limit selected seen key track h = elim (Bool-cases (contains key seen)) [
  | inl old ↦ inr (ground (arith, track key))
  | inr new ↦ inl (ground arith)
]

order_from-Diverse :
    (limit : ℕ) (selected : List Candidate) (seen : List String) (remaining cs : List Candidate)
    → ((k : String) → contains k seen ≡ contains k (documents selected))
    → DistinctKeys (documents selected)
    → length selected ≤ limit
    → Diverse limit selected cs (order_from limit selected seen remaining cs)
unfolding order_from
order_from-Diverse limit selected seen remaining [] track d w = record {
  first = selected;
  rest = remaining;
  splits = refl;
  distinct = d;
  within = w;
  longer = omega arith;
  kept = λ k h. h;
  covers = inr refl;
}
order_from-Diverse limit selected seen remaining (c ∷ cs) track d w =
    let key = document_key c in
    let test = not (contains key seen) && ltb (length selected) limit in
    let shown_keys = map-append document_key selected (c ∷ []) in
    elim (Bool-cases test) [
      | inl shown ↦
          let track' : (k : String)
              → contains k (key ∷ seen) ≡ contains k (documents (selected ++ c ∷ [])) =
            λ k. ground (
              arith,
              track k,
              ap (contains k) shown_keys,
              contains-snoc k (documents selected) key,
            ) in
          let d' : DistinctKeys (documents (selected ++ c ∷ [])) =
            subst DistinctKeys (sym shown_keys)
              (DistinctKeys-snoc (documents selected) key d (ground (arith, track key))) in
          rw (order_from, shown)
            (Diverse-shown c (
              order_from-Diverse limit (selected ++ c ∷ []) (key ∷ seen) remaining cs track' d'
                (ground (arith, length-append selected (c ∷ [])))))
      | inr later ↦
          rw (order_from, later)
            (Diverse-later c (left_for_later limit selected seen key track later)
              (order_from-Diverse limit selected seen (remaining ++ c ∷ []) cs track d w))
    ]

-- In an ambiguity mode the ordering starts with candidates of pairwise different documents: as many as
-- the limit of the first pass, min 8 requested_top_k, or else one of each document there is.
pub order_ambiguity_candidates-Diverse :
    (candidates : List Candidate) (requested_top_k : ℕ)
    → 1 < length candidates
    → Diverse
        (min 8 requested_top_k)
        []
        candidates
        (order_ambiguity_candidates candidates requested_top_k true)
unfolding order_ambiguity_candidates
order_ambiguity_candidates-Diverse candidates k h =
    let e : min 8 (min k 12) ≡ min 8 k = omega arith in
    let many : leb (length candidates) 1 ≡ false = ground arith in
    rw (order_ambiguity_candidates, many, e)
      (order_from-Diverse (min 8 k) [] [] [] candidates (λ k. refl) tt (omega arith))
