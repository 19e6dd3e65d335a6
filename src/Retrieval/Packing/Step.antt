-- ===== src/Retrieval/Packing/Step.antt =====
-- The passes as steps: each change of the variables, with what the code has tested before it.
use wikipedia_rag.Common.{
  ℕ, ◌<◌, String, false, ◌&&◌, none, List, [], ◌∷◌, length, ◌≡◌, refl, arith, suc, zero,
}
use wikipedia_rag.Retrieval.{Candidate}
use wikipedia_rag.Retrieval.Packing.{
  Request, Packing, Event, matched_negative_title, count_context_tokens, support_at, defer, admit,
  max_evidence, hash_of, unit_of, over_budget, document_full, seen,
}

abbrev pub Allowed : Request → Candidate → Type 0
Allowed r c = matched_negative_title r.python r.negative_titles c ≡ none

abbrev pub AllAllowed : Request → List Candidate → Type 0
AllAllowed r [] = Unit
AllAllowed r (c ∷ cs) = Allowed r c × AllAllowed r cs

-- A candidate is admitted only below the evidence limit, within the token budget, where its document
-- has room or it is exempt, where no negative title matches it, and, with dedup, when neither its hash
-- nor its unit is there.
pub data Step (r : Request) : Packing → Packing → Type 0 where
  logged : {s : Packing} (events : List Event) → Step r s (record s { events = events })
  deferred : {s : Packing} (c : Candidate) → Allowed r c → Step r s (defer c s)
  supported :
      {s : Packing} (i : ℕ) (chunk_id : String)
      → Step r s (record s { selected = support_at i chunk_id s.selected })
  admitted :
      {s : Packing} (c : Candidate)
      → length s.selected < max_evidence r
      → over_budget r (count_context_tokens r.python c.content) s ≡ false
      → document_full r c s ≡ false
      → (r.policy.dedup && seen r c s) ≡ false
      → Allowed r c
      → Step r s (admit c (hash_of r c) (unit_of r c) (count_context_tokens r.python c.content) s)

pub data Reach (r : Request) : Packing → Packing → Type 0 where
  done : {s : Packing} → Reach r s s
  next : {s t u : Packing} → Step r s t → Reach r t u → Reach r s u

pub Reach-trans : {r : Request} {s t u : Packing} → Reach r s t → Reach r t u → Reach r s u
Reach-trans done q = q
Reach-trans (next x p) q = next x (Reach-trans p q)

pub length-support_at :
    (i : ℕ) (chunk_id : String) (cs : List Candidate)
    → length (support_at i chunk_id cs) ≡ length cs
unfolding support_at
length-support_at i chunk_id [] = refl
length-support_at zero chunk_id (c ∷ cs) = refl
length-support_at (suc i) chunk_id (c ∷ cs) = omega (arith, length-support_at i chunk_id cs)
