-- ===== src/Worker/Settled.antt =====
-- A reconciled document is not looked at again by itself.
use wikipedia_rag.Common.{
  String, Bool, true, false, not, ◌&&◌, List, [], ◌∷◌, ◌==◌, string_eq, any, contains, ◌≡◌, inl,
  inr, Bool-cases, arith, eq_iff,
}
use wikipedia_rag.Worker.Leases.{
  ItemStatus, ok, Item, claimable, candidates, claim_item, renewable, owned, Step, claim, renew,
  finish, fail, reschedule, run_step, run_steps,
}
use wikipedia_rag.Worker.Fencing.{any-update, apart}

abbrev is_ok : ItemStatus → Bool
is_ok ok = true
is_ok _ = false

-- A row of the document that is not reconciled.
abbrev pub unsettled : String → Item → Bool
unsettled document_id i = i.document_id == document_id && not (is_ok i.status)

-- A step that does not reschedule the document.
abbrev pub Calm : String → Step → Type 0
Calm document_id (reschedule d now version hash) = (d == document_id) ≡ false
Calm document_id _ = Unit

abbrev pub AllCalm : String → List Step → Type 0
AllCalm document_id [] = Unit
AllCalm document_id (step ∷ steps) = Calm document_id step × AllCalm document_id steps

step-settled :
    (document_id : String) (step : Step) (rows : List Item)
    → Calm document_id step
    → any (unsettled document_id) rows ≡ false
    → any (unsettled document_id) (run_step step rows) ≡ false
unfolding run_step
step-settled d (claim l now seconds batch_size locked) rows h n =
    any-update (unsettled d)
      (λ i. claimable now i && contains i.document_id (candidates now batch_size locked rows))
      (claim_item l now seconds) rows (λ i m p. ground arith) n
step-settled d (renew e l now seconds) rows h n =
    any-update (unsettled d) (renewable e l now) _ rows (λ i m p. ground arith) n
step-settled d (finish e l now interval outcome) rows h n =
    any-update (unsettled d) (owned e l) _ rows (λ i m p. ground arith) n
step-settled d (fail e l now max_attempts code) rows h n =
    any-update (unsettled d) (owned e l) _ rows (λ i m p. ground arith) n
step-settled d (reschedule e now version hash) rows h n =
    elim (Bool-cases (any (λ i. i.document_id == e) rows)) [
      | inl t ↦
          rw (run_step, t)
            (any-update (unsettled d) (λ i. i.document_id == e) _ rows
              (λ i m p.
                ground (arith, apart i.document_id e d m (ground (arith, eq_iff d e, eq_iff e d))))
              n)
      | inr t ↦ rw (run_step, t) (ground arith)
    ]

-- Once every row of a document is reconciled, it stays so through any steps of any workers at any times that
-- do not reschedule the document: the next check that a finished repair writes into its row is never made.
pub settled_stays :
    (document_id : String) (steps : List Step) (rows : List Item)
    → AllCalm document_id steps
    → any (unsettled document_id) rows ≡ false
    → any (unsettled document_id) (run_steps steps rows) ≡ false
unfolding run_steps
settled_stays d [] rows h n = n
settled_stays d (step ∷ steps) rows h n =
    settled_stays d steps (run_step step rows) h.1 (step-settled d step rows h.0 n)
