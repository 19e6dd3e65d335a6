-- ===== src/Worker/Fencing.antt =====
-- A worker whose lease is gone changes nothing more, and a lease that has not run out is not taken.
use wikipedia_rag.Common.{
  ℕ, ◌≤◌, String, Bool, true, false, ◌&&◌, List, [], ◌∷◌, Option, none, some, ◌==◌, string_eq,
  nat_eq, any, contains, ◌≡◌, refl, ap₂, subst, sym, inl, inr, Bool-cases, arith, eq_iff,
}
use wikipedia_rag.Worker.Leases.{
  Item, held_by, is_held, update, claimable, candidates, claim_item, renewable, renews, owned,
  not_before, is_owner, finish_item, fail_item, Reconciled, Step, claim, renew, finish, fail,
  reschedule, run_step, run_steps,
}

-- A step does not give the lease out: it is no claim under it.
abbrev pub NoClaim : String → Step → Type 0
NoClaim lease (claim l now seconds batch_size locked) = (l == lease) ≡ false
NoClaim lease _ = Unit

abbrev pub NoClaims : String → List Step → Type 0
NoClaims lease [] = Unit
NoClaims lease (step ∷ steps) = NoClaim lease step × NoClaims lease steps

-- What holds of no row after a change held of none before it.
pub any-update :
    (p matched : Item → Bool) (change : Item → Item) (rows : List Item)
    → ((i : Item) → matched i ≡ true → p (change i) ≡ true → p i ≡ true)
    → any p rows ≡ false
    → any p (update matched change rows) ≡ false
any-update p matched change [] h n = refl
any-update p matched change (i ∷ rows) h n = elim (Bool-cases (matched i)) [
  | inl e ↦ ground (arith, h i e, any-update p matched change rows h)
  | inr e ↦ ground (arith, any-update p matched change rows h)
]

-- A row that a step changes is not, after it, under a lease that it was not under before.
step-owned :
    (document_id lease : String) (step : Step) (rows : List Item)
    → NoClaim lease step
    → is_owner document_id lease rows ≡ false
    → is_owner document_id lease (run_step step rows) ≡ false
unfolding run_step is_owner
step-owned d lease (claim l now seconds batch_size locked) rows h n =
    any-update (owned d lease)
      (λ i. claimable now i && contains i.document_id (candidates now batch_size locked rows))
      (claim_item l now seconds) rows (λ i m p. ground arith) n
step-owned d lease (renew e l now seconds) rows h n =
    any-update (owned d lease) (renewable e l now) _ rows (λ i m p. ground arith) n
step-owned d lease (finish e l now interval outcome) rows h n =
    any-update (owned d lease) (owned e l) _ rows (λ i m p. ground arith) n
step-owned d lease (fail e l now max_attempts code) rows h n =
    any-update (owned d lease) (owned e l) _ rows (λ i m p. ground arith) n
step-owned d lease (reschedule e now version hash) rows h n =
    elim (Bool-cases (any (λ i. i.document_id == e) rows)) [
      | inl t ↦
          rw (run_step, t)
            (any-update (owned d lease) (λ i. i.document_id == e) _ rows (λ i m p. ground arith) n)
      | inr t ↦ rw (run_step, t) (ground arith)
    ]

pub steps-owned :
    (document_id lease : String) (steps : List Step) (rows : List Item)
    → NoClaims lease steps
    → is_owner document_id lease rows ≡ false
    → is_owner document_id lease (run_steps steps rows) ≡ false
unfolding run_steps
steps-owned d lease [] rows h n = n
steps-owned d lease (step ∷ steps) rows h n =
    steps-owned d lease steps (run_step step rows) h.1 (step-owned d lease step rows h.0 n)

update-none :
    (matched : Item → Bool) (change : Item → Item) (rows : List Item)
    → any matched rows ≡ false
    → update matched change rows ≡ rows
update-none matched change [] h = refl
update-none matched change (i ∷ rows) h = elim (Bool-cases (matched i)) [
  | inl e ↦ ground arith
  | inr e ↦ ap₂ (λ j js. j ∷ js) (rw e refl) (update-none matched change rows (ground arith))
]

renews-owned :
    (document_id lease : String) (now : ℕ) (rows : List Item)
    → is_owner document_id lease rows ≡ false
    → renews document_id lease now rows ≡ false
unfolding renews is_owner
renews-owned d lease now [] h = refl
renews-owned d lease now (i ∷ rows) h = ground (arith, renews-owned d lease now rows)

-- A worker that has lost the row of a document stays fenced off: after any steps of any workers that do not
-- claim rows under its lease, it cannot renew the lease, and its results and failures change no row.
pub fenced :
    (document_id lease : String) (steps : List Step) (rows : List Item)
    (now interval max_attempts : ℕ) (outcome : Reconciled) (error_code : String)
    → NoClaims lease steps
    → is_owner document_id lease rows ≡ false
    → (renews document_id lease now (run_steps steps rows) ≡ false)
      × (finish_item document_id lease now interval outcome (run_steps steps rows)
          ≡ run_steps steps rows)
      × (fail_item document_id lease now max_attempts error_code (run_steps steps rows)
          ≡ run_steps steps rows)
unfolding finish_item fail_item is_owner
fenced d lease steps rows now interval max_attempts outcome code h n =
    let lost = steps-owned d lease steps rows h n in
    (
      renews-owned d lease now (run_steps steps rows) lost,
      update-none (owned d lease) _ (run_steps steps rows) lost,
      update-none (owned d lease) _ (run_steps steps rows) lost,
    )

-- A step of another worker, and a claim not after `until`; the document is not rescheduled.
abbrev pub Foreign : String → String → ℕ → Step → Type 0
Foreign document_id lease until (claim l now seconds batch_size locked) = now ≤ until
Foreign document_id lease until (renew d l now seconds) = (l == lease) ≡ false
Foreign document_id lease until (finish d l now interval outcome) = (l == lease) ≡ false
Foreign document_id lease until (fail d l now max_attempts code) = (l == lease) ≡ false
Foreign document_id lease until (reschedule d now version hash) = (d == document_id) ≡ false

abbrev pub AllForeign : String → String → ℕ → List Step → Type 0
AllForeign document_id lease until [] = Unit
AllForeign document_id lease until (step ∷ steps) =
    Foreign document_id lease until step × AllForeign document_id lease until steps

abbrev expires_at : ℕ → Option ℕ → Bool
expires_at until none = false
expires_at until (some t) = t == until

-- The row of a document under a lease that runs out at `until`.
abbrev pub held_until : String → String → ℕ → Item → Bool
held_until document_id lease until i =
    i.document_id == document_id && is_held lease i && expires_at until i.worker_lease_expires_at

any-update_apart :
    (p matched : Item → Bool) (change : Item → Item) (rows : List Item)
    → ((i : Item) → p i ≡ true → matched i ≡ false)
    → any p rows ≡ true
    → any p (update matched change rows) ≡ true
any-update_apart p matched change [] h n = n
any-update_apart p matched change (i ∷ rows) h n = elim (Bool-cases (p i)) [
  | inl e ↦ rw (h i e) (ground arith)
  | inr e ↦ ground (arith, any-update_apart p matched change rows h)
]

pub apart : (x a b : String) → (x == a) ≡ true → (b == a) ≡ false → (x == b) ≡ false
apart x a b h n =
    subst (λ y. (y == b) ≡ false) (sym ((eq_iff x a).0 h)) (ground (arith, eq_iff a b, eq_iff b a))

held_by-apart :
    (lease l : String) (o : Option String)
    → (l == lease) ≡ false
    → held_by lease o ≡ true
    → held_by l o ≡ false
held_by-apart lease l none n h = refl
held_by-apart lease l (some k) n h = apart k lease l h n

step-held_until :
    (document_id lease : String) (until : ℕ) (step : Step) (rows : List Item)
    → Foreign document_id lease until step
    → any (held_until document_id lease until) rows ≡ true
    → any (held_until document_id lease until) (run_step step rows) ≡ true
unfolding run_step
step-held_until d lease until (claim l now seconds batch_size locked) rows h n =
    any-update_apart (held_until d lease until)
      (λ i. claimable now i && contains i.document_id (candidates now batch_size locked rows))
      (claim_item l now seconds) rows (λ i m. ground arith) n
step-held_until d lease until (renew e l now seconds) rows h n =
    any-update_apart (held_until d lease until) (renewable e l now) _ rows
      (λ i m. ground (arith, held_by-apart lease l i.worker_lease_id h)) n
step-held_until d lease until (finish e l now interval outcome) rows h n =
    any-update_apart (held_until d lease until) (owned e l) _ rows
      (λ i m. ground (arith, held_by-apart lease l i.worker_lease_id h)) n
step-held_until d lease until (fail e l now max_attempts code) rows h n =
    any-update_apart (held_until d lease until) (owned e l) _ rows
      (λ i m. ground (arith, held_by-apart lease l i.worker_lease_id h)) n
step-held_until d lease until (reschedule e now version hash) rows h n =
    elim (Bool-cases (any (λ i. i.document_id == e) rows)) [
      | inl t ↦
          rw (run_step, t)
            (any-update_apart (held_until d lease until) (λ i. i.document_id == e) _ rows
              (λ i m. apart i.document_id d e (ground arith) h) n)
      | inr t ↦ rw (run_step, t) (ground arith)
    ]

steps-held_until :
    (document_id lease : String) (until : ℕ) (steps : List Step) (rows : List Item)
    → AllForeign document_id lease until steps
    → any (held_until document_id lease until) rows ≡ true
    → any (held_until document_id lease until) (run_steps steps rows) ≡ true
unfolding run_steps
steps-held_until d lease until [] rows h n = n
steps-held_until d lease until (step ∷ steps) rows h n =
    steps-held_until d lease until steps (run_step step rows) h.1
      (step-held_until d lease until step rows h.0 n)

until_reached :
    (until now : ℕ) (o : Option ℕ)
    → now ≤ until
    → expires_at until o ≡ true
    → not_before now o ≡ true
until_reached until now none l h = ground arith
until_reached until now (some t) l h = ground arith

held_until-renews :
    (document_id lease : String) (until now : ℕ) (rows : List Item)
    → now ≤ until
    → any (held_until document_id lease until) rows ≡ true
    → renews document_id lease now rows ≡ true
unfolding renews
held_until-renews d lease until now [] l h = ground arith
held_until-renews d lease until now (i ∷ rows) l h =
    elim (Bool-cases (held_until d lease until i)) [
      | inl e ↦ ground (arith, until_reached until now i.worker_lease_expires_at l)
      | inr e ↦ ground (arith, held_until-renews d lease until now rows l)
    ]

-- A lease that has not run out is its owner's: after any steps of other workers, with claims no later than
-- `until` and without a rescheduling of the document, the owner can still renew it up to `until`.
pub kept :
    (document_id lease : String) (until now : ℕ) (steps : List Step) (rows : List Item)
    → now ≤ until
    → AllForeign document_id lease until steps
    → any (held_until document_id lease until) rows ≡ true
    → renews document_id lease now (run_steps steps rows) ≡ true
kept d lease until now steps rows l h n =
    held_until-renews d lease until now (run_steps steps rows) l
      (steps-held_until d lease until steps rows h n)
