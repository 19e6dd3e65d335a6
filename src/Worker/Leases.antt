-- ===== src/Worker/Leases.antt =====
-- src/wikipediarag/repository.py: the rows of search_projection_reconciliation and the statements that claim,
-- renew, finish, fail and reschedule them. Each statement is one atomic step at a reading of `now()` in seconds.
use wikipedia_rag.Common.{
  ℕ, ◌+◌, ◌^◌, min, max, String, Bool, true, false, not, ◌&&◌, ◌||◌, List, [], ◌∷◌, Option, none,
  some, ltb, leb, ◌==◌, string_eq, nat_eq, if◌then◌else◌, map, any, keep, take, contains,
}
use wikipedia_rag.Search.Groups.{sort_onto}

pub data ItemStatus : Type 0 where
  due degraded running ok : ItemStatus

abbrev pub is_running : ItemStatus → Bool
is_running running = true
is_running _ = false

abbrev is_waiting : ItemStatus → Bool
is_waiting due = true
is_waiting degraded = true
is_waiting _ = false

pub record Item : Type 0 where
  pub document_id : String
  pub status : ItemStatus
  pub next_check_at : ℕ
  pub attempts : ℕ
  pub worker_lease_id : Option String
  pub worker_lease_expires_at : Option ℕ
  pub expected_document_version_id : Option String
  pub expected_projection_hash : Option String
  pub observed_projection_hash : Option String
  pub last_checked_at : Option ℕ
  pub last_success_at : Option ℕ
  pub last_error_code : Option String
  pub updated_at : ℕ

-- A comparison with NULL holds for no row.
abbrev pub held_by : String → Option String → Bool
held_by lease none = false
held_by lease (some l) = l == lease

abbrev before_now : ℕ → Option ℕ → Bool
before_now now none = false
before_now now (some t) = ltb t now

abbrev pub not_before : ℕ → Option ℕ → Bool
not_before now none = false
not_before now (some t) = leb now t

-- `status = 'running' AND worker_lease_id = :lease_id`
abbrev pub is_held : String → Item → Bool
is_held lease i = is_running i.status && held_by lease i.worker_lease_id

-- `UPDATE ... SET ... WHERE`
abbrev pub update : (Item → Bool) → (Item → Item) → List Item → List Item
update matched change rows = map (λ i. if matched i then change i else i) rows

abbrev pub claimable : ℕ → Item → Bool
claimable now i =
    (is_waiting i.status || (is_running i.status && before_now now i.worker_lease_expires_at))
    && leb i.next_check_at now

abbrev check_before : Item → Item → Bool
check_before i j =
    ltb i.next_check_at j.next_check_at
    || (i.next_check_at == j.next_check_at && leb i.updated_at j.updated_at)

-- The ids of the candidate rows, where `locked` rows belong to another transaction.
unfoldable pub candidates : ℕ → ℕ → (Item → Bool) → List Item → List String
unfolding sort_onto
candidates now batch_size locked rows =
    map (λ i. i.document_id)
      (take (max 1 batch_size)
        (sort_onto check_before (keep (λ i. claimable now i && not (locked i)) rows) []))

abbrev pub claim_item : String → ℕ → ℕ → Item → Item
claim_item lease now seconds i = record i {
  status = running;
  attempts = i.attempts + 1;
  worker_lease_id = some lease;
  worker_lease_expires_at = some (now + max 1 seconds);
  last_checked_at = some now;
  updated_at = now;
}

-- `claim_due_search_projection_reconciliations`: the rows after it; it returns those it claims.
unfoldable pub claim_due : String → ℕ → ℕ → ℕ → (Item → Bool) → List Item → List Item
unfolding candidates
claim_due lease now seconds batch_size locked rows =
    update (λ i. claimable now i && contains i.document_id (candidates now batch_size locked rows))
      (claim_item lease now seconds) rows

abbrev pub renewable : String → String → ℕ → Item → Bool
renewable document_id lease now i =
    i.document_id == document_id && is_held lease i && not_before now i.worker_lease_expires_at

-- `renew_search_projection_reconciliation_lease`, and whether it renews.
unfoldable pub renew_lease : String → String → ℕ → ℕ → List Item → List Item
renew_lease document_id lease now seconds rows =
    update (renewable document_id lease now)
      (λ i. record i { worker_lease_expires_at = some (now + max 1 seconds); updated_at = now })
      rows

unfoldable pub renews : String → String → ℕ → List Item → Bool
renews document_id lease now rows = any (renewable document_id lease now) rows

abbrev pub owned : String → String → Item → Bool
owned document_id lease i = i.document_id == document_id && is_held lease i

-- `finish_search_projection_reconciliation` and `fail_search_projection_reconciliation` raise
-- SEARCH_PROJECTION_LEASE_LOST when no row is updated.
unfoldable pub is_owner : String → String → List Item → Bool
is_owner document_id lease rows = any (owned document_id lease) rows

pub record Reconciled : Type 0 where
  pub version_id : Option String
  pub expected_hash : String
  pub observed_hash : String

unfoldable pub finish_item : String → String → ℕ → ℕ → Reconciled → List Item → List Item
finish_item document_id lease now interval outcome rows =
    update (owned document_id lease)
      (λ i. record i {
        status = ok;
        next_check_at = now + max 1 interval;
        last_success_at = some now;
        worker_lease_id = none;
        worker_lease_expires_at = none;
        expected_document_version_id = outcome.version_id;
        expected_projection_hash = some outcome.expected_hash;
        observed_projection_hash = some outcome.observed_hash;
        last_error_code = none;
        updated_at = now;
      })
      rows

-- Seconds until the next check after a failure.
abbrev pub retry_delay : ℕ → ℕ → ℕ
retry_delay max_attempts attempts =
    if leb max_attempts attempts then 3600 else min 300 (2 ^ min attempts 8)

unfoldable pub fail_item : String → String → ℕ → ℕ → String → List Item → List Item
fail_item document_id lease now max_attempts error_code rows =
    update (owned document_id lease)
      (λ i. record i {
        status = if leb max_attempts i.attempts then degraded else due;
        next_check_at = now + retry_delay max_attempts i.attempts;
        worker_lease_id = none;
        worker_lease_expires_at = none;
        last_error_code = some error_code;
        updated_at = now;
      })
      rows

abbrev coalesce : Option String → Option String → Option String
coalesce none old = old
coalesce (some new) old = some new

abbrev new_item : String → ℕ → Option String → Option String → Item
new_item document_id now version_id hash = record {
  document_id = document_id;
  status = due;
  next_check_at = now;
  attempts = 0;
  worker_lease_id = none;
  worker_lease_expires_at = none;
  expected_document_version_id = version_id;
  expected_projection_hash = hash;
  observed_projection_hash = none;
  last_checked_at = none;
  last_success_at = none;
  last_error_code = none;
  updated_at = now;
}

-- `mark_search_projection_reconciliation_due`: an INSERT, or on conflict an UPDATE.
unfoldable pub mark_due : String → ℕ → Option String → Option String → List Item → List Item
mark_due document_id now version_id hash rows =
    if any (λ i. i.document_id == document_id) rows
    then update (λ i. i.document_id == document_id)
        (λ i. record i {
          status = due;
          next_check_at = now;
          worker_lease_id = none;
          worker_lease_expires_at = none;
          expected_document_version_id = coalesce version_id i.expected_document_version_id;
          expected_projection_hash = coalesce hash i.expected_projection_hash;
          updated_at = now;
        })
        rows
    else new_item document_id now version_id hash ∷ rows

-- A statement that some worker runs. The historical scan, which adds rows of documents that have none, is left out.
pub data Step : Type 0 where
  claim : String → ℕ → ℕ → ℕ → (Item → Bool) → Step
  renew : String → String → ℕ → ℕ → Step
  finish : String → String → ℕ → ℕ → Reconciled → Step
  fail : String → String → ℕ → ℕ → String → Step
  reschedule : String → ℕ → Option String → Option String → Step

unfoldable pub run_step : Step → List Item → List Item
unfolding claim_due renew_lease finish_item fail_item mark_due
run_step (claim lease now seconds batch_size locked) rows =
    claim_due lease now seconds batch_size locked rows
run_step (renew document_id lease now seconds) rows = renew_lease document_id lease now seconds rows
run_step (finish document_id lease now interval outcome) rows =
    finish_item document_id lease now interval outcome rows
run_step (fail document_id lease now max_attempts error_code) rows =
    fail_item document_id lease now max_attempts error_code rows
run_step (reschedule document_id now version_id hash) rows =
    mark_due document_id now version_id hash rows

unfoldable pub run_steps : List Step → List Item → List Item
unfolding run_step
run_steps [] rows = rows
run_steps (step ∷ steps) rows = run_steps steps (run_step step rows)
