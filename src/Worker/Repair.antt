-- ===== src/Worker/Repair.antt =====
-- src/wikipediarag/worker.py: `_repair_search_projection_document`, which brings the records of one document in
-- the search index in line with its chunks, in batches between renewals of the worker's lease. The fingerprint is
-- `projection_fingerprint` of src/wikipediarag/search_index.py. The index and the lease are an outside world `W`.
use Prim.Native.String.{compare}
use Prim.Native.Nat.{Ordering}
use wikipedia_rag.Common.{
  ℕ, zero, suc, max, String, Bool, true, false, List, [], ◌∷◌, ◌++◌, Option, none, some, ltb, ◌==◌,
  string_eq, nat_eq, if◌then◌else◌, map, contains, length, take,
}
use wikipedia_rag.Search.Groups.{sort_onto}
use wikipedia_rag.Search.Service.{drop}

pub record Chunk : Type 0 where
  pub id : String
  pub document_version_id : String
  pub content_hash : String
  pub publication_status : String

-- A record of the index: its `_id`, and what the code reads of its `_source`, with "" for what is missing.
pub record Stored : Type 0 where
  pub record_id : String
  pub chunk_id : String
  pub document_version_id : String
  pub content_hash : String
  pub publication_status : String

-- The row of `projection_fingerprint`, of an expected record and of a stored one.
abbrev pub expected_row : Chunk → List String
expected_row c = c.id ∷ c.document_version_id ∷ c.content_hash ∷ c.publication_status ∷ []

abbrev pub stored_row : Stored → List String
stored_row s = s.chunk_id ∷ s.document_version_id ∷ s.content_hash ∷ s.publication_status ∷ []

abbrev row_before : List String → List String → Bool
row_before [] t = true
row_before (a ∷ s) [] = false
row_before (a ∷ s) (b ∷ t) = elim (compare a b) [
  | Ordering.lt ↦ true
  | Ordering.gt ↦ false
  | Ordering.eq ↦ row_before s t
]

-- `stable_hash(sorted(rows), 64)`
unfoldable pub fingerprint : (List (List String) → String) → List (List String) → String
unfolding sort_onto
fingerprint stable_hash rows = stable_hash (sort_onto row_before rows [])

-- What happens to the index, newest first: a renewal of the lease and whether it is held, a deletion, a bulk write.
pub data IndexEvent : Type 0 where
  renewed : Bool → IndexEvent
  deleted : List String → IndexEvent
  indexed : List Chunk → IndexEvent

-- A call that returns, or that raises an exception.
pub data Called (A : Type 0) : Type 0 where
  returned : A → Called A
  raised : String → Called A

-- The world: reading the projection of the document, deleting records and writing chunks, each with the count
-- that it reports, and the guard of the lease, if there is one. A call may raise, also after a change, and other
-- workers may act in between.
pub record World (W : Type 0) : Type 0 where
  pub read_projection : W → Called (List Stored)
  pub delete_exact : List String → W → Called ℕ × W
  pub bulk_index : List Chunk → W → Called ℕ × W
  pub lease_guard : Option (W → Called Bool × W)

pub data Result : Type 0 where
  repaired : String → Result
  lease_lost : Result
  failed : String → Result

-- A stage that goes on, or one at which the repair stops, with the world and the events so far.
pub data Stage (W : Type 0) : Type 0 where
  goes_on : W → List IndexEvent → Stage W
  stops : Result → W → List IndexEvent → Stage W

abbrev pub then_stage : {W : Type 0} → Stage W → (W → List IndexEvent → Stage W) → Stage W
then_stage (goes_on w events) f = f w events
then_stage (stops r w events) f = stops r w events

-- `items[start : start + size]` for the starts in steps of `size`, on fuel.
unfoldable pub batches : {A : Type 0} → ℕ → ℕ → List A → List (List A)
batches zero size items = []
batches (suc fuel) size [] = []
batches (suc fuel) size (a ∷ items) =
    take size (a ∷ items) ∷ batches fuel size (drop size (a ∷ items))

-- The plan: records to delete, and chunks to write.
abbrev find_chunk : List Chunk → String → Option Chunk
find_chunk [] id = none
find_chunk (c ∷ chunks) id = elim (find_chunk chunks id) [
  | some later ↦ some later
  | none ↦ if c.id == id then some c else none
]

-- `stale_or_missing[chunk.id] = chunk`
abbrev set_chunk : Chunk → List Chunk → List Chunk
set_chunk c [] = c ∷ []
set_chunk c (d ∷ rest) = elim (d.id == c.id) [ true ↦ c ∷ rest | false ↦ d ∷ set_chunk c rest ]

pub record Plan : Type 0 where
  pub delete_ids : List String
  pub stale_or_missing : List Chunk
  pub observed_expected_ids : List String

module _ (stable_hash : List (List String) → String) (prefix : String → String)
    (chunks : List Chunk) where
  -- `record_id` is one of the ids `tenant:knowledge base:chunk`, for which `prefix` stands.
  abbrev expected_ids : List String
  expected_ids = map (λ c. prefix c.id) chunks

  unfoldable pub plan_record : Stored → Plan → Plan
  unfolding fingerprint
  plan_record s p = elim (find_chunk chunks s.chunk_id) [
    | none ↦ record p { delete_ids = p.delete_ids ++ s.record_id ∷ [] }
    | some c ↦
        if contains s.record_id expected_ids
        then record p {
          observed_expected_ids = s.record_id ∷ p.observed_expected_ids;
          stale_or_missing =
              if fingerprint stable_hash (expected_row c ∷ [])
                == fingerprint stable_hash (stored_row s ∷ [])
              then p.stale_or_missing
              else set_chunk c p.stale_or_missing;
        }
        else record p { delete_ids = p.delete_ids ++ s.record_id ∷ [] }
  ]

  unfoldable pub plan_records : List Stored → Plan → Plan
  unfolding plan_record
  plan_records [] p = p
  plan_records (s ∷ observed) p = plan_records observed (plan_record s p)

  -- The chunks that no observed record stands for.
  unfoldable pub plan_missing : List Chunk → Plan → Plan
  plan_missing [] p = p
  plan_missing (c ∷ rest) p = plan_missing rest (
      if contains (prefix c.id) p.observed_expected_ids
      then p
      else record p { stale_or_missing = set_chunk c p.stale_or_missing })

  unfoldable pub plan_of : List Stored → Plan
  unfolding plan_records plan_missing
  plan_of observed = plan_missing chunks (
      plan_records observed
        (record { delete_ids = []; stale_or_missing = []; observed_expected_ids = [] }))

-- The answer of the guard: the lease is renewed, or it is lost, or the guard raises.
unfoldable pub after_guard : {W : Type 0} → Called Bool × W → List IndexEvent → Stage W
after_guard (returned true, w) events = goes_on w (renewed true ∷ events)
after_guard (returned false, w) events = stops lease_lost w (renewed false ∷ events)
after_guard (raised error, w) events = stops (failed error) w events

-- The count that a change reports, against the one expected.
unfoldable pub after_change : {W : Type 0} → String → ℕ → Called ℕ × W → List IndexEvent → Stage W
after_change code expected (returned count, w) events =
    if count == expected then goes_on w events else stops (failed code) w events
after_change code expected (raised error, w) events = stops (failed error) w events

module _ {W : Type 0} (world : World W) where
  -- `require_lease`
  unfoldable pub require_lease : W → List IndexEvent → Stage W
  unfolding after_guard
  require_lease w events = elim world.lease_guard [
    | none ↦ goes_on w events
    | some guard ↦ after_guard (guard w) events
  ]

  -- One change of the index with its count, against the size of the batch.
  unfoldable pub apply_batch :
      {A : Type 0}
      → (List A → W → Called ℕ × W)
      → (List A → IndexEvent)
      → String
      → List A
      → W
      → List IndexEvent
      → Stage W
  unfolding after_change
  apply_batch change event code batch w events =
      after_change code (length batch) (change batch w) (event batch ∷ events)

  unfoldable pub run_batches :
      {A : Type 0}
      → (List A → W → Called ℕ × W)
      → (List A → IndexEvent)
      → String
      → List (List A)
      → W
      → List IndexEvent
      → Stage W
  unfolding require_lease apply_batch
  run_batches change event code [] w events = goes_on w events
  run_batches change event code (batch ∷ rest) w events =
      then_stage (require_lease w events) (λ w1 events1.
        then_stage (apply_batch change event code batch w1 events1) (λ w2 events2.
          then_stage (require_lease w2 events2) (run_batches change event code rest)))

  module _ (stable_hash : List (List String) → String) (prefix : String → String)
      (chunks : List Chunk) (limit mutation_batch : ℕ) where
    abbrev pub expected_fingerprint : String
    expected_fingerprint = fingerprint stable_hash (map expected_row chunks)

    abbrev pub observed_fingerprint : List Stored → String
    observed_fingerprint observed = fingerprint stable_hash (map stored_row observed)

    -- A reading of at most `limit` records with the expected fingerprint ends the repair; one with another
    -- fingerprint goes on as `differs` says.
    unfoldable pub judge :
        (List Stored → W → List IndexEvent → Stage W)
        → Called (List Stored)
        → W
        → List IndexEvent
        → Stage W
    unfolding fingerprint
    judge differs (raised error) w events = stops (failed error) w events
    judge differs (returned observed) w events =
        if ltb (max 1 limit) (length observed)
        then stops (failed "SEARCH_PROJECTION_DOCUMENT_TOO_LARGE") w events
        else if expected_fingerprint == observed_fingerprint observed
        then stops (repaired expected_fingerprint) w events
        else differs observed w events

    abbrev pub mismatch : List Stored → W → List IndexEvent → Stage W
    mismatch observed w events = stops (failed "SEARCH_PROJECTION_FINGERPRINT_MISMATCH") w events

    -- The read-back at the end.
    unfoldable pub confirm : W → List IndexEvent → Stage W
    unfolding judge
    confirm w events = judge mismatch (world.read_projection w) w events

    unfoldable pub delete_stage : Plan → W → List IndexEvent → Stage W
    unfolding run_batches batches
    delete_stage plan w events =
        run_batches world.delete_exact deleted "SEARCH_PROJECTION_DELETE_COUNT_MISMATCH"
          (batches (length plan.delete_ids) (max 1 mutation_batch) plan.delete_ids) w events

    unfoldable pub index_stage : Plan → W → List IndexEvent → Stage W
    unfolding run_batches batches
    index_stage plan w events =
        run_batches world.bulk_index indexed "SEARCH_PROJECTION_INDEX_COUNT_MISMATCH"
          (batches (length plan.stale_or_missing) (max 1 mutation_batch) plan.stale_or_missing) w
          events

    unfoldable pub write_back : Plan → W → List IndexEvent → Stage W
    unfolding index_stage confirm
    write_back plan w events = then_stage (index_stage plan w events) confirm

    unfoldable pub mutate : Plan → W → List IndexEvent → Stage W
    unfolding delete_stage write_back
    mutate plan w events = then_stage (delete_stage plan w events) (write_back plan)

    -- The repair after the first reading of the index.
    unfoldable pub compare_projection : W → List IndexEvent → Stage W
    unfolding judge mutate plan_of
    compare_projection w events =
        judge (λ observed. mutate (plan_of stable_hash prefix chunks observed))
          (world.read_projection w) w events

    -- The repair, where the chunks are loaded, and the index version of the read alias if there is one.
    unfoldable pub repair_document : Bool → W → Stage W
    unfolding compare_projection
    repair_document has_index_version w = then_stage (require_lease w []) (λ w1 events1.
        if has_index_version
        then compare_projection w1 events1
        else stops (failed "SEARCH_PROJECTION_INDEX_UNAVAILABLE") w1 events1)
