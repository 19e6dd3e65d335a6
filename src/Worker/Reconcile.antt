-- ===== src/Worker/Reconcile.antt =====
-- src/wikipediarag/worker.py: the loop of `_process_search_projection_reconciliation_once` over the documents that a
-- worker has claimed. The repair of each runs in a world of the search index and the rows, in which other workers
-- run their statements between those of this one; the schedule before the loop and the cleanup after it are left out.
use wikipedia_rag.Common.{
  ℕ, String, Bool, false, List, [], ◌∷◌, ◌++◌, Option, some, if◌then◌else◌, ◌≡◌, ◌≢◌, refl, ap, ◌∙◌,
}
use wikipedia_rag.Worker.Leases.{
  Item, Step, is_owner, renew_lease, renews, finish_item, fail_item, run_steps,
}
use wikipedia_rag.Worker.Repair.{
  Chunk, Stored, IndexEvent, Called, returned, World, Result, repaired, lease_lost, failed, Stage,
  goes_on, stops, repair_document,
}
use wikipedia_rag.Worker.Fencing.{NoClaims, steps-owned}

-- What other workers run before the next statement of this one, and the `now()` of that statement.
pub record Turn : Type 0 where
  pub steps : List Step
  pub at : ℕ

-- The index, the rows, and the turns that are to come.
pub record Shared (I : Type 0) : Type 0 where
  pub index : I
  pub rows : List Item
  pub clock : ℕ
  pub turns : List Turn

-- The calls of the search index, the first for the records of a document.
pub record Index (I : Type 0) : Type 0 where
  pub read_document : String → I → Called (List Stored)
  pub delete_documents : List String → I → Called ℕ × I
  pub index_chunks : List Chunk → I → Called ℕ × I

-- A claimed document, with what the tables give for it.
pub record Attempt : Type 0 where
  pub document_id : String
  pub version_id : Option String
  pub record_id : String → String
  pub chunks : List Chunk
  pub has_index_version : Bool

-- The loop is through, or an exception has left it.
pub data Loop (I : Type 0) : Type 0 where
  finished : Shared I → Loop I
  aborted : Shared I → Loop I

abbrev pub then_loop : {I : Type 0} → Loop I → (Shared I → Loop I) → Loop I
then_loop (finished w) f = f w
then_loop (aborted w) f = aborted w

abbrev pub first_steps : List Turn → List Step
first_steps [] = []
first_steps (turn ∷ turns) = turn.steps

module _ {I : Type 0} where
  abbrev pub run_turn : List Turn → Shared I → Shared I
  run_turn [] w = w
  run_turn (turn ∷ turns) w = record w {
    rows = run_steps turn.steps w.rows;
    clock = turn.at;
    turns = turns;
  }

  -- The world in which the next statement of this worker runs.
  abbrev pub take_turn : Shared I → Shared I
  take_turn w = run_turn w.turns w

  -- The statements that others run before the statement after the next one.
  abbrev pub steps_after : Shared I → List Step
  steps_after w = first_steps (take_turn w).turns

  abbrev with_index : Called ℕ × I → Shared I → Called ℕ × Shared I
  with_index (answer, index) w = (answer, record w { index = index })

  -- The settings, and `lost_code`, the message of the RuntimeError that a lost lease raises; `code_of` is
  -- the error code that `safe_failure_from_exception` gives an exception.
  module _ (calls : Index I) (stable_hash : List (List String) → String) (code_of : String → String)
      (lease lost_code : String) (seconds interval max_attempts limit mutation_batch : ℕ) where
    -- `lease_guard`
    unfoldable pub guard : String → Shared I → Called Bool × Shared I
    unfolding renew_lease renews
    guard document_id w =
        let now = take_turn w in
        (
          returned (renews document_id lease now.clock now.rows),
          record now { rows = renew_lease document_id lease now.clock seconds now.rows },
        )

    unfoldable pub shared_world : String → World (Shared I)
    unfolding guard
    shared_world document_id = record {
      read_projection = λ w. calls.read_document document_id w.index;
      delete_exact = λ ids w. with_index (calls.delete_documents ids w.index) w;
      bulk_index = λ chunks w. with_index (calls.index_chunks chunks w.index) w;
      lease_guard = some (guard document_id);
    }

    unfoldable pub repair_attempt : Attempt → Shared I → Stage (Shared I)
    unfolding repair_document shared_world
    repair_attempt a w =
        repair_document (shared_world a.document_id) stable_hash a.record_id a.chunks limit
          mutation_batch a.has_index_version w

    -- `fail_search_projection_reconciliation` in the handler; its exception leaves the loop.
    unfoldable pub close_failed : String → String → Shared I → Loop I
    unfolding is_owner fail_item run_steps
    close_failed document_id error w =
        let now = take_turn w in
        if is_owner document_id lease now.rows
        then finished (record now {
          rows = fail_item document_id lease now.clock max_attempts (code_of error) now.rows;
        })
        else aborted now

    -- `finish_search_projection_reconciliation`, whose exception goes to the handler.
    unfoldable pub close_repaired : Attempt → String → Shared I → Loop I
    unfolding is_owner finish_item close_failed run_steps
    close_repaired a hash w =
        let now = take_turn w in
        if is_owner a.document_id lease now.rows
        then finished (record now {
          rows =
              finish_item a.document_id lease now.clock interval
                (record { version_id = a.version_id; expected_hash = hash; observed_hash = hash })
                now.rows;
        })
        else close_failed a.document_id lost_code now

    -- A repair always stops.
    unfoldable pub close : Attempt → Stage (Shared I) → Loop I
    unfolding close_repaired close_failed
    close a (stops (repaired hash) w events) = close_repaired a hash w
    close a (stops lease_lost w events) = finished w
    close a (stops (failed error) w events) = close_failed a.document_id error w
    close a (goes_on w events) = finished w

    unfoldable pub process_item : Attempt → Shared I → Loop I
    unfolding repair_attempt close
    process_item a w = close a (repair_attempt a w)

    unfoldable pub process_items : List Attempt → Shared I → Loop I
    unfolding process_item
    process_items [] w = finished w
    process_items (a ∷ attempts) w = then_loop (process_item a w) (process_items attempts)

    -- Where an exception leaves the loop after a result, only others have changed the rows.
    abbrev pub left_by_others : Result → Shared I → Shared I
    left_by_others (repaired hash) w = take_turn (take_turn w)
    left_by_others lease_lost w = w
    left_by_others (failed error) w = take_turn w

    close_failed-lost :
        (document_id error : String) (w : Shared I)
        → is_owner document_id lease (take_turn w).rows ≡ false
        → close_failed document_id error w ≡ aborted (take_turn w)
    unfolding close_failed
    close_failed-lost d error w n = rw (close_failed, n) refl

    run_turn-owned :
        (document_id : String) (turns : List Turn) (w : Shared I)
        → NoClaims lease (first_steps turns)
        → is_owner document_id lease w.rows ≡ false
        → is_owner document_id lease (run_turn turns w).rows ≡ false
    run_turn-owned d [] w h n = n
    run_turn-owned d (turn ∷ turns) w h n = steps-owned d lease turn.steps w.rows h n

    close-lost :
        (a : Attempt) (result : Result) (w : Shared I) (events : List IndexEvent)
        → result ≢ lease_lost
        → is_owner a.document_id lease (take_turn w).rows ≡ false
        → NoClaims lease (steps_after w)
        → close a (stops result w events) ≡ aborted (left_by_others result w)
    unfolding close close_repaired
    close-lost a lease_lost w events other n h = elim (other refl) [ ]
    close-lost a (failed error) w events other n h = close_failed-lost a.document_id error w n
    close-lost a (repaired hash) w events other n h =
        rw (close_repaired, n)
          (close_failed-lost a.document_id lost_code (take_turn w)
            (run_turn-owned a.document_id (take_turn w).turns (take_turn w) h n))

    process_items-append :
        (earlier later : List Attempt) (w : Shared I)
        → process_items (earlier ++ later) w
          ≡ then_loop (process_items earlier w) (process_items later)
    unfolding process_items
    process_items-append [] later w = refl
    process_items-append (a ∷ earlier) later w =
        through (process_item a w) (λ w1. process_items-append earlier later w1)
      where
        through :
            (l : Loop I)
            → ((w1 : Shared I)
                → process_items (earlier ++ later) w1
                  ≡ then_loop (process_items earlier w1) (process_items later))
            → then_loop l (process_items (earlier ++ later))
              ≡ then_loop (then_loop l (process_items earlier)) (process_items later)
        through (finished w1) ih = ih w1
        through (aborted w1) ih = refl

    -- Anywhere in the batch: when the repair of a document ends in any way but with a lost lease, and others have
    -- taken the row before the statement that closes it, the loop ends for all documents of the batch. From
    -- the end of that repair on only the statements of others have changed the rows, and no later
    -- document is repaired or closed. The worker claims nothing before its handler runs.
    pub process_items-lost :
        (earlier : List Attempt) (a : Attempt) (later : List Attempt) (w w0 w1 : Shared I)
        (result : Result) (events : List IndexEvent)
        → process_items earlier w ≡ finished w0
        → repair_attempt a w0 ≡ stops result w1 events
        → result ≢ lease_lost
        → is_owner a.document_id lease (take_turn w1).rows ≡ false
        → NoClaims lease (steps_after w1)
        → process_items (earlier ++ a ∷ later) w ≡ aborted (left_by_others result w1)
    unfolding process_items process_item
    process_items-lost earlier a later w w0 w1 result events before ends other n h =
        process_items-append earlier (a ∷ later) w
        ∙ ap (λ l. then_loop l (process_items (a ∷ later))) before
        ∙ ap (λ l. then_loop l (process_items later))
            (ap (close a) ends ∙ close-lost a result w1 events other n h)
