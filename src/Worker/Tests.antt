-- ===== src/Worker/Tests.antt =====
-- A reconciliation of one document by two workers, and the theorems of the leases at it.
use wikipedia_rag.Common.{
  ℕ, String, true, false, List, [], ◌∷◌, none, some, any, keep, map, not, contains, string_eq,
  length, ◌++◌, ◌≡◌, refl, arith,
}
use wikipedia_rag.Search.Groups.{sort_onto, insert}
use wikipedia_rag.Worker.Leases.{
  running, Item, candidates, claim_due, renew_lease, renews, is_owner, finish_item, fail_item,
  mark_due, Reconciled, Step, claim, renew, finish, reschedule, run_step, run_steps,
}
use wikipedia_rag.Worker.Fencing
use wikipedia_rag.Worker.Settled
use wikipedia_rag.Worker.Settled.{unsettled}
use wikipedia_rag.Search.Cursor.{append}
use wikipedia_rag.Worker.Repair.{
  returned, judge, after_guard, after_change, Chunk, Stored, World, Stage, stops, repaired, renewed,
  deleted, indexed, batches, repair_document, compare_projection, mutate, write_back, delete_stage,
  index_stage, confirm, run_batches, apply_batch, require_lease, plan_of, plan_missing,
  plan_records, plan_record, fingerprint,
}
use wikipedia_rag.Worker.Guarded
use wikipedia_rag.Worker.Guarded.{Ends}
use wikipedia_rag.Worker.Reconcile
use wikipedia_rag.Worker.Reconcile.{
  Attempt, Turn, Index, Shared, Loop, aborted, take_turn, close, close_failed, close_repaired,
  process_item, process_items, repair_attempt, shared_world, guard,
}

program : Unit {0}
unfolding run_steps run_step claim_due candidates sort_onto insert renew_lease renews is_owner
    finish_item fail_item mark_due repair_document compare_projection mutate write_back delete_stage
    index_stage confirm run_batches apply_batch require_lease plan_of plan_missing plan_records
    plan_record fingerprint process_items process_item close_repaired close_failed batches close
    repair_attempt shared_world guard judge after_guard after_change
program = tt

-- Scheduled at 0, and claimed by `a` at 5 for ten seconds.
abbrev scheduled : List Step
scheduled = reschedule "d" 0 none none ∷ claim "a" 5 10 4 (λ i. false) ∷ []

abbrev claimed_row : Item
claimed_row = record {
  document_id = "d";
  status = running;
  next_check_at = 0;
  attempts = 1;
  worker_lease_id = some "a";
  worker_lease_expires_at = some 15;
  expected_document_version_id = none;
  expected_projection_hash = none;
  observed_projection_hash = none;
  last_checked_at = some 5;
  last_success_at = none;
  last_error_code = none;
  updated_at = 5;
}

abbrev outcome : Reconciled
outcome = record { version_id = some "v"; expected_hash = "h"; observed_hash = "h" }

claims : run_steps scheduled [] ≡ claimed_row ∷ []
unfolding program
claims = refl

-- At 15 the lease still stands, and at 16 `b` takes the row.
abbrev taken : List Item
taken =
    record claimed_row {
      attempts = 2;
      worker_lease_id = some "b";
      worker_lease_expires_at = some 26;
      last_checked_at = some 16;
      updated_at = 16;
    }
    ∷ []

not_yet : run_step (claim "b" 15 10 4 (λ i. false)) (claimed_row ∷ []) ≡ claimed_row ∷ []
unfolding program
not_yet = refl

takes : run_step (claim "b" 16 10 4 (λ i. false)) (claimed_row ∷ []) ≡ taken
unfolding program
takes = refl

lost : is_owner "d" "a" taken ≡ false
unfolding program
lost = refl

fenced_example :
    (renews "d" "a" 20 (run_steps (renew "d" "b" 18 10 ∷ []) taken) ≡ false)
    × (finish_item "d" "a" 20 300 outcome (run_steps (renew "d" "b" 18 10 ∷ []) taken)
        ≡ run_steps (renew "d" "b" 18 10 ∷ []) taken)
    × (fail_item "d" "a" 20 5 "E" (run_steps (renew "d" "b" 18 10 ∷ []) taken)
        ≡ run_steps (renew "d" "b" 18 10 ∷ []) taken)
fenced_example =
    Fencing.fenced "d" "a" (renew "d" "b" 18 10 ∷ []) taken 20 300 5 outcome "E" (tt, tt) lost

abbrev rivals : List Step
rivals = claim "b" 15 10 4 (λ i. false) ∷ finish "d" "b" 15 300 outcome ∷ []

kept_example : renews "d" "a" 14 (run_steps rivals (claimed_row ∷ [])) ≡ true
kept_example =
    Fencing.kept "d" "a" 15 14 rivals (claimed_row ∷ []) (ground arith) (ground arith, (refl, tt))
      refl

abbrev finished : List Item
finished = run_step (finish "d" "a" 10 300 outcome) (claimed_row ∷ [])

reconciled : any (unsettled "d") finished ≡ false
unfolding program
reconciled = refl

-- Long after the 300 seconds a claim finds nothing.
settled_stays_example :
    any (unsettled "d") (run_steps (claim "b" 4000 10 4 (λ i. false) ∷ []) finished) ≡ false
settled_stays_example =
    Settled.settled_stays "d" (claim "b" 4000 10 4 (λ i. false) ∷ []) finished (tt, tt) reconciled

-- An index that does what it is told, under a lease that stands.
abbrev stored : Chunk → Stored
stored c = record {
  record_id = append "t:k:" c.id;
  chunk_id = c.id;
  document_version_id = c.document_version_id;
  content_hash = c.content_hash;
  publication_status = c.publication_status;
}

abbrev index : World (List Stored)
index = record {
  read_projection = λ w. returned w;
  delete_exact = λ ids w. (returned (length ids), keep (λ s. not (contains s.record_id ids)) w);
  bulk_index = λ cs w. (returned (length cs), w ++ map stored cs);
  lease_guard = some (λ w. (returned true, w));
}

abbrev chunk : String → Chunk
chunk id = record {
  id = id;
  document_version_id = "v2";
  content_hash = "h";
  publication_status = "published";
}

abbrev joined : List (List String) → String
joined [] = ""
joined (row ∷ rows) = append (join row) (append "|" (joined rows))
  where
    join : List String → String
    join [] = ""
    join (s ∷ texts) = append s (append "," (join texts))

abbrev old_record : Stored
old_record = record (stored (chunk "c9")) { document_version_id = "v1" }

abbrev run : Stage (List Stored)
run =
    repair_document index joined (append "t:k:") (chunk "c1" ∷ chunk "c2" ∷ []) 10 1 true
      (old_record ∷ [])

-- The stale record is deleted and the two chunks are written, one by one.
repairs :
    run
    ≡ stops
        (repaired "c1,v2,h,published,|c2,v2,h,published,|")
        (stored (chunk "c1") ∷ stored (chunk "c2") ∷ [])
        (renewed true
          ∷ indexed (chunk "c2" ∷ [])
          ∷ renewed true
          ∷ renewed true
          ∷ indexed (chunk "c1" ∷ [])
          ∷ renewed true
          ∷ renewed true
          ∷ deleted ("t:k:c9" ∷ [])
          ∷ renewed true
          ∷ renewed true
          ∷ [])
unfolding program
repairs = refl

-- Without a guard nothing is renewed.
repairs_unguarded :
    repair_document
      (record index { lease_guard = none })
      joined
      (append "t:k:")
      (chunk "c1" ∷ [])
      10
      1
      true
      []
    ≡ stops
        (repaired "c1,v2,h,published,|")
        (stored (chunk "c1") ∷ [])
        (indexed (chunk "c1" ∷ []) ∷ [])
unfolding program
repairs_unguarded = refl

repair_document-Ends_example : Ends index joined (chunk "c1" ∷ chunk "c2" ∷ []) true run
repair_document-Ends_example =
    Guarded.repair_document-Ends index joined (chunk "c1" ∷ chunk "c2" ∷ []) (append "t:k:") 10 1
      true (old_record ∷ [])

abbrev calls : Index (List Stored)
calls = record {
  read_document = λ d w. returned w;
  delete_documents = index.delete_exact;
  index_chunks = index.bulk_index;
}

abbrev attempt : String → Attempt
attempt document = record {
  document_id = document;
  version_id = some "v";
  record_id = append "t:k:";
  chunks = chunk "c1" ∷ [];
  has_index_version = true;
}

abbrev shared : List Item → List Turn → Shared (List Stored)
shared rows turns = record {
  index = stored (chunk "c1") ∷ [];
  rows = rows;
  clock = 5;
  turns = turns;
}

-- The batch of worker `a`, whose leases last ten seconds.
abbrev reconcile : List Attempt → Shared (List Stored) → Loop (List Stored)
reconcile = process_items calls joined (λ e. e) "a" "LOST" 10 300 5 10 1

abbrev quiet : ℕ → Turn
quiet at = record { steps = []; at = at }

-- The lease is renewed at 8 until 18, and the row is closed at 10.
closes :
    reconcile (attempt "d" ∷ []) (shared (claimed_row ∷ []) (quiet 8 ∷ quiet 10 ∷ []))
    ≡ Loop.finished (record {
      index = stored (chunk "c1") ∷ [];
      rows =
          run_step
            (finish "d" "a" 10 300 (record {
              version_id = some "v";
              expected_hash = "c1,v2,h,published,|";
              observed_hash = "c1,v2,h,published,|";
            }))
            (claimed_row ∷ []);
      clock = 10;
      turns = [];
    })
unfolding program
closes = refl

-- After the renewal at 8 the worker is held up, and `b` claims the row at 19 and `a` goes on at 20.
abbrev held_up : Shared (List Stored)
held_up =
    shared (claimed_row ∷ [])
      (quiet 8 ∷ record { steps = claim "b" 19 10 4 (λ i. false) ∷ []; at = 20 } ∷ quiet 21 ∷ [])

abbrev after_repair : Shared (List Stored)
after_repair = record {
  index = stored (chunk "c1") ∷ [];
  rows = renew_lease "d" "a" 8 10 (claimed_row ∷ []);
  clock = 8;
  turns = record { steps = claim "b" 19 10 4 (λ i. false) ∷ []; at = 20 } ∷ quiet 21 ∷ [];
}

repairs_before :
    repair_attempt calls joined (λ e. e) "a" "LOST" 10 300 5 10 1 (attempt "d") held_up
    ≡ stops (repaired "c1,v2,h,published,|") after_repair (renewed true ∷ [])
unfolding program
repairs_before = refl

loses : is_owner "d" "a" (take_turn after_repair).rows ≡ false
unfolding program
loses = refl

process_items-lost_example :
    reconcile ([] ++ attempt "d" ∷ attempt "e" ∷ []) held_up
    ≡ aborted (take_turn (take_turn after_repair))
unfolding process_items
process_items-lost_example =
    Reconcile.process_items-lost calls joined (λ e. e) "a" "LOST" 10 300 5 10 1 [] (attempt "d")
      (attempt "e" ∷ []) held_up held_up after_repair (repaired "c1,v2,h,published,|")
      (renewed true ∷ []) refl repairs_before (λ e. ground arith) loses tt
