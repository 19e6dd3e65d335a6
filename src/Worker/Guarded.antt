-- ===== src/Worker/Guarded.antt =====
-- The repair of a projection changes the index under the lease, and ends as it says.
use wikipedia_rag.Common.{
  ℕ, max, String, Bool, true, false, not, ◌&&◌, ◌||◌, List, [], ◌∷◌, ltb, ◌==◌, nat_eq, string_eq,
  map, length, ◌≡◌, refl, sym, inl, inr, Bool-cases, Option-cases, none, some, ◌∙◌, arith, eq_iff,
}
use wikipedia_rag.Worker.Repair.{
  Called, returned, raised, Stored, after_guard, after_change, judge, mismatch, Chunk, expected_row,
  stored_row, fingerprint, IndexEvent, renewed, deleted, indexed, World, repaired, lease_lost,
  failed, Stage, goes_on, stops, then_stage, batches, Plan, plan_of, require_lease, apply_batch,
  run_batches, expected_fingerprint, observed_fingerprint, confirm, delete_stage, index_stage,
  write_back, mutate, compare_projection, repair_document,
}

-- No renewal has failed.
abbrev pub alive : List IndexEvent → Bool
alive [] = true
alive (renewed b ∷ events) = b && alive events
alive (_ ∷ events) = alive events

abbrev just_renewed : List IndexEvent → Bool
just_renewed (renewed b ∷ events) = b
just_renewed _ = false

-- With a guard each change follows directly on a renewal that succeeded, and without one nothing is renewed;
-- nothing follows on a renewal that failed.
abbrev pub guarded : Bool → List IndexEvent → Bool
guarded guards [] = true
guarded guards (renewed b ∷ events) = guards && alive events && guarded guards events
guarded guards (_ ∷ events) =
    (not guards || just_renewed events) && alive events && guarded guards events

-- Whether there is a guard of the lease.
abbrev pub guards : {W : Type 0} → World W → Bool
guards world = elim world.lease_guard as (λ _. Bool) [ none ↦ false | some guard ↦ true ]

module _ {W : Type 0} (world : World W) (stable_hash : List (List String) → String)
    (chunks : List Chunk) where
  -- An end of the repair. A repaired document reads back with the fingerprint of its chunks, which is returned.
  abbrev pub Ends : Bool → Stage W → Type 0
  Ends g (goes_on w events) = true ≡ false
  Ends g (stops (repaired h) w events) =
      (observed : List Stored) × (world.read_projection w ≡ returned observed)
      × (fingerprint stable_hash (map expected_row chunks) ≡ h)
      × (fingerprint stable_hash (map stored_row observed) ≡ h)
      × (alive events ≡ true)
      × (guarded g events ≡ true)
  Ends g (stops lease_lost w events) =
      (g ≡ true) × (alive events ≡ false) × (guarded g events ≡ true)
  Ends g (stops (failed code) w events) = (alive events ≡ true) × (guarded g events ≡ true)

  -- The proofs name the presence of the guard.
  module _ (g : Bool) (known : guards world ≡ g) where
    abbrev Sound : List IndexEvent → Type 0
    Sound events = (alive events ≡ true) × (guarded g events ≡ true)

    -- A stage on the way: it goes on with the lease, or it is an end.
    abbrev Underway : Stage W → Type 0
    Underway (goes_on w events) = Sound events
    Underway (stops r w events) = Ends g (stops r w events)

    abbrev Ready : List IndexEvent → Type 0
    Ready events = Sound events × ((not g || just_renewed events) ≡ true)

    -- So is one at which the lease has just been renewed, where it has to be.
    abbrev Fresh : Stage W → Type 0
    Fresh (goes_on w events) = Ready events
    Fresh (stops r w events) = Ends g (stops r w events)

    then_stage-Ends :
        (st : Stage W) (f : W → List IndexEvent → Stage W)
        → Underway st
        → ((w : W) (events : List IndexEvent) → Sound events → Ends g (f w events))
        → Ends g (then_stage st f)
    then_stage-Ends (goes_on w events) f u h = h w events u
    then_stage-Ends (stops r w events) f u h = u

    then_stage-Underway :
        (st : Stage W) (f : W → List IndexEvent → Stage W)
        → Underway st
        → ((w : W) (events : List IndexEvent) → Sound events → Underway (f w events))
        → Underway (then_stage st f)
    then_stage-Underway (goes_on w events) f u h = h w events u
    then_stage-Underway (stops r w events) f u h = u

    renewed-Underway :
        (st : Stage W) (f : W → List IndexEvent → Stage W)
        → Fresh st
        → ((w : W) (events : List IndexEvent) → Ready events → Underway (f w events))
        → Underway (then_stage st f)
    renewed-Underway (goes_on w events) f u h = h w events u
    renewed-Underway (stops r w events) f u h = u

    Fresh-Underway : (st : Stage W) → Fresh st → Underway st
    Fresh-Underway (goes_on w events) u = u.0
    Fresh-Underway (stops r w events) u = u

    after_guard-Fresh :
        (answer : Called Bool × W) (events : List IndexEvent)
        → g ≡ true
        → Sound events
        → Fresh (after_guard answer events)
    unfolding after_guard
    after_guard-Fresh (returned true, w) events e (a, h) = ((a, ground arith), ground arith)
    after_guard-Fresh (returned false, w) events e (a, h) = (e, refl, ground arith)
    after_guard-Fresh (raised error, w) events e h = h

    require_lease-Fresh :
        (w : W) (events : List IndexEvent) → Sound events → Fresh (require_lease world w events)
    unfolding require_lease
    require_lease-Fresh w events h = elim (Option-cases world.lease_guard) [
      | inl e ↦
          let none_here : g ≡ false = sym known ∙ absent e in
          rw (require_lease, e) (h, ground arith)
      | inr (guard, e) ↦
          rw (require_lease, e) (after_guard-Fresh (guard w) events (sym known ∙ present e) h)
    ]
      where
        absent : world.lease_guard ≡ none → guards world ≡ false
        absent e = rw e refl

        present :
            {guard : W → Called Bool × W} → world.lease_guard ≡ some guard → guards world ≡ true
        present e = rw e refl

    after_change-Underway :
        (code : String) (expected : ℕ) (answer : Called ℕ × W) (events : List IndexEvent)
        → Sound events
        → Underway (after_change code expected answer events)
    unfolding after_change
    after_change-Underway code expected (raised error, w) events h = h
    after_change-Underway code expected (returned count, w) events h =
        elim (Bool-cases (count == expected)) [
          | inl e ↦ rw (after_change, e) h
          | inr e ↦ rw (after_change, e) h
        ]

    module _ {A : Type 0} (change : List A → W → Called ℕ × W) (event : List A → IndexEvent)
        (is_change : (batch : List A) (events : List IndexEvent)
          → (alive (event batch ∷ events) ≡ alive events)
            × (guarded g (event batch ∷ events)
                ≡ ((not g || just_renewed events) && alive events && guarded g events)))
        (code : String) where
      apply_batch-Underway :
          (batch : List A) (w : W) (events : List IndexEvent)
          → Ready events
          → Underway (apply_batch world change event code batch w events)
      unfolding apply_batch
      apply_batch-Underway batch w events ((a, h), r) =
          let (same, after) = is_change batch events in
          after_change-Underway code (length batch) (change batch w) (event batch ∷ events)
            (ground arith, ground arith)

      run_batches-Underway :
          (rest : List (List A)) (w : W) (events : List IndexEvent)
          → Sound events
          → Underway (run_batches world change event code rest w events)
      unfolding run_batches
      run_batches-Underway [] w events h = h
      run_batches-Underway (batch ∷ rest) w events h =
          renewed-Underway (require_lease world w events) _ (require_lease-Fresh w events h)
            (λ w1 events1 ready.
              then_stage-Underway (apply_batch world change event code batch w1 events1) _
                (apply_batch-Underway batch w1 events1 ready)
                (λ w2 events2 h2.
                  then_stage-Underway (require_lease world w2 events2) _
                    (Fresh-Underway _ (require_lease-Fresh w2 events2 h2))
                    (λ w3 events3 h3. run_batches-Underway rest w3 events3 h3)))

    module _ (prefix : String → String) (limit mutation_batch : ℕ) where
      judge-Ends :
          (differs : List Stored → W → List IndexEvent → Stage W) (w : W) (events : List IndexEvent)
          (reading : Called (List Stored))
          → world.read_projection w ≡ reading
          → Sound events
          → ((observed : List Stored) → Ends g (differs observed w events))
          → Ends g
              (judge world stable_hash prefix chunks limit mutation_batch differs reading w events)
      unfolding judge
      judge-Ends differs w events (raised error) read h otherwise = h
      judge-Ends differs w events (returned observed) read h otherwise =
          elim (Bool-cases (ltb (max 1 limit) (length observed))) [
            | inl e ↦ rw (judge, e) h
            | inr e ↦
                elim (Bool-cases (
                  expected_fingerprint world stable_hash prefix chunks limit mutation_batch
                  == observed_fingerprint world stable_hash prefix chunks limit mutation_batch
                      observed)) [
                        | inl f ↦
                            rw (judge, e, f)
                              (observed, read, refl, sym ((eq_iff _ _).0 f), h.0, h.1)
                        | inr f ↦ rw (judge, e, f) (otherwise observed)
                      ]
          ]

      confirm-Ends :
          (w : W) (events : List IndexEvent)
          → Sound events
          → Ends g (confirm world stable_hash prefix chunks limit mutation_batch w events)
      unfolding confirm
      confirm-Ends w events h =
          judge-Ends (mismatch world stable_hash prefix chunks limit mutation_batch) w events
            (world.read_projection w) refl h (λ observed. h)

      write_back-Ends :
          (plan : Plan) (w : W) (events : List IndexEvent)
          → Sound events
          → Ends g (write_back world stable_hash prefix chunks limit mutation_batch plan w events)
      unfolding write_back index_stage
      write_back-Ends plan w events h =
          then_stage-Ends
            (index_stage world stable_hash prefix chunks limit mutation_batch plan w events)
            (confirm world stable_hash prefix chunks limit mutation_batch)
            (run_batches-Underway world.bulk_index indexed (λ b e. (refl, refl))
              "SEARCH_PROJECTION_INDEX_COUNT_MISMATCH"
              (batches (length plan.stale_or_missing) (max 1 mutation_batch) plan.stale_or_missing)
              w events h)
            confirm-Ends

      mutate-Ends :
          (plan : Plan) (w : W) (events : List IndexEvent)
          → Sound events
          → Ends g (mutate world stable_hash prefix chunks limit mutation_batch plan w events)
      unfolding mutate delete_stage
      mutate-Ends plan w events h =
          then_stage-Ends
            (delete_stage world stable_hash prefix chunks limit mutation_batch plan w events)
            (write_back world stable_hash prefix chunks limit mutation_batch plan)
            (run_batches-Underway world.delete_exact deleted (λ b e. (refl, refl))
              "SEARCH_PROJECTION_DELETE_COUNT_MISMATCH"
              (batches (length plan.delete_ids) (max 1 mutation_batch) plan.delete_ids) w events h)
            (write_back-Ends plan)

      compare_projection-Ends :
          (w : W) (events : List IndexEvent)
          → Sound events
          → Ends g
              (compare_projection world stable_hash prefix chunks limit mutation_batch w events)
      unfolding compare_projection
      compare_projection-Ends w events h =
          judge-Ends
            (λ observed.
              mutate world stable_hash prefix chunks limit mutation_batch
                (plan_of stable_hash prefix chunks observed))
            w events (world.read_projection w) refl h
            (λ observed. mutate-Ends (plan_of stable_hash prefix chunks observed) w events h)

      repaired-Ends :
          (has_index_version : Bool) (w : W)
          → Ends g (
              repair_document world stable_hash prefix chunks limit mutation_batch has_index_version
                w)
      unfolding repair_document
      repaired-Ends true w =
          then_stage-Ends (require_lease world w [])
            (compare_projection world stable_hash prefix chunks limit mutation_batch)
            (Fresh-Underway _ (require_lease-Fresh w [] (refl, refl))) compare_projection-Ends
      repaired-Ends false w =
          then_stage-Ends (require_lease world w [])
            (λ w1 events1. stops (failed "SEARCH_PROJECTION_INDEX_UNAVAILABLE") w1 events1)
            (Fresh-Underway _ (require_lease-Fresh w [] (refl, refl))) (λ w1 events1 h. h)

  -- In any world, whatever the index answers or raises and whenever the lease goes, a repair ends in one of three
  -- ways: repaired, and the index then reads back with the fingerprint of the chunks, which is returned;
  -- without the lease, where there is a guard, after a renewal that failed; or with an error. Where there is a
  -- guard, every change of the index follows directly on a renewal that succeeded, and nothing follows on one
  -- that failed; without a guard nothing is renewed.
  pub repair_document-Ends :
      (prefix : String → String) (limit mutation_batch : ℕ) (has_index_version : Bool) (w : W)
      → Ends
          (guards world)
          (repair_document world stable_hash prefix chunks limit mutation_batch has_index_version w)
  repair_document-Ends prefix limit mutation_batch has_index_version w =
      repaired-Ends (guards world) refl prefix limit mutation_batch has_index_version w
