-- ===== src/Search/Tally.antt =====
-- The document groups of a page count its results, and stand in the order of their scores.
use wikipedia_rag.Common.{
  ℕ, ◌+◌, String, Bool, true, false, all, ◌&&◌, List, [], ◌∷◌, map, keep, length, length-append,
  ◌==◌, string_eq, if◌then◌else◌, ◌≡◌, refl, ap, sym, ◌∙◌, inl, inr, Bool-cases, arith, eq_iff,
}
use wikipedia_rag.Common.Int.{ℤ}
use wikipedia_rag.Search.{SearchResult}
use wikipedia_rag.Search.Groups.{
  Bucket, add_item, add_items, insert, sort_onto, int_leb, DocumentGroup, group_of, better,
  document_groups,
}

module _ {ℓ} {A : Type ℓ} where
  abbrev pub sum_of : (A → ℕ) → List A → ℕ
  sum_of w [] = 0
  sum_of w (a ∷ items) = w a + sum_of w items

  sum_of-insert :
      (before : A → A → Bool) (w : A → ℕ) (a : A) (items : List A)
      → sum_of w (insert before a items) ≡ w a + sum_of w items
  unfolding insert
  sum_of-insert before w a [] = refl
  sum_of-insert before w a (b ∷ rest) = elim (Bool-cases (before b a)) [
    | inl e ↦ rw (insert, e) (omega (arith, sum_of-insert before w a rest))
    | inr e ↦ rw (insert, e) refl
  ]

  sum_of-sort_onto :
      (before : A → A → Bool) (w : A → ℕ) (items sorted : List A)
      → sum_of w (sort_onto before items sorted) ≡ sum_of w items + sum_of w sorted
  unfolding sort_onto
  sum_of-sort_onto before w [] sorted = omega arith
  sum_of-sort_onto before w (a ∷ items) sorted = omega (
    arith,
    sum_of-sort_onto before w items (insert before a sorted),
    sum_of-insert before w a sorted,
  )

module _ {ℓ κ} {A : Type ℓ} {B : Type κ} where
  sum_of-map :
      (f : A → B) (w : B → ℕ) (items : List A)
      → sum_of w (map f items) ≡ sum_of (λ a. w (f a)) items
  sum_of-map f w [] = refl
  sum_of-map f w (a ∷ items) = ap (λ n. w (f a) + n) (sum_of-map f w items)

module _ {ℓ} {A : Type ℓ} (key : A → String) (d : String) where
  -- The items of a bucket with the key `d`.
  abbrev under : Bucket A → ℕ
  under (k, first, later) = if k == d then length (first ∷ later) else 0

  sum_of-add_item :
      (a : A) (groups : List (Bucket A))
      → sum_of under (add_item key a groups) ≡ (if key a == d then 1 else 0) + sum_of under groups
  unfolding add_item
  sum_of-add_item a [] = refl
  sum_of-add_item a ((k, first, later) ∷ groups) = elim (Bool-cases (k == key a)) [
    | inl e ↦
        let same = ap (λ i. i == d) ((eq_iff k (key a)).0 e) in
        rw (add_item, e, sym same) (ground (arith, length-append later (a ∷ [])))
    | inr e ↦ rw (add_item, e) (omega (arith, sum_of-add_item a groups))
  ]

  sum_of-add_items :
      (items : List A) (groups : List (Bucket A))
      → sum_of under (add_items key items groups)
        ≡ length (keep (λ a. key a == d) items) + sum_of under groups
  unfolding add_items
  sum_of-add_items [] groups = omega arith
  sum_of-add_items (a ∷ items) groups =
      ground (arith, sum_of-add_items items (add_item key a groups), sum_of-add_item a groups)

abbrev pub hits_in : String → DocumentGroup → ℕ
hits_in d g = if g.document_id == d then g.hit_count else 0

-- On every document id, the hits that the groups count are the results of the page: none is left out or
-- counted twice.
pub document_groups-hits :
    (results : List SearchResult) (d : String)
    → sum_of (hits_in d) (document_groups results) ≡ length (keep (λ r. r.document_id == d) results)
unfolding document_groups
document_groups-hits results d =
    let buckets = add_items (λ (r : SearchResult). r.document_id) results [] in
    sum_of-sort_onto better (hits_in d) (map group_of buckets) []
    ∙ ap (λ n. n + 0) (sum_of-map group_of (hits_in d) buckets)
    ∙ omega (arith, sum_of-add_items (λ (r : SearchResult). r.document_id) d results [])

module _ {ℓ} {A : Type ℓ} (before : A → A → Bool) where
  -- Each item stands before all that follow it.
  abbrev pub Descending : List A → Type 0
  Descending [] = Unit
  Descending (a ∷ items) = (all (before a) items ≡ true) × Descending items

  all-insert :
      (x a : A) (items : List A)
      → all (before x) (insert before a items) ≡ (before x a && all (before x) items)
  unfolding insert
  all-insert x a [] = refl
  all-insert x a (b ∷ rest) = ground (arith, all-insert x a rest)

  module _ (complete : (a b : A) → before a b ≡ false → before b a ≡ true)
      (transitive : (a b c : A) → before a b ≡ true → before b c ≡ true → before a c ≡ true) where
    all-behind :
        (a b : A) (items : List A)
        → before a b ≡ true
        → all (before b) items ≡ true
        → all (before a) items ≡ true
    all-behind a b [] h t = refl
    all-behind a b (c ∷ items) h t = ground (arith, transitive a b c h, all-behind a b items h)

    insert-Descending :
        (a : A) (items : List A) → Descending items → Descending (insert before a items)
    unfolding insert
    insert-Descending a [] h = (refl, tt)
    insert-Descending a (b ∷ rest) h = elim (Bool-cases (before b a)) [
      | inl e ↦ rw (insert, e) (all-insert b a rest ∙ ground arith, insert-Descending a rest h.1)
      | inr e ↦
          let first = complete b a e in
          rw (insert, e) (ground (arith, all-behind a b rest first h.0), h)
    ]

    sort_onto-Descending :
        (items sorted : List A) → Descending sorted → Descending (sort_onto before items sorted)
    unfolding sort_onto
    sort_onto-Descending [] sorted h = h
    sort_onto-Descending (a ∷ items) sorted h =
        sort_onto-Descending items (insert before a sorted) (insert-Descending a sorted h)

int_leb_total : (x y : ℤ) → int_leb x y ≡ false → int_leb y x ≡ true
int_leb_total x y h = ground arith

int_leb_trans : (x y z : ℤ) → int_leb x y ≡ true → int_leb y z ≡ true → int_leb x z ≡ true
int_leb_trans x y z h t = ground arith

-- The groups of a page stand in the order of their best scores, the best first.
pub document_groups-Descending :
    (results : List SearchResult) → Descending better (document_groups results)
unfolding document_groups
document_groups-Descending results =
    sort_onto-Descending better (λ g h. int_leb_total h.best_score g.best_score)
      (λ f g h p q. int_leb_trans h.best_score g.best_score f.best_score q p)
      (map group_of (add_items (λ (r : SearchResult). r.document_id) results [])) [] tt
