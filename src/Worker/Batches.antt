-- ===== src/Worker/Batches.antt =====
-- The batches of a repair.
use wikipedia_rag.Common.{
  ℕ, zero, suc, ◌≤◌, List, [], ◌∷◌, ◌++◌, length, take, length-take-le, ◌≡◌, refl, ap, ◌∙◌, arith,
}
use wikipedia_rag.Search.Service.{drop}
use wikipedia_rag.Search.Slices.{take++drop, length-drop}
use wikipedia_rag.Worker.Repair.{batches}

abbrev pub concat : {A : Type 0} → List (List A) → List A
concat [] = []
concat (xs ∷ rest) = xs ++ concat rest

-- The batches are at most of the size asked for, every one.
abbrev pub AllWithin : {A : Type 0} → ℕ → List (List A) → Type 0
AllWithin size [] = Unit
AllWithin size (xs ∷ rest) = (length xs ≤ size) × AllWithin size rest

-- With fuel for each item, the batches are the items in their order, none left out, and none is larger than
-- the size, which is positive.
pub batches-concat :
    {A : Type 0} (fuel size : ℕ) (items : List A)
    → 1 ≤ size
    → length items ≤ fuel
    → (concat (batches fuel size items) ≡ items) × AllWithin size (batches fuel size items)
unfolding batches
batches-concat zero size [] p h = (refl, tt)
batches-concat zero size (a ∷ items) p h = ground arith
batches-concat (suc fuel) size [] p h = (refl, tt)
batches-concat (suc fuel) size (a ∷ items) p h =
    let (all_of, within) =
      batches-concat fuel size (drop size (a ∷ items)) p
        (omega (arith, p, h, length-drop size (a ∷ items))) in
    (
      ap (λ xs. take size (a ∷ items) ++ xs) all_of ∙ take++drop size (a ∷ items),
      (length-take-le size (a ∷ items), within),
    )
