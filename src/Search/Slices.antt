-- ===== src/Search/Slices.antt =====
-- Pages as slices of a list: `items[start:]` and `items[:end]`.
use wikipedia_rag.Common.{
  ℕ, zero, suc, ◌+◌, ◌-◌, ◌≤◌, false, List, [], ◌∷◌, ◌++◌, ltb, length, take, ◌≡◌, refl, ap, sym,
  ◌∙◌, ◌⊎◌, inl, inr, arith,
}
use wikipedia_rag.Search.Service.{drop}

module _ {ℓ} {A : Type ℓ} where
  pub take-take_more : (n : ℕ) (xs : List A) → take n (take (suc n) xs) ≡ take n xs
  take-take_more zero xs = refl
  take-take_more (suc n) [] = refl
  take-take_more (suc n) (x ∷ xs) = ap (λ ys. x ∷ ys) (take-take_more n xs)

  -- One more than a page tells whether there is more.
  pub ltb-length_more : (n : ℕ) (xs : List A) → ltb n (length (take (suc n) xs)) ≡ ltb n (length xs)
  ltb-length_more zero [] = refl
  ltb-length_more zero (x ∷ xs) = ground arith
  ltb-length_more (suc n) [] = refl
  ltb-length_more (suc n) (x ∷ xs) = ground (arith, ltb-length_more n xs)

  pub take-whole : (n : ℕ) (xs : List A) → ltb n (length xs) ≡ false → take n xs ≡ xs
  take-whole zero [] h = refl
  take-whole zero (x ∷ xs) h = ground arith
  take-whole (suc n) [] h = refl
  take-whole (suc n) (x ∷ xs) h = ap (λ ys. x ∷ ys) (take-whole n xs (ground arith))

  pub take++drop : (n : ℕ) (xs : List A) → take n xs ++ drop n xs ≡ xs
  take++drop zero xs = refl
  take++drop (suc n) [] = refl
  take++drop (suc n) (x ∷ xs) = ap (λ ys. x ∷ ys) (take++drop n xs)

  drop-empty : (n : ℕ) → drop {A = A} n [] ≡ []
  drop-empty zero = refl
  drop-empty (suc n) = refl

  pub drop-drop : (m n : ℕ) (xs : List A) → drop n (drop m xs) ≡ drop (m + n) xs
  drop-drop zero n xs = ap (λ k. drop k xs) (omega arith)
  drop-drop (suc m) n [] = drop-empty n ∙ sym (drop-empty (suc m + n))
  drop-drop (suc m) n (x ∷ xs) = drop-drop m n xs ∙ ap (λ k. drop k (x ∷ xs)) (the_sum m n)
    where
      the_sum : (m n : ℕ) → suc (m + n) ≡ suc m + n
      the_sum m n = omega arith

  pub length-drop : (m : ℕ) (xs : List A) → length (drop m xs) ≡ length xs - m
  length-drop zero xs = omega arith
  length-drop (suc m) [] = omega arith
  length-drop (suc m) (x ∷ xs) = omega (arith, length-drop m xs)

  pub take-take : (n m : ℕ) (xs : List A) → n ≤ m → take n (take m xs) ≡ take n xs
  take-take zero m xs h = refl
  take-take (suc n) zero xs h = ground arith
  take-take (suc n) (suc m) [] h = refl
  take-take (suc n) (suc m) (x ∷ xs) h = ap (λ ys. x ∷ ys) (take-take n m xs (omega (arith, h)))

  take-empty : (n : ℕ) → take {A = A} n [] ≡ []
  take-empty zero = refl
  take-empty (suc n) = refl

  drop-take : (o w : ℕ) (xs : List A) → drop o (take w xs) ≡ take (w - o) (drop o xs)
  drop-take zero w xs = ap (λ k. take k xs) (omega arith)
  drop-take (suc o) zero [] = sym (take-empty _)
  drop-take (suc o) (suc w) [] = sym (take-empty _)
  drop-take (suc o) zero (x ∷ xs) = ap (λ k. take k (drop o xs)) (none_left o)
    where
      none_left : (o : ℕ) → 0 ≡ 0 - suc o
      none_left o = omega arith
  drop-take (suc o) (suc w) (x ∷ xs) =
      drop-take o w xs ∙ ap (λ k. take k (drop o xs)) (one_less o w)
    where
      one_less : (o w : ℕ) → w - o ≡ suc w - suc o
      one_less o w = omega arith

  -- A slice of a prefix that is long enough is one of the whole.
  pub slice-prefix :
      (n o w : ℕ) (xs : List A)
      → (o + n ≤ w) ⊎ (length xs ≤ w)
      → take n (drop o (take w xs)) ≡ take n (drop o xs)
  slice-prefix n o w xs (inl h) =
      ap (take n) (drop-take o w xs) ∙ take-take n (w - o) (drop o xs) (omega (arith, h))
  slice-prefix n o w xs (inr h) = ap (λ ys. take n (drop o ys)) (take-whole w xs (ground arith))
