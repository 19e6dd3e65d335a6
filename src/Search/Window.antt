-- ===== src/Search/Window.antt =====
-- The window that a page needs.
use wikipedia_rag.Common.{
  ℕ, zero, suc, ◌*◌, ◌≤◌, ◌<◌, min, ◌⊎◌, ◌&&◌, inl, inr, refl, false, ltb, Bool-cases, some, ◌≡◌,
  arith,
}
use wikipedia_rag.Search.{widen, cache_window, search_max_window, search_initial_window}

-- What the loop returns: the next of the six sizes once the smaller ones do not do.
stops :
    (required : ℕ)
    → (ltb 50 required ≡ false)
      ⊎ ((w : ℕ) × (cache_window required ≡ some w)
          × (w ≤ 1000)
          × (min 1000 required ≤ w)
          × (w < required * 2))
unfolding cache_window
stops r = elim (Bool-cases (ltb 50 r)) [
  | inr a ↦ inl a
  | inl a ↦ elim (Bool-cases (ltb 100 r)) [
    | inr b ↦ inr (100, rw (a, b) refl, ground arith, ground arith, ground arith)
    | inl b ↦ elim (Bool-cases (ltb 200 r)) [
      | inr c ↦ inr (200, rw (a, b, c) refl, ground arith, ground arith, ground arith)
      | inl c ↦ elim (Bool-cases (ltb 400 r)) [
        | inr d ↦ inr (400, rw (a, b, c, d) refl, ground arith, ground arith, ground arith)
        | inl d ↦ elim (Bool-cases (ltb 800 r)) [
          | inr e ↦ inr (800, rw (a, b, c, d, e) refl, ground arith, ground arith, ground arith)
          | inl e ↦ elim (Bool-cases (ltb 1000 r)) [
            | inr f ↦
                inr (1000, rw (a, b, c, d, e, f) refl, ground arith, ground arith, ground arith)
            | inl f ↦
                inr (1000, rw (a, b, c, d, e, f) refl, ground arith, ground arith, ground arith)
          ]
        ]
      ]
    ]
  ]
]

-- The loop of `_cache_window` ends within six tests, for every required size. The window is at most 1000, holds
-- what is required up to 1000, and is less than twice that unless it is the initial window.
pub cache_window-window :
    (required : ℕ)
    → (w : ℕ) × (cache_window required ≡ some w)
      × (w ≤ search_max_window)
      × (min search_max_window required ≤ w)
      × ((w ≡ search_initial_window) ⊎ (w < required * 2))
unfolding cache_window
cache_window-window required = elim (stops required) [
  | inl a ↦ (search_initial_window, rw a refl, ground arith, ground arith, inl refl)
  | inr (w, e, b, c, d) ↦ (w, e, b, c, inr d)
]

-- The window only grows.
widen-least :
    (fuel required window : ℕ) {w : ℕ}
    → window ≤ search_max_window
    → widen fuel required window ≡ some w
    → window ≤ w
unfolding widen
widen-least zero required window b h = ground arith
widen-least (suc fuel) required window b h =
    elim (Bool-cases (ltb window required && ltb window search_max_window)) [
      | inl e ↦
          let rest =
            widen-least fuel required (min search_max_window (window * 2)) (omega arith)
              (rw (widen, e) at h) in
          omega (arith, rest, b)
      | inr e ↦ ground arith
    ]

pub cache_window-least :
    (required : ℕ) {w : ℕ} → cache_window required ≡ some w → search_initial_window ≤ w
unfolding cache_window
cache_window-least required h = widen-least 6 required search_initial_window (omega arith) h
