-- ===== src/Retrieval/Keys.antt =====
-- Lists of keys without a repetition.
use wikipedia_rag.Common.{
  String, false, ◌||◌, List, [], ◌∷◌, ◌++◌, ◌==◌, string_eq, ◌≡◌, refl, ◌∙◌, contains, any-append,
  eq_iff, arith,
}

-- No key comes twice.
abbrev pub DistinctKeys : List String → Type 0
DistinctKeys [] = Unit
DistinctKeys (k ∷ ks) = (contains k ks ≡ false) × DistinctKeys ks

pub DistinctKeys-snoc :
    (ks : List String) (k : String)
    → DistinctKeys ks
    → contains k ks ≡ false
    → DistinctKeys (ks ++ k ∷ [])
DistinctKeys-snoc [] k d h = (refl, tt)
DistinctKeys-snoc (j ∷ ks) k d h = (
  any-append (λ x. x == j) ks (k ∷ []) ∙ ground (arith, eq_iff k j, eq_iff j k),
  DistinctKeys-snoc ks k d.1 (ground arith),
)

pub contains-snoc :
    (j : String) (ks : List String) (k : String)
    → contains j (ks ++ k ∷ []) ≡ (contains j ks || k == j)
contains-snoc j ks k = any-append (λ x. x == j) ks (k ∷ []) ∙ ground arith
