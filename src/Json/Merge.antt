-- ===== src/Json/Merge.antt =====
-- What a merged dictionary holds under each key.
use wikipedia_rag.Common.{String, Option, none, some, string_eq, ◌≡◌, refl, ◌∙◌, ap, arith, eq_iff}
use wikipedia_rag.Json.{Value, Fields, obj, end, field, get, put, deep_merge, merge_value}
use wikipedia_rag.Json.Dict.{
  get-put, get-put_other, Proper, ProperFields, Proper-get, put-ProperFields,
}

-- The value under a key after a merge, from the values before it.
unfoldable pub overlay : Option Value → Option Value → Option Value
unfolding deep_merge
overlay old none = old
overlay old (some v) = some (merge_value old v)

pub get-deep_merge :
    (j : String) (base over : Fields)
    → ProperFields over
    → get j (deep_merge base over) ≡ overlay (get j base) (get j over)
unfolding deep_merge Proper overlay
get-deep_merge j base end p = refl
get-deep_merge j base (field k v fs) p =
    let stored = merge_value (get k base) v in
    let rest = get-deep_merge j (put k stored base) fs p.2 in
    let now = get-put k stored base in
    let kept = get-put_other j k stored base in
    rest
    ∙ ground (
      arith,
      p.0,
      eq_iff j k,
      λ (e : j ≡ k). ap (λ i. get i base) e,
      λ (e : j ≡ k). ap (λ i. get i (put k stored base)) e,
      λ (e : j ≡ k). ap (λ i. get i fs) e,
    )

-- Merging keeps every key single, at every depth.
mutual
  unfolding deep_merge Proper

  pub deep_merge-ProperFields :
      (base over : Fields)
      → ProperFields base
      → ProperFields over
      → ProperFields (deep_merge base over)
  deep_merge-ProperFields base end p q = p
  deep_merge-ProperFields base (field k v fs) p q =
      deep_merge-ProperFields (put k (merge_value (get k base) v) base) fs
        (put-ProperFields k (merge_value (get k base) v) base
          (merge_value-Proper (get k base) v (λ u h. Proper-get k base p h) q.1) p)
        q.2

  merge_value-Proper :
      (old : Option Value) (v : Value)
      → ((u : Value) → old ≡ some u → Proper u)
      → Proper v
      → Proper (merge_value old v)
  merge_value-Proper (some (obj b)) (obj o) h q = deep_merge-ProperFields b o (h (obj b) refl) q
  merge_value-Proper _ v h q = q
