-- ===== src/Json/Paths.antt =====
-- Settings at a path of keys, through nested dictionaries.
use wikipedia_rag.Common.{
  String, List, [], ◌∷◌, Option, none, some, ◌≡◌, refl, ap, ◌∙◌, sym, inl, inr, Option-cases, arith,
}
use wikipedia_rag.Json.{Value, Fields, obj, get, as_obj, deep_merge, merge_value}
use wikipedia_rag.Json.Dict.{Proper, ProperFields, Proper-get}
use wikipedia_rag.Json.Merge.{overlay, get-deep_merge}

-- The dictionary under a key.
abbrev pub child : String → Fields → Option Fields
child k fs = elim (get k fs) [ none ↦ none | some v ↦ as_obj v ]

-- The value under the keys `k`, `ks`.
abbrev pub at_path : String → List String → Fields → Option Value
at_path k [] fs = get k fs
at_path k (j ∷ js) fs = elim (child k fs) [ none ↦ none | some o ↦ at_path j js o ]

as_obj_lem : (v : Value) {o : Fields} → as_obj v ≡ some o → v ≡ obj o
as_obj_lem v h = ground arith

pub child→get :
    (k : String) (fs : Fields) {o : Fields} → child k fs ≡ some o → get k fs ≡ some (obj o)
child→get k fs h = elim (Option-cases (get k fs)) [
  | inl e ↦ ground arith
  | inr (v, e) ↦ e ∙ ap some (as_obj_lem v (ground arith))
]

pub at_path-child :
    (k j : String) (js : List String) (fs : Fields) {o : Fields}
    → child k fs ≡ some o
    → at_path k (j ∷ js) fs ≡ at_path j js o
at_path-child k j js fs h = rw (at_path, h) refl

ProperFields-child :
    (k : String) (fs : Fields) {o : Fields} → ProperFields fs → child k fs ≡ some o → ProperFields o
unfolding Proper
ProperFields-child k fs p h = Proper-get k fs p (child→get k fs h)

pub merge_value-leaf : (old : Option Value) (v : Value) → as_obj v ≡ none → merge_value old v ≡ v
unfolding deep_merge
merge_value-leaf old v h = ground arith

-- A dictionary of the override meets a dictionary of the base, or stands in for what is no dictionary.
child-merged :
    (k : String) (base over : Fields) {o : Fields}
    → ProperFields over
    → child k over ≡ some o
    → child k (deep_merge base over) ≡ as_obj (merge_value (get k base) (obj o))
unfolding overlay
child-merged k base over p h = rw (child, get-deep_merge k base over p, child→get k over h) refl

merge_value-alone :
    (k : String) (base : Fields) (o : Fields)
    → child k base ≡ none
    → as_obj (merge_value (get k base) (obj o)) ≡ some o
unfolding deep_merge
merge_value-alone k base o h = elim (Option-cases (get k base)) [
  | inl e ↦ rw e refl
  | inr (v, e) ↦ rw e (no_object v (ground arith))
]
  where
    no_object : (v : Value) → as_obj v ≡ none → as_obj (merge_value (some v) (obj o)) ≡ some o
    no_object v n = ground arith

merge_value-both :
    (k : String) (base : Fields) {b : Fields} (o : Fields)
    → child k base ≡ some b
    → as_obj (merge_value (get k base) (obj o)) ≡ some (deep_merge b o)
unfolding deep_merge
merge_value-both k base o h = rw (child→get k base h) refl

-- A setting of the override that is no dictionary is the setting of the merge, at any depth.
pub deep_merge-at_path :
    (k : String) (ks : List String) (base over : Fields) {v : Value}
    → ProperFields over
    → at_path k ks over ≡ some v
    → as_obj v ≡ none
    → at_path k ks (deep_merge base over) ≡ some v
unfolding overlay
deep_merge-at_path k [] base over {v} p h leaf =
    get-deep_merge k base over p ∙ rw h (ap some (merge_value-leaf (get k base) v leaf))
deep_merge-at_path k (j ∷ js) base over {v} p h leaf = elim (Option-cases (child k over)) [
  | inl e ↦ ground arith
  | inr (o, e) ↦
      let inner = sym (at_path-child k j js over e) ∙ h in
      elim (Option-cases (child k base)) [
        | inl n ↦
            at_path-child k j js (deep_merge base over)
              (child-merged k base over p e ∙ merge_value-alone k base o n)
            ∙ inner
        | inr (b, m) ↦
            at_path-child k j js (deep_merge base over)
              (child-merged k base over p e ∙ merge_value-both k base o m)
            ∙ deep_merge-at_path j js b o (ProperFields-child k over p e) inner leaf
      ]
]
