-- ===== src/ModelControl/Protected.antt =====
-- The protected fields of a gateway request reach the provider.
use wikipedia_rag.Common.{
  String, true, false, List, [], ◌∷◌, Option, none, some, contains, string_eq, ◌==◌, ◌≡◌, refl, ap,
  subst, sym, ◌∙◌, inl, inr, Bool-cases, Option-cases, arith, eq_iff,
}
use wikipedia_rag.Json.{
  Value, Fields, null, obj, end, field, get, put, drop_key, as_obj, deep_merge, serializable_fields,
  merge_sources, deep_merge_json,
}
use wikipedia_rag.Json.Dict.{
  Proper, ProperFields, get-put, get-put_other, drop_key-ProperFields, Single, put-Single,
  get-drop_key_other,
}
use wikipedia_rag.Json.Merge.{overlay, deep_merge-ProperFields, get-deep_merge}
use wikipedia_rag.Json.Paths.{merge_value-leaf}
use wikipedia_rag.ModelControl.{Checked, returned, raised}
use wikipedia_rag.ModelControl.Adapter.{then_with}
use wikipedia_rag.ModelControl.Payload.{
  merged, under_extra, workload_of, adapted_body, pick_fields, assign, ProviderRequest,
  compile_provider_payload,
}

get-pick_fields_first :
    (k n : String) (ns : List String) (fs : Fields)
    → n ≡ k
    → get k (pick_fields ns fs) ≡ elim (contains k ns) [ true ↦ get k fs | false ↦ none ]
    → get k (pick_fields (n ∷ ns) fs)
      ≡ elim (contains k (n ∷ ns)) [ true ↦ get k fs | false ↦ none ]
unfolding pick_fields
get-pick_fields_first k n ns fs same h = elim (Option-cases (get n fs)) [
  | inl e ↦
      let gone = subst (λ i. get i fs ≡ none) same e in
      rw (pick_fields, e) (ground (arith, eq_iff n k))
  | inr (v, e) ↦
      let here =
        subst (λ i. get i (put n v (pick_fields ns fs)) ≡ some v) same
          (get-put n v (pick_fields ns fs)) in
      let there = subst (λ i. get i fs ≡ some v) same e in
      rw (pick_fields, e) (here ∙ ground (arith, eq_iff n k))
]

pub get-pick_fields :
    (k : String) (names : List String) (fs : Fields)
    → get k (pick_fields names fs) ≡ elim (contains k names) [ true ↦ get k fs | false ↦ none ]
unfolding pick_fields
get-pick_fields k [] fs = refl
get-pick_fields k (n ∷ ns) fs = elim (Bool-cases (n == k)) [
  | inl o ↦ get-pick_fields_first k n ns fs ((eq_iff n k).0 o) (get-pick_fields k ns fs)
  | inr o ↦ elim (Option-cases (get n fs)) [
    | inl e ↦ rw (pick_fields, e) (ground (arith, get-pick_fields k ns fs))
    | inr (v, e) ↦
        rw (pick_fields, e)
          (get-put_other k n v (pick_fields ns fs) (ground (arith, eq_iff n k, eq_iff k n))
            ∙ ground (arith, get-pick_fields k ns fs))
  ]
]

pick_fields-Single : (names : List String) (fs : Fields) → Single (pick_fields names fs)
unfolding pick_fields
pick_fields-Single [] fs = tt
pick_fields-Single (n ∷ ns) fs = elim (Option-cases (get n fs)) [
  | inl e ↦ rw (pick_fields, e) (pick_fields-Single ns fs)
  | inr (v, e) ↦ rw (pick_fields, e) (put-Single n v (pick_fields ns fs) (pick_fields-Single ns fs))
]

get-assign_kept :
    (k : String) (new fs : Fields) → get k new ≡ none → get k (assign new fs) ≡ get k fs
unfolding assign
get-assign_kept k end fs h = refl
get-assign_kept k (field j v new) fs h = elim (Bool-cases (k == j)) [
  | inl e ↦ ground arith
  | inr e ↦ get-assign_kept k new (put j v fs) (ground arith) ∙ get-put_other k j v fs e
]

get-assign :
    (k : String) (new fs : Fields) {v : Value}
    → Single new
    → get k new ≡ some v
    → get k (assign new fs) ≡ some v
unfolding assign
get-assign k end fs s h = ground arith
get-assign k (field j u new) fs {v} s h = elim (Bool-cases (k == j)) [
  | inl e ↦
      let same = (eq_iff k j).0 e in
      let absent = subst (λ i. get i new ≡ none) (sym same) s.0 in
      let stored = subst (λ i. get i (put j u fs) ≡ some u) (sym same) (get-put j u fs) in
      get-assign_kept k new (put j u fs) absent ∙ stored ∙ ground arith
  | inr e ↦ get-assign k new (put j u fs) s.1 (ground arith)
]

-- A field of a merge's last source that is no dictionary.
get-merge_last :
    (k : String) (base over : Fields) {v : Value}
    → ProperFields over
    → get k over ≡ some v
    → as_obj v ≡ none
    → get k (deep_merge base over) ≡ some v
unfolding overlay
get-merge_last k base over {v} p h leaf =
    get-deep_merge k base over p ∙ rw h (ap some (merge_value-leaf (get k base) v leaf))

returned_same : {a b : Fields} → returned a ≡ returned b → a ≡ b
returned_same h = ground arith

empty-ProperFields : ProperFields end
unfolding Proper
empty-ProperFields = tt

-- A computation that returns.
pub then_with-returned {ℓ κ} :
    {A : Type ℓ} {B : Type κ} (c : Checked A) (f : A → Checked B) {b : B}
    → then_with c f ≡ returned b
    → (a : A) × (c ≡ returned a) × (f a ≡ returned b)
then_with-returned (returned a) f h = (a, refl, h)
then_with-returned (raised e) f h = ground arith

-- A merge that returns.
merged→some :
    (sources : List (Option Fields)) {w : Fields}
    → merged sources ≡ returned w
    → deep_merge_json sources ≡ some w
merged→some sources h = ground arith

merge_sources-round :
    (result source : Fields) (rest : List (Option Fields)) {w : Fields}
    → merge_sources result (some source ∷ rest) ≡ some w
    → merge_sources (deep_merge result source) rest ≡ some w
unfolding merge_sources
merge_sources-round result source rest h = elim (Bool-cases (serializable_fields source)) [
  | inl e ↦ ground arith
  | inr e ↦ ground arith
]

merge_sources-last : (result : Fields) {w : Fields} → merge_sources result [] ≡ some w → result ≡ w
unfolding merge_sources
merge_sources-last result h = ground arith

merged-one : (a : Fields) {w : Fields} → merged (some a ∷ []) ≡ returned w → deep_merge end a ≡ w
unfolding deep_merge_json
merged-one a h =
    merge_sources-last (deep_merge end a)
      (merge_sources-round end a [] (merged→some (some a ∷ []) h))

merged-two :
    (a b : Fields) {w : Fields}
    → merged (some a ∷ some b ∷ []) ≡ returned w
    → deep_merge (deep_merge end a) b ≡ w
unfolding deep_merge_json
merged-two a b h = merge_sources-last (deep_merge (deep_merge end a) b) (
    merge_sources-round (deep_merge end a) b []
      (merge_sources-round end a (some b ∷ []) (merged→some (some a ∷ some b ∷ []) h)))

get-under_extra :
    (k : String) (extra : Option Value) (rest : Fields) {w : Fields} {v : Value}
    → ProperFields rest
    → get k rest ≡ some v
    → as_obj v ≡ none
    → under_extra extra rest ≡ returned w
    → get k w ≡ some v
unfolding under_extra
get-under_extra k none rest p h leaf r = ground arith
get-under_extra k (some null) rest p h leaf r = ground arith
get-under_extra k (some (obj extra)) rest {v} p h leaf r =
    subst (λ f. get k f ≡ some v) (merged-two extra rest r)
      (get-merge_last k (deep_merge end extra) rest p h leaf)
get-under_extra k (some _) rest p h leaf r = ground arith

-- The workload keeps the request's own fields.
get-workload_of :
    (k : String) (payload : Fields) {w : Fields} {v : Value}
    → ProperFields payload
    → get k payload ≡ some v
    → as_obj v ≡ none
    → (k == "extra_body") ≡ false
    → workload_of payload ≡ returned w
    → get k w ≡ some v
unfolding workload_of
get-workload_of k payload {w} {v} p h leaf other r =
    let (given, m, u) =
      then_with-returned (merged (some payload ∷ []))
        (λ g. under_extra (get "extra_body" g) (drop_key "extra_body" g)) r in
    let copied = merged-one payload m in
    let proper =
      subst ProperFields copied (deep_merge-ProperFields end payload empty-ProperFields p) in
    let kept = subst (λ f. get k f ≡ some v) copied (get-merge_last k end payload p h leaf) in
    get-under_extra k (get "extra_body" given) (drop_key "extra_body" given)
      (drop_key-ProperFields "extra_body" given proper)
      (get-drop_key_other k "extra_body" given other ∙ kept) leaf u

-- Whatever the defaults, the overrides and the adapter say, a body that is compiled carries every protected
-- field of the request, apart from dictionaries and `extra_body`, with the request's own value.
pub compile_provider_payload-protected :
    (str : Value → String) (r : ProviderRequest) (k : String) {body : Fields} {v : Value}
    → compile_provider_payload str r ≡ returned body
    → ProperFields r.payload
    → get k r.payload ≡ some v
    → as_obj v ≡ none
    → contains k r.protected_fields ≡ true
    → (k == "extra_body") ≡ false
    → get k body ≡ some v
unfolding compile_provider_payload
compile_provider_payload-protected str r k {body} {v} c p h leaf inside other =
    let (workload, w, c1) =
      then_with-returned (workload_of r.payload)
        (λ x.
          then_with (adapted_body str r x)
            (λ b. returned (assign (pick_fields r.protected_fields x) (drop_key "thinking" b))))
        c in
    let (b, a, c2) =
      then_with-returned (adapted_body str r workload)
        (λ b. returned (assign (pick_fields r.protected_fields workload) (drop_key "thinking" b)))
        c1 in
    let chosen =
      get-pick_fields k r.protected_fields workload
      ∙ rw inside (get-workload_of k r.payload p h leaf other w) in
    let written =
      get-assign k (pick_fields r.protected_fields workload) (drop_key "thinking" b)
        (pick_fields-Single r.protected_fields workload) chosen in
    subst (λ f. get k f ≡ some v) (returned_same c2) written
