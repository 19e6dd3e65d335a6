-- ===== src/Inheritance/Overrides.antt =====
-- A request's settings on top of a profile.
use wikipedia_rag.Common.{
  String, true, false, ◌&&◌, List, [], ◌∷◌, none, some, ◌≡◌, ◌⊎◌, refl, ap, subst, sym, ◌∙◌, inl,
  inr, Bool-cases, Option-cases, string_eq, ◌==◌, arith, eq_iff,
}
use wikipedia_rag.Json.{Value, Fields, text, obj, end, field, get, put, as_obj, deep_merge}
use wikipedia_rag.Json.Dict.{ProperFields, get-put, get-put_other}
use wikipedia_rag.Json.Paths.{child, at_path, at_path-child, deep_merge-at_path}
use wikipedia_rag.Inheritance.{
  default_child, legacy_applies, set_citation_validation, flag_value, apply_legacy_answer_override,
  profile_payload,
}

at_path-put_other :
    (k : String) (ks : List String) (j : String) (u : Value) (fs : Fields)
    → (k == j) ≡ false
    → at_path k ks (put j u fs) ≡ at_path k ks fs
at_path-put_other k [] j u fs h = get-put_other k j u fs h
at_path-put_other k (i ∷ is) j u fs h = rw (at_path, get-put_other k j u fs h) refl

-- Settings outside `answer.verification` are left alone.
abbrev Outside : String → List String → Type 0
Outside k [] = (k == "answer") ≡ false
Outside k (i ∷ is) = ((k == "answer") && (i == "verification")) ≡ false

at_path-empty : (i : String) (is : List String) → at_path i is end ≡ none
at_path-empty i [] = refl
at_path-empty i (j ∷ js) = refl

at_path-default :
    (k i : String) (is : List String) (fs : Fields) {a : Fields}
    → default_child k fs ≡ some a
    → at_path k (i ∷ is) fs ≡ at_path i is a
at_path-default k i is fs {a} h = elim (Option-cases (get k fs)) [
  | inl e ↦ rw (at_path, e) (sym (at_path-empty i is) ∙ ap (at_path i is) (ground arith))
  | inr (v, e) ↦ let o : as_obj v ≡ some a = ground arith in rw (at_path, e, o) refl
]

at_path-put :
    (k i : String) (is : List String) (a fs : Fields)
    → at_path k (i ∷ is) (put k (obj a) fs) ≡ at_path i is a
at_path-put k i is a fs = rw (at_path, get-put k (obj a) fs) refl

-- Either nothing is written, or a verification into the answer.
citation_cases :
    (u : Value) (payload : Fields)
    → (set_citation_validation u payload ≡ payload)
      ⊎ ((a : Fields) × (w : Value) × (default_child "answer" payload ≡ some a)
          × (set_citation_validation u payload
              ≡ put "answer" (obj (put "verification" w a)) payload))
unfolding set_citation_validation
citation_cases u payload = elim (Option-cases (default_child "answer" payload)) [
  | inl e ↦ inl (rw (set_citation_validation, e) refl)
  | inr (a, e) ↦ elim (Option-cases (default_child "verification" a)) [
    | inl d ↦ inl (rw (set_citation_validation, e, d) refl)
    | inr (w, d) ↦
        inr (a, obj (put "citation_validation" u w), e, rw (set_citation_validation, e, d) refl)
  ]
]

set_citation_validation-at_path :
    (u : Value) (payload : Fields) (k : String) (ks : List String)
    → Outside k ks
    → at_path k ks (set_citation_validation u payload) ≡ at_path k ks payload
set_citation_validation-at_path u payload k ks h = elim (citation_cases u payload) [
  | inl e ↦ ap (at_path k ks) e
  | inr (a, w, d, e) ↦ ap (at_path k ks) e ∙ elim (Bool-cases (k == "answer")) [
    | inr o ↦ at_path-put_other k ks "answer" (obj (put "verification" w a)) payload o
    | inl o ↦ within w a payload d k ks o h
  ]
]
  where
    within :
        (w : Value) (a payload : Fields)
        → default_child "answer" payload ≡ some a
        → (k : String) (ks : List String) → (k == "answer") ≡ true
        → Outside k ks
        → at_path k ks (put "answer" (obj (put "verification" w a)) payload) ≡ at_path k ks payload
    within w a payload d k [] o h = ground arith
    within w a payload d k (i ∷ is) o h =
        subst
          (λ n.
            at_path n (i ∷ is) (put "answer" (obj (put "verification" w a)) payload)
            ≡ at_path n (i ∷ is) payload)
          (sym ((eq_iff k "answer").0 o))
          (at_path-put "answer" i is (put "verification" w a) payload
            ∙ at_path-put_other i is "verification" w a (ground arith)
            ∙ sym (at_path-default "answer" i is payload d))

at_path-absent :
    (k : String) (ks : List String) (fs : Fields) → get k fs ≡ none → at_path k ks fs ≡ none
at_path-absent k [] fs h = h
at_path-absent k (j ∷ js) fs h = rw (at_path, h) refl

-- A request that sets something in `answer.verification` is no legacy request.
legacy-Outside :
    (a overrides : Fields)
    → child "answer" overrides ≡ some a
    → legacy_applies a ≡ true
    → (k : String) (ks : List String) {v : Value} → at_path k ks overrides ≡ some v
    → as_obj v ≡ none
    → Outside k ks
legacy-Outside a overrides e f k [] {v} h leaf = elim (Bool-cases (k == "answer")) [
  | inr o ↦ o
  | inl o ↦
      let there = subst (λ n. get n overrides ≡ some v) ((eq_iff k "answer").0 o) h in ground arith
]
legacy-Outside a overrides e f k (i ∷ is) {v} h leaf =
    elim (Bool-cases (k == "answer" && i == "verification")) [
      | inr o ↦ o
      | inl o ↦
          let there =
            subst (λ n. at_path n (i ∷ is) overrides ≡ some v)
              ((eq_iff k "answer").0 (ground arith)) h in
          let inside =
            subst (λ n. at_path n is a ≡ some v) ((eq_iff i "verification").0 (ground arith))
              (sym (at_path-child "answer" i is overrides e) ∙ there) in
          ground (arith, at_path-absent "verification" is a)
    ]

apply_legacy-at_path :
    (payload overrides : Fields) (k : String) (ks : List String) {v : Value}
    → at_path k ks overrides ≡ some v
    → as_obj v ≡ none
    → at_path k ks (apply_legacy_answer_override payload overrides) ≡ at_path k ks payload
unfolding apply_legacy_answer_override
apply_legacy-at_path payload overrides k ks h leaf =
    elim (Option-cases (child "answer" overrides)) [
      | inl e ↦ rw (apply_legacy_answer_override, e) refl
      | inr (a, e) ↦ elim (Bool-cases (legacy_applies a)) [
        | inr f ↦ rw (apply_legacy_answer_override, e, f) refl
        | inl f ↦
            rw (apply_legacy_answer_override, e, f)
              (set_citation_validation-at_path
                (flag_value (get "deterministic_citation_validation" a)) payload k ks
                (legacy-Outside a overrides e f k ks h leaf))
      ]
    ]

-- Every setting of a request that is no dictionary is in the payload that is validated, at its path, also
-- when the legacy switch writes into the payload; only the name is the profile's.
pub profile_payload-at_path :
    (profiles : Fields) (name : String) (overrides : Fields) (k : String) (ks : List String)
    {payload : Fields} {v : Value}
    → ProperFields overrides
    → profile_payload profiles name overrides ≡ some payload
    → at_path k ks overrides ≡ some v
    → as_obj v ≡ none
    → (k == "name") ≡ false
    → at_path k ks payload ≡ some v
unfolding profile_payload
profile_payload-at_path profiles name end k ks p h set leaf other =
    ground (arith, at_path-empty k ks)
profile_payload-at_path profiles name (field j u rest) k ks {payload} {v} p h set leaf other =
    let given = field j u rest in
    elim (Option-cases (child name profiles)) [
      | inl e ↦ ground arith
      | inr (profile, e) ↦
          let merged = deep_merge profile given in
          let written = apply_legacy_answer_override merged given in
          let same : put "name" (text name) written ≡ payload = ground arith in
          ap (at_path k ks) (sym same)
          ∙ at_path-put_other k ks "name" (text name) written other
          ∙ apply_legacy-at_path merged given k ks set leaf
          ∙ deep_merge-at_path k ks profile given p set leaf
    ]
