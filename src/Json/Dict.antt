-- ===== src/Json/Dict.antt =====
-- The operations of a dictionary, and dictionaries that hold each key once at every depth.
use wikipedia_rag.Common.{
  String, true, false, none, some, ◌==◌, string_eq, ◌≡◌, refl, ◌∙◌, inl, inr, subst, Bool-cases,
  arith, eq_iff,
}
use wikipedia_rag.Json.{Value, Items, Fields, arr, obj, nil, cons, end, field, get, put, drop_key}

pub same_key : (j : String) → (j == j) ≡ true
same_key j = (eq_iff j j).1 refl

pub get-put : (j : String) (u : Value) (fs : Fields) → get j (put j u fs) ≡ some u
get-put j u end = rw (get, same_key j) refl
get-put j u (field k v fs) = ground (arith, get-put j u fs)

pub get-put_other :
    (i j : String) (u : Value) (fs : Fields) → (i == j) ≡ false → get i (put j u fs) ≡ get i fs
get-put_other i j u end h = rw (get, h) refl
get-put_other i j u (field k v fs) h = elim (Bool-cases (j == k)) [
  | inl e ↦ ground (arith, eq_iff j k, eq_iff i j, eq_iff i k)
  | inr e ↦ ground (arith, get-put_other i j u fs h)
]

pub get-drop_key_other :
    (i j : String) (fs : Fields) → (i == j) ≡ false → get i (drop_key j fs) ≡ get i fs
get-drop_key_other i j end h = refl
get-drop_key_other i j (field k v fs) h = elim (Bool-cases (j == k)) [
  | inl e ↦ ground (arith, eq_iff j k, eq_iff i j, eq_iff i k)
  | inr e ↦ ground (arith, get-drop_key_other i j fs h)
]

-- Each key comes once, in the dictionary and in every dictionary below it.
unfoldable mutual
  pub Proper : Value → Type 0
  Proper (arr xs) = ProperItems xs
  Proper (obj fs) = ProperFields fs
  Proper _ = Unit

  pub ProperItems : Items → Type 0
  ProperItems nil = Unit
  ProperItems (cons v xs) = Proper v × ProperItems xs

  pub ProperFields : Fields → Type 0
  ProperFields end = Unit
  ProperFields (field k v fs) = (get k fs ≡ none) × Proper v × ProperFields fs

pub Proper-get :
    (j : String) (fs : Fields) {v : Value} → ProperFields fs → get j fs ≡ some v → Proper v
unfolding Proper
Proper-get j (field k u fs) p h = elim (Bool-cases (j == k)) [
  | inl e ↦ subst Proper (ground arith) p.1
  | inr e ↦ Proper-get j fs p.2 (ground arith)
]
Proper-get j end p h = cc

pub put-ProperFields :
    (j : String) (u : Value) (fs : Fields) → Proper u → ProperFields fs → ProperFields (put j u fs)
unfolding Proper
put-ProperFields j u end q p = (refl, q, tt)
put-ProperFields j u (field k v fs) q p = elim (Bool-cases (j == k)) [
  | inl e ↦ rw (put, e) (p.0, q, p.2)
  | inr e ↦
      rw (put, e)
        (
          get-put_other k j u fs (ground (arith, eq_iff j k, eq_iff k j)) ∙ p.0,
          p.1,
          put-ProperFields j u fs q p.2,
        )
]

get-drop_key-none : (i j : String) (fs : Fields) → get i fs ≡ none → get i (drop_key j fs) ≡ none
get-drop_key-none i j end h = refl
get-drop_key-none i j (field k v fs) h = elim (Bool-cases (i == k)) [
  | inl e ↦ ground arith
  | inr e ↦ ground (arith, get-drop_key-none i j fs)
]

pub drop_key-ProperFields :
    (j : String) (fs : Fields) → ProperFields fs → ProperFields (drop_key j fs)
unfolding Proper
drop_key-ProperFields j end p = tt
drop_key-ProperFields j (field k v fs) p = elim (Bool-cases (j == k)) [
  | inl e ↦ rw (drop_key, e) p.2
  | inr e ↦ rw (drop_key, e) (get-drop_key-none k j fs p.0, p.1, drop_key-ProperFields j fs p.2)
]

-- Each key comes once, in the dictionary itself.
abbrev pub Single : Fields → Type 0
Single end = Unit
Single (field k v fs) = (get k fs ≡ none) × Single fs

pub put-Single : (j : String) (u : Value) (fs : Fields) → Single fs → Single (put j u fs)
put-Single j u end s = (refl, tt)
put-Single j u (field k v fs) s = elim (Bool-cases (j == k)) [
  | inl e ↦ rw (put, e) s
  | inr e ↦
      rw (put, e)
        (
          get-put_other k j u fs (ground (arith, eq_iff j k, eq_iff k j)) ∙ s.0,
          put-Single j u fs s.1,
        )
]
