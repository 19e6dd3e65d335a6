-- ===== src/Retrieval/Quota.antt =====
-- `apply_knowledge_base_cap` and `apply_page_quota`: what each leaves of one knowledge base or page.
use wikipedia_rag.Common.{
  ℕ, ◌+◌, ◌-◌, zero, suc, ◌≤◌, String, true, List, [], ◌∷◌, ◌≡◌, refl, sym, ◌∙◌, ◌<◌, ◌==◌,
  string_eq, keep, take, ◌↔◌, eq_iff, arith, ap,
}
use wikipedia_rag.Retrieval.{
  Candidate, PageKey, page_key_beq, page_scope_key, knowledge_base_key, counted, cap_from,
  apply_knowledge_base_cap, quota_from, apply_page_quota,
}

module _ {ℓ} {A : Type ℓ} where
  take_nil : (n : ℕ) → take {A = A} n [] ≡ []
  take_nil zero = refl
  take_nil (suc n) = refl

  take-suc :
      (n m : ℕ) (x : A) (xs : List A) → m < n → take (n - m) (x ∷ xs) ≡ x ∷ take (n - (m + 1)) xs
  take-suc n m x xs h = let e : n - m ≡ suc (n - (m + 1)) = omega arith in rw e refl

  take-none : (n m : ℕ) (xs : List A) → n ≤ m → take (n - m) xs ≡ []
  take-none n m xs h = let e : n - m ≡ 0 = omega arith in rw e refl

cap_from_lem :
    (n : ℕ) (counts : String → ℕ) (cs : List Candidate) (k : String)
    → keep (λ c. knowledge_base_key c == k) (cap_from n counts cs)
      ≡ take (n - counts k) (keep (λ c. knowledge_base_key c == k) cs)
unfolding cap_from
cap_from_lem n counts [] k = sym (take_nil (n - counts k))
cap_from_lem n counts (c ∷ cs) k =
    let counts' = counted (λ a b. a == b) counts (knowledge_base_key c) in
    ground (
      arith,
      cap_from_lem n counts' cs k,
      take-suc n (counts k) c (keep (λ c. knowledge_base_key c == k) cs),
      take-none n (counts k) (keep (λ c. knowledge_base_key c == k) (c ∷ cs)),
      take-none n (counts k + 1) (keep (λ c. knowledge_base_key c == k) cs),
      eq_iff (knowledge_base_key c) k,
      λ (e : knowledge_base_key c ≡ k). ap counts' e,
      λ (e : knowledge_base_key c ≡ k). ap counts e,
    )

page_key_beq_iff : (p q : PageKey) → (page_key_beq p q ≡ true) ↔ (p ≡ q)
page_key_beq_iff (a, b, c) (x, y, z) = ground (arith, eq_iff a x, eq_iff b y, eq_iff c z)

quota_from_lem :
    (n : ℕ) (counts : PageKey → ℕ) (cs : List Candidate) (k : PageKey)
    → keep (λ c. page_key_beq (page_scope_key c) k) (quota_from n counts cs)
      ≡ take (n - counts k) (keep (λ c. page_key_beq (page_scope_key c) k) cs)
unfolding quota_from
quota_from_lem n counts [] k = sym (take_nil (n - counts k))
quota_from_lem n counts (c ∷ cs) k =
    let counts' = counted page_key_beq counts (page_scope_key c) in
    ground (
      arith,
      quota_from_lem n counts cs k,
      quota_from_lem n counts' cs k,
      take-suc n (counts k) c (keep (λ c. page_key_beq (page_scope_key c) k) cs),
      take-none n (counts k) (keep (λ c. page_key_beq (page_scope_key c) k) (c ∷ cs)),
      take-none n (counts k) (keep (λ c. page_key_beq (page_scope_key c) k) cs),
      page_key_beq_iff (page_scope_key c) k,
      λ (e : page_scope_key c ≡ k). ap counts' e,
      λ (e : page_scope_key c ≡ k). ap counts e,
    )

-- Of the candidates of each knowledge base the cap leaves exactly the first `max_per_kb`, in their
-- order.
pub apply_knowledge_base_cap-take :
    (candidates : List Candidate) (max_per_kb : ℕ) (kb_id : String)
    → keep (λ c. knowledge_base_key c == kb_id) (apply_knowledge_base_cap candidates max_per_kb)
      ≡ take max_per_kb (keep (λ c. knowledge_base_key c == kb_id) candidates)
unfolding apply_knowledge_base_cap
apply_knowledge_base_cap-take candidates n kb_id =
    let e : n - 0 ≡ n = omega arith in
    cap_from_lem n (λ k. 0) candidates kb_id
    ∙ ap (λ m. take m (keep (λ c. knowledge_base_key c == kb_id) candidates)) e

-- Of the candidates of each page the quota leaves exactly the first `max_per_page`, in their order.
pub apply_page_quota-take :
    (candidates : List Candidate) (max_per_page : ℕ) (page : PageKey)
    → keep (λ c. page_key_beq (page_scope_key c) page) (apply_page_quota candidates max_per_page)
      ≡ take max_per_page (keep (λ c. page_key_beq (page_scope_key c) page) candidates)
unfolding apply_page_quota
apply_page_quota-take candidates n page =
    let e : n - 0 ≡ n = omega arith in
    quota_from_lem n (λ k. 0) candidates page
    ∙ ap (λ m. take m (keep (λ c. page_key_beq (page_scope_key c) page) candidates)) e
