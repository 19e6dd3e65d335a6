-- ===== src/Retrieval.antt =====
-- What retrieval.py keeps of a candidate: the keys that selection reads or writes, and the scope keys.
pub mod Keys
pub mod Quota
pub mod Order
pub mod Events
pub mod Confirm
pub mod Packing
pub mod Profile
mod Tests
use wikipedia_rag.Common.{
  ℕ, ◌+◌, max, min, String, Bool, true, false, not, ◌&&◌, ◌||◌, Option, none, some, List, [], ◌∷◌,
  ◌++◌, map, ◌==◌, string_eq, nat_eq, any, keep, contains, length, is_nil, ltb, leb, if◌then◌else◌,
}
use wikipedia_rag.Common.Text.{is_empty, split, join_words}

pub record Locator : Type 0 where
  pub page : Option String
  pub page_id : Option String

pub record QueryContext : Type 0 where
  pub subquery_id : Option String
  pub transform_id : Option String

-- A missing key and None are `none`; a flag that is missing is false, a missing list is empty.
-- `title_aliases` holds the texts under redirect_title, redirect_source_title, alias_title,
-- matched_title and aliases, in that order.
pub record Metadata : Type 0 where
  pub parent_text : Option String
  pub content_hash : Option String
  pub parent_chunk_id : Option String
  pub content_unit_id : Option String
  pub supporting_chunk_ids : List String
  pub parent_expanded : Bool
  pub adjacent_expansion : Bool
  pub quota_overflow : Bool
  pub knowledge_base_id : Option String
  pub document_id : Option String
  pub locator : Option Locator
  pub title_aliases : List String
  pub query_context : Option QueryContext
  pub subquery_id : Option String
  pub transform_id : Option String

-- `ranks` is the dict in insertion order. The scores are read by no operation here.
pub record Candidate : Type 0 where
  pub chunk_id : Option String
  pub knowledge_base_id : Option String
  pub document_id : Option String
  pub source_url : Option String
  pub title : Option String
  pub section_path : List String
  pub content : String
  pub parent_chunk_id : Option String
  pub page_id : Option String
  pub locator : Option Locator
  pub query_context : Option QueryContext
  pub ranks : List (String × ℕ)
  pub metadata : Metadata

-- `x or rest`, where the empty text is false
unfoldable pub or_text : Option String → String → String
or_text none rest = rest
or_text (some s) rest = if is_empty s then rest else s

-- The first value that is not None, and the text of the last resort.
abbrev first_present : List (Option String) → String → String
first_present [] rest = rest
first_present (none ∷ values) rest = first_present values rest
first_present (some s ∷ values) rest = s

unfoldable pub locator_of : Candidate → Locator
locator_of c = elim c.locator [
  | some locator ↦ locator
  | none ↦ elim c.metadata.locator [
    | some locator ↦ locator
    | none ↦ record { page = none; page_id = none }
  ]
]

abbrev pub PageKey : Type 0
PageKey = String × String × String

unfoldable pub page_scope_key : Candidate → PageKey
unfolding or_text locator_of
page_scope_key c =
    let kb = or_text c.knowledge_base_id (or_text c.metadata.knowledge_base_id "") in
    let document =
      or_text c.document_id (or_text c.metadata.document_id (or_text c.chunk_id "unknown")) in
    let locator = locator_of c in
    let page =
      first_present (c.page_id ∷ locator.page ∷ locator.page_id ∷ [])
        (or_text c.chunk_id "unknown") in
    (kb, document, page)

abbrev pub page_key_beq : PageKey → PageKey → Bool
page_key_beq (a, b, c) (x, y, z) = a == x && b == y && c == z

unfoldable pub document_key : Candidate → String
unfolding or_text
document_key c = or_text c.document_id (or_text c.source_url (or_text c.title ""))

unfoldable pub knowledge_base_key : Candidate → String
unfolding or_text
knowledge_base_key c = or_text c.knowledge_base_id ""

-- A dict of counts: `counts.get(key, 0)`, and `counts[key] = counts.get(key, 0) + 1`.
module _ {ℓ} {K : Type ℓ} (same : K → K → Bool) where
  abbrev pub counted : (K → ℕ) → K → K → ℕ
  counted counts key k = if same key k then counts k + 1 else counts k

-- The loop of `apply_knowledge_base_cap`.
unfoldable pub cap_from : ℕ → (String → ℕ) → List Candidate → List Candidate
cap_from max_per_kb counts [] = []
cap_from max_per_kb counts (c ∷ candidates) =
    let kb_id = knowledge_base_key c in
    let counts' = counted (λ a b. a == b) counts kb_id in
    let rest = cap_from max_per_kb counts' candidates in
    if leb (counts' kb_id) max_per_kb then c ∷ rest else rest

unfoldable pub apply_knowledge_base_cap : List Candidate → ℕ → List Candidate
unfolding cap_from
apply_knowledge_base_cap candidates max_per_kb = cap_from max_per_kb (λ k. 0) candidates

-- The loop of `apply_page_quota`.
unfoldable pub quota_from : ℕ → (PageKey → ℕ) → List Candidate → List Candidate
quota_from max_per_page counts [] = []
quota_from max_per_page counts (c ∷ candidates) =
    let page_key = page_scope_key c in
    elim (leb max_per_page (counts page_key)) [
      | true ↦ quota_from max_per_page counts candidates
      | false ↦ c ∷ quota_from max_per_page (counted page_key_beq counts page_key) candidates
    ]

unfoldable pub apply_page_quota : List Candidate → ℕ → List Candidate
unfolding quota_from
apply_page_quota candidates max_per_page = quota_from max_per_page (λ k. 0) candidates

-- The loop of `_order_ambiguity_candidates`: `selected`, `seen_documents` and `remaining`.
unfoldable pub order_from :
    ℕ → List Candidate → List String → List Candidate → List Candidate → List Candidate
order_from limit selected seen remaining [] = selected ++ remaining
order_from limit selected seen remaining (c ∷ candidates) =
    let key = document_key c in
    elim (not (contains key seen) && ltb (length selected) limit) [
      | true ↦ order_from limit (selected ++ c ∷ []) (key ∷ seen) remaining candidates
      | false ↦ order_from limit selected seen (remaining ++ c ∷ []) candidates
    ]

-- `ambiguous` is the test `ambiguity_mode in {"auto", "always"}`.
unfoldable pub order_ambiguity_candidates : List Candidate → ℕ → Bool → List Candidate
unfolding order_from
order_ambiguity_candidates candidates requested_top_k ambiguous =
    if not ambiguous || leb (length candidates) 1
    then candidates
    else order_from (min 8 (min requested_top_k 12)) [] [] [] candidates
