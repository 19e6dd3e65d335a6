-- ===== src/Search/Authority.antt =====
-- Who may see what a search returns.
use wikipedia_rag.Common.{
  ℕ, zero, suc, ◌+◌, min, String, Bool, true, false, List, [], ◌∷◌, Option, some, leb, string_eq,
  if◌then◌else◌, take, keep, all, contains, map, none, ◌⊎◌, ◌≡◌, refl, inl, inr, Bool-cases,
  Option-cases, arith,
}
use wikipedia_rag.Access.{PlatformRole}
use wikipedia_rag.Grants.{authorized_document_ids}
use wikipedia_rag.Grants.Batch.{readable_document, authorized_document_ids-readable}
use wikipedia_rag.Grants.Rows.{UniqueKbs, UniqueDocuments}
use wikipedia_rag.Search.{
  Platform, Raising, gives, handled, unhandled, SearchRequest, SearchResult, search_max_window,
}
use wikipedia_rag.Search.Window.{cache_window-window}
use wikipedia_rag.Search.Groups.{Facet, evidence_facets}
use wikipedia_rag.Search.Filters.{matches_request}
use wikipedia_rag.Search.Results.{search_result}
use wikipedia_rag.Search.Service.{
  Services, Cached, confirm_workspace_search_results, confirm_current_search_results, confirmed,
  drop, page_response, search_window, serve_window, respond, fingerprint_of, run_public_search,
  start_of, retrieval_of, other_search, usable, SearchOutcome, served, raised, out_of_fuel,
}
use wikipedia_rag.Search.Cursor.{
  Codec, padded, clamp, offset_number, offset_of, read_payload, read_value, decode_cursor,
}
use wikipedia_rag.Json.{
  Value, Fields, null, bool, int, real, nonfinite, text, arr, obj, opaque, get,
}
use wikipedia_rag.Common.Int.{ℤ}
use wikipedia_rag.Common.Text.{is_empty}

module _ {ℓ} {A : Type ℓ} where
  all-keep_of :
      (p q : A → Bool) (xs : List A)
      → ((x : A) → p x ≡ true → q x ≡ true)
      → all q (keep p xs) ≡ true
  all-keep_of p q [] h = refl
  all-keep_of p q (x ∷ xs) h = ground (arith, h x, all-keep_of p q xs h)

  all-take : (q : A → Bool) (n : ℕ) (xs : List A) → all q xs ≡ true → all q (take n xs) ≡ true
  all-take q (suc n) (x ∷ xs) h = ground (arith, all-take q n xs)
  all-take q (suc n) [] h = refl
  all-take q zero xs h = refl

  all-drop : (q : A → Bool) (n : ℕ) (xs : List A) → all q xs ≡ true → all q (drop n xs) ≡ true
  all-drop q (suc n) (x ∷ xs) h = all-drop q n xs (ground arith)
  all-drop q (suc n) [] h = refl
  all-drop q zero xs h = h

abbrev pub Breaks : Platform → Codec → String → Type 0
Breaks python codec cursor =
    (codec.decode (padded cursor) ≡ unhandled)
    ⊎ ((payload : Fields) × (v : Value) × (codec.decode (padded cursor) ≡ gives (obj payload))
        × (get "offset" payload ≡ some v)
        × (offset_number codec python v ≡ unhandled))

clamp-none :
    (python : Platform) (codec : Codec) (n : Raising ℤ)
    → clamp codec python n ≡ none
    → n ≡ unhandled
clamp-none python codec (gives z) h = ground arith
clamp-none python codec handled h = ground arith
clamp-none python codec unhandled h = refl

offset_of-none :
    (python : Platform) (codec : Codec) (found : Option Value)
    → offset_of codec python found ≡ none
    → (v : Value) × (found ≡ some v) × (offset_number codec python v ≡ unhandled)
offset_of-none python codec none h = ground arith
offset_of-none python codec (some v) h = (v, refl, clamp-none python codec _ h)

read_payload-none :
    (python : Platform) (codec : Codec) (payload : Fields)
    → read_payload codec python payload ≡ none
    → offset_of codec python (get "offset" payload) ≡ none
read_payload-none python codec payload h =
    elim (Option-cases (offset_of codec python (get "offset" payload))) [
      | inl e ↦ e
      | inr (n, e) ↦ ground arith
    ]

read_value-none :
    (python : Platform) (codec : Codec) (d : Raising Value)
    → read_value codec python d ≡ none
    → (d ≡ unhandled)
      ⊎ ((payload : Fields) × (v : Value) × (d ≡ gives (obj payload))
          × (get "offset" payload ≡ some v)
          × (offset_number codec python v ≡ unhandled))
read_value-none python codec unhandled h = inl refl
read_value-none python codec handled h = ground arith
read_value-none python codec (gives (obj payload)) h =
    let (v, e, o) =
      offset_of-none python codec (get "offset" payload)
        (read_payload-none python codec payload h) in
    inr (payload, v, refl, e, o)
read_value-none python codec (gives null) h = ground arith
read_value-none python codec (gives (bool b)) h = ground arith
read_value-none python codec (gives (int z)) h = ground arith
read_value-none python codec (gives (real z n)) h = ground arith
read_value-none python codec (gives nonfinite) h = ground arith
read_value-none python codec (gives (text t)) h = ground arith
read_value-none python codec (gives (arr items)) h = ground arith
read_value-none python codec (gives opaque) h = ground arith

decode_cursor-none :
    (python : Platform) (codec : Codec) (cursor : String)
    → decode_cursor codec python cursor ≡ none
    → Breaks python codec cursor
unfolding decode_cursor
decode_cursor-none python codec cursor h = elim (Bool-cases (is_empty cursor)) [
  | inl e ↦ ground arith
  | inr e ↦ read_value-none python codec (codec.decode (padded cursor)) (rw (decode_cursor, e) at h)
]

start_of-none :
    (python : Platform) (codec : Codec) (r : SearchRequest)
    → start_of python codec r ≡ none
    → (cursor : String) × (r.cursor ≡ some cursor) × Breaks python codec cursor
start_of-none python codec r h = elim (Option-cases r.cursor) [
  | inl e ↦ ground arith
  | inr (cursor, e) ↦ (
    cursor,
    e,
    decode_cursor-none python codec cursor
        (elim (Bool-cases (is_empty cursor)) [ inl f ↦ ground arith | inr f ↦ ground arith ]),
  )
]

module _ (s : Services) (user : String) (role : PlatformRole) where
  -- The user may read the document of a result.
  abbrev pub readable : SearchResult → Bool
  readable r = readable_document s.postgres s.database user role r.document_id

  -- What a search may come to: a response with results that the user may read, or an exception, for a cursor that
  -- decodes to an object whose offset is a value on which `int` raises neither a TypeError nor a ValueError,
  -- or on which a decoder does so.
  abbrev pub MayShow : SearchRequest → SearchOutcome → Type 0
  MayShow r (served response after) = all readable response.results ≡ true
  MayShow r raised = (cursor : String) × (r.cursor ≡ some cursor) × Breaks s.python s.codec cursor
  MayShow r out_of_fuel = true ≡ false

  module _ (ukb : UniqueKbs s.database.knowledge_bases)
      (udoc : UniqueDocuments s.database.documents) where
    confirm-readable :
        (results : List SearchResult)
        → all readable
            (confirm_workspace_search_results s.postgres s.database (some user) (some role) results)
          ≡ true
    unfolding confirm_workspace_search_results
    confirm-readable results =
        let ids = map (λ (r : SearchResult). r.document_id) results in
        all-keep_of
          (λ r.
            contains r.document_id (authorized_document_ids s.postgres s.database user role ids))
          readable results
          (λ r h. ground (
            arith,
            authorized_document_ids-readable s.postgres s.database user role ids r.document_id ukb
                udoc,
          ))

    page-readable :
        (fingerprint : String) (r : SearchRequest) (offset : ℕ) (results : List SearchResult)
        (fs : List Facet)
        → all readable
            (page_response s.codec fingerprint r offset
              (confirmed s (some user) (some role) results)
              fs).results
          ≡ true
    unfolding page_response confirmed
    page-readable fingerprint r offset results fs =
        let kept = confirm-readable (confirm_current_search_results s.tables results) in
        all-take readable r.limit _
          (all-take readable (r.limit + 1) _ (all-drop readable offset _ kept))

    search-readable :
        (r : SearchRequest) (fingerprint : String) (offset : ℕ) (window : ℕ)
        → all readable
            (search_window s (some user) (some role) r fingerprint offset window).0.results
          ≡ true
    unfolding search_window
    search-readable r fingerprint offset window =
        let filtered =
          keep (matches_request s.python r)
            (s.retrieve (retrieval_of s (some user) (some role) r window)) in
        page-readable fingerprint r offset (map (search_result s.python) filtered)
          (if r.include_facets then evidence_facets s.python filtered else [])

    serve-readable :
        (r : SearchRequest) (fingerprint : String) (offset : ℕ) (cache : Option Cached) (window : ℕ)
        → all readable
            (serve_window s (some user) (some role) r fingerprint offset cache window).0.results
          ≡ true
    unfolding serve_window
    serve-readable r fingerprint offset cache window = elim (Option-cases (usable window cache)) [
      | inl e ↦ rw (serve_window, e) (search-readable r fingerprint offset window)
      | inr (c, e) ↦ rw (serve_window, e) (page-readable fingerprint r offset c.results c.facets)
    ]

    respond-readable :
        (r : SearchRequest) (fingerprint : String) (offset : ℕ) (cursor_fingerprint : Option String)
        (cache : Option Cached)
        → MayShow r
            (respond s (some user) (some role) r fingerprint offset cursor_fingerprint cache)
    unfolding respond
    respond-readable r fingerprint offset cursor_fingerprint cache =
        elim (Bool-cases (other_search cursor_fingerprint fingerprint)) [
          | inl e ↦ rw (respond, e) refl
          | inr e ↦ elim (Bool-cases (leb search_max_window offset)) [
            | inl f ↦ rw (respond, e, f) refl
            | inr f ↦
                let (w, g, _, _, _) = cache_window-window (offset + r.limit + 1) in
                rw (respond, e, f, g)
                  (serve-readable r fingerprint offset cache (min search_max_window w))
          ]
        ]

    -- A search by a user with a platform role returns a response, and the user may read the document of every
    -- result in it, whatever the retrieval finds, which results the cache holds and what the cursor says, or an
    -- exception leaves it. This happens only for a cursor that a decoder leaves with an exception other than a
    -- ValueError, or that decodes to an object with an offset on which `int` raises one other than a TypeError
    -- or ValueError. The ids of the knowledge bases and of the documents are unique.
    pub run_public_search-readable :
        (r : SearchRequest) (knowledge_base_ids : List String) (cache : Option Cached)
        → MayShow r (run_public_search s (some user) (some role) r knowledge_base_ids cache)
    unfolding run_public_search
    run_public_search-readable r knowledge_base_ids cache =
        elim (Option-cases (start_of s.python s.codec r)) [
          | inl e ↦ rw (run_public_search, e) (start_of-none s.python s.codec r e)
          | inr (start, e) ↦
              rw (run_public_search, e)
                (respond-readable r (fingerprint_of s (some user) (some role) r knowledge_base_ids)
                  start.0 start.1 cache)
        ]
