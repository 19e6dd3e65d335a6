-- ===== src/Search/Stale.antt =====
-- What the cache keeps of a search without facets.
use wikipedia_rag.Common.{
  ℕ, ◌+◌, min, String, true, false, List, [], Option, none, some, leb, length, ◌≡◌, refl, ap, sym,
  ◌∙◌, inl, inr, Bool-cases,
}
use wikipedia_rag.Access.{PlatformRole}
use wikipedia_rag.Search.{SearchRequest, cache_window, search_max_window}
use wikipedia_rag.Search.Groups.{Facet}
use wikipedia_rag.Search.Results.{search_fingerprint}
use wikipedia_rag.Search.Service.{
  Services, Cached, SearchResponse, SearchOutcome, served, raised, out_of_fuel, start_of,
  other_search, search_window, serve_window, respond, fingerprint_of, run_public_search,
}

abbrev facets_after : SearchOutcome → List Facet
facets_after (served response (some cached)) = cached.facets
facets_after (served response none) = []
facets_after raised = []
facets_after out_of_fuel = []

-- The same search, with facets.
abbrev pub asking : SearchRequest → SearchRequest
asking r = record r { include_facets = true }

module _ (s : Services) (user : Option String) (role : Option PlatformRole) where
  respond-facets_after :
      (r : SearchRequest) (fingerprint : String) (offset : ℕ) (named : Option String) (window : ℕ)
      → r.include_facets ≡ false
      → cache_window (offset + r.limit + 1) ≡ some window
      → facets_after (respond s user role r fingerprint offset named none) ≡ []
  unfolding respond serve_window search_window
  respond-facets_after r fingerprint offset named window h w =
      elim (Bool-cases (other_search named fingerprint)) [
        | inl e ↦ rw (respond, e) refl
        | inr e ↦ elim (Bool-cases (leb search_max_window offset)) [
          | inl f ↦ rw (respond, e, f) refl
          | inr f ↦ rw (respond, e, f, w, h) refl
        ]
      ]

  serve_window-hit :
      (r : SearchRequest) (fingerprint : String) (offset window : ℕ) (cached : Cached)
      → leb window (length cached.results) ≡ true
      → (serve_window s user role (asking r) fingerprint offset (some cached) window).0.facets
        ≡ cached.facets
  unfolding serve_window
  serve_window-hit r fingerprint offset window cached fills = rw (serve_window, fills) refl

  -- A response without facets.
  abbrev pub Bare : SearchOutcome → Type 0
  Bare outcome =
      (response : SearchResponse) × (after : Option Cached) × (outcome ≡ served response after)
      × (response.facets ≡ [])

  respond-Bare :
      (r : SearchRequest) (fingerprint : String) (offset : ℕ) (named : Option String) (window : ℕ)
      (cached : Cached)
      → cache_window (offset + r.limit + 1) ≡ some window
      → leb (min search_max_window window) (length cached.results) ≡ true
      → cached.facets ≡ []
      → Bare (respond s user role (asking r) fingerprint offset named (some cached))
  unfolding respond serve_window
  respond-Bare r fingerprint offset named window cached w fills none_cached =
      elim (Bool-cases (other_search named fingerprint)) [
        | inl e ↦ rw (respond, e) (_, _, refl, refl)
        | inr e ↦ elim (Bool-cases (leb search_max_window offset)) [
          | inl f ↦ rw (respond, e, f) (_, _, refl, refl)
          | inr f ↦
              rw (respond, e, f, w)
                (_, _, refl, serve_window-hit r fingerprint offset _ cached fills ∙ none_cached)
        ]
      ]

  -- Once a search without facets has put its results into an empty cache, the same search with facets has the same
  -- fingerprint and finds that entry. As long as its results fill the window, the answer is a response that
  -- has no facets, whatever the evidence.
  pub run_public_search-without_facets :
      (r : SearchRequest) (knowledge_base_ids : List String) (offset window : ℕ)
      (named : Option String) (response : SearchResponse) (cached : Cached)
      → r.include_facets ≡ false
      → run_public_search s user role r knowledge_base_ids none ≡ served response (some cached)
      → start_of s.python s.codec r ≡ some (offset, named)
      → cache_window (offset + r.limit + 1) ≡ some window
      → leb (min search_max_window window) (length cached.results) ≡ true
      → (fingerprint_of s user role (asking r) knowledge_base_ids
          ≡ fingerprint_of s user role r knowledge_base_ids)
        × Bare (run_public_search s user role (asking r) knowledge_base_ids (some cached))
  unfolding run_public_search fingerprint_of search_fingerprint
  run_public_search-without_facets r ids offset window named response cached h first start w fills =
      let fingerprint = fingerprint_of s user role r ids in
      let begun : run_public_search s user role r ids none
          ≡ respond s user role r fingerprint offset named none =
        rw (run_public_search, start) refl in
      let bare : cached.facets ≡ [] =
        ap facets_after (sym first ∙ begun)
        ∙ respond-facets_after r fingerprint offset named window h w in
      (
        refl,
        rw (run_public_search, start)
            (respond-Bare r fingerprint offset named window cached w fills bare),
      )
