-- ===== src/Search/Pages.antt =====
-- What the pages of a search hold.
use wikipedia_rag.Common.{
  ℕ, zero, suc, ◌+◌, ◌≤◌, min, String, true, List, ◌++◌, Option, none, some, leb, ltb, string_eq,
  if◌then◌else◌, length, take, length-take-le, map, keep, ◌≡◌, ◌⊎◌, refl, ap, subst, sym, ◌∙◌, inl,
  inr, Bool-cases, Option-cases, arith,
}
use wikipedia_rag.Access.{PlatformRole}
use wikipedia_rag.Search.{SearchRequest, SearchResult, search_initial_window, search_max_window}
use wikipedia_rag.Search.Cursor.{encode_cursor}
use wikipedia_rag.Search.Groups.{Facet}
use wikipedia_rag.Search.Filters.{matches_request}
use wikipedia_rag.Search.Results.{search_result, search_fingerprint, opensearch_filter_payload}
use wikipedia_rag.Search.Slices.{take-take_more, ltb-length_more, slice-prefix}
use wikipedia_rag.Search.Service.{
  Services, Cached, SearchResponse, SearchOutcome, served, raised, out_of_fuel, drop, page_response,
  confirmed, retrieval_of, usable, search_window, serve_window, fingerprint_of, run_public_search,
}

-- The request for a page: the first one, or the one of a cursor.
abbrev pub turn : Option String → SearchRequest → SearchRequest
turn cursor r = record r { cursor = cursor; offset = 0 }

-- What a client collects of an answer: its results, and those of the next page if it has a cursor.
abbrev pub collect :
    (String → Option Cached → Option (List SearchResult))
    → SearchOutcome
    → Option (List SearchResult)
collect next raised = none
collect next out_of_fuel = none
collect next (served response after) = elim response.next_cursor [
  | none ↦ some response.results
  | some cursor ↦ elim (next cursor after) [
    | none ↦ none
    | some later ↦ some (response.results ++ later)
  ]
]

pub collect-last :
    (next : String → Option Cached → Option (List SearchResult)) (response : SearchResponse)
    (after : Option Cached)
    → response.next_cursor ≡ none
    → collect next (served response after) ≡ some response.results
collect-last next response after h = rw h refl

pub collect-more :
    (next : String → Option Cached → Option (List SearchResult)) (response : SearchResponse)
    (after : Option Cached) {cursor : String} {later : List SearchResult}
    → response.next_cursor ≡ some cursor
    → next cursor after ≡ some later
    → collect next (served response after) ≡ some (response.results ++ later)
collect-more next response after h e = rw (h, e) refl

one_more : (n : ℕ) → n + 1 ≡ suc n
one_more n = omega arith

shorter_than :
    (window window' : ℕ) (xs ys : List SearchResult)
    → leb window (length xs) ≡ true
    → xs ≡ take window' ys
    → window ≤ window'
shorter_than window window' xs ys h e =
    let bound : length xs ≤ window' =
      subst (λ (l : List SearchResult). length l ≤ window') (sym e) (length-take-le window' ys) in
    ground arith

module _ (s : Services) (user : Option String) (role : Option PlatformRole) (r : SearchRequest)
    (knowledge_base_ids : List String) where
  -- The results that a client sees who asks for a page and follows the cursors, and `none` where a search raises.
  -- What the cache holds under the fingerprint goes from each search to the next.
  unfoldable pub follow : ℕ → Option String → Option Cached → Option (List SearchResult)
  unfolding run_public_search
  follow zero cursor cache = none
  follow (suc fuel) cursor cache =
      collect (λ c after. follow fuel (some c) after)
        (run_public_search s user role (turn cursor r) knowledge_base_ids cache)

  abbrev pub fingerprint : String
  fingerprint = fingerprint_of s user role r knowledge_base_ids

  -- The results that a search for a window finds and confirms.
  abbrev pub found_for : SearchRequest → ℕ → List SearchResult
  found_for q window = confirmed s user role (
      map (search_result s.python)
        (keep (matches_request s.python q) (s.retrieve (retrieval_of s user role q window))))

  abbrev pub found : ℕ → List SearchResult
  found window = found_for r window

  -- The page that is asked for changes neither the retrieval nor the fingerprint.
  found-turn :
      (cursor : Option String) (window : ℕ) → found_for (turn cursor r) window ≡ found window
  unfolding matches_request opensearch_filter_payload
  found-turn cursor window = refl

  pub fingerprint-turn :
      (cursor : Option String)
      → fingerprint_of s user role (turn cursor r) knowledge_base_ids ≡ fingerprint
  unfolding fingerprint_of search_fingerprint
  fingerprint-turn cursor = refl

  -- The searches agree on one ranking: for each window its first results are found, all of which match and may
  -- be shown, and they are confirmed again as they are.
  abbrev pub Ranked : List SearchResult → Type 0
  Ranked ranking =
      (window : ℕ)
      → search_initial_window ≤ window
      → window ≤ search_max_window
      → (found window ≡ take window ranking)
        × (confirmed s user role (take window ranking) ≡ take window ranking)

  -- The cache is empty or holds the first results of the ranking.
  abbrev pub Holds : List SearchResult → Option Cached → Type 0
  Holds ranking none = Unit
  Holds ranking (some cached) =
      (window : ℕ) × (search_initial_window ≤ window)
      × (window ≤ search_max_window)
      × (cached.results ≡ take window ranking)

  -- A response with a page of the ranking, and a cursor if there is more.
  abbrev pub IsPage : List SearchResult → ℕ → SearchResponse → Type 0
  IsPage ranking offset response =
      (response.results ≡ take r.limit (drop offset ranking))
      × (response.next_cursor ≡ (
          if ltb r.limit (length (drop offset ranking))
          then some (encode_cursor s.codec (offset + r.limit) (some fingerprint))
          else none))

  page_response-IsPage :
      (ranking : List SearchResult) (cursor : Option String) (offset window : ℕ)
      (facets : List Facet)
      → (offset + suc r.limit ≤ window) ⊎ (length ranking ≤ window)
      → IsPage ranking offset
          (page_response s.codec fingerprint (turn cursor r) offset (take window ranking) facets)
  unfolding page_response
  page_response-IsPage ranking cursor offset window facets h =
      let slice : take (r.limit + 1) (drop offset (take window ranking))
          ≡ take (suc r.limit) (drop offset ranking) =
        ap (λ n. take n (drop offset (take window ranking))) (one_more r.limit)
        ∙ slice-prefix (suc r.limit) offset window ranking h in
      (
        ap (take r.limit) slice ∙ take-take_more r.limit (drop offset ranking),
        ap
            (λ b.
              if b
              then some (encode_cursor s.codec (offset + r.limit) (some fingerprint))
              else none)
            (ap (λ (xs : List SearchResult). ltb r.limit (length xs)) slice
              ∙ ltb-length_more r.limit (drop offset ranking)),
      )

  -- A window that is wide enough for the page at the offset.
  abbrev pub Wide : List SearchResult → ℕ → ℕ → Type 0
  Wide ranking offset window = (offset + suc r.limit ≤ window) ⊎ (length ranking ≤ window)

  wider :
      (ranking : List SearchResult) (offset window window' : ℕ)
      → window ≤ window'
      → Wide ranking offset window
      → Wide ranking offset window'
  wider ranking offset window window' h (inl e) = inl (omega (arith, h, e))
  wider ranking offset window window' h (inr e) = inr (omega (arith, h, e))

  pub reaches :
      (offset n w : ℕ)
      → min search_max_window (offset + r.limit + 1) ≤ w
      → n ≤ search_max_window
      → (offset + suc r.limit ≤ min search_max_window w) ⊎ (n ≤ min search_max_window w)
  reaches offset n w h small = elim (Bool-cases (leb (offset + suc r.limit) search_max_window)) [
    | inl e ↦ inl (ground arith)
    | inr e ↦ inr (ground arith)
  ]

  abbrev pub Paged : List SearchResult → ℕ → SearchResponse × Option Cached → Type 0
  Paged ranking offset answer = IsPage ranking offset answer.0 × Holds ranking answer.1

  module _ (ranking : List SearchResult) (ranked : Ranked ranking) where
    search_window-Paged :
        (cursor : Option String) (offset window : ℕ)
        → search_initial_window ≤ window
        → window ≤ search_max_window
        → Wide ranking offset window
        → Paged ranking offset (search_window s user role (turn cursor r) fingerprint offset window)
    unfolding search_window
    search_window-Paged cursor offset window low high wide =
        let finds = found-turn cursor window ∙ (ranked window low high).0 in
        (
          subst
              (λ (xs : List SearchResult). IsPage ranking offset (
                page_response s.codec fingerprint (turn cursor r) offset xs
                  (search_window s user role (turn cursor r) fingerprint offset window).0.facets))
              (sym finds)
              (page_response-IsPage ranking cursor offset window
                (search_window s user role (turn cursor r) fingerprint offset window).0.facets
                wide),
          (window, low, high, finds),
        )

    usable-Paged :
        (cursor : Option String) (offset window : ℕ) (cached : Cached) (hit : Cached)
        → usable window (some cached) ≡ some hit
        → Holds ranking (some cached)
        → Wide ranking offset window
        → IsPage ranking offset (
            page_response s.codec fingerprint
              (turn cursor r)
              offset
              (confirmed s user role hit.results)
              hit.facets)
    usable-Paged cursor offset window cached hit h (window', low, high, e) wide =
        elim (Bool-cases (leb window (length cached.results))) [
          | inr f ↦ ground arith
          | inl f ↦
              let same : hit.results ≡ take window' ranking = ground arith in
              let (_, again) = ranked window' low high in
              let larger : window ≤ window' =
                shorter_than window window' cached.results ranking (ground arith) e in
              subst
                (λ (xs : List SearchResult).
                  IsPage ranking offset
                    (page_response s.codec fingerprint (turn cursor r) offset xs hit.facets))
                (sym (ap (confirmed s user role) same ∙ again))
                (page_response-IsPage ranking cursor offset window' hit.facets
                  (wider ranking offset window window' larger wide))
        ]

    pub serve_window-Paged :
        (cursor : Option String) (offset window : ℕ) (cache : Option Cached)
        → search_initial_window ≤ window
        → window ≤ search_max_window
        → Wide ranking offset window
        → Holds ranking cache
        → Paged ranking offset
            (serve_window s user role (turn cursor r) fingerprint offset cache window)
    unfolding serve_window
    serve_window-Paged cursor offset window none low high wide holds =
        search_window-Paged cursor offset window low high wide
    serve_window-Paged cursor offset window (some cached) low high wide holds =
        elim (Option-cases (usable window (some cached))) [
          | inl e ↦ rw (serve_window, e) (search_window-Paged cursor offset window low high wide)
          | inr (hit, e) ↦
              rw (serve_window, e)
                (usable-Paged cursor offset window cached hit e holds wide, holds)
        ]
