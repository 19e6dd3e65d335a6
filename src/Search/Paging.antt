-- ===== src/Search/Paging.antt =====
-- The pages of a search, followed by their cursors.
use wikipedia_rag.Common.{
  ℕ, zero, suc, ◌+◌, ◌≤◌, ◌<◌, min, String, true, false, List, ◌++◌, Option, none, some, leb, ltb,
  ltb→lt, string_eq, length, take, ◌≡◌, refl, ap, subst, sym, ◌∙◌, inl, inr, Bool-cases, arith,
  eq_iff,
}
use wikipedia_rag.Common.Text.{is_empty}
use wikipedia_rag.Access.{PlatformRole}
use wikipedia_rag.Search.{SearchRequest, SearchResult, search_initial_window, search_max_window}
use wikipedia_rag.Search.Cursor.{cursor_payload, encode_cursor, decode_cursor}
use wikipedia_rag.Search.RoundTrip.{Base64Json, decode_cursor-encode_cursor}
use wikipedia_rag.Search.Slices.{take-whole, take++drop, drop-drop, length-drop}
use wikipedia_rag.Search.Window.{cache_window-window, cache_window-least}
use wikipedia_rag.Search.Service.{
  Services, Cached, SearchResponse, SearchOutcome, served, drop, start_of, other_search,
  serve_window, respond, run_public_search,
}
use wikipedia_rag.Search.Pages.{
  turn, collect, collect-last, collect-more, Ranked, Holds, IsPage, fingerprint, fingerprint-turn,
  follow, reaches, serve_window-Paged,
}

module _ (s : Services) (user : Option String) (role : Option PlatformRole) (r : SearchRequest)
    (knowledge_base_ids : List String) where
  module _ (ranking : List SearchResult)
      (ranked : Ranked s user role r knowledge_base_ids ranking) where
    -- What a search that starts at an offset inside the ranking comes to.
    abbrev Answers : ℕ → SearchOutcome → Type 0
    Answers offset outcome =
        (response : SearchResponse) × (after : Option Cached) × (outcome ≡ served response after)
        × IsPage s user role r knowledge_base_ids ranking offset response
        × Holds s user role r knowledge_base_ids ranking after

    module _ (small : length ranking ≤ search_max_window) where
      respond-Answers :
          (cursor : Option String) (offset : ℕ) (named : Option String) (cache : Option Cached)
          → other_search named (fingerprint s user role r knowledge_base_ids) ≡ false
          → offset < search_max_window
          → Holds s user role r knowledge_base_ids ranking cache
          → Answers offset (
              respond s user role
                (turn cursor r)
                (fingerprint s user role r knowledge_base_ids)
                offset
                named
                cache)
      unfolding respond
      respond-Answers cursor offset named cache f below holds =
          let inside : leb search_max_window offset ≡ false = ground arith in
          let (w, g, high, wide, low) = cache_window-window (offset + r.limit + 1) in
          let least : search_initial_window ≤ min search_max_window w =
            omega (arith, cache_window-least (offset + r.limit + 1) g) in
          let wide_enough =
            reaches s user role r knowledge_base_ids offset (length ranking) w wide small in
          let answer =
            serve_window s user role (turn cursor r) (fingerprint s user role r knowledge_base_ids)
              offset cache (min search_max_window w) in
          let (is_page, holds') =
            serve_window-Paged s user role r knowledge_base_ids ranking ranked cursor offset
              (min search_max_window w) cache least (omega arith) wide_enough holds in
          (answer.0, answer.1, rw (respond, f, inside, g) refl, is_page, holds')

      run_public_search-Answers :
          (cursor : Option String) (offset : ℕ) (named : Option String) (cache : Option Cached)
          → start_of s.python s.codec (turn cursor r) ≡ some (offset, named)
          → other_search named (fingerprint s user role r knowledge_base_ids) ≡ false
          → offset < search_max_window
          → Holds s user role r knowledge_base_ids ranking cache
          → Answers offset (run_public_search s user role (turn cursor r) knowledge_base_ids cache)
      unfolding run_public_search
      run_public_search-Answers cursor offset named cache e f below holds =
          subst (Answers offset)
            (sym (
              rw (run_public_search, e)
                (ap (λ fp. respond s user role (turn cursor r) fp offset named cache)
                  (fingerprint-turn s user role r knowledge_base_ids cursor))))
            (respond-Answers cursor offset named cache f below holds)

      module _
          (law : (offset : ℕ)
            → Base64Json s.codec
                (cursor_payload offset (some (fingerprint s user role r knowledge_base_ids))))
          (filled : is_empty (fingerprint s user role r knowledge_base_ids) ≡ false)
          (positive : 1 ≤ r.limit) where
        decode_cursor-empty :
            (cursor : String)
            → is_empty cursor ≡ true
            → decode_cursor s.codec s.python cursor ≡ some (0, none)
        unfolding decode_cursor
        decode_cursor-empty cursor e = rw (decode_cursor, e) refl

        start_of-next :
            (offset : ℕ)
            → offset ≤ search_max_window
            → start_of s.python s.codec (
                turn
                  (some (
                    encode_cursor s.codec offset
                      (some (fingerprint s user role r knowledge_base_ids))))
                  r)
              ≡ some (offset, some (fingerprint s user role r knowledge_base_ids))
        start_of-next offset h =
            let cursor =
              encode_cursor s.codec offset (some (fingerprint s user role r knowledge_base_ids)) in
            let read : decode_cursor s.codec s.python cursor
                ≡ some (offset, some (fingerprint s user role r knowledge_base_ids)) =
              decode_cursor-encode_cursor s.codec s.python offset
                (fingerprint s user role r knowledge_base_ids) (law offset) filled
              ∙ ap (λ n. some (n, some (fingerprint s user role r knowledge_base_ids)))
                  (omega (arith, h)) in
            elim (Bool-cases (is_empty cursor)) [
              | inr e ↦ rw e read
              | inl e ↦ ground (arith, decode_cursor-empty cursor e, read)
            ]

        other_search-same :
            other_search
              (some (fingerprint s user role r knowledge_base_ids))
              (fingerprint s user role r knowledge_base_ids)
            ≡ false
        other_search-same = ground (
          arith,
          eq_iff (fingerprint s user role r knowledge_base_ids)
              (fingerprint s user role r knowledge_base_ids),
        )

        follow-drop :
            (fuel offset : ℕ) (cursor named : Option String) (cache : Option Cached)
            → start_of s.python s.codec (turn cursor r) ≡ some (offset, named)
            → other_search named (fingerprint s user role r knowledge_base_ids) ≡ false
            → offset < search_max_window
            → Holds s user role r knowledge_base_ids ranking cache
            → length (drop offset ranking) < fuel
            → follow s user role r knowledge_base_ids fuel cursor cache ≡ some (drop offset ranking)
        unfolding follow
        follow-drop zero offset cursor named cache e f below holds h = ground arith
        follow-drop (suc fuel) offset cursor named cache e f below holds h =
            let (response, after, answered, (shown, more), holds') =
              run_public_search-Answers cursor offset named cache e f below holds in
            elim (Bool-cases (ltb r.limit (length (drop offset ranking)))) [
              | inr last ↦
                  ap
                    (collect
                      (λ c after'. follow s user role r knowledge_base_ids fuel (some c) after'))
                    answered
                  ∙ collect-last
                      (λ c after'. follow s user role r knowledge_base_ids fuel (some c) after')
                      response after (more ∙ rw last refl)
                  ∙ ap some (shown ∙ take-whole r.limit (drop offset ranking) last)
              | inl goes_on ↦
                  let longer = ltb→lt r.limit (length (drop offset ranking)) goes_on in
                  let inside : offset + r.limit < search_max_window =
                    omega (arith, small, longer, length-drop offset ranking) in
                  let shorter : length (drop (offset + r.limit) ranking) < fuel = omega (
                    arith,
                    h,
                    longer,
                    positive,
                    length-drop offset ranking,
                    length-drop (offset + r.limit) ranking,
                  ) in
                  let later =
                    follow-drop fuel (offset + r.limit)
                      (some (
                        encode_cursor s.codec (offset + r.limit)
                          (some (fingerprint s user role r knowledge_base_ids))))
                      (some (fingerprint s user role r knowledge_base_ids)) after
                      (start_of-next (offset + r.limit) (omega arith)) other_search-same inside
                      holds' shorter in
                  ap
                    (collect
                      (λ c after'. follow s user role r knowledge_base_ids fuel (some c) after'))
                    answered
                  ∙ collect-more
                      (λ c after'. follow s user role r knowledge_base_ids fuel (some c) after')
                      response after (more ∙ rw goes_on refl) later
                  ∙ ap some (
                      ap (λ xs. xs ++ drop (offset + r.limit) ranking) shown
                      ∙ ap (λ xs. take r.limit (drop offset ranking) ++ xs)
                          (sym (drop-drop offset r.limit ranking))
                      ∙ take++drop r.limit (drop offset ranking))
            ]

        -- A client that asks for the first page and follows the cursors is given exactly the results of the
        -- ranking, at most 1000: none is lost or repeated, no search raises or refuses a cursor, and there
        -- are at most as many pages as results and one. The cache, which is empty at first or holds a
        -- window of the ranking, goes from search to search, and the windows widen. The limit is positive,
        -- the fingerprint is not empty, cursors are base64 of JSON, and the searches agree on the ranking: for every window from 50 to 1000 they find and confirm its first
        -- results, and a cached window is confirmed whole.
        pub follow_all :
            (cache : Option Cached)
            → Holds s user role r knowledge_base_ids ranking cache
            → follow s user role r knowledge_base_ids (suc (length ranking)) none cache
              ≡ some ranking
        follow_all cache holds =
            follow-drop (suc (length ranking)) 0 none none cache refl refl (omega arith) holds
              (omega arith)
