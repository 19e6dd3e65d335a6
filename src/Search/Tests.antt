-- ===== src/Search/Tests.antt =====
-- Cursors, pages, windows and groups at small inputs, and their theorems there.
use Prim.Native.Char.{code}
use Prim.Native.String.{[], ◌∷◌}
use wikipedia_rag.Common.{
  ℕ, zero, suc, ◌*◌, ◌≤◌, ◌<◌, min, String, true, false, List, [], ◌∷◌, Option, none, some, ◌==◌,
  nat_eq, string_eq, if◌then◌else◌, keep, length, ◌≡◌, ◌⊎◌, refl, ap, arith,
}
use wikipedia_rag.Common.Int.{ℤ, pos}
use wikipedia_rag.Common.Text.{is_empty}
use wikipedia_rag.Json.{Value, nonfinite, int, obj, get}
use wikipedia_rag.Search.{
  Platform, Raising, gives, handled, unhandled, SearchRequest, SearchResult, cache_window,
  search_max_window, search_initial_window,
}
use wikipedia_rag.Search.Cursor.{
  Codec, append, padding, text_length, missing_padding, cut_padding, cursor_payload, encode_cursor,
  decode_cursor,
}
use wikipedia_rag.Search.RoundTrip
use wikipedia_rag.Search.RoundTrip.{Base64Json}
use wikipedia_rag.Search.Window
use wikipedia_rag.Search.Tally
use wikipedia_rag.Search.Tally.{sum_of, hits_in, Descending}
use wikipedia_rag.Search.Groups.{document_groups}

-- A codec that writes the offset in unary, as so many `a` before a `b`.
abbrev unary : ℕ → String
unary zero = "b"
unary (suc n) = append "a" (unary n)

abbrev count_a : String → ℕ
count_a [] = 0
count_a (c ∷ s) = if code c == 97 then suc (count_a s) else count_a s

abbrev offset_in : Option Value → ℕ
offset_in (some (int (pos n))) = n
offset_in _ = 0

abbrev pub unary_codec : Codec
unary_codec = record {
  encode = λ p.
      let body = unary (offset_in (get "offset" p)) in
      append body (padding (missing_padding (text_length body)));
  decode = λ s. gives (obj (cursor_payload (count_a s) (some "fp")));
}

length-unary : (n : ℕ) → text_length (unary n) ≡ suc n
length-unary zero = refl
length-unary (suc n) = ap suc (length-unary n)

unary-filled : (n : ℕ) → is_empty (unary n) ≡ false
unary-filled zero = refl
unary-filled (suc n) = refl

cut_padding-unary : (n : ℕ) → cut_padding (unary n) ≡ unary n
unfolding cut_padding
cut_padding-unary zero = refl
cut_padding-unary (suc n) = rw (cut_padding, cut_padding-unary n, unary-filled n) refl

count_a-unary : (n k : ℕ) → count_a (append (unary n) (padding k)) ≡ n
count_a-unary zero zero = refl
count_a-unary zero (suc k) = count_a-unary zero k
count_a-unary (suc n) k = ap suc (count_a-unary n k)

pub unary-Base64Json : (n : ℕ) → Base64Json unary_codec (cursor_payload n (some "fp"))
unary-Base64Json n = (
  unary n,
  missing_padding (text_length (unary n)),
  ground (arith, length-unary n),
  ground (arith, length-unary n),
  unary-filled n,
  cut_padding-unary n,
  refl,
  ap (λ k. gives (obj (cursor_payload k (some "fp"))))
      (count_a-unary n (missing_padding (text_length (unary n)))),
)

abbrev pub python : Platform
python = record {
  casefold = λ s. s;
  str = λ v. "0";
  int_of = λ v. elim v as (λ _. Raising ℤ) [ nonfinite ↦ unhandled | _ ↦ handled ];
  iso_date = λ s. none;
  iso_text = λ d. "";
  dumps = λ v. "";
  stable_hash = λ parts n. "fp";
}

abbrev pub hit : String → String → String → ℕ → SearchResult
hit chunk document kb score = record {
  chunk_id = chunk;
  document_id = document;
  document_version_id = none;
  knowledge_base_id = kb;
  title = "";
  source_url = "";
  source_type = "upload";
  document_type = none;
  language = none;
  document_date = none;
  score = pos score;
}

abbrev pub request : SearchRequest
request = record {
  query = "antarctic stations";
  limit = 2;
  offset = 0;
  cursor = none;
  ranking_profile = none;
  include_facets = false;
  group_by_document = true;
  filters = record {
    document_type = none;
    language = none;
    date_from = none;
    date_to = none;
    source = none;
    source_kind = none;
    source_id = none;
  };
  filter_expressions = [];
}

abbrev hits : List SearchResult
hits = hit "c1" "d1" "kb" 9 ∷ hit "c2" "d2" "kb" 8 ∷ hit "c3" "d1" "kb" 7 ∷ []

decode_cursor-encode_cursor_example :
    decode_cursor unary_codec python (encode_cursor unary_codec 12 (some "fp"))
    ≡ some (12, some "fp")
decode_cursor-encode_cursor_example =
    RoundTrip.decode_cursor-encode_cursor unary_codec python 12 "fp" (unary-Base64Json 12) refl

cache_window-window_example :
    (w : ℕ) × (cache_window 230 ≡ some w)
    × (w ≤ search_max_window)
    × (min search_max_window 230 ≤ w)
    × ((w ≡ search_initial_window) ⊎ (w < 230 * 2))
cache_window-window_example = Window.cache_window-window 230

document_groups-hits_example :
    sum_of (hits_in "d1") (document_groups hits) ≡ length (keep (λ r. r.document_id == "d1") hits)
document_groups-hits_example = Tally.document_groups-hits hits "d1"
