-- ===== src/Search/RoundTrip.antt =====
-- A cursor is read back as it was written.
use Prim.Native.String.{[], ◌∷◌}
use wikipedia_rag.Common.{
  ℕ, zero, suc, ◌+◌, ◌%◌, ◌<◌, min, String, false, some, ◌≡◌, refl, ap, ◌∙◌, sym, arith,
}
use wikipedia_rag.Common.Text.{is_empty}
use wikipedia_rag.Json.{Fields, obj}
use wikipedia_rag.Search.{Platform, gives, search_max_window}
use wikipedia_rag.Search.Cursor.{
  Codec, cut_padding, text_length, append, padding, missing_padding, padded, cursor_payload,
  encode_cursor, decode_cursor,
}

-- What base64 over JSON text does: the text is not empty and its length a multiple of four, of which the
-- last characters, fewer than four, are `=` and the one before them is not; and it is decoded again.
abbrev pub Base64Json : Codec → Fields → Type 0
Base64Json codec p =
    (body : String) × (n : ℕ) × (n < 4)
    × ((text_length body + n) % 4 ≡ 0)
    × (is_empty body ≡ false)
    × (cut_padding body ≡ body)
    × (codec.encode p ≡ append body (padding n))
    × (codec.decode (codec.encode p) ≡ gives (obj p))

cut_padding-padding : (n : ℕ) → cut_padding (padding n) ≡ ""
unfolding cut_padding
cut_padding-padding zero = refl
cut_padding-padding (suc n) = rw (cut_padding, cut_padding-padding n) refl

cut_padding-append : (s : String) (n : ℕ) → cut_padding (append s (padding n)) ≡ cut_padding s
unfolding cut_padding
cut_padding-append [] n = cut_padding-padding n
cut_padding-append (c ∷ s) n = rw (cut_padding, cut_padding-append s n) refl

missing_padding_lem : (l n : ℕ) → n < 4 → (l + n) % 4 ≡ 0 → missing_padding l ≡ n
missing_padding_lem l n h m = omega (arith, h, m)

padded-cut :
    (body : String) (n : ℕ)
    → n < 4
    → (text_length body + n) % 4 ≡ 0
    → padded body ≡ append body (padding n)
unfolding padded
padded-cut body n h m =
    ap (λ k. append body (padding k)) (missing_padding_lem (text_length body) n h m)

-- With base64 and JSON that decode what they encode, a cursor for an offset with a fingerprint, which is not
-- empty, is read back as that fingerprint and that offset, cut at 1000.
pub decode_cursor-encode_cursor :
    (codec : Codec) (python : Platform) (offset : ℕ) (fingerprint : String)
    → Base64Json codec (cursor_payload offset (some fingerprint))
    → is_empty fingerprint ≡ false
    → decode_cursor codec python (encode_cursor codec offset (some fingerprint))
      ≡ some (min search_max_window offset, some fingerprint)
unfolding decode_cursor encode_cursor
decode_cursor-encode_cursor codec python offset fingerprint law h =
    let (body, n, small, whole, filled, ends, e, d) = law in
    let cut = ap cut_padding e ∙ cut_padding-append body n ∙ ends in
    let restored : padded body ≡ codec.encode (cursor_payload offset (some fingerprint)) =
      padded-cut body n small whole ∙ sym e in
    rw (cut, filled, restored, d, h) refl
