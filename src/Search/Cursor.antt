-- ===== src/Search/Cursor.antt =====
-- src/wikipediarag/search_service.py: `_encode_cursor` and `_decode_cursor`. The JSON text and the base64 of
-- Python's library are the parameter `Codec`; the padding that the code cuts off and restores is written out.
use Prim.Native.Char.{code}
use Prim.Native.String.{[], ◌∷◌}
use wikipedia_rag.Common.{
  ℕ, zero, suc, ◌-◌, ◌%◌, ◌^◌, ◌*◌, min, String, Bool, true, false, ◌&&◌, Option, none, some, ◌==◌,
  string_eq, nat_eq, if◌then◌else◌,
}
use wikipedia_rag.Common.Int.{ℤ, pos, pos_part}
use wikipedia_rag.Common.Text.{is_empty}
use wikipedia_rag.Json.{Value, Fields, null, int, real, bool, text, obj, end, field, get, truthy}
use wikipedia_rag.Search.{Platform, Raising, gives, handled, unhandled, search_max_window}

-- `json.dumps` of a payload as base64 of its bytes, and the value that a padded text decodes to, `handled` where
-- a decoder raises a ValueError and `unhandled` where it raises another exception.
pub record Codec : Type 0 where
  pub encode : Fields → String
  pub decode : String → Raising Value

-- `s.rstrip("=")`
unfoldable pub cut_padding : String → String
cut_padding [] = []
cut_padding (c ∷ s) =
    let rest = cut_padding s in if is_empty rest && code c == 61 then [] else c ∷ rest

abbrev pub text_length : String → ℕ
text_length [] = 0
text_length (c ∷ s) = suc (text_length s)

-- `s + t`
abbrev pub append : String → String → String
append [] t = t
append (c ∷ s) t = c ∷ append s t

-- `"=" * n`
abbrev pub padding : ℕ → String
padding zero = ""
padding (suc n) = append "=" (padding n)

-- `-n % 4`
abbrev pub missing_padding : ℕ → ℕ
missing_padding n = (4 - n % 4) % 4

unfoldable pub padded : String → String
padded cursor = append cursor (padding (missing_padding (text_length cursor)))

abbrev pub cursor_payload : ℕ → Option String → Fields
cursor_payload offset none = field "offset" (int (pos offset)) end
cursor_payload offset (some fingerprint) =
    if is_empty fingerprint
    then field "offset" (int (pos offset)) end
    else field "offset" (int (pos offset))
        (field "version" (int (pos 2)) (field "fingerprint" (text fingerprint) end))

module _ (codec : Codec) where
  unfoldable pub encode_cursor : ℕ → Option String → String
  unfolding cut_padding
  encode_cursor offset fingerprint = cut_padding (codec.encode (cursor_payload offset fingerprint))

  module _ (python : Platform) where
    -- `max(0, min(1000, int(value or 0)))`, or 0 where `int` raises a TypeError or a ValueError; `none` where
    -- another exception leaves the function.
    abbrev pub clamp : Raising ℤ → Option ℕ
    clamp (gives z) = some (min search_max_window (pos_part z))
    clamp handled = some 0
    clamp unhandled = none

    abbrev pub offset_number : Value → Raising ℤ
    offset_number (int z) = gives z
    offset_number (bool true) = gives (pos 1)
    offset_number v = if truthy v then python.int_of v else gives (pos 0)

    abbrev pub offset_of : Option Value → Option ℕ
    offset_of none = some 0
    offset_of (some v) = clamp (offset_number v)

    -- `v == 2`
    abbrev pub is_two : Option Value → Bool
    is_two (some (int (pos n))) = n == 2
    is_two (some (real (pos m) n)) = m == 2 * 10 ^ n
    is_two _ = false

    abbrev pub fingerprint_text : Option Value → String
    fingerprint_text none = python.str null
    fingerprint_text (some (text s)) = s
    fingerprint_text (some v) = python.str v

    abbrev pub cursor_fingerprint : Fields → Option String
    cursor_fingerprint payload =
        if is_two (get "version" payload)
        then some (fingerprint_text (get "fingerprint" payload))
        else none

    abbrev pub read_payload : Fields → Option (ℕ × Option String)
    read_payload payload = elim (offset_of (get "offset" payload)) [
      | none ↦ none
      | some offset ↦ some (offset, cursor_fingerprint payload)
    ]

    abbrev pub read_value : Raising Value → Option (ℕ × Option String)
    read_value (gives (obj payload)) = read_payload payload
    read_value (gives v) = some (0, none)
    read_value handled = some (0, none)
    read_value unhandled = none

    -- `none` where an exception leaves the function.
    unfoldable pub decode_cursor : String → Option (ℕ × Option String)
    unfolding padded
    decode_cursor cursor =
        if is_empty cursor then some (0, none) else read_value (codec.decode (padded cursor))
