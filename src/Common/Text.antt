-- ===== src/Common/Text.antt =====
-- What the code uses of `str`: truth, `strip` and the space test, over the code points of a text.
use Prim.Native.Char.{Char, code}
use Prim.Native.String.{String, [], ◌∷◌, ◌++◌}
use mathlib.Core.List.{List, [], ◌∷◌}
use mathlib.Core.Path.{◌≡◌, refl}
use mathlib.Core.Logic.{inl, inr}
use mathlib.Core.Bool.{Bool, true, false, ◌&&◌, ◌||◌}
use native.Mathlib.Omega.{arith}
use wikipedia_rag.Common.Tests.{leb, nat_beq, if◌then◌else◌, Bool-cases}

-- `not s`
abbrev pub is_empty : String → Bool
is_empty [] = true
is_empty (c ∷ s) = false

-- `str.isspace` of one character
unfoldable pub is_space : Char → Bool
is_space c =
    let n = code c in
    (leb 9 n && leb n 13)
    || (leb 28 n && leb n 32)
    || nat_beq n 0x85
    || nat_beq n 0xA0
    || nat_beq n 0x1680
    || (leb 0x2000 n && leb n 0x200A)
    || nat_beq n 0x2028
    || nat_beq n 0x2029
    || nat_beq n 0x202F
    || nat_beq n 0x205F
    || nat_beq n 0x3000

unfoldable pub lstrip : String → String
lstrip [] = []
lstrip (c ∷ s) = let rest = lstrip s in if is_space c then rest else c ∷ s

unfoldable pub rstrip : String → String
rstrip [] = []
rstrip (c ∷ s) = let rest = rstrip s in if is_empty rest && is_space c then [] else c ∷ rest

unfoldable pub strip : String → String
unfolding lstrip rstrip is_space
strip s = rstrip (lstrip s)

abbrev StartsNonspace : String → Type 0
StartsNonspace [] = Unit
StartsNonspace (c ∷ s) = is_space c ≡ false

StartsNonspace-lstrip : (s : String) → StartsNonspace (lstrip s)
unfolding lstrip
StartsNonspace-lstrip [] = tt
StartsNonspace-lstrip (c ∷ s) = elim (Bool-cases (is_space c)) [
  | inl e ↦ rw e (StartsNonspace-lstrip s)
  | inr e ↦ rw e e
]

-- What starts with no space is left alone, also after its right end is cut.
lstrip-rstrip : (s : String) → StartsNonspace s → lstrip (rstrip s) ≡ rstrip s
unfolding lstrip rstrip
lstrip-rstrip [] h = refl
lstrip-rstrip (c ∷ s) h = rw (h, is_empty) (ground arith)

rstrip-rstrip : (s : String) → rstrip (rstrip s) ≡ rstrip s
unfolding rstrip
rstrip-rstrip [] = refl
rstrip-rstrip (c ∷ s) = ground (arith, rstrip-rstrip s)

-- `strip` removes all that it can.
pub strip-strip : (s : String) → strip (strip s) ≡ strip s
unfolding strip
strip-strip s = rw (lstrip-rstrip (lstrip s) (StartsNonspace-lstrip s)) (rstrip-rstrip (lstrip s))

-- The first word of a text that a space may still precede, and the words after it.
unfoldable pub words_of : String → String × List String
words_of [] = ([], [])
words_of (c ∷ s) =
    let (word, words) = words_of s in
    if is_space c then ([], if is_empty word then words else word ∷ words) else (c ∷ word, words)

-- `str.split()`
unfoldable pub split : String → List String
unfolding words_of is_space
split s = let (word, words) = words_of s in if is_empty word then words else word ∷ words

-- `" ".join(words)`
unfoldable pub join_words : List String → String
join_words [] = []
join_words (word ∷ []) = word
join_words (word ∷ words) = word ++ " " ++ join_words words
