-- ===== src/Utf8.antt =====
-- The functions of Go's unicode/utf8 that the runtime calls, on strings as lists of bytes.
-- A byte that starts no well formed sequence is a code point of its own: U+FFFD, of width one.
pub mod Points
pub mod Widths
pub mod Last
use entid_go.Prelude.{
  ℕ, zero, suc, ◌+◌, ◌-◌, ◌*◌, ◌%◌, ◌≤◌, ◌<◌, ◌≡◌, refl, Bool, true, false, not, ◌&&◌, ◌||◌, List,
  [], ◌∷◌, ◌++◌, arith, ltb, leb, ◌==◌, if◌then◌else◌, length, take, drop, Bytes,
}
use mathlib.Core.List.{reverse}

abbrev pub rune_error : ℕ
rune_error = 0xfffd

abbrev pub rune_self : ℕ
rune_self = 0x80

abbrev in_range : ℕ → ℕ → ℕ → Bool
in_range lo hi b = leb lo b && leb b hi

-- A continuation byte.
abbrev tail_byte : ℕ → Bool
tail_byte = in_range 0x80 0xbf

-- The range of the second byte after the leading byte `a` of a wide sequence.
second_ok : ℕ → ℕ → Bool
second_ok a b =
    if a == 0xe0
    then in_range 0xa0 0xbf b
    else if a == 0xed
    then in_range 0x80 0x9f b
    else if a == 0xf0
    then in_range 0x90 0xbf b
    else if a == 0xf4
    then in_range 0x80 0x8f b
    else tail_byte b

two : ℕ → Bytes → ℕ × ℕ
unfolding second_ok
two a (b ∷ r) = if second_ok a b then (a % 32 * 64 + b % 64, 2) else (rune_error, 1)
two a [] = (rune_error, 1)

three : ℕ → Bytes → ℕ × ℕ
unfolding second_ok
three a (b ∷ c ∷ r) =
    if second_ok a b && tail_byte c
    then (a % 16 * 4096 + b % 64 * 64 + c % 64, 3)
    else (rune_error, 1)
three a (b ∷ []) = (rune_error, 1)
three a [] = (rune_error, 1)

four : ℕ → Bytes → ℕ × ℕ
unfolding second_ok
four a (b ∷ c ∷ d ∷ r) =
    if second_ok a b && tail_byte c && tail_byte d
    then (a % 8 * 262144 + b % 64 * 4096 + c % 64 * 64 + d % 64, 4)
    else (rune_error, 1)
four a (b ∷ c ∷ []) = (rune_error, 1)
four a (b ∷ []) = (rune_error, 1)
four a [] = (rune_error, 1)

-- `utf8.DecodeRuneInString` and `utf8.DecodeRune`: the first code point and its width in bytes.
unfoldable pub decode_rune : Bytes → ℕ × ℕ
unfolding two three four
decode_rune [] = (rune_error, 0)
decode_rune (a ∷ r) =
    if ltb a rune_self
    then (a, 1)
    else if in_range 0xc2 0xdf a
    then two a r
    else if in_range 0xe0 0xef a
    then three a r
    else if in_range 0xf0 0xf4 a
    then four a r
    else (rune_error, 1)

-- `for _, r := range s`: each code point with its bytes. The fuel is the number of bytes.
pub runes_upto : ℕ → Bytes → List (ℕ × Bytes)
runes_upto zero s = []
runes_upto (suc f) [] = []
runes_upto (suc f) (a ∷ r) =
    let (c, n) = decode_rune (a ∷ r) in (c, take n (a ∷ r)) ∷ runes_upto f (drop n (a ∷ r))

unfoldable pub runes : Bytes → List (ℕ × Bytes)
unfolding runes_upto
runes s = runes_upto (length s) s

-- `utf8.RuneCountInString`.
unfoldable pub rune_count : Bytes → ℕ
unfolding runes
rune_count s = length (runes s)

-- How many bytes `utf8.DecodeLastRune` tries, on the bytes before the last one in reverse order: back
-- to the nearest of the three that is no continuation byte, or one byte further.
last_width : ℕ → ℕ → Bytes → ℕ
last_width zero width [] = width
last_width zero width (b ∷ r) = width + 1
last_width (suc k) width [] = width
last_width (suc k) width (b ∷ r) =
    let further = last_width k (width + 1) r in if tail_byte b then further else width + 1

last_rune : Bytes → Bytes → ℕ × ℕ
unfolding last_width decode_rune
last_rune s [] = (rune_error, 0)
last_rune s (b ∷ r) =
    let width = last_width 3 1 r in
    let (c, n) = decode_rune (drop (length s - width) s) in
    if ltb b rune_self then (b, 1) else if n == width then (c, n) else (rune_error, 1)

-- `utf8.DecodeLastRuneInString`.
unfoldable pub decode_last_rune : Bytes → ℕ × ℕ
unfolding last_rune
decode_last_rune s = last_rune s (reverse s)

unfoldable pub valid_rune : ℕ × Bytes → Bool
valid_rune (c, bs) = not (c == rune_error && length bs == 1)

-- `utf8.ValidString`: no byte had to stand for itself.
unfoldable pub all_valid : List (ℕ × Bytes) → Bool
unfolding valid_rune
all_valid [] = true
all_valid (p ∷ ps) = valid_rune p && all_valid ps

unfoldable pub valid_string : Bytes → Bool
unfolding all_valid runes
valid_string s = all_valid (runes s)
