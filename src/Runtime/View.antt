-- ===== src/Runtime/View.antt =====
-- internal/runtime/view.go: a string that may be absent, read by code points. A Go `int` is a ℤ;
-- the indices that the generator emits are constants up to 4096, so no sum of the code wraps.
pub mod Offset
pub mod Slice
pub mod Prefixes
use entid_go.Prelude.{
  ℕ, zero, suc, ◌+◌, ◌-◌, ◌/◌, ◌≤◌, ◌<◌, Bool, true, false, not, ◌&&◌, ◌||◌, List, [], ◌∷◌, ◌++◌,
  Option, none, some, ltb, leb, ◌==◌, if◌then◌else◌, length, take, drop, get_or, Bytes, beq, less,
  all, contains as index_byte, index, slice, has_prefix as string_has_prefix,
  has_suffix as string_has_suffix,
}
use entid_go.Prelude.Int.{ℤ, pos, negsuc, ◌-ℤ◌, ltb_ℤ, leb_ℤ, eq_ℤ}
use entid_go.Utf8.{decode_rune, rune_count, rune_self}
use mathlib.Core.Option

pub record View : Type 0 where
  pub s : Bytes
  pub present : Bool

abbrev pub absent : View
absent = record { s = []; present = false }

abbrev pub value : Bytes → View
value s = record { s = s; present = true }

unfoldable pub is_absent : View → Bool
is_absent v = not v.present

unfoldable pub is_empty : View → Bool
is_empty v = v.present && length v.s == 0

unfoldable pub rune_len : View → ℕ
rune_len v = if not v.present then 0 else rune_count v.s

abbrev pub is_ascii_digit : ℕ → Bool
is_ascii_digit b = leb b'0' b && leb b b'9'

abbrev pub is_ascii_upper : ℕ → Bool
is_ascii_upper b = leb b'A' b && leb b b'Z'

abbrev pub is_ascii_lower : ℕ → Bool
is_ascii_lower b = leb b'a' b && leb b b'z'

unfoldable pub is_ascii : Bytes → Bool
unfolding all
is_ascii s = all (λ b. ltb b rune_self) s

-- The loop of `runeOffsetFrom` over the `i` code points that are left.
unfoldable pub advance : Bytes → ℕ → ℕ → Option ℕ
advance s off zero = some off
advance s off (suc i) =
    if leb (length s) off then none else advance s (off + (decode_rune (drop off s)).1) i

-- `(offset, true)` is `some`. The first test is the shortcut over an ASCII stretch.
unfoldable pub rune_offset_from : Bytes → ℕ → ℤ → Option ℕ
unfolding is_ascii advance
rune_offset_from s off (negsuc i) = none
rune_offset_from s off (pos i) =
    if leb (off + i) (length s) && is_ascii (slice s off (off + i))
    then some (off + i)
    else advance s off i

unfoldable pub rune_offset : Bytes → ℤ → Option ℕ
unfolding rune_offset_from
rune_offset s i = rune_offset_from s 0 i

unfoldable pub count_is : Bytes → ℤ → Bool
unfolding rune_offset
count_is s n = elim (rune_offset s n) [ none ↦ false | some off ↦ off == length s ]

unfoldable pub length_eq : View → ℤ → Bool
unfolding count_is
length_eq v n = v.present && count_is v.s n

unfoldable pub length_between : View → ℤ → ℤ → Bool
length_between v min_len max_len =
    let n = pos (rune_count v.s) in
    if not v.present then false else leb_ℤ min_len n && leb_ℤ n max_len

unfoldable pub one_of : ℕ → List ℤ → Bool
one_of n [] = false
one_of n (want ∷ lengths) = if eq_ℤ (pos n) want then true else one_of n lengths

unfoldable pub length_in : View → List ℤ → Bool
unfolding one_of
length_in v lengths = if not v.present then false else one_of (rune_count v.s) lengths

unfoldable pub equals : View → View → Bool
unfolding beq
equals v other = v.present && other.present && beq v.s other.s

unfoldable pub has_prefix : View → Bytes → Bool
unfolding string_has_prefix
has_prefix v prefix = v.present && string_has_prefix v.s prefix

unfoldable pub has_suffix : View → Bytes → Bool
unfolding string_has_suffix
has_suffix v suffix = v.present && string_has_suffix v.s suffix

unfoldable pub contains : View → Bytes → Bool
unfolding index
contains v literal = v.present && elim (index v.s literal) [ none ↦ false | some i ↦ true ]

-- `classOf`: the view is present, not empty, and every byte is in the class.
unfoldable pub class_of : View → (ℕ → Bool) → Bool
unfolding all
class_of v class = if not v.present || length v.s == 0 then false else all class v.s

unfoldable pub ascii_digits : View → Bool
unfolding class_of
ascii_digits v = class_of v is_ascii_digit

unfoldable pub ascii_upper_letters : View → Bool
unfolding class_of
ascii_upper_letters v = class_of v is_ascii_upper

unfoldable pub ascii_alphanumeric : View → Bool
unfolding class_of
ascii_alphanumeric v = class_of v (λ b. is_ascii_digit b || is_ascii_upper b)

unfoldable pub ascii_charset : View → Bytes → Bool
unfolding class_of index_byte
ascii_charset v set = class_of v (λ b. index_byte set b)

unfoldable pub char_at_in : View → ℤ → Bytes → Bool
unfolding rune_offset index_byte
char_at_in v index set = if not v.present then false else elim (rune_offset v.s index) [
  | none ↦ false
  | some off ↦
      let r = (decode_rune (drop off v.s)).0 in
      if off == length v.s then false else if leb rune_self r then false else index_byte set r
]

unfoldable pub view_slice : View → ℤ → ℤ → View
unfolding rune_offset
view_slice v start end =
    if not v.present || ltb_ℤ end start then absent else elim (rune_offset v.s start) [
      | none ↦ absent
      | some from ↦ elim (rune_offset_from v.s from (end -ℤ start)) [
        | none ↦ absent
        | some to ↦ value (slice v.s from to)
      ]
    ]

unfoldable pub slice_from : View → ℤ → View
unfolding rune_offset
slice_from v start =
    if not v.present
    then absent
    else elim (rune_offset v.s start) [ none ↦ absent | some from ↦ value (drop from v.s) ]

unfoldable pub slice_to : View → ℤ → View
unfolding rune_offset
slice_to v end =
    if not v.present
    then absent
    else elim (rune_offset v.s end) [ none ↦ absent | some to ↦ value (take to v.s) ]

unfoldable pub before_first : View → Bytes → View
unfolding index
before_first v sep =
    if not v.present
    then absent
    else elim (index v.s sep) [ none ↦ absent | some i ↦ value (take i v.s) ]

unfoldable pub after_first : View → Bytes → View
unfolding index
after_first v sep =
    if not v.present
    then absent
    else elim (index v.s sep) [ none ↦ absent | some i ↦ value (drop (i + length sep) v.s) ]

unfoldable pub strip_prefix : View → Bytes → View
unfolding string_has_prefix
strip_prefix v prefix =
    if not v.present || not (string_has_prefix v.s prefix)
    then absent
    else value (drop (length prefix) v.s)

-- The first loop of `Concat` stops at an absent operand; the second writes the operands out.
unfoldable pub all_present : List View → Bool
all_present [] = true
all_present (p ∷ parts) = if not p.present then false else all_present parts

unfoldable pub joined : List View → Bytes
joined [] = []
joined (p ∷ parts) = p.s ++ joined parts

unfoldable pub concat : List View → View
unfolding all_present joined
concat parts = if all_present parts then value (joined parts) else absent
