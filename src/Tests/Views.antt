-- ===== src/Tests/Views.antt =====
-- view.go on concrete texts.
use entid_go.Prelude.{
  zero, suc, ◌≡◌, refl, true, false, List, [], ◌∷◌, none, arith, Bytes, codes, drop, less, ◌&&◌,
  leb, if◌then◌else◌,
}
use entid_go.Prelude.Int.{pos, negsuc}
use entid_go.Utf8.{decode_rune, runes, rune_count, decode_last_rune, valid_string}
use entid_go.Runtime.View.{value, rune_offset, view_slice, absent}
use entid_go.Runtime.View.Slice.{view_slice_lem, points_between}
use entid_go.Runtime.View.Offset.{rune_offset-place, place}
use entid_go.Runtime.View.Prefixes.{
  PrefixGroup, prefix_in_sorted, prefix_in_sorted-scan, Ascending, scan_groups,
}

-- "aé€", one, two and three bytes.
abbrev text : Bytes
text = 0x61 ∷ 0xc3 ∷ 0xa9 ∷ 0xe2 ∷ 0x82 ∷ 0xac ∷ []

decode_two : decode_rune (drop 1 text) ≡ (0xe9, 2)
unfolding decode_rune
decode_two = refl

count_three : rune_count text ≡ 3
unfolding rune_count runes decode_rune
count_three = refl

last_euro : decode_last_rune text ≡ (0x20ac, 3)
unfolding decode_last_rune decode_rune
last_euro = refl

-- A surrogate in UTF-8 is no code point.
surrogate : valid_string (0xed ∷ 0xa0 ∷ 0x80 ∷ []) ≡ false
unfolding valid_string runes decode_rune
surrogate = refl

negative_offset : rune_offset text (negsuc 0) ≡ none
unfolding rune_offset
negative_offset = refl

view_slice_lem_example :
    view_slice (value text) (pos 1) (pos 3)
    ≡ (if leb 1 3 && leb 3 (rune_count text) then value (points_between 1 3 text) else absent)
view_slice_lem_example = view_slice_lem text 1 3

rune_offset-place_example : rune_offset text (pos 2) ≡ place 0 2 text
rune_offset-place_example = rune_offset-place text 2

abbrev groups : List PrefixGroup
groups = record { length_of = 2; values = codes "BE" ∷ codes "NL" ∷ [] } ∷ []

two-Ascending : Ascending (codes "BE" ∷ codes "NL" ∷ [])
unfolding less
two-Ascending zero (suc zero) h k = refl
two-Ascending zero zero h k = absurd (omega arith)
two-Ascending (suc i) (suc zero) h k = absurd (omega arith)
two-Ascending i (suc (suc j)) h k = absurd (omega arith)
two-Ascending (suc i) zero h k = absurd (omega arith)

prefix_in_sorted-scan_example :
    prefix_in_sorted (value (codes "NL123")) groups ≡ (true && scan_groups (codes "NL123") groups)
prefix_in_sorted-scan_example =
    prefix_in_sorted-scan (value (codes "NL123")) groups (two-Ascending, (refl, (refl, tt)), tt)
