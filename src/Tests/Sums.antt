-- ===== src/Tests/Sums.antt =====
-- The weighted sums of integer.go, and the names of result.go.
use entid_go.Prelude.{
  ◌+◌, ◌*◌, ◌^◌, ◌<◌, ◌≡◌, refl, Bool, true, false, not, ◌&&◌, List, [], ◌∷◌, leb, length, Bytes,
  codes, all, any, ◌==◌,
}
use entid_go.Prelude.Int.{ℤ, pos, negsuc, ◌+ℤ◌, ◌*ℤ◌}
use entid_go.Utf8.{runes, valid_string}
use entid_go.Runtime.View.{value}
use entid_go.Runtime.Integer.{
  number, indeterminate, weighted_sum, align_left, align_right, align_cycle, map_digit_value,
  map_alnum_base36,
}
use entid_go.Runtime.Integer.Alphabet.{
  alphabet_index, rune_index, weighted_sum_alphabet, all_indexed, code_points,
  alphabet_index-rune_index, weighted_sum_alphabet-ok,
}

abbrev weights : List ℤ
weights = pos 1 ∷ negsuc 2 ∷ []

-- 1 - 3 * 2, and then the same alphabet written out.
signed_sum :
    weighted_sum (value (codes "129")) weights align_left map_digit_value ≡ number (negsuc 4)
unfolding weighted_sum ◌+ℤ◌
signed_sum = refl

alphabet_sum :
    weighted_sum_alphabet (value (codes "129")) weights align_left (codes "0123456789")
    ≡ number (negsuc 4)
unfolding weighted_sum_alphabet all_indexed runes entid_go.Utf8.decode_rune alphabet_index
    entid_go.Runtime.Integer.Alphabet.ascii_index entid_go.Runtime.Integer.Alphabet.sum_points
    entid_go.Prelude.Words.wrap64 ◌+ℤ◌ ◌*ℤ◌
alphabet_sum = refl

alphabet_sum_right :
    weighted_sum_alphabet (value (codes "9B1")) (pos 1 ∷ pos 2 ∷ []) align_right (codes "019B")
    ≡ number (pos 5)
unfolding weighted_sum_alphabet all_indexed runes entid_go.Utf8.decode_rune alphabet_index
    entid_go.Runtime.Integer.Alphabet.ascii_index entid_go.Runtime.Integer.Alphabet.sum_points
    entid_go.Prelude.Words.wrap64 ◌+ℤ◌ ◌*ℤ◌
alphabet_sum_right = refl

outside_alphabet :
    weighted_sum_alphabet (value (codes "12X")) weights align_left (codes "0123456789")
    ≡ indeterminate
unfolding weighted_sum_alphabet all_indexed runes entid_go.Utf8.decode_rune alphabet_index
    entid_go.Runtime.Integer.Alphabet.ascii_index rune_index
outside_alphabet = refl

alphabet_index-rune_index_example :
    alphabet_index (codes "AB") 0x42 ≡ rune_index (runes (codes "AB")) 0x42 0
alphabet_index-rune_index_example = alphabet_index-rune_index (codes "AB") 0x42

weighted_sum_alphabet-ok_example :
    (weighted_sum_alphabet (value (codes "1X")) weights align_left (codes "01")).ok ≡ (
      true
      && not (2 == 0)
      && valid_string (codes "1X")
      && all (λ r. any (λ a. a == r) (code_points (codes "01"))) (code_points (codes "1X")))
weighted_sum_alphabet-ok_example =
    weighted_sum_alphabet-ok (value (codes "1X")) weights align_left (codes "01")
