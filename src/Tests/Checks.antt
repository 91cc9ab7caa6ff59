-- ===== src/Tests/Checks.antt =====
-- integer.go and checksum.go on concrete texts.
use entid_go.Prelude.{
  ◌%◌, ◌≡◌, refl, true, false, [], ◌∷◌, ◌++◌, arith, codes, if◌then◌else◌, leb, ◌&&◌, ◌==◌, all,
}
use mathlib.Core.List.{reverse}
use entid_go.Prelude.Int.{pos, ◌+ℤ◌}
use entid_go.Runtime.View.{value, ascii_digits, is_ascii_digit}
use entid_go.Runtime.Integer.{
  number, indeterminate, digits_to_integer, mod_digits, weighted_sum, remainder_map, align_left,
  align_right, align_cycle, map_digit_value, map_alnum_base36,
}
use entid_go.Runtime.Integer.Digits.{decimal, digits_to_integer_lem, mod_digits_lem}
use entid_go.Runtime.Checksum.{Outcome, luhn, iso7064_mod97, compare_digit}
use entid_go.Runtime.Checksum.Luhn.{
  luhn_lem, luhn_sum, luhn_detects_substitution, luhn_detects_transposition,
}
use entid_go.Runtime.Checksum.Mod97.{iso7064_mod97_detects_substitution}

luhn_valid : luhn (value (codes "79927398713")) ≡ Outcome.valid
unfolding luhn
luhn_valid = refl

luhn_short : luhn (value (codes "0")) ≡ Outcome.unsupported
unfolding luhn
luhn_short = refl

mod97_iban : iso7064_mod97 (value (codes "3214282912345698765432161182")) ≡ Outcome.valid
unfolding iso7064_mod97
mod97_iban = refl

mod97_lei : iso7064_mod97 (value (codes "5493001KJTIIGC8Y1R12")) ≡ Outcome.valid
unfolding iso7064_mod97
mod97_lei = refl

weighted_left :
    weighted_sum (value (codes "1234")) (pos 1 ∷ pos 3 ∷ []) align_left map_digit_value
    ≡ number (pos 7)
unfolding weighted_sum ◌+ℤ◌
weighted_left = refl

weighted_right :
    weighted_sum (value (codes "1234")) (pos 1 ∷ pos 3 ∷ []) align_right map_digit_value
    ≡ number (pos 15)
unfolding weighted_sum ◌+ℤ◌
weighted_right = refl

weighted_cycle :
    weighted_sum (value (codes "12A")) (pos 1 ∷ pos 3 ∷ []) align_cycle map_alnum_base36
    ≡ number (pos 17)
unfolding weighted_sum ◌+ℤ◌
weighted_cycle = refl

mapped : remainder_map (number (pos 2)) (pos 5 ∷ pos 6 ∷ []) ≡ indeterminate
unfolding remainder_map
mapped = refl

compared : compare_digit (number (pos 3)) (value (codes "123")) (pos 2) ≡ Outcome.valid
unfolding compare_digit
compared = refl

compared_past : compare_digit (number (pos 3)) (value (codes "123")) (pos 3) ≡ Outcome.unsupported
unfolding compare_digit
compared_past = refl

digits_to_integer_lem_example : digits_to_integer (value (codes "0042")) ≡ (
    if ascii_digits (value (codes "0042"))
    then number (pos (decimal 0 (codes "0042")))
    else indeterminate)
digits_to_integer_lem_example = digits_to_integer_lem (value (codes "0042")) (omega arith)

mod_digits_lem_example : mod_digits (value (codes "12345678901234567890123")) (pos 97) ≡ (
    if ascii_digits (value (codes "12345678901234567890123"))
    then number (pos (decimal 0 (codes "12345678901234567890123") % 97))
    else indeterminate)
mod_digits_lem_example =
    mod_digits_lem (value (codes "12345678901234567890123")) 97 (omega arith) (omega arith)

luhn_lem_example : luhn (value (codes "18")) ≡ (
    if true && leb 2 2 && all is_ascii_digit (codes "18")
    then if luhn_sum false (reverse (codes "18")) % 10 == 0 then Outcome.valid else Outcome.invalid
    else Outcome.unsupported)
luhn_lem_example = luhn_lem (value (codes "18"))

luhn_detects_substitution_example :
    luhn (value (codes "7992739" ++ 0x39 ∷ codes "713")) ≡ Outcome.invalid
luhn_detects_substitution_example =
    luhn_detects_substitution (codes "7992739") (codes "713") 0x38 0x39 luhn_valid refl
      (λ e. omega (arith, e))

luhn_detects_transposition_example :
    luhn (value (codes "7992" ++ 0x33 ∷ 0x37 ∷ codes "98713")) ≡ Outcome.invalid
luhn_detects_transposition_example =
    luhn_detects_transposition (codes "7992") (codes "98713") 0x37 0x33 luhn_valid
      (λ e. omega (arith, e)) (λ h. omega (arith, h.0)) (λ h. omega (arith, h.0))

iso7064_mod97_detects_substitution_example :
    iso7064_mod97 (value (codes "5493001" ++ 0x4c ∷ codes "JTIIGC8Y1R12")) ≡ Outcome.invalid
iso7064_mod97_detects_substitution_example =
    iso7064_mod97_detects_substitution (codes "5493001") (codes "JTIIGC8Y1R12") 0x4b 0x4c mod97_lei
      refl (λ e. omega (arith, e))
