-- ===== src/Gen/Opcodes/Tables.antt =====
-- internal/gen/opcodes.go: the tables of the operations.
use entid_go.Prelude.{ℕ, Bool, List, [], ◌∷◌, Option, none, some, ◌==◌, ◌||◌, if◌then◌else◌}
use entid_go.Gen.Model.{program_canonicalization, program_format, program_checksum}
use entid_go.Gen.Opcodes.{
  Opcode, is_op, Category, op_invalid, op_constant, op_value, op_subject, op_country_code, op_slice,
  op_slice_from, op_slice_to, op_before_first, op_after_first, op_strip_prefix, op_concat,
  op_digits_to_integer, op_mod_digits, op_weighted_sum, op_modulo, op_complement, op_remainder_map,
  op_is_empty, op_is_absent, op_equals, op_length_eq, op_length_in, op_length_between,
  op_ascii_digits, op_ascii_upper_letters, op_ascii_alphanumeric, op_ascii_charset, op_starts_with,
  op_ends_with, op_prefix_in, op_char_at_in, op_contains, op_all, op_any, op_not, op_profile_is,
  op_integer_is, op_canon_sequence, op_trim_whitespace, op_remove_whitespace, op_uppercase_ascii,
  op_remove_chars, op_replace_prefix, op_prepend, op_append, op_insert, op_left_pad,
  op_prepend_country_if_missing, op_canon_when, op_assert_sequence, op_require, op_luhn,
  op_iso7064_mod97, op_compare_digit, op_compare_slice, op_choose, op_checksum_when, op_all_checks,
  op_any_check, op_unsupported_checksum, op_compare_constant, op_call_format, op_call_checksum,
  cat_string, cat_integer, cat_predicate, cat_canonicalization, cat_assertion, cat_checksum,
  cat_call,
}
use entid_go.Gen.Opcodes.Specs.{spec}

unfoldable pub category : Opcode → Category
unfolding spec
category op = (spec op).cat

-- The tables from the kind of a wire message to its operation; a kind that is not there is unknown.
abbrev pub find_op : List (ℕ × Opcode) → ℕ → Option Opcode
find_op [] kind = none
find_op ((k, op) ∷ ps) kind = if k == kind then some op else find_op ps kind

abbrev pub string_ops : List (ℕ × Opcode)
string_ops =
    (1, op_constant)
    ∷ (2, op_value)
    ∷ (3, op_subject)
    ∷ (4, op_country_code)
    ∷ (5, op_slice)
    ∷ (6, op_slice_from)
    ∷ (7, op_slice_to)
    ∷ (8, op_before_first)
    ∷ (9, op_after_first)
    ∷ (10, op_strip_prefix)
    ∷ (11, op_concat)
    ∷ []

abbrev pub integer_ops : List (ℕ × Opcode)
integer_ops =
    (1, op_digits_to_integer)
    ∷ (2, op_mod_digits)
    ∷ (3, op_weighted_sum)
    ∷ (4, op_modulo)
    ∷ (5, op_complement)
    ∷ (6, op_remainder_map)
    ∷ []

abbrev pub predicate_ops : List (ℕ × Opcode)
predicate_ops =
    (1, op_is_empty)
    ∷ (2, op_is_absent)
    ∷ (3, op_equals)
    ∷ (4, op_length_eq)
    ∷ (5, op_length_in)
    ∷ (6, op_length_between)
    ∷ (7, op_ascii_digits)
    ∷ (8, op_ascii_upper_letters)
    ∷ (9, op_ascii_alphanumeric)
    ∷ (10, op_ascii_charset)
    ∷ (11, op_starts_with)
    ∷ (12, op_ends_with)
    ∷ (13, op_prefix_in)
    ∷ (14, op_char_at_in)
    ∷ (15, op_contains)
    ∷ (16, op_all)
    ∷ (17, op_any)
    ∷ (18, op_not)
    ∷ (19, op_profile_is)
    ∷ (20, op_integer_is)
    ∷ []

abbrev pub canonicalization_ops : List (ℕ × Opcode)
canonicalization_ops =
    (1, op_canon_sequence)
    ∷ (2, op_trim_whitespace)
    ∷ (3, op_remove_whitespace)
    ∷ (4, op_uppercase_ascii)
    ∷ (5, op_remove_chars)
    ∷ (6, op_replace_prefix)
    ∷ (7, op_prepend)
    ∷ (8, op_append)
    ∷ (9, op_insert)
    ∷ (10, op_left_pad)
    ∷ (11, op_prepend_country_if_missing)
    ∷ (12, op_canon_when)
    ∷ []

abbrev pub assertion_ops : List (ℕ × Opcode)
assertion_ops = (1, op_assert_sequence) ∷ (2, op_require) ∷ []

abbrev pub checksum_ops : List (ℕ × Opcode)
checksum_ops =
    (1, op_luhn)
    ∷ (2, op_iso7064_mod97)
    ∷ (3, op_compare_digit)
    ∷ (4, op_compare_slice)
    ∷ (5, op_choose)
    ∷ (6, op_checksum_when)
    ∷ (7, op_all_checks)
    ∷ (8, op_any_check)
    ∷ (9, op_unsupported_checksum)
    ∷ (10, op_compare_constant)
    ∷ []

abbrev pub call_ops : List (ℕ × Opcode)
call_ops = (1, op_call_format) ∷ (2, op_call_checksum) ∷ []

abbrev pub categories_by_program_kind : ℕ → List Category
categories_by_program_kind kind =
    if kind == program_canonicalization
    then cat_string ∷ cat_predicate ∷ cat_canonicalization ∷ []
    else if kind == program_format
    then cat_string ∷ cat_predicate ∷ cat_assertion ∷ cat_call ∷ []
    else if kind == program_checksum
    then cat_string ∷ cat_predicate ∷ cat_integer ∷ cat_checksum ∷ cat_call ∷ []
    else []

-- The zero operation for a kind that is not in the map.
abbrev pub call_op_for_program : ℕ → Opcode
call_op_for_program kind =
    if kind == program_format
    then op_call_format
    else if kind == program_checksum
    then op_call_checksum
    else op_invalid

abbrev pub pre_canonicalization_op : Opcode → Bool
pre_canonicalization_op op =
    is_op op op_canon_sequence
    || is_op op op_trim_whitespace
    || is_op op op_remove_whitespace
    || is_op op op_uppercase_ascii
    || is_op op op_remove_chars
