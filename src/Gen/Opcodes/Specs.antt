-- ===== src/Gen/Opcodes/Specs.antt =====
-- internal/gen/opcodes.go: what each operation takes and gives.
use entid_go.Prelude.{ℕ, List, [], ◌∷◌, Option, none, some}
use entid_go.Gen.Model.{
  value_string, value_integer, value_boolean, value_canonicalization_step, value_assertion,
  value_checksum_outcome, value_unspecified,
}
use entid_go.Gen.Opcodes.{
  Opcode, Category, Param, OpSpec, op_invalid, op_constant, op_value, op_subject, op_country_code,
  op_slice, op_slice_from, op_slice_to, op_before_first, op_after_first, op_strip_prefix, op_concat,
  op_digits_to_integer, op_mod_digits, op_weighted_sum, op_modulo, op_complement, op_remainder_map,
  op_is_empty, op_is_absent, op_equals, op_length_eq, op_length_in, op_length_between,
  op_ascii_digits, op_ascii_upper_letters, op_ascii_alphanumeric, op_ascii_charset, op_starts_with,
  op_ends_with, op_prefix_in, op_char_at_in, op_contains, op_all, op_any, op_not, op_profile_is,
  op_integer_is, op_canon_sequence, op_trim_whitespace, op_remove_whitespace, op_uppercase_ascii,
  op_remove_chars, op_replace_prefix, op_prepend, op_append, op_insert, op_left_pad,
  op_prepend_country_if_missing, op_canon_when, op_assert_sequence, op_require, op_luhn,
  op_iso7064_mod97, op_compare_digit, op_compare_slice, op_choose, op_checksum_when, op_all_checks,
  op_any_check, op_unsupported_checksum, op_compare_constant, op_call_format, op_call_checksum,
  cat_string, cat_integer, cat_predicate, cat_canonicalization, cat_assertion, cat_checksum,
  cat_call, p_text, p_replacement, p_start, p_end, p_index, p_length, p_min_length, p_max_length,
  p_values, p_lengths, p_modulus, p_weights, p_alignment, p_mapping, p_remainder_values,
  p_reason_code, p_message_key, p_program_id, p_constant, p_alphabet,
}

-- An operation with no operands and no parameters.
abbrev plain : Category → ℕ → List ℕ → OpSpec
plain cat output features = record {
  cat = cat;
  output = output;
  fixed = [];
  repeated = value_unspecified;
  min_rep = 0;
  max_rep = some 0;
  required = [];
  optional = [];
  features = features;
}

abbrev takes : List ℕ → OpSpec → OpSpec
takes fixed s = record s { fixed = fixed }

abbrev repeats : ℕ → ℕ → Option ℕ → OpSpec → OpSpec
repeats t min_rep max_rep s = record s { repeated = t; min_rep = min_rep; max_rep = max_rep }

abbrev needs : List Param → OpSpec → OpSpec
needs ps s = record s { required = ps }

abbrev may : List Param → OpSpec → OpSpec
may ps s = record s { optional = ps }

unfoldable pub spec : Opcode → OpSpec
spec op_invalid = plain cat_string value_unspecified []
spec op_constant = needs (p_text ∷ []) (plain cat_string value_string (1 ∷ []))
spec op_value = plain cat_string value_string (1 ∷ [])
spec op_subject = plain cat_string value_string (1 ∷ [])
spec op_country_code = plain cat_string value_string (1 ∷ 5 ∷ [])
spec op_slice =
    takes (value_string ∷ [])
      (needs (p_start ∷ p_end ∷ []) (plain cat_string value_string (1 ∷ 10 ∷ [])))
spec op_slice_from =
    takes (value_string ∷ []) (needs (p_start ∷ []) (plain cat_string value_string (1 ∷ 10 ∷ [])))
spec op_slice_to =
    takes (value_string ∷ []) (needs (p_end ∷ []) (plain cat_string value_string (1 ∷ 10 ∷ [])))
spec op_before_first =
    takes (value_string ∷ []) (needs (p_text ∷ []) (plain cat_string value_string (1 ∷ 10 ∷ [])))
spec op_after_first =
    takes (value_string ∷ []) (needs (p_text ∷ []) (plain cat_string value_string (1 ∷ 10 ∷ [])))
spec op_strip_prefix =
    takes (value_string ∷ []) (needs (p_text ∷ []) (plain cat_string value_string (1 ∷ 10 ∷ [])))
spec op_concat = repeats value_string 1 (some 256) (plain cat_string value_string (1 ∷ 10 ∷ []))
spec op_digits_to_integer =
    takes (value_string ∷ []) (plain cat_integer value_integer (1 ∷ 30 ∷ []))
spec op_mod_digits =
    takes (value_string ∷ [])
      (needs (p_modulus ∷ []) (plain cat_integer value_integer (1 ∷ 30 ∷ [])))
spec op_weighted_sum = takes (value_string ∷ []) (
    needs (p_weights ∷ p_alignment ∷ p_mapping ∷ [])
      (may (p_alphabet ∷ []) (plain cat_integer value_integer (1 ∷ 30 ∷ 33 ∷ []))))
spec op_modulo =
    takes (value_integer ∷ [])
      (needs (p_modulus ∷ []) (plain cat_integer value_integer (1 ∷ 30 ∷ [])))
spec op_complement =
    takes (value_integer ∷ [])
      (needs (p_modulus ∷ []) (plain cat_integer value_integer (1 ∷ 30 ∷ [])))
spec op_remainder_map =
    takes (value_integer ∷ [])
      (needs (p_remainder_values ∷ []) (plain cat_integer value_integer (1 ∷ 30 ∷ [])))
spec op_is_empty = takes (value_string ∷ []) (plain cat_predicate value_boolean (1 ∷ 20 ∷ []))
spec op_is_absent = takes (value_string ∷ []) (plain cat_predicate value_boolean (1 ∷ 10 ∷ []))
spec op_equals =
    takes (value_string ∷ value_string ∷ []) (plain cat_predicate value_boolean (1 ∷ 20 ∷ []))
spec op_length_eq =
    takes (value_string ∷ [])
      (needs (p_length ∷ []) (plain cat_predicate value_boolean (1 ∷ 20 ∷ [])))
spec op_length_in =
    takes (value_string ∷ [])
      (needs (p_lengths ∷ []) (plain cat_predicate value_boolean (1 ∷ 20 ∷ [])))
spec op_length_between =
    takes (value_string ∷ [])
      (needs (p_min_length ∷ p_max_length ∷ []) (plain cat_predicate value_boolean (1 ∷ 20 ∷ [])))
spec op_ascii_digits = takes (value_string ∷ []) (plain cat_predicate value_boolean (1 ∷ 2 ∷ []))
spec op_ascii_upper_letters =
    takes (value_string ∷ []) (plain cat_predicate value_boolean (1 ∷ 2 ∷ []))
spec op_ascii_alphanumeric =
    takes (value_string ∷ []) (plain cat_predicate value_boolean (1 ∷ 2 ∷ []))
spec op_ascii_charset =
    takes (value_string ∷ []) (needs (p_text ∷ []) (plain cat_predicate value_boolean (1 ∷ 2 ∷ [])))
spec op_starts_with =
    takes (value_string ∷ [])
      (needs (p_text ∷ []) (plain cat_predicate value_boolean (1 ∷ 20 ∷ [])))
spec op_ends_with =
    takes (value_string ∷ [])
      (needs (p_text ∷ []) (plain cat_predicate value_boolean (1 ∷ 20 ∷ [])))
spec op_prefix_in =
    takes (value_string ∷ [])
      (needs (p_values ∷ []) (plain cat_predicate value_boolean (1 ∷ 20 ∷ [])))
spec op_char_at_in =
    takes (value_string ∷ [])
      (needs (p_index ∷ p_text ∷ []) (plain cat_predicate value_boolean (1 ∷ 20 ∷ [])))
spec op_contains =
    takes (value_string ∷ [])
      (needs (p_text ∷ []) (plain cat_predicate value_boolean (1 ∷ 20 ∷ [])))
spec op_all = repeats value_boolean 1 none (plain cat_predicate value_boolean (1 ∷ 20 ∷ []))
spec op_any = repeats value_boolean 1 none (plain cat_predicate value_boolean (1 ∷ 20 ∷ []))
spec op_not = takes (value_boolean ∷ []) (plain cat_predicate value_boolean (1 ∷ 20 ∷ []))
spec op_profile_is = needs (p_text ∷ []) (plain cat_predicate value_boolean (1 ∷ 21 ∷ []))
spec op_integer_is =
    takes (value_integer ∷ [])
      (needs (p_constant ∷ []) (plain cat_predicate value_boolean (1 ∷ 30 ∷ 35 ∷ [])))
spec op_canon_sequence =
    repeats value_canonicalization_step 0 none
      (plain cat_canonicalization value_canonicalization_step (1 ∷ 3 ∷ []))
spec op_trim_whitespace = plain cat_canonicalization value_canonicalization_step (1 ∷ 2 ∷ 3 ∷ [])
spec op_remove_whitespace = plain cat_canonicalization value_canonicalization_step (1 ∷ 2 ∷ 3 ∷ [])
spec op_uppercase_ascii = plain cat_canonicalization value_canonicalization_step (1 ∷ 2 ∷ 3 ∷ [])
spec op_remove_chars =
    needs (p_text ∷ []) (plain cat_canonicalization value_canonicalization_step (1 ∷ 3 ∷ []))
spec op_replace_prefix =
    needs (p_text ∷ p_replacement ∷ [])
      (plain cat_canonicalization value_canonicalization_step (1 ∷ 3 ∷ []))
spec op_prepend =
    needs (p_text ∷ []) (plain cat_canonicalization value_canonicalization_step (1 ∷ 3 ∷ []))
spec op_append =
    needs (p_text ∷ []) (plain cat_canonicalization value_canonicalization_step (1 ∷ 3 ∷ []))
spec op_insert =
    needs (p_index ∷ p_text ∷ [])
      (plain cat_canonicalization value_canonicalization_step (1 ∷ 3 ∷ []))
spec op_left_pad =
    needs (p_length ∷ p_text ∷ [])
      (plain cat_canonicalization value_canonicalization_step (1 ∷ 3 ∷ []))
spec op_prepend_country_if_missing =
    plain cat_canonicalization value_canonicalization_step (1 ∷ 3 ∷ 5 ∷ [])
spec op_canon_when = takes (value_boolean ∷ []) (
    repeats value_canonicalization_step 1 none
      (plain cat_canonicalization value_canonicalization_step (1 ∷ 4 ∷ [])))
spec op_assert_sequence =
    repeats value_assertion 1 none (plain cat_assertion value_assertion (1 ∷ 20 ∷ []))
spec op_require = takes (value_boolean ∷ []) (
    needs (p_reason_code ∷ [])
      (may (p_message_key ∷ []) (plain cat_assertion value_assertion (1 ∷ 20 ∷ []))))
spec op_luhn =
    takes (value_string ∷ [])
      (may (p_message_key ∷ []) (plain cat_checksum value_checksum_outcome (1 ∷ 30 ∷ 31 ∷ [])))
spec op_iso7064_mod97 =
    takes (value_string ∷ [])
      (may (p_message_key ∷ []) (plain cat_checksum value_checksum_outcome (1 ∷ 30 ∷ 32 ∷ [])))
spec op_compare_digit = takes (value_integer ∷ value_string ∷ []) (
    needs (p_index ∷ [])
      (may (p_message_key ∷ []) (plain cat_checksum value_checksum_outcome (1 ∷ 30 ∷ []))))
spec op_compare_slice = takes (value_integer ∷ value_string ∷ []) (
    needs (p_start ∷ p_end ∷ [])
      (may (p_message_key ∷ []) (plain cat_checksum value_checksum_outcome (1 ∷ 30 ∷ []))))
spec op_choose =
    repeats value_checksum_outcome 1 none (plain cat_checksum value_checksum_outcome (1 ∷ 30 ∷ []))
spec op_checksum_when =
    takes (value_boolean ∷ value_checksum_outcome ∷ [])
      (plain cat_checksum value_checksum_outcome (1 ∷ 30 ∷ []))
spec op_all_checks =
    repeats value_checksum_outcome 1 none (plain cat_checksum value_checksum_outcome (1 ∷ 30 ∷ []))
spec op_any_check =
    repeats value_checksum_outcome 1 none (plain cat_checksum value_checksum_outcome (1 ∷ 30 ∷ []))
spec op_unsupported_checksum =
    needs (p_reason_code ∷ [])
      (may (p_message_key ∷ []) (plain cat_checksum value_checksum_outcome (1 ∷ 30 ∷ [])))
spec op_compare_constant = takes (value_integer ∷ []) (
    needs (p_constant ∷ [])
      (may (p_message_key ∷ []) (plain cat_checksum value_checksum_outcome (1 ∷ 30 ∷ 34 ∷ []))))
spec op_call_format =
    takes (value_string ∷ [])
      (needs (p_program_id ∷ []) (plain cat_call value_assertion (1 ∷ 11 ∷ 20 ∷ [])))
spec op_call_checksum =
    takes (value_string ∷ [])
      (needs (p_program_id ∷ []) (plain cat_call value_checksum_outcome (1 ∷ 11 ∷ 30 ∷ [])))
