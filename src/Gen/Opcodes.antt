-- ===== src/Gen/Opcodes.antt =====
-- internal/gen/opcodes.go: the operations of the rules, and what the loader knows of each.
pub mod Specs
pub mod Tables
use entid_go.Prelude.{
  ℕ, ◌+◌, Bool, true, false, not, ◌&&◌, ◌||◌, List, [], ◌∷◌, Option, none, some, ◌==◌,
  if◌then◌else◌,
}

pub data Opcode : Type 0 where
  op_invalid op_constant op_value : Opcode
  op_subject op_country_code op_slice : Opcode
  op_slice_from op_slice_to op_before_first : Opcode
  op_after_first op_strip_prefix op_concat : Opcode
  op_digits_to_integer op_mod_digits op_weighted_sum : Opcode
  op_modulo op_complement op_remainder_map : Opcode
  op_is_empty op_is_absent op_equals : Opcode
  op_length_eq op_length_in op_length_between : Opcode
  op_ascii_digits op_ascii_upper_letters op_ascii_alphanumeric : Opcode
  op_ascii_charset op_starts_with op_ends_with : Opcode
  op_prefix_in op_char_at_in op_contains : Opcode
  op_all op_any op_not : Opcode
  op_profile_is op_integer_is op_canon_sequence : Opcode
  op_trim_whitespace op_remove_whitespace op_uppercase_ascii : Opcode
  op_remove_chars op_replace_prefix op_prepend : Opcode
  op_append op_insert op_left_pad : Opcode
  op_prepend_country_if_missing op_canon_when op_assert_sequence : Opcode
  op_require op_luhn op_iso7064_mod97 : Opcode
  op_compare_digit op_compare_slice op_choose : Opcode
  op_checksum_when op_all_checks op_any_check : Opcode
  op_unsupported_checksum op_compare_constant op_call_format : Opcode
  op_call_checksum : Opcode

-- The constants, by `iota`.
abbrev pub opcode_number : Opcode → ℕ
opcode_number op_invalid = 0
opcode_number op_constant = 1
opcode_number op_value = 2
opcode_number op_subject = 3
opcode_number op_country_code = 4
opcode_number op_slice = 5
opcode_number op_slice_from = 6
opcode_number op_slice_to = 7
opcode_number op_before_first = 8
opcode_number op_after_first = 9
opcode_number op_strip_prefix = 10
opcode_number op_concat = 11
opcode_number op_digits_to_integer = 12
opcode_number op_mod_digits = 13
opcode_number op_weighted_sum = 14
opcode_number op_modulo = 15
opcode_number op_complement = 16
opcode_number op_remainder_map = 17
opcode_number op_is_empty = 18
opcode_number op_is_absent = 19
opcode_number op_equals = 20
opcode_number op_length_eq = 21
opcode_number op_length_in = 22
opcode_number op_length_between = 23
opcode_number op_ascii_digits = 24
opcode_number op_ascii_upper_letters = 25
opcode_number op_ascii_alphanumeric = 26
opcode_number op_ascii_charset = 27
opcode_number op_starts_with = 28
opcode_number op_ends_with = 29
opcode_number op_prefix_in = 30
opcode_number op_char_at_in = 31
opcode_number op_contains = 32
opcode_number op_all = 33
opcode_number op_any = 34
opcode_number op_not = 35
opcode_number op_profile_is = 36
opcode_number op_integer_is = 37
opcode_number op_canon_sequence = 38
opcode_number op_trim_whitespace = 39
opcode_number op_remove_whitespace = 40
opcode_number op_uppercase_ascii = 41
opcode_number op_remove_chars = 42
opcode_number op_replace_prefix = 43
opcode_number op_prepend = 44
opcode_number op_append = 45
opcode_number op_insert = 46
opcode_number op_left_pad = 47
opcode_number op_prepend_country_if_missing = 48
opcode_number op_canon_when = 49
opcode_number op_assert_sequence = 50
opcode_number op_require = 51
opcode_number op_luhn = 52
opcode_number op_iso7064_mod97 = 53
opcode_number op_compare_digit = 54
opcode_number op_compare_slice = 55
opcode_number op_choose = 56
opcode_number op_checksum_when = 57
opcode_number op_all_checks = 58
opcode_number op_any_check = 59
opcode_number op_unsupported_checksum = 60
opcode_number op_compare_constant = 61
opcode_number op_call_format = 62
opcode_number op_call_checksum = 63

-- `a == b` on operations.
abbrev pub is_op : Opcode → Opcode → Bool
is_op a b = opcode_number a == opcode_number b

pub data Category : Type 0 where
  cat_string cat_integer cat_predicate : Category
  cat_canonicalization cat_assertion cat_checksum : Category
  cat_call : Category

abbrev pub category_number : Category → ℕ
category_number cat_string = 0
category_number cat_integer = 1
category_number cat_predicate = 2
category_number cat_canonicalization = 3
category_number cat_assertion = 4
category_number cat_checksum = 5
category_number cat_call = 6

-- A parameter field of an operation message; a bit set of them is a list.
pub data Param : Type 0 where
  p_text p_replacement p_start p_end : Param
  p_index p_length p_min_length p_max_length : Param
  p_values p_lengths p_modulus p_weights : Param
  p_alignment p_mapping p_remainder_values p_reason_code : Param
  p_message_key p_program_id p_constant p_alphabet : Param

abbrev pub param_number : Param → ℕ
param_number p_text = 0
param_number p_replacement = 1
param_number p_start = 2
param_number p_end = 3
param_number p_index = 4
param_number p_length = 5
param_number p_min_length = 6
param_number p_max_length = 7
param_number p_values = 8
param_number p_lengths = 9
param_number p_modulus = 10
param_number p_weights = 11
param_number p_alignment = 12
param_number p_mapping = 13
param_number p_remainder_values = 14
param_number p_reason_code = 15
param_number p_message_key = 16
param_number p_program_id = 17
param_number p_constant = 18
param_number p_alphabet = 19

unfoldable pub has_param : List Param → Param → Bool
has_param [] p = false
has_param (q ∷ qs) p = param_number q == param_number p || has_param qs p

-- `a &^ b == 0`: every parameter of the one set is in the other.
unfoldable pub subset : List Param → List Param → Bool
unfolding has_param
subset [] qs = true
subset (p ∷ ps) qs = has_param qs p && subset ps qs

-- What an operation takes and gives. `max_rep` is `none` for no limit; the name, which only
-- diagnostics print, is left out.
pub record OpSpec : Type 0 where
  pub cat : Category
  pub output : ℕ
  pub fixed : List ℕ
  pub repeated : ℕ
  pub min_rep : ℕ
  pub max_rep : Option ℕ
  pub required : List Param
  pub optional : List Param
  pub features : List ℕ
