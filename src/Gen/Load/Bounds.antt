-- ===== src/Gen/Load/Bounds.antt =====
-- load.go: `checkBounds`, the arithmetic bounds of one node, and `stringBound`, the provable length of
-- its string in code points. `none` is no provable bound, the source's `unboundedLen`.
use entid_go.Gen.Opcodes.{Opcode}
use entid_go.Gen.Limits.{
  max_constant, max_remainder_values, min_remainder_values, feature_checksum_custom_alphabet,
  valid_profile, max_weight_magnitude, max_weights, min_weights, max_modulus, max_provable_digits,
  min_provable_digits, max_constant_bytes, max_slice_bound, min_modulus,
}
use entid_go.Prelude.{
  ℕ, ◌+◌, ◌-◌, ◌%◌, ◌^◌, Bool, true, false, not, ◌&&◌, ◌||◌, List, [], ◌∷◌, Option, none, some, ltb,
  leb, ◌==◌, if◌then◌else◌, length, get_or, min, Bytes, beq,
}
use entid_go.Prelude.Int.{ℤ, pos, negsuc, ltb_ℤ}
use entid_go.Utf8.{rune_count}
use entid_go.Gen.Model.{
  mapping_custom_alphabet, absent_checksum_reason, mapping_alnum_base36, align_cycle,
  proves_invalidity, align_right, align_left, Node, or_zero, or_empty, value_string,
  mapping_digit_value,
}
use entid_go.Gen.Opcodes.{
  Opcode, op_after_first, op_append, op_ascii_charset, op_before_first, op_char_at_in,
  op_compare_slice, op_concat, op_constant, op_contains, op_country_code, op_digits_to_integer,
  op_ends_with, op_insert, op_left_pad, op_length_between, op_length_in, op_prefix_in, op_prepend,
  op_profile_is, op_remove_chars, op_replace_prefix, op_require, op_slice, op_slice_from,
  op_slice_to, op_starts_with, op_strip_prefix, op_unsupported_checksum, op_weighted_sum,
}
use entid_go.Gen.Load.Tokens.{check_alphabet}
use entid_go.Gen.Load.Nodes.{
  is_some, ascending, check_prefix_values, weights_within, check_weighted_sum_overflow,
}

-- The bound of operand `k`.
abbrev pub operand_bound : Node → List (Option ℕ) → ℕ → Option ℕ
operand_bound n bounds k = get_or bounds (get_or n.input_nodes k 0) none

-- The loop of `CONCAT`.
unfoldable pub concat_bound : List (Option ℕ) → List ℕ → ℕ → Option ℕ
concat_bound bounds [] total = some total
concat_bound bounds (i ∷ is) total = elim (get_or bounds i none) [
  | none ↦ none
  | some b ↦ if ltb max_slice_bound (total + b) then none else concat_bound bounds is (total + b)
]

-- The length of a slice is computed in uint32.
abbrev pub slice_width : Node → ℕ
slice_width n = (or_zero n.end + 2 ^ 32 - or_zero n.start) % 2 ^ 32

abbrev pub bound_of : Opcode → Node → List (Option ℕ) → Option ℕ
bound_of op_constant n bounds = some (rune_count (or_empty n.text))
bound_of op_country_code n bounds = some 2
bound_of op_slice n bounds = some (slice_width n)
bound_of op_slice_from n bounds = elim (operand_bound n bounds 0) [
  | none ↦ none
  | some b ↦ some (b - or_zero n.start)
]
bound_of op_slice_to n bounds = elim (operand_bound n bounds 0) [
  | none ↦ some (or_zero n.end)
  | some b ↦ some (min b (or_zero n.end))
]
bound_of op_before_first n bounds = operand_bound n bounds 0
bound_of op_after_first n bounds = operand_bound n bounds 0
bound_of op_strip_prefix n bounds = operand_bound n bounds 0
bound_of op_concat n bounds = concat_bound bounds n.input_nodes 0
bound_of _ n bounds = none

unfoldable pub string_bound : Node → List (Option ℕ) → Option ℕ
unfolding concat_bound
string_bound n bounds =
    if not (n.output_type == value_string) then some 0 else bound_of n.op n bounds

abbrev outside : ℤ → ℤ → ℤ → Bool
outside lo hi z = ltb_ℤ z lo || ltb_ℤ hi z

abbrev bounded : Option ℕ → Bool
bounded none = true
bounded (some v) = leb v max_slice_bound

abbrev text_bounded : Option Bytes → Bool
text_bounded none = true
text_bounded (some s) = leb (length s) max_constant_bytes

abbrev in_range : ℤ → ℤ → Option ℤ → Bool
in_range lo hi none = true
in_range lo hi (some z) = not (outside lo hi z)

abbrev named : Option Bytes → Bool
named none = true
named (some s) = not (length s == 0)

abbrev sized : ℕ → ℕ → ℕ → Bool
sized lo hi n = n == 0 || (leb lo n && leb n hi)

-- The bounds that do not depend on the operation.
unfoldable pub check_parameters : Node → Bool
check_parameters n =
    named n.message_key
    && text_bounded n.text
    && text_bounded n.replacement
    && bounded n.start
    && bounded n.end
    && bounded n.index
    && in_range (pos min_modulus) (pos max_modulus) n.modulus
    && sized min_weights max_weights (length n.weights)
    && weights_within max_weight_magnitude n.weights
    && sized min_remainder_values max_remainder_values (length n.remainder_values)
    && in_range (negsuc (max_constant - 1)) (pos max_constant) n.constant

abbrev provable_digits : Option ℕ → Bool
provable_digits none = false
provable_digits (some b) = leb min_provable_digits b && leb b max_provable_digits

-- The alignment and the mapping of a weighted sum, with the capability that a custom alphabet uses.
unfoldable pub check_weighted_sum : Node → Option ℕ → Option (List ℕ)
check_weighted_sum n bound =
    let mapping = or_zero n.mapping in
    if not (
      or_zero n.alignment == align_left
      || or_zero n.alignment == align_right
      || or_zero n.alignment == align_cycle)
    then none
    else if not (check_weighted_sum_overflow n bound)
    then none
    else if mapping == mapping_digit_value || mapping == mapping_alnum_base36
    then (if is_some n.alphabet then none else some [])
    else if mapping == mapping_custom_alphabet
    then (if check_alphabet n.alphabet then some (feature_checksum_custom_alphabet ∷ []) else none)
    else none

abbrev pub accept : Bool → Option (List ℕ)
accept true = some []
accept false = none

abbrev non_empty_text : Node → Bool
non_empty_text n = not (length (or_empty n.text) == 0)

-- The bounds of one operation.
abbrev pub check_operation : Opcode → Node → List (Option ℕ) → Option (List ℕ)
check_operation op_slice n bounds = accept (leb (or_zero n.start) (or_zero n.end))
check_operation op_length_between n bounds =
    accept (leb (or_zero n.min_length) (or_zero n.max_length))
check_operation op_length_in n bounds = accept (ascending n.lengths)
check_operation op_prefix_in n bounds = accept (check_prefix_values n.values)
check_operation op_weighted_sum n bounds = check_weighted_sum n (operand_bound n bounds 0)
check_operation op_digits_to_integer n bounds = accept (provable_digits (operand_bound n bounds 0))
check_operation op_compare_slice n bounds = accept (
    leb (or_zero n.start + min_provable_digits) (or_zero n.end)
    && leb (or_zero n.end) (or_zero n.start + max_provable_digits))
check_operation op_require n bounds = accept (proves_invalidity (or_zero n.reason_code))
check_operation op_unsupported_checksum n bounds =
    accept (absent_checksum_reason (or_zero n.reason_code))
check_operation op_profile_is n bounds = accept (valid_profile (or_empty n.text))
check_operation op_before_first n bounds = accept (non_empty_text n)
check_operation op_after_first n bounds = accept (non_empty_text n)
check_operation op_ascii_charset n bounds = accept (non_empty_text n)
check_operation op_starts_with n bounds = accept (non_empty_text n)
check_operation op_ends_with n bounds = accept (non_empty_text n)
check_operation op_contains n bounds = accept (non_empty_text n)
check_operation op_char_at_in n bounds = accept (non_empty_text n)
check_operation op_remove_chars n bounds = accept (non_empty_text n)
check_operation op_prepend n bounds = accept (non_empty_text n)
check_operation op_append n bounds = accept (non_empty_text n)
check_operation op_insert n bounds = accept (non_empty_text n)
check_operation op_replace_prefix n bounds =
    accept (non_empty_text n && not (beq (or_empty n.text) (or_empty n.replacement)))
check_operation op_left_pad n bounds = accept (
    rune_count (or_empty n.text) == 1
    && leb 1 (or_zero n.len)
    && leb (or_zero n.len) max_slice_bound)
check_operation _ n bounds = some []

unfoldable pub check_bounds : Node → List (Option ℕ) → Option (List ℕ)
unfolding check_parameters check_weighted_sum
check_bounds n bounds = if not (check_parameters n) then none else check_operation n.op n bounds
