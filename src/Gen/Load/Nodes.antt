-- ===== src/Gen/Load/Nodes.antt =====
-- load.go: the checks of one node, and the bound on the string that it produces. `none` is no provable
-- bound, the source's `unboundedLen`.
use entid_go.Gen.Opcodes.{
  p_constant, p_program_id, p_message_key, p_reason_code, p_remainder_values, p_alphabet, p_mapping,
  p_alignment, p_weights, p_modulus, p_lengths, p_values, p_max_length, p_min_length, p_length,
  p_index, p_end, p_start, p_replacement, p_text, OpSpec, Param,
}
use entid_go.Gen.Limits.{max_constant_bytes, max_input_bytes}
use entid_go.Prelude.{
  ℕ, ◌+◌, ◌-◌, ◌*◌, ◌/◌, ◌^◌, Bool, true, false, not, ◌&&◌, ◌||◌, List, [], ◌∷◌, Option, none, some,
  ltb, leb, ◌==◌, if◌then◌else◌, length, get_or, drop, Bytes, less,
}
use entid_go.Prelude.Int.{ℤ}
use entid_go.Prelude.Words.{mag}
use entid_go.Utf8.{rune_count}
use entid_go.Gen.Model.{
  Node, no_node, or_zero, or_empty, align_left, align_right, mapping_alnum_base36,
  mapping_custom_alphabet,
}

abbrev pub is_some {ℓ} : {A : Type ℓ} → Option A → Bool
is_some none = false
is_some (some a) = true

abbrev when : Bool → Param → List Param → List Param
when true p ps = p ∷ ps
when false p ps = ps

-- `Node.present`.
unfoldable pub present : Node → List Param
present n = when (is_some n.text) p_text (
    when (is_some n.replacement) p_replacement (
      when (is_some n.start) p_start (
        when (is_some n.end) p_end (
          when (is_some n.index) p_index (
            when (is_some n.len) p_length (
              when (is_some n.min_length) p_min_length (
                when (is_some n.max_length) p_max_length (
                  when (ltb 0 (length n.values)) p_values (
                    when (ltb 0 (length n.lengths)) p_lengths (
                      when (is_some n.modulus) p_modulus (
                        when (ltb 0 (length n.weights)) p_weights (
                          when (is_some n.alignment) p_alignment (
                            when (is_some n.mapping) p_mapping (
                              when (is_some n.alphabet) p_alphabet (
                                when (ltb 0 (length n.remainder_values)) p_remainder_values (
                                  when (is_some n.reason_code) p_reason_code (
                                    when (is_some n.message_key) p_message_key (
                                      when (not (n.program_id == 0)) p_program_id
                                        (when (is_some n.constant) p_constant [])))))))))))))))))))

-- The loop over the operands: each is strictly lower.
unfoldable pub all_lower : ℕ → List ℕ → Bool
all_lower i [] = true
all_lower i (x ∷ xs) = not (ltb (2 ^ 31 - 1) x || leb i x) && all_lower i xs

abbrev output_of : List Node → ℕ → ℕ
output_of nodes i = (get_or nodes i no_node).output_type

-- The operands at fixed positions have the types that the operation wants.
unfoldable pub fixed_typed : List Node → List ℕ → List ℕ → Bool
fixed_typed nodes inputs [] = true
fixed_typed nodes [] (t ∷ ts) = false
fixed_typed nodes (x ∷ xs) (t ∷ ts) = output_of nodes x == t && fixed_typed nodes xs ts

unfoldable pub all_typed : List Node → ℕ → List ℕ → Bool
all_typed nodes t [] = true
all_typed nodes t (x ∷ xs) = output_of nodes x == t && all_typed nodes t xs

abbrev within_max : Option ℕ → ℕ → Bool
within_max none n = true
within_max (some k) n = leb n k

unfoldable pub check_operands : List Node → ℕ → Node → OpSpec → Bool
unfolding all_lower fixed_typed all_typed
check_operands nodes i n s =
    let rest = drop (length s.fixed) n.input_nodes in
    all_lower i n.input_nodes
    && leb (length s.fixed) (length n.input_nodes)
    && fixed_typed nodes n.input_nodes s.fixed
    && (if s.repeated == 0
        then length rest == 0
        else leb s.min_rep (length rest)
          && within_max s.max_rep (length rest)
          && all_typed nodes s.repeated rest)

-- The loops over `n.Weights`: the largest magnitude, and that none is above the limit.
unfoldable pub magnitude : List ℤ → ℕ
magnitude [] = 0
magnitude (w ∷ ws) = if leb (magnitude ws) (mag w) then mag w else magnitude ws

unfoldable pub weights_within : ℕ → List ℤ → Bool
weights_within k [] = true
weights_within k (w ∷ ws) = leb (mag w) k && weights_within k ws

abbrev pub max_int64 : ℕ
max_int64 = 2 ^ 63 - 1

unfoldable pub loader_contribution : Node → ℕ
loader_contribution n =
    let m = or_zero n.mapping in
    if m == mapping_alnum_base36
    then 35
    else if m == mapping_custom_alphabet
    then rune_count (or_empty n.alphabet) - 1
    else 9

unfoldable pub loader_pairs : Node → Option ℕ → ℕ
loader_pairs n bound =
    if or_zero n.alignment == align_left || or_zero n.alignment == align_right
    then length n.weights
    else elim bound [ none ↦ max_input_bytes + max_constant_bytes | some b ↦ b ]

-- The magnitudes are below 10 ^ 6 and the pairs below 2 ^ 14 here, so `magnitude * pairs` does not wrap.
unfoldable pub check_weighted_sum_overflow : Node → Option ℕ → Bool
unfolding magnitude loader_contribution loader_pairs
check_weighted_sum_overflow n bound =
    let m = magnitude n.weights in
    let pairs = loader_pairs n bound in
    if m == 0 || pairs == 0
    then true
    else leb m (max_int64 / pairs) && leb (loader_contribution n) (max_int64 / (m * pairs))

-- A list of numbers, or of strings, strictly ascending.
unfoldable pub ascending : List ℕ → Bool
ascending [] = true
ascending (x ∷ []) = true
ascending (x ∷ y ∷ l) = ltb x y && ascending (y ∷ l)

unfoldable pub ascending_strings : List Bytes → Bool
unfolding less
ascending_strings [] = true
ascending_strings (x ∷ []) = true
ascending_strings (x ∷ y ∷ l) = less x y && ascending_strings (y ∷ l)

unfoldable pub none_empty : List Bytes → Bool
none_empty [] = true
none_empty (x ∷ l) = not (length x == 0) && none_empty l

unfoldable pub one_length : ℕ → List Bytes → Bool
one_length n [] = true
one_length n (x ∷ l) = length x == n && one_length n l

-- `prefix_in`: no empty value, strictly ascending, and all of one length.
unfoldable pub check_prefix_values : List Bytes → Bool
unfolding ascending_strings none_empty one_length
check_prefix_values values =
    none_empty values && ascending_strings values && one_length (length (get_or values 0 [])) values
