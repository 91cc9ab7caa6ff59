-- ===== src/Gen/Load/Overflow.antt =====
-- `checkWeightedSumOverflow` and the sum that it admits, `WeightedSum` of internal/runtime/integer.go.
use native.Mathlib.Nat.{
  mul-le-mul_right, div-mul-le_self, mul_comm, mul_left_comm, mul-zero, zero-mul,
}
use entid_go.Prelude.{
  ℕ, zero, suc, ◌*◌, ◌/◌, ◌^◌, ◌≤◌, ◌<◌, ◌≡◌, refl, sym, ap, ◌∙◌, true, not, ◌&&◌, ◌||◌, List, [],
  ◌∷◌, Option, arith, leb→le, ◌==◌, ==_iff, if◌then◌else◌, length, get_or, all, Bool-cases, inl,
  inr, &&-inv, ||-inv, else_taken,
}
use entid_go.Prelude.Int.{ℤ, pos, leb_ℤ}
use entid_go.Prelude.Words.{mag}
use entid_go.Runtime.View.{View}
use entid_go.Runtime.Integer.{
  number, indeterminate, Alignment, align_left, align_right, align_cycle, Mapping, map_digit_value,
  map_alnum_base36, char_value, pair_count, weighted_sum,
}
use entid_go.Runtime.Integer.Exact.{max_contribution, exact_term, exact_sum, weighted_sum-exact_sum}
use entid_go.Gen.Model.{Node, or_zero}
use entid_go.Gen.Load.Nodes.{
  magnitude, max_int64, loader_contribution, loader_pairs, check_weighted_sum_overflow,
}

-- The numbers of an alignment and of a mapping in a bundle.
abbrev pub alignment_number : Alignment → ℕ
alignment_number align_left = 1
alignment_number align_right = 2
alignment_number align_cycle = 3

abbrev pub mapping_number : Mapping → ℕ
mapping_number map_digit_value = 1
mapping_number map_alnum_base36 = 2

magnitude-get_or : (ws : List ℤ) (i : ℕ) → mag (get_or ws i (pos 0)) ≤ magnitude ws
unfolding magnitude
magnitude-get_or [] i = ground arith
magnitude-get_or (w ∷ ws) zero = ground arith
magnitude-get_or (w ∷ ws) (suc i) = ground (arith, magnitude-get_or ws i)

contribution-eq :
    (n : Node) (mapping : Mapping)
    → or_zero n.mapping ≡ mapping_number mapping
    → loader_contribution n ≡ max_contribution mapping
unfolding loader_contribution
contribution-eq n map_digit_value e = ground arith
contribution-eq n map_alnum_base36 e = ground arith

-- The pairs of the sum are those that the loader counts, if a cycled operand is as short as it assumes.
pair_count-le :
    (n : Node) (bound : Option ℕ) (align : Alignment) (len : ℕ)
    → or_zero n.alignment ≡ alignment_number align
    → (align ≡ align_cycle → len ≤ loader_pairs n bound)
    → pair_count align len (length n.weights) ≤ loader_pairs n bound
unfolding pair_count loader_pairs
pair_count-le n bound align_left len e h = ground arith
pair_count-le n bound align_right len e h = ground arith
pair_count-le n bound align_cycle len e h = h refl

product-lt :
    (n : Node) (bound : Option ℕ)
    → check_weighted_sum_overflow n bound ≡ true
    → loader_contribution n * (magnitude n.weights * loader_pairs n bound) < 2 ^ 63
unfolding check_weighted_sum_overflow
product-lt n bound e =
    let m = magnitude n.weights in
    let pairs = loader_pairs n bound in
    let c = loader_contribution n in
    elim (Bool-cases (m == 0 || pairs == 0)) [
      | inl none ↦ elim (||-inv (m == 0) (pairs == 0) none) [
        | inl light ↦ rw ((==_iff m 0).0 light, zero-mul, mul-zero) (omega arith)
        | inr empty ↦ rw ((==_iff pairs 0).0 empty, mul-zero, mul-zero) (omega arith)
      ]
      | inr some ↦
          let (fits, fits') = &&-inv _ _ (else_taken _ _ _ _ some e) in
          let below = mul-le-mul_right (m * pairs) (leb→le c (max_int64 / (m * pairs)) fits') in
          omega (arith, below, div-mul-le_self max_int64 (m * pairs))
    ]

-- A weighted sum that passes the loader's check is exact: on an operand as short as the check assumes no
-- product and no partial sum wraps, and the result is the sum as integers without bound. It is
-- indeterminate where the operand is absent, empty, or has a byte outside the mapping.
pub weighted_sum-checked :
    (n : Node) (bound : Option ℕ) (v : View) (align : Alignment) (mapping : Mapping)
    → check_weighted_sum_overflow n bound ≡ true
    → or_zero n.alignment ≡ alignment_number align
    → or_zero n.mapping ≡ mapping_number mapping
    → (align ≡ align_cycle → length v.s ≤ loader_pairs n bound)
    → weighted_sum v n.weights align mapping ≡ (
        if v.present && not (length v.s == 0) && all (λ b. leb_ℤ (pos 0) (char_value mapping b)) v.s
        then number (
            exact_sum
              (pair_count align (length v.s) (length n.weights))
              0
              (exact_term align (char_value mapping) v.s n.weights)
              (pos 0))
        else indeterminate)
weighted_sum-checked n bound v align mapping e ea em short =
    let m = magnitude n.weights in
    let pairs = loader_pairs n bound in
    let c = max_contribution mapping in
    let few = mul-le-mul_right (c * m) (pair_count-le n bound align (length v.s) ea short) in
    let fits : c * (m * pairs) < 2 ^ 63 =
      rw (sym (contribution-eq n mapping em)) (product-lt n bound e) in
    let turned : pairs * (c * m) ≡ c * (m * pairs) =
      mul_left_comm pairs c m ∙ ap (λ k. c * k) (mul_comm pairs m) in
    weighted_sum-exact_sum v n.weights align mapping m (magnitude-get_or n.weights)
      (omega (arith, few, fits, turned))
