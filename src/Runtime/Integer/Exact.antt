-- ===== src/Runtime/Integer/Exact.antt =====
-- `WeightedSum` under the bound that the loader checks of every weighted sum: no int64 operation wraps.
use entid_go.Prelude.{
  ℕ, zero, suc, ◌+◌, ◌-◌, ◌*◌, ◌%◌, ◌^◌, ◌≤◌, ◌<◌, ◌≡◌, refl, ap, ◌∙◌, not, ◌&&◌, List, arith, ◌==◌,
  if◌then◌else◌, length, get_or, Bytes, all,
}
use native.Mathlib.Nat.{mul-le-mul}
use entid_go.Prelude.Int.{ℤ, pos, negsuc, ◌+ℤ◌, ◌*ℤ◌, leb_ℤ}
use entid_go.Prelude.Words.{wrap64, wrap64_small, mag}
use entid_go.Runtime.View.{View}
use entid_go.Runtime.Integer.{
  number, indeterminate, Alignment, align_left, align_right, align_cycle, Mapping, map_digit_value,
  map_alnum_base36, char_value, accumulate, pair_count, pair_term, weighted_sum,
}

mag-mul : (a b : ℤ) → mag (a *ℤ b) ≡ mag a * mag b
unfolding ◌*ℤ◌
mag-mul (pos a) (pos b) = ground arith
mag-mul (pos a) (negsuc b) = ground arith
mag-mul (negsuc a) (pos b) = ground arith
mag-mul (negsuc a) (negsuc b) = ground arith

mag-add : (a b : ℤ) → mag (a +ℤ b) ≤ mag a + mag b
unfolding ◌+ℤ◌
mag-add a b = ground arith

-- The largest value of one character, as the loader has it.
abbrev pub max_contribution : Mapping → ℕ
max_contribution map_digit_value = 9
max_contribution map_alnum_base36 = 35

char_value-mag : (mapping : Mapping) (b : ℕ) → mag (char_value mapping b) ≤ max_contribution mapping
unfolding char_value
char_value-mag map_digit_value b = ground arith
char_value-mag map_alnum_base36 b = ground arith

-- The sum and its terms as integers without bound.
abbrev pub exact_term : Alignment → (ℕ → ℤ) → Bytes → List ℤ → ℕ → ℤ
exact_term align_left value s weights i = value (get_or s i 0) *ℤ get_or weights i (pos 0)
exact_term align_right value s weights j =
    value (get_or s (length s - 1 - j) 0) *ℤ get_or weights (length weights - 1 - j) (pos 0)
exact_term align_cycle value s weights i =
    value (get_or s i 0) *ℤ get_or weights (i % length weights) (pos 0)

abbrev pub exact_sum : ℕ → ℕ → (ℕ → ℤ) → ℤ → ℤ
exact_sum zero j term acc = acc
exact_sum (suc k) j term acc = exact_sum k (j + 1) term (acc +ℤ term j)

accumulate-exact_sum :
    (k j bound : ℕ) (term exact : ℕ → ℤ) (acc : ℤ)
    → ((i : ℕ) → mag (exact i) ≤ bound)
    → (bound < 2 ^ 63 → (i : ℕ) → term i ≡ exact i)
    → mag acc + k * bound < 2 ^ 63
    → accumulate k j term acc ≡ exact_sum k j exact acc
unfolding accumulate
accumulate-exact_sum zero j bound term exact acc small same h = refl
accumulate-exact_sum (suc k) j bound term exact acc small same h =
    let more : suc k * bound ≡ k * bound + bound = grind arith in
    let here : term j ≡ exact j = same (omega (arith, more)) j in
    let near = mag-add acc (exact j) in
    let small_j = small j in
    let fits : mag (acc +ℤ exact j) + k * bound < 2 ^ 63 = omega (arith, more, near, small_j) in
    rw here (
      rw (wrap64_small (acc +ℤ exact j) (omega arith))
        (accumulate-exact_sum k (j + 1) bound term exact (acc +ℤ exact j) small same fits))

term-mag :
    (mapping : Mapping) (b m : ℕ) (w : ℤ)
    → mag w ≤ m
    → mag (char_value mapping b *ℤ w) ≤ max_contribution mapping * m
term-mag mapping b m w h =
    let product = mag-mul (char_value mapping b) w in
    let bound = mul-le-mul (char_value-mag mapping b) h in omega (arith, product, bound)

pair_term-wrap64 :
    (align : Alignment) (f : ℕ → ℤ) (s : Bytes) (weights : List ℤ) (i : ℕ)
    → pair_term align f s weights i ≡ wrap64 (exact_term align f s weights i)
unfolding pair_term
pair_term-wrap64 align_left f s weights i = refl
pair_term-wrap64 align_right f s weights i = refl
pair_term-wrap64 align_cycle f s weights i = refl

-- `pair_term` and the term without bound, for weights of magnitude `m` at most.
module _ (mapping : Mapping) (s : Bytes) (weights : List ℤ) (m : ℕ)
    (small : (i : ℕ) → mag (get_or weights i (pos 0)) ≤ m) where
  exact_term-mag :
      (align : Alignment) (i : ℕ)
      → mag (exact_term align (char_value mapping) s weights i) ≤ max_contribution mapping * m
  exact_term-mag align_left i =
      term-mag mapping (get_or s i 0) m (get_or weights i (pos 0)) (small i)
  exact_term-mag align_right i =
      let k = length weights - 1 - i in
      term-mag mapping (get_or s (length s - 1 - i) 0) m (get_or weights k (pos 0)) (small k)
  exact_term-mag align_cycle i =
      let k = i % length weights in
      term-mag mapping (get_or s i 0) m (get_or weights k (pos 0)) (small k)

  pair_term-exact_term :
      (align : Alignment)
      → max_contribution mapping * m < 2 ^ 63
      → (i : ℕ)
      → pair_term align (char_value mapping) s weights i
        ≡ exact_term align (char_value mapping) s weights i
  pair_term-exact_term align h i =
      let bound = exact_term-mag align i in
      pair_term-wrap64 align (char_value mapping) s weights i
      ∙ wrap64_small (exact_term align (char_value mapping) s weights i) (omega (arith, bound, h))

pub weighted_sum-exact_sum :
    (v : View) (weights : List ℤ) (align : Alignment) (mapping : Mapping) (m : ℕ)
    → ((i : ℕ) → mag (get_or weights i (pos 0)) ≤ m)
    → pair_count align (length v.s) (length weights) * (max_contribution mapping * m) < 2 ^ 63
    → weighted_sum v weights align mapping ≡ (
        if v.present && not (length v.s == 0) && all (λ b. leb_ℤ (pos 0) (char_value mapping b)) v.s
        then number (
            exact_sum
              (pair_count align (length v.s) (length weights))
              0
              (exact_term align (char_value mapping) v.s weights)
              (pos 0))
        else indeterminate)
unfolding weighted_sum
weighted_sum-exact_sum v weights align mapping m small fits =
    let pairs = pair_count align (length v.s) (length weights) in
    let same =
      accumulate-exact_sum pairs 0 (max_contribution mapping * m)
        (pair_term align (char_value mapping) v.s weights)
        (exact_term align (char_value mapping) v.s weights) (pos 0)
        (exact_term-mag mapping v.s weights m small align)
        (pair_term-exact_term mapping v.s weights m small align) (omega (arith, fits)) in
    ground (arith, ap number same)
