-- ===== src/Runtime/Integer/Modulo.antt =====
-- `Modulo`, `Complement` and `RemainderMap` on the values that the loader accepts.
use entid_go.Prelude.{
  ◌/◌, inl, inr, ◌⊎◌, ℕ, suc, ◌+◌, ◌-◌, ◌*◌, ◌%◌, ◌^◌, ◌≤◌, ◌<◌, ◌≡◌, ap, ◌∙◌, arith,
}
use native.Mathlib.Decide.{dec_lt}
use native.Mathlib.Nat.{
  div-add-mod', suc-mod, mod_self, mod-lt, zero-mod, mod-eq_of_lt, add-mod_right, mod-mod,
}
use entid_go.Prelude.Int.{ℤ, pos, negsuc, ◌+ℤ◌, ◌*ℤ◌, ◌-ℤ◌}
use entid_go.Prelude.Words.{wrap64_small, rem_ℤ}
use entid_go.Runtime.Integer.{indeterminate, number, modulo, complement}

-- The euclidean remainder of an integer, in [0, m).
abbrev pub euclid : ℤ → ℕ → ℕ
euclid (pos n) m = n % m
euclid (negsuc n) m = m - 1 - n % m

-- The remainder of n + 1 against that of n.
add-mul : (k m : ℕ) → suc k * m ≡ k * m + m
add-mul k m = grind arith

suc_cases :
    (n m : ℕ)
    → 0 < m
    → ((suc n % m ≡ 0) × (n % m + 1 ≡ m)) ⊎ ((suc n % m ≡ n % m + 1) × (n % m + 1 < m))
suc_cases n m h = elim (dec_lt (n % m + 1) m) [
  | yes p ↦
      let q : suc (n % m) < m = omega arith in
      let e : suc n % m ≡ suc (n % m) = suc-mod n m ∙ mod-eq_of_lt q in inr (omega (arith, e), p)
  | no p ↦
      let full : suc (n % m) ≡ m = omega (arith, mod-lt n h) in
      inl (suc-mod n m ∙ ap (λ t. t % m) full ∙ mod_self m, omega arith)
]

pub modulo-euclid :
    (z : ℤ) (m : ℕ)
    → 0 < m
    → m ≤ 10 ^ 9
    → (modulo (number z) (pos m) ≡ number (pos (euclid z m))) × (euclid z m < m)
unfolding modulo rem_ℤ ◌+ℤ◌
modulo-euclid (pos n) m h k = (
  ground (arith, zero-mod m, wrap64_small (pos (n % m + m)), add-mod_right (n % m) m, mod-mod n m),
  mod-lt n h,
)
modulo-euclid (negsuc n) m h k = elim (suc_cases n m h) [
  | inl (zero_rem, full) ↦
      (ground (arith, zero_rem, zero-mod m, wrap64_small (pos m), mod_self m), omega (arith, full))
  | inr (next_rem, short) ↦
      let r = m - 1 - n % m in
      let r_lt : r < m = omega (arith, short) in
      (ground (arith, next_rem, zero-mod m, wrap64_small (pos r), mod-eq_of_lt r_lt), r_lt)
]

-- The euclidean remainder is congruent to the integer.
pub euclid_congruent : (z : ℤ) (m : ℕ) → 0 < m → (q : ℤ) × (q *ℤ pos m +ℤ pos (euclid z m) ≡ z)
euclid_congruent (pos n) m h = (pos (n / m), unfold ◌*ℤ◌ ◌+ℤ◌ in ground (arith, div-add-mod' n m))
euclid_congruent (negsuc n) m h = (
  negsuc (n / m),
  unfold ◌*ℤ◌ ◌+ℤ◌ in ground (arith, div-add-mod' n m, mod-lt n h, add-mul (n / m) m),
)

-- `Modulo` of a determinate integer, of either sign, is its euclidean remainder: the one number in
-- [0, m) that differs from it by a multiple of m, for every modulus that the loader accepts.
pub modulo_lem :
    (z : ℤ) (m : ℕ)
    → 0 < m
    → m ≤ 10 ^ 9
    → (r : ℕ) × (q : ℤ) × (modulo (number z) (pos m) ≡ number (pos r))
      × (r < m)
      × (q *ℤ pos m +ℤ pos r ≡ z)
modulo_lem z m h k =
    let (same, bound) = modulo-euclid z m h k in
    let (q, e) = euclid_congruent z m h in (euclid z m, q, same, bound, e)

-- `Complement` is m - i for i in [0, m], and nothing else is determinate.
pub complement_lem :
    (z : ℤ) (m : ℕ)
    → m ≤ 10 ^ 9
    → ((a : ℕ) → z ≡ pos a → a ≤ m → complement (number z) (pos m) ≡ number (pos (m - a)))
      × ((a : ℕ) → z ≡ pos a → m < a → complement (number z) (pos m) ≡ indeterminate)
      × ((a : ℕ) → z ≡ negsuc a → complement (number z) (pos m) ≡ indeterminate)
unfolding complement ◌-ℤ◌
complement_lem z m h = (
  λ a e l. rw e (ground (arith, wrap64_small (pos (m - a)))),
  λ a e l. rw e (ground arith),
  λ a e. rw e (ground arith),
)
