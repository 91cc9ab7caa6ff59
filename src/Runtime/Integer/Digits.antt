-- ===== src/Runtime/Integer/Digits.antt =====
-- Reading digits: no int64 operation of the two loops wraps, and the results are the decimal value.
use native.Mathlib.Nat.{zero-mod}
use entid_go.Prelude.{
  ℕ, zero, suc, ◌+◌, ◌-◌, ◌*◌, ◌%◌, ◌^◌, ◌≤◌, ◌<◌, ◌≡◌, refl, [], ◌∷◌, none, some, arith,
  if◌then◌else◌, length, Bytes, all,
}
use entid_go.Prelude.Int.{pos, ◌+ℤ◌, ◌*ℤ◌}
use entid_go.Prelude.Words.{mul-add-mod, wrap64, wrap64_small, rem_ℤ}
use entid_go.Runtime.View.{View, is_ascii_digit, ascii_digits}
use entid_go.Runtime.Integer.{
  indeterminate, number, digits_loop, mod_loop, digits_to_integer, mod_digits,
}

-- The number that digits spell behind `acc`, with no bound.
abbrev pub decimal : ℕ → Bytes → ℕ
decimal acc [] = acc
decimal acc (b ∷ s) = decimal (acc * 10 + (b - b'0')) s

-- One round: nothing wraps while the value stays below 2 ^ 63.
digit_step :
    (acc d : ℕ)
    → acc * 10 + d < 2 ^ 63
    → wrap64 (wrap64 (pos acc *ℤ pos 10) +ℤ pos d) ≡ pos (acc * 10 + d)
unfolding ◌*ℤ◌ ◌+ℤ◌
digit_step acc d h =
    ground (arith, wrap64_small (pos (acc * 10)), wrap64_small (pos (acc * 10 + d)))

-- `x` with a zero behind it for each of `n` digits.
scale : ℕ → ℕ → ℕ
scale zero x = x
scale (suc n) x = scale n (x * 10)

scale_mono : (n x y : ℕ) → x ≤ y → scale n x ≤ scale n y
unfolding scale
scale_mono zero x y h = h
scale_mono (suc n) x y h = scale_mono n (x * 10) (y * 10) (omega arith)

le-scale : (n x : ℕ) → x ≤ scale n x
unfolding scale
le-scale zero x = omega arith
le-scale (suc n) x = omega (arith, le-scale n (x * 10))

scale_mono_left : (n m x : ℕ) → n ≤ m → scale n x ≤ scale m x
unfolding scale
scale_mono_left zero m x h = le-scale m x
scale_mono_left (suc n) zero x h = elim h [ ]
scale_mono_left (suc n) (suc m) x h = scale_mono_left n m (x * 10) (omega arith)

scale-eighteen : scale 18 1 ≡ 10 ^ 18
unfolding scale
scale-eighteen = refl

digits_loop_lem :
    (acc : ℕ) (s : Bytes)
    → scale (length s) (acc + 1) ≤ 10 ^ 18
    → digits_loop (pos acc) s ≡ (if all is_ascii_digit s then some (pos (decimal acc s)) else none)
unfolding digits_loop scale all
digits_loop_lem acc [] h = refl
digits_loop_lem acc (b ∷ s) h =
    let d = b - b'0' in
    ground (
      arith,
      digit_step acc d,
      digits_loop_lem (acc * 10 + d) s,
      scale_mono (length s) (acc * 10 + d + 1) ((acc + 1) * 10),
      le-scale (length s) (acc * 10 + d + 1),
    )

-- On a view of at most 18 bytes, the bound that the loader proves of every operand: `DigitsToInteger` gives
-- the decimal value where the view is a non-empty string of digits, and is indeterminate where it is not.
pub digits_to_integer_lem :
    (v : View)
    → length v.s ≤ 18
    → digits_to_integer v ≡ (if ascii_digits v then number (pos (decimal 0 v.s)) else indeterminate)
unfolding digits_to_integer ascii_digits
digits_to_integer_lem v h =
    ground (arith, digits_loop_lem 0 v.s, scale_mono_left (length v.s) 18 1, scale-eighteen)

mod_step :
    (m acc d : ℕ)
    → 0 < m
    → m ≤ 10 ^ 9
    → d < 10
    → rem_ℤ (wrap64 (wrap64 (pos (acc % m) *ℤ pos 10) +ℤ pos d)) (pos m) ≡ pos ((acc * 10 + d) % m)
unfolding rem_ℤ
mod_step m acc d h k l =
    rw (digit_step (acc % m) d (omega arith)) (ground (arith, mul-add-mod acc 10 d m, zero-mod m))

mod_loop_lem :
    (m acc : ℕ) (s : Bytes)
    → 0 < m
    → m ≤ 10 ^ 9
    → mod_loop (pos m) (pos (acc % m)) s
      ≡ (if all is_ascii_digit s then some (pos (decimal acc s % m)) else none)
unfolding mod_loop all
mod_loop_lem m acc [] h k = refl
mod_loop_lem m acc (b ∷ s) h k =
    let d = b - b'0' in ground (arith, mod_step m acc d h k, mod_loop_lem m (acc * 10 + d) s h k)

-- For a modulus from 1 to a thousand million, those that the loader accepts: `ModDigits` on a non-empty
-- string of digits of any length is the remainder of the whole decimal value, so that the remainder digit
-- by digit loses nothing and no int64 operation wraps; and it is indeterminate on any other view.
pub mod_digits_lem :
    (v : View) (m : ℕ)
    → 0 < m
    → m ≤ 10 ^ 9
    → mod_digits v (pos m)
      ≡ (if ascii_digits v then number (pos (decimal 0 v.s % m)) else indeterminate)
unfolding mod_digits ascii_digits
mod_digits_lem v m h k = ground (arith, mod_loop_lem m 0 v.s h k, zero-mod m)
