-- ===== src/Prelude/Words.antt =====
-- Go's int64 on the integers: the wrap-around of a result, and its division's remainder.
use native.Mathlib.Nat.{div-add-mod, mul-add-mod_self_left}
use mathlib.Core.Path.{ap, sym, ◌∙◌}
use Prim.Native.Nat.{◌/◌}
use entid_go.Prelude.{ℕ, ◌+◌, ◌-◌, ◌*◌, ◌%◌, ◌^◌, ◌<◌, ◌≡◌, arith, ltb, if◌then◌else◌}
use entid_go.Prelude.Int.{ℤ, pos, negsuc, pos_part, neg_part, sub_ℕ}

-- The bit pattern of an integer in 64 bits, and the integer that a pattern stands for.
abbrev to_u64 : ℤ → ℕ
to_u64 (pos n) = n % 2 ^ 64
to_u64 (negsuc n) = 2 ^ 64 - 1 - n % 2 ^ 64

abbrev pub from_u64 : ℕ → ℤ
from_u64 w = if ltb w (2 ^ 63) then pos w else negsuc (2 ^ 64 - 1 - w)

unfoldable pub wrap64 : ℤ → ℤ
wrap64 z = from_u64 (to_u64 z)

-- How far an integer is from zero.
abbrev pub mag : ℤ → ℕ
mag z = pos_part z + neg_part z

pub wrap64_small : (z : ℤ) → mag z < 2 ^ 63 → wrap64 z ≡ z
unfolding wrap64
wrap64_small (pos n) h = ground arith
wrap64_small (negsuc n) h = ground arith

-- Go's `a % m`, which has the sign of `a`. At `m` = 0, where Go panics, it is `a`.
unfoldable pub rem_ℤ : ℤ → ℤ → ℤ
rem_ℤ a m = sub_ℕ (pos_part a % mag m) (neg_part a % mag m)

-- A remainder may be taken before the factor and the summand come in.
pub mul-add-mod : (a k d m : ℕ) → (a % m * k + d) % m ≡ (a * k + d) % m
mul-add-mod a k d m =
    let whole : a * k + d ≡ m * (a / m * k) + (a % m * k + d) =
      omega (arith, ap (λ (t : ℕ). t * k) (div-add-mod a m)) in
    sym (ap (λ n. n % m) whole ∙ mul-add-mod_self_left m (a / m * k) (a % m * k + d))
