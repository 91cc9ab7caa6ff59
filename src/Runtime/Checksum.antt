-- ===== src/Runtime/Checksum.antt =====
-- internal/runtime/checksum.go: the checksum primitives and their three outcomes. The sum of `Luhn` is
-- at most nine for each byte in memory, so it does not wrap.
pub mod Luhn
pub mod Mod97
use entid_go.Prelude.{
  ℕ, zero, suc, ◌+◌, ◌-◌, ◌*◌, ◌%◌, ◌≤◌, ◌<◌, Bool, true, false, not, ◌||◌, List, [], ◌∷◌, Option,
  none, some, ltb, leb, ◌==◌, if◌then◌else◌, length, drop, get_or, Bytes,
}
use mathlib.Core.List.{reverse}
use entid_go.Prelude.Int.{ℤ, pos, eq_ℤ}
use entid_go.Runtime.View.{View, is_ascii_digit, is_ascii_upper, rune_offset, view_slice}
use entid_go.Runtime.Integer.{CheckedInt, digits_to_integer}

pub data Outcome : Type 0 where
  unsupported valid invalid : Outcome

-- What one digit adds: itself, or its double less nine where that has two digits.
unfoldable pub luhn_digit : Bool → ℕ → ℕ
luhn_digit true d = if ltb 9 (d * 2) then d * 2 - 9 else d * 2
luhn_digit false d = d

-- The loop of `Luhn`, from the last byte to the first.
pub luhn_loop : Bytes → ℕ → Bool → Option ℕ
unfolding luhn_digit
luhn_loop [] sum double = some sum
luhn_loop (b ∷ r) sum double =
    let next = luhn_loop r (sum + luhn_digit double (b - b'0')) (not double) in
    if not (is_ascii_digit b) then none else next

unfoldable pub luhn : View → Outcome
unfolding luhn_loop
luhn v =
    if not v.present || ltb (length v.s) 2
    then unsupported
    else elim (luhn_loop (reverse v.s) 0 false) [
      | none ↦ unsupported
      | some sum ↦ if sum % 10 == 0 then valid else invalid
    ]

pub mod97_loop : Bytes → ℕ → Option ℕ
mod97_loop [] rem = some rem
mod97_loop (b ∷ s) rem =
    let digit = mod97_loop s ((rem * 10 + (b - b'0')) % 97) in
    let letter = mod97_loop s ((rem * 100 + (b - b'A') + 10) % 97) in
    if is_ascii_digit b then digit else if is_ascii_upper b then letter else none

unfoldable pub iso7064_mod97 : View → Outcome
unfolding mod97_loop
iso7064_mod97 v =
    if not v.present || ltb (length v.s) 3 then unsupported else elim (mod97_loop v.s 0) [
      | none ↦ unsupported
      | some rem ↦ if rem == 1 then valid else invalid
    ]

unfoldable pub equals : ℤ → ℤ → Outcome
equals got want = if eq_ℤ got want then valid else invalid

unfoldable pub compare_digit : CheckedInt → View → ℤ → Outcome
unfolding equals rune_offset
compare_digit i v index =
    if not i.ok || not v.present then unsupported else elim (rune_offset v.s index) [
      | none ↦ unsupported
      | some off ↦
          let b = get_or v.s off 0 in
          if leb (length v.s) off
          then unsupported
          else if not (is_ascii_digit b)
          then unsupported
          else equals i.v (pos (b - b'0'))
    ]

unfoldable pub compare_slice : CheckedInt → View → ℤ → ℤ → Outcome
unfolding equals digits_to_integer view_slice
compare_slice i v start end =
    let got = digits_to_integer (view_slice v start end) in
    if not i.ok then unsupported else if not got.ok then unsupported else equals i.v got.v

unfoldable pub compare_constant : CheckedInt → ℤ → Outcome
unfolding equals
compare_constant i constant = if not i.ok then unsupported else equals i.v constant
