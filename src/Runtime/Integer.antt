-- ===== src/Runtime/Integer.antt =====
-- internal/runtime/integer.go: checked 64 bit integers, and the weighted sums of a view.
pub mod Digits
pub mod Modulo
pub mod Alphabet
pub mod Exact
use entid_go.Prelude.{
  ℕ, zero, suc, ◌+◌, ◌-◌, ◌*◌, ◌%◌, ◌≤◌, ◌<◌, Bool, true, false, not, ◌&&◌, ◌||◌, List, [], ◌∷◌,
  Option, none, some, ltb, leb, ◌==◌, if◌then◌else◌, length, get_or, min, Bytes, all,
}
use entid_go.Prelude.Int.{ℤ, pos, negsuc, pos_part, ◌+ℤ◌, ◌-ℤ◌, ◌*ℤ◌, ltb_ℤ, leb_ℤ, eq_ℤ}
use entid_go.Prelude.Words.{wrap64, rem_ℤ}
use entid_go.Utf8.{runes, rune_error, rune_self}
use entid_go.Runtime.View.{View, is_ascii_digit, is_ascii_upper}

pub record CheckedInt : Type 0 where
  pub v : ℤ
  pub ok : Bool

abbrev pub indeterminate : CheckedInt
indeterminate = record { v = pos 0; ok = false }

abbrev pub number : ℤ → CheckedInt
number v = record { v = v; ok = true }

-- The two loops over a string of digits; `none` is the return of `Indeterminate` from inside.
pub digits_loop : ℤ → Bytes → Option ℤ
digits_loop acc [] = some acc
digits_loop acc (b ∷ s) =
    let next = digits_loop (wrap64 (wrap64 (acc *ℤ pos 10) +ℤ pos (b - b'0'))) s in
    if not (is_ascii_digit b) then none else next

pub mod_loop : ℤ → ℤ → Bytes → Option ℤ
mod_loop m acc [] = some acc
mod_loop m acc (b ∷ s) =
    let next = mod_loop m (rem_ℤ (wrap64 (wrap64 (acc *ℤ pos 10) +ℤ pos (b - b'0'))) m) s in
    if not (is_ascii_digit b) then none else next

abbrev pub of_option : Option ℤ → CheckedInt
of_option none = indeterminate
of_option (some acc) = number acc

unfoldable pub digits_to_integer : View → CheckedInt
unfolding digits_loop wrap64 ◌*ℤ◌ ◌+ℤ◌
digits_to_integer v =
    if not v.present || length v.s == 0 then indeterminate else of_option (digits_loop (pos 0) v.s)

unfoldable pub mod_digits : View → ℤ → CheckedInt
unfolding mod_loop wrap64 rem_ℤ ◌*ℤ◌ ◌+ℤ◌
mod_digits v m =
    if not v.present || length v.s == 0 then indeterminate else of_option (mod_loop m (pos 0) v.s)

unfoldable pub modulo : CheckedInt → ℤ → CheckedInt
unfolding rem_ℤ wrap64 ◌+ℤ◌
modulo i m = if not i.ok then indeterminate else number (rem_ℤ (wrap64 (rem_ℤ i.v m +ℤ m)) m)

unfoldable pub complement : CheckedInt → ℤ → CheckedInt
unfolding wrap64 ◌-ℤ◌
complement i m =
    if not i.ok || ltb_ℤ i.v (pos 0) || ltb_ℤ m i.v
    then indeterminate
    else number (wrap64 (m -ℤ i.v))

unfoldable pub remainder_map : CheckedInt → List ℤ → CheckedInt
remainder_map i table =
    if not i.ok || ltb_ℤ i.v (pos 0) || leb_ℤ (pos (length table)) i.v
    then indeterminate
    else number (get_or table (pos_part i.v) (pos 0))

unfoldable pub is_constant : CheckedInt → ℤ → Bool
is_constant i constant = i.ok && eq_ℤ i.v constant

pub data Alignment : Type 0 where
  align_left align_right align_cycle : Alignment

pub data Mapping : Type 0 where
  map_digit_value map_alnum_base36 : Mapping

-- The closure `value` of `WeightedSum`; -1 is outside the domain.
unfoldable pub char_value : Mapping → ℕ → ℤ
char_value map_digit_value b = if is_ascii_digit b then pos (b - b'0') else negsuc 0
char_value map_alnum_base36 b =
    if is_ascii_digit b
    then pos (b - b'0')
    else if is_ascii_upper b
    then pos (b - b'A' + 10)
    else negsuc 0

-- `for j in [j, j + k): acc += term(j)` in int64.
pub accumulate : ℕ → ℕ → (ℕ → ℤ) → ℤ → ℤ
accumulate zero j term acc = acc
accumulate (suc k) j term acc = accumulate k (j + 1) term (wrap64 (acc +ℤ term j))

-- How many positions pair, and what position `j` of the loop adds. The weights are not empty, as the
-- loader sees to: on empty ones the cycle would divide by zero.
unfoldable pub pair_count : Alignment → ℕ → ℕ → ℕ
pair_count align_left n weights = min n weights
pair_count align_right n weights = min n weights
pair_count align_cycle n weights = n

unfoldable pub pair_term : Alignment → (ℕ → ℤ) → Bytes → List ℤ → ℕ → ℤ
unfolding wrap64 ◌*ℤ◌
pair_term align_left value s weights i = wrap64 (value (get_or s i 0) *ℤ get_or weights i (pos 0))
pair_term align_right value s weights j =
    wrap64
      (value (get_or s (length s - 1 - j) 0) *ℤ get_or weights (length weights - 1 - j) (pos 0))
pair_term align_cycle value s weights i =
    wrap64 (value (get_or s i 0) *ℤ get_or weights (i % length weights) (pos 0))

unfoldable pub weighted_sum : View → List ℤ → Alignment → Mapping → CheckedInt
unfolding char_value accumulate pair_count pair_term all
weighted_sum v weights align mapping =
    if not v.present || length v.s == 0
    then indeterminate
    else if not (all (λ b. leb_ℤ (pos 0) (char_value mapping b)) v.s)
    then indeterminate
    else number (
        accumulate (pair_count align (length v.s) (length weights)) 0
          (pair_term align (char_value mapping) v.s weights) (pos 0))
