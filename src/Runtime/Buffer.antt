-- ===== src/Runtime/Buffer.antt =====
-- internal/runtime/buffer.go: the canonicalization workspace. An operation on `*Buf` takes the workspace
-- and returns it; `none` is Go's panic on a slice out of range.
pub mod Holds
pub mod Edges
pub mod Filter
pub mod Upper
pub mod Pad
pub mod Insert
pub mod Replace
pub mod Trim
pub use entid_go.Prelude.{◌>>=◌}
use entid_go.Prelude.{
  ℕ, zero, suc, ◌+◌, ◌-◌, ◌*◌, ◌%◌, ◌≤◌, ◌<◌, Bool, true, false, not, ◌&&◌, ◌||◌, List, [], ◌∷◌,
  ◌++◌, Option, none, some, ltb, leb, ◌==◌, if◌then◌else◌, length, take, drop, min, Bytes, slice,
  any, map, contains as index_byte, has_prefix as string_has_prefix,
}
use mathlib.Core.Option
use entid_go.Prelude.Int.{ℤ, pos, negsuc}
use entid_go.Utf8.{decode_rune, decode_last_rune, runes, rune_count, rune_self}
use entid_go.Runtime.View.{rune_offset, is_ascii_upper, is_ascii_lower}

abbrev pub max_input : ℕ
max_input = 1024

pub record Buf : Type 0 where
  pub b : Bytes
  pub left : ℕ
  pub lo : ℕ
  pub hi : ℕ
  pub src : Bytes
  pub loaded : Bool

abbrev pub new : Bytes → Bytes → ℕ → Buf
new s scratch left_margin = record {
  b = scratch;
  left = left_margin;
  lo = 0;
  hi = 0;
  src = s;
  loaded = false;
}

-- Go panics where the right edge lies past the scratch; here and in `string` the value ends with the scratch.
unfoldable pub str : Buf → Bytes
str w = if not w.loaded then w.src else if w.hi == w.lo then [] else slice w.b w.lo w.hi

unfoldable pub modified : Buf → Bool
modified w = w.loaded

unfoldable pub string : Buf → Bytes
string w = slice w.b w.lo w.hi

-- `copy(b[at:], s)`: as much of `s` as fits; the option is for `at` past the end.
abbrev pub overwrite : Bytes → ℕ → Bytes → Bytes
overwrite [] at s = []
overwrite (x ∷ b) zero [] = x ∷ b
overwrite (x ∷ b) zero (y ∷ s) = y ∷ overwrite b zero s
overwrite (x ∷ b) (suc at) s = x ∷ overwrite b at s

unfoldable pub copy_to : Bytes → ℕ → Bytes → Option (ℕ × Bytes)
copy_to b at s =
    if leb at (length b) then some (min (length b - at) (length s), overwrite b at s) else none

unfoldable pub load : Buf → Option Buf
unfolding copy_to
load w = if w.loaded then some w else do
  (n, b') ← copy_to w.b w.left w.src
  some (record w { lo = w.left; hi = w.left + n; b = b'; loaded = true })

unfoldable pub is_whitespace_v1 : ℕ → Bool
is_whitespace_v1 r =
    if leb 0x0009 r && leb r 0x000d
    then true
    else if leb 0x2000 r && leb r 0x200a
    then true
    else r == 0x0020
      || r == 0x0085
      || r == 0x00a0
      || r == 0x1680
      || r == 0x2028
      || r == 0x2029
      || r == 0x202f
      || r == 0x205f
      || r == 0x3000
      || r == 0xfeff

-- The two loops of `TrimWhitespace`: from the front over the code points, and from the back.
unfoldable pub trim_start : List (ℕ × Bytes) → ℕ
trim_start [] = 0
trim_start ((r, bs) ∷ ps) = if not (is_whitespace_v1 r) then 0 else length bs + trim_start ps

unfoldable pub trim_end : ℕ → Bytes → ℕ → ℕ → ℕ
trim_end zero s start end = end
trim_end (suc f) s start end =
    let (r, size) = decode_last_rune (slice s start end) in
    let further = trim_end f s start (end - size) in
    if leb end start then end else if not (is_whitespace_v1 r) then end else further

unfoldable pub trim_whitespace : Buf → Option Buf
trim_whitespace w =
    let s = str w in
    let start = trim_start (runes s) in
    let end = trim_end (length s) s start (length s) in
    if start == 0 && end == length s
    then some w
    else do w' ← load w; some (record w' { lo = w'.lo + start; hi = w'.lo + end })

-- The offset of the first code point that is not kept.
unfoldable pub first_cut : (ℕ → Bool) → List (ℕ × Bytes) → Option ℕ
first_cut keep [] = none
first_cut keep ((r, bs) ∷ ps) =
    if not (keep r) then some 0 else Option.map (λ i. length bs + i) (first_cut keep ps)

-- The loop of `filter` on the value's bytes: `i` reads, `dst` writes. The fuel bounds its rounds.
unfoldable pub compact : ℕ → (ℕ → Bool) → Bytes → ℕ → ℕ → Bytes × ℕ
compact zero keep s i dst = (s, dst)
compact (suc f) keep s i dst =
    let (r, size) = decode_rune (drop i s) in
    let kept = compact f keep (overwrite s dst (slice s i (i + size))) (i + size) (dst + size) in
    let dropped = compact f keep s (i + size) dst in
    if leb (length s) i then (s, dst) else if keep r then kept else dropped

unfoldable pub filter : (ℕ → Bool) → Buf → Option Buf
filter keep w = elim (first_cut keep (runes (str w))) [
  | none ↦ some w
  | some cut ↦ do
    w' ← load w
    let src = slice w'.b w'.lo w'.hi
    let (out, dst) = compact (length src) keep src cut cut
    some (record w' { b = overwrite w'.b w'.lo out; hi = w'.lo + dst })
]

unfoldable pub remove_whitespace : Buf → Option Buf
remove_whitespace w = filter (λ r. not (is_whitespace_v1 r)) w

abbrev pub outside_set : Bytes → ℕ → Bool
outside_set set r = if leb rune_self r then true else not (index_byte set r)

unfoldable pub remove_chars : Bytes → Buf → Option Buf
remove_chars set w = filter (outside_set set) w

abbrev pub upper_byte : ℕ → ℕ
upper_byte b = if is_ascii_lower b then b - 32 else b

-- `for i in [at, at + k): b[i] = upper(b[i])`.
unfoldable pub upper_range : ℕ → ℕ → Bytes → Bytes
upper_range (suc at) k (x ∷ b) = x ∷ upper_range at k b
upper_range (suc at) k [] = []
upper_range zero (suc k) (x ∷ b) = upper_byte x ∷ upper_range zero k b
upper_range zero (suc k) [] = []
upper_range zero zero b = b

unfoldable pub first_lower : Bytes → Option ℕ
first_lower [] = none
first_lower (x ∷ s) = if is_ascii_lower x then some 0 else Option.map (λ i. i + 1) (first_lower s)

unfoldable pub uppercase_ascii : Buf → Option Buf
uppercase_ascii w = elim (first_lower (str w)) [
  | none ↦ some w
  | some first ↦ do
    w' ← load w
    let at = w'.lo + first
    some (record w' { b = upper_range at (w'.hi - at) w'.b })
]

unfoldable pub shift_left_edge : ℕ → Buf → Option Buf
unfolding copy_to
shift_left_edge n w = if leb n w.lo then some (record w { lo = w.lo - n }) else do
  let shift = n - w.lo
  (m, b') ← copy_to w.b (w.lo + shift) (slice w.b w.lo w.hi)
  some (record w { b = b'; hi = w.hi + shift; lo = 0 })

-- `copy(w.b[w.lo:], text)`.
unfoldable pub write_front : Bytes → Buf → Option Buf
unfolding copy_to
write_front text w = do (m, b') ← copy_to w.b w.lo text; some (record w { b = b' })

unfoldable pub prepend : Bytes → Buf → Option Buf
prepend text w = do w₁ ← load w; w₂ ← shift_left_edge (length text) w₁; write_front text w₂

unfoldable pub replace_prefix : Bytes → Bytes → Buf → Option Buf
replace_prefix from to w = if not (string_has_prefix (str w) from) then some w else do
  w₁ ← load w
  w₂ ←
      (if leb (length to) (length from)
        then some (record w₁ { lo = w₁.lo + (length from - length to) })
        else shift_left_edge (length to - length from) w₁)
  write_front to w₂

unfoldable pub append : Bytes → Buf → Option Buf
append text w = do
  w₁ ← load w
  (n, b') ← copy_to w₁.b w₁.hi text
  some (record w₁ { b = b'; hi = w₁.hi + n })

-- The first copy of `Insert` has bounds of its own: it faults where the moved tail does not fit.
unfoldable pub insert : ℤ → Bytes → Buf → Option Buf
insert index text w = elim (rune_offset (str w) index) [
  | none ↦ some w
  | some off ↦ do
    w₁ ← load w
    let at = w₁.lo + off
    (n, b₁) ←
        (if ltb (length w₁.b) (w₁.hi + length text)
          then none
          else copy_to w₁.b (at + length text) (slice w₁.b at w₁.hi))
    (m, b₂) ← copy_to b₁ at text
    some (record w₁ { b = b₂; hi = w₁.hi + length text })
]

-- The loop of `LeftPad`: `k` copies of `pad` from `at` on.
unfoldable pub fill : ℕ → ℕ → Bytes → Bytes → Option Bytes
unfolding copy_to
fill zero at pad b = some b
fill (suc k) at pad b = do (n, b') ← copy_to b at pad; fill k (at + length pad) pad b'

-- A value never holds fewer code points than a negative length.
unfoldable pub left_pad : ℤ → Bytes → Buf → Option Buf
left_pad (negsuc n) pad w = some w
left_pad (pos len) pad w =
    let have = rune_count (str w) in
    if leb len have then some w else do
      w₁ ← load w
      w₂ ← shift_left_edge ((len - have) * length pad) w₁
      b' ← fill (len - have) w₂.lo pad w₂.b
      some (record w₂ { b = b' })

unfoldable pub has_prefix : Buf → Bytes → Bool
has_prefix w prefix = string_has_prefix (str w) prefix
