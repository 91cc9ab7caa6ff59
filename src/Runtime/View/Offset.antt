-- ===== src/Runtime/View/Offset.antt =====
-- `runeOffsetFrom`: the ASCII shortcut changes nothing, and the offset is that of the code point.
use entid_go.Prelude.{
  ℕ, zero, suc, ◌+◌, ◌-◌, ◌≤◌, ◌<◌, ◌≡◌, refl, sym, ap, ◌∙◌, true, ◌&&◌, [], ◌∷◌, Option, none,
  some, arith, leb, if◌then◌else◌, length, take, drop, Bytes, slice, Bool-cases, inl, inr,
  length-drop, drop-add,
}
use entid_go.Prelude.Int.{pos}
use entid_go.Utf8.{decode_rune, rune_count, rune_self}
use entid_go.Utf8.Points.{decode_rune_ascii, decode_rune_width}
use entid_go.Utf8.Widths.{width, width-zero, width-suc, rune_count-cons, rune_count-nil}
use entid_go.Runtime.View.{advance, rune_offset_from, rune_offset, is_ascii}

-- `i` ASCII bytes are `i` code points.
advance_ascii :
    (s : Bytes) (off i : ℕ) (t : Bytes)
    → drop off s ≡ t
    → off + i ≤ length s
    → is_ascii (take i t) ≡ true
    → advance s off i ≡ some (off + i)
unfolding advance is_ascii
advance_ascii s off zero t e h k = ap some (omega arith)
advance_ascii s off (suc i) [] e h k = absurd (omega (arith, length-drop off s, ap length e))
advance_ascii s off (suc i) (a ∷ r) e h k =
    let a_ok : a < rune_self = ground arith in
    let rest : drop (off + 1) s ≡ r = drop-add off 1 s ∙ ap (drop 1) e in
    ground (arith, ap decode_rune e, decode_rune_ascii a r a_ok, advance_ascii s (off + 1) i r rest)

-- The shortcut of `runeOffsetFrom` gives what the loop over the code points gives.
pub rune_offset_from-advance :
    (s : Bytes) (off i : ℕ) → rune_offset_from s off (pos i) ≡ advance s off i
unfolding rune_offset_from
rune_offset_from-advance s off i =
    elim (Bool-cases (leb (off + i) (length s) && is_ascii (slice s off (off + i)))) [
      | inl short ↦
          let same : off + i - off ≡ i = omega arith in
          let ascii : is_ascii (slice s off (off + i)) ≡ true = ground arith in
          let ascii_i : is_ascii (take i (drop off s)) ≡ true = rw same at ascii in
          rw short (sym (advance_ascii s off i (drop off s) refl (ground arith) ascii_i))
      | inr other ↦ rw other
    ]

-- Where the `i`-th code point of what follows `off` begins, if there are so many.
abbrev pub place : ℕ → ℕ → Bytes → Option ℕ
place off i t = if leb i (rune_count t) then some (off + width i t) else none

-- The loop over the code points finds the offset of the `i`-th.
pub advance-place :
    (s : Bytes) (off i : ℕ) (t : Bytes)
    → drop off s ≡ t
    → off ≤ length s
    → advance s off i ≡ place off i t
unfolding advance
advance-place s off zero t e h = ground (arith, width-zero t)
advance-place s off (suc i) [] e h = ground (arith, length-drop off s, ap length e, rune_count-nil)
advance-place s off (suc i) (a ∷ r) e h =
    let n = (decode_rune (a ∷ r)).1 in
    let rest : drop (off + n) s ≡ drop n (a ∷ r) = drop-add off n s ∙ ap (drop n) e in
    ground (
      arith,
      ap decode_rune e,
      length-drop off s,
      ap length e,
      decode_rune_width a r,
      width-suc i a r,
      rune_count-cons a r,
      advance-place s (off + n) i (drop n (a ∷ r)) rest,
    )

-- `runeOffset` gives the byte offset at which the `i`-th code point of a string begins, or the end of the
-- string for `i` the number of its code points, and nothing past that.
pub rune_offset-place : (s : Bytes) (i : ℕ) → rune_offset s (pos i) ≡ place 0 i s
unfolding rune_offset
rune_offset-place s i = rune_offset_from-advance s 0 i ∙ advance-place s 0 i s refl (omega arith)
