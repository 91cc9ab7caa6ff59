-- ===== src/Runtime/View/Slice.antt =====
-- The slicing operations of a view, stated on its sequence of code points.
use entid_go.Prelude.{
  ℕ, ◌+◌, ◌-◌, ◌≤◌, ◌≡◌, refl, ap, ◌∙◌, ◌&&◌, arith, leb, if◌then◌else◌, length, take, drop, Bytes,
  slice, length-drop, length-take,
}
use entid_go.Prelude.Int.{pos, ◌-ℤ◌}
use entid_go.Utf8.{runes, rune_count}
use entid_go.Utf8.Points.{bytes_of}
use entid_go.Utf8.Widths.{width, runes-drop, drop-width, take-width}
use entid_go.Runtime.View.{value, absent, rune_offset_from, view_slice, slice_from, slice_to}
use entid_go.Runtime.View.Offset.{place, rune_offset-place, rune_offset_from-advance, advance-place}

-- The bytes of the code points in [a, b).
abbrev pub points_between : ℕ → ℕ → Bytes → Bytes
points_between a b s = bytes_of (take (b - a) (drop a (runes s)))

width-le : (i : ℕ) (s : Bytes) → width i s ≤ length s
width-le i s = omega (arith, ap length (take-width i s), length-take (width i s) s, width_bytes)
  where
    width_bytes : length (bytes_of (take i (runes s))) ≡ width i s
    width_bytes = unfold width in refl

length-runes-drop : (a : ℕ) (s : Bytes) → rune_count (drop (width a s) s) ≡ rune_count s - a
unfolding rune_count
length-runes-drop a s = rw (runes-drop a s) (length-drop a (runes s))

-- The second offset of `Slice`, `k` code points behind the first.
second_offset :
    (s : Bytes) (a k : ℕ)
    → rune_offset_from s (0 + width a s) (pos k) ≡ place (0 + width a s) k (drop (width a s) s)
second_offset s a k =
    rune_offset_from-advance s (0 + width a s) k
    ∙ advance-place s (0 + width a s) k (drop (width a s) s) (ap (λ n. drop n s) (omega arith))
        (omega (arith, width-le a s))

slice_at :
    (s : Bytes) (a k : ℕ)
    → slice s (0 + width a s) (0 + width a s + width k (drop (width a s) s))
      ≡ bytes_of (take k (drop a (runes s)))
slice_at s a k =
    let t = drop (width a s) s in
    ap (λ n. take (0 + width a s + width k t - (0 + width a s)) (drop n s)) zero_add
    ∙ ap (λ n. take n t) take_back
    ∙ take-width k t
    ∙ ap (λ ps. bytes_of (take k ps)) (runes-drop a s)
  where
    zero_add : 0 + width a s ≡ width a s
    zero_add = omega arith

    take_back :
        0 + width a s + width k (drop (width a s) s) - (0 + width a s)
        ≡ width k (drop (width a s) s)
    take_back = omega arith

-- On a present view, for positions that are not negative: `Slice` yields exactly the code points in [a, b),
-- and is absent when a is above b or when b is past the end.
pub view_slice_lem :
    (s : Bytes) (a b : ℕ)
    → view_slice (value s) (pos a) (pos b)
      ≡ (if leb a b && leb b (rune_count s) then value (points_between a b s) else absent)
unfolding view_slice ◌-ℤ◌
view_slice_lem s a b = ground (
  arith,
  rune_offset-place s a,
  second_offset s a (b - a),
  length-runes-drop a s,
  slice_at s a (b - a),
)

-- `SliceFrom` yields the code points from `a` on, and is absent when `a` is past the end.
pub slice_from_lem :
    (s : Bytes) (a : ℕ)
    → slice_from (value s) (pos a)
      ≡ (if leb a (rune_count s) then value (bytes_of (drop a (runes s))) else absent)
unfolding slice_from
slice_from_lem s a = ground (arith, rune_offset-place s a, drop-width a s)

-- `SliceTo` yields the first `b` code points, and is absent when there are fewer.
pub slice_to_lem :
    (s : Bytes) (b : ℕ)
    → slice_to (value s) (pos b)
      ≡ (if leb b (rune_count s) then value (bytes_of (take b (runes s))) else absent)
unfolding slice_to
slice_to_lem s b = ground (arith, rune_offset-place s b, take-width b s)
