-- ===== src/Utf8/Last.antt =====
-- The width that `utf8.DecodeLastRune` reports.
use entid_go.Prelude.{
  ℕ, zero, suc, ◌+◌, ◌-◌, ◌≤◌, ◌≡◌, refl, ap, ◌∙◌, [], ◌∷◌, arith, length, Bytes, ◌==◌,
  if◌then◌else◌, ltb, drop, Bool, true, false, ==_iff, length-append,
}
use mathlib.Core.List.{reverse, reverse-cons}
use entid_go.Utf8.{last_width, last_rune, decode_last_rune, rune_self, rune_error, decode_rune}

last_width-le : (k width : ℕ) (r : Bytes) → last_width k width r ≤ width + length r
unfolding last_width
last_width-le zero width [] = omega arith
last_width-le zero width (b ∷ r) = omega arith
last_width-le (suc k) width [] = omega arith
last_width-le (suc k) width (b ∷ r) = ground (arith, last_width-le k (width + 1) r)

chosen-le :
    (p q : Bool) (a b c n m e : ℕ)
    → a ≤ m
    → (q ≡ true → n ≤ m)
    → (let chosen : ℕ × ℕ = if p then (b, a) else if q then (c, n) else (e, a) in chosen.1 ≤ m)
chosen-le true q a b c n m e h k = h
chosen-le false true a b c n m e h k = k refl
chosen-le false false a b c n m e h k = h

last_rune-le : (s r : Bytes) → (last_rune s r).1 ≤ length r
unfolding last_rune
last_rune-le s [] = omega arith
last_rune-le s (b ∷ r) =
    let width = last_width 3 1 r in
    let n = (decode_rune (drop (length s - width) s)).1 in
    let bound = last_width-le 3 1 r in
    chosen-le (ltb b rune_self) (n == width) 1 b _ n (length (b ∷ r)) rune_error (omega arith)
      (λ e. omega (arith, (==_iff n width).0 e, bound))

length-reverse : (s : Bytes) → length (reverse s) ≡ length s
length-reverse [] = refl
length-reverse (x ∷ s) =
    ap length (reverse-cons x s)
    ∙ length-append (reverse s) (x ∷ [])
    ∙ omega (arith, length-reverse s)

-- It never reaches before the text.
pub decode_last_rune-le : (s : Bytes) → (decode_last_rune s).1 ≤ length s
unfolding decode_last_rune
decode_last_rune-le s = omega (arith, last_rune-le s (reverse s), length-reverse s)
