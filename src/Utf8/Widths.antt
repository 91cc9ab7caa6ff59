-- ===== src/Utf8/Widths.antt =====
-- The first code points of a string: how many bytes they take, and what follows them.
use entid_go.Prelude.{
  ℕ, zero, suc, ◌+◌, ◌≡◌, refl, sym, ap, ◌∙◌, [], ◌∷◌, ◌++◌, arith, length, take, drop, Bytes,
  length-append, length-take,
}
use entid_go.Prelude.{drop-add, take-add}
use entid_go.Utf8.{decode_rune, runes, rune_count, runes_upto}
use entid_go.Utf8.Points.{decode_rune_width, runes-cons, bytes_of, bytes_of-runes}

-- The number of bytes of the first `i` code points.
unfoldable pub width : ℕ → Bytes → ℕ
width i t = length (bytes_of (take i (runes t)))

pub width-zero : (t : Bytes) → width 0 t ≡ 0
unfolding width
width-zero t = refl

pub width-suc :
    (i a : ℕ) (r : Bytes)
    → width (suc i) (a ∷ r)
      ≡ (decode_rune (a ∷ r)).1 + width i (drop (decode_rune (a ∷ r)).1 (a ∷ r))
unfolding width
width-suc i a r =
    let n = (decode_rune (a ∷ r)).1 in
    let w = decode_rune_width a r in
    rw runes-cons (
      omega (
        arith,
        length-append (take n (a ∷ r)) (bytes_of (take i (runes (drop n (a ∷ r))))),
        length-take n (a ∷ r),
      ))

pub rune_count-cons :
    (a : ℕ) (r : Bytes)
    → rune_count (a ∷ r) ≡ suc (rune_count (drop (decode_rune (a ∷ r)).1 (a ∷ r)))
unfolding rune_count
rune_count-cons a r = ap length (runes-cons a r)

pub rune_count-nil : rune_count [] ≡ 0
unfolding rune_count runes runes_upto
rune_count-nil = refl

pub runes-nil : runes [] ≡ []
unfolding runes runes_upto
runes-nil = refl

pub runes-drop : (i : ℕ) (t : Bytes) → runes (drop (width i t) t) ≡ drop i (runes t)
runes-drop zero t = rw width-zero
runes-drop (suc i) [] = unfold width runes runes_upto in refl
runes-drop (suc i) (a ∷ r) =
    let n = (decode_rune (a ∷ r)).1 in
    rw (width-suc i a r, drop-add n (width i (drop n (a ∷ r))) (a ∷ r), runes-cons a r)
      (runes-drop i (drop n (a ∷ r)))

pub drop-width : (i : ℕ) (t : Bytes) → drop (width i t) t ≡ bytes_of (drop i (runes t))
drop-width i t = sym (bytes_of-runes _) ∙ ap bytes_of (runes-drop i t)

pub take-width : (i : ℕ) (t : Bytes) → take (width i t) t ≡ bytes_of (take i (runes t))
take-width zero t = rw width-zero
take-width (suc i) [] = unfold width runes runes_upto in refl
take-width (suc i) (a ∷ r) =
    let n = (decode_rune (a ∷ r)).1 in
    rw (width-suc i a r, take-add n (width i (drop n (a ∷ r))) (a ∷ r), runes-cons a r)
      (ap (λ u. take n (a ∷ r) ++ u) (take-width i (drop n (a ∷ r))))
