-- ===== src/Utf8/Points.antt =====
-- A string is the sequence of its code points, each with the bytes that carry it.
use entid_go.Prelude.{
  ℕ, zero, suc, ◌+◌, ◌≤◌, ◌<◌, ◌≡◌, refl, ap, ◌∙◌, List, [], ◌∷◌, ◌++◌, arith, length, take, drop,
  Bytes, take-append-drop, length-drop, length-take, append_assoc,
}
use entid_go.Utf8.{decode_rune, runes_upto, runes, rune_self, two, three, four}

two_width : (a : ℕ) (r : Bytes) → (1 ≤ (two a r).1) × ((two a r).1 ≤ length r + 1)
unfolding two
two_width a [] = omega arith
two_width a (b ∷ r) = ground arith

three_width : (a : ℕ) (r : Bytes) → (1 ≤ (three a r).1) × ((three a r).1 ≤ length r + 1)
unfolding three
three_width a [] = omega arith
three_width a (b ∷ []) = omega arith
three_width a (b ∷ c ∷ r) = ground arith

four_width : (a : ℕ) (r : Bytes) → (1 ≤ (four a r).1) × ((four a r).1 ≤ length r + 1)
unfolding four
four_width a [] = omega arith
four_width a (b ∷ []) = omega arith
four_width a (b ∷ c ∷ []) = omega arith
four_width a (b ∷ c ∷ d ∷ r) = ground arith

-- A code point takes one byte at least, and none past the end.
pub decode_rune_width :
    (a : ℕ) (r : Bytes) → (1 ≤ (decode_rune (a ∷ r)).1) × ((decode_rune (a ∷ r)).1 ≤ length r + 1)
unfolding decode_rune
decode_rune_width a r = ground (arith, two_width a r, three_width a r, four_width a r)

pub decode_rune_ascii : (a : ℕ) (r : Bytes) → a < rune_self → decode_rune (a ∷ r) ≡ (a, 1)
unfolding decode_rune
decode_rune_ascii a r h = ground arith

-- The concatenated bytes of a sequence of code points.
abbrev pub bytes_of : List (ℕ × Bytes) → Bytes
bytes_of [] = []
bytes_of ((c, bs) ∷ ps) = bs ++ bytes_of ps

pub bytes_of-append : (ps qs : List (ℕ × Bytes)) → bytes_of (ps ++ qs) ≡ bytes_of ps ++ bytes_of qs
bytes_of-append [] qs = refl
bytes_of-append ((c, bs) ∷ ps) qs = rw (bytes_of-append ps qs, append_assoc)

-- Any fuel that is not below the number of bytes gives the same sequence.
runes_upto_enough :
    (f g : ℕ) (s : Bytes) → length s ≤ f → length s ≤ g → runes_upto f s ≡ runes_upto g s
unfolding runes_upto
runes_upto_enough zero zero s h k = refl
runes_upto_enough zero (suc g) [] h k = refl
runes_upto_enough zero (suc g) (a ∷ r) h k = absurd (omega arith)
runes_upto_enough (suc f) zero [] h k = refl
runes_upto_enough (suc f) zero (a ∷ r) h k = absurd (omega arith)
runes_upto_enough (suc f) (suc g) [] h k = refl
runes_upto_enough (suc f) (suc g) (a ∷ r) h k =
    let n = (decode_rune (a ∷ r)).1 in
    let w = decode_rune_width a r in
    ap (λ ps. ((decode_rune (a ∷ r)).0, take n (a ∷ r)) ∷ ps)
      (runes_upto_enough f g (drop n (a ∷ r)) (omega (arith, length-drop n (a ∷ r)))
        (omega (arith, length-drop n (a ∷ r))))

-- The first code point, and those of the rest.
pub runes-cons :
    (a : ℕ) (r : Bytes)
    → runes (a ∷ r)
      ≡ ((decode_rune (a ∷ r)).0, take (decode_rune (a ∷ r)).1 (a ∷ r))
        ∷ runes (drop (decode_rune (a ∷ r)).1 (a ∷ r))
unfolding runes runes_upto
runes-cons a r =
    let n = (decode_rune (a ∷ r)).1 in
    let w = decode_rune_width a r in
    ap (λ ps. ((decode_rune (a ∷ r)).0, take n (a ∷ r)) ∷ ps)
      (runes_upto_enough (length r) (length (drop n (a ∷ r))) (drop n (a ∷ r))
        (omega (arith, length-drop n (a ∷ r))) (omega arith))

bytes_of-runes_upto : (f : ℕ) (s : Bytes) → length s ≤ f → bytes_of (runes_upto f s) ≡ s
unfolding runes_upto
bytes_of-runes_upto zero [] h = refl
bytes_of-runes_upto zero (a ∷ r) h = absurd (omega arith)
bytes_of-runes_upto (suc f) [] h = refl
bytes_of-runes_upto (suc f) (a ∷ r) h =
    let n = (decode_rune (a ∷ r)).1 in
    let w = decode_rune_width a r in
    ap (λ t. take n (a ∷ r) ++ t)
      (bytes_of-runes_upto f (drop n (a ∷ r)) (omega (arith, length-drop n (a ∷ r))))
    ∙ take-append-drop n (a ∷ r)

-- No byte is lost or reordered, well formed or not.
pub bytes_of-runes : (s : Bytes) → bytes_of (runes s) ≡ s
unfolding runes
bytes_of-runes s = bytes_of-runes_upto (length s) s (omega arith)

-- Every code point stands for a byte at least.
abbrev pub AreFilled : List (ℕ × Bytes) → Type 0
AreFilled [] = Unit
AreFilled ((c, bs) ∷ ps) = (1 ≤ length bs) × AreFilled ps

runes_upto-AreFilled : (f : ℕ) (s : Bytes) → AreFilled (runes_upto f s)
unfolding runes_upto
runes_upto-AreFilled zero s = tt
runes_upto-AreFilled (suc f) [] = tt
runes_upto-AreFilled (suc f) (a ∷ r) =
    let n = (decode_rune (a ∷ r)).1 in
    let w = decode_rune_width a r in
    (omega (arith, length-take n (a ∷ r)), runes_upto-AreFilled f (drop n (a ∷ r)))

pub runes-AreFilled : (s : Bytes) → AreFilled (runes s)
unfolding runes
runes-AreFilled s = runes_upto-AreFilled (length s) s
