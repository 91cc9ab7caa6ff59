-- ===== src/Runtime/Integer/Alphabet.antt =====
-- `WeightedSumAlphabet` and `alphabetIndex`: the weighted sum over an issuer's own alphabet. The loader
-- keeps the weights from being empty, on which the cycle would divide by zero.
use entid_go.Prelude.{
  ℕ, ◌+◌, ◌-◌, ◌%◌, ◌≡◌, ap, ◌∙◌, Bool, true, false, not, ◌&&◌, ◌||◌, List, [], ◌∷◌, Option, none,
  some, arith, ltb, leb, ◌==◌, if◌then◌else◌, length, get_or, min, Bytes, drop, take, Bool-cases,
  inl, inr, Option-cases, map, any, all, refl,
}
use entid_go.Prelude.Int.{ℤ, pos, negsuc, ◌+ℤ◌, ◌*ℤ◌, ltb_ℤ}
use entid_go.Prelude.Words.{wrap64}
use entid_go.Utf8.{valid_string, all_valid, valid_rune, runes, rune_error, rune_self, decode_rune}
use entid_go.Utf8.Points.{runes-cons, AreFilled, runes-AreFilled}
use entid_go.Runtime.View.{View}
use entid_go.Runtime.Integer.{
  CheckedInt, number, indeterminate, Alignment, align_left, align_right, align_cycle,
}

-- The loop over the bytes of the alphabet, which stops at the first that is not ASCII.
unfoldable pub ascii_index : Bytes → ℕ → ℕ → Option ℕ
ascii_index [] want i = none
ascii_index (b ∷ s) want i =
    let next = ascii_index s want (i + 1) in
    if leb rune_self b then none else if b == want then some i else next

-- The loop over its code points.
unfoldable pub rune_index : List (ℕ × Bytes) → ℕ → ℕ → ℤ
rune_index [] r idx = negsuc 0
rune_index ((a, bs) ∷ ps) r idx = if a == r then pos idx else rune_index ps r (idx + 1)

unfoldable pub alphabet_index : Bytes → ℕ → ℤ
alphabet_index alphabet r =
    let by_rune = rune_index (runes alphabet) r 0 in
    if ltb r rune_self
    then elim (ascii_index alphabet r 0) [ none ↦ by_rune | some i ↦ pos i ]
    else by_rune

-- The first walk: every code point is valid and in the alphabet.
unfoldable pub all_indexed : Bytes → List (ℕ × Bytes) → Bool
all_indexed alphabet [] = true
all_indexed alphabet ((r, bs) ∷ ps) =
    if r == rune_error && leb (length bs) 1
    then false
    else if ltb_ℤ (alphabet_index alphabet r) (pos 0)
    then false
    else all_indexed alphabet ps

-- One term of the second walk, added in int64.
abbrev pub add_term : ℤ → ℤ → ℤ → ℤ
add_term acc index weight = wrap64 (acc +ℤ wrap64 (index *ℤ weight))

-- The second walk, `at` being the position of the next code point.
unfoldable pub sum_points : Bytes → List ℤ → Alignment → ℕ → ℕ → List (ℕ × Bytes) → ℕ → ℤ → ℤ
sum_points alphabet weights align n first [] at acc = acc
sum_points alphabet weights align_left n first ((r, bs) ∷ ps) at acc =
    let index = alphabet_index alphabet r in
    let next =
      sum_points alphabet weights align_left n first ps (at + 1)
        (add_term acc index (get_or weights at (pos 0))) in
    if leb (length weights) at then acc else next
sum_points alphabet weights align_right n first ((r, bs) ∷ ps) at acc =
    let index = alphabet_index alphabet r in
    let skipped = sum_points alphabet weights align_right n first ps (at + 1) acc in
    let next =
      sum_points alphabet weights align_right n first ps (at + 1)
        (add_term acc index (get_or weights (length weights - (n - at)) (pos 0))) in
    if ltb at first then skipped else next
sum_points alphabet weights align_cycle n first ((r, bs) ∷ ps) at acc =
    sum_points alphabet weights align_cycle n first ps (at + 1)
      (add_term acc (alphabet_index alphabet r) (get_or weights (at % length weights) (pos 0)))

abbrev first_weighted : Alignment → ℕ → ℕ → ℕ
first_weighted align_right n k = n - min n k
first_weighted _ n k = 0

unfoldable pub weighted_sum_alphabet : View → List ℤ → Alignment → Bytes → CheckedInt
weighted_sum_alphabet v weights align alphabet =
    let points = runes v.s in
    let n = length points in
    if not v.present || length v.s == 0
    then indeterminate
    else if not (all_indexed alphabet points)
    then indeterminate
    else number (
        sum_points alphabet weights align n (first_weighted align n (length weights)) points 0
          (pos 0))

-- An ASCII byte is a code point of its own.
decode_rune-ascii : (b : ℕ) (s : Bytes) → leb rune_self b ≡ false → decode_rune (b ∷ s) ≡ (b, 1)
unfolding decode_rune
decode_rune-ascii b s h = ground arith

runes-ascii : (b : ℕ) (s : Bytes) → leb rune_self b ≡ false → runes (b ∷ s) ≡ (b, b ∷ []) ∷ runes s
runes-ascii b s h =
    runes-cons b s
    ∙ ap (λ d. (d.0, take d.1 (b ∷ s)) ∷ runes (drop d.1 (b ∷ s))) (decode_rune-ascii b s h)

-- A hit of the byte loop is the hit of the loop over the code points.
ascii_index-rune_index :
    (s : Bytes) (r i k : ℕ) → ascii_index s r i ≡ some k → rune_index (runes s) r i ≡ pos k
unfolding ascii_index rune_index
ascii_index-rune_index [] r i k h = absurd (ground arith)
ascii_index-rune_index (b ∷ s) r i k h = elim (Bool-cases (leb rune_self b)) [
  | inl wide ↦ absurd (ground arith)
  | inr narrow ↦ rw (runes-ascii b s narrow) (ground (arith, ascii_index-rune_index s r (i + 1) k))
]

-- The shortcut of `alphabetIndex` for ASCII changes nothing: the index is that of the first code point of
-- the alphabet that is the one looked for, and -1 when there is none.
pub alphabet_index-rune_index :
    (alphabet : Bytes) (r : ℕ) → alphabet_index alphabet r ≡ rune_index (runes alphabet) r 0
unfolding alphabet_index
alphabet_index-rune_index alphabet r = elim (Option-cases (ascii_index alphabet r 0)) [
  | inl missed ↦ ground arith
  | inr (i, hit) ↦ ground (arith, ascii_index-rune_index alphabet r 0 i hit)
]

-- The code points of a text, without their bytes.
abbrev pub code_points : Bytes → List ℕ
code_points s = map (λ p. p.0) (runes s)

rune_index-any :
    (ps : List (ℕ × Bytes)) (r idx : ℕ)
    → ltb_ℤ (rune_index ps r idx) (pos 0) ≡ not (any (λ a. a == r) (map (λ p. p.0) ps))
unfolding rune_index any
rune_index-any [] r idx = refl
rune_index-any ((a, bs) ∷ ps) r idx = ground (arith, rune_index-any ps r (idx + 1))

-- The first walk asks what `utf8.ValidString` asks, and that the alphabet has each code point.
all_indexed-valid :
    (alphabet : Bytes) (ps : List (ℕ × Bytes))
    → AreFilled ps
    → all_indexed alphabet ps
      ≡ (all_valid ps && all (λ r. any (λ a. a == r) (code_points alphabet)) (map (λ p. p.0) ps))
unfolding all_indexed all_valid valid_rune all
all_indexed-valid alphabet [] filled = refl
all_indexed-valid alphabet ((r, bs) ∷ ps) (here, later) =
    let found = alphabet_index-rune_index alphabet r in
    let among = rune_index-any (runes alphabet) r 0 in
    rw (found, among) (ground (arith, all_indexed-valid alphabet ps later))

-- `WeightedSumAlphabet` is determinate exactly when the view is present, has a byte, is valid UTF-8, and
-- has no code point that the alphabet does not have, also where no weight pairs with it.
pub weighted_sum_alphabet-ok :
    (v : View) (weights : List ℤ) (align : Alignment) (alphabet : Bytes)
    → (weighted_sum_alphabet v weights align alphabet).ok ≡ (
        v.present
        && not (length v.s == 0)
        && valid_string v.s
        && all (λ r. any (λ a. a == r) (code_points alphabet)) (code_points v.s))
unfolding weighted_sum_alphabet valid_string
weighted_sum_alphabet-ok v weights align alphabet =
    let walk = all_indexed-valid alphabet (runes v.s) (runes-AreFilled v.s) in ground (arith, walk)
