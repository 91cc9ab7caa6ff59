-- ===== src/Runtime/Buffer/Upper.antt =====
-- `UppercaseASCII` on the value that the workspace holds.
use entid_go.Prelude.{
  ℕ, zero, suc, ◌+◌, ◌-◌, ◌≤◌, ◌≡◌, refl, sym, ap, ◌∙◌, [], ◌∷◌, ◌++◌, none, some, arith, length,
  take, drop, Bytes, length-append, append_assoc, length-drop, length-take, take-append-drop, map,
  length-map, Bool-cases, inl, inr, Option-cases,
}
use mathlib.Core.List.{map-append}
use entid_go.Runtime.View.{is_ascii_lower}
use entid_go.Runtime.Buffer.{Buf, upper_byte, upper_range, first_lower, uppercase_ascii}
use entid_go.Runtime.Buffer.Holds.{Holds, owns, load-Holds, str-Holds}
use entid_go.Runtime.Buffer.Edges.{Yields}

upper_range-here :
    (t post : Bytes) → upper_range 0 (length t) (t ++ post) ≡ map upper_byte t ++ post
unfolding upper_range
upper_range-here [] [] = refl
upper_range-here [] (x ∷ post) = refl
upper_range-here (x ∷ t) post = ap (λ u. upper_byte x ∷ u) (upper_range-here t post)

upper_range-behind :
    (p t post : Bytes)
    → upper_range (length p) (length t) (p ++ (t ++ post)) ≡ p ++ (map upper_byte t ++ post)
unfolding upper_range
upper_range-behind [] t post = upper_range-here t post
upper_range-behind (x ∷ p) t post = ap (λ u. x ∷ u) (upper_range-behind p t post)

-- Before the first lower case letter nothing changes.
first_lower-some :
    (s : Bytes) (i : ℕ)
    → first_lower s ≡ some i
    → (i ≤ length s) × (map upper_byte (take i s) ≡ take i s)
unfolding first_lower
first_lower-some [] i e = absurd (cc)
first_lower-some (x ∷ s) zero e = (omega arith, refl)
first_lower-some (x ∷ s) (suc i) e = elim (Bool-cases (is_ascii_lower x)) [
  | inl lower ↦ absurd (ground arith)
  | inr other ↦ elim (Option-cases (first_lower s)) [
    | inl never ↦ absurd (ground arith)
    | inr (j, later) ↦
        let same : j ≡ i = ground arith in
        let ih = first_lower-some s i (later ∙ ap some same) in
        (omega (arith, ih.0), rw (other, ih.1))
  ]
]

first_lower-none : (s : Bytes) → first_lower s ≡ none → map upper_byte s ≡ s
unfolding first_lower
first_lower-none [] e = refl
first_lower-none (x ∷ s) e = elim (Bool-cases (is_ascii_lower x)) [
  | inl lower ↦ absurd (ground arith)
  | inr other ↦ elim (Option-cases (first_lower s)) [
    | inl never ↦ rw (other, first_lower-none s never)
    | inr (j, later) ↦ absurd (ground arith)
  ]
]

-- On a workspace whose scratch holds the value, with any room around it: `UppercaseASCII` succeeds and maps
-- a..z to A..Z, byte by byte; all other bytes and the room on both sides stay.
pub uppercase_ascii_lem :
    (w : Buf) (s : Bytes) (l r : ℕ)
    → Holds w s l r
    → Yields (uppercase_ascii w) (map upper_byte s) l r
unfolding uppercase_ascii
uppercase_ascii_lem w s l r h = elim (Option-cases (first_lower s)) [
  | inl never ↦ (w, rw (str-Holds h, uppercase_ascii, never), rw (first_lower-none s never) h)
  | inr (i, e) ↦
      let (w₁, pre, post, e₁, hl, hr, o) = load-Holds w s l r h in
      let (inside, same) = first_lower-some s i e in
      let head = take i s in
      let t = drop i s in
      let bytes : w₁.b ≡ (pre ++ head) ++ (t ++ post) =
        o.bytes
        ∙ ap (λ u. pre ++ (u ++ post)) (sym (take-append-drop i s))
        ∙ ap (λ u. pre ++ u) (append_assoc head t post)
        ∙ sym (append_assoc pre head (t ++ post)) in
      let at : w₁.lo + i ≡ length (pre ++ head) =
        omega (arith, o.from, length-append pre head, length-take i s) in
      let count : w₁.hi - (w₁.lo + i) ≡ length t =
        omega (arith, o.from, o.until, length-drop i s) in
      let whole : head ++ map upper_byte t ≡ map upper_byte s =
        ap (λ u. u ++ map upper_byte t) (sym same)
        ∙ sym (map-append upper_byte head t)
        ∙ ap (map upper_byte) (take-append-drop i s) in
      let w₂ : Buf = record w₁ { b = upper_range (w₁.lo + i) (w₁.hi - (w₁.lo + i)) w₁.b } in
      (
        w₂,
        rw (str-Holds h, uppercase_ascii, e, e₁),
        owns pre post hl hr (record {
          in_scratch = o.in_scratch;
          bytes =
              ap (λ n. upper_range n (w₁.hi - (w₁.lo + i)) w₁.b) at
              ∙ ap (λ n. upper_range (length (pre ++ head)) n w₁.b) count
              ∙ ap (upper_range (length (pre ++ head)) (length t)) bytes
              ∙ upper_range-behind (pre ++ head) t post
              ∙ append_assoc pre head (map upper_byte t ++ post)
              ∙ ap (λ u. pre ++ u) (sym (append_assoc head (map upper_byte t) post))
              ∙ ap (λ u. pre ++ (u ++ post)) whole;
          from = o.from;
          until = omega (arith, o.until, length-map s upper_byte);
        }),
      )
]
