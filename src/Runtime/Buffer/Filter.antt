-- ===== src/Runtime/Buffer/Filter.antt =====
-- `filter`, the loop of `RemoveWhitespace` and `RemoveChars`: it moves the kept code points forward in
-- place, and leaves exactly those.
use entid_go.Prelude.{
  ℕ, zero, suc, ◌+◌, ◌-◌, ◌≤◌, ◌≡◌, refl, sym, ap, ◌∙◌, Bool, true, false, List, [], ◌∷◌, ◌++◌,
  none, some, arith, leb, if◌then◌else◌, length, take, drop, Bytes, length-append, append_assoc,
  append-nil, length-drop, length-take, take-append-drop, slice, drop-add, Bool-cases, inl, inr,
  Option-cases,
}
use entid_go.Utf8.{runes, decode_rune}
use entid_go.Utf8.Points.{bytes_of-append, bytes_of, bytes_of-runes, runes-cons, decode_rune_width}
use entid_go.Utf8.Widths.{width, runes-drop, take-width, runes-nil}
use mathlib.Core.Path.{subst}
use entid_go.Runtime.Buffer.{string, Buf, overwrite, first_cut, compact, filter}
use entid_go.Runtime.Buffer.Holds.{
  Owns, Holds, owns, load-Holds, str-Holds, string-Owns, resize, overwrite_middle,
}
use entid_go.Runtime.Buffer.Edges.{Yields}

-- The bytes of the code points that are kept.
abbrev pub kept : (ℕ → Bool) → List (ℕ × Bytes) → Bytes
kept keep [] = []
kept keep ((c, bs) ∷ ps) = if keep c then bs ++ kept keep ps else kept keep ps

length-overwrite : (b : Bytes) (at : ℕ) (t : Bytes) → length (overwrite b at t) ≡ length b
length-overwrite [] at t = refl
length-overwrite (x ∷ b) zero [] = refl
length-overwrite (x ∷ b) zero (y ∷ t) = ap suc (length-overwrite b zero t)
length-overwrite (x ∷ b) (suc at) t = ap suc (length-overwrite b at t)

overwrite-nil : (b : Bytes) (at : ℕ) → overwrite b at [] ≡ b
overwrite-nil [] at = refl
overwrite-nil (x ∷ b) zero = refl
overwrite-nil (x ∷ b) (suc at) = ap (λ t. x ∷ t) (overwrite-nil b at)

drop-overwrite :
    (b : Bytes) (at n : ℕ) (t : Bytes) → at + length t ≤ n → drop n (overwrite b at t) ≡ drop n b
drop-overwrite [] at n t h = refl
drop-overwrite (x ∷ b) zero n [] h = refl
drop-overwrite (x ∷ b) zero zero (y ∷ t) h = absurd (omega arith)
drop-overwrite (x ∷ b) zero (suc n) (y ∷ t) h = drop-overwrite b zero n t (omega arith)
drop-overwrite (x ∷ b) (suc at) zero t h = absurd (omega arith)
drop-overwrite (x ∷ b) (suc at) (suc n) t h = drop-overwrite b at n t (omega arith)

take-overwrite :
    (b : Bytes) (at n : ℕ) (t : Bytes)
    → at + length t ≡ n
    → n ≤ length b
    → take n (overwrite b at t) ≡ take at b ++ t
take-overwrite b zero zero [] e h = refl
take-overwrite b zero zero (y ∷ t) e h = absurd (omega arith)
take-overwrite [] at (suc n) t e h = elim h [ ]
take-overwrite (x ∷ b) zero (suc n) [] e h = absurd (omega arith)
take-overwrite (x ∷ b) zero (suc n) (y ∷ t) e h =
    ap (λ u. y ∷ u) (take-overwrite b zero n t (omega arith) (omega arith))
take-overwrite b (suc at) zero t e h = absurd (omega arith)
take-overwrite (x ∷ b) (suc at) (suc n) t e h =
    ap (λ u. x ∷ u) (take-overwrite b at n t (omega arith) (omega arith))

-- What the loop promises of its result, from the bytes `s` with `i` read and `dst` written.
abbrev Compacted : (ℕ → Bool) → Bytes → ℕ → ℕ → Bytes × ℕ → Type 0
Compacted keep s i dst (out, d) =
    (length out ≡ length s)
    × (d ≤ length s)
    × (take d out ≡ take dst s ++ kept keep (runes (drop i s)))

compact_lem :
    (f : ℕ) (keep : ℕ → Bool) (s : Bytes) (i dst : ℕ) (t : Bytes)
    → drop i s ≡ t
    → length t ≤ f
    → dst ≤ i
    → i ≤ length s
    → Compacted keep s i dst (compact f keep s i dst)
unfolding compact
compact_lem zero keep s i dst [] e hf hd hi =
    (refl, omega arith, rw (e, runes-nil) (sym (append-nil (take dst s))))
compact_lem zero keep s i dst (a ∷ r) e hf hd hi = absurd (omega arith)
compact_lem (suc f) keep s i dst [] e hf hd hi =
    let at_end : leb (length s) i ≡ true = ground (arith, length-drop i s, ap length e) in
    rw at_end (refl, omega arith, rw (e, runes-nil) (sym (append-nil (take dst s))))
compact_lem (suc f) keep s i dst (a ∷ r) e hf hd hi =
    let c = (decode_rune (a ∷ r)).0 in
    let n = (decode_rune (a ∷ r)).1 in
    let w = decode_rune_width a r in
    let left : length s ≡ i + length (a ∷ r) = omega (arith, length-drop i s, ap length e) in
    let more : leb (length s) i ≡ false = ground arith in
    let rest : drop (i + n) s ≡ drop n (a ∷ r) = drop-add i n s ∙ ap (drop n) e in
    rw (more, e, runes-cons a r)
      (elim (Bool-cases (keep c)) [
        | inl stays ↦
            rw (stays, cancel i n)
              (let piece = take n (a ∷ r) in
                let s' = overwrite s dst piece in
                let piece_len : length piece ≡ n = omega (arith, length-take n (a ∷ r)) in
                let rest' : drop (i + n) s' ≡ drop n (a ∷ r) =
                  drop-overwrite s dst (i + n) piece (omega arith) ∙ rest in
                let ih =
                  compact_lem f keep s' (i + n) (dst + n) (drop n (a ∷ r)) rest'
                    (omega (arith, length-drop n (a ∷ r))) (omega arith)
                    (omega (arith, length-overwrite s dst piece)) in
                (
                  ih.0 ∙ length-overwrite s dst piece,
                  omega (arith, ih.1, length-overwrite s dst piece),
                  ih.2
                      ∙ ap (λ u. take (dst + n) s' ++ kept keep (runes u)) rest'
                      ∙ ap (λ u. u ++ kept keep (runes (drop n (a ∷ r))))
                          (take-overwrite s dst (dst + n) piece (omega arith) (omega arith))
                      ∙ append_assoc (take dst s) piece (kept keep (runes (drop n (a ∷ r)))),
                ))
        | inr goes ↦ rw goes (
            let ih =
              compact_lem f keep s (i + n) dst (drop n (a ∷ r)) rest
                (omega (arith, length-drop n (a ∷ r))) (omega arith) (omega arith) in
            (ih.0, ih.1, ih.2 ∙ ap (λ u. take dst s ++ kept keep (runes u)) rest))
      ])
  where
    cancel : (k m : ℕ) → k + m - k ≡ m
    cancel k m = omega arith

-- The scan for the first code point that goes: all before it stay.
first_cut-some :
    (keep : ℕ → Bool) (ps : List (ℕ × Bytes)) (cut : ℕ)
    → first_cut keep ps ≡ some cut
    → (k : ℕ) × (cut ≡ length (bytes_of (take k ps)))
      × (kept keep ps ≡ bytes_of (take k ps) ++ kept keep (drop k ps))
unfolding first_cut
first_cut-some keep [] cut e = absurd (cc)
first_cut-some keep ((c, bs) ∷ ps) cut e = elim (Bool-cases (keep c)) [
  | inl stays ↦ elim (Option-cases (first_cut keep ps)) [
    | inl never ↦ absurd (ground arith)
    | inr (i, later) ↦
        let (k, len, same) = first_cut-some keep ps i later in
        (
          suc k,
          ground (arith, length-append bs (bytes_of (take k ps))),
          rw stays (ap (λ t. bs ++ t) same ∙ sym (append_assoc bs _ _)),
        )
  ]
  | inr goes ↦ (0, ground arith, refl)
]

first_cut-none :
    (keep : ℕ → Bool) (ps : List (ℕ × Bytes))
    → first_cut keep ps ≡ none
    → kept keep ps ≡ bytes_of ps
unfolding first_cut
first_cut-none keep [] e = refl
first_cut-none keep ((c, bs) ∷ ps) e = elim (Bool-cases (keep c)) [
  | inl stays ↦ elim (Option-cases (first_cut keep ps)) [
    | inl never ↦ rw stays (ap (λ t. bs ++ t) (first_cut-none keep ps never))
    | inr (i, later) ↦ absurd (ground arith)
  ]
  | inr goes ↦ absurd (ground arith)
]

-- From the first cut on, the loop leaves the code points that are kept.
filter_bytes :
    (keep : ℕ → Bool) (s : Bytes) (cut : ℕ)
    → first_cut keep (runes s) ≡ some cut
    → let (out, d) = compact (length s) keep s cut cut in
      (length out ≡ length s) × (d ≤ length s) × (take d out ≡ kept keep (runes s))
filter_bytes keep s cut e =
    let (k, len, same) = first_cut-some keep (runes s) cut e in
    let cut_width : cut ≡ width k s = len ∙ unfold width in refl in
    let inside : cut ≤ length s = omega (
      arith,
      len,
      ap length (bytes_of_split k),
      length-append (bytes_of (take k (runes s))) (bytes_of (drop k (runes s))),
    ) in
    let (l, d, out) =
      compact_lem (length s) keep s cut cut (drop cut s) refl (omega (arith, length-drop cut s))
        (omega arith) inside in
    (
      l,
      d,
      out
          ∙ ap (λ n. take n s ++ kept keep (runes (drop n s))) cut_width
          ∙ ap (λ t. t ++ kept keep (runes (drop (width k s) s))) (take-width k s)
          ∙ ap (λ ps. bytes_of (take k (runes s)) ++ kept keep ps) (runes-drop k s)
          ∙ sym same,
    )
  where
    bytes_of_split : (k : ℕ) → s ≡ bytes_of (take k (runes s)) ++ bytes_of (drop k (runes s))
    bytes_of_split k =
        sym (bytes_of-runes s)
        ∙ ap bytes_of (sym (take-append-drop k (runes s)))
        ∙ bytes_of-append (take k (runes s)) (drop k (runes s))

-- A workspace whose value was rewritten in place and then cut to its first `d` bytes.
shrink-Owns :
    (w : Buf) (pre s post out : Bytes) (d : ℕ)
    → Owns w pre s post
    → length out ≡ length s
    → d ≤ length s
    → Owns
        (record w { b = overwrite w.b w.lo out; hi = w.lo + d })
        pre
        (take d out)
        (drop d out ++ post)
shrink-Owns w pre s post out d o len h = record {
  in_scratch = o.in_scratch;
  bytes =
      ap (λ b. overwrite b w.lo out) o.bytes
      ∙ ap (λ n. overwrite (pre ++ (s ++ post)) n out) o.from
      ∙ overwrite_middle pre s post out len
      ∙ ap (λ t. pre ++ (t ++ post)) (sym (take-append-drop d out))
      ∙ ap (λ t. pre ++ t) (append_assoc (take d out) (drop d out) post);
  from = o.from;
  until = omega (arith, o.from, length-take d out);
}

-- On a workspace whose scratch holds the value, with any room around it: `filter` succeeds, and the value is
-- the code points that are kept, each with the bytes that it had, so that no byte is re-encoded. What it
-- removes becomes room behind the value.
pub filter_lem :
    (keep : ℕ → Bool) (w : Buf) (s : Bytes) (l r : ℕ)
    → Holds w s l r
    → Yields (filter keep w) (kept keep (runes s)) l (r + (length s - length (kept keep (runes s))))
unfolding filter
filter_lem keep w s l r h = elim (Option-cases (first_cut keep (runes s))) [
  | inl never ↦
      let same : kept keep (runes s) ≡ s = first_cut-none keep (runes s) never ∙ bytes_of-runes s in
      (w, rw (str-Holds h, filter, never), rw same (resize refl (omega arith) h))
  | inr (cut, e) ↦
      let (w₁, pre, post, e₁, hl, hr, o) = load-Holds w s l r h in
      let (out_len, d_le, out) = filter_bytes keep s cut e in
      let region : slice w₁.b w₁.lo w₁.hi ≡ s = unfold string in string-Owns w₁ pre s post o in
      let res = compact (length s) keep s cut cut in
      let w₂ : Buf = record w₁ { b = overwrite w₁.b w₁.lo res.0; hi = w₁.lo + res.1 } in
      let o' = shrink-Owns w₁ pre s post res.0 res.1 o out_len d_le in
      let room : length (drop res.1 res.0 ++ post) ≡ r + (length s - length (kept keep (runes s))) =
        omega (
          arith,
          hr,
          out_len,
          length-append (drop res.1 res.0) post,
          length-drop res.1 res.0,
          length-take res.1 res.0,
          ap length out,
        ) in
      (
        w₂,
        rw (str-Holds h, filter, e, e₁, region),
        owns pre (drop res.1 res.0 ++ post) hl room
            (subst (λ t. Owns w₂ pre t (drop res.1 res.0 ++ post)) out o'),
      )
]
