-- ===== src/Runtime/Buffer/Trim.antt =====
-- `TrimWhitespace` on the value that the workspace holds.
use entid_go.Prelude.{
  ℕ, zero, suc, ◌+◌, ◌-◌, ◌≤◌, ◌≡◌, refl, sym, ap, ◌∙◌, ◌&&◌, List, [], ◌∷◌, ◌++◌, some, arith,
  ◌==◌, length, take, drop, Bytes, slice, length-append, append_assoc, length-drop, length-take,
  Bool-cases, inl, inr, &&-inv, ==_iff,
}
use native.Mathlib.Numerals.{unary_clauses}
use entid_go.Utf8.{runes, decode_last_rune}
use entid_go.Utf8.Last.{decode_last_rune-le}
use entid_go.Utf8.Points.{bytes_of, bytes_of-runes}
use entid_go.Runtime.Buffer.{Buf, trim_start, trim_end, trim_whitespace}
use entid_go.Runtime.Buffer.Holds.{Holds, owns, load-Holds, str-Holds, cut_three}

trim_start-le : (ps : List (ℕ × Bytes)) → trim_start ps ≤ length (bytes_of ps)
unfolding trim_start
trim_start-le [] = omega arith
trim_start-le ((r, bs) ∷ ps) = ground (arith, trim_start-le ps, length-append bs (bytes_of ps))

trim_start-inside : (s : Bytes) → trim_start (runes s) ≤ length s
trim_start-inside s = omega (arith, trim_start-le (runes s), ap length (bytes_of-runes s))

trim_end-inside :
    (f : ℕ) (s : Bytes) (start end : ℕ)
    → start ≤ end
    → (start ≤ trim_end f s start end) × (trim_end f s start end ≤ end)
unfolding trim_end
trim_end-inside zero s start end h = (h, omega arith)
trim_end-inside (suc f) s start end h =
    let size = (decode_last_rune (slice s start end)).1 in
    let small = decode_last_rune-le (slice s start end) in
    let len = length-take (end - start) (drop start s) in
    let inside : start ≤ end - size = omega (arith, small, len, h) in
    let further = trim_end-inside f s start (end - size) inside in
    ground (arith, further, inside, h)

-- The value that is left, between the two ends.
abbrev pub trimmed : Bytes → Bytes
trimmed s = slice s (trim_start (runes s)) (trim_end (length s) s (trim_start (runes s)) (length s))

slice_all : (s : Bytes) → slice s 0 (length s) ≡ s
slice_all [] = refl
slice_all (x ∷ s) = simp unary_clauses (ap (λ t. x ∷ t) (simp unary_clauses at (slice_all s)))

cut_between :
    (pre s post : Bytes) (a e : ℕ)
    → pre ++ (s ++ post) ≡ (pre ++ take a s) ++ (slice s a e ++ (drop (e - a) (drop a s) ++ post))
cut_between pre s post a e =
    let head = take a s in
    let mid = slice s a e in
    let last = drop (e - a) (drop a s) in
    ap (λ t. pre ++ (t ++ post)) (cut_three s a (e - a))
    ∙ ap (λ t. pre ++ t)
        (append_assoc head (mid ++ last) post ∙ ap (λ t. head ++ t) (append_assoc mid last post))
    ∙ sym (append_assoc pre head (mid ++ (last ++ post)))

-- `TrimWhitespace` keeps what stands between the two ends, and gives the room of the rest back.
pub trim_whitespace_lem :
    (w : Buf) (s : Bytes) (l r : ℕ)
    → Holds w s l r
    → (w' : Buf) × (l' : ℕ) × (r' : ℕ) × (trim_whitespace w ≡ some w')
      × Holds w' (trimmed s) l' r'
      × (l ≤ l')
      × (r ≤ r')
unfolding trim_whitespace
trim_whitespace_lem w s l r h =
    let a = trim_start (runes s) in
    let e = trim_end (length s) s a (length s) in
    let (low, high) = trim_end-inside (length s) s a (length s) (trim_start-inside s) in
    elim (Bool-cases (a == 0 && e == length s)) [
      | inl all ↦
          let (at_start, at_end) = &&-inv _ _ all in
          let start : a ≡ 0 = (==_iff a 0).0 at_start in
          let stop : e ≡ length s = (==_iff e (length s)).0 at_end in
          let same : trimmed s ≡ s =
            ap (λ n. slice s n e) start ∙ ap (λ n. slice s 0 n) stop ∙ slice_all s in
          (w, l, r, rw (str-Holds h, all), rw same h, omega arith, omega arith)
      | inr some_cut ↦
          let (w₁, pre, post, e₁, hl, hr, o) = load-Holds w s l r h in
          let kept_len : length (slice s a e) ≡ e - a =
            omega (arith, length-take (e - a) (drop a s), length-drop a s) in
          (
            record w₁ { lo = w₁.lo + a; hi = w₁.lo + e },
            l + a,
            r + (length s - e),
            rw (str-Holds h, some_cut, e₁),
            owns (pre ++ take a s) (drop (e - a) (drop a s) ++ post)
                (omega (arith, length-append pre (take a s), length-take a s))
                (omega (
                  arith,
                  length-append (drop (e - a) (drop a s)) post,
                  length-drop (e - a) (drop a s),
                  length-drop a s,
                ))
                (record {
                  in_scratch = o.in_scratch;
                  bytes = o.bytes ∙ cut_between pre s post a e;
                  from = omega (arith, o.from, length-append pre (take a s), length-take a s);
                  until =
                      omega
                        (arith, o.from, length-append pre (take a s), length-take a s, kept_len);
                }),
            omega arith,
            omega arith,
          )
    ]
