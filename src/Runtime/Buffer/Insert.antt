-- ===== src/Runtime/Buffer/Insert.antt =====
-- `Insert` on the value that the workspace holds.
use entid_go.Prelude.{
  drop-add, ℕ, ◌+◌, ◌-◌, ◌≤◌, ◌<◌, ◌≡◌, refl, sym, ap, ◌∙◌, false, ◌++◌, none, some, arith, length,
  take, drop, Bytes, length-append, append_assoc, length-drop, length-take, take-append-drop, slice,
  ltb, if◌then◌else◌,
}
use native.Mathlib.Nat.{add_comm}
use entid_go.Prelude.Int.{pos}
use entid_go.Utf8.{rune_count, runes}
use entid_go.Utf8.Points.{bytes_of}
use entid_go.Utf8.Widths.{width, take-width, drop-width}
use entid_go.Runtime.View.{rune_offset}
use entid_go.Runtime.View.Offset.{rune_offset-place}
use entid_go.Runtime.Buffer.{Buf, copy_to, insert, ◌>>=◌}
use entid_go.Runtime.Buffer.Holds.{
  drop-append_length, Owns, Holds, owns, load-Holds, str-Holds, copy_middle, cut_three,
  slice_middle,
}
use entid_go.Runtime.Buffer.Edges.{Yields}

-- The two copies of `Insert`, on a value cut at `off`.
insert_copies :
    (w : Buf) (pre u v post text : Bytes) (off : ℕ)
    → Owns w pre (u ++ v) post
    → off ≡ length u
    → length text ≤ length post
    → (w' : Buf) × ((do
      (n, b₁) ←
          (if ltb (length w.b) (w.hi + length text)
            then none
            else copy_to w.b (w.lo + off + length text) (slice w.b (w.lo + off) w.hi))
      (m, b₂) ← copy_to b₁ (w.lo + off) text
      some (record w { b = b₂; hi = w.hi + length text }))
        ≡ some w')
      × Owns w' pre (u ++ (text ++ v)) (drop (length text) post)
insert_copies w pre u v post text off o e fits =
    let n = length text in
    let q = v ++ post in
    let head = pre ++ u in
    let x = take n q in
    let mid = take (length v) (drop n q) in
    let rest = drop (length v) (drop n q) in
    let q_len : length q ≡ length v + length post = length-append v post in
    let bytes : w.b ≡ head ++ q =
      o.bytes ∙ ap (λ t. pre ++ t) (append_assoc u v post) ∙ sym (append_assoc pre u q) in
    let total : length w.b ≡ length pre + length u + (length v + length post) =
      omega (arith, ap length bytes, length-append head q, length-append pre u, q_len) in
    let until : w.hi ≡ length pre + length u + length v =
      omega (arith, o.until, length-append u v) in
    let roomy : ltb (length w.b) (w.hi + n) ≡ false = ground (arith, total, until) in
    let at : w.lo + off ≡ length head = omega (arith, o.from, length-append pre u) in
    let hi_end : w.hi ≡ length head + length v = omega (arith, until, length-append pre u) in
    let tail : slice w.b (w.lo + off) w.hi ≡ v =
      ap (λ k. slice w.b k w.hi) at
      ∙ ap (λ k. slice w.b (length head) k) hi_end
      ∙ ap (λ b. slice b (length head) (length head + length v)) bytes
      ∙ slice_middle head v post in
    let x_len : length x ≡ n = omega (arith, length-take n q, q_len) in
    let mid_len : length v ≡ length mid =
      omega (arith, length-take (length v) (drop n q), length-drop n q, q_len) in
    let bytes' : w.b ≡ (head ++ x) ++ (mid ++ rest) =
      bytes
      ∙ ap (λ t. head ++ t) (cut_three q n (length v))
      ∙ sym (append_assoc head x (mid ++ rest)) in
    let at' : w.lo + off + n ≡ length (head ++ x) =
      omega (arith, at, length-append head x, x_len) in
    let first = copy_middle w.b (head ++ x) mid rest v (w.lo + off + n) bytes' at' mid_len in
    let b₁ = (head ++ x) ++ (v ++ rest) in
    let second =
      copy_middle b₁ head x (v ++ rest) text (w.lo + off) (append_assoc head x (v ++ rest)) at
        (sym x_len) in
    let same : rest ≡ drop n post =
      sym (drop-add n (length v) q)
      ∙ ap (λ k. drop k q) (add_comm n (length v))
      ∙ drop-add (length v) n q
      ∙ ap (drop n) (drop-append_length v post) in
    (
      record w { b = head ++ (text ++ (v ++ rest)); hi = w.hi + n },
      rw (roomy, tail, first, second),
      record {
        in_scratch = o.in_scratch;
        bytes =
            append_assoc pre u (text ++ (v ++ rest))
            ∙ ap (λ t. pre ++ (u ++ t)) (sym (append_assoc text v rest))
            ∙ ap (λ t. pre ++ t) (sym (append_assoc u (text ++ v) rest))
            ∙ ap (λ t. pre ++ ((u ++ (text ++ v)) ++ t)) same;
        from = o.from;
        until = omega (arith, until, length-append u (text ++ v), length-append text v);
      },
    )

-- `Insert` at a code point position of the value, with room for the text behind it: it succeeds, and the
-- text stands between the first `n` code points and the others.
pub insert_lem :
    (w : Buf) (s text : Bytes) (n l r : ℕ)
    → Holds w s l r
    → length text ≤ r
    → n ≤ rune_count s
    → Yields
        (insert (pos n) text w)
        (bytes_of (take n (runes s)) ++ (text ++ bytes_of (drop n (runes s))))
        l
        (r - length text)
unfolding insert
insert_lem w s text n l r h fits inside =
    let (w₁, pre, post, e₁, hl, hr, o) = load-Holds w s l r h in
    let off = width n s in
    let found : rune_offset s (pos n) ≡ some (0 + off) = ground (arith, rune_offset-place s n) in
    let head_len : 0 + off ≡ length (bytes_of (take n (runes s))) = unfold width in omega arith in
    let (w₂, e₂, o₂) =
      insert_copies w₁ pre (bytes_of (take n (runes s))) (bytes_of (drop n (runes s))) post text
        (0 + off) (rw (← take-width n s, ← drop-width n s, take-append-drop (width n s) s) o)
        head_len (omega arith) in
    (
      w₂,
      rw (str-Holds h, insert, found, e₁) e₂,
      owns pre (drop (length text) post) hl (omega (arith, length-drop (length text) post)) o₂,
    )

-- `Insert` past the last code point changes nothing.
pub insert_past :
    (w : Buf) (s text : Bytes) (n l r : ℕ)
    → Holds w s l r
    → rune_count s < n
    → insert (pos n) text w ≡ some w
unfolding insert
insert_past w s text n l r h outside =
    let missing : rune_offset s (pos n) ≡ none = ground (arith, rune_offset-place s n) in
    rw (str-Holds h, insert, missing) refl
