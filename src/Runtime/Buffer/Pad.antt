-- ===== src/Runtime/Buffer/Pad.antt =====
-- `LeftPad` on the value that the workspace holds.
use entid_go.Prelude.{
  ℕ, zero, suc, ◌+◌, ◌-◌, ◌*◌, ◌≤◌, ◌≡◌, sym, ap, ◌∙◌, true, false, [], ◌∷◌, ◌++◌, some, arith,
  length, take, drop, Bytes, length-append, append_assoc, length-drop, length-take,
  take-append-drop, leb,
}
use native.Mathlib.Decide.{dec_le}
use entid_go.Prelude.Int.{pos}
use entid_go.Utf8.{rune_count}
use entid_go.Runtime.Buffer.{Buf, fill, left_pad}
use entid_go.Runtime.Buffer.Holds.{Holds, owns, load-Holds, str-Holds, copy_middle, resize}
use entid_go.Runtime.Buffer.Edges.{Yields, shift-Owns}

-- `k` copies of the padding.
abbrev pub repeat : ℕ → Bytes → Bytes
repeat zero pad = []
repeat (suc k) pad = pad ++ repeat k pad

length-repeat : (k : ℕ) (pad : Bytes) → length (repeat k pad) ≡ k * length pad
length-repeat zero pad = omega arith
length-repeat (suc k) pad = grind (arith, length-append pad (repeat k pad), length-repeat k pad)

fill_lem :
    (k at : ℕ) (pad b pre gap tail : Bytes)
    → b ≡ pre ++ (gap ++ tail)
    → at ≡ length pre
    → length gap ≡ k * length pad
    → fill k at pad b ≡ some (pre ++ (repeat k pad ++ tail))
unfolding fill
fill_lem zero at pad b pre [] tail e f h = ap some e
fill_lem zero at pad b pre (x ∷ gap) tail e f h = absurd (omega arith)
fill_lem (suc k) at pad b pre gap tail e f h =
    let n = length pad in
    let grow : suc k * n ≡ k * n + n = grind arith in
    let u = take n gap in
    let rest = drop n gap in
    let u_len : n ≡ length u = omega (arith, length-take n gap) in
    let bytes : b ≡ pre ++ (u ++ (rest ++ tail)) =
      e
      ∙ ap (λ t. pre ++ (t ++ tail)) (sym (take-append-drop n gap))
      ∙ ap (λ t. pre ++ t) (append_assoc u rest tail) in
    let copied = copy_middle b pre u (rest ++ tail) pad at bytes f u_len in
    rw copied (
      fill_lem k (at + n) pad (pre ++ (pad ++ (rest ++ tail))) (pre ++ pad) rest tail
        (sym (append_assoc pre pad (rest ++ tail))) (omega (arith, length-append pre pad))
        (omega (arith, length-drop n gap))
      ∙ ap some (
          append_assoc pre pad (repeat k pad ++ tail)
          ∙ ap (λ t. pre ++ t) (sym (append_assoc pad (repeat k pad) tail))))

-- `LeftPad` to a number of code points, with room on either side for the copies that are missing: it
-- succeeds, and the value is the missing copies followed by the old value.
pub left_pad_lem :
    (w : Buf) (s pad : Bytes) (len l r : ℕ)
    → Holds w s l r
    → (len - rune_count s) * length pad ≤ l + r
    → Yields
        (left_pad (pos len) pad w)
        (repeat (len - rune_count s) pad ++ s)
        (l - (len - rune_count s) * length pad)
        (r - ((len - rune_count s) * length pad - l))
unfolding left_pad
left_pad_lem w s pad len l r h fits = elim (dec_le len (rune_count s)) [
  | yes p ↦
      let none_missing : len - rune_count s ≡ 0 = omega arith in
      let enough : leb len (rune_count s) ≡ true = ground arith in
      (w, rw (str-Holds h, enough), rw none_missing (resize (omega arith) (omega arith) h))
  | no p ↦
      let k = len - rune_count s in
      let short : leb len (rune_count s) ≡ false = ground arith in
      let (w₁, pre, post, e₁, hl, hr, o) = load-Holds w s l r h in
      let (w₂, pre', gap, post', e₂, hg, hl', hr', o₂) =
        shift-Owns w₁ pre s post (k * length pad) o (omega arith) in
      let filled =
        fill_lem k w₂.lo pad w₂.b pre' gap (s ++ post')
          (o₂.bytes ∙ ap (λ t. pre' ++ t) (append_assoc gap s post')) o₂.from hg in
      (
        record w₂ { b = pre' ++ (repeat k pad ++ (s ++ post')) },
        rw (str-Holds h, short, e₁, e₂, filled),
        owns pre' post' (omega arith) (omega arith) (record {
          in_scratch = o₂.in_scratch;
          bytes = ap (λ t. pre' ++ t) (sym (append_assoc (repeat k pad) s post'));
          from = o₂.from;
          until = omega (
            arith,
            o₂.until,
            hg,
            length-repeat k pad,
            length-append gap s,
            length-append (repeat k pad) s,
          );
        }),
      )
]
