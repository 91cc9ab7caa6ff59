-- ===== src/Runtime/Buffer/Replace.antt =====
-- `Append` and `ReplacePrefix` on the value that the workspace holds.
use entid_go.Prelude.{
  ℕ, ◌+◌, ◌-◌, ◌≤◌, ◌<◌, ◌≡◌, refl, sym, ap, ◌∙◌, true, false, ◌++◌, Option, some, arith, leb,
  if◌then◌else◌, length, take, drop, Bytes, length-append, append_assoc, length-drop, length-take,
  take-append-drop, has_prefix as string_has_prefix, has_prefix-append,
}
use native.Mathlib.Decide.{dec_le}
use entid_go.Runtime.Buffer.{Buf, str, shift_left_edge, write_front, append, replace_prefix, ◌>>=◌}
use entid_go.Runtime.Buffer.Holds.{resize, Owns, Holds, owns, load-Holds, str-Holds, copy_middle}
use entid_go.Runtime.Buffer.Edges.{Yields, shift-Owns, write_front-Owns}

-- With room for the text behind the value, `Append` succeeds and the value is followed by the text.
pub append_lem :
    (w : Buf) (s text : Bytes) (l r : ℕ)
    → Holds w s l r
    → length text ≤ r
    → Yields (append text w) (s ++ text) l (r - length text)
unfolding append
append_lem w s text l r h fits =
    let (w₁, pre, post, e₁, hl, hr, o) = load-Holds w s l r h in
    let n = length text in
    let u = take n post in
    let rest = drop n post in
    let u_len : n ≡ length u = omega (arith, length-take n post) in
    let rest_len : length rest ≡ r - n = omega (arith, length-drop n post) in
    let bytes : w₁.b ≡ (pre ++ s) ++ (u ++ rest) =
      o.bytes
      ∙ ap (λ t. pre ++ (s ++ t)) (sym (take-append-drop n post))
      ∙ sym (append_assoc pre s (u ++ rest)) in
    let at : w₁.hi ≡ length (pre ++ s) = omega (arith, o.until, length-append pre s) in
    let copied = copy_middle w₁.b (pre ++ s) u rest text w₁.hi bytes at u_len in
    (
      record w₁ { b = (pre ++ s) ++ (text ++ rest); hi = w₁.hi + n },
      rw e₁ (rw copied),
      owns pre rest hl rest_len (record {
        in_scratch = o.in_scratch;
        bytes =
            append_assoc pre s (text ++ rest) ∙ ap (λ t. pre ++ t) (sym (append_assoc s text rest));
        from = o.from;
        until = omega (arith, o.until, length-append s text);
      }),
    )

abbrev second : Bytes → Bytes → Buf → Option Buf
second from to w =
    if leb (length to) (length from)
    then some (record w { lo = w.lo + (length from - length to) })
    else shift_left_edge (length to - length from) w

-- The replacement is no longer than the prefix: the left edge moves right.
replace_narrow :
    (w : Buf) (pre from s post to : Bytes)
    → Owns w pre (from ++ s) post
    → length to ≤ length from
    → (w' : Buf) × ((second from to w >>= write_front to) ≡ some w')
      × Holds w' (to ++ s) (length pre + length from - length to) (length post)
replace_narrow w pre from s post to o h =
    let k = length from - length to in
    let head = take k from in
    let u = drop k from in
    let head_len : length head ≡ k = omega (arith, length-take k from) in
    let u_len : length to ≡ length u = omega (arith, length-drop k from) in
    let w₂ : Buf = record w { lo = w.lo + k } in
    let o₂ : Owns w₂ (pre ++ head) (u ++ s) post = record {
      in_scratch = o.in_scratch;
      bytes =
          o.bytes
          ∙ ap (λ t. pre ++ t) (append_assoc from s post)
          ∙ ap (λ t. pre ++ (t ++ (s ++ post))) (sym (take-append-drop k from))
          ∙ ap (λ t. pre ++ t) (append_assoc head u (s ++ post))
          ∙ sym (append_assoc pre head (u ++ (s ++ post)))
          ∙ ap (λ t. (pre ++ head) ++ t) (sym (append_assoc u s post));
      from = omega (arith, o.from, head_len, length-append pre head);
      until = omega (
        arith,
        o.until,
        head_len,
        u_len,
        length-append pre head,
        length-append from s,
        length-append u s,
      );
    } in
    let (w₃, e₃, o₃) = write_front-Owns w₂ (pre ++ head) u s post to o₂ u_len in
    let branch : leb (length to) (length from) ≡ true = ground arith in
    (
      w₃,
      rw branch e₃,
      owns (pre ++ head) post (omega (arith, length-append pre head, head_len)) refl o₃,
    )

-- The replacement is longer: room is made for the difference.
replace_wide :
    (w : Buf) (pre from s post to : Bytes)
    → Owns w pre (from ++ s) post
    → length from < length to
    → length to ≤ length from + (length pre + length post)
    → (w' : Buf) × ((second from to w >>= write_front to) ≡ some w')
      × Holds w'
          (to ++ s)
          (length pre - (length to - length from))
          (length post - (length to - length from - length pre))
replace_wide w pre from s post to o h fits =
    let (w₂, pre', gap, post', e₂, hg, hl, hr, o₂) =
      shift-Owns w pre (from ++ s) post (length to - length from) o (omega arith) in
    let o₂' : Owns w₂ pre' ((gap ++ from) ++ s) post' = rw (append_assoc gap from s) o₂ in
    let u_len : length to ≡ length (gap ++ from) = omega (arith, hg, length-append gap from) in
    let (w₃, e₃, o₃) = write_front-Owns w₂ pre' (gap ++ from) s post' to o₂' u_len in
    let branch : leb (length to) (length from) ≡ false = ground arith in
    (w₃, rw (branch, e₂) e₃, owns pre' post' hl hr o₃)

-- `ReplacePrefix` on a value that starts with `from`, with room for what the replacement is longer:
-- it succeeds, and the value starts with `to` and goes on as before.
pub replace_prefix_lem :
    (w : Buf) (from to s : Bytes) (l r : ℕ)
    → Holds w (from ++ s) l r
    → length to ≤ length from + (l + r)
    → Yields
        (replace_prefix from to w)
        (to ++ s)
        (l + length from - length to)
        (r - (length to - length from - l))
unfolding replace_prefix
replace_prefix_lem w from to s l r h fits =
    let (w₁, pre, post, e₁, hl, hr, o) = load-Holds w (from ++ s) l r h in
    let starts : string_has_prefix (str w) from ≡ true =
      ap (λ t. string_has_prefix t from) (str-Holds h) ∙ has_prefix-append from s in
    elim (dec_le (length to) (length from)) [
      | yes p ↦
          let (w₂, e₂, h₂) = replace_narrow w₁ pre from s post to o p in
          (w₂, rw (starts, e₁) e₂, resize (omega arith) (omega arith) h₂)
      | no p ↦
          let (w₂, e₂, h₂) = replace_wide w₁ pre from s post to o (omega arith) (omega arith) in
          (w₂, rw (starts, e₁) e₂, resize (omega arith) (omega arith) h₂)
    ]
