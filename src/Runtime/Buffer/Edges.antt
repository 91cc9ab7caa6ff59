-- ===== src/Runtime/Buffer/Edges.antt =====
-- The operations at the two edges of the value: `Prepend`, `Append`, `ReplacePrefix`.
use entid_go.Prelude.{
  ℕ, ◌+◌, ◌-◌, ◌≤◌, ◌<◌, ◌≡◌, refl, sym, ap, ◌∙◌, [], ◌++◌, Option, some, arith, length, take, drop,
  Bytes, length-append, append_assoc, length-drop, length-take, take-append-drop, slice,
}
use native.Mathlib.Decide.{dec_le}
use entid_go.Runtime.Buffer.{Buf, shift_left_edge, write_front, prepend}
use entid_go.Runtime.Buffer.Holds.{
  Owns, Holds, owns, load-Holds, copy_middle, cut_three, slice_middle,
}

-- A workspace with `n` bytes of any content made before its value.
abbrev Shifts : Option Buf → Bytes → ℕ → ℕ → ℕ → Type 0
Shifts o s n l r =
    (w : Buf) × (pre : Bytes) × (gap : Bytes) × (post : Bytes) × (o ≡ some w)
    × (length gap ≡ n)
    × (length pre ≡ l)
    × (length post ≡ r)
    × Owns w pre (gap ++ s) post

-- The left margin suffices: the edge moves, the bytes stay.
shift_inside :
    (w : Buf) (pre s post : Bytes) (n : ℕ)
    → Owns w pre s post
    → n ≤ length pre
    → Shifts (shift_left_edge n w) s n (length pre - n) (length post)
unfolding shift_left_edge
shift_inside w pre s post n o h =
    let k = length pre - n in
    let head = take k pre in
    let gap = drop k pre in
    let head_len : length head ≡ k = omega (arith, length-take k pre) in
    let gap_len : length gap ≡ n = omega (arith, length-drop k pre) in
    (
      record w { lo = w.lo - n },
      head,
      gap,
      post,
      ground (arith, o.from),
      gap_len,
      head_len,
      refl,
      record {
        in_scratch = o.in_scratch;
        bytes =
            o.bytes
            ∙ ap (λ t. t ++ (s ++ post)) (sym (take-append-drop k pre))
            ∙ append_assoc head gap (s ++ post)
            ∙ ap (λ t. head ++ t) (sym (append_assoc gap s post));
        from = omega (arith, o.from, head_len);
        until = omega (arith, o.until, head_len, gap_len, length-append gap s);
      },
    )

-- The margin is exhausted: the value moves right, into the room behind it.
shift_outside :
    (w : Buf) (pre s post : Bytes) (n : ℕ)
    → Owns w pre s post
    → length pre < n
    → n ≤ length pre + length post
    → Shifts (shift_left_edge n w) s n 0 (length post - (n - length pre))
unfolding shift_left_edge
shift_outside w pre s post n o h k =
    let gap = take n w.b in
    let mid = take (length s) (drop n w.b) in
    let rest = drop (length s) (drop n w.b) in
    let total : length w.b ≡ length pre + (length s + length post) =
      ap length o.bytes
      ∙ length-append pre (s ++ post)
      ∙ ap (λ m. length pre + m) (length-append s post) in
    let gap_len : length gap ≡ n = omega (arith, length-take n w.b, total) in
    let mid_len : length s ≡ length mid =
      omega (arith, length-take (length s) (drop n w.b), length-drop n w.b, total) in
    let rest_len : length rest ≡ length post - (n - length pre) =
      omega (arith, length-drop (length s) (drop n w.b), length-drop n w.b, total) in
    let body : slice w.b w.lo w.hi ≡ s = rw (o.bytes, o.from, o.until) (slice_middle pre s post) in
    let at : w.lo + (n - w.lo) ≡ length gap = omega (arith, o.from, gap_len) in
    let moved =
      copy_middle w.b gap mid rest s (w.lo + (n - w.lo)) (cut_three w.b n (length s)) at mid_len in
    (
      record w { b = gap ++ (s ++ rest); hi = w.hi + (n - w.lo); lo = 0 },
      [],
      gap,
      rest,
      ground (arith, o.from, body, moved),
      gap_len,
      refl,
      rest_len,
      record {
        in_scratch = o.in_scratch;
        bytes = sym (append_assoc gap s rest);
        from = refl;
        until = omega (arith, o.until, o.from, gap_len, length-append gap s);
      },
    )

pub shift-Owns :
    (w : Buf) (pre s post : Bytes) (n : ℕ)
    → Owns w pre s post
    → n ≤ length pre + length post
    → Shifts (shift_left_edge n w) s n (length pre - n) (length post - (n - length pre))
shift-Owns w pre s post n o h = elim (dec_le n (length pre)) [
  | yes p ↦
      let none_moved : length post - (n - length pre) ≡ length post = omega arith in
      rw none_moved (shift_inside w pre s post n o p)
  | no p ↦
      let none_left : length pre - n ≡ 0 = omega arith in
      rw none_left (shift_outside w pre s post n o (omega arith) h)
]

-- Writing over the first bytes of the value.
pub write_front-Owns :
    (w : Buf) (pre u s post text : Bytes)
    → Owns w pre (u ++ s) post
    → length text ≡ length u
    → (w' : Buf) × (write_front text w ≡ some w') × Owns w' pre (text ++ s) post
unfolding write_front
write_front-Owns w pre u s post text o h =
    let bytes : w.b ≡ pre ++ (u ++ (s ++ post)) =
      o.bytes ∙ ap (λ t. pre ++ t) (append_assoc u s post) in
    let copied = copy_middle w.b pre u (s ++ post) text w.lo bytes o.from h in
    (
      record w { b = pre ++ (text ++ (s ++ post)) },
      rw copied,
      record {
        in_scratch = o.in_scratch;
        bytes = ap (λ t. pre ++ t) (sym (append_assoc text s post));
        from = o.from;
        until = omega (arith, o.until, h, length-append u s, length-append text s);
      },
    )

-- A workspace after a step that succeeded: the value `s`, with the room left on both sides.
abbrev pub Yields : Option Buf → Bytes → ℕ → ℕ → Type 0
Yields o s l r = (w : Buf) × (o ≡ some w) × Holds w s l r

-- With room for the text on either side, `Prepend` succeeds and the value is the text and the old value.
-- The room that it takes comes from the left, and from the right only when the left is exhausted.
pub prepend_lem :
    (w : Buf) (s text : Bytes) (l r : ℕ)
    → Holds w s l r
    → length text ≤ l + r
    → Yields (prepend text w) (text ++ s) (l - length text) (r - (length text - l))
unfolding prepend
prepend_lem w s text l r h fits =
    let (w₁, pre, post, e₁, hl, hr, o₁) = load-Holds w s l r h in
    let (w₂, pre', gap, post', e₂, hg, hl', hr', o₂) =
      shift-Owns w₁ pre s post (length text) o₁ (omega arith) in
    let (w₃, e₃, o₃) = write_front-Owns w₂ pre' gap s post' text o₂ (sym hg) in
    (w₃, rw (e₁, e₂) e₃, owns pre' post' (omega arith) (omega arith) o₃)
