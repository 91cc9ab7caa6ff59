-- ===== src/Wire/Encoding/RoundTrip.antt =====
-- internal/gen/protowire.go: the reads on what the encoding puts.
use native.Mathlib.Nat.{div-add-mod}
use native.Mathlib.Numerals.{towards_suc}
use entid_go.Prelude.{
  length-drop, bind_on, ℕ, zero, suc, ◌+◌, ◌-◌, ◌*◌, ◌/◌, ◌%◌, ◌^◌, ◌<◌, ◌≤◌, ◌≡◌, refl, ap, ◌∙◌,
  ltb, ◌==◌, ◌||◌, false, List, [], ◌∷◌, ◌++◌, Option, some, length, drop, take, slice, Bytes,
  length-append, drop-add, arith, Bool-cases, inl, inr, append_assoc,
}
use entid_go.Wire.{
  Reader, WireType, wire_varint, wire_i64, wire_bytes, wire_i32, wire_of, varint_loop, varint, next,
  bytes,
}
use entid_go.Wire.Encoding.{put_loop, put_varint, put_tag, put_wire, put_bytes}

-- Seven bits on, and what they leave.
later_groups : (v s : ℕ) → v % 128 * 2 ^ s + v / 128 * 2 ^ (s + 7) ≡ v * 2 ^ s
later_groups v s =
    let power : 2 ^ (s + 7) ≡ 128 * 2 ^ s = simp towards_suc (omega arith) in
    let parts = ap (λ (t : ℕ). t * 2 ^ s) (div-add-mod v 128) in
    let shifted = ap (λ (t : ℕ). v / 128 * t) power in omega (arith, parts, shifted)

final_byte :
    (v shift acc n : ℕ) (rest : Bytes)
    → v < 128
    → shift ≤ 63
    → (shift ≡ 63 → v < 2)
    → varint_loop (v ∷ rest) shift acc n ≡ some (acc + v * 2 ^ shift, n + 1)
unfolding varint_loop
final_byte v shift acc n rest small below top =
    let same : v % 128 * 2 ^ shift ≡ v * 2 ^ shift =
      ap (λ t. t * 2 ^ shift) (omega (arith, small)) in
    ground (arith, same)

inner_byte :
    (g shift acc n : ℕ) (rest : Bytes)
    → g < 128
    → shift < 63
    → varint_loop ((128 + g) ∷ rest) shift acc n
      ≡ varint_loop rest (shift + 7) (acc + g * 2 ^ shift) (n + 1)
unfolding varint_loop
inner_byte g shift acc n rest small below =
    let same : (128 + g) % 128 * 2 ^ shift ≡ g * 2 ^ shift =
      ap (λ t. t * 2 ^ shift) (omega (arith, small)) in
    rw same (ground arith)

some_both {ℓ κ} :
    {A : Type ℓ} {B : Type κ} {a b : A} {c d : B}
    → a ≡ b
    → c ≡ d
    → ◌≡◌ {A = Option (A × B)} (some (a, c)) (some (b, d))
some_both p q = ground (arith, p, q)

varint_loop-put :
    (f v shift acc n : ℕ) (rest : Bytes)
    → shift + 7 * f ≡ 63
    → v < 2 * 128 ^ f
    → varint_loop (put_loop f v ++ rest) shift acc n
      ≡ some (acc + v * 2 ^ shift, n + length (put_loop f v))
unfolding put_loop
varint_loop-put zero v shift acc n rest at_top small =
    final_byte v shift acc n rest (omega arith) (omega arith) (λ e. omega arith)
varint_loop-put (suc f) v shift acc n rest below small = elim (Bool-cases (ltb v 128)) [
  | inl last ↦ rw last (
      final_byte v shift acc n rest (ground (arith, last)) (omega arith)
        (λ e. absurd (omega arith)))
  | inr more ↦
      let power : 128 ^ suc f ≡ 128 * 128 ^ f = omega arith in
      let rest_small : v / 128 < 2 * 128 ^ f = omega (arith, small, power) in
      let group = v % 128 * 2 ^ shift in
      let sum = later_groups v shift in
      let read =
        varint_loop-put f (v / 128) (shift + 7) (acc + group) (n + 1) rest (omega arith)
          rest_small in
      rw more (
        inner_byte (v % 128) shift acc n _ (omega arith) (omega arith)
        ∙ read
        ∙ some_both (omega (arith, sum)) (omega arith))
]

-- What lies ahead of a reader, and the reader some bytes further on.
abbrev pub ahead : Reader → Bytes
ahead r = drop r.at r.buf

abbrev pub forward : Reader → ℕ → Reader
forward r n = record r { at = r.at + n }

drop-append {ℓ} : {A : Type ℓ} (xs ys : List A) → drop (length xs) (xs ++ ys) ≡ ys
drop-append [] ys = refl
drop-append (x ∷ xs) ys = drop-append xs ys

take-append {ℓ} : {A : Type ℓ} (xs ys : List A) → take (length xs) (xs ++ ys) ≡ xs
take-append [] ys = refl
take-append (x ∷ xs) ys = ap (λ t. x ∷ t) (take-append xs ys)

pub ahead-forward :
    (r : Reader) (x rest : Bytes) → ahead r ≡ x ++ rest → ahead (forward r (length x)) ≡ rest
ahead-forward r x rest h =
    drop-add r.at (length x) r.buf ∙ ap (drop (length x)) h ∙ drop-append x rest

-- What lies ahead is inside the slice.
ahead-inside :
    (r : Reader) (x rest : Bytes)
    → r.at ≤ length r.buf
    → ahead r ≡ x ++ rest
    → r.at + length x ≤ length r.buf
ahead-inside r x rest inside h =
    let left = length-drop r.at r.buf in
    let split = length-append x rest in omega (arith, left, split, ap length h, inside)

pub varint-put :
    (r : Reader) (v : ℕ) (rest : Bytes)
    → v < 2 ^ 64
    → ahead r ≡ put_varint v ++ rest
    → varint r ≡ some (v, forward r (length (put_varint v)))
unfolding varint put_varint
varint-put r v rest small h =
    let read = varint_loop-put 9 v 0 0 0 rest (omega arith) (omega (arith, small)) in
    rw h (bind_on _ _ _ _ read (some_both (omega arith) (ap (forward r) (omega arith))))

put_wire_small : (wire : WireType) → put_wire wire < 8
put_wire_small wire_varint = omega arith
put_wire_small wire_i64 = omega arith
put_wire_small wire_bytes = omega arith
put_wire_small wire_i32 = omega arith

wire_of-put_wire : (wire : WireType) → wire_of (put_wire wire) ≡ some wire
wire_of-put_wire wire_varint = refl
wire_of-put_wire wire_i64 = refl
wire_of-put_wire wire_bytes = refl
wire_of-put_wire wire_i32 = refl

pub next-put :
    (r : Reader) (num : ℕ) (wire : WireType) (rest : Bytes)
    → 0 < num
    → num < 2 ^ 29
    → ahead r ≡ put_tag num wire ++ rest
    → next r ≡ some ((num, wire), forward r (length (put_tag num wire)))
unfolding next put_tag
next-put r num wire rest some_number small h =
    let tag = 8 * num + put_wire wire in
    let low = put_wire_small wire in
    let number : tag / 8 ≡ num = omega (arith, low) in
    let in_range : (num == 0 || ltb (2 ^ 31 - 1) num) ≡ false = ground arith in
    let bits : tag % 8 ≡ put_wire wire = omega (arith, low) in
    let kind : wire_of (tag % 8) ≡ some wire = ap wire_of bits ∙ wire_of-put_wire wire in
    bind_on _ _ _ _ (varint-put r tag rest (omega (arith, low)) h)
      (rw number (rw kind (rw in_range refl)))

pub bytes-put :
    (r : Reader) (b rest : Bytes)
    → r.at ≤ length r.buf
    → length r.buf < 2 ^ 64
    → ahead r ≡ put_bytes b ++ rest
    → bytes r ≡ some (b, forward r (length (put_bytes b)))
unfolding bytes put_bytes
bytes-put r b rest inside small h =
    let size = put_varint (length b) in
    let whole : ahead r ≡ size ++ (b ++ rest) = h ∙ append_assoc size b rest in
    let r₁ : Reader = forward r (length size) in
    let body : ahead r₁ ≡ b ++ rest = ahead-forward r size (b ++ rest) whole in
    let end = ahead-inside r₁ b rest (ahead-inside r size (b ++ rest) inside whole) body in
    let fits : (ltb (length r₁.buf) r₁.at || ltb (length r₁.buf - r₁.at) (length b)) ≡ false =
      ground (arith, end) in
    let count : r₁.at + length b - r₁.at ≡ length b = omega arith in
    let read : slice r₁.buf r₁.at (r₁.at + length b) ≡ b =
      rw count (ap (take (length b)) body ∙ take-append b rest) in
    let moved : r₁.at + length b ≡ r.at + length (size ++ b) =
      (let parts = length-append size b in omega (arith, parts)) in
    bind_on _ _ _ _ (varint-put r (length b) (b ++ rest) (omega (arith, end, small)) whole)
      (rw fits (some_both read (ap (λ k. record r { at = k }) moved)))

pub body-inside :
    (r : Reader) (b rest : Bytes)
    → r.at ≤ length r.buf
    → ahead r ≡ put_bytes b ++ rest
    → length b ≤ length r.buf
unfolding put_bytes
body-inside r b rest inside h =
    let fits = ahead-inside r (put_bytes b) rest inside h in
    let parts = length-append (put_varint (length b)) b in omega (arith, fits, parts)
