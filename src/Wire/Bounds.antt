-- ===== src/Wire/Bounds.antt =====
-- The reader never reads past its slice, and every read that succeeds moves it forward.
use entid_go.Prelude.{
  bind-inv, unless, pair-snd, some-eq, length-take, ℕ, zero, suc, ◌+◌, ◌||◌, ◌-◌, ◌*◌, ◌%◌, ◌^◌,
  ◌≤◌, ◌<◌, ◌≡◌, refl, ap, List, [], ◌∷◌, ◌++◌, Option, some, arith, ltb, if◌then◌else◌, length,
  drop, Bytes, slice, length-drop, Bool-cases, Option-cases, inl, inr,
}
use mathlib.Core.Path.{subst}
use entid_go.Wire.{
  Reader, WireType, wire_varint, wire_i64, wire_bytes, wire_i32, wire_of, done, varint_loop, varint,
  next, bytes, message, fixed, skip, packed_loop,
}

-- `r'` is `r` behind a read: one byte or more further on, and still inside the slice.
abbrev pub Advances : Reader → Reader → Type 0
Advances r r' =
    (r'.buf ≡ r.buf)
    × (r.at < r'.at)
    × (r'.at ≤ length r.buf)
    × (r'.depth ≡ r.depth)
    × (r'.lenient ≡ r.lenient)

varint_loop-bounds :
    (s : Bytes) (shift v n v' n' : ℕ)
    → varint_loop s shift v n ≡ some (v', n')
    → (n < n') × (n' ≤ n + length s)
unfolding varint_loop
varint_loop-bounds [] shift v n v' n' h = absurd (ground arith)
varint_loop-bounds (b ∷ s) shift v n v' n' h =
    let rest = varint_loop-bounds s (shift + 7) (v + b % 128 * 2 ^ shift) (n + 1) v' n' in
    ground (arith, rest)

pub varint-Advances : (r r' : Reader) (v : ℕ) → varint r ≡ some (v, r') → Advances r r'
unfolding varint
varint-Advances r r' v h =
    let ((w, n), read, same) = bind-inv (varint_loop (drop r.at r.buf) 0 0 0) _ (v, r') h in
    let (more, inside) = varint_loop-bounds (drop r.at r.buf) 0 0 0 w n read in
    let left = length-drop r.at r.buf in
    subst (Advances r) (pair-snd (w, record r { at = r.at + n }) (v, r') same)
      (refl, omega arith, omega (arith, left, inside, more), refl, refl)

-- `next` reads a tag inside the slice and moves behind it.
pub next-Advances : (r r' : Reader) (t : ℕ × WireType) → next r ≡ some (t, r') → Advances r r'
unfolding next
next-Advances r r' t h =
    let ((tag, r₁), read, rest) = bind-inv (varint r) _ (t, r') h in
    let (wire, known, same) = bind-inv (wire_of (tag % 8)) _ (t, r') (unless _ _ (t, r') rest) in
    subst (Advances r) (pair-snd (_, r₁) (t, r') same) (varint-Advances r r₁ tag read)

-- `bytes` moves the reader on by more than the length of the body that it yields, and leaves it inside
-- the slice.
pub bytes-Advances :
    (r r' : Reader) (b : Bytes) → bytes r ≡ some (b, r') → Advances r r' × (r.at + length b < r'.at)
unfolding bytes
bytes-Advances r r' b h =
    let ((n, r₁), read, rest) = bind-inv (varint r) _ (b, r') h in
    let (same_buf, forward, inside, depth, lenient) = varint-Advances r r₁ n read in
    let size = length-take (r₁.at + n - r₁.at) (drop r₁.at r₁.buf) in
    let len = ap length same_buf in
    elim (Bool-cases (ltb (length r₁.buf) r₁.at || ltb (length r₁.buf - r₁.at) n)) [
      | inl long ↦ absurd (ground (arith, long))
      | inr fits ↦
          let end : r₁.at + n ≤ length r.buf = ground (arith, fits, len, inside) in
          let moved : Bytes × Reader =
            (slice r₁.buf r₁.at (r₁.at + n), record r₁ { at = r₁.at + n }) in
          subst (λ p. Advances r p.1 × (r.at + length p.0 < p.1.at))
            (some-eq moved (b, r') (unless _ _ (b, r') rest))
            ((same_buf, omega (arith, forward), end, depth, lenient), omega (arith, forward, size))
    ]

-- A nested message that is read moves the reader on and leaves it inside its slice, at its own depth,
-- whatever the decoder of the body does.
pub message-Advances {ℓ} :
    {A : Type ℓ} (decode : Reader → Option (A × Reader)) (r r' : Reader) (a : A)
    → message decode r ≡ some (a, r')
    → Advances r r'
unfolding message
message-Advances decode r r' a h =
    let ((body, r₁), read, rest) = bind-inv (bytes r) _ (a, r') h in
    let ((a₁, sub), decoded, end) = bind-inv (decode _) _ (a, r') (unless _ _ (a, r') rest) in
    subst (Advances r) (pair-snd (a₁, r₁) (a, r') (unless _ _ (a, r') end))
      ((bytes-Advances r r₁ body read).0)

fixed-Advances : (n : ℕ) (r r' : Reader) → 0 < n → fixed n r ≡ some r' → Advances r r'
unfolding fixed
fixed-Advances n r r' more h = elim (Bool-cases (ltb (length r.buf) (r.at + n))) [
  | inl short ↦ absurd (ground arith)
  | inr fits ↦
      let moved : Reader = record r { at = r.at + n } in
      subst (Advances r) (some-eq moved r' (unless _ _ r' h))
        (refl, omega arith, ground (arith, fits), refl, refl)
]

-- `skip` consumes a field of any wire type, one byte at least, and stays inside the slice.
pub skip-Advances : (wire : WireType) (r r' : Reader) → skip wire r ≡ some r' → Advances r r'
unfolding skip
skip-Advances wire_varint r r' h =
    let ((v, r₁), read, same) = bind-inv (varint r) _ r' h in
    subst (Advances r) (some-eq r₁ r' same) (varint-Advances r r₁ v read)
skip-Advances wire_i64 r r' h = fixed-Advances 8 r r' (omega arith) h
skip-Advances wire_bytes r r' h =
    let ((b, r₁), read, same) = bind-inv (bytes r) _ r' h in
    subst (Advances r) (some-eq r₁ r' same) ((bytes-Advances r r₁ b read).0)
skip-Advances wire_i32 r r' h = fixed-Advances 4 r r' (omega arith) h

-- The fuel of a packed body is enough: for a read that advances wherever it succeeds, one more round
-- than the bytes that are left changes nothing.
packed_loop-enough {ℓ} :
    {A : Type ℓ} (read : Reader → Option (A × Reader))
    → ((r r' : Reader) (a : A) → read r ≡ some (a, r') → Advances r r')
    → (f : ℕ) (r : Reader) (dst : List A) → length r.buf ≤ f + r.at
    → packed_loop read (suc f) r dst ≡ packed_loop read f r dst
unfolding packed_loop
packed_loop-enough read advances zero r dst h = ground arith
packed_loop-enough {A = A} read advances (suc f) r dst h = elim (Option-cases (read r)) [
  | inl failed ↦ ground (arith, failed)
  | inr ((a, r'), fine) ↦
      let (same_buf, forward, inside, depth, lenient) = advances r r' a fine in
      let enough : length r'.buf ≤ f + r'.at = omega (arith, ap length same_buf, forward, h) in
      let rest = packed_loop-enough read advances f r' (dst ++ a ∷ []) enough in
      rw fine (ap (λ o. if done r then some dst else o) rest)
]
