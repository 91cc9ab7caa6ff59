-- ===== src/Wire/Skips.antt =====
-- internal/gen/protowire.go: the packed reads and the skips, in the strict and in the lenient pass.
use entid_go.Prelude.{
  bind-inv, bind_on, unless, unless-false, some-eq, ℕ, ◌+◌, ◌≡◌, ap, List, [], ◌∷◌, ◌++◌, Option,
  some, arith, ltb, not, length, pair-snd,
}
use mathlib.Core.Path.{subst}
use entid_go.Wire.{
  Reader, WireType, wire_varint, wire_i64, wire_bytes, wire_i32, new_reader, varint, bytes, fixed,
  skip, unknown, packed, packed_loop,
}
use entid_go.Wire.Bounds.{Advances, skip-Advances}
use entid_go.Wire.Reads.{in_lenient, relaxed, Lawful, varint-Lawful, bytes-Lawful}

-- A packed field, its values behind those of `dst`.
pub packed-Lawful {ℓ} :
    {A : Type ℓ} (read : Reader → Option (A × Reader)) (dst : List A) (wire : WireType)
    → Lawful read
    → Lawful (λ r. packed read dst wire r)
unfolding packed
packed-Lawful read dst wire_varint lawful = record {
  advance = λ r r' vs h.
      let ((v, r₁), given, same) = bind-inv (read r) _ (vs, r') h in
      subst (Advances r) (pair-snd (dst ++ v ∷ [], r₁) (vs, r') same) (lawful.advance r r₁ v given);
  agrees = record {
    agree = λ r r' vs h.
        let ((v, r₁), given, same) = bind-inv (read r) _ (vs, r') h in
        bind_on _ _ (v, in_lenient r₁) _ (lawful.agrees.agree r r₁ v given)
          (relaxed (dst ++ v ∷ [], r₁) (vs, r') same);
  };
}
packed-Lawful read dst wire_bytes lawful = record {
  advance = λ r r' vs h.
      let ((body, r₁), given, rest) = bind-inv (bytes r) _ (vs, r') h in
      let (ws, looped, same) =
        bind-inv (packed_loop read (length body) (new_reader body) dst) _ (vs, r') rest in
      subst (Advances r) (pair-snd (ws, r₁) (vs, r') same) (bytes-Lawful.advance r r₁ body given);
  agrees = record {
    agree = λ r r' vs h.
        let ((body, r₁), given, rest) = bind-inv (bytes r) _ (vs, r') h in
        let (ws, looped, same) =
          bind-inv (packed_loop read (length body) (new_reader body) dst) _ (vs, r') rest in
        bind_on _ _ (body, in_lenient r₁) _ (bytes-Lawful.agrees.agree r r₁ body given)
          (bind_on _ _ ws _ looped (relaxed (ws, r₁) (vs, r') same));
  };
}
packed-Lawful read dst wire_i64 lawful = record {
  advance = λ r r' vs h. absurd (ground arith);
  agrees = record { agree = λ r r' vs h. absurd (ground arith) };
}
packed-Lawful read dst wire_i32 lawful = record {
  advance = λ r r' vs h. absurd (ground arith);
  agrees = record { agree = λ r r' vs h. absurd (ground arith) };
}

fixed-agrees :
    (n : ℕ) (r r' : Reader) → fixed n r ≡ some r' → fixed n (in_lenient r) ≡ some (in_lenient r')
unfolding fixed
fixed-agrees n r r' h =
    let far = ltb (length r.buf) (r.at + n) in
    let moved : Reader = record r { at = r.at + n } in
    rw (unless-false far _ r' h)
      (ap (λ x. some (in_lenient x)) (some-eq moved r' (unless far _ r' h)))

skip-agrees :
    (wire : WireType) (r r' : Reader)
    → skip wire r ≡ some r'
    → skip wire (in_lenient r) ≡ some (in_lenient r')
unfolding skip
skip-agrees wire_varint r r' h =
    let ((v, r₁), read, same) = bind-inv (varint r) _ r' h in
    bind_on _ _ (v, in_lenient r₁) _ (varint-Lawful.agrees.agree r r₁ v read)
      (ap (λ x. some (in_lenient x)) (some-eq r₁ r' same))
skip-agrees wire_i64 r r' h = fixed-agrees 8 r r' h
skip-agrees wire_bytes r r' h =
    let ((b, r₁), read, same) = bind-inv (bytes r) _ r' h in
    bind_on _ _ (b, in_lenient r₁) _ (bytes-Lawful.agrees.agree r r₁ b read)
      (ap (λ x. some (in_lenient x)) (some-eq r₁ r' same))
skip-agrees wire_i32 r r' h = fixed-agrees 4 r r' h

-- An unknown field, where it is skipped.
pub unknown-Advances : (wire : WireType) (r r' : Reader) → unknown wire r ≡ some r' → Advances r r'
unfolding unknown
unknown-Advances wire r r' h = skip-Advances wire r r' (unless (not r.lenient) _ r' h)

pub unknown-agrees :
    (wire : WireType) (r r' : Reader)
    → unknown wire r ≡ some r'
    → unknown wire (in_lenient r) ≡ some (in_lenient r')
unfolding unknown
unknown-agrees wire r r' h = skip-agrees wire r r' (unless (not r.lenient) _ r' h)
