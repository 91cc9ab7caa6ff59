-- ===== src/Gen/Decode/Encoding/Reads.antt =====
-- internal/gen/decode.go: the reads of a field's payload, on what the encoding puts.
use entid_go.Prelude.{
  bind_on, ℕ, ◌+◌, ◌-◌, ◌^◌, ◌≤◌, ◌<◌, ◌≡◌, refl, ap, Bool, true, false, ◌++◌, Option, some, arith,
  length, if◌then◌else◌, Bytes, ltb,
}
use entid_go.Utf8.{valid_string}
use entid_go.Wire.{Reader, done, text, u32, boolean, message, max_decode_depth}
use entid_go.Wire.Encoding.{put_varint, put_bytes}
use entid_go.Wire.Encoding.RoundTrip.{ahead, forward, body-inside, varint-put, bytes-put}

-- A reader inside a slice of a size that Go can hold.
abbrev pub Inside : Reader → Type 0
Inside r = (r.at ≤ length r.buf) × (length r.buf < 2 ^ 64)

-- A read that gives `x` back from what was put for it, inside a slice, at a depth that is left.
abbrev pub ReadsBack {ℓ} : {A : Type ℓ} → (Reader → Option (A × Reader)) → ℕ → Bytes → A → Type ℓ
ReadsBack read depth payload x =
    (r : Reader) (rest : Bytes)
    → r.depth ≡ depth
    → Inside r
    → ahead r ≡ payload ++ rest
    → read r ≡ some (x, forward r (length payload))

pub text-ReadsBack : (d : ℕ) (b : Bytes) → valid_string b ≡ true → ReadsBack text d (put_bytes b) b
unfolding text
text-ReadsBack d b valid r rest deep (inside, small) h =
    bind_on _ _ _ _ (bytes-put r b rest inside small h) (rw valid refl)

pub u32-ReadsBack : (d v : ℕ) → v < 2 ^ 32 → ReadsBack u32 d (put_varint v) v
unfolding u32
u32-ReadsBack d v low r rest deep inside h =
    let fits : ltb (2 ^ 32 - 1) v ≡ false = ground (arith, low) in
    bind_on _ _ _ _ (varint-put r v rest (omega (arith, low)) h) (rw fits refl)

pub boolean-ReadsBack : (d : ℕ) (b : Bool) → ReadsBack boolean d (put_varint (if b then 1 else 0)) b
unfolding boolean
boolean-ReadsBack d true r rest deep inside h =
    bind_on _ _ _ _ (varint-put r 1 rest (omega arith) h) refl
boolean-ReadsBack d false r rest deep inside h =
    bind_on _ _ _ _ (varint-put r 0 rest (omega arith) h) refl

-- A decoder gives `x` back from its body.
abbrev pub DecodesBack {ℓ} : {A : Type ℓ} → (Reader → Option (A × Reader)) → ℕ → Bytes → A → Type ℓ
DecodesBack decode depth body x =
    (r : Reader)
    → r.depth ≡ depth
    → Inside r
    → ahead r ≡ body
    → (end : Reader) × (done end ≡ true) × (decode r ≡ some (x, end))

pub message-ReadsBack {ℓ} :
    {A : Type ℓ} (decode : Reader → Option (A × Reader)) (d : ℕ) (body : Bytes) (x : A)
    → d < max_decode_depth
    → DecodesBack decode (d + 1) body x
    → ReadsBack (message decode) d (put_bytes body) x
unfolding message
message-ReadsBack decode d body x low back r rest deep (inside, small) h =
    let r₁ = forward r (length (put_bytes body)) in
    let room : ltb max_decode_depth (r₁.depth + 1) ≡ false = ground (arith, low, deep) in
    let sub : Reader = record { buf = body; at = 0; depth = r₁.depth + 1; lenient = r₁.lenient } in
    let fits = body-inside r body rest inside h in
    let (end, finished, decoded) =
      back sub (ap (λ n. n + 1) deep) (omega arith, omega (arith, small, fits)) refl in
    bind_on _ _ _ _ (bytes-put r body rest inside small h)
      (rw room (bind_on _ _ _ _ decoded (rw finished refl)))
