-- ===== src/Wire.antt =====
-- internal/gen/protowire.go: the reader of Protobuf message bodies. An error is `none`: its text is left
-- out, and no caller goes on with the reader behind an error.
pub mod Bounds
pub mod Reads
pub mod Skips
pub mod Encoding
use entid_go.Prelude.{
  ℕ, zero, suc, ◌+◌, ◌-◌, ◌*◌, ◌/◌, ◌%◌, ◌^◌, ◌≤◌, ◌<◌, Bool, true, false, not, ◌&&◌, ◌||◌, List,
  [], ◌∷◌, ◌++◌, Option, none, some, ltb, leb, ◌==◌, if◌then◌else◌, length, drop, Bytes, slice,
}
use entid_go.Prelude.Int.{ℤ}
use entid_go.Prelude.Words.{from_u64}
use entid_go.Utf8.{valid_string}
use entid_go.Runtime.Buffer.{◌>>=◌}

pub data WireType : Type 0 where
  wire_varint wire_i64 wire_bytes wire_i32 : WireType

abbrev pub wire_of : ℕ → Option WireType
wire_of n =
    if n == 0
    then some wire_varint
    else if n == 1
    then some wire_i64
    else if n == 2
    then some wire_bytes
    else if n == 5
    then some wire_i32
    else none

abbrev pub max_decode_depth : ℕ
max_decode_depth = 16

pub record Reader : Type 0 where
  pub buf : Bytes
  pub at : ℕ
  pub depth : ℕ
  pub lenient : Bool

abbrev pub new_reader : Bytes → Reader
new_reader buf = record { buf = buf; at = 0; depth = 0; lenient = false }

abbrev pub done : Reader → Bool
done r = leb (length r.buf) r.at

-- The loop of `varint` on the bytes that are left, with the number of those read. The value is below
-- 2 ^ shift, so that the bitwise or adds; a shift of 63 takes one bit, so that nothing is cut off.
unfoldable pub varint_loop : Bytes → ℕ → ℕ → ℕ → Option (ℕ × ℕ)
varint_loop [] shift v n = none
varint_loop (b ∷ s) shift v n =
    let v' = v + b % 128 * 2 ^ shift in
    let next = varint_loop s (shift + 7) v' (n + 1) in
    if leb 64 shift
    then none
    else if shift == 63 && ltb 1 b
    then none
    else if ltb b 0x80
    then some (v', n + 1)
    else next

unfoldable pub varint : Reader → Option (ℕ × Reader)
varint r = varint_loop (drop r.at r.buf) 0 0 0 >>= λ (v, n). some (v, record r { at = r.at + n })

unfoldable pub next : Reader → Option ((ℕ × WireType) × Reader)
next r = varint r >>= λ (tag, r').
    let num = tag / 8 in
    if num == 0 || ltb (2 ^ 31 - 1) num
    then none
    else wire_of (tag % 8) >>= λ wire. some ((num, wire), r')

unfoldable pub bytes : Reader → Option (Bytes × Reader)
bytes r = varint r >>= λ (n, r').
    if ltb (length r'.buf) r'.at || ltb (length r'.buf - r'.at) n
    then none
    else some (slice r'.buf r'.at (r'.at + n), record r' { at = r'.at + n })

unfoldable pub text : Reader → Option (Bytes × Reader)
text r = bytes r >>= λ (b, r'). if not (valid_string b) then none else some (b, r')

unfoldable pub u32 : Reader → Option (ℕ × Reader)
u32 r = varint r >>= λ (v, r'). if ltb (2 ^ 32 - 1) v then none else some (v, r')

unfoldable pub i64 : Reader → Option (ℤ × Reader)
i64 r = varint r >>= λ (v, r'). some (from_u64 v, r')

unfoldable pub enum : Reader → Option (ℕ × Reader)
enum r = varint r >>= λ (v, r'). if ltb (2 ^ 31 - 1) v then none else some (v, r')

unfoldable pub boolean : Reader → Option (Bool × Reader)
boolean r = varint r >>= λ (v, r'). if ltb 1 v then none else some (v == 1, r')

-- `decode` reads the body with a reader of its own; what it writes on the way is its result.
unfoldable pub message {ℓ} :
    {A : Type ℓ} → (Reader → Option (A × Reader)) → Reader → Option (A × Reader)
message decode r = bytes r >>= λ (body, r').
    if ltb max_decode_depth (r'.depth + 1)
    then none
    else decode (record { buf = body; at = 0; depth = r'.depth + 1; lenient = r'.lenient })
      >>= λ (a, sub). if not (done sub) then none else some (a, r')

unfoldable pub fixed : ℕ → Reader → Option Reader
fixed n r = if ltb (length r.buf) (r.at + n) then none else some (record r { at = r.at + n })

unfoldable pub skip : WireType → Reader → Option Reader
skip wire_varint r = varint r >>= λ (v, r'). some r'
skip wire_i64 r = fixed 8 r
skip wire_bytes r = bytes r >>= λ (b, r'). some r'
skip wire_i32 r = fixed 4 r

unfoldable pub unknown : WireType → Reader → Option Reader
unknown wire r = if not r.lenient then none else skip wire r

-- The loop of a packed body, which reads while bytes are left; the fuel is their number.
unfoldable pub packed_loop {ℓ} :
    {A : Type ℓ} → (Reader → Option (A × Reader)) → ℕ → Reader → List A → Option (List A)
packed_loop read zero sub dst = some dst
packed_loop read (suc f) sub dst =
    if done sub then some dst else read sub >>= λ (v, sub'). packed_loop read f sub' (dst ++ v ∷ [])

-- `packedU32` and `packedI64`, which differ in the read of one element.
unfoldable pub packed {ℓ} :
    {A : Type ℓ}
    → (Reader → Option (A × Reader))
    → List A
    → WireType
    → Reader
    → Option (List A × Reader)
packed read dst wire_varint r = read r >>= λ (v, r'). some (dst ++ v ∷ [], r')
packed read dst wire_bytes r = bytes r >>= λ (body, r').
    packed_loop read (length body) (new_reader body) dst >>= λ vs. some (vs, r')
packed read dst wire_i64 r = none
packed read dst wire_i32 r = none

-- The singular fields that a message has carried: the bits that are set. A field of 64 or more has no bit.
unfoldable pub mark : List ℕ → ℕ → Option (List ℕ)
mark seen field =
    if leb 64 field then some seen else if member field seen then none else some (field ∷ seen)
  where
    member : ℕ → List ℕ → Bool
    member field [] = false
    member field (f ∷ fs) = (f == field) || member field fs
