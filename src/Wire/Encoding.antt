-- ===== src/Wire/Encoding.antt =====
-- The Protobuf encoding that internal/gen/protowire.go reads: varints, tags, and bodies behind their length.
pub mod RoundTrip
use entid_go.Prelude.{
  ℕ, zero, suc, ◌+◌, ◌*◌, ◌/◌, ◌%◌, ltb, List, [], ◌∷◌, ◌++◌, if◌then◌else◌, length, Bytes,
}
use entid_go.Wire.{WireType, wire_varint, wire_i64, wire_bytes, wire_i32}

-- The groups of seven bits, the lowest first; ten groups hold every value below 2 ^ 64.
unfoldable pub put_loop : ℕ → ℕ → Bytes
put_loop zero v = v ∷ []
put_loop (suc f) v =
    let rest = put_loop f (v / 128) in if ltb v 128 then v ∷ [] else (128 + v % 128) ∷ rest

unfoldable pub put_varint : ℕ → Bytes
put_varint v = put_loop 9 v

abbrev pub put_wire : WireType → ℕ
put_wire wire_varint = 0
put_wire wire_i64 = 1
put_wire wire_bytes = 2
put_wire wire_i32 = 5

unfoldable pub put_tag : ℕ → WireType → Bytes
put_tag num wire = put_varint (8 * num + put_wire wire)

unfoldable pub put_bytes : Bytes → Bytes
put_bytes b = put_varint (length b) ++ b
