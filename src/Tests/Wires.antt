-- ===== src/Tests/Wires.antt =====
-- protowire.go on concrete messages.
use entid_go.Prelude.{ℕ, ◌≡◌, refl, [], ◌∷◌, Option, none, some, codes}
use entid_go.Prelude.Int.{negsuc}
use entid_go.Wire.{
  Reader, WireType, wire_varint, wire_bytes, wire_i32, new_reader, varint, next, bytes, text, u32,
  i64, boolean, enum, message, skip, unknown, packed, packed_loop, mark, done,
}
use entid_go.Wire.Bounds.{Advances, skip-Advances}

-- Field 1, of two bytes; then a varint of two bytes.
abbrev packet : Reader
packet = new_reader (0x0a ∷ 0x02 ∷ 0x41 ∷ 0x42 ∷ 0x96 ∷ 0x01 ∷ [])

abbrev behind_tag : Reader
behind_tag = record packet { at = 1 }

abbrev behind_body : Reader
behind_body = record packet { at = 4 }

tag_read : next packet ≡ some ((1, wire_bytes), behind_tag)
unfolding next varint entid_go.Wire.varint_loop
tag_read = refl

body_read : bytes behind_tag ≡ some (codes "AB", behind_body)
unfolding bytes varint entid_go.Wire.varint_loop
body_read = refl

varint_read : u32 behind_body ≡ some (150, record packet { at = 6 })
unfolding u32 varint entid_go.Wire.varint_loop
varint_read = refl

skipped : skip wire_bytes behind_tag ≡ some behind_body
unfolding skip bytes varint entid_go.Wire.varint_loop
skipped = refl

-- The body is read to its end, by a decoder of two bytes.
abbrev decode_two : Reader → Option (ℕ × Reader)
decode_two r = some (7, record r { at = 2 })

nested : message decode_two behind_tag ≡ some (7, behind_body)
unfolding message bytes varint entid_go.Wire.varint_loop
nested = refl

truncated : varint (new_reader (0x80 ∷ [])) ≡ none
unfolding varint entid_go.Wire.varint_loop
truncated = refl

-- Minus one, in ten bytes.
minus_one :
    i64 (new_reader (0xff ∷ 0xff ∷ 0xff ∷ 0xff ∷ 0xff ∷ 0xff ∷ 0xff ∷ 0xff ∷ 0xff ∷ 0x01 ∷ []))
    ≡ some (
      negsuc 0,
      record (new_reader
          (0xff ∷ 0xff ∷ 0xff ∷ 0xff ∷ 0xff ∷ 0xff ∷ 0xff ∷ 0xff ∷ 0xff ∷ 0x01 ∷ [])) { at = 10 },
    )
unfolding i64 varint entid_go.Wire.varint_loop
minus_one = refl

packed_read :
    packed u32 (7 ∷ []) wire_bytes (new_reader (0x03 ∷ 0x01 ∷ 0x96 ∷ 0x01 ∷ []))
    ≡ some (7 ∷ 1 ∷ 150 ∷ [], record (new_reader (0x03 ∷ 0x01 ∷ 0x96 ∷ 0x01 ∷ [])) { at = 4 })
unfolding packed bytes varint entid_go.Wire.varint_loop packed_loop u32
packed_read = refl

marked_twice : mark (3 ∷ []) 3 ≡ none
unfolding mark
marked_twice = refl

skip-Advances_example : Advances behind_tag behind_body
skip-Advances_example = skip-Advances wire_bytes behind_tag behind_body skipped
