-- ===== src/Gen/Decode/Programs.antt =====
-- internal/gen/decode.go: the decoders of the programs and the messages in them.
use entid_go.Prelude.{
  ℕ, ◌+◌, ◌==◌, not, List, [], ◌∷◌, ◌++◌, Option, none, some, leb, ◌>>=◌, if◌then◌else◌, length,
}
use entid_go.Wire.{Reader, wire_varint, wire_bytes, text, u32, enum, message}
use entid_go.Gen.Limits.{max_nodes_per_program}
use entid_go.Gen.Model.{Program, Capture, Node, no_node}
use entid_go.Gen.Decode.{
  Field, on_wire, marked, update, store, packed_field, singular, repeated, capped, switch, decode,
}
use entid_go.Gen.Decode.Operations.{decode_operation}

-- The field is marked before the switch, an unknown one as well.
unfoldable pub capture_fields : Field Capture
capture_fields = marked (
    switch (
      (1, on_wire wire_bytes (store text (λ c v. some (record c { name = v }))))
      ∷ (2, on_wire wire_varint (store u32 (λ c v. some (record c { node = v }))))
      ∷ []))

abbrev pub no_capture : Capture
no_capture = record { name = []; node = 0 }

unfoldable pub decode_capture : Reader → Option (Capture × Reader)
decode_capture = decode capture_fields no_capture

-- The node under construction, with the number of branches of the oneof that its body carried.
abbrev pub Counted : Type 0
Counted = Node × ℕ

unfoldable pub operation_branch : ℕ → Field Counted
operation_branch oneof = on_wire wire_bytes (
    marked (
      update (λ (n, operations) r.
        message (decode_operation oneof n) r >>= λ (n', r'). some ((n', operations + 1), r'))))

unfoldable pub node_fields : List (ℕ × Field Counted)
node_fields =
    (1, singular wire_varint enum (λ (n, operations) v. (record n { output_type = v }, operations)))
    ∷ (
      2,
      packed_field u32 (λ (n, operations). n.input_nodes)
          (capped max_nodes_per_program
            (λ (n, operations) vs. (record n { input_nodes = vs }, operations))),
    )
    ∷ (10, operation_branch 10)
    ∷ (11, operation_branch 11)
    ∷ (12, operation_branch 12)
    ∷ (13, operation_branch 13)
    ∷ (14, operation_branch 14)
    ∷ (15, operation_branch 15)
    ∷ (16, operation_branch 16)
    ∷ []

unfoldable pub decode_node : Reader → Option (Node × Reader)
decode_node r = decode (switch node_fields) (no_node, 0) r >>= λ ((n, operations), r').
    if not (operations == 1) then none else some (n, r')

-- The number of nodes is checked before a further one is read.
unfoldable pub node_field : Field Program
node_field = on_wire wire_bytes (
    update (λ p r.
      if leb max_nodes_per_program (length p.nodes)
      then none
      else message decode_node r >>= λ (n, r'). some (record p { nodes = p.nodes ++ n ∷ [] }, r')))

unfoldable pub program_fields : List (ℕ × Field Program)
program_fields =
    (1, singular wire_varint u32 (λ p v. record p { id = v }))
    ∷ (2, singular wire_varint enum (λ p v. record p { kind = v }))
    ∷ (3, node_field)
    ∷ (4, singular wire_varint u32 (λ p v. record p { root_node = v }))
    ∷ (
      5,
      repeated wire_bytes (message decode_capture)
          (λ p v. record p { captures = p.captures ++ v ∷ [] }),
    )
    ∷ (6, singular wire_varint u32 (λ p v. record p { subject_node = some v }))
    ∷ []

abbrev pub no_program : Program
no_program = record {
  id = 0;
  kind = 0;
  nodes = [];
  root_node = 0;
  captures = [];
  subject_node = none;
}

unfoldable pub decode_program : Reader → Option (Program × Reader)
decode_program = decode (switch program_fields) no_program
