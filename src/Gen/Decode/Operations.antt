-- ===== src/Gen/Decode/Operations.antt =====
-- internal/gen/decode.go: the operation messages, `decodeOperation` and `decodeOperationParam`.
use entid_go.Prelude.{ℕ, ◌==◌, List, [], ◌∷◌, ◌++◌, Option, none, some, ◌>>=◌, if◌then◌else◌, Bytes}
use entid_go.Prelude.Int.{ℤ}
use entid_go.Wire.{Reader, wire_varint, wire_bytes, text, u32, i64, enum}
use entid_go.Gen.Limits.{max_nodes_per_program, max_weights, max_remainder_values}
use entid_go.Gen.Model.{Node}
use entid_go.Gen.Opcodes.{Opcode}
use entid_go.Gen.Opcodes.Tables.{
  find_op, string_ops, integer_ops, predicate_ops, canonicalization_ops, assertion_ops,
  checksum_ops, call_ops,
}
use entid_go.Gen.Decode.{Field, on_wire, store, packed_field, singular, capped, switch, decode}

-- `operationField`: the table of each branch of the oneof.
abbrev pub operation_table : ℕ → List (ℕ × Opcode)
operation_table oneof =
    if oneof == 10
    then string_ops
    else if oneof == 11
    then integer_ops
    else if oneof == 12
    then predicate_ops
    else if oneof == 13
    then canonicalization_ops
    else if oneof == 14
    then assertion_ops
    else if oneof == 15
    then checksum_ops
    else if oneof == 16
    then call_ops
    else []

-- The node under construction, and the kind once its field has come.
abbrev pub Operation : Type 0
Operation = Node × Option ℕ

-- The closures `str`, `u32`, `i64` and `enum`.
abbrev str_param : (Node → Bytes → Node) → Field Operation
str_param set = singular wire_bytes text (λ (n, kind) v. (set n v, kind))

abbrev u32_param : (Node → ℕ → Node) → Field Operation
u32_param set = singular wire_varint u32 (λ (n, kind) v. (set n v, kind))

abbrev i64_param : (Node → ℤ → Node) → Field Operation
i64_param set = singular wire_varint i64 (λ (n, kind) v. (set n v, kind))

abbrev enum_param : (Node → ℕ → Node) → Field Operation
enum_param set = singular wire_varint enum (λ (n, kind) v. (set n v, kind))

unfoldable pub string_params : List (ℕ × Field Operation)
string_params =
    (2, str_param (λ n v. record n { text = some v }))
    ∷ (3, u32_param (λ n v. record n { start = some v }))
    ∷ (4, u32_param (λ n v. record n { end = some v }))
    ∷ []

unfoldable pub integer_params : List (ℕ × Field Operation)
integer_params =
    (2, i64_param (λ n v. record n { modulus = some v }))
    ∷ (
      3,
      packed_field i64 (λ (n, kind). n.weights)
          (capped max_weights (λ (n, kind) vs. (record n { weights = vs }, kind))),
    )
    ∷ (4, enum_param (λ n v. record n { alignment = some v }))
    ∷ (5, enum_param (λ n v. record n { mapping = some v }))
    ∷ (
      6,
      packed_field i64 (λ (n, kind). n.remainder_values)
          (capped max_remainder_values
            (λ (n, kind) vs. (record n { remainder_values = vs }, kind))),
    )
    ∷ (7, str_param (λ n v. record n { alphabet = some v }))
    ∷ []

unfoldable pub predicate_params : List (ℕ × Field Operation)
predicate_params =
    (2, str_param (λ n v. record n { text = some v }))
    ∷ (
      3,
      on_wire wire_bytes (
          store text (λ (n, kind) v.
            capped max_nodes_per_program (λ (n, kind) vs. (record n { values = vs }, kind))
              (n, kind) (n.values ++ v ∷ []))),
    )
    ∷ (
      4,
      packed_field u32 (λ (n, kind). n.lengths)
          (capped max_nodes_per_program (λ (n, kind) vs. (record n { lengths = vs }, kind))),
    )
    ∷ (5, u32_param (λ n v. record n { len = some v }))
    ∷ (6, u32_param (λ n v. record n { min_length = some v }))
    ∷ (7, u32_param (λ n v. record n { max_length = some v }))
    ∷ (8, u32_param (λ n v. record n { index = some v }))
    ∷ (9, i64_param (λ n v. record n { constant = some v }))
    ∷ []

unfoldable pub canonicalization_params : List (ℕ × Field Operation)
canonicalization_params =
    (2, str_param (λ n v. record n { text = some v }))
    ∷ (3, str_param (λ n v. record n { replacement = some v }))
    ∷ (4, u32_param (λ n v. record n { index = some v }))
    ∷ (5, u32_param (λ n v. record n { len = some v }))
    ∷ []

unfoldable pub assertion_params : List (ℕ × Field Operation)
assertion_params =
    (2, enum_param (λ n v. record n { reason_code = some v }))
    ∷ (3, str_param (λ n v. record n { message_key = some v }))
    ∷ []

unfoldable pub checksum_params : List (ℕ × Field Operation)
checksum_params =
    (2, u32_param (λ n v. record n { index = some v }))
    ∷ (3, u32_param (λ n v. record n { start = some v }))
    ∷ (4, u32_param (λ n v. record n { end = some v }))
    ∷ (5, enum_param (λ n v. record n { reason_code = some v }))
    ∷ (6, str_param (λ n v. record n { message_key = some v }))
    ∷ (7, i64_param (λ n v. record n { constant = some v }))
    ∷ []

unfoldable pub call_params : List (ℕ × Field Operation)
call_params = (2, u32_param (λ n v. record n { program_id = v })) ∷ []

unfoldable pub operation_params : ℕ → List (ℕ × Field Operation)
operation_params oneof =
    if oneof == 10
    then string_params
    else if oneof == 11
    then integer_params
    else if oneof == 12
    then predicate_params
    else if oneof == 13
    then canonicalization_params
    else if oneof == 14
    then assertion_params
    else if oneof == 15
    then checksum_params
    else if oneof == 16
    then call_params
    else []

unfoldable pub operation_field : ℕ → Field Operation
operation_field oneof =
    switch ((1, singular wire_varint enum (λ (n, kind) v. (n, some v))) ∷ operation_params oneof)

-- The end of the decoder: the operation is resolved once the body is read, and a lenient pass leaves an
-- unknown one as it was.
unfoldable pub named : Node → Reader → Option Opcode → Option (Node × Reader)
named n r (some op) = some (record n { op = op }, r)
named n r none = if r.lenient then some (n, r) else none

unfoldable pub resolve : ℕ → Operation → Reader → Option (Node × Reader)
unfolding named
resolve oneof (n, none) r = none
resolve oneof (n, some kind) r = named n r (find_op (operation_table oneof) kind)

unfoldable pub decode_operation : ℕ → Node → Reader → Option (Node × Reader)
unfolding resolve
decode_operation oneof n r =
    decode (operation_field oneof) (n, none) r >>= λ (s, r'). resolve oneof s r'
