-- ===== src/Gen/Decode/Cases.antt =====
-- internal/gen/decode.go: the cases of every decoder, in the strict and in the lenient pass.
use entid_go.Prelude.{
  bind-inv, bind_on, provided, ℕ, ◌≡◌, ◌==◌, if◌then◌else◌, some, none, not, Option, List, ◌∷◌, [],
  ◌++◌, true, false, Bool, arith, ◌+◌,
}
use entid_go.Wire.{Reader}
use entid_go.Wire.Reads.{
  in_lenient, relaxed, guarded, Agrees, text-Lawful, enum-Lawful, u32-Lawful, i64-Lawful,
  boolean-Lawful, bytes-Lawful, message-Lawful,
}
use entid_go.Gen.Model.{Node, no_node}
use entid_go.Gen.Opcodes.{Opcode}
use entid_go.Gen.Opcodes.Tables.{find_op}
use entid_go.Gen.Decode.{Field, switch, decode}
use entid_go.Gen.Decode.Operations.{
  Operation, string_params, integer_params, predicate_params, canonicalization_params,
  assertion_params, checksum_params, call_params, operation_params, operation_field,
  operation_table, named, resolve, decode_operation,
}
use entid_go.Gen.Decode.Messages.{
  source_fields, decode_source, no_source, identifier_fields, decode_identifier, no_identifier,
  country_alias_fields, decode_country_alias, no_country_alias, target_fields, decode_target,
  no_target, dispatcher_fields, decode_dispatcher, no_dispatcher,
}
use entid_go.Gen.Decode.Programs.{
  capture_fields, node_field, decode_capture, no_capture, operation_branch, node_fields,
  decode_node, program_fields, decode_program, no_program,
}
use entid_go.Gen.Decode.Bundles.{bundle_fields, decode_bundle, no_bundle}
use entid_go.Gen.Decode.Laws.{
  LawfulField, LawfulCases, on_wire-LawfulField, marked-LawfulField, store-LawfulField,
  update-LawfulField, packed_field-LawfulField, switch-LawfulField, default, case, map-Lawful,
  unless-Lawful,
}
use entid_go.Gen.Decode.Ends.{decode-Agrees}

ruleset field_laws = (
  case, default, switch-LawfulField, on_wire-LawfulField, marked-LawfulField, store-LawfulField,
  packed_field-LawfulField, u32-Lawful, i64-Lawful, text-Lawful, enum-Lawful, boolean-Lawful,
  bytes-Lawful, message-Lawful,
)

operation_params-LawfulCases : (oneof : ℕ) → LawfulCases (operation_params oneof)
unfolding operation_params string_params integer_params predicate_params canonicalization_params
    assertion_params checksum_params call_params
operation_params-LawfulCases oneof = branch (oneof == 10) (search field_laws depth 40) (
    branch (oneof == 11) (search field_laws depth 40) (
      branch (oneof == 12) (search field_laws depth 40) (
        branch (oneof == 13) (search field_laws depth 40) (
          branch (oneof == 14) (search field_laws depth 40) (
            branch (oneof == 15) (search field_laws depth 40)
              (branch (oneof == 16) (search field_laws depth 40) default))))))
  where
    branch :
        (c : Bool) {x y : List (ℕ × Field Operation)}
        → LawfulCases x
        → LawfulCases y
        → LawfulCases (if c then x else y)
    branch true p q = p
    branch false p q = q

pub operation_field-LawfulField : (oneof : ℕ) → LawfulField (operation_field oneof)
unfolding operation_field
operation_field-LawfulField oneof =
    let params = operation_params-LawfulCases oneof in search (field_laws, params) depth 12

named-agrees :
    (m : Node) (o : Option Opcode) (r r' : Reader) (n : Node)
    → named m r o ≡ some (n, r')
    → named m (in_lenient r) o ≡ some (n, in_lenient r')
unfolding named
named-agrees m (some op) r r' n h = relaxed (record m { op = op }, r) (n, r') h
named-agrees m none r r' n h =
    relaxed (m, r) (n, r') ((provided r.lenient (some (m, r)) (n, r') h).1)

resolve-agrees :
    (oneof : ℕ) (s : Operation) (r r' : Reader) (n : Node)
    → resolve oneof s r ≡ some (n, r')
    → resolve oneof s (in_lenient r) ≡ some (n, in_lenient r')
unfolding resolve
resolve-agrees oneof (m, none) r r' n h = absurd (ground arith)
resolve-agrees oneof (m, some kind) r r' n h =
    named-agrees m (find_op (operation_table oneof) kind) r r' n h

decode_operation-Agrees : (oneof : ℕ) (n : Node) → Agrees (decode_operation oneof n)
unfolding decode_operation
decode_operation-Agrees oneof n = record {
  agree = λ r r' m h.
      let (s, read, rest) = bind-inv (decode (operation_field oneof) (n, none) r) _ (m, r') h in
      bind_on _ _ (s.0, in_lenient s.1) _
        ((decode-Agrees _ (operation_field-LawfulField oneof) (n, none)).agree r s.1 s.0 read)
        (resolve-agrees oneof s.0 s.1 r' m rest);
}

operation_branch-LawfulField : (oneof : ℕ) → LawfulField (operation_branch oneof)
unfolding operation_branch
operation_branch-LawfulField oneof = on_wire-LawfulField _ _ (
    marked-LawfulField _ (
      update-LawfulField _ λ (n, operations).
        map-Lawful _ (λ n'. (n', operations + 1))
          (message-Lawful _ (decode_operation-Agrees oneof n))))

pub source_fields-LawfulField : LawfulField (switch source_fields)
unfolding source_fields
source_fields-LawfulField = search field_laws depth 40

decode_source-Agrees : Agrees decode_source
unfolding decode_source
decode_source-Agrees = decode-Agrees _ source_fields-LawfulField no_source

pub identifier_fields-LawfulField : LawfulField (switch identifier_fields)
unfolding identifier_fields
identifier_fields-LawfulField = search (field_laws, decode_source-Agrees) depth 40

decode_identifier-Agrees : Agrees decode_identifier
unfolding decode_identifier
decode_identifier-Agrees = decode-Agrees _ identifier_fields-LawfulField no_identifier

pub country_alias_fields-LawfulField : LawfulField country_alias_fields
unfolding country_alias_fields
country_alias_fields-LawfulField = search field_laws depth 40

decode_country_alias-Agrees : Agrees decode_country_alias
unfolding decode_country_alias
decode_country_alias-Agrees = decode-Agrees _ country_alias_fields-LawfulField no_country_alias

pub target_fields-LawfulField : LawfulField (switch target_fields)
unfolding target_fields
target_fields-LawfulField = search field_laws depth 40

decode_target-Agrees : Agrees decode_target
unfolding decode_target
decode_target-Agrees = decode-Agrees _ target_fields-LawfulField no_target

pub dispatcher_fields-LawfulField : LawfulField (switch dispatcher_fields)
unfolding dispatcher_fields
dispatcher_fields-LawfulField =
    search (field_laws, decode_country_alias-Agrees, decode_target-Agrees) depth 40

decode_dispatcher-Agrees : Agrees decode_dispatcher
unfolding decode_dispatcher
decode_dispatcher-Agrees = decode-Agrees _ dispatcher_fields-LawfulField no_dispatcher

pub capture_fields-LawfulField : LawfulField capture_fields
unfolding capture_fields
capture_fields-LawfulField = search field_laws depth 40

decode_capture-Agrees : Agrees decode_capture
unfolding decode_capture
decode_capture-Agrees = decode-Agrees _ capture_fields-LawfulField no_capture

pub node_fields-LawfulField : LawfulField (switch node_fields)
unfolding node_fields
node_fields-LawfulField = search (field_laws, operation_branch-LawfulField) depth 40

decode_node-Agrees : Agrees decode_node
unfolding decode_node
decode_node-Agrees = record {
  agree = λ r r' m h.
      let (((n, operations), r₁), read, rest) =
        bind-inv (decode (switch node_fields) (no_node, 0) r) _ (m, r') h in
      bind_on _ _ ((n, operations), in_lenient r₁) _
        ((decode-Agrees _ node_fields-LawfulField (no_node, 0)).agree r r₁ (n, operations) read)
        (guarded (not (operations == 1)) (n, r₁) (m, r') rest);
}

node_field-LawfulField : LawfulField node_field
unfolding node_field
node_field-LawfulField = on_wire-LawfulField _ _ (
    update-LawfulField _ λ p. unless-Lawful _ _ (
      map-Lawful _ (λ n. record p { nodes = p.nodes ++ n ∷ [] })
        (message-Lawful _ decode_node-Agrees)))

pub program_fields-LawfulField : LawfulField (switch program_fields)
unfolding program_fields
program_fields-LawfulField =
    search (field_laws, node_field-LawfulField, decode_capture-Agrees) depth 40

decode_program-Agrees : Agrees decode_program
unfolding decode_program
decode_program-Agrees = decode-Agrees _ program_fields-LawfulField no_program

pub bundle_fields-LawfulField : LawfulField (switch bundle_fields)
unfolding bundle_fields
bundle_fields-LawfulField =
    search (field_laws, decode_identifier-Agrees, decode_program-Agrees, decode_dispatcher-Agrees)
      depth 40

-- The lenient pass gives the strict pass's bundle, wherever there is one.
pub decode_bundle-Agrees : Agrees decode_bundle
unfolding decode_bundle
decode_bundle-Agrees = decode-Agrees _ bundle_fields-LawfulField no_bundle
