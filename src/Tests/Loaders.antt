-- ===== src/Tests/Loaders.antt =====
-- The decoders and the loader on the bytes of a bundle.
use mathlib.Core.List.{Memᴰ}
use entid_go.Prelude.{
  ℕ, ◌≡◌, ◌≤◌, ◌-◌, ◌+◌, ◌↔◌, refl, false, [], ◌∷◌, ◌++◌, some, Bytes, codes, replicate, length,
  arith,
}
use entid_go.Wire.{Reader, new_reader}
use entid_go.Wire.Reads.{in_lenient}
use entid_go.Runtime.Buffer.{new}
use entid_go.Gen.Limits.{max_bundle_bytes, max_nodes_per_program}
use entid_go.Gen.Model.{Bundle}
use entid_go.Gen.Decode.{switch}
use entid_go.Gen.Decode.Operations.{operation_field}
use entid_go.Gen.Decode.Messages.{
  source_fields, identifier_fields, country_alias_fields, target_fields, dispatcher_fields,
}
use entid_go.Gen.Decode.Programs.{capture_fields, node_fields, program_fields}
use entid_go.Gen.Decode.Bundles.{decode_bundle, bundle_fields}
use entid_go.Gen.Decode.Fuel.{IsEnough, decoders-IsEnough}
use entid_go.Gen.Decode.Capped.{IsCapped}
use entid_go.Gen.Decode.Capped.Programs.{decode_bundle-IsCapped}
use entid_go.Gen.Load.{accepted, incompatible_ruleset, check_versions}
use entid_go.Gen.Loader.{load, loaded, refused_incompatible, refused_invalid}
use entid_go.Gen.Load.Versions.{LacksSupport}
use entid_go.Gen.Loader.Passes.{Accepts, load_lem, load-incompatible}
use entid_go.Gen.Loader.Safe.{load-canonicalizer}
use entid_go.Gen.Steps.{Statement, run, emit_steps}
use entid_go.Gen.Steps.Fits.{Leaves}
use entid_go.Gen.Steps.Sizing.{growth_of}
use entid_go.Tests.Steps.{
  bundle, declared, depths, bundle_checked, margins, sized, considered-Settled, completing-member,
  completing, germany, trim_node,
}

-- Field n with a body, and what it holds.
abbrev framed : ℕ → Bytes → Bytes
framed tag body = tag ∷ length body ∷ body

abbrev definition_bytes : Bytes
definition_bytes =
    0x08 ∷ 0x07 ∷ 0x12 ∷ 0x03 ∷ 0x76 ∷ 0x61 ∷ 0x74 ∷ 0x1a ∷ 0x02 ∷ 0x44 ∷ 0x45 ∷ 0x20 ∷ 0x02 ∷ 0x28
    ∷ 0x03 ∷ 0x3a ∷ 0x0a ∷ 0x63 ∷ 0x6f ∷ 0x6d ∷ 0x70 ∷ 0x61 ∷ 0x74 ∷ 0x69 ∷ 0x62 ∷ 0x6c ∷ 0x65
    ∷ 0x48 ∷ 0x0d ∷ []

abbrev trimming_bytes : Bytes
trimming_bytes =
    0x08 ∷ 0x01 ∷ 0x10 ∷ 0x01 ∷ 0x1a ∷ 0x06 ∷ 0x08 ∷ 0x04 ∷ 0x6a ∷ 0x02 ∷ 0x08 ∷ 0x02 ∷ 0x1a ∷ 0x09
    ∷ 0x08 ∷ 0x04 ∷ 0x12 ∷ 0x01 ∷ 0x00 ∷ 0x6a ∷ 0x02 ∷ 0x08 ∷ 0x01 ∷ 0x20 ∷ 0x01 ∷ []

abbrev completing_bytes : Bytes
completing_bytes =
    0x08 ∷ 0x02 ∷ 0x10 ∷ 0x01 ∷ 0x1a ∷ 0x06 ∷ 0x08 ∷ 0x04 ∷ 0x6a ∷ 0x02 ∷ 0x08 ∷ 0x02 ∷ 0x1a ∷ 0x06
    ∷ 0x08 ∷ 0x04 ∷ 0x6a ∷ 0x02 ∷ 0x08 ∷ 0x0b ∷ 0x1a ∷ 0x09 ∷ 0x08 ∷ 0x04 ∷ 0x6a ∷ 0x05 ∷ 0x08
    ∷ 0x08 ∷ 0x12 ∷ 0x01 ∷ 0x21 ∷ 0x1a ∷ 0x0b ∷ 0x08 ∷ 0x04 ∷ 0x12 ∷ 0x03 ∷ 0x00 ∷ 0x01 ∷ 0x02
    ∷ 0x6a ∷ 0x02 ∷ 0x08 ∷ 0x01 ∷ 0x20 ∷ 0x03 ∷ []

abbrev digits_bytes : Bytes
digits_bytes =
    0x08 ∷ 0x03 ∷ 0x10 ∷ 0x02 ∷ 0x1a ∷ 0x06 ∷ 0x08 ∷ 0x01 ∷ 0x52 ∷ 0x02 ∷ 0x08 ∷ 0x02 ∷ 0x1a ∷ 0x09
    ∷ 0x08 ∷ 0x03 ∷ 0x12 ∷ 0x01 ∷ 0x00 ∷ 0x62 ∷ 0x02 ∷ 0x08 ∷ 0x07 ∷ 0x1a ∷ 0x0b ∷ 0x08 ∷ 0x05
    ∷ 0x12 ∷ 0x01 ∷ 0x01 ∷ 0x72 ∷ 0x04 ∷ 0x08 ∷ 0x02 ∷ 0x10 ∷ 0x04 ∷ 0x1a ∷ 0x09 ∷ 0x08 ∷ 0x05
    ∷ 0x12 ∷ 0x01 ∷ 0x02 ∷ 0x72 ∷ 0x02 ∷ 0x08 ∷ 0x01 ∷ 0x20 ∷ 0x03 ∷ []

abbrev dispatcher_bytes : Bytes
dispatcher_bytes =
    0x0a ∷ 0x03 ∷ 0x76 ∷ 0x61 ∷ 0x74 ∷ 0x18 ∷ 0x01 ∷ 0x2a ∷ 0x0a ∷ 0x0a ∷ 0x02 ∷ 0x44 ∷ 0x45 ∷ 0x12
    ∷ 0x02 ∷ 0x44 ∷ 0x45 ∷ 0x20 ∷ 0x07 ∷ []

-- The version, and "v1".
abbrev versions : ℕ → Bytes
versions format = 0x08 ∷ format ∷ 0x12 ∷ 0x02 ∷ 0x76 ∷ 0x31 ∷ []

abbrev contents : Bytes
contents =
    framed 0x1a (1 ∷ 2 ∷ 3 ∷ 5 ∷ 20 ∷ 21 ∷ 30 ∷ [])
    ++ framed 0x22 (replicate 32 0)
    ++ framed 0x32 definition_bytes
    ++ framed 0x3a trimming_bytes
    ++ framed 0x3a completing_bytes
    ++ framed 0x3a digits_bytes
    ++ framed 0x42 dispatcher_bytes

abbrev raw : Bytes
raw = versions 1 ++ contents

raw_size : length raw ≡ 227
raw_size = refl

-- Behind the first field.
abbrev behind : Reader
behind = record (new_reader (0x08 ∷ 0x01 ∷ 0x12 ∷ 0x02 ∷ 0x76 ∷ 0x31 ∷ [])) { at = 2 }

abbrev end : Reader
end = record (new_reader raw) { at = 227 }

raw_decoded : decode_bundle (new_reader raw) ≡ some (bundle, end)
unfolding decode_bundle entid_go.Gen.Decode.decode entid_go.Gen.Decode.fields
    entid_go.Gen.Decode.switch entid_go.Gen.Decode.on_wire entid_go.Gen.Decode.marked
    entid_go.Gen.Decode.store entid_go.Gen.Decode.update entid_go.Gen.Decode.packed_field
    entid_go.Gen.Decode.unknown_field entid_go.Wire.next entid_go.Wire.varint
    entid_go.Wire.varint_loop entid_go.Wire.mark entid_go.Wire.u32 entid_go.Wire.text
    entid_go.Wire.bytes entid_go.Wire.enum entid_go.Wire.i64 entid_go.Wire.boolean
    entid_go.Wire.message entid_go.Wire.packed entid_go.Wire.packed_loop entid_go.Utf8.valid_string
    entid_go.Gen.Decode.Bundles.bundle_fields entid_go.Gen.Decode.Messages.decode_identifier
    entid_go.Gen.Decode.Messages.identifier_fields entid_go.Gen.Decode.Messages.decode_dispatcher
    entid_go.Gen.Decode.Messages.dispatcher_fields entid_go.Gen.Decode.Messages.decode_target
    entid_go.Gen.Decode.Messages.target_fields entid_go.Gen.Decode.Programs.decode_program
    entid_go.Gen.Decode.Programs.program_fields entid_go.Gen.Decode.Programs.node_field
    entid_go.Gen.Decode.Programs.decode_node entid_go.Gen.Decode.Programs.node_fields
    entid_go.Gen.Decode.Programs.operation_branch entid_go.Gen.Decode.Operations.decode_operation
    entid_go.Gen.Decode.Operations.operation_field entid_go.Gen.Decode.Operations.operation_params
    entid_go.Gen.Decode.Operations.resolve entid_go.Gen.Decode.Operations.named
    entid_go.Gen.Decode.Operations.string_params entid_go.Gen.Decode.Operations.predicate_params
    entid_go.Gen.Decode.Operations.canonicalization_params
    entid_go.Gen.Decode.Operations.assertion_params entid_go.Utf8.decode_rune
raw_decoded = refl

raw_versions : check_versions bundle ≡ accepted declared
unfolding check_versions entid_go.Gen.Load.check_features
raw_versions = refl

raw_accepted : Accepts raw bundle
raw_accepted = record {
  small = omega (arith, raw_size);
  end = end;
  decoded = raw_decoded;
  declared = declared;
  versions = raw_versions;
  depths = depths;
  checked = bundle_checked;
}

raw_loaded : load raw ≡ loaded bundle
raw_loaded = (load_lem raw bundle).1 raw_accepted

load_lem_example : (load raw ≡ loaded bundle) ↔ Accepts raw bundle
load_lem_example = load_lem raw bundle

-- A later format, with a field that is not known here.
abbrev later : Bytes
later = 0x08 ∷ 0x02 ∷ 0x98 ∷ 0x06 ∷ 0x05 ∷ []

later_incompatible : load later ≡ refused_incompatible
unfolding load decode_bundle entid_go.Gen.Decode.decode entid_go.Wire.next entid_go.Wire.varint
    entid_go.Wire.varint_loop switch bundle_fields entid_go.Gen.Decode.on_wire
    entid_go.Gen.Decode.marked entid_go.Wire.mark entid_go.Gen.Decode.store entid_go.Wire.u32
    entid_go.Wire.unknown entid_go.Wire.skip check_versions
later_incompatible = refl

-- In a country's alias the same field, of number 3 there, makes it invalid in the lenient pass as well.
abbrev later_alias : Bytes
later_alias = 0x08 ∷ 0x02 ∷ framed 0x42 (framed 0x22 (0x18 ∷ 0x05 ∷ []))

later_alias_invalid : load later_alias ≡ refused_invalid
unfolding load entid_go.Gen.Loader.scout_pass decode_bundle entid_go.Gen.Decode.decode
    entid_go.Wire.next entid_go.Wire.varint entid_go.Wire.varint_loop switch bundle_fields
    entid_go.Gen.Decode.on_wire entid_go.Gen.Decode.marked entid_go.Wire.mark
    entid_go.Gen.Decode.store entid_go.Wire.u32 entid_go.Wire.message entid_go.Wire.bytes
    entid_go.Gen.Decode.Messages.decode_dispatcher dispatcher_fields
    entid_go.Gen.Decode.Messages.decode_country_alias country_alias_fields
    entid_go.Gen.Decode.fields entid_go.Gen.Decode.update
later_alias_invalid = refl

load-incompatible_example : (load later ≡ refused_incompatible) ↔ (
    (length later ≤ max_bundle_bytes)
    × (scout : Bundle) × (end : Reader) × (decode_bundle (in_lenient (new_reader later))
        ≡ some (scout, end))
    × LacksSupport scout)
load-incompatible_example = load-incompatible later

decoders-IsEnough_example :
    IsEnough (switch bundle_fields) 10 (1 ∷ []) behind
    × IsEnough (switch identifier_fields) 10 (1 ∷ []) behind
    × IsEnough (switch source_fields) 10 (1 ∷ []) behind
    × IsEnough (switch dispatcher_fields) 10 (1 ∷ []) behind
    × IsEnough country_alias_fields 10 (1 ∷ []) behind
    × IsEnough (switch target_fields) 10 (1 ∷ []) behind
    × IsEnough (switch program_fields) 10 (1 ∷ []) behind
    × IsEnough capture_fields 10 (1 ∷ []) behind
    × IsEnough (switch node_fields) 10 (1 ∷ []) behind
    × IsEnough (operation_field 10) 10 (1 ∷ []) behind
decoders-IsEnough_example = decoders-IsEnough 10 10 behind (1 ∷ []) (omega arith)

decode_bundle-IsCapped_example :
    (length completing.nodes ≤ max_nodes_per_program) × IsCapped trim_node
decode_bundle-IsCapped_example =
    decode_bundle-IsCapped (new_reader raw) end bundle completing trim_node raw_decoded
      (Memᴰ.tail (Memᴰ.head refl)) (Memᴰ.head refl)

load-canonicalizer_example :
    (st : Statement) × (emit_steps 4 completing.nodes (some germany) 3 ≡ some st)
    × Leaves
        (run (λ i w. false) st (new (codes " 12 ") (replicate 1027 0) 2))
        (2 - (growth_of (some completing, some germany)).0)
        (1024 + 1 - 4 - (growth_of (some completing, some germany)).1)
load-canonicalizer_example =
    load-canonicalizer (λ i w. false) raw bundle margins completing germany (codes " 12 ")
      (replicate 1027 0) raw_loaded sized considered-Settled (Memᴰ.tail (Memᴰ.head refl)) refl
      completing-member (omega arith) refl
