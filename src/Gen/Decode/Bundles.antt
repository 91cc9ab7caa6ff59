-- ===== src/Gen/Decode/Bundles.antt =====
-- internal/gen/decode.go: the decoder of the bundle.
use entid_go.Prelude.{ℕ, List, [], ◌∷◌, ◌++◌, Option, some}
use entid_go.Wire.{Reader, wire_varint, wire_bytes, bytes, text, u32, message}
use entid_go.Gen.Model.{Bundle}
use entid_go.Gen.Decode.{Field, packed_field, singular, repeated, switch, decode}
use entid_go.Gen.Decode.Messages.{decode_identifier, decode_dispatcher}
use entid_go.Gen.Decode.Programs.{decode_program}

-- Field 5 is no longer in use, and is unknown like every other.
unfoldable pub bundle_fields : List (ℕ × Field Bundle)
bundle_fields =
    (1, singular wire_varint u32 (λ b v. record b { format_version = v }))
    ∷ (2, singular wire_bytes text (λ b v. record b { rules_version = v }))
    ∷ (
      3,
      packed_field u32 (λ b. b.required_feature_ids)
          (λ b vs. some (record b { required_feature_ids = vs })),
    )
    ∷ (4, singular wire_bytes bytes (λ b v. record b { source_digest = v }))
    ∷ (
      6,
      repeated wire_bytes (message decode_identifier)
          (λ b v. record b { identifiers = b.identifiers ++ v ∷ [] }),
    )
    ∷ (
      7,
      repeated wire_bytes (message decode_program)
          (λ b v. record b { programs = b.programs ++ v ∷ [] }),
    )
    ∷ (
      8,
      repeated wire_bytes (message decode_dispatcher)
          (λ b v. record b { dispatchers = b.dispatchers ++ v ∷ [] }),
    )
    ∷ []

abbrev pub no_bundle : Bundle
no_bundle = record {
  format_version = 0;
  rules_version = [];
  required_feature_ids = [];
  source_digest = [];
  identifiers = [];
  programs = [];
  dispatchers = [];
}

unfoldable pub decode_bundle : Reader → Option (Bundle × Reader)
decode_bundle = decode (switch bundle_fields) no_bundle
