-- ===== src/Gen/Decode/Messages.antt =====
-- internal/gen/decode.go: the decoders of the definitions, the dispatchers and the messages in them.
use entid_go.Prelude.{ℕ, false, List, [], ◌∷◌, ◌++◌, Option, none, some}
use entid_go.Wire.{Reader, wire_varint, wire_bytes, text, u32, enum, boolean, message}
use entid_go.Gen.Model.{
  IdentifierDefinition, Source, IdentifierDispatcher, CountryAlias, DispatchTarget,
}
use entid_go.Gen.Decode.{Field, on_wire, marked, store, singular, repeated, switch, decode}

-- `targets` for 1 to 10; the flag of the archive's URL is its option.
unfoldable pub source_fields : List (ℕ × Field Source)
source_fields =
    (11, singular wire_varint enum (λ s v. record s { tier = v }))
    ∷ (1, singular wire_bytes text (λ s v. record s { id = v }))
    ∷ (2, singular wire_bytes text (λ s v. record s { url = v }))
    ∷ (3, singular wire_bytes text (λ s v. record s { authority = v }))
    ∷ (4, singular wire_bytes text (λ s v. record s { title = v }))
    ∷ (5, singular wire_bytes text (λ s v. record s { accessed_at = v }))
    ∷ (6, singular wire_bytes text (λ s v. record s { jurisdiction = v }))
    ∷ (7, singular wire_bytes text (λ s v. record s { language = v }))
    ∷ (8, singular wire_bytes text (λ s v. record s { notes = v }))
    ∷ (9, singular wire_bytes text (λ s v. record s { license_or_terms = v }))
    ∷ (10, singular wire_bytes text (λ s v. record s { archive_url = some v }))
    ∷ []

abbrev pub no_source : Source
no_source = record {
  id = [];
  url = [];
  authority = [];
  title = [];
  accessed_at = [];
  jurisdiction = [];
  language = [];
  notes = [];
  license_or_terms = [];
  archive_url = none;
  tier = 0;
}

unfoldable pub decode_source : Reader → Option (Source × Reader)
decode_source = decode (switch source_fields) no_source

unfoldable pub identifier_fields : List (ℕ × Field IdentifierDefinition)
identifier_fields =
    (1, singular wire_varint u32 (λ d v. record d { id = v }))
    ∷ (2, singular wire_bytes text (λ d v. record d { kind = v }))
    ∷ (3, singular wire_bytes text (λ d v. record d { country_code = some v }))
    ∷ (4, singular wire_varint u32 (λ d v. record d { canonicalization_program = v }))
    ∷ (5, singular wire_varint u32 (λ d v. record d { format_program = v }))
    ∷ (6, singular wire_varint u32 (λ d v. record d { checksum_program = some v }))
    ∷ (7, singular wire_bytes text (λ d v. record d { default_profile = v }))
    ∷ (
      8,
      repeated wire_bytes (message decode_source)
          (λ d v. record d { sources = d.sources ++ v ∷ [] }),
    )
    ∷ (9, singular wire_varint enum (λ d v. record d { absent_reason = some v }))
    ∷ []

abbrev pub no_identifier : IdentifierDefinition
no_identifier = record {
  id = 0;
  kind = [];
  country_code = none;
  canonicalization_program = 0;
  format_program = 0;
  checksum_program = none;
  default_profile = [];
  sources = [];
  absent_reason = none;
}

unfoldable pub decode_identifier : Reader → Option (IdentifierDefinition × Reader)
decode_identifier = decode (switch identifier_fields) no_identifier

-- The wire type is checked and the field marked before the switch, for an unknown field as well.
unfoldable pub country_alias_fields : Field CountryAlias
country_alias_fields = on_wire wire_bytes (
    marked (
      switch (
        (1, store text (λ a v. some (record a { alias = v })))
        ∷ (2, store text (λ a v. some (record a { country_code = v })))
        ∷ [])))

abbrev pub no_country_alias : CountryAlias
no_country_alias = record { alias = []; country_code = [] }

unfoldable pub decode_country_alias : Reader → Option (CountryAlias × Reader)
decode_country_alias = decode country_alias_fields no_country_alias

unfoldable pub target_fields : List (ℕ × Field DispatchTarget)
target_fields =
    (1, singular wire_bytes text (λ t v. record t { country_code = some v }))
    ∷ (
      2,
      repeated wire_bytes text
          (λ t v. record t { accepted_prefixes = t.accepted_prefixes ++ v ∷ [] }),
    )
    ∷ (3, singular wire_bytes text (λ t v. record t { canonical_prefix = some v }))
    ∷ (4, singular wire_varint u32 (λ t v. record t { definition_id = v }))
    ∷ (5, singular wire_varint boolean (λ t v. record t { unprefixed = v }))
    ∷ []

abbrev pub no_target : DispatchTarget
no_target = record {
  country_code = none;
  accepted_prefixes = [];
  canonical_prefix = none;
  definition_id = 0;
  unprefixed = false;
}

unfoldable pub decode_target : Reader → Option (DispatchTarget × Reader)
decode_target = decode (switch target_fields) no_target

unfoldable pub dispatcher_fields : List (ℕ × Field IdentifierDispatcher)
dispatcher_fields =
    (1, singular wire_bytes text (λ d v. record d { kind = v }))
    ∷ (2, repeated wire_bytes text (λ d v. record d { kind_aliases = d.kind_aliases ++ v ∷ [] }))
    ∷ (3, singular wire_varint u32 (λ d v. record d { pre_canonicalization_program = v }))
    ∷ (
      4,
      repeated wire_bytes (message decode_country_alias)
          (λ d v. record d { country_aliases = d.country_aliases ++ v ∷ [] }),
    )
    ∷ (
      5,
      repeated wire_bytes (message decode_target)
          (λ d v. record d { targets = d.targets ++ v ∷ [] }),
    )
    ∷ []

abbrev pub no_dispatcher : IdentifierDispatcher
no_dispatcher = record {
  kind = [];
  kind_aliases = [];
  pre_canonicalization_program = 0;
  country_aliases = [];
  targets = [];
}

unfoldable pub decode_dispatcher : Reader → Option (IdentifierDispatcher × Reader)
decode_dispatcher = decode (switch dispatcher_fields) no_dispatcher
