-- ===== src/Tests/Decodes.antt =====
-- The round trip of a dispatcher, and the decoder's loop as a relation, on concrete messages.
use mathlib.Core.Path.{subst}
use mathlib.Core.List.{Memᴰ}
use entid_go.Prelude.{◌≡◌, refl, sym, true, false, [], ◌∷◌, none, some, arith, codes, some-eq}
use entid_go.Utf8.{valid_string}
use entid_go.Wire.{Reader, done, new_reader}
use entid_go.Gen.Model.{Bundle, CountryAlias, DispatchTarget, IdentifierDispatcher}
use entid_go.Gen.Decode.{switch, decode}
use entid_go.Gen.Decode.Messages.{decode_dispatcher}
use entid_go.Gen.Decode.Bundles.{bundle_fields, no_bundle}
use entid_go.Gen.Decode.Encoding.{encode_dispatcher}
use entid_go.Gen.Decode.Encoding.Targets.{AliasFits, TargetFits}
use entid_go.Gen.Decode.Encoding.RoundTrip.{DispatcherFits, decode_dispatcher-encode}

-- A format version, and a capability.
abbrev small : Reader
small = new_reader (0x08 ∷ 0x01 ∷ 0x18 ∷ 0x07 ∷ [])

abbrev small_bundle : Bundle
small_bundle = record no_bundle { format_version = 1; required_feature_ids = 7 ∷ [] }

small_decoded :
    decode (switch bundle_fields) no_bundle small ≡ some (small_bundle, record small { at = 4 })
unfolding decode entid_go.Wire.next entid_go.Wire.varint entid_go.Wire.varint_loop switch
    bundle_fields entid_go.Gen.Decode.on_wire entid_go.Gen.Decode.marked entid_go.Wire.mark
    entid_go.Gen.Decode.store entid_go.Wire.u32 entid_go.Gen.Decode.packed_field
    entid_go.Wire.packed
small_decoded = refl

-- The same field twice.
repeated_refused :
    decode (switch bundle_fields) no_bundle (new_reader (0x08 ∷ 0x01 ∷ 0x08 ∷ 0x01 ∷ [])) ≡ none
unfolding decode entid_go.Wire.next entid_go.Wire.varint entid_go.Wire.varint_loop switch
    bundle_fields entid_go.Gen.Decode.on_wire entid_go.Gen.Decode.marked entid_go.Wire.mark
    entid_go.Gen.Decode.store entid_go.Wire.u32
repeated_refused = refl

abbrev greece : CountryAlias
greece = record { alias = codes "EL"; country_code = codes "GR" }

abbrev target : DispatchTarget
target = record {
  country_code = some (codes "GR");
  accepted_prefixes = codes "EL" ∷ [];
  canonical_prefix = none;
  definition_id = 300;
  unprefixed = true;
}

abbrev dispatcher : IdentifierDispatcher
dispatcher = record {
  kind = codes "vat";
  kind_aliases = codes "tva" ∷ [];
  pre_canonicalization_program = 1;
  country_aliases = greece ∷ [];
  targets = target ∷ [];
}

abbrev encoded : Reader
encoded = record {
  buf =
      0x0a ∷ 0x03 ∷ 0x76 ∷ 0x61 ∷ 0x74 ∷ 0x12 ∷ 0x03 ∷ 0x74 ∷ 0x76 ∷ 0x61 ∷ 0x18 ∷ 0x01 ∷ 0x22
      ∷ 0x08 ∷ 0x0a ∷ 0x02 ∷ 0x45 ∷ 0x4c ∷ 0x12 ∷ 0x02 ∷ 0x47 ∷ 0x52 ∷ 0x2a ∷ 0x0d ∷ 0x0a ∷ 0x02
      ∷ 0x47 ∷ 0x52 ∷ 0x12 ∷ 0x02 ∷ 0x45 ∷ 0x4c ∷ 0x20 ∷ 0xac ∷ 0x02 ∷ 0x28 ∷ 0x01 ∷ [];
  at = 0;
  depth = 1;
  lenient = false;
}

encoding : encoded.buf ≡ encode_dispatcher dispatcher
unfolding encode_dispatcher entid_go.Gen.Decode.Encoding.put_text entid_go.Wire.Encoding.put_tag
    entid_go.Wire.Encoding.put_varint entid_go.Wire.Encoding.put_loop
    entid_go.Wire.Encoding.put_bytes entid_go.Gen.Decode.Encoding.put_each
    entid_go.Gen.Decode.Encoding.put_number entid_go.Gen.Decode.Encoding.encode_country_alias
    entid_go.Gen.Decode.Encoding.encode_target entid_go.Gen.Decode.Encoding.put_option
encoding = refl

sole {ℓ κ} : {A : Type ℓ} (P : A → Type κ) (a : A) → P a → (b : A) → Memᴰ b (a ∷ []) → P b
sole P a p b (Memᴰ.head same) = subst P (sym same) p
sole P a p b (Memᴰ.tail m) = elim m [ ]

codes_valid :
    (valid_string (codes "vat") ≡ true)
    × (valid_string (codes "tva") ≡ true)
    × (valid_string (codes "EL") ≡ true)
    × (valid_string (codes "GR") ≡ true)
unfolding valid_string entid_go.Utf8.decode_rune
codes_valid = (refl, refl, refl, refl)

dispatcher-Fits : DispatcherFits dispatcher
dispatcher-Fits =
    let (vat, tva, el, gr) = codes_valid in
    record {
      kind_valid = vat;
      aliases_valid = sole _ (codes "tva") tva;
      program_small = omega arith;
      countries_fit = sole AliasFits greece (record { alias_valid = el; country_valid = gr });
      targets_fit = sole TargetFits target (record {
        country_valid =
            λ b same. subst (λ x. valid_string x ≡ true) (some-eq (codes "GR") b same) gr;
        prefixes_valid = sole _ (codes "EL") el;
        canonical_valid = λ b same. absurd (ground arith);
        definition_small = omega arith;
      });
    }

decode_dispatcher-encode_example :
    (end : Reader) × (done end ≡ true) × (decode_dispatcher encoded ≡ some (dispatcher, end))
decode_dispatcher-encode_example =
    decode_dispatcher-encode dispatcher encoded dispatcher-Fits (omega arith) (omega arith)
      (omega arith) encoding
