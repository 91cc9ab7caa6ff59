-- ===== src/Gen/Decode/Encoding.antt =====
-- internal/gen/decode.go: the encoding of a dispatcher and of the messages in it, which its decoders read.
pub mod Reads
pub mod Segments
pub mod Targets
pub mod RoundTrip
use entid_go.Prelude.{ℕ, Bool, List, [], ◌∷◌, ◌++◌, Option, none, some, if◌then◌else◌, Bytes}
use entid_go.Wire.{wire_varint, wire_bytes}
use entid_go.Wire.Encoding.{put_varint, put_tag, put_bytes}
use entid_go.Gen.Model.{CountryAlias, DispatchTarget, IdentifierDispatcher}

unfoldable pub put_text : ℕ → Bytes → Bytes
put_text num b = put_tag num wire_bytes ++ put_bytes b

unfoldable pub put_number : ℕ → ℕ → Bytes
put_number num v = put_tag num wire_varint ++ put_varint v

unfoldable pub put_option : ℕ → Option Bytes → Bytes
put_option num none = []
put_option num (some b) = put_text num b

-- Each element in a field of its own.
unfoldable pub put_each {ℓ} : {A : Type ℓ} → (A → Bytes) → ℕ → List A → Bytes
put_each encode num [] = []
put_each encode num (x ∷ xs) = put_text num (encode x) ++ put_each encode num xs

unfoldable pub encode_country_alias : CountryAlias → Bytes
encode_country_alias a = put_text 1 a.alias ++ put_text 2 a.country_code

unfoldable pub encode_target : DispatchTarget → Bytes
encode_target t =
    put_option 1 t.country_code
    ++ (put_each (λ b. b) 2 t.accepted_prefixes
        ++ (put_option 3 t.canonical_prefix
            ++ (put_number 4 t.definition_id ++ put_number 5 (if t.unprefixed then 1 else 0))))

unfoldable pub encode_dispatcher : IdentifierDispatcher → Bytes
encode_dispatcher d =
    put_text 1 d.kind
    ++ (put_each (λ b. b) 2 d.kind_aliases
        ++ (put_number 3 d.pre_canonicalization_program
            ++ (put_each encode_country_alias 4 d.country_aliases
                ++ put_each encode_target 5 d.targets)))
