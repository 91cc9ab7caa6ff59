-- ===== src/Gen/Model.antt =====
-- internal/gen/model.go: the decoded rule bundle. An enumeration is its number on the wire, so that a
-- value outside it can be stated; a field with a flag of presence is an option.
use entid_go.Prelude.{
  ℕ, ◌==◌, Bool, ◌||◌, List, [], ◌∷◌, Option, none, some, leb, if◌then◌else◌, length, get_or, Bytes,
  codes,
}
use entid_go.Prelude.Int.{ℤ}
use entid_go.Gen.Opcodes.{Opcode, op_invalid}
use entid_go.Result.Names.{reason_names}

abbrev pub value_unspecified : ℕ
value_unspecified = 0

abbrev pub value_string : ℕ
value_string = 1

abbrev pub value_integer : ℕ
value_integer = 2

abbrev pub value_boolean : ℕ
value_boolean = 3

abbrev pub value_canonicalization_step : ℕ
value_canonicalization_step = 4

abbrev pub value_assertion : ℕ
value_assertion = 5

abbrev pub value_checksum_outcome : ℕ
value_checksum_outcome = 6

abbrev pub program_canonicalization : ℕ
program_canonicalization = 1

abbrev pub program_format : ℕ
program_format = 2

abbrev pub program_checksum : ℕ
program_checksum = 3

-- `provesInvalidity`: empty, invalid length, characters or format, and country mismatch.
unfoldable pub proves_invalidity : ℕ → Bool
proves_invalidity c = c == 2 || c == 3 || c == 4 || c == 5 || c == 8

-- `absentChecksumReason`: unsupported checksum, checksum not published.
unfoldable pub absent_checksum_reason : ℕ → Bool
absent_checksum_reason c = c == 12 || c == 13

-- `ReasonCode.String`.
unfoldable pub reason_code_string : ℕ → Bytes
reason_code_string c =
    if leb (length reason_names) c then codes "unspecified" else get_or reason_names c []

abbrev pub align_left : ℕ
align_left = 1

abbrev pub align_right : ℕ
align_right = 2

abbrev pub align_cycle : ℕ
align_cycle = 3

abbrev pub mapping_digit_value : ℕ
mapping_digit_value = 1

abbrev pub mapping_alnum_base36 : ℕ
mapping_alnum_base36 = 2

abbrev pub mapping_custom_alphabet : ℕ
mapping_custom_alphabet = 3

abbrev pub tier_unspecified : ℕ
tier_unspecified = 0

abbrev pub tier_primary : ℕ
tier_primary = 1

abbrev pub tier_secondary : ℕ
tier_secondary = 2

pub record Source : Type 0 where
  pub id : Bytes
  pub url : Bytes
  pub authority : Bytes
  pub title : Bytes
  pub accessed_at : Bytes
  pub jurisdiction : Bytes
  pub language : Bytes
  pub notes : Bytes
  pub license_or_terms : Bytes
  pub archive_url : Option Bytes
  pub tier : ℕ

pub record IdentifierDefinition : Type 0 where
  pub id : ℕ
  pub kind : Bytes
  pub country_code : Option Bytes
  pub canonicalization_program : ℕ
  pub format_program : ℕ
  pub checksum_program : Option ℕ
  pub default_profile : Bytes
  pub sources : List Source
  pub absent_reason : Option ℕ

pub record CountryAlias : Type 0 where
  pub alias : Bytes
  pub country_code : Bytes

pub record DispatchTarget : Type 0 where
  pub country_code : Option Bytes
  pub accepted_prefixes : List Bytes
  pub canonical_prefix : Option Bytes
  pub definition_id : ℕ
  pub unprefixed : Bool

pub record IdentifierDispatcher : Type 0 where
  pub kind : Bytes
  pub kind_aliases : List Bytes
  pub pre_canonicalization_program : ℕ
  pub country_aliases : List CountryAlias
  pub targets : List DispatchTarget

pub record Capture : Type 0 where
  pub name : Bytes
  pub node : ℕ

pub record Node : Type 0 where
  pub output_type : ℕ
  pub input_nodes : List ℕ
  pub op : Opcode
  pub text : Option Bytes
  pub replacement : Option Bytes
  pub start : Option ℕ
  pub end : Option ℕ
  pub index : Option ℕ
  pub len : Option ℕ
  pub min_length : Option ℕ
  pub max_length : Option ℕ
  pub values : List Bytes
  pub lengths : List ℕ
  pub modulus : Option ℤ
  pub weights : List ℤ
  pub alignment : Option ℕ
  pub mapping : Option ℕ
  pub alphabet : Option Bytes
  pub remainder_values : List ℤ
  pub constant : Option ℤ
  pub reason_code : Option ℕ
  pub message_key : Option Bytes
  pub program_id : ℕ

-- The zero `Node`.
abbrev pub no_node : Node
no_node = record {
  output_type = 0;
  input_nodes = [];
  op = op_invalid;
  text = none;
  replacement = none;
  start = none;
  end = none;
  index = none;
  len = none;
  min_length = none;
  max_length = none;
  values = [];
  lengths = [];
  modulus = none;
  weights = [];
  alignment = none;
  mapping = none;
  alphabet = none;
  remainder_values = [];
  constant = none;
  reason_code = none;
  message_key = none;
  program_id = 0;
}

pub record Program : Type 0 where
  pub id : ℕ
  pub kind : ℕ
  pub nodes : List Node
  pub root_node : ℕ
  pub captures : List Capture
  pub subject_node : Option ℕ

pub record Bundle : Type 0 where
  pub format_version : ℕ
  pub rules_version : Bytes
  pub required_feature_ids : List ℕ
  pub source_digest : Bytes
  pub identifiers : List IdentifierDefinition
  pub programs : List Program
  pub dispatchers : List IdentifierDispatcher

-- The zero value of an absent field.
abbrev pub or_zero : Option ℕ → ℕ
or_zero none = 0
or_zero (some n) = n

abbrev pub or_empty : Option Bytes → Bytes
or_empty none = []
or_empty (some s) = s

-- `Bundle.Program` and `Bundle.Identifier`. The loader refuses a bundle in which an id comes twice, so
-- its maps hold what a scan finds.
unfoldable pub program : List Program → ℕ → Option Program
program [] id = none
program (p ∷ ps) id = if p.id == id then some p else program ps id

unfoldable pub identifier : List IdentifierDefinition → ℕ → Option IdentifierDefinition
identifier [] id = none
identifier (d ∷ ds) id = if d.id == id then some d else identifier ds id
