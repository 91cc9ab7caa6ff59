-- ===== src/Result.antt =====
-- result.go: profiles, statuses, reasons, and the results of the engine.
pub mod Names
use entid_go.Prelude.{ℕ, Bool, true, false, ◌&&◌, Bytes, codes}

-- `type Profile string`; the empty string is the absence of one.
abbrev pub Profile : Type 0
Profile = Bytes

abbrev pub compatible : Profile
compatible = codes "compatible"

abbrev pub strict_current : Profile
strict_current = codes "strict_current"

pub data Status : Type 0 where
  unspecified valid invalid unsupported not_run : Status

pub data Level : Type 0 where
  level_unspecified level_format level_checksum level_registry : Level

pub data Reason : Type 0 where
  reason_unspecified ok empty invalid_length invalid_characters invalid_format invalid_checksum :
      Reason
  missing_country_code country_mismatch unsupported_kind unsupported_country unsupported_format :
      Reason
  unsupported_checksum checksum_not_published not_requested not_run_format_invalid : Reason
  not_run_format_unsupported registry_not_configured incompatible_ruleset invalid_ruleset : Reason
  input_too_long invalid_encoding : Reason

unfoldable pub is_valid : Status → Bool
is_valid valid = true
is_valid _ = false

pub record Step : Type 0 where
  pub level : Level
  pub status : Status
  pub reason : Reason
  pub message_key : Bytes

pub record Report : Type 0 where
  pub kind : Bytes
  pub input : Bytes
  pub canonical_value : Bytes
  pub country_code : Bytes
  pub profile : Profile
  pub rules_version : Bytes
  pub format_version : ℕ
  pub format : Step
  pub checksum : Step

-- `Report.OK`.
unfoldable pub report_ok : Report → Bool
unfolding is_valid
report_ok r = is_valid r.format.status && is_valid r.checksum.status

pub record Canonical : Type 0 where
  pub kind : Bytes
  pub input : Bytes
  pub canonical_value : Bytes
  pub country_code : Bytes
  pub profile : Profile
  pub rules_version : Bytes
  pub format_version : ℕ
  pub status : Status
  pub reason : Reason
  pub message_key : Bytes
