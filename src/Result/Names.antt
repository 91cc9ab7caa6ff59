-- ===== src/Result/Names.antt =====
-- result.go: the names of statuses, levels and reasons.
use entid_go.Prelude.{
  ℕ, ◌≡◌, refl, sym, ap, ◌∙◌, List, [], ◌∷◌, leb, if◌then◌else◌, length, get_or, Bytes, beq, codes,
}
use entid_go.Result.{Status, Level, Reason}

unfoldable pub status_string : Status → Bytes
status_string Status.valid = codes "valid"
status_string Status.invalid = codes "invalid"
status_string Status.unsupported = codes "unsupported"
status_string Status.not_run = codes "not_run"
status_string Status.unspecified = codes "unspecified"

unfoldable pub level_string : Level → Bytes
level_string Level.level_format = codes "format"
level_string Level.level_checksum = codes "checksum"
level_string Level.level_registry = codes "registry"
level_string Level.level_unspecified = codes "unspecified"

-- The constants of `Reason`, by `iota`.
abbrev pub reason_number : Reason → ℕ
reason_number Reason.reason_unspecified = 0
reason_number Reason.ok = 1
reason_number Reason.empty = 2
reason_number Reason.invalid_length = 3
reason_number Reason.invalid_characters = 4
reason_number Reason.invalid_format = 5
reason_number Reason.invalid_checksum = 6
reason_number Reason.missing_country_code = 7
reason_number Reason.country_mismatch = 8
reason_number Reason.unsupported_kind = 9
reason_number Reason.unsupported_country = 10
reason_number Reason.unsupported_format = 11
reason_number Reason.unsupported_checksum = 12
reason_number Reason.checksum_not_published = 13
reason_number Reason.not_requested = 14
reason_number Reason.not_run_format_invalid = 15
reason_number Reason.not_run_format_unsupported = 16
reason_number Reason.registry_not_configured = 17
reason_number Reason.incompatible_ruleset = 18
reason_number Reason.invalid_ruleset = 19
reason_number Reason.input_too_long = 20
reason_number Reason.invalid_encoding = 21

abbrev pub reason_names : List Bytes
reason_names =
    codes "unspecified"
    ∷ codes "ok"
    ∷ codes "empty"
    ∷ codes "invalid_length"
    ∷ codes "invalid_characters"
    ∷ codes "invalid_format"
    ∷ codes "invalid_checksum"
    ∷ codes "missing_country_code"
    ∷ codes "country_mismatch"
    ∷ codes "unsupported_kind"
    ∷ codes "unsupported_country"
    ∷ codes "unsupported_format"
    ∷ codes "unsupported_checksum"
    ∷ codes "checksum_not_published"
    ∷ codes "not_requested"
    ∷ codes "not_run_format_invalid"
    ∷ codes "not_run_format_unsupported"
    ∷ codes "registry_not_configured"
    ∷ codes "incompatible_ruleset"
    ∷ codes "invalid_ruleset"
    ∷ codes "input_too_long"
    ∷ codes "invalid_encoding"
    ∷ []

unfoldable pub reason_string : Reason → Bytes
reason_string r =
    if leb (length reason_names) (reason_number r)
    then codes "unspecified"
    else get_or reason_names (reason_number r) []

-- A reason by its name.
named : Bytes → List Reason → Reason
unfolding reason_string beq
named name [] = Reason.reason_unspecified
named name (r ∷ rs) = if beq (reason_string r) name then r else named name rs

abbrev reasons : List Reason
reasons =
    Reason.reason_unspecified ∷ Reason.ok ∷ Reason.empty ∷ Reason.invalid_length
    ∷ Reason.invalid_characters ∷ Reason.invalid_format ∷ Reason.invalid_checksum
    ∷ Reason.missing_country_code ∷ Reason.country_mismatch ∷ Reason.unsupported_kind
    ∷ Reason.unsupported_country ∷ Reason.unsupported_format ∷ Reason.unsupported_checksum
    ∷ Reason.checksum_not_published ∷ Reason.not_requested ∷ Reason.not_run_format_invalid
    ∷ Reason.not_run_format_unsupported ∷ Reason.registry_not_configured
    ∷ Reason.incompatible_ruleset ∷ Reason.invalid_ruleset ∷ Reason.input_too_long
    ∷ Reason.invalid_encoding ∷ []

named-reason_string : (r : Reason) → named (reason_string r) reasons ≡ r
unfolding named
named-reason_string Reason.reason_unspecified = refl
named-reason_string Reason.ok = refl
named-reason_string Reason.empty = refl
named-reason_string Reason.invalid_length = refl
named-reason_string Reason.invalid_characters = refl
named-reason_string Reason.invalid_format = refl
named-reason_string Reason.invalid_checksum = refl
named-reason_string Reason.missing_country_code = refl
named-reason_string Reason.country_mismatch = refl
named-reason_string Reason.unsupported_kind = refl
named-reason_string Reason.unsupported_country = refl
named-reason_string Reason.unsupported_format = refl
named-reason_string Reason.unsupported_checksum = refl
named-reason_string Reason.checksum_not_published = refl
named-reason_string Reason.not_requested = refl
named-reason_string Reason.not_run_format_invalid = refl
named-reason_string Reason.not_run_format_unsupported = refl
named-reason_string Reason.registry_not_configured = refl
named-reason_string Reason.incompatible_ruleset = refl
named-reason_string Reason.invalid_ruleset = refl
named-reason_string Reason.input_too_long = refl
named-reason_string Reason.invalid_encoding = refl

-- No two reasons have the same name, so a printed reason tells which it was.
pub reason_string_injective : (a b : Reason) → reason_string a ≡ reason_string b → a ≡ b
reason_string_injective a b e =
    sym (named-reason_string a) ∙ ap (λ name. named name reasons) e ∙ named-reason_string b
