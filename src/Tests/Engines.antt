-- ===== src/Tests/Engines.antt =====
-- engine.go and entid.go with the rules of one kind, an upper case text of twenty characters.
use entid_go.Runtime.Buffer.{max_input}
use entid_go.Prelude.{
  ◌↔◌, ◌<◌, length, ◌≡◌, refl, true, ◌&&◌, [], none, some, Bytes, codes, beq, length, replicate,
  ◌==◌, if◌then◌else◌,
}
use entid_go.Runtime.View.{value, ascii_alphanumeric}
use entid_go.Runtime.Checksum.{iso7064_mod97}
use entid_go.Runtime.Buffer.{Buf, new, uppercase_ascii, max_input}
use entid_go.Result.{Status, is_valid, Reason, compatible, report_ok}
use entid_go.Engine.{
  Input, Rules, Routed, RuleCtx, StepResult, valid_step, invalid_step, from_outcome, route,
  not_run_after,
}
use entid_go.Engine.Dispatch.{well_routed, route_lem}
use entid_go.Engine.Pipeline.{
  too_long, after_route, run_rules, run, finish, Evaluated, evaluate, mode_validate, validate,
  validate_format, canonicalize, answer, refused, check, report_of, canonical_of_routed,
}
use entid_go.Engine.Contract.{Guarded, evaluate-Guarded}
use entid_go.Engine.Public.{
  BothHold, report_ok-both, SameRouting, validate_format-validate, canonicalize-validate,
  canonicalize_too_long,
}

abbrev twenty : Bytes → StepResult
twenty s =
    if ascii_alphanumeric (value s) && length s == 20
    then valid_step
    else invalid_step Reason.invalid_format []

abbrev sample : Rules
sample = record {
  no_dispatcher = 0;
  dispatcher_of = λ kind. if beq kind (codes "lei") then 1 else 0;
  canonical_kind = λ d. codes "lei";
  country_alias = λ d c. c;
  country_target = λ d c. if beq c (codes "DE") then some 7 else none;
  prefix_target = λ d s. none;
  global_target = λ d. some 3;
  unprefixed_target = λ d. none;
  pre_canonicalize = λ d w. uppercase_ascii w;
  canonicalize = λ def w c. some w;
  definition_country = λ def. [];
  definition_default_profile = λ def. compatible;
  format_rule = λ def c. twenty c.value;
  checksum_rule = λ def c. from_outcome (iso7064_mod97 (value c.value)) [];
  scratch_size = 40;
  left_margin = 4;
  rules_version = codes "1";
  format_version = 1;
}

abbrev lei : Input
lei = record {
  kind = codes " LEI";
  value = codes "5493001kjtiigc8y1r12";
  country_code = [];
  profile = [];
}

abbrev canonical : Bytes
canonical = codes "5493001KJTIIGC8Y1R12"

abbrev routed : Routed
routed = record {
  kind = codes "lei";
  canonical = canonical;
  country = [];
  selected = some 3;
  profile = compatible;
  status = Status.valid;
  reason = Reason.ok;
}

abbrev passed : Evaluated
passed = (routed, valid_step, valid_step)

abbrev not_requested : StepResult
not_requested = record { status = Status.not_run; reason = Reason.not_requested; key = [] }

lei-routed : route sample lei [] (new lei.value (replicate 40 0) 4) ≡ some routed
unfolding route entid_go.Engine.route_under entid_go.Utf8.valid_string entid_go.Utf8.decode_rune beq
    entid_go.Runtime.Ascii.lower_ascii entid_go.Runtime.Ascii.trim_ascii uppercase_ascii
    entid_go.Runtime.Buffer.first_lower entid_go.Runtime.Buffer.str entid_go.Runtime.Buffer.load
    entid_go.Engine.route_country entid_go.Engine.route_targets entid_go.Engine.choose
    entid_go.Engine.select entid_go.Engine.canonical_of entid_go.Runtime.Buffer.upper_range
lei-routed = refl

lei_evaluated : evaluate sample lei mode_validate ≡ some passed
unfolding evaluate finish run_rules after_route is_valid iso7064_mod97 ascii_alphanumeric too_long
    from_outcome
lei_evaluated = rw lei-routed refl

lei_validated : validate sample lei ≡ some (answer (report_of sample lei passed))
unfolding validate run check beq
lei_validated = rw lei_evaluated refl

lei_format :
    validate_format sample lei
    ≡ some (answer (report_of sample lei (routed, valid_step, not_requested)))
unfolding validate_format run check beq evaluate finish run_rules after_route is_valid iso7064_mod97
    ascii_alphanumeric too_long not_run_after
lei_format = rw lei-routed refl

lei_canonicalized : canonicalize sample lei ≡ some (answer (canonical_of_routed sample lei routed))
unfolding canonicalize check beq evaluate finish run_rules after_route is_valid iso7064_mod97
    ascii_alphanumeric too_long
lei_canonicalized = rw lei-routed refl

lei_ok : report_ok (report_of sample lei passed) ≡ true
unfolding report_ok is_valid
lei_ok = refl

-- The empty profile and the two named ones pass; any other is refused.
other_profile : validate sample (record lei { profile = codes "x" }) ≡ some refused
unfolding validate run check beq
other_profile = refl

route_lem_example : well_routed (some 3) Status.valid Reason.ok ≡ true
route_lem_example = route_lem sample lei [] (new lei.value (replicate 40 0) 4) routed lei-routed

evaluate-Guarded_example : Guarded sample passed
evaluate-Guarded_example = evaluate-Guarded sample lei passed lei_evaluated

report_ok-both_example : BothHold sample lei (report_of sample lei passed)
report_ok-both_example =
    report_ok-both sample lei (report_of sample lei passed) lei_validated lei_ok

validate_format-validate_example :
    record (report_of sample lei (routed, valid_step, not_requested)) {
      checksum = (report_of sample lei passed).checksum;
    }
    ≡ report_of sample lei passed
validate_format-validate_example =
    validate_format-validate sample lei (report_of sample lei (routed, valid_step, not_requested))
      (report_of sample lei passed) lei_format lei_validated

canonicalize-validate_example :
    SameRouting sample (canonical_of_routed sample lei routed) (report_of sample lei passed)
canonicalize-validate_example =
    canonicalize-validate sample lei (canonical_of_routed sample lei routed)
      (report_of sample lei passed) lei_canonicalized lei_validated

abbrev oversized : Input
oversized = record lei { value = replicate 1025 0x41 }

oversized_canonical :
    canonicalize sample oversized
    ≡ some (answer (canonical_of_routed sample oversized (too_long sample oversized).0))
unfolding canonicalize check beq evaluate
oversized_canonical = refl

canonicalize_too_long_example :
    ((too_long sample oversized).0.reason ≡ Reason.input_too_long)
    ↔ (max_input < length oversized.value)
unfolding too_long
canonicalize_too_long_example =
    canonicalize_too_long sample oversized
      (canonical_of_routed sample oversized (too_long sample oversized).0) oversized_canonical
