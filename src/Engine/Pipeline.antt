-- ===== src/Engine/Pipeline.antt =====
-- engine.go `evaluate`, and the public calls of entid.go.
use entid_go.Prelude.{
  ℕ, Bool, not, ◌||◌, [], Option, none, some, ltb, if◌then◌else◌, length, beq, replicate,
}
use entid_go.Runtime.Ascii.{trim_ascii, lower_ascii}
use entid_go.Runtime.Buffer.{new, max_input, ◌>>=◌}
use entid_go.Result.{
  compatible, strict_current, Status, Reason, Level, Step, Report, Canonical, is_valid,
}
use entid_go.Engine.{
  Input, StepResult, RuleCtx, Rules, Routed, route, unsupported_step, not_run_after,
}

pub data Mode : Type 0 where
  mode_canonicalize mode_validate_format mode_validate : Mode

-- The zero value of `stepResult`.
abbrev pub no_step : StepResult
no_step = record { status = Status.unspecified; reason = Reason.reason_unspecified; key = [] }

abbrev pub Evaluated : Type 0
Evaluated = Routed × StepResult × StepResult

-- The frozen profiles, and the empty one.
unfoldable pub check : Input → Bool
check input =
    beq input.profile [] || beq input.profile compatible || beq input.profile strict_current

-- The result of a public call: the error `ErrUnknownProfile` is `refused`.
pub data Answer {ℓ} (A : Type ℓ) : Type ℓ where
  refused : Answer A
  answer : A → Answer A

module _ (rules : Rules) where
  open rules use {
    format_rule, checksum_rule, scratch_size, left_margin, rules_version, format_version,
  }

  -- Steps 5 to 9, on a routed value.
  unfoldable pub run_rules : Mode → Routed → ℕ → Evaluated
  run_rules mode r def =
      let c : RuleCtx = record { value = r.canonical; profile = r.profile } in
      let format = format_rule def c in
      let not_requested : StepResult = record {
        status = Status.not_run;
        reason = Reason.not_requested;
        key = [];
      } in
      elim mode [
        | mode_canonicalize ↦ (r, no_step, no_step)
        | mode_validate_format ↦
            if not (is_valid format.status)
            then (r, format, not_run_after format.status)
            else (r, format, not_requested)
        | mode_validate ↦
            if not (is_valid format.status)
            then (r, format, not_run_after format.status)
            else (r, format, checksum_rule def c)
      ]

  -- A dispatch failure decides the format step.
  unfoldable pub finish : Mode → Routed → Option ℕ → Evaluated
  finish mode r none =
      (r, record { status = r.status; reason = r.reason; key = [] }, not_run_after r.status)
  finish mode r (some def) = run_rules mode r def

  unfoldable pub after_route : Mode → Routed → Evaluated
  after_route mode r = finish mode r r.selected

  unfoldable pub too_long : Input → Evaluated
  too_long input = (
    record {
      kind = lower_ascii (trim_ascii input.kind);
      canonical = input.value;
      country = input.country_code;
      selected = none;
      profile = if beq input.profile [] then compatible else input.profile;
      status = Status.unsupported;
      reason = Reason.input_too_long;
    },
    unsupported_step Reason.input_too_long [],
    not_run_after Status.unsupported,
  )

  unfoldable pub evaluate : Input → Mode → Option Evaluated
  evaluate input mode =
      if ltb max_input (length input.value)
      then some (too_long input)
      else route rules input input.profile (new input.value (replicate scratch_size 0) left_margin)
        >>= λ r. some (after_route mode r)

  abbrev step_of : Level → StepResult → Step
  step_of level s = record {
    level = level;
    status = s.status;
    reason = s.reason;
    message_key = s.key;
  }

  abbrev pub report_of : Input → Evaluated → Report
  report_of input (r, format, checksum) = record {
    kind = r.kind;
    input = input.value;
    canonical_value = r.canonical;
    country_code = r.country;
    profile = r.profile;
    rules_version = rules_version;
    format_version = format_version;
    format = step_of Level.level_format format;
    checksum = step_of Level.level_checksum checksum;
  }

  unfoldable pub run : Input → Mode → Option (Answer Report)
  run input mode =
      if not (check input)
      then some refused
      else evaluate input mode >>= λ e. some (answer (report_of input e))

  unfoldable pub validate_format : Input → Option (Answer Report)
  validate_format input = run input mode_validate_format

  unfoldable pub validate_checksum : Input → Option (Answer Report)
  validate_checksum input = run input mode_validate

  unfoldable pub validate : Input → Option (Answer Report)
  validate input = run input mode_validate

  abbrev pub canonical_of_routed : Input → Routed → Canonical
  canonical_of_routed input r = record {
    kind = r.kind;
    input = input.value;
    canonical_value = r.canonical;
    country_code = r.country;
    profile = r.profile;
    rules_version = rules_version;
    format_version = format_version;
    status = r.status;
    reason = r.reason;
    message_key = [];
  }

  unfoldable pub canonicalize : Input → Option (Answer Canonical)
  canonicalize input =
      if not (check input)
      then some refused
      else evaluate input mode_canonicalize >>= λ e. some (answer (canonical_of_routed input e.0))
