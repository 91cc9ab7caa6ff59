-- ===== src/Engine.antt =====
-- engine.go and entid.go: dispatch, the validation pipeline, and the public calls. The generated rules
-- are a parameter, the record `Rules`, with one field for each function of rules_gen.go that is called.
pub mod Pipeline
pub mod Dispatch
pub mod Contract
pub mod Public
use entid_go.Prelude.{
  ℕ, zero, suc, ◌+◌, ◌≤◌, ◌<◌, ◌≡◌, Bool, true, false, not, ◌&&◌, ◌||◌, List, [], ◌∷◌, Option, none,
  some, ltb, leb, ◌==◌, if◌then◌else◌, length, get_or, Bytes, beq, replicate,
}
use entid_go.Utf8.{valid_string}
use entid_go.Runtime.Ascii.{trim_ascii, lower_ascii, upper_ascii}
use entid_go.Runtime.View.{is_ascii_upper}
use entid_go.Runtime.Checksum.{Outcome}
use entid_go.Runtime.Buffer.{Buf, new, str, string, modified, max_input, ◌>>=◌}
use entid_go.Result.{
  Profile, compatible, strict_current, Status, Reason, Level, Step, Report, Canonical, is_valid,
}

pub record Input : Type 0 where
  pub kind : Bytes
  pub value : Bytes
  pub country_code : Bytes
  pub profile : Profile

pub record RuleCtx : Type 0 where
  pub value : Bytes
  pub profile : Profile

pub record StepResult : Type 0 where
  pub status : Status
  pub reason : Reason
  pub key : Bytes

abbrev pub valid_step : StepResult
valid_step = record { status = Status.valid; reason = Reason.ok; key = [] }

abbrev pub invalid_step : Reason → Bytes → StepResult
invalid_step r key = record { status = Status.invalid; reason = r; key = key }

abbrev pub unsupported_step : Reason → Bytes → StepResult
unsupported_step r key = record { status = Status.unsupported; reason = r; key = key }

unfoldable pub from_outcome : Outcome → Bytes → StepResult
from_outcome Outcome.valid key = record { status = Status.valid; reason = Reason.ok; key = key }
from_outcome Outcome.invalid key = record {
  status = Status.invalid;
  reason = Reason.invalid_checksum;
  key = key;
}
from_outcome Outcome.unsupported key = record {
  status = Status.unsupported;
  reason = Reason.unsupported_checksum;
  key = key;
}

-- What the engine calls of rules_gen.go. A dispatcher and a definition are numbers, as there.
pub record Rules : Type 0 where
  pub no_dispatcher : ℕ
  pub dispatcher_of : Bytes → ℕ
  pub canonical_kind : ℕ → Bytes
  pub country_alias : ℕ → Bytes → Bytes
  pub country_target : ℕ → Bytes → Option ℕ
  pub prefix_target : ℕ → Bytes → Option ℕ
  pub global_target : ℕ → Option ℕ
  pub unprefixed_target : ℕ → Option ℕ
  pub pre_canonicalize : ℕ → Buf → Option Buf
  pub canonicalize : ℕ → Buf → RuleCtx → Option Buf
  pub definition_country : ℕ → Bytes
  pub definition_default_profile : ℕ → Profile
  pub format_rule : ℕ → RuleCtx → StepResult
  pub checksum_rule : ℕ → RuleCtx → StepResult
  pub scratch_size : ℕ
  pub left_margin : ℕ
  pub rules_version : Bytes
  pub format_version : ℕ

-- `def` and `selected` are one option here.
pub record Routed : Type 0 where
  pub kind : Bytes
  pub canonical : Bytes
  pub country : Bytes
  pub selected : Option ℕ
  pub profile : Profile
  pub status : Status
  pub reason : Reason

unfoldable pub canonical_of : Bytes → Buf → Bytes
unfolding modified string
canonical_of original w = if not (modified w) then original else string w

unfoldable pub is_country_token : Bytes → Bool
is_country_token s = length s == 2 && is_ascii_upper (get_or s 0 0) && is_ascii_upper (get_or s 1 0)

unfoldable pub not_run_after : Status → StepResult
not_run_after Status.invalid = record {
  status = Status.not_run;
  reason = Reason.not_run_format_invalid;
  key = [];
}
not_run_after _ = record {
  status = Status.not_run;
  reason = Reason.not_run_format_unsupported;
  key = [];
}

abbrev pub is_some {ℓ} : {A : Type ℓ} → Option A → Bool
is_some none = false
is_some (some a) = true

abbrev pub or_else {ℓ} : {A : Type ℓ} → Option A → Option A → Option A
or_else none o = o
or_else (some a) o = some a

abbrev pub differ : Option ℕ → Option ℕ → Bool
differ none o = false
differ (some a) none = false
differ (some a) (some b) = not (a == b)

-- What routing reports before a dispatcher resolves.
abbrev pub start : Input → Routed
start input = record {
  kind = lower_ascii (trim_ascii input.kind);
  canonical = input.value;
  country = input.country_code;
  selected = none;
  profile = [];
  status = Status.valid;
  reason = Reason.ok;
}

module _ (rules : Rules) where
  open rules use {
    no_dispatcher, dispatcher_of, canonical_kind, country_alias, country_target, prefix_target,
    global_target, unprefixed_target, pre_canonicalize, canonicalize, definition_country,
    definition_default_profile, format_rule, checksum_rule, scratch_size, left_margin,
    rules_version, format_version,
  }

  -- The closure `stop` of `routeUnder`.
  abbrev pub stop : Bytes → Routed → Buf → Status → Reason → Routed
  stop original out w status reason = record out {
    canonical = canonical_of original w;
    status = status;
    reason = reason;
  }

  -- Step 10, for the definition that the steps before it select.
  unfoldable pub select : Input → Profile → Routed → Buf → ℕ → Option Routed
  select input profile out w def = do
    let effective = if beq input.profile [] then definition_default_profile def else profile
    w' ← canonicalize def w (record { value = []; profile = effective })
    let c = definition_country def
    some (record out {
      selected = some def;
      canonical = canonical_of input.value w';
      country = if not (beq c []) then c else out.country;
    })

  -- Steps 8 and 9, on the target with the highest rank.
  unfoldable pub choose : Input → Profile → Routed → Buf → Option ℕ → Option Routed
  choose input profile out w none =
      some (stop input.value out w Status.unsupported Reason.missing_country_code)
  choose input profile out w (some def) = select input profile out w def

  -- Steps 6 and 7, and the rank of the targets for step 8, once the country is settled.
  unfoldable pub route_targets : Input → Profile → Routed → Buf → ℕ → Bytes → Option Routed
  route_targets input profile out w d country =
      let by_country = country_target d country in
      let global = global_target d in
      let by_prefix = prefix_target d (str w) in
      let picked = or_else by_country (or_else by_prefix (or_else global (unprefixed_target d))) in
      if not (beq country []) && not (is_some by_country) && not (is_some global)
      then some (stop input.value out w Status.unsupported Reason.unsupported_country)
      else if differ by_country by_prefix
      then some (stop input.value out w Status.invalid Reason.country_mismatch)
      else choose input profile out w picked

  -- Step 5: an empty token is no country, a malformed one keeps the caller's own.
  unfoldable pub route_country : Input → Profile → Routed → Buf → ℕ → Option Routed
  route_country input profile out w d =
      let raw = trim_ascii input.country_code in
      let country = country_alias d (upper_ascii raw) in
      if beq raw []
      then route_targets input profile (record out { country = [] }) w d []
      else if not (is_country_token (upper_ascii raw))
      then some (stop input.value out w Status.unsupported Reason.unsupported_country)
      else route_targets input profile (record out { country = country }) w d country

  unfoldable pub route_under : Input → Profile → Buf → Option Routed
  route_under input profile w =
      let out = start input in
      let d = dispatcher_of out.kind in
      if not (valid_string input.value)
      then some (record out { status = Status.unsupported; reason = Reason.invalid_encoding })
      else if d == no_dispatcher
      then some (record out { status = Status.unsupported; reason = Reason.unsupported_kind })
      else pre_canonicalize d w >>= λ w'.
          route_country input profile (record out { kind = canonical_kind d }) w' d

  abbrev pub resolved : Profile → Option ℕ → Profile → Profile
  resolved requested none dispatch = dispatch
  resolved requested (some def) dispatch =
      if beq requested [] then definition_default_profile def else dispatch

  unfoldable pub route : Input → Profile → Buf → Option Routed
  route input requested w = do
    let dispatch_profile = if beq requested [] then compatible else requested
    out ← route_under input dispatch_profile w
    some (record out { profile = resolved requested out.selected dispatch_profile })
