-- ===== src/Gen/Loader.antt =====
-- internal/gen/load.go: `Load`, the two passes of the decoder and the checks between and behind them.
pub mod Passes
pub mod Safe
use entid_go.Prelude.{
  ℕ, ltb, leb, Bool, true, false, not, List, Option, none, some, if◌then◌else◌, length, Bytes,
}
use entid_go.Wire.{Reader, done, new_reader}
use entid_go.Gen.Limits.{max_bundle_bytes}
use entid_go.Gen.Model.{Bundle}
use entid_go.Gen.Decode.Bundles.{decode_bundle}
use entid_go.Gen.Load.{
  Verdict, invalid_ruleset, incompatible_ruleset, accepted, check_versions, run_checks,
}
use entid_go.Gen.Load.Calls.{Depths}

-- What the loader answers: the bundle, or ErrInvalidRuleset, or ErrIncompatibleRuleset.
pub data Loaded : Type 0 where
  refused_invalid refused_incompatible : Loaded
  loaded : Bundle → Loaded

unfoldable pub validated : Bundle → Option Depths → Loaded
validated b none = refused_invalid
validated b (some black) = loaded b

-- Behind the strict pass: checks 6 to 25.
unfoldable pub strict_pass : List ℕ → Option (Bundle × Reader) → Loaded
unfolding validated
strict_pass declared none = refused_invalid
strict_pass declared (some (b, r)) =
    if not (done r) then refused_invalid else validated b (run_checks b declared)

-- Behind checks 3 and 4: the strict pass, check 5.
unfoldable pub declared_pass : Bytes → Verdict → Loaded
unfolding strict_pass
declared_pass raw invalid_ruleset = refused_invalid
declared_pass raw incompatible_ruleset = refused_incompatible
declared_pass raw (accepted declared) = strict_pass declared (decode_bundle (new_reader raw))

-- Behind the lenient pass: checks 3 and 4 of what it read.
unfoldable pub scout_pass : Bytes → Option (Bundle × Reader) → Loaded
unfolding declared_pass
scout_pass raw none = refused_invalid
scout_pass raw (some (scout, sr)) =
    if not (done sr) then refused_invalid else declared_pass raw (check_versions scout)

unfoldable pub load : Bytes → Loaded
unfolding scout_pass
load raw =
    if ltb max_bundle_bytes (length raw)
    then refused_invalid
    else scout_pass raw (decode_bundle (record (new_reader raw) { lenient = true }))
