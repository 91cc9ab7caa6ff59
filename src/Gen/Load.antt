-- ===== src/Gen/Load.antt =====
-- internal/gen/load.go: the checks of a rule bundle. A check that can only end in ErrInvalidRuleset is a
-- Boolean, or an option where it also gives the capabilities that it saw in use (`v.use`).
pub mod Tokens
pub mod Versions
pub mod Nodes
pub mod Bounds
pub mod Expansion
pub mod Saturation
pub mod Programs
pub mod Ordered
pub mod Overflow
pub mod Accepted
pub mod Definitions
pub mod Targets
pub mod Calls
use entid_go.Prelude.{
  ℕ, Bool, true, false, not, ◌&&◌, ◌||◌, List, [], ◌∷◌, ◌++◌, Option, none, some, ltb, leb, ◌==◌,
  if◌then◌else◌, length, ◌>>=◌,
}
use entid_go.Gen.Limits.{
  member, supported_feature, supported_features, supported_format_version, feature_core_graph,
}
use entid_go.Gen.Model.{Bundle, IdentifierDispatcher}
use Tokens.{check_rules_version}
use Programs.{check_programs}
use Definitions.{check_identifiers}
use Targets.{check_dispatchers}
use Calls.{Depths, check_call_graph}

-- What `checkVersions` answers: the two refusals of the loader, or the declared capabilities.
pub data Verdict : Type 0 where
  invalid_ruleset incompatible_ruleset : Verdict
  accepted : List ℕ → Verdict

-- The loop over the required capabilities; the one before is the head of those declared.
unfoldable pub check_features : List ℕ → List ℕ → Verdict
check_features declared [] = accepted declared
check_features [] (id ∷ ids) =
    let rest = check_features (id ∷ []) ids in
    if not (supported_feature id) then incompatible_ruleset else rest
check_features (d ∷ ds) (id ∷ ids) =
    let rest = check_features (id ∷ d ∷ ds) ids in
    if leb id d
    then invalid_ruleset
    else if not (supported_feature id)
    then incompatible_ruleset
    else rest

unfoldable pub check_versions : Bundle → Verdict
unfolding check_features
check_versions b =
    if not (b.format_version == supported_format_version)
    then incompatible_ruleset
    else check_features [] b.required_feature_ids

abbrev pub pre_canonicalizers : List IdentifierDispatcher → List ℕ
pre_canonicalizers [] = []
pre_canonicalizers (d ∷ ds) = d.pre_canonicalization_program ∷ pre_canonicalizers ds

-- Check 25: every supported capability that is in use is declared.
unfoldable pub all_declared : List ℕ → List ℕ → List ℕ → Bool
all_declared used declared [] = true
all_declared used declared (id ∷ ids) =
    (not (member id used) || member id declared) && all_declared used declared ids

-- `validator.run`, checks 6 to 25. An accepted bundle gives the depths of its programs.
unfoldable pub run_checks : Bundle → List ℕ → Option Depths
unfolding all_declared
run_checks b declared =
    if not (check_rules_version b.rules_version && length b.source_digest == 32) then none else do
      fs ← check_programs (pre_canonicalizers b.dispatchers) b.programs
      gs ← check_identifiers b.programs b.identifiers
      hs ← check_dispatchers b.programs b.identifiers b.dispatchers
      black ← check_call_graph b.programs
      if all_declared (feature_core_graph ∷ (fs ++ (gs ++ hs))) declared supported_features
          then some black
          else none
