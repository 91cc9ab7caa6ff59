-- ===== src/Gen/Load/Targets.antt =====
-- load.go: `checkTargets` and `checkDispatchers`, checks 19 to 23. The maps from a token to its owner are
-- kept as the tokens that have one.
pub mod Apart
use entid_go.Prelude.{
  ℕ, Bool, true, false, not, ◌&&◌, ◌||◌, List, [], ◌∷◌, Option, none, some, ◌==◌, if◌then◌else◌,
  length, Bytes, beq, less, ◌>>=◌,
}
use entid_go.Gen.Limits.{member, feature_identifier_dispatch}
use entid_go.Gen.Model.{
  Program, IdentifierDefinition, IdentifierDispatcher, DispatchTarget, CountryAlias, identifier,
  program_canonicalization, or_empty,
}
use entid_go.Gen.Load.Tokens.{valid_kind_token, valid_country_token, valid_prefix_token}
use entid_go.Gen.Load.Nodes.{is_some, ascending_strings}
use entid_go.Gen.Load.Programs.{member_string}
use entid_go.Gen.Load.Definitions.{refers}

-- `targetOrderBefore`: GLOBAL first, then by country.
unfoldable pub target_order_before : DispatchTarget → DispatchTarget → Bool
unfolding less
target_order_before a b =
    if is_some a.country_code
    then is_some b.country_code && less (or_empty a.country_code) (or_empty b.country_code)
    else is_some b.country_code

-- What the walk over the targets has seen.
pub record Seen : Type 0 where
  pub countries : List Bytes
  pub prefixes : List Bytes
  pub unprefixed : Bool

-- The prefixes of one target: well formed, ascending, and claimed by no target before.
unfoldable pub claim_prefixes : List Bytes → List Bytes → Option (List Bytes)
claim_prefixes claimed [] = some claimed
claim_prefixes claimed (p ∷ ps) =
    let ordered : Bool = elim ps [ [] ↦ true | q ∷ qs ↦ less p q ] in
    if valid_prefix_token p && ordered && not (member_string p claimed)
    then claim_prefixes (p ∷ claimed) ps
    else none

-- A target without a country, and one with it.
unfoldable pub check_target_of :
    Option Bytes → IdentifierDispatcher → Seen → DispatchTarget → Option Seen
unfolding claim_prefixes
check_target_of none d seen t =
    if length d.targets == 1
      && length t.accepted_prefixes == 0
      && not (is_some t.canonical_prefix)
      && length d.country_aliases == 0
    then some seen
    else none
check_target_of (some c) d seen t =
    if not (valid_country_token c) || member_string c seen.countries
    then none
    else claim_prefixes seen.prefixes t.accepted_prefixes >>= λ prefixes.
        if is_some t.canonical_prefix && not (valid_prefix_token (or_empty t.canonical_prefix))
        then none
        else if t.unprefixed && seen.unprefixed
        then none
        else some (record {
          countries = c ∷ seen.countries;
          prefixes = prefixes;
          unprefixed = t.unprefixed || seen.unprefixed;
        })

unfoldable pub check_target : IdentifierDispatcher → Seen → DispatchTarget → Option Seen
unfolding check_target_of
check_target d seen t = check_target_of t.country_code d seen t

abbrev target_in_order : Option DispatchTarget → DispatchTarget → Bool
target_in_order none t = true
target_in_order (some prev) t = target_order_before prev t

unfoldable pub check_each_target :
    IdentifierDispatcher → Option DispatchTarget → Seen → List DispatchTarget → Option Seen
check_each_target d prev seen [] = some seen
check_each_target d prev seen (t ∷ ts) =
    if not (target_in_order prev t)
    then none
    else check_target d seen t >>= λ seen'. check_each_target d (some t) seen' ts

unfoldable pub check_aliases : List Bytes → List CountryAlias → Bool
check_aliases countries [] = true
check_aliases countries (a ∷ rest) =
    let ordered : Bool = elim rest [ [] ↦ true | b ∷ bs ↦ less a.alias b.alias ] in
    valid_country_token a.alias
    && valid_country_token a.country_code
    && ordered
    && not (beq a.alias a.country_code)
    && not (member_string a.alias countries)
    && check_aliases countries rest

abbrev pub aliases_after : Option Seen → List CountryAlias → Bool
aliases_after none aliases = false
aliases_after (some seen) aliases = check_aliases seen.countries aliases

unfoldable pub check_targets : IdentifierDispatcher → Bool
unfolding check_aliases
check_targets d =
    let start : Seen = record { countries = []; prefixes = []; unprefixed = false } in
    not (length d.targets == 0)
    && aliases_after (check_each_target d none start d.targets) d.country_aliases

-- The tokens that dispatchers claim as kinds; a token that has an owner is refused.
unfoldable pub claim_kinds : List Bytes → List Bytes → Option (List Bytes)
claim_kinds claimed [] = some claimed
claim_kinds claimed (k ∷ ks) =
    if valid_kind_token k && not (member_string k claimed)
    then claim_kinds (k ∷ claimed) ks
    else none

unfoldable pub check_each_dispatcher : List Program → List Bytes → List IdentifierDispatcher → Bool
unfolding claim_kinds ascending_strings
check_each_dispatcher ps claimed [] = true
check_each_dispatcher ps claimed (d ∷ ds) =
    let ordered : Bool = elim ds [ [] ↦ true | e ∷ es ↦ less d.kind e.kind ] in
    ordered
    && ascending_strings d.kind_aliases
    && refers ps d.pre_canonicalization_program program_canonicalization
    && check_targets d
    && elim (claim_kinds claimed (d.kind ∷ d.kind_aliases)) [
      | none ↦ false
      | some claimed' ↦ check_each_dispatcher ps claimed' ds
    ]

abbrev same_country : Option Bytes → Option Bytes → Bool
same_country none none = true
same_country (some a) (some b) = beq a b
same_country _ _ = false

-- Check 23: the definitions that targets own, each once.
unfoldable pub own_targets :
    List IdentifierDefinition → Bytes → List ℕ → List DispatchTarget → Option (List ℕ)
own_targets defs kind owned [] = some owned
own_targets defs kind owned (t ∷ ts) = elim (identifier defs t.definition_id) [
  | none ↦ none
  | some def ↦
      let rest = own_targets defs kind (def.id ∷ owned) ts in
      if member def.id owned
        || not (beq def.kind kind)
        || not (same_country def.country_code t.country_code)
      then none
      else rest
]

unfoldable pub own_all :
    List IdentifierDefinition → List ℕ → List IdentifierDispatcher → Option (List ℕ)
unfolding own_targets
own_all defs owned [] = some owned
own_all defs owned (d ∷ ds) = own_targets defs d.kind owned d.targets >>= λ o. own_all defs o ds

unfoldable pub all_owned : List ℕ → List IdentifierDefinition → Bool
all_owned owned [] = true
all_owned owned (d ∷ ds) = member d.id owned && all_owned owned ds

unfoldable pub check_dispatchers :
    List Program → List IdentifierDefinition → List IdentifierDispatcher → Option (List ℕ)
unfolding own_all all_owned
check_dispatchers ps defs ds =
    if not (check_each_dispatcher ps [] ds)
    then none
    else own_all defs [] ds >>= λ owned.
        if all_owned owned defs
        then some (if length ds == 0 then [] else feature_identifier_dispatch ∷ [])
        else none
