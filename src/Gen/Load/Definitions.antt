-- ===== src/Gen/Load/Definitions.antt =====
-- load.go: `checkIdentifiers`, checks 17 and 18.
use entid_go.Prelude.{
  ℕ, zero, suc, Bool, true, false, not, ◌&&◌, ◌||◌, List, [], ◌∷◌, ◌++◌, Option, none, some, ltb,
  ◌==◌, if◌then◌else◌, length, Bytes, beq, less, ◌>>=◌,
}
use entid_go.Gen.Limits.{
  max_identifiers, member, valid_profile, feature_profiles, feature_checksum_tristate,
  feature_provenance, feature_provenance_tier,
}
use entid_go.Gen.Model.{
  Node, Program, Source, IdentifierDefinition, program, program_canonicalization, program_format,
  program_checksum, or_empty, tier_unspecified, tier_primary, tier_secondary,
  absent_checksum_reason,
}
use entid_go.Gen.Opcodes.{
  Opcode, is_op, op_prepend_country_if_missing, op_call_format, op_call_checksum,
}
use entid_go.Gen.Load.Tokens.{valid_kind_token, valid_country_token}
use entid_go.Gen.Load.Nodes.{is_some}

-- `identifierOrderBefore`: by kind, GLOBAL first, then by country.
unfoldable pub identifier_order_before : IdentifierDefinition → IdentifierDefinition → Bool
unfolding beq less
identifier_order_before a b =
    if not (beq a.kind b.kind)
    then less a.kind b.kind
    else if is_some a.country_code
    then is_some b.country_code && less (or_empty a.country_code) (or_empty b.country_code)
    else is_some b.country_code

-- `programUses`. The fuel bounds the calls on a path. Check 16 has refused a call in every program that
-- it is asked of, so that no call is followed.
unfoldable pub uses_op : (Program → Bool) → List Program → Program → Opcode → List Node → Bool
uses_op callee_uses ps p op [] = false
uses_op callee_uses ps p op (n ∷ ns) =
    let calls = is_op n.op op_call_format || is_op n.op op_call_checksum in
    let called : Bool = elim (program ps n.program_id) [
      | none ↦ false
      | some callee ↦ not (callee.id == p.id) && callee_uses callee
    ] in
    is_op n.op op || (calls && called) || uses_op callee_uses ps p op ns

unfoldable pub program_uses : ℕ → List Program → Program → Opcode → Bool
unfolding uses_op
program_uses zero ps p op = false
program_uses (suc f) ps p op = uses_op (λ callee. program_uses f ps callee op) ps p op p.nodes

-- The programs that a definition refers to: there, and of the wanted kind.
unfoldable pub refers : List Program → ℕ → ℕ → Bool
refers ps id kind = elim (program ps id) [ none ↦ false | some p ↦ p.kind == kind ]

unfoldable pub check_sources : List Source → Option (List ℕ)
check_sources [] = some []
check_sources (s ∷ ss) =
    let ordered : Bool = elim ss [ [] ↦ true | t ∷ ts ↦ less s.id t.id ] in
    let rest = check_sources ss in
    if length s.id == 0 || not ordered
    then none
    else if s.tier == tier_unspecified
    then rest
    else if s.tier == tier_primary || s.tier == tier_secondary
    then (rest >>= λ fs. some (feature_provenance_tier ∷ fs))
    else none

-- Check 18: a checksum program, or the reason why there is none, and not both.
unfoldable pub check_checksum : List Program → IdentifierDefinition → Option (List ℕ)
unfolding refers
check_checksum ps d = elim d.checksum_program [
  | some id ↦
      if is_some d.absent_reason
      then none
      else if refers ps id program_checksum
      then some []
      else none
  | none ↦ elim d.absent_reason [
    | none ↦ none
    | some reason ↦
        if absent_checksum_reason reason then some (feature_checksum_tristate ∷ []) else none
  ]
]

abbrev in_order : Option IdentifierDefinition → IdentifierDefinition → Bool
in_order none d = true
in_order (some prev) d = identifier_order_before prev d

abbrev country_formed : Option Bytes → Bool
country_formed none = true
country_formed (some c) = valid_country_token c

unfoldable pub prepends : List Program → ℕ → Bool
prepends ps id = elim (program ps id) [
  | none ↦ false
  | some p ↦ program_uses (length ps) ps p op_prepend_country_if_missing
]

unfoldable pub check_identifier :
    List Program → List ℕ → Option IdentifierDefinition → IdentifierDefinition → Option (List ℕ)
unfolding refers valid_kind_token
check_identifier ps ids prev d =
    if d.id == 0 || member d.id ids
    then none
    else if not (
        valid_kind_token d.kind
        && country_formed d.country_code
        && in_order prev d
        && valid_profile d.default_profile)
    then none
    else if not (refers ps d.canonicalization_program program_canonicalization)
    then none
    else if not (is_some d.country_code) && prepends ps d.canonicalization_program
    then none
    else if not (refers ps d.format_program program_format)
    then none
    else check_checksum ps d >>= λ fs. check_sources d.sources >>= λ gs. some (
        feature_profiles ∷ (if length d.sources == 0 then [] else feature_provenance ∷ [])
        ++ (gs ++ fs))

unfoldable pub check_each_identifier :
    List Program
    → List ℕ
    → Option IdentifierDefinition
    → List IdentifierDefinition
    → Option (List ℕ)
check_each_identifier ps ids prev [] = some []
check_each_identifier ps ids prev (d ∷ ds) = check_identifier ps ids prev d >>= λ fs.
    check_each_identifier ps (d.id ∷ ids) (some d) ds >>= λ gs. some (fs ++ gs)

unfoldable pub check_identifiers : List Program → List IdentifierDefinition → Option (List ℕ)
check_identifiers ps ds =
    if ltb max_identifiers (length ds) then none else check_each_identifier ps [] none ds
