-- ===== src/Tests/Steps.antt =====
-- The statements of a canonicalizer, and the workspace that is sized for it.
use mathlib.Core.Path.{subst}
use mathlib.Core.List.{Memᴰ}
use entid_go.Prelude.{
  ℕ, ◌+◌, ◌-◌, ◌≤◌, ◌≡◌, refl, sym, ap, ◌∙◌, Bool, false, List, [], ◌∷◌, Option, none, some, arith,
  Bytes, codes, length, replicate, ◌>>=◌,
}
use entid_go.Runtime.Buffer.{Buf, new, str}
use entid_go.Runtime.Buffer.Holds.{Holds}
use entid_go.Gen.Opcodes.{
  op_value, op_ascii_digits, op_require, op_assert_sequence, op_trim_whitespace,
  op_prepend_country_if_missing, op_append, op_canon_sequence,
}
use entid_go.Gen.Model.{
  Node, Program, IdentifierDefinition, DispatchTarget, IdentifierDispatcher, Bundle, no_node,
  program,
}
use entid_go.Gen.Load.{run_checks}
use entid_go.Gen.Load.Calls.{Depths}
use entid_go.Gen.Steps.Accepted.{accepted-canonicalizer}
use entid_go.Gen.Steps.{
  Statement, run, emit_steps, growth, size, size_scratch, ScratchSizing, considered,
}
use entid_go.Gen.Steps.Fits.{Leaves}
use entid_go.Gen.Steps.Sizing.{
  Reached, Settled, id_of, growth_of, size_scratch-growth, canonicalizer-succeeds,
}

abbrev pub trim_node : Node
trim_node = record no_node { output_type = 4; op = op_trim_whitespace }

abbrev country_node : Node
country_node = record no_node { output_type = 4; op = op_prepend_country_if_missing }

abbrev append_node : Node
append_node = record no_node { output_type = 4; op = op_append; text = some (codes "!") }

abbrev sequence_node : Node
sequence_node = record no_node {
  output_type = 4;
  op = op_canon_sequence;
  input_nodes = 0 ∷ 1 ∷ 2 ∷ [];
}

abbrev nodes : List Node
nodes = trim_node ∷ country_node ∷ append_node ∷ sequence_node ∷ []

abbrev pub germany : DispatchTarget
germany = record {
  country_code = some (codes "DE");
  accepted_prefixes = codes "DE" ∷ [];
  canonical_prefix = none;
  definition_id = 7;
  unprefixed = false;
}

abbrev statement : Statement
statement = Statement.w_both Statement.w_trim_whitespace (
    Statement.w_both (Statement.w_unless_prefixed (codes "DE" ∷ []) (codes "DE"))
      (Statement.w_both (Statement.w_append (codes "!")) Statement.w_nothing))

emitted : emit_steps 4 nodes (some germany) 3 ≡ some statement
unfolding emit_steps entid_go.Gen.Steps.emit_prepend_country
emitted = refl

grown : growth 4 nodes (some germany) 3 ≡ (2, 1)
unfolding growth
grown = refl

-- " 12 " with two bytes before it and one behind.
abbrev space : Buf
space = new (codes " 12 ") (replicate 7 0) 2

space-Holds : Holds space (codes " 12 ") 2 1
space-Holds = Holds.shares (record { in_input = refl; input = refl; margin = refl; room = refl })

ran : (run (λ i w. false) statement space >>= λ w. some (str w)) ≡ some (codes "DE12!")
unfolding run entid_go.Runtime.Buffer.trim_whitespace entid_go.Runtime.Buffer.trim_start
    entid_go.Utf8.runes str entid_go.Runtime.Buffer.is_whitespace_v1 entid_go.Utf8.decode_rune
    entid_go.Runtime.Buffer.load entid_go.Runtime.Buffer.has_prefix entid_go.Prelude.has_prefix
    entid_go.Runtime.Buffer.trim_end entid_go.Utf8.decode_last_rune entid_go.Runtime.Buffer.prepend
    entid_go.Runtime.Buffer.shift_left_edge entid_go.Runtime.Buffer.write_front
    entid_go.Runtime.Buffer.append
ran = refl

abbrev trimming : Program
trimming = record {
  id = 1;
  kind = 1;
  nodes =
      trim_node
      ∷ record no_node { output_type = 4; op = op_canon_sequence; input_nodes = 0 ∷ [] }
      ∷ [];
  root_node = 1;
  captures = [];
  subject_node = none;
}

abbrev pub completing : Program
completing = record {
  id = 2;
  kind = 1;
  nodes = nodes;
  root_node = 3;
  captures = [];
  subject_node = none;
}

abbrev value_node : Node
value_node = record no_node { output_type = 1; op = op_value }

abbrev digits_node : Node
digits_node = record no_node { output_type = 3; op = op_ascii_digits; input_nodes = 0 ∷ [] }

abbrev require_node : Node
require_node = record no_node {
  output_type = 5;
  op = op_require;
  input_nodes = 1 ∷ [];
  reason_code = some 4;
}

abbrev assert_node : Node
assert_node = record no_node { output_type = 5; op = op_assert_sequence; input_nodes = 2 ∷ [] }

abbrev digits : Program
digits = record {
  id = 3;
  kind = 2;
  nodes = value_node ∷ digits_node ∷ require_node ∷ assert_node ∷ [];
  root_node = 3;
  captures = [];
  subject_node = none;
}

abbrev definition : IdentifierDefinition
definition = record {
  id = 7;
  kind = codes "vat";
  country_code = some (codes "DE");
  canonicalization_program = 2;
  format_program = 3;
  checksum_program = none;
  default_profile = codes "compatible";
  sources = [];
  absent_reason = some 13;
}

abbrev dispatcher : IdentifierDispatcher
dispatcher = record {
  kind = codes "vat";
  kind_aliases = [];
  pre_canonicalization_program = 1;
  country_aliases = [];
  targets = germany ∷ [];
}

abbrev pub declared : List ℕ
declared = 30 ∷ 21 ∷ 20 ∷ 5 ∷ 3 ∷ 2 ∷ 1 ∷ []

abbrev pub bundle : Bundle
bundle = record {
  format_version = 1;
  rules_version = codes "v1";
  required_feature_ids = 1 ∷ 2 ∷ 3 ∷ 5 ∷ 20 ∷ 21 ∷ 30 ∷ [];
  source_digest = replicate 32 0;
  identifiers = definition ∷ [];
  programs = trimming ∷ completing ∷ digits ∷ [];
  dispatchers = dispatcher ∷ [];
}

abbrev pub margins : ScratchSizing
margins = record { left = 2; right = 1 }

pub sized : size_scratch bundle ≡ some margins
unfolding size_scratch entid_go.Gen.Steps.size_each program growth entid_go.Gen.Steps.target_of
sized = refl

abbrev reached : List Reached
reached = (some trimming, none) ∷ (some completing, some germany) ∷ []

considered-reached : considered bundle ≡ reached
unfolding program entid_go.Gen.Steps.target_of
considered-reached = refl

reached-Settled : Settled reached
reached-Settled c d (Memᴰ.head a) (Memᴰ.head b) e = ap growth_of a ∙ sym (ap growth_of b)
reached-Settled c d (Memᴰ.head a) (Memᴰ.tail (Memᴰ.head b)) e =
    let clash : 1 ≡ 2 = sym (ap id_of a) ∙ e ∙ ap id_of b in absurd (omega (arith, clash))
reached-Settled c d (Memᴰ.tail (Memᴰ.head a)) (Memᴰ.head b) e =
    let clash : 2 ≡ 1 = sym (ap id_of a) ∙ e ∙ ap id_of b in absurd (omega (arith, clash))
reached-Settled c d (Memᴰ.tail (Memᴰ.head a)) (Memᴰ.tail (Memᴰ.head b)) e =
    ap growth_of a ∙ sym (ap growth_of b)
reached-Settled c d (Memᴰ.head a) (Memᴰ.tail (Memᴰ.tail m)) e = elim m [ ]
reached-Settled c d (Memᴰ.tail (Memᴰ.head a)) (Memᴰ.tail (Memᴰ.tail m)) e = elim m [ ]
reached-Settled c d (Memᴰ.tail (Memᴰ.tail m)) n e = elim m [ ]

pub considered-Settled : Settled (considered bundle)
considered-Settled = subst Settled (sym considered-reached) reached-Settled

pub completing-member : Memᴰ (some completing, some germany) (considered bundle)
completing-member =
    subst (Memᴰ (some completing, some germany)) (sym considered-reached)
      (Memᴰ.tail (Memᴰ.head refl))

size_scratch-growth_example :
    ((growth_of (some completing, some germany)).0 ≤ 2)
    × ((growth_of (some completing, some germany)).1 ≤ 1)
size_scratch-growth_example =
    size_scratch-growth bundle margins (some completing, some germany) sized considered-Settled
      completing-member

canonicalizer-succeeds_example :
    Leaves
      (run (λ i w. false) statement (new (codes " 12 ") (replicate 1027 0) 2))
      (2 - (growth_of (some completing, some germany)).0)
      (1024 + 1 - 4 - (growth_of (some completing, some germany)).1)
canonicalizer-succeeds_example =
    canonicalizer-succeeds (λ i w. false) bundle margins completing (some germany) statement
      (codes " 12 ") (replicate 1027 0) sized considered-Settled completing-member emitted
      (omega arith) refl

-- The same program for a second definition, whose target completes with four bytes: it is not sized.
abbrev other : DispatchTarget
other = record germany {
  country_code = some (codes "FR");
  canonical_prefix = some (codes "FRXX");
  definition_id = 8;
}

abbrev shared : Bundle
shared = record bundle {
  identifiers = definition ∷ record definition { id = 8; country_code = some (codes "FR") } ∷ [];
  dispatchers = record dispatcher { targets = germany ∷ other ∷ [] } ∷ [];
}

shared_sized : size_scratch shared ≡ some margins
unfolding size_scratch entid_go.Gen.Steps.size_each program growth entid_go.Gen.Steps.target_of
shared_sized = refl

shared_growth : growth_of (some completing, some other) ≡ (4, 1)
unfolding growth
shared_growth = refl

abbrev pub depths : Depths
depths = (3, 1) ∷ (2, 1) ∷ (1, 1) ∷ []

pub bundle_checked : run_checks bundle declared ≡ some depths
unfolding run_checks entid_go.Gen.Load.Tokens.check_rules_version entid_go.Prelude.all
    entid_go.Gen.Load.Programs.check_programs entid_go.Gen.Load.Programs.check_each
    entid_go.Gen.Load.Programs.check_program entid_go.Gen.Load.Programs.check_nodes
    entid_go.Gen.Load.Programs.check_node entid_go.Gen.Load.Bounds.check_bounds
    entid_go.Gen.Load.Nodes.weights_within entid_go.Gen.Model.proves_invalidity
    entid_go.Gen.Load.Expansion.expansion_of entid_go.Gen.Load.Programs.check_subject
    entid_go.Gen.Load.Programs.check_captures entid_go.Gen.Load.Programs.check_categories
    entid_go.Gen.Load.Programs.check_root entid_go.Gen.Load.Definitions.check_identifiers
    entid_go.Gen.Load.Definitions.check_each_identifier entid_go.Gen.Load.Targets.check_dispatchers
    entid_go.Gen.Load.Calls.check_call_graph entid_go.Gen.Load.Calls.visit_all
    entid_go.Gen.Load.Calls.visit entid_go.Gen.Load.Calls.visit_calls
    entid_go.Gen.Load.Calls.depth_of program entid_go.Gen.Load.Targets.check_each_dispatcher
    entid_go.Gen.Load.Targets.check_each_target entid_go.Gen.Load.Targets.check_target
    entid_go.Gen.Load.Targets.check_target_of entid_go.Gen.Load.Targets.target_order_before
    entid_go.Gen.Load.Targets.check_targets entid_go.Gen.Load.Targets.claim_kinds
    entid_go.Gen.Load.Targets.claim_prefixes entid_go.Gen.Load.Targets.own_all
    entid_go.Gen.Load.Targets.own_targets entid_go.Gen.Load.Targets.all_owned
    entid_go.Gen.Load.Tokens.valid_country_token entid_go.Gen.Load.Tokens.valid_prefix_token
    entid_go.Gen.Load.Tokens.valid_kind_token entid_go.Gen.Load.Definitions.check_identifier
    entid_go.Gen.Load.Definitions.check_checksum entid_go.Gen.Load.Definitions.check_sources
    entid_go.Gen.Load.Definitions.refers entid_go.Gen.Load.Definitions.prepends
    entid_go.Gen.Load.Definitions.program_uses entid_go.Gen.Load.Definitions.uses_op
    entid_go.Prelude.less entid_go.Prelude.beq entid_go.Gen.Limits.valid_profile
    entid_go.Gen.Model.identifier entid_go.Gen.Model.absent_checksum_reason
bundle_checked = refl

accepted-canonicalizer_example :
    (st : Statement) × (emit_steps 4 nodes (some germany) 3 ≡ some st)
    × Leaves
        (run (λ i w. false) st (new (codes " 12 ") (replicate 1027 0) 2))
        (2 - (growth_of (some completing, some germany)).0)
        (1024 + 1 - 4 - (growth_of (some completing, some germany)).1)
accepted-canonicalizer_example =
    accepted-canonicalizer (λ i w. false) bundle declared depths margins completing germany
      (codes " 12 ") (replicate 1027 0) bundle_checked sized considered-Settled
      (Memᴰ.tail (Memᴰ.head refl)) refl completing-member (omega arith) refl
