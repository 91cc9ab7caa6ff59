-- ===== src/Tests/Loads.antt =====
-- The loader's checks on a small bundle.
use mathlib.Core.List.{Memᴰ}
use entid_go.Prelude.{
  false, ℕ, ◌≤◌, ◌<◌, ◌≡◌, refl, true, not, ◌&&◌, List, [], ◌∷◌, none, some, arith, Bytes, codes,
  replicate, get_or, min, all, if◌then◌else◌, ◌==◌,
}
use entid_go.Prelude.Int.{pos, negsuc, leb_ℤ}
use entid_go.Runtime.View.{value}
use entid_go.Runtime.View.Prefixes.{prefix_in_sorted, some_prefix}
use entid_go.Runtime.Integer.{
  number, indeterminate, align_cycle, map_digit_value, char_value, pair_count, weighted_sum,
}
use entid_go.Runtime.Integer.Exact.{exact_sum, exact_term}
use entid_go.Gen.Limits.{max_call_depth}
use entid_go.Gen.Model.{
  DispatchTarget, IdentifierDispatcher, Node, Program, Bundle, no_node, program,
}
use entid_go.Gen.Opcodes.{
  op_value, op_ascii_digits, op_require, op_assert_sequence, op_call_format, op_weighted_sum,
}
use entid_go.Gen.Load.Programs.{member_string}
use entid_go.Gen.Load.Targets.{check_targets}
use entid_go.Gen.Load.Targets.Apart.{check_targets-prefixes}
use entid_go.Gen.Prefixes.{prefix_groups}
use entid_go.Gen.Prefixes.Scan.{prefix_in_sorted-prefix_groups}
use entid_go.Gen.Load.{run_checks}
use entid_go.Gen.Load.Calls.{Depths, depth_of, is_call}
use entid_go.Gen.Load.Expansion.{ceiling, instances}
use entid_go.Gen.Load.Overflow.{weighted_sum-checked}
use entid_go.Gen.Load.Accepted.{run_checks-ranked, run_checks-emit_steps}
use entid_go.Gen.Steps.{emit_steps, growth}
use entid_go.Gen.Expr.{
  Emitter, scope_rule, ValueKind, kind_boolean, Expr, expr, BoolExpr, b_ascii_digits, b_not,
  v_local, v_canonical, pred_expr,
}
use entid_go.Gen.Expr.Accepted.{accepted-expr}

abbrev value_node : Node
value_node = record no_node { output_type = 1; op = op_value }

abbrev digits_node : Node
digits_node = record no_node { output_type = 3; op = op_ascii_digits; input_nodes = 0 ∷ [] }

abbrev require_node : Node
require_node = record no_node {
  output_type = 5;
  op = op_require;
  input_nodes = 1 ∷ [];
  reason_code = some 4;
}

abbrev assert_node : Node
assert_node = record no_node { output_type = 5; op = op_assert_sequence; input_nodes = 2 ∷ [] }

abbrev call_node : Node
call_node = record no_node {
  output_type = 5;
  op = op_call_format;
  input_nodes = 0 ∷ [];
  program_id = 1;
}

abbrev root_node_of_call : Node
root_node_of_call = record no_node {
  output_type = 5;
  op = op_assert_sequence;
  input_nodes = 1 ∷ [];
}

abbrev digits : Program
digits = record {
  id = 1;
  kind = 2;
  nodes = value_node ∷ digits_node ∷ require_node ∷ assert_node ∷ [];
  root_node = 3;
  captures = [];
  subject_node = none;
}

-- A format that calls the other.
abbrev caller : Program
caller = record {
  id = 2;
  kind = 2;
  nodes = value_node ∷ call_node ∷ root_node_of_call ∷ [];
  root_node = 2;
  captures = [];
  subject_node = none;
}

abbrev bundle : Bundle
bundle = record {
  format_version = 1;
  rules_version = codes "v1";
  required_feature_ids = 1 ∷ 2 ∷ 11 ∷ 20 ∷ [];
  source_digest = replicate 32 0;
  identifiers = [];
  programs = digits ∷ caller ∷ [];
  dispatchers = [];
}

abbrev depths : Depths
depths = (2, 2) ∷ (1, 1) ∷ []

bundle_accepted : run_checks bundle (1 ∷ 2 ∷ 11 ∷ 20 ∷ []) ≡ some depths
unfolding run_checks entid_go.Gen.Load.Tokens.check_rules_version all
    entid_go.Gen.Load.Programs.check_programs entid_go.Gen.Load.Programs.check_each
    entid_go.Gen.Load.Programs.check_program entid_go.Gen.Load.Programs.check_nodes
    entid_go.Gen.Load.Programs.check_node entid_go.Gen.Load.Bounds.check_bounds
    entid_go.Gen.Load.Nodes.weights_within entid_go.Gen.Model.proves_invalidity
    entid_go.Gen.Load.Expansion.expansion_of entid_go.Gen.Load.Programs.check_subject
    entid_go.Gen.Load.Programs.check_captures entid_go.Gen.Load.Programs.check_categories
    entid_go.Gen.Load.Programs.check_root entid_go.Gen.Load.Definitions.check_identifiers
    entid_go.Gen.Load.Definitions.check_each_identifier entid_go.Gen.Load.Targets.check_dispatchers
    entid_go.Gen.Load.Calls.check_call_graph entid_go.Gen.Load.Calls.visit_all
    entid_go.Gen.Load.Calls.visit entid_go.Gen.Load.Calls.visit_calls depth_of program
    entid_go.Gen.Load.Targets.check_each_dispatcher
bundle_accepted = refl

-- Without the capability of calls the bundle is refused.
bundle_refused : run_checks bundle (1 ∷ 2 ∷ 20 ∷ []) ≡ none
unfolding run_checks entid_go.Gen.Load.Tokens.check_rules_version all
    entid_go.Gen.Load.Programs.check_programs entid_go.Gen.Load.Programs.check_each
    entid_go.Gen.Load.Programs.check_program entid_go.Gen.Load.Programs.check_nodes
    entid_go.Gen.Load.Programs.check_node entid_go.Gen.Load.Bounds.check_bounds
    entid_go.Gen.Load.Nodes.weights_within entid_go.Gen.Model.proves_invalidity
    entid_go.Gen.Load.Expansion.expansion_of entid_go.Gen.Load.Programs.check_subject
    entid_go.Gen.Load.Programs.check_captures entid_go.Gen.Load.Programs.check_categories
    entid_go.Gen.Load.Programs.check_root entid_go.Gen.Load.Definitions.check_identifiers
    entid_go.Gen.Load.Definitions.check_each_identifier entid_go.Gen.Load.Targets.check_dispatchers
    entid_go.Gen.Load.Calls.check_call_graph entid_go.Gen.Load.Calls.visit_all
    entid_go.Gen.Load.Calls.visit entid_go.Gen.Load.Calls.visit_calls depth_of program
    entid_go.Gen.Load.Targets.check_each_dispatcher
bundle_refused = refl

caller-member : Memᴰ caller bundle.programs
caller-member = Memᴰ.tail (Memᴰ.head refl)

run_checks-ranked_example :
    (q : Program) × (d : ℕ) × (e : ℕ) × (program bundle.programs 1 ≡ some q)
    × (q.kind ≡ caller.kind)
    × (depth_of depths 2 ≡ some d)
    × (depth_of depths 1 ≡ some e)
    × (e < d)
    × (d ≤ max_call_depth)
run_checks-ranked_example =
    run_checks-ranked bundle (1 ∷ 2 ∷ 11 ∷ 20 ∷ []) depths caller call_node bundle_accepted
      caller-member (Memᴰ.tail (Memᴰ.head refl)) refl

run_checks-emit_steps_example :
    (emit_steps 9 caller.nodes none 2 ≡ emit_steps 3 caller.nodes none 2)
    × (growth 9 caller.nodes none 2 ≡ growth 3 caller.nodes none 2)
run_checks-emit_steps_example =
    run_checks-emit_steps bundle (1 ∷ 2 ∷ 11 ∷ 20 ∷ []) depths caller none 9 2 bundle_accepted
      caller-member (omega arith) (omega arith)

four : get_or (instances digits.nodes) 3 0 ≡ 4
unfolding instances
four = refl

abbrev sum_node : Node
sum_node = record no_node {
  op = op_weighted_sum;
  weights = pos 3 ∷ negsuc 0 ∷ [];
  alignment = some 3;
  mapping = some 1;
}

sum_node_checked : entid_go.Gen.Load.Nodes.check_weighted_sum_overflow sum_node (some 12) ≡ true
unfolding entid_go.Gen.Load.Nodes.check_weighted_sum_overflow
sum_node_checked = refl

sum_pairs : 3 ≤ entid_go.Gen.Load.Nodes.loader_pairs sum_node (some 12)
unfolding entid_go.Gen.Load.Nodes.loader_pairs
sum_pairs = omega arith

weighted_sum-checked_example :
    weighted_sum (value (codes "129")) sum_node.weights align_cycle map_digit_value ≡ (
      if true
        && not (3 == 0)
        && all (λ b. leb_ℤ (pos 0) (char_value map_digit_value b)) (codes "129")
      then number (
          exact_sum
            (pair_count align_cycle 3 2)
            0
            (exact_term align_cycle (char_value map_digit_value) (codes "129") sum_node.weights)
            (pos 0))
      else indeterminate)
weighted_sum-checked_example =
    weighted_sum-checked sum_node (some 12) (value (codes "129")) align_cycle map_digit_value
      sum_node_checked refl refl (λ e. sum_pairs)

abbrev countries : List Bytes
countries = codes "DE" ∷ codes "FR" ∷ codes "NOR" ∷ []

countries_ascending : entid_go.Gen.Load.Nodes.ascending_strings countries ≡ true
unfolding entid_go.Gen.Load.Nodes.ascending_strings
countries_ascending = refl

prefix_in_sorted-prefix_groups_example :
    prefix_in_sorted (value (codes "NOR12")) (prefix_groups countries)
    ≡ (true && some_prefix (codes "NOR12") countries)
prefix_in_sorted-prefix_groups_example =
    prefix_in_sorted-prefix_groups (value (codes "NOR12")) countries countries_ascending

abbrev target : Bytes → List Bytes → DispatchTarget
target country prefixes = record {
  country_code = some country;
  accepted_prefixes = prefixes;
  canonical_prefix = none;
  definition_id = 1;
  unprefixed = false;
}

abbrev greece : DispatchTarget
greece = target (codes "GR") (codes "EL" ∷ codes "GR" ∷ [])

abbrev malta : DispatchTarget
malta = target (codes "MT") (codes "MT" ∷ [])

abbrev dispatcher : IdentifierDispatcher
dispatcher = record {
  kind = codes "vat";
  kind_aliases = [];
  pre_canonicalization_program = 1;
  country_aliases = [];
  targets = greece ∷ malta ∷ [];
}

dispatcher_accepted : check_targets dispatcher ≡ true
unfolding check_targets entid_go.Gen.Load.Targets.check_each_target
    entid_go.Gen.Load.Targets.check_target entid_go.Gen.Load.Targets.check_target_of
    entid_go.Gen.Load.Tokens.valid_country_token entid_go.Gen.Load.Tokens.valid_prefix_token
    entid_go.Prelude.less all entid_go.Prelude.beq entid_go.Gen.Load.Targets.target_order_before
dispatcher_accepted = refl

check_targets-prefixes_example : member_string (codes "EL") malta.accepted_prefixes ≡ false
unfolding entid_go.Prelude.beq
check_targets-prefixes_example =
    check_targets-prefixes dispatcher [] [] [] greece malta (codes "EL") dispatcher_accepted refl
      refl

abbrev not_node : Node
not_node = record no_node {
  output_type = 3;
  op = entid_go.Gen.Opcodes.op_not;
  input_nodes = 1 ∷ [];
}

abbrev emitter : List Node → Emitter
emitter nodes = record { nodes = nodes; scope = scope_rule; target = none; local = λ i. false }

abbrev negation : Emitter
negation =
    emitter (value_node ∷ digits_node ∷ not_node ∷ record not_node { input_nodes = 2 ∷ [] } ∷ [])

negated : pred_expr 3 negation 2 ≡ some (b_not (b_ascii_digits v_canonical))
unfolding pred_expr entid_go.Gen.Expr.string_expr entid_go.Gen.Expr.value_of
    entid_go.Gen.Expr.operand entid_go.Gen.Expr.negate
negated = refl

negated_twice : pred_expr 4 negation 3 ≡ some (b_ascii_digits v_canonical)
unfolding pred_expr entid_go.Gen.Expr.string_expr entid_go.Gen.Expr.value_of
    entid_go.Gen.Expr.operand entid_go.Gen.Expr.negate
negated_twice = refl

hoisted_value :
    pred_expr 4 (record negation { local = λ i. i == 0 }) 1 ≡ some (b_ascii_digits (v_local 0))
unfolding pred_expr entid_go.Gen.Expr.string_expr entid_go.Gen.Expr.operand
hoisted_value = refl

accepted-expr_example :
    (v : Expr kind_boolean) × (expr kind_boolean 4 (emitter digits.nodes) 1 ≡ some v)
accepted-expr_example =
    accepted-expr bundle (1 ∷ 2 ∷ 11 ∷ 20 ∷ []) depths digits (emitter digits.nodes) kind_boolean 4
      1 bundle_accepted (Memᴰ.head refl) refl (omega arith) (omega arith) refl
