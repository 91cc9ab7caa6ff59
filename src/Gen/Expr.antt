-- ===== src/Gen/Expr.antt =====
-- internal/gen/expr.go: the expressions that the generator writes. The text is a value of one of the types
-- below, with one constructor for each form that it takes; `none` is a panic.
pub mod Accepted
pub mod Cases
pub mod Operands
pub mod Total
use entid_go.Prelude.{
  ℕ, zero, suc, ◌==◌, Bool, true, false, List, [], ◌∷◌, Option, none, some, ◌>>=◌, if◌then◌else◌,
  Bytes, beq, length, ltb, get_elem?,
}
use entid_go.Prelude.Int.{ℤ, pos}
use entid_go.Runtime.Integer.{Alignment, Mapping}
use entid_go.Result.{strict_current}
use entid_go.Gen.Model.{
  Node, DispatchTarget, or_zero, or_empty, align_right, align_cycle, mapping_alnum_base36,
  mapping_custom_alphabet, value_string, value_integer, value_boolean,
}
use entid_go.Gen.Opcodes.{
  Opcode, op_constant, op_value, op_subject, op_country_code, op_slice, op_slice_from, op_slice_to,
  op_before_first, op_after_first, op_strip_prefix, op_concat, op_digits_to_integer, op_mod_digits,
  op_weighted_sum, op_modulo, op_complement, op_remainder_map, op_is_empty, op_is_absent, op_equals,
  op_length_eq, op_length_in, op_length_between, op_ascii_digits, op_ascii_upper_letters,
  op_ascii_alphanumeric, op_ascii_charset, op_starts_with, op_ends_with, op_prefix_in,
  op_char_at_in, op_contains, op_all, op_any, op_not, op_profile_is, op_integer_is,
}

-- What stands at a node's index: a local that it was hoisted into, or its own expression.
mutual
  pub data ViewExpr : Type 0 where
    v_local : ℕ → ViewExpr
    v_constant : Bytes → ViewExpr
    v_workspace v_canonical v_subject v_absent : ViewExpr
    v_slice : ViewExpr → ℕ → ℕ → ViewExpr
    v_slice_from v_slice_to : ViewExpr → ℕ → ViewExpr
    v_before_first v_after_first v_strip_prefix : ViewExpr → Bytes → ViewExpr
    v_concat : ViewExprs → ViewExpr

  pub data ViewExprs : Type 0 where
    no_views : ViewExprs
    and_view : ViewExpr → ViewExprs → ViewExprs

-- The static tables of weights and of remainders are named by the index of their node.
pub data IntExpr : Type 0 where
  i_local : ℕ → IntExpr
  i_digits_to_integer : ViewExpr → IntExpr
  i_mod_digits : ViewExpr → ℤ → IntExpr
  i_weighted_sum : ViewExpr → ℕ → Alignment → Mapping → IntExpr
  i_weighted_sum_alphabet : ViewExpr → ℕ → Alignment → Bytes → IntExpr
  i_modulo i_complement : IntExpr → ℤ → IntExpr
  i_remainder_map : IntExpr → ℕ → IntExpr

mutual
  pub data BoolExpr : Type 0 where
    b_is_empty b_is_absent b_ascii_digits b_ascii_upper_letters b_ascii_alphanumeric :
        ViewExpr → BoolExpr
    b_equals : ViewExpr → ViewExpr → BoolExpr
    b_length_eq : ViewExpr → ℕ → BoolExpr
    b_length_in : ViewExpr → List ℕ → BoolExpr
    b_length_between : ViewExpr → ℕ → ℕ → BoolExpr
    b_ascii_charset b_has_prefix b_has_suffix b_contains : ViewExpr → Bytes → BoolExpr
    b_prefix_in_sorted : ViewExpr → ℕ → BoolExpr
    b_char_at_in : ViewExpr → ℕ → Bytes → BoolExpr
    b_all b_any : BoolExprs → BoolExpr
    b_not : BoolExpr → BoolExpr
    b_profile_strict b_profile_compatible : BoolExpr
    b_integer_is : IntExpr → ℤ → BoolExpr

  pub data BoolExprs : Type 0 where
    no_tests : BoolExprs
    and_test : BoolExpr → BoolExprs → BoolExprs

pub data Scope : Type 0 where
  scope_rule scope_canonicalization : Scope

-- The emitter: the nodes of its program, the scope, the target that a canonicalizer runs under, and the
-- nodes that were hoisted into a variable.
pub record Emitter : Type 0 where
  pub nodes : List Node
  pub scope : Scope
  pub target : Option DispatchTarget
  pub local : ℕ → Bool

abbrev or_zero_ℤ : Option ℤ → ℤ
or_zero_ℤ none = pos 0
or_zero_ℤ (some z) = z

-- `rt.Value` of the country of the target, or the absent view.
unfoldable pub country_of : Option DispatchTarget → ViewExpr
country_of none = v_absent
country_of (some t) = folded t.country_code
  where
    folded : Option Bytes → ViewExpr
    folded none = v_absent
    folded (some c) = v_constant c

unfoldable pub value_of : Scope → ViewExpr
value_of scope_rule = v_canonical
value_of scope_canonicalization = v_workspace

-- Operand `k`; a panic where there is none.
unfoldable pub operand {ℓ} : {A : Type ℓ} → Node → (ℕ → Option A) → ℕ → Option A
operand n emit k = get_elem? n.input_nodes k >>= emit

unfoldable pub concat_parts : (ℕ → Option ViewExpr) → List ℕ → Option ViewExprs
concat_parts emit [] = some no_views
concat_parts emit (i ∷ is) = emit i >>= λ a. concat_parts emit is >>= λ rest. some (and_view a rest)

abbrev pub string_op : Emitter → Opcode → Node → (ℕ → Option ViewExpr) → Option ViewExpr
string_op e op_constant n emit = some (v_constant (or_empty n.text))
string_op e op_value n emit = some (value_of e.scope)
string_op e op_subject n emit = some v_subject
string_op e op_country_code n emit = some (country_of e.target)
string_op e op_slice n emit =
    operand n emit 0 >>= λ a. some (v_slice a (or_zero n.start) (or_zero n.end))
string_op e op_slice_from n emit = operand n emit 0 >>= λ a. some (v_slice_from a (or_zero n.start))
string_op e op_slice_to n emit = operand n emit 0 >>= λ a. some (v_slice_to a (or_zero n.end))
string_op e op_before_first n emit =
    operand n emit 0 >>= λ a. some (v_before_first a (or_empty n.text))
string_op e op_after_first n emit =
    operand n emit 0 >>= λ a. some (v_after_first a (or_empty n.text))
string_op e op_strip_prefix n emit =
    operand n emit 0 >>= λ a. some (v_strip_prefix a (or_empty n.text))
string_op e op_concat n emit = concat_parts emit n.input_nodes >>= λ rest. some (v_concat rest)
string_op e op n emit = none

-- `stringExpr`; the fuel is the number of the nodes that are left below.
unfoldable pub string_expr : ℕ → Emitter → ℕ → Option ViewExpr
string_expr zero e i = none
string_expr (suc f) e i =
    if e.local i
    then some (v_local i)
    else get_elem? e.nodes i >>= λ n. string_op e n.op n (λ j. string_expr f e j)

abbrev pub align_const : ℕ → Alignment
align_const a =
    if a == align_right
    then Alignment.align_right
    else if a == align_cycle
    then Alignment.align_cycle
    else Alignment.align_left

abbrev pub mapping_const : ℕ → Mapping
mapping_const m =
    if m == mapping_alnum_base36 then Mapping.map_alnum_base36 else Mapping.map_digit_value

unfoldable pub weighted_sum_expr : ℕ → Node → ViewExpr → IntExpr
weighted_sum_expr i n a =
    if or_zero n.mapping == mapping_custom_alphabet
    then i_weighted_sum_alphabet a i (align_const (or_zero n.alignment)) (or_empty n.alphabet)
    else i_weighted_sum a i (align_const (or_zero n.alignment)) (mapping_const (or_zero n.mapping))

abbrev pub int_op :
    Opcode → ℕ → Node → (ℕ → Option ViewExpr) → (ℕ → Option IntExpr) → Option IntExpr
int_op op_digits_to_integer i n str emit = operand n str 0 >>= λ a. some (i_digits_to_integer a)
int_op op_mod_digits i n str emit =
    operand n str 0 >>= λ a. some (i_mod_digits a (or_zero_ℤ n.modulus))
int_op op_weighted_sum i n str emit = operand n str 0 >>= λ a. some (weighted_sum_expr i n a)
int_op op_modulo i n str emit = operand n emit 0 >>= λ a. some (i_modulo a (or_zero_ℤ n.modulus))
int_op op_complement i n str emit =
    operand n emit 0 >>= λ a. some (i_complement a (or_zero_ℤ n.modulus))
int_op op_remainder_map i n str emit = operand n emit 0 >>= λ a. some (i_remainder_map a i)
int_op op i n str emit = none

unfoldable pub int_expr : ℕ → Emitter → ℕ → Option IntExpr
unfolding string_expr
int_expr zero e i = none
int_expr (suc f) e i =
    if e.local i
    then some (i_local i)
    else get_elem? e.nodes i >>= λ n. int_op n.op i n (λ j. string_expr f e j) (λ j. int_expr f e j)

unfoldable pub join_predicates : (ℕ → Option BoolExpr) → List ℕ → Option BoolExprs
join_predicates emit [] = some no_tests
join_predicates emit (i ∷ is) =
    emit i >>= λ a. join_predicates emit is >>= λ rest. some (and_test a rest)

-- One predicate stands for itself.
unfoldable pub joined_tests : (BoolExprs → BoolExpr) → BoolExprs → BoolExpr
joined_tests join (and_test a no_tests) = a
joined_tests join rest = join rest

-- A negation of a negation is the predicate itself.
unfoldable pub negate : BoolExpr → BoolExpr
negate (b_not a) = a
negate a = b_not a

abbrev pub profile_const : Bytes → BoolExpr
profile_const name = if beq name strict_current then b_profile_strict else b_profile_compatible

abbrev pub pred_op :
    Opcode
    → ℕ
    → Node
    → (ℕ → Option ViewExpr)
    → (ℕ → Option IntExpr)
    → (ℕ → Option BoolExpr)
    → Option BoolExpr
pred_op op_is_empty i n str int emit = operand n str 0 >>= λ a. some (b_is_empty a)
pred_op op_is_absent i n str int emit = operand n str 0 >>= λ a. some (b_is_absent a)
pred_op op_equals i n str int emit =
    operand n str 0 >>= λ a. operand n str 1 >>= λ b. some (b_equals a b)
pred_op op_length_eq i n str int emit =
    operand n str 0 >>= λ a. some (b_length_eq a (or_zero n.len))
pred_op op_length_in i n str int emit = operand n str 0 >>= λ a. some (b_length_in a n.lengths)
pred_op op_length_between i n str int emit =
    operand n str 0 >>= λ a. some (b_length_between a (or_zero n.min_length) (or_zero n.max_length))
pred_op op_ascii_digits i n str int emit = operand n str 0 >>= λ a. some (b_ascii_digits a)
pred_op op_ascii_upper_letters i n str int emit =
    operand n str 0 >>= λ a. some (b_ascii_upper_letters a)
pred_op op_ascii_alphanumeric i n str int emit =
    operand n str 0 >>= λ a. some (b_ascii_alphanumeric a)
pred_op op_ascii_charset i n str int emit =
    operand n str 0 >>= λ a. some (b_ascii_charset a (or_empty n.text))
pred_op op_starts_with i n str int emit =
    operand n str 0 >>= λ a. some (b_has_prefix a (or_empty n.text))
pred_op op_ends_with i n str int emit =
    operand n str 0 >>= λ a. some (b_has_suffix a (or_empty n.text))
pred_op op_prefix_in i n str int emit = operand n str 0 >>= λ a. some (b_prefix_in_sorted a i)
pred_op op_char_at_in i n str int emit =
    operand n str 0 >>= λ a. some (b_char_at_in a (or_zero n.index) (or_empty n.text))
pred_op op_contains i n str int emit =
    operand n str 0 >>= λ a. some (b_contains a (or_empty n.text))
pred_op op_all i n str int emit =
    join_predicates emit n.input_nodes >>= λ rest. some (joined_tests b_all rest)
pred_op op_any i n str int emit =
    join_predicates emit n.input_nodes >>= λ rest. some (joined_tests b_any rest)
pred_op op_not i n str int emit = operand n emit 0 >>= λ a. some (negate a)
pred_op op_profile_is i n str int emit = some (profile_const (or_empty n.text))
pred_op op_integer_is i n str int emit =
    operand n int 0 >>= λ a. some (b_integer_is a (or_zero_ℤ n.constant))
pred_op op i n str int emit = none

unfoldable pub pred_expr : ℕ → Emitter → ℕ → Option BoolExpr
unfolding int_expr
pred_expr zero e i = none
pred_expr (suc f) e i = get_elem? e.nodes i >>= λ n.
    pred_op n.op i n (λ j. string_expr f e j) (λ j. int_expr f e j) (λ j. pred_expr f e j)

-- The three types of value that an expression gives, and what writes each.
pub data ValueKind : Type 0 where
  kind_string kind_integer kind_boolean : ValueKind

abbrev pub type_of : ValueKind → ℕ
type_of kind_string = value_string
type_of kind_integer = value_integer
type_of kind_boolean = value_boolean

unfoldable pub Expr : ValueKind → Type 0
Expr kind_string = ViewExpr
Expr kind_integer = IntExpr
Expr kind_boolean = BoolExpr

unfoldable pub expr : (k : ValueKind) → ℕ → Emitter → ℕ → Option (Expr k)
unfolding Expr
expr kind_string f e i = string_expr f e i
expr kind_integer f e i = int_expr f e i
expr kind_boolean f e i = pred_expr f e i
