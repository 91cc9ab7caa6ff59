-- ===== src/Gen/Expr/Cases.antt =====
-- internal/gen/expr.go: what each operation writes once its operands are written.
use entid_go.Prelude.{ℕ, ◌≡◌, refl, sym, ap, ◌∙◌, true, List, [], ◌∷◌, Option, some, arith, ◌>>=◌}
use entid_go.Gen.Limits.{member}
use entid_go.Gen.Opcodes.{
  Opcode, OpSpec, op_constant, op_value, op_subject, op_country_code, op_slice, op_slice_from,
  op_slice_to, op_before_first, op_after_first, op_strip_prefix, op_concat, op_digits_to_integer,
  op_mod_digits, op_weighted_sum, op_modulo, op_complement, op_remainder_map, op_is_empty,
  op_is_absent, op_equals, op_length_eq, op_length_in, op_length_between, op_ascii_digits,
  op_ascii_upper_letters, op_ascii_alphanumeric, op_ascii_charset, op_starts_with, op_ends_with,
  op_prefix_in, op_char_at_in, op_contains, op_all, op_any, op_not, op_profile_is, op_integer_is,
}
use entid_go.Gen.Opcodes.Specs.{spec}
use entid_go.Gen.Model.{Node, value_string, value_integer, value_boolean}
use entid_go.Gen.Load.Nodes.{check_operands, fixed_typed, all_typed}
use entid_go.Gen.Load.Ordered.{member_head, member_tail}
use entid_go.Gen.Steps.Emission.{all_typed-member, check_operands-repeated}
use entid_go.Gen.Expr.{
  ViewExpr, ViewExprs, no_views, and_view, IntExpr, BoolExpr, BoolExprs, no_tests, and_test,
  b_equals, Emitter, operand, concat_parts, string_op, int_op, join_predicates, pred_op,
}
use entid_go.Gen.Expr.Operands.{Written, check_operands-typed, operand-first, operand-second}

concat_parts_total :
    (emit : ℕ → Option ViewExpr) (xs : List ℕ)
    → ((j : ℕ) → member j xs ≡ true → (a : ViewExpr) × (emit j ≡ some a))
    → (v : ViewExprs) × (concat_parts emit xs ≡ some v)
unfolding concat_parts
concat_parts_total emit [] all = (no_views, refl)
concat_parts_total emit (x ∷ xs) all =
    let (a, ea) = all x (member_head x xs) in
    let (b, eb) = concat_parts_total emit xs (λ j m. all j (member_tail x j xs m)) in
    (and_view a b, rw (ea, eb) refl)

join_predicates_total :
    (emit : ℕ → Option BoolExpr) (xs : List ℕ)
    → ((j : ℕ) → member j xs ≡ true → (a : BoolExpr) × (emit j ≡ some a))
    → (v : BoolExprs) × (join_predicates emit xs ≡ some v)
unfolding join_predicates
join_predicates_total emit [] all = (no_tests, refl)
join_predicates_total emit (x ∷ xs) all =
    let (a, ea) = all x (member_head x xs) in
    let (b, eb) = join_predicates_total emit xs (λ j m. all j (member_tail x j xs m)) in
    (and_test a b, rw (ea, eb) refl)

-- An operand that is written, and what is made of it.
from {ℓ κ} :
    {A : Type ℓ} {B : Type κ} (o : Option A) (f : A → B)
    → (a : A) × (o ≡ some a)
    → (b : B) × ((o >>= λ a. some (f a)) ≡ some b)
from o f (a, given) = (f a, rw given refl)

module _ (nodes : List Node) (i : ℕ) (n : Node) where
  first-Written {ℓ} :
      {A : Type ℓ} (s : OpSpec) (t : ℕ) (ts : List ℕ) (emit : ℕ → Option A)
      → s.fixed ≡ t ∷ ts
      → check_operands nodes i n s ≡ true
      → Written nodes n emit t
      → (a : A) × (operand n emit 0 ≡ some a)
  first-Written s t ts emit shape c w =
      operand-first nodes emit n t ts
        (ap (fixed_typed nodes n.input_nodes) (sym shape) ∙ check_operands-typed nodes i n s c) w

  repeated-Written {ℓ} :
      {A : Type ℓ} (t : ℕ) (emit : ℕ → Option A)
      → (j : ℕ) → all_typed nodes t n.input_nodes ≡ true
      → Written nodes n emit t
      → member j n.input_nodes ≡ true
      → (a : A) × (emit j ≡ some a)
  repeated-Written t emit j typed w m = w j m (all_typed-member nodes t n.input_nodes j typed m)

  pub string_op_total :
      (e : Emitter) (op : Opcode) (emit : ℕ → Option ViewExpr)
      → (spec op).output ≡ value_string
      → check_operands nodes i n (spec op) ≡ true
      → Written nodes n emit value_string
      → (v : ViewExpr) × (string_op e op n emit ≡ some v)
  unfolding spec
  string_op_total e op_constant emit o c w = (_, refl)
  string_op_total e op_value emit o c w = (_, refl)
  string_op_total e op_subject emit o c w = (_, refl)
  string_op_total e op_country_code emit o c w = (_, refl)
  string_op_total e op_slice emit o c w =
      from _ _ (first-Written (spec op_slice) value_string [] emit refl c w)
  string_op_total e op_slice_from emit o c w =
      from _ _ (first-Written (spec op_slice_from) value_string [] emit refl c w)
  string_op_total e op_slice_to emit o c w =
      from _ _ (first-Written (spec op_slice_to) value_string [] emit refl c w)
  string_op_total e op_before_first emit o c w =
      from _ _ (first-Written (spec op_before_first) value_string [] emit refl c w)
  string_op_total e op_after_first emit o c w =
      from _ _ (first-Written (spec op_after_first) value_string [] emit refl c w)
  string_op_total e op_strip_prefix emit o c w =
      from _ _ (first-Written (spec op_strip_prefix) value_string [] emit refl c w)
  string_op_total e op_concat emit o c w =
      let typed = check_operands-repeated nodes i n (spec op_concat) c refl in
      from _ _ (
        concat_parts_total emit n.input_nodes
          (λ j m. repeated-Written value_string emit j typed w m))
  string_op_total e op emit o c w = absurd (omega (arith, o))

  pub int_op_total :
      (op : Opcode) (str : ℕ → Option ViewExpr) (emit : ℕ → Option IntExpr)
      → (spec op).output ≡ value_integer
      → check_operands nodes i n (spec op) ≡ true
      → Written nodes n str value_string
      → Written nodes n emit value_integer
      → (v : IntExpr) × (int_op op i n str emit ≡ some v)
  unfolding spec
  int_op_total op_digits_to_integer str emit o c ws wi =
      from _ _ (first-Written (spec op_digits_to_integer) value_string [] str refl c ws)
  int_op_total op_mod_digits str emit o c ws wi =
      from _ _ (first-Written (spec op_mod_digits) value_string [] str refl c ws)
  int_op_total op_weighted_sum str emit o c ws wi =
      from _ _ (first-Written (spec op_weighted_sum) value_string [] str refl c ws)
  int_op_total op_modulo str emit o c ws wi =
      from _ _ (first-Written (spec op_modulo) value_integer [] emit refl c wi)
  int_op_total op_complement str emit o c ws wi =
      from _ _ (first-Written (spec op_complement) value_integer [] emit refl c wi)
  int_op_total op_remainder_map str emit o c ws wi =
      from _ _ (first-Written (spec op_remainder_map) value_integer [] emit refl c wi)
  int_op_total op str emit o c ws wi = absurd (omega (arith, o))

  pub pred_op_total :
      (op : Opcode) (str : ℕ → Option ViewExpr) (int : ℕ → Option IntExpr)
      (emit : ℕ → Option BoolExpr)
      → (spec op).output ≡ value_boolean
      → check_operands nodes i n (spec op) ≡ true
      → Written nodes n str value_string
      → Written nodes n int value_integer
      → Written nodes n emit value_boolean
      → (v : BoolExpr) × (pred_op op i n str int emit ≡ some v)
  unfolding spec
  pred_op_total op_is_empty str int emit o c ws wi wb =
      from _ _ (first-Written (spec op_is_empty) value_string [] str refl c ws)
  pred_op_total op_is_absent str int emit o c ws wi wb =
      from _ _ (first-Written (spec op_is_absent) value_string [] str refl c ws)
  pred_op_total op_length_eq str int emit o c ws wi wb =
      from _ _ (first-Written (spec op_length_eq) value_string [] str refl c ws)
  pred_op_total op_length_in str int emit o c ws wi wb =
      from _ _ (first-Written (spec op_length_in) value_string [] str refl c ws)
  pred_op_total op_length_between str int emit o c ws wi wb =
      from _ _ (first-Written (spec op_length_between) value_string [] str refl c ws)
  pred_op_total op_ascii_digits str int emit o c ws wi wb =
      from _ _ (first-Written (spec op_ascii_digits) value_string [] str refl c ws)
  pred_op_total op_ascii_upper_letters str int emit o c ws wi wb =
      from _ _ (first-Written (spec op_ascii_upper_letters) value_string [] str refl c ws)
  pred_op_total op_ascii_alphanumeric str int emit o c ws wi wb =
      from _ _ (first-Written (spec op_ascii_alphanumeric) value_string [] str refl c ws)
  pred_op_total op_ascii_charset str int emit o c ws wi wb =
      from _ _ (first-Written (spec op_ascii_charset) value_string [] str refl c ws)
  pred_op_total op_starts_with str int emit o c ws wi wb =
      from _ _ (first-Written (spec op_starts_with) value_string [] str refl c ws)
  pred_op_total op_ends_with str int emit o c ws wi wb =
      from _ _ (first-Written (spec op_ends_with) value_string [] str refl c ws)
  pred_op_total op_prefix_in str int emit o c ws wi wb =
      from _ _ (first-Written (spec op_prefix_in) value_string [] str refl c ws)
  pred_op_total op_char_at_in str int emit o c ws wi wb =
      from _ _ (first-Written (spec op_char_at_in) value_string [] str refl c ws)
  pred_op_total op_contains str int emit o c ws wi wb =
      from _ _ (first-Written (spec op_contains) value_string [] str refl c ws)
  pred_op_total op_equals str int emit o c ws wi wb =
      let (a, ea) = first-Written (spec op_equals) value_string (value_string ∷ []) str refl c ws in
      let typed = check_operands-typed nodes i n (spec op_equals) c in
      let (b, eb) = operand-second nodes str n value_string value_string [] typed ws in
      (b_equals a b, rw (ea, eb) refl)
  pred_op_total op_all str int emit o c ws wi wb =
      let typed = check_operands-repeated nodes i n (spec op_all) c refl in
      from _ _ (
        join_predicates_total emit n.input_nodes
          (λ j m. repeated-Written value_boolean emit j typed wb m))
  pred_op_total op_any str int emit o c ws wi wb =
      let typed = check_operands-repeated nodes i n (spec op_any) c refl in
      from _ _ (
        join_predicates_total emit n.input_nodes
          (λ j m. repeated-Written value_boolean emit j typed wb m))
  pred_op_total op_not str int emit o c ws wi wb =
      from _ _ (first-Written (spec op_not) value_boolean [] emit refl c wb)
  pred_op_total op_profile_is str int emit o c ws wi wb = (_, refl)
  pred_op_total op_integer_is str int emit o c ws wi wb =
      from _ _ (first-Written (spec op_integer_is) value_integer [] int refl c wi)
  pred_op_total op str int emit o c ws wi wb = absurd (omega (arith, o))
