-- ===== src/Gen/Expr/Total.antt =====
-- internal/gen/expr.go: the expressions of the nodes that load.go accepts.
use entid_go.Prelude.{
  ℕ, zero, suc, ◌<◌, ◌≡◌, refl, sym, ◌∙◌, true, some, arith, length, get_or, bind_on, inl, inr,
  Bool-cases,
}
use entid_go.Gen.Limits.{member}
use entid_go.Gen.Opcodes.Specs.{spec}
use entid_go.Gen.Model.{no_node, value_string, value_integer, value_boolean}
use entid_go.Gen.Load.Ordered.{check_operands-lower, all_lower-member}
use entid_go.Gen.Steps.Emission.{IsChecked}
use entid_go.Gen.Expr.{
  ViewExpr, v_local, IntExpr, i_local, BoolExpr, Emitter, string_expr, int_expr, pred_expr,
}
use entid_go.Gen.Expr.Operands.{get_elem?-get_or}
use entid_go.Gen.Expr.Cases.{string_op_total, int_op_total, pred_op_total}

module _ (e : Emitter)
    (checked : (i : ℕ) → i < length e.nodes → IsChecked e.nodes i (get_or e.nodes i no_node)) where
  -- An operand lies below its node, inside the program.
  below :
      (f i j : ℕ)
      → i < length e.nodes
      → i < suc f
      → member j (get_or e.nodes i no_node).input_nodes ≡ true
      → (j < length e.nodes) × (j < f)
  below f i j inside enough m =
      let n = get_or e.nodes i no_node in
      let (same, good) = checked i inside in
      let low = check_operands-lower e.nodes i n (spec n.op) good in
      let before = all_lower-member i j n.input_nodes low m in
      (omega (arith, before), omega (arith, before))

  pub string_expr_total :
      (f i : ℕ)
      → i < length e.nodes
      → i < f
      → (get_or e.nodes i no_node).output_type ≡ value_string
      → (v : ViewExpr) × (string_expr f e i ≡ some v)
  unfolding string_expr
  string_expr_total zero i inside enough o = absurd (omega arith)
  string_expr_total (suc f) i inside enough o =
      let n = get_or e.nodes i no_node in
      let (same, good) = checked i inside in
      elim (Bool-cases (e.local i)) [
        | inl hoisted ↦ (v_local i, rw hoisted refl)
        | inr fresh ↦
            let (v, written) =
              string_op_total e.nodes i n e n.op (λ j. string_expr f e j) (sym same ∙ o) good
                (λ j m oj.
                  let (within, fewer) = below f i j inside enough m in
                  string_expr_total f j within fewer oj) in
            (v, rw fresh (bind_on _ _ n (some v) (get_elem?-get_or e.nodes i inside) written))
      ]

  pub int_expr_total :
      (f i : ℕ)
      → i < length e.nodes
      → i < f
      → (get_or e.nodes i no_node).output_type ≡ value_integer
      → (v : IntExpr) × (int_expr f e i ≡ some v)
  unfolding int_expr
  int_expr_total zero i inside enough o = absurd (omega arith)
  int_expr_total (suc f) i inside enough o =
      let n = get_or e.nodes i no_node in
      let (same, good) = checked i inside in
      elim (Bool-cases (e.local i)) [
        | inl hoisted ↦ (i_local i, rw hoisted refl)
        | inr fresh ↦
            let (v, written) =
              int_op_total e.nodes i n n.op (λ j. string_expr f e j) (λ j. int_expr f e j)
                (sym same ∙ o) good
                (λ j m oj.
                  let (within, fewer) = below f i j inside enough m in
                  string_expr_total f j within fewer oj)
                (λ j m oj.
                  let (within, fewer) = below f i j inside enough m in
                  int_expr_total f j within fewer oj) in
            (v, rw fresh (bind_on _ _ n (some v) (get_elem?-get_or e.nodes i inside) written))
      ]

  pub pred_expr_total :
      (f i : ℕ)
      → i < length e.nodes
      → i < f
      → (get_or e.nodes i no_node).output_type ≡ value_boolean
      → (v : BoolExpr) × (pred_expr f e i ≡ some v)
  unfolding pred_expr
  pred_expr_total zero i inside enough o = absurd (omega arith)
  pred_expr_total (suc f) i inside enough o =
      let n = get_or e.nodes i no_node in
      let (same, good) = checked i inside in
      let (v, written) =
        pred_op_total e.nodes i n n.op (λ j. string_expr f e j) (λ j. int_expr f e j)
          (λ j. pred_expr f e j) (sym same ∙ o) good
          (λ j m oj.
            let (within, fewer) = below f i j inside enough m in
            string_expr_total f j within fewer oj)
          (λ j m oj.
            let (within, fewer) = below f i j inside enough m in int_expr_total f j within fewer oj)
          (λ j m oj.
            let (within, fewer) = below f i j inside enough m in
            pred_expr_total f j within fewer oj) in
      (v, bind_on _ _ n (some v) (get_elem?-get_or e.nodes i inside) written)
