-- ===== src/Gen/Expr/Accepted.antt =====
-- internal/gen/expr.go on the programs of a bundle that load.go accepts.
use mathlib.Core.Path.{subst}
use mathlib.Core.List.{Memᴰ}
use entid_go.Prelude.{ℕ, ◌<◌, ◌≡◌, sym, List, some, length, get_or}
use entid_go.Gen.Model.{Bundle, Program, no_node}
use entid_go.Gen.Load.{run_checks}
use entid_go.Gen.Load.Calls.{Depths}
use entid_go.Gen.Load.Accepted.{accepted-check_program}
use entid_go.Gen.Steps.Emission.{IsChecked, check_program-IsChecked}
use entid_go.Gen.Expr.{
  ValueKind, kind_string, kind_integer, kind_boolean, type_of, Expr, expr, Emitter,
}
use entid_go.Gen.Expr.Total.{string_expr_total, int_expr_total, pred_expr_total}

module _ (e : Emitter)
    (checked : (i : ℕ) → i < length e.nodes → IsChecked e.nodes i (get_or e.nodes i no_node)) where
  expr_total :
      (k : ValueKind) (f i : ℕ)
      → i < length e.nodes
      → i < f
      → (get_or e.nodes i no_node).output_type ≡ type_of k
      → (v : Expr k) × (expr k f e i ≡ some v)
  unfolding expr Expr
  expr_total kind_string f i inside enough typed =
      string_expr_total e checked f i inside enough typed
  expr_total kind_integer f i inside enough typed = int_expr_total e checked f i inside enough typed
  expr_total kind_boolean f i inside enough typed =
      pred_expr_total e checked f i inside enough typed

-- For each node of a program of a bundle that passes the checks, whose output is a string, an integer or a
-- boolean: in either scope, under any target and whichever nodes were hoisted, the generator writes an
-- expression of that type for it, with no panic; any fuel above the node's index is enough.
pub accepted-expr :
    (b : Bundle) (declared : List ℕ) (black : Depths) (p : Program) (e : Emitter) (k : ValueKind)
    (f i : ℕ)
    → run_checks b declared ≡ some black
    → Memᴰ p b.programs
    → e.nodes ≡ p.nodes
    → i < length p.nodes
    → i < f
    → (get_or p.nodes i no_node).output_type ≡ type_of k
    → (v : Expr k) × (expr k f e i ≡ some v)
accepted-expr b declared black p e k f i h m same inside enough typed =
    let (fs, fine) = accepted-check_program b declared black p h m in
    let checked : (j : ℕ) → j < length e.nodes → IsChecked e.nodes j (get_or e.nodes j no_node) =
      subst (λ ns. (j : ℕ) → j < length ns → IsChecked ns j (get_or ns j no_node)) (sym same)
        (λ j within. check_program-IsChecked _ p fs j fine within) in
    expr_total e checked k f i (subst (λ ns. i < length ns) (sym same) inside) enough
      (subst (λ ns. (get_or ns i no_node).output_type ≡ type_of k) (sym same) typed)
