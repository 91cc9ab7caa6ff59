-- ===== src/Gen/Steps/Emission.antt =====
-- emit_programs.go, `emitSteps` on the nodes that load.go accepts.
use mathlib.Core.Path.{subst}
use entid_go.Prelude.{
  ℕ, zero, suc, ◌+◌, ◌<◌, ◌≡◌, refl, sym, ap, ◌∙◌, true, false, not, List, [], ◌∷◌, Option, some,
  arith, leb, ◌==◌, ==_iff, length, get_or, drop, inl, inr, bind-inv, unless, unless-false,
  not-false, else_taken, &&-inv, ||-inv,
}
use entid_go.Gen.Limits.{member}
use entid_go.Gen.Opcodes.{
  Opcode, OpSpec, is_op, op_invalid, op_canon_sequence, op_canon_when, op_trim_whitespace,
  op_remove_whitespace, op_uppercase_ascii, op_remove_chars, op_replace_prefix, op_prepend,
  op_append, op_insert, op_left_pad, op_prepend_country_if_missing,
}
use entid_go.Gen.Opcodes.Specs.{spec}
use entid_go.Gen.Model.{Program, Node, DispatchTarget, no_node, value_canonicalization_step}
use entid_go.Gen.Load.Nodes.{all_typed, check_operands}
use entid_go.Gen.Load.Ordered.{member_tail, member_head, check_operands-lower, all_lower-member}
use entid_go.Gen.Load.Programs.{check_node, check_nodes, check_program}
use entid_go.Gen.Steps.{
  w_both, w_nothing, w_when, Statement, emit_each, emit_when, emit_step, emit_steps,
  emit_prepend_country,
}

-- What the loader's check of a node gives of it.
abbrev pub IsChecked : List Node → ℕ → Node → Type 0
IsChecked nodes i n =
    (n.output_type ≡ (spec n.op).output) × (check_operands nodes i n (spec n.op) ≡ true)

check_node-IsChecked :
    (nodes : List Node) (i : ℕ) (n : Node) (bounds : List (Option ℕ)) (fs : List ℕ)
    → check_node nodes i n bounds ≡ some fs
    → IsChecked nodes i n
unfolding check_node
check_node-IsChecked nodes i n bounds fs e =
    let e₁ = unless (is_op n.op op_invalid) _ fs e in
    let same = not-false _ (unless-false (not (n.output_type == (spec n.op).output)) _ fs e₁) in
    let e₂ = unless (not (n.output_type == (spec n.op).output)) _ fs e₁ in
    let good = not-false _ (unless-false (not (check_operands nodes i n (spec n.op))) _ fs e₂) in
    ((==_iff n.output_type (spec n.op).output).0 same, good)

pub check_nodes-IsChecked :
    (nodes ns : List Node) (i : ℕ) (bounds : List (Option ℕ)) (used fs : List ℕ) (k : ℕ)
    → check_nodes nodes ns i bounds used ≡ some fs
    → k < length ns
    → IsChecked nodes (i + k) (get_or ns k no_node)
unfolding check_nodes
check_nodes-IsChecked nodes [] i bounds used fs k e h = absurd (omega arith)
check_nodes-IsChecked nodes (n ∷ ns) i bounds used fs zero e h =
    let (gs, en, rest) = bind-inv (check_node nodes i n bounds) _ fs e in
    subst (λ k. IsChecked nodes k n) (omega arith) (check_node-IsChecked nodes i n bounds gs en)
check_nodes-IsChecked nodes (n ∷ ns) i bounds used fs (suc k) e h =
    let (gs, en, rest) = bind-inv (check_node nodes i n bounds) _ fs e in
    let later = check_nodes-IsChecked nodes ns (i + 1) _ _ fs k rest (omega arith) in
    subst (λ m. IsChecked nodes m (get_or ns k no_node)) (omega arith) later

-- What the loader's check of a program gives of each of its nodes.
pub check_program-IsChecked :
    (pre : List ℕ) (p : Program) (fs : List ℕ) (i : ℕ)
    → check_program pre p ≡ some fs
    → i < length p.nodes
    → IsChecked p.nodes i (get_or p.nodes i no_node)
unfolding check_program
check_program-IsChecked pre p fs i e h =
    let (used, nodes_fine, rest) = bind-inv (check_nodes p.nodes p.nodes 0 [] []) _ fs e in
    subst (λ k. IsChecked p.nodes k (get_or p.nodes i no_node)) (omega arith)
      (check_nodes-IsChecked p.nodes p.nodes 0 [] [] used i nodes_fine h)

pub all_typed-member :
    (nodes : List Node) (t : ℕ) (xs : List ℕ) (j : ℕ)
    → all_typed nodes t xs ≡ true
    → member j xs ≡ true
    → (get_or nodes j no_node).output_type ≡ t
unfolding all_typed
all_typed-member nodes t [] j h m = absurd (ground arith)
all_typed-member nodes t (x ∷ xs) j h m =
    let (here, rest) = &&-inv _ _ h in
    elim (||-inv (x == j) (member j xs) m) [
      | inl same ↦
          ap (λ i. (get_or nodes i no_node).output_type) (sym ((==_iff x j).0 same))
          ∙ (==_iff _ t).0 here
      | inr later ↦ all_typed-member nodes t xs j rest later
    ]

abbrev Emits : (ℕ → Option Statement) → List ℕ → Type 0
Emits emit is = (j : ℕ) → member j is ≡ true → (st : Statement) × (emit j ≡ some st)

emit_each_total :
    (emit : ℕ → Option Statement) (is : List ℕ)
    → Emits emit is
    → (st : Statement) × (emit_each emit is ≡ some st)
emit_each_total emit [] all = (w_nothing, refl)
emit_each_total emit (i ∷ is) all =
    let (a, ea) = all i (member_head i is) in
    let (b, eb) = emit_each_total emit is (λ j m. all j (member_tail i j is m)) in
    (w_both a b, rw (ea, eb) refl)

when_total :
    (nodes : List Node) (is : List ℕ) (emit : ℕ → Option Statement)
    → leb 1 (length is) ≡ true
    → all_typed nodes value_canonicalization_step (drop 1 is) ≡ true
    → ((j : ℕ)
        → member j is ≡ true
        → (get_or nodes j no_node).output_type ≡ value_canonicalization_step
        → (st : Statement) × (emit j ≡ some st))
    → (st : Statement) × (emit_when emit is ≡ some st)
when_total nodes [] emit given typed below = absurd (ground arith)
when_total nodes (i ∷ is) emit given typed below =
    let (body, eb) =
      emit_each_total emit is
        (λ j m. below j (member_tail i j is m) (all_typed-member nodes 4 is j typed m)) in
    (w_when i body, rw eb refl)

check_operands-fixed :
    (nodes : List Node) (i : ℕ) (n : Node) (s : OpSpec)
    → check_operands nodes i n s ≡ true
    → leb (length s.fixed) (length n.input_nodes) ≡ true
unfolding check_operands
check_operands-fixed nodes i n s e = (&&-inv _ _ (&&-inv _ _ (&&-inv _ _ e).0).0).1

pub check_operands-repeated :
    (nodes : List Node) (i : ℕ) (n : Node) (s : OpSpec)
    → check_operands nodes i n s ≡ true
    → (s.repeated == 0) ≡ false
    → all_typed nodes s.repeated (drop (length s.fixed) n.input_nodes) ≡ true
unfolding check_operands
check_operands-repeated nodes i n s e r = (&&-inv _ _ (else_taken _ _ _ _ r (&&-inv _ _ e).1)).1

-- The nodes of a program that passed the checks, whose index is below `i`, and their steps.
module _ (nodes : List Node) (t : DispatchTarget)
    (checked : (i : ℕ) → i < length nodes → IsChecked nodes i (get_or nodes i no_node)) where
  step_total :
      (op : Opcode) (i : ℕ) (n : Node) (emit : ℕ → Option Statement)
      → (spec op).output ≡ value_canonicalization_step
      → check_operands nodes i n (spec op) ≡ true
      → ((j : ℕ)
          → member j n.input_nodes ≡ true
          → (get_or nodes j no_node).output_type ≡ value_canonicalization_step
          → (st : Statement) × (emit j ≡ some st))
      → (st : Statement) × (emit_step op n (some t) emit ≡ some st)
  unfolding spec emit_prepend_country
  step_total op_canon_sequence i n emit o c below =
      let typed = check_operands-repeated nodes i n (spec op_canon_sequence) c refl in
      emit_each_total emit n.input_nodes
        (λ j m. below j m (all_typed-member nodes 4 n.input_nodes j typed m))
  step_total op_canon_when i n emit o c below =
      when_total nodes n.input_nodes emit (check_operands-fixed nodes i n (spec op_canon_when) c)
        (check_operands-repeated nodes i n (spec op_canon_when) c refl) below
  step_total op_trim_whitespace i n emit o c below = (_, refl)
  step_total op_remove_whitespace i n emit o c below = (_, refl)
  step_total op_uppercase_ascii i n emit o c below = (_, refl)
  step_total op_remove_chars i n emit o c below = (_, refl)
  step_total op_replace_prefix i n emit o c below = (_, refl)
  step_total op_prepend i n emit o c below = (_, refl)
  step_total op_append i n emit o c below = (_, refl)
  step_total op_insert i n emit o c below = (_, refl)
  step_total op_left_pad i n emit o c below = (_, refl)
  step_total op_prepend_country_if_missing i n emit o c below = (_, refl)
  step_total op i n emit o c below = absurd (omega (arith, o))

  pub emit_steps_total :
      (f i : ℕ)
      → i < length nodes
      → i < f
      → (get_or nodes i no_node).output_type ≡ value_canonicalization_step
      → (st : Statement) × (emit_steps f nodes (some t) i ≡ some st)
  unfolding emit_steps
  emit_steps_total zero i inside enough o = absurd (omega arith)
  emit_steps_total (suc f) i inside enough o =
      let n = get_or nodes i no_node in
      let (same, good) = checked i inside in
      let low = check_operands-lower nodes i n (spec n.op) good in
      step_total n.op i n (λ j. emit_steps f nodes (some t) j) (sym same ∙ o) good
        (λ j m oj.
          let before = all_lower-member i j n.input_nodes low m in
          emit_steps_total f j (omega (arith, before)) (omega (arith, before)) oj)
