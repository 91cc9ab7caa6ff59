-- ===== src/Gen/Load/Ordered.antt =====
-- load.go, `checkOperands`: the order of the nodes.
use entid_go.Prelude.{
  not-false, ℕ, zero, suc, ◌+◌, ◌<◌, ◌≡◌, true, not, List, [], ◌∷◌, Option, some, arith, ◌==◌,
  ==_iff, get_or, bind-inv, unless, unless-false, &&-inv, ||-inv, inl, inr,
}
use entid_go.Gen.Limits.{member}
use entid_go.Gen.Model.{Node, Program, no_node}
use entid_go.Gen.Opcodes.{OpSpec, is_op, op_invalid}
use entid_go.Gen.Opcodes.Specs.{spec}
use entid_go.Gen.Load.Nodes.{all_lower, check_operands}
use entid_go.Gen.Load.Programs.{check_node, check_nodes, check_program}

-- Every operand of a node stands before it.
abbrev pub IsOrdered : List Node → Type 0
IsOrdered nodes = (i j : ℕ) → member j (get_or nodes i no_node).input_nodes ≡ true → j < i

pub member_head : (i : ℕ) (is : List ℕ) → member i (i ∷ is) ≡ true
member_head i is = ground arith

pub member_tail : (i j : ℕ) (is : List ℕ) → member j is ≡ true → member j (i ∷ is) ≡ true
member_tail i j is h = ground arith

pub all_lower-member : (i j : ℕ) (is : List ℕ) → all_lower i is ≡ true → member j is ≡ true → j < i
unfolding all_lower
all_lower-member i j [] h m = absurd (ground arith)
all_lower-member i j (x ∷ is) h m =
    let (low, rest) = &&-inv _ _ h in
    elim (||-inv (x == j) (member j is) m) [
      | inl here ↦ let same = (==_iff x j).0 here in ground arith
      | inr there ↦ all_lower-member i j is rest there
    ]

pub check_operands-lower :
    (nodes : List Node) (i : ℕ) (n : Node) (s : OpSpec)
    → check_operands nodes i n s ≡ true
    → all_lower i n.input_nodes ≡ true
unfolding check_operands
check_operands-lower nodes i n s e = (&&-inv _ _ (&&-inv _ _ (&&-inv _ _ e).0).0).0

check_node-lower :
    (nodes : List Node) (i : ℕ) (n : Node) (bounds : List (Option ℕ)) (fs : List ℕ)
    → check_node nodes i n bounds ≡ some fs
    → all_lower i n.input_nodes ≡ true
unfolding check_node
check_node-lower nodes i n bounds fs e =
    let e₁ = unless (is_op n.op op_invalid) _ fs e in
    let e₂ = unless (not (n.output_type == (spec n.op).output)) _ fs e₁ in
    let good = not-false _ (unless-false (not (check_operands nodes i n (spec n.op))) _ fs e₂) in
    check_operands-lower nodes i n (spec n.op) good

check_nodes-lower :
    (nodes ns : List Node) (i : ℕ) (bounds : List (Option ℕ)) (used fs : List ℕ)
    → check_nodes nodes ns i bounds used ≡ some fs
    → (k j : ℕ) → member j (get_or ns k no_node).input_nodes ≡ true
    → j < i + k
unfolding check_nodes
check_nodes-lower nodes [] i bounds used fs e k j m = absurd (ground arith)
check_nodes-lower nodes (n ∷ ns) i bounds used fs e zero j m =
    let (gs, en, rest) = bind-inv (check_node nodes i n bounds) _ fs e in
    omega (arith, all_lower-member i j n.input_nodes (check_node-lower nodes i n bounds gs en) m)
check_nodes-lower nodes (n ∷ ns) i bounds used fs e (suc k) j m =
    let (gs, en, rest) = bind-inv (check_node nodes i n bounds) _ fs e in
    omega (arith, check_nodes-lower nodes ns (i + 1) _ _ fs rest k j m)

-- The nodes of a program that the loader accepts are ordered.
pub check_program-IsOrdered :
    (pre : List ℕ) (p : Program) (fs : List ℕ) → check_program pre p ≡ some fs → IsOrdered p.nodes
unfolding check_program
check_program-IsOrdered pre p fs e =
    let (used, en, rest) = bind-inv (check_nodes p.nodes p.nodes 0 [] []) _ fs e in
    λ i j m. omega (arith, check_nodes-lower p.nodes p.nodes 0 [] [] used en i j m)
