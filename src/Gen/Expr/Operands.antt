-- ===== src/Gen/Expr/Operands.antt =====
-- internal/gen/expr.go: the operands of a node that load.go accepts, as the emitter reads them.
use entid_go.Prelude.{
  ℕ, zero, suc, ◌<◌, ◌≡◌, refl, true, List, [], ◌∷◌, Option, some, arith, ==_iff, length, get_or,
  get_elem?, &&-inv, bind_on,
}
use entid_go.Gen.Limits.{member}
use entid_go.Gen.Opcodes.{OpSpec}
use entid_go.Gen.Model.{Node, no_node}
use entid_go.Gen.Load.Nodes.{check_operands, fixed_typed}
use entid_go.Gen.Load.Ordered.{member_head, member_tail}
use entid_go.Gen.Expr.{operand}

pub get_elem?-get_or :
    (nodes : List Node) (i : ℕ)
    → i < length nodes
    → get_elem? nodes i ≡ some (get_or nodes i no_node)
get_elem?-get_or [] i h = absurd (omega arith)
get_elem?-get_or (n ∷ ns) zero h = refl
get_elem?-get_or (n ∷ ns) (suc i) h = get_elem?-get_or ns i (omega arith)

pub check_operands-typed :
    (nodes : List Node) (i : ℕ) (n : Node) (s : OpSpec)
    → check_operands nodes i n s ≡ true
    → fixed_typed nodes n.input_nodes s.fixed ≡ true
unfolding check_operands
check_operands-typed nodes i n s e = (&&-inv _ _ (&&-inv _ _ e).0).1

-- What is written for an operand of a type.
abbrev pub Written {ℓ} : {A : Type ℓ} → List Node → Node → (ℕ → Option A) → ℕ → Type ℓ
Written {A = A} nodes n emit t =
    (j : ℕ)
    → member j n.input_nodes ≡ true
    → (get_or nodes j no_node).output_type ≡ t
    → (a : A) × (emit j ≡ some a)

module _ {ℓ} {A : Type ℓ} (nodes : List Node) (emit : ℕ → Option A) where
  fixed_first :
      (xs : List ℕ) (t : ℕ) (ts : List ℕ)
      → fixed_typed nodes xs (t ∷ ts) ≡ true
      → (x : ℕ) × (get_elem? xs 0 ≡ some x)
        × (member x xs ≡ true)
        × ((get_or nodes x no_node).output_type ≡ t)
  unfolding fixed_typed
  fixed_first [] t ts h = absurd (ground arith)
  fixed_first (x ∷ xs) t ts h =
      (x, refl, member_head x xs, (==_iff _ t).0 (&&-inv _ (fixed_typed nodes xs ts) h).0)

  fixed_second :
      (xs : List ℕ) (t u : ℕ) (ts : List ℕ)
      → fixed_typed nodes xs (t ∷ u ∷ ts) ≡ true
      → (x : ℕ) × (get_elem? xs 1 ≡ some x)
        × (member x xs ≡ true)
        × ((get_or nodes x no_node).output_type ≡ u)
  unfolding fixed_typed
  fixed_second [] t u ts h = absurd (ground arith)
  fixed_second (y ∷ xs) t u ts h =
      let (x, found, among, typed) =
        fixed_first xs u ts (&&-inv _ (fixed_typed nodes xs (u ∷ ts)) h).1 in
      (x, found, member_tail y x xs among, typed)

  pub operand-first :
      (n : Node) (t : ℕ) (ts : List ℕ)
      → fixed_typed nodes n.input_nodes (t ∷ ts) ≡ true
      → Written nodes n emit t
      → (a : A) × (operand n emit 0 ≡ some a)
  unfolding operand
  operand-first n t ts h written =
      let (x, found, among, typed) = fixed_first n.input_nodes t ts h in
      let (a, given) = written x among typed in
      (a, bind_on (get_elem? n.input_nodes 0) emit x (some a) found given)

  pub operand-second :
      (n : Node) (t u : ℕ) (ts : List ℕ)
      → fixed_typed nodes n.input_nodes (t ∷ u ∷ ts) ≡ true
      → Written nodes n emit u
      → (a : A) × (operand n emit 1 ≡ some a)
  unfolding operand
  operand-second n t u ts h written =
      let (x, found, among, typed) = fixed_second n.input_nodes t u ts h in
      let (a, given) = written x among typed in
      (a, bind_on (get_elem? n.input_nodes 1) emit x (some a) found given)
