-- ===== src/Gen/Steps/Fuel.antt =====
-- The fuel of `emit_steps` and `growth` on nodes that stand behind their operands.
use entid_go.Prelude.{
  ℕ, zero, suc, ◌<◌, ◌≡◌, refl, true, List, [], ◌∷◌, Option, arith, get_or, drop,
}
use entid_go.Gen.Limits.{member}
use entid_go.Gen.Opcodes.{Opcode, op_canon_sequence, op_canon_when}
use entid_go.Gen.Model.{Node, DispatchTarget, no_node}
use entid_go.Gen.Load.Ordered.{IsOrdered, member_head, member_tail}
use entid_go.Gen.Steps.{
  Statement, emit_each, emit_when, emit_step, emit_steps, growth_each, growth_step, growth,
}

abbrev Agree : {A : Type 0} → (ℕ → A) → (ℕ → A) → List ℕ → Type 0
Agree f g is = (j : ℕ) → member j is ≡ true → f j ≡ g j

emit_each_same :
    (f g : ℕ → Option Statement) (is : List ℕ) → Agree f g is → emit_each f is ≡ emit_each g is
emit_each_same f g [] same = refl
emit_each_same f g (i ∷ is) same =
    rw (same i (member_head i is), emit_each_same f g is (λ j h. same j (member_tail i j is h)))
      refl

emit_when_same :
    (f g : ℕ → Option Statement) (is : List ℕ) → Agree f g is → emit_when f is ≡ emit_when g is
emit_when_same f g [] same = refl
emit_when_same f g (i ∷ is) same =
    rw (emit_each_same f g is (λ j h. same j (member_tail i j is h))) refl

emit_step_same :
    (op : Opcode) (n : Node) (t : Option DispatchTarget) (f g : ℕ → Option Statement)
    → Agree f g n.input_nodes
    → emit_step op n t f ≡ emit_step op n t g
emit_step_same op_canon_sequence n t f g same = emit_each_same f g n.input_nodes same
emit_step_same op_canon_when n t f g same = emit_when_same f g n.input_nodes same
emit_step_same op n t f g same = refl

growth_each_same :
    (f g : ℕ → ℕ × ℕ) (is : List ℕ) → Agree f g is → growth_each f is ≡ growth_each g is
growth_each_same f g [] same = refl
growth_each_same f g (i ∷ is) same =
    rw (same i (member_head i is), growth_each_same f g is (λ j h. same j (member_tail i j is h)))
      refl

growth_rest_same :
    (f g : ℕ → ℕ × ℕ) (is : List ℕ)
    → Agree f g is
    → growth_each f (drop 1 is) ≡ growth_each g (drop 1 is)
growth_rest_same f g [] same = refl
growth_rest_same f g (i ∷ is) same = growth_each_same f g is (λ j h. same j (member_tail i j is h))

growth_step_same :
    (op : Opcode) (n : Node) (t : Option DispatchTarget) (f g : ℕ → ℕ × ℕ)
    → Agree f g n.input_nodes
    → growth_step op n t f ≡ growth_step op n t g
growth_step_same op_canon_sequence n t f g same = growth_each_same f g n.input_nodes same
growth_step_same op_canon_when n t f g same = growth_rest_same f g n.input_nodes same
growth_step_same op n t f g same = refl

-- The recursion of `emitSteps` and of `growth` ends: on ordered nodes any fuel above the index of the
-- node gives the same statements, and the same growth.
pub emit_steps_enough :
    (f g : ℕ) (nodes : List Node) (t : Option DispatchTarget) (i : ℕ)
    → IsOrdered nodes
    → i < f
    → i < g
    → (emit_steps f nodes t i ≡ emit_steps g nodes t i) × (growth f nodes t i ≡ growth g nodes t i)
unfolding emit_steps growth
emit_steps_enough zero g nodes t i o hf hg = absurd (omega arith)
emit_steps_enough (suc f) zero nodes t i o hf hg = absurd (omega arith)
emit_steps_enough (suc f) (suc g) nodes t i o hf hg =
    let n = get_or nodes i no_node in
    let below : (j : ℕ)
        → member j n.input_nodes ≡ true
        → (emit_steps f nodes t j ≡ emit_steps g nodes t j)
          × (growth f nodes t j ≡ growth g nodes t j) =
      λ j m.
        let before = o i j m in
        emit_steps_enough f g nodes t j o (omega (arith, before)) (omega (arith, before)) in
    (
      emit_step_same n.op n t _ _ (λ j m. (below j m).0),
      growth_step_same n.op n t _ _ (λ j m. (below j m).1),
    )
