-- ===== src/Gen/Steps/Accepted.antt =====
-- emit_programs.go on the canonicalization programs of a bundle that load.go accepts.
use mathlib.Core.List.{Memᴰ}
use entid_go.Prelude.{
  ℕ, ◌+◌, ◌-◌, ◌≤◌, ◌<◌, ◌≡◌, refl, ◌∙◌, Bool, true, false, ◌&&◌, List, [], none, some, arith, ltb,
  leb, ◌==◌, ==_iff, if◌then◌else◌, length, get_or, Bytes, bind-inv, unless, unless-false, provided,
  then_taken, &&-inv,
}
use entid_go.Gen.Limits.{max_steps, max_input_bytes}
use entid_go.Gen.Opcodes.{Opcode, is_op, op_canon_sequence}
use entid_go.Gen.Opcodes.Specs.{spec}
use entid_go.Gen.Model.{
  Bundle, Program, DispatchTarget, no_node, program_canonicalization, value_canonicalization_step,
}
use entid_go.Gen.Load.{run_checks}
use entid_go.Gen.Load.Expansion.{expansion_of}
use entid_go.Gen.Load.Calls.{Depths}
use entid_go.Gen.Load.Accepted.{accepted-check_program}
use entid_go.Gen.Load.Programs.{
  check_nodes, check_subject, check_captures, check_categories, check_root, check_program,
}
use entid_go.Runtime.Buffer.{Buf, new}
use entid_go.Gen.Steps.{Statement, run, emit_steps, ScratchSizing, size, size_scratch, considered}
use entid_go.Gen.Steps.Fits.{Leaves}
use entid_go.Gen.Steps.Sizing.{Settled, growth_of, canonicalizer-succeeds}
use entid_go.Gen.Steps.Emission.{IsChecked, check_program-IsChecked, emit_steps_total}

root_output :
    (op : Opcode)
    → is_op op op_canon_sequence ≡ true
    → (spec op).output ≡ value_canonicalization_step
unfolding spec
root_output op_canon_sequence h = refl
root_output op h = absurd (ground (arith, h))

check_root-canonicalization :
    (p : Program)
    → p.kind ≡ program_canonicalization
    → check_root p ≡ true
    → is_op (get_or p.nodes p.root_node no_node).op op_canon_sequence ≡ true
unfolding check_root
check_root-canonicalization p kind h =
    then_taken (p.kind == program_canonicalization) _ _ _ ((==_iff p.kind _).1 kind) h

lt_of_not_leb : (a b : ℕ) → leb a b ≡ false → b < a
lt_of_not_leb a b h = ground arith

check_program-emit_steps :
    (pre : List ℕ) (p : Program) (fs : List ℕ) (t : DispatchTarget)
    → check_program pre p ≡ some fs
    → p.kind ≡ program_canonicalization
    → (st : Statement) × (emit_steps (length p.nodes) p.nodes (some t) p.root_node ≡ some st)
unfolding check_program
check_program-emit_steps pre p fs t e kind =
    let outside = leb (length p.nodes) p.root_node in
    let (used, nodes_fine, e₁) = bind-inv (check_nodes p.nodes p.nodes 0 [] []) _ fs e in
    let (subject, root_fine, e₂) =
      bind-inv
        (if ltb p.root_node (length p.nodes) && ltb max_steps (expansion_of p)
          then none
          else if outside
          then none
          else check_subject p)
        _ fs e₁ in
    let (captures, captured, e₃) = bind-inv (check_captures p) _ fs e₂ in
    let (shaped, last) = provided (check_categories pre p 0 p.nodes && check_root p) _ fs e₃ in
    let inside =
      lt_of_not_leb (length p.nodes) p.root_node
        (unless-false outside (check_subject p) subject (unless _ _ subject root_fine)) in
    let checked : (i : ℕ) → i < length p.nodes → IsChecked p.nodes i (get_or p.nodes i no_node) =
      λ i h. check_program-IsChecked pre p fs i e h in
    let root = check_root-canonicalization p kind (&&-inv _ _ shaped).1 in
    emit_steps_total p.nodes t checked (length p.nodes) p.root_node inside inside
      ((checked p.root_node inside).0 ∙ root_output _ root)

-- In a bundle that passes the checks and whose workspace is sized, in which no program is reached through two
-- targets for which it grows differently: for each canonicalization program and target that the sizing
-- considers, the statements are written, and they succeed on every input of at most 1024 bytes in a scratch
-- of the sized length and left margin, whatever the conditions answer.
pub accepted-canonicalizer :
    (truth : ℕ → Buf → Bool) (b : Bundle) (declared : List ℕ) (black : Depths) (fin : ScratchSizing)
    (p : Program) (t : DispatchTarget) (s scratch : Bytes)
    → run_checks b declared ≡ some black
    → size_scratch b ≡ some fin
    → Settled (considered b)
    → Memᴰ p b.programs
    → p.kind ≡ program_canonicalization
    → Memᴰ (some p, some t) (considered b)
    → length s ≤ max_input_bytes
    → length scratch ≡ size fin
    → (st : Statement) × (emit_steps (length p.nodes) p.nodes (some t) p.root_node ≡ some st)
      × Leaves
          (run truth st (new s scratch fin.left))
          (fin.left - (growth_of (some p, some t)).0)
          (max_input_bytes + fin.right - length s - (growth_of (some p, some t)).1)
accepted-canonicalizer truth b declared black fin p t s scratch h sized settled m kind reached small
      room =
    let (fs, checked) = accepted-check_program b declared black p h m in
    let (st, emitted) = check_program-emit_steps _ p fs t checked kind in
    (
      st,
      emitted,
      canonicalizer-succeeds truth b fin p (some t) st s scratch sized settled reached emitted small
          room,
    )
