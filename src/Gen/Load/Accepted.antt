-- ===== src/Gen/Load/Accepted.antt =====
-- What the checks of a bundle give of its programs, taken together.
use mathlib.Core.List.{Memᴰ}
use entid_go.Prelude.{
  not-inv, get_or, ◌<◌, ℕ, ◌+◌, ◌≤◌, ◌≡◌, refl, sym, ap, ◌∙◌, true, false, not, List, [], ◌∷◌,
  Option, some, arith, length, Bool-cases, inl, inr, bind-inv, unless, provided, ◌&&◌, &&-inv,
  ==_iff, ◌==◌,
}
use entid_go.Gen.Limits.{max_call_depth, member}
use entid_go.Gen.Model.{Node, no_node, DispatchTarget, Bundle, Program, program}
use entid_go.Gen.Load.{run_checks, pre_canonicalizers}
use entid_go.Gen.Load.Ordered.{IsOrdered, check_program-IsOrdered, member_head, member_tail}
use entid_go.Gen.Load.Programs.{check_program, check_headers, check_each, check_programs}
use entid_go.Gen.Load.Tokens.{check_rules_version}
use entid_go.Gen.Load.Definitions.{check_identifiers}
use entid_go.Gen.Load.Targets.{check_dispatchers}
use entid_go.Gen.Steps.{emit_steps, growth}
use entid_go.Gen.Steps.Fuel.{emit_steps_enough}
use entid_go.Gen.Load.Calls.{is_call, Depths, depth_of, check_call_graph}
use entid_go.Gen.Load.Calls.Walk.{CallsBelow}
use entid_go.Gen.Load.Calls.Depth.{Named, check_call_graph-ranked}

headers-cons :
    (ids : List ℕ) (total : ℕ) (q : Program) (qs : List Program)
    → check_headers ids total (q ∷ qs) ≡ true
    → (member q.id ids ≡ false) × (check_headers (q.id ∷ ids) (total + length q.nodes) qs ≡ true)
unfolding check_headers
headers-cons ids total q qs h =
    let (h₁, rest) = &&-inv _ _ h in
    let h₂ = (&&-inv _ _ (&&-inv _ _ (&&-inv _ _ (&&-inv _ _ h₁).0).0).0).0 in
    (not-inv _ (&&-inv _ _ h₂).1, rest)

headers-fresh :
    (ids : List ℕ) (total : ℕ) (ps : List Program) (p : Program)
    → check_headers ids total ps ≡ true
    → Memᴰ p ps
    → member p.id ids ≡ false
headers-fresh ids total [] p h m = elim m [ ]
headers-fresh ids total (q ∷ qs) p h m =
    let (fresh, rest) = headers-cons ids total q qs h in
    elim m [
      | Memᴰ.head same ↦ ap (λ x. member x.id ids) same ∙ fresh
      | Memᴰ.tail m' ↦ elim (Bool-cases (member p.id ids)) [
        | inl old ↦ absurd (
            let two =
              sym (member_tail q.id p.id ids old) ∙ headers-fresh (q.id ∷ ids) _ qs p rest m' in
            ground (arith, two))
        | inr new ↦ new
      ]
    ]

-- The programs of an accepted bundle have distinct ids.
headers-Named :
    (ids : List ℕ) (total : ℕ) (ps : List Program) → check_headers ids total ps ≡ true → Named ps ps
unfolding program
headers-Named ids total [] h p m = elim m [ ]
headers-Named ids total (q ∷ qs) h p m =
    let (fresh, rest) = headers-cons ids total q qs h in
    elim m [
      | Memᴰ.head same ↦ rw ((==_iff q.id p.id).1 (ap (λ x. x.id) (sym same))) (ap some (sym same))
      | Memᴰ.tail m' ↦ elim (Bool-cases (q.id == p.id)) [
        | inl clash ↦ absurd (
            let seen =
              ap (λ i. member i (q.id ∷ ids)) (sym ((==_iff q.id p.id).0 clash)) ∙ sym refl in
            let two =
              sym (member_head q.id ids) ∙ sym seen ∙ headers-fresh (q.id ∷ ids) _ qs p rest m' in
            ground (arith, two))
        | inr other ↦ rw other (headers-Named (q.id ∷ ids) _ qs rest p m')
      ]
    ]

check_each-member :
    (pre : List ℕ) (ps : List Program) (fs : List ℕ) (p : Program)
    → check_each pre ps ≡ some fs
    → Memᴰ p ps
    → (gs : List ℕ) × (check_program pre p ≡ some gs)
unfolding check_each
check_each-member pre [] fs p e m = elim m [ ]
check_each-member pre (q ∷ qs) fs p e m =
    let (gs, first, rest) = bind-inv (check_program pre q) _ fs e in
    let (hs, others, last) = bind-inv (check_each pre qs) _ fs rest in
    elim m [
      | Memᴰ.head same ↦ (gs, ap (check_program pre) same ∙ first)
      | Memᴰ.tail m' ↦ check_each-member pre qs hs p others m'
    ]

run_checks-inv :
    (b : Bundle) (declared : List ℕ) (black : Depths)
    → run_checks b declared ≡ some black
    → (fs : List ℕ) × (check_programs (pre_canonicalizers b.dispatchers) b.programs ≡ some fs)
      × (check_call_graph b.programs ≡ some black)
unfolding run_checks
run_checks-inv b declared black h =
    let pre = pre_canonicalizers b.dispatchers in
    let h₀ =
      unless (not (check_rules_version b.rules_version && length b.source_digest == 32)) _ black
        h in
    let (fs, e₁, h₁) = bind-inv (check_programs pre b.programs) _ black h₀ in
    let (gs, e₂, h₂) = bind-inv (check_identifiers b.programs b.identifiers) _ black h₁ in
    let (hs, e₃, h₃) =
      bind-inv (check_dispatchers b.programs b.identifiers b.dispatchers) _ black h₂ in
    let (black', e₄, h₄) = bind-inv (check_call_graph b.programs) _ black h₃ in
    let (declared, same) = provided _ (some black') black h₄ in (fs, e₁, e₄ ∙ same)

pub accepted-check_program :
    (b : Bundle) (declared : List ℕ) (black : Depths) (p : Program)
    → run_checks b declared ≡ some black
    → Memᴰ p b.programs
    → (fs : List ℕ) × (check_program (pre_canonicalizers b.dispatchers) p ≡ some fs)
unfolding check_programs
accepted-check_program b declared black p h m =
    let (fs, programs, graph) = run_checks-inv b declared black h in
    let (headers, each) = provided _ _ fs programs in
    check_each-member (pre_canonicalizers b.dispatchers) b.programs fs p each m

accepted-program :
    (b : Bundle) (declared : List ℕ) (black : Depths) (p : Program)
    → run_checks b declared ≡ some black
    → Memᴰ p b.programs
    → IsOrdered p.nodes
      × ((d : ℕ) × (depth_of black p.id ≡ some d)
          × (d ≤ max_call_depth)
          × CallsBelow b.programs black p.kind d p.nodes)
unfolding check_programs
accepted-program b declared black p h m =
    let (fs, programs, graph) = run_checks-inv b declared black h in
    let (headers, each) = provided _ _ fs programs in
    let (gs, checked) = check_each-member _ b.programs fs p each m in
    (
      check_program-IsOrdered _ p gs checked,
      check_call_graph-ranked b.programs black p graph (headers-Named [] 0 b.programs headers) m,
    )

-- In a bundle that passes the checks the calls have no cycle and are at most 32 programs deep: the caller
-- has a depth within the limit, and a call in it names a program of its own kind with a strictly smaller
-- depth.
pub run_checks-ranked :
    (b : Bundle) (declared : List ℕ) (black : Depths) (p : Program) (n : Node)
    → run_checks b declared ≡ some black
    → Memᴰ p b.programs
    → Memᴰ n p.nodes
    → is_call n ≡ true
    → (q : Program) × (d : ℕ) × (e : ℕ) × (program b.programs n.program_id ≡ some q)
      × (q.kind ≡ p.kind)
      × (depth_of black p.id ≡ some d)
      × (depth_of black n.program_id ≡ some e)
      × (e < d)
      × (d ≤ max_call_depth)
run_checks-ranked b declared black p n h m mn c =
    let (ordered, (d, deep, small, calls)) = accepted-program b declared black p h m in
    let (q, e, found, kinds, low, lower) = calls n mn c in
    (q, d, e, found, kinds, deep, low, lower, small)

-- In a bundle that passes the checks, an operand of a node stands before it.
pub run_checks-ordered :
    (b : Bundle) (declared : List ℕ) (black : Depths) (p : Program) (i j : ℕ)
    → run_checks b declared ≡ some black
    → Memᴰ p b.programs
    → member j (get_or p.nodes i no_node).input_nodes ≡ true
    → j < i
run_checks-ordered b declared black p i j h m mj =
    let (ordered, (d, deep, small, calls)) = accepted-program b declared black p h m in
    ordered i j mj

-- The generator's walks over a program of an accepted bundle end: with any fuel above the index of the
-- node, and so with the length of the program, the statements are the same, and so is the growth.
pub run_checks-emit_steps :
    (b : Bundle) (declared : List ℕ) (black : Depths) (p : Program) (t : Option DispatchTarget)
    (f i : ℕ)
    → run_checks b declared ≡ some black
    → Memᴰ p b.programs
    → i < length p.nodes
    → i < f
    → (emit_steps f p.nodes t i ≡ emit_steps (length p.nodes) p.nodes t i)
      × (growth f p.nodes t i ≡ growth (length p.nodes) p.nodes t i)
run_checks-emit_steps b declared black p t f i h m inside enough =
    let (ordered, (d, deep, small, calls)) = accepted-program b declared black p h m in
    emit_steps_enough f (length p.nodes) p.nodes t i ordered enough inside
