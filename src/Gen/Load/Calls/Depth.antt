-- ===== src/Gen/Load/Calls/Depth.antt =====
-- load.go, `checkCallGraph`: the depths of the programs and of those that they call.
use mathlib.Core.Path.{subst}
use mathlib.Core.List.{Memᴰ}
use entid_go.Prelude.{
  ℕ, ◌+◌, ◌≤◌, ◌≡◌, refl, sym, ap, ◌∙◌, List, [], ◌∷◌, some, arith, length, bind-inv, some-eq,
}
use entid_go.Gen.Limits.{max_call_depth}
use entid_go.Gen.Model.{Program, program}
use entid_go.Gen.Load.Calls.{Depths, depth_of, visit, visit_all, check_call_graph}
use entid_go.Gen.Load.Calls.Walk.{CallsBelow, IsRanked, Extends}
use entid_go.Gen.Load.Calls.Visit.{visit_lem}

-- A list of programs in which an id names one of them.
abbrev pub Named : List Program → List Program → Type 0
Named ps qs = (p : Program) → Memᴰ p qs → program ps p.id ≡ some p

visit_all_lem :
    (f : ℕ) (ps qs : List Program) (black black' : Depths)
    → Named ps qs
    → IsRanked ps black
    → visit_all f ps qs black ≡ some black'
    → IsRanked ps black'
      × Extends black black'
      × ((p : Program) → Memᴰ p qs → (d : ℕ) × (depth_of black' p.id ≡ some d))
unfolding visit_all
visit_all_lem f ps [] black black' names r e =
    let same = some-eq black black' e in
    (subst (IsRanked ps) same r, subst (Extends black) same (λ id d h. h), λ p m. elim m [ ])
visit_all_lem f ps (q ∷ qs) black black' names r e =
    let ((d, mid), visited, rest) = bind-inv (visit f ps [] q black) _ black' e in
    let ((r', ext, spare), deep) =
      visit_lem f ps [] q black mid d (names q (Memᴰ.head refl)) r visited in
    let (r″, ext', all) = visit_all_lem f ps qs mid black' (λ p m. names p (Memᴰ.tail m)) r' rest in
    (
      r″,
      (λ i k h. ext' i k (ext i k h)),
      λ p m. elim m [
        | Memᴰ.head same ↦ (d, ext' p.id d (ap (λ x. depth_of mid x.id) same ∙ deep))
        | Memᴰ.tail m' ↦ all p m'
      ],
    )

nothing-IsRanked : (ps : List Program) → IsRanked ps []
unfolding depth_of
nothing-IsRanked ps id d h = absurd (ground (arith, h))

-- An accepted call graph has no cycle and is at most 32 programs deep: every program has a depth within
-- the limit, and each call in it names a program of the same kind with a strictly smaller depth. The ids
-- of the programs are taken to be distinct, as an earlier check has it.
pub check_call_graph-ranked :
    (ps : List Program) (black : Depths) (p : Program)
    → check_call_graph ps ≡ some black
    → Named ps ps
    → Memᴰ p ps
    → (d : ℕ) × (depth_of black p.id ≡ some d)
      × (d ≤ max_call_depth)
      × CallsBelow ps black p.kind d p.nodes
unfolding check_call_graph
check_call_graph-ranked ps black p e names m =
    let (r, ext, all) =
      visit_all_lem (length ps + 1) ps ps [] black names (nothing-IsRanked ps) e in
    let (d, deep) = all p m in
    let (q, found, small, calls) = r p.id d deep in
    let same = some-eq _ _ (sym found ∙ names p m) in
    (d, deep, small, subst (λ x. CallsBelow ps black x.kind d x.nodes) same calls)
