-- ===== src/Gen/Load/Calls/Walk.antt =====
-- load.go, the loop over the calls in `visit`, and the depths that it leaves.
use mathlib.Core.Path.{subst}
use mathlib.Core.List.{Memᴰ}
use entid_go.Prelude.{
  not-false, ℕ, ◌+◌, ◌≤◌, ◌<◌, ◌≡◌, sym, ap, ◌∙◌, Bool, true, false, not, List, [], ◌∷◌, Option,
  none, some, arith, ◌==◌, ==_iff, if◌then◌else◌, Bool-cases, inl, inr, bind-inv, some-eq, unless,
  unless-false, then_taken, else_taken,
}
use entid_go.Gen.Limits.{max_call_depth, member}
use entid_go.Gen.Model.{Node, Program, program}
use entid_go.Gen.Load.Calls.{Depths, depth_of, is_call, larger, visit_calls}

-- Every call of these nodes is to a program of the kind, with a depth below `d`.
abbrev pub CallsBelow : List Program → Depths → ℕ → ℕ → List Node → Type 0
CallsBelow ps black kind d nodes =
    (n : Node)
    → Memᴰ n nodes
    → is_call n ≡ true
    → (q : Program) × (e : ℕ) × (program ps n.program_id ≡ some q)
      × (q.kind ≡ kind)
      × (depth_of black n.program_id ≡ some e)
      × (e < d)

-- Every depth is that of a program, within the limit, and lowered by each call of it.
abbrev pub IsRanked : List Program → Depths → Type 0
IsRanked ps black =
    (id d : ℕ)
    → depth_of black id ≡ some d
    → (p : Program) × (program ps id ≡ some p)
      × (d ≤ max_call_depth)
      × CallsBelow ps black p.kind d p.nodes

abbrev pub Extends : Depths → Depths → Type 0
Extends black black' = (id d : ℕ) → depth_of black id ≡ some d → depth_of black' id ≡ some d

abbrev pub Spares : List ℕ → Depths → Depths → Type 0
Spares grey black black' =
    (id : ℕ) → member id grey ≡ true → depth_of black id ≡ none → depth_of black' id ≡ none

-- What a walk leaves: a ranked extension that colours no grey program.
abbrev pub Walks : List Program → List ℕ → Depths → Depths → Type 0
Walks ps grey black black' = IsRanked ps black' × Extends black black' × Spares grey black black'

pub program-id : (ps : List Program) (id : ℕ) (p : Program) → program ps id ≡ some p → p.id ≡ id
unfolding program
program-id [] id p e = absurd (ground arith)
program-id (q ∷ ps) id p e = elim (Bool-cases (q.id == id)) [
  | inl here ↦
      ap (λ r. r.id) (sym (some-eq _ _ (then_taken _ _ _ _ here e))) ∙ (==_iff q.id id).0 here
  | inr other ↦ program-id ps id p (else_taken _ _ _ _ other e)
]

pub CallsBelow-grow :
    (ps : List Program) (black black' : Depths) (kind d d' : ℕ) (nodes : List Node)
    → Extends black black'
    → d ≤ d'
    → CallsBelow ps black kind d nodes
    → CallsBelow ps black' kind d' nodes
CallsBelow-grow ps black black' kind d d' nodes ext le calls n m c =
    let (q, e, found, same, deep, low) = calls n m c in
    (q, e, found, same, ext _ e deep, omega arith)

-- The loop over the nodes, where exploring a callee walks on and gives the depth that it has.
abbrev pub Explores : List Program → List ℕ → (Program → Depths → Option (ℕ × Depths)) → Type 0
Explores ps grey explore =
    (p : Program) (black black' : Depths) (d : ℕ)
    → program ps p.id ≡ some p
    → IsRanked ps black
    → explore p black ≡ some (d, black')
    → Walks ps grey black black' × (depth_of black' p.id ≡ some d)

pub Walks-refl :
    (ps : List Program) (grey : List ℕ) (black : Depths)
    → IsRanked ps black
    → Walks ps grey black black
Walks-refl ps grey black r = (r, λ id d h. h, λ id m h. h)

larger-le : (a b : ℕ) → (a ≤ larger a b) × (b ≤ larger a b)
larger-le a b = ground arith

-- What the loop over the nodes leaves: the depth so far, and the coloured programs.
abbrev Done : List Program → List ℕ → ℕ → List Node → ℕ → Depths → ℕ × Depths → Type 0
Done ps grey kind nodes best black res =
    Walks ps grey black res.1 × (best ≤ res.0) × CallsBelow ps res.1 kind res.0 nodes

not-true : (b : Bool) → not b ≡ true → b ≡ true → ⊥
not-true true h k = ground arith
not-true false h k = ground arith

pub visit_calls_lem :
    (ps : List Program) (grey : List ℕ) (explore : Program → Depths → Option (ℕ × Depths))
    → Explores ps grey explore
    → (p : Program) (nodes : List Node) (best : ℕ) (black : Depths) (res : ℕ × Depths)
    → IsRanked ps black
    → visit_calls explore ps p nodes best black ≡ some res
    → Done ps grey p.kind nodes best black res
unfolding visit_calls
visit_calls_lem ps grey explore walk p [] best black res r e =
    subst (Done ps grey p.kind [] best black) (some-eq _ _ e)
      (Walks-refl ps grey black r, omega arith, λ n m c. elim m [ ])
visit_calls_lem ps grey explore walk p (n ∷ ns) best black res r e =
    elim (Bool-cases (not (is_call n))) [
      | inl plain ↦
          let (w, le, calls) =
            visit_calls_lem ps grey explore walk p ns best black res r
              (then_taken _ _ _ _ plain e) in
          (
            w,
            le,
            λ k m c. elim m [
              | Memᴰ.head same ↦ absurd (not-true (is_call n) plain (ap is_call (sym same) ∙ c))
              | Memᴰ.tail m' ↦ calls k m' c
            ],
          )
      | inr call ↦
          let (callee, found, e₁) =
            bind-inv (program ps n.program_id) _ res (else_taken _ _ _ _ call e) in
          let id = program-id ps n.program_id callee found in
          let ((d, mid), entered, rest) =
            bind-inv (if not (callee.kind == p.kind) then none else explore callee black) _ res
              e₁ in
          let kinds = (==_iff callee.kind p.kind).0 (not-false _ (unless-false _ _ _ entered)) in
          let explored = unless _ _ _ entered in
          let ((r', ext, spare), deep) =
            walk callee black mid d (ap (program ps) id ∙ found) r explored in
          let ((r″, ext', spare'), le, calls) =
            visit_calls_lem ps grey explore walk p ns (larger best (d + 1)) mid res r' rest in
          let (up, up') = larger-le best (d + 1) in
          (
            (r″, (λ i k h. ext' i k (ext i k h)), λ i m h. spare' i m (spare i m h)),
            omega (arith, le, up),
            λ k m c. elim m [
              | Memᴰ.head same ↦
                  let of = ap (λ x. x.program_id) same in
                  (
                    callee,
                    d,
                    ap (program ps) of ∙ found,
                    kinds,
                    ext' _ d (ap (depth_of mid) (of ∙ sym id) ∙ deep),
                    omega (arith, le, up'),
                  )
              | Memᴰ.tail m' ↦ calls k m' c
            ],
          )
    ]
