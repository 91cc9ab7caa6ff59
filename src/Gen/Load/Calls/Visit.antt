-- ===== src/Gen/Load/Calls/Visit.antt =====
-- load.go, the closure `visit` of `checkCallGraph`.
use mathlib.Core.Path.{subst}
use entid_go.Prelude.{
  ◌⊎◌, ℕ, zero, suc, ◌≤◌, ◌≡◌, refl, sym, ap, ◌∙◌, true, false, List, ◌∷◌, Option, none, some,
  arith, ltb, ◌==◌, ==_iff, Bool-cases, Option-cases, inl, inr, bind-inv, some-eq, unless,
  unless-false, then_taken, else_taken, ◌>>=◌,
}
use entid_go.Gen.Limits.{max_call_depth, member}
use entid_go.Gen.Model.{Program, program}
use entid_go.Gen.Load.Ordered.{member_head, member_tail}
use entid_go.Gen.Load.Calls.{Depths, depth_of, visit_calls, known_or, blacken, visit}
use entid_go.Gen.Load.Calls.Walk.{
  CallsBelow, IsRanked, Extends, Spares, Walks, CallsBelow-grow, Explores, Walks-refl,
  visit_calls_lem,
}

depth_of-here : (id d : ℕ) (black : Depths) → depth_of ((id, d) ∷ black) id ≡ some d
unfolding depth_of
depth_of-here id d black = rw ((==_iff id id).1 refl) refl

depth_of-later :
    (id k d e : ℕ) (black : Depths)
    → depth_of black id ≡ none
    → depth_of black k ≡ some e
    → depth_of ((id, d) ∷ black) k ≡ some e
unfolding depth_of
depth_of-later id k d e black fresh h = elim (Bool-cases (id == k)) [
  | inl same ↦
      let two = sym fresh ∙ ap (depth_of black) ((==_iff id k).0 same) ∙ h in
      absurd (ground (arith, two))
  | inr other ↦ rw other h
]

depth_of-inv :
    (id k d e : ℕ) (black : Depths)
    → depth_of ((id, d) ∷ black) k ≡ some e
    → ((id ≡ k) × (d ≡ e)) ⊎ (depth_of black k ≡ some e)
unfolding depth_of
depth_of-inv id k d e black h = elim (Bool-cases (id == k)) [
  | inl same ↦ inl ((==_iff id k).0 same, some-eq _ _ (then_taken _ _ _ _ same h))
  | inr other ↦ inr (else_taken _ _ _ _ other h)
]

-- A program of depth `d` joins those that were coloured.
join :
    (ps : List Program) (p : Program) (d : ℕ) (black : Depths)
    → program ps p.id ≡ some p
    → depth_of black p.id ≡ none
    → d ≤ max_call_depth
    → CallsBelow ps black p.kind d p.nodes
    → IsRanked ps black
    → IsRanked ps ((p.id, d) ∷ black) × Extends black ((p.id, d) ∷ black)
join ps p d black found fresh low calls r =
    let ext : Extends black ((p.id, d) ∷ black) =
      λ k e h. depth_of-later p.id k d e black fresh h in
    (
      λ k e h. elim (depth_of-inv p.id k d e black h) [
        | inl (same, deep) ↦ (
          p,
          ap (program ps) (sym same) ∙ found,
          omega (arith, deep, low),
          CallsBelow-grow ps black ((p.id, d) ∷ black) p.kind d e p.nodes ext (omega (arith, deep))
              calls,
        )
        | inr before ↦
            let (q, known, small, lower) = r k e before in
            (
              q,
              known,
              small,
              CallsBelow-grow ps black ((p.id, d) ∷ black) q.kind e e q.nodes ext (omega arith)
                  lower,
            )
      ],
      ext,
    )

not_grey : (id k : ℕ) (grey : List ℕ) → member id grey ≡ false → member k grey ≡ true → id ≡ k → ⊥
not_grey id k grey h m same =
    let two = sym h ∙ ap (λ i. member i grey) same ∙ m in ground (arith, two)

Spares-cons :
    (grey : List ℕ) (id d : ℕ) (black black' : Depths)
    → member id grey ≡ false
    → Spares (id ∷ grey) black black'
    → Spares grey black ((id, d) ∷ black')
unfolding depth_of
Spares-cons grey id d black black' white spare k m fresh = elim (Bool-cases (id == k)) [
  | inl same ↦ absurd (not_grey id k grey white m ((==_iff id k).0 same))
  | inr other ↦ rw other (spare k (member_tail id k grey m) fresh)
]

abbrev Result : List Program → List ℕ → ℕ → Depths → ℕ × Depths → Type 0
Result ps grey id black res = Walks ps grey black res.1 × (depth_of res.1 id ≡ some res.0)

known_none :
    (o : Option ℕ) (black : Depths) (explored : Option (ℕ × Depths))
    → o ≡ none
    → explored ≡ known_or o black explored
known_none o black explored e = rw e refl

known_some :
    (o : Option ℕ) (d : ℕ) (black : Depths) (explored : Option (ℕ × Depths))
    → o ≡ some d
    → some (d, black) ≡ known_or o black explored
known_some o d black explored e = rw e refl

le_of_not_ltb : (a b : ℕ) → ltb a b ≡ false → b ≤ a
le_of_not_ltb a b h = ground arith

pub visit_lem : (f : ℕ) (ps : List Program) (grey : List ℕ) → Explores ps grey (visit f ps grey)
unfolding visit
visit_lem zero ps grey p black black' d found r e = absurd (ground arith)
visit_lem (suc f) ps grey p black black' d found r e =
    let explored₀ = visit_calls (visit f ps (p.id ∷ grey)) ps p p.nodes 1 black in
    let settled = known_or (depth_of black p.id) black (explored₀ >>= blacken p) in
    let white = unless-false (member p.id grey) settled (d, black') e in
    let e₁ = unless (member p.id grey) settled (d, black') e in
    elim (Option-cases (depth_of black p.id)) [
      | inl fresh ↦
          let e₂ = known_none _ black _ fresh ∙ e₁ in
          let ((best, mid), explored, rest) =
            bind-inv (visit_calls (visit f ps (p.id ∷ grey)) ps p p.nodes 1 black) _ (d, black')
              e₂ in
          let ((r', ext, spare), le, calls) =
            visit_calls_lem ps (p.id ∷ grey) (visit f ps (p.id ∷ grey))
              (visit_lem f ps (p.id ∷ grey)) p p.nodes 1 black (best, mid) r explored in
          let shallow = le_of_not_ltb max_call_depth best (unless-false _ _ _ rest) in
          let done = some-eq (best, (p.id, best) ∷ mid) (d, black') (unless _ _ _ rest) in
          let still = spare p.id (member_head p.id grey) fresh in
          let (r″, ext') = join ps p best mid found still shallow calls r' in
          subst (Result ps grey p.id black) done (
            (r″, (λ i k h. ext' i k (ext i k h)), Spares-cons grey p.id best black mid white spare),
            depth_of-here p.id best mid,
          )
      | inr (k, known) ↦
          let done = some-eq (k, black) (d, black') (known_some _ k black _ known ∙ e₁) in
          subst (Result ps grey p.id black) done (Walks-refl ps grey black r, known)
    ]
