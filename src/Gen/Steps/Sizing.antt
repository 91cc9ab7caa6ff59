-- ===== src/Gen/Steps/Sizing.antt =====
-- The workspace that `sizeScratch` sizes, and the canonicalizers that run in it.
use Prim.Native.Nat.{max}
use native.Mathlib.Nat.{le-max_left, le-max_right}
use mathlib.Core.List.{Memᴰ}
use entid_go.Prelude.{
  ℕ, ◌+◌, ◌-◌, ◌≤◌, ◌≡◌, refl, sym, ap, ◌∙◌, Bool, true, List, [], ◌∷◌, Option, none, some, arith,
  length, Bytes, Bool-cases, inl, inr, some-eq, unless, then_taken, else_taken, ||-inv, ==_iff,
  ◌==◌, ◌⊎◌,
}
use entid_go.Gen.Limits.{max_input_bytes, member}
use entid_go.Gen.Model.{Program, DispatchTarget, Bundle}
use entid_go.Gen.Steps.{
  Statement, run, emit_steps, growth, ScratchSizing, size, size_each, size_scratch, considered,
}
use entid_go.Gen.Steps.Fits.{Leaves}
use entid_go.Gen.Steps.Growth.{run-growth}
use entid_go.Runtime.Buffer.{Buf, new}
use entid_go.Runtime.Buffer.Holds.{Holds, shares}

-- A program with the target that it is reached through: its id, and the growth that it is sized for.
abbrev pub Reached : Type 0
Reached = Option Program × Option DispatchTarget

abbrev pub id_of : Reached → ℕ
id_of (none, t) = 0
id_of (some p, t) = p.id

abbrev pub growth_of : Reached → ℕ × ℕ
growth_of (none, t) = (0, 0)
growth_of (some p, t) = growth (length p.nodes) p.nodes t p.root_node

abbrev Within : ScratchSizing → Reached → Type 0
Within out c = ((growth_of c).0 ≤ out.left) × ((growth_of c).1 ≤ out.right)

-- The program of `c` was sized, for the target of `c` or for another.
abbrev Sized : List Reached → ScratchSizing → Reached → Type 0
Sized ps out c = (d : Reached) × Memᴰ d ps × (id_of d ≡ id_of c) × Within out d

later :
    (c : Reached) {d : Reached} {ps : List Reached} {out : ScratchSizing}
    → Sized ps out c
    → Sized (d ∷ ps) out c
later c (d, m, e, w) = (d, Memᴰ.tail m, e, w)

-- The loop only widens, and each program that is not yet seen is sized once: for one of the targets that
-- it is reached through.
size_each_lem :
    (ps : List Reached) (seen : List ℕ) (out fin : ScratchSizing)
    → size_each ps seen out ≡ some fin
    → (out.left ≤ fin.left)
      × (out.right ≤ fin.right)
      × ((c : Reached) → Memᴰ c ps → (member (id_of c) seen ≡ true) ⊎ Sized ps fin c)
unfolding size_each
size_each_lem [] seen out fin e =
    let same = some-eq _ _ e in
    (omega (arith, ap (λ o. o.left) same), omega (arith, ap (λ o. o.right) same), λ c m. elim m [ ])
size_each_lem ((none, t) ∷ ps) seen out fin e =
    let (wider, wider', sized) = size_each_lem ps seen out fin e in
    (
      wider,
      wider',
      λ c m. elim m [
        | Memᴰ.head same ↦
            let nothing : growth_of c ≡ (0, 0) = ap growth_of same in
            inr (
              c,
              Memᴰ.head same,
              refl,
              (omega (arith, ap (λ g. g.0) nothing), omega (arith, ap (λ g. g.1) nothing)),
            )
        | Memᴰ.tail m' ↦ elim (sized c m') [ inl old ↦ inl old | inr s ↦ inr (later c s) ]
      ],
    )
size_each_lem ((some p, t) ∷ ps) seen out fin e = elim (Bool-cases (member p.id seen)) [
  | inl old ↦
      let (wider, wider', sized) = size_each_lem ps seen out fin (then_taken _ _ _ _ old e) in
      (
        wider,
        wider',
        λ c m. elim m [
          | Memᴰ.head same ↦ inl (ap (λ q. member (id_of q) seen) same ∙ old)
          | Memᴰ.tail m' ↦ elim (sized c m') [ inl o ↦ inl o | inr s ↦ inr (later c s) ]
        ],
      )
  | inr fresh ↦
      let g = growth_of (some p, t) in
      let mid : ScratchSizing = record { left = max out.left g.0; right = max out.right g.1 } in
      let (wider, wider', sized) =
        size_each_lem ps (p.id ∷ seen) mid fin (unless _ _ _ (else_taken _ _ _ _ fresh e)) in
      let within : Within fin (some p, t) = (
        omega (arith, wider, le-max_right out.left g.0),
        omega (arith, wider', le-max_right out.right g.1),
      ) in
      (
        omega (arith, wider, le-max_left out.left g.0),
        omega (arith, wider', le-max_left out.right g.1),
        λ c m. elim m [
          | Memᴰ.head same ↦ inr ((some p, t), Memᴰ.head refl, sym (ap id_of same), within)
          | Memᴰ.tail m' ↦ elim (sized c m') [
            | inl o ↦ elim (||-inv (p.id == id_of c) (member (id_of c) seen) o) [
              | inl now ↦ inr ((some p, t), Memᴰ.head refl, (==_iff p.id (id_of c)).0 now, within)
              | inr before ↦ inl before
            ]
            | inr s ↦ inr (later c s)
          ]
        ],
      )
]

-- No program is reached through two targets for which it grows differently.
abbrev pub Settled : List Reached → Type 0
Settled ps = (c d : Reached) → Memᴰ c ps → Memᴰ d ps → id_of c ≡ id_of d → growth_of c ≡ growth_of d

-- The sized margins hold the growth of every canonicalizer, in a bundle in which no program is reached
-- through two targets for which it grows differently.
pub size_scratch-growth :
    (b : Bundle) (fin : ScratchSizing) (c : Reached)
    → size_scratch b ≡ some fin
    → Settled (considered b)
    → Memᴰ c (considered b)
    → ((growth_of c).0 ≤ fin.left) × ((growth_of c).1 ≤ fin.right)
unfolding size_scratch
size_scratch-growth b fin c e settled m =
    let (wider, wider', sized) =
      size_each_lem (considered b) [] (record { left = 0; right = 0 }) fin e in
    elim (sized c m) [
      | inl never ↦ absurd (ground arith)
      | inr (d, m', same, (l, r)) ↦
          let alike = settled c d m m' (sym same) in
          (omega (arith, l, ap (λ g. g.0) alike), omega (arith, r, ap (λ g. g.1) alike))
    ]

-- In a bundle whose workspace is sized, and in which no program is reached through two targets for which it
-- grows differently: the statements that are written for a program and target that the sizing considers
-- succeed on every input of at most 1024 bytes, in a scratch of the sized length and left margin, whatever
-- the conditions answer, and leave the room that the growth does not take.
pub canonicalizer-succeeds :
    (truth : ℕ → Buf → Bool) (b : Bundle) (fin : ScratchSizing) (p : Program)
    (t : Option DispatchTarget) (st : Statement) (s scratch : Bytes)
    → size_scratch b ≡ some fin
    → Settled (considered b)
    → Memᴰ (some p, t) (considered b)
    → emit_steps (length p.nodes) p.nodes t p.root_node ≡ some st
    → length s ≤ max_input_bytes
    → length scratch ≡ size fin
    → Leaves
        (run truth st (new s scratch fin.left))
        (fin.left - (growth_of (some p, t)).0)
        (max_input_bytes + fin.right - length s - (growth_of (some p, t)).1)
canonicalizer-succeeds truth b fin p t st s scratch e settled m emitted small sized =
    let (l, r) = size_scratch-growth b fin (some p, t) e settled m in
    let start : Holds (new s scratch fin.left) s fin.left (max_input_bytes + fin.right - length s) =
      shares
        (record { in_input = refl; input = refl; margin = refl; room = omega (arith, sized) }) in
    run-growth truth (length p.nodes) p.nodes t p.root_node st _ s fin.left _ emitted start l
      (omega (arith, r))
