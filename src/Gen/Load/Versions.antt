-- ===== src/Gen/Load/Versions.antt =====
-- internal/gen/load.go, `checkVersions`: when it answers that a bundle is incompatible.
use entid_go.Prelude.{
  ℕ, ◌≡◌, ◌≢◌, ◌⊎◌, ◌↔◌, refl, ap, inl, inr, Bool, true, false, not, ◌&&◌, List, [], ◌∷◌, ◌++◌,
  arith, ltb, leb, ◌==◌, ==_iff, Bool-cases, if◌then◌else◌, else_taken, &&-inv,
}
use entid_go.Gen.Limits.{supported_feature, supported_format_version}
use entid_go.Gen.Model.{Bundle}
use entid_go.Gen.Load.Nodes.{ascending}
use entid_go.Gen.Load.{
  Verdict, invalid_ruleset, incompatible_ruleset, check_features, check_versions,
}

-- A capability that is not supported, with the order kept up to it.
abbrev Unsupported : List ℕ → Type 0
Unsupported ids =
    (pre : List ℕ) × (id : ℕ) × (post : List ℕ) × (ids ≡ pre ++ id ∷ post)
    × (ascending (pre ++ id ∷ []) ≡ true)
    × (supported_feature id ≡ false)

-- One round of the loop, whatever its tests and the rounds behind it answer.
abbrev round : Bool → Bool → Verdict → Verdict
round down known rest =
    if down then invalid_ruleset else if not known then incompatible_ruleset else rest

round-refused :
    (down known : Bool) (rest : Verdict)
    → down ≡ false
    → (known ≡ false) ⊎ (rest ≡ incompatible_ruleset)
    → round down known rest ≡ incompatible_ruleset
round-refused true known rest up h = absurd (ground arith)
round-refused false false rest up h = refl
round-refused false true rest up (inl h) = absurd (ground arith)
round-refused false true rest up (inr h) = h

round-inv :
    (down known : Bool) (rest : Verdict)
    → round down known rest ≡ incompatible_ruleset
    → (down ≡ false) × ((known ≡ false) ⊎ (rest ≡ incompatible_ruleset))
round-inv true known rest h = absurd (ground arith)
round-inv false false rest h = (refl, inl refl)
round-inv false true rest h = (refl, inr h)

not_below : (d i : ℕ) → ltb d i ≡ true → leb i d ≡ false
not_below d i h = ground (arith, h)

not_down : (d i : ℕ) → leb i d ≡ false → ltb d i ≡ true
not_down d i h = ground (arith, h)

features-refused :
    (d : ℕ) (ds pre : List ℕ) (id : ℕ) (post : List ℕ)
    → ascending (d ∷ pre ++ id ∷ []) ≡ true
    → supported_feature id ≡ false
    → check_features (d ∷ ds) (pre ++ id ∷ post) ≡ incompatible_ruleset
unfolding check_features ascending
features-refused d ds [] id post up unknown =
    let above = (&&-inv (ltb d id) _ up).0 in
    round-refused (leb id d) (supported_feature id) _ (not_below d id above) (inl unknown)
features-refused d ds (p ∷ pre) id post up unknown =
    let (above, later) = &&-inv (ltb d p) (ascending (p ∷ pre ++ id ∷ [])) up in
    round-refused (leb p d) (supported_feature p) _ (not_below d p above)
      (inr (features-refused p (d ∷ ds) pre id post later unknown))

features-Unsupported :
    (d : ℕ) (ds ids : List ℕ)
    → check_features (d ∷ ds) ids ≡ incompatible_ruleset
    → (pre : List ℕ) × (id : ℕ) × (post : List ℕ) × (ids ≡ pre ++ id ∷ post)
      × (ascending (d ∷ pre ++ id ∷ []) ≡ true)
      × (supported_feature id ≡ false)
unfolding check_features ascending
features-Unsupported d ds [] h = absurd (ground arith)
features-Unsupported d ds (i ∷ ids) h =
    let (up, why) = round-inv (leb i d) (supported_feature i) _ h in
    let above = not_down d i up in
    elim why [
      | inl unknown ↦ ([], i, ids, refl, ap (λ b. b && true) above, unknown)
      | inr later ↦
          let (pre, id, post, same, rest, unknown) = features-Unsupported i (d ∷ ds) ids later in
          (i ∷ pre, id, post, ap (λ t. i ∷ t) same, rw (above, rest) refl, unknown)
    ]

first-refused :
    (pre : List ℕ) (id : ℕ) (post : List ℕ)
    → ascending (pre ++ id ∷ []) ≡ true
    → supported_feature id ≡ false
    → check_features [] (pre ++ id ∷ post) ≡ incompatible_ruleset
unfolding check_features ascending
first-refused [] id post up unknown =
    round-refused false (supported_feature id) _ refl (inl unknown)
first-refused (p ∷ pre) id post up unknown =
    round-refused false (supported_feature p) _ refl
      (inr (features-refused p [] pre id post up unknown))

first-Unsupported : (ids : List ℕ) → check_features [] ids ≡ incompatible_ruleset → Unsupported ids
unfolding check_features ascending
first-Unsupported [] h = absurd (ground arith)
first-Unsupported (i ∷ ids) h = elim (round-inv false (supported_feature i) _ h).1 [
  | inl unknown ↦ ([], i, ids, refl, refl, unknown)
  | inr later ↦
      let (pre, id, post, same, up, unknown) = features-Unsupported i [] ids later in
      (i ∷ pre, id, post, ap (λ t. i ∷ t) same, up, unknown)
]

-- What the loader does not support of a bundle: the format's version, or else a capability.
abbrev pub LacksSupport : Bundle → Type 0
LacksSupport b = (b.format_version ≢ supported_format_version) ⊎ Unsupported b.required_feature_ids

pub check_versions-LacksSupport :
    (b : Bundle) → (check_versions b ≡ incompatible_ruleset) ↔ LacksSupport b
unfolding check_versions
check_versions-LacksSupport b = (there, back)
  where
    current : Bool
    current = b.format_version == supported_format_version

    there : check_versions b ≡ incompatible_ruleset → LacksSupport b
    there h = elim (Bool-cases current) [
      | inl same ↦ inr (
          first-Unsupported b.required_feature_ids (else_taken (not current) _ _ _ (ap not same) h))
      | inr other ↦ inl (λ e. absurd (ground (arith, other, (==_iff _ _).1 e)))
    ]

    back : LacksSupport b → check_versions b ≡ incompatible_ruleset
    back (inl other) = elim (Bool-cases current) [
      | inl same ↦ absurd (other ((==_iff _ _).0 same))
      | inr differs ↦ rw differs refl
    ]
    back (inr (pre, id, post, same, up, unknown)) =
        rw (same, first-refused pre id post up unknown) (ground arith)
