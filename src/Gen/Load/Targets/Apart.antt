-- ===== src/Gen/Load/Targets/Apart.antt =====
-- load.go, `checkTargets`: the prefixes and the countries of two targets.
use entid_go.Prelude.{
  not-inv, ||-left, ||-right, ◌≡◌, refl, sym, ap, ◌∙◌, Bool, true, false, ◌||◌, List, [], ◌∷◌, ◌++◌,
  Option, none, some, arith, length, Bytes, beq, beq→eq, beq_refl, Bool-cases, inl, inr, bind-inv,
  unless, unless-false, provided, some-eq, &&-inv, ||-inv, ◌==◌, ==_iff,
}
use entid_go.Gen.Model.{CountryAlias, DispatchTarget, IdentifierDispatcher}
use entid_go.Gen.Load.Programs.{member_string}
use entid_go.Gen.Load.Targets.{
  Seen, claim_prefixes, check_target_of, check_target, check_each_target, aliases_after,
  check_targets,
}

-- Two Booleans of which neither holds.
||-false : (a b : Bool) → (a || b) ≡ false → (a ≡ false) × (b ≡ false)
||-false true b h = absurd (ground arith)
||-false false b h = (refl, h)

claim_prefixes_lem :
    (claimed ps out : List Bytes) (p : Bytes)
    → claim_prefixes claimed ps ≡ some out
    → (member_string p claimed ≡ true → member_string p out ≡ true)
      × (member_string p ps ≡ true
          → (member_string p out ≡ true) × (member_string p claimed ≡ false))
unfolding claim_prefixes
claim_prefixes_lem claimed [] out p e =
    ((λ m. ap (member_string p) (sym (some-eq claimed out e)) ∙ m), λ m. absurd (ground arith))
claim_prefixes_lem claimed (q ∷ ps) out p e =
    let (fresh, rest) = provided _ _ out e in
    let new = not-inv (member_string q claimed) (&&-inv _ _ fresh).1 in
    let (keeps, claims) = claim_prefixes_lem (q ∷ claimed) ps out p rest in
    (
      (λ m. keeps (||-right (beq q p) _ m)),
      λ m. elim (||-inv (beq q p) (member_string p ps) m) [
        | inl here ↦ (
          keeps (||-left (beq q p) _ here),
          ap (λ x. member_string x claimed) (sym (beq→eq q p here)) ∙ new,
        )
        | inr later ↦ let (kept, clear) = claims later in (kept, (||-false (beq q p) _ clear).1)
      ],
    )

-- What one target adds to what was seen.
abbrev Adds : Option Bytes → DispatchTarget → Seen → Seen → Bytes → Bytes → Type 0
Adds o t seen seen' p c =
    (member_string p seen.prefixes ≡ true → member_string p seen'.prefixes ≡ true)
    × (member_string c seen.countries ≡ true → member_string c seen'.countries ≡ true)
    × (member_string p t.accepted_prefixes ≡ true
        → (member_string p seen'.prefixes ≡ true) × (member_string p seen.prefixes ≡ false))
    × (o ≡ some c
        → (member_string c seen'.countries ≡ true) × (member_string c seen.countries ≡ false))

nothing_member :
    (p : Bytes) (ps : List Bytes) → (length ps == 0) ≡ true → member_string p ps ≡ true → ⊥
nothing_member p [] h m = ground arith
nothing_member p (q ∷ ps) h m = omega (arith, (==_iff (length (q ∷ ps)) 0).0 h)

check_target_of_lem :
    (o : Option Bytes) (d : IdentifierDispatcher) (seen seen' : Seen) (t : DispatchTarget)
    (p c : Bytes)
    → check_target_of o d seen t ≡ some seen'
    → Adds o t seen seen' p c
unfolding check_target_of
check_target_of_lem none d seen seen' t p c e =
    let (alone, same) = provided _ (some seen) seen' e in
    let empty = (&&-inv _ _ (&&-inv _ _ (&&-inv _ _ alone).0).0).1 in
    let now = some-eq seen seen' same in
    (
      (λ m. ap (λ s. member_string p s.prefixes) (sym now) ∙ m),
      (λ m. ap (λ s. member_string c s.countries) (sym now) ∙ m),
      (λ m. absurd (nothing_member p t.accepted_prefixes empty m)),
      λ h. absurd (ground (arith, h)),
    )
check_target_of_lem (some b) d seen seen' t p c e =
    let formed = unless-false _ _ seen' e in
    let fresh = (||-false _ (member_string b seen.countries) formed).1 in
    let (prefixes, claimed, rest) =
      bind-inv (claim_prefixes seen.prefixes t.accepted_prefixes) _ seen' (unless _ _ seen' e) in
    let now = some-eq _ seen' (unless _ _ seen' (unless _ _ seen' rest)) in
    let (keeps, claims) = claim_prefixes_lem seen.prefixes t.accepted_prefixes prefixes p claimed in
    let prefixes_now : prefixes ≡ seen'.prefixes = ap (λ s. s.prefixes) now in
    let countries_now : b ∷ seen.countries ≡ seen'.countries = ap (λ s. s.countries) now in
    (
      (λ m. ap (member_string p) (sym prefixes_now) ∙ keeps m),
      (λ m. ap (member_string c) (sym countries_now) ∙ ||-right (beq b c) _ m),
      (λ m.
          let (kept, clear) = claims m in (ap (member_string p) (sym prefixes_now) ∙ kept, clear)),
      λ h.
          let same : b ≡ c = some-eq b c h in
          (
            ap (member_string c) (sym countries_now)
                ∙ ||-left (beq b c) _ (ap (beq b) (sym same) ∙ beq_refl b),
            ap (λ x. member_string x seen.countries) (sym same) ∙ fresh,
          ),
    )

-- The targets of a walk that saw `p` and `c` have neither.
abbrev Clear : DispatchTarget → Seen → Bytes → Bytes → Type 0
Clear u seen p c =
    (member_string p seen.prefixes ≡ true → member_string p u.accepted_prefixes ≡ false)
    × (member_string c seen.countries ≡ true → u.country_code ≡ some c → ⊥)

step_inv :
    (d : IdentifierDispatcher) (prev : Option DispatchTarget) (seen fin : Seen) (t : DispatchTarget)
    (ts : List DispatchTarget)
    → check_each_target d prev seen (t ∷ ts) ≡ some fin
    → (seen' : Seen) × (check_target_of t.country_code d seen t ≡ some seen')
      × (check_each_target d (some t) seen' ts ≡ some fin)
unfolding check_each_target check_target
step_inv d prev seen fin t ts e = bind-inv (check_target d seen t) _ fin (unless _ _ fin e)

clash : (b : Bool) → b ≡ true → b ≡ false → ⊥
clash true h k = ground arith
clash false h k = ground arith

later-Clear :
    (d : IdentifierDispatcher) (prev : Option DispatchTarget) (seen fin : Seen)
    (mid after : List DispatchTarget) (u : DispatchTarget) (p c : Bytes)
    → check_each_target d prev seen (mid ++ u ∷ after) ≡ some fin
    → Clear u seen p c
later-Clear d prev seen fin [] after u p c e =
    let (seen', here, rest) = step_inv d prev seen fin u after e in
    let (keep, keep', claim, claim') = check_target_of_lem u.country_code d seen seen' u p c here in
    (
      λ m. elim (Bool-cases (member_string p u.accepted_prefixes)) [
        | inl shared ↦ absurd (clash _ m (claim shared).1)
        | inr clear ↦ clear
      ],
      λ m h. clash _ m (claim' h).1,
    )
later-Clear d prev seen fin (x ∷ mid) after u p c e =
    let (seen', here, rest) = step_inv d prev seen fin x (mid ++ u ∷ after) e in
    let (keep, keep', claim, claim') = check_target_of_lem x.country_code d seen seen' x p c here in
    let (clear, clear') = later-Clear d (some x) seen' fin mid after u p c rest in
    (λ m. clear (keep m), λ m. clear' (keep' m))

walk-Clear :
    (d : IdentifierDispatcher) (prev : Option DispatchTarget) (seen fin : Seen)
    (before mid after : List DispatchTarget) (t u : DispatchTarget) (p c : Bytes)
    → check_each_target d prev seen (before ++ t ∷ (mid ++ u ∷ after)) ≡ some fin
    → (member_string p t.accepted_prefixes ≡ true → member_string p u.accepted_prefixes ≡ false)
      × (t.country_code ≡ some c → u.country_code ≡ some c → ⊥)
walk-Clear d prev seen fin [] mid after t u p c e =
    let (seen', here, rest) = step_inv d prev seen fin t (mid ++ u ∷ after) e in
    let (keep, keep', claim, claim') = check_target_of_lem t.country_code d seen seen' t p c here in
    let (clear, clear') = later-Clear d (some t) seen' fin mid after u p c rest in
    (λ m. clear (claim m).0, λ h. clear' (claim' h).0)
walk-Clear d prev seen fin (x ∷ before) mid after t u p c e =
    let (seen', here, rest) = step_inv d prev seen fin x (before ++ t ∷ (mid ++ u ∷ after)) e in
    walk-Clear d (some x) seen' fin before mid after t u p c rest

aliases_after-inv :
    (o : Option Seen) (aliases : List CountryAlias)
    → aliases_after o aliases ≡ true
    → (seen : Seen) × (o ≡ some seen)
aliases_after-inv none aliases h = absurd (ground arith)
aliases_after-inv (some seen) aliases h = (seen, refl)

targets-Clear :
    (d : IdentifierDispatcher) (before mid after : List DispatchTarget) (t u : DispatchTarget)
    (p c : Bytes)
    → check_targets d ≡ true
    → d.targets ≡ before ++ t ∷ (mid ++ u ∷ after)
    → (member_string p t.accepted_prefixes ≡ true → member_string p u.accepted_prefixes ≡ false)
      × (t.country_code ≡ some c → u.country_code ≡ some c → ⊥)
unfolding check_targets
targets-Clear d before mid after t u p c e at =
    let start : Seen = record { countries = []; prefixes = []; unprefixed = false } in
    let (seen, walked) =
      aliases_after-inv (check_each_target d none start d.targets) d.country_aliases
        (&&-inv _ _ e).1 in
    walk-Clear d none start seen before mid after t u p c
      (ap (check_each_target d none start) (sym at) ∙ walked)

-- In a dispatcher that the checks accept, a prefix of one target is no prefix of a later one, so that a
-- prefix designates one target at most.
pub check_targets-prefixes :
    (d : IdentifierDispatcher) (before mid after : List DispatchTarget) (t u : DispatchTarget)
    (p : Bytes)
    → check_targets d ≡ true
    → d.targets ≡ before ++ t ∷ (mid ++ u ∷ after)
    → member_string p t.accepted_prefixes ≡ true
    → member_string p u.accepted_prefixes ≡ false
check_targets-prefixes d before mid after t u p e at m =
    (targets-Clear d before mid after t u p [] e at).0 m

-- In a dispatcher that the checks accept, the country of one target is not that of a later one.
pub check_targets-countries :
    (d : IdentifierDispatcher) (before mid after : List DispatchTarget) (t u : DispatchTarget)
    (c : Bytes)
    → check_targets d ≡ true
    → d.targets ≡ before ++ t ∷ (mid ++ u ∷ after)
    → t.country_code ≡ some c
    → ¬ (u.country_code ≡ some c)
check_targets-countries d before mid after t u c e at h =
    (targets-Clear d before mid after t u [] c e at).1 h
