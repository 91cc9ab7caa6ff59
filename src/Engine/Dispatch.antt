-- ===== src/Engine/Dispatch.antt =====
-- What the dispatch algorithm reports.
use entid_go.Prelude.{
  ℕ, ◌≡◌, inl, inr, refl, Bool, true, false, [], Option, none, some, arith, if◌then◌else◌, Bytes,
  beq, Option-cases,
}
use entid_go.Runtime.Buffer.{Buf, str}
use entid_go.Result.{Profile, Status, Reason, compatible}
use entid_go.Engine.{
  choose, start, upper_ascii, trim_ascii, Input, Rules, Routed, select, route_targets,
  route_country, route_under, route, or_else,
}

-- The reasons with which routing stops for want of a verdict.
abbrev pub no_verdict : Reason → Bool
no_verdict Reason.invalid_encoding = true
no_verdict Reason.unsupported_kind = true
no_verdict Reason.unsupported_country = true
no_verdict Reason.missing_country_code = true
no_verdict _ = false

-- The combinations that a routing result may show: a definition with a positive status, a country
-- mismatch as the only proof of invalidity, or no verdict for one of the four reasons above.
abbrev pub well_routed : Option ℕ → Status → Reason → Bool
well_routed (some def) Status.valid Reason.ok = true
well_routed none Status.invalid Reason.country_mismatch = true
well_routed none Status.unsupported reason = no_verdict reason
well_routed _ _ _ = false

-- A routing result under way: nothing selected, and no status but the first.
abbrev Fresh : Routed → Type 0
Fresh out = (out.selected ≡ none) × (out.status ≡ Status.valid) × (out.reason ≡ Reason.ok)

-- At a fault of a canonicalizer there is no result to speak of.
abbrev routed_ok : Option Routed → Bool
routed_ok none = true
routed_ok (some r) = well_routed r.selected r.status r.reason

module _ (rules : Rules) where
  select_ok :
      (input : Input) (profile : Profile) (out : Routed) (w : Buf) (def : ℕ)
      → Fresh out
      → routed_ok (select rules input profile out w def) ≡ true
  unfolding select
  select_ok input profile out w def (a, b, c) = ground arith

  choose_ok :
      (input : Input) (profile : Profile) (out : Routed) (w : Buf) (o : Option ℕ)
      → Fresh out
      → routed_ok (choose rules input profile out w o) ≡ true
  unfolding choose
  choose_ok input profile out w none (a, b, c) = ground arith
  choose_ok input profile out w (some def) f = select_ok input profile out w def f

  route_targets_ok :
      (input : Input) (profile : Profile) (out : Routed) (w : Buf) (d : ℕ) (country : Bytes)
      → Fresh out
      → routed_ok (route_targets rules input profile out w d country) ≡ true
  unfolding route_targets
  route_targets_ok input profile out w d country (a, b, c) =
      let picked = or_else (rules.country_target d country) (
        or_else (rules.prefix_target d (str w))
          (or_else (rules.global_target d) (rules.unprefixed_target d))) in
      ground (arith, choose_ok input profile out w picked (a, b, c))

  route_country_ok :
      (input : Input) (profile : Profile) (out : Routed) (w : Buf) (d : ℕ)
      → Fresh out
      → routed_ok (route_country rules input profile out w d) ≡ true
  unfolding route_country
  route_country_ok input profile out w d (a, b, c) =
      let raw = trim_ascii input.country_code in
      let country = rules.country_alias d (upper_ascii raw) in
      ground (
        arith,
        route_targets_ok input profile (record out { country = [] }) w d [] (a, b, c),
        route_targets_ok input profile (record out { country = country }) w d country (a, b, c),
      )

  route_under_ok :
      (input : Input) (profile : Profile) (w : Buf)
      → routed_ok (route_under rules input profile w) ≡ true
  unfolding route_under
  route_under_ok input profile w =
      let d = rules.dispatcher_of (start input).kind in
      let out : Routed = record (start input) { kind = rules.canonical_kind d } in
      elim (Option-cases (rules.pre_canonicalize d w)) [
        | inl fault ↦ ground (arith, fault)
        | inr (w', fine) ↦
            ground (arith, fine, route_country_ok input profile out w' d (refl, refl, refl))
      ]

  -- Every result that `route` returns selects a definition with a positive status, or selects none; then it is
  -- invalid for a country mismatch alone, and otherwise unsupported, for one of the four reasons that
  -- dispatch has.
  pub route_lem :
      (input : Input) (requested : Profile) (w : Buf) (r : Routed)
      → route rules input requested w ≡ some r
      → well_routed r.selected r.status r.reason ≡ true
  unfolding route
  route_lem input requested w r h =
      let dispatch = if beq requested [] then compatible else requested in
      elim (Option-cases (route_under rules input dispatch w)) [
        | inl fault ↦ absurd (ground (arith, fault))
        | inr (r', fine) ↦ ground (arith, fine, route_under_ok input dispatch w)
      ]
