-- ===== src/Engine/Public.antt =====
-- entid.go: what the public calls answer, whatever the rules are.
use std.Path.{subst}
use entid_go.Prelude.{
  ℕ, ◌≡◌, inl, inr, refl, sym, ◌∙◌, true, false, not, Option, none, some, arith, ltb, length,
  Bool-cases, ◌<◌, ◌↔◌, ap, replicate, some-eq, ltb→lt, lt→ltb,
}
use entid_go.Runtime.Buffer.{max_input, new}
use entid_go.Result.{Status, Reason, Report, Canonical, is_valid, report_ok}
use entid_go.Engine.{Input, Rules, Routed, route, not_run_after}
use entid_go.Engine.Pipeline.{
  Mode, mode_canonicalize, mode_validate_format, mode_validate, Evaluated, evaluate, after_route,
  run_rules, too_long, finish, run, check, answer, report_of, validate, validate_format,
  canonicalize, canonical_of_routed,
}
use entid_go.Engine.Dispatch.{well_routed, route_lem}
use entid_go.Engine.Contract.{if-true, if-false, bind-some, Guarded, evaluate-Guarded}

not_run_after-not_valid : (s : Status) → is_valid (not_run_after s).status ≡ false
unfolding is_valid not_run_after
not_run_after-not_valid s = ground arith

-- Routing never gives the reason that stands for a value above the limit.
well_routed_too_long : (o : Option ℕ) (s : Status) → well_routed o s Reason.input_too_long ≡ false
well_routed_too_long none s = ground arith
well_routed_too_long (some def) s = ground arith

module _ (rules : Rules) where
  run-answer :
      (input : Input) (mode : Mode) (r : Report)
      → run rules input mode ≡ some (answer r)
      → (e : Evaluated) × (evaluate rules input mode ≡ some e) × (report_of rules input e ≡ r)
  unfolding run
  run-answer input mode r h = elim (Bool-cases (not (check input))) [
    | inl unknown ↦ let h' = if-true _ unknown h in absurd (ground arith)
    | inr known ↦
        let (e, evaluated, same) = bind-some (evaluate rules input mode) _ _ (if-false _ known h) in
        (e, evaluated, ground arith)
  ]

  finish-routed : (mode : Mode) (r : Routed) (o : Option ℕ) → (finish rules mode r o).0 ≡ r
  unfolding finish run_rules
  finish-routed mode r none = refl
  finish-routed mode_canonicalize r (some def) = refl
  finish-routed mode_validate_format r (some def) = ground arith
  finish-routed mode_validate r (some def) = ground arith

  after_route-routed : (mode : Mode) (r : Routed) → (after_route rules mode r).0 ≡ r
  unfolding after_route
  after_route-routed mode r = finish-routed mode r r.selected

  -- The definition that `route` selects for an input, in the workspace that the engine gives it.
  abbrev pub Selects : Input → ℕ → Type 0
  Selects input def =
      (r : Routed) × (route rules input input.profile
          (new input.value (replicate rules.scratch_size 0) rules.left_margin)
        ≡ some r)
      × (r.selected ≡ some def)

  evaluate-Selects :
      (input : Input) (mode : Mode) (e : Evaluated) (def : ℕ)
      → evaluate rules input mode ≡ some e
      → e.0.selected ≡ some def
      → Selects input def
  unfolding evaluate too_long
  evaluate-Selects input mode e def h chosen =
      elim (Bool-cases (ltb max_input (length input.value))) [
        | inl above ↦
            let same : too_long rules input ≡ e = some-eq _ e (if-true _ above h) in
            let none_chosen = ap (λ x. x.0.selected) same ∙ chosen in absurd (ground arith)
        | inr within ↦
            let (r, routed, same) = bind-some _ _ e (if-false _ within h) in
            let one = sym (after_route-routed mode r) ∙ ap (λ x. x.0) same in
            (r, routed, ap (λ x. x.selected) one ∙ chosen)
      ]

  -- Both rules of the definition that is selected for the input hold on what a report shows.
  abbrev pub BothHold : Input → Report → Type 0
  BothHold input r =
      (def : ℕ) × Selects input def
      × ((rules.format_rule def (record { value = r.canonical_value; profile = r.profile })).status
          ≡ Status.valid)
      × ((rules.checksum_rule def
            (record { value = r.canonical_value; profile = r.profile })).status
          ≡ Status.valid)

  Guarded-BothHold :
      (input : Input) (e : Evaluated)
      → evaluate rules input mode_validate ≡ some e
      → Guarded rules e
      → report_ok (report_of rules input e) ≡ true
      → BothHold input (report_of rules input e)
  unfolding report_ok is_valid
  Guarded-BothHold input e ran (inl (def, chosen, format_ran, format_held, checksum_ran)) ok =
      (def, evaluate-Selects input mode_validate e def ran chosen, ground arith, ground arith)
  Guarded-BothHold input e ran (inr (failed, not_run)) ok =
      absurd (ground (arith, not_run_after-not_valid e.1.status))

  -- A report of a full validation is OK only when routing the input selected a definition, and the format
  -- rule and the checksum rule of that definition both answer valid, on the canonical value and under the
  -- profile of the report.
  pub report_ok-both :
      (input : Input) (r : Report)
      → validate rules input ≡ some (answer r)
      → report_ok r ≡ true
      → BothHold input r
  unfolding validate
  report_ok-both input r h ok =
      let (e, evaluated, same) = run-answer input mode_validate r h in
      let guarded = evaluate-Guarded rules input e evaluated in
      subst (BothHold input) same
        (Guarded-BothHold input e evaluated guarded (subst (λ x. report_ok x ≡ true) (sym same) ok))

  -- How two runs on one input compare, in what the route and the rules give them.
  module _ (input : Input) (m n : Mode) (P : Evaluated → Evaluated → Type 0) where
    evaluate-related :
        P (too_long rules input) (too_long rules input)
        → ((r : Routed) → P (after_route rules m r) (after_route rules n r))
        → (e e' : Evaluated) → evaluate rules input m ≡ some e
        → evaluate rules input n ≡ some e'
        → P e e'
    unfolding evaluate
    evaluate-related long short e e' h h' = elim (Bool-cases (ltb max_input (length input.value))) [
      | inl above ↦
          let g = if-true _ above h in
          let g' = if-true _ above h' in
          let same : too_long rules input ≡ e = ground arith in
          let same' : too_long rules input ≡ e' = ground arith in
          subst (λ x. P x e') same (subst (λ x. P (too_long rules input) x) same' long)
      | inr within ↦
          let (r, routed, same) = bind-some _ _ e (if-false _ within h) in
          let (r', routed', same') = bind-some _ _ e' (if-false _ within h') in
          let one : r' ≡ r = ground arith in
          let same'' : after_route rules n r ≡ e' = ground arith in
          subst (λ x. P x e') same (subst (λ x. P (after_route rules m r) x) same'' (short r))
    ]

  finish-format :
      (r : Routed) (o : Option ℕ)
      → (finish rules mode_validate_format r o).1 ≡ (finish rules mode_validate r o).1
  unfolding finish run_rules
  finish-format r none = refl
  finish-format r (some def) = ground arith

  after_route-format :
      (r : Routed)
      → (after_route rules mode_validate_format r).1 ≡ (after_route rules mode_validate r).1
  unfolding after_route
  after_route-format r = finish-format r r.selected

  -- What two runs agree on when the one only asks for the format.
  abbrev SameFormat : Evaluated → Evaluated → Type 0
  SameFormat e e' = (e.0 ≡ e'.0) × (e.1 ≡ e'.1)

  report_of-SameFormat :
      (input : Input) (e e' : Evaluated)
      → SameFormat e e'
      → record (report_of rules input e) { checksum = (report_of rules input e').checksum }
        ≡ report_of rules input e'
  report_of-SameFormat input e e' (routed, format) = rw routed (rw format refl)

  -- On one input, ValidateFormat and Validate report the same in everything but the checksum step: value,
  -- country, profile, versions, and the format step with its status, reason and key.
  pub validate_format-validate :
      (input : Input) (f v : Report)
      → validate_format rules input ≡ some (answer f)
      → validate rules input ≡ some (answer v)
      → record f { checksum = v.checksum } ≡ v
  unfolding validate validate_format
  validate_format-validate input f v hf hv =
      let (e, ran, same) = run-answer input mode_validate_format f hf in
      let (e', ran', same') = run-answer input mode_validate v hv in
      let (routed, format) =
        evaluate-related input mode_validate_format mode_validate SameFormat (refl, refl)
          (λ r. (
            after_route-routed mode_validate_format r ∙ sym (after_route-routed mode_validate r),
            after_route-format r,
          ))
          e e' ran ran' in
      subst (λ x. record x { checksum = v.checksum } ≡ v) same
        (subst (λ y. record (report_of rules input e) { checksum = y.checksum } ≡ y) same'
          (report_of-SameFormat input e e' (routed, format)))

  canonicalize-answer :
      (input : Input) (c : Canonical)
      → canonicalize rules input ≡ some (answer c)
      → (e : Evaluated) × (evaluate rules input mode_canonicalize ≡ some e)
        × (canonical_of_routed rules input e.0 ≡ c)
  unfolding canonicalize
  canonicalize-answer input c h = elim (Bool-cases (not (check input))) [
    | inl unknown ↦ let h' = if-true _ unknown h in absurd (ground arith)
    | inr known ↦
        let (e, evaluated, same) =
          bind-some (evaluate rules input mode_canonicalize) _ _ (if-false _ known h) in
        (e, evaluated, ground arith)
  ]

  -- What a canonicalization result and a report both show.
  abbrev pub SameRouting : Canonical → Report → Type 0
  SameRouting c v =
      (c.kind ≡ v.kind)
      × (c.input ≡ v.input)
      × (c.canonical_value ≡ v.canonical_value)
      × (c.country_code ≡ v.country_code)
      × (c.profile ≡ v.profile)
      × (c.rules_version ≡ v.rules_version)
      × (c.format_version ≡ v.format_version)

  -- On one input, Canonicalize and Validate show the same kind, canonical value, country, profile and
  -- versions, whether or not the checks that Validate goes on to make succeed.
  pub canonicalize-validate :
      (input : Input) (c : Canonical) (v : Report)
      → canonicalize rules input ≡ some (answer c)
      → validate rules input ≡ some (answer v)
      → SameRouting c v
  unfolding validate
  canonicalize-validate input c v hc hv =
      let (e, ran, same) = canonicalize-answer input c hc in
      let (e', ran', same') = run-answer input mode_validate v hv in
      let routed =
        evaluate-related input mode_canonicalize mode_validate (λ x y. x.0 ≡ y.0) refl
          (λ r. after_route-routed mode_canonicalize r ∙ sym (after_route-routed mode_validate r)) e
          e' ran ran' in
      subst (λ x. SameRouting x v) same
        (subst (λ y. SameRouting (canonical_of_routed rules input e.0) y) same'
          (rw routed (refl, refl, refl, refl, refl, refl, refl)))

  evaluate_too_long :
      (input : Input) (mode : Mode) (e : Evaluated)
      → evaluate rules input mode ≡ some e
      → (e.0.reason ≡ Reason.input_too_long) ↔ (ltb max_input (length input.value) ≡ true)
  unfolding evaluate too_long
  evaluate_too_long input mode e h = elim (Bool-cases (ltb max_input (length input.value))) [
    | inl above ↦
        let same : too_long rules input ≡ e = some-eq _ e (if-true _ above h) in
        (λ reason. above, λ long. sym (ap (λ x. x.0.reason) same))
    | inr within ↦
        let (r, routed, same) = bind-some _ _ e (if-false _ within h) in
        let one = sym (after_route-routed mode r) ∙ ap (λ x. x.0) same in
        let fine = route_lem rules input input.profile _ r routed in
        (
          λ reason.
              let wrong = well_routed_too_long r.selected r.status in
              let late = ap (λ x. x.reason) one ∙ reason in
              absurd (ground (arith, wrong, late, fine)),
          λ long. absurd (ground arith),
        )
  ]

  -- Where Canonicalize answers, the reason of its result is that the input is too long exactly when the
  -- value has more than `max_input` bytes, whatever the rules are.
  pub canonicalize_too_long :
      (input : Input) (c : Canonical)
      → canonicalize rules input ≡ some (answer c)
      → (c.reason ≡ Reason.input_too_long) ↔ (max_input < length input.value)
  canonicalize_too_long input c h =
      let (e, ran, same) = canonicalize-answer input c h in
      let (long, reason) = evaluate_too_long input mode_canonicalize e ran in
      (
        λ r. ltb→lt _ _ (long (ap (λ x. x.reason) same ∙ r)),
        λ l. sym (ap (λ x. x.reason) same) ∙ reason (lt→ltb _ _ l),
      )
