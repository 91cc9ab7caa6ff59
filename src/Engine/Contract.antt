-- ===== src/Engine/Contract.antt =====
-- What the pipeline promises of its two steps, whatever the rules are.
use entid_go.Prelude.{
  ℕ, ◌≡◌, ◌≢◌, ◌⊎◌, inl, inr, refl, Bool, true, false, Option, none, some, arith, ltb,
  if◌then◌else◌, length, Bool-cases,
}
use std.Path.{subst}
use entid_go.Runtime.Buffer.{max_input, ◌>>=◌}
use entid_go.Result.{Status, is_valid}
use entid_go.Engine.{Input, Rules, Routed, RuleCtx, not_run_after}
use entid_go.Engine.Dispatch.{well_routed, route_lem}
use entid_go.Engine.Pipeline.{
  mode_validate, Evaluated, evaluate, after_route, run_rules, too_long, finish,
}

pub if-true {ℓ} :
    {A : Type ℓ} {b : Bool} {x z : A} (y : A) → b ≡ true → (if b then x else y) ≡ z → x ≡ z
if-true {x = x} {z = z} y p h = subst (λ c. (if c then x else y) ≡ z) p h

pub if-false {ℓ} :
    {A : Type ℓ} {b : Bool} {y z : A} (x : A) → b ≡ false → (if b then x else y) ≡ z → y ≡ z
if-false {y = y} {z = z} x p h = subst (λ c. (if c then x else y) ≡ z) p h

pub bind-some {ℓ κ} :
    {A : Type ℓ} {B : Type κ} (o : Option A) (f : A → B) (b : B)
    → (o >>= λ a. some (f a)) ≡ some b
    → (a : A) × (o ≡ some a) × (f a ≡ b)
bind-some none f b h = absurd (ground arith)
bind-some (some a) f b h = (a, refl, ground arith)

abbrev pub context : Routed → RuleCtx
context r = record { value = r.canonical; profile = r.profile }

is_valid→eq : (s : Status) → is_valid s ≡ true → s ≡ Status.valid
unfolding is_valid
is_valid→eq s h = ground arith

not_valid→ne : (s : Status) → is_valid s ≡ false → s ≢ Status.valid
unfolding is_valid
not_valid→ne s h e = ground arith

module _ (rules : Rules) where
  -- The checksum step of a full validation on a routed value: the rule of the selected definition ran on
  -- the canonical value, behind its format rule that held; or it was not run, for the reason that the
  -- format step gives.
  abbrev pub Guarded : Evaluated → Type 0
  Guarded (r, format, checksum) =
      ((def : ℕ) × (r.selected ≡ some def)
        × (format ≡ rules.format_rule def (context r))
        × (format.status ≡ Status.valid)
        × (checksum ≡ rules.checksum_rule def (context r)))
      ⊎ ((format.status ≢ Status.valid) × (checksum ≡ not_run_after format.status))

  run_rules-Guarded :
      (r : Routed) (def : ℕ) → r.selected ≡ some def → Guarded (run_rules rules mode_validate r def)
  unfolding run_rules
  run_rules-Guarded r def e =
      elim (Bool-cases (is_valid (rules.format_rule def (context r)).status)) [
        | inl holds ↦ rw holds (inl (def, e, refl, is_valid→eq _ holds, refl))
        | inr fails ↦ rw fails (inr (not_valid→ne _ fails, refl))
      ]

  finish-Guarded :
      (r : Routed) (o : Option ℕ)
      → r.selected ≡ o
      → well_routed o r.status r.reason ≡ true
      → Guarded (finish rules mode_validate r o)
  unfolding finish
  finish-Guarded r none e ok = inr (λ v. ground arith, refl)
  finish-Guarded r (some def) e ok = run_rules-Guarded r def e

  after_route-Guarded :
      (r : Routed)
      → well_routed r.selected r.status r.reason ≡ true
      → Guarded (after_route rules mode_validate r)
  unfolding after_route
  after_route-Guarded r ok = finish-Guarded r r.selected refl ok

  too_long-Guarded : (input : Input) → Guarded (too_long rules input)
  unfolding too_long
  too_long-Guarded input = inr (λ v. ground arith, refl)

  -- The format step guards the checksum step: in the result of a full validation the checksum rule of the
  -- selected definition ran, on the canonical value and under the reported profile, exactly behind that
  -- definition's format rule with status valid; in every other case the checksum step is not run, with
  -- the reason that goes with the format step. The result of a value above the byte limit is one of these.
  pub evaluate-Guarded :
      (input : Input) (e : Evaluated) → evaluate rules input mode_validate ≡ some e → Guarded e
  unfolding evaluate
  evaluate-Guarded input e h = elim (Bool-cases (ltb max_input (length input.value))) [
    | inl long ↦
        let h' = if-true _ long h in
        let same : too_long rules input ≡ e = ground arith in
        subst Guarded same (too_long-Guarded input)
    | inr fits ↦
        let (r, routed, same) = bind-some _ _ e (if-false _ fits h) in
        subst Guarded same (after_route-Guarded r (route_lem rules input input.profile _ r routed))
  ]
