-- ===== src/Prelude/Fallible.antt =====
-- Chains of steps that may fail, and how a success is taken apart.
use mathlib.Core.Path.{◌≡◌, refl}
use mathlib.Core.Bool.{not, ◌||◌, Bool, true, false, ◌&&◌, ◌||◌}
use mathlib.Core.Logic.{◌⊎◌, inl, inr}
use mathlib.Core.Option.{Option, none, some}
use native.Mathlib.Omega.{arith}
use entid_go.Prelude.Tests.{if◌then◌else◌}

infixl 5 ◌>>=◌
abbrev pub ◌>>=◌ {ℓ κ} : {A : Type ℓ} {B : Type κ} → Option A → (A → Option B) → Option B
none >>= f = none
some a >>= f = f a

pub bind-inv {ℓ κ} :
    {A : Type ℓ} {B : Type κ} (o : Option A) (f : A → Option B) (b : B)
    → (o >>= f) ≡ some b
    → (a : A) × (o ≡ some a) × (f a ≡ some b)
bind-inv none f b h = absurd (ground arith)
bind-inv (some a) f b h = (a, refl, h)

-- A guard that let the chain go on: the test failed to refuse.
pub unless {ℓ} :
    {A : Type ℓ} (c : Bool) (o : Option A) (b : A) → (if c then none else o) ≡ some b → o ≡ some b
unless true o b h = absurd (ground arith)
unless false o b h = h

pub unless-false {ℓ} :
    {A : Type ℓ} (c : Bool) (o : Option A) (b : A) → (if c then none else o) ≡ some b → c ≡ false
unless-false true o b h = absurd (ground arith)
unless-false false o b h = refl

pub provided {ℓ} :
    {A : Type ℓ} (c : Bool) (o : Option A) (b : A)
    → (if c then o else none) ≡ some b
    → (c ≡ true) × (o ≡ some b)
provided true o b h = (refl, h)
provided false o b h = absurd (ground arith)

pub pair-snd {ℓ κ} : {A : Type ℓ} {B : Type κ} (p q : A × B) → some p ≡ some q → p.1 ≡ q.1
pair-snd p q h = ground arith

pub some-eq {ℓ} : {A : Type ℓ} (x y : A) → some x ≡ some y → x ≡ y
some-eq x y h = ground arith

pub &&-inv : (a b : Bool) → (a && b) ≡ true → (a ≡ true) × (b ≡ true)
&&-inv true b h = (refl, h)
&&-inv false b h = absurd (ground arith)

-- The branch that was taken.
pub then_taken {ℓ} :
    {A : Type ℓ} (c : Bool) (x y z : A) → c ≡ true → (if c then x else y) ≡ z → x ≡ z
then_taken true x y z t h = h
then_taken false x y z t h = absurd (ground arith)

pub else_taken {ℓ} :
    {A : Type ℓ} (c : Bool) (x y z : A) → c ≡ false → (if c then x else y) ≡ z → y ≡ z
else_taken true x y z t h = absurd (ground arith)
else_taken false x y z t h = h

pub ||-inv : (a b : Bool) → (a || b) ≡ true → (a ≡ true) ⊎ (b ≡ true)
||-inv true b h = inl refl
||-inv false b h = inr h

pub not-inv : (b : Bool) → not b ≡ true → b ≡ false
not-inv true h = ground arith
not-inv false h = refl

pub ||-left : (a b : Bool) → a ≡ true → (a || b) ≡ true
||-left a b h = rw h refl

pub ||-right : (a b : Bool) → b ≡ true → (a || b) ≡ true
||-right true b h = refl
||-right false b h = h

pub not-false : (b : Bool) → not b ≡ false → b ≡ true
not-false true h = refl
not-false false h = absurd (ground arith)

-- A chain runs on where its first step gives a value.
pub bind_on {ℓ κ} :
    {A : Type ℓ} {B : Type κ} (o : Option A) (f : A → Option B) (a : A) (z : Option B)
    → o ≡ some a
    → f a ≡ z
    → (o >>= f) ≡ z
bind_on o f a z given rest = rw given rest
