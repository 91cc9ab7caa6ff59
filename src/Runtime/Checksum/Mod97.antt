-- ===== src/Runtime/Checksum/Mod97.antt =====
-- What the ISO 7064 mod 97 check computes, and the errors that it catches.
use entid_go.Prelude.{
  inr, inl, Option-cases, ℕ, ◌+◌, ◌-◌, ◌*◌, ◌/◌, ◌%◌, ◌<◌, ◌≡◌, ◌≢◌, refl, sym, ap, ◌∙◌, Bool, true,
  false, ◌&&◌, ◌||◌, [], ◌∷◌, ◌++◌, arith, Option, none, some, if◌then◌else◌, length-append, Bytes,
  all,
}
use entid_go.Runtime.View.{View, value, is_ascii_digit, is_ascii_upper}
use entid_go.Runtime.Checksum.{valid, invalid, mod97_loop, iso7064_mod97}

abbrev is_alnum : ℕ → Bool
is_alnum b = is_ascii_digit b || is_ascii_upper b

-- The decimal digits that a character stands for: itself, or the two of 10 to 35 for a letter.
abbrev pub expand : Bytes → Bytes
expand [] = []
expand (b ∷ s) =
    let n = b - b'A' + 10 in
    if is_ascii_digit b then b ∷ expand s else (b'0' + n / 10) ∷ (b'0' + n % 10) ∷ expand s

-- Characters of one kind: two digits, or two letters.
abbrev pub same_kind : ℕ → ℕ → Bool
same_kind a b = (is_ascii_digit a && is_ascii_digit b) || (is_ascii_upper a && is_ascii_upper b)

-- Behind different remainders every text leaves different remainders: 10 and 100 are units mod 97.
mod97_loop-apart :
    (s : Bytes) (p q r t : ℕ)
    → p < 97
    → q < 97
    → p ≢ q
    → mod97_loop s p ≡ some r
    → mod97_loop s q ≡ some t
    → r ≢ t
unfolding mod97_loop
mod97_loop-apart [] p q r t hp hq ne e f = ground arith
mod97_loop-apart (b ∷ s) p q r t hp hq ne e f = ground (
  arith,
  mod97_loop-apart s ((p * 10 + (b - b'0')) % 97) ((q * 10 + (b - b'0')) % 97) r t,
  mod97_loop-apart s ((p * 100 + (b - b'A') + 10) % 97) ((q * 100 + (b - b'A') + 10) % 97) r t,
)

abbrev then_loop : Option ℕ → Bytes → Option ℕ
then_loop none s = none
then_loop (some r) s = mod97_loop s r

mod97_loop-append :
    (xs ys : Bytes) (p : ℕ) → mod97_loop (xs ++ ys) p ≡ then_loop (mod97_loop xs p) ys
unfolding mod97_loop
mod97_loop-append [] ys p = refl
mod97_loop-append (b ∷ xs) ys p = ground (
  arith,
  mod97_loop-append xs ys ((p * 10 + (b - b'0')) % 97),
  mod97_loop-append xs ys ((p * 100 + (b - b'A') + 10) % 97),
)

mod97_loop-lt : (s : Bytes) (p r : ℕ) → p < 97 → mod97_loop s p ≡ some r → r < 97
unfolding mod97_loop
mod97_loop-lt [] p r h e = ground arith
mod97_loop-lt (b ∷ s) p r h e = ground (
  arith,
  mod97_loop-lt s ((p * 10 + (b - b'0')) % 97) r,
  mod97_loop-lt s ((p * 100 + (b - b'A') + 10) % 97) r,
)

-- Two characters of one kind behind the same remainder leave different remainders.
step_apart :
    (ys : Bytes) (a b p r t : ℕ)
    → p < 97
    → same_kind a b ≡ true
    → a ≢ b
    → mod97_loop (a ∷ ys) p ≡ some r
    → mod97_loop (b ∷ ys) p ≡ some t
    → r ≢ t
unfolding mod97_loop
step_apart ys a b p r t h k ne e f = ground (
  arith,
  mod97_loop-apart ys ((p * 10 + (a - b'0')) % 97) ((p * 10 + (b - b'0')) % 97) r t,
  mod97_loop-apart ys ((p * 100 + (a - b'A') + 10) % 97) ((p * 100 + (b - b'A') + 10) % 97) r t,
)

-- Whether the loop ends does not depend on the remainder that it starts from.
abbrev defined : Option ℕ → Bool
defined none = false
defined (some r) = true

mod97_loop-defined : (s : Bytes) (p : ℕ) → defined (mod97_loop s p) ≡ all is_alnum s
unfolding mod97_loop all
mod97_loop-defined [] p = refl
mod97_loop-defined (b ∷ s) p = ground (
  arith,
  mod97_loop-defined s ((p * 10 + (b - b'0')) % 97),
  mod97_loop-defined s ((p * 100 + (b - b'A') + 10) % 97),
)

step_defined :
    (ys : Bytes) (a b p : ℕ)
    → same_kind a b ≡ true
    → defined (mod97_loop (a ∷ ys) p) ≡ defined (mod97_loop (b ∷ ys) p)
unfolding all
step_defined ys a b p k =
    ground (arith, mod97_loop-defined (a ∷ ys) p, mod97_loop-defined (b ∷ ys) p)

from_prefix :
    (ys : Bytes) (a b : ℕ) (o : Option ℕ)
    → ((p : ℕ) → o ≡ some p → p < 97)
    → same_kind a b ≡ true
    → a ≢ b
    → then_loop o (a ∷ ys) ≡ some 1
    → (t : ℕ) × (then_loop o (b ∷ ys) ≡ some t) × (t ≢ 1)
from_prefix ys a b none lt k ne e = absurd (cc)
from_prefix ys a b (some p) lt k ne e =
    let all_some = step_defined ys a b p k in
    elim (Option-cases (mod97_loop (b ∷ ys) p)) [
      | inl stuck ↦ absurd (ground (arith, all_some, ap defined e, ap defined stuck))
      | inr (t, f) ↦ (t, f, λ same. step_apart ys a b p 1 t (lt p refl) k ne e f (sym same))
    ]

-- `ISO7064Mod97` catches every error in one character, digit for digit or letter for letter: where it
-- accepts a text, it refuses each text that differs from it so.
pub iso7064_mod97_detects_substitution :
    (xs ys : Bytes) (a b : ℕ)
    → iso7064_mod97 (value (xs ++ a ∷ ys)) ≡ valid
    → same_kind a b ≡ true
    → a ≢ b
    → iso7064_mod97 (value (xs ++ b ∷ ys)) ≡ invalid
unfolding iso7064_mod97
iso7064_mod97_detects_substitution xs ys a b h k ne =
    let (t, f, apart) =
      from_prefix ys a b (mod97_loop xs 0) (λ p e. mod97_loop-lt xs 0 p (omega arith) e) k ne
        (sym (mod97_loop-append xs (a ∷ ys) 0) ∙ ground arith) in
    ground (
      arith,
      mod97_loop-append xs (b ∷ ys) 0,
      f,
      apart,
      length-append xs (a ∷ ys),
      length-append xs (b ∷ ys),
    )
