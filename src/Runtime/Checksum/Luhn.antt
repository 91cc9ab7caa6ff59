-- ===== src/Runtime/Checksum/Luhn.antt =====
-- What the Luhn check accepts, and the errors that it catches.
use entid_go.Prelude.{
  ◌⊎◌, ℕ, ◌+◌, ◌-◌, ◌%◌, ◌≤◌, ◌<◌, ◌≡◌, ◌≢◌, refl, sym, ap, ◌∙◌, Bool, true, false, not, ◌&&◌, [],
  ◌∷◌, ◌++◌, arith, none, some, leb, ◌==◌, if◌then◌else◌, length, length-append, Bytes, all,
  append_assoc,
}
use mathlib.Core.List.{reverse, reverse-append}
use entid_go.Runtime.View.{View, value, is_ascii_digit}
use entid_go.Runtime.Checksum.{unsupported, valid, invalid, luhn_digit, luhn_loop, luhn}

-- The Luhn sum of a string read from its end: every second digit is doubled.
abbrev pub luhn_sum : Bool → Bytes → ℕ
luhn_sum double [] = 0
luhn_sum double (b ∷ r) = luhn_digit double (b - b'0') + luhn_sum (not double) r

luhn_loop_lem :
    (r : Bytes) (sum : ℕ) (double : Bool)
    → luhn_loop r sum double
      ≡ (if all is_ascii_digit r then some (sum + luhn_sum double r) else none)
unfolding luhn_loop all
luhn_loop_lem [] sum double = ap some (omega arith)
luhn_loop_lem (b ∷ r) sum double =
    let d = luhn_digit double (b - b'0') in ground (arith, luhn_loop_lem r (sum + d) (not double))

all-append : (f : ℕ → Bool) (xs ys : Bytes) → all f (xs ++ ys) ≡ (all f xs && all f ys)
unfolding all
all-append f [] ys = refl
all-append f (x ∷ xs) ys = ground (arith, all-append f xs ys)

all-reverse : (f : ℕ → Bool) (xs : Bytes) → all f (reverse xs) ≡ all f xs
unfolding all
all-reverse f [] = refl
all-reverse f (x ∷ xs) =
    rw (reverse-append (x ∷ []) xs, all-append f (reverse xs) (x ∷ []))
      (ground (arith, all-reverse f xs))

-- `Luhn` on a present view of two digits or more tells whether the Luhn sum ends in zero, and it is
-- unsupported, never invalid, on every other view.
pub luhn_lem :
    (v : View)
    → luhn v ≡ (
        if v.present && leb 2 (length v.s) && all is_ascii_digit v.s
        then if luhn_sum false (reverse v.s) % 10 == 0 then valid else invalid
        else unsupported)
unfolding luhn
luhn_lem v = ground (arith, luhn_loop_lem (reverse v.s) 0 false, all-reverse is_ascii_digit v.s)

-- The parity of the positions behind `r`.
flips : Bool → Bytes → Bool
flips double [] = double
flips double (b ∷ r) = flips (not double) r

luhn_sum-append :
    (double : Bool) (xs ys : Bytes)
    → luhn_sum double (xs ++ ys) ≡ luhn_sum double xs + luhn_sum (flips double xs) ys
unfolding flips
luhn_sum-append double [] ys = omega arith
luhn_sum-append double (x ∷ xs) ys = omega (arith, luhn_sum-append (not double) xs ys)

-- Two digits that add alike are equal.
luhn_digit-apart :
    (double : Bool) (d e k : ℕ)
    → d < 10
    → e < 10
    → (k + luhn_digit double d) % 10 ≡ 0
    → (k + luhn_digit double e) % 10 ≡ 0
    → d ≡ e
unfolding luhn_digit
luhn_digit-apart true d e k hd he p q = ground arith
luhn_digit-apart false d e k hd he p q = omega arith

-- What an outcome of `Valid` says: digits only, and a sum that ends in zero.
luhn_valid :
    (s : Bytes)
    → luhn (value s) ≡ valid
    → (all is_ascii_digit s ≡ true) × (2 ≤ length s) × (luhn_sum false (reverse s) % 10 ≡ 0)
luhn_valid s h = let e = sym (luhn_lem (value s)) ∙ h in (ground arith, ground arith, ground arith)

reverse-around : (xs ys : Bytes) (b : ℕ) → reverse (xs ++ b ∷ ys) ≡ reverse ys ++ b ∷ reverse xs
reverse-around xs ys b =
    reverse-append xs (b ∷ ys)
    ∙ ap (λ t. t ++ reverse xs) (reverse-append (b ∷ []) ys)
    ∙ append_assoc (reverse ys) (b ∷ []) (reverse xs)

-- The sum around one byte.
luhn_sum-around :
    (xs ys : Bytes) (b : ℕ)
    → luhn_sum false (reverse (xs ++ b ∷ ys))
      ≡ luhn_sum false (reverse ys)
        + (luhn_digit (flips false (reverse ys)) (b - b'0')
            + luhn_sum (not (flips false (reverse ys))) (reverse xs))
luhn_sum-around xs ys b =
    ap (luhn_sum false) (reverse-around xs ys b)
    ∙ luhn_sum-append false (reverse ys) (b ∷ reverse xs)

-- `Luhn` catches every error in one digit: where it accepts a number, it refuses each number that
-- differs from it in exactly one digit.
pub luhn_detects_substitution :
    (xs ys : Bytes) (a b : ℕ)
    → luhn (value (xs ++ a ∷ ys)) ≡ valid
    → is_ascii_digit b ≡ true
    → a ≢ b
    → luhn (value (xs ++ b ∷ ys)) ≡ invalid
luhn_detects_substitution xs ys a b h db ne =
    let (digits, long, zero_sum) = luhn_valid (xs ++ a ∷ ys) h in
    let double = flips false (reverse ys) in
    let rest = luhn_sum false (reverse ys) + luhn_sum (not double) (reverse xs) in
    unfold all in
    ground (
      arith,
      luhn_lem (value (xs ++ b ∷ ys)),
      luhn_sum-around xs ys a,
      luhn_sum-around xs ys b,
      all-append is_ascii_digit xs (a ∷ ys),
      all-append is_ascii_digit xs (b ∷ ys),
      length-append xs (a ∷ ys),
      length-append xs (b ∷ ys),
      luhn_digit-apart double (a - b'0') (b - b'0') rest,
    )

luhn_pair-apart :
    (double : Bool) (d e k : ℕ)
    → d < 10
    → e < 10
    → (k + (luhn_digit double d + luhn_digit (not double) e)) % 10 ≡ 0
    → (k + (luhn_digit double e + luhn_digit (not double) d)) % 10 ≡ 0
    → (d ≡ e) ⊎ ((d ≡ 0) × (e ≡ 9) ⊎ (d ≡ 9) × (e ≡ 0))
unfolding luhn_digit
luhn_pair-apart true d e k hd he p q = ground arith
luhn_pair-apart false d e k hd he p q = ground arith

luhn_sum-pair :
    (xs ys : Bytes) (a b : ℕ)
    → luhn_sum false (reverse (xs ++ a ∷ b ∷ ys))
      ≡ luhn_sum false (reverse ys)
        + (luhn_digit (flips false (reverse ys)) (b - b'0')
            + (luhn_digit (not (flips false (reverse ys))) (a - b'0')
                + luhn_sum (not (not (flips false (reverse ys)))) (reverse xs)))
luhn_sum-pair xs ys a b =
    ap (luhn_sum false) (
      reverse-append xs (a ∷ b ∷ ys)
      ∙ ap (λ t. t ++ reverse xs) (reverse-append (a ∷ b ∷ []) ys)
      ∙ append_assoc (reverse ys) (b ∷ a ∷ []) (reverse xs))
    ∙ luhn_sum-append false (reverse ys) (b ∷ a ∷ reverse xs)

-- `Luhn` catches the swap of two adjacent digits, unless one is 0 and the other 9.
pub luhn_detects_transposition :
    (xs ys : Bytes) (a b : ℕ)
    → luhn (value (xs ++ a ∷ b ∷ ys)) ≡ valid
    → a ≢ b
    → ¬ ((a ≡ b'0') × (b ≡ b'9'))
    → ¬ ((a ≡ b'9') × (b ≡ b'0'))
    → luhn (value (xs ++ b ∷ a ∷ ys)) ≡ invalid
luhn_detects_transposition xs ys a b h ne zero_nine nine_zero =
    let (digits, long, zero_sum) = luhn_valid (xs ++ a ∷ b ∷ ys) h in
    let double = flips false (reverse ys) in
    let rest = luhn_sum false (reverse ys) + luhn_sum (not (not double)) (reverse xs) in
    unfold all in
    ground (
      arith,
      luhn_lem (value (xs ++ b ∷ a ∷ ys)),
      luhn_sum-pair xs ys a b,
      luhn_sum-pair xs ys b a,
      all-append is_ascii_digit xs (a ∷ b ∷ ys),
      all-append is_ascii_digit xs (b ∷ a ∷ ys),
      length-append xs (a ∷ b ∷ ys),
      length-append xs (b ∷ a ∷ ys),
      luhn_pair-apart double (b - b'0') (a - b'0') rest,
      λ (p : a ≡ b'0') (q : b ≡ b'9'). zero_nine (p, q),
      λ (p : a ≡ b'9') (q : b ≡ b'0'). nine_zero (p, q),
    )
