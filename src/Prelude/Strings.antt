-- ===== src/Prelude/Strings.antt =====
-- Go strings: a string is the list of its bytes, and a literal is the list of its codes.
use Prim.Native.Nat.{ℕ, ◌+◌, ◌-◌, ◌≤◌}
use Prim.Native.Char.{code}
use Prim.Native.String.{String}
use mathlib.Core.Path.{◌≡◌, refl}
use mathlib.Core.Bool.{Bool, true, false, ◌&&◌, ◌||◌}
use mathlib.Core.Option
use mathlib.Core.Option.{Option, none, some}
use mathlib.Core.List.{List, [], ◌∷◌, ◌++◌}
use native.Mathlib.Omega.{arith}
use entid_go.Prelude.Tests.{◌==◌, leb, ltb, if◌then◌else◌}
use entid_go.Prelude.Lists.{length, take, drop}

abbrev pub Bytes : Type 0
Bytes = List ℕ

abbrev pub codes : String → Bytes
codes String.[] = []
codes (String.◌∷◌ c s) = code c ∷ codes s

-- `a == b` on strings.
unfoldable pub beq : Bytes → Bytes → Bool
beq [] [] = true
beq [] (y ∷ ys) = false
beq (x ∷ xs) [] = false
beq (x ∷ xs) (y ∷ ys) = (x == y) && beq xs ys

pub beq→eq : (xs ys : Bytes) → beq xs ys ≡ true → xs ≡ ys
unfolding beq
beq→eq [] [] h = refl
beq→eq [] (y ∷ ys) h = cc
beq→eq (x ∷ xs) [] h = cc
beq→eq (x ∷ xs) (y ∷ ys) h = ground (arith, beq→eq xs ys)

pub beq_refl : (xs : Bytes) → beq xs xs ≡ true
unfolding beq
beq_refl [] = refl
beq_refl (x ∷ xs) = ground (arith, beq_refl xs)

pub eq→beq : (xs ys : Bytes) → xs ≡ ys → beq xs ys ≡ true
eq→beq xs ys e = rw e (beq_refl ys)

-- `strings.HasPrefix(s, prefix)`, in the order of Go's arguments.
unfoldable pub has_prefix : Bytes → Bytes → Bool
has_prefix s [] = true
has_prefix [] (y ∷ ys) = false
has_prefix (x ∷ xs) (y ∷ ys) = (x == y) && has_prefix xs ys

pub has_prefix-append : (p s : Bytes) → has_prefix (p ++ s) p ≡ true
unfolding has_prefix
has_prefix-append [] [] = refl
has_prefix-append [] (x ∷ s) = refl
has_prefix-append (x ∷ p) s = ground (arith, has_prefix-append p s)

pub has_prefix→eq : (s p : Bytes) → has_prefix s p ≡ true → s ≡ p ++ drop (length p) s
unfolding has_prefix
has_prefix→eq [] [] h = refl
has_prefix→eq (x ∷ s) [] h = refl
has_prefix→eq [] (y ∷ p) h = cc
has_prefix→eq (x ∷ s) (y ∷ p) h = ground (arith, has_prefix→eq s p)

-- A prefix test is an equality with the opening bytes.
pub has_prefix-take :
    (s p : Bytes) → length p ≤ length s → has_prefix s p ≡ beq (take (length p) s) p
unfolding has_prefix beq
has_prefix-take [] [] h = refl
has_prefix-take (x ∷ s) [] h = refl
has_prefix-take [] (y ∷ p) h = elim h [ ]
has_prefix-take (x ∷ s) (y ∷ p) h = ground (arith, has_prefix-take s p)

pub length-has_prefix : (s p : Bytes) → has_prefix s p ≡ true → length p ≤ length s
unfolding has_prefix
length-has_prefix s [] h = omega arith
length-has_prefix [] (y ∷ p) h = cc
length-has_prefix (x ∷ s) (y ∷ p) h = ground (arith, length-has_prefix s p)

-- `strings.IndexByte(set, b) >= 0`.
unfoldable pub contains : Bytes → ℕ → Bool
contains [] b = false
contains (x ∷ xs) b = (x == b) || contains xs b

-- Every byte passes a test.
unfoldable pub all : (ℕ → Bool) → Bytes → Bool
all f [] = true
all f (x ∷ xs) = f x && all f xs

unfoldable pub any : (ℕ → Bool) → Bytes → Bool
any f [] = false
any f (x ∷ xs) = f x || any f xs

-- `a < b` on strings: byte by byte, a proper prefix first.
unfoldable pub less : Bytes → Bytes → Bool
less [] [] = false
less [] (y ∷ ys) = true
less (x ∷ xs) [] = false
less (x ∷ xs) (y ∷ ys) = if x == y then less xs ys else ltb x y

-- `strings.HasSuffix(s, suffix)`.
unfoldable pub has_suffix : Bytes → Bytes → Bool
has_suffix s suffix =
    leb (length suffix) (length s) && beq (drop (length s - length suffix) s) suffix

-- `strings.Index(s, sep)`; `none` is its -1.
unfoldable pub index : Bytes → Bytes → Option ℕ
index [] sep = if has_prefix [] sep then some 0 else none
index (x ∷ xs) sep =
    if has_prefix (x ∷ xs) sep then some 0 else Option.map (λ i. i + 1) (index xs sep)

-- `s[from:to]`.
abbrev pub slice : Bytes → ℕ → ℕ → Bytes
slice s from to = take (to - from) (drop from s)
