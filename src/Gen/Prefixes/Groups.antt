-- ===== src/Gen/Prefixes/Groups.antt =====
-- The order and the lengths in the groups of `emitPrefixSets`.
use mathlib.Core.List.{Memᴰ}
use entid_go.Prelude.{
  ℕ, zero, suc, ◌<◌, ◌≡◌, refl, ap, ◌∙◌, Bool, true, false, List, [], ◌∷◌, arith, ◌==◌, ==_iff,
  if◌then◌else◌, length, get_or, Bytes, less, Bool-cases, inl, inr, ◌⊎◌, &&-inv,
}
use entid_go.Gen.Load.Nodes.{ascending_strings}
use entid_go.Runtime.View.Prefixes.{Ascending, OfLength, WellFormed}
use entid_go.Gen.Prefixes.{of_length, groups_of}

-- Every later value is above an earlier one.
abbrev Above : Bytes → List Bytes → Type 0
Above x vs = (y : Bytes) → Memᴰ y vs → less x y ≡ true

abbrev Rising : List Bytes → Type 0
Rising [] = Unit {0}
Rising (x ∷ vs) = Above x vs × Rising vs

less_trans : (a b c : Bytes) → less a b ≡ true → less b c ≡ true → less a c ≡ true
unfolding less
less_trans [] [] c h k = k
less_trans [] (y ∷ b) [] h k = absurd (ground arith)
less_trans [] (y ∷ b) (z ∷ c) h k = refl
less_trans (x ∷ a) [] c h k = absurd (ground arith)
less_trans (x ∷ a) (y ∷ b) [] h k = absurd (ground arith)
less_trans (x ∷ a) (y ∷ b) (z ∷ c) h k = ground (arith, less_trans a b c)

pub ascending_strings-Rising : (vs : List Bytes) → ascending_strings vs ≡ true → Rising vs
unfolding ascending_strings
ascending_strings-Rising [] h = tt
ascending_strings-Rising (x ∷ []) h = (λ y m. elim m [ ], tt)
ascending_strings-Rising (x ∷ z ∷ vs) h =
    let (first, rest) = &&-inv _ _ h in
    let (above, rising) = ascending_strings-Rising (z ∷ vs) rest in
    (
      λ y m. elim m [
        | Memᴰ.head same ↦ ap (less x) same ∙ first
        | Memᴰ.tail m' ↦ less_trans x z y first (above y m')
      ],
      (above, rising),
    )

choose-member :
    (b : Bool) (x : Bytes) (rest : List Bytes) (v : Bytes)
    → Memᴰ v (if b then x ∷ rest else rest)
    → (v ≡ x) ⊎ Memᴰ v rest
choose-member true x rest v (Memᴰ.head same) = inl same
choose-member true x rest v (Memᴰ.tail m) = inr m
choose-member false x rest v m = inr m

pub of_length-member : (n : ℕ) (vs : List Bytes) (v : Bytes) → Memᴰ v (of_length n vs) → Memᴰ v vs
unfolding of_length
of_length-member n [] v m = m
of_length-member n (x ∷ vs) v m = elim (choose-member (length x == n) x (of_length n vs) v m) [
  | inl same ↦ Memᴰ.head same
  | inr rest ↦ Memᴰ.tail (of_length-member n vs v rest)
]

of_length-Rising : (n : ℕ) (vs : List Bytes) → Rising vs → Rising (of_length n vs)
unfolding of_length
of_length-Rising n [] r = r
of_length-Rising n (x ∷ vs) (above, r) = elim (Bool-cases (length x == n)) [
  | inl here ↦ rw here ((λ y m. above y (of_length-member n vs y m)), of_length-Rising n vs r)
  | inr other ↦ rw other (of_length-Rising n vs r)
]

of_length-OfLength : (n : ℕ) (vs : List Bytes) → OfLength n (of_length n vs)
unfolding of_length
of_length-OfLength n [] = tt
of_length-OfLength n (x ∷ vs) = elim (Bool-cases (length x == n)) [
  | inl here ↦ rw here ((==_iff (length x) n).0 here, of_length-OfLength n vs)
  | inr other ↦ rw other (of_length-OfLength n vs)
]

get_or-member : (vs : List Bytes) (j : ℕ) → j < length vs → Memᴰ (get_or vs j []) vs
get_or-member [] j h = absurd (omega arith)
get_or-member (x ∷ vs) zero h = Memᴰ.head refl
get_or-member (x ∷ vs) (suc j) h = Memᴰ.tail (get_or-member vs j (omega arith))

Rising-Ascending : (vs : List Bytes) → Rising vs → Ascending vs
Rising-Ascending [] r i j h k = absurd (omega arith)
Rising-Ascending (x ∷ vs) (above, r) zero zero h k = absurd (omega arith)
Rising-Ascending (x ∷ vs) (above, r) zero (suc j) h k = above _ (get_or-member vs j (omega arith))
Rising-Ascending (x ∷ vs) (above, r) (suc i) zero h k = absurd (omega arith)
Rising-Ascending (x ∷ vs) (above, r) (suc i) (suc j) h k =
    Rising-Ascending vs r i j (omega arith) (omega arith)

pub groups_of-WellFormed :
    (vs : List Bytes) (ns : List ℕ) → Rising vs → WellFormed (groups_of vs ns)
unfolding groups_of
groups_of-WellFormed vs [] r = tt
groups_of-WellFormed vs (n ∷ ns) r = (
  Rising-Ascending (of_length n vs) (of_length-Rising n vs r),
  of_length-OfLength n vs,
  groups_of-WellFormed vs ns r,
)
