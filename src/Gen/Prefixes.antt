-- ===== src/Gen/Prefixes.antt =====
-- internal/gen/emit_programs.go, `emitPrefixSets`: the values of a `prefix_in` in groups by length.
pub mod Groups
pub mod Scan
use mathlib.Core.Path.{subst}
use mathlib.Core.List.Memᴰ
use mathlib.Core.List.{Memᴰ}
use entid_go.Prelude.{
  ℕ, zero, suc, ◌+◌, ◌≤◌, ◌<◌, ◌≡◌, refl, sym, ap, ◌∙◌, Bool, true, false, not, ◌&&◌, ◌||◌, List,
  [], ◌∷◌, arith, ltb, leb, ◌==◌, ==_iff, if◌then◌else◌, length, get_or, Bytes, less, Bool-cases,
  inl, inr, ◌⊎◌, ||-inv, &&-inv, has_prefix as string_has_prefix,
}
use entid_go.Gen.Limits.{member}
use entid_go.Gen.Load.Nodes.{ascending_strings}
use entid_go.Gen.Load.Ordered.{member_head, member_tail}
use entid_go.Runtime.View.{View}
use entid_go.Runtime.View.Prefixes.{
  PrefixGroup, Ascending, OfLength, WellFormed, some_prefix, scan_groups, prefix_in_sorted,
  prefix_in_sorted-scan,
}

unfoldable pub of_length : ℕ → List Bytes → List Bytes
of_length n [] = []
of_length n (v ∷ vs) = if length v == n then v ∷ of_length n vs else of_length n vs

-- The lengths in the order in which they come, each once.
unfoldable pub lengths_of : List ℕ → List Bytes → List ℕ
lengths_of seen [] = []
lengths_of seen (v ∷ vs) =
    let old = lengths_of seen vs in
    let new = lengths_of (length v ∷ seen) vs in
    if member (length v) seen then old else length v ∷ new

-- `sort.Ints`.
unfoldable pub insert_int : ℕ → List ℕ → List ℕ
insert_int a [] = a ∷ []
insert_int a (x ∷ xs) = if leb a x then a ∷ x ∷ xs else x ∷ insert_int a xs

unfoldable pub sort_ints : List ℕ → List ℕ
unfolding insert_int
sort_ints [] = []
sort_ints (x ∷ xs) = insert_int x (sort_ints xs)

unfoldable pub groups_of : List Bytes → List ℕ → List PrefixGroup
groups_of values [] = []
groups_of values (n ∷ ns) =
    record { length_of = n; values = of_length n values } ∷ groups_of values ns

unfoldable pub prefix_groups : List Bytes → List PrefixGroup
unfolding groups_of sort_ints lengths_of of_length
prefix_groups values = groups_of values (sort_ints (lengths_of [] values))
