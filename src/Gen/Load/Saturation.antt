-- ===== src/Gen/Load/Saturation.antt =====
-- The saturating count of `expansionOf` against the count without bound.
use entid_go.Prelude.{
  ℕ, zero, suc, ◌+◌, ◌≡◌, refl, sym, ap, ◌∙◌, List, [], ◌∷◌, ◌++◌, arith, get_or, min,
}
use entid_go.Gen.Model.{Node}
use entid_go.Gen.Load.Expansion.{ceiling, saturating_add, sum_instances, instances_from, instances}

-- The operations that each node writes out: its own, and those of every operand as often as it is read.
abbrev pub sum_counts : List ℕ → List ℕ → ℕ → ℕ
sum_counts counts [] total = total
sum_counts counts (i ∷ is) total = sum_counts counts is (total + get_or counts i 0)

abbrev pub counts_from : List ℕ → List Node → List ℕ
counts_from counts [] = counts
counts_from counts (n ∷ ns) = counts_from (counts ++ sum_counts counts n.input_nodes 1 ∷ []) ns

abbrev capped : List ℕ → List ℕ
capped [] = []
capped (c ∷ cs) = min c ceiling ∷ capped cs

saturating_add-min :
    (a b : ℕ) → saturating_add (min a ceiling) (min b ceiling) ≡ min (a + b) ceiling
unfolding saturating_add
saturating_add-min a b = ground arith

get_or-capped : (cs : List ℕ) (i : ℕ) → get_or (capped cs) i 0 ≡ min (get_or cs i 0) ceiling
get_or-capped [] i = ground arith
get_or-capped (c ∷ cs) zero = refl
get_or-capped (c ∷ cs) (suc i) = get_or-capped cs i

capped-append : (cs : List ℕ) (c : ℕ) → capped (cs ++ c ∷ []) ≡ capped cs ++ min c ceiling ∷ []
capped-append [] c = refl
capped-append (x ∷ cs) c = ap (λ l. min x ceiling ∷ l) (capped-append cs c)

sum_instances-capped :
    (cs is : List ℕ) (total : ℕ)
    → sum_instances (capped cs) is (min total ceiling) ≡ min (sum_counts cs is total) ceiling
unfolding sum_instances
sum_instances-capped cs [] total = refl
sum_instances-capped cs (i ∷ is) total =
    rw (get_or-capped cs i, saturating_add-min total (get_or cs i 0))
      (sum_instances-capped cs is (total + get_or cs i 0))

instances_from-capped :
    (cs : List ℕ) (ns : List Node) → instances_from (capped cs) ns ≡ capped (counts_from cs ns)
unfolding instances_from
instances_from-capped cs [] = refl
instances_from-capped cs (n ∷ ns) = rw (sum_instances-capped cs n.input_nodes 1) (
    rw (sym (capped-append cs (sum_counts cs n.input_nodes 1)))
      (instances_from-capped (cs ++ sum_counts cs n.input_nodes 1 ∷ []) ns))

-- The counts that `expansionOf` keeps are the counts without bound, each cut at one past the budget: a count
-- never wraps.
pub instances-capped :
    (nodes : List Node) (i : ℕ)
    → get_or (instances nodes) i 0 ≡ min (get_or (counts_from [] nodes) i 0) ceiling
unfolding instances
instances-capped nodes i =
    ap (λ cs. get_or cs i 0) (instances_from-capped [] nodes)
    ∙ get_or-capped (counts_from [] nodes) i
