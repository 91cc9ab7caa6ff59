-- ===== src/Gen/Load/Expansion.antt =====
-- load.go: how many operations a program holds once repeated operands are written out, and whether a
-- subject reads itself. A walk marks nodes in a list of flags.
use entid_go.Prelude.{
  ℕ, zero, suc, ◌+◌, ◌-◌, Bool, true, false, not, ◌||◌, List, [], ◌∷◌, ◌++◌, Option, none, some,
  ltb, leb, if◌then◌else◌, length, get_or, set, replicate,
}
use entid_go.Gen.Limits.{max_steps}
use entid_go.Gen.Model.{Node, no_node, Program, Capture}
use entid_go.Gen.Opcodes.{is_op, op_subject}

abbrev pub ceiling : ℕ
ceiling = max_steps + 1

unfoldable pub saturating_add : ℕ → ℕ → ℕ
saturating_add a b =
    if leb ceiling a || leb ceiling b || ltb (ceiling - b) a then ceiling else a + b

-- The inner loop of `instances`: 1 and the counts of the operands.
unfoldable pub sum_instances : List ℕ → List ℕ → ℕ → ℕ
unfolding saturating_add
sum_instances counts [] total = total
sum_instances counts (i ∷ is) total =
    sum_instances counts is (saturating_add total (get_or counts i 0))

-- The counts of the nodes, in their order.
unfoldable pub instances_from : List ℕ → List Node → List ℕ
unfolding sum_instances
instances_from counts [] = counts
instances_from counts (n ∷ ns) =
    instances_from (counts ++ sum_instances counts n.input_nodes 1 ∷ []) ns

unfoldable pub instances : List Node → List ℕ
unfolding instances_from
instances nodes = instances_from [] nodes

abbrev pub mark_all : List Bool → List ℕ → List Bool
mark_all flags [] = flags
mark_all flags (i ∷ is) = mark_all (set flags i true) is

-- `for i := from; i >= 0; i--`, with `i` one below the counter: the operands of a marked node are marked.
unfoldable pub sweep : List Node → ℕ → List Bool → List Bool
sweep nodes zero flags = flags
sweep nodes (suc i) flags =
    let flags' = mark_all flags (get_or nodes i no_node).input_nodes in
    sweep nodes i (if get_or flags i false then flags' else flags)

-- The closure `reach`: a root that another has covered counts for nothing.
unfoldable pub reach : List Node → List ℕ → List Bool × ℕ → ℕ → List Bool × ℕ
unfolding sweep saturating_add
reach nodes counts (covered, total) from = if get_or covered from false then (covered, total) else (
  sweep nodes (from + 1) (set covered from true),
  saturating_add total (get_or counts from 0),
)

unfoldable pub reach_all : List Node → List ℕ → List Bool × ℕ → List ℕ → List Bool × ℕ
unfolding reach
reach_all nodes counts s [] = s
reach_all nodes counts s (r ∷ rs) = reach_all nodes counts (reach nodes counts s r) rs

-- `slices.SortFunc` on the captures, from the highest index down.
unfoldable pub insert_descending : ℕ → List ℕ → List ℕ
insert_descending a [] = a ∷ []
insert_descending a (x ∷ xs) = if leb x a then a ∷ x ∷ xs else x ∷ insert_descending a xs

unfoldable pub sort_descending : List ℕ → List ℕ
unfolding insert_descending
sort_descending [] = []
sort_descending (x ∷ xs) = insert_descending x (sort_descending xs)

abbrev in_program : ℕ → List ℕ → List ℕ
in_program n [] = []
in_program n (i ∷ is) = if ltb i n then i ∷ in_program n is else in_program n is

abbrev subject_root : ℕ → Option ℕ → List ℕ
subject_root n none = []
subject_root n (some i) = if ltb i n then i ∷ [] else []

abbrev capture_nodes : List Capture → List ℕ
capture_nodes [] = []
capture_nodes (c ∷ cs) = c.node ∷ capture_nodes cs

-- The emission roots in the order in which they are reached.
unfoldable pub roots : Program → List ℕ
unfolding sort_descending
roots p =
    let n = length p.nodes in
    p.root_node
    ∷ (subject_root n p.subject_node ++ sort_descending (in_program n (capture_nodes p.captures)))

unfoldable pub expansion_of : Program → ℕ
unfolding reach_all roots instances
expansion_of p =
    (reach_all p.nodes (instances p.nodes) (replicate (length p.nodes) false, 0) (roots p)).1

-- The walk of `readsSubject`; the answer is the node that reads.
unfoldable pub subject_walk : List Node → ℕ → List Bool → Option ℕ
subject_walk nodes zero reached = none
subject_walk nodes (suc i) reached =
    let marked = subject_walk nodes i (mark_all reached (get_or nodes i no_node).input_nodes) in
    let skipped = subject_walk nodes i reached in
    if not (get_or reached i false)
    then skipped
    else if is_op (get_or nodes i no_node).op op_subject
    then some i
    else marked

unfoldable pub reads_subject : List Node → ℕ → Option ℕ
unfolding subject_walk
reads_subject nodes from =
    subject_walk nodes (from + 1) (set (replicate (length nodes) false) from true)
