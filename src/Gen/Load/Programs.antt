-- ===== src/Gen/Load/Programs.antt =====
-- load.go: `checkProgram` and `checkPrograms`, checks 8 to 16. The capabilities in use are collected as
-- the checks go on.
use entid_go.Gen.Limits.{
  max_total_nodes, max_nodes_per_program, max_steps, max_captures_per_format, member,
  feature_captures_and_calls,
}
use entid_go.Prelude.{
  ℕ, ◌+◌, Bool, true, false, not, ◌&&◌, ◌||◌, List, [], ◌∷◌, ◌++◌, Option, none, some, ltb, leb,
  ◌==◌, if◌then◌else◌, length, get_or, drop, Bytes, beq, ◌>>=◌,
}
use entid_go.Gen.Model.{
  Node, no_node, Program, Capture, value_string, value_checksum_outcome, program_format,
  program_canonicalization, program_checksum,
}
use entid_go.Gen.Opcodes.{
  is_op, Category, category_number, subset, op_invalid, op_subject, op_checksum_when, op_choose,
  op_canon_sequence, op_assert_sequence, cat_call,
}
use entid_go.Gen.Opcodes.Specs.{spec}
use entid_go.Gen.Opcodes.Tables.{
  category, categories_by_program_kind, call_op_for_program, pre_canonicalization_op,
}
use entid_go.Gen.Load.Nodes.{present, check_operands}
use entid_go.Gen.Load.Bounds.{check_bounds, string_bound}
use entid_go.Gen.Load.Expansion.{expansion_of, reads_subject}

-- Checks 10 to 13 of node `i`, with the bounds of those before it.
unfoldable pub check_node : List Node → ℕ → Node → List (Option ℕ) → Option (List ℕ)
unfolding check_operands present subset spec
check_node nodes i n bounds =
    let s = spec n.op in
    if is_op n.op op_invalid
    then none
    else if not (n.output_type == s.output)
    then none
    else if not (check_operands nodes i n s)
    then none
    else if not (subset (present n) (s.required ++ s.optional))
    then none
    else if not (subset s.required (present n))
    then none
    else check_bounds n bounds >>= λ fs. some (s.features ++ fs)

unfoldable pub check_nodes : List Node → List Node → ℕ → List (Option ℕ) → List ℕ → Option (List ℕ)
check_nodes nodes [] i bounds used = some used
check_nodes nodes (n ∷ ns) i bounds used = check_node nodes i n bounds >>= λ fs.
    check_nodes nodes ns (i + 1) (bounds ++ string_bound n bounds ∷ []) (fs ++ used)

-- The subject, and the captures with their names so far.
unfoldable pub check_subject : Program → Option (List ℕ)
check_subject p = elim p.subject_node [
  | none ↦ some []
  | some i ↦
      if p.kind == program_canonicalization
      then none
      else if leb (length p.nodes) i
      then none
      else if not ((get_or p.nodes i no_node).output_type == value_string)
      then none
      else elim (reads_subject p.nodes i) [
        | none ↦ some (feature_captures_and_calls ∷ [])
        | some k ↦ none
      ]
]

abbrev pub member_string : Bytes → List Bytes → Bool
member_string a [] = false
member_string a (x ∷ xs) = beq x a || member_string a xs

unfoldable pub captures_named : List Node → List Bytes → List Capture → Bool
captures_named nodes names [] = true
captures_named nodes names (c ∷ cs) =
    not (length c.name == 0)
    && not (member_string c.name names)
    && ltb c.node (length nodes)
    && (get_or nodes c.node no_node).output_type == value_string
    && captures_named nodes (c.name ∷ names) cs

unfoldable pub check_captures : Program → Option (List ℕ)
unfolding captures_named
check_captures p =
    if length p.captures == 0
    then some []
    else if not (p.kind == program_format)
    then none
    else if ltb max_captures_per_format (length p.captures)
    then none
    else if captures_named p.nodes [] p.captures
    then some (feature_captures_and_calls ∷ [])
    else none

abbrev pub has_category : Category → List Category → Bool
has_category c [] = false
has_category c (x ∷ xs) = category_number x == category_number c || has_category c xs

-- How often a node is an operand of those behind it, if only of CHOOSE; `none` for another consumer.
unfoldable pub consumers : ℕ → List Node → Option Bool
consumers i [] = some false
consumers i (n ∷ ns) =
    let rest = consumers i ns in
    if not (member i n.input_nodes)
    then rest
    else if is_op n.op op_choose
    then (rest >>= λ b. some true)
    else none

unfoldable pub check_when : Program → ℕ → Bool
unfolding consumers
check_when p i = elim (consumers i (drop (i + 1) p.nodes)) [
  | none ↦ false
  | some found ↦ p.root_node == i || found
]

unfoldable pub check_category : List ℕ → Program → ℕ → Node → Bool
unfolding check_when category
check_category pre p i n =
    has_category (category n.op) (categories_by_program_kind p.kind)
    && not (
        category_number (category n.op) == category_number cat_call
        && not (is_op n.op (call_op_for_program p.kind)))
    && not (is_op n.op op_subject && p.kind == program_canonicalization)
    && not (member p.id pre && not (pre_canonicalization_op n.op))
    && (not (is_op n.op op_checksum_when) || check_when p i)

unfoldable pub check_categories : List ℕ → Program → ℕ → List Node → Bool
unfolding check_category
check_categories pre p i [] = true
check_categories pre p i (n ∷ ns) = check_category pre p i n && check_categories pre p (i + 1) ns

unfoldable pub check_root : Program → Bool
check_root p =
    let root = get_or p.nodes p.root_node no_node in
    if p.kind == program_canonicalization
    then is_op root.op op_canon_sequence
    else if p.kind == program_format
    then is_op root.op op_assert_sequence
    else if p.kind == program_checksum
    then root.output_type == value_checksum_outcome && not (is_op root.op op_checksum_when)
    else true

-- The expansion is counted only for a root inside the program, the next check.
unfoldable pub check_program : List ℕ → Program → Option (List ℕ)
check_program pre p = do
  used ← check_nodes p.nodes p.nodes 0 [] []
  subject ←
      (if ltb p.root_node (length p.nodes) && ltb max_steps (expansion_of p)
        then none
        else if leb (length p.nodes) p.root_node
        then none
        else check_subject p)
  captures ← check_captures p
  if check_categories pre p 0 p.nodes && check_root p
      then some (captures ++ (subject ++ used))
      else none

-- Checks 8 and 9, with the ids and the number of nodes so far; the id before is the head.
unfoldable pub check_headers : List ℕ → ℕ → List Program → Bool
check_headers ids total [] = true
check_headers ids total (p ∷ ps) =
    not (p.id == 0)
    && not (not (length ids == 0) && leb p.id (get_or ids 0 0))
    && not (member p.id ids)
    && (p.kind == program_canonicalization
        || p.kind == program_format
        || p.kind == program_checksum)
    && not (length p.nodes == 0)
    && leb (length p.nodes) max_nodes_per_program
    && leb (total + length p.nodes) max_total_nodes
    && check_headers (p.id ∷ ids) (total + length p.nodes) ps

unfoldable pub check_each : List ℕ → List Program → Option (List ℕ)
check_each pre [] = some []
check_each pre (p ∷ ps) = check_program pre p >>= λ fs. check_each pre ps >>= λ gs. some (fs ++ gs)

unfoldable pub check_programs : List ℕ → List Program → Option (List ℕ)
unfolding check_headers
check_programs pre ps = if check_headers [] 0 ps then check_each pre ps else none
