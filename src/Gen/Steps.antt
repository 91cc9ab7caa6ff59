-- ===== src/Gen/Steps.antt =====
-- internal/gen/emit_programs.go: the statements that a canonicalizer compiles to, and the workspace sized
-- for them. The text of an emitted statement is a value of `Statement`, which `run` executes.
pub mod Fits
pub mod Growth
pub mod Fuel
pub mod Emission
pub mod Sizing
pub mod Accepted
use Prim.Native.Nat.{max}
use entid_go.Prelude.{
  ◌++◌, map, ◌==◌, ℕ, zero, suc, ◌+◌, ◌-◌, ◌*◌, Bool, true, false, not, List, [], ◌∷◌, Option, none,
  some, ltb, ◌||◌, if◌then◌else◌, length, get_or, drop, Bytes, ◌>>=◌,
}
use entid_go.Prelude.Int.{pos}
use entid_go.Gen.Opcodes.{
  Opcode, op_canon_sequence, op_canon_when, op_trim_whitespace, op_remove_whitespace,
  op_uppercase_ascii, op_remove_chars, op_replace_prefix, op_prepend, op_append, op_insert,
  op_left_pad, op_prepend_country_if_missing,
}
use entid_go.Gen.Limits.{max_slice_bound, max_input_bytes, member}
use entid_go.Gen.Model.{
  Node, Program, IdentifierDefinition, DispatchTarget, IdentifierDispatcher, Bundle, no_node,
  or_zero, or_empty, program,
}
use entid_go.Runtime.Buffer
use entid_go.Runtime.Buffer.{Buf}

-- The statements over the workspace `w`; the expression of a `CANON_WHEN` is named by its node.
pub data Statement : Type 0 where
  w_nothing : Statement
  w_both : Statement → Statement → Statement
  w_when : ℕ → Statement → Statement
  w_trim_whitespace w_remove_whitespace w_uppercase_ascii : Statement
  w_remove_chars : Bytes → Statement
  w_replace_prefix : Bytes → Bytes → Statement
  w_prepend w_append : Bytes → Statement
  w_insert w_left_pad : ℕ → Bytes → Statement
  w_unless_prefixed : List Bytes → Bytes → Statement

abbrev pub has_any_prefix : Buf → List Bytes → Bool
has_any_prefix w [] = false
has_any_prefix w (p ∷ ps) = Buffer.has_prefix w p || has_any_prefix w ps

-- `truth` evaluates the expression of a node on the workspace.
unfoldable pub run : (ℕ → Buf → Bool) → Statement → Buf → Option Buf
run truth w_nothing w = some w
run truth (w_both a b) w = run truth a w >>= run truth b
run truth (w_when i body) w = let done = run truth body w in if truth i w then done else some w
run truth w_trim_whitespace w = Buffer.trim_whitespace w
run truth w_remove_whitespace w = Buffer.remove_whitespace w
run truth w_uppercase_ascii w = Buffer.uppercase_ascii w
run truth (w_remove_chars set) w = Buffer.remove_chars set w
run truth (w_replace_prefix from to) w = Buffer.replace_prefix from to w
run truth (w_prepend text) w = Buffer.prepend text w
run truth (w_append text) w = Buffer.append text w
run truth (w_insert index text) w = Buffer.insert (pos index) text w
run truth (w_left_pad len text) w = Buffer.left_pad (pos len) text w
run truth (w_unless_prefixed prefixes lead) w =
    if has_any_prefix w prefixes then some w else Buffer.prepend lead w

-- The canonical prefix of a target, and its country where it has none.
abbrev pub lead_of : DispatchTarget → Bytes
lead_of t = elim t.canonical_prefix [ none ↦ or_empty t.country_code | some lead ↦ lead ]

abbrev pub emit_lead : Bytes → List Bytes → Statement
emit_lead [] prefixes = w_nothing
emit_lead (b ∷ lead) [] = w_prepend (b ∷ lead)
emit_lead (b ∷ lead) (p ∷ prefixes) = w_unless_prefixed (p ∷ prefixes) (b ∷ lead)

unfoldable pub emit_prepend_country : Option DispatchTarget → Option Statement
emit_prepend_country none = none
emit_prepend_country (some t) = some (emit_lead (lead_of t) t.accepted_prefixes)

abbrev pub emit_each : (ℕ → Option Statement) → List ℕ → Option Statement
emit_each emit [] = some w_nothing
emit_each emit (i ∷ is) = do a ← emit i; b ← emit_each emit is; some (w_both a b)

abbrev pub emit_when : (ℕ → Option Statement) → List ℕ → Option Statement
emit_when emit [] = none
emit_when emit (i ∷ is) = do body ← emit_each emit is; some (w_when i body)

-- One case of the switch: `emit` writes the steps of another node.
abbrev pub emit_step :
    Opcode → Node → Option DispatchTarget → (ℕ → Option Statement) → Option Statement
emit_step op_canon_sequence n target emit = emit_each emit n.input_nodes
emit_step op_canon_when n target emit = emit_when emit n.input_nodes
emit_step op_trim_whitespace n target emit = some w_trim_whitespace
emit_step op_remove_whitespace n target emit = some w_remove_whitespace
emit_step op_uppercase_ascii n target emit = some w_uppercase_ascii
emit_step op_remove_chars n target emit = some (w_remove_chars (or_empty n.text))
emit_step op_replace_prefix n target emit =
    some (w_replace_prefix (or_empty n.text) (or_empty n.replacement))
emit_step op_prepend n target emit = some (w_prepend (or_empty n.text))
emit_step op_append n target emit = some (w_append (or_empty n.text))
emit_step op_insert n target emit = some (w_insert (or_zero n.index) (or_empty n.text))
emit_step op_left_pad n target emit = some (w_left_pad (or_zero n.len) (or_empty n.text))
emit_step op_prepend_country_if_missing n target emit = emit_prepend_country target
emit_step op n target emit = none

-- `emitSteps`: the fuel bounds the nesting, and `none` is a panic.
unfoldable pub emit_steps : ℕ → List Node → Option DispatchTarget → ℕ → Option Statement
emit_steps zero nodes target i = none
emit_steps (suc f) nodes target i =
    let n = get_or nodes i no_node in emit_step n.op n target (λ j. emit_steps f nodes target j)

abbrev pub growth_each : (ℕ → ℕ × ℕ) → List ℕ → ℕ × ℕ
growth_each grow [] = (0, 0)
growth_each grow (i ∷ is) =
    let (l, r) = grow i in let (left, right) = growth_each grow is in (l + left, r + right)

abbrev pub growth_step : Opcode → Node → Option DispatchTarget → (ℕ → ℕ × ℕ) → ℕ × ℕ
growth_step op_canon_sequence n target grow = growth_each grow n.input_nodes
growth_step op_canon_when n target grow = growth_each grow (drop 1 n.input_nodes)
growth_step op_replace_prefix n target grow =
    (length (or_empty n.replacement) - length (or_empty n.text), 0)
growth_step op_prepend n target grow = (length (or_empty n.text), 0)
growth_step op_left_pad n target grow = (or_zero n.len * length (or_empty n.text), 0)
growth_step op_append n target grow = (0, length (or_empty n.text))
growth_step op_insert n target grow = (0, length (or_empty n.text))
growth_step op_prepend_country_if_missing n target grow = elim target [
  | none ↦ (0, 0)
  | some t ↦ (length (lead_of t), 0)
]
growth_step op n target grow = (0, 0)

-- `growth`: the bytes that a node can add on either side.
unfoldable pub growth : ℕ → List Node → Option DispatchTarget → ℕ → ℕ × ℕ
growth zero nodes target i = (0, 0)
growth (suc f) nodes target i =
    let n = get_or nodes i no_node in growth_step n.op n target (λ j. growth f nodes target j)

abbrev pub max_scratch_margin : ℕ
max_scratch_margin = max_slice_bound * 4

pub record ScratchSizing : Type 0 where
  pub left : ℕ
  pub right : ℕ

abbrev pub size : ScratchSizing → ℕ
size s = s.left + max_input_bytes + s.right

-- `targetOf`: the first target of the definition, over the dispatchers in order.
abbrev pub target_among : ℕ → List DispatchTarget → Option DispatchTarget → Option DispatchTarget
target_among id [] rest = rest
target_among id (t ∷ ts) rest = if t.definition_id == id then some t else target_among id ts rest

unfoldable pub target_of : List IdentifierDispatcher → ℕ → Option DispatchTarget
target_of [] id = none
target_of (d ∷ ds) id = target_among id d.targets (target_of ds id)

-- What `sizeScratch` considers, in its order: a program, and the target that it is reached through.
abbrev pub considered : Bundle → List (Option Program × Option DispatchTarget)
considered b =
    map (λ d. (program b.programs d.pre_canonicalization_program, none)) b.dispatchers
    ++ map
        (λ def. (program b.programs def.canonicalization_program, target_of b.dispatchers def.id))
        b.identifiers

-- The loop over them: `seen` are the ids that were sized. A tree nests no deeper than the program is long.
unfoldable pub size_each :
    List (Option Program × Option DispatchTarget) → List ℕ → ScratchSizing → Option ScratchSizing
size_each [] seen out = some out
size_each ((none, t) ∷ ps) seen out = size_each ps seen out
size_each ((some p, t) ∷ ps) seen out =
    let (left, right) = growth (length p.nodes) p.nodes t p.root_node in
    let skipped = size_each ps seen out in
    let grown =
      size_each ps (p.id ∷ seen)
        (record { left = max out.left left; right = max out.right right }) in
    if member p.id seen
    then skipped
    else if ltb max_scratch_margin left || ltb max_scratch_margin right
    then none
    else grown

unfoldable pub size_scratch : Bundle → Option ScratchSizing
size_scratch b = size_each (considered b) [] (record { left = 0; right = 0 })
