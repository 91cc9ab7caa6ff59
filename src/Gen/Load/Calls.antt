-- ===== src/Gen/Load/Calls.antt =====
-- load.go: `checkCallGraph`, check 24, a depth first walk over the calls. A program on the current path
-- is grey, an explored one is black and has its depth.
pub mod Walk
pub mod Visit
pub mod Depth
use entid_go.Prelude.{
  ℕ, zero, suc, ◌+◌, Bool, not, ◌||◌, List, [], ◌∷◌, Option, none, some, ltb, leb, ◌==◌,
  if◌then◌else◌, length, ◌>>=◌,
}
use entid_go.Gen.Limits.{max_call_depth, member}
use entid_go.Gen.Model.{Node, Program, program}
use entid_go.Gen.Opcodes.{is_op, op_call_format, op_call_checksum}

-- The black programs by id, with their depths.
abbrev pub Depths : Type 0
Depths = List (ℕ × ℕ)

unfoldable pub depth_of : Depths → ℕ → Option ℕ
depth_of [] id = none
depth_of ((k, d) ∷ ds) id = if k == id then some d else depth_of ds id

abbrev pub is_call : Node → Bool
is_call n = is_op n.op op_call_format || is_op n.op op_call_checksum

abbrev pub larger : ℕ → ℕ → ℕ
larger a b = if leb a b then b else a

-- The loop over the nodes of `p`, with the depth so far; `visit` explores a callee.
unfoldable pub visit_calls :
    (Program → Depths → Option (ℕ × Depths))
    → List Program
    → Program
    → List Node
    → ℕ
    → Depths
    → Option (ℕ × Depths)
visit_calls visit ps p [] best black = some (best, black)
visit_calls visit ps p (n ∷ ns) best black =
    if not (is_call n) then visit_calls visit ps p ns best black else do
      callee ← program ps n.program_id
      (d, black') ← (if not (callee.kind == p.kind) then none else visit callee black)
      visit_calls visit ps p ns (larger best (d + 1)) black'

-- The depth of a black program, and what exploring a white one gives.
abbrev pub known_or : Option ℕ → Depths → Option (ℕ × Depths) → Option (ℕ × Depths)
known_or (some d) black explored = some (d, black)
known_or none black explored = explored

abbrev pub blacken : Program → ℕ × Depths → Option (ℕ × Depths)
blacken p (best, black) =
    if ltb max_call_depth best then none else some (best, (p.id, best) ∷ black)

-- `visit`. The fuel bounds the programs on a path: they are all different.
unfoldable pub visit : ℕ → List Program → List ℕ → Program → Depths → Option (ℕ × Depths)
visit zero ps grey p black = none
visit (suc f) ps grey p black =
    let explored = visit_calls (visit f ps (p.id ∷ grey)) ps p p.nodes 1 black in
    if member p.id grey then none else known_or (depth_of black p.id) black (explored >>= blacken p)

unfoldable pub visit_all : ℕ → List Program → List Program → Depths → Option Depths
visit_all f ps [] black = some black
visit_all f ps (p ∷ rest) black =
    visit f ps [] p black >>= λ (d, black'). visit_all f ps rest black'

unfoldable pub check_call_graph : List Program → Option Depths
check_call_graph ps = visit_all (length ps + 1) ps ps []
