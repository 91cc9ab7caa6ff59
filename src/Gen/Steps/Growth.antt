-- ===== src/Gen/Steps/Growth.antt =====
-- The room that the statements of a canonicalizer take.
use entid_go.Prelude.{
  ℕ, zero, suc, ◌-◌, ◌≤◌, ◌≡◌, sym, Bool, List, Option, none, some, arith, get_or, Bytes, some-eq,
}
use entid_go.Gen.Opcodes.{
  Opcode, op_canon_sequence, op_canon_when, op_trim_whitespace, op_remove_whitespace,
  op_uppercase_ascii, op_remove_chars, op_replace_prefix, op_prepend, op_append, op_insert,
  op_left_pad, op_prepend_country_if_missing,
}
use entid_go.Gen.Model.{Node, DispatchTarget, no_node, or_zero, or_empty}
use entid_go.Runtime.Buffer.{Buf}
use entid_go.Runtime.Buffer.Holds.{Holds}
use entid_go.Gen.Steps.{
  Statement, run, emit_step, emit_steps, emit_prepend_country, growth_step, growth, lead_of,
}
use entid_go.Gen.Steps.Fits.{
  Leaves, Fits, each-Fits, when_inputs-Fits, prepend-Fits, append-Fits, replace_prefix-Fits,
  insert-Fits, left_pad-Fits, trim-Fits, remove_whitespace-Fits, remove_chars-Fits, uppercase-Fits,
  lead-Fits,
}

-- One case of the switch, where the steps of the other nodes fit.
step-Fits :
    (truth : ℕ → Buf → Bool) (op : Opcode) (n : Node) (target : Option DispatchTarget)
    (emit : ℕ → Option Statement) (grow : ℕ → ℕ × ℕ)
    → ((i : ℕ) (st : Statement) → emit i ≡ some st → Fits truth st (grow i))
    → (st : Statement) → emit_step op n target emit ≡ some st
    → Fits truth st (growth_step op n target grow)
unfolding emit_prepend_country
step-Fits truth op_canon_sequence n target emit grow each st e =
    each-Fits truth emit grow each n.input_nodes st e
step-Fits truth op_canon_when n target emit grow each st e =
    when_inputs-Fits truth emit grow each n.input_nodes st e
step-Fits truth op_trim_whitespace n target emit grow each st e =
    rw (sym (some-eq _ _ e)) (trim-Fits truth)
step-Fits truth op_remove_whitespace n target emit grow each st e =
    rw (sym (some-eq _ _ e)) (remove_whitespace-Fits truth)
step-Fits truth op_uppercase_ascii n target emit grow each st e =
    rw (sym (some-eq _ _ e)) (uppercase-Fits truth)
step-Fits truth op_remove_chars n target emit grow each st e =
    rw (sym (some-eq _ _ e)) (remove_chars-Fits truth (or_empty n.text))
step-Fits truth op_replace_prefix n target emit grow each st e =
    rw (sym (some-eq _ _ e)) (replace_prefix-Fits truth (or_empty n.text) (or_empty n.replacement))
step-Fits truth op_prepend n target emit grow each st e =
    rw (sym (some-eq _ _ e)) (prepend-Fits truth (or_empty n.text))
step-Fits truth op_append n target emit grow each st e =
    rw (sym (some-eq _ _ e)) (append-Fits truth (or_empty n.text))
step-Fits truth op_insert n target emit grow each st e =
    rw (sym (some-eq _ _ e)) (insert-Fits truth (or_zero n.index) (or_empty n.text))
step-Fits truth op_left_pad n target emit grow each st e =
    rw (sym (some-eq _ _ e)) (left_pad-Fits truth (or_zero n.len) (or_empty n.text))
step-Fits truth op_prepend_country_if_missing n none emit grow each st e = absurd (ground arith)
step-Fits truth op_prepend_country_if_missing n (some t) emit grow each st e =
    rw (sym (some-eq _ _ e)) (lead-Fits truth (lead_of t) t.accepted_prefixes)
step-Fits truth op n target emit grow each st e = absurd (ground arith)

-- The statements of a node fit its growth.
emit_steps-Fits :
    (truth : ℕ → Buf → Bool) (f : ℕ) (nodes : List Node) (target : Option DispatchTarget) (i : ℕ)
    (st : Statement)
    → emit_steps f nodes target i ≡ some st
    → Fits truth st (growth f nodes target i)
unfolding emit_steps growth
emit_steps-Fits truth zero nodes target i st e = absurd (ground arith)
emit_steps-Fits truth (suc f) nodes target i st e =
    let n = get_or nodes i no_node in
    step-Fits truth n.op n target (λ j. emit_steps f nodes target j) (λ j. growth f nodes target j)
      (λ j s h. emit_steps-Fits truth f nodes target j s h) st e

-- In a workspace with room for the growth of a node on either side, the statements that the node compiles
-- to succeed, whatever the conditions answer, and leave the rest of the room.
pub run-growth :
    (truth : ℕ → Buf → Bool) (f : ℕ) (nodes : List Node) (target : Option DispatchTarget) (i : ℕ)
    (st : Statement) (w : Buf) (s : Bytes) (l r : ℕ)
    → emit_steps f nodes target i ≡ some st
    → Holds w s l r
    → (growth f nodes target i).0 ≤ l
    → (growth f nodes target i).1 ≤ r
    → Leaves (run truth st w) (l - (growth f nodes target i).0) (r - (growth f nodes target i).1)
run-growth truth f nodes target i st w s l r e h hl hr =
    emit_steps-Fits truth f nodes target i st e w s l r h hl hr
