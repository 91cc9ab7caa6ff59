-- ===== src/Gen/Loader/Safe.antt =====
-- internal/gen/load.go and emit_programs.go: the canonicalizers of a bundle that `Load` gave.
use mathlib.Core.List.{Memᴰ}
use entid_go.Prelude.{ℕ, ◌-◌, ◌+◌, ◌≤◌, ◌≡◌, Bool, some, length, Bytes}
use entid_go.Gen.Limits.{max_input_bytes}
use entid_go.Gen.Model.{Bundle, DispatchTarget, Program, program_canonicalization}
use entid_go.Gen.Loader.{load, loaded}
use entid_go.Gen.Loader.Passes.{load_lem}
use entid_go.Gen.Steps.{Statement, run, emit_steps, ScratchSizing, size, size_scratch, considered}
use entid_go.Gen.Steps.Fits.{Leaves}
use entid_go.Gen.Steps.Sizing.{Settled, growth_of}
use entid_go.Gen.Steps.Accepted.{accepted-canonicalizer}
use entid_go.Runtime.Buffer.{Buf, new}

-- From the bytes of a bundle to the run of a canonicalizer: where `Load` gives the bundle, its workspace is
-- sized, and no program of it is reached through two targets for which it grows differently, the statements
-- for a canonicalization program and a target that the sizing considers are written, and they succeed on
-- every input of at most 1024 bytes in a scratch of the sized length and left margin, whatever the
-- conditions answer.
pub load-canonicalizer :
    (truth : ℕ → Buf → Bool) (raw : Bytes) (b : Bundle) (fin : ScratchSizing) (p : Program)
    (t : DispatchTarget) (s scratch : Bytes)
    → load raw ≡ loaded b
    → size_scratch b ≡ some fin
    → Settled (considered b)
    → Memᴰ p b.programs
    → p.kind ≡ program_canonicalization
    → Memᴰ (some p, some t) (considered b)
    → length s ≤ max_input_bytes
    → length scratch ≡ size fin
    → (st : Statement) × (emit_steps (length p.nodes) p.nodes (some t) p.root_node ≡ some st)
      × Leaves
          (run truth st (new s scratch fin.left))
          (fin.left - (growth_of (some p, some t)).0)
          (max_input_bytes + fin.right - length s - (growth_of (some p, some t)).1)
load-canonicalizer truth raw b fin p t s scratch h =
    let a = (load_lem raw b).0 h in
    accepted-canonicalizer truth b a.declared a.depths fin p t s scratch a.checked
