-- ===== src/Gen/Steps/Fits.antt =====
-- The room that each statement takes.
use entid_go.Prelude.{
  ℕ, ◌+◌, ◌-◌, ◌*◌, ◌≤◌, ◌≡◌, refl, sym, ap, ◌∙◌, Bool, true, List, [], ◌∷◌, Option, some, arith,
  length, drop, Bytes, Bool-cases, inl, inr, bind-inv, some-eq, has_prefix→eq,
  has_prefix as string_has_prefix, not, ◌++◌,
}
use native.Mathlib.Nat.{mul-le-mul_right}
use mathlib.Core.Path.{subst}
use native.Mathlib.Decide.{dec_le}
use entid_go.Runtime.Buffer.{
  Buf, str, replace_prefix, is_whitespace_v1, outside_set, remove_whitespace, remove_chars,
}
use entid_go.Utf8.{rune_count}
use entid_go.Runtime.Buffer.Holds.{Holds, str-Holds}
use entid_go.Runtime.Buffer.Edges.{Yields, prepend_lem}
use entid_go.Runtime.Buffer.Replace.{append_lem, replace_prefix_lem}
use entid_go.Runtime.Buffer.Insert.{insert_lem, insert_past}
use entid_go.Runtime.Buffer.Pad.{left_pad_lem}
use entid_go.Runtime.Buffer.Filter.{filter_lem}
use entid_go.Runtime.Buffer.Upper.{uppercase_ascii_lem}
use entid_go.Runtime.Buffer.Trim.{trim_whitespace_lem}
use entid_go.Gen.Steps.{
  Statement, w_both, w_when, w_trim_whitespace, w_remove_whitespace, w_uppercase_ascii,
  w_remove_chars, w_replace_prefix, w_prepend, w_append, w_insert, w_left_pad, run, emit_lead,
  emit_each, emit_when, growth_each, has_any_prefix,
}

-- A step succeeded, and left this much room at least.
abbrev pub Leaves : Option Buf → ℕ → ℕ → Type 0
Leaves o l r =
    (w : Buf) × (s : Bytes) × (l' : ℕ) × (r' : ℕ) × (o ≡ some w)
    × Holds w s l' r'
    × (l ≤ l')
    × (r ≤ r')

-- A statement that adds this many bytes at most on either side, in a workspace with room for them.
abbrev pub Fits : (ℕ → Buf → Bool) → Statement → ℕ × ℕ → Type 0
Fits truth st g =
    (w : Buf) (s : Bytes) (l r : ℕ)
    → Holds w s l r
    → g.0 ≤ l
    → g.1 ≤ r
    → Leaves (run truth st w) (l - g.0) (r - g.1)

leaves : {o : Option Buf} {s : Bytes} {l r a b : ℕ} → Yields o s l r → a ≤ l → b ≤ r → Leaves o a b
leaves {l = l} {r} (w, e, h) ha hb = (w, _, l, r, e, h, ha, hb)

stays : (w : Buf) (s : Bytes) (l r a b : ℕ) → Holds w s l r → Leaves (some w) (l - a) (r - b)
stays w s l r a b h = (w, s, l, r, refl, h, omega arith, omega arith)

both-Fits :
    (truth : ℕ → Buf → Bool) (a b : Statement) (g h : ℕ × ℕ)
    → Fits truth a g
    → Fits truth b h
    → Fits truth (w_both a b) (g.0 + h.0, g.1 + h.1)
unfolding run
both-Fits truth a b g h fa fb w s l r hw hl hr =
    let (w₁, s₁, l₁, r₁, e₁, h₁, hl₁, hr₁) = fa w s l r hw (omega arith) (omega arith) in
    let (w₂, s₂, l₂, r₂, e₂, h₂, hl₂, hr₂) = fb w₁ s₁ l₁ r₁ h₁ (omega arith) (omega arith) in
    (w₂, s₂, l₂, r₂, rw e₁ e₂, h₂, omega arith, omega arith)

when-Fits :
    (truth : ℕ → Buf → Bool) (i : ℕ) (body : Statement) (g : ℕ × ℕ)
    → Fits truth body g
    → Fits truth (w_when i body) g
unfolding run
when-Fits truth i body g fits w s l r h hl hr = elim (Bool-cases (truth i w)) [
  | inl taken ↦ rw taken (fits w s l r h hl hr)
  | inr skipped ↦ rw skipped (stays w s l r g.0 g.1 h)
]

pub each-Fits :
    (truth : ℕ → Buf → Bool) (emit : ℕ → Option Statement) (grow : ℕ → ℕ × ℕ)
    → ((i : ℕ) (st : Statement) → emit i ≡ some st → Fits truth st (grow i))
    → (is : List ℕ) (st : Statement) → emit_each emit is ≡ some st
    → Fits truth st (growth_each grow is)
unfolding run
each-Fits truth emit grow each [] st e =
    rw (sym (some-eq _ _ e)) (λ w s l r h hl hr. stays w s l r 0 0 h)
each-Fits truth emit grow each (i ∷ is) st e =
    let (a, ea, rest) = bind-inv (emit i) _ st e in
    let (b, eb, last) = bind-inv (emit_each emit is) _ st rest in
    rw (sym (some-eq _ _ last)) (
      both-Fits truth a b (grow i) (growth_each grow is) (each i a ea)
        (each-Fits truth emit grow each is b eb))

pub when_inputs-Fits :
    (truth : ℕ → Buf → Bool) (emit : ℕ → Option Statement) (grow : ℕ → ℕ × ℕ)
    → ((i : ℕ) (st : Statement) → emit i ≡ some st → Fits truth st (grow i))
    → (is : List ℕ) (st : Statement) → emit_when emit is ≡ some st
    → Fits truth st (growth_each grow (drop 1 is))
when_inputs-Fits truth emit grow each [] st e = absurd (ground arith)
when_inputs-Fits truth emit grow each (i ∷ is) st e =
    let (body, eb, last) = bind-inv (emit_each emit is) _ st e in
    rw (sym (some-eq _ _ last))
      (when-Fits truth i body (growth_each grow is) (each-Fits truth emit grow each is body eb))

pub prepend-Fits :
    (truth : ℕ → Buf → Bool) (text : Bytes) → Fits truth (w_prepend text) (length text, 0)
unfolding run
prepend-Fits truth text w s l r h hl hr =
    leaves (prepend_lem w s text l r h (omega arith)) (omega arith) (omega arith)

pub append-Fits :
    (truth : ℕ → Buf → Bool) (text : Bytes) → Fits truth (w_append text) (0, length text)
unfolding run
append-Fits truth text w s l r h hl hr =
    leaves (append_lem w s text l r h hr) (omega arith) (omega arith)

pub replace_prefix-Fits :
    (truth : ℕ → Buf → Bool) (from to : Bytes)
    → Fits truth (w_replace_prefix from to) (length to - length from, 0)
unfolding run
replace_prefix-Fits truth from to w s l r h hl hr =
    elim (Bool-cases (string_has_prefix (str w) from)) [
      | inl found ↦
          let here : string_has_prefix s from ≡ true =
            ap (λ t. string_has_prefix t from) (sym (str-Holds h)) ∙ found in
          let rest = drop (length from) s in
          let split : Holds w (from ++ rest) l r =
            subst (λ t. Holds w t l r) (has_prefix→eq s from here) h in
          leaves (replace_prefix_lem w from to rest l r split (omega arith)) (omega arith)
            (omega arith)
      | inr other ↦ (w, s, l, r, unfold replace_prefix in rw other, h, omega arith, omega arith)
    ]

pub insert-Fits :
    (truth : ℕ → Buf → Bool) (n : ℕ) (text : Bytes) → Fits truth (w_insert n text) (0, length text)
unfolding run
insert-Fits truth n text w s l r h hl hr = elim (dec_le n (rune_count s)) [
  | yes inside ↦ leaves (insert_lem w s text n l r h hr inside) (omega arith) (omega arith)
  | no past ↦ (w, s, l, r, insert_past w s text n l r h (omega arith), h, omega arith, omega arith)
]

pub left_pad-Fits :
    (truth : ℕ → Buf → Bool) (n : ℕ) (text : Bytes)
    → Fits truth (w_left_pad n text) (n * length text, 0)
unfolding run
left_pad-Fits truth n text w s l r h hl hr =
    let added : (n - rune_count s) * length text ≤ n * length text =
      mul-le-mul_right (length text) (omega arith) in
    leaves (left_pad_lem w s text n l r h (omega (arith, added))) (omega (arith, added))
      (omega (arith, added))

pub trim-Fits : (truth : ℕ → Buf → Bool) → Fits truth w_trim_whitespace (0, 0)
unfolding run
trim-Fits truth w s l r h hl hr =
    let (w', l', r', e, h', more, more') = trim_whitespace_lem w s l r h in
    (w', _, l', r', e, h', omega arith, omega arith)

pub remove_whitespace-Fits : (truth : ℕ → Buf → Bool) → Fits truth w_remove_whitespace (0, 0)
unfolding run remove_whitespace
remove_whitespace-Fits truth w s l r h hl hr =
    leaves (filter_lem (λ c. not (is_whitespace_v1 c)) w s l r h) (omega arith) (omega arith)

pub remove_chars-Fits :
    (truth : ℕ → Buf → Bool) (set : Bytes) → Fits truth (w_remove_chars set) (0, 0)
unfolding run remove_chars
remove_chars-Fits truth set w s l r h hl hr =
    leaves (filter_lem (outside_set set) w s l r h) (omega arith) (omega arith)

pub uppercase-Fits : (truth : ℕ → Buf → Bool) → Fits truth w_uppercase_ascii (0, 0)
unfolding run
uppercase-Fits truth w s l r h hl hr =
    leaves (uppercase_ascii_lem w s l r h) (omega arith) (omega arith)

pub lead-Fits :
    (truth : ℕ → Buf → Bool) (lead : Bytes) (prefixes : List Bytes)
    → Fits truth (emit_lead lead prefixes) (length lead, 0)
unfolding run
lead-Fits truth [] prefixes w s l r h hl hr = stays w s l r 0 0 h
lead-Fits truth (b ∷ lead) [] w s l r h hl hr = prepend-Fits truth (b ∷ lead) w s l r h hl hr
lead-Fits truth (b ∷ lead) (p ∷ prefixes) w s l r h hl hr =
    elim (Bool-cases (has_any_prefix w (p ∷ prefixes))) [
      | inl found ↦ rw found (stays w s l r (length (b ∷ lead)) 0 h)
      | inr missing ↦ rw missing (prepend-Fits truth (b ∷ lead) w s l r h hl hr)
    ]
