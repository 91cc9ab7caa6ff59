-- ===== src/Gen/Decode.antt =====
-- internal/gen/decode.go: the loop that every message decoder runs over its fields, and the guards that
-- stand before the reads. The state is the message under construction with the fields marked so far.
pub mod Operations
pub mod Messages
pub mod Programs
pub mod Bundles
pub mod Laws
pub mod Ends
pub mod Cases
pub mod Fuel
pub mod Runs
pub mod Encoding
pub mod Keeps
pub mod Capped
use entid_go.Prelude.{
  ℕ, zero, suc, ◌-◌, ◌<◌, ltb, leb, ◌==◌, Bool, not, List, [], ◌∷◌, ◌++◌, Option, none, some, ◌>>=◌,
  if◌then◌else◌, length,
}
use entid_go.Wire.{
  Reader, WireType, wire_varint, wire_i64, wire_bytes, wire_i32, done, next, unknown, packed, mark,
}

-- One case of a decoder's switch: the field's number and wire type, the state, the reader behind the tag.
abbrev pub Field {ℓ} : Type ℓ → Type ℓ
Field M = ℕ → WireType → M × List ℕ → Reader → Option ((M × List ℕ) × Reader)

abbrev wire_number : WireType → ℕ
wire_number wire_varint = 0
wire_number wire_i64 = 1
wire_number wire_bytes = 2
wire_number wire_i32 = 5

-- `wire != want`, refused as `wrongWire`.
unfoldable pub on_wire {ℓ} : {M : Type ℓ} → WireType → Field M → Field M
on_wire want field num wire s r =
    if not (wire_number wire == wire_number want) then none else field num wire s r

-- `s.mark(msg, field)`, in front of what reads the field.
unfoldable pub marked {ℓ} : {M : Type ℓ} → Field M → Field M
marked field num wire (m, seen) r = mark seen num >>= λ seen'. field num wire (m, seen') r

-- A read that goes on from the message so far.
unfoldable pub update {ℓ} : {M : Type ℓ} → (M → Reader → Option (M × Reader)) → Field M
update read num wire (m, seen) r = read m r >>= λ (m', r'). some ((m', seen), r')

-- A read whose value is stored, or refused behind the read.
unfoldable pub store {ℓ κ} :
    {M : Type ℓ} {A : Type κ} → (Reader → Option (A × Reader)) → (M → A → Option M) → Field M
unfolding update
store read set = update (λ m r. read r >>= λ (v, r'). set m v >>= λ m'. some (m', r'))

-- A packed field goes on from the list that earlier occurrences left.
unfoldable pub packed_field {ℓ κ} :
    {M : Type ℓ} {A : Type κ}
    → (Reader → Option (A × Reader))
    → (M → List A)
    → (M → List A → Option M)
    → Field M
unfolding update
packed_field read get set num wire =
    update (λ m r. packed read (get m) wire r >>= λ (vs, r'). set m vs >>= λ m'. some (m', r')) num
      wire

unfoldable pub unknown_field {ℓ} : {M : Type ℓ} → Field M
unknown_field num wire s r = unknown wire r >>= λ r'. some (s, r')

-- The three shapes that most cases have: a wire type, a mark, a read and a store; the same with no
-- mark, for what may come again; and a check of the length behind the store.
abbrev pub singular {ℓ κ} :
    {M : Type ℓ} {A : Type κ} → WireType → (Reader → Option (A × Reader)) → (M → A → M) → Field M
singular want read set = on_wire want (marked (store read (λ m v. some (set m v))))

abbrev pub repeated {ℓ κ} :
    {M : Type ℓ} {A : Type κ} → WireType → (Reader → Option (A × Reader)) → (M → A → M) → Field M
repeated want read add = on_wire want (store read (λ m v. some (add m v)))

abbrev pub capped {ℓ κ} : {M : Type ℓ} {A : Type κ} → ℕ → (M → List A → M) → M → List A → Option M
capped limit set m vs = if ltb limit (length vs) then none else some (set m vs)

-- `switch field`: the case of the number, or by default an unknown field.
unfoldable pub switch {ℓ} : {M : Type ℓ} → List (ℕ × Field M) → Field M
unfolding unknown_field
switch [] num wire s r = unknown_field num wire s r
switch ((n, field) ∷ cases) num wire s r =
    if num == n then field num wire s r else switch cases num wire s r

-- `for !r.done()`, on fuel: a field takes one byte or more, so that no body needs more rounds than it has
-- bytes, and one to see the end.
unfoldable pub fields {ℓ} :
    {M : Type ℓ} → Field M → ℕ → M × List ℕ → Reader → Option ((M × List ℕ) × Reader)
fields field zero s r = none
fields field (suc f) s r =
    if done r
    then some (s, r)
    else next r >>= λ ((num, wire), r'). field num wire s r' >>= λ (s', r''). fields field f s' r''

unfoldable pub decode {ℓ} : {M : Type ℓ} → Field M → M → Reader → Option (M × Reader)
unfolding fields
decode field m r =
    fields field (suc (length r.buf - r.at)) (m, []) r >>= λ ((m', seen), r'). some (m', r')
