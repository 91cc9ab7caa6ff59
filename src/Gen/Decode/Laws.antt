-- ===== src/Gen/Decode/Laws.antt =====
-- internal/gen/decode.go: what every case of a decoder keeps, in the strict and in the lenient pass.
use entid_go.Prelude.{
  ◌>>=◌, bind-inv, bind_on, ℕ, Bool, true, false, List, [], ◌∷◌, Option, none, some, arith,
  if◌then◌else◌, pair-snd, ◌==◌,
}
use mathlib.Core.Path.{subst}
use entid_go.Wire.{Reader, WireType, unknown, mark}
use entid_go.Wire.Bounds.{Advances}
use entid_go.Wire.Reads.{in_lenient, relaxed, Lawful}
use entid_go.Wire.Skips.{packed-Lawful, unknown-Advances, unknown-agrees}
use entid_go.Gen.Decode.{Field, on_wire, marked, update, store, packed_field, unknown_field, switch}

-- A field read at any number, wire type and state moves on, and reads the same in a lenient pass.
pub record LawfulField {ℓ} {M : Type ℓ} (field : Field M) : Type ℓ where
  pub lawful : (num : ℕ) (wire : WireType) (s : M × List ℕ) → Lawful (field num wire s)

-- A read that goes on with what it read.
pub and_then-Lawful {ℓ κ} :
    {A : Type ℓ} {B : Type κ} (read : Reader → Option (A × Reader)) (f : A → Option B)
    → Lawful read
    → Lawful (λ r. read r >>= λ (a, r'). f a >>= λ b. some (b, r'))
and_then-Lawful read f lawful = record {
  advance = λ r r' b h.
      let ((a, r₁), given, rest) = bind-inv (read r) _ (b, r') h in
      let (c, made, same) = bind-inv (f a) _ (b, r') rest in
      subst (Advances r) (pair-snd (c, r₁) (b, r') same) (lawful.advance r r₁ a given);
  agrees = record {
    agree = λ r r' b h.
        let ((a, r₁), given, rest) = bind-inv (read r) _ (b, r') h in
        let (c, made, same) = bind-inv (f a) _ (b, r') rest in
        bind_on _ _ (a, in_lenient r₁) _ (lawful.agrees.agree r r₁ a given)
          (bind_on _ _ c _ made (relaxed (c, r₁) (b, r') same));
  };
}

pub map-Lawful {ℓ κ} :
    {A : Type ℓ} {B : Type κ} (read : Reader → Option (A × Reader)) (f : A → B)
    → Lawful read
    → Lawful (λ r. read r >>= λ (a, r'). some (f a, r'))
map-Lawful read f lawful = and_then-Lawful read (λ a. some (f a)) lawful

abbrev refused {ℓ} : {A : Type ℓ} → Reader → Option (A × Reader)
refused r = none

refused-Lawful {ℓ} : {A : Type ℓ} → Lawful (refused {A = A})
refused-Lawful = record {
  advance = λ r r' a h. absurd (ground arith);
  agrees = record { agree = λ r r' a h. absurd (ground arith) };
}

-- A guard in front of a read.
pub unless-Lawful {ℓ} :
    {A : Type ℓ} (c : Bool) (read : Reader → Option (A × Reader))
    → Lawful read
    → Lawful (λ r. if c then none else read r)
unless-Lawful true read lawful = refused-Lawful
unless-Lawful false read lawful = lawful

branch-Lawful {ℓ} :
    {A : Type ℓ} (c : Bool) (x y : Reader → Option (A × Reader))
    → Lawful x
    → Lawful y
    → Lawful (λ r. if c then x r else y r)
branch-Lawful true x y p q = p
branch-Lawful false x y p q = q

pub on_wire-LawfulField {ℓ} :
    {M : Type ℓ} (want : WireType) (field : Field M)
    → LawfulField field
    → LawfulField (on_wire want field)
unfolding on_wire
on_wire-LawfulField want field law = record {
  lawful = λ num wire s. unless-Lawful _ (field num wire s) (law.lawful num wire s);
}

pub marked-LawfulField {ℓ} :
    {M : Type ℓ} (field : Field M) → LawfulField field → LawfulField (marked field)
unfolding marked
marked-LawfulField {M = M} field law = record {
  lawful = λ num wire (m, seen). behind num wire m (mark seen num);
}
  where
    behind :
        (num : ℕ) (wire : WireType) (m : M) (o : Option (List ℕ))
        → Lawful (λ r. o >>= λ seen. field num wire (m, seen) r)
    behind num wire m none = refused-Lawful
    behind num wire m (some seen) = law.lawful num wire (m, seen)

pub update-LawfulField {ℓ} :
    {M : Type ℓ} (read : M → Reader → Option (M × Reader))
    → ((m : M) → Lawful (read m))
    → LawfulField (update read)
unfolding update
update-LawfulField read law = record {
  lawful = λ num wire (m, seen). map-Lawful (read m) (λ m'. (m', seen)) (law m);
}

pub store-LawfulField {ℓ κ} :
    {M : Type ℓ} {A : Type κ} (read : Reader → Option (A × Reader)) (set : M → A → Option M)
    → Lawful read
    → LawfulField (store read set)
unfolding store
store-LawfulField read set law = update-LawfulField _ λ m. and_then-Lawful read (set m) law

pub packed_field-LawfulField {ℓ κ} :
    {M : Type ℓ} {A : Type κ} (read : Reader → Option (A × Reader)) (get : M → List A)
    (set : M → List A → Option M)
    → Lawful read
    → LawfulField (packed_field read get set)
unfolding packed_field
packed_field-LawfulField read get set law = record {
  lawful = λ num wire s.
      let packed_law =
        update-LawfulField _ λ m. and_then-Lawful _ (set m) (packed-Lawful read (get m) wire law) in
      packed_law.lawful num wire s;
}

pub unknown-LawfulField {ℓ} : {M : Type ℓ} → LawfulField (unknown_field {M = M})
unfolding unknown_field
unknown-LawfulField = record {
  lawful = λ num wire s. record {
    advance = λ r r' t h.
        let (r₁, skipped, same) = bind-inv (unknown wire r) _ (t, r') h in
        subst (Advances r) (pair-snd (s, r₁) (t, r') same) (unknown-Advances wire r r₁ skipped);
    agrees = record {
      agree = λ r r' t h.
          let (r₁, skipped, same) = bind-inv (unknown wire r) _ (t, r') h in
          bind_on _ _ (in_lenient r₁) _ (unknown-agrees wire r r₁ skipped)
            (relaxed (s, r₁) (t, r') same);
    };
  };
}

pub data LawfulCases {ℓ} {M : Type ℓ} : List (ℕ × Field M) → Type ℓ where
  default : LawfulCases []
  case :
      {n : ℕ} {field : Field M} {cases : List (ℕ × Field M)}
      → LawfulField field
      → LawfulCases cases
      → LawfulCases ((n, field) ∷ cases)

pub switch-LawfulField {ℓ} :
    {M : Type ℓ} {cases : List (ℕ × Field M)} → LawfulCases cases → LawfulField (switch cases)
unfolding switch
switch-LawfulField default = unknown-LawfulField
switch-LawfulField (case {n = n} {field = field} {cases = cases} law laws) = record {
  lawful = λ num wire s.
      branch-Lawful (num == n) (field num wire s) (switch cases num wire s) (law.lawful num wire s)
        ((switch-LawfulField laws).lawful num wire s);
}
