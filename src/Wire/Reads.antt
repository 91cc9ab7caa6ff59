-- ===== src/Wire/Reads.antt =====
-- internal/gen/protowire.go: the reads of a field's value, in the strict and in the lenient pass.
use entid_go.Prelude.{
  slice, false, ◌>>=◌, bind-inv, bind_on, unless, unless-false, some-eq, ◌+◌, ◌-◌, ◌^◌, ◌||◌, Bool,
  true, ◌≡◌, ap, Option, none, some, arith, ltb, ◌==◌, not, if◌then◌else◌, length, drop, pair-snd,
}
use mathlib.Core.Path.{subst}
use entid_go.Utf8.{valid_string}
use entid_go.Wire.{
  from_u64, Reader, done, varint_loop, varint, bytes, text, u32, i64, enum, boolean, message,
  max_decode_depth,
}
use entid_go.Wire.Bounds.{Advances, varint-Advances, bytes-Advances, message-Advances}

abbrev pub in_lenient : Reader → Reader
in_lenient r = record r { lenient = true }

abbrev pub relax {ℓ} : {A : Type ℓ} → A × Reader → A × Reader
relax (a, r) = (a, in_lenient r)

-- What a strict pass reads, a lenient one reads as well.
pub record Agrees {ℓ} {A : Type ℓ} (read : Reader → Option (A × Reader)) : Type ℓ where
  pub agree :
      (r r' : Reader) (a : A)
      → read r ≡ some (a, r')
      → read (in_lenient r) ≡ some (a, in_lenient r')

-- A read that moves on, and agrees.
pub record Lawful {ℓ} {A : Type ℓ} (read : Reader → Option (A × Reader)) : Type ℓ where
  pub advance : (r r' : Reader) (a : A) → read r ≡ some (a, r') → Advances r r'
  pub agrees : Agrees read

-- A result that was given, given again.
pub relaxed {ℓ} :
    {A : Type ℓ} (p q : A × Reader) → some p ≡ some q → some (relax p) ≡ some (relax q)
relaxed p q h = ap (λ x. some (relax x)) (some-eq p q h)

pub guarded {ℓ} :
    {A : Type ℓ} (c : Bool) (p q : A × Reader)
    → (if c then none else some p) ≡ some q
    → (if c then none else some (relax p)) ≡ some (relax q)
guarded true p q h = absurd (ground arith)
guarded false p q h = relaxed p q h

varint-Agrees : Agrees varint
unfolding varint
varint-Agrees = record {
  agree = λ r r' v h.
      let ((w, n), read, same) = bind-inv (varint_loop (drop r.at r.buf) 0 0 0) _ (v, r') h in
      bind_on _ _ (w, n) _ read (relaxed (w, record r { at = r.at + n }) (v, r') same);
}

pub varint-Lawful : Lawful varint
varint-Lawful = record { advance = varint-Advances; agrees = varint-Agrees }

-- A read that goes on from another without a further move.
pub then-Lawful {ℓ κ} :
    {A : Type ℓ} {B : Type κ} (read : Reader → Option (A × Reader)) (refuse : A → Bool) (f : A → B)
    → Lawful read
    → Lawful (λ r. read r >>= λ (a, r'). if refuse a then none else some (f a, r'))
then-Lawful read refuse f lawful = record {
  advance = λ r r' b h.
      let ((a, r₁), given, rest) = bind-inv (read r) _ (b, r') h in
      subst (Advances r) (pair-snd (f a, r₁) (b, r') (unless _ _ (b, r') rest))
        (lawful.advance r r₁ a given);
  agrees = record {
    agree = λ r r' b h.
        let ((a, r₁), given, rest) = bind-inv (read r) _ (b, r') h in
        bind_on _ _ (a, in_lenient r₁) _ (lawful.agrees.agree r r₁ a given)
          (guarded (refuse a) (f a, r₁) (b, r') rest);
  };
}

pub u32-Lawful : Lawful u32
unfolding u32
u32-Lawful = then-Lawful varint (λ v. ltb (2 ^ 32 - 1) v) (λ v. v) varint-Lawful

pub i64-Lawful : Lawful i64
unfolding i64
i64-Lawful = then-Lawful varint (λ v. false) from_u64 varint-Lawful

pub enum-Lawful : Lawful enum
unfolding enum
enum-Lawful = then-Lawful varint (λ v. ltb (2 ^ 31 - 1) v) (λ v. v) varint-Lawful

pub boolean-Lawful : Lawful boolean
unfolding boolean
boolean-Lawful = then-Lawful varint (λ v. ltb 1 v) (λ v. v == 1) varint-Lawful

bytes-Agrees : Agrees bytes
unfolding bytes
bytes-Agrees = record {
  agree = λ r r' b h.
      let ((n, r₁), read, rest) = bind-inv (varint r) _ (b, r') h in
      bind_on _ _ (n, in_lenient r₁) _ (varint-Agrees.agree r r₁ n read)
        (guarded (ltb (length r₁.buf) r₁.at || ltb (length r₁.buf - r₁.at) n)
          (slice r₁.buf r₁.at (r₁.at + n), record r₁ { at = r₁.at + n }) (b, r') rest);
}

pub bytes-Lawful : Lawful bytes
bytes-Lawful = record { advance = λ r r' b h. (bytes-Advances r r' b h).0; agrees = bytes-Agrees }

pub text-Lawful : Lawful text
unfolding text
text-Lawful = then-Lawful bytes (λ b. not (valid_string b)) (λ b. b) bytes-Lawful

-- A nested message needs no more of its decoder than that it agrees.
pub message-Lawful {ℓ} :
    {A : Type ℓ} (decode : Reader → Option (A × Reader)) → Agrees decode → Lawful (message decode)
unfolding message
message-Lawful decode agrees = record {
  advance = message-Advances decode;
  agrees = record {
    agree = λ r r' a h.
        let ((body, r₁), read, rest) = bind-inv (bytes r) _ (a, r') h in
        let deep = ltb max_decode_depth (r₁.depth + 1) in
        let body_reader : Reader = record {
          buf = body;
          at = 0;
          depth = r₁.depth + 1;
          lenient = r₁.lenient;
        } in
        let ((a₁, sub), decoded, end) =
          bind-inv (decode body_reader) _ (a, r') (unless deep _ (a, r') rest) in
        bind_on _ _ (body, in_lenient r₁) _ (bytes-Agrees.agree r r₁ body read)
          (rw (unless-false deep _ (a, r') rest) (
            bind_on _ _ (a₁, in_lenient sub) _ (agrees.agree body_reader sub a₁ decoded)
              (guarded (not (done sub)) (a₁, r₁) (a, r') end)));
  };
}
