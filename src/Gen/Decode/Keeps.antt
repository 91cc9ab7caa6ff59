-- ===== src/Gen/Decode/Keeps.antt =====
-- internal/gen/decode.go: what holds of a message under construction, and holds of it behind every field.
use entid_go.Prelude.{
  ◌>>=◌, bind-inv, unless, ℕ, zero, suc, ◌-◌, ◌≡◌, ap, List, [], ◌∷◌, Option, some, arith, ◌==◌,
  length, some-eq, Bool-cases, inl, inr, then_taken, else_taken,
}
use mathlib.Core.Path.{subst}
use entid_go.Wire.{Reader, WireType, unknown, mark, bytes, message, next, done, packed}
use entid_go.Gen.Decode.{
  Field, on_wire, marked, update, store, packed_field, unknown_field, switch, fields, decode,
}

-- A field that keeps `P`, whatever was marked.
pub record Keeps {ℓ κ} {M : Type ℓ} (P : M → Type κ) (field : Field M) : Type (ℓ ⊔ κ) where
  pub keeps :
      (num : ℕ) (wire : WireType) (s t : M × List ℕ) (r r' : Reader)
      → P s.0
      → field num wire s r ≡ some (t, r')
      → P t.0

-- A read of which `Q` holds wherever it succeeds.
pub record Yields {ℓ κ} {A : Type ℓ} (Q : A → Type κ) (read : Reader → Option (A × Reader))
    : Type (ℓ ⊔ κ) where
  pub yields : (r r' : Reader) (a : A) → read r ≡ some (a, r') → Q a

pub data KeepCases {ℓ κ} {M : Type ℓ} (P : M → Type κ) : List (ℕ × Field M) → Type (ℓ ⊔ κ) where
  default : KeepCases P []
  case :
      {n : ℕ} {field : Field M} {cases : List (ℕ × Field M)}
      → Keeps P field
      → KeepCases P cases
      → KeepCases P ((n, field) ∷ cases)

module _ {ℓ κ} {M : Type ℓ} {P : M → Type κ} where
  pub on_wire-Keeps :
      (want : WireType) (field : Field M) → Keeps P field → Keeps P (on_wire want field)
  unfolding on_wire
  on_wire-Keeps want field k = record {
    keeps = λ num wire s t r r' p h.
        k.keeps num wire s t r r' p (unless _ (field num wire s r) (t, r') h);
  }

  pub marked-Keeps : (field : Field M) → Keeps P field → Keeps P (marked field)
  unfolding marked
  marked-Keeps field k = record {
    keeps = λ num wire (m, seen) t r r' p h.
        let (seen', free, rest) = bind-inv (mark seen num) _ (t, r') h in
        k.keeps num wire (m, seen') t r r' p rest;
  }

  pub update-Keeps :
      (read : M → Reader → Option (M × Reader))
      → ((m m' : M) (r r' : Reader) → P m → read m r ≡ some (m', r') → P m')
      → Keeps P (update read)
  unfolding update
  update-Keeps read k = record {
    keeps = λ num wire (m, seen) t r r' p h.
        let ((m', r₁), given, same) = bind-inv (read m r) _ (t, r') h in
        subst P (ap (λ x. x.0.0) (some-eq ((m', seen), r₁) (t, r') same)) (k m m' r r₁ p given);
  }

  pub store-Keeps {μ ν} :
      {A : Type μ} (Q : A → Type ν) (read : Reader → Option (A × Reader)) (set : M → A → Option M)
      → Yields Q read
      → ((m m' : M) (a : A) → P m → Q a → set m a ≡ some m' → P m')
      → Keeps P (store read set)
  unfolding store
  store-Keeps Q read set y k = update-Keeps _ λ m m' r r' p h.
      let ((a, r₁), given, rest) = bind-inv (read r) _ (m', r') h in
      let (n, made, same) = bind-inv (set m a) _ (m', r') rest in
      subst P (ap (λ x. x.0) (some-eq (n, r₁) (m', r') same))
        (k m n a p (y.yields r r₁ a given) made)

  pub packed_field-Keeps {μ} :
      {A : Type μ} (read : Reader → Option (A × Reader)) (get : M → List A)
      (set : M → List A → Option M)
      → ((m m' : M) (vs : List A) → P m → set m vs ≡ some m' → P m')
      → Keeps P (packed_field read get set)
  unfolding packed_field
  packed_field-Keeps read get set k = record {
    keeps = λ num wire.
        (update-Keeps
            (λ m r. packed read (get m) wire r >>= λ (vs, r'). set m vs >>= λ m'. some (m', r'))
            λ m m' r r' p h.
              let ((vs, r₁), given, rest) = bind-inv (packed read (get m) wire r) _ (m', r') h in
              let (n, made, same) = bind-inv (set m vs) _ (m', r') rest in
              subst P (ap (λ x. x.0) (some-eq (n, r₁) (m', r') same)) (k m n vs p made)).keeps
          num wire;
  }

  pub unknown-Keeps : Keeps P unknown_field
  unfolding unknown_field
  unknown-Keeps = record {
    keeps = λ num wire s t r r' p h.
        let (r₁, skipped, same) = bind-inv (unknown wire r) _ (t, r') h in
        subst (λ x. P x.0) (ap (λ x. x.0) (some-eq (s, r₁) (t, r') same)) p;
  }

  pub switch-Keeps : {cases : List (ℕ × Field M)} → KeepCases P cases → Keeps P (switch cases)
  unfolding switch
  switch-Keeps default = unknown-Keeps
  switch-Keeps (case {n = n} {field = field} {cases = cases} k ks) = record {
    keeps = λ num wire s t r r' p h. elim (Bool-cases (num == n)) [
      | inl here ↦
          k.keeps num wire s t r r' p (then_taken _ (field num wire s r) _ (some (t, r')) here h)
      | inr there ↦
          (switch-Keeps ks).keeps num wire s t r r' p
            (else_taken _ _ (switch cases num wire s r) (some (t, r')) there h)
    ];
  }

  fields-keeps :
      (field : Field M)
      → Keeps P field
      → (f : ℕ) (s t : M × List ℕ) (r r' : Reader) → P s.0
      → fields field f s r ≡ some (t, r')
      → P t.0
  unfolding fields
  fields-keeps field k zero s t r r' p h = absurd (ground arith)
  fields-keeps field k (suc f) s t r r' p h = elim (Bool-cases (done r)) [
    | inl end ↦
        subst (λ x. P x.0)
          (ap (λ x. x.0) (some-eq (s, r) (t, r') (then_taken (done r) (some (s, r)) _ _ end h))) p
    | inr more ↦
        let (((num, wire), r₁), tag, rest) =
          bind-inv (next r) _ (t, r') (else_taken (done r) (some (s, r)) _ _ more h) in
        let ((s₁, r₂), given, on) = bind-inv (field num wire s r₁) _ (t, r') rest in
        fields-keeps field k f s₁ t r₂ r' (k.keeps num wire s s₁ r₁ r₂ p given) on
  ]

  -- What every field keeps holds of the message that is read.
  pub decode-Yields : (field : Field M) (m : M) → Keeps P field → P m → Yields P (decode field m)
  unfolding decode
  decode-Yields field m k p = record {
    yields = λ r r' a h.
        let left = suc (length r.buf - r.at) in
        let ((s, r₁), read, same) = bind-inv (fields field left (m, []) r) _ (a, r') h in
        subst P (ap (λ x. x.0) (some-eq (s.0, r₁) (a, r') same))
          (fields-keeps field k left (m, []) s r r₁ p read);
  }

-- What is read of a body is what its decoder yields.
pub message-Yields {ℓ κ} :
    {A : Type ℓ} (Q : A → Type κ) (decode : Reader → Option (A × Reader))
    → Yields Q decode
    → Yields Q (message decode)
unfolding message
message-Yields Q decode y = record {
  yields = λ r r' a h.
      let ((body, r₁), read, rest) = bind-inv (bytes r) _ (a, r') h in
      let ((a₁, sub), decoded, end) = bind-inv (decode _) _ (a, r') (unless _ _ (a, r') rest) in
      subst Q (ap (λ x. x.0) (some-eq (a₁, r₁) (a, r') (unless _ _ (a, r') end)))
        (y.yields _ sub a₁ decoded);
}
