-- ===== src/Gen/Decode/Runs.antt =====
-- internal/gen/decode.go: the loop over the fields of a message as a relation, with no fuel.
use entid_go.Prelude.{
  bind-inv, bind_on, ℕ, zero, suc, ◌+◌, ◌-◌, ◌≤◌, ◌≡◌, ◌↔◌, refl, ap, true, false, List, [], some,
  arith, length, Bool-cases, inl, inr, then_taken, else_taken, some-eq,
}
use mathlib.Core.Path.{subst}
use entid_go.Wire.{Reader, WireType, done, next}
use entid_go.Wire.Bounds.{next-Advances}
use entid_go.Gen.Decode.{Field, fields, decode}
use entid_go.Gen.Decode.Laws.{LawfulField}

-- A run of the loop: it stops at the end of the body, and goes on behind a field that its case accepts.
pub data Runs {ℓ} {M : Type ℓ} (field : Field M) (t : M × List ℕ) (end : Reader)
    : M × List ℕ → Reader → Type ℓ where
  stop : done end ≡ true → Runs field t end t end
  step :
      {s s' : M × List ℕ} {r r₁ r₂ : Reader} (num : ℕ) (wire : WireType)
      → done r ≡ false
      → next r ≡ some ((num, wire), r₁)
      → field num wire s r₁ ≡ some (s', r₂)
      → Runs field t end s' r₂
      → Runs field t end s r

fields-Runs {ℓ} :
    {M : Type ℓ} (field : Field M) (f : ℕ) (s t : M × List ℕ) (r r' : Reader)
    → fields field f s r ≡ some (t, r')
    → Runs field t r' s r
unfolding fields
fields-Runs field zero s t r r' h = absurd (ground arith)
fields-Runs field (suc f) s t r r' h = elim (Bool-cases (done r)) [
  | inl end ↦
      subst (λ p. Runs field p.0 p.1 s r)
        (some-eq (s, r) (t, r') (then_taken (done r) _ _ (some (t, r')) end h)) (stop end)
  | inr more ↦
      let (((num, wire), r₁), tag, rest) =
        bind-inv (next r) _ (t, r') (else_taken (done r) (some (s, r)) _ _ more h) in
      let ((s₁, r₂), given, on) = bind-inv (field num wire s r₁) _ (t, r') rest in
      step num wire more tag given (fields-Runs field f s₁ t r₂ r' on)
]

Runs-fields {ℓ} :
    {M : Type ℓ} {field : Field M} {t : M × List ℕ} {end : Reader} {s : M × List ℕ} {r : Reader}
    (f : ℕ)
    → LawfulField field
    → length r.buf ≤ f + r.at
    → Runs field t end s r
    → fields field (suc f) s r ≡ some (t, end)
unfolding fields
Runs-fields f law left (stop e) = rw e refl
Runs-fields zero law left (step num wire more tag given rest) = absurd (ground (arith, more))
Runs-fields (suc f) law left
      (step {s = s} {s' = s'} {r = r} {r₁ = r₁} {r₂ = r₂} num wire more tag given rest) =
    let (same_buf, forward, _, _, _) = next-Advances r r₁ (num, wire) tag in
    let (same_buf', forward', _, _, _) = (law.lawful num wire s).advance r₁ r₂ s' given in
    let on : length r₂.buf ≤ f + r₂.at =
      omega (arith, ap length same_buf, ap length same_buf', forward, forward', left) in
    rw more (bind_on _ _ _ _ tag (bind_on _ _ _ _ given (Runs-fields f law on rest)))

-- Where the cases of the message advance and are lenient, as `LawfulField` has it: a message is decoded
-- exactly where the loop, without any fuel, runs from no marks to the end of the body.
pub decode-Runs {ℓ} :
    {M : Type ℓ} (field : Field M) (m m' : M) (r r' : Reader)
    → LawfulField field
    → (decode field m r ≡ some (m', r')) ↔ ((seen : List ℕ) × Runs field (m', seen) r' (m, []) r)
unfolding decode
decode-Runs field m m' r r' law = (there, back)
  where
    left : ℕ
    left = length r.buf - r.at

    there : decode field m r ≡ some (m', r') → (seen : List ℕ) × Runs field (m', seen) r' (m, []) r
    there h =
        let ((s, r₁), read, same) = bind-inv (fields field (suc left) (m, []) r) _ (m', r') h in
        (
          s.1,
          subst (λ p. Runs field (p.0, s.1) p.1 (m, []) r) (some-eq (s.0, r₁) (m', r') same)
              (fields-Runs field (suc left) (m, []) s r r₁ read),
        )

    back : ((seen : List ℕ) × Runs field (m', seen) r' (m, []) r) → decode field m r ≡ some (m', r')
    back (seen, run) = bind_on _ _ _ _ (Runs-fields left law (omega arith) run) refl
