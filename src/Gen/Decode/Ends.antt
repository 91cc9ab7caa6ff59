-- ===== src/Gen/Decode/Ends.antt =====
-- internal/gen/decode.go: the loop over the fields of a message, and its fuel.
use entid_go.Prelude.{
  bind-inv, bind_on, unless, unless-false, ℕ, zero, suc, ◌+◌, ◌-◌, ◌/◌, ◌%◌, ◌^◌, ◌||◌, ltb, ◌≤◌,
  true, ◌≡◌, sym, ap, List, [], Option, none, some, false, arith, pair-snd, ◌==◌, length,
  Option-cases, Bool-cases, inl, inr, then_taken, else_taken,
}
use entid_go.Wire.{Reader, WireType, done, next, varint, wire_of}
use entid_go.Wire.Bounds.{next-Advances}
use entid_go.Wire.Reads.{in_lenient, relaxed, Agrees, varint-Lawful}
use entid_go.Gen.Decode.{Field, fields, decode}
use entid_go.Gen.Decode.Laws.{LawfulField}

next-Agrees : Agrees next
unfolding next
next-Agrees = record {
  agree = λ r r' t h.
      let ((tag, r₁), read, rest) = bind-inv (varint r) _ (t, r') h in
      let num = tag / 8 in
      let small = unless-false (num == 0 || ltb (2 ^ 31 - 1) num) _ (t, r') rest in
      let (wire, known, same) =
        bind-inv (wire_of (tag % 8)) _ (t, r')
          (unless (num == 0 || ltb (2 ^ 31 - 1) num) _ (t, r') rest) in
      bind_on _ _ (tag, in_lenient r₁) _ (varint-Lawful.agrees.agree r r₁ tag read)
        (rw small (bind_on _ _ wire _ known (relaxed ((num, wire), r₁) (t, r') same)));
}

-- The loop stops at the end of its slice.
fields-done {ℓ} :
    {M : Type ℓ} (field : Field M) (f : ℕ) (s t : M × List ℕ) (r r' : Reader)
    → fields field f s r ≡ some (t, r')
    → done r' ≡ true
unfolding fields
fields-done field zero s t r r' h = absurd (ground arith)
fields-done field (suc f) s t r r' h = elim (Bool-cases (done r)) [
  | inl end ↦
      let same = pair-snd (s, r) (t, r') (then_taken (done r) (some (s, r)) _ _ end h) in
      rw (sym same) end
  | inr more ↦
      let (((num, wire), r₁), tag, rest) =
        bind-inv (next r) _ (t, r') (else_taken (done r) (some (s, r)) _ _ more h) in
      let ((s₁, r₂), given, on) = bind-inv (field num wire s r₁) _ (t, r') rest in
      fields-done field f s₁ t r₂ r' on
]

pub decode-done {ℓ} :
    {M : Type ℓ} (field : Field M) (m : M) (r r' : Reader) (a : M)
    → decode field m r ≡ some (a, r')
    → done r' ≡ true
unfolding decode
decode-done field m r r' a h =
    let ((s, r₁), read, same) =
      bind-inv (fields field (suc (length r.buf - r.at)) (m, []) r) _ (a, r') h in
    rw (sym (pair-snd (s.0, r₁) (a, r') same))
      (fields-done field (suc (length r.buf - r.at)) (m, []) s r r₁ read)

-- A finite run of the loop from a state, with no fuel, and its result: the end of the body, a refusal of
-- a tag or of a field, or a field and the rest of the run behind it. A loop that does not end has none.
pub data Finishes {ℓ} {M : Type ℓ} (field : Field M)
    : M × List ℕ → Reader → Option ((M × List ℕ) × Reader) → Type ℓ where
  at_end : {s : M × List ℕ} {r : Reader} → done r ≡ true → Finishes field s r (some (s, r))
  bad_tag : {s : M × List ℕ} {r : Reader} → done r ≡ false → next r ≡ none → Finishes field s r none
  bad_field :
      {s : M × List ℕ} {r r₁ : Reader} (num : ℕ) (wire : WireType)
      → done r ≡ false
      → next r ≡ some ((num, wire), r₁)
      → field num wire s r₁ ≡ none
      → Finishes field s r none
  went_on :
      {s t : M × List ℕ} {r r₁ r₂ : Reader} {o : Option ((M × List ℕ) × Reader)} (num : ℕ)
      (wire : WireType)
      → done r ≡ false
      → next r ≡ some ((num, wire), r₁)
      → field num wire s r₁ ≡ some (t, r₂)
      → Finishes field t r₂ o
      → Finishes field s r o

module _ {ℓ} {M : Type ℓ} (field : Field M) (law : LawfulField field) where
  -- With a round for each byte that is left and one to see the end, the loop finishes.
  pub fields-Finishes :
      (f : ℕ) (s : M × List ℕ) (r : Reader)
      → length r.buf ≤ f + r.at
      → Finishes field s r (fields field (suc f) s r)
  unfolding fields
  fields-Finishes zero s r left = elim (Bool-cases (done r)) [
    | inl end ↦ rw end (at_end end)
    | inr more ↦ absurd (ground (arith, more))
  ]
  fields-Finishes (suc f) s r left = elim (Bool-cases (done r)) [
    | inl end ↦ rw end (at_end end)
    | inr more ↦ rw more (elim (Option-cases (next r)) [
      | inl failed ↦ rw failed (bad_tag more failed)
      | inr (((num, wire), r₁), tag) ↦ rw tag (elim (Option-cases (field num wire s r₁)) [
        | inl refused ↦ rw refused (bad_field num wire more tag refused)
        | inr ((t, r₂), given) ↦
            let (same_buf, forward, _, _, _) = next-Advances r r₁ (num, wire) tag in
            let (same_buf', forward', _, _, _) = (law.lawful num wire s).advance r₁ r₂ t given in
            let left' : length r₂.buf ≤ f + r₂.at =
              omega (arith, ap length same_buf, ap length same_buf', forward, forward', left) in
            rw given (went_on num wire more tag given (fields-Finishes f t r₂ left'))
      ])
    ])
  ]

  -- What the loop reads in a strict pass, it reads in a lenient one.
  fields-agree :
      (f : ℕ) (s t : M × List ℕ) (r r' : Reader)
      → fields field f s r ≡ some (t, r')
      → fields field f s (in_lenient r) ≡ some (t, in_lenient r')
  unfolding fields
  fields-agree zero s t r r' h = absurd (ground arith)
  fields-agree (suc f) s t r r' h = elim (Bool-cases (done r)) [
    | inl end ↦ rw end (relaxed (s, r) (t, r') (then_taken (done r) (some (s, r)) _ _ end h))
    | inr more ↦
        let (((num, wire), r₁), tag, rest) =
          bind-inv (next r) _ (t, r') (else_taken (done r) (some (s, r)) _ _ more h) in
        let ((s₁, r₂), given, on) = bind-inv (field num wire s r₁) _ (t, r') rest in
        rw more (
          bind_on _ _ ((num, wire), in_lenient r₁) _ (next-Agrees.agree r r₁ (num, wire) tag)
            (bind_on _ _ (s₁, in_lenient r₂) _
              ((law.lawful num wire s).agrees.agree r₁ r₂ (s₁) given)
              (fields-agree f s₁ t r₂ r' on)))
  ]

  pub decode-Agrees : (m : M) → Agrees (decode field m)
  unfolding decode
  decode-Agrees m = record {
    agree = λ r r' a h.
        let ((s, r₁), read, same) =
          bind-inv (fields field (suc (length r.buf - r.at)) (m, []) r) _ (a, r') h in
        bind_on _ (λ x. some (x.0.0, x.1)) (s, in_lenient r₁) _
          (fields-agree (suc (length r.buf - r.at)) (m, []) s r r₁ read)
          (relaxed (s.0, r₁) (a, r') same);
  }
