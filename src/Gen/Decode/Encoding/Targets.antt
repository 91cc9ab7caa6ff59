-- ===== src/Gen/Decode/Encoding/Targets.antt =====
-- internal/gen/decode.go: the decoders of a country's alias and of a target, on what the encoding puts.
use mathlib.Core.List.{Memᴰ}
use entid_go.Prelude.{
  ℕ, ◌^◌, ◌<◌, ◌≡◌, refl, sym, ◌∙◌, true, [], ◌∷◌, ◌++◌, Option, none, some, arith, length,
  append-nil, if◌then◌else◌, Bytes,
}
use entid_go.Utf8.{valid_string}
use entid_go.Wire.{Reader, wire_varint, wire_bytes, done, mark, text, u32, boolean}
use entid_go.Wire.Encoding.RoundTrip.{ahead, forward, ahead-forward}
use entid_go.Gen.Model.{CountryAlias, DispatchTarget}
use entid_go.Gen.Decode.{Field, switch, decode}
use entid_go.Gen.Decode.Laws.{LawfulField}
use entid_go.Gen.Decode.Runs.{decode-Runs}
use entid_go.Gen.Decode.Messages.{
  country_alias_fields, decode_country_alias, no_country_alias, target_fields, decode_target,
  no_target,
}
use entid_go.Gen.Decode.Cases.{country_alias_fields-LawfulField, target_fields-LawfulField}
use entid_go.Gen.Decode.Encoding.{
  put_text, put_number, put_option, put_each, encode_country_alias, encode_target,
}
use entid_go.Gen.Decode.Encoding.Reads.{
  DecodesBack, text-ReadsBack, u32-ReadsBack, boolean-ReadsBack,
}
use entid_go.Gen.Decode.Encoding.Segments.{
  Reaches, Reaches-stop, run-singular, run-each, run-option, marks, store-read, marked-read,
}

-- A loop that reaches the end is a decode.
pub decoded {ℓ} :
    {M : Type ℓ} (field : Field M) (m m' : M) (r : Reader)
    → LawfulField field
    → Reaches field m' (m, []) r
    → (end : Reader) × (done end ≡ true) × (decode field m r ≡ some (m', end))
decoded field m m' r law (marks, end, finished, run) =
    (end, finished, (decode-Runs field m m' r end law).1 (marks, run))

pub record AliasFits (a : CountryAlias) : Type 0 where
  pub alias_valid : valid_string a.alias ≡ true
  pub country_valid : valid_string a.country_code ≡ true

pub decode_country_alias-DecodesBack :
    (d : ℕ) (a : CountryAlias)
    → AliasFits a
    → DecodesBack decode_country_alias d (encode_country_alias a) a
unfolding decode_country_alias encode_country_alias country_alias_fields put_text switch
    entid_go.Gen.Decode.on_wire entid_go.Gen.Decode.marked entid_go.Gen.Decode.update mark
decode_country_alias-DecodesBack d a fits r deep (inside, small) h =
    let one = put_text 1 a.alias in
    let two = put_text 2 a.country_code in
    let r₁ : Reader = forward r (length one) in
    let rest : ahead r₁ ≡ two ++ [] = ahead-forward r one two h ∙ sym (append-nil two) in
    let r₂ : Reader = forward r₁ (length two) in
    decoded country_alias_fields no_country_alias a r country_alias_fields-LawfulField (
      run-singular no_country_alias [] r 1 wire_bytes text (λ c v. record c { alias = v }) _ two
        a.alias (store-read text _ 1 wire_bytes no_country_alias (1 ∷ [])) refl (omega arith)
        (omega arith) (text-ReadsBack r.depth a.alias fits.alias_valid) small h
        (run-singular (record no_country_alias { alias = a.alias }) (1 ∷ []) r₁ 2 wire_bytes text
          (λ c v. record c { country_code = v }) _ [] a.country_code
          (store-read text _ 2 wire_bytes _ (2 ∷ 1 ∷ [])) refl (omega arith) (omega arith)
          (text-ReadsBack r.depth a.country_code fits.country_valid) small rest
          (Reaches-stop _ _ _ r₂ (ahead-forward r₁ two [] rest))))

pub record TargetFits (t : DispatchTarget) : Type 0 where
  pub country_valid : (b : Bytes) → t.country_code ≡ some b → valid_string b ≡ true
  pub prefixes_valid : (b : Bytes) → Memᴰ b t.accepted_prefixes → valid_string b ≡ true
  pub canonical_valid : (b : Bytes) → t.canonical_prefix ≡ some b → valid_string b ≡ true
  pub definition_small : t.definition_id < 2 ^ 32

pub first_free : mark [] 1 ≡ some (1 ∷ [])
unfolding mark
first_free = refl

target_free :
    (o p : Option Bytes)
    → (mark (marks 1 o []) 3 ≡ some (3 ∷ marks 1 o []))
      × (mark (marks 3 p (marks 1 o [])) 4 ≡ some (4 ∷ marks 3 p (marks 1 o [])))
      × (mark (4 ∷ marks 3 p (marks 1 o [])) 5 ≡ some (5 ∷ 4 ∷ marks 3 p (marks 1 o [])))
unfolding mark
target_free none none = (refl, refl, refl)
target_free none (some b) = (refl, refl, refl)
target_free (some a) none = (refl, refl, refl)
target_free (some a) (some b) = (refl, refl, refl)

pub decode_target-DecodesBack :
    (d : ℕ) (t : DispatchTarget) → TargetFits t → DecodesBack decode_target d (encode_target t) t
unfolding decode_target encode_target target_fields put_number switch entid_go.Gen.Decode.on_wire
decode_target-DecodesBack d t fits r deep (inside, small) h =
    let s₁ = put_option 1 t.country_code in
    let s₂ = put_each (λ b. b) 2 t.accepted_prefixes in
    let s₃ = put_option 3 t.canonical_prefix in
    let s₄ = put_number 4 t.definition_id in
    let s₅ = put_number 5 (if t.unprefixed then 1 else 0) in
    let r₁ : Reader = forward r (length s₁) in
    let r₂ : Reader = forward r₁ (length s₂) in
    let r₃ : Reader = forward r₂ (length s₃) in
    let r₄ : Reader = forward r₃ (length s₄) in
    let h₁ : ahead r₁ ≡ s₂ ++ (s₃ ++ (s₄ ++ s₅)) = ahead-forward r s₁ _ h in
    let h₂ : ahead r₂ ≡ s₃ ++ (s₄ ++ s₅) = ahead-forward r₁ s₂ _ h₁ in
    let h₃ : ahead r₃ ≡ s₄ ++ s₅ = ahead-forward r₂ s₃ _ h₂ in
    let h₄ : ahead r₄ ≡ s₅ ++ [] = ahead-forward r₃ s₄ _ h₃ ∙ sym (append-nil s₅) in
    let (free₃, free₄, free₅) = target_free t.country_code t.canonical_prefix in
    let seen₁ = marks 1 t.country_code [] in
    let seen₃ = marks 3 t.canonical_prefix seen₁ in
    let m₁ : DispatchTarget = record no_target { country_code = t.country_code } in
    let m₂ : DispatchTarget = record m₁ { accepted_prefixes = t.accepted_prefixes } in
    let m₃ : DispatchTarget = record m₂ { canonical_prefix = t.canonical_prefix } in
    let m₄ : DispatchTarget = record m₃ { definition_id = t.definition_id } in
    decoded (switch target_fields) no_target t r target_fields-LawfulField (
      run-option no_target [] r 1 (λ n o. record n { country_code = o }) t.country_code _
        (marked-read text _ 1 wire_bytes no_target []) first_free (omega arith) (omega arith)
        fits.country_valid refl small h
        (run-each seen₁ 2 text (λ n. n.accepted_prefixes)
          (λ n vs. record n { accepted_prefixes = vs }) (λ b. b) t.accepted_prefixes
          (λ m q.
            store-read text (λ n v. record n { accepted_prefixes = n.accepted_prefixes ++ v ∷ [] })
              2 wire_bytes m seen₁ q)
          (λ m vs. refl) (λ m us vs. refl) (λ m. refl) (omega arith) (omega arith) m₁ r₁ _
          (λ b among. text-ReadsBack r.depth b (fits.prefixes_valid b among)) small h₁
          (run-option m₂ seen₁ r₂ 3 (λ n o. record n { canonical_prefix = o }) t.canonical_prefix _
            (marked-read text _ 3 wire_bytes m₂ seen₁) free₃ (omega arith) (omega arith)
            fits.canonical_valid refl small h₂
            (run-singular m₃ seen₃ r₃ 4 wire_varint u32 (λ n v. record n { definition_id = v }) _ s₅
              t.definition_id (marked-read u32 _ 4 wire_varint m₃ seen₃) free₄ (omega arith)
              (omega arith) (u32-ReadsBack r.depth t.definition_id fits.definition_small) small h₃
              (run-singular m₄ (4 ∷ seen₃) r₄ 5 wire_varint boolean
                (λ n v. record n { unprefixed = v }) _ [] t.unprefixed
                (marked-read boolean _ 5 wire_varint m₄ (4 ∷ seen₃)) free₅ (omega arith)
                (omega arith) (boolean-ReadsBack r.depth t.unprefixed) small h₄
                (Reaches-stop _ _ _ _ (ahead-forward r₄ s₅ [] h₄)))))))
