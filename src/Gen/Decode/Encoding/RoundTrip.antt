-- ===== src/Gen/Decode/Encoding/RoundTrip.antt =====
-- internal/gen/decode.go: the decoder of a dispatcher, on what the encoding puts.
use mathlib.Core.List.{Memᴰ}
use entid_go.Prelude.{
  ◌+◌, ◌^◌, ◌≤◌, ◌<◌, ◌≡◌, refl, sym, ◌∙◌, true, [], ◌∷◌, ◌++◌, some, arith, length, append-nil,
  Bytes,
}
use entid_go.Utf8.{valid_string}
use entid_go.Wire.{
  Reader, wire_varint, wire_bytes, done, mark, text, u32, message, max_decode_depth,
}
use entid_go.Wire.Encoding.RoundTrip.{ahead, forward, ahead-forward}
use entid_go.Gen.Model.{CountryAlias, DispatchTarget, IdentifierDispatcher}
use entid_go.Gen.Decode.{Field, switch, decode}
use entid_go.Gen.Decode.Messages.{
  decode_country_alias, decode_target, dispatcher_fields, decode_dispatcher, no_dispatcher,
}
use entid_go.Gen.Decode.Cases.{dispatcher_fields-LawfulField}
use entid_go.Gen.Decode.Encoding.{
  put_text, put_number, put_each, encode_country_alias, encode_target, encode_dispatcher,
}
use entid_go.Gen.Decode.Encoding.Reads.{text-ReadsBack, u32-ReadsBack, message-ReadsBack}
use entid_go.Gen.Decode.Encoding.Segments.{
  Reaches, Reaches-stop, run-singular, run-each, store-read, marked-read,
}
use entid_go.Gen.Decode.Encoding.Targets.{
  AliasFits, TargetFits, decoded, first_free, decode_country_alias-DecodesBack,
  decode_target-DecodesBack,
}

-- What an encoded dispatcher may hold: strings of Unicode, and numbers of 32 bits.
pub record DispatcherFits (d : IdentifierDispatcher) : Type 0 where
  pub kind_valid : valid_string d.kind ≡ true
  pub aliases_valid : (b : Bytes) → Memᴰ b d.kind_aliases → valid_string b ≡ true
  pub program_small : d.pre_canonicalization_program < 2 ^ 32
  pub countries_fit : (a : CountryAlias) → Memᴰ a d.country_aliases → AliasFits a
  pub targets_fit : (t : DispatchTarget) → Memᴰ t d.targets → TargetFits t

third_free : mark (1 ∷ []) 3 ≡ some (3 ∷ 1 ∷ [])
unfolding mark
third_free = refl

-- The nested messages, behind the other fields.
dispatcher_messages :
    (d : IdentifierDispatcher) (r : Reader)
    → DispatcherFits d
    → r.depth < max_decode_depth
    → length r.buf < 2 ^ 64
    → ahead r
      ≡ put_each encode_country_alias 4 d.country_aliases ++ put_each encode_target 5 d.targets
    → Reaches
        (switch dispatcher_fields)
        d
        (record d { country_aliases = []; targets = [] }, 3 ∷ 1 ∷ [])
        r
unfolding dispatcher_fields switch entid_go.Gen.Decode.on_wire
dispatcher_messages d r fits room small h =
    let s₄ = put_each encode_country_alias 4 d.country_aliases in
    let s₅ = put_each encode_target 5 d.targets in
    let r₄ : Reader = forward r (length s₄) in
    let h₄ : ahead r₄ ≡ s₅ ++ [] = ahead-forward r s₄ _ h ∙ sym (append-nil s₅) in
    let m₃ : IdentifierDispatcher = record d { country_aliases = []; targets = [] } in
    let m₄ : IdentifierDispatcher = record d { targets = [] } in
    run-each (3 ∷ 1 ∷ []) 4 (message decode_country_alias) (λ n. n.country_aliases)
      (λ n vs. record n { country_aliases = vs }) encode_country_alias d.country_aliases
      (λ m q.
        store-read (message decode_country_alias)
          (λ n v. record n { country_aliases = n.country_aliases ++ v ∷ [] }) 4 wire_bytes m
          (3 ∷ 1 ∷ []) q)
      (λ m vs. refl) (λ m us vs. refl) (λ m. refl) (omega arith) (omega arith) m₃ r _
      (λ a among.
        message-ReadsBack decode_country_alias r.depth _ a room
          (decode_country_alias-DecodesBack (r.depth + 1) a (fits.countries_fit a among)))
      small h
      (run-each (3 ∷ 1 ∷ []) 5 (message decode_target) (λ n. n.targets)
        (λ n vs. record n { targets = vs }) encode_target d.targets
        (λ m q.
          store-read (message decode_target) (λ n v. record n { targets = n.targets ++ v ∷ [] }) 5
            wire_bytes m (3 ∷ 1 ∷ []) q)
        (λ m vs. refl) (λ m us vs. refl) (λ m. refl) (omega arith) (omega arith) m₄ r₄ []
        (λ t among.
          message-ReadsBack decode_target r.depth _ t room
            (decode_target-DecodesBack (r.depth + 1) t (fits.targets_fit t among)))
        small h₄ (Reaches-stop _ _ _ _ (ahead-forward r₄ s₅ [] h₄)))

-- A dispatcher comes back from its encoding: on strings of Unicode and numbers of 32 bits, in a slice that
-- Go can hold and at a depth that leaves room for the messages in it, the decoder reads the encoding to its
-- end and gives the dispatcher that was encoded, with its aliases and targets in their order, in the strict
-- pass and in the lenient one.
pub decode_dispatcher-encode :
    (d : IdentifierDispatcher) (r : Reader)
    → DispatcherFits d
    → r.depth < max_decode_depth
    → r.at ≤ length r.buf
    → length r.buf < 2 ^ 64
    → ahead r ≡ encode_dispatcher d
    → (end : Reader) × (done end ≡ true) × (decode_dispatcher r ≡ some (d, end))
unfolding decode_dispatcher encode_dispatcher dispatcher_fields put_text put_number switch
    entid_go.Gen.Decode.on_wire
decode_dispatcher-encode d r fits room inside small h =
    let s₁ = put_text 1 d.kind in
    let s₂ = put_each (λ b. b) 2 d.kind_aliases in
    let s₃ = put_number 3 d.pre_canonicalization_program in
    let s₄ = put_each encode_country_alias 4 d.country_aliases in
    let s₅ = put_each encode_target 5 d.targets in
    let r₁ : Reader = forward r (length s₁) in
    let r₂ : Reader = forward r₁ (length s₂) in
    let r₃ : Reader = forward r₂ (length s₃) in
    let h₁ : ahead r₁ ≡ s₂ ++ (s₃ ++ (s₄ ++ s₅)) = ahead-forward r s₁ _ h in
    let h₂ : ahead r₂ ≡ s₃ ++ (s₄ ++ s₅) = ahead-forward r₁ s₂ _ h₁ in
    let h₃ : ahead r₃ ≡ s₄ ++ s₅ = ahead-forward r₂ s₃ _ h₂ in
    let m₁ : IdentifierDispatcher = record no_dispatcher { kind = d.kind } in
    let m₂ : IdentifierDispatcher = record m₁ { kind_aliases = d.kind_aliases } in
    decoded (switch dispatcher_fields) no_dispatcher d r dispatcher_fields-LawfulField (
      run-singular no_dispatcher [] r 1 wire_bytes text (λ n v. record n { kind = v }) _ _ d.kind
        (marked-read text _ 1 wire_bytes no_dispatcher []) first_free (omega arith) (omega arith)
        (text-ReadsBack r.depth d.kind fits.kind_valid) small h
        (run-each (1 ∷ []) 2 text (λ n. n.kind_aliases) (λ n vs. record n { kind_aliases = vs })
          (λ b. b) d.kind_aliases
          (λ m q.
            store-read text (λ n v. record n { kind_aliases = n.kind_aliases ++ v ∷ [] }) 2
              wire_bytes m (1 ∷ []) q)
          (λ m vs. refl) (λ m us vs. refl) (λ m. refl) (omega arith) (omega arith) m₁ r₁ _
          (λ b among. text-ReadsBack r.depth b (fits.aliases_valid b among)) small h₁
          (run-singular m₂ (1 ∷ []) r₂ 3 wire_varint u32
            (λ n v. record n { pre_canonicalization_program = v }) _ _
            d.pre_canonicalization_program (marked-read u32 _ 3 wire_varint m₂ (1 ∷ [])) third_free
            (omega arith) (omega arith)
            (u32-ReadsBack r.depth d.pre_canonicalization_program fits.program_small) small h₂
            (dispatcher_messages d r₃ fits room small h₃))))
