-- ===== src/Gen/Decode/Capped/Programs.antt =====
-- internal/gen/decode.go: the limits that the decoders put on the programs of a bundle.
use mathlib.Core.List.{Memᴰ}
use mathlib.Core.List.Memᴰ
use entid_go.Prelude.{
  bind-inv, unless, unless-false, ℕ, ◌+◌, ◌≤◌, ◌≡◌, ap, sym, List, [], ◌∷◌, ◌++◌, Option, some,
  arith, leb, length, ◌==◌, not, some-eq, length-append, ◌⊎◌, inl, inr,
}
use mathlib.Core.Path.{subst}
use entid_go.Wire.{Reader, WireType, message, wire_bytes}
use entid_go.Gen.Limits.{max_nodes_per_program}
use entid_go.Gen.Model.{Bundle, Node, Program, no_node}
use entid_go.Gen.Decode.{switch, repeated, decode}
use entid_go.Gen.Decode.Operations.{decode_operation}
use entid_go.Gen.Decode.Programs.{
  Counted, operation_branch, node_fields, node_field, program_fields, decode_node, decode_program,
  no_program,
}
use entid_go.Gen.Decode.Bundles.{bundle_fields, decode_bundle, no_bundle}
use entid_go.Gen.Decode.Capped.{
  IsCapped, singular-Keeps, packed-Keeps, decode_operation-Yields, Yields-any,
}
use entid_go.Gen.Decode.Keeps.{
  Keeps, Yields, default, case, on_wire-Keeps, marked-Keeps, update-Keeps, store-Keeps,
  packed_field-Keeps, switch-Keeps, decode-Yields, message-Yields,
}

abbrev FineNode : Counted → Type 0
FineNode (n, operations) = IsCapped n

operation_branch-Keeps : (oneof : ℕ) → Keeps FineNode (operation_branch oneof)
unfolding operation_branch
operation_branch-Keeps oneof = on_wire-Keeps wire_bytes _ (
    marked-Keeps _ (
      update-Keeps _ λ (n, operations) m' r r' p h.
        let ((n', r₁), read, same) = bind-inv (message (decode_operation oneof n) r) _ (m', r') h in
        subst FineNode (ap (λ x. x.0) (some-eq ((n', operations + 1), r₁) (m', r') same))
          ((message-Yields IsCapped _ (decode_operation-Yields oneof n p)).yields r r₁ n' read)))

decode_node-Yields : Yields IsCapped decode_node
unfolding decode_node node_fields
decode_node-Yields = record {
  yields = λ r r' n h.
      let (((m, operations), r₁), read, rest) =
        bind-inv (decode (switch node_fields) (no_node, 0) r) _ (n, r') h in
      let kept : Keeps FineNode (switch node_fields) = switch-Keeps (
        case (singular-Keeps _ _ _ λ m a p. p) (
          case (packed-Keeps _ _ _ _ λ m vs (a, b, c, d, e) fits. (fits, b, c, d, e))
            (search (case, default, operation_branch-Keeps) depth 20))) in
      let zeros : FineNode (no_node, 0) =
        (omega arith, omega arith, omega arith, omega arith, omega arith) in
      subst IsCapped
        (ap (λ x. x.0) (some-eq (m, r₁) (n, r') (unless (not (operations == 1)) _ (n, r') rest)))
        ((decode-Yields _ (no_node, 0) kept zeros).yields r r₁ (m, operations) read);
}

-- A member of a list with one more element behind it.
snoc-cases {ℓ} : {A : Type ℓ} {a x : A} (xs : List A) → Memᴰ a (xs ++ x ∷ []) → Memᴰ a xs ⊎ (a ≡ x)
snoc-cases xs m = elim (Memᴰ.append_cases xs m) [
  | inl before ↦ inl before
  | inr (Memᴰ.head same) ↦ inr same
  | inr (Memᴰ.tail none_left) ↦ absurd (Memᴰ.not-nil none_left)
]

abbrev FineProgram : Program → Type 0
FineProgram p =
    (length p.nodes ≤ max_nodes_per_program) × ((n : Node) → Memᴰ n p.nodes → IsCapped n)

repeated-Keeps {ℓ κ μ ν} :
    {M : Type ℓ} {P : M → Type κ} {A : Type μ} (Q : A → Type ν) (want : WireType)
    (read : Reader → Option (A × Reader)) (add : M → A → M)
    → Yields Q read
    → ((m : M) (a : A) → P m → Q a → P (add m a))
    → Keeps P (repeated want read add)
repeated-Keeps {P = P} Q want read add y k =
    on_wire-Keeps want _
      (store-Keeps Q read _ y λ m m' a p q h. subst P (some-eq (add m a) m' h) (k m a p q))

apart-Keeps {ℓ κ μ} :
    {M : Type ℓ} {P : M → Type κ} {A : Type μ} (want : WireType)
    (read : Reader → Option (A × Reader)) (add : M → A → M)
    → ((m : M) (a : A) → P m → P (add m a))
    → Keeps P (repeated want read add)
apart-Keeps want read add k =
    repeated-Keeps (λ a. ℕ) want read add (Yields-any read) λ m a p q. k m a p

node_field-Keeps : Keeps FineProgram node_field
unfolding node_field
node_field-Keeps = on_wire-Keeps wire_bytes _ (
    update-Keeps _ λ p p' r r' (short, each) h.
      let full = leb max_nodes_per_program (length p.nodes) in
      let room = unless-false full _ (p', r') h in
      let ((n, r₁), read, same) =
        bind-inv (message decode_node r) _ (p', r') (unless full _ (p', r') h) in
      let fine = (message-Yields IsCapped _ decode_node-Yields).yields r r₁ n read in
      let nodes = p.nodes ++ n ∷ [] in
      let grown = length-append p.nodes (n ∷ []) in
      let within : length nodes ≤ max_nodes_per_program = ground (arith, room, grown) in
      subst FineProgram (ap (λ x. x.0) (some-eq (record p { nodes = nodes }, r₁) (p', r') same)) (
        within,
        λ m among. elim (snoc-cases p.nodes among) [
          | inl before ↦ each m before
          | inr last ↦ subst IsCapped (sym last) fine
        ],
      ))

decode_program-Yields : Yields FineProgram decode_program
unfolding decode_program program_fields
decode_program-Yields =
    decode-Yields _ no_program kept (omega arith, λ n m. absurd (Memᴰ.not-nil m))
  where
    kept : Keeps FineProgram (switch program_fields)
    kept =
        switch-Keeps
          (search (case, default, singular-Keeps, node_field-Keeps, apart-Keeps) depth 20)

abbrev FineBundle : Bundle → Type 0
FineBundle b = (p : Program) → Memᴰ p b.programs → FineProgram p

decode_bundle-Yields : Yields FineBundle decode_bundle
unfolding decode_bundle bundle_fields
decode_bundle-Yields = decode-Yields _ no_bundle kept (λ p m. absurd (Memᴰ.not-nil m))
  where
    added :
        (b : Bundle) (p : Program)
        → FineBundle b
        → FineProgram p
        → FineBundle (record b { programs = b.programs ++ p ∷ [] })
    added b p each fine q m = elim (snoc-cases b.programs m) [
      | inl before ↦ each q before
      | inr last ↦ subst FineProgram (sym last) fine
    ]

    programs_read : Yields FineProgram (message decode_program)
    programs_read = message-Yields FineProgram _ decode_program-Yields

    kept : Keeps FineBundle (switch bundle_fields)
    kept = switch-Keeps (
        case (search (singular-Keeps)) (
          case (search (singular-Keeps)) (
            case
              (packed_field-Keeps _ _ _ λ b b' vs each h.
                subst FineBundle (some-eq (record b { required_feature_ids = vs }) b' h) each)
              (case (search (singular-Keeps)) (
                case (search (apart-Keeps)) (
                  case (repeated-Keeps FineProgram _ _ _ programs_read added)
                    (case (search (apart-Keeps)) default)))))))

-- Every program of a bundle that is decoded, in the strict or in the lenient pass, has at most 4096 nodes,
-- and every node of it at most 4096 operands, prefix values and lengths, 256 weights, and a million
-- remainder values.
pub decode_bundle-IsCapped :
    (r r' : Reader) (b : Bundle) (p : Program) (n : Node)
    → decode_bundle r ≡ some (b, r')
    → Memᴰ p b.programs
    → Memᴰ n p.nodes
    → (length p.nodes ≤ max_nodes_per_program) × IsCapped n
decode_bundle-IsCapped r r' b p n h p_in n_in =
    let (short, each) = decode_bundle-Yields.yields r r' b h p p_in in (short, each n n_in)
