-- ===== src/Gen/Decode/Capped.antt =====
-- internal/gen/decode.go: the limits that the decoders put on the lists of a program.
pub mod Programs
use mathlib.Core.List.{Memᴰ}
use entid_go.Prelude.{
  ◌>>=◌, bind-inv, provided, unless, unless-false, ℕ, ◌+◌, ◌≤◌, ◌≡◌, refl, ap, List, [], ◌∷◌, ◌++◌,
  Option, none, some, arith, Bool, true, false, ltb, leb, if◌then◌else◌, length, ◌==◌, not, some-eq,
  length-append, Bytes,
}
use mathlib.Core.Path.{subst}
use entid_go.Wire.{Reader, WireType, message, text, i64, u32, enum}
use entid_go.Gen.Limits.{max_nodes_per_program, max_weights, max_remainder_values}
use entid_go.Gen.Model.{Bundle, Node, Program, no_node}
use entid_go.Gen.Opcodes.{Opcode}
use entid_go.Gen.Opcodes.Tables.{find_op}
use entid_go.Gen.Decode.{Field, switch, singular, repeated, capped, packed_field, decode}
use entid_go.Gen.Decode.Operations.{
  Operation, string_params, integer_params, predicate_params, canonicalization_params,
  assertion_params, checksum_params, call_params, operation_params, operation_field,
  operation_table, named, resolve, decode_operation,
}
use entid_go.Gen.Decode.Keeps.{
  Keeps, Yields, KeepCases, default, case, on_wire-Keeps, marked-Keeps, update-Keeps, store-Keeps,
  packed_field-Keeps, switch-Keeps, decode-Yields, message-Yields,
}

abbrev pub IsCapped : Node → Type 0
IsCapped n =
    (length n.input_nodes ≤ max_nodes_per_program)
    × (length n.values ≤ max_nodes_per_program)
    × (length n.lengths ≤ max_nodes_per_program)
    × (length n.weights ≤ max_weights)
    × (length n.remainder_values ≤ max_remainder_values)

-- Any read.
pub Yields-any {ℓ} : {A : Type ℓ} (read : Reader → Option (A × Reader)) → Yields (λ a. ℕ) read
Yields-any read = record { yields = λ r r' a h. 0 }

pub singular-Keeps {ℓ κ μ} :
    {M : Type ℓ} {P : M → Type κ} {A : Type μ} (want : WireType)
    (read : Reader → Option (A × Reader)) (set : M → A → M)
    → ((m : M) (a : A) → P m → P (set m a))
    → Keeps P (singular want read set)
singular-Keeps {P = P} want read set k = on_wire-Keeps want _ (
    marked-Keeps _ (
      store-Keeps (λ a. ℕ) read _ (Yields-any read)
        λ m m' a p q h. subst P (some-eq (set m a) m' h) (k m a p)))

pub packed-Keeps {ℓ κ μ} :
    {M : Type ℓ} {P : M → Type κ} {A : Type μ} (read : Reader → Option (A × Reader))
    (get : M → List A) (limit : ℕ) (set : M → List A → M)
    → ((m : M) (vs : List A) → P m → length vs ≤ limit → P (set m vs))
    → Keeps P (packed_field read get (capped limit set))
packed-Keeps {P = P} read get limit set k = packed_field-Keeps read get _ λ m m' vs p h.
    let large = ltb limit (length vs) in
    let fits : length vs ≤ limit = (let f = unless-false large _ m' h in ground (arith, f)) in
    subst P (some-eq (set m vs) m' (unless large _ m' h)) (k m vs p fits)

abbrev Fine : Operation → Type 0
Fine (n, kind) = IsCapped n

string_params-KeepCases : KeepCases Fine string_params
unfolding string_params
string_params-KeepCases = search (case, default, singular-Keeps) depth 30

integer_params-KeepCases : KeepCases Fine integer_params
unfolding integer_params
integer_params-KeepCases = case (search (singular-Keeps)) (
    case (packed-Keeps _ _ _ _ λ m vs (a, b, c, d, e) fits. (a, b, c, fits, e)) (
      case (search (singular-Keeps)) (
        case (search (singular-Keeps)) (
          case (packed-Keeps _ _ _ _ λ m vs (a, b, c, d, e) fits. (a, b, c, d, fits))
            (case (search (singular-Keeps)) default)))))

predicate_params-KeepCases : KeepCases Fine predicate_params
unfolding predicate_params
predicate_params-KeepCases = case (search (singular-Keeps)) (
    case (on_wire-Keeps _ _ (store-Keeps (λ a. ℕ) text _ (Yields-any text) values_kept)) (
      case (packed-Keeps _ _ _ _ λ m vs (a, b, c, d, e) fits. (a, b, fits, d, e))
        (search (case, default, singular-Keeps) depth 30)))
  where
    values_kept :
        (o o' : Operation) (v : Bytes)
        → Fine o
        → ℕ
        → (if ltb max_nodes_per_program (length (o.0.values ++ v ∷ []))
            then none
            else some (record o.0 { values = o.0.values ++ v ∷ [] }, o.1))
          ≡ some o'
        → Fine o'
    values_kept o o' v (a, b, c, d, e) q h =
        let vs = o.0.values ++ v ∷ [] in
        let large = ltb max_nodes_per_program (length vs) in
        let fits : length vs ≤ max_nodes_per_program =
          (let f = unless-false large _ o' h in ground (arith, f)) in
        subst Fine (some-eq (record o.0 { values = vs }, o.1) o' (unless large _ o' h))
          (a, fits, c, d, e)

canonicalization_params-KeepCases : KeepCases Fine canonicalization_params
unfolding canonicalization_params
canonicalization_params-KeepCases = search (case, default, singular-Keeps) depth 30

assertion_params-KeepCases : KeepCases Fine assertion_params
unfolding assertion_params
assertion_params-KeepCases = search (case, default, singular-Keeps) depth 30

checksum_params-KeepCases : KeepCases Fine checksum_params
unfolding checksum_params
checksum_params-KeepCases = search (case, default, singular-Keeps) depth 30

call_params-KeepCases : KeepCases Fine call_params
unfolding call_params
call_params-KeepCases = search (case, default, singular-Keeps) depth 30

operation_params-KeepCases : (oneof : ℕ) → KeepCases Fine (operation_params oneof)
unfolding operation_params
operation_params-KeepCases oneof = branch (oneof == 10) string_params-KeepCases (
    branch (oneof == 11) integer_params-KeepCases (
      branch (oneof == 12) predicate_params-KeepCases (
        branch (oneof == 13) canonicalization_params-KeepCases (
          branch (oneof == 14) assertion_params-KeepCases (
            branch (oneof == 15) checksum_params-KeepCases
              (branch (oneof == 16) call_params-KeepCases default))))))
  where
    branch :
        (c : Bool) {x y : List (ℕ × Field Operation)}
        → KeepCases Fine x
        → KeepCases Fine y
        → KeepCases Fine (if c then x else y)
    branch true p q = p
    branch false p q = q

named-Fine :
    (n m : Node) (o : Option Opcode) (r r' : Reader)
    → IsCapped n
    → named n r o ≡ some (m, r')
    → IsCapped m
unfolding named
named-Fine n m (some op) r r' p h =
    subst IsCapped (ap (λ x. x.0) (some-eq (record n { op = op }, r) (m, r') h)) p
named-Fine n m none r r' p h =
    let given = (provided r.lenient (some (n, r)) (m, r') h).1 in
    subst IsCapped (ap (λ x. x.0) (some-eq (n, r) (m, r') given)) p

resolve-Fine :
    (oneof : ℕ) (o : Operation) (m : Node) (r r' : Reader)
    → Fine o
    → resolve oneof o r ≡ some (m, r')
    → IsCapped m
unfolding resolve
resolve-Fine oneof (n, none) m r r' p h = absurd (ground arith)
resolve-Fine oneof (n, some kind) m r r' p h =
    named-Fine n m (find_op (operation_table oneof) kind) r r' p h

-- An operation leaves the node within the limits.
pub decode_operation-Yields :
    (oneof : ℕ) (n : Node) → IsCapped n → Yields IsCapped (decode_operation oneof n)
unfolding decode_operation operation_field
decode_operation-Yields oneof n p = record {
  yields = λ r r' m h.
      let ((o, r₁), read, rest) =
        bind-inv (decode (operation_field oneof) (n, none) r) _ (m, r') h in
      let kept =
        switch-Keeps (case (singular-Keeps _ _ _ λ o v q. q) (operation_params-KeepCases oneof)) in
      resolve-Fine oneof o m r₁ r' ((decode-Yields _ (n, none) kept p).yields r r₁ o read) rest;
}
