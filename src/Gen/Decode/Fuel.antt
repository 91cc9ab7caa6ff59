-- ===== src/Gen/Decode/Fuel.antt =====
-- internal/gen/decode.go: the fuel of the decoders' loops.
use entid_go.Prelude.{ℕ, suc, ◌+◌, ◌≤◌, List, length}
use entid_go.Wire.{Reader}
use entid_go.Gen.Decode.{Field, switch, fields}
use entid_go.Gen.Decode.Operations.{operation_field}
use entid_go.Gen.Decode.Messages.{
  source_fields, identifier_fields, country_alias_fields, target_fields, dispatcher_fields,
}
use entid_go.Gen.Decode.Programs.{capture_fields, node_fields, program_fields}
use entid_go.Gen.Decode.Bundles.{bundle_fields}
use entid_go.Gen.Decode.Ends.{Finishes, fields-Finishes}
use entid_go.Gen.Decode.Cases.{
  source_fields-LawfulField, identifier_fields-LawfulField, country_alias_fields-LawfulField,
  target_fields-LawfulField, dispatcher_fields-LawfulField, capture_fields-LawfulField,
  node_fields-LawfulField, program_fields-LawfulField, bundle_fields-LawfulField,
  operation_field-LawfulField,
}

-- From every state of the message under construction.
abbrev pub IsEnough {ℓ} : {M : Type ℓ} → Field M → ℕ → List ℕ → Reader → Type ℓ
IsEnough {M = M} field f seen r =
    (m : M) → Finishes field (m, seen) r (fields field (suc f) (m, seen) r)

-- The loop of every decoder ends. From every state of the message and every set of marks it has a finite
-- run, which takes no fuel: up to the end of the body, or to a tag or a field that is refused. And on fuel
-- for one round more than the bytes that are left, or for any more, the model gives the result of that run.
pub decoders-IsEnough :
    (f oneof : ℕ) (r : Reader) (seen : List ℕ)
    → length r.buf ≤ f + r.at
    → IsEnough (switch bundle_fields) f seen r
      × IsEnough (switch identifier_fields) f seen r
      × IsEnough (switch source_fields) f seen r
      × IsEnough (switch dispatcher_fields) f seen r
      × IsEnough country_alias_fields f seen r
      × IsEnough (switch target_fields) f seen r
      × IsEnough (switch program_fields) f seen r
      × IsEnough capture_fields f seen r
      × IsEnough (switch node_fields) f seen r
      × IsEnough (operation_field oneof) f seen r
decoders-IsEnough f oneof r seen left = (
  λ m. fields-Finishes _ bundle_fields-LawfulField f (m, seen) r left,
  λ m. fields-Finishes _ identifier_fields-LawfulField f (m, seen) r left,
  λ m. fields-Finishes _ source_fields-LawfulField f (m, seen) r left,
  λ m. fields-Finishes _ dispatcher_fields-LawfulField f (m, seen) r left,
  λ m. fields-Finishes _ country_alias_fields-LawfulField f (m, seen) r left,
  λ m. fields-Finishes _ target_fields-LawfulField f (m, seen) r left,
  λ m. fields-Finishes _ program_fields-LawfulField f (m, seen) r left,
  λ m. fields-Finishes _ capture_fields-LawfulField f (m, seen) r left,
  λ m. fields-Finishes _ node_fields-LawfulField f (m, seen) r left,
  λ m. fields-Finishes _ (operation_field-LawfulField oneof) f (m, seen) r left,
)
