-- ===== src/Lib.antt =====
-- entid validates and canonicalizes the identifiers of legal entities. This library models its engine:
-- the public calls, the dispatch and the validation pipeline, and the runtime primitives that the
-- generated rules are written in; and of the generator the wire
-- reader, the decoders, the loader with its checks of a rule bundle, the expressions of its nodes, the
-- statements of the canonicalizers, and the workspace that they are given.
--
-- The parts, and where they are modelled:
-- - entid.go, the public calls Canonicalize, ValidateFormat, ValidateChecksum, Validate and
--   Input.check: Engine/Pipeline.antt. The error ErrUnknownProfile is the answer `refused`.
-- - engine.go, routeUnder, route and evaluate: Engine.antt (dispatch, one function for each stage) and
--   Engine/Pipeline.antt (`evaluate`, cut at the byte limit, the unrouted value and the two rules).
-- - result.go, the types that the calls return: Result.antt, and Result/Names.antt for their String methods.
-- - internal/runtime/view.go, a string with a flag of presence: Runtime/View.antt, and
--   Runtime/View/Prefixes.antt for PrefixInSorted.
-- - internal/runtime/integer.go, checked int64 values: Runtime/Integer.antt, and
--   Runtime/Integer/Alphabet.antt for WeightedSumAlphabet. The wrap-around of int64
--   is written out by `wrap64` of Prelude/Words.antt.
-- - internal/runtime/checksum.go: Runtime/Checksum.antt.
-- - internal/runtime/buffer.go, the canonicalization workspace: Runtime/Buffer.antt, where every
--   operation takes the workspace and returns it, and Runtime/Ascii.antt for the functions on ASCII.
--   `none` stands for Go's panic on a slice out of range.
-- - internal/gen/protowire.go, the reader of the ruleset's messages: Wire.antt.
-- - internal/gen/limits.go, model.go and opcodes.go, the limits, the decoded bundle and the table of
--   operations: Gen/Limits.antt, Gen/Model.antt, Gen/Opcodes.antt with Opcodes/Specs and Opcodes/Tables.
-- - internal/gen/decode.go, the decoders: Gen/Decode.antt has the loop over the fields of a message and
--   what stands in front of a read (the wire type, the mark), and its children Operations, Messages,
--   Programs and Bundles have the cases of each decoder as a table from the field's number. The message
--   under construction is passed through the loop with the marks; Encoding has the Protobuf encoding of a
--   dispatcher, and Wire/Encoding.antt that of numbers and bodies, which the decoders are held against.
-- - internal/gen/load.go: Gen/Loader.antt for Load, one function for what follows each of its steps, and
--   Gen/Load.antt for checkVersions and the checks 6 to 25 of validator.run, with a
--   child for each pass: Tokens, Nodes, Bounds, Expansion, Programs, Definitions, Targets, Calls. A check
--   that can only refuse in one way is a Boolean; one that also records capabilities in use gives them.
-- - internal/gen/emit_programs.go: Gen/Steps.antt for emitSteps (the text that it writes is a value of
--   `Statement`, which `run` executes on a workspace), growth and sizeScratch; Gen/Prefixes.antt for the
--   groups of emitPrefixSets. Gen/Load/Accepted.antt and Gen/Steps/Accepted.antt take the passes of the
--   loader, and the loader and the generator, together.
-- - internal/gen/expr.go: Gen/Expr.antt, where the text of an expression is a value of one type for
--   strings, one for integers and one for booleans; `none` is the panic on a node that gives no such value.
-- - Go's unicode/utf8 and strings, as far as they are called: Utf8.antt and Prelude/Strings.antt. They
--   are written from the documentation of those packages.
--
-- How they interact: a public call routes its input and then runs the rules of the selected definition.
-- rules_gen.go, which is generated, is the record `Rules` of Engine.antt: one field for each of its
-- functions that the engine calls, and a parameter of every definition and theorem about the engine. A
-- canonicalizer takes a workspace and may fail, as the workspace operations may; dispatchers and
-- definitions are numbers.
--
-- A string is the list of its bytes. A loop is structural recursion on the bytes that it walks, or has
-- fuel: the loop of `filter`, the right end of TrimWhitespace and the decoding of code points get the
-- length of the text, and each round takes one byte or more; the binary search gets the length of its
-- list, and each round leaves a smaller range; the loop over a packed field gets the length of its body, and that
-- over the fields of a message one round more than its bytes.
-- The walks over the nodes of a program get its length, since operands stand before their node; the walk
-- over the calls gets one more than the number of programs, since those on a path are all different.
--
-- Not modelled: the generated rules themselves; the texts of the generator's errors; the emitters that
-- print formats, checksums and tables, and the Go names that they choose; and the commands under cmd. The condition of a
-- CANON_WHEN is an arbitrary function of the workspace.
pub mod Prelude
pub mod Utf8
pub mod Runtime
pub mod Result
pub mod Engine
pub mod Wire
pub mod Gen
mod Tests
