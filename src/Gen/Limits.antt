-- ===== src/Gen/Limits.antt =====
-- internal/gen/limits.go: the structural and arithmetic limits, and the capabilities.
use entid_go.Prelude.{ℕ, ◌==◌, Bool, false, ◌||◌, List, [], ◌∷◌, Bytes, beq}
use entid_go.Result.{compatible, strict_current}

abbrev pub max_bundle_bytes : ℕ
max_bundle_bytes = 16777216

abbrev pub max_identifiers : ℕ
max_identifiers = 10000

abbrev pub max_total_nodes : ℕ
max_total_nodes = 500000

abbrev pub max_nodes_per_program : ℕ
max_nodes_per_program = 4096

abbrev pub max_call_depth : ℕ
max_call_depth = 32

abbrev pub max_constant_bytes : ℕ
max_constant_bytes = 4096

abbrev pub max_input_bytes : ℕ
max_input_bytes = 1024

abbrev pub max_captures_per_format : ℕ
max_captures_per_format = 128

abbrev pub max_steps : ℕ
max_steps = 100000

abbrev pub max_rules_version_bytes : ℕ
max_rules_version_bytes = 64

abbrev pub max_alphabet_points : ℕ
max_alphabet_points = 256

abbrev pub min_modulus : ℕ
min_modulus = 2

abbrev pub max_modulus : ℕ
max_modulus = 1000000000

abbrev pub max_weight_magnitude : ℕ
max_weight_magnitude = 1000000

abbrev pub min_weights : ℕ
min_weights = 1

abbrev pub max_weights : ℕ
max_weights = 256

abbrev pub min_remainder_values : ℕ
min_remainder_values = 1

abbrev pub max_remainder_values : ℕ
max_remainder_values = 1000000

abbrev pub max_slice_bound : ℕ
max_slice_bound = 4096

abbrev pub min_provable_digits : ℕ
min_provable_digits = 1

abbrev pub max_provable_digits : ℕ
max_provable_digits = 18

abbrev pub max_constant : ℕ
max_constant = 1000000000

abbrev pub supported_format_version : ℕ
supported_format_version = 1

abbrev pub feature_core_graph : ℕ
feature_core_graph = 1

abbrev pub feature_ascii_and_whitespace : ℕ
feature_ascii_and_whitespace = 2

abbrev pub feature_canonicalization_basic : ℕ
feature_canonicalization_basic = 3

abbrev pub feature_canonicalization_condition : ℕ
feature_canonicalization_condition = 4

abbrev pub feature_identifier_dispatch : ℕ
feature_identifier_dispatch = 5

abbrev pub feature_string_views : ℕ
feature_string_views = 10

abbrev pub feature_captures_and_calls : ℕ
feature_captures_and_calls = 11

abbrev pub feature_format_assertions : ℕ
feature_format_assertions = 20

abbrev pub feature_profiles : ℕ
feature_profiles = 21

abbrev pub feature_checksum_tristate : ℕ
feature_checksum_tristate = 30

abbrev pub feature_checksum_luhn : ℕ
feature_checksum_luhn = 31

abbrev pub feature_checksum_mod97 : ℕ
feature_checksum_mod97 = 32

abbrev pub feature_checksum_weighted : ℕ
feature_checksum_weighted = 33

abbrev pub feature_checksum_compare_constant : ℕ
feature_checksum_compare_constant = 34

abbrev pub feature_checksum_integer_predicate : ℕ
feature_checksum_integer_predicate = 35

abbrev pub feature_provenance : ℕ
feature_provenance = 40

abbrev pub feature_provenance_tier : ℕ
feature_provenance_tier = 41

abbrev pub feature_checksum_custom_alphabet : ℕ
feature_checksum_custom_alphabet = 42

abbrev pub supported_features : List ℕ
supported_features =
    feature_core_graph ∷ feature_ascii_and_whitespace ∷ feature_canonicalization_basic
    ∷ feature_canonicalization_condition ∷ feature_identifier_dispatch ∷ feature_string_views
    ∷ feature_captures_and_calls ∷ feature_format_assertions ∷ feature_profiles
    ∷ feature_checksum_tristate ∷ feature_checksum_luhn ∷ feature_checksum_mod97
    ∷ feature_checksum_weighted ∷ feature_checksum_compare_constant
    ∷ feature_checksum_integer_predicate ∷ feature_provenance ∷ feature_provenance_tier
    ∷ feature_checksum_custom_alphabet ∷ []

abbrev pub member : ℕ → List ℕ → Bool
member a [] = false
member a (x ∷ xs) = (x == a) || member a xs

abbrev pub supported_feature : ℕ → Bool
supported_feature id = member id supported_features

unfoldable pub valid_profile : Bytes → Bool
valid_profile name = beq name compatible || beq name strict_current
