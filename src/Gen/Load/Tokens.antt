-- ===== src/Gen/Load/Tokens.antt =====
-- load.go: the shapes of tokens, of the rules version, and of an alphabet.
use entid_go.Prelude.{
  ℕ, Bool, true, false, not, ◌&&◌, ◌||◌, List, [], ◌∷◌, Option, none, some, leb, ◌==◌,
  if◌then◌else◌, length, get_or, drop, Bytes, all,
}
use entid_go.Utf8.{runes}
use entid_go.Runtime.View.{is_ascii_digit, is_ascii_upper, is_ascii_lower}
use entid_go.Gen.Limits.{max_rules_version_bytes, max_alphabet_points, member}

abbrev kind_byte : ℕ → Bool
kind_byte c = is_ascii_lower c || is_ascii_digit c || c == b'_' || c == b'-'

unfoldable pub valid_kind_token : Bytes → Bool
valid_kind_token s =
    not (length s == 0)
    && leb (length s) 64
    && is_ascii_lower (get_or s 0 0)
    && all kind_byte (drop 1 s)

unfoldable pub valid_country_token : Bytes → Bool
valid_country_token s =
    length s == 2 && is_ascii_upper (get_or s 0 0) && is_ascii_upper (get_or s 1 0)

abbrev prefix_byte : ℕ → Bool
prefix_byte c = is_ascii_upper c || is_ascii_digit c

unfoldable pub valid_prefix_token : Bytes → Bool
valid_prefix_token s = not (length s == 0) && leb (length s) 8 && all prefix_byte s

abbrev version_byte : ℕ → Bool
version_byte c =
    is_ascii_lower c || is_ascii_upper c || is_ascii_digit c || c == b'.' || c == b'-' || c == b'_'

unfoldable pub check_rules_version : Bytes → Bool
check_rules_version s =
    not (length s == 0) && leb (length s) max_rules_version_bytes && all version_byte s

-- The loop of `checkAlphabet`, with the code points seen so far.
unfoldable pub no_repeats : List ℕ → List (ℕ × Bytes) → Bool
no_repeats seen [] = true
no_repeats seen ((r, bs) ∷ ps) = if member r seen then false else no_repeats (r ∷ seen) ps

unfoldable pub check_alphabet : Option Bytes → Bool
unfolding no_repeats
check_alphabet none = false
check_alphabet (some alphabet) =
    not (length alphabet == 0)
    && no_repeats [] (runes alphabet)
    && leb (length (runes alphabet)) max_alphabet_points
