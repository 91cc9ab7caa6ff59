-- ===== src/Tests/Buffers.antt =====
-- buffer.go on a concrete workspace.
use entid_go.Prelude.{
  ℕ, zero, suc, ◌+◌, ◌-◌, ◌*◌, ◌≤◌, ◌<◌, ◌≡◌, refl, Bool, true, false, not, List, [], ◌∷◌, ◌++◌,
  Option, none, some, arith, Bytes, codes, length, replicate, map, take, drop, ◌==◌,
}
use entid_go.Prelude.Int.{pos}
use entid_go.Utf8.{runes, rune_count}
use entid_go.Utf8.Points.{bytes_of}
use entid_go.Runtime.Buffer.{
  Buf, new, str, string, trim_whitespace, remove_whitespace, remove_chars, filter, upper_byte,
  uppercase_ascii, replace_prefix, prepend, append, insert, left_pad, ◌>>=◌,
}
use entid_go.Runtime.Buffer.Holds.{Holds}
use entid_go.Runtime.Buffer.Edges.{Yields, prepend_lem}
use entid_go.Runtime.Buffer.Filter.{kept, filter_lem}
use entid_go.Runtime.Buffer.Pad.{repeat, left_pad_lem}
use entid_go.Runtime.Buffer.Insert.{insert_lem}
use entid_go.Runtime.Buffer.Replace.{replace_prefix_lem}

-- "a b1" with four bytes before it and twelve behind.
abbrev text : Bytes
text = codes "a b1"

abbrev space : Buf
space = new text (replicate 20 0) 4

space-Holds : Holds space text 4 12
space-Holds = Holds.shares (record { in_input = refl; input = refl; margin = refl; room = refl })

abbrev not_space : ℕ → Bool
not_space c = not (c == 0x20)

trimmed :
    (trim_whitespace (new (codes "  x ") (replicate 9 0) 3) >>= λ w. some (str w))
    ≡ some (codes "x")
unfolding trim_whitespace str entid_go.Runtime.Buffer.trim_start runes
    entid_go.Runtime.Buffer.is_whitespace_v1 entid_go.Utf8.decode_rune entid_go.Runtime.Buffer.load
    entid_go.Runtime.Buffer.trim_end entid_go.Utf8.decode_last_rune
trimmed = refl

removed :
    (remove_chars (codes "-.") (new (codes "1-2.3") (replicate 9 0) 3) >>= λ w. some (str w))
    ≡ some (codes "123")
unfolding remove_chars filter str entid_go.Runtime.Buffer.first_cut runes entid_go.Utf8.decode_rune
    entid_go.Prelude.contains entid_go.Runtime.Buffer.load entid_go.Runtime.Buffer.compact
removed = refl

padded :
    (left_pad (pos 4) (codes "0") (new (codes "12") (replicate 9 0) 1) >>= λ w. some (str w))
    ≡ some (codes "0012")
unfolding left_pad str rune_count entid_go.Utf8.decode_rune entid_go.Runtime.Buffer.load
    entid_go.Runtime.Buffer.shift_left_edge entid_go.Runtime.Buffer.fill
padded = refl

-- A scratch that is too small is a panic.
crowded : prepend (codes "12345") (new (codes "x") (replicate 3 0) 1) ≡ none
unfolding prepend entid_go.Runtime.Buffer.load entid_go.Runtime.Buffer.shift_left_edge
crowded = refl

prepend_lem_example : Yields (prepend (codes "XX") space) (codes "XX" ++ text) 2 12
prepend_lem_example = prepend_lem space text (codes "XX") 4 12 space-Holds (omega arith)

replace_prefix_lem_example :
    Yields (replace_prefix (codes "a ") (codes "xyz") space) (codes "xyz" ++ codes "b1") 3 12
replace_prefix_lem_example =
    replace_prefix_lem space (codes "a ") (codes "xyz") (codes "b1") 4 12 space-Holds (omega arith)

filter_lem_example :
    Yields
      (filter not_space space)
      (kept not_space (runes text))
      4
      (12 + (4 - length (kept not_space (runes text))))
filter_lem_example = filter_lem not_space space text 4 12 space-Holds

left_pad_lem_example :
    Yields
      (left_pad (pos 6) (codes "0") space)
      (repeat (6 - rune_count text) (codes "0") ++ text)
      (4 - (6 - rune_count text) * 1)
      (12 - ((6 - rune_count text) * 1 - 4))
left_pad_lem_example = left_pad_lem space text (codes "0") 6 4 12 space-Holds (omega arith)

two_inside : 2 ≤ rune_count text
unfolding rune_count runes entid_go.Utf8.decode_rune
two_inside = omega arith

insert_lem_example :
    Yields
      (insert (pos 2) (codes "--") space)
      (bytes_of (take 2 (runes text)) ++ (codes "--" ++ bytes_of (drop 2 (runes text))))
      4
      10
insert_lem_example = insert_lem space text (codes "--") 2 4 12 space-Holds (omega arith) two_inside
