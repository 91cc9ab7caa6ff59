-- ===== src/Runtime/Ascii.antt =====
-- internal/runtime/buffer.go: the ASCII functions that dispatch uses on the caller's tokens.
use entid_go.Prelude.{
  ℕ, zero, suc, ◌+◌, ◌-◌, Bool, not, ◌&&◌, ◌||◌, [], ◌∷◌, ltb, leb, ◌==◌, if◌then◌else◌, length,
  get_or, Bytes, slice, any, map,
}
use entid_go.Runtime.View.{is_ascii_upper, is_ascii_lower}

abbrev pub is_ascii_space : ℕ → Bool
is_ascii_space b = b == 0x20 || (leb 0x09 b && leb b 0x0d)

-- The first loop of `TrimASCII` counts up from 0, the second down from the end.
unfoldable pub trim_ascii_start : Bytes → ℕ
trim_ascii_start [] = 0
trim_ascii_start (b ∷ s) = let rest = trim_ascii_start s in if is_ascii_space b then suc rest else 0

unfoldable pub trim_ascii_end : Bytes → ℕ → ℕ → ℕ
trim_ascii_end s start zero = zero
trim_ascii_end s start (suc end) =
    let further = trim_ascii_end s start end in
    if ltb start (suc end) && is_ascii_space (get_or s end 0) then further else suc end

unfoldable pub trim_ascii : Bytes → Bytes
unfolding trim_ascii_start trim_ascii_end
trim_ascii s = let start = trim_ascii_start s in slice s start (trim_ascii_end s start (length s))

abbrev lower_byte : ℕ → ℕ
lower_byte b = if is_ascii_upper b then b + 32 else b

abbrev upper_byte : ℕ → ℕ
upper_byte b = if is_ascii_lower b then b - 32 else b

unfoldable pub lower_ascii : Bytes → Bytes
unfolding any
lower_ascii s = if not (any is_ascii_upper s) then s else map lower_byte s

unfoldable pub upper_ascii : Bytes → Bytes
unfolding any
upper_ascii s = if not (any is_ascii_lower s) then s else map upper_byte s
