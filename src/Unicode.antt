-- ===== src/Unicode.antt =====
-- src/unicode.c: UTF-8, the identifier characters and display widths.
-- A char is a byte below 256 and a pointer into a buffer is the list of bytes from there on, its NUL
-- included; a read past that is 0. Where the source calls error_at, which does not return, the
-- model answers `none`.
mod Ranges
pub mod Utf8
pub mod Classes
mod Tests
use Prim.Native.Nat.{bit_and, bit_or}
use c68k.Prelude.{
  ℕ, zero, suc, ◌+◌, ◌-◌, ◌*◌, ◌/◌, ◌%◌, ◌<◌, Bool, true, false, ◌&&◌, ◌||◌, Option, none, some,
  List, [], ◌∷◌, ltb, leb, ◌==◌, if◌then◌else◌, length,
}
use c68k.Unicode.Ranges.{ident1_range, ident2_range, zero_width_range, double_width_range}

-- The bytes written to `buf`; their number is the value returned.
unfoldable pub encode_utf8 : ℕ → List ℕ
encode_utf8 c =
    if leb c 0x7F
    then c ∷ []
    else if leb c 0x7FF
    then bit_or 0b11000000 (c / 64) % 256 ∷ bit_or 0b10000000 (bit_and c 0b00111111) % 256 ∷ []
    else if leb c 0xFFFF
    then bit_or 0b11100000 (c / 4096) % 256
      ∷ bit_or 0b10000000 (bit_and (c / 64) 0b00111111) % 256
      ∷ bit_or 0b10000000 (bit_and c 0b00111111) % 256
      ∷ []
    else bit_or 0b11110000 (c / 262144) % 256
      ∷ bit_or 0b10000000 (bit_and (c / 4096) 0b00111111) % 256
      ∷ bit_or 0b10000000 (bit_and (c / 64) 0b00111111) % 256
      ∷ bit_or 0b10000000 (bit_and c 0b00111111) % 256
      ∷ []

-- The loop over the continuation bytes, `n` of which are to come; the rest is the new position.
unfoldable pub continuation : ℕ → ℕ → List ℕ → Option (ℕ × List ℕ)
continuation zero c p = some (c, p)
continuation (suc n) c [] = none
continuation (suc n) c (b ∷ p) =
    let rest = continuation n (bit_or (c * 64 % 0x100000000) (bit_and b 0b111111)) p in
    if b / 64 == 0b10 then rest else none

unfoldable pub decode_utf8 : List ℕ → Option (ℕ × List ℕ)
unfolding continuation
decode_utf8 [] = some (0, [])
decode_utf8 (b ∷ p) =
    if ltb b 128
    then some (b, p)
    else if leb 0b11110000 b
    then continuation 3 (bit_and b 0b111) p
    else if leb 0b11100000 b
    then continuation 2 (bit_and b 0b1111) p
    else if leb 0b11000000 b
    then continuation 1 (bit_and b 0b11111) p
    else none

unfoldable pub in_range : List ℕ → ℕ → Bool
in_range (lo ∷ hi ∷ range) c =
    let rest = in_range range c in
    if lo == 0xFFFFFFFF then false else if leb lo c && leb c hi then true else rest
in_range _ c = false

unfoldable pub is_ident1 : ℕ → Bool
unfolding in_range ident1_range
is_ident1 c = in_range ident1_range c

unfoldable pub is_ident2 : ℕ → Bool
unfolding is_ident1 ident2_range
is_ident2 c = is_ident1 c || in_range ident2_range c

unfoldable pub char_width : ℕ → ℕ
unfolding in_range zero_width_range double_width_range
char_width c =
    if in_range zero_width_range c then 0 else if in_range double_width_range c then 2 else 1

-- The loop of display_width: `len` bytes are left and the width so far is `w`. A character takes
-- a byte at least, so `len` rounds are enough (`fuel` counts them). `none` is an invalid character.
unfoldable pub display_width_loop : ℕ → ℕ → List ℕ → ℕ → Option ℕ
display_width_loop zero len p w = some w
display_width_loop (suc fuel) len p w = if len == 0 then some w else elim (decode_utf8 p) [
  | none ↦ none
  | some (c, p') ↦ display_width_loop fuel (len - (length p - length p')) p' (w + char_width c)
]

unfoldable pub display_width : List ℕ → ℕ → Option ℕ
unfolding display_width_loop
display_width p len = display_width_loop len len p 0
