-- ===== src/Elf/Buf/Words.antt =====
-- b16 and b32 of src/emit_elf.c: the bytes of a word.
use mathlib.Core.List.{append_assoc}
use c68k.Prelude.{ℕ, ◌+◌, ◌*◌, ◌/◌, ◌%◌, ◌^◌, ◌≡◌, refl, List, [], ◌∷◌, ◌++◌, length, arith}
use c68k.Elf.Buf.{Buf, b16, b32}
use c68k.Elf.Buf.Bounds.{b8-bytes}

-- The number that a list of bytes stands for, most significant first
abbrev pub big_endian : ℕ → List ℕ → ℕ
big_endian acc [] = acc
big_endian acc (b ∷ bs) = big_endian (acc * 256 + b) bs

b16-bytes : (b : Buf) (v : ℕ) → (b16 b v).bytes ≡ b.bytes ++ v / 256 % 256 ∷ v % 256 ∷ []
unfolding b16
b16-bytes b v = simp (b8-bytes, append_assoc)

b32-bytes :
    (b : Buf) (v : ℕ)
    → (b32 b v).bytes
      ≡ b.bytes ++ v / 16777216 % 256 ∷ v / 65536 % 256 ∷ v / 256 % 256 ∷ v % 256 ∷ []
unfolding b32
b32-bytes b v = simp (b8-bytes, append_assoc)

-- b16 and b32 append the low 16 and 32 bits of their argument in big-endian order.
pub b16-b32-big_endian :
    (b : Buf) (v : ℕ)
    → ((lo : List ℕ) × ((b16 b v).bytes ≡ b.bytes ++ lo)
        × (length lo ≡ 2)
        × (big_endian 0 lo ≡ v % 2 ^ 16))
      × ((lo : List ℕ) × ((b32 b v).bytes ≡ b.bytes ++ lo)
          × (length lo ≡ 4)
          × (big_endian 0 lo ≡ v % 2 ^ 32))
b16-b32-big_endian b v =
    ((_, b16-bytes b v, refl, omega arith), (_, b32-bytes b v, refl, omega arith))
