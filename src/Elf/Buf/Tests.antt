-- ===== src/Elf/Buf/Tests.antt =====
-- The theorems on the buffers at concrete bytes and numbers.
use c68k.Prelude.{ℕ, ◌%◌, ◌^◌, ◌<◌, ◌≡◌, refl, some, List, [], ◌∷◌, ◌++◌, length, replicate, arith}
use c68k.Elf.Buf.{Buf, b8, buf_align, uleb, sleb, patch32}
use c68k.Elf.Buf.Bounds.{padding, buf_align-bytes}
use c68k.Elf.Buf.Leb.{read_uleb, read_sleb, Appends, uleb-Appends, sleb-Appends}
use c68k.Elf.Buf.Patch.{word, patch32-bytes}
use c68k.Elf.Buf.Words.{big_endian}

-- a full buffer
abbrev full : Buf
full = record { bytes = 1 ∷ 2 ∷ 3 ∷ []; cap = 3 }

buf_align-bytes_example :
    ((buf_align full 8).bytes ≡ full.bytes ++ replicate (padding (length full.bytes) 8) 0)
    × (length (buf_align full 8).bytes % 8 ≡ 0)
    × (padding (length full.bytes) 8 < 8)
buf_align-bytes_example = buf_align-bytes full 8 (omega arith)

uleb-Appends_example : Appends read_uleb full (uleb full 624485) 10 624485
uleb-Appends_example = uleb-Appends full 624485 (omega arith)

abbrev text : List ℕ
text = 104 ∷ 105 ∷ []

abbrev unit : Buf
unit = record { bytes = 1 ∷ 2 ∷ 0 ∷ 0 ∷ 0 ∷ 0 ∷ 9 ∷ []; cap = 256 }

patch32-bytes_example :
    ((patch32 unit 2 0x12345678).bytes ≡ 1 ∷ 2 ∷ 0x12 ∷ 0x34 ∷ 0x56 ∷ 0x78 ∷ 9 ∷ [])
    × (big_endian 0 (word 0x12345678) ≡ 0x12345678 % 2 ^ 32)
patch32-bytes_example = patch32-bytes unit (1 ∷ 2 ∷ []) (9 ∷ []) 0 0 0 0 0x12345678 refl

-- -123456
sleb-Appends_example : Appends read_sleb full (sleb full 0xfffffffffffe1dc0) 10 0xfffffffffffe1dc0
sleb-Appends_example = sleb-Appends full 0xfffffffffffe1dc0 (omega arith)

uleb_624485 : uleb full 624485 ≡ some (b8 (b8 (b8 full 0xe5) 0x8e) 0x26)
unfolding uleb
uleb_624485 = refl

sleb_123456 : sleb full 0xfffffffffffe1dc0 ≡ some (b8 (b8 (b8 full 0xc0) 0xbb) 0x78)
unfolding sleb
sleb_123456 = refl
