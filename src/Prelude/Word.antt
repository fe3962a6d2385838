-- ===== src/Prelude/Word.antt =====
-- 32-bit words as bit patterns below 2 ^ 32, with the two's-complement reading of C's int32_t.
use Prim.Native.Nat.{ℕ, ◌+◌, ◌-◌, ◌/◌, ◌%◌, ◌^◌, ◌<◌}
use mathlib.Core.Bool.{Bool, true, false}
use c68k.Prelude.Tests.{ltb, leb, same_bool, if◌then◌else◌}

abbrev pub IsWord : ℕ → Type 0
IsWord w = w < 2 ^ 32

-- the sign bit of an int32_t
abbrev pub is_neg : ℕ → Bool
is_neg w = leb 0x80000000 w

-- `-a` and `|a|` on 32 bits
abbrev pub neg32 : ℕ → ℕ
neg32 w = (0x100000000 - w) % 0x100000000

abbrev pub mag32 : ℕ → ℕ
mag32 w = if is_neg w then 0x100000000 - w else w

-- `a < b` on int32_t: the order of the patterns with the sign bit turned
abbrev pub slt32 : ℕ → ℕ → Bool
slt32 a b = ltb ((a + 0x80000000) % 0x100000000) ((b + 0x80000000) % 0x100000000)

abbrev pub sle32 : ℕ → ℕ → Bool
sle32 a b = leb ((a + 0x80000000) % 0x100000000) ((b + 0x80000000) % 0x100000000)

abbrev pub of_bool : Bool → ℕ
of_bool true = 1
of_bool false = 0

-- int32_t division and remainder, which truncate towards zero
abbrev pub sdiv32 : ℕ → ℕ → ℕ
sdiv32 a b = let q = mag32 a / mag32 b in if same_bool (is_neg a) (is_neg b) then q else neg32 q

abbrev pub smod32 : ℕ → ℕ → ℕ
smod32 a b = let r = mag32 a % mag32 b in if is_neg a then neg32 r else r

-- the arithmetic shift to the right, for a count below 32
abbrev pub sra32 : ℕ → ℕ → ℕ
sra32 a n = if is_neg a then a / 2 ^ n + (0x100000000 - 2 ^ (32 - n)) else a / 2 ^ n
