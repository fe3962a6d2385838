-- ===== src/Ir/Tests/Machine32.antt =====
-- A machine whose whole state is one word, for the examples: an instance of `IsMachine`.
use Prim.Native.Nat.{bit_and, bit_or, bit_xor}
use native.Mathlib.Nat.{div-lt_iff_lt-mul, div-le_self, mod-le}
use c68k.Prelude.{
  ℕ, ◌+◌, ◌-◌, ◌*◌, ◌/◌, ◌%◌, ◌^◌, ◌<◌, ◌≤◌, refl, sym, Bool, not, arith, ltb, leb, ◌==◌,
  if◌then◌else◌,
}
use mathlib.Core.Path.{subst}
use c68k.Prelude.{leb→le}
use c68k.Prelude.Tables.{all_below, all_below_sound}
use c68k.Prelude.Bits.{bit_and-lt, bit_or-lt, bit_xor-lt}
use c68k.Prelude.Word.{IsWord, mag32, sdiv32, smod32, sra32, slt32, sle32, of_bool}
use c68k.Ir.Expr.{
  NodeKind, nd_add, nd_sub, nd_mul, nd_div, nd_mod, nd_bitand, nd_bitor, nd_bitxor, nd_shl, nd_shr,
  nd_eq, nd_ne, nd_lt, nd_le,
}
use c68k.Ir.Meaning.{Machine, IsMachine}
use c68k.Ir.Select.Powers.{powers, power_pos}
use c68k.Ir.Words.{of_bool-IsWord}

abbrev raw_alu : NodeKind → Bool → ℕ → ℕ → ℕ
raw_alu nd_add u a b = a + b
raw_alu nd_sub u a b = a + 2 ^ 32 - b
raw_alu nd_mul u a b = a * b
raw_alu nd_div u a b = if u then a / b else sdiv32 a b
raw_alu nd_mod u a b = if u then a % b else smod32 a b
raw_alu nd_bitand u a b = bit_and a b
raw_alu nd_bitor u a b = bit_or a b
raw_alu nd_bitxor u a b = bit_xor a b
raw_alu nd_shl u a b = a * 2 ^ b
raw_alu nd_shr u a b = if u then a / 2 ^ b else sra32 a b
raw_alu nd_eq u a b = of_bool (a == b)
raw_alu nd_ne u a b = of_bool (not (a == b))
raw_alu nd_lt u a b = of_bool (if u then ltb a b else slt32 a b)
raw_alu nd_le u a b = of_bool (if u then leb a b else sle32 a b)
raw_alu _ u a b = 0

abbrev pub machine32 : Machine
machine32 = record {
  State = ℕ;
  junk = 0;
  address = λ local off name. off % 2 ^ 32;
  read = λ size uns p s. s % 2 ^ 32;
  write = λ size p v s. v;
  clear = λ off size s. 0;
  invoke = λ p args s. (0, s + 1);
  keep = λ t v s. s;
  kept = λ t s. s % 2 ^ 32;
  alu = λ op u a b. raw_alu op u a b % 2 ^ 32;
}

shifted_lt : (a n : ℕ) → IsWord a → n ≤ 31 → a / 2 ^ n < 2 ^ (32 - n)
shifted_lt a n h le =
    (div-lt_iff_lt-mul (power_pos n)).1 (subst (λ (p : ℕ). a < p) (sym (powers n le)) h)

power_le : (n : ℕ) → n ≤ 31 → 2 ^ (32 - n) ≤ 2 ^ 32
unfolding all_below
power_le n le =
    leb→le (2 ^ (32 - n)) (2 ^ 32)
      (all_below_sound 32 (λ (k : ℕ). leb (2 ^ (32 - k)) (2 ^ 32)) n refl (omega arith))

sra32-IsWord : (a n : ℕ) → IsWord a → n ≤ 31 → IsWord (sra32 a n)
sra32-IsWord a n h le = ground (arith, shifted_lt a n h le, power_le n le)

mag32-IsWord : (a : ℕ) → IsWord a → IsWord (mag32 a)
mag32-IsWord a h = ground arith

sdiv32-IsWord : (a b : ℕ) → IsWord a → IsWord b → IsWord (sdiv32 a b)
sdiv32-IsWord a b h h' =
    let below = div-le_self (mag32 a) (mag32 b) in ground (arith, mag32-IsWord a h)

smod32-IsWord : (a b : ℕ) → IsWord a → IsWord b → IsWord (smod32 a b)
smod32-IsWord a b h h' = let below = mod-le (mag32 a) (mag32 b) in ground (arith, mag32-IsWord a h)

pub machine32-IsMachine : IsMachine machine32
machine32-IsMachine = record {
  junk_word = omega arith;
  address_word = λ l o n. omega arith;
  read_word = λ size uns p s. omega arith;
  invoke_word = λ p vs s. omega arith;
  kept_word = λ t s. omega arith;
  alu_word = λ op u a b. omega arith;
  alu_add = λ u a b. refl;
  alu_sub = λ u a b. refl;
  alu_mul = λ u a b. refl;
  alu_and = λ u a b h h'. omega (arith, bit_and-lt 32 a b h);
  alu_or = λ u a b h h'. omega (arith, bit_or-lt 32 a b h h');
  alu_xor = λ u a b h h'. omega (arith, bit_xor-lt 32 a b h h');
  alu_udiv = λ a b h h' nz. omega (arith, div-le_self a b);
  alu_umod = λ a b h h' nz. omega (arith, mod-le a b);
  alu_sdiv = λ a b h h' nz r. omega (arith, sdiv32-IsWord a b h h');
  alu_smod = λ a b h h' nz r. omega (arith, smod32-IsWord a b h h');
  alu_shl = λ u a n le. refl;
  alu_shr = λ a n h le. omega (arith, div-le_self a (2 ^ n));
  alu_sar = λ a n h le. omega (arith, sra32-IsWord a n h le);
  alu_eq = λ u a b. omega (arith, of_bool-IsWord (a == b));
  alu_ne = λ u a b. omega (arith, of_bool-IsWord (not (a == b)));
  alu_ult = λ a b. omega (arith, of_bool-IsWord (ltb a b));
  alu_slt = λ a b. omega (arith, of_bool-IsWord (slt32 a b));
  alu_ule = λ a b. omega (arith, of_bool-IsWord (leb a b));
  alu_sle = λ a b. omega (arith, of_bool-IsWord (sle32 a b));
}
