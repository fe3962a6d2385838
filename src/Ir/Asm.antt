-- ===== src/Ir/Asm.antt =====
-- The lines of assembler that src/ir68k.c emits, as data, and the emission of lines: EMIT and the
-- counter of cg_uid (src/codegen68k.c). A label is what its format makes of a number, or the name of
-- an item's label. The format of a line is fixed by its constructor.
pub mod Cpu
pub mod Fresh
use Prim.Native.String.{String}
use text.Mathlib.Text.{◌==◌ as str_eq}
use c68k.Prelude.{ℕ, ◌+◌, Bool, true, false, ◌&&◌, Option, none, some, List, [], ◌∷◌, ◌++◌, ◌==◌}

-- `L_false_%d` and so on
pub data Family : Type 0 where
  l_false l_true l_end l_else l_condskip l_sdiv l_smod l_smodx l_memzero : Family

abbrev pub Family-discrete : Discrete Family
Family-discrete = hlevel

pub data Label : Type 0 where
  numbered : Family → ℕ → Label
  named : String → Label

unfoldable pub same_family : Family → Family → Bool
same_family f g = elim (Family-discrete f g) [ yes _ ↦ true | no _ ↦ false ]

unfoldable pub same_label : Label → Label → Bool
unfolding same_family
same_label (numbered f n) (numbered g k) = n == k && same_family f g
same_label (named s) (named t) = str_eq s t
same_label _ _ = false

-- Operands: `frame off` is `off(a6)`, `sym` a symbol, `ind_a0_d1` is `(a0,d1.l)`, and `reg` a register by
-- its code in Obj.reg. A negative displacement or immediate is its 32-bit pattern.
pub data Ea : Type 0 where
  d0 d1 a0 a1 ind_a0 ind_a1 ind_a0_d1 : Ea
  reg imm frame : ℕ → Ea
  sym : Option String → Ea

pub data OpSize : Type 0 where
  size_b size_w size_l : OpSize

-- The instructions with a source operand and D0 as the destination
pub data Mnem : Type 0 where
  add_l addq_l sub_l subq_l and_l andi_l or_l ori_l eor_l eori_l asl_l lsr_l asr_l : Mnem

-- `__mulsi3` and so on
pub data Helper : Type 0 where
  mulsi3 divsi3 modsi3 udivsi3 umodsi3 : Helper

pub data Insn : Type 0 where
  def_label : Label → Insn
  move : OpSize → Ea → Ea → Insn
  moveq : ℕ → Ea → Insn
  lea_a0 : Ea → Insn
  alu : Mnem → Ea → Insn
  cmp_l : Ea → Insn
  tst_l neg_l not_l ext_w ext_l : Insn
  scc : String → Insn
  bcc : String → Label → Insn
  bra : Label → Insn
  jsr_helper : Helper → Insn
  -- the target, and how many words the callee's prototype takes
  jsr : Ea → ℕ → Insn
  push : Insn
  pop : Ea → Insn
  adda_sp : ℕ → Insn
  clr : OpSize → Ea → Insn
  clr_b_inc : Insn
  dbra : Label → Insn

-- What emission appends to the output, from a value of the counter, and the counter behind it.
abbrev pub Emit : Type 0
Emit = ℕ → List Insn × ℕ

unfoldable pub emit : Insn → Emit
emit i n = (i ∷ [], n)

unfoldable pub silent : Emit
silent n = ([], n)

-- `int c = cg_uid();`
unfoldable pub with_uid : (ℕ → Emit) → Emit
with_uid f n = f n (n + 1)

infixl 5 ◌>>◌
unfoldable pub ◌>>◌ : Emit → Emit → Emit
◌>>◌ x y n = let p = x n in let q = y p.1 in (p.0 ++ q.0, q.1)

-- `if (f(e)) return;`, where f says whether it has emitted the code
abbrev pub or_else : Option Emit → Emit → Emit
or_else none y = y
or_else (some x) y = x
