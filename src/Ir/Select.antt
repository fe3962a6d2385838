-- ===== src/Ir/Select.antt =====
-- The helpers of the instruction selection of src/ir68k.c: is_pow2_32, ctz32, add_imm, shift_by, the
-- tests on operands, load_imm, cast_int_narrow and emit_load_from_a0.
-- An int32_t is its bit pattern below 2 ^ 32. The code of a subexpression is passed as an `Emit`.
pub mod Tiles
pub mod Fresh
pub mod Powers
pub mod Nodes
pub mod Expr
mod Tests
use Prim.Native.Nat.{bit_and}
use c68k.Prelude.{
  ℕ, zero, suc, ◌+◌, ◌-◌, ◌/◌, ◌%◌, Bool, true, false, not, ◌&&◌, ◌||◌, Option, none, some, ltb,
  leb, ◌==◌, if◌then◌else◌,
}
use c68k.Prelude.Word.{neg32}
use c68k.Ctype.{tk_is_integer}
use c68k.Ir.Expr.{IrExpr, num, lea, load, cast}
use c68k.Ir.Asm.{
  Ea, d0, d1, ind_a0, reg, imm, frame, sym, size_b, size_w, size_l, Mnem, add_l, addq_l, subq_l,
  andi_l, move, moveq, alu, ext_w, ext_l, Emit, emit, silent, ◌>>◌,
}

unfoldable pub is_pow2_32 : ℕ → Bool
is_pow2_32 v = not (v == 0) && bit_and v (v - 1) == 0

-- the loop of ctz32, for a word that is not 0
unfoldable pub ctz_loop : ℕ → ℕ → ℕ → ℕ
ctz_loop zero v n = n
ctz_loop (suc fuel) v n = let rest = ctz_loop fuel (v / 2) (n + 1) in if v % 2 == 0 then rest else n

unfoldable pub ctz32 : ℕ → ℕ
unfolding ctz_loop
ctz32 v = ctz_loop 32 v 0

unfoldable pub add_imm : ℕ → Emit
add_imm c =
    if c == 0
    then silent
    else if leb 1 c && leb c 8
    then emit (alu addq_l (imm c))
    else if leb 0xfffffff8 c
    then emit (alu subq_l (imm (neg32 c)))
    else emit (alu add_l (imm c))

-- always on D0, with D1 as the scratch register
unfoldable pub shift_by : Mnem → ℕ → Emit
shift_by op count =
    if count == 0
    then silent
    else if leb count 8
    then emit (alu op (imm count))
    else (do emit (moveq count d1); emit (alu op d1))

unfoldable pub reg_is_addr : ℕ → Bool
reg_is_addr r = leb 8 r

-- `Obj.reg` by the variable's number, and 0 where the variable is in its frame slot
unfoldable pub lea_reg : (ℕ → ℕ) → IrExpr → ℕ
lea_reg var_reg (lea true off name var) = var_reg var
lea_reg var_reg _ = 0

unfoldable pub ie_const : IrExpr → Option ℕ
unfolding tk_is_integer
ie_const (num val size uns) = if ltb size 4 then none else some (val % 0x100000000)
ie_const (cast op a size uns fsize funs) =
    if tk_is_integer op && leb 4 size then ie_const a else none
ie_const _ = none

-- the operand text of a load of `size` bytes, and the size
unfoldable pub simple_ea : (ℕ → ℕ) → ℕ → IrExpr → Option (Ea × ℕ)
unfolding reg_is_addr
simple_ea var_reg size (lea is_local off name var) =
    let r = if is_local then var_reg var else 0 in
    if reg_is_addr r
    then none
    else if not (r == 0)
    then some (reg r, size)
    else some (if is_local then frame off else sym name, size)
simple_ea var_reg size _ = none

unfoldable pub ie_simple_lval : (ℕ → ℕ) → IrExpr → Option (Ea × ℕ)
unfolding simple_ea tk_is_integer
ie_simple_lval var_reg (load a size uns) = simple_ea var_reg size a
ie_simple_lval var_reg (cast op a size uns fsize funs) =
    if tk_is_integer op && size == 4 then ie_simple_lval var_reg a else none
ie_simple_lval var_reg _ = none

unfoldable pub is_lea : IrExpr → Bool
is_lea (lea is_local off name var) = true
is_lea _ = false

unfoldable pub ie_simple_var_base : IrExpr → Bool
unfolding is_lea
ie_simple_var_base (lea is_local off name var) = true
ie_simple_var_base (load a size uns) = is_lea a
ie_simple_var_base (cast op a size uns fsize funs) = ie_simple_var_base a
ie_simple_var_base _ = false

-- `val` is the 64-bit pattern; `move.l` takes its low 32 bits.
unfoldable pub load_imm : ℕ → Emit
load_imm val =
    if leb val 127 || leb 0xffffffffffffff80 val
    then emit (moveq (val % 0x100000000) d0)
    else emit (move size_l (imm (val % 0x100000000)) d0)

unfoldable pub cast_int_narrow : ℕ → Bool → Emit
cast_int_narrow size uns =
    if size == 1
    then (if uns then emit (alu andi_l (imm 255)) else (do emit ext_w; emit ext_l))
    else if size == 2
    then (if uns then emit (alu andi_l (imm 65535)) else emit ext_l)
    else silent

unfoldable pub emit_load_from_a0 : ℕ → Bool → Emit
emit_load_from_a0 size uns =
    if size == 1
    then (if uns
        then (do emit (moveq 0 d0); emit (move size_b ind_a0 d0))
        else (do emit (move size_b ind_a0 d0); emit ext_w; emit ext_l))
    else if size == 2
    then (if uns
        then (do emit (moveq 0 d0); emit (move size_w ind_a0 d0))
        else (do emit (move size_w ind_a0 d0); emit ext_l))
    else emit (move size_l ind_a0 d0)
