-- ===== src/Ir/Select/Tiles.antt =====
-- The tiles of a binary operator in src/ir68k.c: ir_const_binop, ir_const_binop_left, ir_mem_binop
-- and ir_binop. `none` is the answer false, with which a tile has emitted nothing.
pub mod Shifts
pub mod Constants
pub mod Operands
pub mod Right
pub mod Sides
pub mod Stacked
use Prim.Native.String.{String}
use c68k.Prelude.{
  ℕ, ◌+◌, ◌-◌, ◌%◌, Bool, true, false, not, ◌&&◌, ◌||◌, Option, none, some, ltb, leb, ◌==◌,
  if◌then◌else◌,
}
use c68k.Prelude.Word.{neg32, is_neg}
use c68k.Ir.Expr.{
  NodeKind, nd_add, nd_sub, nd_mul, nd_div, nd_mod, nd_bitand, nd_bitor, nd_bitxor, nd_shl, nd_shr,
  nd_eq, nd_ne, nd_lt, nd_le, same_op,
}
use c68k.Ir.Rel.{is_commutative}
use c68k.Ir.Asm.{
  Family, l_sdiv, l_smod, l_smodx, numbered, Ea, d0, d1, imm, size_l, Mnem, add_l, sub_l, and_l,
  andi_l, or_l, ori_l, eor_l, eori_l, asl_l, lsr_l, asr_l, Helper, mulsi3, divsi3, modsi3, udivsi3,
  umodsi3, def_label, move, moveq, alu, cmp_l, tst_l, neg_l, scc, bcc, bra, jsr_helper, push, pop,
  Emit, emit, silent, with_uid, ◌>>◌, or_else,
}
use c68k.Ir.Select.{is_pow2_32, ctz32, add_imm, shift_by}

-- the initialiser of `cc` for a comparison with the operands in order
unfoldable pub scc_mnem : NodeKind → Bool → String
unfolding same_op
scc_mnem op u =
    if same_op op nd_eq
    then "seq"
    else if same_op op nd_ne
    then "sne"
    else if same_op op nd_lt
    then (if u then "scs" else "slt")
    else if u
    then "sls"
    else "sle"

-- `cmp.l ea,d0`, the Scc, and `andi.l #1,d0`
abbrev pub compare_with : Ea → String → Emit
compare_with ea cc = do emit (cmp_l ea); emit (scc cc); emit (alu andi_l (imm 1))

-- `c` is 0, 1, -1 or a power of two.
abbrev pub easy_mul : ℕ → Emit
easy_mul c =
    if c == 0
    then emit (moveq 0 d0)
    else if c == 0xffffffff
    then emit neg_l
    else if not (c == 1)
    then shift_by asl_l (ctz32 c)
    else silent

abbrev const_mul : ℕ → Bool → Emit → ℕ → Option Emit
const_mul opt_level u operand c =
    if c == 0 || (c == 1 || (c == 0xffffffff || is_pow2_32 c))
    then some (do operand; easy_mul c)
    else if leb 2 opt_level && (leb 3 c && not (is_neg c))
    then (if is_pow2_32 (c - 1) && leb (ctz32 (c - 1)) 8
        then some (do
          operand
          emit (move size_l d0 d1)
          emit (alu asl_l (imm (ctz32 (c - 1))))
          emit (alu add_l d1))
        else if is_pow2_32 (c + 1) && leb (ctz32 (c + 1)) 8
        then some (do
          operand
          emit (move size_l d0 d1)
          emit (alu asl_l (imm (ctz32 (c + 1))))
          emit (alu sub_l d1))
        else none)
    else none

-- `!u && c >= 2 && is_pow2_32(uc)`, at -O2
abbrev pub signed_pow2 : ℕ → Bool → ℕ → Bool
signed_pow2 opt_level u c =
    leb 2 opt_level && (not u && (leb 2 c && (not (is_neg c) && is_pow2_32 c)))

abbrev const_div : ℕ → Bool → Emit → ℕ → Option Emit
const_div opt_level u operand c =
    if u && is_pow2_32 c
    then some (do operand; shift_by lsr_l (ctz32 c))
    else if signed_pow2 opt_level u c
    then some (
        with_uid λ lc. do
          operand
          emit tst_l
          emit (bcc "bpl" (numbered l_sdiv lc))
          add_imm (c - 1)
          emit (def_label (numbered l_sdiv lc))
          shift_by asr_l (ctz32 c))
    else none

abbrev const_mod : ℕ → Bool → Emit → ℕ → Option Emit
const_mod opt_level u operand c =
    if u && is_pow2_32 c
    then some (do operand; emit (alu andi_l (imm (c - 1))))
    else if signed_pow2 opt_level u c
    then some (
        with_uid λ lc. do
          operand
          emit tst_l
          emit (bcc "bpl" (numbered l_smod lc))
          emit neg_l
          emit (alu andi_l (imm (c - 1)))
          emit neg_l
          emit (bra (numbered l_smodx lc))
          emit (def_label (numbered l_smod lc))
          emit (alu andi_l (imm (c - 1)))
          emit (def_label (numbered l_smodx lc)))
    else none

unfoldable pub ir_const_binop : ℕ → NodeKind → Bool → Emit → ℕ → Option Emit
ir_const_binop opt_level nd_add u operand c = some (do operand; add_imm c)
ir_const_binop opt_level nd_sub u operand c = some (do operand; add_imm (neg32 c))
ir_const_binop opt_level nd_bitand u operand c = some (do operand; emit (alu andi_l (imm c)))
ir_const_binop opt_level nd_bitor u operand c = some (do operand; emit (alu ori_l (imm c)))
ir_const_binop opt_level nd_bitxor u operand c = some (do operand; emit (alu eori_l (imm c)))
ir_const_binop opt_level nd_eq u operand c =
    some (do operand; compare_with (imm c) (scc_mnem nd_eq u))
ir_const_binop opt_level nd_ne u operand c =
    some (do operand; compare_with (imm c) (scc_mnem nd_ne u))
ir_const_binop opt_level nd_lt u operand c =
    some (do operand; compare_with (imm c) (scc_mnem nd_lt u))
ir_const_binop opt_level nd_le u operand c =
    some (do operand; compare_with (imm c) (scc_mnem nd_le u))
ir_const_binop opt_level nd_shl u operand c =
    if ltb c 1 || ltb 31 c then none else some (do operand; shift_by asl_l c)
ir_const_binop opt_level nd_shr u operand c =
    if ltb c 1 || ltb 31 c then none else some (do operand; shift_by (if u then lsr_l else asr_l) c)
ir_const_binop opt_level nd_mul u operand c = const_mul opt_level u operand c
ir_const_binop opt_level nd_div u operand c = const_div opt_level u operand c
ir_const_binop opt_level nd_mod u operand c = const_mod opt_level u operand c
ir_const_binop opt_level _ u operand c = none

-- `operand` is the code of the right operand.
unfoldable pub ir_const_binop_left : ℕ → NodeKind → Bool → Emit → ℕ → Option Emit
ir_const_binop_left opt_level op u operand c =
    if is_commutative op
    then ir_const_binop opt_level op u operand c
    else if same_op op nd_lt
    then some (do operand; compare_with (imm c) (if u then "shi" else "sgt"))
    else if same_op op nd_le
    then some (do operand; compare_with (imm c) (if u then "shs" else "sge"))
    else none

-- the switch of ir_mem_binop
unfoldable pub mem_tile : NodeKind → Bool → Emit → Ea → Option Emit
mem_tile nd_add u operand ea = some (do operand; emit (alu add_l ea))
mem_tile nd_sub u operand ea = some (do operand; emit (alu sub_l ea))
mem_tile nd_bitand u operand ea = some (do operand; emit (alu and_l ea))
mem_tile nd_bitor u operand ea = some (do operand; emit (alu or_l ea))
mem_tile nd_eq u operand ea = some (do operand; compare_with ea (scc_mnem nd_eq u))
mem_tile nd_ne u operand ea = some (do operand; compare_with ea (scc_mnem nd_ne u))
mem_tile nd_lt u operand ea = some (do operand; compare_with ea (scc_mnem nd_lt u))
mem_tile nd_le u operand ea = some (do operand; compare_with ea (scc_mnem nd_le u))
mem_tile _ u operand ea = none

-- `lval` is what ie_simple_lval says of the right operand.
unfoldable pub ir_mem_binop : NodeKind → Bool → Emit → Option (Ea × ℕ) → Option Emit
ir_mem_binop op u operand none = none
ir_mem_binop op u operand (some (ea, size)) = if size == 4 then mem_tile op u operand ea else none

-- the switch behind `cg_pop("d1")`
unfoldable pub general_op : NodeKind → Bool → Emit
general_op nd_add u = emit (alu add_l d1)
general_op nd_sub u = emit (alu sub_l d1)
general_op nd_mul u = emit (jsr_helper mulsi3)
general_op nd_div u = emit (jsr_helper (if u then udivsi3 else divsi3))
general_op nd_mod u = emit (jsr_helper (if u then umodsi3 else modsi3))
general_op nd_bitand u = emit (alu and_l d1)
general_op nd_bitor u = emit (alu or_l d1)
general_op nd_bitxor u = emit (alu eor_l d1)
general_op nd_eq u = compare_with d1 (scc_mnem nd_eq u)
general_op nd_ne u = compare_with d1 (scc_mnem nd_ne u)
general_op nd_lt u = compare_with d1 (scc_mnem nd_lt u)
general_op nd_le u = compare_with d1 (scc_mnem nd_le u)
general_op nd_shl u = emit (alu asl_l d1)
general_op nd_shr u = emit (alu (if u then lsr_l else asr_l) d1)
general_op _ u = silent

-- `left` and `right` are the operands' code, `ca` and `cb` their values where ie_const has one.
unfoldable pub ir_binop :
    ℕ → NodeKind → Bool → Option ℕ → Option ℕ → Option (Ea × ℕ) → Emit → Emit → Emit
ir_binop opt_level op u ca cb lval left right =
    or_else (elim cb [ none ↦ none | some c ↦ ir_const_binop opt_level op u left c ])
      (or_else (elim ca [ none ↦ none | some c ↦ ir_const_binop_left opt_level op u right c ])
        (or_else (ir_mem_binop op u left lval)
          (do right; emit push; left; emit (pop d1); general_op op u)))
