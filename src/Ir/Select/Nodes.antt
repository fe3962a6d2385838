-- ===== src/Ir/Select/Nodes.antt =====
-- What ir_expr and ir_cond of src/ir68k.c emit for one node, by the code of its operands, with ir_call,
-- ir_memzero and ir_indexed_load.
use Prim.Native.String.{String}
use c68k.Prelude.{
  ℕ, zero, suc, ◌+◌, ◌-◌, ◌*◌, ◌/◌, ◌%◌, Bool, true, false, not, ◌&&◌, ◌||◌, Option, none, some,
  leb, ◌==◌, if◌then◌else◌,
}
use c68k.Ctype.{TypeKind, ty_void, ty_bool, same_kind}
use c68k.Ir.Expr.{
  NodeKind, nd_add, nd_neg, nd_eq, nd_ne, nd_lt, nd_le, nd_bitnot, same_op, IrExpr, lea,
}
use c68k.Ir.Rel.{Rel, rel_of, rel_negate, rel_swap, bcc_mnem}
use c68k.Ir.Asm.{
  l_false, l_true, l_end, l_else, l_condskip, l_memzero, Label, numbered, Ea, d0, d1, a0, a1,
  ind_a1, ind_a0_d1, reg, imm, frame, sym, OpSize, size_b, size_w, size_l, andi_l, def_label, move,
  moveq, lea_a0, alu, cmp_l, tst_l, neg_l, not_l, scc, bcc, bra, jsr, push, pop, adda_sp, clr,
  clr_b_inc, dbra, Emit, emit, silent, with_uid, ◌>>◌, or_else,
}
use c68k.Ir.Select.{reg_is_addr, cast_int_narrow, emit_load_from_a0}

-- The code for a node: its value in D0 (ir_expr), a branch on its truth (ir_cond), and what
-- ir_indexed_load emits when the node is the address of a load.
pub record Code : Type 0 where
  pub value : Emit
  pub branch : Label → Bool → Emit
  pub index : Option Emit

-- the end of ir_cond: materialize the value and test it
unfoldable pub cond_value : Emit → Label → Bool → Emit
cond_value x label when = do x; emit tst_l; emit (bcc (if when then "bne" else "beq") label)

abbrev pub plain : Emit → Code
plain x = record { value = x; branch = cond_value x; index = none }

unfoldable pub ir_indexed_load : NodeKind → Bool → Bool → Emit → Emit → Option Emit
unfolding same_op
ir_indexed_load op ptradd simple_base left right =
    if same_op op nd_add && (ptradd && simple_base)
    then some (do
      right
      emit (move size_l d0 d1)
      left
      emit (move size_l d0 a0)
      emit (move size_l ind_a0_d1 d0))
    else none

-- `r` is lea_reg of the address.
unfoldable pub load_value : ℕ → ℕ → Bool → Code → Emit
load_value r size uns a =
    if not (r == 0)
    then emit (move size_l (reg r) d0)
    else or_else (if size == 4 then a.index else none)
        (do a.value; emit (move size_l d0 a0); emit_load_from_a0 size uns)

unfoldable pub store_direct : IrExpr → ℕ → Option (ℕ × Ea)
store_direct (lea is_local off name var) size =
    if leb size 4 then some (size, if is_local then frame off else sym name) else none
store_direct _ size = none

-- `direct` is the size and the operand of a direct store.
unfoldable pub store_value : ℕ → ℕ → Option (ℕ × Ea) → Emit → Emit → Emit
store_value r size direct a b =
    if not (r == 0) then (do b; emit (move size_l d0 (reg r))) else elim direct [
      | some (n, ea) ↦ (do
        b
        emit (move (if n == 1 then size_b else if n == 2 then size_w else size_l) d0 ea))
      | none ↦ (do
        a
        emit push
        b
        emit (pop a1)
        emit (move (if size == 1 then size_b else if size == 2 then size_w else size_l) d0 ind_a1))
    ]

unfoldable pub unary_code : NodeKind → Emit
unfolding same_op
unary_code op =
    if same_op op nd_neg
    then emit neg_l
    else if same_op op nd_bitnot
    then emit not_l
    else (do emit tst_l; emit (scc "seq"); emit (alu andi_l (imm 1)))

unfoldable pub cast_code : TypeKind → ℕ → Bool → Emit
cast_code op size uns =
    if same_kind op ty_void
    then silent
    else if same_kind op ty_bool
    then (do emit tst_l; emit (scc "sne"); emit (alu andi_l (imm 1)))
    else cast_int_narrow size uns

unfoldable pub logand_value : Emit → Emit → Emit
logand_value a b = with_uid λ c. do
  a
  emit tst_l
  emit (bcc "beq" (numbered l_false c))
  b
  emit tst_l
  emit (bcc "beq" (numbered l_false c))
  emit (moveq 1 d0)
  emit (bra (numbered l_end c))
  emit (def_label (numbered l_false c))
  emit (moveq 0 d0)
  emit (def_label (numbered l_end c))

unfoldable pub logor_value : Emit → Emit → Emit
logor_value a b = with_uid λ c. do
  a
  emit tst_l
  emit (bcc "bne" (numbered l_true c))
  b
  emit tst_l
  emit (bcc "bne" (numbered l_true c))
  emit (moveq 0 d0)
  emit (bra (numbered l_end c))
  emit (def_label (numbered l_true c))
  emit (moveq 1 d0)
  emit (def_label (numbered l_end c))

unfoldable pub select_value : (Label → Bool → Emit) → Emit → Emit → Emit
select_value a b c = with_uid λ n. do
  a (numbered l_else n) false
  b
  emit (bra (numbered l_end n))
  emit (def_label (numbered l_else n))
  c
  emit (def_label (numbered l_end n))

unfoldable pub cond_logand : (Label → Bool → Emit) → (Label → Bool → Emit) → Label → Bool → Emit
cond_logand a b label when =
    if when
    then with_uid (λ n. do
      a (numbered l_condskip n) false
      b label true
      emit (def_label (numbered l_condskip n)))
    else (do a label false; b label false)

unfoldable pub cond_logor : (Label → Bool → Emit) → (Label → Bool → Emit) → Label → Bool → Emit
cond_logor a b label when =
    if when
    then (do a label true; b label true)
    else with_uid (λ n. do
      a (numbered l_condskip n) true
      b label false
      emit (def_label (numbered l_condskip n)))

-- the comparison that ir_cond emits, and `base`
unfoldable pub compare_code :
    NodeKind → Option ℕ → Option ℕ → Option (Ea × ℕ) → Emit → Emit → Emit × Rel
compare_code op ca cb lval left right =
    let general : Emit × Rel =
      ((do right; emit push; left; emit (pop d1); emit (cmp_l d1)), rel_of op) in
    elim cb [
      | some c ↦ ((do left; emit (cmp_l (imm c))), rel_of op)
      | none ↦ elim ca [
        | some c ↦ ((do right; emit (cmp_l (imm c))), rel_swap (rel_of op))
        | none ↦ elim lval [
          | some (ea, size) ↦ if size == 4 then ((do left; emit (cmp_l ea)), rel_of op) else general
          | none ↦ general
        ]
      ]
    ]

abbrev pub is_comparison : NodeKind → Bool
is_comparison op = same_op op nd_eq || (same_op op nd_ne || (same_op op nd_lt || same_op op nd_le))

unfoldable pub cond_compare : Bool → Emit × Rel → Label → Bool → Emit
cond_compare u r label when = do
  r.0
  emit (bcc (bcc_mnem (if when then r.1 else rel_negate r.1) u) label)

unfoldable pub call_code : Emit → Ea → Emit → ℕ → Emit
call_code args target prepare nargs = do
  args
  prepare
  emit (jsr target nargs)
  (if nargs == 0 then silent else emit (adda_sp (nargs * 4)))

-- the `while` loop of ir_memzero, `k` rounds from `p` on
unfoldable pub clear_longs : ℕ → ℕ → ℕ → Emit
clear_longs zero off p = silent
clear_longs (suc k) off p = do
  emit (clr size_l (frame ((off + p) % 0x100000000)))
  clear_longs k off (p + 4)

-- `if (sz - p >= n)` behind the loop
abbrev pub clear_if : ℕ → OpSize → ℕ → ℕ → ℕ → Emit
clear_if n size off sz p =
    if leb n (sz - p) then emit (clr size (frame ((off + p) % 0x100000000))) else silent

unfoldable pub ir_memzero : ℕ → ℕ → ℕ → ℕ → Emit
ir_memzero opt_level r off sz =
    if not (r == 0)
    then (if reg_is_addr r then emit (move size_l (imm 0) (reg r)) else emit (moveq 0 (reg r)))
    else if leb 1 opt_level && (leb sz 16 && off % 2 == 0)
    then (do
      clear_longs (sz / 4) off 0
      clear_if 2 size_w off sz (sz / 4 * 4)
      clear_if 1 size_b off sz (sz / 2 * 2))
    else with_uid (λ c. do
      emit (lea_a0 (frame off))
      emit (move size_w (imm (sz - 1)) d1)
      emit (def_label (numbered l_memzero c))
      emit clr_b_inc
      emit (dbra (numbered l_memzero c)))

abbrev pub lea_value : Bool → ℕ → Option String → Emit
lea_value is_local off name = do
  emit (lea_a0 (if is_local then frame off else sym name))
  emit (move size_l a0 d0)

abbrev pub keep_reg : ℕ → Emit
keep_reg r = if r == 0 then silent else emit (move size_l d0 (reg r))

abbrev pub read_reg : ℕ → Emit
read_reg r = if r == 0 then silent else emit (move size_l (reg r) d0)
