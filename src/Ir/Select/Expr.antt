-- ===== src/Ir/Select/Expr.antt =====
-- ir_expr, ir_cond and ir_emit_item of src/ir68k.c on whole trees.
-- ir_expr and ir_cond call each other on the same node, so one recursion makes the code of both.
pub mod Fresh
pub mod Built
pub mod Control
pub mod Shortcuts
pub mod Conditions
pub mod Compares
pub mod Memory
pub mod Writes
pub mod Casts
pub mod Clears
pub mod Keeps
pub mod Indexed
pub mod Calls
pub mod Serves
pub mod Correct
pub mod Emitted
use Prim.Native.String.{String}
use c68k.Prelude.{
  ℕ, zero, suc, ◌+◌, ◌-◌, ◌*◌, ◌/◌, ◌%◌, Bool, true, false, not, ◌&&◌, ◌||◌, Option, none, some,
  ltb, leb, ◌==◌, if◌then◌else◌,
}
use c68k.Ctype.{TypeKind, ty_void, ty_bool, same_kind}
use c68k.Ir.Expr.{
  NodeKind, nd_add, nd_neg, nd_eq, nd_ne, nd_lt, nd_le, nd_not, nd_bitnot, same_op, IrExpr, Args,
  no_args, arg, nop, num, lea, load, store, binop, unary, logand, logor, cond, comma, cast, call,
  call_ptr, memzero, vdef, vuse,
}
use c68k.Ir.Rel.{Rel, rel_of, rel_negate, rel_swap, bcc_mnem}
use c68k.Ir.Items.{IrItem, ii_label, ii_jmp, ii_cbr, ii_eval, ii_ret, ii_nop}
use c68k.Ir.Asm.{
  l_false, l_true, l_end, l_else, l_condskip, l_memzero, Label, numbered, named, Ea, d0, d1, a0, a1,
  ind_a0, ind_a1, ind_a0_d1, reg, imm, frame, sym, OpSize, size_b, size_w, size_l, andi_l,
  def_label, move, moveq, lea_a0, alu, cmp_l, tst_l, neg_l, not_l, scc, bcc, bra, jsr, push, pop,
  adda_sp, clr, clr_b_inc, dbra, Emit, emit, silent, with_uid, ◌>>◌, or_else,
}
use c68k.Ir.Select.{
  reg_is_addr, lea_reg, ie_const, ie_simple_lval, is_lea, ie_simple_var_base, load_imm,
  cast_int_narrow, emit_load_from_a0,
}
use c68k.Ir.Select.Tiles.{ir_binop}
use c68k.Ir.Select.Nodes.{
  Code, cond_value, plain, ir_indexed_load, load_value, store_direct, store_value, unary_code,
  cast_code, logand_value, logor_value, select_value, cond_logand, cond_logor, compare_code,
  is_comparison, cond_compare, call_code, clear_longs, clear_if, ir_memzero, lea_value, keep_reg,
  read_reg,
}

-- `var_reg` and `vt_reg` are the registers of the variables and of the value temporaries.
module _ (opt_level : ℕ) (var_reg vt_reg : ℕ → ℕ) where
  unfoldable mutual
    pub ir_code : IrExpr → Code
    ir_code nop = plain silent
    ir_code (num val size uns) = plain (load_imm val)
    ir_code (lea is_local off name var) = plain (lea_value is_local off name)
    ir_code (load a size uns) = plain (load_value (lea_reg var_reg a) size uns (ir_code a))
    ir_code (store a b size uns) = plain (
        store_value (lea_reg var_reg a) size (store_direct a size) (ir_code a).value
          (ir_code b).value)
    ir_code (binop op a b size uns ptradd) =
        let left = (ir_code a).value in
        let right = (ir_code b).value in
        let lval = ie_simple_lval var_reg b in
        let x = ir_binop opt_level op uns (ie_const a) (ie_const b) lval left right in
        let cmp = compare_code op (ie_const a) (ie_const b) lval left right in
        record {
          value = x;
          branch = if is_comparison op then cond_compare uns cmp else cond_value x;
          index = ir_indexed_load op ptradd (ie_simple_var_base a) left right;
        }
    ir_code (unary op a size uns) =
        let x = ir_code a in
        let v : Emit = (do x.value; unary_code op) in
        record {
          value = v;
          branch =
              if same_op op nd_not then (λ label when. x.branch label (not when)) else cond_value v;
          index = none;
        }
    ir_code (logand a b) =
        let x = ir_code a in
        let y = ir_code b in
        record {
          value = logand_value x.value y.value;
          branch = cond_logand x.branch y.branch;
          index = none;
        }
    ir_code (logor a b) =
        let x = ir_code a in
        let y = ir_code b in
        record {
          value = logor_value x.value y.value;
          branch = cond_logor x.branch y.branch;
          index = none;
        }
    ir_code (cond a b c size uns) =
        plain (select_value (ir_code a).branch (ir_code b).value (ir_code c).value)
    ir_code (comma a b size uns) = plain (do (ir_code a).value; (ir_code b).value)
    ir_code (cast op a size uns fsize funs) = plain (do (ir_code a).value; cast_code op size uns)
    ir_code (call name args size uns) =
        plain (call_code (ir_args args) (sym (some name)) silent (count_args args))
    ir_code (call_ptr a args size uns) = plain (
        call_code (ir_args args) ind_a0 (do (ir_code a).value; emit (move size_l d0 a0))
          (count_args args))
    ir_code (memzero var off size) = plain (ir_memzero opt_level (var_reg var) off size)
    ir_code (vdef vt a size) = plain (do (ir_code a).value; keep_reg (vt_reg vt))
    ir_code (vuse vt size) = plain (read_reg (vt_reg vt))

    -- the loop of ir_call, from the last argument to the first
    pub ir_args : Args → Emit
    ir_args no_args = silent
    ir_args (arg e es) = do ir_args es; (ir_code e).value; emit push

    -- `e->nargs`
    pub count_args : Args → ℕ
    count_args no_args = 0
    count_args (arg e es) = count_args es + 1

  unfoldable pub ir_expr : IrExpr → Emit
  ir_expr e = (ir_code e).value

  unfoldable pub ir_cond : IrExpr → Label → Bool → Emit
  ir_cond e = (ir_code e).branch

  abbrev item_label : Option String → (Label → Emit) → Emit
  item_label none k = silent
  item_label (some l) k = k (named l)

  abbrev item_value : Option IrExpr → Emit
  item_value none = silent
  item_value (some e) = ir_expr e

  -- `return_label` is `L_return_` with the function's name.
  unfoldable pub ir_emit_item : Label → IrItem → Emit
  ir_emit_item return_label it = elim it.kind [
    | ii_label ↦ item_label it.label (λ l. emit (def_label l))
    | ii_nop ↦ silent
    | ii_jmp ↦ item_label it.label (λ l. emit (bra l))
    | ii_cbr ↦ elim it.e [ none ↦ silent | some e ↦ item_label it.label (λ l. ir_cond e l it.when) ]
    | ii_eval ↦ item_value it.e
    | ii_ret ↦ (do item_value it.e; emit (bra return_label))
  ]
