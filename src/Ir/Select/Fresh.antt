-- ===== src/Ir/Select/Fresh.antt =====
-- ir_expr and ir_cond of src/ir68k.c define labels with numbers of their own only.
use c68k.Prelude.{ℕ, Bool, Option, none, some}
use c68k.Ir.Expr.{NodeKind, nd_add, nd_sub, nd_mul, nd_div, nd_mod, nd_shl, nd_shr}
use c68k.Ir.Asm.{Ea, Mnem, Emit}
use c68k.Ir.Asm.Fresh.{Fresh, FreshOption, skipped, Fresh-or_else, parts, numbered_parts}
use c68k.Ir.Select.{add_imm, shift_by, load_imm, cast_int_narrow, emit_load_from_a0}
use c68k.Ir.Select.Tiles.{
  ir_const_binop, ir_const_binop_left, ir_mem_binop, mem_tile, general_op, ir_binop, compare_with,
}

pub add_imm-Fresh : (c : ℕ) → Fresh (add_imm c)
unfolding add_imm
add_imm-Fresh c = search parts

shift_by-Fresh : (op : Mnem) (c : ℕ) → Fresh (shift_by op c)
unfolding shift_by
shift_by-Fresh op c = search parts

compare_with-Fresh : (ea : Ea) (cc : _) → Fresh (compare_with ea cc)
compare_with-Fresh ea cc = search parts

ir_const_binop-Fresh :
    (lev : ℕ) (op : NodeKind) (u : Bool) (x : Emit) (c : ℕ)
    → Fresh x
    → FreshOption (ir_const_binop lev op u x c)
unfolding ir_const_binop
ir_const_binop-Fresh lev nd_add u x c h = search (parts, add_imm-Fresh)
ir_const_binop-Fresh lev nd_sub u x c h = search (parts, add_imm-Fresh)
ir_const_binop-Fresh lev nd_mul u x c h = search (parts, shift_by-Fresh) depth 12
ir_const_binop-Fresh lev nd_div u x c h =
    search (parts, numbered_parts, add_imm-Fresh, shift_by-Fresh) depth 16
ir_const_binop-Fresh lev nd_mod u x c h = search (parts, numbered_parts) depth 20
ir_const_binop-Fresh lev nd_shl u x c h = search (parts, shift_by-Fresh)
ir_const_binop-Fresh lev nd_shr u x c h = search (parts, shift_by-Fresh)
ir_const_binop-Fresh lev _ u x c h = search parts depth 10

ir_const_binop_left-Fresh :
    (lev : ℕ) (op : NodeKind) (u : Bool) (x : Emit) (c : ℕ)
    → Fresh x
    → FreshOption (ir_const_binop_left lev op u x c)
unfolding ir_const_binop_left
ir_const_binop_left-Fresh lev op u x c h = search (parts, ir_const_binop-Fresh) depth 12

mem_tile-Fresh :
    (op : NodeKind) (u : Bool) (x : Emit) (ea : Ea) → Fresh x → FreshOption (mem_tile op u x ea)
unfolding mem_tile
mem_tile-Fresh nd_add u x ea h = search parts
mem_tile-Fresh _ u x ea h = search parts depth 10

ir_mem_binop-Fresh :
    (op : NodeKind) (u : Bool) (x : Emit) (lval : Option (Ea × ℕ))
    → Fresh x
    → FreshOption (ir_mem_binop op u x lval)
unfolding ir_mem_binop
ir_mem_binop-Fresh op u x none h = skipped
ir_mem_binop-Fresh op u x (some (ea, size)) h = search (parts, mem_tile-Fresh)

general_op-Fresh : (op : NodeKind) (u : Bool) → Fresh (general_op op u)
unfolding general_op
general_op-Fresh nd_add u = search parts
general_op-Fresh _ u = search parts

-- a tile for a constant that may not be there
on_const-Fresh :
    (f : ℕ → Option Emit) (c : Option ℕ)
    → ((n : ℕ) → FreshOption (f n))
    → FreshOption (elim c [ none ↦ none | some n ↦ f n ])
on_const-Fresh f none h = skipped
on_const-Fresh f (some n) h = h n

pub ir_binop-Fresh :
    (lev : ℕ) (op : NodeKind) (u : Bool) (ca cb : Option ℕ) (lval : Option (Ea × ℕ)) (x y : Emit)
    → Fresh x
    → Fresh y
    → Fresh (ir_binop lev op u ca cb lval x y)
unfolding ir_binop
ir_binop-Fresh lev op u ca cb lval x y hx hy =
    Fresh-or_else
      (on_const-Fresh (ir_const_binop lev op u x) cb (λ c. ir_const_binop-Fresh lev op u x c hx))
      (Fresh-or_else
        (on_const-Fresh (ir_const_binop_left lev op u y) ca
          (λ c. ir_const_binop_left-Fresh lev op u y c hy))
        (Fresh-or_else (ir_mem_binop-Fresh op u x lval hx)
          (search (parts, general_op-Fresh) depth 8)))

pub load_imm-Fresh : (val : ℕ) → Fresh (load_imm val)
unfolding load_imm
load_imm-Fresh val = search parts

pub cast_int_narrow-Fresh : (size : ℕ) (u : Bool) → Fresh (cast_int_narrow size u)
unfolding cast_int_narrow
cast_int_narrow-Fresh size u = search parts depth 8

pub emit_load_from_a0-Fresh : (size : ℕ) (u : Bool) → Fresh (emit_load_from_a0 size u)
unfolding emit_load_from_a0
emit_load_from_a0-Fresh size u = search parts depth 8
