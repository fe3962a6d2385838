-- ===== src/Ir/Select/Expr/Fresh.antt =====
-- The labels in the code of ir_expr and ir_cond of src/ir68k.c.
use c68k.Prelude.{
  ℕ, zero, suc, ◌+◌, Bool, true, false, not, Option, none, some, ◌==◌, if◌then◌else◌, inl, inr,
  Bool-cases,
}
use c68k.Ctype.{TypeKind}
use c68k.Ir.Expr.{
  NodeKind, nd_not, same_op, IrExpr, Args, no_args, arg, nop, num, lea, load, store, binop, unary,
  logand, logor, cond, comma, cast, call, call_ptr, memzero, vdef, vuse,
}
use c68k.Ir.Rel.{Rel}
use c68k.Ir.Asm.{Label, Ea, d0, a0, size_l, move, push, Emit}
use c68k.Ir.Asm.Fresh.{
  Fresh, FreshOption, skipped, Fresh-silent, Fresh-emit, Fresh-seq, Fresh-if, FreshOption-if,
  Fresh-or_else, parts, numbered_parts,
}
use c68k.Ir.Select.{ie_const, ie_simple_lval}
use c68k.Ir.Select.Fresh.{
  ir_binop-Fresh, load_imm-Fresh, cast_int_narrow-Fresh, emit_load_from_a0-Fresh,
}
use c68k.Ir.Select.Nodes.{
  Code, cond_value, ir_indexed_load, load_value, store_value, unary_code, cast_code, logand_value,
  logor_value, select_value, cond_logand, cond_logor, is_comparison, compare_code, cond_compare,
  call_code, clear_longs, ir_memzero,
}
use c68k.Ir.Select.Expr.{ir_code, ir_expr, ir_cond, ir_args}

pub record FreshCode (c : Code) : Type 0 where
  pub value : Fresh c.value
  pub branch : (l : Label) (when : Bool) → Fresh (c.branch l when)
  pub index : FreshOption c.index

branch-if-Fresh :
    (b : Bool) (x y : Label → Bool → Emit) (l : Label) (w : Bool)
    → Fresh (x l w)
    → Fresh (y l w)
    → Fresh ((if b then x else y) l w)
branch-if-Fresh true x y l w hx hy = hx
branch-if-Fresh false x y l w hx hy = hy

cond_value-Fresh : (x : Emit) (l : Label) (when : Bool) → Fresh x → Fresh (cond_value x l when)
unfolding cond_value
cond_value-Fresh x l when h = search parts depth 10

plain-FreshCode :
    (x : Emit) → Fresh x → FreshCode (record { value = x; branch = cond_value x; index = none })
plain-FreshCode x h = record {
  value = h;
  branch = λ l w. cond_value-Fresh x l w h;
  index = skipped;
}

index-Fresh :
    (op : NodeKind) (p s : Bool) (x y : Emit)
    → Fresh x
    → Fresh y
    → FreshOption (ir_indexed_load op p s x y)
unfolding ir_indexed_load
index-Fresh op p s x y hx hy = search parts depth 12

load_value-Fresh :
    (r size : ℕ) (uns : Bool) (a : Code) → FreshCode a → Fresh (load_value r size uns a)
unfolding load_value
load_value-Fresh r size uns a h = Fresh-if (not (r == 0)) (search parts) (
    Fresh-or_else (FreshOption-if (size == 4) h.index skipped) (
      Fresh-seq h.value
        (Fresh-seq (Fresh-emit (move size_l d0 a0) tt) (emit_load_from_a0-Fresh size uns))))

store_value-Fresh :
    (r size : ℕ) (direct : Option (ℕ × Ea)) (a b : Emit)
    → Fresh a
    → Fresh b
    → Fresh (store_value r size direct a b)
unfolding store_value
store_value-Fresh r size none a b ha hb = search parts depth 12
store_value-Fresh r size (some (n, ea)) a b ha hb = search parts depth 12

unary_code-Fresh : (op : NodeKind) → Fresh (unary_code op)
unfolding unary_code
unary_code-Fresh op = search parts depth 10

cast_code-Fresh : (op : TypeKind) (size : ℕ) (u : Bool) → Fresh (cast_code op size u)
unfolding cast_code
cast_code-Fresh op size u = search (parts, cast_int_narrow-Fresh) depth 10

logand_value-Fresh : (a b : Emit) → Fresh a → Fresh b → Fresh (logand_value a b)
unfolding logand_value
logand_value-Fresh a b ha hb = search (Fresh-emit, tt, numbered_parts) depth 30

logor_value-Fresh : (a b : Emit) → Fresh a → Fresh b → Fresh (logor_value a b)
unfolding logor_value
logor_value-Fresh a b ha hb = search (Fresh-emit, tt, numbered_parts) depth 30

module _ (x : Label → Bool → Emit) (hx : (l : Label) (w : Bool) → Fresh (x l w)) where
  select_value-Fresh : (b c : Emit) → Fresh b → Fresh c → Fresh (select_value x b c)
  unfolding select_value
  select_value-Fresh b c hb hc = search (Fresh-emit, tt, numbered_parts, hx) depth 30

  cond_logand-Fresh :
      (y : Label → Bool → Emit)
      → ((l : Label) (w : Bool) → Fresh (y l w))
      → (l : Label) (w : Bool) → Fresh (cond_logand x y l w)
  unfolding cond_logand
  cond_logand-Fresh y hy l w = search (parts, numbered_parts, hx, hy) depth 20

  cond_logor-Fresh :
      (y : Label → Bool → Emit)
      → ((l : Label) (w : Bool) → Fresh (y l w))
      → (l : Label) (w : Bool) → Fresh (cond_logor x y l w)
  unfolding cond_logor
  cond_logor-Fresh y hy l w = search (parts, numbered_parts, hx, hy) depth 20

compare_code-Fresh :
    (op : NodeKind) (ca cb : Option ℕ) (lval : Option (Ea × ℕ)) (x y : Emit)
    → Fresh x
    → Fresh y
    → Fresh (compare_code op ca cb lval x y).0
unfolding compare_code
compare_code-Fresh op ca (some c) lval x y hx hy = search parts depth 12
compare_code-Fresh op (some c) none lval x y hx hy = search parts depth 12
compare_code-Fresh op none none none x y hx hy = search parts depth 12
compare_code-Fresh op none none (some (ea, size)) x y hx hy = elim (Bool-cases (size == 4)) [
  | inl e ↦ rw e (search parts depth 8)
  | inr e ↦ rw e (search parts depth 12)
]

cond_compare-Fresh :
    (u : Bool) (r : Emit × Rel) (l : Label) (w : Bool) → Fresh r.0 → Fresh (cond_compare u r l w)
unfolding cond_compare
cond_compare-Fresh u r l w h = search parts depth 12

call_code-Fresh :
    (args : Emit) (target : Ea) (x : Emit) (n : ℕ)
    → Fresh args
    → Fresh x
    → Fresh (call_code args target x n)
unfolding call_code
call_code-Fresh args target x n ha hx = search parts depth 12

clear_longs-Fresh : (k off p : ℕ) → Fresh (clear_longs k off p)
unfolding clear_longs
clear_longs-Fresh zero off p = Fresh-silent
clear_longs-Fresh (suc k) off p = Fresh-seq (Fresh-emit _ tt) (clear_longs-Fresh k off (p + 4))

ir_memzero-Fresh : (lev r off size : ℕ) → Fresh (ir_memzero lev r off size)
unfolding ir_memzero
ir_memzero-Fresh lev r off size = search (parts, numbered_parts, clear_longs-Fresh) depth 20

module _ (opt_level : ℕ) (var_reg vt_reg : ℕ → ℕ) where
  mutual
    unfolding ir_code

    pub ir_code-FreshCode : (e : IrExpr) → FreshCode (ir_code opt_level var_reg vt_reg e)
    ir_code-FreshCode nop = plain-FreshCode _ Fresh-silent
    ir_code-FreshCode (num val size uns) = plain-FreshCode _ (load_imm-Fresh val)
    ir_code-FreshCode (lea is_local off name var) = plain-FreshCode _ (search parts)
    ir_code-FreshCode (load a size uns) =
        plain-FreshCode _ (load_value-Fresh _ size uns _ (ir_code-FreshCode a))
    ir_code-FreshCode (store a b size uns) =
        plain-FreshCode _
          (store_value-Fresh _ size _ _ _ (ir_code-FreshCode a).value (ir_code-FreshCode b).value)
    ir_code-FreshCode (binop op a b size uns p) =
        let hx = (ir_code-FreshCode a).value in
        let hy = (ir_code-FreshCode b).value in
        let v =
          ir_binop-Fresh opt_level op uns (ie_const a) (ie_const b) (ie_simple_lval var_reg b) _ _
            hx hy in
        record {
          value = v;
          branch = λ l w.
              branch-if-Fresh (is_comparison op) _ _ l w
                (cond_compare-Fresh uns _ l w (
                  compare_code-Fresh op (ie_const a) (ie_const b) (ie_simple_lval var_reg b) _ _ hx
                    hy))
                (cond_value-Fresh _ l w v);
          index = index-Fresh op p _ _ _ hx hy;
        }
    ir_code-FreshCode (unary op a size uns) =
        let h = ir_code-FreshCode a in
        let v = Fresh-seq h.value (unary_code-Fresh op) in
        record {
          value = v;
          branch = λ l w.
              branch-if-Fresh (same_op op nd_not) _ _ l w (h.branch l (not w))
                (cond_value-Fresh _ l w v);
          index = skipped;
        }
    ir_code-FreshCode (logand a b) =
        let x = ir_code-FreshCode a in
        let y = ir_code-FreshCode b in
        record {
          value = logand_value-Fresh _ _ x.value y.value;
          branch = cond_logand-Fresh _ x.branch _ y.branch;
          index = skipped;
        }
    ir_code-FreshCode (logor a b) =
        let x = ir_code-FreshCode a in
        let y = ir_code-FreshCode b in
        record {
          value = logor_value-Fresh _ _ x.value y.value;
          branch = cond_logor-Fresh _ x.branch _ y.branch;
          index = skipped;
        }
    ir_code-FreshCode (cond a b c size uns) = plain-FreshCode _ (
        select_value-Fresh _ (ir_code-FreshCode a).branch _ _ (ir_code-FreshCode b).value
          (ir_code-FreshCode c).value)
    ir_code-FreshCode (comma a b size uns) =
        plain-FreshCode _ (Fresh-seq (ir_code-FreshCode a).value (ir_code-FreshCode b).value)
    ir_code-FreshCode (cast op a size uns f g) =
        plain-FreshCode _ (Fresh-seq (ir_code-FreshCode a).value (cast_code-Fresh op size uns))
    ir_code-FreshCode (call name args size uns) =
        plain-FreshCode _ (call_code-Fresh _ _ _ _ (ir_args-Fresh args) Fresh-silent)
    ir_code-FreshCode (call_ptr a args size uns) = plain-FreshCode _ (
        call_code-Fresh _ _ _ _ (ir_args-Fresh args)
          (Fresh-seq (ir_code-FreshCode a).value (Fresh-emit _ tt)))
    ir_code-FreshCode (memzero var off size) =
        plain-FreshCode _ (ir_memzero-Fresh opt_level (var_reg var) off size)
    ir_code-FreshCode (vdef vt a size) =
        plain-FreshCode _ (Fresh-seq (ir_code-FreshCode a).value (search parts))
    ir_code-FreshCode (vuse vt size) = plain-FreshCode _ (search parts)

    pub ir_args-Fresh : (es : Args) → Fresh (ir_args opt_level var_reg vt_reg es)
    ir_args-Fresh no_args = Fresh-silent
    ir_args-Fresh (arg e es) =
        Fresh-seq (ir_args-Fresh es) (Fresh-seq (ir_code-FreshCode e).value (Fresh-emit push tt))

  -- The code that ir_expr and ir_cond emit for an expression defines only labels with numbers that cg_uid
  -- gave out meanwhile, and cg_uid never counts back.
  pub ir_expr-ir_cond-Fresh :
      (e : IrExpr)
      → Fresh (ir_expr opt_level var_reg vt_reg e)
        × ((l : Label) (when : Bool) → Fresh (ir_cond opt_level var_reg vt_reg e l when))
  unfolding ir_expr ir_cond
  ir_expr-ir_cond-Fresh e = let h = ir_code-FreshCode e in (h.value, h.branch)
