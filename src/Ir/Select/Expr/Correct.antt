-- ===== src/Ir/Select/Expr/Correct.antt =====
-- ir_expr, ir_cond and ir_call of src/ir68k.c on a whole expression.
use c68k.Prelude.{ℕ, ◌≤◌, ◌≡◌, refl, Bool, not, List, ◌++◌, ◌==◌, ==_iff}
use c68k.Prelude.Word.{IsWord}
use c68k.Ir.Expr.{
  nd_not, same_op, same_op→eq, IrExpr, Args, no_args, arg, nop, num, lea, load, store, binop, unary,
  logand, logor, cond, comma, cast, call, call_ptr, memzero, vdef, vuse,
}
use c68k.Ir.Meaning.{Machine, IsMachine}
use c68k.Ir.Evaluates.{
  Evaluates, EvaluatesArgs, of_nop, right_first, left_first, of_no_args, of_arg,
}
use c68k.Ir.Asm.{Label, silent}
use c68k.Ir.Asm.Fresh.{Below}
use c68k.Ir.Asm.Cpu.{Registers, Cpu}
use c68k.Ir.Asm.Cpu.Layout.{IsLayout}
use c68k.Ir.Asm.Cpu.Parts.{Reaches, Reaches-silent}
use c68k.Ir.Select.{ie_const, ie_simple_lval, ie_simple_var_base}
use c68k.Ir.Select.Tiles.Operands.{Delivers, skipped, Emits-if}
use c68k.Ir.Select.Tiles.Stacked.{ir_binop-Delivers}
use c68k.Ir.Select.Nodes.{is_comparison}
use c68k.Ir.Select.Expr.{ir_code, ir_args, count_args, ir_expr, ir_cond}
use c68k.Ir.Select.Expr.Fresh.{ir_code-FreshCode}
use c68k.Ir.Select.Expr.Built.{IsBuilt, IsBuiltArgs, ie_const-ConstOf, ie_simple_lval-PlaceOf}
use c68k.Ir.Select.Expr.Control.{Tests, Truth, Branches, cond_value-Tests}
use c68k.Ir.Select.Expr.Shortcuts.{
  logand_value-Delivers, logor_value-Delivers, select_value-Delivers,
}
use c68k.Ir.Select.Expr.Conditions.{cond_logand-Tests, cond_logor-Tests}
use c68k.Ir.Select.Expr.Compares.{is_comparison-IsComparison, cond_compare-Tests}
use c68k.Ir.Select.Expr.Memory.{load_imm-Delivers, lea_value-Delivers, load_value-Delivers}
use c68k.Ir.Select.Expr.Writes.{store_value-Delivers, vdef-Delivers, vuse-Delivers}
use c68k.Ir.Select.Expr.Casts.{unary_code-Delivers, cast_code-Delivers}
use c68k.Ir.Select.Expr.Clears.{ir_memzero-Delivers}
use c68k.Ir.Select.Expr.Calls.{
  length, Pushes, Pushes-none, Pushes-arg, call-Delivers, call_ptr-Delivers,
}
use c68k.Ir.Select.Expr.Indexed.{ir_indexed_load-Emits}
use c68k.Ir.Select.Expr.Keeps.{simple_base-Keeps}
use c68k.Ir.Select.Expr.Serves.{Serves, plain-Serves, Tests-if, Tests-not, comma-Delivers}

module _ (m : Machine) (regs : Registers m) (laws : IsMachine m) where
  module _ (var_reg vt_reg offset : ℕ → ℕ) (layout : IsLayout m regs var_reg vt_reg offset)
      (lev : ℕ) (optimizes : 1 ≤ lev) where
    mutual
      unfolding ir_code IsBuilt

      pub ir_code-Serves :
          (e : IrExpr)
          → IsBuilt var_reg vt_reg offset e
          → Serves m regs laws e (ir_code lev var_reg vt_reg e)
      ir_code-Serves nop h =
          plain-Serves m regs laws nop silent
            (record { run = λ n cpu hw. Reaches-silent m regs (of_nop cpu.mem cpu.d0, hw, refl) })
      ir_code-Serves (num val size uns) h =
          plain-Serves m regs laws _ _
            (load_imm-Delivers var_reg vt_reg offset m regs laws layout val size uns)
      ir_code-Serves (lea l off name var) h =
          plain-Serves m regs laws _ _
            (lea_value-Delivers var_reg vt_reg offset m regs laws layout l off name var h)
      ir_code-Serves (load a size uns) h =
          let x = ir_code-Serves a h.0 in
          plain-Serves m regs laws _ _ (
            load_value-Delivers var_reg vt_reg offset m regs laws layout a size uns _ h.0 h.1 h.2
              x.value
              (Emits-if m regs laws (size == 4) (λ e. x.index size uns ((==_iff size 4).0 e))
                (λ _. skipped)))
      ir_code-Serves (store a b size uns) h = plain-Serves m regs laws _ _ (
          store_value-Delivers var_reg vt_reg offset m regs laws layout b size uns _
            (ir_code-Serves b h.1).value h.2 a _ h.0 h.3 (ir_code-Serves a h.0).value)
      ir_code-Serves (binop op a b size uns p) h =
          let x = (ir_code-Serves a h.0).value in
          let y = (ir_code-Serves b h.1).value in
          let ca = ie_const-ConstOf var_reg vt_reg offset m regs laws layout a h.0 in
          let cb = ie_const-ConstOf var_reg vt_reg offset m regs laws layout b h.1 in
          let lval = ie_simple_lval-PlaceOf var_reg vt_reg offset m regs laws layout b h.1 in
          let value =
            ir_binop-Delivers m regs laws layout.shl_any (Evaluates m a) (Evaluates m b)
              (Evaluates m (binop op a b size uns p)) op uns _ _ x y
              (ir_code-FreshCode lev var_reg vt_reg a).value
              (ir_code-FreshCode lev var_reg vt_reg b).value h.2
              (λ s s' s'' v w r q. right_first op size uns p r q)
              (λ s s' s'' v w r q. left_first op size uns p r q) lev (ie_const a) (ie_const b)
              (ie_simple_lval var_reg b) ca cb lval in
          record {
            value = value;
            branch =
                Tests-if m regs laws (is_comparison op)
                  (λ e.
                    cond_compare-Tests m regs laws (Evaluates m a) (Evaluates m b)
                      (Evaluates m (binop op a b size uns p)) op uns _ _ x y
                      (is_comparison-IsComparison op e)
                      (λ s s' s'' v w r q. right_first op size uns p r q)
                      (λ s s' s'' v w r q. left_first op size uns p r q) (ie_const a) (ie_const b)
                      (ie_simple_lval var_reg b) ca cb lval)
                  (cond_value-Tests m regs laws value);
            index = λ lsize luns four.
                ir_indexed_load-Emits m regs laws var_reg vt_reg offset layout op a b size uns p
                  lsize luns (ie_simple_var_base a) _ _ four x y
                  (simple_base-Keeps m regs lev var_reg vt_reg a);
          }
      ir_code-Serves (unary op a size uns) h =
          let x = ir_code-Serves a h in
          let value = unary_code-Delivers m regs laws op a size uns x.value in
          record {
            value = value;
            branch =
                Tests-if m regs laws (same_op op nd_not)
                  (λ e. Tests-not m regs laws a op size uns (same_op→eq op nd_not e) x.branch)
                  (cond_value-Tests m regs laws value);
            index = λ size uns four. skipped;
          }
      ir_code-Serves (logand a b) h =
          let x = ir_code-Serves a h.0 in
          let y = ir_code-Serves b h.1 in
          let fx = ir_code-FreshCode lev var_reg vt_reg a in
          let fy = ir_code-FreshCode lev var_reg vt_reg b in
          record {
            value = logand_value-Delivers m regs laws x.value y.value fy.value fx.value;
            branch = cond_logand-Tests m regs laws x.branch y.branch fx.branch fy.branch;
            index = λ size uns four. skipped;
          }
      ir_code-Serves (logor a b) h =
          let x = ir_code-Serves a h.0 in
          let y = ir_code-Serves b h.1 in
          let fx = ir_code-FreshCode lev var_reg vt_reg a in
          let fy = ir_code-FreshCode lev var_reg vt_reg b in
          record {
            value = logor_value-Delivers m regs laws x.value y.value fy.value fx.value;
            branch = cond_logor-Tests m regs laws x.branch y.branch fx.branch fy.branch;
            index = λ size uns four. skipped;
          }
      ir_code-Serves (cond a b c size uns) h =
          let fresh = ir_code-FreshCode lev var_reg vt_reg in
          plain-Serves m regs laws _ _ (
            select_value-Delivers m regs laws (ir_code-Serves b h.1).value
              (ir_code-Serves c h.2).value (fresh c).value (fresh b).value size uns
              (ir_code-Serves a h.0).branch (fresh a).branch)
      ir_code-Serves (comma a b size uns) h = plain-Serves m regs laws _ _ (
          comma-Delivers m regs laws a b size uns (ir_code-Serves a h.0).value
            (ir_code-Serves b h.1).value)
      ir_code-Serves (cast op a size uns fsize funs) h =
          plain-Serves m regs laws _ _
            (cast_code-Delivers m regs laws op a size uns fsize funs (ir_code-Serves a h.0).value)
      ir_code-Serves (call name es size uns) h = plain-Serves m regs laws _ _ (
          call-Delivers m regs laws name es size uns (count_args lev var_reg vt_reg es) _
            (ir_args-Pushes es h))
      ir_code-Serves (call_ptr a es size uns) h = plain-Serves m regs laws _ _ (
          call_ptr-Delivers m regs laws a es size uns (count_args lev var_reg vt_reg es) _ _
            (ir_args-Pushes es h.1) (ir_code-Serves a h.0).value)
      ir_code-Serves (memzero var off size) h = plain-Serves m regs laws _ _ (
          ir_memzero-Delivers var_reg vt_reg offset m regs laws layout lev var off size optimizes
            h.0 h.1 h.3 h.4)
      ir_code-Serves (vdef vt a size) h = plain-Serves m regs laws _ _ (
          vdef-Delivers var_reg vt_reg offset m regs laws layout a vt size _ h.1
            (ir_code-Serves a h.0).value)
      ir_code-Serves (vuse vt size) h =
          plain-Serves m regs laws _ _
            (vuse-Delivers var_reg vt_reg offset m regs laws layout vt size h)

      ir_args-Pushes :
          (es : Args)
          → IsBuiltArgs var_reg vt_reg offset es
          → Pushes m regs laws
              (EvaluatesArgs m es)
              (count_args lev var_reg vt_reg es)
              (ir_args lev var_reg vt_reg es)
      ir_args-Pushes no_args h = Pushes-none m regs laws of_no_args
      ir_args-Pushes (arg e es) h =
          Pushes-arg m regs laws (λ s s' s'' vs v r q. of_arg r q) (ir_args-Pushes es h.1)
            (ir_code-Serves e h.0).value

    -- The code of ir_expr runs to its end, with a value of the expression in D0, the state as the
    -- evaluation leaves it, and the stack as it was.
    pub ir_expr-Delivers :
        (e : IrExpr)
        → IsBuilt var_reg vt_reg offset e
        → Delivers m regs laws (Evaluates m e) (ir_expr lev var_reg vt_reg e)
    unfolding ir_expr
    ir_expr-Delivers e h = (ir_code-Serves e h).value

    -- The code of ir_cond branches to the label, which is not one of its own, exactly when the truth of the
    -- expression is the one asked for, and runs to its end when it is not.
    pub ir_cond-Tests :
        (e : IrExpr)
        → IsBuilt var_reg vt_reg offset e
        → Tests m regs laws (Evaluates m e) (ir_cond lev var_reg vt_reg e)
    unfolding ir_cond
    ir_cond-Tests e h = (ir_code-Serves e h).branch

    -- From -O1 on and with a word in D0, the code that ir_expr emits for an expression as the builder makes
    -- it, with its value temporaries in registers and no memzero that takes a loop, runs to its end, whatever tiles it takes: D0 and the state are
    -- then a value of the expression and the state behind its evaluation, and the stack is as it was.
    pub ir_expr-Evaluates :
        (e : IrExpr)
        → IsBuilt var_reg vt_reg offset e
        → (n : ℕ) (cpu : Cpu m.State) → IsWord cpu.d0
        → Reaches m regs n
            (ir_expr lev var_reg vt_reg e)
            cpu
            (λ c. Evaluates m e cpu.mem c.d0 c.mem × IsWord c.d0 × (c.stack ≡ cpu.stack))
    ir_expr-Evaluates e h n cpu hw = (ir_expr-Delivers e h).run n cpu hw

    -- From -O1 on and with a word in D0, the code that ir_cond emits for an expression as the builder makes
    -- it, with its value temporaries in registers and no memzero that takes a loop, branches to a label that is below the counter where the
    -- expression's truth is `when`, and runs to its end where it is not; the state is then the one
    -- behind the evaluation, and the stack as it was.
    pub ir_cond-Branches :
        (e : IrExpr)
        → IsBuilt var_reg vt_reg offset e
        → (n : ℕ) (l : Label) (when : Bool) (cpu : Cpu m.State) → IsWord cpu.d0
        → Below l n
        → Branches m regs laws n
            (ir_cond lev var_reg vt_reg e l when)
            l
            cpu
            (Truth m regs laws (Evaluates m e) when cpu)
            (Truth m regs laws (Evaluates m e) (not when) cpu)
    ir_cond-Branches e h n l when cpu hw below = (ir_cond-Tests e h).run n l when cpu hw below

    -- From -O1 on and with a word in D0, the argument code of ir_call runs to its end for arguments as the
    -- builder makes them, with their value temporaries in registers and no memzero that takes a loop: their values, computed from the last to the
    -- first, are on the stack with the first on top, as many as `nargs` counts.
    pub ir_args-EvaluatesArgs :
        (es : Args)
        → IsBuiltArgs var_reg vt_reg offset es
        → (n : ℕ) (cpu : Cpu m.State) → IsWord cpu.d0
        → Reaches m regs n (ir_args lev var_reg vt_reg es) cpu (λ c.
          (vs : List ℕ) × EvaluatesArgs m es cpu.mem vs c.mem
          × (c.stack ≡ vs ++ cpu.stack)
          × (length vs ≡ count_args lev var_reg vt_reg es)
          × IsWord c.d0)
    ir_args-EvaluatesArgs es h n cpu hw = (ir_args-Pushes es h).run n cpu hw
