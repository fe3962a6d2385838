-- ===== src/Ir/Select/Expr/Indexed.antt =====
-- ir_indexed_load of src/ir68k.c: the index waits in D1, which the code for a variable, the base, leaves alone.
use c68k.Prelude.{ℕ, ◌+◌, ◌%◌, ◌≡◌, refl, sym, ap, ◌∙◌, Bool, true, ◌&&◌, some}
use mathlib.Core.Bool.{and-eq-true_iff}
use mathlib.Core.Path.{subst}
use c68k.Prelude.Word.{IsWord}
use c68k.Ir.Expr.{NodeKind, nd_add, same_op, same_op→eq, IrExpr, load, binop}
use c68k.Ir.Meaning.{Machine, IsMachine}
use c68k.Ir.Evaluates.{Evaluates, of_load, right_first}
use c68k.Ir.Asm.{d0, d1, a0, ind_a0_d1, size_l, move, Emit, emit, ◌>>◌}
use c68k.Ir.Asm.Cpu.{Registers, Cpu, at, step}
use c68k.Ir.Asm.Cpu.Layout.{IsLayout}
use c68k.Ir.Asm.Cpu.Parts.{Reaches, Reaches-seq}
use c68k.Ir.Asm.Cpu.Values.{Reaches-emit, Reaches-line}
use c68k.Ir.Select.Tiles.Operands.{Delivers, Emits, skipped, emitted, Emits-if}
use c68k.Ir.Select.Nodes.{ir_indexed_load}
use c68k.Ir.Select.Expr.Keeps.{HasD1, Keeps}

module _ (m : Machine) (regs : Registers m) where
  module _ (laws : IsMachine m) (var_reg vt_reg offset : ℕ → ℕ)
      (layout : IsLayout m regs var_reg vt_reg offset) where
    -- what an operand delivers, with D1 as before
    with_d1 :
        {R : m.State → ℕ → m.State → Type 0} {x : Emit} (n : ℕ) (cpu : Cpu m.State)
        → Delivers m regs laws R x
        → Keeps m regs x
        → IsWord cpu.d0
        → Reaches m regs n x cpu
            (λ c. R cpu.mem c.d0 c.mem × (c.stack ≡ cpu.stack) × (c.d1 ≡ cpu.d1))
    with_d1 n cpu h k hw =
        let r = h.run n cpu hw in
        record {
          after = r.after;
          runs = r.runs;
          holds = (
            r.holds.0,
            r.holds.2,
            subst (HasD1 m regs cpu.d1) r.runs (k.run n cpu.d1 (at cpu) refl),
          );
        }

    added :
        (a b : IrExpr) (size : ℕ) (uns p : Bool) (lsize : ℕ) (luns : Bool) {x y : Emit}
        → lsize ≡ 4
        → Delivers m regs laws (Evaluates m a) x
        → Delivers m regs laws (Evaluates m b) y
        → Keeps m regs x
        → Delivers m regs laws (Evaluates m (load (binop nd_add a b size uns p) lsize luns)) (do
          y
          emit (move size_l d0 d1)
          x
          emit (move size_l d0 a0)
          emit (move size_l ind_a0_d1 d0))
    unfolding step
    added a b size uns p lsize luns four hx hy kx = record {
      run = λ n cpu hw. Reaches-seq m regs (hy.run n cpu hw) λ c q.
          Reaches-line m regs (move size_l d0 d1) _ refl (
            Reaches-seq m regs (with_d1 _ _ hx kx q.1) λ c' r.
              Reaches-line m regs (move size_l d0 a0) _ refl (
                Reaches-emit m regs (move size_l ind_a0_d1 d0) _ refl (
                  subst
                      (λ v.
                        Evaluates m (load (binop nd_add a b size uns p) lsize luns) cpu.mem v
                          c'.mem)
                      (ap (λ k. m.read k luns (m.alu nd_add uns c'.d0 c.d0) c'.mem) four
                        ∙ layout.read_long luns _ c'.mem
                        ∙ ap (λ t. m.read 4 true t c'.mem)
                            (laws.alu_add uns c'.d0 c.d0
                              ∙ ap (λ (t : ℕ). (c'.d0 + t) % 0x100000000) (sym r.2)))
                      (of_load lsize luns (right_first nd_add size uns p q.0 r.0)),
                  laws.read_word 4 true _ c'.mem,
                  r.1 ∙ q.2,
                )));
    }

    -- A load of a long through a base and an index
    pub ir_indexed_load-Emits :
        (op : NodeKind) (a b : IrExpr) (size : ℕ) (uns p : Bool) (lsize : ℕ) (luns base : Bool)
        (x y : Emit)
        → lsize ≡ 4
        → Delivers m regs laws (Evaluates m a) x
        → Delivers m regs laws (Evaluates m b) y
        → (base ≡ true → Keeps m regs x)
        → Emits m regs laws
            (Evaluates m (load (binop op a b size uns p) lsize luns))
            (ir_indexed_load op p base x y)
    unfolding ir_indexed_load
    ir_indexed_load-Emits op a b size uns p lsize luns base x y four hx hy kx =
        Emits-if m regs laws _
          (λ h.
            let (is_add, rest) = (and-eq-true_iff (same_op op nd_add) (p && base)).0 h in
            let (_, simple) = (and-eq-true_iff p base).0 rest in
            subst
              (λ o. Emits m regs laws (Evaluates m (load (binop o a b size uns p) lsize luns)) (
                some (do
                  y
                  emit (move size_l d0 d1)
                  x
                  emit (move size_l d0 a0)
                  emit (move size_l ind_a0_d1 d0))))
              (sym (same_op→eq op nd_add is_add))
              (emitted (added a b size uns p lsize luns four hx hy (kx simple))))
          λ _. skipped
