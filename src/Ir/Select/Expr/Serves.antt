-- ===== src/Ir/Select/Expr/Serves.antt =====
-- What the code of src/ir68k.c for a node promises in each use, and the nodes with a short code of their own: `!` as a condition and the comma.
use c68k.Prelude.{ℕ, ◌≡◌, refl, sym, ◌∙◌, Bool, true, false, not, ◌==◌, if◌then◌else◌, arith}
use mathlib.Core.Path.{subst}
use c68k.Prelude.Word.{of_bool}
use c68k.Ir.Expr.{NodeKind, nd_not, same_op, IrExpr, load, unary, comma}
use c68k.Ir.Meaning.{Machine, IsMachine}
use c68k.Ir.Evaluates.{Evaluates, of_unary, of_comma}
use c68k.Ir.Asm.{Label, Emit, ◌>>◌}
use c68k.Ir.Asm.Cpu.{Registers, Cpu}
use c68k.Ir.Asm.Cpu.Parts.{Reaches-seq, Reaches-weaken}
use c68k.Ir.Select.Tiles.Operands.{Delivers, Emits, skipped}
use c68k.Ir.Select.Nodes.{Code, plain}
use c68k.Ir.Select.Expr.Control.{Tests, Truth, Branches, taken, fell, cond_value-Tests}

module _ (m : Machine) (regs : Registers m) (laws : IsMachine m) where
  -- What the code for a node promises in each of its uses
  pub record Serves (e : IrExpr) (c : Code) : Type 0 where
    pub value : Delivers m regs laws (Evaluates m e) c.value
    pub branch : Tests m regs laws (Evaluates m e) c.branch
    pub index :
        (size : ℕ) (uns : Bool)
        → size ≡ 4
        → Emits m regs laws (Evaluates m (load e size uns)) c.index

  pub plain-Serves :
      (e : IrExpr) (x : Emit) → Delivers m regs laws (Evaluates m e) x → Serves e (plain x)
  plain-Serves e x h = record {
    value = h;
    branch = cond_value-Tests m regs laws h;
    index = λ size uns four. skipped;
  }

  pub Tests-if :
      {R : m.State → ℕ → m.State → Type 0} (b : Bool) {x y : Label → Bool → Emit}
      → (b ≡ true → Tests m regs laws R x)
      → Tests m regs laws R y
      → Tests m regs laws R (if b then x else y)
  Tests-if true hx hy = hx refl
  Tests-if false hx hy = hy

  not_truth : (v : ℕ) (w : Bool) → not (v == 0) ≡ w → not (of_bool (v == 0) == 0) ≡ not w
  not_truth v w h = ground arith

  -- `!a` branches as `a` does, on the other truth.
  pub Tests-not :
      (a : IrExpr) (op : NodeKind) (size : ℕ) (uns : Bool) {x : Label → Bool → Emit}
      → op ≡ nd_not
      → Tests m regs laws (Evaluates m a) x
      → Tests m regs laws (Evaluates m (unary op a size uns)) (λ l when. x l (not when))
  unfolding same_op
  Tests-not a op size uns {x} is_not h = record {
    run = λ n l when cpu hw below. turn n l when cpu (h.run n l (not when) cpu hw below);
  }
    where
      negated :
          (w : Bool) (cpu c : Cpu m.State)
          → Truth m regs laws (Evaluates m a) w cpu c
          → Truth m regs laws (Evaluates m (unary op a size uns)) (not w) cpu c
      negated w cpu c p = (
        of_bool (p.0 == 0),
        subst (λ o. Evaluates m (unary o a size uns) cpu.mem (of_bool (p.0 == 0)) c.mem)
            (sym is_not) (of_unary nd_not size uns p.1),
        not_truth p.0 w p.2,
        p.3,
        p.4,
      )

      turn :
          (n : ℕ) (l : Label) (when : Bool) (cpu : Cpu m.State)
          → Branches m regs laws n
              (x l (not when))
              l
              cpu
              (Truth m regs laws (Evaluates m a) (not when) cpu)
              (Truth m regs laws (Evaluates m a) (not (not when)) cpu)
          → Branches m regs laws n
              (x l (not when))
              l
              cpu
              (Truth m regs laws (Evaluates m (unary op a size uns)) when cpu)
              (Truth m regs laws (Evaluates m (unary op a size uns)) (not when) cpu)
      turn n l true cpu (taken c e p) = taken c e (negated false cpu c p)
      turn n l true cpu (fell c e p) = fell c e (negated true cpu c p)
      turn n l false cpu (taken c e p) = taken c e (negated true cpu c p)
      turn n l false cpu (fell c e p) = fell c e (negated false cpu c p)

  pub comma-Delivers :
      (a b : IrExpr) (size : ℕ) (uns : Bool) {x y : Emit}
      → Delivers m regs laws (Evaluates m a) x
      → Delivers m regs laws (Evaluates m b) y
      → Delivers m regs laws (Evaluates m (comma a b size uns)) (do x; y)
  comma-Delivers a b size uns hx hy = record {
    run = λ n cpu hw. Reaches-seq m regs (hx.run n cpu hw) λ c p.
        Reaches-weaken m regs (hy.run _ c p.1) λ c' q. (of_comma size uns p.0 q.0, q.1, q.2 ∙ p.2);
  }
