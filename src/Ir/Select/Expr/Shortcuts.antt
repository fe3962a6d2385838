-- ===== src/Ir/Select/Expr/Shortcuts.antt =====
-- The values of `&&`, `||` and `?:` in ir_expr of src/ir68k.c: only the operands run that C evaluates.
use c68k.Prelude.{ℕ, ◌+◌, ◌≡◌, refl, ◌∙◌, Bool, false, not, none, ◌==◌, ==_iff, arith}
use mathlib.Core.Path.{subst}
use c68k.Prelude.Word.{of_bool}
use c68k.Ir.Expr.{IrExpr, logand, logor, cond}
use c68k.Ir.Meaning.{Machine, IsMachine}
use c68k.Ir.Evaluates.{
  Evaluates, logand_left, logand_both, logor_left, logor_both, cond_then, cond_else,
}
use c68k.Ir.Asm.{
  Family, same_family, l_false, l_true, l_end, l_else, Label, numbered, d0, moveq, def_label, tst_l,
  bcc, bra, Emit, emit, ◌>>◌,
}
use c68k.Ir.Asm.Fresh.{Fresh}
use c68k.Ir.Asm.Cpu.{Registers, Cpu, step}
use c68k.Ir.Asm.Cpu.Conditions.{test_zero}
use c68k.Ir.Asm.Cpu.Parts.{Reaches, Reaches-seq, Reaches-with_uid}
use c68k.Ir.Asm.Cpu.Values.{Reaches-line}
use c68k.Ir.Asm.Cpu.Branches.{
  Sought, Reaches-bcc, Reaches-bra, Sought-here, Sought-line, Sought-code, Sought-end, found-other,
  Reaches-end,
}
use c68k.Ir.Select.Tiles.Operands.{Delivers}
use c68k.Ir.Select.Nodes.{logand_value, logor_value, select_value}
use c68k.Ir.Select.Expr.Control.{Tests, Branches-then, flip, flip', ne_zero}

module _ (m : Machine) (regs : Registers m) (laws : IsMachine m) where
  -- The end of the code for `&&` and `||`: `w` behind the operands, or `w'` at the label of family `f`.
  abbrev finish : Family → ℕ → ℕ → ℕ → Emit
  finish f k w w' = do
    emit (moveq w d0)
    emit (bra (numbered l_end k))
    emit (def_label (numbered f k))
    emit (moveq w' d0)
    emit (def_label (numbered l_end k))

  module _ (f : Family) (k w w' : ℕ) {n : ℕ} {c : Cpu m.State} {P : Cpu m.State → Type 0} where
    finish-Sought :
        P (record c { d0 = w'; compared = none })
        → Sought m regs n (finish f k w w') (numbered f k) c P
    unfolding step
    finish-Sought p = Sought-line m regs (moveq w d0) refl (
        Sought-line m regs (bra (numbered l_end k)) refl (
          Sought-here m regs f k
            (Reaches-line m regs (moveq w' d0) _ refl (Reaches-end m regs (numbered l_end k) p))))

    finish-Reaches :
        same_family f l_end ≡ false
        → P (record c { d0 = w; compared = none })
        → Reaches m regs n (finish f k w w') c P
    unfolding step
    finish-Reaches other p = Reaches-line m regs (moveq w d0) _ refl (
        Reaches-bra m regs (
          Sought-line m regs (def_label (numbered f k)) (found-other m regs f l_end k other)
            (Sought-line m regs (moveq w' d0) refl (Sought-end m regs l_end k p))))

  module _ {a b : IrExpr} {x y : Emit} (hx : Delivers m regs laws (Evaluates m a) x)
      (hy : Delivers m regs laws (Evaluates m b) y) (fy : Fresh y) (fx : Fresh x) where
    -- The value of `a && b`: the second operand runs only where the first is not zero.
    pub logand_value-Delivers : Delivers m regs laws (Evaluates m (logand a b)) (logand_value x y)
    unfolding logand_value step same_family
    logand_value-Delivers = record {
      run = λ n cpu hw. Reaches-with_uid m regs _ (
          Reaches-seq m regs (hx.run (n + 1) cpu hw) λ c p. Reaches-line m regs tst_l _ refl (
            Reaches-bcc m regs "beq" (numbered l_false n) (c.d0 == 0) (test_zero c.d0).0
              (λ zero. Sought-code m regs fy (omega (arith, fx.grows (n + 1))) (
                Sought-line m regs tst_l refl (
                  Sought-line m regs (bcc "beq" (numbered l_false n)) refl (
                    finish-Sought l_false n 1 0
                      (logand_left p.0 ((==_iff c.d0 0).0 zero), omega arith, p.2)))))
              λ more. Reaches-seq m regs (hy.run _ _ p.1) λ c' q.
                let value = logand_both p.0 (ne_zero c.d0 more) q.0 in
                Reaches-line m regs tst_l _ refl (
                  Reaches-bcc m regs "beq" (numbered l_false n) (c'.d0 == 0) (test_zero c'.d0).0
                    (λ zero. finish-Sought l_false n 1 0 (
                      subst (λ t. Evaluates m (logand a b) cpu.mem (of_bool (not t)) c'.mem) zero
                          value,
                      omega arith,
                      q.2 ∙ p.2,
                    ))
                    λ more'. finish-Reaches l_false n 1 0 refl (
                      subst (λ t. Evaluates m (logand a b) cpu.mem (of_bool (not t)) c'.mem) more'
                          value,
                      omega arith,
                      q.2 ∙ p.2,
                    ))));
    }

    -- The value of `a || b`: the second operand runs only where the first is zero.
    pub logor_value-Delivers : Delivers m regs laws (Evaluates m (logor a b)) (logor_value x y)
    unfolding logor_value step same_family
    logor_value-Delivers = record {
      run = λ n cpu hw. Reaches-with_uid m regs _ (
          Reaches-seq m regs (hx.run (n + 1) cpu hw) λ c p. Reaches-line m regs tst_l _ refl (
            Reaches-bcc m regs "bne" (numbered l_true n) (not (c.d0 == 0)) (test_zero c.d0).1
              (λ zero. Sought-code m regs fy (omega (arith, fx.grows (n + 1))) (
                Sought-line m regs tst_l refl (
                  Sought-line m regs (bcc "bne" (numbered l_true n)) refl (
                    finish-Sought l_true n 0 1
                      (logor_left p.0 (ne_zero c.d0 (flip zero)), omega arith, p.2)))))
              λ more. Reaches-seq m regs (hy.run _ _ p.1) λ c' q.
                let value = logor_both p.0 ((==_iff c.d0 0).0 (flip' more)) q.0 in
                Reaches-line m regs tst_l _ refl (
                  Reaches-bcc m regs "bne" (numbered l_true n) (not (c'.d0 == 0))
                    (test_zero c'.d0).1
                    (λ zero. finish-Sought l_true n 0 1 (
                      subst (λ t. Evaluates m (logor a b) cpu.mem (of_bool t) c'.mem) zero value,
                      omega arith,
                      q.2 ∙ p.2,
                    ))
                    λ more'. finish-Reaches l_true n 0 1 refl (
                      subst (λ t. Evaluates m (logor a b) cpu.mem (of_bool t) c'.mem) more' value,
                      omega arith,
                      q.2 ∙ p.2,
                    ))));
    }

    -- The value of `a ? b : c`: the code of one branch runs, and the other is passed over.
    pub select_value-Delivers :
        {e0 : IrExpr} (size : ℕ) (uns : Bool) {z : Label → Bool → Emit}
        → Tests m regs laws (Evaluates m e0) z
        → ((l : Label) (w : Bool) → Fresh (z l w))
        → Delivers m regs laws (Evaluates m (cond e0 a b size uns)) (select_value z x y)
    unfolding select_value step same_family
    select_value-Delivers size uns {z} hz fz = record {
      run = λ n cpu hw. Reaches-with_uid m regs _ (
          Branches-then m regs laws (hz.run (n + 1) (numbered l_else n) false cpu hw (omega arith))
            (λ c p.
              Sought-code m regs fx (omega (arith, (fz (numbered l_else n) false).grows (n + 1))) (
                Sought-line m regs (bra (numbered l_end n)) refl (
                  Sought-here m regs l_else n (
                    Reaches-seq m regs (hy.run _ c p.3) λ c' q.
                      Reaches-end m regs (numbered l_end n) (
                        cond_else size uns p.1 ((==_iff p.0 0).0 (flip' p.2)) q.0,
                        q.1,
                        q.2 ∙ p.4,
                      )))))
            λ c p. Reaches-seq m regs (hx.run _ c p.3) λ c' q. Reaches-bra m regs (
              Sought-line m regs (def_label (numbered l_else n))
                (found-other m regs l_else l_end n refl)
                (Sought-code m regs fy
                  (omega (
                    arith,
                    (fz (numbered l_else n) false).grows (n + 1),
                    fx.grows (z (numbered l_else n) false (n + 1)).1,
                  ))
                  (Sought-end m regs l_end n
                    (cond_then size uns p.1 (ne_zero p.0 (flip p.2)) q.0, q.1, q.2 ∙ p.4)))));
    }
