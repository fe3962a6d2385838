-- ===== src/Ir/Select/Expr/Casts.antt =====
-- Unary operators and casts in ir_expr of src/ir68k.c: lines behind the operand that change D0 only.
use c68k.Prelude.{
  ℕ, ◌%◌, ◌≡◌, refl, sym, ◌∙◌, Bool, true, false, not, inl, inr, ◌==◌, Bool-cases, arith,
}
use mathlib.Core.Path.{subst}
use c68k.Prelude.Word.{IsWord}
use c68k.Ctype.{TypeKind, ty_void, ty_bool, same_kind}
use c68k.Ir.Expr.{NodeKind, nd_neg, nd_bitnot, same_op, IrExpr, unary, cast}
use c68k.Ir.Fold.{narrow}
use c68k.Ir.Meaning.{Machine, IsMachine, unary_value, cast_value}
use c68k.Ir.Words.{unary_value-IsWord, cast_value-IsWord}
use c68k.Ir.Evaluates.{Evaluates, of_unary, of_cast}
use c68k.Ir.Asm.{imm, size_w, andi_l, tst_l, neg_l, not_l, ext_w, ext_l, Emit, ◌>>◌}
use c68k.Ir.Asm.Cpu.{Registers, merge, step}
use c68k.Ir.Asm.Cpu.Conditions.{test_set}
use c68k.Ir.Asm.Cpu.Parts.{Reaches-seq, Reaches-weaken, Reaches-silent}
use c68k.Ir.Asm.Cpu.Values.{Reaches-emit, Reaches-line, Computes-eq, Computes-alu, Computes-scc}
use c68k.Ir.Select.{cast_int_narrow}
use c68k.Ir.Select.Powers.{bit_and-mask}
use c68k.Ir.Select.Tiles.Operands.{Delivers, Applies}
use c68k.Ir.Select.Nodes.{unary_code, cast_code}

extend_low :
    (d : ℕ) → narrow 2 false (merge size_w d (narrow 1 false (d % 256)) % 65536) ≡ narrow 1 false d
unfolding narrow
extend_low d = ground arith

extend_word : (d : ℕ) → narrow 2 false (d % 65536) ≡ narrow 2 false d
unfolding narrow
extend_word d = ground arith

module _ (m : Machine) (regs : Registers m) (laws : IsMachine m) where
  then_Delivers :
      {R Q : m.State → ℕ → m.State → Type 0} {x t : Emit} (f : ℕ → ℕ)
      → ((a : ℕ) → IsWord a → IsWord (f a))
      → ((s : m.State) (a : ℕ) (s' : m.State) → R s a s' → Q s (f a) s')
      → Delivers m regs laws R x
      → Applies m regs laws t f
      → Delivers m regs laws Q (do x; t)
  then_Delivers f f_word to hx ht = record {
    run = λ n cpu hw. Reaches-seq m regs (hx.run n cpu hw) λ c p.
        Reaches-weaken m regs (ht _ c p.1) λ c' q. (
          rw (q.0, q.1) (to cpu.mem c.d0 c.mem p.0),
          subst IsWord (sym q.0) (f_word c.d0 p.1),
          q.2 ∙ p.2,
        );
  }

  unary_code-Applies : (op : NodeKind) → Applies m regs laws (unary_code op) (unary_value op)
  unfolding unary_code step
  unary_code-Applies op n cpu hw = elim (Bool-cases (same_op op nd_neg)) [
    | inl e ↦ rw e (Reaches-emit m regs neg_l _ refl (refl, refl, refl))
    | inr e ↦ elim (Bool-cases (same_op op nd_bitnot)) [
      | inl e' ↦ rw (e, e') (Reaches-emit m regs not_l _ refl (refl, refl, refl))
      | inr e' ↦
          rw (e, e')
            (Reaches-line m regs tst_l _ refl
              (Computes-scc m regs laws "seq" (cpu.d0 == 0) _ hw (test_set cpu.d0).0))
    ]
  ]

  narrow-Applies :
      (size : ℕ) (uns : Bool) → Applies m regs laws (cast_int_narrow size uns) (narrow size uns)
  unfolding cast_int_narrow step narrow
  narrow-Applies size true n cpu hw = elim (Bool-cases (size == 1)) [
    | inl e ↦ rw e (
        Computes-eq m regs (Computes-alu m regs andi_l (imm 255) cpu)
          (laws.alu_and false cpu.d0 255 hw (omega arith) ∙ bit_and-mask 8 cpu.d0))
    | inr e ↦ elim (Bool-cases (size == 2)) [
      | inl e' ↦
          rw (e, e')
            (Computes-eq m regs (Computes-alu m regs andi_l (imm 65535) cpu)
              (laws.alu_and false cpu.d0 65535 hw (omega arith) ∙ bit_and-mask 16 cpu.d0))
      | inr e' ↦ rw (e, e') (Reaches-silent m regs (refl, refl, refl))
    ]
  ]
  narrow-Applies size false n cpu hw = elim (Bool-cases (size == 1)) [
    | inl e ↦ rw e (
        Reaches-line m regs ext_w _ refl
          (Reaches-emit m regs ext_l _ refl (extend_low cpu.d0, refl, refl)))
    | inr e ↦ elim (Bool-cases (size == 2)) [
      | inl e' ↦ rw (e, e') (Reaches-emit m regs ext_l _ refl (extend_word cpu.d0, refl, refl))
      | inr e' ↦ rw (e, e') (Reaches-silent m regs (refl, refl, refl))
    ]
  ]

  cast_code-Applies :
      (op : TypeKind) (size : ℕ) (uns : Bool)
      → Applies m regs laws (cast_code op size uns) (cast_value op size uns)
  unfolding cast_code step
  cast_code-Applies op size uns n cpu hw = elim (Bool-cases (same_kind op ty_void)) [
    | inl e ↦ rw e (Reaches-silent m regs (refl, refl, refl))
    | inr e ↦ elim (Bool-cases (same_kind op ty_bool)) [
      | inl e' ↦
          rw (e, e')
            (Reaches-line m regs tst_l _ refl
              (Computes-scc m regs laws "sne" (not (cpu.d0 == 0)) _ hw (test_set cpu.d0).1))
      | inr e' ↦ rw (e, e') (narrow-Applies size uns n cpu hw)
    ]
  ]

  -- `-`, `~` and `!`
  pub unary_code-Delivers :
      (op : NodeKind) (a : IrExpr) (size : ℕ) (uns : Bool) {x : Emit}
      → Delivers m regs laws (Evaluates m a) x
      → Delivers m regs laws (Evaluates m (unary op a size uns)) (do x; unary_code op)
  unary_code-Delivers op a size uns hx =
      then_Delivers (unary_value op) (λ v _. unary_value-IsWord op v)
        (λ s v s' r. of_unary op size uns r) hx (unary_code-Applies op)

  -- A cast narrows, tests, or leaves the word as it is.
  pub cast_code-Delivers :
      (op : TypeKind) (a : IrExpr) (size : ℕ) (uns : Bool) (fsize : ℕ) (funs : Bool) {x : Emit}
      → Delivers m regs laws (Evaluates m a) x
      → Delivers m regs laws
          (Evaluates m (cast op a size uns fsize funs))
          (do x; cast_code op size uns)
  cast_code-Delivers op a size uns fsize funs hx =
      then_Delivers (cast_value op size uns) (cast_value-IsWord op size uns)
        (λ s v s' r. of_cast op size uns fsize funs r) hx (cast_code-Applies op size uns)
