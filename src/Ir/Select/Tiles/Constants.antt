-- ===== src/Ir/Select/Tiles/Constants.antt =====
-- ir_const_binop and ir_const_binop_left of src/ir68k.c: the code that a tile emits computes the operator.
use c68k.Prelude.{
  ℕ, ◌+◌, ◌-◌, ◌%◌, ◌^◌, ◌≤◌, ◌<◌, ◌≡◌, refl, sym, ap, ◌∙◌, Bool, true, false, not, arith,
  if◌then◌else◌,
}
use mathlib.Core.Path.{subst}
use c68k.Prelude.Word.{IsWord, neg32, is_neg, sra32, sdiv32, smod32}
use Prim.Native.Nat.{bit_and}
use c68k.Ir.Expr.{nd_div, nd_mod, nd_shr}
use c68k.Ir.Meaning.{Machine, IsMachine}
use c68k.Ir.Asm.{
  same_family, l_sdiv, l_smod, l_smodx, numbered, asr_l, andi_l, imm, alu, tst_l, neg_l, bcc, bra,
  def_label, emit, ◌>>◌,
}
use c68k.Ir.Asm.Cpu.{Registers, Cpu, step}
use c68k.Ir.Asm.Cpu.Conditions.{test_plus}
use c68k.Ir.Asm.Cpu.Parts.{Reaches}
use c68k.Ir.Asm.Cpu.Values.{Computes, Reaches-line, Computes-eq, Computes-seq}
use c68k.Ir.Asm.Cpu.Branches.{
  Reaches-bcc, Reaches-bra, Reaches-label, Sought-here, Sought-line, Sought-code, Sought-end,
  found-other, Reaches-end,
}
use c68k.Ir.Select.{is_pow2_32, ctz32, add_imm, shift_by}
use c68k.Ir.Select.Fresh.{add_imm-Fresh}
use c68k.Ir.Select.Powers.{is_pow2-ctz, sdiv32-shift, smod32-mask, pow_range}
use c68k.Ir.Select.Tiles.Shifts.{Computes-add_imm, Computes-shift_by}

module _ (m : Machine) (regs : Registers m) (laws : IsMachine m) where
  signed_div_value :
      (a c : ℕ) (b : Bool)
      → IsWord a
      → 2 ≤ c
      → c < 0x80000000
      → is_pow2_32 c ≡ true
      → is_neg a ≡ b
      → m.alu nd_shr false (if b then (a + (c - 1)) % 2 ^ 32 else a) (ctz32 c)
        ≡ m.alu nd_div false a c
  signed_div_value a c b h lo hi p same =
      let (e, small) = is_pow2-ctz c (omega arith) p in
      let (one, top) = pow_range c (ctz32 c) e small lo hi in
      laws.alu_sar _ (ctz32 c) (ground arith) small
      ∙ ap (λ (t : ℕ). sra32 (if b then (a + (t - 1)) % 2 ^ 32 else a) (ctz32 c)) e
      ∙ subst
          (λ t.
            sra32 (if t then (a + (2 ^ ctz32 c - 1)) % 2 ^ 32 else a) (ctz32 c)
            ≡ sdiv32 a (2 ^ ctz32 c))
          same (sdiv32-shift a (ctz32 c) h one top)
      ∙ ap (sdiv32 a) (sym e)
      ∙ sym (laws.alu_sdiv a c h (omega arith) (ground arith) (ground arith))

  -- Signed division by a power of two, behind the operand: add c - 1 where the sign is set, then shift.
  pub Computes-signed_div :
      {n : ℕ} (lc c : ℕ) (cpu : Cpu m.State)
      → lc < n
      → IsWord cpu.d0
      → 2 ≤ c
      → c < 0x80000000
      → is_pow2_32 c ≡ true
      → Reaches m regs n
          (do
            emit tst_l
            emit (bcc "bpl" (numbered l_sdiv lc))
            add_imm (c - 1)
            emit (def_label (numbered l_sdiv lc))
            shift_by asr_l (ctz32 c))
          cpu
          (Computes m regs (m.alu nd_div false cpu.d0 c) cpu)
  unfolding step
  Computes-signed_div lc c cpu lt h lo hi p =
      let (e, small) = is_pow2-ctz c (omega arith) p in
      let (one, top) = pow_range c (ctz32 c) e small lo hi in
      let value = signed_div_value cpu.d0 c in
      Reaches-line m regs tst_l _ refl (
        Reaches-bcc m regs "bpl" (numbered l_sdiv lc) (not (is_neg cpu.d0)) (test_plus cpu.d0 h)
          (λ plus. Sought-code m regs (add_imm-Fresh (c - 1)) lt (
            Sought-here m regs l_sdiv lc (
              Computes-eq m regs
                (Computes-shift_by m regs laws asr_l (ctz32 c) _ λ z. absurd (omega arith))
                (value false h lo hi p (ground arith)))))
          λ minus.
            Computes-seq m regs (Computes-add_imm m regs laws false (c - 1) _ h (omega arith))
              λ c' q. Reaches-label m regs (numbered l_sdiv lc) (
                Computes-eq m regs
                  (Computes-shift_by m regs laws asr_l (ctz32 c) c' λ z. absurd (omega arith))
                  (ap (λ (t : ℕ). m.alu nd_shr false t (ctz32 c))
                      (q.0 ∙ laws.alu_add false cpu.d0 (c - 1))
                    ∙ value true h lo hi p (ground arith))))

  signed_mod_value :
      (a c : ℕ) (b : Bool)
      → IsWord a
      → 2 ≤ c
      → c < 0x80000000
      → is_pow2_32 c ≡ true
      → is_neg a ≡ b
      → (if b then neg32 (bit_and (neg32 a) (c - 1)) else bit_and a (c - 1))
        ≡ m.alu nd_mod false a c
  signed_mod_value a c b h lo hi p same =
      let (e, small) = is_pow2-ctz c (omega arith) p in
      let (one, top) = pow_range c (ctz32 c) e small lo hi in
      ap (λ (t : ℕ). if b then neg32 (bit_and (neg32 a) (t - 1)) else bit_and a (t - 1)) e
      ∙ subst
          (λ t.
            (if t then neg32 (bit_and (neg32 a) (2 ^ ctz32 c - 1)) else bit_and a (2 ^ ctz32 c - 1))
            ≡ smod32 a (2 ^ ctz32 c))
          same (smod32-mask a (ctz32 c) h top)
      ∙ ap (smod32 a) (sym e)
      ∙ sym (laws.alu_smod a c h (omega arith) (ground arith) (ground arith))

  -- The remainder of a negative operand is that of its absolute value, negated.
  pub Computes-signed_mod :
      {n : ℕ} (lc c : ℕ) (cpu : Cpu m.State)
      → IsWord cpu.d0
      → 2 ≤ c
      → c < 0x80000000
      → is_pow2_32 c ≡ true
      → Reaches m regs n
          (do
            emit tst_l
            emit (bcc "bpl" (numbered l_smod lc))
            emit neg_l
            emit (alu andi_l (imm (c - 1)))
            emit neg_l
            emit (bra (numbered l_smodx lc))
            emit (def_label (numbered l_smod lc))
            emit (alu andi_l (imm (c - 1)))
            emit (def_label (numbered l_smodx lc)))
          cpu
          (Computes m regs (m.alu nd_mod false cpu.d0 c) cpu)
  unfolding step same_family
  Computes-signed_mod lc c cpu h lo hi p =
      let value = signed_mod_value cpu.d0 c in
      Reaches-line m regs tst_l _ refl (
        Reaches-bcc m regs "bpl" (numbered l_smod lc) (not (is_neg cpu.d0)) (test_plus cpu.d0 h)
          (λ plus. Sought-line m regs neg_l refl (
            Sought-line m regs (alu andi_l (imm (c - 1))) refl (
              Sought-line m regs neg_l refl (
                Sought-line m regs (bra (numbered l_smodx lc)) refl (
                  Sought-here m regs l_smod lc (
                    Reaches-line m regs (alu andi_l (imm (c - 1))) _ refl (
                      Reaches-end m regs (numbered l_smodx lc) (
                        laws.alu_and false cpu.d0 (c - 1) h (omega arith)
                            ∙ value false h lo hi p (ground arith),
                        refl,
                        refl,
                      ))))))))
          λ minus. Reaches-line m regs neg_l _ refl (
            Reaches-line m regs (alu andi_l (imm (c - 1))) _ refl (
              Reaches-line m regs neg_l _ refl (
                Reaches-bra m regs (
                  Sought-line m regs (def_label (numbered l_smod lc))
                    (found-other m regs l_smod l_smodx lc refl)
                    (Sought-line m regs (alu andi_l (imm (c - 1))) refl (
                      Sought-end m regs l_smodx lc (
                        ap neg32 (
                              laws.alu_and false (neg32 cpu.d0) (c - 1) (omega arith) (omega arith))
                            ∙ value true h lo hi p (ground arith),
                        refl,
                        refl,
                      ))))))))
