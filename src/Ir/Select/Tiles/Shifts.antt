-- ===== src/Ir/Select/Tiles/Shifts.antt =====
-- add_imm, shift_by and the multiplication tiles of src/ir68k.c: the value that they leave in D0.
use c68k.Prelude.{
  ℕ, ◌+◌, ◌-◌, ◌*◌, ◌%◌, ◌^◌, ◌≤◌, ◌<◌, ◌≡◌, refl, sym, ap, ◌∙◌, Bool, true, false, not, ◌&&◌, ◌||◌,
  leb, ◌==◌, arith, ==_iff, none,
}
use c68k.Prelude.Word.{IsWord, neg32}
use c68k.Ir.Expr.{nd_add, nd_mul, nd_shl}
use c68k.Ir.Meaning.{Machine, IsMachine}
use c68k.Ir.Asm.{
  Mnem, addq_l, subq_l, add_l, sub_l, asl_l, imm, d0, d1, size_l, alu, move, moveq, neg_l, emit,
  ◌>>◌,
}
use c68k.Ir.Asm.Cpu.{Registers, Cpu, op_of, step}
use c68k.Ir.Asm.Cpu.Parts.{Reaches, Reaches-silent}
use c68k.Ir.Asm.Cpu.Values.{
  Computes, Reaches-if, Reaches-emit, Reaches-line, Computes-eq, Computes-alu,
}
use c68k.Ir.Select.{is_pow2_32, ctz32, add_imm, shift_by}
use c68k.Ir.Select.Powers.{is_pow2-ctz, shift_add, shift_sub}
use c68k.Ir.Select.Tiles.{easy_mul}

module _ (m : Machine) (regs : Registers m) (laws : IsMachine m) where
  pub Computes-add_imm :
      {n : ℕ} (u : Bool) (c : ℕ) (cpu : Cpu m.State)
      → IsWord cpu.d0
      → IsWord c
      → Reaches m regs n (add_imm c) cpu (Computes m regs (m.alu nd_add u cpu.d0 c) cpu)
  unfolding add_imm
  Computes-add_imm u c cpu h hc =
      let sum = laws.alu_add u cpu.d0 c in
      Reaches-if m regs (c == 0)
        (λ e. Reaches-silent m regs (ground (arith, sum, (==_iff c 0).0 e), refl, refl))
        λ _.
          Reaches-if m regs (leb 1 c && leb c 8)
            (λ _.
              Computes-eq m regs (Computes-alu m regs addq_l (imm c) cpu)
                (laws.alu_add false cpu.d0 c ∙ sym sum))
            λ _.
              Reaches-if m regs (leb 0xfffffff8 c)
                (λ e.
                  Computes-eq m regs (Computes-alu m regs subq_l (imm (neg32 c)) cpu)
                    (laws.alu_sub false cpu.d0 (neg32 c) ∙ ground arith ∙ sym sum))
                λ _.
                  Computes-eq m regs (Computes-alu m regs add_l (imm c) cpu)
                    (laws.alu_add false cpu.d0 c ∙ sym sum)

  -- A shift by 0 has no code, and one by more than 8 takes its count from D1.
  pub Computes-shift_by :
      {n : ℕ} (op : Mnem) (count : ℕ) (cpu : Cpu m.State)
      → (count ≡ 0 → m.alu (op_of op).0 (op_of op).1 cpu.d0 count ≡ cpu.d0)
      → Reaches m regs n
          (shift_by op count)
          cpu
          (Computes m regs (m.alu (op_of op).0 (op_of op).1 cpu.d0 count) cpu)
  unfolding shift_by step
  Computes-shift_by op count cpu whole =
      Reaches-if m regs (count == 0)
        (λ e. Reaches-silent m regs (sym (whole ((==_iff count 0).0 e)), refl, refl))
        λ _.
          Reaches-if m regs (leb count 8) (λ _. Computes-alu m regs op (imm count) cpu)
            λ _.
              Reaches-line m regs (moveq count d1) _ refl
                (Computes-alu m regs op d1 (record cpu { d1 = count; compared = none }))

  module _ {n : ℕ} (u : Bool) (c : ℕ) (cpu : Cpu m.State) (h : IsWord cpu.d0) (hc : IsWord c) where
    -- a shift by the zeros of a power of two
    pub Computes-shift_mul :
        is_pow2_32 c ≡ true
        → Reaches m regs n
            (shift_by asl_l (ctz32 c))
            cpu
            (Computes m regs (m.alu nd_mul u cpu.d0 c) cpu)
    Computes-shift_mul p =
        let (e, small) = is_pow2-ctz c hc p in
        let shifted = laws.alu_shl false cpu.d0 in
        Computes-eq m regs
          (Computes-shift_by asl_l (ctz32 c) cpu
            λ z. ap (m.alu nd_shl false cpu.d0) z ∙ shifted 0 (omega arith) ∙ (omega arith))
          (shifted (ctz32 c) small
            ∙ ap (λ (t : ℕ). cpu.d0 * t % 2 ^ 32) (sym e)
            ∙ sym (laws.alu_mul u cpu.d0 c))

    pub Computes-easy_mul :
        (c == 0 || (c == 1 || (c == 0xffffffff || is_pow2_32 c))) ≡ true
        → Reaches m regs n (easy_mul c) cpu (Computes m regs (m.alu nd_mul u cpu.d0 c) cpu)
    unfolding step
    Computes-easy_mul easy =
        let product = laws.alu_mul u cpu.d0 c in
        Reaches-if m regs (c == 0)
          (λ e. Reaches-emit m regs (moveq 0 d0) _ refl (ground (arith, product), refl, refl))
          λ nz.
            Reaches-if m regs (c == 0xffffffff)
              (λ e. Reaches-emit m regs neg_l _ refl (ground (arith, product), refl, refl))
              λ nm.
                Reaches-if m regs (not (c == 1)) (λ no. Computes-shift_mul (ground arith))
                  λ one. Reaches-silent m regs (ground (arith, product), refl, refl)

    -- 2 ^ k + 1 and 2 ^ k - 1: a shift, and the operand added or taken away
    pub Computes-mul_next :
        is_pow2_32 (c - 1) ≡ true
        → 3 ≤ c
        → Reaches m regs n
            (do
              emit (move size_l d0 d1)
              emit (alu asl_l (imm (ctz32 (c - 1))))
              emit (alu add_l d1))
            cpu
            (Computes m regs (m.alu nd_mul u cpu.d0 c) cpu)
    unfolding step
    Computes-mul_next p big =
        let (e, small) = is_pow2-ctz (c - 1) (omega arith) p in
        let shifted = laws.alu_shl false cpu.d0 (ctz32 (c - 1)) small in
        Reaches-line m regs (move size_l d0 d1) _ refl (
          Reaches-line m regs (alu asl_l (imm (ctz32 (c - 1)))) _ refl (
            Reaches-emit m regs (alu add_l d1) _ refl (
              laws.alu_add false _ cpu.d0
                  ∙ ap (λ (t : ℕ). (t + cpu.d0) % 2 ^ 32) shifted
                  ∙ ap (λ (t : ℕ). (cpu.d0 * t % 2 ^ 32 + cpu.d0) % 2 ^ 32) (sym e)
                  ∙ shift_add cpu.d0 (c - 1)
                  ∙ ap (λ (t : ℕ). cpu.d0 * t % 2 ^ 32) (omega arith)
                  ∙ sym (laws.alu_mul u cpu.d0 c),
              refl,
              refl,
            )))

    pub Computes-mul_previous :
        is_pow2_32 (c + 1) ≡ true
        → c < 0x80000000
        → Reaches m regs n
            (do
              emit (move size_l d0 d1)
              emit (alu asl_l (imm (ctz32 (c + 1))))
              emit (alu sub_l d1))
            cpu
            (Computes m regs (m.alu nd_mul u cpu.d0 c) cpu)
    unfolding step
    Computes-mul_previous p top =
        let (e, small) = is_pow2-ctz (c + 1) (omega arith) p in
        let shifted = laws.alu_shl false cpu.d0 (ctz32 (c + 1)) small in
        Reaches-line m regs (move size_l d0 d1) _ refl (
          Reaches-line m regs (alu asl_l (imm (ctz32 (c + 1)))) _ refl (
            Reaches-emit m regs (alu sub_l d1) _ refl (
              laws.alu_sub false _ cpu.d0
                  ∙ ap (λ (t : ℕ). (t + 2 ^ 32 - cpu.d0) % 2 ^ 32) shifted
                  ∙ ap (λ (t : ℕ). (cpu.d0 * t % 2 ^ 32 + 2 ^ 32 - cpu.d0) % 2 ^ 32) (sym e)
                  ∙ shift_sub cpu.d0 (c + 1) h (omega arith)
                  ∙ ap (λ (t : ℕ). cpu.d0 * t % 2 ^ 32) (omega arith)
                  ∙ sym (laws.alu_mul u cpu.d0 c),
              refl,
              refl,
            )))
