-- ===== src/Ir/Select/Tiles/Right.antt =====
-- ir_const_binop and ir_const_binop_left of src/ir68k.c compute their operator.
use c68k.Prelude.{
  ℕ, ◌+◌, ◌-◌, ◌≡◌, ◌≢◌, refl, sym, ◌∙◌, Bool, true, false, not, ◌&&◌, ◌||◌, some, ltb, leb, ◌==◌,
  arith, if◌then◌else◌,
}
use mathlib.Core.Bool.{and-eq-true_iff}
use c68k.Prelude.Word.{IsWord, neg32, is_neg}
use c68k.Ir.Expr.{
  NodeKind, nd_add, nd_sub, nd_mul, nd_div, nd_mod, nd_bitand, nd_bitor, nd_bitxor, nd_shl, nd_shr,
  nd_eq, nd_ne, nd_lt, nd_le,
}
use c68k.Ir.Meaning.{Machine, IsMachine}
use c68k.Ir.Asm.{imm, asl_l, lsr_l, asr_l, andi_l, ori_l, eori_l, Emit, ◌>>◌}
use c68k.Ir.Asm.Fresh.{Fresh}
use c68k.Ir.Asm.Cpu.{Registers, Cpu}
use c68k.Ir.Asm.Cpu.Parts.{Reaches}
use c68k.Ir.Asm.Cpu.Values.{Computes, Computes-eq, Computes-alu}
use c68k.Ir.Select.{is_pow2_32, ctz32, shift_by}
use c68k.Ir.Select.Tiles.{ir_const_binop, signed_pow2}
use c68k.Ir.Select.Tiles.Shifts.{
  Computes-add_imm, Computes-easy_mul, Computes-mul_next, Computes-mul_previous,
}
use c68k.Ir.Select.Tiles.Constants.{Computes-signed_div, Computes-signed_mod}
use c68k.Ir.Select.Tiles.Operands.{
  Applies, Applies-compare, Applies-shift, Applies-unsigned_div, Applies-unsigned_mod, Delivers,
  Emits, skipped, Emits-if, then_Emits, uid_Emits,
}

and_left : (a b : Bool) → (a && b) ≡ true → a ≡ true
and_left a b h = ((and-eq-true_iff a b).0 h).0

module _ (m : Machine) (regs : Registers m) (laws : IsMachine m)
    (shl_any : (u : Bool) (a n : ℕ) → m.alu nd_shl u a n ≡ m.alu nd_shl false a n) where
  module _ (R Q : m.State → ℕ → m.State → Type 0) (x : Emit) (h : Delivers m regs laws R x)
      (fresh : Fresh x) (c : ℕ) (hc : IsWord c) where
    abbrev Leads : NodeKind → Bool → Type 0
    Leads op u =
        (s : m.State) (a : ℕ) (s' : m.State) → R s a s' → IsWord a → Q s (m.alu op u a c) s'

    -- one more line behind the operand
    line_Emits :
        (op : NodeKind) (u : Bool)
        → Leads op u
        → (t : Emit) → Applies m regs laws t (λ a. m.alu op u a c)
        → Emits m regs laws Q (some (do x; t))
    line_Emits op u k t a =
        then_Emits m regs laws R Q x h fresh (λ a' _. m.alu op u a' c)
          (λ a' _. laws.alu_word op u a' c) k t a

    const_mul-Emits :
        (lev : ℕ) (u : Bool)
        → Leads nd_mul u
        → Emits m regs laws Q (ir_const_binop lev nd_mul u x c)
    unfolding ir_const_binop
    const_mul-Emits lev u k =
        Emits-if m regs laws (c == 0 || (c == 1 || (c == 0xffffffff || is_pow2_32 c)))
          (λ easy.
            line_Emits nd_mul u k _ λ n cpu hw. Computes-easy_mul m regs laws u c cpu hw hc easy)
          λ _.
            Emits-if m regs laws (leb 2 lev && (leb 3 c && not (is_neg c)))
              (λ big.
                Emits-if m regs laws (is_pow2_32 (c - 1) && leb (ctz32 (c - 1)) 8)
                  (λ next. line_Emits nd_mul u k _ λ n cpu hw.
                    Computes-mul_next m regs laws u c cpu hw hc (and_left _ _ next) (ground arith))
                  λ _.
                    Emits-if m regs laws (is_pow2_32 (c + 1) && leb (ctz32 (c + 1)) 8)
                      (λ previous. line_Emits nd_mul u k _ λ n cpu hw.
                        Computes-mul_previous m regs laws u c cpu hw hc (and_left _ _ previous)
                          (ground arith))
                      λ _. skipped)
              λ _. skipped

    const_div-Emits :
        (lev : ℕ) (u : Bool)
        → Leads nd_div u
        → Emits m regs laws Q (ir_const_binop lev nd_div u x c)
    unfolding ir_const_binop
    const_div-Emits lev true k =
        Emits-if m regs laws (is_pow2_32 c)
          (λ p. line_Emits nd_div true k _ (Applies-unsigned_div m regs laws c hc p))
          λ _.
            Emits-if m regs laws (signed_pow2 lev true c) (λ bad. absurd (ground arith))
              λ _. skipped
    const_div-Emits lev false k =
        Emits-if m regs laws (signed_pow2 lev false c)
          (λ p.
            uid_Emits m regs laws R Q x h fresh (λ a _. m.alu nd_div false a c)
              (λ a _. laws.alu_word nd_div false a c) k _
              λ lc j c' lt hw.
                Computes-signed_div m regs laws lc c c' lt hw (ground arith) (ground arith)
                  (ground arith))
          λ _. skipped

    const_mod-Emits :
        (lev : ℕ) (u : Bool)
        → Leads nd_mod u
        → Emits m regs laws Q (ir_const_binop lev nd_mod u x c)
    unfolding ir_const_binop
    const_mod-Emits lev true k =
        Emits-if m regs laws (is_pow2_32 c)
          (λ p. line_Emits nd_mod true k _ (Applies-unsigned_mod m regs laws c hc p))
          λ _.
            Emits-if m regs laws (signed_pow2 lev true c) (λ bad. absurd (ground arith))
              λ _. skipped
    const_mod-Emits lev false k =
        Emits-if m regs laws (signed_pow2 lev false c)
          (λ p.
            uid_Emits m regs laws R Q x h fresh (λ a _. m.alu nd_mod false a c)
              (λ a _. laws.alu_word nd_mod false a c) k _
              λ lc j c' lt hw.
                Computes-signed_mod m regs laws lc c c' hw (ground arith) (ground arith)
                  (ground arith))
          λ _. skipped

    const_shift-Emits :
        (lev : ℕ) (u : Bool)
        → (Leads nd_shl u → Emits m regs laws Q (ir_const_binop lev nd_shl u x c))
          × (Leads nd_shr u → Emits m regs laws Q (ir_const_binop lev nd_shr u x c))
    unfolding ir_const_binop
    const_shift-Emits lev u = (
      λ k.
          Emits-if m regs laws (ltb c 1 || ltb 31 c) (λ _. skipped)
            λ some_shift. line_Emits nd_shl u k _ λ n cpu hw.
              Computes-eq m regs (Applies-shift m regs laws u c asl_l n cpu (ground arith))
                (sym (shl_any u cpu.d0 c)),
      λ k.
          Emits-if m regs laws (ltb c 1 || ltb 31 c) (λ _. skipped)
            λ some_shift. line_Emits nd_shr u k _ λ n cpu hw. shift_right u n cpu (ground arith),
    )
      where
        shift_right :
            (u : Bool) (n : ℕ) (cpu : Cpu m.State)
            → c ≢ 0
            → Reaches m regs n
                (shift_by (if u then lsr_l else asr_l) c)
                cpu
                (Computes m regs (m.alu nd_shr u cpu.d0 c) cpu)
        shift_right true n cpu nz = Applies-shift m regs laws true c lsr_l n cpu nz
        shift_right false n cpu nz = Applies-shift m regs laws false c asr_l n cpu nz

    -- With a constant operand behind: whatever tile ir_const_binop chooses, the word is the operator's.
    pub ir_const_binop-Emits :
        (lev : ℕ) (op : NodeKind) (u : Bool)
        → Leads op u
        → Emits m regs laws Q (ir_const_binop lev op u x c)
    unfolding ir_const_binop
    ir_const_binop-Emits lev nd_add u k =
        line_Emits nd_add u k _ λ n cpu hw. Computes-add_imm m regs laws u c cpu hw hc
    ir_const_binop-Emits lev nd_sub u k = line_Emits nd_sub u k _ λ n cpu hw.
        Computes-eq m regs (Computes-add_imm m regs laws u (neg32 c) cpu hw (omega arith))
          (laws.alu_add u cpu.d0 (neg32 c) ∙ omega arith ∙ sym (laws.alu_sub u cpu.d0 c))
    ir_const_binop-Emits lev nd_bitand u k = line_Emits nd_bitand u k _ λ n cpu hw.
        Computes-eq m regs (Computes-alu m regs andi_l (imm c) cpu)
          (laws.alu_and false cpu.d0 c hw hc ∙ sym (laws.alu_and u cpu.d0 c hw hc))
    ir_const_binop-Emits lev nd_bitor u k = line_Emits nd_bitor u k _ λ n cpu hw.
        Computes-eq m regs (Computes-alu m regs ori_l (imm c) cpu)
          (laws.alu_or false cpu.d0 c hw hc ∙ sym (laws.alu_or u cpu.d0 c hw hc))
    ir_const_binop-Emits lev nd_bitxor u k = line_Emits nd_bitxor u k _ λ n cpu hw.
        Computes-eq m regs (Computes-alu m regs eori_l (imm c) cpu)
          (laws.alu_xor false cpu.d0 c hw hc ∙ sym (laws.alu_xor u cpu.d0 c hw hc))
    ir_const_binop-Emits lev nd_eq u k =
        line_Emits nd_eq u k _
          λ n cpu hw. Applies-compare m regs laws nd_eq u (imm c) n c cpu tt hw refl hc
    ir_const_binop-Emits lev nd_ne u k =
        line_Emits nd_ne u k _
          λ n cpu hw. Applies-compare m regs laws nd_ne u (imm c) n c cpu tt hw refl hc
    ir_const_binop-Emits lev nd_lt u k =
        line_Emits nd_lt u k _
          λ n cpu hw. Applies-compare m regs laws nd_lt u (imm c) n c cpu tt hw refl hc
    ir_const_binop-Emits lev nd_le u k =
        line_Emits nd_le u k _
          λ n cpu hw. Applies-compare m regs laws nd_le u (imm c) n c cpu tt hw refl hc
    ir_const_binop-Emits lev nd_shl u k = (const_shift-Emits lev u).0 k
    ir_const_binop-Emits lev nd_shr u k = (const_shift-Emits lev u).1 k
    ir_const_binop-Emits lev nd_mul u k = const_mul-Emits lev u k
    ir_const_binop-Emits lev nd_div u k = const_div-Emits lev u k
    ir_const_binop-Emits lev nd_mod u k = const_mod-Emits lev u k
    ir_const_binop-Emits lev _ u k = skipped
