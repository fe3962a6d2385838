-- ===== src/Ir/Select/Tiles/Sides.antt =====
-- The other tiles of ir_binop in src/ir68k.c: a constant on the left, an operand in memory, and the general
-- path through the stack.
use c68k.Prelude.{ℕ, ◌≡◌, refl, sym, ap, ◌∙◌, Bool, true, false, some, arith}
use mathlib.Core.Path.{subst}
use c68k.Prelude.Bits.{bit_ops_comm}
use c68k.Prelude.Word.{IsWord}
use c68k.Ir.Expr.{
  NodeKind, same_op, same_op→eq, nd_add, nd_sub, nd_mul, nd_div, nd_mod, nd_bitand, nd_bitor,
  nd_bitxor, nd_shl, nd_shr, nd_eq, nd_ne, nd_lt, nd_le, nd_neg, nd_not, nd_bitnot,
}
use c68k.Ir.Meaning.{Machine, IsMachine}
use c68k.Ir.Rel.{is_commutative, rel_of, r_lt, r_le}
use c68k.Ir.Rel.Laws.{holds, IsComparison}
use c68k.Ir.Asm.{
  Ea, imm, d1, size_l, Mnem, add_l, sub_l, and_l, or_l, eor_l, asl_l, lsr_l, asr_l, alu, Emit, emit,
  ◌>>◌, jsr_helper, mulsi3, divsi3, modsi3, udivsi3, umodsi3,
}
use c68k.Ir.Asm.Fresh.{Fresh}
use c68k.Ir.Asm.Cpu.{Registers, Cpu, op_of, fetch, step}
use c68k.Ir.Asm.Cpu.Conditions.{test_left_lt, test_left_le}
use c68k.Ir.Asm.Cpu.Parts.{Reaches}
use c68k.Ir.Asm.Cpu.Values.{Computes, Reaches-emit, Computes-eq, Computes-alu, Computes-compare}
use c68k.Ir.Select.Tiles.{ir_const_binop_left, mem_tile, general_op, compare_with, scc_mnem}
use c68k.Ir.Select.Tiles.Operands.{
  Applies-compare, alu_compare, Delivers, Emits, skipped, Emits-if, then_Emits,
}
use c68k.Ir.Select.Tiles.Right.{ir_const_binop-Emits}

-- the operators that the builder gives a binary node
abbrev pub IsBinary : NodeKind → Type 0
IsBinary nd_neg = ⊥
IsBinary nd_not = ⊥
IsBinary nd_bitnot = ⊥
IsBinary _ = Unit

module _ (m : Machine) (regs : Registers m) (laws : IsMachine m)
    (shl_any : (u : Bool) (a n : ℕ) → m.alu nd_shl u a n ≡ m.alu nd_shl false a n) where
  -- the operators that is_commutative names
  alu_comm :
      (op : NodeKind) (u : Bool) (a b : ℕ)
      → is_commutative op ≡ true
      → IsWord a
      → IsWord b
      → m.alu op u a b ≡ m.alu op u b a
  unfolding is_commutative
  alu_comm nd_add u a b h ha hb = laws.alu_add u a b ∙ omega arith ∙ sym (laws.alu_add u b a)
  alu_comm nd_mul u a b h ha hb = laws.alu_mul u a b ∙ (grind arith) ∙ sym (laws.alu_mul u b a)
  alu_comm nd_bitand u a b h ha hb =
      laws.alu_and u a b ha hb ∙ (bit_ops_comm a b).0 ∙ sym (laws.alu_and u b a hb ha)
  alu_comm nd_bitor u a b h ha hb =
      laws.alu_or u a b ha hb ∙ (bit_ops_comm a b).1 ∙ sym (laws.alu_or u b a hb ha)
  alu_comm nd_bitxor u a b h ha hb =
      laws.alu_xor u a b ha hb ∙ (bit_ops_comm a b).2 ∙ sym (laws.alu_xor u b a hb ha)
  alu_comm nd_eq u a b h ha hb = laws.alu_eq u a b ∙ (ground arith) ∙ sym (laws.alu_eq u b a)
  alu_comm nd_ne u a b h ha hb = laws.alu_ne u a b ∙ (ground arith) ∙ sym (laws.alu_ne u b a)
  alu_comm _ u a b h ha hb = cc

  -- operators whose instruction is the same for both signednesses
  abbrev IsSignless : NodeKind → Type 0
  IsSignless nd_add = Unit
  IsSignless nd_sub = Unit
  IsSignless nd_mul = Unit
  IsSignless nd_bitand = Unit
  IsSignless nd_bitor = Unit
  IsSignless nd_bitxor = Unit
  IsSignless nd_shl = Unit
  IsSignless _ = ⊥

  alu_signless :
      (op : NodeKind) (u : Bool) (a b : ℕ)
      → IsSignless op
      → IsWord a
      → IsWord b
      → m.alu op false a b ≡ m.alu op u a b
  alu_signless nd_add u a b h ha hb = laws.alu_add false a b ∙ sym (laws.alu_add u a b)
  alu_signless nd_sub u a b h ha hb = laws.alu_sub false a b ∙ sym (laws.alu_sub u a b)
  alu_signless nd_mul u a b h ha hb = laws.alu_mul false a b ∙ sym (laws.alu_mul u a b)
  alu_signless nd_bitand u a b h ha hb =
      laws.alu_and false a b ha hb ∙ sym (laws.alu_and u a b ha hb)
  alu_signless nd_bitor u a b h ha hb = laws.alu_or false a b ha hb ∙ sym (laws.alu_or u a b ha hb)
  alu_signless nd_bitxor u a b h ha hb =
      laws.alu_xor false a b ha hb ∙ sym (laws.alu_xor u a b ha hb)
  alu_signless nd_shl u a b h ha hb = sym (shl_any u a b)
  alu_signless _ u a b h ha hb = absurd h

  module _ (R Q : m.State → ℕ → m.State → Type 0) (x : Emit) (h : Delivers m regs laws R x)
      (fresh : Fresh x) where
    -- With the constant on the left, `x` is the code of the right operand.
    pub ir_const_binop_left-Emits :
        (lev : ℕ) (op : NodeKind) (u : Bool) (c : ℕ)
        → IsWord c
        → ((s : m.State) (b : ℕ) (s' : m.State) → R s b s' → IsWord b → Q s (m.alu op u c b) s')
        → Emits m regs laws Q (ir_const_binop_left lev op u x c)
    unfolding ir_const_binop_left rel_of
    ir_const_binop_left-Emits lev op u c hc k =
        Emits-if m regs laws (is_commutative op)
          (λ comm.
            ir_const_binop-Emits m regs laws shl_any R Q x h fresh c hc lev op u
              λ s b s' r hb. subst (λ v. Q s v s') (alu_comm op u c b comm hc hb) (k s b s' r hb))
          λ _.
            Emits-if m regs laws (same_op op nd_lt)
              (λ lt.
                then_Emits m regs laws R Q x h fresh (λ b _. m.alu nd_lt u c b)
                  (λ b _. laws.alu_word nd_lt u c b)
                  (λ s b s' r hb.
                    subst (λ o. Q s (m.alu o u c b) s') (same_op→eq op nd_lt lt) (k s b s' r hb))
                  _
                  λ n cpu hw.
                    Computes-eq m regs
                      (Computes-compare m regs laws (imm c) _ (holds r_lt u c cpu.d0) cpu hw
                        (test_left_lt u cpu.d0 c hw hc))
                      (alu_compare m laws nd_lt u c cpu.d0 tt))
              λ _.
                Emits-if m regs laws (same_op op nd_le)
                  (λ le.
                    then_Emits m regs laws R Q x h fresh (λ b _. m.alu nd_le u c b)
                      (λ b _. laws.alu_word nd_le u c b)
                      (λ s b s' r hb.
                        subst (λ o. Q s (m.alu o u c b) s') (same_op→eq op nd_le le)
                          (k s b s' r hb))
                      _
                      λ n cpu hw.
                        Computes-eq m regs
                          (Computes-compare m regs laws (imm c) _ (holds r_le u c cpu.d0) cpu hw
                            (test_left_le u cpu.d0 c hw hc))
                          (alu_compare m laws nd_le u c cpu.d0 tt))
                  λ _. skipped

    -- an operand whose value in any state is `val`
    module _ (ea : Ea) (val : m.State → ℕ)
        (is_val : (cpu : Cpu m.State) → fetch m regs size_l ea cpu ≡ val cpu.mem)
        (word : (s : m.State) → IsWord (val s)) where
      abbrev Leads : NodeKind → Bool → Type 0
      Leads op u =
          (s : m.State) (a : ℕ) (s' : m.State)
          → R s a s'
          → IsWord a
          → Q s (m.alu op u a (val s')) s'

      mem_line :
          (op : NodeKind) (u : Bool) (t : Emit)
          → Leads op u
          → ((n : ℕ) (cpu : Cpu m.State)
              → IsWord cpu.d0
              → Reaches m regs n t cpu (Computes m regs (m.alu op u cpu.d0 (val cpu.mem)) cpu))
          → Emits m regs laws Q (some (do x; t))
      mem_line op u t k a =
          then_Emits m regs laws R Q x h fresh (λ v s. m.alu op u v (val s))
            (λ v s. laws.alu_word op u v (val s)) k t a

      mem_alu :
          (mn : Mnem) (u : Bool)
          → (op_of mn).1 ≡ false
          → IsSignless (op_of mn).0
          → Leads (op_of mn).0 u
          → Emits m regs laws Q (some (do x; emit (alu mn ea)))
      mem_alu mn u plain signless k = mem_line (op_of mn).0 u _ k λ n cpu hw.
          Computes-eq m regs (Computes-alu m regs mn ea cpu) (
            ap (m.alu (op_of mn).0 (op_of mn).1 cpu.d0) (is_val cpu)
            ∙ ap (λ b. m.alu (op_of mn).0 b cpu.d0 (val cpu.mem)) plain
            ∙ alu_signless (op_of mn).0 u cpu.d0 (val cpu.mem) signless hw (word cpu.mem))

      mem_compare :
          (op : NodeKind) (u : Bool)
          → IsComparison op
          → Leads op u
          → Emits m regs laws Q (some (do x; compare_with ea (scc_mnem op u)))
      mem_compare op u h k = mem_line op u _ k λ n cpu hw.
          Applies-compare m regs laws op u ea n (val cpu.mem) cpu h hw (is_val cpu) (word cpu.mem)

      pub mem_tile-Emits :
          (op : NodeKind) (u : Bool) → Leads op u → Emits m regs laws Q (mem_tile op u x ea)
      unfolding mem_tile
      mem_tile-Emits nd_add u k = mem_alu add_l u refl tt k
      mem_tile-Emits nd_sub u k = mem_alu sub_l u refl tt k
      mem_tile-Emits nd_bitand u k = mem_alu and_l u refl tt k
      mem_tile-Emits nd_bitor u k = mem_alu or_l u refl tt k
      mem_tile-Emits nd_eq u k = mem_compare nd_eq u tt k
      mem_tile-Emits nd_ne u k = mem_compare nd_ne u tt k
      mem_tile-Emits nd_lt u k = mem_compare nd_lt u tt k
      mem_tile-Emits nd_le u k = mem_compare nd_le u tt k
      mem_tile-Emits _ u k = skipped

  -- Behind `cg_pop("d1")`: the operator on D0 and D1
  pub general_op-Computes :
      (op : NodeKind) (u : Bool) (n : ℕ) (cpu : Cpu m.State)
      → IsBinary op
      → IsWord cpu.d0
      → IsWord cpu.d1
      → Reaches m regs n (general_op op u) cpu (Computes m regs (m.alu op u cpu.d0 cpu.d1) cpu)
  unfolding general_op step
  general_op-Computes nd_add u n cpu h ha hb =
      Computes-eq m regs (Computes-alu m regs add_l d1 cpu) (alu_signless nd_add u _ _ tt ha hb)
  general_op-Computes nd_sub u n cpu h ha hb =
      Computes-eq m regs (Computes-alu m regs sub_l d1 cpu) (alu_signless nd_sub u _ _ tt ha hb)
  general_op-Computes nd_bitand u n cpu h ha hb =
      Computes-eq m regs (Computes-alu m regs and_l d1 cpu) (alu_signless nd_bitand u _ _ tt ha hb)
  general_op-Computes nd_bitor u n cpu h ha hb =
      Computes-eq m regs (Computes-alu m regs or_l d1 cpu) (alu_signless nd_bitor u _ _ tt ha hb)
  general_op-Computes nd_bitxor u n cpu h ha hb =
      Computes-eq m regs (Computes-alu m regs eor_l d1 cpu) (alu_signless nd_bitxor u _ _ tt ha hb)
  general_op-Computes nd_shl u n cpu h ha hb =
      Computes-eq m regs (Computes-alu m regs asl_l d1 cpu) (sym (shl_any u _ _))
  general_op-Computes nd_shr true n cpu h ha hb = Computes-alu m regs lsr_l d1 cpu
  general_op-Computes nd_shr false n cpu h ha hb = Computes-alu m regs asr_l d1 cpu
  general_op-Computes nd_mul u n cpu h ha hb =
      Reaches-emit m regs (jsr_helper mulsi3) _ refl
        (alu_signless nd_mul u _ _ tt ha hb, refl, refl)
  general_op-Computes nd_div true n cpu h ha hb =
      Reaches-emit m regs (jsr_helper udivsi3) _ refl (refl, refl, refl)
  general_op-Computes nd_div false n cpu h ha hb =
      Reaches-emit m regs (jsr_helper divsi3) _ refl (refl, refl, refl)
  general_op-Computes nd_mod true n cpu h ha hb =
      Reaches-emit m regs (jsr_helper umodsi3) _ refl (refl, refl, refl)
  general_op-Computes nd_mod false n cpu h ha hb =
      Reaches-emit m regs (jsr_helper modsi3) _ refl (refl, refl, refl)
  general_op-Computes nd_eq u n cpu h ha hb =
      Applies-compare m regs laws nd_eq u d1 n cpu.d1 cpu tt ha refl hb
  general_op-Computes nd_ne u n cpu h ha hb =
      Applies-compare m regs laws nd_ne u d1 n cpu.d1 cpu tt ha refl hb
  general_op-Computes nd_lt u n cpu h ha hb =
      Applies-compare m regs laws nd_lt u d1 n cpu.d1 cpu tt ha refl hb
  general_op-Computes nd_le u n cpu h ha hb =
      Applies-compare m regs laws nd_le u d1 n cpu.d1 cpu tt ha refl hb
  general_op-Computes _ u n cpu h ha hb = absurd h
