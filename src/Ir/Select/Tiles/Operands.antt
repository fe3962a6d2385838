-- ===== src/Ir/Select/Tiles/Operands.antt =====
-- What the code for an operand delivers, and the lines that a tile of src/ir68k.c puts behind it.
use Prim.Native.Nat.{bit_and}
use c68k.Prelude.{
  ℕ, ◌+◌, ◌-◌, ◌/◌, ◌%◌, ◌≤◌, ◌<◌, ◌≡◌, ◌≢◌, refl, sym, ap, ◌∙◌, Bool, true, false, Option, none,
  some, arith, if◌then◌else◌,
}
use mathlib.Core.Path.{subst}
use c68k.Prelude.Word.{IsWord, of_bool}
use c68k.Ir.Expr.{NodeKind, nd_div, nd_mod, nd_shr, nd_eq, nd_ne, nd_lt, nd_le}
use c68k.Ir.Meaning.{Machine, IsMachine}
use c68k.Ir.Rel.{rel_of}
use c68k.Ir.Rel.Laws.{holds, IsComparison}
use c68k.Ir.Asm.{Ea, Mnem, imm, size_l, lsr_l, andi_l, alu, Emit, emit, with_uid, ◌>>◌}
use c68k.Ir.Asm.Cpu.{Registers, Cpu, op_of, fetch}
use c68k.Ir.Asm.Cpu.Conditions.{test-scc_mnem}
use c68k.Ir.Asm.Cpu.Parts.{Reaches, Reaches-seq, Reaches-weaken, Reaches-with_uid}
use c68k.Ir.Asm.Cpu.Values.{Computes, Computes-eq, Computes-alu, Computes-compare}
use c68k.Ir.Asm.Fresh.{Fresh}
use c68k.Ir.Select.{is_pow2_32, ctz32, shift_by}
use c68k.Ir.Select.Powers.{is_pow2-ctz, is_pow2-ne_zero, bit_and-mask}
use c68k.Ir.Select.Tiles.{scc_mnem, compare_with}
use c68k.Ir.Select.Tiles.Shifts.{Computes-shift_by}

-- A comparison as the machine's operation, by the relation that its branch tests
pub alu_compare :
    (m : Machine)
    → IsMachine m
    → (op : NodeKind) (u : Bool) (a b : ℕ) → IsComparison op
    → of_bool (holds (rel_of op) u a b) ≡ m.alu op u a b
unfolding rel_of
alu_compare m laws nd_eq u a b h = sym (laws.alu_eq u a b)
alu_compare m laws nd_ne u a b h = sym (laws.alu_ne u a b)
alu_compare m laws nd_lt true a b h = sym (laws.alu_ult a b)
alu_compare m laws nd_lt false a b h = sym (laws.alu_slt a b)
alu_compare m laws nd_le true a b h = sym (laws.alu_ule a b)
alu_compare m laws nd_le false a b h = sym (laws.alu_sle a b)
alu_compare m laws _ u a b h = absurd h

module _ (m : Machine) (regs : Registers m) (laws : IsMachine m) where
  -- The code `x`, which is fresh, computes `f` of what D0 holds.
  abbrev pub Applies : Emit → (ℕ → ℕ) → Type 0
  Applies x f =
      (n : ℕ) (cpu : Cpu m.State)
      → IsWord cpu.d0
      → Reaches m regs n x cpu (Computes m regs (f cpu.d0) cpu)

  pub Applies-compare :
      (op : NodeKind) (u : Bool) (ea : Ea) (n v : ℕ) (cpu : Cpu m.State)
      → IsComparison op
      → IsWord cpu.d0
      → fetch m regs size_l ea cpu ≡ v
      → IsWord v
      → Reaches m regs n
          (compare_with ea (scc_mnem op u))
          cpu
          (Computes m regs (m.alu op u cpu.d0 v) cpu)
  Applies-compare op u ea n v cpu h hd e hv =
      let w = fetch m regs size_l ea cpu in
      let hw = subst IsWord (sym e) hv in
      Computes-eq m regs
        (Computes-compare m regs laws ea (scc_mnem op u) (holds (rel_of op) u cpu.d0 w) cpu hd
          (test-scc_mnem op u cpu.d0 w h hd hw))
        (alu_compare m laws op u cpu.d0 w h ∙ ap (m.alu op u cpu.d0) e)

  pub Applies-shift :
      (u : Bool) (c : ℕ) (op : Mnem) (n : ℕ) (cpu : Cpu m.State)
      → c ≢ 0
      → Reaches m regs n
          (shift_by op c)
          cpu
          (Computes m regs (m.alu (op_of op).0 (op_of op).1 cpu.d0 c) cpu)
  Applies-shift u c op n cpu nz = Computes-shift_by m regs laws op c cpu λ z. absurd (nz z)

  pub Applies-unsigned_div :
      (c : ℕ)
      → IsWord c
      → is_pow2_32 c ≡ true
      → Applies (shift_by lsr_l (ctz32 c)) (λ a. m.alu nd_div true a c)
  Applies-unsigned_div c hc p n cpu h =
      let (e, small) = is_pow2-ctz c hc p in
      let shifted = laws.alu_shr cpu.d0 in
      Computes-eq m regs
        (Computes-shift_by m regs laws lsr_l (ctz32 c) cpu
          λ z. ap (m.alu nd_shr true cpu.d0) z ∙ shifted 0 h (omega arith) ∙ (omega arith))
        (shifted (ctz32 c) h small
          ∙ ap (λ (t : ℕ). cpu.d0 / t) (sym e)
          ∙ sym (laws.alu_udiv cpu.d0 c h hc (is_pow2-ne_zero c p)))

  pub Applies-unsigned_mod :
      (c : ℕ)
      → IsWord c
      → is_pow2_32 c ≡ true
      → Applies (emit (alu andi_l (imm (c - 1)))) (λ a. m.alu nd_mod true a c)
  Applies-unsigned_mod c hc p n cpu h =
      let (e, small) = is_pow2-ctz c hc p in
      Computes-eq m regs (Computes-alu m regs andi_l (imm (c - 1)) cpu) (
        laws.alu_and false cpu.d0 (c - 1) h (omega arith)
        ∙ ap (λ (t : ℕ). bit_and cpu.d0 (t - 1)) e
        ∙ bit_and-mask (ctz32 c) cpu.d0
        ∙ ap (λ (t : ℕ). cpu.d0 % t) (sym e)
        ∙ sym (laws.alu_umod cpu.d0 c h hc (is_pow2-ne_zero c p)))

  -- What the code for an operand delivers: a word in D0, with `R` between the state before, the word and
  -- the state behind.
  pub record Delivers (R : m.State → ℕ → m.State → Type 0) (x : Emit) : Type 0 where
    pub run :
        (n : ℕ) (cpu : Cpu m.State)
        → IsWord cpu.d0
        → Reaches m regs n x cpu (λ c. R cpu.mem c.d0 c.mem × IsWord c.d0 × (c.stack ≡ cpu.stack))

  pub data Emits (R : m.State → ℕ → m.State → Type 0) : Option Emit → Type 0 where
    skipped : Emits R none
    emitted : {x : Emit} → Delivers R x → Emits R (some x)

  pub Emits-if :
      {R : m.State → ℕ → m.State → Type 0} (b : Bool) {x y : Option Emit}
      → (b ≡ true → Emits R x)
      → (b ≡ false → Emits R y)
      → Emits R (if b then x else y)
  Emits-if true f g = f refl
  Emits-if false f g = g refl

  module _ (R Q : m.State → ℕ → m.State → Type 0) (x : Emit) (h : Delivers R x) (fresh : Fresh x)
      (f : ℕ → m.State → ℕ) (f_word : (a : ℕ) (s : m.State) → IsWord (f a s))
      (step_to : (s : m.State) (a : ℕ) (s' : m.State) → R s a s' → IsWord a → Q s (f a s') s') where
    -- the operand and then `t`, from a state of the counter
    then_run :
        (n : ℕ) (t : Emit) (cpu : Cpu m.State)
        → IsWord cpu.d0
        → ((k : ℕ) (c' : Cpu m.State)
            → n ≤ k
            → IsWord c'.d0
            → Reaches m regs k t c' (Computes m regs (f c'.d0 c'.mem) c'))
        → Reaches m regs n
            (do x; t)
            cpu
            (λ c'. Q cpu.mem c'.d0 c'.mem × IsWord c'.d0 × (c'.stack ≡ cpu.stack))
    then_run n t cpu hw k = Reaches-seq m regs (h.run n cpu hw) λ c1 p.
        Reaches-weaken m regs (k (x n).1 c1 (fresh.grows n) p.1) λ c2 q. (
          rw (q.0, q.1) (step_to cpu.mem c1.d0 c1.mem p.0 p.1),
          subst IsWord (sym q.0) (f_word c1.d0 c1.mem),
          q.2 ∙ p.2,
        )

    pub then_Emits :
        (t : Emit)
        → ((n : ℕ) (cpu : Cpu m.State)
            → IsWord cpu.d0
            → Reaches m regs n t cpu (Computes m regs (f cpu.d0 cpu.mem) cpu))
        → Emits Q (some (do x; t))
    then_Emits t k =
        emitted (record { run = λ n cpu hw. then_run n t cpu hw (λ j c' _ hc. k j c' hc) })

    pub uid_Emits :
        (t : ℕ → Emit)
        → ((lc k : ℕ) (c' : Cpu m.State)
            → lc < k
            → IsWord c'.d0
            → Reaches m regs k (t lc) c' (Computes m regs (f c'.d0 c'.mem) c'))
        → Emits Q (some (with_uid λ lc. do x; t lc))
    uid_Emits t k = emitted (record {
      run = λ n cpu hw.
          Reaches-with_uid m regs _
            (then_run (n + 1) (t n) cpu hw (λ j c' le hc. k n j c' (omega arith) hc));
    })
