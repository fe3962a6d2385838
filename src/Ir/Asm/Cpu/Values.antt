-- ===== src/Ir/Asm/Cpu/Values.antt =====
-- Lines that leave a value in D0, and the rest of the machine as it was.
use Prim.Native.String.{String}
use c68k.Prelude.{ℕ, ◌≡◌, refl, ◌∙◌, ap, Bool, true, false, none, some, arith, if◌then◌else◌}
use c68k.Prelude.Word.{IsWord, of_bool}
use c68k.Ir.Expr.{nd_bitand}
use c68k.Ir.Meaning.{Machine, IsMachine}
use c68k.Ir.Asm.{Ea, imm, Mnem, andi_l, Insn, alu, cmp_l, scc, Emit, emit, ◌>>◌, size_l, size_b}
use c68k.Ir.Asm.Cpu.{Registers, Cpu, at, op_of, fetch, merge, set_if, test, step, line, exec}
use c68k.Ir.Asm.Cpu.Parts.{Reaches, Reaches-seq, Reaches-weaken}
use c68k.Ir.Select.Powers.{bit_and-mask}
use c68k.Ir.Select.Tiles.{compare_with}

module _ (m : Machine) (regs : Registers m) where
  -- D0 has the value `v`, and memory and the pushed words are as in `cpu`.
  abbrev pub Computes : ℕ → Cpu m.State → Cpu m.State → Type 0
  Computes v cpu c = (c.d0 ≡ v) × (c.mem ≡ cpu.mem) × (c.stack ≡ cpu.stack)

  pub Reaches-if :
      (b : Bool) {n : ℕ} {x y : Emit} {cpu : Cpu m.State} {P : Cpu m.State → Type 0}
      → (b ≡ true → Reaches m regs n x cpu P)
      → (b ≡ false → Reaches m regs n y cpu P)
      → Reaches m regs n (if b then x else y) cpu P
  Reaches-if true f g = f refl
  Reaches-if false f g = g refl

  -- one line
  pub Reaches-emit :
      {n : ℕ} (i : Insn) {cpu : Cpu m.State} {P : Cpu m.State → Type 0} (c : Cpu m.State)
      → step m regs i cpu ≡ at c
      → P c
      → Reaches m regs n (emit i) cpu P
  unfolding emit exec line
  Reaches-emit i c e p = record { after = c; runs = e; holds = p }

  -- a line, and then the rest
  pub Reaches-line :
      {n : ℕ} (i : Insn) {y : Emit} {cpu : Cpu m.State} {P : Cpu m.State → Type 0} (c : Cpu m.State)
      → step m regs i cpu ≡ at c
      → Reaches m regs n y c P
      → Reaches m regs n (do emit i; y) cpu P
  unfolding emit exec line ◌>>◌
  Reaches-line {n} i {y} c e h = record {
    after = h.after;
    runs = ap (exec m regs (y n).0) e ∙ h.runs;
    holds = h.holds;
  }

  pub Computes-eq :
      {n : ℕ} {x : Emit} {cpu : Cpu m.State} {v w : ℕ}
      → Reaches m regs n x cpu (Computes v cpu)
      → v ≡ w
      → Reaches m regs n x cpu (Computes w cpu)
  Computes-eq h e = Reaches-weaken m regs h λ c p. (p.0 ∙ e, p.1, p.2)

  pub Computes-seq :
      {n : ℕ} {x y : Emit} {cpu : Cpu m.State} {v w : ℕ}
      → Reaches m regs n x cpu (Computes v cpu)
      → ((c : Cpu m.State) → Computes v cpu c → Reaches m regs (x n).1 y c (Computes w c))
      → Reaches m regs n (do x; y) cpu (Computes w cpu)
  Computes-seq h k =
      Reaches-seq m regs h λ c p. Reaches-weaken m regs (k c p) λ c' q. (q.0, q.1 ∙ p.1, q.2 ∙ p.2)

  pub Computes-alu :
      {n : ℕ} (mn : Mnem) (ea : Ea) (cpu : Cpu m.State)
      → Reaches m regs n
          (emit (alu mn ea))
          cpu
          (Computes (m.alu (op_of mn).0 (op_of mn).1 cpu.d0 (fetch m regs size_l ea cpu)) cpu)
  unfolding step
  Computes-alu mn ea cpu = Reaches-emit (alu mn ea) _ refl (refl, refl, refl)

  module _ (laws : IsMachine m) where
    low_bit :
        (d : ℕ) (b : Bool)
        → IsWord d
        → m.alu nd_bitand false (merge size_b d (if b then 255 else 0)) 1 ≡ of_bool b
    low_bit d true h =
        laws.alu_and false _ 1 (omega arith) (omega arith) ∙ bit_and-mask 1 _ ∙ omega arith
    low_bit d false h =
        laws.alu_and false _ 1 (omega arith) (omega arith) ∙ bit_and-mask 1 _ ∙ omega arith

    -- `scc d0; andi.l #1,d0` leaves the truth of the condition.
    pub Computes-scc :
        {n : ℕ} (cc : String) (b : Bool) (cpu : Cpu m.State)
        → IsWord cpu.d0
        → test cc cpu.compared ≡ some b
        → Reaches m regs n
            (do emit (scc cc); emit (alu andi_l (imm 1)))
            cpu
            (Computes (of_bool b) cpu)
    unfolding step
    Computes-scc cc b cpu h e =
        let d = merge size_b cpu.d0 (if b then 255 else 0) in
        Reaches-line (scc cc) (record cpu { d0 = d; compared = none })
          (ap (λ t. set_if m regs t cpu) e)
          (Computes-eq (Computes-alu andi_l (imm 1) _) (low_bit cpu.d0 b h))

    -- `cmp.l ea,d0` and then the same
    pub Computes-compare :
        {n : ℕ} (ea : Ea) (cc : String) (b : Bool) (cpu : Cpu m.State)
        → IsWord cpu.d0
        → test cc (some (cpu.d0, fetch m regs size_l ea cpu)) ≡ some b
        → Reaches m regs n (compare_with ea cc) cpu (Computes (of_bool b) cpu)
    unfolding step
    Computes-compare ea cc b cpu h e = Reaches-line (cmp_l ea) _ refl (Computes-scc cc b _ h e)
