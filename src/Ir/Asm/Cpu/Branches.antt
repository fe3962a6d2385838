-- ===== src/Ir/Asm/Cpu/Branches.antt =====
-- Taken branches on their way through emitted code.
use Prim.Native.String.{String}
use c68k.Prelude.{ℕ, ◌≡◌, refl, ◌∙◌, ap, Bool, true, false, some, arith, if◌then◌else◌}
use c68k.Ir.Meaning.{Machine}
use c68k.Ir.Asm.{
  Family, Label, numbered, same_family, same_label, Insn, def_label, bcc, bra, Emit, emit, ◌>>◌,
}
use c68k.Ir.Asm.Fresh.{Fresh, Below, same_label_self}
use c68k.Ir.Asm.Cpu.{Registers, Cpu, at, seek, found, branch_if, test, step, line, exec}
use c68k.Ir.Asm.Cpu.Parts.{Reaches, exec-seq, Fresh-seek}

module _ (m : Machine) (regs : Registers m) where
  -- A branch to `l` under way in front of the lines of `x` finds the label, and they reach an end with `P`.
  pub record Sought (n : ℕ) (x : Emit) (l : Label) (cpu : Cpu m.State) (P : Cpu m.State → Type 0)
      : Type 0 where
    pub after : Cpu m.State
    pub runs : exec m regs (x n).0 (seek l cpu) ≡ at after
    pub holds : P after

  module _ {n : ℕ} {y : Emit} {cpu : Cpu m.State} {P : Cpu m.State → Type 0} where
    pub Reaches-bcc :
        (mn : String) (l : Label) (b : Bool)
        → test mn cpu.compared ≡ some b
        → (b ≡ true → Sought n y l cpu P)
        → (b ≡ false → Reaches m regs n y cpu P)
        → Reaches m regs n (do emit (bcc mn l); y) cpu P
    unfolding emit ◌>>◌ exec line step
    Reaches-bcc mn l true e f g =
        let r = f refl in
        record {
          after = r.after;
          runs = ap (λ t. exec m regs (y n).0 (branch_if m regs t l cpu)) e ∙ r.runs;
          holds = r.holds;
        }
    Reaches-bcc mn l false e f g =
        let r = g refl in
        record {
          after = r.after;
          runs = ap (λ t. exec m regs (y n).0 (branch_if m regs t l cpu)) e ∙ r.runs;
          holds = r.holds;
        }

    pub Reaches-bra : {l : Label} → Sought n y l cpu P → Reaches m regs n (do emit (bra l); y) cpu P
    unfolding emit ◌>>◌ exec line step
    Reaches-bra r = record { after = r.after; runs = r.runs; holds = r.holds }

    pub Reaches-label :
        (l : Label) → Reaches m regs n y cpu P → Reaches m regs n (do emit (def_label l); y) cpu P
    unfolding emit ◌>>◌ exec line step
    Reaches-label l r = record { after = r.after; runs = r.runs; holds = r.holds }

    -- the label sought
    pub Sought-here :
        (f : Family) (k : ℕ)
        → Reaches m regs n y cpu P
        → Sought n (do emit (def_label (numbered f k)); y) (numbered f k) cpu P
    unfolding emit ◌>>◌ exec line
    Sought-here f k r = record {
      after = r.after;
      runs =
          ap (λ b. exec m regs (y n).0 (if b then at cpu else seek (numbered f k) cpu))
            (same_label_self f k)
          ∙ r.runs;
      holds = r.holds;
    }

    -- a line that is not the label sought
    pub Sought-line :
        (i : Insn) {l : Label}
        → found m regs i l ≡ false
        → Sought n y l cpu P
        → Sought n (do emit i; y) l cpu P
    unfolding emit ◌>>◌ exec line
    Sought-line i {l} e r = record {
      after = r.after;
      runs = ap (λ b. exec m regs (y n).0 (if b then at cpu else seek l cpu)) e ∙ r.runs;
      holds = r.holds;
    }

  -- code that defines labels of its own only
  pub Sought-code :
      {n : ℕ} {x y : Emit} {cpu : Cpu m.State} {P : Cpu m.State → Type 0} {l : Label}
      → Fresh x
      → Below l n
      → Sought (x n).1 y l cpu P
      → Sought n (do x; y) l cpu P
  Sought-code {n} {x} {y} {cpu} {l} h b r = record {
    after = r.after;
    runs =
        exec-seq m regs n x y (seek l cpu)
        ∙ ap (exec m regs (y (x n).1).0) (Fresh-seek m regs n l cpu h b)
        ∙ r.runs;
    holds = r.holds;
  }

  -- the label sought, at the end
  pub Sought-end :
      {n : ℕ} {cpu : Cpu m.State} {P : Cpu m.State → Type 0} (f : Family) (k : ℕ)
      → P cpu
      → Sought n (emit (def_label (numbered f k))) (numbered f k) cpu P
  unfolding emit exec line
  Sought-end {cpu} f k h = record {
    after = cpu;
    runs = ap (λ b. if b then at cpu else seek (numbered f k) cpu) (same_label_self f k);
    holds = h;
  }

  -- a label passed at the end
  pub Reaches-end :
      {n : ℕ} {cpu : Cpu m.State} {P : Cpu m.State → Type 0} (l : Label)
      → P cpu
      → Reaches m regs n (emit (def_label l)) cpu P
  unfolding emit exec line step
  Reaches-end {cpu} l h = record { after = cpu; runs = refl; holds = h }

  -- a label of another family
  pub found-other :
      (f g : Family) (k : ℕ)
      → same_family f g ≡ false
      → found m regs (def_label (numbered f k)) (numbered g k) ≡ false
  unfolding same_label
  found-other f g k e = ground (arith, e)
