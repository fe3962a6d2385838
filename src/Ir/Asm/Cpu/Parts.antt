-- ===== src/Ir/Asm/Cpu/Parts.antt =====
-- Emitted code that runs to its end, put together from its parts.
use c68k.Prelude.{ℕ, ◌+◌, ◌≡◌, refl, ◌∙◌, ap}
use c68k.Ir.Meaning.{Machine}
use c68k.Ir.Asm.{Label, Emit, silent, with_uid, ◌>>◌}
use c68k.Ir.Asm.Fresh.{Fresh, Below, Below-Outside}
use c68k.Ir.Asm.Cpu.{Registers, Cpu, Mode, at, seek, exec}
use c68k.Ir.Asm.Cpu.Runs.{exec-append, exec-seek}

module _ (m : Machine) (regs : Registers m) where
  -- The lines that `x` emits from the counter `n` run from `cpu` to an end with `P`.
  pub record Reaches (n : ℕ) (x : Emit) (cpu : Cpu m.State) (P : Cpu m.State → Type 0)
      : Type 0 where
    pub after : Cpu m.State
    pub runs : exec m regs (x n).0 (at cpu) ≡ at after
    pub holds : P after

  pub exec-seq :
      (n : ℕ) (x y : Emit) (md : Mode m.State)
      → exec m regs ((do x; y) n).0 md ≡ exec m regs (y (x n).1).0 (exec m regs (x n).0 md)
  unfolding ◌>>◌
  exec-seq n x y md = exec-append m regs (x n).0 (y (x n).1).0 md

  pub Reaches-seq :
      {n : ℕ} {x y : Emit} {cpu : Cpu m.State} {P Q : Cpu m.State → Type 0}
      → Reaches n x cpu P
      → ((c : Cpu m.State) → P c → Reaches (x n).1 y c Q)
      → Reaches n (do x; y) cpu Q
  Reaches-seq {n} {x} {y} {cpu} h k =
      let r = k h.after h.holds in
      record {
        after = r.after;
        runs = exec-seq n x y (at cpu) ∙ ap (exec m regs (y (x n).1).0) h.runs ∙ r.runs;
        holds = r.holds;
      }

  pub Reaches-weaken :
      {n : ℕ} {x : Emit} {cpu : Cpu m.State} {P Q : Cpu m.State → Type 0}
      → Reaches n x cpu P
      → ((c : Cpu m.State) → P c → Q c)
      → Reaches n x cpu Q
  Reaches-weaken h f = record { after = h.after; runs = h.runs; holds = f h.after h.holds }

  pub Reaches-with_uid :
      {n : ℕ} (f : ℕ → Emit) {cpu : Cpu m.State} {P : Cpu m.State → Type 0}
      → Reaches (n + 1) (f n) cpu P
      → Reaches n (with_uid f) cpu P
  unfolding with_uid
  Reaches-with_uid f h = record { after = h.after; runs = h.runs; holds = h.holds }

  pub Reaches-silent :
      {n : ℕ} {cpu : Cpu m.State} {P : Cpu m.State → Type 0} → P cpu → Reaches n silent cpu P
  unfolding silent exec
  Reaches-silent {cpu} h = record { after = cpu; runs = refl; holds = h }

  -- A branch under way passes over code with labels of its own.
  pub Fresh-seek :
      {x : Emit} (n : ℕ) (l : Label) (cpu : Cpu m.State)
      → Fresh x
      → Below l n
      → exec m regs (x n).0 (seek l cpu) ≡ seek l cpu
  Fresh-seek {x} n l cpu h b =
      exec-seek m regs n (x n).1 (x n).0 l cpu (h.within n) (Below-Outside l n (x n).1 b)
