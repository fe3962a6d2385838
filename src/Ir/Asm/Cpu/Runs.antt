-- ===== src/Ir/Asm/Cpu/Runs.antt =====
-- The execution of emitted lines: in parts, and past a branch under way.
use c68k.Prelude.{ℕ, ◌≡◌, refl, false, List, [], ◌∷◌, ◌++◌}
use c68k.Ir.Meaning.{Machine}
use c68k.Ir.Asm.{Label, Insn, def_label}
use c68k.Ir.Asm.Fresh.{Outside, DefinedIn, Within, same_label-Outside}
use c68k.Ir.Asm.Cpu.{Registers, Cpu, Mode, seek, found, line, exec}

module _ (m : Machine) (regs : Registers m) where
  pub exec-append :
      (xs ys : List Insn) (md : Mode m.State)
      → exec m regs (xs ++ ys) md ≡ exec m regs ys (exec m regs xs md)
  unfolding exec
  exec-append [] ys md = refl
  exec-append (i ∷ xs) ys md = exec-append xs ys (line m regs i md)

  found-Outside :
      (lo hi : ℕ) (i : Insn) (l : Label)
      → DefinedIn lo hi i
      → Outside l lo hi
      → found m regs i l ≡ false
  found-Outside lo hi (def_label l') l h o = same_label-Outside lo hi l' l h o
  found-Outside lo hi _ l h o = refl

  -- A branch under way passes over lines that do not define its label.
  pub exec-seek :
      (lo hi : ℕ) (code : List Insn) (l : Label) (cpu : Cpu m.State)
      → Within lo hi code
      → Outside l lo hi
      → exec m regs code (seek l cpu) ≡ seek l cpu
  unfolding exec line
  exec-seek lo hi [] l cpu h o = refl
  exec-seek lo hi (i ∷ code) l cpu h o =
      rw (found-Outside lo hi i l h.0 o) (exec-seek lo hi code l cpu h.1 o)
