-- ===== src/Ir/Select/Expr/Control.antt =====
-- The branching code of ir_expr and ir_cond in src/ir68k.c: a condition's code branches to its label exactly when the
-- truth of the expression is the one asked for, and the values of `&&`, `||` and `?:`.
use Prim.Native.String.{String}
use c68k.Prelude.{
  ℕ, ◌≡◌, ◌≢◌, refl, ap, ◌∙◌, Bool, true, false, not, some, ◌==◌, arith, if◌then◌else◌,
}
use c68k.Prelude.Word.{IsWord}
use c68k.Ir.Meaning.{Machine, IsMachine}
use c68k.Ir.Asm.{Label, Insn, tst_l, bcc, Emit, emit, ◌>>◌}
use c68k.Ir.Asm.Fresh.{Below}
use c68k.Ir.Asm.Cpu.{Registers, Cpu, at, seek, branch_if, test, step, line, exec}
use c68k.Ir.Asm.Cpu.Conditions.{test_zero}
use c68k.Ir.Asm.Cpu.Parts.{Reaches, exec-seq}
use c68k.Ir.Asm.Cpu.Branches.{Sought}
use c68k.Ir.Select.Tiles.Operands.{Delivers}
use c68k.Ir.Select.Nodes.{cond_value}

pub flip : {b : Bool} → not b ≡ true → b ≡ false
flip h = ground arith

pub flip' : {b : Bool} → not b ≡ false → b ≡ true
flip' h = ground arith

pub ne_zero : (v : ℕ) → (v == 0) ≡ false → v ≢ 0
ne_zero v h e = ground arith

module _ (m : Machine) (regs : Registers m) (laws : IsMachine m) where
  -- From `cpu`, the lines of `x` end in a branch to `l` with `T`, or at their end with `F`.
  pub data Branches (n : ℕ) (x : Emit) (l : Label) (cpu : Cpu m.State) (T F : Cpu m.State → Type 0)
      : Type 0 where
    taken :
        (after : Cpu m.State)
        → exec m regs (x n).0 (at cpu) ≡ seek l after
        → T after
        → Branches n x l cpu T F
    fell :
        (after : Cpu m.State)
        → exec m regs (x n).0 (at cpu) ≡ at after
        → F after
        → Branches n x l cpu T F

  -- The expression had a value whose truth is `b`.
  abbrev pub Truth : (m.State → ℕ → m.State → Type 0) → Bool → Cpu m.State → Cpu m.State → Type 0
  Truth R b cpu c =
      (v : ℕ) × R cpu.mem v c.mem × (not (v == 0) ≡ b) × IsWord c.d0 × (c.stack ≡ cpu.stack)

  -- What ir_cond promises: a branch where the truth is `when`.
  pub record Tests (R : m.State → ℕ → m.State → Type 0) (x : Label → Bool → Emit) : Type 0 where
    pub run :
        (n : ℕ) (l : Label) (when : Bool) (cpu : Cpu m.State)
        → IsWord cpu.d0
        → Below l n
        → Branches n (x l when) l cpu (Truth R when cpu) (Truth R (not when) cpu)

  -- a condition's code, and what follows it
  pub Branches-then :
      {n : ℕ} {x y : Emit} {l : Label} {cpu : Cpu m.State} {T F P : Cpu m.State → Type 0}
      → Branches n x l cpu T F
      → ((c : Cpu m.State) → T c → Sought m regs (x n).1 y l c P)
      → ((c : Cpu m.State) → F c → Reaches m regs (x n).1 y c P)
      → Reaches m regs n (do x; y) cpu P
  Branches-then {n} {x} {y} {cpu = cpu} (taken c e p) f g =
      let r = f c p in
      record {
        after = r.after;
        runs = exec-seq m regs n x y (at cpu) ∙ ap (exec m regs (y (x n).1).0) e ∙ r.runs;
        holds = r.holds;
      }
  Branches-then {n} {x} {y} {cpu = cpu} (fell c e p) f g =
      let r = g c p in
      record {
        after = r.after;
        runs = exec-seq m regs n x y (at cpu) ∙ ap (exec m regs (y (x n).1).0) e ∙ r.runs;
        holds = r.holds;
      }

  pub Branches-after :
      {n : ℕ} {x y : Emit} {l : Label} {cpu : Cpu m.State} {P T F : Cpu m.State → Type 0}
      → Reaches m regs n x cpu P
      → ((c : Cpu m.State) → P c → Branches (x n).1 y l c T F)
      → Branches n (do x; y) l cpu T F
  Branches-after {n} {x} {y} {l} {cpu} {T = T} {F = F} h k = join (k h.after h.holds)
    where
      start : exec m regs ((do x; y) n).0 (at cpu) ≡ exec m regs (y (x n).1).0 (at h.after)
      start = exec-seq m regs n x y (at cpu) ∙ ap (exec m regs (y (x n).1).0) h.runs

      join : Branches (x n).1 y l h.after T F → Branches n (do x; y) l cpu T F
      join (taken c e p) = taken c (start ∙ e) p
      join (fell c e p) = fell c (start ∙ e) p

  Branches-line :
      {n : ℕ} (i : Insn) {y : Emit} {l : Label} {cpu : Cpu m.State} {T F : Cpu m.State → Type 0}
      (c : Cpu m.State)
      → step m regs i cpu ≡ at c
      → Branches n y l c T F
      → Branches n (do emit i; y) l cpu T F
  unfolding emit ◌>>◌ exec line
  Branches-line {n} i {y} c e (taken c' e' p) = taken c' (ap (exec m regs (y n).0) e ∙ e') p
  Branches-line {n} i {y} c e (fell c' e' p) = fell c' (ap (exec m regs (y n).0) e ∙ e') p

  pub Branches-bcc :
      {n : ℕ} (mn : String) (l : Label) {cpu : Cpu m.State} {T F : Cpu m.State → Type 0} (b : Bool)
      → test mn cpu.compared ≡ some b
      → (b ≡ true → T cpu)
      → (b ≡ false → F cpu)
      → Branches n (emit (bcc mn l)) l cpu T F
  unfolding emit exec line step
  Branches-bcc mn l {cpu} true e t f = taken cpu (ap (λ o. branch_if m regs o l cpu) e) (t refl)
  Branches-bcc mn l {cpu} false e t f = fell cpu (ap (λ o. branch_if m regs o l cpu) e) (f refl)

  -- a value, tested against zero
  pub cond_value-Tests :
      {R : m.State → ℕ → m.State → Type 0} {x : Emit}
      → Delivers m regs laws R x
      → Tests R (cond_value x)
  unfolding cond_value step
  cond_value-Tests {R} {x} h = record {
    run = λ n l when cpu hw below.
        Branches-after (h.run n cpu hw)
          λ c p. Branches-line tst_l _ refl (zero_test when l c cpu p);
  }
    where
      zero_test :
          (when : Bool) (l : Label) (c cpu : Cpu m.State) {n : ℕ}
          → R cpu.mem c.d0 c.mem × IsWord c.d0 × (c.stack ≡ cpu.stack)
          → Branches n
              (emit (bcc (if when then "bne" else "beq") l))
              l
              (record c { compared = some (c.d0, 0) })
              (Truth R when cpu)
              (Truth R (not when) cpu)
      zero_test true l c cpu p =
          Branches-bcc "bne" l (not (c.d0 == 0)) (test_zero c.d0).1 (λ e. (c.d0, p.0, e, p.1, p.2))
            (λ e. (c.d0, p.0, e, p.1, p.2))
      zero_test false l c cpu p =
          Branches-bcc "beq" l (c.d0 == 0) (test_zero c.d0).0 (λ e. (c.d0, p.0, ap not e, p.1, p.2))
            (λ e. (c.d0, p.0, ap not e, p.1, p.2))
