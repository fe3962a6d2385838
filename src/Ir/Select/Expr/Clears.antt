-- ===== src/Ir/Select/Expr/Clears.antt =====
-- ir_memzero of src/ir68k.c, where it needs no loop in the code: a register, or `clr` by longs, a word and a byte.
use c68k.Prelude.{
  ℕ, zero, suc, ◌+◌, ◌-◌, ◌*◌, ◌/◌, ◌%◌, ◌≤◌, ◌≡◌, ◌≢◌, refl, sym, ap, ◌∙◌, true, leb, ◌==◌,
  if◌then◌else◌, inl, inr, Bool-cases, arith,
}
use mathlib.Core.Path.{subst}
use c68k.Ir.Expr.{memzero}
use c68k.Ir.Meaning.{Machine, IsMachine}
use c68k.Ir.Evaluates.{Evaluates, of_memzero}
use c68k.Ir.Asm.{imm, reg, frame, OpSize, size_b, size_w, size_l, move, moveq, clr}
use c68k.Ir.Asm.Cpu.{Registers, Cpu, bytes, step}
use c68k.Ir.Asm.Cpu.Layout.{IsLayout}
use c68k.Ir.Asm.Cpu.Parts.{Reaches, Reaches-seq, Reaches-weaken, Reaches-silent}
use c68k.Ir.Asm.Cpu.Values.{Reaches-if, Reaches-emit, Reaches-line}
use c68k.Ir.Select.Tiles.Operands.{Delivers}
use c68k.Ir.Select.Nodes.{clear_longs, clear_if, ir_memzero}

module _ (var_reg vt_reg offset : ℕ → ℕ) (m : Machine) (regs : Registers m) (laws : IsMachine m)
    (layout : IsLayout m regs var_reg vt_reg offset) where
  module _ (off : ℕ) (cpu : Cpu m.State) where
    -- `p` bytes are cleared, and nothing else has changed
    abbrev Cleared : ℕ → Cpu m.State → Type 0
    Cleared p c = (c.mem ≡ m.clear off p cpu.mem) × (c.d0 ≡ cpu.d0) × (c.stack ≡ cpu.stack)

    clear_longs-Cleared :
        (k p n : ℕ) (c : Cpu m.State)
        → Cleared p c
        → Reaches m regs n (clear_longs k off p) c (Cleared (p + k * 4))
    unfolding clear_longs step
    clear_longs-Cleared zero p n c h =
        Reaches-silent m regs (subst (λ j. Cleared j c) (omega arith) h)
    clear_longs-Cleared (suc k) p n c h =
        Reaches-line m regs (clr size_l (frame ((off + p) % 0x100000000))) _ refl (
          Reaches-weaken m regs
            (clear_longs-Cleared k (p + 4) _ _ (
              ap (m.clear ((off + p) % 0x100000000) 4) h.0 ∙ layout.clear_split off p 4 cpu.mem,
              h.1,
              h.2,
            ))
            λ c' q. subst (λ j. Cleared j c') (omega arith) q)

    clear_if-Cleared :
        (z : OpSize) (sz p q n : ℕ) (c : Cpu m.State)
        → (if leb (bytes z) (sz - p) then p + bytes z else p) ≡ q
        → Cleared p c
        → Reaches m regs n (clear_if (bytes z) z off sz p) c (Cleared q)
    unfolding step
    clear_if-Cleared z sz p q n c e h = elim (Bool-cases (leb (bytes z) (sz - p))) [
      | inl more ↦ rw more (
          Reaches-emit m regs (clr z (frame ((off + p) % 0x100000000))) _ refl (
            ap (m.clear ((off + p) % 0x100000000) (bytes z)) h.0
                ∙ layout.clear_split off p (bytes z) cpu.mem
                ∙ ap (λ j. m.clear off j cpu.mem)
                    (sym (ap (λ t. if t then p + bytes z else p) more) ∙ e),
            h.1,
            h.2,
          ))
      | inr done ↦ rw done (
          Reaches-silent m regs
            (subst (λ j. Cleared j c) (sym (ap (λ t. if t then p + bytes z else p) done) ∙ e) h))
    ]

  clear_kept :
      (var off size : ℕ)
      → off ≡ offset var
      → size ≡ 4
      → var_reg var ≢ 0
      → (s : m.State) (v : ℕ) → Evaluates m (memzero var off size) s v (regs.set (var_reg var) 0 s)
  clear_kept var off size e four nz s v =
      subst (λ t. Evaluates m (memzero var off size) s v t)
        (ap (λ o. m.clear o size s) e
          ∙ ap (λ k. m.clear (offset var) k s) four
          ∙ layout.clear_var var s nz)
        (of_memzero var off size s v)

  -- A variable of at most 16 bytes is cleared, all of it and no more.
  pub ir_memzero-Delivers :
      (lev var off size : ℕ)
      → 1 ≤ lev
      → off ≡ offset var
      → (var_reg var ≢ 0 → size ≡ 4)
      → size ≤ 16
      → off % 2 ≡ 0
      → Delivers m regs laws
          (Evaluates m (memzero var off size))
          (ir_memzero lev (var_reg var) off size)
  unfolding ir_memzero step
  ir_memzero-Delivers lev var off size hl ho hr h16 even =
      let level : leb 1 lev ≡ true = ground arith in
      let small : leb size 16 ≡ true = ground arith in
      elim (Bool-cases (var_reg var == 0)) [
        | inl slot ↦
            rw (slot, level, small, even)
              (record {
                run = λ n cpu hw.
                    Reaches-seq m regs
                      (clear_longs-Cleared off cpu (size / 4) 0 n cpu
                        (sym (layout.clear_none off cpu.mem), refl, refl))
                      λ c p.
                        Reaches-seq m regs
                          (clear_if-Cleared off cpu size_w size (size / 4 * 4) (size / 2 * 2) _ c
                            (ground arith) (subst (λ j. Cleared off cpu j c) (omega arith) p))
                          λ c' q.
                            Reaches-weaken m regs
                              (clear_if-Cleared off cpu size_b size (size / 2 * 2) size _ c'
                                (ground arith) q)
                              λ c'' r.
                                (rw r.0 (of_memzero var off size cpu.mem c''.d0), rw r.1 hw, r.2);
              })
        | inr kept ↦
            let nz : var_reg var ≢ 0 = ground arith in
            let cleared = clear_kept var off size ho (hr nz) nz in
            rw kept (record {
              run = λ n cpu hw.
                  Reaches-if m regs _
                    (λ _.
                      Reaches-emit m regs (move size_l (imm 0) (reg (var_reg var))) _ refl
                        (cleared cpu.mem cpu.d0, hw, refl))
                    λ _.
                      Reaches-emit m regs (moveq 0 (reg (var_reg var))) _ refl
                        (cleared cpu.mem cpu.d0, hw, refl);
            })
      ]
