-- ===== src/Ir/Select/Expr/Writes.antt =====
-- Stores and value temporaries in ir_expr of src/ir68k.c: what they leave in D0 and in memory.
use c68k.Prelude.{
  ℕ, ◌≡◌, ◌≢◌, refl, sym, ap, ◌∙◌, Bool, true, false, none, inl, inr, leb, ◌==◌, if◌then◌else◌,
  Bool-cases, arith,
}
use mathlib.Core.Path.{subst}
use c68k.Ir.Expr.{IrExpr, nop, lea, store, vdef, vuse}
use c68k.Ir.Meaning.{Machine, IsMachine}
use c68k.Ir.Evaluates.{Evaluates, of_lea, of_store, of_vdef, of_vuse}
use c68k.Ir.Asm.{
  Ea, d0, a1, ind_a1, reg, frame, sym as symref, OpSize, size_b, size_w, size_l, move, push, pop,
  Emit, emit, ◌>>◌,
}
use c68k.Ir.Asm.Cpu.{Registers, Cpu, at, bytes, pop_to, step}
use c68k.Ir.Asm.Cpu.Layout.{IsLayout}
use c68k.Ir.Asm.Cpu.Parts.{Reaches-seq}
use c68k.Ir.Asm.Cpu.Values.{Reaches-emit, Reaches-line}
use c68k.Ir.Select.{lea_reg}
use c68k.Ir.Select.Tiles.Operands.{Delivers}
use c68k.Ir.Select.Nodes.{store_direct, store_value, keep_reg, read_reg}
use c68k.Ir.Select.Expr.Built.{IsAccess, IsBuilt}

abbrev sized : ℕ → OpSize
sized size = if size == 1 then size_b else if size == 2 then size_w else size_l

bytes-sized : (size : ℕ) → IsAccess size → bytes (sized size) ≡ size
bytes-sized size (inl e) = rw e refl
bytes-sized size (inr (inl e)) = rw e refl
bytes-sized size (inr (inr e)) = rw e refl

module _ (var_reg vt_reg offset : ℕ → ℕ) (m : Machine) (regs : Registers m) (laws : IsMachine m)
    (layout : IsLayout m regs var_reg vt_reg offset) where
  module _ (b : IrExpr) (size : ℕ) (uns : Bool) (y : Emit)
      (hy : Delivers m regs laws (Evaluates m b) y) (access : IsAccess size) where
    -- a variable in a register
    store_kept :
        (a : IrExpr)
        → IsBuilt var_reg vt_reg offset a
        → (lea_reg var_reg a ≢ 0 → size ≡ 4)
        → lea_reg var_reg a ≢ 0
        → Delivers m regs laws
            (Evaluates m (store a b size uns))
            (do y; emit (move size_l d0 (reg (lea_reg var_reg a))))
    unfolding lea_reg IsBuilt step
    store_kept (lea true off name var) h w nz = record {
      run = λ n cpu hw. Reaches-seq m regs (hy.run n cpu hw) λ c p.
          Reaches-emit m regs (move size_l d0 (reg (var_reg var))) _ refl (
            subst (λ t. Evaluates m (store (lea true off name var) b size uns) cpu.mem c.d0 t)
                (ap (λ k. m.write k (m.address true off name) c.d0 c.mem) (w nz)
                  ∙ ap (λ k. m.write 4 (m.address true k name) c.d0 c.mem) h.0
                  ∙ ap (λ k. m.write 4 (m.address true (offset var) k) c.d0 c.mem) h.1
                  ∙ layout.write_var var c.d0 c.mem nz)
                (of_store size uns (of_lea true off name var cpu.mem) p.0),
            p.1,
            p.2,
          );
    }
    store_kept (lea false off name var) h w nz = absurd (nz refl)
    store_kept nop h w nz = absurd (nz refl)
    store_kept _ h w nz = absurd (nz refl)

    -- a store to an operand that is an address
    store_to :
        (a : IrExpr) (z : OpSize) (ea : Ea) (p : ℕ)
        → bytes z ≡ size
        → ((s : m.State) → Evaluates m a s p s)
        → ((c : Cpu m.State)
            → step m regs (move z d0 ea) c
              ≡ at (record c { mem = m.write (bytes z) p c.d0 c.mem; compared = none }))
        → Delivers m regs laws (Evaluates m (store a b size uns)) (do y; emit (move z d0 ea))
    store_to a z ea p e ha place = record {
      run = λ n cpu hw. Reaches-seq m regs (hy.run n cpu hw) λ c q.
          Reaches-emit m regs (move z d0 ea) _ (place c) (
            subst (λ k. Evaluates m (store a b size uns) cpu.mem c.d0 (m.write k p c.d0 c.mem))
                (sym e) (of_store size uns (ha cpu.mem) q.0),
            q.1,
            q.2,
          );
    }

    -- the address waits on the stack
    store_through :
        (a : IrExpr) (x : Emit)
        → Delivers m regs laws (Evaluates m a) x
        → Delivers m regs laws
            (Evaluates m (store a b size uns))
            (do x; emit push; y; emit (pop a1); emit (move (sized size) d0 ind_a1))
    unfolding step
    store_through a x hx = record {
      run = λ n cpu hw. Reaches-seq m regs (hx.run n cpu hw) λ c p.
          Reaches-line m regs push _ refl (
            Reaches-seq m regs (hy.run _ _ p.1) λ c' q.
              Reaches-line m regs (pop a1) _ (ap (λ st. pop_to m regs a1 st c') q.2) (
                Reaches-emit m regs (move (sized size) d0 ind_a1) _ refl (
                  subst
                      (λ k.
                        Evaluates m (store a b size uns) cpu.mem c'.d0
                          (m.write k c.d0 c'.d0 c'.mem))
                      (sym (bytes-sized size access)) (of_store size uns p.0 q.0),
                  q.1,
                  p.2,
                )));
    }

    store_behind :
        (a : IrExpr) (x : Emit)
        → IsBuilt var_reg vt_reg offset a
        → Delivers m regs laws (Evaluates m a) x
        → Delivers m regs laws
            (Evaluates m (store a b size uns))
            (store_value 0 size (store_direct a size) x y)
    unfolding store_value store_direct IsBuilt step
    store_behind (lea true off name var) x h hx = elim (Bool-cases (leb size 4)) [
      | inl e ↦ rw e (
          store_to (lea true off name var) (sized size) (frame off) (m.address true off none)
            (bytes-sized size access)
            (λ s.
              subst (λ k. Evaluates m (lea true off name var) s (m.address true off k) s) h.1
                (of_lea true off name var s))
            λ c. refl)
      | inr e ↦ rw e (store_through (lea true off name var) x hx)
    ]
    store_behind (lea false off name var) x h hx = elim (Bool-cases (leb size 4)) [
      | inl e ↦ rw e (
          store_to (lea false off name var) (sized size) (symref name) (m.address false 0 name)
            (bytes-sized size access)
            (λ s.
              subst (λ k. Evaluates m (lea false off name var) s (m.address false k name) s) h
                (of_lea false off name var s))
            λ c. refl)
      | inr e ↦ rw e (store_through (lea false off name var) x hx)
    ]
    store_behind nop x h hx = store_through nop x hx
    store_behind a x h hx = store_through a x hx

    -- The value of a store is the value that it writes to the register, the variable or the address.
    pub store_value-Delivers :
        (a : IrExpr) (x : Emit)
        → IsBuilt var_reg vt_reg offset a
        → (lea_reg var_reg a ≢ 0 → size ≡ 4)
        → Delivers m regs laws (Evaluates m a) x
        → Delivers m regs laws
            (Evaluates m (store a b size uns))
            (store_value (lea_reg var_reg a) size (store_direct a size) x y)
    unfolding store_value
    store_value-Delivers a x h wide hx = elim (Bool-cases (lea_reg var_reg a == 0)) [
      | inl slot ↦ rw slot (store_behind a x h hx)
      | inr kept ↦ rw kept (store_kept a h wide (ground arith))
    ]

  pub vdef-Delivers :
      (a : IrExpr) (t size : ℕ) (x : Emit)
      → vt_reg t ≢ 0
      → Delivers m regs laws (Evaluates m a) x
      → Delivers m regs laws (Evaluates m (vdef t a size)) (do x; keep_reg (vt_reg t))
  unfolding step
  vdef-Delivers a t size x nz hx =
      let nonzero : (vt_reg t == 0) ≡ false = ground arith in
      rw nonzero (record {
        run = λ n cpu hw. Reaches-seq m regs (hx.run n cpu hw) λ c p.
            Reaches-emit m regs (move size_l d0 (reg (vt_reg t))) _ refl (
              subst (λ s. Evaluates m (vdef t a size) cpu.mem c.d0 s)
                  (layout.keep_temp t c.d0 c.mem nz) (of_vdef t size p.0),
              p.1,
              p.2,
            );
      })

  pub vuse-Delivers :
      (t size : ℕ)
      → vt_reg t ≢ 0
      → Delivers m regs laws (Evaluates m (vuse t size)) (read_reg (vt_reg t))
  unfolding step
  vuse-Delivers t size nz =
      let nonzero : (vt_reg t == 0) ≡ false = ground arith in
      rw nonzero (record {
        run = λ n cpu hw. Reaches-emit m regs (move size_l (reg (vt_reg t)) d0) _ refl (
          subst (λ v. Evaluates m (vuse t size) cpu.mem v cpu.mem) (layout.kept_temp t cpu.mem nz)
              (of_vuse t size cpu.mem),
          layout.get_word (vt_reg t) cpu.mem,
          refl,
        );
      })
