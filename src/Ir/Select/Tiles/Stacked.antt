-- ===== src/Ir/Select/Tiles/Stacked.antt =====
-- The general path of ir_binop and of the comparison in ir_cond (src/ir68k.c): the right operand waits on the stack
-- while the left one is computed. With it, ir_binop as a whole.
use c68k.Prelude.{ℕ, ◌≡◌, refl, sym, ap, ◌∙◌, Bool, false, Option, none, some, ◌==◌, ==_iff}
use mathlib.Core.Path.{subst}
use c68k.Prelude.Word.{IsWord}
use c68k.Ir.Expr.{NodeKind, nd_shl}
use c68k.Ir.Meaning.{Machine, IsMachine}
use c68k.Ir.Asm.{Ea, d1, size_l, push, pop, Emit, emit, ◌>>◌, or_else}
use c68k.Ir.Asm.Fresh.{Fresh}
use c68k.Ir.Asm.Cpu.{Registers, Cpu, fetch, pop_to, step}
use c68k.Ir.Asm.Cpu.Parts.{Reaches, Reaches-seq, Reaches-weaken}
use c68k.Ir.Asm.Cpu.Values.{Reaches-line}
use c68k.Ir.Select.Tiles.{ir_const_binop, ir_const_binop_left, ir_mem_binop, ir_binop}
use c68k.Ir.Select.Tiles.Operands.{Delivers, Emits, skipped, emitted, Emits-if}
use c68k.Ir.Select.Tiles.Right.{ir_const_binop-Emits}
use c68k.Ir.Select.Tiles.Sides.{
  IsBinary, ir_const_binop_left-Emits, mem_tile-Emits, general_op-Computes,
}

module _ (m : Machine) (regs : Registers m) (laws : IsMachine m) where
  -- `y`, a push, `x`, and a pop to D1: both values are there, and the stack is as it was.
  pub Reaches-stacked :
      {Rx Ry : m.State → ℕ → m.State → Type 0} {x y t : Emit} (n : ℕ) (cpu : Cpu m.State)
      {P : Cpu m.State → Type 0}
      → Delivers m regs laws Rx x
      → Delivers m regs laws Ry y
      → IsWord cpu.d0
      → ((k : ℕ) (c : Cpu m.State) (s : m.State)
          → Ry cpu.mem c.d1 s
          → Rx s c.d0 c.mem
          → IsWord c.d0
          → IsWord c.d1
          → c.stack ≡ cpu.stack
          → Reaches m regs k t c P)
      → Reaches m regs n (do y; emit push; x; emit (pop d1); t) cpu P
  unfolding step
  Reaches-stacked {x = x} {t = t} n cpu {P = P} hx hy hw k =
      Reaches-seq m regs (hy.run n cpu hw) λ c1 p. Reaches-line m regs push _ refl (
        Reaches-seq m regs (hx.run _ _ p.1) λ c2 q.
          Reaches-line m regs (pop d1) _ (ap (λ st. pop_to m regs d1 st c2) q.2)
            (k _ _ c1.mem p.0 q.0 q.1 p.1 p.2))

  -- a constant operand, as ie_const finds it, and one in a register or in memory, as ie_simple_lval does
  abbrev pub ConstOf : (m.State → ℕ → m.State → Type 0) → Option ℕ → Type 0
  ConstOf R none = Unit
  ConstOf R (some c) = IsWord c × ((s : m.State) → R s c s)

  abbrev pub PlaceOf : (m.State → ℕ → m.State → Type 0) → Option (Ea × ℕ) → Type 0
  PlaceOf R none = Unit
  PlaceOf R (some (ea, size)) =
      size ≡ 4
      → (val : m.State → ℕ) × ((cpu : Cpu m.State) → fetch m regs size_l ea cpu ≡ val cpu.mem)
        × ((s : m.State) → IsWord (val s))
        × ((s : m.State) → R s (val s) s)

  module _ (shl_any : (u : Bool) (a n : ℕ) → m.alu nd_shl u a n ≡ m.alu nd_shl false a n) where
    pub Emits-or_else :
        {Q : m.State → ℕ → m.State → Type 0} {o : Option Emit} {y : Emit}
        → Emits m regs laws Q o
        → Delivers m regs laws Q y
        → Delivers m regs laws Q (or_else o y)
    Emits-or_else skipped h = h
    Emits-or_else (emitted h') h = h'

    module _ (Rx Ry Q : m.State → ℕ → m.State → Type 0) (op : NodeKind) (u : Bool) (x y : Emit)
        (hx : Delivers m regs laws Rx x) (hy : Delivers m regs laws Ry y) (fx : Fresh x)
        (fy : Fresh y) (binary : IsBinary op)
        (right_first : (s s' s'' : m.State) (a b : ℕ)
          → Ry s b s'
          → Rx s' a s''
          → Q s (m.alu op u a b) s'')
        (left_first : (s s' s'' : m.State) (a b : ℕ)
          → Rx s a s'
          → Ry s' b s''
          → Q s (m.alu op u a b) s'') where
      const_right :
          (lev : ℕ) (cb : Option ℕ)
          → ConstOf Ry cb
          → Emits m regs laws Q (elim cb [ none ↦ none | some c ↦ ir_const_binop lev op u x c ])
      const_right lev none h = skipped
      const_right lev (some c) h =
          ir_const_binop-Emits m regs laws shl_any Rx Q x hx fx c h.0 lev op u
            λ s a s' r _. left_first s s' s' a c r (h.1 s')

      const_left :
          (lev : ℕ) (ca : Option ℕ)
          → ConstOf Rx ca
          → Emits m regs laws Q
              (elim ca [ none ↦ none | some c ↦ ir_const_binop_left lev op u y c ])
      const_left lev none h = skipped
      const_left lev (some c) h =
          ir_const_binop_left-Emits m regs laws shl_any Ry Q y hy fy lev op u c h.0
            λ s b s' r _. right_first s s' s' c b r (h.1 s')

      mem_right :
          (lval : Option (Ea × ℕ))
          → PlaceOf Ry lval
          → Emits m regs laws Q (ir_mem_binop op u x lval)
      unfolding ir_mem_binop
      mem_right none h = skipped
      mem_right (some (ea, size)) h =
          Emits-if m regs laws (size == 4)
            (λ e.
              let (val, is_val, word, r) = h ((==_iff size 4).0 e) in
              mem_tile-Emits m regs laws shl_any Rx Q x hx fx ea val is_val word op u
                λ s a s' ra _. left_first s s' s' a (val s') ra (r s'))
            λ _. skipped

      -- ir_binop computes its operator, whichever tile it takes.
      pub ir_binop-Delivers :
          (lev : ℕ) (ca cb : Option ℕ) (lval : Option (Ea × ℕ))
          → ConstOf Rx ca
          → ConstOf Ry cb
          → PlaceOf Ry lval
          → Delivers m regs laws Q (ir_binop lev op u ca cb lval x y)
      unfolding ir_binop
      ir_binop-Delivers lev ca cb lval ha hb hl = Emits-or_else (const_right lev cb hb) (
          Emits-or_else (const_left lev ca ha) (
            Emits-or_else (mem_right lval hl) (record {
              run = λ n cpu hw. Reaches-stacked n cpu hx hy hw λ k c s ry rx h0 h1 st.
                  Reaches-weaken m regs
                    (general_op-Computes m regs laws shl_any op u k c binary h0 h1)
                    λ c' p. (
                      rw (p.0, p.1) (right_first cpu.mem s c.mem c.d0 c.d1 ry rx),
                      subst IsWord (sym p.0) (laws.alu_word op u c.d0 c.d1),
                      p.2 ∙ st,
                    );
            })))
