-- ===== src/Ir/Select/Expr/Memory.antt =====
-- Loads, stores, addresses and clearing in ir_expr of src/ir68k.c: what they leave in D0 and in memory.
use c68k.Prelude.{
  ℕ, ◌%◌, ◌<◌, ◌≡◌, ◌≢◌, refl, sym, ◌∙◌, Bool, true, false, Option, none, inl, inr, ◌==◌,
  if◌then◌else◌, Bool-cases, arith,
}
use Prim.Native.String.{String}
use mathlib.Core.Path.{subst}
use c68k.Prelude.Word.{IsWord}
use c68k.Ir.Expr.{IrExpr, nop, num, lea, load}
use c68k.Ir.Fold.{narrow}
use c68k.Ir.Meaning.{Machine, IsMachine}
use c68k.Ir.Evaluates.{Evaluates, of_num, of_lea, of_load}
use c68k.Ir.Asm.{
  d0, a0, ind_a0, reg, imm, frame, sym as symref, size_b, size_w, size_l, move, moveq, lea_a0,
  ext_w, ext_l, Emit, emit, ◌>>◌,
}
use c68k.Ir.Asm.Cpu.{Registers, Cpu, merge, step}
use c68k.Ir.Asm.Cpu.Layout.{IsLayout}
use c68k.Ir.Asm.Cpu.Parts.{Reaches, Reaches-seq, Reaches-weaken}
use c68k.Ir.Asm.Cpu.Values.{Computes, Reaches-if, Reaches-emit, Reaches-line}
use c68k.Ir.Select.{lea_reg, load_imm, emit_load_from_a0}
use c68k.Ir.Select.Tiles.Operands.{Delivers, Emits}
use c68k.Ir.Select.Tiles.Stacked.{Emits-or_else}
use c68k.Ir.Select.Nodes.{Code, load_value, lea_value}
use c68k.Ir.Select.Expr.Built.{IsAccess, IsPlaced, IsBuilt, load_reg}

-- `move.b (a0),d0; ext.w d0; ext.l d0` and `move.w (a0),d0; ext.l d0`
extend_byte :
    (d v : ℕ)
    → v < 256
    → narrow 2 false
        (merge size_w (merge size_b d v) (narrow 1 false (merge size_b d v % 256)) % 65536)
      ≡ narrow 1 false v
unfolding narrow
extend_byte d v h = ground arith

extend_half : (d v : ℕ) → v < 65536 → narrow 2 false (merge size_w d v % 65536) ≡ narrow 2 false v
unfolding narrow
extend_half d v h = ground arith

module _ (var_reg vt_reg offset : ℕ → ℕ) (m : Machine) (regs : Registers m) (laws : IsMachine m)
    (layout : IsLayout m regs var_reg vt_reg offset) where
  pub load_imm-Delivers :
      (val size : ℕ) (uns : Bool)
      → Delivers m regs laws (Evaluates m (num val size uns)) (load_imm val)
  unfolding load_imm step
  load_imm-Delivers val size uns = record {
    run = λ n cpu hw.
        Reaches-if m regs _
          (λ _.
            Reaches-emit m regs (moveq (val % 0x100000000) d0) _ refl
              (of_num val size uns cpu.mem, omega arith, refl))
          λ _.
            Reaches-emit m regs (move size_l (imm (val % 0x100000000)) d0) _ refl
              (of_num val size uns cpu.mem, omega arith, refl);
  }

  pub lea_value-Delivers :
      (l : Bool) (off : ℕ) (name : Option String) (var : ℕ)
      → IsPlaced var_reg vt_reg offset l off name var
      → Delivers m regs laws (Evaluates m (lea l off name var)) (lea_value l off name)
  unfolding step
  lea_value-Delivers true off name var h = record {
    run = λ n cpu hw. Reaches-line m regs (lea_a0 (frame off)) _ refl (
        Reaches-emit m regs (move size_l a0 d0) _ refl (
          subst (λ k. Evaluates m (lea true off name var) cpu.mem (m.address true off k) cpu.mem)
              h.1 (of_lea true off name var cpu.mem),
          laws.address_word true off none,
          refl,
        ));
  }
  lea_value-Delivers false off name var h = record {
    run = λ n cpu hw. Reaches-line m regs (lea_a0 (symref name)) _ refl (
        Reaches-emit m regs (move size_l a0 d0) _ refl (
          subst (λ k. Evaluates m (lea false off name var) cpu.mem (m.address false k name) cpu.mem)
              h (of_lea false off name var cpu.mem),
          laws.address_word false 0 name,
          refl,
        ));
  }

  -- emit_load_from_a0 loads and extends as the access asks for.
  emit_load-Computes :
      (n size : ℕ) (uns : Bool) (cpu : Cpu m.State)
      → IsAccess size
      → Reaches m regs n
          (emit_load_from_a0 size uns)
          cpu
          (Computes m regs (m.read size uns cpu.a0 cpu.mem) cpu)
  unfolding emit_load_from_a0 step
  emit_load-Computes n size uns cpu access = pick n size access uns
    where
      pick :
          (k sz : ℕ)
          → IsAccess sz
          → (u : Bool)
          → Reaches m regs k
              (emit_load_from_a0 sz u)
              cpu
              (Computes m regs (m.read sz u cpu.a0 cpu.mem) cpu)
      pick k sz (inl e) true = rw e (
          Reaches-line m regs (moveq 0 d0) _ refl (
            Reaches-emit m regs (move size_b ind_a0 d0) _ refl
              (omega (arith, layout.byte_lt cpu.a0 cpu.mem), refl, refl)))
      pick k sz (inl e) false = rw e (
          Reaches-line m regs (move size_b ind_a0 d0) _ refl (
            Reaches-line m regs ext_w _ refl (
              Reaches-emit m regs ext_l _ refl (
                extend_byte cpu.d0 _ (layout.byte_lt cpu.a0 cpu.mem)
                    ∙ sym (layout.read_byte cpu.a0 cpu.mem),
                refl,
                refl,
              ))))
      pick k sz (inr (inl e)) true = rw e (
          Reaches-line m regs (moveq 0 d0) _ refl (
            Reaches-emit m regs (move size_w ind_a0 d0) _ refl
              (omega (arith, layout.half_lt cpu.a0 cpu.mem), refl, refl)))
      pick k sz (inr (inl e)) false = rw e (
          Reaches-line m regs (move size_w ind_a0 d0) _ refl (
            Reaches-emit m regs ext_l _ refl (
              extend_half cpu.d0 _ (layout.half_lt cpu.a0 cpu.mem)
                  ∙ sym (layout.read_half cpu.a0 cpu.mem),
              refl,
              refl,
            )))
      pick k sz (inr (inr e)) u = rw e (
          Reaches-emit m regs (move size_l ind_a0 d0) _ refl
            (sym (layout.read_long u cpu.a0 cpu.mem), refl, refl))

  load_through :
      (a : IrExpr) (size : ℕ) (uns : Bool) (x : Emit)
      → IsAccess size
      → Delivers m regs laws (Evaluates m a) x
      → Delivers m regs laws
          (Evaluates m (load a size uns))
          (do x; emit (move size_l d0 a0); emit_load_from_a0 size uns)
  unfolding step
  load_through a size uns x access h = record {
    run = λ n cpu hw. Reaches-seq m regs (h.run n cpu hw) λ c p.
        Reaches-line m regs (move size_l d0 a0) _ refl (
          Reaches-weaken m regs (emit_load-Computes _ size uns _ access) λ c' q. (
            rw (q.0, q.1) (of_load size uns p.0),
            subst IsWord (sym q.0) (laws.read_word size uns c.d0 c.mem),
            q.2 ∙ p.2,
          ));
  }

  load_kept :
      (e : IrExpr) (size : ℕ) (uns : Bool)
      → IsBuilt var_reg vt_reg offset e
      → (lea_reg var_reg e ≢ 0 → size ≡ 4)
      → lea_reg var_reg e ≢ 0
      → Delivers m regs laws
          (Evaluates m (load e size uns))
          (emit (move size_l (reg (lea_reg var_reg e)) d0))
  unfolding lea_reg IsBuilt step
  load_kept (lea true off name var) size uns b w nz = record {
    run = λ n cpu hw. Reaches-emit m regs (move size_l (reg (var_reg var)) d0) _ refl (
      load_reg var_reg vt_reg offset m regs laws layout off name var size uns cpu.mem (w nz) b nz,
      layout.get_word (var_reg var) cpu.mem,
      refl,
    );
  }
  load_kept (lea false off name var) size uns b w nz = absurd (nz refl)
  load_kept nop size uns b w nz = absurd (nz refl)
  load_kept _ size uns b w nz = absurd (nz refl)

  -- The value of a load: from the variable's register, through a base and an index, or from the address.
  pub load_value-Delivers :
      (a : IrExpr) (size : ℕ) (uns : Bool) (x : Code)
      → IsBuilt var_reg vt_reg offset a
      → IsAccess size
      → (lea_reg var_reg a ≢ 0 → size ≡ 4)
      → Delivers m regs laws (Evaluates m a) x.value
      → Emits m regs laws (Evaluates m (load a size uns)) (if size == 4 then x.index else none)
      → Delivers m regs laws
          (Evaluates m (load a size uns))
          (load_value (lea_reg var_reg a) size uns x)
  unfolding load_value
  load_value-Delivers a size uns x built access wide h indexed =
      elim (Bool-cases (lea_reg var_reg a == 0)) [
        | inl slot ↦ rw slot (
            Emits-or_else m regs laws layout.shl_any indexed
              (load_through a size uns x.value access h))
        | inr kept ↦ rw kept (load_kept a size uns built wide (ground arith))
      ]
