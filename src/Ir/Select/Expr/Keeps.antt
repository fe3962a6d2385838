-- ===== src/Ir/Select/Expr/Keeps.antt =====
-- Code of src/ir68k.c that leaves D1 alone: that of a variable, a load from one and casts of these, the base of
-- ir_indexed_load.
use c68k.Prelude.{
  ℕ, ◌≡◌, sym, Bool, true, false, not, Option, none, some, ◌==◌, if◌then◌else◌, arith,
}
use Prim.Native.String.{String}
use mathlib.Core.Path.{subst}
use c68k.Ctype.{TypeKind, ty_void, ty_bool, same_kind}
use c68k.Ir.Expr.{IrExpr, nop, lea, load, cast}
use c68k.Ir.Meaning.{Machine}
use c68k.Ir.Asm.{
  Ea, d0, a0, reg, imm, OpSize, size_l, Insn, move, moveq, lea_a0, alu, tst_l, scc, andi_l, or_else,
  ext_w, ext_l, Mnem, Emit, emit, silent, ◌>>◌,
}
use c68k.Ir.Asm.Cpu.{Registers, Cpu, Mode, at, seek, stuck, test, set_if, step, line, exec}
use c68k.Ir.Asm.Cpu.Parts.{exec-seq}
use c68k.Ir.Select.{lea_reg, is_lea, ie_simple_var_base, cast_int_narrow, emit_load_from_a0}
use c68k.Ir.Select.Nodes.{load_value, lea_value, cast_code}
use c68k.Ir.Select.Expr.{ir_code}

module _ (m : Machine) (regs : Registers m) where
  abbrev pub HasD1 : ℕ → Mode m.State → Type 0
  HasD1 v (at c) = c.d1 ≡ v
  HasD1 v (seek l c) = c.d1 ≡ v
  HasD1 v stuck = Unit

  -- code that leaves D1 as it is, wherever it gets to
  pub record Keeps (x : Emit) : Type 0 where
    pub run : (n v : ℕ) (md : Mode m.State) → HasD1 v md → HasD1 v (exec m regs (x n).0 md)

  Keeps-seq : {x y : Emit} → Keeps x → Keeps y → Keeps (do x; y)
  Keeps-seq {x} {y} hx hy = record {
    run = λ n v md h.
        subst (HasD1 v) (sym (exec-seq m regs n x y md)) (hy.run (x n).1 v _ (hx.run n v md h));
  }

  Keeps-if : (b : Bool) {x y : Emit} → Keeps x → Keeps y → Keeps (if b then x else y)
  Keeps-if true hx hy = hx
  Keeps-if false hx hy = hy

  Keeps-silent : Keeps silent
  unfolding silent exec
  Keeps-silent = record { run = λ n v md h. h }

  -- a line that is no label
  abbrev Quiet : Insn → Type 0
  Quiet i = (v : ℕ) (md : Mode m.State) → HasD1 v md → HasD1 v (line m regs i md)

  Keeps-emit : (i : Insn) → Quiet i → Keeps (emit i)
  unfolding emit exec
  Keeps-emit i q = record { run = λ n v md h. q v md h }

  move-Quiet : (z : OpSize) (ea : Ea) → Quiet (move z ea d0)
  unfolding line step
  move-Quiet z ea v (at c) h = h
  move-Quiet z ea v (seek l c) h = h
  move-Quiet z ea v stuck h = h

  to_a0-Quiet : Quiet (move size_l d0 a0)
  unfolding line step
  to_a0-Quiet v (at c) h = h
  to_a0-Quiet v (seek l c) h = h
  to_a0-Quiet v stuck h = h

  moveq-Quiet : (k : ℕ) → Quiet (moveq k d0)
  unfolding line step
  moveq-Quiet k v (at c) h = h
  moveq-Quiet k v (seek l c) h = h
  moveq-Quiet k v stuck h = h

  lea_a0-Quiet : (ea : Ea) → Quiet (lea_a0 ea)
  unfolding line step
  lea_a0-Quiet ea v (at c) h = h
  lea_a0-Quiet ea v (seek l c) h = h
  lea_a0-Quiet ea v stuck h = h

  alu-Quiet : (mn : Mnem) (ea : Ea) → Quiet (alu mn ea)
  unfolding line step
  alu-Quiet mn ea v (at c) h = h
  alu-Quiet mn ea v (seek l c) h = h
  alu-Quiet mn ea v stuck h = h

  tst_l-Quiet : Quiet tst_l
  unfolding line step
  tst_l-Quiet v (at c) h = h
  tst_l-Quiet v (seek l c) h = h
  tst_l-Quiet v stuck h = h

  ext_w-Quiet : Quiet ext_w
  unfolding line step
  ext_w-Quiet v (at c) h = h
  ext_w-Quiet v (seek l c) h = h
  ext_w-Quiet v stuck h = h

  ext_l-Quiet : Quiet ext_l
  unfolding line step
  ext_l-Quiet v (at c) h = h
  ext_l-Quiet v (seek l c) h = h
  ext_l-Quiet v stuck h = h

  set_if-HasD1 :
      (v : ℕ) (o : Option Bool) (c : Cpu m.State) → c.d1 ≡ v → HasD1 v (set_if m regs o c)
  set_if-HasD1 v none c h = tt
  set_if-HasD1 v (some b) c h = h

  scc-Quiet : (cc : String) → Quiet (scc cc)
  unfolding line step
  scc-Quiet cc v (at c) h = set_if-HasD1 v (test cc c.compared) c h
  scc-Quiet cc v (seek l c) h = h
  scc-Quiet cc v stuck h = h

  emit_load-Keeps : (size : ℕ) (uns : Bool) → Keeps (emit_load_from_a0 size uns)
  unfolding emit_load_from_a0
  emit_load-Keeps size uns =
      Keeps-if (size == 1)
        (Keeps-if uns (Keeps-seq (Keeps-emit _ (moveq-Quiet 0)) (Keeps-emit _ (move-Quiet _ _))) (
          Keeps-seq (Keeps-emit _ (move-Quiet _ _))
            (Keeps-seq (Keeps-emit _ ext_w-Quiet) (Keeps-emit _ ext_l-Quiet))))
        (Keeps-if (size == 2)
          (Keeps-if uns (Keeps-seq (Keeps-emit _ (moveq-Quiet 0)) (Keeps-emit _ (move-Quiet _ _)))
            (Keeps-seq (Keeps-emit _ (move-Quiet _ _)) (Keeps-emit _ ext_l-Quiet)))
          (Keeps-emit _ (move-Quiet _ _)))

  lea_value-Keeps : (l : Bool) (off : ℕ) (name : Option String) → Keeps (lea_value l off name)
  lea_value-Keeps l off name =
      Keeps-seq (Keeps-emit _ (lea_a0-Quiet _)) (Keeps-emit _ (move-Quiet _ _))

  cast_code-Keeps : (op : TypeKind) (size : ℕ) (uns : Bool) → Keeps (cast_code op size uns)
  unfolding cast_code cast_int_narrow
  cast_code-Keeps op size uns = Keeps-if (same_kind op ty_void) Keeps-silent (
      Keeps-if (same_kind op ty_bool)
        (Keeps-seq (Keeps-emit _ tst_l-Quiet)
          (Keeps-seq (Keeps-emit _ (scc-Quiet "sne")) (Keeps-emit _ (alu-Quiet andi_l (imm 1)))))
        (Keeps-if (size == 1)
          (Keeps-if uns (Keeps-emit _ (alu-Quiet andi_l (imm 255)))
            (Keeps-seq (Keeps-emit _ ext_w-Quiet) (Keeps-emit _ ext_l-Quiet)))
          (Keeps-if (size == 2)
            (Keeps-if uns (Keeps-emit _ (alu-Quiet andi_l (imm 65535))) (Keeps-emit _ ext_l-Quiet))
            Keeps-silent)))

  Keeps-plain : (b : Bool) {y : Emit} → Keeps y → Keeps (or_else (if b then none else none) y)
  Keeps-plain true h = h
  Keeps-plain false h = h

  module _ (lev : ℕ) (var_reg vt_reg : ℕ → ℕ) where
    load_value-Keeps :
        (a : IrExpr) (size : ℕ) (uns : Bool)
        → is_lea a ≡ true
        → Keeps (load_value (lea_reg var_reg a) size uns (ir_code lev var_reg vt_reg a))
    unfolding is_lea load_value ir_code
    load_value-Keeps (lea l off name var) size uns h =
        Keeps-if (not (lea_reg var_reg (lea l off name var) == 0))
          (Keeps-emit _ (move-Quiet size_l (reg (lea_reg var_reg (lea l off name var)))))
          (Keeps-plain (size == 4) (
            Keeps-seq (lea_value-Keeps l off name)
              (Keeps-seq (Keeps-emit _ to_a0-Quiet) (emit_load-Keeps size uns))))
    load_value-Keeps nop size uns h = absurd (ground arith)
    load_value-Keeps _ size uns h = absurd (ground arith)

    -- the code for the base of an indexed load
    pub simple_base-Keeps :
        (e : IrExpr) → ie_simple_var_base e ≡ true → Keeps (ir_code lev var_reg vt_reg e).value
    unfolding ie_simple_var_base ir_code
    simple_base-Keeps (lea l off name var) h = lea_value-Keeps l off name
    simple_base-Keeps (load a size uns) h = load_value-Keeps a size uns h
    simple_base-Keeps (cast op a size uns f g) h =
        Keeps-seq (simple_base-Keeps a h) (cast_code-Keeps op size uns)
    simple_base-Keeps nop h = absurd (ground arith)
    simple_base-Keeps _ h = absurd (ground arith)
