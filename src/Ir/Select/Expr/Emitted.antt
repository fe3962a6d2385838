-- ===== src/Ir/Select/Expr/Emitted.antt =====
-- ir_emit_item of src/ir68k.c: how the code for an item of each kind ends.
use Prim.Native.String.{String}
use c68k.Prelude.{
  ℕ, ◌≤◌, ◌≡◌, refl, sym, ap, ◌∙◌, Bool, true, false, not, Option, none, some, ◌==◌, same_bool,
  if◌then◌else◌,
}
use c68k.Prelude.Word.{IsWord}
use c68k.Ir.Expr.{IrExpr}
use c68k.Ir.Items.{IiKind, IrItem, ii_label, ii_jmp, ii_cbr, ii_eval, ii_ret, ii_nop}
use c68k.Ir.Meaning.{Machine, IsMachine}
use c68k.Ir.Evaluates.{Evaluates}
use c68k.Ir.Asm.{Label, named, bra, emit, silent, ◌>>◌}
use c68k.Ir.Asm.Cpu.{Registers, Cpu, Mode, at, seek, line, step, exec}
use c68k.Ir.Asm.Cpu.Layout.{IsLayout}
use c68k.Ir.Asm.Cpu.Parts.{exec-seq}
use c68k.Ir.Select.Expr.{ir_expr, ir_cond, ir_emit_item}
use c68k.Ir.Select.Expr.Built.{IsBuilt}
use c68k.Ir.Select.Expr.Control.{Truth, Branches, taken, fell}
use c68k.Ir.Select.Expr.Correct.{ir_expr-Evaluates, ir_cond-Branches}

module _ (m : Machine) (regs : Registers m) (laws : IsMachine m) where
  -- `md` is behind the evaluation of `e` from `cpu`: at its end, or at the return label
  abbrev Valued : Option IrExpr → (Cpu m.State → Mode m.State) → Cpu m.State → Mode m.State → Type 0
  Valued none to cpu md = md ≡ to cpu
  Valued (some e) to cpu md =
      (c : Cpu m.State) × (md ≡ to c) × Evaluates m e cpu.mem c.d0 c.mem × (c.stack ≡ cpu.stack)

  abbrev Decided : Option IrExpr → Option String → Bool → Cpu m.State → Mode m.State → Type 0
  Decided (some e) (some l) when cpu md =
      (c : Cpu m.State) × (v : ℕ) × Evaluates m e cpu.mem v c.mem
      × (c.stack ≡ cpu.stack)
      × (md ≡ (if same_bool (not (v == 0)) when then seek (named l) c else at c))
  Decided _ _ when cpu md = md ≡ at cpu

  abbrev Jumped : Option String → Cpu m.State → Mode m.State → Type 0
  Jumped none cpu md = md ≡ at cpu
  Jumped (some l) cpu md = md ≡ seek (named l) cpu

  -- where the code for an item leaves the machine
  unfoldable pub ItemEnds : Label → IrItem → Cpu m.State → Mode m.State → Type 0
  ItemEnds return_label it cpu md = elim it.kind [
    | ii_label ↦ md ≡ at cpu
    | ii_nop ↦ md ≡ at cpu
    | ii_jmp ↦ Jumped it.label cpu md
    | ii_cbr ↦ Decided it.e it.label it.when cpu md
    | ii_eval ↦ Valued it.e at cpu md
    | ii_ret ↦ Valued it.e (seek return_label) cpu md
  ]

  abbrev BuiltOption : (IrExpr → Type 0) → Option IrExpr → Type 0
  BuiltOption P none = Unit
  BuiltOption P (some e) = P e

  module _ (var_reg vt_reg offset : ℕ → ℕ) (layout : IsLayout m regs var_reg vt_reg offset)
      (lev : ℕ) (optimizes : 1 ≤ lev) (n : ℕ) (return_label : Label) (cpu : Cpu m.State)
      (hw : IsWord cpu.d0) where
    abbrev ends : IrItem → Mode m.State
    ends it = exec m regs (ir_emit_item lev var_reg vt_reg return_label it n).0 (at cpu)

    decided :
        (e : IrExpr) (l : String) (when : Bool)
        → IsBuilt var_reg vt_reg offset e
        → Decided
            (some e)
            (some l)
            when
            cpu
            (exec m regs (ir_cond lev var_reg vt_reg e (named l) when n).0 (at cpu))
    decided e l when h = go when (
        ir_cond-Branches m regs laws var_reg vt_reg offset layout lev optimizes e h n (named l) when
          cpu hw tt)
      where
        go :
            (w : Bool)
            → Branches m regs laws n
                (ir_cond lev var_reg vt_reg e (named l) w)
                (named l)
                cpu
                (Truth m regs laws (Evaluates m e) w cpu)
                (Truth m regs laws (Evaluates m e) (not w) cpu)
            → Decided
                (some e)
                (some l)
                w
                cpu
                (exec m regs (ir_cond lev var_reg vt_reg e (named l) w n).0 (at cpu))
        go true (taken c r p) = (
          c,
          p.0,
          p.1,
          p.4,
          r ∙ ap (λ t. if same_bool t true then seek (named l) c else at c) (sym p.2),
        )
        go true (fell c r p) = (
          c,
          p.0,
          p.1,
          p.4,
          r ∙ ap (λ t. if same_bool t true then seek (named l) c else at c) (sym p.2),
        )
        go false (taken c r p) = (
          c,
          p.0,
          p.1,
          p.4,
          r ∙ ap (λ t. if same_bool t false then seek (named l) c else at c) (sym p.2),
        )
        go false (fell c r p) = (
          c,
          p.0,
          p.1,
          p.4,
          r ∙ ap (λ t. if same_bool t false then seek (named l) c else at c) (sym p.2),
        )

    by_kind :
        (it : IrItem) (k : IiKind) (label : Option String) (e : Option IrExpr) (when : Bool)
        → BuiltOption (IsBuilt var_reg vt_reg offset) e
        → (let it' = record it { kind = k; label = label; e = e; when = when } in
            ItemEnds return_label it' cpu (ends it'))
    unfolding ItemEnds ir_emit_item emit silent exec line step ◌>>◌
    by_kind it ii_label none e when h = refl
    by_kind it ii_label (some l) e when h = refl
    by_kind it ii_nop label e when h = refl
    by_kind it ii_jmp none e when h = refl
    by_kind it ii_jmp (some l) e when h = refl
    by_kind it ii_cbr none none when h = refl
    by_kind it ii_cbr (some l) none when h = refl
    by_kind it ii_cbr none (some e) when h = refl
    by_kind it ii_cbr (some l) (some e) when h = decided e l when h
    by_kind it ii_eval label none when h = refl
    by_kind it ii_eval label (some e) when h =
        let r =
          ir_expr-Evaluates m regs laws var_reg vt_reg offset layout lev optimizes e h n cpu hw in
        (r.after, r.runs, r.holds.0, r.holds.2)
    by_kind it ii_ret label none when h = refl
    by_kind it ii_ret label (some e) when h =
        let r =
          ir_expr-Evaluates m regs laws var_reg vt_reg offset layout lev optimizes e h n cpu hw in
        (
          r.after,
          exec-seq m regs n (ir_expr lev var_reg vt_reg e) (emit (bra return_label)) (at cpu)
              ∙ ap (line m regs (bra return_label)) r.runs,
          r.holds.0,
          r.holds.2,
        )

    -- From -O1 on and with a word in D0, the code of ir_emit_item for an item whose expression, if it has
    -- one, is as the builder makes it, with its value temporaries in registers and no memzero that takes a loop: a label and a nop change
    -- nothing, a jump branches, an evaluation runs to its end with a value of its expression in D0, a
    -- return then branches to the return label, and a conditional branch is taken exactly when the truth
    -- of its expression is `when`.
    pub ir_emit_item-ItemEnds :
        (it : IrItem)
        → BuiltOption (IsBuilt var_reg vt_reg offset) it.e
        → ItemEnds return_label it cpu
            (exec m regs (ir_emit_item lev var_reg vt_reg return_label it n).0 (at cpu))
    ir_emit_item-ItemEnds it h = by_kind it it.kind it.label it.e it.when h
