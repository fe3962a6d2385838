-- ===== src/Ir/Items/Run.antt =====
-- What a list of items does when it runs: the items' emission in ir_emit_item, with a branch taken
-- to the first definition of its label.
use Prim.Native.String.{String}
use text.Mathlib.Text.{◌==◌ as str_eq}
use c68k.Prelude.{
  ℕ, ◌≡◌, refl, zero, suc, ◌+◌, Bool, false, not, Option, none, some, List, [], ◌∷◌, get_elem?,
  ◌==◌, same_bool, if◌then◌else◌,
}
use c68k.Ir.Expr.{IrExpr}
use c68k.Ir.Items.{ii_label, ii_jmp, ii_cbr, ii_eval, ii_ret, ii_nop, IrItem}
use c68k.Ir.Meaning.{Machine, eval}

-- `label` of a branch or definition against a name, as strcmp does
abbrev pub has_label : Option String → Option String → Bool
has_label none n = false
has_label (some l) none = false
has_label (some l) (some n) = str_eq l n

abbrev pub defines : IrItem → Option String → Bool
defines it n = elim it.kind [ ii_label ↦ has_label it.label n | _ ↦ false ]

unfoldable pub find_label : Option String → ℕ → List IrItem → Option ℕ
find_label n i [] = none
find_label n i (it ∷ its) =
    let rest = find_label n (i + 1) its in if defines it n then some i else rest

-- What one item does: go on at another index, return, or branch to a label that is nowhere.
pub data Next (S : Type 0) : Type 0 where
  go : ℕ → S → Next S
  returned : ℕ → S → Next S
  off_end : S → Next S
  no_label : Next S

abbrev pub continue : {S : Type 0} → (ℕ → S → Next S) → Next S → Next S
continue k (go pc s) = k pc s
continue k (returned v s) = returned v s
continue k (off_end s) = off_end s
continue k no_label = no_label

pub continue_congr :
    {S : Type 0} (j k : ℕ → S → Next S)
    → ((pc : ℕ) (s : S) → j pc s ≡ k pc s)
    → (x : Next S) → continue j x ≡ continue k x
continue_congr j k h (go pc s) = h pc s
continue_congr j k h (returned v s) = refl
continue_congr j k h (off_end s) = refl
continue_congr j k h no_label = refl

module _ (m : Machine) where
  abbrev pub eval_item : Option IrExpr → m.State → ℕ × m.State
  eval_item none s = (m.junk, s)
  eval_item (some e) s = eval m e s

  abbrev pub jump : Option ℕ → m.State → Next m.State
  jump none s = no_label
  jump (some i) s = go i s

  abbrev pub run_item : IrItem → Option ℕ → ℕ → m.State → Next m.State
  run_item it target pc s = elim it.kind [
    | ii_label ↦ go (pc + 1) s
    | ii_nop ↦ go (pc + 1) s
    | ii_jmp ↦ jump target s
    | ii_cbr ↦
        let r = eval_item it.e s in
        if same_bool (not (r.0 == 0)) it.when then jump target r.1 else go (pc + 1) r.1
    | ii_eval ↦ go (pc + 1) (eval_item it.e s).1
    | ii_ret ↦ let r = eval_item it.e s in returned r.0 r.1
  ]

  unfoldable pub step_at : List IrItem → Option IrItem → ℕ → m.State → Next m.State
  step_at its none pc s = off_end s
  step_at its (some it) pc s = run_item it (find_label it.label 0 its) pc s

  unfoldable pub step : List IrItem → ℕ → m.State → Next m.State
  step its pc s = step_at its (get_elem? its pc) pc s

  -- Runs `fuel` items at most; `go` then says where it stands.
  unfoldable pub run : ℕ → List IrItem → ℕ → m.State → Next m.State
  run zero its pc s = go pc s
  run (suc fuel) its pc s = continue (run fuel its) (step its pc s)
