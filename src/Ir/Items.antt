-- ===== src/Ir/Items.antt =====
-- The linear IR items of src/ir68k.c (IrItem), and the -O3 passes over them that need no CFG:
-- op6_fold_exprs, op6_fold_branches and op6_dce_dead_eval.
pub mod Run
pub mod Passes
use Prim.Native.String.{String}
use c68k.Prelude.{
  ℕ, Bool, true, false, not, ◌&&◌, Option, none, some, List, [], ◌∷◌, map, ◌==◌, same_bool,
  if◌then◌else◌,
}
use c68k.Ir.Expr.{IrExpr}
use c68k.Ir.Fold.{ie_num, ie_trivial, ie_fold}

pub data IiKind : Type 0 where
  ii_label ii_jmp ii_cbr ii_eval ii_ret ii_nop : IiKind

-- `none` is NULL.
pub record IrItem : Type 0 where
  pub kind : IiKind
  pub e : Option IrExpr
  pub label : Option String
  pub when : Bool

-- the body of the loop of op6_fold_exprs
unfoldable pub fold_item : IrItem → IrItem
fold_item it = elim it.e [ none ↦ it | some e ↦ record it { e = some (ie_fold e) } ]

unfoldable pub op6_fold_exprs : List IrItem → List IrItem
op6_fold_exprs = map fold_item

-- ie_num on a pointer that may be NULL
unfoldable pub item_num : Option IrExpr → Option ℕ
item_num none = none
item_num (some e) = ie_num e

-- the body of the loop of op6_fold_branches
unfoldable pub fold_branch : IrItem → IrItem
unfolding item_num
fold_branch it = elim it.kind [
  | ii_cbr ↦ elim (item_num it.e) [
    | none ↦ it
    | some c ↦ record it {
      kind = if same_bool (not (c == 0)) it.when then ii_jmp else ii_nop;
      e = none;
    }
  ]
  | _ ↦ it
]

unfoldable pub op6_fold_branches : List IrItem → List IrItem
op6_fold_branches = map fold_branch

-- ie_trivial on a pointer that may be NULL
unfoldable pub item_trivial : Option IrExpr → Bool
item_trivial none = true
item_trivial (some e) = ie_trivial e

-- the body of the loop of op6_dce_dead_eval
unfoldable pub drop_dead_eval : IrItem → IrItem
unfolding item_trivial
drop_dead_eval it = elim it.kind [
  | ii_eval ↦ if item_trivial it.e then record it { kind = ii_nop; e = none } else it
  | _ ↦ it
]

unfoldable pub op6_dce_dead_eval : List IrItem → List IrItem
op6_dce_dead_eval = map drop_dead_eval
