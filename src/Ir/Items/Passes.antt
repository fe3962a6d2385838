-- ===== src/Ir/Items/Passes.antt =====
-- The passes of src/ir68k.c over the items, against the runs of the items.
use Prim.Native.String.{String}
use mathlib.Core.Option
use c68k.Prelude.{
  ℕ, zero, suc, ◌+◌, ◌≡◌, refl, ap, ◌∙◌, Bool, true, false, not, same_bool, ◌%◌, ◌==◌,
  if◌then◌else◌, Option, none, some, List, [], ◌∷◌, map, get_elem?, arith, inl, inr, Option-cases,
}
use c68k.Ir.Fold.{ie_num}
use c68k.Ir.Fold.Sound.{ie_fold-eval}
use c68k.Ir.Items.Run.{defines, find_label, run_item, step_at, step, run, continue_congr}
use c68k.Ir.Expr.{IrExpr, nop, num}
use c68k.Ir.Items.{
  IiKind, IrItem, ii_jmp, ii_cbr, ii_nop, item_num, fold_item, op6_fold_exprs, fold_branch,
  op6_fold_branches, drop_dead_eval, op6_dce_dead_eval,
}
use c68k.Ir.Meaning.{Machine, IsMachine}
use c68k.Ir.Words.{ie_num-eval, ie_pure-eval, ie_trivial-ie_pure}

-- An item-wise pass that moves no label and keeps what each item does keeps every run.
module _ (m : Machine) (f : IrItem → IrItem) (same_label : (it : IrItem) → (f it).label ≡ it.label)
    (same_defines : (it : IrItem) (n : Option String) → defines (f it) n ≡ defines it n)
    (same_step : (it : IrItem) (target : Option ℕ) (pc : ℕ) (s : m.State)
      → run_item m (f it) target pc s ≡ run_item m it target pc s) where
  map-find_label :
      (n : Option String) (i : ℕ) (its : List IrItem)
      → find_label n i (map f its) ≡ find_label n i its
  unfolding find_label
  map-find_label n i [] = refl
  map-find_label n i (it ∷ its) = rw (same_defines it n, map-find_label n (i + 1) its)

  get_elem?-map :
      (its : List IrItem) (i : ℕ) → get_elem? (map f its) i ≡ Option.map f (get_elem? its i)
  get_elem?-map [] i = refl
  get_elem?-map (x ∷ its) zero = refl
  get_elem?-map (x ∷ its) (suc i) = get_elem?-map its i

  map-step_at :
      (its : List IrItem) (o : Option IrItem) (pc : ℕ) (s : m.State)
      → step_at m (map f its) (Option.map f o) pc s ≡ step_at m its o pc s
  unfolding step_at
  map-step_at its none pc s = refl
  map-step_at its (some it) pc s =
      let target =
        ap (λ l. find_label l 0 (map f its)) (same_label it) ∙ map-find_label it.label 0 its in
      ap (λ t. run_item m (f it) t pc s) target ∙ same_step it _ pc s

  map-step : (its : List IrItem) (pc : ℕ) (s : m.State) → step m (map f its) pc s ≡ step m its pc s
  unfolding step
  map-step its pc s = rw (get_elem?-map its pc) (map-step_at its (get_elem? its pc) pc s)

  pub map-run :
      (fuel : ℕ) (its : List IrItem) (pc : ℕ) (s : m.State)
      → run m fuel (map f its) pc s ≡ run m fuel its pc s
  unfolding run
  map-run zero its pc s = refl
  map-run (suc fuel) its pc s = rw (map-step its pc s) (
      continue_congr (run m fuel (map f its)) (run m fuel its) (map-run fuel its) (step m its pc s))

module _ (m : Machine) (laws : IsMachine m) where
  fold_item-label : (it : IrItem) → (fold_item it).label ≡ it.label
  unfolding fold_item
  fold_item-label it = ground arith

  fold_item-defines : (it : IrItem) (n : Option String) → defines (fold_item it) n ≡ defines it n
  unfolding fold_item
  fold_item-defines it n = ground arith

  fold_item-run_item :
      (it : IrItem) (target : Option ℕ) (pc : ℕ) (s : m.State)
      → run_item m (fold_item it) target pc s ≡ run_item m it target pc s
  unfolding fold_item
  fold_item-run_item it target pc s = elim (Option-cases it.e) [
    | inl h ↦ ground arith
    | inr (e, h) ↦ ground (arith, ie_fold-eval m laws e s)
  ]

  -- A list of items and its op6_fold_exprs run alike: after any number of steps from any item and
  -- state they stand at the same item in the same state, or have returned the same word, on every
  -- machine that obeys the laws.
  pub op6_fold_exprs-run :
      (fuel : ℕ) (its : List IrItem) (pc : ℕ) (s : m.State)
      → run m fuel (op6_fold_exprs its) pc s ≡ run m fuel its pc s
  unfolding op6_fold_exprs
  op6_fold_exprs-run fuel its pc s =
      map-run m fold_item fold_item-label fold_item-defines fold_item-run_item fuel its pc s

-- a conditional branch on a number
abbrev is_number : Option IrExpr → Bool
is_number (some (num val size uns)) = true
is_number _ = false

abbrev is_constant : IiKind → Option IrExpr → Bool
is_constant ii_cbr e = is_number e
is_constant _ e = false

abbrev pub NoConstant : List IrItem → Type 0
NoConstant [] = Unit {0}
NoConstant (it ∷ its) = (is_constant it.kind it.e ≡ false) × NoConstant its

decided : (b : Bool) (e : Option IrExpr) → is_constant (if b then ii_jmp else ii_nop) e ≡ false
decided true e = refl
decided false e = refl

fold_branch-constant :
    (it : IrItem) (k : IiKind) (e : Option IrExpr)
    → (let it' = fold_branch (record it { kind = k; e = e }) in is_constant it'.kind it'.e ≡ false)
unfolding fold_branch item_num ie_num
fold_branch-constant it ii_cbr none = refl
fold_branch-constant it ii_cbr (some (num val size uns)) =
    decided (same_bool (not (val % 0x100000000 == 0)) it.when) none
fold_branch-constant it ii_cbr (some nop) = refl
fold_branch-constant it ii_cbr (some _) = refl
fold_branch-constant it _ e = refl

fold_branches-NoConstant : (its : List IrItem) → NoConstant (op6_fold_branches its)
unfolding op6_fold_branches
fold_branches-NoConstant [] = tt
fold_branches-NoConstant (it ∷ its) =
    (fold_branch-constant it it.kind it.e, fold_branches-NoConstant its)

module _ (m : Machine) where
  fold_branch-label : (it : IrItem) → (fold_branch it).label ≡ it.label
  unfolding fold_branch
  fold_branch-label it = ground arith

  fold_branch-defines :
      (it : IrItem) (n : Option String) → defines (fold_branch it) n ≡ defines it n
  unfolding fold_branch
  fold_branch-defines it n = ground arith

  fold_branch-run_item :
      (it : IrItem) (target : Option ℕ) (pc : ℕ) (s : m.State)
      → run_item m (fold_branch it) target pc s ≡ run_item m it target pc s
  unfolding fold_branch
  fold_branch-run_item it target pc s = elim (Option-cases it.e) [
    | inl h ↦ ground arith
    | inr (e, h) ↦ elim (Option-cases (ie_num e)) [
      | inl n ↦ ground arith
      | inr (c, n) ↦ ground (arith, ie_num-eval m e s n)
    ]
  ]

  pub op6_fold_branches-run :
      (fuel : ℕ) (its : List IrItem) (pc : ℕ) (s : m.State)
      → run m fuel (op6_fold_branches its) pc s ≡ run m fuel its pc s
  unfolding op6_fold_branches
  op6_fold_branches-run fuel its pc s =
      map-run m fold_branch fold_branch-label fold_branch-defines fold_branch-run_item fuel its pc s

  -- A list of items and its op6_fold_branches run alike, step for step, on every machine, and no
  -- conditional branch on a number is left in it.
  pub op6_fold_branches-NoConstant :
      (fuel : ℕ) (its : List IrItem) (pc : ℕ) (s : m.State)
      → (run m fuel (op6_fold_branches its) pc s ≡ run m fuel its pc s)
        × NoConstant (op6_fold_branches its)
  op6_fold_branches-NoConstant fuel its pc s =
      (op6_fold_branches-run fuel its pc s, fold_branches-NoConstant its)

  drop_dead_eval-label : (it : IrItem) → (drop_dead_eval it).label ≡ it.label
  unfolding drop_dead_eval
  drop_dead_eval-label it = ground arith

  drop_dead_eval-defines :
      (it : IrItem) (n : Option String) → defines (drop_dead_eval it) n ≡ defines it n
  unfolding drop_dead_eval
  drop_dead_eval-defines it n = ground arith

  drop_dead_eval-run_item :
      (it : IrItem) (target : Option ℕ) (pc : ℕ) (s : m.State)
      → run_item m (drop_dead_eval it) target pc s ≡ run_item m it target pc s
  unfolding drop_dead_eval
  drop_dead_eval-run_item it target pc s = elim (Option-cases it.e) [
    | inl h ↦ ground arith
    | inr (e, h) ↦ ground (arith, ie_trivial-ie_pure e, ie_pure-eval m e s)
  ]

  -- A list of items and its op6_dce_dead_eval run alike, step for step, on every machine: only an
  -- evaluation that leaves the state as it is gets dropped.
  pub op6_dce_dead_eval-run :
      (fuel : ℕ) (its : List IrItem) (pc : ℕ) (s : m.State)
      → run m fuel (op6_dce_dead_eval its) pc s ≡ run m fuel its pc s
  unfolding op6_dce_dead_eval
  op6_dce_dead_eval-run fuel its pc s =
      map-run m drop_dead_eval drop_dead_eval-label drop_dead_eval-defines drop_dead_eval-run_item
        fuel its pc s
