-- ===== src/Ir/Cfg/Dce.antt =====
-- Runs of the items of src/ir68k.c that op6_dce_unreachable leaves.
use Prim.Native.String.{String}
use c68k.Prelude.{
  ℕ, zero, suc, ◌+◌, ◌≡◌, refl, Bool, true, not, Option, some, List, length, get_elem?, All,
  Option-cases, Bool-cases, inl, inr, ◌==◌, same_bool,
}
use c68k.Ir.Expr.{IrExpr}
use c68k.Ir.Items.{IiKind, ii_label, ii_jmp, ii_cbr, ii_eval, ii_ret, ii_nop, IrItem}
use c68k.Ir.Items.Run.{
  find_label, Next, go, returned, off_end, no_label, continue, eval_item, run_item, step_at, step,
  run,
}
use c68k.Ir.Meaning.{Machine}
use c68k.Ir.Cfg.{IrBlock, leaders, with_succ, succ_at}
use c68k.Ir.Cfg.Blocks.{Tiles, Straight}
use c68k.Ir.Cfg.Live.{falls, branches, left, Live, left-get, Live-next, left-find_label}
use c68k.Ir.Cfg.Visit.{In, Seen}

-- One item does the same with two targets that agree where it branches, and leaves control at an
-- index with `P`, where the next index and the target have it.
module _ (m : Machine) (P : ℕ → Type 0) where
  abbrev pub NextHas : Next m.State → Type 0
  NextHas (go pc s) = P pc
  NextHas _ = Unit

  item_goes :
      (kind : IiKind) (e : Option IrExpr) (label : Option String) (when : Bool)
      (target target' : Option ℕ) (pc : ℕ) (s : m.State)
      → (falls kind ≡ true → P (pc + 1))
      → (branches kind ≡ true → (target' ≡ target) × ((p : ℕ) → target ≡ some p → P p))
      → let it : IrItem = record { kind = kind; e = e; label = label; when = when } in
        (run_item m it target' pc s ≡ run_item m it target pc s)
        × NextHas (run_item m it target pc s)
  item_goes ii_label e label when target target' pc s next jumps = (refl, next refl)
  item_goes ii_nop e label when target target' pc s next jumps = (refl, next refl)
  item_goes ii_eval e label when target target' pc s next jumps = (refl, next refl)
  item_goes ii_ret e label when target target' pc s next jumps = (refl, tt)
  item_goes ii_jmp e label when target target' pc s next jumps =
      let (same, has) = jumps refl in
      elim (Option-cases target) [
        | inl none_at ↦ rw (same, none_at) (refl, tt)
        | inr (p, at) ↦ rw (same, at) (refl, has p at)
      ]
  item_goes ii_cbr e label when target target' pc s next jumps =
      let (same, has) = jumps refl in
      elim (Bool-cases (same_bool (not ((eval_item m e s).0 == 0)) when)) [
        | inr stays ↦ rw stays (refl, next refl)
        | inl taken ↦ elim (Option-cases target) [
          | inl none_at ↦ rw (taken, same, none_at) (refl, tt)
          | inr (p, at) ↦ rw (taken, same, at) (refl, has p at)
        ]
      ]

module _ (m : Machine) (its : List IrItem) (ks : List IrBlock) (seen : List Bool)
    (tiles : Tiles 0 (length its) ks) (straight : All (Straight 0 (leaders true its)) ks)
    (closed : (b s : ℕ)
      → Seen seen b
      → In s (succ_at (with_succ its ks 0 ks) b)
      → Seen seen s) where
  step-left :
      (pc : ℕ) (s : m.State)
      → Live its ks seen tiles straight closed pc
      → (step m (left its ks seen tiles straight closed) pc s ≡ step m its pc s)
        × NextHas m (Live its ks seen tiles straight closed) (step m its pc s)
  unfolding step step_at
  step-left pc s live = elim (Option-cases (get_elem? its pc)) [
    | inl e ↦ rw (left-get its ks seen tiles straight closed pc live, e) (refl, tt)
    | inr (it, e) ↦
        rw (left-get its ks seen tiles straight closed pc live, e)
          (item_goes m (Live its ks seen tiles straight closed) it.kind it.e it.label it.when
            (find_label it.label 0 its)
            (find_label it.label 0 (left its ks seen tiles straight closed)) pc s
            (Live-next its ks seen tiles straight closed pc it live e)
            (left-find_label its ks seen tiles straight closed pc it live e))
  ]

  continue-left :
      (j k : ℕ → m.State → Next m.State) (x : Next m.State)
      → NextHas m (Live its ks seen tiles straight closed) x
      → ((pc : ℕ) (s : m.State) → Live its ks seen tiles straight closed pc → j pc s ≡ k pc s)
      → continue j x ≡ continue k x
  continue-left j k (go pc s) has h = h pc s has
  continue-left j k (returned v s) has h = refl
  continue-left j k (off_end s) has h = refl
  continue-left j k no_label has h = refl

  pub run-left :
      (fuel pc : ℕ) (s : m.State)
      → Live its ks seen tiles straight closed pc
      → run m fuel (left its ks seen tiles straight closed) pc s ≡ run m fuel its pc s
  unfolding run
  run-left zero pc s live = refl
  run-left (suc fuel) pc s live =
      let (same, has) = step-left pc s live in
      rw same (
        continue-left (run m fuel (left its ks seen tiles straight closed)) (run m fuel its)
          (step m its pc s) has (λ p t h. run-left fuel p t h))
