-- ===== src/Ir/Cfg/Optimize.antt =====
-- op6_dce_unreachable on the graph of ir_build_cfg, and ir_optimize, of src/ir68k.c.
use c68k.Prelude.{
  ℕ, ◌<◌, ◌≡◌, refl, Bool, true, Option, some, List, [], ◌∷◌, length, arith, ap, sym, ◌∙◌,
}
use mathlib.Core.Path.{subst}
use c68k.Ir.Items.{IrItem, op6_fold_exprs, op6_fold_branches, op6_dce_dead_eval}
use c68k.Ir.Items.Passes.{op6_fold_exprs-run, op6_fold_branches-run, op6_dce_dead_eval-run}
use c68k.Ir.Items.Run.{run}
use c68k.Ir.Meaning.{Machine, IsMachine}
use c68k.Ir.Cfg.{
  IrBlock, leaders, blocks_from, with_succ, ir_build_cfg, succ_at, seen_blocks, clear_unseen,
  op6_dce_unreachable, ir_optimize,
}
use c68k.Ir.Cfg.Blocks.{Tiles, cut-Tiles, ir_build_cfg-Tiles}
use c68k.Ir.Cfg.Dce.{run-left}
use c68k.Ir.Cfg.Edges.{
  ir_build_cfg-ranged, succ_at-with_pred, clear_unseen-with_succ, clear_unseen-with_pred,
}
use c68k.Ir.Cfg.Labels.{block_at}
use c68k.Ir.Cfg.Reach.{entry, edge, seen_blocks-Reachable}
use c68k.Ir.Cfg.Visit.{In, Seen}

dce_on :
    (blocks : List IrBlock) (its : List IrItem) (seen : List Bool)
    → 0 < length blocks
    → seen_blocks (length blocks) (succ_at blocks) ≡ some seen
    → op6_dce_unreachable blocks its ≡ some (clear_unseen seen 0 blocks its)
unfolding op6_dce_unreachable
dce_on [] its seen h e = absurd (omega arith)
dce_on (k ∷ ks) its seen h e = rw e refl

-- an empty function has no blocks
dce_empty : op6_dce_unreachable (ir_build_cfg []) [] ≡ some []
unfolding op6_dce_unreachable ir_build_cfg
dce_empty = refl

first_block :
    (i n : ℕ) (ks : List IrBlock) → i < n → Tiles i n ks → (0 < length ks) × (block_at i 0 ks ≡ 0)
first_block i n [] h t = absurd (omega arith)
first_block i n (k ∷ ks) h (s, l, t) = ground arith

-- The edges that ir_build_cfg sets are those of the blocks before; they clear the same items.
succ_at-ir_build_cfg :
    (its : List IrItem) (b : ℕ)
    → let ks = blocks_from 0 (leaders true its) in
      succ_at (ir_build_cfg its) b ≡ succ_at (with_succ its ks 0 ks) b
unfolding ir_build_cfg
succ_at-ir_build_cfg its b =
    let linked =
      with_succ its (blocks_from 0 (leaders true its)) 0 (blocks_from 0 (leaders true its)) in
    succ_at-with_pred linked 0 b linked

clear_unseen-ir_build_cfg :
    (seen : List Bool) (its : List IrItem)
    → clear_unseen seen 0 (ir_build_cfg its) its
      ≡ clear_unseen seen 0 (blocks_from 0 (leaders true its)) its
unfolding ir_build_cfg
clear_unseen-ir_build_cfg seen its =
    let blocks = blocks_from 0 (leaders true its) in
    let linked = with_succ its blocks 0 blocks in
    clear_unseen-with_pred seen linked 0 0 linked its
    ∙ clear_unseen-with_succ seen its blocks 0 0 blocks its

-- what op6_dce_unreachable promises of the list that it leaves
abbrev RunsAs : (m : Machine) → List IrItem → Option (List IrItem) → Type 0
RunsAs m its o =
    (out : List IrItem) × (o ≡ some out)
    × ((fuel : ℕ) (s : m.State) → run m fuel out 0 s ≡ run m fuel its 0 s)

dce_run :
    (m : Machine) (its : List IrItem)
    → 0 < length its
    → RunsAs m its (op6_dce_unreachable (ir_build_cfg its) its)
dce_run m its h =
    let ks = blocks_from 0 (leaders true its) in
    let cfg = ir_build_cfg its in
    let (tiles, straight) = cut-Tiles its in
    let some_blocks = (first_block 0 (length its) cfg h (ir_build_cfg-Tiles its).0).0 in
    let (seen, found, exact) =
      seen_blocks-Reachable (length cfg) (succ_at cfg) (ir_build_cfg-ranged its) some_blocks in
    let closed : (b s : ℕ) → Seen seen b → In s (succ_at (with_succ its ks 0 ks) b) → Seen seen s =
      λ b s sb k. (exact s).1 (
        edge ((exact b).0 sb)
          (subst (λ (ss : List ℕ). In s ss) (sym (succ_at-ir_build_cfg its b)) k)) in
    let at_entry : Seen seen (block_at 0 0 ks) =
      subst (Seen seen) (sym (first_block 0 (length its) ks h tiles).1) ((exact 0).1 entry) in
    (
      clear_unseen seen 0 ks its,
      dce_on cfg its seen some_blocks found ∙ ap some (clear_unseen-ir_build_cfg seen its),
      λ fuel s. run-left m its ks seen tiles straight closed fuel 0 s (λ _. at_entry),
    )

module _ (m : Machine) where
  -- For every list of items, op6_dce_unreachable on its control-flow graph ends, and what it leaves
  -- runs like the list from the first item, step for step, on every machine.
  pub op6_dce_unreachable-run :
      (its : List IrItem)
      → (out : List IrItem) × (op6_dce_unreachable (ir_build_cfg its) its ≡ some out)
        × ((fuel : ℕ) (s : m.State) → run m fuel out 0 s ≡ run m fuel its 0 s)
  op6_dce_unreachable-run [] = ([], dce_empty, λ fuel s. refl)
  op6_dce_unreachable-run (it ∷ its) = dce_run m (it ∷ its) (omega arith)

  -- On every machine that obeys the laws, ir_optimize ends on every list of items, and what it
  -- leaves runs like the list from the first item: after each number of steps both are at the same
  -- index in the same state, or have returned the same word.
  pub ir_optimize-run :
      IsMachine m
      → (its : List IrItem)
      → (out : List IrItem) × (ir_optimize its ≡ some out)
        × ((fuel : ℕ) (s : m.State) → run m fuel out 0 s ≡ run m fuel its 0 s)
  unfolding ir_optimize
  ir_optimize-run laws its =
      let folded = op6_fold_branches (op6_fold_exprs its) in
      let (left, found, same) = op6_dce_unreachable-run folded in
      (
        op6_dce_dead_eval left,
        rw (found, ir_optimize) refl,
        λ fuel s.
            op6_dce_dead_eval-run m fuel left 0 s
            ∙ same fuel s
            ∙ op6_fold_branches-run m fuel (op6_fold_exprs its) 0 s
            ∙ op6_fold_exprs-run m laws fuel its 0 s,
      )
