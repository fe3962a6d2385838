-- ===== src/Ir/Cfg.antt =====
-- The control-flow graph of src/ir68k.c: ir_build_cfg with block_of_label, and op6_dce_unreachable.
pub mod Visit
pub mod Blocks
pub mod Labels
pub mod Clear
pub mod Edges
pub mod Flow
pub mod Live
pub mod Dce
pub mod Optimize
pub mod Preds
mod Tests
pub mod Reach
use Prim.Native.String.{String}
use c68k.Prelude.{
  ℕ, zero, suc, ◌+◌, ◌-◌, ◌<◌, Bool, true, false, not, ◌&&◌, ◌||◌, Option, none, some, List, [],
  ◌∷◌, ◌++◌, length, get_elem?, get_or, set, replicate, ltb, leb, ◌==◌, if◌then◌else◌,
}
use c68k.Ir.Items.{
  op6_fold_exprs, op6_fold_branches, op6_dce_dead_eval, IiKind, ii_label, ii_jmp, ii_cbr, ii_eval,
  ii_ret, ii_nop, IrItem,
}
use c68k.Ir.Items.Run.{defines}

-- `start`, `end`, `succ` and `pred` of an IrBlock
pub record IrBlock : Type 0 where
  pub start : ℕ
  pub end : ℕ
  pub succ : List ℕ
  pub pred : List ℕ

unfoldable pub is_label : IrItem → Bool
is_label it = elim it.kind [ ii_label ↦ true | _ ↦ false ]

unfoldable pub is_transfer : IrItem → Bool
is_transfer it = elim it.kind [ ii_jmp ↦ true | ii_cbr ↦ true | ii_ret ↦ true | _ ↦ false ]

-- The array `lead`; `after` is lead[i] as the item before left it.
unfoldable pub leaders : Bool → List IrItem → List Bool
unfolding is_label is_transfer
leaders after [] = []
leaders after (it ∷ its) = (after || is_label it) ∷ leaders (is_transfer it) its

-- `while (j < nitems && !lead[j]) j++`: how far j goes
unfoldable pub block_rest : List Bool → ℕ
block_rest [] = 0
block_rest (true ∷ lead) = 0
block_rest (false ∷ lead) = block_rest lead + 1

unfoldable pub blocks_from : ℕ → List Bool → List IrBlock
unfolding block_rest
blocks_from i [] = []
blocks_from i (true ∷ lead) =
    record { start = i; end = i + 1 + block_rest lead; succ = []; pred = [] }
    ∷ blocks_from (i + 1) lead
blocks_from i (false ∷ lead) = blocks_from (i + 1) lead

-- One block's part of the search in block_of_label: `n` items from `i`
unfoldable pub label_in : List IrItem → Option String → ℕ → ℕ → Bool
label_in its name i zero = false
label_in its name i (suc n) =
    elim (get_elem? its i) [ none ↦ false | some it ↦ defines it name ]
    || label_in its name (i + 1) n

-- `none` is -1; `b` is the number of the first block of the list.
unfoldable pub block_of_label : List IrItem → Option String → ℕ → List IrBlock → Option ℕ
unfolding label_in
block_of_label its name b [] = none
block_of_label its name b (k ∷ ks) =
    let rest = block_of_label its name (b + 1) ks in
    if label_in its name k.start (k.end - k.start) then some b else rest

abbrev pub one_of : Option ℕ → List ℕ
one_of none = []
one_of (some t) = t ∷ []

-- The successors of block `b` of `nblocks`, by its last item
unfoldable pub succ_of : List IrItem → List IrBlock → ℕ → IrItem → List ℕ
unfolding block_of_label
succ_of its blocks b last =
    let next = if ltb (b + 1) (length blocks) then (b + 1) ∷ [] else [] in
    let target = one_of (block_of_label its last.label 0 blocks) in
    elim last.kind [ ii_jmp ↦ target | ii_ret ↦ [] | ii_cbr ↦ target ++ next | _ ↦ next ]

unfoldable pub with_succ : List IrItem → List IrBlock → ℕ → List IrBlock → List IrBlock
unfolding succ_of
with_succ its blocks b [] = []
with_succ its blocks b (k ∷ ks) =
    record k {
      succ = elim (get_elem? its (k.end - 1)) [ none ↦ [] | some last ↦ succ_of its blocks b last ];
    }
    ∷ with_succ its blocks (b + 1) ks

-- The blocks, from number `b` on, that have `t` among their successors, once for each edge
unfoldable pub pred_edges : ℕ → ℕ → List ℕ → List ℕ
pred_edges t b [] = []
pred_edges t b (s ∷ ss) = if s == t then b ∷ pred_edges t b ss else pred_edges t b ss

unfoldable pub pred_of : ℕ → ℕ → List IrBlock → List ℕ
unfolding pred_edges
pred_of t b [] = []
pred_of t b (k ∷ ks) = pred_edges t b k.succ ++ pred_of t (b + 1) ks

unfoldable pub with_pred : List IrBlock → ℕ → List IrBlock → List IrBlock
unfolding pred_of
with_pred blocks b [] = []
with_pred blocks b (k ∷ ks) = record k { pred = pred_of b 0 blocks } ∷ with_pred blocks (b + 1) ks

-- The value is the array `blocks`.
unfoldable pub ir_build_cfg : List IrItem → List IrBlock
unfolding leaders blocks_from with_succ with_pred
ir_build_cfg its =
    let blocks = blocks_from 0 (leaders true its) in
    let linked = with_succ its blocks 0 blocks in with_pred linked 0 linked

-- `seen` and the part of `stack` below `sp`, its top first
pub record Search : Type 0 where
  pub seen : List Bool
  pub stack : List ℕ

-- the body of the loop over the successors in op6_dce_unreachable
unfoldable pub visit : Search → ℕ → Search
visit r s =
    if get_or r.seen s false then r else record { seen = set r.seen s true; stack = s ∷ r.stack }

unfoldable pub visit_all : Search → List ℕ → Search
unfolding visit
visit_all r [] = r
visit_all r (s ∷ ss) = visit_all (visit r s) ss

-- `while (sp)`; each block is pushed once, so `nblocks` rounds are enough. `none` is out of fuel.
unfoldable pub search : ℕ → (ℕ → List ℕ) → List Bool → List ℕ → Option (List Bool)
unfolding visit_all
search fuel succ seen [] = some seen
search zero succ seen (b ∷ stack) = none
search (suc fuel) succ seen (b ∷ stack) =
    let r = visit_all (record { seen = seen; stack = stack }) (succ b) in
    search fuel succ r.seen r.stack

unfoldable pub seen_blocks : ℕ → (ℕ → List ℕ) → Option (List Bool)
unfolding search
seen_blocks n succ = search n succ (set (replicate n false) 0 true) (0 ∷ [])

unfoldable pub succ_at : List IrBlock → ℕ → List ℕ
succ_at blocks b = elim (get_elem? blocks b) [ none ↦ [] | some k ↦ k.succ ]

-- `n` items from `i` become II_NOP with no expression.
unfoldable pub clear_items : List IrItem → ℕ → ℕ → List IrItem
clear_items its i zero = its
clear_items its i (suc n) = elim (get_elem? its i) [
  | none ↦ its
  | some it ↦ clear_items (set its i (record it { kind = ii_nop; e = none })) (i + 1) n
]

unfoldable pub clear_unseen : List Bool → ℕ → List IrBlock → List IrItem → List IrItem
unfolding clear_items
clear_unseen seen b [] its = its
clear_unseen seen b (k ∷ ks) its =
    clear_unseen seen (b + 1) ks
      (if get_or seen b false then its else clear_items its k.start (k.end - k.start))

unfoldable pub op6_dce_unreachable : List IrBlock → List IrItem → Option (List IrItem)
unfolding seen_blocks succ_at clear_unseen
op6_dce_unreachable [] its = some its
op6_dce_unreachable (k ∷ ks) its = elim (seen_blocks (length (k ∷ ks)) (succ_at (k ∷ ks))) [
  | none ↦ none
  | some seen ↦ some (clear_unseen seen 0 (k ∷ ks) its)
]

-- `none` is out of fuel in the search.
unfoldable pub ir_optimize : List IrItem → Option (List IrItem)
ir_optimize its =
    let folded = op6_fold_branches (op6_fold_exprs its) in
    elim (op6_dce_unreachable (ir_build_cfg folded) folded) [
      | none ↦ none
      | some left ↦ some (op6_dce_dead_eval left)
    ]
