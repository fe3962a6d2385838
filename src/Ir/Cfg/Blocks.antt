-- ===== src/Ir/Cfg/Blocks.antt =====
-- Where the blocks of ir_build_cfg in src/ir68k.c lie.
use c68k.Prelude.{
  ℕ, zero, suc, ◌+◌, ◌<◌, ◌≡◌, refl, Bool, true, false, List, [], ◌∷◌, length, get_or, All, arith,
  ap, ◌∙◌,
}
use c68k.Ir.Items.{IrItem}
use c68k.Ir.Cfg.{
  IrBlock, is_transfer, leaders, block_rest, blocks_from, with_succ, with_pred, ir_build_cfg,
}

-- The blocks lie one behind the other from item `i` up to item `n`, none of them empty.
abbrev pub Tiles : ℕ → ℕ → List IrBlock → Type 0
Tiles i n [] = i ≡ n
Tiles i n (k ∷ ks) = (k.start ≡ i) × (i < k.end) × Tiles k.end n ks

length-leaders : (after : Bool) (its : List IrItem) → length (leaders after its) ≡ length its
unfolding leaders
length-leaders after [] = refl
length-leaders after (it ∷ its) = ap suc (length-leaders (is_transfer it) its)

Tiles-from : (i j n m : ℕ) (ks : List IrBlock) → i ≡ j → n ≡ m → Tiles i n ks → Tiles j m ks
Tiles-from i j n m [] e f h = omega arith
Tiles-from i j n m (k ∷ ks) e f (s, l, t) =
    (s ∙ e, omega arith, Tiles-from k.end k.end n m ks refl f t)

blocks_from-Tiles :
    (i : ℕ) (lead : List Bool) → Tiles (i + block_rest lead) (i + length lead) (blocks_from i lead)
unfolding block_rest blocks_from
blocks_from-Tiles i [] = refl
blocks_from-Tiles i (true ∷ lead) = (
  omega arith,
  omega arith,
  Tiles-from (i + 1 + block_rest lead) (i + 1 + block_rest lead) (i + 1 + length lead)
      (i + suc (length lead)) (blocks_from (i + 1) lead) refl (omega arith)
      (blocks_from-Tiles (i + 1) lead),
)
blocks_from-Tiles i (false ∷ lead) =
    Tiles-from (i + 1 + block_rest lead) (i + (block_rest lead + 1)) (i + 1 + length lead)
      (i + suc (length lead)) (blocks_from (i + 1) lead) (omega arith) (omega arith)
      (blocks_from-Tiles (i + 1) lead)

-- Behind a block's first item there is no leader; `i` is the index of the first of `lead`.
abbrev pub Straight : ℕ → List Bool → IrBlock → Type 0
Straight i lead k = (d : ℕ) → k.start < i + d → i + d < k.end → get_or lead d false ≡ false

block_rest_lem : (lead : List Bool) (d : ℕ) → d < block_rest lead → get_or lead d false ≡ false
unfolding block_rest
block_rest_lem [] d h = refl
block_rest_lem (true ∷ lead) d h = absurd (omega arith)
block_rest_lem (false ∷ lead) zero h = refl
block_rest_lem (false ∷ lead) (suc d) h = block_rest_lem lead d (omega arith)

Straight-cons :
    (i : ℕ) (x : Bool) (lead : List Bool) (k : IrBlock)
    → i < k.start
    → Straight (i + 1) lead k
    → Straight i (x ∷ lead) k
Straight-cons i x lead k h s zero lo hi = absurd (omega arith)
Straight-cons i x lead k h s (suc d) lo hi = s d (omega arith) (omega arith)

All-Straight-cons :
    (i j n : ℕ) (x : Bool) (lead : List Bool) (ks : List IrBlock)
    → i < j
    → Tiles j n ks
    → All (Straight (i + 1) lead) ks
    → All (Straight i (x ∷ lead)) ks
All-Straight-cons i j n x lead [] lt t h = tt
All-Straight-cons i j n x lead (k ∷ ks) lt (s, l, t) (h, hs) = (
  Straight-cons i x lead k (omega arith) h,
  All-Straight-cons i k.end n x lead ks (omega arith) t hs,
)

blocks_from-Straight : (i : ℕ) (lead : List Bool) → All (Straight i lead) (blocks_from i lead)
unfolding block_rest blocks_from
blocks_from-Straight i [] = tt
blocks_from-Straight i (true ∷ lead) = (
  λ d lo hi.
      elim d
          as (λ d.
            i < i + d → i + d < i + 1 + block_rest lead → get_or (true ∷ lead) d false ≡ false) [
              | zero ↦ λ lo hi. absurd (omega arith)
              | suc d ↦ λ lo hi. block_rest_lem lead d (omega arith)
            ]
        lo hi,
  All-Straight-cons i (i + 1 + block_rest lead) (i + 1 + length lead) true lead
      (blocks_from (i + 1) lead) (omega arith) (blocks_from-Tiles (i + 1) lead)
      (blocks_from-Straight (i + 1) lead),
)
blocks_from-Straight i (false ∷ lead) =
    All-Straight-cons i (i + 1 + block_rest lead) (i + 1 + length lead) false lead
      (blocks_from (i + 1) lead) (omega arith) (blocks_from-Tiles (i + 1) lead)
      (blocks_from-Straight (i + 1) lead)

-- What the edges are does not matter to where the blocks lie.
with_succ-Tiles :
    (its : List IrItem) (blocks : List IrBlock) (b i n : ℕ) (ks : List IrBlock)
    → Tiles i n ks
    → Tiles i n (with_succ its blocks b ks)
unfolding with_succ
with_succ-Tiles its blocks b i n [] t = t
with_succ-Tiles its blocks b i n (k ∷ ks) (s, l, t) =
    (s, l, with_succ-Tiles its blocks (b + 1) k.end n ks t)

with_pred-Tiles :
    (blocks : List IrBlock) (b i n : ℕ) (ks : List IrBlock)
    → Tiles i n ks
    → Tiles i n (with_pred blocks b ks)
unfolding with_pred
with_pred-Tiles blocks b i n [] t = t
with_pred-Tiles blocks b i n (k ∷ ks) (s, l, t) =
    (s, l, with_pred-Tiles blocks (b + 1) k.end n ks t)

with_succ-Straight :
    (its : List IrItem) (blocks : List IrBlock) (b i : ℕ) (lead : List Bool) (ks : List IrBlock)
    → All (Straight i lead) ks
    → All (Straight i lead) (with_succ its blocks b ks)
unfolding with_succ
with_succ-Straight its blocks b i lead [] t = t
with_succ-Straight its blocks b i lead (k ∷ ks) (h, hs) =
    (h, with_succ-Straight its blocks (b + 1) i lead ks hs)

with_pred-Straight :
    (blocks : List IrBlock) (b i : ℕ) (lead : List Bool) (ks : List IrBlock)
    → All (Straight i lead) ks
    → All (Straight i lead) (with_pred blocks b ks)
unfolding with_pred
with_pred-Straight blocks b i lead [] t = t
with_pred-Straight blocks b i lead (k ∷ ks) (h, hs) =
    (h, with_pred-Straight blocks (b + 1) i lead ks hs)

block_rest-leaders : (its : List IrItem) → block_rest (leaders true its) ≡ 0
unfolding block_rest leaders
block_rest-leaders [] = refl
block_rest-leaders (it ∷ its) = refl

-- the blocks before their edges are known
pub cut-Tiles :
    (its : List IrItem)
    → Tiles 0 (length its) (blocks_from 0 (leaders true its))
      × All (Straight 0 (leaders true its)) (blocks_from 0 (leaders true its))
cut-Tiles its =
    let lead = leaders true its in
    let len = length-leaders true its in
    (
      Tiles-from (0 + block_rest lead) 0 (0 + length lead) (length its) (blocks_from 0 lead)
          (omega (arith, block_rest-leaders its)) (omega arith) (blocks_from-Tiles 0 lead),
      blocks_from-Straight 0 lead,
    )

pub ir_build_cfg-Tiles :
    (its : List IrItem)
    → Tiles 0 (length its) (ir_build_cfg its)
      × All (Straight 0 (leaders true its)) (ir_build_cfg its)
unfolding ir_build_cfg
ir_build_cfg-Tiles its =
    let lead = leaders true its in
    let blocks = blocks_from 0 lead in
    let linked = with_succ its blocks 0 blocks in
    let (tiles, straight) = cut-Tiles its in
    (
      with_pred-Tiles linked 0 0 (length its) linked
          (with_succ-Tiles its blocks 0 0 (length its) blocks tiles),
      with_pred-Straight linked 0 0 lead linked
          (with_succ-Straight its blocks 0 0 lead blocks straight),
    )
