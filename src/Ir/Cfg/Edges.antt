-- ===== src/Ir/Cfg/Edges.antt =====
-- The successor edges of ir_build_cfg in src/ir68k.c.
use Prim.Native.String.{String}
use c68k.Prelude.{
  ℕ, zero, suc, ◌+◌, ◌-◌, ◌<◌, ◌≡◌, refl, Bool, true, Option, some, List, [], ◌∷◌, ◌++◌, length,
  get_elem?, All, Option-cases, inl, inr, arith, if◌then◌else◌, ltb, ap, ◌∙◌,
}
use c68k.Ir.Items.{ii_jmp, ii_cbr, ii_ret, IrItem}
use c68k.Ir.Cfg.{
  IrBlock, leaders, blocks_from, block_of_label, one_of, succ_of, with_succ, with_pred,
  ir_build_cfg, succ_at, clear_unseen,
}

block_of_label-lt :
    (its : List IrItem) (name : Option String) (b t : ℕ) (ks : List IrBlock)
    → block_of_label its name b ks ≡ some t
    → t < b + length ks
unfolding block_of_label
block_of_label-lt its name b t [] h = cc
block_of_label-lt its name b t (k ∷ ks) h = ground (arith, block_of_label-lt its name (b + 1) t ks)

All-append : (P : ℕ → Type 0) (xs ys : List ℕ) → All P xs → All P ys → All P (xs ++ ys)
All-append P [] ys h k = k
All-append P (x ∷ xs) ys (h, hs) k = (h, All-append P xs ys hs k)

target-ranged :
    (its : List IrItem) (name : Option String) (blocks : List IrBlock)
    → All (λ s. s < length blocks) (one_of (block_of_label its name 0 blocks))
target-ranged its name blocks = elim (Option-cases (block_of_label its name 0 blocks)) [
  | inl e ↦ rw e tt
  | inr (t, e) ↦ rw e (omega (arith, block_of_label-lt its name 0 t blocks e), tt)
]

next-ranged : (b n : ℕ) → All (λ s. s < n) (if ltb (b + 1) n then (b + 1) ∷ [] else [])
next-ranged b n = ground arith

succ_of-ranged :
    (its : List IrItem) (blocks : List IrBlock) (b : ℕ) (last : IrItem)
    → All (λ s. s < length blocks) (succ_of its blocks b last)
unfolding succ_of
succ_of-ranged its blocks b last =
    let target = target-ranged its last.label blocks in
    let next = next-ranged b (length blocks) in
    elim last.kind
      as (λ k.
        All (λ s. s < length blocks)
          (elim k [
            | ii_jmp ↦ one_of (block_of_label its last.label 0 blocks)
            | ii_ret ↦ []
            | ii_cbr ↦
                one_of (block_of_label its last.label 0 blocks)
                ++ (if ltb (b + 1) (length blocks) then (b + 1) ∷ [] else [])
            | _ ↦ if ltb (b + 1) (length blocks) then (b + 1) ∷ [] else []
          ])) [
            | ii_jmp ↦ target
            | ii_ret ↦ tt
            | ii_cbr ↦ All-append (λ s. s < length blocks) _ _ target next
            | _ ↦ next
          ]

with_succ-ranged :
    (its : List IrItem) (blocks : List IrBlock) (b d : ℕ) (ks : List IrBlock)
    → All (λ s. s < length blocks) (succ_at (with_succ its blocks b ks) d)
unfolding with_succ succ_at
with_succ-ranged its blocks b d [] = tt
with_succ-ranged its blocks b zero (k ∷ ks) = elim (Option-cases (get_elem? its (k.end - 1))) [
  | inl e ↦ rw e tt
  | inr (last, e) ↦ rw e (succ_of-ranged its blocks b last)
]
with_succ-ranged its blocks b (suc d) (k ∷ ks) = with_succ-ranged its blocks (b + 1) d ks

pub succ_at-with_succ :
    (its : List IrItem) (blocks : List IrBlock) (b d : ℕ) (ks : List IrBlock) (k : IrBlock)
    (last : IrItem)
    → get_elem? ks d ≡ some k
    → get_elem? its (k.end - 1) ≡ some last
    → succ_at (with_succ its blocks b ks) d ≡ succ_of its blocks (b + d) last
unfolding with_succ succ_at
succ_at-with_succ its blocks b d [] k last e f = cc
succ_at-with_succ its blocks b zero (x ∷ ks) k last e f =
    let same : x ≡ k = cc in rw (same, f) (ap (λ t. succ_of its blocks t last) (omega arith))
succ_at-with_succ its blocks b (suc d) (x ∷ ks) k last e f =
    succ_at-with_succ its blocks (b + 1) d ks k last e f
    ∙ ap (λ t. succ_of its blocks t last) (omega arith)

pub succ_at-with_pred :
    (blocks : List IrBlock) (b d : ℕ) (ks : List IrBlock)
    → succ_at (with_pred blocks b ks) d ≡ succ_at ks d
unfolding with_pred succ_at
succ_at-with_pred blocks b d [] = refl
succ_at-with_pred blocks b zero (k ∷ ks) = refl
succ_at-with_pred blocks b (suc d) (k ∷ ks) = succ_at-with_pred blocks (b + 1) d ks

length-with_succ :
    (its : List IrItem) (blocks : List IrBlock) (b : ℕ) (ks : List IrBlock)
    → length (with_succ its blocks b ks) ≡ length ks
unfolding with_succ
length-with_succ its blocks b [] = refl
length-with_succ its blocks b (k ∷ ks) = ap suc (length-with_succ its blocks (b + 1) ks)

length-with_pred :
    (blocks : List IrBlock) (b : ℕ) (ks : List IrBlock) → length (with_pred blocks b ks) ≡ length ks
unfolding with_pred
length-with_pred blocks b [] = refl
length-with_pred blocks b (k ∷ ks) = ap suc (length-with_pred blocks (b + 1) ks)

-- Only where the blocks lie matters to what is cleared.
pub clear_unseen-with_succ :
    (seen : List Bool) (its : List IrItem) (blocks : List IrBlock) (b c : ℕ) (ks : List IrBlock)
    (xs : List IrItem)
    → clear_unseen seen c (with_succ its blocks b ks) xs ≡ clear_unseen seen c ks xs
unfolding with_succ clear_unseen
clear_unseen-with_succ seen its blocks b c [] xs = refl
clear_unseen-with_succ seen its blocks b c (k ∷ ks) xs =
    clear_unseen-with_succ seen its blocks (b + 1) (c + 1) ks _

pub clear_unseen-with_pred :
    (seen : List Bool) (blocks : List IrBlock) (b c : ℕ) (ks : List IrBlock) (xs : List IrItem)
    → clear_unseen seen c (with_pred blocks b ks) xs ≡ clear_unseen seen c ks xs
unfolding with_pred clear_unseen
clear_unseen-with_pred seen blocks b c [] xs = refl
clear_unseen-with_pred seen blocks b c (k ∷ ks) xs =
    clear_unseen-with_pred seen blocks (b + 1) (c + 1) ks _

-- Every successor of a block is the number of a block.
pub ir_build_cfg-ranged :
    (its : List IrItem) (b : ℕ)
    → All (λ s. s < length (ir_build_cfg its)) (succ_at (ir_build_cfg its) b)
unfolding ir_build_cfg
ir_build_cfg-ranged its b =
    let blocks = blocks_from 0 (leaders true its) in
    let linked = with_succ its blocks 0 blocks in
    rw
      (
        succ_at-with_pred linked 0 b linked,
        length-with_pred linked 0 linked,
        length-with_succ its blocks 0 blocks,
      )
      (with_succ-ranged its blocks 0 b blocks)
