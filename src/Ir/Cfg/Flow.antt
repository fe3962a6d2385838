-- ===== src/Ir/Cfg/Flow.antt =====
-- Items and the blocks of src/ir68k.c they are in: the next item, and the leader behind a transfer.
use c68k.Prelude.{
  ℕ, zero, suc, ◌+◌, ◌<◌, ◌≤◌, ◌≡◌, refl, Bool, true, false, some, List, [], ◌∷◌, length, get_elem?,
  get_or, All, arith,
}
use mathlib.Core.Path.{subst}
use native.Mathlib.Decide.{dec_lt}
use c68k.Ir.Items.{IrItem}
use c68k.Ir.Cfg.{IrBlock, is_transfer, leaders}
use c68k.Ir.Cfg.Blocks.{Tiles}
use c68k.Ir.Cfg.Labels.{block_at}

-- Block `b + d`, the one at index `d`, holds item `pc`; the next item is in it too, or starts the
-- next block.
abbrev pub Place : ℕ → ℕ → ℕ → List IrBlock → Type 0
Place pc b n ks =
    (d : ℕ) × (k : IrBlock) × (block_at pc b ks ≡ b + d)
    × (get_elem? ks d ≡ some k)
    × (k.start ≤ pc)
    × (pc < k.end)
    × (pc + 1 < k.end → block_at (pc + 1) b ks ≡ b + d)
    × (pc + 1 ≡ k.end → pc + 1 < n → (block_at (pc + 1) b ks ≡ b + d + 1) × (d + 1 < length ks))

starts_next :
    (i n b : ℕ) (ks : List IrBlock) → Tiles i n ks → i < n → (block_at i b ks ≡ b) × (0 < length ks)
starts_next i n b [] t h = absurd (omega arith)
starts_next i n b (k ∷ ks) (s, l, t) h = ground arith

pub place : (pc i n b : ℕ) (ks : List IrBlock) → Tiles i n ks → i ≤ pc → pc < n → Place pc b n ks
place pc i n b [] t lo hi = absurd (omega arith)
place pc i n b (k ∷ ks) (s, l, t) lo hi = elim (dec_lt pc k.end) [
  | yes here ↦ (
    0,
    k,
    ground arith,
    refl,
    omega arith,
    here,
    λ h. ground arith,
    λ h lt. ground (arith, starts_next k.end n (b + 1) ks t),
  )
  | no beyond ↦
      let (d, x, at, get, from, to, inside, over) =
        place pc k.end n (b + 1) ks t (omega arith) hi in
      (
        suc d,
        x,
        ground arith,
        get,
        from,
        to,
        λ h. ground (arith, inside),
        λ h lt. ground (arith, over),
      )
]

pub All-get :
    (P : IrBlock → Type 0) (ks : List IrBlock) (d : ℕ) (k : IrBlock)
    → All P ks
    → get_elem? ks d ≡ some k
    → P k
All-get P [] d k h e = cc
All-get P (x ∷ ks) zero k (h, hs) e = let same : x ≡ k = cc in subst P same h
All-get P (x ∷ ks) (suc d) k (h, hs) e = All-get P ks d k hs e

-- The item behind a transfer of control is a leader.
pub leaders-transfer :
    (after : Bool) (its : List IrItem) (i : ℕ) (it : IrItem)
    → get_elem? its i ≡ some it
    → is_transfer it ≡ true
    → suc i < length its
    → get_or (leaders after its) (suc i) false ≡ true
unfolding leaders
leaders-transfer after [] i it e f lt = cc
leaders-transfer after (x ∷ its) (suc i) it e f lt =
    leaders-transfer (is_transfer x) its i it e f (omega arith)
leaders-transfer after (x ∷ []) zero it e f lt = absurd (omega arith)
leaders-transfer after (x ∷ y ∷ its) zero it e f lt = let same : x ≡ it = cc in rw (same, f) refl
