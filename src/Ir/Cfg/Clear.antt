-- ===== src/Ir/Cfg/Clear.antt =====
-- The items that op6_dce_unreachable in src/ir68k.c clears.
use Prim.Native.String.{String}
use c68k.Prelude.{
  ℕ, zero, suc, ◌+◌, ◌-◌, ◌<◌, ◌≤◌, ◌≡◌, ◌≢◌, ◌⊎◌, refl, Bool, true, false, Option, none, List, [],
  ◌∷◌, get_elem?, get_or, set, Option-cases, Bool-cases, inl, inr, arith, ap, ◌∙◌,
}
use c68k.Ir.Items.{ii_nop, IrItem}
use c68k.Ir.Items.Run.{defines}
use c68k.Ir.Cfg.{IrBlock, clear_items, clear_unseen}
use c68k.Ir.Cfg.Blocks.{Tiles}
use c68k.Ir.Cfg.Labels.{block_at, defines_at}

get_elem?-set :
    (its : List IrItem) (i j : ℕ) (v : IrItem) → j ≢ i → get_elem? (set its i v) j ≡ get_elem? its j
get_elem?-set [] i j v h = refl
get_elem?-set (x ∷ its) zero zero v h = absurd (h refl)
get_elem?-set (x ∷ its) zero (suc j) v h = refl
get_elem?-set (x ∷ its) (suc i) zero v h = refl
get_elem?-set (x ∷ its) (suc i) (suc j) v h = get_elem?-set its i j v (λ e. h (ap suc e))

defines_at-set :
    (its : List IrItem) (i j : ℕ) (v : IrItem) (name : Option String)
    → defines v name ≡ false
    → defines_at its name j ≡ false
    → defines_at (set its i v) name j ≡ false
defines_at-set [] i j v name h k = refl
defines_at-set (x ∷ its) zero zero v name h k = h
defines_at-set (x ∷ its) zero (suc j) v name h k = k
defines_at-set (x ∷ its) (suc i) zero v name h k = k
defines_at-set (x ∷ its) (suc i) (suc j) v name h k = defines_at-set its i j v name h k

clear_items-outside :
    (its : List IrItem) (i n j : ℕ)
    → (j < i) ⊎ (i + n ≤ j)
    → get_elem? (clear_items its i n) j ≡ get_elem? its j
unfolding clear_items
clear_items-outside its i zero j h = refl
clear_items-outside its i (suc n) j h = elim (Option-cases (get_elem? its i)) [
  | inl e ↦ rw (e, clear_items) refl
  | inr (it, e) ↦
      rw (e, clear_items)
        (clear_items-outside (set its i (record it { kind = ii_nop; e = none })) (i + 1) n j
            (omega arith)
          ∙ get_elem?-set its i j (record it { kind = ii_nop; e = none }) (λ same. omega arith))
]

clear_items-defines_at :
    (its : List IrItem) (i n j : ℕ) (name : Option String)
    → defines_at its name j ≡ false
    → defines_at (clear_items its i n) name j ≡ false
unfolding clear_items
clear_items-defines_at its i zero j name h = h
clear_items-defines_at its i (suc n) j name h = elim (Option-cases (get_elem? its i)) [
  | inl e ↦ rw (e, clear_items) h
  | inr (it, e) ↦
      rw (e, clear_items)
        (clear_items-defines_at (set its i (record it { kind = ii_nop; e = none })) (i + 1) n j name
          (defines_at-set its i j (record it { kind = ii_nop; e = none }) name refl h))
]

pub clear_unseen-defines_at :
    (seen : List Bool) (b : ℕ) (ks : List IrBlock) (its : List IrItem) (j : ℕ)
    (name : Option String)
    → defines_at its name j ≡ false
    → defines_at (clear_unseen seen b ks its) name j ≡ false
unfolding clear_unseen
clear_unseen-defines_at seen b [] its j name h = h
clear_unseen-defines_at seen b (k ∷ ks) its j name h = elim (Bool-cases (get_or seen b false)) [
  | inl e ↦ rw e (clear_unseen-defines_at seen (b + 1) ks its j name h)
  | inr e ↦ rw e (
      clear_unseen-defines_at seen (b + 1) ks (clear_items its k.start (k.end - k.start)) j name
        (clear_items-defines_at its k.start (k.end - k.start) j name h))
]

pub Tiles-le : (i n : ℕ) (ks : List IrBlock) → Tiles i n ks → i ≤ n
Tiles-le i n [] t = omega arith
Tiles-le i n (k ∷ ks) (s, l, t) = omega (arith, Tiles-le k.end n ks t)

-- Items before the blocks, behind them, and in a seen block stay.
pub clear_unseen-get :
    (seen : List Bool) (b i n : ℕ) (ks : List IrBlock) (its : List IrItem) (j : ℕ)
    → Tiles i n ks
    → (j < i) ⊎ ((n ≤ j) ⊎ (get_or seen (block_at j b ks) false ≡ true))
    → get_elem? (clear_unseen seen b ks its) j ≡ get_elem? its j
unfolding clear_unseen
clear_unseen-get seen b i n [] its j t h = refl
clear_unseen-get seen b i n (k ∷ ks) its j (s, l, t) h = elim (Bool-cases (get_or seen b false)) [
  | inl e ↦ rw e (clear_unseen-get seen (b + 1) k.end n ks its j t (ground arith))
  | inr e ↦ rw e (
      clear_unseen-get seen (b + 1) k.end n ks (clear_items its k.start (k.end - k.start)) j t
        (ground arith)
      ∙ clear_items-outside its k.start (k.end - k.start) j (ground (arith, Tiles-le k.end n ks t)))
]
