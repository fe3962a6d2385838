-- ===== src/Ir/Ra/Liveness/Sets.antt =====
-- The sets of the blocks in ra_liveness of src/ir68k.c, as a list that is read and written.
use c68k.Prelude.{
  ℕ, zero, suc, ◌+◌, ◌*◌, ◌<◌, ◌≤◌, ◌≡◌, ◌≢◌, refl, ap, List, [], ◌∷◌, length, get_or, set,
  replicate, All, arith,
}
use c68k.Ir.Ra.Set.{RaSet, ra_set_zero}
use c68k.Ir.Ra.Set.Count.{members, members-le}
use c68k.Ir.Ra.Set.Laws.{IsRaSet, ra_set_zero-IsRaSet}

-- the set of a block
abbrev pub at : List RaSet → ℕ → RaSet
at sets b = get_or sets b ra_set_zero

pub All-at : (sets : List RaSet) (b : ℕ) → All IsRaSet sets → IsRaSet (at sets b)
All-at [] b h = ra_set_zero-IsRaSet
All-at (s ∷ sets) zero (h, hs) = h
All-at (s ∷ sets) (suc b) (h, hs) = All-at sets b hs

pub All-IsRaSet-set :
    (sets : List RaSet) (b : ℕ) (s : RaSet)
    → All IsRaSet sets
    → IsRaSet s
    → All IsRaSet (set sets b s)
All-IsRaSet-set [] b s h k = tt
All-IsRaSet-set (x ∷ sets) zero s (h, hs) k = (k, hs)
All-IsRaSet-set (x ∷ sets) (suc b) s (h, hs) k = (h, All-IsRaSet-set sets b s hs k)

pub at-set_self :
    (sets : List RaSet) (b : ℕ) (s : RaSet) → b < length sets → at (set sets b s) b ≡ s
at-set_self [] b s h = absurd (omega arith)
at-set_self (x ∷ sets) zero s h = refl
at-set_self (x ∷ sets) (suc b) s h = at-set_self sets b s (omega arith)

pub at-set_other :
    (sets : List RaSet) (b c : ℕ) (s : RaSet) → c ≢ b → at (set sets b s) c ≡ at sets c
at-set_other [] b c s h = refl
at-set_other (x ∷ sets) zero zero s h = absurd (h refl)
at-set_other (x ∷ sets) zero (suc c) s h = refl
at-set_other (x ∷ sets) (suc b) zero s h = refl
at-set_other (x ∷ sets) (suc b) (suc c) s h = at-set_other sets b c s (λ e. h (ap suc e))

pub set-at : (sets : List RaSet) (b : ℕ) → set sets b (at sets b) ≡ sets
set-at [] b = refl
set-at (x ∷ sets) zero = refl
set-at (x ∷ sets) (suc b) = ap (λ (l : List RaSet). x ∷ l) (set-at sets b)

abbrev pub total : List RaSet → ℕ
total [] = 0
total (s ∷ sets) = members s + total sets

pub total-set :
    (sets : List RaSet) (b : ℕ) (s : RaSet)
    → b < length sets
    → total (set sets b s) + members (at sets b) ≡ total sets + members s
total-set [] b s h = absurd (omega arith)
total-set (x ∷ sets) zero s h = omega arith
total-set (x ∷ sets) (suc b) s h = omega (arith, total-set sets b s (omega arith))

pub total-le : (sets : List RaSet) → All IsRaSet sets → total sets ≤ 256 * length sets
total-le [] h = omega arith
total-le (s ∷ sets) (h, hs) = omega (arith, members-le s, h.0, total-le sets hs)

pub All-replicate : (n : ℕ) → All IsRaSet (replicate n ra_set_zero)
All-replicate zero = tt
All-replicate (suc n) = (ra_set_zero-IsRaSet, All-replicate n)
