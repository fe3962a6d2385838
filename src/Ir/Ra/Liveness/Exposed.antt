-- ===== src/Ir/Ra/Liveness/Exposed.antt =====
-- The events of a block of src/ir68k.c: which candidates are read before a definition, which are
-- defined, and what the sets of ra_liveness say of them.
use c68k.Prelude.{
  ℕ, ◌<◌, ◌≡◌, refl, ap, ◌∙◌, Bool, true, false, not, ◌&&◌, ◌||◌, List, [], ◌∷◌, All, ◌==◌,
  Bool-cases, inl, inr, arith,
}
use c68k.Ir.Ra.Events.{RaEv, event, ev_use, ev_def, ev_may_def}
use c68k.Ir.Ra.Liveness.{UseDef, use_def_step, use_def_loop, use_def, Walk, back_step, back_walk}
use c68k.Ir.Ra.Set.{ra_set_add, ra_set_has}
use c68k.Ir.Ra.Set.Laws.{
  IsRaSet, ra_set_zero-IsRaSet, ra_set_add-IsRaSet, ra_set_del-IsRaSet, ra_set_has-zero,
  ra_set_has-add, ra_set_has-del,
}

-- Candidate `v` is read before any definition that is certain to happen.
abbrev pub exposes : ℕ → List RaEv → Bool
exposes v [] = false
exposes v (event c ev_use ∷ evs) = c == v || exposes v evs
exposes v (event c ev_def ∷ evs) = not (c == v) && exposes v evs
exposes v (event c ev_may_def ∷ evs) = exposes v evs

-- A definition of `v` that is certain to happen is among the events.
abbrev pub kills : ℕ → List RaEv → Bool
kills v [] = false
kills v (event c ev_use ∷ evs) = kills v evs
kills v (event c ev_def ∷ evs) = c == v || kills v evs
kills v (event c ev_may_def ∷ evs) = kills v evs

abbrev pub InRange : RaEv → Type 0
InRange (event c kind) = c < 256

abbrev pub IsUseDef : UseDef → Type 0
IsUseDef r = IsRaSet r.uses × IsRaSet r.defs × IsRaSet r.defined

use_def_step-IsUseDef : (ev : RaEv) (r : UseDef) → IsUseDef r → IsUseDef (use_def_step ev r)
unfolding use_def_step
use_def_step-IsUseDef (event c ev_use) r (u, d, s) = elim (Bool-cases (ra_set_has r.defined c)) [
  | inl e ↦ rw e (u, d, s)
  | inr e ↦ rw e (ra_set_add-IsRaSet r.uses c u, d, s)
]
use_def_step-IsUseDef (event c ev_def) r (u, d, s) =
    (u, ra_set_add-IsRaSet r.defs c d, ra_set_add-IsRaSet r.defined c s)
use_def_step-IsUseDef (event c ev_may_def) r h = h

pub use_def_loop-IsUseDef :
    (evs : List RaEv) (r : UseDef) → IsUseDef r → IsUseDef (use_def_loop evs r)
unfolding use_def_loop
use_def_loop-IsUseDef [] r h = h
use_def_loop-IsUseDef (ev ∷ evs) r h =
    use_def_loop-IsUseDef evs (use_def_step ev r) (use_def_step-IsUseDef ev r h)

-- A read of `c` after the definitions so far: `p` for `c` and `q` for `v` say whether it was defined.
known_read :
    (c v : ℕ) (p q x y : Bool)
    → (c ≡ v → p ≡ q)
    → p ≡ true
    → (x || (not q && y)) ≡ (x || (not q && (c == v || y)))
known_read c v p q x y h e = ground arith

new_read :
    (c v : ℕ) (p q x y z : Bool)
    → (c ≡ v → p ≡ q)
    → p ≡ false
    → z ≡ (c == v || x)
    → (z || (not q && y)) ≡ (x || (not q && (c == v || y)))
new_read c v p q x y z h e f = ground arith

-- the set `uses` in terms of the events that follow
has_uses :
    (evs : List RaEv) (r : UseDef) (v : ℕ)
    → All InRange evs
    → IsUseDef r
    → ra_set_has (use_def_loop evs r).uses v
      ≡ (ra_set_has r.uses v || (not (ra_set_has r.defined v) && exposes v evs))
unfolding use_def_loop use_def_step
has_uses [] r v h k = ground arith
has_uses (event c ev_use ∷ evs) r v (h, hs) (u, d, s) =
    let old = ra_set_has r.uses v in
    let was = ra_set_has r.defined in
    let same : c ≡ v → was c ≡ was v = λ e. ap was e in
    elim (Bool-cases (ra_set_has r.defined c)) [
      | inl e ↦
          rw (e, use_def_loop, use_def_step)
            (has_uses evs r v hs (u, d, s)
              ∙ known_read c v (was c) (was v) old (exposes v evs) same e)
      | inr e ↦
          rw (e, use_def_loop, use_def_step)
            (has_uses evs (record r { uses = ra_set_add r.uses c }) v hs
                (ra_set_add-IsRaSet r.uses c u, d, s)
              ∙ new_read c v (was c) (was v) old (exposes v evs)
                  (ra_set_has (ra_set_add r.uses c) v) same e (ra_set_has-add r.uses c v u h))
    ]
has_uses (event c ev_def ∷ evs) r v (h, hs) (u, d, s) =
    let next : UseDef = record r { defs = ra_set_add r.defs c; defined = ra_set_add r.defined c } in
    has_uses evs next v hs (u, ra_set_add-IsRaSet r.defs c d, ra_set_add-IsRaSet r.defined c s)
    ∙ ground (arith, ra_set_has-add r.defined c v s h)
has_uses (event c ev_may_def ∷ evs) r v (h, hs) k = has_uses evs r v hs k

has_defs :
    (evs : List RaEv) (r : UseDef) (v : ℕ)
    → All InRange evs
    → IsUseDef r
    → ra_set_has (use_def_loop evs r).defs v ≡ (ra_set_has r.defs v || kills v evs)
unfolding use_def_loop use_def_step
has_defs [] r v h k = ground arith
has_defs (event c ev_use ∷ evs) r v (h, hs) (u, d, s) = elim (Bool-cases (ra_set_has r.defined c)) [
  | inl e ↦ rw (e, use_def_loop, use_def_step) (has_defs evs r v hs (u, d, s))
  | inr e ↦
      rw (e, use_def_loop, use_def_step)
        (has_defs evs (record r { uses = ra_set_add r.uses c }) v hs
          (ra_set_add-IsRaSet r.uses c u, d, s))
]
has_defs (event c ev_def ∷ evs) r v (h, hs) (u, d, s) =
    let next : UseDef = record r { defs = ra_set_add r.defs c; defined = ra_set_add r.defined c } in
    has_defs evs next v hs (u, ra_set_add-IsRaSet r.defs c d, ra_set_add-IsRaSet r.defined c s)
    ∙ ground (arith, ra_set_has-add r.defs c v d h)
has_defs (event c ev_may_def ∷ evs) r v (h, hs) k = has_defs evs r v hs k

pub use_def-IsUseDef : (evs : List RaEv) → IsUseDef (use_def evs)
unfolding use_def
use_def-IsUseDef evs =
    use_def_loop-IsUseDef evs _ (ra_set_zero-IsRaSet, ra_set_zero-IsRaSet, ra_set_zero-IsRaSet)

-- `use` of a block has the candidates read before a certain definition, and `def` those defined.
pub use_def-has :
    (evs : List RaEv) (v : ℕ)
    → All InRange evs
    → (ra_set_has (use_def evs).uses v ≡ exposes v evs)
      × (ra_set_has (use_def evs).defs v ≡ kills v evs)
unfolding use_def
use_def-has evs v h =
    let start : IsUseDef _ = (ra_set_zero-IsRaSet, ra_set_zero-IsRaSet, ra_set_zero-IsRaSet) in
    let none_in = ra_set_has-zero v in
    (has_uses evs _ v h start ∙ rw none_in refl, has_defs evs _ v h start ∙ rw none_in refl)

pub back_walk-IsRaSet :
    (n : ℕ) (evs : List RaEv) (w : Walk) → IsRaSet w.live → IsRaSet (back_walk n evs w).live
unfolding back_walk back_step
back_walk-IsRaSet n [] w h = h
back_walk-IsRaSet n (event c ev_use ∷ evs) w h =
    ra_set_add-IsRaSet (back_walk n evs w).live c (back_walk-IsRaSet n evs w h)
back_walk-IsRaSet n (event c ev_def ∷ evs) w h =
    ra_set_del-IsRaSet (back_walk n evs w).live c (back_walk-IsRaSet n evs w h)
back_walk-IsRaSet n (event c ev_may_def ∷ evs) w h = back_walk-IsRaSet n evs w h

-- the live set of the backward walk
pub back_walk-has :
    (n : ℕ) (evs : List RaEv) (w : Walk) (v : ℕ)
    → All InRange evs
    → IsRaSet w.live
    → ra_set_has (back_walk n evs w).live v
      ≡ (exposes v evs || (ra_set_has w.live v && not (kills v evs)))
unfolding back_walk back_step
back_walk-has n [] w v h k = ground arith
back_walk-has n (event c ev_use ∷ evs) w v (h, hs) k =
    ra_set_has-add (back_walk n evs w).live c v (back_walk-IsRaSet n evs w k) h
    ∙ ground (arith, back_walk-has n evs w v hs k)
back_walk-has n (event c ev_def ∷ evs) w v (h, hs) k =
    ra_set_has-del (back_walk n evs w).live c v (back_walk-IsRaSet n evs w k) h
    ∙ ground (arith, back_walk-has n evs w v hs k)
back_walk-has n (event c ev_may_def ∷ evs) w v (h, hs) k = back_walk-has n evs w v hs k
