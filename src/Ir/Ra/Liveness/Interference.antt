-- ===== src/Ir/Ra/Liveness/Interference.antt =====
-- The walks of ra_liveness in src/ir68k.c over the blocks, and the pairs at the entry: what they add to the
-- interference sets.
use mathlib.Core.Path.{subst}
use c68k.Prelude.{
  ℕ, zero, suc, ◌+◌, ◌<◌, ◌≤◌, ◌≡◌, ◌≢◌, refl, true, some, List, [], ◌∷◌, ◌++◌, length, get_elem?,
  All, inl, inr, Bool-cases, arith,
}
use c68k.Ir.Ra.Events.{RaEv, EvKind, event, ev_use, ev_def, ev_may_def}
use c68k.Ir.Ra.Liveness.{
  ra_conf_add, Conf, Walk, back_step, back_walk, conf_blocks, entry_row, entry_pairs,
}
use c68k.Ir.Ra.Liveness.Sets.{at}
use c68k.Ir.Ra.Liveness.Conflicts.{
  IsConf, Both, Extends, Extends-refl, Extends-trans, ra_conf_add-Extends, clobber-Extends,
  clobber-Both,
}
use c68k.Ir.Ra.Set.{RaSet, ra_set_has}

-- a candidate below `n`
abbrev pub Below : ℕ → RaEv → Type 0
Below n (event c kind) = c < n

back_walk-Extends :
    (n : ℕ) (evs : List RaEv) (w : Walk)
    → n ≤ 256
    → All (Below n) evs
    → IsConf n w.conf
    → Extends n w.conf (back_walk n evs w).conf
unfolding back_walk back_step
back_walk-Extends n [] w big h v = Extends-refl n w.conf v
back_walk-Extends n (event c ev_use ∷ evs) w big (h, hs) v = back_walk-Extends n evs w big hs v
back_walk-Extends n (event c ev_def ∷ evs) w big (h, hs) v =
    let rest = back_walk-Extends n evs w big hs v in
    Extends-trans n w.conf _ _ rest (
      clobber-Extends n c 0 n (back_walk n evs w).live (back_walk n evs w).conf big h (omega arith)
        rest.0)
back_walk-Extends n (event c ev_may_def ∷ evs) w big (h, hs) v =
    let rest = back_walk-Extends n evs w big hs v in
    Extends-trans n w.conf _ _ rest (
      clobber-Extends n c 0 n (back_walk n evs w).live (back_walk n evs w).conf big h (omega arith)
        rest.0)

pub Both-Extends : (n a b : ℕ) (c d : Conf) → Extends n c d → Both c a b → Both d a b
Both-Extends n a b c d (v, g) (x, y) = (g a b x, g b a y)

-- A definition of `u` where `v` is live afterwards
pub back_walk-Both :
    (n u v : ℕ) (kind : EvKind) (pre post : List RaEv) (w : Walk)
    → n ≤ 256
    → All (Below n) (pre ++ event u kind ∷ post)
    → IsConf n w.conf
    → kind ≢ ev_use
    → v < n
    → v ≢ u
    → ra_set_has (back_walk n post w).live v ≡ true
    → Both (back_walk n (pre ++ event u kind ∷ post) w).conf u v
unfolding back_walk back_step
back_walk-Both n u v ev_use [] post w big (h, hs) ic ne lt apart has = absurd (ne refl)
back_walk-Both n u v ev_def [] post w big (h, hs) ic ne lt apart has =
    clobber-Both n u 0 n v (back_walk n post w).live (back_walk n post w).conf big h (omega arith)
      (back_walk-Extends n post w big hs ic).0 (omega arith) lt apart has
back_walk-Both n u v ev_may_def [] post w big (h, hs) ic ne lt apart has =
    clobber-Both n u 0 n v (back_walk n post w).live (back_walk n post w).conf big h (omega arith)
      (back_walk-Extends n post w big hs ic).0 (omega arith) lt apart has
back_walk-Both n u v kind (ev ∷ pre) post w big (h, hs) ic ne lt apart has =
    let rest = pre ++ event u kind ∷ post in
    let both = back_walk-Both n u v kind pre post w big hs ic ne lt apart has in
    let mid = back_walk n rest w in
    let (now, same) =
      back_walk-Extends n (ev ∷ []) mid big (h, tt) (back_walk-Extends n rest w big hs ic).0 in
    Both-Extends n u v mid.conf (back_walk n (ev ∷ rest) w).conf (now, same) both

conf_blocks-Extends :
    (n : ℕ) (evss : List (List RaEv)) (outs : List RaSet) (c : Conf)
    → n ≤ 256
    → All (All (Below n)) evss
    → IsConf n c
    → Extends n c (conf_blocks n evss outs c)
unfolding conf_blocks
conf_blocks-Extends n [] outs c big h v = Extends-refl n c v
conf_blocks-Extends n (evs ∷ rest) [] c big h v = Extends-refl n c v
conf_blocks-Extends n (evs ∷ rest) (o ∷ outs) c big (h, hs) v =
    let first = back_walk-Extends n evs (record { live = o; conf = c }) big h v in
    Extends-trans n c _ _ first (conf_blocks-Extends n rest outs _ big hs first.0)

-- The walk over block `d` starts from some sets, and what it adds stays.
pub conf_blocks-at :
    (n d : ℕ) (evs : List RaEv) (evss : List (List RaEv)) (outs : List RaSet) (c : Conf)
    → n ≤ 256
    → length evss ≡ length outs
    → All (All (Below n)) evss
    → IsConf n c
    → get_elem? evss d ≡ some evs
    → (c' : Conf) × IsConf n c'
      × Extends n
          (back_walk n evs (record { live = at outs d; conf = c' })).conf
          (conf_blocks n evss outs c)
unfolding conf_blocks
conf_blocks-at n d evs [] outs c big len h v e = cc
conf_blocks-at n d evs (x ∷ rest) [] c big len h v e = absurd (omega arith)
conf_blocks-at n zero evs (x ∷ rest) (o ∷ outs) c big len (h, hs) v e =
    let same : x ≡ evs = cc in
    let first = back_walk-Extends n x (record { live = o; conf = c }) big h v in
    (
      c,
      v,
      subst
          (λ (y : List RaEv).
            Extends n (back_walk n y (record { live = o; conf = c })).conf
              (conf_blocks n (x ∷ rest) (o ∷ outs) c))
          same
          (conf_blocks-Extends n rest outs (back_walk n x (record { live = o; conf = c })).conf big
            hs first.0),
    )
conf_blocks-at n (suc d) evs (x ∷ rest) (o ∷ outs) c big len (h, hs) v e =
    conf_blocks-at n d evs rest outs (back_walk n x (record { live = o; conf = c })).conf big
      (omega arith) hs (back_walk-Extends n x (record { live = o; conf = c }) big h v).0 e

entry_row-Extends :
    (n i j m : ℕ) (live : RaSet) (c : Conf)
    → n ≤ 256
    → i < n
    → j + m ≡ n
    → IsConf n c
    → Extends n c (entry_row i live j m c)
unfolding entry_row
entry_row-Extends n i j zero live c big hi hj v = Extends-refl n c v
entry_row-Extends n i j (suc m) live c big hi hj v = elim (Bool-cases (ra_set_has live j)) [
  | inl e ↦
      let (once, both) = ra_conf_add-Extends n i j c big hi (omega arith) v in
      rw (e, entry_row)
        (Extends-trans n c _ _ once
          (entry_row-Extends n i (j + 1) m live (ra_conf_add i j c) big hi (omega arith) once.0))
  | inr e ↦ rw (e, entry_row) (entry_row-Extends n i (j + 1) m live c big hi (omega arith) v)
]

pub entry_pairs-Extends :
    (n i m : ℕ) (live : RaSet) (c : Conf)
    → n ≤ 256
    → i + m ≡ n
    → IsConf n c
    → Extends n c (entry_pairs live i m c)
unfolding entry_pairs
entry_pairs-Extends n i zero live c big hi v = Extends-refl n c v
entry_pairs-Extends n i (suc m) live c big hi v = elim (Bool-cases (ra_set_has live i)) [
  | inl e ↦
      let once = entry_row-Extends n i (i + 1) m live c big (omega arith) (omega arith) v in
      rw (e, entry_pairs)
        (Extends-trans n c _ _ once
          (entry_pairs-Extends n (i + 1) m live _ big (omega arith) once.0))
  | inr e ↦ rw (e, entry_pairs) (entry_pairs-Extends n (i + 1) m live c big (omega arith) v)
]
