-- ===== src/Ir/Ra/Liveness/Conflicts.antt =====
-- The interference sets of ra_liveness in src/ir68k.c: what ra_conf_add and the loops over it add.
use mathlib.Core.Path.{subst}
use c68k.Prelude.{
  ℕ, zero, suc, ◌+◌, ◌<◌, ◌≤◌, ◌≡◌, ◌≢◌, ap, sym, ◌∙◌, Bool, true, not, ◌&&◌, ◌||◌, length, set,
  All, ◌==◌, Bool-cases, inl, inr, arith, length-set,
}
use c68k.Ir.Ra.Liveness.{Conf, ra_conf_add, clobber}
use c68k.Ir.Ra.Liveness.Sets.{at, All-at, All-IsRaSet-set, at-set_self, at-set_other}
use c68k.Ir.Ra.Set.{RaSet, ra_set_add, ra_set_has}
use c68k.Ir.Ra.Set.Laws.{IsRaSet, ra_set_add-IsRaSet, ra_set_has-add}

-- a set for each of `n` candidates
abbrev pub IsConf : ℕ → Conf → Type 0
IsConf n conf = (length conf ≡ n) × All IsRaSet conf

-- `b` is in the set of `a`.
abbrev pub conflict : Conf → ℕ → ℕ → Bool
conflict conf a b = ra_set_has (at conf a) b

abbrev pub Both : Conf → ℕ → ℕ → Type 0
Both conf a b = (conflict conf a b ≡ true) × (conflict conf b a ≡ true)

abbrev pub Grows : Conf → Conf → Type 0
Grows c c' = (a b : ℕ) → conflict c a b ≡ true → conflict c' a b ≡ true

-- one half of ra_conf_add
unfoldable put : ℕ → ℕ → Conf → Conf
put i j conf = set conf i (ra_set_add (at conf i) j)

put-IsConf : (n i j : ℕ) (conf : Conf) → IsConf n conf → IsConf n (put i j conf)
unfolding put
put-IsConf n i j conf (len, sets) = (
  length-set conf i _ ∙ len,
  All-IsRaSet-set conf i _ sets (ra_set_add-IsRaSet (at conf i) j (All-at conf i sets)),
)

put_self :
    (n i j b : ℕ) (conf : Conf)
    → IsConf n conf
    → i < n
    → j < 256
    → conflict (put i j conf) i b ≡ (j == b || conflict conf i b)
unfolding put
put_self n i j b conf (len, sets) hi hj =
    ap (λ (s : RaSet). ra_set_has s b) (at-set_self conf i _ (omega arith))
    ∙ ra_set_has-add (at conf i) j b (All-at conf i sets) hj

put-conflict :
    (n i j a b : ℕ) (conf : Conf)
    → IsConf n conf
    → i < n
    → j < 256
    → conflict (put i j conf) a b ≡ ((a == i && j == b) || conflict conf a b)
unfolding put
put-conflict n i j a b conf (len, sets) hi hj = elim (Bool-cases (a == i)) [
  | inl e ↦
      let same : a ≡ i = ground arith in
      subst (λ (x : ℕ). conflict (put i j conf) x b ≡ ((x == i && j == b) || conflict conf x b))
        (sym same) (put_self n i j b conf (len, sets) hi hj ∙ ground arith)
  | inr e ↦
      ap (λ (s : RaSet). ra_set_has s b) (at-set_other conf i a _ (λ x. ground arith))
      ∙ ground arith
]

-- What is known of the sets after some additions
abbrev pub Extends : ℕ → Conf → Conf → Type 0
Extends n c c' = IsConf n c' × Grows c c'

pub Extends-refl : (n : ℕ) (c : Conf) → IsConf n c → Extends n c c
Extends-refl n c h = (h, λ a b e. e)

pub Extends-trans : (n : ℕ) (c d e : Conf) → Extends n c d → Extends n d e → Extends n c e
Extends-trans n c d e (v, g) (w, h) = (w, λ a b k. h a b (g a b k))

pub ra_conf_add-Extends :
    (n i j : ℕ) (c : Conf)
    → n ≤ 256
    → i < n
    → j < n
    → IsConf n c
    → Extends n c (ra_conf_add i j c) × (i ≢ j → Both (ra_conf_add i j c) i j)
unfolding ra_conf_add put
ra_conf_add-Extends n i j c big hi hj v =
    let once = put i j c in
    let v1 = put-IsConf n i j c v in
    let v2 = put-IsConf n j i once v1 in
    let first = λ (a b : ℕ). put-conflict n i j a b c v hi (omega arith) in
    let second = λ (a b : ℕ). put-conflict n j i a b once v1 hj (omega arith) in
    elim (Bool-cases (i == j)) [
      | inl e ↦ rw (e, ra_conf_add) (Extends-refl n c v, λ x. absurd (x (ground arith)))
      | inr e ↦
          rw (e, ra_conf_add)
            (
              (v2, λ a b h. ground (arith, first a b, second a b)),
              λ x. (ground (arith, first i j, second i j), ground (arith, first j i, second j i)),
            )
    ]

pub clobber-Extends :
    (n ci j m : ℕ) (live : RaSet) (c : Conf)
    → n ≤ 256
    → ci < n
    → j + m ≡ n
    → IsConf n c
    → Extends n c (clobber ci live j m c)
unfolding clobber
clobber-Extends n ci j zero live c big hc hj v = Extends-refl n c v
clobber-Extends n ci j (suc m) live c big hc hj v =
    elim (Bool-cases (not (j == ci) && ra_set_has live j)) [
      | inl e ↦
          let (once, both) = ra_conf_add-Extends n ci j c big hc (omega arith) v in
          rw (e, clobber)
            (Extends-trans n c _ _ once (
              clobber-Extends n ci (j + 1) m live (ra_conf_add ci j c) big hc (omega arith) once.0))
      | inr e ↦ rw (e, clobber) (clobber-Extends n ci (j + 1) m live c big hc (omega arith) v)
    ]

-- All that is live interferes with the candidate that is defined.
pub clobber-Both :
    (n ci j m v : ℕ) (live : RaSet) (c : Conf)
    → n ≤ 256
    → ci < n
    → j + m ≡ n
    → IsConf n c
    → j ≤ v
    → v < n
    → v ≢ ci
    → ra_set_has live v ≡ true
    → Both (clobber ci live j m c) ci v
unfolding clobber
clobber-Both n ci j zero v live c big hc hj ic le lt ne has = absurd (omega arith)
clobber-Both n ci j (suc m) v live c big hc hj ic le lt ne has =
    let (once, both) = ra_conf_add-Extends n ci j c big hc (omega arith) ic in
    elim (Bool-cases (not (j == ci) && ra_set_has live j)) [
      | inl e ↦
          let rest =
            clobber-Extends n ci (j + 1) m live (ra_conf_add ci j c) big hc (omega arith) once.0 in
          rw (e, clobber)
            (elim (Bool-cases (j == v)) [
              | inl here ↦
                  let same : j ≡ v = ground arith in
                  let (x, y) = both (ground arith) in
                  subst (λ (w : ℕ). Both (clobber ci live (j + 1) m (ra_conf_add ci j c)) ci w) same
                    (rest.1 ci j x, rest.1 j ci y)
              | inr other ↦
                  clobber-Both n ci (j + 1) m v live (ra_conf_add ci j c) big hc (omega arith)
                    once.0 (ground arith) lt ne has
            ])
      | inr e ↦
          let apart : j ≢ v = λ same. ground (arith, ap (ra_set_has live) same) in
          rw (e, clobber)
            (clobber-Both n ci (j + 1) m v live c big hc (omega arith) ic (omega arith) lt ne has)
    ]
