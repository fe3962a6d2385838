-- ===== src/Ir/Ra/Color/Saved.antt =====
-- The loops of ra_color_global and ir_color_regs in src/ir68k.c: the highest data register, and the OP5
-- assignment of a register to each candidate of its own.
use mathlib.Core.Path.{subst}
use c68k.Prelude.{
  ℕ, zero, suc, ◌≤◌, ◌≡◌, ◌≢◌, refl, ap, sym, ◌∙◌, false, ◌&&◌, none, List, [], ◌∷◌, ◌++◌, length,
  get_or, set, replicate, ◌⊎◌, inl, inr, Option-cases, arith, ltb, leb, if◌then◌else◌,
}
use c68k.Ir.Cfg.Visit.{In}
use c68k.Ir.Ra.Events.{Cands}
use c68k.Ir.Ra.Liveness.{Conf}
use c68k.Ir.Ra.Color.{
  pool, used_loop, choose_loop, Coloring, color_step, color_loop, color_order, ra_color_global,
  best_loop, seq_loop, ir_color_regs,
}

-- The data registers that candidates have are among D2 to D`hi`.
abbrev pub Saved : Coloring → Type 0
Saved st = (i : ℕ) → 2 ≤ get_or st.reg i 0 → get_or st.reg i 0 ≤ 7 → get_or st.reg i 0 ≤ st.hi

get_or-set_cases :
    (l : List ℕ) (i j x : ℕ)
    → (get_or (set l i x) j 0 ≡ x) ⊎ (get_or (set l i x) j 0 ≡ get_or l j 0)
get_or-set_cases [] i j x = inr refl
get_or-set_cases (y ∷ l) zero zero x = inl refl
get_or-set_cases (y ∷ l) zero (suc j) x = inr refl
get_or-set_cases (y ∷ l) (suc i) zero x = inr refl
get_or-set_cases (y ∷ l) (suc i) (suc j) x = get_or-set_cases l i j x

raised :
    (old new r hi : ℕ)
    → (new ≡ r) ⊎ (new ≡ old)
    → (2 ≤ old → old ≤ 7 → old ≤ hi)
    → 2 ≤ new
    → new ≤ 7
    → new ≤ (if leb 2 r && leb r 7 && ltb hi r then r else hi)
raised old new r hi h k lo up = ground (arith, h, k)

color_step-Saved :
    (conf : Conf) (ci : ℕ) (done : List ℕ) (st : Coloring)
    → Saved st
    → Saved (color_step conf ci done st)
unfolding color_step
color_step-Saved conf ci done st h i lo up =
    let r = choose_loop pool (used_loop conf ci done st.reg (replicate 14 false)) in
    raised (get_or st.reg i 0) (get_or (set st.reg ci r) i 0) r st.hi
      (get_or-set_cases st.reg ci i r) (h i) lo up

color_loop-Saved :
    (conf : Conf) (done more : List ℕ) (st : Coloring)
    → Saved st
    → Saved (color_loop conf done more st)
unfolding color_loop
color_loop-Saved conf done [] st h = h
color_loop-Saved conf done (ci ∷ more) st h =
    color_loop-Saved conf (done ++ ci ∷ []) more (color_step conf ci done st)
      (color_step-Saved conf ci done st h)

get_or-replicate : (n i : ℕ) → get_or {A = ℕ} (replicate n 0) i 0 ≡ 0
get_or-replicate zero i = refl
get_or-replicate (suc n) zero = refl
get_or-replicate (suc n) (suc i) = get_or-replicate n i

-- From no registers at the start, the data register of each candidate is at most the number that
-- ra_color_global returns; the prologue saves D2 up to that one.
pub ra_color_global-Saved :
    (ra : Cands) (conf : Conf) (n i : ℕ)
    → 2 ≤ get_or (ra_color_global ra conf (replicate n 0)).reg i 0
    → get_or (ra_color_global ra conf (replicate n 0)).reg i 0 ≤ 7
    → get_or (ra_color_global ra conf (replicate n 0)).reg i 0
      ≤ (ra_color_global ra conf (replicate n 0)).hi
unfolding ra_color_global
ra_color_global-Saved ra conf n i lo up =
    color_loop-Saved conf [] (color_order ra) (record { reg = replicate n 0; hi = 0 })
      (λ j l u. let z = get_or-replicate n j in absurd (omega arith)) i lo up

-- While ir_color_regs runs over `seq`: different candidates have different registers, and none has one that
-- is still to come.
abbrev IsOwn : List ℕ → List ℕ → Type 0
IsOwn seq reg =
    ((i j : ℕ) → i ≢ j → get_or reg i 0 ≢ 0 → get_or reg i 0 ≢ get_or reg j 0)
    × ((i : ℕ) → In (get_or reg i 0) seq → ⊥)

abbrev Fresh : List ℕ → Type 0
Fresh [] = Unit {0}
Fresh (r ∷ seq) = (In r seq → ⊥) × Fresh seq

set-case :
    (l : List ℕ) (i j x : ℕ)
    → ((i ≡ j) × (get_or (set l i x) j 0 ≡ x)) ⊎ (get_or (set l i x) j 0 ≡ get_or l j 0)
set-case [] i j x = inr refl
set-case (y ∷ l) zero zero x = inl (refl, refl)
set-case (y ∷ l) zero (suc j) x = inr refl
set-case (y ∷ l) (suc i) zero x = inr refl
set-case (y ∷ l) (suc i) (suc j) x = elim (set-case l i j x) [
  | inl (e, f) ↦ inl (ap suc e, f)
  | inr f ↦ inr f
]

set-IsOwn :
    (seq reg : List ℕ) (best r : ℕ)
    → (In r seq → ⊥)
    → IsOwn (r ∷ seq) reg
    → IsOwn seq (set reg best r)
set-IsOwn seq reg best r new (apart, later) =
    let old : (i : ℕ) → r ≢ get_or reg i 0 = λ i e. later i (inl (sym e)) in
    (
      λ i j ne nz same. elim (set-case reg best i r) [
        | inl (ei, fi) ↦ elim (set-case reg best j r) [
          | inl (ej, fj) ↦ ne (sym ei ∙ ej)
          | inr fj ↦ old j (sym fi ∙ same ∙ fj)
        ]
        | inr fi ↦ elim (set-case reg best j r) [
          | inl (ej, fj) ↦ old i (sym fj ∙ sym same ∙ fi)
          | inr fj ↦ apart i j ne (λ z. nz (fi ∙ z)) (sym fi ∙ same ∙ fj)
        ]
      ],
      λ i m. elim (set-case reg best i r) [
        | inl (ei, fi) ↦ new (subst (λ (x : ℕ). In x seq) fi m)
        | inr fi ↦ later i (inr (subst (λ (x : ℕ). In x seq) fi m))
      ],
    )

seq_loop-IsOwn :
    (ra : Cands) (seq : List ℕ) (st : Coloring)
    → Fresh seq
    → IsOwn seq st.reg
    → (i j : ℕ) → i ≢ j
    → get_or (seq_loop ra seq st).reg i 0 ≢ 0
    → get_or (seq_loop ra seq st).reg i 0 ≢ get_or (seq_loop ra seq st).reg j 0
unfolding seq_loop
seq_loop-IsOwn ra [] st u (apart, later) = apart
seq_loop-IsOwn ra (r ∷ seq) st (u, us) own =
    elim (Option-cases (best_loop ra st.reg 0 (length ra.cand) none)) [
      | inl e ↦ rw (e, seq_loop) own.0
      | inr (best, e) ↦
          rw (e, seq_loop)
            (seq_loop-IsOwn ra seq
              (record { reg = set st.reg best r; hi = if leb r 7 then r else st.hi }) us
              (set-IsOwn seq st.reg best r u own))
    ]

-- From no registers at the start, the OP5 assignment of ir_color_regs never gives two different candidates
-- the same register.
pub ir_color_regs-own :
    (ra : Cands) (n i j : ℕ)
    → i ≢ j
    → get_or (ir_color_regs ra (replicate n 0)).reg i 0 ≢ 0
    → get_or (ir_color_regs ra (replicate n 0)).reg i 0
      ≢ get_or (ir_color_regs ra (replicate n 0)).reg j 0
unfolding ir_color_regs
ir_color_regs-own ra n i j =
    seq_loop-IsOwn ra pool (record { reg = replicate n 0; hi = 0 }) (ground arith)
      (λ i j ne nz same. nz (get_or-replicate n i), λ i m. ground (arith, get_or-replicate n i, m))
      i j
