-- ===== src/Ir/Ra/Color/Distinct.antt =====
-- The registers that ra_color_global of src/ir68k.c gives to two candidates that interfere.
use mathlib.Core.Bool.{and-eq-true_iff}
use mathlib.Core.Path.{subst}
use c68k.Prelude.{
  ℕ, zero, suc, ◌<◌, ◌≤◌, ◌≡◌, ◌≢◌, refl, ap, sym, ◌∙◌, true, false, List, [], ◌∷◌, ◌++◌, length,
  get_or, set, replicate, length-set, length-replicate, ◌⊎◌, inl, inr, arith, Bool, ◌&&◌, ◌==◌,
  ==_iff, Bool-cases,
}
use c68k.Ir.Cfg.Visit.{In, In-append_cases}
use c68k.Ir.Ra.Events.{Cands, ra_colorable}
use c68k.Ir.Ra.Liveness.{Conf}
use c68k.Ir.Ra.Liveness.Ranged.{ra_colorable-lt}
use c68k.Ir.Ra.Color.{
  ra_interfere, pool, used_loop, choose_loop, Coloring, color_step, color_loop, color_order,
  ra_color_global,
}
use c68k.Ir.Ra.Color.Order.{Unique, Disjoint, color_order-sorted}
use c68k.Ir.Ra.Color.Free.{choose_loop-IsFree, used_loop-marks, get_or-set_same, get_or-set_other}

-- 0, or a register of the pool
abbrev FromPool : ℕ → Type 0
FromPool r = (r ≡ 0) ⊎ In r pool

-- Two candidates of `done` that interfere both ways have no register in common.
abbrev pub Apart : Conf → List ℕ → List ℕ → Type 0
Apart conf done reg =
    (i j : ℕ)
    → In i done
    → In j done
    → i ≢ j
    → ra_interfere conf i j ≡ true
    → ra_interfere conf j i ≡ true
    → get_or reg i 0 ≢ 0
    → get_or reg i 0 ≢ get_or reg j 0

abbrev pub IsColoring : Conf → List ℕ → List ℕ → Type 0
IsColoring conf done reg = ((i : ℕ) → In i done → FromPool (get_or reg i 0)) × Apart conf done reg

append_nil : (l : List ℕ) → l ++ [] ≡ l
append_nil [] = refl
append_nil (x ∷ l) = ap (λ (k : List ℕ). x ∷ k) (append_nil l)

append_cons : (l : List ℕ) (x : ℕ) (m : List ℕ) → (l ++ x ∷ []) ++ m ≡ l ++ x ∷ m
append_cons [] x m = refl
append_cons (y ∷ l) x m = ap (λ (k : List ℕ). y ∷ k) (append_cons l x m)

zero_or : (n : ℕ) → (n ≡ 0) ⊎ (n ≢ 0)
zero_or zero = inl refl
zero_or (suc n) = inr (λ e. omega arith)

pool-lt : (r : ℕ) → FromPool r → r < 14
pool-lt r h = ground (arith, h)

-- what a round chooses for `ci`
abbrev chosen : Conf → ℕ → List ℕ → List ℕ → ℕ
chosen conf ci done reg = choose_loop pool (used_loop conf ci done reg (replicate 14 false))

chosen-FromPool : (conf : Conf) (ci : ℕ) (done reg : List ℕ) → FromPool (chosen conf ci done reg)
chosen-FromPool conf ci done reg =
    elim (choose_loop-IsFree pool (used_loop conf ci done reg (replicate 14 false))) [
      | inl z ↦ inl z
      | inr (h, k) ↦ inr h
    ]

chosen-apart :
    (conf : Conf) (ci cj : ℕ) (done reg : List ℕ)
    → In cj done
    → FromPool (get_or reg cj 0)
    → ra_interfere conf ci cj ≡ true
    → chosen conf ci done reg ≢ 0
    → chosen conf ci done reg ≢ get_or reg cj 0
chosen-apart conf ci cj done reg h r meet ne same =
    elim (choose_loop-IsFree pool (used_loop conf ci done reg (replicate 14 false))) [
      | inl z ↦ ne z
      | inr (i, free) ↦
          let marked =
            used_loop-marks conf ci cj done reg (replicate 14 false) h (length-replicate 14 false)
              (pool-lt _ r) (λ z. ne (same ∙ z)) meet in
          let free' =
            subst
              (λ (x : ℕ). get_or (used_loop conf ci done reg (replicate 14 false)) x false ≡ false)
              same free in
          cc
    ]

color_step-IsColoring :
    (conf : Conf) (ci : ℕ) (done : List ℕ) (st : Coloring)
    → (In ci done → ⊥)
    → ci < length st.reg
    → IsColoring conf done st.reg
    → IsColoring conf (done ++ ci ∷ []) (color_step conf ci done st).reg
unfolding color_step
color_step-IsColoring conf ci done st new lt (regs, apart) =
    let r = chosen conf ci done st.reg in
    let here : get_or (set st.reg ci r) ci 0 ≡ r = get_or-set_same st.reg ci r 0 lt in
    let there : (j : ℕ) → In j done → get_or (set st.reg ci r) j 0 ≡ get_or st.reg j 0 =
      λ j m. get_or-set_other st.reg ci j r 0 (λ e. new (subst (λ (x : ℕ). In x done) (sym e) m)) in
    let last : (j : ℕ) → In j (done ++ ci ∷ []) → In j done ⊎ (j ≡ ci) = λ j m.
      elim (In-append_cases j done (ci ∷ []) m) [
        | inl k ↦ inl k
        | inr (inl k) ↦ inr k
        | inr (inr k) ↦ absurd k
      ] in
    (
      λ i m. elim (last i m) [
        | inl old ↦ subst FromPool (sym (there i old)) (regs i old)
        | inr e ↦
            subst FromPool (sym (ap (λ (x : ℕ). get_or (set st.reg ci r) x 0) e ∙ here))
              (chosen-FromPool conf ci done st.reg)
      ],
      λ i j m n ne meet meet' nz same. elim (last i m) [
        | inl old ↦ elim (last j n) [
          | inl old' ↦
              apart i j old old' ne meet meet' (λ z. nz (there i old ∙ z))
                (sym (there i old) ∙ same ∙ there j old')
          | inr e' ↦
              let mine = ap (λ (x : ℕ). get_or (set st.reg ci r) x 0) e' ∙ here in
              chosen-apart conf ci i done st.reg old (regs i old)
                (subst (λ (x : ℕ). ra_interfere conf x i ≡ true) e' meet')
                (λ z. nz (same ∙ mine ∙ z)) (sym mine ∙ sym same ∙ there i old)
        ]
        | inr e ↦
            let mine = ap (λ (x : ℕ). get_or (set st.reg ci r) x 0) e ∙ here in
            elim (last j n) [
              | inl old' ↦
                  chosen-apart conf ci j done st.reg old' (regs j old')
                    (subst (λ (x : ℕ). ra_interfere conf x j ≡ true) e meet) (λ z. nz (mine ∙ z))
                    (sym mine ∙ same ∙ there j old')
              | inr e' ↦ ne (e ∙ sym e')
            ]
      ],
    )

color_loop-IsColoring :
    (conf : Conf) (done more : List ℕ) (st : Coloring)
    → Unique more
    → Disjoint done more
    → ((i : ℕ) → In i more → i < length st.reg)
    → IsColoring conf done st.reg
    → IsColoring conf (done ++ more) (color_loop conf done more st).reg
unfolding color_loop color_step
color_loop-IsColoring conf done [] st u d lt h =
    subst (λ (l : List ℕ). IsColoring conf l st.reg) (sym (append_nil done)) h
color_loop-IsColoring conf done (ci ∷ more) st (u, us) d lt h =
    let next = color_step conf ci done st in
    let step =
      color_step-IsColoring conf ci done st (λ m. d ci m (inl refl)) (lt ci (inl refl)) h in
    let apart : Disjoint (done ++ ci ∷ []) more = λ x m n.
      elim (In-append_cases x done (ci ∷ []) m) [
        | inl k ↦ d x k (inr n)
        | inr (inl k) ↦ u (subst (λ (y : ℕ). In y more) k n)
        | inr (inr k) ↦ k
      ] in
    subst (λ (l : List ℕ). IsColoring conf l (color_loop conf (done ++ ci ∷ []) more next).reg)
      (append_cons done ci more)
      (color_loop-IsColoring conf (done ++ ci ∷ []) more next us apart
        (λ i m.
          let old = lt i (inr m) in
          omega (arith, length-set st.reg ci (chosen conf ci done st.reg)))
        step)

same_or : (i j : ℕ) → (i ≡ j) ⊎ (i ≢ j)
same_or i j = elim (Bool-cases (i == j)) [
  | inl e ↦ inl ((==_iff i j).0 e)
  | inr e ↦ inr (λ same. ground arith)
]

both_false : {x y : Bool} → x ≡ true → y ≡ true → (x && y) ≡ false → ⊥
both_false h k e = ground arith

-- 0, which is memory, D2 to D7, or A2 to A5
abbrev pub IsRegister : ℕ → Type 0
IsRegister r = (r ≡ 0) ⊎ (((2 ≤ r) × (r ≤ 7)) ⊎ ((10 ≤ r) × (r ≤ 13)))

FromPool-IsRegister : (r : ℕ) → FromPool r → IsRegister r
FromPool-IsRegister r h = ground (arith, h)

-- Given an entry of `reg` for each candidate, every colourable candidate gets 0, which is memory, or the code of
-- one of D2 to D7 and A2 to A5, whether or not it interferes with another; and of two colourable candidates that get
-- the same register other than 0, either they are one or they do not interfere both ways.
pub ra_color_global-IsColoring :
    (ra : Cands) (conf : Conf) (reg : List ℕ) (i j : ℕ)
    → length reg ≡ length ra.cand
    → ra_colorable ra i ≡ true
    → ra_colorable ra j ≡ true
    → let out = (ra_color_global ra conf reg).reg in
      IsRegister (get_or out i 0)
      × ((get_or out i 0 ≡ 0)
          ⊎ ((get_or out i 0 ≢ get_or out j 0)
              ⊎ ((i ≡ j) ⊎ ((ra_interfere conf i j && ra_interfere conf j i) ≡ false))))
unfolding ra_color_global
ra_color_global-IsColoring ra conf reg i j len hi hj =
    let (unique, falling, members) = color_order-sorted ra in
    let (regs, apart) =
      color_loop-IsColoring conf [] (color_order ra) (record { reg = reg; hi = 0 }) unique
        (λ x m n. m) (λ x m. let lt = ra_colorable-lt ra x ((members x).0 m) in omega arith)
        (λ x m. absurd m, λ x y m n. absurd m) in
    let mi = (members i).1 hi in
    let mj = (members j).1 hj in
    (
      FromPool-IsRegister _ (regs i mi),
      elim (zero_or (get_or (ra_color_global ra conf reg).reg i 0)) [
        | inl z ↦ inl z
        | inr nz ↦ inr (elim (Bool-cases (ra_interfere conf i j && ra_interfere conf j i)) [
          | inr far ↦ inr (inr far)
          | inl near ↦
              let (meet, meet') =
                (and-eq-true_iff (ra_interfere conf i j) (ra_interfere conf j i)).0 near in
              elim (same_or i j) [
                | inl same ↦ inr (inl same)
                | inr ne ↦ inl (apart i j mi mj ne meet meet' nz)
              ]
        ])
      ],
    )

-- Two that interfere both ways never get the same register.
pub ra_color_global-apart :
    (ra : Cands) (conf : Conf) (reg : List ℕ) (i j : ℕ)
    → length reg ≡ length ra.cand
    → ra_colorable ra i ≡ true
    → ra_colorable ra j ≡ true
    → i ≢ j
    → ra_interfere conf i j ≡ true
    → ra_interfere conf j i ≡ true
    → let out = (ra_color_global ra conf reg).reg in
      (get_or out i 0 ≡ 0) ⊎ (get_or out i 0 ≢ get_or out j 0)
ra_color_global-apart ra conf reg i j len hi hj ne meet meet' =
    elim (ra_color_global-IsColoring ra conf reg i j len hi hj).1 [
      | inl z ↦ inl z
      | inr (inl other) ↦ inr other
      | inr (inr (inl same)) ↦ absurd (ne same)
      | inr (inr (inr far)) ↦ absurd (both_false meet meet' far)
    ]
