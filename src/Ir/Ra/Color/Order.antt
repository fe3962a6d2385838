-- ===== src/Ir/Ra/Color/Order.antt =====
-- The order in which ra_color_global of src/ir68k.c takes the candidates.
use mathlib.Core.Path.{subst}
use c68k.Prelude.{
  ℕ, zero, suc, ◌+◌, ◌<◌, ◌≤◌, ◌≡◌, refl, ap, sym, ◌∙◌, Bool, true, false, List, [], ◌∷◌, length,
  ◌⊎◌, ◌↔◌, inl, inr, Bool-cases, arith, ltb, if◌then◌else◌,
}
use c68k.Ir.Cfg.Visit.{In}
use c68k.Ir.Ra.Events.{Cands, ra_colorable}
use c68k.Ir.Ra.Liveness.Ranged.{ra_colorable-lt}
use c68k.Ir.Ra.Color.{colorable_from, uses_of, insert_uses, sort_uses, reversed, color_order}

-- no entry twice
abbrev pub Unique : List ℕ → Type 0
Unique [] = Unit {0}
Unique (x ∷ xs) = (In x xs → ⊥) × Unique xs

abbrev pub Disjoint : List ℕ → List ℕ → Type 0
Disjoint xs ys = (x : ℕ) → In x xs → In x ys → ⊥

-- uses that do not grow from one entry to the next
abbrev pub Falling : Cands → List ℕ → Type 0
Falling ra [] = Unit {0}
Falling ra (x ∷ xs) = ((y : ℕ) → In y xs → uses_of ra y ≤ uses_of ra x) × Falling ra xs

abbrev Rising : Cands → List ℕ → Type 0
Rising ra [] = Unit {0}
Rising ra (x ∷ xs) = ((y : ℕ) → In y xs → uses_of ra x ≤ uses_of ra y) × Rising ra xs

if_cons-In :
    (b : Bool) (x i : ℕ) (l : List ℕ)
    → In x (if b then i ∷ l else l)
    → ((b ≡ true) × (x ≡ i)) ⊎ In x l
if_cons-In true x i l (inl h) = inl (refl, h)
if_cons-In true x i l (inr h) = inr h
if_cons-In false x i l h = inr h

colorable_from-In :
    (ra : Cands) (i n x : ℕ) → In x (colorable_from ra i n) → (i ≤ x) × (ra_colorable ra x ≡ true)
unfolding colorable_from
colorable_from-In ra i zero x h = absurd h
colorable_from-In ra i (suc n) x h =
    elim (if_cons-In (ra_colorable ra i) x i (colorable_from ra (i + 1) n) h) [
      | inl (e, here) ↦ (omega arith, ap (ra_colorable ra) here ∙ e)
      | inr there ↦ let (le, c) = colorable_from-In ra (i + 1) n x there in (omega arith, c)
    ]

colorable_from-all :
    (ra : Cands) (i n x : ℕ)
    → i ≤ x
    → x < i + n
    → ra_colorable ra x ≡ true
    → In x (colorable_from ra i n)
unfolding colorable_from
colorable_from-all ra i zero x le lt c = absurd (omega arith)
colorable_from-all ra i (suc n) x le lt c = elim (Bool-cases (ra_colorable ra i)) [
  | inl e ↦ elim (same_or_less i x le) [
    | inl here ↦ rw (e, colorable_from) (inl (sym here))
    | inr more ↦
        rw (e, colorable_from) (inr (colorable_from-all ra (i + 1) n x more (omega arith) c))
  ]
  | inr e ↦ elim (same_or_less i x le) [
    | inl here ↦ absurd (cc)
    | inr more ↦ rw (e, colorable_from) (colorable_from-all ra (i + 1) n x more (omega arith) c)
  ]
]
  where
    same_or_less : (i x : ℕ) → i ≤ x → (i ≡ x) ⊎ (i + 1 ≤ x)
    same_or_less i x h = ground arith

colorable_from-Unique : (ra : Cands) (i n : ℕ) → Unique (colorable_from ra i n)
unfolding colorable_from
colorable_from-Unique ra i zero = tt
colorable_from-Unique ra i (suc n) = elim (Bool-cases (ra_colorable ra i)) [
  | inl e ↦
      rw (e, colorable_from)
        (
          λ h. let (le, c) = colorable_from-In ra (i + 1) n i h in absurd (omega arith),
          colorable_from-Unique ra (i + 1) n,
        )
  | inr e ↦ rw (e, colorable_from) (colorable_from-Unique ra (i + 1) n)
]

insert_uses-In :
    (ra : Cands) (cur x : ℕ) (js : List ℕ)
    → (In x (insert_uses ra cur js) → (x ≡ cur) ⊎ In x js)
      × ((x ≡ cur) ⊎ In x js → In x (insert_uses ra cur js))
unfolding insert_uses
insert_uses-In ra cur x [] = (λ h. h, λ h. h)
insert_uses-In ra cur x (j ∷ js) =
    let (there, back) = insert_uses-In ra cur x js in
    elim (Bool-cases (ltb (uses_of ra j) (uses_of ra cur))) [
      | inl e ↦ rw (e, insert_uses) (λ h. ground (arith, there, h), λ h. ground (arith, back, h))
      | inr e ↦ rw (e, insert_uses) (λ h. h, λ h. h)
    ]

insert_uses-Unique :
    (ra : Cands) (cur : ℕ) (js : List ℕ)
    → (In cur js → ⊥)
    → Unique js
    → Unique (insert_uses ra cur js)
unfolding insert_uses
insert_uses-Unique ra cur [] h k = (h, tt)
insert_uses-Unique ra cur (j ∷ js) h (k, ks) =
    elim (Bool-cases (ltb (uses_of ra j) (uses_of ra cur))) [
      | inl e ↦
          let (there, back) = insert_uses-In ra cur j js in
          rw (e, insert_uses)
            (
              λ x. elim (there x) [ inl same ↦ h (inl (sym same)) | inr old ↦ k old ],
              insert_uses-Unique ra cur js (λ x. h (inr x)) ks,
            )
      | inr e ↦ rw (e, insert_uses) (h, (k, ks))
    ]

insert_uses-Rising :
    (ra : Cands) (cur : ℕ) (js : List ℕ) → Rising ra js → Rising ra (insert_uses ra cur js)
unfolding insert_uses
insert_uses-Rising ra cur [] h = (λ y k. absurd k, tt)
insert_uses-Rising ra cur (j ∷ js) (h, hs) =
    elim (Bool-cases (ltb (uses_of ra j) (uses_of ra cur))) [
      | inl e ↦
          rw (e, insert_uses)
            (
              λ y k. elim ((insert_uses-In ra cur y js).0 k) [
                | inl same ↦
                    subst (λ (z : ℕ). uses_of ra j ≤ uses_of ra z) (sym same) (ground arith)
                | inr old ↦ h y old
              ],
              insert_uses-Rising ra cur js hs,
            )
      | inr e ↦
          let le : uses_of ra cur ≤ uses_of ra j = ground arith in
          rw (e, insert_uses)
            (
              λ y k. elim k [
                | inl same ↦ subst (λ (z : ℕ). uses_of ra cur ≤ uses_of ra z) (sym same) le
                | inr old ↦ let more = h y old in omega arith
              ],
              (h, hs),
            )
    ]

sort_uses-In :
    (ra : Cands) (more sorted : List ℕ) (x : ℕ)
    → (In x (sort_uses ra more sorted) → In x more ⊎ In x sorted)
      × (In x more ⊎ In x sorted → In x (sort_uses ra more sorted))
unfolding sort_uses
sort_uses-In ra [] sorted x = (λ h. inr h, λ h. elim h [ inl k ↦ absurd k | inr k ↦ k ])
sort_uses-In ra (cur ∷ more) sorted x =
    let (there, back) = sort_uses-In ra more (insert_uses ra cur sorted) x in
    let (left, right) = insert_uses-In ra cur x sorted in
    (λ h. ground (arith, there, left, h), λ h. ground (arith, back, right, h))

sort_uses-Unique :
    (ra : Cands) (more sorted : List ℕ)
    → Unique more
    → Unique sorted
    → Disjoint more sorted
    → Unique (sort_uses ra more sorted)
unfolding sort_uses
sort_uses-Unique ra [] sorted h k d = k
sort_uses-Unique ra (cur ∷ more) sorted (h, hs) k d =
    sort_uses-Unique ra more (insert_uses ra cur sorted) hs
      (insert_uses-Unique ra cur sorted (d cur (inl refl)) k)
      (λ x m s. elim ((insert_uses-In ra cur x sorted).0 s) [
        | inl same ↦ h (subst (λ (y : ℕ). In y more) same m)
        | inr old ↦ d x (inr m) old
      ])

sort_uses-Rising :
    (ra : Cands) (more sorted : List ℕ) → Rising ra sorted → Rising ra (sort_uses ra more sorted)
unfolding sort_uses
sort_uses-Rising ra [] sorted h = h
sort_uses-Rising ra (cur ∷ more) sorted h =
    sort_uses-Rising ra more (insert_uses ra cur sorted) (insert_uses-Rising ra cur sorted h)

reversed-In :
    (xs out : List ℕ) (x : ℕ)
    → (In x (reversed xs out) → In x xs ⊎ In x out) × (In x xs ⊎ In x out → In x (reversed xs out))
unfolding reversed
reversed-In [] out x = (λ h. inr h, λ h. elim h [ inl k ↦ absurd k | inr k ↦ k ])
reversed-In (y ∷ xs) out x =
    let (there, back) = reversed-In xs (y ∷ out) x in
    (
      λ h. elim (there h) [ inl k ↦ inl (inr k) | inr (inl k) ↦ inl (inl k) | inr (inr k) ↦ inr k ],
      λ h. elim h [
        | inl (inl k) ↦ back (inr (inl k))
        | inl (inr k) ↦ back (inl k)
        | inr k ↦ back (inr (inr k))
      ],
    )

reversed-Unique :
    (xs out : List ℕ) → Unique xs → Unique out → Disjoint xs out → Unique (reversed xs out)
unfolding reversed
reversed-Unique [] out h k d = k
reversed-Unique (y ∷ xs) out (h, hs) k d =
    reversed-Unique xs (y ∷ out) hs (d y (inl refl), k)
      (λ x m o. elim o [
        | inl same ↦ h (subst (λ (z : ℕ). In z xs) same m)
        | inr old ↦ d x (inr m) old
      ])

reversed-Falling :
    (ra : Cands) (xs out : List ℕ)
    → Rising ra xs
    → Falling ra out
    → ((x y : ℕ) → In x xs → In y out → uses_of ra y ≤ uses_of ra x)
    → Falling ra (reversed xs out)
unfolding reversed
reversed-Falling ra [] out h k d = k
reversed-Falling ra (z ∷ xs) out (h, hs) k d =
    reversed-Falling ra xs (z ∷ out) hs (λ y m. d z y (inl refl) m, k)
      (λ x y m o. elim o [
        | inl same ↦ subst (λ (w : ℕ). uses_of ra w ≤ uses_of ra x) (sym same) (h x m)
        | inr old ↦ d x y (inr m) old
      ])

below : (ra : Cands) (x : ℕ) → ra_colorable ra x ≡ true → x < 0 + length ra.cand
below ra x h = omega (arith, ra_colorable-lt ra x h)

-- `order` has the candidates that are colourable, each once, those with more uses first.
pub color_order-sorted :
    (ra : Cands)
    → Unique (color_order ra)
      × Falling ra (color_order ra)
      × ((x : ℕ) → In x (color_order ra) ↔ (ra_colorable ra x ≡ true))
unfolding color_order
color_order-sorted ra =
    let found = colorable_from ra 0 (length ra.cand) in
    let sorted = sort_uses ra found [] in
    (
      reversed-Unique sorted []
          (sort_uses-Unique ra found [] (colorable_from-Unique ra 0 (length ra.cand)) tt
            (λ x m o. o))
          tt (λ x m o. o),
      reversed-Falling ra sorted [] (sort_uses-Rising ra found [] tt) tt (λ x y m o. absurd o),
      λ x. (
        λ h. elim ((reversed-In sorted [] x).0 h) [
          | inr k ↦ absurd k
          | inl k ↦ elim ((sort_uses-In ra found [] x).0 k) [
            | inr l ↦ absurd l
            | inl l ↦ (colorable_from-In ra 0 (length ra.cand) x l).1
          ]
        ],
        λ h. (reversed-In sorted [] x).1 (
            inl (
              (sort_uses-In ra found [] x).1
                (inl (colorable_from-all ra 0 (length ra.cand) x (omega arith) (below ra x h) h)))),
      ),
    )
