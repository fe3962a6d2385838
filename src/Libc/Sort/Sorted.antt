-- ===== src/Libc/Sort/Sorted.antt =====
-- qsort of src/libc/core/qsort.c with a callback that is a total order: the order of the elements.
use mathlib.Core.Path.{subst}
use c68k.Prelude.{
  ℕ, zero, suc, ◌+◌, ◌-◌, ◌/◌, ◌<◌, ◌≤◌, ◌≡◌, ◌≢◌, refl, ap, sym, ◌∙◌, Bool, true, false, leb,
  leb→le, ◌==◌, ◌⊎◌, inl, inr, Bool-cases, arith,
}
use c68k.Libc.Sort.{swap, sift_loop, pass_loop, gap_loop, qsort}

same_or_not : (i j : ℕ) → (i ≡ j) ⊎ (i ≢ j)
same_or_not i j = ground arith

one_or_more : (n : ℕ) → 1 ≤ n → (n ≡ 1) ⊎ (2 ≤ n)
one_or_more n h = ground arith

few_or_more : (n : ℕ) → (n < 2) ⊎ (2 ≤ n)
few_or_more n = ground arith

le_same {ℓ} :
    {A : Type ℓ} (le : A → A → Bool) {x x' y y' : A}
    → x ≡ x'
    → y ≡ y'
    → le x' y' ≡ true
    → le x y ≡ true
le_same le e f h = cc

swap-left {ℓ} : {A : Type ℓ} (a : ℕ → A) (x y : ℕ) → swap a x y x ≡ a y
unfolding swap
swap-left a x y = let t : x == x ≡ true = ground arith in rw t refl

swap-right {ℓ} : {A : Type ℓ} (a : ℕ → A) (x y : ℕ) → x ≢ y → swap a x y y ≡ a x
unfolding swap
swap-right a x y h =
    let t : y == x ≡ false = ground arith in let u : y == y ≡ true = ground arith in rw (t, u) refl

swap-other {ℓ} : {A : Type ℓ} (a : ℕ → A) (x y k : ℕ) → k ≢ x → k ≢ y → swap a x y k ≡ a k
unfolding swap
swap-other a x y k h h' =
    let t : k == x ≡ false = ground arith in let u : k == y ≡ false = ground arith in rw (t, u) refl

module _ {ℓ} {A : Type ℓ} (le : A → A → Bool) where
  -- what ISO C asks of the callback: it orders the elements totally
  abbrev pub IsOrder : Type ℓ
  IsOrder =
      ((x y : A) → (le x y ≡ true) ⊎ (le y x ≡ true))
      × ((x y z : A) → le x y ≡ true → le y z ≡ true → le x z ≡ true)

  -- the elements below `n` are in order.
  abbrev pub InOrder : ℕ → (ℕ → A) → Type 0
  InOrder n a = (p q : ℕ) → p < q → q < n → le (a p) (a q) ≡ true

  -- in order below `n`, but for the pairs whose second is `j`
  abbrev InOrderBut : ℕ → ℕ → (ℕ → A) → Type 0
  InOrderBut j n a = (p q : ℕ) → p < q → q < n → q ≢ j → le (a p) (a q) ≡ true

  module _ (order : IsOrder) where
    -- The pair at `j` is in order, so all are.
    settled :
        (j n : ℕ) (a : ℕ → A)
        → InOrderBut j n a
        → (j ≡ 0) ⊎ (le (a (j - 1)) (a j) ≡ true)
        → InOrder n a
    settled j n a but h p q lt lt' = elim (same_or_not q j) [
      | inr ne ↦ but p q lt lt' ne
      | inl e ↦ elim h [
        | inl z ↦ absurd (omega arith)
        | inr last ↦ elim (same_or_not p (j - 1)) [
          | inl f ↦ le_same le (ap a f) (ap a e) last
          | inr ne ↦
              subst (λ (k : ℕ). le (a p) (a k) ≡ true) (sym e)
                (order.1 (a p) (a (j - 1)) (a j)
                  (but p (j - 1) (omega arith) (omega arith) (λ x. omega arith)) last)
        ]
      ]
    ]

    -- An exchange moves the pair that may be out of order to the left.
    swap-InOrderBut :
        (j n : ℕ) (a : ℕ → A)
        → 1 ≤ j
        → j < n
        → le (a j) (a (j - 1)) ≡ true
        → InOrderBut j n a
        → InOrderBut (j - 1) n (swap a (j - 1) j)
    swap-InOrderBut j n a pos lt back but p q pq qn ne =
        let left = swap-left a (j - 1) j in
        let right = swap-right a (j - 1) j (λ x. omega arith) in
        elim (same_or_not q j) [
          | inl qj ↦
              let second = ap (swap a (j - 1) j) qj ∙ right in
              elim (same_or_not p (j - 1)) [
                | inl px ↦ le_same le (ap (swap a (j - 1) j) px ∙ left) second back
                | inr px ↦
                    le_same le (swap-other a (j - 1) j p px (λ x. omega arith)) second
                      (but p (j - 1) (omega arith) (omega arith) (λ x. omega arith))
              ]
          | inr qj ↦
              let second = swap-other a (j - 1) j q ne qj in
              elim (same_or_not p (j - 1)) [
                | inl px ↦
                    le_same le (ap (swap a (j - 1) j) px ∙ left) second
                      (but j q (omega arith) qn qj)
                | inr px ↦ elim (same_or_not p j) [
                  | inl pj ↦
                      le_same le (ap (swap a (j - 1) j) pj ∙ right) second
                        (but (j - 1) q (omega arith) qn qj)
                  | inr pj ↦ le_same le (swap-other a (j - 1) j p px pj) second (but p q pq qn qj)
                ]
              ]
        ]

    sift_loop-InOrder :
        (fuel j n : ℕ) (a : ℕ → A)
        → j ≤ fuel
        → j < n
        → InOrderBut j n a
        → InOrder n (sift_loop le fuel 1 j a)
    unfolding sift_loop
    sift_loop-InOrder zero j n a enough lt but = settled j n a but (inl (omega arith))
    sift_loop-InOrder (suc fuel) j n a enough lt but = elim (Bool-cases (leb 1 j)) [
      | inr e ↦ rw (e, sift_loop) (settled j n a but (inl (ground arith)))
      | inl e ↦
          let pos = leb→le 1 j e in
          elim (Bool-cases (le (a (j - 1)) (a j))) [
            | inl c ↦ rw (e, c, sift_loop) (settled j n a but (inr c))
            | inr c ↦
                let back : le (a j) (a (j - 1)) ≡ true = elim (order.0 (a (j - 1)) (a j)) [
                  | inl d ↦ absurd (cc)
                  | inr d ↦ d
                ] in
                rw (e, c, sift_loop)
                  (sift_loop-InOrder fuel (j - 1) n (swap a (j - 1) j) (omega arith) (omega arith)
                    (swap-InOrderBut j n a pos lt back but))
          ]
    ]

    pass_loop-InOrder : (i n : ℕ) (a : ℕ → A) → InOrder i a → InOrder (i + n) (pass_loop le 1 i n a)
    unfolding pass_loop
    pass_loop-InOrder i zero a h = λ p q pq qn. h p q pq (omega arith)
    pass_loop-InOrder i (suc n) a h =
        let step =
          sift_loop-InOrder i i (i + 1) a (omega arith) (omega arith)
            (λ p q pq qn ne. h p q pq (omega arith)) in
        λ p q pq qn. pass_loop-InOrder (i + 1) n (sift_loop le i 1 i a) step p q pq (omega arith)

    gap_loop-done : (fuel gap nmemb : ℕ) (a : ℕ → A) → gap ≡ 0 → gap_loop le fuel gap nmemb a ≡ a
    unfolding gap_loop
    gap_loop-done zero gap nmemb a e = refl
    gap_loop-done (suc fuel) gap nmemb a e =
        let t : gap == 0 ≡ true = ground arith in rw (t, gap_loop) refl

    gap_loop-InOrder :
        (fuel gap nmemb : ℕ) (a : ℕ → A)
        → 1 ≤ gap
        → gap ≤ fuel
        → 1 ≤ nmemb
        → InOrder nmemb (gap_loop le fuel gap nmemb a)
    unfolding gap_loop
    gap_loop-InOrder zero gap nmemb a pos enough some = absurd (omega arith)
    gap_loop-InOrder (suc fuel) gap nmemb a pos enough some =
        let more : gap == 0 ≡ false = ground arith in
        elim (one_or_more gap pos) [
          | inl e ↦
              rw (more, gap_loop)
                (subst (λ (b : ℕ → A). InOrder nmemb b)
                  (sym (
                    gap_loop-done fuel (gap / 2) nmemb (pass_loop le gap gap (nmemb - gap) a)
                      (omega arith)))
                  (subst (λ (g : ℕ). InOrder nmemb (pass_loop le g g (nmemb - g) a)) (sym e)
                    (λ p q pq qn.
                      pass_loop-InOrder 1 (nmemb - 1) a (λ p' q' pq' qn'. absurd (omega arith)) p q
                        pq (omega arith))))
          | inr e ↦
              rw (more, gap_loop)
                (gap_loop-InOrder fuel (gap / 2) nmemb (pass_loop le gap gap (nmemb - gap) a)
                  (omega arith) (omega arith) some)
        ]

-- With a callback that orders the elements totally, qsort leaves the array in order.
pub qsort-InOrder {ℓ} :
    {A : Type ℓ} (le : A → A → Bool) (nmemb : ℕ) (a : ℕ → A)
    → IsOrder le
    → InOrder le nmemb (qsort le nmemb a)
unfolding qsort
qsort-InOrder le nmemb a order = elim (few_or_more nmemb) [
  | inl e ↦ λ p q pq qn. absurd (omega arith)
  | inr e ↦
      gap_loop-InOrder le order (nmemb / 2) (nmemb / 2) nmemb a (omega arith) (omega arith)
        (omega arith)
]
