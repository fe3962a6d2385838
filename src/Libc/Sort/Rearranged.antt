-- ===== src/Libc/Sort/Rearranged.antt =====
-- qsort of src/libc/core/qsort.c with any callback: the elements before and after.
use c68k.Prelude.{
  ℕ, zero, suc, ◌+◌, ◌-◌, ◌/◌, ◌<◌, ◌≤◌, ◌≡◌, refl, ap, ◌∙◌, Bool, leb, ◌==◌, if◌then◌else◌,
  Bool-cases, inl, inr, arith,
}
use c68k.Libc.Sort.{swap, sift_loop, pass_loop, gap_loop, qsort}

-- `b` is `a` with its elements below `n` moved by a one-to-one map of the indices.
abbrev pub Rearranged {ℓ} : {A : Type ℓ} → ℕ → (ℕ → A) → (ℕ → A) → Type ℓ
Rearranged n a b =
    (move back : ℕ → ℕ) × ((k : ℕ) → move (back k) ≡ k)
    × ((k : ℕ) → back (move k) ≡ k)
    × ((k : ℕ) → k < n → (move k < n) × (back k < n))
    × ((k : ℕ) → b k ≡ a (move k))

-- where `swap` takes an element from
abbrev swap_index : ℕ → ℕ → ℕ → ℕ
swap_index x y k = if k == x then y else if k == y then x else k

swap_index_twice : (x y k : ℕ) → swap_index x y (swap_index x y k) ≡ k
swap_index_twice x y k = ground arith

swap_index-lt : (x y n k : ℕ) → x < n → y < n → k < n → swap_index x y k < n
swap_index-lt x y n k hx hy hk = ground arith

module _ {ℓ} {A : Type ℓ} where
  Rearranged-refl : (n : ℕ) (a : ℕ → A) → Rearranged n a a
  Rearranged-refl n a = (λ k. k, λ k. k, λ k. refl, λ k. refl, λ k lt. (lt, lt), λ k. refl)

  Rearranged-trans :
      (n : ℕ) (a b c : ℕ → A) → Rearranged n a b → Rearranged n b c → Rearranged n a c
  Rearranged-trans n a b c (f, f', p, q, below, e) (g, g', p', q', below', e') = (
    λ k. f (g k),
    λ k. g' (f' k),
    λ k. ap f (p' (f' k)) ∙ p k,
    λ k. ap g' (q (g k)) ∙ q' k,
    λ k lt. ((below (g k) (below' k lt).0).0, (below' (f' k) (below k lt).1).1),
    λ k. e' k ∙ e (g k),
  )

  swap-Rearranged : (n x y : ℕ) (a : ℕ → A) → x < n → y < n → Rearranged n a (swap a x y)
  unfolding swap
  swap-Rearranged n x y a hx hy = (
    swap_index x y,
    swap_index x y,
    swap_index_twice x y,
    swap_index_twice x y,
    λ k lt. (swap_index-lt x y n k hx hy lt, swap_index-lt x y n k hx hy lt),
    λ k. elim (Bool-cases (k == x)) [
      | inl e ↦ rw e refl
      | inr e ↦ elim (Bool-cases (k == y)) [ inl f ↦ rw (e, f) refl | inr f ↦ rw (e, f) refl ]
    ],
  )

  sift_loop-Rearranged :
      (le : A → A → Bool) (fuel gap j n : ℕ) (a : ℕ → A)
      → j < n
      → Rearranged n a (sift_loop le fuel gap j a)
  unfolding sift_loop
  sift_loop-Rearranged le zero gap j n a lt = Rearranged-refl n a
  sift_loop-Rearranged le (suc fuel) gap j n a lt = elim (Bool-cases (leb gap j)) [
    | inr e ↦ rw (e, sift_loop) (Rearranged-refl n a)
    | inl e ↦ elim (Bool-cases (le (a (j - gap)) (a j))) [
      | inl c ↦ rw (e, c, sift_loop) (Rearranged-refl n a)
      | inr c ↦
          let moved = swap a (j - gap) j in
          rw (e, c, sift_loop)
            (Rearranged-trans n a moved (sift_loop le fuel gap (j - gap) moved)
              (swap-Rearranged n (j - gap) j a (omega arith) lt)
              (sift_loop-Rearranged le fuel gap (j - gap) n moved (omega arith)))
    ]
  ]

  pass_loop-Rearranged :
      (le : A → A → Bool) (gap i m n : ℕ) (a : ℕ → A)
      → i + m ≤ n
      → Rearranged n a (pass_loop le gap i m a)
  unfolding pass_loop
  pass_loop-Rearranged le gap i zero n a h = Rearranged-refl n a
  pass_loop-Rearranged le gap i (suc m) n a h =
      let first = sift_loop le i gap i a in
      Rearranged-trans n a first (pass_loop le gap (i + 1) m first)
        (sift_loop-Rearranged le i gap i n a (omega arith))
        (pass_loop-Rearranged le gap (i + 1) m n first (omega arith))

  gap_loop-Rearranged :
      (le : A → A → Bool) (fuel gap n : ℕ) (a : ℕ → A)
      → gap ≤ n
      → Rearranged n a (gap_loop le fuel gap n a)
  unfolding gap_loop
  gap_loop-Rearranged le zero gap n a h = Rearranged-refl n a
  gap_loop-Rearranged le (suc fuel) gap n a h = elim (Bool-cases (gap == 0)) [
    | inl e ↦ rw (e, gap_loop) (Rearranged-refl n a)
    | inr e ↦
        let first = pass_loop le gap gap (n - gap) a in
        rw (e, gap_loop)
          (Rearranged-trans n a first (gap_loop le fuel (gap / 2) n first)
            (pass_loop-Rearranged le gap gap (n - gap) n a (omega arith))
            (gap_loop-Rearranged le fuel (gap / 2) n first (omega arith)))
  ]

-- Whatever the callback answers, what qsort leaves is the array with its elements below nmemb moved by a
-- one-to-one map of the indices.
pub qsort-Rearranged {ℓ} :
    {A : Type ℓ} (le : A → A → Bool) (nmemb : ℕ) (a : ℕ → A) → Rearranged nmemb a (qsort le nmemb a)
unfolding qsort
qsort-Rearranged le nmemb a = gap_loop-Rearranged le (nmemb / 2) (nmemb / 2) nmemb a (omega arith)
