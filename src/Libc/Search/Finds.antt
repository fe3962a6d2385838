-- ===== src/Libc/Search/Finds.antt =====
-- bsearch of src/libc/core/bsearch.c on an array in the order of the callback.
use c68k.Prelude.{
  ℕ, zero, suc, ◌+◌, ◌-◌, ◌/◌, ◌<◌, ◌≤◌, ◌≡◌, ◌≢◌, refl, Option, none, some, ltb, ltb→lt, ◌⊎◌, inl,
  inr, Bool-cases, arith,
}
use c68k.Libc.Search.{Sign, below, same, above, bsearch_loop, bsearch}

-- The elements are in ascending order for the key: behind one that is above the key are such ones only, and before
-- one that is below it are such ones only.
abbrev pub Ascending : (ℕ → Sign) → ℕ → Type 0
Ascending cmp n =
    ((i j : ℕ) → i ≤ j → j < n → cmp i ≡ below → cmp j ≡ below)
    × ((i j : ℕ) → i ≤ j → j < n → cmp j ≡ above → cmp i ≡ above)

-- An index of an element that is the same as the key, or none below `n`
abbrev pub Answer : (ℕ → Sign) → ℕ → Option ℕ → Type 0
Answer cmp n (some i) = (i < n) × (cmp i ≡ same)
Answer cmp n none = (i : ℕ) → i < n → cmp i ≢ same

Sign-cases : (s : Sign) → (s ≡ below) ⊎ ((s ≡ above) ⊎ (s ≡ same))
Sign-cases below = inl refl
Sign-cases above = inr (inl refl)
Sign-cases same = inr (inr refl)

below_same : {s : Sign} → s ≡ below → s ≢ same
below_same e f = cc

above_same : {s : Sign} → s ≡ above → s ≢ same
above_same e f = cc

outside : (lo hi i : ℕ) → hi ≤ lo → (i < lo) ⊎ (hi ≤ i)
outside lo hi i h = ground arith

middle : (lo hi : ℕ) → lo < hi → (lo ≤ lo + (hi - lo) / 2) × (lo + (hi - lo) / 2 < hi)
middle lo hi h = omega arith

bsearch_loop-Answer :
    (fuel : ℕ) (cmp : ℕ → Sign) (n lo hi : ℕ)
    → Ascending cmp n
    → hi ≤ n
    → hi ≤ lo + fuel
    → ((i : ℕ) → i < lo → cmp i ≢ same)
    → ((i : ℕ) → hi ≤ i → i < n → cmp i ≢ same)
    → Answer cmp n (bsearch_loop fuel cmp lo hi)
unfolding bsearch_loop
bsearch_loop-Answer zero cmp n lo hi asc le enough left right =
    λ i lt e. elim (outside lo hi i (omega arith)) [ inl k ↦ left i k e | inr k ↦ right i k lt e ]
bsearch_loop-Answer (suc fuel) cmp n lo hi asc le enough left right =
    let mid = lo + (hi - lo) / 2 in
    elim (Bool-cases (ltb lo hi)) [
      | inr e ↦
          let done : hi ≤ lo = ground arith in
          rw (e, bsearch_loop)
            (λ i lt s. elim (outside lo hi i done) [ inl k ↦ left i k s | inr k ↦ right i k lt s ])
      | inl e ↦
          let (from, to) = middle lo hi (ltb→lt lo hi e) in
          elim (Sign-cases (cmp mid)) [
            | inl c ↦
                rw (e, c, bsearch_loop)
                  (bsearch_loop-Answer fuel cmp n lo mid asc (omega arith) (omega arith) left
                    (λ i more lt s. below_same (asc.0 mid i more lt c) s))
            | inr (inl c) ↦
                rw (e, c, bsearch_loop)
                  (bsearch_loop-Answer fuel cmp n (mid + 1) hi asc le (omega arith)
                    (λ i less s. above_same (asc.1 i mid (omega arith) (omega arith) c) s) right)
            | inr (inr c) ↦ rw (e, c, bsearch_loop) (omega arith, c)
          ]
    ]

-- On an array in ascending order for the key, bsearch gives an index below nmemb whose element is the same as the
-- key, and NULL only when there is none.
pub bsearch-Answer :
    (cmp : ℕ → Sign) (nmemb : ℕ) → Ascending cmp nmemb → Answer cmp nmemb (bsearch cmp nmemb)
unfolding bsearch
bsearch-Answer cmp nmemb asc =
    bsearch_loop-Answer nmemb cmp nmemb 0 nmemb asc (omega arith) (omega arith)
      (λ i lt. absurd (omega arith)) (λ i le lt. absurd (omega arith))
