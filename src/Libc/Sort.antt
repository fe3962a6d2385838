-- ===== src/Libc/Sort.antt =====
-- qsort of src/libc/core/qsort.c, and qsort_r, which hands its argument on to the callback. An array is a function of
-- the index, and `le x y` is the test `cmp(x, y) <= 0`; the callback is a parameter.
pub mod Sorted
pub mod Rearranged
use c68k.Prelude.{ℕ, zero, suc, ◌+◌, ◌-◌, ◌/◌, Bool, leb, ◌==◌, if◌then◌else◌}

-- _swap on two elements
unfoldable pub swap {ℓ} : {A : Type ℓ} → (ℕ → A) → ℕ → ℕ → ℕ → A
swap a x y k = if k == x then a y else if k == y then a x else a k

-- the loop over `j`; it makes at most `i / gap` rounds, so `i` is enough fuel.
unfoldable pub sift_loop {ℓ} : {A : Type ℓ} → (A → A → Bool) → ℕ → ℕ → ℕ → (ℕ → A) → ℕ → A
unfolding swap
sift_loop le zero gap j a = a
sift_loop le (suc fuel) gap j a =
    let next = sift_loop le fuel gap (j - gap) (swap a (j - gap) j) in
    if leb gap j then if le (a (j - gap)) (a j) then a else next else a

-- the loop over `i`: `n` rounds from `i` on
unfoldable pub pass_loop {ℓ} : {A : Type ℓ} → (A → A → Bool) → ℕ → ℕ → ℕ → (ℕ → A) → ℕ → A
unfolding sift_loop
pass_loop le gap i zero a = a
pass_loop le gap i (suc n) a = pass_loop le gap (i + 1) n (sift_loop le i gap i a)

-- the loop over `gap`, which halves it, so the first gap is enough fuel
unfoldable pub gap_loop {ℓ} : {A : Type ℓ} → (A → A → Bool) → ℕ → ℕ → ℕ → (ℕ → A) → ℕ → A
unfolding pass_loop
gap_loop le zero gap nmemb a = a
gap_loop le (suc fuel) gap nmemb a =
    let next = gap_loop le fuel (gap / 2) nmemb (pass_loop le gap gap (nmemb - gap) a) in
    if gap == 0 then a else next

unfoldable pub qsort {ℓ} : {A : Type ℓ} → (A → A → Bool) → ℕ → (ℕ → A) → ℕ → A
unfolding gap_loop
qsort le nmemb a = gap_loop le (nmemb / 2) (nmemb / 2) nmemb a
