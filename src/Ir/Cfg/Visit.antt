-- ===== src/Ir/Cfg/Visit.antt =====
-- What one round of the search of op6_dce_unreachable does to the marks and the stack.
use c68k.Prelude.{
  ℕ, zero, suc, ◌+◌, ◌<◌, ◌≡◌, ◌⊎◌, inl, inr, refl, Bool, true, false, List, [], ◌∷◌, ◌++◌, length,
  get_or, set, All, length-set, Bool-cases, arith, if◌then◌else◌, ◌∙◌,
}
use c68k.Ir.Cfg.{Search, visit, visit_all}

abbrev pub In : ℕ → List ℕ → Type 0
In x [] = ⊥
In x (y ∷ ys) = (x ≡ y) ⊎ In x ys

pub In-append : (x : ℕ) (xs ys : List ℕ) → In x ys → In x (xs ++ ys)
In-append x [] ys h = h
In-append x (y ∷ xs) ys h = inr (In-append x xs ys h)

pub append-In : (x : ℕ) (xs ys : List ℕ) → In x xs → In x (xs ++ ys)
append-In x [] ys h = absurd h
append-In x (y ∷ xs) ys (inl h) = inl h
append-In x (y ∷ xs) ys (inr h) = inr (append-In x xs ys h)

pub In-append_cases : (x : ℕ) (xs ys : List ℕ) → In x (xs ++ ys) → In x xs ⊎ In x ys
In-append_cases x [] ys h = inr h
In-append_cases x (y ∷ xs) ys h = ground (arith, In-append_cases x xs ys)

abbrev pub Seen : List Bool → ℕ → Type 0
Seen seen b = get_or seen b false ≡ true

abbrev pub unseen : List Bool → ℕ
unseen [] = 0
unseen (b ∷ bs) = if b then unseen bs else unseen bs + 1

pub get_or-set : (l : List Bool) (i : ℕ) → i < length l → Seen (set l i true) i
get_or-set [] i h = absurd (omega arith)
get_or-set (x ∷ l) zero h = refl
get_or-set (x ∷ l) (suc i) h = get_or-set l i (omega arith)

-- Setting one mark sets no other and unsets none.
pub set-Seen : (l : List Bool) (i j : ℕ) → Seen (set l i true) j → (j ≡ i) ⊎ Seen l j
set-Seen [] i j h = cc
set-Seen (x ∷ l) zero zero h = inl refl
set-Seen (x ∷ l) zero (suc j) h = inr h
set-Seen (x ∷ l) (suc i) zero h = inr h
set-Seen (x ∷ l) (suc i) (suc j) h = ground (arith, set-Seen l i j h)

Seen-set : (l : List Bool) (i j : ℕ) → Seen l j → Seen (set l i true) j
Seen-set [] i j h = cc
Seen-set (x ∷ l) zero zero h = refl
Seen-set (x ∷ l) zero (suc j) h = h
Seen-set (x ∷ l) (suc i) zero h = h
Seen-set (x ∷ l) (suc i) (suc j) h = Seen-set l i j h

pub unseen-set :
    (l : List Bool) (i : ℕ)
    → i < length l
    → get_or l i false ≡ false
    → unseen (set l i true) + 1 ≡ unseen l
unseen-set [] i h k = absurd (omega arith)
unseen-set (x ∷ l) zero h k = ground arith
unseen-set (x ∷ l) (suc i) h k = ground (arith, unseen-set l i (omega arith) k)

-- A visit only adds marks, puts each block that it marks on the stack, and marks nothing twice.
abbrev pub Grows : Search → Search → Type 0
Grows r r' =
    (length r'.seen ≡ length r.seen)
    × ((x : ℕ) → Seen r.seen x → Seen r'.seen x)
    × ((x : ℕ) → In x r.stack → In x r'.stack)
    × ((x : ℕ) → Seen r'.seen x → Seen r.seen x ⊎ In x r'.stack)
    × (unseen r'.seen + length r'.stack ≡ unseen r.seen + length r.stack)

Grows-refl : (r : Search) → Grows r r
Grows-refl r = (refl, λ x h. h, λ x h. h, λ x h. inl h, refl)

Grows-trans : (r s t : Search) → Grows r s → Grows s t → Grows r t
Grows-trans r s t (len, marks, held, new, room) (len', marks', held', new', room') = (
  len' ∙ len,
  λ x h. marks' x (marks x h),
  λ x h. held' x (held x h),
  λ x h. elim (new' x h) [
    | inl old ↦ elim (new x old) [ inl older ↦ inl older | inr k ↦ inr (held' x k) ]
    | inr k ↦ inr k
  ],
  room' ∙ room,
)

visit-Grows : (r : Search) (s : ℕ) → s < length r.seen → Grows r (visit r s)
unfolding visit
visit-Grows r s h = elim (Bool-cases (get_or r.seen s false)) [
  | inl e ↦ rw e (Grows-refl r)
  | inr e ↦ rw e (
    length-set r.seen s true,
    λ x k. Seen-set r.seen s x k,
    λ x k. inr k,
    λ x k. elim (set-Seen r.seen s x k) [ inl same ↦ inr (inl same) | inr old ↦ inl old ],
    omega (arith, unseen-set r.seen s h e),
  )
]

visit-Seen : (r : Search) (s : ℕ) → s < length r.seen → Seen (visit r s).seen s
unfolding visit
visit-Seen r s h = elim (Bool-cases (get_or r.seen s false)) [
  | inl e ↦ rw e e
  | inr e ↦ rw e (get_or-set r.seen s h)
]

pub visit_all-Grows :
    (n : ℕ) (r : Search) (ss : List ℕ)
    → length r.seen ≡ n
    → All (λ s. s < n) ss
    → Grows r (visit_all r ss)
unfolding visit_all
visit_all-Grows n r [] e h = Grows-refl r
visit_all-Grows n r (s ∷ ss) e (h, hs) =
    let first = visit-Grows r s (omega arith) in
    Grows-trans r (visit r s) (visit_all (visit r s) ss) first
      (visit_all-Grows n (visit r s) ss (first.0 ∙ e) hs)

pub visit_all-Seen :
    (n : ℕ) (r : Search) (ss : List ℕ) (x : ℕ)
    → length r.seen ≡ n
    → All (λ s. s < n) ss
    → In x ss
    → Seen (visit_all r ss).seen x
unfolding visit_all
visit_all-Seen n r [] x e h k = absurd k
visit_all-Seen n r (s ∷ ss) x e (h, hs) k =
    let len = (visit-Grows r s (omega arith)).0 ∙ e in
    elim k [
      | inl same ↦
          (visit_all-Grows n (visit r s) ss len hs).1 x (rw same (visit-Seen r s (omega arith)))
      | inr later ↦ visit_all-Seen n (visit r s) ss x len hs later
    ]

-- What holds of all blocks marked or on the stack
abbrev pub Holds : (ℕ → Type 0) → Search → Type 0
Holds P r = ((x : ℕ) → Seen r.seen x → P x) × ((x : ℕ) → In x r.stack → P x)

visit-Holds : (P : ℕ → Type 0) (r : Search) (s : ℕ) → Holds P r → P s → Holds P (visit r s)
unfolding visit
visit-Holds P r s (marked, held) p = elim (Bool-cases (get_or r.seen s false)) [
  | inl e ↦ rw e (marked, held)
  | inr e ↦ rw e (
    λ x h. elim (set-Seen r.seen s x h) [ inl same ↦ rw same p | inr old ↦ marked x old ],
    λ x h. elim h [ inl same ↦ rw same p | inr old ↦ held x old ],
  )
]

pub visit_all-Holds :
    (P : ℕ → Type 0) (r : Search) (ss : List ℕ)
    → Holds P r
    → ((s : ℕ) → In s ss → P s)
    → Holds P (visit_all r ss)
unfolding visit_all
visit_all-Holds P r [] hold new = hold
visit_all-Holds P r (s ∷ ss) hold new =
    visit_all-Holds P (visit r s) ss (visit-Holds P r s hold (new s (inl refl)))
      (λ t h. new t (inr h))
