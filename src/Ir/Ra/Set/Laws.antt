-- ===== src/Ir/Ra/Set/Laws.antt =====
-- RaSet of src/ir68k.c as sets: membership after each operation, and how many members there are.
use Prim.Native.Nat.{bit_and, bit_or}
use c68k.Prelude.{
  ℕ, zero, suc, ◌+◌, ◌-◌, ◌/◌, ◌%◌, ◌^◌, ◌<◌, min, max, ◌≡◌, refl, ap, sym, ◌∙◌, false, not, ◌&&◌,
  ◌||◌, List, [], ◌∷◌, get_or, set, replicate, length, length-set, All, ◌==◌, if◌then◌else◌, arith,
}
use c68k.Prelude.Bits.{bit_or-lt, bit_and-lt}
use c68k.Prelude.Digits.{
  digit, digit-bit_or, digit-bit_and, digit-pow, digit-complement, digit-lt, zero_digit, pow_lt,
}
use c68k.Ir.Ra.Set.{RaSet, ra_set_zero, ra_set_add, ra_set_del, ra_set_has, ra_set_or, ra_set_minus}

-- eight words
abbrev pub IsRaSet : RaSet → Type 0
IsRaSet s = (length s ≡ 8) × All (λ w. w < 2 ^ 32) s

get_or-set :
    (l : List ℕ) (i j v : ℕ)
    → i < length l
    → get_or (set l i v) j 0 ≡ (if i == j then v else get_or l j 0)
get_or-set [] i j v h = absurd (omega arith)
get_or-set (x ∷ l) zero zero v h = ground arith
get_or-set (x ∷ l) zero (suc j) v h = ground arith
get_or-set (x ∷ l) (suc i) zero v h = ground arith
get_or-set (x ∷ l) (suc i) (suc j) v h = get_or-set l i j v (omega arith) ∙ ground arith

All-set :
    (l : List ℕ) (i v : ℕ)
    → All (λ w. w < 2 ^ 32) l
    → v < 2 ^ 32
    → All (λ w. w < 2 ^ 32) (set l i v)
All-set [] i v h k = tt
All-set (x ∷ l) zero v (h, hs) k = (k, hs)
All-set (x ∷ l) (suc i) v (h, hs) k = (h, All-set l i v hs k)

All-get_or : (l : List ℕ) (i : ℕ) → All (λ w. w < 2 ^ 32) l → get_or l i 0 < 2 ^ 32
All-get_or [] i h = omega arith
All-get_or (x ∷ l) zero (h, hs) = h
All-get_or (x ∷ l) (suc i) (h, hs) = All-get_or l i hs

pub ra_set_zero-IsRaSet : IsRaSet ra_set_zero
unfolding ra_set_zero
ra_set_zero-IsRaSet = omega arith

get_or-replicate : (n i : ℕ) → get_or {A = ℕ} (replicate n 0) i 0 ≡ 0
get_or-replicate zero i = refl
get_or-replicate (suc n) zero = refl
get_or-replicate (suc n) (suc i) = get_or-replicate n i

pub ra_set_has-zero : (i : ℕ) → ra_set_has ra_set_zero i ≡ false
unfolding ra_set_has ra_set_zero
ra_set_has-zero i =
    let nothing : (n : ℕ) → get_or {A = ℕ} (replicate n 0) (i / 32) 0 ≡ 0 =
      λ n. get_or-replicate n (i / 32) in
    ap (λ (w : ℕ). digit w (i % 32) == 1) (nothing 8) ∙ ap (λ (d : ℕ). d == 1) (zero_digit (i % 32))

pub ra_set_add-IsRaSet : (s : RaSet) (i : ℕ) → IsRaSet s → IsRaSet (ra_set_add s i)
unfolding ra_set_add
ra_set_add-IsRaSet s i (len, words) = (
  length-set s (i / 32) _ ∙ len,
  All-set s (i / 32) _ words (
      bit_or-lt 32 (get_or s (i / 32) 0) (2 ^ (i % 32)) (All-get_or s (i / 32) words)
        (pow_lt (i % 32) (omega arith))),
)

pub ra_set_del-IsRaSet : (s : RaSet) (i : ℕ) → IsRaSet s → IsRaSet (ra_set_del s i)
unfolding ra_set_del
ra_set_del-IsRaSet s i (len, words) = (
  length-set s (i / 32) _ ∙ len,
  All-set s (i / 32) _ words (bit_and-lt 32 (get_or s (i / 32) 0) _ (All-get_or s (i / 32) words)),
)

-- the digit that stands for a member
abbrev place : RaSet → ℕ → ℕ
place s j = digit (get_or s (j / 32) 0) (j % 32)

-- a write of the word of `i`, seen from `j`
place-set :
    (s : RaSet) (i j v : ℕ)
    → IsRaSet s
    → i < 256
    → place (set s (i / 32) v) j ≡ (if i / 32 == j / 32 then digit v (j % 32) else place s j)
place-set s i j v (len, words) h =
    let short : i / 32 < length s = omega arith in
    ap (λ (w : ℕ). digit w (j % 32)) (get_or-set s (i / 32) (j / 32) v short) ∙ ground arith

-- one digit set, and one cleared, in the word of `i`, as seen from `j`
set_digit :
    (i j a b o : ℕ)
    → (i / 32 ≡ j / 32 → a ≡ b)
    → a < 2
    → o ≡ max a (if i % 32 == j % 32 then 1 else 0)
    → (if i / 32 == j / 32 then o else b) ≡ (if i == j then 1 else b)
set_digit i j a b o h small e = ground arith

clear_digit :
    (i j a b o m : ℕ)
    → (i / 32 ≡ j / 32 → a ≡ b)
    → a < 2
    → o ≡ min a m
    → m + (if i % 32 == j % 32 then 1 else 0) ≡ 1
    → (if i / 32 == j / 32 then o else b) ≡ (if i == j then 0 else b)
clear_digit i j a b o m h small e f = ground arith

place-add :
    (s : RaSet) (i j : ℕ)
    → IsRaSet s
    → i < 256
    → place (ra_set_add s i) j ≡ (if i == j then 1 else place s j)
unfolding ra_set_add
place-add s i j v h =
    let w = get_or s (i / 32) 0 in
    let here : i / 32 ≡ j / 32 → digit w (j % 32) ≡ place s j =
      λ e. ap (λ (k : ℕ). digit (get_or s k 0) (j % 32)) e in
    place-set s i j (bit_or w (2 ^ (i % 32))) v h
    ∙ set_digit i j (digit w (j % 32)) (place s j) (digit (bit_or w (2 ^ (i % 32))) (j % 32)) here
        (digit-lt w (j % 32))
        (digit-bit_or (j % 32) w (2 ^ (i % 32))
          ∙ ap (max (digit w (j % 32))) (digit-pow (i % 32) (j % 32)))

place-del :
    (s : RaSet) (i j : ℕ)
    → IsRaSet s
    → i < 256
    → place (ra_set_del s i) j ≡ (if i == j then 0 else place s j)
unfolding ra_set_del
place-del s i j v h =
    let w = get_or s (i / 32) 0 in
    let m : ℕ = 0xffffffff - 2 ^ (i % 32) in
    let here : i / 32 ≡ j / 32 → digit w (j % 32) ≡ place s j =
      λ e. ap (λ (k : ℕ). digit (get_or s k 0) (j % 32)) e in
    let other =
      digit-complement 32 (j % 32) (2 ^ (i % 32)) (omega arith) (pow_lt (i % 32) (omega arith)) in
    place-set s i j (bit_and w m) v h
    ∙ clear_digit i j (digit w (j % 32)) (place s j) (digit (bit_and w m) (j % 32))
        (digit m (j % 32)) here (digit-lt w (j % 32)) (digit-bit_and (j % 32) w m)
        (ap (λ (d : ℕ). digit m (j % 32) + d) (sym (digit-pow (i % 32) (j % 32))) ∙ other)

pub ra_set_has-add :
    (s : RaSet) (i j : ℕ)
    → IsRaSet s
    → i < 256
    → ra_set_has (ra_set_add s i) j ≡ (i == j || ra_set_has s j)
unfolding ra_set_has
ra_set_has-add s i j v h = ap (λ (d : ℕ). d == 1) (place-add s i j v h) ∙ ground arith

pub ra_set_has-del :
    (s : RaSet) (i j : ℕ)
    → IsRaSet s
    → i < 256
    → ra_set_has (ra_set_del s i) j ≡ (not (i == j) && ra_set_has s j)
unfolding ra_set_has
ra_set_has-del s i j v h = ap (λ (d : ℕ). d == 1) (place-del s i j v h) ∙ ground arith

-- word by word
get_or-or :
    (ds ss : RaSet) (n : ℕ)
    → length ds ≡ length ss
    → get_or (ra_set_or ds ss).1 n 0 ≡ bit_or (get_or ds n 0) (get_or ss n 0)
unfolding ra_set_or
get_or-or [] [] n e = refl
get_or-or (d ∷ ds) (s ∷ ss) zero e = refl
get_or-or (d ∷ ds) (s ∷ ss) (suc n) e = get_or-or ds ss n (omega arith)
get_or-or [] (s ∷ ss) n e = absurd (omega arith)
get_or-or (d ∷ ds) [] n e = absurd (omega arith)

get_or-minus :
    (ds ss : RaSet) (n : ℕ)
    → length ds ≡ length ss
    → get_or (ra_set_minus ds ss) n 0 ≡ bit_and (get_or ds n 0) (0xffffffff - get_or ss n 0)
unfolding ra_set_minus
get_or-minus [] [] n e = refl
get_or-minus (d ∷ ds) (s ∷ ss) zero e = refl
get_or-minus (d ∷ ds) (s ∷ ss) (suc n) e = get_or-minus ds ss n (omega arith)
get_or-minus [] (s ∷ ss) n e = absurd (omega arith)
get_or-minus (d ∷ ds) [] n e = absurd (omega arith)

length-or : (d s : RaSet) → length (ra_set_or d s).1 ≡ length d
unfolding ra_set_or
length-or [] s = refl
length-or (d ∷ ds) [] = refl
length-or (d ∷ ds) (s ∷ ss) = ap suc (length-or ds ss)

All-or :
    (d s : RaSet)
    → All (λ w. w < 2 ^ 32) d
    → All (λ w. w < 2 ^ 32) s
    → All (λ w. w < 2 ^ 32) (ra_set_or d s).1
unfolding ra_set_or
All-or [] s h k = tt
All-or (d ∷ ds) [] h k = h
All-or (d ∷ ds) (s ∷ ss) (h, hs) (k, ks) = (bit_or-lt 32 d s h k, All-or ds ss hs ks)

pub ra_set_or-IsRaSet : (d s : RaSet) → IsRaSet d → IsRaSet s → IsRaSet (ra_set_or d s).1
ra_set_or-IsRaSet d s v w = (length-or d s ∙ v.0, All-or d s v.1 w.1)

length-minus : (d s : RaSet) → length (ra_set_minus d s) ≡ length d
unfolding ra_set_minus
length-minus [] s = refl
length-minus (d ∷ ds) [] = refl
length-minus (d ∷ ds) (s ∷ ss) = ap suc (length-minus ds ss)

All-minus : (d s : RaSet) → All (λ w. w < 2 ^ 32) d → All (λ w. w < 2 ^ 32) (ra_set_minus d s)
unfolding ra_set_minus
All-minus [] s h = tt
All-minus (d ∷ ds) [] h = h
All-minus (d ∷ ds) (s ∷ ss) (h, hs) = (bit_and-lt 32 d (0xffffffff - s) h, All-minus ds ss hs)

pub ra_set_minus-IsRaSet : (d s : RaSet) → IsRaSet d → IsRaSet (ra_set_minus d s)
ra_set_minus-IsRaSet d s v = (length-minus d s ∙ v.0, All-minus d s v.1)

pub ra_set_has-or :
    (d s : RaSet) (j : ℕ)
    → IsRaSet d
    → IsRaSet s
    → ra_set_has (ra_set_or d s).1 j ≡ (ra_set_has d j || ra_set_has s j)
unfolding ra_set_has
ra_set_has-or d s j v w =
    let word = get_or-or d s (j / 32) (omega arith) in
    let small = digit-lt (get_or d (j / 32) 0) (j % 32) in
    let small' = digit-lt (get_or s (j / 32) 0) (j % 32) in
    ap (λ (x : ℕ). digit x (j % 32) == 1) word
    ∙ ap (λ (x : ℕ). x == 1) (digit-bit_or (j % 32) (get_or d (j / 32) 0) (get_or s (j / 32) 0))
    ∙ ground arith

pub ra_set_has-minus :
    (d s : RaSet) (j : ℕ)
    → IsRaSet d
    → IsRaSet s
    → ra_set_has (ra_set_minus d s) j ≡ (ra_set_has d j && not (ra_set_has s j))
unfolding ra_set_has
ra_set_has-minus d s j v w =
    let word = get_or-minus d s (j / 32) (omega arith) in
    let x = get_or s (j / 32) 0 in
    let small = digit-lt (get_or d (j / 32) 0) (j % 32) in
    let small' = digit-lt x (j % 32) in
    let other = digit-complement 32 (j % 32) x (omega arith) (All-get_or s (j / 32) w.1) in
    ap (λ (x : ℕ). digit x (j % 32) == 1) word
    ∙ ap (λ (x : ℕ). x == 1) (digit-bit_and (j % 32) (get_or d (j / 32) 0) (0xffffffff - x))
    ∙ ground arith
