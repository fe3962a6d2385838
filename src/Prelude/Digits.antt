-- ===== src/Prelude/Digits.antt =====
-- Binary digits of numbers, and those of the bit operations.
use Prim.Native.Nat.{bit_and, bit_or}
use native.Mathlib.Nat.{pow-suc, div-div-eq-div-mul}
use native.Mathlib.Omega.{arith}
use mathlib.Core.Path.{◌≡◌, refl, ap, sym, ◌∙◌}
use Prim.Native.Nat.{ℕ, zero, suc, ◌+◌, ◌-◌, ◌/◌, ◌%◌, ◌^◌, ◌<◌, min, max}
use c68k.Prelude.Bits.{bit_and_step, bit_or_step}
use c68k.Prelude.Tables.{all_below, all_below_sound}
use c68k.Prelude.Tests.{◌==◌, if◌then◌else◌, ltb, ltb→lt}

-- binary digit `k`
abbrev pub digit : ℕ → ℕ → ℕ
digit w k = w / 2 ^ k % 2

pub digit-suc : (w k : ℕ) → digit w (suc k) ≡ digit (w / 2) k
digit-suc w k =
    let shift : w / 2 ^ suc k ≡ w / 2 / 2 ^ k =
      ap (λ (p : ℕ). w / p) (pow-suc 2 k ∙ omega arith) ∙ sym (div-div-eq-div-mul w 2 (2 ^ k)) in
    ap (λ (q : ℕ). q % 2) shift

digit-zero : (w : ℕ) → digit w 0 ≡ w % 2
digit-zero w = omega arith

pub digit-bit_or : (k a b : ℕ) → digit (bit_or a b) k ≡ max (digit a k) (digit b k)
digit-bit_or zero a b = omega (arith, bit_or_step a b)
digit-bit_or (suc k) a b =
    let half : bit_or a b / 2 ≡ bit_or (a / 2) (b / 2) = omega (arith, bit_or_step a b) in
    omega (
      arith,
      digit-suc (bit_or a b) k,
      ap (λ (w : ℕ). digit w k) half,
      digit-bit_or k (a / 2) (b / 2),
      digit-suc a k,
      digit-suc b k,
    )

pub digit-bit_and : (k a b : ℕ) → digit (bit_and a b) k ≡ min (digit a k) (digit b k)
digit-bit_and zero a b = omega (arith, bit_and_step a b)
digit-bit_and (suc k) a b =
    let half : bit_and a b / 2 ≡ bit_and (a / 2) (b / 2) = omega (arith, bit_and_step a b) in
    omega (
      arith,
      digit-suc (bit_and a b) k,
      ap (λ (w : ℕ). digit w k) half,
      digit-bit_and k (a / 2) (b / 2),
      digit-suc a k,
      digit-suc b k,
    )

pub zero_digit : (k : ℕ) → digit 0 k ≡ 0
zero_digit zero = omega arith
zero_digit (suc k) = digit-suc 0 k ∙ ap (λ (w : ℕ). digit w k) (omega arith) ∙ zero_digit k

pub digit-pow : (j k : ℕ) → digit (2 ^ j) k ≡ (if j == k then 1 else 0)
digit-pow zero zero = omega arith
digit-pow zero (suc k) =
    digit-suc 1 k ∙ ap (λ (w : ℕ). digit w k) (omega arith) ∙ zero_digit k ∙ ground arith
digit-pow (suc j) zero = let next = pow-suc 2 j in ground arith
digit-pow (suc j) (suc k) =
    let half : 2 ^ suc j / 2 ≡ 2 ^ j = omega (arith, pow-suc 2 j) in
    digit-suc (2 ^ suc j) k ∙ ap (λ (w : ℕ). digit w k) half ∙ digit-pow j k ∙ ground arith

pub digit-complement : (n k m : ℕ) → k < n → m < 2 ^ n → digit (2 ^ n - 1 - m) k + digit m k ≡ 1
digit-complement zero k m h l = absurd (omega arith)
digit-complement (suc n) zero m h l = let next = pow-suc 2 n in omega arith
digit-complement (suc n) (suc k) m h l =
    let next = pow-suc 2 n in
    let half : (2 ^ suc n - 1 - m) / 2 ≡ 2 ^ n - 1 - m / 2 = omega arith in
    omega (
      arith,
      digit-suc (2 ^ suc n - 1 - m) k,
      ap (λ (w : ℕ). digit w k) half,
      digit-suc m k,
      digit-complement n k (m / 2) (omega arith) (omega arith),
    )

pub digit-lt : (w k : ℕ) → digit w k < 2
digit-lt w k = omega arith

pub pow_lt : (n : ℕ) → n < 32 → 2 ^ n < 2 ^ 32
unfolding all_below
pow_lt n h = ltb→lt (2 ^ n) (2 ^ 32) (all_below_sound 32 (λ (k : ℕ). ltb (2 ^ k) (2 ^ 32)) n refl h)
