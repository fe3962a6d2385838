-- ===== src/Prelude/Bits.antt =====
-- The bit operations at variables: units, absorbing elements and low masks, by the recursion on
-- binary digits that the native operations stand for.
use Prim.Native.Nat.{digits, bitwise, bit_and-bitwise, bit_or-bitwise, bit_xor-bitwise}
use Prim.Native.Nat.{
  ℕ, zero, suc, ◌+◌, ◌-◌, ◌*◌, ◌/◌, ◌%◌, ◌^◌, ◌≤◌, ◌<◌, min, max, bit_and, bit_or, bit_xor, differ,
}
use mathlib.Core.Path.{◌≡◌, refl, ap, sym, subst, ◌∙◌}
use native.Mathlib.Nat.{pow-suc}
use native.Mathlib.Omega.{arith}

differ-zero : (y : ℕ) → differ 0 y ≡ y
differ-zero y = refl

differ_zero : (x : ℕ) → differ x 0 ≡ x
differ_zero zero = refl
differ_zero (suc x) = refl

differ-lt : (x y : ℕ) → x < 2 → y < 2 → differ x y < 2
differ-lt zero y h k = k
differ-lt (suc zero) zero h k = h
differ-lt (suc zero) (suc zero) h k = omega arith
differ-lt (suc zero) (suc (suc y)) h k = absurd (omega arith)
differ-lt (suc (suc x)) y h k = absurd (omega arith)

-- An operation on binary digits: what it does once its first operand has run out (`z`), and to a
-- pair of digits (`f`).
module _ (z : ℕ → ℕ) (f : ℕ → ℕ → ℕ) (op : ℕ → ℕ → ℕ)
    (means : (x y : ℕ) → op x y ≡ bitwise z f x y) where
  one_round_more : (r x y : ℕ) → x ≤ r → digits z f (suc r) x y ≡ digits z f r x y
  one_round_more zero zero y le = refl
  one_round_more (suc r) zero y le = refl
  one_round_more zero (suc x) y le = absurd (omega arith)
  one_round_more (suc r) (suc x) y le =
      ap (λ t. t * 2 + f (suc x % 2) (y % 2)) (one_round_more r (suc x / 2) (y / 2) (omega arith))

  spare_rounds : (d x y : ℕ) → digits z f (d + x) x y ≡ op x y
  spare_rounds zero x y = ap (λ (r : ℕ). digits z f r x y) (omega arith) ∙ sym (means x y)
  spare_rounds (suc d) x y =
      let next : suc d + x ≡ suc (d + x) = omega arith in
      ap (λ (r : ℕ). digits z f r x y) next
      ∙ one_round_more (d + x) x y (omega arith)
      ∙ spare_rounds d x y

  digit_law : (x y : ℕ) → op (suc x) y ≡ op (suc x / 2) (y / 2) * 2 + f (suc x % 2) (y % 2)
  digit_law x y =
      let h = suc x / 2 in
      let rounds : (x - h) + h ≡ x = omega arith in
      let inner =
        subst (λ r. digits z f r h (y / 2) ≡ op h (y / 2)) rounds
          (spare_rounds (x - h) h (y / 2)) in
      means (suc x) y ∙ ap (λ t. t * 2 + f (suc x % 2) (y % 2)) inner

  -- where a zero on the right changes no digit, it changes no number
  right_unit : ((x : ℕ) → f x 0 ≡ x) → z 0 ≡ 0 → (r x : ℕ) → x ≤ r → digits z f r x 0 ≡ x
  right_unit unit none zero x le = none ∙ omega arith
  right_unit unit none (suc r) zero le = none
  right_unit unit none (suc r) (suc x) le =
      omega (arith, right_unit unit none r (suc x / 2) (omega arith), unit (suc x % 2))

-- The lowest digit of a result, and the rest of it
pub bit_and_step : (x y : ℕ) → bit_and x y ≡ bit_and (x / 2) (y / 2) * 2 + min (x % 2) (y % 2)
bit_and_step zero y = ground (arith, bit_and-bitwise 0 y, bit_and-bitwise 0 (y / 2))
bit_and_step (suc x) y = digit_law (λ _. 0) min bit_and (λ a b. bit_and-bitwise a b) x y

pub bit_or_step : (x y : ℕ) → bit_or x y ≡ bit_or (x / 2) (y / 2) * 2 + max (x % 2) (y % 2)
bit_or_step zero y = ground (arith, bit_or-bitwise 0 y, bit_or-bitwise 0 (y / 2))
bit_or_step (suc x) y = digit_law (λ t. t) max bit_or (λ a b. bit_or-bitwise a b) x y

pub bit_xor_step : (x y : ℕ) → bit_xor x y ≡ bit_xor (x / 2) (y / 2) * 2 + differ (x % 2) (y % 2)
bit_xor_step zero y =
    ground (arith, bit_xor-bitwise 0 y, bit_xor-bitwise 0 (y / 2), differ-zero (y % 2))
bit_xor_step (suc x) y = digit_law (λ t. t) differ bit_xor (λ a b. bit_xor-bitwise a b) x y

pub zero-bit_and : (b : ℕ) → bit_and 0 b ≡ 0
zero-bit_and b = bit_and-bitwise 0 b

pub zero-bit_or : (b : ℕ) → bit_or 0 b ≡ b
zero-bit_or b = bit_or-bitwise 0 b

pub zero-bit_xor : (b : ℕ) → bit_xor 0 b ≡ b
zero-bit_xor b = bit_xor-bitwise 0 b

and_round : (r x : ℕ) → x ≤ r → digits (λ _. 0) min r x 0 ≡ 0
and_round zero x le = refl
and_round (suc r) zero le = refl
and_round (suc r) (suc x) le = omega (arith, and_round r (suc x / 2) (omega arith))

pub bit_and-zero : (x : ℕ) → bit_and x 0 ≡ 0
bit_and-zero x = bit_and-bitwise x 0 ∙ and_round x x (omega arith)

max_zero : (x : ℕ) → max x 0 ≡ x
max_zero x = omega arith

pub bit_or-zero : (x : ℕ) → bit_or x 0 ≡ x
bit_or-zero x =
    bit_or-bitwise x 0
    ∙ right_unit (λ t. t) max bit_or (λ a b. bit_or-bitwise a b) max_zero refl x x (omega arith)

pub bit_xor-zero : (x : ℕ) → bit_xor x 0 ≡ x
bit_xor-zero x =
    bit_xor-bitwise x 0
    ∙ right_unit (λ t. t) differ bit_xor (λ a b. bit_xor-bitwise a b) differ_zero refl x x
        (omega arith)

-- `2 ^ k - 1`, by digits
abbrev ones : ℕ → ℕ
ones zero = 0
ones (suc k) = ones k * 2 + 1

bit_and-ones : (k a : ℕ) → a < 2 ^ k → bit_and a (ones k) ≡ a
bit_and-ones zero a h = ground (arith, bit_and-zero a)
bit_and-ones (suc k) a h =
    let next = pow-suc 2 k in
    let half : (ones k * 2 + 1) / 2 ≡ ones k = omega arith in
    let step = rw half at (bit_and_step a (ones k * 2 + 1)) in
    omega (arith, step, bit_and-ones k (a / 2) (omega arith))

ones-bit_and : (k a : ℕ) → a < 2 ^ k → bit_and (ones k) a ≡ a
ones-bit_and zero a h = ground (arith, zero-bit_and a)
ones-bit_and (suc k) a h =
    let next = pow-suc 2 k in
    let half : (ones k * 2 + 1) / 2 ≡ ones k = omega arith in
    let step = rw half at (bit_and_step (ones k * 2 + 1) a) in
    omega (arith, step, ones-bit_and k (a / 2) (omega arith))

-- The all-ones word is the unit of `&`.
pub bit_and-all_ones : (a : ℕ) → a < 2 ^ 32 → bit_and a 0xffffffff ≡ a
bit_and-all_ones = bit_and-ones 32

pub all_ones-bit_and : (a : ℕ) → a < 2 ^ 32 → bit_and 0xffffffff a ≡ a
all_ones-bit_and = ones-bit_and 32

-- The results of words are words.
pub bit_and-lt : (k a b : ℕ) → a < 2 ^ k → bit_and a b < 2 ^ k
bit_and-lt zero a b h = ground (arith, zero-bit_and b)
bit_and-lt (suc k) a b h =
    let next = pow-suc 2 k in
    omega (arith, bit_and_step a b, bit_and-lt k (a / 2) (b / 2) (omega arith))

pub bit_or-lt : (k a b : ℕ) → a < 2 ^ k → b < 2 ^ k → bit_or a b < 2 ^ k
bit_or-lt zero a b h h' = ground (arith, zero-bit_or b)
bit_or-lt (suc k) a b h h' =
    let next = pow-suc 2 k in
    omega (arith, bit_or_step a b, bit_or-lt k (a / 2) (b / 2) (omega arith) (omega arith))

pub bit_xor-lt : (k a b : ℕ) → a < 2 ^ k → b < 2 ^ k → bit_xor a b < 2 ^ k
bit_xor-lt zero a b h h' = ground (arith, zero-bit_xor b)
bit_xor-lt (suc k) a b h h' =
    let next = pow-suc 2 k in
    omega (
      arith,
      bit_xor_step a b,
      differ-lt (a % 2) (b % 2) (omega arith) (omega arith),
      bit_xor-lt k (a / 2) (b / 2) (omega arith) (omega arith),
    )

-- A number below `2 ^ k` only fills in the `k` digits that a shift to the left leaves free.
pub bit_or_shifted : (k q r : ℕ) → r < 2 ^ k → bit_or (q * 2 ^ k) r ≡ q * 2 ^ k + r
bit_or_shifted zero q r small = ground (arith, bit_or-zero q)
bit_or_shifted (suc k) q r small =
    let next = pow-suc 2 k in
    let halved = bit_or_shifted k q (r / 2) (omega arith) in
    let twice : q * 2 ^ suc k ≡ q * 2 ^ k * 2 = omega (arith, ap (λ (t : ℕ). q * t) next) in
    ground (arith, bit_or_step (q * 2 ^ suc k) r)

-- `a & 0x3f`
pub bit_and_63 : (a : ℕ) → bit_and a 63 ≡ a % 64
bit_and_63 a = omega (
  arith,
  bit_and_step a 63,
  bit_and_step (a / 2) 31,
  bit_and_step (a / 2 / 2) 15,
  bit_and_step (a / 2 / 2 / 2) 7,
  bit_and_step (a / 2 / 2 / 2 / 2) 3,
  bit_and_step (a / 2 / 2 / 2 / 2 / 2) 1,
  bit_and-zero (a / 2 / 2 / 2 / 2 / 2 / 2),
)

differ_comm : (x y : ℕ) → x < 2 → y < 2 → differ x y ≡ differ y x
differ_comm zero zero h k = refl
differ_comm zero (suc zero) h k = refl
differ_comm (suc zero) zero h k = refl
differ_comm (suc zero) (suc zero) h k = refl
differ_comm (suc (suc x)) y h k = absurd (omega arith)
differ_comm zero (suc (suc y)) h k = absurd (omega arith)
differ_comm (suc zero) (suc (suc y)) h k = absurd (omega arith)

comm_fuel :
    (n a b : ℕ)
    → a ≤ n
    → b ≤ n
    → (bit_and a b ≡ bit_and b a) × (bit_or a b ≡ bit_or b a) × (bit_xor a b ≡ bit_xor b a)
comm_fuel zero a b h k =
    let a0 : a ≡ 0 = omega arith in let b0 : b ≡ 0 = omega arith in rw (a0, b0) (refl, refl, refl)
comm_fuel (suc n) a b h k =
    let (ands, ors, xors) = comm_fuel n (a / 2) (b / 2) (omega arith) (omega arith) in
    (
      omega (arith, ands, bit_and_step a b, bit_and_step b a),
      omega (arith, ors, bit_or_step a b, bit_or_step b a),
      omega (
        arith,
        xors,
        bit_xor_step a b,
        bit_xor_step b a,
        differ_comm (a % 2) (b % 2) (omega arith) (omega arith),
      ),
    )

pub bit_ops_comm :
    (a b : ℕ)
    → (bit_and a b ≡ bit_and b a) × (bit_or a b ≡ bit_or b a) × (bit_xor a b ≡ bit_xor b a)
bit_ops_comm a b = comm_fuel (a + b) a b (omega arith) (omega arith)

-- `a & 0x7f`
pub bit_and_127 : (a : ℕ) → bit_and a 127 ≡ a % 128
bit_and_127 a = omega (arith, bit_and_step a 127, bit_and_63 (a / 2))
