-- ===== src/Ir/Select/Powers.antt =====
-- Arithmetic behind the constant tiles of src/ir68k.c: is_pow2_32 and ctz32, masks, and the shifts that
-- stand for a multiplication or division by a power of two.
use Prim.Native.Nat.{bit_and}
use native.Mathlib.Nat.{
  pow-suc, div-add-mod, div-div-eq-div-mul, mul-add-div_right, mod-lt, div-lt_iff_lt-mul,
  le-div_iff_mul-le, div-eq_of_lt,
}
use c68k.Prelude.{
  ℕ, zero, suc, ◌+◌, ◌-◌, ◌*◌, ◌/◌, ◌%◌, ◌^◌, ◌<◌, ◌≤◌, ◌≡◌, ◌≢◌, refl, sym, ap, ◌∙◌, true, ltb,
  leb, ◌==◌, if◌then◌else◌, arith, inl, inr, Bool-cases, ==_iff, leb→le,
}
use mathlib.Core.Path.{subst}
use c68k.Prelude.Bits.{bit_and_step, zero-bit_and, bit_and-zero}
use c68k.Prelude.Tables.{all_below, all_below_sound, agree_below}
use c68k.Prelude.Word.{IsWord, is_neg, neg32, sdiv32, smod32, sra32}
use c68k.Ir.Select.{is_pow2_32, ctz_loop, ctz32}

bit_and_self : (k x : ℕ) → x < 2 ^ k → bit_and x x ≡ x
bit_and_self zero x h = ground (arith, zero-bit_and x)
bit_and_self (suc k) x h =
    let next = pow-suc 2 k in ground (arith, bit_and_step x x, bit_and_self k (x / 2) (omega arith))

-- A number that shares no digit with its predecessor is a power of two, and the loop counts its zeros.
ctz_loop-pow :
    (fuel v n : ℕ)
    → v < 2 ^ fuel
    → v ≢ 0
    → bit_and v (v - 1) ≡ 0
    → (t : ℕ) × (t < fuel) × (v ≡ 2 ^ t) × (ctz_loop fuel v n ≡ n + t)
unfolding ctz_loop
ctz_loop-pow zero v n h nz e = absurd (omega arith)
ctz_loop-pow (suc fuel) v n h nz e =
    let next = pow-suc 2 fuel in
    let step = bit_and_step v (v - 1) in
    elim (Bool-cases (v % 2 == 0)) [
      | inl even ↦
          let half : (v - 1) / 2 ≡ v / 2 - 1 = ground arith in
          let rest =
            ctz_loop-pow fuel (v / 2) (n + 1) (omega arith) (ground arith)
              (omega (arith, step, ap (bit_and (v / 2)) half)) in
          let twice = pow-suc 2 rest.0 in
          (suc rest.0, ground (arith, rest), ground (arith, rest), rw even (ground (arith, rest)))
      | inr odd ↦
          let half : (v - 1) / 2 ≡ v / 2 = ground arith in
          let same = bit_and_self fuel (v / 2) (omega arith) in
          let none : v / 2 ≡ 0 = omega (arith, step, ap (bit_and (v / 2)) half, same) in
          (0, omega arith, ground arith, rw odd (omega arith))
    ]

pub is_pow2-ctz : (c : ℕ) → IsWord c → is_pow2_32 c ≡ true → (c ≡ 2 ^ ctz32 c) × (ctz32 c ≤ 31)
unfolding is_pow2_32 ctz32
is_pow2-ctz c h p =
    let (t, lt, e, e') = ctz_loop-pow 32 c 0 h (ground arith) (ground arith) in
    let count : ctz_loop 32 c 0 ≡ t = omega arith in
    (e ∙ ap (λ (k : ℕ). 2 ^ k) (sym count), omega arith)

-- the two's-complement facts of a shift count
pub powers : (n : ℕ) → n ≤ 31 → 2 ^ (32 - n) * 2 ^ n ≡ 2 ^ 32
unfolding all_below
powers n h =
    agree_below 32 (λ (k : ℕ). 2 ^ (32 - k) * 2 ^ k) (λ (k : ℕ). 2 ^ 32) refl n (omega arith)

pub power_pos : (n : ℕ) → 0 < 2 ^ n
power_pos zero = omega arith
power_pos (suc n) = let next = pow-suc 2 n in omega (arith, power_pos n)

-- Low digits as a remainder
mod_twice : (a p : ℕ) → a % (2 * p) ≡ a / 2 % p * 2 + a % 2
mod_twice a p =
    let whole = div-add-mod a (2 * p) in
    let half = div-add-mod (a / 2) p in
    let same = div-div-eq-div-mul a 2 p in
    let regroup : (2 * p) * (a / (2 * p)) ≡ 2 * (p * (a / 2 / p)) = rw same (grind arith) in
    omega arith

pub bit_and-mask : (k a : ℕ) → bit_and a (2 ^ k - 1) ≡ a % 2 ^ k
bit_and-mask zero a = ground (arith, bit_and-zero a)
bit_and-mask (suc k) a =
    let next = pow-suc 2 k in
    let pos = power_pos k in
    let half : (2 ^ suc k - 1) / 2 ≡ 2 ^ k - 1 = omega arith in
    let same : 2 * 2 ^ k ≡ 2 ^ suc k = omega arith in
    let twice = subst (λ (p : ℕ). a % p ≡ a / 2 % 2 ^ k * 2 + a % 2) same (mod_twice a (2 ^ k)) in
    let step = bit_and_step a (2 ^ suc k - 1) in
    let rest = ap (bit_and (a / 2)) half ∙ bit_and-mask k (a / 2) in ground arith

pow_le : (k : ℕ) → k ≤ 30 → 2 ^ k ≤ 0x40000000
unfolding all_below
pow_le k h =
    leb→le (2 ^ k) 0x40000000
      (all_below_sound 31 (λ (k : ℕ). leb (2 ^ k) 0x40000000) k refl (omega arith))

-- The shift of a negative word -M with M at least p = 2 ^ k: 2 ^ 32 is d * p.
negative_shift :
    (M p d : ℕ)
    → d * p ≡ 2 ^ 32
    → 0 < p
    → p ≤ M
    → M ≤ 0x80000000
    → (2 ^ 32 - M + (p - 1)) / p ≡ d - M / p
negative_shift M p d e pos le hi =
    let whole = div-add-mod M p in
    let below = mod-lt M pos in
    let fits = (div-lt_iff_lt-mul {k = p} {x = M} {y = d} pos).1 (omega arith) in
    let t = d - M / p in
    let split : d ≡ t + M / p = omega arith in
    let product : d * p ≡ t * p + p * (M / p) = ap (λ (n : ℕ). n * p) split ∙ (grind arith) in
    let sum : 2 ^ 32 - M + (p - 1) ≡ t * p + (p - 1 - M % p) = omega arith in
    let rest : (p - 1 - M % p) / p ≡ 0 = div-eq_of_lt (omega arith) in
    ap (λ (n : ℕ). n / p) sum ∙ mul-add-div_right pos t (p - 1 - M % p) ∙ omega arith

mul_le : (d p : ℕ) → 0 < p → d * 1 ≤ d * p
mul_le d zero h = absurd (omega arith)
mul_le d (suc q) h = let product : d * suc q ≡ d * q + d = grind arith in omega arith

-- Division of a word by a power of two, read as a signed number, is a shift once 2 ^ k - 1 is added to a
-- negative one.
pub sdiv32-shift :
    (a k : ℕ)
    → IsWord a
    → 1 ≤ k
    → k ≤ 30
    → sra32 (if is_neg a then (a + (2 ^ k - 1)) % 2 ^ 32 else a) k ≡ sdiv32 a (2 ^ k)
sdiv32-shift a k h lo hi =
    let small = pow_le k hi in
    let pos = power_pos k in
    let two = power_pos (32 - k) in
    let whole = powers k (omega arith) in
    elim (Bool-cases (is_neg a)) [
      | inl n ↦ elim (Bool-cases (ltb (2 ^ 32 - a) (2 ^ k))) [
        | inl less ↦
            let sum : (a + (2 ^ k - 1)) % 2 ^ 32 ≡ a + (2 ^ k - 1) - 2 ^ 32 = ground arith in
            let none = div-eq_of_lt {n = 2 ^ 32 - a} {m = 2 ^ k} (ground arith) in
            let low = div-eq_of_lt {n = a + (2 ^ k - 1) - 2 ^ 32} {m = 2 ^ k} (omega arith) in
            rw (n, sum) (ground arith)
        | inr more ↦
            let sum : (a + (2 ^ k - 1)) % 2 ^ 32 ≡ 2 ^ 32 - (2 ^ 32 - a) + (2 ^ k - 1) =
              ground arith in
            let quotient =
              negative_shift (2 ^ 32 - a) (2 ^ k) (2 ^ (32 - k)) whole pos (ground arith)
                (ground arith) in
            let bound =
              (div-lt_iff_lt-mul {k = 2 ^ k} {x = 2 ^ 32 - a} {y = 2 ^ (32 - k)} pos).1
                (ground arith) in
            let some_left =
              (le-div_iff_mul-le {k = 2 ^ k} {x = 1} {y = 2 ^ 32 - a} pos).1 (ground arith) in
            let top : 2 ^ (32 - k) * 1 ≤ 2 ^ (32 - k) * 2 ^ k = mul_le (2 ^ (32 - k)) (2 ^ k) pos in
            rw (n, sum) (ground arith)
      ]
      | inr n ↦ rw n (ground arith)
    ]

pub smod32-mask :
    (a k : ℕ)
    → IsWord a
    → k ≤ 30
    → (if is_neg a then neg32 (bit_and (neg32 a) (2 ^ k - 1)) else bit_and a (2 ^ k - 1))
      ≡ smod32 a (2 ^ k)
smod32-mask a k h hi =
    let small = pow_le k hi in
    let pos = power_pos k in ground (arith, bit_and-mask k (neg32 a), bit_and-mask k a)

pub shift_add : (a p : ℕ) → (a * p % 2 ^ 32 + a) % 2 ^ 32 ≡ a * (p + 1) % 2 ^ 32
shift_add a p = let product : a * (p + 1) ≡ a * p + a = grind arith in omega arith

pub shift_sub :
    (a p : ℕ) → IsWord a → 0 < p → (a * p % 2 ^ 32 + 2 ^ 32 - a) % 2 ^ 32 ≡ a * (p - 1) % 2 ^ 32
shift_sub a zero h pos = absurd (omega arith)
shift_sub a (suc q) h pos =
    let product : a * suc q ≡ a * q + a = grind arith in
    let result : (a * suc q % 2 ^ 32 + 2 ^ 32 - a) % 2 ^ 32 ≡ a * q % 2 ^ 32 = omega arith in
    result ∙ ap (λ (t : ℕ). a * t % 2 ^ 32) (omega arith)

pub pow_range : (c k : ℕ) → c ≡ 2 ^ k → k ≤ 31 → 2 ≤ c → c < 0x80000000 → (1 ≤ k) × (k ≤ 30)
pow_range c zero e h lo hi = absurd (omega arith)
pow_range c (suc k) e h lo hi = elim (Bool-cases (k == 30)) [
  | inl top ↦ absurd (omega (arith, e ∙ ap (λ (n : ℕ). 2 ^ suc n) ((==_iff k 30).0 top)))
  | inr below ↦ ground arith
]

pub is_pow2-ne_zero : (c : ℕ) → is_pow2_32 c ≡ true → c ≢ 0
unfolding is_pow2_32
is_pow2-ne_zero c p e = ground arith
