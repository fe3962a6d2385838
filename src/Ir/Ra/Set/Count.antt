-- ===== src/Ir/Ra/Set/Count.antt =====
-- The members of a RaSet of src/ir68k.c, counted.
use Prim.Native.Nat.{bit_or}
use native.Mathlib.Nat.{pow-suc}
use c68k.Prelude.{
  ℕ, zero, suc, ◌+◌, ◌*◌, ◌/◌, ◌%◌, ◌^◌, ◌<◌, ◌≤◌, ◌≡◌, refl, ap, true, false, List, [], ◌∷◌,
  length, ◌==◌, arith,
}
use native.Mathlib.Decide.{dec_lt}
use c68k.Prelude.{◌∙◌, All, Bool-cases, inl, inr, ==_iff, ◌≢◌}
use c68k.Prelude.Bits.{bit_or_step, bit_or-lt}
use c68k.Ir.Ra.Set.{RaSet, ra_set_or}

-- the number of ones among the lowest `k` digits
unfoldable pub ones : ℕ → ℕ → ℕ
ones zero w = 0
ones (suc k) w = w % 2 + ones k (w / 2)

abbrev pub members : RaSet → ℕ
members [] = 0
members (w ∷ ws) = ones 32 w + members ws

ones-le : (k w : ℕ) → ones k w ≤ k
unfolding ones
ones-le zero w = omega arith
ones-le (suc k) w = omega (arith, ones-le k (w / 2))

-- A union has the digits of its first operand, and no more of them only if it is that operand.
ones-bit_or : (k a b : ℕ) → ones k a ≤ ones k (bit_or a b)
unfolding ones
ones-bit_or zero a b = omega arith
ones-bit_or (suc k) a b =
    let half : bit_or a b / 2 ≡ bit_or (a / 2) (b / 2) = omega (arith, bit_or_step a b) in
    omega (arith, bit_or_step a b, ap (ones k) half, ones-bit_or k (a / 2) (b / 2))

ones_same :
    (k a b : ℕ) → a < 2 ^ k → bit_or a b < 2 ^ k → ones k (bit_or a b) ≤ ones k a → bit_or a b ≡ a
unfolding ones
ones_same zero a b h l e = omega arith
ones_same (suc k) a b h l e =
    let next = pow-suc 2 k in
    let half : bit_or a b / 2 ≡ bit_or (a / 2) (b / 2) = omega (arith, bit_or_step a b) in
    let same = ap (ones k) half in
    let more = ones-bit_or k (a / 2) (b / 2) in
    let rest =
      ones_same k (a / 2) (b / 2) (omega arith) (omega (arith, bit_or_step a b))
        (omega (arith, bit_or_step a b)) in
    omega (arith, bit_or_step a b)

pub members-le : (s : RaSet) → members s ≤ 32 * length s
members-le [] = omega arith
members-le (w ∷ ws) = omega (arith, ones-le 32 w, members-le ws)

word_changed :
    (d s : ℕ) → d < 2 ^ 32 → s < 2 ^ 32 → bit_or d s ≢ d → ones 32 d < ones 32 (bit_or d s)
word_changed d s h k e = elim (dec_lt (ones 32 d) (ones 32 (bit_or d s))) [
  | yes more ↦ more
  | no same ↦ absurd (e (ones_same 32 d s h (bit_or-lt 32 d s h k) (omega (arith, same))))
]

-- what a union tells of whether it changed anything
pub members-or :
    (d s : RaSet)
    → length d ≡ length s
    → All (λ w. w < 2 ^ 32) d
    → All (λ w. w < 2 ^ 32) s
    → ((ra_set_or d s).0 ≡ true → members d < members (ra_set_or d s).1)
      × ((ra_set_or d s).0 ≡ false → (ra_set_or d s).1 ≡ d)
      × (members d ≤ members (ra_set_or d s).1)
unfolding ra_set_or
members-or [] [] e h k = (λ x. cc, λ x. refl, omega arith)
members-or [] (s ∷ ss) e h k = absurd (omega arith)
members-or (d ∷ ds) [] e h k = absurd (omega arith)
members-or (d ∷ ds) (s ∷ ss) e (h, hs) (k, ks) =
    let (more, same, le) = members-or ds ss (omega arith) hs ks in
    let grow = ones-bit_or 32 d s in
    elim (Bool-cases (bit_or d s == d)) [
      | inl eq ↦
          let word : bit_or d s ≡ d = (==_iff (bit_or d s) d).0 eq in
          let count = ap (ones 32) word in
          (
            λ x. let x' : (ra_set_or ds ss).0 ≡ true = ground arith in omega (arith, more x'),
            λ x.
                let x' : (ra_set_or ds ss).0 ≡ false = ground arith in
                ap (λ (v : ℕ). v ∷ (ra_set_or ds ss).1) word ∙ ap (λ (l : List ℕ). d ∷ l) (same x'),
            omega arith,
          )
      | inr neq ↦
          let grown = word_changed d s h k (λ w. ground arith) in
          (λ x. omega arith, λ x. ground arith, omega arith)
    ]
