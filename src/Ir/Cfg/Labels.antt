-- ===== src/Ir/Cfg/Labels.antt =====
-- Labels in src/ir68k.c: block_of_label, and the item that a branch goes to.
use Prim.Native.String.{String}
use native.Mathlib.Decide.{dec_lt}
use c68k.Prelude.{
  ℕ, zero, suc, ◌+◌, ◌-◌, ◌<◌, ◌≤◌, ◌≡◌, ◌⊎◌, refl, Bool, true, false, Option, none, some, List, [],
  ◌∷◌, length, get_elem?, Bool-cases, inl, inr, arith, if◌then◌else◌, ltb, ap,
}
use c68k.Ir.Items.{IrItem}
use c68k.Ir.Items.Run.{defines, find_label}
use c68k.Ir.Cfg.{IrBlock, label_in, block_of_label}
use c68k.Ir.Cfg.Blocks.{Tiles}

-- The number of the block that item `pc` is in, `b` being that of the first block of the list
abbrev pub block_at : ℕ → ℕ → List IrBlock → ℕ
block_at pc b [] = b
block_at pc b (k ∷ ks) = if ltb pc k.end then b else block_at pc (b + 1) ks

abbrev pub defines_at : List IrItem → Option String → ℕ → Bool
defines_at its name i = elim (get_elem? its i) [ none ↦ false | some it ↦ defines it name ]

-- Item `p` is the first one that defines the label.
abbrev pub IsFirst : List IrItem → Option String → ℕ → Type 0
IsFirst its name p =
    (defines_at its name p ≡ true) × ((j : ℕ) → j < p → defines_at its name j ≡ false)

label_in_none :
    (its : List IrItem) (name : Option String) (i n : ℕ)
    → ((j : ℕ) → i ≤ j → j < i + n → defines_at its name j ≡ false)
    → label_in its name i n ≡ false
unfolding label_in
label_in_none its name i zero h = refl
label_in_none its name i (suc n) h =
    rw (h i (omega arith) (omega arith))
      (label_in_none its name (i + 1) n (λ j lo hi. h j (omega arith) (omega arith)))

label_in_some :
    (its : List IrItem) (name : Option String) (i n p : ℕ)
    → i ≤ p
    → p < i + n
    → defines_at its name p ≡ true
    → label_in its name i n ≡ true
unfolding label_in
label_in_some its name i zero p lo hi d = absurd (omega arith)
label_in_some its name i (suc n) p lo hi d = elim (Bool-cases (defines_at its name i)) [
  | inl e ↦ rw e refl
  | inr e ↦ rw e (
      label_in_some its name (i + 1) n p
        (elim (dec_lt i p) [
          | yes lt ↦ omega arith
          | no ge ↦ let same : i ≡ p = omega arith in absurd (cc (rw same at e, d))
        ])
        (omega arith) d)
]

pub block_of_label-IsFirst :
    (its : List IrItem) (name : Option String) (b i n p : ℕ) (ks : List IrBlock)
    → Tiles i n ks
    → i ≤ p
    → p < n
    → IsFirst its name p
    → block_of_label its name b ks ≡ some (block_at p b ks)
unfolding block_of_label
block_of_label-IsFirst its name b i n p [] t lo hi f = absurd (omega arith)
block_of_label-IsFirst its name b i n p (k ∷ ks) (s, l, t) lo hi (d, before) =
    elim (dec_lt p k.end) [
      | yes lt ↦
          let here =
            label_in_some its name k.start (k.end - k.start) p (omega arith) (omega arith) d in
          ground arith
      | no ge ↦
          let absent =
            label_in_none its name k.start (k.end - k.start) (λ j lo hi. before j (omega arith)) in
          let later =
            block_of_label-IsFirst its name (b + 1) k.end n p ks t (omega arith) hi (d, before) in
          ground arith
    ]

-- find_label goes to the first definition.
pub find_label-IsFirst :
    (name : Option String) (i p : ℕ) (its : List IrItem)
    → IsFirst its name p
    → find_label name i its ≡ some (i + p)
unfolding find_label
find_label-IsFirst name i p [] (d, before) = absurd (cc d)
find_label-IsFirst name i zero (it ∷ its) (d, before) = rw d (ap some (omega arith))
find_label-IsFirst name i (suc p) (it ∷ its) (d, before) =
    let rest = find_label-IsFirst name (i + 1) p its (d, λ j h. before (suc j) (omega arith)) in
    let first = before 0 (omega arith) in rw (first, rest) (ap some (omega arith))

-- and it finds nothing where there is none.
pub find_label_cases :
    (name : Option String) (i : ℕ) (its : List IrItem)
    → ((p : ℕ) × (p < length its) × IsFirst its name p)
      ⊎ ((find_label name i its ≡ none) × ((j : ℕ) → defines_at its name j ≡ false))
unfolding find_label
find_label_cases name i [] = inr (refl, λ j. refl)
find_label_cases name i (it ∷ its) = elim (Bool-cases (defines it name)) [
  | inl e ↦ inl (0, omega arith, (e, λ j h. absurd (omega arith)))
  | inr e ↦ elim (find_label_cases name (i + 1) its) [
    | inl (p, lt, (d, before)) ↦ inl (
      suc p,
      omega arith,
      (
        d,
        λ j h.
            elim j as (λ j. j < suc p → defines_at (it ∷ its) name j ≡ false) [
              | zero ↦ λ h. e
              | suc j ↦ λ h. before j (omega arith)
            ]
              h,
      ),
    )
    | inr (nowhere, none_at) ↦ inr (
      rw (e, nowhere) refl,
      λ j. elim j as (λ j. defines_at (it ∷ its) name j ≡ false) [ zero ↦ e | suc j ↦ none_at j ],
    )
  ]
]

pub find_label_absent :
    (name : Option String) (i : ℕ) (its : List IrItem)
    → ((j : ℕ) → defines_at its name j ≡ false)
    → find_label name i its ≡ none
unfolding find_label
find_label_absent name i [] h = refl
find_label_absent name i (it ∷ its) h =
    let rest = find_label_absent name (i + 1) its (λ j. h (suc j)) in rw (h 0, rest) refl
