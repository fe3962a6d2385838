-- ===== src/Ir/Asm/Fresh.antt =====
-- The labels that emitted lines define: their numbers lie between the values of the counter before and
-- behind, so the codes of two expressions never share a label.
use c68k.Prelude.{
  ℕ, ◌+◌, ◌≤◌, ◌<◌, ◌≡◌, refl, Bool, true, false, ◌⊎◌, Option, none, some, List, [], ◌∷◌, ◌++◌,
  arith, if◌then◌else◌,
}
use c68k.Ir.Asm.{
  Family, Family-discrete, Label, numbered, named, same_family, same_label, Insn, def_label, Emit,
  emit, silent, with_uid, ◌>>◌, or_else,
}

-- The label's number is not in the range; an item's label has none.
abbrev pub Outside : Label → ℕ → ℕ → Type 0
Outside (numbered f n) lo hi = (n < lo) ⊎ (hi ≤ n)
Outside (named s) lo hi = Unit

abbrev pub InRange : ℕ → ℕ → Label → Type 0
InRange lo hi (numbered f n) = (lo ≤ n) × (n < hi)
InRange lo hi (named s) = ⊥

abbrev pub DefinedIn : ℕ → ℕ → Insn → Type 0
DefinedIn lo hi (def_label l) = InRange lo hi l
DefinedIn lo hi _ = Unit

abbrev pub Within : ℕ → ℕ → List Insn → Type 0
Within lo hi [] = Unit
Within lo hi (i ∷ code) = DefinedIn lo hi i × Within lo hi code

InRange-mono :
    (lo hi lo' hi' : ℕ) (l : Label) → lo' ≤ lo → hi ≤ hi' → InRange lo hi l → InRange lo' hi' l
InRange-mono lo hi lo' hi' (numbered f n) p q h = omega arith
InRange-mono lo hi lo' hi' (named s) p q h = h

DefinedIn-mono :
    (lo hi lo' hi' : ℕ) (i : Insn) → lo' ≤ lo → hi ≤ hi' → DefinedIn lo hi i → DefinedIn lo' hi' i
DefinedIn-mono lo hi lo' hi' (def_label l) p q h = InRange-mono lo hi lo' hi' l p q h
DefinedIn-mono lo hi lo' hi' _ p q h = tt

pub Within-mono :
    (lo hi lo' hi' : ℕ) (code : List Insn)
    → lo' ≤ lo
    → hi ≤ hi'
    → Within lo hi code
    → Within lo' hi' code
Within-mono lo hi lo' hi' [] p q h = tt
Within-mono lo hi lo' hi' (i ∷ code) p q h =
    (DefinedIn-mono lo hi lo' hi' i p q h.0, Within-mono lo hi lo' hi' code p q h.1)

pub Within-append :
    (lo hi : ℕ) (xs ys : List Insn) → Within lo hi xs → Within lo hi ys → Within lo hi (xs ++ ys)
Within-append lo hi [] ys h k = k
Within-append lo hi (x ∷ xs) ys h k = (h.0, Within-append lo hi xs ys h.1 k)

-- Emission from the counter `n` on defines labels with numbers that it has taken from the counter.
pub record Fresh (x : Emit) : Type 0 where
  pub grows : (n : ℕ) → n ≤ (x n).1
  pub within : (n : ℕ) → Within n (x n).1 (x n).0

-- The same, with the number `k`, taken before, as one of its own.
pub record Owns (k : ℕ) (x : Emit) : Type 0 where
  pub grows : (n : ℕ) → k < n → n ≤ (x n).1
  pub within : (n : ℕ) → k < n → Within k (x n).1 (x n).0

pub data FreshOption : Option Emit → Type 0 where
  skipped : FreshOption none
  emitted : {x : Emit} → Fresh x → FreshOption (some x)

abbrev pub IsPlain : Insn → Type 0
IsPlain (def_label l) = ⊥
IsPlain _ = Unit

plain_DefinedIn : (lo hi : ℕ) (i : Insn) → IsPlain i → DefinedIn lo hi i
plain_DefinedIn lo hi (def_label l) h = absurd h
plain_DefinedIn lo hi _ h = tt

pub Fresh-silent : Fresh silent
unfolding silent
Fresh-silent = record { grows = λ n. omega arith; within = λ n. tt }

pub Fresh-emit : (i : Insn) → IsPlain i → Fresh (emit i)
unfolding emit
Fresh-emit i h = record { grows = λ n. omega arith; within = λ n. (plain_DefinedIn n n i h, tt) }

pub Fresh-seq : {x y : Emit} → Fresh x → Fresh y → Fresh (do x; y)
unfolding ◌>>◌
Fresh-seq {x} {y} hx hy = record {
  grows = λ n. omega (arith, hx.grows n, hy.grows (x n).1);
  within = λ n.
      let n' = (x n).1 in
      let end = (y n').1 in
      Within-append n end _ _ (Within-mono n n' n end _ (omega arith) (hy.grows n') (hx.within n))
        (Within-mono n' end n end _ (hx.grows n) (omega arith) (hy.within n'));
}

pub Owns-Fresh : {k : ℕ} {x : Emit} → Fresh x → Owns k x
Owns-Fresh {k} {x} h = record {
  grows = λ n lt. h.grows n;
  within = λ n lt. Within-mono n (x n).1 k (x n).1 _ (omega arith) (omega arith) (h.within n);
}

pub Owns-label : (k : ℕ) (f : Family) → Owns k (emit (def_label (numbered f k)))
unfolding emit
Owns-label k f = record { grows = λ n lt. omega arith; within = λ n lt. ((omega arith, lt), tt) }

pub Owns-seq : {k : ℕ} {x y : Emit} → Owns k x → Owns k y → Owns k (do x; y)
unfolding ◌>>◌
Owns-seq {k} {x} {y} hx hy = record {
  grows = λ n lt. omega (arith, hx.grows n lt, hy.grows (x n).1);
  within = λ n lt.
      let n' = (x n).1 in
      let end = (y n').1 in
      let up = hx.grows n lt in
      Within-append k end _ _
        (Within-mono k n' k end _ (omega arith) (hy.grows n' (omega arith)) (hx.within n lt))
        (hy.within n' (omega arith));
}

pub Fresh-with_uid : {f : ℕ → Emit} → ((k : ℕ) → Owns k (f k)) → Fresh (with_uid f)
unfolding with_uid
Fresh-with_uid h = record {
  grows = λ n. omega (arith, (h n).grows (n + 1));
  within = λ n. (h n).within (n + 1) (omega arith);
}

pub Fresh-if : (b : Bool) {x y : Emit} → Fresh x → Fresh y → Fresh (if b then x else y)
Fresh-if true hx hy = hx
Fresh-if false hx hy = hy

pub FreshOption-if :
    (b : Bool) {x y : Option Emit}
    → FreshOption x
    → FreshOption y
    → FreshOption (if b then x else y)
FreshOption-if true hx hy = hx
FreshOption-if false hx hy = hy

pub Fresh-or_else : {x : Option Emit} {y : Emit} → FreshOption x → Fresh y → Fresh (or_else x y)
Fresh-or_else skipped hy = hy
Fresh-or_else (emitted hx) hy = hx

pub ruleset parts =
    (Fresh-silent, Fresh-emit, Fresh-seq, Fresh-if, FreshOption-if, skipped, emitted, tt)

pub ruleset numbered_parts = (Fresh-with_uid, Owns-seq, Owns-label, Owns-Fresh)

-- a label of an item, or of a number that the counter has passed
abbrev pub Below : Label → ℕ → Type 0
Below (numbered f k) n = k < n
Below (named s) n = Unit

pub Below-mono : (l : Label) (n n' : ℕ) → n ≤ n' → Below l n → Below l n'
Below-mono (numbered f k) n n' le h = omega arith
Below-mono (named s) n n' le h = tt

pub Below-Outside : (l : Label) (n hi : ℕ) → Below l n → Outside l n hi
Below-Outside (numbered f k) n hi h = omega arith
Below-Outside (named s) n hi h = tt

pub same_family_self : (f : Family) → same_family f f ≡ true
unfolding same_family
same_family_self f =
    elim (Family-discrete f f) as (λ d. elim d [ yes _ ↦ true | no _ ↦ false ] ≡ true) [
      | yes _ ↦ refl
      | no n ↦ absurd (n refl)
    ]

pub same_label_self : (f : Family) (n : ℕ) → same_label (numbered f n) (numbered f n) ≡ true
unfolding same_label
same_label_self f n = ground (arith, same_family_self f)

-- A label of other numbers is none of these.
pub same_label-Outside :
    (lo hi : ℕ) (l goal : Label) → InRange lo hi l → Outside goal lo hi → same_label l goal ≡ false
unfolding same_label
same_label-Outside lo hi (numbered f n) (numbered g k) h o = ground arith
same_label-Outside lo hi (numbered f n) (named s) h o = refl
same_label-Outside lo hi (named s) goal h o = absurd h
