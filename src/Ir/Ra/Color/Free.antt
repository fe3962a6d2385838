-- ===== src/Ir/Ra/Color/Free.antt =====
-- The choice of a register in ra_color_global of src/ir68k.c: `used` and the search of the pool.
use mathlib.Core.Path.{subst}
use c68k.Prelude.{
  ℕ, zero, suc, ◌<◌, ◌≡◌, ◌≢◌, refl, ap, ◌∙◌, Bool, true, false, not, ◌&&◌, List, [], ◌∷◌, length,
  get_or, set, length-set, ◌⊎◌, inl, inr, ◌==◌, if◌then◌else◌, Bool-cases, arith,
}
use c68k.Ir.Cfg.Visit.{In}
use c68k.Ir.Ra.Liveness.{Conf}
use c68k.Ir.Ra.Color.{ra_interfere, used_loop, choose_loop}

-- Setting entries of `used` sets no entry back.
pub get_or-set_same {ℓ} :
    {A : Type ℓ} (l : List A) (i : ℕ) (x d : A) → i < length l → get_or (set l i x) i d ≡ x
get_or-set_same [] i x d h = absurd (omega arith)
get_or-set_same (y ∷ l) zero x d h = refl
get_or-set_same (y ∷ l) (suc i) x d h = get_or-set_same l i x d (omega arith)

pub get_or-set_other {ℓ} :
    {A : Type ℓ} (l : List A) (i j : ℕ) (x d : A) → i ≢ j → get_or (set l i x) j d ≡ get_or l j d
get_or-set_other [] i j x d h = refl
get_or-set_other (y ∷ l) zero zero x d h = absurd (h refl)
get_or-set_other (y ∷ l) zero (suc j) x d h = refl
get_or-set_other (y ∷ l) (suc i) zero x d h = refl
get_or-set_other (y ∷ l) (suc i) (suc j) x d h = get_or-set_other l i j x d (λ e. h (ap suc e))

set-keeps :
    (used : List Bool) (i j : ℕ)
    → get_or used j false ≡ true
    → get_or (set used i true) j false ≡ true
set-keeps [] i j h = h
set-keeps (u ∷ used) zero zero h = refl
set-keeps (u ∷ used) zero (suc j) h = h
set-keeps (u ∷ used) (suc i) zero h = h
set-keeps (u ∷ used) (suc i) (suc j) h = set-keeps used i j h

used_loop-keeps :
    (conf : Conf) (ci j : ℕ) (done reg : List ℕ) (used : List Bool)
    → get_or used j false ≡ true
    → get_or (used_loop conf ci done reg used) j false ≡ true
unfolding used_loop
used_loop-keeps conf ci j [] reg used h = h
used_loop-keeps conf ci j (cj ∷ done) reg used h =
    elim (Bool-cases (not (get_or reg cj 0 == 0) && ra_interfere conf ci cj)) [
      | inl e ↦
          rw (e, used_loop)
            (used_loop-keeps conf ci j done reg (set used (get_or reg cj 0) true)
              (set-keeps used (get_or reg cj 0) j h))
      | inr e ↦ rw (e, used_loop) (used_loop-keeps conf ci j done reg used h)
    ]

-- The register of a coloured candidate that interferes is marked.
pub used_loop-marks :
    (conf : Conf) (ci cj : ℕ) (done reg : List ℕ) (used : List Bool)
    → In cj done
    → length used ≡ 14
    → get_or reg cj 0 < 14
    → get_or reg cj 0 ≢ 0
    → ra_interfere conf ci cj ≡ true
    → get_or (used_loop conf ci done reg used) (get_or reg cj 0) false ≡ true
unfolding used_loop
used_loop-marks conf ci cj [] reg used h len lt ne meet = absurd h
used_loop-marks conf ci cj (x ∷ done) reg used (inl here) len lt ne meet =
    let test : not (get_or reg x 0 == 0) && ra_interfere conf ci x ≡ true =
      subst (λ (y : ℕ). not (get_or reg y 0 == 0) && ra_interfere conf ci y ≡ true) here
        (ground arith) in
    let reg_same : get_or reg cj 0 ≡ get_or reg x 0 = ap (λ (y : ℕ). get_or reg y 0) here in
    rw (test, used_loop)
      (used_loop-keeps conf ci (get_or reg cj 0) done reg (set used (get_or reg x 0) true) (
        subst (λ (r : ℕ). get_or (set used r true) (get_or reg cj 0) false ≡ true) reg_same
          (get_or-set_same used (get_or reg cj 0) true false (omega arith))))
used_loop-marks conf ci cj (x ∷ done) reg used (inr there) len lt ne meet =
    elim (Bool-cases (not (get_or reg x 0 == 0) && ra_interfere conf ci x)) [
      | inl e ↦
          rw (e, used_loop)
            (used_loop-marks conf ci cj done reg (set used (get_or reg x 0) true) there
              (length-set used (get_or reg x 0) true ∙ len) lt ne meet)
      | inr e ↦ rw (e, used_loop) (used_loop-marks conf ci cj done reg used there len lt ne meet)
    ]

-- What is chosen is 0, or a register of the pool that is not used.
abbrev pub IsFree : List ℕ → List Bool → ℕ → Type 0
IsFree ps used r = (r ≡ 0) ⊎ (In r ps × (get_or used r false ≡ false))

pick-IsFree :
    (p r : ℕ) (ps : List ℕ) (used : List Bool) (b : Bool)
    → get_or used p false ≡ b
    → IsFree ps used r
    → IsFree (p ∷ ps) used (if b then r else p)
pick-IsFree p r ps used true e (inl h) = inl h
pick-IsFree p r ps used true e (inr (h, k)) = inr (inr h, k)
pick-IsFree p r ps used false e h = inr (inl refl, e)

pub choose_loop-IsFree : (ps : List ℕ) (used : List Bool) → IsFree ps used (choose_loop ps used)
unfolding choose_loop
choose_loop-IsFree [] used = inl refl
choose_loop-IsFree (p ∷ ps) used =
    pick-IsFree p (choose_loop ps used) ps used (get_or used p false) refl
      (choose_loop-IsFree ps used)
