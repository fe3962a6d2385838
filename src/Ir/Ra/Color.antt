-- ===== src/Ir/Ra/Color.antt =====
-- The assignment of registers to candidates in src/ir68k.c: ra_interfere, ra_color_global, and the loop
-- at the end of ir_color_regs. `var->reg` of the candidates is a list, by candidate number.
pub mod Order
pub mod Free
pub mod Distinct
pub mod Saved
use c68k.Prelude.{
  ℕ, zero, suc, ◌+◌, ◌<◌, ◌≤◌, Bool, true, false, not, ◌&&◌, ◌||◌, Option, none, some, List, [],
  ◌∷◌, ◌++◌, length, get_elem?, get_or, set, replicate, ltb, leb, ◌==◌, if◌then◌else◌,
}
use c68k.Ir.Ra.Set.{RaSet, ra_set_zero, ra_set_has}
use c68k.Ir.Ra.Events.{RaCand, Cands, ra_colorable}
use c68k.Ir.Ra.Liveness.{Conf}

unfoldable pub ra_interfere : Conf → ℕ → ℕ → Bool
unfolding ra_set_has
ra_interfere conf i j = ra_set_has (get_or conf i ra_set_zero) j

-- the first loop over `order`: `n` candidates from `i` on
unfoldable pub colorable_from : Cands → ℕ → ℕ → List ℕ
unfolding ra_colorable
colorable_from ra i zero = []
colorable_from ra i (suc n) =
    let rest = colorable_from ra (i + 1) n in if ra_colorable ra i then i ∷ rest else rest

abbrev pub uses_of : Cands → ℕ → ℕ
uses_of ra i = elim (get_elem? ra.cand i) [ none ↦ 0 | some c ↦ c.uses ]

-- The inner loop: `cur` goes behind the last entry whose uses are not fewer. The part of `order` that is
-- sorted is given from its end.
unfoldable pub insert_uses : Cands → ℕ → List ℕ → List ℕ
insert_uses ra cur [] = cur ∷ []
insert_uses ra cur (j ∷ js) =
    let rest = insert_uses ra cur js in
    if ltb (uses_of ra j) (uses_of ra cur) then j ∷ rest else cur ∷ j ∷ js

unfoldable pub sort_uses : Cands → List ℕ → List ℕ → List ℕ
unfolding insert_uses
sort_uses ra [] sorted = sorted
sort_uses ra (cur ∷ more) sorted = sort_uses ra more (insert_uses ra cur sorted)

unfoldable pub reversed : List ℕ → List ℕ → List ℕ
reversed [] out = out
reversed (x ∷ xs) out = reversed xs (x ∷ out)

-- `order` after both loops
unfoldable pub color_order : Cands → List ℕ
unfolding colorable_from sort_uses reversed
color_order ra = reversed (sort_uses ra (colorable_from ra 0 (length ra.cand)) []) []

abbrev pub pool : List ℕ
pool = 2 ∷ 3 ∷ 4 ∷ 5 ∷ 6 ∷ 7 ∷ 10 ∷ 11 ∷ 12 ∷ 13 ∷ []

-- `used`, from the candidates coloured so far
unfoldable pub used_loop : Conf → ℕ → List ℕ → List ℕ → List Bool → List Bool
unfolding ra_interfere
used_loop conf ci [] reg used = used
used_loop conf ci (cj ∷ done) reg used =
    let r = get_or reg cj 0 in
    used_loop conf ci done reg
      (if not (r == 0) && ra_interfere conf ci cj then set used r true else used)

unfoldable pub choose_loop : List ℕ → List Bool → ℕ
choose_loop [] used = 0
choose_loop (p ∷ ps) used =
    let rest = choose_loop ps used in if get_or used p false then rest else p

-- `reg` and `hi`
pub record Coloring : Type 0 where
  pub reg : List ℕ
  pub hi : ℕ

unfoldable pub color_step : Conf → ℕ → List ℕ → Coloring → Coloring
unfolding used_loop choose_loop
color_step conf ci done st =
    let chosen = choose_loop pool (used_loop conf ci done st.reg (replicate 14 false)) in
    record {
      reg = set st.reg ci chosen;
      hi = if leb 2 chosen && leb chosen 7 && ltb st.hi chosen then chosen else st.hi;
    }

-- the loop over `k`: `done` is order[0..k)
unfoldable pub color_loop : Conf → List ℕ → List ℕ → Coloring → Coloring
unfolding color_step
color_loop conf done [] st = st
color_loop conf done (ci ∷ more) st =
    color_loop conf (done ++ ci ∷ []) more (color_step conf ci done st)

-- ra_color_global behind ra_liveness, which leaves `conf`; `reg` are the registers before
unfoldable pub ra_color_global : Cands → Conf → List ℕ → Coloring
unfolding color_order color_loop
ra_color_global ra conf reg = color_loop conf [] (color_order ra) (record { reg = reg; hi = 0 })

-- One search of ir_color_regs for the candidate with the most uses, `n` candidates from `i` on
unfoldable pub best_loop : Cands → List ℕ → ℕ → ℕ → Option ℕ → Option ℕ
unfolding ra_colorable
best_loop ra reg i zero best = best
best_loop ra reg i (suc n) best =
    let skip = not (get_or reg i 0 == 0) || not (ra_colorable ra i) in
    let better : Bool = elim best [ none ↦ true | some b ↦ ltb (uses_of ra b) (uses_of ra i) ] in
    best_loop ra reg (i + 1) n (if skip then best else if better then some i else best)

unfoldable pub seq_loop : Cands → List ℕ → Coloring → Coloring
unfolding best_loop
seq_loop ra [] st = st
seq_loop ra (r ∷ seq) st =
    let found = best_loop ra st.reg 0 (length ra.cand) none in
    elim found [
      | none ↦ st
      | some best ↦
          seq_loop ra seq (record { reg = set st.reg best r; hi = if leb r 7 then r else st.hi })
    ]

-- the OP5 assignment
unfoldable pub ir_color_regs : Cands → List ℕ → Coloring
unfolding seq_loop
ir_color_regs ra reg = seq_loop ra pool (record { reg = reg; hi = 0 })
