-- ===== src/Ir/Ra/Tests.antt =====
-- The theorems on the register allocator at a concrete function.
use c68k.Prelude.{
  ◌&&◌, ℕ, ◌≤◌, ◌≡◌, ◌≢◌, ◌↔◌, ◌⊎◌, inl, inr, refl, true, false, Option, none, some, List, [], ◌∷◌,
  ◌++◌, length, get_elem?, get_or, replicate, arith,
}
use c68k.Ir.Expr.{IrExpr, num, lea, load, store, binop, nd_add}
use c68k.Ir.Items.{IrItem, ii_label, ii_cbr, ii_eval, ii_ret}
use c68k.Ir.Cfg.{IrBlock, ir_build_cfg}
use c68k.Ir.Cfg.Visit.{In}
use c68k.Ir.Ra.Events.{Cands, event, ev_use, ev_def, ra_colorable}
use c68k.Ir.Ra.Liveness.{Live, block_events, ra_liveness}
use c68k.Ir.Ra.Liveness.Paths.{LiveAfter, read_here, ra_liveness-ends, ra_liveness-Both}
use c68k.Ir.Ra.Liveness.Exposed.{exposes}
use c68k.Ir.Ra.Color.{ra_interfere, color_order, ra_color_global, ir_color_regs}
use c68k.Ir.Ra.Color.Distinct.{IsRegister, ra_color_global-IsColoring}
use c68k.Ir.Ra.Color.Order.{Unique, Falling, color_order-sorted}
use c68k.Ir.Ra.Color.Saved.{ra_color_global-Saved, ir_color_regs-own}
use c68k.Ir.Ra.Set.{ra_set_zero, ra_set_add, ra_set_del, ra_set_or, ra_set_minus}
use c68k.Ir.Ra.Share.{ra_color_global-LiveAfter}

abbrev variable : ℕ → IrExpr
variable v = lea true 0 none v

abbrev eval : IrExpr → IrItem
eval e = record { kind = ii_eval; e = some e; label = none; when = false }

-- x = 1; y = 2; A: t = x + y; if (x) goto A; return y
abbrev items : List IrItem
items =
    eval (store (variable 1) (num 1 4 false) 4 false)
    ∷ eval (store (variable 2) (num 2 4 false) 4 false)
    ∷ record { kind = ii_label; e = none; label = some "A"; when = false }
    ∷ eval (
        store (variable 3)
          (binop nd_add (load (variable 1) 4 false) (load (variable 2) 4 false) 4 false false) 4
          false)
    ∷ record { kind = ii_cbr; e = some (load (variable 1) 4 false); label = some "A"; when = true }
    ∷ record { kind = ii_ret; e = some (load (variable 2) 4 false); label = none; when = false }
    ∷ []

abbrev cands : Cands
cands = record {
  cand =
      record { var = 1; uses = 3; loopuses = 2 }
      ∷ record { var = 2; uses = 4; loopuses = 1 }
      ∷ record { var = 3; uses = 1; loopuses = 1 }
      ∷ [];
  addr = [];
}

abbrev blocks : List IrBlock
blocks = ir_build_cfg items

small : length cands.cand ≤ 256
small = omega arith

abbrev start : IrBlock
start = record { start = 0; end = 2; succ = 1 ∷ []; pred = [] }

abbrev loop : IrBlock
loop = record { start = 2; end = 5; succ = 1 ∷ 2 ∷ []; pred = 0 ∷ 1 ∷ [] }

graph : get_elem? blocks 0 ≡ some start
unfolding ir_build_cfg
graph = refl

graph_loop : get_elem? blocks 1 ≡ some loop
unfolding ir_build_cfg
graph_loop = refl

start_events : block_events cands items start ≡ (event 0 ev_def ∷ []) ++ event 1 ev_def ∷ []
unfolding block_events
start_events = refl

loop-exposes : exposes 0 (block_events cands items loop) ≡ true
unfolding block_events
loop-exposes = refl

abbrev registers : Option (List ℕ)
registers = elim (ra_liveness cands items blocks) [
  | none ↦ none
  | some l ↦ some (ra_color_global cands l.conf (0 ∷ 0 ∷ 0 ∷ [])).reg
]

-- two variables of a loop and one that it sets only
registers_run : registers ≡ some (3 ∷ 2 ∷ 4 ∷ [])
unfolding ra_liveness ra_color_global ir_build_cfg ra_set_or ra_set_zero ra_set_minus ra_set_add
    ra_set_del
registers_run = refl

abbrev sets : Live
sets = (ra_liveness-ends cands items blocks small).0

sets_end : ra_liveness cands items blocks ≡ some sets
sets_end = (ra_liveness-ends cands items blocks small).1

-- The first variable is read in the loop, behind the definition of the second.
first_live : LiveAfter cands items blocks 0 start []
first_live = inr (refl, (1, inl refl, read_here graph_loop loop-exposes))

first_colorable : ra_colorable cands 0 ≡ true
unfolding ra_colorable
first_colorable = refl

second_colorable : ra_colorable cands 1 ≡ true
unfolding ra_colorable
second_colorable = refl

def_not_use : ev_def ≢ ev_use
def_not_use e = cc

ra_liveness-ends_example : (l : Live) × (ra_liveness cands items blocks ≡ some l)
ra_liveness-ends_example = ra_liveness-ends cands items blocks (omega arith)

ra_liveness-Both_example : (ra_interfere sets.conf 1 0 ≡ true) × (ra_interfere sets.conf 0 1 ≡ true)
ra_liveness-Both_example =
    ra_liveness-Both cands items blocks sets 0 1 0 start ev_def (event 0 ev_def ∷ []) [] small
      sets_end graph start_events def_not_use (omega arith) (λ e. omega arith) first_live

ra_color_global-LiveAfter_example :
    (get_or (ra_color_global cands sets.conf (0 ∷ 0 ∷ 0 ∷ [])).reg 1 0 ≡ 0)
    ⊎ (get_or (ra_color_global cands sets.conf (0 ∷ 0 ∷ 0 ∷ [])).reg 1 0
        ≢ get_or (ra_color_global cands sets.conf (0 ∷ 0 ∷ 0 ∷ [])).reg 0 0)
ra_color_global-LiveAfter_example =
    ra_color_global-LiveAfter cands items blocks sets (0 ∷ 0 ∷ 0 ∷ []) 0 1 0 start ev_def
      (event 0 ev_def ∷ []) [] small refl sets_end graph start_events def_not_use second_colorable
      first_colorable (λ e. omega arith) first_live

-- sets in which the first two candidates interfere
abbrev pair : List (List ℕ)
pair =
    (2 ∷ 0 ∷ 0 ∷ 0 ∷ 0 ∷ 0 ∷ 0 ∷ 0 ∷ []) ∷ (1 ∷ 0 ∷ 0 ∷ 0 ∷ 0 ∷ 0 ∷ 0 ∷ 0 ∷ []) ∷ replicate 8 0 ∷ []

meet : ra_interfere pair 0 1 ≡ true
unfolding ra_interfere
meet = refl

meet_back : ra_interfere pair 1 0 ≡ true
unfolding ra_interfere
meet_back = refl

ra_color_global-IsColoring_example :
    IsRegister (get_or (ra_color_global cands pair (0 ∷ 0 ∷ 0 ∷ [])).reg 0 0)
    × ((get_or (ra_color_global cands pair (0 ∷ 0 ∷ 0 ∷ [])).reg 0 0 ≡ 0)
        ⊎ ((get_or (ra_color_global cands pair (0 ∷ 0 ∷ 0 ∷ [])).reg 0 0
              ≢ get_or (ra_color_global cands pair (0 ∷ 0 ∷ 0 ∷ [])).reg 1 0)
            ⊎ ((◌≡◌ {A = ℕ} 0 1) ⊎ ((ra_interfere pair 0 1 && ra_interfere pair 1 0) ≡ false))))
ra_color_global-IsColoring_example =
    ra_color_global-IsColoring cands pair (0 ∷ 0 ∷ 0 ∷ []) 0 1 refl first_colorable second_colorable

low : 2 ≤ get_or (ra_color_global cands pair (replicate 3 0)).reg 0 0
unfolding ra_color_global
low = omega arith

high : get_or (ra_color_global cands pair (replicate 3 0)).reg 0 0 ≤ 7
unfolding ra_color_global
high = omega arith

ra_color_global-Saved_example :
    get_or (ra_color_global cands pair (replicate 3 0)).reg 0 0
    ≤ (ra_color_global cands pair (replicate 3 0)).hi
ra_color_global-Saved_example = ra_color_global-Saved cands pair 3 0 low high

held : get_or (ir_color_regs cands (replicate 3 0)).reg 0 0 ≢ 0
unfolding ir_color_regs
held e = absurd (omega arith)

ir_color_regs-own_example :
    get_or (ir_color_regs cands (replicate 3 0)).reg 0 0
    ≢ get_or (ir_color_regs cands (replicate 3 0)).reg 1 0
ir_color_regs-own_example = ir_color_regs-own cands 3 0 1 (λ e. omega arith) held

color_order-sorted_example :
    Unique (color_order cands)
    × Falling cands (color_order cands)
    × ((x : ℕ) → In x (color_order cands) ↔ (ra_colorable cands x ≡ true))
color_order-sorted_example = color_order-sorted cands
