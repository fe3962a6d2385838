-- ===== src/Ir/Cfg/Tests.antt =====
-- The theorems on the control-flow graph at a concrete function.
use c68k.Prelude.{
  ℕ, zero, suc, ◌<◌, ◌≡◌, ◌↔◌, refl, Bool, true, false, none, some, List, [], ◌∷◌, All, arith,
}
use c68k.Ir.Expr.{num}
use c68k.Ir.Items.{IrItem, ii_label, ii_cbr, ii_eval, ii_ret}
use c68k.Ir.Items.Run.{run}
use c68k.Ir.Cfg.{ir_build_cfg, succ_at, seen_blocks, op6_dce_unreachable, ir_optimize}
use c68k.Ir.Cfg.Optimize.{op6_dce_unreachable-run, ir_optimize-run}
use c68k.Ir.Cfg.Preds.{ir_build_cfg-pred}
use c68k.Ir.Cfg.Reach.{Reachable, seen_blocks-Reachable}
use c68k.Ir.Cfg.Visit.{In, Seen}
use c68k.Ir.Tests.Machine32.{machine32, machine32-IsMachine}

abbrev plain : IrItem
plain = record { kind = ii_eval; e = some (num 7 4 false); label = none; when = false }

-- if (1) goto B; 7; A: 7; B: return 7
abbrev function : List IrItem
function =
    record { kind = ii_cbr; e = some (num 1 4 false); label = some "B"; when = true }
    ∷ plain
    ∷ record { kind = ii_label; e = none; label = some "A"; when = false }
    ∷ plain
    ∷ record { kind = ii_label; e = none; label = some "B"; when = false }
    ∷ record { kind = ii_ret; e = some (num 7 4 false); label = none; when = false }
    ∷ []

graph :
    ir_build_cfg function
    ≡ record { start = 0; end = 1; succ = 3 ∷ 1 ∷ []; pred = [] }
      ∷ record { start = 1; end = 2; succ = 2 ∷ []; pred = 0 ∷ [] }
      ∷ record { start = 2; end = 4; succ = 3 ∷ []; pred = 1 ∷ [] }
      ∷ record { start = 4; end = 6; succ = []; pred = 0 ∷ 2 ∷ [] }
      ∷ []
unfolding ir_build_cfg
graph = refl

ir_build_cfg-pred_example : In 2 (0 ∷ 2 ∷ []) ↔ In 3 (succ_at (ir_build_cfg function) 2)
unfolding ir_build_cfg
ir_build_cfg-pred_example =
    ir_build_cfg-pred function 3 2 (record { start = 4; end = 6; succ = []; pred = 0 ∷ 2 ∷ [] })
      refl

-- block 2 has an edge, and nothing leads to it
abbrev edges : ℕ → List ℕ
edges zero = 1 ∷ []
edges (suc zero) = 0 ∷ 1 ∷ []
edges (suc (suc b)) = 0 ∷ []

edges-ranged : (b : ℕ) → All (λ s. s < 3) (edges b)
edges-ranged zero = omega arith
edges-ranged (suc zero) = omega arith
edges-ranged (suc (suc b)) = omega arith

seen_blocks-Reachable_example :
    (seen : List Bool) × (seen_blocks 3 edges ≡ some seen)
    × ((b : ℕ) → Seen seen b ↔ Reachable edges b)
seen_blocks-Reachable_example = seen_blocks-Reachable 3 edges edges-ranged (omega arith)

op6_dce_unreachable-run_example :
    (out : List IrItem) × (op6_dce_unreachable (ir_build_cfg function) function ≡ some out)
    × ((fuel s : ℕ) → run machine32 fuel out 0 s ≡ run machine32 fuel function 0 s)
op6_dce_unreachable-run_example = op6_dce_unreachable-run machine32 function

ir_optimize-run_example :
    (out : List IrItem) × (ir_optimize function ≡ some out)
    × ((fuel s : ℕ) → run machine32 fuel out 0 s ≡ run machine32 fuel function 0 s)
ir_optimize-run_example = ir_optimize-run machine32 machine32-IsMachine function
