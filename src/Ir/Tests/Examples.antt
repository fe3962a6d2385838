-- ===== src/Ir/Tests/Examples.antt =====
-- The theorems on the IR at concrete expressions, items and words, on machine32.
use c68k.Prelude.{◌≡◌, refl, true, false, none, some, List, [], ◌∷◌, arith}
use c68k.Ctype.{ty_char}
use c68k.Ir.Expr.{IrExpr, num, lea, load, store, binop, cast}
use c68k.Ir.Expr.{nd_add, nd_mul, nd_div}
use c68k.Ir.Fold.{fold_binop, ie_binop_identity, ie_fold}
use c68k.Ir.Fold.Binop.{fold_binop-alu}
use c68k.Ir.Fold.Identity.{identity_sound}
use c68k.Ir.Fold.Sound.{ie_fold-eval}
use c68k.Ir.Items.{
  IrItem, ii_label, ii_cbr, ii_eval, ii_ret, op6_fold_exprs, op6_fold_branches, op6_dce_dead_eval,
}
use c68k.Ir.Items.Passes.{
  op6_fold_exprs-run, NoConstant, op6_fold_branches-NoConstant, op6_dce_dead_eval-run,
}
use c68k.Ir.Items.Run.{run}
use c68k.Ir.Meaning.{eval}
use c68k.Ir.Tests.Machine32.{machine32, machine32-IsMachine}

-- a local int, read
abbrev local : IrExpr
local = load (lea true 8 none 1) 4 false

-- `x = 2 + 3`, a store
abbrev assign : IrExpr
assign =
    store (lea true 8 none 1) (binop nd_add (num 2 4 false) (num 3 4 false) 4 false false) 4 false

-- `(x = 2 + 3) * 8 + (char)300`
abbrev mixed : IrExpr
mixed =
    binop nd_add (binop nd_mul assign (num 8 4 false) 4 false false)
      (cast ty_char (num 300 4 false) 1 false 4 false) 4 false false

ie_fold-eval_example : eval machine32 (ie_fold mixed) 0 ≡ eval machine32 mixed 0
ie_fold-eval_example = ie_fold-eval machine32 machine32-IsMachine mixed 0

-- L: (void)x; x = 2 + 3; if (1 < 2) goto L; return x
abbrev program : List IrItem
program =
    record { kind = ii_label; e = none; label = some "L"; when = false }
    ∷ record { kind = ii_eval; e = some local; label = none; when = false }
    ∷ record { kind = ii_eval; e = some assign; label = none; when = false }
    ∷ record { kind = ii_cbr; e = some (num 1 4 false); label = some "L"; when = true }
    ∷ record { kind = ii_ret; e = some local; label = none; when = false }
    ∷ []

op6_fold_exprs-run_example :
    run machine32 9 (op6_fold_exprs program) 0 7 ≡ run machine32 9 program 0 7
op6_fold_exprs-run_example = op6_fold_exprs-run machine32 machine32-IsMachine 9 program 0 7

op6_fold_branches-NoConstant_example :
    (run machine32 9 (op6_fold_branches program) 0 7 ≡ run machine32 9 program 0 7)
    × NoConstant (op6_fold_branches program)
op6_fold_branches-NoConstant_example = op6_fold_branches-NoConstant machine32 9 program 0 7

op6_dce_dead_eval-run_example :
    run machine32 9 (op6_dce_dead_eval program) 0 7 ≡ run machine32 9 program 0 7
op6_dce_dead_eval-run_example = op6_dce_dead_eval-run machine32 9 program 0 7

-- -7 / 2 is -3
fold_binop-alu_example : machine32.alu nd_div false 0xfffffff9 2 ≡ 0xfffffffd
unfolding fold_binop
fold_binop-alu_example =
    fold_binop-alu machine32 machine32-IsMachine nd_div false 0xfffffff9 2 0xfffffffd (omega arith)
      (omega arith) refl

identity_sound_example :
    eval machine32 (ie_binop_identity nd_mul assign (num 0 4 false) 4 false false) 0
    ≡ eval machine32 (binop nd_mul assign (num 0 4 false) 4 false false) 0
identity_sound_example =
    identity_sound machine32 machine32-IsMachine nd_mul assign (num 0 4 false) 4 false false 0
