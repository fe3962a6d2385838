-- ===== src/Ir/Asm/Cpu/Conditions.antt =====
-- The condition codes after a comparison, against the relations that src/ir68k.c means by its mnemonics.
use c68k.Prelude.{ℕ, ◌≡◌, refl, ap, Bool, true, false, not, some, ◌==◌, arith, if◌then◌else◌}
use c68k.Prelude.Word.{IsWord, is_neg}
use c68k.Ir.Expr.{NodeKind, nd_eq, nd_ne, nd_lt, nd_le}
use c68k.Ir.Rel.{Rel, r_lt, r_le, r_eq, r_ne, r_gt, r_ge, rel_of, bcc_mnem}
use c68k.Ir.Rel.Laws.{holds, IsComparison}
use c68k.Ir.Select.Tiles.{scc_mnem}
use c68k.Ir.Asm.Cpu.{test}

-- After `cmp.l b,a` the branch of a relation is taken exactly when the relation holds of `a` and `b`.
pub test-bcc_mnem :
    (r : Rel) (u : Bool) (a b : ℕ)
    → IsWord a
    → IsWord b
    → test (bcc_mnem r u) (some (a, b)) ≡ some (holds r u a b)
unfolding test bcc_mnem
test-bcc_mnem r_lt true a b ha hb = refl
test-bcc_mnem r_lt false a b ha hb = ap some (ground arith)
test-bcc_mnem r_le true a b ha hb = ap some (ground arith)
test-bcc_mnem r_le false a b ha hb = ap some (ground arith)
test-bcc_mnem r_eq u a b ha hb = refl
test-bcc_mnem r_ne u a b ha hb = refl
test-bcc_mnem r_gt true a b ha hb = ap some (ground arith)
test-bcc_mnem r_gt false a b ha hb = ap some (ground arith)
test-bcc_mnem r_ge true a b ha hb = ap some (ground arith)
test-bcc_mnem r_ge false a b ha hb = ap some (ground arith)

-- Scc sets by the same relations as Bcc: in order, and with the constant on the left.
pub test-scc_mnem :
    (op : NodeKind) (u : Bool) (a b : ℕ)
    → IsComparison op
    → IsWord a
    → IsWord b
    → test (scc_mnem op u) (some (a, b)) ≡ some (holds (rel_of op) u a b)
unfolding test scc_mnem rel_of
test-scc_mnem nd_eq u a b h ha hb = refl
test-scc_mnem nd_ne u a b h ha hb = refl
test-scc_mnem nd_lt true a b h ha hb = refl
test-scc_mnem nd_lt false a b h ha hb = ap some (ground arith)
test-scc_mnem nd_le true a b h ha hb = ap some (ground arith)
test-scc_mnem nd_le false a b h ha hb = ap some (ground arith)
test-scc_mnem _ u a b h ha hb = absurd h

pub test_left_lt :
    (u : Bool) (a b : ℕ)
    → IsWord a
    → IsWord b
    → test (if u then "shi" else "sgt") (some (a, b)) ≡ some (holds r_lt u b a)
unfolding test
test_left_lt true a b ha hb = ap some (ground arith)
test_left_lt false a b ha hb = ap some (ground arith)

pub test_left_le :
    (u : Bool) (a b : ℕ)
    → IsWord a
    → IsWord b
    → test (if u then "shs" else "sge") (some (a, b)) ≡ some (holds r_le u b a)
unfolding test
test_left_le true a b ha hb = ap some (ground arith)
test_left_le false a b ha hb = ap some (ground arith)

-- `beq`, `bne` and `bpl` after `tst.l`
pub test_zero :
    (a : ℕ)
    → (test "beq" (some (a, 0)) ≡ some (a == 0)) × (test "bne" (some (a, 0)) ≡ some (not (a == 0)))
unfolding test
test_zero a = (refl, refl)

-- `seq` and `sne` after it
pub test_set :
    (a : ℕ)
    → (test "seq" (some (a, 0)) ≡ some (a == 0)) × (test "sne" (some (a, 0)) ≡ some (not (a == 0)))
unfolding test
test_set a = (refl, refl)

pub test_plus : (a : ℕ) → IsWord a → test "bpl" (some (a, 0)) ≡ some (not (is_neg a))
unfolding test
test_plus a h = ap some (ground arith)
