-- ===== src/Ir/Fold/Binop.antt =====
-- fold_binop of src/ir68k.c against the arithmetic of the machine.
use c68k.Prelude.{ℕ, ◌≡◌, Bool, true, false, some, arith}
use c68k.Prelude.Word.{IsWord}
use c68k.Ir.Expr.{
  NodeKind, nd_add, nd_sub, nd_mul, nd_div, nd_mod, nd_bitand, nd_bitor, nd_bitxor, nd_shl, nd_shr,
  nd_eq, nd_ne, nd_lt, nd_le, nd_neg, nd_not, nd_bitnot,
}
use c68k.Ir.Fold.{fold_binop}
use c68k.Ir.Meaning.{Machine, IsMachine}

module _ (m : Machine) (laws : IsMachine m) where
  -- Where fold_binop yields a constant, the operation at run time yields the same word, for every
  -- operator, both signednesses and all operands.
  pub fold_binop-alu :
      (op : NodeKind) (uns : Bool) (a b r : ℕ)
      → IsWord a
      → IsWord b
      → fold_binop op uns a b ≡ some r
      → m.alu op uns a b ≡ r
  unfolding fold_binop
  fold_binop-alu nd_add uns a b r ha hb h = ground (arith, laws.alu_add uns a b)
  fold_binop-alu nd_sub uns a b r ha hb h = ground (arith, laws.alu_sub uns a b)
  fold_binop-alu nd_mul uns a b r ha hb h = ground (arith, laws.alu_mul uns a b)
  fold_binop-alu nd_bitand uns a b r ha hb h = ground (arith, laws.alu_and uns a b ha hb)
  fold_binop-alu nd_bitor uns a b r ha hb h = ground (arith, laws.alu_or uns a b ha hb)
  fold_binop-alu nd_bitxor uns a b r ha hb h = ground (arith, laws.alu_xor uns a b ha hb)
  fold_binop-alu nd_div true a b r ha hb h = ground (arith, laws.alu_udiv a b ha hb)
  fold_binop-alu nd_div false a b r ha hb h = ground (arith, laws.alu_sdiv a b ha hb)
  fold_binop-alu nd_mod true a b r ha hb h = ground (arith, laws.alu_umod a b ha hb)
  fold_binop-alu nd_mod false a b r ha hb h = ground (arith, laws.alu_smod a b ha hb)
  fold_binop-alu nd_shl uns a b r ha hb h = ground (arith, laws.alu_shl uns a b)
  fold_binop-alu nd_shr true a b r ha hb h = ground (arith, laws.alu_shr a b ha)
  fold_binop-alu nd_shr false a b r ha hb h = ground (arith, laws.alu_sar a b ha)
  fold_binop-alu nd_eq uns a b r ha hb h = ground (arith, laws.alu_eq uns a b)
  fold_binop-alu nd_ne uns a b r ha hb h = ground (arith, laws.alu_ne uns a b)
  fold_binop-alu nd_lt true a b r ha hb h = ground (arith, laws.alu_ult a b)
  fold_binop-alu nd_lt false a b r ha hb h = ground (arith, laws.alu_slt a b)
  fold_binop-alu nd_le true a b r ha hb h = ground (arith, laws.alu_ule a b)
  fold_binop-alu nd_le false a b r ha hb h = ground (arith, laws.alu_sle a b)
  fold_binop-alu nd_neg uns a b r ha hb h = cc
  fold_binop-alu nd_not uns a b r ha hb h = cc
  fold_binop-alu nd_bitnot uns a b r ha hb h = cc
