-- ===== src/Ir/Rel.antt =====
-- The condition relations of src/ir68k.c: rel_of, rel_negate, rel_swap, bcc_mnem, is_commutative.
pub mod Laws
use Prim.Native.String.{String}
use c68k.Prelude.{Bool, true, false, ◌||◌, if◌then◌else◌}
use c68k.Ir.Expr.{
  NodeKind, same_op, nd_add, nd_mul, nd_bitand, nd_bitor, nd_bitxor, nd_eq, nd_ne, nd_lt, nd_le,
}

pub data Rel : Type 0 where
  r_lt r_le r_eq r_ne r_gt r_ge : Rel

unfoldable pub rel_of : NodeKind → Rel
unfolding same_op
rel_of op =
    if same_op op nd_lt
    then r_lt
    else if same_op op nd_le
    then r_le
    else if same_op op nd_eq
    then r_eq
    else r_ne

unfoldable pub rel_negate : Rel → Rel
rel_negate r_lt = r_ge
rel_negate r_ge = r_lt
rel_negate r_le = r_gt
rel_negate r_gt = r_le
rel_negate r_eq = r_ne
rel_negate r_ne = r_eq

unfoldable pub rel_swap : Rel → Rel
rel_swap r_lt = r_gt
rel_swap r_gt = r_lt
rel_swap r_le = r_ge
rel_swap r_ge = r_le
rel_swap r_eq = r_eq
rel_swap r_ne = r_ne

unfoldable pub bcc_mnem : Rel → Bool → String
bcc_mnem r_eq u = "beq"
bcc_mnem r_ne u = "bne"
bcc_mnem r_lt u = if u then "bcs" else "blt"
bcc_mnem r_le u = if u then "bls" else "ble"
bcc_mnem r_gt u = if u then "bhi" else "bgt"
bcc_mnem r_ge u = if u then "bcc" else "bge"

unfoldable pub is_commutative : NodeKind → Bool
unfolding same_op
is_commutative op =
    same_op op nd_add
    || (same_op op nd_mul
        || (same_op op nd_bitand
            || (same_op op nd_bitor
                || (same_op op nd_bitxor || (same_op op nd_eq || same_op op nd_ne)))))
