-- ===== src/Ir/Rel/Laws.antt =====
-- What the condition relations mean on 32-bit words, and what the back end may do with them.
use c68k.Prelude.{ℕ, ◌≡◌, ap, Bool, true, not, some, ltb, leb, ◌==◌, arith, if◌then◌else◌}
use c68k.Prelude.Bits.{bit_ops_comm}
use c68k.Prelude.Word.{slt32, sle32}
use c68k.Ir.Expr.{
  NodeKind, nd_add, nd_mul, nd_bitand, nd_bitor, nd_bitxor, nd_eq, nd_ne, nd_lt, nd_le,
}
use c68k.Ir.Fold.{fold_binop}
use c68k.Ir.Rel.{Rel, r_lt, r_le, r_eq, r_ne, r_gt, r_ge, rel_negate, rel_swap, is_commutative}

-- The relation of two words, read as unsigned (`u`) or as signed integers
abbrev pub holds : Rel → Bool → ℕ → ℕ → Bool
holds r_lt u a b = if u then ltb a b else slt32 a b
holds r_le u a b = if u then leb a b else sle32 a b
holds r_eq u a b = a == b
holds r_ne u a b = not (a == b)
holds r_gt u a b = if u then ltb b a else slt32 b a
holds r_ge u a b = if u then leb b a else sle32 b a

-- A branch on the negated relation is taken exactly when one on the relation is not, and the
-- swapped relation is the relation with its operands swapped.
pub rel_negate-rel_swap :
    (r : Rel) (u : Bool) (a b : ℕ)
    → (holds (rel_negate r) u a b ≡ not (holds r u a b))
      × (holds (rel_swap r) u a b ≡ holds r u b a)
unfolding rel_negate rel_swap
rel_negate-rel_swap r_lt u a b = ground arith
rel_negate-rel_swap r_le u a b = ground arith
rel_negate-rel_swap r_eq u a b = ground arith
rel_negate-rel_swap r_ne u a b = ground arith
rel_negate-rel_swap r_gt u a b = ground arith
rel_negate-rel_swap r_ge u a b = ground arith

-- The four comparison nodes; only these reach rel_of.
abbrev pub IsComparison : NodeKind → Type 0
IsComparison nd_eq = Unit
IsComparison nd_ne = Unit
IsComparison nd_lt = Unit
IsComparison nd_le = Unit
IsComparison _ = ⊥

-- The operands of an operator that is_commutative names may change places.
pub is_commutative-fold_binop :
    (op : NodeKind) (u : Bool) (a b : ℕ)
    → is_commutative op ≡ true
    → fold_binop op u a b ≡ fold_binop op u b a
unfolding is_commutative fold_binop
is_commutative-fold_binop nd_add u a b h = ap some (ground arith)
is_commutative-fold_binop nd_mul u a b h = ap some (grind arith)
is_commutative-fold_binop nd_bitand u a b h = ap some (bit_ops_comm a b).0
is_commutative-fold_binop nd_bitor u a b h = ap some (bit_ops_comm a b).1
is_commutative-fold_binop nd_bitxor u a b h = ap some (bit_ops_comm a b).2
is_commutative-fold_binop nd_eq u a b h = ap some (ground arith)
is_commutative-fold_binop nd_ne u a b h = ap some (ground arith)
is_commutative-fold_binop _ u a b h = cc
