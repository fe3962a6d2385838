-- ===== src/Ir/Fold/Identity.antt =====
-- ie_equal and ie_binop_identity of src/ir68k.c against the meaning of expressions.
use text.Mathlib.TextEquality.{eq_iff}
use Prim.Native.String.{String}
use c68k.Prelude.{
  ℕ, ◌≡◌, refl, ap, ◌∙◌, Bool, true, false, Option, none, some, arith, inl, inr, Option-cases,
  same_bool→eq,
}
use c68k.Prelude.Bits.{
  bit_and-all_ones, all_ones-bit_and, bit_and-zero, zero-bit_and, bit_or-zero, zero-bit_or,
  bit_xor-zero, zero-bit_xor,
}
use c68k.Prelude.Word.{IsWord}
use c68k.Ctype.{same_kind→eq}
use c68k.Ir.Expr.{NodeKind, same_op→eq, IrExpr, num, lea, load, binop, unary, cast}
use c68k.Ir.Expr.{nd_add, nd_sub, nd_mul, nd_bitand, nd_bitor, nd_bitxor, nd_shl, nd_shr}
use c68k.Ir.Fold.{
  ie_num, ie_num_new, ie_pure, ie_trivial, ie_equal, same_name, ie_shl1, const_is,
  ie_binop_identity,
}
use c68k.Ir.Meaning.{Machine, IsMachine, eval}
use c68k.Ir.Words.{ie_num-eval, eval-ie_num_new, ie_pure-eval, ie_trivial-ie_pure, eval-IsWord}

same_name→eq : (m n : Option String) → same_name m n ≡ true → m ≡ n
same_name→eq none none h = refl
same_name→eq none (some n) h = cc
same_name→eq (some m) none h = cc
same_name→eq (some m) (some n) h = ap some ((eq_iff m n).0 h)

module _ (m : Machine) where
  -- Expressions that ie_equal identifies have the same value and the same effect.
  pub ie_equal-eval : (x y : IrExpr) (s : m.State) → ie_equal x y ≡ true → eval m x s ≡ eval m y s
  unfolding ie_equal eval
  ie_equal-eval (num v size uns) (num w size' uns') s h = ground arith
  ie_equal-eval (lea l o n v) (lea l' o' n' v') s h =
      ground (arith, same_bool→eq l l', same_name→eq n n')
  ie_equal-eval (load a size uns) (load b size' uns') s h =
      ground (arith, same_bool→eq uns uns', ie_equal-eval a b s)
  ie_equal-eval (cast k a size uns f g) (cast k' b size' uns' f' g') s h =
      ground (arith, same_kind→eq k k', same_bool→eq uns uns', ie_equal-eval a b s)
  ie_equal-eval (unary op a size uns) (unary op' b size' uns') s h =
      ground (arith, same_op→eq op op', ie_equal-eval a b s)
  ie_equal-eval (binop op a b size uns p) (binop op' a' b' size' uns' p') s h = ground (
    arith,
    same_op→eq op op',
    same_bool→eq uns uns',
    ie_equal-eval b b' s,
    ie_equal-eval a a' (eval m b s).1,
  )
  ie_equal-eval _ _ s h = cc

  const_is-eval :
      (e : IrExpr) (k : ℕ) (s : m.State) → const_is (ie_num e) k ≡ true → eval m e s ≡ (k, s)
  const_is-eval e k s h = elim (Option-cases (ie_num e)) [
    | inl e' ↦ cc (ap (λ o. const_is o k) e')
    | inr (c, e') ↦ ground (arith, ie_num-eval m e s e', ap (λ o. const_is o k) e')
  ]

module _ (m : Machine) (laws : IsMachine m) where
  -- A constant that replaces a node
  pub constant_eval :
      (e : IrExpr) (v size : ℕ) (uns : Bool) (s : m.State)
      → eval m e s ≡ (v, s)
      → eval m (ie_num_new v size uns) s ≡ eval m e s
  constant_eval e v size uns s h =
      let w : IsWord v = rw h at (eval-IsWord m laws e s) in rw h (eval-ie_num_new m v size uns s w)

  -- A node whose right operand is the constant `k`, or its left, has the other operand's meaning
  -- where `k` is a unit of the operator.
  unit_right :
      (op : NodeKind) (k : ℕ) (a b : IrExpr) (size : ℕ) (uns p : Bool) (s : m.State)
      → ((v : ℕ) → IsWord v → m.alu op uns v k ≡ v)
      → const_is (ie_num b) k ≡ true
      → eval m a s ≡ eval m (binop op a b size uns p) s
  unfolding eval
  unit_right op k a b size uns p s unit h =
      ground (arith, const_is-eval m b k s h, unit (eval m a s).0 (eval-IsWord m laws a s))

  unit_left :
      (op : NodeKind) (k : ℕ) (a b : IrExpr) (size : ℕ) (uns p : Bool) (s : m.State)
      → ((v : ℕ) → IsWord v → m.alu op uns k v ≡ v)
      → const_is (ie_num a) k ≡ true
      → eval m b s ≡ eval m (binop op a b size uns p) s
  unfolding eval
  unit_left op k a b size uns p s unit h =
      ground
        (arith, const_is-eval m a k (eval m b s).1 h, unit (eval m b s).0 (eval-IsWord m laws b s))

  -- The constant 0 absorbs an operand that may be left out.
  zero_right :
      (op : NodeKind) (a b : IrExpr) (size : ℕ) (uns p : Bool) (s : m.State)
      → ((v : ℕ) → IsWord v → m.alu op uns v 0 ≡ 0)
      → const_is (ie_num b) 0 ≡ true
      → ie_trivial a ≡ true
      → eval m (ie_num_new 0 size uns) s ≡ eval m (binop op a b size uns p) s
  unfolding eval
  zero_right op a b size uns p s absorbs h t = ground (
    arith,
    eval-ie_num_new m 0 size uns s,
    const_is-eval m b 0 s h,
    ie_pure-eval m a s (ie_trivial-ie_pure a t),
    absorbs (eval m a s).0 (eval-IsWord m laws a s),
  )

  zero_left :
      (op : NodeKind) (a b : IrExpr) (size : ℕ) (uns p : Bool) (s : m.State)
      → ((v : ℕ) → IsWord v → m.alu op uns 0 v ≡ 0)
      → const_is (ie_num a) 0 ≡ true
      → ie_trivial b ≡ true
      → eval m (ie_num_new 0 size uns) s ≡ eval m (binop op a b size uns p) s
  unfolding eval
  zero_left op a b size uns p s absorbs h t = ground (
    arith,
    eval-ie_num_new m 0 size uns s,
    const_is-eval m a 0 (eval m b s).1 h,
    ie_pure-eval m b s (ie_trivial-ie_pure b t),
    absorbs (eval m b s).0 (eval-IsWord m laws b s),
  )

  -- `x + x` becomes `x << 1`.
  double :
      (a b : IrExpr) (size : ℕ) (uns p : Bool) (s : m.State)
      → ie_pure a ≡ true
      → ie_equal a b ≡ true
      → eval m (ie_shl1 a size uns) s ≡ eval m (binop nd_add a b size uns p) s
  unfolding eval ie_shl1
  double a b size uns p s pure same = ground (
    arith,
    eval-ie_num_new m 1 4 false s,
    ie_equal-eval m a b s same,
    ie_pure-eval m a s pure,
    laws.alu_add uns (eval m a s).0 (eval m a s).0,
    laws.alu_shl uns (eval m a s).0 1,
  )

  -- The units and zeros of the operators
  add-zero : (u : Bool) (v : ℕ) → IsWord v → m.alu nd_add u v 0 ≡ v
  add-zero u v w = ground (arith, laws.alu_add u v 0)

  zero-add : (u : Bool) (v : ℕ) → IsWord v → m.alu nd_add u 0 v ≡ v
  zero-add u v w = ground (arith, laws.alu_add u 0 v)

  sub-zero : (u : Bool) (v : ℕ) → IsWord v → m.alu nd_sub u v 0 ≡ v
  sub-zero u v w = ground (arith, laws.alu_sub u v 0)

  mul-one : (u : Bool) (v : ℕ) → IsWord v → m.alu nd_mul u v 1 ≡ v
  mul-one u v w = ground (arith, laws.alu_mul u v 1)

  one-mul : (u : Bool) (v : ℕ) → IsWord v → m.alu nd_mul u 1 v ≡ v
  one-mul u v w = ground (arith, laws.alu_mul u 1 v)

  mul-zero : (u : Bool) (v : ℕ) → IsWord v → m.alu nd_mul u v 0 ≡ 0
  mul-zero u v w = ground (arith, laws.alu_mul u v 0)

  zero-mul : (u : Bool) (v : ℕ) → IsWord v → m.alu nd_mul u 0 v ≡ 0
  zero-mul u v w = ground (arith, laws.alu_mul u 0 v)

  and-ones : (u : Bool) (v : ℕ) → IsWord v → m.alu nd_bitand u v 0xffffffff ≡ v
  and-ones u v w = laws.alu_and u v 0xffffffff w (omega arith) ∙ bit_and-all_ones v w

  ones-and : (u : Bool) (v : ℕ) → IsWord v → m.alu nd_bitand u 0xffffffff v ≡ v
  ones-and u v w = laws.alu_and u 0xffffffff v (omega arith) w ∙ all_ones-bit_and v w

  and-zero : (u : Bool) (v : ℕ) → IsWord v → m.alu nd_bitand u v 0 ≡ 0
  and-zero u v w = laws.alu_and u v 0 w (omega arith) ∙ bit_and-zero v

  zero-and : (u : Bool) (v : ℕ) → IsWord v → m.alu nd_bitand u 0 v ≡ 0
  zero-and u v w = laws.alu_and u 0 v (omega arith) w ∙ zero-bit_and v

  or-zero : (u : Bool) (v : ℕ) → IsWord v → m.alu nd_bitor u v 0 ≡ v
  or-zero u v w = laws.alu_or u v 0 w (omega arith) ∙ bit_or-zero v

  zero-or : (u : Bool) (v : ℕ) → IsWord v → m.alu nd_bitor u 0 v ≡ v
  zero-or u v w = laws.alu_or u 0 v (omega arith) w ∙ zero-bit_or v

  xor-zero : (u : Bool) (v : ℕ) → IsWord v → m.alu nd_bitxor u v 0 ≡ v
  xor-zero u v w = laws.alu_xor u v 0 w (omega arith) ∙ bit_xor-zero v

  zero-xor : (u : Bool) (v : ℕ) → IsWord v → m.alu nd_bitxor u 0 v ≡ v
  zero-xor u v w = laws.alu_xor u 0 v (omega arith) w ∙ zero-bit_xor v

  shl-zero : (u : Bool) (v : ℕ) → IsWord v → m.alu nd_shl u v 0 ≡ v
  shl-zero u v w = ground (arith, laws.alu_shl u v 0)

  shr-zero : (u : Bool) (v : ℕ) → IsWord v → m.alu nd_shr u v 0 ≡ v
  shr-zero true v w = ground (arith, laws.alu_shr v 0)
  shr-zero false v w = ground (arith, laws.alu_sar v 0)

  -- Each algebraic identity and strength reduction of ie_binop_identity keeps the node's value and
  -- its effect on the state, for every operator and all operands, those with side effects included.
  pub identity_sound :
      (op : NodeKind) (a b : IrExpr) (size : ℕ) (uns p : Bool) (s : m.State)
      → eval m (ie_binop_identity op a b size uns p) s ≡ eval m (binop op a b size uns p) s
  unfolding ie_binop_identity
  identity_sound nd_add a b size u p s = ground (
    arith,
    unit_right nd_add 0 a b size u p s (add-zero u),
    unit_left nd_add 0 a b size u p s (zero-add u),
    double a b size u p s,
  )
  identity_sound nd_sub a b size u p s =
      ground (arith, unit_right nd_sub 0 a b size u p s (sub-zero u))
  identity_sound nd_mul a b size u p s = ground (
    arith,
    unit_right nd_mul 1 a b size u p s (mul-one u),
    unit_left nd_mul 1 a b size u p s (one-mul u),
    zero_right nd_mul a b size u p s (mul-zero u),
    zero_left nd_mul a b size u p s (zero-mul u),
  )
  identity_sound nd_bitand a b size u p s = ground (
    arith,
    unit_right nd_bitand 0xffffffff a b size u p s (and-ones u),
    unit_left nd_bitand 0xffffffff a b size u p s (ones-and u),
    zero_right nd_bitand a b size u p s (and-zero u),
    zero_left nd_bitand a b size u p s (zero-and u),
  )
  identity_sound nd_bitor a b size u p s = ground (
    arith,
    unit_right nd_bitor 0 a b size u p s (or-zero u),
    unit_left nd_bitor 0 a b size u p s (zero-or u),
  )
  identity_sound nd_bitxor a b size u p s = ground (
    arith,
    unit_right nd_bitxor 0 a b size u p s (xor-zero u),
    unit_left nd_bitxor 0 a b size u p s (zero-xor u),
  )
  identity_sound nd_shl a b size u p s =
      ground (arith, unit_right nd_shl 0 a b size u p s (shl-zero u))
  identity_sound nd_shr a b size u p s =
      ground (arith, unit_right nd_shr 0 a b size u p s (shr-zero u))
  identity_sound _ a b size u p s = refl
