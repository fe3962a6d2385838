-- ===== src/Ir/Fold/Sound.antt =====
-- ie_fold of src/ir68k.c against the meaning of expressions.
use c68k.Prelude.{
  ℕ, ◌-◌, ◌≡◌, refl, ◌∙◌, Bool, false, some, ◌==◌, arith, inl, inr, Option-cases, not,
}
use c68k.Prelude.Word.{of_bool, neg32}
use c68k.Ctype.{TypeKind, ty_bool, same_kind, same_kind→eq, tk_is_integer}
use c68k.Ir.Expr.{
  NodeKind, same_op, same_op→eq, IrExpr, Args, no_args, arg, nop, num, lea, load, store, binop,
  unary, logand, logor, cond, comma, cast, call, call_ptr, memzero, vdef, vuse,
}
use c68k.Ir.Expr.{nd_neg, nd_not, nd_bitnot}
use c68k.Ir.Fold.{
  ie_num, ie_num_new, fold_binop, fold_cast, fold_unary, fold_binop_node, fold_cond, fold_logand,
  fold_logor, ie_fold, fold_args, narrow,
}
use c68k.Ir.Fold.Binop.{fold_binop-alu}
use c68k.Ir.Fold.Identity.{constant_eval, identity_sound}
use c68k.Ir.Meaning.{Machine, IsMachine, eval, eval_args}
use c68k.Ir.Words.{ie_num-eval, eval-IsWord}

module _ (m : Machine) (laws : IsMachine m) where
  cast_sound :
      (op : TypeKind) (a : IrExpr) (size : ℕ) (uns : Bool) (f : ℕ) (g : Bool) (s : m.State)
      → eval m (fold_cast op a size uns f g) s ≡ eval m (cast op a size uns f g) s
  unfolding fold_cast eval same_kind tk_is_integer
  cast_sound op a size uns f g s = elim (Option-cases (ie_num a)) [
    | inl e ↦ rw (e, fold_cast)
    | inr (ca, e) ↦
        rw (e, fold_cast)
          (ground (
            arith,
            ie_num-eval m a s e,
            same_kind→eq op ty_bool,
            constant_eval m laws (cast op a size uns f g) (of_bool (not (ca == 0))) size uns s,
            constant_eval m laws (cast op a size uns f g) (narrow size uns ca) size uns s,
          ))
  ]

  unary_sound :
      (op : NodeKind) (a : IrExpr) (size : ℕ) (uns : Bool) (s : m.State)
      → eval m (fold_unary op a size uns) s ≡ eval m (unary op a size uns) s
  unfolding fold_unary eval same_op
  unary_sound op a size uns s = elim (Option-cases (ie_num a)) [
    | inl e ↦ rw (e, fold_unary)
    | inr (ca, e) ↦
        rw (e, fold_unary)
          (ground (
            arith,
            ie_num-eval m a s e,
            constant_eval m laws (unary op a size uns) (neg32 ca) size uns s,
            constant_eval m laws (unary op a size uns) (0xffffffff - ca) size uns s,
            constant_eval m laws (unary op a size uns) (of_bool (ca == 0)) 4 false s,
            same_op→eq op nd_neg,
            same_op→eq op nd_bitnot,
            same_op→eq op nd_not,
          ))
  ]

  constants_sound :
      (op : NodeKind) (a b : IrExpr) (size : ℕ) (uns p : Bool) (s : m.State) (ca cb r : ℕ)
      → ie_num a ≡ some ca
      → ie_num b ≡ some cb
      → fold_binop op uns ca cb ≡ some r
      → eval m (ie_num_new r size uns) s ≡ eval m (binop op a b size uns p) s
  unfolding eval
  constants_sound op a b size uns p s ca cb r ea eb er =
      let ha = ie_num-eval m a s ea in
      let hb = ie_num-eval m b s eb in
      ground (
        arith,
        ha,
        hb,
        eval-IsWord m laws a s,
        eval-IsWord m laws b s,
        fold_binop-alu m laws op uns ca cb r,
        constant_eval m laws (binop op a b size uns p) r size uns s,
      )

  binop_sound :
      (op : NodeKind) (a b : IrExpr) (size : ℕ) (uns p : Bool) (s : m.State)
      → eval m (fold_binop_node op a b size uns p) s ≡ eval m (binop op a b size uns p) s
  unfolding fold_binop_node eval
  binop_sound op a b size uns p s = elim (Option-cases (ie_num a)) [
    | inl ea ↦ rw (ea, fold_binop_node) (identity_sound m laws op a b size uns p s)
    | inr (ca, ea) ↦ elim (Option-cases (ie_num b)) [
      | inl eb ↦ rw (ea, fold_binop_node, eb) (identity_sound m laws op a b size uns p s)
      | inr (cb, eb) ↦ elim (Option-cases (fold_binop op uns ca cb)) [
        | inl er ↦ rw (ea, fold_binop_node, eb, er)
        | inr (r, er) ↦
            rw (ea, fold_binop_node, eb, er) (constants_sound op a b size uns p s ca cb r ea eb er)
      ]
    ]
  ]

  cond_sound :
      (a b c : IrExpr) (size : ℕ) (uns : Bool) (s : m.State)
      → eval m (fold_cond a b c size uns) s ≡ eval m (cond a b c size uns) s
  unfolding fold_cond eval
  cond_sound a b c size uns s = elim (Option-cases (ie_num a)) [
    | inl e ↦ rw (e, fold_cond)
    | inr (ca, e) ↦ rw (e, fold_cond) (ground (arith, ie_num-eval m a s e))
  ]

  logand_sound : (a b : IrExpr) (s : m.State) → eval m (fold_logand a b) s ≡ eval m (logand a b) s
  unfolding fold_logand eval
  logand_sound a b s = elim (Option-cases (ie_num a)) [
    | inl ea ↦ rw (ea, fold_logand)
    | inr (ca, ea) ↦ elim (Option-cases (ie_num b)) [
      | inl eb ↦
          rw (ea, fold_logand, eb)
            (ground (arith, ie_num-eval m a s ea, constant_eval m laws (logand a b) 0 4 false s))
      | inr (cb, eb) ↦
          rw (ea, fold_logand, eb)
            (ground (
              arith,
              ie_num-eval m a s ea,
              ie_num-eval m b s eb,
              constant_eval m laws (logand a b) 0 4 false s,
              constant_eval m laws (logand a b) (of_bool (not (cb == 0))) 4 false s,
            ))
    ]
  ]

  logor_sound : (a b : IrExpr) (s : m.State) → eval m (fold_logor a b) s ≡ eval m (logor a b) s
  unfolding fold_logor eval
  logor_sound a b s = elim (Option-cases (ie_num a)) [
    | inl ea ↦ rw (ea, fold_logor)
    | inr (ca, ea) ↦ elim (Option-cases (ie_num b)) [
      | inl eb ↦
          rw (ea, fold_logor, eb)
            (ground (arith, ie_num-eval m a s ea, constant_eval m laws (logor a b) 1 4 false s))
      | inr (cb, eb) ↦
          rw (ea, fold_logor, eb)
            (ground (
              arith,
              ie_num-eval m a s ea,
              ie_num-eval m b s eb,
              constant_eval m laws (logor a b) 1 4 false s,
              constant_eval m laws (logor a b) (of_bool (not (cb == 0))) 4 false s,
            ))
    ]
  ]

  mutual
    unfolding ie_fold eval

    ie_fold_sound : (e : IrExpr) (s : m.State) → eval m (ie_fold e) s ≡ eval m e s
    ie_fold_sound nop s = refl
    ie_fold_sound (num val size uns) s = refl
    ie_fold_sound (lea local off name var) s = refl
    ie_fold_sound (load a size uns) s = rw (ie_fold_sound a s)
    ie_fold_sound (store a b size uns) s = rw (ie_fold_sound a s, ie_fold_sound b)
    ie_fold_sound (binop op a b size uns p) s =
        binop_sound op (ie_fold a) (ie_fold b) size uns p s
        ∙ rw (ie_fold_sound b s, ie_fold_sound a)
    ie_fold_sound (unary op a size uns) s =
        unary_sound op (ie_fold a) size uns s ∙ rw (ie_fold_sound a s)
    ie_fold_sound (logand a b) s =
        logand_sound (ie_fold a) (ie_fold b) s ∙ rw (ie_fold_sound a s, ie_fold_sound b)
    ie_fold_sound (logor a b) s =
        logor_sound (ie_fold a) (ie_fold b) s ∙ rw (ie_fold_sound a s, ie_fold_sound b)
    ie_fold_sound (cond a b c size uns) s =
        cond_sound (ie_fold a) (ie_fold b) (ie_fold c) size uns s
        ∙ rw (ie_fold_sound a s, ie_fold_sound b, ie_fold_sound c)
    ie_fold_sound (comma a b size uns) s = rw (ie_fold_sound a s, ie_fold_sound b)
    ie_fold_sound (cast op a size uns f g) s =
        cast_sound op (ie_fold a) size uns f g s ∙ rw (ie_fold_sound a s)
    ie_fold_sound (call name args size uns) s = ground (arith, fold_args_sound args s)
    ie_fold_sound (call_ptr a args size uns) s =
        ground (arith, fold_args_sound args s, ie_fold_sound a (eval_args m args s).1)
    ie_fold_sound (memzero var off size) s = refl
    ie_fold_sound (vdef vt a size) s = rw (ie_fold_sound a s)
    ie_fold_sound (vuse vt size) s = refl

    fold_args_sound : (es : Args) (s : m.State) → eval_args m (fold_args es) s ≡ eval_args m es s
    fold_args_sound no_args s = refl
    fold_args_sound (arg e es) s =
        ground (arith, fold_args_sound es s, ie_fold_sound e (eval_args m es s).1)

  -- The folded tree has the value of the tree and leaves the state that the tree leaves: for every
  -- expression, every starting state and every machine that obeys the laws.
  pub ie_fold-eval : (e : IrExpr) (s : m.State) → eval m (ie_fold e) s ≡ eval m e s
  ie_fold-eval e s = ie_fold_sound e s
