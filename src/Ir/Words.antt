-- ===== src/Ir/Words.antt =====
-- The values of IR expressions of src/ir68k.c as 32-bit words, and ie_num, ie_pure, ie_trivial.
use mathlib.Core.Bool.{and-eq-true_iff}
use c68k.Prelude.{ℕ, ◌≡◌, refl, ◌∙◌, Bool, true, false, ◌&&◌, some, ◌==◌, arith, not}
use c68k.Prelude.Word.{IsWord, of_bool}
use c68k.Ctype.{TypeKind}
use c68k.Ir.Expr.{
  NodeKind, IrExpr, nop, num, lea, load, store, binop, unary, logand, logor, cond, comma, cast,
  call, call_ptr, memzero, vdef, vuse,
}
use c68k.Ir.Fold.{ie_num, ie_num_new, ie_pure, ie_trivial, narrow}
use c68k.Ir.Meaning.{Machine, IsMachine, unary_value, cast_value, eval}

pub of_bool-IsWord : (b : Bool) → IsWord (of_bool b)
of_bool-IsWord true = omega arith
of_bool-IsWord false = omega arith

pub narrow-IsWord : (size : ℕ) (uns : Bool) (v : ℕ) → IsWord v → IsWord (narrow size uns v)
unfolding narrow
narrow-IsWord size uns v h = ground arith

pub unary_value-IsWord : (op : NodeKind) (v : ℕ) → IsWord (unary_value op v)
unary_value-IsWord op v = ground (arith, of_bool-IsWord (v == 0))

pub cast_value-IsWord :
    (k : TypeKind) (size : ℕ) (uns : Bool) (v : ℕ) → IsWord v → IsWord (cast_value k size uns v)
cast_value-IsWord k size uns v h =
    ground (arith, of_bool-IsWord (not (v == 0)), narrow-IsWord size uns v)

module _ (m : Machine) where
  pub ie_num-eval : (e : IrExpr) {c : ℕ} (s : m.State) → ie_num e ≡ some c → eval m e s ≡ (c, s)
  unfolding ie_num eval
  ie_num-eval (num val size uns) s h = cc
  ie_num-eval _ s h = cc

  pub eval-ie_num_new :
      (v size : ℕ) (uns : Bool) (s : m.State) → IsWord v → eval m (ie_num_new v size uns) s ≡ (v, s)
  unfolding ie_num_new eval
  eval-ie_num_new v size uns s h = ground arith

  -- Evaluating an expression that ie_pure accepts leaves the state as it is.
  pub ie_pure-eval : (e : IrExpr) (s : m.State) → ie_pure e ≡ true → (eval m e s).1 ≡ s
  unfolding ie_pure eval
  ie_pure-eval (load a size uns) s h = ie_pure-eval a s h
  ie_pure-eval (binop op a b size uns p) s h =
      let (ha, hb) = (and-eq-true_iff _ _).0 h in
      ie_pure-eval a (eval m b s).1 ha ∙ ie_pure-eval b s hb
  ie_pure-eval (unary op a size uns) s h = ie_pure-eval a s h
  ie_pure-eval (logand a b) s h =
      let (ha, hb) = (and-eq-true_iff (ie_pure a) (ie_pure b)).0 h in
      ground (arith, ie_pure-eval a s ha, ie_pure-eval b (eval m a s).1 hb)
  ie_pure-eval (logor a b) s h =
      let (ha, hb) = (and-eq-true_iff (ie_pure a) (ie_pure b)).0 h in
      ground (arith, ie_pure-eval a s ha, ie_pure-eval b (eval m a s).1 hb)
  ie_pure-eval (cond a b c size uns) s h =
      let (ha, hbc) = (and-eq-true_iff (ie_pure a) (ie_pure b && ie_pure c)).0 h in
      let (hb, hc) = (and-eq-true_iff (ie_pure b) (ie_pure c)).0 hbc in
      ground (
        arith,
        ie_pure-eval a s ha,
        ie_pure-eval b (eval m a s).1 hb,
        ie_pure-eval c (eval m a s).1 hc,
      )
  ie_pure-eval (comma a b size uns) s h =
      let (ha, hb) = (and-eq-true_iff _ _).0 h in
      ie_pure-eval b (eval m a s).1 hb ∙ ie_pure-eval a s ha
  ie_pure-eval (cast op a size uns f g) s h = ie_pure-eval a s h
  ie_pure-eval nop s h = refl
  ie_pure-eval (num val size uns) s h = refl
  ie_pure-eval (lea local off name var) s h = refl
  ie_pure-eval (vuse vt size) s h = refl
  ie_pure-eval _ s h = cc

pub ie_trivial-ie_pure : (e : IrExpr) → ie_trivial e ≡ true → ie_pure e ≡ true
unfolding ie_trivial ie_pure
ie_trivial-ie_pure (binop op a b size uns p) h =
    ground (arith, ie_trivial-ie_pure a, ie_trivial-ie_pure b)
ie_trivial-ie_pure (unary op a size uns) h = ie_trivial-ie_pure a h
ie_trivial-ie_pure (logand a b) h = ground (arith, ie_trivial-ie_pure a, ie_trivial-ie_pure b)
ie_trivial-ie_pure (logor a b) h = ground (arith, ie_trivial-ie_pure a, ie_trivial-ie_pure b)
ie_trivial-ie_pure (cond a b c size uns) h =
    ground (arith, ie_trivial-ie_pure a, ie_trivial-ie_pure b, ie_trivial-ie_pure c)
ie_trivial-ie_pure (comma a b size uns) h =
    ground (arith, ie_trivial-ie_pure a, ie_trivial-ie_pure b)
ie_trivial-ie_pure (cast op a size uns f g) h = ie_trivial-ie_pure a h
ie_trivial-ie_pure nop h = refl
ie_trivial-ie_pure (num val size uns) h = refl
ie_trivial-ie_pure (lea local off name var) h = refl
ie_trivial-ie_pure _ h = cc

module _ (m : Machine) (laws : IsMachine m) where
  pub eval-IsWord : (e : IrExpr) (s : m.State) → IsWord (eval m e s).0
  unfolding eval
  eval-IsWord nop s = laws.junk_word
  eval-IsWord (num val size uns) s = omega arith
  eval-IsWord (lea local off name var) s = laws.address_word local off name
  eval-IsWord (load a size uns) s = laws.read_word size uns _ _
  eval-IsWord (store a b size uns) s = eval-IsWord b _
  eval-IsWord (binop op a b size uns p) s = laws.alu_word op uns _ _
  eval-IsWord (unary op a size uns) s = unary_value-IsWord op _
  eval-IsWord (logand a b) s = ground arith
  eval-IsWord (logor a b) s = ground arith
  eval-IsWord (cond a b c size uns) s =
      ground (arith, eval-IsWord b (eval m a s).1, eval-IsWord c (eval m a s).1)
  eval-IsWord (comma a b size uns) s = eval-IsWord b _
  eval-IsWord (cast op a size uns f g) s = cast_value-IsWord op size uns _ (eval-IsWord a s)
  eval-IsWord (call name args size uns) s = laws.invoke_word _ _ _
  eval-IsWord (call_ptr a args size uns) s = laws.invoke_word _ _ _
  eval-IsWord (memzero var off size) s = laws.junk_word
  eval-IsWord (vdef vt a size) s = eval-IsWord a s
  eval-IsWord (vuse vt size) s = laws.kept_word vt s
