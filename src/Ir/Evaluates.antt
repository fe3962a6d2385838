-- ===== src/Ir/Evaluates.antt =====
-- The values that an IR expression may have. C leaves the order of a binary operator's operands open, so
-- this is a relation, with `eval` of Ir/Meaning.antt as one choice. A node without a value has any.
use Prim.Native.String.{String}
use c68k.Prelude.{ℕ, ◌≡◌, ◌≢◌, ◌%◌, Bool, false, not, Option, some, List, [], ◌∷◌, ◌==◌}
use c68k.Prelude.Word.{of_bool}
use c68k.Ctype.{TypeKind}
use c68k.Ir.Expr.{
  NodeKind, IrExpr, Args, no_args, arg, nop, num, lea, load, store, binop, unary, logand, logor,
  cond, comma, cast, call, call_ptr, memzero, vdef, vuse,
}
use c68k.Ir.Meaning.{Machine, unary_value, cast_value}

module _ (m : Machine) where
  mutual
    pub data Evaluates : IrExpr → m.State → ℕ → m.State → Type 0 where
      of_nop : (s : m.State) (v : ℕ) → Evaluates nop s v s
      of_num :
          (val size : ℕ) (uns : Bool) (s : m.State)
          → Evaluates (num val size uns) s (val % 0x100000000) s
      of_lea :
          (l : Bool) (off : ℕ) (name : Option String) (var : ℕ) (s : m.State)
          → Evaluates (lea l off name var) s (m.address l off name) s
      of_load :
          {a : IrExpr} {s s' : m.State} {p : ℕ} (size : ℕ) (uns : Bool)
          → Evaluates a s p s'
          → Evaluates (load a size uns) s (m.read size uns p s') s'
      of_store :
          {a b : IrExpr} {s s' s'' : m.State} {p v : ℕ} (size : ℕ) (uns : Bool)
          → Evaluates a s p s'
          → Evaluates b s' v s''
          → Evaluates (store a b size uns) s v (m.write size p v s'')
      right_first :
          {a b : IrExpr} {s s' s'' : m.State} {x y : ℕ} (op : NodeKind) (size : ℕ) (uns p : Bool)
          → Evaluates b s y s'
          → Evaluates a s' x s''
          → Evaluates (binop op a b size uns p) s (m.alu op uns x y) s''
      left_first :
          {a b : IrExpr} {s s' s'' : m.State} {x y : ℕ} (op : NodeKind) (size : ℕ) (uns p : Bool)
          → Evaluates a s x s'
          → Evaluates b s' y s''
          → Evaluates (binop op a b size uns p) s (m.alu op uns x y) s''
      of_unary :
          {a : IrExpr} {s s' : m.State} {x : ℕ} (op : NodeKind) (size : ℕ) (uns : Bool)
          → Evaluates a s x s'
          → Evaluates (unary op a size uns) s (unary_value op x) s'
      logand_left :
          {a b : IrExpr} {s s' : m.State} {x : ℕ}
          → Evaluates a s x s'
          → x ≡ 0
          → Evaluates (logand a b) s 0 s'
      logand_both :
          {a b : IrExpr} {s s' s'' : m.State} {x y : ℕ}
          → Evaluates a s x s'
          → x ≢ 0
          → Evaluates b s' y s''
          → Evaluates (logand a b) s (of_bool (not (y == 0))) s''
      logor_left :
          {a b : IrExpr} {s s' : m.State} {x : ℕ}
          → Evaluates a s x s'
          → x ≢ 0
          → Evaluates (logor a b) s 1 s'
      logor_both :
          {a b : IrExpr} {s s' s'' : m.State} {x y : ℕ}
          → Evaluates a s x s'
          → x ≡ 0
          → Evaluates b s' y s''
          → Evaluates (logor a b) s (of_bool (not (y == 0))) s''
      cond_then :
          {a b c : IrExpr} {s s' s'' : m.State} {x y : ℕ} (size : ℕ) (uns : Bool)
          → Evaluates a s x s'
          → x ≢ 0
          → Evaluates b s' y s''
          → Evaluates (cond a b c size uns) s y s''
      cond_else :
          {a b c : IrExpr} {s s' s'' : m.State} {x y : ℕ} (size : ℕ) (uns : Bool)
          → Evaluates a s x s'
          → x ≡ 0
          → Evaluates c s' y s''
          → Evaluates (cond a b c size uns) s y s''
      of_comma :
          {a b : IrExpr} {s s' s'' : m.State} {x y : ℕ} (size : ℕ) (uns : Bool)
          → Evaluates a s x s'
          → Evaluates b s' y s''
          → Evaluates (comma a b size uns) s y s''
      of_cast :
          {a : IrExpr} {s s' : m.State} {x : ℕ} (op : TypeKind) (size : ℕ) (uns : Bool) (fsize : ℕ)
          (funs : Bool)
          → Evaluates a s x s'
          → Evaluates (cast op a size uns fsize funs) s (cast_value op size uns x) s'
      of_call :
          {es : Args} {s s' : m.State} {vs : List ℕ} (name : String) (size : ℕ) (uns : Bool)
          → EvaluatesArgs es s vs s'
          → Evaluates
              (call name es size uns)
              s
              (m.invoke (m.address false 0 (some name)) vs s').0
              (m.invoke (m.address false 0 (some name)) vs s').1
      of_call_ptr :
          {a : IrExpr} {es : Args} {s s' s'' : m.State} {vs : List ℕ} {p : ℕ} (size : ℕ)
          (uns : Bool)
          → EvaluatesArgs es s vs s'
          → Evaluates a s' p s''
          → Evaluates (call_ptr a es size uns) s (m.invoke p vs s'').0 (m.invoke p vs s'').1
      of_memzero :
          (var off size : ℕ) (s : m.State) (v : ℕ)
          → Evaluates (memzero var off size) s v (m.clear off size s)
      of_vdef :
          {a : IrExpr} {s s' : m.State} {x : ℕ} (vt size : ℕ)
          → Evaluates a s x s'
          → Evaluates (vdef vt a size) s x (m.keep vt x s')
      of_vuse : (vt size : ℕ) (s : m.State) → Evaluates (vuse vt size) s (m.kept vt s) s

    -- the arguments, the last one first
    pub data EvaluatesArgs : Args → m.State → List ℕ → m.State → Type 0 where
      of_no_args : (s : m.State) → EvaluatesArgs no_args s [] s
      of_arg :
          {e : IrExpr} {es : Args} {s s' s'' : m.State} {v : ℕ} {vs : List ℕ}
          → EvaluatesArgs es s vs s'
          → Evaluates e s' v s''
          → EvaluatesArgs (arg e es) s (v ∷ vs) s''
