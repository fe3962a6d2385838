-- ===== src/Ir/Fold.antt =====
-- The -O3 expression folder of src/ir68k.c: ie_num, ie_num_new, ie_pure, ie_trivial, ie_equal,
-- fold_binop, ie_shl1, ie_binop_identity and ie_fold.
-- An int32_t is its bit pattern below 2 ^ 32; a cast to it is a remainder by 2 ^ 32.
pub mod Binop
pub mod Identity
pub mod Sound
use Prim.Native.Nat.{bit_and, bit_or, bit_xor}
use Prim.Native.String.{String}
use text.Mathlib.Text.{◌==◌ as str_eq}
use c68k.Prelude.{
  ℕ, ◌+◌, ◌-◌, ◌*◌, ◌/◌, ◌%◌, ◌^◌, Bool, true, false, not, ◌&&◌, ◌||◌, Option, none, some, ltb, leb,
  ◌==◌, if◌then◌else◌, same_bool,
}
use c68k.Prelude.Word.{is_neg, neg32, sdiv32, smod32, sra32, slt32, sle32, of_bool}
use c68k.Ctype.{TypeKind, ty_bool, tk_is_integer, same_kind}
use c68k.Ir.Expr.{NodeKind, same_op, IrExpr, Args, no_args, arg}
use c68k.Ir.Expr.{
  nd_add, nd_sub, nd_mul, nd_div, nd_mod, nd_bitand, nd_bitor, nd_bitxor, nd_shl, nd_shr, nd_eq,
  nd_ne, nd_lt, nd_le, nd_neg, nd_not, nd_bitnot,
}
use c68k.Ir.Expr.{
  nop, num, lea, load, store, binop, unary, logand, logor, cond, comma, cast, call, call_ptr,
  memzero, vdef, vuse,
}

-- `(int32_t)e->val`
unfoldable pub ie_num : IrExpr → Option ℕ
ie_num (num val size uns) = some (val % 0x100000000)
ie_num _ = none

-- `e->val = v` widens an int32_t to the int64_t with the same sign.
unfoldable pub ie_num_new : ℕ → ℕ → Bool → IrExpr
ie_num_new v size uns =
    num (if is_neg v then v + 0xffffffff00000000 else v) (if size == 0 then 4 else size) uns

unfoldable pub ie_pure : IrExpr → Bool
ie_pure nop = true
ie_pure (num val size uns) = true
ie_pure (lea local off name var) = true
ie_pure (load a size uns) = ie_pure a
ie_pure (store a b size uns) = false
ie_pure (binop op a b size uns ptradd) = ie_pure a && ie_pure b
ie_pure (unary op a size uns) = ie_pure a
ie_pure (logand a b) = ie_pure a && ie_pure b
ie_pure (logor a b) = ie_pure a && ie_pure b
ie_pure (cond a b c size uns) = ie_pure a && (ie_pure b && ie_pure c)
ie_pure (comma a b size uns) = ie_pure a && ie_pure b
ie_pure (cast op a size uns fsize funs) = ie_pure a
ie_pure (call name args size uns) = false
ie_pure (call_ptr a args size uns) = false
ie_pure (memzero var off size) = false
ie_pure (vdef vt a size) = false
ie_pure (vuse vt size) = true

unfoldable pub ie_trivial : IrExpr → Bool
ie_trivial nop = true
ie_trivial (num val size uns) = true
ie_trivial (lea local off name var) = true
ie_trivial (load a size uns) = false
ie_trivial (store a b size uns) = false
ie_trivial (binop op a b size uns ptradd) = ie_trivial a && ie_trivial b
ie_trivial (unary op a size uns) = ie_trivial a
ie_trivial (logand a b) = ie_trivial a && ie_trivial b
ie_trivial (logor a b) = ie_trivial a && ie_trivial b
ie_trivial (cond a b c size uns) = ie_trivial a && (ie_trivial b && ie_trivial c)
ie_trivial (comma a b size uns) = ie_trivial a && ie_trivial b
ie_trivial (cast op a size uns fsize funs) = ie_trivial a
ie_trivial (call name args size uns) = false
ie_trivial (call_ptr a args size uns) = false
ie_trivial (memzero var off size) = false
ie_trivial (vdef vt a size) = false
ie_trivial (vuse vt size) = false

-- `x->name == y->name || (x->name && y->name && !strcmp(x->name, y->name))`
abbrev pub same_name : Option String → Option String → Bool
same_name none none = true
same_name none (some n) = false
same_name (some m) none = false
same_name (some m) (some n) = str_eq m n

-- The builder gives every node its own tree, so two operands are never the same pointer and the
-- test `x == y` at the head of the source's function does not fire.
unfoldable pub ie_equal : IrExpr → IrExpr → Bool
ie_equal (num v size uns) (num w size' uns') = v == w
ie_equal (lea l o n v) (lea l' o' n' v') =
    v == v' && (same_bool l l' && (o == o' && same_name n n'))
ie_equal (load a size uns) (load b size' uns') =
    size == size' && (same_bool uns uns' && ie_equal a b)
ie_equal (cast k a size uns fsize funs) (cast k' b size' uns' fsize' funs') =
    same_kind k k'
    && (size == size'
        && (same_bool uns uns' && (fsize == fsize' && (same_bool funs funs' && ie_equal a b))))
ie_equal (unary op a size uns) (unary op' b size' uns') = same_op op op' && ie_equal a b
ie_equal (binop op a b size uns p) (binop op' a' b' size' uns' p') =
    same_op op op' && (size == size' && (same_bool uns uns' && (ie_equal a a' && ie_equal b b')))
ie_equal _ _ = false

-- `none` is the source's `return false`.
unfoldable pub fold_binop : NodeKind → Bool → ℕ → ℕ → Option ℕ
fold_binop nd_add uns a b = some ((a + b) % 0x100000000)
fold_binop nd_sub uns a b = some ((a + 0x100000000 - b) % 0x100000000)
fold_binop nd_mul uns a b = some (a * b % 0x100000000)
fold_binop nd_bitand uns a b = some (bit_and a b)
fold_binop nd_bitor uns a b = some (bit_or a b)
fold_binop nd_bitxor uns a b = some (bit_xor a b)
fold_binop nd_div uns a b =
    if b == 0
    then none
    else if uns
    then some (a / b)
    else if a == 0x80000000 && b == 0xffffffff
    then none
    else some (sdiv32 a b)
fold_binop nd_mod uns a b =
    if b == 0
    then none
    else if uns
    then some (a % b)
    else if a == 0x80000000 && b == 0xffffffff
    then none
    else some (smod32 a b)
fold_binop nd_shl uns a b = if is_neg b || ltb 31 b then none else some (a * 2 ^ b % 0x100000000)
fold_binop nd_shr uns a b =
    if is_neg b || ltb 31 b then none else if uns then some (a / 2 ^ b) else some (sra32 a b)
fold_binop nd_eq uns a b = some (of_bool (a == b))
fold_binop nd_ne uns a b = some (of_bool (not (a == b)))
fold_binop nd_lt uns a b = some (of_bool (if uns then ltb a b else slt32 a b))
fold_binop nd_le uns a b = some (of_bool (if uns then leb a b else sle32 a b))
fold_binop nd_neg uns a b = none
fold_binop nd_not uns a b = none
fold_binop nd_bitnot uns a b = none

unfoldable pub ie_shl1 : IrExpr → ℕ → Bool → IrExpr
ie_shl1 x size uns = binop nd_shl x (ie_num_new 1 4 false) size uns false

-- `x_const && cx == k`
abbrev pub const_is : Option ℕ → ℕ → Bool
const_is none k = false
const_is (some c) k = c == k

unfoldable pub ie_binop_identity : NodeKind → IrExpr → IrExpr → ℕ → Bool → Bool → IrExpr
ie_binop_identity nd_add a b size uns p =
    if const_is (ie_num b) 0
    then a
    else if const_is (ie_num a) 0
    then b
    else if ie_pure a && ie_equal a b
    then ie_shl1 a size uns
    else binop nd_add a b size uns p
ie_binop_identity nd_sub a b size uns p =
    if const_is (ie_num b) 0 then a else binop nd_sub a b size uns p
ie_binop_identity nd_mul a b size uns p =
    if const_is (ie_num b) 1
    then a
    else if const_is (ie_num a) 1
    then b
    else if const_is (ie_num b) 0 && ie_trivial a
    then ie_num_new 0 size uns
    else if const_is (ie_num a) 0 && ie_trivial b
    then ie_num_new 0 size uns
    else binop nd_mul a b size uns p
ie_binop_identity nd_bitand a b size uns p =
    if const_is (ie_num b) 0xffffffff
    then a
    else if const_is (ie_num a) 0xffffffff
    then b
    else if const_is (ie_num b) 0 && ie_trivial a
    then ie_num_new 0 size uns
    else if const_is (ie_num a) 0 && ie_trivial b
    then ie_num_new 0 size uns
    else binop nd_bitand a b size uns p
ie_binop_identity nd_bitor a b size uns p =
    if const_is (ie_num b) 0
    then a
    else if const_is (ie_num a) 0
    then b
    else binop nd_bitor a b size uns p
ie_binop_identity nd_bitxor a b size uns p =
    if const_is (ie_num b) 0
    then a
    else if const_is (ie_num a) 0
    then b
    else binop nd_bitxor a b size uns p
ie_binop_identity nd_shl a b size uns p =
    if const_is (ie_num b) 0 then a else binop nd_shl a b size uns p
ie_binop_identity nd_shr a b size uns p =
    if const_is (ie_num b) 0 then a else binop nd_shr a b size uns p
ie_binop_identity op a b size uns p = binop op a b size uns p

-- `(uint8_t)ca`, `(int8_t)ca`, `(uint16_t)ca`, `(int16_t)ca`, or `ca` itself
unfoldable pub narrow : ℕ → Bool → ℕ → ℕ
narrow size uns v =
    if size == 1
    then (if uns then v % 256 else if ltb (v % 256) 128 then v % 256 else v % 256 + 0xffffff00)
    else if size == 2
    then (if uns
        then v % 65536
        else if ltb (v % 65536) 32768
        then v % 65536
        else v % 65536 + 0xffff0000)
    else v

-- The cases of ie_fold's switch, on operands that are folded already.
unfoldable pub fold_cast : TypeKind → IrExpr → ℕ → Bool → ℕ → Bool → IrExpr
fold_cast op a size uns fsize funs = elim (ie_num a) [
  | none ↦ cast op a size uns fsize funs
  | some ca ↦
      if same_kind op ty_bool
      then ie_num_new (of_bool (not (ca == 0))) size uns
      else if tk_is_integer op
      then ie_num_new (narrow size uns ca) size uns
      else cast op a size uns fsize funs
]

unfoldable pub fold_unary : NodeKind → IrExpr → ℕ → Bool → IrExpr
fold_unary op a size uns = elim (ie_num a) [
  | none ↦ unary op a size uns
  | some ca ↦
      if same_op op nd_neg
      then ie_num_new (neg32 ca) size uns
      else if same_op op nd_bitnot
      then ie_num_new (0xffffffff - ca) size uns
      else if same_op op nd_not
      then ie_num_new (of_bool (ca == 0)) 4 false
      else unary op a size uns
]

unfoldable pub fold_binop_node : NodeKind → IrExpr → IrExpr → ℕ → Bool → Bool → IrExpr
fold_binop_node op a b size uns p = elim (ie_num a) [
  | none ↦ ie_binop_identity op a b size uns p
  | some ca ↦ elim (ie_num b) [
    | none ↦ ie_binop_identity op a b size uns p
    | some cb ↦ elim (fold_binop op uns ca cb) [
      | none ↦ binop op a b size uns p
      | some r ↦ ie_num_new r size uns
    ]
  ]
]

unfoldable pub fold_cond : IrExpr → IrExpr → IrExpr → ℕ → Bool → IrExpr
fold_cond a b c size uns = elim (ie_num a) [
  | none ↦ cond a b c size uns
  | some ca ↦ if not (ca == 0) then b else c
]

unfoldable pub fold_logand : IrExpr → IrExpr → IrExpr
fold_logand a b = elim (ie_num a) [
  | none ↦ logand a b
  | some ca ↦ if ca == 0 then ie_num_new 0 4 false else elim (ie_num b) [
    | none ↦ logand a b
    | some cb ↦ ie_num_new (of_bool (not (cb == 0))) 4 false
  ]
]

unfoldable pub fold_logor : IrExpr → IrExpr → IrExpr
fold_logor a b = elim (ie_num a) [
  | none ↦ logor a b
  | some ca ↦ if not (ca == 0) then ie_num_new 1 4 false else elim (ie_num b) [
    | none ↦ logor a b
    | some cb ↦ ie_num_new (of_bool (not (cb == 0))) 4 false
  ]
]

unfoldable mutual
  pub ie_fold : IrExpr → IrExpr
  ie_fold nop = nop
  ie_fold (num val size uns) = num val size uns
  ie_fold (lea local off name var) = lea local off name var
  ie_fold (load a size uns) = load (ie_fold a) size uns
  ie_fold (store a b size uns) = store (ie_fold a) (ie_fold b) size uns
  ie_fold (binop op a b size uns p) = fold_binop_node op (ie_fold a) (ie_fold b) size uns p
  ie_fold (unary op a size uns) = fold_unary op (ie_fold a) size uns
  ie_fold (logand a b) = fold_logand (ie_fold a) (ie_fold b)
  ie_fold (logor a b) = fold_logor (ie_fold a) (ie_fold b)
  ie_fold (cond a b c size uns) = fold_cond (ie_fold a) (ie_fold b) (ie_fold c) size uns
  ie_fold (comma a b size uns) = comma (ie_fold a) (ie_fold b) size uns
  ie_fold (cast op a size uns fsize funs) = fold_cast op (ie_fold a) size uns fsize funs
  ie_fold (call name args size uns) = call name (fold_args args) size uns
  ie_fold (call_ptr a args size uns) = call_ptr (ie_fold a) (fold_args args) size uns
  ie_fold (memzero var off size) = memzero var off size
  ie_fold (vdef vt a size) = vdef vt (ie_fold a) size
  ie_fold (vuse vt size) = vuse vt size

  pub fold_args : Args → Args
  fold_args no_args = no_args
  fold_args (arg e es) = arg (ie_fold e) (fold_args es)
