-- ===== src/Ir/Meaning.antt =====
-- What an IR expression computes: its value in D0, a 32-bit word, and the state that it leaves.
-- The 68000, its run-time helpers, memory and the callees are not code of this repository's C
-- sources: they are the record `Machine`, with what the folder relies on as the laws `IsMachine`.
use Prim.Native.Nat.{bit_and, bit_or, bit_xor}
use Prim.Native.String.{String}
use c68k.Prelude.{
  ℕ, ◌+◌, ◌-◌, ◌*◌, ◌/◌, ◌%◌, ◌^◌, ◌≤◌, ◌≡◌, ◌≢◌, Bool, true, false, not, ◌&&◌, Option, some, List,
  [], ◌∷◌, ltb, leb, ◌==◌, if◌then◌else◌,
}
use c68k.Prelude.Word.{IsWord, neg32, sdiv32, smod32, sra32, slt32, sle32, of_bool}
use c68k.Ctype.{TypeKind, ty_bool, ty_void, same_kind}
use c68k.Ir.Expr.{
  NodeKind, same_op, IrExpr, Args, no_args, arg, nop, num, lea, load, store, binop, unary, logand,
  logor, cond, comma, cast, call, call_ptr, memzero, vdef, vuse,
}
use c68k.Ir.Expr.{
  nd_add, nd_sub, nd_mul, nd_div, nd_mod, nd_bitand, nd_bitor, nd_bitxor, nd_shl, nd_shr, nd_eq,
  nd_ne, nd_lt, nd_le, nd_neg, nd_bitnot,
}
use c68k.Ir.Fold.{narrow}

pub record Machine : Type 1 where
  -- memory, the frame, the registers of value temporaries and all that a callee may change
  pub State : Type 0
  -- what D0 holds after a node that has no value
  pub junk : ℕ
  -- the address of a frame slot (is_local, off) or of a global (name)
  pub address : Bool → ℕ → Option String → ℕ
  -- a load of `size` bytes from an address, extended to 32 bits
  pub read : ℕ → Bool → ℕ → State → ℕ
  pub write : ℕ → ℕ → ℕ → State → State
  pub clear : ℕ → ℕ → State → State
  -- a call of an address with its arguments
  pub invoke : ℕ → List ℕ → State → ℕ × State
  pub keep : ℕ → ℕ → State → State
  pub kept : ℕ → State → ℕ
  -- the two-operand instructions and helpers (`__mulsi3`, `__divsi3` and so on)
  pub alu : NodeKind → Bool → ℕ → ℕ → ℕ

pub record IsMachine (m : Machine) : Type 0 where
  pub junk_word : IsWord m.junk
  pub address_word : (l : Bool) (o : ℕ) (n : Option String) → IsWord (m.address l o n)
  pub read_word : (size : ℕ) (uns : Bool) (p : ℕ) (s : m.State) → IsWord (m.read size uns p s)
  pub invoke_word : (p : ℕ) (vs : List ℕ) (s : m.State) → IsWord (m.invoke p vs s).0
  pub kept_word : (t : ℕ) (s : m.State) → IsWord (m.kept t s)
  pub alu_word : (op : NodeKind) (u : Bool) (a b : ℕ) → IsWord (m.alu op u a b)
  pub alu_add : (u : Bool) (a b : ℕ) → m.alu nd_add u a b ≡ (a + b) % 2 ^ 32
  pub alu_sub : (u : Bool) (a b : ℕ) → m.alu nd_sub u a b ≡ (a + 2 ^ 32 - b) % 2 ^ 32
  pub alu_mul : (u : Bool) (a b : ℕ) → m.alu nd_mul u a b ≡ a * b % 2 ^ 32
  pub alu_and : (u : Bool) (a b : ℕ) → IsWord a → IsWord b → m.alu nd_bitand u a b ≡ bit_and a b
  pub alu_or : (u : Bool) (a b : ℕ) → IsWord a → IsWord b → m.alu nd_bitor u a b ≡ bit_or a b
  pub alu_xor : (u : Bool) (a b : ℕ) → IsWord a → IsWord b → m.alu nd_bitxor u a b ≡ bit_xor a b
  pub alu_udiv : (a b : ℕ) → IsWord a → IsWord b → b ≢ 0 → m.alu nd_div true a b ≡ a / b
  pub alu_umod : (a b : ℕ) → IsWord a → IsWord b → b ≢ 0 → m.alu nd_mod true a b ≡ a % b
  pub alu_sdiv :
      (a b : ℕ)
      → IsWord a
      → IsWord b
      → b ≢ 0
      → (a == 0x80000000 && b == 0xffffffff) ≡ false
      → m.alu nd_div false a b ≡ sdiv32 a b
  pub alu_smod :
      (a b : ℕ)
      → IsWord a
      → IsWord b
      → b ≢ 0
      → (a == 0x80000000 && b == 0xffffffff) ≡ false
      → m.alu nd_mod false a b ≡ smod32 a b
  pub alu_shl : (u : Bool) (a n : ℕ) → n ≤ 31 → m.alu nd_shl u a n ≡ a * 2 ^ n % 2 ^ 32
  pub alu_shr : (a n : ℕ) → IsWord a → n ≤ 31 → m.alu nd_shr true a n ≡ a / 2 ^ n
  pub alu_sar : (a n : ℕ) → IsWord a → n ≤ 31 → m.alu nd_shr false a n ≡ sra32 a n
  pub alu_eq : (u : Bool) (a b : ℕ) → m.alu nd_eq u a b ≡ of_bool (a == b)
  pub alu_ne : (u : Bool) (a b : ℕ) → m.alu nd_ne u a b ≡ of_bool (not (a == b))
  pub alu_ult : (a b : ℕ) → m.alu nd_lt true a b ≡ of_bool (ltb a b)
  pub alu_slt : (a b : ℕ) → m.alu nd_lt false a b ≡ of_bool (slt32 a b)
  pub alu_ule : (a b : ℕ) → m.alu nd_le true a b ≡ of_bool (leb a b)
  pub alu_sle : (a b : ℕ) → m.alu nd_le false a b ≡ of_bool (sle32 a b)

-- `neg.l`, `not.l`, and `tst.l; seq; andi.l #1`
abbrev pub unary_value : NodeKind → ℕ → ℕ
unary_value op v =
    if same_op op nd_neg
    then neg32 v
    else if same_op op nd_bitnot
    then 0xffffffff - v
    else of_bool (v == 0)

-- A cast to void has no code, a cast to bool tests, and any other narrows by its size.
abbrev pub cast_value : TypeKind → ℕ → Bool → ℕ → ℕ
cast_value k size uns v =
    if same_kind k ty_void
    then v
    else if same_kind k ty_bool
    then of_bool (not (v == 0))
    else narrow size uns v

module _ (m : Machine) where
  -- The order is that of the general paths of ir_expr: a store's address and the right operand of a binop go first.
  unfoldable mutual
    pub eval : IrExpr → m.State → ℕ × m.State
    eval nop s = (m.junk, s)
    eval (num val size uns) s = (val % 0x100000000, s)
    eval (lea local off name var) s = (m.address local off name, s)
    eval (load a size uns) s = let r = eval a s in (m.read size uns r.0 r.1, r.1)
    eval (store a b size uns) s =
        let p = eval a s in let v = eval b p.1 in (v.0, m.write size p.0 v.0 v.1)
    eval (binop op a b size uns ptradd) s =
        let y = eval b s in let x = eval a y.1 in (m.alu op uns x.0 y.0, x.1)
    eval (unary op a size uns) s = let x = eval a s in (unary_value op x.0, x.1)
    eval (logand a b) s =
        let x = eval a s in
        let y = eval b x.1 in if x.0 == 0 then (0, x.1) else (of_bool (not (y.0 == 0)), y.1)
    eval (logor a b) s =
        let x = eval a s in
        let y = eval b x.1 in if x.0 == 0 then (of_bool (not (y.0 == 0)), y.1) else (1, x.1)
    eval (cond a b c size uns) s =
        let x = eval a s in let y = eval b x.1 in let z = eval c x.1 in if x.0 == 0 then z else y
    eval (comma a b size uns) s = eval b (eval a s).1
    eval (cast op a size uns fsize funs) s = let x = eval a s in (cast_value op size uns x.0, x.1)
    eval (call name args size uns) s =
        let r = eval_args args s in m.invoke (m.address false 0 (some name)) r.0 r.1
    eval (call_ptr a args size uns) s =
        let r = eval_args args s in let p = eval a r.1 in m.invoke p.0 r.0 p.1
    eval (memzero var off size) s = (m.junk, m.clear off size s)
    eval (vdef vt a size) s = let x = eval a s in (x.0, m.keep vt x.0 x.1)
    eval (vuse vt size) s = (m.kept vt s, s)

    pub eval_args : Args → m.State → List ℕ × m.State
    eval_args no_args s = ([], s)
    eval_args (arg e es) s = let r = eval_args es s in let v = eval e r.1 in (v.0 ∷ r.0, v.1)
