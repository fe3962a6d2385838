-- ===== src/Ir/Expr.antt =====
-- IR expressions of src/ir68k.c: the struct IrExpr with a constructor for each IeKind, which has
-- the fields that the builder fills in for that kind. A pattern of bits stands for a C integer: `val`
-- below 2 ^ 64, `off` below 2 ^ 32. `var` and `vt` name the variable and the temporary pointed to.
use Prim.Native.String.{String}
use c68k.Prelude.{ℕ, Bool, true, false, ◌≡◌, Option}
use c68k.Ctype.{TypeKind}

-- The operators of NodeKind that an IR node carries.
pub data NodeKind : Type 0 where
  nd_add nd_sub nd_mul nd_div nd_neg nd_mod nd_bitand nd_bitor nd_bitxor : NodeKind
  nd_shl nd_shr nd_eq nd_ne nd_lt nd_le nd_not nd_bitnot : NodeKind

abbrev pub NodeKind-discrete : Discrete NodeKind
NodeKind-discrete = hlevel

unfoldable pub same_op : NodeKind → NodeKind → Bool
same_op j k = elim (NodeKind-discrete j k) [ yes _ ↦ true | no _ ↦ false ]

pub same_op→eq : (j k : NodeKind) → same_op j k ≡ true → j ≡ k
unfolding same_op
same_op→eq j k =
    elim (NodeKind-discrete j k) as (λ d. elim d [ yes _ ↦ true | no _ ↦ false ] ≡ true → j ≡ k) [
      | yes e ↦ λ _. e
      | no _ ↦ λ h. cc
    ]

mutual
  pub data IrExpr : Type 0 where
    nop : IrExpr
    -- val, size, uns
    num : ℕ → ℕ → Bool → IrExpr
    -- is_local, off, name, var
    lea : Bool → ℕ → Option String → ℕ → IrExpr
    -- a, size, uns
    load : IrExpr → ℕ → Bool → IrExpr
    -- a, b, size, uns
    store : IrExpr → IrExpr → ℕ → Bool → IrExpr
    -- op, a, b, size, uns, ptradd
    binop : NodeKind → IrExpr → IrExpr → ℕ → Bool → Bool → IrExpr
    -- op, a, size, uns
    unary : NodeKind → IrExpr → ℕ → Bool → IrExpr
    logand : IrExpr → IrExpr → IrExpr
    logor : IrExpr → IrExpr → IrExpr
    -- a, b, c, size, uns
    cond : IrExpr → IrExpr → IrExpr → ℕ → Bool → IrExpr
    -- a, b, size, uns
    comma : IrExpr → IrExpr → ℕ → Bool → IrExpr
    -- op, a, size, uns, fsize, funs
    cast : TypeKind → IrExpr → ℕ → Bool → ℕ → Bool → IrExpr
    -- name, args, size, uns
    call : String → Args → ℕ → Bool → IrExpr
    -- a (a function pointer), args, size, uns
    call_ptr : IrExpr → Args → ℕ → Bool → IrExpr
    -- var, off, size
    memzero : ℕ → ℕ → ℕ → IrExpr
    -- vt, a, size
    vdef : ℕ → IrExpr → ℕ → IrExpr
    -- vt, size
    vuse : ℕ → ℕ → IrExpr

  pub data Args : Type 0 where
    no_args : Args
    arg : IrExpr → Args → Args
