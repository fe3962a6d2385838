-- ===== src/Ir/Select/Expr/Built.antt =====
-- What the builder of src/ir68k.c and the type checker guarantee of an expression, and the operands that
-- the tiles recognise in such an expression.
use c68k.Prelude.{
  ℕ, ◌%◌, ◌≤◌, ◌<◌, ◌≡◌, ◌≢◌, refl, ap, ◌∙◌, Bool, true, false, ◌&&◌, Option, none, some, ◌⊎◌, inl,
  inr, ltb, leb, ◌==◌, leb→le, arith, Bool-cases,
}
use mathlib.Core.Bool.{and-eq-true_iff}
use mathlib.Core.Path.{subst}
use c68k.Ctype.{TypeKind, ty_bool, ty_void, same_kind, tk_is_integer, kind_code}
use c68k.Ir.Expr.{
  IrExpr, Args, no_args, arg, nop, num, lea, load, store, binop, unary, logand, logor, cond, comma,
  cast, call, call_ptr, memzero, vdef, vuse,
}
use c68k.Ir.Fold.{narrow}
use c68k.Ir.Meaning.{Machine, IsMachine, cast_value}
use c68k.Ir.Evaluates.{Evaluates, of_num, of_lea, of_load, of_cast}
use c68k.Ir.Asm.{Ea}
use Prim.Native.String.{String}
use c68k.Ir.Asm.Cpu.{Registers}
use c68k.Ir.Asm.Cpu.Layout.{IsLayout}
use c68k.Ir.Select.{lea_reg, ie_const, simple_ea, ie_simple_lval}
use c68k.Ir.Select.Tiles.Sides.{IsBinary}
use c68k.Ir.Select.Tiles.Stacked.{ConstOf, PlaceOf}

-- the size of a scalar of at most four bytes
abbrev pub IsAccess : ℕ → Type 0
IsAccess size = (size ≡ 1) ⊎ ((size ≡ 2) ⊎ (size ≡ 4))

module _ (var_reg vt_reg offset : ℕ → ℕ) where
  -- A local's address has its offset and no name, and a global's no offset.
  abbrev pub IsPlaced : Bool → ℕ → Option String → ℕ → Type 0
  IsPlaced true off name var = (off ≡ offset var) × (name ≡ none)
  IsPlaced false off name var = off ≡ 0

  -- An access has one, two or four bytes, a variable with a register is accessed as a whole, a cast to
  -- bool has one byte, and a value temporary has a register.
  unfoldable mutual
    pub IsBuilt : IrExpr → Type 0
    IsBuilt nop = Unit
    IsBuilt (num val size uns) = Unit
    IsBuilt (lea is_local off name var) = IsPlaced is_local off name var
    IsBuilt (load a size uns) = IsBuilt a × IsAccess size × (lea_reg var_reg a ≢ 0 → size ≡ 4)
    IsBuilt (store a b size uns) =
        IsBuilt a × IsBuilt b × IsAccess size × (lea_reg var_reg a ≢ 0 → size ≡ 4)
    IsBuilt (binop op a b size uns ptradd) = IsBuilt a × IsBuilt b × IsBinary op
    IsBuilt (unary op a size uns) = IsBuilt a
    IsBuilt (logand a b) = IsBuilt a × IsBuilt b
    IsBuilt (logor a b) = IsBuilt a × IsBuilt b
    IsBuilt (cond a b c size uns) = IsBuilt a × IsBuilt b × IsBuilt c
    IsBuilt (comma a b size uns) = IsBuilt a × IsBuilt b
    IsBuilt (cast op a size uns fsize funs) = IsBuilt a × (op ≡ ty_bool → size ≡ 1)
    IsBuilt (call name args size uns) = IsBuiltArgs args
    IsBuilt (call_ptr a args size uns) = IsBuilt a × IsBuiltArgs args
    -- cleared without a loop: a register, or at most 16 bytes at an even offset
    IsBuilt (memzero var off size) =
        (off ≡ offset var)
        × (var_reg var ≢ 0 → size ≡ 4)
        × (1 ≤ size)
        × (size ≤ 16)
        × (off % 2 ≡ 0)
        × (off < 0x100000000)
    IsBuilt (vdef vt a size) = IsBuilt a × (vt_reg vt ≢ 0)
    IsBuilt (vuse vt size) = vt_reg vt ≢ 0

    pub IsBuiltArgs : Args → Type 0
    IsBuiltArgs no_args = Unit
    IsBuiltArgs (arg e es) = IsBuilt e × IsBuiltArgs es

  -- A cast to an integer type of four bytes or more leaves the word as it is.
  wide_cast :
      (op : TypeKind) (size : ℕ) (uns : Bool) (v : ℕ)
      → (op ≡ ty_bool → size ≡ 1)
      → tk_is_integer op ≡ true
      → 4 ≤ size
      → cast_value op size uns v ≡ v
  unfolding tk_is_integer same_kind kind_code narrow
  wide_cast ty_bool size uns v h i le = absurd (omega (arith, h refl))
  wide_cast ty_void size uns v h i le = refl
  wide_cast _ size uns v h i le = ground arith

  module _ (m : Machine) (regs : Registers m) (laws : IsMachine m)
      (layout : IsLayout m regs var_reg vt_reg offset) where
    ConstOf-map :
        (R Q : m.State → ℕ → m.State → Type 0) (o : Option ℕ)
        → ((s : m.State) (c : ℕ) → R s c s → Q s c s)
        → ConstOf m regs laws R o
        → ConstOf m regs laws Q o
    ConstOf-map R Q none f h = h
    ConstOf-map R Q (some c) f h = (h.0, λ s. f s c (h.1 s))

    -- what ie_const says of an expression
    pub ie_const-ConstOf :
        (e : IrExpr) → IsBuilt e → ConstOf m regs laws (Evaluates m e) (ie_const e)
    unfolding IsBuilt ie_const
    ie_const-ConstOf (num val size uns) h = elim (Bool-cases (ltb size 4)) [
      | inl small ↦ rw small tt
      | inr wide ↦ rw wide (omega arith, λ s. of_num val size uns s)
    ]
    ie_const-ConstOf (cast op a size uns f g) h =
        elim (Bool-cases (tk_is_integer op && leb 4 size)) [
          | inr other ↦ rw other tt
          | inl same ↦
              let (i, le) = (and-eq-true_iff (tk_is_integer op) (leb 4 size)).0 same in
              rw same (
                ConstOf-map (Evaluates m a) (Evaluates m (cast op a size uns f g)) (ie_const a)
                  (λ s c r.
                    subst (λ v. Evaluates m (cast op a size uns f g) s v s)
                      (wide_cast op size uns c h.1 i (leb→le 4 size le))
                      (of_cast op size uns f g r))
                  (ie_const-ConstOf a h.0))
        ]
    ie_const-ConstOf nop h = tt
    ie_const-ConstOf _ h = tt

    PlaceOf-map :
        (R Q : m.State → ℕ → m.State → Type 0) (o : Option (Ea × ℕ))
        → ((s : m.State) (v : ℕ) → R s v s → Q s v s)
        → PlaceOf m regs laws R o
        → PlaceOf m regs laws Q o
    PlaceOf-map R Q none f h = h
    PlaceOf-map R Q (some (ea, size)) f h =
        λ e. let (val, is_val, word, r) = h e in (val, is_val, word, λ s. f s (val s) (r s))

    -- a load of four bytes from a variable
    load_long :
        (l : Bool) (off off' : ℕ) (name name' : Option String) (var size : ℕ) (uns : Bool)
        (s : m.State)
        → size ≡ 4
        → off ≡ off'
        → name ≡ name'
        → Evaluates m
            (load (lea l off name var) size uns)
            s
            (m.read 4 true (m.address l off' name') s)
            s
    load_long l off off' name name' var size uns s four e e' =
        subst (λ v. Evaluates m (load (lea l off name var) size uns) s v s)
          (ap (λ n. m.read n uns (m.address l off name) s) four
            ∙ layout.read_long uns (m.address l off name) s
            ∙ ap (λ n. m.read 4 true (m.address l n name) s) e
            ∙ ap (λ n. m.read 4 true (m.address l off' n) s) e')
          (of_load size uns (of_lea l off name var s))

    pub load_reg :
        (off : ℕ) (name : Option String) (var size : ℕ) (uns : Bool) (s : m.State)
        → size ≡ 4
        → IsPlaced true off name var
        → var_reg var ≢ 0
        → Evaluates m (load (lea true off name var) size uns) s (regs.get (var_reg var) s) s
    load_reg off name var size uns s four h nz =
        subst (λ v. Evaluates m (load (lea true off name var) size uns) s v s)
          (layout.read_var var true s nz)
          (load_long true off (offset var) name none var size uns s four h.0 h.1)

    -- the operand of a load from a variable
    simple_ea-PlaceOf :
        (a : IrExpr) (size : ℕ) (uns : Bool)
        → IsBuilt a
        → PlaceOf m regs laws (Evaluates m (load a size uns)) (simple_ea var_reg size a)
    unfolding IsBuilt simple_ea
    simple_ea-PlaceOf (lea true off name var) size uns h = elim (Bool-cases (leb 8 (var_reg var))) [
      | inl addr ↦ rw addr tt
      | inr other ↦ elim (Bool-cases (var_reg var == 0)) [
        | inl slot ↦
            rw (other, slot)
              λ e. (
                λ s. m.read 4 true (m.address true off none) s,
                λ cpu. refl,
                λ s. laws.read_word 4 true _ s,
                λ s. load_long true off off name none var size uns s e refl h.1,
              )
        | inr kept ↦
            rw (other, kept)
              λ e. (
                λ s. regs.get (var_reg var) s,
                λ cpu. refl,
                λ s. layout.get_word _ s,
                λ s. load_reg off name var size uns s e h (ground arith),
              )
      ]
    ]
    simple_ea-PlaceOf (lea false off name var) size uns h = λ e. (
      λ s. m.read 4 true (m.address false 0 name) s,
      λ cpu. refl,
      λ s. laws.read_word 4 true _ s,
      λ s. load_long false off 0 name name var size uns s e h refl,
    )
    simple_ea-PlaceOf nop size uns h = tt
    simple_ea-PlaceOf _ size uns h = tt

    -- what ie_simple_lval says of an expression
    pub ie_simple_lval-PlaceOf :
        (e : IrExpr) → IsBuilt e → PlaceOf m regs laws (Evaluates m e) (ie_simple_lval var_reg e)
    unfolding IsBuilt ie_simple_lval
    ie_simple_lval-PlaceOf (load a size uns) h = simple_ea-PlaceOf a size uns h.0
    ie_simple_lval-PlaceOf (cast op a size uns f g) h =
        elim (Bool-cases (tk_is_integer op && size == 4)) [
          | inr other ↦ rw other tt
          | inl same ↦
              let (i, four) = (and-eq-true_iff (tk_is_integer op) (size == 4)).0 same in
              rw same (
                PlaceOf-map (Evaluates m a) (Evaluates m (cast op a size uns f g))
                  (ie_simple_lval var_reg a)
                  (λ s c r.
                    subst (λ v. Evaluates m (cast op a size uns f g) s v s)
                      (wide_cast op size uns c h.1 i (ground arith)) (of_cast op size uns f g r))
                  (ie_simple_lval-PlaceOf a h.0))
        ]
    ie_simple_lval-PlaceOf nop h = tt
    ie_simple_lval-PlaceOf _ h = tt
