-- ===== src/Ctype.antt =====
-- The enum TypeKind of src/chibicc.h, and what the back end asks of a kind.
use c68k.Prelude.{ℕ, Bool, true, false, ◌&&◌, ◌||◌, ◌≡◌, refl, leb}

pub data TypeKind : Type 0 where
  ty_void ty_bool ty_char ty_short ty_int ty_long ty_float ty_double ty_ldouble : TypeKind
  ty_enum ty_ptr ty_func ty_array ty_vla ty_struct ty_union : TypeKind

-- The enumerators' values, in declaration order.
unfoldable pub kind_code : TypeKind → ℕ
kind_code ty_void = 0
kind_code ty_bool = 1
kind_code ty_char = 2
kind_code ty_short = 3
kind_code ty_int = 4
kind_code ty_long = 5
kind_code ty_float = 6
kind_code ty_double = 7
kind_code ty_ldouble = 8
kind_code ty_enum = 9
kind_code ty_ptr = 10
kind_code ty_func = 11
kind_code ty_array = 12
kind_code ty_vla = 13
kind_code ty_struct = 14
kind_code ty_union = 15

abbrev pub TypeKind-discrete : Discrete TypeKind
TypeKind-discrete = hlevel

unfoldable pub same_kind : TypeKind → TypeKind → Bool
same_kind j k = elim (TypeKind-discrete j k) [ yes _ ↦ true | no _ ↦ false ]

-- `k == TY_BOOL || (k >= TY_CHAR && k <= TY_LONG) || k == TY_ENUM`
unfoldable pub tk_is_integer : TypeKind → Bool
unfolding kind_code same_kind
tk_is_integer k =
    same_kind k ty_bool
    || (leb (kind_code ty_char) (kind_code k) && leb (kind_code k) (kind_code ty_long))
    || same_kind k ty_enum

pub same_kind→eq : (j k : TypeKind) → same_kind j k ≡ true → j ≡ k
unfolding same_kind
same_kind→eq j k =
    elim (TypeKind-discrete j k) as (λ d. elim d [ yes _ ↦ true | no _ ↦ false ] ≡ true → j ≡ k) [
      | yes e ↦ λ _. e
      | no _ ↦ λ h. cc
    ]

enum_is_integer : tk_is_integer ty_enum ≡ true
unfolding tk_is_integer
enum_is_integer = refl

pointer_is_no_integer : tk_is_integer ty_ptr ≡ false
unfolding tk_is_integer
pointer_is_no_integer = refl
