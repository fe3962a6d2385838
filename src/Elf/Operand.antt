-- ===== src/Elf/Operand.antt =====
-- reg_num and parse_ea of src/emit_elf.c: the text of an operand as an effective address of the 68000.
-- An int is its 32-bit pattern and imm the 64-bit one. `none` is error, which does not return.
use Prim.Native.Nat.{bit_and, bit_or}
use c68k.Prelude.{
  ℕ, ◌+◌, ◌-◌, ◌*◌, ◌/◌, ◌%◌, ◌^◌, Bool, true, false, ◌&&◌, ◌||◌, Option, none, some, List, [], ◌∷◌,
  leb, ◌==◌, if◌then◌else◌,
}
use c68k.Elf.Chars.{is, char_at, drop, before, after, trim, parse_num}

pub record Ea : Type 0 where
  pub mode : ℕ
  pub reg : ℕ
  -- ext[0 .. next)
  pub ext : List ℕ
  pub reloc : Bool
  pub sym : List ℕ
  pub add : ℕ
  pub is_imm : Bool
  pub imm : ℕ

-- memset, and the mode and register
abbrev pub plain : ℕ → ℕ → List ℕ → Ea
plain mode reg ext = record {
  mode = mode;
  reg = reg;
  ext = ext;
  reloc = false;
  sym = [];
  add = 0;
  is_imm = false;
  imm = 0;
}

-- `c - '0'` as an int
abbrev pub digit_value : ℕ → ℕ
digit_value c = (c + 2 ^ 32 - b'0') % 2 ^ 32

-- `x << k` on an int
abbrev pub shl : ℕ → ℕ → ℕ
shl x k = x * 2 ^ k % 2 ^ 32

unfoldable pub reg_num : List ℕ → Option ℕ
unfolding is
reg_num s =
    if is s "sp"
    then some 7
    else if char_at s 0 == b'd' || char_at s 0 == b'a'
    then some (digit_value (char_at s 1))
    else none

-- `#imm`
unfoldable pub ea_immediate : List ℕ → ℕ → Ea
unfolding parse_num
ea_immediate s size =
    let v = parse_num (drop 1 s) in
    let ext =
      if size == 4
      then bit_and (v / 2 ^ 16) 0xffff ∷ bit_and v 0xffff ∷ []
      else bit_and v (if size == 1 then 0xff else 0xffff) ∷ [] in
    record (plain 7 4 ext) { is_imm = true; imm = v }

-- `(An,Xn.SIZE)`: `a` stands before the comma, and `x` between it and the parenthesis.
unfoldable pub ea_indexed : List ℕ → List ℕ → Option Ea
unfolding reg_num trim
ea_indexed a x =
    let ip = trim x in
    let itype : ℕ = if char_at ip 0 == b'a' then 1 else 0 in
    let ireg = digit_value (char_at ip 1) in
    let isz : ℕ = elim (after b'.' ip) [
      | none ↦ 1
      | some t ↦ if char_at t 0 == b'w' then 0 else 1
    ] in
    elim (reg_num a) [
      | none ↦ none
      | some r ↦ some (plain 6 r (bit_or (bit_or (shl itype 15) (shl ireg 12)) (shl isz 11) ∷ []))
    ]

-- `(An)`, `(An)+` and `(An,Xn.SIZE)`
unfoldable pub ea_indirect : List ℕ → Option Ea
unfolding ea_indexed reg_num
ea_indirect s =
    let p = drop 1 s in
    let inside = before b')' p in
    let plus = elim (after b')' p) as (λ _. Bool) [ none ↦ false | some t ↦ char_at t 0 == b'+' ] in
    elim (after b',' inside) [
      | some x ↦ ea_indexed (before b',' inside) x
      | none ↦ elim (reg_num inside) [
        | none ↦ none
        | some r ↦ some (plain (if plus then 3 else 2) r [])
      ]
    ]

-- `dN`, `aN` and nothing behind
unfoldable pub is_reg_direct : List ℕ → Bool
is_reg_direct s =
    (char_at s 0 == b'd' || char_at s 0 == b'a')
    && leb b'0' (char_at s 1)
    && leb (char_at s 1) b'9'
    && char_at s 2 == 0

-- the first `+` or `-` and what follows it
abbrev sign_at : List ℕ → Option (List ℕ)
sign_at [] = none
sign_at (c ∷ s) = let rest = sign_at s in if c == b'+' || c == b'-' then some (c ∷ s) else rest

abbrev before_sign : List ℕ → List ℕ
before_sign [] = []
before_sign (c ∷ s) = let rest = before_sign s in if c == b'+' || c == b'-' then [] else c ∷ rest

-- a label, with or without an offset; its first byte is no sign.
unfoldable pub ea_absolute : List ℕ → Ea
unfolding parse_num
ea_absolute [] = record (plain 7 1 (0 ∷ 0 ∷ [])) { reloc = true }
ea_absolute (c ∷ s) = elim (sign_at s) [
  | none ↦ record (plain 7 1 (0 ∷ 0 ∷ [])) { reloc = true; sym = c ∷ s }
  | some t ↦ record (plain 7 1 (0 ∷ 0 ∷ [])) {
    reloc = true;
    sym = c ∷ before_sign s;
    add = parse_num t % 2 ^ 32;
  }
]

-- `disp(An)`, or a label
unfoldable pub ea_other : List ℕ → Option Ea
unfolding ea_absolute reg_num parse_num
ea_other s = elim (after b'(' s) [
  | none ↦ some (ea_absolute s)
  | some p ↦ elim (reg_num (before b')' p)) [
    | none ↦ none
    | some r ↦ some (plain 5 r (bit_and (parse_num (before b'(' s)) 0xffff ∷ []))
  ]
]

unfoldable pub parse_ea : List ℕ → ℕ → Option Ea
unfolding ea_immediate reg_num ea_indirect is_reg_direct ea_other trim is
parse_ea text size =
    let s = trim text in
    let c = char_at s 0 in
    if c == b'#'
    then some (ea_immediate s size)
    else if c == b'-' && char_at s 1 == b'('
    then elim (reg_num (before b')' (drop 2 s))) [ none ↦ none | some r ↦ some (plain 4 r []) ]
    else if c == b'('
    then ea_indirect s
    else if is_reg_direct s
    then some (plain (if c == b'd' then 0 else 1) (digit_value (char_at s 1)) [])
    else if is s "sp"
    then some (plain 1 7 [])
    else ea_other s
