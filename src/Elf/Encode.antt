-- ===== src/Elf/Encode.antt =====
-- The instruction encoder of src/emit_elf.c: encode_insn and what it calls. An int is its 32-bit pattern;
-- `none` is error, which does not return. An operand that is missing (o2 is NULL) is the empty text.
pub mod Control
pub mod Insn
pub mod Aligned
pub mod Kept
pub mod Fixups
pub mod Conditions
mod Tests
use Prim.Native.Nat.{bit_and, bit_or}
use Prim.Native.String.{String}
use c68k.Prelude.{
  ℕ, zero, suc, ◌+◌, ◌-◌, ◌*◌, ◌/◌, ◌%◌, ◌^◌, Bool, true, false, not, ◌&&◌, ◌||◌, Option, none,
  some, List, [], ◌∷◌, ◌++◌, length, leb, ltb, ◌==◌, if◌then◌else◌,
}
use c68k.Elf.Buf.{Buf, b16, b32}
use c68k.Elf.Symbols.{Sym, sym_intern, strip_extmark}
use c68k.Elf.Chars.{is, char_at, drop, before, after, trim, parse_num}
use c68k.Elf.Operand.{Ea, shl, parse_ea}

pub record Reloc : Type 0 where
  pub sec : ℕ
  pub off : ℕ
  pub sym : List ℕ
  pub type : ℕ
  pub add : ℕ

pub record Fix : Type 0 where
  pub off : ℕ
  pub label : List ℕ

-- text, syms, rels and fixes
pub record Asm : Type 0 where
  pub text : Buf
  pub syms : List Sym
  pub rels : List Reloc
  pub fixes : List Fix

abbrev pub s_text : ℕ
s_text = 1

abbrev pub r_68k_32 : ℕ
r_68k_32 = 1

unfoldable pub add_reloc : ℕ → ℕ → List ℕ → ℕ → ℕ → Asm → Asm
unfolding sym_intern strip_extmark
add_reloc sec off sym type add st =
    let name = strip_extmark sym in
    record st {
      syms = (sym_intern name st.syms).1;
      rels = st.rels ++ record { sec = sec; off = off; sym = name; type = type; add = add } ∷ [];
    }

unfoldable pub add_fixup : ℕ → List ℕ → Asm → Asm
add_fixup off label st = record st { fixes = st.fixes ++ record { off = off; label = label } ∷ [] }

-- `b16(&text, v)`
unfoldable pub text16 : ℕ → Asm → Asm
unfolding b16
text16 v st = record st { text = b16 st.text v }

unfoldable pub text32 : ℕ → Asm → Asm
unfolding b32
text32 v st = record st { text = b32 st.text v }

-- the loop of emit_ext
unfoldable pub put_words : List ℕ → Asm → Asm
unfolding text16
put_words [] st = st
put_words (w ∷ ws) st = put_words ws (text16 w st)

unfoldable pub emit_ext : Ea → Asm → Asm
unfolding put_words add_reloc
emit_ext e st =
    if e.reloc
    then text16 0 (text16 0 (add_reloc s_text (length st.text.bytes) e.sym r_68k_32 e.add st))
    else put_words e.ext st

unfoldable pub move_size_field : ℕ → ℕ
move_size_field sz = if sz == 1 then 1 else if sz == 2 then 3 else 2

unfoldable pub std_size_field : ℕ → ℕ
std_size_field sz = if sz == 1 then 0 else if sz == 2 then 1 else 2

-- the `|` of the fields of a word
abbrev pub fields : List ℕ → ℕ
fields [] = 0
fields (x ∷ xs) = bit_or x (fields xs)

-- the six bits of an effective address
abbrev pub ea_field : Ea → ℕ
ea_field e = bit_or (shl e.mode 3) e.reg

unfoldable pub enc_move : ℕ → Ea → Ea → Asm → Asm
unfolding move_size_field emit_ext text16
enc_move sz src dst st = emit_ext dst (
    emit_ext src (
      text16
        (fields (shl (move_size_field sz) 12 ∷ shl dst.reg 9 ∷ shl dst.mode 6 ∷ ea_field src ∷ []))
        st))

unfoldable pub enc_alu : ℕ → ℕ → ℕ → Ea → ℕ → Asm → Asm
unfolding std_size_field emit_ext text16
enc_alu topnib sz dn ea dir st =
    let opmode = bit_or (shl dir 2) (std_size_field sz) in
    emit_ext ea (text16 (fields (shl topnib 12 ∷ shl dn 9 ∷ shl opmode 6 ∷ ea_field ea ∷ [])) st)

unfoldable pub enc_imm : ℕ → ℕ → ℕ → Ea → Asm → Asm
unfolding std_size_field emit_ext text16 text32
enc_imm code sz imm ea st =
    let op = text16 (fields (shl code 9 ∷ shl (std_size_field sz) 6 ∷ ea_field ea ∷ [])) st in
    emit_ext ea (
      if sz == 4
      then text32 (imm % 2 ^ 32) op
      else text16 (bit_and (imm % 2 ^ 32) (if sz == 1 then 0xff else 0xffff)) op)

unfoldable pub cond_code : List ℕ → Option ℕ
unfolding is
cond_code cc =
    if is cc "ra" || is cc "t"
    then some 0
    else if is cc "f"
    then some 1
    else if is cc "hi"
    then some 2
    else if is cc "ls"
    then some 3
    else if is cc "cc" || is cc "hs"
    then some 4
    else if is cc "cs" || is cc "lo"
    then some 5
    else if is cc "ne"
    then some 6
    else if is cc "eq"
    then some 7
    else if is cc "vc"
    then some 8
    else if is cc "vs"
    then some 9
    else if is cc "pl"
    then some 10
    else if is cc "mi"
    then some 11
    else if is cc "ge"
    then some 12
    else if is cc "lt"
    then some 13
    else if is cc "gt"
    then some 14
    else if is cc "le"
    then some 15
    else none

-- what stands behind the last dot, and before it
abbrev last_dot : List ℕ → Option (List ℕ × List ℕ)
last_dot [] = none
last_dot (c ∷ s) = elim (last_dot s) [
  | some (base, suffix) ↦ some (c ∷ base, suffix)
  | none ↦ if c == b'.' then some ([], s) else none
]

unfoldable pub split_size : List ℕ → List ℕ × ℕ
split_size m = elim (last_dot m) [
  | none ↦ (m, 0)
  | some (base, suffix) ↦
      let c = char_at suffix 0 in
      let sz : ℕ = if c == b'b' then 1 else if c == b'w' then 2 else if c == b'l' then 4 else 0 in
      if length suffix == 1 && not (sz == 0) then (base, sz) else (m, 0)
]

-- two operands, and one; error in either ends the run.
abbrev pub with_eas : List ℕ → ℕ → List ℕ → ℕ → (Ea → Ea → Asm) → Option Asm
with_eas o1 sz1 o2 sz2 f = elim (parse_ea o1 sz1) [
  | none ↦ none
  | some s ↦ elim (parse_ea o2 sz2) [ none ↦ none | some d ↦ some (f s d) ]
]

abbrev pub with_ea : List ℕ → ℕ → (Ea → Asm) → Option Asm
with_ea o sz f = elim (parse_ea o sz) [ none ↦ none | some e ↦ some (f e) ]
