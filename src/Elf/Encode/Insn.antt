-- ===== src/Elf/Encode/Insn.antt =====
-- encode_insn of src/emit_elf.c, with Control a definition for each group of mnemonics, in the source's order.
use Prim.Native.Nat.{bit_and, bit_or}
use Prim.Native.String.{String}
use c68k.Prelude.{
  ℕ, Bool, false, ◌&&◌, ◌||◌, Option, none, some, List, [], ◌∷◌, length, leb, ◌==◌, if◌then◌else◌,
}
use c68k.Elf.Chars.{is, char_at, drop, parse_num}
use c68k.Elf.Operand.{Ea, shl, parse_ea}
use c68k.Elf.Encode.{
  Asm, text16, emit_ext, std_size_field, fields, ea_field, enc_move, enc_alu, enc_imm, split_size,
  with_eas, with_ea,
}
use c68k.Elf.Encode.Control.{
  insn_jump, insn_link, insn_unlk, insn_movem, insn_branch, insn_dbra, insn_scc,
}

unfoldable pub insn_move : ℕ → List ℕ → List ℕ → Asm → Option Asm
unfolding enc_move
insn_move sz o1 o2 st = with_eas o1 sz o2 sz (λ s d. enc_move sz s d st)

unfoldable pub insn_moveq : List ℕ → List ℕ → Asm → Option Asm
unfolding text16
insn_moveq o1 o2 st =
    with_ea o2 4
      (λ d. text16 (fields (shl 7 12 ∷ shl d.reg 9 ∷ bit_and (parse_num (drop 1 o1)) 0xff ∷ [])) st)

unfoldable pub insn_lea : List ℕ → List ℕ → Asm → Option Asm
unfolding emit_ext text16
insn_lea o1 o2 st =
    with_eas o1 4 o2 4
      (λ s d. emit_ext s (text16 (fields (shl 4 12 ∷ shl d.reg 9 ∷ shl 7 6 ∷ ea_field s ∷ [])) st))

-- add, sub, and, or, eor, cmp
abbrev pub imm_code : List ℕ → ℕ
imm_code base =
    if is base "or"
    then 0
    else if is base "and"
    then 1
    else if is base "sub"
    then 2
    else if is base "add"
    then 3
    else if is base "eor"
    then 5
    else 6

abbrev pub alu_topnib : List ℕ → ℕ
alu_topnib base =
    if is base "add"
    then 0xd
    else if is base "sub"
    then 9
    else if is base "and"
    then 0xc
    else if is base "or"
    then 8
    else 0xb

unfoldable pub insn_alu : List ℕ → ℕ → List ℕ → List ℕ → Asm → Option Asm
unfolding enc_imm enc_alu emit_ext text16 is std_size_field
insn_alu base sz o1 o2 st = with_eas o1 sz o2 sz (λ s d.
    if s.is_imm
    then enc_imm (imm_code base) sz s.imm d st
    else if is base "eor"
    then emit_ext d (
        text16
          (fields
            (shl 0xb 12 ∷ shl s.reg 9 ∷ shl (bit_or 4 (std_size_field sz)) 6 ∷ ea_field d ∷ []))
          st)
    else enc_alu (alu_topnib base) sz d.reg s 0 st)

-- 1 at `s`
abbrev pub is_sub : List ℕ → ℕ
is_sub base = if char_at base 0 == b's' then 1 else 0

-- adda, suba
unfoldable pub insn_adda : List ℕ → ℕ → List ℕ → List ℕ → Asm → Option Asm
unfolding emit_ext text16 std_size_field
insn_adda base sz o1 o2 st = with_eas o1 sz o2 sz (λ s d.
    if s.is_imm && leb 1 s.imm && leb s.imm 8
    then text16
        (fields (
          shl 5 12
          ∷ shl (bit_and s.imm 7) 9
          ∷ shl (is_sub base) 8
          ∷ shl (std_size_field sz) 6
          ∷ shl 1 3
          ∷ d.reg
          ∷ []))
        st
    else let topnib : ℕ = if is_sub base == 1 then 9 else 0xd in
      let opmode : ℕ = if sz == 4 then 7 else 3 in
      emit_ext s
        (text16 (fields (shl topnib 12 ∷ shl d.reg 9 ∷ shl opmode 6 ∷ ea_field s ∷ [])) st))

-- addq, subq
unfoldable pub insn_addq : List ℕ → ℕ → List ℕ → List ℕ → Asm → Option Asm
unfolding emit_ext text16 std_size_field
insn_addq base sz o1 o2 st = with_eas o1 sz o2 sz (λ s d. emit_ext d (
    text16
      (fields (
        shl 5 12
        ∷ shl (bit_and s.imm 7) 9
        ∷ shl (is_sub base) 8
        ∷ shl (std_size_field sz) 6
        ∷ ea_field d
        ∷ []))
      st))

-- addx, subx
unfoldable pub insn_addx : List ℕ → ℕ → List ℕ → List ℕ → Asm → Option Asm
unfolding text16 std_size_field
insn_addx base sz o1 o2 st = with_eas o1 sz o2 sz (λ s d.
    let topnib : ℕ = if is_sub base == 1 then 9 else 0xd in
    text16 (fields (shl topnib 12 ∷ shl d.reg 9 ∷ shl 1 8 ∷ shl (std_size_field sz) 6 ∷ s.reg ∷ []))
      st)

-- andi, ori, eori
unfoldable pub insn_logic_imm : List ℕ → ℕ → List ℕ → List ℕ → Asm → Option Asm
unfolding enc_imm is
insn_logic_imm base sz o1 o2 st =
    with_eas o1 sz o2 sz
      (λ s d. enc_imm (if is base "ori" then 0 else if is base "andi" then 1 else 5) sz s.imm d st)

unfoldable pub insn_ext : ℕ → List ℕ → Asm → Option Asm
unfolding text16
insn_ext sz o1 st =
    with_ea o1 sz
      (λ d. text16 (fields (shl 0x48 8 ∷ shl (if sz == 4 then 3 else 2) 6 ∷ d.reg ∷ [])) st)

-- neg, negx, not, tst, clr
unfoldable pub insn_unary : List ℕ → ℕ → List ℕ → Asm → Option Asm
unfolding emit_ext text16 std_size_field is
insn_unary base sz o1 st = with_ea o1 sz (λ d.
    let hi : ℕ =
      if is base "negx"
      then 0x40
      else if is base "clr"
      then 0x42
      else if is base "neg"
      then 0x44
      else if is base "not"
      then 0x46
      else 0x4a in
    emit_ext d (text16 (fields (shl hi 8 ∷ shl (std_size_field sz) 6 ∷ ea_field d ∷ [])) st))

-- asl, asr, lsl, lsr
unfoldable pub insn_shift : List ℕ → ℕ → List ℕ → List ℕ → Asm → Option Asm
unfolding text16 std_size_field parse_ea
insn_shift base sz o1 o2 st =
    let dir : ℕ = if char_at base 1 == b's' && char_at base 2 == b'l' then 1 else 0 in
    let type : ℕ = if char_at base 0 == b'a' then 0 else 1 in
    let op = λ (d : Ea) (cnt ir : ℕ).
      text16
        (fields (
          shl 0xe 12
          ∷ shl cnt 9
          ∷ shl dir 8
          ∷ shl (std_size_field sz) 6
          ∷ shl ir 5
          ∷ shl type 3
          ∷ d.reg
          ∷ []))
        st in
    if char_at o1 0 == b'#'
    then with_ea o2 sz (λ d. op d (bit_and (parse_num (drop 1 o1)) 7) 0)
    else with_eas o1 sz o2 sz (λ c d. op d c.reg 1)

abbrev one_of : List ℕ → List String → Bool
one_of base [] = false
one_of base (name ∷ names) = is base name || one_of base names

-- `if (test) { ...; return; }` in a row; error at the end
unfoldable pub dispatch : List (Bool × Option Asm) → Option Asm
dispatch [] = none
dispatch ((test, outcome) ∷ rest) = if test then outcome else dispatch rest

-- the tests on the mnemonic without its size, in order, and what each does
abbrev pub insn_cases : List ℕ → ℕ → List ℕ → List ℕ → Asm → List (Bool × Option Asm)
insn_cases base sz o1 o2 st =
    ((one_of base ("move" ∷ "movea" ∷ []), insn_move sz o1 o2 st)
      ∷ (is base "moveq", insn_moveq o1 o2 st)
      ∷ (is base "lea", insn_lea o1 o2 st)
      ∷ (one_of base ("add" ∷ "sub" ∷ "and" ∷ "or" ∷ "eor" ∷ "cmp" ∷ []), insn_alu base sz o1 o2 st)
      ∷ (one_of base ("adda" ∷ "suba" ∷ []), insn_adda base sz o1 o2 st)
      ∷ (one_of base ("addq" ∷ "subq" ∷ []), insn_addq base sz o1 o2 st)
      ∷ (one_of base ("addx" ∷ "subx" ∷ []), insn_addx base sz o1 o2 st)
      ∷ (one_of base ("andi" ∷ "ori" ∷ "eori" ∷ []), insn_logic_imm base sz o1 o2 st)
      ∷ (is base "ext", insn_ext sz o1 st)
      ∷ (one_of base ("neg" ∷ "negx" ∷ "not" ∷ "tst" ∷ "clr" ∷ []), insn_unary base sz o1 st)
      ∷ (one_of base ("asl" ∷ "asr" ∷ "lsl" ∷ "lsr" ∷ []), insn_shift base sz o1 o2 st)
      ∷ (is base "jsr", insn_jump 0x80 o1 st)
      ∷ (is base "jmp", insn_jump 0xc0 o1 st)
      ∷ (is base "link", insn_link o1 o2 st)
      ∷ (is base "unlk", insn_unlk o1 st)
      ∷ (is base "movem", insn_movem sz o1 o2 st)
      ∷ (is base "rts", some (text16 0x4e75 st))
      ∷ (is base "nop", some (text16 0x4e71 st))
      ∷ (is base "bra" || (char_at base 0 == b'b' && length base == 3), insn_branch base o1 st)
      ∷ (one_of base ("dbra" ∷ "dbf" ∷ []), insn_dbra o1 o2 st)
      ∷ (char_at base 0 == b's' && leb 3 (length base), insn_scc base o1 st)
      ∷ [])

unfoldable pub encode_insn : List ℕ → List ℕ → List ℕ → Asm → Option Asm
unfolding split_size dispatch insn_move insn_moveq insn_lea insn_alu insn_adda insn_addq insn_addx
    insn_logic_imm insn_ext insn_unary insn_shift insn_jump insn_link insn_unlk insn_movem
    insn_branch insn_dbra insn_scc is text16
encode_insn mnem o1 o2 st =
    let (base, sz) = split_size mnem in dispatch (insn_cases base sz o1 o2 st)
