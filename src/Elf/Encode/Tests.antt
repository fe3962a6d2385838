-- ===== src/Elf/Encode/Tests.antt =====
-- The encoder of src/emit_elf.c at concrete instructions, and its theorems there.
use c68k.Prelude.{
  ℕ, ◌+◌, ◌-◌, ◌*◌, ◌%◌, ◌≡◌, ◌<◌, ◌^◌, ◌↔◌, refl, true, Option, none, some, List, [], ◌∷◌, inl,
  arith,
}
use c68k.Ir.Rel.{Rel, rel_negate}
use c68k.Elf.Buf.{b8}
use c68k.Elf.Symbols.{Sym, sym_define, same_bytes}
use c68k.Elf.Chars.{chars}
use c68k.Elf.Encode.{Asm, Fix}
use c68k.Elf.Encode.Aligned.{Holds}
use c68k.Elf.Encode.Conditions.{branch_code, branch_code-rel_negate}
use c68k.Elf.Encode.Fixups.{
  IsInText, resolve_fixups, word_at, FixIn, resolve_fixups-displacement, resolve_fixups_iff,
}
use c68k.Elf.Encode.Insn.{encode_insn}
use c68k.Elf.Encode.Kept.{encode_insn-Holds}

abbrev empty : Asm
empty = record { text = record { bytes = []; cap = 0 }; syms = []; rels = []; fixes = [] }

abbrev bytes_of : Option Asm → List ℕ
bytes_of none = []
bytes_of (some st) = st.text.bytes

abbrev encoded : List ℕ → List ℕ → List ℕ → List ℕ
encoded mnem o1 o2 = bytes_of (encode_insn mnem o1 o2 empty)

-- 202E FFFC, 48E7 3020, 508F and 12F0 1000
move_run : encoded (chars "move.l") (chars "-4(a6)") (chars "d0") ≡ 0x20 ∷ 0x2e ∷ 0xff ∷ 0xfc ∷ []
unfolding encode_insn b8
move_run = refl

movem_run :
    encoded (chars "movem.l") (chars "d2-d3/a2") (chars "-(sp)") ≡ 0x48 ∷ 0xe7 ∷ 0x30 ∷ 0x20 ∷ []
unfolding encode_insn b8
movem_run = refl

adda_run : encoded (chars "adda.l") (chars "#8") (chars "sp") ≡ 0x50 ∷ 0x8f ∷ []
unfolding encode_insn b8
adda_run = refl

indexed_run :
    encoded (chars "move.b") (chars "(a0,d1.w)") (chars "(a1)+") ≡ 0x12 ∷ 0xf0 ∷ 0x10 ∷ 0 ∷ []
unfolding encode_insn b8
indexed_run = refl

encode_insn-Holds_example : Holds (encode_insn (chars "jsr") (chars "_printf##") [] empty)
encode_insn-Holds_example =
    encode_insn-Holds empty (omega arith, omega arith, tt) (chars "jsr") (chars "_printf##") []

branch_code-rel_negate_example :
    (c : ℕ) × (branch_code Rel.r_lt true ≡ some c)
    × (branch_code (rel_negate Rel.r_lt) true ≡ some (c + 1 - c % 2 * 2))
branch_code-rel_negate_example = branch_code-rel_negate Rel.r_lt true

-- a branch at 0 to the label at 4
abbrev label : List ℕ
label = chars "L1"

abbrev table : List Sym
table = sym_define label 1 4 []

abbrev branch : Fix
branch = record { off = 2; label = label }

abbrev code : List ℕ
code = 0x66 ∷ 0 ∷ 0 ∷ 0 ∷ 0x4e ∷ 0x75 ∷ []

resolved : resolve_fixups table (branch ∷ []) code ≡ some (0x66 ∷ 0 ∷ 0 ∷ 2 ∷ 0x4e ∷ 0x75 ∷ [])
unfolding resolve_fixups sym_define same_bytes
resolved = refl

resolve_fixups-displacement_example :
    (t : Sym) × IsInText table label t
    × (word_at (0x66 ∷ 0 ∷ 0 ∷ 2 ∷ 0x4e ∷ 0x75 ∷ []) 2 < 2 ^ 16)
    × ((2 + word_at (0x66 ∷ 0 ∷ 0 ∷ 2 ∷ 0x4e ∷ 0x75 ∷ []) 2) % 2 ^ 16 ≡ t.value % 2 ^ 16)
resolve_fixups-displacement_example =
    resolve_fixups-displacement table (branch ∷ []) code (0x66 ∷ 0 ∷ 0 ∷ 2 ∷ 0x4e ∷ 0x75 ∷ []) 0
      branch (omega arith, omega arith, omega arith) resolved (inl refl)

resolve_fixups_iff_example :
    ((out : List ℕ) × (resolve_fixups table (branch ∷ []) code ≡ some out))
    ↔ ((f : Fix) → FixIn f (branch ∷ []) → (t : Sym) × IsInText table f.label t)
resolve_fixups_iff_example = resolve_fixups_iff table (branch ∷ []) code
