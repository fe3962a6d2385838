-- ===== src/Elf/Encode/Control.antt =====
-- encode_insn of src/emit_elf.c: jsr, jmp, link, unlk, movem, the branches and scc.
use Prim.Native.Nat.{bit_and, bit_or}
use c68k.Prelude.{
  ℕ, zero, suc, ◌+◌, ◌-◌, ◌/◌, ◌%◌, ◌^◌, Bool, true, false, ◌&&◌, ◌||◌, Option, none, some, List,
  [], ◌∷◌, length, leb, ltb, ◌==◌, if◌then◌else◌,
}
use c68k.Elf.Chars.{is, char_at, drop, after, trim, parse_num}
use c68k.Elf.Operand.{shl}
use c68k.Elf.Encode.{Asm, text16, emit_ext, fields, ea_field, cond_code, with_ea, add_fixup}

-- jsr is 0x80, and jmp 0xc0.
unfoldable pub insn_jump : ℕ → List ℕ → Asm → Option Asm
unfolding emit_ext text16
insn_jump low o1 st =
    with_ea o1 4 (λ s. emit_ext s (text16 (fields (shl 0x4e 8 ∷ low ∷ ea_field s ∷ [])) st))

unfoldable pub insn_link : List ℕ → List ℕ → Asm → Option Asm
unfolding text16
insn_link o1 o2 st =
    with_ea o1 4
      (λ a. text16 (bit_and (parse_num (drop 1 o2)) 0xffff) (text16 (bit_or 0x4e50 a.reg) st))

unfoldable pub insn_unlk : List ℕ → Asm → Option Asm
unfolding text16
insn_unlk o1 st = with_ea o1 4 (λ a. text16 (bit_or 0x4e58 a.reg) st)

-- the register whose name starts with these two bytes; C has no meaning for a byte below '0' or a shift by 32.
abbrev list_reg : ℕ → ℕ → Option ℕ
list_reg c n =
    let i = (if c == b'a' then 8 else 0) + (n - b'0') in
    if leb b'0' n && ltb i 32 then some i else none

-- `set |= 1 << i` for `n` numbers from `i` on
abbrev set_from : ℕ → ℕ → ℕ → ℕ
set_from i zero set = set
set_from i (suc n) set = set_from (i + 1) n (bit_or set (shl 1 i))

-- the registers of a list; every round reads a byte at least, so the length of the text is enough fuel.
abbrev pub movem_set : ℕ → List ℕ → ℕ → Option ℕ
movem_set zero p set = some set
movem_set (suc fuel) p set =
    let c = char_at p 0 in
    let skipped = movem_set fuel (drop 1 p) set in
    let single = λ (lo : ℕ). movem_set fuel (drop 2 p) (set_from lo 1 set) in
    let range = λ (lo hi : ℕ). movem_set fuel (drop 5 p) (set_from lo (hi + 1 - lo) set) in
    if c == 0
    then some set
    else if c == b'/' || c == b' '
    then skipped
    else elim (list_reg c (char_at p 1)) [
      | none ↦ none
      | some lo ↦
          if char_at p 2 == b'-'
          then elim (list_reg (char_at p 3) (char_at p 4)) [ none ↦ none | some hi ↦ range lo hi ]
          else single lo
    ]

-- `n` bits of the mask from bit `i` on, reversed for -(An)
abbrev mask_from : ℕ → ℕ → ℕ → Bool → ℕ
mask_from set i zero reverse = 0
mask_from set i (suc n) reverse =
    bit_or (if set / 2 ^ i % 2 == 1 then shl 1 (if reverse then 15 - i else i) else 0)
      (mask_from set (i + 1) n reverse)

unfoldable pub insn_movem : ℕ → List ℕ → List ℕ → Asm → Option Asm
unfolding emit_ext text16
insn_movem sz o1 o2 st =
    let to_regs = elim (after b'(' o1) as (λ _. Bool) [ none ↦ false | some _ ↦ true ] in
    let eaop = if to_regs then o1 else o2 in
    let listop = if to_regs then o2 else o1 in
    elim (movem_set (length listop) listop 0) [
      | none ↦ none
      | some set ↦ with_ea eaop sz (λ ea.
          let op = fields (
            0x4880
            ∷ shl (if to_regs then 1 else 0) 10
            ∷ (if sz == 4 then 0x40 else 0)
            ∷ ea_field ea
            ∷ []) in
          emit_ext ea (text16 (mask_from set 0 16 (ea.mode == 4)) (text16 op st)))
    ]

-- a word whose displacement is filled in later
unfoldable pub branch_word : List ℕ → Asm → Asm
unfolding add_fixup text16
branch_word label st = text16 0 (add_fixup (length st.text.bytes) (trim label) st)

unfoldable pub insn_branch : List ℕ → List ℕ → Asm → Option Asm
unfolding branch_word text16 cond_code
insn_branch base o1 st =
    let cc = if is base "bra" then b'r' ∷ b'a' ∷ [] else drop 1 base in
    elim (cond_code cc) [
      | none ↦ none
      | some c ↦ some (branch_word o1 (text16 (bit_or (shl 6 12) (shl c 8)) st))
    ]

unfoldable pub insn_dbra : List ℕ → List ℕ → Asm → Option Asm
unfolding branch_word text16
insn_dbra o1 o2 st = with_ea o1 2 (λ d. branch_word o2 (text16 (bit_or 0x51c8 d.reg) st))

unfoldable pub insn_scc : List ℕ → List ℕ → Asm → Option Asm
unfolding text16 cond_code
insn_scc base o1 st = elim (cond_code (drop 1 base)) [
  | none ↦ none
  | some c ↦ with_ea o1 1 (λ d. text16 (fields (shl 5 12 ∷ shl c 8 ∷ shl 3 6 ∷ ea_field d ∷ [])) st)
]
