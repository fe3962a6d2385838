-- ===== src/Ir/Asm/Cpu.antt =====
-- What the lines of Ir/Asm.antt do on the 68000: registers, the words pushed, and the last comparison
-- in place of the condition codes. The condition of a mnemonic is its number in cond_code of
-- src/emit_elf.c, read as the manual of the processor gives it. Memory, calls and the arithmetic are those of `Machine`.
-- A taken branch goes to the next definition of its label; the code for an expression has forward branches only,
-- but for the loop of ir_memzero, on which `line` stops.
pub mod Conditions
pub mod Runs
pub mod Parts
pub mod Layout
pub mod Values
pub mod Branches
use Prim.Native.String.{String}
use c68k.Prelude.{
  ℕ, zero, suc, ◌+◌, ◌-◌, ◌*◌, ◌/◌, ◌%◌, ◌^◌, ◌≡◌, ◌≢◌, Bool, true, false, not, ◌&&◌, ◌||◌, Option,
  none, some, List, [], ◌∷◌, ltb, leb, ◌==◌, same_bool, if◌then◌else◌,
}
use c68k.Prelude.Word.{IsWord, is_neg, neg32}
use c68k.Ir.Expr.{
  NodeKind, nd_add, nd_sub, nd_mul, nd_div, nd_mod, nd_bitand, nd_bitor, nd_bitxor, nd_shl, nd_shr,
}
use c68k.Ir.Fold.{narrow}
use c68k.Ir.Meaning.{Machine}
use c68k.Elf.Chars.{chars, drop}
use c68k.Elf.Encode.{cond_code}
use c68k.Ir.Asm.{
  Label, same_label, Ea, d0, d1, a0, a1, ind_a0, ind_a1, ind_a0_d1, reg, imm, frame, sym, OpSize,
  size_b, size_w, size_l, Mnem, add_l, addq_l, sub_l, subq_l, and_l, andi_l, or_l, ori_l, eor_l,
  eori_l, asl_l, lsr_l, asr_l, Helper, mulsi3, divsi3, modsi3, udivsi3, umodsi3, Insn, def_label,
  move, moveq, lea_a0, alu, cmp_l, tst_l, neg_l, not_l, ext_w, ext_l, scc, bcc, bra, jsr_helper,
  jsr, push, pop, adda_sp, clr, clr_b_inc, dbra,
}

-- the registers that hold variables and value temporaries, as a part of the state
pub record Registers (m : Machine) : Type 0 where
  pub get : ℕ → m.State → ℕ
  pub set : ℕ → ℕ → m.State → m.State

pub record Cpu (S : Type 0) : Type 0 where
  pub d0 : ℕ
  pub d1 : ℕ
  pub a0 : ℕ
  pub a1 : ℕ
  -- the operands of the last cmp or tst, as long as the condition codes are theirs
  pub compared : Option (ℕ × ℕ)
  pub stack : List ℕ
  pub mem : S

pub data Mode (S : Type 0) : Type 0 where
  at : Cpu S → Mode S
  -- a taken branch on its way to the label
  seek : Label → Cpu S → Mode S
  stuck : Mode S

-- The condition with a number, on the codes N, Z, V and C that `cmp.l b,a` leaves.
abbrev pub condition : ℕ → ℕ → ℕ → Bool
condition code a b =
    let n = is_neg ((a + 0x100000000 - b) % 0x100000000) in
    let z = a == b in
    let v = not (same_bool (is_neg a) (is_neg b)) && not (same_bool n (is_neg a)) in
    let c = ltb a b in
    if code == 0
    then true
    else if code == 1
    then false
    else if code == 2
    then not c && not z
    else if code == 3
    then c || z
    else if code == 4
    then not c
    else if code == 5
    then c
    else if code == 6
    then not z
    else if code == 7
    then z
    else if code == 8
    then not v
    else if code == 9
    then v
    else if code == 10
    then not n
    else if code == 11
    then n
    else if code == 12
    then same_bool n v
    else if code == 13
    then not (same_bool n v)
    else if code == 14
    then not z && same_bool n v
    else z || not (same_bool n v)

-- the condition of `bcc` or `scc` by its mnemonic, `none` where it has none or the codes are unknown
unfoldable pub test : String → Option (ℕ × ℕ) → Option Bool
unfolding cond_code
test mnem none = none
test mnem (some (a, b)) = elim (cond_code (drop 1 (chars mnem))) [
  | none ↦ none
  | some c ↦ some (condition c a b)
]

abbrev pub op_of : Mnem → NodeKind × Bool
op_of add_l = (nd_add, false)
op_of addq_l = (nd_add, false)
op_of sub_l = (nd_sub, false)
op_of subq_l = (nd_sub, false)
op_of and_l = (nd_bitand, false)
op_of andi_l = (nd_bitand, false)
op_of or_l = (nd_bitor, false)
op_of ori_l = (nd_bitor, false)
op_of eor_l = (nd_bitxor, false)
op_of eori_l = (nd_bitxor, false)
op_of asl_l = (nd_shl, false)
op_of lsr_l = (nd_shr, true)
op_of asr_l = (nd_shr, false)

abbrev pub helper_of : Helper → NodeKind × Bool
helper_of mulsi3 = (nd_mul, false)
helper_of divsi3 = (nd_div, false)
helper_of modsi3 = (nd_mod, false)
helper_of udivsi3 = (nd_div, true)
helper_of umodsi3 = (nd_mod, true)

abbrev pub bytes : OpSize → ℕ
bytes size_b = 1
bytes size_w = 2
bytes size_l = 4

-- what a data register holds after its low part is written
abbrev pub merge : OpSize → ℕ → ℕ → ℕ
merge size_b old v = old - old % 256 + v % 256
merge size_w old v = old - old % 65536 + v % 65536
merge size_l old v = v

abbrev pub take {ℓ} : {A : Type ℓ} → ℕ → List A → List A
take zero xs = []
take (suc n) [] = []
take (suc n) (x ∷ xs) = x ∷ take n xs

module _ (m : Machine) (regs : Registers m) where
  abbrev pub address_of : Ea → Cpu m.State → ℕ
  address_of ind_a0 cpu = cpu.a0
  address_of ind_a1 cpu = cpu.a1
  address_of ind_a0_d1 cpu = (cpu.a0 + cpu.d1) % 0x100000000
  address_of (frame off) cpu = m.address true off none
  address_of (sym name) cpu = m.address false 0 name
  address_of _ cpu = 0

  -- the 32 bits of a register or immediate, or `size` bytes of memory with zeros in front
  abbrev pub fetch : OpSize → Ea → Cpu m.State → ℕ
  fetch size d0 cpu = cpu.d0
  fetch size d1 cpu = cpu.d1
  fetch size a0 cpu = cpu.a0
  fetch size a1 cpu = cpu.a1
  fetch size (reg r) cpu = regs.get r cpu.mem
  fetch size (imm n) cpu = n
  fetch size ea cpu = m.read (bytes size) true (address_of ea cpu) cpu.mem

  abbrev pub put : OpSize → Ea → ℕ → Cpu m.State → Mode m.State
  put size d0 v cpu = at (record cpu { d0 = merge size cpu.d0 v; compared = none })
  put size d1 v cpu = at (record cpu { d1 = merge size cpu.d1 v; compared = none })
  put size a0 v cpu = at (record cpu { a0 = v; compared = none })
  put size a1 v cpu = at (record cpu { a1 = v; compared = none })
  put size (reg r) v cpu = at (record cpu { mem = regs.set r v cpu.mem; compared = none })
  put size (imm n) v cpu = stuck
  put size ea v cpu =
      at (record cpu { mem = m.write (bytes size) (address_of ea cpu) v cpu.mem; compared = none })

  abbrev pub set_d0 : ℕ → Cpu m.State → Mode m.State
  set_d0 v cpu = at (record cpu { d0 = v; compared = none })

  -- a call: D1, A0 and A1 are the callee's
  abbrev pub returned : ℕ × m.State → Cpu m.State → Mode m.State
  returned r cpu =
      at
        (record cpu { d0 = r.0; d1 = m.junk; a0 = m.junk; a1 = m.junk; compared = none; mem = r.1 })

  abbrev pub pop_to : Ea → List ℕ → Cpu m.State → Mode m.State
  pop_to ea [] cpu = stuck
  pop_to ea (v ∷ vs) cpu = put size_l ea v (record cpu { stack = vs })

  abbrev pub branch_if : Option Bool → Label → Cpu m.State → Mode m.State
  branch_if none l cpu = stuck
  branch_if (some taken) l cpu = if taken then seek l cpu else at cpu

  abbrev pub set_if : Option Bool → Cpu m.State → Mode m.State
  set_if none cpu = stuck
  set_if (some holds) cpu = put size_b d0 (if holds then 255 else 0) cpu

  unfoldable pub step : Insn → Cpu m.State → Mode m.State
  step (def_label l) cpu = at cpu
  step (move size src dst) cpu = put size dst (fetch size src cpu) cpu
  step (moveq n dst) cpu = put size_l dst n cpu
  step (lea_a0 ea) cpu = put size_l a0 (address_of ea cpu) cpu
  step (alu mn ea) cpu = set_d0 (m.alu (op_of mn).0 (op_of mn).1 cpu.d0 (fetch size_l ea cpu)) cpu
  step (cmp_l ea) cpu = at (record cpu { compared = some (cpu.d0, fetch size_l ea cpu) })
  step tst_l cpu = at (record cpu { compared = some (cpu.d0, 0) })
  step neg_l cpu = set_d0 (neg32 cpu.d0) cpu
  step not_l cpu = set_d0 (0xffffffff - cpu.d0) cpu
  step ext_w cpu = set_d0 (merge size_w cpu.d0 (narrow 1 false (cpu.d0 % 256))) cpu
  step ext_l cpu = set_d0 (narrow 2 false (cpu.d0 % 65536)) cpu
  step (scc mnem) cpu = set_if (test mnem cpu.compared) cpu
  step (bcc mnem l) cpu = branch_if (test mnem cpu.compared) l cpu
  step (bra l) cpu = seek l cpu
  step (jsr_helper h) cpu =
      returned (m.alu (helper_of h).0 (helper_of h).1 cpu.d0 cpu.d1, cpu.mem) cpu
  step (jsr ea n) cpu = returned (m.invoke (address_of ea cpu) (take n cpu.stack) cpu.mem) cpu
  step push cpu = at (record cpu { stack = cpu.d0 ∷ cpu.stack; compared = none })
  step (pop ea) cpu = pop_to ea cpu.stack cpu
  step (adda_sp n) cpu = at (record cpu { stack = drop (n / 4) cpu.stack })
  step (clr size (frame off)) cpu =
      at (record cpu { mem = m.clear off (bytes size) cpu.mem; compared = none })
  step (clr size _) cpu = stuck
  step clr_b_inc cpu = stuck
  step (dbra l) cpu = stuck

  -- a line in passing: a branch under way looks for its label
  abbrev pub found : Insn → Label → Bool
  found (def_label l) goal = same_label l goal
  found _ goal = false

  unfoldable pub line : Insn → Mode m.State → Mode m.State
  unfolding step same_label
  line i (at cpu) = step i cpu
  line i (seek l cpu) = if found i l then at cpu else seek l cpu
  line i stuck = stuck

  unfoldable pub exec : List Insn → Mode m.State → Mode m.State
  exec [] md = md
  exec (i ∷ code) md = exec code (line i md)
