-- ===== src/Elf/Encode/Conditions.antt =====
-- cond_code of src/emit_elf.c against bcc_mnem of src/ir68k.c: the number of the condition that a branch encodes.
use c68k.Prelude.{ℕ, ◌+◌, ◌*◌, ◌-◌, ◌%◌, ◌≡◌, refl, Bool, true, false, Option, some}
use c68k.Ir.Rel.{Rel, rel_negate, bcc_mnem}
use c68k.Elf.Chars.{chars, drop}
use c68k.Elf.Encode.{cond_code}

-- `cond_code(bcc_mnem(r, u) + 1)`
abbrev pub branch_code : Rel → Bool → Option ℕ
branch_code r u = cond_code (drop 1 (chars (bcc_mnem r u)))

-- For each relation, signed or unsigned, the mnemonic that bcc_mnem gives has a condition number in cond_code, and
-- the negated relation has the number that differs in the lowest bit alone.
pub branch_code-rel_negate :
    (r : Rel) (u : Bool)
    → (c : ℕ) × (branch_code r u ≡ some c)
      × (branch_code (rel_negate r) u ≡ some (c + 1 - c % 2 * 2))
unfolding cond_code bcc_mnem rel_negate
branch_code-rel_negate Rel.r_lt true = (_, refl, refl)
branch_code-rel_negate Rel.r_lt false = (_, refl, refl)
branch_code-rel_negate Rel.r_le true = (_, refl, refl)
branch_code-rel_negate Rel.r_le false = (_, refl, refl)
branch_code-rel_negate Rel.r_eq u = (_, refl, refl)
branch_code-rel_negate Rel.r_ne u = (_, refl, refl)
branch_code-rel_negate Rel.r_gt true = (_, refl, refl)
branch_code-rel_negate Rel.r_gt false = (_, refl, refl)
branch_code-rel_negate Rel.r_ge true = (_, refl, refl)
branch_code-rel_negate Rel.r_ge false = (_, refl, refl)
