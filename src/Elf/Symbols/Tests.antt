-- ===== src/Elf/Symbols/Tests.antt =====
-- The theorems on the symbol table at a concrete table.
use c68k.Prelude.{ℕ, ◌≡◌, some, List, [], ◌∷◌, if◌then◌else◌}
use c68k.Elf.Symbols.{Sym, same_bytes, new_sym, sym_define}
use c68k.Elf.Symbols.Lookup.{entry_of, defined, sym_define-entry_of}

abbrev f : List ℕ
f = 95 ∷ 102 ∷ []

abbrev g : List ℕ
g = 95 ∷ 103 ∷ []

abbrev table : List Sym
table = new_sym f ∷ new_sym g ∷ []

sym_define-entry_of_example :
    entry_of f (sym_define g 1 0x40 table)
    ≡ (if same_bytes g f then some (defined g 1 0x40 (entry_of g table)) else entry_of f table)
sym_define-entry_of_example = sym_define-entry_of g 1 0x40 table f
