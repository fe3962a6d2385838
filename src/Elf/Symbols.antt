-- ===== src/Elf/Symbols.antt =====
-- The symbol table of src/emit_elf.c: sym_find, sym_intern, sym_define, and strip_extmark.
-- A name is the list of its bytes, without the NUL. A Sym pointer is the index in `syms`.
pub mod Lookup
mod Tests
use c68k.Prelude.{
  ℕ, zero, suc, ◌+◌, Bool, true, false, ◌&&◌, Option, none, some, List, [], ◌∷◌, ◌++◌, length,
  get_elem?, set, ◌==◌, if◌then◌else◌,
}

pub record Sym : Type 0 where
  pub name : List ℕ
  pub shndx : ℕ
  pub value : ℕ
  pub size : ℕ
  pub bind : ℕ
  pub is_section : Bool
  pub nameoff : ℕ
  pub index : ℕ

-- `!strcmp(s, t)`
unfoldable pub same_bytes : List ℕ → List ℕ → Bool
same_bytes [] [] = true
same_bytes (x ∷ s) (y ∷ t) = x == y && same_bytes s t
same_bytes _ _ = false

-- the loop of sym_find from index `i` on
unfoldable pub sym_find_loop : ℕ → List ℕ → List Sym → Option ℕ
sym_find_loop i name [] = none
sym_find_loop i name (s ∷ syms) =
    let rest = sym_find_loop (i + 1) name syms in if same_bytes s.name name then some i else rest

unfoldable pub sym_find : List ℕ → List Sym → Option ℕ
unfolding sym_find_loop
sym_find name syms = sym_find_loop 0 name syms

-- all zero but the name: SHN_UNDEF is 0
unfoldable pub new_sym : List ℕ → Sym
new_sym name = record {
  name = name;
  shndx = 0;
  value = 0;
  size = 0;
  bind = 0;
  is_section = false;
  nameoff = 0;
  index = 0;
}

unfoldable pub sym_intern : List ℕ → List Sym → ℕ × List Sym
unfolding sym_find new_sym
sym_intern name syms = elim (sym_find name syms) [
  | some i ↦ (i, syms)
  | none ↦ (length syms, syms ++ new_sym name ∷ [])
]

-- `s->shndx = shndx; s->value = value`, on the symbol at an index
unfoldable pub define_at : ℕ → ℕ → ℕ × List Sym → List Sym
define_at shndx value (i, syms) = elim (get_elem? syms i) [
  | none ↦ syms
  | some s ↦ set syms i (record s { shndx = shndx; value = value })
]

unfoldable pub sym_define : List ℕ → ℕ → ℕ → List Sym → List Sym
unfolding sym_intern define_at
sym_define name shndx value syms = define_at shndx value (sym_intern name syms)

-- `##` at the end of a name goes.
unfoldable pub strip_extmark : List ℕ → List ℕ
strip_extmark [] = []
strip_extmark (x ∷ []) = x ∷ []
strip_extmark (x ∷ y ∷ []) = if x == b'#' && y == b'#' then [] else x ∷ y ∷ []
strip_extmark (x ∷ y ∷ z ∷ s) = x ∷ strip_extmark (y ∷ z ∷ s)
