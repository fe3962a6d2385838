-- ===== src/Elf/Symbols/Lookup.antt =====
-- The symbol table of src/emit_elf.c as a map from names to entries.
use mathlib.Core.Path.{subst}
use c68k.Prelude.{
  ℕ, suc, ◌+◌, ◌≡◌, refl, true, false, Option, none, some, List, [], ◌∷◌, ◌++◌, length, get_elem?,
  set, Option-cases, Bool-cases, inl, inr, arith, if◌then◌else◌, ap, sym, ◌∙◌,
}
use c68k.Elf.Symbols.{
  Sym, same_bytes, sym_find_loop, sym_find, new_sym, sym_intern, define_at, sym_define,
  strip_extmark,
}

-- The first entry with the name
abbrev pub entry_of : List ℕ → List Sym → Option Sym
entry_of n [] = none
entry_of n (s ∷ syms) = if same_bytes s.name n then some s else entry_of n syms

pub same_bytes→eq : (s t : List ℕ) → same_bytes s t ≡ true → s ≡ t
unfolding same_bytes
same_bytes→eq [] [] h = refl
same_bytes→eq [] (y ∷ t) h = cc
same_bytes→eq (x ∷ s) [] h = cc
same_bytes→eq (x ∷ s) (y ∷ t) h =
    let tail : same_bytes s t ≡ true → s ≡ t = same_bytes→eq s t in grind arith

pub same_bytes_refl : (s : List ℕ) → same_bytes s s ≡ true
unfolding same_bytes
same_bytes_refl [] = refl
same_bytes_refl (x ∷ s) = ground (arith, same_bytes_refl s)

-- What the search found at index `j`: the entry, and what a write of another entry there changes.
abbrev Hit : ℕ → List ℕ → List Sym → ℕ → Type 0
Hit i name syms j =
    (d : ℕ) × (s : Sym) × (j ≡ i + d)
    × (get_elem? syms d ≡ some s)
    × (s.name ≡ name)
    × (entry_of name syms ≡ some s)
    × ((n : List ℕ) (w : Sym)
        → w.name ≡ name
        → entry_of n (set syms d w) ≡ (if same_bytes name n then some w else entry_of n syms))

sym_find_loop-Hit :
    (i j : ℕ) (name : List ℕ) (syms : List Sym)
    → sym_find_loop i name syms ≡ some j
    → Hit i name syms j
unfolding sym_find_loop
sym_find_loop-Hit i j name [] h = cc
sym_find_loop-Hit i j name (s ∷ syms) h = elim (Bool-cases (same_bytes s.name name)) [
  | inl e ↦
      let same = same_bytes→eq s.name name e in
      (
        0,
        s,
        ground arith,
        refl,
        same,
        rw e refl,
        λ n w k.
            let named : same_bytes w.name n ≡ same_bytes name n =
              ap (λ (t : List ℕ). same_bytes t n) k in
            let old : same_bytes s.name n ≡ same_bytes name n =
              ap (λ (t : List ℕ). same_bytes t n) same in
            ground arith,
      )
  | inr e ↦
      let (d, t, at, get, is, first, write) =
        sym_find_loop-Hit (i + 1) j name syms (ground arith) in
      (
        suc d,
        t,
        omega (arith, at),
        get,
        is,
        rw e first,
        λ n w k.
            let other : same_bytes name n ≡ true → same_bytes s.name n ≡ false =
              λ f. subst (λ (t : List ℕ). same_bytes s.name t ≡ false) (same_bytes→eq name n f) e in
            let rest = write n w k in ground arith,
      )
]

-- Where the search finds nothing, a new entry at the end is the first with its name.
append_entry :
    (i : ℕ) (name : List ℕ) (syms : List Sym) (w : Sym)
    → sym_find_loop i name syms ≡ none
    → w.name ≡ name
    → (get_elem? (syms ++ w ∷ []) (length syms) ≡ some w)
      × (entry_of name syms ≡ none)
      × ((v : Sym) → set (syms ++ w ∷ []) (length syms) v ≡ syms ++ v ∷ [])
      × ((n : List ℕ)
          → entry_of n (syms ++ w ∷ []) ≡ (if same_bytes name n then some w else entry_of n syms))
unfolding sym_find_loop
append_entry i name [] w h k = (refl, refl, λ v. refl, λ n. rw k refl)
append_entry i name (s ∷ syms) w h k =
    let miss : same_bytes s.name name ≡ false = ground arith in
    let (get, no_entry, write, look) = append_entry (i + 1) name syms w (ground arith) k in
    (
      get,
      rw miss no_entry,
      λ v. ap (λ (t : List Sym). s ∷ t) (write v),
      λ n.
          let other : same_bytes name n ≡ true → same_bytes s.name n ≡ false = λ f.
            subst (λ (t : List ℕ). same_bytes s.name t ≡ false) (same_bytes→eq name n f) miss in
          let rest = look n in ground arith,
    )

-- the entry that sym_define leaves, from the one that there was
abbrev pub defined : List ℕ → ℕ → ℕ → Option Sym → Sym
defined name shndx value none = record {
  name = name;
  shndx = shndx;
  value = value;
  size = 0;
  bind = 0;
  is_section = false;
  nameoff = 0;
  index = 0;
}
defined name shndx value (some s) = record s { shndx = shndx; value = value }

intern_found :
    (name : List ℕ) (syms : List Sym) (j : ℕ)
    → sym_find_loop 0 name syms ≡ some j
    → sym_intern name syms ≡ (j, syms)
unfolding sym_intern sym_find
intern_found name syms j e = rw (e, sym_intern) refl

intern_missed :
    (name : List ℕ) (syms : List Sym)
    → sym_find_loop 0 name syms ≡ none
    → sym_intern name syms ≡ (length syms, syms ++ new_sym name ∷ [])
unfolding sym_intern sym_find
intern_missed name syms e = rw (e, sym_intern) refl

define_at-set :
    (shndx value i : ℕ) (syms : List Sym) (s : Sym)
    → get_elem? syms i ≡ some s
    → define_at shndx value (i, syms) ≡ set syms i (record s { shndx = shndx; value = value })
unfolding define_at
define_at-set shndx value i syms s e = rw (e, define_at) refl

-- After sym_define the name has its entry with the new section and value and the other fields as
-- they were (zero in a new entry), and every other name has the entry that it had.
pub sym_define-entry_of :
    (name : List ℕ) (shndx value : ℕ) (syms : List Sym) (n : List ℕ)
    → entry_of n (sym_define name shndx value syms) ≡ (
        if same_bytes name n
        then some (defined name shndx value (entry_of name syms))
        else entry_of n syms)
unfolding sym_define new_sym
sym_define-entry_of name shndx value syms n = elim (Option-cases (sym_find_loop 0 name syms)) [
  | inl e ↦
      let (get, no_entry, write, look) = append_entry 0 name syms (new_sym name) e refl in
      let w : Sym = record (new_sym name) { shndx = shndx; value = value } in
      let result =
        ap (define_at shndx value) (intern_missed name syms e)
        ∙ define_at-set shndx value (length syms) (syms ++ new_sym name ∷ []) (new_sym name) get
        ∙ write w in
      let (got, absent, again, looks) = append_entry 0 name syms w e refl in
      ap (entry_of n) result
      ∙ looks n
      ∙ ap
          (λ (o : Option Sym).
            if same_bytes name n then some (defined name shndx value o) else entry_of n syms)
          (sym no_entry)
  | inr (j, e) ↦
      let (d, s, at, get, is, first, write) = sym_find_loop-Hit 0 j name syms e in
      let place : j ≡ d = omega (arith, at) in
      let result =
        ap (define_at shndx value) (intern_found name syms j e)
        ∙ ap (λ (i : ℕ). define_at shndx value (i, syms)) place
        ∙ define_at-set shndx value d syms s get in
      ap (entry_of n) result
      ∙ write n (record s { shndx = shndx; value = value }) is
      ∙ ap
          (λ (o : Option Sym).
            if same_bytes name n then some (defined name shndx value o) else entry_of n syms)
          (sym first)
]

-- sym_find returns the index of the first entry with the name, or nothing where there is none.
pub sym_find-entry_of :
    (name : List ℕ) (syms : List Sym)
    → (elim (sym_find name syms) [ none ↦ none | some i ↦ get_elem? syms i ]) ≡ entry_of name syms
unfolding sym_find new_sym
sym_find-entry_of name syms = elim (Option-cases (sym_find_loop 0 name syms)) [
  | inl e ↦ rw e (sym (append_entry 0 name syms (new_sym name) e refl).1)
  | inr (j, e) ↦
      let (d, s, at, get, is, first, write) = sym_find_loop-Hit 0 j name syms e in
      let place : j ≡ d = omega (arith, at) in rw (e, place, get) (sym first)
]

-- strip_extmark takes off one `##` at the end of any name.
pub strip_extmark-marked : (s : List ℕ) → strip_extmark (s ++ b'#' ∷ b'#' ∷ []) ≡ s
unfolding strip_extmark
strip_extmark-marked [] = refl
strip_extmark-marked (x ∷ []) = refl
strip_extmark-marked (x ∷ y ∷ []) = refl
strip_extmark-marked (x ∷ y ∷ z ∷ s) = ap (λ (t : List ℕ). x ∷ t) (strip_extmark-marked (y ∷ z ∷ s))
