-- ===== src/Elf/Encode/Fixups.antt =====
-- resolve_fixups of src/emit_elf.c: the displacement words of the branches. An int32_t is its bit pattern.
use mathlib.Core.Path.{subst}
use c68k.Prelude.{
  ℕ, zero, suc, ◌+◌, ◌-◌, ◌*◌, ◌/◌, ◌%◌, ◌^◌, ◌<◌, ◌≤◌, ◌≡◌, ◌≢◌, refl, ap, sym, ◌∙◌, Option, none,
  some, List, [], ◌∷◌, length, get_elem?, get_or, set, length-set, ◌==◌, if◌then◌else◌, arith, ◌⊎◌,
  ◌↔◌, Option-cases, Bool-cases, ==_iff, inl, inr,
}
use c68k.Elf.Symbols.{Sym, sym_find}
use c68k.Elf.Symbols.Lookup.{entry_of, sym_find-entry_of}
use c68k.Elf.Encode.{Fix, s_text}
use c68k.Elf.Encode.Aligned.{FixesIn}

-- the symbol that a label names
unfoldable pub target : List Sym → List ℕ → Option ℕ
unfolding sym_find
target syms label = elim (sym_find label syms) [
  | none ↦ none
  | some i ↦ elim (get_elem? syms i) [
    | none ↦ none
    | some t ↦ if t.shndx == s_text then some t.value else none
  ]
]

unfoldable pub displacement : ℕ → ℕ → ℕ
displacement value off = (value + 2 ^ 32 - off % 2 ^ 32) % 2 ^ 32

-- the bytes of text.data
unfoldable pub resolve_fixups : List Sym → List Fix → List ℕ → Option (List ℕ)
unfolding target displacement
resolve_fixups syms [] bytes = some bytes
resolve_fixups syms (f ∷ fixes) bytes = elim (target syms f.label) [
  | none ↦ none
  | some value ↦
      let disp = displacement value f.off in
      resolve_fixups syms fixes (set (set bytes f.off (disp / 256 % 256)) (f.off + 1) (disp % 256))
]

-- the two bytes at an offset, as an unsigned number
abbrev pub word_at : List ℕ → ℕ → ℕ
word_at bytes off = get_or bytes off 0 * 256 + get_or bytes (off + 1) 0

get_or-set_same : (l : List ℕ) (i x : ℕ) → i < length l → get_or (set l i x) i 0 ≡ x
get_or-set_same [] i x h = absurd (omega arith)
get_or-set_same (y ∷ l) zero x h = refl
get_or-set_same (y ∷ l) (suc i) x h = get_or-set_same l i x (omega arith)

get_or-set_other : (l : List ℕ) (i j x : ℕ) → i ≢ j → get_or (set l i x) j 0 ≡ get_or l j 0
get_or-set_other [] i j x h = refl
get_or-set_other (y ∷ l) zero zero x h = absurd (h refl)
get_or-set_other (y ∷ l) zero (suc j) x h = refl
get_or-set_other (y ∷ l) (suc i) zero x h = refl
get_or-set_other (y ∷ l) (suc i) (suc j) x h = get_or-set_other l i j x (λ e. h (ap suc e))

-- the bytes after one fixup
abbrev patched : ℕ → ℕ → List ℕ → List ℕ
patched off disp bytes = set (set bytes off (disp / 256 % 256)) (off + 1) (disp % 256)

patched-other :
    (off disp j : ℕ) (bytes : List ℕ)
    → off ≢ j
    → off + 1 ≢ j
    → get_or (patched off disp bytes) j 0 ≡ get_or bytes j 0
patched-other off disp j bytes h k =
    get_or-set_other (set bytes off (disp / 256 % 256)) (off + 1) j (disp % 256) k
    ∙ get_or-set_other bytes off j (disp / 256 % 256) h

word_at-patched :
    (off disp : ℕ) (bytes : List ℕ)
    → off + 2 ≤ length bytes
    → word_at (patched off disp bytes) off ≡ disp % 65536
word_at-patched off disp bytes h =
    let first = set bytes off (disp / 256 % 256) in
    let len = length-set bytes off (disp / 256 % 256) in
    let high =
      get_or-set_other first (off + 1) off (disp % 256) (λ e. omega arith)
      ∙ get_or-set_same bytes off (disp / 256 % 256) (omega arith) in
    let low = get_or-set_same first (off + 1) (disp % 256) (omega arith) in
    rw (high, low) (omega arith)

FixesIn-le : (lo : ℕ) (fs : List Fix) (len : ℕ) → FixesIn lo fs len → lo ≤ len
FixesIn-le lo [] len h = h
FixesIn-le lo (f ∷ fs) len (h, e, hs) = omega (arith, FixesIn-le (f.off + 2) fs len hs)

some_inj : {a b : List ℕ} → some a ≡ some b → a ≡ b
some_inj e = cc

none-some {ℓ} : {A : Type ℓ} {a : A} → none ≡ some a → ⊥
none-some e = cc

-- what is below all fixups stays.
resolve_fixups-below :
    (syms : List Sym) (fixes : List Fix) (bytes out : List ℕ) (lo len j : ℕ)
    → FixesIn lo fixes len
    → j < lo
    → resolve_fixups syms fixes bytes ≡ some out
    → get_or out j 0 ≡ get_or bytes j 0
unfolding resolve_fixups
resolve_fixups-below syms [] bytes out lo len j h lt e =
    ap (λ (l : List ℕ). get_or l j 0) (sym (some_inj e))
resolve_fixups-below syms (f ∷ fixes) bytes out lo len j (le, even, h) lt e =
    elim (Option-cases (target syms f.label)) [
      | inl c ↦ absurd (none-some (sym (rw (c, resolve_fixups) refl) ∙ e))
      | inr (value, c) ↦
          let next = patched f.off (displacement value f.off) bytes in
          let whole : resolve_fixups syms (f ∷ fixes) bytes ≡ resolve_fixups syms fixes next =
            rw (c, resolve_fixups) refl in
          resolve_fixups-below syms fixes next out (f.off + 2) len j h (omega arith) (sym whole ∙ e)
          ∙ patched-other f.off (displacement value f.off) j bytes (λ x. omega arith)
              (λ x. omega arith)
    ]

-- a fixup of a list
abbrev pub FixIn : Fix → List Fix → Type 0
FixIn f [] = ⊥
FixIn f (g ∷ fs) = (f ≡ g) ⊎ FixIn f fs

value_inj : {a b : ℕ} → some a ≡ some b → a ≡ b
value_inj e = cc

-- the value of the first entry with the name, where that entry is in .text
abbrev in_text : Option Sym → Option ℕ
in_text none = none
in_text (some t) = if t.shndx == s_text then some t.value else none

target-entry_of :
    (syms : List Sym) (label : List ℕ) → target syms label ≡ in_text (entry_of label syms)
unfolding target
target-entry_of syms label = named (sym_find label syms) ∙ ap in_text (sym_find-entry_of label syms)
  where
    named :
        (o : Option ℕ)
        → (elim o [
          | none ↦ none
          | some i ↦ elim (get_elem? syms i) [
            | none ↦ none
            | some t ↦ if t.shndx == s_text then some t.value else none
          ]
        ])
          ≡ in_text (elim o [ none ↦ none | some i ↦ get_elem? syms i ])
    named none = refl
    named (some i) = refl

-- The first entry with the label's name is a symbol in .text.
abbrev pub IsInText : List Sym → List ℕ → Sym → Type 0
IsInText syms label t = (entry_of label syms ≡ some t) × (t.shndx ≡ s_text)

in_text-some :
    (o : Option Sym) (value : ℕ)
    → in_text o ≡ some value
    → (t : Sym) × (o ≡ some t) × (t.shndx ≡ s_text) × (t.value ≡ value)
in_text-some none value e = absurd (none-some e)
in_text-some (some t) value e = elim (Bool-cases (t.shndx == s_text)) [
  | inl h ↦
      let shown : in_text (some t) ≡ some t.value = rw h refl in
      (t, refl, (==_iff t.shndx s_text).0 h, value_inj (sym shown ∙ e))
  | inr h ↦ let hidden : in_text (some t) ≡ none = rw h refl in absurd (none-some (sym hidden ∙ e))
]

target-IsInText :
    (syms : List Sym) (label : List ℕ) (value : ℕ)
    → target syms label ≡ some value
    → (t : Sym) × IsInText syms label t × (t.value ≡ value)
target-IsInText syms label value e =
    let (t, first, text, is) =
      in_text-some (entry_of label syms) value (sym (target-entry_of syms label) ∙ e) in
    (t, (first, text), is)

IsInText-target :
    (syms : List Sym) (label : List ℕ) (t : Sym)
    → IsInText syms label t
    → target syms label ≡ some t.value
IsInText-target syms label t (first, text) =
    target-entry_of syms label ∙ ap in_text first ∙ rw text refl

resolve_fixups-words :
    (syms : List Sym) (fixes : List Fix) (bytes out : List ℕ) (lo : ℕ) (f : Fix)
    → FixesIn lo fixes (length bytes)
    → resolve_fixups syms fixes bytes ≡ some out
    → FixIn f fixes
    → (value : ℕ) × (target syms f.label ≡ some value)
      × (word_at out f.off ≡ displacement value f.off % 65536)
unfolding resolve_fixups
resolve_fixups-words syms [] bytes out lo f h e m = absurd m
resolve_fixups-words syms (g ∷ fixes) bytes out lo f (le, even, h) e m =
    elim (Option-cases (target syms g.label)) [
      | inl c ↦ absurd (none-some (sym (rw (c, resolve_fixups) refl) ∙ e))
      | inr (value, c) ↦
          let disp = displacement value g.off in
          let next = patched g.off disp bytes in
          let whole : resolve_fixups syms (g ∷ fixes) bytes ≡ resolve_fixups syms fixes next =
            rw (c, resolve_fixups) refl in
          let e' : resolve_fixups syms fixes next ≡ some out = sym whole ∙ e in
          let len : length next ≡ length bytes =
            length-set (set bytes g.off (disp / 256 % 256)) (g.off + 1) (disp % 256)
            ∙ length-set bytes g.off (disp / 256 % 256) in
          let h' : FixesIn (g.off + 2) fixes (length next) =
            subst (FixesIn (g.off + 2) fixes) (sym len) h in
          elim m [
            | inr later ↦ resolve_fixups-words syms fixes next out (g.off + 2) f h' e' later
            | inl here ↦
                let high =
                  resolve_fixups-below syms fixes next out (g.off + 2) (length next) g.off h'
                    (omega arith) e' in
                let low =
                  resolve_fixups-below syms fixes next out (g.off + 2) (length next) (g.off + 1) h'
                    (omega arith) e' in
                let inside = FixesIn-le (g.off + 2) fixes (length bytes) h in
                let done : word_at out g.off ≡ disp % 65536 =
                  rw (high, low) (word_at-patched g.off disp bytes inside) in
                subst
                  (λ (x : Fix).
                    (value : ℕ) × (target syms x.label ≡ some value)
                    × (word_at out x.off ≡ displacement value x.off % 65536))
                  (sym here) (value, c, done)
          ]
    ]

-- For fixups at even offsets, in order and inside .text: when resolve_fixups succeeds, the first entry with the name
-- of each fixup's label is a symbol in .text, and the 16-bit word at the fixup, added to the offset of that word, as a
-- branch does, gives the value of the symbol modulo 2 ^ 16.
pub resolve_fixups-displacement :
    (syms : List Sym) (fixes : List Fix) (bytes out : List ℕ) (lo : ℕ) (f : Fix)
    → FixesIn lo fixes (length bytes)
    → resolve_fixups syms fixes bytes ≡ some out
    → FixIn f fixes
    → (t : Sym) × IsInText syms f.label t
      × (word_at out f.off < 2 ^ 16)
      × ((f.off + word_at out f.off) % 2 ^ 16 ≡ t.value % 2 ^ 16)
unfolding displacement
resolve_fixups-displacement syms fixes bytes out lo f h e m =
    let (value, c, word) = resolve_fixups-words syms fixes bytes out lo f h e m in
    let (t, named, is) = target-IsInText syms f.label value c in
    (t, named, omega arith, omega arith)

resolve_fixups-target :
    (syms : List Sym) (fixes : List Fix) (bytes : List ℕ)
    → ((out : List ℕ) × (resolve_fixups syms fixes bytes ≡ some out))
      ↔ ((f : Fix) → FixIn f fixes → (value : ℕ) × (target syms f.label ≡ some value))
unfolding resolve_fixups
resolve_fixups-target syms [] bytes = (λ h f m. absurd m, λ h. (bytes, refl))
resolve_fixups-target syms (g ∷ fixes) bytes = elim (Option-cases (target syms g.label)) [
  | inl c ↦
      rw (c, resolve_fixups)
        (λ h. absurd (none-some h.1), λ h. absurd (none-some (sym c ∙ (h g (inl refl)).1)))
  | inr (value, c) ↦
      let (there, back) =
        resolve_fixups-target syms fixes (patched g.off (displacement value g.off) bytes) in
      rw (c, resolve_fixups)
        (
          λ h f m. elim m [
            | inl here ↦ (value, ap (λ (x : Fix). target syms x.label) here ∙ c)
            | inr later ↦ there h f later
          ],
          λ h. back (λ f m. h f (inr m)),
        )
]

-- resolve_fixups succeeds exactly when, for every fixup, the symbol table has an entry with the label's name and the
-- first such entry is a symbol in .text.
pub resolve_fixups_iff :
    (syms : List Sym) (fixes : List Fix) (bytes : List ℕ)
    → ((out : List ℕ) × (resolve_fixups syms fixes bytes ≡ some out))
      ↔ ((f : Fix) → FixIn f fixes → (t : Sym) × IsInText syms f.label t)
resolve_fixups_iff syms fixes bytes =
    let (there, back) = resolve_fixups-target syms fixes bytes in
    (
      λ h f m.
          let (value, c) = there h f m in
          let (t, named, is) = target-IsInText syms f.label value c in (t, named),
      λ h. back (λ f m. let (t, named) = h f m in (t.value, IsInText-target syms f.label t named)),
    )
