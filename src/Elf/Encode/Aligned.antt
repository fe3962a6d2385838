-- ===== src/Elf/Encode/Aligned.antt =====
-- What encode_insn of src/emit_elf.c does to .text, the fixups and the relocations.
use c68k.Prelude.{
  ℕ, ◌+◌, ◌/◌, ◌%◌, ◌≤◌, ◌≡◌, ap, sym, ◌∙◌, Bool, true, false, Option, none, some, List, [], ◌∷◌,
  ◌++◌, length, ◌==◌, arith, if◌then◌else◌, Bool-cases, inl, inr, length-append,
}
use c68k.Elf.Buf.{Buf, b16, b32, b8}
use c68k.Elf.Buf.Bounds.{b8-bytes}
use c68k.Elf.Operand.{Ea, parse_ea}
use c68k.Elf.Encode.{
  Asm, Reloc, Fix, add_reloc, add_fixup, text16, text32, put_words, emit_ext, s_text, r_68k_32,
  enc_move, enc_alu, enc_imm, with_ea, with_eas,
}
use c68k.Elf.Encode.Control.{branch_word}

-- The fixups from offset `lo` on: even, in order, two bytes each, and inside the first `len` bytes
abbrev pub FixesIn : ℕ → List Fix → ℕ → Type 0
FixesIn lo [] len = lo ≤ len
FixesIn lo (f ∷ fs) len = (lo ≤ f.off) × (f.off % 2 ≡ 0) × FixesIn (f.off + 2) fs len

-- The four bytes of each relocation lie inside.
abbrev pub RelsIn : List Reloc → ℕ → Type 0
RelsIn [] len = Unit {0}
RelsIn (r ∷ rs) len = (r.off + 4 ≤ len) × RelsIn rs len

abbrev pub IsText : Asm → Type 0
IsText st =
    (length st.text.bytes % 2 ≡ 0)
    × FixesIn 0 st.fixes (length st.text.bytes)
    × RelsIn st.rels (length st.text.bytes)

abbrev pub Holds : Option Asm → Type 0
Holds none = Unit {0}
Holds (some st) = IsText st

FixesIn-more : (lo : ℕ) (fs : List Fix) (m n : ℕ) → m ≤ n → FixesIn lo fs m → FixesIn lo fs n
FixesIn-more lo [] m n le h = omega arith
FixesIn-more lo (f ∷ fs) m n le (h, e, hs) = (h, e, FixesIn-more (f.off + 2) fs m n le hs)

FixesIn-last :
    (lo : ℕ) (fs : List Fix) (len : ℕ) (label : List ℕ)
    → len % 2 ≡ 0
    → FixesIn lo fs len
    → FixesIn lo (fs ++ record { off = len; label = label } ∷ []) (len + 2)
FixesIn-last lo [] len label even h = (h, even, omega arith)
FixesIn-last lo (f ∷ fs) len label even (h, e, hs) =
    (h, e, FixesIn-last (f.off + 2) fs len label even hs)

RelsIn-more : (rs : List Reloc) (m n : ℕ) → m ≤ n → RelsIn rs m → RelsIn rs n
RelsIn-more [] m n le h = tt
RelsIn-more (r ∷ rs) m n le (h, hs) = (omega arith, RelsIn-more rs m n le hs)

RelsIn-last :
    (rs : List Reloc) (r : Reloc) (m n : ℕ)
    → m ≤ n
    → r.off + 4 ≤ n
    → RelsIn rs m
    → RelsIn (rs ++ r ∷ []) n
RelsIn-last [] r m n le h k = (h, tt)
RelsIn-last (x ∷ rs) r m n le h (k, ks) = (omega arith, RelsIn-last rs r m n le h ks)

length-b8 : (b : Buf) (v : ℕ) → length (b8 b v).bytes ≡ length b.bytes + 1
length-b8 b v = ap length (b8-bytes b v) ∙ length-append b.bytes (v % 256 ∷ [])

length-b16 : (b : Buf) (v : ℕ) → length (b16 b v).bytes ≡ length b.bytes + 2
unfolding b16
length-b16 b v = omega (arith, length-b8 b (v / 256), length-b8 (b8 b (v / 256)) v)

length-text16 : (v : ℕ) (st : Asm) → length (text16 v st).text.bytes ≡ length st.text.bytes + 2
unfolding text16
length-text16 v st = length-b16 st.text v

-- A larger buffer of even length, with the same fixups and relocations
longer :
    (st : Asm) (b : Buf)
    → length st.text.bytes ≤ length b.bytes
    → length b.bytes % 2 ≡ 0
    → IsText st
    → IsText (record st { text = b })
longer st b le even (e, f, r) = (
  even,
  FixesIn-more 0 st.fixes (length st.text.bytes) (length b.bytes) le f,
  RelsIn-more st.rels (length st.text.bytes) (length b.bytes) le r,
)

pub text16-IsText : (v : ℕ) (st : Asm) → IsText st → IsText (text16 v st)
unfolding text16
text16-IsText v st h =
    let len = length-b16 st.text v in
    let even = h.0 in longer st (b16 st.text v) (omega arith) (omega arith) h

length-b32 : (b : Buf) (v : ℕ) → length (b32 b v).bytes ≡ length b.bytes + 4
unfolding b32
length-b32 b v =
    let b1 = b8 b (v / 16777216) in
    let b2 = b8 b1 (v / 65536) in
    let b3 = b8 b2 (v / 256) in
    omega (
      arith,
      length-b8 b (v / 16777216),
      length-b8 b1 (v / 65536),
      length-b8 b2 (v / 256),
      length-b8 b3 v,
    )

text32-IsText : (v : ℕ) (st : Asm) → IsText st → IsText (text32 v st)
unfolding text32
text32-IsText v st h =
    let len = length-b32 st.text v in
    let even = h.0 in longer st (b32 st.text v) (omega arith) (omega arith) h

put_words-IsText : (ws : List ℕ) (st : Asm) → IsText st → IsText (put_words ws st)
unfolding put_words
put_words-IsText [] st h = h
put_words-IsText (w ∷ ws) st h = put_words-IsText ws (text16 w st) (text16-IsText w st h)

-- a relocation and its four bytes
reloc-IsText :
    (sym : List ℕ) (type add : ℕ) (st : Asm)
    → IsText st
    → IsText (text16 0 (text16 0 (add_reloc s_text (length st.text.bytes) sym type add st)))
unfolding text16 add_reloc
reloc-IsText sym type add st (e, f, r) =
    let one = length-b16 st.text 0 in
    let two = length-b16 (b16 st.text 0) 0 in
    (
      omega arith,
      FixesIn-more 0 st.fixes (length st.text.bytes) _ (omega arith) f,
      RelsIn-last st.rels _ (length st.text.bytes) _ (omega arith) (omega arith) r,
    )

pub emit_ext-IsText : (e : Ea) (st : Asm) → IsText st → IsText (emit_ext e st)
unfolding emit_ext
emit_ext-IsText e st h = elim (Bool-cases e.reloc) [
  | inl c ↦ rw (c, emit_ext) (reloc-IsText e.sym r_68k_32 e.add st h)
  | inr c ↦ rw (c, emit_ext) (put_words-IsText e.ext st h)
]

pub branch_word-IsText : (label : List ℕ) (st : Asm) → IsText st → IsText (branch_word label st)
unfolding branch_word add_fixup text16
branch_word-IsText label st (e, f, r) =
    let len = length-b16 st.text 0 in
    (
      omega arith,
      FixesIn-more 0 _ (length st.text.bytes + 2) _ (omega arith)
          (FixesIn-last 0 st.fixes (length st.text.bytes) _ e f),
      RelsIn-more st.rels (length st.text.bytes) _ (omega arith) r,
    )

-- one word and an operand
pub op_ext-IsText : (op : ℕ) (e : Ea) (st : Asm) → IsText st → IsText (emit_ext e (text16 op st))
op_ext-IsText op e st h = emit_ext-IsText e (text16 op st) (text16-IsText op st h)

pub text16-twice : (v op : ℕ) (st : Asm) → IsText st → IsText (text16 v (text16 op st))
text16-twice v op st h = text16-IsText v (text16 op st) (text16-IsText op st h)

pub branch_word-op :
    (label : List ℕ) (op : ℕ) (st : Asm) → IsText st → IsText (branch_word label (text16 op st))
branch_word-op label op st h = branch_word-IsText label (text16 op st) (text16-IsText op st h)

pub enc_move-IsText : (sz : ℕ) (s d : Ea) (st : Asm) → IsText st → IsText (enc_move sz s d st)
unfolding enc_move
enc_move-IsText sz s d st h = emit_ext-IsText d _ (op_ext-IsText _ s st h)

pub enc_alu-IsText :
    (topnib sz dn : ℕ) (e : Ea) (dir : ℕ) (st : Asm)
    → IsText st
    → IsText (enc_alu topnib sz dn e dir st)
unfolding enc_alu
enc_alu-IsText topnib sz dn e dir st h = op_ext-IsText _ e st h

-- one of two states, and one of two outcomes
pub if-IsText : (b : Bool) (s t : Asm) → IsText s → IsText t → IsText (if b then s else t)
if-IsText true s t h k = h
if-IsText false s t h k = k

pub enc_imm-IsText :
    (code sz imm : ℕ) (e : Ea) (st : Asm) → IsText st → IsText (enc_imm code sz imm e st)
unfolding enc_imm
enc_imm-IsText code sz imm e st h =
    let op : Asm = text16 _ st in
    let valid : IsText op = text16-IsText _ st h in
    emit_ext-IsText e _
      (if-IsText (sz == 4) _ _ (text32-IsText _ op valid) (text16-IsText _ op valid))

pub option-Holds :
    (o : Option Ea) (f : Ea → Asm)
    → ((e : Ea) → IsText (f e))
    → Holds (elim o [ none ↦ none | some e ↦ some (f e) ])
option-Holds none f h = tt
option-Holds (some e) f h = h e

pub with_ea-Holds :
    (o : List ℕ) (sz : ℕ) (f : Ea → Asm) → ((e : Ea) → IsText (f e)) → Holds (with_ea o sz f)
with_ea-Holds o sz f h = option-Holds (parse_ea o sz) f h

options-Holds :
    (p q : Option Ea) (f : Ea → Ea → Asm)
    → ((s d : Ea) → IsText (f s d))
    → Holds (elim p [ none ↦ none | some s ↦ elim q [ none ↦ none | some d ↦ some (f s d) ] ])
options-Holds none q f h = tt
options-Holds (some s) q f h = option-Holds q (f s) (h s)

pub with_eas-Holds :
    (o1 : List ℕ) (sz1 : ℕ) (o2 : List ℕ) (sz2 : ℕ) (f : Ea → Ea → Asm)
    → ((s d : Ea) → IsText (f s d))
    → Holds (with_eas o1 sz1 o2 sz2 f)
with_eas-Holds o1 sz1 o2 sz2 f h = options-Holds (parse_ea o1 sz1) (parse_ea o2 sz2) f h

pub if-Holds : (b : Bool) (s t : Option Asm) → Holds s → Holds t → Holds (if b then s else t)
if-Holds true s t h k = h
if-Holds false s t h k = k
