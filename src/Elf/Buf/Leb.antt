-- ===== src/Elf/Buf/Leb.antt =====
-- uleb and sleb of src/emit_elf.c against DWARF's description of the two formats.
use Prim.Native.Nat.{bit_and, bit_or}
use mathlib.Core.List.{append_assoc}
use native.Mathlib.Nat.{pow-suc}
use native.Mathlib.Decide.{dec_lt}
use c68k.Prelude.{
  ℕ, zero, suc, ◌+◌, ◌-◌, ◌*◌, ◌/◌, ◌%◌, ◌^◌, ◌<◌, ◌≤◌, ◌≡◌, refl, ap, ◌∙◌, Option, some, List, [],
  ◌∷◌, ◌++◌, length, ltb, leb, ◌==◌, arith, if◌then◌else◌, inl, inr, false, ◌⊎◌,
}
use c68k.Prelude.Bits.{bit_and_127}
use c68k.Prelude.Tables.{all_below, agree_below}
use c68k.Elf.Buf.{Buf, b8, uleb_loop, uleb, sar7, sleb_loop, sleb}
use c68k.Elf.Buf.Bounds.{b8-bytes}

-- Seven bits a byte, lowest first, with the top bit set on every byte but the last
abbrev pub read_uleb : List ℕ → ℕ
read_uleb [] = 0
read_uleb (b ∷ bs) = if ltb b 128 then b else b - 128 + 128 * read_uleb bs

-- The same, with the sign in bit 6 of the last byte; a 64-bit pattern
abbrev pub read_sleb : List ℕ → ℕ
read_sleb [] = 0
read_sleb (b ∷ bs) =
    if ltb b 128
    then (if ltb b 64 then b else b + (2 ^ 64 - 128))
    else (b - 128 + 128 * read_sleb bs) % 2 ^ 64

-- Only the last byte has its top bit clear, so a reader knows where to stop.
abbrev pub IsLeb : List ℕ → Type 0
IsLeb [] = ⊥
IsLeb (b ∷ []) = b < 128
IsLeb (b ∷ c ∷ bs) = (128 ≤ b) × (b < 256) × IsLeb (c ∷ bs)

set_top : (x : ℕ) → x < 128 → bit_or x 0x80 ≡ x + 128
unfolding all_below
set_top = agree_below 128 (λ x. bit_or x 0x80) (λ x. x + 128) refl

bit_6 : (x : ℕ) → x < 128 → bit_and x 0x40 ≡ x / 64 * 64
unfolding all_below
bit_6 = agree_below 128 (λ x. bit_and x 0x40) (λ x. x / 64 * 64) refl

-- The writer ended with `r`: it appended at most `k` bytes to `b`, which read back as `v`.
abbrev pub Appends : (List ℕ → ℕ) → Buf → Option Buf → ℕ → ℕ → Type 0
Appends read b r k v =
    (b' : Buf) × (bs : List ℕ) × (r ≡ some b')
    × (b'.bytes ≡ b.bytes ++ bs)
    × IsLeb bs
    × (read bs ≡ v)
    × (length bs ≤ k)

last_byte : (b : Buf) (byte : ℕ) → byte < 128 → (b8 b byte).bytes ≡ b.bytes ++ byte ∷ []
last_byte b byte h = let small : byte % 256 ≡ byte = omega arith in rw (b8-bytes b byte, small)

cons-IsLeb : (b : ℕ) (bs : List ℕ) → 128 ≤ b → b < 256 → IsLeb bs → IsLeb (b ∷ bs)
cons-IsLeb b [] lo hi h = absurd h
cons-IsLeb b (c ∷ bs) lo hi h = (lo, hi, h)

-- A byte with its top bit set in front of a number that is written behind it
Appends-cons :
    (read : List ℕ → ℕ) (b : Buf) (byte : ℕ) (r : Option Buf) (k v v' : ℕ)
    → 128 ≤ byte
    → byte < 256
    → ((bs : List ℕ) → read bs ≡ v' → read (byte ∷ bs) ≡ v)
    → Appends read (b8 b byte) r k v'
    → Appends read b r (suc k) v
Appends-cons read b byte r k v v' lo hi value (b', bs, done, bytes, leb, reads, few) =
    let small : byte % 256 ≡ byte = omega arith in
    let front : (b8 b byte).bytes ≡ b.bytes ++ byte ∷ [] = rw (b8-bytes b byte, small) in
    (
      b',
      byte ∷ bs,
      done,
      bytes ∙ ap (λ t. t ++ bs) front ∙ append_assoc b.bytes (byte ∷ []) bs,
      cons-IsLeb byte bs lo hi leb,
      value bs reads,
      omega arith,
    )

uleb_loop-last : (k : ℕ) (b : Buf) (v : ℕ) → v < 128 → uleb_loop (suc k) b v ≡ some (b8 b v)
unfolding uleb_loop
uleb_loop-last k b v h =
    let low : v % 128 ≡ v = omega arith in
    let none_left : v / 128 ≡ 0 = omega arith in rw (bit_and_127, low, none_left)

uleb_loop-more :
    (k : ℕ) (b : Buf) (v : ℕ)
    → 128 ≤ v
    → uleb_loop (suc k) b v ≡ uleb_loop k (b8 b (v % 128 + 128)) (v / 128)
unfolding uleb_loop
uleb_loop-more k b v h =
    let more : (v / 128 == 0) ≡ false = ground arith in
    rw (bit_and_127, set_top (v % 128) (omega arith), more)

uleb_loop-Appends :
    (k : ℕ) (b : Buf) (v : ℕ)
    → v < 128 ^ suc k
    → Appends read_uleb b (uleb_loop (suc k) b v) (suc k) v
uleb_loop-Appends zero b v h =
    rw (uleb_loop-last 0 b v (omega arith))
      (b8 b v, v ∷ [], refl, last_byte b v (omega arith), omega arith, ground arith, omega arith)
uleb_loop-Appends (suc k) b v h = elim (dec_lt v 128) [
  | yes last ↦
      rw (uleb_loop-last (suc k) b v last)
        (b8 b v, v ∷ [], refl, last_byte b v last, omega arith, ground arith, omega arith)
  | no more ↦
      let next = pow-suc 128 (suc k) in
      rw (uleb_loop-more (suc k) b v (omega arith)) (
        Appends-cons read_uleb b (v % 128 + 128) _ (suc k) v (v / 128) (omega arith) (omega arith)
          (λ bs reads. ground arith)
          (uleb_loop-Appends k (b8 b (v % 128 + 128)) (v / 128) (omega arith)))
]

-- On every uint64_t uleb ends, and appends at most ten bytes: a LEB128 sequence that a reader
-- decodes to the number.
pub uleb-Appends : (b : Buf) (v : ℕ) → v < 2 ^ 64 → Appends read_uleb b (uleb b v) 10 v
unfolding uleb
uleb-Appends b v h = uleb_loop-Appends 9 b v (omega arith)

-- A signed number whose bits fit in `k` groups of seven and one of six
abbrev FitsGroups : ℕ → ℕ → Type 0
FitsGroups k v =
    ((v < 2 ^ 63) × (v < 64 * 128 ^ k))
    ⊎ ((2 ^ 63 ≤ v) × (v < 2 ^ 64) × (2 ^ 64 ≤ v + 64 * 128 ^ k))

abbrev IsLast : ℕ → Type 0
IsLast v = (v < 64) ⊎ ((2 ^ 64 - 64 ≤ v) × (v < 2 ^ 64))

sleb_loop-last :
    (k : ℕ) (b : Buf) (v : ℕ) → IsLast v → sleb_loop (suc k) b v ≡ some (b8 b (v % 128))
unfolding sleb_loop
sleb_loop-last k b v h = rw (bit_and_127, bit_6 (v % 128) (omega arith)) (ground arith)

sleb_loop-more :
    (k : ℕ) (b : Buf) (v : ℕ)
    → v < 2 ^ 64
    → 64 ≤ v
    → v < 2 ^ 64 - 64
    → sleb_loop (suc k) b v ≡ sleb_loop k (b8 b (v % 128 + 128)) (sar7 v)
unfolding sleb_loop
sleb_loop-more k b v word lo hi =
    rw (bit_and_127, bit_6 (v % 128) (omega arith), set_top (v % 128) (omega arith)) (ground arith)

sleb_loop-last-Appends :
    (k : ℕ) (b : Buf) (v : ℕ) → IsLast v → Appends read_sleb b (sleb_loop (suc k) b v) (suc k) v
sleb_loop-last-Appends k b v h = rw (sleb_loop-last k b v h) (
  b8 b (v % 128),
  v % 128 ∷ [],
  refl,
  last_byte b (v % 128) (omega arith),
  omega arith,
  ground arith,
  omega arith,
)

sar7-FitsGroups : (k v : ℕ) → FitsGroups (suc k) v → FitsGroups k (sar7 v)
sar7-FitsGroups k v h = let next = pow-suc 128 k in ground arith

sleb_loop-Appends :
    (k : ℕ) (b : Buf) (v : ℕ)
    → FitsGroups k v
    → Appends read_sleb b (sleb_loop (suc k) b v) (suc k) v
sleb_loop-Appends zero b v h = sleb_loop-last-Appends 0 b v (ground arith)
sleb_loop-Appends (suc k) b v h = elim (dec_lt v 64) [
  | yes last ↦ sleb_loop-last-Appends (suc k) b v (inl last)
  | no lo ↦ elim (dec_lt v (2 ^ 64 - 64)) [
    | no last ↦ sleb_loop-last-Appends (suc k) b v (inr (omega arith, ground arith))
    | yes hi ↦ rw (sleb_loop-more (suc k) b v (ground arith) (omega arith) hi) (
        Appends-cons read_sleb b (v % 128 + 128) _ (suc k) v (sar7 v) (omega arith) (omega arith)
          (λ bs reads. ground arith)
          (sleb_loop-Appends k (b8 b (v % 128 + 128)) (sar7 v) (sar7-FitsGroups k v h)))
  ]
]

-- On every int64_t (its 64-bit pattern) sleb ends, and appends at most ten bytes: a signed LEB128
-- sequence that a reader decodes to the number.
pub sleb-Appends : (b : Buf) (v : ℕ) → v < 2 ^ 64 → Appends read_sleb b (sleb b v) 10 v
unfolding sleb
sleb-Appends b v h = sleb_loop-Appends 9 b v (ground arith)
