-- ===== src/Elf/Buf/Bounds.antt =====
-- buf_need, b8 and buf_align of src/emit_elf.c: the bytes and the room for them.
use c68k.Prelude.{
  ℕ, zero, suc, ◌+◌, ◌%◌, ◌≤◌, ◌<◌, ◌≡◌, ◌⊎◌, refl, ap, sym, ◌∙◌, [], ◌∷◌, ◌++◌, length,
  length-append, length-replicate, replicate, if◌then◌else◌, ◌-◌, arith, ◌==◌, true, false,
}
use c68k.Elf.Buf.{Buf, buf_need, b8, buf_align_loop, buf_align}
use mathlib.Core.List.{append_assoc, append-nil}

-- The bytes fit in the memory that is allocated.
abbrev pub IsValid : Buf → Type 0
IsValid b = length b.bytes ≤ b.cap

-- After buf_need there is room for `n` more bytes, and the bytes are as they were.
pub buf_need_room :
    (b : Buf) (n : ℕ) → (length b.bytes + n ≤ (buf_need b n).cap) × ((buf_need b n).bytes ≡ b.bytes)
unfolding buf_need
buf_need_room b n = ground arith

pub b8-bytes : (b : Buf) (v : ℕ) → (b8 b v).bytes ≡ b.bytes ++ v % 256 ∷ []
unfolding b8
b8-bytes b v = ground arith

-- After b8 the bytes fit in the memory that is allocated, whatever the buffer was before.
pub b8-IsValid : (b : Buf) (v : ℕ) → IsValid (b8 b v)
unfolding b8
b8-IsValid b v = let grown = length-append b.bytes (v % 256 ∷ []) in ground arith

mod_next : (n a : ℕ) → n % a + 1 < a → (n + 1) % a ≡ n % a + 1
mod_next n a h = grind arith

mod_wrap : (n a : ℕ) → 0 < a → n % a + 1 ≡ a → (n + 1) % a ≡ 0
mod_wrap n a h e = grind arith

-- `d` more bytes make a multiple of `a`.
abbrev Lacks : ℕ → ℕ → ℕ → Type 0
Lacks a n d = ((n % a ≡ 0) × (d ≡ 0)) ⊎ ((0 < n % a) × (n % a + d ≡ a))

Lacks-step : (a n d : ℕ) → 0 < a → Lacks a n (suc d) → Lacks a (n + 1) d
Lacks-step a n d h l = ground (arith, mod_next n a, mod_wrap n a)

length-b8 : (b : Buf) (v : ℕ) → length (b8 b v).bytes ≡ length b.bytes + 1
length-b8 b v = rw (b8-bytes b v, length-append) refl

buf_align_loop-bytes :
    (fuel d : ℕ) (b : Buf) (a : ℕ)
    → 0 < a
    → d ≤ fuel
    → Lacks a (length b.bytes) d
    → (buf_align_loop fuel b a).bytes ≡ b.bytes ++ replicate d 0
unfolding buf_align_loop
buf_align_loop-bytes zero zero b a h enough l = sym (append-nil b.bytes)
buf_align_loop-bytes zero (suc d) b a h enough l = absurd (omega arith)
buf_align_loop-bytes (suc fuel) zero b a h enough l =
    let done : (length b.bytes % a == 0) ≡ true = ground arith in rw (done, append-nil)
buf_align_loop-bytes (suc fuel) (suc d) b a h enough l =
    let more : (length b.bytes % a == 0) ≡ false = ground arith in
    rw more (
      buf_align_loop-bytes fuel d (b8 b 0) a h (omega arith)
        (rw (length-b8 b 0) (Lacks-step a (length b.bytes) d h l))
      ∙ ap (λ t. t ++ replicate d 0) (b8-bytes b 0)
      ∙ append_assoc b.bytes (0 ∷ []) (replicate d 0))

-- how many bytes are lacking
abbrev pub padding : ℕ → ℕ → ℕ
padding n a = if n % a == 0 then 0 else a - n % a

padding-Lacks : (n a : ℕ) → 0 < a → Lacks a n (padding n a)
padding-Lacks n a h = ground arith

Lacks-multiple : (a n d : ℕ) → 0 < a → Lacks a n d → (n + d) % a ≡ 0
Lacks-multiple a n zero h l = ground (arith)
Lacks-multiple a n (suc d) h l = grind (arith, Lacks-multiple a (n + 1) d h (Lacks-step a n d h l))

-- For a positive `a`, buf_align appends zero bytes only, fewer than `a` of them, and the length is
-- then a multiple of `a`.
pub buf_align-bytes :
    (b : Buf) (a : ℕ)
    → 0 < a
    → ((buf_align b a).bytes ≡ b.bytes ++ replicate (padding (length b.bytes) a) 0)
      × (length (buf_align b a).bytes % a ≡ 0)
      × (padding (length b.bytes) a < a)
unfolding buf_align
buf_align-bytes b a h =
    let n = length b.bytes in
    let p = padding n a in
    let lacks = padding-Lacks n a h in
    let bytes = buf_align_loop-bytes a p b a h (ground arith) lacks in
    (
      bytes,
      rw (bytes, length-append, length-replicate) (Lacks-multiple a n p h lacks),
      ground arith,
    )
