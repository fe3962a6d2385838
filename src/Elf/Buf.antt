-- ===== src/Elf/Buf.antt =====
-- The byte buffers of src/emit_elf.c: buf_need, b8, b16, b32, buf_align, uleb, sleb, add_str and
-- patch32. A C integer is its bit pattern: 32 bits for int and uint32_t, 64 for uint64_t and int64_t.
pub mod Bounds
pub mod Words
pub mod Leb
pub mod Patch
mod Tests
use Prim.Native.Nat.{bit_and, bit_or}
use c68k.Prelude.{
  ℕ, zero, suc, ◌+◌, ◌-◌, ◌*◌, ◌/◌, ◌%◌, ◌^◌, max, Bool, true, false, not, ◌&&◌, ◌||◌, Option, none,
  some, List, [], ◌∷◌, ◌++◌, length, set, ltb, leb, ◌==◌, if◌then◌else◌,
}

-- `data[0 .. len)` is the list, so `len` is its length.
pub record Buf : Type 0 where
  pub bytes : List ℕ
  pub cap : ℕ

unfoldable pub buf_need : Buf → ℕ → Buf
buf_need b n =
    if leb (length b.bytes + n) b.cap
    then b
    else record b { cap = max (if b.cap == 0 then 256 else b.cap * 2) (length b.bytes + n) }

unfoldable pub b8 : Buf → ℕ → Buf
unfolding buf_need
b8 b v = let r = buf_need b 1 in record r { bytes = r.bytes ++ v % 256 ∷ [] }

unfoldable pub b16 : Buf → ℕ → Buf
b16 b v = b8 (b8 b (v / 256)) v

unfoldable pub b32 : Buf → ℕ → Buf
b32 b v = b8 (b8 (b8 (b8 b (v / 16777216)) (v / 65536)) (v / 256)) v

-- `while (b->len % a)`, with `fuel` for the rounds: fewer than `a` are needed
unfoldable pub buf_align_loop : ℕ → Buf → ℕ → Buf
buf_align_loop zero b a = b
buf_align_loop (suc fuel) b a =
    let rest = buf_align_loop fuel (b8 b 0) a in if length b.bytes % a == 0 then b else rest

unfoldable pub buf_align : Buf → ℕ → Buf
unfolding buf_align_loop
buf_align b a = buf_align_loop a b a

-- A uint64_t takes ten rounds at most; `none` is the end of the fuel.
unfoldable pub uleb_loop : ℕ → Buf → ℕ → Option Buf
uleb_loop zero b v = none
uleb_loop (suc fuel) b v =
    let byte = bit_and v 0x7f in
    let rest = uleb_loop fuel (b8 b (bit_or byte 0x80)) (v / 128) in
    if not (v / 128 == 0) then rest else some (b8 b byte)

unfoldable pub uleb : Buf → ℕ → Option Buf
unfolding uleb_loop
uleb b v = uleb_loop 10 b v

-- `v >> 7` on an int64_t, an arithmetic shift
abbrev pub sar7 : ℕ → ℕ
sar7 v = if leb (2 ^ 63) v then v / 128 + (2 ^ 64 - 2 ^ 57) else v / 128

unfoldable pub sleb_loop : ℕ → Buf → ℕ → Option Buf
sleb_loop zero b v = none
sleb_loop (suc fuel) b v =
    let byte = bit_and v 0x7f in
    let v' = sar7 v in
    let done =
      (v' == 0 && bit_and byte 0x40 == 0) || (v' == 2 ^ 64 - 1 && not (bit_and byte 0x40 == 0)) in
    let rest = sleb_loop fuel (b8 b (bit_or byte 0x80)) v' in
    if done then some (b8 b byte) else rest

unfoldable pub sleb : Buf → ℕ → Option Buf
unfolding sleb_loop
sleb b v = sleb_loop 10 b v

-- The characters of a string up to its NUL, and then the NUL; the offset of its first byte
unfoldable pub put_chars : Buf → List ℕ → Buf
put_chars b [] = b8 b 0
put_chars b (c ∷ s) = put_chars (b8 b c) s

unfoldable pub add_str : Buf → List ℕ → ℕ × Buf
unfolding put_chars
add_str b s = (length b.bytes, put_chars b s)

unfoldable pub patch32 : Buf → ℕ → ℕ → Buf
patch32 b off v = record b {
  bytes =
      set
        (set (set (set b.bytes off (v / 16777216 % 256)) (off + 1) (v / 65536 % 256)) (off + 2)
          (v / 256 % 256))
        (off + 3) (v % 256);
}
