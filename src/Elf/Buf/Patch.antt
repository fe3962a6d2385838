-- ===== src/Elf/Buf/Patch.antt =====
-- add_str and patch32 of src/emit_elf.c: what is in the buffer then.
use mathlib.Core.List.{append_assoc}
use c68k.Prelude.{
  ℕ, suc, ◌+◌, ◌/◌, ◌%◌, ◌^◌, ◌<◌, ◌≡◌, refl, List, [], ◌∷◌, ◌++◌, length, set, All, arith, ap, ◌∙◌,
}
use c68k.Elf.Buf.{Buf, b8, put_chars, add_str, patch32}
use c68k.Elf.Buf.Bounds.{b8-bytes}
use c68k.Elf.Buf.Words.{big_endian}

put_chars-bytes :
    (b : Buf) (s : List ℕ) → All (λ c. c < 256) s → (put_chars b s).bytes ≡ b.bytes ++ (s ++ 0 ∷ [])
unfolding put_chars
put_chars-bytes b [] h = b8-bytes b 0
put_chars-bytes b (c ∷ s) (h, hs) =
    let small : c % 256 ≡ c = omega arith in
    put_chars-bytes (b8 b c) s hs
    ∙ ap (λ (t : List ℕ). t ++ (s ++ 0 ∷ []))
        (b8-bytes b c ∙ ap (λ (d : ℕ). b.bytes ++ d ∷ []) small)
    ∙ append_assoc b.bytes (c ∷ []) (s ++ 0 ∷ [])

-- add_str appends the characters of a string (bytes, without its NUL) and one NUL, and returns the
-- offset at which they start.
pub add_str-bytes :
    (b : Buf) (s : List ℕ)
    → All (λ c. c < 256) s
    → ((add_str b s).0 ≡ length b.bytes) × ((add_str b s).1.bytes ≡ b.bytes ++ (s ++ 0 ∷ []))
unfolding add_str
add_str-bytes b s h = (refl, put_chars-bytes b s h)

set-append : (xs ys : List ℕ) (i v : ℕ) → set (xs ++ ys) (length xs + i) v ≡ xs ++ set ys i v
set-append [] ys i v = ap (λ (j : ℕ). set ys j v) (omega arith)
set-append (x ∷ xs) ys i v =
    let next : suc (length xs) + i ≡ suc (length xs + i) = omega arith in
    ap (λ (j : ℕ). set (x ∷ xs ++ ys) j v) next ∙ ap (λ t. x ∷ t) (set-append xs ys i v)

set_behind :
    (xs ys zs : List ℕ) (i v : ℕ) → zs ≡ xs ++ ys → set zs (length xs + i) v ≡ xs ++ set ys i v
set_behind xs ys zs i v e = ap (λ (l : List ℕ). set l (length xs + i) v) e ∙ set-append xs ys i v

-- the four bytes that b32 appends and patch32 writes
abbrev pub word : ℕ → List ℕ
word v = v / 16777216 % 256 ∷ v / 65536 % 256 ∷ v / 256 % 256 ∷ v % 256 ∷ []

-- patch32 replaces the four bytes at its offset by the value in big-endian order, most significant
-- first, and leaves the bytes before and behind them.
pub patch32-bytes :
    (b : Buf) (before behind : List ℕ) (o p q r v : ℕ)
    → b.bytes ≡ before ++ (o ∷ p ∷ q ∷ r ∷ behind)
    → ((patch32 b (length before) v).bytes ≡ before ++ (word v ++ behind))
      × (big_endian 0 (word v) ≡ v % 2 ^ 32)
unfolding patch32
patch32-bytes b before behind o p q r v e =
    let w0 = v / 16777216 % 256 in
    let w1 = v / 65536 % 256 in
    let w2 = v / 256 % 256 in
    let at : length before ≡ length before + 0 = omega arith in
    let first =
      ap (λ (j : ℕ). set b.bytes j w0) at
      ∙ set_behind before (o ∷ p ∷ q ∷ r ∷ behind) b.bytes 0 w0 e in
    let second = set_behind before (w0 ∷ p ∷ q ∷ r ∷ behind) _ 1 w1 first in
    let third = set_behind before (w0 ∷ w1 ∷ q ∷ r ∷ behind) _ 2 w2 second in
    (set_behind before (w0 ∷ w1 ∷ w2 ∷ r ∷ behind) _ 3 (v % 256) third, omega arith)
