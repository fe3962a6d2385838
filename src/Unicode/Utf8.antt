-- ===== src/Unicode/Utf8.antt =====
-- encode_utf8 and decode_utf8 of src/unicode.c on each other's bytes, and the lengths of both.
use Prim.Native.Nat.{bit_and, bit_or}
use native.Mathlib.Decide.{dec_le}
use c68k.Prelude.{
  ℕ, ◌+◌, ◌*◌, ◌/◌, ◌%◌, ◌<◌, ◌≤◌, ◌^◌, zero, suc, ◌≡◌, refl, ap, ◌∙◌, some, List, [], ◌∷◌, ◌++◌,
  All, length, arith,
}
use c68k.Prelude.Bits.{bit_and_63, bit_or_shifted}
use c68k.Prelude.Tables.{all_below, agree_below}
use c68k.Unicode.{encode_utf8, continuation, decode_utf8}

abbrev pub IsByte : ℕ → Type 0
IsByte b = b < 256

-- The leading byte's mark over its payload, and the payload under the mark, as arithmetic
mark_10 : (x : ℕ) → x < 64 → bit_or 0b10000000 x ≡ 128 + x
unfolding all_below
mark_10 = agree_below 64 (λ x. bit_or 0b10000000 x) (λ x. 128 + x) refl

mark_110 : (x : ℕ) → x < 32 → bit_or 0b11000000 x ≡ 192 + x
unfolding all_below
mark_110 = agree_below 32 (λ x. bit_or 0b11000000 x) (λ x. 192 + x) refl

mark_1110 : (x : ℕ) → x < 16 → bit_or 0b11100000 x ≡ 224 + x
unfolding all_below
mark_1110 = agree_below 16 (λ x. bit_or 0b11100000 x) (λ x. 224 + x) refl

mark_11110 : (x : ℕ) → x < 8 → bit_or 0b11110000 x ≡ 240 + x
unfolding all_below
mark_11110 = agree_below 8 (λ x. bit_or 0b11110000 x) (λ x. 240 + x) refl

low_3 : (b : ℕ) → b < 256 → bit_and b 0b111 ≡ b % 8
unfolding all_below
low_3 = agree_below 256 (λ b. bit_and b 0b111) (λ b. b % 8) refl

low_4 : (b : ℕ) → b < 256 → bit_and b 0b1111 ≡ b % 16
unfolding all_below
low_4 = agree_below 256 (λ b. bit_and b 0b1111) (λ b. b % 16) refl

low_5 : (b : ℕ) → b < 256 → bit_and b 0b11111 ≡ b % 32
unfolding all_below
low_5 = agree_below 256 (λ b. bit_and b 0b11111) (λ b. b % 32) refl

-- A continuation byte
tail_byte : (x : ℕ) → bit_or 0b10000000 (bit_and x 0b00111111) % 256 ≡ 128 + x % 64
tail_byte x = rw bit_and_63 (rw (mark_10 (x % 64) (omega arith)) (omega arith))

-- What encode_utf8 writes, in plain arithmetic, by the size of the code point
encode_one : (c : ℕ) → c ≤ 0x7F → encode_utf8 c ≡ c ∷ []
unfolding encode_utf8
encode_one c h = ground arith

encode_two : (c : ℕ) → 0x7F < c → c ≤ 0x7FF → encode_utf8 c ≡ (192 + c / 64) ∷ (128 + c % 64) ∷ []
unfolding encode_utf8
encode_two c lo hi = ground (arith, tail_byte c, mark_110 (c / 64))

encode_three :
    (c : ℕ)
    → 0x7FF < c
    → c ≤ 0xFFFF
    → encode_utf8 c ≡ (224 + c / 4096) ∷ (128 + c / 64 % 64) ∷ (128 + c % 64) ∷ []
unfolding encode_utf8
encode_three c lo hi = ground (arith, tail_byte c, tail_byte (c / 64), mark_1110 (c / 4096))

encode_four :
    (c : ℕ)
    → 0xFFFF < c
    → c < 2 ^ 21
    → encode_utf8 c
      ≡ (240 + c / 262144) ∷ (128 + c / 4096 % 64) ∷ (128 + c / 64 % 64) ∷ (128 + c % 64) ∷ []
unfolding encode_utf8
encode_four c lo hi =
    ground (arith, tail_byte c, tail_byte (c / 64), tail_byte (c / 4096), mark_11110 (c / 262144))

continuation_step :
    (n c x : ℕ) (p : List ℕ)
    → c < 2 ^ 26
    → x < 64
    → continuation (suc n) c ((128 + x) ∷ p) ≡ continuation n (c * 64 + x) p
unfolding continuation
continuation_step n c x p hc hx =
    let small : c * 64 % 0x100000000 ≡ c * 64 = omega arith in
    let low : (128 + x) % 64 ≡ x = omega arith in
    let top : (128 + x) / 64 ≡ 2 = omega arith in
    rw (bit_and_63, low, small, top) (ap (λ t. continuation n t p) (bit_or_shifted 6 c x hx))

-- Which loop a leading byte starts
pub lead_one : (b : ℕ) (p : List ℕ) → b < 128 → decode_utf8 (b ∷ p) ≡ some (b, p)
unfolding decode_utf8
lead_one b p h = ground arith

lead_two :
    (b : ℕ) (p : List ℕ) → 192 ≤ b → b < 224 → decode_utf8 (b ∷ p) ≡ continuation 1 (b % 32) p
unfolding decode_utf8
lead_two b p lo hi = rw (← low_5 b (omega arith)) (ground arith)

lead_three :
    (b : ℕ) (p : List ℕ) → 224 ≤ b → b < 240 → decode_utf8 (b ∷ p) ≡ continuation 2 (b % 16) p
unfolding decode_utf8
lead_three b p lo hi = rw (← low_4 b (omega arith)) (ground arith)

lead_four :
    (b : ℕ) (p : List ℕ) → 240 ≤ b → b < 256 → decode_utf8 (b ∷ p) ≡ continuation 3 (b % 8) p
unfolding decode_utf8
lead_four b p lo hi = rw (← low_3 b (omega arith)) (ground arith)

continuation_done : (c : ℕ) (p : List ℕ) → continuation 0 c p ≡ some (c, p)
unfolding continuation
continuation_done c p = refl

decode_two :
    (c : ℕ) (rest : List ℕ)
    → 0x7F < c
    → c ≤ 0x7FF
    → decode_utf8 ((192 + c / 64) ∷ (128 + c % 64) ∷ rest) ≡ some (c, rest)
decode_two c rest lo hi =
    lead_two _ _ (omega arith) (omega arith)
    ∙ continuation_step 0 _ (c % 64) rest (omega arith) (omega arith)
    ∙ continuation_done _ rest
    ∙ ap (λ t. some (t, rest)) (omega arith)

decode_three :
    (c : ℕ) (rest : List ℕ)
    → 0x7FF < c
    → c ≤ 0xFFFF
    → decode_utf8 ((224 + c / 4096) ∷ (128 + c / 64 % 64) ∷ (128 + c % 64) ∷ rest) ≡ some (c, rest)
decode_three c rest lo hi =
    lead_three _ _ (omega arith) (omega arith)
    ∙ continuation_step 1 _ (c / 64 % 64) _ (omega arith) (omega arith)
    ∙ continuation_step 0 _ (c % 64) rest (omega arith) (omega arith)
    ∙ continuation_done _ rest
    ∙ ap (λ t. some (t, rest)) (omega arith)

decode_four :
    (c : ℕ) (rest : List ℕ)
    → 0xFFFF < c
    → c < 2 ^ 21
    → decode_utf8
        ((240 + c / 262144) ∷ (128 + c / 4096 % 64) ∷ (128 + c / 64 % 64) ∷ (128 + c % 64) ∷ rest)
      ≡ some (c, rest)
decode_four c rest lo hi =
    lead_four _ _ (omega arith) (omega arith)
    ∙ continuation_step 2 _ (c / 4096 % 64) _ (omega arith) (omega arith)
    ∙ continuation_step 1 _ (c / 64 % 64) _ (omega arith) (omega arith)
    ∙ continuation_step 0 _ (c % 64) rest (omega arith) (omega arith)
    ∙ continuation_done _ rest
    ∙ ap (λ t. some (t, rest)) (omega arith)

-- decode_utf8 reads back each code point of at most 21 bits from the bytes that encode_utf8 wrote,
-- and stops just behind them.
pub decode_utf8-encode_utf8 :
    (c : ℕ) (rest : List ℕ) → c < 2 ^ 21 → decode_utf8 (encode_utf8 c ++ rest) ≡ some (c, rest)
decode_utf8-encode_utf8 c rest h = elim (dec_le c 0x7F) [
  | yes one ↦ rw (encode_one c one) (lead_one c rest (omega arith))
  | no more ↦ elim (dec_le c 0x7FF) [
    | yes two ↦ rw (encode_two c (omega arith) two) (decode_two c rest (omega arith) two)
    | no more' ↦ elim (dec_le c 0xFFFF) [
      | yes three ↦
          rw (encode_three c (omega arith) three) (decode_three c rest (omega arith) three)
      | no four ↦ rw (encode_four c (omega arith) h) (decode_four c rest (omega arith) h)
    ]
  ]
]

-- encode_utf8 writes one to four bytes, each a byte, for every code point of at most 21 bits.
pub encode_utf8_shape :
    (c : ℕ)
    → c < 2 ^ 21
    → All IsByte (encode_utf8 c) × (1 ≤ length (encode_utf8 c)) × (length (encode_utf8 c) ≤ 4)
encode_utf8_shape c h = elim (dec_le c 0x7F) [
  | yes one ↦ rw (encode_one c one) (omega arith)
  | no more ↦ elim (dec_le c 0x7FF) [
    | yes two ↦ rw (encode_two c (omega arith) two) (omega arith)
    | no more' ↦ elim (dec_le c 0xFFFF) [
      | yes three ↦ rw (encode_three c (omega arith) three) (omega arith)
      | no four ↦ rw (encode_four c (omega arith) h) (omega arith)
    ]
  ]
]

continuation_shorter :
    (n c : ℕ) (p : List ℕ) {v : ℕ} {rest : List ℕ}
    → continuation n c p ≡ some (v, rest)
    → length p ≡ length rest + n
unfolding continuation
continuation_shorter zero c p h = ground arith
continuation_shorter (suc n) c [] h = cc
continuation_shorter (suc n) c (b ∷ p) {v} {rest} h = ground (
  arith,
  continuation_shorter n (bit_or (c * 64 % 0x100000000) (bit_and b 0b111111)) p {v = v}
      {rest = rest},
)

-- On a string that is not empty a successful decode_utf8 takes one to four bytes.
pub decode_utf8_takes :
    (b : ℕ) (p : List ℕ) (v : ℕ) (rest : List ℕ)
    → decode_utf8 (b ∷ p) ≡ some (v, rest)
    → (length rest ≤ length p) × (length p ≤ length rest + 3)
unfolding decode_utf8
decode_utf8_takes b p v rest h = ground (
  arith,
  continuation_shorter 3 (bit_and b 0b111) p {v = v} {rest = rest},
  continuation_shorter 2 (bit_and b 0b1111) p {v = v} {rest = rest},
  continuation_shorter 1 (bit_and b 0b11111) p {v = v} {rest = rest},
)
