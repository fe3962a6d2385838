-- ===== src/Unicode/Tests.antt =====
-- The theorems on UTF-8 and the character classes at concrete text.
use c68k.Prelude.{ℕ, ◌≡◌, refl, some, List, [], ◌∷◌, ◌++◌, arith}
use c68k.Unicode.{encode_utf8, decode_utf8}
use c68k.Unicode.Utf8.{decode_utf8-encode_utf8}

-- the euro sign
decode_utf8-encode_utf8_example :
    decode_utf8 (encode_utf8 0x20ac ++ 33 ∷ 0 ∷ []) ≡ some (0x20ac, 33 ∷ 0 ∷ [])
decode_utf8-encode_utf8_example = decode_utf8-encode_utf8 0x20ac (33 ∷ 0 ∷ []) (omega arith)

encode_utf8_euro : encode_utf8 0x20ac ≡ 0xe2 ∷ 0x82 ∷ 0xac ∷ []
unfolding encode_utf8
encode_utf8_euro = refl

abbrev bang : List ℕ
bang = 33 ∷ []

abbrev tail : List ℕ
tail = 0x82 ∷ 0xac ∷ bang

abbrev two_ranges : List ℕ
two_ranges = 48 ∷ 57 ∷ 97 ∷ 122 ∷ 0xFFFFFFFF ∷ []

abbrev hi : List ℕ
hi = 72 ∷ 105 ∷ []
