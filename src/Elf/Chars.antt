-- ===== src/Elf/Chars.antt =====
-- The text routines of src/emit_elf.c: trim, parse_num and the string calls that they use. A C string is
-- the list of its bytes, without the NUL; the characters are ASCII.
use Prim.Native.Char.{code}
use Prim.Native.String.{String}
use c68k.Prelude.{
  ℕ, zero, suc, ◌+◌, ◌-◌, ◌*◌, ◌%◌, ◌^◌, min, Bool, true, false, ◌&&◌, ◌||◌, Option, none, some,
  List, [], ◌∷◌, get_or, leb, ◌==◌, if◌then◌else◌,
}
use c68k.Elf.Symbols.{same_bytes}

-- a string constant
abbrev pub chars : String → List ℕ
chars Prim.Native.String.[] = []
chars (Prim.Native.String.◌∷◌ c s) = code c ∷ chars s

-- `!strcmp(s, "...")`
unfoldable pub is : List ℕ → String → Bool
unfolding same_bytes
is s name = same_bytes s (chars name)

-- `s[i]`; behind the end the model reads the NUL.
abbrev pub char_at : List ℕ → ℕ → ℕ
char_at s i = get_or s i 0

abbrev pub drop : ℕ → List ℕ → List ℕ
drop zero s = s
drop (suc n) [] = []
drop (suc n) (c ∷ s) = drop n s

-- the bytes before the first `c`, or all of them
abbrev pub before : ℕ → List ℕ → List ℕ
before c [] = []
before c (x ∷ s) = let rest = before c s in if x == c then [] else x ∷ rest

-- what follows the first `c`; `none` without one
abbrev pub after : ℕ → List ℕ → Option (List ℕ)
after c [] = none
after c (x ∷ s) = let rest = after c s in if x == c then some s else rest

unfoldable pub trim_start : List ℕ → List ℕ
trim_start [] = []
trim_start (c ∷ s) = let rest = trim_start s in if c == b' ' || c == b'\t' then rest else c ∷ s

unfoldable pub trim_end : List ℕ → List ℕ
trim_end [] = []
trim_end (c ∷ s) = elim (trim_end s) [
  | [] ↦ if c == b' ' || c == b'\t' || c == b'\r' then [] else c ∷ []
  | x ∷ t ↦ c ∷ x ∷ t
]

unfoldable pub trim : List ℕ → List ℕ
unfolding trim_start trim_end
trim s = trim_end (trim_start s)

-- strtoull of the C library: the value of a digit, the digits, and the whole
abbrev digit_of : ℕ → ℕ → Option ℕ
digit_of base c =
    let d : ℕ =
      if leb b'0' c && leb c b'9'
      then c - b'0'
      else if leb b'a' c && leb c b'z'
      then c - b'a' + 10
      else if leb b'A' c && leb c b'Z'
      then c - b'A' + 10
      else 36 in
    if leb base d then none else some d

abbrev digits_loop : ℕ → ℕ → List ℕ → ℕ
digits_loop base v [] = v
digits_loop base v (c ∷ s) = elim (digit_of base c) [
  | none ↦ v
  | some d ↦ digits_loop base (min (v * base + d) (2 ^ 64 - 1)) s
]

abbrev skip_space : List ℕ → List ℕ
skip_space [] = []
skip_space (c ∷ s) =
    let rest = skip_space s in if c == b' ' || (leb 9 c && leb c 13) then rest else c ∷ s

abbrev skip_0x : ℕ → List ℕ → List ℕ
skip_0x base s =
    let hex = elim (digit_of 16 (char_at s 2)) as (λ _. Bool) [ none ↦ false | some _ ↦ true ] in
    if base == 16 && char_at s 0 == b'0' && (char_at s 1 == b'x' || char_at s 1 == b'X') && hex
    then drop 2 s
    else s

abbrev pub strtoull : List ℕ → ℕ → ℕ
strtoull s base =
    let t = skip_space s in
    let c = char_at t 0 in
    let v = digits_loop base 0 (skip_0x base (if c == b'+' || c == b'-' then drop 1 t else t)) in
    if c == b'-' then (2 ^ 64 - v) % 2 ^ 64 else v

-- the bit pattern of the int64_t
unfoldable pub parse_num : List ℕ → ℕ
parse_num s =
    let c = char_at s 0 in
    let t = if c == b'+' || c == b'-' then drop 1 s else s in
    let v = if char_at t 0 == b'$' then strtoull (drop 1 t) 16 else strtoull t 10 in
    if c == b'-' then (2 ^ 64 - v) % 2 ^ 64 else v
