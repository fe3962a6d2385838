-- ===== src/Unicode/Classes.antt =====
-- The identifier characters and display widths that src/unicode.c reads off its tables.
use c68k.Prelude.{
  ℕ, suc, ◌+◌, ◌-◌, ◌<◌, ◌≤◌, ◌≡◌, ◌≢◌, ◌↔◌, ◌⊎◌, refl, Bool, true, ◌&&◌, ◌||◌, some, List, [], ◌∷◌,
  ◌++◌, All, length, leb, same_bool, same_bool→eq, arith, ◌==◌,
}
use c68k.Prelude.Tables.{all_below, all_below_sound}
use c68k.Unicode.{in_range, is_ident1, is_ident2, char_width, display_width_loop, display_width}
use c68k.Unicode.Utf8.{lead_one}

-- C's basic letters and digits
abbrev pub is_letter : ℕ → Bool
is_letter c = (leb b'a' c && leb c b'z') || (leb b'A' c && leb c b'Z')

abbrev pub is_digit : ℕ → Bool
is_digit c = leb b'0' c && leb c b'9'

abbrev pub is_mark : ℕ → Bool
is_mark c = c == b'_' || c == b'$'

-- An ASCII character starts an identifier exactly when it is a letter, `_` or `$`, and goes on in
-- one exactly when it is one of those or a digit.
pub is_ident-ascii :
    (c : ℕ)
    → c < 128
    → (is_ident1 c ≡ (is_letter c || is_mark c))
      × (is_ident2 c ≡ ((is_letter c || is_mark c) || is_digit c))
unfolding is_ident2 all_below
is_ident-ascii c h = (
  same_bool→eq _ _
      (all_below_sound 128 (λ c. same_bool (is_ident1 c) (is_letter c || is_mark c)) c refl h),
  same_bool→eq _ _ (
      all_below_sound 128 (λ c. same_bool (is_ident2 c) ((is_letter c || is_mark c) || is_digit c))
        c refl h),
)

-- Membership in a table of pairs of bounds, up to its end mark
abbrev pub Within : List ℕ → ℕ → Type 0
Within (lo ∷ hi ∷ range) c = (lo ≢ 0xFFFFFFFF) × (((lo ≤ c) × (c ≤ hi)) ⊎ Within range c)
Within _ c = ⊥

in_range-Within : (range : List ℕ) (c : ℕ) → in_range range c ≡ true → Within range c
unfolding in_range
in_range-Within [] c h = cc
in_range-Within (lo ∷ []) c h = cc
in_range-Within (lo ∷ hi ∷ range) c h = grind (arith, in_range-Within range c)

Within-in_range : (range : List ℕ) (c : ℕ) → Within range c → in_range range c ≡ true
unfolding in_range
Within-in_range [] c h = absurd h
Within-in_range (lo ∷ []) c h = absurd h
Within-in_range (lo ∷ hi ∷ range) c h = ground (arith, Within-in_range range c)

-- in_range finds exactly the characters that lie in one of the pairs before the end mark.
pub in_range_iff : (range : List ℕ) (c : ℕ) → (in_range range c ≡ true) ↔ Within range c
in_range_iff range c = (in_range-Within range c, Within-in_range range c)

-- printable ASCII
abbrev pub IsPrintable : ℕ → Type 0
IsPrintable c = (0x20 ≤ c) × (c < 0x7F)

printable_widths : all_below 0x7F (λ c. leb c 0x1F || (char_width c == 1)) ≡ true
unfolding char_width all_below
printable_widths = refl

char_width-printable : (c : ℕ) → IsPrintable c → char_width c ≡ 1
char_width-printable c (lo, hi) =
    ground
      (arith, all_below_sound 0x7F (λ c. leb c 0x1F || (char_width c == 1)) c printable_widths hi)

display_width_loop-printable :
    (s rest : List ℕ) (w : ℕ)
    → All IsPrintable s
    → display_width_loop (length s) (length s) (s ++ rest) w ≡ some (w + length s)
unfolding display_width_loop
display_width_loop-printable [] rest w h = ground arith
display_width_loop-printable (c ∷ s) rest w (hc, hs) =
    let left : suc (length s) - (suc (length (s ++ rest)) - length (s ++ rest)) ≡ length s =
      omega arith in
    rw (lead_one c (s ++ rest) (omega arith), char_width-printable c hc, left)
      (ground (arith, display_width_loop-printable s rest (w + 1) hs))

-- A string of printable ASCII is as wide as it has characters, whatever follows it.
pub display_width-printable :
    (s rest : List ℕ) → All IsPrintable s → display_width (s ++ rest) (length s) ≡ some (length s)
unfolding display_width
display_width-printable s rest h = ground (arith, display_width_loop-printable s rest 0 h)
