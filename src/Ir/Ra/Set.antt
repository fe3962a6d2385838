-- ===== src/Ir/Ra/Set.antt =====
-- RaSet of src/ir68k.c: sets of candidate numbers below 256, a bit each in eight 32-bit words.
pub mod Laws
pub mod Count
use Prim.Native.Nat.{bit_and, bit_or}
use c68k.Prelude.{
  ℕ, zero, suc, ◌+◌, ◌-◌, ◌/◌, ◌%◌, ◌^◌, Bool, true, false, not, ◌||◌, List, [], ◌∷◌, get_or, set,
  replicate, ◌==◌,
}

abbrev pub RaSet : Type 0
RaSet = List ℕ

unfoldable pub ra_set_zero : RaSet
ra_set_zero = replicate 8 0

unfoldable pub ra_set_add : RaSet → ℕ → RaSet
ra_set_add s i = set s (i / 32) (bit_or (get_or s (i / 32) 0) (2 ^ (i % 32)))

unfoldable pub ra_set_del : RaSet → ℕ → RaSet
ra_set_del s i = set s (i / 32) (bit_and (get_or s (i / 32) 0) (0xffffffff - 2 ^ (i % 32)))

unfoldable pub ra_set_has : RaSet → ℕ → Bool
ra_set_has s i = get_or s (i / 32) 0 / 2 ^ (i % 32) % 2 == 1

-- whether a bit was newly set, and `d | s`
unfoldable pub ra_set_or : RaSet → RaSet → Bool × RaSet
ra_set_or (d ∷ ds) (s ∷ ss) =
    let r = ra_set_or ds ss in (not (bit_or d s == d) || r.0, bit_or d s ∷ r.1)
ra_set_or ds _ = (false, ds)

-- `d[w] &= ~s[w]` for each word
unfoldable pub ra_set_minus : RaSet → RaSet → RaSet
ra_set_minus (d ∷ ds) (s ∷ ss) = bit_and d (0xffffffff - s) ∷ ra_set_minus ds ss
ra_set_minus ds _ = ds
