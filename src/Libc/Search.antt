-- ===== src/Libc/Search.antt =====
-- bsearch of src/libc/core/bsearch.c. The callback is a parameter, given as the sign of the key against the
-- element at an index; the pointer that is returned is that index.
pub mod Finds
use c68k.Prelude.{ℕ, zero, suc, ◌+◌, ◌-◌, ◌/◌, Bool, Option, none, some, ltb, if◌then◌else◌}

pub data Sign : Type 0 where
  below same above : Sign

-- `while (lo < hi)`; the interval shrinks in each round, so its length is enough fuel.
unfoldable pub bsearch_loop : ℕ → (ℕ → Sign) → ℕ → ℕ → Option ℕ
bsearch_loop zero cmp lo hi = none
bsearch_loop (suc fuel) cmp lo hi =
    let mid = lo + (hi - lo) / 2 in
    let left = bsearch_loop fuel cmp lo mid in
    let right = bsearch_loop fuel cmp (mid + 1) hi in
    if ltb lo hi then elim (cmp mid) [ below ↦ left | above ↦ right | same ↦ some mid ] else none

unfoldable pub bsearch : (ℕ → Sign) → ℕ → Option ℕ
unfolding bsearch_loop
bsearch cmp nmemb = bsearch_loop nmemb cmp 0 nmemb
