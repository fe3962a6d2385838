-- ===== src/Libc/Tests.antt =====
-- bsearch and qsort of src/libc/core at concrete arrays, and their theorems there.
use c68k.Prelude.{ℕ, ◌≡◌, refl, some, [], ◌∷◌, get_or, leb, ltb, if◌then◌else◌, arith}
use c68k.Libc.Search.{Sign, below, same, above, bsearch}
use c68k.Libc.Search.Finds.{Ascending, Answer, bsearch-Answer}
use c68k.Libc.Sort.{qsort}
use c68k.Libc.Sort.Sorted.{IsOrder, InOrder, qsort-InOrder}
use c68k.Libc.Sort.Rearranged.{Rearranged, qsort-Rearranged}

-- the key 5 against 0, 1, 2, ...
abbrev against_five : ℕ → Sign
against_five i = if ltb i 5 then above else if ltb 5 i then below else same

found : bsearch against_five 9 ≡ some 5
unfolding bsearch
found = refl

ascending : Ascending against_five 9
ascending = (λ i j le lt e. ground (arith, e), λ i j le lt e. ground (arith, e))

bsearch-Answer_example : Answer against_five 9 (bsearch against_five 9)
bsearch-Answer_example = bsearch-Answer against_five 9 ascending

abbrev array : ℕ → ℕ
array i = get_or (7 ∷ 3 ∷ 9 ∷ 1 ∷ 3 ∷ []) i 0

sorted : qsort leb 5 array 0 ≡ 1
unfolding qsort
sorted = refl

sorted_last : qsort leb 5 array 4 ≡ 9
unfolding qsort
sorted_last = refl

leb-IsOrder : IsOrder leb
leb-IsOrder = (λ x y. ground arith, λ x y z h k. ground arith)

qsort-InOrder_example : InOrder leb 5 (qsort leb 5 array)
qsort-InOrder_example = qsort-InOrder leb 5 array leb-IsOrder

qsort-Rearranged_example : Rearranged 5 array (qsort leb 5 array)
qsort-Rearranged_example = qsort-Rearranged leb 5 array
