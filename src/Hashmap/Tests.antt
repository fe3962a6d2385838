-- ===== src/Hashmap/Tests.antt =====
-- The table of src/hashmap.c at concrete keys, and its theorems there.
use native.Mathlib.Nat.{dvd-mul_right}
use c68k.Prelude.{
  ℕ, ◌^◌, ◌≡◌, ◌≢◌, get_or, ap, refl, none, some, List, [], ◌∷◌, inl, inr, arith, set, replicate,
}
use c68k.Elf.Symbols.{same_bytes}
use c68k.Hashmap.{bytes, HashMap, no_entry, get_entry, hashmap_put2, hashmap_get2, hashmap_delete2}
use c68k.Hashmap.Put.{IsMap, HasRoom, Answered, opened, hashmap_put2-Answered}
use c68k.Hashmap.Others.{hashmap_put2-hashmap_get2}

-- the key `a` in its bucket
abbrev one : HashMap
one = record {
  buckets = set (replicate 16 no_entry) 14 (record { key = bytes (b'a' ∷ []); val = 7 });
  used = 1;
}

put_run : hashmap_put2 (record { buckets = []; used = 0 }) (b'a' ∷ []) 7 ≡ some one
unfolding hashmap_put2
put_run = refl

one-IsMap : IsMap one
one-IsMap = (refl, inr (dvd-mul_right 16 (2 ^ 60)))

one-HasRoom : HasRoom one
one-HasRoom = inr (omega arith, omega arith)

found : get_entry one (b'a' ∷ []) ≡ some (some 14)
unfolding get_entry same_bytes
found = refl

-- delete marks the entry, and the key is then gone.
deleted :
    elim (hashmap_delete2 one (b'a' ∷ [])) [ none ↦ none | some m ↦ hashmap_get2 m (b'a' ∷ []) ]
    ≡ some 0
unfolding hashmap_delete2 hashmap_get2 same_bytes
deleted = refl

apart : ◌≢◌ {A = List ℕ} (b'b' ∷ []) (b'a' ∷ [])
apart e =
    let first : ◌≡◌ {A = ℕ} 98 97 = ap (λ (l : List ℕ). get_or l 0 0) e in absurd (omega arith)

hashmap_put2-hashmap_get2_example :
    (map' : HashMap) × (hashmap_put2 one (b'b' ∷ []) 9 ≡ some map')
    × (hashmap_get2 map' (b'b' ∷ []) ≡ some 9)
    × (hashmap_get2 map' (b'a' ∷ []) ≡ hashmap_get2 one (b'a' ∷ []))
hashmap_put2-hashmap_get2_example =
    hashmap_put2-hashmap_get2 one (b'b' ∷ []) (b'a' ∷ []) 9 14 one-IsMap one-HasRoom apart found

hashmap_put2-Answered_example : Answered (opened one) (b'b' ∷ []) 9 (hashmap_put2 one (b'b' ∷ []) 9)
hashmap_put2-Answered_example = hashmap_put2-Answered one (b'b' ∷ []) 9 one-IsMap one-HasRoom

-- the first put into a new map
abbrev new_map : HashMap
new_map = record { buckets = []; used = 0 }

first_put : Answered (opened new_map) (b'a' ∷ []) 7 (hashmap_put2 new_map (b'a' ∷ []) 7)
first_put = hashmap_put2-Answered new_map (b'a' ∷ []) 7 (refl, inl refl) (inl refl)
