-- ===== src/Hashmap/Put.antt =====
-- hashmap_put2 and hashmap_get2 of src/hashmap.c, where the table has room.
use Prim.Native.Nat.{◌∣◌}
use native.Mathlib.Nat.{
  mod-lt, mod-mod_of_dvd, add-mod-mod, add-mul-mod_self_left, div-lt_iff_lt-mul, mod-add-div,
  mod-eq_of_lt, mul-add, dvd-mul_right,
}
use c68k.Prelude.{
  ℕ, zero, suc, ◌+◌, ◌-◌, ◌*◌, ◌/◌, ◌%◌, ◌^◌, ◌<◌, ◌≡◌, refl, ap, ◌∙◌, true, false, Option, none,
  some, List, [], ◌∷◌, length, get_or, length-set, replicate, leb, ◌==◌, if◌then◌else◌, ◌⊎◌, inl,
  inr, arith,
}
use c68k.Hashmap.{
  EntryKey, no_key, tombstone, bytes, HashEntry, HashMap, no_entry, bucket, entry_at, get_loop,
  get_entry, insert_loop, set_val, fnv_hash, put_with, hashmap_put2, hashmap_get2,
}
use c68k.Hashmap.Probe.{takes, Stored, Inserted, insert_loop-Inserted, Stored-match}

-- the entries that are not empty
abbrev pub nonempty : List HashEntry → ℕ
nonempty [] = 0
nonempty (e ∷ es) = elim e.key [
  | no_key ↦ nonempty es
  | tombstone ↦ nonempty es + 1
  | bytes _ ↦ nonempty es + 1
]

-- `used` counts them, and the capacity, 0 for NULL and else 16 at first and doubled then, is 0 or divides 2 ^ 64.
abbrev pub IsMap : HashMap → Type 0
IsMap map =
    (nonempty map.buckets ≡ map.used) × ((length map.buckets ≡ 0) ⊎ (length map.buckets ∣ 2 ^ 64))

-- No rehash is due.
abbrev pub HasRoom : HashMap → Type 0
HasRoom map =
    (length map.buckets ≡ 0)
    ⊎ ((0 < length map.buckets) × (map.used * 100 / length map.buckets < 70))

abbrev HasEmpty : List HashEntry → Type 0
HasEmpty l = (e : ℕ) × (e < length l) × ((get_or l e no_entry).key ≡ no_key)

HasEmpty-cons : (x : HashEntry) (l : List HashEntry) → HasEmpty l → HasEmpty (x ∷ l)
HasEmpty-cons x l (e, lt, k) = (suc e, omega arith, k)

HasEmpty-key :
    (key : EntryKey) (val : ℕ) (l : List HashEntry)
    → (nonempty l < length l → HasEmpty l)
    → nonempty (record { key = key; val = val } ∷ l) < suc (length l)
    → HasEmpty (record { key = key; val = val } ∷ l)
HasEmpty-key no_key val l h lt = (0, omega arith, refl)
HasEmpty-key tombstone val l h lt = HasEmpty-cons _ l (h (omega arith))
HasEmpty-key (bytes b) val l h lt = HasEmpty-cons _ l (h (omega arith))

nonempty-HasEmpty : (l : List HashEntry) → nonempty l < length l → HasEmpty l
nonempty-HasEmpty [] h = absurd (omega arith)
nonempty-HasEmpty (x ∷ l) h = HasEmpty-key x.key x.val l (nonempty-HasEmpty l) h

HasEmpty-replicate : (n : ℕ) → 0 < n → HasEmpty (replicate n no_entry)
HasEmpty-replicate zero h = absurd (omega arith)
HasEmpty-replicate (suc n) h = (0, omega arith, refl)

whole_turn :
    (hash cap e r q : ℕ) → r < cap → r + cap * q ≡ hash → hash + (e + (cap - r)) ≡ e + cap * (q + 1)
whole_turn hash cap e r q lt h = let step = mul-add cap q 1 in omega (arith, step)

-- Some probe reaches each bucket.
reached : (hash cap e : ℕ) → cap ∣ 2 ^ 64 → e < cap → (j : ℕ) × (j < cap) × (bucket hash j cap ≡ e)
unfolding bucket
reached hash cap e d lt =
    let r = hash % cap in
    let j = (e + (cap - r)) % cap in
    let small : r < cap = mod-lt hash (omega arith) in
    let whole : r + cap * (hash / cap) ≡ hash = mod-add-div hash cap in
    let line : hash + (e + (cap - r)) ≡ e + cap * (hash / cap + 1) =
      whole_turn hash cap e r (hash / cap) small whole in
    (
      j,
      mod-lt (e + (cap - r)) (omega arith),
      mod-mod_of_dvd cap (hash + j) d
          ∙ add-mod-mod hash (e + (cap - r)) cap
          ∙ ap (λ (x : ℕ). x % cap) line
          ∙ add-mul-mod_self_left e cap (hash / cap + 1)
          ∙ mod-eq_of_lt lt,
    )

-- The loop finds room in a table that has an empty entry.
stored_in :
    (map : HashMap) (key : List ℕ) (val : ℕ)
    → length map.buckets ∣ 2 ^ 64
    → HasEmpty map.buckets
    → Inserted (length map.buckets) map key val (fnv_hash key) 0
stored_in map key val d (e, lt, k) =
    let (j, less, there) = reached (fnv_hash key) (length map.buckets) e d lt in
    insert_loop-Inserted (length map.buckets) map key val (fnv_hash key) 0 j (omega arith)
      (omega arith) (omega arith)
      (ap (λ (i : ℕ). takes (entry_at map i) key) there
        ∙ ap (λ (x : EntryKey). takes (record { key = x; val = 0 }) key) k)

-- What a put leaves when the table `m` has room
abbrev pub Answered : HashMap → List ℕ → ℕ → Option HashMap → Type 0
Answered m key val o =
    (map' : HashMap) × (o ≡ some map')
    × (hashmap_get2 map' key ≡ some val)
    × ((idx : ℕ) × Stored m key val idx map')

-- the end of hashmap_put2, behind the test for room
abbrev finish : HashMap → List ℕ → ℕ → Option HashMap
finish m key val = elim (insert_loop (length m.buckets) m key (fnv_hash key) 0) [
  | none ↦ none
  | some (m', idx) ↦ some (set_val m' idx val)
]

finish-Answered :
    (m : HashMap) (key : List ℕ) (val : ℕ)
    → 0 < length m.buckets
    → Inserted (length m.buckets) m key val (fnv_hash key) 0
    → Answered m key val (finish m key val)
unfolding hashmap_get2 get_entry
finish-Answered m key val pos (m', idx, ends, stored, got) =
    let map' = set_val m' idx val in
    let len : length map'.buckets ≡ length m.buckets =
      ap length stored.0 ∙ length-set m.buckets idx _ in
    let some_buckets : length map'.buckets == 0 ≡ false = ground arith in
    let got' : get_loop (length map'.buckets) map' key (fnv_hash key) 0 ≡ some (some idx) =
      ap (λ (n : ℕ). get_loop n map' key (fnv_hash key) 0) len ∙ got in
    let value : (entry_at map' idx).val ≡ val =
      ap (λ (e : HashEntry). e.val) (Stored-match m map' key val idx stored) in
    (
      map',
      rw (ends, finish) refl,
      rw (some_buckets, got', hashmap_get2, get_entry) (ap some value),
      (idx, stored),
    )

-- the buckets that a put works on: 16 new ones for NULL
abbrev pub opened : HashMap → HashMap
opened map = if length map.buckets == 0 then record map { buckets = replicate 16 no_entry } else map

sixteen : 16 ∣ 2 ^ 64
sixteen = dvd-mul_right 16 (2 ^ 60)

-- Where `used` counts the entries that are not empty, there are no buckets yet or as many as divide 2 ^ 64, and no
-- rehash is due, hashmap_put2 ends, the value is what hashmap_get2 then answers for the key, and one entry of the
-- buckets, or of the 16 new ones, has changed, which was free or had the key.
pub hashmap_put2-Answered :
    (map : HashMap) (key : List ℕ) (val : ℕ)
    → IsMap map
    → HasRoom map
    → Answered (opened map) key val (hashmap_put2 map key val)
unfolding hashmap_put2 put_with
hashmap_put2-Answered map key val (count, some_capacity) (inl nil) =
    let t : length map.buckets == 0 ≡ true = ground arith in
    let m : HashMap = record map { buckets = replicate 16 no_entry } in
    rw (t, hashmap_put2, put_with)
      (finish-Answered m key val (omega arith)
        (stored_in m key val sixteen (HasEmpty-replicate 16 (omega arith))))
hashmap_put2-Answered map key val (count, inl nil) (inr (pos, room)) = absurd (omega arith)
hashmap_put2-Answered map key val (count, inr d) (inr (pos, room)) =
    let t : length map.buckets == 0 ≡ false = ground arith in
    let r : leb 70 (map.used * 100 / length map.buckets) ≡ false = ground arith in
    let less = (div-lt_iff_lt-mul pos).0 room in
    rw (t, r, hashmap_put2, put_with)
      (finish-Answered map key val pos
        (stored_in map key val d (nonempty-HasEmpty map.buckets (omega arith))))
