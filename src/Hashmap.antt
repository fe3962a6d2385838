-- ===== src/Hashmap.antt =====
-- src/hashmap.c: an open-addressing table with tombstones. A key is its bytes, so keylen is its length; the
-- capacity is the length of `buckets`, 0 for NULL. A value is a pointer as a number, 0 for NULL.
pub mod Probe
pub mod Put
pub mod Others
mod Tests
use Prim.Native.Nat.{bit_xor}
use c68k.Prelude.{
  ℕ, zero, suc, ◌+◌, ◌*◌, ◌/◌, ◌%◌, ◌^◌, Bool, true, false, Option, none, some, List, [], ◌∷◌,
  length, get_or, set, replicate, leb, ◌==◌, if◌then◌else◌,
}
use c68k.Elf.Symbols.{same_bytes}

pub data EntryKey : Type 0 where
  no_key tombstone : EntryKey
  bytes : List ℕ → EntryKey

pub record HashEntry : Type 0 where
  pub key : EntryKey
  pub val : ℕ

pub record HashMap : Type 0 where
  pub buckets : List HashEntry
  pub used : ℕ

abbrev pub no_entry : HashEntry
no_entry = record { key = no_key; val = 0 }

unfoldable pub fnv_loop : List ℕ → ℕ → ℕ
fnv_loop [] hash = hash
fnv_loop (c ∷ s) hash = fnv_loop s (bit_xor (hash * 0x100000001b3 % 2 ^ 64) c)

unfoldable pub fnv_hash : List ℕ → ℕ
unfolding fnv_loop
fnv_hash s = fnv_loop s 0xcbf29ce484222325

-- `(hash + i) % map->capacity`
unfoldable pub bucket : ℕ → ℕ → ℕ → ℕ
bucket hash i capacity = (hash + i) % 2 ^ 64 % capacity

abbrev pub entry_at : HashMap → ℕ → HashEntry
entry_at map i = get_or map.buckets i no_entry

unfoldable pub match_key : HashEntry → List ℕ → Bool
unfolding same_bytes
match_key ent key = elim ent.key [ no_key ↦ false | tombstone ↦ false | bytes k ↦ same_bytes k key ]

abbrev pub is_null : EntryKey → Bool
is_null no_key = true
is_null tombstone = false
is_null (bytes k) = false

-- the loop of get_entry, `n` rounds from `i` on; `none` is unreachable()
unfoldable pub get_loop : ℕ → HashMap → List ℕ → ℕ → ℕ → Option (Option ℕ)
unfolding bucket match_key
get_loop zero map key hash i = none
get_loop (suc n) map key hash i =
    let idx = bucket hash i (length map.buckets) in
    let rest = get_loop n map key hash (i + 1) in
    if match_key (entry_at map idx) key
    then some (some idx)
    else if is_null (entry_at map idx).key
    then some none
    else rest

-- the entry as its index, and `none` inside for NULL
unfoldable pub get_entry : HashMap → List ℕ → Option (Option ℕ)
unfolding get_loop fnv_hash
get_entry map key =
    if length map.buckets == 0
    then some none
    else get_loop (length map.buckets) map key (fnv_hash key) 0

-- `ent->key = key`
abbrev pub set_key : HashMap → ℕ → List ℕ → HashMap
set_key map idx key = record map {
  buckets = set map.buckets idx (record (entry_at map idx) { key = bytes key });
}

-- the loop of get_or_insert_entry
unfoldable pub insert_loop : ℕ → HashMap → List ℕ → ℕ → ℕ → Option (HashMap × ℕ)
unfolding bucket match_key
insert_loop zero map key hash i = none
insert_loop (suc n) map key hash i =
    let idx = bucket hash i (length map.buckets) in
    let rest = insert_loop n map key hash (i + 1) in
    if match_key (entry_at map idx) key then some (map, idx) else elim (entry_at map idx).key [
      | tombstone ↦ some (set_key map idx key, idx)
      | no_key ↦ some (record (set_key map idx key) { used = map.used + 1 }, idx)
      | bytes _ ↦ rest
    ]

-- `ent->val = val`
abbrev pub set_val : HashMap → ℕ → ℕ → HashMap
set_val map idx val = record map {
  buckets = set map.buckets idx (record (entry_at map idx) { val = val });
}

-- hashmap_put2 with its rehash as an argument
unfoldable pub put_with : (HashMap → Option HashMap) → HashMap → List ℕ → ℕ → Option HashMap
unfolding insert_loop fnv_hash
put_with rehash map key val =
    let ready : Option HashMap =
      if length map.buckets == 0
      then some (record map { buckets = replicate 16 no_entry })
      else if leb 70 (map.used * 100 / length map.buckets)
      then rehash map
      else some map in
    elim ready [
      | none ↦ none
      | some m ↦ elim (insert_loop (length m.buckets) m key (fnv_hash key) 0) [
        | none ↦ none
        | some (m', idx) ↦ some (set_val m' idx val)
      ]
    ]

unfoldable pub count_keys : List HashEntry → ℕ
count_keys [] = 0
count_keys (e ∷ es) = elim e.key [
  | no_key ↦ count_keys es
  | tombstone ↦ count_keys es
  | bytes _ ↦ count_keys es + 1
]

-- the loop that doubles the capacity; there are at most as many keys as buckets, so two rounds are enough.
unfoldable pub grow_capacity : ℕ → ℕ → ℕ → Option ℕ
grow_capacity zero nkeys cap = none
grow_capacity (suc fuel) nkeys cap =
    let rest = grow_capacity fuel nkeys (cap * 2) in
    if leb 50 (nkeys * 100 / cap) then rest else some cap

-- the loop that copies the keys
unfoldable pub copy_loop :
    (HashMap → List ℕ → ℕ → Option HashMap) → List HashEntry → HashMap → Option HashMap
copy_loop put [] map2 = some map2
copy_loop put (e ∷ es) map2 = elim e.key [
  | no_key ↦ copy_loop put es map2
  | tombstone ↦ copy_loop put es map2
  | bytes k ↦ elim (put map2 k e.val) [ none ↦ none | some map3 ↦ copy_loop put es map3 ]
]

-- The copy is below the low watermark, so a put into it does not rehash. A failed assert is `none`.
unfoldable pub rehash : HashMap → Option HashMap
unfolding count_keys grow_capacity copy_loop put_with
rehash map =
    let nkeys = count_keys map.buckets in
    elim (grow_capacity 3 nkeys (length map.buckets)) [
      | none ↦ none
      | some cap ↦
          elim (copy_loop (put_with (λ _. none)) map.buckets
            (record { buckets = replicate cap no_entry; used = 0 })) [
              | none ↦ none
              | some map2 ↦ if map2.used == nkeys then some map2 else none
            ]
    ]

unfoldable pub hashmap_put2 : HashMap → List ℕ → ℕ → Option HashMap
unfolding put_with rehash
hashmap_put2 = put_with rehash

unfoldable pub hashmap_get2 : HashMap → List ℕ → Option ℕ
unfolding get_entry
hashmap_get2 map key = elim (get_entry map key) [
  | none ↦ none
  | some none ↦ some 0
  | some (some idx) ↦ some (entry_at map idx).val
]

unfoldable pub hashmap_delete2 : HashMap → List ℕ → Option HashMap
unfolding get_entry
hashmap_delete2 map key = elim (get_entry map key) [
  | none ↦ none
  | some none ↦ some map
  | some (some idx) ↦
      some (record map {
        buckets = set map.buckets idx (record (entry_at map idx) { key = tombstone });
      })
]
