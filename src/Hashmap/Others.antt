-- ===== src/Hashmap/Others.antt =====
-- hashmap_put2 of src/hashmap.c and the keys that it does not put.
use mathlib.Core.Path.{subst}
use mathlib.Core.Bool.{true≢false}
use c68k.Prelude.{
  ℕ, zero, suc, ◌+◌, ◌≡◌, ◌≢◌, refl, ap, sym, ◌∙◌, true, false, Option, none, some, List, length,
  length-set, ◌==◌, ◌⊎◌, inl, inr, Bool-cases, arith,
}
use c68k.Elf.Symbols.{same_bytes}
use c68k.Elf.Symbols.Lookup.{same_bytes→eq}
use c68k.Hashmap.{
  EntryKey, HashEntry, HashMap, bucket, entry_at, match_key, is_null, get_loop, get_entry, fnv_hash,
  hashmap_get2, hashmap_put2,
}
use c68k.Hashmap.Put.{IsMap, HasRoom, opened, hashmap_put2-Answered}
use c68k.Hashmap.Probe.{takes, filled, Stored, Stored-match, Stored-other, EntryKey-cases}

-- the entry that round `i` of get_entry looks at
abbrev probed : HashMap → ℕ → ℕ → HashEntry
probed map hash i = entry_at map (bucket hash i (length map.buckets))

get_loop-pass :
    (n : ℕ) (map : HashMap) (key : List ℕ) (hash i : ℕ)
    → match_key (probed map hash i) key ≡ false
    → is_null (probed map hash i).key ≡ false
    → get_loop (suc n) map key hash i ≡ get_loop n map key hash (i + 1)
unfolding get_loop
get_loop-pass n map key hash i m z = rw (m, z, get_loop) refl

get_loop-hit :
    (n : ℕ) (map : HashMap) (key : List ℕ) (hash i : ℕ)
    → match_key (probed map hash i) key ≡ true
    → get_loop (suc n) map key hash i ≡ some (some (bucket hash i (length map.buckets)))
unfolding get_loop
get_loop-hit n map key hash i m = rw (m, get_loop) refl

get_loop-miss :
    (n : ℕ) (map : HashMap) (key : List ℕ) (hash i : ℕ)
    → match_key (probed map hash i) key ≡ false
    → is_null (probed map hash i).key ≡ true
    → get_loop (suc n) map key hash i ≡ some none
unfolding get_loop
get_loop-miss n map key hash i m z = rw (m, z, get_loop) refl

abbrev value_at : HashMap → Option (Option ℕ) → Option ℕ
value_at m none = none
value_at m (some none) = some 0
value_at m (some (some p)) = some (entry_at m p).val

value_at-elim :
    (m : HashMap) (o : Option (Option ℕ))
    → elim o [ none ↦ none | some none ↦ some 0 | some (some idx) ↦ some (entry_at m idx).val ]
      ≡ value_at m o
value_at-elim m none = refl
value_at-elim m (some none) = refl
value_at-elim m (some (some p)) = refl

module _ (map map' : HashMap) (key other : List ℕ) (val idx : ℕ) (st : Stored map key val idx map')
    (ne : key ≢ other) where
  -- the entry that the new table has there: the one that was put, or the old one
  new_entry :
      (hash i : ℕ)
      → ((probed map' hash i ≡ filled key val) × (takes (probed map hash i) key ≡ true))
        ⊎ (probed map' hash i ≡ probed map hash i)
  new_entry hash i =
      let at = bucket hash i (length map.buckets) in
      let len : length map'.buckets ≡ length map.buckets =
        ap length st.0 ∙ length-set map.buckets idx (filled key val) in
      let moved : probed map' hash i ≡ entry_at map' at =
        ap (λ (c : ℕ). entry_at map' (bucket hash i c)) len in
      elim (Bool-cases (idx == at)) [
        | inl here ↦
            let same : idx ≡ at = ground arith in
            inl (
              moved ∙ ap (entry_at map') (sym same) ∙ Stored-match map map' key val idx st,
              ap (λ (j : ℕ). takes (entry_at map j) key) (sym same) ∙ st.1,
            )
        | inr there ↦ inr (moved ∙ Stored-other map map' key val idx at st (λ e. ground arith))
      ]

  differs : same_bytes key other ≡ false
  differs = elim (Bool-cases (same_bytes key other)) [
    | inl e ↦ absurd (ne (same_bytes→eq key other e))
    | inr e ↦ e
  ]

  -- What the old loop passes, the new one passes.
  passes :
      (n hash i : ℕ)
      → match_key (probed map hash i) other ≡ false
      → is_null (probed map hash i).key ≡ false
      → get_loop (suc n) map' other hash i ≡ get_loop n map' other hash (i + 1)
  unfolding match_key
  passes n hash i m z = elim (new_entry hash i) [
    | inl (new, t) ↦
        get_loop-pass n map' other hash i (ap (λ (e : HashEntry). match_key e other) new ∙ differs)
          (ap (λ (e : HashEntry). is_null e.key) new)
    | inr old ↦
        get_loop-pass n map' other hash i (ap (λ (e : HashEntry). match_key e other) old ∙ m)
          (ap (λ (e : HashEntry). is_null e.key) old ∙ z)
  ]

  -- An entry that get_entry finds is not the one that was put.
  kept :
      (hash i : ℕ)
      → match_key (probed map hash i) other ≡ true
      → probed map' hash i ≡ probed map hash i
  unfolding match_key
  kept hash i m = elim (new_entry hash i) [
    | inr old ↦ old
    | inl (new, t) ↦ elim (EntryKey-cases (probed map hash i).key) [
      | inl k ↦ absurd (
          true≢false
            (sym m ∙ ap (λ (x : EntryKey). match_key (record { key = x; val = 0 }) other) k))
      | inr (inl k) ↦ absurd (
          true≢false
            (sym m ∙ ap (λ (x : EntryKey). match_key (record { key = x; val = 0 }) other) k))
      | inr (inr (b, k)) ↦
          let is_other : b ≡ other =
            same_bytes→eq b other
              (sym (ap (λ (x : EntryKey). match_key (record { key = x; val = 0 }) other) k) ∙ m) in
          let is_key : b ≡ key =
            same_bytes→eq b key
              (sym (ap (λ (x : EntryKey). takes (record { key = x; val = 0 }) key) k) ∙ t) in
          absurd (ne (sym is_key ∙ is_other))
    ]
  ]

  get_loop-kept :
      (n hash i p : ℕ)
      → get_loop n map other hash i ≡ some (some p)
      → value_at map' (get_loop n map' other hash i) ≡ some (entry_at map p).val
  unfolding get_loop
  get_loop-kept zero hash i p e = cc
  get_loop-kept (suc n) hash i p e = elim (Bool-cases (match_key (probed map hash i) other)) [
    | inl m ↦
        let same = kept hash i m in
        let at : bucket hash i (length map.buckets) ≡ p =
          found_inj (sym (get_loop-hit n map other hash i m) ∙ e) in
        ap (value_at map')
          (get_loop-hit n map' other hash i (ap (λ (e : HashEntry). match_key e other) same ∙ m))
        ∙ ap (λ (e : HashEntry). some e.val) (same ∙ ap (entry_at map) at)
    | inr m ↦ elim (Bool-cases (is_null (probed map hash i).key)) [
      | inl z ↦ absurd (some_none (sym (get_loop-miss n map other hash i m z) ∙ e))
      | inr z ↦
          ap (value_at map') (passes n hash i m z)
          ∙ get_loop-kept n hash (i + 1) p (sym (get_loop-pass n map other hash i m z) ∙ e)
    ]
  ]
    where
      found_inj : {p q : ℕ} → ◌≡◌ {A = Option (Option ℕ)} (some (some p)) (some (some q)) → p ≡ q
      found_inj e = cc

      some_none : {p : ℕ} → ◌≡◌ {A = Option (Option ℕ)} (some none) (some (some p)) → ⊥
      some_none e = cc

nothing : {p : ℕ} → ◌≡◌ {A = Option (Option ℕ)} (some none) (some (some p)) → ⊥
nothing e = cc

-- a put that changes one entry, which was free or had the key `key`, leaves what hashmap_get2 answers for another
-- key that get_entry finds.
Stored-hashmap_get2 :
    (map map' : HashMap) (key other : List ℕ) (val idx p : ℕ)
    → Stored map key val idx map'
    → key ≢ other
    → get_entry map other ≡ some (some p)
    → hashmap_get2 map' other ≡ hashmap_get2 map other
unfolding hashmap_get2 get_entry
Stored-hashmap_get2 map map' key other val idx p st ne e =
    let len : length map'.buckets ≡ length map.buckets =
      ap length st.0 ∙ length-set map.buckets idx (filled key val) in
    elim (Bool-cases (length map.buckets == 0)) [
      | inl z ↦ absurd (nothing (sym (rw (z, get_entry) refl) ∙ e))
      | inr z ↦
          let z' : length map'.buckets == 0 ≡ false = ap (λ (n : ℕ). n == 0) len ∙ z in
          let found : get_loop (length map.buckets) map other (fnv_hash other) 0 ≡ some (some p) =
            sym (rw (z, get_entry) refl) ∙ e in
          let kept' =
            get_loop-kept map map' key other val idx st ne (length map.buckets) (fnv_hash other) 0 p
              found in
          rw (z, z', found, hashmap_get2, get_entry)
            (value_at-elim map' _
              ∙ ap (λ (n : ℕ). value_at map' (get_loop n map' other (fnv_hash other) 0)) len
              ∙ kept')
    ]

-- Where `used` counts the entries that are not empty, the number of buckets divides 2 ^ 64, and no rehash is due,
-- hashmap_put2 ends, hashmap_get2 then answers the value for the key, and for another key that the table had what
-- it answered before.
pub hashmap_put2-hashmap_get2 :
    (map : HashMap) (key other : List ℕ) (val p : ℕ)
    → IsMap map
    → HasRoom map
    → key ≢ other
    → get_entry map other ≡ some (some p)
    → (map' : HashMap) × (hashmap_put2 map key val ≡ some map')
      × (hashmap_get2 map' key ≡ some val)
      × (hashmap_get2 map' other ≡ hashmap_get2 map other)
unfolding get_entry
hashmap_put2-hashmap_get2 map key other val p valid room ne e =
    let (map', ends, got, (idx, stored)) = hashmap_put2-Answered map key val valid room in
    elim (Bool-cases (length map.buckets == 0)) [
      | inl z ↦ absurd (nothing (sym (rw (z, get_entry) refl) ∙ e))
      | inr z ↦
          let same : opened map ≡ map = rw z refl in
          (
            map',
            ends,
            got,
            Stored-hashmap_get2 map map' key other val idx p
                (subst (λ (m : HashMap). Stored m key val idx map') same stored) ne e,
          )
    ]
