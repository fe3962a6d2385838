-- ===== src/Hashmap/Probe.antt =====
-- The probing loops of src/hashmap.c: get_entry after get_or_insert_entry.
use mathlib.Core.Bool.{true≢false}
use native.Mathlib.Nat.{mod-lt}
use c68k.Prelude.{
  ℕ, zero, suc, ◌+◌, ◌<◌, ◌≤◌, ◌≡◌, ◌≢◌, ◌%◌, ◌^◌, refl, ap, sym, ◌∙◌, Bool, true, false, none,
  some, List, [], ◌∷◌, length, get_or, set, length-set, if◌then◌else◌, ◌⊎◌, inl, inr, Bool-cases,
  arith,
}
use c68k.Elf.Symbols.{same_bytes}
use c68k.Elf.Symbols.Lookup.{same_bytes→eq, same_bytes_refl}
use c68k.Hashmap.{
  EntryKey, no_key, tombstone, bytes, HashEntry, HashMap, no_entry, bucket, entry_at, match_key,
  is_null, get_loop, insert_loop, set_key, set_val,
}

-- get_or_insert_entry takes this entry: it has the key, is deleted, or is empty.
abbrev pub takes : HashEntry → List ℕ → Bool
takes e key = elim e.key [ no_key ↦ true | tombstone ↦ true | bytes k ↦ same_bytes k key ]

abbrev pub filled : List ℕ → ℕ → HashEntry
filled key val = record { key = bytes key; val = val }

get_or-set_same {ℓ} :
    {A : Type ℓ} (l : List A) (i : ℕ) (x d : A) → i < length l → get_or (set l i x) i d ≡ x
get_or-set_same [] i x d h = absurd (omega arith)
get_or-set_same (y ∷ l) zero x d h = refl
get_or-set_same (y ∷ l) (suc i) x d h = get_or-set_same l i x d (omega arith)

pub get_or-set_other {ℓ} :
    {A : Type ℓ} (l : List A) (i j : ℕ) (x d : A) → i ≢ j → get_or (set l i x) j d ≡ get_or l j d
get_or-set_other [] i j x d h = refl
get_or-set_other (y ∷ l) zero zero x d h = absurd (h refl)
get_or-set_other (y ∷ l) zero (suc j) x d h = refl
get_or-set_other (y ∷ l) (suc i) zero x d h = refl
get_or-set_other (y ∷ l) (suc i) (suc j) x d h = get_or-set_other l i j x d (λ e. h (ap suc e))

set-set {ℓ} : {A : Type ℓ} (l : List A) (i : ℕ) (x y : A) → set (set l i x) i y ≡ set l i y
set-set [] i x y = refl
set-set (z ∷ l) zero x y = refl
set-set {A = A} (z ∷ l) (suc i) x y = ap (λ (k : List A). z ∷ k) (set-set l i x y)

set_self {ℓ} : {A : Type ℓ} (l : List A) (i : ℕ) (d : A) → set l i (get_or l i d) ≡ l
set_self [] i d = refl
set_self (x ∷ l) zero d = refl
set_self {A = A} (x ∷ l) (suc i) d = ap (λ (k : List A). x ∷ k) (set_self l i d)

-- What a put leaves: one entry, which was free or had the key, has the key and the value.
abbrev pub Stored : HashMap → List ℕ → ℕ → ℕ → HashMap → Type 0
Stored map key val idx map' =
    (map'.buckets ≡ set map.buckets idx (filled key val))
    × (takes (entry_at map idx) key ≡ true)
    × (idx < length map.buckets)

-- set_val after set_key, on the list
set_val-set :
    (l : List HashEntry) (idx val : ℕ) (key : List ℕ) (e : HashEntry)
    → idx < length l
    → e.key ≡ bytes key
    → set (set l idx e) idx (record (get_or (set l idx e) idx no_entry) { val = val })
      ≡ set l idx (filled key val)
set_val-set l idx val key e h k =
    set-set l idx e _
    ∙ ap (λ (x : HashEntry). set l idx (record x { val = val }))
        (get_or-set_same l idx e no_entry h)
    ∙ ap (λ (x : EntryKey). set l idx (record { key = x; val = val })) k

-- the new map as get_entry sees it
pub Stored-match :
    (map map' : HashMap) (key : List ℕ) (val idx : ℕ)
    → Stored map key val idx map'
    → entry_at map' idx ≡ filled key val
Stored-match map map' key val idx (e, t, lt) =
    ap (λ (l : List HashEntry). get_or l idx no_entry) e
    ∙ get_or-set_same map.buckets idx (filled key val) no_entry lt

-- another entry
pub Stored-other :
    (map map' : HashMap) (key : List ℕ) (val idx j : ℕ)
    → Stored map key val idx map'
    → idx ≢ j
    → entry_at map' j ≡ entry_at map j
Stored-other map map' key val idx j (e, t, lt) ne =
    ap (λ (l : List HashEntry). get_or l j no_entry) e
    ∙ get_or-set_other map.buckets idx j (filled key val) no_entry ne

-- The outcome of a put: the loop ends, and get_entry then finds the entry with the value.
abbrev pub Inserted : ℕ → HashMap → List ℕ → ℕ → ℕ → ℕ → Type 0
Inserted n map key val hash i =
    (m' : HashMap) × (idx : ℕ) × (insert_loop n map key hash i ≡ some (m', idx))
    × Stored map key val idx (set_val m' idx val)
    × (get_loop n (set_val m' idx val) key hash i ≡ some (some idx))

pub EntryKey-cases :
    (k : EntryKey) → (k ≡ no_key) ⊎ ((k ≡ tombstone) ⊎ ((b : List ℕ) × (k ≡ bytes b)))
EntryKey-cases no_key = inl refl
EntryKey-cases tombstone = inr (inl refl)
EntryKey-cases (bytes b) = inr (inr (b, refl))

-- the entry found at once in the new map
get_here :
    (n : ℕ) (map map' : HashMap) (key : List ℕ) (val hash i : ℕ)
    → Stored map key val (bucket hash i (length map.buckets)) map'
    → get_loop (suc n) map' key hash i ≡ some (some (bucket hash i (length map.buckets)))
unfolding get_loop match_key
get_here n map map' key val hash i st =
    let idx = bucket hash i (length map.buckets) in
    let len : length map'.buckets ≡ length map.buckets =
      ap length st.0 ∙ length-set map.buckets idx (filled key val) in
    let same = Stored-match map map' key val idx st in
    let there : entry_at map' (bucket hash i (length map'.buckets)) ≡ filled key val =
      ap (λ (c : ℕ). entry_at map' (bucket hash i c)) len ∙ same in
    let m : match_key (entry_at map' (bucket hash i (length map'.buckets))) key ≡ true =
      ap (λ (e : HashEntry). match_key e key) there ∙ same_bytes_refl key in
    rw (m, get_loop) (ap (λ (c : ℕ). some (some (bucket hash i c))) len)

eq_or_less : (i j : ℕ) → i ≤ j → (i ≡ j) ⊎ (i + 1 ≤ j)
eq_or_less i j h = ground arith

-- the put into a free entry, and its get
taken_here :
    (n : ℕ) (map m' : HashMap) (key : List ℕ) (val hash i : ℕ) (e : HashEntry)
    → bucket hash i (length map.buckets) < length map.buckets
    → takes (entry_at map (bucket hash i (length map.buckets))) key ≡ true
    → e.key ≡ bytes key
    → m'.buckets ≡ set map.buckets (bucket hash i (length map.buckets)) e
    → insert_loop (suc n) map key hash i ≡ some (m', bucket hash i (length map.buckets))
    → Inserted (suc n) map key val hash i
taken_here n map m' key val hash i e lt t k same ends =
    let idx = bucket hash i (length map.buckets) in
    let stored : Stored map key val idx (set_val m' idx val) = (
      ap (λ (l : List HashEntry). set l idx (record (get_or l idx no_entry) { val = val })) same
          ∙ set_val-set map.buckets idx val key e lt k,
      t,
      lt,
    ) in
    (m', idx, ends, stored, get_here n map (set_val m' idx val) key val hash i stored)

-- another key is passed by the get as well.
get_past :
    (n : ℕ) (map map' : HashMap) (key b : List ℕ) (val hash i idx : ℕ)
    → (entry_at map (bucket hash i (length map.buckets))).key ≡ bytes b
    → same_bytes b key ≡ false
    → Stored map key val idx map'
    → get_loop (suc n) map' key hash i ≡ get_loop n map' key hash (i + 1)
unfolding get_loop match_key
get_past n map map' key b val hash i idx k differs st =
    let at = bucket hash i (length map.buckets) in
    let len : length map'.buckets ≡ length map.buckets =
      ap length st.0 ∙ length-set map.buckets idx (filled key val) in
    let not_taken : takes (entry_at map at) key ≡ false =
      ap (λ (x : EntryKey). takes (record { key = x; val = 0 }) key) k ∙ differs in
    let apart : idx ≢ at =
      λ e. true≢false (sym st.1 ∙ ap (λ (j : ℕ). takes (entry_at map j) key) e ∙ not_taken) in
    let there : entry_at map' (bucket hash i (length map'.buckets)) ≡ entry_at map at =
      ap (λ (c : ℕ). entry_at map' (bucket hash i c)) len
      ∙ Stored-other map map' key val idx at st apart in
    let k' : (entry_at map' (bucket hash i (length map'.buckets))).key ≡ bytes b =
      ap (λ (e : HashEntry). e.key) there ∙ k in
    let m : match_key (entry_at map' (bucket hash i (length map'.buckets))) key ≡ false =
      ap (λ (x : EntryKey). match_key (record { key = x; val = 0 }) key) k' ∙ differs in
    rw (m, get_loop)
      (ap (λ (x : EntryKey). if is_null x then some none else get_loop n map' key hash (i + 1)) k')

pub insert_loop-Inserted :
    (n : ℕ) (map : HashMap) (key : List ℕ) (val hash i j : ℕ)
    → 0 < length map.buckets
    → i ≤ j
    → j < i + n
    → takes (entry_at map (bucket hash j (length map.buckets))) key ≡ true
    → Inserted n map key val hash i
unfolding insert_loop match_key
insert_loop-Inserted zero map key val hash i j pos le lt t = absurd (omega arith)
insert_loop-Inserted (suc n) map key val hash i j pos le lt t =
    let idx = bucket hash i (length map.buckets) in
    let here = entry_at map idx in
    let inside : idx < length map.buckets = mod-lt ((hash + i) % 2 ^ 64) pos in
    let matches : (x : EntryKey)
        → here.key ≡ x
        → match_key here key ≡ match_key (record { key = x; val = 0 }) key =
      λ x k. ap (λ (y : EntryKey). match_key (record { key = y; val = 0 }) key) k in
    let takes_at : (x : EntryKey)
        → here.key ≡ x
        → takes here key ≡ takes (record { key = x; val = 0 }) key =
      λ x k. ap (λ (y : EntryKey). takes (record { key = y; val = 0 }) key) k in
    elim (EntryKey-cases here.key) [
      | inl k ↦
          taken_here n map (record (set_key map idx key) { used = map.used + 1 }) key val hash i
            (record here { key = bytes key }) inside (takes_at no_key k) refl refl
            (rw (matches no_key k, k, insert_loop) refl)
      | inr (inl k) ↦
          taken_here n map (set_key map idx key) key val hash i (record here { key = bytes key })
            inside (takes_at tombstone k) refl refl (rw (matches tombstone k, k, insert_loop) refl)
      | inr (inr (b, k)) ↦ elim (Bool-cases (same_bytes b key)) [
        | inl m ↦
            taken_here n map map key val hash i here inside (takes_at (bytes b) k ∙ m)
              (k ∙ ap bytes (same_bytes→eq b key m)) (sym (set_self map.buckets idx no_entry))
              (rw (matches (bytes b) k ∙ m, insert_loop) refl)
        | inr m ↦
            let later : i + 1 ≤ j = elim (eq_or_less i j le) [
              | inr more ↦ more
              | inl e ↦ absurd (
                  true≢false (
                    sym t
                    ∙ ap (λ (p : ℕ). takes (entry_at map (bucket hash p (length map.buckets))) key)
                        (sym e)
                    ∙ takes_at (bytes b) k
                    ∙ m))
            ] in
            let (m', idx', ends, stored, got) =
              insert_loop-Inserted n map key val hash (i + 1) j pos later (omega arith) t in
            (
              m',
              idx',
              rw (matches (bytes b) k ∙ m, k, insert_loop) ends,
              stored,
              get_past n map (set_val m' idx' val) key b val hash i idx' k m stored ∙ got,
            )
      ]
    ]
