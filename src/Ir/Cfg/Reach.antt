-- ===== src/Ir/Cfg/Reach.antt =====
-- The search of op6_dce_unreachable in src/ir68k.c, against paths of successor edges.
use c68k.Prelude.{
  ℕ, zero, suc, ◌+◌, ◌<◌, ◌≤◌, ◌≡◌, ◌⊎◌, ◌↔◌, inl, inr, refl, Bool, true, false, Option, some, List,
  [], ◌∷◌, length, get_or, set, replicate, All, length-set, length-replicate, arith, sym, ◌∙◌,
}
use mathlib.Core.Path.{subst}
use mathlib.Core.Bool.{true≢false}
use c68k.Ir.Cfg.Visit.{
  In, Seen, unseen, get_or-set, set-Seen, Holds, visit_all-Grows, visit_all-Seen, visit_all-Holds,
  unseen-set,
}
use c68k.Ir.Cfg.{Search, visit_all, search, seen_blocks}

-- there is a path of successor edges from block 0
pub data Reachable (succ : ℕ → List ℕ) : ℕ → Type 0 where
  entry : Reachable succ 0
  edge : {b s : ℕ} → Reachable succ b → In s (succ b) → Reachable succ s

module _ (n : ℕ) (succ : ℕ → List ℕ) (ranged : (b : ℕ) → All (λ s. s < n) (succ b)) where
  -- Every mark has its block on the stack still, or marks on all successors.
  abbrev IsPending : List Bool → List ℕ → Type 0
  IsPending seen stack =
      (b : ℕ) → Seen seen b → In b stack ⊎ ((s : ℕ) → In s (succ b) → Seen seen s)

  -- what the search has found when it ends
  abbrev Found : List Bool → Option (List Bool) → Type 0
  Found seen o =
      (seen' : List Bool) × (o ≡ some seen')
      × ((b : ℕ) → Seen seen b → Seen seen' b)
      × ((b s : ℕ) → Seen seen' b → In s (succ b) → Seen seen' s)
      × ((b : ℕ) → Seen seen' b → Reachable succ b)

  pop-IsPending :
      (seen : List Bool) (b : ℕ) (stack : List ℕ)
      → length seen ≡ n
      → IsPending seen (b ∷ stack)
      → let r = visit_all (record { seen = seen; stack = stack }) (succ b) in
        IsPending r.seen r.stack
  pop-IsPending seen b stack e pending x h =
      let r : Search = record { seen = seen; stack = stack } in
      let (len, marks, held, new, room) = visit_all-Grows n r (succ b) e (ranged b) in
      elim (new x h) [
        | inr waits ↦ inl waits
        | inl old ↦ elim (pending x old) [
          | inr done ↦ inr (λ t k. marks t (done t k))
          | inl (inr waits) ↦ inl (held x waits)
          | inl (inl same) ↦ inr (λ t k.
              visit_all-Seen n r (succ b) t e (ranged b) (subst (λ y. In t (succ y)) same k))
        ]
      ]

  search-Found :
      (fuel : ℕ) (seen : List Bool) (stack : List ℕ)
      → length seen ≡ n
      → unseen seen + length stack ≤ fuel
      → IsPending seen stack
      → Holds (Reachable succ) (record { seen = seen; stack = stack })
      → Found seen (search fuel succ seen stack)
  unfolding search
  search-Found fuel seen [] e enough pending hold =
      let closed : (b s : ℕ) → Seen seen b → In s (succ b) → Seen seen s =
        λ b s h k. elim (pending b h) [ inl none ↦ absurd none | inr all ↦ all s k ] in
      (seen, refl, λ b h. h, closed, hold.0)
  search-Found zero seen (b ∷ stack) e enough pending hold = absurd (omega arith)
  search-Found (suc fuel) seen (b ∷ stack) e enough pending hold =
      let r : Search = record { seen = seen; stack = stack } in
      let r' = visit_all r (succ b) in
      let (len, marks, held, new, room) = visit_all-Grows n r (succ b) e (ranged b) in
      let reached = hold.1 b (inl refl) in
      let below : Holds (Reachable succ) r = (hold.0, λ x h. hold.1 x (inr h)) in
      let (seen', found, more, closed, only) =
        search-Found fuel r'.seen r'.stack (len ∙ e) (omega (arith, room))
          (pop-IsPending seen b stack e pending)
          (visit_all-Holds (Reachable succ) r (succ b) below (λ s k. edge reached k)) in
      (seen', found, λ x h. more x (marks x h), closed, only)

  unseen-replicate : (k : ℕ) → unseen (replicate k false) ≡ k
  unseen-replicate zero = refl
  unseen-replicate (suc k) = omega (arith, unseen-replicate k)

  get_or-replicate : (k b : ℕ) → get_or (replicate k false) b false ≡ false
  get_or-replicate zero b = refl
  get_or-replicate (suc k) zero = refl
  get_or-replicate (suc k) (suc b) = get_or-replicate k b

  Reachable-Seen :
      (seen : List Bool)
      → Seen seen 0
      → ((b s : ℕ) → Seen seen b → In s (succ b) → Seen seen s)
      → (b : ℕ) → Reachable succ b
      → Seen seen b
  Reachable-Seen seen first closed _ entry = first
  Reachable-Seen seen first closed _ (edge {b} {s} r k) =
      closed b s (Reachable-Seen seen first closed b r) k

  -- Where all successors are blocks, the search ends within one round for each block, and what it
  -- has marked then are the blocks to which successor edges lead from block 0, and no others.
  pub seen_blocks-Reachable :
      0 < n
      → (seen : List Bool) × (seen_blocks n succ ≡ some seen)
        × ((b : ℕ) → Seen seen b ↔ Reachable succ b)
  unfolding seen_blocks
  seen_blocks-Reachable h =
      let start = set (replicate n false) 0 true in
      let len : length start ≡ n =
        length-set (replicate n false) 0 true ∙ length-replicate n false in
      let fresh = length-replicate n false in
      let at0 : Seen start 0 = get_or-set (replicate n false) 0 (omega arith) in
      let only0 : (x : ℕ) → Seen start x → x ≡ 0 = λ x k.
        elim (set-Seen (replicate n false) 0 x k) [
          | inl same ↦ same
          | inr old ↦ absurd (true≢false (sym old ∙ get_or-replicate n x))
        ] in
      let room = unseen-set (replicate n false) 0 (omega arith) (get_or-replicate n 0) in
      let zero_reached : (x : ℕ) → x ≡ 0 → Reachable succ x = λ x e. rw e entry in
      let (seen, found, more, closed, only) =
        search-Found n start (0 ∷ []) len (omega (arith, unseen-replicate n, room))
          (λ x k. inl (inl (only0 x k)))
          (
            λ x k. zero_reached x (only0 x k),
            λ x k. elim k [ inl e ↦ zero_reached x e | inr f ↦ absurd f ],
          ) in
      (seen, found, λ b. (only b, Reachable-Seen seen (more 0 at0) closed b))
