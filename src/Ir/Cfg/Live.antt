-- ===== src/Ir/Cfg/Live.antt =====
-- The items that control can reach in src/ir68k.c, before and after op6_dce_unreachable.
use mathlib.Core.Path.{subst}
use mathlib.Core.Bool.{true≢false}
use native.Mathlib.Decide.{dec_lt}
use c68k.Prelude.{
  ℕ, zero, suc, ◌+◌, ◌-◌, ◌<◌, ◌≤◌, ◌≡◌, refl, Bool, true, false, Option, none, some, List, [], ◌∷◌,
  length, get_elem?, All, inl, inr, arith, ltb, if◌then◌else◌, ap, sym, ◌∙◌,
}
use c68k.Ir.Items.{IiKind, ii_label, ii_jmp, ii_cbr, ii_eval, ii_ret, ii_nop, IrItem}
use c68k.Ir.Items.Run.{defines, find_label}
use c68k.Ir.Cfg.{
  IrBlock, is_transfer, leaders, block_of_label, succ_of, with_succ, succ_at, clear_unseen,
}
use c68k.Ir.Cfg.Blocks.{Tiles, Straight}
use c68k.Ir.Cfg.Clear.{Tiles-le, clear_unseen-get, clear_unseen-defines_at}
use c68k.Ir.Cfg.Edges.{succ_at-with_succ}
use c68k.Ir.Cfg.Flow.{place, All-get, leaders-transfer}
use c68k.Ir.Cfg.Labels.{
  block_at, defines_at, IsFirst, block_of_label-IsFirst, find_label-IsFirst, find_label_cases,
  find_label_absent,
}
use c68k.Ir.Cfg.Visit.{In, Seen, In-append}

-- An item that may go on to the next one, and one that may branch
abbrev pub falls : IiKind → Bool
falls ii_jmp = false
falls ii_ret = false
falls _ = true

abbrev pub branches : IiKind → Bool
branches ii_jmp = true
branches ii_cbr = true
branches _ = false

next-In : (b n : ℕ) → b + 1 < n → In (b + 1) (if ltb (b + 1) n then (b + 1) ∷ [] else [])
next-In b n h = ground arith

succ_of-next :
    (its : List IrItem) (blocks : List IrBlock) (b : ℕ) (kind : IiKind) (it : IrItem)
    → it.kind ≡ kind
    → falls kind ≡ true
    → b + 1 < length blocks
    → In (b + 1) (succ_of its blocks b it)
unfolding succ_of
succ_of-next its blocks b ii_label it e f h = rw e (next-In b (length blocks) h)
succ_of-next its blocks b ii_eval it e f h = rw e (next-In b (length blocks) h)
succ_of-next its blocks b ii_nop it e f h = rw e (next-In b (length blocks) h)
succ_of-next its blocks b ii_cbr it e f h =
    rw e (In-append (b + 1) _ _ (next-In b (length blocks) h))
succ_of-next its blocks b ii_jmp it e f h = cc
succ_of-next its blocks b ii_ret it e f h = cc

succ_of-target :
    (its : List IrItem) (blocks : List IrBlock) (b t : ℕ) (kind : IiKind) (it : IrItem)
    → it.kind ≡ kind
    → branches kind ≡ true
    → block_of_label its it.label 0 blocks ≡ some t
    → In t (succ_of its blocks b it)
unfolding succ_of
succ_of-target its blocks b t ii_jmp it e f h = rw (e, h) (inl refl)
succ_of-target its blocks b t ii_cbr it e f h = rw (e, h) (inl refl)
succ_of-target its blocks b t _ it e f h = cc

is_transfer-branches :
    (kind : IiKind) (it : IrItem) → it.kind ≡ kind → branches kind ≡ true → is_transfer it ≡ true
unfolding is_transfer
is_transfer-branches ii_jmp it e f = rw e refl
is_transfer-branches ii_cbr it e f = rw e refl
is_transfer-branches _ it e f = cc

Tiles-end :
    (i n d : ℕ) (ks : List IrBlock) (k : IrBlock)
    → Tiles i n ks
    → get_elem? ks d ≡ some k
    → k.end ≤ n
Tiles-end i n d [] k t e = cc
Tiles-end i n zero (x ∷ ks) k (s, l, t) e =
    let same : x ≡ k = cc in subst (λ (y : IrBlock). y.end ≤ n) same (Tiles-le x.end n ks t)
Tiles-end i n (suc d) (x ∷ ks) k (s, l, t) e = Tiles-end x.end n d ks k t e

module _ (its : List IrItem) (ks : List IrBlock) (seen : List Bool)
    (tiles : Tiles 0 (length its) ks) (straight : All (Straight 0 (leaders true its)) ks)
    (closed : (b s : ℕ)
      → Seen seen b
      → In s (succ_at (with_succ its ks 0 ks) b)
      → Seen seen s) where
  -- what is left of the items
  abbrev pub left : List IrItem
  left = clear_unseen seen 0 ks its

  -- The item's block is seen, or there is no such item.
  abbrev pub Live : ℕ → Type 0
  Live pc = pc < length its → Seen seen (block_at pc 0 ks)

  get-lt : (xs : List IrItem) (pc : ℕ) (it : IrItem) → get_elem? xs pc ≡ some it → pc < length xs
  get-lt [] pc it e = cc
  get-lt (x ∷ xs) zero it e = omega arith
  get-lt (x ∷ xs) (suc pc) it e = omega (arith, get-lt xs pc it e)

  pub left-get : (pc : ℕ) → Live pc → get_elem? left pc ≡ get_elem? its pc
  left-get pc live = elim (dec_lt pc (length its)) [
    | yes lt ↦ clear_unseen-get seen 0 0 (length its) ks its pc tiles (inr (inr (live lt)))
    | no ge ↦ clear_unseen-get seen 0 0 (length its) ks its pc tiles (inr (inl (omega arith)))
  ]

  -- A block's successors are those of its last item.
  last-closed :
      (pc d s : ℕ) (k : IrBlock) (it : IrItem)
      → get_elem? ks d ≡ some k
      → get_elem? its pc ≡ some it
      → pc + 1 ≡ k.end
      → Seen seen d
      → In s (succ_of its ks d it)
      → Seen seen s
  last-closed pc d s k it get item end sd h =
      let at : get_elem? its (k.end - 1) ≡ some it =
        subst (λ (i : ℕ). get_elem? its i ≡ some it) (omega arith) item in
      let succs =
        succ_at-with_succ its ks 0 d ks k it get at ∙ ap (λ t. succ_of its ks t it) (omega arith) in
      closed d s sd (subst (λ (ss : List ℕ). In s ss) (sym succs) h)

  pub Live-next :
      (pc : ℕ) (it : IrItem)
      → Live pc
      → get_elem? its pc ≡ some it
      → falls it.kind ≡ true
      → Live (pc + 1)
  Live-next pc it live item f lt =
      let here = live (omega arith) in
      let (d, k, at, get, from, to, inside, over) =
        place pc 0 (length its) 0 ks tiles (omega arith) (omega arith) in
      elim (dec_lt (pc + 1) k.end) [
        | yes within ↦ subst (Seen seen) (at ∙ sym (inside within)) here
        | no far ↦
            let end : pc + 1 ≡ k.end = omega (arith, far, to) in
            let (start, more) = over end lt in
            let sd : Seen seen d = subst (Seen seen) (at ∙ omega arith) here in
            subst (Seen seen) (omega (arith, start)) (
              last-closed pc d (d + 1) k it get item end sd
                (succ_of-next its ks d it.kind it refl f more))
      ]

  -- A branch is the last item of its block.
  branch-last :
      (pc d : ℕ) (k : IrBlock) (it : IrItem)
      → get_elem? ks d ≡ some k
      → get_elem? its pc ≡ some it
      → branches it.kind ≡ true
      → k.start ≤ pc
      → pc < k.end
      → pc + 1 ≡ k.end
  branch-last pc d k it get item f from to = elim (dec_lt (pc + 1) k.end) [
    | yes within ↦
        let no_leader =
          All-get (Straight 0 (leaders true its)) ks d k straight get (suc pc) (omega arith)
            (omega arith) in
        let short : suc pc < length its =
          omega (arith, Tiles-end 0 (length its) d ks k tiles get) in
        let leader =
          leaders-transfer true its pc it item (is_transfer-branches it.kind it refl f) short in
        absurd (true≢false (sym leader ∙ no_leader))
    | no far ↦ omega (arith, far)
  ]

  pub Live-target :
      (pc p : ℕ) (it : IrItem)
      → Live pc
      → get_elem? its pc ≡ some it
      → branches it.kind ≡ true
      → p < length its
      → IsFirst its it.label p
      → Seen seen (block_at p 0 ks)
  Live-target pc p it live item f lt first =
      let short = get-lt its pc it item in
      let (d, k, at, get, from, to, inside, over) =
        place pc 0 (length its) 0 ks tiles (omega arith) short in
      let sd : Seen seen d = subst (Seen seen) (at ∙ omega arith) (live short) in
      let target =
        block_of_label-IsFirst its it.label 0 0 (length its) p ks tiles (omega arith) lt first in
      last-closed pc d (block_at p 0 ks) k it get item (branch-last pc d k it get item f from to) sd
        (succ_of-target its ks d (block_at p 0 ks) it.kind it refl f target)

  -- A branch of a live item goes to the same live item after the pass.
  pub left-find_label :
      (pc : ℕ) (it : IrItem)
      → Live pc
      → get_elem? its pc ≡ some it
      → branches it.kind ≡ true
      → (find_label it.label 0 left ≡ find_label it.label 0 its)
        × ((p : ℕ) → find_label it.label 0 its ≡ some p → Live p)
  left-find_label pc it live item f = elim (find_label_cases it.label 0 its) [
    | inl (p, lt, (d, before)) ↦
        let there = Live-target pc p it live item f lt (d, before) in
        let found = find_label-IsFirst it.label 0 p its (d, before) in
        let same = left-get p (λ _. there) in
        let still : defines_at left it.label p ≡ true =
          ap (λ (o : Option IrItem). elim o [ none ↦ false | some x ↦ defines x it.label ]) same
          ∙ d in
        let found' =
          find_label-IsFirst it.label 0 p left
            (still, λ j h. clear_unseen-defines_at seen 0 ks its j it.label (before j h)) in
        (
          found' ∙ sym found,
          λ q e.
              let goal : 0 + p ≡ q = cc in
              λ _. subst (λ (t : ℕ). Seen seen (block_at t 0 ks)) (omega (arith, goal)) there,
        )
    | inr (nowhere, absent) ↦ (
      find_label_absent it.label 0 left
            (λ j. clear_unseen-defines_at seen 0 ks its j it.label (absent j))
          ∙ sym nowhere,
      λ q e. absurd cc,
    )
  ]
