-- ===== src/Ir/Ra/Liveness/Fixpoint.antt =====
-- The dataflow loop of ra_liveness in src/ir68k.c: its rounds, their number, and what is fixed.
use mathlib.Core.Path.{subst}
use c68k.Prelude.{
  ℕ, zero, suc, ◌+◌, ◌*◌, ◌<◌, ◌≤◌, ◌≡◌, refl, ap, sym, ◌∙◌, true, false, not, ◌&&◌, ◌||◌, Option,
  some, List, [], ◌∷◌, length, get_elem?, set, length-set, length-replicate, All, Bool-cases, inl,
  inr, arith, ◌⊎◌,
}
use c68k.Ir.Ra.Liveness.Sets.{
  at, All-at, All-IsRaSet-set, at-set_self, at-set_other, set-at, total, total-set, total-le,
  All-replicate,
}
use c68k.Ir.Ra.Liveness.{Flow, FlowBlock, succ_or, flow_block, flow_round, flow_loop, flow}
use c68k.Ir.Cfg.Visit.{In}
use c68k.Ir.Ra.Set.{RaSet, ra_set_zero, ra_set_has, ra_set_or, ra_set_minus}
use c68k.Ir.Ra.Set.Count.{members-or}
use c68k.Ir.Ra.Set.Laws.{
  IsRaSet, ra_set_zero-IsRaSet, ra_set_or-IsRaSet, ra_set_minus-IsRaSet, ra_set_has-or,
  ra_set_has-minus,
}

pub succ_or-IsRaSet :
    (ins : List RaSet) (ss : List ℕ) (o : RaSet)
    → All IsRaSet ins
    → IsRaSet o
    → IsRaSet (succ_or ins ss o)
unfolding succ_or
succ_or-IsRaSet ins [] o h k = k
succ_or-IsRaSet ins (s ∷ ss) o h k =
    succ_or-IsRaSet ins ss (ra_set_or o (at ins s)).1 h
      (ra_set_or-IsRaSet o (at ins s) k (All-at ins s h))

-- What a block of the graph must have for the sets to be fixed at it: live-out is the union over the
-- successors, and live-in has all that the equation for it gives.
abbrev pub needed : FlowBlock → RaSet → RaSet
needed k o = (ra_set_or (ra_set_minus o k.defs) k.uses).1

abbrev pub IsFixed : FlowBlock → ℕ → List RaSet → List RaSet → Type 0
IsFixed k b ins outs =
    (at outs b ≡ succ_or ins k.succ ra_set_zero)
    × ((ra_set_or (at ins b) (needed k (succ_or ins k.succ ra_set_zero))).1 ≡ at ins b)

abbrev pub AllFixed : List FlowBlock → ℕ → List RaSet → List RaSet → Type 0
AllFixed [] b ins outs = Unit {0}
AllFixed (k ∷ ks) b ins outs = IsFixed k b ins outs × AllFixed ks (b + 1) ins outs

abbrev pub IsFlowBlock : FlowBlock → Type 0
IsFlowBlock k = IsRaSet k.uses × IsRaSet k.defs

abbrev pub IsFlow : ℕ → Flow → Type 0
IsFlow n st = (length st.ins ≡ n) × (length st.outs ≡ n) × All IsRaSet st.ins

AllFixed-frame :
    (ks : List FlowBlock) (b c : ℕ) (ins outs : List RaSet) (o : RaSet)
    → b < c
    → AllFixed ks c ins outs
    → AllFixed ks c ins (set outs b o)
AllFixed-frame [] b c ins outs o lt h = tt
AllFixed-frame (k ∷ ks) b c ins outs o lt ((e, f), hs) = (
  (at-set_other outs b c o (λ x. omega arith) ∙ e, f),
  AllFixed-frame ks b (c + 1) ins outs o (omega arith) hs,
)

-- What a round or a part of it does: the sets stay sets and grow; a change adds a member, and
-- without one the blocks passed are fixed.
abbrev Round : ℕ → List FlowBlock → ℕ → Flow → Flow → Type 0
Round n ks b st st' =
    IsFlow n st'
    × (total st.ins ≤ total st'.ins)
    × (st'.changed ≡ true → (st.changed ≡ true) ⊎ (total st.ins < total st'.ins))
    × (st'.changed ≡ false
        → (st.changed ≡ false) × (st'.ins ≡ st.ins) × AllFixed ks b st.ins st'.outs)

flow_block-Round :
    (n b : ℕ) (k : FlowBlock) (st : Flow)
    → b < n
    → IsFlowBlock k
    → IsFlow n st
    → let st' = flow_block k b st in
      IsFlow n st'
      × (total st.ins ≤ total st'.ins)
      × (st'.changed ≡ true → (st.changed ≡ true) ⊎ (total st.ins < total st'.ins))
      × (st'.changed ≡ false
          → (st.changed ≡ false)
            × (st'.ins ≡ st.ins)
            × IsFixed k b st.ins st'.outs
            × (st'.outs ≡ set st.outs b (succ_or st.ins k.succ ra_set_zero)))
unfolding flow_block
flow_block-Round n b k st lt (u, d) (li, lo, sets) =
    let o = succ_or st.ins k.succ ra_set_zero in
    let os = succ_or-IsRaSet st.ins k.succ ra_set_zero sets ra_set_zero-IsRaSet in
    let old = at st.ins b in
    let olds = All-at st.ins b sets in
    let nis =
      ra_set_or-IsRaSet (ra_set_minus o k.defs) k.uses (ra_set_minus-IsRaSet o k.defs os) u in
    let (more, same, le) = members-or old (needed k o) (olds.0 ∙ sym nis.0) olds.1 nis.1 in
    let r = ra_set_or old (needed k o) in
    let count = total-set st.ins b r.1 (omega arith) in
    (
      (
        length-set st.ins b r.1 ∙ li,
        length-set st.outs b o ∙ lo,
        All-IsRaSet-set st.ins b r.1 sets (ra_set_or-IsRaSet old (needed k o) olds nis),
      ),
      omega arith,
      λ c. elim (Bool-cases st.changed) [
        | inl was ↦ inl was
        | inr not_was ↦ inr (let now : r.0 ≡ true = ground arith in omega (arith, more now))
      ],
      λ c.
          let quiet : r.0 ≡ false = ground arith in
          let stays = same quiet in
          (
            ground arith,
            ap (set st.ins b) stays ∙ set-at st.ins b,
            (at-set_self st.outs b o (omega arith), stays),
            refl,
          ),
    )

flow_round-Round :
    (n b : ℕ) (ks : List FlowBlock) (st : Flow)
    → b + length ks ≤ n
    → All IsFlowBlock ks
    → IsFlow n st
    → Round n ks b st (flow_round ks b st)
unfolding flow_round
flow_round-Round n b [] st le h v = (v, omega arith, λ c. inl c, λ c. (c, refl, tt))
flow_round-Round n b (k ∷ ks) st le (h, hs) v =
    let mid = flow_round ks (b + 1) st in
    let (v1, grow1, up1, down1) = flow_round-Round n (b + 1) ks st (omega arith) hs v in
    let (v2, grow2, up2, down2) = flow_block-Round n b k mid (omega arith) h v1 in
    (
      v2,
      omega arith,
      λ c. elim (up2 c) [
        | inr more ↦ inr (omega arith)
        | inl was ↦ elim (up1 was) [ inl before ↦ inl before | inr more ↦ inr (omega arith) ]
      ],
      λ c.
          let (c1, same2, fixed, outs) = down2 c in
          let (c0, same1, rest) = down1 c1 in
          let moved : IsFixed k b st.ins (flow_block k b mid).outs =
            subst (λ (i : List RaSet). IsFixed k b i (flow_block k b mid).outs) same1 fixed in
          let later : AllFixed ks (b + 1) st.ins (flow_block k b mid).outs =
            subst (λ (l : List RaSet). AllFixed ks (b + 1) st.ins l) (sym outs)
              (AllFixed-frame ks b (b + 1) st.ins mid.outs _ (omega arith) rest) in
          (c0, same2 ∙ same1, (moved, later)),
    )

-- the sets at the end of the loop
abbrev pub Solved : ℕ → List FlowBlock → Option Flow → Type 0
Solved n ks r = (f : Flow) × (r ≡ some f) × IsFlow n f × AllFixed ks 0 f.ins f.outs

flow_loop-Solved :
    (n fuel : ℕ) (ks : List FlowBlock) (st : Flow)
    → length ks ≤ n
    → All IsFlowBlock ks
    → IsFlow n st
    → 256 * n < total st.ins + fuel
    → Solved n ks (flow_loop fuel ks st)
unfolding flow_loop
flow_loop-Solved n zero ks st le h v enough = absurd (omega (arith, total-le st.ins v.2, v.0))
flow_loop-Solved n (suc fuel) ks st le h v enough =
    let start : Flow = record st { changed = false } in
    let next = flow_round ks 0 start in
    let (v', grow, up, down) = flow_round-Round n 0 ks start (omega arith) h v in
    elim (Bool-cases next.changed) [
      | inl c ↦
          let more : total st.ins < total next.ins = elim (up c) [
            | inl was ↦ absurd (cc)
            | inr more ↦ more
          ] in
          rw c (flow_loop-Solved n fuel ks next le h v' (omega arith))
      | inr c ↦
          let (was, same, fixed) = down c in
          rw c
            (next, refl, v', subst (λ (i : List RaSet). AllFixed ks 0 i next.outs) (sym same) fixed)
    ]

-- The loop ends within its fuel, and the sets that it leaves are fixed at every block.
pub flow-Solved : (ks : List FlowBlock) → All IsFlowBlock ks → Solved (length ks) ks (flow ks)
unfolding flow
flow-Solved ks h =
    let n = length ks in
    flow_loop-Solved n (256 * n + 1) ks _ (omega arith) h
      (length-replicate n ra_set_zero, length-replicate n ra_set_zero, All-replicate n)
      (omega arith)

-- A member of a successor's live-in is a member of the union.
succ_or-grows :
    (ins : List RaSet) (ss : List ℕ) (o : RaSet) (v : ℕ)
    → All IsRaSet ins
    → IsRaSet o
    → ra_set_has o v ≡ true
    → ra_set_has (succ_or ins ss o) v ≡ true
unfolding succ_or
succ_or-grows ins [] o v sets os h = h
succ_or-grows ins (s ∷ ss) o v sets os h =
    succ_or-grows ins ss (ra_set_or o (at ins s)).1 v sets
      (ra_set_or-IsRaSet o (at ins s) os (All-at ins s sets))
      (ra_set_has-or o (at ins s) v os (All-at ins s sets) ∙ rw h refl)

succ_or-has :
    (ins : List RaSet) (ss : List ℕ) (o : RaSet) (s v : ℕ)
    → All IsRaSet ins
    → IsRaSet o
    → In s ss
    → ra_set_has (at ins s) v ≡ true
    → ra_set_has (succ_or ins ss o) v ≡ true
unfolding succ_or
succ_or-has ins [] o s v sets os h k = absurd h
succ_or-has ins (t ∷ ss) o s v sets os h k =
    let os' = ra_set_or-IsRaSet o (at ins t) os (All-at ins t sets) in
    elim h [
      | inr later ↦ succ_or-has ins ss (ra_set_or o (at ins t)).1 s v sets os' later k
      | inl here ↦
          let k' : ra_set_has (at ins t) v ≡ true =
            subst (λ (x : ℕ). ra_set_has (at ins x) v ≡ true) here k in
          let joined = ra_set_has-or o (at ins t) v os (All-at ins t sets) in
          succ_or-grows ins ss (ra_set_or o (at ins t)).1 v sets os' (ground arith)
    ]

pub AllFixed-at :
    (ks : List FlowBlock) (b d : ℕ) (k : FlowBlock) (ins outs : List RaSet)
    → AllFixed ks b ins outs
    → get_elem? ks d ≡ some k
    → IsFixed k (b + d) ins outs
AllFixed-at [] b d k ins outs h e = cc
AllFixed-at (x ∷ ks) b zero k ins outs (h, hs) e =
    let same : x ≡ k = cc in
    subst (λ (y : FlowBlock). IsFixed y (b + 0) ins outs) same
      (subst (λ (c : ℕ). IsFixed x c ins outs) (omega arith) h)
AllFixed-at (x ∷ ks) b (suc d) k ins outs (h, hs) e =
    subst (λ (c : ℕ). IsFixed k c ins outs) (omega arith) (AllFixed-at ks (b + 1) d k ins outs hs e)

-- The dataflow equations at block `d`, read as sets
pub Solved-equations :
    (ks : List FlowBlock) (d v : ℕ) (k : FlowBlock) (f : Flow)
    → IsFlowBlock k
    → IsFlow (length ks) f
    → AllFixed ks 0 f.ins f.outs
    → get_elem? ks d ≡ some k
    → ((s : ℕ) → In s k.succ → ra_set_has (at f.ins s) v ≡ true → ra_set_has (at f.outs d) v ≡ true)
      × ((ra_set_has k.uses v || (ra_set_has (at f.outs d) v && not (ra_set_has k.defs v))) ≡ true
          → ra_set_has (at f.ins d) v ≡ true)
Solved-equations ks d v k f (u, df) (li, lo, sets) fixed e =
    let (outs, ins) = AllFixed-at ks 0 d k f.ins f.outs fixed e in
    let o = succ_or f.ins k.succ ra_set_zero in
    let os = succ_or-IsRaSet f.ins k.succ ra_set_zero sets ra_set_zero-IsRaSet in
    let ms = ra_set_minus-IsRaSet o k.defs os in
    let place : 0 + d ≡ d = omega arith in
    let outs' : at f.outs d ≡ o = ap (at f.outs) (sym place) ∙ outs in
    (
      λ s h k'. rw outs' (succ_or-has f.ins k.succ ra_set_zero s v sets ra_set_zero-IsRaSet h k'),
      λ h.
          let joined =
            ra_set_has-or (at f.ins (0 + d)) (needed k o) v (All-at f.ins (0 + d) sets)
              (ra_set_or-IsRaSet (ra_set_minus o k.defs) k.uses ms u) in
          let need = ra_set_has-or (ra_set_minus o k.defs) k.uses v ms u in
          let minus = ra_set_has-minus o k.defs v os df in
          let same = ap (λ (s : RaSet). ra_set_has s v) ins in
          let out = ap (λ (s : RaSet). ra_set_has s v) outs' in
          let there = ap (λ (b : ℕ). ra_set_has (at f.ins b) v) place in ground arith,
    )
