-- ===== src/Ir/Ra/Liveness/Paths.antt =====
-- ra_liveness of src/ir68k.c against paths in the graph: where a candidate is live, and which pairs of
-- candidates may not share a register.
use mathlib.Core.Path.{subst}
use c68k.Prelude.{
  ℕ, zero, suc, ◌+◌, ◌<◌, ◌≤◌, ◌≡◌, ◌≢◌, refl, ap, sym, ◌∙◌, Bool, true, false, not, ◌&&◌, ◌||◌,
  Option, none, some, List, [], ◌∷◌, ◌++◌, length, map, get_elem?, get_or, replicate,
  length-replicate, All, ◌⊎◌, inl, inr, ◌==◌, if◌then◌else◌, arith,
}
use c68k.Ir.Items.{IrItem}
use c68k.Ir.Cfg.{IrBlock}
use c68k.Ir.Cfg.Visit.{In}
use c68k.Ir.Ra.Events.{Cands, RaEv, EvKind, event, ev_use}
use c68k.Ir.Ra.Liveness.{
  Conf, Flow, Walk, Live, back_walk, conf_blocks, entry_pairs, block_events, use_def, flow_blocks,
  ra_liveness,
}
use c68k.Ir.Ra.Liveness.Sets.{at, All-replicate}
use c68k.Ir.Ra.Liveness.Fixpoint.{
  IsFlow, IsFlowBlock, AllFixed, flow-Solved, Solved-equations, AllFixed-at, succ_or-IsRaSet,
}
use c68k.Ir.Ra.Liveness.Exposed.{
  exposes, kills, InRange, use_def-IsUseDef, use_def-has, back_walk-has,
}
use c68k.Ir.Ra.Liveness.Conflicts.{IsConf, Both}
use c68k.Ir.Ra.Liveness.Interference.{
  Below, back_walk-Both, conf_blocks-at, entry_pairs-Extends, Both-Extends,
}
use c68k.Ir.Ra.Liveness.Ranged.{IsColorable, ra_colorable-lt, block_events-IsColorable}
use c68k.Ir.Ra.Color.{ra_interfere}
use c68k.Ir.Ra.Set.{RaSet, ra_set_zero, ra_set_has}
use c68k.Ir.Ra.Set.Laws.{IsRaSet, ra_set_zero-IsRaSet}

-- A path from the start of a block to a read of `v`, on which no definition of it is certain to happen
pub data LiveIn (ra : Cands) (its : List IrItem) (blocks : List IrBlock) (v : ℕ) : ℕ → Type 0 where
  read_here :
      {d : ℕ} {k : IrBlock}
      → get_elem? blocks d ≡ some k
      → exposes v (block_events ra its k) ≡ true
      → LiveIn ra its blocks v d
  read_later :
      {d s : ℕ} {k : IrBlock}
      → get_elem? blocks d ≡ some k
      → kills v (block_events ra its k) ≡ false
      → In s k.succ
      → LiveIn ra its blocks v s
      → LiveIn ra its blocks v d

-- Behind the events `post` that end the block `k`
abbrev pub LiveAfter : Cands → List IrItem → List IrBlock → ℕ → IrBlock → List RaEv → Type 0
LiveAfter ra its blocks v k post =
    (exposes v post ≡ true)
    ⊎ ((kills v post ≡ false) × ((s : ℕ) × In s k.succ × LiveIn ra its blocks v s))

All-after {ℓ} :
    (P : RaEv → Type ℓ) (pre : List RaEv) (ev : RaEv) (post : List RaEv)
    → All P (pre ++ ev ∷ post)
    → All P post
All-after P [] ev post (h, hs) = hs
All-after P (x ∷ pre) ev post (h, hs) = All-after P pre ev post hs

module _ (ra : Cands) (small : length ra.cand ≤ 256) where
  events-InRange :
      (evs : List RaEv)
      → All (IsColorable ra) evs
      → All (Below (length ra.cand)) evs × All InRange evs
  events-InRange [] h = (tt, tt)
  events-InRange (event c kind ∷ evs) (h, hs) =
      let lt = ra_colorable-lt ra c h in
      let (x, y) = events-InRange evs hs in ((lt, x), (omega arith, y))

  block_events-Below :
      (its : List IrItem) (k : IrBlock)
      → All (Below (length ra.cand)) (block_events ra its k) × All InRange (block_events ra its k)
  block_events-Below its k =
      events-InRange (block_events ra its k) (block_events-IsColorable ra its k)

  map-Below :
      (its : List IrItem) (blocks : List IrBlock)
      → All (All (Below (length ra.cand))) (map (block_events ra its) blocks)
  map-Below its [] = tt
  map-Below its (k ∷ blocks) = ((block_events-Below its k).0, map-Below its blocks)

  flow_blocks-IsFlowBlock :
      (its : List IrItem) (blocks : List IrBlock) → All IsFlowBlock (flow_blocks ra its blocks)
  unfolding flow_blocks
  flow_blocks-IsFlowBlock its [] = tt
  flow_blocks-IsFlowBlock its (k ∷ blocks) =
      let (u, d, s) = use_def-IsUseDef (block_events ra its k) in
      ((u, d), flow_blocks-IsFlowBlock its blocks)

  length-flow_blocks :
      (its : List IrItem) (blocks : List IrBlock)
      → length (flow_blocks ra its blocks) ≡ length blocks
  unfolding flow_blocks
  length-flow_blocks its [] = refl
  length-flow_blocks its (k ∷ blocks) = ap suc (length-flow_blocks its blocks)

  length-map_events :
      (its : List IrItem) (blocks : List IrBlock)
      → length (map (block_events ra its) blocks) ≡ length blocks
  length-map_events its [] = refl
  length-map_events its (k ∷ blocks) = ap suc (length-map_events its blocks)

  flow_blocks-at :
      (its : List IrItem) (blocks : List IrBlock) (d : ℕ) (k : IrBlock)
      → get_elem? blocks d ≡ some k
      → get_elem? (flow_blocks ra its blocks) d
        ≡ some (record {
          succ = k.succ;
          uses = (use_def (block_events ra its k)).uses;
          defs = (use_def (block_events ra its k)).defs;
        })
  unfolding flow_blocks
  flow_blocks-at its [] d k e = cc
  flow_blocks-at its (x ∷ blocks) zero k e =
      let same : x ≡ k = cc in
      ap
        (λ (y : IrBlock). some (record {
          succ = y.succ;
          uses = (use_def (block_events ra its y)).uses;
          defs = (use_def (block_events ra its y)).defs;
        }))
        same
  flow_blocks-at its (x ∷ blocks) (suc d) k e = flow_blocks-at its blocks d k e

  map-at :
      (its : List IrItem) (blocks : List IrBlock) (d : ℕ) (k : IrBlock)
      → get_elem? blocks d ≡ some k
      → get_elem? (map (block_events ra its) blocks) d ≡ some (block_events ra its k)
  map-at its [] d k e = cc
  map-at its (x ∷ blocks) zero k e =
      let same : x ≡ k = cc in ap (λ (y : IrBlock). some (block_events ra its y)) same
  map-at its (x ∷ blocks) (suc d) k e = map-at its blocks d k e

  module _ (its : List IrItem) (blocks : List IrBlock) (f : Flow)
      (shape : IsFlow (length (flow_blocks ra its blocks)) f)
      (fixed : AllFixed (flow_blocks ra its blocks) 0 f.ins f.outs) where
    -- the equations of block `d` in terms of its events
    equations :
        (d v : ℕ) (k : IrBlock)
        → get_elem? blocks d ≡ some k
        → ((s : ℕ)
            → In s k.succ
            → ra_set_has (at f.ins s) v ≡ true
            → ra_set_has (at f.outs d) v ≡ true)
          × ((exposes v (block_events ra its k)
                  || (ra_set_has (at f.outs d) v && not (kills v (block_events ra its k))))
                ≡ true
              → ra_set_has (at f.ins d) v ≡ true)
    equations d v k e =
        let (u, df, s) = use_def-IsUseDef (block_events ra its k) in
        let (up, down) =
          Solved-equations (flow_blocks ra its blocks) d v _ f (u, df) shape fixed
            (flow_blocks-at its blocks d k e) in
        let (hu, hd) = use_def-has (block_events ra its k) v (block_events-Below its k).1 in
        (up, λ h. down (rw (hu, hd) h))

    LiveIn-has : (v d : ℕ) → LiveIn ra its blocks v d → ra_set_has (at f.ins d) v ≡ true
    LiveIn-has v d (read_here {k = k} e h) = (equations d v k e).1 (ground arith)
    LiveIn-has v d (read_later {s = s} {k = k} e kill there path) =
        let (up, down) = equations d v k e in
        let out = up s there (LiveIn-has v s path) in down (ground arith)

    outs-IsRaSet : (d : ℕ) (k : IrBlock) → get_elem? blocks d ≡ some k → IsRaSet (at f.outs d)
    outs-IsRaSet d k e =
        let eq =
          (AllFixed-at (flow_blocks ra its blocks) 0 d _ f.ins f.outs fixed
            (flow_blocks-at its blocks d k e)).0 in
        let place : 0 + d ≡ d = omega arith in
        subst IsRaSet (sym (ap (at f.outs) (sym place) ∙ eq))
          (succ_or-IsRaSet f.ins k.succ ra_set_zero shape.2 ra_set_zero-IsRaSet)

    LiveAfter-has :
        (d v : ℕ) (k : IrBlock) (post : List RaEv) (c : Conf)
        → get_elem? blocks d ≡ some k
        → All InRange post
        → LiveAfter ra its blocks v k post
        → ra_set_has
            (back_walk (length ra.cand) post (record { live = at f.outs d; conf = c })).live
            v
          ≡ true
    LiveAfter-has d v k post c e range live =
        back_walk-has (length ra.cand) post (record { live = at f.outs d; conf = c }) v range
          (outs-IsRaSet d k e)
        ∙ elim live [
          | inl h ↦ ground arith
          | inr (h, (s, there, path)) ↦
              let out = (equations d v k e).0 s there (LiveIn-has v s path) in ground arith
        ]

  -- The walk over block `d` leaves the pair in the sets, and they stay there to the end.
  conf_blocks-Both :
      (its : List IrItem) (blocks : List IrBlock) (f : Flow) (d u v : ℕ) (k : IrBlock)
      (kind : EvKind) (pre post : List RaEv)
      → IsFlow (length (flow_blocks ra its blocks)) f
      → AllFixed (flow_blocks ra its blocks) 0 f.ins f.outs
      → get_elem? blocks d ≡ some k
      → block_events ra its k ≡ pre ++ event u kind ∷ post
      → kind ≢ ev_use
      → v < length ra.cand
      → v ≢ u
      → LiveAfter ra its blocks v k post
      → let n = length ra.cand in
        Both (conf_blocks n (map (block_events ra its) blocks) f.outs (replicate n ra_set_zero)) u v
        × IsConf n
            (conf_blocks n (map (block_events ra its) blocks) f.outs (replicate n ra_set_zero))
  conf_blocks-Both its blocks f d u v k kind pre post shape fixed e split ne lt apart live =
      let n = length ra.cand in
      let lens : length (map (block_events ra its) blocks) ≡ length f.outs =
        length-map_events its blocks ∙ sym (length-flow_blocks its blocks) ∙ sym shape.1 in
      let start : IsConf n (replicate n ra_set_zero) =
        (length-replicate n ra_set_zero, All-replicate n) in
      let (c', valid, ext) =
        conf_blocks-at n d (block_events ra its k) (map (block_events ra its) blocks) f.outs
          (replicate n ra_set_zero) small lens (map-Below its blocks) start
          (map-at its blocks d k e) in
      let (below, range) = block_events-Below its k in
      let w : Walk = record { live = at f.outs d; conf = c' } in
      let has =
        LiveAfter-has its blocks f shape fixed d v k post c' e
          (All-after InRange pre (event u kind) post (subst (All InRange) split range)) live in
      let both =
        back_walk-Both n u v kind pre post w small (subst (All (Below n)) split below) valid ne lt
          apart has in
      let same : (back_walk n (pre ++ event u kind ∷ post) w).conf
          ≡ (back_walk n (block_events ra its k) w).conf =
        ap (λ (evs : List RaEv). (back_walk n evs w).conf) (sym split) in
      (Both-Extends n u v _ _ ext (subst (λ (c : Conf). Both c u v) same both), ext.0)

-- ra_liveness ends with sets for all blocks, whatever the items and the graph are, for at most 256
-- candidates.
pub ra_liveness-ends :
    (ra : Cands) (its : List IrItem) (blocks : List IrBlock)
    → length ra.cand ≤ 256
    → (l : Live) × (ra_liveness ra its blocks ≡ some l)
unfolding ra_liveness
ra_liveness-ends ra its blocks small =
    let (f, e, shape, fixed) =
      flow-Solved (flow_blocks ra its blocks) (flow_blocks-IsFlowBlock ra small its blocks) in
    rw (e, ra_liveness) (_, refl)

-- the sets behind the pairs that are live at the entry
abbrev entered : List RaSet → ℕ → List IrBlock → Conf → Conf
entered ins n blocks walked =
    if length blocks == 0 then walked else entry_pairs (get_or ins 0 ra_set_zero) 0 n walked

abbrev conf_of : Option Live → Conf
conf_of none = []
conf_of (some l) = l.conf

Both-if :
    (b : Bool) (u v : ℕ) (c d : Conf) → Both c u v → Both d u v → Both (if b then c else d) u v
Both-if true u v c d h k = h
Both-if false u v c d h k = k

-- With at most 256 candidates, and in the events that ra_ev_walk records, which are the first 4096 of an item in
-- the order of its walk and not in the order of the emitted code: where the events of a block have a definition of
-- `u`, certain or not, and behind it a read of another candidate `v` is recorded, in the block or on a path of
-- blocks, before a certain definition of `v` is, ra_liveness leaves `u` and `v` in the interference sets of each
-- other.
pub ra_liveness-Both :
    (ra : Cands) (its : List IrItem) (blocks : List IrBlock) (l : Live) (d u v : ℕ) (k : IrBlock)
    (kind : EvKind) (pre post : List RaEv)
    → length ra.cand ≤ 256
    → ra_liveness ra its blocks ≡ some l
    → get_elem? blocks d ≡ some k
    → block_events ra its k ≡ pre ++ event u kind ∷ post
    → kind ≢ ev_use
    → v < length ra.cand
    → v ≢ u
    → LiveAfter ra its blocks v k post
    → (ra_interfere l.conf u v ≡ true) × (ra_interfere l.conf v u ≡ true)
unfolding ra_liveness ra_interfere
ra_liveness-Both ra its blocks l d u v k kind pre post small ends e split ne lt apart live =
    let n = length ra.cand in
    let (f, eq, shape, fixed) =
      flow-Solved (flow_blocks ra its blocks) (flow_blocks-IsFlowBlock ra small its blocks) in
    let (both, valid) =
      conf_blocks-Both ra small its blocks f d u v k kind pre post shape fixed e split ne lt apart
        live in
    let walked =
      conf_blocks n (map (block_events ra its) blocks) f.outs (replicate n ra_set_zero) in
    let last =
      entry_pairs-Extends n 0 n (get_or f.ins 0 ra_set_zero) walked small (omega arith) valid in
    let kept =
      Both-Extends n u v walked (entry_pairs (get_or f.ins 0 ra_set_zero) 0 n walked) last both in
    let whole : ra_liveness ra its blocks
        ≡ some (record { flow = f; conf = entered f.ins n blocks walked }) =
      rw (eq, ra_liveness) refl in
    let same : entered f.ins n blocks walked ≡ l.conf = ap conf_of (sym whole ∙ ends) in
    subst (λ (c : Conf). Both c u v) same (Both-if (length blocks == 0) u v walked _ both kept)
