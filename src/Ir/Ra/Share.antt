-- ===== src/Ir/Ra/Share.antt =====
-- ra_color_global of src/ir68k.c as a whole: the dataflow of ra_liveness, and the registers given by it.
use c68k.Prelude.{
  ℕ, ◌≤◌, ◌≡◌, ◌≢◌, sym, true, some, List, ◌∷◌, ◌++◌, length, get_elem?, get_or, ◌⊎◌,
}
use c68k.Ir.Items.{IrItem}
use c68k.Ir.Cfg.{IrBlock}
use c68k.Ir.Ra.Events.{Cands, RaEv, EvKind, event, ev_use, ra_colorable}
use c68k.Ir.Ra.Liveness.{Live, block_events, ra_liveness}
use c68k.Ir.Ra.Liveness.Ranged.{ra_colorable-lt}
use c68k.Ir.Ra.Liveness.Paths.{LiveAfter, ra_liveness-Both}
use c68k.Ir.Ra.Color.{ra_color_global}
use c68k.Ir.Ra.Color.Distinct.{ra_color_global-apart}

-- With at most 256 candidates and an entry of `reg` for each, and in the events that ra_ev_walk records, which are
-- the first 4096 of an item in the order of its walk and not in the order of the emitted code: where the events
-- of a block have a definition of the colourable candidate `u`, and behind it a read of the colourable candidate
-- `v` is recorded, in the block or on a path of blocks, before a certain definition of `v` is, `u` stays in memory
-- or gets another register than `v`.
pub ra_color_global-LiveAfter :
    (ra : Cands) (its : List IrItem) (blocks : List IrBlock) (l : Live) (reg : List ℕ) (d u v : ℕ)
    (k : IrBlock) (kind : EvKind) (pre post : List RaEv)
    → length ra.cand ≤ 256
    → length reg ≡ length ra.cand
    → ra_liveness ra its blocks ≡ some l
    → get_elem? blocks d ≡ some k
    → block_events ra its k ≡ pre ++ event u kind ∷ post
    → kind ≢ ev_use
    → ra_colorable ra u ≡ true
    → ra_colorable ra v ≡ true
    → u ≢ v
    → LiveAfter ra its blocks v k post
    → let out = (ra_color_global ra l.conf reg).reg in
      (get_or out u 0 ≡ 0) ⊎ (get_or out u 0 ≢ get_or out v 0)
ra_color_global-LiveAfter ra its blocks l reg d u v k kind pre post small len ends e split def hu hv
      ne live =
    let (meet, meet') =
      ra_liveness-Both ra its blocks l d u v k kind pre post small ends e split def
        (ra_colorable-lt ra v hv) (λ same. ne (sym same)) live in
    ra_color_global-apart ra l.conf reg u v len hu hv ne meet meet'
