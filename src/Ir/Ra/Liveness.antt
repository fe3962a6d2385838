-- ===== src/Ir/Ra/Liveness.antt =====
-- ra_conf_add and ra_liveness of src/ir68k.c: uses and definitions of each block, the fixed point of
-- live-in and live-out, and the interference sets.
pub mod Sets
pub mod Fixpoint
pub mod Exposed
pub mod Conflicts
pub mod Interference
pub mod Ranged
pub mod Paths
use c68k.Prelude.{
  ℕ, zero, suc, ◌+◌, ◌-◌, ◌*◌, Bool, true, false, not, ◌&&◌, ◌||◌, Option, none, some, List, [],
  ◌∷◌, ◌++◌, length, get_elem?, get_or, set, replicate, map, ◌==◌, if◌then◌else◌,
}
use c68k.Ir.Items.{IrItem}
use c68k.Ir.Cfg.{IrBlock}
use c68k.Ir.Ra.Events.{Cands, RaEv, event, ev_use, ev_def, ev_may_def, ra_ev_walk}
use c68k.Ir.Ra.Set.{RaSet, ra_set_zero, ra_set_add, ra_set_del, ra_set_has, ra_set_or, ra_set_minus}

-- the events of one item, on an empty ra_ev
unfoldable pub item_events : Cands → IrItem → List RaEv
unfolding ra_ev_walk
item_events ra it = elim it.e [ none ↦ [] | some e ↦ ra_ev_walk ra false e [] ]

-- the events of `n` items from `i`, in order
unfoldable pub events_from : Cands → List IrItem → ℕ → ℕ → List RaEv
unfolding item_events
events_from ra its i zero = []
events_from ra its i (suc n) =
    elim (get_elem? its i) [ none ↦ [] | some it ↦ item_events ra it ]
    ++ events_from ra its (i + 1) n

unfoldable pub block_events : Cands → List IrItem → IrBlock → List RaEv
unfolding events_from
block_events ra its k = events_from ra its k.start (k.end - k.start)

-- `use[b]`, `def[b]` and `defined` while the events of a block are read
pub record UseDef : Type 0 where
  pub uses : RaSet
  pub defs : RaSet
  pub defined : RaSet

unfoldable pub use_def_step : RaEv → UseDef → UseDef
use_def_step (event ci ev_use) r =
    if ra_set_has r.defined ci then r else record r { uses = ra_set_add r.uses ci }
use_def_step (event ci ev_def) r = record r {
  defs = ra_set_add r.defs ci;
  defined = ra_set_add r.defined ci;
}
use_def_step (event ci ev_may_def) r = r

unfoldable pub use_def_loop : List RaEv → UseDef → UseDef
unfolding use_def_step
use_def_loop [] r = r
use_def_loop (ev ∷ evs) r = use_def_loop evs (use_def_step ev r)

unfoldable pub use_def : List RaEv → UseDef
unfolding use_def_loop
use_def evs =
    use_def_loop evs (record { uses = ra_set_zero; defs = ra_set_zero; defined = ra_set_zero })

-- the union of `in` over the successors
unfoldable pub succ_or : List RaSet → List ℕ → RaSet → RaSet
succ_or ins [] o = o
succ_or ins (s ∷ ss) o = succ_or ins ss (ra_set_or o (get_or ins s ra_set_zero)).1

-- `in`, `out` and `changed`
pub record Flow : Type 0 where
  pub ins : List RaSet
  pub outs : List RaSet
  pub changed : Bool

-- what the dataflow reads of a block: its successors, use and def
pub record FlowBlock : Type 0 where
  pub succ : List ℕ
  pub uses : RaSet
  pub defs : RaSet

-- one block's part of a round
unfoldable pub flow_block : FlowBlock → ℕ → Flow → Flow
unfolding succ_or
flow_block k b st =
    let o = succ_or st.ins k.succ ra_set_zero in
    let ni = (ra_set_or (ra_set_minus o k.defs) k.uses).1 in
    let r = ra_set_or (get_or st.ins b ra_set_zero) ni in
    record { ins = set st.ins b r.1; outs = set st.outs b o; changed = st.changed || r.0 }

-- `for (b = nblocks - 1; b >= 0; b--)`, the blocks given from `b` on
unfoldable pub flow_round : List FlowBlock → ℕ → Flow → Flow
unfolding flow_block
flow_round [] b st = st
flow_round (k ∷ ks) b st = flow_block k b (flow_round ks (b + 1) st)

-- `while (changed)`; `none` is out of fuel
unfoldable pub flow_loop : ℕ → List FlowBlock → Flow → Option Flow
unfolding flow_round
flow_loop zero ks st = none
flow_loop (suc fuel) ks st =
    let next = flow_round ks 0 (record st { changed = false }) in
    let rest = flow_loop fuel ks next in if next.changed then rest else some next

-- Each round but the last adds a member to one of the sets, which have 256 at most.
unfoldable pub flow : List FlowBlock → Option Flow
unfolding flow_loop
flow ks =
    let n = length ks in
    flow_loop (256 * n + 1) ks
      (record { ins = replicate n ra_set_zero; outs = replicate n ra_set_zero; changed = true })

-- ra_conf, the set of each candidate
abbrev pub Conf : Type 0
Conf = List RaSet

unfoldable pub ra_conf_add : ℕ → ℕ → Conf → Conf
ra_conf_add i j conf =
    if i == j
    then conf
    else let once = set conf i (ra_set_add (get_or conf i ra_set_zero) j) in
      set once j (ra_set_add (get_or once j ra_set_zero) i)

-- `for (j = 0; j < ra_ncand; j++)`: `n` candidates from `j` on
unfoldable pub clobber : ℕ → RaSet → ℕ → ℕ → Conf → Conf
unfolding ra_conf_add
clobber ci live j zero conf = conf
clobber ci live j (suc n) conf =
    clobber ci live (j + 1) n
      (if not (j == ci) && ra_set_has live j then ra_conf_add ci j conf else conf)

pub record Walk : Type 0 where
  pub live : RaSet
  pub conf : Conf

unfoldable pub back_step : ℕ → RaEv → Walk → Walk
unfolding clobber
back_step ncand (event ci ev_use) w = record w { live = ra_set_add w.live ci }
back_step ncand (event ci ev_def) w = record {
  live = ra_set_del w.live ci;
  conf = clobber ci w.live 0 ncand w.conf;
}
back_step ncand (event ci ev_may_def) w = record w { conf = clobber ci w.live 0 ncand w.conf }

-- The events from the last to the first
unfoldable pub back_walk : ℕ → List RaEv → Walk → Walk
unfolding back_step
back_walk ncand [] w = w
back_walk ncand (ev ∷ evs) w = back_step ncand ev (back_walk ncand evs w)

unfoldable pub conf_blocks : ℕ → List (List RaEv) → List RaSet → Conf → Conf
unfolding back_walk
conf_blocks ncand [] outs conf = conf
conf_blocks ncand (evs ∷ rest) [] conf = conf
conf_blocks ncand (evs ∷ rest) (o ∷ outs) conf =
    conf_blocks ncand rest outs (back_walk ncand evs (record { live = o; conf = conf })).conf

-- the pairs of candidates live at the entry: the loop over `j`, and the loop over `i`
unfoldable pub entry_row : ℕ → RaSet → ℕ → ℕ → Conf → Conf
unfolding ra_conf_add
entry_row i live j zero conf = conf
entry_row i live j (suc n) conf =
    entry_row i live (j + 1) n (if ra_set_has live j then ra_conf_add i j conf else conf)

unfoldable pub entry_pairs : RaSet → ℕ → ℕ → Conf → Conf
unfolding entry_row
entry_pairs live i zero conf = conf
entry_pairs live i (suc n) conf =
    entry_pairs live (i + 1) n (if ra_set_has live i then entry_row i live (i + 1) n conf else conf)

-- the sets that the dataflow keeps, and the interference sets
pub record Live : Type 0 where
  pub flow : Flow
  pub conf : Conf

unfoldable pub flow_blocks : Cands → List IrItem → List IrBlock → List FlowBlock
unfolding block_events use_def
flow_blocks ra its = map (λ k.
    let r = use_def (block_events ra its k) in
    record { succ = k.succ; uses = r.uses; defs = r.defs })

unfoldable pub ra_liveness : Cands → List IrItem → List IrBlock → Option Live
unfolding flow flow_blocks conf_blocks entry_pairs
ra_liveness ra its blocks =
    let n = length ra.cand in
    elim (flow (flow_blocks ra its blocks)) [
      | none ↦ none
      | some f ↦
          let walked =
            conf_blocks n (map (block_events ra its) blocks) f.outs (replicate n ra_set_zero) in
          some (record {
            flow = f;
            conf =
                if length blocks == 0
                then walked
                else entry_pairs (get_or f.ins 0 ra_set_zero) 0 n walked;
          })
    ]
