-- ===== src/Ir/Ra/Events.antt =====
-- Candidates for a register and the events of an item, of src/ir68k.c: ra_cand_index,
-- ra_addr_taken, ra_colorable, ra_cand_of_lea, ra_cand_of_var, ra_ev_push and ra_ev_walk.
-- An Obj pointer is a number, and 0 is NULL. `none` is the index -1.
use c68k.Prelude.{
  ℕ, ◌+◌, Bool, true, false, not, ◌&&◌, Option, none, some, List, [], ◌∷◌, ◌++◌, length, get_elem?,
  ltb, leb, ◌==◌, if◌then◌else◌,
}
use c68k.Ir.Expr.{
  IrExpr, Args, no_args, arg, nop, num, lea, load, store, binop, unary, logand, logor, cond, comma,
  cast, call, call_ptr, memzero, vdef, vuse,
}

pub record RaCand : Type 0 where
  pub var : ℕ
  pub uses : ℕ
  pub loopuses : ℕ

-- ra_cand with ra_ncand, and ra_addr with ra_naddr
pub record Cands : Type 0 where
  pub cand : List RaCand
  pub addr : List ℕ

unfoldable pub cand_index_loop : ℕ → ℕ → List RaCand → Option ℕ
cand_index_loop i v [] = none
cand_index_loop i v (c ∷ cs) =
    let rest = cand_index_loop (i + 1) v cs in if c.var == v then some i else rest

unfoldable pub ra_cand_index : Cands → ℕ → Option ℕ
unfolding cand_index_loop
ra_cand_index ra v = cand_index_loop 0 v ra.cand

unfoldable pub addr_taken_loop : ℕ → List ℕ → Bool
addr_taken_loop v [] = false
addr_taken_loop v (a ∷ as') = let rest = addr_taken_loop v as' in if a == v then true else rest

unfoldable pub ra_addr_taken : Cands → ℕ → Bool
unfolding addr_taken_loop
ra_addr_taken ra v = addr_taken_loop v ra.addr

unfoldable pub ra_colorable : Cands → ℕ → Bool
unfolding ra_addr_taken
ra_colorable ra i = elim (get_elem? ra.cand i) [
  | none ↦ false
  | some c ↦ leb 1 c.loopuses && not (ra_addr_taken ra c.var)
]

unfoldable pub ra_cand_of_var : Cands → ℕ → Option ℕ
unfolding ra_cand_index ra_colorable
ra_cand_of_var ra v = if v == 0 then none else elim (ra_cand_index ra v) [
  | none ↦ none
  | some i ↦ if ra_colorable ra i then some i else none
]

unfoldable pub ra_cand_of_lea : Cands → IrExpr → Option ℕ
unfolding ra_cand_of_var
ra_cand_of_lea ra (lea is_local off name var) = if is_local then ra_cand_of_var ra var else none
ra_cand_of_lea ra _ = none

-- kind 0, 1 and 2
pub data EvKind : Type 0 where
  ev_use ev_def ev_may_def : EvKind

-- `ci` and `kind`
pub data RaEv : Type 0 where
  event : ℕ → EvKind → RaEv

-- ra_ev holds 4096 events; the rest is not recorded.
unfoldable pub ra_ev_push : Option ℕ → EvKind → List RaEv → List RaEv
ra_ev_push none kind evs = evs
ra_ev_push (some ci) kind evs = if ltb (length evs) 4096 then evs ++ event ci kind ∷ [] else evs

abbrev pub def_kind : Bool → EvKind
def_kind c = if c then ev_may_def else ev_def

-- `c` is the flag cond; `evs` is ra_ev as far as it is filled.
unfoldable mutual
  unfolding ra_ev_push ra_cand_of_lea ra_cand_of_var

  pub ra_ev_walk : Cands → Bool → IrExpr → List RaEv → List RaEv
  ra_ev_walk ra c nop evs = evs
  ra_ev_walk ra c (num val size uns) evs = evs
  ra_ev_walk ra c (lea l off name var) evs = evs
  ra_ev_walk ra c (load a size uns) evs =
      let inner = ra_ev_walk ra c a evs in
      elim (ra_cand_of_lea ra a) [ none ↦ inner | some ci ↦ ra_ev_push (some ci) ev_use evs ]
  ra_ev_walk ra c (store a b size uns) evs =
      let value = ra_ev_walk ra c b evs in
      let both = ra_ev_walk ra c b (ra_ev_walk ra c a evs) in
      elim (ra_cand_of_lea ra a) [ none ↦ both | some ci ↦ ra_ev_push (some ci) (def_kind c) value ]
  ra_ev_walk ra c (binop op a b size uns p) evs = ra_ev_walk ra c b (ra_ev_walk ra c a evs)
  ra_ev_walk ra c (unary op a size uns) evs = ra_ev_walk ra c a evs
  ra_ev_walk ra c (logand a b) evs = ra_ev_walk ra true b (ra_ev_walk ra c a evs)
  ra_ev_walk ra c (logor a b) evs = ra_ev_walk ra true b (ra_ev_walk ra c a evs)
  ra_ev_walk ra c (cond a b d size uns) evs =
      ra_ev_walk ra true d (ra_ev_walk ra true b (ra_ev_walk ra c a evs))
  ra_ev_walk ra c (comma a b size uns) evs = ra_ev_walk ra c b (ra_ev_walk ra c a evs)
  ra_ev_walk ra c (cast op a size uns f g) evs = ra_ev_walk ra c a evs
  ra_ev_walk ra c (call name args size uns) evs = ra_ev_walk_args ra c args evs
  ra_ev_walk ra c (call_ptr a args size uns) evs = ra_ev_walk_args ra c args (ra_ev_walk ra c a evs)
  ra_ev_walk ra c (memzero var off size) evs = ra_ev_push (ra_cand_of_var ra var) (def_kind c) evs
  ra_ev_walk ra c (vdef vt a size) evs = ra_ev_walk ra c a evs
  ra_ev_walk ra c (vuse vt size) evs = evs

  pub ra_ev_walk_args : Cands → Bool → Args → List RaEv → List RaEv
  ra_ev_walk_args ra c no_args evs = evs
  ra_ev_walk_args ra c (arg e es) evs = ra_ev_walk_args ra c es (ra_ev_walk ra c e evs)
