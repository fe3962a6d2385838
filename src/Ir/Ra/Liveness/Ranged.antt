-- ===== src/Ir/Ra/Liveness/Ranged.antt =====
-- The events of ra_ev_walk in src/ir68k.c: the candidates that they name.
use mathlib.Core.Path.{subst}
use c68k.Prelude.{
  ℕ, zero, suc, ◌+◌, ◌-◌, ◌<◌, ◌≡◌, refl, Bool, true, false, not, ◌&&◌, Option, none, some, List,
  [], ◌∷◌, ◌++◌, length, get_elem?, leb, ltb, All, inl, inr, Bool-cases, Option-cases, arith,
}
use c68k.Ir.Expr.{
  IrExpr, Args, no_args, arg, nop, num, lea, load, store, binop, unary, logand, logor, cond, comma,
  cast, call, call_ptr, memzero, vdef, vuse,
}
use c68k.Ir.Items.{IrItem}
use c68k.Ir.Cfg.{IrBlock}
use c68k.Ir.Ra.Events.{
  Cands, RaCand, RaEv, EvKind, event, ra_colorable, ra_addr_taken, ra_cand_of_var, ra_cand_of_lea,
  ra_ev_push, def_kind, ev_use, ra_ev_walk, ra_ev_walk_args,
}
use c68k.Ir.Ra.Liveness.{item_events, events_from, block_events}

-- the candidate is one for a register
abbrev pub IsColorable : Cands → RaEv → Type 0
IsColorable ra (event c kind) = ra_colorable ra c ≡ true

All-append {ℓ ℓ'} :
    {A : Type ℓ} (P : A → Type ℓ') (xs ys : List A) → All P xs → All P ys → All P (xs ++ ys)
All-append P [] ys h k = k
All-append P (x ∷ xs) ys (h, hs) k = (h, All-append P xs ys hs k)

get_elem?-lt {ℓ} : {A : Type ℓ} (l : List A) (i : ℕ) (a : A) → get_elem? l i ≡ some a → i < length l
get_elem?-lt [] i a h = cc
get_elem?-lt (x ∷ l) zero a h = omega arith
get_elem?-lt (x ∷ l) (suc i) a h = omega (arith, get_elem?-lt l i a h)

abbrev colorable_of : Cands → Option RaCand → Bool
colorable_of ra none = false
colorable_of ra (some c) = leb 1 c.loopuses && not (ra_addr_taken ra c.var)

pub ra_colorable-lt : (ra : Cands) (i : ℕ) → ra_colorable ra i ≡ true → i < length ra.cand
unfolding ra_colorable
ra_colorable-lt ra i h = elim (Option-cases (get_elem? ra.cand i)) [
  | inl e ↦ absurd (ground (arith, subst (λ (o : Option RaCand). colorable_of ra o ≡ true) e h))
  | inr (c, e) ↦ get_elem?-lt ra.cand i c e
]

ra_cand_of_var-IsColorable :
    (ra : Cands) (v i : ℕ) → ra_cand_of_var ra v ≡ some i → ra_colorable ra i ≡ true
unfolding ra_cand_of_var
ra_cand_of_var-IsColorable ra v i h = ground arith

ra_cand_of_lea-IsColorable :
    (ra : Cands) (e : IrExpr) (i : ℕ) → ra_cand_of_lea ra e ≡ some i → ra_colorable ra i ≡ true
unfolding ra_cand_of_lea
ra_cand_of_lea-IsColorable ra (lea l off name var) i h =
    ground (arith, ra_cand_of_var-IsColorable ra var i)
ra_cand_of_lea-IsColorable ra e i h = cc

ra_ev_push-IsColorable :
    (ra : Cands) (o : Option ℕ) (kind : EvKind) (evs : List RaEv)
    → ((i : ℕ) → o ≡ some i → ra_colorable ra i ≡ true)
    → All (IsColorable ra) evs
    → All (IsColorable ra) (ra_ev_push o kind evs)
unfolding ra_ev_push
ra_ev_push-IsColorable ra none kind evs h k = k
ra_ev_push-IsColorable ra (some i) kind evs h k = elim (Bool-cases (ltb (length evs) 4096)) [
  | inl e ↦
      rw (e, ra_ev_push) (All-append (IsColorable ra) evs (event i kind ∷ []) k (h i refl, tt))
  | inr e ↦ rw (e, ra_ev_push) k
]

-- a slot that is a candidate or is not
choice-IsColorable :
    (ra : Cands) (o : Option ℕ) (kind : EvKind) (other evs : List RaEv)
    → ((i : ℕ) → o ≡ some i → ra_colorable ra i ≡ true)
    → All (IsColorable ra) other
    → All (IsColorable ra) evs
    → All (IsColorable ra) (elim o [ none ↦ other | some i ↦ ra_ev_push (some i) kind evs ])
choice-IsColorable ra none kind other evs h k l = k
choice-IsColorable ra (some i) kind other evs h k l =
    ra_ev_push-IsColorable ra (some i) kind evs h l

mutual
  unfolding ra_ev_walk ra_ev_walk_args

  ra_ev_walk-IsColorable :
      (ra : Cands) (c : Bool) (e : IrExpr) (evs : List RaEv)
      → All (IsColorable ra) evs
      → All (IsColorable ra) (ra_ev_walk ra c e evs)
  ra_ev_walk-IsColorable ra c nop evs h = h
  ra_ev_walk-IsColorable ra c (num val size uns) evs h = h
  ra_ev_walk-IsColorable ra c (lea l off name var) evs h = h
  ra_ev_walk-IsColorable ra c (load a size uns) evs h =
      choice-IsColorable ra (ra_cand_of_lea ra a) ev_use (ra_ev_walk ra c a evs) evs
        (ra_cand_of_lea-IsColorable ra a) (ra_ev_walk-IsColorable ra c a evs h) h
  ra_ev_walk-IsColorable ra c (store a b size uns) evs h =
      choice-IsColorable ra (ra_cand_of_lea ra a) (def_kind c)
        (ra_ev_walk ra c b (ra_ev_walk ra c a evs)) (ra_ev_walk ra c b evs)
        (ra_cand_of_lea-IsColorable ra a)
        (ra_ev_walk-IsColorable ra c b (ra_ev_walk ra c a evs)
          (ra_ev_walk-IsColorable ra c a evs h))
        (ra_ev_walk-IsColorable ra c b evs h)
  ra_ev_walk-IsColorable ra c (binop op a b size uns p) evs h =
      ra_ev_walk-IsColorable ra c b (ra_ev_walk ra c a evs) (ra_ev_walk-IsColorable ra c a evs h)
  ra_ev_walk-IsColorable ra c (unary op a size uns) evs h = ra_ev_walk-IsColorable ra c a evs h
  ra_ev_walk-IsColorable ra c (logand a b) evs h =
      ra_ev_walk-IsColorable ra true b (ra_ev_walk ra c a evs) (ra_ev_walk-IsColorable ra c a evs h)
  ra_ev_walk-IsColorable ra c (logor a b) evs h =
      ra_ev_walk-IsColorable ra true b (ra_ev_walk ra c a evs) (ra_ev_walk-IsColorable ra c a evs h)
  ra_ev_walk-IsColorable ra c (cond a b d size uns) evs h =
      ra_ev_walk-IsColorable ra true d (ra_ev_walk ra true b (ra_ev_walk ra c a evs)) (
        ra_ev_walk-IsColorable ra true b (ra_ev_walk ra c a evs)
          (ra_ev_walk-IsColorable ra c a evs h))
  ra_ev_walk-IsColorable ra c (comma a b size uns) evs h =
      ra_ev_walk-IsColorable ra c b (ra_ev_walk ra c a evs) (ra_ev_walk-IsColorable ra c a evs h)
  ra_ev_walk-IsColorable ra c (cast op a size uns f g) evs h = ra_ev_walk-IsColorable ra c a evs h
  ra_ev_walk-IsColorable ra c (call name args size uns) evs h =
      ra_ev_walk_args-IsColorable ra c args evs h
  ra_ev_walk-IsColorable ra c (call_ptr a args size uns) evs h =
      ra_ev_walk_args-IsColorable ra c args (ra_ev_walk ra c a evs)
        (ra_ev_walk-IsColorable ra c a evs h)
  ra_ev_walk-IsColorable ra c (memzero var off size) evs h =
      ra_ev_push-IsColorable ra (ra_cand_of_var ra var) (def_kind c) evs
        (ra_cand_of_var-IsColorable ra var) h
  ra_ev_walk-IsColorable ra c (vdef vt a size) evs h = ra_ev_walk-IsColorable ra c a evs h
  ra_ev_walk-IsColorable ra c (vuse vt size) evs h = h

  ra_ev_walk_args-IsColorable :
      (ra : Cands) (c : Bool) (es : Args) (evs : List RaEv)
      → All (IsColorable ra) evs
      → All (IsColorable ra) (ra_ev_walk_args ra c es evs)
  ra_ev_walk_args-IsColorable ra c no_args evs h = h
  ra_ev_walk_args-IsColorable ra c (arg e es) evs h =
      ra_ev_walk_args-IsColorable ra c es (ra_ev_walk ra c e evs)
        (ra_ev_walk-IsColorable ra c e evs h)

item_events-IsColorable : (ra : Cands) (it : IrItem) → All (IsColorable ra) (item_events ra it)
unfolding item_events
item_events-IsColorable ra it = option_events ra it.e
  where
    option_events :
        (ra : Cands) (o : Option IrExpr)
        → All (IsColorable ra) (elim o [ none ↦ [] | some e ↦ ra_ev_walk ra false e [] ])
    option_events ra none = tt
    option_events ra (some e) = ra_ev_walk-IsColorable ra false e [] tt

events_from-IsColorable :
    (ra : Cands) (its : List IrItem) (i n : ℕ) → All (IsColorable ra) (events_from ra its i n)
unfolding events_from
events_from-IsColorable ra its i zero = tt
events_from-IsColorable ra its i (suc n) =
    All-append (IsColorable ra) _ (events_from ra its (i + 1) n) (optional ra (get_elem? its i))
      (events_from-IsColorable ra its (i + 1) n)
  where
    optional :
        (ra : Cands) (o : Option IrItem)
        → All (IsColorable ra) (elim o [ none ↦ [] | some it ↦ item_events ra it ])
    optional ra none = tt
    optional ra (some it) = item_events-IsColorable ra it

pub block_events-IsColorable :
    (ra : Cands) (its : List IrItem) (k : IrBlock) → All (IsColorable ra) (block_events ra its k)
unfolding block_events
block_events-IsColorable ra its k = events_from-IsColorable ra its k.start (k.end - k.start)
