-- ===== src/Ir/Cfg/Preds.antt =====
-- The predecessor lists of ir_build_cfg in src/ir68k.c.
use mathlib.Core.Path.{subst}
use c68k.Prelude.{
  ℕ, zero, suc, ◌+◌, ◌≡◌, ◌↔◌, true, some, List, [], ◌∷◌, get_elem?, inl, inr, arith, ap, sym, ◌∙◌,
}
use c68k.Ir.Items.{IrItem}
use c68k.Ir.Cfg.{
  IrBlock, leaders, blocks_from, with_succ, with_pred, pred_edges, pred_of, ir_build_cfg, succ_at,
}
use c68k.Ir.Cfg.Edges.{succ_at-with_pred}
use c68k.Ir.Cfg.Visit.{In, In-append, append-In, In-append_cases}

In-pred_edges : (x t b : ℕ) (ss : List ℕ) → In x (pred_edges t b ss) → (x ≡ b) × In t ss
unfolding pred_edges
In-pred_edges x t b [] h = absurd h
In-pred_edges x t b (s ∷ ss) h = ground (arith, In-pred_edges x t b ss)

pred_edges-In : (t b : ℕ) (ss : List ℕ) → In t ss → In b (pred_edges t b ss)
unfolding pred_edges
pred_edges-In t b [] h = absurd h
pred_edges-In t b (s ∷ ss) h = ground (arith, pred_edges-In t b ss)

In-pred_of :
    (x t b : ℕ) (ks : List IrBlock)
    → In x (pred_of t b ks)
    → (d : ℕ) × (x ≡ b + d) × In t (succ_at ks d)
unfolding pred_of succ_at
In-pred_of x t b [] h = absurd h
In-pred_of x t b (k ∷ ks) h =
    elim (In-append_cases x (pred_edges t b k.succ) (pred_of t (b + 1) ks) h) [
      | inl here ↦
          let (same, edge) = In-pred_edges x t b k.succ here in (0, omega (arith, same), edge)
      | inr later ↦
          let (d, same, edge) = In-pred_of x t (b + 1) ks later in
          (suc d, omega (arith, same), edge)
    ]

pred_of-In : (t b d : ℕ) (ks : List IrBlock) → In t (succ_at ks d) → In (b + d) (pred_of t b ks)
unfolding pred_of succ_at
pred_of-In t b d [] h = absurd h
pred_of-In t b zero (k ∷ ks) h =
    append-In (b + 0) (pred_edges t b k.succ) (pred_of t (b + 1) ks)
      (subst (λ (x : ℕ). In x (pred_edges t b k.succ)) (omega arith) (pred_edges-In t b k.succ h))
pred_of-In t b (suc d) (k ∷ ks) h =
    In-append (b + suc d) (pred_edges t b k.succ) (pred_of t (b + 1) ks)
      (subst (λ (x : ℕ). In x (pred_of t (b + 1) ks)) (omega arith) (pred_of-In t (b + 1) d ks h))

get-with_pred :
    (blocks : List IrBlock) (b t : ℕ) (ks : List IrBlock) (k : IrBlock)
    → get_elem? (with_pred blocks b ks) t ≡ some k
    → k.pred ≡ pred_of (b + t) 0 blocks
unfolding with_pred
get-with_pred blocks b t [] k e = cc
get-with_pred blocks b zero (x ∷ ks) k e =
    let same : record x { pred = pred_of b 0 blocks } ≡ k = cc in
    ap (λ (y : IrBlock). y.pred) (sym same) ∙ ap (λ (c : ℕ). pred_of c 0 blocks) (omega arith)
get-with_pred blocks b (suc t) (x ∷ ks) k e =
    get-with_pred blocks (b + 1) t ks k e ∙ ap (λ (c : ℕ). pred_of c 0 blocks) (omega arith)

-- A block is in the predecessor list of block `t` exactly when `t` is among its successors.
pub ir_build_cfg-pred :
    (its : List IrItem) (t b : ℕ) (k : IrBlock)
    → get_elem? (ir_build_cfg its) t ≡ some k
    → In b k.pred ↔ In t (succ_at (ir_build_cfg its) b)
unfolding ir_build_cfg
ir_build_cfg-pred its t b k e =
    let blocks = blocks_from 0 (leaders true its) in
    let linked = with_succ its blocks 0 blocks in
    let preds : k.pred ≡ pred_of t 0 linked =
      get-with_pred linked 0 t linked k e ∙ ap (λ (c : ℕ). pred_of c 0 linked) (omega arith) in
    let edges = succ_at-with_pred linked 0 b linked in
    (
      λ h.
          let (d, same, edge) =
            In-pred_of b t 0 linked (subst (λ (ps : List ℕ). In b ps) preds h) in
          let at : d ≡ b = omega (arith, same) in
          subst (λ (ss : List ℕ). In t ss) (sym edges)
            (subst (λ (c : ℕ). In t (succ_at linked c)) at edge),
      λ h.
          let edge = pred_of-In t 0 b linked (subst (λ (ss : List ℕ). In t ss) edges h) in
          let zero_off : 0 + b ≡ b = omega arith in
          subst (λ (ps : List ℕ). In b ps) (sym preds)
            (subst (λ (c : ℕ). In c (pred_of t 0 linked)) zero_off edge),
    )
