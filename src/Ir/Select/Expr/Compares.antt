-- ===== src/Ir/Select/Expr/Compares.antt =====
-- ir_cond of src/ir68k.c on a comparison: one cmp and one branch, by whichever tile.
use c68k.Prelude.{
  ℕ, ◌≡◌, refl, sym, ap, ◌∙◌, Bool, true, false, not, Option, none, some, ◌==◌, same_bool,
  same_bool→eq, ==_iff, if◌then◌else◌, inl, inr, Bool-cases,
}
use mathlib.Core.Path.{subst}
use c68k.Prelude.Word.{IsWord, of_bool}
use c68k.Ir.Expr.{NodeKind, same_op, nd_eq, nd_ne, nd_lt, nd_le}
use c68k.Ir.Meaning.{Machine, IsMachine}
use c68k.Ir.Rel.{Rel, rel_of, rel_negate, rel_swap, bcc_mnem}
use c68k.Ir.Rel.Laws.{holds, IsComparison, rel_negate-rel_swap}
use c68k.Ir.Asm.{Ea, d1, imm, size_l, Label, cmp_l, bcc, push, pop, Emit, emit, ◌>>◌}
use c68k.Ir.Asm.Cpu.{Registers, Cpu, fetch, test, step}
use c68k.Ir.Asm.Cpu.Conditions.{test-bcc_mnem}
use c68k.Ir.Asm.Cpu.Parts.{Reaches, Reaches-seq}
use c68k.Ir.Asm.Cpu.Values.{Reaches-emit}
use c68k.Ir.Select.Nodes.{compare_code, cond_compare, is_comparison}
use c68k.Ir.Select.Expr.Control.{Truth, Tests, Branches, Branches-after, Branches-bcc}
use c68k.Ir.Select.Tiles.Operands.{alu_compare, Delivers}
use c68k.Ir.Select.Tiles.Stacked.{ConstOf, PlaceOf, Reaches-stacked}

pub is_comparison-IsComparison : (op : NodeKind) → is_comparison op ≡ true → IsComparison op
unfolding same_op
is_comparison-IsComparison nd_eq h = tt
is_comparison-IsComparison nd_ne h = tt
is_comparison-IsComparison nd_lt h = tt
is_comparison-IsComparison nd_le h = tt
is_comparison-IsComparison _ h = cc

same_bool-false : (a b : Bool) → same_bool a b ≡ false → a ≡ not b
same_bool-false true true h = cc
same_bool-false true false h = refl
same_bool-false false true h = refl
same_bool-false false false h = cc

-- `eff` in ir_cond
effective :
    (r : Rel) (u when : Bool) (a b : ℕ)
    → holds (if when then r else rel_negate r) u a b ≡ same_bool (holds r u a b) when
effective r u true a b = elim (Bool-cases (holds r u a b)) [ inl e ↦ rw e | inr e ↦ rw e ]
effective r u false a b =
    (rel_negate-rel_swap r u a b).0
    ∙ elim (Bool-cases (holds r u a b)) [ inl e ↦ rw e | inr e ↦ rw e ]

module _ (m : Machine) (regs : Registers m) (laws : IsMachine m) where
  -- Behind the cmp: the codes tell the truth of the comparison by `base`, and the node's value is that truth.
  pub record Compared (Q : m.State → ℕ → m.State → Type 0) (base : Rel) (u : Bool)
      (cpu c : Cpu m.State) : Type 0 where
    pub a : ℕ
    pub b : ℕ
    pub codes : c.compared ≡ some (a, b)
    pub a_word : IsWord a
    pub b_word : IsWord b
    pub value : Q cpu.mem (of_bool (holds base u a b)) c.mem
    pub word : IsWord c.d0
    pub stack : c.stack ≡ cpu.stack

  module _ (Rx Ry Q : m.State → ℕ → m.State → Type 0) (op : NodeKind) (u : Bool) (x y : Emit)
      (hx : Delivers m regs laws Rx x) (hy : Delivers m regs laws Ry y) (compares : IsComparison op)
      (right_first : (s s' s'' : m.State) (a b : ℕ)
        → Ry s b s'
        → Rx s' a s''
        → Q s (m.alu op u a b) s'')
      (left_first : (s s' s'' : m.State) (a b : ℕ)
        → Rx s a s'
        → Ry s' b s''
        → Q s (m.alu op u a b) s'') where
    as_truth :
        (s s' : m.State) (a b : ℕ)
        → Q s (m.alu op u a b) s'
        → Q s (of_bool (holds (rel_of op) u a b)) s'
    as_truth s s' a b q = subst (λ v. Q s v s') (sym (alu_compare m laws op u a b compares)) q

    general :
        (n : ℕ) (cpu : Cpu m.State)
        → IsWord cpu.d0
        → Reaches m regs n
            (do y; emit push; x; emit (pop d1); emit (cmp_l d1))
            cpu
            (Compared Q (rel_of op) u cpu)
    unfolding step
    general n cpu hw = Reaches-stacked m regs laws n cpu hx hy hw λ k c s ry rx h0 h1 st.
        Reaches-emit m regs (cmp_l d1) _ refl (record {
          a = c.d0;
          b = c.d1;
          codes = refl;
          a_word = h0;
          b_word = h1;
          value = as_truth cpu.mem c.mem c.d0 c.d1 (right_first cpu.mem s c.mem c.d0 c.d1 ry rx);
          word = h0;
          stack = st;
        })

    -- the left operand against one that needs no code
    against :
        (n : ℕ) (ea : Ea) (val : m.State → ℕ) (cpu : Cpu m.State)
        → IsWord cpu.d0
        → ((c : Cpu m.State) → fetch m regs size_l ea c ≡ val c.mem)
        → ((s : m.State) → IsWord (val s))
        → ((s : m.State) → Ry s (val s) s)
        → Reaches m regs n (do x; emit (cmp_l ea)) cpu (Compared Q (rel_of op) u cpu)
    unfolding step
    against n ea val cpu hw is_val vw ry = Reaches-seq m regs (hx.run n cpu hw) λ c p.
        Reaches-emit m regs (cmp_l ea) _ refl (record {
          a = c.d0;
          b = val c.mem;
          codes = ap (λ v. some (c.d0, v)) (is_val c);
          a_word = p.1;
          b_word = vw c.mem;
          value =
              as_truth cpu.mem c.mem c.d0 (val c.mem)
                (left_first cpu.mem c.mem c.mem c.d0 (val c.mem) p.0 (ry c.mem));
          word = p.1;
          stack = p.2;
        })

    -- a constant on the left: the operands change places, and so does the relation
    swapped :
        (n c : ℕ) (cpu : Cpu m.State)
        → IsWord cpu.d0
        → IsWord c
        → ((s : m.State) → Rx s c s)
        → Reaches m regs n
            (do y; emit (cmp_l (imm c)))
            cpu
            (Compared Q (rel_swap (rel_of op)) u cpu)
    unfolding step
    swapped n c cpu hw hc rx = Reaches-seq m regs (hy.run n cpu hw) λ c' p.
        Reaches-emit m regs (cmp_l (imm c)) _ refl (record {
          a = c'.d0;
          b = c;
          codes = refl;
          a_word = p.1;
          b_word = hc;
          value =
              subst (λ t. Q cpu.mem (of_bool t) c'.mem)
                (sym (rel_negate-rel_swap (rel_of op) u c'.d0 c).1)
                (as_truth cpu.mem c'.mem c c'.d0
                  (right_first cpu.mem c'.mem c'.mem c c'.d0 p.0 (rx c'.mem)));
          word = p.1;
          stack = p.2;
        })

    compare_code-Compared :
        (ca cb : Option ℕ) (lval : Option (Ea × ℕ))
        → ConstOf m regs laws Rx ca
        → ConstOf m regs laws Ry cb
        → PlaceOf m regs laws Ry lval
        → (n : ℕ) (cpu : Cpu m.State) → IsWord cpu.d0
        → Reaches m regs n
            (compare_code op ca cb lval x y).0
            cpu
            (Compared Q (compare_code op ca cb lval x y).1 u cpu)
    unfolding compare_code
    compare_code-Compared ca (some c) lval ha hb hl n cpu hw =
        against n (imm c) (λ _. c) cpu hw (λ _. refl) (λ _. hb.0) hb.1
    compare_code-Compared (some c) none lval ha hb hl n cpu hw = swapped n c cpu hw ha.0 ha.1
    compare_code-Compared none none none ha hb hl n cpu hw = general n cpu hw
    compare_code-Compared none none (some (ea, size)) ha hb hl n cpu hw =
        elim (Bool-cases (size == 4)) [
          | inl e ↦
              let (val, is_val, word, r) = hl ((==_iff size 4).0 e) in
              rw e (against n ea val cpu hw is_val word r)
          | inr e ↦ rw e (general n cpu hw)
        ]

    truth_word : (t : Bool) → not (of_bool t == 0) ≡ t
    truth_word true = refl
    truth_word false = refl

    -- the branch behind it
    branch :
        (r : Rel) (n : ℕ) (l : Label) (when : Bool) (cpu c : Cpu m.State)
        → Compared Q r u cpu c
        → Branches m regs laws n
            (emit (bcc (bcc_mnem (if when then r else rel_negate r) u) l))
            l
            c
            (Truth m regs laws Q when cpu)
            (Truth m regs laws Q (not when) cpu)
    branch r n l when cpu c h =
        Branches-bcc m regs laws (bcc_mnem (if when then r else rel_negate r) u) l
          (same_bool (holds r u h.a h.b) when)
          (ap (test _) h.codes
            ∙ test-bcc_mnem (if when then r else rel_negate r) u h.a h.b h.a_word h.b_word
            ∙ ap some (effective r u when h.a h.b))
          (λ e. (
            of_bool (holds r u h.a h.b),
            h.value,
            truth_word _ ∙ same_bool→eq (holds r u h.a h.b) when e,
            h.word,
            h.stack,
          ))
          (λ e. (
            of_bool (holds r u h.a h.b),
            h.value,
            truth_word _ ∙ same_bool-false (holds r u h.a h.b) when e,
            h.word,
            h.stack,
          ))

    pub cond_compare-Tests :
        (ca cb : Option ℕ) (lval : Option (Ea × ℕ))
        → ConstOf m regs laws Rx ca
        → ConstOf m regs laws Ry cb
        → PlaceOf m regs laws Ry lval
        → Tests m regs laws Q (cond_compare u (compare_code op ca cb lval x y))
    unfolding cond_compare
    cond_compare-Tests ca cb lval ha hb hl = record {
      run = λ n l when cpu hw below.
          Branches-after m regs laws (compare_code-Compared ca cb lval ha hb hl n cpu hw)
            λ c h. branch (compare_code op ca cb lval x y).1 _ l when cpu c h;
    }
