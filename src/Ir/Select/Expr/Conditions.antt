-- ===== src/Ir/Select/Expr/Conditions.antt =====
-- ir_cond of src/ir68k.c on `&&`, `||` and comparisons: a branch to the label where the truth is `when`.
use c68k.Prelude.{
  ℕ, ◌+◌, ◌<◌, ◌≡◌, refl, ap, ◌∙◌, Bool, true, false, not, ◌==◌, ==_iff, arith, if◌then◌else◌,
}
use c68k.Prelude.Word.{IsWord, of_bool}
use c68k.Ir.Expr.{IrExpr, logand, logor}
use c68k.Ir.Meaning.{Machine, IsMachine}
use c68k.Ir.Evaluates.{Evaluates, logand_left, logand_both, logor_left, logor_both}
use c68k.Ir.Asm.{
  l_condskip, Label, numbered, named, same_label, def_label, Emit, emit, with_uid, ◌>>◌,
}
use c68k.Ir.Asm.Fresh.{Fresh, Below, Below-mono, same_label_self}
use c68k.Ir.Asm.Cpu.{Registers, Cpu, Mode, at, seek, step, line, exec}
use c68k.Ir.Asm.Cpu.Parts.{exec-seq, Fresh-seek}
use c68k.Ir.Select.Nodes.{cond_logand, cond_logor}
use c68k.Ir.Select.Expr.Control.{Branches, taken, fell, Truth, Tests, flip, flip', ne_zero}

module _ (m : Machine) (regs : Registers m) (laws : IsMachine m) where
  -- a label at the end, for a branch to it, for one to a label of the counter's past, and for none
  label_here :
      (n k : ℕ) (c : Cpu m.State)
      → exec m regs (emit (def_label (numbered l_condskip k)) n).0 (seek (numbered l_condskip k) c)
        ≡ at c
  unfolding emit exec line
  label_here n k c =
      ap (λ b. if b then at c else seek (numbered l_condskip k) c) (same_label_self l_condskip k)

  label_past :
      (n k : ℕ) (l : Label) (c : Cpu m.State)
      → Below l k
      → exec m regs (emit (def_label (numbered l_condskip k)) n).0 (seek l c) ≡ seek l c
  unfolding emit exec line same_label
  label_past n k (numbered f j) c h =
      let other : same_label (numbered l_condskip k) (numbered f j) ≡ false = ground arith in
      ap (λ b. if b then at c else seek (numbered f j) c) other
  label_past n k (named s) c h = refl

  label_run :
      (n k : ℕ) (c : Cpu m.State)
      → exec m regs (emit (def_label (numbered l_condskip k)) n).0 (at c) ≡ at c
  unfolding emit exec line step
  label_run n k c = refl

  module _ (Ra Rb : m.State → ℕ → m.State → Type 0) {x y : Label → Bool → Emit}
      (hx : Tests m regs laws Ra x) (hy : Tests m regs laws Rb y)
      (fx : (l : Label) (w : Bool) → Fresh (x l w))
      (fy : (l : Label) (w : Bool) → Fresh (y l w)) where
    abbrev skip_code : Bool → Bool → Label → Emit
    skip_code w w' l =
        with_uid
          λ k. do x (numbered l_condskip k) w; y l w'; emit (def_label (numbered l_condskip k))

    module _ (T F : Cpu m.State → Type 0) (cpu : Cpu m.State) (hw : IsWord cpu.d0) where
      -- both conditions branch to the label, on the truth `w`
      both :
          (w : Bool) (n : ℕ) (l : Label)
          → Below l n
          → ((c : Cpu m.State) → Truth m regs laws Ra w cpu c → T c)
          → ((c c' : Cpu m.State)
              → Truth m regs laws Ra (not w) cpu c
              → Truth m regs laws Rb w c c'
              → T c')
          → ((c c' : Cpu m.State)
              → Truth m regs laws Ra (not w) cpu c
              → Truth m regs laws Rb (not w) c c'
              → F c')
          → Branches m regs laws n (do x l w; y l w) l cpu T F
      both w n l below short long out = first (hx.run n l w cpu hw below)
        where
          n' : ℕ
          n' = (x l w n).1

          start :
              (md : Mode m.State)
              → exec m regs (x l w n).0 (at cpu) ≡ md
              → exec m regs ((do x l w; y l w) n).0 (at cpu) ≡ exec m regs (y l w n').0 md
          start md e = exec-seq m regs n (x l w) (y l w) (at cpu) ∙ ap (exec m regs (y l w n').0) e

          up : Below l n'
          up = Below-mono l n n' ((fx l w).grows n) below

          second :
              (c : Cpu m.State)
              → exec m regs (x l w n).0 (at cpu) ≡ at c
              → Truth m regs laws Ra (not w) cpu c
              → Branches m regs laws n'
                  (y l w)
                  l
                  c
                  (Truth m regs laws Rb w c)
                  (Truth m regs laws Rb (not w) c)
              → Branches m regs laws n (do x l w; y l w) l cpu T F
          second c e p (taken c' e' q) = taken c' (start (at c) e ∙ e') (long c c' p q)
          second c e p (fell c' e' q) = fell c' (start (at c) e ∙ e') (out c c' p q)

          first :
              Branches m regs laws n
                (x l w)
                l
                cpu
                (Truth m regs laws Ra w cpu)
                (Truth m regs laws Ra (not w) cpu)
              → Branches m regs laws n (do x l w; y l w) l cpu T F
          first (taken c e p) =
              taken c (start (seek l c) e ∙ Fresh-seek m regs n' l c (fy l w) up) (short c p)
          first (fell c e p) = second c e p (hy.run n' l w c p.3 up)

      -- The first condition branches past the second on the truth `w`, to the label behind it.
      skip :
          (w w' : Bool) (n : ℕ) (l : Label)
          → Below l n
          → ((c : Cpu m.State) → Truth m regs laws Ra w cpu c → F c)
          → ((c c' : Cpu m.State)
              → Truth m regs laws Ra (not w) cpu c
              → Truth m regs laws Rb w' c c'
              → T c')
          → ((c c' : Cpu m.State)
              → Truth m regs laws Ra (not w) cpu c
              → Truth m regs laws Rb (not w') c c'
              → F c')
          → Branches m regs laws n (skip_code w w' l) l cpu T F
      unfolding with_uid
      skip w w' n l below short long out = first (hx.run (suc_n) s w cpu hw (omega arith))
        where
          suc_n : ℕ
          suc_n = n + 1

          s : Label
          s = numbered l_condskip n

          n' : ℕ
          n' = (x s w suc_n).1

          tail : Emit
          tail = do y l w'; emit (def_label s)

          all : Emit
          all = do x s w; tail

          start :
              (md : Mode m.State)
              → exec m regs (x s w suc_n).0 (at cpu) ≡ md
              → exec m regs (all suc_n).0 (at cpu) ≡ exec m regs (tail n').0 md
          start md e = exec-seq m regs suc_n (x s w) tail (at cpu) ∙ ap (exec m regs (tail n').0) e

          rest :
              (md md' : Mode m.State)
              → exec m regs (y l w' n').0 md ≡ md'
              → exec m regs (tail n').0 md ≡ exec m regs (emit (def_label s) (y l w' n').1).0 md'
          rest md md' e =
              exec-seq m regs n' (y l w') (emit (def_label s)) md
              ∙ ap (exec m regs (emit (def_label s) (y l w' n').1).0) e

          lo : n < n'
          lo = omega (arith, (fx s w).grows suc_n)

          up : Below l n'
          up = Below-mono l n n' (omega (arith, lo)) below

          second :
              (c : Cpu m.State)
              → exec m regs (x s w suc_n).0 (at cpu) ≡ at c
              → Truth m regs laws Ra (not w) cpu c
              → Branches m regs laws n'
                  (y l w')
                  l
                  c
                  (Truth m regs laws Rb w' c)
                  (Truth m regs laws Rb (not w') c)
              → Branches m regs laws n (skip_code w w' l) l cpu T F
          second c e p (taken c' e' q) =
              taken c' (start (at c) e ∙ rest (at c) (seek l c') e' ∙ label_past _ n l c' below)
                (long c c' p q)
          second c e p (fell c' e' q) =
              fell c' (start (at c) e ∙ rest (at c) (at c') e' ∙ label_run _ n c') (out c c' p q)

          first :
              Branches m regs laws suc_n
                (x s w)
                s
                cpu
                (Truth m regs laws Ra w cpu)
                (Truth m regs laws Ra (not w) cpu)
              → Branches m regs laws n (skip_code w w' l) l cpu T F
          first (taken c e p) =
              fell c
                (start (seek s c) e
                  ∙ rest (seek s c) (seek s c) (Fresh-seek m regs n' s c (fy l w') lo)
                  ∙ label_here _ n c)
                (short c p)
          first (fell c e p) = second c e p (hy.run n' l w' c p.3 up)

  -- a Boolean as a word, and back
  word_truth : (t : Bool) {b : Bool} → t ≡ b → not (of_bool t == 0) ≡ b
  word_truth true h = h
  word_truth false h = h

  module _ {a b : IrExpr} {x y : Label → Bool → Emit} (hx : Tests m regs laws (Evaluates m a) x)
      (hy : Tests m regs laws (Evaluates m b) y) (fx : (l : Label) (w : Bool) → Fresh (x l w))
      (fy : (l : Label) (w : Bool) → Fresh (y l w)) where
    and_short :
        (cpu c : Cpu m.State)
        → Truth m regs laws (Evaluates m a) false cpu c
        → Truth m regs laws (Evaluates m (logand a b)) false cpu c
    and_short cpu c p = (0, logand_left p.1 ((==_iff p.0 0).0 (flip' p.2)), refl, p.3, p.4)

    and_long :
        (w : Bool) (cpu c c' : Cpu m.State)
        → Truth m regs laws (Evaluates m a) true cpu c
        → Truth m regs laws (Evaluates m b) w c c'
        → Truth m regs laws (Evaluates m (logand a b)) w cpu c'
    and_long w cpu c c' p q = (
      of_bool (not (q.0 == 0)),
      logand_both p.1 (ne_zero p.0 (flip p.2)) q.1,
      word_truth (not (q.0 == 0)) q.2,
      q.3,
      q.4 ∙ p.4,
    )

    or_short :
        (cpu c : Cpu m.State)
        → Truth m regs laws (Evaluates m a) true cpu c
        → Truth m regs laws (Evaluates m (logor a b)) true cpu c
    or_short cpu c p = (1, logor_left p.1 (ne_zero p.0 (flip p.2)), refl, p.3, p.4)

    or_long :
        (w : Bool) (cpu c c' : Cpu m.State)
        → Truth m regs laws (Evaluates m a) false cpu c
        → Truth m regs laws (Evaluates m b) w c c'
        → Truth m regs laws (Evaluates m (logor a b)) w cpu c'
    or_long w cpu c c' p q = (
      of_bool (not (q.0 == 0)),
      logor_both p.1 ((==_iff p.0 0).0 (flip' p.2)) q.1,
      word_truth (not (q.0 == 0)) q.2,
      q.3,
      q.4 ∙ p.4,
    )

    pub cond_logand-Tests : Tests m regs laws (Evaluates m (logand a b)) (cond_logand x y)
    unfolding cond_logand
    cond_logand-Tests = record {
      run = λ n l when cpu hw below.
          elim when
            as (λ w.
              Branches m regs laws n (cond_logand x y l w) l cpu
                (Truth m regs laws (Evaluates m (logand a b)) w cpu)
                (Truth m regs laws (Evaluates m (logand a b)) (not w) cpu)) [
                  | true ↦
                      skip (Evaluates m a) (Evaluates m b) hx hy fx fy _ _ cpu hw false true n l
                        below (and_short cpu) (and_long true cpu) (and_long false cpu)
                  | false ↦
                      both (Evaluates m a) (Evaluates m b) hx hy fx fy _ _ cpu hw false n l below
                        (and_short cpu) (and_long false cpu) (and_long true cpu)
                ];
    }

    pub cond_logor-Tests : Tests m regs laws (Evaluates m (logor a b)) (cond_logor x y)
    unfolding cond_logor
    cond_logor-Tests = record {
      run = λ n l when cpu hw below.
          elim when
            as (λ w.
              Branches m regs laws n (cond_logor x y l w) l cpu
                (Truth m regs laws (Evaluates m (logor a b)) w cpu)
                (Truth m regs laws (Evaluates m (logor a b)) (not w) cpu)) [
                  | true ↦
                      both (Evaluates m a) (Evaluates m b) hx hy fx fy _ _ cpu hw true n l below
                        (or_short cpu) (or_long true cpu) (or_long false cpu)
                  | false ↦
                      skip (Evaluates m a) (Evaluates m b) hx hy fx fy _ _ cpu hw true false n l
                        below (or_short cpu) (or_long false cpu) (or_long true cpu)
                ];
    }
