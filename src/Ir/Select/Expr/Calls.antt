-- ===== src/Ir/Select/Expr/Calls.antt =====
-- Calls in ir_expr of src/ir68k.c (ir_call): the arguments on the stack, from the last to the first, and
-- the stack as it was behind the call.
use c68k.Prelude.{
  ℕ, suc, ◌+◌, ◌*◌, ◌≡◌, refl, sym, ap, ◌∙◌, Bool, false, some, List, [], ◌∷◌, ◌++◌, ◌==◌, ==_iff,
  if◌then◌else◌, arith,
}
use Prim.Native.String.{String}
use mathlib.Core.Path.{subst}
use c68k.Prelude.Word.{IsWord}
use c68k.Ir.Expr.{IrExpr, Args, call, call_ptr}
use c68k.Ir.Meaning.{Machine, IsMachine}
use c68k.Ir.Evaluates.{Evaluates, EvaluatesArgs, of_call, of_call_ptr}
use c68k.Elf.Chars.{drop}
use c68k.Ir.Asm.{
  Ea, d0, a0, ind_a0, sym as symref, size_l, move, push, jsr, adda_sp, Emit, emit, silent, ◌>>◌,
}
use c68k.Ir.Asm.Cpu.{Registers, Cpu, take, address_of, step}
use c68k.Ir.Asm.Cpu.Parts.{Reaches, Reaches-seq, Reaches-weaken, Reaches-silent}
use c68k.Ir.Asm.Cpu.Values.{Reaches-if, Reaches-emit, Reaches-line}
use c68k.Ir.Select.Tiles.Operands.{Delivers}
use c68k.Ir.Select.Nodes.{call_code}

abbrev pub length {ℓ} : {A : Type ℓ} → List A → ℕ
length [] = 0
length (x ∷ xs) = suc (length xs)

take-append : (vs rest : List ℕ) → take (length vs) (vs ++ rest) ≡ vs
take-append [] rest = refl
take-append (v ∷ vs) rest = ap (λ t. v ∷ t) (take-append vs rest)

drop-append : (vs rest : List ℕ) → drop (length vs) (vs ++ rest) ≡ rest
drop-append [] rest = refl
drop-append (v ∷ vs) rest = drop-append vs rest

module _ (m : Machine) (regs : Registers m) (laws : IsMachine m) where
  -- What the code for a call's arguments delivers: their values on the stack, the first on top.
  pub record Pushes (R : m.State → List ℕ → m.State → Type 0) (count : ℕ) (x : Emit) : Type 0 where
    pub run :
        (n : ℕ) (cpu : Cpu m.State)
        → IsWord cpu.d0
        → Reaches m regs n x cpu (λ c.
          (vs : List ℕ) × R cpu.mem vs c.mem
          × (c.stack ≡ vs ++ cpu.stack)
          × (length vs ≡ count)
          × IsWord c.d0)

  pub Pushes-none :
      {R : m.State → List ℕ → m.State → Type 0} → ((s : m.State) → R s [] s) → Pushes R 0 silent
  Pushes-none h = record { run = λ n cpu hw. Reaches-silent m regs ([], h cpu.mem, refl, refl, hw) }

  pub Pushes-arg :
      {R Q : m.State → List ℕ → m.State → Type 0} {S : m.State → ℕ → m.State → Type 0} {k : ℕ}
      {x y : Emit}
      → ((s s' s'' : m.State) (vs : List ℕ) (v : ℕ) → R s vs s' → S s' v s'' → Q s (v ∷ vs) s'')
      → Pushes R k x
      → Delivers m regs laws S y
      → Pushes Q (k + 1) (do x; y; emit push)
  unfolding step
  Pushes-arg to hx hy = record {
    run = λ n cpu hw. Reaches-seq m regs (hx.run n cpu hw) λ c p.
        Reaches-seq m regs (hy.run _ c p.4) λ c' q. Reaches-emit m regs push _ refl (
          c'.d0 ∷ p.0,
          to cpu.mem c.mem c'.mem p.0 c'.d0 p.1 q.0,
          ap (λ st. c'.d0 ∷ st) (q.2 ∙ p.2),
          omega (arith, p.3),
          q.1,
        );
  }

  -- `jsr` behind the arguments, and the stack pointer back up
  returns :
      (n k : ℕ) (ea : Ea) (p : ℕ) (vs rest : List ℕ) (cpu : Cpu m.State)
      → address_of m regs ea cpu ≡ p
      → cpu.stack ≡ vs ++ rest
      → length vs ≡ k
      → Reaches m regs n
          (do emit (jsr ea k); (if k == 0 then silent else emit (adda_sp (k * 4))))
          cpu
          (λ c.
            (c.d0 ≡ (m.invoke p vs cpu.mem).0)
            × (c.mem ≡ (m.invoke p vs cpu.mem).1)
            × (c.stack ≡ rest))
  unfolding step
  returns n k ea p vs rest cpu e st len = Reaches-line m regs (jsr ea k) _ refl (
      Reaches-if m regs (k == 0)
        (λ none. Reaches-silent m regs (
          ap (λ r. r.0) same,
          ap (λ r. r.1) same,
          ap (λ j. drop j cpu.stack) (sym ((==_iff k 0).0 none)) ∙ dropped,
        ))
        λ more. Reaches-emit m regs (adda_sp (k * 4)) _ refl (
          ap (λ r. r.0) same,
          ap (λ r. r.1) same,
          ap (λ j. drop j cpu.stack) (omega arith) ∙ dropped,
        ))
    where
      same : m.invoke (address_of m regs ea cpu) (take k cpu.stack) cpu.mem ≡ m.invoke p vs cpu.mem
      same = rw (e, st, sym len, take-append vs rest) refl

      dropped : drop k cpu.stack ≡ rest
      dropped = rw (st, sym len, drop-append vs rest) refl

  -- `a(...)`, by name
  pub call-Delivers :
      (name : String) (es : Args) (size : ℕ) (uns : Bool) (k : ℕ) (x : Emit)
      → Pushes (EvaluatesArgs m es) k x
      → Delivers m regs laws
          (Evaluates m (call name es size uns))
          (call_code x (symref (some name)) silent k)
  unfolding call_code
  call-Delivers name es size uns k x hx = record {
    run = λ n cpu hw. Reaches-seq m regs (hx.run n cpu hw) λ c p.
        Reaches-seq m regs {P = λ c'. c' ≡ c} (Reaches-silent m regs refl) λ c' same. rw same (
          Reaches-weaken m regs
            (returns _ k (symref (some name)) (m.address false 0 (some name)) p.0 cpu.stack c refl
              p.2 p.3)
            λ c'' q. (
              rw (q.0, q.1) (of_call name size uns p.1),
              subst IsWord (sym q.0) (laws.invoke_word _ p.0 c.mem),
              q.2,
            ));
  }

  -- a call through a pointer, whose value is computed behind the arguments
  pub call_ptr-Delivers :
      (a : IrExpr) (es : Args) (size : ℕ) (uns : Bool) (k : ℕ) (x y : Emit)
      → Pushes (EvaluatesArgs m es) k x
      → Delivers m regs laws (Evaluates m a) y
      → Delivers m regs laws
          (Evaluates m (call_ptr a es size uns))
          (call_code x ind_a0 (do y; emit (move size_l d0 a0)) k)
  unfolding call_code step
  call_ptr-Delivers a es size uns k x y hx hy = record {
    run = λ n cpu hw. Reaches-seq m regs (hx.run n cpu hw) λ c p.
        Reaches-seq m regs {P = λ c'. Evaluates m a c.mem c'.a0 c'.mem × (c'.stack ≡ c.stack)}
          (Reaches-seq m regs (hy.run _ c p.4)
            λ c' q. Reaches-emit m regs (move size_l d0 a0) _ refl (q.0, q.2))
          λ c' q.
            Reaches-weaken m regs (returns _ k ind_a0 c'.a0 p.0 cpu.stack c' refl (q.1 ∙ p.2) p.3)
              λ c'' r. (
                rw (r.0, r.1) (of_call_ptr size uns p.1 q.0),
                subst IsWord (sym r.0) (laws.invoke_word c'.a0 p.0 c'.mem),
                r.2,
              );
  }
