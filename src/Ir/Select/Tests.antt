-- ===== src/Ir/Select/Tests.antt =====
-- A small concrete machine with registers, code for expressions of src/ir68k.c, and the theorems on them.
use c68k.Prelude.{
  ℕ, ◌%◌, ◌^◌, ◌≡◌, refl, Bool, true, false, none, some, List, [], ◌∷◌, ◌++◌, ◌==◌, arith,
  if◌then◌else◌, inr,
}
use c68k.Prelude.Word.{IsWord}
use c68k.Ir.Expr.{
  nd_add, nd_le, nd_not, nd_mul, IrExpr, Args, no_args, arg, num, lea, load, store, binop, unary,
  logand, cond, call,
}
use c68k.Ir.Fold.{narrow}
use c68k.Ir.Rel.{r_le, bcc_mnem}
use c68k.Ir.Rel.Laws.{holds}
use c68k.Ir.Meaning.{Machine, IsMachine}
use c68k.Ir.Words.{narrow-IsWord}
use c68k.Ir.Evaluates.{Evaluates, EvaluatesArgs}
use c68k.Ir.Asm.{named, d0, reg, size_l, move, moveq, ◌>>◌, silent, emit, push}
use c68k.Ir.Asm.Cpu.{Registers, Cpu, test}
use c68k.Ir.Asm.Cpu.Conditions.{test-bcc_mnem}
use c68k.Ir.Asm.Cpu.Layout.{IsLayout}
use c68k.Ir.Asm.Cpu.Parts.{Reaches}
use c68k.Ir.Select.{lea_reg, load_imm}
use c68k.Ir.Select.Expr.Built.{IsBuilt, IsBuiltArgs}
use c68k.Ir.Select.Nodes.{load_value}
use c68k.Ir.Select.Expr.{ir_expr, ir_cond, ir_args, count_args}
use c68k.Ir.Asm.{Label}
use c68k.Ir.Asm.Fresh.{Fresh}
use c68k.Ir.Select.Expr.Fresh.{ir_expr-ir_cond-Fresh}
use c68k.Ir.Select.Expr.Calls.{length}
use c68k.Ir.Select.Expr.Control.{Branches, Truth}
use c68k.Ir.Select.Expr.Correct.{ir_expr-Evaluates, ir_cond-Branches, ir_args-EvaluatesArgs}
use c68k.Ir.Items.{IrItem, ii_cbr}
use c68k.Ir.Select.Expr.{ir_emit_item}
use c68k.Ir.Select.Expr.Emitted.{ItemEnds, ir_emit_item-ItemEnds}
use c68k.Ir.Asm.Cpu.{at, exec}
use c68k.Ir.Tests.Machine32.{machine32, machine32-IsMachine}

-- one word, which every address and every register names
abbrev machine : Machine
machine = record machine32 {
  read = λ size uns p s. narrow size uns (s % 2 ^ 32);
  clear = λ off size s. if size == 0 then s else 0;
  keep = λ t v s. v;
}

abbrev registers : Registers machine
registers = record { get = λ r s. s % 2 ^ 32; set = λ r v s. v }

machine-IsMachine : IsMachine machine
machine-IsMachine =
    let laws = machine32-IsMachine in
    record {
      junk_word = laws.junk_word;
      address_word = laws.address_word;
      read_word = λ size uns p s. narrow-IsWord size uns (s % 2 ^ 32) (omega arith);
      invoke_word = laws.invoke_word;
      kept_word = laws.kept_word;
      alu_word = laws.alu_word;
      alu_add = laws.alu_add;
      alu_sub = laws.alu_sub;
      alu_mul = laws.alu_mul;
      alu_and = laws.alu_and;
      alu_or = laws.alu_or;
      alu_xor = laws.alu_xor;
      alu_udiv = laws.alu_udiv;
      alu_umod = laws.alu_umod;
      alu_sdiv = laws.alu_sdiv;
      alu_smod = laws.alu_smod;
      alu_shl = laws.alu_shl;
      alu_shr = laws.alu_shr;
      alu_sar = laws.alu_sar;
      alu_eq = laws.alu_eq;
      alu_ne = laws.alu_ne;
      alu_ult = laws.alu_ult;
      alu_slt = laws.alu_slt;
      alu_ule = laws.alu_ule;
      alu_sle = laws.alu_sle;
    }

-- variable 0 is in d2, any other in the frame
abbrev var_reg : ℕ → ℕ
var_reg v = if v == 0 then 2 else 0

abbrev vt_reg : ℕ → ℕ
vt_reg t = 3

abbrev offset : ℕ → ℕ
offset v = 8

machine-IsLayout : IsLayout machine registers var_reg vt_reg offset
unfolding narrow
machine-IsLayout = record {
  shl_any = λ u a n. refl;
  read_long = λ u p s. refl;
  byte_lt = λ p s. omega arith;
  half_lt = λ p s. omega arith;
  read_byte = λ p s. ground arith;
  read_half = λ p s. ground arith;
  clear_none = λ off s. refl;
  clear_split = λ off j k s. ground arith;
  get_word = λ r s. omega arith;
  read_var = λ v u s nz. refl;
  write_var = λ v x s nz. refl;
  clear_var = λ v s nz. refl;
  keep_temp = λ t x s nz. refl;
  kept_temp = λ t s nz. refl;
}

abbrev in_d2 : IrExpr
in_d2 = load (lea true 8 none 0) 4 false

abbrev in_frame : IrExpr
in_frame = load (lea true 8 none 1) 4 false

-- `f(1, x)`
abbrev two_args : Args
two_args = arg (num 1 4 false) (arg in_d2 no_args)

-- `x <= y && !x`
abbrev condition : IrExpr
condition = logand (binop nd_le in_d2 in_frame 4 false false) (unary nd_not in_d2 4 false)

-- `(x <= y && !x) ? (y = x * 6 + 1) : f(1, x)`
abbrev choice : IrExpr
choice =
    cond condition
      (store (lea true 8 none 1)
        (binop nd_add (binop nd_mul in_d2 (num 6 4 false) 4 false false) (num 1 4 false) 4 false
          false)
        4 false)
      (call "f" two_args 4 false) 4 false

abbrev start : Cpu ℕ
start = record { d0 = 0; d1 = 0; a0 = 0; a1 = 0; compared = none; stack = []; mem = 7 }

argument_code :
    (ir_args 1 var_reg vt_reg two_args 0).0 ≡ move size_l (reg 2) d0 ∷ push ∷ moveq 1 d0 ∷ push ∷ []
unfolding ir_args ◌>>◌ silent load_value lea_reg emit load_imm
argument_code = refl

abbrev Built : IrExpr → Type 0
Built = IsBuilt var_reg vt_reg offset

in_d2-Built : Built in_d2
unfolding IsBuilt
in_d2-Built = ((refl, refl), inr (inr refl), λ nz. refl)

in_frame-Built : Built in_frame
unfolding IsBuilt
in_frame-Built = ((refl, refl), inr (inr refl), λ nz. refl)

condition-Built : Built condition
unfolding IsBuilt
condition-Built = ((in_d2-Built, in_frame-Built, tt), in_d2-Built)

two_args-Built : IsBuiltArgs var_reg vt_reg offset two_args
unfolding IsBuilt
two_args-Built = (tt, (in_d2-Built, tt))

choice-Built : Built choice
unfolding IsBuilt
choice-Built = (
  condition-Built,
  ((refl, refl), ((in_d2-Built, tt, tt), tt, tt), inr (inr refl), λ nz. refl),
  two_args-Built,
)

-- `cmp` and `bhi` on an unsigned and on a signed comparison
code_test :
    (test "bls" (some (3, 0xffffffff)) ≡ some true)
    × (test "ble" (some (3, 0xffffffff)) ≡ some false)
unfolding test
code_test = (refl, refl)

test-bcc_mnem_example :
    test (bcc_mnem r_le false) (some (3, 0xffffffff)) ≡ some (holds r_le false 3 0xffffffff)
test-bcc_mnem_example = test-bcc_mnem r_le false 3 0xffffffff (omega arith) (omega arith)

ir_expr-ir_cond-Fresh_example :
    Fresh (ir_expr 1 var_reg vt_reg choice)
    × ((l : Label) (when : Bool) → Fresh (ir_cond 1 var_reg vt_reg choice l when))
ir_expr-ir_cond-Fresh_example = ir_expr-ir_cond-Fresh 1 var_reg vt_reg choice

ir_expr-Evaluates_example :
    Reaches machine registers 0
      (ir_expr 1 var_reg vt_reg choice)
      start
      (λ c. Evaluates machine choice start.mem c.d0 c.mem × IsWord c.d0 × (c.stack ≡ start.stack))
ir_expr-Evaluates_example =
    ir_expr-Evaluates machine registers machine-IsMachine var_reg vt_reg offset machine-IsLayout 1
      (omega arith) choice choice-Built 0 start (omega arith)

ir_cond-Branches_example :
    Branches machine registers machine-IsMachine 0
      (ir_cond 1 var_reg vt_reg condition (named "loop") false)
      (named "loop")
      start
      (Truth machine registers machine-IsMachine (Evaluates machine condition) false start)
      (Truth machine registers machine-IsMachine (Evaluates machine condition) true start)
ir_cond-Branches_example =
    ir_cond-Branches machine registers machine-IsMachine var_reg vt_reg offset machine-IsLayout 1
      (omega arith) condition condition-Built 0 (named "loop") false start (omega arith) tt

ir_args-EvaluatesArgs_example :
    Reaches machine registers 0 (ir_args 1 var_reg vt_reg two_args) start (λ c.
      (vs : List ℕ) × EvaluatesArgs machine two_args start.mem vs c.mem
      × (c.stack ≡ vs ++ start.stack)
      × (length vs ≡ count_args 1 var_reg vt_reg two_args)
      × IsWord c.d0)
ir_args-EvaluatesArgs_example =
    ir_args-EvaluatesArgs machine registers machine-IsMachine var_reg vt_reg offset machine-IsLayout
      1 (omega arith) two_args two_args-Built 0 start (omega arith)

abbrev branch_item : IrItem
branch_item = record { kind = ii_cbr; e = some condition; label = some "loop"; when = true }

ir_emit_item-ItemEnds_example :
    ItemEnds machine registers machine-IsMachine (named "L_return_f") branch_item start (
      exec machine registers
        (ir_emit_item 1 var_reg vt_reg (named "L_return_f") branch_item 0).0
        (at start))
ir_emit_item-ItemEnds_example =
    ir_emit_item-ItemEnds machine registers machine-IsMachine var_reg vt_reg offset machine-IsLayout
      1 (omega arith) 0 (named "L_return_f") start (omega arith) branch_item condition-Built
