-- ===== src/Ir/Asm/Cpu/Layout.antt =====
-- What the code of src/ir68k.c relies on of the processor's memory and registers, beyond `IsMachine`: bytes and
-- halves are extended as `move` and `ext` do, clearing goes piece by piece, and a variable or a value
-- temporary with a register is that register. Variables are in 4-byte slots at `offset`, as in ra_add_cand.
use c68k.Prelude.{ℕ, ◌+◌, ◌%◌, ◌<◌, ◌≡◌, ◌≢◌, Bool, true, false, none}
use c68k.Prelude.Word.{IsWord}
use c68k.Ir.Expr.{nd_shl}
use c68k.Ir.Fold.{narrow}
use c68k.Ir.Meaning.{Machine}
use c68k.Ir.Asm.Cpu.{Registers}

pub record IsLayout (m : Machine) (regs : Registers m) (var_reg vt_reg offset : ℕ → ℕ)
    : Type 0 where
  -- a shift to the left has no signedness
  pub shl_any : (u : Bool) (a n : ℕ) → m.alu nd_shl u a n ≡ m.alu nd_shl false a n
  pub read_long : (u : Bool) (p : ℕ) (s : m.State) → m.read 4 u p s ≡ m.read 4 true p s
  pub byte_lt : (p : ℕ) (s : m.State) → m.read 1 true p s < 256
  pub half_lt : (p : ℕ) (s : m.State) → m.read 2 true p s < 65536
  pub read_byte : (p : ℕ) (s : m.State) → m.read 1 false p s ≡ narrow 1 false (m.read 1 true p s)
  pub read_half : (p : ℕ) (s : m.State) → m.read 2 false p s ≡ narrow 2 false (m.read 2 true p s)
  pub clear_none : (off : ℕ) (s : m.State) → m.clear off 0 s ≡ s
  pub clear_split :
      (off j k : ℕ) (s : m.State)
      → m.clear ((off + j) % 0x100000000) k (m.clear off j s) ≡ m.clear off (j + k) s
  pub get_word : (r : ℕ) (s : m.State) → IsWord (regs.get r s)
  pub read_var :
      (v : ℕ) (u : Bool) (s : m.State)
      → var_reg v ≢ 0
      → m.read 4 u (m.address true (offset v) none) s ≡ regs.get (var_reg v) s
  pub write_var :
      (v x : ℕ) (s : m.State)
      → var_reg v ≢ 0
      → m.write 4 (m.address true (offset v) none) x s ≡ regs.set (var_reg v) x s
  pub clear_var :
      (v : ℕ) (s : m.State) → var_reg v ≢ 0 → m.clear (offset v) 4 s ≡ regs.set (var_reg v) 0 s
  pub keep_temp : (t x : ℕ) (s : m.State) → vt_reg t ≢ 0 → m.keep t x s ≡ regs.set (vt_reg t) x s
  pub kept_temp : (t : ℕ) (s : m.State) → vt_reg t ≢ 0 → m.kept t s ≡ regs.get (vt_reg t) s
