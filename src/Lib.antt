-- ===== src/Lib.antt =====
-- The C compiler c68k for the Motorola 68000: its optimiser on the IR, its instruction selection from
-- the IR, its register allocator, its hash map and Unicode routines, the byte buffers, symbol table,
-- instruction encoder and fixups of its ELF emitter, and qsort and bsearch of its library.
--
-- The driver (src/main.c) runs the tokenizer, preprocessor and parser, whose typed tree goes to the
-- single-pass generator (src/codegen68k.c) or, on request from -O2 on, through the IR back end
-- (src/ir68k.c): the builder makes a list of IrItem whose expressions are IrExpr trees, ir_optimize
-- rewrites it at -O3, and ir_emit_item emits it. The text goes to an assembler, or src/emit_elf.c
-- encodes it into an object file in byte buffers. src/unicode.c serves the tokenizer and the error
-- messages. src/hashmap.c keeps the macros and the scopes. libc is linked into the programs compiled.
--
-- Ctype             TypeKind of src/chibicc.h
-- Ir/Expr           IeKind and IrExpr of src/ir68k.c, one constructor for each kind, and NodeKind
-- Ir/Fold           OP6: ie_num, ie_pure, ie_trivial, ie_equal, fold_binop, ie_binop_identity, ie_fold
-- Ir/Meaning        what a tree computes: the order of ir_expr, over the record Machine
-- Ir/Items          IrItem and the passes op6_fold_exprs, op6_fold_branches, op6_dce_dead_eval
-- Ir/Items/Run      what a list of items does when it runs
-- Ir/Cfg            block_of_label, ir_build_cfg, op6_dce_unreachable, ir_optimize
-- Ir/Rel            rel_of, rel_negate, rel_swap, bcc_mnem, is_commutative
-- Ir/Evaluates      the values that a tree may have, in either order of a binary operator's operands
-- Ir/Asm            EMIT and cg_uid, with the lines that src/ir68k.c emits as data
-- Ir/Asm/Cpu        those lines on the 68000
-- Ir/Select         is_pow2_32, ctz32, add_imm, shift_by, ie_const, ie_simple_lval, load_imm and the like
-- Ir/Select/Tiles   ir_const_binop, ir_const_binop_left, ir_mem_binop, ir_binop
-- Ir/Select/Nodes   ir_indexed_load, ir_call, ir_memzero, and the cases of ir_expr and ir_cond
-- Ir/Select/Expr    ir_expr, ir_cond, ir_emit_item
-- Ir/Ra/Set         RaSet: sets of candidates in eight words
-- Ir/Ra/Events      RaCand, ra_cand_index, ra_addr_taken, ra_colorable, ra_ev_push, ra_ev_walk
-- Ir/Ra/Liveness    ra_conf_add and ra_liveness: use and def, live-in and live-out, interference
-- Ir/Ra/Color       ra_interfere, ra_color_global, and the OP5 assignment of ir_color_regs
-- Unicode           src/unicode.c, the whole file; its tables are Unicode/Ranges
-- Elf/Buf           buf_need, b8, b16, b32, buf_align, uleb, sleb, add_str, patch32 of src/emit_elf.c
-- Elf/Symbols       sym_find, sym_intern, sym_define, strip_extmark
-- Elf/Chars         trim, parse_num and the C string calls
-- Elf/Operand       EA, reg_num, parse_ea
-- Elf/Encode        Rel (here Reloc), Fix, add_reloc, add_fixup, emit_ext, enc_*, cond_code, split_size
-- Elf/Encode/Insn   encode_insn, with Elf/Encode/Control a definition for each group of mnemonics
-- Elf/Encode/Fixups resolve_fixups
-- Hashmap           src/hashmap.c: fnv_hash, get_entry, get_or_insert_entry, rehash, put, get and delete
-- Libc/Search       bsearch of libc/core/bsearch.c
-- Libc/Sort         qsort of libc/core/qsort.c
--
-- A C integer is its bit pattern on the natural numbers, with the wrap-around written out; a signed
-- comparison or division reads the pattern in two's complement (Prelude/Word). The 68000, its run-time
-- helpers in assembly, memory and the functions called are parameters: the record Machine, and the
-- laws IsMachine that the folder relies on. Ir/Tests/Machine32 is an instance of them.
--
-- The processor is not code of the repository: Ir/Asm/Cpu says of each line emitted what its manual says,
-- with the operands of the last comparison in place of the condition codes, and the mnemonics of
-- conditions decoded by cond_code of src/emit_elf.c. What memory and the registers of variables are is a
-- parameter, with the laws IsLayout. A label is data, a number of cg_uid in its format or a name; a
-- branch goes forward to its label, since only the loop of ir_memzero goes back, and `line` stops there.
-- A jsr carries the number of words that the callee takes from the stack. An address register and a
-- data register are not told apart (`movea` is `move`), and a promoted variable is one of four bytes.
--
-- Loops are structural, or have fuel: uleb and sleb ten rounds (seven bits each of at most 64),
-- buf_align `a` rounds (fewer than `a` bytes are lacking), display_width `len` rounds (a character
-- takes a byte at least), the search of op6_dce_unreachable one round for each block (a block is
-- pushed once), the dataflow of ra_liveness 256 rounds for each block and one more (a round but the
-- last adds a member to a set, and a set has 256 at most), a register list of movem its length (a
-- round reads a byte), bsearch nmemb rounds, and each loop of qsort the value that it counts down
-- from, a probe of the hash map its capacity, and the doubling in rehash three rounds (there are no
-- more keys than buckets). Counters of the hash map do not overflow an int, and the puts that rehash
-- makes into its copy are modelled without a rehash of their own. The fuel of a run of items is the
-- number of steps.
--
-- The candidates of the allocator and the variables whose address is taken are inputs (ra_walk, which
-- collects them from the syntax tree, is not modelled); `var->reg` is a list by candidate number,
-- which supposes that two candidates are never one variable. The sets hold 256 candidates, the length
-- of ra_cand. Operands are ASCII text. Behind the end of a string the model reads NULs, and a register
-- list for which C has no defined shift is `none`. Liveness and colouring are stated in the events that
-- ra_ev_walk records: their order is not always that of the emitted code, and an item keeps 4096.
--
-- A tree is a value here and nodes are not shared, so the test `x == y` on pointers in ie_equal, which
-- answers early for one node, is not separate from the comparison of the fields. Where a routine calls
-- error_at, which does not return, the model answers `none`.
--
-- Not modelled: ra_walk, the builder and the making of value temporaries in src/ir68k.c; the peephole
-- pass; the directives, the object file and DWARF of src/emit_elf.c; src/type.c, src/tokenize.c, src/preprocess.c, src/parse.c,
-- src/codegen68k.c; libc but for the two routines; the driver, which does I/O; lib, which is assembly.
pub mod Prelude
pub mod Ctype
pub mod Ir
pub mod Unicode
pub mod Elf
pub mod Libc
pub mod Hashmap
