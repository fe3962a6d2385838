-- ===== src/Elf/Encode/Kept.antt =====
-- encode_insn of src/emit_elf.c, mnemonic by mnemonic, on well-formed .text, fixups and relocations.
use c68k.Prelude.{ℕ, Bool, ◌&&◌, Option, none, some, List, [], ◌∷◌, leb, All, ◌==◌, if◌then◌else◌}
use c68k.Elf.Chars.{is, char_at, drop}
use c68k.Elf.Encode.{Asm, cond_code, split_size}
use c68k.Elf.Encode.Control.{
  insn_jump, insn_link, insn_unlk, insn_movem, insn_branch, insn_dbra, insn_scc,
}
use c68k.Elf.Encode.Insn.{
  insn_move, insn_moveq, insn_lea, insn_alu, insn_adda, insn_addq, insn_addx, insn_logic_imm,
  insn_ext, insn_unary, insn_shift, dispatch, insn_cases, encode_insn, imm_code, alu_topnib,
}
use c68k.Elf.Encode.Aligned.{
  IsText, Holds, text16-IsText, emit_ext-IsText, op_ext-IsText, enc_move-IsText, enc_alu-IsText,
  enc_imm-IsText, branch_word-op, text16-twice, with_ea-Holds, with_eas-Holds, if-IsText, if-Holds,
}

dispatch-Holds : (l : List (Bool × Option Asm)) → All (λ p. Holds p.1) l → Holds (dispatch l)
unfolding dispatch
dispatch-Holds [] h = tt
dispatch-Holds ((test, outcome) ∷ l) (h, hs) =
    if-Holds test outcome (dispatch l) h (dispatch-Holds l hs)

module _ (st : Asm) (h : IsText st) where
  insn_move-Holds : (sz : ℕ) (o1 o2 : List ℕ) → Holds (insn_move sz o1 o2 st)
  unfolding insn_move
  insn_move-Holds sz o1 o2 = with_eas-Holds o1 sz o2 sz _ (λ s d. enc_move-IsText sz s d st h)

  insn_moveq-Holds : (o1 o2 : List ℕ) → Holds (insn_moveq o1 o2 st)
  unfolding insn_moveq
  insn_moveq-Holds o1 o2 = with_ea-Holds o2 4 _ (λ d. text16-IsText _ st h)

  insn_lea-Holds : (o1 o2 : List ℕ) → Holds (insn_lea o1 o2 st)
  unfolding insn_lea
  insn_lea-Holds o1 o2 = with_eas-Holds o1 4 o2 4 _ (λ s d. op_ext-IsText _ s st h)

  insn_alu-Holds : (base : List ℕ) (sz : ℕ) (o1 o2 : List ℕ) → Holds (insn_alu base sz o1 o2 st)
  unfolding insn_alu
  insn_alu-Holds base sz o1 o2 = with_eas-Holds o1 sz o2 sz _ (λ s d.
      if-IsText s.is_imm _ _ (enc_imm-IsText (imm_code base) sz s.imm d st h) (
        if-IsText (is base "eor") _ _ (op_ext-IsText _ d st h)
          (enc_alu-IsText (alu_topnib base) sz d.reg s 0 st h)))

  insn_adda-Holds : (base : List ℕ) (sz : ℕ) (o1 o2 : List ℕ) → Holds (insn_adda base sz o1 o2 st)
  unfolding insn_adda
  insn_adda-Holds base sz o1 o2 = with_eas-Holds o1 sz o2 sz _ (λ s d.
      if-IsText (s.is_imm && leb 1 s.imm && leb s.imm 8) _ _ (text16-IsText _ st h)
        (op_ext-IsText _ s st h))

  insn_addq-Holds : (base : List ℕ) (sz : ℕ) (o1 o2 : List ℕ) → Holds (insn_addq base sz o1 o2 st)
  unfolding insn_addq
  insn_addq-Holds base sz o1 o2 = with_eas-Holds o1 sz o2 sz _ (λ s d. op_ext-IsText _ d st h)

  insn_addx-Holds : (base : List ℕ) (sz : ℕ) (o1 o2 : List ℕ) → Holds (insn_addx base sz o1 o2 st)
  unfolding insn_addx
  insn_addx-Holds base sz o1 o2 = with_eas-Holds o1 sz o2 sz _ (λ s d. text16-IsText _ st h)

  insn_logic_imm-Holds :
      (base : List ℕ) (sz : ℕ) (o1 o2 : List ℕ) → Holds (insn_logic_imm base sz o1 o2 st)
  unfolding insn_logic_imm
  insn_logic_imm-Holds base sz o1 o2 =
      with_eas-Holds o1 sz o2 sz _ (λ s d. enc_imm-IsText _ sz s.imm d st h)

  insn_ext-Holds : (sz : ℕ) (o1 : List ℕ) → Holds (insn_ext sz o1 st)
  unfolding insn_ext
  insn_ext-Holds sz o1 = with_ea-Holds o1 sz _ (λ d. text16-IsText _ st h)

  insn_unary-Holds : (base : List ℕ) (sz : ℕ) (o1 : List ℕ) → Holds (insn_unary base sz o1 st)
  unfolding insn_unary
  insn_unary-Holds base sz o1 = with_ea-Holds o1 sz _ (λ d. op_ext-IsText _ d st h)

  insn_shift-Holds : (base : List ℕ) (sz : ℕ) (o1 o2 : List ℕ) → Holds (insn_shift base sz o1 o2 st)
  unfolding insn_shift
  insn_shift-Holds base sz o1 o2 =
      if-Holds (char_at o1 0 == b'#') _ _ (with_ea-Holds o2 sz _ (λ d. text16-IsText _ st h))
        (with_eas-Holds o1 sz o2 sz _ (λ c d. text16-IsText _ st h))

  insn_jump-Holds : (low : ℕ) (o1 : List ℕ) → Holds (insn_jump low o1 st)
  unfolding insn_jump
  insn_jump-Holds low o1 = with_ea-Holds o1 4 _ (λ s. op_ext-IsText _ s st h)

  insn_link-Holds : (o1 o2 : List ℕ) → Holds (insn_link o1 o2 st)
  unfolding insn_link
  insn_link-Holds o1 o2 = with_ea-Holds o1 4 _ (λ a. text16-twice _ _ st h)

  insn_unlk-Holds : (o1 : List ℕ) → Holds (insn_unlk o1 st)
  unfolding insn_unlk
  insn_unlk-Holds o1 = with_ea-Holds o1 4 _ (λ a. text16-IsText _ st h)

  list-Holds :
      (o : Option ℕ) (f : ℕ → Option Asm)
      → ((n : ℕ) → Holds (f n))
      → Holds (elim o [ none ↦ none | some n ↦ f n ])
  list-Holds none f k = tt
  list-Holds (some n) f k = k n

  insn_movem-Holds : (sz : ℕ) (o1 o2 : List ℕ) → Holds (insn_movem sz o1 o2 st)
  unfolding insn_movem
  insn_movem-Holds sz o1 o2 =
      list-Holds _ _
        (λ set. with_ea-Holds _ sz _ (λ ea. emit_ext-IsText ea _ (text16-twice _ _ st h)))

  insn_branch-Holds : (base o1 : List ℕ) → Holds (insn_branch base o1 st)
  unfolding insn_branch
  insn_branch-Holds base o1 =
      list-Holds (cond_code (if is base "bra" then b'r' ∷ b'a' ∷ [] else drop 1 base)) _
        (λ c. branch_word-op o1 _ st h)

  insn_dbra-Holds : (o1 o2 : List ℕ) → Holds (insn_dbra o1 o2 st)
  unfolding insn_dbra
  insn_dbra-Holds o1 o2 = with_ea-Holds o1 2 _ (λ d. branch_word-op o2 _ st h)

  insn_scc-Holds : (base o1 : List ℕ) → Holds (insn_scc base o1 st)
  unfolding insn_scc
  insn_scc-Holds base o1 =
      list-Holds (cond_code (drop 1 base)) _ (λ c. with_ea-Holds o1 1 _ (λ d. text16-IsText _ st h))

  -- From well-formed .text, fixups and relocations, encode_insn stops with an error or leaves them well formed,
  -- whatever the mnemonic and the operands are: .text has whole words, the fixups are at even offsets, in
  -- order, without overlap and with their two bytes inside .text, and the four bytes of each relocation
  -- in the list, whichever section it is for, are inside .text.
  pub encode_insn-Holds : (mnem o1 o2 : List ℕ) → Holds (encode_insn mnem o1 o2 st)
  unfolding encode_insn
  encode_insn-Holds mnem o1 o2 =
      let base = (split_size mnem).0 in
      let sz = (split_size mnem).1 in
      dispatch-Holds (insn_cases base sz o1 o2 st) (
        insn_move-Holds sz o1 o2,
        (
          insn_moveq-Holds o1 o2,
          (
            insn_lea-Holds o1 o2,
            (
              insn_alu-Holds base sz o1 o2,
              (
                insn_adda-Holds base sz o1 o2,
                (
                  insn_addq-Holds base sz o1 o2,
                  (
                    insn_addx-Holds base sz o1 o2,
                    (
                      insn_logic_imm-Holds base sz o1 o2,
                      (
                        insn_ext-Holds sz o1,
                        (
                          insn_unary-Holds base sz o1,
                          (
                            insn_shift-Holds base sz o1 o2,
                            (
                              insn_jump-Holds 0x80 o1,
                              (
                                insn_jump-Holds 0xc0 o1,
                                (
                                  insn_link-Holds o1 o2,
                                  (
                                    insn_unlk-Holds o1,
                                    (
                                      insn_movem-Holds sz o1 o2,
                                      (
                                        text16-IsText 0x4e75 st h,
                                        (
                                          text16-IsText 0x4e71 st h,
                                          (
                                            insn_branch-Holds base o1,
                                            (insn_dbra-Holds o1 o2, (insn_scc-Holds base o1, tt)),
                                          ),
                                        ),
                                      ),
                                    ),
                                  ),
                                ),
                              ),
                            ),
                          ),
                        ),
                      ),
                    ),
                  ),
                ),
              ),
            ),
          ),
        ),
      )
