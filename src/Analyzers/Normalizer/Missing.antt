-- ===== src/Analyzers/Normalizer/Missing.antt =====
-- `appendMissingBlocks` leaves no instruction of the range without a block.
use not_dec_bin2llvm.Common.{
  ℕ, zero, suc, ◌≤◌, ◌<◌, length, List, [], ◌∷◌, true, false, ltb, All, All-imp, Any, Bool-cases,
  Option-cases, ◌≡◌, ◌⊎◌, inl, inr, refl, sym, subst, arith,
}
use not_dec_bin2llvm.Program.{BasicBlock, Instruction, instruction_end}
use not_dec_bin2llvm.Program.Blocks.{is_instruction_fallthrough_to}
use not_dec_bin2llvm.Analyzers.Normalizer.{
  has_block_containing, is_no_flow, block_to, grow_block, missing_loop, missing_blocks,
}

-- The instruction has a size, and its end does not wrap.
abbrev pub HasEnd : Instruction → Type 0
HasEnd instruction = instruction.address < instruction_end instruction

abbrev pub Holds : ℕ → BasicBlock → Type 0
Holds address block = (block.start ≤ address) × (address < block.end)

-- A known block or a new one holds the address of the instruction.
abbrev pub IsCovered : List BasicBlock → List BasicBlock → Instruction → Type 0
IsCovered blocks new instruction =
    (has_block_containing blocks instruction.address ≡ true) ⊎ Any (Holds instruction.address) new

fallthrough_end :
    (i : Instruction) (target : ℕ)
    → is_instruction_fallthrough_to i target ≡ true
    → target ≡ instruction_end i
unfolding is_instruction_fallthrough_to
fallthrough_end i target h = elim (Option-cases i.fallthrough) [
  | inl missing ↦ absurd (ground (arith, h, missing))
  | inr (address, there) ↦ ground (arith, h, there)
]

grow_block-bounds :
    (blocks : List BasicBlock) (start : ℕ) (current : Instruction) (rest : List Instruction)
    → All HasEnd (current ∷ rest)
    → ((grow_block blocks start current rest).0.start ≡ start)
      × (current.address < (grow_block blocks start current rest).0.end)
unfolding grow_block block_to
grow_block-bounds blocks start current [] (k, _) = (refl, k)
grow_block-bounds blocks start current (next ∷ rest) (k, ks) =
    elim (Bool-cases (is_no_flow current.flow_kind)) [
      | inr ends ↦ rw ends (refl, k)
      | inl goes_on ↦ elim (Bool-cases (is_instruction_fallthrough_to current next.address)) [
        | inr gap ↦ rw (goes_on, gap) (refl, k)
        | inl joined ↦ elim (Bool-cases (has_block_containing blocks next.address)) [
          | inl known ↦ rw (goes_on, joined, known) (refl, k)
          | inr new ↦
              let (same, below) = grow_block-bounds blocks start next rest ks in
              let at_end = fallthrough_end current next.address joined in
              rw (goes_on, joined, new) (same, omega (arith, k, at_end, below))
        ]
      ]
    ]

-- What holds of the instructions behind the block, of those that the block holds and of those of
-- known blocks holds of all.
grow_block-All :
    (Q : Instruction → Type 0) (blocks : List BasicBlock) (start : ℕ) (current : Instruction)
    (rest : List Instruction)
    → All HasEnd (current ∷ rest)
    → start ≤ current.address
    → ((i : Instruction) → Holds i.address (grow_block blocks start current rest).0 → Q i)
    → ((i : Instruction) → has_block_containing blocks i.address ≡ true → Q i)
    → All Q (grow_block blocks start current rest).1
    → All Q (current ∷ rest)
unfolding grow_block block_to
grow_block-All Q blocks start current [] (k, _) above =
    λ held known later. (held current (above, k), tt)
grow_block-All Q blocks start current (next ∷ rest) (k, ks) above =
    elim (Bool-cases (is_no_flow current.flow_kind)) [
      | inr ends ↦ rw ends (λ held known later. (held current (above, k), later))
      | inl goes_on ↦ elim (Bool-cases (is_instruction_fallthrough_to current next.address)) [
        | inr gap ↦ rw (goes_on, gap) (λ held known later. (held current (above, k), later))
        | inl joined ↦ elim (Bool-cases (has_block_containing blocks next.address)) [
          | inl covered ↦
              rw (goes_on, joined, covered)
                (λ held known later. (held current (above, k), (known next covered, later)))
          | inr new ↦
              let (same, below) = grow_block-bounds blocks start next rest ks in
              let at_end = fallthrough_end current next.address joined in
              rw (goes_on, joined, new)
                (λ held known later. (
                  held current (omega (arith, same, above), omega (arith, k, at_end, below)),
                  grow_block-All Q blocks start next rest ks (omega (arith, above, k, at_end)) held
                      known later,
                ))
        ]
      ]
    ]

-- The instructions behind the block are a tail of those behind its first one.
grow_block-tail :
    (P : Instruction → Type 0) (blocks : List BasicBlock) (start : ℕ) (current : Instruction)
    (rest : List Instruction)
    → All P rest
    → All P (grow_block blocks start current rest).1
      × (length (grow_block blocks start current rest).1 ≤ length rest)
unfolding grow_block
grow_block-tail P blocks start current [] h = (tt, omega arith)
grow_block-tail P blocks start current (next ∷ rest) (p, h) =
    let (later, shorter) = grow_block-tail P blocks start next rest h in
    elim (Bool-cases (is_no_flow current.flow_kind)) [
      | inr ends ↦ rw ends ((p, h), omega arith)
      | inl goes_on ↦ elim (Bool-cases (is_instruction_fallthrough_to current next.address)) [
        | inr gap ↦ rw (goes_on, gap) ((p, h), omega arith)
        | inl joined ↦ elim (Bool-cases (has_block_containing blocks next.address)) [
          | inl known ↦ rw (goes_on, joined, known) (h, omega arith)
          | inr new ↦ rw (goes_on, joined, new) (later, omega (arith, shorter))
        ]
      ]
    ]

missing_loop_known :
    (rounds : ℕ) (blocks : List BasicBlock) (i : Instruction) (rest : List Instruction)
    → has_block_containing blocks i.address ≡ true
    → missing_loop (suc rounds) blocks (i ∷ rest) ≡ missing_loop rounds blocks rest
unfolding missing_loop
missing_loop_known rounds blocks i rest known = rw known refl

missing_loop_new :
    (rounds : ℕ) (blocks : List BasicBlock) (i : Instruction) (rest : List Instruction)
    → has_block_containing blocks i.address ≡ false
    → let grown = grow_block blocks i.address i rest in
      ltb grown.0.start grown.0.end ≡ true
      → missing_loop (suc rounds) blocks (i ∷ rest) ≡ grown.0 ∷ missing_loop rounds blocks grown.1
unfolding missing_loop
missing_loop_new rounds blocks i rest new nonempty = rw (new, nonempty) refl

missing_loop-IsCovered :
    (rounds : ℕ) (blocks : List BasicBlock) (instructions : List Instruction)
    → length instructions ≤ rounds
    → All HasEnd instructions
    → All (IsCovered blocks (missing_loop rounds blocks instructions)) instructions
missing_loop-IsCovered rounds blocks [] _ _ = tt
missing_loop-IsCovered zero blocks (i ∷ rest) h _ = absurd (omega arith)
missing_loop-IsCovered (suc rounds) blocks (i ∷ rest) h (k, ks) =
    elim (Bool-cases (has_block_containing blocks i.address)) [
      | inl known ↦
          subst (λ l. All (IsCovered blocks l) (i ∷ rest))
            (sym (missing_loop_known rounds blocks i rest known))
            (inl known, missing_loop-IsCovered rounds blocks rest (omega arith) ks)
      | inr new ↦
          let grown = grow_block blocks i.address i rest in
          let (same, below) = grow_block-bounds blocks i.address i rest (k, ks) in
          let nonempty : ltb grown.0.start grown.0.end ≡ true = ground (arith, same, below) in
          let (ends, shorter) = grow_block-tail HasEnd blocks i.address i rest ks in
          let found = missing_loop rounds blocks grown.1 in
          let later = missing_loop-IsCovered rounds blocks grown.1 (omega (arith, shorter)) ends in
          subst (λ l. All (IsCovered blocks l) (i ∷ rest))
            (sym (missing_loop_new rounds blocks i rest new nonempty))
            (grow_block-All (IsCovered blocks (grown.0 ∷ found)) blocks i.address i rest (k, ks)
              (omega arith) (λ j holds. inr (inl holds)) (λ j known. inl known)
              (All-imp (IsCovered blocks found) (IsCovered blocks (grown.0 ∷ found)) grown.1
                (λ j covered. elim covered [ inl known ↦ inl known | inr a ↦ inr (inr a) ]) later))
    ]

-- Where every instruction of the range has a size and an end that does not wrap, each of them
-- lies in a known block of the function or in one of the missing blocks that are found.
pub missing_blocks-IsCovered :
    (blocks : List BasicBlock) (instructions : List Instruction)
    → All HasEnd instructions
    → All (IsCovered blocks (missing_blocks blocks instructions)) instructions
unfolding missing_blocks
missing_blocks-IsCovered blocks instructions h =
    missing_loop-IsCovered (length instructions) blocks instructions (omega arith) h
