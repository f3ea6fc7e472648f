-- ===== src/Analyzers/Normalizer/Closed.antt =====
-- The successors that the normalizer gives a block start blocks of the function.
use not_dec_bin2llvm.Common.{
  ℕ, zero, suc, ltb, List, [], ◌∷◌, Option, none, some, true, All, length, Bool-cases, ◌≡◌, inl,
  inr,
}
use not_dec_bin2llvm.Program.{
  BasicBlock, Instruction, no_flow, conditional_branch, unconditional_branch, indirect_jump, trap,
  return,
}
use not_dec_bin2llvm.Program.Blocks.{has_block_start, is_instruction_fallthrough_to}
use not_dec_bin2llvm.Program.Blocks.Edges.{EdgesAreClosed, add_unique-All}
use not_dec_bin2llvm.Analyzers.Normalizer.{
  add_local_successor, add_local_successors, add_fallthrough, add_instruction_successors, block_to,
  grow_block, has_block_containing, is_no_flow, missing_loop, missing_blocks,
}

abbrev AreStarts : List BasicBlock → List ℕ → Type 0
AreStarts blocks successors = All (λ a. has_block_start blocks a ≡ true) successors

local_successor-AreStarts :
    (blocks : List BasicBlock) (target : ℕ) (successors : List ℕ)
    → AreStarts blocks successors
    → AreStarts blocks (add_local_successor blocks target successors)
unfolding add_local_successor
local_successor-AreStarts blocks target successors h =
    elim (Bool-cases (has_block_start blocks target)) [
      | inl start ↦
          rw start (add_unique-All (λ a. has_block_start blocks a ≡ true) successors target h start)
      | inr other ↦ rw other h
    ]

local_successors-AreStarts :
    (blocks : List BasicBlock) (targets successors : List ℕ)
    → AreStarts blocks successors
    → AreStarts blocks (add_local_successors blocks targets successors)
unfolding add_local_successors
local_successors-AreStarts blocks [] successors h = h
local_successors-AreStarts blocks (target ∷ targets) successors h =
    local_successors-AreStarts blocks targets (add_local_successor blocks target successors)
      (local_successor-AreStarts blocks target successors h)

fallthrough-AreStarts :
    (blocks : List BasicBlock) (i : Instruction) (target : Option ℕ) (successors : List ℕ)
    → AreStarts blocks successors
    → AreStarts blocks (add_fallthrough blocks i target successors)
unfolding add_fallthrough
fallthrough-AreStarts blocks i none successors h = h
fallthrough-AreStarts blocks i (some target) successors h =
    elim (Bool-cases (is_instruction_fallthrough_to i target)) [
      | inl falls ↦ rw falls (local_successor-AreStarts blocks target successors h)
      | inr other ↦ rw other h
    ]

instruction_successors-AreStarts :
    (blocks : List BasicBlock) (i : Instruction) (successors : List ℕ)
    → AreStarts blocks successors
    → AreStarts blocks (add_instruction_successors blocks i successors)
unfolding add_instruction_successors
instruction_successors-AreStarts blocks i successors h =
    let direct = local_successors-AreStarts blocks i.direct_flow_targets successors h in
    let falls = fallthrough-AreStarts blocks i i.fallthrough successors h in
    let both =
      fallthrough-AreStarts blocks i i.fallthrough
        (add_local_successors blocks i.direct_flow_targets successors) direct in
    elim i.flow_kind
      as (λ k. AreStarts blocks (elim k [
        | conditional_branch ↦
            add_fallthrough blocks i i.fallthrough
              (add_local_successors blocks i.direct_flow_targets successors)
        | unconditional_branch ↦ add_local_successors blocks i.direct_flow_targets successors
        | indirect_jump ↦ add_local_successors blocks i.direct_flow_targets successors
        | trap ↦ successors
        | return ↦ successors
        | no_flow ↦ add_fallthrough blocks i i.fallthrough successors
      ])) [
        | conditional_branch ↦ both
        | unconditional_branch ↦ direct
        | indirect_jump ↦ direct
        | trap ↦ h
        | return ↦ h
        | no_flow ↦ falls
      ]

grow_block-EdgesAreClosed :
    (blocks : List BasicBlock) (start : ℕ) (current : Instruction) (rest : List Instruction)
    → EdgesAreClosed blocks (grow_block blocks start current rest).0
unfolding grow_block block_to
grow_block-EdgesAreClosed blocks start current [] =
    instruction_successors-AreStarts blocks current [] tt
grow_block-EdgesAreClosed blocks start current (next ∷ rest) =
    let last = instruction_successors-AreStarts blocks current [] tt in
    let longer = grow_block-EdgesAreClosed blocks start next rest in
    elim (Bool-cases (is_no_flow current.flow_kind)) [
      | inr ends ↦ rw ends last
      | inl goes_on ↦ elim (Bool-cases (is_instruction_fallthrough_to current next.address)) [
        | inr gap ↦ rw (goes_on, gap) last
        | inl joined ↦ elim (Bool-cases (has_block_containing blocks next.address)) [
          | inl known ↦ rw (goes_on, joined, known) tt
          | inr new ↦ rw (goes_on, joined, new) longer
        ]
      ]
    ]

missing_loop-EdgesAreClosed :
    (rounds : ℕ) (blocks : List BasicBlock) (instructions : List Instruction)
    → All (EdgesAreClosed blocks) (missing_loop rounds blocks instructions)
unfolding missing_loop
missing_loop-EdgesAreClosed zero blocks instructions = tt
missing_loop-EdgesAreClosed (suc rounds) blocks [] = tt
missing_loop-EdgesAreClosed (suc rounds) blocks (i ∷ rest) =
    let grown = grow_block blocks i.address i rest in
    let later = missing_loop-EdgesAreClosed rounds blocks grown.1 in
    elim (Bool-cases (has_block_containing blocks i.address)) [
      | inl known ↦ rw known (missing_loop-EdgesAreClosed rounds blocks rest)
      | inr new ↦ elim (Bool-cases (ltb grown.0.start grown.0.end)) [
        | inl nonempty ↦
            rw (new, nonempty) (grow_block-EdgesAreClosed blocks i.address i rest, later)
        | inr empty ↦ rw (new, empty) later
      ]
    ]

-- Every successor of a missing block that is found starts a known block of the function.
pub missing_blocks-EdgesAreClosed :
    (blocks : List BasicBlock) (instructions : List Instruction)
    → All (EdgesAreClosed blocks) (missing_blocks blocks instructions)
unfolding missing_blocks
missing_blocks-EdgesAreClosed blocks instructions =
    missing_loop-EdgesAreClosed (length instructions) blocks instructions
