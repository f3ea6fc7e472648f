-- ===== src/Analyzers/Normalizer/Examples.antt =====
-- The normalizer's theorems at a function with one decoded block, and runs of the code.
use not_dec_bin2llvm.Common.{
  ℕ, List, [], ◌∷◌, Option, none, some, true, false, ◌≡◌, refl, arith, All, codes, add_unique,
  contains, nat_eq,
}
use not_dec_bin2llvm.Memory.{MemoryRange}
use not_dec_bin2llvm.Program.{
  BasicBlock, Function, Instruction, InstructionFlowKind, no_flow, conditional_branch,
  indirect_jump, indirect_branch, ProgramState, x86_64, initial_state,
}
use not_dec_bin2llvm.Program.Blocks.{has_block_start, is_instruction_fallthrough_to}
use not_dec_bin2llvm.Program.Blocks.Edges.{EdgesAreClosed}
use not_dec_bin2llvm.Program.Functions.{function_block_containing}
use not_dec_bin2llvm.Program.Calls.{
  Call, adds_function, adds_instruction, adds_unresolved_flow, run,
}
use not_dec_bin2llvm.Analyzers.Normalizer.{
  missing_blocks, missing_loop, grow_block, block_to, has_block_containing, is_no_flow,
  add_instruction_successors, add_local_successors, add_local_successor, add_fallthrough,
}
use not_dec_bin2llvm.Analyzers.Normalizer.Missing.{IsCovered, missing_blocks-IsCovered}
use not_dec_bin2llvm.Analyzers.Normalizer.Closed.{missing_blocks-EdgesAreClosed}

abbrev instruction : ℕ → InstructionFlowKind → List ℕ → Option ℕ → Instruction
instruction address kind targets fallthrough = record {
  address = address;
  size = 2;
  bytes = [];
  mnemonic = [];
  source = codes "sleigh";
  flow_kind = kind;
  direct_flow_targets = targets;
  direct_call_targets = [];
  tail_flow_targets = [];
  fallthrough = fallthrough;
  has_indirect_call = false;
}

-- The function knows its first block; the second one jumps back to it.
abbrev known : List BasicBlock
known = record { start = 0x1000; end = 0x1002; successors = [] } ∷ []

abbrev decoded : List Instruction
decoded =
    instruction 0x1000 no_flow [] (some 0x1002)
    ∷ instruction 0x1002 no_flow [] (some 0x1004)
    ∷ instruction 0x1004 conditional_branch (0x1000 ∷ 0x2000 ∷ []) (some 0x1006)
    ∷ []

one_block_is_missing :
    missing_blocks known decoded
    ≡ record { start = 0x1002; end = 0x1006; successors = 0x1000 ∷ [] } ∷ []
unfolding missing_blocks missing_loop grow_block block_to has_block_containing is_no_flow
    add_instruction_successors add_local_successors add_local_successor add_fallthrough
    has_block_start is_instruction_fallthrough_to function_block_containing add_unique contains
one_block_is_missing = refl

missing_blocks-IsCovered_example : All (IsCovered known (missing_blocks known decoded)) decoded
missing_blocks-IsCovered_example =
    missing_blocks-IsCovered known decoded (omega arith, (omega arith, (omega arith, tt)))

missing_blocks-EdgesAreClosed_example : All (EdgesAreClosed known) (missing_blocks known decoded)
missing_blocks-EdgesAreClosed_example = missing_blocks-EdgesAreClosed known decoded

abbrev code_range : MemoryRange
code_range = record {
  start = 0x1000;
  size = 0x100;
  readable = true;
  writable = false;
  executable = true;
  bytes = [];
}

abbrev main_function : Function
main_function = record {
  entry = 0x1000;
  range_start = 0x1000;
  range_end = 0x1002;
  name = codes "main";
  blocks = known;
  source = codes "gtirb-ddisasm";
  is_externally_visible = true;
  is_pc_thunk = false;
  pc_thunk_register = [];
}

-- An indirect jump at the end of the function.
abbrev calls : List Call
calls =
    adds_function main_function
    ∷ adds_instruction (instruction 0x1000 indirect_jump [] none)
    ∷ adds_unresolved_flow
        (record { address = 0x1000; kind = indirect_branch; source = codes "sleigh" })
    ∷ []

abbrev state : ProgramState
state = run (initial_state x86_64 8 (code_range ∷ []) []) calls
