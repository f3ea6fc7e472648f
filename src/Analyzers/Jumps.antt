-- ===== src/Analyzers/Jumps.antt =====
-- lib/NativeAnalysis.cpp: the jump tables of position-independent x86 code, from the moment that the
-- dispatch is recognized.
pub mod Tables
use not_dec_bin2llvm.Common.{
  ℕ, zero, suc, ◌+◌, ◌*◌, ◌%◌, List, [], ◌∷◌, Option, none, some, Bool, true, false, not,
  if◌then◌else◌, ◌&&◌, ◌||◌, is_some, keep_if, add_unique, add64, u64_mod, codes, nat_eq,
}
use not_dec_bin2llvm.Memory.{is_executable_address, read_signed32}
use not_dec_bin2llvm.Program.{Function, ProgramState, flow}
use not_dec_bin2llvm.Program.Functions.{function_containing}
use not_dec_bin2llvm.Program.Blocks.{has_block_start, add_basic_block_successors}
use not_dec_bin2llvm.Program.Instructions.{instruction_at, add_instruction_direct_flow_targets}
use not_dec_bin2llvm.Program.Xrefs.{add_xref}

-- `functionContainsBlockStart`.
unfoldable pub function_contains_block_start : ProgramState → ℕ → Bool
function_contains_block_start s address = elim (function_containing s address) [
  | none ↦ false
  | some function ↦ has_block_start function.blocks address
]

-- The target of an entry, if it is readable and executable. The sum of base and offset is the one of
-- the `int64_t`, as 64-bit patterns.
unfoldable pub entry_target : ProgramState → ℕ → ℕ → Option ℕ
entry_target s table_base index =
    elim (read_signed32 s.memory_ranges (add64 table_base (index * 4))) [
      | none ↦ none
      | some offset ↦
          if is_executable_address s.memory_ranges (add64 table_base offset)
          then some (add64 table_base offset)
          else none
    ]

-- What an entry adds to the targets and to `complete`.
unfoldable pub add_target : ProgramState → Bool → ℕ → List ℕ × Bool → List ℕ × Bool
add_target s only_existing_blocks target (targets, complete) =
    if function_contains_block_start s target
    then (add_unique targets target, complete)
    else if only_existing_blocks
    then (targets, false)
    else (add_unique targets target, false)

-- The loop over `count` entries from `index` on; `none` where the source returns false.
unfoldable pub targets_loop :
    ℕ → ProgramState → ℕ → ℕ → Bool → List ℕ × Bool → Option (List ℕ × Bool)
targets_loop zero s table_base index only_existing_blocks found = some found
targets_loop (suc count) s table_base index only_existing_blocks found =
    elim (entry_target s table_base index) [
      | none ↦ none
      | some target ↦
          targets_loop count s table_base (index + 1) only_existing_blocks
            (add_target s only_existing_blocks target found)
    ]

-- `readX86PicI32Targets` on an empty vector of targets.
unfoldable pub read_x86_pic_i32_targets : ProgramState → ℕ → ℕ → Bool → Option (List ℕ × Bool)
read_x86_pic_i32_targets s table_base entry_count only_existing_blocks =
    targets_loop entry_count s table_base 0 only_existing_blocks ([], true)

-- `X86PicI32JumpDispatch`.
pub record JumpDispatch : Type 0 where
  pub block_start : ℕ
  pub table_base : ℕ
  pub entry_count : ℕ

unfoldable pub add_jump_xrefs : ProgramState → ℕ → List ℕ → ProgramState
add_jump_xrefs s branch_address [] = s
add_jump_xrefs s branch_address (target ∷ targets) =
    add_jump_xrefs
      (add_xref s (record {
        from = branch_address;
        to = target;
        kind = flow;
        source = codes "x86-jump-table";
      }))
      branch_address targets

-- The facts about the targets that are decoded.
unfoldable pub add_jump_targets : ProgramState → ℕ → ℕ → ℕ → List ℕ → ProgramState
add_jump_targets s entry branch_address block_start decoded =
    let with_flow = (add_instruction_direct_flow_targets s branch_address decoded).0 in
    let existing = keep_if (function_contains_block_start with_flow) decoded in
    add_jump_xrefs (add_basic_block_successors with_flow entry block_start existing).0
      branch_address decoded

unfoldable pub use_targets : ProgramState → ℕ → ℕ → ℕ → List ℕ → ProgramState × Bool
use_targets s entry branch_address block_start [] = (s, false)
use_targets s entry branch_address block_start (target ∷ targets) =
    (add_jump_targets s entry branch_address block_start (target ∷ targets), true)

-- `recoverJumpTableInFunction` behind the match of the dispatch.
unfoldable pub recover_jump_table : ProgramState → Function → ℕ → JumpDispatch → ProgramState × Bool
recover_jump_table s function branch_address dispatch =
    elim (read_x86_pic_i32_targets s dispatch.table_base dispatch.entry_count false) [
      | none ↦ (s, false)
      | some found ↦
          use_targets s function.entry branch_address dispatch.block_start
            (keep_if (λ target. is_some (instruction_at s target)) found.0)
    ]
