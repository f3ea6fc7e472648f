-- ===== src/Analyzers/Normalizer.antt =====
-- lib/NativeAnalysis.cpp: `FlowFactNormalizer`, which completes the blocks of the functions from the
-- decoded instructions and settles their edges and the unresolved flows.
pub mod Missing
pub mod Closed
mod Examples
pub mod Validity
use not_dec_bin2llvm.Common.{
  ℕ, zero, suc, length, List, [], ◌∷◌, ◌++◌, Option, none, some, Bool, true, false, not, ltb, ◌==◌,
  if◌then◌else◌, ◌&&◌, ◌||◌, is_some, keep_if, contains, add_unique, nat_eq, codes,
}
use not_dec_bin2llvm.Program.{
  BasicBlock, Function, Xref, XrefKind, flow, UnresolvedFlow, indirect_branch, indirect_tail_branch,
  Instruction, InstructionFlowKind, no_flow, conditional_branch, unconditional_branch,
  indirect_jump, trap, return, instruction_end, ProgramState,
}
use not_dec_bin2llvm.Program.Functions.{function_at, function_block_containing, function_containing}
use not_dec_bin2llvm.Program.Blocks.{
  is_instruction_fallthrough_to, has_block_start, add_basic_block, add_basic_block_successors,
}
use not_dec_bin2llvm.Program.Instructions.{
  instruction_at, instructions_in_range, add_instruction_direct_flow_targets,
  mark_instruction_tail_flow_target,
}
use not_dec_bin2llvm.Program.Xrefs.{kind_beq}
use not_dec_bin2llvm.Program.Flows.{flow_kind_beq, add_unresolved_flow, remove_unresolved_flow}

-- `addLocalSuccessor` and `addLocalSuccessors`.
unfoldable pub add_local_successor : List BasicBlock → ℕ → List ℕ → List ℕ
add_local_successor blocks target successors =
    if has_block_start blocks target then add_unique successors target else successors

unfoldable pub add_local_successors : List BasicBlock → List ℕ → List ℕ → List ℕ
add_local_successors blocks [] successors = successors
add_local_successors blocks (target ∷ targets) successors =
    add_local_successors blocks targets (add_local_successor blocks target successors)

-- The fall-through, where it is at the end of the instruction.
unfoldable pub add_fallthrough : List BasicBlock → Instruction → Option ℕ → List ℕ → List ℕ
add_fallthrough blocks instruction none successors = successors
add_fallthrough blocks instruction (some target) successors =
    if is_instruction_fallthrough_to instruction target
    then add_local_successor blocks target successors
    else successors

-- `addInstructionSuccessors`.
unfoldable pub add_instruction_successors : List BasicBlock → Instruction → List ℕ → List ℕ
add_instruction_successors blocks instruction successors = elim instruction.flow_kind [
  | conditional_branch ↦
      add_fallthrough blocks instruction instruction.fallthrough
        (add_local_successors blocks instruction.direct_flow_targets successors)
  | unconditional_branch ↦ add_local_successors blocks instruction.direct_flow_targets successors
  | indirect_jump ↦ add_local_successors blocks instruction.direct_flow_targets successors
  | trap ↦ successors
  | return ↦ successors
  | no_flow ↦ add_fallthrough blocks instruction instruction.fallthrough successors
]

-- `functionHasBlockContaining`.
unfoldable pub has_block_containing : List BasicBlock → ℕ → Bool
has_block_containing blocks address = is_some (function_block_containing blocks address)

unfoldable pub is_no_flow : InstructionFlowKind → Bool
is_no_flow no_flow = true
is_no_flow _ = false

-- The block that ends with `last`.
unfoldable pub block_to : List BasicBlock → ℕ → Instruction → BasicBlock
block_to blocks start last = record {
  start = start;
  end = instruction_end last;
  successors = add_instruction_successors blocks last [];
}

-- The inner loop of `appendMissingBlocks` from the instruction `current` of the block on: the block,
-- and the instructions behind those that it passed. An instruction of a known block ends the new one
-- and is passed too.
unfoldable pub grow_block :
    List BasicBlock → ℕ → Instruction → List Instruction → BasicBlock × List Instruction
grow_block blocks start current [] = (block_to blocks start current, [])
grow_block blocks start current (next ∷ rest) =
    let longer = grow_block blocks start next rest in
    if not (is_no_flow current.flow_kind)
    then (block_to blocks start current, next ∷ rest)
    else if not (is_instruction_fallthrough_to current next.address)
    then (block_to blocks start current, next ∷ rest)
    else if has_block_containing blocks next.address
    then (record { start = start; end = instruction_end current; successors = [] }, rest)
    else longer

-- `appendMissingBlocks` on the instructions of the function's range; every round passes an
-- instruction, so their number is enough fuel.
unfoldable pub missing_loop : ℕ → List BasicBlock → List Instruction → List BasicBlock
missing_loop zero blocks instructions = []
missing_loop (suc rounds) blocks [] = []
missing_loop (suc rounds) blocks (instruction ∷ rest) =
    let skipped = missing_loop rounds blocks rest in
    let grown = grow_block blocks instruction.address instruction rest in
    let later = missing_loop rounds blocks grown.1 in
    if has_block_containing blocks instruction.address
    then skipped
    else if ltb grown.0.start grown.0.end
    then grown.0 ∷ later
    else later

unfoldable pub missing_blocks : List BasicBlock → List Instruction → List BasicBlock
missing_blocks blocks instructions = missing_loop (length instructions) blocks instructions

-- The calls of `addBasicBlock` with the blocks found for one function.
unfoldable pub add_blocks : ProgramState → ℕ → List BasicBlock → ProgramState
add_blocks s entry [] = s
add_blocks s entry (block ∷ blocks) = add_blocks (add_basic_block s entry block).0 entry blocks

-- `appendSplitBlockAt`: the rest of the block that holds the address.
unfoldable pub split_block_at : List BasicBlock → ℕ → List BasicBlock
split_block_at blocks address =
    if has_block_start blocks address then [] else elim (function_block_containing blocks address) [
      | none ↦ []
      | some containing ↦
          if address == containing.start
          then []
          else record { start = address; end = containing.end; successors = containing.successors }
            ∷ []
    ]

unfoldable pub is_indirect_jump : Instruction → Bool
is_indirect_jump instruction = elim instruction.flow_kind [ indirect_jump ↦ true | _ ↦ false ]

-- The function, the block and the instruction of an address.
pub record FlowSite : Type 0 where
  pub function : Function
  pub block : BasicBlock
  pub instruction : Instruction

unfoldable pub site_in : Function → Option BasicBlock → Option Instruction → Option FlowSite
site_in function (some block) (some instruction) =
    some (record { function = function; block = block; instruction = instruction })
site_in function none _ = none
site_in function (some block) none = none

unfoldable pub flow_site : ProgramState → ℕ → Option FlowSite
flow_site s address = elim (function_containing s address) [
  | none ↦ none
  | some function ↦
      site_in function (function_block_containing function.blocks address)
        (instruction_at s address)
]

unfoldable pub resolve_at : ProgramState → UnresolvedFlow → List ℕ → ProgramState
resolve_at s unresolved [] = s
resolve_at s unresolved (target ∷ targets) =
    (remove_unresolved_flow
      (add_instruction_direct_flow_targets s unresolved.address (target ∷ targets)).0
      unresolved.address unresolved.kind).0

-- One flow of `resolveCfgBackedIndirectBranches`; a block without successors has no local ones.
unfoldable pub resolve_flow : ProgramState → UnresolvedFlow → ProgramState
resolve_flow s unresolved =
    if not (flow_kind_beq unresolved.kind indirect_branch)
    then s
    else elim (flow_site s unresolved.address) [
      | none ↦ s
      | some site ↦
          if is_indirect_jump site.instruction
          then resolve_at s unresolved
              (keep_if (has_block_start site.function.blocks) site.block.successors)
          else s
    ]

-- The loop runs over a copy of the flows.
unfoldable pub resolve_flows : ProgramState → List UnresolvedFlow → ProgramState
resolve_flows s [] = s
resolve_flows s (unresolved ∷ flows) = resolve_flows (resolve_flow s unresolved) flows

unfoldable pub resolve_cfg_backed_indirect_branches : ProgramState → ProgramState
resolve_cfg_backed_indirect_branches s = resolve_flows s s.unresolved_flows

-- The jump ends the last block of its function, which has no successors.
unfoldable pub is_tail_exit : FlowSite → Bool
is_tail_exit site =
    is_indirect_jump site.instruction
    && (instruction_end site.instruction == site.block.end
        && (site.block.end == site.function.range_end && length site.block.successors == 0))

unfoldable pub to_tail_flow : ProgramState → UnresolvedFlow → ProgramState
to_tail_flow s unresolved =
    (add_unresolved_flow (remove_unresolved_flow s unresolved.address unresolved.kind).0 (record {
      address = unresolved.address;
      kind = indirect_tail_branch;
      source = codes "native-block-indirect-tail-exit";
    })).0

-- One flow of `classifyIndirectTailExits`.
unfoldable pub classify_flow : ProgramState → UnresolvedFlow → ProgramState
classify_flow s unresolved =
    if not (flow_kind_beq unresolved.kind indirect_branch)
    then s
    else elim (flow_site s unresolved.address) [
      | none ↦ s
      | some site ↦ if is_tail_exit site then to_tail_flow s unresolved else s
    ]

unfoldable pub classify_flows : ProgramState → List UnresolvedFlow → ProgramState
classify_flows s [] = s
classify_flows s (unresolved ∷ flows) = classify_flows (classify_flow s unresolved) flows

unfoldable pub classify_indirect_tail_exits : ProgramState → ProgramState
classify_indirect_tail_exits s = classify_flows s s.unresolved_flows

-- The edge of a flow xref within one function.
unfoldable pub restore_edge : ProgramState → Xref → Option Function → Option Function → ProgramState
restore_edge s xref (some source_owner) (some target_owner) =
    if not (source_owner.entry == target_owner.entry)
      || not (has_block_start source_owner.blocks xref.to)
    then s
    else elim (function_block_containing source_owner.blocks xref.from) [
      | none ↦ s
      | some block ↦ (add_basic_block_successors s source_owner.entry block.start (xref.to ∷ [])).0
    ]
restore_edge s xref (some source_owner) none = s
restore_edge s xref none _ = s

-- `restoreIntraFunctionFlowXrefSuccessors`.
unfoldable pub restore_edges : ProgramState → List Xref → ProgramState
restore_edges s [] = s
restore_edges s (xref ∷ xrefs) =
    restore_edges
      (if kind_beq xref.kind flow
        then restore_edge s xref (function_containing s xref.from) (function_containing s xref.to)
        else s)
      xrefs

unfoldable pub restore_intra_function_flow_xref_successors : ProgramState → ProgramState
restore_intra_function_flow_xref_successors s = restore_edges s s.xrefs
