-- ===== src/Program/Examples.antt =====
-- The theorems on the program state at a small session, and runs of the code.
use not_dec_bin2llvm.Common.{
  ℕ, List, [], ◌∷◌, ◌++◌, some, true, false, not, ◌&&◌, if◌then◌else◌, codes, ◌≡◌, refl, arith, All,
  contains, nat_eq, text_eq, keep_if, map, inl,
}
use not_dec_bin2llvm.Memory.{MemoryRange}
use not_dec_bin2llvm.OrderedMap
use not_dec_bin2llvm.Program.{
  high, low, BasicBlock, Function, Instruction, conditional_branch, Xref, call, flow,
  UnresolvedFlow, indirect_branch, indirect_call, x86_64, ProgramState, initial_state,
}
use not_dec_bin2llvm.Program.Blocks.{
  insert_block, extend_function, drop_invalid, update_same_start, split_blocks, cut_new, cut_at,
  cut_existing, has_instruction_fallthrough_to, has_block_start,
}
use not_dec_bin2llvm.Program.Blocks.Invariant.{
  BlocksAreWithin, BlocksAreApart, insert_block-BlocksAreWithin, insert_block-BlocksAreApart,
}
use not_dec_bin2llvm.Program.Blocks.Edges.{
  EdgesAreClosed, drop_invalid-EdgesAreClosed, extend_function-EdgesAreClosed,
}
use not_dec_bin2llvm.Program.Instructions.{instructions_in_range}
use not_dec_bin2llvm.Program.Instructions.Ranges.{
  in_range, instruction_of, instructions_in_range-keep_if,
}
use not_dec_bin2llvm.Program.Xrefs.{xrefs_from, xrefs_to, has_same_xref, add_xref}
use not_dec_bin2llvm.Program.Xrefs.Index.{is_from, is_to, xrefs_by_index, add_xref_effect}
use not_dec_bin2llvm.Program.Flows.{has_flow, add_unresolved_flow, remove_unresolved_flow}
use not_dec_bin2llvm.Program.Flows.Pending.{
  same_key, add_unresolved_flow_effect, remove_unresolved_flow_effect,
}
use not_dec_bin2llvm.Program.Calls.{
  Call, adds_function_seed, demotes_seed, adds_function, adds_basic_block, adds_instruction,
  adds_xref, adds_unresolved_flow, run,
}
use not_dec_bin2llvm.Program.Calls.Invariant.{IsValid, run-initial_state-IsValid}

abbrev text_range : MemoryRange
text_range = record {
  start = 0x1000;
  size = 0x100;
  readable = true;
  writable = false;
  executable = true;
  bytes = [];
}

abbrev block : ℕ → ℕ → List ℕ → BasicBlock
block start end successors = record { start = start; end = end; successors = successors }

abbrev main_function : Function
main_function = record {
  entry = 0x1000;
  range_start = 0x1000;
  range_end = 0x1040;
  name = codes "main";
  blocks = block 0x1000 0x1020 (0x1020 ∷ []) ∷ block 0x1020 0x1040 [] ∷ [];
  source = codes "sleigh";
  is_externally_visible = false;
  is_pc_thunk = false;
  pc_thunk_register = [];
}

abbrev jump : Instruction
jump = record {
  address = 0x1010;
  size = 2;
  bytes = 0x74 ∷ 0x0e ∷ [];
  mnemonic = codes "JZ 0x1020";
  source = codes "sleigh";
  flow_kind = conditional_branch;
  direct_flow_targets = 0x1020 ∷ 0x1030 ∷ [];
  direct_call_targets = [];
  tail_flow_targets = 0x1080 ∷ [];
  fallthrough = some 0x1012;
  has_indirect_call = false;
}

abbrev call_xref : Xref
call_xref = record { from = 0x1004; to = 0x1080; kind = call; source = codes "sleigh" }

abbrev flow_xref : Xref
flow_xref = record { from = 0x1004; to = 0x1020; kind = flow; source = codes "sleigh" }

abbrev pending : UnresolvedFlow
pending = record { address = 0x1018; kind = indirect_branch; source = codes "sleigh" }

abbrev calls : List Call
calls =
    adds_function_seed 0x1000 0x40 (codes "main") (codes "elf-symbol") high
    ∷ demotes_seed 0x1000
    ∷ adds_function_seed 0x1000 0 [] (codes "dt-init") low
    ∷ adds_function main_function
    ∷ adds_basic_block 0x1000 (block 0x1010 0x1030 [])
    ∷ adds_instruction jump
    ∷ adds_xref call_xref
    ∷ adds_xref call_xref
    ∷ adds_unresolved_flow pending
    ∷ []

abbrev loaded : ProgramState
loaded = initial_state x86_64 8 (text_range ∷ []) []

abbrev session : ProgramState
session = run loaded calls

run-initial_state-IsValid_example :
    IsValid (run (initial_state x86_64 8 (text_range ∷ []) []) calls)
run-initial_state-IsValid_example =
    run-initial_state-IsValid x86_64 8 (text_range ∷ []) [] calls (omega arith)

-- The start of a known block inside another splits it, and the new block ends at the next one.
split_main :
    (insert_block [] main_function (block 0x1010 0x1030 [])).0.blocks
    ≡ block 0x1000 0x1010 [] ∷ block 0x1020 0x1040 [] ∷ block 0x1010 0x1020 [] ∷ []
unfolding insert_block update_same_start split_blocks cut_new cut_at cut_existing contains
    has_instruction_fallthrough_to
split_main = refl

session-IsValid : IsValid session
session-IsValid = run-initial_state-IsValid x86_64 8 (text_range ∷ []) [] calls (omega arith)

insert_block-BlocksAreWithin_example :
    BlocksAreWithin (insert_block [] main_function (block 0x1030 0x1060 [])).0
insert_block-BlocksAreWithin_example =
    insert_block-BlocksAreWithin [] main_function (block 0x1030 0x1060 []) (omega arith)
      (omega arith)

insert_block-BlocksAreApart_example :
    BlocksAreApart (insert_block [] main_function (block 0x1010 0x1030 [])).0
insert_block-BlocksAreApart_example =
    insert_block-BlocksAreApart [] main_function (block 0x1010 0x1030 []) (omega arith)
      (omega arith) ((inl (omega arith), tt), (tt, tt))

extend_function-EdgesAreClosed_example :
    All
      (EdgesAreClosed (extend_function main_function 0x1020 (0x1000 ∷ [])).0.blocks)
      (extend_function main_function 0x1020 (0x1000 ∷ [])).0.blocks
extend_function-EdgesAreClosed_example =
    extend_function-EdgesAreClosed main_function 0x1020 (0x1000 ∷ [])
      (unfold has_block_start in ((refl, tt), (tt, tt)))

drop_invalid-EdgesAreClosed_example :
    let blocks = block 0x1000 0x1010 (0x1010 ∷ 0x2000 ∷ []) ∷ block 0x1010 0x1020 [] ∷ [] in
    All (EdgesAreClosed (drop_invalid blocks blocks).0) (drop_invalid blocks blocks).0
drop_invalid-EdgesAreClosed_example =
    drop_invalid-EdgesAreClosed
      (block 0x1000 0x1010 (0x1010 ∷ 0x2000 ∷ []) ∷ block 0x1010 0x1020 [] ∷ [])

instructions_in_range-keep_if_example :
    instructions_in_range session 0x1000 0x1040
    ≡ map instruction_of (keep_if (in_range 0x1000 0x1040) session.instructions)
instructions_in_range-keep_if_example =
    instructions_in_range-keep_if session 0x1000 0x1040 session-IsValid.instructions.ordered

xrefs_by_index_example :
    (xrefs_from session 0x1004 ≡ keep_if (is_from 0x1004) session.xrefs)
    × (xrefs_to session 0x1004 ≡ keep_if (is_to 0x1004) session.xrefs)
xrefs_by_index_example = xrefs_by_index session 0x1004 session-IsValid.index

add_xref_effect_example : xrefs_from (add_xref session flow_xref) 0x1004 ≡ (
    if has_same_xref (xrefs_from session 0x1004) flow_xref
    then xrefs_from session 0x1004
    else xrefs_from session 0x1004 ++ flow_xref ∷ [])
add_xref_effect_example =
    add_xref_effect session flow_xref 0x1004 session-IsValid.index (omega arith) (omega arith)

add_unresolved_flow_effect_example :
    let r = add_unresolved_flow session pending in
    (has_flow r.0.unresolved_flows 0x1018 indirect_branch ≡ true)
    × (r.1 ≡ not (has_flow session.unresolved_flows 0x1018 indirect_branch))
add_unresolved_flow_effect_example = add_unresolved_flow_effect session pending (omega arith)

remove_unresolved_flow_effect_example :
    let r = remove_unresolved_flow session 0x1018 indirect_branch in
    (has_flow r.0.unresolved_flows 0x1018 indirect_call
      ≡ has_flow session.unresolved_flows 0x1018 indirect_call
        && not (same_key 0x1018 indirect_branch 0x1018 indirect_call))
    × (r.1 ≡ has_flow session.unresolved_flows 0x1018 indirect_branch)
remove_unresolved_flow_effect_example =
    remove_unresolved_flow_effect session 0x1018 0x1018 indirect_branch indirect_call
