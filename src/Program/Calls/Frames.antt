-- ===== src/Program/Calls/Frames.antt =====
-- Which parts of the state an operation leaves alone.
use not_dec_bin2llvm.Common.{ℕ, List, Bool, Text, ◌≡◌, arith}
use not_dec_bin2llvm.Program.{
  FunctionConfidence, BasicBlock, Function, Xref, UnresolvedFlow, UnresolvedFlowKind, Instruction,
  ControlFlowAuthority, ProgramState, add_note,
}
use not_dec_bin2llvm.Program.Seeds.{
  insert_seed, merge_seed, set_range, add_function_seed, mark_function_seed_externally_visible,
  demote_function_seed_to_range_hint, add_function_range,
}
use not_dec_bin2llvm.Program.Functions.{add_function, remove_function}
use not_dec_bin2llvm.Program.Blocks.{
  store_function, add_basic_block, add_basic_block_successors,
  remove_invalid_basic_block_successors,
}
use not_dec_bin2llvm.Program.Instructions.{store_instruction, update_instruction, add_instruction}
use not_dec_bin2llvm.Program.Xrefs.{add_xref}
use not_dec_bin2llvm.Program.Flows.{
  add_unresolved_flow, remove_unresolved_flow, set_control_flow_authority,
}

abbrev pub SameRanges : ProgramState → ProgramState → Type 0
SameRanges s t = t.memory_ranges ≡ s.memory_ranges

abbrev pub SameSeeds : ProgramState → ProgramState → Type 0
SameSeeds s t = (t.function_seeds ≡ s.function_seeds) × (t.function_worklist ≡ s.function_worklist)

abbrev pub SameFunctions : ProgramState → ProgramState → Type 0
SameFunctions s t = t.functions ≡ s.functions

abbrev pub SameInstructions : ProgramState → ProgramState → Type 0
SameInstructions s t = t.instructions ≡ s.instructions

abbrev pub SameXrefs : ProgramState → ProgramState → Type 0
SameXrefs s t =
    (t.xrefs ≡ s.xrefs) × (t.xrefs_by_from ≡ s.xrefs_by_from) × (t.xrefs_by_to ≡ s.xrefs_by_to)

abbrev pub SameFlows : ProgramState → ProgramState → Type 0
SameFlows s t = t.unresolved_flows ≡ s.unresolved_flows

-- All but one part.
pub record OnlySeeds (s t : ProgramState) : Type 0 where
  pub ranges : SameRanges s t
  pub functions : SameFunctions s t
  pub instructions : SameInstructions s t
  pub xrefs : SameXrefs s t
  pub flows : SameFlows s t

pub record OnlyFunctions (s t : ProgramState) : Type 0 where
  pub ranges : SameRanges s t
  pub seeds : SameSeeds s t
  pub instructions : SameInstructions s t
  pub xrefs : SameXrefs s t
  pub flows : SameFlows s t

pub record OnlyInstructions (s t : ProgramState) : Type 0 where
  pub ranges : SameRanges s t
  pub seeds : SameSeeds s t
  pub functions : SameFunctions s t
  pub xrefs : SameXrefs s t
  pub flows : SameFlows s t

pub record OnlyXrefs (s t : ProgramState) : Type 0 where
  pub ranges : SameRanges s t
  pub seeds : SameSeeds s t
  pub functions : SameFunctions s t
  pub instructions : SameInstructions s t
  pub flows : SameFlows s t

pub record OnlyFlows (s t : ProgramState) : Type 0 where
  pub ranges : SameRanges s t
  pub seeds : SameSeeds s t
  pub functions : SameFunctions s t
  pub instructions : SameInstructions s t
  pub xrefs : SameXrefs s t

module _ (s : ProgramState) where
  pub add_function_seed-OnlySeeds :
      (address size : ℕ) (name source : Text) (confidence : FunctionConfidence)
      → OnlySeeds s (add_function_seed s address size name source confidence).0
  unfolding add_function_seed insert_seed merge_seed
  add_function_seed-OnlySeeds address size name source confidence = ground arith

  pub mark_seed-OnlySeeds :
      (address : ℕ) → OnlySeeds s (mark_function_seed_externally_visible s address).0
  unfolding mark_function_seed_externally_visible
  mark_seed-OnlySeeds address = ground arith

  pub demote_seed-OnlySeeds :
      (address : ℕ) → OnlySeeds s (demote_function_seed_to_range_hint s address).0
  unfolding demote_function_seed_to_range_hint
  demote_seed-OnlySeeds address = ground arith

  pub add_function_range-OnlySeeds :
      (address start end : ℕ) (source : Text)
      → OnlySeeds s (add_function_range s address start end source)
  unfolding add_function_range set_range
  add_function_range-OnlySeeds address start end source = ground arith

  pub add_function-OnlyFunctions : (f : Function) → OnlyFunctions s (add_function s f).0
  unfolding add_function add_note
  add_function-OnlyFunctions f = ground arith

  pub remove_function-OnlyFunctions : (entry : ℕ) → OnlyFunctions s (remove_function s entry).0
  unfolding remove_function
  remove_function-OnlyFunctions entry = ground arith

  pub add_basic_block-OnlyFunctions :
      (entry : ℕ) (b : BasicBlock) → OnlyFunctions s (add_basic_block s entry b).0
  unfolding add_basic_block store_function
  add_basic_block-OnlyFunctions entry b = ground arith

  pub add_basic_block_successors-OnlyFunctions :
      (entry start : ℕ) (targets : List ℕ)
      → OnlyFunctions s (add_basic_block_successors s entry start targets).0
  unfolding add_basic_block_successors store_function
  add_basic_block_successors-OnlyFunctions entry start targets = ground arith

  pub remove_invalid-OnlyFunctions :
      (entry : ℕ) → OnlyFunctions s (remove_invalid_basic_block_successors s entry).0
  unfolding remove_invalid_basic_block_successors store_function
  remove_invalid-OnlyFunctions entry = ground arith

  pub add_instruction-OnlyInstructions :
      (i : Instruction) → OnlyInstructions s (add_instruction s i).0
  unfolding add_instruction add_note
  add_instruction-OnlyInstructions i = ground arith

  pub update_instruction-OnlyInstructions :
      (address : ℕ) (change : Instruction → Instruction × Bool)
      → OnlyInstructions s (update_instruction s address change).0
  unfolding update_instruction store_instruction
  update_instruction-OnlyInstructions address change = ground arith

  pub add_xref-OnlyXrefs : (x : Xref) → OnlyXrefs s (add_xref s x)
  unfolding add_xref
  add_xref-OnlyXrefs x = ground arith

  pub add_unresolved_flow-OnlyFlows :
      (flow : UnresolvedFlow) → OnlyFlows s (add_unresolved_flow s flow).0
  unfolding add_unresolved_flow
  add_unresolved_flow-OnlyFlows flow = ground arith

  pub remove_unresolved_flow-OnlyFlows :
      (address : ℕ) (kind : UnresolvedFlowKind)
      → OnlyFlows s (remove_unresolved_flow s address kind).0
  unfolding remove_unresolved_flow
  remove_unresolved_flow-OnlyFlows address kind = ground arith

  pub set_control_flow_authority-OnlyFlows :
      (authority : ControlFlowAuthority)
      → OnlyFlows s (set_control_flow_authority s authority)
        × SameFlows s (set_control_flow_authority s authority)
  unfolding set_control_flow_authority add_note
  set_control_flow_authority-OnlyFlows authority = ground arith
