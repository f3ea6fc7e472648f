-- ===== src/Program/Calls.antt =====
-- include/notdec-bin2llvm/NativeAnalysis.h: the public operations that change `NativeProgramState`, as
-- calls of an analyzer, and histories of calls. An operation's result is dropped here.
pub mod Frames
pub mod Invariant
use not_dec_bin2llvm.Common.{ℕ, List, [], ◌∷◌, Text}
use not_dec_bin2llvm.Program.{
  FunctionConfidence, BasicBlock, Function, Xref, UnresolvedFlow, UnresolvedFlowKind, Instruction,
  RelocationInfo, PltEntry, ControlFlowAuthority, ProgramState, add_note,
}
use not_dec_bin2llvm.Program.Seeds.{
  add_function_seed, mark_function_seed_externally_visible, demote_function_seed_to_range_hint,
  add_function_range,
}
use not_dec_bin2llvm.Program.Functions.{add_function, remove_function}
use not_dec_bin2llvm.Program.Blocks.{
  add_basic_block, add_basic_block_successors, remove_invalid_basic_block_successors,
}
use not_dec_bin2llvm.Program.Instructions.{
  add_instruction, add_instruction_direct_flow_targets, mark_instruction_tail_flow_target,
  restore_instruction_tail_flow_target,
}
use not_dec_bin2llvm.Program.Xrefs.{add_xref}
use not_dec_bin2llvm.Program.Flows.{
  add_unresolved_flow, remove_unresolved_flow, set_control_flow_authority, add_relocation,
  add_relocated_pointer, add_plt_entry,
}

pub data Call : Type 0 where
  adds_function_seed : ℕ → ℕ → Text → Text → FunctionConfidence → Call
  marks_seed_visible : ℕ → Call
  demotes_seed : ℕ → Call
  adds_function_range : ℕ → ℕ → ℕ → Text → Call
  adds_function : Function → Call
  removes_function : ℕ → Call
  adds_basic_block : ℕ → BasicBlock → Call
  adds_successors : ℕ → ℕ → List ℕ → Call
  removes_invalid_successors : ℕ → Call
  adds_instruction : Instruction → Call
  adds_direct_targets : ℕ → List ℕ → Call
  marks_tail_target : ℕ → ℕ → Call
  restores_tail_target : ℕ → ℕ → Call
  adds_xref : Xref → Call
  adds_unresolved_flow : UnresolvedFlow → Call
  removes_unresolved_flow : ℕ → UnresolvedFlowKind → Call
  sets_authority : ControlFlowAuthority → Call
  adds_relocation : RelocationInfo → Call
  adds_relocated_pointer : ℕ → ℕ → Call
  adds_plt_entry : PltEntry → Call
  adds_note : Text → Call

unfoldable pub step : ProgramState → Call → ProgramState
step s (adds_function_seed address size name source confidence) =
    (add_function_seed s address size name source confidence).0
step s (marks_seed_visible address) = (mark_function_seed_externally_visible s address).0
step s (demotes_seed address) = (demote_function_seed_to_range_hint s address).0
step s (adds_function_range address start end source) =
    add_function_range s address start end source
step s (adds_function function) = (add_function s function).0
step s (removes_function entry) = (remove_function s entry).0
step s (adds_basic_block entry block) = (add_basic_block s entry block).0
step s (adds_successors entry start successors) =
    (add_basic_block_successors s entry start successors).0
step s (removes_invalid_successors entry) = (remove_invalid_basic_block_successors s entry).0
step s (adds_instruction instruction) = (add_instruction s instruction).0
step s (adds_direct_targets address targets) =
    (add_instruction_direct_flow_targets s address targets).0
step s (marks_tail_target address target) = (mark_instruction_tail_flow_target s address target).0
step s (restores_tail_target address target) =
    (restore_instruction_tail_flow_target s address target).0
step s (adds_xref xref) = add_xref s xref
step s (adds_unresolved_flow flow) = (add_unresolved_flow s flow).0
step s (removes_unresolved_flow address kind) = (remove_unresolved_flow s address kind).0
step s (sets_authority authority) = set_control_flow_authority s authority
step s (adds_relocation relocation) = add_relocation s relocation
step s (adds_relocated_pointer address value) = add_relocated_pointer s address value
step s (adds_plt_entry entry) = add_plt_entry s entry
step s (adds_note note) = add_note s note

unfoldable pub run : ProgramState → List Call → ProgramState
run s [] = s
run s (c ∷ calls) = run (step s c) calls
