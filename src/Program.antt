-- ===== src/Program.antt =====
-- include/notdec-bin2llvm/NativeAnalysis.h: `NativeProgramState`, the state that the native analyzers
-- share, and its records. The operations are in the modules below, one for each part of the state.
pub mod Seeds
pub mod Blocks
pub mod Functions
pub mod Xrefs
pub mod Instructions
pub mod Flows
pub mod Calls
mod Examples
use not_dec_bin2llvm.Common.{ℕ, List, [], ◌∷◌, ◌++◌, Option, Bool, Text, ◌+◌, ◌%◌, u64_mod}
use not_dec_bin2llvm.Memory.{MemoryRange}
use not_dec_bin2llvm.Memory.Loading.{SectionInfo}

-- `NativeFunctionConfidence`, strongest first.
pub data FunctionConfidence : Type 0 where
  high medium low : FunctionConfidence

-- `NativeFunctionSeed`. An empty `range_source` says that no range is known.
pub record FunctionSeed : Type 0 where
  pub address : ℕ
  pub size : ℕ
  pub is_entry : Bool
  pub range_start : ℕ
  pub range_end : ℕ
  pub range_source : Text
  pub primary_name : Text
  pub aliases : List Text
  pub sources : List Text
  pub is_pc_thunk : Bool
  pub pc_thunk_register : Text
  pub is_externally_visible : Bool
  pub confidence : FunctionConfidence

-- `NativeFunctionWorkItem`.
pub record FunctionWorkItem : Type 0 where
  pub address : ℕ
  pub source : Text

-- `NativeBasicBlock`: the half-open range [start, end) and the starts of the blocks that follow.
pub record BasicBlock : Type 0 where
  pub start : ℕ
  pub end : ℕ
  pub successors : List ℕ

-- `NativeFunction`.
pub record Function : Type 0 where
  pub entry : ℕ
  pub range_start : ℕ
  pub range_end : ℕ
  pub name : Text
  pub blocks : List BasicBlock
  pub source : Text
  pub is_externally_visible : Bool
  pub is_pc_thunk : Bool
  pub pc_thunk_register : Text

-- `NativeXrefKind` and `NativeXref`.
pub data XrefKind : Type 0 where
  flow call data_reference string : XrefKind

pub record Xref : Type 0 where
  pub from : ℕ
  pub to : ℕ
  pub kind : XrefKind
  pub source : Text

-- `NativeUnresolvedFlowKind` and `NativeUnresolvedFlow`.
pub data UnresolvedFlowKind : Type 0 where
  indirect_call indirect_branch indirect_tail_branch : UnresolvedFlowKind

pub record UnresolvedFlow : Type 0 where
  pub address : ℕ
  pub kind : UnresolvedFlowKind
  pub source : Text

-- `NativeInstructionFlowKind` and `NativeInstruction`.
pub data InstructionFlowKind : Type 0 where
  no_flow conditional_branch unconditional_branch indirect_jump trap return : InstructionFlowKind

pub record Instruction : Type 0 where
  pub address : ℕ
  pub size : ℕ
  pub bytes : List ℕ
  pub mnemonic : Text
  pub source : Text
  pub flow_kind : InstructionFlowKind
  pub direct_flow_targets : List ℕ
  pub direct_call_targets : List ℕ
  pub tail_flow_targets : List ℕ
  pub fallthrough : Option ℕ
  pub has_indirect_call : Bool

-- `NativeInstruction::end`, a 64-bit sum.
abbrev pub instruction_end : Instruction → ℕ
instruction_end instruction = (instruction.address + instruction.size) % u64_mod

-- `NativeRelocationInfo` and `NativePltEntry`. The addend is the 64-bit pattern of the `int64_t`.
pub record RelocationInfo : Type 0 where
  pub address : ℕ
  pub type : ℕ
  pub type_name : Text
  pub symbol_name : Text
  pub symbol_value : ℕ
  pub addend : ℕ
  pub table_kind : Text
  pub status : Text
  pub computed_value : Option ℕ

pub record PltEntry : Type 0 where
  pub stub_address : ℕ
  pub got_address : ℕ
  pub symbol_name : Text

pub data ControlFlowAuthority : Type 0 where
  unknown gtirb : ControlFlowAuthority

-- The machine types that the program tells apart.
pub data Machine : Type 0 where
  x86_64 i386 other : Machine

pub record ProgramState : Type 0 where
  pub machine : Machine
  pub pointer_size : ℕ
  pub memory_ranges : List MemoryRange
  pub sections : List SectionInfo
  pub function_seeds : List (ℕ × FunctionSeed)
  pub function_worklist : List FunctionWorkItem
  pub source_counts : List (Text × ℕ)
  pub relocations : List RelocationInfo
  pub relocated_pointers : List (ℕ × ℕ)
  pub plt_entries : List PltEntry
  pub functions : List (ℕ × Function)
  pub xrefs : List Xref
  pub unresolved_flows : List UnresolvedFlow
  pub xrefs_by_from : List (ℕ × List ℕ)
  pub xrefs_by_to : List (ℕ × List ℕ)
  pub instructions : List (ℕ × Instruction)
  pub notes : List Text
  pub control_flow_authority : ControlFlowAuthority

-- The state before the analyzers run: all maps empty.
unfoldable pub initial_state : Machine → ℕ → List MemoryRange → List SectionInfo → ProgramState
initial_state machine pointer_size ranges sections = record {
  machine = machine;
  pointer_size = pointer_size;
  memory_ranges = ranges;
  sections = sections;
  function_seeds = [];
  function_worklist = [];
  source_counts = [];
  relocations = [];
  relocated_pointers = [];
  plt_entries = [];
  functions = [];
  xrefs = [];
  unresolved_flows = [];
  xrefs_by_from = [];
  xrefs_by_to = [];
  instructions = [];
  notes = [];
  control_flow_authority = unknown;
}

-- `addNote`.
unfoldable pub add_note : ProgramState → Text → ProgramState
add_note s note = record s { notes = s.notes ++ note ∷ [] }
