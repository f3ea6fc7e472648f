-- ===== src/Analyzers/Examples.antt =====
-- The analyzer theorems at a small 32-bit file, and runs of the code.
use not_dec_bin2llvm.Common.{
  ℕ, List, [], ◌∷◌, some, true, false, ◌≡◌, refl, arith, Text, codes, add_unique, contains, nat_eq,
}
use not_dec_bin2llvm.OrderedMap
use not_dec_bin2llvm.Memory.{
  MemoryRange, is_executable_address, read_bytes, read_raw_pointer, read_signed32,
}
use not_dec_bin2llvm.Program.{Function, ProgramState, i386, unknown}
use not_dec_bin2llvm.Program.Functions.{function_containing, containing_loop}
use not_dec_bin2llvm.Program.Flows.{read_pointer}
use not_dec_bin2llvm.Analyzers.{Analyzer}
use not_dec_bin2llvm.Analyzers.Entries.{add_dynamic_array_entries, DynamicEntry, init}
use not_dec_bin2llvm.Analyzers.Entries.Arrays.{IsReported, PointsAt, dynamic_array-IsReported}
use not_dec_bin2llvm.Analyzers.Thunks.{
  pc_thunk_register_at, thunk_register, thunk_function, insert_thunk, add_thunk,
}
use not_dec_bin2llvm.Analyzers.Thunks.Shadow.{add_thunk_shadow}
use not_dec_bin2llvm.Analyzers.Jumps.{
  JumpDispatch, targets_loop, entry_target, add_target, function_contains_block_start,
  read_x86_pic_i32_targets,
}
use not_dec_bin2llvm.Analyzers.Jumps.Tables.{
  table_targets, sorted_out, read_x86_pic_i32_targets_lem,
}

-- Two thunks in a row, `mov (%esp), %ebx; ret` and `mov (%esp), %ecx; ret`.
abbrev code_range : MemoryRange
code_range = record {
  start = 0x1000;
  size = 0x10;
  readable = true;
  writable = false;
  executable = true;
  bytes = 0x8b ∷ 0x1c ∷ 0x24 ∷ 0xc3 ∷ 0x8b ∷ 0x0c ∷ 0x24 ∷ 0xc3 ∷ 0x90 ∷ [];
}

-- An array of two pointers to them, which serves as a jump table of one entry too.
abbrev data_range : MemoryRange
data_range = record {
  start = 0x2000;
  size = 0x10;
  readable = true;
  writable = true;
  executable = false;
  bytes = 0 ∷ 0x10 ∷ 0 ∷ 0 ∷ 4 ∷ 0x10 ∷ 0 ∷ 0 ∷ 0 ∷ 0xf0 ∷ 0xff ∷ 0xff ∷ [];
}

abbrev state : ProgramState
state = record {
  machine = i386;
  pointer_size = 4;
  memory_ranges = code_range ∷ data_range ∷ [];
  sections = [];
  function_seeds = [];
  function_worklist = [];
  source_counts = [];
  relocations = [];
  relocated_pointers = [];
  plt_entries = [];
  functions = [];
  xrefs = [];
  unresolved_flows = [];
  xrefs_by_from = [];
  xrefs_by_to = [];
  instructions = [];
  notes = [];
  control_flow_authority = unknown;
}

ebx_at : pc_thunk_register_at state 0x1000 ≡ some (codes "EBX")
unfolding pc_thunk_register_at is_executable_address read_bytes thunk_register
ebx_at = refl

ecx_at : pc_thunk_register_at state 0x1004 ≡ some (codes "ECX")
unfolding pc_thunk_register_at is_executable_address read_bytes thunk_register
ecx_at = refl

table_entry : read_x86_pic_i32_targets state 0x2008 1 false ≡ some (0x1008 ∷ [], false)
unfolding read_x86_pic_i32_targets targets_loop entry_target read_signed32 is_executable_address
    add_target function_contains_block_start function_containing add_unique contains
table_entry = refl

abbrev analyzer : Text → ℕ → Analyzer
analyzer name priority = record { name = name; priority = priority; run = λ s. s }

second_pointer : PointsAt state 0x2004 0x1004
unfolding read_pointer OrderedMap.find read_raw_pointer is_executable_address
second_pointer = (refl, omega arith, refl)

dynamic_array-IsReported_example :
    IsReported
      (codes "dt-init-array")
      0x1004
      (add_dynamic_array_entries state 0x2000 8 (codes "dt-init-array"))
dynamic_array-IsReported_example =
    dynamic_array-IsReported state 0x2000 8 (codes "dt-init-array") 1 0x1004 (omega arith)
      (omega arith) (omega arith) (omega arith) second_pointer

add_thunk_shadow_example :
    (add_thunk state 0x1000 ≡ insert_thunk state 0x1000 (codes "EBX"))
    × (add_thunk (add_thunk state 0x1000) 0x1004 ≡ add_thunk state 0x1000)
add_thunk_shadow_example =
    add_thunk_shadow state 0x1000 (codes "EBX") (omega arith) (omega arith) ebx_at
      (unfold function_containing containing_loop in refl) (unfold OrderedMap.find in refl)

read_x86_pic_i32_targets_lem_example :
    read_x86_pic_i32_targets state 0x2008 1 true
    ≡ sorted_out state true ([], true) (table_targets 1 state 0x2008 0)
read_x86_pic_i32_targets_lem_example = read_x86_pic_i32_targets_lem state 0x2008 1 true

abbrev no_function : Function
no_function = thunk_function 0x1000 (codes "EBX")

abbrev dispatch : JumpDispatch
dispatch = record { block_start = 0x1000; table_base = 0x2008; entry_count = 1 }

abbrev entries : List DynamicEntry
entries = record { tag = init; value = 0x1000 } ∷ []
