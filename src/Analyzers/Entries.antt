-- ===== src/Analyzers/Entries.antt =====
-- lib/NativeAnalysis.cpp: `ElfLoadAnalyzer` and `ElfEntryAnalyzer`, which reports the entry point and
-- the functions that the dynamic section names.
pub mod Arrays
pub mod Validity
use not_dec_bin2llvm.Common.{
  ℕ, zero, suc, ◌+◌, ◌/◌, ◌%◌, List, [], ◌∷◌, ◌++◌, Option, none, some, Bool, true, false, not, leb,
  ltb, ◌==◌, if◌then◌else◌, ◌&&◌, ◌||◌, any, Text, codes, add64, u64_mod,
}
use not_dec_bin2llvm.Memory.{MemoryRange, is_executable_address}
use not_dec_bin2llvm.Numbers.{hex_address}
use not_dec_bin2llvm.Program.{ProgramState, high, add_note}
use not_dec_bin2llvm.Program.Seeds.{add_function_seed}
use not_dec_bin2llvm.Program.Flows.{read_pointer}

-- `ElfLoadAnalyzer::run`.
unfoldable pub run_elf_load : ProgramState → ProgramState
run_elf_load s =
    if any (λ (range : MemoryRange). range.executable) s.memory_ranges
    then s
    else add_note s (codes "ELF has no executable PT_LOAD segment")

pub outside_note : Text → ℕ → Text
outside_note source address =
    source ++ (codes " points outside executable memory: " ++ hex_address address)

pub unreadable_note : Text → ℕ → Text
unreadable_note source address =
    source ++ (codes " pointer is unreadable at " ++ hex_address address)

-- `addDynamicScalarEntry`.
unfoldable pub add_dynamic_scalar_entry : ProgramState → ℕ → Text → ProgramState
unfolding outside_note
add_dynamic_scalar_entry s address source =
    if address == 0
    then s
    else if not (is_executable_address s.memory_ranges address)
    then add_note s (outside_note source address)
    else (add_function_seed s address 0 [] source high).0

-- One round of the loop of `addDynamicArrayEntries`.
unfoldable pub add_array_entry : ProgramState → ℕ → Text → ProgramState
unfolding unreadable_note
add_array_entry s pointer_address source = elim (read_pointer s pointer_address) [
  | none ↦ add_note s (unreadable_note source pointer_address)
  | some target ↦ add_dynamic_scalar_entry s target source
]

-- The loop, with its 64-bit sums. Where the size is within a pointer of 2 ^ 64 the sum in the
-- condition wraps and the source does not stop; here the rounds run out.
unfoldable pub array_loop : ℕ → ℕ → ProgramState → ℕ → ℕ → Text → ℕ → ProgramState
array_loop zero pointer_size s array_address array_size source offset = s
array_loop (suc rounds) pointer_size s array_address array_size source offset =
    let rest =
      array_loop rounds pointer_size (add_array_entry s (add64 array_address offset) source)
        array_address array_size source (add64 offset pointer_size) in
    if leb (add64 offset pointer_size) array_size then rest else s

-- `addDynamicArrayEntries`.
unfoldable pub add_dynamic_array_entries : ProgramState → ℕ → ℕ → Text → ProgramState
add_dynamic_array_entries s array_address array_size source =
    if array_address == 0 || array_size == 0
    then s
    else if s.pointer_size == 0 || ltb array_size s.pointer_size
    then s
    else array_loop (array_size / s.pointer_size) s.pointer_size s array_address array_size source 0

-- The tags that the analyzer reads of the dynamic section, and its entries.
pub data DynamicTag : Type 0 where
  init fini init_array init_arraysz preinit_array preinit_arraysz fini_array : DynamicTag
  fini_arraysz other_tag : DynamicTag

pub record DynamicEntry : Type 0 where
  pub tag : DynamicTag
  pub value : ℕ

-- The six variables that the loop over the entries fills in.
pub record DynamicArrays : Type 0 where
  pub init_address : ℕ
  pub init_size : ℕ
  pub preinit_address : ℕ
  pub preinit_size : ℕ
  pub fini_address : ℕ
  pub fini_size : ℕ

unfoldable pub note_array : DynamicArrays → DynamicEntry → DynamicArrays
note_array arrays entry = elim entry.tag [
  | init_array ↦ record arrays { init_address = entry.value }
  | init_arraysz ↦ record arrays { init_size = entry.value }
  | preinit_array ↦ record arrays { preinit_address = entry.value }
  | preinit_arraysz ↦ record arrays { preinit_size = entry.value }
  | fini_array ↦ record arrays { fini_address = entry.value }
  | fini_arraysz ↦ record arrays { fini_size = entry.value }
  | _ ↦ arrays
]

unfoldable pub add_dynamic_function : ProgramState → DynamicEntry → ProgramState
add_dynamic_function s entry = elim entry.tag [
  | init ↦ add_dynamic_scalar_entry s entry.value (codes "dt-init")
  | fini ↦ add_dynamic_scalar_entry s entry.value (codes "dt-fini")
  | _ ↦ s
]

unfoldable pub read_dynamic :
    ProgramState → DynamicArrays → List DynamicEntry → ProgramState × DynamicArrays
read_dynamic s arrays [] = (s, arrays)
read_dynamic s arrays (entry ∷ entries) =
    read_dynamic (add_dynamic_function s entry) (note_array arrays entry) entries

pub no_arrays : DynamicArrays
no_arrays = record {
  init_address = 0;
  init_size = 0;
  preinit_address = 0;
  preinit_size = 0;
  fini_address = 0;
  fini_size = 0;
}

unfoldable pub add_arrays : ProgramState × DynamicArrays → ProgramState
add_arrays (s, arrays) =
    let after_init =
      add_dynamic_array_entries s arrays.init_address arrays.init_size (codes "dt-init-array") in
    let after_preinit =
      add_dynamic_array_entries after_init arrays.preinit_address arrays.preinit_size
        (codes "dt-preinit-array") in
    add_dynamic_array_entries after_preinit arrays.fini_address arrays.fini_size
      (codes "dt-fini-array")

-- `ElfEntryAnalyzer::run`, with the entry point and the dynamic entries that the ELF library reads.
unfoldable pub run_elf_entry : Bool → ℕ → List DynamicEntry → ProgramState → ProgramState
unfolding no_arrays
run_elf_entry skip_runtime_functions entrypoint entries s =
    if skip_runtime_functions
    then add_note s (codes "runtime filter skipped ELF entry/init/fini seeds")
    else add_arrays
        (read_dynamic (add_dynamic_scalar_entry s entrypoint (codes "elf-entry")) no_arrays entries)
