-- ===== src/Analyzers/Entries/Validity.antt =====
-- `ElfLoadAnalyzer` and `ElfEntryAnalyzer` keep the state well formed.
use not_dec_bin2llvm.Common.{
  ℕ, zero, suc, ◌/◌, List, [], ◌∷◌, Bool, true, false, leb, ◌==◌, any, add64, Text, codes,
  Bool-cases, Option-cases, inl, inr, arith,
}
use not_dec_bin2llvm.Memory.{MemoryRange, is_executable_address}
use not_dec_bin2llvm.Program.{FunctionConfidence, ProgramState, high, add_note}
use not_dec_bin2llvm.Program.Seeds.{add_function_seed}
use not_dec_bin2llvm.Program.Flows.{read_pointer}
use not_dec_bin2llvm.Program.Calls.{step, adds_function_seed, adds_note}
use not_dec_bin2llvm.Program.Calls.Invariant.{IsValid, step-IsValid}
use not_dec_bin2llvm.Analyzers.Entries.{
  run_elf_load, add_dynamic_scalar_entry, add_array_entry, array_loop, add_dynamic_array_entries,
  DynamicEntry, DynamicTag, init, fini, init_array, init_arraysz, preinit_array, preinit_arraysz,
  fini_array, fini_arraysz, other_tag, DynamicArrays, add_dynamic_function, note_array,
  read_dynamic, add_arrays, run_elf_entry, outside_note, unreadable_note, no_arrays,
}

pub note-IsValid : (s : ProgramState) (note : Text) → IsValid s → IsValid (add_note s note)
unfolding step
note-IsValid s note v = step-IsValid s (adds_note note) tt v

pub seed-IsValid :
    (s : ProgramState) (address size : ℕ) (name source : Text) (confidence : FunctionConfidence)
    → IsValid s
    → IsValid (add_function_seed s address size name source confidence).0
unfolding step
seed-IsValid s address size name source confidence v =
    step-IsValid s (adds_function_seed address size name source confidence) tt v

pub elf_load-IsValid : (s : ProgramState) → IsValid s → IsValid (run_elf_load s)
unfolding run_elf_load
elf_load-IsValid s v =
    elim (Bool-cases (any (λ (range : MemoryRange). range.executable) s.memory_ranges)) [
      | inl executable ↦ rw executable v
      | inr none_executable ↦
          rw none_executable (note-IsValid s (codes "ELF has no executable PT_LOAD segment") v)
    ]

scalar_entry-IsValid :
    (s : ProgramState) (address : ℕ) (source : Text)
    → IsValid s
    → IsValid (add_dynamic_scalar_entry s address source)
unfolding add_dynamic_scalar_entry
scalar_entry-IsValid s address source v = elim (Bool-cases (address == 0)) [
  | inl zero_address ↦ rw zero_address v
  | inr nonzero ↦ elim (Bool-cases (is_executable_address s.memory_ranges address)) [
    | inl executable ↦ rw (nonzero, executable) (seed-IsValid s address 0 [] source high v)
    | inr outside ↦ rw (nonzero, outside) (note-IsValid s (outside_note source address) v)
  ]
]

array_entry-IsValid :
    (s : ProgramState) (address : ℕ) (source : Text)
    → IsValid s
    → IsValid (add_array_entry s address source)
unfolding add_array_entry
array_entry-IsValid s address source v = elim (Option-cases (read_pointer s address)) [
  | inl missing ↦ rw (missing, add_array_entry) (note-IsValid s (unreadable_note source address) v)
  | inr (target, found) ↦ rw (found, add_array_entry) (scalar_entry-IsValid s target source v)
]

array_loop-IsValid :
    (rounds pointer_size : ℕ) (s : ProgramState) (array_address array_size : ℕ) (source : Text)
    (offset : ℕ)
    → IsValid s
    → IsValid (array_loop rounds pointer_size s array_address array_size source offset)
unfolding array_loop
array_loop-IsValid zero pointer_size s array_address array_size source offset v = v
array_loop-IsValid (suc rounds) pointer_size s array_address array_size source offset v =
    elim (Bool-cases (leb (add64 offset pointer_size) array_size)) [
      | inl more ↦ rw more (
          array_loop-IsValid rounds pointer_size
            (add_array_entry s (add64 array_address offset) source) array_address array_size source
            (add64 offset pointer_size)
            (array_entry-IsValid s (add64 array_address offset) source v))
      | inr done ↦ rw done v
    ]

array-IsValid :
    (s : ProgramState) (array_address array_size : ℕ) (source : Text)
    → IsValid s
    → IsValid (add_dynamic_array_entries s array_address array_size source)
unfolding add_dynamic_array_entries
array-IsValid s array_address array_size source v =
    let looped =
      array_loop-IsValid (array_size / s.pointer_size) s.pointer_size s array_address array_size
        source 0 v in
    ground (arith, v, looped)

tagged-IsValid :
    (s : ProgramState) (tag : DynamicTag) (value : ℕ)
    → IsValid s
    → IsValid (add_dynamic_function s (record { tag = tag; value = value }))
unfolding add_dynamic_function
tagged-IsValid s init value v = scalar_entry-IsValid s value (codes "dt-init") v
tagged-IsValid s fini value v = scalar_entry-IsValid s value (codes "dt-fini") v
tagged-IsValid s init_array value v = v
tagged-IsValid s init_arraysz value v = v
tagged-IsValid s preinit_array value v = v
tagged-IsValid s preinit_arraysz value v = v
tagged-IsValid s fini_array value v = v
tagged-IsValid s fini_arraysz value v = v
tagged-IsValid s other_tag value v = v

dynamic_function-IsValid :
    (s : ProgramState) (entry : DynamicEntry) → IsValid s → IsValid (add_dynamic_function s entry)
dynamic_function-IsValid s entry v = tagged-IsValid s entry.tag entry.value v

read_dynamic-IsValid :
    (s : ProgramState) (arrays : DynamicArrays) (entries : List DynamicEntry)
    → IsValid s
    → IsValid (read_dynamic s arrays entries).0
unfolding read_dynamic
read_dynamic-IsValid s arrays [] v = v
read_dynamic-IsValid s arrays (entry ∷ entries) v =
    read_dynamic-IsValid (add_dynamic_function s entry) (note_array arrays entry) entries
      (dynamic_function-IsValid s entry v)

arrays-IsValid :
    (s : ProgramState) (arrays : DynamicArrays) → IsValid s → IsValid (add_arrays (s, arrays))
unfolding add_arrays
arrays-IsValid s arrays v =
    let after_init =
      add_dynamic_array_entries s arrays.init_address arrays.init_size (codes "dt-init-array") in
    let after_preinit =
      add_dynamic_array_entries after_init arrays.preinit_address arrays.preinit_size
        (codes "dt-preinit-array") in
    array-IsValid after_preinit arrays.fini_address arrays.fini_size (codes "dt-fini-array") (
      array-IsValid after_init arrays.preinit_address arrays.preinit_size (codes "dt-preinit-array")
        (array-IsValid s arrays.init_address arrays.init_size (codes "dt-init-array") v))

pub elf_entry-IsValid :
    (skip_runtime_functions : Bool) (entrypoint : ℕ) (entries : List DynamicEntry)
    (s : ProgramState)
    → IsValid s
    → IsValid (run_elf_entry skip_runtime_functions entrypoint entries s)
unfolding run_elf_entry
elf_entry-IsValid true entrypoint entries s v =
    note-IsValid s (codes "runtime filter skipped ELF entry/init/fini seeds") v
elf_entry-IsValid false entrypoint entries s v =
    let start = add_dynamic_scalar_entry s entrypoint (codes "elf-entry") in
    let r = read_dynamic start no_arrays entries in
    arrays-IsValid r.0 r.1 (
      read_dynamic-IsValid start no_arrays entries
        (scalar_entry-IsValid s entrypoint (codes "elf-entry") v))
