-- ===== src/Analyzers/Relocations.antt =====
-- lib/NativeAnalysis.cpp: `RelocationPltAnalyzer`, which applies relocations and finds the stubs of
-- external functions. What the ELF library reports of a relocation is an argument.
pub mod Plt
pub mod Stubs
pub mod Tables
pub mod Validity
mod Examples
use not_dec_bin2llvm.Common.{
  ℕ, ◌+◌, ◌-◌, ◌*◌, ◌/◌, ◌%◌, List, [], ◌∷◌, ◌++◌, Option, none, some, Bool, true, false, not, ltb,
  leb, ◌==◌, if◌then◌else◌, ◌&&◌, ◌||◌, Text, codes, is_empty, text_beq, length, add64,
}
use not_dec_bin2llvm.Memory.{
  is_mapped_address, is_executable_address, looks_like_read_only_c_string, read_raw_pointer,
}
use not_dec_bin2llvm.Memory.Loading.{SectionInfo}
use not_dec_bin2llvm.Numbers.{hex_address}
use not_dec_bin2llvm.Program.{
  Machine, x86_64, i386, other, RelocationInfo, XrefKind, flow, data_reference, string,
  ProgramState, add_note,
}
use not_dec_bin2llvm.Program.Xrefs.{add_xref}
use not_dec_bin2llvm.Program.Flows.{add_relocation, add_relocated_pointer}
use not_dec_bin2llvm.Analyzers.Relocations.Plt.{add_plt_entries, add_plt_got_entries}

-- The relocation types that the source names, and the others.
pub data RelocationType : Type 0 where
  x86_64_relative x86_64_relative64 x86_relative x86_64_glob_dat : RelocationType
  x86_glob_dat x86_64_jump_slot x86_jump_slot x86_64_64 x86_32 : RelocationType
  x86_64_irelative x86_irelative other_type : RelocationType

pub record Symbol : Type 0 where
  pub name : Text
  pub value : ℕ
  pub is_function : Bool

-- A relocation of the file; the addend is the 64-bit pattern of the `int64_t`.
pub record Relocation : Type 0 where
  pub address : ℕ
  pub type : RelocationType
  pub type_value : ℕ
  pub type_name : Text
  pub purpose_name : Text
  pub addend : ℕ
  pub symbol : Option Symbol

unfoldable pub supports_relocation_plt_analysis : Machine → Bool
supports_relocation_plt_analysis x86_64 = true
supports_relocation_plt_analysis i386 = true
supports_relocation_plt_analysis other = false

unfoldable pub is_relative_relocation : Machine → RelocationType → Bool
is_relative_relocation x86_64 x86_64_relative = true
is_relative_relocation x86_64 x86_64_relative64 = true
is_relative_relocation i386 x86_relative = true
is_relative_relocation _ _ = false

unfoldable pub is_glob_dat_relocation : Machine → RelocationType → Bool
is_glob_dat_relocation x86_64 x86_64_glob_dat = true
is_glob_dat_relocation i386 x86_glob_dat = true
is_glob_dat_relocation _ _ = false

unfoldable pub is_jump_slot_relocation : Machine → RelocationType → Bool
is_jump_slot_relocation x86_64 x86_64_jump_slot = true
is_jump_slot_relocation i386 x86_jump_slot = true
is_jump_slot_relocation _ _ = false

unfoldable pub is_absolute_external_function_pointer_relocation : Machine → RelocationType → Bool
is_absolute_external_function_pointer_relocation x86_64 x86_64_64 = true
is_absolute_external_function_pointer_relocation i386 x86_32 = true
is_absolute_external_function_pointer_relocation _ _ = false

unfoldable pub is_i_relative_relocation : Machine → RelocationType → Bool
is_i_relative_relocation x86_64 x86_64_irelative = true
is_i_relative_relocation i386 x86_irelative = true
is_i_relative_relocation _ _ = false

-- `relocationAddendForPointerValue`.
unfoldable pub relocation_addend_for_pointer_value : ProgramState → Relocation → Option ℕ
relocation_addend_for_pointer_value s relocation = elim s.machine [
  | i386 ↦ read_raw_pointer s.pointer_size s.memory_ranges relocation.address
  | _ ↦ some relocation.addend
]

unfoldable pub symbol_name : Option Symbol → Text
symbol_name none = []
symbol_name (some symbol) = symbol.name

unfoldable pub symbol_value : Option Symbol → ℕ
symbol_value none = 0
symbol_value (some symbol) = symbol.value

unfoldable pub symbol_is_function : Option Symbol → Bool
symbol_is_function none = false
symbol_is_function (some symbol) = symbol.is_function

unfoldable pub relocation_info : Relocation → Text → ℕ → Option ℕ → RelocationInfo
relocation_info relocation status addend computed_value = record {
  address = relocation.address;
  type = relocation.type_value;
  type_name = relocation.type_name;
  symbol_name = symbol_name relocation.symbol;
  symbol_value = symbol_value relocation.symbol;
  addend = addend;
  table_kind = relocation.purpose_name;
  status = status;
  computed_value = computed_value;
}

-- The state, the jump slots and the GLOB_DAT functions of the loop.
pub record Collected : Type 0 where
  pub state : ProgramState
  pub jump_slots : List RelocationInfo
  pub glob_dat_functions : List RelocationInfo

unfoldable pub with_state : Collected → ProgramState → RelocationInfo → Collected
with_state c s info = record c { state = add_relocation s info }

unfoldable pub collect_relative : Collected → Relocation → Option ℕ → Collected
collect_relative c r none =
    with_state c
      (add_note c.state
        (codes "could not read implicit relocation addend at " ++ hex_address r.address))
      (relocation_info r (codes "unsupported") r.addend none)
collect_relative c r (some addend) =
    with_state c (add_relocated_pointer c.state r.address addend)
      (relocation_info r (codes "applied") addend (some addend))

unfoldable pub glob_dat_info : Relocation → RelocationInfo
glob_dat_info r =
    if symbol_value r.symbol == 0
    then relocation_info r (codes "external") r.addend none
    else relocation_info r (codes "applied") r.addend
        (some (add64 (symbol_value r.symbol) r.addend))

unfoldable pub collect_glob_dat : Collected → Relocation → Collected
collect_glob_dat c r = record {
  state =
      add_relocation
        (if symbol_value r.symbol == 0
          then c.state
          else add_relocated_pointer c.state r.address (add64 (symbol_value r.symbol) r.addend))
        (glob_dat_info r);
  jump_slots = c.jump_slots;
  glob_dat_functions =
      if symbol_is_function r.symbol && not (is_empty (symbol_name r.symbol))
      then c.glob_dat_functions ++ glob_dat_info r ∷ []
      else c.glob_dat_functions;
}

unfoldable pub collect_jump_slot : Collected → Relocation → Collected
collect_jump_slot c r = record c {
  state = add_relocation c.state (relocation_info r (codes "external") r.addend none);
  jump_slots = c.jump_slots ++ relocation_info r (codes "external") r.addend none ∷ [];
}

unfoldable pub absolute_status : Relocation → Text
absolute_status r =
    if symbol_is_function r.symbol
      && (symbol_value r.symbol == 0 && not (is_empty (symbol_name r.symbol)))
    then codes "external"
    else codes "unsupported"

unfoldable pub collect_i_relative : Collected → Relocation → Option ℕ → Collected
collect_i_relative c r none =
    with_state c
      (add_note c.state
        (codes "could not read implicit resolver addend at " ++ hex_address r.address))
      (relocation_info r (codes "unsupported") r.addend none)
collect_i_relative c r (some addend) =
    with_state c c.state (relocation_info r (codes "resolver") addend (some addend))

-- One relocation of the loop.
unfoldable pub collect : Collected → Relocation → Collected
collect c r =
    if is_relative_relocation c.state.machine r.type
    then collect_relative c r (relocation_addend_for_pointer_value c.state r)
    else if is_glob_dat_relocation c.state.machine r.type
    then collect_glob_dat c r
    else if is_jump_slot_relocation c.state.machine r.type
    then collect_jump_slot c r
    else if is_absolute_external_function_pointer_relocation c.state.machine r.type
    then with_state c c.state (relocation_info r (absolute_status r) r.addend none)
    else if is_i_relative_relocation c.state.machine r.type
    then collect_i_relative c r (relocation_addend_for_pointer_value c.state r)
    else with_state c c.state (relocation_info r (codes "unsupported") r.addend none)

unfoldable pub collect_all : Collected → List Relocation → Collected
collect_all c [] = c
collect_all c (r ∷ rs) = collect_all (collect c r) rs

-- What a relocated pointer points at.
unfoldable pub pointer_kind : ProgramState → ℕ → XrefKind × Text
pointer_kind s target =
    if is_executable_address s.memory_ranges target
    then (flow, codes "elf-relocation-code")
    else if looks_like_read_only_c_string s.memory_ranges target
    then (string, codes "elf-relocation-string")
    else (data_reference, codes "elf-relocation-pointer")

-- `addRelocationPointerXrefs`. The keys of the map are distinct, so its set of seen triples never
-- holds one back.
unfoldable pub add_pointer_xrefs : ProgramState → List (ℕ × ℕ) → ProgramState
add_pointer_xrefs s [] = s
add_pointer_xrefs s ((address, target) ∷ pointers) =
    add_pointer_xrefs
      (if is_mapped_address s.memory_ranges target
        then add_xref s (record {
          from = address;
          to = target;
          kind = (pointer_kind s target).0;
          source = (pointer_kind s target).1;
        })
        else s)
      pointers

unfoldable pub add_relocation_pointer_xrefs : ProgramState → ProgramState
add_relocation_pointer_xrefs s = add_pointer_xrefs s s.relocated_pointers

unfoldable pub finish_relocations : Collected → ProgramState
finish_relocations c =
    let with_got : ProgramState = elim c.state.machine [
      | x86_64 ↦ add_plt_got_entries c.state c.glob_dat_functions
      | _ ↦ c.state
    ] in
    add_relocation_pointer_xrefs (add_plt_entries with_got c.jump_slots)

-- `RelocationPltAnalyzer::run`, with the name that the ELF library has for the machine.
unfoldable pub run_relocation_plt : Text → List Relocation → ProgramState → ProgramState
run_relocation_plt architecture relocations s =
    if not (supports_relocation_plt_analysis s.machine)
    then add_note s (
        codes "relocation/PLT analysis currently supports x86-64 and i386 ELF only; got "
        ++ architecture)
    else finish_relocations
        (collect_all (record { state = s; jump_slots = []; glob_dat_functions = [] }) relocations)
