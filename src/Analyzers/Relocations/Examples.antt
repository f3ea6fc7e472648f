-- ===== src/Analyzers/Relocations/Examples.antt =====
-- The stub theorem at a file with two jump slots.
use not_dec_bin2llvm.Common.{
  ℕ, List, [], ◌∷◌, none, some, true, false, ◌≡◌, refl, Text, codes, text_beq,
}
use not_dec_bin2llvm.Memory.Loading.{SectionInfo}
use not_dec_bin2llvm.Program.{RelocationInfo, ProgramState, x86_64, unknown}
use not_dec_bin2llvm.Program.Flows.{lookup_plt_external, add_plt_entry}
use not_dec_bin2llvm.Analyzers.Relocations.Plt.{
  find_section, stub_area, StubArea, plt_entries_from, plt_entry, sort_slots, insert_slot,
  add_plt_entries, match_stubs, add_entries, note_legacy,
}
use not_dec_bin2llvm.Analyzers.Relocations.{Relocation, x86_64_jump_slot, x86_64_relative}

abbrev plt_sec : SectionInfo
plt_sec = record { name = codes ".plt.sec"; address = 0x1020; size = 0x20; executable = true }

abbrev jump_slot : ℕ → Text → RelocationInfo
jump_slot address symbol = record {
  address = address;
  type = 7;
  type_name = [];
  symbol_name = symbol;
  symbol_value = 0;
  addend = 0;
  table_kind = [];
  status = codes "external";
  computed_value = none;
}

abbrev state : ProgramState
state = record {
  machine = x86_64;
  pointer_size = 8;
  memory_ranges = [];
  sections = plt_sec ∷ [];
  function_seeds = [];
  function_worklist = [];
  source_counts = [];
  relocations = [];
  relocated_pointers = [];
  plt_entries = [];
  functions = [];
  xrefs = [];
  unresolved_flows = [];
  xrefs_by_from = [];
  xrefs_by_to = [];
  instructions = [];
  notes = [];
  control_flow_authority = unknown;
}

abbrev area : StubArea
area = record { section = plt_sec; stub_start = 0x1020; uses_legacy_plt = false }

second_stub :
    lookup_plt_external
      (add_plt_entries state
        (jump_slot 0x4018 (codes "puts") ∷ jump_slot 0x4010 (codes "exit") ∷ []))
      0x1030
    ≡ some (codes "puts")
unfolding lookup_plt_external add_plt_entries match_stubs stub_area find_section text_beq sort_slots
    insert_slot add_entries add_plt_entry plt_entries_from plt_entry note_legacy
second_stub = refl

abbrev relocations : List Relocation
relocations =
    record {
      address = 0x4010;
      type = x86_64_jump_slot;
      type_value = 7;
      type_name = codes "JUMP_SLOT";
      purpose_name = codes "PLTGOT";
      addend = 0;
      symbol = some (record { name = codes "exit"; value = 0; is_function = true });
    }
    ∷ record {
      address = 0x4008;
      type = x86_64_relative;
      type_value = 8;
      type_name = codes "RELATIVE";
      purpose_name = codes "DYNAMIC";
      addend = 0x1020;
      symbol = none;
    }
    ∷ []
