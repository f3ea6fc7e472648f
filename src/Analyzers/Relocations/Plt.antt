-- ===== src/Analyzers/Relocations/Plt.antt =====
-- The stubs of the procedure linkage table: `addPltEntries` and `addPltGotEntries`.
use not_dec_bin2llvm.Common.{
  ℕ, zero, suc, ◌+◌, ◌-◌, ◌*◌, ◌/◌, ◌%◌, List, [], ◌∷◌, Option, none, some, Bool, true, false, not,
  leb, ◌==◌, if◌then◌else◌, ◌&&◌, ◌||◌, Text, codes, text_beq, length, add64, u32_mod,
}
use not_dec_bin2llvm.Memory.{read_bytes, or_bytes, sign_extend_32}
use not_dec_bin2llvm.Memory.Loading.{SectionInfo}
use not_dec_bin2llvm.Program.{RelocationInfo, PltEntry, ProgramState, add_note}
use not_dec_bin2llvm.Program.Flows.{add_plt_entry}

-- `findSection`.
unfoldable pub find_section : List SectionInfo → Text → Option SectionInfo
find_section [] name = none
find_section (section ∷ sections) name =
    if text_beq section.name name then some section else find_section sections name

-- `std::sort` by address; slots of one address, whose order the source leaves open, keep theirs.
unfoldable pub insert_slot : RelocationInfo → List RelocationInfo → List RelocationInfo
insert_slot slot [] = slot ∷ []
insert_slot slot (other ∷ others) =
    if leb slot.address other.address
    then slot ∷ other ∷ others
    else other ∷ insert_slot slot others

unfoldable pub sort_slots : List RelocationInfo → List RelocationInfo
sort_slots [] = []
sort_slots (slot ∷ slots) = insert_slot slot (sort_slots slots)

-- The section with the stubs, where the first one is, and whether the section is a legacy one.
pub record StubArea : Type 0 where
  pub section : SectionInfo
  pub stub_start : ℕ
  pub uses_legacy_plt : Bool

unfoldable pub legacy_area : Option SectionInfo → ℕ → Option StubArea
legacy_area none count = none
legacy_area (some section) count =
    if leb 32 section.size && leb count (section.size / 16 - 1)
    then some (record {
      section = section;
      stub_start = add64 section.address 16;
      uses_legacy_plt = true;
    })
    else none

unfoldable pub stub_area : Option SectionInfo → Option SectionInfo → ℕ → Option StubArea
stub_area none plt count = legacy_area plt count
stub_area (some section) plt count =
    if leb count (section.size / 16)
    then some (record { section = section; stub_start = section.address; uses_legacy_plt = false })
    else legacy_area plt count

unfoldable pub plt_entry : ℕ → ℕ → RelocationInfo → PltEntry
plt_entry stub_start index slot = record {
  stub_address = add64 stub_start (index * 16);
  got_address = slot.address;
  symbol_name = slot.symbol_name;
}

unfoldable pub plt_entries_from : ℕ → ℕ → List RelocationInfo → List PltEntry
plt_entries_from stub_start index [] = []
plt_entries_from stub_start index (slot ∷ slots) =
    plt_entry stub_start index slot ∷ plt_entries_from stub_start (index + 1) slots

unfoldable pub add_entries : ProgramState → List PltEntry → ProgramState
add_entries s [] = s
add_entries s (entry ∷ entries) = add_entries (add_plt_entry s entry) entries

unfoldable pub note_legacy : Bool → ProgramState → ProgramState
note_legacy true s = add_note s (codes "PLT external mapping uses legacy .plt entries")
note_legacy false s = s

unfoldable pub match_stubs : ProgramState → Option StubArea → List RelocationInfo → ProgramState
match_stubs s none slots = add_note s (codes "could not match PLT stubs to jump-slot relocations")
match_stubs s (some area) slots =
    note_legacy area.uses_legacy_plt (add_entries s (plt_entries_from area.stub_start 0 slots))

-- `addPltEntries`.
unfoldable pub add_plt_entries : ProgramState → List RelocationInfo → ProgramState
add_plt_entries s [] = s
add_plt_entries s (slot ∷ slots) =
    match_stubs s
      (stub_area (find_section s.sections (codes ".plt.sec"))
        (find_section s.sections (codes ".plt")) (length (slot ∷ slots)))
      (sort_slots (slot ∷ slots))

unfoldable pub find_slot : List RelocationInfo → ℕ → Option RelocationInfo
find_slot [] address = none
find_slot (slot ∷ slots) address =
    if slot.address == address then some slot else find_slot slots address

-- The address of the GOT slot that an `endbr64; jmp *disp(%rip)` stub jumps through.
unfoldable pub got_address : ℕ → List ℕ → Option ℕ
got_address stub (b0 ∷ b1 ∷ b2 ∷ b3 ∷ b4 ∷ b5 ∷ d0 ∷ d1 ∷ d2 ∷ d3 ∷ []) =
    if not (b0 == 0xf3)
      || not (b1 == 0x0f)
      || not (b2 == 0x1e)
      || not (b3 == 0xfa)
      || not (b4 == 0xff)
      || not (b5 == 0x25)
    then none
    else some (add64 (stub + 10) (sign_extend_32 (or_bytes u32_mod (d0 ∷ d1 ∷ d2 ∷ d3 ∷ []) 0 0)))
got_address stub _ = none

unfoldable pub stub_target : ProgramState → ℕ → Option ℕ
stub_target s stub = elim (read_bytes s.memory_ranges stub 10) [
  | none ↦ none
  | some bytes ↦ got_address stub bytes
]

unfoldable pub add_got_entry : ProgramState → ℕ → List RelocationInfo → Option ℕ → ProgramState
add_got_entry s stub slots none = s
add_got_entry s stub slots (some address) = elim (find_slot slots address) [
  | none ↦ s
  | some slot ↦
      add_plt_entry s
        (record { stub_address = stub; got_address = address; symbol_name = slot.symbol_name })
]

-- The loop over the stubs of `.plt.got` from `index` on.
unfoldable pub got_loop : ℕ → ProgramState → ℕ → ℕ → List RelocationInfo → ProgramState
got_loop zero s start index slots = s
got_loop (suc count) s start index slots =
    let stub = add64 start (index * 16) in
    got_loop count (add_got_entry s stub slots (stub_target s stub)) start (index + 1) slots

unfoldable pub scan_plt_got : ProgramState → Option SectionInfo → List RelocationInfo → ProgramState
scan_plt_got s none slots = s
scan_plt_got s (some section) slots =
    if not (section.size % 16 == 0)
    then add_note s (codes "could not match .plt.got stubs: unexpected section size")
    else got_loop (section.size / 16) s section.address 0 (sort_slots slots)

-- `addPltGotEntries`.
unfoldable pub add_plt_got_entries : ProgramState → List RelocationInfo → ProgramState
add_plt_got_entries s [] = s
add_plt_got_entries s (slot ∷ slots) =
    scan_plt_got s (find_section s.sections (codes ".plt.got")) (slot ∷ slots)
