-- ===== src/Analyzers/Relocations/Tables.antt =====
-- `addPltEntries` and `addPltGotEntries` keep the state well formed.
use not_dec_bin2llvm.Common.{
  ℕ, zero, suc, ◌/◌, ◌%◌, ◌*◌, ◌+◌, List, [], ◌∷◌, Option, none, some, Bool, true, false, ◌==◌,
  codes, add64, length, Bool-cases, Option-cases, inl, inr,
}
use not_dec_bin2llvm.Memory.Loading.{SectionInfo}
use not_dec_bin2llvm.Program.{RelocationInfo, PltEntry, ProgramState}
use not_dec_bin2llvm.Program.Flows.{add_plt_entry}
use not_dec_bin2llvm.Program.Calls.{step, adds_plt_entry}
use not_dec_bin2llvm.Program.Calls.Invariant.{IsValid, step-IsValid}
use not_dec_bin2llvm.Analyzers.Entries.Validity.{note-IsValid}
use not_dec_bin2llvm.Analyzers.Relocations.Plt.{
  find_section, StubArea, stub_area, plt_entries_from, sort_slots, add_entries, note_legacy,
  match_stubs, add_plt_entries, find_slot, stub_target, add_got_entry, got_loop, scan_plt_got,
  add_plt_got_entries,
}

entry-IsValid : (s : ProgramState) (entry : PltEntry) → IsValid s → IsValid (add_plt_entry s entry)
unfolding step
entry-IsValid s entry v = step-IsValid s (adds_plt_entry entry) tt v

add_entries-IsValid :
    (s : ProgramState) (entries : List PltEntry) → IsValid s → IsValid (add_entries s entries)
unfolding add_entries
add_entries-IsValid s [] v = v
add_entries-IsValid s (entry ∷ entries) v =
    add_entries-IsValid (add_plt_entry s entry) entries (entry-IsValid s entry v)

note_legacy-IsValid :
    (legacy : Bool) (s : ProgramState) → IsValid s → IsValid (note_legacy legacy s)
unfolding note_legacy
note_legacy-IsValid true s v =
    note-IsValid s (codes "PLT external mapping uses legacy .plt entries") v
note_legacy-IsValid false s v = v

match_stubs-IsValid :
    (s : ProgramState) (area : Option StubArea) (slots : List RelocationInfo)
    → IsValid s
    → IsValid (match_stubs s area slots)
unfolding match_stubs
match_stubs-IsValid s none slots v =
    note-IsValid s (codes "could not match PLT stubs to jump-slot relocations") v
match_stubs-IsValid s (some area) slots v =
    let entries = plt_entries_from area.stub_start 0 slots in
    note_legacy-IsValid area.uses_legacy_plt (add_entries s entries)
      (add_entries-IsValid s entries v)

pub plt_entries-IsValid :
    (s : ProgramState) (slots : List RelocationInfo) → IsValid s → IsValid (add_plt_entries s slots)
unfolding add_plt_entries
plt_entries-IsValid s [] v = v
plt_entries-IsValid s (slot ∷ slots) v =
    match_stubs-IsValid s
      (stub_area (find_section s.sections (codes ".plt.sec"))
        (find_section s.sections (codes ".plt")) (length (slot ∷ slots)))
      (sort_slots (slot ∷ slots)) v

got_entry-IsValid :
    (s : ProgramState) (stub : ℕ) (slots : List RelocationInfo) (target : Option ℕ)
    → IsValid s
    → IsValid (add_got_entry s stub slots target)
unfolding add_got_entry
got_entry-IsValid s stub slots none v = v
got_entry-IsValid s stub slots (some address) v = elim (Option-cases (find_slot slots address)) [
  | inl missing ↦ rw (missing, add_got_entry) v
  | inr (slot, found) ↦
      rw (found, add_got_entry)
        (entry-IsValid s
          (record { stub_address = stub; got_address = address; symbol_name = slot.symbol_name }) v)
]

got_loop-IsValid :
    (count : ℕ) (s : ProgramState) (start index : ℕ) (slots : List RelocationInfo)
    → IsValid s
    → IsValid (got_loop count s start index slots)
unfolding got_loop
got_loop-IsValid zero s start index slots v = v
got_loop-IsValid (suc count) s start index slots v =
    let stub = add64 start (index * 16) in
    got_loop-IsValid count (add_got_entry s stub slots (stub_target s stub)) start (index + 1) slots
      (got_entry-IsValid s stub slots (stub_target s stub) v)

scan-IsValid :
    (s : ProgramState) (section : Option SectionInfo) (slots : List RelocationInfo)
    → IsValid s
    → IsValid (scan_plt_got s section slots)
unfolding scan_plt_got
scan-IsValid s none slots v = v
scan-IsValid s (some section) slots v = elim (Bool-cases (section.size % 16 == 0)) [
  | inl even ↦
      rw even (got_loop-IsValid (section.size / 16) s section.address 0 (sort_slots slots) v)
  | inr odd ↦
      rw odd (note-IsValid s (codes "could not match .plt.got stubs: unexpected section size") v)
]

pub got_entries-IsValid :
    (s : ProgramState) (slots : List RelocationInfo)
    → IsValid s
    → IsValid (add_plt_got_entries s slots)
unfolding add_plt_got_entries
got_entries-IsValid s [] v = v
got_entries-IsValid s (slot ∷ slots) v =
    scan-IsValid s (find_section s.sections (codes ".plt.got")) (slot ∷ slots) v
