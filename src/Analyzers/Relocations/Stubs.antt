-- ===== src/Analyzers/Relocations/Stubs.antt =====
-- `addPltEntries` takes the stubs of the section in order, one for each jump slot, and stays within it.
use not_dec_bin2llvm.Common.{ℕ, ◌+◌, ◌*◌, ◌≤◌}
use not_dec_bin2llvm.Memory.Loading.{SectionInfo}
use not_dec_bin2llvm.Program.{PltEntry}
use not_dec_bin2llvm.Analyzers.Relocations.Plt.{StubArea}

-- The sixteen bytes of the stub lie in the section.
abbrev pub Inside : SectionInfo → PltEntry → Type 0
Inside section entry =
    (section.address ≤ entry.stub_address)
    × (entry.stub_address + 16 ≤ section.address + section.size)

-- The area has room for the stubs.
abbrev HasRoom : StubArea → ℕ → Type 0
HasRoom area count =
    (area.section.address ≤ area.stub_start)
    × (area.stub_start + count * 16 ≤ area.section.address + area.section.size)
