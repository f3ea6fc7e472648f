-- ===== src/Memory/Loading.antt =====
-- lib/NativeAnalysis.cpp: the constructor of `NativeProgramState`, which keeps the PT_LOAD segments
-- sorted by address, and the sections with an address and a size.
use not_dec_bin2llvm.Common.{ℕ, List, [], ◌∷◌, Bool, leb, ◌==◌, if◌then◌else◌, ◌≤◌, All, Text, ◌||◌}
use not_dec_bin2llvm.Memory.{MemoryRange}
use mathlib.Core.List.{Perm}
use mathlib.Core.List.Perm

-- What the ELF library tells of a segment and of a section.
pub record Segment : Type 0 where
  pub is_load : Bool
  pub virtual_address : ℕ
  pub virtual_size : ℕ
  pub has_r : Bool
  pub has_w : Bool
  pub has_x : Bool
  pub content : List ℕ

pub record SectionInfo : Type 0 where
  pub name : Text
  pub address : ℕ
  pub size : ℕ
  pub executable : Bool

range_of : Segment → MemoryRange
range_of segment = record {
  start = segment.virtual_address;
  size = segment.virtual_size;
  readable = segment.has_r;
  writable = segment.has_w;
  executable = segment.has_x;
  bytes = segment.content;
}

unfoldable pub load_segments : List Segment → List MemoryRange
unfolding range_of
load_segments [] = []
load_segments (segment ∷ segments) =
    if segment.is_load then range_of segment ∷ load_segments segments else load_segments segments

-- `std::sort` by start address.
insert_range : MemoryRange → List MemoryRange → List MemoryRange
insert_range range [] = range ∷ []
insert_range range (r ∷ rs) =
    if leb range.start r.start then range ∷ r ∷ rs else r ∷ insert_range range rs

unfoldable pub sort_ranges : List MemoryRange → List MemoryRange
unfolding insert_range
sort_ranges [] = []
sort_ranges (range ∷ ranges) = insert_range range (sort_ranges ranges)

unfoldable pub memory_ranges : List Segment → List MemoryRange
unfolding load_segments sort_ranges
memory_ranges segments = sort_ranges (load_segments segments)

unfoldable pub load_sections : List SectionInfo → List SectionInfo
load_sections [] = []
load_sections (section ∷ sections) =
    if section.address == 0 || section.size == 0
    then load_sections sections
    else section ∷ load_sections sections

-- The ranges rise by start address.
abbrev pub IsSorted : List MemoryRange → Type 0
IsSorted [] = Unit
IsSorted (r ∷ rs) = All (λ (s : MemoryRange). r.start ≤ s.start) rs × IsSorted rs
