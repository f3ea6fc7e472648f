-- ===== src/EhFrame/Compare.antt =====
-- lib/NativeAnalysis.cpp: `compareEhFrameHdr` and `EhFrameAnalyzer::run`.
pub mod Laws
use not_dec_bin2llvm.Common.{
  ℕ, ◌+◌, List, [], ◌∷◌, ◌++◌, Option, none, some, Bool, true, ◌==◌, if◌then◌else◌, Text, codes,
  is_some, contains, nat_eq,
}
use not_dec_bin2llvm.OrderedMap
use not_dec_bin2llvm.Memory.{read_bytes}
use not_dec_bin2llvm.Memory.Loading.{SectionInfo}
use not_dec_bin2llvm.Numbers.{hex_address}
use not_dec_bin2llvm.Program.{ProgramState, add_note}
use not_dec_bin2llvm.Analyzers.Relocations.Plt.{find_section}
use not_dec_bin2llvm.EhFrame.{
  EhFrameStats, EhFrameFdeInfo, EhFrameHdrEntry, EhFrameState, add_hdr_mismatch_sample,
}
use not_dec_bin2llvm.EhFrame.Records.{SectionBytes, Reader, count_invalid}
use not_dec_bin2llvm.EhFrame.Frames.{parse_eh_frame}
use not_dec_bin2llvm.EhFrame.Header.{count_hdr_invalid, parse_eh_frame_hdr}

-- `fdeByStart`: the last FDE of a start wins.
unfoldable pub fde_by_start : List EhFrameFdeInfo → List (ℕ × ℕ) → List (ℕ × ℕ)
fde_by_start [] m = m
fde_by_start (fde ∷ fdes) m = fde_by_start fdes (OrderedMap.insert fde.pc_begin fde.fde_address m)

missing_sample : ℕ → Text
missing_sample start = codes "hdr start missing in .eh_frame: " ++ hex_address start

mismatch_sample : EhFrameHdrEntry → ℕ → Text
mismatch_sample entry frame =
    codes "hdr FDE address mismatch for "
    ++ (hex_address entry.initial_location
        ++ (codes ": hdr "
            ++ (hex_address entry.entry_fde_address ++ (codes ", frame " ++ hex_address frame))))

extra_sample : ℕ → Text
extra_sample start = codes ".eh_frame FDE missing in hdr: " ++ hex_address start

unfoldable pub count_missing : EhFrameStats → ℕ → EhFrameStats
unfolding missing_sample
count_missing stats start =
    add_hdr_mismatch_sample (record stats { hdr_missing_in_frame = stats.hdr_missing_in_frame + 1 })
      (missing_sample start)

unfoldable pub count_matched : EhFrameStats → EhFrameStats
count_matched stats = record stats { hdr_matched_starts = stats.hdr_matched_starts + 1 }

unfoldable pub count_address : EhFrameStats → EhFrameHdrEntry → ℕ → EhFrameStats
unfolding mismatch_sample
count_address stats entry frame =
    if frame == entry.entry_fde_address
    then record stats { hdr_fde_address_matches = stats.hdr_fde_address_matches + 1 }
    else add_hdr_mismatch_sample
        (record stats { hdr_fde_address_mismatches = stats.hdr_fde_address_mismatches + 1 })
        (mismatch_sample entry frame)

-- The round of one row, for what the frame table has at its start.
unfoldable pub compare_found : EhFrameStats → EhFrameHdrEntry → Option ℕ → EhFrameStats
unfolding count_missing count_matched count_address
compare_found stats entry none = count_missing stats entry.initial_location
compare_found stats entry (some frame) = count_address (count_matched stats) entry frame

unfoldable pub compare_entries : List (ℕ × ℕ) → List EhFrameHdrEntry → EhFrameStats → EhFrameStats
unfolding compare_found
compare_entries by_start [] stats = stats
compare_entries by_start (entry ∷ entries) stats =
    compare_entries by_start entries
      (compare_found stats entry (OrderedMap.find entry.initial_location by_start))

-- `hdrStarts`.
unfoldable pub hdr_starts : List EhFrameHdrEntry → List ℕ
hdr_starts [] = []
hdr_starts (entry ∷ entries) = entry.initial_location ∷ hdr_starts entries

unfoldable pub count_extra : EhFrameStats → ℕ → EhFrameStats
unfolding extra_sample
count_extra stats start =
    add_hdr_mismatch_sample (record stats { hdr_extra_frame_fdes = stats.hdr_extra_frame_fdes + 1 })
      (extra_sample start)

unfoldable pub compare_frames : List ℕ → List EhFrameFdeInfo → EhFrameStats → EhFrameStats
unfolding count_extra contains
compare_frames starts [] stats = stats
compare_frames starts (fde ∷ fdes) stats =
    compare_frames starts fdes
      (if contains starts fde.pc_begin then stats else count_extra stats fde.pc_begin)

-- `compareEhFrameHdr`.
unfoldable pub compare_eh_frame_hdr : EhFrameStats → EhFrameStats
unfolding fde_by_start compare_entries hdr_starts compare_frames
compare_eh_frame_hdr stats =
    compare_frames (hdr_starts stats.hdr_entries) stats.frame_fdes
      (compare_entries (fde_by_start stats.frame_fdes []) stats.hdr_entries stats)

pub frame_note : Text
frame_note = codes ".eh_frame section is not readable"

pub hdr_note : Text
hdr_note = codes ".eh_frame_hdr section is not readable"

unfoldable pub compare_if_parsed : EhFrameState → EhFrameState
compare_if_parsed s =
    if s.stats.parsed_eh_frame_hdr then record s { stats = compare_eh_frame_hdr s.stats } else s

pub section_bytes : SectionInfo → List ℕ → SectionBytes
section_bytes section bytes = record { section_address = section.address; bytes = bytes }

-- The part of `run` on `.eh_frame_hdr`.
unfoldable pub use_hdr : EhFrameState → Option SectionInfo → EhFrameState
unfolding hdr_note compare_if_parsed section_bytes count_hdr_invalid parse_eh_frame_hdr
use_hdr s none = s
use_hdr s (some section) = elim (read_bytes s.program.memory_ranges section.address section.size) [
  | none ↦ record s { program = add_note s.program hdr_note; stats = count_hdr_invalid s.stats }
  | some bytes ↦ compare_if_parsed (parse_eh_frame_hdr (section_bytes section bytes) s)
]

unfoldable pub new_reader : EhFrameState → Reader
new_reader s = record { program = s.program; stats = s.stats; cies = [] }

unfoldable pub reader_state : Reader → EhFrameState
reader_state r = record { program = r.program; stats = r.stats }

-- The part of `run` on `.eh_frame`.
unfoldable pub use_frame : EhFrameState → SectionInfo → Option SectionInfo → EhFrameState
unfolding frame_note section_bytes count_invalid parse_eh_frame use_hdr new_reader reader_state
use_frame s section hdr = elim (read_bytes s.program.memory_ranges section.address section.size) [
  | none ↦ record s { program = add_note s.program frame_note; stats = count_invalid s.stats }
  | some bytes ↦
      use_hdr (reader_state (parse_eh_frame (section_bytes section bytes) (new_reader s))) hdr
]

-- `EhFrameAnalyzer::run`.
unfoldable pub run_eh_frame : EhFrameState → EhFrameState
unfolding use_frame find_section
run_eh_frame s =
    let hdr = find_section s.program.sections (codes ".eh_frame_hdr") in
    let marked = record s { stats = record s.stats { has_eh_frame_hdr = is_some hdr } } in
    elim (find_section s.program.sections (codes ".eh_frame")) [
      | none ↦ marked
      | some section ↦
          use_frame (record marked { stats = record marked.stats { has_eh_frame = true } }) section
            hdr
    ]
