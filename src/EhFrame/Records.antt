-- ===== src/EhFrame/Records.antt =====
-- lib/NativeAnalysis.cpp: `EhFrameReader`, which keeps the encoding of every CIE of `.eh_frame`.
use not_dec_bin2llvm.Common.{
  ℕ, ◌+◌, ◌-◌, List, [], ◌∷◌, ◌++◌, Option, none, some, not, ltb, ◌==◌, if◌then◌else◌, ◌||◌, Text,
  codes, add64,
}
use not_dec_bin2llvm.OrderedMap
use not_dec_bin2llvm.Program.{ProgramState}
use not_dec_bin2llvm.EhFrame.{
  EhFrameStats, add_unsupported_sample, Failure, malformed, unsupported, Result, ok, err, ◌>>=◌,
}
use not_dec_bin2llvm.EhFrame.Bytes.{read_u8, read_string, read_uleb128, read_sleb128}
use not_dec_bin2llvm.EhFrame.Encodings.{skip_encoded}

pub record CieInfo : Type 0 where
  pub cie_address : ℕ
  pub fde_encoding : ℕ

-- What the reader changes: the program, its statistics, and the map of the CIEs.
pub record Reader : Type 0 where
  pub program : ProgramState
  pub stats : EhFrameStats
  pub cies : List (ℕ × CieInfo)

-- The section that is read: its address and its bytes.
pub record SectionBytes : Type 0 where
  pub section_address : ℕ
  pub bytes : List ℕ

unfoldable pub count_invalid : EhFrameStats → EhFrameStats
count_invalid stats = record stats { invalid_count = stats.invalid_count + 1 }

unfoldable pub note_failure : EhFrameStats → Failure → EhFrameStats
unfolding add_unsupported_sample
note_failure stats malformed = stats
note_failure stats (unsupported sample) = add_unsupported_sample stats sample

-- `recordAddress`.
unfoldable pub record_address : SectionBytes → ℕ → ℕ
record_address section offset = add64 section.section_address offset

-- The fields of a CIE before its augmentation data, of which only the augmentation is kept. The
-- return register is one byte in version 1.
unfoldable pub cie_head : List ℕ → ℕ → ℕ → Result (ℕ × Text)
unfolding read_u8 read_string read_uleb128 read_sleb128
cie_head bytes offset end = do
  version ← read_u8 bytes offset
  augmentation ← read_string bytes version.0 end
  code_alignment ← read_uleb128 bytes augmentation.0 end
  data_alignment ← read_sleb128 bytes code_alignment.0 end
  register ←
      if version.1 == 1
      then read_u8 bytes data_alignment.0
      else read_uleb128 bytes data_alignment.0 end
  ok (register.0, augmentation.1)

unfoldable pub personality : List ℕ → ℕ → ℕ → ℕ → Result ℕ
unfolding read_u8 skip_encoded
personality bytes pointer_size end offset = do
  encoding ← read_u8 bytes offset
  skip_encoded pointer_size encoding.0 end encoding.1

unfoldable pub augmentation_sample : ℕ → Text
augmentation_sample c = codes ".eh_frame CIE augmentation " ++ c ∷ []

-- The loop over the letters of the augmentation. Its result is the encoding of the FDEs. A
-- personality that does not fit ends the CIE without a count.
unfoldable pub augmentation_loop :
    List ℕ → ℕ → ℕ → Text → ℕ → ℕ → EhFrameStats → EhFrameStats × Option ℕ
unfolding personality read_u8 note_failure count_invalid augmentation_sample
augmentation_loop bytes pointer_size end [] offset encoding stats = (stats, some encoding)
augmentation_loop bytes pointer_size end (c ∷ cs) offset encoding stats =
    if c == b'P'
    then elim (personality bytes pointer_size end offset) [
      | err failure ↦ (note_failure stats failure, none)
      | ok next ↦ augmentation_loop bytes pointer_size end cs next encoding stats
    ]
    else if c == b'L'
    then elim (read_u8 bytes offset) [
      | err failure ↦ (count_invalid stats, none)
      | ok r ↦ augmentation_loop bytes pointer_size end cs r.0 encoding stats
    ]
    else if c == b'R'
    then elim (read_u8 bytes offset) [
      | err failure ↦ (count_invalid stats, none)
      | ok r ↦ augmentation_loop bytes pointer_size end cs r.0 r.1 stats
    ]
    else (add_unsupported_sample stats (augmentation_sample c), none)

-- The encoding of the FDEs: that of the letter `R` in an augmentation that starts with `z`.
unfoldable pub cie_encoding : List ℕ → ℕ → ℕ → Text → ℕ → EhFrameStats → EhFrameStats × Option ℕ
unfolding read_uleb128 augmentation_loop count_invalid
cie_encoding bytes pointer_size end [] offset stats = (stats, some 0x00)
cie_encoding bytes pointer_size end (c ∷ cs) offset stats =
    if not (c == b'z') then (stats, some 0x00) else elim (read_uleb128 bytes offset end) [
      | err failure ↦ (count_invalid stats, none)
      | ok r ↦
          if ltb end r.1 || ltb (end - r.1) r.0
          then (count_invalid stats, none)
          else augmentation_loop bytes pointer_size (r.0 + r.1) cs r.0 0x00 stats
    ]

-- `Cies[cie.Address] = cie` where the CIE was read.
unfoldable pub store_cie : Reader → ℕ → EhFrameStats × Option ℕ → Reader
store_cie r address (stats, none) = record r { stats = stats }
store_cie r address (stats, some encoding) = record r {
  stats = stats;
  cies =
      OrderedMap.insert address (record { cie_address = address; fde_encoding = encoding }) r.cies;
}

unfoldable pub count_cie : EhFrameStats → EhFrameStats
count_cie stats = record stats { cie_count = stats.cie_count + 1 }

-- `parseCie`.
unfoldable pub parse_cie : SectionBytes → Reader → ℕ → ℕ → ℕ → Reader
unfolding count_cie cie_head count_invalid cie_encoding record_address
parse_cie section r record_offset offset record_end =
    elim (cie_head section.bytes offset record_end) [
      | err failure ↦ record r { stats = count_invalid (count_cie r.stats) }
      | ok head ↦ store_cie r (record_address section record_offset) (
          cie_encoding section.bytes r.program.pointer_size record_end head.1 head.0
            (count_cie r.stats))
    ]
