-- ===== src/EhFrame/Frames.antt =====
-- lib/NativeAnalysis.cpp: `EhFrameReader`, which walks the records of `.eh_frame` and reports the
-- function of every FDE.
use not_dec_bin2llvm.Common.{
  ℕ, zero, suc, ◌+◌, ◌-◌, [], ◌∷◌, ◌++◌, Option, none, some, Bool, true, false, not, ltb, ◌==◌,
  if◌then◌else◌, ◌||◌, Text, codes, length, max_u64,
}
use not_dec_bin2llvm.OrderedMap
use not_dec_bin2llvm.Memory.{is_executable_address, executable_range_contains}
use not_dec_bin2llvm.Numbers.{hex_address, u64_text}
use not_dec_bin2llvm.Program.{high, add_note}
use not_dec_bin2llvm.Program.Seeds.{add_function_seed, add_function_range}
use not_dec_bin2llvm.EhFrame.{EhFrameStats, add_unsupported_sample, Result, ok, err, ◌>>=◌}
use not_dec_bin2llvm.EhFrame.Bytes.{read_unsigned}
use not_dec_bin2llvm.EhFrame.Encodings.{decode_encoded_address, decode_encoded_range}
use not_dec_bin2llvm.EhFrame.Records.{
  Reader, SectionBytes, CieInfo, count_invalid, note_failure, record_address, parse_cie,
}

-- A record that is not used is counted, with a note or without.
unfoldable pub reject : Reader → Reader
unfolding count_invalid
reject r = record r { stats = count_invalid r.stats }

unfoldable pub reject_with : Reader → Text → Reader
unfolding count_invalid add_note
reject_with r note = record r { program = add_note r.program note; stats = count_invalid r.stats }

unknown_cie_note : ℕ → Text
unfolding hex_address
unknown_cie_note address = codes ".eh_frame FDE references unknown CIE at " ++ hex_address address

crossing_note : ℕ → ℕ → Text
unfolding hex_address u64_text
crossing_note pc_begin pc_range =
    codes ".eh_frame range crosses executable segment at "
    ++ (hex_address pc_begin ++ (codes " size " ++ u64_text pc_range))

past_end_note : ℕ → Text
unfolding hex_address
past_end_note address = codes ".eh_frame record extends past section end at " ++ hex_address address

-- The counters of a function that was reported, new or not.
unfoldable pub count_function : EhFrameStats → ℕ → ℕ → Bool → EhFrameStats
count_function stats pc_begin fde_address inserted = record stats {
  added_seed_count = if inserted then stats.added_seed_count + 1 else stats.added_seed_count;
  overlapped_seed_count =
      if inserted then stats.overlapped_seed_count else stats.overlapped_seed_count + 1;
  frame_fdes = stats.frame_fdes ++ record { pc_begin = pc_begin; fde_address = fde_address } ∷ [];
  parsed_fde_count = stats.parsed_fde_count + 1;
}

abbrev pub eh_frame : Text
eh_frame = codes "eh-frame"

-- The function of an FDE that passed the tests.
unfoldable pub accept : SectionBytes → Reader → ℕ → ℕ → ℕ → Reader
unfolding add_function_seed add_function_range count_function record_address
accept section r record_offset pc_begin pc_range =
    let seeded = add_function_seed r.program pc_begin 0 [] eh_frame high in
    record r {
      program = add_function_range seeded.0 pc_begin pc_begin (pc_begin + pc_range) eh_frame;
      stats = count_function r.stats pc_begin (record_address section record_offset) seeded.1;
    }

-- The tests of a decoded range, and what follows them.
unfoldable pub use_range : SectionBytes → Reader → ℕ → ℕ → ℕ → Reader
unfolding reject reject_with accept is_executable_address executable_range_contains crossing_note
use_range section r record_offset pc_begin pc_range =
    if pc_begin == 0 || pc_range == 0
    then reject r
    else if not (is_executable_address r.program.memory_ranges pc_begin)
    then reject r
    else if ltb (max_u64 - pc_range) pc_begin
    then reject r
    else if not (executable_range_contains r.program.memory_ranges pc_begin (pc_begin + pc_range))
    then reject_with r (crossing_note pc_begin pc_range)
    else accept section r record_offset pc_begin pc_range

unfoldable pub fde_range : SectionBytes → ℕ → ℕ → ℕ → ℕ → Result (ℕ × ℕ)
unfolding decode_encoded_address decode_encoded_range
fde_range section pointer_size encoding offset end = do
  first ←
      decode_encoded_address pointer_size section.section_address section.bytes offset end encoding
  count ← decode_encoded_range pointer_size section.bytes first.0 end encoding
  ok (first.1, count.1)

unfoldable pub count_fde : Reader → Reader
count_fde r = record r { stats = record r.stats { fde_count = r.stats.fde_count + 1 } }

-- An FDE whose CIE is known.
unfoldable pub decode_fde : SectionBytes → Reader → ℕ → CieInfo → ℕ → ℕ → Reader
unfolding fde_range reject note_failure use_range
decode_fde section r record_offset cie offset end =
    elim (fde_range section r.program.pointer_size cie.fde_encoding offset end) [
      | err failure ↦ reject (record r { stats = note_failure r.stats failure })
      | ok p ↦ use_range section r record_offset p.0 p.1
    ]

-- `parseFde` after the count: the CIE stands before the pointer to it.
unfoldable pub find_fde : SectionBytes → Reader → ℕ → ℕ → ℕ → ℕ → ℕ → Reader
unfolding reject reject_with decode_fde record_address unknown_cie_note
find_fde section r record_offset pointer_offset cie_pointer offset end =
    let pointer_address = record_address section pointer_offset in
    if ltb pointer_address cie_pointer
    then reject r
    else elim (OrderedMap.find (pointer_address - cie_pointer) r.cies) [
      | none ↦ reject_with r (unknown_cie_note (pointer_address - cie_pointer))
      | some cie ↦ decode_fde section r record_offset cie offset end
    ]

-- `parseFde`.
unfoldable pub parse_fde : SectionBytes → Reader → ℕ → ℕ → ℕ → ℕ → ℕ → Reader
unfolding count_fde find_fde
parse_fde section r record_offset pointer_offset cie_pointer offset end =
    find_fde section (count_fde r) record_offset pointer_offset cie_pointer offset end

abbrev pub long_record : Text
long_record = codes ".eh_frame 64-bit record length"

-- A record of a known length. Its content may be shorter than the pointer to the CIE, which is then
-- read from what follows.
unfoldable pub parse_content : SectionBytes → Reader → ℕ → ℕ → ℕ → Reader × Option ℕ
unfolding read_unsigned reject reject_with parse_cie parse_fde past_end_note record_address
parse_content section r record_offset offset size =
    if ltb (length section.bytes) size || ltb (length section.bytes - size) offset
    then (reject_with r (past_end_note (record_address section record_offset)), none)
    else elim (read_unsigned section.bytes offset 4) [
      | err failure ↦ (reject r, none)
      | ok p ↦ (
        if p.1 == 0
            then parse_cie section r record_offset (offset + 4) (offset + size)
            else parse_fde section r record_offset offset p.1 p.0 (offset + size),
        some (offset + size),
      )
    ]

-- One round of the loop: the reader after it, and the offset of the next record, if it goes on.
unfoldable pub parse_record : SectionBytes → Reader → ℕ → Reader × Option ℕ
unfolding read_unsigned reject parse_content add_unsupported_sample
parse_record section r record_offset = elim (read_unsigned section.bytes record_offset 4) [
  | err failure ↦ (reject r, none)
  | ok p ↦
      if p.1 == 0
      then (r, none)
      else if p.1 == 0xffffffff
      then (record r { stats = add_unsupported_sample r.stats long_record }, none)
      else parse_content section r record_offset p.0 p.1
]

-- The loop, and whether it ended before the rounds ran out.
unfoldable pub parse_rounds : ℕ → SectionBytes → Reader → ℕ → Reader × Bool
unfolding parse_record
parse_rounds zero section r offset = (r, false)
parse_rounds (suc rounds) section r offset =
    if ltb (length section.bytes) (offset + 4)
    then (r, true)
    else elim (parse_record section r offset).1 [
      | none ↦ ((parse_record section r offset).0, true)
      | some next ↦ parse_rounds rounds section (parse_record section r offset).0 next
    ]

-- `EhFrameReader::parse`. Every record is at least five bytes long, so there are fewer rounds than
-- bytes.
unfoldable pub parse_eh_frame : SectionBytes → Reader → Reader
unfolding parse_rounds
parse_eh_frame section r = (parse_rounds (suc (length section.bytes)) section r 0).0
