-- ===== src/EhFrame/Validity.antt =====
-- The eh-frame analyzer changes the program through its operations only, so the state stays well
-- formed.
use not_dec_bin2llvm.Common.{
  ℕ, [], ◌+◌, ◌≤◌, none, some, Option, max_u64, codes, Text, Option-cases, Bool-cases, inl, inr,
  ◌==◌,
}
use not_dec_bin2llvm.Memory.{read_bytes}
use not_dec_bin2llvm.Memory.Loading.{SectionInfo}
use not_dec_bin2llvm.Program.{ProgramState, high}
use not_dec_bin2llvm.Program.Seeds.{add_function_seed, add_function_range}
use not_dec_bin2llvm.Program.Calls.{step, adds_function_range}
use not_dec_bin2llvm.Program.Calls.Invariant.{IsValid, step-IsValid}
use not_dec_bin2llvm.Analyzers.Entries.Validity.{note-IsValid, seed-IsValid}
use not_dec_bin2llvm.Analyzers.Relocations.Plt.{find_section}
use not_dec_bin2llvm.EhFrame.{EhFrameState, Result-cases}
use not_dec_bin2llvm.EhFrame.Records.{Reader, SectionBytes}
use not_dec_bin2llvm.EhFrame.Frames.{
  reject, reject_with, accept, count_fde, parse_eh_frame, eh_frame,
}
use not_dec_bin2llvm.EhFrame.Events.{
  Event, invalid, noted, sampled, cie_counted, cie_stored, fde_counted, accepted, Events-invariant,
}
use not_dec_bin2llvm.EhFrame.Events.Run.{parse_eh_frame-Events}
use not_dec_bin2llvm.EhFrame.Header.{hdr_head, parse_eh_frame_hdr}
use not_dec_bin2llvm.EhFrame.Compare.{
  compare_if_parsed, use_hdr, use_frame, run_eh_frame, section_bytes, new_reader, reader_state,
  hdr_note, frame_note,
}

pub range-IsValid :
    (s : ProgramState) (address start end : ℕ) (source : Text)
    → end ≤ max_u64
    → IsValid s
    → IsValid (add_function_range s address start end source)
unfolding step
range-IsValid s address start end source fits v =
    step-IsValid s (adds_function_range address start end source) fits v

accept-IsValid :
    (section : SectionBytes) (r : Reader) (record_offset pc_begin pc_range : ℕ)
    → pc_begin + pc_range ≤ max_u64
    → IsValid r.program
    → IsValid (accept section r record_offset pc_begin pc_range).program
unfolding accept
accept-IsValid section r record_offset pc_begin pc_range fits v =
    range-IsValid (add_function_seed r.program pc_begin 0 [] eh_frame high).0 pc_begin pc_begin
      (pc_begin + pc_range) eh_frame fits (seed-IsValid r.program pc_begin 0 [] eh_frame high v)

Event-IsValid :
    (section : SectionBytes) (r t : Reader)
    → Event section r t
    → IsValid r.program
    → IsValid t.program
unfolding reject reject_with count_fde
Event-IsValid section r _ invalid v = v
Event-IsValid section r _ (noted note) v = note-IsValid r.program note v
Event-IsValid section r _ (sampled sample) v = v
Event-IsValid section r _ cie_counted v = v
Event-IsValid section r _ (cie_stored cies) v = v
Event-IsValid section r _ fde_counted v = v
Event-IsValid section r _ (accepted record_offset pc_begin pc_range a) v =
    accept-IsValid section r record_offset pc_begin pc_range a.end_fits v

pub parse_eh_frame-IsValid :
    (section : SectionBytes) (r : Reader)
    → IsValid r.program
    → IsValid (parse_eh_frame section r).program
parse_eh_frame-IsValid section r =
    Events-invariant (λ u. IsValid u.program) (Event-IsValid section)
      (parse_eh_frame-Events section r)

hdr-IsValid :
    (section : SectionBytes) (s : EhFrameState)
    → IsValid s.program
    → IsValid (parse_eh_frame_hdr section s).program
unfolding parse_eh_frame_hdr
hdr-IsValid section s v = elim (Result-cases (hdr_head section.bytes)) [
  | inl (failure, bad) ↦ rw (bad, parse_eh_frame_hdr) v
  | inr (head, good) ↦ elim (Bool-cases (head.version == 1)) [
    | inl one ↦ rw (good, one, parse_eh_frame_hdr) v
    | inr other ↦ rw (good, other, parse_eh_frame_hdr) (note-IsValid s.program _ v)
  ]
]

compare-IsValid : (s : EhFrameState) → IsValid s.program → IsValid (compare_if_parsed s).program
unfolding compare_if_parsed
compare-IsValid s v = elim (Bool-cases s.stats.parsed_eh_frame_hdr) [
  | inl parsed ↦ rw parsed v
  | inr not_parsed ↦ rw not_parsed v
]

use_hdr-IsValid :
    (s : EhFrameState) (hdr : Option SectionInfo)
    → IsValid s.program
    → IsValid (use_hdr s hdr).program
unfolding use_hdr
use_hdr-IsValid s none v = v
use_hdr-IsValid s (some section) v =
    elim (Option-cases (read_bytes s.program.memory_ranges section.address section.size)) [
      | inl missing ↦ rw (missing, use_hdr) (note-IsValid s.program hdr_note v)
      | inr (bytes, found) ↦
          rw (found, use_hdr)
            (compare-IsValid (parse_eh_frame_hdr (section_bytes section bytes) s)
              (hdr-IsValid (section_bytes section bytes) s v))
    ]

use_frame-IsValid :
    (s : EhFrameState) (section : SectionInfo) (hdr : Option SectionInfo)
    → IsValid s.program
    → IsValid (use_frame s section hdr).program
unfolding use_frame new_reader reader_state
use_frame-IsValid s section hdr v =
    elim (Option-cases (read_bytes s.program.memory_ranges section.address section.size)) [
      | inl missing ↦ rw (missing, use_frame) (note-IsValid s.program frame_note v)
      | inr (bytes, found) ↦
          let r = parse_eh_frame (section_bytes section bytes) (new_reader s) in
          rw (found, use_frame)
            (use_hdr-IsValid (reader_state r) hdr
              (parse_eh_frame-IsValid (section_bytes section bytes) (new_reader s) v))
    ]

-- The eh-frame analyzer keeps the invariant of the program state, whatever the sections hold.
pub run_eh_frame-IsValid : (s : EhFrameState) → IsValid s.program → IsValid (run_eh_frame s).program
unfolding run_eh_frame
run_eh_frame-IsValid s v =
    elim (Option-cases (find_section s.program.sections (codes ".eh_frame"))) [
      | inl missing ↦ rw (missing, run_eh_frame) v
      | inr (section, found) ↦ rw (found, run_eh_frame) (use_frame-IsValid _ section _ v)
    ]
