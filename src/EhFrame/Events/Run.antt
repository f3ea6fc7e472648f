-- ===== src/EhFrame/Events/Run.antt =====
-- Every part of `EhFrameReader` is a sequence of the elementary changes.
use not_dec_bin2llvm.Common.{
  ℕ, ◌+◌, ◌-◌, [], ◌∷◌, Option, none, some, true, false, ltb, ◌==◌, ◌||◌, Text, length, max_u64,
  ◌≡◌, refl, arith, Bool-cases, Option-cases, inl, inr, subst,
}
use not_dec_bin2llvm.OrderedMap
use not_dec_bin2llvm.Memory.{is_executable_address, executable_range_contains}
use not_dec_bin2llvm.EhFrame.{EhFrameStats, Failure, malformed, unsupported, Result-cases}
use not_dec_bin2llvm.EhFrame.Bytes.{read_unsigned, read_u8, read_uleb128}
use not_dec_bin2llvm.EhFrame.Records.{
  Reader, SectionBytes, CieInfo, count_cie, note_failure, record_address, parse_cie, cie_head,
  cie_encoding, augmentation_loop, personality, augmentation_sample, store_cie,
}
use not_dec_bin2llvm.EhFrame.Frames.{
  reject, use_range, fde_range, count_fde, decode_fde, find_fde, parse_fde, parse_content,
  parse_record, parse_eh_frame, long_record,
}
use not_dec_bin2llvm.EhFrame.Rounds.{Walk, at_end, returns, goes_on, parse_eh_frame-Walk}
use not_dec_bin2llvm.EhFrame.Events.{
  IsAcceptable, invalid, noted, sampled, cie_counted, cie_stored, fde_counted, accepted, Events,
  nothing, ◌then◌, Events-append,
}

acceptable :
    (r : Reader) (pc_begin pc_range : ℕ)
    → pc_begin == 0 || pc_range == 0 ≡ false
    → is_executable_address r.program.memory_ranges pc_begin ≡ true
    → ltb (max_u64 - pc_range) pc_begin ≡ false
    → executable_range_contains r.program.memory_ranges pc_begin (pc_begin + pc_range) ≡ true
    → IsAcceptable r pc_begin pc_range
acceptable r pc_begin pc_range whole executable fits inside = record {
  begin_nonzero = ground arith;
  range_nonzero = ground arith;
  begin_executable = executable;
  end_fits = ground arith;
  range_inside = inside;
}

module _ (section : SectionBytes) where
  failure-Events :
      (r : Reader) (failure : Failure)
      → Events section r (reject (record r { stats = note_failure r.stats failure }))
  unfolding note_failure
  failure-Events r malformed = invalid then nothing
  failure-Events r (unsupported sample) = sampled sample then invalid then nothing

  range-Events :
      (r : Reader) (record_offset pc_begin pc_range : ℕ)
      → Events section r (use_range section r record_offset pc_begin pc_range)
  unfolding use_range
  range-Events r record_offset pc_begin pc_range =
      let ranges = r.program.memory_ranges in
      elim (Bool-cases (pc_begin == 0 || pc_range == 0)) [
        | inl empty ↦ rw empty (invalid then nothing)
        | inr whole ↦ elim (Bool-cases (is_executable_address ranges pc_begin)) [
          | inr outside ↦ rw (whole, outside) (invalid then nothing)
          | inl executable ↦ elim (Bool-cases (ltb (max_u64 - pc_range) pc_begin)) [
            | inl over ↦ rw (whole, executable, over) (invalid then nothing)
            | inr fits ↦
                elim (Bool-cases
                  (executable_range_contains ranges pc_begin (pc_begin + pc_range))) [
                    | inr crossing ↦ rw (whole, executable, fits, crossing) (noted _ then nothing)
                    | inl inside ↦
                        rw (whole, executable, fits, inside)
                          (accepted record_offset pc_begin pc_range
                              (acceptable r pc_begin pc_range whole executable fits inside)
                            then nothing)
                  ]
          ]
        ]
      ]

  decode-Events :
      (r : Reader) (record_offset : ℕ) (cie : CieInfo) (offset end : ℕ)
      → Events section r (decode_fde section r record_offset cie offset end)
  unfolding decode_fde
  decode-Events r record_offset cie offset end =
      elim (Result-cases (fde_range section r.program.pointer_size cie.fde_encoding offset end)) [
        | inl (failure, bad) ↦ rw (bad, decode_fde) (failure-Events r failure)
        | inr (p, good) ↦ rw (good, decode_fde) (range-Events r record_offset p.0 p.1)
      ]

  find-Events :
      (r : Reader) (record_offset pointer_offset cie_pointer offset end : ℕ)
      → Events section r (find_fde section r record_offset pointer_offset cie_pointer offset end)
  unfolding find_fde
  find-Events r record_offset pointer_offset cie_pointer offset end =
      let pointer_address = record_address section pointer_offset in
      elim (Bool-cases (ltb pointer_address cie_pointer)) [
        | inl before ↦ rw before (invalid then nothing)
        | inr after ↦ elim (Option-cases (OrderedMap.find (pointer_address - cie_pointer) r.cies)) [
          | inl missing ↦ rw (after, missing, find_fde) (noted _ then nothing)
          | inr (cie, found) ↦
              rw (after, found, find_fde) (decode-Events r record_offset cie offset end)
        ]
      ]

  -- What the augmentation does to the statistics of a reader.
  augmentation-Events :
      (pointer_size end : ℕ) (cs : Text) (offset encoding : ℕ) (stats : EhFrameStats) (r : Reader)
      → let found = augmentation_loop section.bytes pointer_size end cs offset encoding stats in
        Events section (record r { stats = stats }) (record r { stats = found.0 })
  unfolding augmentation_loop reject
  augmentation-Events pointer_size end [] offset encoding stats r = nothing
  augmentation-Events pointer_size end (c ∷ cs) offset encoding stats r =
      elim (Bool-cases (c == b'P')) [
        | inl p ↦ elim (Result-cases (personality section.bytes pointer_size end offset)) [
          | inl (malformed, bad) ↦ rw (p, bad, augmentation_loop) nothing
          | inl (unsupported sample, bad) ↦
              rw (p, bad, augmentation_loop) (sampled sample then nothing)
          | inr (next, good) ↦
              rw (p, good, augmentation_loop)
                (augmentation-Events pointer_size end cs next encoding stats r)
        ]
        | inr not_p ↦ elim (Bool-cases (c == b'L')) [
          | inl l ↦ elim (Result-cases (read_u8 section.bytes offset)) [
            | inl (failure, bad) ↦ rw (not_p, l, bad, augmentation_loop) (invalid then nothing)
            | inr (next, good) ↦
                rw (not_p, l, good, augmentation_loop)
                  (augmentation-Events pointer_size end cs next.0 encoding stats r)
          ]
          | inr not_l ↦ elim (Bool-cases (c == b'R')) [
            | inl letter ↦ elim (Result-cases (read_u8 section.bytes offset)) [
              | inl (failure, bad) ↦
                  rw (not_p, not_l, letter, bad, augmentation_loop) (invalid then nothing)
              | inr (next, good) ↦
                  rw (not_p, not_l, letter, good, augmentation_loop)
                    (augmentation-Events pointer_size end cs next.0 next.1 stats r)
            ]
            | inr other ↦ rw (not_p, not_l, other) (sampled (augmentation_sample c) then nothing)
          ]
        ]
      ]

  encoding-Events :
      (pointer_size end : ℕ) (augmentation : Text) (offset : ℕ) (stats : EhFrameStats) (r : Reader)
      → let found = cie_encoding section.bytes pointer_size end augmentation offset stats in
        Events section (record r { stats = stats }) (record r { stats = found.0 })
  unfolding cie_encoding reject
  encoding-Events pointer_size end [] offset stats r = nothing
  encoding-Events pointer_size end (c ∷ cs) offset stats r = elim (Bool-cases (c == b'z')) [
    | inr plain ↦ rw plain nothing
    | inl z ↦ elim (Result-cases (read_uleb128 section.bytes offset end)) [
      | inl (failure, bad) ↦ rw (z, bad, cie_encoding) (invalid then nothing)
      | inr (p, good) ↦ elim (Bool-cases (ltb end p.1 || ltb (end - p.1) p.0)) [
        | inl over ↦ rw (z, good, over, cie_encoding) (invalid then nothing)
        | inr fits ↦
            rw (z, good, fits, cie_encoding)
              (augmentation-Events pointer_size (p.0 + p.1) cs p.0 0x00 stats r)
      ]
    ]
  ]

  store-Events :
      (r : Reader) (address : ℕ) (found : EhFrameStats × Option ℕ)
      → Events section (record r { stats = found.0 }) (store_cie r address found)
  unfolding store_cie
  store-Events r address (stats, none) = nothing
  store-Events r address (stats, some encoding) = cie_stored _ then nothing

  cie-Events :
      (r : Reader) (record_offset offset end : ℕ)
      → Events section r (parse_cie section r record_offset offset end)
  unfolding parse_cie reject
  cie-Events r record_offset offset end = elim (Result-cases (cie_head section.bytes offset end)) [
    | inl (failure, bad) ↦ rw (bad, parse_cie) (cie_counted then invalid then nothing)
    | inr (head, good) ↦
        rw (good, parse_cie)
          (cie_counted
            then Events-append
                (encoding-Events r.program.pointer_size end head.1 head.0 (count_cie r.stats) r)
                (store-Events r (record_address section record_offset) _))
  ]

  content-Events :
      (r : Reader) (record_offset offset size : ℕ)
      → Events section r (parse_content section r record_offset offset size).0
  unfolding parse_content parse_fde
  content-Events r record_offset offset size =
      elim (Bool-cases
        (ltb (length section.bytes) size || ltb (length section.bytes - size) offset)) [
          | inl over ↦ rw over (noted _ then nothing)
          | inr fits ↦ elim (Result-cases (read_unsigned section.bytes offset 4)) [
            | inl (failure, bad) ↦ rw (fits, bad, parse_content) (invalid then nothing)
            | inr (p, good) ↦ elim (Bool-cases (p.1 == 0)) [
              | inl cie ↦
                  rw (fits, good, cie, parse_content)
                    (cie-Events r record_offset (offset + 4) (offset + size))
              | inr fde ↦
                  rw (fits, good, fde, parse_content)
                    (fde_counted
                      then find-Events (count_fde r) record_offset offset p.1 p.0 (offset + size))
            ]
          ]
        ]

  record-Events : (r : Reader) (offset : ℕ) → Events section r (parse_record section r offset).0
  unfolding parse_record
  record-Events r offset = elim (Result-cases (read_unsigned section.bytes offset 4)) [
    | inl (failure, bad) ↦ rw (bad, parse_record) (invalid then nothing)
    | inr (p, good) ↦ elim (Bool-cases (p.1 == 0)) [
      | inl last ↦ rw (good, last, parse_record) nothing
      | inr length_given ↦ elim (Bool-cases (p.1 == 0xffffffff)) [
        | inl long ↦ rw (good, length_given, long, parse_record) (sampled long_record then nothing)
        | inr short ↦ rw (good, length_given, short, parse_record) (content-Events r offset p.0 p.1)
      ]
    ]
  ]

  Walk-Events : {r t : Reader} {offset : ℕ} → Walk section r offset t → Events section r t
  Walk-Events (at_end short) = nothing
  Walk-Events {r} {t} {offset} (returns inside last e) =
      subst (Events section r) e (record-Events r offset)
  Walk-Events {r} {t} {offset} (goes_on inside more w) =
      Events-append (record-Events r offset) (Walk-Events w)

  -- The reader's run is a sequence of the elementary changes.
  pub parse_eh_frame-Events : (r : Reader) → Events section r (parse_eh_frame section r)
  parse_eh_frame-Events r =
      Walk-Events (((parse_eh_frame-Walk section r 0).1 (parse_eh_frame section r)).1 refl)
