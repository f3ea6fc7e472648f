-- ===== src/EhFrame/Header/Table.antt =====
-- The rows of the search table: their number is that of the header, or the bytes end the table.
use not_dec_bin2llvm.Common.{
  ℕ, zero, suc, [], ◌∷◌, ◌++◌, ◌+◌, ◌*◌, ◌≤◌, ◌<◌, true, false, length, length-append, Bool-cases,
  inl, inr, ◌==◌, ◌≡◌, ◌⊎◌, refl, arith,
}
use not_dec_bin2llvm.EhFrame.{
  EhFrameStats, EhFrameHdrEntry, add_hdr_unsupported_sample, Failure, malformed, unsupported, ok,
  Result-cases,
}
use not_dec_bin2llvm.EhFrame.Bytes.{read_unsigned, read_signed, format_size}
use not_dec_bin2llvm.EhFrame.Encodings.{or_malformed}
use not_dec_bin2llvm.EhFrame.Records.{SectionBytes}
use not_dec_bin2llvm.EhFrame.Header.{
  RawValue, is_format, hdr_encoded_size, raw_bytes, read_encoded_raw, raw_value, decode_hdr_address,
  read_row, count_hdr_invalid, note_hdr_failure, add_entry, end_table, table_loop, apply_relative,
}

-- A value that is not omitted has four bytes or more.
hdr_size :
    (pointer_size encoding : ℕ) {size : ℕ}
    → encoding == 0xff ≡ false
    → hdr_encoded_size pointer_size encoding ≡ ok size
    → 4 ≤ size
unfolding hdr_encoded_size is_format format_size or_malformed
hdr_size pointer_size encoding given h = ground arith

read_unsigned-advances :
    (section : SectionBytes) (offset size : ℕ) {p : ℕ × ℕ}
    → read_unsigned section.bytes offset size ≡ ok p
    → p.0 ≡ offset + size
unfolding read_unsigned
read_unsigned-advances section offset size h = ground arith

read_signed-advances :
    (section : SectionBytes) (offset size : ℕ) {p : ℕ × ℕ}
    → read_signed section.bytes offset size ≡ ok p
    → p.0 ≡ offset + size
unfolding read_signed
read_signed-advances section offset size h =
    elim (Result-cases (read_unsigned section.bytes offset size)) [
      | inl (e, bad) ↦ absurd (ground (arith, bad))
      | inr (q, good) ↦ ground (arith, good, read_unsigned-advances section offset size good)
    ]

-- The section is behind the value.
Behind : SectionBytes → ℕ → ℕ → Type 0
Behind section offset next = (offset + 4 ≤ next) × (next ≤ length section.bytes)

raw_bytes-advances :
    (section : SectionBytes) (offset encoding size : ℕ) {p : ℕ × ℕ}
    → 4 ≤ size
    → raw_bytes section offset encoding size ≡ ok p
    → Behind section offset p.0
unfolding raw_bytes Behind
raw_bytes-advances section offset encoding size h e =
    ground
      (arith, read_unsigned-advances section offset size, read_signed-advances section offset size)

raw-advances :
    (pointer_size : ℕ) (section : SectionBytes) (offset encoding : ℕ) {raw : RawValue}
    → read_encoded_raw pointer_size section offset encoding ≡ ok raw
    → Behind section offset raw.next
unfolding read_encoded_raw Behind raw_value
raw-advances pointer_size section offset encoding h = elim (Bool-cases (encoding == 0xff)) [
  | inl omitted ↦ absurd (ground (arith, omitted))
  | inr given ↦ elim (Result-cases (hdr_encoded_size pointer_size encoding)) [
    | inl (e, bad) ↦ absurd (ground (arith, given, bad))
    | inr (size, sized) ↦ elim (Result-cases (raw_bytes section offset encoding size)) [
      | inl (e, bad) ↦ absurd (ground (arith, given, sized, bad))
      | inr (p, got) ↦
          let ahead =
            raw_bytes-advances section offset encoding size
              (hdr_size pointer_size encoding given sized) got in
          ground (arith, given, sized, got, ahead)
    ]
  ]
]

address-advances :
    (pointer_size : ℕ) (section : SectionBytes) (offset encoding : ℕ) {p : ℕ × ℕ}
    → decode_hdr_address pointer_size section offset encoding ≡ ok p
    → Behind section offset p.0
unfolding decode_hdr_address Behind
address-advances pointer_size section offset encoding h =
    elim (Result-cases (read_encoded_raw pointer_size section offset encoding)) [
      | inl (e, bad) ↦ absurd (ground (arith, bad))
      | inr (raw, got) ↦ elim (Result-cases (apply_relative section encoding raw)) [
        | inl (e, bad) ↦ absurd (ground (arith, got, bad))
        | inr (address, done) ↦
            let ahead = raw-advances pointer_size section offset encoding got in
            ground (arith, got, done, ahead)
      ]
    ]

-- A row takes eight bytes or more.
row-advances :
    (pointer_size : ℕ) (section : SectionBytes) (offset encoding : ℕ) {p : ℕ × EhFrameHdrEntry}
    → read_row pointer_size section offset encoding ≡ ok p
    → (offset + 8 ≤ p.0) × (p.0 ≤ length section.bytes)
unfolding read_row Behind
row-advances pointer_size section offset encoding h =
    elim (Result-cases (decode_hdr_address pointer_size section offset encoding)) [
      | inl (e, bad) ↦ absurd (ground (arith, bad))
      | inr (q, got) ↦ elim (Result-cases (decode_hdr_address pointer_size section q.0 encoding)) [
        | inl (e, bad) ↦ absurd (ground (arith, got, bad))
        | inr (q', got') ↦
            let ahead = address-advances pointer_size section offset encoding got in
            let ahead' = address-advances pointer_size section q.0 encoding got' in
            ground (arith, got, got', ahead, ahead')
      ]
    ]

-- The table was read whole, or a row failed and the rest is left out.
abbrev pub TableOutcome : EhFrameStats → EhFrameStats → ℕ → Type 0
TableOutcome stats t rows =
    ((t.parsed_eh_frame_hdr ≡ true)
      × (length t.hdr_entries ≡ length stats.hdr_entries + rows)
      × (t.hdr_table_entries ≡ length t.hdr_entries)
      × (t.hdr_invalid_count ≡ stats.hdr_invalid_count))
    ⊎ ((t.parsed_eh_frame_hdr ≡ stats.parsed_eh_frame_hdr)
        × (length t.hdr_entries < length stats.hdr_entries + rows)
        × (t.hdr_invalid_count ≡ stats.hdr_invalid_count + 1))

failed_row :
    (stats : EhFrameStats) (failure : Failure) (rows : ℕ)
    → let t = count_hdr_invalid (note_hdr_failure stats failure) in
      TableOutcome stats t (suc rows) × (length t.hdr_entries ≡ length stats.hdr_entries)
unfolding count_hdr_invalid note_hdr_failure add_hdr_unsupported_sample
failed_row stats malformed rows = (inr (refl, omega arith, refl), refl)
failed_row stats (unsupported sample) rows = (inr (refl, omega arith, refl), refl)

-- From an offset within the section the loop over the rows reads as many rows as the header
-- claims and marks the table as parsed, or reads fewer, counts one invalid table and leaves the
-- mark; the rows read take at most the bytes that are left, eight or more each, whatever count
-- the header claims.
pub table_loop-bounded :
    (rows pointer_size : ℕ) (section : SectionBytes) (encoding offset : ℕ) (stats : EhFrameStats)
    → offset ≤ length section.bytes
    → let t = table_loop rows pointer_size section encoding offset stats in
      TableOutcome stats t rows
      × (8 * length t.hdr_entries + offset ≤ 8 * length stats.hdr_entries + length section.bytes)
unfolding table_loop end_table add_entry
table_loop-bounded zero pointer_size section encoding offset stats h =
    (inl (refl, omega arith, refl, refl), omega arith)
table_loop-bounded (suc rows) pointer_size section encoding offset stats h =
    elim (Result-cases (read_row pointer_size section offset encoding)) [
      | inl (failure, bad) ↦
          let (outcome, same) = failed_row stats failure rows in
          rw (bad, table_loop) (outcome, omega arith)
      | inr (p, got) ↦
          let ahead = row-advances pointer_size section offset encoding got in
          let (outcome, most) =
            table_loop-bounded rows pointer_size section encoding p.0 (add_entry stats p.1)
              ahead.1 in
          let one_more : length (stats.hdr_entries ++ p.1 ∷ []) ≡ length stats.hdr_entries + 1 =
            length-append stats.hdr_entries (p.1 ∷ []) in
          rw (got, table_loop)
            (
              elim outcome [
                | inl (parsed, all, counted, none_invalid) ↦
                    inl (parsed, omega arith, counted, none_invalid)
                | inr (not_parsed, few, invalid) ↦ inr (not_parsed, omega arith, invalid)
              ],
              omega arith,
            )
    ]
