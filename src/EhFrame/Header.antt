-- ===== src/EhFrame/Header.antt =====
-- lib/NativeAnalysis.cpp: `EhFrameHdrReader`, which reads the search table of `.eh_frame_hdr`.
pub mod Table
use not_dec_bin2llvm.Common.{
  ℕ, zero, suc, ◌+◌, ◌-◌, ◌/◌, ◌%◌, List, [], ◌∷◌, ◌++◌, Option, none, some, Bool, true, not, ltb,
  ◌==◌, if◌then◌else◌, ◌&&◌, ◌||◌, Text, codes, length,
}
use not_dec_bin2llvm.Numbers.{dec_text}
use not_dec_bin2llvm.Program.{ProgramState, add_note}
use not_dec_bin2llvm.EhFrame.{
  EhFrameStats, EhFrameHdrEntry, EhFrameState, add_hdr_unsupported_sample, Failure, malformed,
  unsupported, Result, ok, err, ◌>>=◌,
}
use not_dec_bin2llvm.EhFrame.Bytes.{read_u8, read_unsigned, read_signed, format_size}
use not_dec_bin2llvm.EhFrame.Encodings.{
  apply_delta, is_negative, or_malformed, unsupported_encoding,
}
use not_dec_bin2llvm.EhFrame.Records.{SectionBytes, record_address}

-- `readEncodedRaw`'s four results, and its offset.
pub record RawValue : Type 0 where
  pub next : ℕ
  pub value : ℕ
  pub signed_value : ℕ
  pub address : ℕ

unfoldable pub is_format : ℕ → Bool
is_format format =
    format == 0x00 || (format == 0x03 || format == 0x0b) || (format == 0x04 || format == 0x0c)

-- `encodedSize` of this reader: a format that it does not know adds a sample, an absolute pointer of
-- another size does not.
unfoldable pub hdr_encoded_size : ℕ → ℕ → Result ℕ
unfolding is_format format_size or_malformed unsupported_encoding
hdr_encoded_size pointer_size encoding =
    if encoding == 0xff
    then ok 0
    else if is_format (encoding % 16)
    then or_malformed (format_size pointer_size (encoding % 16))
    else err (unsupported (unsupported_encoding encoding))

pub raw_value : ℕ → ℕ × ℕ → RawValue
raw_value address (next, raw) = record {
  next = next;
  value = raw;
  signed_value = raw;
  address = address;
}

-- The bytes of a value, if they are there.
unfoldable pub raw_bytes : SectionBytes → ℕ → ℕ → ℕ → Result (ℕ × ℕ)
unfolding read_signed read_unsigned
raw_bytes section offset encoding size =
    if ltb (length section.bytes) offset || ltb (length section.bytes - offset) size
    then err malformed
    else if encoding % 16 == 0x0b || encoding % 16 == 0x0c
    then read_signed section.bytes offset size
    else read_unsigned section.bytes offset size

-- `readEncodedRaw`: both readings of the value are the same 64 bits.
unfoldable pub read_encoded_raw : ℕ → SectionBytes → ℕ → ℕ → Result RawValue
unfolding hdr_encoded_size raw_bytes raw_value record_address
read_encoded_raw pointer_size section offset encoding =
    let read : Result RawValue = do
      size ← hdr_encoded_size pointer_size encoding
      p ← raw_bytes section offset encoding size
      ok (raw_value (record_address section offset) p)
    in if encoding == 0xff then err malformed else read

-- `applyRelative`.
unfoldable pub apply_relative : SectionBytes → ℕ → RawValue → Result ℕ
unfolding apply_delta or_malformed unsupported_encoding
apply_relative section encoding raw =
    if encoding / 16 % 8 == 0
    then ok raw.value
    else if not (encoding / 16 % 8 == 1) && not (encoding / 16 % 8 == 3)
    then err (unsupported (unsupported_encoding encoding))
    else or_malformed (
        apply_delta (if encoding / 16 % 8 == 1 then raw.address else section.section_address)
          (if encoding / 8 % 2 == 1 then raw.signed_value else raw.value))

-- `decodeEncodedAddress` of this reader.
unfoldable pub decode_hdr_address : ℕ → SectionBytes → ℕ → ℕ → Result (ℕ × ℕ)
unfolding read_encoded_raw apply_relative
decode_hdr_address pointer_size section offset encoding = do
  raw ← read_encoded_raw pointer_size section offset encoding
  address ← apply_relative section encoding raw
  ok (raw.next, address)

-- `decodeEncodedScalar`.
unfoldable pub decode_hdr_scalar : ℕ → SectionBytes → ℕ → ℕ → Result (ℕ × ℕ)
unfolding read_encoded_raw is_negative
decode_hdr_scalar pointer_size section offset encoding = do
  raw ← read_encoded_raw pointer_size section offset encoding
  if encoding / 8 % 2 == 1 && is_negative raw.signed_value
      then err malformed
      else ok (raw.next, if encoding / 8 % 2 == 1 then raw.signed_value else raw.value)

unfoldable pub count_hdr_invalid : EhFrameStats → EhFrameStats
count_hdr_invalid stats = record stats { hdr_invalid_count = stats.hdr_invalid_count + 1 }

unfoldable pub note_hdr_failure : EhFrameStats → Failure → EhFrameStats
unfolding add_hdr_unsupported_sample
note_hdr_failure stats malformed = stats
note_hdr_failure stats (unsupported sample) = add_hdr_unsupported_sample stats sample

-- One row of the table.
unfoldable pub read_row : ℕ → SectionBytes → ℕ → ℕ → Result (ℕ × EhFrameHdrEntry)
unfolding decode_hdr_address
read_row pointer_size section offset encoding = do
  location ← decode_hdr_address pointer_size section offset encoding
  fde ← decode_hdr_address pointer_size section location.0 encoding
  ok (fde.0, record { initial_location = location.1; entry_fde_address = fde.1 })

unfoldable pub add_entry : EhFrameStats → EhFrameHdrEntry → EhFrameStats
add_entry stats entry = record stats { hdr_entries = stats.hdr_entries ++ entry ∷ [] }

unfoldable pub end_table : EhFrameStats → EhFrameStats
end_table stats = record stats {
  hdr_table_entries = length stats.hdr_entries;
  parsed_eh_frame_hdr = true;
}

-- The loop over the rows, which the bytes end when the count of rows is too large.
unfoldable pub table_loop : ℕ → ℕ → SectionBytes → ℕ → ℕ → EhFrameStats → EhFrameStats
unfolding read_row count_hdr_invalid note_hdr_failure add_entry end_table
table_loop zero pointer_size section encoding offset stats = end_table stats
table_loop (suc rows) pointer_size section encoding offset stats =
    elim (read_row pointer_size section offset encoding) [
      | err failure ↦ count_hdr_invalid (note_hdr_failure stats failure)
      | ok p ↦ table_loop rows pointer_size section encoding p.0 (add_entry stats p.1)
    ]

-- The four bytes at the start.
pub record HdrHead : Type 0 where
  pub version : ℕ
  pub pointer_encoding : ℕ
  pub count_encoding : ℕ
  pub table_encoding : ℕ

unfoldable pub hdr_head : List ℕ → Result HdrHead
unfolding read_u8
hdr_head bytes = do
  version ← read_u8 bytes 0
  pointer ← read_u8 bytes version.0
  count ← read_u8 bytes pointer.0
  table ← read_u8 bytes count.0
  ok (record {
    version = version.1;
    pointer_encoding = pointer.1;
    count_encoding = count.1;
    table_encoding = table.1;
  })

-- The pointer to `.eh_frame`, which is ignored, and the number of rows.
unfoldable pub row_count : ℕ → SectionBytes → HdrHead → Result (ℕ × ℕ)
unfolding decode_hdr_address decode_hdr_scalar
row_count pointer_size section head = do
  pointer ← decode_hdr_address pointer_size section 4 head.pointer_encoding
  decode_hdr_scalar pointer_size section pointer.0 head.count_encoding

version_note : ℕ → Text
version_note version = codes ".eh_frame_hdr has unsupported version " ++ dec_text version

unfoldable pub read_table : ℕ → SectionBytes → HdrHead → EhFrameStats → EhFrameStats
unfolding row_count count_hdr_invalid note_hdr_failure add_hdr_unsupported_sample table_loop
read_table pointer_size section head stats = elim (row_count pointer_size section head) [
  | err failure ↦ count_hdr_invalid (note_hdr_failure stats failure)
  | ok p ↦
      if head.table_encoding == 0xff
      then add_hdr_unsupported_sample (record stats { hdr_fde_count = p.1 })
          (codes "omitted FDE table")
      else table_loop p.1 pointer_size section head.table_encoding p.0
          (record stats { hdr_fde_count = p.1 })
]

-- `EhFrameHdrReader::parse`.
unfoldable pub parse_eh_frame_hdr : SectionBytes → EhFrameState → EhFrameState
unfolding hdr_head count_hdr_invalid version_note read_table
parse_eh_frame_hdr section s = elim (hdr_head section.bytes) [
  | err failure ↦ record s { stats = count_hdr_invalid s.stats }
  | ok head ↦
      if not (head.version == 1)
      then record s {
        program = add_note s.program (version_note head.version);
        stats = count_hdr_invalid s.stats;
      }
      else record s { stats = read_table s.program.pointer_size section head s.stats }
]
