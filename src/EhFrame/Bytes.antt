-- ===== src/EhFrame/Bytes.antt =====
-- lib/NativeAnalysis.cpp: the reads of `EhFrameReader` at an offset of the section's bytes. Each gives
-- the offset after what it read, and the value. A signed number is its 64-bit pattern.
use Prim.Native.Nat.{bit_or}
use not_dec_bin2llvm.Common.{
  ℕ, ◌+◌, ◌-◌, ◌*◌, ◌/◌, ◌%◌, ◌^◌, List, [], ◌∷◌, ◌++◌, Option, none, some, not, ltb, leb, ◌==◌,
  if◌then◌else◌, ◌&&◌, ◌||◌, Text, codes, length, get_elem?, take, drop, u64_mod,
}
use not_dec_bin2llvm.Memory.{or_bytes}
use not_dec_bin2llvm.Numbers.{hex_text}
use not_dec_bin2llvm.EhFrame.{Result, ok, err, malformed}

-- The bytes from `offset` to `end`, where `end` is at most the number of bytes.
abbrev pub window : List ℕ → ℕ → ℕ → List ℕ
window bytes offset end = take (end - offset) (drop offset bytes)

-- `readU8`, which does not look at the end of the record.
unfoldable pub read_u8 : List ℕ → ℕ → Result (ℕ × ℕ)
read_u8 bytes offset = elim (get_elem? bytes offset) [
  | none ↦ err malformed
  | some byte ↦ ok (offset + 1, byte)
]

-- `readUnsigned`.
unfoldable pub read_unsigned : List ℕ → ℕ → ℕ → Result (ℕ × ℕ)
unfolding or_bytes
read_unsigned bytes offset size =
    if ltb 8 size || (ltb (length bytes) size || ltb (length bytes - size) offset)
    then err malformed
    else ok (offset + size, or_bytes u64_mod (take size (drop offset bytes)) 0 0)

-- The sign bit of a number of `size` bytes is copied to the bits above.
unfoldable pub sign_extend : ℕ → ℕ → ℕ
sign_extend size raw =
    if size == 8
    then raw
    else if raw / 2 ^ (size * 8 - 1) % 2 == 1
    then bit_or raw ((u64_mod - 1) * 2 ^ (size * 8) % u64_mod)
    else raw

-- `readSigned`.
unfoldable pub read_signed : List ℕ → ℕ → ℕ → Result (ℕ × ℕ)
unfolding read_unsigned sign_extend
read_signed bytes offset size = elim (read_unsigned bytes offset size) [
  | err failure ↦ err failure
  | ok (next, raw) ↦ ok (next, sign_extend size raw)
]

-- `readString`: the loop over the bytes before `end`.
unfoldable pub string_loop : List ℕ → ℕ → Text → Result (ℕ × Text)
string_loop [] offset text = err malformed
string_loop (byte ∷ bytes) offset text =
    let rest = string_loop bytes (offset + 1) (text ++ byte ∷ []) in
    if byte == 0 then ok (offset + 1, text) else rest

unfoldable pub read_string : List ℕ → ℕ → ℕ → Result (ℕ × Text)
unfolding string_loop
read_string bytes offset end = string_loop (window bytes offset end) offset []

-- `readUleb128`. From bit 64 on only zero digits are accepted; their shift, which C++ leaves
-- undefined, gives 0.
unfoldable pub uleb_loop : List ℕ → ℕ → ℕ → ℕ → Result (ℕ × ℕ)
uleb_loop [] offset shift value = err malformed
uleb_loop (byte ∷ bytes) offset shift value =
    let next = bit_or value (byte % 128 * 2 ^ shift % u64_mod) in
    let rest = uleb_loop bytes (offset + 1) (shift + 7) next in
    if leb 64 shift && not (byte % 128 == 0)
    then err malformed
    else if byte / 128 % 2 == 0
    then ok (offset + 1, next)
    else rest

unfoldable pub read_uleb128 : List ℕ → ℕ → ℕ → Result (ℕ × ℕ)
unfolding uleb_loop
read_uleb128 bytes offset end = uleb_loop (window bytes offset end) offset 0 0

-- The bits above the last digit of a negative number.
unfoldable pub sleb_extend : ℕ → ℕ → ℕ → ℕ
sleb_extend byte shift value =
    if ltb shift 64 && byte / 64 % 2 == 1 then bit_or value (u64_mod - 2 ^ shift) else value

-- `readSleb128`.
unfoldable pub sleb_loop : List ℕ → ℕ → ℕ → ℕ → Result (ℕ × ℕ)
unfolding sleb_extend
sleb_loop [] offset shift value = err malformed
sleb_loop (byte ∷ bytes) offset shift value =
    let next = bit_or value (byte % 128 * 2 ^ shift % u64_mod) in
    let rest = sleb_loop bytes (offset + 1) (shift + 7) next in
    if leb 64 shift
    then err malformed
    else if byte / 128 % 2 == 0
    then ok (offset + 1, sleb_extend byte (shift + 7) next)
    else rest

unfoldable pub read_sleb128 : List ℕ → ℕ → ℕ → Result (ℕ × ℕ)
unfolding sleb_loop
read_sleb128 bytes offset end = sleb_loop (window bytes offset end) offset 0 0

-- `encodingName`.
unfoldable pub encoding_name : ℕ → Text
unfolding hex_text
encoding_name encoding = codes "0x" ++ hex_text encoding

-- The size of a value that the low four bits of an encoding give.
unfoldable pub format_size : ℕ → ℕ → Option ℕ
format_size pointer_size format =
    if format == 0x00
    then (if pointer_size == 4 || pointer_size == 8 then some pointer_size else none)
    else if format == 0x03 || format == 0x0b
    then some 4
    else if format == 0x04 || format == 0x0c
    then some 8
    else none

-- `encodedSize`, with `DW_EH_PE_omit` for 0xff.
unfoldable pub encoded_size : ℕ → ℕ → Option ℕ
unfolding format_size
encoded_size pointer_size encoding =
    if encoding == 0xff then some 0 else format_size pointer_size (encoding % 16)
