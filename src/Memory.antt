-- ===== src/Memory.antt =====
-- lib/NativeAnalysis.cpp: the loaded memory ranges of an ELF file and the questions asked of them.
-- A walk over the ranges stops at the first range that starts above the address.
pub mod Loading
mod Examples
pub mod Lookup
pub mod Pointers
use Prim.Native.Nat.{bit_or}
use not_dec_bin2llvm.Common.{
  ℕ, zero, suc, ◌+◌, ◌-◌, ◌*◌, ◌%◌, ◌^◌, List, [], ◌∷◌, Option, none, some, Bool, true, false, not,
  ltb, leb, ◌==◌, if◌then◌else◌, ◌&&◌, ◌||◌, length, drop, take, u64_mod, u32_mod, add64, min, Eq,
  Text, text_beq,
}

-- `NativeMemoryRange`.
pub record MemoryRange : Type 0 where
  pub start : ℕ
  pub size : ℕ
  pub readable : Bool
  pub writable : Bool
  pub executable : Bool
  pub bytes : List ℕ

unfoldable pub contains_address : ℕ → ℕ → ℕ → Bool
contains_address start size address =
    not (size == 0) && (leb start address && ltb (address - start) size)

unfoldable pub is_executable_address : List MemoryRange → ℕ → Bool
unfolding contains_address
is_executable_address [] address = false
is_executable_address (range ∷ ranges) address =
    if ltb address range.start
    then false
    else if range.executable && contains_address range.start range.size address
    then true
    else is_executable_address ranges address

unfoldable pub is_mapped_address : List MemoryRange → ℕ → Bool
unfolding contains_address
is_mapped_address [] address = false
is_mapped_address (range ∷ ranges) address =
    if ltb address range.start
    then false
    else if contains_address range.start range.size address
    then true
    else is_mapped_address ranges address

unfoldable pub find_readable_range : List MemoryRange → ℕ → Option MemoryRange
unfolding contains_address
find_readable_range [] address = none
find_readable_range (range ∷ ranges) address =
    if ltb address range.start
    then none
    else if range.readable && contains_address range.start range.size address
    then some range
    else find_readable_range ranges address

-- No early stop here, and the end is exclusive.
executable_range_loop : List MemoryRange → ℕ → ℕ → Bool
executable_range_loop [] start end = false
executable_range_loop (range ∷ ranges) start end =
    if not range.executable
    then executable_range_loop ranges start end
    else if leb range.start start && leb (end - range.start) range.size
    then true
    else executable_range_loop ranges start end

unfoldable pub executable_range_contains : List MemoryRange → ℕ → ℕ → Bool
unfolding executable_range_loop
executable_range_contains ranges start end =
    if leb end start then false else executable_range_loop ranges start end

-- `value |= static_cast<uint64_t>(byte) << (index * 8)`, byte after byte.
unfoldable pub or_bytes : ℕ → List ℕ → ℕ → ℕ → ℕ
or_bytes modulus [] index value = value
or_bytes modulus (byte ∷ bytes) index value =
    or_bytes modulus bytes (index + 1) (bit_or value (byte * 2 ^ (index * 8) % modulus))

-- `readRawPointer`: the sum of offset and pointer size is a 64-bit one. Where it wraps the source
-- reads outside the vector; the model then decodes the bytes that are there.
unfoldable pub read_raw_pointer : ℕ → List MemoryRange → ℕ → Option ℕ
unfolding or_bytes contains_address
read_raw_pointer pointer_size [] address = none
read_raw_pointer pointer_size (range ∷ ranges) address =
    if ltb address range.start
    then none
    else if not range.readable || not (contains_address range.start range.size address)
    then read_raw_pointer pointer_size ranges address
    else if ltb (length range.bytes) (add64 (address - range.start) pointer_size)
    then none
    else some (or_bytes u64_mod (take pointer_size (drop (address - range.start) range.bytes)) 0 0)

unfoldable pub read_bytes : List MemoryRange → ℕ → ℕ → Option (List ℕ)
unfolding contains_address
read_bytes [] address size = none
read_bytes (range ∷ ranges) address size =
    if ltb address range.start
    then none
    else if not range.readable || not (contains_address range.start range.size address)
    then read_bytes ranges address size
    else if ltb (length range.bytes) size || ltb (length range.bytes - size) (address - range.start)
    then none
    else some (take size (drop (address - range.start) range.bytes))

-- The result is the 64-bit pattern of the `int64_t`.
unfoldable pub sign_extend_32 : ℕ → ℕ
sign_extend_32 raw = if ltb raw (2 ^ 31) then raw else u64_mod - u32_mod + raw

unfoldable pub read_signed32 : List MemoryRange → ℕ → Option ℕ
unfolding read_bytes or_bytes sign_extend_32
read_signed32 ranges address = elim (read_bytes ranges address 4) [
  | none ↦ none
  | some bytes ↦
      if length bytes == 4 then some (sign_extend_32 (or_bytes u32_mod bytes 0 0)) else none
]

unfoldable pub is_likely_c_string_byte : ℕ → Bool
is_likely_c_string_byte byte =
    (leb 0x20 byte && leb byte 0x7e) || byte == b'\t' || byte == b'\n' || byte == b'\r'

-- The loop of `looksLikeReadOnlyCString` over the bytes that are probed.
c_string_loop : List ℕ → ℕ → Bool
unfolding is_likely_c_string_byte
c_string_loop [] count = false
c_string_loop (byte ∷ bytes) count =
    if byte == 0
    then leb 4 count
    else if not (is_likely_c_string_byte byte)
    then false
    else c_string_loop bytes (count + 1)

unfoldable pub looks_like_read_only_c_string : List MemoryRange → ℕ → Bool
unfolding find_readable_range c_string_loop
looks_like_read_only_c_string ranges address = elim (find_readable_range ranges address) [
  | none ↦ false
  | some range ↦
      if range.writable || range.executable
      then false
      else if leb (length range.bytes) (address - range.start)
      then false
      else c_string_loop
          (take (min 256 (length range.bytes - (address - range.start)))
            (drop (address - range.start) range.bytes))
          0
]

unfoldable pub has_bytes_at : List MemoryRange → ℕ → List ℕ → Bool
unfolding read_bytes text_beq
has_bytes_at ranges address expected = elim (read_bytes ranges address (length expected)) [
  | none ↦ false
  | some bytes ↦ text_beq bytes expected
]
