-- ===== src/Memory/Examples.antt =====
-- The memory theorems at a small loaded file, and runs of the code.
use not_dec_bin2llvm.Common.{
  ℕ, List, [], ◌∷◌, some, Bool, true, false, ◌≡◌, ◌↔◌, refl, arith, Any, ◌+◌, ◌-◌, ◌^◌,
}
use not_dec_bin2llvm.Memory.{
  MemoryRange, is_executable_address, read_raw_pointer, read_bytes, looks_like_read_only_c_string,
  read_signed32,
}
use not_dec_bin2llvm.Memory.Loading.{Segment}
use not_dec_bin2llvm.Memory.Lookup.{HoldsExecutable, is_executable_address_iff}
use not_dec_bin2llvm.Memory.Pointers.{decoded, read_raw_pointer-read_bytes}

abbrev text_range : MemoryRange
text_range = record {
  start = 0x1000;
  size = 0x20;
  readable = true;
  writable = false;
  executable = true;
  bytes = 0x55 ∷ 0x48 ∷ 0x89 ∷ 0xe5 ∷ 0xc3 ∷ [];
}

abbrev data_range : MemoryRange
data_range = record {
  start = 0x2000;
  size = 0x10;
  readable = true;
  writable = false;
  executable = false;
  bytes = b'm' ∷ b'a' ∷ b'i' ∷ b'n' ∷ 0 ∷ 0x10 ∷ 0x20 ∷ 0x30 ∷ [];
}

abbrev ranges : List MemoryRange
ranges = text_range ∷ data_range ∷ []

abbrev segment_at : ℕ → Bool → Segment
segment_at address load = record {
  is_load = load;
  virtual_address = address;
  virtual_size = 0x10;
  has_r = true;
  has_w = false;
  has_x = true;
  content = [];
}

name_is_a_string : looks_like_read_only_c_string ranges 0x2000 ≡ true
unfolding looks_like_read_only_c_string
name_is_a_string = refl

code_is_no_string : looks_like_read_only_c_string ranges 0x1000 ≡ false
unfolding looks_like_read_only_c_string
code_is_no_string = refl

pointer_is_little_endian : read_raw_pointer 4 ranges 0x2004 ≡ some 0x30201000
unfolding read_raw_pointer
pointer_is_little_endian = refl

negative_offset : read_signed32 ranges 0x1001 ≡ some (2 ^ 64 - 2 ^ 32 + 0xc3e58948)
unfolding read_signed32
negative_offset = refl

is_executable_address_iff_example :
    (is_executable_address ranges 0x1004 ≡ true) ↔ Any (HoldsExecutable 0x1004) ranges
is_executable_address_iff_example = is_executable_address_iff ranges 0x1004 (omega arith)

read_raw_pointer-read_bytes_example :
    read_raw_pointer 8 ranges 0x2000 ≡ decoded (read_bytes ranges 0x2000 8)
read_raw_pointer-read_bytes_example =
    read_raw_pointer-read_bytes 8 ranges 0x2000 (omega arith) (omega arith) (omega arith)
