-- ===== src/EhFrame/Relative.antt =====
-- Relative addresses: the sum is exact or refused, and what a compiler encodes is what is decoded.
use not_dec_bin2llvm.Common.{
  ℕ, [], ◌∷◌, ◌++◌, ◌+◌, ◌-◌, ◌/◌, ◌%◌, ◌^◌, ◌≤◌, ◌<◌, List, false, ◌||◌, some, length, drop, ◌≡◌,
  ◌↔◌, ◌⊎◌, refl, arith, if◌then◌else◌, u64_mod, u32_mod, add64, sub64, ltb, length-append,
  bit_or_shifted,
}
use not_dec_bin2llvm.Memory.{or_bytes}
use not_dec_bin2llvm.Memory.Pointers.{little_endian, or_bytes-little_endian}
use not_dec_bin2llvm.EhFrame.{ok}
use not_dec_bin2llvm.EhFrame.Bytes.{
  read_unsigned, read_signed, sign_extend, encoded_size, format_size,
}
use not_dec_bin2llvm.EhFrame.Encodings.{
  is_negative, negated, apply_delta, delta_of, or_malformed, resolve_address, fitting_size,
  read_format, decode_encoded_address,
}

-- `a` is the sum of an address and of the signed number with the 64-bit pattern `delta`.
abbrev pub IsSum : ℕ → ℕ → ℕ → Type 0
IsSum base delta a =
    ((delta < 2 ^ 63) × (a ≡ base + delta)) ⊎ ((2 ^ 63 ≤ delta) × (a + (2 ^ 64 - delta) ≡ base))

-- The sum of a 64-bit address and a signed 64-bit number is returned exactly if it lies in the
-- address space, and no other number is.
pub apply_delta_iff :
    (base delta a : ℕ)
    → base < 2 ^ 64
    → delta < 2 ^ 64
    → (apply_delta base delta ≡ some a) ↔ ((a < 2 ^ 64) × IsSum base delta a)
unfolding apply_delta is_negative negated
apply_delta_iff base delta a hb hd = (λ e. ground arith, λ (fits, sum). ground arith)

-- Four bytes, lowest first.
abbrev pub four_bytes : ℕ → List ℕ
four_bytes n = n % 256 ∷ n / 256 % 256 ∷ n / 65536 % 256 ∷ n / 16777216 % 256 ∷ []

four_bytes-value : (n : ℕ) → n < 2 ^ 32 → or_bytes u64_mod (four_bytes n) 0 0 ≡ n
unfolding little_endian
four_bytes-value n h = omega (
  arith,
  or_bytes-little_endian 8 (four_bytes n) 0 0
      (omega arith, (omega arith, (omega arith, (omega arith, tt)))) (omega arith) (omega arith),
)

pub drop-length-append : (xs ys : List ℕ) → drop (length xs) (xs ++ ys) ≡ ys
drop-length-append [] ys = refl
drop-length-append (x ∷ xs) ys = drop-length-append xs ys

read_four :
    (before after : List ℕ) (n : ℕ)
    → n < 2 ^ 32
    → read_unsigned (before ++ (four_bytes n ++ after)) (length before) 4
      ≡ ok (length before + 4, n)
unfolding read_unsigned
read_four before after n h =
    rw (drop-length-append before (four_bytes n ++ after), four_bytes-value n h)
      (ground (arith, length-append before (four_bytes n ++ after)))

sign_extend_four :
    (n : ℕ) → n < 2 ^ 32 → sign_extend 4 n ≡ (if ltb n (2 ^ 31) then n else n + (2 ^ 64 - 2 ^ 32))
unfolding sign_extend
sign_extend_four n h = ground (arith, bit_or_shifted 32 n (2 ^ 32 - 1) h)

signed_pattern : ℕ → ℕ
signed_pattern n = if ltb n (2 ^ 31) then n else n + (2 ^ 64 - 2 ^ 32)

read_signed_four :
    (before after : List ℕ) (n : ℕ)
    → n < 2 ^ 32
    → read_format (before ++ (four_bytes n ++ after)) (length before) 4 0x0b
      ≡ ok (record {
        next = length before + 4;
        value = signed_pattern n;
        signed_value = signed_pattern n;
      })
unfolding read_format read_signed signed_pattern
read_signed_four before after n h =
    rw (read_four before after n h, read_signed, sign_extend_four n h) refl

-- The wrapped difference of two near addresses, read as a signed number, is their difference.
near_IsSum :
    (field target : ℕ)
    → field < 2 ^ 64
    → target < 2 ^ 64
    → target < field + 2 ^ 31
    → field ≤ target + 2 ^ 31
    → (signed_pattern (sub64 target field % u32_mod) < 2 ^ 64)
      × IsSum field (signed_pattern (sub64 target field % u32_mod)) target
unfolding signed_pattern
near_IsSum field target hf ht above below = ground arith

-- A 64-bit address less than 2 GiB from its field, written as the four bytes of its distance with
-- the encoding 0x1b, is decoded to that address, wherever the bytes stand in the section before
-- the end of the record.
pub decode_four_bytes :
    (pointer_size section_address target end : ℕ) (before after : List ℕ)
    → let offset = length before in
      let field = add64 section_address offset in
      target < 2 ^ 64
      → target < field + 2 ^ 31
      → field ≤ target + 2 ^ 31
      → offset + 4 ≤ end
      → decode_encoded_address pointer_size section_address
          (before ++ (four_bytes (sub64 target field % u32_mod) ++ after))
          offset
          end
          0x1b
        ≡ ok (offset + 4, target)
unfolding decode_encoded_address fitting_size encoded_size format_size resolve_address delta_of
    or_malformed
decode_four_bytes pointer_size section_address target end before after ht above below fits =
    let offset = length before in
    let field = add64 section_address offset in
    let n = sub64 target field % u32_mod in
    let room : ltb end offset || ltb (end - offset) 4 ≡ false = ground arith in
    let near = near_IsSum field target (omega arith) ht above below in
    let sum =
      (apply_delta_iff field (signed_pattern n) target (omega arith) near.0).1 (ht, near.1) in
    rw (room, read_signed_four before after n (omega arith), sum) refl
