-- ===== src/Memory/Pointers.antt =====
-- `readRawPointer` is the little-endian number of the bytes that `readBytes` returns.
use Prim.Native.Nat.{bit_or}
use not_dec_bin2llvm.Common.{
  ℕ, zero, suc, ◌+◌, ◌-◌, ◌*◌, ◌%◌, ◌^◌, List, [], ◌∷◌, Option, none, some, ◌≤◌, ◌<◌, All, ◌≡◌,
  refl, ◌∙◌, arith, length, take, drop, u64_mod, ap, bit_or_shifted,
}
use native.Mathlib.Nat.{mod-eq_of_lt, one-le-pow, pow-le-pow_right, le_trans}
use native.Mathlib.Numerals.{towards_suc}
use not_dec_bin2llvm.Memory.{MemoryRange, or_bytes, read_raw_pointer, read_bytes}

abbrev pub AreBytes : List ℕ → Type 0
AreBytes = All (λ b. b < 256)

-- The number whose base-256 digits are the bytes, lowest first.
unfoldable pub little_endian : List ℕ → ℕ
little_endian [] = 0
little_endian (byte ∷ bytes) = byte + 256 * little_endian bytes

byte_shift : (n : ℕ) → 2 ^ (n + 8) ≡ 256 * 2 ^ n
byte_shift n = simp towards_suc (omega arith)

next_byte : (i : ℕ) → 2 ^ ((i + 1) * 8) ≡ 256 * 2 ^ (i * 8)
next_byte i =
    let e : (i + 1) * 8 ≡ i * 8 + 8 = omega arith in ap (λ (t : ℕ). 2 ^ t) e ∙ byte_shift (i * 8)

shifted_lt : (b i : ℕ) → b < 256 → b * 2 ^ (i * 8) < 2 ^ ((i + 1) * 8)
shifted_lt b i h =
    let p : 0 < 2 ^ (i * 8) = one-le-pow (i * 8) 2 (omega arith) in grind (arith, next_byte i)

below_modulus : (k i : ℕ) → i < k → 2 ^ ((i + 1) * 8) ≤ 2 ^ (k * 8)
below_modulus k i h = pow-le-pow_right (omega arith) (omega arith)

-- One round adds the byte at its place: the bits do not meet, and nothing is shifted out.
one_byte :
    (k b i value : ℕ)
    → b < 256
    → i < k
    → value < 2 ^ (i * 8)
    → bit_or value (b * 2 ^ (i * 8) % 2 ^ (k * 8)) ≡ value + b * 2 ^ (i * 8)
one_byte k b i value hb hi hv =
    rw (mod-eq_of_lt (le_trans (shifted_lt b i hb) (below_modulus k i hi)))
      (bit_or_shifted (i * 8) value b hv)

next_value :
    (b i value : ℕ) → b < 256 → value < 2 ^ (i * 8) → value + b * 2 ^ (i * 8) < 2 ^ ((i + 1) * 8)
next_value b i value hb small =
    let most : b * 2 ^ (i * 8) ≤ 255 * 2 ^ (i * 8) = grind arith in omega (arith, next_byte i)

pub or_bytes-little_endian :
    (k : ℕ) (bytes : List ℕ) (i value : ℕ)
    → AreBytes bytes
    → i + length bytes ≤ k
    → value < 2 ^ (i * 8)
    → or_bytes (2 ^ (k * 8)) bytes i value ≡ value + little_endian bytes * 2 ^ (i * 8)
unfolding or_bytes little_endian
or_bytes-little_endian k [] i value h fits small = omega arith
or_bytes-little_endian k (b ∷ bytes) i value (hb, h) fits small =
    rw (one_byte k b i value hb (omega arith) small) (
      omega (
        arith,
        or_bytes-little_endian k bytes (i + 1) (value + b * 2 ^ (i * 8)) h (omega arith)
            (next_value b i value hb small),
        ap (λ (t : ℕ). little_endian bytes * t) (next_byte i),
      ))

All-take : (P : ℕ → Type 0) (n : ℕ) (xs : List ℕ) → All P xs → All P (take n xs)
All-take P zero xs h = tt
All-take P (suc n) [] h = tt
All-take P (suc n) (x ∷ xs) (p, h) = (p, All-take P n xs h)

All-drop : (P : ℕ → Type 0) (n : ℕ) (xs : List ℕ) → All P xs → All P (drop n xs)
All-drop P zero xs h = h
All-drop P (suc n) [] h = tt
All-drop P (suc n) (x ∷ xs) (p, h) = All-drop P n xs h

length-take-le : (n : ℕ) (xs : List ℕ) → length (take n xs) ≤ n
length-take-le zero xs = omega arith
length-take-le (suc n) [] = omega arith
length-take-le (suc n) (x ∷ xs) = omega (arith, length-take-le n xs)

-- What the loop of `readRawPointer` computes from the bytes of a pointer.
decode :
    (pointer_size offset : ℕ) (bytes : List ℕ)
    → pointer_size ≤ 8
    → AreBytes bytes
    → or_bytes u64_mod (take pointer_size (drop offset bytes)) 0 0
      ≡ little_endian (take pointer_size (drop offset bytes))
decode n offset bytes h all = omega (
  arith,
  or_bytes-little_endian 8 (take n (drop offset bytes)) 0 0
      (All-take _ n (drop offset bytes) (All-drop _ offset bytes all))
      (omega (arith, length-take-le n (drop offset bytes))) (omega arith),
)

abbrev pub decoded : Option (List ℕ) → Option ℕ
decoded none = none
decoded (some bytes) = some (little_endian bytes)

-- Where the ranges hold bytes, a pointer of at most eight bytes that does not cross the end of
-- the address space reads as the little-endian number of the bytes at its address, and as nothing
-- exactly where these are not readable.
pub read_raw_pointer-read_bytes :
    (pointer_size : ℕ) (ranges : List MemoryRange) (address : ℕ)
    → pointer_size ≤ 8
    → address + pointer_size < u64_mod
    → All (λ (r : MemoryRange). AreBytes r.bytes) ranges
    → read_raw_pointer pointer_size ranges address
      ≡ decoded (read_bytes ranges address pointer_size)
unfolding read_raw_pointer read_bytes
read_raw_pointer-read_bytes n [] address h fits all = refl
read_raw_pointer-read_bytes n (r ∷ ranges) address h fits (bytes, all) = ground (
  arith,
  read_raw_pointer-read_bytes n ranges address h fits all,
  decode n (address - r.start) r.bytes h bytes,
)
