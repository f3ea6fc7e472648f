-- ===== src/Numbers/RoundTrip.antt =====
-- What is printed by `hexAddress` behind its prefix is read back by `parseHex`.
use not_dec_bin2llvm.Common.{
  ℕ, zero, suc, ◌/◌, ◌%◌, ◌^◌, ◌<◌, [], ◌∷◌, some, true, false, Text, is_empty, u64_mod, ◌≡◌, refl,
  arith,
}
use not_dec_bin2llvm.Numbers.{
  hex_digit, emit_hex, hex_text, is_xdigit, xdigit_value, all_xdigits, hex_number, parse_hex,
}
use native.Mathlib.Nat.{pow-suc}

digit_back : (d : ℕ) → d < 16 → (is_xdigit (hex_digit d) ≡ true) × (xdigit_value (hex_digit d) ≡ d)
unfolding is_xdigit hex_digit xdigit_value
digit_back d h = ground arith

sixteenth_fits : (rounds n : ℕ) → n < 16 ^ suc rounds → n / 16 < 16 ^ rounds
sixteenth_fits rounds n h = omega (arith, pow-suc 16 rounds)

-- Reading the printed digits of `n` and then `out` is reading `out` behind `n`.
hex_number-emit_hex :
    (rounds n : ℕ) (out : Text)
    → n < 16 ^ rounds
    → 0 < rounds
    → hex_number 0 (emit_hex rounds n out) ≡ hex_number n out
unfolding hex_number emit_hex
hex_number-emit_hex zero n out h p = absurd (omega arith)
hex_number-emit_hex (suc zero) n out h p = ground (arith, digit_back (n % 16))
hex_number-emit_hex (suc (suc rounds)) n out h p = ground (
  arith,
  digit_back (n % 16),
  hex_number-emit_hex (suc rounds) (n / 16) (hex_digit (n % 16) ∷ out),
  sixteenth_fits (suc rounds) n h,
)

digit_before :
    (d : ℕ) (out : Text) → d < 16 → all_xdigits out ≡ true → all_xdigits (hex_digit d ∷ out) ≡ true
unfolding all_xdigits
digit_before d out lt h = ground (arith, digit_back d)

all_xdigits-emit_hex :
    (rounds n : ℕ) (out : Text)
    → all_xdigits out ≡ true
    → all_xdigits (emit_hex rounds n out) ≡ true
unfolding emit_hex
all_xdigits-emit_hex zero n out h = h
all_xdigits-emit_hex (suc rounds) n out h = ground (
  arith,
  digit_before (n % 16) out,
  all_xdigits-emit_hex rounds (n / 16) (hex_digit (n % 16) ∷ out),
)

-- Something is printed.
emit_hex-nonempty :
    (rounds n : ℕ) (out : Text) → 0 < rounds → is_empty (emit_hex rounds n out) ≡ false
unfolding emit_hex
emit_hex-nonempty zero n out p = absurd (omega arith)
emit_hex-nonempty (suc zero) n out p = ground arith
emit_hex-nonempty (suc (suc rounds)) n out p =
    ground (arith, emit_hex-nonempty (suc rounds) (n / 16) (hex_digit (n % 16) ∷ out))

-- A 64-bit address is read back from the digits that a note shows behind `0x`.
pub parse_hex-hex_text :
    (address : ℕ) → address < u64_mod → parse_hex (hex_text address) ≡ some address
unfolding parse_hex hex_text hex_number all_xdigits
parse_hex-hex_text address h =
    rw
      (
        emit_hex-nonempty 16 address [] (omega arith),
        all_xdigits-emit_hex 16 address [] refl,
        hex_number-emit_hex 16 address [] h (omega arith),
      )
      (ground arith)
