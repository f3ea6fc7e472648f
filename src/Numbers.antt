-- ===== src/Numbers.antt =====
-- lib/NativeAnalysis.cpp: how addresses are printed in notes and read back from operand text.
pub mod RoundTrip
mod Examples
use not_dec_bin2llvm.Common.{
  ℕ, zero, suc, ◌+◌, ◌-◌, ◌*◌, ◌/◌, ◌%◌, List, [], ◌∷◌, ◌++◌, Option, none, some, Bool, true, false,
  ltb, leb, ◌==◌, if◌then◌else◌, ◌&&◌, ◌||◌, Text, codes, is_empty, max_u64, ◌≡◌, refl,
}

-- `std::hex` prints lower-case digits.
unfoldable pub hex_digit : ℕ → ℕ
hex_digit d = if ltb d 10 then b'0' + d else b'a' + (d - 10)

-- The digits of `n` before `out`; sixteen rounds are enough for a 64-bit number.
unfoldable pub emit_hex : ℕ → ℕ → Text → Text
emit_hex zero n out = out
emit_hex (suc rounds) n out =
    let rest = emit_hex rounds (n / 16) (hex_digit (n % 16) ∷ out) in
    if n / 16 == 0 then hex_digit (n % 16) ∷ out else rest

unfoldable pub hex_text : ℕ → Text
unfolding emit_hex hex_digit
hex_text n = emit_hex 16 n []

unfoldable pub hex_address : ℕ → Text
unfolding hex_text
hex_address address = codes "0x" ++ hex_text address

-- `std::isxdigit`, and the value of such a digit.
unfoldable pub is_xdigit : ℕ → Bool
is_xdigit c = (leb b'0' c && leb c b'9') || (leb b'a' c && leb c b'f') || (leb b'A' c && leb c b'F')

unfoldable pub xdigit_value : ℕ → ℕ
xdigit_value c =
    if leb c b'9' then c - b'0' else if leb c b'F' then c - b'A' + 10 else c - b'a' + 10

unfoldable pub all_xdigits : Text → Bool
unfolding is_xdigit
all_xdigits [] = true
all_xdigits (c ∷ s) = is_xdigit c && all_xdigits s

unfoldable pub hex_number : ℕ → Text → ℕ
hex_number value [] = value
hex_number value (c ∷ s) = hex_number (value * 16 + xdigit_value c) s

-- The extraction of a number that does not fit sets the stream's fail bit.
unfoldable pub parse_hex : Text → Option ℕ
unfolding all_xdigits hex_number xdigit_value
parse_hex text =
    if is_empty text
    then none
    else if all_xdigits text
    then (if ltb max_u64 (hex_number 0 text) then none else some (hex_number 0 text))
    else none

-- The decimal digits of a number; ten rounds are enough for a 32-bit number.
unfoldable pub emit_dec : ℕ → ℕ → Text → Text
emit_dec zero n out = out
emit_dec (suc rounds) n out =
    let rest = emit_dec rounds (n / 10) ((b'0' + n % 10) ∷ out) in
    if n / 10 == 0 then (b'0' + n % 10) ∷ out else rest

unfoldable pub dec_text : ℕ → Text
unfolding emit_dec
dec_text n = emit_dec 10 n []

-- The decimal digits of a 64-bit number, of which there are at most twenty.
unfoldable pub u64_text : ℕ → Text
unfolding emit_dec
u64_text n = emit_dec 20 n []
