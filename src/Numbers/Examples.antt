-- ===== src/Numbers/Examples.antt =====
-- The number theorems at concrete inputs, and runs of the code.
use not_dec_bin2llvm.Common.{none, some, codes, ◌≡◌, refl, arith}
use not_dec_bin2llvm.Numbers.{hex_address, hex_text, parse_hex}
use not_dec_bin2llvm.Numbers.RoundTrip.{parse_hex-hex_text}

hex_of_entry : hex_address 0x401abc ≡ codes "0x401abc"
unfolding hex_address
hex_of_entry = refl

upper_case_is_read : parse_hex (codes "7FfE") ≡ some 0x7ffe
unfolding parse_hex
upper_case_is_read = refl

too_long_is_refused : parse_hex (codes "10000000000000000") ≡ none
unfolding parse_hex
too_long_is_refused = refl

parse_hex-hex_text_example : parse_hex (hex_text 0x401abc) ≡ some 0x401abc
parse_hex-hex_text_example = parse_hex-hex_text 0x401abc (omega arith)
