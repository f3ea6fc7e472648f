-- ===== src/EhFrame/Encodings.antt =====
-- lib/NativeAnalysis.cpp: the encoded pointers of `.eh_frame` and of `.eh_frame_hdr`.
use not_dec_bin2llvm.Common.{
  ℕ, ◌+◌, ◌-◌, ◌/◌, ◌%◌, ◌^◌, List, ◌++◌, Option, none, some, Bool, not, ltb, leb, ◌==◌,
  if◌then◌else◌, ◌&&◌, ◌||◌, Text, codes, u64_mod, max_u64, add64,
}
use not_dec_bin2llvm.EhFrame.{Result, ok, err, malformed, unsupported, ◌>>=◌}
use not_dec_bin2llvm.EhFrame.Bytes.{read_unsigned, read_signed, encoding_name, encoded_size}

-- A value in its format: its 64 bits, and the variable that holds the signed reading.
pub record EncodedValue : Type 0 where
  pub next : ℕ
  pub value : ℕ
  pub signed_value : ℕ

unfoldable pub is_negative : ℕ → Bool
is_negative delta = leb (2 ^ 63) delta

-- `static_cast<uint64_t>(-delta)` of a negative `delta`; the negation of the least number, which
-- C++ leaves undefined, wraps.
unfoldable pub negated : ℕ → ℕ
negated delta = u64_mod - delta

-- The sum of an address and a signed number, where it is an address.
unfoldable pub apply_delta : ℕ → ℕ → Option ℕ
unfolding is_negative negated
apply_delta base delta =
    if is_negative delta && ltb base (negated delta)
    then none
    else if not (is_negative delta) && (ltb 0 delta && ltb (max_u64 - delta) base)
    then none
    else some (if is_negative delta then base - negated delta else base + delta)

unfoldable pub unsupported_encoding : ℕ → Text
unfolding encoding_name
unsupported_encoding encoding = codes "unsupported encoding " ++ encoding_name encoding

signed_result : ℕ × ℕ → EncodedValue
signed_result (next, raw) = record { next = next; value = raw; signed_value = raw }

unsigned_result : ℕ × ℕ → EncodedValue
unsigned_result (next, raw) = record { next = next; value = raw; signed_value = 0 }

-- The two kinds of value: 0x0b and 0x0c are signed.
unfoldable pub read_format : List ℕ → ℕ → ℕ → ℕ → Result EncodedValue
unfolding read_unsigned read_signed signed_result unsigned_result
read_format bytes offset size format =
    if format == 0x0b || format == 0x0c
    then (read_signed bytes offset size >>= λ r. ok (signed_result r))
    else (read_unsigned bytes offset size >>= λ r. ok (unsigned_result r))

-- The number that an encoding adds to its base.
unfoldable pub delta_of : ℕ → EncodedValue → ℕ
delta_of encoding v = if encoding / 8 % 2 == 1 then v.signed_value else v.value

unfoldable pub or_malformed {ℓ} : {A : Type ℓ} → Option A → Result A
or_malformed none = err malformed
or_malformed (some a) = ok a

-- The base of an encoded address: none, the field, or the section.
unfoldable pub resolve_address : ℕ → ℕ → ℕ → EncodedValue → Result ℕ
unfolding unsupported_encoding apply_delta delta_of or_malformed
resolve_address section_address field_address encoding v =
    if encoding / 16 % 8 == 1
    then or_malformed (apply_delta field_address (delta_of encoding v))
    else if encoding / 16 % 8 == 3
    then or_malformed (apply_delta section_address (delta_of encoding v))
    else if not (encoding / 16 % 8 == 0)
    then err (unsupported (unsupported_encoding encoding))
    else ok v.value

-- The size of an encoded value that ends before `end`.
unfoldable pub fitting_size : ℕ → ℕ → ℕ → ℕ → Result ℕ
unfolding unsupported_encoding encoded_size
fitting_size pointer_size offset end encoding = elim (encoded_size pointer_size encoding) [
  | none ↦ err (unsupported (unsupported_encoding encoding))
  | some size ↦
      if ltb end offset || ltb (end - offset) size
      then err (unsupported (unsupported_encoding encoding))
      else ok size
]

-- `skipEncoded`.
unfoldable pub skip_encoded : ℕ → ℕ → ℕ → ℕ → Result ℕ
unfolding fitting_size
skip_encoded pointer_size offset end encoding = do
  size ← fitting_size pointer_size offset end encoding
  ok (offset + size)

-- `decodeEncodedAddress` of the `.eh_frame` reader.
unfoldable pub decode_encoded_address : ℕ → ℕ → List ℕ → ℕ → ℕ → ℕ → Result (ℕ × ℕ)
unfolding fitting_size read_format resolve_address
decode_encoded_address pointer_size section_address bytes offset end encoding =
    let decode : Result (ℕ × ℕ) = do
      size ← fitting_size pointer_size offset end encoding
      v ← read_format bytes offset size (encoding % 16)
      address ← resolve_address section_address (add64 section_address offset) encoding v
      ok (v.next, address)
    in if encoding == 0xff then err malformed else decode

-- `decodeEncodedRange`: a negative length is refused, as is the encoding that omits the value.
unfoldable pub decode_encoded_range : ℕ → List ℕ → ℕ → ℕ → ℕ → Result (ℕ × ℕ)
unfolding fitting_size read_format is_negative
decode_encoded_range pointer_size bytes offset end encoding = do
  size ← fitting_size pointer_size offset end encoding
  v ← if encoding == 0xff then err malformed else read_format bytes offset size (encoding % 16)
  if is_negative v.signed_value then err malformed else ok (v.next, v.value)
