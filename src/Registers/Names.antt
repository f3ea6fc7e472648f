-- ===== src/Registers/Names.antt =====
-- `sanitizeName`, which makes the names of the globals.
use not_dec_bin2llvm.Common.{
  ℕ, [], ◌∷◌, true, false, All, Text, Bool-cases, ◌≡◌, refl, inl, inr, ap, ◌∙◌, arith,
}
use not_dec_bin2llvm.Registers.{
  is_digit, is_name_byte, clean_byte, clean_bytes, guard_digit, sanitize_name,
}

-- A name that LLVM prints without quotes.
abbrev pub StartsPlain : Text → Type 0
StartsPlain [] = Unit
StartsPlain (c ∷ s) = is_digit c ≡ false

abbrev pub IsPlain : Text → Type 0
IsPlain s = All (λ c. is_name_byte c ≡ true) s × StartsPlain s

clean_byte_lem : (c : ℕ) → is_name_byte (clean_byte c) ≡ true
unfolding clean_byte is_name_byte is_digit
clean_byte_lem c = ground arith

clean_bytes-All : (s : Text) → All (λ c. is_name_byte c ≡ true) (clean_bytes s)
unfolding clean_bytes
clean_bytes-All [] = tt
clean_bytes-All (c ∷ s) = (clean_byte_lem c, clean_bytes-All s)

guard_digit-IsPlain : (s : Text) → All (λ c. is_name_byte c ≡ true) s → IsPlain (guard_digit s)
unfolding guard_digit
guard_digit-IsPlain [] h = (tt, tt)
guard_digit-IsPlain (c ∷ s) h = elim (Bool-cases (is_digit c)) [
  | inl digit ↦ rw digit ((unfold is_name_byte in refl, h), unfold is_digit in refl)
  | inr other ↦ rw other (h, other)
]

sanitize_name-IsPlain : (s : Text) → IsPlain (sanitize_name s)
unfolding sanitize_name
sanitize_name-IsPlain s = guard_digit-IsPlain (clean_bytes s) (clean_bytes-All s)

clean_bytes-plain : (s : Text) → All (λ c. is_name_byte c ≡ true) s → clean_bytes s ≡ s
unfolding clean_bytes clean_byte
clean_bytes-plain [] _ = refl
clean_bytes-plain (c ∷ s) (p, h) = rw (p, clean_bytes-plain s h) refl

guard_digit-plain : (s : Text) → StartsPlain s → guard_digit s ≡ s
unfolding guard_digit
guard_digit-plain [] _ = refl
guard_digit-plain (c ∷ s) start = rw start refl

sanitize_name-plain : (s : Text) → IsPlain s → sanitize_name s ≡ s
unfolding sanitize_name
sanitize_name-plain s (h, start) =
    ap guard_digit (clean_bytes-plain s h) ∙ guard_digit-plain s start

-- A sanitized name has only letters, digits, `_`, `$` and `.` and does not begin with a digit,
-- and a name that is so already is not changed.
pub sanitize_name_lem : (s t : Text) → IsPlain (sanitize_name s) × (IsPlain t → sanitize_name t ≡ t)
sanitize_name_lem s t = (sanitize_name-IsPlain s, sanitize_name-plain t)
