-- ===== src/EhFrame/Leb.antt =====
-- Unsigned LEB128 numbers: what is encoded is read back.
use Prim.Native.Nat.{bit_or}
use not_dec_bin2llvm.Common.{
  ℕ, zero, suc, [], ◌∷◌, ◌++◌, ◌+◌, ◌-◌, ◌*◌, ◌/◌, ◌%◌, ◌^◌, ◌≤◌, ◌<◌, List, true, false, leb, not,
  ◌&&◌, length, Bool-cases, inl, inr, ◌==◌, ◌≡◌, refl, ◌∙◌, ap, arith, if◌then◌else◌, u64_mod,
  bit_or_shifted, take,
}
use native.Mathlib.Nat.{mod-eq_of_lt, pow-le-pow_right}
use native.Mathlib.Numerals.{towards_suc}
use not_dec_bin2llvm.EhFrame.{ok}
use not_dec_bin2llvm.EhFrame.Relative.{drop-length-append}
use not_dec_bin2llvm.EhFrame.Bytes.{uleb_loop, read_uleb128}

-- The digits of `n` to base 128, lowest first, the last one without the mark.
unfoldable pub uleb_digits : ℕ → ℕ → List ℕ
uleb_digits zero n = n % 128 ∷ []
uleb_digits (suc rounds) n =
    let rest = uleb_digits rounds (n / 128) in
    if n / 128 == 0 then n ∷ [] else (128 + n % 128) ∷ rest

-- Ten digits are enough for 64 bits.
unfoldable pub uleb128 : ℕ → List ℕ
unfolding uleb_digits
uleb128 n = uleb_digits 9 n

seven_bits : (s : ℕ) → 2 ^ (s + 7) ≡ 128 * 2 ^ s
seven_bits s = simp towards_suc (omega arith)

digit_split : (n t : ℕ) → n % 128 * t + n / 128 * (128 * t) ≡ n * t
digit_split n t =
    let e : n % 128 + n / 128 * 128 ≡ n = omega arith in
    let f : (n % 128 + n / 128 * 128) * t ≡ n * t = ap (λ (m : ℕ). m * t) e in grind (arith, f)

-- Above bit 63 there is no digit left.
no_digit : (n s : ℕ) → n * 2 ^ s < 2 ^ 64 → 64 ≤ s → n ≡ 0
no_digit zero s h k = refl
no_digit (suc n) s h k =
    let big : 2 ^ 64 ≤ 2 ^ s = pow-le-pow_right (omega arith) k in
    let more : 2 ^ s ≤ suc n * 2 ^ s = grind arith in absurd (omega arith)

module _ (n s value : ℕ) (fits : n * 2 ^ s < 2 ^ 64) (small : value < 2 ^ s) where
  digit_fits : n % 128 * 2 ^ s < 2 ^ 64
  digit_fits = omega (arith, digit_split n (2 ^ s))

  -- One round adds the digit at its place.
  one_digit : bit_or value (n % 128 * 2 ^ s % u64_mod) ≡ value + n % 128 * 2 ^ s
  one_digit = rw (mod-eq_of_lt digit_fits) (bit_or_shifted s value (n % 128) small)

  next_small : value + n % 128 * 2 ^ s < 2 ^ (s + 7)
  next_small = let most : n % 128 * 2 ^ s ≤ 127 * 2 ^ s = grind arith in omega (arith, seven_bits s)

  next_fits : n / 128 * 2 ^ (s + 7) < 2 ^ 64
  next_fits =
      let e : n / 128 * 2 ^ (s + 7) ≡ n / 128 * (128 * 2 ^ s) =
        ap (λ (t : ℕ). n / 128 * t) (seven_bits s) in
      omega (arith, digit_split n (2 ^ s))

  next_sum : value + n % 128 * 2 ^ s + n / 128 * 2 ^ (s + 7) ≡ value + n * 2 ^ s
  next_sum =
      let e : n / 128 * 2 ^ (s + 7) ≡ n / 128 * (128 * 2 ^ s) =
        ap (λ (t : ℕ). n / 128 * t) (seven_bits s) in
      omega (arith, digit_split n (2 ^ s))

  -- The test for digits above bit 63 lets every digit of a 64-bit number pass.
  not_over : leb 64 s && not (n % 128 == 0) ≡ false
  not_over = elim (Bool-cases (leb 64 s)) [
    | inl high ↦ rw (no_digit n s fits (ground (arith, high)), high) refl
    | inr low ↦ rw low refl
  ]

  -- One round on a byte whose low bits are the lowest digit.
  byte_step :
      (byte offset : ℕ) (bytes : List ℕ)
      → byte % 128 ≡ n % 128
      → uleb_loop (byte ∷ bytes) offset s value ≡ (
          if byte / 128 % 2 == 0
          then ok (offset + 1, value + n % 128 * 2 ^ s)
          else uleb_loop bytes (offset + 1) (s + 7) (value + n % 128 * 2 ^ s))
  unfolding uleb_loop
  byte_step byte offset bytes same = rw (same, not_over, one_digit) refl

  -- The last byte, and a byte that another one follows.
  last_step :
      (offset : ℕ) (bytes : List ℕ)
      → n < 128
      → uleb_loop (n ∷ bytes) offset s value ≡ ok (offset + 1, value + n * 2 ^ s)
  last_step offset bytes low =
      let d : n % 128 ≡ n = omega arith in
      let q : n / 128 % 2 == 0 ≡ true = ground arith in
      byte_step n offset bytes refl ∙ rw (q, d) refl

  middle_step :
      (offset : ℕ) (bytes : List ℕ)
      → uleb_loop ((128 + n % 128) ∷ bytes) offset s value
        ≡ uleb_loop bytes (offset + 1) (s + 7) (value + n % 128 * 2 ^ s)
  middle_step offset bytes =
      let d : (128 + n % 128) % 128 ≡ n % 128 = omega arith in
      let q : (128 + n % 128) / 128 % 2 == 0 ≡ false = ground arith in
      byte_step (128 + n % 128) offset bytes d ∙ rw q refl

rounds_enough : (rounds n : ℕ) → n < 2 ^ (7 * suc rounds + 7) → n / 128 < 2 ^ (7 * rounds + 7)
rounds_enough rounds n h =
    let e : 7 * suc rounds + 7 ≡ 7 * rounds + 7 + 7 = omega arith in
    let f : 2 ^ (7 * suc rounds + 7) ≡ 2 ^ (7 * rounds + 7 + 7) = ap (λ (k : ℕ). 2 ^ k) e in
    omega (arith, seven_bits (7 * rounds + 7))

loop-digits :
    (rounds n offset s value : ℕ) (after : List ℕ)
    → n < 2 ^ (7 * rounds + 7)
    → n * 2 ^ s < 2 ^ 64
    → value < 2 ^ s
    → uleb_loop (uleb_digits rounds n ++ after) offset s value
      ≡ ok (offset + length (uleb_digits rounds n), value + n * 2 ^ s)
unfolding uleb_loop uleb_digits
loop-digits zero n offset s value after h fits small =
    let d : n % 128 ≡ n = omega arith in rw d (last_step n s value fits small offset after h)
loop-digits (suc rounds) n offset s value after h fits small = elim (Bool-cases (n / 128 == 0)) [
  | inl last ↦
      rw (last, uleb_digits) (last_step n s value fits small offset after (ground (arith, last)))
  | inr more ↦
      let value' = value + n % 128 * 2 ^ s in
      let later =
        loop-digits rounds (n / 128) (offset + 1) (s + 7) value' after (rounds_enough rounds n h)
          (next_fits n s value fits small) (next_small n s value fits small) in
      let long : offset + 1 + length (uleb_digits rounds (n / 128))
          ≡ offset + suc (length (uleb_digits rounds (n / 128))) =
        omega arith in
      rw (more, uleb_digits)
        (middle_step n s value fits small offset (uleb_digits rounds (n / 128) ++ after)
          ∙ later
          ∙ rw (long, next_sum n s value fits small) refl)
]

take-length-append :
    (xs ys : List ℕ) (n : ℕ) → length xs ≤ n → take n (xs ++ ys) ≡ xs ++ take (n - length xs) ys
take-length-append [] ys n h = let e : n ≡ n - 0 = omega arith in ap (λ (m : ℕ). take m ys) e
take-length-append (x ∷ xs) ys zero h = absurd (omega arith)
take-length-append (x ∷ xs) ys (suc n) h =
    let e : n - length xs ≡ suc n - suc (length xs) = omega arith in
    ap (λ (zs : List ℕ). x ∷ zs) (take-length-append xs ys n (omega arith))
    ∙ ap (λ (m : ℕ). x ∷ xs ++ take m ys) e

-- A 64-bit number written in base 128 is read back, with the offset behind it, wherever the bytes
-- stand in the section before the end of the record.
pub read_uleb128-uleb128 :
    (before after : List ℕ) (n end : ℕ)
    → n < 2 ^ 64
    → length before + length (uleb128 n) ≤ end
    → read_uleb128 (before ++ (uleb128 n ++ after)) (length before) end
      ≡ ok (length before + length (uleb128 n), n)
unfolding read_uleb128 uleb128
read_uleb128-uleb128 before after n end h fits =
    rw
      (
        drop-length-append before (uleb128 n ++ after),
        take-length-append (uleb128 n) after (end - length before) (omega arith),
        loop-digits 9 n (length before) 0 0 _ (omega arith) (omega arith) (omega arith),
      )
      (ap (λ (m : ℕ). ok (length before + length (uleb128 n), m)) (omega arith))
