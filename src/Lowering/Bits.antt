-- ===== src/Lowering/Bits.antt =====
-- Binary digits: results of bit operations are words, `^` with all ones, and `|` of two words.
use Prim.Native.Nat.{
  bit_and, bit_or, bit_xor, digits, differ, bit_and-bitwise, bit_or-bitwise, bit_xor-bitwise,
}
use not_dec_bin2llvm.Common.{
  ℕ, zero, suc, ◌+◌, ◌-◌, ◌*◌, ◌/◌, ◌%◌, ◌^◌, ◌≤◌, ◌<◌, min, max, ◌≡◌, refl, ◌∙◌, ap, arith,
}
use not_dec_bin2llvm.Common.{bit_or_step, half_shift, double_shift, half_fits}
use native.Mathlib.Nat.{pow-suc, one-le-pow}

-- Digits below two make a word.
digits-lt :
    (z : ℕ → ℕ) (f : ℕ → ℕ → ℕ)
    → ((b w : ℕ) → b < 2 ^ w → z b < 2 ^ w)
    → ((d e : ℕ) → d < 2 → e < 2 → f d e < 2)
    → (n w a b : ℕ) → a < 2 ^ w
    → b < 2 ^ w
    → digits z f n a b < 2 ^ w
digits-lt z f hz hf zero w a b ha hb = hz b w hb
digits-lt z f hz hf (suc n) w zero b ha hb = hz b w hb
digits-lt z f hz hf (suc n) zero (suc a) b ha hb = absurd (omega arith)
digits-lt z f hz hf (suc n) (suc w) (suc a) b ha hb =
    let ha' = half_fits w (suc a) ha in
    let hb' = half_fits w b hb in
    let later = digits-lt z f hz hf n w (suc a / 2) (b / 2) ha' hb' in
    let digit = hf (suc a % 2) (b % 2) (omega arith) (omega arith) in omega (arith, pow-suc 2 w)

differ-lt : (d e : ℕ) → d < 2 → e < 2 → differ d e < 2
differ-lt zero e hd he = he
differ-lt (suc zero) zero hd he = hd
differ-lt (suc zero) (suc zero) hd he = omega arith
differ-lt (suc zero) (suc (suc e)) hd he = absurd (omega arith)
differ-lt (suc (suc d)) e hd he = absurd (omega arith)

module _ (w a b : ℕ) (ha : a < 2 ^ w) (hb : b < 2 ^ w) where
  pub bit_and-lt : bit_and a b < 2 ^ w
  bit_and-lt = rw (bit_and-bitwise a b) (
      digits-lt (λ b. zero) min (λ b w h. one-le-pow w 2 (omega arith)) (λ d e hd he. omega arith) a
        w a b ha hb)

  pub bit_or-lt : bit_or a b < 2 ^ w
  bit_or-lt =
      rw (bit_or-bitwise a b)
        (digits-lt (λ b. b) max (λ b w h. h) (λ d e hd he. omega arith) a w a b ha hb)

  pub bit_xor-lt : bit_xor a b < 2 ^ w
  bit_xor-lt =
      rw (bit_xor-bitwise a b) (digits-lt (λ b. b) differ (λ b w h. h) differ-lt a w a b ha hb)

differ_one : (d : ℕ) → d < 2 → differ d 1 ≡ 1 - d
differ_one zero h = refl
differ_one (suc zero) h = refl
differ_one (suc (suc d)) h = absurd (omega arith)

digits-ones :
    (n w a : ℕ) → a ≤ n → a < 2 ^ w → digits (λ b. b) differ n a (2 ^ w - 1) ≡ 2 ^ w - 1 - a
digits-ones zero w a h ha = omega arith
digits-ones (suc n) w zero h ha = omega arith
digits-ones (suc n) zero (suc a) h ha = absurd (omega arith)
digits-ones (suc n) (suc w) (suc a) h ha =
    let p : 0 < 2 ^ w = one-le-pow w 2 (omega arith) in
    let ha' = half_fits w (suc a) ha in
    let later = digits-ones n w (suc a / 2) (omega arith) ha' in
    let halved : (2 ^ suc w - 1) / 2 ≡ 2 ^ w - 1 = omega (arith, pow-suc 2 w) in
    let odd : (2 ^ suc w - 1) % 2 ≡ 1 = omega (arith, pow-suc 2 w) in
    rw (halved, odd, later, differ_one (suc a % 2) (omega arith)) (omega (arith, pow-suc 2 w))

-- `^` with all ones is the complement.
pub bit_xor-ones : (w a : ℕ) → a < 2 ^ w → bit_xor a (2 ^ w - 1) ≡ 2 ^ w - 1 - a
bit_xor-ones w a h = bit_xor-bitwise a (2 ^ w - 1) ∙ digits-ones a w a (omega arith) h

or_none : (n a : ℕ) → a ≤ n → digits (λ b. b) max n a 0 ≡ a
or_none zero a h = omega arith
or_none (suc n) zero h = refl
or_none (suc n) (suc a) h = omega (arith, or_none n (suc a / 2) (omega arith))

-- `b << k | a`, where `a` stays below bit `k`, is a sum.
pub shifted-bit_or : (k a b : ℕ) → a < 2 ^ k → bit_or (b * 2 ^ k) a ≡ b * 2 ^ k + a
shifted-bit_or zero a b h =
    let e : a ≡ 0 = omega arith in
    rw e (omega (arith, bit_or-bitwise (b * 1) 0, or_none (b * 1) (b * 1) (omega arith)))
shifted-bit_or (suc k) a b h = omega (
  arith,
  bit_or_step (b * 2 ^ suc k) a,
  ap (λ (t : ℕ). bit_or t (a / 2)) (half_shift k b),
  shifted-bit_or k (a / 2) b (half_fits k a h),
  double_shift k b,
)
