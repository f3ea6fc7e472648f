-- ===== src/Common/Words.antt =====
-- Unsigned machine words, and `|` of numbers whose binary digits do not meet.
use Prim.Native.Nat.{
  ℕ, zero, suc, ◌+◌, ◌-◌, ◌*◌, ◌/◌, ◌%◌, ◌^◌, ◌≤◌, ◌<◌, max, bit_or, digits, bit_or-bitwise,
}
use mathlib.Core.Path.{◌≡◌, refl, ap, sym, ◌∙◌}
use native.Mathlib.Nat.{pow-suc}
use native.Mathlib.Omega.{arith}

abbrev pub u64_mod : ℕ
u64_mod = 2 ^ 64

abbrev pub max_u64 : ℕ
max_u64 = 2 ^ 64 - 1

abbrev pub u32_mod : ℕ
u32_mod = 2 ^ 32

-- `uint64_t` addition and subtraction.
abbrev pub add64 : ℕ → ℕ → ℕ
add64 a b = (a + b) % u64_mod

abbrev pub sub64 : ℕ → ℕ → ℕ
sub64 a b = (a + (u64_mod - b)) % u64_mod

abbrev or_digits : ℕ → ℕ → ℕ → ℕ
or_digits n a b = digits (λ b. b) max n a b

or_digits-zero : (n b : ℕ) → or_digits n 0 b ≡ b
or_digits-zero zero b = refl
or_digits-zero (suc n) b = refl

-- Any count of digits that reaches the top of `a` gives the same number.
or_digits_count : (n m a b : ℕ) → a ≤ n → a ≤ m → or_digits n a b ≡ or_digits m a b
or_digits_count n m zero b _ _ = or_digits-zero n b ∙ sym (or_digits-zero m b)
or_digits_count zero _ (suc a) b p q = absurd (omega arith)
or_digits_count (suc n) zero (suc a) b p q = absurd (omega arith)
or_digits_count (suc n) (suc m) (suc a) b p q =
    let half : suc a / 2 ≤ a = omega arith in
    omega (arith, or_digits_count n m (suc a / 2) (b / 2) (omega arith) (omega arith))

zero-bit_or : (b : ℕ) → bit_or 0 b ≡ b
zero-bit_or b = bit_or-bitwise 0 b

pub bit_or_step : (a b : ℕ) → bit_or a b ≡ bit_or (a / 2) (b / 2) * 2 + max (a % 2) (b % 2)
bit_or_step zero b = omega (arith, zero-bit_or b, zero-bit_or (b / 2))
bit_or_step (suc a) b = omega (
  arith,
  bit_or-bitwise (suc a) b,
  bit_or-bitwise (suc a / 2) (b / 2),
  or_digits_count a (suc a / 2) (suc a / 2) (b / 2) (omega arith) (omega arith),
)

pub half_fits : (k a : ℕ) → a < 2 ^ suc k → a / 2 < 2 ^ k
half_fits k a h = omega (arith, pow-suc 2 k)

pub double_shift : (k b : ℕ) → b * 2 ^ suc k ≡ 2 * (b * 2 ^ k)
double_shift k b = omega (arith, ap (λ (t : ℕ). b * t) (pow-suc 2 k))

pub half_shift : (k b : ℕ) → b * 2 ^ suc k / 2 ≡ b * 2 ^ k
half_shift k b = omega (arith, double_shift k b)

-- `a | b << k`, where `a` stays below bit `k`, is a sum.
pub bit_or_shifted : (k a b : ℕ) → a < 2 ^ k → bit_or a (b * 2 ^ k) ≡ a + b * 2 ^ k
bit_or_shifted zero a b h = ground (arith, zero-bit_or b)
bit_or_shifted (suc k) a b h = omega (
  arith,
  bit_or_step a (b * 2 ^ suc k),
  ap (bit_or (a / 2)) (half_shift k b),
  bit_or_shifted k (a / 2) b (half_fits k a h),
  double_shift k b,
)
