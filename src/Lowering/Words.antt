-- ===== src/Lowering/Words.antt =====
-- Arithmetic of words that the lowering relies on.
use Prim.Native.Nat.{bit_xor, digits, differ, bit_xor-bitwise}
use not_dec_bin2llvm.Common.{
  ℕ, zero, suc, ◌+◌, ◌-◌, ◌*◌, ◌/◌, ◌%◌, ◌^◌, ◌≤◌, ◌<◌, not, ltb, leb, if◌then◌else◌, ◌≡◌, refl,
  ◌∙◌, ap, arith, Bool-cases, inl, inr,
}
use native.Mathlib.Nat.{pow-suc, mod-eq_of_lt}
use not_dec_bin2llvm.Lowering.Semantics.{is_neg, magnitude, differs, signed_less, eval_overflow}
use not_dec_bin2llvm.Lowering.{sadd, ssub}
use not_dec_bin2llvm.Lowering.Meaning.{moved, sum_overflows, difference_overflows}

-- Half of the range of a word.
pub half : (w : ℕ) → 0 < w → 2 ^ w ≡ 2 * 2 ^ (w - 1)
half zero h = absurd (omega arith)
half (suc w) h = let e : suc w - 1 ≡ w = omega arith in rw e (omega (arith, pow-suc 2 w))

mod_wrap : (x m : ℕ) → x < m → (x + m) % m ≡ x
mod_wrap x m h = grind arith

-- A sum below twice the modulus wraps at most once.
pub wrap_once : (x m : ℕ) → x < 2 * m → x % m ≡ (if ltb x m then x else x - m)
wrap_once x m h = elim (Bool-cases (ltb x m)) [
  | inl low ↦ rw low (mod-eq_of_lt (ground (arith, low)))
  | inr high ↦ rw high (
      let e : x ≡ (x - m) + m = ground (arith, high) in
      let small : x - m < m = ground (arith, high) in
      ap (λ (y : ℕ). y % m) e ∙ mod_wrap (x - m) m small)
]

moved_value :
    (w a : ℕ)
    → 0 < w
    → a < 2 ^ w
    → moved w a ≡ (if leb (2 ^ (w - 1)) a then a - 2 ^ (w - 1) else a + 2 ^ (w - 1))
unfolding moved
moved_value w a hw ha =
    let p = half w hw in
    let q = wrap_once (a + 2 ^ (w - 1)) (2 ^ w) (omega arith) in q ∙ ground arith

module _ (w a b : ℕ) (hw : 0 < w) (ha : a < 2 ^ w) (hb : b < 2 ^ w) where
  pub signed_less-moved : signed_less w a b ≡ ltb (moved w a) (moved w b)
  unfolding signed_less is_neg
  signed_less-moved = rw (moved_value w a hw ha, moved_value w b hw hb) (ground (arith, half w hw))

  pub not-signed_less-moved : not (signed_less w b a) ≡ leb (moved w a) (moved w b)
  unfolding signed_less is_neg
  not-signed_less-moved =
      rw (moved_value w a hw ha, moved_value w b hw hb) (ground (arith, half w hw))

  pub sadd-sum_overflows : eval_overflow sadd w a b ≡ sum_overflows w a b
  unfolding eval_overflow sum_overflows is_neg magnitude differs
  sadd-sum_overflows =
      let p = half w hw in rw (wrap_once (a + b) (2 ^ w) (omega arith)) (ground arith)

  pub ssub-difference_overflows : eval_overflow ssub w a b ≡ difference_overflows w a b
  unfolding eval_overflow difference_overflows is_neg magnitude differs
  ssub-difference_overflows =
      let p = half w hw in rw (wrap_once (a + (2 ^ w - b)) (2 ^ w) (omega arith)) (ground arith)

differ_self : (d : ℕ) → differ d d ≡ 0
differ_self zero = refl
differ_self (suc d) = differ_self d

digits_self : (n a : ℕ) → a ≤ n → digits (λ b. b) differ n a a ≡ 0
digits_self zero a h = omega arith
digits_self (suc n) zero h = refl
digits_self (suc n) (suc a) h =
    let half_fits : suc a / 2 ≤ n = omega arith in
    let later = digits_self n (suc a / 2) half_fits in
    rw later (omega (arith, differ_self (suc a % 2)))

pub bit_xor_self : (a : ℕ) → bit_xor a a ≡ 0
bit_xor_self a = bit_xor-bitwise a a ∙ digits_self a a (omega arith)
