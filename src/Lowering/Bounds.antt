-- ===== src/Lowering/Bounds.antt =====
-- Results of word arithmetic are words.
use not_dec_bin2llvm.Common.{ℕ, ◌-◌, ◌/◌, ◌%◌, ◌^◌, ◌≤◌, ◌<◌, Bool, true, false, ◌≡◌, arith}
use native.Mathlib.Nat.{mod-lt, div-le_self, mod-le}
use not_dec_bin2llvm.Lowering.Semantics.{is_neg, magnitude, signed_word, floor_shift}
use not_dec_bin2llvm.Lowering.Values.{pow_positive}

pub magnitude-lt : (w a : ℕ) → a < 2 ^ w → magnitude w a ≤ 2 ^ w
unfolding magnitude
magnitude-lt w a h = ground arith

pub signed_word-lt :
    (w : ℕ) (negative : Bool) (m : ℕ) → m < 2 ^ w → signed_word w negative m < 2 ^ w
unfolding signed_word
signed_word-lt w true m h = mod-lt _ (pow_positive w)
signed_word-lt w false m h = h

pub same_fits : (u w x : ℕ) → u ≡ w → x < 2 ^ u → x < 2 ^ w
same_fits u w x same h = rw (← same) h

pub quotient-lt : (w a b : ℕ) → a < 2 ^ w → a / b < 2 ^ w
quotient-lt w a b h = omega (arith, div-le_self a b)

pub remainder-lt : (w a b : ℕ) → a < 2 ^ w → a % b < 2 ^ w
remainder-lt w a b h = omega (arith, mod-le a b)

pub floor_shift-lt : (w a n : ℕ) → a < 2 ^ w → floor_shift w a n < 2 ^ w
unfolding floor_shift
floor_shift-lt w a n h = ground (arith, div-le_self a (2 ^ n))

pub magnitude_quotient-lt : (w a b : ℕ) → 0 < w → a < 2 ^ w → magnitude w a / b < 2 ^ w
unfolding magnitude is_neg
magnitude_quotient-lt w a b hw h =
    let p = pow_positive (w - 1) in ground (arith, div-le_self a b, div-le_self (2 ^ w - a) b)

pub magnitude_remainder-lt : (w a b : ℕ) → 0 < w → a < 2 ^ w → magnitude w a % b < 2 ^ w
unfolding magnitude is_neg
magnitude_remainder-lt w a b hw h =
    let p = pow_positive (w - 1) in ground (arith, mod-le a b, mod-le (2 ^ w - a) b)
