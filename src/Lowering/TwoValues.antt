-- ===== src/Lowering/TwoValues.antt =====
-- The values that the operations on two operands write, and what those of lowerBinary denote.
use not_dec_bin2llvm.Common.{ℕ, zero, suc, ◌*◌, ◌^◌, ◌≤◌, ◌<◌, Option, none, some, ◌≡◌, refl, arith}
use not_dec_bin2llvm.Pcode.{PcodeOpcode}
use not_dec_bin2llvm.Pcode
use not_dec_bin2llvm.Registers.{bit_width}
use not_dec_bin2llvm.Lowering.{
  BinaryOp, add, sub, mul, udiv, sdiv, urem, srem, and, or, xor, shl, lshr, ashr, eq, ne, ult, ule,
  slt, sle, uadd, sadd, ssub, Value, resize,
}
use not_dec_bin2llvm.Lowering.Operations.{binary_value, compare_value, piece_value}
use not_dec_bin2llvm.Lowering.Flags.{overflow_value, bool_value}
use not_dec_bin2llvm.Lowering.Semantics.{Env, eval_binary}
use not_dec_bin2llvm.Lowering.Bounds.{same_fits}
use not_dec_bin2llvm.Lowering.Values.{Denotes}
use not_dec_bin2llvm.Lowering.Unary.{below_own_pow}
use not_dec_bin2llvm.Lowering.Pairs.{binary_stored}

-- The value that the lowering of an operation of two inputs writes, for the sizes of the first and
-- the second input and of the output.
unfoldable pub two_value : PcodeOpcode → Value → Value → ℕ → ℕ → ℕ → Option Value
two_value Pcode.int_add a b first second size = some (binary_value add a b size)
two_value Pcode.int_sub a b first second size = some (binary_value sub a b size)
two_value Pcode.int_mult a b first second size = some (binary_value mul a b size)
two_value Pcode.int_div a b first second size = some (binary_value udiv a b size)
two_value Pcode.int_s_div a b first second size = some (binary_value sdiv a b size)
two_value Pcode.int_rem a b first second size = some (binary_value urem a b size)
two_value Pcode.int_s_rem a b first second size = some (binary_value srem a b size)
two_value Pcode.int_and a b first second size = some (binary_value and a b size)
two_value Pcode.int_or a b first second size = some (binary_value or a b size)
two_value Pcode.int_xor a b first second size = some (binary_value xor a b size)
two_value Pcode.int_left a b first second size = some (binary_value shl a b size)
two_value Pcode.int_right a b first second size = some (binary_value lshr a b size)
two_value Pcode.int_s_right a b first second size = some (binary_value ashr a b size)
two_value Pcode.int_equal a b first second size = some (compare_value eq a b first)
two_value Pcode.int_not_equal a b first second size = some (compare_value ne a b first)
two_value Pcode.int_less a b first second size = some (compare_value ult a b first)
two_value Pcode.int_less_equal a b first second size = some (compare_value ule a b first)
two_value Pcode.int_s_less a b first second size = some (compare_value slt a b first)
two_value Pcode.int_s_less_equal a b first second size = some (compare_value sle a b first)
two_value Pcode.int_carry a b first second size = some (overflow_value uadd a b first)
two_value Pcode.int_s_carry a b first second size = some (overflow_value sadd a b first)
two_value Pcode.int_s_borrow a b first second size = some (overflow_value ssub a b first)
two_value Pcode.bool_and a b first second size = some (bool_value and a b)
two_value Pcode.bool_or a b first second size = some (bool_value or a b)
two_value Pcode.bool_xor a b first second size = some (bool_value xor a b)
two_value Pcode.piece a b first second size = some (piece_value a b size second)
two_value _ a b first second size = none

-- The value that is written denotes the result.
abbrev pub Writes : Env → Option Value → ℕ → ℕ → Type 0
Writes e o size r =
    (value : Value) × (o ≡ some value) × Denotes e (resize value size) r (bit_width size)

pub product_of_bits : (x y : ℕ) → x ≤ 1 → y ≤ 1 → x * y < 2
product_of_bits zero y hx hy = omega arith
product_of_bits (suc zero) y hx hy = omega arith
product_of_bits (suc (suc x)) y hx hy = absurd (omega arith)

-- Arithmetic.
module _ (e : Env) (a b : Value) (x y u v size : ℕ) (p : Denotes e a x u)
    (q : Denotes e b y v) where
  -- Operands of the output's width.
  module _ (r : ℕ) (hu : u ≡ bit_width size) (hv : v ≡ bit_width size) where
    pub of_width :
        (op : BinaryOp)
        → eval_binary op (bit_width size) x y ≡ some r
        → r < 2 ^ bit_width size
        → Writes e (some (binary_value op a b size)) size r
    of_width op found small = (
      _,
      refl,
      binary_stored e a b x y u v p q op size (same_fits u (bit_width size) x hu p.fits)
          (same_fits v (bit_width size) y hv q.fits) found small,
    )

  -- A shift by less than the width.
  pub shifted :
      (op : BinaryOp) (r : ℕ)
      → u ≡ bit_width size
      → y < bit_width size
      → eval_binary op (bit_width size) x y ≡ some r
      → r < 2 ^ bit_width size
      → Writes e (some (binary_value op a b size)) size r
  shifted op r hu small_shift found small =
      let room = below_own_pow (bit_width size) in
      (
        _,
        refl,
        binary_stored e a b x y u v p q op size (same_fits u (bit_width size) x hu p.fits)
            (omega arith) found small,
      )
