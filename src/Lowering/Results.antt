-- ===== src/Lowering/Results.antt =====
-- The value that the lowering of an operation of two inputs writes denotes the result of p-code.
use Prim.Native.Nat.{bit_and, bit_or, bit_xor}
use not_dec_bin2llvm.Common.{
  ℕ, ◌+◌, ◌-◌, ◌*◌, ◌/◌, ◌%◌, ◌^◌, ◌≤◌, ◌<◌, some, false, not, ltb, leb, ◌==◌, ◌&&◌, ◌||◌, ◌≡◌,
  refl, ◌∙◌, ap, arith, max,
}
use native.Mathlib.Nat.{mod-lt}
use not_dec_bin2llvm.Pcode.{PcodeOpcode}
use not_dec_bin2llvm.Pcode
use not_dec_bin2llvm.Registers.{bit_width}
use not_dec_bin2llvm.Lowering.{
  add, sub, mul, udiv, sdiv, urem, srem, and, or, xor, shl, lshr, ashr, eq, ne, ult, ule, slt, sle,
  uadd, sadd, ssub, Value,
}
use not_dec_bin2llvm.Lowering.Semantics.{
  Env, eval_binary, eval_icmp, eval_overflow, bit, is_neg, magnitude, signed_word, differs,
  floor_shift,
}
use not_dec_bin2llvm.Lowering.Meaning.{two_meaning, moved, sum_overflows, difference_overflows}
use not_dec_bin2llvm.Lowering.Words.{
  signed_less-moved, not-signed_less-moved, sadd-sum_overflows, ssub-difference_overflows,
}
use not_dec_bin2llvm.Lowering.Bits.{bit_and-lt, bit_or-lt, bit_xor-lt}
use not_dec_bin2llvm.Lowering.Bounds.{
  same_fits, quotient-lt, remainder-lt, floor_shift-lt, signed_word-lt, magnitude_quotient-lt,
  magnitude_remainder-lt,
}
use not_dec_bin2llvm.Lowering.Values.{Denotes, pow_positive}
use not_dec_bin2llvm.Lowering.Unary.{guarded-some}
use not_dec_bin2llvm.Lowering.Pieces.{piece_stored}
use not_dec_bin2llvm.Lowering.Pairs.{
  compare_stored, overflow_stored, bool_stored, and_bits, or_bits, xor_bits,
}
use not_dec_bin2llvm.Lowering.TwoValues.{two_value, Writes, product_of_bits, of_width, shifted}

-- Arithmetic.
module _ (e : Env) (a b : Value) (x y u v size : ℕ) (p : Denotes e a x u)
    (q : Denotes e b y v) where
  -- The operation has the result `r`.
  module _ (first second : ℕ) (hw : 0 < bit_width size) (positive : 0 < u)
      (hu : u ≡ bit_width first) (hv : v ≡ bit_width second) where
    pub two_value-Writes :
        (opcode : PcodeOpcode) {r : ℕ}
        → two_meaning opcode u v (bit_width size) x y ≡ some r
        → Writes e (two_value opcode a b first second size) size r
    unfolding two_value two_meaning eval_binary eval_icmp eval_overflow
    two_value-Writes Pcode.int_add {r} m =
        let w = bit_width size in
        let (c, same) = guarded-some (u == w && v == w) ((x + y) % 2 ^ w) m in
        of_width e a b x y u v size p q r (ground (arith, c)) (ground (arith, c)) add (ap some same)
          (rw (← same) (mod-lt _ (pow_positive w)))
    two_value-Writes Pcode.int_sub {r} m =
        let w = bit_width size in
        let (c, same) = guarded-some (u == w && v == w) ((2 ^ w + x - y) % 2 ^ w) m in
        of_width e a b x y u v size p q r (ground (arith, c)) (ground (arith, c)) sub
          (let fits = same_fits v w y (ground (arith, c)) q.fits in
            ap (λ (t : ℕ). some (t % 2 ^ w)) (omega arith) ∙ ap some same)
          (rw (← same) (mod-lt _ (pow_positive w)))
    two_value-Writes Pcode.int_mult {r} m =
        let w = bit_width size in
        let (c, same) = guarded-some (u == w && v == w) (x * y % 2 ^ w) m in
        of_width e a b x y u v size p q r (ground (arith, c)) (ground (arith, c)) mul (ap some same)
          (rw (← same) (mod-lt _ (pow_positive w)))
    two_value-Writes Pcode.int_div {r} m =
        let w = bit_width size in
        let (c, same) = guarded-some (u == w && (v == w && not (y == 0))) (x / y) m in
        let nonzero : y == 0 ≡ false = ground (arith, c) in
        of_width e a b x y u v size p q r (ground (arith, c)) (ground (arith, c)) udiv
          (rw nonzero (ap some same))
          (rw (← same) (quotient-lt w x y (same_fits u w x (ground (arith, c)) p.fits)))
    two_value-Writes Pcode.int_rem {r} m =
        let w = bit_width size in
        let (c, same) = guarded-some (u == w && (v == w && not (y == 0))) (x % y) m in
        let nonzero : y == 0 ≡ false = ground (arith, c) in
        of_width e a b x y u v size p q r (ground (arith, c)) (ground (arith, c)) urem
          (rw nonzero (ap some same))
          (rw (← same) (remainder-lt w x y (same_fits u w x (ground (arith, c)) p.fits)))
    two_value-Writes Pcode.int_s_div {r} m =
        let w = bit_width size in
        let (c, same) =
          guarded-some (u == w && (v == w && not (y == 0 || (x == 2 ^ (w - 1) && y == 2 ^ w - 1))))
            (signed_word w (differs (is_neg w x) (is_neg w y)) (magnitude w x / magnitude w y)) m in
        let defined : y == 0 || (x == 2 ^ (w - 1) && y == 2 ^ w - 1) ≡ false = ground (arith, c) in
        of_width e a b x y u v size p q r (ground (arith, c)) (ground (arith, c)) sdiv
          (rw defined (ap some same))
          (rw (← same) (
            signed_word-lt w _ _
              (magnitude_quotient-lt w x _ hw (same_fits u w x (ground (arith, c)) p.fits))))
    two_value-Writes Pcode.int_s_rem {r} m =
        let w = bit_width size in
        let (c, same) =
          guarded-some (u == w && (v == w && not (y == 0 || (x == 2 ^ (w - 1) && y == 2 ^ w - 1))))
            (signed_word w (is_neg w x) (magnitude w x % magnitude w y)) m in
        let defined : y == 0 || (x == 2 ^ (w - 1) && y == 2 ^ w - 1) ≡ false = ground (arith, c) in
        of_width e a b x y u v size p q r (ground (arith, c)) (ground (arith, c)) srem
          (rw defined (ap some same))
          (rw (← same) (
            signed_word-lt w _ _
              (magnitude_remainder-lt w x _ hw (same_fits u w x (ground (arith, c)) p.fits))))
    two_value-Writes Pcode.int_and {r} m =
        let w = bit_width size in
        let (c, same) = guarded-some (u == w && v == w) (bit_and x y) m in
        of_width e a b x y u v size p q r (ground (arith, c)) (ground (arith, c)) and (ap some same)
          (rw (← same) (
            bit_and-lt w x y (same_fits u w x (ground (arith, c)) p.fits)
              (same_fits v w y (ground (arith, c)) q.fits)))
    two_value-Writes Pcode.int_or {r} m =
        let w = bit_width size in
        let (c, same) = guarded-some (u == w && v == w) (bit_or x y) m in
        of_width e a b x y u v size p q r (ground (arith, c)) (ground (arith, c)) or (ap some same)
          (rw (← same) (
            bit_or-lt w x y (same_fits u w x (ground (arith, c)) p.fits)
              (same_fits v w y (ground (arith, c)) q.fits)))
    two_value-Writes Pcode.int_xor {r} m =
        let w = bit_width size in
        let (c, same) = guarded-some (u == w && v == w) (bit_xor x y) m in
        of_width e a b x y u v size p q r (ground (arith, c)) (ground (arith, c)) xor (ap some same)
          (rw (← same) (
            bit_xor-lt w x y (same_fits u w x (ground (arith, c)) p.fits)
              (same_fits v w y (ground (arith, c)) q.fits)))
    two_value-Writes Pcode.int_left {r} m =
        let w = bit_width size in
        let (c, same) = guarded-some (u == w && ltb y w) (x * 2 ^ y % 2 ^ w) m in
        let low : leb w y ≡ false = ground (arith, c) in
        shifted e a b x y u v size p q shl r (ground (arith, c)) (ground (arith, c))
          (rw low (ap some same)) (rw (← same) (mod-lt _ (pow_positive w)))
    two_value-Writes Pcode.int_right {r} m =
        let w = bit_width size in
        let (c, same) = guarded-some (u == w && ltb y w) (x / 2 ^ y) m in
        let low : leb w y ≡ false = ground (arith, c) in
        shifted e a b x y u v size p q lshr r (ground (arith, c)) (ground (arith, c))
          (rw low (ap some same))
          (rw (← same) (quotient-lt w x (2 ^ y) (same_fits u w x (ground (arith, c)) p.fits)))
    two_value-Writes Pcode.int_s_right {r} m =
        let w = bit_width size in
        let (c, same) = guarded-some (u == w && ltb y w) (floor_shift w x y) m in
        let low : leb w y ≡ false = ground (arith, c) in
        shifted e a b x y u v size p q ashr r (ground (arith, c)) (ground (arith, c))
          (rw low (ap some same))
          (rw (← same) (floor_shift-lt w x y (same_fits u w x (ground (arith, c)) p.fits)))
    two_value-Writes Pcode.int_equal {r} m =
        let w = bit_width size in
        let (c, same) = guarded-some (u == v && w == 8) (bit (x == y)) m in
        (
          _,
          refl,
          compare_stored e a b x y u v p q eq first size (x == y) (ground (arith, c)) hu
              (ground (arith, c, hu)) (refl) same,
        )
    two_value-Writes Pcode.int_not_equal {r} m =
        let w = bit_width size in
        let (c, same) = guarded-some (u == v && w == 8) (bit (not (x == y))) m in
        (
          _,
          refl,
          compare_stored e a b x y u v p q ne first size (not (x == y)) (ground (arith, c)) hu
              (ground (arith, c, hu)) (refl) same,
        )
    two_value-Writes Pcode.int_less {r} m =
        let w = bit_width size in
        let (c, same) = guarded-some (u == v && w == 8) (bit (ltb x y)) m in
        (
          _,
          refl,
          compare_stored e a b x y u v p q ult first size (ltb x y) (ground (arith, c)) hu
              (ground (arith, c, hu)) (refl) same,
        )
    two_value-Writes Pcode.int_less_equal {r} m =
        let w = bit_width size in
        let (c, same) = guarded-some (u == v && w == 8) (bit (leb x y)) m in
        (
          _,
          refl,
          compare_stored e a b x y u v p q ule first size (leb x y) (ground (arith, c)) hu
              (ground (arith, c, hu)) (refl) same,
        )
    two_value-Writes Pcode.int_s_less {r} m =
        let w = bit_width size in
        let (c, same) = guarded-some (u == v && w == 8) (bit (ltb (moved u x) (moved u y))) m in
        (
          _,
          refl,
          compare_stored e a b x y u v p q slt first size (ltb (moved u x) (moved u y))
              (ground (arith, c)) hu (ground (arith, c, hu))
              (signed_less-moved u x y positive p.fits (same_fits v u y (ground (arith, c)) q.fits))
              same,
        )
    two_value-Writes Pcode.int_s_less_equal {r} m =
        let w = bit_width size in
        let (c, same) = guarded-some (u == v && w == 8) (bit (leb (moved u x) (moved u y))) m in
        (
          _,
          refl,
          compare_stored e a b x y u v p q sle first size (leb (moved u x) (moved u y))
              (ground (arith, c)) hu (ground (arith, c, hu))
              (not-signed_less-moved u x y positive p.fits
                (same_fits v u y (ground (arith, c)) q.fits))
              same,
        )
    two_value-Writes Pcode.int_carry {r} m =
        let w = bit_width size in
        let (c, same) = guarded-some (u == v && w == 8) (bit (leb (2 ^ u) (x + y))) m in
        (
          _,
          refl,
          overflow_stored e a b x y u v p q uadd first size (leb (2 ^ u) (x + y))
              (ground (arith, c)) hu (ground (arith, c, hu)) (refl) same,
        )
    two_value-Writes Pcode.int_s_carry {r} m =
        let w = bit_width size in
        let (c, same) = guarded-some (u == v && w == 8) (bit (sum_overflows u x y)) m in
        (
          _,
          refl,
          overflow_stored e a b x y u v p q sadd first size (sum_overflows u x y)
              (ground (arith, c)) hu (ground (arith, c, hu))
              (sadd-sum_overflows u x y positive p.fits
                (same_fits v u y (ground (arith, c)) q.fits))
              same,
        )
    two_value-Writes Pcode.int_s_borrow {r} m =
        let w = bit_width size in
        let (c, same) = guarded-some (u == v && w == 8) (bit (difference_overflows u x y)) m in
        (
          _,
          refl,
          overflow_stored e a b x y u v p q ssub first size (difference_overflows u x y)
              (ground (arith, c)) hu (ground (arith, c, hu))
              (ssub-difference_overflows u x y positive p.fits
                (same_fits v u y (ground (arith, c)) q.fits))
              same,
        )
    two_value-Writes Pcode.bool_and {r} m =
        let w = bit_width size in
        let (c, same) =
          guarded-some (u == 8 && v == 8 && (w == 8 && (leb x 1 && leb y 1))) (x * y) m in
        let hx : x ≤ 1 = ground (arith, c) in
        let hy : y ≤ 1 = ground (arith, c) in
        (
          _,
          refl,
          bool_stored e a b x y u v p q and size (ground (arith, c)) (ground (arith, c)) hw
              (ap some (and_bits x y hx hy ∙ same)) (rw (← same) (product_of_bits x y hx hy)),
        )
    two_value-Writes Pcode.bool_or {r} m =
        let w = bit_width size in
        let (c, same) =
          guarded-some (u == 8 && v == 8 && (w == 8 && (leb x 1 && leb y 1))) (max x y) m in
        let hx : x ≤ 1 = ground (arith, c) in
        let hy : y ≤ 1 = ground (arith, c) in
        (
          _,
          refl,
          bool_stored e a b x y u v p q or size (ground (arith, c)) (ground (arith, c)) hw
              (ap some (or_bits x y hx hy ∙ same)) (rw (← same) (omega arith)),
        )
    two_value-Writes Pcode.bool_xor {r} m =
        let w = bit_width size in
        let (c, same) =
          guarded-some (u == 8 && v == 8 && (w == 8 && (leb x 1 && leb y 1))) ((x + y) % 2) m in
        let hx : x ≤ 1 = ground (arith, c) in
        let hy : y ≤ 1 = ground (arith, c) in
        (
          _,
          refl,
          bool_stored e a b x y u v p q xor size (ground (arith, c)) (ground (arith, c)) hw
              (ap some (xor_bits x y hx hy ∙ same)) (rw (← same) (omega arith)),
        )
    two_value-Writes Pcode.piece {r} m =
        let w = bit_width size in
        let (c, same) = guarded-some (u + v == w) (x * 2 ^ v + y) m in
        (
          _,
          refl,
          rw (← same) (piece_stored e a b x y u v size second p q positive hv (ground (arith, c))),
        )
    two_value-Writes _ m = cc
