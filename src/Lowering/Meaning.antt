-- ===== src/Lowering/Meaning.antt =====
-- What p-code operations on temporaries mean in Ghidra's p-code reference, as an interpreter. `none`
-- stands for sizes that the reference does not allow, for a value that was not written, and for what
-- the reference or LLVM leaves undefined: division by zero, the overflow of a signed division, and a
-- shift by the width of the value or more, for which the reference has a value and LLVM has none.
use Prim.Native.Nat.{bit_and, bit_or, bit_xor}
use not_dec_bin2llvm.Common.{
  ℕ, ◌+◌, ◌-◌, ◌*◌, ◌/◌, ◌%◌, ◌^◌, List, [], ◌∷◌, Option, none, some, Bool, true, false, not, ltb,
  leb, ◌==◌, if◌then◌else◌, ◌&&◌, ◌||◌, Text, codes, text_beq, max,
}
use not_dec_bin2llvm.Pcode.{PcodeOpcode}
use not_dec_bin2llvm.Pcode
use not_dec_bin2llvm.Registers.{bit_width}
use not_dec_bin2llvm.Lowering.{
  VarnodeView, PcodeOpView, Context, varnode_key, look, is_stored_register,
}
use not_dec_bin2llvm.Lowering.Operations.{is_const}
use not_dec_bin2llvm.Lowering.Semantics.{
  is_neg, magnitude, signed_word, differs, floor_shift, bit, ones, leading_zeros,
}

unfoldable pub guarded : Bool → ℕ → Option ℕ
guarded true a = some a
guarded false a = none

-- One operand of `u` bits, and a result of `w` bits.
unfoldable pub one_meaning : PcodeOpcode → ℕ → ℕ → ℕ → Option ℕ
unfolding guarded is_neg magnitude signed_word ones leading_zeros
one_meaning Pcode.copy u w a = guarded (u == w) a
one_meaning Pcode.cast u w a = guarded (u == w) a
one_meaning Pcode.int_z_ext u w a = guarded (leb u w) a
one_meaning Pcode.int_s_ext u w a = guarded (leb u w) (signed_word w (is_neg u a) (magnitude u a))
one_meaning Pcode.int_negate u w a = guarded (u == w) (2 ^ w - 1 - a)
one_meaning Pcode.int2_comp u w a = guarded (u == w) ((2 ^ w - a) % 2 ^ w)
one_meaning Pcode.bool_negate u w a = guarded (u == 8 && (w == 8 && leb a 1)) (1 - a)
one_meaning Pcode.popcount u w a = guarded (ltb u (2 ^ w)) (ones u a)
one_meaning Pcode.lzcount u w a = guarded (ltb u (2 ^ w)) (leading_zeros u a)
one_meaning _ u w a = none

-- The order of signed words is that of the words moved by half the range.
unfoldable pub moved : ℕ → ℕ → ℕ
moved u a = (a + 2 ^ (u - 1)) % 2 ^ u

-- The exact sum of two signed words is not one.
unfoldable pub sum_overflows : ℕ → ℕ → ℕ → Bool
unfolding is_neg magnitude
sum_overflows u a b =
    if is_neg u a
    then is_neg u b && ltb (2 ^ (u - 1)) (magnitude u a + magnitude u b)
    else not (is_neg u b) && leb (2 ^ (u - 1)) (a + b)

unfoldable pub difference_overflows : ℕ → ℕ → ℕ → Bool
unfolding is_neg magnitude
difference_overflows u a b =
    if is_neg u a
    then not (is_neg u b) && ltb (2 ^ (u - 1)) (magnitude u a + b)
    else is_neg u b && leb (2 ^ (u - 1)) (a + magnitude u b)

-- Two operands of `u` and `v` bits.
unfoldable pub two_meaning : PcodeOpcode → ℕ → ℕ → ℕ → ℕ → ℕ → Option ℕ
unfolding guarded is_neg magnitude signed_word differs floor_shift bit moved sum_overflows
    difference_overflows
two_meaning Pcode.int_add u v w a b = guarded (u == w && v == w) ((a + b) % 2 ^ w)
two_meaning Pcode.int_sub u v w a b = guarded (u == w && v == w) ((2 ^ w + a - b) % 2 ^ w)
two_meaning Pcode.int_mult u v w a b = guarded (u == w && v == w) (a * b % 2 ^ w)
two_meaning Pcode.int_div u v w a b = guarded (u == w && (v == w && not (b == 0))) (a / b)
two_meaning Pcode.int_rem u v w a b = guarded (u == w && (v == w && not (b == 0))) (a % b)
two_meaning Pcode.int_s_div u v w a b =
    guarded (u == w && (v == w && not (b == 0 || (a == 2 ^ (w - 1) && b == 2 ^ w - 1))))
      (signed_word w (differs (is_neg w a) (is_neg w b)) (magnitude w a / magnitude w b))
two_meaning Pcode.int_s_rem u v w a b =
    guarded (u == w && (v == w && not (b == 0 || (a == 2 ^ (w - 1) && b == 2 ^ w - 1))))
      (signed_word w (is_neg w a) (magnitude w a % magnitude w b))
two_meaning Pcode.int_and u v w a b = guarded (u == w && v == w) (bit_and a b)
two_meaning Pcode.int_or u v w a b = guarded (u == w && v == w) (bit_or a b)
two_meaning Pcode.int_xor u v w a b = guarded (u == w && v == w) (bit_xor a b)
two_meaning Pcode.int_left u v w a b = guarded (u == w && ltb b w) (a * 2 ^ b % 2 ^ w)
two_meaning Pcode.int_right u v w a b = guarded (u == w && ltb b w) (a / 2 ^ b)
two_meaning Pcode.int_s_right u v w a b = guarded (u == w && ltb b w) (floor_shift w a b)
two_meaning Pcode.int_equal u v w a b = guarded (u == v && w == 8) (bit (a == b))
two_meaning Pcode.int_not_equal u v w a b = guarded (u == v && w == 8) (bit (not (a == b)))
two_meaning Pcode.int_less u v w a b = guarded (u == v && w == 8) (bit (ltb a b))
two_meaning Pcode.int_less_equal u v w a b = guarded (u == v && w == 8) (bit (leb a b))
two_meaning Pcode.int_s_less u v w a b =
    guarded (u == v && w == 8) (bit (ltb (moved u a) (moved u b)))
two_meaning Pcode.int_s_less_equal u v w a b =
    guarded (u == v && w == 8) (bit (leb (moved u a) (moved u b)))
two_meaning Pcode.int_carry u v w a b = guarded (u == v && w == 8) (bit (leb (2 ^ u) (a + b)))
two_meaning Pcode.int_s_carry u v w a b = guarded (u == v && w == 8) (bit (sum_overflows u a b))
two_meaning Pcode.int_s_borrow u v w a b =
    guarded (u == v && w == 8) (bit (difference_overflows u a b))
two_meaning Pcode.bool_and u v w a b =
    guarded (u == 8 && v == 8 && (w == 8 && (leb a 1 && leb b 1))) (a * b)
two_meaning Pcode.bool_or u v w a b =
    guarded (u == 8 && v == 8 && (w == 8 && (leb a 1 && leb b 1))) (max a b)
two_meaning Pcode.bool_xor u v w a b =
    guarded (u == 8 && v == 8 && (w == 8 && (leb a 1 && leb b 1))) ((a + b) % 2)
two_meaning Pcode.piece u v w a b = guarded (u + v == w) (a * 2 ^ v + b)
two_meaning _ u v w a b = none

-- The second input is the constant `n` itself.
unfoldable pub const_meaning : PcodeOpcode → ℕ → ℕ → ℕ → ℕ → Option ℕ
unfolding guarded
const_meaning Pcode.subpiece u w a n = guarded (ltb (n * 8) u) (a / 2 ^ (n * 8) % 2 ^ w)
const_meaning Pcode.ptr_sub u w a n = guarded (u == w) ((a + n) % 2 ^ w)
const_meaning _ u w a n = none

unfoldable pub three_meaning : PcodeOpcode → ℕ → ℕ → ℕ → ℕ → ℕ → ℕ → Option ℕ
unfolding guarded
three_meaning Pcode.ptr_add u v w a b n = guarded (u == w && v == w) ((a + b * n) % 2 ^ w)
three_meaning _ u v w a b n = none

-- The value of an input: a constant, or what a temporary holds.
unfoldable pub input_value : List (Text × ℕ) → VarnodeView → Option ℕ
unfolding is_const bit_width look varnode_key
input_value m v =
    if is_const v
    then some (v.offset % 2 ^ bit_width v.size)
    else elim (look (varnode_key v) m) [ none ↦ none | some a ↦ some (a % 2 ^ bit_width v.size) ]

infixl 10 ◌>>=◌
abbrev pub ◌>>=◌ : Option ℕ → (ℕ → Option ℕ) → Option ℕ
none >>= next = none
some a >>= next = next a

unfoldable pub guard_some : Bool → Option ℕ → Option ℕ
guard_some true o = o
guard_some false o = none

unfoldable pub takes_constant : PcodeOpcode → Bool
takes_constant Pcode.subpiece = true
takes_constant Pcode.ptr_sub = true
takes_constant _ = false

-- The result of an operation with these inputs.
unfoldable pub result_value :
    List (Text × ℕ) → PcodeOpcode → VarnodeView → List VarnodeView → Option ℕ
unfolding guard_some takes_constant input_value bit_width one_meaning two_meaning const_meaning
    three_meaning is_const
result_value m opcode output (a ∷ []) =
    input_value m a >>= λ x. one_meaning opcode (bit_width a.size) (bit_width output.size) x
result_value m opcode output (a ∷ b ∷ []) =
    if takes_constant opcode
    then guard_some (is_const b) (
        input_value m a >>= λ x.
        const_meaning opcode (bit_width a.size) (bit_width output.size) x b.offset)
    else (input_value m a >>= λ x. input_value m b >>= λ y.
        two_meaning opcode (bit_width a.size) (bit_width b.size) (bit_width output.size) x y)
result_value m opcode output (a ∷ b ∷ d ∷ []) = guard_some (is_const d) (
    input_value m a >>= λ x. input_value m b >>= λ y.
    three_meaning opcode (bit_width a.size) (bit_width b.size) (bit_width output.size) x y d.offset)
result_value m opcode output _ = none

-- A varnode that the lowering keeps in no register and in no memory.
unfoldable pub is_temporary : Context → VarnodeView → Bool
unfolding is_stored_register
is_temporary c v = not (is_stored_register c v) && not (text_beq v.space (codes "ram"))

unfoldable pub run_op : Context → List (Text × ℕ) → PcodeOpView → Option (List (Text × ℕ))
unfolding is_temporary result_value varnode_key
run_op c m op = elim op.output [
  | none ↦ none
  | some output ↦
      if is_temporary c output
      then elim (result_value m op.opcode output op.inputs) [
        | none ↦ none
        | some a ↦ some ((varnode_key output, a) ∷ m)
      ]
      else none
]

unfoldable pub run_ops : Context → List (Text × ℕ) → List PcodeOpView → Option (List (Text × ℕ))
unfolding run_op
run_ops c m [] = some m
run_ops c m (op ∷ ops) = elim (run_op c m op) [ none ↦ none | some n ↦ run_ops c n ops ]
