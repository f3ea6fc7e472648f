-- ===== src/Lowering/Operations.antt =====
-- lib/PcodeToLLVM.cpp: the lowering of one p-code operation that stays within its block.
use not_dec_bin2llvm.Common.{
  ℕ, ◌*◌, ◌%◌, ◌-◌, ◌^◌, [], ◌∷◌, ◌++◌, Option, none, some, Bool, true, false, ◌==◌, if◌then◌else◌,
  ◌&&◌, not, Text, codes, text_beq, length, u64_mod,
}
use not_dec_bin2llvm.Numbers.{u64_text}
use not_dec_bin2llvm.Pcode.{
  PcodeOpcode, int_add, int_sub, int_mult, int_div, int_s_div, int_rem, int_s_rem, int_and, int_or,
  int_xor, int_left, int_right, int_s_right, int_equal, int_not_equal, int_less, int_less_equal,
  int_s_less, int_s_less_equal, int_z_ext, int_negate, int2_comp, popcount,
}
use not_dec_bin2llvm.Registers.{bit_width}
use not_dec_bin2llvm.Lowering.{
  VarnodeView, PcodeOpView, BinaryOp, add, sub, mul, udiv, sdiv, urem, srem, and, or, xor, shl,
  lshr, ashr, Predicate, eq, ne, ult, ule, slt, sle, Value, int_const, binary, icmp, zext, sext,
  ctpop, ctlz, width, LoweringState, Context, constant, resize, read_varnode, write_varnode,
}

-- `true`, or `false` with what `errorMessage` is then; it is empty where the source leaves it alone.
pub data Outcome {ℓ} (A : Type ℓ) : Type ℓ where
  done : A → Outcome A
  failed : Text → Outcome A

-- `sameVarnode`.
unfoldable pub same_varnode : VarnodeView → VarnodeView → Bool
unfolding text_beq
same_varnode lhs rhs =
    text_beq lhs.space rhs.space && (lhs.offset == rhs.offset && lhs.size == rhs.size)

-- `requireInputCount`'s message.
unfoldable pub count_message : PcodeOpView → ℕ → Text
unfolding u64_text
count_message op count =
    op.opcode_name
    ++ (codes " needs "
        ++ (u64_text count ++ (codes " inputs, got " ++ u64_text (length op.inputs))))

-- The checks `!op.Output || !requireInputCount(op, n, ...)`, and what follows them.
unfoldable pub with_one :
    PcodeOpView → (VarnodeView → VarnodeView → Outcome LoweringState) → Outcome LoweringState
unfolding count_message
with_one op f = elim op.output [
  | none ↦ failed []
  | some output ↦ elim op.inputs [ a ∷ [] ↦ f output a | _ ↦ failed (count_message op 1) ]
]

unfoldable pub with_two :
    PcodeOpView
    → (VarnodeView → VarnodeView → VarnodeView → Outcome LoweringState)
    → Outcome LoweringState
unfolding count_message
with_two op f = elim op.output [
  | none ↦ failed []
  | some output ↦ elim op.inputs [ a ∷ b ∷ [] ↦ f output a b | _ ↦ failed (count_message op 2) ]
]

-- The instruction of `lowerBinary`'s switch.
unfoldable pub binary_op : PcodeOpcode → Option BinaryOp
binary_op int_add = some add
binary_op int_sub = some sub
binary_op int_mult = some mul
binary_op int_div = some udiv
binary_op int_s_div = some sdiv
binary_op int_rem = some urem
binary_op int_s_rem = some srem
binary_op int_and = some and
binary_op int_or = some or
binary_op int_xor = some xor
binary_op int_left = some shl
binary_op int_right = some lshr
binary_op int_s_right = some ashr
binary_op _ = none

unfoldable pub is_int_xor : PcodeOpcode → Bool
is_int_xor int_xor = true
is_int_xor _ = false

-- `lowerBinary`.
unfoldable pub binary_value : BinaryOp → Value → Value → ℕ → Value
unfolding resize
binary_value op a b size = binary op (resize a size) (resize b size)

unfoldable pub lower_binary : Context → LoweringState → PcodeOpView → Outcome LoweringState
unfolding with_two same_varnode constant binary_value bit_width binary_op is_int_xor
lower_binary c s op = with_two op (λ output a b.
    let p = read_varnode c s a in
    let q = read_varnode c p.0 b in
    if is_int_xor op.opcode && same_varnode a b
    then done (write_varnode c s output (constant (bit_width output.size) 0))
    else elim (binary_op op.opcode) [
      | none ↦ failed []
      | some instruction ↦
          done (write_varnode c q.0 output (binary_value instruction p.1 q.1 output.size))
    ])

-- The instruction of `lowerCompare`'s switch.
unfoldable pub predicate : PcodeOpcode → Option Predicate
predicate int_equal = some eq
predicate int_not_equal = some ne
predicate int_less = some ult
predicate int_less_equal = some ule
predicate int_s_less = some slt
predicate int_s_less_equal = some sle
predicate _ = none

unfoldable pub compare_value : Predicate → Value → Value → ℕ → Value
unfolding resize
compare_value p a b size = icmp p (resize a size) (resize b size)

-- `lowerCompare`.
unfoldable pub lower_compare : Context → LoweringState → PcodeOpView → Outcome LoweringState
unfolding with_two predicate compare_value
lower_compare c s op = with_two op (λ output a b.
    let p = read_varnode c s a in
    let q = read_varnode c p.0 b in
    elim (predicate op.opcode) [
      | none ↦ failed []
      | some test ↦ done (write_varnode c q.0 output (compare_value test p.1 q.1 a.size))
    ])

-- `CreateZExt` and `CreateSExt`, which return a value of that type as it is.
unfoldable pub create_zext : Value → ℕ → Value
create_zext value w = if width value == w then value else zext value w

unfoldable pub create_sext : Value → ℕ → Value
create_sext value w = if width value == w then value else sext value w

unfoldable pub cast_value : PcodeOpcode → Value → ℕ → Value
unfolding create_zext create_sext bit_width
cast_value int_z_ext value size = create_zext value (bit_width size)
cast_value _ value size = create_sext value (bit_width size)

-- `lowerCast`.
unfoldable pub lower_cast : Context → LoweringState → PcodeOpView → Outcome LoweringState
unfolding with_one cast_value
lower_cast c s op = with_one op (λ output a.
    let p = read_varnode c s a in
    done (write_varnode c p.0 output (cast_value op.opcode p.1 output.size)))

-- `CreateNot` and `CreateNeg`, as the builder defines them.
unfoldable pub create_not : Value → Value
create_not value = binary xor value (int_const (width value) (2 ^ width value - 1))

unfoldable pub create_neg : Value → Value
create_neg value = binary sub (int_const (width value) 0) value

unfoldable pub unary_value : PcodeOpcode → Value → ℕ → Option Value
unfolding create_not create_neg resize
unary_value int_negate value size = some (create_not (resize value size))
unary_value int2_comp value size = some (create_neg (resize value size))
unary_value _ value size = none

-- `lowerUnary`.
unfoldable pub lower_unary : Context → LoweringState → PcodeOpView → Outcome LoweringState
unfolding with_one unary_value
lower_unary c s op = with_one op (λ output a.
    let p = read_varnode c s a in
    elim (unary_value op.opcode p.1 output.size) [
      | none ↦ failed (codes "unsupported unary opcode: " ++ op.opcode_name)
      | some value ↦ done (write_varnode c p.0 output value)
    ])

unfoldable pub is_const : VarnodeView → Bool
unfolding text_beq
is_const v = text_beq v.space (codes "const")

-- The shift is a 64-bit product, cut to the type of the input.
unfoldable pub subpiece_value : Value → ℕ → Value
unfolding constant
subpiece_value value offset = binary lshr value (constant (width value) (offset * 8 % u64_mod))

-- `lowerSubpiece`.
unfoldable pub lower_subpiece : Context → LoweringState → PcodeOpView → Outcome LoweringState
unfolding with_two is_const subpiece_value
lower_subpiece c s op = with_two op (λ output a b.
    let p = read_varnode c s a in
    if not (is_const b)
    then failed (codes "SUBPIECE offset must be constant")
    else done (write_varnode c p.0 output (subpiece_value p.1 b.offset)))

unfoldable pub piece_value : Value → Value → ℕ → ℕ → Value
unfolding create_zext constant bit_width
piece_value high low size low_size =
    let w = bit_width size in
    binary or (binary shl (create_zext high w) (constant w (bit_width low_size)))
      (create_zext low w)

-- `lowerPiece`.
unfoldable pub lower_piece : Context → LoweringState → PcodeOpView → Outcome LoweringState
unfolding with_two piece_value
lower_piece c s op = with_two op (λ output a b.
    let p = read_varnode c s a in
    let q = read_varnode c p.0 b in
    done (write_varnode c q.0 output (piece_value p.1 q.1 output.size b.size)))

-- Every opcode but POPCOUNT counts leading zeros.
unfoldable pub count_value : PcodeOpcode → Value → Value
count_value popcount value = ctpop value
count_value _ value = ctlz value

-- `lowerCountBits`.
unfoldable pub lower_count_bits : Context → LoweringState → PcodeOpView → Outcome LoweringState
unfolding with_one count_value
lower_count_bits c s op = with_one op (λ output a.
    let p = read_varnode c s a in done (write_varnode c p.0 output (count_value op.opcode p.1)))

-- `lowerCopyLike`.
unfoldable pub lower_copy_like : Context → LoweringState → PcodeOpView → Outcome LoweringState
unfolding with_one
lower_copy_like c s op =
    with_one op (λ output a. let p = read_varnode c s a in done (write_varnode c p.0 output p.1))
