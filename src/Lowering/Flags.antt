-- ===== src/Lowering/Flags.antt =====
-- lib/PcodeToLLVM.cpp: the lowering of pointer sums, overflow bits and Booleans.
use not_dec_bin2llvm.Common.{ℕ, [], ◌∷◌, Option, none, some, ◌==◌, if◌then◌else◌, not, codes}
use not_dec_bin2llvm.Pcode.{PcodeOpcode}
use not_dec_bin2llvm.Pcode
use not_dec_bin2llvm.Lowering.{
  VarnodeView, PcodeOpView, BinaryOp, add, mul, and, or, xor, ne, Overflow, uadd, sadd, ssub, Value,
  binary, icmp, overflow_bit, width, LoweringState, Context, constant, resize, read_varnode,
  write_varnode,
}
use not_dec_bin2llvm.Lowering.Operations.{
  Outcome, done, failed, count_message, with_one, with_two, is_const, create_not,
}

unfoldable pub with_three :
    PcodeOpView
    → (VarnodeView → VarnodeView → VarnodeView → VarnodeView → Outcome LoweringState)
    → Outcome LoweringState
unfolding count_message
with_three op f = elim op.output [
  | none ↦ failed []
  | some output ↦ elim op.inputs [
    | a ∷ b ∷ c ∷ [] ↦ f output a b c
    | _ ↦ failed (count_message op 3)
  ]
]

unfoldable pub ptr_add_value : Value → Value → ℕ → ℕ → Value
unfolding resize constant
ptr_add_value base index scale size =
    binary add (resize base size)
      (binary mul (resize index size) (constant (width (resize base size)) scale))

-- `lowerPtrAdd`.
unfoldable pub lower_ptr_add : Context → LoweringState → PcodeOpView → Outcome LoweringState
unfolding with_three is_const ptr_add_value
lower_ptr_add c s op = with_three op (λ output a b scale.
    let p = read_varnode c s a in
    let q = read_varnode c p.0 b in
    if not (is_const scale)
    then failed (codes "PTRADD element size must be constant")
    else done (write_varnode c q.0 output (ptr_add_value p.1 q.1 scale.offset output.size)))

unfoldable pub ptr_sub_value : Value → ℕ → ℕ → Value
unfolding resize constant
ptr_sub_value base offset size =
    binary add (resize base size) (constant (width (resize base size)) offset)

-- `lowerPtrSub`.
unfoldable pub lower_ptr_sub : Context → LoweringState → PcodeOpView → Outcome LoweringState
unfolding with_two is_const ptr_sub_value
lower_ptr_sub c s op = with_two op (λ output a b.
    let p = read_varnode c s a in
    if not (is_const b)
    then failed (codes "PTRSUB offset must be constant")
    else done (write_varnode c p.0 output (ptr_sub_value p.1 b.offset output.size)))

unfoldable pub overflow_value : Overflow → Value → Value → ℕ → Value
unfolding resize
overflow_value kind a b size = overflow_bit kind a (resize b size)

unfoldable pub lower_overflow :
    Overflow → Context → LoweringState → PcodeOpView → Outcome LoweringState
unfolding with_two overflow_value
lower_overflow kind c s op = with_two op (λ output a b.
    let p = read_varnode c s a in
    let q = read_varnode c p.0 b in
    done (write_varnode c q.0 output (overflow_value kind p.1 q.1 a.size)))

-- `lowerSignedBorrow`.
unfoldable pub lower_signed_borrow : Context → LoweringState → PcodeOpView → Outcome LoweringState
unfolding lower_overflow
lower_signed_borrow c s op = lower_overflow ssub c s op

unfoldable pub carry_kind : PcodeOpcode → Overflow
carry_kind Pcode.int_carry = uadd
carry_kind _ = sadd

-- `lowerAddOverflow`.
unfoldable pub lower_add_overflow : Context → LoweringState → PcodeOpView → Outcome LoweringState
unfolding lower_overflow carry_kind
lower_add_overflow c s op = lower_overflow (carry_kind op.opcode) c s op

-- `asCondition`.
unfoldable pub as_condition : Value → Value
unfolding constant
as_condition value = if width value == 1 then value else icmp ne value (constant (width value) 0)

-- `lowerBoolNegate`.
unfoldable pub lower_bool_negate : Context → LoweringState → PcodeOpView → Outcome LoweringState
unfolding with_one create_not as_condition
lower_bool_negate c s op = with_one op (λ output a.
    let p = read_varnode c s a in done (write_varnode c p.0 output (create_not (as_condition p.1))))

unfoldable pub bool_op : PcodeOpcode → Option BinaryOp
bool_op Pcode.bool_and = some and
bool_op Pcode.bool_or = some or
bool_op Pcode.bool_xor = some xor
bool_op _ = none

unfoldable pub bool_value : BinaryOp → Value → Value → Value
unfolding as_condition
bool_value op a b = binary op (as_condition a) (as_condition b)

-- `lowerBoolBinary`.
unfoldable pub lower_bool_binary : Context → LoweringState → PcodeOpView → Outcome LoweringState
unfolding with_two bool_op bool_value
lower_bool_binary c s op = with_two op (λ output a b.
    let p = read_varnode c s a in
    let q = read_varnode c p.0 b in
    elim (bool_op op.opcode) [
      | none ↦ failed []
      | some instruction ↦ done (write_varnode c q.0 output (bool_value instruction p.1 q.1))
    ])
