-- ===== src/Lowering/Steps.antt =====
-- `lowerOp` on the operations that stay within temporaries: which value it writes.
use not_dec_bin2llvm.Common.{
  ℕ, [], ◌∷◌, Option, none, some, true, false, ◌&&◌, ◌≡◌, refl, arith, subst,
}
use not_dec_bin2llvm.Pcode.{PcodeOpcode}
use not_dec_bin2llvm.Pcode
use not_dec_bin2llvm.Registers.{bit_width}
use not_dec_bin2llvm.Lowering.{
  Value, VarnodeView, PcodeOpView, LoweringState, Context, constant, read_varnode, write_varnode,
  set_source_ram, source_ram_of,
}
use not_dec_bin2llvm.Lowering.Operations.{
  Outcome, done, is_const, same_varnode, lower_binary, lower_compare, lower_cast, lower_unary,
  lower_subpiece, lower_piece, lower_count_bits, lower_copy_like, with_one, with_two, binary_op,
  predicate, unary_value, is_int_xor, subpiece_value,
}
use not_dec_bin2llvm.Lowering.Flags.{
  with_three, lower_ptr_add, lower_ptr_sub, lower_overflow, lower_signed_borrow, lower_add_overflow,
  carry_kind, lower_bool_negate, bool_op, lower_bool_binary, ptr_add_value, ptr_sub_value,
}
use not_dec_bin2llvm.Lowering.Dispatch.{OtherOps, lower_copy, handler, run_handler, lower_op}
use not_dec_bin2llvm.Lowering.Unary.{one_value}
use not_dec_bin2llvm.Lowering.TwoValues.{two_value}

-- The lowering succeeds and has written the value.
abbrev pub Lowers : Outcome LoweringState → Context → LoweringState → VarnodeView → Value → Type 0
Lowers o c s output value =
    (t : LoweringState) × (o ≡ done t)
    × (t.values ≡ (write_varnode c s output value).values)
    × (t.actions ≡ (write_varnode c s output value).actions)

source-kept :
    (s : LoweringState) (v : VarnodeView) (source : Option ℕ)
    → ((set_source_ram s v source).values ≡ s.values)
      × ((set_source_ram s v source).actions ≡ s.actions)
unfolding set_source_ram
source-kept s v none = (refl, refl)
source-kept s v (some source) = (refl, refl)

some-injective : {A : Type 0} {a b : A} → some a ≡ some b → a ≡ b
some-injective h = ground (arith, h)

module _ (others : OtherOps) (c : Context) (s : LoweringState) (op : PcodeOpView)
    (output a : VarnodeView) (has_output : op.output ≡ some output) where
  pub lower_one :
      (opcode : PcodeOpcode) {value : Value}
      → op.opcode ≡ opcode
      → op.inputs ≡ a ∷ []
      → one_value opcode (read_varnode c s a).1 output.size ≡ some value
      → Lowers (lower_op others c s op) c (read_varnode c s a).0 output value
  unfolding lower_op handler run_handler one_value lower_copy lower_copy_like lower_cast lower_unary
      lower_bool_negate lower_count_bits with_one unary_value
  lower_one Pcode.copy is has_inputs h =
      let p = read_varnode c s a in
      let kept = source-kept (write_varnode c p.0 output p.1) output (source_ram_of s a) in
      subst (Lowers (lower_op others c s op) c p.0 output) (some-injective h)
        (rw (is, has_output, has_inputs, lower_op, lower_copy, with_one) (_, refl, kept.0, kept.1))
  lower_one Pcode.cast is has_inputs h =
      subst (Lowers (lower_op others c s op) c _ output) (some-injective h)
        (rw (is, has_output, has_inputs, lower_op, lower_copy_like, with_one) (_, refl, refl, refl))
  lower_one Pcode.int_z_ext is has_inputs h =
      subst (Lowers (lower_op others c s op) c _ output) (some-injective h)
        (rw (is, has_output, has_inputs, lower_op, lower_cast, with_one) (_, refl, refl, refl))
  lower_one Pcode.int_s_ext is has_inputs h =
      subst (Lowers (lower_op others c s op) c _ output) (some-injective h)
        (rw (is, has_output, has_inputs, lower_op, lower_cast, with_one) (_, refl, refl, refl))
  lower_one Pcode.int_negate is has_inputs h =
      subst (Lowers (lower_op others c s op) c _ output) (some-injective h)
        (rw (is, has_output, has_inputs, lower_op, lower_unary, with_one) (_, refl, refl, refl))
  lower_one Pcode.int2_comp is has_inputs h =
      subst (Lowers (lower_op others c s op) c _ output) (some-injective h)
        (rw (is, has_output, has_inputs, lower_op, lower_unary, with_one) (_, refl, refl, refl))
  lower_one Pcode.bool_negate is has_inputs h =
      subst (Lowers (lower_op others c s op) c _ output) (some-injective h) (
        rw (is, has_output, has_inputs, lower_op, lower_bool_negate, with_one)
          (_, refl, refl, refl))
  lower_one Pcode.popcount is has_inputs h =
      subst (Lowers (lower_op others c s op) c _ output) (some-injective h) (
        rw (is, has_output, has_inputs, lower_op, lower_count_bits, with_one) (_, refl, refl, refl))
  lower_one Pcode.lzcount is has_inputs h =
      subst (Lowers (lower_op others c s op) c _ output) (some-injective h) (
        rw (is, has_output, has_inputs, lower_op, lower_count_bits, with_one) (_, refl, refl, refl))
  lower_one _ is has_inputs h = cc

  module _ (b : VarnodeView) where
    pub lower_two :
        (opcode : PcodeOpcode) {value : Value}
        → op.opcode ≡ opcode
        → op.inputs ≡ a ∷ b ∷ []
        → is_int_xor opcode && same_varnode a b ≡ false
        → (let p = read_varnode c s a in
            let q = read_varnode c p.0 b in
            two_value opcode p.1 q.1 a.size b.size output.size ≡ some value)
        → Lowers (lower_op others c s op) c (read_varnode c (read_varnode c s a).0 b).0 output value
    unfolding lower_op handler run_handler two_value lower_binary lower_compare lower_piece
        lower_signed_borrow lower_add_overflow lower_overflow carry_kind lower_bool_binary with_two
        is_int_xor binary_op predicate bool_op
    lower_two Pcode.int_add is has_inputs not_self h =
        subst (Lowers (lower_op others c s op) c _ output) (some-injective h)
          (rw (is, has_output, has_inputs, lower_op, lower_binary, with_two) (_, refl, refl, refl))
    lower_two Pcode.int_sub is has_inputs not_self h =
        subst (Lowers (lower_op others c s op) c _ output) (some-injective h)
          (rw (is, has_output, has_inputs, lower_op, lower_binary, with_two) (_, refl, refl, refl))
    lower_two Pcode.int_mult is has_inputs not_self h =
        subst (Lowers (lower_op others c s op) c _ output) (some-injective h)
          (rw (is, has_output, has_inputs, lower_op, lower_binary, with_two) (_, refl, refl, refl))
    lower_two Pcode.int_div is has_inputs not_self h =
        subst (Lowers (lower_op others c s op) c _ output) (some-injective h)
          (rw (is, has_output, has_inputs, lower_op, lower_binary, with_two) (_, refl, refl, refl))
    lower_two Pcode.int_s_div is has_inputs not_self h =
        subst (Lowers (lower_op others c s op) c _ output) (some-injective h)
          (rw (is, has_output, has_inputs, lower_op, lower_binary, with_two) (_, refl, refl, refl))
    lower_two Pcode.int_rem is has_inputs not_self h =
        subst (Lowers (lower_op others c s op) c _ output) (some-injective h)
          (rw (is, has_output, has_inputs, lower_op, lower_binary, with_two) (_, refl, refl, refl))
    lower_two Pcode.int_s_rem is has_inputs not_self h =
        subst (Lowers (lower_op others c s op) c _ output) (some-injective h)
          (rw (is, has_output, has_inputs, lower_op, lower_binary, with_two) (_, refl, refl, refl))
    lower_two Pcode.int_and is has_inputs not_self h =
        subst (Lowers (lower_op others c s op) c _ output) (some-injective h)
          (rw (is, has_output, has_inputs, lower_op, lower_binary, with_two) (_, refl, refl, refl))
    lower_two Pcode.int_or is has_inputs not_self h =
        subst (Lowers (lower_op others c s op) c _ output) (some-injective h)
          (rw (is, has_output, has_inputs, lower_op, lower_binary, with_two) (_, refl, refl, refl))
    lower_two Pcode.int_xor is has_inputs not_self h =
        subst (Lowers (lower_op others c s op) c _ output) (some-injective h) (
          rw (is, has_output, has_inputs, lower_op, lower_binary, with_two, not_self)
            (_, refl, refl, refl))
    lower_two Pcode.int_left is has_inputs not_self h =
        subst (Lowers (lower_op others c s op) c _ output) (some-injective h)
          (rw (is, has_output, has_inputs, lower_op, lower_binary, with_two) (_, refl, refl, refl))
    lower_two Pcode.int_right is has_inputs not_self h =
        subst (Lowers (lower_op others c s op) c _ output) (some-injective h)
          (rw (is, has_output, has_inputs, lower_op, lower_binary, with_two) (_, refl, refl, refl))
    lower_two Pcode.int_s_right is has_inputs not_self h =
        subst (Lowers (lower_op others c s op) c _ output) (some-injective h)
          (rw (is, has_output, has_inputs, lower_op, lower_binary, with_two) (_, refl, refl, refl))
    lower_two Pcode.int_equal is has_inputs not_self h =
        subst (Lowers (lower_op others c s op) c _ output) (some-injective h)
          (rw (is, has_output, has_inputs, lower_op, lower_compare, with_two) (_, refl, refl, refl))
    lower_two Pcode.int_not_equal is has_inputs not_self h =
        subst (Lowers (lower_op others c s op) c _ output) (some-injective h)
          (rw (is, has_output, has_inputs, lower_op, lower_compare, with_two) (_, refl, refl, refl))
    lower_two Pcode.int_less is has_inputs not_self h =
        subst (Lowers (lower_op others c s op) c _ output) (some-injective h)
          (rw (is, has_output, has_inputs, lower_op, lower_compare, with_two) (_, refl, refl, refl))
    lower_two Pcode.int_less_equal is has_inputs not_self h =
        subst (Lowers (lower_op others c s op) c _ output) (some-injective h)
          (rw (is, has_output, has_inputs, lower_op, lower_compare, with_two) (_, refl, refl, refl))
    lower_two Pcode.int_s_less is has_inputs not_self h =
        subst (Lowers (lower_op others c s op) c _ output) (some-injective h)
          (rw (is, has_output, has_inputs, lower_op, lower_compare, with_two) (_, refl, refl, refl))
    lower_two Pcode.int_s_less_equal is has_inputs not_self h =
        subst (Lowers (lower_op others c s op) c _ output) (some-injective h)
          (rw (is, has_output, has_inputs, lower_op, lower_compare, with_two) (_, refl, refl, refl))
    lower_two Pcode.int_carry is has_inputs not_self h =
        subst (Lowers (lower_op others c s op) c _ output) (some-injective h) (
          rw (is, has_output, has_inputs, lower_op, lower_add_overflow, with_two)
            (_, refl, refl, refl))
    lower_two Pcode.int_s_carry is has_inputs not_self h =
        subst (Lowers (lower_op others c s op) c _ output) (some-injective h) (
          rw (is, has_output, has_inputs, lower_op, lower_add_overflow, with_two)
            (_, refl, refl, refl))
    lower_two Pcode.int_s_borrow is has_inputs not_self h =
        subst (Lowers (lower_op others c s op) c _ output) (some-injective h) (
          rw (is, has_output, has_inputs, lower_op, lower_signed_borrow, with_two)
            (_, refl, refl, refl))
    lower_two Pcode.bool_and is has_inputs not_self h =
        subst (Lowers (lower_op others c s op) c _ output) (some-injective h) (
          rw (is, has_output, has_inputs, lower_op, lower_bool_binary, with_two)
            (_, refl, refl, refl))
    lower_two Pcode.bool_or is has_inputs not_self h =
        subst (Lowers (lower_op others c s op) c _ output) (some-injective h) (
          rw (is, has_output, has_inputs, lower_op, lower_bool_binary, with_two)
            (_, refl, refl, refl))
    lower_two Pcode.bool_xor is has_inputs not_self h =
        subst (Lowers (lower_op others c s op) c _ output) (some-injective h) (
          rw (is, has_output, has_inputs, lower_op, lower_bool_binary, with_two)
            (_, refl, refl, refl))
    lower_two Pcode.piece is has_inputs not_self h =
        subst (Lowers (lower_op others c s op) c _ output) (some-injective h)
          (rw (is, has_output, has_inputs, lower_op, lower_piece, with_two) (_, refl, refl, refl))
    lower_two _ is has_inputs not_self h = cc

    -- `x ^ x` is zero without a look at `x`.
    pub lower_self :
        op.opcode ≡ Pcode.int_xor
        → op.inputs ≡ a ∷ b ∷ []
        → same_varnode a b ≡ true
        → Lowers (lower_op others c s op) c s output (constant (bit_width output.size) 0)
    unfolding lower_op handler run_handler lower_binary with_two is_int_xor
    lower_self is has_inputs same =
        rw (is, has_output, has_inputs, lower_op, lower_binary, with_two, same)
          (_, refl, refl, refl)

    pub lower_sub :
        op.opcode ≡ Pcode.subpiece
        → op.inputs ≡ a ∷ b ∷ []
        → is_const b ≡ true
        → Lowers
            (lower_op others c s op)
            c
            (read_varnode c s a).0
            output
            (subpiece_value (read_varnode c s a).1 b.offset)
    unfolding lower_op handler run_handler lower_subpiece with_two
    lower_sub is has_inputs const =
        rw (is, has_output, has_inputs, lower_op, lower_subpiece, with_two, const)
          (_, refl, refl, refl)

    pub lower_pointer_sub :
        op.opcode ≡ Pcode.ptr_sub
        → op.inputs ≡ a ∷ b ∷ []
        → is_const b ≡ true
        → Lowers
            (lower_op others c s op)
            c
            (read_varnode c s a).0
            output
            (ptr_sub_value (read_varnode c s a).1 b.offset output.size)
    unfolding lower_op handler run_handler lower_ptr_sub with_two
    lower_pointer_sub is has_inputs const =
        rw (is, has_output, has_inputs, lower_op, lower_ptr_sub, with_two, const)
          (_, refl, refl, refl)

    pub lower_pointer_add :
        (d : VarnodeView)
        → op.opcode ≡ Pcode.ptr_add
        → op.inputs ≡ a ∷ b ∷ d ∷ []
        → is_const d ≡ true
        → (let p = read_varnode c s a in
            let q = read_varnode c p.0 b in
            Lowers
              (lower_op others c s op)
              c
              q.0
              output
              (ptr_add_value p.1 q.1 d.offset output.size))
    unfolding lower_op handler run_handler lower_ptr_add with_three
    lower_pointer_add d is has_inputs const =
        rw (is, has_output, has_inputs, lower_op, lower_ptr_add, with_three, const)
          (_, refl, refl, refl)
