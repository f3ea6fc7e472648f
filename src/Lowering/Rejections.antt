-- ===== src/Lowering/Rejections.antt =====
-- Which operations `lowerOp` rejects: the form of the operands decides, and nothing else.
use not_dec_bin2llvm.Common.{
  List, [], ◌∷◌, some, true, false, ◌&&◌, ◌≡◌, refl, Option-cases, inl, inr, arith, Bool-cases,
}
use not_dec_bin2llvm.Pcode.{PcodeOpcode}
use not_dec_bin2llvm.Pcode
use not_dec_bin2llvm.Lowering.{
  BinaryOp, Predicate, Overflow, VarnodeView, PcodeOpView, LoweringState, Context,
}
use not_dec_bin2llvm.Lowering.Operations.{
  is_const, is_int_xor, same_varnode, binary_op, predicate, unary_value, lower_binary,
  lower_compare, lower_cast, lower_unary, lower_subpiece, lower_piece, lower_count_bits,
  lower_copy_like,
}
use not_dec_bin2llvm.Lowering.Flags.{
  lower_ptr_add, lower_ptr_sub, lower_overflow, lower_signed_borrow, lower_add_overflow,
  lower_bool_negate, bool_op, lower_bool_binary,
}
use not_dec_bin2llvm.Lowering.Dispatch.{
  OtherOps, lower_copy, lower_load, lower_store, store_inputs, lower_helper_call, handler,
  run_handler, lower_op,
}
use not_dec_bin2llvm.Lowering.Forms.{
  is_done, with_output, form, matches, has_form, is_other, one_checked, two_checked, three_checked,
}

module _ (others : OtherOps) (c : Context) (s : LoweringState) (op : PcodeOpView) where
  store_checked :
      (inputs : List VarnodeView)
      → is_done (store_inputs c s op inputs) ≡ matches (true ∷ false ∷ false ∷ []) inputs
  unfolding store_inputs is_done matches
  store_checked [] = refl
  store_checked (a ∷ []) = ground arith
  store_checked (a ∷ b ∷ []) = ground arith
  store_checked (a ∷ b ∷ d ∷ x ∷ rest) = ground arith
  store_checked (a ∷ b ∷ d ∷ []) = elim (Bool-cases (is_const a)) [
    | inl const ↦ rw (const, store_inputs) refl
    | inr other ↦ rw (other, store_inputs) refl
  ]

  binary_checked :
      (opcode : PcodeOpcode) {instruction : BinaryOp}
      → op.opcode ≡ opcode
      → binary_op opcode ≡ some instruction
      → is_done (lower_binary c s op) ≡ has_form (with_output (false ∷ false ∷ [])) op
  unfolding lower_binary is_done matches
  binary_checked opcode is known =
      two_checked op _ false false
        (λ output a b. elim (Bool-cases (is_int_xor op.opcode && same_varnode a b)) [
          | inl self ↦ rw self refl
          | inr plain ↦ rw (plain, is, known) refl
        ])
        op.output op.inputs refl refl

  compare_checked :
      (opcode : PcodeOpcode) {test : Predicate}
      → op.opcode ≡ opcode
      → predicate opcode ≡ some test
      → is_done (lower_compare c s op) ≡ has_form (with_output (false ∷ false ∷ [])) op
  unfolding lower_compare is_done matches
  compare_checked opcode is known =
      two_checked op _ false false (λ output a b. rw (is, known) refl) op.output op.inputs refl refl

  bool_checked :
      (opcode : PcodeOpcode) {instruction : BinaryOp}
      → op.opcode ≡ opcode
      → bool_op opcode ≡ some instruction
      → is_done (lower_bool_binary c s op) ≡ has_form (with_output (false ∷ false ∷ [])) op
  unfolding lower_bool_binary is_done matches
  bool_checked opcode is known =
      two_checked op _ false false (λ output a b. rw (is, known) refl) op.output op.inputs refl refl

  overflow_checked :
      (kind : Overflow)
      → is_done (lower_overflow kind c s op) ≡ has_form (with_output (false ∷ false ∷ [])) op
  unfolding lower_overflow is_done matches
  overflow_checked kind =
      two_checked op _ false false (λ output a b. refl) op.output op.inputs refl refl

  load_checked : is_done (lower_load c s op) ≡ has_form (with_output (true ∷ false ∷ [])) op
  unfolding lower_load is_done matches
  load_checked =
      two_checked op _ true false
        (λ output a b. elim (Bool-cases (is_const a)) [
          | inl const ↦ rw const refl
          | inr other ↦ rw other refl
        ])
        op.output op.inputs refl refl

  sub_checked : is_done (lower_subpiece c s op) ≡ has_form (with_output (false ∷ true ∷ [])) op
  unfolding lower_subpiece is_done matches
  sub_checked =
      two_checked op _ false true
        (λ output a b. elim (Bool-cases (is_const b)) [
          | inl const ↦ rw const refl
          | inr other ↦ rw other refl
        ])
        op.output op.inputs refl refl

  ptr_sub_checked : is_done (lower_ptr_sub c s op) ≡ has_form (with_output (false ∷ true ∷ [])) op
  unfolding lower_ptr_sub is_done matches
  ptr_sub_checked =
      two_checked op _ false true
        (λ output a b. elim (Bool-cases (is_const b)) [
          | inl const ↦ rw const refl
          | inr other ↦ rw other refl
        ])
        op.output op.inputs refl refl

  ptr_add_checked :
      is_done (lower_ptr_add c s op) ≡ has_form (with_output (false ∷ false ∷ true ∷ [])) op
  unfolding lower_ptr_add is_done
  ptr_add_checked =
      three_checked op _
        (λ output a b d. elim (Bool-cases (is_const d)) [
          | inl const ↦ rw const refl
          | inr other ↦ rw other refl
        ])
        op.output op.inputs refl refl

  helper_checked : is_done (lower_helper_call c s op) ≡ true
  unfolding lower_helper_call is_done
  helper_checked = elim (Option-cases op.output) [
    | inl missing ↦ rw (missing, lower_helper_call) refl
    | inr (output, found) ↦ rw (found, lower_helper_call) refl
  ]

  by_opcode :
      (opcode : PcodeOpcode)
      → op.opcode ≡ opcode
      → is_other (handler opcode) ≡ false
      → is_done (run_handler others (handler opcode) c s op) ≡ has_form (form opcode) op
  unfolding handler run_handler is_other form lower_copy lower_store lower_cast lower_unary
      unary_value lower_copy_like lower_piece lower_count_bits lower_signed_borrow
      lower_add_overflow lower_bool_negate binary_op predicate bool_op has_form is_done matches
  by_opcode Pcode.copy is here = one_checked op _ (λ output a. refl) op.output op.inputs refl refl
  by_opcode Pcode.load is here = load_checked
  by_opcode Pcode.store is here = store_checked op.inputs
  by_opcode Pcode.branch is here = refl
  by_opcode Pcode.branch_ind is here = refl
  by_opcode Pcode.c_branch is here = refl
  by_opcode Pcode.return is here = refl
  by_opcode Pcode.multiequal is here = refl
  by_opcode Pcode.unsupported is here = refl
  by_opcode Pcode.int_add is here = binary_checked _ is refl
  by_opcode Pcode.int_sub is here = binary_checked _ is refl
  by_opcode Pcode.int_xor is here = binary_checked _ is refl
  by_opcode Pcode.int_and is here = binary_checked _ is refl
  by_opcode Pcode.int_or is here = binary_checked _ is refl
  by_opcode Pcode.int_left is here = binary_checked _ is refl
  by_opcode Pcode.int_right is here = binary_checked _ is refl
  by_opcode Pcode.int_s_right is here = binary_checked _ is refl
  by_opcode Pcode.int_mult is here = binary_checked _ is refl
  by_opcode Pcode.int_div is here = binary_checked _ is refl
  by_opcode Pcode.int_s_div is here = binary_checked _ is refl
  by_opcode Pcode.int_rem is here = binary_checked _ is refl
  by_opcode Pcode.int_s_rem is here = binary_checked _ is refl
  by_opcode Pcode.int_equal is here = compare_checked _ is refl
  by_opcode Pcode.int_not_equal is here = compare_checked _ is refl
  by_opcode Pcode.int_s_less is here = compare_checked _ is refl
  by_opcode Pcode.int_s_less_equal is here = compare_checked _ is refl
  by_opcode Pcode.int_less is here = compare_checked _ is refl
  by_opcode Pcode.int_less_equal is here = compare_checked _ is refl
  by_opcode Pcode.int_z_ext is here =
      one_checked op _ (λ output a. refl) op.output op.inputs refl refl
  by_opcode Pcode.int_s_ext is here =
      one_checked op _ (λ output a. refl) op.output op.inputs refl refl
  by_opcode Pcode.int_carry is here = overflow_checked _
  by_opcode Pcode.int_s_carry is here = overflow_checked _
  by_opcode Pcode.int_s_borrow is here = overflow_checked _
  by_opcode Pcode.int2_comp is here =
      one_checked op _ (λ output a. rw is refl) op.output op.inputs refl refl
  by_opcode Pcode.int_negate is here =
      one_checked op _ (λ output a. rw is refl) op.output op.inputs refl refl
  by_opcode Pcode.bool_negate is here =
      one_checked op _ (λ output a. refl) op.output op.inputs refl refl
  by_opcode Pcode.bool_and is here = bool_checked _ is refl
  by_opcode Pcode.bool_or is here = bool_checked _ is refl
  by_opcode Pcode.bool_xor is here = bool_checked _ is refl
  by_opcode Pcode.indirect is here =
      one_checked op _ (λ output a. refl) op.output op.inputs refl refl
  by_opcode Pcode.cast is here = one_checked op _ (λ output a. refl) op.output op.inputs refl refl
  by_opcode Pcode.popcount is here =
      one_checked op _ (λ output a. refl) op.output op.inputs refl refl
  by_opcode Pcode.lzcount is here =
      one_checked op _ (λ output a. refl) op.output op.inputs refl refl
  by_opcode Pcode.piece is here =
      two_checked op _ false false (λ output a b. refl) op.output op.inputs refl refl
  by_opcode Pcode.subpiece is here = sub_checked
  by_opcode Pcode.ptr_add is here = ptr_add_checked
  by_opcode Pcode.ptr_sub is here = ptr_sub_checked
  by_opcode Pcode.segment_op is here = helper_checked
  by_opcode Pcode.cpool_ref is here = helper_checked
  by_opcode Pcode.new is here = helper_checked
  by_opcode Pcode.insert is here = helper_checked
  by_opcode Pcode.extract is here = helper_checked
  by_opcode _ is here = cc

  -- An operation that is neither a call nor a floating-point one is lowered exactly if its
  -- operands have the form of its opcode: an output where one is due, the right number of inputs,
  -- and constants where p-code wants them. Terminators, MULTIEQUAL and unsupported opcodes are
  -- rejected, helpers are not, and the state has no influence.
  pub lower_op-has_form :
      is_other (handler op.opcode) ≡ false
      → is_done (lower_op others c s op) ≡ has_form (form op.opcode) op
  unfolding lower_op
  lower_op-has_form here = by_opcode op.opcode refl here
