-- ===== src/Lowering/Typing/Blocks.antt =====
-- A block of operations of `lowerOp` builds well-typed values.
use not_dec_bin2llvm.Common.{List, [], ◌∷◌, Bool, true, false, ◌≡◌, refl, arith, All, inl, inr}
use not_dec_bin2llvm.Pcode.{PcodeOpcode}
use not_dec_bin2llvm.Pcode
use not_dec_bin2llvm.Lowering.{PcodeOpView, LoweringState, Context}
use not_dec_bin2llvm.Lowering.Operations.{done}
use not_dec_bin2llvm.Lowering.Flags.{lower_signed_borrow, lower_add_overflow}
use not_dec_bin2llvm.Lowering.Dispatch.{
  OtherOps, Handler, lower_store, handler, run_handler, lower_op, lower_ops,
}
use not_dec_bin2llvm.Lowering.Forms.{is_other}
use not_dec_bin2llvm.Lowering.Typing.{StateIsTyped}
use not_dec_bin2llvm.Lowering.Typing.Steps.{Keeps, kept, rejected, Keeps-done, Outcome-cases}
use not_dec_bin2llvm.Lowering.Typing.Memory.{load-Keeps, store-Keeps, helper-Keeps}
use not_dec_bin2llvm.Lowering.Typing.Handlers.{
  extends_inputs, WidthsAreOk, copy-Keeps, copy_like-Keeps, count-Keeps, negate-Keeps, cast-Keeps,
  unary-Keeps, binary-Keeps, compare-Keeps, bool-Keeps, overflow-Keeps, piece-Keeps, subpiece-Keeps,
  ptr_sub-Keeps, ptr_add-Keeps,
}

-- The handlers whose operands must not be wider than the output.
unfoldable pub needs_widths : Handler → Bool
needs_widths Handler.a_cast = true
needs_widths Handler.a_piece = true
needs_widths _ = false

needs_widths-extends_inputs :
    (opcode : PcodeOpcode) → needs_widths (handler opcode) ≡ true → extends_inputs opcode ≡ true
unfolding handler needs_widths extends_inputs
needs_widths-extends_inputs Pcode.int_z_ext h = refl
needs_widths-extends_inputs Pcode.int_s_ext h = refl
needs_widths-extends_inputs Pcode.piece h = refl
needs_widths-extends_inputs _ h = cc

module _ (others : OtherOps) (c : Context) where
  handler-Keeps :
      (s : LoweringState) (op : PcodeOpView) (h : Handler)
      → StateIsTyped s
      → WidthsAreOk op
      → (needs_widths h ≡ true → extends_inputs op.opcode ≡ true)
      → is_other h ≡ false
      → Keeps (run_handler others h c s op)
  unfolding run_handler is_other needs_widths lower_store lower_signed_borrow lower_add_overflow
  handler-Keeps s op Handler.a_copy ok widths needs here = copy-Keeps c s op ok
  handler-Keeps s op Handler.a_load ok widths needs here = load-Keeps c s op ok
  handler-Keeps s op Handler.a_store ok widths needs here = store-Keeps c s op ok op.inputs
  handler-Keeps s op Handler.a_terminator ok widths needs here = rejected
  handler-Keeps s op Handler.a_binary ok widths needs here = binary-Keeps c s op ok
  handler-Keeps s op Handler.a_compare ok widths needs here = compare-Keeps c s op ok
  handler-Keeps s op Handler.a_cast ok widths needs here = cast-Keeps c s op ok widths (needs refl)
  handler-Keeps s op Handler.a_unary ok widths needs here = unary-Keeps c s op ok
  handler-Keeps s op Handler.a_copy_like ok widths needs here = copy_like-Keeps c s op ok
  handler-Keeps s op Handler.a_piece ok widths needs here =
      piece-Keeps c s op ok widths (needs refl)
  handler-Keeps s op Handler.a_subpiece ok widths needs here = subpiece-Keeps c s op ok
  handler-Keeps s op Handler.a_ptr_add ok widths needs here = ptr_add-Keeps c s op ok
  handler-Keeps s op Handler.a_ptr_sub ok widths needs here = ptr_sub-Keeps c s op ok
  handler-Keeps s op Handler.a_count ok widths needs here = count-Keeps c s op ok
  handler-Keeps s op Handler.an_add_overflow ok widths needs here = overflow-Keeps c s op ok _
  handler-Keeps s op Handler.a_signed_borrow ok widths needs here = overflow-Keeps c s op ok _
  handler-Keeps s op Handler.a_bool_negate ok widths needs here = negate-Keeps c s op ok
  handler-Keeps s op Handler.a_bool_binary ok widths needs here = bool-Keeps c s op ok
  handler-Keeps s op Handler.a_helper ok widths needs here = helper-Keeps c s op ok
  handler-Keeps s op Handler.a_multiequal ok widths needs here = rejected
  handler-Keeps s op Handler.no_handler ok widths needs here = rejected
  handler-Keeps s op Handler.a_call ok widths needs here = cc
  handler-Keeps s op Handler.a_float ok widths needs here = cc

  -- If no operation of a list is a call or a floating-point one, extensions and pieces do not
  -- narrow, and what is cached and done so far is well-typed, then a lowering that succeeds
  -- leaves only well-typed values: both operands of an instruction have one type, extensions
  -- widen and truncations narrow, also in stores and calls of helpers.
  pub lower_ops-StateIsTyped :
      (ops : List PcodeOpView) (s t : LoweringState)
      → All (λ (op : PcodeOpView). is_other (handler op.opcode) ≡ false) ops
      → All WidthsAreOk ops
      → StateIsTyped s
      → lower_ops others c s ops ≡ done t
      → StateIsTyped t
  unfolding lower_ops lower_op
  lower_ops-StateIsTyped [] s t here widths ok h = Keeps-done (kept ok) h
  lower_ops-StateIsTyped (op ∷ ops) s t (here, heres) (wide, wides) ok h =
      let keeps =
        handler-Keeps s op (handler op.opcode) ok wide (needs_widths-extends_inputs op.opcode)
          here in
      elim (Outcome-cases (run_handler others (handler op.opcode) c s op)) [
        | inl (u, succeeded) ↦
            lower_ops-StateIsTyped ops u t heres wides (Keeps-done keeps succeeded)
              (ground (arith, succeeded, h))
        | inr (message, fails) ↦ absurd (ground (arith, fails, h))
      ]
