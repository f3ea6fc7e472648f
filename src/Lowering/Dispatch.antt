-- ===== src/Lowering/Dispatch.antt =====
-- lib/PcodeToLLVM.cpp: the lowering of copies, memory accesses and helpers, and `lowerOp`.
use not_dec_bin2llvm.Common.{
  List, [], ◌∷◌, ◌++◌, none, some, if◌then◌else◌, not, Text, codes, text_beq,
}
use not_dec_bin2llvm.Numbers.{dec_text}
use not_dec_bin2llvm.Pcode.{PcodeOpcode}
use not_dec_bin2llvm.Pcode
use not_dec_bin2llvm.Registers.{bit_width}
use not_dec_bin2llvm.Lowering.{
  VarnodeView, PcodeOpView, Value, LoweringState, Context, constant, resize, emit, read_varnode,
  write_varnode, source_ram_of, set_source_ram, pointer_load, pointer_store, helper_call,
}
use not_dec_bin2llvm.Lowering.Operations.{
  Outcome, done, failed, count_message, with_one, with_two, is_const, lower_binary, lower_compare,
  lower_cast, lower_unary, lower_subpiece, lower_piece, lower_count_bits, lower_copy_like,
}
use not_dec_bin2llvm.Lowering.Flags.{
  lower_ptr_add, lower_ptr_sub, lower_signed_borrow, lower_add_overflow, lower_bool_negate,
  lower_bool_binary,
}

-- The `Copy` of `lowerOp`, which also keeps where in memory a value came from.
unfoldable pub lower_copy : Context → LoweringState → PcodeOpView → Outcome LoweringState
unfolding with_one source_ram_of set_source_ram
lower_copy c s op = with_one op (λ output a.
    let p = read_varnode c s a in
    done (set_source_ram (write_varnode c p.0 output p.1) output (source_ram_of s a)))

selector_message : PcodeOpView → Text
selector_message op = op.opcode_name ++ codes " address space selector must be const"

-- `lowerLoad`.
unfoldable pub lower_load : Context → LoweringState → PcodeOpView → Outcome LoweringState
unfolding with_two is_const selector_message emit resize
lower_load c s op = with_two op (λ output selector pointer.
    let p = read_varnode c s pointer in
    let r =
      emit p.0 (pointer_load output.size (resize p.1 c.pointer_byte_size))
        (bit_width output.size) in
    if not (is_const selector)
    then failed (selector_message op)
    else done (write_varnode c r.0 output r.1))

-- The inputs of `lowerStore`, which has no output.
unfoldable pub store_inputs :
    Context → LoweringState → PcodeOpView → List VarnodeView → Outcome LoweringState
unfolding count_message is_const selector_message emit resize
store_inputs c s op (selector ∷ pointer ∷ value ∷ []) =
    let p = read_varnode c s pointer in
    let q = read_varnode c p.0 value in
    if not (is_const selector)
    then failed (selector_message op)
    else done (emit q.0 (pointer_store q.1 (resize p.1 c.pointer_byte_size)) 0).0
store_inputs c s op _ = failed (count_message op 3)

-- `lowerStore`.
unfoldable pub lower_store : Context → LoweringState → PcodeOpView → Outcome LoweringState
unfolding store_inputs
lower_store c s op = store_inputs c s op op.inputs

-- The arguments of `lowerHelperCall`: a place in memory is passed as its address.
unfoldable pub helper_args :
    Context → LoweringState → List VarnodeView → List Value → LoweringState × List Value
unfolding constant text_beq
helper_args c s [] args = (s, args)
helper_args c s (v ∷ vs) args =
    if text_beq v.space (codes "ram")
    then helper_args c s vs (args ++ constant (bit_width v.size) v.offset ∷ [])
    else helper_args c (read_varnode c s v).0 vs (args ++ (read_varnode c s v).1 ∷ [])

unfoldable pub helper_name : PcodeOpView → Text
helper_name op =
    codes "notdec_pcode_"
    ++ (op.opcode_name ++ (elim op.output [
      | none ↦ codes "_void"
      | some output ↦ codes "_i" ++ dec_text (bit_width output.size)
    ]))

-- `lowerHelperCall`.
unfoldable pub lower_helper_call : Context → LoweringState → PcodeOpView → Outcome LoweringState
unfolding helper_args helper_name emit
lower_helper_call c s op =
    let p = helper_args c s op.inputs [] in
    elim op.output [
      | none ↦ done (emit p.0 (helper_call (helper_name op) p.1) 0).0
      | some output ↦
          let r = emit p.0 (helper_call (helper_name op) p.1) (bit_width output.size) in
          done (write_varnode c r.0 output r.1)
    ]

-- The cases of `lowerOp` that this file does not have: calls, and floating point.
pub record OtherOps : Type 0 where
  pub lower_call : Context → LoweringState → PcodeOpView → Outcome LoweringState
  pub lower_float : Context → LoweringState → PcodeOpView → Outcome LoweringState

-- The functions that `lowerOp` chooses from.
pub data Handler : Type 0 where
  a_copy a_load a_store a_call a_terminator : Handler
  a_binary a_compare a_cast a_unary a_copy_like : Handler
  a_piece a_subpiece a_ptr_add a_ptr_sub a_count : Handler
  an_add_overflow a_signed_borrow a_bool_negate a_bool_binary : Handler
  a_float a_helper a_multiequal no_handler : Handler

-- The cases of `lowerOp`.
unfoldable pub handler : PcodeOpcode → Handler
handler Pcode.copy = a_copy
handler Pcode.load = a_load
handler Pcode.store = a_store
handler Pcode.call = a_call
handler Pcode.call_ind = a_call
handler Pcode.call_other = a_call
handler Pcode.branch = a_terminator
handler Pcode.branch_ind = a_terminator
handler Pcode.c_branch = a_terminator
handler Pcode.return = a_terminator
handler Pcode.int_equal = a_compare
handler Pcode.int_not_equal = a_compare
handler Pcode.int_s_less = a_compare
handler Pcode.int_s_less_equal = a_compare
handler Pcode.int_less = a_compare
handler Pcode.int_less_equal = a_compare
handler Pcode.int_z_ext = a_cast
handler Pcode.int_s_ext = a_cast
handler Pcode.int_add = a_binary
handler Pcode.int_carry = an_add_overflow
handler Pcode.int_s_carry = an_add_overflow
handler Pcode.int_sub = a_binary
handler Pcode.int_s_borrow = a_signed_borrow
handler Pcode.int2_comp = a_unary
handler Pcode.int_negate = a_unary
handler Pcode.int_xor = a_binary
handler Pcode.int_and = a_binary
handler Pcode.int_or = a_binary
handler Pcode.int_left = a_binary
handler Pcode.int_right = a_binary
handler Pcode.int_s_right = a_binary
handler Pcode.int_mult = a_binary
handler Pcode.int_div = a_binary
handler Pcode.int_s_div = a_binary
handler Pcode.int_rem = a_binary
handler Pcode.int_s_rem = a_binary
handler Pcode.bool_negate = a_bool_negate
handler Pcode.bool_and = a_bool_binary
handler Pcode.bool_or = a_bool_binary
handler Pcode.bool_xor = a_bool_binary
handler Pcode.multiequal = a_multiequal
handler Pcode.indirect = a_copy_like
handler Pcode.piece = a_piece
handler Pcode.subpiece = a_subpiece
handler Pcode.cast = a_copy_like
handler Pcode.ptr_add = a_ptr_add
handler Pcode.ptr_sub = a_ptr_sub
handler Pcode.segment_op = a_helper
handler Pcode.cpool_ref = a_helper
handler Pcode.new = a_helper
handler Pcode.insert = a_helper
handler Pcode.extract = a_helper
handler Pcode.popcount = a_count
handler Pcode.lzcount = a_count
handler Pcode.unsupported = no_handler
handler _ = a_float

-- What each of them does.
unfoldable pub run_handler :
    OtherOps → Handler → Context → LoweringState → PcodeOpView → Outcome LoweringState
unfolding lower_copy lower_load lower_store lower_binary lower_compare lower_cast lower_unary
    lower_copy_like lower_piece lower_subpiece lower_ptr_add lower_ptr_sub lower_count_bits
    lower_add_overflow lower_signed_borrow lower_bool_negate lower_bool_binary lower_helper_call
run_handler others a_copy c s op = lower_copy c s op
run_handler others a_load c s op = lower_load c s op
run_handler others a_store c s op = lower_store c s op
run_handler others a_call c s op = others.lower_call c s op
run_handler others a_terminator c s op =
    failed (op.opcode_name ++ codes " appeared in non-terminator position")
run_handler others a_binary c s op = lower_binary c s op
run_handler others a_compare c s op = lower_compare c s op
run_handler others a_cast c s op = lower_cast c s op
run_handler others a_unary c s op = lower_unary c s op
run_handler others a_copy_like c s op = lower_copy_like c s op
run_handler others a_piece c s op = lower_piece c s op
run_handler others a_subpiece c s op = lower_subpiece c s op
run_handler others a_ptr_add c s op = lower_ptr_add c s op
run_handler others a_ptr_sub c s op = lower_ptr_sub c s op
run_handler others a_count c s op = lower_count_bits c s op
run_handler others an_add_overflow c s op = lower_add_overflow c s op
run_handler others a_signed_borrow c s op = lower_signed_borrow c s op
run_handler others a_bool_negate c s op = lower_bool_negate c s op
run_handler others a_bool_binary c s op = lower_bool_binary c s op
run_handler others a_float c s op = others.lower_float c s op
run_handler others a_helper c s op = lower_helper_call c s op
run_handler others a_multiequal c s op =
    failed (codes "MULTIEQUAL is not expected in raw Sleigh P-Code")
run_handler others no_handler c s op =
    failed (codes "unsupported p-code opcode: " ++ op.opcode_name)

-- `lowerOp`.
unfoldable pub lower_op : OtherOps → Context → LoweringState → PcodeOpView → Outcome LoweringState
unfolding handler run_handler
lower_op others c s op = run_handler others (handler op.opcode) c s op

-- The operations of a block in order, up to the first that fails.
unfoldable pub lower_ops :
    OtherOps → Context → LoweringState → List PcodeOpView → Outcome LoweringState
unfolding lower_op
lower_ops others c s [] = done s
lower_ops others c s (op ∷ ops) = elim (lower_op others c s op) [
  | failed message ↦ failed message
  | done t ↦ lower_ops others c t ops
]
