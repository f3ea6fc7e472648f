-- ===== src/Pcode.antt =====
-- include/notdec-bin2llvm/Pcode.h, lib/Pcode.cpp and lib/SleighLift.cpp: the opcodes of the lifted
-- p-code, their names, and their reading from Ghidra's opcodes, which are parameters of a kind: the
-- type below has the enumerators that the code names, and `other_code` for the rest.
pub mod Opcodes
pub mod Conversion
use not_dec_bin2llvm.Common.{ℕ, Text, codes}

-- `PcodeOpcode`.
pub data PcodeOpcode : Type 0 where
  copy load store call call_ind call_other : PcodeOpcode
  branch branch_ind c_branch return int_equal int_not_equal : PcodeOpcode
  int_s_less int_s_less_equal int_less int_less_equal int_z_ext int_s_ext : PcodeOpcode
  int_add int_carry int_s_carry int_sub int_s_borrow int2_comp : PcodeOpcode
  int_negate int_xor int_and int_or int_left int_right : PcodeOpcode
  int_s_right int_mult int_div int_s_div int_rem int_s_rem : PcodeOpcode
  bool_negate bool_and bool_or bool_xor float_equal float_not_equal : PcodeOpcode
  float_less float_less_equal float_nan float_add float_div float_mult : PcodeOpcode
  float_sub float_neg float_abs float_sqrt float_int2_float float_float2_float : PcodeOpcode
  float_trunc float_ceil float_floor float_round multiequal indirect : PcodeOpcode
  piece subpiece cast ptr_add ptr_sub segment_op : PcodeOpcode
  cpool_ref new insert extract popcount lzcount : PcodeOpcode
  unsupported : PcodeOpcode

-- The enumerators of `ghidra::OpCode` that `convertOpcode` names, and the others by number.
pub data GhidraOpcode : Type 0 where
  cpui_copy cpui_load cpui_store cpui_call cpui_callind : GhidraOpcode
  cpui_callother cpui_branch cpui_branchind cpui_cbranch cpui_return : GhidraOpcode
  cpui_int_equal cpui_int_notequal cpui_int_sless cpui_int_slessequal cpui_int_less : GhidraOpcode
  cpui_int_lessequal cpui_int_zext cpui_int_sext cpui_int_add cpui_int_carry : GhidraOpcode
  cpui_int_scarry cpui_int_sub cpui_int_sborrow cpui_int_2comp cpui_int_negate : GhidraOpcode
  cpui_int_xor cpui_int_and cpui_int_or cpui_int_left cpui_int_right : GhidraOpcode
  cpui_int_sright cpui_int_mult cpui_int_div cpui_int_sdiv cpui_int_rem : GhidraOpcode
  cpui_int_srem cpui_bool_negate cpui_bool_and cpui_bool_or cpui_bool_xor : GhidraOpcode
  cpui_float_equal cpui_float_notequal cpui_float_less cpui_float_lessequal cpui_float_nan :
      GhidraOpcode
  cpui_float_add cpui_float_div cpui_float_mult cpui_float_sub cpui_float_neg : GhidraOpcode
  cpui_float_abs cpui_float_sqrt cpui_float_int2float cpui_float_float2float cpui_float_trunc :
      GhidraOpcode
  cpui_float_ceil cpui_float_floor cpui_float_round cpui_multiequal cpui_indirect : GhidraOpcode
  cpui_piece cpui_subpiece cpui_cast cpui_ptradd cpui_ptrsub : GhidraOpcode
  cpui_segmentop cpui_cpoolref cpui_new cpui_insert cpui_extract : GhidraOpcode
  cpui_popcount cpui_lzcount : GhidraOpcode
  other_code : ℕ → GhidraOpcode

-- `pcodeOpcodeName`.
unfoldable pub pcode_opcode_name : PcodeOpcode → Text
pcode_opcode_name copy = codes "COPY"
pcode_opcode_name load = codes "LOAD"
pcode_opcode_name store = codes "STORE"
pcode_opcode_name call = codes "CALL"
pcode_opcode_name call_ind = codes "CALLIND"
pcode_opcode_name call_other = codes "CALLOTHER"
pcode_opcode_name branch = codes "BRANCH"
pcode_opcode_name branch_ind = codes "BRANCHIND"
pcode_opcode_name c_branch = codes "CBRANCH"
pcode_opcode_name return = codes "RETURN"
pcode_opcode_name int_equal = codes "INT_EQUAL"
pcode_opcode_name int_not_equal = codes "INT_NOTEQUAL"
pcode_opcode_name int_s_less = codes "INT_SLESS"
pcode_opcode_name int_s_less_equal = codes "INT_SLESSEQUAL"
pcode_opcode_name int_less = codes "INT_LESS"
pcode_opcode_name int_less_equal = codes "INT_LESSEQUAL"
pcode_opcode_name int_z_ext = codes "INT_ZEXT"
pcode_opcode_name int_s_ext = codes "INT_SEXT"
pcode_opcode_name int_add = codes "INT_ADD"
pcode_opcode_name int_carry = codes "INT_CARRY"
pcode_opcode_name int_s_carry = codes "INT_SCARRY"
pcode_opcode_name int_sub = codes "INT_SUB"
pcode_opcode_name int_s_borrow = codes "INT_SBORROW"
pcode_opcode_name int2_comp = codes "INT_2COMP"
pcode_opcode_name int_negate = codes "INT_NEGATE"
pcode_opcode_name int_xor = codes "INT_XOR"
pcode_opcode_name int_and = codes "INT_AND"
pcode_opcode_name int_or = codes "INT_OR"
pcode_opcode_name int_left = codes "INT_LEFT"
pcode_opcode_name int_right = codes "INT_RIGHT"
pcode_opcode_name int_s_right = codes "INT_SRIGHT"
pcode_opcode_name int_mult = codes "INT_MULT"
pcode_opcode_name int_div = codes "INT_DIV"
pcode_opcode_name int_s_div = codes "INT_SDIV"
pcode_opcode_name int_rem = codes "INT_REM"
pcode_opcode_name int_s_rem = codes "INT_SREM"
pcode_opcode_name bool_negate = codes "BOOL_NEGATE"
pcode_opcode_name bool_and = codes "BOOL_AND"
pcode_opcode_name bool_or = codes "BOOL_OR"
pcode_opcode_name bool_xor = codes "BOOL_XOR"
pcode_opcode_name float_equal = codes "FLOAT_EQUAL"
pcode_opcode_name float_not_equal = codes "FLOAT_NOTEQUAL"
pcode_opcode_name float_less = codes "FLOAT_LESS"
pcode_opcode_name float_less_equal = codes "FLOAT_LESSEQUAL"
pcode_opcode_name float_nan = codes "FLOAT_NAN"
pcode_opcode_name float_add = codes "FLOAT_ADD"
pcode_opcode_name float_div = codes "FLOAT_DIV"
pcode_opcode_name float_mult = codes "FLOAT_MULT"
pcode_opcode_name float_sub = codes "FLOAT_SUB"
pcode_opcode_name float_neg = codes "FLOAT_NEG"
pcode_opcode_name float_abs = codes "FLOAT_ABS"
pcode_opcode_name float_sqrt = codes "FLOAT_SQRT"
pcode_opcode_name float_int2_float = codes "INT2FLOAT"
pcode_opcode_name float_float2_float = codes "FLOAT2FLOAT"
pcode_opcode_name float_trunc = codes "TRUNC"
pcode_opcode_name float_ceil = codes "CEIL"
pcode_opcode_name float_floor = codes "FLOOR"
pcode_opcode_name float_round = codes "ROUND"
pcode_opcode_name multiequal = codes "MULTIEQUAL"
pcode_opcode_name indirect = codes "INDIRECT"
pcode_opcode_name piece = codes "PIECE"
pcode_opcode_name subpiece = codes "SUBPIECE"
pcode_opcode_name cast = codes "CAST"
pcode_opcode_name ptr_add = codes "PTRADD"
pcode_opcode_name ptr_sub = codes "PTRSUB"
pcode_opcode_name segment_op = codes "SEGMENTOP"
pcode_opcode_name cpool_ref = codes "CPOOLREF"
pcode_opcode_name new = codes "NEW"
pcode_opcode_name insert = codes "INSERT"
pcode_opcode_name extract = codes "EXTRACT"
pcode_opcode_name popcount = codes "POPCOUNT"
pcode_opcode_name lzcount = codes "LZCOUNT"
pcode_opcode_name unsupported = codes "UNSUPPORTED"

-- `convertOpcode`; the default of the switch is `Unsupported`.
unfoldable pub convert_opcode : GhidraOpcode → PcodeOpcode
convert_opcode cpui_copy = copy
convert_opcode cpui_load = load
convert_opcode cpui_store = store
convert_opcode cpui_call = call
convert_opcode cpui_callind = call_ind
convert_opcode cpui_callother = call_other
convert_opcode cpui_branch = branch
convert_opcode cpui_branchind = branch_ind
convert_opcode cpui_cbranch = c_branch
convert_opcode cpui_return = return
convert_opcode cpui_int_equal = int_equal
convert_opcode cpui_int_notequal = int_not_equal
convert_opcode cpui_int_sless = int_s_less
convert_opcode cpui_int_slessequal = int_s_less_equal
convert_opcode cpui_int_less = int_less
convert_opcode cpui_int_lessequal = int_less_equal
convert_opcode cpui_int_zext = int_z_ext
convert_opcode cpui_int_sext = int_s_ext
convert_opcode cpui_int_add = int_add
convert_opcode cpui_int_carry = int_carry
convert_opcode cpui_int_scarry = int_s_carry
convert_opcode cpui_int_sub = int_sub
convert_opcode cpui_int_sborrow = int_s_borrow
convert_opcode cpui_int_2comp = int2_comp
convert_opcode cpui_int_negate = int_negate
convert_opcode cpui_int_xor = int_xor
convert_opcode cpui_int_and = int_and
convert_opcode cpui_int_or = int_or
convert_opcode cpui_int_left = int_left
convert_opcode cpui_int_right = int_right
convert_opcode cpui_int_sright = int_s_right
convert_opcode cpui_int_mult = int_mult
convert_opcode cpui_int_div = int_div
convert_opcode cpui_int_sdiv = int_s_div
convert_opcode cpui_int_rem = int_rem
convert_opcode cpui_int_srem = int_s_rem
convert_opcode cpui_bool_negate = bool_negate
convert_opcode cpui_bool_and = bool_and
convert_opcode cpui_bool_or = bool_or
convert_opcode cpui_bool_xor = bool_xor
convert_opcode cpui_float_equal = float_equal
convert_opcode cpui_float_notequal = float_not_equal
convert_opcode cpui_float_less = float_less
convert_opcode cpui_float_lessequal = float_less_equal
convert_opcode cpui_float_nan = float_nan
convert_opcode cpui_float_add = float_add
convert_opcode cpui_float_div = float_div
convert_opcode cpui_float_mult = float_mult
convert_opcode cpui_float_sub = float_sub
convert_opcode cpui_float_neg = float_neg
convert_opcode cpui_float_abs = float_abs
convert_opcode cpui_float_sqrt = float_sqrt
convert_opcode cpui_float_int2float = float_int2_float
convert_opcode cpui_float_float2float = float_float2_float
convert_opcode cpui_float_trunc = float_trunc
convert_opcode cpui_float_ceil = float_ceil
convert_opcode cpui_float_floor = float_floor
convert_opcode cpui_float_round = float_round
convert_opcode cpui_multiequal = multiequal
convert_opcode cpui_indirect = indirect
convert_opcode cpui_piece = piece
convert_opcode cpui_subpiece = subpiece
convert_opcode cpui_cast = cast
convert_opcode cpui_ptradd = ptr_add
convert_opcode cpui_ptrsub = ptr_sub
convert_opcode cpui_segmentop = segment_op
convert_opcode cpui_cpoolref = cpool_ref
convert_opcode cpui_new = new
convert_opcode cpui_insert = insert
convert_opcode cpui_extract = extract
convert_opcode cpui_popcount = popcount
convert_opcode cpui_lzcount = lzcount
convert_opcode (other_code n) = unsupported
