-- ===== src/Pcode/Conversion.antt =====
-- `convertOpcode` takes distinct opcodes of Ghidra to distinct opcodes and reaches them all.
use not_dec_bin2llvm.Common.{◌≡◌, ◌≢◌, ◌⊎◌, inl, inr, refl, sym, ◌∙◌, ap}
use not_dec_bin2llvm.Pcode.{
  GhidraOpcode, cpui_copy, cpui_load, cpui_store, cpui_call, cpui_callind, cpui_callother,
  cpui_branch, cpui_branchind, cpui_cbranch, cpui_return, cpui_int_equal, cpui_int_notequal,
  cpui_int_sless, cpui_int_slessequal, cpui_int_less, cpui_int_lessequal, cpui_int_zext,
  cpui_int_sext, cpui_int_add, cpui_int_carry, cpui_int_scarry, cpui_int_sub, cpui_int_sborrow,
  cpui_int_2comp, cpui_int_negate, cpui_int_xor, cpui_int_and, cpui_int_or, cpui_int_left,
  cpui_int_right, cpui_int_sright, cpui_int_mult, cpui_int_div, cpui_int_sdiv, cpui_int_rem,
  cpui_int_srem, cpui_bool_negate, cpui_bool_and, cpui_bool_or, cpui_bool_xor, cpui_float_equal,
  cpui_float_notequal, cpui_float_less, cpui_float_lessequal, cpui_float_nan, cpui_float_add,
  cpui_float_div, cpui_float_mult, cpui_float_sub, cpui_float_neg, cpui_float_abs, cpui_float_sqrt,
  cpui_float_int2float, cpui_float_float2float, cpui_float_trunc, cpui_float_ceil, cpui_float_floor,
  cpui_float_round, cpui_multiequal, cpui_indirect, cpui_piece, cpui_subpiece, cpui_cast,
  cpui_ptradd, cpui_ptrsub, cpui_segmentop, cpui_cpoolref, cpui_new, cpui_insert, cpui_extract,
  cpui_popcount, cpui_lzcount, other_code, PcodeOpcode, copy, load, store, call, call_ind,
  call_other, branch, branch_ind, c_branch, return, int_equal, int_not_equal, int_s_less,
  int_s_less_equal, int_less, int_less_equal, int_z_ext, int_s_ext, int_add, int_carry, int_s_carry,
  int_sub, int_s_borrow, int2_comp, int_negate, int_xor, int_and, int_or, int_left, int_right,
  int_s_right, int_mult, int_div, int_s_div, int_rem, int_s_rem, bool_negate, bool_and, bool_or,
  bool_xor, float_equal, float_not_equal, float_less, float_less_equal, float_nan, float_add,
  float_div, float_mult, float_sub, float_neg, float_abs, float_sqrt, float_int2_float,
  float_float2_float, float_trunc, float_ceil, float_floor, float_round, multiequal, indirect,
  piece, subpiece, cast, ptr_add, ptr_sub, segment_op, cpool_ref, new, insert, extract, popcount,
  lzcount, unsupported, convert_opcode,
}

source_code : PcodeOpcode → GhidraOpcode
source_code copy = cpui_copy
source_code load = cpui_load
source_code store = cpui_store
source_code call = cpui_call
source_code call_ind = cpui_callind
source_code call_other = cpui_callother
source_code branch = cpui_branch
source_code branch_ind = cpui_branchind
source_code c_branch = cpui_cbranch
source_code return = cpui_return
source_code int_equal = cpui_int_equal
source_code int_not_equal = cpui_int_notequal
source_code int_s_less = cpui_int_sless
source_code int_s_less_equal = cpui_int_slessequal
source_code int_less = cpui_int_less
source_code int_less_equal = cpui_int_lessequal
source_code int_z_ext = cpui_int_zext
source_code int_s_ext = cpui_int_sext
source_code int_add = cpui_int_add
source_code int_carry = cpui_int_carry
source_code int_s_carry = cpui_int_scarry
source_code int_sub = cpui_int_sub
source_code int_s_borrow = cpui_int_sborrow
source_code int2_comp = cpui_int_2comp
source_code int_negate = cpui_int_negate
source_code int_xor = cpui_int_xor
source_code int_and = cpui_int_and
source_code int_or = cpui_int_or
source_code int_left = cpui_int_left
source_code int_right = cpui_int_right
source_code int_s_right = cpui_int_sright
source_code int_mult = cpui_int_mult
source_code int_div = cpui_int_div
source_code int_s_div = cpui_int_sdiv
source_code int_rem = cpui_int_rem
source_code int_s_rem = cpui_int_srem
source_code bool_negate = cpui_bool_negate
source_code bool_and = cpui_bool_and
source_code bool_or = cpui_bool_or
source_code bool_xor = cpui_bool_xor
source_code float_equal = cpui_float_equal
source_code float_not_equal = cpui_float_notequal
source_code float_less = cpui_float_less
source_code float_less_equal = cpui_float_lessequal
source_code float_nan = cpui_float_nan
source_code float_add = cpui_float_add
source_code float_div = cpui_float_div
source_code float_mult = cpui_float_mult
source_code float_sub = cpui_float_sub
source_code float_neg = cpui_float_neg
source_code float_abs = cpui_float_abs
source_code float_sqrt = cpui_float_sqrt
source_code float_int2_float = cpui_float_int2float
source_code float_float2_float = cpui_float_float2float
source_code float_trunc = cpui_float_trunc
source_code float_ceil = cpui_float_ceil
source_code float_floor = cpui_float_floor
source_code float_round = cpui_float_round
source_code multiequal = cpui_multiequal
source_code indirect = cpui_indirect
source_code piece = cpui_piece
source_code subpiece = cpui_subpiece
source_code cast = cpui_cast
source_code ptr_add = cpui_ptradd
source_code ptr_sub = cpui_ptrsub
source_code segment_op = cpui_segmentop
source_code cpool_ref = cpui_cpoolref
source_code new = cpui_new
source_code insert = cpui_insert
source_code extract = cpui_extract
source_code popcount = cpui_popcount
source_code lzcount = cpui_lzcount
source_code unsupported = other_code 0

source_code-convert :
    (code : GhidraOpcode)
    → (convert_opcode code ≡ unsupported) ⊎ (source_code (convert_opcode code) ≡ code)
unfolding source_code convert_opcode
source_code-convert cpui_copy = inr refl
source_code-convert cpui_load = inr refl
source_code-convert cpui_store = inr refl
source_code-convert cpui_call = inr refl
source_code-convert cpui_callind = inr refl
source_code-convert cpui_callother = inr refl
source_code-convert cpui_branch = inr refl
source_code-convert cpui_branchind = inr refl
source_code-convert cpui_cbranch = inr refl
source_code-convert cpui_return = inr refl
source_code-convert cpui_int_equal = inr refl
source_code-convert cpui_int_notequal = inr refl
source_code-convert cpui_int_sless = inr refl
source_code-convert cpui_int_slessequal = inr refl
source_code-convert cpui_int_less = inr refl
source_code-convert cpui_int_lessequal = inr refl
source_code-convert cpui_int_zext = inr refl
source_code-convert cpui_int_sext = inr refl
source_code-convert cpui_int_add = inr refl
source_code-convert cpui_int_carry = inr refl
source_code-convert cpui_int_scarry = inr refl
source_code-convert cpui_int_sub = inr refl
source_code-convert cpui_int_sborrow = inr refl
source_code-convert cpui_int_2comp = inr refl
source_code-convert cpui_int_negate = inr refl
source_code-convert cpui_int_xor = inr refl
source_code-convert cpui_int_and = inr refl
source_code-convert cpui_int_or = inr refl
source_code-convert cpui_int_left = inr refl
source_code-convert cpui_int_right = inr refl
source_code-convert cpui_int_sright = inr refl
source_code-convert cpui_int_mult = inr refl
source_code-convert cpui_int_div = inr refl
source_code-convert cpui_int_sdiv = inr refl
source_code-convert cpui_int_rem = inr refl
source_code-convert cpui_int_srem = inr refl
source_code-convert cpui_bool_negate = inr refl
source_code-convert cpui_bool_and = inr refl
source_code-convert cpui_bool_or = inr refl
source_code-convert cpui_bool_xor = inr refl
source_code-convert cpui_float_equal = inr refl
source_code-convert cpui_float_notequal = inr refl
source_code-convert cpui_float_less = inr refl
source_code-convert cpui_float_lessequal = inr refl
source_code-convert cpui_float_nan = inr refl
source_code-convert cpui_float_add = inr refl
source_code-convert cpui_float_div = inr refl
source_code-convert cpui_float_mult = inr refl
source_code-convert cpui_float_sub = inr refl
source_code-convert cpui_float_neg = inr refl
source_code-convert cpui_float_abs = inr refl
source_code-convert cpui_float_sqrt = inr refl
source_code-convert cpui_float_int2float = inr refl
source_code-convert cpui_float_float2float = inr refl
source_code-convert cpui_float_trunc = inr refl
source_code-convert cpui_float_ceil = inr refl
source_code-convert cpui_float_floor = inr refl
source_code-convert cpui_float_round = inr refl
source_code-convert cpui_multiequal = inr refl
source_code-convert cpui_indirect = inr refl
source_code-convert cpui_piece = inr refl
source_code-convert cpui_subpiece = inr refl
source_code-convert cpui_cast = inr refl
source_code-convert cpui_ptradd = inr refl
source_code-convert cpui_ptrsub = inr refl
source_code-convert cpui_segmentop = inr refl
source_code-convert cpui_cpoolref = inr refl
source_code-convert cpui_new = inr refl
source_code-convert cpui_insert = inr refl
source_code-convert cpui_extract = inr refl
source_code-convert cpui_popcount = inr refl
source_code-convert cpui_lzcount = inr refl
source_code-convert (other_code n) = inl refl

convert-source_code : (opcode : PcodeOpcode) → convert_opcode (source_code opcode) ≡ opcode
unfolding source_code convert_opcode
convert-source_code copy = refl
convert-source_code load = refl
convert-source_code store = refl
convert-source_code call = refl
convert-source_code call_ind = refl
convert-source_code call_other = refl
convert-source_code branch = refl
convert-source_code branch_ind = refl
convert-source_code c_branch = refl
convert-source_code return = refl
convert-source_code int_equal = refl
convert-source_code int_not_equal = refl
convert-source_code int_s_less = refl
convert-source_code int_s_less_equal = refl
convert-source_code int_less = refl
convert-source_code int_less_equal = refl
convert-source_code int_z_ext = refl
convert-source_code int_s_ext = refl
convert-source_code int_add = refl
convert-source_code int_carry = refl
convert-source_code int_s_carry = refl
convert-source_code int_sub = refl
convert-source_code int_s_borrow = refl
convert-source_code int2_comp = refl
convert-source_code int_negate = refl
convert-source_code int_xor = refl
convert-source_code int_and = refl
convert-source_code int_or = refl
convert-source_code int_left = refl
convert-source_code int_right = refl
convert-source_code int_s_right = refl
convert-source_code int_mult = refl
convert-source_code int_div = refl
convert-source_code int_s_div = refl
convert-source_code int_rem = refl
convert-source_code int_s_rem = refl
convert-source_code bool_negate = refl
convert-source_code bool_and = refl
convert-source_code bool_or = refl
convert-source_code bool_xor = refl
convert-source_code float_equal = refl
convert-source_code float_not_equal = refl
convert-source_code float_less = refl
convert-source_code float_less_equal = refl
convert-source_code float_nan = refl
convert-source_code float_add = refl
convert-source_code float_div = refl
convert-source_code float_mult = refl
convert-source_code float_sub = refl
convert-source_code float_neg = refl
convert-source_code float_abs = refl
convert-source_code float_sqrt = refl
convert-source_code float_int2_float = refl
convert-source_code float_float2_float = refl
convert-source_code float_trunc = refl
convert-source_code float_ceil = refl
convert-source_code float_floor = refl
convert-source_code float_round = refl
convert-source_code multiequal = refl
convert-source_code indirect = refl
convert-source_code piece = refl
convert-source_code subpiece = refl
convert-source_code cast = refl
convert-source_code ptr_add = refl
convert-source_code ptr_sub = refl
convert-source_code segment_op = refl
convert-source_code cpool_ref = refl
convert-source_code new = refl
convert-source_code insert = refl
convert-source_code extract = refl
convert-source_code popcount = refl
convert-source_code lzcount = refl
convert-source_code unsupported = refl

-- Two opcodes of Ghidra that convert to the same opcode other than `Unsupported` are the same,
-- and every opcode is the conversion of one of Ghidra's.
pub convert_opcode_injective :
    (a b : GhidraOpcode) (opcode : PcodeOpcode)
    → convert_opcode a ≢ unsupported
    → convert_opcode a ≡ convert_opcode b
    → (a ≡ b) × ((code : GhidraOpcode) × (convert_opcode code ≡ opcode))
convert_opcode_injective a b opcode supported same = (
  elim (source_code-convert a) [
    | inl none_a ↦ absurd (supported none_a)
    | inr back_a ↦ elim (source_code-convert b) [
      | inl none_b ↦ absurd (supported (same ∙ none_b))
      | inr back_b ↦ sym back_a ∙ ap source_code same ∙ back_b
    ]
  ],
  (source_code opcode, convert-source_code opcode),
)
