-- ===== src/Pcode/Opcodes.antt =====
-- The names of the opcodes tell them apart.
use not_dec_bin2llvm.Common.{List, [], ◌∷◌, if◌then◌else◌, Text, text_beq, ◌≡◌, refl, sym, ◌∙◌, ap}
use not_dec_bin2llvm.Pcode.{
  PcodeOpcode, copy, load, store, call, call_ind, call_other, branch, branch_ind, c_branch, return,
  int_equal, int_not_equal, int_s_less, int_s_less_equal, int_less, int_less_equal, int_z_ext,
  int_s_ext, int_add, int_carry, int_s_carry, int_sub, int_s_borrow, int2_comp, int_negate, int_xor,
  int_and, int_or, int_left, int_right, int_s_right, int_mult, int_div, int_s_div, int_rem,
  int_s_rem, bool_negate, bool_and, bool_or, bool_xor, float_equal, float_not_equal, float_less,
  float_less_equal, float_nan, float_add, float_div, float_mult, float_sub, float_neg, float_abs,
  float_sqrt, float_int2_float, float_float2_float, float_trunc, float_ceil, float_floor,
  float_round, multiequal, indirect, piece, subpiece, cast, ptr_add, ptr_sub, segment_op, cpool_ref,
  new, insert, extract, popcount, lzcount, unsupported, pcode_opcode_name,
}

abbrev all_opcodes : List PcodeOpcode
all_opcodes =
    copy ∷ load ∷ store ∷ call ∷ call_ind ∷ call_other ∷ branch ∷ branch_ind ∷ c_branch ∷ return
    ∷ int_equal ∷ int_not_equal ∷ int_s_less ∷ int_s_less_equal ∷ int_less ∷ int_less_equal
    ∷ int_z_ext ∷ int_s_ext ∷ int_add ∷ int_carry ∷ int_s_carry ∷ int_sub ∷ int_s_borrow ∷ int2_comp
    ∷ int_negate ∷ int_xor ∷ int_and ∷ int_or ∷ int_left ∷ int_right ∷ int_s_right ∷ int_mult
    ∷ int_div ∷ int_s_div ∷ int_rem ∷ int_s_rem ∷ bool_negate ∷ bool_and ∷ bool_or ∷ bool_xor
    ∷ float_equal ∷ float_not_equal ∷ float_less ∷ float_less_equal ∷ float_nan ∷ float_add
    ∷ float_div ∷ float_mult ∷ float_sub ∷ float_neg ∷ float_abs ∷ float_sqrt ∷ float_int2_float
    ∷ float_float2_float ∷ float_trunc ∷ float_ceil ∷ float_floor ∷ float_round ∷ multiequal
    ∷ indirect ∷ piece ∷ subpiece ∷ cast ∷ ptr_add ∷ ptr_sub ∷ segment_op ∷ cpool_ref ∷ new ∷ insert
    ∷ extract ∷ popcount ∷ lzcount ∷ unsupported ∷ []

-- The first opcode of the list with the name.
opcode_named : List PcodeOpcode → Text → PcodeOpcode
opcode_named [] name = unsupported
opcode_named (opcode ∷ opcodes) name =
    if text_beq (pcode_opcode_name opcode) name then opcode else opcode_named opcodes name

opcode_named-name :
    (opcode : PcodeOpcode) → opcode_named all_opcodes (pcode_opcode_name opcode) ≡ opcode
unfolding opcode_named pcode_opcode_name text_beq
opcode_named-name copy = refl
opcode_named-name load = refl
opcode_named-name store = refl
opcode_named-name call = refl
opcode_named-name call_ind = refl
opcode_named-name call_other = refl
opcode_named-name branch = refl
opcode_named-name branch_ind = refl
opcode_named-name c_branch = refl
opcode_named-name return = refl
opcode_named-name int_equal = refl
opcode_named-name int_not_equal = refl
opcode_named-name int_s_less = refl
opcode_named-name int_s_less_equal = refl
opcode_named-name int_less = refl
opcode_named-name int_less_equal = refl
opcode_named-name int_z_ext = refl
opcode_named-name int_s_ext = refl
opcode_named-name int_add = refl
opcode_named-name int_carry = refl
opcode_named-name int_s_carry = refl
opcode_named-name int_sub = refl
opcode_named-name int_s_borrow = refl
opcode_named-name int2_comp = refl
opcode_named-name int_negate = refl
opcode_named-name int_xor = refl
opcode_named-name int_and = refl
opcode_named-name int_or = refl
opcode_named-name int_left = refl
opcode_named-name int_right = refl
opcode_named-name int_s_right = refl
opcode_named-name int_mult = refl
opcode_named-name int_div = refl
opcode_named-name int_s_div = refl
opcode_named-name int_rem = refl
opcode_named-name int_s_rem = refl
opcode_named-name bool_negate = refl
opcode_named-name bool_and = refl
opcode_named-name bool_or = refl
opcode_named-name bool_xor = refl
opcode_named-name float_equal = refl
opcode_named-name float_not_equal = refl
opcode_named-name float_less = refl
opcode_named-name float_less_equal = refl
opcode_named-name float_nan = refl
opcode_named-name float_add = refl
opcode_named-name float_div = refl
opcode_named-name float_mult = refl
opcode_named-name float_sub = refl
opcode_named-name float_neg = refl
opcode_named-name float_abs = refl
opcode_named-name float_sqrt = refl
opcode_named-name float_int2_float = refl
opcode_named-name float_float2_float = refl
opcode_named-name float_trunc = refl
opcode_named-name float_ceil = refl
opcode_named-name float_floor = refl
opcode_named-name float_round = refl
opcode_named-name multiequal = refl
opcode_named-name indirect = refl
opcode_named-name piece = refl
opcode_named-name subpiece = refl
opcode_named-name cast = refl
opcode_named-name ptr_add = refl
opcode_named-name ptr_sub = refl
opcode_named-name segment_op = refl
opcode_named-name cpool_ref = refl
opcode_named-name new = refl
opcode_named-name insert = refl
opcode_named-name extract = refl
opcode_named-name popcount = refl
opcode_named-name lzcount = refl
opcode_named-name unsupported = refl

-- Two opcodes with the same name are the same.
pub pcode_opcode_name_injective :
    (a b : PcodeOpcode) → pcode_opcode_name a ≡ pcode_opcode_name b → a ≡ b
pcode_opcode_name_injective a b same =
    sym (opcode_named-name a) ∙ ap (opcode_named all_opcodes) same ∙ opcode_named-name b
