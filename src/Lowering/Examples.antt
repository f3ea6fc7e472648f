-- ===== src/Lowering/Examples.antt =====
-- Tests of the lowering on a block of four operations, and the witnesses.
use not_dec_bin2llvm.Common.{ℕ, List, [], ◌∷◌, none, some, false, codes, ◌≡◌, refl, arith, Text}
use not_dec_bin2llvm.Pcode.{PcodeOpcode}
use not_dec_bin2llvm.Pcode
use not_dec_bin2llvm.Lowering.{
  VarnodeView, PcodeOpView, LoweringState, Context, varnode_key, read_varnode, write_varnode,
  int_const, zext, loaded, pointer_load,
}
use not_dec_bin2llvm.Lowering.Operations.{done, failed}
use not_dec_bin2llvm.Lowering.Dispatch.{OtherOps, handler, lower_op, lower_ops}
use not_dec_bin2llvm.Lowering.Semantics.{Env}
use not_dec_bin2llvm.Lowering.Typing.{StateIsTyped}
use not_dec_bin2llvm.Lowering.Typing.Handlers.{WidthsAreOk, extends_inputs}
use not_dec_bin2llvm.Registers.{bit_width}
use not_dec_bin2llvm.Lowering.Typing.Blocks.{lower_ops-StateIsTyped}
use not_dec_bin2llvm.Lowering.Forms.{form, has_form, is_done, is_other}
use not_dec_bin2llvm.Lowering.Rejections.{lower_op-has_form}

abbrev unique : ℕ → ℕ → VarnodeView
unique offset size = record {
  space = codes "unique";
  offset = offset;
  size = size;
  is_register = false;
  register_name = none;
}

abbrev const : ℕ → ℕ → VarnodeView
const n size = record {
  space = codes "const";
  offset = n;
  size = size;
  is_register = false;
  register_name = none;
}

abbrev operation : PcodeOpcode → VarnodeView → List VarnodeView → PcodeOpView
operation opcode output inputs = record {
  address = 0x1000;
  instruction_size = 4;
  mnemonic = [];
  body = [];
  opcode = opcode;
  opcode_name = [];
  output = some output;
  inputs = inputs;
}

-- u0 = 0xffffffff + 3; u1 = zext u0; u2 = u1 * 0x100; u3 = byte 1 of u2.
abbrev block : List PcodeOpView
block =
    operation Pcode.int_add (unique 0 4) (const 0xffffffff 4 ∷ const 3 4 ∷ [])
    ∷ operation Pcode.int_z_ext (unique 8 8) (unique 0 4 ∷ [])
    ∷ operation Pcode.int_mult (unique 16 8) (unique 8 8 ∷ const 0x100 8 ∷ [])
    ∷ operation Pcode.subpiece (unique 24 1) (unique 16 8 ∷ const 1 4 ∷ [])
    ∷ []

abbrev empty_state : LoweringState
empty_state = record { values = []; source_ram = []; actions = [] }

abbrev context : Context
context = record { pointer_byte_size = 8; registers = none; code_address_targets = λ _. none }

abbrev no_others : OtherOps
no_others = record { lower_call = λ c s op. failed []; lower_float = λ c s op. failed [] }

abbrev environment : Env
environment = record { result = λ n. none; address_of = λ name. 0 }

abbrev results : List (Text × ℕ)
results =
    (varnode_key (unique 24 1), 2)
    ∷ (varnode_key (unique 16 8), 0x200)
    ∷ (varnode_key (unique 8 8), 2)
    ∷ (varnode_key (unique 0 4), 2)
    ∷ []

-- SUBPIECE with an offset that is not constant.
abbrev bad_subpiece : PcodeOpView
bad_subpiece = operation Pcode.subpiece (unique 24 1) (unique 16 8 ∷ unique 0 4 ∷ [])

lower_op-has_form_example :
    is_done (lower_op no_others context empty_state bad_subpiece)
    ≡ has_form (form Pcode.subpiece) bad_subpiece
unfolding is_other handler
lower_op-has_form_example = lower_op-has_form no_others context empty_state bad_subpiece refl

bad_subpiece_shape : has_form (form Pcode.subpiece) bad_subpiece ≡ false
unfolding has_form form
bad_subpiece_shape = refl

abbrev load_word : PcodeOpView
load_word = operation Pcode.load (unique 0 4) (const 0 8 ∷ const 0x2000 8 ∷ [])

abbrev extend_word : PcodeOpView
extend_word = operation Pcode.int_z_ext (unique 8 8) (unique 0 4 ∷ [])

abbrev loaded_state : LoweringState
loaded_state = record {
  values =
      (varnode_key (unique 8 8), zext (loaded 0 32) 64)
      ∷ (varnode_key (unique 0 4), loaded 0 32)
      ∷ [];
  source_ram = [];
  actions = pointer_load 4 (int_const 64 0x2000) ∷ [];
}

loading_result :
    lower_ops no_others context empty_state (load_word ∷ extend_word ∷ []) ≡ done loaded_state
unfolding lower_ops write_varnode read_varnode
loading_result = refl

load_widths : WidthsAreOk load_word
unfolding extends_inputs
load_widths extends output same = cc

extend_widths : WidthsAreOk extend_word
unfolding bit_width
extend_widths extends output same = (ground (arith, same), tt)

lower_ops-StateIsTyped_example : StateIsTyped loaded_state
unfolding is_other handler
lower_ops-StateIsTyped_example =
    lower_ops-StateIsTyped no_others context (load_word ∷ extend_word ∷ []) empty_state loaded_state
      (refl, (refl, tt)) (load_widths, (extend_widths, tt))
      (record { values_typed = tt; actions_typed = tt }) loading_result
