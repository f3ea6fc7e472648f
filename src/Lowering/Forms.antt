-- ===== src/Lowering/Forms.antt =====
-- The operands that each p-code operation takes, and the checks of `lowerOp` for them.
use not_dec_bin2llvm.Common.{
  List, [], ◌∷◌, Option, none, some, Bool, true, false, not, ◌&&◌, ◌||◌, ◌≡◌, refl, arith,
}
use not_dec_bin2llvm.Pcode.{PcodeOpcode}
use not_dec_bin2llvm.Pcode
use not_dec_bin2llvm.Lowering.{VarnodeView, PcodeOpView, LoweringState}
use not_dec_bin2llvm.Lowering.Operations.{Outcome, done, failed, is_const, with_one, with_two}
use not_dec_bin2llvm.Lowering.Flags.{with_three}
use not_dec_bin2llvm.Lowering.Dispatch.{Handler}

unfoldable pub is_done : Outcome LoweringState → Bool
is_done (done s) = true
is_done (failed message) = false

-- The operands that an operation takes; a bit tells that the input is a constant.
pub data Form : Type 0 where
  anything refused : Form
  inputs_only with_output : List Bool → Form

-- The table of p-code, with `anything` for the helpers.
unfoldable pub form : PcodeOpcode → Form
form Pcode.copy = with_output (false ∷ [])
form Pcode.load = with_output (true ∷ false ∷ [])
form Pcode.store = inputs_only (true ∷ false ∷ false ∷ [])
form Pcode.branch = refused
form Pcode.branch_ind = refused
form Pcode.c_branch = refused
form Pcode.return = refused
form Pcode.multiequal = refused
form Pcode.unsupported = refused
form Pcode.int_z_ext = with_output (false ∷ [])
form Pcode.int_s_ext = with_output (false ∷ [])
form Pcode.int_negate = with_output (false ∷ [])
form Pcode.int2_comp = with_output (false ∷ [])
form Pcode.bool_negate = with_output (false ∷ [])
form Pcode.indirect = with_output (false ∷ [])
form Pcode.cast = with_output (false ∷ [])
form Pcode.popcount = with_output (false ∷ [])
form Pcode.lzcount = with_output (false ∷ [])
form Pcode.subpiece = with_output (false ∷ true ∷ [])
form Pcode.ptr_sub = with_output (false ∷ true ∷ [])
form Pcode.ptr_add = with_output (false ∷ false ∷ true ∷ [])
form Pcode.segment_op = anything
form Pcode.cpool_ref = anything
form Pcode.new = anything
form Pcode.insert = anything
form Pcode.extract = anything
form _ = with_output (false ∷ false ∷ [])

unfoldable pub matches : List Bool → List VarnodeView → Bool
unfolding is_const
matches [] [] = true
matches (constant ∷ rest) (v ∷ vs) = (not constant || is_const v) && matches rest vs
matches _ _ = false

unfoldable pub has_output : PcodeOpView → Bool
has_output op = elim op.output [ none ↦ false | some output ↦ true ]

-- The operands have this form.
unfoldable pub has_form : Form → PcodeOpView → Bool
unfolding matches has_output
has_form anything op = true
has_form refused op = false
has_form (inputs_only kinds) op = matches kinds op.inputs
has_form (with_output kinds) op = has_output op && matches kinds op.inputs

-- Calls and floating point, which the model has as arguments.
unfoldable pub is_other : Handler → Bool
is_other Handler.a_call = true
is_other Handler.a_float = true
is_other _ = false

-- The three checks, by what follows them.
module _ (op : PcodeOpView) where
  pub one_checked :
      (f : VarnodeView → VarnodeView → Outcome LoweringState)
      → ((output a : VarnodeView) → is_done (f output a) ≡ true)
      → (o : Option VarnodeView) (inputs : List VarnodeView) → op.output ≡ o
      → op.inputs ≡ inputs
      → is_done (with_one op f) ≡ has_form (with_output (false ∷ [])) op
  unfolding with_one has_form has_output is_done matches
  one_checked f ok none inputs no_output is = rw (no_output, with_one) refl
  one_checked f ok (some output) [] found is = rw (found, is, with_one) refl
  one_checked f ok (some output) (a ∷ []) found is = rw (found, is, with_one) (ok output a)
  one_checked f ok (some output) (a ∷ b ∷ rest) found is = rw (found, is, with_one) refl

  pub two_checked :
      (f : VarnodeView → VarnodeView → VarnodeView → Outcome LoweringState) (k l : Bool)
      → ((output a b : VarnodeView) → is_done (f output a b) ≡ matches (k ∷ l ∷ []) (a ∷ b ∷ []))
      → (o : Option VarnodeView) (inputs : List VarnodeView) → op.output ≡ o
      → op.inputs ≡ inputs
      → is_done (with_two op f) ≡ has_form (with_output (k ∷ l ∷ [])) op
  unfolding with_two has_form has_output is_done matches
  two_checked f k l ok none inputs no_output is = rw (no_output, with_two) refl
  two_checked f k l ok (some output) [] found is = rw (found, is, with_two) refl
  two_checked f k l ok (some output) (a ∷ []) found is = rw (found, is, with_two) (ground arith)
  two_checked f k l ok (some output) (a ∷ b ∷ []) found is =
      rw (found, is, with_two) (ok output a b)
  two_checked f k l ok (some output) (a ∷ b ∷ d ∷ rest) found is =
      rw (found, is, with_two) (ground arith)

  pub three_checked :
      (f : VarnodeView → VarnodeView → VarnodeView → VarnodeView → Outcome LoweringState)
      → ((output a b d : VarnodeView) → is_done (f output a b d) ≡ is_const d)
      → (o : Option VarnodeView) (inputs : List VarnodeView) → op.output ≡ o
      → op.inputs ≡ inputs
      → is_done (with_three op f) ≡ has_form (with_output (false ∷ false ∷ true ∷ [])) op
  unfolding with_three has_form has_output is_done matches
  three_checked f ok none inputs no_output is = rw (no_output, with_three) refl
  three_checked f ok (some output) [] found is = rw (found, is, with_three) refl
  three_checked f ok (some output) (a ∷ []) found is = rw (found, is, with_three) refl
  three_checked f ok (some output) (a ∷ b ∷ []) found is = rw (found, is, with_three) refl
  three_checked f ok (some output) (a ∷ b ∷ d ∷ []) found is =
      rw (found, is, with_three, ok output a b d) (ground arith)
  three_checked f ok (some output) (a ∷ b ∷ d ∷ x ∷ rest) found is =
      rw (found, is, with_three) (ground arith)
