-- ===== src/Lowering/Typing/Steps.antt =====
-- `lowerOp` builds well-typed values.
use not_dec_bin2llvm.Common.{
  ℕ, List, [], ◌∷◌, Option, none, some, true, ◌==◌, ◌≤◌, ◌≡◌, refl, arith, Text, Bool-cases, inl,
  inr, ◌⊎◌, ==_iff, subst,
}
use not_dec_bin2llvm.Pcode.{PcodeOpcode}
use not_dec_bin2llvm.Pcode
use not_dec_bin2llvm.Registers.{bit_width}
use not_dec_bin2llvm.Lowering.{
  Value, BinaryOp, Predicate, Overflow, VarnodeView, PcodeOpView, LoweringState, width, resize,
  constant,
}
use not_dec_bin2llvm.Lowering.Operations.{
  Outcome, done, failed, with_one, with_two, create_zext, create_sext, create_not, create_neg,
  cast_value, unary_value, piece_value, count_value, subpiece_value, binary_value, compare_value,
}
use not_dec_bin2llvm.Lowering.Flags.{
  with_three, as_condition, bool_value, overflow_value, ptr_add_value, ptr_sub_value,
}
use not_dec_bin2llvm.Lowering.Typing.{is_typed, StateIsTyped, width-resize, resize_typed}

-- If the operation succeeds, the new state is typed.
pub data Keeps : Outcome LoweringState → Type 0 where
  kept : {t : LoweringState} → StateIsTyped t → Keeps (done t)
  rejected : {message : Text} → Keeps (failed message)

pub Outcome-cases :
    (o : Outcome LoweringState)
    → ((t : LoweringState) × (o ≡ done t)) ⊎ ((message : Text) × (o ≡ failed message))
Outcome-cases (done t) = inl (t, refl)
Outcome-cases (failed message) = inr (message, refl)

pub Keeps-done :
    {o : Outcome LoweringState} {t : LoweringState} → Keeps o → o ≡ done t → StateIsTyped t
Keeps-done {t = t'} (kept {t = t} ok) same =
    let eq : t ≡ t' = ground (arith, same) in subst StateIsTyped eq ok
Keeps-done rejected same = cc

module _ (op : PcodeOpView) where
  pub one-Keeps :
      (f : VarnodeView → VarnodeView → Outcome LoweringState)
      → ((output a : VarnodeView)
          → op.output ≡ some output
          → op.inputs ≡ a ∷ []
          → Keeps (f output a))
      → (o : Option VarnodeView) (inputs : List VarnodeView) → op.output ≡ o
      → op.inputs ≡ inputs
      → Keeps (with_one op f)
  unfolding with_one
  one-Keeps f ok none inputs no_output is = rw (no_output, with_one) rejected
  one-Keeps f ok (some output) (a ∷ []) found is = rw (found, is, with_one) (ok output a found is)
  one-Keeps f ok (some output) [] found is = rw (found, is, with_one) rejected
  one-Keeps f ok (some output) (a ∷ b ∷ rest) found is = rw (found, is, with_one) rejected

  pub two-Keeps :
      (f : VarnodeView → VarnodeView → VarnodeView → Outcome LoweringState)
      → ((output a b : VarnodeView)
          → op.output ≡ some output
          → op.inputs ≡ a ∷ b ∷ []
          → Keeps (f output a b))
      → (o : Option VarnodeView) (inputs : List VarnodeView) → op.output ≡ o
      → op.inputs ≡ inputs
      → Keeps (with_two op f)
  unfolding with_two
  two-Keeps f ok none inputs no_output is = rw (no_output, with_two) rejected
  two-Keeps f ok (some output) (a ∷ b ∷ []) found is =
      rw (found, is, with_two) (ok output a b found is)
  two-Keeps f ok (some output) [] found is = rw (found, is, with_two) rejected
  two-Keeps f ok (some output) (a ∷ []) found is = rw (found, is, with_two) rejected
  two-Keeps f ok (some output) (a ∷ b ∷ d ∷ rest) found is = rw (found, is, with_two) rejected

  pub three-Keeps :
      (f : VarnodeView → VarnodeView → VarnodeView → VarnodeView → Outcome LoweringState)
      → ((output a b d : VarnodeView) → Keeps (f output a b d))
      → (o : Option VarnodeView) (inputs : List VarnodeView) → op.output ≡ o
      → op.inputs ≡ inputs
      → Keeps (with_three op f)
  unfolding with_three
  three-Keeps f ok none inputs no_output is = rw (no_output, with_three) rejected
  three-Keeps f ok (some output) (a ∷ b ∷ d ∷ []) found is =
      rw (found, is, with_three) (ok output a b d)
  three-Keeps f ok (some output) [] found is = rw (found, is, with_three) rejected
  three-Keeps f ok (some output) (a ∷ []) found is = rw (found, is, with_three) rejected
  three-Keeps f ok (some output) (a ∷ b ∷ []) found is = rw (found, is, with_three) rejected
  three-Keeps f ok (some output) (a ∷ b ∷ d ∷ x ∷ rest) found is =
      rw (found, is, with_three) rejected

-- The values.
pub binary_value_typed :
    (op : BinaryOp) (a b : Value) (size : ℕ)
    → is_typed a ≡ true
    → is_typed b ≡ true
    → is_typed (binary_value op a b size) ≡ true
unfolding binary_value is_typed
binary_value_typed op a b size p q =
    ground (
      arith,
      resize_typed a size p,
      resize_typed b size q,
      width-resize a size,
      width-resize b size,
    )

pub compare_value_typed :
    (test : Predicate) (a b : Value) (size : ℕ)
    → is_typed a ≡ true
    → is_typed b ≡ true
    → is_typed (compare_value test a b size) ≡ true
unfolding compare_value is_typed
compare_value_typed test a b size p q =
    ground (
      arith,
      resize_typed a size p,
      resize_typed b size q,
      width-resize a size,
      width-resize b size,
    )

pub overflow_value_typed :
    (kind : Overflow) (a b : Value) (size : ℕ)
    → is_typed a ≡ true
    → is_typed b ≡ true
    → width a ≡ bit_width size
    → is_typed (overflow_value kind a b size) ≡ true
unfolding overflow_value is_typed
overflow_value_typed kind a b size p q same =
    ground (arith, p, resize_typed b size q, same, width-resize b size)

width-create_zext : (v : Value) (w : ℕ) → width (create_zext v w) ≡ w
unfolding create_zext width
width-create_zext v w = elim (Bool-cases (width v == w)) [
  | inl same ↦ rw (same, create_zext) ((==_iff _ _).0 same)
  | inr other ↦ rw (other, create_zext) refl
]

zext_typed :
    (v : Value) (w : ℕ) → is_typed v ≡ true → width v ≤ w → is_typed (create_zext v w) ≡ true
unfolding create_zext is_typed
zext_typed v w h wide = elim (Bool-cases (width v == w)) [
  | inl same ↦ rw (same, create_zext) h
  | inr other ↦ rw (other, create_zext) (ground (arith, h, wide, other))
]

sext_typed :
    (v : Value) (w : ℕ) → is_typed v ≡ true → width v ≤ w → is_typed (create_sext v w) ≡ true
unfolding create_sext is_typed
sext_typed v w h wide = elim (Bool-cases (width v == w)) [
  | inl same ↦ rw (same, create_sext) h
  | inr other ↦ rw (other, create_sext) (ground (arith, h, wide, other))
]

pub cast_value_typed :
    (opcode : PcodeOpcode) (v : Value) (size : ℕ)
    → is_typed v ≡ true
    → width v ≤ bit_width size
    → is_typed (cast_value opcode v size) ≡ true
unfolding cast_value
cast_value_typed Pcode.int_z_ext v size h wide = zext_typed v (bit_width size) h wide
cast_value_typed _ v size h wide = sext_typed v (bit_width size) h wide

pub piece_value_typed :
    (high low : Value) (size low_size : ℕ)
    → is_typed high ≡ true
    → is_typed low ≡ true
    → width high ≤ bit_width size
    → width low ≤ bit_width size
    → is_typed (piece_value high low size low_size) ≡ true
unfolding piece_value is_typed constant width
piece_value_typed high low size low_size p q wide wide' =
    let w = bit_width size in
    ground (
      arith,
      zext_typed high w p wide,
      zext_typed low w q wide',
      width-create_zext high w,
      width-create_zext low w,
    )

pub unary_value_typed :
    (opcode : PcodeOpcode) (v : Value) (size : ℕ) {value : Value}
    → is_typed v ≡ true
    → unary_value opcode v size ≡ some value
    → is_typed value ≡ true
unfolding unary_value create_not create_neg is_typed width
unary_value_typed Pcode.int_negate v size {value} h found =
    let same : create_not (resize v size) ≡ value = ground (arith, found) in
    subst (λ (x : Value). is_typed x ≡ true) same (ground (arith, resize_typed v size h))
unary_value_typed Pcode.int2_comp v size {value} h found =
    let same : create_neg (resize v size) ≡ value = ground (arith, found) in
    subst (λ (x : Value). is_typed x ≡ true) same (ground (arith, resize_typed v size h))
unary_value_typed _ v size h found = cc

pub subpiece_value_typed :
    (v : Value) (n : ℕ) → is_typed v ≡ true → is_typed (subpiece_value v n) ≡ true
unfolding subpiece_value is_typed constant width
subpiece_value_typed v n h = ground (arith, h)

pub count_value_typed :
    (opcode : PcodeOpcode) (v : Value) → is_typed v ≡ true → is_typed (count_value opcode v) ≡ true
unfolding count_value is_typed
count_value_typed Pcode.popcount v h = h
count_value_typed _ v h = h

condition_typed :
    (v : Value)
    → is_typed v ≡ true
    → (is_typed (as_condition v) ≡ true) × (width (as_condition v) ≡ 1)
unfolding as_condition is_typed constant width
condition_typed v h = elim (Bool-cases (width v == 1)) [
  | inl same ↦ rw (same, as_condition) (h, (==_iff _ _).0 same)
  | inr other ↦ rw (other, as_condition) (ground (arith, h), refl)
]

pub not_condition_typed :
    (v : Value) → is_typed v ≡ true → is_typed (create_not (as_condition v)) ≡ true
unfolding create_not is_typed width
not_condition_typed v h = ground (arith, (condition_typed v h).0)

pub bool_value_typed :
    (op : BinaryOp) (a b : Value)
    → is_typed a ≡ true
    → is_typed b ≡ true
    → is_typed (bool_value op a b) ≡ true
unfolding bool_value is_typed
bool_value_typed op a b p q =
    let (typed, one) = condition_typed a p in
    let (typed', one') = condition_typed b q in ground (arith, typed, typed', one, one')

pub ptr_sub_value_typed :
    (v : Value) (n size : ℕ) → is_typed v ≡ true → is_typed (ptr_sub_value v n size) ≡ true
unfolding ptr_sub_value is_typed constant width
ptr_sub_value_typed v n size h = ground (arith, resize_typed v size h)

pub ptr_add_value_typed :
    (base index : Value) (scale size : ℕ)
    → is_typed base ≡ true
    → is_typed index ≡ true
    → is_typed (ptr_add_value base index scale size) ≡ true
unfolding ptr_add_value is_typed constant width
ptr_add_value_typed base index scale size p q = ground (
  arith,
  resize_typed base size p,
  resize_typed index size q,
  width-resize base size,
  width-resize index size,
)
