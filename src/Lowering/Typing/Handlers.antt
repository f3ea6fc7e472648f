-- ===== src/Lowering/Typing/Handlers.antt =====
-- The handlers of `lowerOp` for integers and pointers build well-typed values.
use not_dec_bin2llvm.Common.{
  some, Bool, true, false, ◌&&◌, ◌≤◌, ◌≡◌, refl, arith, All, Bool-cases, Option-cases, inl, inr,
  subst,
}
use not_dec_bin2llvm.Pcode.{PcodeOpcode}
use not_dec_bin2llvm.Pcode
use not_dec_bin2llvm.Registers.{bit_width}
use not_dec_bin2llvm.Lowering.{
  Value, Overflow, VarnodeView, PcodeOpView, LoweringState, Context, constant, read_varnode,
  write_varnode, source_ram_of,
}
use not_dec_bin2llvm.Lowering.Operations.{
  done, is_const, is_int_xor, same_varnode, binary_op, predicate, unary_value, lower_binary,
  lower_compare, lower_cast, lower_unary, lower_subpiece, lower_piece, lower_count_bits,
  lower_copy_like,
}
use not_dec_bin2llvm.Lowering.Flags.{
  bool_op, lower_ptr_add, lower_ptr_sub, lower_overflow, lower_bool_negate, lower_bool_binary,
}
use not_dec_bin2llvm.Lowering.Dispatch.{lower_copy}
use not_dec_bin2llvm.Lowering.Typing.{
  is_typed, StateIsTyped, ReadIsTyped, read_typed, write_typed, source_typed,
}
use not_dec_bin2llvm.Lowering.Typing.Steps.{
  Keeps, kept, rejected, one-Keeps, two-Keeps, three-Keeps, binary_value_typed, compare_value_typed,
  overflow_value_typed, cast_value_typed, piece_value_typed, unary_value_typed,
  subpiece_value_typed, count_value_typed, not_condition_typed, bool_value_typed,
  ptr_sub_value_typed, ptr_add_value_typed,
}

-- Whether the inputs must not be wider than the output.
unfoldable pub extends_inputs : PcodeOpcode → Bool
extends_inputs Pcode.int_z_ext = true
extends_inputs Pcode.int_s_ext = true
extends_inputs Pcode.piece = true
extends_inputs _ = false

-- The widths of extensions.
abbrev pub WidthsAreOk : PcodeOpView → Type 0
WidthsAreOk op =
    extends_inputs op.opcode ≡ true
    → (output : VarnodeView) → op.output ≡ some output
    → All (λ (v : VarnodeView). bit_width v.size ≤ bit_width output.size) op.inputs

module _ (c : Context) (s : LoweringState) (op : PcodeOpView) (ok : StateIsTyped s) where
  abbrev first : VarnodeView → Value
  first a = (read_varnode c s a).1

  abbrev second : VarnodeView → VarnodeView → Value
  second a b = (read_varnode c (read_varnode c s a).0 b).1

  -- The written value is typed if the read one is.
  pub one_value-Keeps :
      (a output : VarnodeView) (value : Value)
      → (ReadIsTyped a (read_varnode c s a) → is_typed value ≡ true)
      → Keeps (done (write_varnode c (read_varnode c s a).0 output value))
  one_value-Keeps a output value typed =
      let p = read_typed c s a ok in
      kept (write_typed c (read_varnode c s a).0 output p.state_typed value (typed p))

  pub two_values_keep :
      (a b output : VarnodeView) (value : Value)
      → (let p = read_varnode c s a in
          ReadIsTyped a p → ReadIsTyped b (read_varnode c p.0 b) → is_typed value ≡ true)
      → Keeps (done (write_varnode c (read_varnode c (read_varnode c s a).0 b).0 output value))
  two_values_keep a b output value typed =
      let p = read_typed c s a ok in
      let q = read_typed c (read_varnode c s a).0 b p.state_typed in
      kept (
        write_typed c (read_varnode c (read_varnode c s a).0 b).0 output q.state_typed value
          (typed p q))

  pub copy-Keeps : Keeps (lower_copy c s op)
  unfolding lower_copy
  copy-Keeps =
      one-Keeps op _
        (λ output a found is.
          let p = read_typed c s a ok in
          let t = write_varnode c (read_varnode c s a).0 output (read_varnode c s a).1 in
          kept (
            source_typed c t output
              (write_typed c (read_varnode c s a).0 output p.state_typed _ p.value_typed)
              (source_ram_of s a)))
        op.output op.inputs refl refl

  pub copy_like-Keeps : Keeps (lower_copy_like c s op)
  unfolding lower_copy_like
  copy_like-Keeps =
      one-Keeps op _ (λ output a found is. one_value-Keeps a output _ (λ p. p.value_typed))
        op.output op.inputs refl refl

  pub count-Keeps : Keeps (lower_count_bits c s op)
  unfolding lower_count_bits
  count-Keeps =
      one-Keeps op _
        (λ output a found is.
          one_value-Keeps a output _ (λ p. count_value_typed op.opcode (first a) p.value_typed))
        op.output op.inputs refl refl

  pub negate-Keeps : Keeps (lower_bool_negate c s op)
  unfolding lower_bool_negate
  negate-Keeps =
      one-Keeps op _
        (λ output a found is.
          one_value-Keeps a output _ (λ p. not_condition_typed (first a) p.value_typed))
        op.output op.inputs refl refl

  pub cast-Keeps : WidthsAreOk op → extends_inputs op.opcode ≡ true → Keeps (lower_cast c s op)
  unfolding lower_cast
  cast-Keeps widths extends =
      one-Keeps op _
        (λ output a found is.
          let all =
            subst (All (λ (v : VarnodeView). bit_width v.size ≤ bit_width output.size)) is
              (widths extends output found) in
          one_value-Keeps a output _ (λ p.
            cast_value_typed op.opcode (first a) output.size p.value_typed
              (ground (arith, p.value_width, all.0))))
        op.output op.inputs refl refl

  pub unary-Keeps : Keeps (lower_unary c s op)
  unfolding lower_unary
  unary-Keeps =
      one-Keeps op _
        (λ output a found is.
          elim (Option-cases (unary_value op.opcode (read_varnode c s a).1 output.size)) [
            | inl unknown ↦ rw unknown rejected
            | inr (value, known) ↦ rw known (
                one_value-Keeps a output value
                  (λ p. unary_value_typed op.opcode (first a) output.size p.value_typed known))
          ])
        op.output op.inputs refl refl

  pub binary-Keeps : Keeps (lower_binary c s op)
  unfolding lower_binary constant is_typed
  binary-Keeps =
      two-Keeps op _
        (λ output a b found is. elim (Bool-cases (is_int_xor op.opcode && same_varnode a b)) [
          | inl self ↦ rw self (kept (write_typed c s output ok _ refl))
          | inr plain ↦ elim (Option-cases (binary_op op.opcode)) [
            | inl unknown ↦ rw (plain, unknown) rejected
            | inr (instruction, known) ↦
                rw (plain, known)
                  (two_values_keep a b output _ (λ p q.
                    binary_value_typed instruction (first a) (second a b) output.size p.value_typed
                      q.value_typed))
          ]
        ])
        op.output op.inputs refl refl

  pub compare-Keeps : Keeps (lower_compare c s op)
  unfolding lower_compare
  compare-Keeps =
      two-Keeps op _
        (λ output a b found is. elim (Option-cases (predicate op.opcode)) [
          | inl unknown ↦ rw unknown rejected
          | inr (test, known) ↦ rw known (
              two_values_keep a b output _ (λ p q.
                compare_value_typed test (first a) (second a b) a.size p.value_typed q.value_typed))
        ])
        op.output op.inputs refl refl

  pub bool-Keeps : Keeps (lower_bool_binary c s op)
  unfolding lower_bool_binary
  bool-Keeps =
      two-Keeps op _
        (λ output a b found is. elim (Option-cases (bool_op op.opcode)) [
          | inl unknown ↦ rw unknown rejected
          | inr (instruction, known) ↦ rw known (
              two_values_keep a b output _ (λ p q.
                bool_value_typed instruction (first a) (second a b) p.value_typed q.value_typed))
        ])
        op.output op.inputs refl refl

  pub overflow-Keeps : (kind : Overflow) → Keeps (lower_overflow kind c s op)
  unfolding lower_overflow
  overflow-Keeps kind =
      two-Keeps op _
        (λ output a b found is. two_values_keep a b output _ (λ p q.
          overflow_value_typed kind (first a) (second a b) a.size p.value_typed q.value_typed
            p.value_width))
        op.output op.inputs refl refl

  pub piece-Keeps : WidthsAreOk op → extends_inputs op.opcode ≡ true → Keeps (lower_piece c s op)
  unfolding lower_piece
  piece-Keeps widths extends =
      two-Keeps op _
        (λ output a b found is.
          let all =
            subst (All (λ (v : VarnodeView). bit_width v.size ≤ bit_width output.size)) is
              (widths extends output found) in
          two_values_keep a b output _ (λ p q.
            piece_value_typed (first a) (second a b) output.size b.size p.value_typed q.value_typed
              (ground (arith, p.value_width, all.0)) (ground (arith, q.value_width, all.1.0))))
        op.output op.inputs refl refl

  pub subpiece-Keeps : Keeps (lower_subpiece c s op)
  unfolding lower_subpiece
  subpiece-Keeps =
      two-Keeps op _
        (λ output a b found is. elim (Bool-cases (is_const b)) [
          | inr other ↦ rw other rejected
          | inl const ↦ rw const (
              one_value-Keeps a output _
                (λ p. subpiece_value_typed (first a) b.offset p.value_typed))
        ])
        op.output op.inputs refl refl

  pub ptr_sub-Keeps : Keeps (lower_ptr_sub c s op)
  unfolding lower_ptr_sub
  ptr_sub-Keeps =
      two-Keeps op _
        (λ output a b found is. elim (Bool-cases (is_const b)) [
          | inr other ↦ rw other rejected
          | inl const ↦ rw const (
              one_value-Keeps a output _
                (λ p. ptr_sub_value_typed (first a) b.offset output.size p.value_typed))
        ])
        op.output op.inputs refl refl

  pub ptr_add-Keeps : Keeps (lower_ptr_add c s op)
  unfolding lower_ptr_add
  ptr_add-Keeps =
      three-Keeps op _
        (λ output a b d. elim (Bool-cases (is_const d)) [
          | inr other ↦ rw other rejected
          | inl const ↦ rw const (
              two_values_keep a b output _ (λ p q.
                ptr_add_value_typed (first a) (second a b) d.offset output.size p.value_typed
                  q.value_typed))
        ])
        op.output op.inputs refl refl
