-- ===== src/Lowering/Typing/Memory.antt =====
-- Loads, stores and helper calls of `lowerOp` keep the types.
use not_dec_bin2llvm.Common.{
  List, [], ◌∷◌, ◌++◌, true, ◌≡◌, refl, arith, Bool-cases, Option-cases, inl, inr, codes, text_beq,
}
use not_dec_bin2llvm.Registers.{bit_width}
use not_dec_bin2llvm.Lowering.{
  Value, VarnodeView, PcodeOpView, LoweringState, Context, constant, resize, read_varnode, emit,
  pointer_load, helper_call,
}
use not_dec_bin2llvm.Lowering.Operations.{is_const}
use not_dec_bin2llvm.Lowering.Dispatch.{
  lower_load, store_inputs, helper_args, helper_name, lower_helper_call,
}
use not_dec_bin2llvm.Lowering.Typing.{
  is_typed, all_typed, is_typed_action, StateIsTyped, resize_typed, emit_typed, read_typed,
  write_typed,
}
use not_dec_bin2llvm.Lowering.Typing.Steps.{Keeps, kept, rejected, two-Keeps}

module _ (c : Context) (s : LoweringState) (op : PcodeOpView) (ok : StateIsTyped s) where
  pub load-Keeps : Keeps (lower_load c s op)
  unfolding lower_load emit is_typed is_typed_action
  load-Keeps =
      two-Keeps op _
        (λ output a b found is. elim (Bool-cases (is_const a)) [
          | inr other ↦ rw other rejected
          | inl const ↦
              let p = read_typed c s b ok in
              let address = resize_typed (read_varnode c s b).1 c.pointer_byte_size p.value_typed in
              let loading =
                emit_typed (read_varnode c s b).0
                  (pointer_load output.size (resize (read_varnode c s b).1 c.pointer_byte_size))
                  (bit_width output.size) p.state_typed address in
              rw const (kept (write_typed c _ output loading _ refl))
        ])
        op.output op.inputs refl refl

  pub store-Keeps : (inputs : List VarnodeView) → Keeps (store_inputs c s op inputs)
  unfolding store_inputs is_typed_action
  store-Keeps [] = rejected
  store-Keeps (a ∷ []) = rejected
  store-Keeps (a ∷ b ∷ []) = rejected
  store-Keeps (a ∷ b ∷ d ∷ x ∷ rest) = rejected
  store-Keeps (a ∷ b ∷ d ∷ []) = elim (Bool-cases (is_const a)) [
    | inr other ↦ rw (other, store_inputs) rejected
    | inl const ↦
        let p = read_typed c s b ok in
        let q = read_typed c (read_varnode c s b).0 d p.state_typed in
        let address = resize_typed (read_varnode c s b).1 c.pointer_byte_size p.value_typed in
        rw (const, store_inputs)
          (kept (emit_typed _ _ 0 q.state_typed (ground (arith, address, q.value_typed))))
  ]

appended :
    (args : List Value) (v : Value)
    → all_typed args ≡ true
    → is_typed v ≡ true
    → all_typed (args ++ v ∷ []) ≡ true
unfolding all_typed
appended [] v h k = ground (arith, k)
appended (x ∷ xs) v h k = ground (arith, appended xs v (ground (arith, h)) k, h)

args_typed :
    (c : Context) (s : LoweringState) (inputs : List VarnodeView) (args : List Value)
    → StateIsTyped s
    → all_typed args ≡ true
    → StateIsTyped (helper_args c s inputs args).0
      × (all_typed (helper_args c s inputs args).1 ≡ true)
unfolding helper_args is_typed constant
args_typed c s [] args ok h = (ok, h)
args_typed c s (v ∷ vs) args ok h = elim (Bool-cases (text_beq v.space (codes "ram"))) [
  | inl ram ↦
      rw (ram, helper_args)
        (args_typed c s vs (args ++ constant (bit_width v.size) v.offset ∷ []) ok
          (appended args _ h refl))
  | inr other ↦
      let p = read_typed c s v ok in
      rw (other, helper_args)
        (args_typed c (read_varnode c s v).0 vs (args ++ (read_varnode c s v).1 ∷ []) p.state_typed
          (appended args _ h p.value_typed))
]

pub helper-Keeps :
    (c : Context) (s : LoweringState) (op : PcodeOpView)
    → StateIsTyped s
    → Keeps (lower_helper_call c s op)
unfolding lower_helper_call emit is_typed_action is_typed all_typed
helper-Keeps c s op ok =
    let (typed, args) = args_typed c s op.inputs [] ok refl in
    let p = helper_args c s op.inputs [] in
    let call = helper_call (helper_name op) p.1 in
    elim (Option-cases op.output) [
      | inl missing ↦ rw (missing, lower_helper_call) (kept (emit_typed p.0 _ 0 typed args))
      | inr (output, found) ↦
          rw (found, lower_helper_call)
            (kept
              (write_typed c _ output (emit_typed p.0 _ (bit_width output.size) typed args) _ refl))
    ]
