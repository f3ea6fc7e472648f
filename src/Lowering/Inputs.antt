-- ===== src/Lowering/Inputs.antt =====
-- One operation of one or two inputs on temporaries writes what p-code says.
use Prim.Native.Nat.{bit_xor}
use not_dec_bin2llvm.Common.{
  ℕ, ◌^◌, ◌<◌, List, [], ◌∷◌, none, some, true, false, ◌==◌, ◌&&◌, ◌≡◌, refl, ◌∙◌, sym, ap, arith,
  Bool-cases, Option-cases, inl, inr, subst, Text, text_beq_iff,
}
use native.Mathlib.Nat.{zero-mod}
use not_dec_bin2llvm.Pcode.{PcodeOpcode}
use not_dec_bin2llvm.Pcode
use not_dec_bin2llvm.Registers.{bit_width}
use not_dec_bin2llvm.Lowering.{
  Value, VarnodeView, PcodeOpView, LoweringState, Context, constant, varnode_key, resize,
  read_varnode,
}
use not_dec_bin2llvm.Lowering.Operations.{Outcome, done, is_const, same_varnode, is_int_xor}
use not_dec_bin2llvm.Lowering.Dispatch.{OtherOps, lower_op}
use not_dec_bin2llvm.Lowering.Semantics.{Env}
use not_dec_bin2llvm.Lowering.Meaning.{
  one_meaning, two_meaning, input_value, result_value, is_temporary,
}
use not_dec_bin2llvm.Lowering.Words.{bit_xor_self}
use not_dec_bin2llvm.Lowering.Values.{Denotes, constant-Denotes}
use not_dec_bin2llvm.Lowering.Unary.{guarded-some, one_value-Denotes, stored-word}
use not_dec_bin2llvm.Lowering.Results.{two_value-Writes}
use not_dec_bin2llvm.Lowering.Memory.{
  Represents, cached, NamesKeepAddresses, read-Denotes, write_temporary, bit_width-positive,
}
use not_dec_bin2llvm.Lowering.Steps.{Lowers, lower_one, lower_two, lower_self}

-- An operation writes `r` to the output, and nothing else.
abbrev pub Refines : Env → Outcome LoweringState → LoweringState → List (Text × ℕ) → Type 0
Refines e o s n =
    (t : LoweringState) × (o ≡ done t) × Represents e t.values n × (t.actions ≡ s.actions)

int_xor_itself : (opcode : PcodeOpcode) → is_int_xor opcode ≡ true → opcode ≡ Pcode.int_xor
unfolding is_int_xor
int_xor_itself Pcode.int_xor h = refl
int_xor_itself _ h = cc

-- What an input reads depends on three fields.
place : Text → ℕ → ℕ → VarnodeView
place space offset size = record {
  space = space;
  offset = offset;
  size = size;
  is_register = false;
  register_name = none;
}

place-input_value :
    (m : List (Text × ℕ)) (a : VarnodeView)
    → input_value m a ≡ input_value m (place a.space a.offset a.size)
unfolding input_value is_const varnode_key place
place-input_value m a = refl

same_varnode-input_value :
    (m : List (Text × ℕ)) (a b : VarnodeView)
    → same_varnode a b ≡ true
    → input_value m a ≡ input_value m b
unfolding same_varnode
same_varnode-input_value m a b h =
    let space : a.space ≡ b.space = (text_beq_iff a.space b.space).0 (ground (arith, h)) in
    let offset : a.offset ≡ b.offset = ground (arith, h) in
    let size : a.size ≡ b.size = ground (arith, h) in
    place-input_value m a
    ∙ ap (λ (t : Text). input_value m (place t a.offset a.size)) space
    ∙ ap (λ (n : ℕ). input_value m (place b.space n a.size)) offset
    ∙ ap (λ (n : ℕ). input_value m (place b.space b.offset n)) size
    ∙ sym (place-input_value m b)

module _ (e : Env) (others : OtherOps) (c : Context) (names : NamesKeepAddresses e c) where
  -- A lowered value that denotes the result is one step.
  pub finish :
      (o : Outcome LoweringState) (s u : LoweringState) (m : List (Text × ℕ)) (output : VarnodeView)
      (value : Value) (r : ℕ)
      → Lowers o c u output value
      → u ≡ s
      → is_temporary c output ≡ true
      → Denotes e (resize value output.size) r (bit_width output.size)
      → Represents e s.values m
      → Refines e o s ((varnode_key output, r) ∷ m)
  finish o s u m output value r (t, lowered, values, actions) same temporary d rep =
      let (stored, quiet) = write_temporary c u output value temporary in
      (
        t,
        lowered,
        rw (values, stored, same) (cached d rep),
        actions ∙ quiet ∙ ap (λ (z : LoweringState). z.actions) same,
      )

  module _ (s : LoweringState) (m : List (Text × ℕ)) (op : PcodeOpView) (output : VarnodeView)
      (rep : Represents e s.values m) (has_output : op.output ≡ some output)
      (temporary : is_temporary c output ≡ true) (wide : output.size < 2 ^ 29) where
    pub one_input :
        (a : VarnodeView) {r : ℕ}
        → op.inputs ≡ a ∷ []
        → a.size < 2 ^ 29
        → result_value m op.opcode output (a ∷ []) ≡ some r
        → Refines e (lower_op others c s op) s ((varnode_key output, r) ∷ m)
    unfolding result_value
    one_input a {r} has_inputs narrow h = elim (Option-cases (input_value m a)) [
      | inl missing ↦ absurd (ground (arith, missing, h))
      | inr (x, found) ↦
          let (same, d) = read-Denotes e c names s m a rep found in
          let result : one_meaning op.opcode (bit_width a.size) (bit_width output.size) x ≡ some r =
            ground (arith, found, h) in
          let (value, written, stored) =
            one_value-Denotes e (read_varnode c s a).1 x (bit_width a.size) output.size op.opcode
              (bit_width-positive a.size narrow) (bit_width-positive output.size wide) d result in
          finish (lower_op others c s op) s (read_varnode c s a).0 m output value r
            (lower_one others c s op output a has_output op.opcode refl has_inputs written) same
            temporary stored rep
    ]

    -- Reading both inputs: the state stays, and both values denote.
    pub both_read :
        (a b : VarnodeView) {x y : ℕ}
        → input_value m a ≡ some x
        → input_value m b ≡ some y
        → let p = read_varnode c s a in
          let q = read_varnode c p.0 b in
          (q.0 ≡ s) × Denotes e p.1 x (bit_width a.size) × Denotes e q.1 y (bit_width b.size)
    both_read a b first second =
        let (same, d) = read-Denotes e c names s m a rep first in
        let p = read_varnode c s a in
        let rep' : Represents e p.0.values m = rw same rep in
        let (same', d') = read-Denotes e c names p.0 m b rep' second in (same' ∙ same, d, d')

    -- The same value twice.
    self_xor :
        (a b : VarnodeView) {x y r : ℕ}
        → input_value m a ≡ some x
        → input_value m b ≡ some y
        → same_varnode a b ≡ true
        → two_meaning Pcode.int_xor
            (bit_width a.size)
            (bit_width b.size)
            (bit_width output.size)
            x
            y
          ≡ some r
        → r ≡ 0
    unfolding two_meaning
    self_xor a b {x} {y} {r} first second same h =
        let w = bit_width output.size in
        let (_, value) =
          guarded-some (bit_width a.size == w && bit_width b.size == w) (bit_xor x y) h in
        let eq : y ≡ x = ground (arith, same_varnode-input_value m a b same, first, second) in
        sym value ∙ ap (bit_xor x) eq ∙ bit_xor_self x

    pub two_inputs :
        (a b : VarnodeView) {x y r : ℕ}
        → op.inputs ≡ a ∷ b ∷ []
        → a.size < 2 ^ 29
        → input_value m a ≡ some x
        → input_value m b ≡ some y
        → two_meaning op.opcode (bit_width a.size) (bit_width b.size) (bit_width output.size) x y
          ≡ some r
        → Refines e (lower_op others c s op) s ((varnode_key output, r) ∷ m)
    two_inputs a b {x} {y} {r} has_inputs narrow first second h =
        elim (Bool-cases (is_int_xor op.opcode && same_varnode a b)) [
          | inl self ↦
              let is = int_xor_itself op.opcode (ground (arith, self)) in
              let same : same_varnode a b ≡ true = ground (arith, self) in
              let zero_result = self_xor a b first second same (
                subst
                  (λ (oc : PcodeOpcode).
                    two_meaning oc (bit_width a.size) (bit_width b.size) (bit_width output.size) x y
                    ≡ some r)
                  is h) in
              let w = bit_width output.size in
              let zero_word : Denotes e (constant w 0) r w =
                subst (λ (n : ℕ). Denotes e (constant w 0) n w) (zero-mod (2 ^ w) ∙ sym zero_result)
                  (constant-Denotes e w 0) in
              finish (lower_op others c s op) s s m output (constant w 0) r
                (lower_self others c s op output a has_output b is has_inputs same) refl temporary
                (stored-word e (constant w 0) r output.size zero_word) rep
          | inr plain ↦
              let (same, d, d') = both_read a b first second in
              let p = read_varnode c s a in
              let q = read_varnode c p.0 b in
              let (value, written, stored) =
                two_value-Writes e p.1 q.1 x y (bit_width a.size) (bit_width b.size) output.size d
                  d' a.size b.size (bit_width-positive output.size wide)
                  (bit_width-positive a.size narrow) refl refl op.opcode h in
              finish (lower_op others c s op) s q.0 m output value r
                (lower_two others c s op output a has_output b op.opcode refl has_inputs plain
                  written)
                same temporary stored rep
        ]
