-- ===== src/Lowering/Typing.antt =====
-- The typing rules of LLVM on the values that the lowering builds.
pub mod Steps
pub mod Handlers
pub mod Memory
pub mod Blocks
use not_dec_bin2llvm.Common.{
  ℕ, ◌∷◌, [], ◌++◌, List, Option, none, some, Bool, true, false, ltb, ◌==◌, ◌&&◌, ◌≤◌, ◌≡◌, refl,
  arith, Text, All, All-append, Bool-cases, Option-cases, inl, inr, ==_iff, ◌∙◌, sym, codes,
  text_beq,
}
use not_dec_bin2llvm.Registers.{bit_width}
use not_dec_bin2llvm.Lowering.{
  Value, BinaryOp, VarnodeView, LoweringState, Context, Action, int_const, function_address, loaded,
  binary, icmp, zext, sext, trunc, ctpop, ctlz, overflow_bit, ram_load, ram_store, pointer_load,
  pointer_store, register_read, register_write, unknown_value, helper_call, width, resize, constant,
  emit, look, forget, varnode_key, read_const, read_storage, read_varnode, write_resized,
  write_varnode, set_source_ram, is_stored_register,
}

-- Two operands have one type; an extension widens and a truncation narrows.
unfoldable pub is_typed : Value → Bool
unfolding width
is_typed (int_const w n) = true
is_typed (function_address name w) = true
is_typed (loaded n w) = true
is_typed (binary op a b) = is_typed a && (is_typed b && width a == width b)
is_typed (icmp p a b) = is_typed a && (is_typed b && width a == width b)
is_typed (zext a w) = is_typed a && ltb (width a) w
is_typed (sext a w) = is_typed a && ltb (width a) w
is_typed (trunc a w) = is_typed a && ltb w (width a)
is_typed (ctpop a) = is_typed a
is_typed (ctlz a) = is_typed a
is_typed (overflow_bit o a b) = is_typed a && (is_typed b && width a == width b)

unfoldable pub all_typed : List Value → Bool
unfolding is_typed
all_typed [] = true
all_typed (v ∷ vs) = is_typed v && all_typed vs

unfoldable pub is_typed_action : Action → Bool
unfolding is_typed all_typed
is_typed_action (ram_load size address) = true
is_typed_action (ram_store address value) = is_typed value
is_typed_action (pointer_load size pointer) = is_typed pointer
is_typed_action (pointer_store value pointer) = is_typed value && is_typed pointer
is_typed_action (register_read access) = true
is_typed_action (register_write access value) = is_typed value
is_typed_action (unknown_value size) = true
is_typed_action (helper_call name args) = all_typed args

-- All that is cached and all that is done.
pub record StateIsTyped (s : LoweringState) : Type 0 where
  pub values_typed : All (λ (p : Text × Value). is_typed p.1 ≡ true) s.values
  pub actions_typed : All (λ (a : Action). is_typed_action a ≡ true) s.actions

pub width-resize : (v : Value) (size : ℕ) → width (resize v size) ≡ bit_width size
unfolding resize width
width-resize v size = elim (Bool-cases (width v == bit_width size)) [
  | inl same ↦ rw (same, resize) ((==_iff _ _).0 same)
  | inr other ↦ elim (Bool-cases (ltb (width v) (bit_width size))) [
    | inl narrow ↦ rw (other, narrow, resize) refl
    | inr wide ↦ rw (other, wide, resize) refl
  ]
]

pub resize_typed : (v : Value) (size : ℕ) → is_typed v ≡ true → is_typed (resize v size) ≡ true
unfolding resize is_typed
resize_typed v size h = elim (Bool-cases (width v == bit_width size)) [
  | inl same ↦ rw (same, resize) h
  | inr other ↦ elim (Bool-cases (ltb (width v) (bit_width size))) [
    | inl narrow ↦ rw (other, narrow, resize) (ground (arith, h, narrow))
    | inr wide ↦ rw (other, wide, resize) (ground (arith, h, wide, other))
  ]
]

-- Operands that were resized alike have one type.
pub binary_typed :
    (op : BinaryOp) (a b : Value)
    → is_typed a ≡ true
    → is_typed b ≡ true
    → width a ≡ width b
    → is_typed (binary op a b) ≡ true
unfolding is_typed
binary_typed op a b p q same = ground (arith, p, q, same)

pub emit_typed :
    (s : LoweringState) (a : Action) (w : ℕ)
    → StateIsTyped s
    → is_typed_action a ≡ true
    → StateIsTyped (emit s a w).0
unfolding emit
emit_typed s a w ok h = record {
  values_typed = ok.values_typed;
  actions_typed =
      All-append (λ (x : Action). is_typed_action x ≡ true) s.actions (a ∷ []) ok.actions_typed
        (h, tt);
}

look_typed :
    (key : Text) (values : List (Text × Value)) {v : Value}
    → All (λ (p : Text × Value). is_typed p.1 ≡ true) values
    → look key values ≡ some v
    → is_typed v ≡ true
unfolding look
look_typed key [] all h = cc
look_typed key ((k, x) ∷ values) (first, rest) h = elim (Bool-cases (text_beq k key)) [
  | inl same ↦ ground (arith, same, h, first)
  | inr other ↦ look_typed key values rest (ground (arith, other, h))
]

-- A read keeps the types, and has the type of the varnode.
pub record ReadIsTyped (v : VarnodeView) (p : LoweringState × Value) : Type 0 where
  pub state_typed : StateIsTyped p.0
  pub value_typed : is_typed p.1 ≡ true
  pub value_width : width p.1 ≡ bit_width v.size

const_typed :
    (c : Context) (v : VarnodeView)
    → (is_typed (read_const c v) ≡ true) × (width (read_const c v) ≡ bit_width v.size)
unfolding read_const constant is_typed width
const_typed c v = elim (Option-cases (c.code_address_targets v.offset)) [
  | inl unknown ↦ rw (unknown, read_const) (refl, refl)
  | inr (name, known) ↦ elim (Bool-cases (v.size == c.pointer_byte_size)) [
    | inl pointer ↦ rw (known, pointer, read_const) (refl, refl)
    | inr other ↦ rw (known, other, read_const) (refl, refl)
  ]
]

module _ (c : Context) (s : LoweringState) (v : VarnodeView) (ok : StateIsTyped s) where
  emitted : (a : Action) → is_typed_action a ≡ true → ReadIsTyped v (emit s a (bit_width v.size))
  unfolding emit is_typed width
  emitted a h = record {
    state_typed = emit_typed s a (bit_width v.size) ok h;
    value_typed = refl;
    value_width = refl;
  }

  storage_typed : ReadIsTyped v (read_storage c s v)
  unfolding read_storage is_typed_action
  storage_typed = elim (Bool-cases (text_beq v.space (codes "ram"))) [
    | inl ram ↦ rw (ram, read_storage) (emitted _ refl)
    | inr other ↦ elim (Bool-cases (is_stored_register c v)) [
      | inl register ↦ rw (other, register, read_storage) (emitted _ refl)
      | inr unknown ↦ rw (other, unknown, read_storage) (emitted _ refl)
    ]
  ]

  pub read_typed : ReadIsTyped v (read_varnode c s v)
  unfolding read_varnode
  read_typed = elim (Bool-cases (text_beq v.space (codes "const"))) [
    | inl const ↦
        let (typed, same) = const_typed c v in
        rw (const, read_varnode)
          (record { state_typed = ok; value_typed = typed; value_width = same })
    | inr other ↦ elim (Option-cases (look (varnode_key v) s.values)) [
      | inl missing ↦ rw (other, missing, read_varnode) storage_typed
      | inr (value, found) ↦
          rw (other, found, read_varnode)
            (record {
              state_typed = ok;
              value_typed =
                  resize_typed value v.size
                    (look_typed (varnode_key v) s.values ok.values_typed found);
              value_width = width-resize value v.size;
            })
    ]
  ]

  pub write_typed :
      (value : Value) → is_typed value ≡ true → StateIsTyped (write_varnode c s v value)
  unfolding write_varnode write_resized is_typed_action
  write_typed value h =
      let stored = resize_typed value v.size h in
      let t : LoweringState = record s { source_ram = forget (varnode_key v) s.source_ram } in
      let kept : StateIsTyped t = record {
        values_typed = ok.values_typed;
        actions_typed = ok.actions_typed;
      } in
      elim (Bool-cases (is_stored_register c v)) [
        | inl register ↦ rw (register, write_varnode, write_resized) (emit_typed t _ 0 kept stored)
        | inr other ↦ elim (Bool-cases (text_beq v.space (codes "ram"))) [
          | inl ram ↦ rw (other, ram, write_varnode, write_resized) (emit_typed t _ 0 kept stored)
          | inr cached ↦
              rw (other, cached, write_varnode, write_resized)
                (record {
                  values_typed = (stored, ok.values_typed);
                  actions_typed = ok.actions_typed;
                })
        ]
      ]

  pub source_typed : (source : Option ℕ) → StateIsTyped (set_source_ram s v source)
  unfolding set_source_ram
  source_typed none = record { values_typed = ok.values_typed; actions_typed = ok.actions_typed }
  source_typed (some n) = record {
    values_typed = ok.values_typed;
    actions_typed = ok.actions_typed;
  }
