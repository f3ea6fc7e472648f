-- ===== src/Lowering/Memory.antt =====
-- The cached values represent the temporaries, and reading and writing one keeps this so.
use not_dec_bin2llvm.Common.{
  ℕ, ◌%◌, ◌^◌, ◌<◌, List, [], ◌∷◌, some, true, false, ◌==◌, ◌≡◌, refl, arith, Bool-cases,
  Option-cases, inl, inr, subst, Text, codes, text_beq, u32_mod,
}
use native.Mathlib.Nat.{mod-lt}
use not_dec_bin2llvm.Registers.{bit_width}
use not_dec_bin2llvm.Lowering.{
  Value, VarnodeView, LoweringState, Context, look, varnode_key, resize, width, is_stored_register,
  read_const, read_varnode, write_resized, write_varnode,
}
use not_dec_bin2llvm.Lowering.Operations.{is_const}
use not_dec_bin2llvm.Lowering.Semantics.{Env, eval}
use not_dec_bin2llvm.Lowering.Meaning.{input_value, is_temporary}
use not_dec_bin2llvm.Lowering.Values.{Denotes, pow_positive, resize-Denotes, constant-Denotes}

-- The same keys, and each value denotes the number.
pub data Represents (e : Env) : List (Text × Value) → List (Text × ℕ) → Type 0 where
  nothing_cached : Represents e [] []
  cached :
      {key : Text} {value : Value} {x w : ℕ} {values : List (Text × Value)} {m : List (Text × ℕ)}
      → Denotes e value x w
      → Represents e values m
      → Represents e ((key, value) ∷ values) ((key, x) ∷ m)

-- The linker leaves every function that the code refers to at its address.
abbrev pub NamesKeepAddresses : Env → Context → Type 0
NamesKeepAddresses e c =
    (offset : ℕ) (name : Text)
    → c.code_address_targets offset ≡ some name
    → e.address_of name ≡ offset

look-Represents :
    {e : Env} {values : List (Text × Value)} {m : List (Text × ℕ)} (key : Text) {x : ℕ}
    → Represents e values m
    → look key m ≡ some x
    → (value : Value) × (w : ℕ) × (look key values ≡ some value) × Denotes e value x w
unfolding look
look-Represents key nothing_cached h = cc
look-Represents {e} key {x} (cached {key = k} {value = value} {w = w} d r) h =
    elim (Bool-cases (text_beq k key)) [
      | inl same ↦
          rw same
            (value, w, refl, subst (λ (y : ℕ). Denotes e value y w) (ground (arith, same, h)) d)
      | inr other ↦ rw other (look-Represents key r (ground (arith, other, h)))
    ]

module _ (e : Env) (c : Context) (names : NamesKeepAddresses e c) where
  const-Denotes :
      (v : VarnodeView)
      → Denotes e (read_const c v) (v.offset % 2 ^ bit_width v.size) (bit_width v.size)
  unfolding read_const eval width
  const-Denotes v = elim (Option-cases (c.code_address_targets v.offset)) [
    | inl unknown ↦ rw (unknown, read_const) (constant-Denotes e (bit_width v.size) v.offset)
    | inr (name, known) ↦ elim (Bool-cases (v.size == c.pointer_byte_size)) [
      | inr other ↦ rw (known, other, read_const) (constant-Denotes e (bit_width v.size) v.offset)
      | inl pointer ↦
          let place = names v.offset name known in
          rw (known, pointer, read_const)
            (record {
              value_is = rw place refl;
              width_is = refl;
              fits = mod-lt v.offset (pow_positive (bit_width v.size));
            })
    ]
  ]

  -- Reading a constant or a written temporary does nothing and gives its value.
  pub read-Denotes :
      (s : LoweringState) (m : List (Text × ℕ)) (v : VarnodeView) {x : ℕ}
      → Represents e s.values m
      → input_value m v ≡ some x
      → ((read_varnode c s v).0 ≡ s) × Denotes e (read_varnode c s v).1 x (bit_width v.size)
  unfolding read_varnode input_value is_const
  read-Denotes s m v {x} r h = elim (Bool-cases (text_beq v.space (codes "const"))) [
    | inl const ↦ rw const (
      refl,
      subst (λ (y : ℕ). Denotes e (read_const c v) y (bit_width v.size)) (ground (arith, const, h))
          (const-Denotes v),
    )
    | inr other ↦ elim (Option-cases (look (varnode_key v) m)) [
      | inl missing ↦ absurd (ground (arith, other, missing, h))
      | inr (y, found) ↦
          let (value, w, there, d) = look-Represents (varnode_key v) r found in
          let eq : y % 2 ^ bit_width v.size ≡ x = ground (arith, other, found, h) in
          rw (other, there, read_varnode)
            (
              refl,
              subst (λ (z : ℕ). Denotes e (resize value v.size) z (bit_width v.size)) eq
                  (resize-Denotes e value y w v.size d),
            )
    ]
  ]

-- A temporary is written to the cache alone.
pub write_temporary :
    (c : Context) (s : LoweringState) (v : VarnodeView) (value : Value)
    → is_temporary c v ≡ true
    → ((write_varnode c s v value).values ≡ (varnode_key v, resize value v.size) ∷ s.values)
      × ((write_varnode c s v value).actions ≡ s.actions)
unfolding write_varnode write_resized is_temporary
write_temporary c s v value h =
    let register : is_stored_register c v ≡ false = ground (arith, h) in
    let ram : text_beq v.space (codes "ram") ≡ false = ground (arith, h) in
    rw (register, ram) (refl, refl)

pub bit_width-positive : (size : ℕ) → size < 2 ^ 29 → 0 < bit_width size
unfolding bit_width
bit_width-positive size h = ground arith

pub bit_width-lt : (size : ℕ) → bit_width size < u32_mod
unfolding bit_width
bit_width-lt size = ground arith
