-- ===== src/Lowering/Values.antt =====
-- What the lowered values denote: resizing, and the arithmetic of two operands.
use not_dec_bin2llvm.Common.{
  ℕ, ◌%◌, ◌^◌, ◌≤◌, ◌<◌, some, false, ltb, ◌==◌, ◌≡◌, refl, ◌∙◌, sym, arith, Bool-cases, inl, inr,
  ==_iff,
}
use native.Mathlib.Nat.{mod-eq_of_lt, mod-lt, one-le-pow, pow-le-pow_right, le_trans}
use not_dec_bin2llvm.Registers.{bit_width}
use not_dec_bin2llvm.Lowering.{BinaryOp, Value, binary, width, resize, constant}
use not_dec_bin2llvm.Lowering.Operations.{create_zext}
use not_dec_bin2llvm.Lowering.Semantics.{Env, eval, eval_binary, bind_two, map_some}

-- The value is a word of `w` bits, and this number.
pub record Denotes (e : Env) (value : Value) (x w : ℕ) : Type 0 where
  pub value_is : eval e value ≡ some x
  pub width_is : width value ≡ w
  pub fits : x < 2 ^ w

pub pow_positive : (w : ℕ) → 0 < 2 ^ w
pow_positive w = one-le-pow w 2 (omega arith)

pub below_pow : (u w x : ℕ) → u ≤ w → x < 2 ^ u → x < 2 ^ w
below_pow u w x h k = le_trans k (pow-le-pow_right (omega arith) h)

module _ (e : Env) where
  -- Resizing keeps the low bits.
  pub resize-Denotes :
      (value : Value) (x u size : ℕ)
      → Denotes e value x u
      → Denotes e (resize value size) (x % 2 ^ bit_width size) (bit_width size)
  unfolding resize eval map_some
  resize-Denotes value x u size d =
      let w = bit_width size in
      let small = mod-lt x (pow_positive w) in
      elim (Bool-cases (width value == w)) [
        | inl same ↦
            let e' : u ≡ w = sym d.width_is ∙ (==_iff _ _).0 same in
            let fits : x < 2 ^ w = rw (← e') d.fits in
            rw (same, mod-eq_of_lt fits)
              (record { value_is = d.value_is; width_is = (==_iff _ _).0 same; fits = fits })
        | inr other ↦ elim (Bool-cases (ltb (width value) w)) [
          | inl narrow ↦
              let fits : x < 2 ^ w = below_pow u w x (ground (arith, narrow, d.width_is)) d.fits in
              let ok : ltb w (width value) ≡ false = ground (arith, narrow) in
              rw (other, narrow, mod-eq_of_lt fits)
                (record { value_is = rw ok d.value_is; width_is = refl; fits = fits })
          | inr wide ↦
              let ok : ltb (width value) w ≡ false = wide in
              rw (other, wide)
                (record {
                  value_is = rw (ok, d.value_is, map_some) refl;
                  width_is = refl;
                  fits = small;
                })
        ]
      ]

  -- What is stored for a result.
  pub stored-Denotes :
      (value : Value) (y u size : ℕ) {r : ℕ}
      → Denotes e value y u
      → y % 2 ^ bit_width size ≡ r
      → Denotes e (resize value size) r (bit_width size)
  stored-Denotes value y u size d eq = rw (← eq) (resize-Denotes value y u size d)

  pub constant-Denotes : (w n : ℕ) → Denotes e (constant w n) (n % 2 ^ w) w
  unfolding constant eval
  constant-Denotes w n = record {
    value_is = refl;
    width_is = refl;
    fits = mod-lt n (pow_positive w);
  }

  module _ (a b : Value) (x y w : ℕ) (p : Denotes e a x w) (q : Denotes e b y w) where
    pub binary-Denotes :
        (op : BinaryOp) {r : ℕ}
        → eval_binary op w x y ≡ some r
        → r < 2 ^ w
        → Denotes e (binary op a b) r w
    unfolding eval bind_two width
    binary-Denotes op found small = record {
      value_is = rw (p.value_is, q.value_is, p.width_is) found;
      width_is = p.width_is;
      fits = small;
    }

  module _ (value : Value) (x u w : ℕ) (d : Denotes e value x u) (h : u ≤ w) where
    pub zext-Denotes : Denotes e (create_zext value w) x w
    unfolding create_zext eval
    zext-Denotes = elim (Bool-cases (width value == w)) [
      | inl same ↦ rw same (record {
        value_is = d.value_is;
        width_is = (==_iff _ _).0 same;
        fits = below_pow u w x h d.fits;
      })
      | inr other ↦
          let ok : ltb w (width value) ≡ false = ground (arith, d.width_is) in
          rw other (record {
            value_is = rw ok d.value_is;
            width_is = refl;
            fits = below_pow u w x h d.fits;
          })
    ]
