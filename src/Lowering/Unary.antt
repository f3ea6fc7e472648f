-- ===== src/Lowering/Unary.antt =====
-- Operations of one operand: the lowered value denotes what p-code says.
use not_dec_bin2llvm.Common.{
  ℕ, zero, suc, ◌+◌, ◌-◌, ◌/◌, ◌%◌, ◌^◌, ◌≤◌, ◌<◌, Option, none, some, Bool, true, false, not, ltb,
  leb, ◌==◌, ◌&&◌, if◌then◌else◌, ◌≡◌, refl, ◌∙◌, sym, ap, arith, Bool-cases, inl, inr, ==_iff,
}
use native.Mathlib.Nat.{mod-eq_of_lt, mod-lt, zero-mod, pow-le-pow_right}
use not_dec_bin2llvm.Pcode.{PcodeOpcode}
use not_dec_bin2llvm.Pcode
use not_dec_bin2llvm.Registers.{bit_width}
use not_dec_bin2llvm.Lowering.{xor, sub, Value, int_const, ctpop, ctlz, width, resize, constant}
use not_dec_bin2llvm.Lowering.Operations.{
  create_sext, create_not, create_neg, cast_value, unary_value, count_value,
}
use not_dec_bin2llvm.Lowering.Flags.{as_condition}
use not_dec_bin2llvm.Lowering.Semantics.{
  Env, eval, eval_binary, eval_icmp, bit, map_some, is_neg, magnitude, signed_word, ones,
  leading_zeros, bind_two,
}
use not_dec_bin2llvm.Lowering.Meaning.{guarded, one_meaning}
use not_dec_bin2llvm.Lowering.Words.{half}
use not_dec_bin2llvm.Lowering.Bits.{bit_xor-ones}
use not_dec_bin2llvm.Lowering.Values.{
  Denotes, pow_positive, below_pow, resize-Denotes, stored-Denotes, binary-Denotes, zext-Denotes,
}

ones-le : (n a : ℕ) → ones n a ≤ n
unfolding ones
ones-le zero a = omega arith
ones-le (suc n) a = omega (arith, ones-le n (a / 2))

leading_zeros-le : (n a : ℕ) → leading_zeros n a ≤ n
unfolding leading_zeros
leading_zeros-le zero a = omega arith
leading_zeros-le (suc n) a = ground (arith, leading_zeros-le n a)

pub below_own_pow : (n : ℕ) → n < 2 ^ n
below_own_pow zero = omega arith
below_own_pow (suc n) =
    omega (arith, below_own_pow n, half (suc n) (omega arith), pow_positive (suc n - 1))

pub bit-lt : (b : Bool) → bit b < 2
unfolding bit
bit-lt true = omega arith
bit-lt false = omega arith

module _ (e : Env) (v : Value) (x u : ℕ) (positive : 0 < u) (d : Denotes e v x u) where
  sext_sum :
      (w : ℕ)
      → u ≤ w
      → (if is_neg u x then x + (2 ^ w - 2 ^ u) else x) ≡ signed_word w (is_neg u x) (magnitude u x)
  unfolding signed_word magnitude
  sext_sum w h = elim (Bool-cases (is_neg u x)) [
    | inr positive_word ↦ rw positive_word refl
    | inl negative ↦ rw negative (
        let least : 2 ^ (u - 1) ≤ x = unfold is_neg in ground (arith, negative) in
        let room = below_pow u w x h d.fits in
        let powers : 2 ^ u ≤ 2 ^ w = pow-le-pow_right (omega arith) h in
        let some_left = d.fits in
        let small : 2 ^ w - (2 ^ u - x) < 2 ^ w = omega (arith, pow_positive (u - 1)) in
        sym (mod-eq_of_lt small ∙ omega arith))
  ]

  extended-lt : (w : ℕ) → u ≤ w → (if is_neg u x then x + (2 ^ w - 2 ^ u) else x) < 2 ^ w
  extended-lt w h =
      let powers : 2 ^ u ≤ 2 ^ w = pow-le-pow_right (omega arith) h in
      let small = d.fits in
      elim (Bool-cases (is_neg u x)) [
        | inl negative ↦ rw negative (omega arith)
        | inr positive_word ↦ rw positive_word (omega arith)
      ]

  extended_same : (w : ℕ) → u ≡ w → (if is_neg u x then x + (2 ^ w - 2 ^ u) else x) ≡ x
  extended_same w h = elim (Bool-cases (is_neg u x)) [
    | inl negative ↦ rw (negative, h) (omega arith)
    | inr positive_word ↦ rw positive_word refl
  ]

  sext-Denotes :
      (w : ℕ) → u ≤ w → Denotes e (create_sext v w) (signed_word w (is_neg u x) (magnitude u x)) w
  unfolding create_sext eval map_some
  sext-Denotes w h = elim (Bool-cases (width v == w)) [
    | inl same ↦
        let same_width : u ≡ w = sym d.width_is ∙ (==_iff _ _).0 same in
        rw (same, create_sext, ← sext_sum w h, extended_same w same_width)
          (record {
            value_is = d.value_is;
            width_is = (==_iff _ _).0 same;
            fits = below_pow u w x h d.fits;
          })
    | inr other ↦
        let ok : ltb w (width v) ≡ false = ground (arith, d.width_is) in
        rw (other, create_sext, ← sext_sum w h)
          (record {
            value_is = rw (ok, d.value_is, d.width_is, map_some) refl;
            width_is = refl;
            fits = extended-lt w h;
          })
  ]

  not-Denotes : Denotes e (create_not v) (2 ^ u - 1 - x) u
  unfolding create_not eval_binary width
  not-Denotes =
      let full : Denotes e (int_const (width v) (2 ^ width v - 1)) (2 ^ u - 1) u =
        rw d.width_is (record {
          value_is = unfold eval in refl;
          width_is = refl;
          fits = omega (arith, pow_positive u);
        }) in
      binary-Denotes e v _ x (2 ^ u - 1) u d full xor (ap some (bit_xor-ones u x d.fits))
        (omega (arith, d.fits))

  neg-Denotes : Denotes e (create_neg v) ((2 ^ u - x) % 2 ^ u) u
  unfolding create_neg eval_binary width
  neg-Denotes =
      let zero_word : Denotes e (int_const (width v) 0) 0 u =
        rw d.width_is
          (record { value_is = unfold eval in refl; width_is = refl; fits = pow_positive u }) in
      binary-Denotes e _ v 0 x u zero_word d sub (ap (λ (t : ℕ). some (t % 2 ^ u)) (omega arith))
        (mod-lt _ (pow_positive u))

  pub condition-Denotes : 1 < u → Denotes e (as_condition v) (bit (not (x == 0))) 1
  unfolding as_condition eval eval_icmp bind_two constant width
  condition-Denotes wide =
      let other : width v == 1 ≡ false = ground (arith, d.width_is) in
      rw other (record {
        value_is = rw (d.value_is, bind_two, zero-mod (2 ^ width v)) refl;
        width_is = refl;
        fits = bit-lt (not (x == 0));
      })

  ctpop-Denotes : Denotes e (ctpop v) (ones u x) u
  unfolding eval width map_some
  ctpop-Denotes =
      let most = ones-le u x in
      record {
        value_is = rw (d.value_is, d.width_is, map_some) refl;
        width_is = d.width_is;
        fits = omega (arith, below_own_pow u);
      }

  ctlz-Denotes : Denotes e (ctlz v) (leading_zeros u x) u
  unfolding eval width map_some
  ctlz-Denotes =
      let most = leading_zeros-le u x in
      record {
        value_is = rw (d.value_is, d.width_is, map_some) refl;
        width_is = d.width_is;
        fits = omega (arith, below_own_pow u);
      }

pub guarded-some : (c : Bool) (a : ℕ) {r : ℕ} → guarded c a ≡ some r → (c ≡ true) × (a ≡ r)
unfolding guarded
guarded-some true a h = (refl, ground arith)
guarded-some false a h = cc

-- The value that the lowering of an operation of one input writes.
unfoldable pub one_value : PcodeOpcode → Value → ℕ → Option Value
one_value Pcode.copy v size = some v
one_value Pcode.cast v size = some v
one_value Pcode.int_z_ext v size = some (cast_value Pcode.int_z_ext v size)
one_value Pcode.int_s_ext v size = some (cast_value Pcode.int_s_ext v size)
one_value Pcode.int_negate v size = unary_value Pcode.int_negate v size
one_value Pcode.int2_comp v size = unary_value Pcode.int2_comp v size
one_value Pcode.bool_negate v size = some (create_not (as_condition v))
one_value Pcode.popcount v size = some (count_value Pcode.popcount v)
one_value Pcode.lzcount v size = some (count_value Pcode.lzcount v)
one_value _ v size = none

-- A word of the output's width is stored as it is.
pub stored-word :
    (e : Env) (value : Value) (y size : ℕ)
    → Denotes e value y (bit_width size)
    → Denotes e (resize value size) y (bit_width size)
stored-word e value y size d =
    stored-Denotes e value y (bit_width size) size d (mod-eq_of_lt d.fits)

not-bit : (x : ℕ) → x ≤ 1 → 2 ^ 1 - 1 - bit (not (x == 0)) ≡ 1 - x
unfolding bit
not-bit zero h = refl
not-bit (suc zero) h = refl
not-bit (suc (suc x)) h = absurd (omega arith)

-- The written value denotes the result, where p-code has one.
pub one_value-Denotes :
    (e : Env) (v : Value) (x u size : ℕ) (opcode : PcodeOpcode) {r : ℕ}
    → 0 < u
    → 0 < bit_width size
    → Denotes e v x u
    → one_meaning opcode u (bit_width size) x ≡ some r
    → (value : Value) × (one_value opcode v size ≡ some value)
      × Denotes e (resize value size) r (bit_width size)
unfolding one_meaning one_value cast_value unary_value count_value
one_value-Denotes e v x u size Pcode.copy {r} hu hw d m =
    let (c, same) = guarded-some (u == bit_width size) x m in
    let small : x < 2 ^ bit_width size = rw (← (==_iff _ _).0 c) d.fits in
    (v, refl, stored-Denotes e v x u size d (mod-eq_of_lt small ∙ same))
one_value-Denotes e v x u size Pcode.cast {r} hu hw d m =
    let (c, same) = guarded-some (u == bit_width size) x m in
    let small : x < 2 ^ bit_width size = rw (← (==_iff _ _).0 c) d.fits in
    (v, refl, stored-Denotes e v x u size d (mod-eq_of_lt small ∙ same))
one_value-Denotes e v x u size Pcode.int_z_ext {r} hu hw d m =
    let (c, same) = guarded-some (leb u (bit_width size)) x m in
    let wide : u ≤ bit_width size = ground (arith, c) in
    (_, refl, rw (← same) (stored-word e _ x size (zext-Denotes e v x u (bit_width size) d wide)))
one_value-Denotes e v x u size Pcode.int_s_ext {r} hu hw d m =
    let (c, same) = guarded-some (leb u (bit_width size)) _ m in
    let wide : u ≤ bit_width size = ground (arith, c) in
    (
      _,
      refl,
      rw (← same) (stored-word e _ _ size (sext-Denotes e v x u hu d (bit_width size) wide)),
    )
one_value-Denotes e v x u size Pcode.int_negate {r} hu hw d m =
    let w = bit_width size in
    let (c, same) = guarded-some (u == w) (2 ^ w - 1 - x) m in
    let small : x < 2 ^ w = rw (← (==_iff _ _).0 c) d.fits in
    let word = resize-Denotes e v x u size d in
    let result = not-Denotes e (resize v size) (x % 2 ^ w) w hw word in
    let eq : 2 ^ w - 1 - x % 2 ^ w ≡ r =
      ap (λ (y : ℕ). 2 ^ w - 1 - y) (mod-eq_of_lt small) ∙ same in
    (_, refl, rw (← eq) (stored-word e _ _ size result))
one_value-Denotes e v x u size Pcode.int2_comp {r} hu hw d m =
    let w = bit_width size in
    let (c, same) = guarded-some (u == w) ((2 ^ w - x) % 2 ^ w) m in
    let small : x < 2 ^ w = rw (← (==_iff _ _).0 c) d.fits in
    let word = resize-Denotes e v x u size d in
    let result = neg-Denotes e (resize v size) (x % 2 ^ w) w hw word in
    let eq : (2 ^ w - x % 2 ^ w) % 2 ^ w ≡ r =
      ap (λ (y : ℕ). (2 ^ w - y) % 2 ^ w) (mod-eq_of_lt small) ∙ same in
    (_, refl, rw (← eq) (stored-word e _ _ size result))
one_value-Denotes e v x u size Pcode.bool_negate {r} hu hw d m =
    let w = bit_width size in
    let (c, same) = guarded-some (u == 8 && (w == 8 && leb x 1)) (1 - x) m in
    let small : x ≤ 1 = ground (arith, c) in
    let wide : 1 < u = ground (arith, c) in
    let test = condition-Denotes e v x u hu d wide in
    let result = not-Denotes e (as_condition v) (bit (not (x == 0))) 1 (omega arith) test in
    let eq : 2 ^ 1 - 1 - bit (not (x == 0)) ≡ r = not-bit x small ∙ same in
    let fits : r < 2 ^ w = below_pow 1 w r hw (rw (← eq) result.fits) in
    (_, refl, stored-Denotes e _ _ 1 size result (rw eq (mod-eq_of_lt fits)))
one_value-Denotes e v x u size Pcode.popcount {r} hu hw d m =
    let (c, same) = guarded-some (ltb u (2 ^ bit_width size)) (ones u x) m in
    let most = ones-le u x in
    let fits : ones u x < 2 ^ bit_width size = ground (arith, c) in
    (_, refl, stored-Denotes e _ _ u size (ctpop-Denotes e v x u hu d) (mod-eq_of_lt fits ∙ same))
one_value-Denotes e v x u size Pcode.lzcount {r} hu hw d m =
    let (c, same) = guarded-some (ltb u (2 ^ bit_width size)) (leading_zeros u x) m in
    let most = leading_zeros-le u x in
    let fits : leading_zeros u x < 2 ^ bit_width size = ground (arith, c) in
    (_, refl, stored-Denotes e _ _ u size (ctlz-Denotes e v x u hu d) (mod-eq_of_lt fits ∙ same))
one_value-Denotes e v x u size _ hu hw d m = cc
