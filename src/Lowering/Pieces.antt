-- ===== src/Lowering/Pieces.antt =====
-- Concatenation, and the operations with a constant second operand.
use not_dec_bin2llvm.Common.{
  ℕ, zero, suc, ◌+◌, ◌*◌, ◌/◌, ◌%◌, ◌^◌, ◌≤◌, ◌<◌, some, false, leb, ◌≡◌, refl, ◌∙◌, sym, ap, arith,
  subst, u64_mod, u32_mod,
}
use native.Mathlib.Nat.{
  mod-eq_of_lt, mod-lt, add-mod-mod, pow-suc, pow-succ', add-mul-mod_self_left, div-add-mod,
  mul-le-mul_right,
}
use not_dec_bin2llvm.Registers.{bit_width}
use not_dec_bin2llvm.Lowering.{add, mul, or, shl, lshr, Value, width, resize, constant}
use not_dec_bin2llvm.Lowering.Operations.{create_zext, piece_value, subpiece_value}
use not_dec_bin2llvm.Lowering.Flags.{ptr_add_value, ptr_sub_value}
use not_dec_bin2llvm.Lowering.Semantics.{Env, eval_binary}
use not_dec_bin2llvm.Lowering.Bits.{shifted-bit_or}
use not_dec_bin2llvm.Lowering.Bounds.{same_fits, quotient-lt}
use not_dec_bin2llvm.Lowering.Values.{
  Denotes, pow_positive, resize-Denotes, stored-Denotes, constant-Denotes, binary-Denotes,
  zext-Denotes,
}
use not_dec_bin2llvm.Lowering.Unary.{below_own_pow, stored-word}

pow_sum : (u v : ℕ) → 2 ^ (u + v) ≡ 2 ^ u * 2 ^ v
pow_sum zero v = let e : 0 + v ≡ v = omega arith in ap (λ (k : ℕ). 2 ^ k) e ∙ omega arith
pow_sum (suc u) v =
    let e : suc u + v ≡ suc (u + v) = omega arith in
    let f : 2 ^ (suc u + v) ≡ 2 ^ suc (u + v) = ap (λ (k : ℕ). 2 ^ k) e in
    let g : 2 ^ suc u * 2 ^ v ≡ 2 * 2 ^ u * 2 ^ v = ap (λ (k : ℕ). k * 2 ^ v) (pow-succ' 2 u) in
    let h : 2 * 2 ^ u * 2 ^ v ≡ 2 * (2 ^ u * 2 ^ v) = grind arith in
    omega (arith, pow-suc 2 (u + v), pow_sum u v)

small_constant : (e : Env) (w n : ℕ) → n < 2 ^ w → Denotes e (constant w n) n w
small_constant e w n small =
    subst (λ (m : ℕ). Denotes e (constant w n) m w) (mod-eq_of_lt small) (constant-Denotes e w n)

-- An operand of the output's width is not changed.
same_width :
    (e : Env) (a : Value) (x u size : ℕ)
    → Denotes e a x u
    → u ≡ bit_width size
    → Denotes e (resize a size) x (bit_width size)
same_width e a x u size p same =
    subst (λ (m : ℕ). Denotes e (resize a size) m (bit_width size))
      (mod-eq_of_lt (same_fits u (bit_width size) x same p.fits)) (resize-Denotes e a x u size p)

-- A high and a low word side by side are a word.
joined-lt : (u v x y : ℕ) → x < 2 ^ u → y < 2 ^ v → x * 2 ^ v + y < 2 ^ (u + v)
joined-lt u v x y hx hy =
    let most : suc x * 2 ^ v ≤ 2 ^ u * 2 ^ v = mul-le-mul_right (2 ^ v) hx in
    let one_more : suc x * 2 ^ v ≡ x * 2 ^ v + 2 ^ v = grind arith in omega (arith, pow_sum u v)

module _ (e : Env) (a b : Value) (x y u v size second : ℕ) (p : Denotes e a x u)
    (q : Denotes e b y v) where
  pub piece_stored :
      0 < u
      → v ≡ bit_width second
      → u + v ≡ bit_width size
      → Denotes e (resize (piece_value a b size second) size) (x * 2 ^ v + y) (bit_width size)
  unfolding piece_value eval_binary
  piece_stored hu hv sum =
      let w = bit_width size in
      let room = below_own_pow w in
      let joined : x * 2 ^ v + y < 2 ^ w = rw (← sum) (joined-lt u v x y p.fits q.fits) in
      let high = zext-Denotes e a x u w p (omega arith) in
      let low = zext-Denotes e b y v w q (omega arith) in
      let amount : Denotes e (constant w (bit_width second)) v w =
        rw (← hv) (small_constant e w v (omega arith)) in
      let kept : x * 2 ^ v % 2 ^ w ≡ x * 2 ^ v = mod-eq_of_lt (omega arith) in
      let short : leb w v ≡ false = ground arith in
      let moved =
        binary-Denotes e (create_zext a w) (constant w (bit_width second)) x v w high amount shl
          {r = x * 2 ^ v} (rw (short, kept) refl) (omega arith) in
      stored-word e (piece_value a b size second) (x * 2 ^ v + y) size (
        binary-Denotes e _ (create_zext b w) (x * 2 ^ v) y w moved low or
          (ap some (shifted-bit_or v y x q.fits)) joined)

module _ (e : Env) (a : Value) (x u size n : ℕ) (p : Denotes e a x u) where
  pub subpiece_stored :
      u < u32_mod
      → n * 8 < u
      → Denotes e
          (resize (subpiece_value a n) size)
          (x / 2 ^ (n * 8) % 2 ^ bit_width size)
          (bit_width size)
  unfolding subpiece_value eval_binary
  subpiece_stored narrow inside =
      let room = below_own_pow u in
      let kept : n * 8 % u64_mod ≡ n * 8 = mod-eq_of_lt (omega arith) in
      let amount : Denotes e (constant (width a) (n * 8 % u64_mod)) (n * 8) u =
        rw (p.width_is, kept) (small_constant e u (n * 8) (omega arith)) in
      let low : leb u (n * 8) ≡ false = ground arith in
      let shifted =
        binary-Denotes e a (constant (width a) (n * 8 % u64_mod)) x (n * 8) u p amount lshr
          {r = x / 2 ^ (n * 8)} (rw low refl) (quotient-lt u x (2 ^ (n * 8)) p.fits) in
      stored-Denotes e (subpiece_value a n) (x / 2 ^ (n * 8)) u size shifted refl

  pub ptr_sub_stored :
      u ≡ bit_width size
      → Denotes e
          (resize (ptr_sub_value a n size) size)
          ((x + n) % 2 ^ bit_width size)
          (bit_width size)
  unfolding ptr_sub_value eval_binary
  ptr_sub_stored same =
      let w = bit_width size in
      let base = same_width e a x u size p same in
      let amount : Denotes e (constant (width (resize a size)) n) (n % 2 ^ w) w =
        rw base.width_is (constant-Denotes e w n) in
      stored-word e (ptr_sub_value a n size) ((x + n) % 2 ^ w) size (
        binary-Denotes e (resize a size) (constant (width (resize a size)) n) x (n % 2 ^ w) w base
          amount add (ap some (add-mod-mod x n (2 ^ w))) (mod-lt (x + n) (pow_positive w)))

spread : (x y m q r : ℕ) → x + y * (m * q + r) ≡ x + y * r + m * (y * q)
spread x y m q r = grind arith

-- A sum of products, where a factor is cut to the word first.
cut_factor : (x y n m : ℕ) → (x + y * (n % m) % m) % m ≡ (x + y * n) % m
cut_factor x y n m =
    let split : m * (n / m) + n % m ≡ n = div-add-mod n m in
    let whole : x + y * n ≡ x + y * (n % m) + m * (y * (n / m)) =
      ap (λ (t : ℕ). x + y * t) (sym split) ∙ spread x y m (n / m) (n % m) in
    add-mod-mod x (y * (n % m)) m
    ∙ sym (ap (λ (t : ℕ). t % m) whole ∙ add-mul-mod_self_left (x + y * (n % m)) m (y * (n / m)))

module _ (e : Env) (a b : Value) (x y u v size n : ℕ) (p : Denotes e a x u)
    (q : Denotes e b y v) where
  pub ptr_add_stored :
      u ≡ bit_width size
      → v ≡ bit_width size
      → Denotes e
          (resize (ptr_add_value a b n size) size)
          ((x + y * n) % 2 ^ bit_width size)
          (bit_width size)
  unfolding ptr_add_value eval_binary
  ptr_add_stored hu hv =
      let w = bit_width size in
      let base = same_width e a x u size p hu in
      let index = same_width e b y v size q hv in
      let scale : Denotes e (constant (width (resize a size)) n) (n % 2 ^ w) w =
        rw base.width_is (constant-Denotes e w n) in
      let product =
        binary-Denotes e (resize b size) (constant (width (resize a size)) n) y (n % 2 ^ w) w index
          scale mul {r = y * (n % 2 ^ w) % 2 ^ w} refl (mod-lt _ (pow_positive w)) in
      stored-word e (ptr_add_value a b n size) ((x + y * n) % 2 ^ w) size (
        binary-Denotes e (resize a size) _ x _ w base product add
          (ap some (cut_factor x y n (2 ^ w))) (mod-lt (x + y * n) (pow_positive w)))
