-- ===== src/Lowering/Pairs.antt =====
-- Operations of two operands: the lowered value denotes what p-code says.
use Prim.Native.Nat.{bit_and, bit_or, bit_xor}
use not_dec_bin2llvm.Common.{
  ℕ, zero, suc, ◌+◌, ◌*◌, ◌%◌, ◌^◌, ◌≤◌, ◌<◌, some, Bool, not, ◌==◌, ◌≡◌, refl, ◌∙◌, arith, max,
}
use native.Mathlib.Nat.{mod-eq_of_lt}
use not_dec_bin2llvm.Registers.{bit_width}
use not_dec_bin2llvm.Lowering.{BinaryOp, Predicate, Overflow, Value, binary, width, resize}
use not_dec_bin2llvm.Lowering.Operations.{binary_value, compare_value}
use not_dec_bin2llvm.Lowering.Flags.{as_condition, overflow_value, bool_value}
use not_dec_bin2llvm.Lowering.Semantics.{
  Env, eval, eval_binary, eval_icmp, eval_overflow, bit, bind_two,
}
use not_dec_bin2llvm.Lowering.Values.{
  Denotes, below_pow, resize-Denotes, stored-Denotes, binary-Denotes,
}
use not_dec_bin2llvm.Lowering.Unary.{condition-Denotes, bit-lt, stored-word}

module _ (e : Env) (a b : Value) (x y u v : ℕ) (p : Denotes e a x u) (q : Denotes e b y v) where
  -- Both operands fit the output, as does the result.
  pub binary_stored :
      (op : BinaryOp) (size : ℕ) {r : ℕ}
      → x < 2 ^ bit_width size
      → y < 2 ^ bit_width size
      → eval_binary op (bit_width size) x y ≡ some r
      → r < 2 ^ bit_width size
      → Denotes e (resize (binary_value op a b size) size) r (bit_width size)
  unfolding binary_value
  binary_stored op size hx hy found small =
      let w = bit_width size in
      let p' : Denotes e (resize a size) x w =
        rw (← mod-eq_of_lt hx) (resize-Denotes e a x u size p) in
      let q' : Denotes e (resize b size) y w =
        rw (← mod-eq_of_lt hy) (resize-Denotes e b y v size q) in
      stored-word e _ _ size
        (binary-Denotes e (resize a size) (resize b size) x y w p' q' op found small)

  pub bit_stored :
      (value : Value) (size : ℕ) (t : Bool) {r : ℕ}
      → bit_width size ≡ 8
      → eval e value ≡ some (bit t)
      → width value ≡ 1
      → bit t ≡ r
      → Denotes e (resize value size) r (bit_width size)
  bit_stored value size t byte found one same =
      let small : bit t < 2 = bit-lt t in
      let fits : bit t < 2 ^ bit_width size = rw byte (omega arith) in
      stored-Denotes e value (bit t) 1 size
        (record { value_is = found; width_is = one; fits = small }) (mod-eq_of_lt fits ∙ same)

  pub compare_stored :
      (test : Predicate) (in_size size : ℕ) (t : Bool) {r : ℕ}
      → bit_width size ≡ 8
      → u ≡ bit_width in_size
      → v ≡ bit_width in_size
      → eval_icmp test u x y ≡ t
      → bit t ≡ r
      → Denotes e (resize (compare_value test a b in_size) size) r (bit_width size)
  unfolding compare_value eval bind_two width
  compare_stored test in_size size t byte hu hv found same =
      let w = bit_width in_size in
      let hx : x < 2 ^ w = rw (← hu) p.fits in
      let hy : y < 2 ^ w = rw (← hv) q.fits in
      let p' : Denotes e (resize a in_size) x w =
        rw (← mod-eq_of_lt hx) (resize-Denotes e a x u in_size p) in
      let q' : Denotes e (resize b in_size) y w =
        rw (← mod-eq_of_lt hy) (resize-Denotes e b y v in_size q) in
      bit_stored (compare_value test a b in_size) size t byte
        (rw (p'.value_is, q'.value_is, p'.width_is, bind_two, ← hu, found) refl) refl same

  pub overflow_stored :
      (kind : Overflow) (in_size size : ℕ) (t : Bool) {r : ℕ}
      → bit_width size ≡ 8
      → u ≡ bit_width in_size
      → v ≡ bit_width in_size
      → eval_overflow kind u x y ≡ t
      → bit t ≡ r
      → Denotes e (resize (overflow_value kind a b in_size) size) r (bit_width size)
  unfolding overflow_value eval bind_two width
  overflow_stored kind in_size size t byte hu hv found same =
      let w = bit_width in_size in
      let hy : y < 2 ^ w = rw (← hv) q.fits in
      let q' : Denotes e (resize b in_size) y w =
        rw (← mod-eq_of_lt hy) (resize-Denotes e b y v in_size q) in
      bit_stored (overflow_value kind a b in_size) size t byte
        (rw (p.value_is, q'.value_is, p.width_is, bind_two, found) refl) refl same

-- Booleans of p-code, by their conditions.
pub and_bits : (x y : ℕ) → x ≤ 1 → y ≤ 1 → bit_and (bit (not (x == 0))) (bit (not (y == 0))) ≡ x * y
unfolding bit
and_bits zero zero hx hy = refl
and_bits zero (suc zero) hx hy = refl
and_bits (suc zero) zero hx hy = refl
and_bits (suc zero) (suc zero) hx hy = refl
and_bits (suc (suc x)) y hx hy = absurd (omega arith)
and_bits x (suc (suc y)) hx hy = absurd (omega arith)

pub or_bits : (x y : ℕ) → x ≤ 1 → y ≤ 1 → bit_or (bit (not (x == 0))) (bit (not (y == 0))) ≡ max x y
unfolding bit
or_bits zero zero hx hy = refl
or_bits zero (suc zero) hx hy = refl
or_bits (suc zero) zero hx hy = refl
or_bits (suc zero) (suc zero) hx hy = refl
or_bits (suc (suc x)) y hx hy = absurd (omega arith)
or_bits x (suc (suc y)) hx hy = absurd (omega arith)

pub xor_bits :
    (x y : ℕ) → x ≤ 1 → y ≤ 1 → bit_xor (bit (not (x == 0))) (bit (not (y == 0))) ≡ (x + y) % 2
unfolding bit
xor_bits zero zero hx hy = refl
xor_bits zero (suc zero) hx hy = refl
xor_bits (suc zero) zero hx hy = refl
xor_bits (suc zero) (suc zero) hx hy = refl
xor_bits (suc (suc x)) y hx hy = absurd (omega arith)
xor_bits x (suc (suc y)) hx hy = absurd (omega arith)

module _ (e : Env) (a b : Value) (x y u v : ℕ) (p : Denotes e a x u) (q : Denotes e b y v) where
  pub bool_stored :
      (op : BinaryOp) (size : ℕ) {r : ℕ}
      → 1 < u
      → 1 < v
      → 0 < bit_width size
      → eval_binary op 1 (bit (not (x == 0))) (bit (not (y == 0))) ≡ some r
      → r < 2 ^ 1
      → Denotes e (resize (bool_value op a b) size) r (bit_width size)
  unfolding bool_value
  bool_stored op size {r} hu hv hw found small =
      let p' = condition-Denotes e a x u (omega arith) p hu in
      let q' = condition-Denotes e b y v (omega arith) q hv in
      let fits : r < 2 ^ bit_width size = below_pow 1 (bit_width size) r hw small in
      stored-Denotes e (binary op (as_condition a) (as_condition b)) r 1 size
        (binary-Denotes e (as_condition a) (as_condition b) _ _ 1 p' q' op found small)
        (mod-eq_of_lt fits)
