-- ===== src/Lowering/Semantics.antt =====
-- What the values mean in LLVM's language reference. `none` stands for poison and for undefined
-- behaviour, which the result of an instruction keeps.
use Prim.Native.Nat.{bit_and, bit_or, bit_xor}
use not_dec_bin2llvm.Common.{
  ℕ, zero, suc, ◌+◌, ◌-◌, ◌*◌, ◌/◌, ◌%◌, ◌^◌, Option, none, some, Bool, true, false, not, ltb, leb,
  ◌==◌, if◌then◌else◌, ◌&&◌, ◌||◌, Text,
}
use not_dec_bin2llvm.Lowering.{
  BinaryOp, add, sub, mul, udiv, sdiv, urem, srem, and, or, xor, shl, lshr, ashr, Predicate, eq, ne,
  ult, ule, slt, sle, Overflow, uadd, sadd, ssub, Value, int_const, function_address, loaded,
  binary, icmp, zext, sext, trunc, ctpop, ctlz, overflow_bit, width,
}

-- Words of `w` bits as signed numbers: the sign, the magnitude, and the word of both.
unfoldable pub is_neg : ℕ → ℕ → Bool
is_neg w a = leb (2 ^ (w - 1)) a

unfoldable pub magnitude : ℕ → ℕ → ℕ
unfolding is_neg
magnitude w a = if is_neg w a then 2 ^ w - a else a

unfoldable pub signed_word : ℕ → Bool → ℕ → ℕ
signed_word w negative m = if negative then (2 ^ w - m) % 2 ^ w else m

unfoldable pub differs : Bool → Bool → Bool
differs true b = not b
differs false b = b

unfoldable pub signed_less : ℕ → ℕ → ℕ → Bool
unfolding is_neg
signed_less w a b = if is_neg w a then not (is_neg w b) || ltb a b else not (is_neg w b) && ltb a b

unfoldable pub bit : Bool → ℕ
bit true = 1
bit false = 0

unfoldable pub floor_shift : ℕ → ℕ → ℕ → ℕ
unfolding is_neg
floor_shift w a n = if is_neg w a then 2 ^ w - 1 - (2 ^ w - 1 - a) / 2 ^ n else a / 2 ^ n

unfoldable pub eval_binary : BinaryOp → ℕ → ℕ → ℕ → Option ℕ
unfolding magnitude signed_word differs is_neg floor_shift
eval_binary add w a b = some ((a + b) % 2 ^ w)
eval_binary sub w a b = some ((a + (2 ^ w - b)) % 2 ^ w)
eval_binary mul w a b = some (a * b % 2 ^ w)
eval_binary udiv w a b = if b == 0 then none else some (a / b)
eval_binary sdiv w a b =
    if b == 0 || (a == 2 ^ (w - 1) && b == 2 ^ w - 1)
    then none
    else some (signed_word w (differs (is_neg w a) (is_neg w b)) (magnitude w a / magnitude w b))
eval_binary urem w a b = if b == 0 then none else some (a % b)
eval_binary srem w a b =
    if b == 0 || (a == 2 ^ (w - 1) && b == 2 ^ w - 1)
    then none
    else some (signed_word w (is_neg w a) (magnitude w a % magnitude w b))
eval_binary and w a b = some (bit_and a b)
eval_binary or w a b = some (bit_or a b)
eval_binary xor w a b = some (bit_xor a b)
eval_binary shl w a b = if leb w b then none else some (a * 2 ^ b % 2 ^ w)
eval_binary lshr w a b = if leb w b then none else some (a / 2 ^ b)
eval_binary ashr w a b = if leb w b then none else some (floor_shift w a b)

unfoldable pub eval_icmp : Predicate → ℕ → ℕ → ℕ → Bool
unfolding signed_less
eval_icmp eq w a b = a == b
eval_icmp ne w a b = not (a == b)
eval_icmp ult w a b = ltb a b
eval_icmp ule w a b = leb a b
eval_icmp slt w a b = signed_less w a b
eval_icmp sle w a b = not (signed_less w b a)

-- The exact sum or difference lies outside the numbers of the type.
unfoldable pub eval_overflow : Overflow → ℕ → ℕ → ℕ → Bool
unfolding is_neg differs
eval_overflow uadd w a b = leb (2 ^ w) (a + b)
eval_overflow sadd w a b =
    not (differs (is_neg w a) (is_neg w b)) && differs (is_neg w a) (is_neg w ((a + b) % 2 ^ w))
eval_overflow ssub w a b =
    differs (is_neg w a) (is_neg w b) && differs (is_neg w a) (is_neg w ((a + (2 ^ w - b)) % 2 ^ w))

-- The number of ones among the lowest `n` bits, and of zeros above the highest one.
unfoldable pub ones : ℕ → ℕ → ℕ
ones zero a = 0
ones (suc n) a = a % 2 + ones n (a / 2)

unfoldable pub leading_zeros : ℕ → ℕ → ℕ
leading_zeros zero a = 0
leading_zeros (suc n) a = let rest = leading_zeros n a in if leb (2 ^ n) a then 0 else suc rest

-- What the loads and calls of the block returned, and where the linker put the functions.
pub record Env : Type 0 where
  pub result : ℕ → Option ℕ
  pub address_of : Text → ℕ

unfoldable pub map_some : (ℕ → ℕ) → Option ℕ → Option ℕ
map_some f none = none
map_some f (some a) = some (f a)

unfoldable pub bind_two : (ℕ → ℕ → Option ℕ) → Option ℕ → Option ℕ → Option ℕ
bind_two f (some a) (some b) = f a b
bind_two f _ _ = none

-- The value of an instruction. An extension to fewer bits, or a truncation to more, is not one.
unfoldable pub eval : Env → Value → Option ℕ
unfolding width bind_two map_some eval_binary eval_icmp eval_overflow bit is_neg ones leading_zeros
eval e (int_const w n) = some n
eval e (function_address name w) = some (e.address_of name % 2 ^ w)
eval e (loaded n w) = e.result n
eval e (binary op a b) = bind_two (eval_binary op (width a)) (eval e a) (eval e b)
eval e (icmp p a b) = bind_two (λ x y. some (bit (eval_icmp p (width a) x y))) (eval e a) (eval e b)
eval e (zext a w) = if ltb w (width a) then none else eval e a
eval e (sext a w) =
    if ltb w (width a)
    then none
    else map_some (λ x. if is_neg (width a) x then x + (2 ^ w - 2 ^ width a) else x) (eval e a)
eval e (trunc a w) = if ltb (width a) w then none else map_some (λ x. x % 2 ^ w) (eval e a)
eval e (ctpop a) = map_some (ones (width a)) (eval e a)
eval e (ctlz a) = map_some (leading_zeros (width a)) (eval e a)
eval e (overflow_bit o a b) =
    bind_two (λ x y. some (bit (eval_overflow o (width a) x y))) (eval e a) (eval e b)
