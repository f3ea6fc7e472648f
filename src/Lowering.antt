-- ===== src/Lowering.antt =====
-- lib/PcodeToLLVM.cpp: the LLVM values that the lowering of one block builds, and how it reads and
-- writes varnodes.
pub mod Operations
pub mod Flags
pub mod Dispatch
pub mod Semantics
pub mod Meaning
pub mod Words
pub mod Bits
pub mod Bounds
pub mod Values
pub mod Unary
pub mod Pieces
pub mod Pairs
pub mod TwoValues
pub mod Results
pub mod Memory
pub mod Steps
pub mod Inputs
pub mod Refinement
pub mod Forms
pub mod Rejections
pub mod Typing
mod Examples
use not_dec_bin2llvm.Common.{
  ℕ, ◌+◌, ◌%◌, ◌^◌, List, [], ◌∷◌, ◌++◌, Option, none, some, Bool, true, false, ltb, ◌==◌,
  if◌then◌else◌, ◌&&◌, Text, codes, text_beq, length,
}
use not_dec_bin2llvm.Numbers.{hex_text, dec_text}
use not_dec_bin2llvm.Pcode.{PcodeOpcode}
use not_dec_bin2llvm.Registers.{RegisterStorage, RegisterAccess, bit_width, has_register}

-- `VarnodeView`.
pub record VarnodeView : Type 0 where
  pub space : Text
  pub offset : ℕ
  pub size : ℕ
  pub is_register : Bool
  pub register_name : Option Text

-- `PcodeOpView`.
pub record PcodeOpView : Type 0 where
  pub address : ℕ
  pub instruction_size : ℕ
  pub mnemonic : Text
  pub body : Text
  pub opcode : PcodeOpcode
  pub opcode_name : Text
  pub output : Option VarnodeView
  pub inputs : List VarnodeView

-- The instructions of LLVM that the builder is asked for.
pub data BinaryOp : Type 0 where
  add sub mul udiv sdiv urem srem : BinaryOp
  and or xor shl lshr ashr : BinaryOp

pub data Predicate : Type 0 where
  eq ne ult ule slt sle : Predicate

-- The intrinsics with an overflow bit.
pub data Overflow : Type 0 where
  uadd sadd ssub : Overflow

-- An integer value of LLVM. A width is a number of bits; `loaded n size` is what the action number `n`
-- of the block returns, and `function_address` the `ptrtoint` of a function.
pub data Value : Type 0 where
  int_const : ℕ → ℕ → Value
  function_address : Text → ℕ → Value
  loaded : ℕ → ℕ → Value
  binary : BinaryOp → Value → Value → Value
  icmp : Predicate → Value → Value → Value
  zext : Value → ℕ → Value
  sext : Value → ℕ → Value
  trunc : Value → ℕ → Value
  ctpop : Value → Value
  ctlz : Value → Value
  overflow_bit : Overflow → Value → Value → Value

-- `getType()->getIntegerBitWidth()`.
unfoldable pub width : Value → ℕ
width (int_const w n) = w
width (function_address name w) = w
width (loaded n w) = w
width (binary op a b) = width a
width (icmp p a b) = 1
width (zext a w) = w
width (sext a w) = w
width (trunc a w) = w
width (ctpop a) = width a
width (ctlz a) = width a
width (overflow_bit o a b) = 1

-- What the block does in order: loads, stores, and calls of helpers.
pub data Action : Type 0 where
  ram_load : ℕ → ℕ → Action
  ram_store : ℕ → Value → Action
  pointer_load : ℕ → Value → Action
  pointer_store : Value → Value → Action
  register_read : RegisterAccess → Action
  register_write : RegisterAccess → Value → Action
  unknown_value : ℕ → Action
  helper_call : Text → List Value → Action

-- The members of the lowering that an operation within a block changes.
pub record LoweringState : Type 0 where
  pub values : List (Text × Value)
  pub source_ram : List (Text × ℕ)
  pub actions : List Action

-- What it reads of the module and of its configuration: the pointer size, the register globals, and
-- the functions at known code addresses.
pub record Context : Type 0 where
  pub pointer_byte_size : ℕ
  pub registers : Option RegisterStorage
  pub code_address_targets : ℕ → Option Text

-- `varnodeKey`.
unfoldable pub varnode_key : VarnodeView → Text
unfolding hex_text dec_text
varnode_key v = v.space ++ (codes ":" ++ (hex_text v.offset ++ (codes ":" ++ dec_text v.size)))

-- `std::unordered_map` as a list with the newest pair of a key first.
unfoldable pub look {ℓ} : {A : Type ℓ} → Text → List (Text × A) → Option A
unfolding text_beq
look key [] = none
look key ((k, a) ∷ m) = if text_beq k key then some a else look key m

unfoldable pub forget {ℓ} : {A : Type ℓ} → Text → List (Text × A) → List (Text × A)
unfolding text_beq
forget key [] = []
forget key ((k, a) ∷ m) = if text_beq k key then forget key m else (k, a) ∷ forget key m

-- `resize`.
unfoldable pub resize : Value → ℕ → Value
unfolding width bit_width
resize value byte_size =
    if width value == bit_width byte_size
    then value
    else if ltb (width value) (bit_width byte_size)
    then zext value (bit_width byte_size)
    else trunc value (bit_width byte_size)

-- An action, and its result as a value of `w` bits.
unfoldable pub emit : LoweringState → Action → ℕ → LoweringState × Value
emit s action w = (record s { actions = s.actions ++ action ∷ [] }, loaded (length s.actions) w)

unfoldable pub constant : ℕ → ℕ → Value
constant w n = int_const w (n % 2 ^ w)

-- A constant of `read`: the address of a known function becomes a use of it.
unfoldable pub read_const : Context → VarnodeView → Value
unfolding constant bit_width
read_const c v = elim (c.code_address_targets v.offset) [
  | none ↦ constant (bit_width v.size) v.offset
  | some name ↦
      if v.size == c.pointer_byte_size
      then function_address name (bit_width v.size)
      else constant (bit_width v.size) v.offset
]

unfoldable pub access_of : VarnodeView → RegisterAccess
access_of v = record { space = v.space; offset = v.offset; size = v.size; name = v.register_name }

-- Whether the varnode is kept in a register global.
unfoldable pub is_stored_register : Context → VarnodeView → Bool
unfolding access_of has_register
is_stored_register c v =
    v.is_register
    && (elim c.registers [ none ↦ false | some storage ↦ has_register storage (access_of v) ])

-- `read` of what is neither constant nor cached.
unfoldable pub read_storage : Context → LoweringState → VarnodeView → LoweringState × Value
unfolding emit is_stored_register access_of bit_width
read_storage c s v =
    if text_beq v.space (codes "ram")
    then emit s (ram_load v.size v.offset) (bit_width v.size)
    else if is_stored_register c v
    then emit s (register_read (access_of v)) (bit_width v.size)
    else emit s (unknown_value v.size) (bit_width v.size)

-- `read` within one block, where every cached value is visible.
unfoldable pub read_varnode : Context → LoweringState → VarnodeView → LoweringState × Value
unfolding read_const varnode_key look resize read_storage
read_varnode c s v =
    if text_beq v.space (codes "const")
    then (s, read_const c v)
    else elim (look (varnode_key v) s.values) [
      | none ↦ read_storage c s v
      | some value ↦ (s, resize value v.size)
    ]

-- The places of a written value, behind the reset of its source.
unfoldable pub write_resized : Context → LoweringState → VarnodeView → Value → LoweringState
unfolding is_stored_register access_of emit varnode_key
write_resized c s v value =
    if is_stored_register c v
    then (emit s (register_write (access_of v) value) 0).0
    else if text_beq v.space (codes "ram")
    then (emit s (ram_store v.offset value) 0).0
    else record s { values = (varnode_key v, value) ∷ s.values }

-- `write`.
unfoldable pub write_varnode : Context → LoweringState → VarnodeView → Value → LoweringState
unfolding forget varnode_key write_resized resize
write_varnode c s v value =
    write_resized c (record s { source_ram = forget (varnode_key v) s.source_ram }) v
      (resize value v.size)

-- `sourceRam` and `setSourceRam`.
unfoldable pub source_ram_of : LoweringState → VarnodeView → Option ℕ
unfolding look varnode_key
source_ram_of s v =
    if text_beq v.space (codes "ram") then some v.offset else look (varnode_key v) s.source_ram

unfoldable pub set_source_ram : LoweringState → VarnodeView → Option ℕ → LoweringState
unfolding forget varnode_key
set_source_ram s v none = record s { source_ram = forget (varnode_key v) s.source_ram }
set_source_ram s v (some source) = record s { source_ram = (varnode_key v, source) ∷ s.source_ram }
