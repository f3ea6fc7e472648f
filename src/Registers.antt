-- ===== src/Registers.antt =====
-- lib/RegisterStorage.cpp: overlapping registers share one backing global, and an access to a part of
-- it is a slice of its bits. LLVM's builder and its values are not modelled: a read or a write is the
-- instruction that the code asks the builder for.
pub mod Order
pub mod Units
pub mod Coverage
pub mod Access
pub mod Slices
pub mod Names
mod Examples
use not_dec_bin2llvm.Common.{
  ℕ, zero, suc, ◌+◌, ◌-◌, ◌*◌, ◌/◌, ◌%◌, ◌^◌, min, max, List, [], ◌∷◌, ◌++◌, map, Option, none,
  some, Bool, true, false, not, ltb, leb, ◌==◌, if◌then◌else◌, ◌&&◌, ◌||◌, Text, codes, is_empty,
  text_beq, u64_mod, u32_mod, add64, sub64, keep_if,
}
use not_dec_bin2llvm.Numbers.{hex_text, dec_text}

-- `RegisterInfo`, what the architecture declares.
pub record RegisterInfo : Type 0 where
  pub space : Text
  pub offset : ℕ
  pub size : ℕ
  pub name : Text

-- `RegisterAccess`.
pub record RegisterAccess : Type 0 where
  pub space : Text
  pub offset : ℕ
  pub size : ℕ
  pub name : Option Text

-- `RegisterUnit`, less its LLVM global and metadata node.
pub record RegisterUnit : Type 0 where
  pub space : Text
  pub offset : ℕ
  pub size : ℕ
  pub name : Text

-- `RegisterStorage`.
pub record RegisterStorage : Type 0 where
  pub units : List RegisterUnit
  pub is_big_endian : Bool

-- `unsigned` arithmetic.
unfoldable pub bit_width : ℕ → ℕ
bit_width byte_size = if byte_size == 0 then 1 else byte_size * 8 % u32_mod

unfoldable pub is_digit : ℕ → Bool
is_digit c = leb b'0' c && leb c b'9'

-- `std::isalnum` of the C locale, and the three other characters that are kept.
unfoldable pub is_name_byte : ℕ → Bool
unfolding is_digit
is_name_byte c =
    (is_digit c || ((leb b'a' c && leb c b'z') || (leb b'A' c && leb c b'Z')))
    || (c == b'_' || (c == b'$' || c == b'.'))

unfoldable pub clean_byte : ℕ → ℕ
unfolding is_name_byte
clean_byte c = if is_name_byte c then c else b'_'

unfoldable pub clean_bytes : Text → Text
unfolding clean_byte
clean_bytes [] = []
clean_bytes (c ∷ s) = clean_byte c ∷ clean_bytes s

-- `result.insert(result.begin(), '_')` before a digit.
unfoldable pub guard_digit : Text → Text
unfolding is_digit
guard_digit [] = []
guard_digit (c ∷ s) = if is_digit c then b'_' ∷ c ∷ s else c ∷ s

unfoldable pub sanitize_name : Text → Text
unfolding clean_bytes guard_digit
sanitize_name name = guard_digit (clean_bytes name)

unfoldable pub fallback_name : Text → ℕ → ℕ → Text
unfolding sanitize_name
fallback_name space offset size =
    codes "notdec_reg_"
    ++ (sanitize_name space ++ (codes "_" ++ (hex_text offset ++ (codes "_" ++ dec_text size))))

unfoldable pub overlaps : ℕ → ℕ → ℕ → ℕ → Bool
overlaps lhs_offset lhs_size rhs_offset rhs_size =
    ltb lhs_offset (add64 rhs_offset rhs_size) && ltb rhs_offset (add64 lhs_offset lhs_size)

-- The `remove_if` of the constructor.
unfoldable pub is_declared : RegisterInfo → Bool
is_declared reg = not (is_empty reg.space || reg.size == 0)

-- `std::string`'s `operator<`.
unfoldable pub text_ltb : Text → Text → Bool
text_ltb [] [] = false
text_ltb [] (b ∷ t) = true
text_ltb (a ∷ s) [] = false
text_ltb (a ∷ s) (b ∷ t) = if ltb a b then true else if ltb b a then false else text_ltb s t

-- The comparison of the `std::sort`: larger registers come first at an offset.
unfoldable pub register_before : RegisterInfo → RegisterInfo → Bool
unfolding text_ltb text_beq
register_before lhs rhs =
    if not (text_beq lhs.space rhs.space)
    then text_ltb lhs.space rhs.space
    else if not (lhs.offset == rhs.offset)
    then ltb lhs.offset rhs.offset
    else ltb rhs.size lhs.size

unfoldable pub insert_register : RegisterInfo → List RegisterInfo → List RegisterInfo
insert_register reg [] = reg ∷ []
insert_register reg (r ∷ rs) =
    if register_before r reg then r ∷ insert_register reg rs else reg ∷ r ∷ rs

-- Registers with the same space, offset and size come in no specified order in the source; here
-- they keep the given one.
unfoldable pub sort_registers : List RegisterInfo → List RegisterInfo
sort_registers [] = []
sort_registers (reg ∷ regs) = insert_register reg (sort_registers regs)

unfoldable pub merge_unit : RegisterUnit → RegisterInfo → RegisterUnit
merge_unit unit reg = record unit {
  offset = min unit.offset reg.offset;
  size =
      sub64 (max (add64 unit.offset unit.size) (add64 reg.offset reg.size))
        (min unit.offset reg.offset)
      % u32_mod;
}

unfoldable pub takes_register : RegisterUnit → RegisterInfo → Bool
takes_register unit reg =
    text_beq unit.space reg.space && overlaps unit.offset unit.size reg.offset reg.size

-- The first unit that overlaps the register takes it, or it becomes a unit at the end.
unfoldable pub place_register : List RegisterUnit → RegisterInfo → List RegisterUnit
place_register [] reg =
    record { space = reg.space; offset = reg.offset; size = reg.size; name = reg.name } ∷ []
place_register (unit ∷ units) reg =
    if takes_register unit reg then merge_unit unit reg ∷ units else unit ∷ place_register units reg

unfoldable pub place_registers : List RegisterUnit → List RegisterInfo → List RegisterUnit
place_registers units [] = units
place_registers units (reg ∷ regs) = place_registers (place_register units reg) regs

-- The name of the first register that is exactly the unit and has a name, or the unit's own.
unfoldable pub unit_name : List RegisterInfo → RegisterUnit → Text
unfolding text_beq fallback_name
unit_name [] unit =
    if is_empty unit.name then fallback_name unit.space unit.offset unit.size else unit.name
unit_name (reg ∷ regs) unit =
    if text_beq reg.space unit.space
      && (reg.offset == unit.offset && (reg.size == unit.size && not (is_empty reg.name)))
    then reg.name
    else unit_name regs unit

unfoldable pub name_units : List RegisterInfo → List RegisterUnit → List RegisterUnit
name_units regs [] = []
name_units regs (unit ∷ units) = record unit { name = unit_name regs unit } ∷ name_units regs units

-- The constructor.
unfoldable pub sorted_registers : List RegisterInfo → List RegisterInfo
sorted_registers registers = sort_registers (keep_if is_declared registers)

unfoldable pub register_storage : List RegisterInfo → Bool → RegisterStorage
register_storage registers is_big_endian = record {
  units = name_units (sorted_registers registers) (place_registers [] (sorted_registers registers));
  is_big_endian = is_big_endian;
}

unfoldable pub holds_access : RegisterUnit → RegisterAccess → Bool
unfolding text_beq
holds_access unit access =
    text_beq unit.space access.space
    && (leb unit.offset access.offset
        && leb (add64 access.offset access.size) (add64 unit.offset unit.size))

unfoldable pub find_unit : List RegisterUnit → RegisterAccess → Option RegisterUnit
find_unit [] access = none
find_unit (unit ∷ units) access =
    if holds_access unit access then some unit else find_unit units access

unfoldable pub unit_for : RegisterStorage → RegisterAccess → Option RegisterUnit
unit_for storage access = find_unit storage.units access

unfoldable pub has_register : RegisterStorage → RegisterAccess → Bool
has_register storage access = elim (unit_for storage access) [ none ↦ false | some unit ↦ true ]

unfoldable pub bit_offset : Bool → RegisterUnit → RegisterAccess → ℕ
bit_offset is_big_endian unit access =
    let relative = sub64 access.offset unit.offset in
    (if is_big_endian then sub64 (sub64 unit.size relative) access.size else relative) * 8 % u64_mod

-- What `read` and `write` ask the builder for: the whole global, or a slice of it with its offset,
-- the width of the global and the width of the slice.
pub data RegisterRead : Type 0 where
  load : RegisterUnit → RegisterRead
  partial_read : RegisterUnit → ℕ → ℕ → ℕ → RegisterRead

pub data RegisterWrite : Type 0 where
  store : RegisterUnit → RegisterWrite
  partial_write : RegisterUnit → ℕ → ℕ → ℕ → RegisterWrite

is_whole : RegisterUnit → RegisterAccess → Bool
is_whole unit access = unit.offset == access.offset && unit.size == access.size

unfoldable pub read : RegisterStorage → RegisterAccess → Option RegisterRead
unfolding is_whole
read storage access = elim (unit_for storage access) [
  | none ↦ none
  | some unit ↦
      if is_whole unit access
      then some (load unit)
      else some (
          partial_read unit (bit_offset storage.is_big_endian unit access) (bit_width unit.size)
            (bit_width access.size))
]

unfoldable pub write : RegisterStorage → RegisterAccess → Option RegisterWrite
unfolding is_whole
write storage access = elim (unit_for storage access) [
  | none ↦ none
  | some unit ↦
      if is_whole unit access
      then some (store unit)
      else some (
          partial_write unit (bit_offset storage.is_big_endian unit access) (bit_width unit.size)
            (bit_width access.size))
]
