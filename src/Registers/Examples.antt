-- ===== src/Registers/Examples.antt =====
-- The register theorems at a piece of the x86-64 register file, and runs of the code.
use not_dec_bin2llvm.Common.{
  ℕ, List, [], ◌∷◌, none, some, true, false, ◌≡◌, inl, inr, refl, ap, arith, All, Text, codes,
}
use not_dec_bin2llvm.Registers.{
  RegisterInfo, RegisterAccess, RegisterUnit, partial_read, register_storage, has_register,
  unit_for, bit_offset, read, bit_width, sanitize_name, name_units, place_registers,
  sorted_registers, sort_registers, is_declared, insert_register, register_before, place_register,
  takes_register, overlaps, merge_unit, unit_name, find_unit, holds_access,
}
use not_dec_bin2llvm.Registers.Units.{Fits, IsUnit, AreApart}
use not_dec_bin2llvm.Registers.Access.{register_storage-AreApart, has_register-Within}
use not_dec_bin2llvm.Registers.Slices.{unit_for-Meet}

abbrev reg : ℕ → ℕ → Text → RegisterInfo
reg offset size name = record {
  space = codes "register";
  offset = offset;
  size = size;
  name = name;
}

-- AL, AH, EAX, RAX and RCX, in no particular order.
abbrev registers : List RegisterInfo
registers =
    reg 0 1 (codes "AL")
    ∷ reg 1 1 (codes "AH")
    ∷ reg 0 4 (codes "EAX")
    ∷ reg 8 8 (codes "RCX")
    ∷ reg 0 8 (codes "RAX")
    ∷ []

abbrev access : ℕ → ℕ → RegisterAccess
access offset size = record { space = codes "register"; offset = offset; size = size; name = none }

abbrev rax : RegisterUnit
rax = record { space = codes "register"; offset = 0; size = 8; name = codes "RAX" }

abbrev rcx : RegisterUnit
rcx = record { space = codes "register"; offset = 8; size = 8; name = codes "RCX" }

two_globals :
    register_storage registers false ≡ record { units = rax ∷ rcx ∷ []; is_big_endian = false }
unfolding register_storage name_units place_registers sorted_registers sort_registers is_declared
    insert_register register_before place_register takes_register overlaps merge_unit unit_name
two_globals = refl

ah_is_a_slice_of_rax :
    read (register_storage registers false) (access 1 1) ≡ some (partial_read rax 8 64 8)
unfolding read unit_for find_unit holds_access bit_offset bit_width
ah_is_a_slice_of_rax = ap (λ s. read s (access 1 1)) two_globals

across_two_registers : has_register (register_storage registers false) (access 4 8) ≡ false
unfolding has_register unit_for find_unit holds_access
across_two_registers = ap (λ s. has_register s (access 4 8)) two_globals

odd_name : sanitize_name (codes "3DNow!") ≡ codes "_3DNow_"
unfolding sanitize_name
odd_name = refl

found_at : unit_for (register_storage registers false) (access 1 1) ≡ some rax
unfolding unit_for find_unit holds_access
found_at = ap (λ s. unit_for s (access 1 1)) two_globals

found_eax : unit_for (register_storage registers false) (access 0 4) ≡ some rax
unfolding unit_for find_unit holds_access
found_eax = ap (λ s. unit_for s (access 0 4)) two_globals

found_high : unit_for (register_storage registers false) (access 4 2) ≡ some rax
unfolding unit_for find_unit holds_access
found_high = ap (λ s. unit_for s (access 4 2)) two_globals

registers-Fit : All Fits registers
registers-Fit = (omega arith, (omega arith, (omega arith, (omega arith, (omega arith, tt)))))

register_storage-AreApart_example :
    All IsUnit (register_storage registers false).units
    × AreApart (register_storage registers false).units
register_storage-AreApart_example = register_storage-AreApart registers false registers-Fit

has_register-Within_example : has_register (register_storage registers false) (access 2 2) ≡ true
unfolding is_declared
has_register-Within_example =
    has_register-Within registers false (reg 0 4 (codes "EAX")) (access 2 2) registers-Fit
      (inr (inr (inl refl))) refl (omega arith) (refl, omega arith, omega arith)

unit_for-Meet_example : rax ≡ rax
unit_for-Meet_example =
    unit_for-Meet registers false (access 0 4) (access 1 1) rax rax registers-Fit (omega arith)
      (omega arith) (refl, omega arith, omega arith) found_eax found_at
