-- ===== src/Registers/Access.antt =====
-- Accesses to the registers: `unitFor`, `hasRegister` and `bitOffset` on the storage that the
-- constructor makes.
use not_dec_bin2llvm.Common.{
  ◌+◌, ◌≤◌, ◌<◌, List, [], ◌∷◌, some, Bool, true, All, Any, keep_if, text_beq_iff, u64_mod,
  Bool-cases, ◌≡◌, inl, inr, refl, sym, ◌∙◌, ap, arith,
}
use not_dec_bin2llvm.Registers.{
  RegisterInfo, RegisterAccess, RegisterUnit, name_units, unit_name, is_declared, sorted_registers,
  sort_registers, register_storage, holds_access, find_unit, unit_for, has_register,
  place_registers,
}
use not_dec_bin2llvm.Registers.Order.{
  sort_registers-IsSorted, All-sort_registers, Any-sort_registers,
}
use not_dec_bin2llvm.Registers.Units.{Fits, IsUnit, Apart, AreApart, StartsBefore, Covers}
use not_dec_bin2llvm.Registers.Coverage.{
  IsPlaceable, IsRound, place_registers-AreApart, place_registers-Covers,
}

-- The bytes of the access, which do not cross the end of the address space.
abbrev pub IsAccess : RegisterAccess → Type 0
IsAccess access = access.offset + access.size < u64_mod

abbrev pub Within : RegisterAccess → RegisterInfo → Type 0
Within access reg =
    (access.space ≡ reg.space)
    × (reg.offset ≤ access.offset)
    × (access.offset + access.size ≤ reg.offset + reg.size)

All-name_units :
    (P : RegisterUnit → Type 0) (regs : List RegisterInfo) (us : List RegisterUnit)
    → ((u : RegisterUnit) → P u → P (record u { name = unit_name regs u }))
    → All P us
    → All P (name_units regs us)
unfolding name_units
All-name_units P regs [] f _ = tt
All-name_units P regs (u ∷ us) f (p, h) = (f u p, All-name_units P regs us f h)

Any-name_units :
    (P : RegisterUnit → Type 0) (regs : List RegisterInfo) (us : List RegisterUnit)
    → ((u : RegisterUnit) → P u → P (record u { name = unit_name regs u }))
    → Any P us
    → Any P (name_units regs us)
unfolding name_units
Any-name_units P regs [] f a = elim a [ ]
Any-name_units P regs (u ∷ us) f (inl p) = inl (f u p)
Any-name_units P regs (u ∷ us) f (inr a) = inr (Any-name_units P regs us f a)

name_units-AreApart :
    (regs : List RegisterInfo) (us : List RegisterUnit)
    → AreApart us
    → AreApart (name_units regs us)
unfolding name_units
name_units-AreApart regs [] _ = tt
name_units-AreApart regs (u ∷ us) (a, h) =
    (All-name_units (Apart u) regs us (λ v apart. apart) a, name_units-AreApart regs us h)

declared-IsPlaceable :
    (regs : List RegisterInfo) → All Fits regs → All IsPlaceable (keep_if is_declared regs)
unfolding is_declared
declared-IsPlaceable [] _ = tt
declared-IsPlaceable (r ∷ regs) (k, h) = elim (Bool-cases (is_declared r)) [
  | inl kept ↦ rw kept ((ground (arith, kept), k), declared-IsPlaceable regs h)
  | inr dropped ↦ rw dropped (declared-IsPlaceable regs h)
]

declared-Any :
    (regs : List RegisterInfo) (r : RegisterInfo)
    → is_declared r ≡ true
    → Any (λ s. s ≡ r) regs
    → Any (λ s. s ≡ r) (keep_if is_declared regs)
declared-Any [] r d a = elim a [ ]
declared-Any (s ∷ regs) r d (inl same) = rw (ap is_declared same, d) (inl same)
declared-Any (s ∷ regs) r d (inr a) = elim (Bool-cases (is_declared s)) [
  | inl kept ↦ rw kept (inr (declared-Any regs r d a))
  | inr dropped ↦ rw dropped (declared-Any regs r d a)
]

starts_of-nothing : (rs : List RegisterInfo) → All (λ r. All (StartsBefore r) []) rs
starts_of-nothing [] = tt
starts_of-nothing (r ∷ rs) = (tt, starts_of-nothing rs)

first-IsRound : (regs : List RegisterInfo) → All Fits regs → IsRound [] (sorted_registers regs)
unfolding sorted_registers
first-IsRound regs h = (
  tt,
  tt,
  starts_of-nothing (sort_registers (keep_if is_declared regs)),
  sort_registers-IsSorted (keep_if is_declared regs),
  All-sort_registers IsPlaceable (keep_if is_declared regs) (declared-IsPlaceable regs h),
)

-- For declared registers that end within the first 2 ^ 32 bytes of their spaces, every backing
-- global has a size, ends within the same bound, and two globals of one space do not overlap.
pub register_storage-AreApart :
    (registers : List RegisterInfo) (is_big_endian : Bool)
    → All Fits registers
    → All IsUnit (register_storage registers is_big_endian).units
      × AreApart (register_storage registers is_big_endian).units
unfolding register_storage
register_storage-AreApart registers is_big_endian h =
    let sorted = sorted_registers registers in
    let (are_units, apart) = place_registers-AreApart [] sorted (first-IsRound registers h) in
    (
      All-name_units IsUnit sorted (place_registers [] sorted) (λ u i. i) are_units,
      name_units-AreApart sorted (place_registers [] sorted) apart,
    )

find_unit-found :
    (us : List RegisterUnit) (access : RegisterAccess)
    → Any (λ u. holds_access u access ≡ true) us
    → (u : RegisterUnit) × (find_unit us access ≡ some u)
unfolding find_unit
find_unit-found [] access a = elim a [ ]
find_unit-found (u ∷ us) access a = elim (Bool-cases (holds_access u access)) [
  | inl holds ↦ rw holds (u, refl)
  | inr misses ↦ rw misses (elim a [
    | inl holds ↦ absurd (ground (arith, holds, misses))
    | inr later ↦ find_unit-found us access later
  ])
]

covered-holds :
    (reg : RegisterInfo) (access : RegisterAccess) (us : List RegisterUnit)
    → IsAccess access
    → Within access reg
    → All IsUnit us
    → Any (Covers reg) us
    → Any (λ u. holds_access u access ≡ true) us
unfolding holds_access
covered-holds reg access [] _ _ _ a = elim a [ ]
covered-holds reg access (u ∷ us) ok (same, from, to) ((_, k), _) (inl (space, start, end)) =
    let equal = (text_beq_iff u.space access.space).1 (space ∙ sym same) in
    inl (rw equal (ground arith))
covered-holds reg access (u ∷ us) ok within (_, is) (inr a) =
    inr (covered-holds reg access us ok within is a)

-- For declared registers that end within the first 2 ^ 32 bytes of their spaces, every access
-- within one that has a space and a size, and that does not cross the end of the address space,
-- is found.
pub has_register-Within :
    (registers : List RegisterInfo) (is_big_endian : Bool) (reg : RegisterInfo)
    (access : RegisterAccess)
    → All Fits registers
    → Any (λ r. r ≡ reg) registers
    → is_declared reg ≡ true
    → IsAccess access
    → Within access reg
    → has_register (register_storage registers is_big_endian) access ≡ true
unfolding has_register unit_for register_storage sorted_registers
has_register-Within registers is_big_endian reg access h there declared ok within =
    let sorted = sorted_registers registers in
    let there_sorted =
      Any-sort_registers (λ r. r ≡ reg) (keep_if is_declared registers)
        (declared-Any registers reg declared there) in
    let covers = place_registers-Covers [] sorted reg (first-IsRound registers h) there_sorted in
    let named = Any-name_units (Covers reg) sorted (place_registers [] sorted) (λ u c. c) covers in
    let (are_units, _) = register_storage-AreApart registers is_big_endian h in
    let (u, found) = find_unit-found (name_units sorted (place_registers [] sorted)) access (
      covered-holds reg access (name_units sorted (place_registers [] sorted)) ok within are_units
        named) in
    rw (found, has_register) refl
