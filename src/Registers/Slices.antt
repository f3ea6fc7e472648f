-- ===== src/Registers/Slices.antt =====
-- What an access reads and writes: overlapping accesses share a global, and the bits of an access
-- lie where its bytes do, in either byte order.
use not_dec_bin2llvm.Common.{
  ◌+◌, ◌-◌, ◌*◌, ◌≤◌, ◌<◌, List, [], ◌∷◌, some, Bool, true, false, All, Any, text_beq_iff,
  Bool-cases, ◌≡◌, ◌⊎◌, inl, inr, sym, ◌∙◌, subst, arith,
}
use not_dec_bin2llvm.Registers.{
  RegisterInfo, RegisterAccess, RegisterUnit, register_storage, holds_access, find_unit, unit_for,
  bit_offset,
}
use not_dec_bin2llvm.Registers.Units.{Fits, IsUnit, Apart, AreApart}
use not_dec_bin2llvm.Registers.Access.{IsAccess, register_storage-AreApart}

-- The bytes of the access lie in the unit.
abbrev pub Inside : RegisterAccess → RegisterUnit → Type 0
Inside access unit =
    (unit.space ≡ access.space)
    × (unit.offset ≤ access.offset)
    × (access.offset + access.size ≤ unit.offset + unit.size)

holds-Inside :
    (u : RegisterUnit) (access : RegisterAccess)
    → IsUnit u
    → IsAccess access
    → holds_access u access ≡ true
    → Inside access u
unfolding holds_access
holds-Inside u access (_, k) ok h = (
  (text_beq_iff u.space access.space).0 (ground (arith, h)),
  ground (arith, h),
  ground (arith, h),
)

-- The unit that is found is one of the list and holds the access.
find_unit-Inside :
    (us : List RegisterUnit) (access : RegisterAccess) (u : RegisterUnit)
    → All IsUnit us
    → IsAccess access
    → find_unit us access ≡ some u
    → Any (λ v. v ≡ u) us × IsUnit u × Inside access u
unfolding find_unit
find_unit-Inside [] access u _ ok found = absurd (ground (arith, found))
find_unit-Inside (v ∷ us) access u (i, is) ok found = elim (Bool-cases (holds_access v access)) [
  | inl holds ↦
      let same : v ≡ u = ground (arith, found, holds) in
      (inl same, subst IsUnit same i, subst (Inside access) same (holds-Inside v access i ok holds))
  | inr misses ↦
      let later : find_unit us access ≡ some u = ground (arith, found, misses) in
      let (there, is_unit, inside) = find_unit-Inside us access u is ok later in
      (inr there, is_unit, inside)
]

All-Any-Apart :
    (u v : RegisterUnit) (us : List RegisterUnit)
    → All (Apart u) us
    → Any (λ w. w ≡ v) us
    → Apart u v
All-Any-Apart u v [] _ a = elim a [ ]
All-Any-Apart u v (w ∷ us) (p, h) (inl same) = subst (Apart u) same p
All-Any-Apart u v (w ∷ us) (p, h) (inr a) = All-Any-Apart u v us h a

-- Two units of a list of units that are apart.
AreApart-pair :
    (u v : RegisterUnit) (us : List RegisterUnit)
    → AreApart us
    → Any (λ w. w ≡ u) us
    → Any (λ w. w ≡ v) us
    → (u ≡ v) ⊎ (Apart u v ⊎ Apart v u)
AreApart-pair u v [] _ a _ = elim a [ ]
AreApart-pair u v (w ∷ us) (p, h) (inl x) (inl y) = inl (sym x ∙ y)
AreApart-pair u v (w ∷ us) (p, h) (inl x) (inr b) =
    inr (inl (All-Any-Apart u v us (subst (λ t. All (Apart t) us) x p) b))
AreApart-pair u v (w ∷ us) (p, h) (inr a) (inl y) =
    inr (inr (All-Any-Apart v u us (subst (λ t. All (Apart t) us) y p) a))
AreApart-pair u v (w ∷ us) (p, h) (inr a) (inr b) = AreApart-pair u v us h a b

-- The accesses have a byte in common.
abbrev pub Meet : RegisterAccess → RegisterAccess → Type 0
Meet a b = (a.space ≡ b.space) × (a.offset < b.offset + b.size) × (b.offset < a.offset + a.size)

-- For declared registers that end within the first 2 ^ 32 bytes of their spaces, two accesses
-- that do not cross the end of the address space, have a byte in common and are both found use
-- the same backing global.
pub unit_for-Meet :
    (registers : List RegisterInfo) (is_big_endian : Bool) (a b : RegisterAccess)
    (u v : RegisterUnit)
    → All Fits registers
    → IsAccess a
    → IsAccess b
    → Meet a b
    → unit_for (register_storage registers is_big_endian) a ≡ some u
    → unit_for (register_storage registers is_big_endian) b ≡ some v
    → u ≡ v
unfolding unit_for
unit_for-Meet registers is_big_endian a b u v h ka kb (same, ab, ba) fa fb =
    let us = (register_storage registers is_big_endian).units in
    let (are_units, apart) = register_storage-AreApart registers is_big_endian h in
    let (at_u, _, (su, u0, u1)) = find_unit-Inside us a u are_units ka fa in
    let (at_v, _, (sv, v0, v1)) = find_unit-Inside us b v are_units kb fb in
    let one_space : u.space ≡ v.space = su ∙ same ∙ sym sv in
    elim (AreApart-pair u v us apart at_u at_v) [
      | inl equal ↦ equal
      | inr (inl before) ↦ absurd (let below = before one_space in omega arith)
      | inr (inr before) ↦ absurd (let below = before (sym one_space) in omega arith)
    ]

bit_offset-little :
    (u : RegisterUnit) (a : RegisterAccess)
    → IsUnit u
    → Inside a u
    → bit_offset false u a ≡ (a.offset - u.offset) * 8
unfolding bit_offset
bit_offset-little u a (_, k) (_, from, to) = omega arith

bit_offset-big :
    (u : RegisterUnit) (a : RegisterAccess)
    → IsUnit u
    → Inside a u
    → bit_offset true u a ≡ (u.offset + u.size - (a.offset + a.size)) * 8
unfolding bit_offset
bit_offset-big u a (_, k) (_, from, to) = omega arith

-- For declared registers that end within the first 2 ^ 32 bytes of their spaces, two accesses of
-- one global, neither of which crosses the end of the address space and the first of which ends
-- before the second begins, have disjoint bits, in the same order for little-endian and in the
-- reverse order for big-endian.
pub bit_offset_apart :
    (registers : List RegisterInfo) (is_big_endian : Bool) (a b : RegisterAccess) (u : RegisterUnit)
    → All Fits registers
    → IsAccess a
    → IsAccess b
    → unit_for (register_storage registers is_big_endian) a ≡ some u
    → unit_for (register_storage registers is_big_endian) b ≡ some u
    → a.offset + a.size ≤ b.offset
    → (bit_offset false u a + a.size * 8 ≤ bit_offset false u b)
      × (bit_offset true u b + b.size * 8 ≤ bit_offset true u a)
unfolding unit_for
bit_offset_apart registers is_big_endian a b u h ka kb fa fb before =
    let us = (register_storage registers is_big_endian).units in
    let (are_units, _) = register_storage-AreApart registers is_big_endian h in
    let (_, i, (sa, a0, a1)) = find_unit-Inside us a u are_units ka fa in
    let (_, _, (sb, b0, b1)) = find_unit-Inside us b u are_units kb fb in
    (
      omega (arith, bit_offset-little u a i (sa, a0, a1), bit_offset-little u b i (sb, b0, b1)),
      omega (arith, bit_offset-big u a i (sa, a0, a1), bit_offset-big u b i (sb, b0, b1)),
    )
