-- ===== src/Registers/Units.antt =====
-- The constructor of `RegisterStorage`: the backing globals of one space do not overlap, and each
-- declared register lies in one.
use not_dec_bin2llvm.Common.{
  ℕ, ◌+◌, ◌≤◌, ◌<◌, max, List, [], ◌∷◌, true, false, All, text_beq_iff, u32_mod, add64, Bool-cases,
  ◌≡◌, inl, inr, refl, sym, ◌∙◌, subst, arith,
}
use not_dec_bin2llvm.Registers.{
  RegisterInfo, RegisterUnit, overlaps, merge_unit, takes_register, text_ltb, place_register,
}
use not_dec_bin2llvm.Registers.Order.{MayPrecede, text_ltb_irrefl}

-- The register ends within the first 2 ^ 32 bytes of its space.
abbrev pub Fits : RegisterInfo → Type 0
Fits reg = reg.offset + reg.size < u32_mod

abbrev pub IsUnit : RegisterUnit → Type 0
IsUnit unit = (0 < unit.size) × (unit.offset + unit.size < u32_mod)

-- Of one space, the first unit ends before the second.
abbrev pub Apart : RegisterUnit → RegisterUnit → Type 0
Apart u v = u.space ≡ v.space → u.offset + u.size ≤ v.offset

abbrev pub AreApart : List RegisterUnit → Type 0
AreApart [] = Unit
AreApart (u ∷ us) = All (Apart u) us × AreApart us

-- The unit starts no later than the register.
abbrev pub StartsBefore : RegisterInfo → RegisterUnit → Type 0
StartsBefore reg unit = unit.space ≡ reg.space → unit.offset ≤ reg.offset

abbrev pub Covers : RegisterInfo → RegisterUnit → Type 0
Covers reg unit =
    (unit.space ≡ reg.space)
    × (unit.offset ≤ reg.offset)
    × (reg.offset + reg.size ≤ unit.offset + unit.size)

pub sum_fits : (a b : ℕ) → a + b < u32_mod → add64 a b ≡ a + b
sum_fits a b h = omega arith

pub takes-space :
    (u : RegisterUnit) (r : RegisterInfo) → takes_register u r ≡ true → u.space ≡ r.space
unfolding takes_register
takes-space u r t = (text_beq_iff u.space r.space).0 (ground (arith, t))

takes-overlap :
    (u : RegisterUnit) (r : RegisterInfo)
    → IsUnit u
    → Fits r
    → takes_register u r ≡ true
    → (u.offset < r.offset + r.size) × (r.offset < u.offset + u.size)
unfolding takes_register overlaps
takes-overlap u r (p, h) k t = (ground (arith, t), ground (arith, t))

-- Of one space, a unit that does not take the register ends before it.
refuses-Apart :
    (u : RegisterUnit) (r : RegisterInfo)
    → IsUnit u
    → Fits r
    → 0 < r.size
    → StartsBefore r u
    → takes_register u r ≡ false
    → u.space ≡ r.space
    → u.offset + u.size ≤ r.offset
unfolding takes_register overlaps
refuses-Apart u r (p, h) k pos before t same =
    let below = before same in
    let equal = (text_beq_iff u.space r.space).1 same in ground (arith, t, below, equal)

pub merge-end :
    (u : RegisterUnit) (r : RegisterInfo)
    → IsUnit u
    → Fits r
    → (merge_unit u r).offset + (merge_unit u r).size ≡ max (u.offset + u.size) (r.offset + r.size)
unfolding merge_unit
merge-end u r (p, h) k = omega arith

merge-IsUnit : (u : RegisterUnit) (r : RegisterInfo) → IsUnit u → Fits r → IsUnit (merge_unit u r)
unfolding merge_unit
merge-IsUnit u r (p, h) k = (omega arith, omega arith)

-- A property of units, kept by the placing of a register: where a unit takes the register the merged
-- unit has it, and so has the new unit.
place-All :
    (P : RegisterUnit → Type 0) (us : List RegisterUnit) (r : RegisterInfo)
    → ((u : RegisterUnit) → IsUnit u → P u → takes_register u r ≡ true → P (merge_unit u r))
    → P record { space = r.space; offset = r.offset; size = r.size; name = r.name }
    → All IsUnit us
    → All P us
    → All P (place_register us r)
unfolding place_register
place-All P [] r merged new _ h = (new, tt)
place-All P (u ∷ us) r merged new (i, is) (p, h) = elim (Bool-cases (takes_register u r)) [
  | inl takes ↦ rw takes (merged u i p takes, h)
  | inr refuses ↦ rw refuses (p, place-All P us r merged new is h)
]

-- Units apart from a unit that takes a register are apart from the merged one.
merged-Apart :
    (u : RegisterUnit) (r : RegisterInfo) (us : List RegisterUnit)
    → IsUnit u
    → Fits r
    → takes_register u r ≡ true
    → All (StartsBefore r) us
    → All (Apart u) us
    → All (Apart (merge_unit u r)) us
unfolding merge_unit
merged-Apart u r [] i k takes _ _ = tt
merged-Apart u r (v ∷ us) i k takes (before, bs) (apart, apart_rest) = (
  λ same. absurd (
      let below = before (sym same ∙ takes-space u r takes) in
      let after = apart same in let (_, meets) = takes-overlap u r i k takes in omega arith),
  merged-Apart u r us i k takes bs apart_rest,
)

pub place-AreApart :
    (us : List RegisterUnit) (r : RegisterInfo)
    → Fits r
    → 0 < r.size
    → All IsUnit us
    → All (StartsBefore r) us
    → AreApart us
    → AreApart (place_register us r)
unfolding place_register merge_unit
place-AreApart [] r k pos _ _ _ = (tt, tt)
place-AreApart (u ∷ us) r k pos (i, is) (b, bs) (a, rest) = elim (Bool-cases (takes_register u r)) [
  | inl takes ↦ rw takes (merged-Apart u r us i k takes bs a, rest)
  | inr refuses ↦
      let ends = refuses-Apart u r i k pos b refuses in
      rw refuses (
        place-All (Apart u) us r
            (λ v iv apart takes same.
              let below = apart (same ∙ refl) in
              let from = ends (same ∙ takes-space v r takes) in omega arith)
            ends is a,
        place-AreApart us r k pos is bs rest,
      )
]

pub place-IsUnit :
    (us : List RegisterUnit) (r : RegisterInfo)
    → Fits r
    → 0 < r.size
    → All IsUnit us
    → All IsUnit (place_register us r)
place-IsUnit us r k pos is = place-All IsUnit us r (λ u i _ _. merge-IsUnit u r i k) (pos, k) is is

pub place-StartsBefore :
    (us : List RegisterUnit) (r s : RegisterInfo)
    → MayPrecede r s
    → All IsUnit us
    → All (StartsBefore s) us
    → All (StartsBefore s) (place_register us r)
unfolding merge_unit
place-StartsBefore us r s earlier is h =
    place-All (StartsBefore s) us r (λ u _ before _ same. let below = before same in omega arith)
      (λ same. elim earlier [
        | inl less ↦ absurd (
            ground
              (arith, text_ltb_irrefl s.space, subst (λ t. text_ltb t s.space ≡ true) same less))
        | inr (_, below) ↦ below
      ])
      is h
