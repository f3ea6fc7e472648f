-- ===== src/Registers/Coverage.antt =====
-- The constructor of `RegisterStorage` from its first register to its last.
use not_dec_bin2llvm.Common.{
  ◌<◌, List, [], ◌∷◌, true, All, Any, Bool-cases, ◌≡◌, inl, inr, refl, subst, arith,
}
use not_dec_bin2llvm.Registers.{
  RegisterInfo, RegisterUnit, merge_unit, takes_register, place_register, place_registers,
}
use not_dec_bin2llvm.Registers.Order.{MayPrecede, IsSorted}
use not_dec_bin2llvm.Registers.Units.{
  Fits, IsUnit, AreApart, StartsBefore, Covers, merge-end, takes-space, place-AreApart,
  place-IsUnit, place-StartsBefore,
}

-- The register has a size and fits.
abbrev pub IsPlaceable : RegisterInfo → Type 0
IsPlaceable r = (0 < r.size) × Fits r

-- What holds of the units between two rounds of the loop.
abbrev pub IsRound : List RegisterUnit → List RegisterInfo → Type 0
IsRound us rs =
    All IsUnit us
    × AreApart us
    × All (λ r. All (StartsBefore r) us) rs
    × IsSorted rs
    × All IsPlaceable rs

starts_after-round :
    (us : List RegisterUnit) (r : RegisterInfo) (rs : List RegisterInfo)
    → All IsUnit us
    → All (MayPrecede r) rs
    → All (λ s. All (StartsBefore s) us) rs
    → All (λ s. All (StartsBefore s) (place_register us r)) rs
starts_after-round us r [] is _ _ = tt
starts_after-round us r (s ∷ rs) is (m, ms) (b, bs) =
    (place-StartsBefore us r s m is b, starts_after-round us r rs is ms bs)

next-IsRound :
    (us : List RegisterUnit) (r : RegisterInfo) (rs : List RegisterInfo)
    → IsRound us (r ∷ rs)
    → IsRound (place_register us r) rs
next-IsRound us r rs (is, apart, (b, bs), (m, sorted), ((pos, k), ks)) = (
  place-IsUnit us r k pos is,
  place-AreApart us r k pos is b apart,
  starts_after-round us r rs is m bs,
  sorted,
  ks,
)

pub place_registers-AreApart :
    (us : List RegisterUnit) (rs : List RegisterInfo)
    → IsRound us rs
    → All IsUnit (place_registers us rs) × AreApart (place_registers us rs)
unfolding place_registers
place_registers-AreApart us [] (is, apart, _, _, _) = (is, apart)
place_registers-AreApart us (r ∷ rs) h =
    place_registers-AreApart (place_register us r) rs (next-IsRound us r rs h)

-- The unit covers the register, and is one that later rounds keep.
merge-Covers :
    (r s : RegisterInfo) (u : RegisterUnit)
    → IsUnit u
    → Fits r
    → Covers s u
    → Covers s (merge_unit u r)
unfolding merge_unit
merge-Covers r s u i k (same, from, to) =
    let end = merge-end u r i k in (same, omega arith, omega (arith, end))

merge-Covers_own :
    (r : RegisterInfo) (u : RegisterUnit)
    → IsUnit u
    → Fits r
    → takes_register u r ≡ true
    → Covers r (merge_unit u r)
unfolding merge_unit
merge-Covers_own r u i k t =
    let end = merge-end u r i k in (takes-space u r t, omega arith, omega (arith, end))

place-Covers :
    (us : List RegisterUnit) (r s : RegisterInfo)
    → Fits r
    → All IsUnit us
    → Any (Covers s) us
    → Any (Covers s) (place_register us r)
unfolding place_register
place-Covers [] r s k _ a = elim a [ ]
place-Covers (u ∷ us) r s k (i, is) a = elim (Bool-cases (takes_register u r)) [
  | inl takes ↦ rw takes (elim a [ inl c ↦ inl (merge-Covers r s u i k c) | inr c ↦ inr c ])
  | inr refuses ↦ rw refuses (elim a [ inl c ↦ inl c | inr c ↦ inr (place-Covers us r s k is c) ])
]

place-Covers_own :
    (us : List RegisterUnit) (r : RegisterInfo)
    → Fits r
    → All IsUnit us
    → Any (Covers r) (place_register us r)
unfolding place_register
place-Covers_own [] r k _ = inl (refl, omega arith, omega arith)
place-Covers_own (u ∷ us) r k (i, is) = elim (Bool-cases (takes_register u r)) [
  | inl takes ↦ rw takes (inl (merge-Covers_own r u i k takes))
  | inr refuses ↦ rw refuses (inr (place-Covers_own us r k is))
]

keeps-Covers :
    (us : List RegisterUnit) (rs : List RegisterInfo) (s : RegisterInfo)
    → IsRound us rs
    → Any (Covers s) us
    → Any (Covers s) (place_registers us rs)
unfolding place_registers
keeps-Covers us [] s _ a = a
keeps-Covers us (r ∷ rs) s h a =
    let (is, _, _, _, ((_, k), _)) = h in
    keeps-Covers (place_register us r) rs s (next-IsRound us r rs h) (place-Covers us r s k is a)

pub place_registers-Covers :
    (us : List RegisterUnit) (rs : List RegisterInfo) (s : RegisterInfo)
    → IsRound us rs
    → Any (λ r. r ≡ s) rs
    → Any (Covers s) (place_registers us rs)
unfolding place_registers
place_registers-Covers us [] s _ a = elim a [ ]
place_registers-Covers us (r ∷ rs) s h (inl same) =
    let (is, _, _, _, ((_, k), _)) = h in
    let own = subst (λ t. Any (Covers t) (place_register us r)) same (place-Covers_own us r k is) in
    keeps-Covers (place_register us r) rs s (next-IsRound us r rs h) own
place_registers-Covers us (r ∷ rs) s h (inr a) =
    place_registers-Covers (place_register us r) rs s (next-IsRound us r rs h) a
