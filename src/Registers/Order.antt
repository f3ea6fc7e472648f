-- ===== src/Registers/Order.antt =====
-- The sort of the declared registers: by space, then by offset.
use not_dec_bin2llvm.Common.{
  ◌≤◌, List, [], ◌∷◌, true, false, All, All-imp, Text, text_beq, text_beq_iff, Bool-cases, Any, ◌≡◌,
  ◌⊎◌, inl, inr, refl, sym, ◌∙◌, subst, arith,
}
use not_dec_bin2llvm.Registers.{
  RegisterInfo, text_ltb, register_before, insert_register, sort_registers,
}

-- `r` may stand before `s`.
abbrev pub MayPrecede : RegisterInfo → RegisterInfo → Type 0
MayPrecede r s = (text_ltb r.space s.space ≡ true) ⊎ ((r.space ≡ s.space) × r.offset ≤ s.offset)

abbrev pub IsSorted : List RegisterInfo → Type 0
IsSorted [] = Unit
IsSorted (r ∷ rs) = All (MayPrecede r) rs × IsSorted rs

text_ltb_trans : (s t u : Text) → text_ltb s t ≡ true → text_ltb t u ≡ true → text_ltb s u ≡ true
unfolding text_ltb
text_ltb_trans s [] [] p q = absurd (ground arith)
text_ltb_trans s (b ∷ t) [] p q = absurd (ground arith)
text_ltb_trans [] t (c ∷ u) p q = refl
text_ltb_trans (a ∷ s) [] (c ∷ u) p q = ground arith
text_ltb_trans (a ∷ s) (b ∷ t) (c ∷ u) p q = ground (arith, text_ltb_trans s t u)

text_ltb_cases : (s t : Text) → (text_ltb s t ≡ true) ⊎ ((s ≡ t) ⊎ (text_ltb t s ≡ true))
unfolding text_ltb
text_ltb_cases [] [] = inr (inl refl)
text_ltb_cases [] (b ∷ t) = inl refl
text_ltb_cases (a ∷ s) [] = inr (inr refl)
text_ltb_cases (a ∷ s) (b ∷ t) = ground (arith, text_ltb_cases s t)

pub text_ltb_irrefl : (s : Text) → text_ltb s s ≡ false
unfolding text_ltb
text_ltb_irrefl [] = refl
text_ltb_irrefl (a ∷ s) = ground (arith, text_ltb_irrefl s)

pub MayPrecede-trans : (r s t : RegisterInfo) → MayPrecede r s → MayPrecede s t → MayPrecede r t
MayPrecede-trans r s t (inl p) (inl q) = inl (text_ltb_trans r.space s.space t.space p q)
MayPrecede-trans r s t (inl p) (inr (e, q)) = inl (subst (λ x. text_ltb r.space x ≡ true) e p)
MayPrecede-trans r s t (inr (e, p)) (inl q) = inl (subst (λ x. text_ltb x t.space ≡ true) (sym e) q)
MayPrecede-trans r s t (inr (e, p)) (inr (f, q)) = inr (e ∙ f, omega arith)

before-MayPrecede : (r s : RegisterInfo) → register_before r s ≡ true → MayPrecede r s
unfolding register_before
before-MayPrecede r s p = elim (Bool-cases (text_beq r.space s.space)) [
  | inl same ↦ inr ((text_beq_iff r.space s.space).0 same, ground (arith, same))
  | inr other ↦ inl (ground (arith, other))
]

not_before-MayPrecede : (r s : RegisterInfo) → register_before s r ≡ false → MayPrecede r s
unfolding register_before
not_before-MayPrecede r s p = elim (text_ltb_cases r.space s.space) [
  | inl less ↦ inl less
  | inr (inl same) ↦ inr (same, ground (arith, (text_beq_iff s.space r.space).1 (sym same)))
  | inr (inr more) ↦ elim (Bool-cases (text_beq s.space r.space)) [
    | inl same ↦ inr (sym ((text_beq_iff s.space r.space).0 same), ground (arith, same))
    | inr other ↦ absurd (ground (arith, other, more))
  ]
]

pub All-insert_register :
    (P : RegisterInfo → Type 0) (r : RegisterInfo) (rs : List RegisterInfo)
    → P r
    → All P rs
    → All P (insert_register r rs)
unfolding insert_register
All-insert_register P r [] p h = (p, tt)
All-insert_register P r (s ∷ rs) p (q, h) = ground (arith, All-insert_register P r rs p h)

insert_register-IsSorted :
    (r : RegisterInfo) (rs : List RegisterInfo) → IsSorted rs → IsSorted (insert_register r rs)
unfolding insert_register
insert_register-IsSorted r [] h = (tt, tt)
insert_register-IsSorted r (s ∷ rs) (q, h) = elim (Bool-cases (register_before s r)) [
  | inl first ↦ rw first (
    All-insert_register (MayPrecede s) r rs (before-MayPrecede s r first) q,
    insert_register-IsSorted r rs h,
  )
  | inr last ↦ rw last (
    (
      not_before-MayPrecede r s last,
      All-imp (MayPrecede s) (MayPrecede r) rs
          (λ t later. MayPrecede-trans r s t (not_before-MayPrecede r s last) later) q,
    ),
    (q, h),
  )
]

pub sort_registers-IsSorted : (rs : List RegisterInfo) → IsSorted (sort_registers rs)
unfolding sort_registers
sort_registers-IsSorted [] = tt
sort_registers-IsSorted (r ∷ rs) =
    insert_register-IsSorted r (sort_registers rs) (sort_registers-IsSorted rs)

pub All-sort_registers :
    (P : RegisterInfo → Type 0) (rs : List RegisterInfo) → All P rs → All P (sort_registers rs)
unfolding sort_registers
All-sort_registers P [] h = tt
All-sort_registers P (r ∷ rs) (p, h) =
    All-insert_register P r (sort_registers rs) p (All-sort_registers P rs h)

Any-insert_register :
    (P : RegisterInfo → Type 0) (r : RegisterInfo) (rs : List RegisterInfo)
    → Any P (r ∷ rs)
    → Any P (insert_register r rs)
unfolding insert_register
Any-insert_register P r [] a = a
Any-insert_register P r (s ∷ rs) a = elim (Bool-cases (register_before s r)) [
  | inl first ↦ rw first (elim a [
    | inl p ↦ inr (Any-insert_register P r rs (inl p))
    | inr (inl p) ↦ inl p
    | inr (inr p) ↦ inr (Any-insert_register P r rs (inr p))
  ])
  | inr last ↦ rw last a
]

pub Any-sort_registers :
    (P : RegisterInfo → Type 0) (rs : List RegisterInfo) → Any P rs → Any P (sort_registers rs)
unfolding sort_registers
Any-sort_registers P [] a = elim a [ ]
Any-sort_registers P (r ∷ rs) (inl p) = Any-insert_register P r (sort_registers rs) (inl p)
Any-sort_registers P (r ∷ rs) (inr a) =
    Any-insert_register P r (sort_registers rs) (inr (Any-sort_registers P rs a))
