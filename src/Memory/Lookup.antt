-- ===== src/Memory/Lookup.antt =====
-- The walks over sorted ranges find a range exactly when one qualifies.
use not_dec_bin2llvm.Common.{
  ℕ, ◌+◌, List, [], ◌∷◌, true, ◌≤◌, ◌<◌, All, Any, ◌≡◌, arith, ◌↔◌, inl, inr,
}
use not_dec_bin2llvm.Memory.{
  MemoryRange, is_executable_address, executable_range_contains, executable_range_loop,
}
use not_dec_bin2llvm.Memory.Loading.{IsSorted}

-- The address lies in the range, by plain arithmetic.
abbrev pub Holds : ℕ → MemoryRange → Type 0
Holds address range = (range.start ≤ address) × (address < range.start + range.size)

abbrev pub HoldsExecutable : ℕ → MemoryRange → Type 0
HoldsExecutable address range = (range.executable ≡ true) × Holds address range

-- Nothing that starts above the address holds it.
none_above :
    (address bound : ℕ) (ranges : List MemoryRange)
    → address < bound
    → All (λ (s : MemoryRange). bound ≤ s.start) ranges
    → Any (Holds address) ranges
    → ⊥
none_above address bound [] h q a = a
none_above address bound (r ∷ ranges) h (q, k) (inl a) = omega arith
none_above address bound (r ∷ ranges) h (q, k) (inr a) = none_above address bound ranges h k a

weaken :
    (address : ℕ) (ranges : List MemoryRange)
    → Any (HoldsExecutable address) ranges
    → Any (Holds address) ranges
weaken address [] a = elim a [ ]
weaken address (r ∷ ranges) (inl a) = inl a.1
weaken address (r ∷ ranges) (inr a) = inr (weaken address ranges a)

is_executable_sound :
    (ranges : List MemoryRange) (address : ℕ)
    → is_executable_address ranges address ≡ true
    → Any (HoldsExecutable address) ranges
unfolding is_executable_address
is_executable_sound [] address h = cc
is_executable_sound (r ∷ ranges) address h = ground (arith, is_executable_sound ranges address)

is_executable_complete :
    (ranges : List MemoryRange) (address : ℕ)
    → IsSorted ranges
    → Any (HoldsExecutable address) ranges
    → is_executable_address ranges address ≡ true
unfolding is_executable_address
is_executable_complete [] address s a = elim a [ ]
is_executable_complete (r ∷ ranges) address (q, s) (inl a) = ground arith
is_executable_complete (r ∷ ranges) address (q, s) (inr a) = ground (
  arith,
  is_executable_complete ranges address s a,
  none_above address r.start ranges,
  weaken address ranges a,
)

-- On sorted ranges an address is executable exactly when some executable range holds it: the
-- early stop loses nothing.
pub is_executable_address_iff :
    (ranges : List MemoryRange) (address : ℕ)
    → IsSorted ranges
    → (is_executable_address ranges address ≡ true) ↔ Any (HoldsExecutable address) ranges
is_executable_address_iff ranges address s =
    (is_executable_sound ranges address, is_executable_complete ranges address s)

-- The whole interval lies in one executable range. No order of the ranges is needed.
abbrev pub HoldsInterval : ℕ → ℕ → MemoryRange → Type 0
HoldsInterval start end range =
    (range.executable ≡ true) × (range.start ≤ start) × (end ≤ range.start + range.size)

interval_sound :
    (ranges : List MemoryRange) (start end : ℕ)
    → executable_range_loop ranges start end ≡ true
    → Any (HoldsInterval start end) ranges
unfolding executable_range_loop
interval_sound [] start end h = cc
interval_sound (r ∷ ranges) start end h = ground (arith, interval_sound ranges start end)

interval_complete :
    (ranges : List MemoryRange) (start end : ℕ)
    → Any (HoldsInterval start end) ranges
    → executable_range_loop ranges start end ≡ true
unfolding executable_range_loop
interval_complete [] start end a = elim a [ ]
interval_complete (r ∷ ranges) start end (inl a) = ground arith
interval_complete (r ∷ ranges) start end (inr a) =
    ground (arith, interval_complete ranges start end a)

-- The interval test passes exactly for a non-empty interval inside one executable range.
pub executable_range_contains_iff :
    (ranges : List MemoryRange) (start end : ℕ)
    → (executable_range_contains ranges start end ≡ true)
      ↔ ((start < end) × Any (HoldsInterval start end) ranges)
unfolding executable_range_contains
executable_range_contains_iff ranges start end = (
  λ h. ground (arith, interval_sound ranges start end),
  λ h. ground (arith, interval_complete ranges start end h.1),
)
