-- ===== src/OrderedMap.antt =====
-- `std::map` with unsigned keys: the pairs in key order.
pub mod Laws
use not_dec_bin2llvm.Common.{
  ℕ, List, [], ◌∷◌, Option, none, some, Bool, ltb, ◌==◌, if◌then◌else◌, ◌<◌, All, not,
}

module _ {ℓ} {V : Type ℓ} where
  unfoldable pub find : ℕ → List (ℕ × V) → Option V
  find k [] = none
  find k ((j, v) ∷ m) = if j == k then some v else find k m

  -- `m[k] = v`.
  unfoldable pub insert : ℕ → V → List (ℕ × V) → List (ℕ × V)
  insert k v [] = (k, v) ∷ []
  insert k v ((j, w) ∷ m) =
      if ltb k j then (k, v) ∷ (j, w) ∷ m else if j == k then (k, v) ∷ m else (j, w) ∷ insert k v m

  unfoldable pub erase : ℕ → List (ℕ × V) → List (ℕ × V)
  erase k [] = []
  erase k ((j, v) ∷ m) = if j == k then erase k m else (j, v) ∷ erase k m

  -- The pairs from `lower_bound(k)` on.
  unfoldable pub lower_bound : ℕ → List (ℕ × V) → List (ℕ × V)
  lower_bound k [] = []
  lower_bound k ((j, v) ∷ m) = if ltb j k then lower_bound k m else (j, v) ∷ m

  -- The keys rise strictly.
  abbrev pub IsOrdered : List (ℕ × V) → Type 0
  IsOrdered [] = Unit
  IsOrdered ((k, v) ∷ m) = All (λ (p : ℕ × V). k < p.0) m × IsOrdered m
