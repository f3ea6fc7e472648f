-- ===== src/OrderedMap/Laws.antt =====
-- Laws of the ordered map: what each operation leaves, and that the key order is kept.
use not_dec_bin2llvm.Common.{
  ℕ, List, [], ◌∷◌, none, some, ◌==◌, if◌then◌else◌, ◌<◌, ◌≤◌, All, ◌≡◌, refl, arith, subst,
  Bool-cases, inl, inr, ==_iff,
}
use not_dec_bin2llvm.OrderedMap.{find, insert, erase, IsOrdered}

pair_path {ℓ} : {V : Type ℓ} {a b : ℕ} {v w : V} → a ≡ b → v ≡ w → ◌≡◌ {A = ℕ × V} (a, v) (b, w)
pair_path p q i = (p i, q i)

-- A property of every pair of the map.
module _ {ℓ} {V : Type ℓ} (P : ℕ × V → Type 0) where
  pub All-insert : (k : ℕ) (v : V) (m : List (ℕ × V)) → P (k, v) → All P m → All P (insert k v m)
  unfolding insert
  All-insert k v [] p h = (p, tt)
  All-insert k v ((i, w) ∷ m) p (q, h) = ground (arith, All-insert k v m p h)

  pub All-erase : (k : ℕ) (m : List (ℕ × V)) → All P m → All P (erase k m)
  unfolding erase
  All-erase k [] h = tt
  All-erase k ((i, w) ∷ m) (q, h) = ground (arith, All-erase k m h)

  -- What holds of every pair holds of the one that is found.
  pub All-find : (k : ℕ) (m : List (ℕ × V)) {v : V} → All P m → find k m ≡ some v → P (k, v)
  unfolding find
  All-find k [] h e = cc
  All-find k ((i, w) ∷ m) {v} (q, h) e = elim (Bool-cases (i == k)) [
    | inl same ↦ subst P (pair_path ((==_iff i k).0 same) (ground arith)) q
    | inr other ↦ All-find k m h (ground arith)
  ]

module _ {ℓ} {V : Type ℓ} where
  All-above :
      (a b : ℕ) (m : List (ℕ × V))
      → a ≤ b
      → All (λ (p : ℕ × V). b < p.0) m
      → All (λ (p : ℕ × V). a < p.0) m
  All-above a b [] h q = tt
  All-above a b (p ∷ m) h (q, r) = (omega arith, All-above a b m h r)

  pub find-insert :
      (k j : ℕ) (v : V) (m : List (ℕ × V))
      → find j (insert k v m) ≡ (if k == j then some v else find j m)
  unfolding find insert
  find-insert k j v [] = refl
  find-insert k j v ((i, w) ∷ m) = ground (arith, find-insert k j v m)

  pub find-erase :
      (k j : ℕ) (m : List (ℕ × V)) → find j (erase k m) ≡ (if k == j then none else find j m)
  unfolding find erase
  find-erase k j [] = ground arith
  find-erase k j ((i, w) ∷ m) = ground (arith, find-erase k j m)

  pub insert-IsOrdered : (k : ℕ) (v : V) (m : List (ℕ × V)) → IsOrdered m → IsOrdered (insert k v m)
  unfolding insert
  insert-IsOrdered k v [] h = (tt, tt)
  insert-IsOrdered k v ((i, w) ∷ m) (q, h) =
      ground (
        arith,
        insert-IsOrdered k v m h,
        All-above k i m,
        All-insert (λ (p : ℕ × V). i < p.0) k v m,
      )

  pub erase-IsOrdered : (k : ℕ) (m : List (ℕ × V)) → IsOrdered m → IsOrdered (erase k m)
  unfolding erase
  erase-IsOrdered k [] h = tt
  erase-IsOrdered k ((i, w) ∷ m) (q, h) =
      ground (arith, erase-IsOrdered k m h, All-erase (λ (p : ℕ × V). i < p.0) k m q)
