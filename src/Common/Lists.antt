-- ===== src/Common/Lists.antt =====
-- Lists measured by native numbers, the loops over them that the source repeats, and predicates.
use Prim.Native.Nat.{ℕ, zero, suc, ◌+◌}
use mathlib.Core.Path.{◌≡◌, refl}
use mathlib.Core.Logic.{◌⊎◌, inl, inr}
use mathlib.Core.Bool.{Bool, true, false, ◌||◌}
use mathlib.Core.List.{List, [], ◌∷◌, ◌++◌}
use mathlib.Core.Option.{Option, none, some}
use native.Mathlib.Omega.{arith}
use not_dec_bin2llvm.Common.Tests.{if◌then◌else◌, Eq, Bool-cases}

module _ {ℓ} {A : Type ℓ} where
  abbrev pub length : List A → ℕ
  length [] = 0
  length (x ∷ xs) = suc (length xs)

  abbrev pub get_elem? : List A → ℕ → Option A
  get_elem? [] i = none
  get_elem? (x ∷ xs) zero = some x
  get_elem? (x ∷ xs) (suc i) = get_elem? xs i

  abbrev pub take : ℕ → List A → List A
  take zero xs = []
  take (suc n) [] = []
  take (suc n) (x ∷ xs) = x ∷ take n xs

  abbrev pub drop : ℕ → List A → List A
  drop zero xs = xs
  drop (suc n) [] = []
  drop (suc n) (x ∷ xs) = drop n xs

  pub length-append : (xs ys : List A) → length (xs ++ ys) ≡ length xs + length ys
  length-append [] ys = omega arith
  length-append (x ∷ xs) ys = omega (arith, length-append xs ys)

  -- `std::remove_if` keeps what fails the test; this keeps what passes it.
  abbrev pub keep_if : (A → Bool) → List A → List A
  keep_if p [] = []
  keep_if p (x ∷ xs) = if p x then x ∷ keep_if p xs else keep_if p xs

  abbrev pub any : (A → Bool) → List A → Bool
  any p [] = false
  any p (x ∷ xs) = p x || any p xs

  abbrev pub find_if : (A → Bool) → List A → Option A
  find_if p [] = none
  find_if p (x ∷ xs) = if p x then some x else find_if p xs

module _ {ℓ κ} {A : Type ℓ} (P : A → Type κ) where
  -- Every element.
  abbrev pub All : List A → Type κ
  All [] = Unit
  All (x ∷ xs) = P x × All xs

  pub All-append : (xs ys : List A) → All xs → All ys → All (xs ++ ys)
  All-append [] ys _ hy = hy
  All-append (x ∷ xs) ys (px, hx) hy = (px, All-append xs ys hx hy)

  pub All-keep_if : (p : A → Bool) (xs : List A) → All xs → All (keep_if p xs)
  All-keep_if p [] h = tt
  All-keep_if p (x ∷ xs) (px, hx) = ground (arith, All-keep_if p xs hx)

module _ {ℓ} {A : Type ℓ} (P : A → Type 0) where
  -- Some element, with its place.
  abbrev pub Any : List A → Type 0
  Any [] = ⊥
  Any (x ∷ xs) = P x ⊎ Any xs

  pub Any-append_left : (xs ys : List A) → Any xs → Any (xs ++ ys)
  Any-append_left [] ys a = elim a [ ]
  Any-append_left (x ∷ xs) ys (inl a) = inl a
  Any-append_left (x ∷ xs) ys (inr a) = inr (Any-append_left xs ys a)

  pub Any-append_right : (xs ys : List A) → Any ys → Any (xs ++ ys)
  Any-append_right [] ys a = a
  Any-append_right (x ∷ xs) ys a = inr (Any-append_right xs ys a)

-- A weaker property of every element.
pub All-imp {ℓ} :
    {A : Type ℓ} (P Q : A → Type 0) (xs : List A) → ((a : A) → P a → Q a) → All P xs → All Q xs
All-imp P Q [] f h = tt
All-imp P Q (x ∷ xs) f (p, h) = (f x p, All-imp P Q xs f h)

-- `std::find(xs, x) != end`, and the append guarded by it.
module _ {ℓ} {A : Type ℓ} ⦃e : Eq A⦄ where
  unfoldable pub contains : List A → A → Bool
  contains [] a = false
  contains (x ∷ xs) a = e.beq x a || contains xs a

  unfoldable pub add_unique : List A → A → List A
  add_unique xs a = if contains xs a then xs else xs ++ a ∷ []

  -- Removes the first occurrence, as `erase` at the iterator of `std::find` does.
  unfoldable pub erase_first : List A → A → List A
  erase_first [] a = []
  erase_first (x ∷ xs) a = if e.beq x a then xs else x ∷ erase_first xs a

  pub contains-append :
      (xs ys : List A) (a : A) → contains (xs ++ ys) a ≡ contains xs a || contains ys a
  unfolding contains
  contains-append [] ys a = refl
  contains-append (x ∷ xs) ys a = ground (arith, contains-append xs ys a)

  pub contains_own : (a : A) → contains (a ∷ []) a ≡ true
  unfolding contains
  contains_own a = rw ((e.beq_iff a a).1 refl)

  -- An element is there after it was added, and the others are there as before.
  pub contains-add_unique :
      (xs : List A) (a b : A) → contains (add_unique xs a) b ≡ contains xs b || e.beq a b
  unfolding add_unique
  contains-add_unique xs a b = elim (Bool-cases (contains xs a)) [
    | inl there ↦ rw there (elim (Bool-cases (e.beq a b)) [
      | inl same ↦ rw (same, ← (e.beq_iff a b).0 same, there)
      | inr other ↦ rw other (ground arith)
    ])
    | inr absent ↦ rw (absent, contains-append xs (a ∷ []) b) (unfold contains in ground arith)
  ]
