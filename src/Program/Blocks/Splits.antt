-- ===== src/Program/Blocks/Splits.antt =====
-- The blocks of a function stay non-empty, inside the function's range and pairwise disjoint.
use not_dec_bin2llvm.Common.{ℕ, ◌≤◌, ◌<◌, List, [], ◌∷◌, All, ◌≡◌, ◌≢◌, refl, arith, ◌⊎◌, All-imp}
use not_dec_bin2llvm.Program.{BasicBlock, Instruction}
use not_dec_bin2llvm.Program.Blocks.{cut_at, cut_existing, cut_new, split_blocks}

abbrev pub IsNonempty : BasicBlock → Type 0
IsNonempty b = b.start < b.end

abbrev pub Disjoint : BasicBlock → BasicBlock → Type 0
Disjoint a b = (a.end ≤ b.start) ⊎ (b.end ≤ a.start)

abbrev pub AllDisjoint : List BasicBlock → Type 0
AllDisjoint [] = Unit
AllDisjoint (b ∷ ys) = All (Disjoint b) ys × AllDisjoint ys

-- A non-empty block within another, with the same start.
abbrev pub Shrunk : BasicBlock → BasicBlock → Type 0
Shrunk a b = (b.start ≡ a.start) × (b.end ≤ a.end) × (b.start < b.end)

abbrev pub AllShrunk : List BasicBlock → List BasicBlock → Type 0
AllShrunk [] [] = Unit
AllShrunk (a ∷ xs) (b ∷ ys) = Shrunk a b × AllShrunk xs ys
AllShrunk _ _ = ⊥

Disjoint-Shrunk :
    (a b : BasicBlock) (xs ys : List BasicBlock)
    → Shrunk a b
    → AllShrunk xs ys
    → All (Disjoint a) xs
    → All (Disjoint b) ys
Disjoint-Shrunk a b [] [] h k d = tt
Disjoint-Shrunk a b [] (_ ∷ _) h k d = elim k [ ]
Disjoint-Shrunk a b (_ ∷ _) [] h k d = elim k [ ]
Disjoint-Shrunk a b (x ∷ xs) (y ∷ ys) h (k, ks) (d, ds) =
    (ground arith, Disjoint-Shrunk a b xs ys h ks ds)

-- Shrinking blocks keeps them apart.
pub AllDisjoint-shrunk :
    (xs ys : List BasicBlock) → AllShrunk xs ys → AllDisjoint xs → AllDisjoint ys
AllDisjoint-shrunk [] [] k d = tt
AllDisjoint-shrunk [] (_ ∷ _) k d = elim k [ ]
AllDisjoint-shrunk (_ ∷ _) [] k d = elim k [ ]
AllDisjoint-shrunk (a ∷ xs) (b ∷ ys) (h, k) (d, ds) =
    (Disjoint-Shrunk a b xs ys h k d, AllDisjoint-shrunk xs ys k ds)

abbrev pub StartsElsewhere : BasicBlock → BasicBlock → Type 0
StartsElsewhere b e = e.start ≢ b.start

module _ (instructions : List (ℕ × Instruction)) where
  cut_new-Shrunk : (e b : BasicBlock) → IsNonempty b → Shrunk b (cut_new instructions e b)
  unfolding cut_new cut_at
  cut_new-Shrunk e b h = ground arith

  cut_existing-Shrunk : (e b : BasicBlock) → IsNonempty e → Shrunk e (cut_existing instructions b e)
  unfolding cut_existing cut_at
  cut_existing-Shrunk e b h = ground arith

  -- After the cuts the two blocks are apart, unless they have one start.
  cuts-Disjoint :
      (e b : BasicBlock)
      → e.start ≢ b.start
      → Disjoint (cut_new instructions e b) (cut_existing instructions b e)
  unfolding cut_new cut_existing cut_at
  cuts-Disjoint e b h = ground arith

  abbrev pub SplitResult : List BasicBlock → BasicBlock → List BasicBlock × BasicBlock → Type 0
  SplitResult ys b r = AllShrunk ys r.0 × Shrunk b r.1 × All (Disjoint r.1) r.0

  -- The second loop shrinks the known blocks and the new one until they are apart.
  pub split_blocks-SplitResult :
      (ys : List BasicBlock) (b : BasicBlock)
      → All IsNonempty ys
      → IsNonempty b
      → All (StartsElsewhere b) ys
      → SplitResult ys b (split_blocks instructions ys b)
  unfolding split_blocks
  split_blocks-SplitResult [] b n h d = (tt, (refl, omega arith, h), tt)
  split_blocks-SplitResult (e ∷ ys) b (n, ns) h (d, ds) =
      let cut = cut_new-Shrunk e b h in
      let rest = split_blocks-SplitResult ys (cut_new instructions e b) ns cut.2 (
        All-imp (StartsElsewhere b) (StartsElsewhere (cut_new instructions e b)) ys
          (λ x k. ground (arith, cut)) ds) in
      (
        (cut_existing-Shrunk e b n, rest.0),
        ground (arith, cut, rest.1),
        (ground (arith, cuts-Disjoint e b d, rest.1), rest.2),
      )
