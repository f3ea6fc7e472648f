-- ===== src/Program/Blocks/Edges.antt =====
-- The operations on edges leave the ranges of the blocks alone, and edges end at block starts.
use not_dec_bin2llvm.Common.{
  ℕ, List, [], ◌∷◌, true, All, ◌≡◌, refl, arith, inl, inr, Bool-cases, add_unique, keep_if, nat_eq,
  All-append, All-imp,
}
use not_dec_bin2llvm.Program.{BasicBlock, Function}
use not_dec_bin2llvm.Program.Blocks.{
  add_targets, has_block_start, all_block_starts, extend_block, extend_function, drop_invalid,
}
use not_dec_bin2llvm.Program.Blocks.Invariant.{Within}

-- The same ranges in the same order.
abbrev pub SameRanges : List BasicBlock → List BasicBlock → Type 0
SameRanges [] [] = Unit
SameRanges (a ∷ xs) (b ∷ ys) = (a.start ≡ b.start) × (a.end ≡ b.end) × SameRanges xs ys
SameRanges _ _ = ⊥

SameRanges-refl : (xs : List BasicBlock) → SameRanges xs xs
SameRanges-refl [] = tt
SameRanges-refl (x ∷ xs) = (refl, refl, SameRanges-refl xs)

pub Within-SameRanges :
    (l h : ℕ) (xs ys : List BasicBlock)
    → SameRanges xs ys
    → All (Within l h) xs
    → All (Within l h) ys
Within-SameRanges l h [] [] k w = tt
Within-SameRanges l h [] (_ ∷ _) k w = elim k [ ]
Within-SameRanges l h (_ ∷ _) [] k w = elim k [ ]
Within-SameRanges l h (x ∷ xs) (y ∷ ys) (a, b, k) (w, ws) =
    (omega arith, Within-SameRanges l h xs ys k ws)

has_block_start-SameRanges :
    (xs ys : List BasicBlock) (a : ℕ)
    → SameRanges xs ys
    → has_block_start xs a ≡ true
    → has_block_start ys a ≡ true
unfolding has_block_start
has_block_start-SameRanges [] [] a k h = h
has_block_start-SameRanges [] (_ ∷ _) a k h = elim k [ ]
has_block_start-SameRanges (_ ∷ _) [] a k h = elim k [ ]
has_block_start-SameRanges (x ∷ xs) (y ∷ ys) a (p, q, k) h =
    ground (arith, has_block_start-SameRanges xs ys a k)

extend_block-SameRanges :
    (blocks : List BasicBlock) (start : ℕ) (successors : List ℕ)
    → SameRanges blocks (extend_block blocks start successors).0
unfolding extend_block
extend_block-SameRanges [] start successors = tt
extend_block-SameRanges (b ∷ blocks) start successors =
    ground (arith, extend_block-SameRanges blocks start successors, SameRanges-refl blocks)

pub drop_invalid-SameRanges :
    (all blocks : List BasicBlock) → SameRanges blocks (drop_invalid all blocks).0
unfolding drop_invalid
drop_invalid-SameRanges all [] = tt
drop_invalid-SameRanges all (b ∷ blocks) = (refl, refl, drop_invalid-SameRanges all blocks)

-- Every successor of the block starts one of the blocks.
abbrev pub EdgesAreClosed : List BasicBlock → BasicBlock → Type 0
EdgesAreClosed all b = All (λ a. has_block_start all a ≡ true) b.successors

kept_are_starts :
    (all : List BasicBlock) (targets : List ℕ)
    → All (λ a. has_block_start all a ≡ true) (keep_if (has_block_start all) targets)
kept_are_starts all [] = tt
kept_are_starts all (t ∷ targets) = ground (arith, kept_are_starts all targets)

closed_SameRanges :
    (xs ys blocks : List BasicBlock)
    → SameRanges xs ys
    → All (EdgesAreClosed xs) blocks
    → All (EdgesAreClosed ys) blocks
closed_SameRanges xs ys blocks k = All-imp (EdgesAreClosed xs) (EdgesAreClosed ys) blocks (λ b.
    All-imp (λ a. has_block_start xs a ≡ true) (λ a. has_block_start ys a ≡ true) b.successors
      (λ a. has_block_start-SameRanges xs ys a k))

drop_invalid_closed :
    (all blocks : List BasicBlock) → All (EdgesAreClosed all) (drop_invalid all blocks).0
unfolding drop_invalid
drop_invalid_closed all [] = tt
drop_invalid_closed all (b ∷ blocks) =
    (kept_are_starts all b.successors, drop_invalid_closed all blocks)

-- Once the invalid successors are dropped, every edge of the function ends at one of its blocks.
pub drop_invalid-EdgesAreClosed :
    (blocks : List BasicBlock)
    → All (EdgesAreClosed (drop_invalid blocks blocks).0) (drop_invalid blocks blocks).0
drop_invalid-EdgesAreClosed blocks =
    closed_SameRanges blocks (drop_invalid blocks blocks).0 (drop_invalid blocks blocks).0
      (drop_invalid-SameRanges blocks blocks) (drop_invalid_closed blocks blocks)

pub add_unique-All :
    (P : ℕ → Type 0) (xs : List ℕ) (a : ℕ) → All P xs → P a → All P (add_unique xs a)
unfolding add_unique
add_unique-All P xs a h p = ground (arith, All-append P xs (a ∷ []) h (p, tt))

-- Added targets keep a property that all of them have.
pub add_targets-All :
    (P : ℕ → Type 0) (xs targets : List ℕ)
    → All P xs
    → All P targets
    → All P (add_targets xs targets).0
unfolding add_targets
add_targets-All P xs [] h k = h
add_targets-All P xs (t ∷ targets) h (p, k) =
    add_targets-All P (add_unique xs t) targets (add_unique-All P xs t h p) k

all_block_starts_sound :
    (blocks : List BasicBlock) (targets : List ℕ)
    → all_block_starts blocks targets ≡ true
    → All (λ a. has_block_start blocks a ≡ true) targets
unfolding all_block_starts
all_block_starts_sound blocks [] h = tt
all_block_starts_sound blocks (t ∷ targets) h =
    ground (arith, all_block_starts_sound blocks targets)

extend_block_closed :
    (all blocks : List BasicBlock) (start : ℕ) (targets : List ℕ)
    → All (λ a. has_block_start all a ≡ true) targets
    → All (EdgesAreClosed all) blocks
    → All (EdgesAreClosed all) (extend_block blocks start targets).0
unfolding extend_block
extend_block_closed all [] start targets h k = tt
extend_block_closed all (b ∷ blocks) start targets h (c, k) =
    let longer = add_targets-All (λ a. has_block_start all a ≡ true) b.successors targets c h in
    ground (arith, longer, extend_block_closed all blocks start targets h k)

-- `addBasicBlockSuccessors` refuses an edge out of the function, so closed edges stay closed.
pub extend_function-EdgesAreClosed :
    (f : Function) (start : ℕ) (targets : List ℕ)
    → All (EdgesAreClosed f.blocks) f.blocks
    → All
        (EdgesAreClosed (extend_function f start targets).0.blocks)
        (extend_function f start targets).0.blocks
unfolding extend_function
extend_function-EdgesAreClosed f start targets k =
    elim (Bool-cases (all_block_starts f.blocks targets)) [
      | inr refused ↦ rw refused k
      | inl inside ↦
          let r = (extend_block f.blocks start targets).0 in
          rw inside (
            closed_SameRanges f.blocks r r (extend_block-SameRanges f.blocks start targets) (
              extend_block_closed f.blocks f.blocks start targets
                (all_block_starts_sound f.blocks targets inside) k))
    ]

-- The edits of edges change no range of the function.
pub extend_function_ranges :
    (f : Function) (start : ℕ) (targets : List ℕ)
    → let g = (extend_function f start targets).0 in
      (g.entry ≡ f.entry)
      × (g.range_start ≡ f.range_start)
      × (g.range_end ≡ f.range_end)
      × SameRanges f.blocks g.blocks
unfolding extend_function
extend_function_ranges f start targets =
    ground (arith, extend_block-SameRanges f.blocks start targets, SameRanges-refl f.blocks)
