-- ===== src/Program/Blocks/Invariant.antt =====
-- `addBasicBlock` keeps the blocks of a function non-empty, inside the function's range and apart.
use not_dec_bin2llvm.Common.{
  ℕ, ◌≤◌, List, [], ◌∷◌, ◌++◌, Option, none, some, Bool, All, min, max, leb, ◌==◌, ◌≡◌, ◌≢◌, refl,
  arith, inl, inr, Bool-cases, All-imp, All-append,
}
use not_dec_bin2llvm.Program.{BasicBlock, Function, Instruction}
use not_dec_bin2llvm.Program.Blocks.{
  merge_same_start, update_same_start, split_blocks, append_block, insert_block, keep_front,
  place_block,
}
use not_dec_bin2llvm.Program.Blocks.Splits.{
  IsNonempty, Disjoint, AllDisjoint, Shrunk, AllShrunk, AllDisjoint-shrunk, StartsElsewhere,
  split_blocks-SplitResult,
}

abbrev pub Within : ℕ → ℕ → BasicBlock → Type 0
Within range_start range_end b = (range_start ≤ b.start) × (b.end ≤ range_end) × IsNonempty b

-- What `addFunction` checks of the blocks.
abbrev pub BlocksAreWithin : Function → Type 0
BlocksAreWithin f = All (Within f.range_start f.range_end) f.blocks

abbrev pub BlocksAreApart : Function → Type 0
BlocksAreApart f = AllDisjoint f.blocks

Within-shrunk :
    (l h : ℕ) (xs ys : List BasicBlock)
    → AllShrunk xs ys
    → All (Within l h) xs
    → All (Within l h) ys
Within-shrunk l h [] [] k w = tt
Within-shrunk l h [] (_ ∷ _) k w = elim k [ ]
Within-shrunk l h (_ ∷ _) [] k w = elim k [ ]
Within-shrunk l h (x ∷ xs) (y ∷ ys) (k, ks) (w, ws) = (ground arith, Within-shrunk l h xs ys ks ws)

AllShrunk-self : (xs : List BasicBlock) → All IsNonempty xs → AllShrunk xs xs
AllShrunk-self [] n = tt
AllShrunk-self (x ∷ xs) (n, ns) = ((refl, omega arith, n), AllShrunk-self xs ns)

IsNonempty-Within : (l h : ℕ) (xs : List BasicBlock) → All (Within l h) xs → All IsNonempty xs
IsNonempty-Within l h xs = All-imp (Within l h) IsNonempty xs (λ x w. w.2)

merge_same_start-Shrunk :
    (e b : BasicBlock)
    → IsNonempty e
    → IsNonempty b
    → e.start ≡ b.start
    → Shrunk e (merge_same_start e b).0
unfolding merge_same_start
merge_same_start-Shrunk e b n h same = ground arith

-- The first loop shrinks the block with the same start, or finds none.
abbrev Updated : BasicBlock → List BasicBlock → Option (List BasicBlock × Bool) → Type 0
Updated b xs none = All (StartsElsewhere b) xs
Updated b xs (some r) = AllShrunk xs r.0

keep_front-Updated :
    (b x : BasicBlock) (xs : List BasicBlock) (r : Option (List BasicBlock × Bool))
    → x.start ≢ b.start
    → IsNonempty x
    → Updated b xs r
    → Updated b (x ∷ xs) (keep_front x r)
unfolding keep_front
keep_front-Updated b x xs none d n u = (d, u)
keep_front-Updated b x xs (some (rest, changed)) d n u = ((refl, omega arith, n), u)

update_same_start-Updated :
    (b : BasicBlock) (xs : List BasicBlock)
    → All IsNonempty xs
    → IsNonempty b
    → Updated b xs (update_same_start b xs)
unfolding update_same_start
update_same_start-Updated b [] n h = tt
update_same_start-Updated b (x ∷ xs) (n, ns) h = elim (Bool-cases (x.start == b.start)) [
  | inl same ↦
      rw (same, update_same_start)
        (merge_same_start-Shrunk x b n h (ground arith), AllShrunk-self xs ns)
  | inr other ↦
      rw (other, update_same_start)
        (keep_front-Updated b x xs (update_same_start b xs) (ground arith) n
          (update_same_start-Updated b xs ns h))
]

wider :
    (f : Function) (b : BasicBlock) (xs : List BasicBlock)
    → All (Within f.range_start f.range_end) xs
    → All (Within (min f.range_start b.start) (max f.range_end b.end)) xs
wider f b xs =
    All-imp (Within f.range_start f.range_end)
      (Within (min f.range_start b.start) (max f.range_end b.end)) xs (λ x w. omega arith)

apart_append :
    (xs : List BasicBlock) (b : BasicBlock)
    → AllDisjoint xs
    → All (Disjoint b) xs
    → AllDisjoint (xs ++ b ∷ [])
apart_append [] b d e = (tt, tt)
apart_append (x ∷ xs) b (d, ds) (e, es) =
    (All-append (Disjoint x) xs (b ∷ []) d (ground arith, tt), apart_append xs b ds es)

append_block-BlocksAreWithin :
    (f : Function) (xs : List BasicBlock) (b : BasicBlock)
    → All (Within f.range_start f.range_end) xs
    → BlocksAreWithin (append_block f (xs, b)).0
unfolding append_block
append_block-BlocksAreWithin f xs b w = elim (Bool-cases (leb b.end b.start)) [
  | inl empty ↦ rw empty w
  | inr nonempty ↦ rw nonempty (
      All-append (Within (min f.range_start b.start) (max f.range_end b.end)) xs (b ∷ [])
        (wider f b xs w) (ground arith, tt))
]

append_block-BlocksAreApart :
    (f : Function) (xs : List BasicBlock) (b : BasicBlock)
    → AllDisjoint xs
    → All (Disjoint b) xs
    → BlocksAreApart (append_block f (xs, b)).0
unfolding append_block
append_block-BlocksAreApart f xs b d e =
    let apart = apart_append xs b d e in
    elim (Bool-cases (leb b.end b.start)) [
      | inl empty ↦ rw empty d
      | inr nonempty ↦ rw nonempty apart
    ]

module _ (instructions : List (ℕ × Instruction)) (f : Function) (b : BasicBlock) where
  place_block-BlocksAreWithin :
      (u : Option (List BasicBlock × Bool))
      → IsNonempty b
      → BlocksAreWithin f
      → Updated b f.blocks u
      → BlocksAreWithin (place_block instructions f b u).0
  unfolding place_block
  place_block-BlocksAreWithin (some (blocks, changed)) h w u =
      Within-shrunk f.range_start f.range_end f.blocks blocks u w
  place_block-BlocksAreWithin none h w u =
      let ns = IsNonempty-Within f.range_start f.range_end f.blocks w in
      let r = split_blocks instructions f.blocks b in
      append_block-BlocksAreWithin f r.0 r.1 (
        Within-shrunk f.range_start f.range_end f.blocks r.0
          (split_blocks-SplitResult instructions f.blocks b ns h u).0 w)

  place_block-BlocksAreApart :
      (u : Option (List BasicBlock × Bool))
      → IsNonempty b
      → All IsNonempty f.blocks
      → BlocksAreApart f
      → Updated b f.blocks u
      → BlocksAreApart (place_block instructions f b u).0
  unfolding place_block
  place_block-BlocksAreApart (some (blocks, changed)) h ns d u =
      AllDisjoint-shrunk f.blocks blocks u d
  place_block-BlocksAreApart none h ns d u =
      let (shrunk, new, apart) = split_blocks-SplitResult instructions f.blocks b ns h u in
      let r = split_blocks instructions f.blocks b in
      append_block-BlocksAreApart f r.0 r.1 (AllDisjoint-shrunk f.blocks r.0 shrunk d) apart

  -- A non-empty block keeps the blocks non-empty and within the range of the function, which
  -- grows as needed.
  pub insert_block-BlocksAreWithin :
      IsNonempty b → BlocksAreWithin f → BlocksAreWithin (insert_block instructions f b).0
  unfolding insert_block
  insert_block-BlocksAreWithin h w =
      place_block-BlocksAreWithin (update_same_start b f.blocks) h w (
        update_same_start-Updated b f.blocks
          (IsNonempty-Within f.range_start f.range_end f.blocks w) h)

  -- A non-empty block keeps the blocks of a function, non-empty ones within its range, pairwise
  -- disjoint: it splits what it overlaps.
  pub insert_block-BlocksAreApart :
      IsNonempty b
      → BlocksAreWithin f
      → BlocksAreApart f
      → BlocksAreApart (insert_block instructions f b).0
  unfolding insert_block
  insert_block-BlocksAreApart h w d =
      let ns = IsNonempty-Within f.range_start f.range_end f.blocks w in
      place_block-BlocksAreApart (update_same_start b f.blocks) h ns d
        (update_same_start-Updated b f.blocks ns h)

  -- The entry stays, and the range only grows.
  pub insert_block_range :
      let g = (insert_block instructions f b).0 in
      (g.entry ≡ f.entry) × (g.range_start ≤ f.range_start) × (f.range_end ≤ g.range_end)
  unfolding insert_block place_block append_block
  insert_block_range = ground arith
