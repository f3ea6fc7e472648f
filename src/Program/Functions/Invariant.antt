-- ===== src/Program/Functions/Invariant.antt =====
-- The function table is well formed after every operation on functions and blocks.
use not_dec_bin2llvm.Common.{
  ℕ, ◌<◌, List, [], ◌∷◌, some, Bool, true, false, All, leb, not, ◌==◌, ◌||◌, ◌≡◌, ◌≢◌, refl, ◌∙◌,
  arith, inl, inr, Option-cases, Bool-cases, is_some, Text,
}
use not_dec_bin2llvm.Memory.{MemoryRange, is_executable_address}
use not_dec_bin2llvm.OrderedMap
use not_dec_bin2llvm.OrderedMap.{IsOrdered}
use not_dec_bin2llvm.OrderedMap.Laws.{
  All-insert, All-erase, All-find, insert-IsOrdered, erase-IsOrdered,
}
use not_dec_bin2llvm.Program.{BasicBlock, Function, ProgramState, add_note}
use not_dec_bin2llvm.Program.Blocks.{
  insert_block, store_function, add_basic_block, extend_function, add_basic_block_successors,
  drop_invalid, remove_invalid_basic_block_successors,
}
use not_dec_bin2llvm.Program.Blocks.Splits.{IsNonempty}
use not_dec_bin2llvm.Program.Blocks.Invariant.{
  Within, BlocksAreWithin, insert_block-BlocksAreWithin, insert_block_range,
}
use not_dec_bin2llvm.Program.Blocks.Edges.{
  Within-SameRanges, extend_function_ranges, SameRanges, drop_invalid-SameRanges,
}
use not_dec_bin2llvm.Program.Functions.{
  has_invalid_block, with_seed_visibility, outside_note, invalid_block_note, add_function,
  remove_function,
}

-- A function is filed under its entry, which is an executable address, and its blocks are non-empty
-- and within its non-empty range.
abbrev pub FunctionIsOk : List MemoryRange → ℕ × Function → Type 0
FunctionIsOk ranges p =
    (p.0 ≢ 0)
    × (p.1.entry ≡ p.0)
    × (is_executable_address ranges p.0 ≡ true)
    × (p.1.range_start < p.1.range_end)
    × BlocksAreWithin p.1

pub record FunctionsAreValid (s : ProgramState) : Type 0 where
  pub ordered : IsOrdered s.functions
  pub functions : All (FunctionIsOk s.memory_ranges) s.functions

valid_blocks :
    (f : Function) (blocks : List BasicBlock)
    → has_invalid_block f blocks ≡ false
    → All (Within f.range_start f.range_end) blocks
unfolding has_invalid_block
valid_blocks f [] h = tt
valid_blocks f (b ∷ blocks) h = ground (arith, valid_blocks f blocks)

module _ (s : ProgramState) (v : FunctionsAreValid s) where
  stored :
      (entry : ℕ) (f : Function) (done : Bool)
      → FunctionIsOk s.memory_ranges (entry, f)
      → FunctionsAreValid (store_function s (f, done) entry).0
  unfolding store_function
  stored entry f done ok = record {
    ordered = insert-IsOrdered entry f s.functions v.ordered;
    functions = All-insert (FunctionIsOk s.memory_ranges) entry f s.functions ok v.functions;
  }

  noted : (note : Text) → FunctionsAreValid (add_note s note)
  unfolding add_note
  noted note = record { ordered = v.ordered; functions = v.functions }

  -- What holds of the function at an entry of the table.
  found_ok :
      (entry : ℕ) (f : Function)
      → OrderedMap.find entry s.functions ≡ some f
      → FunctionIsOk s.memory_ranges (entry, f)
  found_ok entry f e = All-find (FunctionIsOk s.memory_ranges) entry s.functions v.functions e

  accepted :
      (f : Function)
      → (f.entry == 0 || leb f.range_end f.range_start) ≡ false
      → not (is_executable_address s.memory_ranges f.entry) ≡ false
      → has_invalid_block f f.blocks ≡ false
      → FunctionIsOk s.memory_ranges (f.entry, with_seed_visibility s f)
  unfolding with_seed_visibility
  accepted f shape executable blocks =
      (ground arith, refl, ground arith, ground arith, valid_blocks f f.blocks blocks)

  -- A function is accepted only where it is well formed.
  pub add_function-FunctionsAreValid : (f : Function) → FunctionsAreValid (add_function s f).0
  unfolding add_function
  add_function-FunctionsAreValid f =
      elim (Bool-cases (f.entry == 0 || leb f.range_end f.range_start)) [
        | inl bad ↦ rw (bad, add_function) v
        | inr shape ↦ elim (Bool-cases (not (is_executable_address s.memory_ranges f.entry))) [
          | inl outside ↦ rw (shape, outside, add_function) (noted (outside_note f.entry))
          | inr inside ↦ elim (Bool-cases (is_some (OrderedMap.find f.entry s.functions))) [
            | inl known ↦ rw (shape, inside, known, add_function) v
            | inr new ↦ elim (Bool-cases (has_invalid_block f f.blocks)) [
              | inl invalid ↦
                  rw (shape, inside, new, invalid, add_function)
                    (noted (invalid_block_note f.entry))
              | inr valid ↦
                  rw (shape, inside, new, valid, add_function)
                    (unfold store_function in
                      stored f.entry (with_seed_visibility s f) true
                        (accepted f shape inside valid))
            ]
          ]
        ]
      ]

  pub remove_function-FunctionsAreValid :
      (entry : ℕ) → FunctionsAreValid (remove_function s entry).0
  unfolding remove_function
  remove_function-FunctionsAreValid entry = record {
    ordered = erase-IsOrdered entry s.functions v.ordered;
    functions = All-erase (FunctionIsOk s.memory_ranges) entry s.functions v.functions;
  }

  inserted_ok :
      (entry : ℕ) (f : Function) (b : BasicBlock)
      → IsNonempty b
      → FunctionIsOk s.memory_ranges (entry, f)
      → FunctionIsOk s.memory_ranges (entry, (insert_block s.instructions f b).0)
  inserted_ok entry f b h (nonzero, same, executable, range, w) =
      let (same', lower, upper) = insert_block_range s.instructions f b in
      (
        nonzero,
        same' ∙ same,
        executable,
        omega arith,
        insert_block-BlocksAreWithin s.instructions f b h w,
      )

  pub add_basic_block-FunctionsAreValid :
      (entry : ℕ) (b : BasicBlock) → FunctionsAreValid (add_basic_block s entry b).0
  unfolding add_basic_block
  add_basic_block-FunctionsAreValid entry b =
      elim (Option-cases (OrderedMap.find entry s.functions)) [
        | inl missing ↦ rw (missing, add_basic_block) v
        | inr (f, found) ↦ elim (Bool-cases (leb b.end b.start)) [
          | inl empty ↦ rw (found, empty, add_basic_block) v
          | inr nonempty ↦
              rw (found, nonempty, add_basic_block)
                (stored entry (insert_block s.instructions f b).0
                  (insert_block s.instructions f b).1
                  (inserted_ok entry f b (ground arith) (found_ok entry f found)))
        ]
      ]

  pub add_basic_block_successors-FunctionsAreValid :
      (entry start : ℕ) (targets : List ℕ)
      → FunctionsAreValid (add_basic_block_successors s entry start targets).0
  unfolding add_basic_block_successors
  add_basic_block_successors-FunctionsAreValid entry start targets =
      elim (Option-cases (OrderedMap.find entry s.functions)) [
        | inl missing ↦ rw (missing, add_basic_block_successors) v
        | inr (f, found) ↦
            rw (found, add_basic_block_successors)
              (stored entry (extend_function f start targets).0 (extend_function f start targets).1
                (extended f (found_ok entry f found) (extend_function f start targets).0
                  (extend_function_ranges f start targets)))
      ]
    where
      extended :
          (f : Function)
          → FunctionIsOk s.memory_ranges (entry, f)
          → (g : Function)
          → (g.entry ≡ f.entry)
            × (g.range_start ≡ f.range_start)
            × (g.range_end ≡ f.range_end)
            × SameRanges f.blocks g.blocks
          → FunctionIsOk s.memory_ranges (entry, g)
      extended f (nonzero, same, executable, range, w) g (a, b, c, r) = (
        nonzero,
        a ∙ same,
        executable,
        omega arith,
        rw (b, c) (Within-SameRanges f.range_start f.range_end f.blocks g.blocks r w),
      )

  pub remove_invalid-FunctionsAreValid :
      (entry : ℕ) → FunctionsAreValid (remove_invalid_basic_block_successors s entry).0
  unfolding remove_invalid_basic_block_successors
  remove_invalid-FunctionsAreValid entry = elim (Option-cases (OrderedMap.find entry s.functions)) [
    | inl missing ↦ rw (missing, remove_invalid_basic_block_successors) v
    | inr (f, found) ↦
        let ok = found_ok entry f found in
        rw (found, remove_invalid_basic_block_successors)
          (stored entry (record f { blocks = (drop_invalid f.blocks f.blocks).0 })
            (drop_invalid f.blocks f.blocks).1
            (
              ok.0,
              ok.1,
              ok.2,
              ok.3,
              Within-SameRanges f.range_start f.range_end f.blocks
                  (drop_invalid f.blocks f.blocks).0 (drop_invalid-SameRanges f.blocks f.blocks)
                  ok.4,
            ))
  ]
