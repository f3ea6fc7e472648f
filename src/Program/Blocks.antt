-- ===== src/Program/Blocks.antt =====
-- lib/NativeAnalysis.cpp: the basic blocks of a confirmed function. A new block splits the blocks
-- that it meets; the decoded instructions say whether a split is a fallthrough edge.
pub mod Splits
pub mod Invariant
pub mod Edges
use not_dec_bin2llvm.Common.{
  ℕ, List, [], ◌∷◌, ◌++◌, Option, none, some, Bool, true, false, not, ltb, leb, ◌==◌, if◌then◌else◌,
  ◌&&◌, ◌||◌, add_unique, contains, nat_eq, min, max, length, is_some, keep_if,
}
use not_dec_bin2llvm.OrderedMap
use not_dec_bin2llvm.Program.{BasicBlock, Function, Instruction, instruction_end, ProgramState}

-- Appends the targets that are not there yet, and says whether there was one.
unfoldable pub add_targets : List ℕ → List ℕ → List ℕ × Bool
unfolding add_unique contains
add_targets existing [] = (existing, false)
add_targets existing (target ∷ targets) =
    let rest = add_targets (add_unique existing target) targets in
    (rest.0, not (contains existing target) || rest.1)

-- `isInstructionFallthroughTo`.
unfoldable pub is_instruction_fallthrough_to : Instruction → ℕ → Bool
is_instruction_fallthrough_to instruction target = elim instruction.fallthrough [
  | none ↦ false
  | some address ↦ address == target && instruction_end instruction == target
]

-- `hasInstructionFallthroughTo`: some instruction from `start` on and before the target.
fallthrough_loop : List (ℕ × Instruction) → ℕ → Bool
fallthrough_loop [] target = false
fallthrough_loop ((address, instruction) ∷ instructions) target =
    let rest = fallthrough_loop instructions target in
    if not (ltb address target)
    then false
    else if is_instruction_fallthrough_to instruction target
    then true
    else rest

unfoldable pub has_instruction_fallthrough_to : List (ℕ × Instruction) → ℕ → ℕ → Bool
unfolding fallthrough_loop OrderedMap.lower_bound is_instruction_fallthrough_to
has_instruction_fallthrough_to instructions start target =
    fallthrough_loop (OrderedMap.lower_bound start instructions) target

-- A block with the start of a known one: its edges are added, or the known one is cut.
unfoldable pub merge_same_start : BasicBlock → BasicBlock → BasicBlock × Bool
merge_same_start existing block =
    if existing.end == block.end
    then (
      record existing { successors = (add_targets existing.successors block.successors).0 },
      (add_targets existing.successors block.successors).1,
    )
    else if ltb block.end existing.end
    then (record existing { end = block.end; successors = block.successors }, true)
    else (existing, false)

keep_front : BasicBlock → Option (List BasicBlock × Bool) → Option (List BasicBlock × Bool)
keep_front existing none = none
keep_front existing (some (blocks, changed)) = some (existing ∷ blocks, changed)

-- The first loop of `addBasicBlock`; `none` where no block has the start.
unfoldable pub update_same_start : BasicBlock → List BasicBlock → Option (List BasicBlock × Bool)
unfolding keep_front
update_same_start block [] = none
update_same_start block (existing ∷ blocks) = elim (existing.start == block.start) [
  | true ↦ some ((merge_same_start existing block).0 ∷ blocks, (merge_same_start existing block).1)
  | false ↦ keep_front existing (update_same_start block blocks)
]

-- The successors after a cut at `target`.
edge_to : List (ℕ × Instruction) → BasicBlock → ℕ → List ℕ
edge_to instructions block target =
    if contains block.successors target
      || has_instruction_fallthrough_to instructions block.start target
    then target ∷ []
    else []

unfoldable pub cut_at : List (ℕ × Instruction) → BasicBlock → ℕ → BasicBlock
unfolding edge_to
cut_at instructions block target = record block {
  end = target;
  successors = edge_to instructions block target;
}

unfoldable pub cut_existing : List (ℕ × Instruction) → BasicBlock → BasicBlock → BasicBlock
cut_existing instructions block existing =
    if ltb existing.start block.start && ltb block.start existing.end
    then cut_at instructions existing block.start
    else existing

unfoldable pub cut_new : List (ℕ × Instruction) → BasicBlock → BasicBlock → BasicBlock
cut_new instructions existing block =
    if ltb block.start existing.start && ltb existing.start block.end
    then cut_at instructions block existing.start
    else block

-- The second loop of `addBasicBlock`.
unfoldable pub split_blocks :
    List (ℕ × Instruction) → List BasicBlock → BasicBlock → List BasicBlock × BasicBlock
split_blocks instructions [] block = ([], block)
split_blocks instructions (existing ∷ blocks) block =
    let rest = split_blocks instructions blocks (cut_new instructions existing block) in
    (cut_existing instructions block existing ∷ rest.0, rest.1)

append_block : Function → List BasicBlock × BasicBlock → Function × Bool
append_block function (blocks, block) =
    if leb block.end block.start then (record function { blocks = blocks }, false) else (
      record function {
        range_start = min function.range_start block.start;
        range_end = max function.range_end block.end;
        blocks = blocks ++ block ∷ [];
      },
      true,
    )

-- The second loop is run where the first found no block with the start.
place_block :
    List (ℕ × Instruction)
    → Function
    → BasicBlock
    → Option (List BasicBlock × Bool)
    → Function × Bool
unfolding append_block
place_block instructions function block (some (blocks, changed)) =
    (record function { blocks = blocks }, changed)
place_block instructions function block none =
    append_block function (split_blocks instructions function.blocks block)

-- What `addBasicBlock` does to the function.
unfoldable pub insert_block : List (ℕ × Instruction) → Function → BasicBlock → Function × Bool
unfolding place_block
insert_block instructions function block =
    place_block instructions function block (update_same_start block function.blocks)

-- Stores what became of a function of the table.
unfoldable pub store_function : ProgramState → Function × Bool → ℕ → ProgramState × Bool
store_function s r entry = (record s { functions = OrderedMap.insert entry r.0 s.functions }, r.1)

unfoldable pub add_basic_block : ProgramState → ℕ → BasicBlock → ProgramState × Bool
add_basic_block s function_entry block = elim (OrderedMap.find function_entry s.functions) [
  | none ↦ (s, false)
  | some function ↦
      if leb block.end block.start
      then (s, false)
      else store_function s (insert_block s.instructions function block) function_entry
]

unfoldable pub has_block_start : List BasicBlock → ℕ → Bool
has_block_start [] address = false
has_block_start (block ∷ blocks) address = block.start == address || has_block_start blocks address

all_block_starts : List BasicBlock → List ℕ → Bool
unfolding has_block_start
all_block_starts blocks [] = true
all_block_starts blocks (successor ∷ successors) =
    has_block_start blocks successor && all_block_starts blocks successors

-- The edges go to the first block with the start.
extend_block : List BasicBlock → ℕ → List ℕ → List BasicBlock × Bool
extend_block [] block_start successors = ([], false)
extend_block (block ∷ blocks) block_start successors =
    let rest = extend_block blocks block_start successors in
    if block.start == block_start
    then (
      record block { successors = (add_targets block.successors successors).0 } ∷ blocks,
      (add_targets block.successors successors).1,
    )
    else (block ∷ rest.0, rest.1)

unfoldable pub extend_function : Function → ℕ → List ℕ → Function × Bool
unfolding all_block_starts extend_block
extend_function function block_start successors =
    if all_block_starts function.blocks successors
    then (
      record function { blocks = (extend_block function.blocks block_start successors).0 },
      (extend_block function.blocks block_start successors).1,
    )
    else (function, false)

unfoldable pub add_basic_block_successors : ProgramState → ℕ → ℕ → List ℕ → ProgramState × Bool
add_basic_block_successors s function_entry block_start successors =
    elim (OrderedMap.find function_entry s.functions) [
      | none ↦ (s, false)
      | some function ↦
          store_function s (extend_function function block_start successors) function_entry
    ]

-- Keeps the successors that are starts of blocks of the function.
unfoldable pub drop_invalid : List BasicBlock → List BasicBlock → List BasicBlock × Bool
unfolding has_block_start
drop_invalid all [] = ([], false)
drop_invalid all (block ∷ blocks) =
    let kept = keep_if (has_block_start all) block.successors in
    let rest = drop_invalid all blocks in
    (
      record block { successors = kept } ∷ rest.0,
      not (length kept == length block.successors) || rest.1,
    )

unfoldable pub remove_invalid_basic_block_successors : ProgramState → ℕ → ProgramState × Bool
remove_invalid_basic_block_successors s function_entry =
    elim (OrderedMap.find function_entry s.functions) [
      | none ↦ (s, false)
      | some function ↦
          store_function s
            (
              record function { blocks = (drop_invalid function.blocks function.blocks).0 },
              (drop_invalid function.blocks function.blocks).1,
            )
            function_entry
    ]
