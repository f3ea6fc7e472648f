-- ===== src/Program/Functions.antt =====
-- lib/NativeAnalysis.cpp: the table of confirmed functions.
pub mod Invariant
use not_dec_bin2llvm.Common.{
  ℕ, List, [], ◌∷◌, ◌++◌, Option, none, some, Bool, true, false, not, ltb, leb, ◌==◌, if◌then◌else◌,
  ◌&&◌, ◌||◌, Text, codes, is_some, any,
}
use not_dec_bin2llvm.Memory.{is_executable_address}
use not_dec_bin2llvm.Numbers.{hex_address}
use not_dec_bin2llvm.OrderedMap
use not_dec_bin2llvm.Program.{BasicBlock, Function, FunctionSeed, ProgramState, add_note}

-- `functionAt`.
unfoldable pub function_at : ProgramState → ℕ → Option Function
function_at s entry = OrderedMap.find entry s.functions

unfoldable pub block_contains : ℕ → BasicBlock → Bool
block_contains address block = leb block.start address && ltb address block.end

-- `functionBlockContaining`, and the first function with such a block.
unfoldable pub function_block_containing : List BasicBlock → ℕ → Option BasicBlock
unfolding block_contains
function_block_containing [] address = none
function_block_containing (block ∷ blocks) address =
    if block_contains address block then some block else function_block_containing blocks address

unfoldable pub containing_loop : List (ℕ × Function) → ℕ → Option Function
containing_loop [] address = none
containing_loop ((entry, function) ∷ functions) address =
    if is_some (function_block_containing function.blocks address)
    then some function
    else containing_loop functions address

unfoldable pub function_containing : ProgramState → ℕ → Option Function
unfolding containing_loop
function_containing s address = containing_loop s.functions address

-- The loop of `addFunction` over the blocks.
unfoldable pub has_invalid_block : Function → List BasicBlock → Bool
has_invalid_block function [] = false
has_invalid_block function (block ∷ blocks) =
    ltb block.start function.range_start
    || ltb function.range_end block.end
    || leb block.end block.start
    || has_invalid_block function blocks

-- A function is visible outside if its seed is.
seed_visible : Option FunctionSeed → Bool
seed_visible none = false
seed_visible (some seed) = seed.is_externally_visible

unfoldable pub with_seed_visibility : ProgramState → Function → Function
unfolding seed_visible
with_seed_visibility s function = record function {
  is_externally_visible =
      function.is_externally_visible
      || seed_visible (OrderedMap.find function.entry s.function_seeds);
}

outside_note : ℕ → Text
outside_note entry =
    codes "confirmed function entry outside executable memory: " ++ hex_address entry

invalid_block_note : ℕ → Text
invalid_block_note entry =
    codes "confirmed function has invalid block range at " ++ hex_address entry

-- `addFunction`.
unfoldable pub add_function : ProgramState → Function → ProgramState × Bool
unfolding outside_note invalid_block_note
add_function s function =
    if function.entry == 0 || leb function.range_end function.range_start
    then (s, false)
    else if not (is_executable_address s.memory_ranges function.entry)
    then (add_note s (outside_note function.entry), false)
    else if is_some (OrderedMap.find function.entry s.functions)
    then (s, false)
    else if has_invalid_block function function.blocks
    then (add_note s (invalid_block_note function.entry), false)
    else (
      record s {
        functions = OrderedMap.insert function.entry (with_seed_visibility s function) s.functions;
      },
      true,
    )

-- `removeFunction`.
unfoldable pub remove_function : ProgramState → ℕ → ProgramState × Bool
remove_function s entry = (
  record s { functions = OrderedMap.erase entry s.functions },
  is_some (OrderedMap.find entry s.functions),
)
