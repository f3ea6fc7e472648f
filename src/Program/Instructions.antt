-- ===== src/Program/Instructions.antt =====
-- lib/NativeAnalysis.cpp: the decoded instructions and their flow targets.
pub mod Invariant
pub mod Ranges
pub mod TailFlow
use not_dec_bin2llvm.Common.{
  ℕ, ◌-◌, List, [], ◌∷◌, ◌++◌, Option, none, some, Bool, true, false, not, ltb, leb, ◌==◌,
  if◌then◌else◌, ◌&&◌, ◌||◌, Text, codes, is_some, length, max_u64, contains, add_unique,
  erase_first, nat_eq,
}
use not_dec_bin2llvm.Memory.{executable_range_contains}
use not_dec_bin2llvm.Numbers.{hex_address}
use not_dec_bin2llvm.OrderedMap
use not_dec_bin2llvm.Program.{Instruction, instruction_end, ProgramState, add_note}
use not_dec_bin2llvm.Program.Blocks.{add_targets}

-- `instructionAt`.
unfoldable pub instruction_at : ProgramState → ℕ → Option Instruction
instruction_at s address = OrderedMap.find address s.instructions

before : List (ℕ × Instruction) → ℕ → List Instruction
before [] end = []
before ((address, instruction) ∷ instructions) end =
    if ltb address end then instruction ∷ before instructions end else []

-- `instructionsInRange`.
unfoldable pub instructions_in_range : ProgramState → ℕ → ℕ → List Instruction
unfolding before
instructions_in_range s start end =
    if leb end start then [] else before (OrderedMap.lower_bound start s.instructions) end

outside_note : ℕ → Text
outside_note address = codes "instruction outside executable range at " ++ hex_address address

length_note : ℕ → Text
length_note address = codes "instruction byte length mismatch at " ++ hex_address address

is_empty_bytes : List ℕ → Bool
is_empty_bytes [] = true
is_empty_bytes (byte ∷ bytes) = false

-- `addInstruction`; `emplace` keeps an instruction that is there.
unfoldable pub add_instruction : ProgramState → Instruction → ProgramState × Bool
unfolding outside_note length_note is_empty_bytes
add_instruction s instruction =
    if instruction.address == 0 || instruction.size == 0
    then (s, false)
    else if ltb (max_u64 - instruction.size) instruction.address
    then (s, false)
    else if not (
        executable_range_contains s.memory_ranges instruction.address (instruction_end instruction))
    then (add_note s (outside_note instruction.address), false)
    else if not (is_empty_bytes instruction.bytes)
        && not (length instruction.bytes == instruction.size)
    then (add_note s (length_note instruction.address), false)
    else if is_some (OrderedMap.find instruction.address s.instructions)
    then (s, false)
    else (
      record s { instructions = OrderedMap.insert instruction.address instruction s.instructions },
      true,
    )

-- Stores what became of an instruction of the table.
unfoldable pub store_instruction : ProgramState → ℕ → Instruction × Bool → ProgramState × Bool
store_instruction s address r =
    (record s { instructions = OrderedMap.insert address r.0 s.instructions }, r.1)

-- The operations below change the instruction at an address, if there is one.
unfoldable pub update_instruction :
    ProgramState → ℕ → (Instruction → Instruction × Bool) → ProgramState × Bool
update_instruction s address change = elim (OrderedMap.find address s.instructions) [
  | none ↦ (s, false)
  | some instruction ↦ store_instruction s address (change instruction)
]

unfoldable pub with_direct_targets : List ℕ → Instruction → Instruction × Bool
with_direct_targets targets instruction = (
  record instruction {
    direct_flow_targets = (add_targets instruction.direct_flow_targets targets).0;
  },
  (add_targets instruction.direct_flow_targets targets).1,
)

-- A direct target becomes a tail target.
unfoldable pub with_tail_target : ℕ → Instruction → Instruction × Bool
with_tail_target target instruction =
    if contains instruction.direct_flow_targets target
    then (
      record instruction {
        direct_flow_targets = erase_first instruction.direct_flow_targets target;
        tail_flow_targets = add_unique instruction.tail_flow_targets target;
      },
      true,
    )
    else (instruction, false)

-- A tail target becomes a direct target again.
unfoldable pub without_tail_target : ℕ → Instruction → Instruction × Bool
without_tail_target target instruction =
    if contains instruction.tail_flow_targets target
    then (
      record instruction {
        tail_flow_targets = erase_first instruction.tail_flow_targets target;
        direct_flow_targets = add_unique instruction.direct_flow_targets target;
      },
      true,
    )
    else (instruction, false)

-- `addInstructionDirectFlowTargets`.
unfoldable pub add_instruction_direct_flow_targets : ProgramState → ℕ → List ℕ → ProgramState × Bool
add_instruction_direct_flow_targets s address targets =
    update_instruction s address (with_direct_targets targets)

-- `markInstructionTailFlowTarget`.
unfoldable pub mark_instruction_tail_flow_target : ProgramState → ℕ → ℕ → ProgramState × Bool
mark_instruction_tail_flow_target s address target =
    update_instruction s address (with_tail_target target)

-- `restoreInstructionTailFlowTarget`.
unfoldable pub restore_instruction_tail_flow_target : ProgramState → ℕ → ℕ → ProgramState × Bool
restore_instruction_tail_flow_target s address target =
    update_instruction s address (without_tail_target target)
