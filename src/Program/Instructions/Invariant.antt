-- ===== src/Program/Instructions/Invariant.antt =====
-- Every stored instruction is non-empty, executable and of its stated length.
use not_dec_bin2llvm.Common.{
  ℕ, ◌+◌, ◌-◌, ◌≤◌, List, [], ◌∷◌, Bool, true, false, All, ltb, ◌==◌, ◌||◌, ◌&&◌, not, length,
  max_u64, is_some, Text, ◌≡◌, ◌≢◌, refl, ◌∙◌, arith, inl, inr, ◌⊎◌, Bool-cases, Option-cases,
}
use not_dec_bin2llvm.Memory.{MemoryRange, executable_range_contains}
use not_dec_bin2llvm.OrderedMap
use not_dec_bin2llvm.OrderedMap.{IsOrdered}
use not_dec_bin2llvm.OrderedMap.Laws.{All-insert, All-find, insert-IsOrdered}
use not_dec_bin2llvm.Program.{Instruction, instruction_end, ProgramState, add_note}
use not_dec_bin2llvm.Program.Instructions.{
  add_instruction, outside_note, length_note, is_empty_bytes, store_instruction, update_instruction,
  with_direct_targets, with_tail_target, without_tail_target, add_instruction_direct_flow_targets,
  mark_instruction_tail_flow_target, restore_instruction_tail_flow_target,
}

-- An instruction is filed under its address, which is not null; it has a size, ends within the
-- address space, lies in one executable range, and its bytes are either not recorded or as many as
-- its size.
abbrev pub InstructionIsOk : List MemoryRange → ℕ × Instruction → Type 0
InstructionIsOk ranges p =
    (p.1.address ≡ p.0)
    × (p.0 ≢ 0)
    × (p.1.size ≢ 0)
    × (p.1.address + p.1.size ≤ max_u64)
    × (executable_range_contains ranges p.1.address (instruction_end p.1) ≡ true)
    × ((p.1.bytes ≡ []) ⊎ (length p.1.bytes ≡ p.1.size))

pub record InstructionsAreValid (s : ProgramState) : Type 0 where
  pub ordered : IsOrdered s.instructions
  pub instructions : All (InstructionIsOk s.memory_ranges) s.instructions

bytes_ok :
    (bytes : List ℕ) (size : ℕ)
    → (not (is_empty_bytes bytes) && not (length bytes == size)) ≡ false
    → (bytes ≡ []) ⊎ (length bytes ≡ size)
unfolding is_empty_bytes
bytes_ok [] size h = inl refl
bytes_ok (b ∷ bytes) size h = inr (ground arith)

-- The changes of flow targets keep all that the invariant reads.
abbrev SameShape : Instruction → Instruction → Type 0
SameShape i j = (j.address ≡ i.address) × (j.size ≡ i.size) × (j.bytes ≡ i.bytes)

with_direct_targets-SameShape :
    (targets : List ℕ) (i : Instruction) → SameShape i (with_direct_targets targets i).0
unfolding with_direct_targets
with_direct_targets-SameShape targets i = (refl, refl, refl)

with_tail_target-SameShape :
    (target : ℕ) (i : Instruction) → SameShape i (with_tail_target target i).0
unfolding with_tail_target
with_tail_target-SameShape target i = ground arith

without_tail_target-SameShape :
    (target : ℕ) (i : Instruction) → SameShape i (without_tail_target target i).0
unfolding without_tail_target
without_tail_target-SameShape target i = ground arith

reshaped :
    (ranges : List MemoryRange) (k : ℕ) (i j : Instruction)
    → SameShape i j
    → InstructionIsOk ranges (k, i)
    → InstructionIsOk ranges (k, j)
reshaped ranges k i j (a, b, c) (filed, nonzero, sized, fits, executable, bytes) =
    (a ∙ filed, nonzero, rw b sized, rw (a, b) fits, rw (a, b) executable, rw (b, c) bytes)

module _ (s : ProgramState) (v : InstructionsAreValid s) where
  stored :
      (k : ℕ) (i : Instruction) (done : Bool)
      → InstructionIsOk s.memory_ranges (k, i)
      → InstructionsAreValid (store_instruction s k (i, done)).0
  unfolding store_instruction
  stored k i done ok = record {
    ordered = insert-IsOrdered k i s.instructions v.ordered;
    instructions =
        All-insert (InstructionIsOk s.memory_ranges) k i s.instructions ok v.instructions;
  }

  noted : (note : Text) → InstructionsAreValid (add_note s note)
  unfolding add_note
  noted note = record { ordered = v.ordered; instructions = v.instructions }

  accepted :
      (i : Instruction)
      → (i.address == 0 || i.size == 0) ≡ false
      → ltb (max_u64 - i.size) i.address ≡ false
      → not (executable_range_contains s.memory_ranges i.address (instruction_end i)) ≡ false
      → (not (is_empty_bytes i.bytes) && not (length i.bytes == i.size)) ≡ false
      → i.size ≤ max_u64
      → InstructionIsOk s.memory_ranges (i.address, i)
  accepted i shape fits executable bytes small =
      (refl, ground arith, ground arith, ground arith, ground arith, bytes_ok i.bytes i.size bytes)

  -- An instruction, whose size is a 64-bit number, is stored only if it is well formed.
  pub add_instruction-InstructionsAreValid :
      (i : Instruction) → i.size ≤ max_u64 → InstructionsAreValid (add_instruction s i).0
  unfolding add_instruction
  add_instruction-InstructionsAreValid i small = elim (Bool-cases (i.address == 0 || i.size == 0)) [
    | inl empty ↦ rw (empty, add_instruction) v
    | inr shape ↦ elim (Bool-cases (ltb (max_u64 - i.size) i.address)) [
      | inl wraps ↦ rw (shape, wraps, add_instruction) v
      | inr fits ↦
          elim (Bool-cases
            (not (executable_range_contains s.memory_ranges i.address (instruction_end i)))) [
              | inl outside ↦
                  rw (shape, fits, outside, add_instruction) (noted (outside_note i.address))
              | inr inside ↦
                  elim (Bool-cases
                    (not (is_empty_bytes i.bytes) && not (length i.bytes == i.size))) [
                      | inl short ↦
                          rw (shape, fits, inside, short, add_instruction)
                            (noted (length_note i.address))
                      | inr bytes ↦
                          elim (Bool-cases (is_some (OrderedMap.find i.address s.instructions))) [
                            | inl known ↦ rw (shape, fits, inside, bytes, known, add_instruction) v
                            | inr new ↦
                                rw (shape, fits, inside, bytes, new, add_instruction)
                                  (unfold store_instruction in
                                    stored i.address i true
                                      (accepted i shape fits inside bytes small))
                          ]
                    ]
            ]
    ]
  ]

  updated :
      (address : ℕ) (change : Instruction → Instruction × Bool)
      → ((i : Instruction) → SameShape i (change i).0)
      → InstructionsAreValid (update_instruction s address change).0
  unfolding update_instruction
  updated address change same = elim (Option-cases (OrderedMap.find address s.instructions)) [
    | inl missing ↦ rw (missing, update_instruction) v
    | inr (i, found) ↦
        rw (found, update_instruction)
          (stored address (change i).0 (change i).1 (
            reshaped s.memory_ranges address i (change i).0 (same i) (
              All-find (InstructionIsOk s.memory_ranges) address s.instructions v.instructions
                found)))
  ]

  -- The three changes of flow targets keep the table well formed.
  pub flow_targets-InstructionsAreValid :
      (address target : ℕ) (targets : List ℕ)
      → InstructionsAreValid (add_instruction_direct_flow_targets s address targets).0
        × InstructionsAreValid (mark_instruction_tail_flow_target s address target).0
        × InstructionsAreValid (restore_instruction_tail_flow_target s address target).0
  unfolding add_instruction_direct_flow_targets mark_instruction_tail_flow_target
      restore_instruction_tail_flow_target
  flow_targets-InstructionsAreValid address target targets = (
    updated address (with_direct_targets targets) (with_direct_targets-SameShape targets),
    updated address (with_tail_target target) (with_tail_target-SameShape target),
    updated address (without_tail_target target) (without_tail_target-SameShape target),
  )
