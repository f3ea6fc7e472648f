-- ===== src/Analyzers/Thunks.antt =====
-- lib/NativeAnalysis.cpp: `X86PcThunkAnalyzer`, which finds `mov (%esp), %reg; ret`.
pub mod Shadow
use Prim.Native.Nat.{bit_and}
use not_dec_bin2llvm.Common.{
  ℕ, zero, suc, ◌+◌, ◌/◌, ◌%◌, List, [], ◌∷◌, Option, none, some, Bool, true, false, not, ltb, ◌==◌,
  if◌then◌else◌, ◌&&◌, ◌||◌, is_some, get_elem?, Text, codes, add64, u64_mod,
}
use not_dec_bin2llvm.OrderedMap
use not_dec_bin2llvm.Memory.{is_executable_address, read_bytes}
use not_dec_bin2llvm.Program.{Function, Instruction, ProgramState, high}
use not_dec_bin2llvm.Program.Seeds.{add_function_seed}
use not_dec_bin2llvm.Program.Functions.{function_containing, add_function}

-- `std::set::insert` on the ascending list of the elements.
unfoldable pub insert_target : ℕ → List ℕ → List ℕ
insert_target target [] = target ∷ []
insert_target target (t ∷ ts) =
    if ltb target t
    then target ∷ t ∷ ts
    else if target == t
    then t ∷ ts
    else t ∷ insert_target target ts

unfoldable pub insert_targets : List ℕ → List ℕ → List ℕ
insert_targets [] set = set
insert_targets (target ∷ targets) set = insert_targets targets (insert_target target set)

-- The targets of the direct calls of all instructions.
unfoldable pub call_targets : List (ℕ × Instruction) → List ℕ → List ℕ
call_targets [] set = set
call_targets ((address, instruction) ∷ instructions) set =
    call_targets instructions (insert_targets instruction.direct_call_targets set)

abbrev pub register_names : List Text
register_names =
    codes "EAX"
    ∷ codes "ECX"
    ∷ codes "EDX"
    ∷ codes "EBX"
    ∷ codes "ESP"
    ∷ codes "EBP"
    ∷ codes "ESI"
    ∷ codes "EDI"
    ∷ []

-- The test of the five bytes and the register that the second one names.
unfoldable pub thunk_register : List ℕ → Option Text
thunk_register (b0 ∷ b1 ∷ b2 ∷ b3 ∷ b4 ∷ []) =
    if not (b0 == 0x8b) || not (bit_and b1 0xc7 == 0x04) || not (b2 == 0x24) || not (b3 == 0xc3)
    then none
    else if b1 / 8 % 8 == 4
    then none
    else get_elem? register_names (b1 / 8 % 8)
thunk_register _ = none

-- `pcThunkRegister`.
unfoldable pub pc_thunk_register_at : ProgramState → ℕ → Option Text
pc_thunk_register_at s address =
    if not (is_executable_address s.memory_ranges address)
    then none
    else elim (read_bytes s.memory_ranges address 5) [
      | none ↦ none
      | some bytes ↦ thunk_register bytes
    ]

unfoldable pub thunk_function : ℕ → Text → Function
thunk_function target register = record {
  entry = target;
  range_start = target;
  range_end = add64 target 5;
  name = [];
  blocks = record { start = target; end = add64 target 5; successors = [] } ∷ [];
  source = codes "x86-pc-thunk";
  is_externally_visible = false;
  is_pc_thunk = true;
  pc_thunk_register = register;
}

unfoldable pub insert_thunk : ProgramState → ℕ → Text → ProgramState
insert_thunk s target register =
    (add_function (add_function_seed s target 5 [] (codes "x86-pc-thunk") high).0
      (thunk_function target register)).0

-- One call target.
unfoldable pub add_thunk : ProgramState → ℕ → ProgramState
add_thunk s target = elim (pc_thunk_register_at s target) [
  | none ↦ s
  | some register ↦
      if is_some (function_containing s target) || is_some (OrderedMap.find target s.functions)
      then s
      else insert_thunk s target register
]

unfoldable pub add_thunks : ProgramState → List ℕ → ProgramState
add_thunks s [] = s
add_thunks s (target ∷ targets) = add_thunks (add_thunk s target) targets

-- `X86PcThunkAnalyzer::run`.
unfoldable pub run_x86_pc_thunk : ProgramState → ProgramState
run_x86_pc_thunk s =
    if not (s.pointer_size == 4) then s else add_thunks s (call_targets s.instructions [])
