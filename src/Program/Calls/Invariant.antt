-- ===== src/Program/Calls/Invariant.antt =====
-- The whole state is well formed after every history of calls.
use not_dec_bin2llvm.Common.{ℕ, ◌≤◌, List, [], ◌∷◌, max_u64, All, refl, arith}
use not_dec_bin2llvm.Memory.{MemoryRange}
use not_dec_bin2llvm.Memory.Loading.{SectionInfo}
use not_dec_bin2llvm.OrderedMap
use not_dec_bin2llvm.Program.{ProgramState, Machine, initial_state, add_note}
use not_dec_bin2llvm.Program.Seeds.Invariant.{
  SeedsAreValid, add_function_seed-SeedsAreValid, mark_function_seed-SeedsAreValid,
  demote_function_seed-SeedsAreValid, add_function_range-SeedsAreValid,
}
use not_dec_bin2llvm.Program.Functions.Invariant.{
  FunctionsAreValid, add_function-FunctionsAreValid, remove_function-FunctionsAreValid,
  add_basic_block-FunctionsAreValid, add_basic_block_successors-FunctionsAreValid,
  remove_invalid-FunctionsAreValid,
}
use not_dec_bin2llvm.Program.Instructions.Invariant.{
  InstructionsAreValid, add_instruction-InstructionsAreValid, flow_targets-InstructionsAreValid,
}
use not_dec_bin2llvm.Program.Instructions.{
  with_direct_targets, with_tail_target, without_tail_target, add_instruction_direct_flow_targets,
  mark_instruction_tail_flow_target, restore_instruction_tail_flow_target,
}
use not_dec_bin2llvm.Program.Xrefs.Index.{
  places_of, IndexIsFaithful, HasNoTwins, add_xref-IndexIsFaithful, add_xref-HasNoTwins,
}
use not_dec_bin2llvm.Program.Xrefs.{places}
use not_dec_bin2llvm.Program.Flows.{add_relocation, add_relocated_pointer, add_plt_entry}
use not_dec_bin2llvm.Program.Flows.Pending.{
  IsDistinct, add_unresolved_flow-IsDistinct, remove_unresolved_flow-IsDistinct,
}
use not_dec_bin2llvm.Program.Calls.{
  Call, adds_function_seed, marks_seed_visible, demotes_seed, adds_function_range, adds_function,
  removes_function, adds_basic_block, adds_successors, removes_invalid_successors, adds_instruction,
  adds_direct_targets, marks_tail_target, restores_tail_target, adds_xref, adds_unresolved_flow,
  removes_unresolved_flow, sets_authority, adds_relocation, adds_relocated_pointer, adds_plt_entry,
  adds_note, step, run,
}
use not_dec_bin2llvm.Program.Calls.Frames.{
  SameRanges, SameSeeds, SameFunctions, SameInstructions, SameXrefs, OnlySeeds, OnlyFunctions,
  OnlyInstructions, OnlyXrefs, OnlyFlows, add_function_seed-OnlySeeds, mark_seed-OnlySeeds,
  demote_seed-OnlySeeds, add_function_range-OnlySeeds, add_function-OnlyFunctions,
  remove_function-OnlyFunctions, add_basic_block-OnlyFunctions,
  add_basic_block_successors-OnlyFunctions, remove_invalid-OnlyFunctions,
  add_instruction-OnlyInstructions, update_instruction-OnlyInstructions, add_xref-OnlyXrefs,
  add_unresolved_flow-OnlyFlows, remove_unresolved_flow-OnlyFlows,
  set_control_flow_authority-OnlyFlows,
}

pub record IsValid (s : ProgramState) : Type 0 where
  pub seeds : SeedsAreValid s
  pub functions : FunctionsAreValid s
  pub instructions : InstructionsAreValid s
  pub index : IndexIsFaithful s
  pub no_twins : HasNoTwins s.xrefs
  pub distinct : IsDistinct s.unresolved_flows

module _ {s t : ProgramState} (v : IsValid s) where
  same_seeds : SameSeeds s t → SeedsAreValid t
  same_seeds (a, b) = record {
    ordered = rw a v.seeds.ordered;
    seeds = rw a v.seeds.seeds;
    queued = rw (a, b) v.seeds.queued;
    known = rw (a, b) v.seeds.known;
  }

  same_functions : SameRanges s t → SameFunctions s t → FunctionsAreValid t
  same_functions r f = record {
    ordered = rw f v.functions.ordered;
    functions = rw (r, f) v.functions.functions;
  }

  same_instructions : SameRanges s t → SameInstructions s t → InstructionsAreValid t
  same_instructions r i = record {
    ordered = rw i v.instructions.ordered;
    instructions = rw (r, i) v.instructions.instructions;
  }

  same_index : SameXrefs s t → IndexIsFaithful t
  same_index (a, b, c) = record {
    by_from = λ key. rw (a, b) (v.index.by_from key);
    by_to = λ key. rw (a, c) (v.index.by_to key);
  }

  -- A call that changes one part needs only that part's lemma.
  by_seeds : OnlySeeds s t → SeedsAreValid t → IsValid t
  by_seeds o w = record {
    seeds = w;
    functions = same_functions o.ranges o.functions;
    instructions = same_instructions o.ranges o.instructions;
    index = same_index o.xrefs;
    no_twins = rw o.xrefs.0 v.no_twins;
    distinct = rw o.flows v.distinct;
  }

  by_functions : OnlyFunctions s t → FunctionsAreValid t → IsValid t
  by_functions o w = record {
    seeds = same_seeds o.seeds;
    functions = w;
    instructions = same_instructions o.ranges o.instructions;
    index = same_index o.xrefs;
    no_twins = rw o.xrefs.0 v.no_twins;
    distinct = rw o.flows v.distinct;
  }

  by_instructions : OnlyInstructions s t → InstructionsAreValid t → IsValid t
  by_instructions o w = record {
    seeds = same_seeds o.seeds;
    functions = same_functions o.ranges o.functions;
    instructions = w;
    index = same_index o.xrefs;
    no_twins = rw o.xrefs.0 v.no_twins;
    distinct = rw o.flows v.distinct;
  }

  by_xrefs : OnlyXrefs s t → IndexIsFaithful t → HasNoTwins t.xrefs → IsValid t
  by_xrefs o w n = record {
    seeds = same_seeds o.seeds;
    functions = same_functions o.ranges o.functions;
    instructions = same_instructions o.ranges o.instructions;
    index = w;
    no_twins = n;
    distinct = rw o.flows v.distinct;
  }

  by_flows : OnlyFlows s t → IsDistinct t.unresolved_flows → IsValid t
  by_flows o w = record {
    seeds = same_seeds o.seeds;
    functions = same_functions o.ranges o.functions;
    instructions = same_instructions o.ranges o.instructions;
    index = same_index o.xrefs;
    no_twins = rw o.xrefs.0 v.no_twins;
    distinct = w;
  }

-- The numbers that a call passes are 64-bit ones, where that matters.
abbrev pub CallIsOk : Call → Type 0
CallIsOk (adds_function_range address start end source) = end ≤ max_u64
CallIsOk (adds_instruction i) = i.size ≤ max_u64
CallIsOk _ = Unit

-- Every operation keeps the state well formed.
pub step-IsValid : (s : ProgramState) (c : Call) → CallIsOk c → IsValid s → IsValid (step s c)
unfolding step add_relocation add_relocated_pointer add_plt_entry add_note
    add_instruction_direct_flow_targets mark_instruction_tail_flow_target
    restore_instruction_tail_flow_target
step-IsValid s (adds_function_seed address size name source confidence) k v =
    by_seeds v (add_function_seed-OnlySeeds s address size name source confidence)
      (add_function_seed-SeedsAreValid s address size name source confidence v.seeds)
step-IsValid s (marks_seed_visible address) k v =
    by_seeds v (mark_seed-OnlySeeds s address) (mark_function_seed-SeedsAreValid s v.seeds address)
step-IsValid s (demotes_seed address) k v =
    by_seeds v (demote_seed-OnlySeeds s address)
      (demote_function_seed-SeedsAreValid s v.seeds address)
step-IsValid s (adds_function_range address start end source) k v =
    by_seeds v (add_function_range-OnlySeeds s address start end source)
      (add_function_range-SeedsAreValid s v.seeds address start end source k)
step-IsValid s (adds_function f) k v =
    by_functions v (add_function-OnlyFunctions s f) (add_function-FunctionsAreValid s v.functions f)
step-IsValid s (removes_function entry) k v =
    by_functions v (remove_function-OnlyFunctions s entry)
      (remove_function-FunctionsAreValid s v.functions entry)
step-IsValid s (adds_basic_block entry b) k v =
    by_functions v (add_basic_block-OnlyFunctions s entry b)
      (add_basic_block-FunctionsAreValid s v.functions entry b)
step-IsValid s (adds_successors entry start targets) k v =
    by_functions v (add_basic_block_successors-OnlyFunctions s entry start targets)
      (add_basic_block_successors-FunctionsAreValid s v.functions entry start targets)
step-IsValid s (removes_invalid_successors entry) k v =
    by_functions v (remove_invalid-OnlyFunctions s entry)
      (remove_invalid-FunctionsAreValid s v.functions entry)
step-IsValid s (adds_instruction i) k v =
    by_instructions v (add_instruction-OnlyInstructions s i)
      (add_instruction-InstructionsAreValid s v.instructions i k)
step-IsValid s (adds_direct_targets address targets) k v =
    by_instructions v (update_instruction-OnlyInstructions s address (with_direct_targets targets))
      (flow_targets-InstructionsAreValid s v.instructions address 0 targets).0
step-IsValid s (marks_tail_target address target) k v =
    by_instructions v (update_instruction-OnlyInstructions s address (with_tail_target target))
      (flow_targets-InstructionsAreValid s v.instructions address target []).1
step-IsValid s (restores_tail_target address target) k v =
    by_instructions v (update_instruction-OnlyInstructions s address (without_tail_target target))
      (flow_targets-InstructionsAreValid s v.instructions address target []).2
step-IsValid s (adds_xref x) k v =
    by_xrefs v (add_xref-OnlyXrefs s x) (add_xref-IndexIsFaithful s x v.index)
      (add_xref-HasNoTwins s x v.index v.no_twins)
step-IsValid s (adds_unresolved_flow flow) k v =
    by_flows v (add_unresolved_flow-OnlyFlows s flow)
      (add_unresolved_flow-IsDistinct s flow v.distinct)
step-IsValid s (removes_unresolved_flow address kind) k v =
    by_flows v (remove_unresolved_flow-OnlyFlows s address kind)
      (remove_unresolved_flow-IsDistinct s address kind v.distinct)
step-IsValid s (sets_authority authority) k v =
    let (only, flows) = set_control_flow_authority-OnlyFlows s authority in
    by_flows v only (rw flows v.distinct)
step-IsValid s (adds_relocation relocation) k v = by_flows v (ground arith) v.distinct
step-IsValid s (adds_relocated_pointer address value) k v = by_flows v (ground arith) v.distinct
step-IsValid s (adds_plt_entry entry) k v = by_flows v (ground arith) v.distinct
step-IsValid s (adds_note note) k v = by_flows v (ground arith) v.distinct

pub run-IsValid :
    (s : ProgramState) (calls : List Call) → All CallIsOk calls → IsValid s → IsValid (run s calls)
unfolding run
run-IsValid s [] k v = v
run-IsValid s (c ∷ calls) (k, ks) v = run-IsValid (step s c) calls ks (step-IsValid s c k v)

pub initial_state-IsValid :
    (machine : Machine) (pointer_size : ℕ) (ranges : List MemoryRange) (sections : List SectionInfo)
    → IsValid (initial_state machine pointer_size ranges sections)
unfolding initial_state places places_of OrderedMap.find
initial_state-IsValid machine pointer_size ranges sections = record {
  seeds = record { ordered = tt; seeds = tt; queued = tt; known = tt };
  functions = record { ordered = tt; functions = tt };
  instructions = record { ordered = tt; instructions = tt };
  index = record { by_from = λ key. refl; by_to = λ key. refl };
  no_twins = tt;
  distinct = tt;
}

-- From the state of a freshly loaded file no history of calls, with function range ends and
-- instruction sizes that are 64-bit numbers, leads to a malformed state: seeds, worklist,
-- functions, blocks, instructions, xref indexes and unresolved flows keep their invariants.
pub run-initial_state-IsValid :
    (machine : Machine) (pointer_size : ℕ) (ranges : List MemoryRange) (sections : List SectionInfo)
    (calls : List Call)
    → All CallIsOk calls
    → IsValid (run (initial_state machine pointer_size ranges sections) calls)
run-initial_state-IsValid machine pointer_size ranges sections calls k =
    run-IsValid (initial_state machine pointer_size ranges sections) calls k
      (initial_state-IsValid machine pointer_size ranges sections)
