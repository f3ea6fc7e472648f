-- ===== src/Analyzers/Thunks/Shadow.antt =====
-- A thunk is four bytes long, and the function made of it is five.
use not_dec_bin2llvm.Common.{
  ℕ, ◌+◌, ◌<◌, List, [], ◌∷◌, none, some, true, false, leb, ◌==◌, is_some, Text, codes, u64_mod,
  Bool-cases, Option-cases, ◌≡◌, ◌≢◌, refl, ◌∙◌, ap, inl, inr, arith,
}
use not_dec_bin2llvm.OrderedMap
use not_dec_bin2llvm.Memory.{is_executable_address}
use not_dec_bin2llvm.Program.{Function, FunctionConfidence, ProgramState, high}
use not_dec_bin2llvm.Program.Seeds.{add_function_seed, insert_seed, merge_seed}
use not_dec_bin2llvm.Program.Functions.{
  function_containing, function_block_containing, block_contains, containing_loop, add_function,
  has_invalid_block, with_seed_visibility,
}
use not_dec_bin2llvm.Analyzers.Thunks.{
  pc_thunk_register_at, thunk_function, insert_thunk, add_thunk,
}

-- A function whose blocks hold the address is found, or one before it is.
insert-containing :
    (functions : List (ℕ × Function)) (entry address : ℕ) (function : Function)
    → is_some (function_block_containing function.blocks address) ≡ true
    → is_some (containing_loop (OrderedMap.insert entry function functions) address) ≡ true
unfolding containing_loop OrderedMap.insert
insert-containing [] entry address function holds = ground (arith, holds)
insert-containing ((j, g) ∷ functions) entry address function holds =
    ground (arith, holds, insert-containing functions entry address function holds)

seed-functions :
    (s : ProgramState) (address size : ℕ) (name source : Text) (confidence : FunctionConfidence)
    → let t = (add_function_seed s address size name source confidence).0 in
      (t.functions ≡ s.functions) × (t.memory_ranges ≡ s.memory_ranges)
unfolding add_function_seed insert_seed merge_seed
seed-functions s address size name source confidence = ground arith

thunk-executable :
    (s : ProgramState) (target : ℕ) (register : Text)
    → pc_thunk_register_at s target ≡ some register
    → is_executable_address s.memory_ranges target ≡ true
unfolding pc_thunk_register_at
thunk-executable s target register found =
    elim (Bool-cases (is_executable_address s.memory_ranges target)) [
      | inl executable ↦ executable
      | inr outside ↦ absurd (ground (arith, found, outside))
    ]

add_function-stored :
    (s : ProgramState) (function : Function)
    → function.entry ≢ 0
    → function.range_start < function.range_end
    → is_executable_address s.memory_ranges function.entry ≡ true
    → OrderedMap.find function.entry s.functions ≡ none
    → has_invalid_block function function.blocks ≡ false
    → (add_function s function).0.functions
      ≡ OrderedMap.insert function.entry (with_seed_visibility s function) s.functions
unfolding add_function
add_function-stored s function nonzero nonempty executable absent valid =
    let entry_test : (function.entry == 0) ≡ false = ground (arith, nonzero) in
    let range_test : leb function.range_end function.range_start ≡ false =
      ground (arith, nonempty) in
    rw (entry_test, range_test, executable, absent, valid) refl

thunk-valid :
    (target : ℕ) (register : Text)
    → target + 5 < u64_mod
    → (target < (thunk_function target register).range_end)
      × (has_invalid_block (thunk_function target register) (thunk_function target register).blocks
          ≡ false)
unfolding thunk_function has_invalid_block
thunk-valid target register h = (omega arith, ground (arith, h))

thunk-holds :
    (target : ℕ) (register : Text)
    → target + 5 < u64_mod
    → is_some (function_block_containing (thunk_function target register).blocks (target + 4))
      ≡ true
unfolding thunk_function function_block_containing block_contains
thunk-holds target register h = ground (arith, h)

insert_thunk-containing :
    (s : ProgramState) (target : ℕ) (register : Text)
    → target ≢ 0
    → target + 5 < u64_mod
    → is_executable_address s.memory_ranges target ≡ true
    → OrderedMap.find target s.functions ≡ none
    → is_some (function_containing (insert_thunk s target register) (target + 4)) ≡ true
unfolding insert_thunk function_containing thunk_function with_seed_visibility
insert_thunk-containing s target register nonzero fits executable absent =
    let seeded = (add_function_seed s target 5 [] (codes "x86-pc-thunk") high).0 in
    let (functions, ranges) = seed-functions s target 5 [] (codes "x86-pc-thunk") high in
    let (nonempty, valid) = thunk-valid target register fits in
    let stored =
      add_function-stored seeded (thunk_function target register) nonzero nonempty
        (ap (λ r. is_executable_address r target) ranges ∙ executable)
        (ap (OrderedMap.find target) functions ∙ absent) valid in
    ap (λ f. is_some (containing_loop f (target + 4))) stored
    ∙ insert-containing seeded.functions target (target + 4)
        (with_seed_visibility seeded (thunk_function target register))
        (thunk-holds target register fits)

skip_contained :
    (s : ProgramState) (target : ℕ)
    → is_some (function_containing s target) ≡ true
    → add_thunk s target ≡ s
unfolding add_thunk
skip_contained s target contained = elim (Option-cases (pc_thunk_register_at s target)) [
  | inl no_thunk ↦ rw (no_thunk, add_thunk) refl
  | inr (register, found) ↦ rw (found, add_thunk) (rw contained refl)
]

take_thunk :
    (s : ProgramState) (target : ℕ) (register : Text)
    → pc_thunk_register_at s target ≡ some register
    → function_containing s target ≡ none
    → OrderedMap.find target s.functions ≡ none
    → add_thunk s target ≡ insert_thunk s target register
unfolding add_thunk
take_thunk s target register found free absent = rw (found, add_thunk) (rw (free, absent) refl)

-- A call target that is a thunk, not null, five bytes below the end of the address space, in no
-- function and no function itself, becomes one, and then a call target four bytes behind it is
-- not taken, whether or not it is a thunk.
pub add_thunk_shadow :
    (s : ProgramState) (target : ℕ) (register : Text)
    → target ≢ 0
    → target + 5 < u64_mod
    → pc_thunk_register_at s target ≡ some register
    → function_containing s target ≡ none
    → OrderedMap.find target s.functions ≡ none
    → (add_thunk s target ≡ insert_thunk s target register)
      × (add_thunk (add_thunk s target) (target + 4) ≡ add_thunk s target)
add_thunk_shadow s target register nonzero fits found free absent =
    let taken = take_thunk s target register found free absent in
    (
      taken,
      rw taken (
          skip_contained (insert_thunk s target register) (target + 4) (
            insert_thunk-containing s target register nonzero fits
              (thunk-executable s target register found) absent)),
    )
