-- ===== src/Analyzers/Entries/Arrays.antt =====
-- `addDynamicArrayEntries` reports every function that the array points at.
use not_dec_bin2llvm.Common.{
  ℕ, zero, suc, ◌+◌, ◌*◌, ◌/◌, ◌≤◌, ◌<◌, [], some, true, false, leb, ltb, ◌==◌, if◌then◌else◌, Text,
  text_eq, contains, add64, u64_mod, Bool-cases, Option-cases, ◌≡◌, ◌≢◌, ◌⊎◌, inl, inr, refl, ◌∙◌,
  ap, subst, arith,
}
use native.Mathlib.Nat.{div-mul-le_self, div-eq_of_lt}
use not_dec_bin2llvm.OrderedMap
use not_dec_bin2llvm.Memory.{is_executable_address}
use not_dec_bin2llvm.Program.{FunctionSeed, FunctionConfidence, high, ProgramState, add_note}
use not_dec_bin2llvm.Program.Seeds.{add_function_seed, insert_seed, merge_seed}
use not_dec_bin2llvm.Program.Seeds.Reports.{add_function_seed_effect}
use not_dec_bin2llvm.Program.Flows.{read_pointer}
use not_dec_bin2llvm.Analyzers.Entries.{
  add_dynamic_scalar_entry, add_array_entry, array_loop, add_dynamic_array_entries,
}

-- The address is an entry that the source was reported for.
abbrev pub IsReported : Text → ℕ → ProgramState → Type 0
IsReported source target s =
    (seed : FunctionSeed) × (OrderedMap.find target s.function_seeds ≡ some seed)
    × (seed.is_entry ≡ true)
    × (contains seed.sources source ≡ true)

-- What the analyzer reads of the state.
abbrev SameInput : ProgramState → ProgramState → Type 0
SameInput s t =
    (t.memory_ranges ≡ s.memory_ranges)
    × (t.pointer_size ≡ s.pointer_size)
    × (t.relocated_pointers ≡ s.relocated_pointers)

pub add_function_seed-SameInput :
    (s : ProgramState) (address size : ℕ) (name source : Text) (confidence : FunctionConfidence)
    → SameInput s (add_function_seed s address size name source confidence).0
unfolding add_function_seed insert_seed merge_seed
add_function_seed-SameInput s address size name source confidence = ground arith

scalar_entry-SameInput :
    (s : ProgramState) (address : ℕ) (source : Text)
    → SameInput s (add_dynamic_scalar_entry s address source)
unfolding add_dynamic_scalar_entry add_note
scalar_entry-SameInput s address source =
    ground (arith, add_function_seed-SameInput s address 0 [] source high)

array_entry-SameInput :
    (s : ProgramState) (address : ℕ) (source : Text)
    → SameInput s (add_array_entry s address source)
unfolding add_array_entry add_note
array_entry-SameInput s address source = elim (Option-cases (read_pointer s address)) [
  | inl missing ↦ rw (missing, add_array_entry) (refl, refl, refl)
  | inr (target, found) ↦ rw (found, add_array_entry) (scalar_entry-SameInput s target source)
]

-- A report is kept by later reports of the same source.
pub seed-IsReported :
    (s : ProgramState) (address target : ℕ) (source : Text)
    → address ≢ 0
    → (address ≡ target) ⊎ IsReported source target s
    → IsReported source target (add_function_seed s address 0 [] source high).0
seed-IsReported s address target source nonzero reason =
    let (seed, found, entry, named, _, _, _, _) =
      add_function_seed_effect s address 0 [] source high target nonzero in
    elim (Bool-cases (address == target)) [
      | inl same ↦ (
        seed,
        found ∙ ap (λ b. if b then some seed else OrderedMap.find target s.function_seeds) same,
        entry,
        named,
      )
      | inr other ↦ elim reason [
        | inl same ↦ absurd (ground (arith, other, same))
        | inr (old, old_found, old_entry, old_named) ↦ (
          old,
          found
              ∙ ap (λ b. if b then some seed else OrderedMap.find target s.function_seeds) other
              ∙ old_found,
          old_entry,
          old_named,
        )
      ]
    ]

scalar_entry-IsReported :
    (s : ProgramState) (address target : ℕ) (source : Text)
    → IsReported source target s
    → IsReported source target (add_dynamic_scalar_entry s address source)
unfolding add_dynamic_scalar_entry add_note
scalar_entry-IsReported s address target source h = elim (Bool-cases (address == 0)) [
  | inl zero_address ↦ rw zero_address h
  | inr nonzero ↦ elim (Bool-cases (is_executable_address s.memory_ranges address)) [
    | inl executable ↦
        rw (nonzero, executable)
          (seed-IsReported s address target source (λ e. ground (arith, e, nonzero)) (inr h))
    | inr outside ↦ rw (nonzero, outside) h
  ]
]

array_entry-IsReported :
    (s : ProgramState) (address target : ℕ) (source : Text)
    → IsReported source target s
    → IsReported source target (add_array_entry s address source)
unfolding add_array_entry add_note
array_entry-IsReported s address target source h = elim (Option-cases (read_pointer s address)) [
  | inl missing ↦ rw (missing, add_array_entry) h
  | inr (pointer, found) ↦
      rw (found, add_array_entry) (scalar_entry-IsReported s pointer target source h)
]

-- The pointer at the address is one to a function.
abbrev pub PointsAt : ProgramState → ℕ → ℕ → Type 0
PointsAt s address target =
    (read_pointer s address ≡ some target)
    × (target ≢ 0)
    × (is_executable_address s.memory_ranges target ≡ true)

scalar_entry-target :
    (s : ProgramState) (target : ℕ) (source : Text)
    → target ≢ 0
    → is_executable_address s.memory_ranges target ≡ true
    → IsReported source target (add_dynamic_scalar_entry s target source)
unfolding add_dynamic_scalar_entry
scalar_entry-target s target source nonzero executable =
    let test : (target == 0) ≡ false = ground (arith, nonzero) in
    rw (test, executable) (seed-IsReported s target target source nonzero (inl refl))

array_entry-PointsAt :
    (s : ProgramState) (address target : ℕ) (source : Text)
    → PointsAt s address target
    → IsReported source target (add_array_entry s address source)
unfolding add_array_entry
array_entry-PointsAt s address target source (found, nonzero, executable) =
    rw (found, add_array_entry) (scalar_entry-target s target source nonzero executable)

PointsAt-same :
    (s t : ProgramState) (address target : ℕ)
    → SameInput s t
    → PointsAt s address target
    → PointsAt t address target
unfolding read_pointer
PointsAt-same s t address target (ranges, pointers, relocated) (found, nonzero, executable) =
    rw (ranges, pointers, relocated) (found, nonzero, executable)

array_loop-IsReported :
    (rounds pointer_size : ℕ) (s : ProgramState) (array_address array_size : ℕ) (source : Text)
    (offset target : ℕ)
    → IsReported source target s
    → IsReported source target
        (array_loop rounds pointer_size s array_address array_size source offset)
unfolding array_loop
array_loop-IsReported zero pointer_size s array_address array_size source offset target h = h
array_loop-IsReported (suc rounds) pointer_size s array_address array_size source offset target h =
    elim (Bool-cases (leb (add64 offset pointer_size) array_size)) [
      | inl more ↦ rw more (
          array_loop-IsReported rounds pointer_size
            (add_array_entry s (add64 array_address offset) source) array_address array_size source
            (add64 offset pointer_size) target
            (array_entry-IsReported s (add64 array_address offset) target source h))
      | inr done ↦ rw done h
    ]

-- A round that is within the array is run.
round_runs :
    (offset pointer_size rounds array_size : ℕ)
    → offset + suc rounds * pointer_size ≤ array_size
    → array_size + pointer_size < u64_mod
    → (add64 offset pointer_size ≡ offset + pointer_size)
      × (leb (offset + pointer_size) array_size ≡ true)
      × (offset + pointer_size + rounds * pointer_size ≤ array_size)
round_runs offset pointer_size rounds array_size h k =
    let split : suc rounds * pointer_size ≡ pointer_size + rounds * pointer_size = omega arith in
    let below : offset + pointer_size ≤ array_size = omega (arith, split) in
    (omega arith, ground (arith, below), omega (arith, split))

array_loop-PointsAt :
    (rounds pointer_size : ℕ) (s : ProgramState) (array_address array_size : ℕ) (source : Text)
    (offset i target : ℕ)
    → i < rounds
    → offset + rounds * pointer_size ≤ array_size
    → array_size + pointer_size < u64_mod
    → PointsAt s (add64 array_address (offset + i * pointer_size)) target
    → IsReported source target
        (array_loop rounds pointer_size s array_address array_size source offset)
unfolding array_loop
array_loop-PointsAt zero pointer_size s array_address array_size source offset i target p _ _ _ =
    absurd (omega arith)
array_loop-PointsAt (suc rounds) pointer_size s array_address array_size source offset zero target p
      h k points =
    let (sum, runs, _) = round_runs offset pointer_size rounds array_size h k in
    let start : offset + 0 * pointer_size ≡ offset = omega arith in
    let here = subst (λ x. PointsAt s (add64 array_address x) target) start points in
    rw (sum, runs)
      (array_loop-IsReported rounds pointer_size
        (add_array_entry s (add64 array_address offset) source) array_address array_size source
        (offset + pointer_size) target
        (array_entry-PointsAt s (add64 array_address offset) target source here))
array_loop-PointsAt (suc rounds) pointer_size s array_address array_size source offset (suc i)
      target p h k points =
    let (sum, runs, rest) = round_runs offset pointer_size rounds array_size h k in
    let next = add_array_entry s (add64 array_address offset) source in
    let shift : offset + suc i * pointer_size ≡ offset + pointer_size + i * pointer_size =
      omega arith in
    let there = subst (λ x. PointsAt s (add64 array_address x) target) shift points in
    rw (sum, runs)
      (array_loop-PointsAt rounds pointer_size next array_address array_size source
        (offset + pointer_size) i target (omega arith) rest k
        (PointsAt-same s next (add64 array_address (offset + pointer_size + i * pointer_size))
          target (array_entry-SameInput s (add64 array_address offset) source) there))

-- An array with a whole pointer is no shorter than a pointer.
le_of_mul : (size pointer_size i : ℕ) → i < size / pointer_size → pointer_size ≤ size
le_of_mul size pointer_size i p = elim (Bool-cases (ltb size pointer_size)) [
  | inl short ↦
      let below : size < pointer_size = ground (arith, short) in
      absurd (omega (arith, p, div-eq_of_lt below))
  | inr long ↦ ground (arith, long)
]

-- For a non-null array and a non-null pointer size, where array size and pointer size sum up to a
-- 64-bit number, every whole pointer of the array that reads as a non-null executable address
-- makes this an entry that names the source.
pub dynamic_array-IsReported :
    (s : ProgramState) (array_address array_size : ℕ) (source : Text) (i target : ℕ)
    → array_address ≢ 0
    → s.pointer_size ≢ 0
    → i < array_size / s.pointer_size
    → array_size + s.pointer_size < u64_mod
    → PointsAt s (add64 array_address (i * s.pointer_size)) target
    → IsReported source target (add_dynamic_array_entries s array_address array_size source)
unfolding add_dynamic_array_entries
dynamic_array-IsReported s array_address array_size source i target nonzero sized p k points =
    let fits = div-mul-le_self array_size s.pointer_size in
    let within : 0 + array_size / s.pointer_size * s.pointer_size ≤ array_size =
      omega (arith, fits) in
    let from_zero : i * s.pointer_size ≡ 0 + i * s.pointer_size = omega arith in
    let there = subst (λ x. PointsAt s (add64 array_address x) target) from_zero points in
    let address_test : (array_address == 0) ≡ false = ground (arith, nonzero) in
    let size_test : (s.pointer_size == 0) ≡ false = ground (arith, sized) in
    let holds : s.pointer_size ≤ array_size = le_of_mul array_size s.pointer_size i p in
    let empty_test : (array_size == 0) ≡ false = ground (arith, sized, holds) in
    let short_test : ltb array_size s.pointer_size ≡ false = ground (arith, holds) in
    rw (address_test, empty_test, size_test, short_test)
      (array_loop-PointsAt (array_size / s.pointer_size) s.pointer_size s array_address array_size
        source 0 i target p within k there)
