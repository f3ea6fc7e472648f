-- ===== src/Program/Seeds.antt =====
-- lib/NativeAnalysis.cpp: function seeds, the addresses at which decoding should start, and the
-- worklist of seeds that were queued.
pub mod Invariant
pub mod Reports
use not_dec_bin2llvm.Common.{
  ℕ, zero, suc, ◌+◌, ◌-◌, ◌%◌, List, [], ◌∷◌, ◌++◌, Option, none, some, Bool, true, false, not, ltb,
  leb, ◌==◌, if◌then◌else◌, ◌&&◌, ◌||◌, Text, codes, is_empty, max_u64, u64_mod, Eq, text_eq,
  text_beq, contains, add_unique, ◌≡◌,
}
use not_dec_bin2llvm.Numbers.{hex_address}
use not_dec_bin2llvm.OrderedMap
use not_dec_bin2llvm.Program.{
  FunctionConfidence, high, medium, low, FunctionSeed, FunctionWorkItem, ProgramState,
}

rank : FunctionConfidence → ℕ
rank high = 0
rank medium = 1
rank low = 2

-- `mergeConfidence`: the stronger of two.
unfoldable pub merge_confidence : FunctionConfidence → FunctionConfidence → FunctionConfidence
unfolding rank
merge_confidence lhs rhs = if ltb (rank lhs) (rank rhs) then lhs else rhs

-- `++SourceCounts[source]`.
unfoldable pub bump_source : Text → List (Text × ℕ) → List (Text × ℕ)
bump_source source [] = (source, 1) ∷ []
bump_source source ((t, n) ∷ counts) =
    if text_beq t source
    then (t, (n + 1) % u64_mod) ∷ counts
    else (t, n) ∷ bump_source source counts

range_text : ℕ → ℕ → Text
range_text start end =
    codes "[" ++ (hex_address start ++ (codes ", " ++ (hex_address end ++ codes ")")))

unfoldable pub range_mismatch_note : FunctionSeed → ℕ → ℕ → ℕ → Text → Text
unfolding range_text
range_mismatch_note seed address start end source =
    codes "function seed range mismatch at "
    ++ (hex_address address
        ++ (codes ": existing "
            ++ (seed.range_source
                ++ (codes " "
                    ++ (range_text seed.range_start seed.range_end
                        ++ (codes ", new " ++ (source ++ (codes " " ++ range_text start end))))))))

-- The size is known and `address + size` does not wrap.
unfoldable pub size_fits : ℕ → ℕ → Bool
size_fits address size = not (size == 0) && leb address (max_u64 - size)

unfoldable pub new_seed : ℕ → ℕ → Text → Text → FunctionConfidence → FunctionSeed
unfolding size_fits
new_seed address size name source confidence = record {
  address = address;
  size = size;
  is_entry = true;
  range_start = if size_fits address size then address else 0;
  range_end = if size_fits address size then address + size else 0;
  range_source = if size_fits address size then source else [];
  primary_name = name;
  aliases = [];
  sources = source ∷ [];
  is_pc_thunk = false;
  pc_thunk_register = [];
  is_externally_visible = false;
  confidence = confidence;
}

-- The range of a seed that was known before: filled in, or compared.
unfoldable pub merge_range : FunctionSeed → ℕ → ℕ → Text → FunctionSeed
unfolding size_fits
merge_range seed address size source =
    if size_fits address size && is_empty seed.range_source
    then record seed { range_start = address; range_end = address + size; range_source = source }
    else seed

unfoldable pub range_differs : FunctionSeed → ℕ → ℕ → Bool
unfolding size_fits
range_differs seed address size =
    size_fits address size
    && (not (is_empty seed.range_source)
        && (not (seed.range_start == address) || not (seed.range_end == address + size)))

unfoldable pub merge_name : FunctionSeed → Text → FunctionSeed
unfolding contains
merge_name seed name =
    if not (is_empty name) && is_empty seed.primary_name
    then record seed { primary_name = name }
    else if not (is_empty name)
        && (not (text_beq name seed.primary_name) && not (contains seed.aliases name))
    then record seed { aliases = seed.aliases ++ name ∷ [] }
    else seed

unfoldable pub merge_size : FunctionSeed → ℕ → FunctionSeed
merge_size seed size =
    if seed.size == 0 && not (size == 0) then record seed { size = size } else seed

unfoldable pub merge_rest : FunctionSeed → Text → FunctionConfidence → FunctionSeed
unfolding add_unique contains merge_confidence
merge_rest seed source confidence = record seed {
  is_entry = true;
  confidence = merge_confidence seed.confidence confidence;
  sources = add_unique seed.sources source;
}

-- The seed that was there, with what the new report adds.
unfoldable pub merged_seed : FunctionSeed → ℕ → ℕ → Text → Text → FunctionConfidence → FunctionSeed
unfolding merge_size merge_range merge_name merge_rest
merged_seed seed address size name source confidence =
    merge_rest (merge_name (merge_range (merge_size seed size) address size source) name) source
      confidence

unfoldable pub push_work : ProgramState → ℕ → Text → List FunctionWorkItem
push_work s address source =
    s.function_worklist ++ record { address = address; source = source } ∷ []

-- A new seed is queued.
unfoldable pub insert_seed : ProgramState → ℕ → ℕ → Text → Text → FunctionConfidence → ProgramState
insert_seed s address size name source confidence = record s {
  source_counts = bump_source source s.source_counts;
  function_seeds =
      OrderedMap.insert address (new_seed address size name source confidence) s.function_seeds;
  function_worklist = push_work s address source;
}

-- A known seed is merged, and queued again only if it was a mere range hint.
unfoldable pub merge_seed :
    ProgramState → FunctionSeed → ℕ → ℕ → Text → Text → FunctionConfidence → ProgramState
merge_seed s seed address size name source confidence = record s {
  source_counts = bump_source source s.source_counts;
  function_seeds =
      OrderedMap.insert address (merged_seed seed address size name source confidence)
        s.function_seeds;
  function_worklist = if seed.is_entry then s.function_worklist else push_work s address source;
  notes =
      if range_differs seed address size
      then s.notes ++ range_mismatch_note seed address address (address + size) source ∷ []
      else s.notes;
}

-- `addFunctionSeed` tells whether the seed is new.
unfoldable pub add_function_seed :
    ProgramState → ℕ → ℕ → Text → Text → FunctionConfidence → ProgramState × Bool
add_function_seed s address size name source confidence =
    if address == 0 then (s, false) else elim (OrderedMap.find address s.function_seeds) [
      | none ↦ (insert_seed s address size name source confidence, true)
      | some seed ↦ (merge_seed s seed address size name source confidence, false)
    ]

-- `markFunctionSeedExternallyVisible`.
unfoldable pub mark_function_seed_externally_visible : ProgramState → ℕ → ProgramState × Bool
mark_function_seed_externally_visible s address = elim (OrderedMap.find address s.function_seeds) [
  | none ↦ (s, false)
  | some seed ↦ (
    record s {
      function_seeds =
          OrderedMap.insert address (record seed { is_externally_visible = true }) s.function_seeds;
    },
    true,
  )
]

-- `demoteFunctionSeedToRangeHint`.
unfoldable pub demote_function_seed_to_range_hint : ProgramState → ℕ → ProgramState × Bool
demote_function_seed_to_range_hint s address = elim (OrderedMap.find address s.function_seeds) [
  | none ↦ (s, false)
  | some seed ↦ (
    record s {
      function_seeds =
          OrderedMap.insert address (record seed { is_entry = false }) s.function_seeds;
    },
    true,
  )
]

-- The seed and the notes after `addFunctionRange` on a known seed.
unfoldable pub ranged_seed : FunctionSeed → ℕ → ℕ → Text → FunctionSeed
ranged_seed seed start end source =
    if is_empty seed.range_source
    then record seed { range_start = start; range_end = end; range_source = source }
    else if seed.range_start == start && seed.range_end == end && text_beq source (codes "eh-frame")
    then record seed { range_source = source }
    else seed

unfoldable pub range_conflicts : FunctionSeed → ℕ → ℕ → Bool
range_conflicts seed start end =
    not (is_empty seed.range_source)
    && (not (seed.range_start == start) || not (seed.range_end == end))

unfoldable pub set_range : ProgramState → FunctionSeed → ℕ → ℕ → ℕ → Text → ProgramState
set_range s seed address start end source = record s {
  function_seeds = OrderedMap.insert address (ranged_seed seed start end source) s.function_seeds;
  notes =
      if range_conflicts seed start end
      then s.notes ++ range_mismatch_note seed address start end source ∷ []
      else s.notes;
}

-- `addFunctionRange`.
unfoldable pub add_function_range : ProgramState → ℕ → ℕ → ℕ → Text → ProgramState
add_function_range s address start end source = elim (OrderedMap.find address s.function_seeds) [
  | none ↦ s
  | some seed ↦ if leb end start then s else set_range s seed address start end source
]
