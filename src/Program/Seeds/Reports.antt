-- ===== src/Program/Seeds/Reports.antt =====
-- What a report of a seed leaves in the table and on the worklist.
use not_dec_bin2llvm.Common.{
  ℕ, [], ◌∷◌, ◌++◌, Option, none, some, Bool, true, false, Text, text_eq, contains, ◌≡◌, ◌≢◌, refl,
  arith, inl, inr, Option-cases, if◌then◌else◌, is_some, not, ◌==◌, contains_own,
  contains-add_unique, text_beq_iff,
}
use not_dec_bin2llvm.OrderedMap
use not_dec_bin2llvm.OrderedMap.Laws.{find-insert}
use not_dec_bin2llvm.Program.{FunctionConfidence, FunctionSeed, FunctionWorkItem, ProgramState}
use not_dec_bin2llvm.Program.Seeds.{
  new_seed, merged_seed, merge_confidence, push_work, insert_seed, merge_seed, add_function_seed,
}

-- The confidence of a seed after a report.
abbrev pub reported_confidence : Option FunctionSeed → FunctionConfidence → FunctionConfidence
reported_confidence none confidence = confidence
reported_confidence (some seed) confidence = merge_confidence seed.confidence confidence

abbrev pub was_visible : Option FunctionSeed → Bool
was_visible none = false
was_visible (some seed) = seed.is_externally_visible

-- A seed was already an entry.
abbrev pub was_entry : Option FunctionSeed → Bool
was_entry none = false
was_entry (some seed) = seed.is_entry

contains-merged :
    (old : FunctionSeed) (address size : ℕ) (name source : Text) (confidence : FunctionConfidence)
    → contains (merged_seed old address size name source confidence).sources source ≡ true
unfolding merged_seed
contains-merged old address size name source confidence =
    rw (contains-add_unique _ source source, (text_beq_iff source source).1 refl) (ground arith)

merged-confidence :
    (old : FunctionSeed) (address size : ℕ) (name source : Text) (confidence : FunctionConfidence)
    → (merged_seed old address size name source confidence).confidence
      ≡ merge_confidence old.confidence confidence
unfolding merged_seed
merged-confidence old address size name source confidence = ground arith

merged-visible :
    (old : FunctionSeed) (address size : ℕ) (name source : Text) (confidence : FunctionConfidence)
    → (merged_seed old address size name source confidence).is_externally_visible
      ≡ old.is_externally_visible
unfolding merged_seed
merged-visible old address size name source confidence = ground arith

abbrev pub item : ℕ → Text → FunctionWorkItem
item address source = record { address = address; source = source }

module _ (s : ProgramState) (address size : ℕ) (name source : Text)
    (confidence : FunctionConfidence) where
  added :
      address ≢ 0
      → OrderedMap.find address s.function_seeds ≡ none
      → add_function_seed s address size name source confidence
        ≡ (insert_seed s address size name source confidence, true)
  unfolding add_function_seed
  added nonzero e = ground arith

  merged :
      (old : FunctionSeed)
      → address ≢ 0
      → OrderedMap.find address s.function_seeds ≡ some old
      → add_function_seed s address size name source confidence
        ≡ (merge_seed s old address size name source confidence, false)
  unfolding add_function_seed
  merged old nonzero e = ground arith

pub add_function_seed_effect :
    (s : ProgramState) (address size : ℕ) (name source : Text) (confidence : FunctionConfidence)
    (j : ℕ)
    → address ≢ 0
    → let r = add_function_seed s address size name source confidence in
      let old = OrderedMap.find address s.function_seeds in
      (seed : FunctionSeed) × (OrderedMap.find j r.0.function_seeds
        ≡ (if address == j then some seed else OrderedMap.find j s.function_seeds))
      × (seed.is_entry ≡ true)
      × (contains seed.sources source ≡ true)
      × (seed.confidence ≡ reported_confidence old confidence)
      × (seed.is_externally_visible ≡ was_visible old)
      × (r.0.function_worklist ≡ (
          if was_entry old
          then s.function_worklist
          else s.function_worklist ++ item address source ∷ []))
      × (r.1 ≡ not (is_some old))
unfolding insert_seed merge_seed push_work new_seed
add_function_seed_effect s address size name source confidence j nonzero =
    elim (Option-cases (OrderedMap.find address s.function_seeds)) [
      | inl missing ↦
          let new = added s address size name source confidence nonzero missing in
          let seed = new_seed address size name source confidence in
          (
            seed,
            rw (new, insert_seed) (find-insert address j seed s.function_seeds),
            unfold new_seed in refl,
            unfold new_seed in contains_own source,
            rw missing (unfold new_seed in refl),
            rw missing (unfold new_seed in refl),
            rw (new, insert_seed, missing, push_work) refl,
            rw (new, missing) refl,
          )
      | inr (old, found) ↦
          let known = merged s address size name source confidence old nonzero found in
          let seed = merged_seed old address size name source confidence in
          (
            seed,
            rw (known, merge_seed) (find-insert address j seed s.function_seeds),
            unfold merged_seed in refl,
            contains-merged old address size name source confidence,
            rw found (merged-confidence old address size name source confidence),
            rw found (merged-visible old address size name source confidence),
            rw (known, merge_seed, found, push_work) refl,
            rw (known, found) refl,
          )
    ]
