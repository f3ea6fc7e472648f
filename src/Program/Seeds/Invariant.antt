-- ===== src/Program/Seeds/Invariant.antt =====
-- The well-formedness of the seed table and its worklist, and that every seed operation keeps it.
use not_dec_bin2llvm.Common.{
  ℕ, ◌≤◌, ◌<◌, List, [], ◌∷◌, ◌++◌, some, Bool, true, false, All, Any, Text, max_u64, is_some, ◌≡◌,
  ◌≢◌, refl, arith, inl, inr, ◌⊎◌, Option-cases, All-imp, All-append, Any-append_left,
  Any-append_right, if◌then◌else◌,
}
use not_dec_bin2llvm.OrderedMap
use not_dec_bin2llvm.OrderedMap.{IsOrdered}
use not_dec_bin2llvm.OrderedMap.Laws.{find-insert, All-insert, All-find, insert-IsOrdered}
use not_dec_bin2llvm.Program.{FunctionConfidence, FunctionSeed, FunctionWorkItem, ProgramState}
use not_dec_bin2llvm.Program.Seeds.{
  new_seed, merged_seed, push_work, insert_seed, merge_seed, set_range, ranged_seed,
  add_function_seed, mark_function_seed_externally_visible, demote_function_seed_to_range_hint,
  add_function_range,
}

-- A range is unknown, or not empty and within the address space.
abbrev pub RangeIsOk : FunctionSeed → Type 0
RangeIsOk seed =
    ((seed.range_start ≡ 0) × (seed.range_end ≡ 0))
    ⊎ ((seed.range_start < seed.range_end) × (seed.range_end ≤ max_u64))

-- A seed is filed under its own address, which is not null.
abbrev pub SeedIsOk : ℕ × FunctionSeed → Type 0
SeedIsOk p = (p.0 ≢ 0) × (p.1.address ≡ p.0) × RangeIsOk p.1

-- The address was queued for decoding.
abbrev pub IsQueued : List FunctionWorkItem → ℕ → Type 0
IsQueued worklist address = Any (λ (w : FunctionWorkItem). w.address ≡ address) worklist

abbrev pub EntryIsQueued : List FunctionWorkItem → ℕ × FunctionSeed → Type 0
EntryIsQueued worklist p = p.1.is_entry ≡ true → IsQueued worklist p.0

pub record SeedsAreValid (s : ProgramState) : Type 0 where
  pub ordered : IsOrdered s.function_seeds
  pub seeds : All SeedIsOk s.function_seeds
  pub queued : All (EntryIsQueued s.function_worklist) s.function_seeds
  pub known :
      All
        (λ (w : FunctionWorkItem). is_some (OrderedMap.find w.address s.function_seeds) ≡ true)
        s.function_worklist

-- One more item on the worklist leaves the queued seeds queued.
queued_longer :
    (worklist more : List FunctionWorkItem) (seeds : List (ℕ × FunctionSeed))
    → All (EntryIsQueued worklist) seeds
    → All (EntryIsQueued (worklist ++ more)) seeds
queued_longer worklist more seeds =
    All-imp (EntryIsQueued worklist) (EntryIsQueued (worklist ++ more)) seeds
      (λ p h e. Any-append_left (λ (w : FunctionWorkItem). w.address ≡ p.0) worklist more (h e))

-- Storing a seed loses no key.
known_longer :
    (address : ℕ) (seed : FunctionSeed) (seeds : List (ℕ × FunctionSeed))
    (worklist : List FunctionWorkItem)
    → All (λ (w : FunctionWorkItem). is_some (OrderedMap.find w.address seeds) ≡ true) worklist
    → All
        (λ (w : FunctionWorkItem).
          is_some (OrderedMap.find w.address (OrderedMap.insert address seed seeds)) ≡ true)
        worklist
known_longer address seed seeds worklist =
    All-imp (λ (w : FunctionWorkItem). is_some (OrderedMap.find w.address seeds) ≡ true)
      (λ (w : FunctionWorkItem).
        is_some (OrderedMap.find w.address (OrderedMap.insert address seed seeds)) ≡ true)
      worklist (λ w h. rw (find-insert address w.address seed seeds) (ground arith))

merged_is_ok :
    (seed : FunctionSeed) (address size : ℕ) (name source : Text) (confidence : FunctionConfidence)
    → SeedIsOk (address, seed)
    → SeedIsOk (address, merged_seed seed address size name source confidence)
unfolding merged_seed
merged_is_ok seed address size name source confidence h = ground arith

found_itself :
    (address : ℕ) (seed : FunctionSeed) (seeds : List (ℕ × FunctionSeed))
    → is_some (OrderedMap.find address (OrderedMap.insert address seed seeds)) ≡ true
found_itself address seed seeds = rw (find-insert address address seed seeds) (ground arith)

module _ (s : ProgramState) (v : SeedsAreValid s) (address : ℕ) where
  -- What storing a seed does to a worklist that grows by one item for it, if at all.
  pushed :
      (seed : FunctionSeed) (source : Text)
      → All
          (EntryIsQueued (push_work s address source))
          (OrderedMap.insert address seed s.function_seeds)
        × All
            (λ (w : FunctionWorkItem).
              is_some (OrderedMap.find w.address (OrderedMap.insert address seed s.function_seeds))
              ≡ true)
            (push_work s address source)
  unfolding push_work
  pushed seed source = (
    All-insert (EntryIsQueued (s.function_worklist ++ item ∷ [])) address seed s.function_seeds
        (λ e.
          Any-append_right (λ (w : FunctionWorkItem). w.address ≡ address) s.function_worklist
            (item ∷ []) (inl refl))
        (queued_longer s.function_worklist (item ∷ []) s.function_seeds v.queued),
    All-append
        (λ (w : FunctionWorkItem).
          is_some (OrderedMap.find w.address (OrderedMap.insert address seed s.function_seeds))
          ≡ true)
        s.function_worklist (item ∷ [])
        (known_longer address seed s.function_seeds s.function_worklist v.known)
        (found_itself address seed s.function_seeds, tt),
  )
    where
      item : FunctionWorkItem
      item = record { address = address; source = source }

  -- What storing a seed does where the worklist stays: the seed must have been queued if it is an
  -- entry.
  stored :
      (seed : FunctionSeed)
      → EntryIsQueued s.function_worklist (address, seed)
      → All (EntryIsQueued s.function_worklist) (OrderedMap.insert address seed s.function_seeds)
        × All
            (λ (w : FunctionWorkItem).
              is_some (OrderedMap.find w.address (OrderedMap.insert address seed s.function_seeds))
              ≡ true)
            s.function_worklist
  stored seed q = (
    All-insert (EntryIsQueued s.function_worklist) address seed s.function_seeds q v.queued,
    known_longer address seed s.function_seeds s.function_worklist v.known,
  )

  insert_seed-SeedsAreValid :
      (size : ℕ) (name source : Text) (confidence : FunctionConfidence)
      → address ≢ 0
      → SeedsAreValid (insert_seed s address size name source confidence)
  unfolding insert_seed
  insert_seed-SeedsAreValid size name source confidence nonzero =
      let seed = new_seed address size name source confidence in
      record {
        ordered = insert-IsOrdered address seed s.function_seeds v.ordered;
        seeds =
            All-insert SeedIsOk address seed s.function_seeds (unfold new_seed in ground arith)
              v.seeds;
        queued = (pushed seed source).0;
        known = (pushed seed source).1;
      }

  module _ (old : FunctionSeed) (found : OrderedMap.find address s.function_seeds ≡ some old) where
    old_is_ok : SeedIsOk (address, old)
    old_is_ok = All-find SeedIsOk address s.function_seeds v.seeds found

    old_is_queued : EntryIsQueued s.function_worklist (address, old)
    old_is_queued =
        All-find (EntryIsQueued s.function_worklist) address s.function_seeds v.queued found

    -- Only a range hint is queued again.
    requeued :
        (seed : FunctionSeed) (source : Text) (entry : Bool)
        → old.is_entry ≡ entry
        → All
            (EntryIsQueued (if entry then s.function_worklist else push_work s address source))
            (OrderedMap.insert address seed s.function_seeds)
          × All
              (λ (w : FunctionWorkItem).
                is_some
                  (OrderedMap.find w.address (OrderedMap.insert address seed s.function_seeds))
                ≡ true)
              (if entry then s.function_worklist else push_work s address source)
    requeued seed source true e = stored seed (λ _. old_is_queued e)
    requeued seed source false e = pushed seed source

    merge_seed-SeedsAreValid :
        (size : ℕ) (name source : Text) (confidence : FunctionConfidence)
        → SeedsAreValid (merge_seed s old address size name source confidence)
    unfolding merge_seed
    merge_seed-SeedsAreValid size name source confidence =
        let seed = merged_seed old address size name source confidence in
        let ok = merged_is_ok old address size name source confidence old_is_ok in
        let ordered = insert-IsOrdered address seed s.function_seeds v.ordered in
        let seeds = All-insert SeedIsOk address seed s.function_seeds ok v.seeds in
        let kept = requeued seed source old.is_entry refl in
        record { ordered = ordered; seeds = seeds; queued = kept.0; known = kept.1 }

    set_range-SeedsAreValid :
        (start end : ℕ) (source : Text)
        → start < end
        → end ≤ max_u64
        → SeedsAreValid (set_range s old address start end source)
    unfolding set_range
    set_range-SeedsAreValid start end source below fits =
        let seed = ranged_seed old start end source in
        let kept = stored seed (unfold ranged_seed in ground (arith, old_is_queued)) in
        record {
          ordered = insert-IsOrdered address seed s.function_seeds v.ordered;
          seeds =
              All-insert SeedIsOk address seed s.function_seeds
                (unfold ranged_seed in ground (arith, old_is_ok)) v.seeds;
          queued = kept.0;
          known = kept.1;
        }

-- A new report of an address keeps the table well formed, whatever it says.
pub add_function_seed-SeedsAreValid :
    (s : ProgramState) (address size : ℕ) (name source : Text) (confidence : FunctionConfidence)
    → SeedsAreValid s
    → SeedsAreValid (add_function_seed s address size name source confidence).0
unfolding add_function_seed
add_function_seed-SeedsAreValid s address size name source confidence v =
    elim (Option-cases (OrderedMap.find address s.function_seeds)) [
      | inl missing ↦
          rw missing
            (ground (arith, insert_seed-SeedsAreValid s v address size name source confidence))
      | inr (old, found) ↦ rw found (
          ground
            (arith, merge_seed-SeedsAreValid s v address old found size name source confidence))
    ]

module _ (s : ProgramState) (v : SeedsAreValid s) (address : ℕ) where
  -- A changed mark on a seed that was found: still no entry that was not queued.
  remarked :
      (old : FunctionSeed) (visible entry : Bool)
      → OrderedMap.find address s.function_seeds ≡ some old
      → (entry ≡ true → old.is_entry ≡ true)
      → SeedsAreValid (record s {
        function_seeds =
            OrderedMap.insert address
              (record old { is_externally_visible = visible; is_entry = entry })
              s.function_seeds;
      })
  remarked old visible entry found h =
      let seed : FunctionSeed = record old { is_externally_visible = visible; is_entry = entry } in
      let kept = stored s v address seed (λ e. old_is_queued s v address old found (h e)) in
      record {
        ordered = insert-IsOrdered address seed s.function_seeds v.ordered;
        seeds =
            All-insert SeedIsOk address seed s.function_seeds (old_is_ok s v address old found)
              v.seeds;
        queued = kept.0;
        known = kept.1;
      }

  pub mark_function_seed-SeedsAreValid :
      SeedsAreValid (mark_function_seed_externally_visible s address).0
  unfolding mark_function_seed_externally_visible
  mark_function_seed-SeedsAreValid =
      elim (Option-cases (OrderedMap.find address s.function_seeds)) [
        | inl missing ↦ rw (missing, mark_function_seed_externally_visible) v
        | inr (old, found) ↦
            rw (found, mark_function_seed_externally_visible)
              (remarked old true old.is_entry found (λ e. e))
      ]

  pub demote_function_seed-SeedsAreValid :
      SeedsAreValid (demote_function_seed_to_range_hint s address).0
  unfolding demote_function_seed_to_range_hint
  demote_function_seed-SeedsAreValid =
      elim (Option-cases (OrderedMap.find address s.function_seeds)) [
        | inl missing ↦ rw (missing, demote_function_seed_to_range_hint) v
        | inr (old, found) ↦
            rw (found, demote_function_seed_to_range_hint)
              (remarked old old.is_externally_visible false found (λ e. cc))
      ]

  -- A reported range within the address space keeps the table well formed.
  pub add_function_range-SeedsAreValid :
      (start end : ℕ) (source : Text)
      → end ≤ max_u64
      → SeedsAreValid (add_function_range s address start end source)
  unfolding add_function_range
  add_function_range-SeedsAreValid start end source fits =
      elim (Option-cases (OrderedMap.find address s.function_seeds)) [
        | inl missing ↦ rw (missing, add_function_range) v
        | inr (old, found) ↦
            rw (found, add_function_range)
              (ground (arith, set_range-SeedsAreValid s v address old found start end source))
      ]
