-- ===== src/Analyzers/Jumps/Tables.antt =====
-- `readX86PicI32Targets` reads the whole table and then sorts its entries out.
use not_dec_bin2llvm.Common.{
  ℕ, zero, suc, ◌+◌, List, [], ◌∷◌, Option, none, some, Bool, true, false, if◌then◌else◌, ◌&&◌,
  keep_if, add_unique, Bool-cases, Option-cases, ◌≡◌, refl, inl, inr, ap, nat_eq,
}
use not_dec_bin2llvm.Program.{ProgramState}
use not_dec_bin2llvm.Analyzers.Jumps.{
  function_contains_block_start, entry_target, add_target, targets_loop, read_x86_pic_i32_targets,
}

-- All entries, if every one of them has a target.
abbrev pub table_targets : ℕ → ProgramState → ℕ → ℕ → Option (List ℕ)
table_targets zero s table_base index = some []
table_targets (suc count) s table_base index = elim (entry_target s table_base index) [
  | none ↦ none
  | some target ↦ elim (table_targets count s table_base (index + 1)) [
    | none ↦ none
    | some targets ↦ some (target ∷ targets)
  ]
]

abbrev pub all_starts : ProgramState → List ℕ → Bool
all_starts s [] = true
all_starts s (target ∷ targets) = function_contains_block_start s target && all_starts s targets

abbrev pub add_all_unique : List ℕ → List ℕ → List ℕ
add_all_unique targets [] = targets
add_all_unique targets (target ∷ more) = add_all_unique (add_unique targets target) more

-- The targets that are kept, each once and in order of the table, and whether the blocks are there.
abbrev pub sorted_out :
    ProgramState → Bool → List ℕ × Bool → Option (List ℕ) → Option (List ℕ × Bool)
sorted_out s only_existing_blocks found none = none
sorted_out s only_existing_blocks (targets, complete) (some entries) = some (
  add_all_unique targets
      (if only_existing_blocks then keep_if (function_contains_block_start s) entries else entries),
  complete && all_starts s entries,
)

false-and : (b : Bool) → false ≡ b && false
false-and true = refl
false-and false = refl

sorted_out_step :
    (s : ProgramState) (only_existing_blocks : Bool) (found : List ℕ × Bool) (target : ℕ)
    (entries : List ℕ)
    → sorted_out s only_existing_blocks
        (add_target s only_existing_blocks target found)
        (some entries)
      ≡ sorted_out s only_existing_blocks found (some (target ∷ entries))
unfolding add_target
sorted_out_step s true (targets, complete) target entries =
    elim (Bool-cases (function_contains_block_start s target)) [
      | inl start ↦ rw start refl
      | inr other ↦ rw other (
          ap
            (λ (c : Bool).
              some (add_all_unique targets (keep_if (function_contains_block_start s) entries), c))
            (false-and complete))
    ]
sorted_out_step s false (targets, complete) target entries =
    elim (Bool-cases (function_contains_block_start s target)) [
      | inl start ↦ rw start refl
      | inr other ↦ rw other (
          ap (λ (c : Bool). some (add_all_unique (add_unique targets target) entries, c))
            (false-and complete))
    ]

targets_loop_lem :
    (count : ℕ) (s : ProgramState) (table_base index : ℕ) (only_existing_blocks : Bool)
    (found : List ℕ × Bool)
    → targets_loop count s table_base index only_existing_blocks found
      ≡ sorted_out s only_existing_blocks found (table_targets count s table_base index)
unfolding targets_loop
targets_loop_lem zero s table_base index true (targets, true) = refl
targets_loop_lem zero s table_base index true (targets, false) = refl
targets_loop_lem zero s table_base index false (targets, true) = refl
targets_loop_lem zero s table_base index false (targets, false) = refl
targets_loop_lem (suc count) s table_base index only_existing_blocks found =
    elim (Option-cases (entry_target s table_base index)) [
      | inl missing ↦ rw (missing, targets_loop, table_targets) refl
      | inr (target, there) ↦
          rw (there, targets_loop, table_targets)
            (elim (Option-cases (table_targets count s table_base (index + 1))) [
              | inl cut ↦
                  rw
                    (
                      targets_loop_lem count s table_base (index + 1) only_existing_blocks
                          (add_target s only_existing_blocks target found),
                      cut,
                    )
                    refl
              | inr (entries, whole) ↦
                  rw
                    (
                      targets_loop_lem count s table_base (index + 1) only_existing_blocks
                          (add_target s only_existing_blocks target found),
                      whole,
                    )
                    (sorted_out_step s only_existing_blocks found target entries)
            ])
    ]

-- The loop over a jump table fails exactly if some entry has no target, and otherwise returns the
-- targets of all entries, or of those that start a block, each once and in the order of the
-- table, and tells whether all start a block.
pub read_x86_pic_i32_targets_lem :
    (s : ProgramState) (table_base entry_count : ℕ) (only_existing_blocks : Bool)
    → read_x86_pic_i32_targets s table_base entry_count only_existing_blocks
      ≡ sorted_out s only_existing_blocks ([], true) (table_targets entry_count s table_base 0)
unfolding read_x86_pic_i32_targets
read_x86_pic_i32_targets_lem s table_base entry_count only_existing_blocks =
    targets_loop_lem entry_count s table_base 0 only_existing_blocks ([], true)
