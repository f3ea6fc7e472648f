-- ===== src/Program/Instructions/TailFlow.antt =====
-- Marking a direct target as a tail exit moves it, and restoring it moves it back.
use not_dec_bin2llvm.Common.{
  ℕ, List, [], ◌∷◌, Bool, true, false, ◌==◌, ◌||◌, contains, erase_first, nat_eq,
  contains-add_unique, ◌≡◌, refl, arith,
}
use mathlib.Core.List.{Perm}
use mathlib.Core.List.Perm
use not_dec_bin2llvm.Program.{Instruction}
use not_dec_bin2llvm.Program.Instructions.{with_tail_target, without_tail_target}

contains-erase_first :
    (xs : List ℕ) (t a : ℕ) → t == a ≡ false → contains (erase_first xs t) a ≡ contains xs a
unfolding contains erase_first
contains-erase_first [] t a h = refl
contains-erase_first (x ∷ xs) t a h = ground (arith, contains-erase_first xs t a h)

contains_eq : (xs : List ℕ) (t a : ℕ) → t == a ≡ true → contains xs t ≡ contains xs a
unfolding contains
contains_eq [] t a h = refl
contains_eq (x ∷ xs) t a h = ground (arith, contains_eq xs t a h)

-- An address is a target, direct or tail.
abbrev pub is_target : Instruction → ℕ → Bool
is_target i a = contains i.direct_flow_targets a || contains i.tail_flow_targets a

-- Neither marking nor restoring a tail target loses or makes up a target of the instruction.
pub tail_target-is_target :
    (i : Instruction) (target a : ℕ)
    → (is_target (with_tail_target target i).0 a ≡ is_target i a)
      × (is_target (without_tail_target target i).0 a ≡ is_target i a)
unfolding with_tail_target without_tail_target
tail_target-is_target i target a = (
  ground (
    arith,
    contains-erase_first i.direct_flow_targets target a,
    contains_eq i.direct_flow_targets target a,
    contains-add_unique i.tail_flow_targets target a,
  ),
  ground (
    arith,
    contains-erase_first i.tail_flow_targets target a,
    contains_eq i.tail_flow_targets target a,
    contains-add_unique i.direct_flow_targets target a,
  ),
)
