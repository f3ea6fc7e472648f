-- ===== src/Program/Instructions/Ranges.antt =====
-- `instructionsInRange` returns the instructions of the interval, in address order.
use not_dec_bin2llvm.Common.{
  ℕ, ◌≤◌, ◌<◌, List, [], ◌∷◌, Bool, All, ltb, leb, ◌&&◌, map, keep_if, ◌≡◌, refl, arith, inl, inr,
  Bool-cases,
}
use not_dec_bin2llvm.OrderedMap
use not_dec_bin2llvm.OrderedMap.{IsOrdered}
use not_dec_bin2llvm.Program.{Instruction, ProgramState}
use not_dec_bin2llvm.Program.Instructions.{before, instructions_in_range}

abbrev pub in_range : ℕ → ℕ → ℕ × Instruction → Bool
in_range start end p = leb start p.0 && ltb p.0 end

abbrev pub instruction_of : ℕ × Instruction → Instruction
instruction_of p = p.1

none_left :
    (m : List (ℕ × Instruction)) (k start end : ℕ)
    → end ≤ k
    → All (λ (p : ℕ × Instruction). k < p.0) m
    → keep_if (in_range start end) m ≡ []
none_left [] k start end h a = refl
none_left ((j, i) ∷ m) k start end h (a, b) = ground (arith, none_left m k start end h b)

before-keep_if :
    (m : List (ℕ × Instruction)) (start end : ℕ)
    → IsOrdered m
    → All (λ (p : ℕ × Instruction). start ≤ p.0) m
    → before m end ≡ map instruction_of (keep_if (in_range start end) m)
unfolding before
before-keep_if [] start end o h = refl
before-keep_if ((j, i) ∷ m) start end (a, o) (p, h) =
    ground (arith, before-keep_if m start end o h, none_left m j start end)

after_start :
    (m : List (ℕ × Instruction)) (k start : ℕ)
    → start ≤ k
    → All (λ (p : ℕ × Instruction). k < p.0) m
    → All (λ (p : ℕ × Instruction). start ≤ p.0) m
after_start [] k start h a = tt
after_start (p ∷ m) k start h (a, b) = (omega arith, after_start m k start h b)

from_start :
    (m : List (ℕ × Instruction)) (start end : ℕ)
    → IsOrdered m
    → before (OrderedMap.lower_bound start m) end
      ≡ map instruction_of (keep_if (in_range start end) m)
unfolding OrderedMap.lower_bound
from_start [] start end o = unfold before in refl
from_start ((j, i) ∷ m) start end (a, o) = elim (Bool-cases (ltb j start)) [
  | inl below ↦ rw (below, OrderedMap.lower_bound) (ground (arith, from_start m start end o))
  | inr reached ↦
      rw (reached, OrderedMap.lower_bound)
        (ground (
          arith,
          before-keep_if ((j, i) ∷ m) start end (a, o)
              (ground arith, after_start m j start (ground arith) a),
        ))
]

empty_interval :
    (m : List (ℕ × Instruction)) (start end : ℕ) → end ≤ start → keep_if (in_range start end) m ≡ []
empty_interval [] start end h = refl
empty_interval ((j, i) ∷ m) start end h = ground (arith, empty_interval m start end h)

-- On instructions in key order the walk from `lower_bound` returns exactly the instructions at
-- addresses in [start, end), in order.
pub instructions_in_range-keep_if :
    (s : ProgramState) (start end : ℕ)
    → IsOrdered s.instructions
    → instructions_in_range s start end
      ≡ map instruction_of (keep_if (in_range start end) s.instructions)
unfolding instructions_in_range
instructions_in_range-keep_if s start end o = elim (Bool-cases (leb end start)) [
  | inl empty ↦
      rw (empty, instructions_in_range, empty_interval s.instructions start end (ground arith)) refl
  | inr proper ↦ rw (proper, instructions_in_range) (from_start s.instructions start end o)
]
