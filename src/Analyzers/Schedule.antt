-- ===== src/Analyzers/Schedule.antt =====
-- The order in which the analyzers run.
use not_dec_bin2llvm.Common.{ℕ, ◌≤◌, List, [], ◌∷◌, ◌==◌, All, keep_if}
use not_dec_bin2llvm.Analyzers.{Analyzer}

-- The priorities rise.
abbrev pub IsScheduled : List Analyzer → Type 0
IsScheduled [] = Unit
IsScheduled (a ∷ rest) = All (λ (b : Analyzer). a.priority ≤ b.priority) rest × IsScheduled rest

-- The analyzers of one priority.
abbrev pub of_priority : ℕ → List Analyzer → List Analyzer
of_priority p analyzers = keep_if (λ (a : Analyzer). a.priority == p) analyzers
