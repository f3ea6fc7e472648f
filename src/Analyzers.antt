-- ===== src/Analyzers.antt =====
-- lib/NativeAnalysis.cpp: the analyzers, and `NativeAnalysisManager`, which runs them in the order of
-- their priorities.
pub mod Schedule
pub mod Entries
pub mod Thunks
pub mod Jumps
pub mod Relocations
pub mod Normalizer
pub mod Validity
mod Examples
use not_dec_bin2llvm.Common.{ℕ, List, [], ◌∷◌, ◌++◌, Bool, true, false, leb, if◌then◌else◌, Text}
use not_dec_bin2llvm.Program.{ProgramState}

-- `NativeAnalyzer`. All priorities of the source are positive. No analyzer of the source uses the
-- manager that `run` is given.
pub record Analyzer : Type 0 where
  pub name : Text
  pub priority : ℕ
  pub run : ProgramState → ProgramState

-- `addAnalyzer`.
unfoldable pub add_analyzer : List Analyzer → Analyzer → List Analyzer
add_analyzer analyzers analyzer = analyzers ++ analyzer ∷ []

-- `std::stable_sort` by priority.
unfoldable pub insert_analyzer : Analyzer → List Analyzer → List Analyzer
insert_analyzer analyzer [] = analyzer ∷ []
insert_analyzer analyzer (other ∷ others) =
    if leb analyzer.priority other.priority
    then analyzer ∷ other ∷ others
    else other ∷ insert_analyzer analyzer others

unfoldable pub schedule : List Analyzer → List Analyzer
schedule [] = []
schedule (analyzer ∷ analyzers) = insert_analyzer analyzer (schedule analyzers)

unfoldable pub run_all : List Analyzer → ProgramState → ProgramState
run_all [] s = s
run_all (analyzer ∷ analyzers) s = run_all analyzers (analyzer.run s)

-- `NativeAnalysisManager::run`.
unfoldable pub run_analyzers : List Analyzer → ProgramState → ProgramState
run_analyzers analyzers s = run_all (schedule analyzers) s
