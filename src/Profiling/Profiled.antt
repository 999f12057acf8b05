-- ===== src/Profiling/Profiled.antt =====
-- The reports of a profiled command, from the table that the profiler wrote.
use Prim.Native.Char.{Char}
use cudaforge.Prelude.{string_eq, ◌≡◌, false, String, List, [], ◌∷◌}
use cudaforge.Profiling.Csv.{startswith}
use cudaforge.Profiling.CsvPrint.{print_line}

abbrev IsText : String → Type 0
IsText String.[] = ⊥
IsText (String.◌∷◌ c s) = Unit

-- No line begins like those of the profiler itself.
abbrev pub AreOthers : List (List String) → Type 0
AreOthers [] = Unit
AreOthers (row ∷ rows) = (startswith (print_line row) "\"==PROF==\"" ≡ false) × AreOthers rows
