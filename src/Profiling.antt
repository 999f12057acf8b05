-- ===== src/Profiling.antt =====
-- profiling: the tracer of device events and the detector of memory leaks.
pub mod Tracer
pub mod Sections
pub mod Leaks
pub mod Csv
pub mod Ncu
pub mod CsvPrint
pub mod Keys
pub mod Grouping
pub mod Reports
pub mod Profiled
pub mod Timing
pub mod Rounds
mod Tests
mod TableTests
