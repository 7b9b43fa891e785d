-- ===== src/Filter.antt =====
-- src/filter.cc: which files and which lines count. The state that changes is the line handler's
-- (LineHandler); the pattern and path handlers and their composition are in Patterns, Paths, Files.
pub mod LineHandler
pub mod Regions
pub mod Patterns
pub mod Paths
pub mod Files
pub mod Accepts
