-- ===== src/Bash.antt =====
-- src/engines/bash-engine.cc: which lines of a script are code, and the trace of a run.
pub mod Lines
pub mod Code
pub mod Sweep
pub mod Engine
pub mod Trace
pub mod Runs
pub mod Ending
