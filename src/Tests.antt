-- ===== src/Tests.antt =====
-- Runs of the models on concrete inputs, and the theorems at inputs that meet their hypotheses.
mod Basics
mod Filters
mod Reports
mod Runs
mod Merges
mod Shared
mod Scripts
mod Programs
mod Binaries
mod Options
mod Outputs
mod Texts
mod Matches
