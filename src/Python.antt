-- ===== src/Python.antt =====
-- src/engines/python-engine.cc: which lines of a Python program are code, and the pipe on which
-- src/engines/python-helper.py reports the lines that are executed.
pub mod Lines
pub mod Strings
pub mod Datum
pub mod Reading
pub mod Report
pub mod Truncated
pub mod Engine
