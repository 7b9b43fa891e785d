-- ===== src/Reporter.antt =====
-- src/reporter.cc: the lines that the parser finds, the hits that the collector reports, and the
-- coverage database. Line and File are the classes of that name, Env is what the reporter is given,
-- State its fields and the handlers of the parser's and the collector's events, Database the
-- reading and writing of the database, Summary the queries.
pub mod Line
pub mod File
pub mod Env
pub mod State
pub mod Heap
pub mod Valid
pub mod Hits
pub mod Counts
pub mod Slots
pub mod Lines
pub mod Tables
pub mod Attach
pub mod Summary
pub mod Database
pub mod Entries
pub mod Zeros
pub mod Content
pub mod Decode
pub mod RoundTrip
pub mod Events
pub mod Executed
