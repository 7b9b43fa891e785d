-- ===== src/Lib.antt =====
-- kcov: a tester of code coverage that runs a program without a change to its build. This library
-- models the core of its C++ code as functions that can be run, with theorems on what they do.
--
-- How the parts interact. src/main.cc picks a file parser and an engine for the program, and
-- wires the rest. The parser finds lines, each a file, a number and an address, and tells its
-- listeners: the collector (src/collector.cc), which has the engine set a breakpoint there if the
-- filter (src/filter.cc) lets the file through, and the reporter (src/reporter.cc), which keeps
-- the lines by file and address. The engine runs the program; its events reach the collector,
-- which passes each breakpoint on as a hit, first of all to the reporter. The reporter counts hits
-- by line, keeps those of lines that it does not know yet, stores all hits in a database at the
-- end and reads them back in the next run. It tells lines and hits to the merge parser
-- (src/merge-file-parser.cc), which stores them by source file and adds up several runs. Writers
-- ask the reporter for counts and print them, when the output handler (src/output-handler.cc) says
-- so. A script's engine is its parser as well: it finds the lines of a script in its text, and
-- takes the hits from what the interpreter writes. For whole systems (src/main-system-daemon.cc) the
-- binaries are instrumented, and write their hits to memory that their threads share.
--
-- Files:
--   Prelude, Prelude/*       Boolean tests, lists by native numbers, optional results, tables
--   Endian, Endian/*         src/include/swap-endian.hh
--   Strings, Strings/*       std::string::find and compare as the code uses them; split_string,
--                            split_path, escape_html, escape_json, trim_string, get_real_path
--                            and look_path of src/utils.cc; Strings/Literal reads the texts
--                            of escape_json as JavaScript does
--   Filter/LineHandler       FileLineHandler of src/filter.cc; Filter/Regions has its proofs
--   Filter/Patterns, Paths   PatternHandler and PathHandler
--   Filter/Files             Filter, composed; Filter/Accepts has the proofs of all three
--   Reporter/Line, File      Reporter::Line and Reporter::File of src/reporter.cc
--   Reporter/Env             what the reporter is given by other parts
--   Reporter/State           Reporter's fields, onLine, onAddressHit
--   Reporter/Database        marshal, unMarshal, onFile, writeCoverageDatabase
--   Reporter/Summary         lineIsCode, getLineExecutionCount, getExecutionSummary
--   Reporter/*               the other files hold the proofs: Heap, Valid, Hits, Slots, Tables,
--                            Lines and Attach on the invariant, Entries, Zeros, Content, Decode and
--                            RoundTrip on the database, Events on sequences, Executed on sums,
--                            Counts on the hits of a line
--   Collector, Collector/*   src/collector.cc and the interface of src/include/engine.hh
--   SourceFileCache          src/source-file-cache.cc
--   Capabilities             src/capabilities.cc
--   OutputHandler            src/output-handler.cc
--   Configuration            the keys, defaults and listeners of src/configuration.cc
--   Configuration/Lists, Configure, Options getCommaSeparatedList; configure; parse's options
--   Configuration/Keys, Reads, Steps, Parsing proofs on the keys that src/ reads, and their types
--   Merge                    MergeParser of src/merge-file-parser.cc: File, onAddress,
--                            onLineReporter
--   Merge/Format             struct file_data, marshalFile, unMarshalFile, parseFileData
--   Merge/*                  proofs: Plain and RoundTrip on the format, Replay on parsing, Order,
--                            Safe and Events on the handlers
--   Script                   ScriptEngineBase of src/engines/script-engine-base.hh, and what the
--                            script engines' checkEvents share
--   Script/Addresses, Sweeps proofs on its table of addresses and on loops over lines
--   Bash/Lines               parseFileBasic and parseFileFull of src/engines/bash-engine.cc
--   Bash/Engine              BashEngine: checkEvents, continueExecution, start, matchFile
--   Bash/*                   proofs: Code and Sweep on scripts, Trace on one line of the trace, Runs and
--                            Ending on whole runs
--   Python/Lines             parseFile of src/engines/python-engine.cc
--   Python/Datum             readCoverageDatum, and what src/engines/python-helper.py writes
--   Python/Engine            PythonEngine: checkEvents, continueExecution, start, matchFile
--   Python/*                 proofs: Strings on programs, Reading, Report and Truncated on the pipe
--   Matching                 the best matches of src/parser-manager.cc and
--                            src/engine-factory.cc
--   ModeFile, ModeFile/Layout SystemModeFile of src/system-mode/file-data.cc and its trailer
--   ModeFile/*               proofs: Trailers and Parts on the parts of a file, RoundTrip on all
--   SystemMode               system_mode_memory of src/engines/system-mode-file-format.cc
--   SystemMode/*             proofs: Bits on single bits, Threads on one access, Races on many,
--                            Alone on a thread that nobody interrupts
--   Writers                  WriterBase of src/writers/writer-base.cc
--   Tests/*                  runs on concrete inputs
--
-- Conventions. Bytes and integers are native numbers; a w-bit integer wraps by `% 2 ^ w`, a signed
-- one is held as its bit pattern. A std::string is the list of its bytes. An unordered_map is a
-- table in the order of insertion, also where the code iterates over it. A pointer to a Line is an
-- index of the reporter's heap, a pointer to a File of the merge parser the file's name. The state
-- of a script engine holds what its child will still write (the lines of bash's trace, the bytes
-- of Python's pipe), and what waitpid and file_readable will answer. An operation that may follow
-- a dangling pointer, access memory outside of a block or panic returns an Option, whose `none` is
-- that fault; the steps of the options' parser have an outcome for each way to end. Calls of
-- listeners are recorded in order.
--
-- Bounds and fuel. Every loop but two is a recursion on what the source loops over; unMarshal's
-- count of entries comes from the size of the file. setupCommonPaths shortens its path in each
-- round, whose length is the fuel. The loop of Collector.run lasts as long as the engine says: it
-- is given a bound on its rounds, and Collector/Rounds is about how many are enough; with the
-- engine of scripts they are the lines of the trace and the answers of waitpid.
--
-- Given as parameters: the file system (reading, realpath), std::regex, zlib's crc32 and std::hash,
-- std::stoul and stoull, getopt_long, Python's encoding of a file's name, the native engines, and
-- the configuration's values where other parts read them. Not modelled: input and output, threads
-- and signals, the writers' texts, the parsers of ELF, DWARF and Mach-O, which call libraries, the
-- native engines. An open region's depth and the number of lines are taken not to reach the end of
-- their integer types, and the strings and entries of a system mode file to stay below 2 ^ 32 bytes.
pub mod Prelude
pub mod Bash
pub mod Python
pub mod Capabilities
pub mod Collector
pub mod Configuration
pub mod Endian
pub mod Script
pub mod SourceFileCache
pub mod Strings
pub mod Filter
pub mod Matching
pub mod ModeFile
pub mod Merge
pub mod OutputHandler
pub mod Reporter
pub mod SystemMode
pub mod Writers
mod Tests
