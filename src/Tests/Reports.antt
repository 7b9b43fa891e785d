-- ===== src/Tests/Reports.antt =====
-- src/reporter.cc on a small run: a script of five lines of which one is excluded.
use kcov.Prelude.{
  ascii, ℕ, subst, inl, inr, Bool-cases, ◌≤◌, ◌≡◌, refl, true, false, Option, none, some, List, [],
  ◌∷◌, Bytes, arith, All, length, ◌>>=◌, eqb, if◌then◌else◌, bytes_eq, replicate, ◌++◌, name_key,
  number_key,
}
use kcov.Prelude.Table.{find, insert}
use kcov.Endian.{
  little_endian, big_endian, get_be, be_to_host, load, swap_endian, cpu_is_little_endian,
}
use kcov.Filter.LineHandler.{LineHandler, match, single_loop, begin_loop, end_loop}
use kcov.Strings.Find.{contains}
use kcov.Reporter.Line
use kcov.Reporter.Line.{Line}
use kcov.Reporter.File
use kcov.Reporter.Env.{single_shot, Env, hits_unlimited}
use kcov.Reporter.State.{
  Reporter, new_reporter, on_line, on_address_hit, hit_line, hit_lines, report_address,
  mark_unreachable, create_file, is_dup, apply_pending, attach_address,
}
use kcov.Reporter.Events.{
  Event, line_found, address_hit, file_added, HasHeader, handle, run_events, never_faults,
}
use kcov.Reporter.Hits.{IsValid, Keeps, on_address_hit-IsValid}
use kcov.Reporter.Attach.{on_line-IsValid}
use kcov.Reporter.Valid.{reachable_count, Knows}
use kcov.Reporter.Counts.{Counted, OthersKept, on_address_hit-Counted}
use kcov.Reporter.Content.{LineInRange, all_entries}
use kcov.Reporter.Decode.{restore_all}
use kcov.Reporter.RoundTrip.{marshal_fits, un_marshal-marshal}
use kcov.Reporter.Executed.{slots_of, executed-le-lines}
use kcov.Reporter.Summary.{ExecutionSummary, get_execution_summary, summary_loop}
use kcov.Reporter.Database.{
  on_file, un_marshal, un_marshal_header, marshal, marshal_header, marshal_files, get_marshal_size,
}

abbrev script : List Bytes
script = ascii "#!/bin/bash" ∷ ascii "echo a" ∷ ascii "die # LCOV_EXCL_LINE" ∷ ascii "echo b" ∷ []

abbrev env : Env
env = record {
  host = little_endian;
  run_filters = λ file. true;
  get_lines = λ file. script;
  read_file = λ file. some (replicate 48 0);
  file_exists = λ file. true;
  hash_block = λ content. length content;
  string_hash = λ name. length name;
  hash_filename = false;
  checksum = 77;
  max_possible_hits = hits_unlimited;
  clean_output = false;
  db_file_name = ascii "/tmp/out/coverage.db";
}

abbrev handler : LineHandler
handler = record {
  cur_file = [];
  ignore_single_line = ascii "LCOV_EXCL_LINE" ∷ [];
  line_begin = ascii "LCOV_EXCL_START" ∷ [];
  line_end = ascii "LCOV_EXCL_STOP" ∷ [];
  exclude_start = 0;
}

-- Lines 2, 3 and 4 are found, and line 2 runs twice; line 3 is excluded.
abbrev events : List Event
events =
    line_found (ascii "a.sh") 2 100
    ∷ line_found (ascii "a.sh") 3 101
    ∷ line_found (ascii "a.sh") 4 102
    ∷ file_added
    ∷ address_hit 100 1
    ∷ address_hit 101 1
    ∷ address_hit 100 1
    ∷ []

summary_of : Option Reporter → Option ExecutionSummary
summary_of none = none
summary_of (some r) = some (get_execution_summary env r)

two_lines_one_executed :
    summary_of (run_events env events (new_reporter handler))
    ≡ some (record { lines = 2; executed_lines = 1; include_in_totals = true })
unfolding summary_of run_events handle on_line on_address_hit on_file un_marshal_header get_be
    be_to_host load swap_endian cpu_is_little_endian get_execution_summary summary_loop hit_lines
    hit_line report_address mark_unreachable create_file is_dup apply_pending attach_address
    un_marshal find insert match contains bytes_eq single_loop begin_loop end_loop Line.add_address
    Line.register_hit Line.register_in Line.new_line Line.hits Line.hits_loop File.add_line
    File.get_line File.new_file File.get_executed_lines File.executed_loop Line.make_line_id
two_lines_one_executed = refl

whole_header : HasHeader env
whole_header data_ e = ground arith

never_faults_example :
    (r : Reporter) × (run_events env events (new_reporter handler) ≡ some r) × IsValid r
never_faults_example = never_faults env handler events whole_header

-- The state after the run.
after_run : Reporter
after_run = never_faults_example.0

after_run-IsValid : IsValid after_run
unfolding after_run
after_run-IsValid = never_faults_example.2

on_address_hit-IsValid_example :
    (r : Reporter) × (on_address_hit env after_run 102 1 ≡ some r) × IsValid r × Keeps after_run r
on_address_hit-IsValid_example = on_address_hit-IsValid env after_run 102 1 after_run-IsValid

on_line-IsValid_example :
    (r : Reporter) × (on_line env after_run (ascii "b.sh") 2 200 ≡ some r) × IsValid r
on_line-IsValid_example = on_line-IsValid env after_run (ascii "b.sh") 2 200 after_run-IsValid

-- A reporter of one file with one line, whose two addresses have 0 and 3 hits.
abbrev small : Reporter
small = record (new_reporter handler) {
  heap =
      (record {
        addrs = (record { addr = 100; count = 0 }) ∷ (record { addr = 104; count = 3 }) ∷ [];
        line_id = 2;
        order = 1;
        unreachable = false;
      })
      ∷ [];
  files =
      (ascii "a.c", record { file_hash = 0; lines = none ∷ none ∷ some 0 ∷ []; nr_lines = 1 }) ∷ [];
}

small_in_range : All LineInRange small.heap
small_in_range = (
  record {
    line_id = omega arith;
    size = omega arith;
    addrs = (
      record { addr = omega arith; count = omega arith },
      (record { addr = omega arith; count = omega arith }, tt),
    );
  },
  tt,
)

small-IsValid : IsValid small
unfolding find
small-IsValid = record {
  at_known = λ a ps e. cc;
  ids_live = λ id p e. cc;
  files_valid =
      (record { slots = (tt, (tt, ((_, refl), tt))); counts = unfold reachable_count in refl }, tt);
}

marshal_fits_example :
    length (marshal_header env ++ marshal_files env small.heap small.files) ≤ get_marshal_size small
marshal_fits_example = marshal_fits env small small_in_range

abbrev big_env : Env
big_env = record env { host = big_endian }

un_marshal-marshal_example : un_marshal big_env (marshal env small) after_run ≡ (
    if eqb 77 77
    then (do q ← restore_all big_env (all_entries small.heap small.files) after_run; some (q, true))
    else some (after_run, false))
un_marshal-marshal_example =
    un_marshal-marshal env big_env small after_run small_in_range (omega arith)

executed-le-lines_example :
    (get_execution_summary env small).executed_lines ≤ (get_execution_summary env small).lines
executed-le-lines_example =
    executed-le-lines env small small-IsValid (unfold slots_of in omega arith)

-- The same, with the line at its first address.
abbrev hit_ready : Reporter
hit_ready = record small { addr_to_line = (100, 0 ∷ []) ∷ [] }

line-Knows : (a : ℕ) → 100 ≡ a → Knows hit_ready.heap a 0
line-Knows a is = subst (λ x. Knows hit_ready.heap x 0) is (_, refl, refl)

hit_ready_known :
    (a : ℕ) (ps : List ℕ)
    → find a hit_ready.addr_to_line ≡ some ps
    → All (Knows hit_ready.heap a) ps
unfolding find
hit_ready_known a ps e = elim (Bool-cases (eqb 100 a)) [
  | inl here ↦
      let is : 100 ≡ a = ground (arith, here) in
      let all_ : (0 ∷ []) ≡ ps = ground (arith, here, e) in
      subst (All (Knows hit_ready.heap a)) all_ (line-Knows a is, tt)
  | inr other ↦ absurd (ground (arith, other, e))
]

hit_ready-IsValid : IsValid hit_ready
unfolding find
hit_ready-IsValid = record {
  at_known = hit_ready_known;
  ids_live = λ id p e. cc;
  files_valid = small-IsValid.files_valid;
}

hit_ready_at : find 100 hit_ready.addr_to_line ≡ some (0 ∷ [])
unfolding find
hit_ready_at = refl

on_address_hit-Counted_example :
    (r : Reporter) × (on_address_hit env hit_ready 100 2 ≡ some r)
    × Counted (single_shot env) hit_ready.heap r.heap 100 0 2
    × OthersKept hit_ready.heap r.heap (0 ∷ [])
on_address_hit-Counted_example =
    on_address_hit-Counted env hit_ready 100 2 0 (0 ∷ []) hit_ready-IsValid hit_ready_at
      (inl (refl, λ m. m))
