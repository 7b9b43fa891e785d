-- ===== src/Tests/Merges.antt =====
-- src/merge-file-parser.cc on one file of two lines.
use kcov.Prelude.{
  ascii, ◌+◌, ◌*◌, ◌%◌, ◌≤◌, ◌≡◌, refl, true, some, List, [], ◌∷◌, arith, inr, length, number_key,
  name_key, ◌>>=◌,
}
use kcov.Prelude.Table.{find}
use kcov.Endian.{little_endian}
use kcov.Merge.{
  Env, File, MergeParser, on_line, on_address_hit, new_merge_parser, new_file, on_address,
  on_line_reporter,
}
use kcov.Merge.Format.{marshal_file, table_start, name_start, marshal_size, parse_file_data}
use kcov.Merge.Plain.{plain}
use kcov.Merge.RoundTrip.{marshal_file_fits}
use kcov.Merge.Replay.{Known, parse_file_data-plain}
use kcov.Merge.Order.{on_address-on_line_reporter}
use kcov.Merge.Safe.{IsValid}
use kcov.Merge.Events.{Event, address, line, Readable, run_calls, run_calls-IsValid}

abbrev env : Env
env = record {
  host = little_endian;
  run_filters = λ file. true;
  mangle_source_path = λ file. file;
  file_exists = λ file. true;
  read_file = λ file. some (ascii "int x;");
  get_file_timestamp = λ file. 9;
  hash_block = λ content. length content;
}

-- Line 1 has two addresses, one of them hit; line 2 has one, not hit.
abbrev stored_file : File
stored_file = record {
  filename = ascii "a.c";
  file_timestamp = 9;
  lines = (1, (100, 1) ∷ (104, 1) ∷ []) ∷ (2, (200, 1) ∷ []) ∷ [];
  addr_hits = (104, 3) ∷ [];
  checksum = 6;
  local_ = true;
}

marshal_file_fits_example :
    (36 + length stored_file.lines * 12 ≤ table_start stored_file)
    × (table_start stored_file % 8 ≡ 0)
    × (table_start stored_file + length (marshal_file little_endian stored_file).address_table * 8
        ≤ name_start stored_file)
    × (name_start stored_file + length stored_file.filename + 1 ≤ marshal_size stored_file)
marshal_file_fits_example = marshal_file_fits little_endian stored_file (omega arith)

abbrev parser : MergeParser
parser = record new_merge_parser { line_listeners = 1 ∷ []; collector_listeners = 2 ∷ [] }

stored-Known : Known env parser (ascii "a.c") 6
unfolding Known new_file find
stored-Known = inr (refl, (_, refl))

parse_file_data-plain_example :
    (m : MergeParser) × (parse_file_data env parser (plain stored_file) ≡ some m)
    × (m.calls
        ≡ on_line 1 (ascii "a.c") 1 100
          ∷ on_line 1 (ascii "a.c") 1 104
          ∷ on_address_hit 2 104 1
          ∷ on_line 1 (ascii "a.c") 2 200
          ∷ [])
unfolding find
parse_file_data-plain_example =
    parse_file_data-plain env parser stored_file refl refl stored-Known (omega arith)
      ((omega arith, (omega arith, tt)), ((omega arith, tt), tt))

on_address-on_line_reporter_example :
    (on_address parser 100 2 >>= λ m. on_line_reporter env m (ascii "a.c") 1 100)
    ≡ (on_line_reporter env parser (ascii "a.c") 1 100 >>= λ m. on_address m 100 2)
on_address-on_line_reporter_example =
    on_address-on_line_reporter env parser (ascii "a.c") 1 100 2 (unfold find in refl)
      (unfold find in refl)

abbrev calls_made : List Event
calls_made = address 100 1 ∷ line (ascii "a.c") 1 100 ∷ address 100 1 ∷ []

all-Readable : Readable env
all-Readable name there = (ascii "int x;", refl)

run_calls-IsValid_example :
    (m : MergeParser) × (run_calls env calls_made new_merge_parser ≡ some m) × IsValid m
run_calls-IsValid_example = run_calls-IsValid env calls_made all-Readable
