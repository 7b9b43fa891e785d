-- ===== src/Tests/Scripts.antt =====
-- The script engines: a shell script and its trace, and a Python program and its pipe.
use kcov.Prelude.{
  ℕ, number_key, ◌≡◌, refl, true, false, none, some, List, [], ◌∷◌, ◌++◌, Bytes, ascii, arith,
  bytes_eq, ◌||◌, if◌then◌else◌, length, All,
}
use kcov.Prelude.Table.{find}
use kcov.Collector.{Config, Collector, new_collector, run}
use kcov.Script.{Env, new_script, sweep}
use kcov.Script.Addresses.{AsManyTold, Agrees, IsKnown, new_script-Agrees}
use kcov.Script.Sweeps.{Ascending, Found}
use kcov.Strings.Find.{contains, starts_with}
use kcov.Strings.Search.{position, trim_string, cut_start, cut_end, last_is, occurs_until}
use kcov.Bash.Lines.{
  Parser, none_, heredoc, backslash, new_parser, full_step, is_skipped, strip_line, line_in,
  open_line, basic_is_code,
}
use kcov.Bash.Engine.{Bash, input_normal, running, exited, check_line, code_lines, bash_engine}
use kcov.Bash.Trace.{check_line-Agrees, IsHit}
use kcov.Bash.Code.{HasCode}
use kcov.Bash.Sweep.{
  in_state, sweep-heredoc, sweep-backslash, InDocument, ends_document, Continues, code_lines-Found,
}
use kcov.Bash.Ending.{bash_run-exits}

abbrev script_lines : List Bytes
script_lines =
    ascii "#!/bin/bash"
    ∷ ascii "cat <<EOF"
    ∷ ascii "if x"
    ∷ ascii "EOF"
    ∷ ascii "echo a \\"
    ∷ ascii "  b"
    ∷ ascii "fi"
    ∷ ascii "echo c # d"
    ∷ []

abbrev env : Env
env = record {
  string_hash = length;
  get_real_path = λ s. s;
  get_lines = λ file. script_lines;
  get_crc = λ file. 7;
  whole_integer = λ s. if bytes_eq s (ascii "2") then some 2 else none;
  use_basic_parser = false;
}

found : code_lines env (ascii "a.sh") ≡ 2 ∷ 5 ∷ 8 ∷ []
unfolding code_lines sweep full_step is_skipped strip_line position trim_string cut_start cut_end
    bytes_eq line_in open_line last_is contains occurs_until
found = refl

abbrev config : Config
config = record {
  daemonize_on_first_process_exit = false;
  target_directory = ascii "/tmp/out";
  run_filters = λ file. true;
  to_decimal = λ n. n ∷ [];
}

-- The trace has a line of the script, and one that the script wrote itself.
abbrev bash : Bash
bash = record {
  script = new_script;
  input_type = input_normal;
  stderr = ascii "kcov@a.sh@2@cat" ∷ ascii "oops" ∷ [];
  waits = running ∷ exited 3 ∷ [];
  printed = [];
}

bash_run-exits_example :
    (b' : Bash) × (c' : Collector) × (run
        (bash_engine env)
        config
        []
        4
        (ascii "a.sh")
        bash
        new_collector
      ≡ some (3, b', c'))
unfolding new_collector
bash_run-exits_example =
    bash_run-exits env config [] 4 (ascii "a.sh") bash new_collector (running ∷ []) [] 3 refl
      (refl, tt) (new_script-Agrees env) refl (omega arith)

abbrev hit_line : Bytes
hit_line = ascii "kcov@a.sh@2@cat"

check_line-Agrees_example :
    Agrees env (check_line env bash hit_line).0.script
    × AsManyTold (check_line env bash hit_line).0.script
    × ((id a : ℕ)
        → find id bash.script.line_id_to_address ≡ some a
        → find id (check_line env bash hit_line).0.script.line_id_to_address ≡ some a)
    × All (IsKnown (check_line env bash hit_line).0.script) (check_line env bash hit_line).1
    × All IsHit (check_line env bash hit_line).1
check_line-Agrees_example = check_line-Agrees env bash hit_line (new_script-Agrees env) refl

-- In a here-document with the marker EOF.
abbrev parser : Parser
parser = record new_parser { heredoc_marker = ascii "EOF" }

in_document : All (InDocument (ascii "EOF")) (ascii "if x" ∷ ascii "fi" ∷ [])
unfolding is_skipped strip_line last_is position trim_string cut_start cut_end bytes_eq contains
in_document = (refl, (refl, tt))

document_end : ends_document (ascii "EOF") (ascii "EOF") ≡ true
unfolding is_skipped strip_line last_is position trim_string cut_start cut_end bytes_eq contains
document_end = refl

sweep-heredoc_example :
    sweep full_step
      (in_state heredoc parser)
      2
      ((ascii "if x" ∷ ascii "fi" ∷ []) ++ ascii "EOF" ∷ ascii "echo c" ∷ [])
    ≡ sweep full_step (in_state none_ parser) 5 (ascii "echo c" ∷ [])
sweep-heredoc_example =
    sweep-heredoc parser 2 (ascii "if x" ∷ ascii "fi" ∷ []) (ascii "EOF") (ascii "echo c" ∷ [])
      in_document document_end

continued : All Continues (ascii "a \\" ∷ [])
unfolding is_skipped strip_line last_is position trim_string cut_start cut_end bytes_eq contains
continued = (refl, tt)

continued_end : is_skipped (strip_line (ascii "b")) || last_is (strip_line (ascii "b")) 92 ≡ false
unfolding is_skipped strip_line last_is position trim_string cut_start cut_end bytes_eq contains
continued_end = refl

sweep-backslash_example :
    sweep full_step
      (in_state backslash parser)
      2
      ((ascii "a \\" ∷ []) ++ ascii "b" ∷ ascii "echo c" ∷ [])
    ≡ sweep full_step (in_state none_ parser) 4 (ascii "echo c" ∷ [])
sweep-backslash_example =
    sweep-backslash parser 2 (ascii "a \\" ∷ []) (ascii "b") (ascii "echo c" ∷ []) continued
      continued_end

code_lines-Found_example :
    Ascending 0 8 (code_lines env (ascii "a.sh"))
    × All (Found HasCode script_lines 0) (code_lines env (ascii "a.sh"))
code_lines-Found_example = code_lines-Found env (ascii "a.sh")

-- A line that ends in a carriage return is found, though nothing stands on it: trim_string leaves
-- a string as it is that has only characters of its set.
found_blank : basic_is_code (13 ∷ []) ≡ true
unfolding basic_is_code strip_line position trim_string cut_start cut_end bytes_eq starts_with
found_blank = refl
