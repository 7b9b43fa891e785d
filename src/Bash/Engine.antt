-- ===== src/Bash/Engine.antt =====
-- BashEngine of src/engines/bash-engine.cc: the files that it parses, and its reading of the trace
-- that bash writes.
use kcov.Prelude.{
  ℕ, ◌-◌, ◌^◌, Bool, true, false, ◌&&◌, ◌||◌, Option, none, some, List, [], ◌∷◌, ◌++◌, Bytes, ascii,
  bytes_eq, eqb, leb, if◌then◌else◌, length, take, drop, number_key, name_key,
}
use kcov.Strings.Find.{contains}
use kcov.Strings.Split.{split_string}
use kcov.Strings.Escape.{c_string}
use kcov.Strings.Search.{position}
use kcov.Collector.{Event, Engine, ev_error, ev_exit_first_process}
use kcov.Script.{Env, Script, sweep, lines_found, report_file, report_event, line_event}
use kcov.Bash.Lines.{basic_is_code, full_step, new_parser}

pub data InputType : Type 0 where
  input_normal input_quote input_single_quote input_multiline : InputType

-- What waitpid tells: the child still runs, has exited with a code, or has ended in another way.
pub data Wait : Type 0 where
  running other_status : Wait
  exited : ℕ → Wait

-- The engine, with what its child will still write to the trace, line by line, and what waitpid
-- will answer; `printed` are the lines passed on to stderr.
pub record Bash : Type 0 where
  pub script : Script
  pub input_type : InputType
  pub stderr : List Bytes
  pub waits : List Wait
  pub printed : List Bytes

abbrev is_normal : InputType → Bool
is_normal input_normal = true
is_normal _ = false

abbrev pub is_single_quote : InputType → Bool
is_single_quote input_single_quote = true
is_single_quote _ = false

-- The loop of getInputType; the flag tells that a backslash stands before the character.
unfoldable pub input_loop : InputType → Bool → Bytes → InputType
input_loop out escaped [] = out
input_loop out true (c ∷ s) = input_loop out false s
input_loop out false (c ∷ s) =
    input_loop
      (if eqb c 39 then (if is_normal out then input_single_quote else input_normal) else out)
      (eqb c 92 && is_normal out) s

unfoldable pub get_input_type : Bash → Bytes → InputType
get_input_type b str = input_loop b.input_type false str

-- The numbers of the code lines of a file, by the parser that is configured.
unfoldable pub code_lines : Env → Bytes → List ℕ
code_lines env filename =
    if env.use_basic_parser
    then sweep (λ _ line. (tt, basic_is_code line)) (let t : Unit {0} = tt in t) 0
        (env.get_lines filename)
    else sweep full_step new_parser 0 (env.get_lines filename)

unfoldable pub parse_file : Env → Bytes → Script → Script
parse_file env filename s =
    if s.has_listener
    then lines_found env (env.get_crc filename) filename s (code_lines env filename)
    else s

-- A line of the trace behind "kcov@": kcov@FILENAME@LINENO@...
abbrev pub marker_parts : Bytes → List Bytes → Option (Bytes × Bytes)
marker_parts cur (kcov ∷ filename ∷ line_no ∷ more) = some (filename, line_no)
marker_parts cur _ = none

abbrev pub is_helper : Bytes → Bool
is_helper filename =
    contains filename (ascii "bash-helper.sh")
    || contains filename (ascii "bash-helper-debug-trap.sh")

abbrev pub with_script : Bash → Script → Bash
with_script b s = record b { script = s }

abbrev pub hit_line : Env → Bash → Bytes → Option ℕ → Bash × List Event × Bool
hit_line env b filename none = (b, [], false)
hit_line env b filename (some line_no) =
    let s = report_file (parse_file env) filename b.script in
    (with_script b s, line_event env s filename line_no, true)

abbrev pub trace_line : Env → Bash → Option (Bytes × Bytes) → Bash × List Event × Bool
trace_line env b none = (b, [], true)
trace_line env b (some (file, line_no)) =
    let filename = env.get_real_path file in
    if is_helper filename
    then (b, [], true)
    else hit_line env b filename (env.whole_integer line_no)

abbrev pub marked_line : Env → Bash → Bytes → Option ℕ → Bash × List Event × Bool
marked_line env b cur none = (record b { printed = b.printed ++ cur ∷ [] }, [], true)
marked_line env b cur (some kcov_str) =
    trace_line env (record b { input_type = get_input_type b cur })
      (marker_parts cur (split_string (drop kcov_str cur) b'@'))

-- checkEvents, for a line that getline has read.
unfoldable pub check_line : Env → Bash → Bytes → Bash × List Event × Bool
check_line env b line =
    let cur = c_string line in
    if is_single_quote b.input_type
    then (record b { input_type = get_input_type b cur }, [], true)
    else marked_line env b cur (position cur (ascii "kcov@"))

abbrev pub check_next : Env → Bash → List Bytes → Bash × List Event × Bool
check_next env b [] = (b, [], false)
check_next env b (line ∷ lines) = check_line env (record b { stderr = lines }) line

unfoldable pub check_events : Env → Bash → Bash × List Event × Bool
check_events env b = check_next env b b.stderr

abbrev pub end_event : Script → Wait → List Event
end_event s running = []
end_event s (exited code) = report_event s ev_exit_first_process code 0
end_event s other_status = report_event s ev_error (2 ^ 32 - 1) 0

-- Behind the wait for the child: if it has ended, the last events are read first.
abbrev pub after_wait : Env → Bash → List Event → Wait → Bash × List Event × Bool
after_wait env b events running = (b, events, true)
after_wait env b events ended =
    let (b', more, result) = check_events env b in
    (b', events ++ (more ++ end_event b'.script ended), false)

abbrev pub next_wait : Env → Bash → List Event → List Wait → Bash × List Event × Bool
next_wait env b events [] = (b, events, true)
next_wait env b events (w ∷ ws) = after_wait env (record b { waits = ws }) events w

unfoldable pub continue_execution : Env → Bash → Bash × List Event × Bool
continue_execution env b =
    let (b', events, result) = check_events env b in
    if result then (b', events, true) else next_wait env b' events b'.waits

-- Lines of the child's stdout that are printed: all but those with a marker at its front.
abbrev is_marker_at : Option ℕ → Bool
is_marker_at none = false
is_marker_at (some pos) = eqb pos 0 || eqb pos 1

unfoldable pub handle_stdout : List Bytes → List Bytes
handle_stdout [] = []
handle_stdout (line ∷ lines) =
    let rest = handle_stdout lines in
    if is_marker_at (position (c_string line) (ascii "kcov@")) then rest else c_string line ∷ rest

-- matchParser and matchFile: `data` are the first bytes of the file, 80 of which are looked at.
unfoldable pub match_parser : Bytes → Bytes → ℕ
match_parser filename data_ =
    let s = take 80 data_ in
    if leb 3 (length filename) && bytes_eq (drop (length filename - 3) filename) (ascii ".sh")
    then 200
    else if contains s (ascii "#!/bin/bash")
    then 400
    else if contains s (ascii "#!/bin/sh")
    then 300
    else if contains s (ascii "bash")
    then 100
    else if contains s (ascii "sh")
    then 50
    else 0

-- start, where the child runs and bash-parse-binary-dir is not set: the listener is set, and the
-- script is parsed.
unfoldable pub start : Env → Bytes → Bash → Bash × List Event × Bool
start env executable b =
    (with_script b (parse_file env executable (record b.script { has_listener = true })), [], true)

-- The engine as the collector sees it. It has no breakpoints.
abbrev pub bash_engine : Env → Engine Bash
bash_engine env = record {
  start = start env;
  register_breakpoint = λ addr b. b;
  continue_execution = continue_execution env;
}
