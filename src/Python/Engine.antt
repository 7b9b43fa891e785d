-- ===== src/Python/Engine.antt =====
-- PythonEngine of src/engines/python-engine.cc.
use kcov.Prelude.{
  ℕ, ◌-◌, ◌^◌, Bool, true, false, ◌&&◌, Option, none, some, List, [], ◌∷◌, ◌++◌, Bytes, ascii,
  bytes_eq, leb, if◌then◌else◌, length, take, drop,
}
use kcov.Strings.Find.{contains}
use kcov.Collector.{Event, Engine, ev_error, ev_exit_first_process}
use kcov.Endian.{Host}
use kcov.Script.{Env, Script, sweep, lines_found, report_file, report_event, line_event}
use kcov.Bash.Engine.{Wait, running, exited, other_status}
use kcov.Python.Lines.{new_parser, parse_step}
use kcov.Python.Datum.{Pipe, read_datum}

-- The engine, with its pipe and what waitpid will answer.
pub record Python : Type 0 where
  pub script : Script
  pub pipe : Pipe
  pub waits : List Wait

abbrev pub buffer_size : ℕ
buffer_size = 8192

unfoldable pub code_lines : Env → Bytes → List ℕ
code_lines env filename = sweep parse_step new_parser 0 (env.get_lines filename)

unfoldable pub parse_file : Env → Bytes → Script → Script
parse_file env filename s =
    if s.has_listener
    then lines_found env (env.get_crc filename) filename s (code_lines env filename)
    else s

abbrev pub datum_event : Env → Script → Option (ℕ × Bytes) → Script × List Event × Bool
datum_event env s none = (s, report_event s ev_error (2 ^ 32 - 1) 0, false)
datum_event env s (some (line, filename)) =
    let s' = report_file (parse_file env) filename s in (s', line_event env s' filename line, true)

unfoldable pub check_events : Host → Bytes → Env → Python → Python × List Event × Bool
check_events host stale env e =
    let (pipe, reading) = read_datum host stale buffer_size e.pipe in
    let (s, events, result) = datum_event env e.script reading.datum in
    (record e { pipe = pipe; script = s }, events, result)

abbrev pub end_event : Script → Wait → List Event
end_event s running = []
end_event s (exited code) = report_event s ev_exit_first_process code 0
end_event s other_status = report_event s ev_error (2 ^ 32 - 1) 0

abbrev is_running : Wait → Bool
is_running running = true
is_running _ = false

-- Behind checkEvents, where there was no datum.
abbrev pub next_wait : Python → List Event → List Wait → Python × List Event × Bool
next_wait e events [] = (e, events, true)
next_wait e events (w ∷ ws) =
    (record e { waits = ws }, events ++ end_event e.script w, is_running w)

unfoldable pub continue_execution : Host → Bytes → Env → Python → Python × List Event × Bool
continue_execution host stale env e =
    let (e', events, result) = check_events host stale env e in
    if result then (e', events, true) else next_wait e' events e'.waits

-- matchParser and matchFile.
unfoldable pub match_parser : Bytes → Bytes → ℕ
match_parser filename data_ =
    if leb 3 (length filename) && bytes_eq (drop (length filename - 3) filename) (ascii ".py")
    then 200
    else if contains (take 80 data_) (ascii "python")
    then 100
    else 0

-- start, where the child runs and the pipe is open: only the listener is set.
unfoldable pub start : Bytes → Python → Python × List Event × Bool
start executable e = (record e { script = record e.script { has_listener = true } }, [], true)

-- The engine as the collector sees it. It has no breakpoints.
abbrev pub python_engine : Host → Bytes → Env → Engine Python
python_engine host stale env = record {
  start = start;
  register_breakpoint = λ addr e. e;
  continue_execution = continue_execution host stale env;
}
