-- ===== src/Bash/Trace.antt =====
-- What one call of checkEvents or continueExecution of src/engines/bash-engine.cc does.
use kcov.Prelude.{
  ℕ, ◌≡◌, refl, Bool, true, false, Option, none, some, List, [], Bytes, ascii, number_key, drop,
  if_both, All,
}
use kcov.Prelude.Table.{find}
use kcov.Strings.Split.{split_string}
use kcov.Strings.Escape.{c_string}
use kcov.Strings.Search.{position}
use kcov.Collector.{Event, ev_breakpoint}
use kcov.Script.{Env, Script, report_file, line_event}
use kcov.Script.Addresses.{
  Agrees, AsManyTold, Later, Later-same, lines_found-Later, report_file-Later, IsKnown,
  line_event-IsKnown, report_event-All,
}
use kcov.Bash.Engine.{
  Bash, code_lines, parse_file, is_single_quote, get_input_type, marker_parts, is_helper, hit_line,
  trace_line, marked_line, check_line,
}

pub parse_file-Later :
    (env : Env) (filename : Bytes) (s : Script)
    → Agrees env s
    → Later env s (parse_file env filename s)
unfolding parse_file
parse_file-Later env filename s g =
    if_both (Later env s) s.has_listener _ _
      (λ listens.
        lines_found-Later env (env.get_crc filename) filename s (code_lines env filename) g)
      (λ silent. Later-same env s g)

abbrev pub IsHit : Event → Type 0
IsHit e = e.type_ ≡ ev_breakpoint

-- From a state to the result of a step that has read no more than the child wrote.
pub record Checked (env : Env) (b : Bash) (next : Bash × List Event × Bool) : Type 0 where
  pub later : Later env b.script next.0.script
  pub waits : next.0.waits ≡ b.waits
  pub stderr : next.0.stderr ≡ b.stderr
  pub known : All (IsKnown next.0.script) next.1
  pub hits : All IsHit next.1

Checked-quiet :
    (env : Env) (b b' : Bash) (r : Bool)
    → Agrees env b.script
    → b'.script ≡ b.script
    → b'.waits ≡ b.waits
    → b'.stderr ≡ b.stderr
    → Checked env b (b', [], r)
Checked-quiet env b b' r g same w e = record {
  later = rw same (Later-same env b.script g);
  waits = w;
  stderr = e;
  known = tt;
  hits = tt;
}

hit_line-Checked :
    (env : Env) (b : Bash) (filename : Bytes) (o : Option ℕ)
    → Agrees env b.script
    → Checked env b (hit_line env b filename o)
unfolding line_event
hit_line-Checked env b filename none g = Checked-quiet env b b false g refl refl refl
hit_line-Checked env b filename (some n) g =
    let s = report_file (parse_file env) filename b.script in
    let later = report_file-Later env (parse_file env) filename b.script (parse_file-Later env) g in
    record {
      later = later;
      waits = refl;
      stderr = refl;
      known = line_event-IsKnown env s filename n later.agrees;
      hits = report_event-All IsHit s ev_breakpoint 1 _ refl;
    }

trace_line-Checked :
    (env : Env) (b : Bash) (o : Option (Bytes × Bytes))
    → Agrees env b.script
    → Checked env b (trace_line env b o)
trace_line-Checked env b none g = Checked-quiet env b b true g refl refl refl
trace_line-Checked env b (some (file, line_no)) g =
    if_both (Checked env b) (is_helper (env.get_real_path file)) _ _
      (λ helper. Checked-quiet env b b true g refl refl refl)
      (λ script. hit_line-Checked env b (env.get_real_path file) (env.whole_integer line_no) g)

marked_line-Checked :
    (env : Env) (b : Bash) (cur : Bytes) (o : Option ℕ)
    → Agrees env b.script
    → Checked env b (marked_line env b cur o)
marked_line-Checked env b cur none g = Checked-quiet env b _ true g refl refl refl
marked_line-Checked env b cur (some pos) g =
    let b₁ = record b { input_type = get_input_type b cur } in
    let c = trace_line-Checked env b₁ (marker_parts cur (split_string (drop pos cur) b'@')) g in
    record { later = c.later; waits = c.waits; stderr = c.stderr; known = c.known; hits = c.hits }

pub check_line-Checked :
    (env : Env) (b : Bash) (line : Bytes)
    → Agrees env b.script
    → Checked env b (check_line env b line)
unfolding check_line
check_line-Checked env b line g =
    if_both (Checked env b) (is_single_quote b.input_type) _ _
      (λ quoted. Checked-quiet env b _ true g refl refl refl)
      (λ normal.
        marked_line-Checked env b (c_string line) (position (c_string line) (ascii "kcov@")) g)

-- A line of the trace keeps the engine's table in agreement with what the listeners were told:
-- every known address has been told, every told line is known at the address it was told with, and
-- where as many lines had been told as were known, that is so again. It drops no known address and
-- reports only hits, each at address 0 or at an address that the listeners have been told.
pub check_line-Agrees :
    (env : Env) (b : Bash) (line : Bytes)
    → Agrees env b.script
    → AsManyTold b.script
    → Agrees env (check_line env b line).0.script
      × AsManyTold (check_line env b line).0.script
      × ((id a : ℕ)
          → find id b.script.line_id_to_address ≡ some a
          → find id (check_line env b line).0.script.line_id_to_address ≡ some a)
      × All (IsKnown (check_line env b line).0.script) (check_line env b line).1
      × All IsHit (check_line env b line).1
check_line-Agrees env b line g once =
    let c = check_line-Checked env b line g in
    (c.later.agrees, c.later.once once, c.later.kept, c.known, c.hits)
