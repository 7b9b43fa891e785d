-- ===== src/Bash/Ending.antt =====
-- kcov on a script: src/collector.cc with the engine of src/engines/bash-engine.cc, to the exit code.
use kcov.Prelude.{
  ℕ, ◌+◌, ◌<◌, ◌≡◌, refl, ◌∙◌, sym, ap, subst, inr, true, false, some, List, [], ◌∷◌, ◌++◌, Bytes,
  arith, length, All, All-map_of,
}
use kcov.Collector.{Event, Config, Collector, FoundLine, on_events, on_line, on_lines, run}
use kcov.Collector.Rounds.{Halts, on_rounds, run-Halts}
use kcov.Collector.ExitCode.{NoSignalExit, exit_code-exit}
use kcov.Script.{Env}
use kcov.Script.Addresses.{Agrees}
use kcov.Bash.Engine.{Bash, Wait, exited, with_script, parse_file, start, bash_engine}
use kcov.Bash.Trace.{IsHit, parse_file-Later}
use kcov.Bash.Runs.{Ready, IsRunning, exit_event, Ends-by}

IsHit-NoSignalExit : (e : Event) → IsHit e → NoSignalExit e
IsHit-NoSignalExit e hit = rw hit refl

on_lines_same :
    (env : Env) (config : Config) (b : Bash) (lines : List FoundLine)
    → on_lines (bash_engine env) config b lines ≡ b
unfolding on_lines on_line
on_lines_same env config b [] = refl
on_lines_same env config b ((file, n, addr) ∷ lines) =
    on_lines_same env config _ lines ∙ ground arith

abbrev pub listening : Env → Bytes → Bash → Bash
listening env filename b =
    with_script b (parse_file env filename (record b.script { has_listener = true }))

listening-Ready :
    (env : Env) (filename : Bytes) (b : Bash) (pre ws : List Wait) (code : ℕ)
    → b.waits ≡ pre ++ exited code ∷ ws
    → All IsRunning pre
    → Agrees env b.script
    → Ready env (listening env filename b) pre code ws
listening-Ready env filename b pre ws code waits pre_running g =
    let s = record b.script { has_listener = true } in
    let g' : Agrees env s = record { known_told = g.known_told; told_known = g.told_known } in
    let later = parse_file-Later env filename s g' in
    record {
      waits = waits;
      pre_running = pre_running;
      agrees = later.agrees;
      listens = later.listener;
    }

-- kcov's own result for a script: the collector, with the bash engine, returns the code with which
-- the script's bash exits.
-- The conditions: bash exits with a code after waitpid has said some times that it runs, the
-- engine's known lines are those its listeners were told, no signal has ended the program, and
-- there are more rounds than lines in the trace and such answers of waitpid.
pub bash_run-exits :
    (env : Env) (config : Config) (lines : List FoundLine) (n : ℕ) (filename : Bytes) (b : Bash)
    (c : Collector) (pre ws : List Wait) (code : ℕ)
    → b.waits ≡ pre ++ exited code ∷ ws
    → All IsRunning pre
    → Agrees env b.script
    → c.signal_exit ≡ false
    → length b.stderr + length pre < n
    → (b' : Bash) × (c' : Collector) × (run (bash_engine env) config lines n filename b c
        ≡ some (code, b', c'))
unfolding start on_events
bash_run-exits env config lines n filename b c pre ws code waits pre_running g no_signal enough =
    let b₁ = listening env filename b in
    let ready = listening-Ready env filename b pre ws code waits pre_running g in
    let (b', rounds, hits, halts, few, events, only) =
      Ends-by (length b.stderr + length pre) env b₁ b.stderr pre ws code refl (omega arith) ready in
    let same = on_lines_same env config b₁ lines in
    let halts' = subst (λ x. Halts (bash_engine env) x b' rounds) (sym same) halts in
    let returns =
      run-Halts (bash_engine env) config lines n filename c refl halts'
        (omega (arith, few, enough)) in
    let code_is =
      ap (λ es. (on_events config c es).exit_code) events
      ∙ exit_code-exit config c hits (exit_event code) [] no_signal
          (All-map_of IsHit NoSignalExit hits IsHit-NoSignalExit only) (inr refl) tt in
    (
      b',
      on_rounds config c rounds,
      returns ∙ ap (λ x. some (x, b', on_rounds config c rounds)) code_is,
    )
