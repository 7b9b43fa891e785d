-- ===== src/Tests/Runs.antt =====
-- src/collector.cc with an engine that reports two hits, a signal's exit and the exit of a child.
use kcov.Prelude.{
  ascii, ℕ, ◌+◌, ◌≡◌, refl, true, false, some, List, [], ◌∷◌, ◌++◌, arith, inl, eqb, if◌then◌else◌,
}
use kcov.Collector.{
  Event, Engine, Config, Collector, FoundLine, ev_breakpoint, ev_exit, ev_signal_exit,
  new_collector, register_listener, register_event_tick_listener, on_event, on_events, on_line,
  on_lines, run_loop, run, tick,
}
use kcov.Collector.ExitCode.{exit_code-signal, exit_code-exit}
use kcov.Collector.Rounds.{Halts, last, more, on_rounds, concat, run-Halts}
use kcov.Collector.Hits.{hits_to, ticks_to, count, on_rounds-told}

abbrev event : kcov.Collector.EventType → ℕ → ℕ → Event
event t code addr = record { type_ = t; data_ = code; addr = addr }

-- The engine's state is the number of breakpoints; each is hit, and then the program ends.
abbrev engine : Engine ℕ
engine = record {
  start = λ name e. (0, [], true);
  register_breakpoint = λ addr e. e + 1;
  continue_execution = λ e.
      if eqb e 2
      then (1, event ev_breakpoint 0 100 ∷ event ev_breakpoint 0 104 ∷ [], true)
      else (0, event ev_signal_exit 11 0 ∷ event ev_exit 3 0 ∷ [], false);
}

abbrev config : Config
config = record {
  daemonize_on_first_process_exit = false;
  target_directory = ascii "/tmp/out";
  run_filters = λ file. true;
  to_decimal = λ n. n ∷ [];
}

abbrev lines : List FoundLine
lines = (ascii "a.c", 1, 100) ∷ (ascii "a.c", 2, 104) ∷ []

abbrev rounds : List (List Event)
rounds =
    (event ev_breakpoint 0 100 ∷ event ev_breakpoint 0 104 ∷ [])
    ∷ (event ev_signal_exit 11 0 ∷ event ev_exit 3 0 ∷ [])
    ∷ []

collector : Collector
collector = register_event_tick_listener (register_listener new_collector 7) 7

engine-Halts : Halts engine (on_lines engine config 0 lines) 0 rounds
unfolding on_lines on_line
engine-Halts = more refl (last refl)

run-Halts_example :
    run engine config lines 5 (ascii "a.out") 9 collector
    ≡ some (
      (on_events config collector (concat rounds)).exit_code,
      0,
      on_rounds config (on_events config collector []) rounds,
    )
run-Halts_example =
    run-Halts engine config lines 5 (ascii "a.out") collector refl engine-Halts (omega arith)

-- The signal's number is the result.
run_result : (on_events config collector (concat rounds)).exit_code ≡ 11
unfolding on_events on_event collector
run_result = refl

exit_code-signal_example :
    (on_events config collector
      ([] ++ event ev_signal_exit 11 0 ∷ event ev_exit 3 0 ∷ [])).exit_code
    ≡ 11
exit_code-signal_example =
    exit_code-signal config collector [] (event ev_signal_exit 11 0) (event ev_exit 3 0 ∷ []) refl
      (refl, tt)

no_signal : collector.signal_exit ≡ false
unfolding collector register_event_tick_listener register_listener new_collector
no_signal = refl

exit_code-exit_example :
    (on_events config collector (
      (event ev_breakpoint 0 100 ∷ [])
      ++ event ev_exit 3 0 ∷ event ev_breakpoint 0 104 ∷ [])).exit_code
    ≡ 3
exit_code-exit_example =
    exit_code-exit config collector (event ev_breakpoint 0 100 ∷ []) (event ev_exit 3 0)
      (event ev_breakpoint 0 104 ∷ []) no_signal (refl, tt) (inl refl) (refl, tt)

one_listener : count 7 collector.listeners ≡ 1
unfolding collector register_event_tick_listener register_listener new_collector
one_listener = refl

one_tick_listener : count 7 collector.event_tick_listeners ≡ 1
unfolding collector register_event_tick_listener register_listener new_collector
one_tick_listener = refl

on_rounds-told_example :
    (hits_to 7 (on_rounds config collector rounds).effects
      ≡ hits_to 7 collector.effects ++ (100, 1) ∷ (104, 1) ∷ [])
    × (ticks_to 7 (on_rounds config collector rounds).effects ≡ ticks_to 7 collector.effects + 2)
on_rounds-told_example = on_rounds-told 7 config collector rounds one_listener one_tick_listener
