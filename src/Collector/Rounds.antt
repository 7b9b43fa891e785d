-- ===== src/Collector/Rounds.antt =====
-- The loop of run in src/collector.cc ends when the engine does.
use kcov.Prelude.{
  ℕ, zero, suc, ◌≤◌, ◌≡◌, refl, true, false, some, List, [], ◌∷◌, ◌++◌, Bytes, arith, length,
}
use kcov.Collector.{
  EventType, Event, Engine, Config, Collector, FoundLine, ev_error, ev_breakpoint, ev_signal,
  ev_exit, ev_exit_first_process, ev_signal_exit, on_event, on_events, on_event_type, on_lines,
  tick, run_loop, run,
}
use kcov.Collector.ExitCode.{on_events-append}

-- The engine runs from the state `e` to `e'`, by rounds with these events, and then stops.
pub data Halts {E : Type 0} (engine : Engine E) : E → E → List (List Event) → Type 0 where
  last :
      {e e' : E} {events : List Event}
      → engine.continue_execution e ≡ (e', events, false)
      → Halts engine e e' (events ∷ [])
  more :
      {e e' e'' : E} {events : List Event} {rounds : List (List Event)}
      → engine.continue_execution e ≡ (e', events, true)
      → Halts engine e' e'' rounds
      → Halts engine e e'' (events ∷ rounds)

-- What the collector makes of the rounds.
unfoldable pub on_rounds : Config → Collector → List (List Event) → Collector
on_rounds config c [] = c
on_rounds config c (es ∷ rounds) = on_rounds config (tick (on_events config c es)) rounds

run_loop-Halts :
    {E : Type 0} (engine : Engine E) (config : Config) (n : ℕ) {e e' : E} (c : Collector)
    {rounds : List (List Event)}
    → Halts engine e e' rounds
    → length rounds ≤ n
    → run_loop engine config n e c ≡ some (e', on_rounds config c rounds)
unfolding run_loop on_rounds
run_loop-Halts engine config zero c (last stop) le = ground arith
run_loop-Halts engine config zero c (more go h) le = ground arith
run_loop-Halts engine config (suc n) c (last stop) le = rw stop refl
run_loop-Halts engine config (suc n) c (more go h) le =
    rw go (run_loop-Halts engine config n _ h (omega arith))

-- Collectors that agree on the exit code so far.
abbrev Alike : Collector → Collector → Type 0
Alike c d = (c.exit_code ≡ d.exit_code) × (c.signal_exit ≡ d.signal_exit)

on_event_type-Alike :
    (config : Config) (c d : Collector) (t : EventType) (code addr : ℕ)
    → Alike c d
    → Alike (on_event_type config c t code addr) (on_event_type config d t code addr)
on_event_type-Alike config c d ev_error code addr h = h
on_event_type-Alike config c d ev_signal code addr h = h
on_event_type-Alike config c d ev_signal_exit code addr h = (refl, refl)
on_event_type-Alike config c d ev_exit_first_process code addr h = (refl, h.1)
on_event_type-Alike config c d ev_exit code addr h = (ground (arith, h.0, h.1), h.1)
on_event_type-Alike config c d ev_breakpoint code addr h = h

on_events-Alike :
    (config : Config) (c d : Collector) (es : List Event)
    → Alike c d
    → Alike (on_events config c es) (on_events config d es)
unfolding on_events on_event
on_events-Alike config c d [] h = h
on_events-Alike config c d (e ∷ es) h =
    on_events-Alike config (on_event config c e) (on_event config d e) es
      (on_event_type-Alike config c d e.type_ e.data_ e.addr h)

-- All events of all rounds.
abbrev pub concat : List (List Event) → List Event
concat [] = []
concat (es ∷ rounds) = es ++ concat rounds

on_rounds-Alike :
    (config : Config) (c d : Collector) (rounds : List (List Event))
    → Alike c d
    → Alike (on_rounds config c rounds) (on_events config d (concat rounds))
unfolding on_rounds on_events tick
on_rounds-Alike config c d [] h = h
on_rounds-Alike config c d (es ∷ rounds) h = rw (on_events-append config d es (concat rounds)) (
    on_rounds-Alike config (tick (on_events config c es)) (on_events config d es) rounds
      (on_events-Alike config c d es h))

-- Where the engine starts and, with the breakpoints set, stops after some rounds, run returns
-- within that many rounds: the listeners have seen each round's events and then a tick, and the
-- exit code is what the events of the start and of all rounds, in order, make it.
pub run-Halts :
    {E : Type 0} (engine : Engine E) (config : Config) (lines : List FoundLine) (n : ℕ)
    (filename : Bytes) {e e₁ e' : E} (c : Collector) {started : List Event}
    {rounds : List (List Event)}
    → engine.start filename e ≡ (e₁, started, true)
    → Halts engine (on_lines engine config e₁ lines) e' rounds
    → length rounds ≤ n
    → run engine config lines n filename e c
      ≡ some (
        (on_events config c (started ++ concat rounds)).exit_code,
        e',
        on_rounds config (on_events config c started) rounds,
      )
unfolding run
run-Halts engine config lines n filename c {started = started} {rounds = rounds} start halts le =
    let c₁ = on_events config c started in
    let loop = run_loop-Halts engine config n c₁ halts le in
    let code = (on_rounds-Alike config c₁ c₁ rounds (refl, refl)).0 in
    let all = on_events-append config c started (concat rounds) in rw (start, loop, all, code) refl
