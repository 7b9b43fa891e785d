-- ===== src/Collector.antt =====
-- src/collector.cc: the collector starts an engine, has the parser find the lines, sets the
-- breakpoints, and turns the engine's events into hits and an exit code.
-- An int is held as its 32-bit pattern. The engine and the parser are given: what `start` and
-- `continue_execution` report to the collector is a list of events, and `lines` are the lines
-- that parse() tells its listeners.
pub mod ExitCode
pub mod Rounds
pub mod Hits
use kcov.Prelude.{
  ℕ, zero, suc, ◌-◌, ◌^◌, Bool, true, false, Option, none, some, List, [], ◌∷◌, ◌++◌, map, Bytes,
  if◌then◌else◌,
}

pub data EventType : Type 0 where
  ev_error ev_breakpoint ev_signal ev_exit ev_exit_first_process ev_signal_exit : EventType

pub record Event : Type 0 where
  pub type_ : EventType
  pub data_ : ℕ
  pub addr : ℕ

-- An engine with states E: IEngine's start, registerBreakpoint and continueExecution.
pub record Engine (E : Type 0) : Type 0 where
  pub start : Bytes → E → E × List Event × Bool
  pub register_breakpoint : ℕ → E → E
  pub continue_execution : E → E × List Event × Bool

-- What the collector reads of the configuration, its filter, and fmt's "%u".
pub record Config : Type 0 where
  pub daemonize_on_first_process_exit : Bool
  pub target_directory : Bytes
  pub run_filters : Bytes → Bool
  pub to_decimal : ℕ → Bytes

-- What the collector does to others: a call of a listener, or a file written.
pub data Effect : Type 0 where
  on_address_hit : ℕ → ℕ → ℕ → Effect
  on_tick : ℕ → Effect
  write_file : Bytes → Bytes → Effect

pub record Collector : Type 0 where
  pub exit_code : ℕ
  pub signal_exit : Bool
  pub listeners : List ℕ
  pub event_tick_listeners : List ℕ
  pub effects : List Effect

-- The constructor: the exit code is -1.
unfoldable pub new_collector : Collector
new_collector = record {
  exit_code = 2 ^ 32 - 1;
  signal_exit = false;
  listeners = [];
  event_tick_listeners = [];
  effects = [];
}

unfoldable pub register_listener : Collector → ℕ → Collector
register_listener c listener = record c { listeners = c.listeners ++ listener ∷ [] }

unfoldable pub register_event_tick_listener : Collector → ℕ → Collector
register_event_tick_listener c listener = record c {
  event_tick_listeners = c.event_tick_listeners ++ listener ∷ [];
}

unfoldable pub tick : Collector → Collector
tick c = record c { effects = c.effects ++ map on_tick c.event_tick_listeners }

-- "/done.fifo"
abbrev pub done_fifo : Bytes
done_fifo = 47 ∷ 100 ∷ 111 ∷ 110 ∷ 101 ∷ 46 ∷ 102 ∷ 105 ∷ 102 ∷ 111 ∷ []

abbrev pub done_effects : Config → ℕ → List Effect
done_effects config code =
    if config.daemonize_on_first_process_exit
    then write_file (config.target_directory ++ done_fifo) (config.to_decimal code) ∷ []
    else []

abbrev pub hit_effects : Collector → ℕ → List Effect
hit_effects c addr = map (λ listener. on_address_hit listener addr 1) c.listeners

-- The switch of onEvent; its panic is for values that the enumeration lacks.
abbrev pub on_event_type : Config → Collector → EventType → ℕ → ℕ → Collector
on_event_type config c ev_error code addr = c
on_event_type config c ev_signal code addr = c
on_event_type config c ev_signal_exit code addr = record c { exit_code = code; signal_exit = true }
on_event_type config c ev_exit_first_process code addr = record c {
  exit_code = code;
  effects = c.effects ++ done_effects config code;
}
on_event_type config c ev_exit code addr = record c {
  exit_code = if c.signal_exit then c.exit_code else code;
}
on_event_type config c ev_breakpoint code addr = record c {
  effects = c.effects ++ hit_effects c addr;
}

unfoldable pub on_event : Config → Collector → Event → Collector
on_event config c e = on_event_type config c e.type_ e.data_ e.addr

unfoldable pub on_events : Config → Collector → List Event → Collector
on_events config c [] = c
on_events config c (e ∷ es) = on_events config (on_event config c e) es

-- A line of the parser: its file, its number and its address.
abbrev pub FoundLine : Type 0
FoundLine = Bytes × ℕ × ℕ

unfoldable pub on_line : {E : Type 0} → Engine E → Config → E → FoundLine → E
on_line engine config e (file, line_nr, addr) =
    if config.run_filters file then engine.register_breakpoint addr e else e

unfoldable pub on_lines : {E : Type 0} → Engine E → Config → E → List FoundLine → E
on_lines engine config e [] = e
on_lines engine config e (l ∷ ls) = on_lines engine config (on_line engine config e l) ls

-- The loop of run, for at most the given number of rounds; `none` is a loop that still runs.
unfoldable pub run_loop :
    {E : Type 0} → Engine E → Config → ℕ → E → Collector → Option (E × Collector)
run_loop engine config zero e c = none
run_loop engine config (suc n) e c =
    let (e', events, should_continue) = engine.continue_execution e in
    let c' = tick (on_events config c events) in
    let rest = run_loop engine config n e' c' in if should_continue then rest else some (e', c')

abbrev returned : {E : Type 0} → Option (E × Collector) → Option (ℕ × E × Collector)
returned none = none
returned (some (e, c)) = some (c.exit_code, e, c)

-- run: its result is -1 where the engine does not start.
unfoldable pub run :
    {E : Type 0}
    → Engine E
    → Config
    → List FoundLine
    → ℕ
    → Bytes
    → E
    → Collector
    → Option (ℕ × E × Collector)
run engine config lines rounds filename e c =
    let (e', events, started) = engine.start filename e in
    let c' = on_events config c events in
    if started
    then returned (run_loop engine config rounds (on_lines engine config e' lines) c')
    else some (2 ^ 32 - 1, e', c')
