-- ===== src/Collector/ExitCode.antt =====
-- The exit code of src/collector.cc: what onEvent makes of a sequence of events.
use kcov.Prelude.{
  ℕ, ◌≡◌, refl, ◌∙◌, ◌⊎◌, inl, inr, Bool, true, false, List, [], ◌∷◌, ◌++◌, arith, All,
}
use kcov.Collector.{
  EventType, Event, Config, Collector, ev_error, ev_breakpoint, ev_signal, ev_exit,
  ev_exit_first_process, ev_signal_exit, on_event, on_events, on_event_type,
}

pub on_events-append :
    (config : Config) (c : Collector) (xs ys : List Event)
    → on_events config c (xs ++ ys) ≡ on_events config (on_events config c xs) ys
unfolding on_events
on_events-append config c [] ys = refl
on_events-append config c (x ∷ xs) ys = on_events-append config (on_event config c x) xs ys

-- The events that may set the exit code though a signal has ended the program.
abbrev pub is_forced : EventType → Bool
is_forced ev_signal_exit = true
is_forced ev_exit_first_process = true
is_forced _ = false

abbrev pub is_signal_exit : EventType → Bool
is_signal_exit ev_signal_exit = true
is_signal_exit _ = false

abbrev pub is_end : EventType → Bool
is_end ev_exit = true
is_end t = is_forced t

abbrev pub Unforced : Event → Type 0
Unforced e = is_forced e.type_ ≡ false

abbrev pub NoSignalExit : Event → Type 0
NoSignalExit e = is_signal_exit e.type_ ≡ false

abbrev pub NoEnd : Event → Type 0
NoEnd e = is_end e.type_ ≡ false

signal_kept :
    (config : Config) (c : Collector) (t : EventType) (code addr : ℕ)
    → c.signal_exit ≡ true
    → is_forced t ≡ false
    → ((on_event_type config c t code addr).exit_code ≡ c.exit_code)
      × ((on_event_type config c t code addr).signal_exit ≡ true)
signal_kept config c ev_error code addr s u = (refl, s)
signal_kept config c ev_signal code addr s u = (refl, s)
signal_kept config c ev_signal_exit code addr s u = cc
signal_kept config c ev_exit_first_process code addr s u = cc
signal_kept config c ev_exit code addr s u = (ground arith, s)
signal_kept config c ev_breakpoint code addr s u = (refl, s)

Unforced-kept :
    (config : Config) (c : Collector) (es : List Event)
    → c.signal_exit ≡ true
    → All Unforced es
    → (on_events config c es).exit_code ≡ c.exit_code
unfolding on_events on_event
Unforced-kept config c [] s u = refl
Unforced-kept config c (e ∷ es) s u =
    let (code, signal) = signal_kept config c e.type_ e.data_ e.addr s u.0 in
    let rest = Unforced-kept config (on_event config c e) es signal u.1 in cc

-- Whatever came before it, the last event of a signal's exit gives the exit code, where behind it
-- the first process does not exit; later exits, of children, leave the code.
pub exit_code-signal :
    (config : Config) (c : Collector) (xs : List Event) (e : Event) (ys : List Event)
    → e.type_ ≡ ev_signal_exit
    → All Unforced ys
    → (on_events config c (xs ++ e ∷ ys)).exit_code ≡ e.data_
unfolding on_events on_event
exit_code-signal config c xs e ys signal later =
    rw (on_events-append config c xs (e ∷ ys), signal)
      (Unforced-kept config
        (record (on_events config c xs) { exit_code = e.data_; signal_exit = true }) ys refl later)

no_end_kept :
    (config : Config) (c : Collector) (t : EventType) (code addr : ℕ)
    → is_end t ≡ false
    → (on_event_type config c t code addr).exit_code ≡ c.exit_code
no_end_kept config c ev_error code addr u = refl
no_end_kept config c ev_signal code addr u = refl
no_end_kept config c ev_signal_exit code addr u = cc
no_end_kept config c ev_exit_first_process code addr u = cc
no_end_kept config c ev_exit code addr u = cc
no_end_kept config c ev_breakpoint code addr u = refl

no_ends_kept :
    (config : Config) (c : Collector) (es : List Event)
    → All NoEnd es
    → (on_events config c es).exit_code ≡ c.exit_code
unfolding on_events on_event
no_ends_kept config c [] u = refl
no_ends_kept config c (e ∷ es) u =
    let code = no_end_kept config c e.type_ e.data_ e.addr u.0 in
    let rest = no_ends_kept config (on_event config c e) es u.1 in cc

no_signal_kept :
    (config : Config) (c : Collector) (t : EventType) (code addr : ℕ)
    → is_signal_exit t ≡ false
    → (on_event_type config c t code addr).signal_exit ≡ c.signal_exit
no_signal_kept config c ev_error code addr u = refl
no_signal_kept config c ev_signal code addr u = refl
no_signal_kept config c ev_signal_exit code addr u = cc
no_signal_kept config c ev_exit_first_process code addr u = refl
no_signal_kept config c ev_exit code addr u = refl
no_signal_kept config c ev_breakpoint code addr u = refl

no_signals_kept :
    (config : Config) (c : Collector) (es : List Event)
    → All NoSignalExit es
    → (on_events config c es).signal_exit ≡ c.signal_exit
unfolding on_events on_event
no_signals_kept config c [] u = refl
no_signals_kept config c (e ∷ es) u =
    let kept = no_signal_kept config c e.type_ e.data_ e.addr u.0 in
    let rest = no_signals_kept config (on_event config c e) es u.1 in cc

-- The exit code that an exit or the first process's exit leaves, where no signal has ended the
-- program.
exit_sets :
    (config : Config) (c : Collector) (t : EventType) (code addr : ℕ)
    → c.signal_exit ≡ false
    → (t ≡ ev_exit) ⊎ (t ≡ ev_exit_first_process)
    → (on_event_type config c t code addr).exit_code ≡ code
exit_sets config c t code addr s (inl e) = rw (e, s) refl
exit_sets config c t code addr s (inr e) = rw e refl

-- Where no signal has ended the program before it, the last exit (of a process or of the first
-- process) gives the exit code.
pub exit_code-exit :
    (config : Config) (c : Collector) (xs : List Event) (e : Event) (ys : List Event)
    → c.signal_exit ≡ false
    → All NoSignalExit xs
    → (e.type_ ≡ ev_exit) ⊎ (e.type_ ≡ ev_exit_first_process)
    → All NoEnd ys
    → (on_events config c (xs ++ e ∷ ys)).exit_code ≡ e.data_
unfolding on_events on_event
exit_code-exit config c xs e ys s earlier exit later =
    let split = on_events-append config c xs (e ∷ ys) in
    let c₁ = on_events config c xs in
    let s₁ = no_signals_kept config c xs earlier ∙ s in
    let set_ = exit_sets config c₁ e.type_ e.data_ e.addr s₁ exit in
    rw split (no_ends_kept config (on_event config c₁ e) ys later ∙ set_)
