-- ===== src/Collector/Hits.antt =====
-- What the listeners of src/collector.cc are told: hits by onEvent, ticks by run.
use kcov.Prelude.{
  append_assoc, append-nil, ℕ, suc, ◌+◌, ◌≡◌, refl, ◌∙◌, ap, Bool, true, false, List, [], ◌∷◌, ◌++◌,
  map, arith, eqb, if◌then◌else◌, length, Bool-cases, inl, inr,
}
use kcov.Collector.{
  EventType, Event, Config, Collector, Effect, ev_error, ev_breakpoint, ev_signal, ev_exit,
  ev_exit_first_process, ev_signal_exit, on_address_hit, on_tick, write_file, on_event, on_events,
  on_event_type, tick, done_effects, hit_effects,
}
use kcov.Collector.Rounds.{concat, on_rounds}

-- The hits, and the number of ticks, that a listener is told.
abbrev pub hits_to : ℕ → List Effect → List (ℕ × ℕ)
hits_to k [] = []
hits_to k (on_address_hit listener addr hits ∷ fx) =
    let rest = hits_to k fx in if eqb listener k then (addr, hits) ∷ rest else rest
hits_to k (on_tick listener ∷ fx) = hits_to k fx
hits_to k (write_file name content ∷ fx) = hits_to k fx

abbrev pub ticks_to : ℕ → List Effect → ℕ
ticks_to k [] = 0
ticks_to k (on_tick listener ∷ fx) =
    let rest = ticks_to k fx in if eqb listener k then suc rest else rest
ticks_to k (on_address_hit listener addr hits ∷ fx) = ticks_to k fx
ticks_to k (write_file name content ∷ fx) = ticks_to k fx

-- How often a listener is registered.
abbrev pub count : ℕ → List ℕ → ℕ
count k [] = 0
count k (x ∷ xs) = let rest = count k xs in if eqb x k then suc rest else rest

-- The addresses of the breakpoints among the events, each with one hit.
abbrev pub is_breakpoint : EventType → Bool
is_breakpoint ev_breakpoint = true
is_breakpoint _ = false

abbrev pub breakpoints : List Event → List (ℕ × ℕ)
breakpoints [] = []
breakpoints (e ∷ es) =
    let rest = breakpoints es in if is_breakpoint e.type_ then (e.addr, 1) ∷ rest else rest

hits_to-append : (k : ℕ) (fx gx : List Effect) → hits_to k (fx ++ gx) ≡ hits_to k fx ++ hits_to k gx
hits_to-append k [] gx = refl
hits_to-append k (on_address_hit listener addr hits ∷ fx) gx =
    ground (arith, hits_to-append k fx gx)
hits_to-append k (on_tick listener ∷ fx) gx = hits_to-append k fx gx
hits_to-append k (write_file name content ∷ fx) gx = hits_to-append k fx gx

ticks_to-append :
    (k : ℕ) (fx gx : List Effect) → ticks_to k (fx ++ gx) ≡ ticks_to k fx + ticks_to k gx
ticks_to-append k [] gx = omega arith
ticks_to-append k (on_tick listener ∷ fx) gx = ground (arith, ticks_to-append k fx gx)
ticks_to-append k (on_address_hit listener addr hits ∷ fx) gx = ticks_to-append k fx gx
ticks_to-append k (write_file name content ∷ fx) gx = ticks_to-append k fx gx

hits_to-none :
    (k addr : ℕ) (ls : List ℕ)
    → count k ls ≡ 0
    → hits_to k (map (λ listener. on_address_hit listener addr 1) ls) ≡ []
hits_to-none k addr [] h = refl
hits_to-none k addr (l ∷ ls) h = elim (Bool-cases (eqb l k)) [
  | inl same ↦ ground arith
  | inr other ↦ let rest = hits_to-none k addr ls (ground arith) in ground arith
]

hits_to-once :
    (k addr : ℕ) (ls : List ℕ)
    → count k ls ≡ 1
    → hits_to k (map (λ listener. on_address_hit listener addr 1) ls) ≡ (addr, 1) ∷ []
hits_to-once k addr [] h = ground arith
hits_to-once k addr (l ∷ ls) h = elim (Bool-cases (eqb l k)) [
  | inl same ↦ let rest = hits_to-none k addr ls (ground arith) in ground arith
  | inr other ↦ let rest = hits_to-once k addr ls (ground arith) in ground arith
]

ticks_to-hits :
    (k addr : ℕ) (ls : List ℕ)
    → ticks_to k (map (λ listener. on_address_hit listener addr 1) ls) ≡ 0
ticks_to-hits k addr [] = refl
ticks_to-hits k addr (l ∷ ls) = ticks_to-hits k addr ls

hits_to-ticks : (k : ℕ) (ls : List ℕ) → hits_to k (map on_tick ls) ≡ []
hits_to-ticks k [] = refl
hits_to-ticks k (l ∷ ls) = hits_to-ticks k ls

ticks_to-ticks : (k : ℕ) (ls : List ℕ) → ticks_to k (map on_tick ls) ≡ count k ls
ticks_to-ticks k [] = refl
ticks_to-ticks k (l ∷ ls) = ground (arith, ticks_to-ticks k ls)

-- From one collector to a later one: listener `k` has been told these hits, and as many ticks, and
-- nobody has been registered.
record Told (k : ℕ) (c d : Collector) (hs : List (ℕ × ℕ)) (n : ℕ) : Type 0 where
  hits : hits_to k d.effects ≡ hits_to k c.effects ++ hs
  ticks : ticks_to k d.effects ≡ ticks_to k c.effects + n
  listeners : d.listeners ≡ c.listeners
  tick_listeners : d.event_tick_listeners ≡ c.event_tick_listeners

Told-quiet :
    (k : ℕ) (c d : Collector)
    → d.effects ≡ c.effects
    → d.listeners ≡ c.listeners
    → d.event_tick_listeners ≡ c.event_tick_listeners
    → Told k c d [] 0
Told-quiet k c d same ls ts = record {
  hits = rw (same, append-nil (hits_to k c.effects)) refl;
  ticks = rw same (omega arith);
  listeners = ls;
  tick_listeners = ts;
}

-- Effects put behind those so far.
Told-effects :
    (k : ℕ) (c d : Collector) (fx : List Effect) (hs : List (ℕ × ℕ)) (n : ℕ)
    → d.effects ≡ c.effects ++ fx
    → hits_to k fx ≡ hs
    → ticks_to k fx ≡ n
    → d.listeners ≡ c.listeners
    → d.event_tick_listeners ≡ c.event_tick_listeners
    → Told k c d hs n
Told-effects k c d fx hs n grown h t ls ts = record {
  hits = rw (grown, hits_to-append k c.effects fx, h) refl;
  ticks = rw (grown, ticks_to-append k c.effects fx, t) refl;
  listeners = ls;
  tick_listeners = ts;
}

Told-then :
    (k : ℕ) (c d e : Collector) (hs gs : List (ℕ × ℕ)) (n m : ℕ)
    → Told k c d hs n
    → Told k d e gs m
    → Told k c e (hs ++ gs) (n + m)
Told-then k c d e hs gs n m a b = record {
  hits = b.hits ∙ ap (λ xs. xs ++ gs) a.hits ∙ append_assoc (hits_to k c.effects) hs gs;
  ticks = ground (arith, a.ticks, b.ticks);
  listeners = b.listeners ∙ a.listeners;
  tick_listeners = b.tick_listeners ∙ a.tick_listeners;
}

done-hits : (k : ℕ) (config : Config) (code : ℕ) → hits_to k (done_effects config code) ≡ []
done-hits k config code = ground arith

done-ticks : (k : ℕ) (config : Config) (code : ℕ) → ticks_to k (done_effects config code) ≡ 0
done-ticks k config code = ground arith

on_event_type-Told :
    (k : ℕ) (config : Config) (c : Collector) (t : EventType) (code addr : ℕ)
    → count k c.listeners ≡ 1
    → Told k c
        (on_event_type config c t code addr)
        (if is_breakpoint t then (addr, 1) ∷ [] else [])
        0
on_event_type-Told k config c ev_error code addr once = Told-quiet k c _ refl refl refl
on_event_type-Told k config c ev_signal code addr once = Told-quiet k c _ refl refl refl
on_event_type-Told k config c ev_signal_exit code addr once = Told-quiet k c _ refl refl refl
on_event_type-Told k config c ev_exit code addr once = Told-quiet k c _ refl refl refl
on_event_type-Told k config c ev_exit_first_process code addr once =
    Told-effects k c _ (done_effects config code) [] 0 refl (done-hits k config code)
      (done-ticks k config code) refl refl
on_event_type-Told k config c ev_breakpoint code addr once =
    Told-effects k c _ (hit_effects c addr) ((addr, 1) ∷ []) 0 refl
      (hits_to-once k addr c.listeners once) (ticks_to-hits k addr c.listeners) refl refl

breakpoints_step :
    (e : Event) (es : List Event)
    → breakpoints (e ∷ es)
      ≡ (if is_breakpoint e.type_ then (e.addr, 1) ∷ [] else []) ++ breakpoints es
breakpoints_step e es = ground arith

on_events-Told :
    (k : ℕ) (config : Config) (c : Collector) (es : List Event)
    → count k c.listeners ≡ 1
    → Told k c (on_events config c es) (breakpoints es) 0
unfolding on_events on_event
on_events-Told k config c [] once = Told-quiet k c c refl refl refl
on_events-Told k config c (e ∷ es) once =
    let d = on_event config c e in
    let first = on_event_type-Told k config c e.type_ e.data_ e.addr once in
    let rest = on_events-Told k config d es (rw first.listeners once) in
    rw (breakpoints_step e es) (Told-then k c d _ _ (breakpoints es) 0 0 first rest)

tick-Told : (k : ℕ) (c : Collector) → Told k c (tick c) [] (count k c.event_tick_listeners)
unfolding tick
tick-Told k c =
    Told-effects k c _ (map on_tick c.event_tick_listeners) [] _ refl
      (hits_to-ticks k c.event_tick_listeners) (ticks_to-ticks k c.event_tick_listeners) refl refl

round-Told :
    (k : ℕ) (config : Config) (c : Collector) (es : List Event)
    → count k c.listeners ≡ 1
    → count k c.event_tick_listeners ≡ 1
    → Told k c (tick (on_events config c es)) (breakpoints es) 1
round-Told k config c es once ticked =
    let d = on_events config c es in
    let hit = on_events-Told k config c es once in
    let then_tick = tick-Told k d in
    let both = Told-then k c d _ _ [] _ _ hit then_tick in
    let one : 0 + count k d.event_tick_listeners ≡ 1 = rw (hit.tick_listeners, ticked) refl in
    rw (← append-nil (breakpoints es), ← one) both

breakpoints-append :
    (xs ys : List Event) → breakpoints (xs ++ ys) ≡ breakpoints xs ++ breakpoints ys
breakpoints-append [] ys = refl
breakpoints-append (x ∷ xs) ys = ground (arith, breakpoints-append xs ys)

on_rounds-Told :
    (k : ℕ) (config : Config) (c : Collector) (rounds : List (List Event))
    → count k c.listeners ≡ 1
    → count k c.event_tick_listeners ≡ 1
    → Told k c (on_rounds config c rounds) (breakpoints (concat rounds)) (length rounds)
unfolding on_rounds
on_rounds-Told k config c [] once ticked = Told-quiet k c c refl refl refl
on_rounds-Told k config c (es ∷ rounds) once ticked =
    let first = round-Told k config c es once ticked in
    let rest =
      on_rounds-Told k config (tick (on_events config c es)) rounds (rw first.listeners once)
        (rw first.tick_listeners ticked) in
    let more : length (es ∷ rounds) ≡ 1 + length rounds = omega arith in
    rw (breakpoints-append es (concat rounds), more) (Told-then k c _ _ _ _ _ _ first rest)

-- Over all rounds, a listener that is registered once for hits and once for ticks is told, behind
-- what it was told before, each breakpoint's address in the engine's order, with one hit, and one
-- tick for each round.
pub on_rounds-told :
    (k : ℕ) (config : Config) (c : Collector) (rounds : List (List Event))
    → count k c.listeners ≡ 1
    → count k c.event_tick_listeners ≡ 1
    → (hits_to k (on_rounds config c rounds).effects
        ≡ hits_to k c.effects ++ breakpoints (concat rounds))
      × (ticks_to k (on_rounds config c rounds).effects ≡ ticks_to k c.effects + length rounds)
on_rounds-told k config c rounds once ticked =
    let told = on_rounds-Told k config c rounds once ticked in (told.hits, told.ticks)
