-- ===== src/OutputHandler.antt =====
-- src/output-handler.cc: when the writers are told to write. The directories and the symbolic link
-- that the constructor makes are left out.
use native.Mathlib.Nat.{add-mul}
use kcov.Prelude.{
  ℕ, zero, suc, ◌+◌, ◌-◌, ◌*◌, ◌%◌, ◌^◌, ◌≤◌, ◌<◌, ◌≡◌, refl, ◌∙◌, sym, ap, List, [], ◌∷◌, ◌++◌,
  map, arith, eqb, leb, if◌then◌else◌, if_both, append_assoc, append-nil,
}

-- A call of a writer.
pub data Call : Type 0 where
  on_startup on_stop write : ℕ → Call

pub record OutputHandler : Type 0 where
  pub output_interval : ℕ
  pub last_timestamp : ℕ
  pub writers : List ℕ
  pub calls : List Call

-- The constructor, at the time `now`.
abbrev pub new_output_handler : ℕ → ℕ → OutputHandler
new_output_handler output_interval now = record {
  output_interval = output_interval;
  last_timestamp = now;
  writers = [];
  calls = [];
}

unfoldable pub register_writer : OutputHandler → ℕ → OutputHandler
register_writer h writer = record h { writers = h.writers ++ writer ∷ [] }

abbrev pub call_all : OutputHandler → (ℕ → Call) → OutputHandler
call_all h call = record h { calls = h.calls ++ map call h.writers }

unfoldable pub start : OutputHandler → OutputHandler
start h = call_all h on_startup

unfoldable pub produce : OutputHandler → OutputHandler
produce h = call_all h write

unfoldable pub stop : OutputHandler → OutputHandler
stop h = produce (call_all h on_stop)

-- A tick, where get_ms_timestamp gives `now`, and `later` behind the output.
unfoldable pub on_tick : OutputHandler → ℕ × ℕ → OutputHandler
on_tick h (now, later) =
    if eqb h.output_interval 0
    then h
    else if leb h.output_interval ((now + (2 ^ 64 - h.last_timestamp)) % 2 ^ 64)
    then record (produce h) { last_timestamp = later }
    else h

unfoldable pub on_ticks : OutputHandler → List (ℕ × ℕ) → OutputHandler
on_ticks h [] = h
on_ticks h (times ∷ ticks) = on_ticks (on_tick h times) ticks

-- A clock that does not go back, from a time on.
abbrev pub Forward : ℕ → List (ℕ × ℕ) → Type 0
Forward t [] = Unit {0}
Forward t ((now, later) ∷ ticks) =
    (t ≤ now) × (now ≤ later) × (later < 2 ^ 64) × Forward later ticks

-- `k` outputs: each tells every writer, in the order of their registration, to write.
abbrev pub outputs : ℕ → List ℕ → List Call
outputs zero writers = []
outputs (suc k) writers = map write writers ++ outputs k writers

-- From one state to another with `k` outputs and no other call.
pub record Outputs (h h' : OutputHandler) (k : ℕ) : Type 0 where
  pub written : h'.calls ≡ h.calls ++ outputs k h.writers
  pub spaced : h.last_timestamp + k * h.output_interval ≤ h'.last_timestamp
  pub writers : h'.writers ≡ h.writers
  pub interval : h'.output_interval ≡ h.output_interval

outputs_add :
    (k l : ℕ) (writers : List ℕ) → outputs (k + l) writers ≡ outputs k writers ++ outputs l writers
outputs_add zero l writers = let same : 0 + l ≡ l = omega arith in ap (λ n. outputs n writers) same
outputs_add (suc k) l writers =
    let one_more : suc k + l ≡ suc (k + l) = omega arith in
    ap (λ n. outputs n writers) one_more
    ∙ ap (λ cs. map write writers ++ cs) (outputs_add k l writers)
    ∙ sym (append_assoc (map write writers) (outputs k writers) (outputs l writers))

Outputs-none : (h : OutputHandler) → Outputs h h 0
Outputs-none h = record {
  written = sym (append-nil h.calls);
  spaced = omega arith;
  writers = refl;
  interval = refl;
}

on_tick-Outputs :
    (h : OutputHandler) (now later : ℕ)
    → h.last_timestamp ≤ now
    → now ≤ later
    → later < 2 ^ 64
    → (k : ℕ) × Outputs h (on_tick h (now, later)) k
      × ((on_tick h (now, later)).last_timestamp ≤ later)
unfolding on_tick produce
on_tick-Outputs h now later after forward small =
    let Ticked = λ (h' : OutputHandler). (k : ℕ) × Outputs h h' k × (h'.last_timestamp ≤ later) in
    let quiet : Ticked h = (0, Outputs-none h, omega arith) in
    let elapsed = (now + (2 ^ 64 - h.last_timestamp)) % 2 ^ 64 in
    if_both Ticked (eqb h.output_interval 0) _ _ (λ never. quiet)
      (λ some_time.
        if_both Ticked (leb h.output_interval elapsed) _ _
          (λ due.
            let passed : elapsed ≡ now - h.last_timestamp = omega arith in
            let long : h.output_interval ≤ elapsed = ground (arith, due) in
            (
              1,
              record {
                written = ap (λ cs. h.calls ++ cs) (sym (append-nil (map write h.writers)));
                spaced = omega (arith, long, passed);
                writers = refl;
                interval = refl;
              },
              omega arith,
            ))
          (λ early. quiet))

Outputs-then :
    (h h₁ h₂ : OutputHandler) (k l : ℕ) → Outputs h h₁ k → Outputs h₁ h₂ l → Outputs h h₂ (k + l)
Outputs-then h h₁ h₂ k l a b =
    let interval = ap (λ i. l * i) a.interval in
    record {
      written =
          b.written
          ∙ ap (λ ws. h₁.calls ++ outputs l ws) a.writers
          ∙ ap (λ cs. cs ++ outputs l h.writers) a.written
          ∙ append_assoc h.calls (outputs k h.writers) (outputs l h.writers)
          ∙ ap (λ cs. h.calls ++ cs) (sym (outputs_add k l h.writers));
      spaced = omega (arith, a.spaced, b.spaced, interval, add-mul k l h.output_interval);
      writers = b.writers ∙ a.writers;
      interval = b.interval ∙ a.interval;
    }

-- Over any number of ticks on a clock that does not go back, what the writers are told is a number
-- of outputs, each of which tells every writer once, in the order of registration, to write, and
-- nothing else. As many output intervals as there are outputs fit between the first time stamp and
-- the last. The writers and the interval stay as they are.
pub on_ticks-Outputs :
    (h : OutputHandler) (t : ℕ) (ticks : List (ℕ × ℕ))
    → h.last_timestamp ≤ t
    → Forward t ticks
    → (k : ℕ) × Outputs h (on_ticks h ticks) k
unfolding on_ticks
on_ticks-Outputs h t [] before forward = (0, Outputs-none h)
on_ticks-Outputs h t ((now, later) ∷ ticks) before (a, b, c, forward) =
    let (k, first, bound) = on_tick-Outputs h now later (omega (arith, before, a)) b c in
    let (l, rest) = on_ticks-Outputs (on_tick h (now, later)) later ticks bound forward in
    (k + l, Outputs-then h (on_tick h (now, later)) _ k l first rest)
