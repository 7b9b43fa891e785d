-- ===== src/Bash/Runs.antt =====
-- A whole run of a script under src/collector.cc with the engine of src/engines/bash-engine.cc.
use kcov.Prelude.{
  ℕ, zero, suc, ◌+◌, ◌≤◌, ◌≡◌, refl, ◌∙◌, sym, ap, subst, append_assoc, append-nil, inl, inr, Bool,
  true, false, List, [], ◌∷◌, ◌++◌, Bytes, arith, if◌then◌else◌, length, Bool-cases, All,
  All-append,
}
use kcov.Collector.{Event, ev_exit_first_process}
use kcov.Collector.Rounds.{Halts, last, more, concat}
use kcov.Script.{Env, Script, report_event}
use kcov.Script.Addresses.{Agrees, Later, Later-same}
use kcov.Bash.Engine.{
  Bash, Wait, running, exited, check_line, check_next, check_events, end_event, next_wait,
  continue_execution, bash_engine,
}
use kcov.Bash.Trace.{check_line-Checked, IsHit}

abbrev pub exit_event : ℕ → Event
exit_event code = record { type_ = ev_exit_first_process; data_ = code; addr = 0 }

abbrev pub IsRunning : Wait → Type 0
IsRunning w = w ≡ running

-- The engine stops after at most `n` + 1 rounds, which report hits and then the exit.
abbrev pub Ends : Env → Bash → ℕ → ℕ → Type 0
Ends env b code n =
    (b' : Bash) × (rounds : List (List Event)) × (hits : List Event) × Halts (bash_engine env) b b'
      rounds
    × (length rounds ≤ suc n)
    × (concat rounds ≡ hits ++ exit_event code ∷ [])
    × All IsHit hits

-- A state in which the child exits with a code after some more answers that it runs.
pub record Ready (env : Env) (b : Bash) (pre : List Wait) (code : ℕ) (ws : List Wait) : Type 0 where
  pub waits : b.waits ≡ pre ++ exited code ∷ ws
  pub pre_running : All IsRunning pre
  pub agrees : Agrees env b.script
  pub listens : b.script.has_listener ≡ true

end_event_exited :
    (s : Script) (code : ℕ)
    → s.has_listener ≡ true
    → end_event s (exited code) ≡ exit_event code ∷ []
unfolding report_event
end_event_exited s code listens = ground arith

-- What checkEvents keeps, whatever it reads.
record Kept (env : Env) (b : Bash) (next : Bash × List Event × Bool) : Type 0 where
  later : Later env b.script next.0.script
  waits : next.0.waits ≡ b.waits
  hits : All IsHit next.1

check_next-Kept :
    (env : Env) (b : Bash) (lines : List Bytes)
    → Agrees env b.script
    → Kept env b (check_next env b lines)
check_next-Kept env b [] g = record { later = Later-same env b.script g; waits = refl; hits = tt }
check_next-Kept env b (line ∷ lines) g =
    let c = check_line-Checked env (record b { stderr = lines }) line g in
    record { later = c.later; waits = c.waits; hits = c.hits }

-- The last round: the child has exited.
Ends-now :
    (env : Env) (b b₁ : Bash) (es : List Event) (code n : ℕ) (ws : List Wait)
    → continue_execution env b ≡ next_wait env b₁ es (exited code ∷ ws)
    → Agrees env b₁.script
    → b₁.script.has_listener ≡ true
    → All IsHit es
    → Ends env b code n
unfolding check_events
Ends-now env b b₁ es code n ws step g listens hits =
    let b₂ = record b₁ { waits = ws } in
    let (b₃, more_events, r) = check_next env b₂ b₂.stderr in
    let kept = check_next-Kept env b₂ b₂.stderr g in
    let exit_ = end_event_exited b₃.script code (kept.later.listener ∙ listens) in
    let events = es ++ (more_events ++ exit_event code ∷ []) in
    let ends : continue_execution env b ≡ (b₃, events, false) =
      step ∙ ap (λ (x : List Event). (b₃, es ++ (more_events ++ x), false)) exit_ in
    (
      b₃,
      events ∷ [],
      es ++ more_events,
      last ends,
      omega arith,
      append-nil events ∙ sym (append_assoc es more_events (exit_event code ∷ [])),
      All-append IsHit es more_events hits kept.hits,
    )

-- A round behind which the engine goes on.
goes_on :
    (env : Env) (b b₁ : Bash) (es : List Event) (code n : ℕ)
    → continue_execution env b ≡ (b₁, es, true)
    → All IsHit es
    → Ends env b₁ code n
    → Ends env b code (suc n)
goes_on env b b₁ es code n step hits (b', rounds, xs, halts, few, all_, only) = (
  b',
  es ∷ rounds,
  es ++ xs,
  more step halts,
  omega (arith, few),
  ap (λ ys. es ++ ys) all_ ∙ sym (append_assoc es xs (exit_event code ∷ [])),
  All-append IsHit es xs hits only,
)

-- A round without a line of the trace, or with one that ends checkEvents: it asks for the child.
waited :
    (env : Env) (b b₁ : Bash) (es : List Event) (code n : ℕ) (pre ws : List Wait)
    → continue_execution env b ≡ next_wait env b₁ es b₁.waits
    → Ready env b₁ pre code ws
    → All IsHit es
    → ((pre' : List Wait)
        → pre ≡ running ∷ pre'
        → (m : ℕ) × (n ≡ suc m) × Ends env (record b₁ { waits = pre' ++ exited code ∷ ws }) code m)
    → Ends env b code n
waited env b b₁ es code n [] ws step r hits next =
    Ends-now env b b₁ es code n ws (step ∙ ap (next_wait env b₁ es) r.waits) r.agrees r.listens hits
waited env b b₁ es code n (w ∷ pre) ws step r hits next =
    let w_is : w ≡ running = r.pre_running.0 in
    let (m, n_is, ends) = next pre (ap (λ x. x ∷ pre) w_is) in
    let waits : b₁.waits ≡ running ∷ (pre ++ exited code ∷ ws) =
      r.waits ∙ ap (λ x. x ∷ (pre ++ exited code ∷ ws)) w_is in
    rw n_is (
      goes_on env b (record b₁ { waits = pre ++ exited code ∷ ws }) es code m
        (step ∙ ap (next_wait env b₁ es) waits) hits ends)

-- What continueExecution does behind checkEvents.
abbrev proceed : Env → Bash × List Event × Bool → Bash × List Event × Bool
proceed env (b, es, result) = if result then (b, es, true) else next_wait env b es b.waits

proceed-true :
    (env : Env) (c : Bash × List Event × Bool) → c.2 ≡ true → proceed env c ≡ (c.0, c.1, true)
proceed-true env (b, es, result) goes = rw goes refl

proceed-false :
    (env : Env) (c : Bash × List Event × Bool)
    → c.2 ≡ false
    → proceed env c ≡ next_wait env c.0 c.1 c.0.waits
proceed-false env (b, es, result) stops = rw stops refl

continues :
    (env : Env) (b : Bash) (lines : List Bytes)
    → b.stderr ≡ lines
    → continue_execution env b ≡ proceed env (check_next env b lines)
unfolding continue_execution check_events
continues env b lines at = ap (λ ls. proceed env (check_next env b ls)) at

All-rest :
    {A : Type 0} (P : A → Type 0) (x : A) (xs ys : List A) → ys ≡ x ∷ xs → All P ys → All P xs
All-rest P x xs ys is all_ = (subst (All P) is all_).1

-- Behind one more answer that the child runs.
Ready-rest :
    (env : Env) (b : Bash) (pre pre' ws : List Wait) (code : ℕ)
    → Ready env b pre code ws
    → pre ≡ running ∷ pre'
    → Ready env (record b { waits = pre' ++ exited code ∷ ws }) pre' code ws
Ready-rest env b pre pre' ws code r is = record {
  waits = refl;
  pre_running = All-rest IsRunning running pre' pre is r.pre_running;
  agrees = r.agrees;
  listens = r.listens;
}

-- By the lines left in the trace and the answers left before the exit.
pub Ends-by :
    (n : ℕ) (env : Env) (b : Bash) (lines : List Bytes) (pre ws : List Wait) (code : ℕ)
    → b.stderr ≡ lines
    → length lines + length pre ≤ n
    → Ready env b pre code ws
    → Ends env b code n
Ends-by zero env b [] pre ws code at le r =
    waited env b b [] code zero pre ws (continues env b [] at) r tt (λ pre' is.
      absurd (let none_left : length pre ≡ 1 + length pre' = rw is (omega arith) in omega arith))
Ends-by zero env b (line ∷ lines) pre ws code at le r = absurd (omega arith)
Ends-by (suc m) env b [] pre ws code at le r =
    waited env b b [] code (suc m) pre ws (continues env b [] at) r tt (λ pre' is.
      let longer : length pre ≡ 1 + length pre' = rw is (omega arith) in
      (
        m,
        refl,
        Ends-by m env (record b { waits = pre' ++ exited code ∷ ws }) [] pre' ws code at
            (omega arith) (Ready-rest env b pre pre' ws code r is),
      ))
Ends-by (suc m) env b (line ∷ lines) pre ws code at le r =
    let b₀ = record b { stderr = lines } in
    let c = check_line-Checked env b₀ line r.agrees in
    let (b₁, es, result) = check_line env b₀ line in
    let r₁ : Ready env b₁ pre code ws = record {
      waits = c.waits ∙ r.waits;
      pre_running = r.pre_running;
      agrees = c.later.agrees;
      listens = c.later.listener ∙ r.listens;
    } in
    elim (Bool-cases result) [
      | inl goes ↦
          goes_on env b b₁ es code m (continues env b (line ∷ lines) at ∙ proceed-true env _ goes)
            c.hits (Ends-by m env b₁ lines pre ws code c.stderr (omega arith) r₁)
      | inr stops ↦
          waited env b b₁ es code (suc m) pre ws
            (continues env b (line ∷ lines) at ∙ proceed-false env _ stops) r₁ c.hits
            (λ pre' is.
              let longer : length pre ≡ 1 + length pre' = rw is (omega arith) in
              (
                m,
                refl,
                Ends-by m env (record b₁ { waits = pre' ++ exited code ∷ ws }) lines pre' ws code
                    c.stderr (omega arith) (Ready-rest env b₁ pre pre' ws code r₁ is),
              ))
    ]
