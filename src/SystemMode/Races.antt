-- ===== src/SystemMode/Races.antt =====
-- Interleavings of threads in reportIndex of src/engines/system-mode-file-format.cc.
use kcov.Prelude.{
  ℕ, zero, suc, ◌/◌, ◌%◌, ◌<◌, ◌≡◌, refl, ◌∙◌, sym, ap, ◌⊎◌, inl, inr, Bool, true, false, Option,
  some, none, List, [], ◌∷◌, arith, eqb, leb, if◌then◌else◌, length, get_elem?, set, All,
  Bool-cases, replicate,
}
use kcov.SystemMode.{Memory, Thread, checking, returned, index_is_hit, advance}
use kcov.SystemMode.Bits.{HasWidth}
use kcov.SystemMode.Threads.{index_of, Sound, Later, Sound-Later, advance-Advanced}

-- Thread number `k` makes its next access.
abbrev pub move_thread : Memory × List Thread → ℕ → Option Thread → Memory × List Thread
move_thread s k none = s
move_thread (m, ts) k (some t) = let (m', t') = advance m t in (m', set ts k t')

unfoldable pub step : Memory × List Thread → ℕ → Memory × List Thread
step (m, ts) k = move_thread (m, ts) k (get_elem? ts k)

-- A schedule says whose turn it is.
unfoldable pub run_schedule : Memory × List Thread → List ℕ → Memory × List Thread
run_schedule s [] = s
run_schedule s (k ∷ ks) = run_schedule (step s k) ks

pub record Inv (s : Memory × List Thread) : Type 0 where
  pub wide : All HasWidth s.0.data_
  pub sound : All (Sound s.0) s.1

-- Some thread reports the index.
abbrev pub Reports : ℕ → List Thread → Type 0
Reports j ts = (k : ℕ) × (t : Thread) × (get_elem? ts k ≡ some t) × (index_of t ≡ j)

-- From one state to a later one.
record After (s s' : Memory × List Thread) : Type 0 where
  inv : Inv s'
  size : length s'.0.data_ ≡ length s.0.data_
  kept : (j : ℕ) → index_is_hit s.0 j ≡ true → index_is_hit s'.0 j ≡ true
  new : (j : ℕ) → index_is_hit s'.0 j ≡ true → (index_is_hit s.0 j ≡ true) ⊎ Reports j s.1
  reports : (j : ℕ) → Reports j s'.1 → Reports j s.1

All-at :
    {A : Type 0} (P : A → Type 0) (xs : List A) (k : ℕ) (x : A)
    → All P xs
    → get_elem? xs k ≡ some x
    → P x
All-at P [] k x h e = cc
All-at P (y ∷ ys) zero x h e = let is : y ≡ x = ground arith in rw (← is) h.0
All-at P (y ∷ ys) (suc k) x h e = All-at P ys k x h.1 e

Sounds-set :
    (i k : ℕ) (m m' : Memory) (ts : List Thread) (t' : Thread)
    → Later i m m'
    → All (Sound m) ts
    → Sound m' t'
    → All (Sound m') (set ts k t')
Sounds-set i k m m' [] t' l h s = tt
Sounds-set i zero m m' (t ∷ ts) t' l h s =
    (s, kcov.Prelude.All-map_of (Sound m) (Sound m') ts (λ u. Sound-Later i m m' u l) h.1)
Sounds-set i (suc k) m m' (t ∷ ts) t' l h s =
    (Sound-Later i m m' t l h.0, Sounds-set i k m m' ts t' l h.1 s)

Reports-set :
    (ts : List Thread) (k : ℕ) (t t' : Thread) (j : ℕ)
    → get_elem? ts k ≡ some t
    → index_of t' ≡ index_of t
    → Reports j (set ts k t')
    → Reports j ts
Reports-set ts k t t' j at same (n, u, there, is) = elim (Bool-cases (eqb k n)) [
  | inl here ↦
      let k_is : k ≡ n = ground arith in
      let lt = kcov.Prelude.get_elem?-lt ts k t at in
      let self = kcov.Prelude.get_elem?-set_self ts k t' lt in
      let found : some t' ≡ some u = sym self ∙ ap (λ x. get_elem? (set ts k t') x) k_is ∙ there in
      let u_is : t' ≡ u = ground arith in (k, t, at, sym same ∙ ap index_of u_is ∙ is)
  | inr other ↦
      let kept = kcov.Prelude.get_elem?-set_ne ts k n t' (λ e. ground arith) in
      (n, u, sym kept ∙ there, is)
]

step-After : (s : Memory × List Thread) (k : ℕ) → Inv s → After s (step s k)
unfolding step
step-After (m, ts) k v = elim (kcov.Prelude.Option-cases (get_elem? ts k)) [
  | inl idle ↦
      rw idle
        (record { inv = v; size = refl; kept = λ j h. h; new = λ j h. inl h; reports = λ j h. h })
  | inr (t, at) ↦
      let a = advance-Advanced m t v.wide (All-at (Sound m) ts k t v.sound at) in
      rw at (record {
        inv = record {
          wide = a.later.wide;
          sound = Sounds-set (index_of t) k m _ ts _ a.later v.sound a.sound;
        };
        size = a.later.size;
        kept = a.later.kept;
        new =
            λ j h. elim (a.later.new j h) [ inl before ↦ inl before | inr is ↦ inr (k, t, at, is) ];
        reports = λ j h. Reports-set ts k t _ j at a.index h;
      })
]

run_schedule-After : (s : Memory × List Thread) (ks : List ℕ) → Inv s → After s (run_schedule s ks)
unfolding run_schedule
run_schedule-After s [] v = record {
  inv = v;
  size = refl;
  kept = λ j h. h;
  new = λ j h. inl h;
  reports = λ j h. h;
}
run_schedule-After s (k ∷ ks) v =
    let one = step-After s k v in
    let rest = run_schedule-After (step s k) ks one.inv in
    record {
      inv = rest.inv;
      size = rest.size ∙ one.size;
      kept = λ j h. rest.kept j (one.kept j h);
      new = λ j h. elim (rest.new j h) [
        | inl before ↦ one.new j before
        | inr reported ↦ inr (one.reports j reported)
      ];
      reports = λ j h. one.reports j (rest.reports j h);
    }

-- Threads at the begin of reportIndex, with these indexes.
abbrev pub start_all : List ℕ → List Thread
start_all [] = []
start_all (i ∷ is) = checking i ∷ start_all is

start_all-Sound : (m : Memory) (is : List ℕ) → All (Sound m) (start_all is)
start_all-Sound m [] = tt
start_all-Sound m (i ∷ is) = (tt, start_all-Sound m is)

start-index :
    (is : List ℕ) (k : ℕ) (t : Thread)
    → get_elem? (start_all is) k ≡ some t
    → get_elem? is k ≡ some (index_of t)
start-index [] k t e = cc
start-index (i ∷ is) zero t e = let t_is : checking i ≡ t = ground arith in rw (← t_is) refl
start-index (i ∷ is) (suc k) t e = start-index is k t e

-- The state after a schedule of threads that report these indexes.
abbrev pub raced : Memory → List ℕ → List ℕ → Memory × List Thread
raced m is ks = run_schedule (m, start_all is) ks

raced-After :
    (m : Memory) (is ks : List ℕ) → All HasWidth m.data_ → After (m, start_all is) (raced m is ks)
raced-After m is ks wide =
    run_schedule-After (m, start_all is) ks (record { wide = wide; sound = start_all-Sound m is })

-- However the accesses of threads that report indexes interleave, an index that was hit stays hit.
pub run_schedule-kept :
    (m : Memory) (is ks : List ℕ) (j : ℕ)
    → All HasWidth m.data_
    → index_is_hit m j ≡ true
    → index_is_hit (raced m is ks).0 j ≡ true
run_schedule-kept m is ks j wide h = (raced-After m is ks wide).kept j h

-- However the accesses of threads that report indexes interleave, when a thread has returned, its
-- index is hit if it is in range: no thread's write undoes another's.
pub run_schedule-returned :
    (m : Memory) (is ks : List ℕ) (k j : ℕ)
    → All HasWidth m.data_
    → get_elem? (raced m is ks).1 k ≡ some (returned j)
    → j / 32 < length m.data_
    → index_is_hit (raced m is ks).0 j ≡ true
run_schedule-returned m is ks k j wide at lt =
    let a = raced-After m is ks wide in
    All-at (Sound (raced m is ks).0) (raced m is ks).1 k (returned j) a.inv.sound at (rw a.size lt)

-- However the accesses of threads that report indexes interleave, only what was hit before or is
-- reported by a thread is hit.
pub run_schedule-new :
    (m : Memory) (is ks : List ℕ) (j : ℕ)
    → All HasWidth m.data_
    → index_is_hit (raced m is ks).0 j ≡ true
    → (index_is_hit m j ≡ true) ⊎ ((k : ℕ) × (get_elem? is k ≡ some j))
run_schedule-new m is ks j wide h = elim ((raced-After m is ks wide).new j h) [
  | inl before ↦ inl before
  | inr (k, t, at, same) ↦ inr (k, start-index is k t at ∙ ap some same)
]
