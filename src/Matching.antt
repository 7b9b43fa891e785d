-- ===== src/Matching.antt =====
-- src/parser-manager.cc and src/engine-factory.cc: which file parser and which engine a program
-- gets. A parser or an engine is what its matchParser or matchFile answers for the program's file;
-- the result is its place among those registered. An answer is the same each time it is asked for.
use kcov.Prelude.{
  ℕ, suc, ◌+◌, ◌≤◌, ◌<◌, ◌≡◌, refl, ◌∙◌, ap, ◌⊎◌, inl, inr, Bool, true, Option, none, some, List,
  [], ◌∷◌, arith, eqb, ltb, if◌then◌else◌, get_elem?, Bool-cases, take, All, All-map_of,
}

abbrev pub match_none : ℕ
match_none = 0

-- `best` and `pre_val`.
abbrev pub Best : Type 0
Best = Option (ℕ × ℕ)

abbrev pub better : ℕ → ℕ → Best → Best
better at my_val none = some (at, my_val)
better at my_val (some (best, pre_val)) =
    if ltb pre_val my_val then some (at, my_val) else some (best, pre_val)

-- The loop of matchParser, at the parser number `at`.
unfoldable pub match_loop : ℕ → Best → List ℕ → Best
match_loop at best [] = best
match_loop at best (my_val ∷ vals) =
    match_loop (at + 1) (if eqb my_val match_none then best else better at my_val best) vals

abbrev place : Best → Option ℕ
place none = none
place (some (best, pre_val)) = some best

-- matchParser; its first argument tells whether the program's file can be read.
unfoldable pub match_parser : Bool → List ℕ → Option ℕ
match_parser readable vals = if readable then place (match_loop 0 none vals) else none

-- The loop of matchEngine: the first is the best at first, and a better one must exceed it.
unfoldable pub engine_loop : ℕ → Best → List ℕ → Best
engine_loop at best [] = best
engine_loop at best (val ∷ vals) = engine_loop (at + 1) (better at val best) vals

-- `none` is the panic where no engine is registered.
unfoldable pub match_engine : List ℕ → Option ℕ
match_engine vals = place (engine_loop 0 none vals)

-- The value to exceed.
abbrev bound : Best → ℕ
bound none = 0
bound (some (best, pre_val)) = pre_val

-- The first of the values that exceed `n` and are the largest is at `k`.
abbrev pub IsFirstLargest : List ℕ → ℕ → ℕ → ℕ → Type 0
IsFirstLargest vals n k w =
    (get_elem? vals k ≡ some w) × (n < w) × All (λ v. v < w) (take k vals) × All (λ v. v ≤ w) vals

abbrev LoopResult : ℕ → Best → List ℕ → Best → Type 0
LoopResult at best vals r =
    ((r ≡ best) × All (λ v. v ≤ bound best) vals)
    ⊎ ((k : ℕ) × (w : ℕ) × (r ≡ some (at + k, w)) × IsFirstLargest vals (bound best) k w)

match_step :
    (at val : ℕ) (best : Best)
    → (if eqb val match_none then best else better at val best)
      ≡ (if ltb (bound best) val then some (at, val) else best)
match_step at val none = ground arith
match_step at val (some (b, w)) = ground arith

match_loop-LoopResult :
    (at : ℕ) (best : Best) (vals : List ℕ) → LoopResult at best vals (match_loop at best vals)
unfolding match_loop
match_loop-LoopResult at best [] = inl (refl, tt)
match_loop-LoopResult at best (val ∷ vals) =
    let step = match_step at val best in
    elim (Bool-cases (ltb (bound best) val)) [
      | inl exceeds ↦
          let taken : (if eqb val match_none then best else better at val best) ≡ some (at, val) =
            step ∙ ap (λ b. if b then some (at, val) else best) exceeds in
          let zero_at : at ≡ at + 0 = omega arith in
          let more : bound best < val = ground arith in
          elim (match_loop-LoopResult (at + 1) (some (at, val)) vals) [
            | inl (same, le) ↦ inr (
              0,
              val,
              rw taken (same ∙ ap (λ a. some (a, val)) zero_at),
              (refl, more, tt, (omega arith, le)),
            )
            | inr (k, w, is, (there, gt, lt, le)) ↦
                let place_ : (at + 1) + k ≡ at + suc k = omega arith in
                inr (
                  suc k,
                  w,
                  rw taken (is ∙ ap (λ a. some (a, w)) place_),
                  (there, omega (arith, more, gt), (gt, lt), (omega (arith, gt), le)),
                )
          ]
      | inr below ↦
          let kept : (if eqb val match_none then best else better at val best) ≡ best =
            step ∙ ap (λ b. if b then some (at, val) else best) below in
          let small : val ≤ bound best = ground arith in
          elim (match_loop-LoopResult (at + 1) best vals) [
            | inl (same, le) ↦ inl (rw kept same, (small, le))
            | inr (k, w, is, (there, gt, lt, le)) ↦
                let place_ : (at + 1) + k ≡ at + suc k = omega arith in
                inr (
                  suc k,
                  w,
                  rw kept (is ∙ ap (λ a. some (a, w)) place_),
                  (there, gt, (omega (arith, small, gt), lt), (omega (arith, small, gt), le)),
                )
          ]
    ]

-- For a file that can be read, matchParser gives no parser exactly because none matches, and otherwise the first one of those
-- that match best.
pub match_parser-best :
    (vals : List ℕ)
    → ((match_parser true vals ≡ none) × All (λ v. v ≡ match_none) vals)
      ⊎ ((k : ℕ) × (w : ℕ) × (match_parser true vals ≡ some k) × IsFirstLargest vals match_none k w)
unfolding match_parser
match_parser-best vals = elim (match_loop-LoopResult 0 none vals) [
  | inl (same, le) ↦ inl (
    ap place same,
    All-map_of (λ v. v ≤ 0) (λ v. v ≡ match_none) vals (λ v l. omega (arith, l)) le,
  )
  | inr (k, w, is, first) ↦
      let at : 0 + k ≡ k = omega arith in inr (k, w, ap place is ∙ ap some at, first)
]

engine_step :
    (at val b w : ℕ)
    → better at val (some (b, w))
      ≡ (if eqb val match_none then some (b, w) else better at val (some (b, w)))
engine_step at val b w = ground arith

-- Behind the first engine the two loops agree.
engine_loop-match_loop :
    (at : ℕ) (best : ℕ × ℕ) (vals : List ℕ)
    → engine_loop at (some best) vals ≡ match_loop at (some best) vals
unfolding engine_loop match_loop
engine_loop-match_loop at best [] = refl
engine_loop-match_loop at (b, w) (val ∷ vals) = elim (Bool-cases (ltb w val)) [
  | inl exceeds ↦
      let step : better at val (some (b, w)) ≡ some (at, val) = ground arith in
      rw (← engine_step at val b w, step) (engine_loop-match_loop (at + 1) (at, val) vals)
  | inr below ↦
      let step : better at val (some (b, w)) ≡ some (b, w) = ground arith in
      rw (← engine_step at val b w, step) (engine_loop-match_loop (at + 1) (b, w) vals)
]

-- Where an engine is registered, matchEngine does not panic and gives the first one of those that
-- match best.
pub match_engine-best :
    (val : ℕ) (vals : List ℕ)
    → (k : ℕ) × (w : ℕ) × (match_engine (val ∷ vals) ≡ some k)
      × (get_elem? (val ∷ vals) k ≡ some w)
      × All (λ v. v < w) (take k (val ∷ vals))
      × All (λ v. v ≤ w) (val ∷ vals)
unfolding match_engine engine_loop
match_engine-best val vals =
    let loop = engine_loop-match_loop 1 (0, val) vals in
    elim (match_loop-LoopResult 1 (some (0, val)) vals) [
      | inl (same, le) ↦ (0, val, ap place (loop ∙ same), refl, tt, (omega arith, le))
      | inr (k, w, is, (there, gt, lt, le)) ↦
          let at : 1 + k ≡ suc k = omega arith in
          (suc k, w, ap place (loop ∙ is) ∙ ap some at, there, (gt, lt), (omega (arith, gt), le))
    ]
