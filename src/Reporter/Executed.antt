-- ===== src/Reporter/Executed.antt =====
-- The totals of getExecutionSummary in src/reporter.cc under the invariant.
use kcov.Prelude.{
  ℕ, ◌+◌, ◌%◌, ◌^◌, ◌≤◌, ◌<◌, ◌≡◌, Option, List, [], ◌∷◌, Bytes, arith, length, Bool-cases, inl,
  inr, name_key,
}
use kcov.Prelude.Table.{Table, AllValues}
use kcov.Reporter.Line.{Line}
use kcov.Reporter.File
use kcov.Reporter.File.{File, Heap, target, executed_target, executed_loop, reachable_target}
use kcov.Reporter.Env.{Env}
use kcov.Reporter.Valid.{FileIsValid, reachable_count, one_if}
use kcov.Reporter.Hits.{IsValid}
use kcov.Reporter.State.{Reporter}
use kcov.Reporter.Summary.{ExecutionSummary, summary_loop, get_execution_summary}

executed_count : Heap → List (Option ℕ) → ℕ
executed_count heap [] = 0
executed_count heap (s ∷ ss) = executed_target (target heap s) + executed_count heap ss

executed-le-reachable : (o : Option Line) → executed_target o ≤ one_if (reachable_target o)
executed-le-reachable o = ground arith

reachable-le-one : (o : Option Line) → one_if (reachable_target o) ≤ 1
reachable-le-one o = ground arith

executed_count-le :
    (heap : Heap) (ss : List (Option ℕ)) → executed_count heap ss ≤ reachable_count heap ss
unfolding executed_count reachable_count
executed_count-le heap [] = omega arith
executed_count-le heap (s ∷ ss) =
    omega (arith, executed-le-reachable (target heap s), executed_count-le heap ss)

reachable_count-le : (heap : Heap) (ss : List (Option ℕ)) → reachable_count heap ss ≤ length ss
unfolding reachable_count
reachable_count-le heap [] = omega arith
reachable_count-le heap (s ∷ ss) =
    omega (arith, reachable-le-one (target heap s), reachable_count-le heap ss)

executed_loop-count :
    (heap : Heap) (out : ℕ) (ss : List (Option ℕ))
    → out + length ss < 2 ^ 32
    → executed_loop heap out ss ≡ out + executed_count heap ss
unfolding executed_loop executed_count
executed_loop-count heap out [] h = omega arith
executed_loop-count heap out (s ∷ ss) h =
    let one : executed_target (target heap s) ≤ 1 = ground arith in
    let e : (out + executed_target (target heap s)) % 2 ^ 32
        ≡ out + executed_target (target heap s) =
      omega arith in
    rw e (
      omega
        (arith, executed_loop-count heap (out + executed_target (target heap s)) ss (omega arith)))

-- A file's executed lines are among its counted lines.
file_bounds :
    (heap : Heap) (f : File)
    → FileIsValid heap f
    → length f.lines < 2 ^ 32
    → (File.get_executed_lines heap f ≤ f.nr_lines) × (f.nr_lines ≤ length f.lines)
unfolding File.get_executed_lines
file_bounds heap f v small = omega (
  arith,
  executed_loop-count heap 0 f.lines (omega arith),
  executed_count-le heap f.lines,
  reachable_count-le heap f.lines,
  v.counts,
)

-- The line slots of all files.
unfoldable pub slots_of : Table Bytes File → ℕ
slots_of [] = 0
slots_of ((name, f) ∷ files) = length f.lines + slots_of files

summary_step :
    (env : Env) (heap : Heap) (name : Bytes) (f : File) (s : ExecutionSummary)
    → FileIsValid heap f
    → s.executed_lines ≤ s.lines
    → s.lines + length f.lines < 2 ^ 32
    → (s' : ExecutionSummary) × ((files : Table Bytes File)
        → summary_loop env heap s ((name, f) ∷ files) ≡ summary_loop env heap s' files)
      × (s'.executed_lines ≤ s'.lines)
      × (s'.lines ≤ s.lines + length f.lines)
unfolding summary_loop
summary_step env heap name f s v le small =
    let (executed, counted) = file_bounds heap f v (omega arith) in
    let sums : ExecutionSummary = record s {
      lines = (s.lines + f.nr_lines) % 2 ^ 32;
      executed_lines = (s.executed_lines + File.get_executed_lines heap f) % 2 ^ 32;
    } in
    elim (Bool-cases (env.file_exists name)) [
      | inr missing ↦ (s, λ files. ground arith, le, omega arith)
      | inl there ↦ elim (Bool-cases (env.run_filters name)) [
        | inr excluded ↦ (s, λ files. ground arith, le, omega arith)
        | inl included ↦ (sums, λ files. ground arith, omega arith, omega arith)
      ]
    ]

summary_loop-le :
    (env : Env) (heap : Heap) (s : ExecutionSummary) (files : Table Bytes File)
    → AllValues (FileIsValid heap) files
    → s.executed_lines ≤ s.lines
    → s.lines + slots_of files < 2 ^ 32
    → (summary_loop env heap s files).executed_lines ≤ (summary_loop env heap s files).lines
unfolding slots_of
summary_loop-le env heap s [] v le small = unfold summary_loop in le
summary_loop-le env heap s ((name, f) ∷ files) v le small =
    let (s', step, le', grow) = summary_step env heap name f s v.0 le (omega arith) in
    rw (step files) (summary_loop-le env heap s' files v.1 le' (omega arith))

-- In a valid state no more lines are executed than there are lines in total, so that the coverage
-- is at most 100 percent. The files are assumed to have less than 2 ^ 32 lines together.
pub executed-le-lines :
    (env : Env) (r : Reporter)
    → IsValid r
    → slots_of r.files < 2 ^ 32
    → (get_execution_summary env r).executed_lines ≤ (get_execution_summary env r).lines
unfolding get_execution_summary
executed-le-lines env r v small =
    summary_loop-le env r.heap _ r.files v.files_valid (omega arith) (omega arith)
