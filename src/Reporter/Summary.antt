-- ===== src/Reporter/Summary.antt =====
-- The queries of Reporter in src/reporter.cc: fileIsIncluded, lineIsCode, getLineExecutionCount,
-- getExecutionSummary.
use kcov.Prelude.{
  ℕ, ◌+◌, ◌%◌, ◌^◌, Bool, true, false, not, Option, none, some, [], ◌∷◌, Bytes, if◌then◌else◌,
  name_key,
}
use kcov.Prelude.Table.{Table, find}
use kcov.Reporter.Line
use kcov.Reporter.Line.{Line}
use kcov.Reporter.File
use kcov.Reporter.File.{File, Heap, target}
use kcov.Reporter.Env.{Env, single_shot}
use kcov.Reporter.State.{Reporter}

-- IReporter::LineExecutionCount and IReporter::ExecutionSummary
pub record LineExecutionCount : Type 0 where
  pub hits : ℕ
  pub possible_hits : ℕ
  pub order : ℕ

pub record ExecutionSummary : Type 0 where
  pub lines : ℕ
  pub executed_lines : ℕ
  pub include_in_totals : Bool

unfoldable pub file_is_included : Env → Bytes → Bool
file_is_included env file = env.run_filters file

abbrev code_in : Heap → ℕ → Option File → Bool
code_in heap nr none = false
code_in heap nr (some f) = File.line_is_code heap f nr

unfoldable pub line_is_code : Reporter → Bytes → ℕ → Bool
line_is_code r file nr = code_in r.heap nr (find file r.files)

abbrev no_count : LineExecutionCount
no_count = record { hits = 0; possible_hits = 0; order = 0 }

abbrev pub line_count : Env → Option Line → LineExecutionCount
line_count env none = no_count
line_count env (some l) =
    if not l.unreachable
    then record {
      hits = Line.hits l;
      possible_hits = Line.possible_hits l (single_shot env);
      order = l.order;
    }
    else no_count

abbrev pub count_in : Env → Heap → ℕ → Option File → LineExecutionCount
count_in env heap nr none = no_count
count_in env heap nr (some f) = line_count env (target heap (File.get_line f nr))

unfoldable pub get_line_execution_count : Env → Reporter → Bytes → ℕ → LineExecutionCount
get_line_execution_count env r file nr = count_in env r.heap nr (find file r.files)

-- The loop over m_files; files that do not exist or are filtered out are passed over.
unfoldable pub summary_loop : Env → Heap → ExecutionSummary → Table Bytes File → ExecutionSummary
summary_loop env heap s [] = s
summary_loop env heap s ((name, f) ∷ files) =
    summary_loop env heap
      (if not (env.file_exists name)
        then s
        else if not (env.run_filters name)
        then s
        else record s {
          lines = (s.lines + f.nr_lines) % 2 ^ 32;
          executed_lines = (s.executed_lines + File.get_executed_lines heap f) % 2 ^ 32;
        })
      files

unfoldable pub get_execution_summary : Env → Reporter → ExecutionSummary
get_execution_summary env r =
    summary_loop env r.heap (record { lines = 0; executed_lines = 0; include_in_totals = true })
      r.files
