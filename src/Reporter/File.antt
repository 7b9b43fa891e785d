-- ===== src/Reporter/File.antt =====
-- Reporter::File of src/reporter.cc: the lines of one source file, by their numbers. A Line * is an
-- index into the list of all Line objects, the heap.
use kcov.Prelude.{
  ℕ, ◌+◌, ◌-◌, ◌%◌, ◌^◌, Bool, false, not, Option, none, some, List, [], ◌∷◌, ◌++◌, Bytes, eqb, leb,
  if◌then◌else◌, length, get_elem?, set, replicate,
}
use kcov.Endian.{Host}
use kcov.Reporter.Line
use kcov.Reporter.Line.{Line}

abbrev pub Heap : Type 0
Heap = List Line

pub record File : Type 0 where
  pub file_hash : ℕ
  pub lines : List (Option ℕ)
  pub nr_lines : ℕ

unfoldable pub new_file : ℕ → File
new_file hash = record { file_hash = hash; lines = []; nr_lines = 0 }

-- m_lines.resize(n) for an n that is not below the size. (lineNr + 1 is an unsigned int, so a line
-- number of 2 ^ 32 - 1 is outside the model.)
abbrev pub resize : ℕ → List (Option ℕ) → List (Option ℕ)
resize n lines = lines ++ replicate (n - length lines) none

-- `unreachable` is line->isUnreachable().
unfoldable pub add_line : File → ℕ → ℕ → Bool → File
add_line f line_nr line unreachable =
    let lines = (if leb (length f.lines) line_nr then resize (line_nr + 1) f.lines else f.lines) in
    record f {
      lines = set lines line_nr (some line);
      nr_lines = if unreachable then f.nr_lines else (f.nr_lines + 1) % 2 ^ 32;
    }

abbrev pub slot : Option (Option ℕ) → Option ℕ
slot none = none
slot (some line) = line

unfoldable pub get_line : File → ℕ → Option ℕ
get_line f line_nr = if leb (length f.lines) line_nr then none else slot (get_elem? f.lines line_nr)

-- What `cur->…` reads in the loops below: the line object, where the slot is not NULL.
abbrev pub target : Heap → Option ℕ → Option Line
target heap none = none
target heap (some line) = get_elem? heap line

abbrev pub marshal_target : Host → Option Line → Bytes
marshal_target host none = []
marshal_target host (some l) = Line.marshal host l

unfoldable pub marshal_lines : Host → Heap → List (Option ℕ) → Bytes
marshal_lines host heap [] = []
marshal_lines host heap (cur ∷ rest) =
    marshal_target host (target heap cur) ++ marshal_lines host heap rest

abbrev pub size_target : Option Line → ℕ
size_target none = 0
size_target (some l) = Line.marshal_size l

unfoldable pub marshal_size_lines : Heap → List (Option ℕ) → ℕ
marshal_size_lines heap [] = 0
marshal_size_lines heap (cur ∷ rest) = size_target (target heap cur) + marshal_size_lines heap rest

-- !!cur->hits() for a line that is not unreachable.
abbrev pub executed_target : Option Line → ℕ
executed_target none = 0
executed_target (some l) = if l.unreachable then 0 else (if eqb (Line.hits l) 0 then 0 else 1)

unfoldable pub executed_loop : Heap → ℕ → List (Option ℕ) → ℕ
executed_loop heap out [] = out
executed_loop heap out (cur ∷ rest) =
    executed_loop heap ((out + executed_target (target heap cur)) % 2 ^ 32) rest

unfoldable pub get_executed_lines : Heap → File → ℕ
get_executed_lines heap f = executed_loop heap 0 f.lines

abbrev pub reachable_target : Option Line → Bool
reachable_target none = false
reachable_target (some l) = not l.unreachable

unfoldable pub line_is_code : Heap → File → ℕ → Bool
line_is_code heap f line_nr =
    if leb (length f.lines) line_nr
    then false
    else reachable_target (target heap (slot (get_elem? f.lines line_nr)))
