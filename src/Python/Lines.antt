-- ===== src/Python/Lines.antt =====
-- parseFile of src/engines/python-engine.cc, for one line of a program.
use kcov.Prelude.{
  ℕ, ◌+◌, Bool, true, false, not, ◌&&◌, ◌||◌, Option, none, some, [], ◌∷◌, Bytes, ascii, bytes_eq,
  eqb, ltb, leb, if◌then◌else◌, length, drop,
}
use kcov.Strings.Find.{starts_with, contains}
use kcov.Strings.Search.{position, last_is, is_empty, trim_string, blanks}

-- "'''"
abbrev single_quotes : Bytes
single_quotes = 39 ∷ 39 ∷ 39 ∷ []

abbrev or_else : Option ℕ → Option ℕ → Option ℕ
or_else none idx = idx
or_else (some idx) other = some idx

unfoldable pub multiline_idx : Bytes → Option ℕ
multiline_idx s = or_else (position s single_quotes) (position s (ascii "\"\"\""))

abbrev pub is_string_delimiter : ℕ → Bool
is_string_delimiter c = eqb c 39 || eqb c b'"'

abbrev pub only_delimiters : Bytes → Bool
only_delimiters [] = true
only_delimiters (c ∷ s) = is_string_delimiter c && only_delimiters s

abbrev pub first_is_delimiter : Bytes → Bool
first_is_delimiter [] = false
first_is_delimiter (c ∷ s) = is_string_delimiter c

-- A string literal on one line.
unfoldable pub is_python_string : Bytes → Bool
is_python_string s =
    leb 2 (length s)
    && (first_is_delimiter s && ((last_is s 39 || last_is s b'"') && not (only_delimiters s)))

-- The lines that generate no code, whatever stands before them.
unfoldable pub is_skipped : Bytes → Bool
is_skipped s =
    is_empty s
    || (starts_with s (ascii "#")
        || (bytes_eq s (ascii "}")
            || (bytes_eq s (ascii "},")
                || (bytes_eq s (ascii "]")
                    || (bytes_eq s (ascii "],")
                        || (bytes_eq s (ascii "[")
                            || (contains s (ascii "else:")
                                || (contains s (ascii "finally:") || is_python_string s))))))))

pub data LineState : Type 0 where
  start multiline_active : LineState

-- The variables of the loop.
pub record Parser : Type 0 where
  pub state : LineState
  pub multi_line_start_line : Bool

abbrev pub new_parser : Parser
new_parser = record { state = start; multi_line_start_line = false }

-- A line with three quotes at `idx`, behind which three more end the string, or do not.
abbrev pub opening_line : Parser → ℕ → Option ℕ → Parser × Bool
opening_line p idx (some end_) = (p, true)
opening_line p idx none = (
  record {
    state = multiline_active;
    multi_line_start_line = if ltb 0 idx then true else p.multi_line_start_line;
  },
  false,
)

-- In the state `start`.
abbrev pub start_line : Parser → Bytes → Option ℕ → Parser × Bool
start_line p s none = (p, true)
start_line p s (some idx) = opening_line p idx (multiline_idx (drop (idx + 3) s))

-- In the state `multiline_active`: the last line counts where the first one had code.
abbrev pub string_line : Parser → Option ℕ → Parser × Bool
string_line p none = (p, false)
string_line p (some idx) =
    (record { state = start; multi_line_start_line = false }, p.multi_line_start_line)

abbrev pub line_in : LineState → Parser → Bytes → Parser × Bool
line_in start p s = start_line p s (multiline_idx s)
line_in multiline_active p s = string_line p (multiline_idx s)

-- One round of the loop: is the line code?
unfoldable pub parse_step : Parser → Bytes → Parser × Bool
parse_step p line =
    let s = trim_string line blanks in if is_skipped s then (p, false) else line_in p.state p s
