-- ===== src/Bash/Lines.antt =====
-- parseFileBasic and parseFileFull of src/engines/bash-engine.cc, for one line of a script.
use kcov.Prelude.{
  ℕ, zero, suc, ◌+◌, ◌-◌, Bool, true, false, not, ◌&&◌, ◌||◌, Option, none, some, [], ◌∷◌, Bytes,
  ascii, bytes_eq, eqb, ltb, leb, if◌then◌else◌, length, take, drop,
}
use kcov.Strings.Find.{starts_with, contains}
use kcov.Strings.Search.{
  position, occurs_until, is_before, char_at_is, last_is, is_empty, count_char, trim_string, blanks,
}

-- What follows a "#" at `comment` is kept: $# and ${#variable}, and where a quote stands before it.
abbrev is_kept_at : Bytes → ℕ → Bool
is_kept_at s comment =
    (leb 1 comment && char_at_is s (comment - 1) b'$')
    || ((leb 2 comment
          && (occurs_until s (ascii "${") comment && contains (drop comment s) (ascii "}")))
        || (leb 1 comment
            && (is_before (position s (b'"' ∷ [])) comment
                || is_before (position s (39 ∷ [])) comment)))

abbrev pub cut_comment : Bytes → Option ℕ → Bytes
cut_comment s none = s
cut_comment s (some comment) =
    if is_kept_at s comment then s else take comment (trim_string s blanks)

-- A line without the blanks around it and without its comment.
unfoldable pub strip_line : Bytes → Bytes
strip_line line = let s = trim_string line blanks in cut_comment s (position s (b'#' ∷ []))

abbrev is_ending : Bytes → Bool
is_ending s =
    bytes_eq s (ascii "esac")
    || (bytes_eq s (ascii "fi")
        || (bytes_eq s (ascii "do")
            || (bytes_eq s (ascii "done")
                || (bytes_eq s (ascii "else") || bytes_eq s (ascii "then")))))

-- parseFileBasic: is the line code?
unfoldable pub basic_is_code : Bytes → Bool
unfolding strip_line
basic_is_code line =
    let s = strip_line line in
    not (
      is_empty s
      || (is_ending s
          || (bytes_eq s (ascii "}")
              || (bytes_eq s (ascii "{")
                  || (bytes_eq s (ascii ")")
                      || (bytes_eq s (ascii "(") || starts_with s (ascii "function")))))))

-- The loop that goes back over the spaces before "()".
unfoldable pub skip_spaces : Bytes → ℕ → ℕ
skip_spaces s zero = zero
skip_spaces s (suc pos) =
    let before = skip_spaces s pos in
    if ltb 1 (suc pos) && char_at_is s pos b' ' then before else suc pos

-- A single word before "()".
abbrev is_function_at : Bytes → Option ℕ → Bool
is_function_at s none = false
is_function_at s (some fn_pos) = not (contains (take (skip_spaces s fn_pos) s) (b' ' ∷ []))

-- The tests of parseFileFull that come before its states.
unfoldable pub is_skipped : Bytes → Bool
is_skipped s =
    is_empty s
    || (starts_with s (ascii ";;")
        || (bytes_eq s (ascii "{")
            || (bytes_eq s (ascii "}")
                || (bytes_eq s (ascii "(")
                    || (bytes_eq s (ascii ")")
                        || (is_ending s
                            || (starts_with s (ascii "function")
                                || is_function_at s (position s (ascii "()")))))))))

pub data LineState : Type 0 where
  none_ backslash quote heredoc : LineState

-- The variables of parseFileFull's loop.
pub record Parser : Type 0 where
  pub state : LineState
  pub case_active : Bool
  pub arithmetic_active : Bool
  pub heredoc_marker : Bytes

abbrev pub new_parser : Parser
new_parser = record {
  state = none_;
  case_active = false;
  arithmetic_active = false;
  heredoc_marker = [];
}

-- The word up to the first space or tab.
abbrev first_word : Bytes → Bytes
first_word [] = []
first_word (c ∷ s) = let rest = first_word s in if eqb c b' ' || eqb c 9 then [] else c ∷ rest

abbrev drop_dash : Bytes → Bytes
drop_dash [] = []
drop_dash (c ∷ s) = if eqb c b'-' then s else c ∷ s

-- Quotes around the marker are removed.
abbrev un_quote : Bytes → Bytes
un_quote [] = []
un_quote (c ∷ s) =
    if ltb 2 (length (c ∷ s)) && ((eqb c b'"' || eqb c 39) && last_is (c ∷ s) c)
    then take (length (c ∷ s) - 2) s
    else c ∷ s

-- The marker of a line whose "<<" is at `start`.
unfoldable pub marker_at : Bytes → ℕ → Bytes
marker_at s start = un_quote (first_word (trim_string (drop_dash (drop (start + 2) s)) blanks))

-- A marker that is a word, and no further "<".
abbrev is_marker : Bytes → Bool
is_marker [] = false
is_marker (c ∷ s) = not (eqb c b'<')

-- The line opens a multi-line string assignment.
abbrev opens_quote : Bytes → Bool
opens_quote s = (contains s (ascii "=\"") || contains s (ascii "= \"")) && eqb (count_char b'"' s) 1

abbrev opens_heredoc : Parser → Bytes → Bool
opens_heredoc p s =
    not p.arithmetic_active
    && (not (starts_with s (ascii "let "))
        && (not (contains s (ascii "$((")) && not (contains s (ascii "))"))))

-- A closing parenthesis at the end, where the line does not open one behind its first character.
abbrev is_unopened : Option ℕ → Bool
is_unopened none = true
is_unopened (some zero) = true
is_unopened (some (suc pos)) = false

-- From the case handling on.
abbrev finish_line : Parser → Bytes → Parser × Bool
finish_line p s =
    let case_active =
      (if starts_with s (ascii "case")
        then true
        else if starts_with s (ascii "esac")
        then false
        else p.case_active) in
    let arithmetic_active =
      (if contains s (ascii "))") || contains s (ascii "]") then false else p.arithmetic_active) in
    (
      record p { case_active = case_active; arithmetic_active = arithmetic_active },
      not (
          arithmetic_active
          || (case_active && (last_is s b')' && is_unopened (position s (b'(' ∷ []))))),
    )

abbrev with_heredoc : Parser → Bytes → Option ℕ → Parser × Bool
with_heredoc p s none = finish_line p s
with_heredoc p s (some start) =
    let marker = marker_at s start in
    let p' = record p {
      heredoc_marker = marker;
      state = if is_marker marker then heredoc else p.state;
    } in
    if bytes_eq (trim_string (take start s) blanks) (ascii "done")
    then (p', false)
    else finish_line p' s

-- From the arithmetic on, where no line before has a say.
unfoldable pub open_line : Parser → Bytes → Parser × Bool
unfolding marker_at
open_line p s =
    let p₁ = record p {
      arithmetic_active =
          if contains s (ascii "$((") || contains s (ascii "$[") then true else p.arithmetic_active;
    } in
    if last_is s 92
    then finish_line (record p₁ { state = backslash }) s
    else if opens_quote s
    then (record p₁ { state = quote }, false)
    else with_heredoc p₁ s (if opens_heredoc p₁ s then position s (ascii "<<") else none)

abbrev is_last_quote : Bytes → Option ℕ → Bool
is_last_quote s none = false
is_last_quote s (some pos) = eqb pos (length s - 1)

-- A line that is not skipped, in each state of the loop.
unfoldable pub line_in : LineState → Parser → Bytes → Parser × Bool
line_in none_ p s = open_line p s
line_in backslash p s = (record p { state = if last_is s 92 then backslash else none_ }, false)
line_in quote p s =
    if is_last_quote s (position s (b'"' ∷ []))
    then open_line (record p { state = none_ }) s
    else (p, false)
line_in heredoc p s = (
  record p {
    state =
        if bytes_eq (trim_string s (b' ' ∷ 9 ∷ 13 ∷ 10 ∷ b'`' ∷ [])) p.heredoc_marker
        then none_
        else heredoc;
  },
  false,
)

-- One round of the loop: is the line code?
unfoldable pub full_step : Parser → Bytes → Parser × Bool
full_step p line =
    let s = strip_line line in if is_skipped s then (p, false) else line_in p.state p s
