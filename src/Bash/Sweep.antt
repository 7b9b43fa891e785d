-- ===== src/Bash/Sweep.antt =====
-- parseFileFull and parseFileBasic of src/engines/bash-engine.cc over the lines of a script:
-- here-documents, lines with a backslash at their end, and which lines are found.
use kcov.Prelude.{
  ℕ, ◌+◌, ◌≡◌, ◌∙◌, Bool, true, false, not, ◌&&◌, ◌||◌, List, [], ◌∷◌, ◌++◌, Bytes, arith, bytes_eq,
  length, if_both, All, All-map_of,
}
use kcov.Strings.Search.{trim_string, last_is}
use kcov.Script.{Env, sweep}
use kcov.Script.Sweeps.{Ascending, Found, sweep-Ascending, sweep-Found, sweep-quiet, sweep-kept}
use kcov.Bash.Lines.{
  strip_line, basic_is_code, is_skipped, LineState, none_, backslash, heredoc, Parser, new_parser,
  line_in, full_step,
}
use kcov.Bash.Code.{HasCode, strip_line-HasCode}
use kcov.Bash.Engine.{code_lines}

-- The line that ends the here-document whose marker was read: one that the parser looks at, and
-- that, without blanks and back-quotes around it, is the marker.
abbrev pub ends_document : Bytes → Bytes → Bool
ends_document marker line =
    let s = strip_line line in
    not (is_skipped s) && bytes_eq (trim_string s (b' ' ∷ 9 ∷ 13 ∷ 10 ∷ b'`' ∷ [])) marker

abbrev pub InDocument : Bytes → Bytes → Type 0
InDocument marker line = ends_document marker line ≡ false

-- A line that goes on, or that is skipped, behind a line with a backslash at its end.
abbrev pub Continues : Bytes → Type 0
Continues line = is_skipped (strip_line line) || last_is (strip_line line) 92 ≡ true

-- The parser in a state.
abbrev pub in_state : LineState → Parser → Parser
in_state state p = record p { state = state }

document_line :
    (p : Parser) (line : Bytes)
    → InDocument p.heredoc_marker line
    → full_step (in_state heredoc p) line ≡ (in_state heredoc p, false)
unfolding full_step line_in
document_line p line inside = ground arith

document_end :
    (p : Parser) (line : Bytes)
    → ends_document p.heredoc_marker line ≡ true
    → full_step (in_state heredoc p) line ≡ (in_state none_ p, false)
unfolding full_step line_in
document_end p line ends = ground arith

continued_line :
    (p : Parser) (line : Bytes)
    → Continues line
    → full_step (in_state backslash p) line ≡ (in_state backslash p, false)
unfolding full_step line_in
continued_line p line goes_on = ground arith

continued_end :
    (p : Parser) (line : Bytes)
    → is_skipped (strip_line line) || last_is (strip_line line) 92 ≡ false
    → full_step (in_state backslash p) line ≡ (in_state none_ p, false)
unfolding full_step line_in
continued_end p line ends = ground arith

-- Lines that leave the parser as it is, and one that brings it back to its first state: none of
-- them is code, and the rest is parsed as though they were not there.
sweep_block :
    (st : LineState) (p : Parser) (n : ℕ) (body : List Bytes) (end_ : Bytes) (rest : List Bytes)
    → All (λ line. full_step (in_state st p) line ≡ (in_state st p, false)) body
    → full_step (in_state st p) end_ ≡ (in_state none_ p, false)
    → sweep full_step (in_state st p) n (body ++ end_ ∷ rest)
      ≡ sweep full_step (in_state none_ p) (n + length body + 1) rest
sweep_block st p n body end_ rest inside ends =
    sweep-kept full_step (in_state st p) n body (end_ ∷ rest) inside
    ∙ sweep-quiet full_step (in_state st p) (in_state none_ p) (n + length body) end_ rest ends

-- A here-document of any length, from the line behind the one that opens it to its end line, has
-- no line of code, and the lines behind it are parsed with the case and arithmetic flags that
-- stood when it was opened.
pub sweep-heredoc :
    (p : Parser) (n : ℕ) (body : List Bytes) (end_ : Bytes) (rest : List Bytes)
    → All (InDocument p.heredoc_marker) body
    → ends_document p.heredoc_marker end_ ≡ true
    → sweep full_step (in_state heredoc p) n (body ++ end_ ∷ rest)
      ≡ sweep full_step (in_state none_ p) (n + length body + 1) rest
sweep-heredoc p n body end_ rest inside ends =
    sweep_block heredoc p n body end_ rest
      (All-map_of (InDocument p.heredoc_marker) _ body (document_line p) inside)
      (document_end p end_ ends)

-- Behind a line with a backslash at its end, the lines that go on (each with a backslash at its
-- end, or skipped) and the first that does not are no code, and the rest is parsed as behind a
-- line without a backslash.
pub sweep-backslash :
    (p : Parser) (n : ℕ) (body : List Bytes) (end_ : Bytes) (rest : List Bytes)
    → All Continues body
    → is_skipped (strip_line end_) || last_is (strip_line end_) 92 ≡ false
    → sweep full_step (in_state backslash p) n (body ++ end_ ∷ rest)
      ≡ sweep full_step (in_state none_ p) (n + length body + 1) rest
sweep-backslash p n body end_ rest goes_on ends =
    sweep_block backslash p n body end_ rest
      (All-map_of Continues _ body (continued_line p) goes_on) (continued_end p end_ ends)

basic_is_code-HasCode : (line : Bytes) → basic_is_code line ≡ true → HasCode line
unfolding basic_is_code
basic_is_code-HasCode line code = strip_line-HasCode line (ground arith)

full_step-HasCode : (p : Parser) (line : Bytes) → (full_step p line).1 ≡ true → HasCode line
unfolding full_step is_skipped
full_step-HasCode p line code = strip_line-HasCode line (ground arith)

-- Both parsers find only line numbers of the file, from 1 to the number of its lines, in ascending
-- order (so each once), and only of lines with a character other than a space and a tab, the first
-- of which is no "#": of no line of spaces and tabs, and of no comment line.
pub code_lines-Found :
    (env : Env) (filename : Bytes)
    → Ascending 0 (length (env.get_lines filename)) (code_lines env filename)
      × All (Found HasCode (env.get_lines filename) 0) (code_lines env filename)
unfolding code_lines
code_lines-Found env filename =
    let lines = env.get_lines filename in
    if_both (λ ks. Ascending 0 (length lines) ks × All (Found HasCode lines 0) ks)
      env.use_basic_parser _ _
      (λ basic. (
        sweep-Ascending (λ _ line. (tt, basic_is_code line)) _ 0 _ lines (omega arith),
        sweep-Found (λ _ line. (tt, basic_is_code line)) HasCode
            (λ st line. basic_is_code-HasCode line) _ 0 lines,
      ))
      (λ full. (
        sweep-Ascending full_step new_parser 0 _ lines (omega arith),
        sweep-Found full_step HasCode full_step-HasCode new_parser 0 lines,
      ))
