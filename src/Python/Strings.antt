-- ===== src/Python/Strings.antt =====
-- Multi-line strings in parseFile of src/engines/python-engine.cc.
use kcov.Prelude.{
  ℕ, ◌+◌, ◌≡◌, ◌∙◌, Bool, true, false, none, some, List, ◌∷◌, ◌⊎◌, inl, inr, ◌++◌, Bytes, arith,
  ltb, if◌then◌else◌, length, drop, All, All-map_of,
}
use kcov.Strings.Search.{trim_string, blanks}
use kcov.Script.{sweep}
use kcov.Script.Sweeps.{sweep-quiet, sweep-kept, sweep_line}
use kcov.Python.Lines.{multiline_idx, is_skipped, multiline_active, Parser, new_parser, parse_step}

abbrev pub trimmed : Bytes → Bytes
trimmed line = trim_string line blanks

-- A line within a string: skipped, or without three quotes.
abbrev pub InString : Bytes → Type 0
InString line = (is_skipped (trimmed line) ≡ true) ⊎ (multiline_idx (trimmed line) ≡ none)

-- A line with three quotes that the parser looks at.
pub record Quotes (line : Bytes) (idx : ℕ) : Type 0 where
  pub looked_at : is_skipped (trimmed line) ≡ false
  pub at : multiline_idx (trimmed line) ≡ some idx

abbrev pub in_string : Bool → Parser
in_string assigned = record { state = multiline_active; multi_line_start_line = assigned }

string_body :
    (assigned : Bool) (line : Bytes)
    → InString line
    → parse_step (in_string assigned) line ≡ (in_string assigned, false)
unfolding parse_step
string_body assigned line (inl skipped) = ground (arith, skipped)
string_body assigned line (inr inside) = ground (arith, inside)

string_end :
    (assigned : Bool) (line : Bytes) (idx : ℕ)
    → Quotes line idx
    → parse_step (in_string assigned) line ≡ (new_parser, assigned)
unfolding parse_step
string_end assigned line idx q = ground (arith, q.looked_at, q.at)

-- A line that opens a string and does not close it.
pub record Opens (line : Bytes) (idx : ℕ) : Type 0 where
  pub quotes : Quotes line idx
  pub not_closed : multiline_idx (drop (idx + 3) (trimmed line)) ≡ none

string_start :
    (line : Bytes) (idx : ℕ)
    → Opens line idx
    → parse_step new_parser line ≡ (in_string (ltb 0 idx), false)
unfolding parse_step
string_start line idx o = ground (arith, o.quotes.looked_at, o.quotes.at, o.not_closed)

-- A string over several lines, of any length: it has no line of code if its quotes stand at the
-- start of its first line, and else its last line is code. The rest is parsed as though the
-- string were not there.
pub sweep-multiline :
    (n : ℕ) (first : Bytes) (body : List Bytes) (end_ : Bytes) (rest : List Bytes) (idx close : ℕ)
    → Opens first idx
    → All InString body
    → Quotes end_ close
    → sweep parse_step new_parser n (first ∷ body ++ end_ ∷ rest) ≡ (
        let rest' = sweep parse_step new_parser (n + length body + 2) rest in
        if ltb 0 idx then (n + length body + 2) ∷ rest' else rest')
sweep-multiline n first body end_ rest idx close opens inside closes =
    sweep-quiet parse_step new_parser (in_string (ltb 0 idx)) n first (body ++ end_ ∷ rest)
      (string_start first idx opens)
    ∙ sweep-kept parse_step (in_string (ltb 0 idx)) (n + 1) body (end_ ∷ rest)
        (All-map_of InString _ body (string_body (ltb 0 idx)) inside)
    ∙ sweep_line parse_step _ _ (n + 1 + length body) _ end_ rest _
        (string_end (ltb 0 idx) end_ close closes) (omega arith)
