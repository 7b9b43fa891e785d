-- ===== src/Filter/LineHandler.antt =====
-- BasicFilter::FileLineHandler of src/filter.cc: regions and lines that comments exclude.
use kcov.Prelude.{
  ascii, ℕ, ◌+◌, ◌-◌, Bool, true, false, List, [], ◌∷◌, ◌++◌, Bytes, ◌≟◌, name_key, ltb,
  if◌then◌else◌,
}
use kcov.Strings.Find.{contains}
use kcov.Strings.Split.{split_string}

-- The fields of FileLineHandler. The open regions are counted by an int in the source.
pub record LineHandler : Type 0 where
  pub cur_file : Bytes
  pub ignore_single_line : List Bytes
  pub line_begin : List Bytes
  pub line_end : List Bytes
  pub exclude_start : ℕ

-- The loop over the regions of --exclude-region, each `begin` or `begin:end`.
abbrev first_entry : List Bytes → List Bytes → List Bytes
first_entry patterns [] = patterns
first_entry patterns (e ∷ es) = patterns ++ e ∷ []

abbrev second_entry : List Bytes → List Bytes → List Bytes
second_entry patterns (e₀ ∷ e₁ ∷ es) = patterns ++ e₁ ∷ []
second_entry patterns _ = patterns

add_regions : LineHandler → List Bytes → LineHandler
add_regions h [] = h
add_regions h (cmd ∷ cmds) =
    let entries = split_string cmd b':' in
    add_regions
      (record h {
        line_begin = first_entry h.line_begin entries;
        line_end = second_entry h.line_end entries;
      })
      cmds

-- The constructor, on the values of the keys "exclude-line" and "exclude-region".
unfoldable pub new_line_handler : Bytes → Bytes → LineHandler
unfolding add_regions
new_line_handler exclude_line exclude_region =
    let h : LineHandler = record {
      cur_file = [];
      ignore_single_line =
          (ascii "LCOV_EXCL_LINE" ∷ ascii "#[should_panic]" ∷ [])
          ++ (if exclude_line ≟ [] then [] else split_string exclude_line b',');
      line_begin = ascii "LCOV_EXCL_START" ∷ [];
      line_end = ascii "LCOV_EXCL_STOP" ∷ [];
      exclude_start = 0;
    } in
    if exclude_region ≟ [] then h else add_regions h (split_string exclude_region b',')

-- The loop over the single-line patterns, which goes on behind a find.
unfoldable pub single_loop : Bool → Bytes → List Bytes → Bool
single_loop out line [] = out
single_loop out line (p ∷ ps) = single_loop (if contains line p then false else out) line ps

-- The loop over the begin patterns, which ends at the first that is found.
unfoldable pub begin_loop : ℕ → Bytes → List Bytes → ℕ
begin_loop depth line [] = depth
begin_loop depth line (p ∷ ps) =
    let rest = begin_loop depth line ps in if contains line p then depth + 1 else rest

-- The loop over the end patterns, with the clamp at 0 that follows it.
unfoldable pub end_loop : ℕ → Bytes → List Bytes → ℕ
end_loop depth line [] = depth
end_loop depth line (p ∷ ps) =
    let rest = end_loop depth line ps in if contains line p then depth - 1 else rest

swap_file : LineHandler → Bytes → LineHandler
swap_file h file_path =
    if h.cur_file ≟ file_path then h else record h { exclude_start = 0; cur_file = file_path }

-- match(filePath, lineNr, line): the handler after it, and whether the line is kept.
unfoldable pub match : LineHandler → Bytes → ℕ → Bytes → LineHandler × Bool
unfolding swap_file
match h₀ file_path line_nr line =
    let h = swap_file h₀ file_path in
    let out = single_loop true line h.ignore_single_line in
    let depth = begin_loop h.exclude_start line h.line_begin in
    (
      record h { exclude_start = end_loop depth line h.line_end },
      (if ltb 0 depth then false else out),
    )
