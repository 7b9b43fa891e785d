-- ===== src/Filter/Patterns.antt =====
-- Filter::PatternHandler of src/filter.cc: --include-pattern and --exclude-pattern.
use kcov.Prelude.{Bool, true, false, not, ◌&&◌, List, [], ◌∷◌, Bytes, if◌then◌else◌}
use kcov.Strings.Find.{contains}

abbrev pub is_empty {ℓ} : {A : Type ℓ} → List A → Bool
is_empty [] = true
is_empty (x ∷ xs) = false

pub record PatternHandler : Type 0 where
  pub include_patterns : List Bytes
  pub exclude_patterns : List Bytes

unfoldable pub is_setup : PatternHandler → Bool
is_setup h = not (is_empty h.include_patterns && is_empty h.exclude_patterns)

-- Both loops go on behind a find: `found` is what `out` becomes then.
unfoldable pub pattern_loop : Bool → Bool → Bytes → List Bytes → Bool
pattern_loop found out file [] = out
pattern_loop found out file (p ∷ ps) =
    pattern_loop found (if contains file p then found else out) file ps

unfoldable pub include_file : PatternHandler → Bytes → Bool
include_file h file =
    if is_empty h.include_patterns && is_empty h.exclude_patterns
    then true
    else (let out = (if is_empty h.include_patterns then true else false) in
        let included = pattern_loop true out file h.include_patterns in
        pattern_loop false included file h.exclude_patterns)
