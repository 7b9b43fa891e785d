-- ===== src/Tests/Filters.antt =====
-- src/filter.cc on concrete settings.
use kcov.Prelude.{
  ascii, ◌≡◌, refl, ◌↔◌, true, false, List, [], ◌∷◌, ◌++◌, Bytes, All, ◌≟◌, name_key, bytes_eq,
}
use kcov.Strings.Find.{contains}
use kcov.Strings.Split.{split_string}
use kcov.Filter.LineHandler.{LineHandler, new_line_handler}
use kcov.Filter.Regions.{at_depth, Opens, Closes, Plain, Balanced, match_all, region_excluded}
use kcov.Filter.Files.{FileSystem, Filter, run_filters}
use kcov.Filter.Accepts.{Accepted, IsUnder, IsPart, run_filters_iff}

abbrev handler : LineHandler
handler = record {
  cur_file = ascii "a.c";
  ignore_single_line = ascii "LCOV_EXCL_LINE" ∷ [];
  line_begin = ascii "LCOV_EXCL_START" ∷ [];
  line_end = ascii "LCOV_EXCL_STOP" ∷ [];
  exclude_start = 0;
}

default_handler : at_depth (new_line_handler [] []) 0 ≡ new_line_handler [] []
unfolding new_line_handler bytes_eq
default_handler = refl

regions_option :
    (new_line_handler [] (ascii "begin:end,only")).line_begin
    ≡ ascii "LCOV_EXCL_START" ∷ ascii "begin" ∷ ascii "only" ∷ []
unfolding new_line_handler split_string bytes_eq
regions_option = refl

abbrev start : Bytes
start = ascii "x(); // LCOV_EXCL_START"

abbrev stop : Bytes
stop = ascii "y(); // LCOV_EXCL_STOP"

abbrev inside : List Bytes
inside = ascii "z();" ∷ start ∷ stop ∷ []

start-Opens : Opens handler start
unfolding contains
start-Opens = record { begins = refl; no_end = refl }

stop-Closes : Closes handler stop
unfolding contains
stop-Closes = record { no_begin = refl; ends = refl }

z-Plain : Plain handler (ascii "z();")
unfolding contains
z-Plain = record { no_begin = refl; no_end = refl }

inside-Balanced : Balanced handler inside
inside-Balanced =
    Balanced.plain z-Plain (
      Balanced.region {body = []} {rest = []} start-Opens Balanced.empty stop-Closes Balanced.empty)

region_excluded_example :
    ((match_all (at_depth handler 0) 1 (start ∷ (inside ++ (stop ∷ [])))).0 ≡ at_depth handler 0)
    × All (λ b. b ≡ false) (match_all (at_depth handler 0) 1 (start ∷ (inside ++ (stop ∷ [])))).1
region_excluded_example =
    region_excluded handler 1 0 start stop inside start-Opens inside-Balanced stop-Closes

other_file : (ascii "a.c" ≟ ascii "b.c") ≡ false
unfolding bytes_eq
other_file = refl

abbrev identity_fs : FileSystem
identity_fs = record { real = λ p. p; regex_replace = λ t p n. t }

abbrev some_filter : Filter
some_filter = record {
  patterns = record { include_patterns = []; exclude_patterns = ascii "test" ∷ [] };
  paths = record { include_paths = ascii "/src" ∷ []; exclude_paths = [] };
  orig_root = [];
  new_root = [];
}

run_filters_iff_example : (run_filters identity_fs some_filter (ascii "/src/a.c") ≡ true) ↔ (
    Accepted (IsUnder (ascii "/src/a.c")) (ascii "/src" ∷ []) []
    × Accepted (IsPart (ascii "/src/a.c")) [] (ascii "test" ∷ []))
run_filters_iff_example = run_filters_iff identity_fs some_filter (ascii "/src/a.c")
