-- ===== src/Tests/Options.antt =====
-- The options of src/configuration.cc.
use kcov.Prelude.{◌≡◌, refl, true, false, List, [], ◌∷◌, ascii, bytes_eq, if◌then◌else◌}
use kcov.Configuration.{Configuration}
use kcov.Configuration.Lists.{
  get_comma_separated_list, list_loop, get_comma_separated_list-Split, Split,
}
use kcov.Configuration.Configure.{
  System, number, invalid_argument, out_of_range, panic, uncaught, integer_or_usage, is_integer,
}
use kcov.Configuration.Options.{
  Opt, Parse, skip_solibs, limits, clang, output_interval, configure_, parse_option,
}

abbrev system : System
system = record {
  stoul = λ s.
      if bytes_eq s (ascii "10")
      then number 10 2
      else if bytes_eq s (ascii "99999999999999999999")
      then out_of_range
      else invalid_argument;
  get_home = ascii "/root";
  path_exists = λ s. true;
  get_real_path = λ s. s;
  process_exists = λ n. false;
}

abbrev empty : Configuration
empty = record {
  strings = [];
  ints = [];
  string_vectors = [];
  print_uncommon = false;
  debug_mask = 0;
  listeners = [];
  notified = [];
}

abbrev options : List Opt
options = skip_solibs ∷ limits (ascii "10,10") ∷ configure_ (ascii "low-limit=10") ∷ []

get_comma_separated_list-Split_example :
    Split (ascii "a,,b,") (get_comma_separated_list (ascii "a,,b,"))
get_comma_separated_list-Split_example = get_comma_separated_list-Split (ascii "a,,b,")

four_parts : get_comma_separated_list (ascii "a,,b,") ≡ ascii "a" ∷ [] ∷ ascii "b" ∷ [] ∷ []
unfolding get_comma_separated_list list_loop kcov.Strings.Find.contains
    kcov.Strings.Find.starts_with
four_parts = refl

abbrev parsing : Parse
parsing = record { conf = empty; extra_needed = 2; print_usage = false }

-- --clang is an option that getopt_long knows and the switch does not.
clang_panics : parse_option system parsing clang ≡ panic
unfolding parse_option
clang_panics = refl

-- A number that is too large ends kcov by an exception.
too_large : parse_option system parsing (output_interval (ascii "99999999999999999999")) ≡ uncaught
unfolding parse_option integer_or_usage is_integer bytes_eq
too_large = refl
