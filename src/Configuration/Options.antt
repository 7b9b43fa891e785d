-- ===== src/Configuration/Options.antt =====
-- parse of src/configuration.cc: what the switch over the options of the command line does.
-- getopt_long is given: an option arrives as one of the constructors below, named for its long
-- option, with its argument.
use kcov.Prelude.{
  ℕ, ◌+◌, ◌-◌, ◌%◌, ◌^◌, Bool, true, false, Option, none, some, List, [], ◌∷◌, ◌++◌, Bytes, ascii,
  bytes_eq, eqb, if◌then◌else◌, take, drop,
}
use kcov.Strings.Find.{contains}
use kcov.Strings.Split.{split_string}
use kcov.Strings.Search.{position}
use kcov.Configuration.{
  Setting, string_setting, int_setting, list_setting, Configuration, set_key, set_keys,
  mode_collect_only, mode_report_only, mode_merge_only, mode_system_record, mode_system_report,
  setup_defaults,
}
use kcov.Configuration.Lists.{get_comma_separated_list}
use kcov.Configuration.Configure.{
  System, Outcome, next, usage, panic, exit_, ◌>>=◌, is_integer, stoul, integer_or_usage, configure,
}

pub data Opt : Type 0 where
  no_option help uncommon_options verify version skip_solibs exit_first_process clean : Opt
  cobertura_only debug_force_bash_stderr bash_handle_sh_invocation bash_tracefd_cloexec : Opt
  bash_dont_parse_binary_dir collect_only report_only merge system_record system_report : Opt
  dump_summary clang missing_argument unrecognized : Opt
  pid limits output_interval path_strip_level configure_ exclude_pattern : Bytes → Opt
  include_pattern exclude_path include_path coveralls_id strip_path exclude_line : Bytes → Opt
  exclude_region debug bash_parse_files_in_dirs replace_src_path python_parser : Bytes → Opt
  patchelf bash_parser bash_method : Bytes → Opt

-- parse's variables behind the configuration.
pub record Parse : Type 0 where
  pub conf : Configuration
  pub extra_needed : ℕ
  pub print_usage : Bool

-- One key=value pair of --configure.
abbrev pub configure_pair : System → Configuration → List Bytes → Outcome Configuration
configure_pair sys c (key ∷ value ∷ []) = configure sys c key value
configure_pair sys c parts = usage

unfoldable pub configure_all : System → Configuration → List Bytes → Outcome Configuration
configure_all sys c [] = next c
configure_all sys c (value ∷ values) = do
  c' ← configure_pair sys c (split_string value b'=')
  configure_all sys c' values

-- '~' at the front stands for the home directory.
abbrev pub expand : Bytes → Bytes → Bytes
expand home [] = []
expand home (c ∷ s) = if eqb c b'~' then home ++ s else c ∷ s

unfoldable pub expand_path : Bytes → List Bytes → List Bytes
expand_path home [] = []
expand_path home (path ∷ paths) = expand home path ∷ expand_path home paths

-- setKey of some keys.
abbrev pub setting : Parse → List Setting → Outcome Parse
setting p ss = next (record p { conf = set_keys p.conf ss })

abbrev pub flag : Parse → Bytes → ℕ → Outcome Parse
flag p key val = setting p (int_setting key val ∷ [])

abbrev pub string : Parse → Bytes → Bytes → Outcome Parse
string p key val = setting p (string_setting key val ∷ [])

abbrev pub list : Parse → Bytes → List Bytes → Outcome Parse
list p key val = setting p (list_setting key val ∷ [])

-- --limits=low,high
abbrev pub set_limits : System → Parse → List Bytes → Outcome Parse
set_limits sys p (low ∷ high ∷ []) = do
  low_is ← is_integer sys low
  high_is ← (if low_is then is_integer sys high else next false)
  if high_is
      then (do
        l ← stoul sys low
        h ← stoul sys high
        setting p (int_setting (ascii "low-limit") l ∷ int_setting (ascii "high-limit") h ∷ []))
      else usage
set_limits sys p parts = usage

-- --replace-src-path=old:new, with one colon and a path that exists.
abbrev pub replace_at : System → Parse → Bytes → Option ℕ → Outcome Parse
replace_at sys p arg none = panic
replace_at sys p arg (some pos) =
    let new_path = drop (pos + 1) arg in
    if contains new_path (ascii ":")
    then panic
    else if sys.path_exists new_path
    then setting p (
        string_setting (ascii "orig-path-prefix") (take pos arg)
        ∷ string_setting (ascii "new-path-prefix") new_path
        ∷ [])
    else panic

abbrev pub set_bash_method : Parse → Bytes → Outcome Parse
set_bash_method p arg =
    if bytes_eq arg (ascii "DEBUG")
    then flag p (ascii "bash-use-ps4") 0
    else if bytes_eq arg (ascii "PS4")
    then flag p (ascii "bash-use-ps4") 1
    else panic

-- The switch, on one option. --clang has no case, and reaches the default.
unfoldable pub parse_option : System → Parse → Opt → Outcome Parse
parse_option sys p no_option = next p
parse_option sys p help = next (record p { print_usage = true })
parse_option sys p uncommon_options =
    next (record p { conf = record p.conf { print_uncommon = true } })
parse_option sys p verify = flag p (ascii "verify") 1
parse_option sys p version = exit_
parse_option sys p skip_solibs = flag p (ascii "parse-solibs") 0
parse_option sys p exit_first_process = flag p (ascii "daemonize-on-first-process-exit") 1
parse_option sys p clean = flag p (ascii "clean-output") 1
parse_option sys p (pid arg) = do
  n ← integer_or_usage sys arg
  p' ← flag p (ascii "attach-pid") n
  next (record p' { extra_needed = if sys.process_exists n then 1 else p.extra_needed })
parse_option sys p (output_interval arg) =
    integer_or_usage sys arg >>= flag p (ascii "output-interval")
parse_option sys p cobertura_only = flag p (ascii "cobertura-only") 1
parse_option sys p (path_strip_level arg) = integer_or_usage sys arg >>= λ n.
    flag p (ascii "path-strip-level") (if eqb (n % 2 ^ 32) 0 then 2 ^ 31 - 1 else n)
parse_option sys p (debug arg) = integer_or_usage sys arg >>= λ n.
    next (record p { conf = record p.conf { debug_mask = n % 2 ^ 32 } })
parse_option sys p (configure_ arg) =
    configure_all sys p.conf (split_string arg b',') >>= λ c. next (record p { conf = c })
parse_option sys p (include_pattern arg) =
    list p (ascii "include-pattern") (get_comma_separated_list arg)
parse_option sys p (python_parser arg) = string p (ascii "python-command") arg
parse_option sys p (patchelf arg) = string p (ascii "patchelf-command") arg
parse_option sys p (bash_parser arg) = string p (ascii "bash-command") arg
parse_option sys p (coveralls_id arg) = string p (ascii "coveralls-id") arg
parse_option sys p (strip_path arg) = string p (ascii "strip-path") arg
parse_option sys p (exclude_line arg) = string p (ascii "exclude-line") arg
parse_option sys p (exclude_region arg) = string p (ascii "exclude-region") arg
parse_option sys p (exclude_pattern arg) =
    list p (ascii "exclude-pattern") (get_comma_separated_list arg)
parse_option sys p (include_path arg) =
    list p (ascii "include-path") (expand_path sys.get_home (get_comma_separated_list arg))
parse_option sys p (exclude_path arg) =
    list p (ascii "exclude-path") (expand_path sys.get_home (get_comma_separated_list arg))
parse_option sys p debug_force_bash_stderr =
    setting p
      (int_setting (ascii "bash-force-stderr-input") 1 ∷ int_setting (ascii "bash-use-ps4") 1 ∷ [])
parse_option sys p bash_handle_sh_invocation = flag p (ascii "bash-handle-sh-invocation") 1
parse_option sys p bash_tracefd_cloexec = flag p (ascii "bash-tracefd-cloexec") 1
parse_option sys p (bash_method arg) = set_bash_method p arg
parse_option sys p collect_only = flag p (ascii "running-mode") mode_collect_only
parse_option sys p report_only = flag p (ascii "running-mode") mode_report_only
parse_option sys p merge = flag p (ascii "running-mode") mode_merge_only
parse_option sys p dump_summary = flag p (ascii "dump-summary") 1
parse_option sys p system_record = setting p (
    int_setting (ascii "running-mode") mode_system_record
    ∷ int_setting (ascii "parse-solibs") 0
    ∷ [])
parse_option sys p system_report = setting p (
    int_setting (ascii "running-mode") mode_system_report
    ∷ int_setting (ascii "parse-solibs") 0
    ∷ [])
parse_option sys p (limits arg) = set_limits sys p (get_comma_separated_list arg)
parse_option sys p bash_dont_parse_binary_dir = flag p (ascii "bash-parse-binary-dir") 0
parse_option sys p (bash_parse_files_in_dirs arg) =
    list p (ascii "bash-parse-file-dir") (get_comma_separated_list arg)
parse_option sys p (replace_src_path arg) = replace_at sys p arg (position arg (ascii ":"))
parse_option sys p clang = panic
parse_option sys p missing_argument = usage
parse_option sys p unrecognized = usage

unfoldable pub parse_options : System → Parse → List Opt → Outcome Parse
parse_options sys p [] = next p
parse_options sys p (o ∷ os) = do p' ← parse_option sys p o; parse_options sys p' os

-- parse, up to its arguments that are no options: `argv0` is kcov's own path.
unfoldable pub parse : System → Configuration → Bytes → List Opt → Outcome Parse
parse sys c argv0 options = do
  let c' =
      set_key (setup_defaults c)
        (string_setting (ascii "kcov-binary-path") (sys.get_real_path argv0))
  p ← parse_options sys (record { conf = c'; extra_needed = 2; print_usage = false }) options
  if p.print_usage then usage else next p
