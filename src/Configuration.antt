-- ===== src/Configuration.antt =====
-- src/configuration.cc: the configuration's values, each a string, an int or a list of strings.
-- An int is held as its 32-bit pattern. The defaults are those of a system other than FreeBSD.
pub mod Lists
pub mod Configure
pub mod Options
pub mod Keys
pub mod Reads
pub mod Steps
pub mod Parsing
use kcov.Prelude.{
  ℕ, ◌+◌, ◌%◌, ◌^◌, Bool, true, false, ◌||◌, Option, none, some, List, [], ◌∷◌, ◌++◌, Bytes, ascii,
  bytes_eq, eqb, if◌then◌else◌, length, name_key,
}
use kcov.Prelude.Table.{Table, find, insert}

-- A key with the value that setKey gives it.
pub data Setting : Type 0 where
  string_setting : Bytes → Bytes → Setting
  int_setting : Bytes → ℕ → Setting
  list_setting : Bytes → List Bytes → Setting

-- `notified` are the calls of onConfigurationChanged, each with its listener.
pub record Configuration : Type 0 where
  pub strings : Table Bytes Bytes
  pub ints : Table Bytes ℕ
  pub string_vectors : Table Bytes (List Bytes)
  pub print_uncommon : Bool
  pub debug_mask : ℕ
  pub listeners : Table Bytes ℕ
  pub notified : List (ℕ × Bytes)

-- The reads; `none` is a panic.
unfoldable pub key_as_string : Configuration → Bytes → Option Bytes
key_as_string c key = find key c.strings

unfoldable pub key_as_int : Configuration → Bytes → Option ℕ
key_as_int c key = find key c.ints

unfoldable pub key_as_list : Configuration → Bytes → Option (List Bytes)
key_as_list c key = find key c.string_vectors

unfoldable pub register_listener : Configuration → ℕ → List Bytes → Configuration
register_listener c listener [] = c
register_listener c listener (key ∷ keys) =
    register_listener (record c { listeners = insert key listener c.listeners }) listener keys

abbrev pub notify_found : Bytes → Configuration → Option ℕ → Configuration
notify_found key c none = c
notify_found key c (some listener) = record c { notified = c.notified ++ (listener, key) ∷ [] }

unfoldable pub notify_key_listeners : Bytes → Configuration → Configuration
notify_key_listeners key c = notify_found key c (find key c.listeners)

unfoldable pub set_key : Configuration → Setting → Configuration
set_key c (string_setting key val) =
    notify_key_listeners key (record c { strings = insert key val c.strings })
set_key c (int_setting key val) =
    notify_key_listeners key (record c { ints = insert key (val % 2 ^ 32) c.ints })
set_key c (list_setting key val) =
    notify_key_listeners key (record c { string_vectors = insert key val c.string_vectors })

unfoldable pub set_keys : Configuration → List Setting → Configuration
set_keys c [] = c
set_keys c (s ∷ ss) = set_keys (set_key c s) ss

abbrev pub mode_collect_only : ℕ
mode_collect_only = 1

abbrev pub mode_report_only : ℕ
mode_report_only = 2

abbrev pub mode_collect_and_report : ℕ
mode_collect_and_report = 3

abbrev pub mode_merge_only : ℕ
mode_merge_only = 4

abbrev pub mode_system_record : ℕ
mode_system_record = 5

abbrev pub mode_system_report : ℕ
mode_system_report = 6

abbrev pub default_settings : List Setting
default_settings =
    string_setting (ascii "kcov-binary-path") []
    ∷ string_setting (ascii "binary-path") []
    ∷ string_setting (ascii "python-command") (ascii "python")
    ∷ string_setting (ascii "bash-command") (ascii "bash")
    ∷ string_setting (ascii "kernel-coverage-path") (ascii "/sys/kernel/debug/kprobe-coverage")
    ∷ int_setting (ascii "path-strip-level") 2
    ∷ int_setting (ascii "attach-pid") 0
    ∷ int_setting (ascii "parse-solibs") 1
    ∷ int_setting (ascii "clean-output") 0
    ∷ int_setting (ascii "low-limit") 25
    ∷ int_setting (ascii "high-limit") 75
    ∷ int_setting (ascii "output-interval") 5000
    ∷ int_setting (ascii "daemonize-on-first-process-exit") 0
    ∷ int_setting (ascii "dump-summary") 0
    ∷ string_setting (ascii "coveralls-id") []
    ∷ string_setting (ascii "strip-path") []
    ∷ string_setting (ascii "exclude-line") []
    ∷ string_setting (ascii "exclude-region") []
    ∷ string_setting (ascii "orig-path-prefix") []
    ∷ string_setting (ascii "new-path-prefix") []
    ∷ int_setting (ascii "running-mode") mode_collect_and_report
    ∷ list_setting (ascii "exclude-pattern") []
    ∷ list_setting (ascii "include-pattern") []
    ∷ list_setting (ascii "exclude-path") []
    ∷ list_setting (ascii "include-path") []
    ∷ int_setting (ascii "bash-force-stderr-input") 0
    ∷ int_setting (ascii "bash-handle-sh-invocation") 0
    ∷ int_setting (ascii "bash-tracefd-cloexec") 0
    ∷ int_setting (ascii "bash-use-basic-parser") 0
    ∷ int_setting (ascii "bash-use-ps4") 1
    ∷ list_setting (ascii "bash-parse-file-dir") []
    ∷ int_setting (ascii "bash-parse-binary-dir") 1
    ∷ int_setting (ascii "verify") 0
    ∷ string_setting (ascii "command-name") []
    ∷ string_setting (ascii "merged-name") (ascii "[merged]")
    ∷ string_setting (ascii "css-file") []
    ∷ int_setting (ascii "lldb-use-raw-breakpoint-writes") 0
    ∷ string_setting (ascii "system-mode-write-file") []
    ∷ int_setting (ascii "system-mode-write-file-mode") 420
    ∷ string_setting (ascii "system-mode-read-results-file") []
    ∷ string_setting (ascii "patchelf-command") (ascii "patchelf")
    ∷ string_setting (ascii "coveralls-service-name") (ascii "travis-ci")
    ∷ int_setting (ascii "cobertura-full-paths") 0
    ∷ int_setting (ascii "codecov-full-paths") 0
    ∷ int_setting (ascii "cobertura-only") 0
    ∷ int_setting (ascii "is-go-binary") 0
    ∷ []

unfoldable pub setup_defaults : Configuration → Configuration
setup_defaults c = set_keys c default_settings
