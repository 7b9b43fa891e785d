-- ===== src/Configuration/Configure.antt =====
-- configure and isInteger of src/configuration.cc, and how the steps of parse end.
use kcov.Prelude.{ℕ, Bool, true, false, ◌||◌, Bytes, ascii, bytes_eq, eqb, if◌then◌else◌, length}
use kcov.Configuration.{string_setting, int_setting, Configuration, set_key}

-- What std::stoul makes of a string: a number and where it ends, or an exception.
pub data Stoul : Type 0 where
  number : ℕ → ℕ → Stoul
  invalid_argument out_of_range : Stoul

-- stoul, get_home, realpath (is there such a path?), get_real_path, and whether /proc has a
-- process.
pub record System : Type 0 where
  pub stoul : Bytes → Stoul
  pub get_home : Bytes
  pub path_exists : Bytes → Bool
  pub get_real_path : Bytes → Bytes
  pub process_exists : ℕ → Bool

-- How a step of parse ends: it goes on, parse returns false behind the usage text, or the program
-- ends by a panic, an exception that nothing catches, or exit.
pub data Outcome (A : Type 0) : Type 0 where
  next : A → Outcome A
  usage panic uncaught exit_ : Outcome A

infixl 5 ◌>>=◌
abbrev pub ◌>>=◌ : {A : Type 0} {B : Type 0} → Outcome A → (A → Outcome B) → Outcome B
next a >>= f = f a
usage >>= f = usage
panic >>= f = panic
uncaught >>= f = uncaught
exit_ >>= f = exit_

abbrev pub integer_of : Bytes → Stoul → Outcome Bool
integer_of str (number n pos) = next (eqb pos (length str))
integer_of str invalid_argument = next false
integer_of str out_of_range = uncaught

-- isInteger catches invalid_argument only.
unfoldable pub is_integer : System → Bytes → Outcome Bool
is_integer sys str = integer_of str (sys.stoul str)

abbrev pub value_of : Stoul → Outcome ℕ
value_of (number n pos) = next n
value_of invalid_argument = uncaught
value_of out_of_range = uncaught

unfoldable pub stoul : System → Bytes → Outcome ℕ
stoul sys str = value_of (sys.stoul str)

-- if (!isInteger(str)) return usage(); stoul(str)
unfoldable pub integer_or_usage : System → Bytes → Outcome ℕ
integer_or_usage sys str = do is ← is_integer sys str; if is then stoul sys str else usage

abbrev pub must_be_integer : Bytes → Bool
must_be_integer key =
    bytes_eq key (ascii "low-limit")
    || (bytes_eq key (ascii "high-limit")
        || (bytes_eq key (ascii "bash-use-basic-parser")
            || (bytes_eq key (ascii "cobertura-full-paths")
                || bytes_eq key (ascii "codecov-full-paths"))))

abbrev pub is_int_key : Bytes → Bool
is_int_key key =
    must_be_integer key
    || (bytes_eq key (ascii "system-mode-read-results-file")
        || bytes_eq key (ascii "lldb-use-raw-breakpoint-writes"))

abbrev pub is_string_key : Bytes → Bool
is_string_key key =
    bytes_eq key (ascii "system-mode-write-file")
    || (bytes_eq key (ascii "command-name")
        || (bytes_eq key (ascii "css-file")
            || (bytes_eq key (ascii "merged-name")
                || bytes_eq key (ascii "coveralls-service-name"))))

abbrev pub check_integer : System → Bytes → Bytes → Outcome Bool
check_integer sys key value = if must_be_integer key then is_integer sys value else next true

abbrev pub configure_key : System → Configuration → Bytes → Bytes → Outcome Configuration
configure_key sys c key value =
    if is_int_key key
    then (stoul sys value >>= λ n. next (set_key c (int_setting key n)))
    else if is_string_key key
    then next (set_key c (string_setting key value))
    else panic

unfoldable pub configure : System → Configuration → Bytes → Bytes → Outcome Configuration
configure sys c key value = do
  accepted ← check_integer sys key value
  if accepted then configure_key sys c key value else panic
