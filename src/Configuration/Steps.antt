-- ===== src/Configuration/Steps.antt =====
-- configure of src/configuration.cc, and the loop of --configure over its list: each sets a key only
-- at the type at which it is read.
use kcov.Prelude.{
  ℕ, ◌≡◌, refl, ascii, Bool, true, false, ◌||◌, Bool-cases, inl, inr, List, [], ◌∷◌, Bytes,
  bytes_eq, bytes_eq_iff, if_both, name_key,
}
use kcov.Strings.Split.{split_string}
use kcov.Configuration.{string_setting, int_setting, Configuration}
use kcov.Configuration.Configure.{
  System, configure, configure_key, must_be_integer, is_int_key, is_string_key, stoul,
  check_integer,
}
use kcov.Configuration.Options.{configure_pair, configure_all}
use kcov.Configuration.Keys.{After, After-bind, After-Any, After-map, Any}
use kcov.Configuration.Reads.{fits, Sets, Sets-same, Sets-then, set_key-Sets}

-- A test of a key against names, where each of the names has the property.
named :
    (P : Bytes → Type 0) (key name : Bytes) (rest : Bool)
    → P name
    → (rest ≡ true → P key)
    → bytes_eq key name || rest ≡ true
    → P key
named P key name rest here later is = elim (Bool-cases (bytes_eq key name)) [
  | inl same ↦ let key_is : key ≡ name = (bytes_eq_iff key name).0 same in rw key_is here
  | inr other ↦ later (rw other at is)
]

last_named : (P : Bytes → Type 0) (key name : Bytes) → P name → bytes_eq key name ≡ true → P key
last_named P key name here same =
    let key_is : key ≡ name = (bytes_eq_iff key name).0 same in rw key_is here

either : (P : Type 0) (a b : Bool) → (a ≡ true → P) → (b ≡ true → P) → a || b ≡ true → P
either P true b here later is = here refl
either P false b here later is = later is

is_int_key-fits : (key : Bytes) (n : ℕ) → is_int_key key ≡ true → fits (int_setting key n) ≡ true
unfolding bytes_eq
is_int_key-fits key n is =
    let P = λ (k : Bytes). fits (int_setting k n) ≡ true in
    either (P key) (must_be_integer key) _
      (named P key (ascii "low-limit") _ refl (
        named P key (ascii "high-limit") _ refl (
          named P key (ascii "bash-use-basic-parser") _ refl (
            named P key (ascii "cobertura-full-paths") _ refl
              (last_named P key (ascii "codecov-full-paths") refl)))))
      (named P key (ascii "system-mode-read-results-file") _ refl
        (last_named P key (ascii "lldb-use-raw-breakpoint-writes") refl))
      is

is_string_key-fits :
    (key value : Bytes) → is_string_key key ≡ true → fits (string_setting key value) ≡ true
unfolding bytes_eq
is_string_key-fits key value is =
    let P = λ (k : Bytes). fits (string_setting k value) ≡ true in
    named P key (ascii "system-mode-write-file") _ refl
      (named P key (ascii "command-name") _ refl (
        named P key (ascii "css-file") _ refl (
          named P key (ascii "merged-name") _ refl
            (last_named P key (ascii "coveralls-service-name") refl))))
      is

configure_key-Sets :
    (sys : System) (c : Configuration) (key value : Bytes)
    → After (Sets c) (configure_key sys c key value)
configure_key-Sets sys c key value =
    if_both (After (Sets c)) (is_int_key key) _ _
      (λ int_.
        After-bind Any (Sets c) (stoul sys value) _ (After-Any (stoul sys value))
          (λ n any. set_key-Sets c (int_setting key n) (is_int_key-fits key n int_)))
      (λ other.
        if_both (After (Sets c)) (is_string_key key) _ _
          (λ string_.
            set_key-Sets c (string_setting key value) (is_string_key-fits key value string_))
          (λ unknown. tt))

configure-Sets :
    (sys : System) (c : Configuration) (key value : Bytes)
    → After (Sets c) (configure sys c key value)
unfolding configure
configure-Sets sys c key value =
    After-bind Any (Sets c) (check_integer sys key value) _
      (After-Any (check_integer sys key value))
      (λ accepted any.
        if_both (After (Sets c)) accepted _ _ (λ yes_. configure_key-Sets sys c key value)
          (λ no_. tt))

configure_pair-Sets :
    (sys : System) (c : Configuration) (parts : List Bytes)
    → After (Sets c) (configure_pair sys c parts)
configure_pair-Sets sys c [] = tt
configure_pair-Sets sys c (key ∷ []) = tt
configure_pair-Sets sys c (key ∷ value ∷ []) = configure-Sets sys c key value
configure_pair-Sets sys c (key ∷ value ∷ more ∷ parts) = tt

pub configure_all-Sets :
    (sys : System) (c : Configuration) (values : List Bytes)
    → After (Sets c) (configure_all sys c values)
unfolding configure_all
configure_all-Sets sys c [] = Sets-same c
configure_all-Sets sys c (value ∷ values) =
    After-bind (Sets c) (Sets c) (configure_pair sys c (split_string value b'=')) _
      (configure_pair-Sets sys c (split_string value b'='))
      (λ c₁ first.
        After-map (Sets c₁) (Sets c) (configure_all sys c₁ values)
          (λ c₂ later. Sets-then c c₁ c₂ first later) (configure_all-Sets sys c₁ values))
