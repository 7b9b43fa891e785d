-- ===== src/Configuration/Reads.antt =====
-- The keys that the rest of src/ reads, and that src/configuration.cc sets each only at the type at
-- which it is read.
use kcov.Prelude.{
  ℕ, ◌%◌, ◌^◌, ◌≡◌, ◌∙◌, sym, ap, Bool, true, false, ◌||◌, ◌&&◌, not, Option, none, some, List, [],
  ◌∷◌, Bytes, ascii, arith, bytes_eq, bytes_eq_iff, if◌then◌else◌, All, name_key, Bool-cases, inl,
  inr,
}
use kcov.Prelude.Table.{Table, find, insert, find-insert}
use kcov.Configuration.{
  Setting, string_setting, int_setting, list_setting, Configuration, key_as_string, key_as_int,
  key_as_list, notify_found, notify_key_listeners, set_key, set_keys,
}
use kcov.Configuration.Keys.{Readable, Keeps, set_key-Keeps}

abbrev strings : List Bytes → List Setting → List Setting
strings [] more = more
strings (k ∷ ks) more = string_setting k [] ∷ strings ks more

abbrev ints : List Bytes → List Setting → List Setting
ints [] more = more
ints (k ∷ ks) more = int_setting k 0 ∷ ints ks more

abbrev lists : List Bytes → List Setting
lists [] = []
lists (k ∷ ks) = list_setting k [] ∷ lists ks

-- The arguments of keyAsString, keyAsInt and keyAsList in src/, less the three that parse sets from
-- the arguments behind the options ("binary-name", "out-directory", "target-directory"). The values
-- are not looked at.
abbrev pub reads : List Setting
reads =
    strings
      (ascii "bash-command"
        ∷ ascii "binary-path"
        ∷ ascii "command-name"
        ∷ ascii "coveralls-id"
        ∷ ascii "coveralls-service-name"
        ∷ ascii "css-file"
        ∷ ascii "exclude-line"
        ∷ ascii "exclude-region"
        ∷ ascii "kcov-binary-path"
        ∷ ascii "kernel-coverage-path"
        ∷ ascii "merged-name"
        ∷ ascii "patchelf-command"
        ∷ ascii "python-command"
        ∷ ascii "strip-path"
        ∷ ascii "system-mode-read-results-file"
        ∷ ascii "system-mode-write-file"
        ∷ [])
      (ints
        (ascii "attach-pid"
          ∷ ascii "bash-force-stderr-input"
          ∷ ascii "bash-handle-sh-invocation"
          ∷ ascii "bash-parse-binary-dir"
          ∷ ascii "bash-tracefd-cloexec"
          ∷ ascii "bash-use-basic-parser"
          ∷ ascii "bash-use-ps4"
          ∷ ascii "clean-output"
          ∷ ascii "cobertura-full-paths"
          ∷ ascii "cobertura-only"
          ∷ ascii "codecov-full-paths"
          ∷ ascii "daemonize-on-first-process-exit"
          ∷ ascii "dump-summary"
          ∷ ascii "high-limit"
          ∷ ascii "is-go-binary"
          ∷ ascii "low-limit"
          ∷ ascii "output-interval"
          ∷ ascii "parse-solibs"
          ∷ ascii "path-strip-level"
          ∷ ascii "running-mode"
          ∷ ascii "verify"
          ∷ [])
        (lists (
          ascii "bash-parse-file-dir"
          ∷ ascii "exclude-path"
          ∷ ascii "exclude-pattern"
          ∷ ascii "include-path"
          ∷ ascii "include-pattern"
          ∷ [])))

abbrev pub key_of : Setting → Bytes
key_of (string_setting k v) = k
key_of (int_setting k v) = k
key_of (list_setting k v) = k

abbrev pub same_type : Setting → Setting → Bool
same_type (string_setting k v) (string_setting j w) = true
same_type (int_setting k v) (int_setting j w) = true
same_type (list_setting k v) (list_setting j w) = true
same_type _ _ = false

-- Some read is of this key, at this type.
abbrev is_read : Setting → List Setting → Bool
is_read s [] = false
is_read s (t ∷ ts) = (same_type s t && bytes_eq (key_of s) (key_of t)) || is_read s ts

-- Some read is of this key, at another type.
abbrev pub clashes : Setting → List Setting → Bool
clashes s [] = false
clashes s (t ∷ ts) = (not (same_type s t) && bytes_eq (key_of s) (key_of t)) || clashes s ts

-- The one key that --configure takes for an int, and that is read as a string.
abbrev pub fits : Setting → Bool
fits s = bytes_eq (key_of s) (ascii "system-mode-read-results-file") || not (clashes s reads)

-- Whatever is set, is set at the type at which it is read.
pub record AllFit (c : Configuration) : Type 0 where
  pub string_fits :
      (k : Bytes) (v : Bytes) → find k c.strings ≡ some v → fits (string_setting k v) ≡ true
  pub int_fits : (k : Bytes) (v : ℕ) → find k c.ints ≡ some v → fits (int_setting k v) ≡ true
  pub list_fits :
      (k : Bytes) (v : List Bytes)
      → find k c.string_vectors ≡ some v
      → fits (list_setting k v) ≡ true

insert-fits :
    {V : Type 0} (f : Bytes → V → Setting) (k : Bytes) (v : V) (m : Table Bytes V)
    → fits (f k v) ≡ true
    → ((j : Bytes) (w : V) → find j m ≡ some w → fits (f j w) ≡ true)
    → (j : Bytes) (w : V) → find j (insert k v m) ≡ some w
    → fits (f j w) ≡ true
insert-fits f k v m new old j w there = elim (Bool-cases (bytes_eq k j)) [
  | inl same ↦
      let key_is : k ≡ j = (bytes_eq_iff k j).0 same in
      let value : some v ≡ some w =
        sym (find-insert k j v m ∙ ap (λ b. if b then some v else find j m) same) ∙ there in
      let value_is : v ≡ w = cc in
      sym (ap (λ x. fits (f k x)) value_is ∙ ap (λ x. fits (f x w)) key_is) ∙ new
  | inr other ↦
      old j w (sym (find-insert k j v m ∙ ap (λ b. if b then some v else find j m) other) ∙ there)
]

notify-AllFit :
    (key : Bytes) (c : Configuration) (o : Option ℕ) → AllFit c → AllFit (notify_found key c o)
notify-AllFit key c none g = g
notify-AllFit key c (some l) g = record {
  string_fits = g.string_fits;
  int_fits = g.int_fits;
  list_fits = g.list_fits;
}

set_key-AllFit : (c : Configuration) (s : Setting) → fits s ≡ true → AllFit c → AllFit (set_key c s)
unfolding set_key notify_key_listeners
set_key-AllFit c (string_setting k v) fit g = notify-AllFit k _ (find k c.listeners) (record {
  string_fits = insert-fits string_setting k v c.strings fit g.string_fits;
  int_fits = g.int_fits;
  list_fits = g.list_fits;
})
set_key-AllFit c (int_setting k v) fit g = notify-AllFit k _ (find k c.listeners) (record {
  string_fits = g.string_fits;
  int_fits = insert-fits int_setting k (v % 2 ^ 32) c.ints fit g.int_fits;
  list_fits = g.list_fits;
})
set_key-AllFit c (list_setting k v) fit g = notify-AllFit k _ (find k c.listeners) (record {
  string_fits = g.string_fits;
  int_fits = g.int_fits;
  list_fits = insert-fits list_setting k v c.string_vectors fit g.list_fits;
})

-- From one configuration to a later one: what can be read stays so, and so does the agreement of
-- the types.
pub record Sets (c c' : Configuration) : Type 0 where
  pub keeps : Keeps c c'
  pub all_fit : AllFit c → AllFit c'

pub Sets-same : (c : Configuration) → Sets c c
Sets-same c = record { keeps = λ s r. r; all_fit = λ g. g }

-- The fields that are no keys.
pub Sets-flags :
    (c : Configuration) (print_uncommon : Bool) (debug_mask : ℕ)
    → Sets c (record c { print_uncommon = print_uncommon; debug_mask = debug_mask })
unfolding key_as_string key_as_int key_as_list
Sets-flags c print_uncommon debug_mask = record {
  keeps = λ s r. r;
  all_fit =
      λ g. record { string_fits = g.string_fits; int_fits = g.int_fits; list_fits = g.list_fits };
}

pub Sets-then : (c c₁ c₂ : Configuration) → Sets c c₁ → Sets c₁ c₂ → Sets c c₂
Sets-then c c₁ c₂ first later = record {
  keeps = λ s r. later.keeps s (first.keeps s r);
  all_fit = λ g. later.all_fit (first.all_fit g);
}

pub set_key-Sets : (c : Configuration) (s : Setting) → fits s ≡ true → Sets c (set_key c s)
set_key-Sets c s fit = record { keeps = set_key-Keeps c s; all_fit = set_key-AllFit c s fit }

abbrev pub all_fits : List Setting → Bool
all_fits [] = true
all_fits (s ∷ ss) = fits s && all_fits ss

pub set_keys-Sets :
    (c : Configuration) (ss : List Setting) → all_fits ss ≡ true → Sets c (set_keys c ss)
unfolding set_keys
set_keys-Sets c [] fit = Sets-same c
set_keys-Sets c (s ∷ ss) fit = elim (Bool-cases (fits s)) [
  | inl first ↦
      let rest : all_fits ss ≡ true = rw first at fit in
      Sets-then c (set_key c s) _ (set_key-Sets c s first) (set_keys-Sets (set_key c s) ss rest)
  | inr none_ ↦ let no : false ≡ true = rw none_ at fit in cc
]

same_type-Readable :
    (c : Configuration) (s t : Setting)
    → same_type s t ≡ true
    → key_of s ≡ key_of t
    → Readable c t
    → Readable c s
same_type-Readable c (string_setting k v) (string_setting j w) same key (x, e) = (x, rw key e)
same_type-Readable c (int_setting k v) (int_setting j w) same key (x, e) = (x, rw key e)
same_type-Readable c (list_setting k v) (list_setting j w) same key (x, e) = (x, rw key e)
same_type-Readable c (string_setting k v) (int_setting j w) same key r = cc
same_type-Readable c (string_setting k v) (list_setting j w) same key r = cc
same_type-Readable c (int_setting k v) (string_setting j w) same key r = cc
same_type-Readable c (int_setting k v) (list_setting j w) same key r = cc
same_type-Readable c (list_setting k v) (string_setting j w) same key r = cc
same_type-Readable c (list_setting k v) (int_setting j w) same key r = cc

is_read-Readable :
    (c : Configuration) (s : Setting) (ts : List Setting)
    → All (Readable c) ts
    → is_read s ts ≡ true
    → Readable c s
is_read-Readable c s [] all_ read_ = cc
is_read-Readable c s (t ∷ ts) (first, all_) read_ =
    elim (Bool-cases (same_type s t && bytes_eq (key_of s) (key_of t))) [
      | inl here ↦
          let type_is : same_type s t ≡ true = ground arith in
          let name_is : bytes_eq (key_of s) (key_of t) ≡ true = ground arith in
          same_type-Readable c s t type_is ((bytes_eq_iff (key_of s) (key_of t)).0 name_is) first
      | inr later ↦ is_read-Readable c s ts all_ (rw later at read_)
    ]

abbrev pub all_read : List Setting → List Setting → Bool
all_read [] ts = true
all_read (s ∷ ss) ts = is_read s ts && all_read ss ts

pub all_read-Readable :
    (c : Configuration) (ss ts : List Setting)
    → All (Readable c) ts
    → all_read ss ts ≡ true
    → All (Readable c) ss
all_read-Readable c [] ts all_ read_ = tt
all_read-Readable c (s ∷ ss) ts all_ read_ = elim (Bool-cases (is_read s ts)) [
  | inl here ↦
      (is_read-Readable c s ts all_ here, all_read-Readable c ss ts all_ (rw here at read_))
  | inr none_ ↦ let no : false ≡ true = rw none_ at read_ in cc
]
