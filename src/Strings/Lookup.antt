-- ===== src/Strings/Lookup.antt =====
-- get_real_path and look_path of src/utils.cc.
use kcov.Prelude.{
  ◌≡◌, refl, ◌∙◌, sym, ap, Bool, Option, none, some, List, [], ◌∷◌, ◌++◌, Bytes, if◌then◌else◌,
  if_both, name_key, Option-cases, inl, inr,
}
use kcov.Prelude.Table.{Table, find, insert, Matches, insert-Matches}
use kcov.Strings.Split.{split_string}

-- realpath, find_executable (which asks lstat) and the PATH of the environment.
pub record System : Type 0 where
  pub realpath : Bytes → Option Bytes
  pub find_executable : Bytes → Bool
  pub sys_path : Option Bytes

abbrev pub Cache : Type 0
Cache = Table Bytes Bytes

-- The path itself where realpath fails.
abbrev pub or_same : Bytes → Option Bytes → Bytes
or_same path none = path
or_same path (some rp) = rp

abbrev pub cached : System → Cache → Bytes → Option Bytes → Cache × Bytes
cached sys cache path (some real) = (cache, real)
cached sys cache path none =
    let real = or_same path (sys.realpath path) in (insert path real cache, real)

unfoldable pub get_real_path : System → Cache → Bytes → Cache × Bytes
get_real_path sys cache path = cached sys cache path (find path cache)

-- The loop over the directories of PATH.
unfoldable pub look_in : System → Cache → Bytes → List Bytes → Cache × Option Bytes
look_in sys cache file [] = (cache, none)
look_in sys cache file (root ∷ roots) =
    let (cache', path) = get_real_path sys cache (root ++ b'/' ∷ file) in
    let rest = look_in sys cache' file roots in
    if sys.find_executable path then (cache', some path) else rest

abbrev pub look_sys_path : System → Cache → Bytes → Option Bytes → Cache × Option Bytes
look_sys_path sys cache file none = (cache, none)
look_sys_path sys cache file (some paths) = look_in sys cache file (split_string paths b':')

unfoldable pub look_path : System → Cache → Bytes → Cache × Option Bytes
look_path sys cache file =
    if sys.find_executable file
    then (cache, some file)
    else look_sys_path sys cache file sys.sys_path

-- What realpath gives, or the path itself.
abbrev pub real_of : System → Bytes → Bytes
real_of sys path = or_same path (sys.realpath path)

abbrev pub Holds : System → Cache → Type 0
Holds sys cache = Matches (real_of sys) cache

get_real_path-Holds :
    (sys : System) (cache : Cache) (path : Bytes)
    → Holds sys cache
    → Holds sys (get_real_path sys cache path).0
      × ((get_real_path sys cache path).1 ≡ or_same path (sys.realpath path))
unfolding get_real_path
get_real_path-Holds sys cache path holds = elim (Option-cases (find path cache)) [
  | inl absent ↦ rw absent (insert-Matches (real_of sys) path cache holds, refl)
  | inr (real, there) ↦ rw there (holds, holds path real there)
]

-- The search without a cache.
abbrev pub first_in : System → Bytes → List Bytes → Option Bytes
first_in sys file [] = none
first_in sys file (root ∷ roots) =
    let path = root ++ b'/' ∷ file in
    let real = or_same path (sys.realpath path) in
    let rest = first_in sys file roots in if sys.find_executable real then some real else rest

-- The cache does not change what is found in the directories of PATH: it is the first of the real
-- paths that is executable.
pub look_in-first_in :
    (sys : System) (cache : Cache) (file : Bytes) (roots : List Bytes)
    → Holds sys cache
    → (look_in sys cache file roots).1 ≡ first_in sys file roots
unfolding look_in
look_in-first_in sys cache file [] holds = refl
look_in-first_in sys cache file (root ∷ roots) holds =
    let path = root ++ b'/' ∷ file in
    let (holds', is) = get_real_path-Holds sys cache path holds in
    let (cache', real) = get_real_path sys cache path in
    let later = look_in-first_in sys cache' file roots holds' in
    let found =
      if_both
        (λ (x : Cache × Option Bytes).
          x.1 ≡ (if sys.find_executable real then some real else first_in sys file roots))
        (sys.find_executable real) _ _
        (λ yes_. ap (λ b. if b then some real else first_in sys file roots) (sym yes_))
        (λ no_. later ∙ ap (λ b. if b then some real else first_in sys file roots) (sym no_)) in
    found ∙ ap (λ p. if sys.find_executable p then some p else first_in sys file roots) is
