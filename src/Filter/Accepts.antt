-- ===== src/Filter/Accepts.antt =====
-- Which files the filter accepts, stated on path components and substrings.
use mathlib.Core.List.{append-nil}
use kcov.Prelude.{
  ℕ, ◌≡◌, ◌↔◌, ◌⊎◌, inl, inr, refl, sym, ◌∙◌, Bool, true, false, not, ◌&&◌, ◌||◌, List, [], ◌∷◌,
  ◌++◌, Bytes, arith, leb, length, length-append, get_elem?, some, if◌then◌else◌,
}
use kcov.Strings.Find.{contains, starts_with, starts_with_iff, contains_iff}
use kcov.Filter.Patterns
use kcov.Filter.Patterns.{PatternHandler, is_empty, pattern_loop}
use kcov.Filter.Paths
use kcov.Filter.Paths.{PathHandler, is_under, path_loop, char_is}
use kcov.Filter.Files.{FileSystem, Filter, run_filters}

abbrev pub Any {ℓ} : {A : Type ℓ} → (A → Type 0) → List A → Type 0
Any P [] = ⊥
Any P (x ∷ xs) = P x ⊎ Any P xs

-- `path` is the directory or file `dir`, or lies below it.
abbrev pub IsUnder : Bytes → Bytes → Type 0
IsUnder path dir = (path ≡ dir) ⊎ ((rest : Bytes) × (path ≡ dir ++ (b'/' ∷ rest)))

get_elem?-append_head :
    (xs : Bytes) (y : ℕ) (ys : Bytes) → get_elem? (xs ++ (y ∷ ys)) (length xs) ≡ some y
get_elem?-append_head [] y ys = refl
get_elem?-append_head (x ∷ xs) y ys = get_elem?-append_head xs y ys

IsUnder-tail :
    (dir rest : Bytes)
    → (leb (length (dir ++ rest)) (length dir)
        || char_is (get_elem? (dir ++ rest) (length dir)) b'/')
      ≡ true
    → IsUnder (dir ++ rest) dir
IsUnder-tail dir [] h = inl (append-nil dir)
IsUnder-tail dir (c ∷ rest) h =
    let here = get_elem?-append_head dir c rest in
    let long = length-append dir (c ∷ rest) in
    let slash : c ≡ b'/' = ground (arith, here, long) in inr (rest, rw slash)

IsUnder-front :
    (path dir : Bytes)
    → starts_with path dir ≡ true
    → (leb (length path) (length dir) || char_is (get_elem? path (length dir)) b'/') ≡ true
    → IsUnder path dir
IsUnder-front path dir front end =
    let (rest, e) = (starts_with_iff path dir).0 front in
    let end' = rw e at end in rw e (IsUnder-tail dir rest end')

is_under_of :
    (path dir rest : Bytes)
    → path ≡ dir ++ rest
    → (leb (length path) (length dir) || char_is (get_elem? path (length dir)) b'/') ≡ true
    → is_under path dir ≡ true
unfolding is_under
is_under_of path dir rest e end =
    let front : starts_with path dir ≡ true = (starts_with_iff path dir).1 (rest, e) in rw front end

at_dir :
    (path dir : Bytes)
    → path ≡ dir
    → (leb (length path) (length dir) || char_is (get_elem? path (length dir)) b'/') ≡ true
at_dir path dir e = rw e (ground arith)

below_dir :
    (path dir rest : Bytes)
    → path ≡ dir ++ (b'/' ∷ rest)
    → (leb (length path) (length dir) || char_is (get_elem? path (length dir)) b'/') ≡ true
below_dir path dir rest e = rw e (rw (get_elem?-append_head dir b'/' rest) (ground arith))

pub is_under_iff : (path dir : Bytes) → (is_under path dir ≡ true) ↔ IsUnder path dir
is_under_iff path dir = (
  λ h. IsUnder-front path dir (unfold is_under in ground arith) (unfold is_under in ground arith),
  elim [
    | inl e ↦ is_under_of path dir [] (e ∙ sym (append-nil dir)) (at_dir path dir e)
    | inr (rest, e) ↦ is_under_of path dir (b'/' ∷ rest) e (below_dir path dir rest e)
  ],
)

abbrev any_of : (Bytes → Bool) → List Bytes → Bool
any_of p [] = false
any_of p (x ∷ xs) = p x || any_of p xs

any_of_iff :
    (p : Bytes → Bool) (P : Bytes → Type 0) (xs : List Bytes)
    → ((x : Bytes) → (p x ≡ true) ↔ P x)
    → (any_of p xs ≡ true) ↔ Any P xs
any_of_iff p P [] f = (λ h. cc, λ h. absurd h)
any_of_iff p P (x ∷ xs) f = ground (arith, f x, any_of_iff p P xs f)

path_loop_any :
    (found out : Bool) (path : Bytes) (ps : List Bytes)
    → path_loop found out path ps ≡ (if any_of (is_under path) ps then found else out)
unfolding path_loop
path_loop_any found out path [] = refl
path_loop_any found out path (p ∷ ps) = ground (arith, path_loop_any found out path ps)

pattern_loop_any :
    (found out : Bool) (file : Bytes) (ps : List Bytes)
    → pattern_loop found out file ps ≡ (if any_of (contains file) ps then found else out)
unfolding pattern_loop
pattern_loop_any found out file [] = refl
pattern_loop_any found out file (p ∷ ps) =
    ground (arith, pattern_loop_any found (if contains file p then found else out) file ps)

abbrev accepted : (Bytes → Bool) → List Bytes → List Bytes → Bool
accepted p includes excludes = (is_empty includes || any_of p includes) && not (any_of p excludes)

-- Included by one of `includes`, or by default if there are none, and by none of `excludes`.
abbrev pub Accepted : (Bytes → Type 0) → List Bytes → List Bytes → Type 0
Accepted P includes excludes = ((includes ≡ []) ⊎ Any P includes) × (Any P excludes → ⊥)

accepted_iff :
    (p : Bytes → Bool) (P : Bytes → Type 0) (includes excludes : List Bytes)
    → ((x : Bytes) → (p x ≡ true) ↔ P x)
    → (accepted p includes excludes ≡ true) ↔ Accepted P includes excludes
accepted_iff p P [] excludes f = ground (arith, any_of_iff p P excludes f)
accepted_iff p P (i ∷ is) excludes f =
    ground (arith, any_of_iff p P (i ∷ is) f, any_of_iff p P excludes f)

path_accepted :
    (real : Bytes → Bytes) (h : PathHandler) (file : Bytes)
    → Paths.include_file real h file
      ≡ accepted (is_under (real file)) h.include_paths h.exclude_paths
unfolding Paths.include_file
path_accepted real h file =
    let start = (if is_empty h.include_paths then true else false) in
    ground (
      arith,
      path_loop_any true start (real file) h.include_paths,
      path_loop_any false (path_loop true start (real file) h.include_paths) (real file)
          h.exclude_paths,
    )

pattern_accepted :
    (h : PatternHandler) (file : Bytes)
    → Patterns.include_file h file ≡ accepted (contains file) h.include_patterns h.exclude_patterns
unfolding Patterns.include_file
pattern_accepted h file =
    let start = (if is_empty h.include_patterns then true else false) in
    ground (
      arith,
      pattern_loop_any true start file h.include_patterns,
      pattern_loop_any false (pattern_loop true start file h.include_patterns) file
          h.exclude_patterns,
    )

-- A handler that is not set up would accept every file.
run_filters_both :
    (fs : FileSystem) (f : Filter) (file : Bytes)
    → run_filters fs f file
      ≡ (Paths.include_file fs.real f.paths file && Patterns.include_file f.patterns file)
unfolding run_filters Paths.is_setup Patterns.is_setup Paths.include_file Patterns.include_file
run_filters_both fs f file = ground arith

abbrev pub IsPart : Bytes → Bytes → Type 0
IsPart file pattern = (before after : Bytes) × (file ≡ before ++ (pattern ++ after))

-- A file is accepted exactly when its real path is one of the --include-path directories or below
-- one, or none is given, and it is in or below no --exclude-path; and some --include-pattern, or
-- none is given, and no --exclude-pattern is a part of its name.
pub run_filters_iff :
    (fs : FileSystem) (f : Filter) (file : Bytes)
    → (run_filters fs f file ≡ true) ↔ (
        Accepted (IsUnder (fs.real file)) f.paths.include_paths f.paths.exclude_paths
        × Accepted (IsPart file) f.patterns.include_patterns f.patterns.exclude_patterns)
run_filters_iff fs f file = ground (
  arith,
  run_filters_both fs f file,
  path_accepted fs.real f.paths file,
  pattern_accepted f.patterns file,
  accepted_iff (is_under (fs.real file)) (IsUnder (fs.real file)) f.paths.include_paths
      f.paths.exclude_paths (is_under_iff (fs.real file)),
  accepted_iff (contains file) (IsPart file) f.patterns.include_patterns f.patterns.exclude_patterns
      (contains_iff file),
)
