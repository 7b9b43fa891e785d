-- ===== src/Writers.antt =====
-- WriterBase of src/writers/writer-base.cc: the files that the writers print, and the path that
-- they have in common. A File stands for its name; its lines, which the writers print, are left
-- out.
use kcov.Prelude.{
  ℕ, zero, suc, ◌≤◌, ◌<◌, ◌≡◌, ◌≢◌, refl, sym, subst, Bool, true, false, not, Option, none, some,
  List, [], ◌∷◌, ◌++◌, Bytes, ascii, arith, bytes_eq, if◌then◌else◌, length, length-take_le, take,
  All, Option-cases, Bool-cases, inl, inr, ◌⊎◌,
}
use kcov.Strings.Find.{starts_with}
use kcov.Strings.Paths.{rfind}

pub record WriterBase : Type 0 where
  pub files : List Bytes
  pub common_path : Bytes

abbrev pub new_writer_base : WriterBase
new_writer_base = record { files = []; common_path = ascii "not set" }

abbrev pub has_file : Bytes → List Bytes → Bool
has_file file [] = false
has_file file (name ∷ names) =
    let rest = has_file file names in if bytes_eq name file then true else rest

-- onLine, with the reporter's fileIsIncluded and file_exists.
unfoldable pub on_line : (Bytes → Bool) → (Bytes → Bool) → WriterBase → Bytes → WriterBase
on_line file_is_included file_exists w file =
    if not (file_is_included file)
    then w
    else if has_file file w.files
    then w
    else if not (file_exists file)
    then w
    else record w { files = w.files ++ file ∷ [] }

-- The loop that cuts the path at its last slash until it is a prefix of the name, or has none. Each
-- round makes the path shorter, so that its length is enough fuel.
abbrev pub cut_at : Bytes → Option ℕ → Option Bytes
cut_at path none = none
cut_at path (some pos) = some (take pos path)

abbrev pub cut_found : (Bytes → Bytes) → Bytes → Bytes → Option Bytes → Bytes
cut_found again name path none = path
cut_found again name path (some shorter) =
    if starts_with name shorter then shorter else again shorter

unfoldable pub cut_loop : ℕ → Bytes → Bytes → Bytes
cut_loop zero name path = path
cut_loop (suc n) name path = cut_found (cut_loop n name) name path (cut_at path (rfind b'/' path))

unfoldable pub with_name : Bytes → Bytes → Bytes
with_name path name =
    let path' = (if bytes_eq path (ascii "not set") then name else path) in
    if starts_with name path' then path' else cut_loop (length path') name path'

unfoldable pub common_loop : Bytes → List Bytes → Bytes
common_loop path [] = path
common_loop path (name ∷ names) = common_loop (with_name path name) names

unfoldable pub setup_common_paths : WriterBase → WriterBase
setup_common_paths w = record w { common_path = common_loop w.common_path w.files }

-- The path is empty or begins with a slash.
abbrev pub Absolute : Bytes → Type 0
Absolute [] = Unit {0}
Absolute (c ∷ s) = c ≡ b'/'

abbrev pub PrefixOf : Bytes → Bytes → Type 0
PrefixOf path name = starts_with name path ≡ true

take-PrefixOf : (k : ℕ) (path name : Bytes) → PrefixOf path name → PrefixOf (take k path) name
unfolding starts_with
take-PrefixOf zero path name h = refl
take-PrefixOf (suc k) [] name h = h
take-PrefixOf (suc k) (c ∷ path) [] h = h
take-PrefixOf (suc k) (c ∷ path) (d ∷ name) h = ground (arith, take-PrefixOf k path name)

take-Absolute : (k : ℕ) (path : Bytes) → Absolute path → Absolute (take k path)
take-Absolute zero path h = tt
take-Absolute (suc k) [] h = h
take-Absolute (suc k) (c ∷ path) h = h

PrefixOf-refl : (name : Bytes) → PrefixOf name name
unfolding starts_with
PrefixOf-refl [] = refl
PrefixOf-refl (c ∷ name) = ground (arith, PrefixOf-refl name)

rfind-lt : (c : ℕ) (path : Bytes) (pos : ℕ) → rfind c path ≡ some pos → pos < length path
unfolding rfind
rfind-lt c [] pos h = cc
rfind-lt c (x ∷ path) pos h = elim (Option-cases (rfind c path)) [
  | inl absent ↦ ground (arith, absent, h)
  | inr (p, found) ↦ ground (arith, found, h, rfind-lt c path p found)
]

-- A path that begins with a slash has one.
Absolute-rfind :
    (path : Bytes) → Absolute path → (path ≡ []) ⊎ ((pos : ℕ) × (rfind b'/' path ≡ some pos))
unfolding rfind
Absolute-rfind [] h = inl refl
Absolute-rfind (c ∷ path) h = elim (Option-cases (rfind b'/' path)) [
  | inl absent ↦ inr (0, ground (arith, absent, h))
  | inr (p, found) ↦ inr (suc p, ground (arith, found))
]

-- From one path to a shorter one that a name begins with, as do all that began with the old one.
abbrev Cut : Bytes → Bytes → Bytes → Type 0
Cut name path result =
    PrefixOf result name
    × Absolute result
    × ((other : Bytes) → PrefixOf path other → PrefixOf result other)

-- A path that a name does not begin with is not empty.
not_empty : (name path : Bytes) → starts_with name path ≡ false → path ≢ []
unfolding starts_with
not_empty name [] differs = cc
not_empty name (c ∷ path) differs = λ e. cc

cut_loop-Cut :
    (n : ℕ) (name path : Bytes)
    → length path ≤ n
    → Absolute path
    → starts_with name path ≡ false
    → Cut name path (cut_loop n name path)
unfolding cut_loop
cut_loop-Cut zero name [] le absolute differs = absurd (not_empty name [] differs refl)
cut_loop-Cut zero name (c ∷ path) le absolute differs = absurd (omega arith)
cut_loop-Cut (suc n) name path le absolute differs = elim (Absolute-rfind path absolute) [
  | inl empty ↦ absurd (not_empty name path differs empty)
  | inr (pos, found) ↦
      let shorter = take pos path in
      let short : length shorter ≤ n =
        omega (arith, rfind-lt b'/' path pos found, length-take_le pos path) in
      let absolute' = take-Absolute pos path absolute in
      let transfers = λ (other : Bytes). take-PrefixOf pos path other in
      subst (λ o. Cut name path (cut_found (cut_loop n name) name path (cut_at path o))) (sym found)
        (elim (Bool-cases (starts_with name shorter)) [
          | inl prefix ↦
              subst (λ b. Cut name path (if b then shorter else cut_loop n name shorter))
                (sym prefix) (prefix, absolute', transfers)
          | inr not_yet ↦
              let (is, absolute'', later) = cut_loop-Cut n name shorter short absolute' not_yet in
              subst (λ b. Cut name path (if b then shorter else cut_loop n name shorter))
                (sym not_yet) (is, absolute'', λ other h. later other (transfers other h))
        ])
]

not_not_set : (path : Bytes) → Absolute path → bytes_eq path (ascii "not set") ≡ false
unfolding bytes_eq
not_not_set [] h = refl
not_not_set (c ∷ path) h = ground (arith, h)

with_name-Cut : (path name : Bytes) → Absolute path → Cut name path (with_name path name)
unfolding with_name
with_name-Cut path name absolute =
    subst
      (λ b.
        let path' = (if b then name else path) in
        Cut name path
          (if starts_with name path' then path' else cut_loop (length path') name path'))
      (sym (not_not_set path absolute))
      (elim (Bool-cases (starts_with name path)) [
        | inl prefix ↦
            subst (λ b. Cut name path (if b then path else cut_loop (length path) name path))
              (sym prefix) (prefix, absolute, λ other h. h)
        | inr differs ↦
            subst (λ b. Cut name path (if b then path else cut_loop (length path) name path))
              (sym differs) (cut_loop-Cut (length path) name path (omega arith) absolute differs)
      ])

common_loop-PrefixOf :
    (path : Bytes) (names : List Bytes)
    → Absolute path
    → All (PrefixOf (common_loop path names)) names
      × ((other : Bytes) → PrefixOf path other → PrefixOf (common_loop path names) other)
unfolding common_loop
common_loop-PrefixOf path [] absolute = (tt, λ other h. h)
common_loop-PrefixOf path (name ∷ names) absolute =
    let (is, absolute', kept) = with_name-Cut path name absolute in
    let (all_, later) = common_loop-PrefixOf (with_name path name) names absolute' in
    ((later name is, all_), λ other h. later other (kept other h))

first_name : (name : Bytes) → with_name (ascii "not set") name ≡ name
unfolding with_name bytes_eq
first_name name = rw (PrefixOf-refl name) refl

-- The common path of files whose names begin with a slash is a prefix of every name.
pub setup_common_paths-PrefixOf :
    (files : List Bytes)
    → All Absolute files
    → All
        (PrefixOf (setup_common_paths (record new_writer_base { files = files })).common_path)
        files
unfolding setup_common_paths common_loop
setup_common_paths-PrefixOf [] absolute = tt
setup_common_paths-PrefixOf (name ∷ names) absolute =
    let (all_, later) = common_loop-PrefixOf name names absolute.0 in
    subst (λ path. All (PrefixOf (common_loop path names)) (name ∷ names)) (sym (first_name name))
      (later name (PrefixOf-refl name), all_)
