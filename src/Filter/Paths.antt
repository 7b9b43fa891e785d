-- ===== src/Filter/Paths.antt =====
-- Filter::PathHandler of src/filter.cc: --include-path and --exclude-path.
-- `real` stands for get_real_path of src/utils.cc, whose cache the module RealPath models.
use kcov.Prelude.{
  ℕ, Bool, true, false, not, ◌&&◌, ◌||◌, List, [], ◌∷◌, map, Bytes, leb, eqb, if◌then◌else◌, length,
  get_elem?, Option, none, some,
}
use kcov.Strings.Find.{starts_with}
use kcov.Filter.Patterns.{is_empty}

pub record PathHandler : Type 0 where
  pub include_paths : List Bytes
  pub exclude_paths : List Bytes

-- The constructor replaces each configured path by its real path.
unfoldable pub new_path_handler : (Bytes → Bytes) → List Bytes → List Bytes → PathHandler
new_path_handler real includes excludes = record {
  include_paths = map real includes;
  exclude_paths = map real excludes;
}

unfoldable pub is_setup : PathHandler → Bool
is_setup h = not (is_empty h.include_paths && is_empty h.exclude_paths)

abbrev pub char_is : Option ℕ → ℕ → Bool
char_is none c = false
char_is (some d) c = eqb d c

-- find(pathPattern) ≟ 0 && (size() <= last || pathStr[last] ≟ '/')
unfoldable pub is_under : Bytes → Bytes → Bool
is_under path pattern =
    let last = length pattern in
    starts_with path pattern && (leb (length path) last || char_is (get_elem? path last) b'/')

-- Both loops end at the first path that fits.
unfoldable pub path_loop : Bool → Bool → Bytes → List Bytes → Bool
path_loop found out path [] = out
path_loop found out path (p ∷ ps) =
    let rest = path_loop found out path ps in if is_under path p then found else rest

unfoldable pub include_file : (Bytes → Bytes) → PathHandler → Bytes → Bool
include_file real h file =
    if is_empty h.include_paths && is_empty h.exclude_paths
    then true
    else (let out = (if is_empty h.include_paths then true else false) in
        let path = real file in
        let included = path_loop true out path h.include_paths in
        path_loop false included path h.exclude_paths)
