-- ===== src/Filter/Files.antt =====
-- Filter and BasicFilter of src/filter.cc, composed from the handlers.
use kcov.Prelude.{Bool, true, ◌&&◌, Bytes, ltb, length, if◌then◌else◌}
use kcov.Filter.Patterns
use kcov.Filter.Patterns.{PatternHandler}
use kcov.Filter.Paths
use kcov.Filter.Paths.{PathHandler}

-- What the filter calls and does not implement: get_real_path, and std::regex_replace of the
-- pattern `orig_root` by `new_root` in a text.
pub record FileSystem : Type 0 where
  pub real : Bytes → Bytes
  pub regex_replace : Bytes → Bytes → Bytes → Bytes

pub record Filter : Type 0 where
  pub patterns : PatternHandler
  pub paths : PathHandler
  pub orig_root : Bytes
  pub new_root : Bytes

unfoldable pub run_filters : FileSystem → Filter → Bytes → Bool
run_filters fs f file =
    let out = (if Paths.is_setup f.paths then Paths.include_file fs.real f.paths file else true) in
    if out && Patterns.is_setup f.patterns then Patterns.include_file f.patterns file else out

unfoldable pub mangle_source_path : FileSystem → Filter → Bytes → Bytes
mangle_source_path fs f path =
    let filename = fs.real path in
    if ltb 0 (length f.orig_root) && ltb 0 (length f.new_root)
    then fs.real (fs.regex_replace filename f.orig_root f.new_root)
    else filename
