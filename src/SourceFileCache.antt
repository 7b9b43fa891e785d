-- ===== src/SourceFileCache.antt =====
-- src/source-file-cache.cc: the lines and the checksum of source files, read once.
-- A File object is never changed, and a pointer to it stands for its value.
use kcov.Prelude.{
  ℕ, ◌≡◌, refl, Bool, true, false, not, Option, none, some, List, [], ◌∷◌, Bytes, if◌then◌else◌,
  name_key, Option-cases, inl, inr,
}
use kcov.Prelude.Table.{Table, find, insert, Matches, insert-Matches}
use kcov.Strings.Split.{split_string}

-- file_exists and read_file of src/utils.cc, and hash_block.
pub record FileSystem : Type 0 where
  pub file_exists : Bytes → Bool
  pub read_file : Bytes → Option Bytes
  pub hash_block : Bytes → ℕ

pub record File : Type 0 where
  pub lines : List Bytes
  pub crc : ℕ

abbrev pub empty_file : File
empty_file = record { lines = []; crc = 0 }

unfoldable pub new_file : FileSystem → Bytes → File
new_file fs data_ = record { lines = split_string data_ b'\n'; crc = fs.hash_block data_ }

abbrev pub Cache : Type 0
Cache = Table Bytes File

abbrev pub read_or_empty : FileSystem → Option Bytes → File
read_or_empty fs none = empty_file
read_or_empty fs (some data_) = new_file fs data_

-- The file that is put in the cache.
unfoldable pub file_of : FileSystem → Bytes → File
file_of fs file_path =
    if not (fs.file_exists file_path) then empty_file else read_or_empty fs (fs.read_file file_path)

abbrev pub lookup_found : FileSystem → Cache → Bytes → Option File → Cache × File
lookup_found fs files file_path (some file) = (files, file)
lookup_found fs files file_path none =
    let file = file_of fs file_path in (insert file_path file files, file)

unfoldable pub lookup_file : FileSystem → Cache → Bytes → Cache × File
lookup_file fs files file_path = lookup_found fs files file_path (find file_path files)

abbrev is_empty_list : List Bytes → Bool
is_empty_list [] = true
is_empty_list (line ∷ lines) = false

unfoldable pub get_lines : FileSystem → Cache → Bytes → Cache × List Bytes
get_lines fs files file_path =
    let (files', file) = lookup_file fs files file_path in (files', file.lines)

unfoldable pub file_exists : FileSystem → Cache → Bytes → Cache × Bool
file_exists fs files file_path =
    let (files', file) = lookup_file fs files file_path in (files', not (is_empty_list file.lines))

unfoldable pub get_crc : FileSystem → Cache → Bytes → Cache × ℕ
get_crc fs files file_path =
    let (files', file) = lookup_file fs files file_path in (files', file.crc)

-- The cache holds what the file system has.
abbrev pub Current : FileSystem → Cache → Type 0
Current fs files = Matches (file_of fs) files

-- A lookup gives what the file system has, and keeps the cache so.
pub lookup_file-Current :
    (fs : FileSystem) (files : Cache) (path : Bytes)
    → Current fs files
    → Current fs (lookup_file fs files path).0 × ((lookup_file fs files path).1 ≡ file_of fs path)
unfolding lookup_file
lookup_file-Current fs files path current = elim (Option-cases (find path files)) [
  | inl absent ↦ rw absent (insert-Matches (file_of fs) path files current, refl)
  | inr (file, there) ↦ rw there (current, current path file there)
]
